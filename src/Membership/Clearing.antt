-- ===== src/Membership/Clearing.antt =====
-- Clearing one's history: what the caller is served afterwards, and what the others are.
use stapel_chat.Base.{
  ==_ne, All, Bool-cases, In, In-All, List, Option, Option-cases, [], any, ap, arith, false, filter,
  filter-In, find?, inl, inr, ltb→lt, none, order_by, order_by-In, refl, some, subst, sym, take-In,
  true, update_where, ℕ, ◌<◌, ◌==◌, ◌∙◌, ◌∷◌, ◌≡◌, ◌≢◌,
}
use stapel_chat.History.{cleared_at_of, is_pending, is_visible, journal_rows}
use stapel_chat.Membership.{clear_conversation, is_member}
use stapel_chat.Model.{Message, Participant}
use stapel_chat.World.{World, ok}

abbrev mark_of : Option Participant → Option ℕ
mark_of none = none
mark_of (some p) = p.cleared_at

abbrev with_mark : ℕ → Participant → Participant
with_mark now p = record p { cleared_at = some now }

own_mark :
    (cid user now : ℕ) (ps : List Participant)
    → any (is_member cid user) ps ≡ true
    → mark_of (find? (is_member cid user) (update_where (is_member cid user) (with_mark now) ps))
      ≡ some now
own_mark cid user now [] h = absurd (ground arith)
own_mark cid user now (p ∷ ps) h = elim (Bool-cases (is_member cid user p)) [
  | inl t ↦ rw (t, t) refl
  | inr t ↦ rw (t, t) (own_mark cid user now ps (ground arith))
]

other_mark :
    (cid user other now : ℕ) (ps : List Participant)
    → (other == user) ≡ false
    → mark_of (find? (is_member cid other) (update_where (is_member cid user) (with_mark now) ps))
      ≡ mark_of (find? (is_member cid other) ps)
other_mark cid user other now [] h = refl
other_mark cid user other now (p ∷ ps) h =
    let rest = other_mark cid user other now ps h in
    elim (Bool-cases (is_member cid user p)) [
      | inl t ↦ let apart : is_member cid other p ≡ false = ground arith in rw (t, apart) rest
      | inr t ↦ elim (Bool-cases (is_member cid other p)) [
        | inl s ↦ rw (t, s) refl
        | inr s ↦ rw (t, s) rest
      ]
    ]

cleared_world :
    (cid user : ℕ) (w v : World) (mark : ℕ)
    → clear_conversation cid user w ≡ (ok (some mark), v)
    → (any (is_member cid user) w.participants ≡ true)
      × (mark ≡ w.clock)
      × (v.participants ≡ update_where (is_member cid user) (with_mark w.clock) w.participants)
unfolding clear_conversation
cleared_world cid user w v mark h = elim (Bool-cases (any (is_member cid user) w.participants)) [
  | inl t ↦ (t, ground arith, ground arith)
  | inr t ↦ absurd (ground arith)
]

mark_of-find :
    (w : World) (cid user : ℕ)
    → cleared_at_of w cid user ≡ mark_of (find? (is_member cid user) w.participants)
unfolding cleared_at_of
mark_of-find w cid user = elim (Option-cases (find? (is_member cid user) w.participants)) [
  | inl e ↦ rw (cleared_at_of, e) refl
  | inr (p, e) ↦ rw (cleared_at_of, e) refl
]

served_visible :
    (w : World) (cid after limit : ℕ) (mark : Option ℕ) (m : Message)
    → In m (journal_rows w cid after limit mark)
    → is_visible mark m ≡ true
unfolding journal_rows
served_visible w cid after limit mark m i =
    let pending = filter (is_pending cid after mark) w.messages in
    let row = filter-In (is_pending cid after mark) w.messages m (
      order_by-In (λ m. m.rev_seq) pending m
        (take-In limit (order_by (λ m. m.rev_seq) pending) m i)) in
    let test = row.1 in ground arith

-- A clearing that answers with a mark has put it on the caller's row, and it is the time of the
-- clearing. As long as the caller's mark stays that one, a page of the replay serves them only what
-- was created after it.
pub clear_conversation_hides :
    (cid user after limit : ℕ) (w v u : World) (mark : ℕ)
    → clear_conversation cid user w ≡ (ok (some mark), v)
    → cleared_at_of u cid user ≡ cleared_at_of v cid user
    → (cleared_at_of v cid user ≡ some mark)
      × (mark ≡ w.clock)
      × All
          (λ (m : Message). mark < m.created_at)
          (journal_rows u cid after limit (cleared_at_of u cid user))
clear_conversation_hides cid user after limit w v u mark h kept =
    let (here, same, rows) = cleared_world cid user w v mark h in
    let own : cleared_at_of v cid user ≡ some mark =
      mark_of-find v cid user
      ∙ (rw rows (own_mark cid user w.clock w.participants here) ∙ ap some (sym same)) in
    (
      own,
      same,
      In-All _ _ (λ m i.
          let on_page : In m (journal_rows u cid after limit (some mark)) =
            subst (λ o. In m (journal_rows u cid after limit o)) (kept ∙ own) i in
          ltb→lt mark m.created_at
            (unfold is_visible in served_visible u cid after limit (some mark) m on_page)),
    )

-- A clearing leaves everybody else's mark as it was.
pub clear_conversation_alone :
    (cid user other : ℕ) (w v : World) (mark : ℕ)
    → other ≢ user
    → clear_conversation cid user w ≡ (ok (some mark), v)
    → cleared_at_of v cid other ≡ cleared_at_of w cid other
clear_conversation_alone cid user other w v mark apart h =
    let (here, same, rows) = cleared_world cid user w v mark h in
    mark_of-find v cid other
    ∙ (rw rows (other_mark cid user other w.clock w.participants (==_ne other user apart))
        ∙ sym (mark_of-find w cid other))
