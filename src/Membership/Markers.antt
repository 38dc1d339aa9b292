-- ===== src/Membership/Markers.antt =====
-- The markers only move forward, and the two definitions of "unread" agree.
use stapel_chat.Base.{
  All, All-find?, Bool-cases, In, In-All, List, Option, [], any, ap, arith, false, filter, find?,
  inl, inr, length, ltb, lt→ltb, none, not, refl, some, subst, sym, true, update_where, ℕ, ◌&&◌,
  ◌<◌, ◌==◌, ◌∙◌, ◌∷◌, ◌≡◌, ◌≤◌,
}
use stapel_chat.History.{is_visible}
use stapel_chat.Membership.{
  history_floor, is_member, is_someone_else, is_unread, mark_read, unread_before, unread_count,
  viewer_cleared_at, viewer_last_read_seq, viewer_unread,
}
use stapel_chat.Model.{Message, Participant, is_deleted}
use stapel_chat.World.{World, ok}

-- A row's markers do not lie behind another row's.
pub record NotBehind (p q : Participant) : Type 0 where
  pub same_person : (q.user ≡ p.user) × (q.conversation ≡ p.conversation)
  pub read_forward : p.last_read_seq ≤ q.last_read_seq
  pub delivered_forward : p.last_delivered_seq ≤ q.last_delivered_seq

-- The rows of two participant tables, one by one.
abbrev pub Forward : List Participant → List Participant → Type 0
Forward [] [] = Unit
Forward [] (q ∷ qs) = ⊥
Forward (p ∷ ps) [] = ⊥
Forward (p ∷ ps) (q ∷ qs) = NotBehind p q × Forward ps qs

-- The marker of a person in a thread, where there is a row.
abbrev pub read_marker : ℕ → ℕ → World → Option ℕ
read_marker cid user w = elim (find? (is_member cid user) w.participants) [
  | none ↦ none
  | some p ↦ some p.last_read_seq
]

read_rows-Forward :
    (cid user upto : ℕ) (ps : List Participant)
    → Forward ps
        (update_where (unread_before cid user upto) (λ p. record p { last_read_seq = upto }) ps)
read_rows-Forward cid user upto [] = tt
read_rows-Forward cid user upto (p ∷ ps) = elim (Bool-cases (unread_before cid user upto p)) [
  | inl t ↦ rw t (
    record {
      same_person = (refl, refl);
      read_forward = ground arith;
      delivered_forward = omega arith;
    },
    read_rows-Forward cid user upto ps,
  )
  | inr t ↦ rw t (
    record {
      same_person = (refl, refl);
      read_forward = omega arith;
      delivered_forward = omega arith;
    },
    read_rows-Forward cid user upto ps,
  )
]

Forward-refl : (ps : List Participant) → Forward ps ps
Forward-refl [] = tt
Forward-refl (p ∷ ps) = (
  record {
    same_person = (refl, refl);
    read_forward = omega arith;
    delivered_forward = omega arith;
  },
  Forward-refl ps,
)

none_unread :
    (cid user upto : ℕ) (ps : List Participant)
    → any (unread_before cid user upto) ps ≡ false
    → (p : Participant) → In p ps
    → is_member cid user p ≡ true
    → upto ≤ p.last_read_seq
none_unread cid user upto [] h p i m = absurd i.1
none_unread cid user upto (q ∷ ps) h p (inl e) m =
    let at_q : is_member cid user q ≡ true = ap (is_member cid user) (sym e) ∙ m in
    let le : upto ≤ q.last_read_seq = ground arith in subst (λ z. upto ≤ z.last_read_seq) (sym e) le
none_unread cid user upto (q ∷ ps) h p (inr i) m = none_unread cid user upto ps (ground arith) p i m

-- `mark_read` moves no marker of anybody backwards, and adds or removes no row.
pub mark_read-Forward :
    (cid user upto : ℕ) (w : World)
    → Forward w.participants (mark_read cid user upto w).1.participants
unfolding mark_read
mark_read-Forward cid user upto w =
    elim (Bool-cases (any (unread_before cid user upto) w.participants)) [
      | inl t ↦ rw t (read_rows-Forward cid user upto w.participants)
      | inr t ↦ rw t (Forward-refl w.participants)
    ]

-- When `mark_read` answers that nothing moved, the state is unchanged, and each row of the caller
-- was already at the mark or past it.
pub mark_read_unmoved :
    (cid user upto : ℕ) (w : World) (p : Participant)
    → (mark_read cid user upto w).0 ≡ ok false
    → In p w.participants
    → is_member cid user p ≡ true
    → ((mark_read cid user upto w).1 ≡ w) × (upto ≤ p.last_read_seq)
unfolding mark_read
mark_read_unmoved cid user upto w p e i m =
    elim (Bool-cases (any (unread_before cid user upto) w.participants)) [
      | inl t ↦ absurd (ground arith)
      | inr t ↦ (rw t refl, none_unread cid user upto w.participants t p i m)
    ]

-- With the viewer's row in hand and no message before the floor, the page's count is the row's.
filters_agree :
    (cid read viewer : ℕ) (mark : Option ℕ) (ms : List Message)
    → All (λ (m : Message). history_floor < m.created_at) ms
    → filter
        (λ (m : Message).
          m.conversation == cid
          && (ltb read m.seq
              && (ltb (elim mark [ none ↦ history_floor | some t ↦ t ]) m.created_at
                  && (is_someone_else m.sender viewer && not (is_deleted m)))))
        ms
      ≡ filter (is_unread cid read mark viewer) ms
unfolding is_visible
filters_agree cid read viewer none [] h = refl
filters_agree cid read viewer (some t) [] h = refl
filters_agree cid read viewer none (m ∷ ms) h =
    let late : ltb 0 m.created_at ≡ true = lt→ltb 0 m.created_at h.0 in
    rw (late, filters_agree cid read viewer none ms h.1)
filters_agree cid read viewer (some t) (m ∷ ms) h =
    rw (filters_agree cid read viewer (some t) ms h.1)

-- The count on an annotated page and the count of one conversation are one number.
pub viewer_unread-eq :
    (w : World) (cid viewer : ℕ) (p : Participant)
    → find? (is_member cid viewer) w.participants ≡ some p
    → All (λ (m : Message). history_floor < m.created_at) w.messages
    → viewer_unread w cid viewer ≡ unread_count w p
unfolding viewer_unread unread_count
viewer_unread-eq w cid viewer p e h =
    let test =
      (All-find? (λ (x : Participant). Unit {0}) (is_member cid viewer) w.participants
        (In-All _ w.participants (λ a i. tt)) e).1 in
    let thread : p.conversation ≡ cid = ground arith in
    let person : p.user ≡ viewer = ground arith in
    let floor : viewer_cleared_at w cid viewer
        ≡ elim p.cleared_at [ none ↦ history_floor | some t ↦ t ] =
      unfold viewer_cleared_at in ground arith in
    let read : viewer_last_read_seq w cid viewer ≡ p.last_read_seq =
      unfold viewer_last_read_seq in ground arith in
    rw (floor, read, thread, person)
      (ap length (filters_agree cid p.last_read_seq viewer p.cleared_at w.messages h))
