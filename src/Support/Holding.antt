-- ===== src/Support/Holding.antt =====
-- A claim and a resolution go through: who holds a support thread, and that it can be closed.
use stapel_chat.Base.{
  Bool, Bool-cases, List, Option-cases, Text, [], any, any-eq-is_some, ap, arith, false, find?, inl,
  inr, is_some, none, refl, some, true, update_where, ℕ, ◌++◌, ◌+◌, ◌==◌, ◌∙◌, ◌∷◌, ◌≡◌,
}
use stapel_chat.Journal.Line.{LineLeft}
use stapel_chat.Membership.{is_member}
use stapel_chat.Model.{Conversation, Participant, is_support, operator}
use stapel_chat.Sending.{get_conversation, store_last_seq, with_last_seq}
use stapel_chat.Support.{seat_and_emit, seat_operator, store_operator, with_operator}
use stapel_chat.Support.Assignment.{assigned}
use stapel_chat.World.{World}

-- The person is the thread's operator, and has an operator's seat in it.
pub record IsHeldBy (cid user : ℕ) (key : Text) (w : World) : Type 0 where
  pub row : Conversation
  pub found : get_conversation cid w ≡ some row
  pub same_scope : row.scope_key ≡ key
  pub for_support : is_support row.kind ≡ true
  pub by_user : row.assigned_operator ≡ some user
  pub seat_row : Participant
  pub seated : find? (is_member cid user) w.participants ≡ some seat_row
  pub as_operator : seat_row.role ≡ operator

-- A change that keeps the id, seen through its own row.
pub get_updated :
    (cid : ℕ) (change : Conversation → Conversation)
    → ((c : Conversation) → (change c).id ≡ c.id)
    → (cs : List Conversation) (c : Conversation)
    → find? (λ (k : Conversation). k.id == cid) cs ≡ some c
    → find?
        (λ (k : Conversation). k.id == cid)
        (update_where (λ (k : Conversation). k.id == cid) change cs)
      ≡ some (change c)
get_updated cid change keeps [] c e = absurd (ground arith)
get_updated cid change keeps (k ∷ cs) c e = elim (Bool-cases (k.id == cid)) [
  | inl t ↦
      let test : ((change k).id == cid) ≡ true = ap (λ n. n == cid) (keeps k) ∙ t in
      let same : k ≡ c = ground arith in rw (t, test) (ap (λ x. some (change x)) same)
  | inr t ↦ rw (t, t) (get_updated cid change keeps cs c (rw t at e))
]

find_updated :
    (test : Participant → Bool) (change : Participant → Participant) (ps : List Participant)
    (p : Participant)
    → ((q : Participant) → test (change q) ≡ test q)
    → find? test ps ≡ some p
    → find? test (update_where test change ps) ≡ some (change p)
find_updated test change [] p keeps e = absurd (ground arith)
find_updated test change (q ∷ ps) p keeps e = elim (Bool-cases (test q)) [
  | inl t ↦ let same : q ≡ p = ground arith in rw (t, keeps q ∙ t) (ap (λ x. some (change x)) same)
  | inr t ↦ rw (t, t) (find_updated test change ps p keeps (rw t at e))
]

find_last :
    (test : Participant → Bool) (ps : List Participant) (p : Participant)
    → find? test ps ≡ none
    → test p ≡ true
    → find? test (ps ++ p ∷ []) ≡ some p
find_last test [] p e t = ground arith
find_last test (q ∷ ps) p e t = ground (arith, find_last test ps p)

-- After the seating, the person has an operator's seat.
seat_operator_seated :
    (cid user : ℕ) (w : World)
    → (p : Participant) × (find? (is_member cid user) (seat_operator cid user w).participants
        ≡ some p)
      × (p.role ≡ operator)
unfolding seat_operator
seat_operator_seated cid user w = elim (Option-cases (find? (is_member cid user) w.participants)) [
  | inl e ↦
      let none_there : any (is_member cid user) w.participants ≡ false =
        any-eq-is_some (is_member cid user) w.participants ∙ ap is_some e in
      rw none_there (_, find_last (is_member cid user) w.participants _ e (ground arith), refl)
  | inr (p, e) ↦
      let there : any (is_member cid user) w.participants ≡ true =
        any-eq-is_some (is_member cid user) w.participants ∙ ap is_some e in
      rw there (
        record p { role = operator; updated_at = w.clock },
        find_updated (is_member cid user) (λ q. record q { role = operator; updated_at = w.clock })
            w.participants p (λ q. refl) e,
        refl,
      )
]

seat_and_emit_participants :
    (c : Conversation) (user : ℕ) (w : World)
    → (seat_and_emit c user w).participants
      ≡ (seat_operator c.id user (store_operator c.id user w)).participants
unfolding seat_and_emit
seat_and_emit_participants c user w = ground arith

-- The state after the locked assignment.
pub claimed-IsHeldBy :
    (c : Conversation) (user : ℕ) (w : World)
    → get_conversation c.id w ≡ some c
    → is_support c.kind ≡ true
    → IsHeldBy c.id user c.scope_key (seat_and_emit c user w)
claimed-IsHeldBy c user w e kind =
    let seat_there = seat_operator_seated c.id user (store_operator c.id user w) in
    record {
      row = with_operator user w.clock c;
      found = assigned c.id user w c e refl;
      same_scope = refl;
      for_support = kind;
      by_user = refl;
      seat_row = seat_there.0;
      seated =
          ap (find? (is_member c.id user)) (seat_and_emit_participants c user w) ∙ seat_there.1;
      as_operator = seat_there.2;
    }

-- A system line leaves the thread held.
pub line-IsHeldBy :
    (cid user : ℕ) (key : Text) (w v : World) (h : IsHeldBy cid user key w)
    → LineLeft cid h.row w v
    → IsHeldBy cid user key v
unfolding get_conversation store_last_seq
line-IsHeldBy cid user key w v h left = record {
  row = with_last_seq (h.row.last_seq + 1) w.clock h.row;
  found =
      ap (find? (λ (k : Conversation). k.id == cid)) left.raised
      ∙ get_updated cid (with_last_seq (h.row.last_seq + 1) w.clock) (λ k. refl) w.conversations
          h.row h.found;
  same_scope = h.same_scope;
  for_support = h.for_support;
  by_user = h.by_user;
  seat_row = h.seat_row;
  seated = ap (find? (is_member cid user)) left.same_participants ∙ h.seated;
  as_operator = h.as_operator;
}
