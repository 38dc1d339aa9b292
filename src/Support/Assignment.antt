-- ===== src/Support/Assignment.antt =====
-- First come, first served: what the second operator meets.
use stapel_chat.Base.{
  Bool-cases, List, [], ap, arith, false, find?, inl, inr, is_id, some, true, update_where, ℕ, ◌==◌,
  ◌∙◌, ◌∷◌, ◌≡◌, ◌⊎◌,
}
use stapel_chat.Model.{Conversation}
use stapel_chat.Sending.{get_conversation}
use stapel_chat.Support.{
  assign_locked, seat_and_emit, seat_operator, store_operator, taken_by_other, with_operator,
}
use stapel_chat.World.{World, already_assigned, err, ok}

get_conversation-store :
    (cid user now : ℕ) (cs : List Conversation) (c : Conversation)
    → find? (λ (k : Conversation). k.id == cid) cs ≡ some c
    → find?
        (λ (k : Conversation). k.id == cid)
        (update_where (λ (k : Conversation). k.id == cid) (with_operator user now) cs)
      ≡ some (with_operator user now c)
get_conversation-store cid user now [] c e = absurd (ground arith)
get_conversation-store cid user now (k ∷ cs) c e =
    ground (arith, get_conversation-store cid user now cs c)

seat_operator_conversations :
    (cid user : ℕ) (w : World) → (seat_operator cid user w).conversations ≡ w.conversations
unfolding seat_operator
seat_operator_conversations cid user w = ground arith

seat_and_emit_conversations :
    (c : Conversation) (user : ℕ) (w : World)
    → (seat_and_emit c user w).conversations ≡ (store_operator c.id user w).conversations
unfolding seat_and_emit
seat_and_emit_conversations c user w =
    ground (arith, seat_operator_conversations c.id user (store_operator c.id user w))

-- What the locked assignment does, on each of its branches.
pub assign_locked-cases :
    (cid user : ℕ) (w : World) (c : Conversation)
    → get_conversation cid w ≡ some c
    → ((taken_by_other c.assigned_operator user ≡ true)
        × (assign_locked cid user w ≡ (err already_assigned, w)))
      ⊎ ((taken_by_other c.assigned_operator user ≡ false)
          × (assign_locked cid user w ≡ (
            ok (with_operator user w.clock c, is_id c.assigned_operator user),
            seat_and_emit c user w,
          )))
unfolding assign_locked get_conversation
assign_locked-cases cid user w c e = elim (Bool-cases (taken_by_other c.assigned_operator user)) [
  | inl t ↦ inl (t, ground arith)
  | inr t ↦ inr (t, ground arith)
]

-- After a successful assignment the row has its operator.
pub assigned :
    (cid user : ℕ) (w : World) (c : Conversation)
    → get_conversation cid w ≡ some c
    → c.id ≡ cid
    → get_conversation cid (seat_and_emit c user w) ≡ some (with_operator user w.clock c)
unfolding get_conversation store_operator
assigned cid user w c e same =
    let rows : (seat_and_emit c user w).conversations ≡ (store_operator cid user w).conversations =
      seat_and_emit_conversations c user w
      ∙ ap (λ k. (store_operator k user w).conversations) same in
    rw rows (get_conversation-store cid user w.clock w.conversations c e)
