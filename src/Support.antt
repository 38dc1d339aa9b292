-- ===== src/Support.antt =====
-- services.py, "Support lifecycle": the queue, first-come assignment, and the status.
pub mod Assignment
pub mod Holding
pub mod Claims
use stapel_chat.Base.{
  Bool, List, Option, Text, [], codes, false, filter, if◌then◌else◌, is_id, is_some, none, not,
  order_by, some, true, update_where, ℕ, ◌&&◌, ◌++◌, ◌+◌, ◌==◌, ◌∷◌,
}
use stapel_chat.Membership.{any_row, is_member, store_participants}
use stapel_chat.Model.{
  Conversation, SupportStatus, is_support, operator, status_open, status_pending, status_resolved,
  system_kind,
}
use stapel_chat.Sending.{get_conversation}
use stapel_chat.Sending.Post.{post_message, undisturbed}
use stapel_chat.Settings.{Host}
use stapel_chat.World.{
  Exec, World, already_assigned, atomic, does_not_exist, emit, err, gets, modify, not_support, ok,
  pure, raise_if, support_assigned, ◌>>=◌, ◌>>◌,
}

abbrev is_queued_status : Option SupportStatus → Bool
is_queued_status none = false
is_queued_status (some status_open) = true
is_queued_status (some status_pending) = true
is_queued_status (some status_resolved) = false

abbrev pub is_queued : Conversation → Bool
is_queued c =
    is_support c.kind && (not (is_some c.assigned_operator) && is_queued_status c.support_status)

-- `support_queue`
unfoldable pub support_queue : World → List Conversation
support_queue w = order_by (λ c. c.created_at) (filter is_queued w.conversations)

-- `conv.assigned_operator_id and conv.assigned_operator_id != operator.id`
abbrev pub taken_by_other : Option ℕ → ℕ → Bool
taken_by_other none user = false
taken_by_other (some other) user = not (other == user)

abbrev pub with_operator : ℕ → ℕ → Conversation → Conversation
with_operator user now c = record c { assigned_operator = some user; updated_at = now }

-- `update_or_create(conversation, user, defaults={"role": OPERATOR})`
unfoldable pub seat_operator : ℕ → ℕ → World → World
seat_operator cid user w =
    if any_row (is_member cid user) w
    then store_participants (is_member cid user)
        (λ p. record p { role = operator; updated_at = w.clock }) w
    else record w {
      participants =
          w.participants
          ++ record {
            id = w.next_id;
            conversation = cid;
            user = user;
            role = operator;
            last_read_seq = 0;
            last_delivered_seq = 0;
            left_at = none;
            cleared_at = none;
            created_at = w.clock;
            updated_at = w.clock;
          }
            ∷ [];
      next_id = w.next_id + 1;
    }

unfoldable pub store_operator : ℕ → ℕ → World → World
store_operator cid user w = record w {
  conversations =
      update_where (λ (c : Conversation). c.id == cid) (with_operator user w.clock) w.conversations;
}

-- The writes of the assigning transaction; the event only where the operator is new.
unfoldable pub seat_and_emit : Conversation → ℕ → World → World
seat_and_emit c user w =
    let seated = seat_operator c.id user (store_operator c.id user w) in
    if is_id c.assigned_operator user
    then seated
    else emit (support_assigned c.id user c.scope_key) seated

-- The locked part of `assign_operator`: the row as it now is, and whether it was this operator's.
unfoldable pub assign_locked : ℕ → ℕ → Exec (Conversation × Bool)
unfolding get_conversation
assign_locked cid user w = elim (get_conversation cid w) [
  | none ↦ (err does_not_exist, w)
  | some c ↦ if taken_by_other c.assigned_operator user then (err already_assigned, w) else (
    ok (with_operator user w.clock c, is_id c.assigned_operator user),
    seat_and_emit c user w,
  )
]

-- The system line of a new assignment.
unfoldable pub announce_assignment : Host → Conversation × Bool → Exec Conversation
announce_assignment host (conv, true) = pure conv
announce_assignment host (conv, false) = do
  post_message host undisturbed conv none (codes "chat.support.assigned") [] none system_kind []
  pure conv

unfoldable pub assign_operator : Host → Conversation → ℕ → Exec Conversation
assign_operator host conversation user = do
  raise_if (not (is_support conversation.kind)) not_support
  seated ← atomic (assign_locked conversation.id user)
  announce_assignment host seated

abbrev pub with_status : SupportStatus → ℕ → Conversation → Conversation
with_status status now c = record c { support_status = some status; updated_at = now }

unfoldable pub store_status : ℕ → SupportStatus → World → World
store_status cid status w = record w {
  conversations =
      update_where (λ (c : Conversation). c.id == cid) (with_status status w.clock) w.conversations;
}

abbrev pub post_marker : Host → Conversation → Text → Exec Unit
post_marker host conv [] = pure tt
post_marker host conv (k ∷ marker) = do
  post_message host undisturbed conv none (k ∷ marker) [] none system_kind []
  pure tt

unfoldable pub set_support_status : Host → Conversation → SupportStatus → Text → Exec Conversation
set_support_status host conv status marker = do
  raise_if (not (is_support conv.kind)) not_support
  now ← gets (λ w. w.clock)
  modify (store_status conv.id status)
  post_marker host (with_status status now conv) marker
  pure (with_status status now conv)

unfoldable pub resolve_support : Host → Conversation → Exec Conversation
resolve_support host conv =
    set_support_status host conv status_resolved (codes "chat.support.resolved")

unfoldable pub reopen_support : Host → Conversation → Exec Conversation
reopen_support host conv = set_support_status host conv status_open (codes "chat.support.reopened")
