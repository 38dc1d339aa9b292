-- ===== src/Merging.antt =====
-- actions.py: an absorbed account's chat goes over to the survivor; services.py: the deletion of a
-- conversation, whose messages and participants go with it.
pub mod Ownership
pub mod Gdpr
pub mod Erasing
pub mod Erased
pub mod Forgotten
pub mod Redelivery
pub mod Seats
use stapel_chat.Base.{
  Bool, List, Option, Text, [], any, filter, find?, has_text, if◌then◌else◌, is_empty, is_id,
  is_some, map, max, none, not, order_by, some, text_eq, update_where, ℕ, ◌&&◌, ◌+◌, ◌==◌, ◌||◌,
  ◌∷◌,
}
use stapel_chat.Membership.{any_row, is_member}
use stapel_chat.Model.{Conversation, Message, Participant, direct_key_of, is_direct}
use stapel_chat.Sending.{message_refs, participant_ids, schedule_ref_sync, store_last_seq}
use stapel_chat.Settings.{Host}
use stapel_chat.World.{Exec, World, err, merge_target_not_ready, ok}

-- `_merge_participations`: the survivor's rows and the guest's
abbrev pub find_member : ℕ → ℕ → List Participant → Option Participant
find_member cid user ps = find? (is_member cid user) ps

-- The survivor's row after a fold: the markers only ever move forward.
abbrev pub folded : Participant → ℕ → Participant → Participant
folded guest now survivor =
    let read = max survivor.last_read_seq guest.last_read_seq in
    let delivered = max survivor.last_delivered_seq guest.last_delivered_seq in
    if read == survivor.last_read_seq && delivered == survivor.last_delivered_seq
    then survivor
    else record survivor { last_read_seq = read; last_delivered_seq = delivered; updated_at = now }

abbrev pub without_row : ℕ → List Participant → List Participant
without_row pid = filter (λ (p : Participant). not (p.id == pid))

-- One of the guest's rows: folded into the survivor's row of the thread, or handed over.
unfoldable pub merge_row : ℕ → ℕ → Participant → List Participant → List Participant
merge_row into now guest ps = elim (find_member guest.conversation into ps) [
  | some survivor ↦
      without_row guest.id
        (update_where (λ (p : Participant). p.id == survivor.id) (folded guest now) ps)
  | none ↦
      update_where (λ (p : Participant). p.id == guest.id)
        (λ p. record p { user = into; updated_at = now }) ps
]

unfoldable pub merge_rows : ℕ → ℕ → List Participant → List Participant → List Participant
unfolding merge_row
merge_rows into now [] ps = ps
merge_rows into now (guest ∷ guests) ps = merge_rows into now guests (merge_row into now guest ps)

unfoldable pub merge_participations : ℕ → ℕ → World → World
unfolding merge_rows
merge_participations from into w = record w {
  participants =
      merge_rows into w.clock (filter (λ (p : Participant). p.user == from) w.participants)
        w.participants;
}

-- The claims of a deleted conversation's messages, released after the delete.
unfoldable pub release_claims : List Message → World → World
unfolding schedule_ref_sync message_refs
release_claims [] w = w
release_claims (m ∷ ms) w =
    release_claims ms (schedule_ref_sync m.id (message_refs m.attachments) [] w)

-- The cascade: the row, its messages and its participants.
unfoldable pub remove_conversation : ℕ → World → World
remove_conversation cid w = record w {
  conversations = filter (λ (c : Conversation). not (c.id == cid)) w.conversations;
  messages = filter (λ (m : Message). not (m.conversation == cid)) w.messages;
  participants = filter (λ (p : Participant). not (p.conversation == cid)) w.participants;
}

-- `_delete_conversation_row`: the claims are read before the delete and published after it
unfoldable pub delete_conversation_row : ℕ → World → World
unfolding release_claims remove_conversation
delete_conversation_row cid w =
    release_claims (filter (λ (m : Message). m.conversation == cid) w.messages)
      (remove_conversation cid w)

-- A folded message, after the winner's mark; a key the winner already has is dropped.
abbrev pub folded_message : ℕ → ℕ → List Text → Message → Message
folded_message winner seq taken m = record m {
  conversation = winner;
  seq = seq;
  rev_seq = seq;
  client_msg_id =
      if not (is_empty m.client_msg_id) && has_text m.client_msg_id taken
      then []
      else m.client_msg_id;
}

-- The loop over the loser's messages in the order of `seq`, with the mark it has reached.
unfoldable pub fold_messages : ℕ → List Text → ℕ → List Message → List Message → List Message × ℕ
unfolding has_text
fold_messages winner taken seq [] ms = (ms, seq)
fold_messages winner taken seq (m ∷ rows) ms =
    fold_messages winner taken (seq + 1) rows
      (update_where (λ (x : Message). x.id == m.id) (folded_message winner (seq + 1) taken) ms)

-- The loser's participants who are not in the winner move over.
unfoldable pub fold_participants : ℕ → ℕ → List Participant → List Participant → List Participant
fold_participants winner now [] ps = ps
fold_participants winner now (p ∷ rows) ps = fold_participants winner now rows (
    if is_some (find_member winner p.user ps)
    then ps
    else update_where (λ (x : Participant). x.id == p.id)
        (λ x. record x { conversation = winner; updated_at = now }) ps)

-- `taken_client_ids`
abbrev pub taken_keys : ℕ → World → List Text
taken_keys winner w =
    filter (λ (t : Text). not (is_empty t))
      (map (λ m. m.client_msg_id) (filter (λ (m : Message). m.conversation == winner) w.messages))

-- `filter(conversation_id=loser.pk).order_by("seq")`
abbrev pub loser_rows : ℕ → World → List Message
loser_rows loser w =
    order_by (λ m. m.seq) (filter (λ (m : Message). m.conversation == loser) w.messages)

-- `_fold_conversation`
unfoldable pub fold_conversation : ℕ → Conversation → World → World
unfolding fold_messages fold_participants remove_conversation
fold_conversation loser winner w =
    let moved =
      fold_messages winner.id (taken_keys winner.id w) winner.last_seq (loser_rows loser w)
        w.messages in
    let numbered = record w { messages = moved.0 } in
    let marked =
      if moved.1 == winner.last_seq then numbered else store_last_seq winner.id moved.1 numbered in
    remove_conversation loser (record marked {
      participants =
          fold_participants winner.id w.clock
            (filter (λ (p : Participant). p.conversation == loser) w.participants) w.participants;
    })

-- `sorted(str(uid) for ...)`
abbrev pub sorted_ids : List ℕ → List ℕ
sorted_ids = order_by (λ n. n)

abbrev pub with_key : Text → ℕ → Conversation → Conversation
with_key key now c = record c { direct_key = key; updated_at = now }

-- The thread whose key is recomputed, with its two first participants.
unfoldable pub requalify_pair : Host → Conversation → ℕ → ℕ → World → World
unfolding direct_key_of fold_conversation text_eq
requalify_pair host conv a b w =
    let key = direct_key_of host.spell conv.scope_key a b conv.subject_type conv.subject_key in
    if text_eq key conv.direct_key
    then w
    else elim (find?
        (λ (c : Conversation).
          is_direct c.kind && (text_eq c.direct_key key && not (c.id == conv.id)))
        w.conversations) [
          | none ↦ record w {
            conversations =
                update_where (λ (c : Conversation). c.id == conv.id) (with_key key w.clock)
                  w.conversations;
          }
          | some winner ↦ fold_conversation conv.id winner w
        ]

abbrev pub requalify_ids : Host → Conversation → List ℕ → World → World
requalify_ids host conv [] w = delete_conversation_row conv.id w
requalify_ids host conv (a ∷ []) w = delete_conversation_row conv.id w
requalify_ids host conv (a ∷ b ∷ more) w = requalify_pair host conv a b w

-- `_requalify_direct_key`
unfoldable pub requalify_direct_key : Host → Conversation → World → World
unfolding delete_conversation_row requalify_pair participant_ids
requalify_direct_key host conv w =
    requalify_ids host conv (sorted_ids (participant_ids w conv.id)) w

unfoldable pub requalify_all : Host → List Conversation → World → World
unfolding requalify_direct_key
requalify_all host [] w = w
requalify_all host (c ∷ cs) w = requalify_all host cs (requalify_direct_key host c w)

abbrev pub owns_something : ℕ → World → Bool
owns_something user w =
    any (λ (p : Participant). p.user == user) w.participants
    || any (λ (m : Message). is_id m.sender user) w.messages
    || any (λ (c : Conversation). is_id c.assigned_operator user) w.conversations

-- Messages and assignments move wholesale.
unfoldable pub move_authorship : ℕ → ℕ → World → World
move_authorship from into w = record w {
  messages =
      update_where (λ (m : Message). is_id m.sender from) (λ m. record m { sender = some into })
        w.messages;
  conversations =
      update_where (λ (c : Conversation). is_id c.assigned_operator from)
        (λ c. record c { assigned_operator = some into }) w.conversations;
}

-- The direct threads among those the guest took part in, listed once the rows have moved.
abbrev pub stale_threads : ℕ → World → World → List Conversation
stale_threads from before w =
    filter (λ (c : Conversation). is_direct c.kind && any_row (is_member c.id from) before)
      w.conversations

-- `handle_user_merged`, for two ids that address rows; `survivor_exists` is the user table's answer
unfoldable pub handle_user_merged : Host → Bool → ℕ → ℕ → Exec Unit
unfolding move_authorship merge_participations requalify_all
handle_user_merged host survivor_exists from into w =
    if from == into || not (owns_something from w)
    then (ok tt, w)
    else if not survivor_exists
    then (err merge_target_not_ready, w)
    else let moved = merge_participations from into (move_authorship from into w) in
      (ok tt, requalify_all host (stale_threads from w moved) moved)
