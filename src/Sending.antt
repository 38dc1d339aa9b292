-- ===== src/Sending.antt =====
-- services.py, "Sending": the transactional send path and the sequence it allocates.
pub mod Post
pub mod Changes
use stapel_chat.Attachments.{usable_key}
use stapel_chat.Base.{
  Bool, List, Option, Text, [], any, codes, filter, find?, has_text, if◌then◌else◌, is_empty,
  is_some, map, none, not, some, text_eq, true, update_where, ℕ, ◌&&◌, ◌++◌, ◌+◌, ◌==◌, ◌||◌, ◌∷◌,
}
use stapel_chat.Model.{Conversation, Message, MessageKind, Participant}
use stapel_chat.Realtime.{message_payload}
use stapel_chat.Values.{Json, get_field, null, obj, str}
use stapel_chat.World.{
  Exec, World, atomic, broadcast_message, does_not_exist, emit, err, integrity_error,
  message_posted, ok, on_commit, sync_refs, ◌>>=◌,
}

-- `_participant_ids`
unfoldable pub participant_ids : World → ℕ → List ℕ
participant_ids w cid =
    map (λ p. p.user) (filter (λ (p : Participant). p.conversation == cid) w.participants)

-- `_fanout_recipients`: everyone in the thread except those who have left it
unfoldable pub fanout_recipients : World → ℕ → List ℕ
fanout_recipients w cid =
    map (λ p. p.user)
      (filter (λ (p : Participant). p.conversation == cid && not (is_some p.left_at))
        w.participants)

-- `_message_cdn_refs`, the set of the references an attachment list claims: a list without
-- repetitions, whose order says nothing. The code sorts the set where it publishes it.
unfoldable pub message_refs : List Json → List Text
unfolding usable_key get_field has_text
message_refs [] = []
message_refs (a ∷ rest) =
    let more = message_refs rest in
    elim (usable_key (elim a [ str s ↦ str s | obj d ↦ get_field (codes "key") d | _ ↦ null ])) [
      | none ↦ more
      | some key ↦ if has_text key more then more else key ∷ more
    ]

-- `all(x in ys for x in xs)`
abbrev is_subset : List Text → List Text → Bool
is_subset [] ys = true
is_subset (x ∷ xs) ys = has_text x ys && is_subset xs ys

abbrev pub same_refs : List Text → List Text → Bool
same_refs xs ys = is_subset xs ys && is_subset ys xs

-- `_schedule_message_cdn_ref_sync`: published after the commit, and only where the claim changes
unfoldable pub schedule_ref_sync : ℕ → List Text → List Text → World → World
unfolding has_text
schedule_ref_sync message_id old new w =
    if same_refs old new then w else on_commit (sync_refs message_id old new) w

-- `_schedule_fanout`
unfoldable pub schedule_fanout : Message → Conversation → World → World
schedule_fanout m conv w =
    on_commit (broadcast_message (message_payload m) conv (fanout_recipients w conv.id)) w

-- The saved columns of an allocation: `last_seq` and `updated_at`.
abbrev pub with_last_seq : ℕ → ℕ → Conversation → Conversation
with_last_seq seq now c = record c { last_seq = seq; updated_at = now }

unfoldable pub get_conversation : ℕ → World → Option Conversation
get_conversation cid w = find? (λ (c : Conversation). c.id == cid) w.conversations

-- The write of `save(update_fields=["last_seq", "updated_at"])`.
unfoldable pub store_last_seq : ℕ → ℕ → World → World
store_last_seq cid seq w = record w {
  conversations =
      update_where (λ (c : Conversation). c.id == cid) (with_last_seq seq w.clock) w.conversations;
}

-- `_allocate_seq`
unfoldable pub allocate_seq : ℕ → Exec (Conversation × ℕ)
unfolding get_conversation store_last_seq
allocate_seq cid w = elim (get_conversation cid w) [
  | none ↦ (err does_not_exist, w)
  | some c ↦ (
    ok (with_last_seq (c.last_seq + 1) w.clock c, c.last_seq + 1),
    store_last_seq cid (c.last_seq + 1) w,
  )
]

-- The two unique constraints of the message table, against one stored row.
abbrev pub same_seq : ℕ → ℕ → Message → Bool
same_seq cid seq m = m.conversation == cid && m.seq == seq

abbrev pub same_client_id : ℕ → Text → Message → Bool
same_client_id cid client m = m.conversation == cid && text_eq m.client_msg_id client

unfoldable pub violates_unique : Message → List Message → Bool
unfolding text_eq
violates_unique m rows =
    any (same_seq m.conversation m.seq) rows
    || (not (is_empty m.client_msg_id) && any (same_client_id m.conversation m.client_msg_id) rows)

-- The row that `Message.objects.create(...)` inserts, where no constraint refuses it.
unfoldable pub insert_message : Message → World → World
insert_message m w = record w { messages = w.messages ++ m ∷ []; next_id = w.next_id + 1 }

-- `_resurface_participants`: an authored message clears every departure of the thread
unfoldable pub resurface_participants : ℕ → Option ℕ → World → World
resurface_participants cid none w = w
resurface_participants cid (some sender) w = record w {
  participants =
      update_where (λ (p : Participant). p.conversation == cid && is_some p.left_at)
        (λ p. record p { left_at = none }) w.participants;
}

-- What a caller hands to `post_message`, after the attachments are prepared.
pub record Draft : Type 0 where
  pub conversation : ℕ
  pub sender : Option ℕ
  pub body : Text
  pub attachments : List Json
  pub reply_to : Option ℕ
  pub kind : MessageKind
  pub client_msg_id : Text

-- The row that `_post_once` creates.
abbrev pub new_message : Draft → ℕ → ℕ → ℕ → Message
new_message d message_id seq now = record {
  id = message_id;
  conversation = d.conversation;
  sender = d.sender;
  seq = seq;
  rev_seq = seq;
  kind = d.kind;
  body = d.body;
  reply_to = d.reply_to;
  attachments = d.attachments;
  client_msg_id = d.client_msg_id;
  edited_at = none;
  deleted_at = none;
  created_at = now;
}

-- The rest of the transaction in `_post_once`, once the row is stored.
unfoldable pub announce_post : Draft → Conversation → Message → World → World
announce_post d conv m w = schedule_ref_sync m.id [] (message_refs d.attachments) (
    schedule_fanout m conv (
      emit (message_posted (message_payload m) conv.kind conv.scope_key)
        (resurface_participants conv.id d.sender w)))

-- The body of the transaction in `_post_once`, after the allocation.
unfoldable pub post_body : Draft → Conversation × ℕ → Exec Message
post_body d (conv, seq) w =
    let m = new_message d w.next_id seq w.clock in
    if violates_unique m w.messages
    then (err integrity_error, w)
    else (ok m, announce_post d conv m (insert_message m w))

-- `_post_once`
unfoldable pub post_once : Draft → Exec Message
post_once d = atomic (allocate_seq d.conversation >>= post_body d)
