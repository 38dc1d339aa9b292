-- ===== src/Realtime.antt =====
-- realtime.py: the one message shape, of a live message and of a tombstone.
pub mod Delivery
use stapel_chat.Base.{Option, Text, [], if◌then◌else◌, none, some, ◌∷◌}
use stapel_chat.Model.{Message, is_deleted}
use stapel_chat.World.{Payload}

-- `x or None` on a text
abbrev pub or_none : Text → Option Text
or_none [] = none
or_none (c ∷ cs) = some (c ∷ cs)

-- `message_payload`
unfoldable pub message_payload : Message → Payload
message_payload m = record {
  message_id = m.id;
  conversation_id = m.conversation;
  sender_id = m.sender;
  seq = m.seq;
  rev_seq = m.rev_seq;
  kind = m.kind;
  body = if is_deleted m then [] else m.body;
  reply_to = m.reply_to;
  attachments = if is_deleted m then [] else m.attachments;
  client_msg_id = or_none m.client_msg_id;
  edited_at = m.edited_at;
  deleted_at = m.deleted_at;
  created_at = m.created_at;
}
