-- ===== src/Rest/Mappers.antt =====
-- views.py, "Mappers": a row of the state as a response. A descriptor that is neither text nor a
-- dict has no `get`, which raises.
use stapel_chat.Base.{
  Bool, List, Option, Text, [], codes, filter, if◌then◌else◌, is_empty, is_some, length, ltb, map,
  none, some, ℕ, ◌++◌, ◌==◌, ◌||◌, ◌∷◌,
}
use stapel_chat.History.{cleared_at_of}
use stapel_chat.Inbox.{drawn_last_line, last_line_attachments, last_line_reason, last_message_of}
use stapel_chat.Membership.{unread_count, viewer_unread}
use stapel_chat.Model.{Conversation, Message, Participant, is_deleted}
use stapel_chat.Payload.{read_list}
use stapel_chat.Presence.Reading.{Seen, presence_in}
use stapel_chat.Realtime.{or_none}
use stapel_chat.Rest.Dto.{
  AttachmentResponse, ConversationResponse, LastMessageResponse, MessageResponse,
  ParticipantResponse, SubjectResponse,
}
use stapel_chat.Search.{preview_of}
use stapel_chat.Settings.{Host}
use stapel_chat.Subjects.{Resolution, function_unreachable, meta_partial}
use stapel_chat.Values.{Fields, Json, end, field, get_field, null, obj, str, truthy}
use stapel_chat.World.{Error, Result, World, attribute_error, err, ok}

abbrev value_or : Text → Json → Json
value_or t v = if truthy v then v else str t

-- The response of a descriptor, but for its variants.
abbrev pub descriptor_to_dto : Fields → List Json → AttachmentResponse
descriptor_to_dto d found = record {
  key = value_or [] (get_field (codes "key") d);
  type_name = value_or (codes "file") (get_field (codes "type") d);
  mime = get_field (codes "mime") d;
  bytes = get_field (codes "bytes") d;
  name = get_field (codes "name") d;
  ext = get_field (codes "ext") d;
  width = get_field (codes "width") d;
  height = get_field (codes "height") d;
  aspect = get_field (codes "aspect") d;
  square = get_field (codes "square") d;
  animated = get_field (codes "animated") d;
  duration_ms = get_field (codes "duration_ms") d;
  preview_b64 = get_field (codes "preview_b64") d;
  preview_kind = get_field (codes "preview_kind") d;
  poster_url = get_field (codes "poster_url") d;
  meta_status = value_or (codes "missing") (get_field (codes "meta_status") d);
  meta_reason = get_field (codes "meta_reason") d;
  variants = found;
}

abbrev pub with_variants : Fields → Result (List Json) → Result AttachmentResponse
with_variants d (err e) = err e
with_variants d (ok found) = ok (descriptor_to_dto d found)

-- The bare text of a row from before the descriptors
abbrev pub bare_descriptor : Text → Fields
bare_descriptor s = field (codes "key") (str s) (field (codes "type") (str (codes "file")) end)

-- `attachment_to_dto`
unfoldable pub attachment_to_dto : Json → Result AttachmentResponse
unfolding get_field truthy read_list
attachment_to_dto (str s) = ok (descriptor_to_dto (bare_descriptor s) [])
attachment_to_dto (obj d) = with_variants d (read_list (get_field (codes "variants") d))
attachment_to_dto _ = err attribute_error

abbrev pub join_dto : {A : Type 0} → Result A → Result (List A) → Result (List A)
join_dto (err e) rest = err e
join_dto (ok a) (err e) = err e
join_dto (ok a) (ok rest) = ok (a ∷ rest)

unfoldable pub attachments_to_dto : List Json → Result (List AttachmentResponse)
unfolding attachment_to_dto
attachments_to_dto [] = ok []
attachments_to_dto (a ∷ rest) =
    let more = attachments_to_dto rest in join_dto (attachment_to_dto a) more

abbrev pub message_with : Message → List AttachmentResponse → MessageResponse
message_with m found = record {
  id = m.id;
  conversation_id = m.conversation;
  seq = m.seq;
  rev_seq = m.rev_seq;
  kind = m.kind;
  body = if is_deleted m then [] else m.body;
  created_at = m.created_at;
  sender_id = m.sender;
  reply_to = m.reply_to;
  attachments = found;
  client_msg_id = or_none m.client_msg_id;
  edited = is_some m.edited_at;
  edited_at = m.edited_at;
  deleted = is_deleted m;
  deleted_at = m.deleted_at;
}

abbrev pub with_attachments : Message → Result (List AttachmentResponse) → Result MessageResponse
with_attachments m (err e) = err e
with_attachments m (ok found) = ok (message_with m found)

-- `message_to_dto`
unfoldable pub message_to_dto : Message → Result MessageResponse
unfolding attachments_to_dto
message_to_dto m =
    with_attachments m (attachments_to_dto (if is_deleted m then [] else m.attachments))

-- `response_cls(dto).data`; `raises` is the serializer's own error, where it has one for the dto.
abbrev pub rendered :
    (MessageResponse → Option Error) → Result MessageResponse → Result MessageResponse
rendered raises (err e) = err e
rendered raises (ok dto) = elim (raises dto) [ none ↦ ok dto | some e ↦ err e ]

-- The items of a page, each shown by what is rendered of it.
unfoldable pub messages_to_items :
    (MessageResponse → Option Error) → List Message → Result (List MessageResponse)
unfolding message_to_dto
messages_to_items raises [] = ok []
messages_to_items raises (m ∷ ms) =
    let more = messages_to_items raises ms in join_dto (rendered raises (message_to_dto m)) more

abbrev unresolved : Resolution
unresolved = record {
  card = null;
  meta_status = meta_partial;
  meta_reason = some function_unreachable;
}

abbrev resolution_or : Option Resolution → Resolution
resolution_or none = unresolved
resolution_or (some r) = r

-- `subject_to_dto`
unfoldable pub subject_to_dto : Conversation → Option Resolution → Option SubjectResponse
subject_to_dto c found =
    let r = resolution_or found in
    if is_empty c.subject_type || is_empty c.subject_key
    then none
    else some (record {
      type_name = c.subject_type;
      key = c.subject_key;
      card = r.card;
      meta_status = r.meta_status;
      meta_reason = r.meta_reason;
    })

-- How the conversation was read: a page of the inbox carries the unread count and the last line, a
-- read of one conversation the last line, a reload and the queue neither.
pub data Reading : Type 0 where
  as_page as_detail as_row : Reading

abbrev mark_of : Option Participant → Option ℕ
mark_of none = none
mark_of (some p) = p.cleared_at

-- `services.last_message_of`, which asks nothing where nothing was handed out
unfoldable pub last_row_of : World → Conversation → Option ℕ → Option Message
unfolding last_message_of
last_row_of w c mark = if c.last_seq == 0 then none else last_message_of w c.id mark

unfoldable pub last_message_read :
    Reading → World → ℕ → Conversation → Option Participant → Option Message
unfolding last_message_of cleared_at_of last_row_of
last_message_read as_page w viewer c p = last_message_of w c.id (cleared_at_of w c.id viewer)
last_message_read as_detail w viewer c p = last_message_of w c.id (cleared_at_of w c.id viewer)
last_message_read as_row w viewer c p = last_row_of w c (mark_of p)

-- `last_message_to_dto`, on the row it is about
unfoldable pub last_message_to_dto : Host → Option Message → Option LastMessageResponse
unfolding preview_of drawn_last_line last_line_reason last_line_attachments
last_message_to_dto host none = none
last_message_to_dto host (some m) =
    let (kinds, count) = last_line_attachments m.attachments (is_deleted m) in
    some (record {
      seq = m.seq;
      kind = m.kind;
      created_at = m.created_at;
      sender_id = m.sender;
      body_preview = preview_of host (drawn_last_line host m.kind m.body (is_deleted m));
      preview_reason =
          last_line_reason host m.kind m.body (is_deleted m) (ltb 0 (length m.attachments));
      attachment_types = kinds;
      attachment_count = count;
    })

abbrev count_for : World → Option Participant → ℕ
count_for w none = 0
count_for w (some p) = unread_count w p

unfoldable pub unread_read : Reading → World → ℕ → Conversation → Option Participant → ℕ
unfolding viewer_unread unread_count
unread_read as_page w viewer c p = viewer_unread w c.id viewer
unread_read as_detail w viewer c p = count_for w p
unread_read as_row w viewer c p = count_for w p

abbrev participant_to_dto : List (ℕ × Seen) → Participant → ParticipantResponse
participant_to_dto presence p =
    let seen_entry = presence_in presence p.user in
    record {
      user_id = p.user;
      role = p.role;
      last_read_seq = p.last_read_seq;
      last_delivered_seq = p.last_delivered_seq;
      online = seen_entry.online;
      last_seen_at = seen_entry.last_seen_at;
      online_until = seen_entry.online_until;
      left_at = p.left_at;
    }

abbrev left_of_viewer : Option Participant → Option ℕ
left_of_viewer none = none
left_of_viewer (some p) = p.left_at

-- `conversation_to_dto`
unfoldable pub conversation_to_dto :
    Reading
    → Host
    → World
    → ℕ
    → Conversation
    → Option Participant
    → Option Resolution
    → List (ℕ × Seen)
    → ConversationResponse
unfolding unread_read subject_to_dto last_message_to_dto last_message_read presence_in
conversation_to_dto reading host w viewer c p resolution presence = record {
  id = c.id;
  kind = c.kind;
  scope_key = c.scope_key;
  support_status = c.support_status;
  last_seq = c.last_seq;
  unread_count = unread_read reading w viewer c p;
  created_at = c.created_at;
  updated_at = c.updated_at;
  stream_key = codes "chat:conv:" ++ host.spell c.id;
  socket_path = codes "ws/chat/" ++ host.spell c.id;
  assigned_operator_id = c.assigned_operator;
  subject = subject_to_dto c resolution;
  last_message = last_message_to_dto host (last_message_read reading w viewer c p);
  participants =
      map (participant_to_dto presence)
        (filter (λ (q : Participant). q.conversation == c.id) w.participants);
  left_at = left_of_viewer p;
  cleared_at = mark_of p;
}

-- The bodies of the answers.
pub data Response : Type 0 where
  no_content : Response
  thread_body : ConversationResponse → Response
  threads_body : List ConversationResponse → Response
  message_body : MessageResponse → Response
  messages_body : List MessageResponse → Response
  markers_body : Bool → Bool → Response
  activity_body : Text → ℕ → Response

-- `cards.get(str(conv.id))`
unfoldable pub card_by_id : ℕ → List (ℕ × Resolution) → Option Resolution
card_by_id cid [] = none
card_by_id cid ((k, r) ∷ cards) =
    let rest = card_by_id cid cards in if k == cid then some r else rest
