-- ===== src/Rest/Messages.antt =====
-- views.py, the views on the messages of a thread: history, sending, editing, deleting, the two
-- markers and the announcement of an activity.
use stapel_chat.Activity.{announce_activity, resolve_activity}
use stapel_chat.Base.{
  Bool, List, Option, Text, [], false, filter, find?, if◌then◌else◌, is_empty, length, ltb, max,
  none, not, some, strip, true, ℕ, ◌&&◌, ◌==◌, ◌∷◌,
}
use stapel_chat.History.{is_visible, visible_messages}
use stapel_chat.Membership.{mark_delivered, mark_read}
use stapel_chat.Model.{Conversation, Message, Participant, text_kind}
use stapel_chat.Payload.{find_message}
use stapel_chat.Rest.{
  ErrorKey, Framework, MarkReadRequest, Pagination, Reply, SendMessageRequest, activity_unknown,
  as_party, attachment_invalid, attachment_type_unknown, blocks_unavailable, body_too_long,
  empty_message, message_deleted_key, message_missing, not_author_key, not_editable_key,
  reply_invalid, replying, respond, respond_error, send_refused_key, with_validated,
}
use stapel_chat.Rest.Mappers.{
  Response, activity_body, markers_body, message_body, message_to_dto, messages_body,
  messages_to_items,
}
use stapel_chat.Scope.{Request, ScopeProvider}
use stapel_chat.Sending.Changes.{delete_message, edit_message}
use stapel_chat.Sending.Post.{post_message}
use stapel_chat.Settings.{Host}
use stapel_chat.Values.{Json, str}
use stapel_chat.World.{
  Error, Exec, World, block_check_unavailable, gets, invalid_attachment, invalid_reply, lift,
  message_gone, not_author, not_editable, pure, send_refused, unknown_activity_state,
  unknown_attachment_type, ◌>>=◌,
}

-- `MessageHistoryPagination`
abbrev pub history_pagination : Pagination Message
history_pagination = record {
  anchor = λ m. m.seq;
  descending = some true;
  page_size = 50;
  max_page_size = 200;
}

abbrev pub show_message : ℕ → Message → Exec (Reply Response)
show_message status m = lift (message_to_dto m) >>= (λ dto. respond status (message_body dto))

abbrev pub send_answer : Error → Option (ℕ × ErrorKey)
send_answer invalid_reply = some (400, reply_invalid)
send_answer send_refused = some (403, send_refused_key)
send_answer block_check_unavailable = some (503, blocks_unavailable)
send_answer unknown_attachment_type = some (400, attachment_type_unknown)
send_answer invalid_attachment = some (400, attachment_invalid)
send_answer _ = none

abbrev pub edit_answer : Error → Option (ℕ × ErrorKey)
edit_answer not_author = some (403, not_author_key)
edit_answer message_gone = some (400, message_deleted_key)
edit_answer not_editable = some (400, not_editable_key)
edit_answer _ = none

abbrev pub delete_answer : Error → Option (ℕ × ErrorKey)
delete_answer not_author = some (403, not_author_key)
delete_answer _ = none

abbrev pub activity_answer : Error → Option (ℕ × ErrorKey)
activity_answer unknown_activity_state = some (400, activity_unknown)
activity_answer _ = none

-- The checks of a send before it reads the database. The words are tested stripped, and sent as
-- they came.
unfoldable pub post_refusal : Host → Text → Bool → Option ErrorKey
unfolding strip
post_refusal host body has =
    if is_empty (strip body) && not has
    then some empty_message
    else if has && not host.attachments_enabled
    then some ErrorKey.attachments_disabled
    else if ltb host.max_body_length (length body)
    then some body_too_long
    else none

abbrev has_any : List Json → Bool
has_any [] = false
has_any (a ∷ rest) = true

-- `visible_messages(filter(pk=..., conversation=...), cleared_at=...).first()`
unfoldable pub load_message : Conversation → Participant → ℕ → World → Option Message
unfolding is_visible
load_message c p k w =
    find? (λ (m : Message). m.id == k && m.conversation == c.id && is_visible p.cleared_at m)
      w.messages

module _ (host : Host) (scope : ScopeProvider) (lib : Framework) (between : ℕ → World → World)
    (request : Request) where
  abbrev pub history_rows : Conversation → Participant → World → List Message
  history_rows c p w =
      visible_messages p.cleared_at (filter (λ (m : Message). m.conversation == c.id) w.messages)

  -- `MessageListCreateView.get`
  unfoldable pub list_messages : ℕ → Exec (Reply Response)
  unfolding as_party visible_messages messages_to_items
  list_messages cid = as_party scope request cid (λ c p.
      gets (history_rows c p)
      >>= (λ rows. lift (
          messages_to_items lib.rendering_error
            (lib.page_messages history_pagination request rows)))
      >>= (λ dtos. respond 200 (messages_body dtos)))

  abbrev pub post_with : Conversation → SendMessageRequest → Option Message → Exec (Reply Response)
  post_with c sent reply_to =
      replying send_answer
        (post_message host between c (some request.user) sent.body sent.attachments reply_to
          text_kind sent.client_msg_id)
        (show_message 201)

  abbrev pub post_replying :
      Conversation → SendMessageRequest → Option Message → Exec (Reply Response)
  post_replying c sent none = respond_error 400 reply_invalid
  post_replying c sent (some m) = post_with c sent (some m)

  abbrev pub post_checked :
      Conversation → SendMessageRequest → Option ErrorKey → Exec (Reply Response)
  post_checked c sent (some key) = respond_error 400 key
  post_checked c sent none =
      if is_empty sent.reply_to
      then post_with c sent none
      else gets (find_message host c.id (str sent.reply_to))
        >>= (λ found. lift found >>= post_replying c sent)

  -- `MessageListCreateView.post`
  unfoldable pub send_message : ℕ → Exec (Reply Response)
  unfolding as_party post_refusal find_message message_to_dto
  send_message cid = as_party scope request cid (λ c p.
      with_validated (lib.read_send request.payload)
        (λ sent. post_checked c sent (post_refusal host sent.body (has_any sent.attachments))))

  abbrev pub message_or_refuse :
      (Message → Exec (Reply Response)) → Option Message → Exec (Reply Response)
  message_or_refuse k none = respond_error 404 message_missing
  message_or_refuse k (some m) = k m

  -- `MessageDetailView._load`
  unfoldable pub with_message : ℕ → ℕ → (Message → Exec (Reply Response)) → Exec (Reply Response)
  unfolding as_party load_message
  with_message cid mid k =
      as_party scope request cid (λ c p. gets (load_message c p mid) >>= message_or_refuse k)

  abbrev pub patch_with : Message → Text → Exec (Reply Response)
  patch_with m body =
      if is_empty body
      then respond_error 400 empty_message
      else if ltb host.max_body_length (length body)
      then respond_error 400 body_too_long
      else replying edit_answer (edit_message host m request.user body) (show_message 200)

  -- `MessageDetailView.patch`
  unfoldable pub patch_message : ℕ → ℕ → Exec (Reply Response)
  unfolding with_message strip message_to_dto
  patch_message cid mid =
      with_message cid mid (λ m.
        with_validated (lib.read_edit request.payload) (λ edit. patch_with m (strip edit.body)))

  -- `MessageDetailView.delete`
  unfoldable pub remove_message : ℕ → ℕ → Exec (Reply Response)
  unfolding with_message message_to_dto
  remove_message cid mid =
      with_message cid mid
        (λ m. replying delete_answer (delete_message m request.user) (show_message 200))

  -- A read implies delivery: the delivery marker follows the read one.
  abbrev pub deliver_upto : ℕ → ℕ → Exec Bool
  deliver_upto cid upto = if upto == 0 then pure false else mark_delivered cid request.user upto

  abbrev pub mark_both : ℕ → MarkReadRequest → Exec (Reply Response)
  mark_both cid marks = mark_read cid request.user marks.upto_seq >>= (λ moved.
      deliver_upto cid (max marks.delivered_upto_seq marks.upto_seq)
      >>= (λ delivered. respond 200 (markers_body moved delivered)))

  -- `MarkReadView.post`
  unfoldable pub mark_thread : ℕ → Exec (Reply Response)
  unfolding as_party mark_read mark_delivered
  mark_thread cid =
      as_party scope request cid
        (λ c p. with_validated (lib.read_mark request.payload) (mark_both c.id))

  abbrev pub announce_for : ℕ → Text → Exec (Reply Response)
  announce_for cid state =
      replying activity_answer (announce_activity host cid request.user state) (λ done_once.
        lift (resolve_activity host state) >>= (λ ttl. respond 200 (activity_body state ttl)))

  -- `ActivityView.post`
  unfoldable pub announce_in : ℕ → Exec (Reply Response)
  unfolding as_party announce_activity resolve_activity
  announce_in cid = as_party scope request cid (λ c p.
      with_validated (lib.read_activity request.payload) (λ said. announce_for c.id said.state))
