-- ===== src/Socket.antt =====
-- consumers.py, the write frames of a conversation's socket. A handler answers with the code of an
-- error, or with nothing; what escapes it is an error of the action.
pub mod Runs
pub mod Session
pub mod Presence
pub mod Counted
pub mod Gate
use stapel_chat.Activity.{announce_activity}
use stapel_chat.Base.{
  Bool, List, Option, Text, [], codes, false, if◌then◌else◌, is_empty, is_some, length, ltb, none,
  not, some, true, ℕ, ◌&&◌, ◌∷◌,
}
use stapel_chat.Membership.{mark_delivered, mark_read}
use stapel_chat.Model.{Conversation, Message, is_deleted, is_system, text_kind}
use stapel_chat.Payload.{
  Code, answering, code_attachments_disabled, code_bad_envelope, code_deleted, code_empty,
  code_invalid_attachment, code_invalid_reply, code_not_author, code_not_editable, code_not_found,
  code_send_refused, code_too_long, code_unavailable, code_unknown_activity,
  code_unknown_attachment_type, find_message, read_body, read_list,
}
use stapel_chat.Sending.{get_conversation}
use stapel_chat.Sending.Changes.{delete_message, edit_message}
use stapel_chat.Sending.Post.{post_message, undisturbed}
use stapel_chat.Settings.{Host}
use stapel_chat.Values.{Fields, Json, get_field, truthy}
use stapel_chat.World.{
  Error, Exec, World, attribute_error, block_check_unavailable, gets, invalid_attachment, lift,
  message_gone, not_author, not_editable, pure, raise, send_refused, unknown_activity_state,
  unknown_attachment_type, ◌>>=◌, ◌>>◌,
}

-- The checks of `_do_send` before it reads the database.
unfoldable pub send_refusal : Host → Text → Bool → Option Code
send_refusal host body has =
    if is_empty body && not has
    then some code_empty
    else if has && not host.attachments_enabled
    then some code_attachments_disabled
    else if ltb host.max_body_length (length body)
    then some code_too_long
    else none

abbrev pub send_code : Error → Option Code
send_code send_refused = some code_send_refused
send_code block_check_unavailable = some code_unavailable
send_code unknown_attachment_type = some code_unknown_attachment_type
send_code invalid_attachment = some code_invalid_attachment
send_code _ = none

module _ (host : Host) (between : ℕ → World → World) (cid user : ℕ) where
  -- `str(payload.get("client_msg_id") or "")`
  abbrev pub client_key : Fields → Text
  client_key payload =
      let key = get_field (codes "client_msg_id") payload in
      if truthy key then host.text_of key else []

  abbrev pub send_with :
      Fields → Text → Conversation → Option Message → List Json → Exec (Option Code)
  send_with payload body conv reply_to attachments = answering send_code (
      post_message host between conv (some user) body attachments reply_to text_kind
        (client_key payload))

  -- The rest of a send, with its reply.
  unfoldable pub send_checked : Fields → Text → Conversation → Option Message → Exec (Option Code)
  unfolding read_list get_field truthy
  send_checked payload body conv reply_to =
      lift (read_list (get_field (codes "attachments") payload))
      >>= send_with payload body conv reply_to

  abbrev pub send_replying : Fields → Text → Conversation → Option Message → Exec (Option Code)
  send_replying payload body conv none = pure (some code_invalid_reply)
  send_replying payload body conv (some m) = send_checked payload body conv (some m)

  -- The send into the row of the conversation.
  unfoldable pub send_into : Fields → Text → Option Conversation → Exec (Option Code)
  unfolding get_field truthy find_message
  send_into payload body none = pure (some code_not_found)
  send_into payload body (some conv) =
      if not (host.has_user user)
      then pure (some code_not_found)
      else if not (truthy (get_field (codes "reply_to") payload))
      then send_checked payload body conv none
      else gets (find_message host cid (get_field (codes "reply_to") payload))
        >>= (λ found. lift found >>= send_replying payload body conv)

  abbrev pub send_or : Fields → Text → Option Code → Exec (Option Code)
  send_or payload body (some coded) = pure (some coded)
  send_or payload body none = gets (get_conversation cid) >>= send_into payload body

  -- `_do_send`
  unfoldable pub do_send : Fields → Exec (Option Code)
  unfolding read_body get_field truthy send_refusal send_into get_conversation
  do_send payload = lift (read_body (get_field (codes "body") payload)) >>= (λ body.
      send_or payload body
        (send_refusal host body (truthy (get_field (codes "attachments") payload))))

abbrev pub edit_code : Error → Option Code
edit_code not_author = some code_not_author
edit_code message_gone = some code_deleted
edit_code not_editable = some code_not_editable
edit_code _ = none

abbrev pub delete_code : Error → Option Code
delete_code not_author = some code_not_author
delete_code _ = none

-- Where the user has no row, the services read `pk` of nothing, once the earlier tests have passed.
abbrev pub edit_without_user : Message → Error
edit_without_user m =
    if is_deleted m
    then message_gone
    else if is_system m.kind
    then not_editable
    else if is_some m.sender
    then attribute_error
    else not_author

abbrev pub delete_without_user : Message → Error
delete_without_user m = if is_some m.sender then attribute_error else not_author

module _ (host : Host) (cid user : ℕ) where
  abbrev pub edit_found : Text → Option Message → Exec (Option Code)
  edit_found body none = pure (some code_not_found)
  edit_found body (some m) =
      answering edit_code
        (if host.has_user user then edit_message host m user body else raise (edit_without_user m))

  abbrev pub edit_checked : Fields → Text → Exec (Option Code)
  edit_checked payload body =
      if is_empty body
      then pure (some code_empty)
      else if ltb host.max_body_length (length body)
      then pure (some code_too_long)
      else gets (find_message host cid (get_field (codes "message_id") payload))
        >>= (λ found. lift found >>= edit_found body)

  -- `_do_edit`
  unfoldable pub do_edit : Fields → Exec (Option Code)
  unfolding read_body get_field find_message
  do_edit payload = lift (read_body (get_field (codes "body") payload)) >>= edit_checked payload

  abbrev pub delete_found : Option Message → Exec (Option Code)
  delete_found none = pure (some code_not_found)
  delete_found (some m) =
      answering delete_code
        (if host.has_user user then delete_message m user else raise (delete_without_user m))

  -- `_do_delete`
  unfoldable pub do_delete : Fields → Exec (Option Code)
  unfolding get_field find_message
  do_delete payload =
      gets (find_message host cid (get_field (codes "message_id") payload))
      >>= (λ found. lift found >>= delete_found)

  abbrev pub has_both : World → Bool
  has_both w = is_some (get_conversation cid w) && host.has_user user

  -- `int(payload.get("upto_seq") or 0)`
  abbrev pub read_mark : Fields → Option ℕ
  read_mark payload =
      let v = get_field (codes "upto_seq") payload in if truthy v then host.read_int v else some 0

  abbrev pub mark_at : Bool → Option ℕ → Bool → Exec (Option Code)
  mark_at read none present = pure (some code_bad_envelope)
  mark_at read (some upto) false = pure (some code_not_found)
  mark_at true (some upto) true = mark_read cid user upto >> pure none
  mark_at false (some upto) true = mark_delivered cid user upto >> pure none

  -- `_do_marker`
  unfoldable pub do_marker : Bool → Fields → Exec (Option Code)
  unfolding get_field truthy get_conversation
  do_marker read payload = gets has_both >>= mark_at read (read_mark payload)

abbrev pub activity_code : Error → Option Code
activity_code unknown_activity_state = some code_unknown_activity
activity_code _ = none

module _ (host : Host) (cid user : ℕ) where
  abbrev pub activity_at : Text → Bool → Exec (Option Code)
  activity_at state false = pure (some code_not_found)
  activity_at state true = answering activity_code (announce_activity host cid user state)

  -- `_do_activity`
  unfoldable pub do_activity : Fields → Exec (Option Code)
  unfolding get_field truthy get_conversation announce_activity
  do_activity payload =
      let state = get_field (codes "state") payload in
      gets (has_both host cid user)
      >>= activity_at (if truthy state then host.text_of state else [])

-- `frame_handlers`
pub data Frame : Type 0 where
  send_frame edit_frame delete_frame read_frame delivered_frame activity_frame : Fields → Frame

-- A frame of a user on the socket of a conversation.
unfoldable pub serve_frame : Host → (ℕ → World → World) → ℕ → ℕ → Frame → Exec (Option Code)
serve_frame host between cid user (send_frame payload) = do_send host between cid user payload
serve_frame host between cid user (edit_frame payload) = do_edit host cid user payload
serve_frame host between cid user (delete_frame payload) = do_delete host cid user payload
serve_frame host between cid user (read_frame payload) = do_marker host cid user true payload
serve_frame host between cid user (delivered_frame payload) = do_marker host cid user false payload
serve_frame host between cid user (activity_frame payload) = do_activity host cid user payload

-- What the frames of any users on any sockets leave, one after the other.
unfoldable pub serve_frames : Host → List (ℕ × ℕ × Frame) → World → World
unfolding serve_frame
serve_frames host [] w = w
serve_frames host ((cid, user, frame) ∷ frames) w =
    serve_frames host frames (serve_frame host undisturbed cid user frame w).1
