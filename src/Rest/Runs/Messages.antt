-- ===== src/Rest/Runs/Messages.antt =====
-- The views on the messages of a thread, as runs of the journal.
use stapel_chat.Activity.{resolve_activity}
use stapel_chat.Base.{
  All-find?, Option, Text, false, is_empty, length, ltb, max, none, refl, some, strip, ℕ, ◌==◌, ◌≡◌,
}
use stapel_chat.Journal.{IsJournal, RunFrom, done}
use stapel_chat.Journal.Erasure.{SameThread, own_snapshots}
use stapel_chat.Journal.Lifecycle.{
  announce_activity-run, mark_delivered-SameRows, mark_read-SameRows,
}
use stapel_chat.Journal.Revisions.{IsSnapshot, delete_message-RunFrom, edit_message-RunFrom}
use stapel_chat.Journal.Rules.{
  Journals, Journals-bind, Journals-gotten, Journals-if, Journals-lifted, Journals-pure,
  Journals-same, if-run,
}
use stapel_chat.Journal.Sending.{Interferes, post_message-Journals}
use stapel_chat.Membership.{mark_read}
use stapel_chat.Model.{Conversation, Message, Participant, text_kind}
use stapel_chat.Payload.{find_message}
use stapel_chat.Rest.{
  EditMessageRequest, ErrorKey, Framework, MarkReadRequest, Reply, SendMessageRequest,
  body_too_long, empty_message, reply_invalid, respond_error, with_validated,
}
use stapel_chat.Rest.Mappers.{
  Response, activity_body, markers_body, messages_body, messages_to_items,
}
use stapel_chat.Rest.Messages.{
  activity_answer, announce_in, delete_answer, deliver_upto, edit_answer, history_pagination,
  history_rows, list_messages, load_message, mark_both, mark_thread, message_or_refuse,
  patch_message, patch_with, post_checked, post_replying, post_with, remove_message, send_answer,
  send_message, show_message, with_message,
}
use stapel_chat.Rest.Runs.{
  as_party-Journals, catching-run, error-Journals, replying-Journals, respond-Journals,
  show_message-Journals, validated-Journals,
}
use stapel_chat.Scope.{Request, ScopeProvider}
use stapel_chat.Sending.Changes.{delete_message, edit_message}
use stapel_chat.Settings.{Host}
use stapel_chat.Values.{str}
use stapel_chat.World.{Exec, World}

module _ (host : Host) (scope : ScopeProvider) (lib : Framework) (between : ℕ → World → World)
    (others : Interferes between) (request : Request) where
  post_with-Journals :
      (c : Conversation) (sent : SendMessageRequest) (reply_to : Option Message)
      → Journals (post_with host scope lib between request c sent reply_to)
  post_with-Journals c sent reply_to =
      replying-Journals send_answer _ _
        (post_message-Journals between others host c (some request.user) sent.body sent.attachments
          reply_to text_kind sent.client_msg_id)
        (show_message-Journals 201)

  post_replying-Journals :
      (c : Conversation) (sent : SendMessageRequest) (o : Option Message)
      → Journals (post_replying host scope lib between request c sent o)
  post_replying-Journals c sent none = error-Journals 400 reply_invalid
  post_replying-Journals c sent (some m) = post_with-Journals c sent (some m)

  post_checked-Journals :
      (c : Conversation) (sent : SendMessageRequest) (o : Option ErrorKey)
      → Journals (post_checked host scope lib between request c sent o)
  unfolding find_message
  post_checked-Journals c sent (some key) = error-Journals 400 key
  post_checked-Journals c sent none =
      Journals-if (is_empty sent.reply_to) _ _ (post_with-Journals c sent none) (
        Journals-gotten (find_message host c.id (str sent.reply_to)) _
          (λ found. Journals-lifted found _ (post_replying-Journals c sent)))

  pub list_messages-Journals :
      (cid : ℕ) → Journals (list_messages host scope lib between request cid)
  unfolding list_messages
  list_messages-Journals cid = as_party-Journals scope request cid _ (λ c p. record {
    at = λ w j.
        (Journals-lifted
            (messages_to_items lib.rendering_error (
              lib.page_messages history_pagination request
                (history_rows host scope lib between request c p w)))
            _ (λ dtos. respond-Journals 200 (messages_body dtos))).at
          w j;
  })

  pub send_message-Journals : (cid : ℕ) → Journals (send_message host scope lib between request cid)
  unfolding send_message
  send_message-Journals cid = as_party-Journals scope request cid _ (λ c p.
      validated-Journals (lib.read_send request.payload) _ (λ sent. post_checked-Journals c sent _))

  load_message-IsSnapshot :
      (c : Conversation) (p : Participant) (mid : ℕ) (w : World) (m : Message)
      → IsJournal w
      → load_message c p mid w ≡ some m
      → IsSnapshot m w
  unfolding load_message
  load_message-IsSnapshot c p mid w m j hit =
      (All-find? (SameThread w.messages) _ w.messages (own_snapshots w.messages j.ids) hit).0

  with_message-Journals :
      (cid mid : ℕ) (k : Message → Exec (Reply Response))
      → ((m : Message) (w : World) → IsJournal w → IsSnapshot m w → RunFrom w (k m w).1)
      → Journals (with_message host scope lib between request cid mid k)
  unfolding with_message
  with_message-Journals cid mid k h = as_party-Journals scope request cid _ (λ c p. record {
    at = λ w j.
        go (load_message c p mid w) w j (λ m same. load_message-IsSnapshot c p mid w m j same);
  })
    where
      go :
          (o : Option Message) (w : World)
          → IsJournal w
          → ((m : Message) → o ≡ some m → IsSnapshot m w)
          → RunFrom w (message_or_refuse host scope lib between request k o w).1
      go none w j snap = done
      go (some m) w j snap = h m w j (snap m refl)

  patch_with-run :
      (m : Message) (body : Text) (w : World)
      → IsJournal w
      → IsSnapshot m w
      → RunFrom w (patch_with host scope lib between request m body w).1
  patch_with-run m body w j snap =
      if-run (is_empty body) (respond_error 400 empty_message) _ w done (
        if-run (ltb host.max_body_length (length body)) (respond_error 400 body_too_long) _ w done (
          catching-run edit_answer (show_message 200) w (edit_message host m request.user body w) j
            (edit_message-RunFrom host m request.user body w j snap) (show_message-Journals 200)))

  pub patch_message-Journals :
      (cid mid : ℕ) → Journals (patch_message host scope lib between request cid mid)
  unfolding patch_message
  patch_message-Journals cid mid =
      with_message-Journals cid mid _ (λ m w j snap. go (lib.read_edit request.payload) m w j snap)
    where
      go :
          (o : Option EditMessageRequest) (m : Message) (w : World)
          → IsJournal w
          → IsSnapshot m w
          → RunFrom w
              (with_validated o
                (λ edit. patch_with host scope lib between request m (strip edit.body))
                w).1
      go none m w j snap = done
      go (some edit) m w j snap = patch_with-run m (strip edit.body) w j snap

  pub remove_message-Journals :
      (cid mid : ℕ) → Journals (remove_message host scope lib between request cid mid)
  unfolding remove_message
  remove_message-Journals cid mid = with_message-Journals cid mid _ (λ m w j snap.
      catching-run delete_answer (show_message 200) w (delete_message m request.user w) j
        (delete_message-RunFrom m request.user w j snap) (show_message-Journals 200))

  mark_both-Journals :
      (cid : ℕ) (marks : MarkReadRequest)
      → Journals (mark_both host scope lib between request cid marks)
  mark_both-Journals cid marks =
      let upto = max marks.delivered_upto_seq marks.upto_seq in
      Journals-bind (mark_read cid request.user marks.upto_seq) _
        (Journals-same _ (mark_read-SameRows cid request.user marks.upto_seq))
        (λ moved.
          Journals-bind (deliver_upto host scope lib between request cid upto) _
            (Journals-if (upto == 0) _ _ (Journals-pure false)
              (Journals-same _ (mark_delivered-SameRows cid request.user upto)))
            (λ delivered. respond-Journals 200 (markers_body moved delivered)))

  pub mark_thread-Journals : (cid : ℕ) → Journals (mark_thread host scope lib between request cid)
  unfolding mark_thread
  mark_thread-Journals cid =
      as_party-Journals scope request cid _
        (λ c p. validated-Journals (lib.read_mark request.payload) _ (mark_both-Journals c.id))

  pub announce_in-Journals : (cid : ℕ) → Journals (announce_in host scope lib between request cid)
  unfolding announce_in
  announce_in-Journals cid = as_party-Journals scope request cid _ (λ c p.
      validated-Journals (lib.read_activity request.payload) _ (λ said.
        replying-Journals activity_answer _ _
          (record { at = λ w j. announce_activity-run host c.id request.user said.state w })
          (λ u.
            Journals-lifted (resolve_activity host said.state) _
              (λ ttl. respond-Journals 200 (activity_body said.state ttl)))))
