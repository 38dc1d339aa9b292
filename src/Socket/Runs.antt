-- ===== src/Socket/Runs.antt =====
-- Every frame of a socket is a run of the journal, whatever it holds.
use stapel_chat.Activity.{announce_activity}
use stapel_chat.Base.{
  All-find?, Bool, Option, Option-cases, Text, [], ap, arith, codes, false, find?, if◌then◌else◌,
  inl, inr, is_empty, length, ltb, none, not, refl, some, true, ℕ, ◌&&◌, ◌==◌, ◌∙◌, ◌≡◌,
}
use stapel_chat.Journal.{IsJournal, RunFrom, done}
use stapel_chat.Journal.Erasure.{SameThread, own_snapshots}
use stapel_chat.Journal.Lifecycle.{
  announce_activity-run, mark_delivered-SameRows, mark_read-SameRows,
}
use stapel_chat.Journal.Revisions.{IsSnapshot, delete_message-RunFrom, edit_message-RunFrom}
use stapel_chat.Journal.Rules.{
  Journals, Journals-bind, Journals-pure, Journals-same, if-run, lift-run,
}
use stapel_chat.Journal.Sending.{Interferes, post_message-RunFrom}
use stapel_chat.Membership.{mark_delivered, mark_read}
use stapel_chat.Model.{Conversation, Message, text_kind}
use stapel_chat.Payload.{
  Code, answering, code_bad_envelope, code_empty, code_not_found, code_too_long, find_message,
  read_body, read_list,
}
use stapel_chat.Sending.{get_conversation}
use stapel_chat.Sending.Changes.{delete_message, edit_message}
use stapel_chat.Sending.Post.{post_message}
use stapel_chat.Settings.{Host}
use stapel_chat.Socket.{
  Frame, activity_at, activity_code, activity_frame, client_key, delete_code, delete_found,
  delete_frame, delete_without_user, delivered_frame, do_activity, do_delete, do_edit, do_marker,
  do_send, edit_checked, edit_code, edit_found, edit_frame, edit_without_user, has_both, mark_at,
  read_frame, read_mark, send_checked, send_code, send_frame, send_into, send_or, send_refusal,
  send_replying, send_with, serve_frame,
}
use stapel_chat.Values.{Fields, Json, get_field, truthy}
use stapel_chat.World.{Error, Result, World, err, ok, pure, raise}

module _ {A : Type 0} where
  answering-run :
      (named : Error → Option Code) (w : World) (o : Result A × World)
      → RunFrom w o.1
      → RunFrom w (answering named (λ u. o) w).1
  answering-run named w (ok a, v) run = run
  answering-run named w (err e, v) run = elim (Option-cases (named e)) [
    | inl t ↦ rw (t, answering) run
    | inr (c, t) ↦ rw (t, answering) run
  ]

pub find_message-IsSnapshot :
    (host : Host) (cid : ℕ) (v : Json) (w : World) (m : Message)
    → IsJournal w
    → find_message host cid v w ≡ ok (some m)
    → IsSnapshot m w
unfolding find_message
find_message-IsSnapshot host cid v w m j e = elim (Option-cases (host.read_id v)) [
  | inl bad ↦ absurd (ground arith)
  | inr (o, t) ↦ elim (Option-cases o) [
    | inl blank ↦ absurd (ground arith)
    | inr (k, named) ↦
        let hit : find? (λ (x : Message). x.id == k && x.conversation == cid) w.messages ≡ some m =
          ground arith in
        (All-find? (SameThread w.messages) _ w.messages (own_snapshots w.messages j.ids) hit).0
  ]
]

module _ (host : Host) (cid user : ℕ) where
  edit_found-run :
      (body : Text) (o : Option Message) (w : World)
      → IsJournal w
      → ((m : Message) → o ≡ some m → IsSnapshot m w)
      → RunFrom w (edit_found host cid user body o w).1
  edit_found-run body none w j snap = done
  edit_found-run body (some m) w j snap = answering-run edit_code w _ (
      if-run (host.has_user user) (edit_message host m user body) (raise (edit_without_user m)) w
        (edit_message-RunFrom host m user body w j (snap m refl)) done)

  do_edit-run :
      (payload : Fields) (w : World) → IsJournal w → RunFrom w (do_edit host cid user payload w).1
  unfolding do_edit
  do_edit-run payload w j =
      lift-run (read_body (get_field (codes "body") payload)) (edit_checked host cid user payload) w
        (λ body e. if-run (is_empty body) (pure (some code_empty)) _ w done (
          if-run (ltb host.max_body_length (length body)) (pure (some code_too_long)) _ w done (
            lift-run (find_message host cid (get_field (codes "message_id") payload) w)
              (edit_found host cid user body) w
              (λ o found.
                edit_found-run body o w j
                  (λ m same. find_message-IsSnapshot host cid _ w m j (found ∙ ap ok same))))))

  delete_found-run :
      (o : Option Message) (w : World)
      → IsJournal w
      → ((m : Message) → o ≡ some m → IsSnapshot m w)
      → RunFrom w (delete_found host cid user o w).1
  delete_found-run none w j snap = done
  delete_found-run (some m) w j snap = answering-run delete_code w _ (
      if-run (host.has_user user) (delete_message m user) (raise (delete_without_user m)) w
        (delete_message-RunFrom m user w j (snap m refl)) done)

  do_delete-run :
      (payload : Fields) (w : World) → IsJournal w → RunFrom w (do_delete host cid user payload w).1
  unfolding do_delete
  do_delete-run payload w j =
      lift-run (find_message host cid (get_field (codes "message_id") payload) w)
        (delete_found host cid user) w
        (λ o found.
          delete_found-run o w j
            (λ m same. find_message-IsSnapshot host cid _ w m j (found ∙ ap ok same)))

module _ (host : Host) (between : ℕ → World → World) (others : Interferes between)
    (cid user : ℕ) where
  send_checked-run :
      (payload : Fields) (body : Text) (conv : Conversation) (reply_to : Option Message) (w : World)
      → IsJournal w
      → RunFrom w (send_checked host between cid user payload body conv reply_to w).1
  unfolding send_checked
  send_checked-run payload body conv reply_to w j =
      lift-run (read_list (get_field (codes "attachments") payload))
        (send_with host between cid user payload body conv reply_to) w
        (λ attachments e.
          let key = client_key host between cid user payload in
          answering-run send_code w
            (post_message host between conv (some user) body attachments reply_to text_kind key w)
            (post_message-RunFrom between others host conv (some user) body attachments reply_to
              text_kind key w j))

  send_replying-run :
      (payload : Fields) (body : Text) (conv : Conversation) (o : Option Message) (w : World)
      → IsJournal w
      → RunFrom w (send_replying host between cid user payload body conv o w).1
  send_replying-run payload body conv none w j = done
  send_replying-run payload body conv (some m) w j = send_checked-run payload body conv (some m) w j

  send_into-run :
      (payload : Fields) (body : Text) (o : Option Conversation) (w : World)
      → IsJournal w
      → RunFrom w (send_into host between cid user payload body o w).1
  unfolding send_into
  send_into-run payload body none w j = done
  send_into-run payload body (some conv) w j =
      if-run (not (host.has_user user)) (pure (some code_not_found)) _ w done (
        if-run (not (truthy (get_field (codes "reply_to") payload)))
          (send_checked host between cid user payload body conv none) _ w
          (send_checked-run payload body conv none w j)
          (lift-run (find_message host cid (get_field (codes "reply_to") payload) w)
            (send_replying host between cid user payload body conv) w
            (λ o e. send_replying-run payload body conv o w j)))

  send_or-run :
      (payload : Fields) (body : Text) (o : Option Code) (w : World)
      → IsJournal w
      → RunFrom w (send_or host between cid user payload body o w).1
  send_or-run payload body (some c) w j = done
  send_or-run payload body none w j = send_into-run payload body (get_conversation cid w) w j

  do_send-run :
      (payload : Fields) (w : World)
      → IsJournal w
      → RunFrom w (do_send host between cid user payload w).1
  unfolding do_send
  do_send-run payload w j =
      let has = truthy (get_field (codes "attachments") payload) in
      lift-run (read_body (get_field (codes "body") payload))
        (λ body. send_or host between cid user payload body (send_refusal host body has)) w
        (λ body e. send_or-run payload body (send_refusal host body has) w j)

  mark_at-Journals :
      (read : Bool) (o : Option ℕ) (present : Bool)
      → Journals (mark_at host cid user read o present)
  mark_at-Journals read none present = Journals-pure (some code_bad_envelope)
  mark_at-Journals read (some upto) false = Journals-pure (some code_not_found)
  mark_at-Journals true (some upto) true =
      Journals-bind (mark_read cid user upto) _ (Journals-same _ (mark_read-SameRows cid user upto))
        (λ b. Journals-pure none)
  mark_at-Journals false (some upto) true =
      Journals-bind (mark_delivered cid user upto) _
        (Journals-same _ (mark_delivered-SameRows cid user upto)) (λ b. Journals-pure none)

  activity_at-Journals :
      (state : Text) (present : Bool) → Journals (activity_at host cid user state present)
  activity_at-Journals state false = Journals-pure (some code_not_found)
  activity_at-Journals state true = record {
    at = λ w j.
        answering-run activity_code w (announce_activity host cid user state w)
          (announce_activity-run host cid user state w);
  }

  -- A frame, whatever its kind and its payload.
  pub serve_frame-run :
      (frame : Frame) (w : World)
      → IsJournal w
      → RunFrom w (serve_frame host between cid user frame w).1
  unfolding serve_frame do_marker do_activity
  serve_frame-run (send_frame payload) w j = do_send-run payload w j
  serve_frame-run (edit_frame payload) w j = do_edit-run host cid user payload w j
  serve_frame-run (delete_frame payload) w j = do_delete-run host cid user payload w j
  serve_frame-run (read_frame payload) w j =
      (mark_at-Journals true (read_mark host cid user payload) (has_both host cid user w)).at w j
  serve_frame-run (delivered_frame payload) w j =
      (mark_at-Journals false (read_mark host cid user payload) (has_both host cid user w)).at w j
  serve_frame-run (activity_frame payload) w j =
      let state = get_field (codes "state") payload in
      (activity_at-Journals (if truthy state then host.text_of state else [])
          (has_both host cid user w)).at
        w j
