-- ===== src/Journal/Retry.antt =====
-- The idempotent send: a client that lost the answer and sends again gets the same message.
use stapel_chat.Attachments.Describe.{prepare_attachments}
use stapel_chat.Base.{
  Bool, List, Option, Option-cases, Text, [], ap, arith, false, find?, inl, inr, is_empty, none,
  refl, some, subst, sym, text_eq_self, true, ℕ, ◌++◌, ◌+◌, ◌∙◌, ◌∷◌, ◌≡◌,
}
use stapel_chat.Journal.{IsJournal}
use stapel_chat.Journal.Attempts.{attempt-ok, first_attempt}
use stapel_chat.Journal.Sends.{announce_post-SameRows, post_once-stored, row_of}
use stapel_chat.Journal.Standing.{announce_post_users, refuse_if_blocked-same}
use stapel_chat.Model.{Conversation, Message, MessageKind}
use stapel_chat.Sending.{
  Draft, announce_post, get_conversation, insert_message, participant_ids, same_client_id,
  store_last_seq, with_last_seq,
}
use stapel_chat.Sending.Post.{
  draft_of, find_twin, is_foreign_reply, max_seq_retries, normal_client_id, or_else, post_attempts,
  post_message, post_new, refuse_if_blocked, undisturbed,
}
use stapel_chat.Settings.{Host}
use stapel_chat.Values.{Json}
use stapel_chat.World.{Exec, Result, World, err, ok}

find?-append :
    (p : Message → Bool) (ms : List Message) (m : Message)
    → find? p ms ≡ none
    → p m ≡ true
    → find? p (ms ++ m ∷ []) ≡ some m
find?-append p [] m e t = ground arith
find?-append p (x ∷ ms) m e t = ground (arith, find?-append p ms m)

-- The body of a send, after the reply and the block have been checked.
abbrev send_rest :
    Host
    → Conversation
    → Option ℕ
    → Text
    → List Json
    → Option Message
    → MessageKind
    → Text
    → Exec Message
send_rest host conv sender body attachments reply_to kind key w =
    or_else (find_twin conv.id key w)
      (post_new host undisturbed conv sender body attachments reply_to kind key) w

pub post_message-admitted :
    (host : Host) (conv : Conversation) (sender : Option ℕ) (body : Text) (attachments : List Json)
    (reply_to : Option Message) (kind : MessageKind) (client : Text) (w : World)
    → is_foreign_reply reply_to conv.id ≡ false
    → refuse_if_blocked host conv sender w ≡ (ok tt, w)
    → post_message host undisturbed conv sender body attachments reply_to kind client w
      ≡ send_rest host conv sender body attachments reply_to kind (normal_client_id client) w
unfolding post_message
post_message-admitted host conv sender body attachments reply_to kind client w r b = ground arith

-- A send that returned had been admitted.
admission :
    (host : Host) (conv : Conversation) (sender : Option ℕ) (body : Text) (attachments : List Json)
    (reply_to : Option Message) (kind : MessageKind) (client : Text) (w v : World) (m : Message)
    → post_message host undisturbed conv sender body attachments reply_to kind client w ≡ (ok m, v)
    → (is_foreign_reply reply_to conv.id ≡ false)
      × ((refuse_if_blocked host conv sender w).0 ≡ ok tt)
unfolding post_message
admission host conv sender body attachments reply_to kind client w v m h =
    ground (arith, refuse_if_blocked-same host conv sender w w refl)

pub ok-injective : (m n : Message) → ok m ≡ ok n → m ≡ n
ok-injective m n e = cc

find_twin-append :
    (cid : ℕ) (client : Text) (w v : World) (row : Message)
    → is_empty client ≡ false
    → find_twin cid client w ≡ none
    → v.messages ≡ w.messages ++ row ∷ []
    → (same_client_id cid client row ≡ true)
    → find_twin cid client v ≡ some row
unfolding find_twin
find_twin-append cid client w v row key fresh rows test =
    rw (key, rows) (find?-append (same_client_id cid client) w.messages row (ground arith) test)

-- A row of a draft has its key and its conversation.
own_key :
    (d : Draft) (c : Conversation) (w : World)
    → same_client_id d.conversation d.client_msg_id (row_of d c w) ≡ true
own_key d c w = ground (arith, text_eq_self d.client_msg_id)

-- A send whose key was not there leaves a row with the key, and the membership as it was.
new_send :
    (d : Draft) (w v : World) (c : Conversation) (m : Message)
    → IsJournal w
    → get_conversation d.conversation w ≡ some c
    → is_empty d.client_msg_id ≡ false
    → find_twin d.conversation d.client_msg_id w ≡ none
    → post_attempts undisturbed max_seq_retries d w ≡ (ok m, v)
    → (find_twin d.conversation d.client_msg_id v ≡ some m)
      × (participant_ids v d.conversation ≡ participant_ids w d.conversation)
new_send d w v c m j e key fresh h = elim (first_attempt d w c j e) [
  | inr (taken, (twin, t)) ↦ cc
  | inl free ↦
      let row = row_of d c w in
      let bumped = store_last_seq d.conversation (c.last_seq + 1) w in
      let inserted = insert_message row bumped in
      let conv = with_last_seq (c.last_seq + 1) w.clock c in
      let stored = attempt-ok undisturbed 7 d w _ row (post_once-stored d w c e free) in
      let after = announce_post d conv row inserted in
      let pair : ◌≡◌ {A = Result Message × World} (ok m, v) (ok row, after) = sym h ∙ stored in
      let same_row : m ≡ row = ok-injective m row (ap (λ (o : Result Message × World). o.0) pair) in
      let same_world : v ≡ after = ap (λ (o : Result Message × World). o.1) pair in
      let rows : after.messages ≡ w.messages ++ row ∷ [] =
        unfold insert_message store_last_seq in
        (announce_post-SameRows d conv row inserted).same_messages in
      let users : participant_ids inserted d.conversation ≡ participant_ids w d.conversation =
        unfold participant_ids insert_message store_last_seq in refl in
      (
        rw (same_world, same_row)
            (find_twin-append d.conversation d.client_msg_id w after row key fresh rows
              (own_key d c w)),
        rw same_world (announce_post_users d conv row inserted d.conversation ∙ users),
      )
]

-- A send that returned had its attachments accepted.
post_new-sent :
    (host : Host) (conv : Conversation) (sender : Option ℕ) (body : Text) (attachments : List Json)
    (reply_to : Option Message) (kind : MessageKind) (key : Text) (w v : World) (m : Message)
    → post_new host undisturbed conv sender body attachments reply_to kind key w ≡ (ok m, v)
    → (prepared : List Json) × (post_attempts undisturbed max_seq_retries
          (draft_of conv sender body prepared reply_to kind key)
          w
        ≡ (ok m, v))
unfolding post_new
post_new-sent host conv sender body attachments reply_to kind key w v m h =
    go (prepare_attachments host attachments) refl
  where
    go :
        (r : Result (List Json))
        → prepare_attachments host attachments ≡ r
        → (prepared : List Json) × (post_attempts undisturbed max_seq_retries
              (draft_of conv sender body prepared reply_to kind key)
              w
            ≡ (ok m, v))
    go (ok prepared) e = (prepared, ground arith)
    go (err x) e = absurd (ground arith)

module _ (host : Host) (conv : Conversation) (sender : Option ℕ) (reply_to : Option Message)
    (client : Text) where
  -- A second send that finds its key returns the row, and changes nothing.
  found_again :
      (body : Text) (attachments : List Json) (kind : MessageKind) (w : World) (m : Message)
      → is_foreign_reply reply_to conv.id ≡ false
      → refuse_if_blocked host conv sender w ≡ (ok tt, w)
      → find_twin conv.id (normal_client_id client) w ≡ some m
      → post_message host undisturbed conv sender body attachments reply_to kind client w
        ≡ (ok m, w)
  found_again body attachments kind w m r b t =
      post_message-admitted host conv sender body attachments reply_to kind client w r b ∙ rw t

  -- Sending twice with one idempotency key is sending once: whatever the second attempt carries,
  -- it returns the message of the first and leaves the state as the first left it.
  pub post_message-retry :
      (body body' : Text) (attachments attachments' : List Json) (kind kind' : MessageKind)
      (w v : World) (c : Conversation) (m : Message)
      → IsJournal w
      → get_conversation conv.id w ≡ some c
      → is_empty (normal_client_id client) ≡ false
      → post_message host undisturbed conv sender body attachments reply_to kind client w
        ≡ (ok m, v)
      → post_message host undisturbed conv sender body' attachments' reply_to kind' client v
        ≡ (ok m, v)
  post_message-retry body body' attachments attachments' kind kind' w v c m j e key h =
      let adm = admission host conv sender body attachments reply_to kind client w v m h in
      let b : refuse_if_blocked host conv sender w ≡ (ok tt, w) =
        refuse_if_blocked-same host conv sender w w refl ∙ rw adm.1 in
      let first =
        sym (post_message-admitted host conv sender body attachments reply_to kind client w adm.0 b)
        ∙ h in
      elim (Option-cases (find_twin conv.id (normal_client_id client) w)) [
        | inr (twin, t) ↦
            let same : ◌≡◌ {A = Result Message × World} (ok twin, w) (ok m, v) =
              sym (rw t) ∙ first in
            let same_row : twin ≡ m =
              ok-injective twin m (ap (λ (o : Result Message × World). o.0) same) in
            let same_world : w ≡ v = ap (λ (o : Result Message × World). o.1) same in
            subst
              (λ u.
                post_message host undisturbed conv sender body' attachments' reply_to kind' client u
                ≡ (ok m, u))
              same_world (found_again body' attachments' kind' w m adm.0 b (t ∙ ap some same_row))
        | inl fresh ↦
            let key_sent = normal_client_id client in
            let started : post_new host undisturbed conv sender body attachments reply_to kind
                  key_sent w
                ≡ (ok m, v) =
              sym (rw fresh) ∙ first in
            let (prepared, sent) =
              post_new-sent host conv sender body attachments reply_to kind key_sent w v m
                started in
            let d = draft_of conv sender body prepared reply_to kind key_sent in
            let (found, users) = new_send d w v c m j e key fresh sent in
            found_again body' attachments' kind' v m adm.0
              (refuse_if_blocked-same host conv sender w v users
                ∙ ap (λ (r : Result Unit). (r, v)) adm.1)
              found
      ]
