-- ===== src/Journal/Sending.antt =====
-- `post_message` as a run of the journal, whatever other requests do between its attempts.
use stapel_chat.Attachments.Describe.{prepare_attachments}
use stapel_chat.Base.{
  Bool-cases, List, Option, Option-cases, Text, arith, false, inl, inr, none, refl, some, suc, true,
  zero, ℕ, ◌≡◌,
}
use stapel_chat.Journal.{IsJournal, RunFrom, done}
use stapel_chat.Journal.Attempts.{attempt-ok}
use stapel_chat.Journal.Marks.{SameRows-refl}
use stapel_chat.Journal.Rules.{
  Journals, Journals-bind, Journals-gets, Journals-lift, Journals-pure, Journals-raise_if,
  Journals-same, RunFrom-trans,
}
use stapel_chat.Journal.Sends.{post_once-RunFrom}
use stapel_chat.Journal.Standing.{refuse_if_blocked-same}
use stapel_chat.Journal.Steps.{Run-IsJournal}
use stapel_chat.Model.{Conversation, Message, MessageKind}
use stapel_chat.Sending.{Draft, post_once}
use stapel_chat.Sending.Post.{
  draft_of, find_twin, is_foreign_reply, is_integrity, max_seq_retries, normal_client_id, or_else,
  post_attempts, post_message, post_new, refuse_if_blocked, undisturbed,
}
use stapel_chat.Settings.{Host}
use stapel_chat.Values.{Json}
use stapel_chat.World.{Error, Exec, Result, World, err, gets, invalid_reply, lift, ok, raise_if}

pub attempt-failed :
    (between : ℕ → World → World) (n : ℕ) (d : Draft) (w v : World) (e : Error)
    → post_once d (between n w) ≡ (err e, v)
    → is_integrity e ≡ false
    → post_attempts between (suc n) d w ≡ (err e, v)
unfolding post_attempts
attempt-failed between n d w v e h other = ground arith

pub attempt-again :
    (between : ℕ → World → World) (n : ℕ) (d : Draft) (w v : World) (e : Error)
    → post_once d (between n w) ≡ (err e, v)
    → is_integrity e ≡ true
    → find_twin d.conversation d.client_msg_id v ≡ none
    → post_attempts between (suc n) d w ≡ post_attempts between n d v
unfolding post_attempts
attempt-again between n d w v e h int t = ground arith

pub attempt-met :
    (between : ℕ → World → World) (n : ℕ) (d : Draft) (w v : World) (e : Error) (twin : Message)
    → post_once d (between n w) ≡ (err e, v)
    → is_integrity e ≡ true
    → find_twin d.conversation d.client_msg_id v ≡ some twin
    → post_attempts between (suc n) d w ≡ (ok twin, v)
unfolding post_attempts
attempt-met between n d w v e twin h int t = ground arith

-- Other requests, as runs of the journal.
abbrev pub Interferes : (ℕ → World → World) → Type 0
Interferes between = (n : ℕ) (w : World) → IsJournal w → RunFrom w (between n w)

pub undisturbed-Interferes : Interferes undisturbed
undisturbed-Interferes n w j = done

module _ (between : ℕ → World → World) (others : Interferes between) where
  pub post_attempts-Journals : (n : ℕ) (d : Draft) → Journals (post_attempts between n d)
  post_attempts-Journals zero d = record { at = λ w j. unfold post_attempts in done }
  post_attempts-Journals (suc n) d = record {
    at = λ w j.
        let u = between n w in
        let before = others n w j in
        let round = RunFrom-trans before (post_once-RunFrom d u (Run-IsJournal before j)) in
        go w j (post_once d u) refl round (post_attempts-Journals n d);
  }
    where
      go :
          (w : World)
          → IsJournal w
          → (o : Result Message × World) → post_once d (between n w) ≡ o
          → RunFrom w o.1
          → Journals (post_attempts between n d)
          → RunFrom w (post_attempts between (suc n) d w).1
      go w j (ok m, v) e run rest = rw (attempt-ok between n d w v m e) run
      go w j (err x, v) e run rest = elim (Bool-cases (is_integrity x)) [
        | inr other ↦ rw (attempt-failed between n d w v x e other) run
        | inl int ↦ elim (Option-cases (find_twin d.conversation d.client_msg_id v)) [
          | inr (twin, t) ↦ rw (attempt-met between n d w v x twin e int t) run
          | inl t ↦
              rw (attempt-again between n d w v x e int t)
                (RunFrom-trans run (rest.at v (Run-IsJournal run j)))
        ]
      ]

  Journals-refuse :
      (host : Host) (conv : Conversation) (sender : Option ℕ)
      → Journals (refuse_if_blocked host conv sender)
  Journals-refuse host conv sender =
      Journals-same (refuse_if_blocked host conv sender)
        (λ w. rw (refuse_if_blocked-same host conv sender w w refl) (SameRows-refl w))

  Journals-or_else : (o : Option Message) (m : Exec Message) → Journals m → Journals (or_else o m)
  Journals-or_else none m h = h
  Journals-or_else (some twin) m h = Journals-pure twin

  post_new-Journals :
      (host : Host) (conv : Conversation) (sender : Option ℕ) (body : Text)
      (attachments : List Json) (reply_to : Option Message) (kind : MessageKind) (key : Text)
      → Journals (post_new host between conv sender body attachments reply_to kind key)
  unfolding post_new
  post_new-Journals host conv sender body attachments reply_to kind key =
      Journals-bind (lift (prepare_attachments host attachments)) _ (Journals-lift _) (λ prepared.
        post_attempts-Journals max_seq_retries
          (draft_of conv sender body prepared reply_to kind key))

  pub post_message-Journals :
      (host : Host) (conv : Conversation) (sender : Option ℕ) (body : Text)
      (attachments : List Json) (reply_to : Option Message) (kind : MessageKind) (client : Text)
      → Journals (post_message host between conv sender body attachments reply_to kind client)
  unfolding post_message
  post_message-Journals host conv sender body attachments reply_to kind client =
      let key = normal_client_id client in
      let sent = post_new-Journals host conv sender body attachments reply_to kind key in
      Journals-bind (raise_if (is_foreign_reply reply_to conv.id) invalid_reply) _
        (Journals-raise_if _ invalid_reply)
        (λ _.
          Journals-bind (refuse_if_blocked host conv sender) _ (Journals-refuse host conv sender)
            (λ _.
              Journals-bind (gets (find_twin conv.id key)) _ (Journals-gets _)
                (λ twin. Journals-or_else twin _ sent)))

-- From a well-formed journal, `post_message` is one run of it, whatever it answers and whatever
-- the requests do that come between its attempts, as long as they are runs themselves.
pub post_message-RunFrom :
    (between : ℕ → World → World)
    → Interferes between
    → (host : Host) (conv : Conversation) (sender : Option ℕ) (body : Text)
      (attachments : List Json) (reply_to : Option Message) (kind : MessageKind) (client : Text)
      (w : World)
    → IsJournal w
    → RunFrom w (post_message host between conv sender body attachments reply_to kind client w).1
post_message-RunFrom between others host conv sender body attachments reply_to kind client w j =
    (post_message-Journals between others host conv sender body attachments reply_to kind client).at
      w j
