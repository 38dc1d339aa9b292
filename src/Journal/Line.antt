-- ===== src/Journal/Line.antt =====
-- services.py, `post_system_message`: its tests and its first attempt.
use stapel_chat.Attachments.{normalize_all}
use stapel_chat.Attachments.Describe.{
  describe_attachments, describe_pages, distinct_texts, prepare_attachments,
}
use stapel_chat.Base.{
  Bool-cases, List, Text, [], ap, arith, codes, drop_spaces, false, inl, inr, ltb, none, refl, some,
  strip, text_eq, ℕ, ◌+◌, ◌∙◌, ◌≡◌,
}
use stapel_chat.Journal.{IsJournal}
use stapel_chat.Journal.Attempts.{attempt-ok, first_attempt}
use stapel_chat.Journal.Sends.{announce_post-SameRows, post_once-stored, row_of}
use stapel_chat.Model.{Conversation, Message, system_kind}
use stapel_chat.Sending.{
  Draft, announce_post, get_conversation, insert_message, message_refs, resurface_participants,
  schedule_fanout, schedule_ref_sync, store_last_seq, with_last_seq,
}
use stapel_chat.Sending.Post.{
  draft_of, find_twin, max_seq_retries, normal_client_id, post_attempts, post_message, post_new,
  refuse_if_blocked, undisturbed,
}
use stapel_chat.Settings.{Host}
use stapel_chat.World.{World, ok}

prepare_attachments-nil : (host : Host) → prepare_attachments host [] ≡ ok []
unfolding prepare_attachments normalize_all describe_attachments distinct_texts describe_pages
prepare_attachments-nil host =
    let few : ltb host.max_attachments 0 ≡ false = ground arith in
    elim (Bool-cases (text_eq host.attachment_metadata (codes "cdn"))) [
      | inl e ↦ rw (few, e) refl
      | inr e ↦ rw (few, e) refl
    ]

abbrev line_draft : Conversation → Text → Draft
line_draft c line = draft_of c none line [] none system_kind []

post_message-line :
    (host : Host) (c : Conversation) (line : Text) (w : World)
    → post_message host undisturbed c none line [] none system_kind [] w
      ≡ post_attempts undisturbed max_seq_retries (line_draft c line) w
unfolding post_message refuse_if_blocked find_twin normal_client_id strip drop_spaces post_new
post_message-line host c line w = rw (prepare_attachments-nil host) refl

-- What a posted line leaves of the thread: the next sequence is handed out.
pub record LineLeft (cid : ℕ) (d : Conversation) (w v : World) : Type 0 where
  pub same_participants : v.participants ≡ w.participants
  pub raised : v.conversations ≡ (store_last_seq cid (d.last_seq + 1) w).conversations

schedule_ref_sync_participants :
    (k : ℕ) (old new : List Text) (w : World)
    → (schedule_ref_sync k old new w).participants ≡ w.participants
unfolding schedule_ref_sync
schedule_ref_sync_participants k old new w = ground arith

announce_post-LineLeft :
    (d : Draft) (c : Conversation) (m : Message) (w : World)
    → d.sender ≡ none
    → (announce_post d c m w).participants ≡ w.participants
unfolding announce_post schedule_fanout resurface_participants
announce_post-LineLeft d c m w system =
    schedule_ref_sync_participants m.id [] (message_refs d.attachments) _
    ∙ ap (λ s. (resurface_participants c.id s w).participants) system

no_twin : (cid : ℕ) (w : World) → find_twin cid [] w ≡ none
unfolding find_twin
no_twin cid w = refl

-- In a well-formed journal a system line into a conversation that exists is stored.
pub line_posted :
    (host : Host) (c : Conversation) (line : Text) (w : World) (d : Conversation)
    → IsJournal w
    → get_conversation c.id w ≡ some d
    → (m : Message) × (v : World) × (post_message host undisturbed c none line [] none system_kind
          [] w
        ≡ (ok m, v))
      × LineLeft c.id d w v
line_posted host c line w d j e = elim (first_attempt (line_draft c line) w d j e) [
  | inl free ↦
      let draft = line_draft c line in
      let row = row_of draft d w in
      let raised = with_last_seq (d.last_seq + 1) w.clock d in
      let stored = insert_message row (store_last_seq c.id (d.last_seq + 1) w) in
      let v = announce_post draft raised row stored in
      (
        row,
        v,
        post_message-line host c line w
            ∙ attempt-ok undisturbed 7 draft w v row (post_once-stored draft w d e free),
        record {
          same_participants =
              announce_post-LineLeft draft raised row stored refl
              ∙ (unfold insert_message store_last_seq in refl);
          raised =
              (announce_post-SameRows draft raised row stored).same_conversations
              ∙ (unfold insert_message in refl);
        },
      )
  | inr (taken, t) ↦ absurd (ground (arith, no_twin c.id w, t.1))
]
