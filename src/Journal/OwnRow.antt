-- ===== src/Journal/OwnRow.antt =====
-- services.py, `edit_message` and `delete_message`: the one row that each writes.
use stapel_chat.Base.{
  Option-cases, Text, arith, false, inl, inr, is_id, some, true, update_where, ℕ, ◌+◌, ◌<◌, ◌==◌,
  ◌∙◌, ◌≡◌, ◌⊎◌,
}
use stapel_chat.Journal.{IsJournal, RunFrom, last_seq_of}
use stapel_chat.Journal.Marks.{SameRows, last_seq_of-get, last_seq_of-store_self}
use stapel_chat.Journal.Revisions.{
  IsSnapshot, delete_body-SameRows, delete_message-RunFrom, delete_message-cases,
  delete_transaction, edit_body-SameRows, edit_message-RunFrom, edit_message-accepted,
  edit_message-refused, edit_refusal, edit_transaction,
}
use stapel_chat.Journal.Sends.{atomic-allocate_missing}
use stapel_chat.Model.{Conversation, Message, is_deleted}
use stapel_chat.Sending.{get_conversation, store_last_seq}
use stapel_chat.Sending.Changes.{
  delete_body, delete_message, edit_body, edit_message, edited_row, store_message, tombstone_row,
}
use stapel_chat.Settings.{Host}
use stapel_chat.World.{Error, Result, World, does_not_exist, err}

-- One row was written, the object's own, and it stands at a place above everything that the
-- conversation had handed out, which is handed out now.
pub record OwnRow (m : Message) (change : ℕ → Message → Message) (w v : World) : Type 0 where
  pub place : ℕ
  pub fresh : last_seq_of w.conversations m.conversation < place
  pub handed : last_seq_of v.conversations m.conversation ≡ place
  pub written : v.messages ≡ update_where (λ (x : Message). x.id == m.id) (change place) w.messages

own_row :
    (m : Message) (change : ℕ → Message → Message) (w v : World) (c : Conversation)
    → get_conversation m.conversation w ≡ some c
    → SameRows
        (store_message m.id
          (change (c.last_seq + 1))
          (store_last_seq m.conversation (c.last_seq + 1) w))
        v
    → OwnRow m change w v
unfolding store_last_seq store_message
own_row m change w v c found rows = record {
  place = c.last_seq + 1;
  fresh =
      unfold get_conversation in
      omega (arith, last_seq_of-get m.conversation w.conversations c found);
  handed = rw rows.same_conversations (
      unfold get_conversation in
      last_seq_of-store_self m.conversation (c.last_seq + 1) w.clock w.conversations c found);
  written = rows.same_messages;
}

-- From a well-formed journal, an edit of an object that names the conversation of its row is one run
-- of the journal: it is an error and nothing has changed, or the object's row, and no other, has the
-- words and the time of the edit, at a place that the conversation had not handed out before.
pub edit_message_revises :
    (host : Host) (m : Message) (editor : ℕ) (body : Text) (w : World)
    → IsJournal w
    → IsSnapshot m w
    → let v = (edit_message host m editor body w).1 in
      RunFrom w v
      × (((e : Error) × (edit_message host m editor body w ≡ (err e, w)))
          ⊎ OwnRow m (edited_row body w.clock) w v)
unfolding store_last_seq
edit_message_revises host m editor body w j snap = (
  edit_message-RunFrom host m editor body w j snap,
  elim (Option-cases (edit_refusal host m editor w.clock)) [
    | inr (e, h) ↦ inl (e, edit_message-refused host m editor body w e h)
    | inl h ↦ elim (Option-cases (get_conversation m.conversation w)) [
      | inl missing ↦ inl (
        does_not_exist,
        edit_message-accepted host m editor body w h
            ∙ atomic-allocate_missing m.conversation (edit_body m body) w missing,
      )
      | inr (c, found) ↦
          let u = store_last_seq m.conversation (c.last_seq + 1) w in
          inr (
            rw (edit_message-accepted host m editor body w h ∙ edit_transaction m body w c found) (
              own_row m (edited_row body w.clock) w _ c found
                (edit_body-SameRows m body _ (c.last_seq + 1) u)))
    ]
  ],
)

-- From a well-formed journal, a deletion of an object that names the conversation of its row is one
-- run of the journal: nothing has changed, or the caller is the sender of an object that was live,
-- and its row, and no other, is a tombstone of now, at a place that the conversation had not handed
-- out before.
pub delete_message_revises :
    (m : Message) (actor : ℕ) (w : World)
    → IsJournal w
    → IsSnapshot m w
    → let v = (delete_message m actor w).1 in
      RunFrom w v
      × (((r : Result Message) × (delete_message m actor w ≡ (r, w)))
          ⊎ ((is_id m.sender actor ≡ true)
              × (is_deleted m ≡ false)
              × OwnRow m (tombstone_row w.clock) w v))
unfolding store_last_seq
delete_message_revises m actor w j snap = (
  delete_message-RunFrom m actor w j snap,
  elim (delete_message-cases m actor w) [
    | inl (r, same) ↦ inl (r, same)
    | inr (same, mine, live) ↦ elim (Option-cases (get_conversation m.conversation w)) [
      | inl missing ↦ inl (
        err does_not_exist,
        same ∙ atomic-allocate_missing m.conversation (delete_body m) w missing,
      )
      | inr (c, found) ↦
          let u = store_last_seq m.conversation (c.last_seq + 1) w in
          inr (
            mine,
            live,
            rw (same ∙ delete_transaction m w c found) (
                own_row m (tombstone_row w.clock) w _ c found
                  (delete_body-SameRows m _ (c.last_seq + 1) u)),
          )
    ]
  ],
)
