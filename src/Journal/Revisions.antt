-- ===== src/Journal/Revisions.antt =====
-- Edits and deletions as runs of the journal.
use stapel_chat.Base.{
  All, Bool-cases, Option, Option-cases, Text, arith, false, if◌then◌else◌, inl, inr, is_id, none,
  not, refl, some, true, ℕ, ◌+◌, ◌<◌, ◌∙◌, ◌≡◌, ◌⊎◌,
}
use stapel_chat.Journal.{Grows, IsJournal, KeepsPlace, RunFrom, done, last_seq_of, next, revised}
use stapel_chat.Journal.Marks.{
  Below-next, SameRows, SameRows-trans, emit-SameRows, last_seq_of-get, last_seq_of-store_self,
  schedule_fanout-SameRows, schedule_ref_sync-SameRows, store_last_seq-Grows,
}
use stapel_chat.Journal.Sends.{atomic-allocate_found, atomic-allocate_missing}
use stapel_chat.Model.{Conversation, Message, is_deleted, is_system}
use stapel_chat.Sending.{allocate_seq, get_conversation, store_last_seq, with_last_seq}
use stapel_chat.Sending.Changes.{
  delete_body, delete_message, edit_body, edit_message, edited_row, erased_row, store_message,
  tombstone_row, window_closed,
}
use stapel_chat.Settings.{Host}
use stapel_chat.World.{
  Error, Result, World, atomic, err, message_gone, not_author, not_editable, ok, ◌>>=◌,
}

-- A message object was read from the row that its id names, in the conversation it names.
abbrev pub IsSnapshot : Message → World → Type 0
IsSnapshot m w = All (λ (x : Message). x.id ≡ m.id → x.conversation ≡ m.conversation) w.messages

-- The state after the transaction of an edit or a deletion: one row was changed.
pub record Revised (m : Message) (w w' : World) : Type 0 where
  pub thread : Conversation
  pub found : get_conversation m.conversation w ≡ some thread
  pub change : Message → Message
  pub keeps : KeepsPlace change (thread.last_seq + 1)
  pub rows :
      SameRows
        (store_message m.id change (store_last_seq m.conversation (thread.last_seq + 1) w))
        w'

pub edited_row-KeepsPlace : (body : Text) (now rev : ℕ) → KeepsPlace (edited_row body now rev) rev
edited_row-KeepsPlace body now rev = record {
  keeps_id = λ m. refl;
  keeps_conversation = λ m. refl;
  keeps_seq = λ m. refl;
  takes_rev = λ m. refl;
}

pub tombstone_row-KeepsPlace : (now rev : ℕ) → KeepsPlace (tombstone_row now rev) rev
tombstone_row-KeepsPlace now rev = record {
  keeps_id = λ m. refl;
  keeps_conversation = λ m. refl;
  keeps_seq = λ m. refl;
  takes_rev = λ m. refl;
}

pub erased_row-KeepsPlace : (now rev : ℕ) → KeepsPlace (erased_row now rev) rev
erased_row-KeepsPlace now rev = record {
  keeps_id = λ m. refl;
  keeps_conversation = λ m. refl;
  keeps_seq = λ m. refl;
  takes_rev = λ m. refl;
}

pub edit_body-SameRows :
    (m : Message) (body : Text) (conv : Conversation) (rev : ℕ) (w : World)
    → SameRows
        (store_message m.id (edited_row body w.clock rev) w)
        (edit_body m body (conv, rev) w).1
unfolding edit_body
edit_body-SameRows m body conv rev w =
    SameRows-trans (emit-SameRows _ _) (schedule_fanout-SameRows _ conv _)

pub delete_body-SameRows :
    (m : Message) (conv : Conversation) (rev : ℕ) (w : World)
    → SameRows (store_message m.id (tombstone_row w.clock rev) w) (delete_body m (conv, rev) w).1
unfolding delete_body
delete_body-SameRows m conv rev w =
    SameRows-trans (emit-SameRows _ _)
      (SameRows-trans (schedule_fanout-SameRows _ conv _) (schedule_ref_sync-SameRows _ _ _ _))

-- The refusals of an edit, in the order of the code.
abbrev pub edit_refusal : Host → Message → ℕ → ℕ → Option Error
edit_refusal host m editor now =
    if is_deleted m
    then some message_gone
    else if is_system m.kind
    then some not_editable
    else if not (is_id m.sender editor)
    then some not_author
    else if window_closed host.edit_window now m
    then some not_editable
    else none

pub edit_message-refused :
    (host : Host) (m : Message) (editor : ℕ) (body : Text) (w : World) (e : Error)
    → edit_refusal host m editor w.clock ≡ some e
    → edit_message host m editor body w ≡ (err e, w)
unfolding edit_message
edit_message-refused host m editor body w e h = ground arith

pub edit_message-accepted :
    (host : Host) (m : Message) (editor : ℕ) (body : Text) (w : World)
    → edit_refusal host m editor w.clock ≡ none
    → edit_message host m editor body w
      ≡ atomic (allocate_seq m.conversation >>= edit_body m body) w
unfolding edit_message
edit_message-accepted host m editor body w h = ground arith

-- The transaction of an edit, once the conversation is locked.
pub edit_transaction :
    (m : Message) (body : Text) (w : World) (c : Conversation)
    → get_conversation m.conversation w ≡ some c
    → atomic (allocate_seq m.conversation >>= edit_body m body) w
      ≡ edit_body m body
          (with_last_seq (c.last_seq + 1) w.clock c, c.last_seq + 1)
          (store_last_seq m.conversation (c.last_seq + 1) w)
unfolding edit_body
edit_transaction m body w c e = atomic-allocate_found m.conversation (edit_body m body) w c e

pub delete_transaction :
    (m : Message) (w : World) (c : Conversation)
    → get_conversation m.conversation w ≡ some c
    → atomic (allocate_seq m.conversation >>= delete_body m) w
      ≡ delete_body m
          (with_last_seq (c.last_seq + 1) w.clock c, c.last_seq + 1)
          (store_last_seq m.conversation (c.last_seq + 1) w)
unfolding delete_body
delete_transaction m w c e = atomic-allocate_found m.conversation (delete_body m) w c e

pub delete_message-cases :
    (m : Message) (actor : ℕ) (w : World)
    → ((r : Result Message) × (delete_message m actor w ≡ (r, w)))
      ⊎ (delete_message m actor w ≡ atomic (allocate_seq m.conversation >>= delete_body m) w)
        × (is_id m.sender actor ≡ true)
        × (is_deleted m ≡ false)
unfolding delete_message
delete_message-cases m actor w = elim (Bool-cases (is_id m.sender actor)) [
  | inl mine ↦ elim (Bool-cases (is_deleted m)) [
    | inl gone ↦ inl (ok m, ground arith)
    | inr live ↦ inr (ground arith, mine, live)
  ]
  | inr other ↦ inl (err not_author, ground arith)
]

Revised-RunFrom :
    (m : Message) (w w' : World) → IsJournal w → IsSnapshot m w → Revised m w w' → RunFrom w w'
unfolding store_last_seq store_message
Revised-RunFrom m w w' j snap p =
    let c = p.thread in
    let seq = c.last_seq + 1 in
    let low : last_seq_of w.conversations m.conversation < seq =
      unfold get_conversation in
      omega (arith, last_seq_of-get m.conversation w.conversations c p.found) in
    let grown : Grows w (store_last_seq m.conversation seq w) =
      store_last_seq-Grows m.conversation seq w c p.found (omega arith) in
    let top : last_seq_of w'.conversations m.conversation ≡ seq = rw p.rows.same_conversations (
      unfold get_conversation in
      last_seq_of-store_self m.conversation seq w.clock w.conversations c p.found) in
    let g : Grows w w' = record {
      next_grows = omega (arith, p.rows.same_next);
      last_grows = λ cid. rw p.rows.same_conversations (grown.last_grows cid);
    } in
    next done (
      revised m.id m.conversation seq p.change p.rows.same_messages g p.keeps snap
        (Below-next m.conversation seq w.conversations w.next_id w.messages low j.placed)
        (omega (arith, top, low)))

-- An edit is one run.
pub edit_message-RunFrom :
    (host : Host) (m : Message) (editor : ℕ) (body : Text) (w : World)
    → IsJournal w
    → IsSnapshot m w
    → RunFrom w (edit_message host m editor body w).1
unfolding store_last_seq
edit_message-RunFrom host m editor body w j snap =
    elim (Option-cases (edit_refusal host m editor w.clock)) [
      | inr (e, h) ↦ rw (edit_message-refused host m editor body w e h) done
      | inl h ↦ elim (Option-cases (get_conversation m.conversation w)) [
        | inl missing ↦
            rw
              (edit_message-accepted host m editor body w h
                ∙ atomic-allocate_missing m.conversation (edit_body m body) w missing)
              done
        | inr (c, found) ↦
            rw (edit_message-accepted host m editor body w h ∙ edit_transaction m body w c found) (
              Revised-RunFrom m w _ j snap (record {
                thread = c;
                found = found;
                change = edited_row body w.clock (c.last_seq + 1);
                keeps = edited_row-KeepsPlace body w.clock (c.last_seq + 1);
                rows =
                    edit_body-SameRows m body _ (c.last_seq + 1)
                      (store_last_seq m.conversation (c.last_seq + 1) w);
              }))
      ]
    ]

-- A deletion is one run.
pub delete_message-RunFrom :
    (m : Message) (actor : ℕ) (w : World)
    → IsJournal w
    → IsSnapshot m w
    → RunFrom w (delete_message m actor w).1
unfolding store_last_seq
delete_message-RunFrom m actor w j snap = elim (delete_message-cases m actor w) [
  | inl (r, same) ↦ rw same done
  | inr (same, mine, live) ↦ elim (Option-cases (get_conversation m.conversation w)) [
    | inl missing ↦
        rw (same ∙ atomic-allocate_missing m.conversation (delete_body m) w missing) done
    | inr (c, found) ↦ rw (same ∙ delete_transaction m w c found) (
        Revised-RunFrom m w _ j snap (record {
          thread = c;
          found = found;
          change = tombstone_row w.clock (c.last_seq + 1);
          keeps = tombstone_row-KeepsPlace w.clock (c.last_seq + 1);
          rows =
              delete_body-SameRows m _ (c.last_seq + 1)
                (store_last_seq m.conversation (c.last_seq + 1) w);
        }))
  ]
]
