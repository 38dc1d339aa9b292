-- ===== src/Sending/Changes.antt =====
-- services.py, "Editing and deletion" and "Erasure". A service is handed a message object, which
-- may be older than its row; it tests the object and writes the named columns of the row.
use stapel_chat.Base.{
  Bool, List, Text, [], any, filter, if◌then◌else◌, is_id, length, ltb, map, none, not, order_by,
  some, update_where, ℕ, ◌&&◌, ◌+◌, ◌-◌, ◌==◌, ◌∷◌,
}
use stapel_chat.Model.{Conversation, Message, is_deleted, is_system}
use stapel_chat.Realtime.{message_payload}
use stapel_chat.Sending.{
  allocate_seq, get_conversation, message_refs, participant_ids, schedule_fanout, schedule_ref_sync,
  store_last_seq, with_last_seq,
}
use stapel_chat.Settings.{Host}
use stapel_chat.World.{
  Exec, World, atomic, broadcast_message, does_not_exist, emit, err, gets, message_deleted,
  message_edited, message_gone, not_author, not_editable, ok, on_commit, pure, raise_if, ◌>>=◌,
  ◌>>◌,
}

-- `message.save(update_fields=...)` and `filter(pk=...).update(...)`
unfoldable pub store_message : ℕ → (Message → Message) → World → World
store_message message_id change w = record w {
  messages = update_where (λ (m : Message). m.id == message_id) change w.messages;
}

-- The columns an edit saves.
abbrev pub edited_row : Text → ℕ → ℕ → Message → Message
edited_row body now rev m = record m { body = body; edited_at = some now; rev_seq = rev }

-- The columns of a tombstone.
abbrev pub tombstone_row : ℕ → ℕ → Message → Message
tombstone_row now rev m = record m {
  body = [];
  attachments = [];
  deleted_at = some now;
  rev_seq = rev;
}

-- An erasure detaches the sender too.
abbrev pub erased_row : ℕ → ℕ → Message → Message
erased_row now rev m = record m {
  body = [];
  attachments = [];
  sender = none;
  deleted_at = some now;
  rev_seq = rev;
}

-- The edit window: the seconds since the message was created, while a window is set.
abbrev pub window_closed : ℕ → ℕ → Message → Bool
window_closed window now m = ltb 0 window && ltb window (now - m.created_at)

-- The rest of the transaction, once the row is saved and the object holds its values.
unfoldable pub edit_body : Message → Text → Conversation × ℕ → Exec Message
edit_body m body (conv, rev) w =
    let saved = edited_row body w.clock rev m in
    (
      ok saved,
      schedule_fanout saved conv (
          emit (message_edited (message_payload saved) conv.kind conv.scope_key)
            (store_message m.id (edited_row body w.clock rev) w)),
    )

unfoldable pub edit_message : Host → Message → ℕ → Text → Exec Message
edit_message host m editor body = do
  raise_if (is_deleted m) message_gone
  raise_if (is_system m.kind) not_editable
  raise_if (not (is_id m.sender editor)) not_author
  now ← gets (λ w. w.clock)
  raise_if (window_closed host.edit_window now m) not_editable
  atomic (allocate_seq m.conversation >>= edit_body m body)

unfoldable pub delete_body : Message → Conversation × ℕ → Exec Message
delete_body m (conv, rev) w =
    let saved = tombstone_row w.clock rev m in
    (
      ok saved,
      schedule_ref_sync m.id (message_refs m.attachments) [] (
          schedule_fanout saved conv (
            emit (message_deleted m.id conv.id m.sender m.seq rev (some w.clock))
              (store_message m.id (tombstone_row w.clock rev) w))),
    )

unfoldable pub delete_message : Message → ℕ → Exec Message
delete_message m actor = do
  raise_if (not (is_id m.sender actor)) not_author
  if is_deleted m then pure m else atomic (allocate_seq m.conversation >>= delete_body m)

-- The live messages a user wrote in a conversation, `order_by("seq")`.
abbrev pub is_authored_live : ℕ → Message → Bool
is_authored_live user m = is_id m.sender user && not (is_deleted m)

unfoldable pub authored_rows : ℕ → ℕ → World → List Message
authored_rows user cid w =
    order_by (λ m. m.seq)
      (filter (λ (m : Message). m.conversation == cid && is_authored_live user m) w.messages)

-- `for offset, msg in enumerate(rows, start=1)`, with the sequence before the first
unfoldable pub erase_rows : ℕ → List Message → World → World
erase_rows base [] w = w
erase_rows base (m ∷ rows) w = erase_rows (base + 1) rows (
    schedule_ref_sync m.id (message_refs m.attachments) []
      (store_message m.id (erased_row w.clock (base + 1)) w))

-- The frames of the erased rows, to everybody in the thread.
unfoldable pub announce_rows : Conversation → List ℕ → ℕ → ℕ → List Message → World → World
unfolding message_payload
announce_rows conv recipients now base [] w = w
announce_rows conv recipients now base (m ∷ rows) w =
    announce_rows conv recipients now (base + 1) rows (
      on_commit (broadcast_message (message_payload (erased_row now (base + 1) m)) conv recipients)
        w)

-- The rest of one conversation's share, once its row is locked and its rows are listed.
abbrev pub erase_listed : ℕ → Conversation → List Message → Exec ℕ
erase_listed cid c [] w = (ok 0, w)
erase_listed cid c (m ∷ more) w =
    let rows = m ∷ more in
    let seq = c.last_seq + length rows in
    (
      ok (length rows),
      announce_rows (with_last_seq seq w.clock c) (participant_ids w cid) w.clock c.last_seq rows
          (erase_rows c.last_seq rows (store_last_seq cid seq w)),
    )

-- One conversation's share of `erase_user_messages`, with the number of rows it touched.
unfoldable pub erase_in : ℕ → ℕ → Exec ℕ
erase_in user cid w = elim (get_conversation cid w) [
  | none ↦ (err does_not_exist, w)
  | some c ↦ erase_listed cid c (authored_rows user cid w) w
]

-- `values_list("conversation_id").distinct()`
unfoldable pub distinct_ids : List ℕ → List ℕ
distinct_ids [] = []
distinct_ids (n ∷ ns) =
    let rest = distinct_ids ns in if any (λ (k : ℕ). k == n) rest then rest else n ∷ rest

unfoldable pub erase_each : ℕ → List ℕ → Exec ℕ
erase_each user [] = pure 0
erase_each user (cid ∷ cids) = do
  here ← atomic (erase_in user cid)
  rest ← erase_each user cids
  pure (here + rest)

unfoldable pub erase_user_messages : ℕ → Exec ℕ
erase_user_messages user w =
    erase_each user
      (distinct_ids (map (λ m. m.conversation) (filter (is_authored_live user) w.messages))) w
