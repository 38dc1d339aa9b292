-- ===== src/Journal/Sends.antt =====
-- `_post_once` as a run of the journal.
use stapel_chat.Base.{
  Bool-cases, Option-cases, [], arith, false, inl, inr, none, some, true, ℕ, ◌+◌, ◌<◌, ◌∙◌, ◌≡◌,
  ◌⊎◌,
}
use stapel_chat.Journal.{Grows, IsJournal, RunFrom, appended, done, last_seq_of, next}
use stapel_chat.Journal.Marks.{
  Below-next, SameRows, SameRows-trans, emit-SameRows, last_seq_of-get, last_seq_of-store_self,
  resurface-SameRows, schedule_fanout-SameRows, schedule_ref_sync-SameRows, store_last_seq-Grows,
}
use stapel_chat.Model.{Conversation, Message}
use stapel_chat.Sending.{
  Draft, allocate_seq, announce_post, get_conversation, insert_message, new_message, post_body,
  post_once, store_last_seq, violates_unique, with_last_seq,
}
use stapel_chat.World.{Error, Exec, World, atomic, does_not_exist, err, integrity_error, ok, ◌>>=◌}

pub announce_post-SameRows :
    (d : Draft) (conv : Conversation) (m : Message) (w : World)
    → SameRows w (announce_post d conv m w)
unfolding announce_post
announce_post-SameRows d conv m w = SameRows-trans (resurface-SameRows conv.id d.sender w) (
    SameRows-trans (emit-SameRows _ _)
      (SameRows-trans (schedule_fanout-SameRows m conv _) (schedule_ref_sync-SameRows m.id [] _ _)))

abbrev pub row_of : Draft → Conversation → World → Message
row_of d c w = new_message d w.next_id (c.last_seq + 1) w.clock

-- The transaction of `_post_once`: it raises and leaves no trace, or it stores one row at the end
-- of its conversation and raises the conversation's mark to it.
pub record Posted (d : Draft) (w w' : World) : Type 0 where
  pub thread : Conversation
  pub found : get_conversation d.conversation w ≡ some thread
  pub free : violates_unique (row_of d thread w) w.messages ≡ false
  pub rows :
      SameRows
        (insert_message (row_of d thread w) (store_last_seq d.conversation (thread.last_seq + 1) w))
        w'

-- An allocation in a transaction: the body runs on the raised mark, or nothing has happened.
pub atomic-allocate_missing :
    {A : Type 0} (cid : ℕ) (body : Conversation × ℕ → Exec A) (w : World)
    → get_conversation cid w ≡ none
    → atomic (allocate_seq cid >>= body) w ≡ (err does_not_exist, w)
unfolding allocate_seq
atomic-allocate_missing cid body w e = ground arith

pub atomic-allocate_found :
    {A : Type 0} (cid : ℕ) (body : Conversation × ℕ → Exec A) (w : World) (c : Conversation)
    → get_conversation cid w ≡ some c
    → atomic (allocate_seq cid >>= body) w
      ≡ atomic
          (λ u.
            body
              (with_last_seq (c.last_seq + 1) w.clock c, c.last_seq + 1)
              (store_last_seq cid (c.last_seq + 1) u))
          w
unfolding allocate_seq
atomic-allocate_found cid body w c e = ground arith

pub post_once-stored :
    (d : Draft) (w : World) (c : Conversation)
    → get_conversation d.conversation w ≡ some c
    → violates_unique (row_of d c w) w.messages ≡ false
    → post_once d w ≡ (
      ok (row_of d c w),
      announce_post d
          (with_last_seq (c.last_seq + 1) w.clock c)
          (row_of d c w)
          (insert_message (row_of d c w) (store_last_seq d.conversation (c.last_seq + 1) w)),
    )
unfolding post_once post_body store_last_seq
post_once-stored d w c e free =
    atomic-allocate_found d.conversation (post_body d) w c e ∙ ground arith

pub post_once-taken :
    (d : Draft) (w : World) (c : Conversation)
    → get_conversation d.conversation w ≡ some c
    → violates_unique (row_of d c w) w.messages ≡ true
    → post_once d w ≡ (err integrity_error, w)
unfolding post_once post_body store_last_seq
post_once-taken d w c e taken =
    atomic-allocate_found d.conversation (post_body d) w c e ∙ ground arith

pub post_once-cases :
    (d : Draft) (w : World)
    → ((e : Error) × (post_once d w ≡ (err e, w)))
      ⊎ ((p : Posted d w (post_once d w).1) × ((post_once d w).0 ≡ ok (row_of d p.thread w)))
post_once-cases d w = elim (Option-cases (get_conversation d.conversation w)) [
  | inl e ↦
      inl (
        does_not_exist,
        unfold post_once in atomic-allocate_missing d.conversation (post_body d) w e,
      )
  | inr (c, e) ↦ elim (Bool-cases (violates_unique (row_of d c w) w.messages)) [
    | inl v ↦ inl (integrity_error, post_once-taken d w c e v)
    | inr v ↦ inr (
      record {
        thread = c;
        found = e;
        free = v;
        rows = rw (post_once-stored d w c e v) (announce_post-SameRows d _ _ _);
      },
      rw (post_once-stored d w c e v),
    )
  ]
]

-- What a state with the rows of another one owes to it.
Posted-RunFrom : (d : Draft) (w w' : World) → IsJournal w → Posted d w w' → RunFrom w w'
unfolding store_last_seq insert_message
Posted-RunFrom d w w' j p =
    let c = p.thread in
    let m = row_of d c w in
    let seq = c.last_seq + 1 in
    let low : last_seq_of w.conversations d.conversation < seq =
      unfold get_conversation in
      omega (arith, last_seq_of-get d.conversation w.conversations c p.found) in
    let grown : Grows w (store_last_seq d.conversation seq w) =
      store_last_seq-Grows d.conversation seq w c p.found (omega arith) in
    let top : last_seq_of w'.conversations d.conversation ≡ seq = rw p.rows.same_conversations (
      unfold get_conversation in
      last_seq_of-store_self d.conversation seq w.clock w.conversations c p.found) in
    let g : Grows w w' = record {
      next_grows = omega (arith, p.rows.same_next);
      last_grows = λ cid. rw p.rows.same_conversations (grown.last_grows cid);
    } in
    next done (
      appended m p.rows.same_messages g (omega (arith, p.rows.same_next)) (omega (arith, top, low))
        (Below-next d.conversation seq w.conversations w.next_id w.messages low j.placed))

-- A send is one run: nothing, or a row at the end of its conversation.
pub post_once-RunFrom : (d : Draft) (w : World) → IsJournal w → RunFrom w (post_once d w).1
post_once-RunFrom d w j = elim (post_once-cases d w) [
  | inl (e, same) ↦ rw same done
  | inr (p, r) ↦ Posted-RunFrom d w (post_once d w).1 j p
]
