-- ===== src/Journal/Erasure.antt =====
-- `erase_user_messages` as a run of the journal: one block of sequences for each conversation.
use stapel_chat.Base.{
  All, All-filter, All-map, All-order_by, Bool, Bool-cases, List, Option-cases, Pairwise, [], ap,
  arith, filter, inl, inr, length, refl, some, sym, true, update_where, ℕ, ◌&&◌, ◌+◌, ◌==◌, ◌∙◌,
  ◌∷◌, ◌≡◌, ◌≤◌,
}
use stapel_chat.Journal.{
  Below, Grows, IdApart, IsJournal, KeepsPlace, Run, RunFrom, done, last_seq_of, next, reserved,
  revised,
}
use stapel_chat.Journal.Marks.{
  Below-next, SameRows, SameRows-RunFrom, SameRows-refl, SameRows-trans, last_seq_of-get,
  last_seq_of-store_self, schedule_ref_sync-SameRows, store_last_seq-Grows,
}
use stapel_chat.Journal.Revisions.{erased_row-KeepsPlace}
use stapel_chat.Journal.Rules.{Journals, Journals-atomic, Journals-bind, Journals-pure, Run-trans}
use stapel_chat.Model.{Conversation, Message}
use stapel_chat.Sending.{
  get_conversation, message_refs, participant_ids, schedule_ref_sync, store_last_seq, with_last_seq,
}
use stapel_chat.Sending.Changes.{
  announce_rows, authored_rows, distinct_ids, erase_each, erase_in, erase_listed, erase_rows,
  erase_user_messages, erased_row, is_authored_live, store_message,
}
use stapel_chat.World.{World, atomic, pure, ◌>>=◌}

-- With distinct ids, a listed row is a snapshot of itself.
abbrev pub SameThread : List Message → Message → Type 0
SameThread ms m = All (λ (x : Message). x.id ≡ m.id → x.conversation ≡ m.conversation) ms

alone : (m : Message) (ms : List Message) → All (IdApart m) ms → SameThread ms m
alone m [] h = tt
alone m (x ∷ ms) h = ((λ e. absurd (h.0 (sym e))), alone m ms h.1)

with_head :
    (y : Message) (ms rows : List Message)
    → All (IdApart y) rows
    → All (SameThread ms) rows
    → All (SameThread (y ∷ ms)) rows
with_head y ms [] a h = tt
with_head y ms (m ∷ rows) a h = (((λ e. absurd (a.0 e)), h.0), with_head y ms rows a.1 h.1)

pub own_snapshots : (ms : List Message) → Pairwise IdApart ms → All (SameThread ms) ms
own_snapshots [] h = tt
own_snapshots (y ∷ ms) h =
    (((λ e. refl), alone y ms h.0), with_head y ms ms h.0 (own_snapshots ms h.1))

-- What a revision keeps for the rows still to come.
module _ (k r : ℕ) (change : Message → Message) (kp : KeepsPlace change r) where
  abbrev revised_rows : List Message → List Message
  revised_rows = update_where (λ (m : Message). m.id == k) change

  SameThread-revised :
      (m : Message) (ms : List Message) → SameThread ms m → SameThread (revised_rows ms) m
  SameThread-revised m [] h = tt
  SameThread-revised m (x ∷ ms) h = elim (Bool-cases (x.id == k)) [
    | inl t ↦ rw t (
      (λ e. kp.keeps_conversation x ∙ h.0 (sym (kp.keeps_id x) ∙ e)),
      SameThread-revised m ms h.1,
    )
    | inr t ↦ rw t (h.0, SameThread-revised m ms h.1)
  ]

  Below-revised :
      (cid : ℕ) (ms : List Message) → Below cid r ms → Below cid (r + 1) (revised_rows ms)
  Below-revised cid [] b = tt
  Below-revised cid (x ∷ ms) b = elim (Bool-cases (x.id == k)) [
    | inl t ↦ rw t ((λ e. omega (arith, kp.takes_rev x)), Below-revised cid ms b.1)
    | inr t ↦ rw t ((λ e. omega (arith, b.0 e)), Below-revised cid ms b.1)
  ]

module _ (floor : ℕ → ℕ) (cid : ℕ) where
  -- One row of the loop, and the rest.
  erase_rows-Run :
      (base : ℕ) (rows : List Message) (w : World)
      → All (λ (m : Message). m.conversation ≡ cid) rows
      → All (SameThread w.messages) rows
      → Below cid (base + 1) w.messages
      → base + length rows ≤ last_seq_of w.conversations cid
      → floor cid ≤ base
      → Run floor w (erase_rows base rows w)
  unfolding erase_rows store_message
  erase_rows-Run base [] w same snap b top low = done
  erase_rows-Run base (m ∷ rows) w same snap b top low =
      let change = erased_row w.clock (base + 1) in
      let kp = erased_row-KeepsPlace w.clock (base + 1) in
      let written = store_message m.id change w in
      let w1 = schedule_ref_sync m.id (message_refs m.attachments) [] written in
      let kept = schedule_ref_sync-SameRows m.id (message_refs m.attachments) [] written in
      let g : Grows w w1 = record {
        next_grows = omega (arith, kept.same_next);
        last_grows = λ other. rw kept.same_conversations (omega arith);
      } in
      let first : Run floor w w1 = next done (
        revised m.id cid (base + 1) change kept.same_messages g kp
          (All-map _ _ w.messages (λ x h e. h e ∙ same.0) snap.0) b
          (omega (arith, low, top, ap (λ cs. last_seq_of cs cid) kept.same_conversations))) in
      Run-trans first (
        erase_rows-Run (base + 1) rows w1 same.1
          (rw kept.same_messages (
            All-map _ _ rows (λ x h. SameThread-revised m.id (base + 1) change kp x w.messages h)
              snap.1))
          (rw kept.same_messages (Below-revised m.id (base + 1) change kp cid w.messages b))
          (rw kept.same_conversations (omega (arith, top))) (omega (arith, low)))

pub announce_rows-SameRows :
    (conv : Conversation) (recipients : List ℕ) (now base : ℕ) (rows : List Message) (w : World)
    → SameRows w (announce_rows conv recipients now base rows w)
unfolding announce_rows
announce_rows-SameRows conv recipients now base [] w = SameRows-refl w
announce_rows-SameRows conv recipients now base (m ∷ rows) w =
    SameRows-trans (record { same_conversations = refl; same_messages = refl; same_next = refl })
      (announce_rows-SameRows conv recipients now (base + 1) rows _)

filter_sound : (p : Message → Bool) (ms : List Message) → All (λ m. p m ≡ true) (filter p ms)
filter_sound p [] = tt
filter_sound p (m ∷ ms) = elim (Bool-cases (p m)) [
  | inl e ↦ rw e (e, filter_sound p ms)
  | inr e ↦ rw e (filter_sound p ms)
]

authored_rows-conversation :
    (user cid : ℕ) (w : World)
    → All (λ (m : Message). m.conversation ≡ cid) (authored_rows user cid w)
unfolding authored_rows
authored_rows-conversation user cid w =
    All-order_by (λ (m : Message). m.conversation ≡ cid) (λ m. m.seq) _
      (All-map _ _
        (filter (λ (m : Message). m.conversation == cid && is_authored_live user m) w.messages)
        (λ m e. ground arith)
        (filter_sound (λ (m : Message). m.conversation == cid && is_authored_live user m)
          w.messages))

authored_rows-SameThread :
    (user cid : ℕ) (w : World)
    → IsJournal w
    → All (SameThread w.messages) (authored_rows user cid w)
unfolding authored_rows
authored_rows-SameThread user cid w j =
    All-order_by (SameThread w.messages) (λ m. m.seq) _
      (All-filter (SameThread w.messages)
        (λ (m : Message). m.conversation == cid && is_authored_live user m) w.messages
        (own_snapshots w.messages j.ids))

erase_listed-RunFrom :
    (cid : ℕ) (c : Conversation) (rows : List Message) (w : World)
    → IsJournal w
    → get_conversation cid w ≡ some c
    → All (λ (m : Message). m.conversation ≡ cid) rows
    → All (SameThread w.messages) rows
    → RunFrom w (erase_listed cid c rows w).1
unfolding store_last_seq
erase_listed-RunFrom cid c [] w j e same snap = done
erase_listed-RunFrom cid c (m ∷ more) w j e same snap =
    let rows = m ∷ more in
    let seq = c.last_seq + length rows in
    let bumped = store_last_seq cid seq w in
    let base : last_seq_of w.conversations cid ≡ c.last_seq =
      unfold get_conversation in last_seq_of-get cid w.conversations c e in
    let top : last_seq_of bumped.conversations cid ≡ seq =
      unfold get_conversation in last_seq_of-store_self cid seq w.clock w.conversations c e in
    let g : Grows w bumped = store_last_seq-Grows cid seq w c e (omega arith) in
    Run-trans (next done (reserved refl g)) (
      Run-trans
        (erase_rows-Run (last_seq_of w.conversations) cid c.last_seq rows bumped same snap
          (Below-next cid (c.last_seq + 1) w.conversations w.next_id w.messages
            (omega (arith, base)) j.placed)
          (omega (arith, top)) (omega (arith, base)))
        (SameRows-RunFrom (
          announce_rows-SameRows (with_last_seq seq w.clock c) (participant_ids w cid) w.clock
            c.last_seq rows _)))

erase_in-Journals : (user cid : ℕ) → Journals (erase_in user cid)
unfolding erase_in
erase_in-Journals user cid = record {
  at = λ w j. elim (Option-cases (get_conversation cid w)) [
    | inl e ↦ rw (e, erase_in) done
    | inr (c, e) ↦
        rw (e, erase_in)
          (erase_listed-RunFrom cid c (authored_rows user cid w) w j e
            (authored_rows-conversation user cid w) (authored_rows-SameThread user cid w j))
  ];
}

erase_each-Journals : (user : ℕ) (cids : List ℕ) → Journals (erase_each user cids)
unfolding erase_each
erase_each-Journals user [] = Journals-pure 0
erase_each-Journals user (cid ∷ cids) =
    Journals-bind (atomic (erase_in user cid))
      (λ here. erase_each user cids >>= λ rest. pure (here + rest))
      (Journals-atomic (erase_in user cid) (erase_in-Journals user cid))
      (λ here.
        Journals-bind (erase_each user cids) (λ rest. pure (here + rest))
          (erase_each-Journals user cids) (λ rest. Journals-pure (here + rest)))

pub erase_user_messages-Journals : (user : ℕ) → Journals (erase_user_messages user)
unfolding erase_user_messages
erase_user_messages-Journals user = record {
  at = λ w j. (erase_each-Journals user (distinct_ids _)).at w j;
}

-- From a well-formed journal, the erasure of a person's messages is one run of it: each erased row
-- takes a place of its own above everything its conversation had handed out.
pub erase_user_messages-RunFrom :
    (user : ℕ) (w : World) → IsJournal w → RunFrom w (erase_user_messages user w).1
erase_user_messages-RunFrom user w j = (erase_user_messages-Journals user).at w j
