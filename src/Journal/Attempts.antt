-- ===== src/Journal/Attempts.antt =====
-- The retry loop of `post_message`: what a first attempt can meet, and that it always returns.
use stapel_chat.Base.{
  ==_iff, All, All-find?, Bool-cases, List, Option-cases, Text, [], any, any-eq-is_some, arith,
  false, find?, inl, inr, is_empty, refl, some, subst, suc, text_eq_sound, ℕ, ◌++◌, ◌+◌, ◌<◌, ◌==◌,
  ◌∷◌, ◌≡◌, ◌≤◌, ◌⊎◌,
}
use stapel_chat.Journal.{IsJournal, IsPlaced, last_seq_of}
use stapel_chat.Journal.Marks.{last_seq_of-get}
use stapel_chat.Journal.Sends.{announce_post-SameRows, post_once-stored, post_once-taken, row_of}
use stapel_chat.Model.{Conversation, Message}
use stapel_chat.Sending.{
  Draft, get_conversation, insert_message, post_once, same_client_id, same_seq, store_last_seq,
  violates_unique, with_last_seq,
}
use stapel_chat.Sending.Post.{find_twin, post_attempts}
use stapel_chat.World.{World, err, integrity_error, ok}

-- No stored row has the sequence that is handed out next.
seq_free :
    (cid r : ℕ) (cs : List Conversation) (n : ℕ) (ms : List Message)
    → last_seq_of cs cid < r
    → All (IsPlaced cs n) ms
    → any (same_seq cid r) ms ≡ false
seq_free cid r cs n [] lt h = refl
seq_free cid r cs n (m ∷ ms) lt h =
    let low : m.conversation ≡ cid → m.seq < r = λ e.
      let top : m.rev_seq ≤ last_seq_of cs cid =
        subst (λ k. m.rev_seq ≤ last_seq_of cs k) e h.0.rev_le_last in
      omega (arith, h.0.seq_le_rev) in
    elim (Bool-cases (m.conversation == cid)) [
      | inl t ↦
          let below : m.seq < r = low ((==_iff m.conversation cid).0 t) in
          ground (arith, seq_free cid r cs n ms lt h.1)
      | inr t ↦ ground (arith, seq_free cid r cs n ms lt h.1)
    ]

-- A transaction that finds its conversation either stores its row, or meets an earlier row with
-- the idempotency key.
pub first_attempt :
    (d : Draft) (w : World) (c : Conversation)
    → IsJournal w
    → get_conversation d.conversation w ≡ some c
    → (violates_unique (row_of d c w) w.messages ≡ false)
      ⊎ ((post_once d w ≡ (err integrity_error, w))
          × ((twin : Message) × (find_twin d.conversation d.client_msg_id w ≡ some twin)))
unfolding violates_unique find_twin
first_attempt d w c j e =
    let low : last_seq_of w.conversations d.conversation < c.last_seq + 1 =
      unfold get_conversation in
      omega (arith, last_seq_of-get d.conversation w.conversations c e) in
    let free : any (same_seq d.conversation (c.last_seq + 1)) w.messages ≡ false =
      seq_free d.conversation (c.last_seq + 1) w.conversations w.next_id w.messages low j.placed in
    elim (Bool-cases (violates_unique (row_of d c w) w.messages)) [
      | inr v ↦ inl v
      | inl v ↦
          elim (Option-cases (find? (same_client_id d.conversation d.client_msg_id) w.messages)) [
            | inl missing ↦ absurd (
                ground (
                  arith,
                  any-eq-is_some (same_client_id d.conversation d.client_msg_id) w.messages,
                ))
            | inr (twin, t) ↦ inr (
              post_once-taken d w c e v,
              (
                twin,
                ground (
                  arith,
                  free,
                  any-eq-is_some (same_client_id d.conversation d.client_msg_id) w.messages,
                ),
              ),
            )
          ]
    ]

-- What a send answers with: the row it has just stored, or an earlier one with its key.
pub record Answers (d : Draft) (w w' : World) (m : Message) : Type 0 where
  pub same_thread : m.conversation ≡ d.conversation
  pub same_key : m.client_msg_id ≡ d.client_msg_id
  pub is_stored :
      (find_twin d.conversation d.client_msg_id w' ≡ some m) ⊎ (w'.messages ≡ w.messages ++ m ∷ [])

find_twin_sound :
    (cid : ℕ) (client : Text) (w : World) (m : Message)
    → find_twin cid client w ≡ some m
    → (m.conversation ≡ cid) × (m.client_msg_id ≡ client)
unfolding find_twin
find_twin_sound cid client w m e = elim (Bool-cases (is_empty client)) [
  | inl blank ↦ absurd (ground arith)
  | inr key ↦
      let hit : find? (same_client_id cid client) w.messages ≡ some m = ground arith in
      let test =
        (All-find? (λ (x : Message). Unit {0}) (same_client_id cid client) w.messages
          (All-trivial w.messages) hit).1 in
      (ground arith, text_eq_sound m.client_msg_id client (ground arith))
]
  where
    All-trivial : (ms : List Message) → All (λ (x : Message). Unit {0}) ms
    All-trivial [] = tt
    All-trivial (x ∷ ms) = (tt, All-trivial ms)

-- One round of the retry loop, by how its transaction ended.
pub attempt-ok :
    (between : ℕ → World → World) (n : ℕ) (d : Draft) (w v : World) (m : Message)
    → post_once d (between n w) ≡ (ok m, v)
    → post_attempts between (suc n) d w ≡ (ok m, v)
unfolding post_attempts
attempt-ok between n d w v m e = ground arith

pub attempt-twin :
    (between : ℕ → World → World) (n : ℕ) (d : Draft) (w v : World) (twin : Message)
    → post_once d (between n w) ≡ (err integrity_error, v)
    → find_twin d.conversation d.client_msg_id v ≡ some twin
    → post_attempts between (suc n) d w ≡ (ok twin, v)
unfolding post_attempts
attempt-twin between n d w v twin e t = ground arith

-- In a well-formed journal whose conversation exists, the retry loop with any attempts left returns a
-- message of the thread and the key that were asked for: a row that it has added at the end, or the
-- twin that has the key.
pub post_attempts_returns :
    (between : ℕ → World → World) (n : ℕ) (d : Draft) (w : World) (c : Conversation)
    → IsJournal (between n w)
    → get_conversation d.conversation (between n w) ≡ some c
    → (m : Message) × (v : World) × (post_attempts between (suc n) d w ≡ (ok m, v))
      × Answers d (between n w) v m
post_attempts_returns between n d w c j e =
    let u = between n w in
    elim (first_attempt d u c j e) [
      | inl free ↦
          let stored = post_once-stored d u c e free in
          let rest =
            announce_post-SameRows d (with_last_seq (c.last_seq + 1) u.clock c) (row_of d c u)
              (insert_message (row_of d c u) (store_last_seq d.conversation (c.last_seq + 1) u)) in
          (
            row_of d c u,
            _,
            attempt-ok between n d w _ (row_of d c u) stored,
            record {
              same_thread = refl;
              same_key = refl;
              is_stored = inr (unfold insert_message store_last_seq in rest.same_messages);
            },
          )
      | inr (taken, (twin, t)) ↦
          let sound = find_twin_sound d.conversation d.client_msg_id u twin t in
          (
            twin,
            u,
            attempt-twin between n d w u twin taken t,
            record { same_thread = sound.0; same_key = sound.1; is_stored = inl t },
          )
    ]
