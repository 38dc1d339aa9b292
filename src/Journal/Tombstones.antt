-- ===== src/Journal/Tombstones.antt =====
-- services.py, `delete_message` and `edit_message`: the row that they leave, and the frame and the
-- event of an edit.
use stapel_chat.Base.{
  ==_iff, Bool-cases, In, List, Option-cases, [], ap, arith, false, false≢true, inl, inr, is_id,
  refl, some, subst, sym, true, update_where, ℕ, ◌+◌, ◌==◌, ◌∙◌, ◌∷◌, ◌≡◌,
}
use stapel_chat.Journal.Revisions.{delete_body-SameRows, delete_transaction}
use stapel_chat.Journal.Sends.{atomic-allocate_missing}
use stapel_chat.Model.{Message, is_deleted}
use stapel_chat.Sending.{allocate_seq, get_conversation, store_last_seq, with_last_seq}
use stapel_chat.Sending.Changes.{delete_body, delete_message, store_message, tombstone_row}
use stapel_chat.World.{Result, World, atomic, err, not_author, ok, ◌>>=◌}

-- A row that was written over is the change of the row that was there.
over_written :
    (k : ℕ) (change : Message → Message) (ms : List Message) (x : Message)
    → ((y : Message) → (change y).id ≡ y.id)
    → In x (update_where (λ (m : Message). m.id == k) change ms)
    → x.id ≡ k
    → (y : Message) × In y ms × (y.id ≡ k) × (x ≡ change y)
over_written k change [] x kept i e = absurd i.1
over_written k change (m ∷ ms) x kept i e = elim (Bool-cases (m.id == k)) [
  | inl t ↦
      let j : In x (change m ∷ update_where (λ (m : Message). m.id == k) change ms) = rw t at i in
      elim j [
        | inl here ↦ (m, inl refl, (==_iff m.id k).0 t, here)
        | inr later ↦
            let (y, at, same, eq) = over_written k change ms x kept later e in (y, inr at, same, eq)
      ]
  | inr t ↦
      let j : In x (m ∷ update_where (λ (m : Message). m.id == k) change ms) = rw t at i in
      elim j [
        | inl here ↦
            absurd
              (false≢true (sym t ∙ (==_iff m.id k).1 (ap (λ (z : Message). z.id) (sym here) ∙ e)))
        | inr later ↦
            let (y, at, same, eq) = over_written k change ms x kept later e in (y, inr at, same, eq)
      ]
]

abbrev answer : Result Message × World → Result Message
answer o = o.0

abbrev world_after : Result Message × World → World
world_after o = o.1

delete_message-ran :
    (m : Message) (actor : ℕ) (w : World)
    → is_id m.sender actor ≡ true
    → is_deleted m ≡ false
    → delete_message m actor w ≡ atomic (allocate_seq m.conversation >>= delete_body m) w
unfolding delete_message
delete_message-ran m actor w mine live = ground arith

delete_message-not_mine :
    (m : Message) (actor : ℕ) (w : World)
    → is_id m.sender actor ≡ false
    → delete_message m actor w ≡ (err not_author, w)
unfolding delete_message
delete_message-not_mine m actor w other = ground arith

-- A deletion that returns, of an object that was live, has written the row over.
deleted_rows :
    (m : Message) (actor : ℕ) (w v : World) (d : Message)
    → delete_message m actor w ≡ (ok d, v)
    → is_deleted m ≡ false
    → (rev : ℕ) × (v.messages
        ≡ update_where (λ (x : Message). x.id == m.id) (tombstone_row w.clock rev) w.messages)
deleted_rows m actor w v d h live = elim (Bool-cases (is_id m.sender actor)) [
  | inr other ↦ let refused = delete_message-not_mine m actor w other in absurd (ground arith)
  | inl mine ↦ elim (Option-cases (get_conversation m.conversation w)) [
    | inl missing ↦
        let gone =
          delete_message-ran m actor w mine live
          ∙ atomic-allocate_missing m.conversation (delete_body m) w missing in
        absurd (ground arith)
    | inr (c, found) ↦
        let seq = c.last_seq + 1 in
        let locked = with_last_seq seq w.clock c in
        let u = store_last_seq m.conversation seq w in
        let ran : delete_message m actor w ≡ delete_body m (locked, seq) u =
          delete_message-ran m actor w mine live ∙ delete_transaction m w c found in
        let world : v ≡ (delete_body m (locked, seq) u).1 = ap world_after (sym h ∙ ran) in
        let rows = delete_body-SameRows m locked seq u in
        (
          seq,
          ap (λ (z : World). z.messages) world
              ∙ (unfold store_message store_last_seq in rows.same_messages),
        )
  ]
]

-- After a deletion that returns, of an object that was live, the row has no words and no
-- attachments, and is marked deleted.
pub delete_message_blanks :
    (m : Message) (actor : ℕ) (w v : World) (d x : Message)
    → delete_message m actor w ≡ (ok d, v)
    → is_deleted m ≡ false
    → In x v.messages
    → x.id ≡ m.id
    → (x.body ≡ []) × (x.attachments ≡ []) × (x.deleted_at ≡ some w.clock)
delete_message_blanks m actor w v d x h live i e =
    let (rev, rows) = deleted_rows m actor w v d h live in
    let j = subst (λ ms. In x ms) rows i in
    let (y, at, same, eq) =
      over_written m.id (tombstone_row w.clock rev) w.messages x (λ z. refl) j e in
    (
      ap (λ (z : Message). z.body) eq,
      ap (λ (z : Message). z.attachments) eq,
      ap (λ (z : Message). z.deleted_at) eq,
    )
