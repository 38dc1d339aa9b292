-- ===== src/Merging/Erasing.antt =====
-- The loop of `erase_user_messages` over the rows of one conversation.
use stapel_chat.Base.{
  ==_self, All, All-In, All-map, Bool-cases, In, In-All, In-filter, In-order_by, List, [], ap,
  arith, inl, inr, is_id, length, map, true, update_where, ℕ, ◌&&◌, ◌+◌, ◌==◌, ◌∷◌, ◌≡◌, ◌⊎◌,
}
use stapel_chat.Journal.Erasure.{announce_rows-SameRows}
use stapel_chat.Journal.Marks.{schedule_ref_sync-SameRows}
use stapel_chat.Model.{Conversation, Message}
use stapel_chat.Sending.{message_refs, participant_ids, store_last_seq, with_last_seq}
use stapel_chat.Sending.Changes.{
  authored_rows, erase_listed, erase_rows, erased_row, is_authored_live, store_message,
}
use stapel_chat.World.{World}

-- A row that still has the person for its author is as it was before the erasure.
abbrev pub IsUntouched : List Message → ℕ → Message → Type 0
IsUntouched before user m = is_id m.sender user ≡ true → In m before

-- The person's live rows, as far as they are left, are in the conversations listed.
abbrev pub Pending : List Message → ℕ → List ℕ → Message → Type 0
Pending before user cids m =
    IsUntouched before user m × (is_authored_live user m ≡ true → In m.conversation cids)

-- While one conversation is erased, its listed rows are still to come.
abbrev Awaiting : List Message → ℕ → List ℕ → List Message → Message → Type 0
Awaiting before user cids rows m =
    IsUntouched before user m
    × (is_authored_live user m ≡ true
        → In m.id (map (λ (x : Message). x.id) rows) ⊎ In m.conversation cids)

pub In-map : {A B : Type 0} (f : A → B) (xs : List A) (a : A) → In a xs → In (f a) (map f xs)
In-map f [] a h = absurd h.1
In-map f (x ∷ xs) a (inl e) = inl (ap f e)
In-map f (x ∷ xs) a (inr h) = inr (In-map f xs a h)

module _ (before : List Message) (user : ℕ) (cids : List ℕ) where
  erased_once :
      (now rev : ℕ) (head : Message) (rows ms : List Message)
      → All (Awaiting before user cids (head ∷ rows)) ms
      → All
          (Awaiting before user cids rows)
          (update_where (λ (m : Message). m.id == head.id) (erased_row now rev) ms)
  erased_once now rev head rows [] h = tt
  erased_once now rev head rows (m ∷ ms) h = elim (Bool-cases (m.id == head.id)) [
    | inl t ↦ rw t (
      ((λ own. absurd (ground arith)), (λ live. absurd (ground arith))),
      erased_once now rev head rows ms h.1,
    )
    | inr t ↦ rw t (
      (
        h.0.0,
        (λ live. elim (h.0.1 live) [
          | inl (inl same) ↦ absurd (ground arith)
          | inl (inr later) ↦ inl later
          | inr other ↦ inr other
        ]),
      ),
      erased_once now rev head rows ms h.1,
    )
  ]

  erase_rows-Pending :
      (base : ℕ) (rows : List Message) (w : World)
      → All (Awaiting before user cids rows) w.messages
      → All (Pending before user cids) (erase_rows base rows w).messages
  unfolding erase_rows store_message
  erase_rows-Pending base [] w h =
      All-map _ _ w.messages
        (λ m l. (l.0, (λ live. elim (l.1 live) [ inl i ↦ absurd i.1 | inr i ↦ i ]))) h
  erase_rows-Pending base (m ∷ rows) w h =
      let written = store_message m.id (erased_row w.clock (base + 1)) w in
      let kept = schedule_ref_sync-SameRows m.id (message_refs m.attachments) [] written in
      erase_rows-Pending (base + 1) rows _
        (rw kept.same_messages (erased_once w.clock (base + 1) m rows w.messages h))

  pub erase_listed-Pending :
      (cid : ℕ) (c : Conversation) (rows : List Message) (w : World)
      → All (Awaiting before user cids rows) w.messages
      → All (Pending before user cids) (erase_listed cid c rows w).1.messages
  unfolding store_last_seq
  erase_listed-Pending cid c [] w h = unfold erase_rows in erase_rows-Pending 0 [] w h
  erase_listed-Pending cid c (m ∷ more) w h =
      let rows = m ∷ more in
      let seq = c.last_seq + length rows in
      let told =
        announce_rows-SameRows (with_last_seq seq w.clock c) (participant_ids w cid) w.clock
          c.last_seq rows (erase_rows c.last_seq rows (store_last_seq cid seq w)) in
      rw told.same_messages (erase_rows-Pending c.last_seq rows (store_last_seq cid seq w) h)

-- The rows that one conversation's share lists are its live rows of the person.
pub listed_rows :
    (before : List Message) (user cid : ℕ) (cids : List ℕ) (w : World)
    → All (Pending before user (cid ∷ cids)) w.messages
    → All (Awaiting before user cids (authored_rows user cid w)) w.messages
unfolding authored_rows
listed_rows before user cid cids w h = In-All _ w.messages (λ m here.
    let p = All-In _ w.messages h m here in
    (
      p.0,
      (λ live. elim (p.1 live) [
        | inr other ↦ inr other
        | inl same ↦
            let own : (m.conversation == cid && is_authored_live user m) ≡ true =
              rw (same, ==_self cid) live in
            inl (
              In-map (λ (x : Message). x.id) _ m
                (In-order_by _ _ m (In-filter _ w.messages m here own)))
      ]),
    ))
