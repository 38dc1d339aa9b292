-- ===== src/Merging/Ownership.antt =====
-- What no step of a merge gives back to the absorbed account, once it owns nothing.
use stapel_chat.Base.{
  Bool, Bool-cases, List, Option-cases, Text, [], any, arith, false, filter, find?, if◌then◌else◌,
  inl, inr, is_id, is_some, not, refl, text_eq, true, update_where, ℕ, ◌&&◌, ◌+◌, ◌==◌, ◌∙◌, ◌∷◌,
  ◌≡◌,
}
use stapel_chat.Merging.{
  delete_conversation_row, find_member, fold_conversation, fold_messages, fold_participants,
  folded_message, loser_rows, release_claims, remove_conversation, requalify_all,
  requalify_direct_key, requalify_ids, requalify_pair, sorted_ids, taken_keys, with_key,
}
use stapel_chat.Model.{Conversation, Message, Participant, direct_key_of, is_direct}
use stapel_chat.Sending.{
  message_refs, participant_ids, schedule_ref_sync, store_last_seq, with_last_seq,
}
use stapel_chat.Settings.{Host}
use stapel_chat.World.{World}

pub any-filter {ℓ} :
    {A : Type ℓ} (p q : A → Bool) (xs : List A) → any p xs ≡ false → any p (filter q xs) ≡ false
any-filter p q [] h = refl
any-filter p q (x ∷ xs) h = ground (arith, any-filter p q xs)

pub any-update_where {ℓ} :
    {A : Type ℓ} (p q : A → Bool) (f : A → A) (xs : List A)
    → ((x : A) → p (f x) ≡ p x)
    → any p (update_where q f xs) ≡ any p xs
any-update_where p q f [] same = refl
any-update_where p q f (x ∷ xs) same = ground (arith, same x, any-update_where p q f xs same)

-- No row names the account.
pub record OwnsNothing (user : ℕ) (w : World) : Type 0 where
  pub no_seat : any (λ (p : Participant). p.user == user) w.participants ≡ false
  pub no_message : any (λ (m : Message). is_id m.sender user) w.messages ≡ false
  pub no_desk : any (λ (c : Conversation). is_id c.assigned_operator user) w.conversations ≡ false

module _ (user : ℕ) where
  schedule_ref_sync-OwnsNothing :
      (k : ℕ) (old new : List Text) (w : World)
      → OwnsNothing user w
      → OwnsNothing user (schedule_ref_sync k old new w)
  unfolding schedule_ref_sync
  schedule_ref_sync-OwnsNothing k old new w h = record {
    no_seat = ground (arith, h.no_seat);
    no_message = ground (arith, h.no_message);
    no_desk = ground (arith, h.no_desk);
  }

  release_claims-OwnsNothing :
      (ms : List Message) (w : World) → OwnsNothing user w → OwnsNothing user (release_claims ms w)
  unfolding release_claims
  release_claims-OwnsNothing [] w h = h
  release_claims-OwnsNothing (m ∷ ms) w h =
      release_claims-OwnsNothing ms _
        (schedule_ref_sync-OwnsNothing m.id (message_refs m.attachments) [] w h)

  remove_conversation-OwnsNothing :
      (cid : ℕ) (w : World) → OwnsNothing user w → OwnsNothing user (remove_conversation cid w)
  unfolding remove_conversation
  remove_conversation-OwnsNothing cid w h = record {
    no_seat = any-filter _ _ w.participants h.no_seat;
    no_message = any-filter _ _ w.messages h.no_message;
    no_desk = any-filter _ _ w.conversations h.no_desk;
  }

  delete_conversation_row-OwnsNothing :
      (cid : ℕ) (w : World) → OwnsNothing user w → OwnsNothing user (delete_conversation_row cid w)
  unfolding delete_conversation_row
  delete_conversation_row-OwnsNothing cid w h =
      release_claims-OwnsNothing (filter (λ (m : Message). m.conversation == cid) w.messages) _
        (remove_conversation-OwnsNothing cid w h)

  fold_messages_senders :
      (winner : ℕ) (taken : List Text) (seq : ℕ) (rows ms : List Message)
      → any (λ (m : Message). is_id m.sender user) (fold_messages winner taken seq rows ms).0
        ≡ any (λ (m : Message). is_id m.sender user) ms
  unfolding fold_messages
  fold_messages_senders winner taken seq [] ms = refl
  fold_messages_senders winner taken seq (m ∷ rows) ms =
      fold_messages_senders winner taken (seq + 1) rows _
      ∙ any-update_where _ _ (folded_message winner (seq + 1) taken) ms (λ x. refl)

  fold_participants_users :
      (winner now : ℕ) (rows ps : List Participant)
      → any (λ (p : Participant). p.user == user) (fold_participants winner now rows ps)
        ≡ any (λ (p : Participant). p.user == user) ps
  unfolding fold_participants
  fold_participants_users winner now [] ps = refl
  fold_participants_users winner now (p ∷ rows) ps =
      fold_participants_users winner now rows _
      ∙ elim (Bool-cases (is_some (find_member winner p.user ps))) [
        | inl t ↦ rw t refl
        | inr t ↦ rw t (
            any-update_where _ _
              (λ (x : Participant). record x { conversation = winner; updated_at = now }) ps
              (λ x. refl))
      ]

  -- The mark of the winner, stored where it has moved.
  marked-OwnsNothing :
      (still : Bool) (cid seq : ℕ) (w : World)
      → OwnsNothing user w
      → OwnsNothing user (if still then w else store_last_seq cid seq w)
  unfolding store_last_seq
  marked-OwnsNothing true cid seq w h = h
  marked-OwnsNothing false cid seq w h = record {
    no_seat = h.no_seat;
    no_message = h.no_message;
    no_desk =
        any-update_where _ _ (with_last_seq seq w.clock) w.conversations (λ x. refl) ∙ h.no_desk;
  }

  renumbered-OwnsNothing :
      (winner : ℕ) (taken : List Text) (seq : ℕ) (rows : List Message) (w : World)
      → OwnsNothing user w
      → OwnsNothing user
          (record w { messages = (fold_messages winner taken seq rows w.messages).0 })
  renumbered-OwnsNothing winner taken seq rows w h = record {
    no_seat = h.no_seat;
    no_message = fold_messages_senders winner taken seq rows w.messages ∙ h.no_message;
    no_desk = h.no_desk;
  }

  fold_conversation-OwnsNothing :
      (loser : ℕ) (winner : Conversation) (w : World)
      → OwnsNothing user w
      → OwnsNothing user (fold_conversation loser winner w)
  unfolding fold_conversation
  fold_conversation-OwnsNothing loser winner w h =
      let taken = taken_keys winner.id w in
      let rows = loser_rows loser w in
      let moved = fold_messages winner.id taken winner.last_seq rows w.messages in
      let marked =
        marked-OwnsNothing (moved.1 == winner.last_seq) winner.id moved.1 _
          (renumbered-OwnsNothing winner.id taken winner.last_seq rows w h) in
      remove_conversation-OwnsNothing loser _ (record {
        no_seat =
            fold_participants_users winner.id w.clock
              (filter (λ (p : Participant). p.conversation == loser) w.participants) w.participants
            ∙ h.no_seat;
        no_message = marked.no_message;
        no_desk = marked.no_desk;
      })

  requalify_pair-OwnsNothing :
      (host : Host) (conv : Conversation) (a b : ℕ) (w : World)
      → OwnsNothing user w
      → OwnsNothing user (requalify_pair host conv a b w)
  unfolding requalify_pair
  requalify_pair-OwnsNothing host conv a b w h =
      let key = direct_key_of host.spell conv.scope_key a b conv.subject_type conv.subject_key in
      let rival : Conversation → Bool =
        λ c. is_direct c.kind && (text_eq c.direct_key key && not (c.id == conv.id)) in
      elim (Bool-cases (text_eq key conv.direct_key)) [
        | inl same ↦ rw same h
        | inr other ↦ elim (Option-cases (find? rival w.conversations)) [
          | inr (winner, e) ↦ rw (other, e) (fold_conversation-OwnsNothing conv.id winner w h)
          | inl free ↦
              rw (other, free)
                (record {
                  no_seat = h.no_seat;
                  no_message = h.no_message;
                  no_desk =
                      any-update_where _ _ (with_key key w.clock) w.conversations (λ x. refl)
                      ∙ h.no_desk;
                })
        ]
      ]

  requalify_ids-OwnsNothing :
      (host : Host) (conv : Conversation) (ids : List ℕ) (w : World)
      → OwnsNothing user w
      → OwnsNothing user (requalify_ids host conv ids w)
  requalify_ids-OwnsNothing host conv [] w h = delete_conversation_row-OwnsNothing conv.id w h
  requalify_ids-OwnsNothing host conv (a ∷ []) w h = delete_conversation_row-OwnsNothing conv.id w h
  requalify_ids-OwnsNothing host conv (a ∷ b ∷ more) w h =
      requalify_pair-OwnsNothing host conv a b w h

  pub requalify_all-OwnsNothing :
      (host : Host) (cs : List Conversation) (w : World)
      → OwnsNothing user w
      → OwnsNothing user (requalify_all host cs w)
  unfolding requalify_all requalify_direct_key
  requalify_all-OwnsNothing host [] w h = h
  requalify_all-OwnsNothing host (c ∷ cs) w h =
      requalify_all-OwnsNothing host cs _
        (requalify_ids-OwnsNothing host c (sorted_ids (participant_ids w c.id)) w h)
