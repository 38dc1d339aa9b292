-- ===== src/Blocks/Admission.antt =====
-- A message that reached a direct thread, and the blocks around it.
use stapel_chat.Base.{
  ==_ne, Bool-cases, In, In-filter, List, Option, Text, [], arith, false, filter, inl, inr, not,
  refl, some, true, ℕ, ◌==◌, ◌∷◌, ◌≡◌, ◌≢◌,
}
use stapel_chat.Blocks.{any_hit, blocked_pairs, is_hit}
use stapel_chat.Journal.Standing.{refuse_if_blocked-same}
use stapel_chat.Model.{Conversation, Message, MessageKind, is_direct}
use stapel_chat.Sending.{participant_ids}
use stapel_chat.Sending.Post.{
  pairs_with, post_message, refuse_if_blocked, refuse_pairs, refuse_some, send_pairs,
}
use stapel_chat.Settings.{Host}
use stapel_chat.Subjects.{answered}
use stapel_chat.Values.{Json}
use stapel_chat.World.{Result, World, err, ok}

refuse_pairs-passed :
    (host : Host) (pairs : List (ℕ × ℕ)) (w : World)
    → (refuse_pairs host pairs w).0 ≡ ok tt
    → (hits : List (ℕ × ℕ)) × (blocked_pairs host pairs ≡ ok hits) × (any_hit hits pairs ≡ false)
unfolding refuse_pairs
refuse_pairs-passed host pairs w h = go (blocked_pairs host pairs) refl
  where
    go :
        (r : Result (List (ℕ × ℕ)))
        → blocked_pairs host pairs ≡ r
        → (hits : List (ℕ × ℕ)) × (blocked_pairs host pairs ≡ ok hits)
          × (any_hit hits pairs ≡ false)
    go (ok hits) e = elim (Bool-cases (any_hit hits pairs)) [
      | inl t ↦ absurd (ground arith)
      | inr t ↦ (hits, e, t)
    ]
    go (err x) e = absurd (ground arith)

not_hit :
    (hits : List (ℕ × ℕ)) (s u : ℕ) (others : List ℕ)
    → In u others
    → any_hit hits (pairs_with s others) ≡ false
    → is_hit hits s u ≡ false
unfolding any_hit
not_hit hits s u [] i h = absurd i.1
not_hit hits s u (x ∷ others) (inl e) h = rw e (ground arith)
not_hit hits s u (x ∷ others) (inr i) h = not_hit hits s u others i (ground arith)

refuse_some-passed :
    (host : Host) (s u : ℕ) (others : List ℕ) (w : World)
    → In u others
    → (refuse_some host (pairs_with s others) w).0 ≡ ok tt
    → (hits : List (ℕ × ℕ)) × (blocked_pairs host (pairs_with s others) ≡ ok hits)
      × (is_hit hits s u ≡ false)
refuse_some-passed host s u [] w i h = absurd i.1
refuse_some-passed host s u (x ∷ others) w i h =
    let (hits, answered, clear) = refuse_pairs-passed host (pairs_with s (x ∷ others)) w h in
    (hits, answered, not_hit hits s u (x ∷ others) i clear)

passed_check :
    (host : Host) (between : ℕ → World → World) (conv : Conversation) (sender : Option ℕ)
    (body : Text) (attachments : List Json) (reply_to : Option Message) (kind : MessageKind)
    (client : Text) (w v : World) (m : Message)
    → post_message host between conv sender body attachments reply_to kind client w ≡ (ok m, v)
    → (refuse_if_blocked host conv sender w).0 ≡ ok tt
unfolding post_message
passed_check host between conv sender body attachments reply_to kind client w v m h =
    ground (arith, refuse_if_blocked-same host conv sender w w refl)

-- A person's message that a direct thread has taken stands behind no block: the block store, or the
-- mode that does without it, has answered for the sender with each of the others in the thread, and
-- its answer names no pair of the sender and any of them, in either direction.
pub post_message_unblocked :
    (host : Host) (between : ℕ → World → World) (conv : Conversation) (s u : ℕ) (body : Text)
    (attachments : List Json) (reply_to : Option Message) (kind : MessageKind) (client : Text)
    (w v : World) (m : Message)
    → is_direct conv.kind ≡ true
    → In u (participant_ids w conv.id)
    → u ≢ s
    → post_message host between conv (some s) body attachments reply_to kind client w ≡ (ok m, v)
    → (hits : List (ℕ × ℕ)) × (blocked_pairs host (send_pairs w conv.id s) ≡ ok hits)
      × (is_hit hits s u ≡ false)
unfolding send_pairs
post_message_unblocked host between conv s u body attachments reply_to kind client w v m kept i
      apart h =
    let passed =
      passed_check host between conv (some s) body attachments reply_to kind client w v m h in
    let asked : (refuse_some host (send_pairs w conv.id s) w).0 ≡ ok tt =
      unfold refuse_if_blocked in ground arith in
    refuse_some-passed host s u (filter (λ (k : ℕ). not (k == s)) (participant_ids w conv.id)) w
      (In-filter (λ (k : ℕ). not (k == s)) (participant_ids w conv.id) u i
        (rw (==_ne u s apart) refl))
      asked
