-- ===== src/Journal/Standing.antt =====
-- A send leaves the membership of its thread as it was, and so the check on blocks.
use stapel_chat.Base.{
  Bool-cases, List, Option, Text, [], arith, filter, inl, inr, is_some, map, none, refl, some,
  update_where, ℕ, ◌&&◌, ◌==◌, ◌∷◌, ◌≡◌,
}
use stapel_chat.Model.{Conversation, Message, Participant, is_direct}
use stapel_chat.Sending.{
  Draft, announce_post, message_refs, participant_ids, resurface_participants, schedule_fanout,
  schedule_ref_sync,
}
use stapel_chat.Sending.Post.{refuse_if_blocked, refuse_pairs, refuse_some, send_pairs}
use stapel_chat.Settings.{Host}
use stapel_chat.World.{World}

-- Resurfacing changes nobody's membership.
users_kept :
    (cid k : ℕ) (ps : List Participant)
    → map
        (λ p. p.user)
        (filter
          (λ (p : Participant). p.conversation == cid)
          (update_where
            (λ (p : Participant). p.conversation == k && is_some p.left_at)
            (λ p. record p { left_at = none })
            ps))
      ≡ map (λ p. p.user) (filter (λ (p : Participant). p.conversation == cid) ps)
users_kept cid k [] = refl
users_kept cid k (p ∷ ps) = ground (arith, users_kept cid k ps)

resurface_users :
    (cid k : ℕ) (sender : Option ℕ) (w : World)
    → participant_ids (resurface_participants k sender w) cid ≡ participant_ids w cid
unfolding resurface_participants participant_ids
resurface_users cid k none w = refl
resurface_users cid k (some s) w = users_kept cid k w.participants

-- The callbacks write no participant.
pub schedule_ref_sync_participants :
    (k : ℕ) (old new : List Text) (w : World)
    → (schedule_ref_sync k old new w).participants ≡ w.participants
unfolding schedule_ref_sync
schedule_ref_sync_participants k old new w = ground arith

pub announce_post_users :
    (d : Draft) (conv : Conversation) (m : Message) (w : World) (cid : ℕ)
    → participant_ids (announce_post d conv m w) cid ≡ participant_ids w cid
unfolding announce_post schedule_fanout participant_ids
announce_post_users d conv m w cid =
    rw (schedule_ref_sync_participants m.id [] (message_refs d.attachments) _)
      (unfold participant_ids in resurface_users cid conv.id d.sender w)

-- The check on blocks reads the state through the members alone, and writes nothing.
refuse_pairs-same :
    (host : Host) (pairs : List (ℕ × ℕ)) (w v : World)
    → refuse_pairs host pairs v ≡ ((refuse_pairs host pairs w).0, v)
unfolding refuse_pairs
refuse_pairs-same host pairs w v = ground arith

refuse_some-same :
    (host : Host) (pairs : List (ℕ × ℕ)) (w v : World)
    → refuse_some host pairs v ≡ ((refuse_some host pairs w).0, v)
refuse_some-same host [] w v = refl
refuse_some-same host (p ∷ pairs) w v = refuse_pairs-same host (p ∷ pairs) w v

pub refuse_if_blocked-same :
    (host : Host) (conv : Conversation) (sender : Option ℕ) (w v : World)
    → participant_ids v conv.id ≡ participant_ids w conv.id
    → refuse_if_blocked host conv sender v ≡ ((refuse_if_blocked host conv sender w).0, v)
unfolding refuse_if_blocked send_pairs
refuse_if_blocked-same host conv none w v same = refl
refuse_if_blocked-same host conv (some s) w v same = elim (Bool-cases (is_direct conv.kind)) [
  | inl d ↦ rw (d, same) (refuse_some-same host _ w v)
  | inr d ↦ rw d
]
