-- ===== src/Merging/Forgotten.antt =====
-- gdpr.py: what an erased account leaves for its own export.
use stapel_chat.Base.{
  All, All-filter, Bool-cases, In, List, [], ap, arith, false, filter, if◌then◌else◌, inl, inr,
  is_id, length, ltb, map, not, refl, subst, sym, true, ℕ, ◌==◌, ◌∙◌, ◌∷◌, ◌≡◌,
}
use stapel_chat.Journal.Marks.{schedule_ref_sync-SameRows}
use stapel_chat.Journal.Standing.{schedule_ref_sync_participants}
use stapel_chat.Merging.{delete_conversation_row, release_claims, remove_conversation}
use stapel_chat.Merging.Erased.{
  IsSilent, Result-cases, bind_err, bind_ok, erase_user_messages-IsSilent,
}
use stapel_chat.Merging.Erasing.{Pending}
use stapel_chat.Merging.Gdpr.{
  ExportedMessage, delete_dead_threads, drop_memberships, exported_message, gdpr_delete,
  gdpr_export, revoke_all, threads_of, touched_direct,
}
use stapel_chat.Model.{Conversation, Message, Participant, is_deleted}
use stapel_chat.Sending.{message_refs, participant_ids, schedule_ref_sync}
use stapel_chat.Sending.Changes.{erase_user_messages, is_authored_live}
use stapel_chat.World.{Exec, World, modify, ok, ◌>>◌}

abbrev IsUnseated : ℕ → World → Type 0
IsUnseated user w = All (λ (p : Participant). (p.user == user) ≡ false) w.participants

release_claims-rows :
    (ms : List Message) (w : World)
    → ((release_claims ms w).messages ≡ w.messages)
      × ((release_claims ms w).participants ≡ w.participants)
unfolding release_claims
release_claims-rows [] w = (refl, refl)
release_claims-rows (m ∷ ms) w =
    let (messages, seats) =
      release_claims-rows ms (schedule_ref_sync m.id (message_refs m.attachments) [] w) in
    let kept = schedule_ref_sync-SameRows m.id (message_refs m.attachments) [] w in
    (
      messages ∙ kept.same_messages,
      seats ∙ schedule_ref_sync_participants m.id (message_refs m.attachments) [] w,
    )

delete_dead_threads-IsSilent :
    (before : List Message) (user : ℕ) (cs : List Conversation) (w : World)
    → IsSilent before user w
    → IsUnseated user w
    → IsSilent before user (delete_dead_threads cs w) × IsUnseated user (delete_dead_threads cs w)
unfolding delete_dead_threads delete_conversation_row remove_conversation
delete_dead_threads-IsSilent before user [] w silent unseated = (silent, unseated)
delete_dead_threads-IsSilent before user (c ∷ cs) w silent unseated =
    let rows = filter (λ (m : Message). m.conversation == c.id) w.messages in
    let kept = release_claims-rows rows (remove_conversation c.id w) in
    let is_dead = ltb (length (participant_ids w c.id)) 2 in
    let then_left : World = if is_dead then delete_conversation_row c.id w else w in
    let ready : IsSilent before user then_left × IsUnseated user then_left =
      elim (Bool-cases is_dead) [
        | inr t ↦ rw t (silent, unseated)
        | inl t ↦ rw t (
          rw kept.0 (All-filter _ _ w.messages silent),
          rw kept.1 (All-filter _ _ w.participants unseated),
        )
      ] in
    delete_dead_threads-IsSilent before user cs then_left ready.0 ready.1

revoke_all-rows :
    (user : ℕ) (cids : List ℕ) (w : World) → (revoke_all user cids w).messages ≡ w.messages
unfolding revoke_all
revoke_all-rows user [] w = refl
revoke_all-rows user (cid ∷ cids) w = revoke_all-rows user cids _

unseated_rows :
    (user : ℕ) (ps : List Participant)
    → All
        (λ (p : Participant). (p.user == user) ≡ false)
        (filter (λ (p : Participant). not (p.user == user)) ps)
unseated_rows user [] = tt
unseated_rows user (p ∷ ps) = elim (Bool-cases (p.user == user)) [
  | inl t ↦ rw t (unseated_rows user ps)
  | inr t ↦ rw t (t, unseated_rows user ps)
]

-- The erasure that returns leaves nothing live and no seat.
gdpr_delete-IsSilent :
    (user : ℕ) (w w' : World)
    → gdpr_delete user w ≡ (ok tt, w')
    → IsSilent w.messages user w' × IsUnseated user w'
unfolding gdpr_delete drop_memberships
gdpr_delete-IsSilent user w w' returned =
    let erased = (erase_user_messages user w).1 in
    let cleanup : ℕ → Exec Unit = λ n.
      modify (revoke_all user (threads_of user w))
      >> (modify (drop_memberships user)
          >> modify (λ v. delete_dead_threads (touched_direct user w v) v)) in
    elim (Result-cases (erase_user_messages user w).0) [
      | inr (x, t) ↦ absurd (
          ground (
            arith,
            returned,
            ap (λ v. v.0)
                (bind_err (erase_user_messages user) cleanup w erased x (ap (λ r. (r, erased)) t)),
          ))
      | inl (n, t) ↦
          let silent = erase_user_messages-IsSilent user n w t in
          let kicked = revoke_all user (threads_of user w) erased in
          let dropped = drop_memberships user kicked in
          let ended : gdpr_delete user w
              ≡ (ok tt, delete_dead_threads (touched_direct user w dropped) dropped) =
            bind_ok (erase_user_messages user) cleanup w erased n (ap (λ r. (r, erased)) t) in
          subst (λ v. IsSilent w.messages user v × IsUnseated user v)
            (ap (λ v. v.1) (sym ended ∙ returned))
            (delete_dead_threads-IsSilent w.messages user (touched_direct user w dropped) dropped
              (rw (revoke_all-rows user (threads_of user w) erased) silent)
              (unseated_rows user kicked.participants))
    ]

no_seats :
    (user : ℕ) (ps : List Participant)
    → All (λ (p : Participant). (p.user == user) ≡ false) ps
    → filter (λ (p : Participant). p.user == user) ps ≡ []
no_seats user [] h = refl
no_seats user (p ∷ ps) h = rw h.0 (no_seats user ps h.1)

-- An entry of an export that is a message which the person had deleted before.
abbrev pub IsTakenBack : ℕ → List Message → ExportedMessage → Type 0
IsTakenBack user before e =
    (m : Message) × In m before
    × (is_id m.sender user ≡ true)
    × (is_deleted m ≡ true)
    × (e ≡ exported_message m)

exported-IsTakenBack :
    (before : List Message) (user : ℕ) (ms : List Message)
    → All (Pending before user []) ms
    → All
        (IsTakenBack user before)
        (map exported_message (filter (λ (m : Message). is_id m.sender user) ms))
exported-IsTakenBack before user [] h = tt
exported-IsTakenBack before user (m ∷ ms) h = elim (Bool-cases (is_id m.sender user)) [
  | inr t ↦ rw t (exported-IsTakenBack before user ms h.1)
  | inl t ↦ elim (Bool-cases (is_deleted m)) [
    | inl gone ↦ rw t ((m, h.0.0 t, t, gone, refl), exported-IsTakenBack before user ms h.1)
    | inr live ↦
        let own : is_authored_live user m ≡ true = rw (t, live) refl in absurd (h.0.1 own).1
  ]
]

-- Once an account has been erased, its own export names no membership, and every message it still
-- lists is one that the person had written and deleted before the erasure, as it was then.
pub gdpr_delete-export :
    (user : ℕ) (w w' : World)
    → gdpr_delete user w ≡ (ok tt, w')
    → ((gdpr_export user w').participations ≡ [])
      × All (IsTakenBack user w.messages) (gdpr_export user w').messages
unfolding gdpr_export
gdpr_delete-export user w w' returned =
    let (silent, unseated) = gdpr_delete-IsSilent user w w' returned in
    (
      rw (no_seats user w'.participants unseated) refl,
      exported-IsTakenBack w.messages user w'.messages silent,
    )
