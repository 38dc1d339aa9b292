-- ===== src/Support/Claims.antt =====
-- The assignment and the status change return, and what they leave.
use stapel_chat.Base.{
  Bool, Bool-cases, [], ap, arith, codes, false, false≢true, find?, inl, inr, is_id, none, refl,
  some, sym, true, ℕ, ◌+◌, ◌==◌, ◌∙◌, ◌≡◌,
}
use stapel_chat.Journal.{IsJournal, done, last_seq_of, next, reserved}
use stapel_chat.Journal.Desk.{seat_and_emit-Quiet, store_status-Quiet}
use stapel_chat.Journal.Line.{line_posted}
use stapel_chat.Journal.Steps.{Run-IsJournal}
use stapel_chat.Model.{Conversation, Message, is_support, status_resolved, system_kind}
use stapel_chat.Sending.{get_conversation, store_last_seq, with_last_seq}
use stapel_chat.Sending.Post.{post_message, undisturbed}
use stapel_chat.Settings.{Host}
use stapel_chat.Support.{
  announce_assignment, assign_locked, assign_operator, resolve_support, seat_and_emit,
  set_support_status, store_status, taken_by_other, with_operator, with_status,
}
use stapel_chat.Support.Assignment.{assign_locked-cases}
use stapel_chat.Support.Holding.{IsHeldBy, claimed-IsHeldBy, get_updated, line-IsHeldBy}
use stapel_chat.World.{World, ok}

assign_operator-locked :
    (host : Host) (c : Conversation) (user : ℕ) (w v : World) (r : Conversation × Bool)
    → is_support c.kind ≡ true
    → assign_locked c.id user w ≡ (ok r, v)
    → assign_operator host c user w ≡ announce_assignment host r v
unfolding assign_operator
assign_operator-locked host c user w v r kind e = ground arith

announced :
    (host : Host) (c : Conversation) (w v : World) (m : Message)
    → post_message host undisturbed c none (codes "chat.support.assigned") [] none system_kind [] w
      ≡ (ok m, v)
    → announce_assignment host (c, false) w ≡ (ok c, v)
unfolding announce_assignment
announced host c w v m e = ground arith

-- In a well-formed journal, the assignment of a support thread that nobody else holds returns the
-- row, and the person holds the thread.
pub assign_operator-returns :
    (host : Host) (c : Conversation) (user : ℕ) (w : World)
    → IsJournal w
    → get_conversation c.id w ≡ some c
    → is_support c.kind ≡ true
    → taken_by_other c.assigned_operator user ≡ false
    → (v : World) × (assign_operator host c user w ≡ (ok (with_operator user w.clock c), v))
      × IsHeldBy c.id user c.scope_key v
assign_operator-returns host c user w j e kind free = elim (assign_locked-cases c.id user w c e) [
  | inl (taken, x) ↦ absurd (false≢true (sym free ∙ taken))
  | inr (x, seated) ↦
      let held = with_operator user w.clock c in
      let u = seat_and_emit c user w in
      let quiet = seat_and_emit-Quiet c user w in
      let claimed = claimed-IsHeldBy c user w e kind in
      let j' : IsJournal u =
        Run-IsJournal {floor = last_seq_of w.conversations}
          (next done (reserved quiet.quiet_messages quiet.quiet_grows)) j in
      let step =
        assign_operator-locked host c user w u (held, is_id c.assigned_operator user) kind seated in
      elim (Bool-cases (is_id c.assigned_operator user)) [
        | inl mine ↦ (
          u,
          step
              ∙ ap (λ b. announce_assignment host (held, b) u) mine
              ∙ (unfold announce_assignment in refl),
          claimed,
        )
        | inr other ↦
            let line =
              line_posted host held (codes "chat.support.assigned") u claimed.row j'
                claimed.found in
            (
              line.1,
              step
                  ∙ ap (λ b. announce_assignment host (held, b) u) other
                  ∙ announced host held u line.1 line.0 line.2,
              line-IsHeldBy c.id user c.scope_key u line.1 claimed line.3,
            )
      ]
]

resolved_after :
    (host : Host) (c : Conversation) (w v : World) (m : Message)
    → is_support c.kind ≡ true
    → post_message host undisturbed
        (with_status status_resolved w.clock c)
        none
        (codes "chat.support.resolved")
        []
        none
        system_kind
        []
        (store_status c.id status_resolved w)
      ≡ (ok m, v)
    → resolve_support host c w ≡ (ok (with_status status_resolved w.clock c), v)
unfolding resolve_support set_support_status
resolved_after host c w v m kind e = ground arith

-- In a well-formed journal, the resolution of a support thread returns the row, and the stored row
-- is resolved.
pub resolve_support-returns :
    (host : Host) (c : Conversation) (w : World)
    → IsJournal w
    → get_conversation c.id w ≡ some c
    → is_support c.kind ≡ true
    → (v : World) × (d : Conversation) × (resolve_support host c w
        ≡ (ok (with_status status_resolved w.clock c), v))
      × (get_conversation c.id v ≡ some d)
      × (d.support_status ≡ some status_resolved)
unfolding get_conversation store_last_seq store_status
resolve_support-returns host c w j e kind =
    let closed = with_status status_resolved w.clock c in
    let u = store_status c.id status_resolved w in
    let quiet = store_status-Quiet c.id status_resolved w in
    let j' : IsJournal u =
      Run-IsJournal {floor = last_seq_of w.conversations}
        (next done (reserved quiet.quiet_messages quiet.quiet_grows)) j in
    let stored : get_conversation c.id u ≡ some closed =
      get_updated c.id (with_status status_resolved w.clock) (λ k. refl) w.conversations c e in
    let line = line_posted host closed (codes "chat.support.resolved") u closed j' stored in
    (
      line.1,
      with_last_seq (closed.last_seq + 1) u.clock closed,
      resolved_after host c w line.1 line.0 kind line.2,
      ap (find? (λ (k : Conversation). k.id == c.id)) line.3.raised
          ∙ get_updated c.id (with_last_seq (closed.last_seq + 1) u.clock) (λ k. refl)
              u.conversations closed stored,
      refl,
    )
