-- ===== src/Journal/Desk.antt =====
-- Claiming, resolving and reopening a support thread, as runs of the journal.
use stapel_chat.Base.{
  Bool, Bool-cases, List, Option-cases, Text, [], any, arith, codes, false, inl, inr, is_id, none,
  not, refl, subst, sym, true, update_where, ℕ, ◌==◌, ◌∙◌, ◌∷◌, ◌≡◌,
}
use stapel_chat.Journal.{last_seq_of}
use stapel_chat.Journal.Creating.{Journals-Quiet, Quiet, Quiet-refl}
use stapel_chat.Journal.Lifecycle.{system_line-Journals}
use stapel_chat.Journal.Rules.{
  Journals, Journals-atomic, Journals-bind, Journals-gotten, Journals-pure, Journals-raise_if,
}
use stapel_chat.Membership.{is_member}
use stapel_chat.Model.{
  Conversation, SupportStatus, is_support, status_open, status_resolved, system_kind,
}
use stapel_chat.Sending.{get_conversation}
use stapel_chat.Sending.Post.{post_message, undisturbed}
use stapel_chat.Settings.{Host}
use stapel_chat.Support.{
  announce_assignment, assign_locked, assign_operator, post_marker, reopen_support, resolve_support,
  seat_and_emit, seat_operator, set_support_status, store_operator, store_status, with_operator,
  with_status,
}
use stapel_chat.Support.Assignment.{assign_locked-cases}
use stapel_chat.World.{
  Exec, Result, World, atomic, gets, modify, not_support, pure, raise_if, ◌>>=◌, ◌>>◌,
}

-- A change of a conversation that keeps its id and its sequence.
last_seq_of-update :
    (test : Conversation → Bool) (change : Conversation → Conversation)
    → ((c : Conversation) → ((change c).id ≡ c.id) × ((change c).last_seq ≡ c.last_seq))
    → (cs : List Conversation) (cid : ℕ)
    → last_seq_of (update_where test change cs) cid ≡ last_seq_of cs cid
unfolding last_seq_of
last_seq_of-update test change keeps [] cid = refl
last_seq_of-update test change keeps (c ∷ cs) cid = elim (Bool-cases (test c)) [
  | inl t ↦ rw (t, (keeps c).0, (keeps c).1, last_seq_of-update test change keeps cs cid) refl
  | inr t ↦ rw (t, last_seq_of-update test change keeps cs cid) refl
]

pub store_status-Quiet :
    (cid : ℕ) (status : SupportStatus) (w : World) → Quiet w (store_status cid status w)
unfolding store_status
store_status-Quiet cid status w = record {
  quiet_messages = refl;
  quiet_grows = record {
    next_grows = omega arith;
    last_grows = λ k. omega (
      arith,
      last_seq_of-update (λ (c : Conversation). c.id == cid) (with_status status w.clock)
          (λ c. (refl, refl)) w.conversations k,
    );
  };
}

post_marker-Journals :
    (host : Host) (c : Conversation) (marker : Text) → Journals (post_marker host c marker)
post_marker-Journals host c [] = Journals-pure tt
post_marker-Journals host c (k ∷ marker) =
    Journals-bind (post_message host undisturbed c none (k ∷ marker) [] none system_kind [])
      (λ m. pure tt) (system_line-Journals host c (k ∷ marker)) (λ m. Journals-pure tt)

set_support_status-Journals :
    (host : Host) (c : Conversation) (status : SupportStatus) (marker : Text)
    → Journals (set_support_status host c status marker)
unfolding set_support_status
set_support_status-Journals host c status marker =
    let stored = modify (store_status c.id status) in
    let marked : ℕ → Exec Conversation = λ now.
      post_marker host (with_status status now c) marker >> pure (with_status status now c) in
    Journals-bind (raise_if (not (is_support c.kind)) not_support)
      (λ u. gets (λ w. w.clock) >>= (λ now. stored >> marked now))
      (Journals-raise_if (not (is_support c.kind)) not_support)
      (λ u.
        Journals-gotten (λ w. w.clock) (λ now. stored >> marked now)
          (λ now.
            Journals-bind stored (λ v. marked now)
              (Journals-Quiet stored (store_status-Quiet c.id status))
              (λ v.
                Journals-bind (post_marker host (with_status status now c) marker)
                  (λ x. pure (with_status status now c))
                  (post_marker-Journals host (with_status status now c) marker)
                  (λ x. Journals-pure (with_status status now c)))))

pub resolve_support-Journals : (host : Host) (c : Conversation) → Journals (resolve_support host c)
unfolding resolve_support
resolve_support-Journals host c = set_support_status-Journals host c status_resolved _

pub reopen_support-Journals : (host : Host) (c : Conversation) → Journals (reopen_support host c)
unfolding reopen_support
reopen_support-Journals host c = set_support_status-Journals host c status_open _

seat_operator-Quiet : (cid user : ℕ) (w : World) → Quiet w (seat_operator cid user w)
unfolding seat_operator
seat_operator-Quiet cid user w = elim (Bool-cases (any (is_member cid user) w.participants)) [
  | inl t ↦ rw t (record {
    quiet_messages = refl;
    quiet_grows = record { next_grows = omega arith; last_grows = λ k. omega arith };
  })
  | inr t ↦ rw t (record {
    quiet_messages = refl;
    quiet_grows = record { next_grows = omega arith; last_grows = λ k. omega arith };
  })
]

store_operator-Quiet : (cid user : ℕ) (w : World) → Quiet w (store_operator cid user w)
unfolding store_operator
store_operator-Quiet cid user w = record {
  quiet_messages = refl;
  quiet_grows = record {
    next_grows = omega arith;
    last_grows = λ k. omega (
      arith,
      last_seq_of-update (λ (c : Conversation). c.id == cid) (with_operator user w.clock)
          (λ c. (refl, refl)) w.conversations k,
    );
  };
}

Quiet-trans : {u v w : World} → Quiet u v → Quiet v w → Quiet u w
Quiet-trans a b = record {
  quiet_messages = b.quiet_messages ∙ a.quiet_messages;
  quiet_grows = record {
    next_grows = omega (arith, a.quiet_grows.next_grows, b.quiet_grows.next_grows);
    last_grows = λ k. omega (arith, a.quiet_grows.last_grows k, b.quiet_grows.last_grows k);
  };
}

pub seat_and_emit-Quiet :
    (c : Conversation) (user : ℕ) (w : World) → Quiet w (seat_and_emit c user w)
unfolding seat_and_emit
seat_and_emit-Quiet c user w =
    let stored = store_operator c.id user w in
    let seated =
      Quiet-trans (store_operator-Quiet c.id user w) (seat_operator-Quiet c.id user stored) in
    elim (Bool-cases (is_id c.assigned_operator user)) [
      | inl t ↦ rw t seated
      | inr t ↦ rw t (record {
        quiet_messages = seated.quiet_messages;
        quiet_grows = record {
          next_grows = seated.quiet_grows.next_grows;
          last_grows = seated.quiet_grows.last_grows;
        };
      })
    ]

assign_locked-Quiet : (cid user : ℕ) (w : World) → Quiet w (assign_locked cid user w).1
unfolding assign_locked get_conversation
assign_locked-Quiet cid user w = elim (Option-cases (get_conversation cid w)) [
  | inl t ↦ rw (t, assign_locked) (Quiet-refl w)
  | inr (c, t) ↦ elim (assign_locked-cases cid user w c t) [
    | inl (x, e) ↦
        subst (λ (o : Result (Conversation × Bool) × World). Quiet w o.1) (sym e) (Quiet-refl w)
    | inr (x, e) ↦
        subst (λ (o : Result (Conversation × Bool) × World). Quiet w o.1) (sym e)
          (seat_and_emit-Quiet c user w)
  ]
]

announce_assignment-Journals :
    (host : Host) (seated : Conversation × Bool) → Journals (announce_assignment host seated)
unfolding announce_assignment
announce_assignment-Journals host (c, true) = Journals-pure c
announce_assignment-Journals host (c, false) =
    Journals-bind
      (post_message host undisturbed c none (codes "chat.support.assigned") [] none system_kind [])
      (λ m. pure c) (system_line-Journals host c (codes "chat.support.assigned"))
      (λ m. Journals-pure c)

pub assign_operator-Journals :
    (host : Host) (c : Conversation) (user : ℕ) → Journals (assign_operator host c user)
unfolding assign_operator
assign_operator-Journals host c user =
    let locked =
      Journals-atomic (assign_locked c.id user)
        (Journals-Quiet (assign_locked c.id user) (assign_locked-Quiet c.id user)) in
    Journals-bind (raise_if (not (is_support c.kind)) not_support)
      (λ u. atomic (assign_locked c.id user) >>= announce_assignment host)
      (Journals-raise_if (not (is_support c.kind)) not_support)
      (λ u.
        Journals-bind (atomic (assign_locked c.id user)) (announce_assignment host) locked
          (announce_assignment-Journals host))
