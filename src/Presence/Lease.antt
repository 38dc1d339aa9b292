-- ===== src/Presence/Lease.antt =====
-- The lease of a live socket: what the write throttle, the closings and the boot check do to it.
use stapel_chat.Base.{
  Bool, Bool-cases, List, [], arith, false, find?, find?-test, if◌then◌else◌, inl, inr, ltb, ltb→lt,
  refl, some, subst, true, update_where, ℕ, ◌+◌, ◌<◌, ◌==◌, ◌∙◌, ◌∷◌, ◌≡◌,
}
use stapel_chat.Checks.{
  at_least, check_presence_windows, floor_issues, throttle_issues, window_issues,
}
use stapel_chat.Model.{UserPresence}
use stapel_chat.Presence.{is_online, is_row_of, is_stale, is_touched, lease, presence_of, touch}
use stapel_chat.Presence.Transitions.{online_in}
use stapel_chat.Settings.{Host}
use stapel_chat.World.{World}

-- A row whose lease was renewed when its mark was written.
abbrev pub IsRenewed : Host → ℕ → UserPresence → Type 0
IsRenewed host seen row =
    (row.last_seen_at ≡ some seen) × (row.online_until ≡ some (seen + lease host))

abbrev renewed : Host → World → UserPresence → UserPresence
renewed host w row = record row {
  last_seen_at = some w.clock;
  online_until = some (w.clock + lease host);
}

-- The first row that a query finds, after an update that moves no row into it or out of it.
find_update {ℓ} :
    {A : Type ℓ} (p q : A → Bool) (f : A → A) (rows : List A) (row : A)
    → ((r : A) → p (f r) ≡ p r)
    → find? p rows ≡ some row
    → find? p (update_where q f rows) ≡ some (if q row then f row else row)
find_update p q f [] row keeps e = absurd (ground arith)
find_update p q f (r ∷ rows) row keeps e = elim (Bool-cases (p r)) [
  | inl t ↦
      let same : r ≡ row = ground arith in
      let kept : p (f r) ≡ true = keeps r ∙ t in
      subst (λ x. find? p (update_where q f (r ∷ rows)) ≡ some (if q x then f x else x)) same
        (elim (Bool-cases (q r)) [ inl s ↦ rw s (rw kept refl) | inr s ↦ rw s (rw t refl) ])
  | inr t ↦
      let kept : p (f r) ≡ false = keeps r ∙ t in
      let rest = find_update p q f rows row keeps (ground arith) in
      elim (Bool-cases (q r)) [ inl s ↦ rw s (rw kept rest) | inr s ↦ rw s (rw t rest) ]
]

touched_row :
    (host : Host) (user : ℕ) (w : World) (row : UserPresence)
    → presence_of user w ≡ some row
    → presence_of user (touch host user w).1
      ≡ some (if is_touched host w.clock user row then renewed host w row else row)
unfolding presence_of touch
touched_row host user w row e =
    find_update (is_row_of user) (is_touched host w.clock user) (renewed host w) w.presences row
      (λ r. refl) e

touch_clock : (host : Host) (user : ℕ) (w : World) → (touch host user w).1.clock ≡ w.clock
unfolding touch
touch_clock host user w = refl

windows_fit : (host : Host) → window_issues host ≡ [] → host.presence_throttle < host.presence_ttl
unfolding check_presence_windows floor_issues throttle_issues at_least
windows_fit host passed = elim (Bool-cases (ltb host.presence_throttle host.presence_ttl)) [
  | inl t ↦ ltb→lt host.presence_throttle host.presence_ttl t
  | inr t ↦ absurd (ground arith)
]

-- Where the check at boot finds nothing to say against the windows of presence, a touch on a live
-- socket whose lease was renewed when the user was last seen leaves the user online, however long
-- ago that was and whether the throttle lets it write.
pub touch_keeps_online :
    (host : Host) (user seen : ℕ) (w : World) (row : UserPresence)
    → window_issues host ≡ []
    → presence_of user w ≡ some row
    → IsRenewed host seen row
    → 0 < row.connections
    → online_in (touch host user w).1 user ≡ true
touch_keeps_online host user seen w row passed e fresh live =
    let fits = windows_fit host passed in
    let own : (row.user == user) ≡ true =
      unfold presence_of in find?-test (is_row_of user) w.presences row e in
    rw (touched_row host user w row e, touch_clock host user w)
      (unfold is_online in
        elim (Bool-cases (is_stale host w.clock row)) [
          | inl t ↦ rw (own, t) (ground arith)
          | inr t ↦ rw (own, t) (ground arith)
        ])
