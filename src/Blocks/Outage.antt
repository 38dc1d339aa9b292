-- ===== src/Blocks/Outage.antt =====
-- What a verdict on blocks rests on.
use stapel_chat.Base.{
  Bool-cases, List, Option-cases, [], arith, false, inl, inr, refl, some, true, ℕ, ◌∷◌, ◌≡◌, ◌≢◌,
  ◌⊎◌,
}
use stapel_chat.Blocks.{
  Enforcement, ask_provider, auto, blocked_pairs, distinct_pairs, enforcement_mode, off,
  provider_unreachable, required,
}
use stapel_chat.Settings.{Host}
use stapel_chat.World.{ok}

asked :
    (host : Host) (mode : Enforcement) (wanted hits : List (ℕ × ℕ))
    → mode ≢ off
    → wanted ≢ []
    → ask_provider host mode wanted ≡ ok hits
    → ((provider_unreachable host ≡ true) × (mode ≡ auto) × (hits ≡ []))
      ⊎ ((provider_unreachable host ≡ false) × (host.ask_blocked wanted ≡ some hits))
asked host off wanted hits on some_pair h = absurd (on refl)
asked host auto [] hits on some_pair h = absurd (some_pair refl)
asked host required [] hits on some_pair h = absurd (some_pair refl)
asked host auto (p ∷ ps) hits on some_pair h = elim (Bool-cases (provider_unreachable host)) [
  | inl t ↦ inl (t, refl, ground arith)
  | inr t ↦ elim (Option-cases (host.ask_blocked (p ∷ ps))) [
    | inl out ↦ absurd (ground arith)
    | inr (found, e) ↦ inr (t, ground arith)
  ]
]
asked host required (p ∷ ps) hits on some_pair h = elim (Bool-cases (provider_unreachable host)) [
  | inl t ↦ absurd (ground arith)
  | inr t ↦ elim (Option-cases (host.ask_blocked (p ∷ ps))) [
    | inl out ↦ absurd (ground arith)
    | inr (found, e) ↦ inr (t, ground arith)
  ]
]

-- A verdict on some pair of two people, while the check is on, is what the provider answered about
-- the pairs of two people, or it is the empty verdict of the automatic mode where no provider is
-- there: a provider that fails, or that is required and not there, gives no verdict.
pub verdict_has_source :
    (host : Host) (pairs hits : List (ℕ × ℕ))
    → distinct_pairs pairs ≢ []
    → enforcement_mode host ≢ off
    → blocked_pairs host pairs ≡ ok hits
    → ((provider_unreachable host ≡ true) × (enforcement_mode host ≡ auto) × (hits ≡ []))
      ⊎ ((provider_unreachable host ≡ false)
          × (host.ask_blocked (distinct_pairs pairs) ≡ some hits))
unfolding blocked_pairs
verdict_has_source host pairs hits some_pair on h =
    asked host (enforcement_mode host) (distinct_pairs pairs) hits on some_pair h
