-- ===== src/Blocks.antt =====
-- blocks.py: which pairs of users a block separates, and when nobody can say.
pub mod Admission
pub mod Outage
use stapel_chat.Base.{
  Bool, List, Option, [], codes, false, filter, if◌then◌else◌, is_empty, none, not, some, strip,
  text_eq, ℕ, ◌&&◌, ◌==◌, ◌||◌, ◌∷◌,
}
use stapel_chat.Settings.{Host}
use stapel_chat.World.{Result, block_check_unavailable, err, ok}

pub data Enforcement : Type 0 where
  auto required off : Enforcement

-- `enforcement_mode`: `strip().lower()`, and an unknown value reads as `auto`
unfoldable pub enforcement_mode : Host → Enforcement
unfolding text_eq strip
enforcement_mode host =
    let mode = host.lower (strip host.block_enforcement) in
    if text_eq mode (codes "off")
    then off
    else if text_eq mode (codes "required")
    then required
    else auto

-- `provider_unreachable_reason` is not blank
unfoldable pub provider_unreachable : Host → Bool
unfolding strip
provider_unreachable host =
    let name = strip host.block_function in is_empty name || not (host.is_reachable name)

-- `[[a, b] for a, b in pairs if a != b]`; the text of a key is never blank
abbrev pub distinct_pairs : List (ℕ × ℕ) → List (ℕ × ℕ)
distinct_pairs = filter (λ (p : ℕ × ℕ). not (p.0 == p.1))

abbrev answer_or_outage : Option (List (ℕ × ℕ)) → Result (List (ℕ × ℕ))
answer_or_outage none = err block_check_unavailable
answer_or_outage (some hits) = ok hits

abbrev pub ask_provider : Host → Enforcement → List (ℕ × ℕ) → Result (List (ℕ × ℕ))
ask_provider host off wanted = ok []
ask_provider host mode [] = ok []
ask_provider host auto wanted =
    if provider_unreachable host then ok [] else answer_or_outage (host.ask_blocked wanted)
ask_provider host required wanted =
    if provider_unreachable host
    then err block_check_unavailable
    else answer_or_outage (host.ask_blocked wanted)

unfoldable pub blocked_pairs : Host → List (ℕ × ℕ) → Result (List (ℕ × ℕ))
unfolding enforcement_mode provider_unreachable
blocked_pairs host pairs = ask_provider host (enforcement_mode host) (distinct_pairs pairs)

-- `frozenset((a, b)) in hits`
unfoldable pub is_hit : List (ℕ × ℕ) → ℕ → ℕ → Bool
is_hit [] a b = false
is_hit ((x, y) ∷ hits) a b = (x == a && y == b) || (x == b && y == a) || is_hit hits a b

-- `any(frozenset(pair) in hits for pair in pairs)`
unfoldable pub any_hit : List (ℕ × ℕ) → List (ℕ × ℕ) → Bool
unfolding is_hit
any_hit hits [] = false
any_hit hits ((a, b) ∷ pairs) = is_hit hits a b || any_hit hits pairs
