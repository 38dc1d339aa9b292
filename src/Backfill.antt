-- ===== src/Backfill.antt =====
-- cdn_refs_backfill.py, the pass that claims the media of messages which are already stored, and the
-- command of management/commands that runs it. `sync` is whether the publication of a claim
-- succeeded, by the helper of the core that sends it: the id of the message and what is claimed.
pub mod Slice
use stapel_chat.Base.{
  Bool, List, Option, Text, [], false, filter, if◌then◌else◌, leb, ltb, none, not, order_by, some,
  true, ℕ, ◌&&◌, ◌++◌, ◌+◌, ◌==◌, ◌∷◌,
}
use stapel_chat.Model.{Message, is_deleted}
use stapel_chat.Sending.{message_refs}
use stapel_chat.World.{Effect, World, sync_refs}

pub record Stats : Type 0 where
  pub candidates : ℕ
  pub published : ℕ
  pub failed : ℕ

-- The counters of a pass, and the claims it has sent so far.
abbrev pub Pass : Type 0
Pass = Stats × List Effect

abbrev pub refs_of : Message → List Text
refs_of m = message_refs m.attachments

-- The tombstones have released what they referred to, and are left alone.
abbrev pub live_rows : World → List Message
live_rows w = order_by (λ (m : Message). m.id) (filter (λ m. not (is_deleted m)) w.messages)

module _ (sync : ℕ → List Text → Bool) (dry_run : Bool) where
  -- A candidate row: `old_hashes` is empty, so that nothing is released.
  abbrev pub claim_row : Message → Pass → Pass
  claim_row m (stats, sent) =
      if dry_run then (record stats { candidates = stats.candidates + 1 }, sent) else (
        record {
          candidates = stats.candidates + 1;
          published = if sync m.id (refs_of m) then stats.published + 1 else stats.published;
          failed = if sync m.id (refs_of m) then stats.failed else stats.failed + 1;
        },
        sent ++ sync_refs m.id [] (refs_of m) ∷ [],
      )

  -- `limit is not None and stats["candidates"] >= limit`
  abbrev pub is_reached : Option ℕ → ℕ → Bool
  is_reached none n = false
  is_reached (some limit) n = leb limit n

  -- The loop over the rows
  unfoldable pub backfill_rows : Option ℕ → List Message → Pass → Pass
  unfolding message_refs
  backfill_rows limit [] pass = pass
  backfill_rows limit (m ∷ ms) pass = elim (refs_of m) [
    | [] ↦ backfill_rows limit ms pass
    | r ∷ rs ↦
        let claimed = claim_row m pass in
        elim (is_reached limit claimed.0.candidates) [
          | true ↦ claimed
          | false ↦ backfill_rows limit ms claimed
        ]
  ]

  -- `backfill_cdn_refs`
  unfoldable pub backfill_cdn_refs : Option ℕ → World → Pass
  unfolding backfill_rows
  backfill_cdn_refs limit w =
      backfill_rows limit (live_rows w) (record { candidates = 0; published = 0; failed = 0 }, [])

-- What the command prints: the candidates, the claims, the failures, and whether it warns.
pub record Report : Type 0 where
  pub found : ℕ
  pub claims : ℕ
  pub failures : ℕ
  pub is_warning : Bool

-- `handle`
unfoldable pub handle : (ℕ → List Text → Bool) → Bool → Option ℕ → World → Report
unfolding backfill_cdn_refs
handle sync dry_run limit w =
    let stats = (backfill_cdn_refs sync dry_run limit w).0 in
    record {
      found = stats.candidates;
      claims = if dry_run then stats.candidates else stats.published;
      failures = stats.failed;
      is_warning = ltb 0 stats.failed && stats.published == 0;
    }
