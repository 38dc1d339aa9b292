-- ===== src/Backfill/Slice.antt =====
-- The rows that one pass claims, told without the loop.
use stapel_chat.Backfill.{
  Pass, backfill_cdn_refs, backfill_rows, claim_row, is_reached, live_rows, refs_of,
}
use stapel_chat.Base.{
  Bool, Bool-cases, List, Option, Text, [], ap, append-nil, append_assoc, arith, false, filter,
  if◌then◌else◌, inl, inr, leb, length, map, max, none, refl, some, suc, sym, take, true, zero, ℕ,
  ◌++◌, ◌+◌, ◌-◌, ◌∙◌, ◌∷◌, ◌≡◌,
}
use stapel_chat.Model.{Message}
use stapel_chat.World.{Effect, World, sync_refs}

abbrev pub has_refs : Message → Bool
has_refs m = elim (refs_of m) [ [] ↦ false | r ∷ rs ↦ true ]

-- What a limit leaves of the rows, of which `n` are claimed.
abbrev pub slice : {A : Type 0} → Option ℕ → ℕ → List A → List A
slice none n xs = xs
slice (some limit) n xs = take (max 1 (limit - n)) xs

take_nil : {A : Type 0} (n : ℕ) → take {A = A} n [] ≡ []
take_nil zero = refl
take_nil (suc n) = refl

slice_nil : {A : Type 0} (limit : Option ℕ) (n : ℕ) → slice {A = A} limit n [] ≡ []
slice_nil none n = refl
slice_nil {A} (some limit) n = take_nil {A = A} (max 1 (limit - n))

slice_more :
    {A : Type 0} (limit n : ℕ) (x : A) (xs : List A)
    → leb limit (n + 1) ≡ false
    → slice (some limit) n (x ∷ xs) ≡ x ∷ slice (some limit) (n + 1) xs
slice_more limit n x xs t =
    let e : max 1 (limit - n) ≡ suc (max 1 (limit - (n + 1))) = ground (arith, t) in rw e refl

slice_last :
    {A : Type 0} (limit n : ℕ) (x : A) (xs : List A)
    → leb limit (n + 1) ≡ true
    → slice (some limit) n (x ∷ xs) ≡ x ∷ []
slice_last limit n x xs t = let e : max 1 (limit - n) ≡ 1 = ground (arith, t) in rw e refl

append_none : {A : Type 0} (d : Bool) (xs : List A) → xs ++ (if d then [] else []) ≡ xs
append_none true xs = append-nil xs
append_none false xs = append-nil xs

append_more :
    {A : Type 0} (d : Bool) (xs : List A) (y : A) (ys : List A)
    → (xs ++ (if d then [] else y ∷ [])) ++ (if d then [] else ys)
      ≡ xs ++ (if d then [] else y ∷ ys)
append_more true xs y ys = append-nil (xs ++ [])
append_more false xs y ys = append_assoc xs (y ∷ []) ys

-- An additive claim of what a message refers to.
abbrev pub claim_of : Message → Effect
claim_of m = sync_refs m.id [] (refs_of m)

module _ (sync : ℕ → List Text → Bool) (dry_run : Bool) where
  claim_all : List Message → Pass → Pass
  claim_all [] pass = pass
  claim_all (m ∷ ms) pass = claim_all ms (claim_row sync dry_run m pass)

  claim_row-counts :
      (m : Message) (pass : Pass)
      → ((claim_row sync dry_run m pass).0.candidates ≡ pass.0.candidates + 1)
        × (((claim_row sync dry_run m pass).0.published + (claim_row sync dry_run m pass).0.failed
              ≡ pass.0.published + pass.0.failed + (if dry_run then 0 else 1))
            × ((claim_row sync dry_run m pass).1
                ≡ pass.1 ++ (if dry_run then [] else sync_refs m.id [] (refs_of m) ∷ [])))
  claim_row-counts m pass = elim (Bool-cases dry_run) [
    | inl t ↦ rw t (refl, (omega arith, sym (append-nil pass.1)))
    | inr t ↦ rw t (refl, (ground arith, refl))
  ]

  skips :
      (limit : Option ℕ) (m : Message) (ms : List Message) (pass : Pass)
      → has_refs m ≡ false
      → backfill_rows sync dry_run limit (m ∷ ms) pass ≡ backfill_rows sync dry_run limit ms pass
  unfolding backfill_rows
  skips limit m ms pass e = ground arith

  claims_row :
      (limit : Option ℕ) (m : Message) (ms : List Message) (pass : Pass)
      → has_refs m ≡ true
      → let claimed = claim_row sync dry_run m pass in
        backfill_rows sync dry_run limit (m ∷ ms) pass ≡ (
          if is_reached sync dry_run limit claimed.0.candidates
          then claimed
          else backfill_rows sync dry_run limit ms claimed)
  unfolding backfill_rows
  claims_row limit m ms pass e = ground arith

  backfill_rows-slice :
      (limit : Option ℕ) (ms : List Message) (pass : Pass)
      → backfill_rows sync dry_run limit ms pass
        ≡ claim_all (slice limit pass.0.candidates (filter has_refs ms)) pass
  unfolding backfill_rows claim_all
  backfill_rows-slice limit [] pass =
      ap (λ xs. claim_all xs pass) (sym (slice_nil limit pass.0.candidates))
  backfill_rows-slice none (m ∷ ms) pass = elim (Bool-cases (has_refs m)) [
    | inr t ↦ rw t (skips none m ms pass t ∙ backfill_rows-slice none ms pass)
    | inl t ↦
        rw t (
          claims_row none m ms pass t ∙ backfill_rows-slice none ms (claim_row sync dry_run m pass))
  ]
  backfill_rows-slice (some limit) (m ∷ ms) pass =
      let claimed = claim_row sync dry_run m pass in
      let one : claimed.0.candidates ≡ pass.0.candidates + 1 = (claim_row-counts m pass).0 in
      let rest = filter has_refs ms in
      elim (Bool-cases (has_refs m)) [
        | inr t ↦ rw t (skips (some limit) m ms pass t ∙ backfill_rows-slice (some limit) ms pass)
        | inl t ↦ rw t (
            claims_row (some limit) m ms pass t
            ∙ rw one (elim (Bool-cases (leb limit (pass.0.candidates + 1))) [
              | inl s ↦
                  rw s (
                    ap (λ xs. claim_all xs pass)
                      (sym (slice_last limit pass.0.candidates m rest s)))
              | inr s ↦ rw s (
                  backfill_rows-slice (some limit) ms claimed
                  ∙ ap (λ n. claim_all (slice (some limit) n rest) claimed) one
                  ∙ ap (λ xs. claim_all xs pass)
                      (sym (slice_more limit pass.0.candidates m rest s)))
            ]))
      ]

  claim_all-counts :
      (ms : List Message) (pass : Pass)
      → ((claim_all ms pass).0.candidates ≡ pass.0.candidates + length ms)
        × (((claim_all ms pass).0.published + (claim_all ms pass).0.failed
              ≡ pass.0.published + pass.0.failed + (if dry_run then 0 else length ms))
            × ((claim_all ms pass).1 ≡ pass.1 ++ (if dry_run then [] else map claim_of ms)))
  unfolding claim_all
  claim_all-counts [] pass = (omega arith, (ground arith, sym (append_none dry_run pass.1)))
  claim_all-counts (m ∷ ms) pass =
      let row = claim_row-counts m pass in
      let rest = claim_all-counts ms (claim_row sync dry_run m pass) in
      (
        omega (arith, row.0, rest.0),
        (
          ground (arith, row.1.0, rest.1.0),
          rest.1.1
              ∙ ap (λ xs. xs ++ (if dry_run then [] else map claim_of ms)) row.1.1
              ∙ append_more dry_run pass.1 (claim_of m) (map claim_of ms),
        ),
      )

-- A pass claims the live messages that carry references, in the order of their ids, up to its limit,
-- where a limit of 0 lets one through. It counts each of them, and each as published or as failed; a
-- claim names everything the row refers to and releases nothing. A dry run counts the same rows and
-- sends nothing.
pub backfill_cdn_refs-eq :
    (sync : ℕ → List Text → Bool) (dry_run : Bool) (limit : Option ℕ) (w : World)
    → let chosen = slice limit 0 (filter has_refs (live_rows w)) in
      let (stats, sent) = backfill_cdn_refs sync dry_run limit w in
      (stats.candidates ≡ length chosen)
      × ((stats.published + stats.failed ≡ (if dry_run then 0 else length chosen))
          × (sent ≡ (if dry_run then [] else map claim_of chosen)))
unfolding backfill_cdn_refs
backfill_cdn_refs-eq sync dry_run limit w =
    let start : Pass = (record { candidates = 0; published = 0; failed = 0 }, []) in
    let rows = live_rows w in
    let counts = claim_all-counts sync dry_run (slice limit 0 (filter has_refs rows)) start in
    rw (backfill_rows-slice sync dry_run limit rows start)
      (omega (arith, counts.0), (ground (arith, counts.1.0), counts.1.1))
