-- ===== src/Registry/Lookup.antt =====
-- What a name means in a merged registry.
use stapel_chat.Base.{
  All, Bool-cases, List, Option, Option-cases, Pairwise, Text, [], ap, false, false≢true,
  if◌then◌else◌, inl, inr, lookup, none, refl, some, subst, sym, text_eq, text_eq_self,
  text_eq_sound, ◌∙◌, ◌∷◌, ◌≡◌,
}
use stapel_chat.Registry.{effective, live_entries, overlay, put}

text_eq_sym : (i j : Text) → text_eq i j ≡ false → text_eq j i ≡ false
text_eq_sym i j h = elim (Bool-cases (text_eq j i)) [
  | inr t ↦ t
  | inl t ↦
      let same : j ≡ i = text_eq_sound j i t in
      absurd (false≢true (sym h ∙ ap (λ z. text_eq i z) same ∙ text_eq_self i))
]

module _ {ℓ} {V : Type ℓ} where
  -- The last entry of a layer under a name.
  abbrev pub latest : Text → List (Text × V) → Option V
  latest k [] = none
  latest k ((j, v) ∷ layer) = elim (latest k layer) [
    | some u ↦ some u
    | none ↦ if text_eq j k then some v else none
  ]

  abbrev pub first_some : Option V → Option V → Option V
  first_some none o = o
  first_some (some v) o = some v

  abbrev pub Apart : (Text × V) → (Text × V) → Type 0
  Apart a b = text_eq a.0 b.0 ≡ false

  lookup-put :
      (k j : Text) (v : V) (d : List (Text × V))
      → lookup k (put j v d) ≡ (if text_eq j k then some v else lookup k d)
  unfolding lookup put
  lookup-put k j v [] = refl
  lookup-put k j v ((i, u) ∷ d) = elim (Bool-cases (text_eq i j)) [
    | inl t ↦
        let same : i ≡ j = text_eq_sound i j t in
        elim (Bool-cases (text_eq j k)) [
          | inl s ↦ rw (t, s) refl
          | inr s ↦
              let other : text_eq i k ≡ false = ap (λ z. text_eq z k) same ∙ s in
              rw (t, s, other) refl
        ]
    | inr t ↦ rw t (elim (Bool-cases (text_eq i k)) [
      | inl s ↦
          let other : text_eq j k ≡ false =
            ap (λ z. text_eq j z) (sym (text_eq_sound i k s)) ∙ text_eq_sym i j t in
          rw (s, other) refl
      | inr s ↦ rw s (lookup-put k j v d)
    ])
  ]

  lookup-overlay :
      (k : Text) (d layer : List (Text × V))
      → lookup k (overlay d layer) ≡ first_some (latest k layer) (lookup k d)
  unfolding overlay
  lookup-overlay k d [] = refl
  lookup-overlay k d ((j, v) ∷ layer) =
      lookup-overlay k (put j v d) layer ∙ elim (Option-cases (latest k layer)) [
        | inr (u, e) ↦ rw e refl
        | inl e ↦ elim (Bool-cases (text_eq j k)) [
          | inl t ↦ rw (e, t) (lookup-put k j v d ∙ rw t refl)
          | inr t ↦ rw (e, t) (lookup-put k j v d ∙ rw t refl)
        ]
      ]

  put-Apart :
      (a : Text × V) (j : Text) (v : V) (d : List (Text × V))
      → All (Apart a) d
      → text_eq a.0 j ≡ false
      → All (Apart a) (put j v d)
  unfolding put
  put-Apart a j v [] h e = (e, tt)
  put-Apart a j v ((i, u) ∷ d) h e = elim (Bool-cases (text_eq i j)) [
    | inl t ↦ rw t (e, h.1)
    | inr t ↦ rw t (h.0, put-Apart a j v d h.1 e)
  ]

  put-Pairwise :
      (j : Text) (v : V) (d : List (Text × V)) → Pairwise Apart d → Pairwise Apart (put j v d)
  unfolding put
  put-Pairwise j v [] h = (tt, tt)
  put-Pairwise j v ((i, u) ∷ d) h = elim (Bool-cases (text_eq i j)) [
    | inl t ↦
        let same : i ≡ j = text_eq_sound i j t in
        rw t (subst (λ z. All (λ (b : Text × V). text_eq z b.0 ≡ false) d) same h.0, h.1)
    | inr t ↦ rw t (put-Apart (i, u) j v d h.0 t, put-Pairwise j v d h.1)
  ]

  overlay-Pairwise :
      (d layer : List (Text × V)) → Pairwise Apart d → Pairwise Apart (overlay d layer)
  unfolding overlay
  overlay-Pairwise d [] h = h
  overlay-Pairwise d ((j, v) ∷ layer) h = overlay-Pairwise (put j v d) layer (put-Pairwise j v d h)

abbrev pub joined_option {ℓ} : {V : Type ℓ} → Option (Option V) → Option V
joined_option none = none
joined_option (some o) = o

module _ {ℓ} {V : Type ℓ} where
  absent_live :
      (k : Text) (d : List (Text × Option V))
      → All (λ (b : Text × Option V). text_eq k b.0 ≡ false) d
      → lookup k (live_entries d) ≡ none
  unfolding lookup live_entries
  absent_live k [] h = refl
  absent_live k ((i, none) ∷ d) h = absent_live k d h.1
  absent_live k ((i, some v) ∷ d) h =
      let other : text_eq i k ≡ false = text_eq_sym k i h.0 in rw other (absent_live k d h.1)

  lookup-live_entries :
      (k : Text) (d : List (Text × Option V))
      → Pairwise Apart d
      → lookup k (live_entries d) ≡ joined_option (lookup k d)
  unfolding lookup live_entries
  lookup-live_entries k [] h = refl
  lookup-live_entries k ((i, none) ∷ d) h = elim (Bool-cases (text_eq i k)) [
    | inl t ↦
        let same : i ≡ k = text_eq_sound i k t in
        rw t (
          absent_live k d
            (subst (λ z. All (λ (b : Text × Option V). text_eq z b.0 ≡ false) d) same h.0))
    | inr t ↦ rw t (lookup-live_entries k d h.1)
  ]
  lookup-live_entries k ((i, some v) ∷ d) h = elim (Bool-cases (text_eq i k)) [
    | inl t ↦ rw t refl
    | inr t ↦ rw t (lookup-live_entries k d h.1)
  ]

  -- With builtins of apart names, a name of the merged registry means what its last entry in the
  -- runtime layer says, else in the settings, else among the builtins; an entry `None` removes it.
  pub lookup-effective :
      (k : Text) (builtins settings runtime : List (Text × Option V))
      → Pairwise Apart builtins
      → lookup k (effective builtins settings runtime)
        ≡ joined_option
            (first_some (latest k runtime) (first_some (latest k settings) (lookup k builtins)))
  unfolding effective
  lookup-effective k builtins settings runtime h =
      let merged = overlay (overlay builtins settings) runtime in
      lookup-live_entries k merged (
        overlay-Pairwise (overlay builtins settings) runtime (overlay-Pairwise builtins settings h))
      ∙ ap joined_option (
          lookup-overlay k (overlay builtins settings) runtime
          ∙ ap (first_some (latest k runtime)) (lookup-overlay k builtins settings))
