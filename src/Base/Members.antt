-- ===== src/Base/Members.antt =====
-- Membership in a list, with the place kept, and lists in order.
use Prim.Native.Nat.{suc, zero, ℕ, ◌<◌, ◌≤◌}
use mathlib.Core.Bool.{Bool, true}
use mathlib.Core.List.{List, [], ◌∷◌}
use mathlib.Core.Logic.{inl, inr, ◌⊎◌}
use mathlib.Core.Option.{some}
use mathlib.Core.Path.{ap, refl, subst, sym, ◌∙◌, ◌≡◌}
use native.Mathlib.Omega.{arith}
use stapel_chat.Base.Lists.{
  All, All-insert_by, All-map, filter, insert_by, last?, length, order_by, take,
}
use stapel_chat.Base.Tests.{Bool-cases, leb}

module _ {ℓ} {A : Type ℓ} where
  abbrev pub In : A → List A → Type ℓ
  In a [] = Unit × ⊥
  In a (x ∷ xs) = (a ≡ x) ⊎ In a xs

  abbrev pub IsSorted : (A → ℕ) → List A → Type 0
  IsSorted key [] = Unit
  IsSorted key (x ∷ xs) = All (λ y. key x ≤ key y) xs × IsSorted key xs

module _ {ℓ κ} {A : Type ℓ} where
  pub All-In : (P : A → Type κ) (xs : List A) → All P xs → (a : A) → In a xs → P a
  All-In P [] h a i = absurd i.1
  All-In P (x ∷ xs) h a (inl e) = subst P (sym e) h.0
  All-In P (x ∷ xs) h a (inr i) = All-In P xs h.1 a i

  pub In-All : (P : A → Type κ) (xs : List A) → ((a : A) → In a xs → P a) → All P xs
  In-All P [] h = tt
  In-All P (x ∷ xs) h = (h x (inl refl), In-All P xs (λ a i. h a (inr i)))

module _ {ℓ} {A : Type ℓ} where
  pub filter-In : (p : A → Bool) (xs : List A) (a : A) → In a (filter p xs) → In a xs × (p a ≡ true)
  filter-In p [] a i = absurd i.1
  filter-In p (x ∷ xs) a i = elim (Bool-cases (p x)) [
    | inr e ↦ let rest = filter-In p xs a (rw e at i) in (inr rest.0, rest.1)
    | inl e ↦
        let j : In a (x ∷ filter p xs) = rw e at i in
        elim j [
          | inl same ↦ (inl same, ap p same ∙ e)
          | inr later ↦ let rest = filter-In p xs a later in (inr rest.0, rest.1)
        ]
  ]

  pub In-filter : (p : A → Bool) (xs : List A) (a : A) → In a xs → p a ≡ true → In a (filter p xs)
  In-filter p [] a i t = absurd i.1
  In-filter p (x ∷ xs) a (inl e) t = rw (sym (ap p e) ∙ t) (inl e)
  In-filter p (x ∷ xs) a (inr i) t = elim (Bool-cases (p x)) [
    | inl e ↦ rw e (inr (In-filter p xs a i t))
    | inr e ↦ rw e (In-filter p xs a i t)
  ]

  insert_by-In :
      (key : A → ℕ) (x : A) (xs : List A) (a : A) → In a (insert_by key x xs) → In a (x ∷ xs)
  insert_by-In key x [] a i = i
  insert_by-In key x (y ∷ ys) a i = elim (Bool-cases (leb (key x) (key y))) [
    | inl e ↦ rw e at i
    | inr e ↦
        let j : In a (y ∷ insert_by key x ys) = rw e at i in
        elim j [
          | inl same ↦ inr (inl same)
          | inr later ↦ elim (insert_by-In key x ys a later) [ inl e ↦ inl e | inr k ↦ inr (inr k) ]
        ]
  ]

  In-insert_by :
      (key : A → ℕ) (x : A) (xs : List A) (a : A) → In a (x ∷ xs) → In a (insert_by key x xs)
  In-insert_by key x [] a i = i
  In-insert_by key x (y ∷ ys) a i = elim (Bool-cases (leb (key x) (key y))) [
    | inl e ↦ rw e i
    | inr e ↦ rw e (elim i [
      | inl same ↦ inr (In-insert_by key x ys a (inl same))
      | inr (inl same) ↦ inl same
      | inr (inr later) ↦ inr (In-insert_by key x ys a (inr later))
    ])
  ]

  pub order_by-In : (key : A → ℕ) (xs : List A) (a : A) → In a (order_by key xs) → In a xs
  order_by-In key [] a i = i
  order_by-In key (x ∷ xs) a i = elim (insert_by-In key x (order_by key xs) a i) [
    | inl e ↦ inl e
    | inr j ↦ inr (order_by-In key xs a j)
  ]

  pub In-order_by : (key : A → ℕ) (xs : List A) (a : A) → In a xs → In a (order_by key xs)
  In-order_by key [] a i = i
  In-order_by key (x ∷ xs) a (inl e) = In-insert_by key x (order_by key xs) a (inl e)
  In-order_by key (x ∷ xs) a (inr i) =
      In-insert_by key x (order_by key xs) a (inr (In-order_by key xs a i))

  pub take-In : (n : ℕ) (xs : List A) (a : A) → In a (take n xs) → In a xs
  take-In zero xs a i = absurd i.1
  take-In (suc n) [] a i = i
  take-In (suc n) (x ∷ xs) a (inl e) = inl e
  take-In (suc n) (x ∷ xs) a (inr i) = inr (take-In n xs a i)

  pub last?-In : (xs : List A) (l : A) → last? xs ≡ some l → In l xs
  last?-In [] l e = absurd (ground arith)
  last?-In (x ∷ []) l e = inl (ground arith)
  last?-In (x ∷ y ∷ ys) l e = inr (last?-In (y ∷ ys) l e)

-- What a sorted page leaves out stands at or after all that it holds.
module _ {ℓ} {A : Type ℓ} (key : A → ℕ) where
  insert_by-IsSorted : (x : A) (xs : List A) → IsSorted key xs → IsSorted key (insert_by key x xs)
  insert_by-IsSorted x [] h = (tt, tt)
  insert_by-IsSorted x (y ∷ ys) h = elim (Bool-cases (leb (key x) (key y))) [
    | inl e ↦
        let le : key x ≤ key y = ground arith in
        rw e
          ((le, All-map (λ z. key y ≤ key z) (λ z. key x ≤ key z) ys (λ z g. omega arith) h.0), h)
    | inr e ↦
        let le : key y ≤ key x = ground arith in
        rw e (All-insert_by (λ z. key y ≤ key z) key x ys le h.0, insert_by-IsSorted x ys h.1)
  ]

  pub order_by-IsSorted : (xs : List A) → IsSorted key (order_by key xs)
  order_by-IsSorted [] = tt
  order_by-IsSorted (x ∷ xs) = insert_by-IsSorted x (order_by key xs) (order_by-IsSorted xs)

  -- Not on the page: then at or after its last row.
  pub page_split :
      (n : ℕ) (xs : List A) (a : A)
      → IsSorted key xs
      → In a xs
      → In a (take n xs) ⊎ ((l : A) → last? (take n xs) ≡ some l → key l ≤ key a)
  page_split zero xs a s i = inr (λ l e. absurd (ground arith))
  page_split (suc n) [] a s i = absurd i.1
  page_split (suc n) (x ∷ xs) a s (inl e) = inl (inl e)
  page_split (suc n) (x ∷ xs) a s (inr i) = elim (page_split n xs a s.1 i) [
    | inl on_page ↦ inl (inr on_page)
    | inr after ↦ inr (bound (take n xs) (All-In (λ z. key x ≤ key z) xs s.0 a i) after)
  ]
    where
      bound :
          (page : List A)
          → key x ≤ key a
          → ((l : A) → last? page ≡ some l → key l ≤ key a)
          → (l : A) → last? (x ∷ page) ≡ some l
          → key l ≤ key a
      bound [] le after l e = let same : x ≡ l = ground arith in subst (λ z. key z ≤ key a) same le
      bound (y ∷ page) le after l e = after l e

pub take-all {ℓ} : {A : Type ℓ} (n : ℕ) (xs : List A) → length (take n xs) < n → take n xs ≡ xs
take-all zero xs h = absurd (omega arith)
take-all (suc n) [] h = refl
take-all (suc n) (x ∷ xs) h = ap (λ ys. x ∷ ys) (take-all n xs (omega arith))
