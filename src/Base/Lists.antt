-- ===== src/Base/Lists.antt =====
-- Tables are lists of rows: the queries the ORM calls make of them, and predicates on all rows.
use Prim.Native.Nat.{suc, zero, ℕ, ◌+◌}
use mathlib.Core.Bool.{Bool, false, true, ◌||◌}
use mathlib.Core.List.{List, [], reverse, reverse_aux, ◌++◌, ◌∷◌}
use mathlib.Core.Logic.{inl, inr}
use mathlib.Core.Option.{Option, none, some}
use mathlib.Core.Path.{ap, refl, subst, ◌≡◌}
use native.Mathlib.Omega.{arith}
use stapel_chat.Base.Tests.{Bool-cases, if◌then◌else◌, is_some, leb}

module _ {ℓ} {A : Type ℓ} where
  abbrev pub length : List A → ℕ
  length [] = 0
  length (x ∷ xs) = suc (length xs)

  abbrev pub take : ℕ → List A → List A
  take zero xs = []
  take (suc n) [] = []
  take (suc n) (x ∷ xs) = x ∷ take n xs

  -- `filter(...)`, with a Boolean test
  abbrev pub filter : (A → Bool) → List A → List A
  filter p [] = []
  filter p (x ∷ xs) = if p x then x ∷ filter p xs else filter p xs

  -- `filter(...).first()` on a table whose order does not matter
  abbrev pub find? : (A → Bool) → List A → Option A
  find? p [] = none
  find? p (x ∷ xs) = if p x then some x else find? p xs

  -- `filter(...).exists()`
  abbrev pub any : (A → Bool) → List A → Bool
  any p [] = false
  any p (x ∷ xs) = p x || any p xs

  -- `filter(...).update(...)`
  abbrev pub update_where : (A → Bool) → (A → A) → List A → List A
  update_where p f [] = []
  update_where p f (x ∷ xs) = (if p x then f x else x) ∷ update_where p f xs

  -- `order_by(key)`: a stable insertion sort by a number
  abbrev pub insert_by : (A → ℕ) → A → List A → List A
  insert_by key x [] = x ∷ []
  insert_by key x (y ∷ ys) = if leb (key x) (key y) then x ∷ y ∷ ys else y ∷ insert_by key x ys

  abbrev pub order_by : (A → ℕ) → List A → List A
  order_by key [] = []
  order_by key (x ∷ xs) = insert_by key x (order_by key xs)

  abbrev pub last? : List A → Option A
  last? [] = none
  last? (x ∷ []) = some x
  last? (x ∷ y ∷ ys) = last? (y ∷ ys)

module _ {ℓ κ} {A : Type ℓ} where
  abbrev pub All : (A → Type κ) → List A → Type κ
  All P [] = Unit
  All P (x ∷ xs) = P x × All P xs

  -- Every earlier row stands in `R` to every later one.
  abbrev pub Pairwise : (A → A → Type κ) → List A → Type κ
  Pairwise R [] = Unit
  Pairwise R (x ∷ xs) = All (R x) xs × Pairwise R xs

module _ {ℓ} {A : Type ℓ} where
  pub length-append : (xs ys : List A) → length (xs ++ ys) ≡ length xs + length ys
  length-append [] ys = omega arith
  length-append (x ∷ xs) ys = omega (arith, length-append xs ys)

  pub length-update_where :
      (p : A → Bool) (f : A → A) (xs : List A) → length (update_where p f xs) ≡ length xs
  length-update_where p f [] = refl
  length-update_where p f (x ∷ xs) = ap suc (length-update_where p f xs)

  pub any-eq-is_some : (p : A → Bool) (xs : List A) → any p xs ≡ is_some (find? p xs)
  any-eq-is_some p [] = refl
  any-eq-is_some p (x ∷ xs) = ground (arith, any-eq-is_some p xs)

module _ {ℓ κ} {A : Type ℓ} where
  pub All-append : (P : A → Type κ) (xs ys : List A) → All P xs → All P ys → All P (xs ++ ys)
  All-append P [] ys hx hy = hy
  All-append P (x ∷ xs) ys hx hy = (hx.0, All-append P xs ys hx.1 hy)

  -- A fact about every row, from the rows that satisfy another.
  pub All-map : (P Q : A → Type κ) (xs : List A) → ((x : A) → P x → Q x) → All P xs → All Q xs
  All-map P Q [] step h = tt
  All-map P Q (x ∷ xs) step h = (step x h.0, All-map P Q xs step h.1)

  pub All-update_where :
      (P : A → Type κ) (p : A → Bool) (f : A → A) (xs : List A)
      → ((x : A) → p x ≡ true → P x → P (f x))
      → All P xs
      → All P (update_where p f xs)
  All-update_where P p f [] step h = tt
  All-update_where P p f (x ∷ xs) step h = elim (Bool-cases (p x)) [
    | inl e ↦ rw e (step x e h.0, All-update_where P p f xs step h.1)
    | inr e ↦ rw e (h.0, All-update_where P p f xs step h.1)
  ]

  pub All-filter : (P : A → Type κ) (p : A → Bool) (xs : List A) → All P xs → All P (filter p xs)
  All-filter P p [] h = tt
  All-filter P p (x ∷ xs) h = elim (Bool-cases (p x)) [
    | inl e ↦ rw e (h.0, All-filter P p xs h.1)
    | inr e ↦ rw e (All-filter P p xs h.1)
  ]

  All-reverse_aux :
      (P : A → Type κ) (xs ys : List A) → All P xs → All P ys → All P (reverse_aux xs ys)
  All-reverse_aux P [] ys h k = k
  All-reverse_aux P (x ∷ xs) ys h k = All-reverse_aux P xs (x ∷ ys) h.1 (h.0, k)

  pub All-reverse : (P : A → Type κ) (xs : List A) → All P xs → All P (reverse xs)
  All-reverse P xs h = All-reverse_aux P xs [] h tt

  pub All-take : (P : A → Type κ) (n : ℕ) (xs : List A) → All P xs → All P (take n xs)
  All-take P zero xs h = tt
  All-take P (suc n) [] h = tt
  All-take P (suc n) (x ∷ xs) h = (h.0, All-take P n xs h.1)

  -- What the query found satisfies what every row does, and its own test.
  pub All-find? :
      (P : A → Type κ) (p : A → Bool) (xs : List A) {x : A}
      → All P xs
      → find? p xs ≡ some x
      → P x × (p x ≡ true)
  All-find? P p [] h e = cc
  All-find? P p (y ∷ ys) {x} h e = elim (Bool-cases (p y)) [
    | inl t ↦ let same : y ≡ x = ground arith in subst (λ z. P z × (p z ≡ true)) same (h.0, t)
    | inr t ↦ All-find? P p ys h.1 (ground arith)
  ]

  pub Pairwise-append :
      (R : A → A → Type κ) (xs : List A) (y : A)
      → Pairwise R xs
      → All (λ x. R x y) xs
      → Pairwise R (xs ++ y ∷ [])
  Pairwise-append R [] y h new = (tt, tt)
  Pairwise-append R (x ∷ xs) y h new =
      (All-append (R x) xs (y ∷ []) h.0 (new.0, tt), Pairwise-append R xs y h.1 new.1)

  pub All-insert_by :
      (P : A → Type κ) (key : A → ℕ) (x : A) (xs : List A)
      → P x
      → All P xs
      → All P (insert_by key x xs)
  All-insert_by P key x [] px h = (px, tt)
  All-insert_by P key x (y ∷ ys) px h = elim (Bool-cases (leb (key x) (key y))) [
    | inl e ↦ rw e (px, h)
    | inr e ↦ rw e (h.0, All-insert_by P key x ys px h.1)
  ]

  pub All-order_by :
      (P : A → Type κ) (key : A → ℕ) (xs : List A) → All P xs → All P (order_by key xs)
  All-order_by P key [] h = tt
  All-order_by P key (x ∷ xs) h =
      All-insert_by P key x (order_by key xs) h.0 (All-order_by P key xs h.1)

-- What a query finds satisfies its test.
pub find?-test {ℓ} :
    {A : Type ℓ} (p : A → Bool) (rows : List A) (row : A) → find? p rows ≡ some row → p row ≡ true
find?-test p [] row e = absurd (ground arith)
find?-test p (r ∷ rows) row e = elim (Bool-cases (p r)) [
  | inl t ↦ let same : r ≡ row = ground arith in subst (λ x. p x ≡ true) same t
  | inr t ↦ find?-test p rows row (ground arith)
]
