-- ===== src/Merging/Erased.antt =====
-- services.py, `erase_user_messages`: what it leaves under the name of the person.
use stapel_chat.Base.{
  All, Bool-cases, In, In-All, In-filter, List, Option-cases, [], any, ap, arith, inl, inr, length,
  none, refl, some, subst, sym, true, ℕ, ◌+◌, ◌==◌, ◌∙◌, ◌∷◌, ◌≡◌, ◌⊎◌,
}
use stapel_chat.Merging.Erasing.{In-map, Pending, erase_listed-Pending, listed_rows}
use stapel_chat.Model.{Conversation, Message}
use stapel_chat.Sending.{get_conversation}
use stapel_chat.Sending.Changes.{
  authored_rows, distinct_ids, erase_each, erase_in, erase_listed, erase_user_messages,
}
use stapel_chat.World.{Error, Exec, Result, World, atomic, does_not_exist, err, ok, pure, ◌>>=◌}

pub Result-cases :
    {A : Type 0} (r : Result A) → ((a : A) × (r ≡ ok a)) ⊎ ((e : Error) × (r ≡ err e))
Result-cases (ok a) = inl (a, refl)
Result-cases (err e) = inr (e, refl)

erase_listed-is_ok :
    (cid : ℕ) (c : Conversation) (rows : List Message) (w : World)
    → (erase_listed cid c rows w).0 ≡ ok (length rows)
erase_listed-is_ok cid c [] w = refl
erase_listed-is_ok cid c (m ∷ more) w = refl

module _ {A B : Type 0} (m : Exec A) (f : A → Exec B) (w w1 : World) where
  pub bind_ok : (a : A) → m w ≡ (ok a, w1) → (m >>= f) w ≡ f a w1
  bind_ok a e = ap (λ v. elim v.0 [ ok x ↦ f x v.1 | err x ↦ (err x, v.1) ]) e

  pub bind_err : (x : Error) → m w ≡ (err x, w1) → (m >>= f) w ≡ (err x, w1)
  bind_err x e = ap (λ v. elim v.0 [ ok y ↦ f y v.1 | err y ↦ (err y, v.1) ]) e

atomic_ok :
    {A : Type 0} (m : Exec A) (w w1 : World) (a : A) → m w ≡ (ok a, w1) → atomic m w ≡ (ok a, w1)
atomic_ok m w w1 a e = ap (λ v. elim v.0 [ ok x ↦ (ok x, v.1) | err x ↦ (err x, w) ]) e

-- One conversation's share, where the conversation exists and where it does not.
erase_in-some :
    (user cid : ℕ) (c : Conversation) (w : World)
    → get_conversation cid w ≡ some c
    → erase_in user cid w ≡ erase_listed cid c (authored_rows user cid w) w
unfolding erase_in
erase_in-some user cid c w e = rw (erase_in, e) refl

erase_in-none :
    (user cid : ℕ) (w : World)
    → get_conversation cid w ≡ none
    → erase_in user cid w ≡ (err does_not_exist, w)
unfolding erase_in
erase_in-none user cid w e = rw (erase_in, e) refl

-- The loop after the share of a conversation that exists.
erase_each-step :
    (user cid n : ℕ) (cids : List ℕ) (c : Conversation) (w : World)
    → get_conversation cid w ≡ some c
    → (erase_each user (cid ∷ cids) w).0 ≡ ok n
    → let rest = erase_each user cids (erase_listed cid c (authored_rows user cid w) w).1 in
      (k : ℕ) × ((rest.0 ≡ ok k) × ((erase_each user (cid ∷ cids) w).1 ≡ rest.1))
unfolding erase_each
erase_each-step user cid n cids c w e returned =
    let rows = authored_rows user cid w in
    let w1 = (erase_listed cid c rows w).1 in
    let rest = erase_each user cids w1 in
    let here : erase_in user cid w ≡ (ok (length rows), w1) =
      erase_in-some user cid c w e ∙ ap (λ r. (r, w1)) (erase_listed-is_ok cid c rows w) in
    let go : ℕ → Exec ℕ = λ k. erase_each user cids >>= λ more. pure (k + more) in
    let first =
      bind_ok (atomic (erase_in user cid)) go w w1 (length rows)
        (atomic_ok (erase_in user cid) w w1 (length rows) here) in
    elim (Result-cases rest.0) [
      | inl (k, t) ↦
          let last =
            bind_ok (erase_each user cids) (λ more. pure (length rows + more)) w1 rest.1 k
              (ap (λ r. (r, rest.1)) t) in
          (k, (t, ap (λ v. v.1) (first ∙ last)))
      | inr (x, t) ↦
          let last =
            bind_err (erase_each user cids) (λ more. pure (length rows + more)) w1 rest.1 x
              (ap (λ r. (r, rest.1)) t) in
          absurd (ground (arith, ap (λ v. v.0) (first ∙ last), returned))
    ]

erase_each-missing :
    (user cid : ℕ) (cids : List ℕ) (w : World)
    → get_conversation cid w ≡ none
    → (erase_each user (cid ∷ cids) w).0 ≡ err does_not_exist
unfolding erase_each
erase_each-missing user cid cids w e =
    let shut : atomic (erase_in user cid) w ≡ (err does_not_exist, w) =
      ap (λ v. elim v.0 [ ok x ↦ (ok x, v.1) | err x ↦ (err x, w) ]) (erase_in-none user cid w e) in
    ap (λ v. v.0)
      (bind_err (atomic (erase_in user cid)) (λ k. erase_each user cids >>= λ more. pure (k + more))
        w w does_not_exist shut)

erase_each-Pending :
    (before : List Message) (user : ℕ) (cids : List ℕ) (w : World) (n : ℕ)
    → All (Pending before user cids) w.messages
    → (erase_each user cids w).0 ≡ ok n
    → All (Pending before user []) (erase_each user cids w).1.messages
erase_each-Pending before user [] w n h returned = unfold erase_each in h
erase_each-Pending before user (cid ∷ cids) w n h returned =
    elim (Option-cases (get_conversation cid w)) [
      | inl e ↦ absurd (ground (arith, erase_each-missing user cid cids w e))
      | inr (c, e) ↦
          let rows = authored_rows user cid w in
          let (k, (ended, same)) = erase_each-step user cid n cids c w e returned in
          subst (λ v. All (Pending before user []) v.messages) (sym same)
            (erase_each-Pending before user cids _ k
              (erase_listed-Pending before user cids cid c rows w
                (listed_rows before user cid cids w h))
              ended)
    ]

any-In : (n : ℕ) (ns : List ℕ) → any (λ (k : ℕ). k == n) ns ≡ true → In n ns
any-In n [] t = absurd (ground arith)
any-In n (k ∷ ns) t = elim (Bool-cases (k == n)) [
  | inl e ↦ inl (ground arith)
  | inr e ↦ inr (any-In n ns (ground arith))
]

distinct_ids-In : (n : ℕ) (ns : List ℕ) → In n ns → In n (distinct_ids ns)
unfolding distinct_ids
distinct_ids-In n [] h = h
distinct_ids-In n (k ∷ ns) h =
    let rest = distinct_ids ns in
    elim (Bool-cases (any (λ (j : ℕ). j == k) rest)) [
      | inl t ↦ rw t (elim h [
        | inl e ↦ subst (λ x. In x rest) (sym e) (any-In k rest t)
        | inr later ↦ distinct_ids-In n ns later
      ])
      | inr t ↦ rw t (elim h [ inl e ↦ inl e | inr later ↦ inr (distinct_ids-In n ns later) ])
    ]

-- What is left once the account is erased: no live row of theirs, and every other row of theirs as
-- it was.
abbrev pub IsSilent : List Message → ℕ → World → Type 0
IsSilent before user w = All (Pending before user []) w.messages

pub erase_user_messages-IsSilent :
    (user n : ℕ) (w : World)
    → (erase_user_messages user w).0 ≡ ok n
    → IsSilent w.messages user (erase_user_messages user w).1
unfolding erase_user_messages
erase_user_messages-IsSilent user n w returned =
    erase_each-Pending w.messages user _ w n
      (In-All _ w.messages (λ m here. (
        (λ own. here),
        (λ live.
            distinct_ids-In m.conversation _
              (In-map (λ (x : Message). x.conversation) _ m (In-filter _ w.messages m here live))),
      )))
      returned
