-- ===== src/Subjects/Coverage.antt =====
-- subjects.py, `resolve_cards`: which subjects are answered.
use stapel_chat.Base.{
  All, All-append, Bool, Bool-cases, List, Option, Text, [], any, arith, false, inl, inr, is_empty,
  is_some, none, not, refl, some, subst, text_eq, text_eq_sound, ◌&&◌, ◌++◌, ◌||◌, ◌∙◌, ◌∷◌, ◌≡◌,
  ◌≢◌,
}
use stapel_chat.Settings.{Host}
use stapel_chat.Subjects.{
  CardReason, Cards, MetaStatus, Resolution, Subject, SubjectPolicy, answered, answered_or_failed,
  card_for, card_missing, card_of, cards_in, empty_card, function_failed, function_unreachable,
  insert_key, is_named, join_cards, meta_missing, meta_ok, meta_partial, resolve_cards,
  resolve_each, resolve_type, resolve_types, resolve_under, same_subject, subject_policy,
  text_before, type_unregistered, want, wanted_keys,
}
use stapel_chat.Values.{Fields, Json, get_field, is_null}
use stapel_chat.World.{Result, err, ok, ok_inj}

abbrev is_key : Text → Text → Bool
is_key k j = text_eq j k

abbrev asked : Subject → List (Text × List Text) → Bool
asked s [] = false
asked s ((u, keys) ∷ wanted) = text_eq u s.0 && any (is_key s.1) keys || asked s wanted

insert_key-asked :
    (k l : Text) (keys : List Text)
    → any (is_key k) (insert_key l keys) ≡ (text_eq l k || any (is_key k) keys)
unfolding insert_key
insert_key-asked k l [] = refl
insert_key-asked k l (j ∷ keys) = elim (Bool-cases (text_eq l j)) [
  | inl e ↦ rw (e, text_eq_sound l j e) (ground arith)
  | inr e ↦ elim (Bool-cases (text_before l j)) [
    | inl t ↦ rw (e, t) refl
    | inr t ↦ rw (e, t, insert_key-asked k l keys) (ground arith)
  ]
]

want-asked :
    (s q : Subject) (wanted : List (Text × List Text))
    → asked s (want q wanted) ≡ (same_subject q s || asked s wanted)
unfolding want
want-asked s q [] = ground arith
want-asked s q ((u, keys) ∷ wanted) = elim (Bool-cases (text_eq u q.0)) [
  | inl e ↦ rw (e, text_eq_sound u q.0 e, insert_key-asked s.1 q.1 keys) (ground arith)
  | inr e ↦ rw (e, want-asked s q wanted) (ground arith)
]

wanted_keys-asked :
    (s : Subject) (pairs : List Subject)
    → asked s (wanted_keys pairs) ≡ any (λ q. is_named q && same_subject q s) pairs
unfolding wanted_keys
wanted_keys-asked s [] = refl
wanted_keys-asked s (q ∷ pairs) = elim (Bool-cases (is_named q)) [
  | inl e ↦ rw (e, want-asked s q (wanted_keys pairs), wanted_keys-asked s pairs) refl
  | inr e ↦ rw (e, wanted_keys-asked s pairs) refl
]

abbrev has_card : Subject → Cards → Bool
has_card s cards = is_some (card_for s cards)

append-has_card :
    (s : Subject) (xs ys : Cards) → has_card s (xs ++ ys) ≡ (has_card s xs || has_card s ys)
unfolding card_for
append-has_card s [] ys = refl
append-has_card s ((q, r) ∷ xs) ys = ground (arith, append-has_card s xs ys)

resolve_each-has_card :
    (s : Subject) (u : Text) (answer : Text → Resolution) (keys : List Text)
    → has_card s (resolve_each u answer keys) ≡ (text_eq u s.0 && any (is_key s.1) keys)
unfolding card_for
resolve_each-has_card s u answer [] = ground arith
resolve_each-has_card s u answer (k ∷ keys) = ground (arith, resolve_each-has_card s u answer keys)

-- A resolution has a card, or it says why not.
pub record IsExplained (r : Resolution) : Type 0 where
  pub card_or_reason : is_some r.meta_reason ≡ is_null r.card
  pub ok_has_card : r.meta_status ≡ meta_ok → is_null r.card ≡ false

abbrev Explained : Cards → Type 0
Explained = All (λ e. IsExplained e.1)

empty_card-IsExplained :
    (reason : CardReason) (status : MetaStatus)
    → status ≢ meta_ok
    → IsExplained (empty_card reason status)
empty_card-IsExplained reason status bad = record {
  card_or_reason = refl;
  ok_has_card = λ e. absurd (bad e);
}

card_of-IsExplained : (cards : Fields) (k : Text) → IsExplained (card_of cards k)
unfolding card_of
card_of-IsExplained cards k = elim (Bool-cases (is_null (get_field k cards))) [
  | inl e ↦ rw e (empty_card-IsExplained card_missing meta_partial (λ same. absurd (ground arith)))
  | inr e ↦ rw e (record { card_or_reason = ground arith; ok_has_card = λ same. e })
]

resolve_each-Explained :
    (u : Text) (answer : Text → Resolution) (keys : List Text)
    → ((k : Text) → IsExplained (answer k))
    → Explained (resolve_each u answer keys)
resolve_each-Explained u answer [] h = tt
resolve_each-Explained u answer (k ∷ keys) h = (h k, resolve_each-Explained u answer keys h)

-- What one call answers of the subjects it was asked for.
record IsAnswer (wanted : List (Text × List Text)) (cards : Cards) : Type 0 where
  covers : (s : Subject) → has_card s cards ≡ asked s wanted
  explained : Explained cards

resolve_each-IsAnswer :
    (u : Text) (answer : Text → Resolution) (keys : List Text) (cards : Cards)
    → ((k : Text) → IsExplained (answer k))
    → resolve_each u answer keys ≡ cards
    → IsAnswer ((u, keys) ∷ []) cards
resolve_each-IsAnswer u answer keys cards h e = subst (IsAnswer ((u, keys) ∷ [])) e (record {
  covers = λ s. ground (arith, resolve_each-has_card s u answer keys);
  explained = resolve_each-Explained u answer keys h;
})

empty-IsAnswer :
    (u : Text) (keys : List Text) (reason : CardReason) (status : MetaStatus) (cards : Cards)
    → status ≢ meta_ok
    → ok (resolve_each u (λ k. empty_card reason status) keys) ≡ ok cards
    → IsAnswer ((u, keys) ∷ []) cards
empty-IsAnswer u keys reason status cards bad h =
    resolve_each-IsAnswer u (λ k. empty_card reason status) keys cards
      (λ k. empty_card-IsExplained reason status bad) (ok_inj h)

joined-IsAnswer :
    (u : Text) (keys : List Text) (wanted : List (Text × List Text)) (first rest : Result Cards)
    (cards : Cards)
    → ((xs : Cards) → first ≡ ok xs → IsAnswer ((u, keys) ∷ []) xs)
    → ((ys : Cards) → rest ≡ ok ys → IsAnswer wanted ys)
    → join_cards first rest ≡ ok cards
    → IsAnswer ((u, keys) ∷ wanted) cards
joined-IsAnswer u keys wanted (err e) rest cards hf hr h = absurd (ground arith)
joined-IsAnswer u keys wanted (ok xs) (err e) cards hf hr h = absurd (ground arith)
joined-IsAnswer u keys wanted (ok xs) (ok ys) cards hf hr h =
    let left = hf xs refl in
    let right = hr ys refl in
    subst (IsAnswer ((u, keys) ∷ wanted)) (ok_inj h) (record {
      covers = λ s. ground (arith, append-has_card s xs ys, left.covers s, right.covers s);
      explained = All-append (λ e. IsExplained e.1) xs ys left.explained right.explained;
    })

answered-IsAnswer :
    (u : Text) (keys : List Text) (r : Result Fields) (cards : Cards)
    → answered u keys r ≡ ok cards
    → IsAnswer ((u, keys) ∷ []) cards
answered-IsAnswer u keys (err e) cards h = absurd (ground arith)
answered-IsAnswer u keys (ok found) cards h =
    resolve_each-IsAnswer u (card_of found) keys cards (card_of-IsExplained found) (ok_inj h)

answered_or_failed-IsAnswer :
    (u : Text) (keys : List Text) (name : Text) (o : Option Json) (cards : Cards)
    → answered_or_failed u keys name o ≡ ok cards
    → IsAnswer ((u, keys) ∷ []) cards
answered_or_failed-IsAnswer u keys name none cards h =
    empty-IsAnswer u keys function_failed meta_partial cards (λ same. absurd (ground arith)) h
answered_or_failed-IsAnswer u keys name (some answer) cards h =
    answered-IsAnswer u keys (cards_in name answer) cards h

resolve_under-IsAnswer :
    (host : Host) (u : Text) (keys : List Text) (o : Option SubjectPolicy) (cards : Cards)
    → resolve_under host u keys o ≡ ok cards
    → IsAnswer ((u, keys) ∷ []) cards
resolve_under-IsAnswer host u keys none cards h =
    empty-IsAnswer u keys type_unregistered meta_missing cards (λ same. absurd (ground arith)) h
resolve_under-IsAnswer host u keys (some policy) cards h =
    elim (Bool-cases
      (is_empty policy.card_function || not (host.is_reachable policy.card_function))) [
        | inl e ↦
            empty-IsAnswer u keys function_unreachable meta_partial cards
              (λ same. absurd (ground arith)) (ground arith)
        | inr e ↦
            answered_or_failed-IsAnswer u keys policy.response_field
              (host.ask_cards policy.card_function policy.request_field keys) cards (ground arith)
      ]

resolve_types-IsAnswer :
    (host : Host) (wanted : List (Text × List Text)) (cards : Cards)
    → resolve_types host wanted ≡ ok cards
    → IsAnswer wanted cards
unfolding resolve_types resolve_type card_for
resolve_types-IsAnswer host [] cards h =
    subst (IsAnswer []) (ok_inj h) (record { covers = λ s. refl; explained = tt })
resolve_types-IsAnswer host ((u, keys) ∷ wanted) cards h =
    joined-IsAnswer u keys wanted (resolve_type host u keys) (resolve_types host wanted) cards
      (resolve_under-IsAnswer host u keys (subject_policy host u))
      (resolve_types-IsAnswer host wanted) h

-- Where the cards of subjects are resolved, each subject that was asked for and has both halves is
-- answered, and no other; an answer carries a card or the reason why it has none, and is `ok` only
-- with a card.
pub resolve_cards_answers :
    (host : Host) (pairs : List Subject) (cards : Cards)
    → resolve_cards host pairs ≡ ok cards
    → ((s : Subject) → is_some (card_for s cards) ≡ any (λ q. is_named q && same_subject q s) pairs)
      × All (λ e. IsExplained e.1) cards
unfolding resolve_cards
resolve_cards_answers host pairs cards h =
    let answer = resolve_types-IsAnswer host (wanted_keys pairs) cards h in
    (λ s. answer.covers s ∙ wanted_keys-asked s pairs, answer.explained)
