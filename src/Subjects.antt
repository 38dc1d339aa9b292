-- ===== src/Subjects.antt =====
-- subjects.py: what a conversation is about. The registry of subject types, the cards that their
-- owners render, and the match of a card in a search. A resolution that has no card says why.
pub mod Coverage
use stapel_chat.Base.{
  Bool, List, Option, Text, [], any, codes, false, has_infix, if◌then◌else◌, is_empty, is_some,
  lookup, ltb, none, not, some, strip, text_eq, true, ◌&&◌, ◌++◌, ◌==◌, ◌||◌, ◌∷◌,
}
use stapel_chat.Merging.{folded}
use stapel_chat.Registry.{effective, put}
use stapel_chat.Settings.{Host, SubjectSpec}
use stapel_chat.Values.{Fields, Json, end, get_field, is_null, null, obj, str, truthy}
use stapel_chat.World.{Result, attribute_error, err, ok}

-- `POLICY_DEFAULTS`, filled with what a registration says
pub record SubjectPolicy : Type 0 where
  pub card_function : Text
  pub request_field : Text
  pub response_field : Text
  pub search_fields : List Text

abbrev or_default {ℓ} : {A : Type ℓ} → A → Option A → A
or_default a none = a
or_default a (some b) = b

abbrev pub default_search_fields : List Text
default_search_fields = codes "title" ∷ []

abbrev complete_policy : SubjectSpec → SubjectPolicy
complete_policy spec = record {
  card_function = or_default [] spec.card_function;
  request_field = or_default (codes "keys") spec.request_field;
  response_field = or_default (codes "cards") spec.response_field;
  search_fields = or_default default_search_fields spec.search_fields;
}

-- `register_subject_type`, on the runtime layer: `none` where it raises `InvalidSubjectPolicy`
abbrev has_function : SubjectSpec → Bool
has_function spec = not (is_empty (strip (or_default [] spec.card_function)))

unfoldable pub register_subject_type :
    Text
    → Option SubjectSpec
    → List (Text × Option SubjectSpec)
    → Option (List (Text × Option SubjectSpec))
unfolding put strip
register_subject_type name none runtime = some (put name none runtime)
register_subject_type name (some spec) runtime =
    if has_function spec then some (put name (some spec) runtime) else none

-- `get_subject_types().get(name)`: the builtins are empty
unfoldable pub subject_policy : Host → Text → Option SubjectPolicy
unfolding lookup effective
subject_policy host name =
    elim (lookup name (effective [] host.subject_types host.runtime_subject_types)) [
      | none ↦ none
      | some spec ↦ some (complete_policy spec)
    ]

-- `resolve_subject_type` does not raise
unfoldable pub is_registered : Host → Text → Bool
unfolding subject_policy
is_registered host name = is_some (subject_policy host name)

pub data MetaStatus : Type 0 where
  meta_ok meta_partial meta_missing : MetaStatus

pub data CardReason : Type 0 where
  type_unregistered function_unreachable function_failed card_missing : CardReason

-- `{"card", "meta_status", "meta_reason"}`
pub record Resolution : Type 0 where
  pub card : Json
  pub meta_status : MetaStatus
  pub meta_reason : Option CardReason

abbrev pub empty_card : CardReason → MetaStatus → Resolution
empty_card reason status = record { card = null; meta_status = status; meta_reason = some reason }

abbrev pub Subject : Type 0
Subject = Text × Text

abbrev pub same_subject : Subject → Subject → Bool
same_subject (t, k) (u, l) = text_eq t u && text_eq k l

-- Both halves are there.
abbrev pub is_named : Subject → Bool
is_named (t, k) = not (is_empty t) && not (is_empty k)

-- `a < b` on strings
unfoldable pub text_before : Text → Text → Bool
text_before [] [] = false
text_before [] (y ∷ ys) = true
text_before (x ∷ xs) [] = false
text_before (x ∷ xs) (y ∷ ys) = if x == y then text_before xs ys else ltb x y

-- A set of strings, in the order in which `sorted` lists it.
unfoldable pub insert_key : Text → List Text → List Text
unfolding text_eq text_before
insert_key k [] = k ∷ []
insert_key k (j ∷ ks) =
    let rest = insert_key k ks in
    if text_eq k j then j ∷ ks else if text_before k j then k ∷ j ∷ ks else j ∷ rest

-- `wanted.setdefault(subject_type, set()).add(subject_key)`
unfoldable pub want : Subject → List (Text × List Text) → List (Text × List Text)
unfolding text_eq insert_key
want (t, k) [] = (t, k ∷ []) ∷ []
want (t, k) ((u, keys) ∷ wanted) =
    let rest = want (t, k) wanted in
    if text_eq u t then (u, insert_key k keys) ∷ wanted else (u, keys) ∷ rest

unfoldable pub wanted_keys : List Subject → List (Text × List Text)
unfolding want
wanted_keys [] = []
wanted_keys (s ∷ pairs) = let rest = wanted_keys pairs in if is_named s then want s rest else rest

abbrev pub Cards : Type 0
Cards = List (Subject × Resolution)

abbrev pub resolve_each : Text → (Text → Resolution) → List Text → Cards
resolve_each t answer [] = []
resolve_each t answer (k ∷ keys) = ((t, k), answer k) ∷ resolve_each t answer keys

-- `(answer or {}).get(response_field) or {}`, and no cards where that is no dict; an answer that
-- has no `get` raises
unfoldable pub cards_in : Text → Json → Result Fields
unfolding get_field truthy
cards_in name answer = if not (truthy answer) then ok end else elim answer [
  | obj d ↦ elim (get_field name d) [ obj cards ↦ ok cards | _ ↦ ok end ]
  | _ ↦ err attribute_error
]

unfoldable pub card_of : Fields → Text → Resolution
unfolding get_field
card_of cards k =
    let card = get_field k cards in
    if is_null card
    then empty_card card_missing meta_partial
    else record { card = card; meta_status = meta_ok; meta_reason = none }

abbrev pub answered : Text → List Text → Result Fields → Result Cards
answered t keys (err e) = err e
answered t keys (ok cards) = ok (resolve_each t (card_of cards) keys)

abbrev pub answered_or_failed : Text → List Text → Text → Option Json → Result Cards
answered_or_failed t keys name none =
    ok (resolve_each t (λ k. empty_card function_failed meta_partial) keys)
answered_or_failed t keys name (some answer) = answered t keys (cards_in name answer)

abbrev pub resolve_under : Host → Text → List Text → Option SubjectPolicy → Result Cards
resolve_under host t keys none =
    ok (resolve_each t (λ k. empty_card type_unregistered meta_missing) keys)
resolve_under host t keys (some policy) =
    if is_empty policy.card_function || not (host.is_reachable policy.card_function)
    then ok (resolve_each t (λ k. empty_card function_unreachable meta_partial) keys)
    else answered_or_failed t keys policy.response_field
        (host.ask_cards policy.card_function policy.request_field keys)

-- The cards of one subject type: one call for all its keys.
unfoldable pub resolve_type : Host → Text → List Text → Result Cards
unfolding subject_policy cards_in card_of
resolve_type host t keys = resolve_under host t keys (subject_policy host t)

abbrev pub join_cards : Result Cards → Result Cards → Result Cards
join_cards (err e) rest = err e
join_cards (ok cards) (err e) = err e
join_cards (ok cards) (ok more) = ok (cards ++ more)

unfoldable pub resolve_types : Host → List (Text × List Text) → Result Cards
unfolding resolve_type
resolve_types host [] = ok []
resolve_types host ((t, keys) ∷ wanted) =
    let rest = resolve_types host wanted in join_cards (resolve_type host t keys) rest

-- `resolve_cards`
unfoldable pub resolve_cards : Host → List Subject → Result Cards
unfolding resolve_types wanted_keys
resolve_cards host pairs = resolve_types host (wanted_keys pairs)

-- `resolved.get((type, key))`
unfoldable pub card_for : Subject → Cards → Option Resolution
unfolding text_eq
card_for s [] = none
card_for s ((t, r) ∷ cards) = if same_subject t s then some r else card_for s cards

-- A field of the card that is a string and has the folded needle in it.
abbrev field_matches : Host → Text → Fields → Text → Bool
field_matches host folded card name = elim (get_field name card) [
  | str s ↦ has_infix folded (host.casefold s)
  | _ ↦ false
]

unfoldable pub searched_fields : Host → Text → List Text
unfolding subject_policy
searched_fields host t = elim (subject_policy host t) [
  | none ↦ default_search_fields
  | some policy ↦ elim policy.search_fields [
    | [] ↦ default_search_fields
    | name ∷ names ↦ name ∷ names
  ]
]

-- `card_matches`
unfoldable pub card_matches : Host → Text → Json → Text → Bool
unfolding get_field has_infix searched_fields
card_matches host t (obj card) needle =
    not (is_empty needle)
    && any (field_matches host (host.casefold needle) card) (searched_fields host t)
card_matches host t _ needle = false
