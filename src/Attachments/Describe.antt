-- ===== src/Attachments/Describe.antt =====
-- attachments.py, the second half: the CDN's snapshots, merged over the normalized descriptors.
use stapel_chat.Attachments.{attachment_type, base_fields, fill_ext, normalize_all}
use stapel_chat.Base.{
  Bool, List, Option, Text, [], codes, false, filter, has_text, if◌then◌else◌, length, lookup, ltb,
  map, none, not, some, suc, take, text_eq, zero, ℕ, ◌&&◌, ◌++◌, ◌||◌, ◌∷◌,
}
use stapel_chat.Settings.{AttachmentType, Host}
use stapel_chat.Values.{Fields, Json, end, field, get_field, is_null, obj, set_field, str}
use stapel_chat.World.{Result, err, invalid_attachment, ok}

abbrev describe_fields : List Text
describe_fields =
    codes "mime"
    ∷ codes "ext"
    ∷ codes "bytes"
    ∷ codes "width"
    ∷ codes "height"
    ∷ codes "aspect"
    ∷ codes "square"
    ∷ codes "animated"
    ∷ codes "duration_ms"
    ∷ codes "preview_b64"
    ∷ codes "preview_kind"
    ∷ codes "poster_url"
    ∷ codes "meta_status"
    ∷ codes "meta_reason"
    ∷ codes "variants"
    ∷ []

abbrev authoritative_nulls : List Text
authoritative_nulls =
    codes "duration_ms" ∷ codes "preview_b64" ∷ codes "preview_kind" ∷ codes "poster_url" ∷ []

-- One turn of the loop over `snapshot.items()`.
abbrev merge_field : Text → Json → Fields → Fields
merge_field k v out =
    if is_null v && not (has_text k authoritative_nulls)
    then out
    else if has_text k describe_fields || not (has_text k base_fields)
    then set_field k v out
    else out

unfoldable pub merge_fields : Fields → Fields → Fields
unfolding has_text set_field
merge_fields out end = out
merge_fields out (field k v snapshot) = merge_fields (merge_field k v out) snapshot

-- `_apply_snapshot`
unfoldable pub apply_snapshot : Host → Fields → Json → Fields
unfolding merge_fields fill_ext
apply_snapshot host d (obj snapshot) = fill_ext host (merge_fields d snapshot)
apply_snapshot host d _ = d

-- `_unresolved`
unfoldable pub unresolved : Fields → Fields
unfolding set_field
unresolved d =
    set_field (codes "meta_reason") (str (codes "unknown_ref"))
      (set_field (codes "meta_status") (str (codes "missing")) d)

abbrev text_of : Json → Text
text_of (str s) = s
text_of _ = []

abbrev is_media_type : Option AttachmentType → Bool
is_media_type none = false
is_media_type (some spec) = spec.is_media

abbrev is_describable : Host → Fields → Bool
is_describable host d = is_media_type (attachment_type host (text_of (get_field (codes "type") d)))

abbrev key_of : Fields → Text
key_of d = text_of (get_field (codes "key") d)

-- `list(dict.fromkeys(...))`
unfoldable pub distinct_texts : List Text → List Text → List Text
unfolding has_text
distinct_texts seen [] = []
distinct_texts seen (t ∷ ts) =
    let rest = distinct_texts (t ∷ seen) ts in if has_text t seen then rest else t ∷ rest

abbrev drop_page : ℕ → List Text → List Text
drop_page zero ts = ts
drop_page (suc n) [] = []
drop_page (suc n) (t ∷ ts) = drop_page n ts

abbrev pub describe_batch_limit : ℕ
describe_batch_limit = 50

abbrev joined :
    Option (List (Text × Json) × List Text)
    → Option (List (Text × Json) × List Text)
    → Option (List (Text × Json) × List Text)
joined none more = none
joined (some page) none = none
joined (some page) (some more) = some (more.0 ++ page.0, page.1 ++ more.1)

-- The pages of references, each one call; every page has a reference, so one round for each
-- reference is enough. A later page's snapshot of a key counts before an earlier one's.
unfoldable pub describe_pages : Host → ℕ → List Text → Option (List (Text × Json) × List Text)
describe_pages host fuel [] = some ([], [])
describe_pages host zero refs = none
describe_pages host (suc fuel) refs =
    let more = describe_pages host fuel (drop_page describe_batch_limit refs) in
    joined (host.describe_many (take describe_batch_limit refs)) more

-- What one attachment becomes once the CDN has answered.
unfoldable pub resolve : Host → List (Text × Json) → List Text → Fields → Fields
unfolding lookup has_text apply_snapshot unresolved
resolve host snapshots missing d = elim (lookup (key_of d) snapshots) [
  | some snapshot ↦ apply_snapshot host d snapshot
  | none ↦ if has_text (key_of d) missing then unresolved d else d
]

unfoldable pub describe_attachments : Host → List Fields → List Fields
unfolding describe_pages resolve distinct_texts attachment_type get_field
describe_attachments host ds =
    let refs = distinct_texts [] (map key_of (filter (is_describable host) ds)) in
    elim (describe_pages host (length refs) refs) [
      | none ↦ ds
      | some answer ↦ map (resolve host answer.0 answer.1) ds
    ]

abbrev enriched : Host → Result (List Fields) → Result (List Json)
enriched host (err e) = err e
enriched host (ok ds) = ok (
    map obj
      (if text_eq host.attachment_metadata (codes "cdn") then describe_attachments host ds else ds))

unfoldable pub prepare_attachments : Host → List Json → Result (List Json)
unfolding normalize_all describe_attachments text_eq
prepare_attachments host raws =
    if ltb host.max_attachments (length raws)
    then err invalid_attachment
    else enriched host (normalize_all host raws)
