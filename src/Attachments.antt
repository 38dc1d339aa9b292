-- ===== src/Attachments.antt =====
-- attachments.py: from what a sender attached to the descriptors a message stores.
pub mod Describe
pub mod Kept
use stapel_chat.Base.{
  Bool, List, Option, Text, [], codes, false, if◌then◌else◌, is_empty, lookup, ltb, none, not, some,
  starts_with, strip, text_eq, true, ℕ, ◌+◌, ◌||◌, ◌∷◌,
}
use stapel_chat.Registry.{effective}
use stapel_chat.Settings.{AttachmentType, Host}
use stapel_chat.Values.{
  Fields, Json, arr, end, field, get_field, is_null, null, obj, set_field, str, truthy,
}
use stapel_chat.World.{Result, err, invalid_attachment, ok, type_error, unknown_attachment_type}

abbrev pub base_fields : List Text
base_fields =
    codes "key"
    ∷ codes "type"
    ∷ codes "mime"
    ∷ codes "bytes"
    ∷ codes "name"
    ∷ codes "ext"
    ∷ codes "width"
    ∷ codes "height"
    ∷ codes "aspect"
    ∷ codes "square"
    ∷ codes "animated"
    ∷ codes "duration_ms"
    ∷ codes "preview_b64"
    ∷ codes "preview_kind"
    ∷ codes "poster_url"
    ∷ codes "meta_status"
    ∷ codes "meta_reason"
    ∷ codes "variants"
    ∷ []

abbrev blur : Json
blur = str (codes "blur")

abbrev pub builtin_attachment_types : List (Text × Option AttachmentType)
builtin_attachment_types =
    (codes "image", some (record { preview_kind = blur; is_media = true }))
    ∷ (codes "gif", some (record { preview_kind = blur; is_media = true }))
    ∷ (codes "video", some (record { preview_kind = str (codes "poster"); is_media = true }))
    ∷ (codes "audio", some (record { preview_kind = str (codes "waveform"); is_media = true }))
    ∷ (codes "file", some (record { preview_kind = null; is_media = true }))
    ∷ []

-- `get_attachment_types().get(name)`
unfoldable pub attachment_type : Host → Text → Option AttachmentType
unfolding lookup effective
attachment_type host name =
    lookup name
      (effective builtin_attachment_types host.attachment_types host.runtime_attachment_types)

-- `len(s.encode("utf-8"))`
unfoldable pub utf8_length : Text → ℕ
utf8_length [] = 0
utf8_length (c ∷ cs) =
    (if ltb c 128 then 1 else if ltb c 2048 then 2 else if ltb c 65536 then 3 else 4)
    + utf8_length cs

-- `_check_data_uri`
unfoldable pub check_data_uri : ℕ → Json → Result Json
unfolding starts_with utf8_length
check_data_uri limit null = ok null
check_data_uri limit (str s) =
    if not (starts_with (codes "data:image/") s)
    then err invalid_attachment
    else if ltb limit (utf8_length s)
    then err invalid_attachment
    else ok (str s)
check_data_uri limit _ = err invalid_attachment

-- `name in d`
unfoldable pub has_field : Text → Fields → Bool
unfolding text_eq
has_field k end = false
has_field k (field j v d) = text_eq j k || has_field k d

-- `for field in BASE_FIELDS: out.setdefault(field, None)`
unfoldable pub set_defaults : List Text → Fields → Fields
unfolding has_field set_field
set_defaults [] d = d
set_defaults (k ∷ ks) d = set_defaults ks (if has_field k d then d else set_field k null d)

-- The bare-string form of an attachment, the descriptor, and anything else.
abbrev pub as_descriptor : Json → Option Fields
as_descriptor (str s) =
    some (field (codes "key") (str s) (field (codes "type") (str (codes "file")) end))
as_descriptor (obj d) = some d
as_descriptor _ = none

-- A `key` that is a string with something in it, stripped.
unfoldable pub usable_key : Json → Option Text
unfolding strip
usable_key (str s) = if is_empty (strip s) then none else some (strip s)
usable_key _ = none

-- `kind not in get_attachment_types()`: a list or an object cannot be hashed.
unfoldable pub find_type : Host → Json → Result (Text × AttachmentType)
unfolding attachment_type truthy
find_type host raw = elim (if truthy raw then raw else str (codes "file")) [
  | str s ↦ elim (attachment_type host s) [
    | none ↦ err unknown_attachment_type
    | some spec ↦ ok (s, spec)
  ]
  | arr js ↦ err type_error
  | obj d ↦ err type_error
  | _ ↦ err unknown_attachment_type
]

-- `if out.get("ext") is None: out["ext"] = _guess_ext(...)`
unfoldable pub fill_ext : Host → Fields → Fields
unfolding get_field set_field
fill_ext host d =
    if is_null (get_field (codes "ext") d)
    then set_field (codes "ext")
        (host.guess_extension (get_field (codes "name") d) (get_field (codes "mime") d)) d
    else d

unfoldable pub fill_status : Fields → Fields
unfolding get_field set_field truthy
fill_status d =
    let reason = get_field (codes "meta_reason") d in
    if is_null (get_field (codes "meta_status") d)
    then set_field (codes "meta_reason")
        (if truthy reason then reason else str (codes "not_described"))
        (set_field (codes "meta_status") (str (codes "missing")) d)
    else d

-- The canonical descriptor, once its key, its type and its preview have been accepted.
unfoldable pub canonical : Host → Fields → Text → Text → AttachmentType → Json → Fields
unfolding set_field set_defaults fill_ext fill_status
canonical host d key kind spec preview =
    let named = set_field (codes "type") (str kind) (set_field (codes "key") (str key) d) in
    let filled = set_defaults base_fields (set_field (codes "preview_b64") preview named) in
    fill_status (fill_ext host (set_field (codes "preview_kind") spec.preview_kind filled))

abbrev pub with_preview : Host → Fields → Text → Text × AttachmentType → Result Json → Result Fields
with_preview host d key (kind, spec) (ok preview) = ok (canonical host d key kind spec preview)
with_preview host d key found (err e) = err e

abbrev pub with_type : Host → Fields → Text → Result (Text × AttachmentType) → Result Fields
with_type host d key (ok found) =
    with_preview host d key found
      (check_data_uri host.max_preview_bytes (get_field (codes "preview_b64") d))
with_type host d key (err e) = err e

abbrev pub with_found_key : Host → Fields → Option Text → Result Fields
with_found_key host d none = err invalid_attachment
with_found_key host d (some key) =
    with_type host d key (find_type host (get_field (codes "type") d))

unfoldable pub normalize_attachment : Host → Json → Result Fields
unfolding usable_key find_type check_data_uri canonical get_field
normalize_attachment host raw = elim (as_descriptor raw) [
  | none ↦ err invalid_attachment
  | some d ↦ with_found_key host d (usable_key (get_field (codes "key") d))
]

unfoldable pub normalize_all : Host → List Json → Result (List Fields)
unfolding normalize_attachment
normalize_all host [] = ok []
normalize_all host (raw ∷ raws) =
    let rest = normalize_all host raws in
    elim (normalize_attachment host raw) [
      | err e ↦ err e
      | ok d ↦ elim rest [ err e ↦ err e | ok ds ↦ ok (d ∷ ds) ]
    ]
