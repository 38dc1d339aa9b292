-- ===== src/Attachments/Kept.antt =====
-- What the canonical form of an attachment leaves as its sender wrote it.
use stapel_chat.Attachments.{
  base_fields, canonical, fill_ext, fill_status, has_field, normalize_attachment, set_defaults,
  with_found_key, with_preview, with_type,
}
use stapel_chat.Base.{
  Bool-cases, List, Option, Text, [], ap, arith, codes, false, false≢true, has_text, inl, inr, none,
  refl, some, subst, sym, text_eq, text_eq_sound, true, ◌∙◌, ◌∷◌, ◌≡◌,
}
use stapel_chat.Settings.{AttachmentType, Host}
use stapel_chat.Values.{Fields, Json, end, field, get_field, is_null, null, obj, set_field, str}
use stapel_chat.World.{Result, err, ok, ok_inj}

-- The fields that `normalize_attachment` writes.
abbrev pub written_fields : List Text
written_fields =
    codes "key"
    ∷ codes "type"
    ∷ codes "preview_b64"
    ∷ codes "preview_kind"
    ∷ codes "ext"
    ∷ codes "meta_status"
    ∷ codes "meta_reason"
    ∷ []

set_field-other :
    (j k : Text) (v : Json) (d : Fields)
    → text_eq j k ≡ false
    → get_field k (set_field j v d) ≡ get_field k d
unfolding get_field set_field
set_field-other j k v end ne = rw ne refl
set_field-other j k v (field i w d) ne = elim (Bool-cases (text_eq i j)) [
  | inl e ↦ rw (e, ne, text_eq_sound i j e, ne) refl
  | inr e ↦ rw (e, set_field-other j k v d ne) refl
]

absent-get : (k : Text) (d : Fields) → has_field k d ≡ false → get_field k d ≡ null
unfolding get_field has_field
absent-get k end e = refl
absent-get k (field j v d) e = ground (arith, absent-get k d)

set_field-absent :
    (j k : Text) (d : Fields)
    → has_field j d ≡ false
    → get_field k (set_field j null d) ≡ get_field k d
unfolding get_field set_field has_field
set_field-absent j k end e = ground arith
set_field-absent j k (field i w d) e =
    let other : text_eq i j ≡ false = ground arith in
    let rest = set_field-absent j k d (ground arith) in rw other (ground (arith, rest))

set_defaults-get :
    (ks : List Text) (k : Text) (d : Fields) → get_field k (set_defaults ks d) ≡ get_field k d
unfolding set_defaults
set_defaults-get [] k d = refl
set_defaults-get (j ∷ ks) k d = elim (Bool-cases (has_field j d)) [
  | inl e ↦ rw e (set_defaults-get ks k d)
  | inr e ↦ rw e (set_defaults-get ks k (set_field j null d) ∙ set_field-absent j k d e)
]

-- A name that is in a list and one that is not are apart.
listed-apart :
    (name k : Text) (names : List Text)
    → has_text name names ≡ true
    → has_text k names ≡ false
    → text_eq name k ≡ false
listed-apart name k names here gone = elim (Bool-cases (text_eq name k)) [
  | inr ne ↦ ne
  | inl same ↦
      absurd (
        false≢true (sym gone ∙ ap (λ t. has_text t names) (sym (text_eq_sound name k same)) ∙ here))
]

module _ (k : Text) (other : has_text k written_fields ≡ false) where
  -- One written field leaves the others.
  kept-set :
      (name : Text) (v : Json) (d : Fields)
      → has_text name written_fields ≡ true
      → get_field k (set_field name v d) ≡ get_field k d
  kept-set name v d written =
      set_field-other name k v d (listed-apart name k written_fields written other)

  fill_ext-kept : (host : Host) (d : Fields) → get_field k (fill_ext host d) ≡ get_field k d
  unfolding fill_ext has_text text_eq
  fill_ext-kept host d = elim (Bool-cases (is_null (get_field (codes "ext") d))) [
    | inl e ↦ rw e (kept-set (codes "ext") _ d refl)
    | inr e ↦ rw e refl
  ]

  fill_status-kept : (d : Fields) → get_field k (fill_status d) ≡ get_field k d
  unfolding fill_status has_text text_eq
  fill_status-kept d = elim (Bool-cases (is_null (get_field (codes "meta_status") d))) [
    | inl e ↦ rw e (
        kept-set (codes "meta_reason") _ _ refl
        ∙ kept-set (codes "meta_status") (str (codes "missing")) d refl)
    | inr e ↦ rw e refl
  ]

  canonical-kept :
      (host : Host) (d : Fields) (key kind : Text) (spec : AttachmentType) (preview : Json)
      → get_field k (canonical host d key kind spec preview) ≡ get_field k d
  unfolding canonical has_text text_eq
  canonical-kept host d key kind spec preview =
      let keyed = set_field (codes "key") (str key) d in
      let named = set_field (codes "type") (str kind) keyed in
      let shown = set_field (codes "preview_b64") preview named in
      let filled = set_defaults base_fields shown in
      let drawn = set_field (codes "preview_kind") spec.preview_kind filled in
      fill_status-kept (fill_ext host drawn)
      ∙ fill_ext-kept host drawn
      ∙ kept-set (codes "preview_kind") spec.preview_kind filled refl
      ∙ set_defaults-get base_fields k shown
      ∙ kept-set (codes "preview_b64") preview named refl
      ∙ kept-set (codes "type") (str kind) keyed refl
      ∙ kept-set (codes "key") (str key) d refl

  with_preview-kept :
      (host : Host) (d out : Fields) (key : Text) (found : Text × AttachmentType) (r : Result Json)
      → with_preview host d key found r ≡ ok out
      → get_field k out ≡ get_field k d
  with_preview-kept host d out key (kind, spec) (ok preview) e =
      subst (λ o. get_field k o ≡ get_field k d) (ok_inj e)
        (canonical-kept host d key kind spec preview)
  with_preview-kept host d out key found (err x) e = absurd (ground arith)

  with_type-kept :
      (host : Host) (d out : Fields) (key : Text) (r : Result (Text × AttachmentType))
      → with_type host d key r ≡ ok out
      → get_field k out ≡ get_field k d
  with_type-kept host d out key (ok found) e = with_preview-kept host d out key found _ e
  with_type-kept host d out key (err x) e = absurd (ground arith)

  with_found_key-kept :
      (host : Host) (d out : Fields) (key : Option Text)
      → with_found_key host d key ≡ ok out
      → get_field k out ≡ get_field k d
  with_found_key-kept host d out none e = absurd (ground arith)
  with_found_key-kept host d out (some key) e = with_type-kept host d out key _ e

-- The canonical form of a descriptor keeps what its sender wrote in every field that it does not
-- write itself, a field that is missing and one that is null being alike.
pub normalize_attachment-kept :
    (host : Host) (d out : Fields) (k : Text)
    → has_text k written_fields ≡ false
    → normalize_attachment host (obj d) ≡ ok out
    → get_field k out ≡ get_field k d
unfolding normalize_attachment
normalize_attachment-kept host d out k other e = with_found_key-kept k other host d out _ e
