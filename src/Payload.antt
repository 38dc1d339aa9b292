-- ===== src/Payload.antt =====
-- consumers.py, how a handler reads the payload of a frame, which is whatever the client sent, and
-- how it answers.
use stapel_chat.Base.{
  List, Option, Text, [], find?, if◌then◌else◌, map, none, not, some, strip, ℕ, ◌&&◌, ◌==◌, ◌∷◌,
}
use stapel_chat.Model.{Message}
use stapel_chat.Settings.{Host}
use stapel_chat.Values.{Fields, Items, Json, arr, cons, end, field, nil, obj, str, truthy}
use stapel_chat.World.{
  Error, Exec, Result, World, attribute_error, err, ok, type_error, value_error,
}

pub data Code : Type 0 where
  code_empty code_too_long code_attachments_disabled code_invalid_attachment : Code
  code_unknown_attachment_type code_invalid_reply code_not_found code_not_author : Code
  code_not_editable code_deleted code_unknown_activity code_send_refused : Code
  code_unavailable code_bad_envelope : Code

-- `except`: the errors that a handler names, and the code it answers with
abbrev pub answering : {A : Type 0} → (Error → Option Code) → Exec A → Exec (Option Code)
answering named m w =
    let (r, v) = m w in
    elim r [
      | ok a ↦ (ok none, v)
      | err e ↦ elim (named e) [ some coded ↦ (ok (some coded), v) | none ↦ (err e, v) ]
    ]

-- `(payload.get("body") or "").strip()`
unfoldable pub read_body : Json → Result Text
unfolding truthy strip
read_body v =
    if not (truthy v) then ok [] else elim v [ str s ↦ ok (strip s) | _ ↦ err attribute_error ]

abbrev items_of : Items → List Json
items_of nil = []
items_of (cons v vs) = v ∷ items_of vs

abbrev keys_of : Fields → List Json
keys_of end = []
keys_of (field k v d) = str k ∷ keys_of d

-- `list(payload.get("attachments") or [])`
unfoldable pub read_list : Json → Result (List Json)
unfolding truthy
read_list v = if not (truthy v) then ok [] else elim v [
  | arr vs ↦ ok (items_of vs)
  | obj d ↦ ok (keys_of d)
  | str s ↦ ok (map (λ (c : ℕ). str (c ∷ [])) s)
  | _ ↦ err type_error
]

-- `Message.objects.filter(pk=..., conversation_id=...).first()`
unfoldable pub find_message : Host → ℕ → Json → World → Result (Option Message)
find_message host cid v w = elim (host.read_id v) [
  | none ↦ err value_error
  | some none ↦ ok none
  | some (some k) ↦ ok (find? (λ (m : Message). m.id == k && m.conversation == cid) w.messages)
]
