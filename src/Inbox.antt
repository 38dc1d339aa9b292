-- ===== src/Inbox.antt =====
-- services.py, "The last line an inbox row draws" and its search half.
pub mod Agreement
use stapel_chat.Base.{
  Bool, List, Option, Text, [], any, before_code, codes, false, filter, has_code, has_infix,
  if◌then◌else◌, is_empty, is_some, last?, length, lookup, none, not, order_by, some, starts_with,
  strip, text_eq, ℕ, ◌&&◌, ◌++◌, ◌==◌, ◌||◌, ◌∷◌,
}
use stapel_chat.History.{is_visible}
use stapel_chat.Model.{Message, MessageKind, is_deleted, is_system}
use stapel_chat.Settings.{Host}
use stapel_chat.Values.{Json, get_field, obj, str, truthy}
use stapel_chat.World.{World}

-- `system_line_label`: the exact marker first, then the part before the colon; blank is none
abbrev non_blank : Option Text → Option Text
non_blank none = none
non_blank (some label) = if is_empty (strip label) then none else some (strip label)

unfoldable pub label_entry : List (Text × Text) → Text → Option Text
unfolding lookup has_code before_code
label_entry labels marker = elim (lookup marker labels) [
  | some label ↦ some label
  | none ↦ if has_code b':' marker then lookup (before_code b':' marker) labels else none
]

unfoldable pub system_line_label : Host → Text → Option Text
unfolding label_entry strip
system_line_label host body = non_blank (label_entry host.system_line_labels (strip body))

-- `drawn_last_line`
unfoldable pub drawn_last_line : Host → MessageKind → Text → Bool → Option Text
unfolding system_line_label
drawn_last_line host kind body deleted =
    if deleted
    then none
    else if is_system kind
    then system_line_label host body
    else non_blank (some body)

pub data Reason : Type 0 where
  reason_deleted reason_attachment reason_system : Reason

-- `last_line_reason`
unfoldable pub last_line_reason : Host → MessageKind → Text → Bool → Bool → Option Reason
unfolding system_line_label
last_line_reason host kind body deleted has_attachments =
    if deleted
    then some reason_deleted
    else if is_system kind
    then (if is_some (system_line_label host body) then none else some reason_system)
    else if is_empty (strip body)
    then (if has_attachments then some reason_attachment else none)
    else none

-- `raw.get("type") or "file"`, and `file` for what is no descriptor
unfoldable pub drawn_type : Json → Json
unfolding truthy get_field
drawn_type (obj d) =
    let kind = get_field (codes "type") d in if truthy kind then kind else str (codes "file")
drawn_type _ = str (codes "file")

abbrev same_json_text : Json → Json → Bool
same_json_text (str s) (str t) = text_eq s t
same_json_text _ _ = false

abbrev add_type : List Json → Json → List Json
add_type kinds kind = if any (same_json_text kind) kinds then kinds else kinds ++ kind ∷ []

unfoldable pub collect_types : List Json → List Json → List Json
unfolding drawn_type text_eq
collect_types kinds [] = kinds
collect_types kinds (a ∷ rest) = collect_types (add_type kinds (drawn_type a)) rest

-- `last_line_attachments`
unfoldable pub last_line_attachments : List Json → Bool → List Json × ℕ
unfolding collect_types
last_line_attachments attachments deleted =
    if deleted then ([], 0) else (collect_types [] attachments, length attachments)

-- `_last_line_q`: the SQL test of a row's last line, with `icontains` as a test on lowered text
abbrev label_matches : Host → Text → Text → Text × Text → Bool
label_matches host needle body (marker, label) =
    not (is_empty label)
    && (has_infix needle (host.lower label)
        && (text_eq body marker || starts_with (marker ++ b':' ∷ []) body))

unfoldable pub last_line_found : Host → Text → Message → Bool
unfolding has_infix starts_with text_eq
last_line_found host needle m =
    not (is_deleted m)
    && (is_some m.sender && has_infix (host.lower needle) (host.lower m.body)
        || is_system m.kind
          && any (label_matches host (host.lower needle) m.body) host.system_line_labels)

-- `last_message_of` and `_last_message_rows`: the newest by `seq` of the rows the viewer still has
unfoldable pub last_message_of : World → ℕ → Option ℕ → Option Message
unfolding is_visible
last_message_of w cid mark = last? (
    order_by (λ m. m.seq)
      (filter (λ (m : Message). m.conversation == cid && is_visible mark m) w.messages))
