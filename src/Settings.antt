-- ===== src/Settings.antt =====
-- conf.py: the settings the modelled services read, and what the host and the other services
-- answer. Those answers are code outside this repository, so they are fields of `Host`: the text
-- of a primary key, the block store and the CDN behind the bus, the guessing of file extensions.
use stapel_chat.Base.{Bool, List, Option, Text, ℕ}
use stapel_chat.Model.{ConversationKind}
use stapel_chat.Values.{Json}

-- A registered attachment type: `preview_kind`, and whether its reference resolves to media.
pub record AttachmentType : Type 0 where
  pub preview_kind : Json
  pub is_media : Bool

-- A registered activity state: its `ttl_s`, where it declares one.
pub record ActivityState : Type 0 where
  pub ttl_s : Option ℕ

-- A registered subject type, as far as it says something.
pub record SubjectSpec : Type 0 where
  pub card_function : Option Text
  pub request_field : Option Text
  pub response_field : Option Text
  pub search_fields : Option (List Text)

pub record Host : Type 0 where
  pub attachment_types : List (Text × Option AttachmentType)
  pub runtime_attachment_types : List (Text × Option AttachmentType)
  pub activity_states : List (Text × Option ActivityState)
  pub runtime_activity_states : List (Text × Option ActivityState)
  pub subject_types : List (Text × Option SubjectSpec)
  pub runtime_subject_types : List (Text × Option SubjectSpec)
  pub chat_kinds : List ConversationKind
  pub search_name_fields : List Text
  pub search_subject_scan : ℕ
  pub attachments_enabled : Bool
  pub max_body_length : ℕ
  pub max_attachments : ℕ
  pub max_preview_bytes : ℕ
  pub attachment_metadata : Text
  pub edit_window : ℕ
  pub system_line_labels : List (Text × Text)
  pub block_enforcement : Text
  pub block_function : Text
  pub presence_ttl : ℕ
  pub presence_throttle : ℕ
  pub presence_fanout_limit : ℕ
  pub presence_requires_account : Bool
  -- `str(pk)`
  pub spell : ℕ → Text
  -- `str.lower`
  pub lower : Text → Text
  -- `_guess_ext`'s library calls, on the name and the mime type of an attachment
  pub guess_extension : Json → Json → Json
  -- `function_unreachable_reason(name)` is blank
  pub is_reachable : Text → Bool
  -- `call(BLOCK_FUNCTION, {"pairs": ...})`; `none` where it raises
  pub ask_blocked : List (ℕ × ℕ) → Option (List (ℕ × ℕ))
  -- `call("cdn.describe_many", {"refs": ...})`: the snapshots and the missing references
  pub describe_many : List Text → Option (List (Text × Json) × List Text)
  -- the users that are guest sessions
  pub is_guest : ℕ → Bool
  -- the key that a value names in a query; `none` where Django refuses the value
  pub read_id : Json → Option (Option ℕ)
  -- `str(value)`
  pub text_of : Json → Text
  -- `max(0, int(value))`; `none` where `int` raises
  pub read_int : Json → Option ℕ
  -- the users that have a row
  pub has_user : ℕ → Bool
  -- `str.casefold`
  pub casefold : Text → Text
  -- `user__{path}__icontains=needle` on the row of a user
  pub user_matches : Text → Text → ℕ → Bool
  -- `call(card_function, {request_field: keys})`; `none` where it raises
  pub ask_cards : Text → Text → List Text → Option Json
  -- Django's `Truncator(text).chars(limit)`
  pub truncate : ℕ → Text → Text
  -- `uuid.UUID(text)`; `none` where it raises
  pub read_uuid : Text → Option ℕ
