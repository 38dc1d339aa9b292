-- ===== src/Model.antt =====
-- models.py: the four tables, their choices and the canonical key of a direct thread.
-- An id is a UUID, read as the number it spells (its text orders and compares as the number does);
-- an instant is a number; a nullable column is an `Option`, and a blank choice is one too.
use stapel_chat.Base.{
  Bool, List, Option, Text, false, if◌then◌else◌, is_empty, is_some, leb, true, ℕ, ◌&&◌, ◌++◌, ◌∷◌,
}
use stapel_chat.Values.{Json}

pub data ConversationKind : Type 0 where
  direct group support : ConversationKind

pub data SupportStatus : Type 0 where
  status_open status_pending status_resolved : SupportStatus

pub data ParticipantRole : Type 0 where
  member operator : ParticipantRole

pub data MessageKind : Type 0 where
  text_kind system_kind : MessageKind

pub record Conversation : Type 0 where
  pub id : ℕ
  pub kind : ConversationKind
  pub scope_key : Text
  pub direct_key : Text
  pub subject_type : Text
  pub subject_key : Text
  pub last_seq : ℕ
  pub support_status : Option SupportStatus
  pub assigned_operator : Option ℕ
  pub created_at : ℕ
  pub updated_at : ℕ

pub record Participant : Type 0 where
  pub id : ℕ
  pub conversation : ℕ
  pub user : ℕ
  pub role : ParticipantRole
  pub last_read_seq : ℕ
  pub last_delivered_seq : ℕ
  pub left_at : Option ℕ
  pub cleared_at : Option ℕ
  pub created_at : ℕ
  pub updated_at : ℕ

pub record UserPresence : Type 0 where
  pub user : ℕ
  pub connections : ℕ
  pub online_until : Option ℕ
  pub last_seen_at : Option ℕ

pub record Message : Type 0 where
  pub id : ℕ
  pub conversation : ℕ
  pub sender : Option ℕ
  pub seq : ℕ
  pub rev_seq : ℕ
  pub kind : MessageKind
  pub body : Text
  pub reply_to : Option ℕ
  pub attachments : List Json
  pub client_msg_id : Text
  pub edited_at : Option ℕ
  pub deleted_at : Option ℕ
  pub created_at : ℕ

abbrev pub is_direct : ConversationKind → Bool
is_direct direct = true
is_direct group = false
is_direct support = false

abbrev pub is_support : ConversationKind → Bool
is_support direct = false
is_support group = false
is_support support = true

abbrev pub is_system : MessageKind → Bool
is_system text_kind = false
is_system system_kind = true

-- `Message.is_deleted`
abbrev pub is_deleted : Message → Bool
is_deleted m = is_some m.deleted_at

-- `Message.is_edited`
abbrev pub is_edited : Message → Bool
is_edited m = is_some m.edited_at

-- The unit separator `\x1f`.
abbrev pub separator : ℕ
separator = 31

-- The segment that spells an id: `spell` is `str` of a primary key.
-- `_direct_key`: `sorted` puts the two ids in order; the subject's segments stand only with one.
unfoldable pub direct_key_of : (ℕ → Text) → Text → ℕ → ℕ → Text → Text → Text
direct_key_of spell scope user_a user_b subject_type subject_key =
    let a = if leb user_a user_b then user_a else user_b in
    let b = if leb user_a user_b then user_b else user_a in
    let key = scope ++ separator ∷ spell a ++ separator ∷ spell b in
    if is_empty subject_type && is_empty subject_key
    then key
    else key ++ separator ∷ subject_type ++ separator ∷ subject_key
