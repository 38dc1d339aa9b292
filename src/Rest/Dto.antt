-- ===== src/Rest/Dto.antt =====
-- dto.py, the responses: what the handlers answer with.
use stapel_chat.Base.{Bool, List, Option, Text, ℕ}
use stapel_chat.Inbox.{Reason}
use stapel_chat.Model.{ConversationKind, MessageKind, ParticipantRole, SupportStatus}
use stapel_chat.Subjects.{CardReason, MetaStatus}
use stapel_chat.Values.{Json}

pub record ParticipantResponse : Type 0 where
  pub user_id : ℕ
  pub role : ParticipantRole
  pub last_read_seq : ℕ
  pub last_delivered_seq : ℕ
  pub online : Bool
  pub last_seen_at : Option ℕ
  pub online_until : Option ℕ
  pub left_at : Option ℕ

pub record AttachmentResponse : Type 0 where
  pub key : Json
  pub type_name : Json
  pub mime : Json
  pub bytes : Json
  pub name : Json
  pub ext : Json
  pub width : Json
  pub height : Json
  pub aspect : Json
  pub square : Json
  pub animated : Json
  pub duration_ms : Json
  pub preview_b64 : Json
  pub preview_kind : Json
  pub poster_url : Json
  pub meta_status : Json
  pub meta_reason : Json
  pub variants : List Json

pub record MessageResponse : Type 0 where
  pub id : ℕ
  pub conversation_id : ℕ
  pub seq : ℕ
  pub rev_seq : ℕ
  pub kind : MessageKind
  pub body : Text
  pub created_at : ℕ
  pub sender_id : Option ℕ
  pub reply_to : Option ℕ
  pub attachments : List AttachmentResponse
  pub client_msg_id : Option Text
  pub edited : Bool
  pub edited_at : Option ℕ
  pub deleted : Bool
  pub deleted_at : Option ℕ

pub record SubjectResponse : Type 0 where
  pub type_name : Text
  pub key : Text
  pub card : Json
  pub meta_status : MetaStatus
  pub meta_reason : Option CardReason

pub record LastMessageResponse : Type 0 where
  pub seq : ℕ
  pub kind : MessageKind
  pub created_at : ℕ
  pub sender_id : Option ℕ
  pub body_preview : Option Text
  pub preview_reason : Option Reason
  pub attachment_types : List Json
  pub attachment_count : ℕ

pub record ConversationResponse : Type 0 where
  pub id : ℕ
  pub kind : ConversationKind
  pub scope_key : Text
  pub support_status : Option SupportStatus
  pub last_seq : ℕ
  pub unread_count : ℕ
  pub created_at : ℕ
  pub updated_at : ℕ
  pub stream_key : Text
  pub socket_path : Text
  pub assigned_operator_id : Option ℕ
  pub subject : Option SubjectResponse
  pub last_message : Option LastMessageResponse
  pub participants : List ParticipantResponse
  pub left_at : Option ℕ
  pub cleared_at : Option ℕ
