-- ===== src/Rest.antt =====
-- views.py and errors.py, what the HTTP handlers share: the answer and its error keys, the requests
-- they read, and the guards on the conversation and on the caller. A serializer and a paginator are
-- the framework's; `none` is a request that the serializer refuses.
pub mod Dto
pub mod Mappers
pub mod Threads
pub mod Messages
pub mod Desk
pub mod Urls
pub mod Runs
pub mod Guards
pub mod Rendering
pub mod Closing
use stapel_chat.Base.{
  Bool, List, Option, Text, [], any, codes, filter, find?, has_text, lookup, none, not, some, strip,
  ℕ, ◌==◌, ◌||◌, ◌∷◌,
}
use stapel_chat.Membership.{is_member}
use stapel_chat.Model.{
  Conversation, ConversationKind, Message, Participant, direct, group, is_direct, is_support,
  support,
}
use stapel_chat.Rest.Dto.{MessageResponse}
use stapel_chat.Scope.{Request, ScopeProvider}
use stapel_chat.Settings.{Host}
use stapel_chat.Values.{Json}
use stapel_chat.World.{
  Error, Exec, Result, World, err, gets, mandate_unavailable, ok, pure, raise, validation_error,
  ◌>>=◌,
}

-- errors.py
pub data ErrorKey : Type 0 where
  invalid_kind kind_disabled empty_message body_too_long attachments_disabled : ErrorKey
  invalid_direct subject_type_unknown subject_incomplete reply_invalid : ErrorKey
  attachment_invalid attachment_type_unknown activity_unknown : ErrorKey
  message_deleted_key not_editable_key not_participant not_operator not_author_key : ErrorKey
  conversation_missing message_missing assigned_already : ErrorKey
  send_refused_key blocks_unavailable : ErrorKey

-- `StapelErrorResponse(status, key)` and `StapelResponse(data, status)`
pub data Reply (A : Type 0) : Type 0 where
  error_reply : ℕ → ErrorKey → Reply A
  data_reply : ℕ → A → Reply A

-- The request dataclasses of dto.py, with their defaults filled in.
pub record CreateConversationRequest : Type 0 where
  pub kind : Text
  pub participant_ids : List ℕ
  pub subject_type : Text
  pub subject_key : Text

pub record SendMessageRequest : Type 0 where
  pub body : Text
  pub attachments : List Json
  pub reply_to : Text
  pub client_msg_id : Text

pub record EditMessageRequest : Type 0 where
  pub body : Text

pub record MarkReadRequest : Type 0 where
  pub upto_seq : ℕ
  pub delivered_upto_seq : ℕ

pub record ActivityRequest : Type 0 where
  pub state : Text

-- The class attributes of a paginator; an `ordering` of none is the base class's.
pub record Pagination (A : Type 0) : Type 0 where
  pub anchor : A → ℕ
  pub descending : Option Bool
  pub page_size : ℕ
  pub max_page_size : ℕ

pub record Framework : Type 0 where
  pub read_create : Json → Option CreateConversationRequest
  pub read_send : Json → Option SendMessageRequest
  pub read_edit : Json → Option EditMessageRequest
  pub read_mark : Json → Option MarkReadRequest
  pub read_activity : Json → Option ActivityRequest
  -- the error that `.data` of a message's serializer raises, if it does
  pub rendering_error : MessageResponse → Option Error
  -- `paginate_queryset`
  pub page_messages : Pagination Message → Request → List Message → List Message
  pub page_threads : Pagination Conversation → Request → List Conversation → List Conversation

abbrev pub respond : {A : Type 0} → ℕ → A → Exec (Reply A)
respond status a = pure (data_reply status a)

abbrev pub respond_error : {A : Type 0} → ℕ → ErrorKey → Exec (Reply A)
respond_error status key = pure (error_reply status key)

-- `is_valid(raise_exception=True)`
abbrev pub with_validated : {A B : Type 0} → Option A → (A → Exec B) → Exec B
with_validated none k = raise validation_error
with_validated (some a) k = k a

-- `except`: the errors that a view names, and its answer to them
abbrev pub catching :
    {A B : Type 0}
    → (Error → Option (ℕ × ErrorKey))
    → (A → Exec (Reply B))
    → Result A × World
    → Result (Reply B) × World
catching named k (ok a, w) = k a w
catching named k (err e, w) = elim (named e) [
  | some (status, key) ↦ (ok (error_reply status key), w)
  | none ↦ (err e, w)
]

abbrev pub replying :
    {A B : Type 0}
    → (Error → Option (ℕ × ErrorKey))
    → Exec A
    → (A → Exec (Reply B))
    → Exec (Reply B)
replying named m k w = catching named k (m w)

-- `_flag`: `_TRUTHY` is what says yes
abbrev pub truthy_spellings : List Text
truthy_spellings = codes "true" ∷ codes "1" ∷ codes "yes" ∷ codes "on" ∷ []

abbrev pub query_param : Text → Request → Text
query_param name request = elim (lookup name request.query) [ none ↦ [] | some t ↦ t ]

unfoldable pub query_flag : Host → Request → Text → Bool
unfolding lookup strip has_text
query_flag host request name =
    has_text (host.lower (strip (query_param name request))) truthy_spellings

abbrev same_kind : ConversationKind → ConversationKind → Bool
same_kind direct k = is_direct k
same_kind group k = not (is_direct k || is_support k)
same_kind support k = is_support k

abbrev pub is_enabled : Host → ConversationKind → Bool
is_enabled host kind = any (same_kind kind) host.chat_kinds

-- `_support_enabled`
abbrev pub support_enabled : Host → Bool
support_enabled host = is_enabled host support

-- `_may_operate`
abbrev pub authority : Option Bool → Exec Bool
authority none = raise mandate_unavailable
authority (some b) = pure b

abbrev pub may_operate : ScopeProvider → Request → Option Conversation → Exec Bool
may_operate scope request c = authority (scope.can_operate request c)

-- `_scoped`
abbrev pub scoped : ScopeProvider → Request → World → List Conversation
scoped scope request w = filter (scope.admits request) w.conversations

-- `_get_conversation`
unfoldable pub scoped_conversation : ScopeProvider → Request → ℕ → World → Option Conversation
scoped_conversation scope request cid w =
    find? (λ (c : Conversation). c.id == cid) (scoped scope request w)

-- `_my_participant`
unfoldable pub my_participant : ℕ → Conversation → World → Option Participant
my_participant user c w = find? (is_member c.id user) w.participants

module _ {A : Type 0} (scope : ScopeProvider) (request : Request) where
  abbrev pub party_or_refuse :
      (Conversation → Participant → Exec (Reply A))
      → Conversation
      → Option Participant
      → Exec (Reply A)
  party_or_refuse k c none = respond_error 403 not_participant
  party_or_refuse k c (some p) = k c p

  abbrev pub found_or_refuse :
      (Conversation → Participant → Exec (Reply A)) → Option Conversation → Exec (Reply A)
  found_or_refuse k none = respond_error 404 conversation_missing
  found_or_refuse k (some c) = gets (my_participant request.user c) >>= party_or_refuse k c

  -- The two tests that every handler on a conversation begins with.
  unfoldable pub as_party : ℕ → (Conversation → Participant → Exec (Reply A)) → Exec (Reply A)
  unfolding scoped_conversation my_participant
  as_party cid k = gets (scoped_conversation scope request cid) >>= found_or_refuse k
