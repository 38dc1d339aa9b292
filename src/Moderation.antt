-- ===== src/Moderation.antt =====
-- services.py, the reads for other modules: `moderation_content` and `conversation_participants`.
-- A key on the bus is text; `read_id` and `read_uuid` are how Django and `uuid` read it.
pub mod Keys
use stapel_chat.Base.{
  Bool, List, Option, Text, [], any, codes, false, filter, find?, if◌then◌else◌, is_empty, is_id,
  map, none, not, some, split_last, strip, text_eq, true, ℕ, ◌&&◌, ◌==◌, ◌||◌, ◌∷◌,
}
use stapel_chat.Model.{
  Conversation, ConversationKind, Message, MessageKind, Participant, ParticipantRole, is_deleted,
  is_edited,
}
use stapel_chat.Sending.{get_conversation}
use stapel_chat.Settings.{Host}
use stapel_chat.Values.{Json, get_field, obj, str, truthy}
use stapel_chat.World.{Result, World, attribute_error, err, message_not_found, ok}

-- `_split_message_key`: `MESSAGE_KEY_SEPARATOR` is the colon
unfoldable pub split_message_key : Text → Text × Text
unfolding split_last
split_message_key t = elim (split_last b':' t) [ none ↦ ([], t) | some parts ↦ parts ]

pub record Content : Type 0 where
  pub text : Text
  pub media : List Text
  pub author_id : Option ℕ
  pub kind : MessageKind
  pub conversation_id : ℕ
  pub conversation_kind : ConversationKind
  pub scope_key : Text
  pub seq : ℕ
  pub edited : Bool
  pub created_at : ℕ

-- `str(x or "")`
abbrev pub text_or_blank : Host → Json → Text
text_or_blank host v = if truthy v then host.text_of v else []

-- `[str(a.get("key") or "") for a in attachments if a]`: what is no dict has no `get`
unfoldable pub media_keys : Host → List Json → Result (List Text)
unfolding truthy get_field
media_keys host [] = ok []
media_keys host (a ∷ rest) =
    let more = media_keys host rest in
    if not (truthy a) then more else elim a [
      | obj d ↦ elim more [
        | err e ↦ err e
        | ok keys ↦ ok (text_or_blank host (get_field (codes "key") d) ∷ keys)
      ]
      | _ ↦ err attribute_error
    ]

abbrev pub content_of : Message → Conversation → List Text → Content
content_of m c media = record {
  text = m.body;
  media = media;
  author_id = m.sender;
  kind = m.kind;
  conversation_id = c.id;
  conversation_kind = c.kind;
  scope_key = c.scope_key;
  seq = m.seq;
  edited = is_edited m;
  created_at = m.created_at;
}

abbrev pub with_media : Message → Conversation → Result (List Text) → Result Content
with_media m c (err e) = err e
with_media m c (ok media) = ok (content_of m c media)

-- The halves of a composite key agree: the one for the conversation is blank, or spells it.
abbrev pub halves_agree : Host → Text → Conversation → Bool
halves_agree host half c = is_empty half || text_eq (host.spell c.id) half

abbrev pub content_in : Host → Text → Message → Option Conversation → Result Content
content_in host half m none = err message_not_found
content_in host half m (some c) =
    if halves_agree host half c
    then with_media m c (media_keys host m.attachments)
    else err message_not_found

-- `Message.objects.select_related("conversation").filter(pk=key).first()`
abbrev pub message_with_id : ℕ → World → Option Message
message_with_id k w = find? (λ (m : Message). m.id == k) w.messages

abbrev pub content_found : Host → Text → World → Option Message → Result Content
content_found host half w none = err message_not_found
content_found host half w (some m) =
    if is_deleted m
    then err message_not_found
    else content_in host half m (get_conversation m.conversation w)

-- The row that the message half of the key names; a key that Django refuses names none.
abbrev pub named_message : Host → Text → World → Option Message
named_message host key w = elim (host.read_id (str key)) [
  | none ↦ none
  | some none ↦ none
  | some (some k) ↦ message_with_id k w
]

-- `moderation_content`
unfoldable pub moderation_content : Host → Text → World → Result Content
unfolding split_message_key text_eq get_conversation media_keys
moderation_content host target w =
    let (half, key) = split_message_key target in
    content_found host half w (named_message host key w)

-- What `conversation_participants` answers of one id.
pub record Party : Type 0 where
  pub exists : Bool
  pub kind : Option ConversationKind
  pub scope_key : Text
  pub subject_type : Text
  pub subject_key : Text
  pub participants : List (ℕ × ParticipantRole)

abbrev pub no_party : Party
no_party = record {
  exists = false;
  kind = none;
  scope_key = [];
  subject_type = [];
  subject_key = [];
  participants = [];
}

abbrev pub party_of : World → Conversation → Party
party_of w c = record {
  exists = true;
  kind = some c.kind;
  scope_key = c.scope_key;
  subject_type = c.subject_type;
  subject_key = c.subject_key;
  participants =
      map (λ p. (p.user, p.role))
        (filter (λ (p : Participant). p.conversation == c.id) w.participants);
}

-- `[str(cid) for cid in conversation_ids if str(cid or "").strip()]`
unfoldable pub wanted_ids : Host → List Json → List Text
unfolding truthy strip
wanted_ids host [] = []
wanted_ids host (v ∷ ids) =
    let rest = wanted_ids host ids in
    if is_empty (strip (text_or_blank host v)) then rest else host.text_of v ∷ rest

-- `rows.get(cid)`: the rows of the well-formed ids, under the text of their own id
abbrev pub is_named_by : Host → List Text → Text → Conversation → Bool
is_named_by host wanted cid c =
    text_eq (host.spell c.id) cid && any (λ (t : Text). is_id (host.read_uuid t) c.id) wanted

unfoldable pub party : Host → World → List Text → Text → Party
unfolding text_eq
party host w wanted cid = elim (host.read_uuid cid) [
  | none ↦ no_party
  | some k ↦ elim (find? (is_named_by host wanted cid) w.conversations) [
    | none ↦ no_party
    | some c ↦ party_of w c
  ]
]

abbrev pub parties : Host → World → List Text → List Text → List (Text × Party)
parties host w wanted [] = []
parties host w wanted (cid ∷ ids) = (cid, party host w wanted cid) ∷ parties host w wanted ids

-- `conversation_participants`, whose dict is read by key
unfoldable pub conversation_participants : Host → World → List Json → List (Text × Party)
unfolding wanted_ids party
conversation_participants host w ids =
    let wanted = wanted_ids host ids in parties host w wanted wanted
