-- ===== src/Rest/Rendering.antt =====
-- Which pages of history the HTTP surface can show.
use stapel_chat.Base.{
  Bool, List, Option, Option-cases, [], ap, arith, codes, false, if◌then◌else◌, inl, inr, is_some,
  ltb, not, refl, some, true, ℕ, ◌&&◌, ◌||◌, ◌∙◌, ◌∷◌, ◌≡◌,
}
use stapel_chat.Merging.Erased.{Result-cases}
use stapel_chat.Model.{Conversation, Message, Participant, is_deleted}
use stapel_chat.Payload.{read_list}
use stapel_chat.Rest.{Framework, Reply, as_party, my_participant, scoped_conversation}
use stapel_chat.Rest.Dto.{AttachmentResponse, MessageResponse}
use stapel_chat.Rest.Mappers.{
  Response, attachment_to_dto, attachments_to_dto, join_dto, message_to_dto, messages_to_items,
  rendered, with_attachments, with_variants,
}
use stapel_chat.Rest.Messages.{history_pagination, history_rows, list_messages}
use stapel_chat.Scope.{Request, ScopeProvider}
use stapel_chat.Settings.{Host}
use stapel_chat.Values.{
  Fields, Json, arr, bool, cons, end, field, get_field, nil, null, num, obj, other_number, str,
  truthy,
}
use stapel_chat.World.{Error, Exec, Result, World, err, ok}

abbrev is_listable : Json → Bool
is_listable (bool b) = not b
is_listable (num n) = not (ltb 0 n)
is_listable (other_number b literal) = not b
is_listable _ = true

-- A descriptor whose `variants` are a list of something, or bare text.
abbrev pub is_showable : Json → Bool
is_showable (str s) = true
is_showable (obj d) = is_listable (get_field (codes "variants") d)
is_showable _ = false

abbrev pub all_showable : List Json → Bool
all_showable [] = true
all_showable (a ∷ rest) = is_showable a && all_showable rest

abbrev pub is_ok : {A : Type 0} → Result A → Bool
is_ok (ok a) = true
is_ok (err e) = false

read_list-is_ok : (v : Json) → is_ok (read_list v) ≡ is_listable v
unfolding read_list truthy
read_list-is_ok null = refl
read_list-is_ok (bool true) = refl
read_list-is_ok (bool false) = refl
read_list-is_ok (num n) = ground arith
read_list-is_ok (other_number true literal) = refl
read_list-is_ok (other_number false literal) = refl
read_list-is_ok (str []) = refl
read_list-is_ok (str (c ∷ s)) = refl
read_list-is_ok (arr nil) = refl
read_list-is_ok (arr (cons v vs)) = refl
read_list-is_ok (obj end) = refl
read_list-is_ok (obj (field k v d)) = refl

with_variants-is_ok : (d : Fields) (r : Result (List Json)) → is_ok (with_variants d r) ≡ is_ok r
with_variants-is_ok d (ok found) = refl
with_variants-is_ok d (err e) = refl

attachment_to_dto-is_ok : (a : Json) → is_ok (attachment_to_dto a) ≡ is_showable a
unfolding attachment_to_dto
attachment_to_dto-is_ok null = refl
attachment_to_dto-is_ok (bool b) = refl
attachment_to_dto-is_ok (num n) = refl
attachment_to_dto-is_ok (other_number b literal) = refl
attachment_to_dto-is_ok (str s) = refl
attachment_to_dto-is_ok (arr vs) = refl
attachment_to_dto-is_ok (obj d) =
    let v = get_field (codes "variants") d in
    with_variants-is_ok d (read_list v) ∙ read_list-is_ok v

join_dto-is_ok :
    {A : Type 0} (r : Result A) (rest : Result (List A))
    → is_ok (join_dto r rest) ≡ (is_ok r && is_ok rest)
join_dto-is_ok (ok a) (ok more) = refl
join_dto-is_ok (ok a) (err e) = refl
join_dto-is_ok (err e) rest = refl

attachments_to_dto-is_ok : (xs : List Json) → is_ok (attachments_to_dto xs) ≡ all_showable xs
unfolding attachments_to_dto
attachments_to_dto-is_ok [] = refl
attachments_to_dto-is_ok (a ∷ xs) =
    join_dto-is_ok (attachment_to_dto a) (attachments_to_dto xs)
    ∙ ground (arith, attachment_to_dto-is_ok a, attachments_to_dto-is_ok xs)

with_attachments-is_ok :
    (m : Message) (r : Result (List AttachmentResponse)) → is_ok (with_attachments m r) ≡ is_ok r
with_attachments-is_ok m (ok found) = refl
with_attachments-is_ok m (err e) = refl

message_to_dto-is_ok :
    (m : Message) → is_ok (message_to_dto m) ≡ (is_deleted m || all_showable m.attachments)
unfolding message_to_dto
message_to_dto-is_ok m =
    with_attachments-is_ok m _
    ∙ attachments_to_dto-is_ok (if is_deleted m then [] else m.attachments)
    ∙ ground arith

-- Whether the serializer renders a message that has been mapped.
abbrev pub is_rendered : (MessageResponse → Option Error) → Result MessageResponse → Bool
is_rendered raises (ok dto) = not (is_some (raises dto))
is_rendered raises (err e) = false

abbrev pub page_showable : (MessageResponse → Option Error) → List Message → Bool
page_showable raises [] = true
page_showable raises (m ∷ ms) =
    (is_deleted m || all_showable m.attachments)
    && is_rendered raises (message_to_dto m)
    && page_showable raises ms

rendered-is_ok :
    (raises : MessageResponse → Option Error) (r : Result MessageResponse)
    → is_ok (rendered raises r) ≡ (is_ok r && is_rendered raises r)
rendered-is_ok raises (err e) = refl
rendered-is_ok raises (ok dto) = elim (Option-cases (raises dto)) [
  | inl t ↦ ground arith
  | inr (e, t) ↦ ground arith
]

messages_to_items-is_ok :
    (raises : MessageResponse → Option Error) (ms : List Message)
    → is_ok (messages_to_items raises ms) ≡ page_showable raises ms
unfolding messages_to_items
messages_to_items-is_ok raises [] = refl
messages_to_items-is_ok raises (m ∷ ms) =
    join_dto-is_ok (rendered raises (message_to_dto m)) (messages_to_items raises ms)
    ∙ ground (
      arith,
      rendered-is_ok raises (message_to_dto m),
      message_to_dto-is_ok m,
      messages_to_items-is_ok raises ms,
    )

module _ (host : Host) (scope : ScopeProvider) (lib : Framework) (between : ℕ → World → World)
    (request : Request) where
  -- The page of a thread's history that a caller with a seat asks for.
  abbrev pub asked_page : Conversation → Participant → World → List Message
  asked_page c p w =
      lib.page_messages history_pagination request
        (history_rows host scope lib between request c p w)

  seated_reply :
      (cid : ℕ) (w : World) (c : Conversation) (p : Participant)
      → scoped_conversation scope request cid w ≡ some c
      → my_participant request.user c w ≡ some p
      → (k : Conversation → Participant → Exec (Reply Response))
      → as_party scope request cid k w ≡ k c p w
  unfolding as_party
  seated_reply cid w c p found seated k = ground arith

  -- Where the caller has a seat in a thread of their scope, its history is answered, and not an
  -- error, exactly when every message on the page is a tombstone or carries only descriptors whose
  -- `variants` are something to list, and the serializer renders each of them.
  pub list_messages-is_ok :
      (cid : ℕ) (w : World) (c : Conversation) (p : Participant)
      → scoped_conversation scope request cid w ≡ some c
      → my_participant request.user c w ≡ some p
      → is_ok (list_messages host scope lib between request cid w).0
        ≡ page_showable lib.rendering_error (asked_page c p w)
  unfolding list_messages
  list_messages-is_ok cid w c p found seated =
      let page = asked_page c p w in
      let items = messages_to_items lib.rendering_error page in
      let ended : is_ok (list_messages host scope lib between request cid w).0 ≡ is_ok items =
        ap (λ o. is_ok o.0) (seated_reply cid w c p found seated _)
        ∙ elim (Result-cases items) [ inl (os, t) ↦ ground arith | inr (e, t) ↦ ground arith ] in
      ended ∙ messages_to_items-is_ok lib.rendering_error page
