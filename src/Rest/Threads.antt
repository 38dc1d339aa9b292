-- ===== src/Rest/Threads.antt =====
-- views.py, "Conversation views": the list, the creation, one thread, and the caller's own leaving,
-- rejoining and clearing.
use stapel_chat.Base.{
  Bool, List, Option, Text, [], codes, filter, if◌then◌else◌, lookup, map, none, not, some, strip,
  text_eq, true, ℕ, ◌==◌, ◌∷◌,
}
use stapel_chat.Creation.{create_direct, create_group, create_support}
use stapel_chat.Membership.{
  clear_conversation, leave_conversation, on_inbox, on_left_list, rejoin_conversation,
}
use stapel_chat.Model.{Conversation, ConversationKind, Participant, direct, group, support}
use stapel_chat.Presence.Reading.{Seen, presence_for}
use stapel_chat.Rest.{
  CreateConversationRequest, ErrorKey, Framework, Pagination, Reply, as_party, blocks_unavailable,
  invalid_direct, invalid_kind, is_enabled, kind_disabled, my_participant, query_flag, query_param,
  replying, respond, respond_error, scoped, send_refused_key, subject_incomplete,
  subject_type_unknown, with_validated,
}
use stapel_chat.Rest.Dto.{ConversationResponse}
use stapel_chat.Rest.Mappers.{
  Reading, Response, as_detail, as_page, as_row, card_by_id, conversation_to_dto, no_content,
  thread_body, threads_body,
}
use stapel_chat.Scope.{Request, ScopeProvider}
use stapel_chat.Search.{filter_inbox, subject_cards_for}
use stapel_chat.Sending.{get_conversation}
use stapel_chat.Settings.{Host}
use stapel_chat.Subjects.{Cards, Resolution}
use stapel_chat.World.{
  Error, Exec, World, attribute_error, block_check_unavailable, gets, incomplete_subject, lift,
  raise, send_refused, unknown_subject_type, ◌>>=◌, ◌>>◌,
}

module _ (host : Host) (request : Request) where
  abbrev thread_dto :
      Reading
      → World
      → Conversation
      → Option Participant
      → List (ℕ × Resolution)
      → ConversationResponse
  thread_dto reading w c p cards =
      conversation_to_dto reading host w request.user c p (card_by_id c.id cards)
        (presence_for host w (c ∷ []) request.user)

  -- The answer that shows one thread, with its card and the presence of its participants.
  unfoldable pub show_thread :
      ℕ → Reading → Conversation → Option Participant → Exec (Reply Response)
  unfolding subject_cards_for conversation_to_dto card_by_id presence_for
  show_thread status reading c p =
      lift (subject_cards_for host (c ∷ []) [])
      >>= (λ cards w. respond status (thread_body (thread_dto reading w c p cards)) w)

  abbrev page_dto :
      Reading
      → World
      → List (ℕ × Resolution)
      → List (ℕ × Seen)
      → Conversation
      → ConversationResponse
  page_dto reading w cards presence c =
      conversation_to_dto reading host w request.user c (my_participant request.user c w)
        (card_by_id c.id cards) presence

  abbrev page_dtos :
      Reading → World → List Conversation → List (ℕ × Resolution) → List ConversationResponse
  page_dtos reading w page cards =
      map (page_dto reading w cards (presence_for host w page request.user)) page

  -- The answer that shows a page, for which the cards are asked once.
  unfoldable pub show_page : Reading → List Conversation → Cards → Exec (Reply Response)
  unfolding subject_cards_for conversation_to_dto card_by_id presence_for my_participant
  show_page reading page resolved =
      lift (subject_cards_for host page resolved)
      >>= (λ cards w. respond 200 (threads_body (page_dtos reading w page cards)) w)

abbrev pub list_pagination : Pagination Conversation
list_pagination = record {
  anchor = λ c. c.updated_at;
  descending = none;
  page_size = 50;
  max_page_size = 200;
}

-- The anchor is `viewer_left_at`: when the caller left.
unfoldable pub viewer_left_at : World → ℕ → Conversation → ℕ
unfolding my_participant
viewer_left_at w viewer c = elim (my_participant viewer c w) [
  | none ↦ 0
  | some p ↦ elim p.left_at [ none ↦ 0 | some at ↦ at ]
]

abbrev pub left_pagination : World → ℕ → Pagination Conversation
left_pagination w viewer = record {
  anchor = viewer_left_at w viewer;
  descending = some true;
  page_size = 50;
  max_page_size = 200;
}

-- `_VALID_KINDS`
unfoldable pub kind_named : Text → Option ConversationKind
unfolding text_eq
kind_named t =
    if text_eq t (codes "direct")
    then some direct
    else if text_eq t (codes "group")
    then some group
    else if text_eq t (codes "support")
    then some support
    else none

abbrev pub create_answer : Error → Option (ℕ × ErrorKey)
create_answer unknown_subject_type = some (400, subject_type_unknown)
create_answer incomplete_subject = some (400, subject_incomplete)
create_answer send_refused = some (403, send_refused_key)
create_answer block_check_unavailable = some (503, blocks_unavailable)
create_answer _ = none

module _ (host : Host) (scope : ScopeProvider) (lib : Framework) (between : ℕ → World → World)
    (request : Request) where
  -- `services.left_of(base)` or `services.inbox_of(base)`, on the rows of the scope
  unfoldable pub listed_threads : Bool → World → List Conversation
  unfolding on_left_list on_inbox
  listed_threads left_only w =
      if left_only
      then filter (λ (c : Conversation). on_left_list w request.user c.id) (scoped scope request w)
      else filter (λ (c : Conversation). on_inbox w request.user c.id) (scoped scope request w)

  abbrev pub thread_page : Bool → World → List Conversation → List Conversation
  thread_page left_only w found =
      lib.page_threads (if left_only then left_pagination w request.user else list_pagination)
        request found

  -- `ConversationListCreateView.get`
  unfoldable pub list_threads : Exec (Reply Response)
  unfolding query_flag lookup listed_threads filter_inbox show_page viewer_left_at
  list_threads w =
      let left_only = query_flag host request (codes "left") in
      let unread_only = query_flag host request (codes "unread") in
      (lift (
            filter_inbox host w request.user (query_param (codes "search") request) unread_only
              (listed_threads left_only w))
          >>= (λ found. show_page host request as_page (thread_page left_only w found.0) found.1))
        w

  abbrev others_in : List ℕ → List ℕ
  others_in ids = filter (λ (k : ℕ). not (k == request.user)) ids

  -- The row is read again, with its participants.
  abbrev pub shown_again : Option Conversation → Exec (Reply Response)
  shown_again none = raise attribute_error
  shown_again (some c) =
      gets (my_participant request.user c) >>= show_thread host request 201 as_row c

  abbrev pub show_created : Conversation → Exec (Reply Response)
  show_created c = gets (get_conversation c.id) >>= shown_again

  abbrev pub create_with : CreateConversationRequest → List ℕ → Exec (Reply Response)
  create_with asked_for (other ∷ []) =
      replying create_answer
        (create_direct host (between 0) request.user other (scope.resolve request)
          (strip asked_for.subject_type) (strip asked_for.subject_key))
        show_created
  create_with asked_for _ = respond_error 400 invalid_direct

  abbrev pub create_of_kind : CreateConversationRequest → ConversationKind → Exec (Reply Response)
  create_of_kind asked_for direct = create_with asked_for (others_in asked_for.participant_ids)
  create_of_kind asked_for group =
      replying create_answer
        (create_group host request.user asked_for.participant_ids (scope.resolve request)
          (strip asked_for.subject_type) (strip asked_for.subject_key))
        show_created
  create_of_kind asked_for support =
      replying create_answer (create_support request.user (scope.resolve request)) show_created

  abbrev pub create_named :
      CreateConversationRequest → Option ConversationKind → Exec (Reply Response)
  create_named asked_for none = respond_error 400 invalid_kind
  create_named asked_for (some kind) =
      if not (is_enabled host kind)
      then respond_error 400 kind_disabled
      else create_of_kind asked_for kind

  -- `ConversationListCreateView.post`
  unfoldable pub create_thread : Exec (Reply Response)
  unfolding kind_named create_direct create_group create_support get_conversation my_participant
      show_thread strip
  create_thread =
      with_validated (lib.read_create request.payload)
        (λ asked_for. create_named asked_for (kind_named asked_for.kind))

  -- `ConversationDetailView.get`
  unfoldable pub get_thread : ℕ → Exec (Reply Response)
  unfolding as_party show_thread
  get_thread cid =
      as_party scope request cid (λ c p. show_thread host request 200 as_detail c (some p))

  -- `ConversationDetailView.delete`
  unfoldable pub leave_thread : ℕ → Exec (Reply Response)
  unfolding as_party leave_conversation
  leave_thread cid =
      as_party scope request cid
        (λ c p. leave_conversation host c request.user >> respond 204 no_content)

  -- `RejoinConversationView.post`
  unfoldable pub rejoin_thread : ℕ → Exec (Reply Response)
  unfolding as_party rejoin_conversation
  rejoin_thread cid =
      as_party scope request cid
        (λ c p. rejoin_conversation c.id request.user >> respond 204 no_content)

  -- `ClearConversationView.post`
  unfoldable pub clear_thread : ℕ → Exec (Reply Response)
  unfolding as_party clear_conversation
  clear_thread cid =
      as_party scope request cid
        (λ c p. clear_conversation c.id request.user >> respond 204 no_content)
