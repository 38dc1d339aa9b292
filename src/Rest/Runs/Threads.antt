-- ===== src/Rest/Runs/Threads.antt =====
-- The views on the threads of a caller, as runs of the journal.
use stapel_chat.Base.{List, Option, [], codes, none, not, some, strip, ℕ, ◌∷◌}
use stapel_chat.Journal.Creating.{
  create_direct-Journals, create_group-Journals, create_support-Journals,
}
use stapel_chat.Journal.Lifecycle.{
  clear_conversation-Journals, leave_conversation-Journals, rejoin_conversation-Journals,
}
use stapel_chat.Journal.Rules.{
  Journals, Journals-gotten, Journals-if, Journals-lifted, Journals-raise,
}
use stapel_chat.Journal.Sending.{Interferes}
use stapel_chat.Model.{Conversation, ConversationKind, direct, group, support}
use stapel_chat.Rest.{
  CreateConversationRequest, Framework, invalid_direct, invalid_kind, is_enabled, kind_disabled,
  my_participant, query_flag, query_param,
}
use stapel_chat.Rest.Mappers.{as_detail, as_page, as_row}
use stapel_chat.Rest.Runs.{
  after-Journals, as_party-Journals, error-Journals, replying-Journals, show_page-Journals,
  show_thread-Journals, validated-Journals,
}
use stapel_chat.Rest.Threads.{
  clear_thread, create_answer, create_named, create_of_kind, create_thread, create_with, get_thread,
  kind_named, leave_thread, list_threads, listed_threads, rejoin_thread, show_created, shown_again,
  thread_page,
}
use stapel_chat.Scope.{Request, ScopeProvider}
use stapel_chat.Search.{filter_inbox}
use stapel_chat.Sending.{get_conversation}
use stapel_chat.Settings.{Host}
use stapel_chat.World.{World, attribute_error}

module _ (host : Host) (scope : ScopeProvider) (lib : Framework) (between : ℕ → World → World)
    (others : Interferes between) (request : Request) where
  pub list_threads-Journals : Journals (list_threads host scope lib between request)
  unfolding list_threads
  list_threads-Journals = record {
    at = λ w j.
        let left_only = query_flag host request (codes "left") in
        let unread_only = query_flag host request (codes "unread") in
        (Journals-lifted
            (filter_inbox host w request.user (query_param (codes "search") request) unread_only
              (listed_threads host scope lib between request left_only w))
            _
            (λ found.
              show_page-Journals host request as_page
                (thread_page host scope lib between request left_only w found.0) found.1)).at
          w j;
  }

  shown_again-Journals :
      (o : Option Conversation) → Journals (shown_again host scope lib between request o)
  unfolding my_participant
  shown_again-Journals none = Journals-raise attribute_error
  shown_again-Journals (some c) =
      Journals-gotten (my_participant request.user c) _
        (λ p. show_thread-Journals host request 201 as_row c p)

  show_created-Journals :
      (c : Conversation) → Journals (show_created host scope lib between request c)
  show_created-Journals c = Journals-gotten (get_conversation c.id) _ shown_again-Journals

  create_with-Journals :
      (asked_for : CreateConversationRequest) (ids : List ℕ)
      → Journals (create_with host scope lib between request asked_for ids)
  create_with-Journals asked_for [] = error-Journals 400 invalid_direct
  create_with-Journals asked_for (other ∷ []) =
      replying-Journals create_answer _ _
        (create_direct-Journals host (between 0) (others 0) request.user other
          (scope.resolve request) (strip asked_for.subject_type) (strip asked_for.subject_key))
        show_created-Journals
  create_with-Journals asked_for (a ∷ b ∷ ids) = error-Journals 400 invalid_direct

  create_of_kind-Journals :
      (asked_for : CreateConversationRequest) (kind : ConversationKind)
      → Journals (create_of_kind host scope lib between request asked_for kind)
  create_of_kind-Journals asked_for direct = create_with-Journals asked_for _
  create_of_kind-Journals asked_for group =
      replying-Journals create_answer _ _
        (create_group-Journals host request.user asked_for.participant_ids (scope.resolve request)
          (strip asked_for.subject_type) (strip asked_for.subject_key))
        show_created-Journals
  create_of_kind-Journals asked_for support =
      replying-Journals create_answer _ _
        (create_support-Journals request.user (scope.resolve request)) show_created-Journals

  create_named-Journals :
      (asked_for : CreateConversationRequest) (kind : Option ConversationKind)
      → Journals (create_named host scope lib between request asked_for kind)
  create_named-Journals asked_for none = error-Journals 400 invalid_kind
  create_named-Journals asked_for (some kind) =
      Journals-if (not (is_enabled host kind)) _ _ (error-Journals 400 kind_disabled)
        (create_of_kind-Journals asked_for kind)

  pub create_thread-Journals : Journals (create_thread host scope lib between request)
  unfolding create_thread
  create_thread-Journals =
      validated-Journals (lib.read_create request.payload) _
        (λ asked_for. create_named-Journals asked_for (kind_named asked_for.kind))

  pub get_thread-Journals : (cid : ℕ) → Journals (get_thread host scope lib between request cid)
  unfolding get_thread
  get_thread-Journals cid =
      as_party-Journals scope request cid _
        (λ c p. show_thread-Journals host request 200 as_detail c (some p))

  pub leave_thread-Journals : (cid : ℕ) → Journals (leave_thread host scope lib between request cid)
  unfolding leave_thread
  leave_thread-Journals cid =
      as_party-Journals scope request cid _
        (λ c p. after-Journals _ (leave_conversation-Journals host c request.user))

  pub rejoin_thread-Journals :
      (cid : ℕ) → Journals (rejoin_thread host scope lib between request cid)
  unfolding rejoin_thread
  rejoin_thread-Journals cid =
      as_party-Journals scope request cid _
        (λ c p. after-Journals _ (rejoin_conversation-Journals c.id request.user))

  pub clear_thread-Journals : (cid : ℕ) → Journals (clear_thread host scope lib between request cid)
  unfolding clear_thread
  clear_thread-Journals cid =
      as_party-Journals scope request cid _
        (λ c p. after-Journals _ (clear_conversation-Journals c.id request.user))
