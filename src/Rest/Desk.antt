-- ===== src/Rest/Desk.antt =====
-- views.py, "Support views": the queue, the claim of a thread, and its two transitions.
use stapel_chat.Base.{
  Bool, List, Option, [], false, filter, if◌then◌else◌, none, not, order_by, some, true, ℕ, ◌∷◌,
}
use stapel_chat.Model.{Conversation, Participant, ParticipantRole, is_support, member, operator}
use stapel_chat.Presence.Reading.{presence_for}
use stapel_chat.Rest.{
  ErrorKey, Framework, Pagination, Reply, assigned_already, conversation_missing, kind_disabled,
  may_operate, my_participant, not_operator, replying, respond, respond_error, scoped,
  scoped_conversation, support_enabled,
}
use stapel_chat.Rest.Dto.{ConversationResponse}
use stapel_chat.Rest.Mappers.{Response, as_row, conversation_to_dto, thread_body}
use stapel_chat.Rest.Threads.{show_page}
use stapel_chat.Scope.{Request, ScopeProvider}
use stapel_chat.Sending.{get_conversation}
use stapel_chat.Settings.{Host}
use stapel_chat.Support.{assign_operator, is_queued, reopen_support, resolve_support}
use stapel_chat.World.{Error, Exec, World, already_assigned, attribute_error, gets, raise, ◌>>=◌}

-- `SupportQueuePagination`
abbrev pub queue_pagination : Pagination Conversation
queue_pagination = record {
  anchor = λ c. c.created_at;
  descending = some false;
  page_size = 50;
  max_page_size = 200;
}

abbrev pub assign_answer : Error → Option (ℕ × ErrorKey)
assign_answer already_assigned = some (409, assigned_already)
assign_answer _ = none

abbrev pub is_operator : ParticipantRole → Bool
is_operator member = false
is_operator operator = true

module _ (host : Host) (scope : ScopeProvider) (lib : Framework) (request : Request) where
  -- `services.support_queue(qs=_scoped(request))`
  unfoldable pub scoped_queue : World → List Conversation
  scoped_queue w = order_by (λ c. c.created_at) (filter is_queued (scoped scope request w))

  abbrev pub queue_for : Bool → Exec (Reply Response)
  queue_for false = respond_error 403 not_operator
  queue_for true = gets scoped_queue >>= (λ rows.
      show_page host request as_row (lib.page_threads queue_pagination request rows) [])

  -- `SupportQueueView.get`
  unfoldable pub get_queue : Exec (Reply Response)
  unfolding scoped_queue show_page
  get_queue =
      if not (support_enabled host)
      then respond_error 400 kind_disabled
      else may_operate scope request none >>= queue_for

  abbrev pub bare_dto : World → Conversation → Option Participant → ConversationResponse
  bare_dto w c p =
      conversation_to_dto as_row host w request.user c p none
        (presence_for host w (c ∷ []) request.user)

  abbrev pub show_bare : Option Conversation → Exec (Reply Response)
  show_bare none w = raise attribute_error w
  show_bare (some c) w =
      respond 200 (thread_body (bare_dto w c (my_participant request.user c w))) w

  -- `_reload`
  unfoldable pub reload_thread : Conversation → Exec (Reply Response)
  unfolding get_conversation my_participant conversation_to_dto presence_for
  reload_thread c = gets (get_conversation c.id) >>= show_bare

  abbrev pub assign_for : Conversation → Bool → Exec (Reply Response)
  assign_for c false = respond_error 403 not_operator
  assign_for c true = replying assign_answer (assign_operator host c request.user) reload_thread

  -- A support thread in the scope, and otherwise none.
  abbrev pub support_or_refuse :
      (Conversation → Exec (Reply Response)) → Option Conversation → Exec (Reply Response)
  support_or_refuse k none = respond_error 404 conversation_missing
  support_or_refuse k (some c) =
      if is_support c.kind then k c else respond_error 404 conversation_missing

  unfoldable pub with_support : ℕ → (Conversation → Exec (Reply Response)) → Exec (Reply Response)
  unfolding scoped_conversation
  with_support cid k =
      if not (support_enabled host)
      then respond_error 400 kind_disabled
      else gets (scoped_conversation scope request cid) >>= support_or_refuse k

  -- `SupportAssignView.post`
  unfoldable pub assign_thread : ℕ → Exec (Reply Response)
  unfolding with_support reload_thread assign_operator
  assign_thread cid = with_support cid (λ c. may_operate scope request (some c) >>= assign_for c)

  -- `_transition` of the two subclasses
  abbrev pub transition : Bool → Conversation → Exec Conversation
  transition true c = resolve_support host c
  transition false c = reopen_support host c

  abbrev pub move_for : Bool → Conversation → Bool → Exec (Reply Response)
  move_for resolving c false = respond_error 403 not_operator
  move_for resolving c true = transition resolving c >>= reload_thread

  abbrev pub move_as : Bool → Conversation → Option Participant → Exec (Reply Response)
  move_as resolving c none = respond_error 403 not_operator
  move_as resolving c (some p) =
      if is_operator p.role
      then may_operate scope request (some c) >>= move_for resolving c
      else respond_error 403 not_operator

  -- `_SupportTransitionView.post`
  unfoldable pub move_thread : Bool → ℕ → Exec (Reply Response)
  unfolding with_support my_participant reload_thread resolve_support reopen_support
  move_thread resolving cid =
      with_support cid (λ c. gets (my_participant request.user c) >>= move_as resolving c)
