-- ===== src/Rest/Runs/Desk.antt =====
-- The support views, as runs of the journal.
use stapel_chat.Base.{Bool, Option, [], false, none, not, some, true, ℕ}
use stapel_chat.Journal.{done}
use stapel_chat.Journal.Desk.{
  assign_operator-Journals, reopen_support-Journals, resolve_support-Journals,
}
use stapel_chat.Journal.Rules.{Journals, Journals-bind, Journals-gotten, Journals-if}
use stapel_chat.Model.{Conversation, Participant, is_support}
use stapel_chat.Rest.{
  Framework, Reply, conversation_missing, kind_disabled, may_operate, my_participant, not_operator,
  scoped_conversation, support_enabled,
}
use stapel_chat.Rest.Desk.{
  assign_answer, assign_for, assign_thread, get_queue, is_operator, move_as, move_for, move_thread,
  queue_for, queue_pagination, reload_thread, scoped_queue, show_bare, support_or_refuse,
  transition, with_support,
}
use stapel_chat.Rest.Mappers.{Response, as_row}
use stapel_chat.Rest.Runs.{
  error-Journals, may_operate-Journals, replying-Journals, show_page-Journals,
}
use stapel_chat.Scope.{Request, ScopeProvider}
use stapel_chat.Sending.{get_conversation}
use stapel_chat.Settings.{Host}
use stapel_chat.World.{Exec}

module _ (host : Host) (scope : ScopeProvider) (lib : Framework) (request : Request) where
  queue_for-Journals : (allowed : Bool) → Journals (queue_for host scope lib request allowed)
  queue_for-Journals false = error-Journals 403 not_operator
  queue_for-Journals true = Journals-gotten (scoped_queue host scope lib request) _ (λ rows.
      show_page-Journals host request as_row (lib.page_threads queue_pagination request rows) [])

  pub get_queue-Journals : Journals (get_queue host scope lib request)
  unfolding get_queue
  get_queue-Journals =
      Journals-if (not (support_enabled host)) _ _ (error-Journals 400 kind_disabled) (
        Journals-bind (may_operate scope request none) _ (may_operate-Journals scope request none)
          queue_for-Journals)

  show_bare-Journals : (o : Option Conversation) → Journals (show_bare host scope lib request o)
  show_bare-Journals none = record { at = λ w j. done }
  show_bare-Journals (some c) = record { at = λ w j. done }

  reload_thread-Journals : (c : Conversation) → Journals (reload_thread host scope lib request c)
  unfolding reload_thread
  reload_thread-Journals c = Journals-gotten (get_conversation c.id) _ show_bare-Journals

  support-Journals :
      (k : Conversation → Exec (Reply Response)) (o : Option Conversation)
      → ((c : Conversation) → Journals (k c))
      → Journals (support_or_refuse host scope lib request k o)
  support-Journals k none h = error-Journals 404 conversation_missing
  support-Journals k (some c) h =
      Journals-if (is_support c.kind) _ _ (h c) (error-Journals 404 conversation_missing)

  with_support-Journals :
      (cid : ℕ) (k : Conversation → Exec (Reply Response))
      → ((c : Conversation) → Journals (k c))
      → Journals (with_support host scope lib request cid k)
  unfolding with_support
  with_support-Journals cid k h =
      Journals-if (not (support_enabled host)) _ _ (error-Journals 400 kind_disabled)
        (Journals-gotten (scoped_conversation scope request cid) _ (λ o. support-Journals k o h))

  assign_for-Journals :
      (c : Conversation) (allowed : Bool) → Journals (assign_for host scope lib request c allowed)
  assign_for-Journals c false = error-Journals 403 not_operator
  assign_for-Journals c true =
      replying-Journals assign_answer _ _ (assign_operator-Journals host c request.user)
        reload_thread-Journals

  pub assign_thread-Journals : (cid : ℕ) → Journals (assign_thread host scope lib request cid)
  unfolding assign_thread
  assign_thread-Journals cid = with_support-Journals cid _ (λ c.
      Journals-bind (may_operate scope request (some c)) _
        (may_operate-Journals scope request (some c)) (assign_for-Journals c))

  transition-Journals :
      (resolving : Bool) (c : Conversation)
      → Journals (transition host scope lib request resolving c)
  transition-Journals true c = resolve_support-Journals host c
  transition-Journals false c = reopen_support-Journals host c

  move_for-Journals :
      (resolving : Bool) (c : Conversation) (allowed : Bool)
      → Journals (move_for host scope lib request resolving c allowed)
  move_for-Journals resolving c false = error-Journals 403 not_operator
  move_for-Journals resolving c true =
      Journals-bind (transition host scope lib request resolving c) _
        (transition-Journals resolving c) reload_thread-Journals

  move_as-Journals :
      (resolving : Bool) (c : Conversation) (o : Option Participant)
      → Journals (move_as host scope lib request resolving c o)
  move_as-Journals resolving c none = error-Journals 403 not_operator
  move_as-Journals resolving c (some p) =
      Journals-if (is_operator p.role) _ _
        (Journals-bind (may_operate scope request (some c)) _
          (may_operate-Journals scope request (some c)) (move_for-Journals resolving c))
        (error-Journals 403 not_operator)

  pub move_thread-Journals :
      (resolving : Bool) (cid : ℕ) → Journals (move_thread host scope lib request resolving cid)
  unfolding move_thread
  move_thread-Journals resolving cid =
      with_support-Journals cid _
        (λ c. Journals-gotten (my_participant request.user c) _ (move_as-Journals resolving c))
