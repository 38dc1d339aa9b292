-- ===== src/Rest/Guards.antt =====
-- The guards of the HTTP surface: who is turned away, and that nothing happens then.
use stapel_chat.Base.{
  ==_iff, All-find?, Bool, Bool-cases, In, In-All, Option, ap, arith, false, filter-In, inl, inr,
  none, refl, some, true, ℕ, ◌==◌, ◌≡◌, ◌⊎◌,
}
use stapel_chat.Model.{Conversation, Participant, is_support}
use stapel_chat.Rest.{
  ErrorKey, Framework, Reply, as_party, authority, conversation_missing, error_reply,
  found_or_refuse, kind_disabled, my_participant, not_operator, not_participant, party_or_refuse,
  scoped, scoped_conversation, support_enabled,
}
use stapel_chat.Rest.Desk.{
  assign_for, assign_thread, move_as, move_thread, support_or_refuse, with_support,
}
use stapel_chat.Rest.Mappers.{Response}
use stapel_chat.Rest.Messages.{
  announce_in, list_messages, mark_thread, patch_message, remove_message, send_message,
  with_message,
}
use stapel_chat.Rest.Threads.{clear_thread, get_thread, leave_thread, rejoin_thread}
use stapel_chat.Rest.Urls.{
  Call, activity_post, assign_post, clear_post, message_delete, message_patch, messages_get,
  messages_post, queue_get, read_post, rejoin_post, reopen_post, resolve_post, serve_call,
  thread_delete, thread_get, threads_get, threads_post,
}
use stapel_chat.Scope.{Request, ScopeProvider}
use stapel_chat.Settings.{Host}
use stapel_chat.World.{Exec, Result, World, ok, ◌>>=◌}

-- The conversation that a route names.
abbrev pub thread_of : Call → Option ℕ
thread_of threads_get = none
thread_of threads_post = none
thread_of queue_get = none
thread_of (thread_get cid) = some cid
thread_of (thread_delete cid) = some cid
thread_of (messages_get cid) = some cid
thread_of (messages_post cid) = some cid
thread_of (read_post cid) = some cid
thread_of (rejoin_post cid) = some cid
thread_of (clear_post cid) = some cid
thread_of (activity_post cid) = some cid
thread_of (message_patch cid mid) = some cid
thread_of (message_delete cid mid) = some cid
thread_of (assign_post cid) = some cid
thread_of (resolve_post cid) = some cid
thread_of (reopen_post cid) = some cid

-- An error key, and the state as it was.
pub data IsRefusal (w : World) (o : Result (Reply Response) × World) : Type 0 where
  refusal : (status : ℕ) (key : ErrorKey) → o ≡ (ok (error_reply status key), w) → IsRefusal w o

-- No row of the conversation is in the scope and has the caller as a participant.
abbrev pub IsOutside : ScopeProvider → Request → ℕ → World → Type 0
IsOutside scope request cid w =
    (c : Conversation)
    → In c w.conversations
    → c.id ≡ cid
    → (scope.admits request c ≡ false) ⊎ (my_participant request.user c w ≡ none)

module _ (scope : ScopeProvider) (request : Request) (cid : ℕ) (w : World)
    (outside : IsOutside scope request cid w) where
  -- What the guard finds, it finds without a seat for the caller.
  pub scoped-unseated :
      (c : Conversation)
      → scoped_conversation scope request cid w ≡ some c
      → my_participant request.user c w ≡ none
  unfolding scoped_conversation
  scoped-unseated c e =
      let rows = scoped scope request w in
      let hit =
        All-find? (λ (d : Conversation). In d rows) (λ (d : Conversation). d.id == cid) rows
          (In-All (λ (d : Conversation). In d rows) rows (λ d i. i)) e in
      let row = filter-In (scope.admits request) w.conversations c hit.0 in
      elim (outside c row.0 ((==_iff c.id cid).0 hit.1)) [
        | inl hidden ↦ absurd (ground (arith, row.1))
        | inr unseated ↦ unseated
      ]

  -- The guard that every handler on a conversation begins with.
  pub as_party-IsRefusal :
      (k : Conversation → Participant → Exec (Reply Response))
      → IsRefusal w (as_party scope request cid k w)
  unfolding as_party
  as_party-IsRefusal k = go (scoped_conversation scope request cid w) scoped-unseated
    where
      go :
          (o : Option Conversation)
          → ((c : Conversation) → o ≡ some c → my_participant request.user c w ≡ none)
          → IsRefusal w (found_or_refuse scope request k o w)
      go none h = refusal 404 conversation_missing refl
      go (some c) h =
          refusal 403 not_participant (ap (λ o. party_or_refuse scope request k c o w) (h c refl))

  module _ (host : Host) (lib : Framework) where
    -- The guard of the support views.
    with_support-IsRefusal :
        (k : Conversation → Exec (Reply Response))
        → ((c : Conversation)
            → scoped_conversation scope request cid w ≡ some c
            → IsRefusal w (k c w))
        → IsRefusal w (with_support host scope lib request cid k w)
    unfolding with_support
    with_support-IsRefusal k h = elim (Bool-cases (support_enabled host)) [
      | inr t ↦ rw t (refusal 400 kind_disabled refl)
      | inl t ↦ rw t (go (scoped_conversation scope request cid w) h)
    ]
      where
        go :
            (o : Option Conversation)
            → ((c : Conversation) → o ≡ some c → IsRefusal w (k c w))
            → IsRefusal w (support_or_refuse host scope lib request k o w)
        go none h = refusal 404 conversation_missing refl
        go (some c) h = elim (Bool-cases (is_support c.kind)) [
          | inl here ↦ rw here (h c refl)
          | inr other ↦ rw other (refusal 404 conversation_missing refl)
        ]

    move_thread-IsRefusal :
        (resolving : Bool) → IsRefusal w (move_thread host scope lib request resolving cid w)
    unfolding move_thread
    move_thread-IsRefusal resolving = with_support-IsRefusal _ (λ c found.
        refusal 403 not_operator
          (ap (λ o. move_as host scope lib request resolving c o w) (scoped-unseated c found)))

    assign_thread-IsRefusal :
        ((c : Conversation) → scope.can_operate request (some c) ≡ some false)
        → IsRefusal w (assign_thread host scope lib request cid w)
    unfolding assign_thread
    assign_thread-IsRefusal denied = with_support-IsRefusal _ (λ c found.
        refusal 403 not_operator
          (ap (λ o. (authority o >>= assign_for host scope lib request c) w) (denied c)))

-- Whoever has no seat in a conversation, or has no such conversation in their scope, gets an error
-- key from every route that names it, and changes nothing; the route that makes operators does so
-- where the provider answers that the caller is none.
pub serve_call-IsRefusal :
    (host : Host) (scope : ScopeProvider) (lib : Framework) (between : ℕ → World → World)
    (request : Request) (call : Call) (cid : ℕ) (w : World)
    → thread_of call ≡ some cid
    → IsOutside scope request cid w
    → (call ≡ assign_post cid
        → (c : Conversation) → scope.can_operate request (some c) ≡ some false)
    → IsRefusal w (serve_call host scope lib between request call w)
unfolding serve_call
serve_call-IsRefusal host scope lib between request threads_get cid w e out denied =
    absurd (ground arith)
serve_call-IsRefusal host scope lib between request threads_post cid w e out denied =
    absurd (ground arith)
serve_call-IsRefusal host scope lib between request queue_get cid w e out denied =
    absurd (ground arith)
serve_call-IsRefusal host scope lib between request (thread_get k) cid w e out denied =
    let same : k ≡ cid = ground arith in
    rw same (unfold get_thread in as_party-IsRefusal scope request cid w out _)
serve_call-IsRefusal host scope lib between request (thread_delete k) cid w e out denied =
    let same : k ≡ cid = ground arith in
    rw same (unfold leave_thread in as_party-IsRefusal scope request cid w out _)
serve_call-IsRefusal host scope lib between request (messages_get k) cid w e out denied =
    let same : k ≡ cid = ground arith in
    rw same (unfold list_messages in as_party-IsRefusal scope request cid w out _)
serve_call-IsRefusal host scope lib between request (messages_post k) cid w e out denied =
    let same : k ≡ cid = ground arith in
    rw same (unfold send_message in as_party-IsRefusal scope request cid w out _)
serve_call-IsRefusal host scope lib between request (read_post k) cid w e out denied =
    let same : k ≡ cid = ground arith in
    rw same (unfold mark_thread in as_party-IsRefusal scope request cid w out _)
serve_call-IsRefusal host scope lib between request (rejoin_post k) cid w e out denied =
    let same : k ≡ cid = ground arith in
    rw same (unfold rejoin_thread in as_party-IsRefusal scope request cid w out _)
serve_call-IsRefusal host scope lib between request (clear_post k) cid w e out denied =
    let same : k ≡ cid = ground arith in
    rw same (unfold clear_thread in as_party-IsRefusal scope request cid w out _)
serve_call-IsRefusal host scope lib between request (activity_post k) cid w e out denied =
    let same : k ≡ cid = ground arith in
    rw same (unfold announce_in in as_party-IsRefusal scope request cid w out _)
serve_call-IsRefusal host scope lib between request (message_patch k mid) cid w e out denied =
    let same : k ≡ cid = ground arith in
    rw same (unfold patch_message with_message in as_party-IsRefusal scope request cid w out _)
serve_call-IsRefusal host scope lib between request (message_delete k mid) cid w e out denied =
    let same : k ≡ cid = ground arith in
    rw same (unfold remove_message with_message in as_party-IsRefusal scope request cid w out _)
serve_call-IsRefusal host scope lib between request (assign_post k) cid w e out denied =
    let same : k ≡ cid = ground arith in
    rw same
      (assign_thread-IsRefusal scope request cid w out host lib (denied (ap assign_post same)))
serve_call-IsRefusal host scope lib between request (resolve_post k) cid w e out denied =
    let same : k ≡ cid = ground arith in
    rw same (move_thread-IsRefusal scope request cid w out host lib true)
serve_call-IsRefusal host scope lib between request (reopen_post k) cid w e out denied =
    let same : k ≡ cid = ground arith in
    rw same (move_thread-IsRefusal scope request cid w out host lib false)
