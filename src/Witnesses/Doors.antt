-- ===== src/Witnesses/Doors.antt =====
-- The theorems on the HTTP surface, applied to the sample chat.
use stapel_chat.Attachments.Describe.{prepare_attachments}
use stapel_chat.Base.{
  List, [], arith, codes, find?, inl, inr, length, none, refl, some, subst, sym, true, ◌<◌, ◌∷◌,
  ◌≡◌,
}
use stapel_chat.Doors.{
  Visit, by_frame, by_request, elapsed, serve_visits, serve_visits-IsJournal, serve_visits_resume,
}
use stapel_chat.History.{catch_up, is_visible, journal_rows}
use stapel_chat.Journal.{IsJournal}
use stapel_chat.Membership.{is_member, mark_read}
use stapel_chat.Model.{Message}
use stapel_chat.Realtime.{message_payload}
use stapel_chat.Rest.{Reply, my_participant, scoped_conversation}
use stapel_chat.Rest.Closing.{IsClosed, claimed_then_resolved, shown_thread}
use stapel_chat.Rest.Guards.{IsOutside, IsRefusal, serve_call-IsRefusal}
use stapel_chat.Rest.Mappers.{Response}
use stapel_chat.Rest.Messages.{list_messages, remove_message}
use stapel_chat.Rest.Rendering.{asked_page, is_ok, list_messages-is_ok, page_showable}
use stapel_chat.Rest.Urls.{assign_post, message_delete, messages_post, resolve_post, serve_call}
use stapel_chat.Samples.{
  chat, direct_row, hello, request_of, sample_framework, sample_host, sample_scope, seat,
  support_row,
}
use stapel_chat.Scope.{ScopeProvider, default_scope_provider}
use stapel_chat.Sending.{
  allocate_seq, get_conversation, message_refs, schedule_fanout, schedule_ref_sync,
}
use stapel_chat.Sending.Changes.{delete_body, delete_message, store_message}
use stapel_chat.Sending.Post.{undisturbed}
use stapel_chat.Socket.{do_marker, read_frame}
use stapel_chat.Values.{Fields, Json, end, field, num, obj, str}
use stapel_chat.Witnesses.Journal.{
  blanked, chat-IsJournal, chat_last, seen_cache, seen_cache-IsCurrent,
}
use stapel_chat.World.{Result, World, err, ok}

-- The first user takes the message back by a request, and a minute later the second one
-- reads it on a socket.
abbrev two_visits : List Visit
two_visits =
    by_request (request_of 1) (message_delete 1 10)
    ∷ elapsed 60
    ∷ by_frame 1 2 (read_frame (field (codes "upto_seq") (num 1) end))
    ∷ []

abbrev visited : World
visited = serve_visits sample_host sample_scope sample_framework two_visits chat

visited_messages : visited.messages ≡ blanked ∷ []
unfolding serve_visits do_marker delete_message allocate_seq delete_body schedule_ref_sync
    message_refs schedule_fanout store_message mark_read remove_message
visited_messages = refl

visited_page : length (journal_rows visited 1 1 50 none) < 50
unfolding journal_rows is_visible
visited_page = rw visited_messages (omega arith)

serve_visits_resume_example :
    catch_up seen_cache (journal_rows visited 1 1 50 none) 10 ≡ some (message_payload blanked)
unfolding is_visible
serve_visits_resume_example =
    serve_visits_resume sample_host sample_scope sample_framework two_visits chat seen_cache 1 1 50
      none blanked chat-IsJournal chat_last seen_cache-IsCurrent visited_page
      (rw visited_messages (inl refl)) refl refl

-- The user 9 has no seat in the thread 1.
stranger-IsOutside : IsOutside sample_scope (request_of 9) 1 chat
unfolding my_participant
stranger-IsOutside c i same =
    inr (subst (λ k. find? (is_member k 9) chat.participants ≡ none) (sym same) refl)

abbrev stranger_send : Result (Reply Response) × World
stranger_send =
    serve_call sample_host sample_scope sample_framework undisturbed (request_of 9)
      (messages_post 1) chat

serve_call-IsRefusal_example : IsRefusal chat stranger_send
serve_call-IsRefusal_example =
    serve_call-IsRefusal sample_host sample_scope sample_framework undisturbed (request_of 9)
      (messages_post 1) 1 chat refl stranger-IsOutside (λ e c. refl)

-- A file whose `variants` are the number 5.
abbrev odd_descriptor : Fields
odd_descriptor = field (codes "key") (str (codes "doc/1")) (field (codes "variants") (num 5) end)

abbrev items_of : Result (List Json) → List Json
items_of (ok items) = items
items_of (err e) = []

abbrev odd_stored : List Json
odd_stored = items_of (prepare_attachments sample_host (obj odd_descriptor ∷ []))

abbrev odd_message : Message
odd_message = record hello { attachments = odd_stored }

abbrev odd_chat : World
odd_chat = record chat { messages = odd_message ∷ [] }

one_found : scoped_conversation sample_scope (request_of 1) 1 odd_chat ≡ some direct_row
unfolding scoped_conversation
one_found = refl

one_seated : my_participant 1 direct_row odd_chat ≡ some (seat 4 1 1)
unfolding my_participant
one_seated = refl

list_messages-is_ok_example :
    is_ok
      (list_messages sample_host sample_scope sample_framework undisturbed
        (request_of 1)
        1
        odd_chat).0
    ≡ page_showable sample_framework.rendering_error (
        asked_page sample_host sample_scope sample_framework undisturbed
          (request_of 1)
          direct_row
          (seat 4 1 1)
          odd_chat)
list_messages-is_ok_example =
    list_messages-is_ok sample_host sample_scope sample_framework undisturbed (request_of 1) 1
      odd_chat direct_row (seat 4 1 1) one_found one_seated

serve_visits-IsJournal_example : IsJournal visited
serve_visits-IsJournal_example =
    serve_visits-IsJournal sample_host sample_scope sample_framework two_visits chat chat-IsJournal

-- The second user is an operator, and takes the open support thread 3.
abbrev operator_scope : ScopeProvider
operator_scope = default_scope_provider (λ request. some true)

claimed_then_resolved_example :
    IsClosed
      (shown_thread sample_host operator_scope sample_framework (request_of 2))
      (serve_call sample_host operator_scope sample_framework undisturbed
        (request_of 2)
        (assign_post 3)
        chat)
      (serve_call sample_host operator_scope sample_framework undisturbed
        (request_of 2)
        (resolve_post 3))
      3
      2
      []
unfolding get_conversation
claimed_then_resolved_example =
    claimed_then_resolved sample_host operator_scope sample_framework (request_of 2) 3 chat
      support_row chat-IsJournal refl refl refl refl (λ d same. (refl, refl))
