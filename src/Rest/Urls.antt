-- ===== src/Rest/Urls.antt =====
-- urls_v1.py: the routes and the methods of their views, as one function of the request.
use stapel_chat.Base.{false, true, ℕ}
use stapel_chat.Rest.{Framework, Reply}
use stapel_chat.Rest.Desk.{assign_thread, get_queue, move_thread}
use stapel_chat.Rest.Mappers.{Response}
use stapel_chat.Rest.Messages.{
  announce_in, list_messages, mark_thread, patch_message, remove_message, send_message,
}
use stapel_chat.Rest.Threads.{
  clear_thread, create_thread, get_thread, leave_thread, list_threads, rejoin_thread,
}
use stapel_chat.Scope.{Request, ScopeProvider}
use stapel_chat.Settings.{Host}
use stapel_chat.World.{Exec, World}

-- A route with its ids, and the method.
pub data Call : Type 0 where
  threads_get threads_post queue_get : Call
  thread_get thread_delete messages_get messages_post : ℕ → Call
  read_post rejoin_post clear_post activity_post : ℕ → Call
  message_patch message_delete : ℕ → ℕ → Call
  assign_post resolve_post reopen_post : ℕ → Call

module _ (host : Host) (scope : ScopeProvider) (lib : Framework) (between : ℕ → World → World) where
  -- `urlpatterns`
  unfoldable pub serve_call : Request → Call → Exec (Reply Response)
  serve_call request threads_get = list_threads host scope lib between request
  serve_call request threads_post = create_thread host scope lib between request
  serve_call request queue_get = get_queue host scope lib request
  serve_call request (thread_get cid) = get_thread host scope lib between request cid
  serve_call request (thread_delete cid) = leave_thread host scope lib between request cid
  serve_call request (messages_get cid) = list_messages host scope lib between request cid
  serve_call request (messages_post cid) = send_message host scope lib between request cid
  serve_call request (read_post cid) = mark_thread host scope lib between request cid
  serve_call request (rejoin_post cid) = rejoin_thread host scope lib between request cid
  serve_call request (clear_post cid) = clear_thread host scope lib between request cid
  serve_call request (activity_post cid) = announce_in host scope lib between request cid
  serve_call request (message_patch cid mid) = patch_message host scope lib between request cid mid
  serve_call request (message_delete cid mid) =
      remove_message host scope lib between request cid mid
  serve_call request (assign_post cid) = assign_thread host scope lib request cid
  serve_call request (resolve_post cid) = move_thread host scope lib request true cid
  serve_call request (reopen_post cid) = move_thread host scope lib request false cid
