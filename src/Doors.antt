-- ===== src/Doors.antt =====
-- The two doors of a conversation: the frames of consumers.py and the requests of views.py, in the
-- order in which they were served.
use stapel_chat.Base.{
  In, List, Option, [], false, length, refl, some, true, ℕ, ◌+◌, ◌<◌, ◌∷◌, ◌≡◌, ◌≤◌,
}
use stapel_chat.History.{Cache, catch_up, is_visible, journal_rows}
use stapel_chat.History.Catchup.{IsCurrent}
use stapel_chat.History.Resume.{resume-is_complete}
use stapel_chat.Journal.{IsJournal, RunFrom, done, last_seq_of}
use stapel_chat.Journal.Marks.{SameRows-RunFrom}
use stapel_chat.Journal.Rules.{Journals, RunFrom-trans}
use stapel_chat.Journal.Sending.{undisturbed-Interferes}
use stapel_chat.Journal.Steps.{Run-IsJournal}
use stapel_chat.Model.{Message}
use stapel_chat.Realtime.{message_payload}
use stapel_chat.Rest.{Framework}
use stapel_chat.Rest.Runs.Desk.{assign_thread-Journals, get_queue-Journals, move_thread-Journals}
use stapel_chat.Rest.Runs.Messages.{
  announce_in-Journals, list_messages-Journals, mark_thread-Journals, patch_message-Journals,
  remove_message-Journals, send_message-Journals,
}
use stapel_chat.Rest.Runs.Threads.{
  clear_thread-Journals, create_thread-Journals, get_thread-Journals, leave_thread-Journals,
  list_threads-Journals, rejoin_thread-Journals,
}
use stapel_chat.Rest.Urls.{
  Call, activity_post, assign_post, clear_post, message_delete, message_patch, messages_get,
  messages_post, queue_get, read_post, rejoin_post, reopen_post, resolve_post, serve_call,
  thread_delete, thread_get, threads_get, threads_post,
}
use stapel_chat.Scope.{Request, ScopeProvider}
use stapel_chat.Sending.Post.{undisturbed}
use stapel_chat.Settings.{Host}
use stapel_chat.Socket.{Frame, serve_frame}
use stapel_chat.Socket.Runs.{serve_frame-run}
use stapel_chat.World.{World}

pub data Visit : Type 0 where
  by_frame : ℕ → ℕ → Frame → Visit
  by_request : Request → Call → Visit
  -- the seconds that pass before the next one
  elapsed : ℕ → Visit

module _ (host : Host) (scope : ScopeProvider) (lib : Framework) where
  -- What a visit leaves, whatever it answers.
  unfoldable pub serve_visit : Visit → World → World
  unfolding serve_frame serve_call
  serve_visit (by_frame cid user frame) w = (serve_frame host undisturbed cid user frame w).1
  serve_visit (by_request request call) w = (serve_call host scope lib undisturbed request call w).1
  serve_visit (elapsed seconds) w = record w { clock = w.clock + seconds }

  unfoldable pub serve_visits : List Visit → World → World
  unfolding serve_visit
  serve_visits [] w = w
  serve_visits (visit ∷ visits) w = serve_visits visits (serve_visit visit w)

  serve_call-Journals :
      (request : Request) (call : Call)
      → Journals (serve_call host scope lib undisturbed request call)
  unfolding serve_call
  serve_call-Journals request threads_get =
      list_threads-Journals host scope lib undisturbed undisturbed-Interferes request
  serve_call-Journals request threads_post =
      create_thread-Journals host scope lib undisturbed undisturbed-Interferes request
  serve_call-Journals request queue_get = get_queue-Journals host scope lib request
  serve_call-Journals request (thread_get cid) =
      get_thread-Journals host scope lib undisturbed undisturbed-Interferes request cid
  serve_call-Journals request (thread_delete cid) =
      leave_thread-Journals host scope lib undisturbed undisturbed-Interferes request cid
  serve_call-Journals request (messages_get cid) =
      list_messages-Journals host scope lib undisturbed undisturbed-Interferes request cid
  serve_call-Journals request (messages_post cid) =
      send_message-Journals host scope lib undisturbed undisturbed-Interferes request cid
  serve_call-Journals request (read_post cid) =
      mark_thread-Journals host scope lib undisturbed undisturbed-Interferes request cid
  serve_call-Journals request (rejoin_post cid) =
      rejoin_thread-Journals host scope lib undisturbed undisturbed-Interferes request cid
  serve_call-Journals request (clear_post cid) =
      clear_thread-Journals host scope lib undisturbed undisturbed-Interferes request cid
  serve_call-Journals request (activity_post cid) =
      announce_in-Journals host scope lib undisturbed undisturbed-Interferes request cid
  serve_call-Journals request (message_patch cid mid) =
      patch_message-Journals host scope lib undisturbed undisturbed-Interferes request cid mid
  serve_call-Journals request (message_delete cid mid) =
      remove_message-Journals host scope lib undisturbed undisturbed-Interferes request cid mid
  serve_call-Journals request (assign_post cid) = assign_thread-Journals host scope lib request cid
  serve_call-Journals request (resolve_post cid) =
      move_thread-Journals host scope lib request true cid
  serve_call-Journals request (reopen_post cid) =
      move_thread-Journals host scope lib request false cid

  serve_visit-run : (visit : Visit) (w : World) → IsJournal w → RunFrom w (serve_visit visit w)
  unfolding serve_visit
  serve_visit-run (by_frame cid user frame) w j =
      serve_frame-run host undisturbed undisturbed-Interferes cid user frame w j
  serve_visit-run (by_request request call) w j = (serve_call-Journals request call).at w j
  serve_visit-run (elapsed seconds) w j =
      SameRows-RunFrom
        (record { same_conversations = refl; same_messages = refl; same_next = refl })

  -- From a well-formed journal, the frames and the requests of any users, one after the other, are
  -- one run of the journal, whatever they hold and whichever of them fail.
  pub serve_visits-RunFrom :
      (visits : List Visit) (w : World) → IsJournal w → RunFrom w (serve_visits visits w)
  unfolding serve_visits
  serve_visits-RunFrom [] w j = done
  serve_visits-RunFrom (visit ∷ visits) w j =
      let first = serve_visit-run visit w j in
      RunFrom-trans first (serve_visits-RunFrom visits _ (Run-IsJournal first j))

  -- From a well-formed journal, whatever frames and requests of any users are served, with any time
  -- in between, the journal is well formed: ids, sequences and revisions stay apart, and every row
  -- lies within what its conversation has handed out.
  pub serve_visits-IsJournal :
      (visits : List Visit) (w : World) → IsJournal w → IsJournal (serve_visits visits w)
  serve_visits-IsJournal visits w j = Run-IsJournal (serve_visits-RunFrom visits w j) j

  -- A client that was up to date at a cursor, was away while frames and requests of any users were
  -- served, and then catches up by a page that is not full, holds exactly what the conversation now
  -- shows of each row it may see.
  pub serve_visits_resume :
      (visits : List Visit) (w : World) (cache : Cache) (cid c limit : ℕ) (mark : Option ℕ)
      (m : Message)
      → IsJournal w
      → c ≤ last_seq_of w.conversations cid
      → IsCurrent cache cid c mark w.messages
      → length (journal_rows (serve_visits visits w) cid c limit mark) < limit
      → In m (serve_visits visits w).messages
      → m.conversation ≡ cid
      → is_visible mark m ≡ true
      → catch_up cache (journal_rows (serve_visits visits w) cid c limit mark) m.id
        ≡ some (message_payload m)
  serve_visits_resume visits w cache cid c limit mark m j low current short i here seen =
      resume-is_complete w (serve_visits visits w) cache cid c limit mark m j
        (serve_visits-RunFrom visits w j) low current short i here seen
