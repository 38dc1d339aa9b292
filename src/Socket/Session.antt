-- ===== src/Socket/Session.antt =====
-- What any frames of any users leave: the journal, and a client that comes back to it.
use stapel_chat.Base.{In, List, Option, [], length, some, true, ℕ, ◌<◌, ◌∷◌, ◌≡◌, ◌≤◌}
use stapel_chat.History.{Cache, catch_up, is_visible, journal_rows}
use stapel_chat.History.Catchup.{IsCurrent}
use stapel_chat.History.Resume.{resume-is_complete}
use stapel_chat.Journal.{IsJournal, RunFrom, done, last_seq_of}
use stapel_chat.Journal.Rules.{RunFrom-trans}
use stapel_chat.Journal.Sending.{undisturbed-Interferes}
use stapel_chat.Journal.Steps.{Run-IsJournal}
use stapel_chat.Model.{Message}
use stapel_chat.Realtime.{message_payload}
use stapel_chat.Sending.Post.{undisturbed}
use stapel_chat.Settings.{Host}
use stapel_chat.Socket.{Frame, serve_frames}
use stapel_chat.Socket.Runs.{serve_frame-run}
use stapel_chat.World.{World}

-- From a well-formed journal, the frames of any users on any sockets, one after the other, are one
-- run of the journal, whatever they hold and whichever of them fail.
pub serve_frames-RunFrom :
    (host : Host) (frames : List (ℕ × ℕ × Frame)) (w : World)
    → IsJournal w
    → RunFrom w (serve_frames host frames w)
unfolding serve_frames
serve_frames-RunFrom host [] w j = done
serve_frames-RunFrom host ((cid, user, frame) ∷ frames) w j =
    let first = serve_frame-run host undisturbed undisturbed-Interferes cid user frame w j in
    RunFrom-trans first (serve_frames-RunFrom host frames _ (Run-IsJournal first j))

-- A client that was up to date at a cursor, was away while any frames of any users were served, and
-- then catches up by a page that is not full, holds exactly what the conversation now shows of each
-- row it may see.
pub serve_frames_resume :
    (host : Host) (frames : List (ℕ × ℕ × Frame)) (w : World) (cache : Cache) (cid c limit : ℕ)
    (mark : Option ℕ) (m : Message)
    → IsJournal w
    → c ≤ last_seq_of w.conversations cid
    → IsCurrent cache cid c mark w.messages
    → length (journal_rows (serve_frames host frames w) cid c limit mark) < limit
    → In m (serve_frames host frames w).messages
    → m.conversation ≡ cid
    → is_visible mark m ≡ true
    → catch_up cache (journal_rows (serve_frames host frames w) cid c limit mark) m.id
      ≡ some (message_payload m)
serve_frames_resume host frames w cache cid c limit mark m j low current short i here seen =
    resume-is_complete w (serve_frames host frames w) cache cid c limit mark m j
      (serve_frames-RunFrom host frames w j) low current short i here seen
