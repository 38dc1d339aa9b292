-- ===== src/History/Resume.antt =====
-- The resume protocol as a whole: away, then back.
use stapel_chat.Base.{All-In, In, Option, length, some, true, ℕ, ◌<◌, ◌≡◌, ◌≤◌}
use stapel_chat.History.{Cache, catch_up, is_visible, journal_rows, next_cursor}
use stapel_chat.History.Catchup.{IsCurrent, last_page-IsComplete, page-IsCurrent}
use stapel_chat.History.Offline.{Run-IsCurrent}
use stapel_chat.Journal.{IsJournal, RunFrom, last_seq_of}
use stapel_chat.Journal.Steps.{Run-IsJournal}
use stapel_chat.Model.{Message}
use stapel_chat.Realtime.{message_payload}
use stapel_chat.World.{World}

-- A client that was up to date at a cursor, was away while the services ran, and then catches up
-- by a page that is not full, holds exactly what the conversation now shows of each row it may see.
pub resume-is_complete :
    (w w' : World) (cache : Cache) (cid c limit : ℕ) (mark : Option ℕ) (m : Message)
    → IsJournal w
    → RunFrom w w'
    → c ≤ last_seq_of w.conversations cid
    → IsCurrent cache cid c mark w.messages
    → length (journal_rows w' cid c limit mark) < limit
    → In m w'.messages
    → m.conversation ≡ cid
    → is_visible mark m ≡ true
    → catch_up cache (journal_rows w' cid c limit mark) m.id ≡ some (message_payload m)
resume-is_complete w w' cache cid c limit mark m j run low current short i here seen =
    All-In _ w'.messages
      (last_page-IsComplete w' (Run-IsJournal run j) cid c limit mark cache
        (Run-IsCurrent cache cid c mark low run current) short)
      m i here seen

-- After any page of the replay, full or not, an up-to-date client holds each row it may see that
-- stands at or below the cursor the page leaves it with.
pub page_advances :
    (w : World) (cache : Cache) (cid c limit : ℕ) (mark : Option ℕ) (m : Message)
    → IsJournal w
    → IsCurrent cache cid c mark w.messages
    → In m w.messages
    → m.conversation ≡ cid
    → m.rev_seq ≤ next_cursor c (journal_rows w cid c limit mark)
    → is_visible mark m ≡ true
    → catch_up cache (journal_rows w cid c limit mark) m.id ≡ some (message_payload m)
page_advances w cache cid c limit mark m j current i here low seen =
    All-In _ w.messages (page-IsCurrent w j cid c limit mark cache current) m i here low seen
