-- ===== src/History.antt =====
-- services.py, "Clearing history" and `journal_rows`, with consumers.py's `_replay`: what one
-- reader is served of a conversation, and how a client resumes. The client is the one the
-- docstrings of models.py and consumers.py describe: it upserts by id and keeps the last frame's
-- sequence as its cursor.
pub mod Catchup
pub mod Offline
pub mod Resume
use stapel_chat.Base.{
  Bool, List, Option, [], filter, find?, if◌then◌else◌, last?, ltb, map, none, order_by, some, take,
  true, ℕ, ◌&&◌, ◌==◌, ◌∷◌,
}
use stapel_chat.Model.{Message, Participant}
use stapel_chat.Realtime.{message_payload}
use stapel_chat.World.{Payload, World}

-- `visible_messages`: `filter(created_at__gt=cleared_at)`, and a null mark hides nothing
unfoldable pub is_visible : Option ℕ → Message → Bool
is_visible none m = true
is_visible (some mark) m = ltb mark m.created_at

unfoldable pub visible_messages : Option ℕ → List Message → List Message
unfolding is_visible
visible_messages mark ms = filter (is_visible mark) ms

abbrev pub is_pending : ℕ → ℕ → Option ℕ → Message → Bool
is_pending cid after mark m = m.conversation == cid && (ltb after m.rev_seq && is_visible mark m)

-- `journal_rows`
unfoldable pub journal_rows : World → ℕ → ℕ → ℕ → Option ℕ → List Message
unfolding is_visible
journal_rows w cid after limit mark =
    take limit (order_by (λ m. m.rev_seq) (filter (is_pending cid after mark) w.messages))

-- `cleared_at_of`
unfoldable pub cleared_at_of : World → ℕ → ℕ → Option ℕ
cleared_at_of w cid user =
    elim (find? (λ (p : Participant). p.conversation == cid && p.user == user) w.participants) [
      | none ↦ none
      | some p ↦ p.cleared_at
    ]

-- `_replay`: each frame is the row's cursor and its payload
unfoldable pub replay_frames : World → ℕ → ℕ → ℕ → ℕ → List (ℕ × Payload)
unfolding journal_rows cleared_at_of
replay_frames w cid after limit user =
    map (λ m. (m.rev_seq, message_payload m))
      (journal_rows w cid after limit (cleared_at_of w cid user))

-- What a client holds: the payload of each id it has seen.
abbrev pub Cache : Type 0
Cache = ℕ → Option Payload

-- "A client upserts by `message_id`"
unfoldable pub upsert : Cache → Message → Cache
upsert cache m k = if m.id == k then some (message_payload m) else cache k

unfoldable pub catch_up : Cache → List Message → Cache
catch_up cache [] = cache
catch_up cache (m ∷ rows) = catch_up (upsert cache m) rows

-- "remembers the envelope's `seq` as its resume cursor"
unfoldable pub next_cursor : ℕ → List Message → ℕ
next_cursor c rows = elim (last? rows) [ none ↦ c | some m ↦ m.rev_seq ]
