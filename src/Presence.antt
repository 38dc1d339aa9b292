-- ===== src/Presence.antt =====
-- presence.py: online is a connection count and a lease.
pub mod Transitions
pub mod Reading
pub mod Lease
pub mod Counting
use stapel_chat.Base.{
  Bool, List, Option, [], any, false, filter, find?, if◌then◌else◌, is_some, ltb, map, max, none,
  not, order_by, reverse, some, take, true, update_where, ℕ, ◌&&◌, ◌++◌, ◌+◌, ◌-◌, ◌==◌, ◌∷◌,
}
use stapel_chat.Model.{Conversation, Participant, UserPresence}
use stapel_chat.Settings.{Host}
use stapel_chat.World.{World, broadcast_presence, on_commit}

-- `is_online`
unfoldable pub is_online : Option UserPresence → ℕ → Bool
is_online none now = false
is_online (some row) now = elim row.online_until [
  | none ↦ false
  | some deadline ↦ ltb 0 row.connections && ltb now deadline
]

abbrev pub is_row_of : ℕ → UserPresence → Bool
is_row_of user row = row.user == user

unfoldable pub presence_of : ℕ → World → Option UserPresence
presence_of user w = find? (is_row_of user) w.presences

abbrev pub store_presence : ℕ → (UserPresence → UserPresence) → World → World
store_presence user change w = record w {
  presences = update_where (is_row_of user) change w.presences;
}

-- `_ttl`: `max(1, ...)`
abbrev pub lease : Host → ℕ
lease host = max 1 host.presence_ttl

-- The threads a flip is announced in: the user's own that they have not left, newest activity
-- first, up to the limit; a thread a guest takes part in is skipped.
abbrev pub activity_of : World → ℕ → ℕ
activity_of w cid = elim (find? (λ (c : Conversation). c.id == cid) w.conversations) [
  | none ↦ 0
  | some c ↦ c.updated_at
]

-- `order_by("-conversation__updated_at")`
unfoldable pub own_threads : Host → World → ℕ → List ℕ
own_threads host w user = take host.presence_fanout_limit (
    reverse (
      order_by (activity_of w) (
        map (λ p. p.conversation)
          (filter (λ (p : Participant). p.user == user && not (is_some p.left_at))
            w.participants))))

-- `listening`: somebody else in the thread is a guest
unfoldable pub guest_listens : Host → World → ℕ → ℕ → Bool
guest_listens host w user cid =
    any
      (λ (p : Participant). p.conversation == cid && (not (p.user == user) && host.is_guest p.user))
      w.participants

unfoldable pub announced_threads : Host → World → ℕ → List ℕ
unfolding own_threads guest_listens
announced_threads host w user =
    if host.presence_requires_account
    then filter (λ (cid : ℕ). not (guest_listens host w user cid)) (own_threads host w user)
    else own_threads host w user

unfoldable pub broadcast_to : ℕ → Bool → ℕ → ℕ → List ℕ → World → World
broadcast_to user online seen until [] w = w
broadcast_to user online seen until (cid ∷ cids) w =
    broadcast_to user online seen until cids
      (on_commit (broadcast_presence cid user online (some seen) (some until)) w)

-- `announce`
unfoldable pub announce : Host → ℕ → Bool → ℕ → ℕ → World → World
unfolding announced_threads broadcast_to
announce host user online seen until w =
    broadcast_to user online seen until (announced_threads host w user) w

abbrev pub connected : ℕ → ℕ → UserPresence → UserPresence
connected now deadline row = record row {
  connections = row.connections + 1;
  online_until = some deadline;
  last_seen_at = some now;
}

-- `get_or_create(user_id=..., defaults=...)`
unfoldable pub ensure_presence : ℕ → World → World
unfolding presence_of
ensure_presence user w = elim (presence_of user w) [
  | some row ↦ w
  | none ↦ record w {
    presences =
        w.presences
        ++ record {
          user = user;
          connections = 0;
          online_until = some w.clock;
          last_seen_at = some w.clock;
        }
          ∷ [];
  }
]

-- `on_connect`: whether the user became online
unfoldable pub on_connect : Host → ℕ → World → Bool × World
unfolding is_online presence_of ensure_presence
on_connect host user w =
    let was_online = is_online (presence_of user w) w.clock in
    let deadline = w.clock + lease host in
    let counted = store_presence user (connected w.clock deadline) (ensure_presence user w) in
    if was_online
    then (false, counted)
    else (true, announce host user true w.clock deadline counted)

-- `Greatest(F("connections") - 1, Value(0))` is subtraction that stops at 0.
abbrev pub disconnected : ℕ → UserPresence → UserPresence
disconnected now row = record row { connections = row.connections - 1; last_seen_at = some now }

abbrev pub lease_ended : ℕ → UserPresence → UserPresence
lease_ended now row = record row { online_until = some now }

-- `on_disconnect`: whether the user became offline
unfoldable pub on_disconnect : Host → ℕ → World → Bool × World
unfolding presence_of
on_disconnect host user w =
    let counted = store_presence user (disconnected w.clock) w in
    elim (presence_of user counted) [
      | none ↦ (false, w)
      | some row ↦ if ltb 0 row.connections then (false, counted) else (
        true,
        announce host user false w.clock w.clock
            (store_presence user (lease_ended w.clock) counted),
      )
    ]

-- `touch`: at most one write per throttle; the cutoff lies `presence_throttle` before now
abbrev pub is_stale : Host → ℕ → UserPresence → Bool
is_stale host now row = elim row.last_seen_at [
  | none ↦ true
  | some seen ↦ ltb (seen + host.presence_throttle) now
]

abbrev pub is_touched : Host → ℕ → ℕ → UserPresence → Bool
is_touched host now user row = row.user == user && is_stale host now row

unfoldable pub touch : Host → ℕ → World → Bool × World
touch host user w = (
  any (is_touched host w.clock user) w.presences,
  record w {
    presences =
        update_where (is_touched host w.clock user)
          (λ row. record row {
            last_seen_at = some w.clock;
            online_until = some (w.clock + lease host);
          })
          w.presences;
  },
)
