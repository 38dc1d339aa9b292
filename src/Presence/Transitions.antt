-- ===== src/Presence/Transitions.antt =====
-- presence.py, `on_connect` and `on_disconnect`: the count, the lease and their answers.
use stapel_chat.Base.{
  Bool, Bool-cases, List, Option-cases, [], ap, arith, false, find?, inl, inr, leb, ltb, none, not,
  refl, some, true, update_where, ℕ, ◌&&◌, ◌++◌, ◌+◌, ◌-◌, ◌==◌, ◌∙◌, ◌∷◌, ◌≡◌,
}
use stapel_chat.Model.{UserPresence}
use stapel_chat.Presence.{
  announce, announced_threads, broadcast_to, connected, disconnected, ensure_presence, is_online,
  is_row_of, lease, lease_ended, on_connect, on_disconnect, presence_of, store_presence,
}
use stapel_chat.Settings.{Host}
use stapel_chat.World.{World}

abbrev pub online_in : World → ℕ → Bool
online_in w user = is_online (presence_of user w) w.clock

pub find_updated :
    (user : ℕ) (change : UserPresence → UserPresence) (rows : List UserPresence)
    (row : UserPresence)
    → ((r : UserPresence) → (change r).user ≡ r.user)
    → find? (is_row_of user) rows ≡ some row
    → find? (is_row_of user) (update_where (is_row_of user) change rows) ≡ some (change row)
find_updated user change [] row keeps e = absurd (ground arith)
find_updated user change (r ∷ rows) row keeps e = elim (Bool-cases (r.user == user)) [
  | inl t ↦
      let kept : ((change r).user == user) ≡ true = rw (keeps r) t in
      let same : r ≡ row = ground arith in rw (t, kept) (ap some (ap change same))
  | inr t ↦ rw (t) (rw t (find_updated user change rows row keeps (ground arith)))
]

broadcast_to_presences :
    (user : ℕ) (online : Bool) (seen until : ℕ) (cids : List ℕ) (w : World)
    → ((broadcast_to user online seen until cids w).presences ≡ w.presences)
      × ((broadcast_to user online seen until cids w).clock ≡ w.clock)
unfolding broadcast_to
broadcast_to_presences user online seen until [] w = (refl, refl)
broadcast_to_presences user online seen until (cid ∷ cids) w =
    broadcast_to_presences user online seen until cids _

pub announce_presences :
    (host : Host) (user : ℕ) (online : Bool) (seen until : ℕ) (w : World)
    → ((announce host user online seen until w).presences ≡ w.presences)
      × ((announce host user online seen until w).clock ≡ w.clock)
unfolding announce
announce_presences host user online seen until w =
    broadcast_to_presences user online seen until (announced_threads host w user) w

-- The sockets believed open for a user.
abbrev pub connections_of : World → ℕ → ℕ
connections_of w user = elim (presence_of user w) [ none ↦ 0 | some row ↦ row.connections ]

find_appended :
    (user : ℕ) (rows : List UserPresence) (row : UserPresence)
    → find? (is_row_of user) rows ≡ none
    → row.user ≡ user
    → find? (is_row_of user) (rows ++ row ∷ []) ≡ some row
find_appended user [] row e t = ground arith
find_appended user (r ∷ rows) row e t = ground (arith, find_appended user rows row)

-- The row after `get_or_create`, with the count it had.
pub ensured :
    (user : ℕ) (w : World)
    → (row : UserPresence) × (presence_of user (ensure_presence user w) ≡ some row)
      × (row.connections ≡ connections_of w user)
unfolding ensure_presence presence_of
ensured user w = elim (Option-cases (find? (is_row_of user) w.presences)) [
  | inr (row, e) ↦ (row, ground arith, ground arith)
  | inl e ↦
      let row : UserPresence = record {
        user = user;
        connections = 0;
        online_until = some w.clock;
        last_seen_at = some w.clock;
      } in
      (row, rw (e, ensure_presence) (find_appended user w.presences row e refl), ground arith)
]

ensure_presence_clock : (user : ℕ) (w : World) → (ensure_presence user w).clock ≡ w.clock
unfolding ensure_presence presence_of
ensure_presence_clock user w = ground arith

-- The two branches of `on_connect` leave the same rows and the same clock.
pub on_connect-rows :
    (host : Host) (user : ℕ) (w : World)
    → let counted =
        store_presence user (connected w.clock (w.clock + lease host)) (ensure_presence user w) in
      ((on_connect host user w).1.presences ≡ counted.presences)
      × ((on_connect host user w).1.clock ≡ w.clock)
      × ((on_connect host user w).0 ≡ not (online_in w user))
unfolding on_connect
on_connect-rows host user w =
    let counted =
      store_presence user (connected w.clock (w.clock + lease host)) (ensure_presence user w) in
    let told = announce_presences host user true w.clock (w.clock + lease host) counted in
    elim (Bool-cases (is_online (presence_of user w) w.clock)) [
      | inl t ↦ rw t (refl, ensure_presence_clock user w, refl)
      | inr t ↦ rw t (told.0, told.1 ∙ ensure_presence_clock user w, refl)
    ]

-- After a connect the user is online with one socket more, and the answer says whether they were
-- not online before.
pub on_connect_online :
    (host : Host) (user : ℕ) (w : World)
    → let v = (on_connect host user w).1 in
      (online_in v user ≡ true)
      × (connections_of v user ≡ connections_of w user + 1)
      × ((on_connect host user w).0 ≡ not (online_in w user))
on_connect_online host user w =
    let v = (on_connect host user w).1 in
    let out = on_connect-rows host user w in
    let (row, found, count) = ensured user w in
    let change = connected w.clock (w.clock + lease host) in
    let here : presence_of user v ≡ some (change row) =
      unfold presence_of in
      rw out.0
        (find_updated user change (ensure_presence user w).presences row (λ r. refl) found) in
    (unfold is_online in ground (arith, out.1), ground arith, out.2)

-- The two ways a disconnect of a known user ends, by the sockets that are left.
abbrev pub counted_down : ℕ → World → World
counted_down user w = store_presence user (disconnected w.clock) w

pub still_connected :
    (host : Host) (user : ℕ) (w : World) (row : UserPresence)
    → presence_of user (counted_down user w) ≡ some row
    → ltb 0 row.connections ≡ true
    → on_disconnect host user w ≡ (false, counted_down user w)
unfolding on_disconnect
still_connected host user w row e t = ground arith

pub last_closed :
    (host : Host) (user : ℕ) (w : World) (row : UserPresence)
    → presence_of user (counted_down user w) ≡ some row
    → ltb 0 row.connections ≡ false
    → on_disconnect host user w ≡ (
      true,
      announce host user false w.clock w.clock
          (store_presence user (lease_ended w.clock) (counted_down user w)),
    )
unfolding on_disconnect
last_closed host user w row e t = ground arith

-- After a disconnect one socket less is counted. The user stays online exactly while another socket
-- is open and they were online; the answer says whether it was their last, and then they are offline.
pub on_disconnect_online :
    (host : Host) (user : ℕ) (w : World) (row : UserPresence)
    → presence_of user w ≡ some row
    → let v = (on_disconnect host user w).1 in
      (online_in v user ≡ (ltb 1 row.connections && online_in w user))
      × (connections_of v user ≡ row.connections - 1)
      × ((on_disconnect host user w).0 ≡ leb row.connections 1)
on_disconnect_online host user w row e =
    let row' = disconnected w.clock row in
    let counted = counted_down user w in
    let found : presence_of user counted ≡ some row' =
      unfold presence_of in
      find_updated user (disconnected w.clock) w.presences row (λ r. refl) e in
    let ended = store_presence user (lease_ended w.clock) counted in
    let told = announce_presences host user false w.clock w.clock ended in
    let last : presence_of user (announce host user false w.clock w.clock ended)
        ≡ some (lease_ended w.clock row') =
      unfold presence_of in
      rw told.0
        (find_updated user (lease_ended w.clock) counted.presences row' (λ r. refl) found) in
    elim (Bool-cases (ltb 0 row'.connections)) [
      | inl t ↦
          rw (still_connected host user w row' found t)
            (unfold is_online in ground arith, ground arith, ground arith)
      | inr t ↦
          rw (last_closed host user w row' found t)
            (unfold is_online in ground (arith, told.1), ground arith, ground arith)
    ]

-- Two sockets and one closed: the person is still online.
pub second_tab_keeps_online :
    (host : Host) (user : ℕ) (w : World)
    → let both = (on_connect host user (on_connect host user w).1).1 in
      let left = on_disconnect host user both in (online_in left.1 user ≡ true) × (left.0 ≡ false)
second_tab_keeps_online host user w =
    let one = (on_connect host user w).1 in
    let both = (on_connect host user one).1 in
    let first = on_connect_online host user w in
    let second = on_connect_online host user one in
    elim (Option-cases (presence_of user both)) [
      | inl missing ↦ absurd (ground (arith, second.1))
      | inr (row, e) ↦
          let count : row.connections ≡ connections_of w user + 1 + 1 =
            ground (arith, second.1, first.1) in
          let out = on_disconnect_online host user both row e in
          (ground (arith, out.0, second.0, count), ground (arith, out.2, count))
    ]
