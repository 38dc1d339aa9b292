-- ===== src/Socket/Counted.antt =====
-- The count of a user's open sockets and the sockets that count, while the database answers.
use stapel_chat.Base.{
  ==_self, All, Bool, Bool-cases, List, Option, Option-cases, [], arith, false, if◌then◌else◌, inl,
  inr, ltb, none, not, refl, some, subst, suc, sym, true, zero, ℕ, ◌&&◌, ◌+◌, ◌==◌, ◌||◌, ◌∙◌, ◌∷◌,
  ◌≡◌,
}
use stapel_chat.Presence.{is_online, on_connect, on_disconnect, presence_of, touch}
use stapel_chat.Presence.Counting.{
  on_connect_others, on_disconnect_count, on_disconnect_others, touch_connections,
}
use stapel_chat.Presence.Transitions.{connections_of, on_connect_online, online_in}
use stapel_chat.Settings.{Host}
use stapel_chat.Socket.Presence.{
  Connection, Happening, at_socket, closing, connect, counts_for, disconnect, for_owner, happen,
  happen_all, incoming, opening, passing, presence_evidence, sockets_of, touch_interval,
}
use stapel_chat.Subjects.{answered}
use stapel_chat.World.{World}

-- What a call on one socket leaves of the count: `n` is what the other sockets count.
abbrev Balances : ℕ → (Connection → World → Connection × World) → Type 0
Balances user call =
    (c : Connection) (w : World) (n : ℕ)
    → connections_of w user ≡ counts_for user c + n
    → connections_of (call c w).1 user ≡ counts_for user (call c w).0 + n

at_socket-balance :
    (user k : ℕ) (call : Connection → World → Connection × World) (cs : List Connection) (w : World)
    (n : ℕ)
    → Balances user call
    → connections_of w user ≡ sockets_of user cs + n
    → connections_of (at_socket k call cs w).1 user ≡ sockets_of user (at_socket k call cs w).0 + n
unfolding sockets_of
at_socket-balance user k call [] w n steps e = e
at_socket-balance user zero call (c ∷ cs) w n steps e =
    omega (arith, steps c w (sockets_of user cs + n) (omega (arith, e)))
at_socket-balance user (suc k) call (c ∷ cs) w n steps e =
    omega
      (arith, at_socket-balance user k call cs w (counts_for user c + n) steps (omega (arith, e)))

-- What the closing of one user's socket leaves of anybody's count, and what life on it does.
closed_count :
    (host : Host) (owner user n : ℕ) (w : World)
    → connections_of w user ≡ (if owner == user then 1 else 0) + n
    → connections_of (on_disconnect host owner w).1 user ≡ n
closed_count host owner user n w e = elim (Bool-cases (owner == user)) [
  | inl t ↦
      let same : owner ≡ user = ground arith in
      subst (λ u. connections_of (on_disconnect host u w).1 user ≡ n) (sym same)
        (ground (arith, on_disconnect_count host user w))
  | inr t ↦ on_disconnect_others host owner user w (λ same. ground arith) ∙ ground arith
]

opened_count :
    (host : Host) (owner user : ℕ) (w : World)
    → connections_of (on_connect host owner w).1 user
      ≡ (if owner == user then 1 else 0) + connections_of w user
opened_count host owner user w = elim (Bool-cases (owner == user)) [
  | inl t ↦
      let same : owner ≡ user = ground arith in
      subst
        (λ u.
          connections_of (on_connect host u w).1 user
          ≡ (if u == user then 1 else 0) + connections_of w user)
        (sym same) (rw (==_self user) (omega (arith, (on_connect_online host user w).1)))
  | inr t ↦ rw t (omega (arith, on_connect_others host owner user w (λ same. ground arith)))
]

disconnect-parts :
    (host : Host) (user : ℕ) (owner : Option ℕ) (is_counted : Bool) (touched_at : ℕ) (w : World)
    (n : ℕ)
    → let c : Connection = record {
      owner = owner;
      is_counted = is_counted;
      touched_at = touched_at;
    } in
      connections_of w user ≡ counts_for user c + n
      → connections_of (disconnect host true c w).1 user
        ≡ counts_for user (disconnect host true c w).0 + n
unfolding disconnect
disconnect-parts host user owner false touched_at w n e = e
disconnect-parts host user none true touched_at w n e = e
disconnect-parts host user (some u) true touched_at w n e =
    omega (arith, closed_count host u user n w e)

disconnect-balance : (host : Host) (user : ℕ) → Balances user (disconnect host true)
disconnect-balance host user c w n e =
    disconnect-parts host user c.owner c.is_counted c.touched_at w n e

touched_count :
    (host : Host) (owner : Option ℕ) (user : ℕ) (w : World)
    → connections_of (for_owner true (touch host) owner w) user ≡ connections_of w user
touched_count host none user w = refl
touched_count host (some u) user w = touch_connections host u user w

evidence-balance :
    (host : Host) (user reading : ℕ) → Balances user (presence_evidence host true reading)
unfolding presence_evidence
evidence-balance host user reading c w n e =
    elim (Bool-cases (not c.is_counted || ltb reading (c.touched_at + touch_interval))) [
      | inl t ↦ rw t e
      | inr t ↦ rw t (touched_count host c.owner user w ∙ e)
    ]

connect-balance :
    (host : Host) (user : ℕ) (accepted : Bool) (owner : Option ℕ) (w : World)
    → connections_of (connect host true accepted owner w).1 user
      ≡ counts_for user (connect host true accepted owner w).0 + connections_of w user
unfolding connect
connect-balance host user accepted none w = omega arith
connect-balance host user false (some u) w = omega arith
connect-balance host user true (some u) w = opened_count host u user w

-- The database answers whatever presence asks of it.
abbrev pub IsAnswered : Happening → Type 0
IsAnswered (opening answers accepted owner) = answers ≡ true
IsAnswered (incoming answers k reading) = answers ≡ true
IsAnswered (closing answers k) = answers ≡ true
IsAnswered (passing seconds) = Unit

-- The connection count of every user is the number of their sockets that count.
abbrev pub IsCounted : List Connection × World → Type 0
IsCounted (cs, w) = (user : ℕ) → connections_of w user ≡ sockets_of user cs

happen-IsCounted :
    (host : Host) (h : Happening) (cs : List Connection) (w : World)
    → IsAnswered h
    → IsCounted (cs, w)
    → IsCounted (happen host h (cs, w))
unfolding happen sockets_of presence_of
happen-IsCounted host (opening answers accepted owner) cs w answered counted user =
    rw answered (ground (arith, connect-balance host user accepted owner w, counted user))
happen-IsCounted host (incoming answers k reading) cs w answered counted user = rw answered (
    omega (
      arith,
      at_socket-balance user k (presence_evidence host true reading) cs w 0
          (evidence-balance host user reading) (omega (arith, counted user)),
    ))
happen-IsCounted host (closing answers k) cs w answered counted user = rw answered (
    omega (
      arith,
      at_socket-balance user k (disconnect host true) cs w 0 (disconnect-balance host user)
          (omega (arith, counted user)),
    ))
happen-IsCounted host (passing seconds) cs w answered counted user = counted user

happen_all_count :
    (host : Host) (hs : List Happening) (cs : List Connection) (w : World)
    → All IsAnswered hs
    → IsCounted (cs, w)
    → IsCounted (happen_all host hs (cs, w))
unfolding happen_all
happen_all_count host [] cs w answered counted = counted
happen_all_count host (h ∷ hs) cs w answered counted =
    let moved_on = happen host h (cs, w) in
    happen_all_count host hs moved_on.0 moved_on.1 answered.1
      (happen-IsCounted host h cs w answered.0 counted)

none_open_offline :
    (w : World) (user n : ℕ)
    → connections_of w user ≡ n
    → online_in w user ≡ (ltb 0 n && online_in w user)
none_open_offline w user n e = elim (Option-cases (presence_of user w)) [
  | inl missing ↦ unfold is_online in ground arith
  | inr (row, found) ↦ unfold is_online in ground arith
]

-- Whatever happens to the sockets of all users, opening, speaking and closing in any order, each any
-- number of times and with any time in between, the connection count of every user stays the number
-- of their sockets that count, as long as the database answers; and a user none of whose sockets
-- counts is not online.
pub happen_all-IsCounted :
    (host : Host) (hs : List Happening) (cs : List Connection) (w : World) (user : ℕ)
    → All IsAnswered hs
    → IsCounted (cs, w)
    → let after = happen_all host hs (cs, w) in
      (connections_of after.1 user ≡ sockets_of user after.0)
      × (online_in after.1 user ≡ (ltb 0 (sockets_of user after.0) && online_in after.1 user))
happen_all-IsCounted host hs cs w user answered counted =
    let open_now = happen_all_count host hs cs w answered counted user in
    (open_now, none_open_offline (happen_all host hs (cs, w)).1 user _ open_now)
