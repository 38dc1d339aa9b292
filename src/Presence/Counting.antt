-- ===== src/Presence/Counting.antt =====
-- The connection count of every user under the three operations of presence.
use stapel_chat.Base.{
  ==_ne, Bool, Bool-cases, List, Option, Option-cases, [], ap, arith, false, find?, inl, inr, ltb,
  none, refl, some, sym, true, update_where, ℕ, ◌++◌, ◌+◌, ◌-◌, ◌==◌, ◌∙◌, ◌∷◌, ◌≡◌, ◌≢◌, ◌⊎◌,
}
use stapel_chat.Model.{UserPresence}
use stapel_chat.Presence.{
  connected, disconnected, ensure_presence, is_row_of, is_touched, lease, lease_ended, on_connect,
  on_disconnect, presence_of, store_presence, touch,
}
use stapel_chat.Presence.Transitions.{
  announce_presences, connections_of, counted_down, last_closed, on_connect-rows,
  on_disconnect_online, still_connected,
}
use stapel_chat.Settings.{Host}
use stapel_chat.World.{World}

abbrev count_in : Option UserPresence → ℕ
count_in none = 0
count_in (some row) = row.connections

-- A change of other rows, or of other columns, moves no count.
count_update :
    (user : ℕ) (q : UserPresence → Bool) (f : UserPresence → UserPresence)
    (rows : List UserPresence)
    → ((r : UserPresence) → (f r).user ≡ r.user)
    → ((r : UserPresence) → r.user ≡ user → q r ≡ true → (f r).connections ≡ r.connections)
    → count_in (find? (is_row_of user) (update_where q f rows))
      ≡ count_in (find? (is_row_of user) rows)
count_update user q f [] names same = refl
count_update user q f (r ∷ rows) names same =
    let rest = count_update user q f rows names same in
    elim (Bool-cases (q r)) [
      | inr s ↦ rw s (elim (Bool-cases (r.user == user)) [ inl t ↦ rw t refl | inr t ↦ rw t rest ])
      | inl s ↦ elim (Bool-cases (r.user == user)) [
        | inl t ↦
            let kept : ((f r).user == user) ≡ true = rw (names r) t in
            rw (s, t, kept) (same r (ground arith) s)
        | inr t ↦ let kept : ((f r).user == user) ≡ false = rw (names r) t in rw (s, t, kept) rest
      ]
    ]

pub touch_connections :
    (host : Host) (user other : ℕ) (w : World)
    → connections_of (touch host user w).1 other ≡ connections_of w other
unfolding touch presence_of
touch_connections host user other w =
    count_update other (is_touched host w.clock user) _ w.presences (λ r. refl) (λ r e t. refl)

-- A row of another user under a change of one user's row.
stored_others :
    (user other : ℕ) (change : UserPresence → UserPresence) (w : World)
    → other ≢ user
    → ((r : UserPresence) → (change r).user ≡ r.user)
    → connections_of (store_presence user change w) other ≡ connections_of w other
unfolding presence_of
stored_others user other change w apart names =
    count_update other (is_row_of user) change w.presences names
      (λ r e t. absurd (apart (ground arith)))

count_appended :
    (user : ℕ) (rows : List UserPresence) (row : UserPresence)
    → row.user ≢ user
    → count_in (find? (is_row_of user) (rows ++ row ∷ [])) ≡ count_in (find? (is_row_of user) rows)
count_appended user [] row apart = rw (==_ne row.user user apart) refl
count_appended user (r ∷ rows) row apart = elim (Bool-cases (r.user == user)) [
  | inl t ↦ rw t refl
  | inr t ↦ rw t (count_appended user rows row apart)
]

ensured_others :
    (user other : ℕ) (w : World)
    → other ≢ user
    → connections_of (ensure_presence user w) other ≡ connections_of w other
unfolding ensure_presence presence_of
ensured_others user other w apart = elim (Option-cases (find? (is_row_of user) w.presences)) [
  | inr (row, e) ↦ rw (connections_of, e) refl
  | inl e ↦ rw (connections_of, e) (count_appended other w.presences _ (λ same. apart (sym same)))
]

same_rows :
    (user : ℕ) (v w : World)
    → v.presences ≡ w.presences
    → connections_of v user ≡ connections_of w user
unfolding presence_of
same_rows user v w e = ap (λ rows. count_in (find? (is_row_of user) rows)) e

pub on_connect_others :
    (host : Host) (user other : ℕ) (w : World)
    → other ≢ user
    → connections_of (on_connect host user w).1 other ≡ connections_of w other
on_connect_others host user other w apart =
    let change = connected w.clock (w.clock + lease host) in
    let counted = store_presence user change (ensure_presence user w) in
    same_rows other (on_connect host user w).1 counted (on_connect-rows host user w).0
    ∙ stored_others user other change (ensure_presence user w) apart (λ r. refl)
    ∙ ensured_others user other w apart

unknown_closed :
    (host : Host) (user : ℕ) (w : World)
    → presence_of user (counted_down user w) ≡ none
    → (on_disconnect host user w).1 ≡ w
unfolding on_disconnect
unknown_closed host user w e = rw (on_disconnect, e) refl

none_updated :
    (user : ℕ) (change : UserPresence → UserPresence) (rows : List UserPresence)
    → find? (is_row_of user) rows ≡ none
    → find? (is_row_of user) (update_where (is_row_of user) change rows) ≡ none
none_updated user change [] e = refl
none_updated user change (r ∷ rows) e = elim (Bool-cases (r.user == user)) [
  | inl t ↦ absurd (ground arith)
  | inr t ↦ rw t (rw t (none_updated user change rows (ground arith)))
]

-- A closing of a user without a row, of one with a socket left, and of one without.
closing_cases :
    (host : Host) (user : ℕ) (w : World)
    → ((on_disconnect host user w).1 ≡ w)
      ⊎ (((on_disconnect host user w).1.presences ≡ (counted_down user w).presences)
          ⊎ ((on_disconnect host user w).1.presences
              ≡ (store_presence user (lease_ended w.clock) (counted_down user w)).presences))
closing_cases host user w =
    let counted = counted_down user w in
    elim (Option-cases (presence_of user counted)) [
      | inl e ↦ inl (unknown_closed host user w e)
      | inr (row, e) ↦ inr (elim (Bool-cases (ltb 0 row.connections)) [
        | inl t ↦ inl (ap (λ v. v.1.presences) (still_connected host user w row e t))
        | inr t ↦
            let ended = store_presence user (lease_ended w.clock) counted in
            inr (
              ap (λ v. v.1.presences) (last_closed host user w row e t)
              ∙ (announce_presences host user false w.clock w.clock ended).0)
      ])
    ]

pub on_disconnect_others :
    (host : Host) (user other : ℕ) (w : World)
    → other ≢ user
    → connections_of (on_disconnect host user w).1 other ≡ connections_of w other
on_disconnect_others host user other w apart =
    let down = stored_others user other (disconnected w.clock) w apart (λ r. refl) in
    elim (closing_cases host user w) [
      | inl e ↦ ap (λ v. connections_of v other) e
      | inr (inl e) ↦ same_rows other (on_disconnect host user w).1 (counted_down user w) e ∙ down
      | inr (inr e) ↦
          same_rows other (on_disconnect host user w).1
            (store_presence user (lease_ended w.clock) (counted_down user w)) e
          ∙ stored_others user other (lease_ended w.clock) (counted_down user w) apart (λ r. refl)
          ∙ down
    ]

pub on_disconnect_count :
    (host : Host) (user : ℕ) (w : World)
    → connections_of (on_disconnect host user w).1 user ≡ connections_of w user - 1
on_disconnect_count host user w = elim (Option-cases (presence_of user w)) [
  | inl missing ↦
      let still : presence_of user (counted_down user w) ≡ none =
        unfold presence_of in none_updated user (disconnected w.clock) w.presences missing in
      rw (unknown_closed host user w still) (ground (arith, missing))
  | inr (row, e) ↦ rw (connections_of, e) (on_disconnect_online host user w row e).1
]
