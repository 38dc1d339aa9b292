-- ===== src/Socket/Presence.antt =====
-- consumers.py, `PresenceMixin`: a socket counts for its user once it is accepted, tells of life at
-- most once in its interval, and takes back what it counted when it closes.
use stapel_chat.Base.{
  Bool, List, Option, [], false, if◌then◌else◌, is_id, ltb, none, not, some, suc, true, zero, ℕ,
  ◌&&◌, ◌+◌, ◌||◌, ◌∷◌,
}
use stapel_chat.Presence.{on_connect, on_disconnect, touch}
use stapel_chat.Settings.{Host}
use stapel_chat.World.{World}

-- What one socket remembers. Its user is what `_user_id()` of the socket library answers.
pub record Connection : Type 0 where
  pub owner : Option ℕ
  pub is_counted : Bool
  pub touched_at : ℕ

-- `presence_touch_interval_s`
abbrev pub touch_interval : ℕ
touch_interval = 15

abbrev pub fresh_connection : Option ℕ → Connection
fresh_connection owner = record { owner = owner; is_counted = false; touched_at = 0 }

-- `answers` is whether the database does: a call of presence that raises is logged, and changes
-- nothing.
abbrev pub guarded : Bool → (World → Bool × World) → World → World
guarded answers call w = if answers then (call w).1 else w

-- `connect`, once the library has accepted the socket or closed it
unfoldable pub connect : Host → Bool → Bool → Option ℕ → World → Connection × World
connect host answers accepted none w = (fresh_connection none, w)
connect host answers accepted (some user) w =
    if accepted
    then (
      record (fresh_connection (some user)) { is_counted = true },
      guarded answers (on_connect host user) w,
    )
    else (fresh_connection (some user), w)

-- A call of presence for the owner, where there is one.
abbrev pub for_owner : Bool → (ℕ → World → Bool × World) → Option ℕ → World → World
for_owner answers call none w = w
for_owner answers call (some user) w = guarded answers (call user) w

-- `disconnect`
unfoldable pub disconnect : Host → Bool → Connection → World → Connection × World
disconnect host answers c w =
    if c.is_counted
    then (record c { is_counted = false }, for_owner answers (on_disconnect host) c.owner w)
    else (c, w)

-- `_presence_evidence`, at a reading of the monotonic clock
unfoldable pub presence_evidence : Host → Bool → ℕ → Connection → World → Connection × World
presence_evidence host answers reading c w =
    if not c.is_counted || ltb reading (c.touched_at + touch_interval)
    then (c, w)
    else (record c { touched_at = reading }, for_owner answers (touch host) c.owner w)

-- What happens to the sockets of a deployment, the sockets the newest first. The seconds
-- pass in between.
pub data Happening : Type 0 where
  opening : Bool → Bool → Option ℕ → Happening
  incoming : Bool → ℕ → ℕ → Happening
  closing : Bool → ℕ → Happening
  passing : ℕ → Happening

abbrev pub at_socket :
    ℕ
    → (Connection → World → Connection × World)
    → List Connection
    → World
    → List Connection × World
at_socket k call [] w = ([], w)
at_socket zero call (c ∷ cs) w = let (c', w') = call c w in (c' ∷ cs, w')
at_socket (suc k) call (c ∷ cs) w = let (cs', w') = at_socket k call cs w in (c ∷ cs', w')

unfoldable pub happen : Host → Happening → List Connection × World → List Connection × World
unfolding connect disconnect presence_evidence
happen host (opening answers accepted owner) (cs, w) =
    let (c, w') = connect host answers accepted owner w in (c ∷ cs, w')
happen host (incoming answers k reading) (cs, w) =
    at_socket k (presence_evidence host answers reading) cs w
happen host (closing answers k) (cs, w) = at_socket k (disconnect host answers) cs w
happen host (passing seconds) (cs, w) = (cs, record w { clock = w.clock + seconds })

unfoldable pub happen_all :
    Host → List Happening → List Connection × World → List Connection × World
unfolding happen
happen_all host [] s = s
happen_all host (h ∷ hs) s = happen_all host hs (happen host h s)

-- The sockets that count for a user.
abbrev pub counts_for : ℕ → Connection → ℕ
counts_for user c = if c.is_counted && is_id c.owner user then 1 else 0

unfoldable pub sockets_of : ℕ → List Connection → ℕ
sockets_of user [] = 0
sockets_of user (c ∷ cs) = counts_for user c + sockets_of user cs
