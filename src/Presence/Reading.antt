-- ===== src/Presence/Reading.antt =====
-- presence.py, the reads, and services.py's `presence_for` of a page.
use stapel_chat.Base.{
  Bool, List, Option, [], false, if◌then◌else◌, none, not, some, true, ℕ, ◌++◌, ◌==◌, ◌∷◌,
}
use stapel_chat.Model.{Conversation, UserPresence}
use stapel_chat.Presence.{is_online, presence_of}
use stapel_chat.Sending.{participant_ids}
use stapel_chat.Settings.{Host}
use stapel_chat.World.{World}

pub record Seen : Type 0 where
  pub online : Bool
  pub last_seen_at : Option ℕ
  pub online_until : Option ℕ

-- `UNKNOWN`
abbrev pub unknown_presence : Seen
unknown_presence = record { online = false; last_seen_at = none; online_until = none }

-- The entry of one user in `snapshot`
abbrev seen_row : ℕ → Option UserPresence → Seen
seen_row now none = unknown_presence
seen_row now (some row) = record {
  online = is_online (some row) now;
  last_seen_at = row.last_seen_at;
  online_until = row.online_until;
}

unfoldable pub seen_of : World → ℕ → Seen
unfolding is_online presence_of
seen_of w user = seen_row w.clock (presence_of user w)

-- `snapshot`, as the dict that it is: who was asked for, and what is answered
unfoldable snapshot : World → List ℕ → List (ℕ × Seen)
unfolding seen_of
snapshot w [] = []
snapshot w (user ∷ users) = (user, seen_of w user) ∷ snapshot w users

-- `presence.get(user_id) or {}`, with the defaults of the response
unfoldable pub presence_in : List (ℕ × Seen) → ℕ → Seen
presence_in [] user = unknown_presence
presence_in ((k, seen) ∷ rest) user =
    let later = presence_in rest user in if k == user then seen else later

-- `for_user`
unfoldable pub for_user : World → ℕ → Seen
unfolding snapshot presence_in
for_user w user = presence_in (snapshot w (user ∷ [])) user

-- `readable_by`, where the caller is signed in: `is_account` is that they are no guest
unfoldable pub readable_by : Host → ℕ → Bool
readable_by host user =
    if not host.presence_requires_account then true else not (host.is_guest user)

abbrev pub members_of : World → List Conversation → List ℕ
members_of w [] = []
members_of w (c ∷ cs) = participant_ids w c.id ++ members_of w cs

-- `presence_for`
unfoldable pub presence_for : Host → World → List Conversation → ℕ → List (ℕ × Seen)
unfolding readable_by snapshot participant_ids
presence_for host w cs viewer =
    if not (readable_by host viewer) then [] else snapshot w (members_of w cs)
