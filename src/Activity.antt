-- ===== src/Activity.antt =====
-- activity.py, the states and their lifetime, and services.py's announcement of one.
use stapel_chat.Base.{List, Option, Text, [], codes, lookup, none, some, ℕ, ◌∷◌}
use stapel_chat.Registry.{effective}
use stapel_chat.Settings.{ActivityState, Host}
use stapel_chat.World.{
  Exec, Result, broadcast_activity, err, lift, modify, ok, on_commit, unknown_activity_state, ◌>>=◌,
}

-- `resolve_activity`
abbrev pub default_ttl_s : ℕ
default_ttl_s = 6

abbrev pub builtin_activity_states : List (Text × Option ActivityState)
builtin_activity_states =
    (codes "idle", some (record { ttl_s = some 0 }))
    ∷ (codes "typing", some (record { ttl_s = some default_ttl_s }))
    ∷ (codes "recording_audio", some (record { ttl_s = some 30 }))
    ∷ (codes "sending_video", some (record { ttl_s = some 60 }))
    ∷ (codes "uploading_file", some (record { ttl_s = some 60 }))
    ∷ []

abbrev ttl_or_default : Option ℕ → ℕ
ttl_or_default none = default_ttl_s
ttl_or_default (some n) = n

unfoldable pub resolve_activity : Host → Text → Result ℕ
unfolding effective lookup
resolve_activity host state =
    elim (lookup state
      (effective builtin_activity_states host.activity_states host.runtime_activity_states)) [
        | none ↦ err unknown_activity_state
        | some spec ↦ ok (ttl_or_default spec.ttl_s)
      ]

-- `announce_activity`, which persists nothing: its frame goes out at once
unfoldable pub announce_activity : Host → ℕ → ℕ → Text → Exec Unit
unfolding resolve_activity
announce_activity host cid user state =
    lift (resolve_activity host state)
    >>= (λ ttl. modify (on_commit (broadcast_activity cid user state ttl)))
