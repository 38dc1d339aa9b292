-- ===== src/Registry.antt =====
-- The open registries of activity.py, attachments.py and subjects.py, which are merged alike:
-- builtins, then the settings, then what was registered at runtime; a later layer wins and `None`
-- removes a name.
pub mod Lookup
use stapel_chat.Base.{List, Option, Text, [], if◌then◌else◌, none, some, text_eq, ◌∷◌}

-- `merged[name] = spec`
unfoldable pub put {ℓ} : {V : Type ℓ} → Text → V → List (Text × V) → List (Text × V)
unfolding text_eq
put k v [] = (k, v) ∷ []
put k v ((j, u) ∷ d) = if text_eq j k then (k, v) ∷ d else (j, u) ∷ put k v d

-- `for name, spec in source.items(): merged[name] = spec`
unfoldable pub overlay {ℓ} : {V : Type ℓ} → List (Text × V) → List (Text × V) → List (Text × V)
unfolding put
overlay d [] = d
overlay d ((k, v) ∷ source) = overlay (put k v d) source

-- `{name: spec for name, spec in merged.items() if spec is not None}`
unfoldable pub live_entries {ℓ} : {V : Type ℓ} → List (Text × Option V) → List (Text × V)
live_entries [] = []
live_entries ((k, none) ∷ d) = live_entries d
live_entries ((k, some v) ∷ d) = (k, v) ∷ live_entries d

unfoldable pub effective {ℓ} :
    {V : Type ℓ}
    → List (Text × Option V)
    → List (Text × Option V)
    → List (Text × Option V)
    → List (Text × V)
unfolding overlay live_entries
effective builtins settings runtime = live_entries (overlay (overlay builtins settings) runtime)
