-- ===== src/Checks.antt =====
-- checks.py, the checks that read settings and nothing else: the kinds of threads, the bound on a
-- body and the windows of presence.
use stapel_chat.Base.{
  Bool, List, Option, Text, [], any, codes, false, has_text, if◌then◌else◌, ltb, none, not, some, ℕ,
  ◌++◌, ◌∷◌,
}
use stapel_chat.Settings.{Host}

-- A value of a settings file, as far as these checks tell values apart: `negative n` is -n - 1, and
-- a sequence is a list or a tuple of words.
pub data Setting : Type 0 where
  whole negative : ℕ → Setting
  switch : Bool → Setting
  word : Text → Setting
  sequence : List Text → Setting
  anything : Setting

-- The id of a check's error, and the setting it names first.
pub record Issue : Type 0 where
  pub id : Text
  pub setting : Text

-- `_VALID_KINDS`
abbrev pub valid_kinds : List Text
valid_kinds = codes "direct" ∷ codes "group" ∷ codes "support" ∷ []

abbrev pub kinds_issue : Issue
kinds_issue = record { id = codes "stapel_chat.E003"; setting = codes "CHAT_KINDS" }

-- `not kinds or set(kinds) - _VALID_KINDS`
unfoldable pub are_kinds : List Text → Bool
unfolding has_text
are_kinds [] = false
are_kinds (k ∷ ks) = not (any (λ x. not (has_text x valid_kinds)) (k ∷ ks))

-- `check_chat_kinds`
unfoldable pub check_chat_kinds : Setting → List Issue
unfolding are_kinds
check_chat_kinds (sequence ks) = if are_kinds ks then [] else kinds_issue ∷ []
check_chat_kinds _ = kinds_issue ∷ []

-- `isinstance(value, int) and not isinstance(value, bool) and value >= floor`, with the value
unfoldable pub at_least : ℕ → Setting → Option ℕ
at_least floor (whole n) = if ltb n floor then none else some n
at_least floor _ = none

-- `check_max_body_length`
unfoldable pub check_max_body_length : Setting → List Issue
unfolding at_least
check_max_body_length value = elim (at_least 1 value) [
  | none ↦ record { id = codes "stapel_chat.E004"; setting = codes "MAX_BODY_LENGTH" } ∷ []
  | some n ↦ []
]

abbrev pub window_issue : Text → Issue
window_issue name = record { id = codes "stapel_chat.E021"; setting = name }

unfoldable pub floor_issues : Text → ℕ → Setting → List Issue
unfolding at_least
floor_issues name floor value = elim (at_least floor value) [
  | none ↦ window_issue name ∷ []
  | some n ↦ []
]

-- The comparison of the throttle with the lease, which is made between two integers.
unfoldable pub throttle_issues : Setting → Setting → List Issue
throttle_issues (whole ttl) (whole throttle) =
    if ltb throttle ttl then [] else window_issue (codes "PRESENCE_WRITE_THROTTLE_S") ∷ []
throttle_issues _ _ = []

-- `check_presence_windows`
unfoldable pub check_presence_windows : Setting → Setting → Setting → List Issue
unfolding floor_issues throttle_issues
check_presence_windows ttl throttle fanout =
    let issues =
      floor_issues (codes "PRESENCE_TTL_S") 1 ttl
      ++ (floor_issues (codes "PRESENCE_WRITE_THROTTLE_S") 0 throttle
          ++ floor_issues (codes "PRESENCE_FANOUT_LIMIT") 0 fanout) in
    elim issues [ [] ↦ throttle_issues ttl throttle | i ∷ rest ↦ i ∷ rest ]

-- The windows of presence of a deployment, as the check reads them.
abbrev pub window_issues : Host → List Issue
window_issues host =
    check_presence_windows (whole host.presence_ttl) (whole host.presence_throttle)
      (whole host.presence_fanout_limit)
