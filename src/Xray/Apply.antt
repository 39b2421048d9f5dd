-- ===== src/Xray/Apply.antt =====
-- `Apply` of agent/internal/xray/xray.go.
pub mod Pushed
use chiral.Prelude.{
  ℕ, Bool, true, false, not, ◌&&◌, String, List, Option, none, some, ltb, ◌==◌, if◌then◌else◌,
  str_eq,
}
use chiral.Xray.{
  Manager, Launch, XrayState, StartError, is_running, stop_locked, start_locked, Poll, stays_up,
}

pub data ApplyError : Type 0 where
  stale : ℕ → ℕ → ApplyError
  not_written not_renamed binary_not_found : ApplyError
  test_failed : String → ApplyError
  not_started : StartError → ApplyError
  exited : ApplyError

-- What the system answers during one call: the writing of the new file, the look-up of the binary,
-- `xray -test`, the renaming, the start of the process and the time after it.
pub record Push : Type 0 where
  pub written : Bool
  pub found : Bool
  pub tested : Option String
  pub renamed : Bool
  pub launch : Launch
  pub polls : List Poll
  pub crash_last : Bool

abbrev pub same_config : Option String → String → Bool
same_config none config = false
same_config (some old) config = str_eq old config

abbrev pub settled : Manager × Bool → Manager × Option ApplyError
settled (m, true) = (m, none)
settled (m, false) = (m, some exited)

abbrev pub settle : Push → ℕ → Manager × Option StartError → Manager × Option ApplyError
settle p version (m, some e) = (record m { state = XrayState.error }, some (not_started e))
settle p version (m, none) =
    settled (stays_up p.polls p.crash_last (record m { config_version = version }))

module _ (version_of : String → String) where
  -- The old process stops and one on the new file starts.
  unfoldable pub swap : Push → ℕ → String → Manager → Manager × Option ApplyError
  unfolding stop_locked start_locked stays_up
  swap p version config m =
      settle p version
        (start_locked version_of p.launch (stop_locked (record m { config = some config })))

  abbrev pub test_config : Push → ℕ → String → Manager → Option String → Manager × Option ApplyError
  test_config p version config m (some out) = (m, some (test_failed out))
  test_config p version config m none =
      if p.renamed then swap p version config m else (m, some not_renamed)

  -- `Apply`
  unfoldable pub apply : Push → ℕ → String → Manager → Manager × Option ApplyError
  unfolding swap
  apply p version config m =
      if not (m.config_version == 0) && ltb version m.config_version
      then (m, some (stale version m.config_version))
      else if is_running m.state && same_config m.config config
      then (record m { config_version = version }, none)
      else if not p.written
      then (m, some not_written)
      else if not p.found
      then (m, some binary_not_found)
      else test_config p version config m p.tested
