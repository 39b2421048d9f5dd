-- ===== src/Xray/Activate.antt =====
-- `Activate` of agent/internal/xray/activate.go: the switch to another binary, and the way back.
pub mod Kept
pub mod Verdict
pub mod Binary
use chiral.Prelude.{Bool, true, false, not, String, List, Option, none, some, if◌then◌else◌, str_eq}
use chiral.Xray.{Manager, Launch, StartError, set_binary, restart, Poll, stays_up, crash_if}

-- `Outcome`
pub data Outcome : Type 0 where
  active inconclusive failed : Outcome

-- The message of an outcome.
pub data Reason : Type 0 where
  already_running dropped_before : Reason
  could_not_start : StartError → Reason
  neither_starts : StartError → StartError → Reason
  exited_at_startup : Reason
  nothing_to_compare : String → Reason
  dropped_while_checking : Reason
  lost_path : String → Reason
  got_online : Reason

-- What the system answers during one call: the probe of the old binary, whether the stream ends by
-- then, the start of the new binary and the time after it, the probe of the new binary, whether the
-- process crashes or the stream ends during it, and the start of the old binary.
pub record Trial : Type 0 where
  pub baseline : Option String
  pub cancelled_before : Bool
  pub launch : Launch
  pub polls : List Poll
  pub crash_last : Bool
  pub check : Option String
  pub crash_in_check : Bool
  pub cancelled_after : Bool
  pub launch_back : Launch

module _ (version_of : String → String) where
  -- `rollback`
  unfoldable pub rollback : Trial → String → Reason → Manager → Manager × Outcome × Reason
  unfolding restart
  rollback t prev why m = ((restart version_of t.launch_back (set_binary prev m)).0, failed, why)

  abbrev pub back : StartError → Manager × Option StartError → Manager × Outcome × Reason
  back e (m, none) = (m, failed, could_not_start e)
  back e (m, some e') = (m, failed, neither_starts e e')

  abbrev pub checked : Trial → String → Manager → Option String → Manager × Outcome × Reason
  checked t prev m none = (m, active, got_online)
  checked t prev m (some e) =
      if t.cancelled_after
      then rollback t prev dropped_while_checking m
      else rollback t prev (lost_path e) m

  abbrev pub compared : Trial → String → Manager → Option String → Manager × Outcome × Reason
  compared t prev m (some e) = (m, inconclusive, nothing_to_compare e)
  compared t prev m none = checked t prev (crash_if t.crash_in_check m) t.check

  abbrev pub observed : Trial → String → Manager × Bool → Manager × Outcome × Reason
  observed t prev (m, false) = rollback t prev exited_at_startup m
  observed t prev (m, true) = compared t prev m t.baseline

  abbrev pub restarted : Trial → String → Manager × Option StartError → Manager × Outcome × Reason
  restarted t prev (m, some e) = back e (restart version_of t.launch_back (set_binary prev m))
  restarted t prev (m, none) = observed t prev (stays_up t.polls t.crash_last m)

  -- `Activate`
  unfoldable pub activate : Trial → String → Manager → Manager × Outcome × Reason
  unfolding rollback restart stays_up
  activate t bin m =
      if str_eq m.bin bin
      then (m, inconclusive, already_running)
      else if t.cancelled_before
      then (m, inconclusive, dropped_before)
      else restarted t m.bin (restart version_of t.launch (set_binary bin m))
