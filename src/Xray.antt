-- ===== src/Xray.antt =====
-- The kernel on a node: the `Manager` of agent/internal/xray/xray.go, which starts and stops the Xray
-- process. Each function is a part that runs under the lock; Apply, Activate and Install put them
-- together, and Steps interleaves them.
pub mod Apply
pub mod Activate
pub mod Install
pub mod Steps
mod Examples
use chiral.Prelude.{
  ℕ, suc, ◌+◌, Bool, true, false, not, ◌&&◌, String, List, [], ◌∷◌, ◌++◌, Option, none, some, ltb,
  ◌==◌, if◌then◌else◌, str_eq, keep,
}

-- `XrayState`
pub data XrayState : Type 0 where
  stopped running error : XrayState

-- What comes of starting a process: it runs, or the pipe or the exec fails.
pub data Launch : Type 0 where
  launched : Launch
  not_launched : String → Launch

-- `Manager`, with the file at `configPath`. A process is named by the generation that it was started
-- as: `cmd` is the one that the manager holds, `alive` are the children that have not exited, `waiters`
-- the goroutines that have not reported yet, and `crashes` the reports, the newest first.
pub record Manager : Type 0 where
  pub bin : String
  pub config : Option String
  pub cmd : Option ℕ
  pub state : XrayState
  pub config_version : ℕ
  pub running_bin : String
  pub running_version : String
  pub generation : ℕ
  pub alive : List ℕ
  pub waiters : List ℕ
  pub crashes : List ℕ

-- `New`
abbrev pub new_manager : String → Option String → Manager
new_manager bin config = record {
  bin = bin;
  config = config;
  cmd = none;
  state = stopped;
  config_version = 0;
  running_bin = "";
  running_version = "";
  generation = 0;
  alive = [];
  waiters = [];
  crashes = [];
}

abbrev pub is_running : XrayState → Bool
is_running running = true
is_running stopped = false
is_running error = false

-- `setBinary`
abbrev pub set_binary : String → Manager → Manager
set_binary bin m = record m { bin = bin }

abbrev pub without : ℕ → List ℕ → List ℕ
without p = keep (λ q. not (q == p))

abbrev pub stop_process : Option ℕ → Manager → Manager
stop_process none m = record m { state = stopped }
stop_process (some p) m = record m {
  generation = suc m.generation;
  alive = without p m.alive;
  cmd = none;
  running_bin = "";
  running_version = "";
  state = stopped;
}

-- `stopLocked`: it returns when the process has exited.
unfoldable pub stop_locked : Manager → Manager
stop_locked m = stop_process m.cmd m

pub data StartError : Type 0 where
  no_config : StartError
  cannot_start : String → StartError

-- `versionOf` of a binary is an argument.
module _ (version_of : String → String) where
  abbrev pub launch_process : Launch → Manager → Manager × Option StartError
  launch_process (not_launched e) m = (record m { state = error }, some (cannot_start e))
  launch_process launched m =
      let gen = suc m.generation in
      (
        record m {
          cmd = some gen;
          running_bin = m.bin;
          running_version = version_of m.bin;
          state = running;
          generation = gen;
          alive = gen ∷ m.alive;
          waiters = gen ∷ m.waiters;
        },
        none,
      )

  abbrev pub start_config : Option String → Launch → Manager → Manager × Option StartError
  start_config none l m = (m, some no_config)
  start_config (some _) l m = launch_process l m

  -- `startLocked`
  unfoldable pub start_locked : Launch → Manager → Manager × Option StartError
  start_locked l m = start_config m.config l m

  -- `Start`
  unfoldable pub start : Launch → Manager → Manager × Option StartError
  unfolding start_locked
  start l m = if is_running m.state then (m, none) else start_locked l m

  -- `Restart`
  unfoldable pub restart : Launch → Manager → Manager × Option StartError
  unfolding start_locked stop_locked
  restart l m = start_locked l (stop_locked m)

-- A child exits.
abbrev pub exit : ℕ → Manager → Manager
exit p m = record m { alive = without p m.alive }

-- What the goroutine that waits for a process does once `Wait` returns: only that of the last start
-- reports.
unfoldable pub report : ℕ → Manager → Manager
report p m =
    let m' : Manager = record m { waiters = without p m.waiters } in
    if m.generation == p
    then record m' {
      cmd = none;
      running_bin = "";
      running_version = "";
      state = error;
      crashes = p ∷ m.crashes;
    }
    else m'

-- `RunningVersion`
abbrev pub reported_version : Manager → String
reported_version m = if is_running m.state then m.running_version else ""

-- `apiBin`
abbrev pub api_bin : Manager → String
api_bin m = if str_eq m.running_bin "" then m.bin else m.running_bin

abbrev pub crash_of : Option ℕ → Manager → Manager
crash_of none m = m
crash_of (some p) m = report p (exit p m)

-- The process exits and its waiter reports.
abbrev pub crash : Manager → Manager
crash m = crash_of m.cmd m

abbrev pub crash_if : Bool → Manager → Manager
crash_if b m = if b then crash m else m

-- One turn of the loop of `staysUp`: whether the process crashes before the state is read, and then
-- the pause, or the end of the context, in front of which it can crash once more.
pub data Poll : Type 0 where
  pause : Bool → Poll
  done : Bool → Bool → Poll

-- `staysUp`: the turns before the deadline, and whether the process crashes before the last reading.
unfoldable pub stays_up : List Poll → Bool → Manager → Manager × Bool
unfolding report
stays_up [] last m = let m' = crash_if last m in (m', is_running m'.state)
stays_up (done c last ∷ polls) _ m =
    let m' = crash_if c m in
    let m'' = crash_if last m' in
    elim (is_running m'.state) [ true ↦ (m'', is_running m''.state) | false ↦ (m', false) ]
stays_up (pause c ∷ polls) last m =
    let m' = crash_if c m in
    elim (is_running m'.state) [ true ↦ stays_up polls last m' | false ↦ (m', false) ]
