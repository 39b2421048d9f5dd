-- ===== src/Xray/Examples.antt =====
-- The kernel of a node on concrete inputs: a crash, an upgrade that is taken back, an install.
use chiral.Prelude.{ℕ, ◌≡◌, refl, true, false, String, [], ◌∷◌, Option, none, some, arith, inr}
use chiral.Prelude.Text.{trim_space, trim_left, trim_right, trim_prefix, is_space}
use chiral.Version.{normalize_version}
use chiral.Relay.Transfer.{downloaded}
use chiral.Upgrade.Rows.{Phase, inconclusive, rolled_back}
use chiral.Archive.{verify, unpack, unpack_entries, base_name, last_part, trim_slashes, equal_fold}
use chiral.Xray.{
  Manager, XrayState, Launch, launched, not_launched, new_manager, stop_locked, start_locked, start,
  restart, exit, report, pause, stays_up, cannot_start,
}
use chiral.Xray.Apply.{Push, ApplyError, apply, swap, not_started}
use chiral.Xray.Apply.Pushed
use chiral.Xray.Apply.Pushed.{apply-Says, apply-apply}
use chiral.Xray.Activate.{
  Trial, Outcome, failed, dropped_before, neither_starts, activate, rollback,
}
use chiral.Xray.Activate.Verdict
use chiral.Xray.Activate.Verdict.{activate-Says}
use chiral.Xray.Install.{
  Installer, Request, Outside, Detail, judged, install, is_installed, fetch_and_unpack, fetch,
  run_installed,
}
use chiral.Xray.Install.Checked
use chiral.Xray.Install.Checked.{Sourced, install-Sourced}
use chiral.Xray.Steps.{Reach, begins, continues, start_step, restart_step, exit_step, report_step}
use chiral.Xray.Steps.Managed.{IsManaged, Reach-IsManaged}

abbrev version_of : String → String
version_of path = path

abbrev old : Manager
old = record (new_manager "1.0" (some "{}")) {
  cmd = some 1;
  state = XrayState.running;
  config_version = 4;
  running_bin = "1.0";
  running_version = "1.0";
  generation = 1;
  alive = 1 ∷ [];
  waiters = 1 ∷ [];
}

old-IsManaged : IsManaged version_of old
old-IsManaged = (refl, refl, inr refl, refl, refl)

started :
    (start version_of launched (record (new_manager "1.0" (some "{}")) { config_version = 4 })).0
    ≡ old
unfolding start start_locked
started = refl

-- The first process is replaced, exits, and its waiter comes late.
abbrev late : Manager
late = report 1 (
    exit 1
      (restart version_of launched (start version_of launched (new_manager "1.0" (some "{}"))).0).0)

late-Reach : Reach version_of late
unfolding start restart start_locked stop_locked
late-Reach =
    continues
      (continues
        (continues (continues (begins "1.0" (some "{}")) (start_step launched))
          (restart_step launched))
        (exit_step 1))
      (report_step 1 refl refl)

Reach-IsManaged_example : IsManaged version_of late
Reach-IsManaged_example = Reach-IsManaged version_of late-Reach

-- The new binary runs, but the probe that passed before does not pass any more.
abbrev losing : Trial
losing = record {
  baseline = none;
  cancelled_before = false;
  launch = launched;
  polls = pause false ∷ pause false ∷ [];
  crash_last = false;
  check = some "timeout";
  crash_in_check = false;
  cancelled_after = false;
  launch_back = launched;
}

taken_back :
    let r = activate version_of losing "2.0" old in
    ◌≡◌ {A = Outcome × String × String} (r.1, r.0.bin, r.0.running_version) (failed, "1.0", "1.0")
unfolding activate restart start_locked stop_locked stays_up report rollback
taken_back = refl

activate-Says_example :
    Verdict.Says version_of losing "2.0" old
      (activate version_of losing "2.0" old).0
      (activate version_of losing "2.0" old).1
activate-Says_example = activate-Says version_of losing "2.0" old "{}" refl old-IsManaged

abbrev push : Launch → Push
push l = record {
  written = true;
  found = true;
  tested = none;
  renamed = true;
  launch = l;
  polls = pause false ∷ [];
  crash_last = false;
}

-- The new process does not start: the old one is gone and the new file stays.
without_process :
    let r = apply version_of (push (not_launched "exec")) 5 "{5}" old in
    ◌≡◌ {A = Option ApplyError × Option ℕ × Option String}
      (r.1, r.0.cmd, r.0.config)
      (some (not_started (cannot_start "exec")), none, some "{5}")
unfolding apply swap start_locked stop_locked
without_process = refl

apply-Says_example :
    Pushed.Says version_of 5 "{5}" old
      (apply version_of (push (not_launched "exec")) 5 "{5}" old).0
      (apply version_of (push (not_launched "exec")) 5 "{5}" old).1
apply-Says_example = apply-Says version_of (push (not_launched "exec")) 5 "{5}" old old-IsManaged

abbrev pushed : Manager
pushed = (apply version_of (push launched) 5 "{5}" old).0

applied : apply version_of (push launched) 5 "{5}" old ≡ (pushed, none)
unfolding apply swap start_locked stop_locked stays_up report
applied = refl

apply-apply_example :
    apply version_of (push launched) 6 "{5}" pushed ≡ (record pushed { config_version = 6 }, none)
apply-apply_example =
    (apply-apply version_of (push launched) (push launched) 5 6 "{5}" "{}" old pushed old-IsManaged
        applied).0
      (omega arith)

-- Neither binary starts, and the phase is `rolled_back` all the same.
abbrev request : Request
request = record {
  version = "v2.0";
  download_url = "https://a.example/x.zip";
  sha256 = "0123456789abcdef0123456789abcdef0123456789abcdef0123456789abcdef";
  activate = true;
  relay_available = true;
}

abbrev outside : Outside
outside = record {
  direct = none;
  relayed = downloaded (80 ∷ []);
  hash = λ _. "0123456789abcdef0123456789abcdef0123456789abcdef0123456789abcdef";
  entries = λ a. some (
      record { name = "dist/xray"; content = some a }
      ∷ record { name = "LICENSE"; content = some a }
      ∷ []);
  path = λ v. v;
  version_of = λ _ p. p;
  trial = record losing { launch = not_launched "exec"; launch_back = not_launched "exec" };
  active_written = true;
}

abbrev node : Installer
node = record { mgr = old; disk = []; active_file = none }

not_serving :
    let r = install outside request node in
    ◌≡◌ {A = Phase × Detail × Option ℕ}
      (r.1, r.2, r.0.mgr.cmd)
      (rolled_back, judged (neither_starts (cannot_start "exec") (cannot_start "exec")), none)
unfolding install is_installed fetch_and_unpack fetch run_installed activate restart start_locked
    stop_locked trim_space trim_left trim_right trim_prefix is_space verify equal_fold unpack
    unpack_entries base_name last_part trim_slashes
not_serving = refl

-- The stream to the panel ends before the switch: the old binary goes on running, and a restart of the
-- agent comes up with the new one.
abbrev dropped : Outside
dropped = record outside { trial = record losing { cancelled_before = true } }

untouched_but_recorded :
    let r = install dropped request node in
    ◌≡◌ {A = Phase × Detail × Manager × Option String}
      (r.1, r.2, r.0.mgr, r.0.active_file)
      (inconclusive, judged dropped_before, old, some "2.0\n")
unfolding install is_installed fetch_and_unpack fetch run_installed activate restart start_locked
    stop_locked trim_space trim_left trim_right trim_prefix is_space verify equal_fold unpack
    unpack_entries base_name last_part trim_slashes
untouched_but_recorded = refl

install-Sourced_example :
    Sourced dropped request (normalize_version "v2.0") [] ((install dropped request node).0).disk
    × Checked.Says dropped request
        (normalize_version "v2.0")
        node
        (install dropped request node).0
        (install dropped request node).1
install-Sourced_example = install-Sourced dropped request node
