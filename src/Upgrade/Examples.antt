-- ===== src/Upgrade/Examples.antt =====
-- A fleet of three nodes on concrete inputs.
use chiral.Prelude.{◌≤◌, ◌≡◌, refl, true, false, String, [], ◌∷◌, none, some, arith}
use chiral.Prelude.Text.{trim_space}
use chiral.Version.{normalize_version}
use chiral.Release.{Release, asset_for}
use chiral.Kernel.{Kernels, has, install, for_version, rescan, counts, skipped}
use chiral.Upgrade.Rows.{
  UpgradeState, canary, blocked, Phase, active, failed, Upgrade, Node, no_message,
}
use chiral.Upgrade.Install.{World, Fleet, install_on, install_job, plan_install, ensure_panel}
use chiral.Upgrade.Control.{start_canary, promote, run_job}
use chiral.Upgrade.Status.{Report, handle_status}
use chiral.Upgrade.Steps.{report, turn, stay, move, start, promoted, Reach, here, next}
use chiral.Upgrade.OneActive.{OneActive, active_count}
use chiral.Upgrade.OneActive.Preserved.{Reach-OneActive}
use chiral.Upgrade.Panel.{SendsChecked, install_on-SendsChecked}
use chiral.Upgrade.Blocked.{Unmoved, MachineReach-Unmoved}
use chiral.Upgrade.CanaryFirst.{Waiting, Stayed}
use chiral.Upgrade.CanaryFirst.Kept.{MachineReach-Stayed}

abbrev node : String → String → Node
node id name = record {
  id = id;
  name = name;
  platform = "linux/amd64";
  xray_version = "26.3.27";
  xray_installed_version = "26.3.27";
}

abbrev kernels : Kernels
kernels = record {
  registry = record { dir = "/k"; baked = "/x"; baked_version = "26.3.27"; scanned = [] };
  disk = [];
}

abbrev fleet : Fleet
fleet = record {
  nodes = node "n1" "tokyo" ∷ node "n2" "berlin" ∷ node "n3" "oslo" ∷ [];
  upgrades = [];
  installs = [];
  kernels = kernels;
  jobs = [];
  sent = [];
  alerts_enabled = true;
  announced = [];
}

abbrev newest : Release
newest = record {
  version = "26.9.3";
  tag = "v26.9.3";
  prerelease = false;
  published_at = 7;
  assets = ("Xray-linux-64.zip", "u") ∷ ("Xray-linux-64.zip.dgst", "d") ∷ [];
}

abbrev world : World
world = record {
  latest = some newest;
  recent = none;
  checksum = λ url. some "abc";
  unpacked = λ version. some version;
  reachable = λ id. true;
  core_platform = "linux/amd64";
  now = 20;
}

-- The canary has been started; its goroutine waits.
abbrev started_fleet : Fleet
started_fleet = (start_canary "u1" "v26.9.3" "n1" 10 fleet).0

abbrev row : UpgradeState → Upgrade
row s = record {
  id = "u1";
  version = "26.9.3";
  state = s;
  canary_node_id = "n1";
  message = no_message;
  started_at = 10;
  updated_at = 10;
}

abbrev with_row : UpgradeState → Fleet
with_row s = record fleet { upgrades = row s ∷ [] }

abbrev report_of : Phase → Report
report_of p = record {
  version = "26.9.3";
  phase = p;
  message = "m";
  running_version = "26.9.3";
  installed_version = "26.9.3";
}

starts : (start_canary "u1" "v26.9.3" "n1" 10 fleet).0.upgrades ≡ row canary ∷ []
unfolding start_canary normalize_version
starts = refl

sends :
    (install_on world fleet "n2" "v26.9.3" true).0.sent
    ≡ record { node_id = "n2"; version = "26.9.3"; activate = true } ∷ []
unfolding install_on normalize_version trim_space asset_for has install for_version rescan counts
    skipped plan_install ensure_panel
sends = refl

install_on-SendsChecked_example :
    SendsChecked fleet "n2"
      (normalize_version "v26.9.3")
      true
      (install_on world fleet "n2" "v26.9.3" true)
install_on-SendsChecked_example = install_on-SendsChecked world fleet "n2" "v26.9.3" true

no_upgrades : OneActive fleet
no_upgrades = record { few = omega arith; jobs_hold = tt }

-- A second canary is asked for while the first waits, and then the first is promoted.
abbrev history : Reach fleet (promote 12 (start_canary "u2" "26.9.4" "n2" 11 started_fleet).0).0
history =
    next (next (next here (start "u1" "v26.9.3" "n1" 10 refl)) (start "u2" "26.9.4" "n2" 11 refl))
      (promoted 12 refl)

Reach-OneActive_example :
    active_count (promote 12 (start_canary "u2" "26.9.4" "n2" 11 started_fleet).0).0.upgrades ≤ 1
Reach-OneActive_example = Reach-OneActive history no_upgrades

abbrev reported : Phase → Fleet → Fleet
reported p f = handle_status f "n1" (report_of p) 30

one_blocked : OneActive (with_row blocked)
one_blocked = record { few = omega arith; jobs_hold = tt }

MachineReach-Unmoved_example :
    Unmoved (with_row blocked) (reported failed (reported active (with_row blocked)))
MachineReach-Unmoved_example =
    MachineReach-Unmoved {u = row blocked}
      (move (move stay (report "n1" (report_of active) 30 refl))
        (report "n1" (report_of failed) 30 refl))
      one_blocked refl refl

-- The canary's goroutine is about to send.
abbrev at_canary : Fleet
at_canary = record (with_row canary) { jobs = install_job (row canary) "n1" (λ e. no_message) ∷ [] }

abbrev after_turn : Fleet
after_turn =
    run_job world (record at_canary { jobs = [] }) (install_job (row canary) "n1" (λ e. no_message))

waiting : Waiting at_canary
waiting = record { rows = (refl, tt); own = ((refl, refl), tt) }

MachineReach-Stayed_example :
    Waiting (reported active after_turn) × Stayed at_canary (reported active after_turn)
MachineReach-Stayed_example =
    MachineReach-Stayed
      (move
        (move stay (turn world [] (install_job (row canary) "n1" (λ e. no_message)) [] refl refl))
        (report "n1" (report_of active) 30 refl))
      waiting
