-- ===== src/Upgrade/CanaryFirst.antt =====
-- What a report and a goroutine's turn leave alone: core/internal/upgrade/canary.go.
pub mod Kept
use chiral.Prelude.{
  ℕ, ◌≡◌, ◌≢◌, ◌⊎◌, refl, sym, ◌∙◌, ap, subst, Bool, true, false, not, ◌&&◌, ◌||◌, String, List, [],
  ◌∷◌, ◌++◌, Option, none, some, arith, inl, inr, if◌then◌else◌, str_eq, All, Bool-cases,
  Option-cases, map,
}
use chiral.Version.{normalize_version}
use chiral.Upgrade.Rows.{
  UpgradeState, canary, awaiting_promote, promoting, done, blocked, Upgrade, Message, in_flight,
  is_active, same_state, InstallError, guarded, set_upgrade_rows, active_upgrade, Phase,
  rolled_back, failed, active, inconclusive, update_install_hit,
}
use chiral.Upgrade.Install.{
  World, Job, install_job, fan_out_job, Instruction, Fleet, install_on, Announcement,
}
use chiral.Upgrade.Control.{finish, run_job, installed_async}
use chiral.Upgrade.Status.{
  Report, handle_status, advance, advance_found, react, succeed, block, announce, recorded,
}
use chiral.Upgrade.Steps.{
  MachineStep, report, turn, MachineReach, stay, move, Keeps, install_on-Keeps,
}
use chiral.Upgrade.Panel.{install_on-SendsChecked}

-- The row is in no rollout: nobody has promoted it, or it is over.
abbrev pub NotPromoting : Upgrade → Type 0
NotPromoting u = same_state u.state promoting ≡ false

-- A goroutine that installs on the upgrade's own canary, started in the canary state.
abbrev pub OwnCanary : Job → Type 0
OwnCanary (install_job u node_id what) = (u.state ≡ canary) × (node_id ≡ u.canary_node_id)
OwnCanary (fan_out_job u targets left failures) = ⊥

-- The nodes that goroutines are about to tell.
abbrev pub canaries : List Job → List String
canaries [] = []
canaries (install_job u node_id what ∷ js) = u.canary_node_id ∷ canaries js
canaries (fan_out_job u targets left failures ∷ js) = canaries js

abbrev pub Among : String → List String → Type 0
Among x [] = ⊥
Among x (y ∷ ys) = (x ≡ y) ⊎ Among x ys

-- Nothing was promoted: each goroutine is a canary's, and no row is being rolled out.
pub record Waiting (f : Fleet) : Type 0 where
  pub rows : All NotPromoting f.upgrades
  pub own : All OwnCanary f.jobs

-- What may have happened since: which rows are in flight has not changed, and whatever was sent
-- went to a canary that a goroutine was about to tell.
pub record Stayed (f g : Fleet) : Type 0 where
  pub flags : map is_active g.upgrades ≡ map is_active f.upgrades
  pub fresh : List Instruction
  pub sent : g.sent ≡ fresh ++ f.sent
  pub to_canaries : All (λ i. Among i.node_id (canaries f.jobs)) fresh
  pub fewer : (x : String) → Among x (canaries g.jobs) → Among x (canaries f.jobs)

set-NotPromoting :
    (id : String) (from to : UpgradeState) (why : Message) (at : ℕ) (us : List Upgrade)
    → same_state to promoting ≡ false
    → All NotPromoting us
    → All NotPromoting (set_upgrade_rows id from to why at us)
unfolding set_upgrade_rows
set-NotPromoting id from to why at [] t h = tt
set-NotPromoting id from to why at (u ∷ us) t h =
    ground (arith, set-NotPromoting id from to why at us)

set-flags :
    (id : String) (from to : UpgradeState) (why : Message) (at : ℕ) (us : List Upgrade)
    → in_flight from ≡ true
    → in_flight to ≡ true
    → map is_active (set_upgrade_rows id from to why at us) ≡ map is_active us
unfolding set_upgrade_rows
set-flags id from to why at [] a b = refl
set-flags id from to why at (u ∷ us) a b = ground (arith, set-flags id from to why at us)

-- The rows, the goroutines and what was sent, before and after a transition that stays in flight.
pub record Calm (f g : Fleet) : Type 0 where
  pub rows : All NotPromoting g.upgrades
  pub jobs : g.jobs ≡ f.jobs
  pub flags : map is_active g.upgrades ≡ map is_active f.upgrades
  pub sent : g.sent ≡ f.sent

pub Calm-refl : (f : Fleet) → All NotPromoting f.upgrades → Calm f f
Calm-refl f r = record { rows = r; jobs = refl; flags = refl; sent = refl }

pub finish-Calm :
    (f : Fleet) (u : Upgrade) (from to : UpgradeState) (why : Message) (now : ℕ)
    → All NotPromoting f.upgrades
    → in_flight from ≡ true
    → in_flight to ≡ true
    → same_state to promoting ≡ false
    → Calm f (finish f u from to why now).0
unfolding finish
finish-Calm f u from to why now r a b t = ground (
  arith,
  set-NotPromoting u.id from to why now f.upgrades t r,
  set-flags u.id from to why now f.upgrades a b,
)

announce-Calm :
    (a : Announcement) (f : Fleet) (p : Fleet × Bool) → Calm f p.0 → Calm f (announce a p)
unfolding announce
announce-Calm a f (g, false) c = c
announce-Calm a f (g, true) c = ground arith

active_upgrade-NotPromoting :
    (us : List Upgrade) {u : Upgrade}
    → All NotPromoting us
    → active_upgrade us ≡ some u
    → (in_flight u.state ≡ true) × NotPromoting u
active_upgrade-NotPromoting [] r h = cc
active_upgrade-NotPromoting (x ∷ us) {u} r h =
    ground (arith, active_upgrade-NotPromoting us {u = u})

module _ (f : Fleet) (r : All NotPromoting f.upgrades) (node_id : String) (st : Report)
    (now : ℕ) where
  block-Calm : (u : Upgrade) → in_flight u.state ≡ true → Calm f (block f u node_id st now)
  unfolding block
  block-Calm u a = announce-Calm _ f _ (finish-Calm f u u.state blocked _ now r a refl refl)

  succeed-Calm :
      (s : UpgradeState) (u : Upgrade)
      → same_state s promoting ≡ false
      → Calm f (succeed s f u node_id st now)
  unfolding succeed
  succeed-Calm canary u h = elim (Bool-cases (str_eq node_id u.canary_node_id)) [
    | inl e ↦ rw e (finish-Calm f u canary awaiting_promote _ now r refl refl refl)
    | inr e ↦ rw e (Calm-refl f r)
  ]
  succeed-Calm promoting u h = cc
  succeed-Calm _ u h = Calm-refl f r

  react-Calm :
      (p : Phase) (u : Upgrade)
      → in_flight u.state ≡ true
      → NotPromoting u
      → Calm f (react p f u node_id st now)
  unfolding react
  react-Calm rolled_back u a n = block-Calm u a
  react-Calm failed u a n = block-Calm u a
  react-Calm active u a n = succeed-Calm u.state u n
  react-Calm inconclusive u a n = succeed-Calm u.state u n
  react-Calm _ u a n = Calm-refl f r

  pub advance-Calm : Calm f (advance f node_id st now)
  unfolding advance advance_found
  advance-Calm = elim (Option-cases (active_upgrade f.upgrades)) [
    | inl e ↦ rw e (Calm-refl f r)
    | inr (u, e) ↦
        let (a, n) = active_upgrade-NotPromoting f.upgrades r e in
        rw e (ground (arith, Calm-refl f r, react-Calm st.phase u a n))
  ]
