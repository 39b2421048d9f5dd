-- ===== src/Upgrade/Blocked.antt =====
-- A blocked upgrade under reports and goroutines: core/internal/upgrade/canary.go.
use chiral.Prelude.{
  ℕ, ◌≤◌, ◌≡◌, refl, sym, ◌∙◌, subst, true, false, ◌||◌, String, List, [], ◌∷◌, ◌++◌, Option, none,
  some, arith, All,
}
use chiral.Upgrade.Rows.{
  UpgradeState, canary, promoting, done, blocked, Upgrade, Message, same_state, InstallError,
  set_upgrade_rows, active_upgrade,
}
use chiral.Upgrade.Install.{World, Job, install_job, fan_out_job, Fleet, install_on}
use chiral.Upgrade.Control.{finish, run_job, installed_async, fan_out_next, fan_out_end}
use chiral.Upgrade.Status.{Report, handle_status, advance, advance_found, recorded}
use chiral.Upgrade.Steps.{
  MachineStep, report, turn, MachineReach, stay, move, install_on-Keeps, machine,
}
use chiral.Upgrade.OneActive.{OneActive, active_count, HoldsCanary}
use chiral.Upgrade.OneActive.Preserved.{Step-OneActive, All-split}

-- Every row is blocked or done.
abbrev Resting : Upgrade → Type 0
Resting u = (same_state u.state blocked || same_state u.state done) ≡ true

active_count-zero : (us : List Upgrade) → active_count us ≤ 0 → All Resting us
active_count-zero [] h = tt
active_count-zero (u ∷ us) h = ground (arith, active_count-zero us)

active_upgrade-Resting :
    (us : List Upgrade) {u : Upgrade}
    → active_count us ≤ 1
    → active_upgrade us ≡ some u
    → u.state ≡ blocked
    → All Resting us
active_upgrade-Resting [] few h b = tt
active_upgrade-Resting (x ∷ us) {u} few h b =
    ground (arith, active_count-zero us, active_upgrade-Resting us {u = u})

-- A guarded update from another state finds no row.
set_upgrade_rows-Resting :
    (id : String) (from to : UpgradeState) (why : Message) (at : ℕ) (us : List Upgrade)
    → All Resting us
    → (same_state blocked from || same_state done from) ≡ false
    → set_upgrade_rows id from to why at us ≡ us
unfolding set_upgrade_rows
set_upgrade_rows-Resting id from to why at [] r h = refl
set_upgrade_rows-Resting id from to why at (u ∷ us) r h =
    ground (arith, set_upgrade_rows-Resting id from to why at us)

finish-Resting :
    (f : Fleet) (u : Upgrade) (from to : UpgradeState) (why : Message) (now : ℕ)
    → All Resting f.upgrades
    → (same_state blocked from || same_state done from) ≡ false
    → ((finish f u from to why now).0.upgrades ≡ f.upgrades)
      × ((finish f u from to why now).0.announced ≡ f.announced)
unfolding finish
finish-Resting f u from to why now r h =
    ground (arith, set_upgrade_rows-Resting u.id from to why now f.upgrades r h)

-- Nothing of the fleet's upgrade changes, and nobody is told anything.
abbrev pub Unmoved : Fleet → Fleet → Type 0
Unmoved f g = (g.upgrades ≡ f.upgrades) × (g.announced ≡ f.announced)

advance_found-Unmoved :
    (f : Fleet) (u : Upgrade) (node_id : String) (st : Report) (now : ℕ)
    → u.state ≡ blocked
    → advance_found f (some u) node_id st now ≡ f
unfolding advance_found
advance_found-Unmoved f u node_id st now b = ground arith

advance-Unmoved :
    (f : Fleet) (u : Upgrade) (node_id : String) (st : Report) (now : ℕ)
    → active_upgrade f.upgrades ≡ some u
    → u.state ≡ blocked
    → advance f node_id st now ≡ f
unfolding advance
advance-Unmoved f u node_id st now a b = rw a (advance_found-Unmoved f u node_id st now b)

handle_status-Unmoved :
    (f : Fleet) (u : Upgrade) (node_id : String) (st : Report) (now : ℕ)
    → active_upgrade f.upgrades ≡ some u
    → u.state ≡ blocked
    → Unmoved f (handle_status f node_id st now)
unfolding handle_status
handle_status-Unmoved f u node_id st now a b =
    ground (arith, advance-Unmoved (recorded f node_id st now) u node_id st now a b)

installed_async-Unmoved :
    (u : Upgrade) (what : InstallError → Message) (now : ℕ) (p : Fleet × Option InstallError)
    → All Resting p.0.upgrades
    → u.state ≡ canary
    → Unmoved p.0 (installed_async u what now p)
unfolding installed_async
installed_async-Unmoved u what now (f, none) r c = (refl, refl)
installed_async-Unmoved u what now (f, some e) r c =
    finish-Resting f u u.state blocked (what e) now r (rw c)

after_install :
    (w : World) (f : Fleet) (node_id version : String)
    → All Resting f.upgrades
    → All Resting (install_on w f node_id version true).0.upgrades
      × Unmoved f (install_on w f node_id version true).0
after_install w f node_id version r =
    let k = install_on-Keeps w f node_id version true in
    (subst (All Resting) (sym k.upgrades) r, (k.upgrades, k.announced))

run_job-Unmoved :
    (w : World) (f : Fleet) (j : Job)
    → All Resting f.upgrades
    → HoldsCanary j
    → Unmoved f (run_job w f j)
unfolding run_job fan_out_next fan_out_end
run_job-Unmoved w f (install_job u node_id what) r c =
    let (r', kept) = after_install w f node_id u.version r in
    let (rows, told) =
      installed_async-Unmoved u what w.now (install_on w f node_id u.version true) r' c in
    (rows ∙ kept.0, told ∙ kept.1)
run_job-Unmoved w f (fan_out_job u targets [] []) r c = (refl, refl)
run_job-Unmoved w f (fan_out_job u targets [] (x ∷ xs)) r c =
    finish-Resting f u promoting blocked _ w.now r refl
run_job-Unmoved w f (fan_out_job u targets (n ∷ ns) failures) r c =
    (after_install w f n.id u.version r).1

MachineStep-Unmoved :
    {f g : Fleet} {u : Upgrade}
    → MachineStep f g
    → OneActive f
    → active_upgrade f.upgrades ≡ some u
    → u.state ≡ blocked
    → Unmoved f g
MachineStep-Unmoved {f} {g} {u} (report node_id st now e) v a b =
    rw e (handle_status-Unmoved f u node_id st now a b)
MachineStep-Unmoved {f} {g} {u} (turn w before j after q e) v a b =
    let (hj, rest) = All-split before after j (subst (All HoldsCanary) q v.jobs_hold) in
    rw e (
      run_job-Unmoved w (record f { jobs = before ++ after }) j
        (active_upgrade-Resting f.upgrades {u = u} v.few a b) hj)

-- A blocked upgrade stays exactly as it is, its reason included, and nobody is alerted again,
-- whatever reports arrive and whatever goroutines finish, until an operator acts.
pub MachineReach-Unmoved :
    {f g : Fleet} {u : Upgrade}
    → MachineReach f g
    → OneActive f
    → active_upgrade f.upgrades ≡ some u
    → u.state ≡ blocked
    → Unmoved f g
MachineReach-Unmoved {f} {g} {u} r v a b = (held r).1
  where
    held : {h : Fleet} → MachineReach f h → OneActive h × Unmoved f h
    held stay = (v, (refl, refl))
    held (move {g = m} s t) =
        let (o, k) = held s in
        let k' =
          MachineStep-Unmoved {u = u} t o (subst (λ us. active_upgrade us ≡ some u) (sym k.0) a)
            b in
        (Step-OneActive (machine t) o, (k'.0 ∙ k.0, k'.1 ∙ k.1))
