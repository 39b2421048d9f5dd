-- ===== src/Upgrade/OneActive/Preserved.antt =====
-- The number of upgrades in flight under each step: core/internal/upgrade/canary.go.
use chiral.Prelude.{
  ℕ, ◌≤◌, ◌≡◌, refl, ap, subst, Bool, true, false, String, List, [], ◌∷◌, ◌++◌, Option, ◌+◌, length,
  none, some, arith, inl, inr, All, Option-cases,
}
use chiral.Upgrade.Rows.{
  UpgradeState, canary, awaiting_promote, promoting, done, blocked, Upgrade, Message, in_flight,
  no_message, set_upgrade_rows, active_upgrade, InstallError, Phase, rolled_back, failed, active,
  inconclusive, could_not_restart, abandoned, running_on,
}
use chiral.Upgrade.Install.{World, Job, install_job, fan_out_job, Fleet, Announcement, install_on}
use chiral.Upgrade.Control.{
  promote, promote_found, promote_active, promotion_targets, retry, retry_found, retry_active,
  abandon, abandon_found, run_job, installed_async, fan_out_next, fan_out_end, noted,
}
use chiral.Upgrade.Status.{
  Report, handle_status, advance, advance_found, react, succeed, block, announce,
  check_promotion_complete, recorded, canary_message,
}
use chiral.Upgrade.Steps.{
  Step, start, promoted, retried, given_up, one_off, report, turn, machine, Reach, here, next,
  install_on-Keeps,
}
use chiral.Upgrade.OneActive.{
  OneActive, HoldsCanary, active_count, active_count-set_upgrade_rows, finish-OneActive,
  same-OneActive, active_upgrade-in_flight, add_job-OneActive, start_canary-OneActive,
  fan_out-OneActive,
}

module _ (f : Fleet) (v : OneActive f) where
  -- The rows after a guarded update.
  set-OneActive :
      (id : String) (from to : UpgradeState) (why : Message) (now : ℕ)
      → in_flight from ≡ true
      → OneActive (record f { upgrades = set_upgrade_rows id from to why now f.upgrades })
  set-OneActive id from to why now h = record {
    few = omega (arith, active_count-set_upgrade_rows id from to why now f.upgrades h, v.few);
    jobs_hold = v.jobs_hold;
  }

  promote_active-OneActive : (u : Upgrade) (now : ℕ) → OneActive (promote_active f u now).0
  unfolding promote_active
  promote_active-OneActive u now =
      let u' = record u { state = promoting } in
      let f' = record f {
        upgrades = set_upgrade_rows u.id awaiting_promote promoting no_message now f.upgrades;
      } in
      let moved = set-OneActive u.id awaiting_promote promoting no_message now refl in
      ground (arith, v, fan_out-OneActive f' moved u' now (promotion_targets f' u'))

  promote-OneActive : (now : ℕ) → OneActive (promote now f).0
  unfolding promote promote_found
  promote-OneActive now = elim (Option-cases (active_upgrade f.upgrades)) [
    | inl e ↦ rw e v
    | inr (u, e) ↦ rw e (promote_active-OneActive u now)
  ]

  retry_active-OneActive : (u : Upgrade) (now : ℕ) → OneActive (retry_active f u now).0
  unfolding retry_active
  retry_active-OneActive u now =
      let u' = record u { state = canary; message = no_message } in
      let us = set_upgrade_rows u.id blocked canary no_message now f.upgrades in
      let moved = set-OneActive u.id blocked canary no_message now refl in
      ground (
        arith,
        v,
        add_job-OneActive (record f { upgrades = us }) moved us
            (install_job u' u.canary_node_id could_not_restart) moved.few refl,
      )

  retry-OneActive : (now : ℕ) → OneActive (retry now f).0
  unfolding retry retry_found
  retry-OneActive now = elim (Option-cases (active_upgrade f.upgrades)) [
    | inl e ↦ rw e v
    | inr (u, e) ↦ rw e (retry_active-OneActive u now)
  ]

  abandon_found-OneActive :
      (u : Upgrade) (now : ℕ)
      → in_flight u.state ≡ true
      → OneActive (abandon_found f (some u) now).0
  unfolding abandon_found
  abandon_found-OneActive u now h =
      ground (arith, v, set-OneActive u.id u.state done abandoned now h)

  abandon-OneActive : (now : ℕ) → OneActive (abandon now f).0
  unfolding abandon
  abandon-OneActive now = elim (Option-cases (active_upgrade f.upgrades)) [
    | inl e ↦ rw e (unfold abandon_found in v)
    | inr (u, e) ↦ rw e (abandon_found-OneActive u now (active_upgrade-in_flight f.upgrades e))
  ]

announce-OneActive :
    (a : Announcement) (p : Fleet × Bool) → OneActive p.0 → OneActive (announce a p)
unfolding announce
announce-OneActive a (f, false) v = v
announce-OneActive a (f, true) v =
    ground (arith, v, same-OneActive f (record f { announced = a ∷ f.announced }) refl refl v)

module _ (f : Fleet) (v : OneActive f) where
  block-OneActive :
      (u : Upgrade) (node_id : String) (st : Report) (now : ℕ)
      → in_flight u.state ≡ true
      → OneActive (block f u node_id st now)
  unfolding block
  block-OneActive u node_id st now h =
      announce-OneActive _ _ (finish-OneActive f u u.state blocked _ now h v)

  check_promotion_complete-OneActive :
      (u : Upgrade) (now : ℕ) → OneActive (check_promotion_complete f u now)
  unfolding check_promotion_complete
  check_promotion_complete-OneActive u now = ground (
    arith,
    v,
    finish-OneActive f u promoting UpgradeState.done
        (running_on u.version (length (promotion_targets f u) + 1)) now refl v,
  )

  succeed-OneActive :
      (s : UpgradeState) (u : Upgrade) (node_id : String) (st : Report) (now : ℕ)
      → OneActive (succeed s f u node_id st now)
  unfolding succeed
  succeed-OneActive canary u node_id st now = ground (
    arith,
    v,
    finish-OneActive f u canary awaiting_promote (canary_message u st st.phase) now refl v,
  )
  succeed-OneActive promoting u node_id st now = check_promotion_complete-OneActive u now
  succeed-OneActive _ u node_id st now = v

  react-OneActive :
      (p : Phase) (u : Upgrade) (node_id : String) (st : Report) (now : ℕ)
      → in_flight u.state ≡ true
      → OneActive (react p f u node_id st now)
  unfolding react
  react-OneActive rolled_back u node_id st now h = block-OneActive u node_id st now h
  react-OneActive failed u node_id st now h = block-OneActive u node_id st now h
  react-OneActive active u node_id st now h = succeed-OneActive u.state u node_id st now
  react-OneActive inconclusive u node_id st now h = succeed-OneActive u.state u node_id st now
  react-OneActive _ u node_id st now h = v

  advance-OneActive :
      (node_id : String) (st : Report) (now : ℕ) → OneActive (advance f node_id st now)
  unfolding advance advance_found
  advance-OneActive node_id st now = elim (Option-cases (active_upgrade f.upgrades)) [
    | inl e ↦ rw e v
    | inr (u, e) ↦ rw e (
        ground (
          arith,
          v,
          react-OneActive st.phase u node_id st now (active_upgrade-in_flight f.upgrades e),
        ))
  ]

handle_status-OneActive :
    (f : Fleet)
    → OneActive f
    → (node_id : String) (st : Report) (now : ℕ) → OneActive (handle_status f node_id st now)
unfolding handle_status
handle_status-OneActive f v node_id st now =
    let v' = same-OneActive f (recorded f node_id st now) refl refl v in
    ground (arith, v, advance-OneActive (recorded f node_id st now) v' node_id st now)

install_on-OneActive :
    (w : World) (f : Fleet) (node_id version : String) (activate : Bool)
    → OneActive f
    → OneActive (install_on w f node_id version activate).0
install_on-OneActive w f node_id version activate v =
    let k = install_on-Keeps w f node_id version activate in
    same-OneActive f (install_on w f node_id version activate).0 k.upgrades k.jobs v

installed_async-OneActive :
    (u : Upgrade) (what : InstallError → Message) (now : ℕ) (p : Fleet × Option InstallError)
    → u.state ≡ canary
    → OneActive p.0
    → OneActive (installed_async u what now p)
unfolding installed_async
installed_async-OneActive u what now (f, none) h v = v
installed_async-OneActive u what now (f, some e) h v =
    finish-OneActive f u u.state blocked (what e) now (ap in_flight h) v

run_job-OneActive :
    (w : World) (f : Fleet) (j : Job) → OneActive f → HoldsCanary j → OneActive (run_job w f j)
unfolding run_job fan_out_next fan_out_end
run_job-OneActive w f (install_job u node_id what) v h =
    installed_async-OneActive u what w.now (install_on w f node_id u.version true) h
      (install_on-OneActive w f node_id u.version true v)
run_job-OneActive w f (fan_out_job u targets [] []) v h = v
run_job-OneActive w f (fan_out_job u targets [] (x ∷ xs)) v h =
    finish-OneActive f u promoting blocked _ w.now refl v
run_job-OneActive w f (fan_out_job u targets (n ∷ ns) failures) v h =
    let (g, e) = install_on w f n.id u.version true in
    let o = install_on-OneActive w f n.id u.version true v in
    add_job-OneActive g o g.upgrades (fan_out_job u targets ns (noted n e failures)) o.few tt

-- The job taken out and the jobs left.
pub All-split :
    (before after : List Job) (j : Job)
    → All HoldsCanary (before ++ (j ∷ after))
    → HoldsCanary j × All HoldsCanary (before ++ after)
All-split [] after j h = h
All-split (x ∷ before) after j (hx, h) =
    let (hj, rest) = All-split before after j h in (hj, (hx, rest))

-- Every step keeps at most one upgrade in flight: requests, one-off installs, reports and the
-- turns of goroutines that hold an old copy of an upgrade.
pub Step-OneActive : {f g : Fleet} → Step f g → OneActive f → OneActive g
Step-OneActive {f} (start id version node now e) v =
    rw e (start_canary-OneActive f v id version node now)
Step-OneActive {f} (promoted now e) v = rw e (promote-OneActive f v now)
Step-OneActive {f} (retried now e) v = rw e (retry-OneActive f v now)
Step-OneActive {f} (given_up now e) v = rw e (abandon-OneActive f v now)
Step-OneActive {f} (one_off w node version a e) v = rw e (install_on-OneActive w f node version a v)
Step-OneActive {f} (machine (report node st now e)) v =
    rw e (handle_status-OneActive f v node st now)
Step-OneActive {f} (machine (turn w before j after q e)) v =
    let (hj, rest) = All-split before after j (subst (All HoldsCanary) q v.jobs_hold) in
    rw e (
      run_job-OneActive w (record f { jobs = before ++ after }) j
        (record { few = v.few; jobs_hold = rest }) hj)

-- Whatever operators, agents and goroutines do, in any order, from a panel with at most one
-- upgrade in flight and no stale goroutine: there is never more than one upgrade in flight.
pub Reach-OneActive : {f g : Fleet} → Reach f g → OneActive f → active_count g.upgrades ≤ 1
Reach-OneActive r v = (held r v).few
  where
    held : {f g : Fleet} → Reach f g → OneActive f → OneActive g
    held here v = v
    held (next r s) v = Step-OneActive s (held r v)
