-- ===== src/Upgrade/OneActive.antt =====
-- The number of upgrades in flight, which the unique index of core/internal/store/xrayupgrade.go
-- bounds, under core/internal/upgrade/canary.go.
pub mod Preserved
use chiral.Prelude.{
  ℕ, ◌+◌, ◌≤◌, ◌≡◌, refl, sym, Bool, true, false, not, ◌&&◌, ◌||◌, String, List, [], ◌∷◌, ◌++◌,
  Option, none, some, arith, inl, inr, if◌then◌else◌, str_eq, any, All, All-append, Bool-cases,
  subst, Option-cases,
}
use chiral.Version.{normalize_version}
use chiral.Upgrade.Rows.{
  UpgradeState, canary, awaiting_promote, promoting, done, blocked, Upgrade, Message, in_flight,
  could_not_start, could_not_restart, no_message, only_canary, abandoned, is_active, same_state,
  guarded, moved, set_upgrade_rows, active_upgrade, InstallError, Node, start_upgrade, node_exists,
  new_upgrade, Started,
}
use chiral.Upgrade.Install.{World, Job, install_job, fan_out_job, Fleet, Announcement, install_on}
use chiral.Upgrade.Control.{
  finish, start_canary, after_start, promote, promote_found, promote_active, fan_out, retry,
  retry_found, retry_active, abandon, abandon_found, run_job, installed_async, fan_out_next,
  fan_out_end,
}
use chiral.Upgrade.Status.{
  Report, handle_status, advance, advance_found, react, succeed, block, announce,
  check_promotion_complete, recorded,
}
use chiral.Upgrade.Steps.{
  Step, start, promoted, retried, given_up, one_off, report, turn, Reach, here, next, Keeps,
  install_on-Keeps,
}

abbrev one_if : Bool → ℕ
one_if true = 1
one_if false = 0

-- The rows that the unique index counts.
abbrev pub active_count : List Upgrade → ℕ
active_count [] = 0
active_count (u ∷ us) = one_if (is_active u) + active_count us

-- A guarded update from a state in flight adds no active row.
pub active_count-set_upgrade_rows :
    (id : String) (from to : UpgradeState) (why : Message) (at : ℕ) (us : List Upgrade)
    → in_flight from ≡ true
    → active_count (set_upgrade_rows id from to why at us) ≤ active_count us
unfolding set_upgrade_rows
active_count-set_upgrade_rows id from to why at [] h = omega arith
active_count-set_upgrade_rows id from to why at (u ∷ us) h =
    ground (arith, active_count-set_upgrade_rows id from to why at us)

active_count-none : (us : List Upgrade) → any is_active us ≡ false → active_count us ≡ 0
active_count-none [] h = refl
active_count-none (u ∷ us) h = ground (arith, active_count-none us)

active_count-append :
    (us vs : List Upgrade) → active_count (us ++ vs) ≡ active_count us + active_count vs
active_count-append [] vs = omega arith
active_count-append (u ∷ us) vs = omega (arith, active_count-append us vs)

-- An install goroutine's copy of the upgrade was taken in the canary state.
abbrev pub HoldsCanary : Job → Type 0
HoldsCanary (install_job u node_id what) = u.state ≡ canary
HoldsCanary (fan_out_job u targets left failures) = Unit

pub record OneActive (f : Fleet) : Type 0 where
  pub few : active_count f.upgrades ≤ 1
  pub jobs_hold : All HoldsCanary f.jobs

pub finish-few :
    (f : Fleet) (u : Upgrade) (from to : UpgradeState) (why : Message) (now : ℕ)
    → in_flight from ≡ true
    → active_count (finish f u from to why now).0.upgrades ≤ active_count f.upgrades
unfolding finish
finish-few f u from to why now h =
    ground (arith, active_count-set_upgrade_rows u.id from to why now f.upgrades h)

pub finish-jobs :
    (f : Fleet) (u : Upgrade) (from to : UpgradeState) (why : Message) (now : ℕ)
    → (finish f u from to why now).0.jobs ≡ f.jobs
unfolding finish
finish-jobs f u from to why now = ground arith

pub finish-OneActive :
    (f : Fleet) (u : Upgrade) (from to : UpgradeState) (why : Message) (now : ℕ)
    → in_flight from ≡ true
    → OneActive f
    → OneActive (finish f u from to why now).0
finish-OneActive f u from to why now h v = record {
  few = omega (arith, finish-few f u from to why now h, v.few);
  jobs_hold = subst (All HoldsCanary) (sym (finish-jobs f u from to why now)) v.jobs_hold;
}

-- An operation that leaves the rows and the goroutines alone.
pub same-OneActive :
    (f g : Fleet) → g.upgrades ≡ f.upgrades → g.jobs ≡ f.jobs → OneActive f → OneActive g
same-OneActive f g e j v = record {
  few = subst (λ us. active_count us ≤ 1) (sym e) v.few;
  jobs_hold = subst (All HoldsCanary) (sym j) v.jobs_hold;
}

pub active_upgrade-in_flight :
    (us : List Upgrade) {u : Upgrade} → active_upgrade us ≡ some u → in_flight u.state ≡ true
active_upgrade-in_flight [] h = cc
active_upgrade-in_flight (x ∷ us) {u} h = ground (arith, active_upgrade-in_flight us {u = u})

left_false : (a b : Bool) → (a || b) ≡ false → a ≡ false
left_false a b h = ground arith

module _ (f : Fleet) (v : OneActive f) where
  pub add_job-OneActive :
      (us : List Upgrade) (j : Job)
      → active_count us ≤ 1
      → HoldsCanary j
      → OneActive (record f { upgrades = us; jobs = f.jobs ++ (j ∷ []) })
  add_job-OneActive us j c h = record {
    few = c;
    jobs_hold = All-append HoldsCanary f.jobs (j ∷ []) v.jobs_hold (h, tt);
  }

  after_start-OneActive :
      (id version node : String) (now : ℕ)
      → OneActive (after_start f (start_upgrade id version node now f.nodes f.upgrades)).0
  unfolding after_start start_upgrade
  after_start-OneActive id version node now =
      elim (Bool-cases (any is_active f.upgrades || not (node_exists node f.nodes))) [
        | inl e ↦ rw e (elim (Option-cases (active_upgrade f.upgrades)) [
          | inl a ↦ rw a v
          | inr (u, a) ↦ rw a v
        ])
        | inr e ↦
            let u = new_upgrade id version node now in
            rw e (
              add_job-OneActive (f.upgrades ++ (u ∷ [])) (install_job u node could_not_start)
                (omega (
                  arith,
                  active_count-append f.upgrades (u ∷ []),
                  active_count-none f.upgrades (left_false _ _ e),
                ))
                refl)
      ]

  pub start_canary-OneActive :
      (id version node : String) (now : ℕ) → OneActive (start_canary id version node now f).0
  unfolding start_canary
  start_canary-OneActive id version node now =
      ground (arith, after_start-OneActive id (normalize_version version) node now)

  pub fan_out-OneActive :
      (u : Upgrade) (now : ℕ) (targets : List Node) → OneActive (fan_out f u now targets).0
  unfolding fan_out
  fan_out-OneActive u now [] = finish-OneActive f u promoting done only_canary now refl v
  fan_out-OneActive u now (n ∷ ns) =
      add_job-OneActive f.upgrades (fan_out_job u (n ∷ ns) (n ∷ ns) []) v.few tt
