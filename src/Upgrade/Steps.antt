-- ===== src/Upgrade/Steps.antt =====
-- The interleavings: an operator's requests, one-off installs, agents' reports and the goroutines'
-- turns, in any order. Each database call sequence of one handler runs to its end before the next;
-- what is left of a goroutine waits in `jobs`.
use chiral.Prelude.{ℕ, ◌≡◌, Bool, String, List, ◌∷◌, ◌++◌, Option, none, some, arith}
use chiral.Kernel.{Kernels}
use chiral.Version.{normalize_version}
use chiral.Upgrade.Rows.{InstallError}
use chiral.Upgrade.Install.{
  World, Job, Fleet, install_on, carry_out, plan_install, Plan, Result, ok, err, after_panel,
  ensure_panel, tell_node,
}
use chiral.Upgrade.Control.{start_canary, promote, retry, abandon, run_job}
use chiral.Upgrade.Status.{Report, handle_status}

-- What happens with nobody at the console: an agent reports, a goroutine takes a turn.
pub data MachineStep (f g : Fleet) : Type 0 where
  report :
      (node_id : String) (st : Report) (now : ℕ)
      → g ≡ handle_status f node_id st now
      → MachineStep f g
  turn :
      (w : World) (before : List Job) (j : Job) (after : List Job)
      → f.jobs ≡ before ++ (j ∷ after)
      → g ≡ run_job w (record f { jobs = before ++ after }) j
      → MachineStep f g

pub data MachineReach (f : Fleet) : Fleet → Type 0 where
  stay : MachineReach f f
  move : {g h : Fleet} → MachineReach f g → MachineStep g h → MachineReach f h

pub data Step (f g : Fleet) : Type 0 where
  start :
      (id version canary_node_id : String) (now : ℕ)
      → g ≡ (start_canary id version canary_node_id now f).0
      → Step f g
  promoted : (now : ℕ) → g ≡ (promote now f).0 → Step f g
  retried : (now : ℕ) → g ≡ (retry now f).0 → Step f g
  given_up : (now : ℕ) → g ≡ (abandon now f).0 → Step f g
  one_off :
      (w : World) (node_id version : String) (activate : Bool)
      → g ≡ (install_on w f node_id version activate).0
      → Step f g
  machine : MachineStep f g → Step f g

pub data Reach (f : Fleet) : Fleet → Type 0 where
  here : Reach f f
  next : {g h : Fleet} → Reach f g → Step g h → Reach f h

-- What an install leaves alone.
pub record Keeps (f g : Fleet) : Type 0 where
  pub nodes : g.nodes ≡ f.nodes
  pub upgrades : g.upgrades ≡ f.upgrades
  pub jobs : g.jobs ≡ f.jobs
  pub alerts_enabled : g.alerts_enabled ≡ f.alerts_enabled
  pub announced : g.announced ≡ f.announced

tell_node-Keeps :
    (w : World) (f : Fleet) (node_id version : String) (activate : Bool) (p : Plan)
    → Keeps f (tell_node w f node_id version activate p).0
unfolding tell_node
tell_node-Keeps w f node_id version activate p = ground arith

after_panel-Keeps :
    (w : World) (f : Fleet) (node_id version : String) (activate : Bool) (p : Plan)
    (e : Option InstallError) (k : Kernels)
    → Keeps f (after_panel w f node_id version activate p (k, e)).0
unfolding after_panel
after_panel-Keeps w f node_id version activate p none k =
    ground (arith, tell_node-Keeps w (record f { kernels = k }) node_id version activate p)
after_panel-Keeps w f node_id version activate p (some e) k = ground arith

carry_out-Keeps :
    (w : World) (f : Fleet) (node_id version : String) (activate : Bool) (r : Result Plan)
    → Keeps f (carry_out w f node_id version activate r).0
unfolding carry_out
carry_out-Keeps w f node_id version activate (err e) = ground arith
carry_out-Keeps w f node_id version activate (ok p) =
    let (k, e) = ensure_panel w f.kernels p.release version in
    after_panel-Keeps w f node_id version activate p e k

-- An install changes the panel's kernels, the installs and what was sent, and nothing else.
pub install_on-Keeps :
    (w : World) (f : Fleet) (node_id asked : String) (activate : Bool)
    → Keeps f (install_on w f node_id asked activate).0
unfolding install_on
install_on-Keeps w f node_id asked activate =
    carry_out-Keeps w f node_id (normalize_version asked) activate
      (plan_install w f.nodes node_id (normalize_version asked))
