-- ===== src/Xray/Activate/Verdict.antt =====
-- What each outcome of `Activate` says of the node.
use chiral.Prelude.{
  ◌≡◌, ◌⊎◌, ◌≢◌, inl, inr, refl, sym, ◌∙◌, ap, subst, Bool, true, false, String, Option, none, some,
  arith, Bool-cases, str_eq,
}
use chiral.Xray.{
  Manager, Launch, launched, not_launched, StartError, is_running, set_binary, stop_process,
  stop_locked, start_config, start_locked, restart, crash_if, stays_up,
}
use chiral.Xray.Activate.{
  Outcome, active, inconclusive, failed, Trial, rollback, back, checked, compared, observed,
  restarted, activate,
}
use chiral.Xray.Activate.Kept.{
  start_config-Keeps, Keeps, Keeps-trans, stop_process-Keeps, crash_if-Keeps, stays_up-Keeps,
  stays_up-unmoved,
}
use chiral.Xray.Steps.Managed.{IsManaged, restart-IsManaged, set-Held}

-- The node serves with the binary that it would also start next.
abbrev pub Runs : String → Manager → Type 0
Runs bin m = (m.bin ≡ bin) × (is_running m.state ≡ true) × (m.running_bin ≡ bin)

module _ (version_of : String → String) where
  pub restart-Keeps : (l : Launch) (m : Manager) → Keeps m (restart version_of l m).0
  unfolding restart start_locked stop_locked
  restart-Keeps l m =
      let n = stop_process m.cmd m in
      Keeps-trans m n (start_config version_of n.config l n).0 (stop_process-Keeps m.cmd m)
        (start_config-Keeps version_of n.config l n)

  start_config-Runs :
      (c : Option String) (l : Launch) (m : Manager)
      → (start_config version_of c l m).1 ≡ none
      → Runs m.bin (start_config version_of c l m).0
  start_config-Runs none l m h = ground arith
  start_config-Runs (some c) launched m h = (refl, refl, refl)
  start_config-Runs (some c) (not_launched e) m h = ground arith

  -- A restart without an error runs the configured binary.
  restart-Runs :
      (l : Launch) (m : Manager)
      → (restart version_of l m).1 ≡ none
      → Runs m.bin (restart version_of l m).0
  unfolding restart start_locked stop_locked
  restart-Runs l m h =
      let n = stop_process m.cmd m in
      subst (λ b. Runs b (start_config version_of n.config l n).0) (stop_process-Keeps m.cmd m).0
        (start_config-Runs n.config l n h)

  start_config-launched :
      (c : Option String) (m : Manager) (config : String)
      → c ≡ some config
      → (start_config version_of c launched m).1 ≡ none
  start_config-launched none m config h = ground arith
  start_config-launched (some c) m config h = refl

  restart-launched :
      (m : Manager) (config : String)
      → m.config ≡ some config
      → (restart version_of launched m).1 ≡ none
  unfolding restart start_locked stop_locked
  restart-launched m config h =
      let n = stop_process m.cmd m in
      start_config-launched n.config n config ((stop_process-Keeps m.cmd m).1 ∙ h)

  -- What the outcome says, given the trial and the manager before: in each case the binary that the
  -- manager is left with, and whether the node serves with it.
  abbrev pub Says : Trial → String → Manager → Manager → Outcome → Type 0
  Says t bin m n active =
      (t.baseline ≡ none)
      × (t.check ≡ none)
      × (n.bin ≡ bin)
      × (t.crash_in_check ≡ false → Runs bin n)
  Says t bin m n inconclusive = (n ≡ m) ⊎ ((t.baseline ≢ none) × Runs bin n)
  Says t bin m n failed = (n.bin ≡ m.bin) × (t.launch_back ≡ launched → Runs m.bin n)

  module _ (t : Trial) (bin : String) (m : Manager) (config : String)
      (there : m.config ≡ some config) where
    rollback-Says :
        (n : Manager)
        → n.config ≡ m.config
        → Says t bin m (restart version_of t.launch_back (set_binary m.bin n)).0 failed
    rollback-Says n k =
        let n' = set_binary m.bin n in
        (
          (restart-Keeps t.launch_back n').0,
          λ e.
              restart-Runs t.launch_back n'
                (ap (λ l. (restart version_of l n').1) e ∙ restart-launched n' config (k ∙ there)),
        )

    checked-Says :
        (c : Option String) (n : Manager)
        → t.check ≡ c
        → t.baseline ≡ none
        → Keeps (set_binary bin m) n
        → (t.crash_in_check ≡ false → Runs bin n)
        → Says t bin m (checked version_of t m.bin n c).0 (checked version_of t m.bin n c).1
    unfolding rollback
    checked-Says none n e b k r = (b, e, k.0, r)
    checked-Says (some x) n e b k r =
        let say = rollback-Says n k.1 in
        elim (Bool-cases t.cancelled_after) [ inl f ↦ rw f say | inr f ↦ rw f say ]

    compared-Says :
        (b : Option String) (n : Manager)
        → t.baseline ≡ b
        → Keeps (set_binary bin m) n
        → Runs bin n
        → Says t bin m (compared version_of t m.bin n b).0 (compared version_of t m.bin n b).1
    compared-Says (some x) n e k r = inr ((λ f. ground (arith, e, f)), r)
    compared-Says none n e k r =
        let n' = crash_if t.crash_in_check n in
        checked-Says t.check n' refl e
          (Keeps-trans (set_binary bin m) n n' k (crash_if-Keeps t.crash_in_check n))
          (λ f. subst (λ c. Runs bin (crash_if c n)) (sym f) r)

    observed-Says :
        (up : Bool) (n : Manager)
        → Keeps (set_binary bin m) n
        → (up ≡ true → Runs bin n)
        → Says t bin m
            (observed version_of t m.bin (n, up)).0
            (observed version_of t m.bin (n, up)).1
    unfolding rollback
    observed-Says false n k r = rollback-Says n k.1
    observed-Says true n k r = compared-Says t.baseline n refl k (r refl)

    restarted-Says :
        (n : Manager) (e : Option StartError)
        → IsManaged version_of n
        → Keeps (set_binary bin m) n
        → (e ≡ none → Runs bin n)
        → Says t bin m
            (restarted version_of t m.bin (n, e)).0
            (restarted version_of t m.bin (n, e)).1
    restarted-Says n (some x) h k r =
        let say = rollback-Says n k.1 in
        back-Says x (restart version_of t.launch_back (set_binary m.bin n)) say
      where
        back-Says :
            (x : StartError) (q : Manager × Option StartError)
            → Says t bin m q.0 failed
            → Says t bin m (back version_of x q).0 (back version_of x q).1
        back-Says x (n, none) say = say
        back-Says x (n, some y) say = say
    restarted-Says n none h k r =
        let s = stays_up t.polls t.crash_last n in
        observed-Says s.1 s.0
          (Keeps-trans (set_binary bin m) n s.0 k (stays_up-Keeps t.polls t.crash_last n))
          (λ up.
            subst (Runs bin) (sym (stays_up-unmoved version_of t.polls t.crash_last n h up))
              (r refl))

    -- A verdict on a new binary says what is true of the node, where there is a configuration and the
    -- manager's process is as its state says. Active: the probe passed with the old binary before and
    -- with the new one after, and the node runs the new one, unless its process died during the probe.
    -- Inconclusive: nothing was touched, or the new one runs and there was no working probe to compare
    -- with. Failed: the manager is back at the old binary, and runs it if it starts.
    pub activate-Says :
        IsManaged version_of m
        → Says t bin m (activate version_of t bin m).0 (activate version_of t bin m).1
    unfolding activate
    activate-Says h =
        let n = set_binary bin m in
        let r = restart version_of t.launch n in
        elim (Bool-cases (str_eq m.bin bin)) [
          | inl e ↦ rw e (inl refl)
          | inr e ↦ rw e (elim (Bool-cases t.cancelled_before) [
            | inl f ↦ rw f (inl refl)
            | inr f ↦ rw f (
                restarted-Says r.0 r.1
                  (restart-IsManaged version_of t.launch n
                    (set-Held version_of m.cmd m bin m.config m.config_version h))
                  (restart-Keeps t.launch n) (restart-Runs t.launch n))
          ])
        ]
