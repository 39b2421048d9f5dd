-- ===== src/Xray/Activate/Binary.antt =====
-- Which binary the `Manager` of agent/internal/xray/activate.go is left with, whatever the process does.
use chiral.Prelude.{
  ◌≡◌, ◌⊎◌, inl, inr, refl, ◌∙◌, Bool, true, false, String, Option, none, some, Bool-cases, str_eq,
}
use chiral.Xray.{Manager, StartError, set_binary, restart, stays_up, crash_if}
use chiral.Xray.Activate.{
  Outcome, Reason, Trial, active, inconclusive, failed, rollback, back, checked, compared, observed,
  restarted, activate, dropped_while_checking, lost_path, exited_at_startup,
}
use chiral.Xray.Activate.Kept.{crash_if-Keeps, stays_up-Keeps}
use chiral.Xray.Activate.Verdict.{restart-Keeps}

-- The binary after an outcome, given the manager before: an inconclusive one may have touched nothing.
abbrev pub Left : String → Manager → Manager → Outcome → Type 0
Left bin m n active = n.bin ≡ bin
Left bin m n inconclusive = (n ≡ m) ⊎ (n.bin ≡ bin)
Left bin m n failed = n.bin ≡ m.bin

module _ (version_of : String → String) (t : Trial) (bin : String) (m : Manager) where
  abbrev Leaves : Manager × Outcome × Reason → Type 0
  Leaves (n, o, why) = Left bin m n o

  rollback-Leaves : (why : Reason) (n : Manager) → Leaves (rollback version_of t m.bin why n)
  unfolding rollback
  rollback-Leaves why n = (restart-Keeps version_of t.launch_back (set_binary m.bin n)).0

  checked-Leaves :
      (c : Option String) (n : Manager) → n.bin ≡ bin → Leaves (checked version_of t m.bin n c)
  unfolding rollback
  checked-Leaves none n h = h
  checked-Leaves (some e) n h = elim (Bool-cases t.cancelled_after) [
    | inl f ↦ rw f (rollback-Leaves dropped_while_checking n)
    | inr f ↦ rw f (rollback-Leaves (lost_path e) n)
  ]

  compared-Leaves :
      (b : Option String) (n : Manager) → n.bin ≡ bin → Leaves (compared version_of t m.bin n b)
  compared-Leaves (some e) n h = inr h
  compared-Leaves none n h =
      checked-Leaves t.check (crash_if t.crash_in_check n)
        ((crash_if-Keeps t.crash_in_check n).0 ∙ h)

  observed-Leaves :
      (up : Bool) (n : Manager) → n.bin ≡ bin → Leaves (observed version_of t m.bin (n, up))
  observed-Leaves false n h = rollback-Leaves exited_at_startup n
  observed-Leaves true n h = compared-Leaves t.baseline n h

  back-Leaves :
      (e : StartError) (q : Manager × Option StartError)
      → (q.0).bin ≡ m.bin
      → Leaves (back version_of e q)
  back-Leaves e (n, none) h = h
  back-Leaves e (n, some e') h = h

  restarted-Leaves :
      (e : Option StartError) (n : Manager)
      → n.bin ≡ bin
      → Leaves (restarted version_of t m.bin (n, e))
  restarted-Leaves (some e) n h =
      let n' = set_binary m.bin n in
      back-Leaves e (restart version_of t.launch_back n')
        (restart-Keeps version_of t.launch_back n').0
  restarted-Leaves none n h =
      let s = stays_up t.polls t.crash_last n in
      observed-Leaves s.1 s.0 ((stays_up-Keeps t.polls t.crash_last n).0 ∙ h)

  -- An active outcome leaves the manager with the new binary and a failed one with the old binary. An
  -- inconclusive one either touched nothing or leaves the new binary.
  pub activate-Left : Left bin m (activate version_of t bin m).0 (activate version_of t bin m).1
  unfolding activate rollback restart stays_up
  activate-Left = elim (Bool-cases (str_eq m.bin bin)) [
    | inl e ↦ rw e (inl refl)
    | inr e ↦ rw e (elim (Bool-cases t.cancelled_before) [
      | inl f ↦ rw f (inl refl)
      | inr f ↦ rw f (
          let r = restart version_of t.launch (set_binary bin m) in
          restarted-Leaves r.1 r.0 (restart-Keeps version_of t.launch (set_binary bin m)).0)
    ])
  ]
