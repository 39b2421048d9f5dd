-- ===== src/Xray/Steps.antt =====
-- The interleavings of what runs under the lock of the `Manager`, with processes that exit and
-- goroutines that report, at any time.
pub mod Managed
use chiral.Prelude.{ℕ, ◌≡◌, Bool, true, false, String, List, [], ◌∷◌, Option, none, some, any, ◌==◌}
use chiral.Xray.{
  Manager, Launch, XrayState, StartError, new_manager, set_binary, stop_locked, start_locked, start,
  restart, exit, report,
}

abbrev pub has : ℕ → List ℕ → Bool
has p = any (λ q. q == p)

-- The critical section of `Apply`.
abbrev pub swapped : ℕ → Manager × Option StartError → Manager
swapped version (m, none) = record m { config_version = version }
swapped version (m, some e) = record m { state = XrayState.error }

module _ (version_of : String → String) where
  pub data Step : Manager → Manager → Type 0 where
    set_binary_step : {m : Manager} (bin : String) → Step m (set_binary bin m)
    start_step : {m : Manager} (l : Launch) → Step m (start version_of l m).0
    stop_step : {m : Manager} → Step m (stop_locked m)
    restart_step : {m : Manager} (l : Launch) → Step m (restart version_of l m).0
    write_step : {m : Manager} (config : String) → Step m (record m { config = some config })
    mark_step : {m : Manager} (version : ℕ) → Step m (record m { config_version = version })
    apply_step :
        {m : Manager} (l : Launch) (version : ℕ)
        → Step m (swapped version (start_locked version_of l (stop_locked m)))
    exit_step : {m : Manager} (p : ℕ) → Step m (exit p m)
    report_step :
        {m : Manager} (p : ℕ) → has p m.waiters ≡ true → has p m.alive ≡ false → Step m (report p m)

  pub data Reach : Manager → Type 0 where
    begins : (bin : String) (config : Option String) → Reach (new_manager bin config)
    continues : {m n : Manager} → Reach m → Step m n → Reach n
