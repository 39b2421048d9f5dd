-- ===== src/Xray/Steps/Managed.antt =====
-- What holds of the processes of the `Manager` between any two steps.
use chiral.Prelude.{
  ℕ, suc, ◌≡◌, ◌⊎◌, inl, inr, refl, sym, ◌∙◌, ap, subst, true, false, String, List, [], ◌∷◌, Option,
  none, some, arith, ◌==◌, if◌then◌else◌, Bool-cases,
}
use chiral.Xray.{
  Manager, Launch, launched, not_launched, XrayState, is_running, stop_process, stop_locked,
  start_config, start_locked, start, restart, exit, report, without,
}
use chiral.Xray.Steps.{
  has, swapped, Step, set_binary_step, start_step, stop_step, restart_step, write_step, mark_step,
  apply_step, exit_step, report_step, Reach, begins, continues,
}

module _ (version_of : String → String) where
  -- Without a process the manager runs none and says so. With one, it is the last that was started, it
  -- is the only one that can be alive, its waiter is still to report, and the version that is told is
  -- that of the binary it was started from.
  abbrev pub Held : Option ℕ → Manager → Type 0
  Held none m = (is_running m.state ≡ false) × (m.alive ≡ []) × (m.running_bin ≡ "")
  Held (some p) m =
      (p ≡ m.generation)
      × (is_running m.state ≡ true)
      × ((m.alive ≡ []) ⊎ (m.alive ≡ p ∷ []))
      × (has p m.waiters ≡ true)
      × (m.running_version ≡ version_of m.running_bin)

  abbrev pub IsManaged : Manager → Type 0
  IsManaged m = Held m.cmd m

  without_one : (p q : ℕ) → (without p (q ∷ []) ≡ []) ⊎ (without p (q ∷ []) ≡ q ∷ [])
  without_one p q = elim (Bool-cases (q == p)) [
    | inl e ↦ inl (ground (arith, e))
    | inr e ↦ inr (ground (arith, e))
  ]

  has-without : (p q : ℕ) (l : List ℕ) → (q == p) ≡ false → has q (without p l) ≡ has q l
  has-without p q [] h = refl
  has-without p q (x ∷ l) h = ground (arith, h, has-without p q l h)

  without_self : (p : ℕ) → without p (p ∷ []) ≡ []
  without_self p = ground arith

  stop_process-Held :
      (c : Option ℕ) (m : Manager) → m.cmd ≡ c → Held c m → IsManaged (stop_process c m)
  stop_process-Held none m e h = subst (λ c. Held c (stop_process none m)) (sym e) (refl, h.1, h.2)
  stop_process-Held (some p) m e (g, r, inl a, w, v) = (refl, ap (without p) a, refl)
  stop_process-Held (some p) m e (g, r, inr a, w, v) =
      (refl, ap (without p) a ∙ without_self p, refl)

  stop_process-cmd : (c : Option ℕ) (m : Manager) → m.cmd ≡ c → (stop_process c m).cmd ≡ none
  stop_process-cmd none m e = e
  stop_process-cmd (some p) m e = refl

  pub stop_locked-IsManaged :
      (m : Manager) → IsManaged m → IsManaged (stop_locked m) × ((stop_locked m).cmd ≡ none)
  unfolding stop_locked
  stop_locked-IsManaged m h = (stop_process-Held m.cmd m refl h, stop_process-cmd m.cmd m refl)

  -- A start from a manager without a process.
  start_config-IsManaged :
      (c : Option String) (l : Launch) (m : Manager)
      → m.cmd ≡ none
      → Held none m
      → IsManaged (start_config version_of c l m).0
  start_config-IsManaged none l m e h = subst (λ c. Held c m) (sym e) h
  start_config-IsManaged (some _) (not_launched x) m e h =
      subst (λ c. Held c (record m { state = XrayState.error })) (sym e) (refl, h.1, h.2)
  start_config-IsManaged (some _) launched m e h =
      (refl, refl, inr (ap (◌∷◌ (suc m.generation)) h.1), ground arith, refl)

  start_locked-IsManaged :
      (l : Launch) (m : Manager)
      → m.cmd ≡ none
      → IsManaged m
      → IsManaged (start_locked version_of l m).0
  unfolding start_locked
  start_locked-IsManaged l m e h = start_config-IsManaged m.config l m e (subst (λ c. Held c m) e h)

  pub restart-IsManaged :
      (l : Launch) (m : Manager) → IsManaged m → IsManaged (restart version_of l m).0
  unfolding restart
  restart-IsManaged l m h =
      let s = stop_locked-IsManaged m h in start_locked-IsManaged l (stop_locked m) s.1 s.0

  idle : (c : Option ℕ) (m : Manager) → Held c m → is_running m.state ≡ false → c ≡ none
  idle none m h e = refl
  idle (some p) m h e = ground (arith, h.1, e)

  start-IsManaged : (l : Launch) (m : Manager) → IsManaged m → IsManaged (start version_of l m).0
  unfolding start
  start-IsManaged l m h = elim (Bool-cases (is_running m.state)) [
    | inl e ↦ rw e h
    | inr e ↦ rw e (start_locked-IsManaged l m (idle m.cmd m h e) h)
  ]

  swapped-IsManaged :
      (version : ℕ) (l : Launch) (c : Option String) (m : Manager)
      → m.cmd ≡ none
      → Held none m
      → IsManaged (swapped version (start_config version_of c l m))
  swapped-IsManaged version l none m e h =
      subst (λ c. Held c (record m { state = XrayState.error })) (sym e) (refl, h.1, h.2)
  swapped-IsManaged version (not_launched x) (some _) m e h =
      subst (λ c. Held c (record m { state = XrayState.error })) (sym e) (refl, h.1, h.2)
  swapped-IsManaged version launched (some c) m e h = start_config-IsManaged (some c) launched m e h

  pub exit-Held : (p : ℕ) (c : Option ℕ) (m : Manager) → Held c m → Held c (exit p m)
  exit-Held p none m h = (h.0, ap (without p) h.1, h.2)
  exit-Held p (some q) m (g, r, inl a, w, v) = (g, r, inl (ap (without p) a), w, v)
  exit-Held p (some q) m (g, r, inr a, w, v) =
      let b = ap (without p) a in
      elim (without_one p q) [
        | inl e ↦ (g, r, inl (b ∙ e), w, v)
        | inr e ↦ (g, r, inr (b ∙ e), w, v)
      ]

  dead-alive :
      (p : ℕ) (c : Option ℕ) (m : Manager)
      → (m.generation == p) ≡ true
      → has p m.alive ≡ false
      → Held c m
      → m.alive ≡ []
  dead-alive p none m e d h = h.1
  dead-alive p (some q) m e d (g, r, inl a, w, v) = a
  dead-alive p (some q) m e d (g, r, inr a, w, v) =
      let d' = sym (ap (has p) a) ∙ d in absurd (ground (arith, d', e, g))

  reported-Held :
      (p : ℕ) (c : Option ℕ) (m : Manager)
      → (m.generation == p) ≡ false
      → Held c m
      → Held c (record m { waiters = without p m.waiters })
  reported-Held p none m e h = h
  reported-Held p (some q) m e (g, r, a, w, v) =
      (g, r, a, has-without p q m.waiters (ground (arith, g, e)) ∙ w, v)

  pub report-IsManaged :
      (p : ℕ) (m : Manager) → has p m.alive ≡ false → IsManaged m → IsManaged (report p m)
  unfolding report
  report-IsManaged p m dead h =
      let late : Manager = record m { waiters = without p m.waiters } in
      let now : Manager = record late {
        cmd = none;
        running_bin = "";
        running_version = "";
        state = XrayState.error;
        crashes = p ∷ m.crashes;
      } in
      elim (Bool-cases (m.generation == p)) [
        | inl e ↦
            subst (λ b. IsManaged (if b then now else late)) (sym e)
              (refl, dead-alive p m.cmd m e dead h, refl)
        | inr e ↦
            subst (λ b. IsManaged (if b then now else late)) (sym e) (reported-Held p m.cmd m e h)
      ]

  pub set-Held :
      (c : Option ℕ) (m : Manager) (bin : String) (config : Option String) (version : ℕ)
      → Held c m
      → Held c (record m { bin = bin; config = config; config_version = version })
  set-Held none m bin config version h = h
  set-Held (some p) m bin config version h = h

  Step-IsManaged : {m n : Manager} → Step version_of m n → IsManaged m → IsManaged n
  Step-IsManaged (set_binary_step {m} bin) h = set-Held m.cmd m bin m.config m.config_version h
  Step-IsManaged (start_step {m} l) h = start-IsManaged l m h
  Step-IsManaged (stop_step {m}) h = (stop_locked-IsManaged m h).0
  Step-IsManaged (restart_step {m} l) h = restart-IsManaged l m h
  Step-IsManaged (write_step {m} config) h = set-Held m.cmd m m.bin (some config) m.config_version h
  Step-IsManaged (mark_step {m} version) h = set-Held m.cmd m m.bin m.config version h
  Step-IsManaged (apply_step {m} l version) h =
      let s = stop_locked-IsManaged m h in
      let n = stop_locked m in
      unfold start_locked in
      swapped-IsManaged version l n.config n s.1 (subst (λ c. Held c n) s.1 s.0)
  Step-IsManaged (exit_step {m} p) h = exit-Held p m.cmd m h
  Step-IsManaged (report_step {m} p w d) h = report-IsManaged p m d h

  -- The manager never has more than one kernel running, and what it says of it is true, however starts,
  -- stops, pushes, changes of the binary, exits and late reports follow one another: a report of an
  -- earlier process changes nothing of a later one.
  pub Reach-IsManaged : {m : Manager} → Reach version_of m → IsManaged m
  Reach-IsManaged (begins bin config) = (refl, refl, refl)
  Reach-IsManaged (continues r s) = Step-IsManaged s (Reach-IsManaged r)
