-- ===== src/Xray/Apply/Pushed.antt =====
-- What a push of a configuration leaves behind.
use mathlib.Core.Bool.{false≢true}
use chiral.Prelude.{
  ℕ, ◌≤◌, ◌<◌, ◌≡◌, ◌≢◌, refl, sym, ◌∙◌, ap, subst, Bool, true, false, not, ◌&&◌, String, Option,
  none, some, arith, inl, inr, ltb, ◌==◌, Bool-cases, eq_iff,
}
use chiral.Xray.{
  Manager, Launch, launched, not_launched, StartError, is_running, stop_locked, start_config,
  start_locked, stays_up,
}
use chiral.Xray.Apply.{
  ApplyError, stale, not_written, not_renamed, binary_not_found, test_failed, not_started, exited,
  Push, settled, settle, swap, test_config, apply, same_config,
}
use chiral.Xray.Steps.Managed.{IsManaged, stop_locked-IsManaged, set-Held}
use chiral.Xray.Activate.Kept.{
  start_config-Keeps, stays_up-Keeps, stop_process-Keeps, stays_up-running,
}

module _ (version_of : String → String) where
  -- The node serves the configuration under the version.
  abbrev pub Serves : ℕ → String → Manager → Type 0
  Serves version config n =
      (n.config_version ≡ version) × (n.config ≡ some config) × (is_running n.state ≡ true)

  -- What an answer says, by the manager before and after the call. The errors from before the restart
  -- leave everything; the others leave the new file, and no process where it could not be started.
  abbrev pub Says : ℕ → String → Manager → Manager → Option ApplyError → Type 0
  Says version config m n none = Serves version config n
  Says version config m n (some (stale _ _)) = n ≡ m
  Says version config m n (some not_written) = n ≡ m
  Says version config m n (some not_renamed) = n ≡ m
  Says version config m n (some binary_not_found) = n ≡ m
  Says version config m n (some (test_failed _)) = n ≡ m
  Says version config m n (some (not_started _)) =
      (n.config ≡ some config) × (n.cmd ≡ none) × (is_running n.state ≡ false)
  Says version config m n (some exited) =
      (n.config ≡ some config) × (n.config_version ≡ version) × (is_running n.state ≡ false)

  settled-Says :
      (version : ℕ) (config : String) (m n : Manager) (up : Bool)
      → n.config_version ≡ version
      → n.config ≡ some config
      → up ≡ is_running n.state
      → Says version config m (settled (n, up)).0 (settled (n, up)).1
  settled-Says version config m n true v c e = (v, c, sym e)
  settled-Says version config m n false v c e = (c, v, sym e)

  settle-Says :
      (p : Push) (version : ℕ) (config : String) (m n : Manager) (e : Option StartError)
      → n.config ≡ some config
      → (e ≢ none → n.cmd ≡ none)
      → Says version config m (settle p version (n, e)).0 (settle p version (n, e)).1
  settle-Says p version config m n (some x) c idle = (c, idle (λ f. ground (arith, f)), refl)
  settle-Says p version config m n none c idle =
      let n' : Manager = record n { config_version = version } in
      let s = stays_up p.polls p.crash_last n' in
      let k = stays_up-Keeps p.polls p.crash_last n' in
      settled-Says version config m s.0 s.1 (k.2) (k.1 ∙ c)
        (stays_up-running p.polls p.crash_last n')

  start_config-fails :
      (c : Option String) (l : Launch) (n : Manager)
      → n.cmd ≡ none
      → (start_config version_of c l n).1 ≢ none
      → (start_config version_of c l n).0.cmd ≡ none
  start_config-fails none l n e h = e
  start_config-fails (some _) launched n e h = absurd (h refl)
  start_config-fails (some _) (not_launched x) n e h = e

  swap-Says :
      (p : Push) (version : ℕ) (config : String) (m : Manager)
      → IsManaged version_of m
      → Says version config m
          (swap version_of p version config m).0
          (swap version_of p version config m).1
  unfolding swap
  swap-Says p version config m h =
      let m' : Manager = record m { config = some config } in
      let n = stop_locked m' in
      let r = start_config version_of n.config p.launch n in
      let idle =
        (stop_locked-IsManaged version_of m'
          (set-Held version_of m.cmd m m.bin (some config) m.config_version h)).1 in
      let kept : n.config ≡ some config = unfold stop_locked in (stop_process-Keeps m'.cmd m').1 in
      unfold start_locked in
      settle-Says p version config m r.0 r.1
        ((start_config-Keeps version_of n.config p.launch n).1 ∙ kept)
        (start_config-fails n.config p.launch n idle)

  test_config-Says :
      (p : Push) (version : ℕ) (config : String) (m : Manager) (out : Option String)
      → IsManaged version_of m
      → Says version config m
          (test_config version_of p version config m out).0
          (test_config version_of p version config m out).1
  unfolding swap
  test_config-Says p version config m (some out) h = refl
  test_config-Says p version config m none h = elim (Bool-cases p.renamed) [
    | inl e ↦ rw e (swap-Says p version config m h)
    | inr e ↦ rw e refl
  ]

  same_config_eq :
      (c : Option String) (config : String) → same_config c config ≡ true → c ≡ some config
  same_config_eq none config h = absurd (false≢true h)
  same_config_eq (some old) config h = ap some ((eq_iff old config).0 h)

  -- What a push leaves, where the manager's process is as its state says: without an error, the node
  -- runs with the new file under its version; an error from before the restart leaves everything as it
  -- was; and where the process does not start or does not stay up, the new file is in place and no
  -- kernel runs.
  pub apply-Says :
      (p : Push) (version : ℕ) (config : String) (m : Manager)
      → IsManaged version_of m
      → Says version config m
          (apply version_of p version config m).0
          (apply version_of p version config m).1
  unfolding apply
  apply-Says p version config m h =
      elim (Bool-cases (not (m.config_version == 0) && ltb version m.config_version)) [
        | inl e ↦ rw e refl
        | inr e ↦ rw e (elim (Bool-cases (is_running m.state && same_config m.config config)) [
          | inl f ↦
              let c = same_config_eq m.config config (ground (arith, f)) in
              rw f (refl, c, ground (arith, f))
          | inr f ↦ rw f (elim (Bool-cases p.written) [
            | inr w ↦ rw w refl
            | inl w ↦ rw w (elim (Bool-cases p.found) [
              | inr b ↦ rw b refl
              | inl b ↦ rw b (test_config-Says p version config m p.tested h)
            ])
          ])
        ])
      ]

  same_config_self :
      (c : Option String) (config : String) → c ≡ some config → same_config c config ≡ true
  same_config_self none config e = ground arith
  same_config_self (some old) config e = ground (arith, e, eq_iff old config)

  -- After a push that was applied, the same file under a version that is not older changes the version
  -- and nothing else, the process least of all; and an older version is refused, with any file.
  pub apply-apply :
      (p q : Push) (version newer : ℕ) (config other : String) (m n : Manager)
      → IsManaged version_of m
      → apply version_of p version config m ≡ (n, none)
      → (version ≤ newer
          → apply version_of q newer config n ≡ (record n { config_version = newer }, none))
        × (newer < version → apply version_of q newer other n ≡ (n, some (stale newer version)))
  apply-apply p q version newer config other m n h e =
      let s : Serves version config n =
        subst (λ r. Says version config m r.0 r.1) e (apply-Says p version config m h) in
      let same = same_config_self n.config config s.1 in
      (
        λ le.
            unfold apply in
            let fresh : (not (n.config_version == 0) && ltb newer n.config_version) ≡ false =
              ground (arith, s.0, le) in
            rw fresh (rw (s.2) (rw same refl)),
        λ lt.
            unfold apply in
            let late : (not (n.config_version == 0) && ltb newer n.config_version) ≡ true =
              ground (arith, s.0, lt) in
            rw late (ap (λ v. (n, some (stale newer v))) s.0),
      )
