-- ===== src/Xray/Activate/Kept.antt =====
-- What a crash leaves of the `Manager`, and what `staysUp` sees of it.
use chiral.Prelude.{
  ℕ, ◌≡◌, refl, sym, ◌∙◌, subst, Bool, true, false, String, List, [], ◌∷◌, Option, none, some,
  arith,
}
use mathlib.Core.Bool.{false≢true}
use chiral.Xray.{
  Manager, Launch, launched, not_launched, is_running, stop_process, start_config, exit, report,
  crash_of, crash_if, Poll, pause, done, stays_up,
}
use chiral.Xray.Steps.Managed.{Held, IsManaged}

-- What a step leaves as it is.
abbrev pub Keeps : Manager → Manager → Type 0
Keeps m n = (n.bin ≡ m.bin) × (n.config ≡ m.config) × (n.config_version ≡ m.config_version)

pub Keeps-trans : (a b c : Manager) → Keeps a b → Keeps b c → Keeps a c
Keeps-trans a b c h k = (k.0 ∙ h.0, k.1 ∙ h.1, k.2 ∙ h.2)

pub stop_process-Keeps : (c : Option ℕ) (m : Manager) → Keeps m (stop_process c m)
stop_process-Keeps none m = (refl, refl, refl)
stop_process-Keeps (some p) m = (refl, refl, refl)

report-Keeps : (p : ℕ) (m : Manager) → Keeps m (report p m)
unfolding report
report-Keeps p m = (ground arith, ground arith, ground arith)

crash_of-Keeps : (c : Option ℕ) (m : Manager) → Keeps m (crash_of c m)
crash_of-Keeps none m = (refl, refl, refl)
crash_of-Keeps (some p) m = report-Keeps p (exit p m)

pub crash_if-Keeps : (b : Bool) (m : Manager) → Keeps m (crash_if b m)
crash_if-Keeps true m = crash_of-Keeps m.cmd m
crash_if-Keeps false m = (refl, refl, refl)

-- What a turn of the loop comes to, by the state that it reads.
abbrev if_up : Bool → Manager × Bool → Manager → Manager × Bool
if_up b r n = elim b [ true ↦ r | false ↦ (n, false) ]

if_up-Keeps :
    (b : Bool) (m n : Manager) (r : Manager × Bool)
    → Keeps m r.0
    → Keeps m n
    → Keeps m (if_up b r n).0
if_up-Keeps true m n r h k = h
if_up-Keeps false m n r h k = k

if_up-unmoved :
    (b : Bool) (r : Manager × Bool) (n m : Manager)
    → (b ≡ true → r.1 ≡ true → r.0 ≡ m)
    → (if_up b r n).1 ≡ true
    → (if_up b r n).0 ≡ m
if_up-unmoved true r n m h e = h refl e
if_up-unmoved false r n m h e = absurd (false≢true e)

pub stays_up-Keeps :
    (polls : List Poll) (last : Bool) (m : Manager) → Keeps m (stays_up polls last m).0
unfolding stays_up
stays_up-Keeps [] last m = crash_if-Keeps last m
stays_up-Keeps (done c d ∷ polls) last m =
    let n = crash_if c m in
    let first = crash_if-Keeps c m in
    let second = Keeps-trans m n (crash_if d n) first (crash_if-Keeps d n) in
    if_up-Keeps (is_running n.state) m n (crash_if d n, is_running (crash_if d n).state) second
      first
stays_up-Keeps (pause c ∷ polls) last m =
    let n = crash_if c m in
    let first = crash_if-Keeps c m in
    let r = stays_up polls last n in
    if_up-Keeps (is_running n.state) m n r (Keeps-trans m n r.0 first (stays_up-Keeps polls last n))
      first

if_up-running :
    (b : Bool) (r : Manager × Bool) (n : Manager)
    → is_running n.state ≡ b
    → r.1 ≡ is_running (r.0).state
    → (if_up b r n).1 ≡ is_running ((if_up b r n).0).state
if_up-running true r n e h = h
if_up-running false r n e h = sym e

-- What `staysUp` answers is what the state says when it returns.
pub stays_up-running :
    (polls : List Poll) (last : Bool) (m : Manager)
    → (stays_up polls last m).1 ≡ is_running ((stays_up polls last m).0).state
unfolding stays_up
stays_up-running [] last m = refl
stays_up-running (done c d ∷ polls) last m =
    let n = crash_if c m in
    if_up-running (is_running n.state) (crash_if d n, is_running (crash_if d n).state) n refl refl
stays_up-running (pause c ∷ polls) last m =
    let n = crash_if c m in
    if_up-running (is_running n.state) (stays_up polls last n) n refl
      (stays_up-running polls last n)

module _ (version_of : String → String) where
  pub start_config-Keeps :
      (c : Option String) (l : Launch) (m : Manager) → Keeps m (start_config version_of c l m).0
  start_config-Keeps none l m = (refl, refl, refl)
  start_config-Keeps (some c) launched m = (refl, refl, refl)
  start_config-Keeps (some c) (not_launched e) m = (refl, refl, refl)

  pub crash_of-stops :
      (c : Option ℕ) (m : Manager) → Held version_of c m → is_running (crash_of c m).state ≡ false
  unfolding report
  crash_of-stops none m h = h.0
  crash_of-stops (some p) m h = ground (arith, h.0)

  -- A crash is noticed by whatever reads the state after it.
  crash_if-unmoved :
      (b : Bool) (m : Manager)
      → IsManaged version_of m
      → is_running (crash_if b m).state ≡ true
      → crash_if b m ≡ m
  crash_if-unmoved true m h e = absurd (false≢true (sym (crash_of-stops m.cmd m h) ∙ e))
  crash_if-unmoved false m h e = refl

  pub stays_up-unmoved :
      (polls : List Poll) (last : Bool) (m : Manager)
      → IsManaged version_of m
      → (stays_up polls last m).1 ≡ true
      → (stays_up polls last m).0 ≡ m
  unfolding stays_up
  stays_up-unmoved [] last m h e = crash_if-unmoved last m h e
  stays_up-unmoved (done c d ∷ polls) last m h e =
      let n = crash_if c m in
      if_up-unmoved (is_running n.state) (crash_if d n, is_running (crash_if d n).state) n m
        (λ up end.
          let same = crash_if-unmoved c m h up in
          crash_if-unmoved d n (subst (IsManaged version_of) (sym same) h) end ∙ same)
        e
  stays_up-unmoved (pause c ∷ polls) last m h e =
      let n = crash_if c m in
      let again = stays_up-unmoved polls last n in
      if_up-unmoved (is_running n.state) (stays_up polls last n) n m
        (λ up end.
          let same = crash_if-unmoved c m h up in
          again (subst (IsManaged version_of) (sym same) h) end ∙ same)
        e
