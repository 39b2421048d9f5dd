-- ===== src/Ruleset/Groups/Rounds.antt =====
-- The rounds of `resolveGroups`: each but the last drops a group, so the loop ends.
use chiral.Prelude.{
  ℕ, zero, suc, ◌+◌, ◌≤◌, ◌<◌, ◌≡◌, inl, inr, refl, sym, ◌∙◌, ap, subst, Bool, true, false, String,
  List, [], ◌∷◌, arith, if◌then◌else◌, All, eq_iff, str_eq, Bool-cases, any,
}
use mathlib.Core.Bool.{false≢true}
use chiral.Prelude.Maps.{Map, insert, lookup-insert}
use chiral.Ruleset.{Group}
use chiral.Ruleset.Groups.{is_alive, State, drop_group, is_empty_group, pass, settle}

abbrev pub one_if : Bool → ℕ
one_if true = 1
one_if false = 0

abbrev pub living_count : Map Bool → List Group → ℕ
living_count alive [] = 0
living_count alive (g ∷ groups) = one_if (is_alive alive g.name) + living_count alive groups

pub living_count-insert :
    (alive : Map Bool) (name : String) (groups : List Group)
    → living_count (insert name false alive) groups ≤ living_count alive groups
living_count-insert alive name [] = omega arith
living_count-insert alive name (g ∷ groups) = ground (
  arith,
  lookup-insert g.name name false alive,
  eq_iff name g.name,
  living_count-insert alive name groups,
)

-- A group of that name is in the list.
abbrev pub has_group : String → List Group → Bool
has_group name = any (λ g. str_eq g.name name)

living_count-insert_old :
    (alive : Map Bool) (name : String) (groups : List Group)
    → has_group name groups ≡ true
    → is_alive alive name ≡ true
    → living_count (insert name false alive) groups < living_count alive groups
living_count-insert_old alive name [] h a = cc
living_count-insert_old alive name (g ∷ groups) h a = ground (
  arith,
  lookup-insert g.name name false alive,
  eq_iff name g.name,
  eq_iff g.name name,
  living_count-insert alive name groups,
  living_count-insert_old alive name groups,
)

-- Every group that is alive has members.
abbrev pub Consistent : List Group → List String → Map Bool → Type 0
Consistent groups proxies alive = All (λ g. is_empty_group g proxies alive ≡ false) groups

module _ (proxies : List String) where
  pass_changed :
      (gs : List Group) (s : State) → s.changed ≡ true → (pass proxies gs s).changed ≡ true
  unfolding pass
  pass_changed [] s h = h
  pass_changed (g ∷ gs) s h =
      ground
        (arith, pass_changed gs (if is_empty_group g proxies s.alive then drop_group g s else s))

  pub pass_keep :
      (g : Group) (gs : List Group) (s : State)
      → is_empty_group g proxies s.alive ≡ false
      → pass proxies (g ∷ gs) s ≡ pass proxies gs s
  unfolding pass
  pass_keep g gs s e = ap (λ b. pass proxies gs (if b then drop_group g s else s)) e

  pub pass_drop :
      (g : Group) (gs : List Group) (s : State)
      → is_empty_group g proxies s.alive ≡ true
      → pass proxies (g ∷ gs) s ≡ pass proxies gs (drop_group g s)
  unfolding pass
  pass_drop g gs s e = ap (λ b. pass proxies gs (if b then drop_group g s else s)) e

  -- A round that changes nothing has found every group consistent.
  pass_stable :
      (gs : List Group) (s : State)
      → (pass proxies gs s).changed ≡ false
      → Consistent gs proxies (pass proxies gs s).alive × ((pass proxies gs s).alive ≡ s.alive)
  unfolding pass
  pass_stable [] s h = (tt, refl)
  pass_stable (g ∷ gs) s h = elim (Bool-cases (is_empty_group g proxies s.alive)) [
    | inl e ↦
        let on = pass_changed gs (drop_group g s) refl in
        absurd (false≢true (sym h ∙ ap (λ t. t.changed) (pass_drop g gs s e) ∙ on))
    | inr e ↦
        let q = pass_keep g gs s e in
        let (c, same) = pass_stable gs s (sym (ap (λ t. t.changed) q) ∙ h) in
        subst (λ t. Consistent (g ∷ gs) proxies t.alive × (t.alive ≡ s.alive)) (sym q)
          ((subst (λ a. is_empty_group g proxies a ≡ false) (sym same) e, c), same)
  ]

  module _ (groups : List Group) where
    -- What a round does to the number of living groups.
    pass_count :
        (gs : List Group) (s : State)
        → All (λ g. has_group g.name groups ≡ true) gs
        → (living_count (pass proxies gs s).alive groups ≤ living_count s.alive groups)
          × ((s.changed ≡ false)
              → (pass proxies gs s).changed ≡ true
              → living_count (pass proxies gs s).alive groups < living_count s.alive groups)
    unfolding pass
    pass_count [] s h = (omega arith, λ a b. cc)
    pass_count (g ∷ gs) s (hg, h) = elim (Bool-cases (is_empty_group g proxies s.alive)) [
      | inl e ↦
          let (le, lt) = pass_count gs (drop_group g s) h in
          let less = living_count-insert_old s.alive g.name groups hg (ground (arith, e)) in
          rw (e, pass) (omega (arith, le, less), λ a b. omega (arith, le, less))
      | inr e ↦ rw (e, pass) (pass_count gs s h)
    ]

  pub settle_stable :
      (fuel : ℕ) (groups : List Group) (s : State)
      → All (λ g. has_group g.name groups ≡ true) groups
      → living_count s.alive groups < fuel
      → ((settle fuel proxies groups s).changed ≡ false)
        × Consistent groups proxies (settle fuel proxies groups s).alive
  unfolding settle
  settle_stable zero groups s m h = absurd (omega arith)
  settle_stable (suc fuel) groups s m h =
      let s0 = record s { changed = false } in
      let s' = pass proxies groups s0 in
      let (le, lt) = pass_count groups groups s0 m in
      elim (Bool-cases s'.changed) [
        | inl e ↦ rw (e, settle) (settle_stable fuel groups s' m (omega (arith, h, lt refl e)))
        | inr e ↦ rw (e, settle) (e, (pass_stable groups s0 e).0)
      ]
