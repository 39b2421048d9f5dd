-- ===== src/Release/Latest.antt =====
-- `pickLatest` of core/internal/release/release.go.
use chiral.Prelude.{
  ◌≡◌, ◌≢◌, ◌⊎◌, inl, inr, refl, Bool, true, false, not, ◌&&◌, String, List, [], ◌∷◌, arith, All,
  if◌then◌else◌, str_eq, Bool-cases, ne→str_ne, ap, ◌∙◌, sym, subst,
}
use chiral.Version.{compare_versions}
use chiral.Version.Order.{AtMost, compare_versions-flip, compare_versions_trans}
use chiral.Release.{Release, no_release, takes_over, pick_from, pick_latest}

-- A release that may be chosen: a final one, or any where prereleases are included.
abbrev pub Eligible : Bool → Release → Type 0
Eligible include_prerelease r = (r.prerelease && not include_prerelease) ≡ false

-- What `pickLatest` promises of its choice against one release.
abbrev pub NotBelow : Bool → Release → Release → Type 0
NotBelow include_prerelease best r =
    Eligible include_prerelease r → AtMost (compare_versions r.version best.version)

AtMost-refl : (v : String) → AtMost (compare_versions v v)
AtMost-refl v h = ground (arith, compare_versions-flip v v)

-- One step keeps a chosen version named, and never goes down.
unnamed : (v : String) → v ≢ "" → str_eq v "" ≡ false
unnamed v h = ne→str_ne v "" h

step_up :
    (inc : Bool) (r best : Release)
    → r.version ≢ ""
    → best.version ≢ ""
    → let next = if takes_over inc r best then r else best in
      (next.version ≢ "")
      × AtMost (compare_versions best.version next.version)
      × NotBelow inc next r
unfolding takes_over
step_up inc r best hr hb = rw (unnamed best.version hb) (
    ground (
      arith,
      AtMost-refl r.version,
      AtMost-refl best.version,
      compare_versions-flip best.version r.version,
    ))

pick_taken :
    (inc : Bool) (best r : Release) (rest : List Release)
    → takes_over inc r best ≡ true
    → pick_from inc best (r ∷ rest) ≡ pick_from inc r rest
unfolding pick_from
pick_taken inc best r rest e = rw e

pick_skipped :
    (inc : Bool) (best r : Release) (rest : List Release)
    → takes_over inc r best ≡ false
    → pick_from inc best (r ∷ rest) ≡ pick_from inc best rest
unfolding pick_from
pick_skipped inc best r rest e = rw e

pick-next :
    (inc : Bool) (best r : Release) (rest : List Release)
    → pick_from inc best (r ∷ rest) ≡ pick_from inc (if takes_over inc r best then r else best) rest
unfolding pick_from
pick-next inc best r rest = refl

-- From a named release on, the choice is named, is not below it and is not below what follows.
pick_from-NotBelow :
    (inc : Bool) (best : Release) (rest : List Release)
    → best.version ≢ ""
    → All (λ r. r.version ≢ "") rest
    → AtMost (compare_versions best.version (pick_from inc best rest).version)
      × All (NotBelow inc (pick_from inc best rest)) rest
pick_from-NotBelow inc best [] hb named = (unfold pick_from in AtMost-refl best.version, tt)
pick_from-NotBelow inc best (r ∷ rest) hb (hr, named) =
    let next = if takes_over inc r best then r else best in
    let (kept, up, below) = step_up inc r best hr hb in
    let (over, others) = pick_from-NotBelow inc next rest kept named in
    let top = (pick_from inc next rest).version in
    subst (λ b. AtMost (compare_versions best.version b.version) × All (NotBelow inc b) (r ∷ rest))
      (sym (pick-next inc best r rest))
      (
        compare_versions_trans best.version next.version top up over,
        ((λ e. compare_versions_trans r.version next.version top (below e) over), others),
      )

-- The choice is one of the releases, and one that may be chosen.
abbrev pub Chosen : Bool → Release → List Release → Type 0
Chosen inc best [] = ⊥
Chosen inc best (r ∷ rest) = ((best ≡ r) × Eligible inc r) ⊎ Chosen inc best rest

takes_over-Eligible :
    (inc : Bool) (r best : Release) → takes_over inc r best ≡ true → Eligible inc r
unfolding takes_over
takes_over-Eligible inc r best h = ground arith

pick_from-Chosen :
    (inc : Bool) (best : Release) (rest : List Release)
    → (pick_from inc best rest ≡ best) ⊎ Chosen inc (pick_from inc best rest) rest
pick_from-Chosen inc best [] = inl (unfold pick_from in refl)
pick_from-Chosen inc best (r ∷ rest) = elim (Bool-cases (takes_over inc r best)) [
  | inl e ↦
      subst (λ b. (b ≡ best) ⊎ Chosen inc b (r ∷ rest)) (sym (pick_taken inc best r rest e))
        (elim (pick_from-Chosen inc r rest) [
          | inl same ↦ inr (inl (same, takes_over-Eligible inc r best e))
          | inr there ↦ inr (inr there)
        ])
  | inr e ↦
      subst (λ b. (b ≡ best) ⊎ Chosen inc b (r ∷ rest)) (sym (pick_skipped inc best r rest e))
        (elim (pick_from-Chosen inc best rest) [
          | inl same ↦ inl same
          | inr there ↦ inr (inr there)
        ])
]

first_taken :
    (inc : Bool) (r : Release) → takes_over inc r no_release ≡ not (r.prerelease && not inc)
unfolding takes_over
first_taken inc r = ground arith

-- What `pickLatest` promises: one of the releases that may be chosen, below none of them; or the
-- empty release, where none may be chosen.
abbrev pub IsLatest : Bool → List Release → Release → Type 0
IsLatest inc all best =
    (Chosen inc best all × All (NotBelow inc best) all)
    ⊎ ((best ≡ no_release) × All (λ r. ¬ Eligible inc r) all)

pick_first :
    (inc : Bool) (all : List Release)
    → All (λ r. r.version ≢ "") all
    → IsLatest inc all (pick_from inc no_release all)
pick_first inc [] named = inr (unfold pick_from in refl, tt)
pick_first inc (r ∷ rest) (hr, named) = elim (Bool-cases (r.prerelease && not inc)) [
  | inl barred ↦
      subst (IsLatest inc (r ∷ rest))
        (sym (pick_skipped inc no_release r rest (first_taken inc r ∙ ap not barred)))
        (elim (pick_first inc rest named) [
          | inl (chosen, top) ↦ inl (inr chosen, ((λ e. cc), top))
          | inr (same, others) ↦ inr (same, ((λ e. cc), others))
        ])
  | inr free ↦
      let (up, top) = pick_from-NotBelow inc r rest hr named in
      subst (IsLatest inc (r ∷ rest))
        (sym (pick_taken inc no_release r rest (first_taken inc r ∙ ap not free)))
        (inl (
          elim (pick_from-Chosen inc r rest) [
            | inl same ↦ inl (same, free)
            | inr there ↦ inr there
          ],
          ((λ _. up), top),
        ))
]

-- `pickLatest` returns a release that may be chosen and is below no other that may be, in the
-- order of versions and not of the list; it returns the empty release just where none may be
-- chosen. Each release has a version.
pub pick_latest-IsLatest :
    (all : List Release) (inc : Bool)
    → All (λ r. r.version ≢ "") all
    → IsLatest inc all (pick_latest all inc)
unfolding pick_latest
pick_latest-IsLatest all inc named = pick_first inc all named
