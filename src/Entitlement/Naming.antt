-- ===== src/Entitlement/Naming.antt =====
-- `sanitize` of core/internal/user/user.go and `unique` of core/internal/profile/enforce.go.
use chiral.Prelude.{
  ℕ, ◌≡◌, refl, sym, ◌∙◌, ap, true, false, not, ◌&&◌, ◌||◌, String, List, [], ◌∷◌, ◌++◌, arith,
  ◌==◌, All, All-append, contains, eq_iff, inl, inr, Bool-cases, append-nil, append_assoc, subst,
}
use chiral.Entitlement.{is_word, is_nil, safe_runes, trim_dashes, sanitize}
use chiral.Entitlement.Enforce.{unique, unique_from}

abbrev pub Kept : ℕ → Type 0
Kept r = (is_word r || r == b'-') ≡ true

abbrev pub Begins : List ℕ → Type 0
Begins [] = Unit
Begins (r ∷ rs) = (r == b'-') ≡ false

Begins-append :
    (b : List ℕ) (r : ℕ) → Begins b → (is_word r || not (is_nil b)) ≡ true → Begins (b ++ (r ∷ []))
Begins-append [] r h k = ground arith
Begins-append (x ∷ b) r h k = h

safe_runes-Kept : (b s : List ℕ) → All Kept b → All Kept (safe_runes b s)
unfolding safe_runes
safe_runes-Kept b [] h = h
safe_runes-Kept b (r ∷ s) h = elim (Bool-cases (is_word r || (r == b'-' && not (is_nil b)))) [
  | inl e ↦
      rw e (safe_runes-Kept (b ++ (r ∷ [])) s (All-append Kept b (r ∷ []) h (ground arith, tt)))
  | inr e ↦ rw e (safe_runes-Kept b s h)
]

safe_runes-Begins : (b s : List ℕ) → Begins b → Begins (safe_runes b s)
unfolding safe_runes
safe_runes-Begins b [] h = h
safe_runes-Begins b (r ∷ s) h = elim (Bool-cases (is_word r || (r == b'-' && not (is_nil b)))) [
  | inl e ↦ rw e (safe_runes-Begins (b ++ (r ∷ [])) s (Begins-append b r h (ground arith)))
  | inr e ↦ rw e (safe_runes-Begins b s h)
]

trim_dashes-Kept : (s : List ℕ) → All Kept s → All Kept (trim_dashes s)
unfolding trim_dashes
trim_dashes-Kept [] h = tt
trim_dashes-Kept (r ∷ s) (k, h) = ground (arith, trim_dashes-Kept s h)

trim_dashes-Begins : (s : List ℕ) → Begins s → Begins (trim_dashes s)
unfolding trim_dashes
trim_dashes-Begins [] h = tt
trim_dashes-Begins (r ∷ s) h = rw h h

trim_dashes_twice : (s : List ℕ) → trim_dashes (trim_dashes s) ≡ trim_dashes s
unfolding trim_dashes
trim_dashes_twice [] = refl
trim_dashes_twice (r ∷ s) = ground (arith, trim_dashes_twice s)

-- A name that is safe already is kept as it is.
safe_runes_safe : (b s : List ℕ) → All Kept s → Begins (b ++ s) → safe_runes b s ≡ b ++ s
unfolding safe_runes
safe_runes_safe b [] h k = sym (append-nil b)
safe_runes_safe b (r ∷ s) (c, h) k = rw (taken b c k) (
    safe_runes_safe (b ++ (r ∷ [])) s h (subst Begins (sym (append_assoc b (r ∷ []) s)) k)
    ∙ append_assoc b (r ∷ []) s)
  where
    taken :
        (b : List ℕ)
        → Kept r
        → Begins (b ++ (r ∷ s))
        → (is_word r || (r == b'-' && not (is_nil b))) ≡ true
    taken [] c k = ground arith
    taken (x ∷ b) c k = ground arith

-- What is left of a name has only letters, digits, `_` and `-` in it, begins with no `-`, which a
-- command line would take for a flag, and is not changed by another pass.
pub sanitize_lem :
    (s : List ℕ)
    → All Kept (sanitize s) × Begins (sanitize s) × (sanitize (sanitize s) ≡ sanitize s)
unfolding sanitize
sanitize_lem s =
    let b = safe_runes [] s in
    let kept = trim_dashes-Kept b (safe_runes-Kept [] s tt) in
    let begins = trim_dashes-Begins b (safe_runes-Begins [] s tt) in
    (
      kept,
      begins,
      ap trim_dashes (safe_runes_safe [] (trim_dashes b) kept begins) ∙ trim_dashes_twice b,
    )

contains-unique_from :
    (seen ids : List String) (x : String)
    → contains (unique_from seen ids) x ≡ (contains ids x && not (contains seen x))
unfolding unique_from
contains-unique_from seen [] x = refl
contains-unique_from seen (id ∷ ids) x =
    ground
      (arith, contains-unique_from seen ids x, contains-unique_from (id ∷ seen) ids x, eq_iff id x)

-- No text stands twice.
abbrev pub Once : List String → Type 0
Once [] = Unit
Once (x ∷ xs) = (contains xs x ≡ false) × Once xs

unique_from-Once : (seen ids : List String) → Once (unique_from seen ids)
unfolding unique_from
unique_from-Once seen [] = tt
unique_from-Once seen (id ∷ ids) = ground (
  arith,
  unique_from-Once seen ids,
  unique_from-Once (id ∷ seen) ids,
  contains-unique_from (id ∷ seen) ids id,
  eq_iff id id,
)

-- `unique` keeps each node of a list, once.
pub unique_lem :
    (ids : List String) (x : String)
    → Once (unique ids) × (contains (unique ids) x ≡ contains ids x)
unfolding unique
unique_lem ids x = (unique_from-Once [] ids, ground (arith, contains-unique_from [] ids x))
