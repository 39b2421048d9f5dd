-- ===== src/Ruleset/Groups/Fixpoint.antt =====
-- The loop of `resolveGroups`: where it stops, and what is left by then.
use chiral.Prelude.{
  ℕ, zero, suc, ◌≤◌, ◌≡◌, inl, inr, refl, sym, subst, Bool, true, false, ◌||◌, String, List, [],
  ◌∷◌, ◌++◌, arith, keep, length, All, eq_iff, Bool-cases, append_assoc,
}
use chiral.Prelude.Maps.{Map, insert, lookup-insert}
use chiral.Ruleset.{Group, is_builtin_policy}
use chiral.Ruleset.Groups.{
  is_alive, matched, expand, is_nil, State, drop_group, is_empty_group, pass, settle, all_alive,
  settled,
}
use chiral.Ruleset.Groups.Rounds.{
  living_count, has_group, Consistent, pass_keep, pass_drop, settle_stable,
}

-- What is alive by one map is alive by the other.
abbrev pub Sub : Map Bool → Map Bool → Type 0
Sub k a = (n : String) → is_alive k n ≡ true → is_alive a n ≡ true

is_nil-keep :
    (k a : Map Bool) (lits rest : List String)
    → Sub k a
    → is_nil (keep (λ l. is_builtin_policy l || is_alive a l) lits ++ rest) ≡ true
    → is_nil (keep (λ l. is_builtin_policy l || is_alive k l) lits ++ rest) ≡ true
is_nil-keep k a [] rest h e = e
is_nil-keep k a (l ∷ lits) rest h e = ground (arith, h l, is_nil-keep k a lits rest h)

module _ (proxies : List String) (k : Map Bool) where
  -- A group that is empty is empty with fewer groups alive.
  not_empty :
      (g : Group) (a : Map Bool)
      → Sub k a
      → is_empty_group g proxies k ≡ false
      → is_empty_group g proxies a ≡ true
      → is_alive k g.name ≡ false
  unfolding expand
  not_empty g a h c e = ground (arith, is_nil-keep k a g.literals (matched g.matches proxies) h)

  pass-Sub :
      (gs : List Group) (s : State)
      → Consistent gs proxies k
      → Sub k s.alive
      → Sub k (pass proxies gs s).alive
  pass-Sub [] s c h = unfold pass in h
  pass-Sub (g ∷ gs) s (cg, c) h = elim (Bool-cases (is_empty_group g proxies s.alive)) [
    | inl e ↦
        let off = not_empty g s.alive h cg e in
        subst (λ t. Sub k t.alive) (sym (pass_drop proxies g gs s e))
          (pass-Sub gs (drop_group g s) c (λ n a.
            ground (arith, h n a, off, a, eq_iff g.name n, lookup-insert n g.name false s.alive)))
    | inr e ↦ subst (λ t. Sub k t.alive) (sym (pass_keep proxies g gs s e)) (pass-Sub gs s c h)
  ]

  settle-Sub :
      (fuel : ℕ) (groups : List Group) (s : State)
      → Consistent groups proxies k
      → Sub k s.alive
      → Sub k (settle fuel proxies groups s).alive
  unfolding settle
  settle-Sub zero groups s c h = h
  settle-Sub (suc fuel) groups s c h =
      let s0 = record s { changed = false } in
      let h' = pass-Sub groups s0 c h in
      elim (Bool-cases (pass proxies groups s0).changed) [
        | inl e ↦ rw (e, settle) (settle-Sub fuel groups (pass proxies groups s0) c h')
        | inr e ↦ rw (e, settle) h'
      ]

module _ (proxies : List String) where
  Sub-pass : (gs : List Group) (s : State) → Sub (pass proxies gs s).alive s.alive
  Sub-pass [] s n h = unfold pass in h
  Sub-pass (g ∷ gs) s n h = elim (Bool-cases (is_empty_group g proxies s.alive)) [
    | inl e ↦
        let left =
          Sub-pass gs (drop_group g s) n
            (subst (λ t. is_alive t.alive n ≡ true) (pass_drop proxies g gs s e) h) in
        ground (arith, left, eq_iff g.name n, lookup-insert n g.name false s.alive)
    | inr e ↦
        Sub-pass gs s n (subst (λ t. is_alive t.alive n ≡ true) (pass_keep proxies g gs s e) h)
  ]

  Sub-settle :
      (fuel : ℕ) (groups : List Group) (s : State)
      → Sub (settle fuel proxies groups s).alive s.alive
  unfolding settle
  Sub-settle zero groups s n h = h
  Sub-settle (suc fuel) groups s n h =
      let s0 = record s { changed = false } in
      elim (Bool-cases (pass proxies groups s0).changed) [
        | inl e ↦
            Sub-pass groups s0 n
              (Sub-settle fuel groups (pass proxies groups s0) n (rw (e, settle) at h))
        | inr e ↦ Sub-pass groups s0 n (rw (e, settle) at h)
      ]

is_alive-all_alive :
    (groups : List Group) (m : Map Bool) (n : String)
    → is_alive (all_alive groups m) n ≡ (has_group n groups || is_alive m n)
unfolding all_alive
is_alive-all_alive [] m n = refl
is_alive-all_alive (g ∷ groups) m n = ground (
  arith,
  is_alive-all_alive groups (insert g.name true m) n,
  lookup-insert n g.name true m,
  eq_iff g.name n,
)

living_count_most :
    (alive : Map Bool) (groups : List Group) → living_count alive groups ≤ length groups
living_count_most alive [] = omega arith
living_count_most alive (g ∷ groups) = ground (arith, living_count_most alive groups)

All-has_group : (pre gs : List Group) → All (λ g. has_group g.name (pre ++ gs) ≡ true) gs
All-has_group pre [] = tt
All-has_group pre (g ∷ gs) = (
  within pre,
  subst (λ l. All (λ x. has_group x.name l ≡ true) gs) (append_assoc pre (g ∷ []) gs)
      (All-has_group (pre ++ (g ∷ [])) gs),
)
  where
    within : (xs : List Group) → has_group g.name (xs ++ (g ∷ gs)) ≡ true
    within [] = ground (arith, eq_iff g.name g.name)
    within (x ∷ xs) = ground (arith, within xs)

-- The largest consistent choice among the groups that the preset defines.
pub record IsGreatest (groups : List Group) (proxies : List String) (alive : Map Bool)
    : Type 0 where
  pub consistent : Consistent groups proxies alive
  pub defined : (n : String) → is_alive alive n ≡ true → has_group n groups ≡ true
  pub greatest :
      (k : Map Bool)
      → Consistent groups proxies k
      → ((n : String) → is_alive k n ≡ true → has_group n groups ≡ true)
      → Sub k alive

-- The loop ends, with a round that drops nothing, and what is alive then is the largest choice of the
-- preset's groups in which every group has a member: a group is dropped only if no such choice has it.
pub settled-IsGreatest :
    (groups : List Group) (proxies : List String)
    → ((settled groups proxies).changed ≡ false)
      × IsGreatest groups proxies (settled groups proxies).alive
unfolding settled
settled-IsGreatest groups proxies =
    let first = all_alive groups [] in
    let s : State = record { alive = first; dropped = []; changed = false } in
    let start = is_alive-all_alive groups [] in
    let (ended, c) =
      settle_stable proxies (suc (length groups)) groups s (All-has_group [] groups)
        (omega (arith, living_count_most first groups)) in
    (
      ended,
      record {
        consistent = c;
        defined = λ n h.
            let at = Sub-settle proxies (suc (length groups)) groups s n h in
            ground (arith, start n, at);
        greatest = λ k ck d.
            settle-Sub proxies k (suc (length groups)) groups s ck
              (λ n h. ground (arith, d n h, start n));
      },
    )
