-- ===== src/Version/Order.antt =====
-- `CompareVersions` of core/internal/template/version.go as an order.
use chiral.Prelude.{ℕ, ◌≡◌, ◌≢◌, refl, String, List, [], ◌∷◌, arith}
use chiral.Prelude.Int.{ℤ, pos}
use chiral.Version.{
  Sign, less, equal, greater, compare_text, compare_int, then_compare, seg_value, compare_segments,
  compare_prerelease, parts, compare_parts, compare_versions,
}

abbrev pub flip : Sign → Sign
flip less = greater
flip equal = equal
flip greater = less

-- `a` is not above `b`.
abbrev pub AtMost : Sign → Type 0
AtMost s = s ≢ greater

-- How three comparisons in a row fit: `a` with `b`, `b` with `c`, `a` with `c`.
abbrev Chains : Sign → Sign → Sign → Type 0
Chains less less t = t ≡ less
Chains less equal t = t ≡ less
Chains equal less t = t ≡ less
Chains equal equal t = t ≡ equal
Chains _ _ _ = Unit

then_compare-Chains :
    (r s t r' s' t' : Sign)
    → Chains r s t
    → Chains r' s' t'
    → Chains (then_compare r r') (then_compare s s') (then_compare t t')
then_compare-Chains less less t r' s' t' h h' = ground arith
then_compare-Chains _ _ t r' s' t' h h' = ground arith

then_compare-flip :
    (r s r' s' : Sign) → r ≡ flip r' → s ≡ flip s' → then_compare r s ≡ flip (then_compare r' s')
then_compare-flip r s r' s' h k = ground arith

compare_int-flip : (a b : ℤ) → compare_int a b ≡ flip (compare_int b a)
unfolding compare_int
compare_int-flip a b = ground arith

compare_int-Chains : (a b c : ℤ) → Chains (compare_int a b) (compare_int b c) (compare_int a c)
unfolding compare_int
compare_int-Chains (pos a) (pos b) (pos c) = ground arith
compare_int-Chains _ b c = ground arith

compare_text-flip : (a b : List ℕ) → compare_text a b ≡ flip (compare_text b a)
unfolding compare_text
compare_text-flip [] [] = refl
compare_text-flip [] (y ∷ b) = refl
compare_text-flip (x ∷ a) [] = refl
compare_text-flip (x ∷ a) (y ∷ b) = ground (arith, compare_text-flip a b)

compare_text-Chains :
    (a b c : List ℕ) → Chains (compare_text a b) (compare_text b c) (compare_text a c)
unfolding compare_text
compare_text-Chains [] [] c = ground arith
compare_text-Chains (x ∷ a) (y ∷ b) (z ∷ c) = ground (arith, compare_text-Chains a b c)
compare_text-Chains _ _ _ = ground arith

compare_prerelease-flip : (a b : List ℕ) → compare_prerelease a b ≡ flip (compare_prerelease b a)
unfolding compare_prerelease
compare_prerelease-flip [] [] = refl
compare_prerelease-flip [] (y ∷ b) = refl
compare_prerelease-flip (x ∷ a) [] = refl
compare_prerelease-flip (x ∷ a) (y ∷ b) = compare_text-flip (x ∷ a) (y ∷ b)

compare_prerelease-Chains :
    (a b c : List ℕ)
    → Chains (compare_prerelease a b) (compare_prerelease b c) (compare_prerelease a c)
unfolding compare_prerelease
compare_prerelease-Chains (x ∷ a) (y ∷ b) (z ∷ c) = compare_text-Chains (x ∷ a) (y ∷ b) (z ∷ c)
compare_prerelease-Chains [] b c = ground arith
compare_prerelease-Chains (x ∷ a) [] c = ground arith
compare_prerelease-Chains (x ∷ a) (y ∷ b) [] = ground arith

compare_segments-flip : (a b : List (List ℕ)) → compare_segments a b ≡ flip (compare_segments b a)
unfolding compare_segments
compare_segments-flip [] [] = refl
compare_segments-flip (x ∷ a) [] =
    then_compare-flip _ _ (compare_int (pos 0) (seg_value x)) (compare_segments [] a)
      (compare_int-flip (seg_value x) (pos 0)) (compare_segments-flip a [])
compare_segments-flip [] (y ∷ b) =
    then_compare-flip _ _ (compare_int (seg_value y) (pos 0)) (compare_segments b [])
      (compare_int-flip (pos 0) (seg_value y)) (compare_segments-flip [] b)
compare_segments-flip (x ∷ a) (y ∷ b) =
    then_compare-flip _ _ (compare_int (seg_value y) (seg_value x)) (compare_segments b a)
      (compare_int-flip (seg_value x) (seg_value y)) (compare_segments-flip a b)

Chains-equal_left : (t : Sign) → Chains equal t t
Chains-equal_left t = ground arith

Chains-equal_right : (t : Sign) → Chains t equal t
Chains-equal_right t = ground arith

compare_segments-Chains :
    (a b c : List (List ℕ))
    → Chains (compare_segments a b) (compare_segments b c) (compare_segments a c)
unfolding compare_segments compare_int
compare_segments-Chains [] [] c = Chains-equal_left (compare_segments [] c)
compare_segments-Chains a [] [] = Chains-equal_right (compare_segments a [])
compare_segments-Chains [] (y ∷ b) [] =
    then_compare-Chains _ _ equal _ _ equal (compare_int-Chains (pos 0) (seg_value y) (pos 0))
      (compare_segments-Chains [] b [])
compare_segments-Chains [] (y ∷ b) (z ∷ c) =
    then_compare-Chains _ _ _ _ _ _ (compare_int-Chains (pos 0) (seg_value y) (seg_value z))
      (compare_segments-Chains [] b c)
compare_segments-Chains (x ∷ a) [] (z ∷ c) =
    then_compare-Chains _ _ _ _ _ _ (compare_int-Chains (seg_value x) (pos 0) (seg_value z))
      (compare_segments-Chains a [] c)
compare_segments-Chains (x ∷ a) (y ∷ b) [] =
    then_compare-Chains _ _ _ _ _ _ (compare_int-Chains (seg_value x) (seg_value y) (pos 0))
      (compare_segments-Chains a b [])
compare_segments-Chains (x ∷ a) (y ∷ b) (z ∷ c) =
    then_compare-Chains _ _ _ _ _ _ (compare_int-Chains (seg_value x) (seg_value y) (seg_value z))
      (compare_segments-Chains a b c)

compare_parts-flip : (a b : List (List ℕ) × List ℕ) → compare_parts a b ≡ flip (compare_parts b a)
unfolding compare_parts
compare_parts-flip (s, p) (t, q) =
    then_compare-flip _ _ (compare_segments t s) (compare_prerelease q p)
      (compare_segments-flip s t) (compare_prerelease-flip p q)

compare_parts-Chains :
    (a b c : List (List ℕ) × List ℕ)
    → Chains (compare_parts a b) (compare_parts b c) (compare_parts a c)
unfolding compare_parts
compare_parts-Chains (s, p) (t, q) (u, r) =
    then_compare-Chains _ _ _ _ _ _ (compare_segments-Chains s t u)
      (compare_prerelease-Chains p q r)

-- Comparing two versions the other way round gives the opposite answer.
pub compare_versions-flip : (a b : String) → compare_versions a b ≡ flip (compare_versions b a)
unfolding compare_versions
compare_versions-flip a b = compare_parts-flip (parts a) (parts b)

AtMost-Chains : (r s t : Sign) → Chains r s t → AtMost r → AtMost s → AtMost t
AtMost-Chains r s t h p q = ground arith

-- The order of versions is transitive: what is not above a version that is not above a third is
-- not above the third, also with prereleases, missing segments and segments that do not parse.
pub compare_versions_trans :
    (a b c : String)
    → AtMost (compare_versions a b)
    → AtMost (compare_versions b c)
    → AtMost (compare_versions a c)
unfolding compare_versions
compare_versions_trans a b c =
    AtMost-Chains _ _ _ (compare_parts-Chains (parts a) (parts b) (parts c))
