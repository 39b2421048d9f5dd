-- ===== src/Version.antt =====
-- The order of Xray versions: core/internal/template/version.go, and `pickLatest` of
-- core/internal/release/release.go, which chooses by it.
pub mod Order
mod Examples
use mathlib.Core.Path.{◌≡◌}
use chiral.Prelude.{
  ℕ, ◌+◌, ◌*◌, ◌-◌, ◌<◌, Bool, true, false, not, ◌&&◌, ◌||◌, String, List, [], ◌∷◌, Option, none,
  some, ltb, leb, ◌==◌, if◌then◌else◌, str_eq,
}
use chiral.Prelude.Int.{ℤ, pos, negsuc}
use chiral.Prelude.Text.{codes, trim_space, trim_prefix, trim_space_codes, split}

unfoldable pub normalize_version : String → String
unfolding trim_space trim_prefix
normalize_version v = trim_prefix b'v' (trim_space v)

-- The results -1, 0 and 1 of a three-way comparison.
pub data Sign : Type 0 where
  less equal greater : Sign

-- `strings.Compare`
pub compare_text : List ℕ → List ℕ → Sign
compare_text [] [] = equal
compare_text [] (y ∷ b) = less
compare_text (x ∷ a) [] = greater
compare_text (x ∷ a) (y ∷ b) =
    if ltb x y then less else if ltb y x then greater else compare_text a b

abbrev is_digit : ℕ → Bool
is_digit c = leb b'0' c && leb c b'9'

-- The value of a run of digits read onto what stands before it.
digits_onto : ℕ → List ℕ → Option ℕ
digits_onto n [] = some n
digits_onto n (c ∷ s) =
    let rest = digits_onto (n * 10 + (c - b'0')) s in if is_digit c then rest else none

-- `strconv.Atoi` of a text with no sign in it; a number over 63 bits is an error.
abbrev max_int : ℕ
max_int = 9_223_372_036_854_775_807

in_range : Option ℕ → Option ℕ
in_range none = none
in_range (some n) = if leb n max_int then some n else none

atoi : List ℕ → Option ℕ
unfolding digits_onto in_range
atoi [] = none
atoi (c ∷ s) = in_range (digits_onto 0 (c ∷ s))

-- What `segAt` makes of `Atoi`'s answer.
abbrev or_below : Option ℕ → ℤ
or_below none = negsuc 0
or_below (some n) = pos n

pub seg_value : List ℕ → ℤ
unfolding atoi trim_space_codes
seg_value s = or_below (atoi (trim_space_codes s))

pub compare_int : ℤ → ℤ → Sign
compare_int (pos a) (pos b) = if ltb a b then less else if ltb b a then greater else equal
compare_int (pos a) (negsuc b) = greater
compare_int (negsuc a) (pos b) = less
compare_int (negsuc a) (negsuc b) = if ltb b a then less else if ltb a b then greater else equal

-- A comparison that is settled by its first part, if that is not 0.
abbrev pub then_compare : Sign → Sign → Sign
then_compare less rest = less
then_compare equal rest = rest
then_compare greater rest = greater

-- The loop over the segments: where one version has no more of them, `segAt` answers 0.
pub compare_segments : List (List ℕ) → List (List ℕ) → Sign
unfolding compare_int seg_value
compare_segments [] [] = equal
compare_segments (x ∷ a) [] =
    then_compare (compare_int (seg_value x) (pos 0)) (compare_segments a [])
compare_segments [] (y ∷ b) =
    then_compare (compare_int (pos 0) (seg_value y)) (compare_segments [] b)
compare_segments (x ∷ a) (y ∷ b) =
    then_compare (compare_int (seg_value x) (seg_value y)) (compare_segments a b)

-- What stands before the first `-` or `+`, and what stands behind it.
abbrev pub before_mark : List ℕ → List ℕ
before_mark [] = []
before_mark (c ∷ s) = if c == b'-' || c == b'+' then [] else c ∷ before_mark s

abbrev pub after_mark : List ℕ → List ℕ
after_mark [] = []
after_mark (c ∷ s) = if c == b'-' || c == b'+' then s else after_mark s

-- `splitPrerelease`
pub split_prerelease : List ℕ → List ℕ × List ℕ
split_prerelease v = (before_mark v, after_mark v)

-- The `switch` on the suffixes: a final release is above its prereleases.
pub compare_prerelease : List ℕ → List ℕ → Sign
unfolding compare_text
compare_prerelease [] [] = equal
compare_prerelease [] (y ∷ b) = greater
compare_prerelease (x ∷ a) [] = less
compare_prerelease (x ∷ a) (y ∷ b) = compare_text (x ∷ a) (y ∷ b)

-- A version as the comparison reads it: its segments and its suffix.
pub parts : String → List (List ℕ) × List ℕ
unfolding split_prerelease split normalize_version
parts v = let (base, pre) = split_prerelease (codes (normalize_version v)) in (split b'.' base, pre)

compare_parts : List (List ℕ) × List ℕ → List (List ℕ) × List ℕ → Sign
unfolding compare_segments compare_prerelease
compare_parts (a_seg, a_pre) (b_seg, b_pre) =
    then_compare (compare_segments a_seg b_seg) (compare_prerelease a_pre b_pre)

unfoldable pub compare_versions : String → String → Sign
unfolding compare_parts parts
compare_versions a b = compare_parts (parts a) (parts b)
