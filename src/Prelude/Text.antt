-- ===== src/Prelude/Text.antt =====
-- The functions of Go's `strings` package that the modelled code calls, over the code points of a
-- text. A Go string that is valid UTF-8 is read as its characters.
use Prim.Native.Nat.{ℕ}
use Prim.Native.Char.{Char, code}
use Prim.Native.String.{String}
use mathlib.Core.Bool.{Bool, true, false, ◌&&◌, ◌||◌}
use mathlib.Core.List.{List, [], ◌∷◌}
use chiral.Prelude.Tests.{leb, ◌==◌, if◌then◌else◌}

-- The code points of a text. `String` has its own `[]` and `∷`.
abbrev pub codes : String → List ℕ
codes String.[] = []
codes (String.◌∷◌ c s) = code c ∷ codes s

-- `unicode.IsSpace`
unfoldable pub is_space : ℕ → Bool
is_space c =
    (leb 9 c && leb c 13)
    || c == 32
    || c == 0x85
    || c == 0xa0
    || c == 0x1680
    || (leb 0x2000 c && leb c 0x200a)
    || c == 0x2028
    || c == 0x2029
    || c == 0x202f
    || c == 0x205f
    || c == 0x3000

-- `strings.TrimLeftFunc(s, unicode.IsSpace)`
unfoldable pub trim_left : String → String
unfolding is_space
trim_left String.[] = String.[]
trim_left (String.◌∷◌ c s) = if is_space (code c) then trim_left s else String.◌∷◌ c s

-- One step of the trimming from the right: a space in front of nothing goes.
trim_onto : Char → String → String
unfolding is_space
trim_onto c String.[] = if is_space (code c) then String.[] else String.◌∷◌ c String.[]
trim_onto c (String.◌∷◌ d s) = String.◌∷◌ c (String.◌∷◌ d s)

unfoldable pub trim_right : String → String
unfolding trim_onto
trim_right String.[] = String.[]
trim_right (String.◌∷◌ c s) = trim_onto c (trim_right s)

-- `strings.TrimSpace`
unfoldable pub trim_space : String → String
unfolding trim_left trim_right
trim_space s = trim_right (trim_left s)

-- `strings.TrimPrefix(s, p)` for a prefix of one character.
unfoldable pub trim_prefix : ℕ → String → String
trim_prefix p String.[] = String.[]
trim_prefix p (String.◌∷◌ c s) = if code c == p then s else String.◌∷◌ c s

-- `TrimSpace` on code points.
unfoldable pub trim_left_codes : List ℕ → List ℕ
unfolding is_space
trim_left_codes [] = []
trim_left_codes (c ∷ s) = if is_space c then trim_left_codes s else c ∷ s

trim_codes_onto : ℕ → List ℕ → List ℕ
unfolding is_space
trim_codes_onto c [] = if is_space c then [] else c ∷ []
trim_codes_onto c (d ∷ s) = c ∷ d ∷ s

unfoldable pub trim_right_codes : List ℕ → List ℕ
unfolding trim_codes_onto
trim_right_codes [] = []
trim_right_codes (c ∷ s) = trim_codes_onto c (trim_right_codes s)

unfoldable pub trim_space_codes : List ℕ → List ℕ
unfolding trim_left_codes trim_right_codes
trim_space_codes s = trim_right_codes (trim_left_codes s)

-- Puts a code point in front of the first part.
abbrev cons_head : ℕ → List (List ℕ) → List (List ℕ)
cons_head c [] = (c ∷ []) ∷ []
cons_head c (p ∷ ps) = (c ∷ p) ∷ ps

-- `strings.Split(s, sep)` for a separator of one character.
unfoldable pub split : ℕ → List ℕ → List (List ℕ)
split sep [] = [] ∷ []
split sep (c ∷ s) = if c == sep then [] ∷ split sep s else cons_head c (split sep s)

-- `strings.HasPrefix(s, p)` and `strings.Contains(s, p)`.
unfoldable pub has_prefix : List ℕ → List ℕ → Bool
has_prefix s [] = true
has_prefix [] (p ∷ ps) = false
has_prefix (c ∷ s) (p ∷ ps) = c == p && has_prefix s ps

unfoldable pub contains_text : List ℕ → List ℕ → Bool
unfolding has_prefix
contains_text [] p = has_prefix [] p
contains_text (c ∷ s) p = has_prefix (c ∷ s) p || contains_text s p
