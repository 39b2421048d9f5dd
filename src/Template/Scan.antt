-- ===== src/Template/Scan.antt =====
-- What the pattern finds in a template that is written out of characters and references.
use Prim.Native.Char.{Char, code}
use Prim.Native.String
use text.Mathlib.TextLemmas.{nil-append, cons-append, length-cons}
use chiral.Prelude.{
  zero, ◌-◌, ◌≡◌, refl, ◌∙◌, ap, true, false, String, List, [], ◌∷◌, none, some, arith, ◌==◌, All,
  map,
}
use chiral.Template.{is_blank, spelled, match_ref, Piece, lit, ref, pieces, is_valid_name}
use chiral.Template.Match.{
  every, match_ref-other, spelled-cons, tail_of, tail_of-append, match_ref-inside,
}

pieces-append : (m rest : String) → pieces (String.count m) (String.◌++◌ m rest) ≡ pieces zero rest
unfolding pieces
pieces-append String.[] rest = rw (nil-append rest) refl
pieces-append (String.◌∷◌ c m) rest =
    rw (cons-append c m rest, length-cons c m) (pieces-append m rest)

pieces_found :
    (c : Char) (s name m : String)
    → match_ref (String.◌∷◌ c s) ≡ some (name, m)
    → pieces zero (String.◌∷◌ c s) ≡ ref name m ∷ pieces (String.count m - 1) s
unfolding pieces
pieces_found c s name m e =
    ap
      (λ o. elim o [
        | none ↦ lit c ∷ pieces zero s
        | some found ↦ ref found.0 found.1 ∷ pieces (String.count found.1 - 1) s
      ])
      e

pieces_lit :
    (c : Char) (s : String)
    → match_ref (String.◌∷◌ c s) ≡ none
    → pieces zero (String.◌∷◌ c s) ≡ lit c ∷ pieces zero s
unfolding pieces
pieces_lit c s e =
    ap
      (λ o. elim o [
        | none ↦ lit c ∷ pieces zero s
        | some found ↦ ref found.0 found.1 ∷ pieces (String.count found.1 - 1) s
      ])
      e

pieces-spelled :
    (before name after rest : String)
    → every is_blank before ≡ true
    → is_valid_name name ≡ true
    → every is_blank after ≡ true
    → pieces zero (String.◌++◌ (spelled before name after) rest)
      ≡ ref name (spelled before name after) ∷ pieces zero rest
pieces-spelled before name after rest hb hn ha =
    let t = tail_of before name after in
    let m = spelled before name after in
    let cut : String.count m - 1 ≡ String.count t =
      ap (λ x. String.count x - 1) (spelled-cons before name after)
      ∙ rw (length-cons "{" t) (omega arith) in
    let start : String.◌++◌ m rest ≡ String.◌∷◌ "{" (String.◌++◌ t rest) =
      ap (λ x. String.◌++◌ x rest) (spelled-cons before name after) ∙ cons-append "{" t rest in
    let found : match_ref (String.◌∷◌ "{" (String.◌++◌ t rest)) ≡ some (name, m) =
      ap (λ x. match_ref (String.◌∷◌ "{" x)) (tail_of-append before name after rest)
      ∙ match_ref-inside before name after rest hb hn ha in
    ap (pieces zero) start
    ∙ pieces_found "{" (String.◌++◌ t rest) name m found
    ∙ ap (λ k. ref name m ∷ pieces k (String.◌++◌ t rest)) cut
    ∙ ap (λ l. ref name m ∷ l) (pieces-append t rest)

-- A template as it is meant: characters, and references with blanks around the name.
pub data Part : Type 0 where
  char : Char → Part
  reference : String → String → String → Part

abbrev pub print : List Part → String
print [] = ""
print (char c ∷ ps) = String.◌∷◌ c (print ps)
print (reference before name after ∷ ps) = String.◌++◌ (spelled before name after) (print ps)

-- No brace is left open outside a reference, and a reference has a name that the panel accepts.
abbrev pub IsPart : Part → Type 0
IsPart (char c) = (code c == b'{') ≡ false
IsPart (reference before name after) =
    (every is_blank before ≡ true) × (is_valid_name name ≡ true) × (every is_blank after ≡ true)

abbrev pub found : Part → Piece
found (char c) = lit c
found (reference before name after) = ref name (spelled before name after)

-- Scanning a template gives back what it was written out of, where an opening brace stands in
-- references only: a reference to any name that the panel accepts is found, blanks inside its braces
-- or not, and nothing outside a reference is taken for one.
pub pieces-print : (ps : List Part) → All IsPart ps → pieces 0 (print ps) ≡ map found ps
pieces-print [] h = unfold pieces in refl
pieces-print (char c ∷ ps) (hc, h) =
    pieces_lit c (print ps) (match_ref-other c (print ps) hc)
    ∙ ap (λ l. lit c ∷ l) (pieces-print ps h)
pieces-print (reference before name after ∷ ps) ((hb, hn, ha), h) =
    pieces-spelled before name after (print ps) hb hn ha
    ∙ ap (λ l. ref name (spelled before name after) ∷ l) (pieces-print ps h)
