-- ===== src/Template/Match.antt =====
-- `ref` at the front of a text: core/internal/template/engine.go.
use Prim.Native.Char.{Char, code}
use Prim.Native.String
use text.Mathlib.TextLemmas.{nil-append, cons-append, append_assoc}
use chiral.Prelude.{
  ℕ, ◌≡◌, refl, ◌∙◌, ap, Bool, true, false, not, ◌&&◌, String, none, some, arith, ◌==◌,
}
use chiral.Template.{
  is_blank, is_name_char, span, after_two, is_empty, spelled, opened, match_ref, is_valid_name,
  all_name,
}

abbrev pub every : (ℕ → Bool) → String → Bool
every test String.[] = true
every test (String.◌∷◌ c s) = test (code c) && every test s

abbrev pub stops : (ℕ → Bool) → String → Bool
stops test String.[] = true
stops test (String.◌∷◌ c s) = not (test (code c))

pub two-append :
    (c : Char) (t : String)
    → String.◌++◌ (String.◌∷◌ c (String.◌∷◌ c String.[])) t ≡ String.◌∷◌ c (String.◌∷◌ c t)
two-append c t =
    cons-append c (String.◌∷◌ c String.[]) t
    ∙ ap (String.◌∷◌ c) (cons-append c String.[] t ∙ ap (String.◌∷◌ c) (nil-append t))

span-append :
    (test : ℕ → Bool) (front rest : String)
    → every test front ≡ true
    → stops test rest ≡ true
    → span test (String.◌++◌ front rest) ≡ (front, rest)
unfolding span
span-append test String.[] String.[] h k = rw (nil-append String.[]) refl
span-append test String.[] (String.◌∷◌ c s) h k = rw (nil-append (String.◌∷◌ c s)) (ground arith)
span-append test (String.◌∷◌ c s) rest h k =
    rw (cons-append c s rest) (ground (arith, span-append test s rest))

pub match_ref-other :
    (c : Char) (s : String) → (code c == b'{') ≡ false → match_ref (String.◌∷◌ c s) ≡ none
unfolding match_ref after_two
match_ref-other c String.[] h = ground arith
match_ref-other c (String.◌∷◌ d s) h = ground arith

-- A name of the class is not empty, and neither a blank nor a brace is in the class.
all_name-every : (s : String) → all_name s ≡ every is_name_char s
all_name-every String.[] = refl
all_name-every (String.◌∷◌ c s) = ground (arith, all_name-every s)

stops_blank_at_name :
    (s t : String) → is_valid_name s ≡ true → stops is_blank (String.◌++◌ s t) ≡ true
unfolding is_valid_name is_name_char is_blank
stops_blank_at_name String.[] t h = ground arith
stops_blank_at_name (String.◌∷◌ c s) t h = rw (cons-append c s t) (ground arith)

stops_name_at_blank :
    (s t : String)
    → every is_blank s ≡ true
    → stops is_name_char (String.◌++◌ s (String.◌++◌ "}}" t)) ≡ true
unfolding is_name_char is_blank
stops_name_at_blank String.[] t h = rw (nil-append (String.◌++◌ "}}" t), two-append "}" t) refl
stops_name_at_blank (String.◌∷◌ c s) t h = rw (cons-append c s (String.◌++◌ "}}" t)) (ground arith)

stops_blank_at_brace : (t : String) → stops is_blank (String.◌++◌ "}}" t) ≡ true
unfolding is_blank
stops_blank_at_brace t = rw (two-append "}" t) refl

after_two_self :
    (c : Char) (t : String) → after_two (code c) (String.◌∷◌ c (String.◌∷◌ c t)) ≡ some t
unfolding after_two
after_two_self c t = ground arith

is_valid_name-nonempty : (s : String) → is_valid_name s ≡ true → is_empty s ≡ false
unfolding is_valid_name
is_valid_name-nonempty String.[] h = ground arith
is_valid_name-nonempty (String.◌∷◌ c s) h = refl

is_valid_name-every : (s : String) → is_valid_name s ≡ true → every is_name_char s ≡ true
unfolding is_valid_name
is_valid_name-every s h = ground (arith, all_name-every s)

abbrev pub inside : String → String → String → String → String
inside before name after rest =
    String.◌++◌ before (String.◌++◌ name (String.◌++◌ after (String.◌++◌ "}}" rest)))

opened-inside :
    (before name after rest : String)
    → every is_blank before ≡ true
    → is_valid_name name ≡ true
    → every is_blank after ≡ true
    → opened (some (inside before name after rest)) ≡ some (name, spelled before name after)
opened-inside before name after rest hb hn ha =
    let end = String.◌++◌ "}}" rest in
    let b =
      span-append is_blank before (String.◌++◌ name (String.◌++◌ after end)) hb
        (stops_blank_at_name name (String.◌++◌ after end) hn) in
    let n =
      span-append is_name_char name (String.◌++◌ after end) (is_valid_name-every name hn)
        (stops_name_at_blank after rest ha) in
    let a = span-append is_blank after end ha (stops_blank_at_brace rest) in
    rw b (
      rw n (
        rw a
          (rw (two-append "}" rest, after_two_self "}" rest, is_valid_name-nonempty name hn) refl)))

pub tail_of : String → String → String → String
tail_of before name after =
    String.◌∷◌ "{" (String.◌++◌ before (String.◌++◌ name (String.◌++◌ after "}}")))

pub spelled-cons :
    (before name after : String)
    → spelled before name after ≡ String.◌∷◌ "{" (tail_of before name after)
unfolding tail_of
spelled-cons before name after =
    two-append "{" (String.◌++◌ before (String.◌++◌ name (String.◌++◌ after "}}")))

pub tail_of-append :
    (before name after rest : String)
    → String.◌++◌ (tail_of before name after) rest ≡ String.◌∷◌ "{" (inside before name after rest)
unfolding tail_of
tail_of-append before name after rest =
    cons-append "{" (String.◌++◌ before (String.◌++◌ name (String.◌++◌ after "}}"))) rest
    ∙ ap (String.◌∷◌ "{") (
        append_assoc before (String.◌++◌ name (String.◌++◌ after "}}")) rest
        ∙ ap (String.◌++◌ before) (
            append_assoc name (String.◌++◌ after "}}") rest
            ∙ ap (String.◌++◌ name) (append_assoc after "}}" rest)))

pub match_ref-inside :
    (before name after rest : String)
    → every is_blank before ≡ true
    → is_valid_name name ≡ true
    → every is_blank after ≡ true
    → match_ref (String.◌∷◌ "{" (String.◌∷◌ "{" (inside before name after rest)))
      ≡ some (name, spelled before name after)
unfolding match_ref
match_ref-inside before name after rest hb hn ha =
    ap opened (after_two_self "{" (inside before name after rest))
    ∙ opened-inside before name after rest hb hn ha
