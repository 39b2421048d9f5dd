-- ===== src/Template.antt =====
-- The template engine, core/internal/template/engine.go: the text is cut into pieces as the pattern
-- `ref` finds them, and each reference is replaced by the value of its variable.
pub mod Match
pub mod Scan
pub mod Errors
pub mod Secrets
pub mod Layers
mod Examples
use Prim.Native.Char.{Char, code}
use Prim.Native.String
use chiral.Prelude.{
  ℕ, zero, suc, ◌-◌, Bool, true, false, not, ◌&&◌, ◌||◌, String, List, [], ◌∷◌, ◌++◌, Option, none,
  some, leb, ◌==◌, str_eq, if◌then◌else◌, contains,
}
use chiral.Prelude.Maps.{Map, lookup, insert, retain}

-- `\s` of package regexp.
unfoldable pub is_blank : ℕ → Bool
is_blank c = c == 9 || c == 10 || c == 12 || c == 13 || c == 32

-- `[a-zA-Z0-9_.]`
unfoldable pub is_name_char : ℕ → Bool
is_name_char c =
    (leb b'a' c && leb c b'z')
    || (leb b'A' c && leb c b'Z')
    || (leb b'0' c && leb c b'9')
    || c == b'_'
    || c == b'.'

-- A text as far as the test holds, and the rest.
unfoldable pub span : (ℕ → Bool) → String → String × String
span test String.[] = (String.[], String.[])
span test (String.◌∷◌ c s) =
    let (front, rest) = span test s in
    if test (code c) then (String.◌∷◌ c front, rest) else (String.[], String.◌∷◌ c s)

-- Whether the text begins with the character twice, and what follows.
unfoldable pub after_two : ℕ → String → Option String
after_two b String.[] = none
after_two b (String.◌∷◌ c String.[]) = none
after_two b (String.◌∷◌ c (String.◌∷◌ d s)) = if code c == b && code d == b then some s else none

abbrev pub is_empty : String → Bool
is_empty String.[] = true
is_empty (String.◌∷◌ c s) = false

abbrev pub spelled : String → String → String → String
spelled before name after =
    String.◌++◌ "{{" (String.◌++◌ before (String.◌++◌ name (String.◌++◌ after "}}")))

-- The closing braces: the name and the whole match, if they are there.
abbrev pub closed : String → String → String → Option String → Option (String × String)
closed before name after none = none
closed before name after (some rest) =
    if is_empty name then none else some (name, spelled before name after)

abbrev pub opened : Option String → Option (String × String)
opened none = none
opened (some s) =
    let (before, t) = span is_blank s in
    let (name, u) = span is_name_char t in
    let (after, v) = span is_blank u in closed before name after (after_two b'}' v)

-- `ref` at the front of a text: the name in it and the text that it matches.
unfoldable pub match_ref : String → Option (String × String)
unfolding after_two span
match_ref s = opened (after_two b'{' s)

-- What the pattern cuts a template into.
pub data Piece : Type 0 where
  lit : Char → Piece
  ref : String → String → Piece

-- The matches from left to right, and the characters between them. The number counts the characters
-- that belong to the last match.
unfoldable pub pieces : ℕ → String → List Piece
unfolding match_ref
pieces skip String.[] = []
pieces (suc skip) (String.◌∷◌ c s) = pieces skip s
pieces zero (String.◌∷◌ c s) = elim (match_ref (String.◌∷◌ c s)) [
  | none ↦ lit c ∷ pieces zero s
  | some found ↦ ref found.0 found.1 ∷ pieces (String.count found.1 - 1) s
]

-- `Context`
pub record Context : Type 0 where
  pub vars : Map String
  pub secret : List String
  pub client : Bool

-- `NewContext`
unfoldable pub new_context : Map String → List String → Context
new_context vars secret = record { vars = vars; secret = secret; client = false }

-- `ForClient`
unfoldable pub for_client : Context → Context
for_client c = record c { vars = retain (λ k _. not (contains c.secret k)) c.vars; client = true }

-- `for k, v := range vars { out[k] = v }`
unfoldable pub insert_all : Map String → Map String → Map String
insert_all out [] = out
insert_all out ((k, v) ∷ vars) = insert_all (insert k v out) vars

-- `With`
unfoldable pub with_vars : Context → Map String → Context
unfolding insert_all
with_vars c vars = record c { vars = insert_all c.vars vars }

-- What is wrong with a reference.
pub data Problem : Type 0 where
  secret_variable undefined_variable : String → Problem

abbrev pub undefined_if : String → Option String → Option Problem
undefined_if name none = some (undefined_variable name)
undefined_if name (some v) = none

-- The two tests of a reference, which `Render` and `Validate` both make.
unfoldable pub problem : Context → String → Option Problem
problem c name =
    if contains c.secret name && c.client
    then some (secret_variable name)
    else undefined_if name (lookup name c.vars)

-- `out` and `firstErr`.
pub record Output : Type 0 where
  pub out : String
  pub first_err : Option Problem

abbrev pub or_first : Option Problem → Problem → Option Problem
or_first none p = some p
or_first (some q) p = some q

abbrev pub value_or : String → Option String → String
value_or match_text none = match_text
value_or match_text (some v) = v

-- The replacement of a match.
unfoldable pub replace : Context → String → String → Option Problem → Output → Output
replace c name match_text (some p) o = record {
  out = String.◌++◌ o.out match_text;
  first_err = or_first o.first_err p;
}
replace c name match_text none o = record o {
  out = String.◌++◌ o.out (value_or match_text (lookup name c.vars));
}

unfoldable pub render_pieces : Context → List Piece → Output → Output
unfolding replace problem
render_pieces c [] o = o
render_pieces c (lit ch ∷ ps) o =
    render_pieces c ps (record o { out = String.◌++◌ o.out (String.◌∷◌ ch String.[]) })
render_pieces c (ref name match_text ∷ ps) o =
    render_pieces c ps (replace c name match_text (problem c name) o)

pub data Render : Type 0 where
  rendered : String → Render
  refused : Problem → Render

abbrev pub finish_render : Output → Option Problem → Render
finish_render o none = rendered o.out
finish_render o (some p) = refused p

-- `Render`
unfoldable pub render : Context → String → Render
unfolding pieces render_pieces
render c tmpl =
    let o = render_pieces c (pieces zero tmpl) (record { out = ""; first_err = none }) in
    finish_render o o.first_err

-- The loop of `Refs`.
unfoldable pub refs_from : List String → List Piece → List String
refs_from seen [] = []
refs_from seen (lit ch ∷ ps) = refs_from seen ps
refs_from seen (ref name match_text ∷ ps) = elim (contains seen name) [
  | true ↦ refs_from seen ps
  | false ↦ name ∷ refs_from (name ∷ seen) ps
]

-- `Refs`
unfoldable pub refs : String → List String
unfolding pieces refs_from
refs tmpl = refs_from [] (pieces zero tmpl)

abbrev pub add_problem : Option Problem → List Problem → List Problem
add_problem none errs = errs
add_problem (some p) errs = p ∷ errs

unfoldable pub problems : Context → List String → List Problem
unfolding problem
problems c [] = []
problems c (name ∷ names) = add_problem (problem c name) (problems c names)

-- `Validate`
unfoldable pub validate : Context → String → List Problem
unfolding refs problems
validate c tmpl = problems c (refs tmpl)

-- `Merge`
unfoldable pub merge : Map String → Map String → Map String → Map String → Map String
unfolding insert_all
merge globals profile node user =
    insert_all (insert_all (insert_all (insert_all [] globals) profile) node) user

-- `QualifyKeys`
unfoldable pub qualify_keys : String → Map String → Map String
qualify_keys prefix [] = []
qualify_keys prefix ((k, v) ∷ m) =
    insert (String.◌++◌ prefix (String.◌++◌ "." k)) v (qualify_keys prefix m)

-- The ends of a name: neither is a dot.
abbrev pub ends_ok : String → Bool
ends_ok String.[] = false
ends_ok (String.◌∷◌ c String.[]) = not (code c == b'.')
ends_ok (String.◌∷◌ c (String.◌∷◌ d s)) = ends_ok (String.◌∷◌ d s)

abbrev pub all_name : String → Bool
all_name String.[] = true
all_name (String.◌∷◌ c s) = is_name_char (code c) && all_name s

abbrev pub starts_ok : String → Bool
starts_ok String.[] = false
starts_ok (String.◌∷◌ c s) = not (code c == b'.')

-- `IsValidName`
unfoldable pub is_valid_name : String → Bool
unfolding is_name_char
is_valid_name s = starts_ok s && ends_ok s && all_name s
