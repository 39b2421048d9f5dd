-- ===== src/Template/Examples.antt =====
-- The template engine on concrete inputs: a client's link that must not show the node's key.
use chiral.Prelude.{◌≡◌, refl, true, false, String, List, [], ◌∷◌, none, arith, map, contains}
use chiral.Prelude.Maps.{Map, lookup}
use chiral.Template.{
  is_blank, is_name_char, span, after_two, match_ref, pieces, Context, for_client, insert_all,
  with_vars, secret_variable, undefined_variable, problem, replace, render_pieces, rendered,
  refused, render, refs_from, refs, problems, validate, is_valid_name,
}
use chiral.Template.Scan.{Part, char, reference, print, found, pieces-print}
use chiral.Template.Secrets.{render-for_client}
use chiral.Template.Errors.{head?, refusal, refusal-render}

abbrev with_key : String → Context
with_key key = record {
  vars = ("host", "a.example") ∷ ("reality.private", key) ∷ [];
  secret = "reality.private" ∷ [];
  client = false;
}

abbrev link : String
link = "vless://{{ uuid }}@{{host}}"

abbrev alice : Map String
alice = ("uuid", "1234") ∷ []

shown :
    render (with_vars (for_client (with_key "k")) alice) link ≡ rendered "vless://1234@a.example"
unfolding render pieces match_ref span after_two is_blank is_name_char render_pieces problem replace
    with_vars for_client insert_all
shown = refl

no_such_variable :
    render (with_vars (for_client (with_key "k")) alice) "{{nobody}}{{reality.private}}"
    ≡ refused (undefined_variable "nobody")
unfolding render pieces match_ref span after_two is_blank is_name_char render_pieces problem replace
    with_vars for_client insert_all
no_such_variable = refl

all_problems :
    validate (for_client (with_key "k")) "{{nobody}}{{reality.private}}{{nobody}} {{host"
    ≡ undefined_variable "nobody" ∷ secret_variable "reality.private" ∷ []
unfolding validate refs refs_from problems problem pieces match_ref span after_two is_blank
    is_name_char for_client
all_problems = refl

abbrev written : List Part
written = char "a" ∷ reference " " "x.y" "" ∷ char "}" ∷ []

printed : print written ≡ "a{{ x.y}}}"
printed = refl

pieces-print_example : pieces 0 (print written) ≡ map found written
unfolding is_valid_name is_blank is_name_char
pieces-print_example = pieces-print written (refl, ((refl, refl, refl), (refl, tt)))

same_keys :
    (n : String)
    → contains ("reality.private" ∷ []) n ≡ false
    → lookup n (with_key "k").vars ≡ lookup n (with_key "other").vars
same_keys n h = ground (arith, h)

render-for_client_example :
    ((n : String)
      → contains ("reality.private" ∷ []) n ≡ true
      → lookup n (for_client (with_key "k")).vars ≡ none)
    × (render (with_vars (for_client (with_key "k")) alice) link
        ≡ render (with_vars (for_client (with_key "other")) alice) link)
render-for_client_example =
    render-for_client (with_key "k") (with_key "other") alice link
      (record { secret = refl; vars = same_keys })

refusal-render_example :
    refusal (render (for_client (with_key "k")) link)
    ≡ head? (validate (for_client (with_key "k")) link)
refusal-render_example = refusal-render (for_client (with_key "k")) link
