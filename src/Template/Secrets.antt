-- ===== src/Template/Secrets.antt =====
-- `ForClient`: what a client's text can depend on.
use Prim.Native.String
use chiral.Prelude.{
  ◌≡◌, refl, ◌∙◌, ap, true, false, not, String, List, [], ◌∷◌, none, arith, inl, inr, Bool-cases,
  contains, eq_iff, str_eq, if◌then◌else◌,
}
use chiral.Prelude.Maps.{Map, lookup, insert, retain, lookup-insert}
use chiral.Template.{
  Piece, lit, ref, pieces, Context, problem, Output, replace, render_pieces, render, finish_render,
  for_client, insert_all, with_vars,
}

-- Two contexts for a client with the same secrets, and the same values of all other variables.
pub record Agree (c d : Context) : Type 0 where
  pub secret : c.secret ≡ d.secret
  pub c_client : c.client ≡ true
  pub d_client : d.client ≡ true
  pub vars : (n : String) → contains c.secret n ≡ false → lookup n c.vars ≡ lookup n d.vars

lookup-retain_keys :
    (n : String) (names : List String) (m : Map String)
    → lookup n (retain (λ k _. not (contains names k)) m)
      ≡ (if contains names n then none else lookup n m)
lookup-retain_keys n names [] = ground arith
lookup-retain_keys n names ((j, v) ∷ m) = elim (Bool-cases (str_eq j n)) [
  | inl e ↦ let p = (eq_iff j n).0 e in ground (arith, p, lookup-retain_keys n names m)
  | inr e ↦ ground (arith, e, lookup-retain_keys n names m)
]

replace-Agree :
    (c d : Context) (name m : String) (o : Output)
    → Agree c d
    → replace c name m (problem c name) o ≡ replace d name m (problem d name) o
unfolding replace problem
replace-Agree c d name m o a = elim (Bool-cases (contains c.secret name)) [
  | inl e ↦ ground (arith, e, a.secret, a.c_client, a.d_client)
  | inr e ↦ ground (arith, e, a.secret, a.vars name e)
]

render_pieces-Agree :
    (c d : Context) (ps : List Piece) (o : Output)
    → Agree c d
    → render_pieces c ps o ≡ render_pieces d ps o
unfolding render_pieces
render_pieces-Agree c d [] o a = refl
render_pieces-Agree c d (lit ch ∷ ps) o a =
    render_pieces-Agree c d ps (record o { out = String.◌++◌ o.out (String.◌∷◌ ch String.[]) }) a
render_pieces-Agree c d (ref name m ∷ ps) o a =
    ap (render_pieces c ps) (replace-Agree c d name m o a)
    ∙ render_pieces-Agree c d ps (replace d name m (problem d name) o) a

pub render-Agree : (c d : Context) (tmpl : String) → Agree c d → render c tmpl ≡ render d tmpl
unfolding render
render-Agree c d tmpl a =
    ap (λ o. finish_render o o.first_err)
      (render_pieces-Agree c d (pieces 0 tmpl) (record { out = ""; first_err = none }) a)

lookup-insert_all-Agree :
    (n : String) (vars m m' : Map String)
    → lookup n m ≡ lookup n m'
    → lookup n (insert_all m vars) ≡ lookup n (insert_all m' vars)
unfolding insert_all
lookup-insert_all-Agree n [] m m' h = h
lookup-insert_all-Agree n ((k, v) ∷ vars) m m' h =
    lookup-insert_all-Agree n vars (insert k v m) (insert k v m')
      (ground (arith, h, lookup-insert n k v m, lookup-insert n k v m'))

-- The names of secrets are the same in two contexts, and every other variable.
pub record SameButSecrets (c d : Context) : Type 0 where
  pub secret : c.secret ≡ d.secret
  pub vars : (n : String) → contains c.secret n ≡ false → lookup n c.vars ≡ lookup n d.vars

-- What a client gets does not depend on the values of secrets, whatever the template: the copy of a
-- context for clients holds none, and with any further variables on top of it, a template renders to
-- the same text, or is refused for the same reason, as from a context with other secret values.
pub render-for_client :
    (c d : Context) (more : Map String) (tmpl : String)
    → SameButSecrets c d
    → ((n : String) → contains c.secret n ≡ true → lookup n (for_client c).vars ≡ none)
      × (render (with_vars (for_client c) more) tmpl ≡ render (with_vars (for_client d) more) tmpl)
render-for_client c d more tmpl a =
    let gone : (n : String) → contains c.secret n ≡ true → lookup n (for_client c).vars ≡ none =
      λ n h. unfold for_client in ground (arith, h, lookup-retain_keys n c.secret c.vars) in
    (
      gone,
      render-Agree (with_vars (for_client c) more) (with_vars (for_client d) more) tmpl (
          unfold for_client with_vars in
          record {
            secret = a.secret;
            c_client = refl;
            d_client = refl;
            vars = λ n h. lookup-insert_all-Agree n more (for_client c).vars (for_client d).vars (
                ground (
                  arith,
                  h,
                  a.secret,
                  a.vars n h,
                  lookup-retain_keys n c.secret c.vars,
                  lookup-retain_keys n d.secret d.vars,
                ));
          }),
    )
