-- ===== src/Template/Errors.antt =====
-- `Render` against `Validate`.
use Prim.Native.Char.{Char}
use Prim.Native.String
use mathlib.Core.Bool.{false≢true}
use chiral.Prelude.{
  ◌≡◌, refl, sym, ◌∙◌, ap, true, false, String, List, [], ◌∷◌, Option, none, some, arith, inl, inr,
  Bool-cases, Option-cases, contains, eq_iff,
}
use chiral.Template.{
  Piece, lit, ref, pieces, Context, Problem, problem, Output, replace, render_pieces, render,
  Render, rendered, refused, finish_render, refs_from, refs, add_problem, problems, validate,
}

abbrev pub head? {ℓ} : {A : Type ℓ} → List A → Option A
head? [] = none
head? (x ∷ _) = some x

-- What a render was refused for.
abbrev pub refusal : Render → Option Problem
refusal (rendered _) = none
refusal (refused p) = some p

-- The first reference of the pieces that has a problem.
abbrev or_else : Option Problem → Option Problem → Option Problem
or_else none q = q
or_else (some p) q = some p

abbrev first_problem : Context → List Piece → Option Problem
first_problem c [] = none
first_problem c (lit _ ∷ ps) = first_problem c ps
first_problem c (ref name _ ∷ ps) = or_else (problem c name) (first_problem c ps)

or_else-replace :
    (c : Context) (name m : String) (p q : Option Problem) (o : Output)
    → or_else (replace c name m p o).first_err q ≡ or_else o.first_err (or_else p q)
unfolding replace
or_else-replace c name m p q o = ground arith

first_err-render_pieces :
    (c : Context) (ps : List Piece) (o : Output)
    → (render_pieces c ps o).first_err ≡ or_else o.first_err (first_problem c ps)
unfolding render_pieces
first_err-render_pieces c [] o = ground arith
first_err-render_pieces c (lit ch ∷ ps) o =
    first_err-render_pieces c ps (record o { out = String.◌++◌ o.out (String.◌∷◌ ch String.[]) })
first_err-render_pieces c (ref name m ∷ ps) o =
    first_err-render_pieces c ps (replace c name m (problem c name) o)
    ∙ or_else-replace c name m (problem c name) (first_problem c ps) o

refusal-finish_render : (o : Output) → refusal (finish_render o o.first_err) ≡ o.first_err
refusal-finish_render o = ground arith

refs_from-lit :
    (seen : List String) (ch : Char) (ps : List Piece)
    → refs_from seen (lit ch ∷ ps) ≡ refs_from seen ps
unfolding refs_from
refs_from-lit seen ch ps = refl

refs_from_old :
    (seen : List String) (name m : String) (ps : List Piece)
    → contains seen name ≡ true
    → refs_from seen (ref name m ∷ ps) ≡ refs_from seen ps
unfolding refs_from
refs_from_old seen name m ps e =
    ap (λ b. elim b [ true ↦ refs_from seen ps | false ↦ name ∷ refs_from (name ∷ seen) ps ]) e

refs_from_new :
    (seen : List String) (name m : String) (ps : List Piece)
    → contains seen name ≡ false
    → refs_from seen (ref name m ∷ ps) ≡ name ∷ refs_from (name ∷ seen) ps
unfolding refs_from
refs_from_new seen name m ps e =
    ap (λ b. elim b [ true ↦ refs_from seen ps | false ↦ name ∷ refs_from (name ∷ seen) ps ]) e

problems-cons :
    (c : Context) (name : String) (names : List String)
    → problems c (name ∷ names) ≡ add_problem (problem c name) (problems c names)
unfolding problems
problems-cons c name names = refl

head?-problems :
    (c : Context) (seen : List String) (ps : List Piece)
    → ((n : String) → contains seen n ≡ true → problem c n ≡ none)
    → head? (problems c (refs_from seen ps)) ≡ first_problem c ps
head?-problems c seen [] h = unfold problems refs_from in refl
head?-problems c seen (lit ch ∷ ps) h = rw (refs_from-lit seen ch ps) (head?-problems c seen ps h)
head?-problems c seen (ref name m ∷ ps) h = elim (Bool-cases (contains seen name)) [
  | inl e ↦ rw (refs_from_old seen name m ps e) (rw (h name e) (head?-problems c seen ps h))
  | inr e ↦
      let names = refs_from (name ∷ seen) ps in
      rw (refs_from_new seen name m ps e) (
        rw (problems-cons c name names) (elim (Option-cases (problem c name)) [
          | inl f ↦
              let ih =
                head?-problems c (name ∷ seen) ps
                  (λ n g. ground (arith, h n, eq_iff name n, f, g)) in
              rw f ih
          | inr f ↦ rw (f.1) refl
        ]))
]

-- A render is refused for the first of the problems that `Validate` reports about the template, and
-- succeeds when `Validate` reports none.
pub refusal-render :
    (c : Context) (tmpl : String) → refusal (render c tmpl) ≡ head? (validate c tmpl)
unfolding render validate refs
refusal-render c tmpl =
    let ps = pieces 0 tmpl in
    let o : Output = record { out = ""; first_err = none } in
    refusal-finish_render (render_pieces c ps o)
    ∙ (first_err-render_pieces c ps o ∙ sym (head?-problems c [] ps (λ n g. absurd (false≢true g))))
