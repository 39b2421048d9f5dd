-- ===== src/Ruleset/Urls.antt =====
-- `ListURLs` of core/internal/ruleset/ini.go.
use chiral.Prelude.{
  ◌≡◌, refl, true, false, not, ◌&&◌, ◌||◌, String, List, [], ◌∷◌, arith, any, contains, str_eq,
  eq_iff, Bool-cases, inl, inr, subst,
}
use chiral.Ruleset.{Rule, Config, fresh_urls, list_urls}

contains-fresh_urls :
    (u : String) (seen : List String) (rules : List Rule)
    → contains (fresh_urls seen rules) u
      ≡ (any (λ r. str_eq r.url u) rules && not (str_eq u "") && not (contains seen u))
contains-fresh_urls u seen [] = refl
contains-fresh_urls u seen (r ∷ rules) =
    let old = contains-fresh_urls u seen rules in
    let new = contains-fresh_urls u (r.url ∷ seen) rules in
    elim (Bool-cases (str_eq r.url u)) [
      | inr e ↦ elim (Bool-cases (str_eq r.url "" || contains seen r.url)) [
        | inl f ↦ rw (f, fresh_urls) (ground (arith, e, old))
        | inr f ↦ rw (f, fresh_urls) (ground (arith, e, new))
      ]
      | inl e ↦ elim (Bool-cases (str_eq r.url "" || contains seen r.url)) [
        | inl f ↦
            let g = subst (λ x. (str_eq x "" || contains seen x) ≡ true) ((eq_iff r.url u).0 e) f in
            rw (f, fresh_urls) (ground (arith, e, old, g))
        | inr f ↦
            let g =
              subst (λ x. (str_eq x "" || contains seen x) ≡ false) ((eq_iff r.url u).0 e) f in
            rw (f, fresh_urls) (ground (arith, e, new, g))
      ]
    ]

-- An address is fetched exactly if a rule names it and it is not empty.
pub contains-list_urls :
    (c : Config) (u : String)
    → contains (list_urls c) u ≡ (any (λ r. str_eq r.url u) c.rules && not (str_eq u ""))
unfolding list_urls
contains-list_urls c u = ground (arith, contains-fresh_urls u [] c.rules)
