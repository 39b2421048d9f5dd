-- ===== src/Entitlement/Settled.antt =====
-- `EnforceQuotas` of core/internal/profile/enforce.go over users with nothing left to do.
use chiral.Prelude.{
  ℕ, ◌≡◌, refl, sym, ◌∙◌, ap, false, String, List, [], ◌∷◌, ◌++◌, some, arith, inl, inr, str_eq,
  eq_iff, str_eq_sym, All, subst, append-nil, Option-cases,
}
use chiral.Entitlement.{User, allowed}
use chiral.Entitlement.Enforce.{
  World, Panel, Synced, unchanged, pushed, not_found, get_user, update_user, sync_found, sync_user,
  Sweep, after_sync, renew_if_due, is_due, enforce_user, enforce_users, enforce_quotas,
  apply_user_nodes, unique, unique_from,
}

-- Nothing is left to do for the user: no renewal is due, and the nodes were told what holds.
abbrev pub IsSettled : ℕ → User → Type 0
IsSettled now u = (is_due u now ≡ false) × (u.active ≡ allowed u now)

get_user-All :
    (P : User → Type 0) (id : String) (us : List User) {u : User}
    → All P us
    → get_user id us ≡ some u
    → P u
get_user-All P id [] a h = cc
get_user-All P id (v ∷ us) {u} (pv, a) h = ground (arith, get_user-All P id us {u = u} a)

sync_found-IsSettled :
    (w : World) (p : Panel) (u : User)
    → IsSettled w.now u
    → sync_found w p (some u) ≡ (p, unchanged)
unfolding sync_found
sync_found-IsSettled w p u h = ground arith

abbrev Quiet : Panel → Panel × Synced → Type 0
Quiet p (q, pushed) = ⊥
Quiet p (q, _) = q ≡ p

sync_user-Quiet :
    (w : World) (p : Panel) (id : String)
    → All (IsSettled w.now) p.users
    → Quiet p (sync_user w p id)
unfolding sync_user sync_found
sync_user-Quiet w p id a = elim (Option-cases (get_user id p.users)) [
  | inl e ↦ ground (arith, e)
  | inr (u, e) ↦ ground (arith, e, get_user-All (IsSettled w.now) id p.users {u = u} a e)
]

after_sync-Quiet :
    (id : String) (s : Sweep) (r : Panel × Synced) → Quiet s.panel r → after_sync id s r ≡ s
after_sync-Quiet id s (q, pushed) h = absurd h
after_sync-Quiet id s (q, unchanged) h = ap (λ x. record s { panel = x }) h
after_sync-Quiet id s (q, not_found) h = ap (λ x. record s { panel = x }) h

enforce_user-Quiet :
    (w : World) (s : Sweep) (u : User)
    → is_due u w.now ≡ false
    → All (IsSettled w.now) s.panel.users
    → enforce_user w s u ≡ s
unfolding enforce_user renew_if_due
enforce_user-Quiet w s u d a = rw d (after_sync-Quiet u.id s _ (sync_user-Quiet w s.panel u.id a))

enforce_users-Quiet :
    (w : World) (s : Sweep) (us : List User)
    → All (IsSettled w.now) us
    → All (IsSettled w.now) s.panel.users
    → enforce_users w s us ≡ s
unfolding enforce_users
enforce_users-Quiet w s [] h a = refl
enforce_users-Quiet w s (u ∷ us) (d, h) a =
    subst (λ t. enforce_users w t us ≡ s) (sym (enforce_user-Quiet w s u d.0 a))
      (enforce_users-Quiet w s us h a)

-- A sweep over users of whom each is settled changes nothing, sends nothing, re-assembles no node and
-- reports no change.
pub enforce_quotas-quiet :
    (w : World) (p : Panel) → All (IsSettled w.now) p.users → enforce_quotas w p ≡ (p, 0)
unfolding enforce_quotas unique unique_from
enforce_quotas-quiet w p h =
    let s : Sweep = record { panel = p; changed = 0; dirty = [] } in
    ap (λ t. (apply_user_nodes t.dirty t.panel, t.changed)) (enforce_users-Quiet w s p.users h h)
    ∙ ap (λ l. (record p { applied = l }, 0)) (append-nil p.applied)

-- The rows but for one user's.
abbrev pub Apart : String → List User → Type 0
Apart id = All (λ v. str_eq v.id id ≡ false)

-- No two users have the same id.
abbrev pub Distinct : List User → Type 0
Distinct [] = Unit
Distinct (u ∷ us) = Apart u.id us × Distinct us

pub Distinct-Apart :
    (pre : List User) (u : User) (us : List User)
    → Distinct (pre ++ (u ∷ us))
    → Apart u.id pre × Apart u.id us
Distinct-Apart [] u us (a, d) = (tt, a)
Distinct-Apart (v ∷ pre) u us (a, d) =
    let (b, c) = Distinct-Apart pre u us d in ((str_eq_sym v.id u.id ∙ at pre a, b), c)
  where
    at : (xs : List User) → Apart v.id (xs ++ (u ∷ us)) → str_eq u.id v.id ≡ false
    at [] h = h.0
    at (x ∷ xs) h = at xs h.1

Apart-swap :
    (id : String) (pre : List User) (u v : User) (us : List User)
    → v.id ≡ u.id
    → Apart id (pre ++ (u ∷ us))
    → Apart id (pre ++ (v ∷ us))
Apart-swap id [] u v us e (h, a) = (ap (λ x. str_eq x id) e ∙ h, a)
Apart-swap id (x ∷ pre) u v us e (h, a) = (h, Apart-swap id pre u v us e a)

pub Distinct-swap :
    (pre : List User) (u v : User) (us : List User)
    → v.id ≡ u.id
    → Distinct (pre ++ (u ∷ us))
    → Distinct (pre ++ (v ∷ us))
Distinct-swap [] u v us e (a, d) = (subst (λ x. Apart x us) (sym e) a, d)
Distinct-swap (x ∷ pre) u v us e (a, d) =
    (Apart-swap x.id pre u v us e a, Distinct-swap pre u v us e d)

update_user-Apart :
    (id : String) (change : User → User) (us : List User)
    → Apart id us
    → update_user id change us ≡ us
update_user-Apart id change [] h = refl
update_user-Apart id change (v ∷ us) (h, a) = ground (arith, update_user-Apart id change us a)

module _ (u : User) (us : List User) where
  pub get_user-append :
      (pre : List User) → Apart u.id pre → get_user u.id (pre ++ (u ∷ us)) ≡ some u
  get_user-append [] h = ground (arith, eq_iff u.id u.id)
  get_user-append (v ∷ pre) (h, a) = ground (arith, get_user-append pre a)

  pub update_user-append :
      (change : User → User) (pre : List User)
      → Apart u.id pre
      → Apart u.id us
      → update_user u.id change (pre ++ (u ∷ us)) ≡ pre ++ (change u ∷ us)
  update_user-append change [] h b =
      ground (arith, eq_iff u.id u.id, update_user-Apart u.id change us b)
  update_user-append change (v ∷ pre) (h, a) b = ground (arith, update_user-append change pre a b)
