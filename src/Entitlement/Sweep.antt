-- ===== src/Entitlement/Sweep.antt =====
-- A whole sweep of `EnforceQuotas`, core/internal/profile/enforce.go, user by user.
use chiral.Prelude.{
  ℕ, ◌*◌, ◌^◌, ◌<◌, false, ◌≡◌, refl, sym, ◌∙◌, ap, Bool, true, not, String, List, [], ◌∷◌, ◌++◌,
  Option, none, some, arith, inl, inr, if◌then◌else◌, All, All-append, subst, append_assoc,
  append-nil, Bool-cases,
}
use chiral.Entitlement.{User, Credential, allowed, reason}
use chiral.Entitlement.Enforce.{
  World, Panel, Synced, unchanged, pushed, not_found, get_user, set_user_active, renew_user,
  user_credentials, push_all, sync_creds, sync_found, sync_user, same, Sweep, after_sync,
  renew_if_due, is_due, next_expiry, enforce_user, enforce_users, enforce_quotas, unique,
}
use chiral.Entitlement.Renewal.{renewed}
use chiral.Entitlement.Wrapped.{next_expiry_ahead}
use chiral.Entitlement.Synced.{sync_creds-users}
use chiral.Entitlement.Settled.{
  IsSettled, Apart, Distinct, Distinct-Apart, Distinct-swap, get_user-append, update_user-append,
  enforce_quotas-quiet,
}

-- Online operations are wired, and every node takes every operation.
abbrev pub Reachable : World → Type 0
Reachable w = (c : Credential) (allow : Bool) → w.push c allow ≡ true

-- The clock is far from the end of its range, the year 97 billion or so.
abbrev pub Early : World → Type 0
Early w = 3 * w.now < 2 ^ 63

-- The period of a user is one that an `int64` can have.
abbrev pub IsInt64 : User → Type 0
IsInt64 u = u.renew_period < 2 ^ 63

push_all-Reachable :
    (w : World) (allow : Bool) (cs : List Credential) → Reachable w → (push_all w allow cs).0 ≡ true
unfolding push_all
push_all-Reachable w allow [] r = refl
push_all-Reachable w allow (c ∷ cs) r = ground (arith, push_all-Reachable w allow cs r, r c allow)

-- The user with the flag that says what they are entitled to.
abbrev told : World → User → User
told w u = record u { active = allowed u w.now }

-- The row after this sweep is done with it.
abbrev due_told : World → User → User
due_told w u = told w (if is_due u w.now then renewed u w.now else u)

same-told : (w : World) (u : User) → same (allowed u w.now) u.active ≡ true → told w u ≡ u
same-told w u h = ground arith

module _ (w : World) (r : Reachable w) (pre us : List User) where
  sync_found-users :
      (p : Panel) (u : User)
      → p.users ≡ pre ++ (u ∷ us)
      → Apart u.id pre × Apart u.id us
      → (sync_found w p (some u)).0.users ≡ pre ++ (told w u ∷ us)
  unfolding sync_found
  sync_found-users p u e (a, b) =
      let want = allowed u w.now in
      let cs = user_credentials u.id p.credentials in
      let to = update_user-append u us (λ x. record x { active = want }) pre a b in
      elim (Bool-cases (same want u.active)) [
        | inl h ↦ rw h (e ∙ sym (ap (λ x. pre ++ (x ∷ us)) (same-told w u h)))
        | inr h ↦ rw h (
            sync_creds-users w p u.id want cs
            ∙ ap (λ b. if b then set_user_active u.id want p.users else p.users)
                (push_all-Reachable w want cs r)
            ∙ ap (set_user_active u.id want) e
            ∙ to)
      ]

  sync_user-users :
      (p : Panel) (u : User)
      → p.user_ops ≡ true
      → p.users ≡ pre ++ (u ∷ us)
      → Apart u.id pre × Apart u.id us
      → (sync_user w p u.id).0.users ≡ pre ++ (told w u ∷ us)
  unfolding sync_user
  sync_user-users p u o e ab =
      ap (λ b. (if not b then (p, unchanged) else sync_found w p (get_user u.id p.users)).0.users) o
      ∙ ap (λ x. (sync_found w p x).0.users) (ap (get_user u.id) e ∙ get_user-append u us pre ab.0)
      ∙ sync_found-users p u e ab

  renew_if_due-users :
      (p : Panel) (u : User)
      → p.users ≡ pre ++ (u ∷ us)
      → Apart u.id pre × Apart u.id us
      → (renew_if_due u w.now p).users
        ≡ pre ++ ((if is_due u w.now then renewed u w.now else u) ∷ us)
  unfolding renew_if_due
  renew_if_due-users p u e (a, b) =
      let n = next_expiry u w.now in
      let to = update_user-append u us (λ x. record x { expires_at = n; used_bytes = 0 }) pre a b in
      elim (Bool-cases (is_due u w.now)) [
        | inl h ↦ rw h (ap (renew_user u.id n) e ∙ to)
        | inr h ↦ rw h e
      ]

due_told-IsSettled : (w : World) (u : User) → Early w → IsInt64 u → IsSettled w.now (due_told w u)
unfolding allowed reason
due_told-IsSettled w u early i = elim (Bool-cases (is_due u w.now)) [
  | inl h ↦
      let ahead = next_expiry_ahead u w.now early i h in
      let d : is_due (renewed u w.now) w.now ≡ false = ground (arith, ahead) in rw h (d, refl)
  | inr h ↦ rw h (ground arith, refl)
]

due_told-id : (w : World) (u : User) → (due_told w u).id ≡ u.id
due_told-id w u = ground arith

sync_creds-user_ops :
    (w : World) (p : Panel) (id : String) (want : Bool) (cs : List Credential)
    → (sync_creds w p id want cs).0.user_ops ≡ p.user_ops
unfolding sync_creds
sync_creds-user_ops w p id want [] = refl
sync_creds-user_ops w p id want (c ∷ cs) = refl

sync_found-user_ops :
    (w : World) (p : Panel) (o : Option User) → (sync_found w p o).0.user_ops ≡ p.user_ops
unfolding sync_found
sync_found-user_ops w p none = refl
sync_found-user_ops w p (some u) =
    ground
      (arith, sync_creds-user_ops w p u.id (allowed u w.now) (user_credentials u.id p.credentials))

sync_user-user_ops :
    (w : World) (p : Panel) (id : String) → (sync_user w p id).0.user_ops ≡ p.user_ops
unfolding sync_user
sync_user-user_ops w p id = ground (arith, sync_found-user_ops w p (get_user id p.users))

renew_if_due-user_ops :
    (u : User) (now : ℕ) (p : Panel) → (renew_if_due u now p).user_ops ≡ p.user_ops
unfolding renew_if_due
renew_if_due-user_ops u now p = ground arith

after_sync-panel : (id : String) (s : Sweep) (r : Panel × Synced) → (after_sync id s r).panel ≡ r.0
after_sync-panel id s (q, pushed) = refl
after_sync-panel id s (q, unchanged) = refl
after_sync-panel id s (q, not_found) = refl

-- The state of a sweep between two users: those before are settled.
record Halfway (w : World) (pre us : List User) (p : Panel) : Type 0 where
  user_ops : p.user_ops ≡ true
  users : p.users ≡ pre ++ us
  distinct : Distinct (pre ++ us)
  settled : All (IsSettled w.now) pre
  periods : All IsInt64 us

enforce_user-Halfway :
    (w : World) (pre : List User) (u : User) (us : List User) (s : Sweep)
    → Reachable w
    → Early w
    → Halfway w pre (u ∷ us) s.panel
    → Halfway w (pre ++ (due_told w u ∷ [])) us (enforce_user w s u).panel
unfolding enforce_user
enforce_user-Halfway w pre u us s r early h =
    let p = renew_if_due u w.now s.panel in
    let v = if is_due u w.now then renewed u w.now else u in
    let apart = Distinct-Apart pre u us h.distinct in
    let same_id : v.id ≡ u.id = due_told-id w u in
    let e = renew_if_due-users w r pre us s.panel u h.users apart in
    let o = renew_if_due-user_ops u w.now s.panel ∙ h.user_ops in
    let now = after_sync-panel u.id s (sync_user w p u.id) in
    let done =
      sync_user-users w r pre us p v o e
        (subst (λ i. Apart i pre × Apart i us) (sym same_id) apart) in
    let shape = append_assoc pre (due_told w u ∷ []) us in
    record {
      user_ops = ap (λ q. q.user_ops) now ∙ sync_user-user_ops w p u.id ∙ o;
      users =
          ap (λ q. q.users) now
          ∙ subst (λ i. (sync_user w p i).0.users ≡ pre ++ (told w v ∷ us)) same_id done
          ∙ sym shape;
      distinct =
          subst Distinct (sym shape)
            (Distinct-swap pre u (due_told w u) us (due_told-id w u) h.distinct);
      settled =
          All-append (IsSettled w.now) pre (due_told w u ∷ []) h.settled
            (due_told-IsSettled w u early (h.periods).0, tt);
      periods = (h.periods).1;
    }

enforce_users-IsSettled :
    (w : World) (pre us : List User) (s : Sweep)
    → Reachable w
    → Early w
    → Halfway w pre us s.panel
    → All (IsSettled w.now) (enforce_users w s us).panel.users
unfolding enforce_users
enforce_users-IsSettled w pre [] s r early h =
    subst (All (IsSettled w.now)) (sym (h.users ∙ append-nil pre)) h.settled
enforce_users-IsSettled w pre (u ∷ us) s r early h =
    enforce_users-IsSettled w (pre ++ (due_told w u ∷ [])) us (enforce_user w s u) r early
      (enforce_user-Halfway w pre u us s r early h)

after_sweep :
    (w : World) (p : Panel)
    → Reachable w
    → Early w
    → p.user_ops ≡ true
    → Distinct p.users
    → All IsInt64 p.users
    → All (IsSettled w.now) (enforce_quotas w p).0.users
unfolding enforce_quotas unique
after_sweep w p r early o d i =
    enforce_users-IsSettled w [] p.users (record { panel = p; changed = 0; dirty = [] }) r early
      (record { user_ops = o; users = refl; distinct = d; settled = tt; periods = i })

-- Where every node takes its operations, no two users share an id, three times the clock is below
-- 2 ^ 63 and every period is one that an `int64` can have, however large, one sweep settles everybody:
-- afterwards no renewal is due and each user's flag says what they are entitled to; and a second
-- sweep at the same time changes nothing, sends nothing and re-assembles no node.
pub enforce_quotas-IsSettled :
    (w : World) (p : Panel)
    → Reachable w
    → Early w
    → p.user_ops ≡ true
    → Distinct p.users
    → All IsInt64 p.users
    → All (IsSettled w.now) (enforce_quotas w p).0.users
      × (enforce_quotas w (enforce_quotas w p).0 ≡ ((enforce_quotas w p).0, 0))
enforce_quotas-IsSettled w p r early o d i =
    let settled = after_sweep w p r early o d i in
    (settled, enforce_quotas-quiet w (enforce_quotas w p).0 settled)
