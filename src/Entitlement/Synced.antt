-- ===== src/Entitlement/Synced.antt =====
-- The `active` flag of a user and `SyncUser`, core/internal/profile/enforce.go.
use chiral.Prelude.{
  ◌≡◌, ◌≢◌, refl, Bool, true, false, not, String, List, [], ◌∷◌, some, arith, if◌then◌else◌, eq_iff,
  All, subst,
}
use chiral.Entitlement.{User, Credential, allowed}
use chiral.Entitlement.Enforce.{
  World, Panel, unchanged, get_user, update_user, set_user_active, user_credentials, push_all,
  sync_creds, sync_found, sync_user,
}

pub get_user-id : (id : String) (us : List User) {u : User} → get_user id us ≡ some u → u.id ≡ id
get_user-id id [] h = cc
get_user-id id (v ∷ us) {u} h = ground (arith, eq_iff v.id id, get_user-id id us {u = u})

-- An update is read back from the row that it is for.
pub get_user-update_user :
    (id : String) (change : User → User) (us : List User) {u : User}
    → ((v : User) → (change v).id ≡ v.id)
    → get_user id us ≡ some u
    → get_user id (update_user id change us) ≡ some (change u)
get_user-update_user id change [] k h = cc
get_user-update_user id change (v ∷ us) {u} k h =
    ground (arith, k v, get_user-update_user id change us {u = u} k)

abbrev pub Takes : World → Bool → Credential → Type 0
Takes w allow c = w.push c allow ≡ true

pub All-push_all :
    (w : World) (allow : Bool) (cs : List Credential)
    → (push_all w allow cs).0 ≡ true
    → All (Takes w allow) cs
unfolding push_all
All-push_all w allow [] h = tt
All-push_all w allow (c ∷ cs) h = ground (arith, All-push_all w allow cs)

-- Only a synchronisation whose operations all reach their nodes touches the users.
pub sync_creds-users :
    (w : World) (p : Panel) (id : String) (want : Bool) (cs : List Credential)
    → (sync_creds w p id want cs).0.users
      ≡ (if (push_all w want cs).0 then set_user_active id want p.users else p.users)
unfolding sync_creds push_all
sync_creds-users w p id want [] = refl
sync_creds-users w p id want (c ∷ cs) = refl

module _ (w : World) (p : Panel) (id : String) (u : User) (g : get_user id p.users ≡ some u) where
  get_user-sync_found :
      {v : User}
      → get_user id (sync_found w p (some u)).0.users ≡ some v
      → v.active ≢ u.active
      → (v.active ≡ allowed u w.now)
        × All (Takes w (allowed u w.now)) (user_credentials u.id p.credentials)
  unfolding sync_found
  get_user-sync_found {v} h c =
      let cs = user_credentials u.id p.credentials in
      let want = allowed u w.now in
      ground (
        arith,
        get_user-id id p.users {u = u} g,
        sync_creds-users w p u.id want cs,
        All-push_all w want cs,
        get_user-update_user id (λ x. record x { active = want }) p.users {u = u} (λ x. refl) g,
      )

  -- The same, whether online operations are wired or not.
  get_user-sync_if :
      (wired : Bool) {v : User}
      → get_user id
          (if not wired then (p, unchanged) else sync_found w p (get_user id p.users)).0.users
        ≡ some v
      → v.active ≢ u.active
      → (v.active ≡ allowed u w.now)
        × All (Takes w (allowed u w.now)) (user_credentials u.id p.credentials)
  get_user-sync_if true {v} h c =
      get_user-sync_found {v = v} (subst (λ o. get_user id (sync_found w p o).0.users ≡ some v) g h)
        c
  get_user-sync_if false {v} h c = absurd (c (ground (arith, g)))

-- The flag never records a change that reached only part of the fleet: where a synchronisation
-- changes what the flag says, it now says what the user is entitled to, and every one of their
-- credentials had its operation taken by the node.
pub get_user-sync_user :
    (w : World) (p : Panel) (id : String) {u v : User}
    → get_user id p.users ≡ some u
    → get_user id (sync_user w p id).0.users ≡ some v
    → v.active ≢ u.active
    → (v.active ≡ allowed u w.now)
      × All (Takes w (allowed u w.now)) (user_credentials u.id p.credentials)
unfolding sync_user
get_user-sync_user w p id {u} {v} g h c = get_user-sync_if w p id u g p.user_ops {v = v} h c
