-- ===== src/Entitlement/Partial.antt =====
-- `SyncUser` of core/internal/profile/enforce.go after a removal that reached only part of the fleet.
use chiral.Prelude.{
  ℕ, ◌<◌, ◌≡◌, refl, ◌∙◌, ap, Bool, true, false, not, String, List, [], ◌∷◌, ◌++◌, some, arith,
  if◌then◌else◌,
}
use chiral.Entitlement.{User, Credential, allowed, reason}
use chiral.Entitlement.Enforce.{
  World, Panel, unchanged, get_user, renew_user, user_credentials, push_all, sync_creds, sync_found,
  sync_user, same,
}
use chiral.Entitlement.Synced.{sync_creds-users, get_user-update_user}

sync_creds-delivered :
    (w : World) (p : Panel) (id : String) (want : Bool) (cs : List Credential)
    → (push_all w want cs).0 ≡ false
    → (sync_creds w p id want cs).0.delivered ≡ p.delivered ++ (push_all w want cs).1
unfolding sync_creds push_all
sync_creds-delivered w p id want [] h = cc
sync_creds-delivered w p id want (c ∷ cs) h = refl

allowed-renewed :
    (u : User) (next now : ℕ)
    → u.enabled ≡ true
    → now < next
    → allowed (record u { expires_at = next; used_bytes = 0 }) now ≡ true
unfolding allowed reason
allowed-renewed u next now e l = ground arith

module _ (w : World) (p : Panel) (u : User) (g : get_user u.id p.users ≡ some u)
    (o : p.user_ops ≡ true) where
  sync_user_found : sync_user w p u.id ≡ sync_found w p (some u)
  unfolding sync_user
  sync_user_found =
      ap (λ b. if not b then (p, unchanged) else sync_found w p (get_user u.id p.users)) o
      ∙ ap (sync_found w p) g

  sync_user-same : same (allowed u w.now) u.active ≡ true → sync_user w p u.id ≡ (p, unchanged)
  unfolding sync_found
  sync_user-same h =
      sync_user_found
      ∙ ap
          (λ b.
            if b
            then (p, unchanged)
            else sync_creds w p u.id (allowed u w.now) (user_credentials u.id p.credentials))
          h

  sync_user_partly :
      u.active ≡ true
      → allowed u w.now ≡ false
      → (push_all w false (user_credentials u.id p.credentials)).0 ≡ false
      → ((sync_user w p u.id).0.users ≡ p.users)
        × ((sync_user w p u.id).0.delivered
            ≡ p.delivered ++ (push_all w false (user_credentials u.id p.credentials)).1)
        × ((sync_user w p u.id).0.user_ops ≡ true)
  unfolding sync_found sync_creds push_all
  sync_user_partly a n h =
      let cs = user_credentials u.id p.credentials in
      ground (
        arith,
        sync_user_found,
        sync_creds-users w p u.id false cs,
        sync_creds-delivered w p u.id false cs h,
      )

-- Where a user's removal reached some of their nodes and not others, their flag stays up. If the
-- user is renewed before the rest is reached, the next synchronisation finds nothing to do: it
-- sends nothing, and so the nodes that did remove the user are not told to add them again.
pub sync_user-renew_user :
    (w w' : World) (p : Panel) (u : User) (next : ℕ)
    → get_user u.id p.users ≡ some u
    → p.user_ops ≡ true
    → u.enabled ≡ true
    → u.active ≡ true
    → allowed u w.now ≡ false
    → (push_all w false (user_credentials u.id p.credentials)).0 ≡ false
    → w'.now < next
    → let q = (sync_user w p u.id).0 in
      let r = record q { users = renew_user u.id next q.users } in
      (q.delivered ≡ p.delivered ++ (push_all w false (user_credentials u.id p.credentials)).1)
      × (sync_user w' r u.id ≡ (r, unchanged))
sync_user-renew_user w w' p u next g o e a n h l =
    let q = (sync_user w p u.id).0 in
    let r = record q { users = renew_user u.id next q.users } in
    let (users, delivered, wired) = sync_user_partly w p u g o a n h in
    let v = record u { expires_at = next; used_bytes = 0 } in
    let found =
      get_user-update_user u.id (λ x. record x { expires_at = next; used_bytes = 0 }) q.users
        (λ x. refl) (ap (get_user u.id) users ∙ g) in
    (
      delivered,
      sync_user-same w' r v found wired (ground (arith, allowed-renewed u next w'.now e l)),
    )
