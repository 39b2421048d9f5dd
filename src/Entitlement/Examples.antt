-- ===== src/Entitlement/Examples.antt =====
-- Entitlement and enforcement on concrete inputs: one user on two nodes.
use chiral.Prelude.{
  ℕ, ◌≡◌, ◌≤◌, ◌<◌, ◌+◌, ◌*◌, ◌++◌, refl, true, false, String, [], ◌∷◌, some, arith, All, str_eq,
}
use chiral.Prelude.Text.{codes}
use chiral.Entitlement.{User, Credential, reason, expired, quota_exhausted, allowed, stats_email}
use chiral.Entitlement.Enforce.{
  World, Panel, unchanged, get_user, renew_user, user_credentials, push_all, sync_user, is_due,
  next_expiry, enforce_quotas, enforce_user, enforce_users,
}
use chiral.Entitlement.Renewal.{renewed, next_expiry_lem}
use chiral.Entitlement.Synced.{Takes, get_user-sync_user}
use chiral.Entitlement.Settled.{IsSettled}
use chiral.Entitlement.Sweep.{enforce_quotas-IsSettled}
use chiral.Entitlement.Partial.{sync_user-renew_user}

abbrev ada : User
ada = record {
  id = "a";
  name = "Ada";
  quota_bytes = 100;
  used_bytes = 120;
  expires_at = 40;
  renew_period = 30;
  enabled = true;
  active = true;
}

abbrev credential : String → Credential
credential node = record { user_id = "a"; profile_id = "p"; node_id = node; email = node }

abbrev panel : Panel
panel = record {
  users = ada ∷ [];
  credentials = credential "n1" ∷ credential "n2" ∷ [];
  user_ops = true;
  delivered = [];
  applied = [];
}

-- The second node is offline.
abbrev half : World
half = record { push = λ c allow. str_eq c.node_id "n1"; now = 30 }

abbrev whole : World
whole = record { push = λ c allow. true; now = 30 }

abbrev later : World
later = record { push = λ c allow. true; now = 41 }

spent : reason ada 30 ≡ some quota_exhausted
unfolding reason
spent = refl

over_date : reason ada 40 ≡ some expired
unfolding reason
over_date = refl

caught_up : next_expiry ada 101 ≡ 130
unfolding next_expiry
caught_up = refl

-- A period of 2 ^ 63 - 20 seconds wraps around, and the expiry is not a whole number of them ahead.
wrapped : next_expiry (record ada { renew_period = 9223372036854775788 }) 59 ≡ 9223372036854775788
unfolding next_expiry
wrapped = refl

key : stats_email (codes "-A d-") (codes "u1") (codes "p1") (codes "n1") [] ≡ codes "Ad.u1@p1.n1"
unfolding stats_email
key = refl

cut_off :
    (enforce_quotas whole panel).0.delivered
    ≡ record { node_id = "n1"; email = "n1"; add = false }
      ∷ record { node_id = "n2"; email = "n2"; add = false }
      ∷ []
unfolding enforce_quotas enforce_users enforce_user
cut_off = refl

next_expiry_lem_example :
    (101 < next_expiry ada 101)
    × (next_expiry ada 101 ≤ 101 + 30)
    × ((k : ℕ) × (next_expiry ada 101 ≡ 40 + k * 30))
    × (is_due (renewed ada 101) 101 ≡ false)
    × (allowed (renewed ada 101) 101 ≡ true)
next_expiry_lem_example = next_expiry_lem ada 101 (omega arith) refl

abbrev told_ada : User
told_ada = record ada { active = false }

cleared : get_user "a" (sync_user whole panel "a").0.users ≡ some told_ada
unfolding sync_user
cleared = refl

get_user-sync_user_example :
    (false ≡ allowed ada 30)
    × All (Takes whole (allowed ada 30)) (user_credentials "a" panel.credentials)
get_user-sync_user_example =
    get_user-sync_user whole panel "a" {u = ada} {v = told_ada} refl cleared (λ e. cc)

not_allowed : false ≡ allowed told_ada 30
unfolding allowed reason
not_allowed = refl

enforce_quotas-IsSettled_example :
    All (IsSettled 30) (enforce_quotas whole panel).0.users
    × (enforce_quotas whole (enforce_quotas whole panel).0 ≡ ((enforce_quotas whole panel).0, 0))
enforce_quotas-IsSettled_example =
    enforce_quotas-IsSettled whole panel (λ c allow. refl) (omega arith) refl (tt, tt)
      (omega arith, tt)

refused : allowed ada 30 ≡ false
unfolding allowed reason
refused = refl

one_missed : (push_all half false (user_credentials "a" panel.credentials)).0 ≡ false
unfolding push_all
one_missed = refl

-- Ada's quota is spent while the second node is offline, and the new period begins.
sync_user-renew_user_example :
    ((sync_user half panel "a").0.delivered
      ≡ [] ++ (push_all half false (user_credentials "a" panel.credentials)).1)
    × (sync_user later
          (record (sync_user half panel "a").0 {
            users = renew_user "a" 70 (sync_user half panel "a").0.users;
          })
          "a"
        ≡ (
          record (sync_user half panel "a").0 {
            users = renew_user "a" 70 (sync_user half panel "a").0.users;
          },
          unchanged,
        ))
sync_user-renew_user_example =
    sync_user-renew_user half later panel ada 70 refl refl refl refl refused one_missed
      (omega arith)
