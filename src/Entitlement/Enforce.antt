-- ===== src/Entitlement/Enforce.antt =====
-- Enforcement: core/internal/profile/enforce.go over the users and credentials of
-- core/internal/store/user.go. Rendering a credential and handing it to a node's session are
-- arguments, and so is the clock, which one sweep reads once.
use chiral.Prelude.{
  ℕ, ◌+◌, ◌%◌, ◌^◌, zero, suc, Bool, true, false, not, ◌||◌, String, List, [], ◌∷◌, ◌++◌, Option,
  none, some, leb, ltb, ◌==◌, if◌then◌else◌, str_eq, keep, map, contains,
}
use chiral.Entitlement.{User, Credential, allowed}

-- An operation that a node's session took.
pub record UserOp : Type 0 where
  pub node_id : String
  pub email : String
  pub add : Bool

-- The outside of one sweep: whether `pushUserOp` gets an operation for a credential to its node,
-- and the time.
pub record World : Type 0 where
  pub push : Credential → Bool → Bool
  pub now : ℕ

-- The users in the order of `ListUsers`, the credentials in that of `UserCredentials`, whether
-- online operations are wired, and what was delivered and re-assembled, the newest last.
pub record Panel : Type 0 where
  pub users : List User
  pub credentials : List Credential
  pub user_ops : Bool
  pub delivered : List UserOp
  pub applied : List String

abbrev pub get_user : String → List User → Option User
get_user id [] = none
get_user id (u ∷ us) = if str_eq u.id id then some u else get_user id us

-- The row of an `UPDATE users ... WHERE id = ?`.
abbrev pub update_user : String → (User → User) → List User → List User
update_user id change [] = []
update_user id change (u ∷ us) = (if str_eq u.id id then change u else u) ∷ update_user id change us

-- `SetUserActive`
abbrev pub set_user_active : String → Bool → List User → List User
set_user_active id active = update_user id (λ u. record u { active = active })

-- `RenewUser`
abbrev pub renew_user : String → ℕ → List User → List User
renew_user id next = update_user id (λ u. record u { expires_at = next; used_bytes = 0 })

-- `UserCredentials`
abbrev pub user_credentials : String → List Credential → List Credential
user_credentials id = keep (λ c. str_eq c.user_id id)

-- `unique`, with what has been seen.
unfoldable pub unique_from : List String → List String → List String
unique_from seen [] = []
unique_from seen (id ∷ ids) = elim (contains seen id) [
  | true ↦ unique_from seen ids
  | false ↦ id ∷ unique_from (id ∷ seen) ids
]

unfoldable pub unique : List String → List String
unfolding unique_from
unique ids = unique_from [] ids

-- `NodesForUser`
abbrev pub nodes_for_user : String → List Credential → List String
unfolding unique
nodes_for_user id creds = unique (map (λ c. c.node_id) (user_credentials id creds))

-- `SyncUser`'s answer.
pub data Synced : Type 0 where
  unchanged pushed not_found : Synced

abbrev pub op_for : Credential → Bool → UserOp
op_for c allow = record { node_id = c.node_id; email = c.email; add = allow }

-- The loop of `SyncUser`: whether all operations went out, and those that did.
unfoldable pub push_all : World → Bool → List Credential → Bool × List UserOp
push_all w allow [] = (true, [])
push_all w allow (c ∷ cs) =
    let (all_ok, ops) = push_all w allow cs in
    if w.push c allow then (all_ok, op_for c allow ∷ ops) else (false, ops)

abbrev pub pushed_ops : Panel → String → Bool → Bool × List UserOp → Panel × Synced
pushed_ops p id want (all_ok, ops) = (
  record p {
    delivered = p.delivered ++ ops;
    users = if all_ok then set_user_active id want p.users else p.users;
  },
  pushed,
)

unfoldable pub sync_creds : World → Panel → String → Bool → List Credential → Panel × Synced
unfolding push_all
sync_creds w p id want [] = (record p { users = set_user_active id want p.users }, unchanged)
sync_creds w p id want (c ∷ cs) = pushed_ops p id want (push_all w want (c ∷ cs))

abbrev pub same : Bool → Bool → Bool
same true b = b
same false b = not b

unfoldable pub sync_found : World → Panel → Option User → Panel × Synced
unfolding sync_creds allowed
sync_found w p none = (p, not_found)
sync_found w p (some u) =
    let want = allowed u w.now in
    if same want u.active
    then (p, unchanged)
    else sync_creds w p u.id want (user_credentials u.id p.credentials)

-- `SyncUser`
unfoldable pub sync_user : World → Panel → String → Panel × Synced
unfolding sync_found
sync_user w p id = if not p.user_ops then (p, unchanged) else sync_found w p (get_user id p.users)

-- An `int64` by its residue modulo 2 ^ 64, of which those from 2 ^ 63 on are negative: addition wraps
-- around, and a negative number is before any time of the clock. The columns of a user, which the API
-- keeps from being negative, are below 2 ^ 63.
abbrev pub add_int64 : ℕ → ℕ → ℕ
add_int64 a b = (a + b) % 2 ^ 64

abbrev pub is_past : ℕ → ℕ → Bool
is_past next now = leb (2 ^ 63) next || leb next now

-- The loop of `renewIfDue`, on fuel.
unfoldable pub catch_up : ℕ → ℕ → ℕ → ℕ → ℕ
catch_up zero next period now = next
catch_up (suc fuel) next period now = elim (is_past next now) [
  | true ↦ catch_up fuel (add_int64 next period) period now
  | false ↦ next
]

-- The next expiry. A period is at least one second, so a round per second that has passed is enough
-- where nothing wraps; where it does, an expiry that is past comes back at least two seconds earlier
-- after two rounds, or not past after one or three.
unfoldable pub next_expiry : User → ℕ → ℕ
unfolding catch_up
next_expiry u now = catch_up (now + 4) u.expires_at u.renew_period now

abbrev pub is_due : User → ℕ → Bool
is_due u now = not (leb u.renew_period 0 || u.expires_at == 0 || ltb now u.expires_at)

-- `renewIfDue`
unfoldable pub renew_if_due : User → ℕ → Panel → Panel
unfolding next_expiry
renew_if_due u now p =
    if is_due u now then record p { users = renew_user u.id (next_expiry u now) p.users } else p

-- A sweep under way: the panel, how many users changed, and the nodes to re-assemble.
pub record Sweep : Type 0 where
  pub panel : Panel
  pub changed : ℕ
  pub dirty : List String

abbrev pub after_sync : String → Sweep → Panel × Synced → Sweep
after_sync id s (p, pushed) = record {
  panel = p;
  changed = s.changed + 1;
  dirty = s.dirty ++ nodes_for_user id p.credentials;
}
after_sync id s (p, _) = record s { panel = p }

-- One user of the loop of `EnforceQuotas`.
unfoldable pub enforce_user : World → Sweep → User → Sweep
unfolding renew_if_due sync_user
enforce_user w s u = after_sync u.id s (sync_user w (renew_if_due u w.now s.panel) u.id)

unfoldable pub enforce_users : World → Sweep → List User → Sweep
unfolding enforce_user
enforce_users w s [] = s
enforce_users w s (u ∷ us) = enforce_users w (enforce_user w s u) us

-- `ApplyUserNodes`, which asks for each node once; what assembling a node does is not modelled.
abbrev pub apply_user_nodes : List String → Panel → Panel
unfolding unique
apply_user_nodes ids p = record p { applied = p.applied ++ unique ids }

-- `EnforceQuotas`
unfoldable pub enforce_quotas : World → Panel → Panel × ℕ
unfolding enforce_users unique
enforce_quotas w p =
    let s = enforce_users w (record { panel = p; changed = 0; dirty = [] }) p.users in
    (apply_user_nodes s.dirty s.panel, s.changed)
