-- ===== src/Entitlement.antt =====
-- Who is entitled to working credentials: core/internal/user/user.go. The API refuses a negative
-- quota, expiry and renewal period, so the columns are native numbers; times are unix seconds.
pub mod Enforce
pub mod Renewal
pub mod Wrapped
pub mod Synced
pub mod Settled
pub mod Sweep
pub mod Partial
pub mod Naming
mod Examples
use chiral.Prelude.{
  ℕ, ◌+◌, Bool, true, false, not, ◌&&◌, ◌||◌, String, List, [], ◌∷◌, ◌++◌, Option, none, some, leb,
  ◌==◌, if◌then◌else◌,
}

-- The columns of `User` that enforcement reads.
pub record User : Type 0 where
  pub id : String
  pub name : String
  pub quota_bytes : ℕ
  pub used_bytes : ℕ
  pub expires_at : ℕ
  pub renew_period : ℕ
  pub enabled : Bool
  pub active : Bool

pub record Credential : Type 0 where
  pub user_id : String
  pub profile_id : String
  pub node_id : String
  pub email : String

-- The reasons, in the order in which they are said.
pub data Reason : Type 0 where
  suspended expired quota_exhausted : Reason

-- `Reason`, with `none` for the empty text.
unfoldable pub reason : User → ℕ → Option Reason
reason u now =
    if not u.enabled
    then some suspended
    else if not (u.expires_at == 0) && leb u.expires_at now
    then some expired
    else if not (u.quota_bytes == 0) && leb u.quota_bytes u.used_bytes
    then some quota_exhausted
    else none

abbrev is_none : Option Reason → Bool
is_none none = true
is_none (some _) = false

-- `Allowed`
unfoldable pub allowed : User → ℕ → Bool
unfolding reason
allowed u now = is_none (reason u now)

abbrev pub is_word : ℕ → Bool
is_word r =
    (leb b'a' r && leb r b'z')
    || (leb b'A' r && leb r b'Z')
    || (leb b'0' r && leb r b'9')
    || r == b'_'

abbrev is_nil : List ℕ → Bool
is_nil [] = true
is_nil (_ ∷ _) = false

-- The loop of `sanitize`, with what the builder holds.
unfoldable pub safe_runes : List ℕ → List ℕ → List ℕ
safe_runes b [] = b
safe_runes b (r ∷ rs) =
    safe_runes (if is_word r || (r == b'-' && not (is_nil b)) then b ++ (r ∷ []) else b) rs

-- `strings.TrimRight(s, "-")`
unfoldable pub trim_dashes : List ℕ → List ℕ
trim_dashes [] = []
trim_dashes (r ∷ rs) =
    let rest = trim_dashes rs in if r == b'-' && is_nil rest then [] else r ∷ rest

-- `sanitize`, on the runes of the name.
unfoldable pub sanitize : List ℕ → List ℕ
unfolding safe_runes trim_dashes
sanitize s = trim_dashes (safe_runes [] s)

-- `StatsEmailForExit`, on runes.
unfoldable pub stats_email : List ℕ → List ℕ → List ℕ → List ℕ → List ℕ → List ℕ
unfolding sanitize
stats_email user_name user_id profile_id node_id exit_id =
    let name = sanitize user_name in
    let prefix = if is_nil name then name else name ++ (b'.' ∷ []) in
    let key = prefix ++ user_id ++ (b'@' ∷ profile_id) ++ (b'.' ∷ node_id) in
    if is_nil exit_id then key else key ++ (b'.' ∷ exit_id)

-- `exitKey`
unfoldable pub exit_key : List ℕ → List ℕ → List ℕ
exit_key exit_id [] = exit_id
exit_key exit_id (r ∷ relay_id) = b'r' ∷ r ∷ relay_id
