-- ===== src/SecondFactor.antt =====
-- The second step of a login: `verifyMFA` of core/internal/api/mfa.go over the tables of
-- core/internal/store/mfa.go and the codes of core/internal/auth/totp.go. Hashing, HMAC and base32
-- are arguments. Times are unix seconds.
pub mod Codes
pub mod Race
pub mod SingleUse
mod Examples
use Prim.Native.String.{◌++◌ as str_append}
use chiral.Prelude.{
  ℕ, ◌+◌, ◌-◌, ◌/◌, Bool, true, false, not, ◌&&◌, ◌||◌, String, List, [], ◌∷◌, ◌++◌, Option, none,
  some, ltb, leb, ◌==◌, if◌then◌else◌, str_eq, keep, any, length,
}
use chiral.Prelude.Maps.{Map, lookup, insert, delete}
use chiral.Prelude.Text.{codes, trim_space}

-- A challenge's purposes.
pub data Purpose : Type 0 where
  login email_code : Purpose

-- `Challenge`, under its token's hash.
pub record Challenge : Type 0 where
  pub admin_id : String
  pub purpose : Purpose
  pub data_hash : String
  pub attempts : ℕ
  pub expires_at : ℕ

-- `MFACredential`; only the kind `totp` is verified here.
pub record MfaCredential : Type 0 where
  pub id : String
  pub admin_id : String
  pub is_totp : Bool
  pub secret : String
  pub confirmed : Bool

pub record RecoveryCode : Type 0 where
  pub admin_id : String
  pub code_hash : String
  pub used_at : ℕ

pub record Admin : Type 0 where
  pub id : String
  pub disabled : Bool

-- The tables.
pub record Store : Type 0 where
  pub admins : List Admin
  pub factors : List MfaCredential
  pub recovery_codes : List RecoveryCode
  pub challenges : Map Challenge

-- `auth.HashSecret`, alone and of a recovery code once it is normalized, `hotp` of a key at a
-- counter, base32 of a secret once it is trimmed and in capitals, and the time.
pub record World : Type 0 where
  pub hash : String → String
  pub recovery_hash : String → String
  pub hotp : String → ℕ → String
  pub decode : String → Option String
  pub now : ℕ

abbrev pub max_attempts : ℕ
max_attempts = 5

abbrev same_purpose : Purpose → Purpose → Bool
same_purpose login login = true
same_purpose email_code email_code = true
same_purpose _ _ = false

abbrev pub live : Purpose → ℕ → Option Challenge → Option Challenge
live purpose now none = none
live purpose now (some c) =
    if same_purpose c.purpose purpose && ltb now c.expires_at then some c else none

-- `GetChallenge`
abbrev pub get_challenge : String → Purpose → ℕ → Store → Option Challenge
get_challenge key purpose now s = live purpose now (lookup key s.challenges)

-- `DeleteChallenge`
abbrev pub delete_challenge : String → Store → Store
delete_challenge key s = record s { challenges = delete key s.challenges }

-- `CreateChallenge`
unfoldable pub create_challenge : String → String → Purpose → String → ℕ → ℕ → Store → Store
create_challenge key admin_id purpose data_hash now ttl s = record s {
  challenges =
      insert key
        (record {
          admin_id = admin_id;
          purpose = purpose;
          data_hash = data_hash;
          attempts = 0;
          expires_at = now + ttl;
        })
        s.challenges;
}

-- The update of `BumpChallengeAttempts`.
abbrev pub bumped : String → Map Challenge → Map Challenge
bumped key [] = []
bumped key ((j, c) ∷ m) =
    let rest = bumped key m in
    if str_eq j key then (j, record c { attempts = c.attempts + 1 }) ∷ rest else (j, c) ∷ rest

-- Its answer; a challenge that is gone is an error, which the callers log and pass over.
abbrev pub is_exhausted : Option Challenge → Bool
is_exhausted none = false
is_exhausted (some c) = leb max_attempts c.attempts

-- `UseRecoveryCode`: the rows after it, and whether one was unused.
abbrev pub is_unused : String → String → RecoveryCode → Bool
is_unused admin_id code_hash r =
    str_eq r.admin_id admin_id && str_eq r.code_hash code_hash && r.used_at == 0

unfoldable pub spend_code : String → String → ℕ → List RecoveryCode → List RecoveryCode
spend_code admin_id code_hash now [] = []
spend_code admin_id code_hash now (r ∷ rs) =
    (if is_unused admin_id code_hash r then record r { used_at = now } else r)
    ∷ spend_code admin_id code_hash now rs

-- The steps either side of the present that `VerifyTOTP` tries, the one before only if there is one.
abbrev pub steps : ℕ → List ℕ
steps counter =
    if ltb counter 1
    then counter ∷ (counter + 1) ∷ []
    else (counter - 1) ∷ counter ∷ (counter + 1) ∷ []

abbrev pub totp_digits : ℕ
totp_digits = 6

-- `len` of a text, in the bytes of its UTF-8 form.
abbrev pub byte_length : List ℕ → ℕ
byte_length [] = 0
byte_length (c ∷ s) =
    (if ltb c 0x80 then 1 else if ltb c 0x800 then 2 else if ltb c 0x10000 then 3 else 4)
    + byte_length s

unfoldable pub verify_key : World → String → Option String → Bool
verify_key w code none = false
verify_key w code (some key) = any (λ c. str_eq (w.hotp key c) code) (steps (w.now / 30))

-- `VerifyTOTP`, at the world's time.
unfoldable pub verify_totp : World → String → String → Bool
unfolding verify_key
verify_totp w secret asked =
    let code = trim_space asked in
    if not (byte_length (codes code) == totp_digits)
    then false
    else verify_key w code (w.decode secret)

pub data Method : Type 0 where
  totp recovery email unknown_method : Method

pub record Request : Type 0 where
  pub challenge : String
  pub method : Method
  pub code : String

-- What a request comes to: a session for an admin, a wrong code counted against a challenge, or a
-- refusal that counts nothing.
pub data Outcome : Type 0 where
  session : String → Outcome
  wrong : String → Outcome
  refused : Outcome

abbrev pub get_admin : String → List Admin → Option Admin
get_admin id [] = none
get_admin id (a ∷ admins) = if str_eq a.id id then some a else get_admin id admins

-- `failChallenge`
unfoldable pub fail_challenge : String → Store → Store × Outcome
fail_challenge key s =
    let s' = record s { challenges = bumped key s.challenges } in
    if is_exhausted (lookup key s'.challenges)
    then (delete_challenge key s', wrong key)
    else (s', wrong key)

-- The TOTP branch of `verifyMFA`: any confirmed factor will do.
unfoldable pub verify_factors : World → Admin → String → String → Store → Store × Outcome
unfolding fail_challenge
verify_factors w a key code s =
    if any (λ f. str_eq f.admin_id a.id && f.confirmed && f.is_totp && verify_totp w f.secret code)
      s.factors
    then (delete_challenge key s, session a.id)
    else fail_challenge key s

-- The recovery branch.
unfoldable pub verify_recovery : World → Admin → String → String → Store → Store × Outcome
unfolding fail_challenge
verify_recovery w a key code s =
    let h = w.recovery_hash code in
    if any (is_unused a.id h) s.recovery_codes
    then (
      delete_challenge key (record s { recovery_codes = spend_code a.id h w.now s.recovery_codes }),
      session a.id,
    )
    else fail_challenge key s

unfoldable pub check_email_code :
    World → Admin → String → String → String → Option Challenge → Store → Store × Outcome
unfolding fail_challenge
check_email_code w a key email_key code none s = (s, refused)
check_email_code w a key email_key code (some c) s =
    if str_eq c.data_hash (w.hash (trim_space code))
    then (delete_challenge key (delete_challenge email_key s), session a.id)
    else fail_challenge email_key s

-- `verifyEmailCode`
unfoldable pub verify_email_code :
    World → Admin → String → String → String → Store → Store × Outcome
unfolding check_email_code
verify_email_code w a challenge key code s =
    let email_key = w.hash (str_append challenge ":email") in
    check_email_code w a key email_key code (get_challenge email_key email_code w.now s) s

-- The `switch` of `verifyMFA`.
unfoldable pub by_method : World → Method → Admin → Request → String → Store → Store × Outcome
unfolding verify_factors verify_recovery verify_email_code
by_method w totp a req key s = verify_factors w a key req.code s
by_method w recovery a req key s = verify_recovery w a key req.code s
by_method w email a req key s = verify_email_code w a req.challenge key req.code s
by_method w unknown_method a req key s = (s, refused)

unfoldable pub with_admin : World → Option Admin → Request → String → Store → Store × Outcome
unfolding by_method
with_admin w none req key s = (delete_challenge key s, refused)
with_admin w (some a) req key s =
    if a.disabled then (delete_challenge key s, refused) else by_method w req.method a req key s

unfoldable pub with_challenge :
    World → Option Challenge → Request → String → Store → Store × Outcome
unfolding with_admin
with_challenge w none req key s = (s, refused)
with_challenge w (some c) req key s = with_admin w (get_admin c.admin_id s.admins) req key s

-- `verifyMFA`, which begins with `spendChallenge`, as one request that nothing interrupts; SecondFactor.Race
-- has its statements one by one.
unfoldable pub verify_mfa : World → Request → Store → Store × Outcome
unfolding with_challenge
verify_mfa w req s =
    if str_eq (trim_space req.challenge) ""
    then (s, refused)
    else let key = w.hash req.challenge in
      with_challenge w (get_challenge key login w.now s) req key s
