-- ===== src/SecondFactor/Race.antt =====
-- Second steps of a login that run at once: verifyMFA, sendEmailCode and finishPasskeyLogin of
-- core/internal/api/mfa.go, statement by statement. The database takes one statement at a time and
-- no transaction spans two of them, so a request is a thread that the others may interrupt between any
-- two statements; the table of admins stays as it is. A statement that fails is not modelled.
pub mod Counts
pub mod Judged
pub mod Moves
pub mod Budget
pub mod Alone
use Prim.Native.String.{◌++◌ as str_append}
use chiral.Prelude.{
  ℕ, zero, suc, ◌+◌, Bool, true, false, not, ◌&&◌, String, List, [], ◌∷◌, ◌++◌, Option, none, some,
  ltb, if◌then◌else◌, str_eq, any, length,
}
use chiral.Prelude.Text.{trim_space}
use chiral.SecondFactor.{
  Purpose, login, email_code, Challenge, Admin, Store, World, get_challenge, delete_challenge,
  create_challenge, bumped, is_exhausted, is_unused, spend_code, verify_totp, Method, totp,
  recovery, email, unknown_method, get_admin,
}
use chiral.Prelude.Maps.{lookup, delete}

-- What a request brings: a code for `verifyMFA`; for `finishPasskeyLogin`, whether a passkey challenge
-- is pending and whether the library accepts the assertion; for `sendEmailCode`, the hash of the code
-- that is drawn, where the address and the mailer allow one.
pub data Ask : Type 0 where
  code : Method → String → Ask
  passkey : Bool → Bool → Ask
  send_email : String → Ask

-- Where a request stands: past `spendChallenge`; about to count a wrong answer, after a passkey once the
-- passkey's challenge is removed; between the two statements of `BumpChallengeAttempts`; about to
-- delete an exhausted challenge; and about to delete the challenges that a session was issued for.
pub data Thread : Type 0 where
  admitted : Admin → String → String → Ask → Thread
  refusing : String → String → Thread
  failing : String → Thread
  raised : String → Thread
  burning : String → Thread
  ending : List String → Thread

-- What is worth remembering: an answer against a challenge was wrong, or a challenge was issued.
pub data Event : Type 0 where
  wrong : String → Event
  issued : String → Event

abbrev pub admit_admin : Option Admin → String → String → Ask → Option Thread
admit_admin none challenge key ask = some (ending (key ∷ []))
admit_admin (some a) challenge key ask =
    some (if a.disabled then ending (key ∷ []) else admitted a challenge key ask)

abbrev pub admit_challenge : List Admin → Option Challenge → String → String → Ask → Option Thread
admit_challenge admins none challenge key ask = none
admit_challenge admins (some c) challenge key ask =
    admit_admin (get_admin c.admin_id admins) challenge key ask

-- `spendChallenge`, which does not look at the attempts.
unfoldable pub admit : World → String → Ask → Store → Option Thread
admit w challenge ask s =
    let key = w.hash challenge in
    if str_eq (trim_space challenge) ""
    then none
    else admit_challenge s.admins (get_challenge key login w.now s) challenge key ask

-- What a statement makes of the tables, of its thread, and what is to be remembered.
abbrev pub Moved : Type 0
Moved = Store × Option Thread × List Event

abbrev pub answered : Bool → String → List String → Store → Store → Moved
answered right key spent right_s s =
    if right then (right_s, some (ending spent), []) else (s, some (failing key), wrong key ∷ [])

abbrev pub answer_email : World → String → String → String → Option Challenge → Store → Moved
answer_email w key email_key text none s = (s, none, [])
answer_email w key email_key text (some c) s =
    answered (str_eq c.data_hash (w.hash (trim_space text))) email_key (email_key ∷ key ∷ []) s s

abbrev pub answer_code : World → Admin → String → String → Method → String → Store → Moved
answer_code w a challenge key totp text s =
    answered
      (any (λ f. str_eq f.admin_id a.id && f.confirmed && f.is_totp && verify_totp w f.secret text)
        s.factors)
      key (key ∷ []) s s
answer_code w a challenge key recovery text s =
    let h = w.recovery_hash text in
    answered (any (is_unused a.id h) s.recovery_codes) key (key ∷ [])
      (record s { recovery_codes = spend_code a.id h w.now s.recovery_codes }) s
answer_code w a challenge key email text s =
    let email_key = w.hash (str_append challenge ":email") in
    answer_email w key email_key text (get_challenge email_key email_code w.now s) s
answer_code w a challenge key unknown_method text s = (s, none, [])

-- `EmailCodeTTL`, in seconds.
abbrev pub email_code_ttl : ℕ
email_code_ttl = 900

-- `finishPasskeyLogin`
abbrev pub answer_passkey : World → String → String → Bool → Bool → Store → Moved
answer_passkey w challenge key false accepted s = (s, none, [])
answer_passkey w challenge key true false s =
    (s, some (refusing (w.hash (str_append challenge ":webauthn")) key), wrong key ∷ [])
answer_passkey w challenge key true true s =
    (s, some (ending (w.hash (str_append challenge ":webauthn") ∷ key ∷ [])), [])

-- `sendEmailCode`, which stores the code that it sends.
abbrev pub store_email_code : World → Admin → String → String → Store → Moved
store_email_code w a challenge data_hash s =
    let email_key = w.hash (str_append challenge ":email") in
    (
      create_challenge email_key a.id email_code data_hash w.now email_code_ttl s,
      none,
      issued email_key ∷ [],
    )

abbrev pub answer : World → Admin → String → String → Ask → Store → Moved
answer w a challenge key (code method text) s = answer_code w a challenge key method text s
answer w a challenge key (passkey pending accepted) s =
    answer_passkey w challenge key pending accepted s
answer w a challenge key (send_email data_hash) s = store_email_code w a challenge data_hash s

-- The next statement of a thread, with what the code does before the one after it.
unfoldable pub statement : World → Thread → Store → Moved
statement w (admitted a challenge key ask) s = answer w a challenge key ask s
statement w (refusing wa_key key) s = (delete_challenge wa_key s, some (failing key), [])
statement w (failing key) s =
    (record s { challenges = bumped key s.challenges }, some (raised key), [])
statement w (raised key) s =
    (s, if is_exhausted (lookup key s.challenges) then some (burning key) else none, [])
statement w (burning key) s = (delete_challenge key s, none, [])
statement w (ending []) s = (s, none, [])
statement w (ending (key ∷ keys)) s = (delete_challenge key s, some (ending keys), [])

-- The panel, with the requests in flight and what happened, the newest first.
pub record Panel : Type 0 where
  pub store : Store
  pub threads : List Thread
  pub log : List Event

abbrev pub thread_at : ℕ → List Thread → Option Thread
thread_at i [] = none
thread_at zero (t ∷ ts) = some t
thread_at (suc i) (t ∷ ts) = thread_at i ts

abbrev pub put_thread : ℕ → Option Thread → List Thread → List Thread
put_thread i o [] = []
put_thread zero none (t ∷ ts) = ts
put_thread zero (some u) (t ∷ ts) = u ∷ ts
put_thread (suc i) o (t ∷ ts) = t ∷ put_thread i o ts

-- What happens next: a request begins, a thread goes on, `startMFA` or another handler issues a
-- challenge, or a challenge is deleted, when it is pruned or for another reason.
pub data Happening : Type 0 where
  begins : World → String → Ask → Happening
  goes_on : World → ℕ → Happening
  issues : World → String → String → Purpose → String → ℕ → Happening
  drops : String → Happening

abbrev pub joined : Panel → Option Thread → Panel
joined p none = p
joined p (some t) = record p { threads = t ∷ p.threads }

abbrev pub after_statement : Panel → ℕ → Moved → Panel
after_statement p i (s, o, es) = record {
  store = s;
  threads = put_thread i o p.threads;
  log = es ++ p.log;
}

abbrev pub go_on : World → ℕ → Panel → Option Thread → Panel
go_on w i p none = p
go_on w i p (some t) = after_statement p i (statement w t p.store)

-- One happening, where no more than `n` requests are in flight at once.
unfoldable pub happen : ℕ → Happening → Panel → Panel
unfolding admit statement create_challenge
happen n (begins w challenge ask) p =
    if ltb (length p.threads) n then joined p (admit w challenge ask p.store) else p
happen n (goes_on w i) p = go_on w i p (thread_at i p.threads)
happen n (issues w key admin_id purpose data_hash ttl) p = record p {
  store = create_challenge key admin_id purpose data_hash w.now ttl p.store;
  log = issued key ∷ p.log;
}
happen n (drops key) p = record p { store = delete_challenge key p.store }

unfoldable pub happen_all : ℕ → List Happening → Panel → Panel
unfolding happen
happen_all n [] p = p
happen_all n (h ∷ hs) p = happen_all n hs (happen n h p)

-- The wrong answers against a challenge since it was last issued.
unfoldable pub heard : String → List Event → ℕ
heard key [] = 0
heard key (wrong k ∷ log) = (if str_eq k key then 1 else 0) + heard key log
heard key (issued k ∷ log) = let rest = heard key log in if str_eq k key then 0 else rest
