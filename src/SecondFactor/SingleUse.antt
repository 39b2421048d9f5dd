-- ===== src/SecondFactor/SingleUse.antt =====
-- Challenges and recovery codes after a login: core/internal/api/mfa.go.
use chiral.Prelude.{
  ℕ, ◌≡◌, ◌≢◌, refl, sym, subst, false, String, List, [], ◌∷◌, Option, none, some, arith, eq_iff,
  any, inl, inr, Option-cases,
}
use chiral.Prelude.Maps.{lookup, delete, lookup-delete}
use chiral.SecondFactor.{
  login, Challenge, Admin, RecoveryCode, Store, World, get_challenge, delete_challenge, is_unused,
  spend_code, Method, totp, recovery, email, unknown_method, Request, Outcome, session, wrong,
  refused, get_admin, fail_challenge, verify_factors, verify_recovery, check_email_code,
  verify_email_code, by_method, with_admin, with_challenge, verify_mfa,
}

-- The outcome is no session, or the challenge is gone.
abbrev Consumes : String → Store × Outcome → Type 0
Consumes key (s, session id) = lookup key s.challenges ≡ none
Consumes key (s, _) = Unit

deleted : (key : String) (s : Store) → lookup key (delete key s.challenges) ≡ none
deleted key s = ground (arith, lookup-delete key key s.challenges, eq_iff key key)

fail_challenge-Consumes : (key j : String) (s : Store) → Consumes key (fail_challenge j s)
unfolding fail_challenge
fail_challenge-Consumes key j s = ground arith

module _ (w : World) (key : String) (s : Store) where
  verify_factors-Consumes :
      (a : Admin) (code : String) → Consumes key (verify_factors w a key code s)
  unfolding verify_factors
  verify_factors-Consumes a code = ground (arith, deleted key s, fail_challenge-Consumes key key s)

  verify_recovery-Consumes :
      (a : Admin) (code : String) → Consumes key (verify_recovery w a key code s)
  unfolding verify_recovery
  verify_recovery-Consumes a code = ground (arith, deleted key s, fail_challenge-Consumes key key s)

  check_email_code-Consumes :
      (a : Admin) (email_key code : String) (o : Option Challenge)
      → Consumes key (check_email_code w a key email_key code o s)
  unfolding check_email_code
  check_email_code-Consumes a email_key code none = tt
  check_email_code-Consumes a email_key code (some c) =
      ground
        (arith, deleted key (delete_challenge email_key s), fail_challenge-Consumes key email_key s)

  by_method-Consumes :
      (m : Method) (a : Admin) (req : Request) → Consumes key (by_method w m a req key s)
  unfolding by_method verify_email_code
  by_method-Consumes totp a req = verify_factors-Consumes a req.code
  by_method-Consumes recovery a req = verify_recovery-Consumes a req.code
  by_method-Consumes email a req = check_email_code-Consumes a _ req.code _
  by_method-Consumes unknown_method a req = tt

  with_challenge-Consumes :
      (o : Option Challenge) (req : Request) → Consumes key (with_challenge w o req key s)
  unfolding with_challenge with_admin
  with_challenge-Consumes none req = tt
  with_challenge-Consumes (some c) req = elim (Option-cases (get_admin c.admin_id s.admins)) [
    | inl e ↦ rw e tt
    | inr (a, e) ↦ rw e (ground (arith, by_method-Consumes req.method a req))
  ]

verify_mfa-Consumes :
    (w : World) (req : Request) (s : Store) → Consumes (w.hash req.challenge) (verify_mfa w req s)
unfolding verify_mfa
verify_mfa-Consumes w req s = ground (
  arith,
  with_challenge-Consumes w (w.hash req.challenge) s
      (get_challenge (w.hash req.challenge) login w.now s) req,
)

session-Consumes :
    (key id : String) (p : Store × Outcome)
    → Consumes key p
    → p.1 ≡ session id
    → lookup key p.0.challenges ≡ none
session-Consumes key id (s, session j) h e = h
session-Consumes key id (s, wrong j) h e = cc
session-Consumes key id (s, refused) h e = cc

verify_mfa-none :
    (w : World) (req : Request) (s : Store)
    → lookup (w.hash req.challenge) s.challenges ≡ none
    → verify_mfa w req s ≡ (s, refused)
unfolding verify_mfa with_challenge
verify_mfa-none w req s e = rw e (ground arith)

-- A login challenge that has led to a session is spent: a later request with the same token is
-- refused and changes nothing, whatever its method and code.
pub verify_mfa-verify_mfa :
    (w w' : World) (req req' : Request) (s : Store) (id : String)
    → (verify_mfa w req s).1 ≡ session id
    → w'.hash req'.challenge ≡ w.hash req.challenge
    → verify_mfa w' req' (verify_mfa w req s).0 ≡ ((verify_mfa w req s).0, refused)
verify_mfa-verify_mfa w w' req req' s id h e =
    let gone =
      session-Consumes (w.hash req.challenge) id (verify_mfa w req s) (verify_mfa-Consumes w req s)
        h in
    verify_mfa-none w' req' (verify_mfa w req s).0
      (subst (λ k. lookup k (verify_mfa w req s).0.challenges ≡ none) (sym e) gone)

-- A recovery code that has been spent is no unused code any more.
any_unused-spend_code :
    (admin_id h : String) (now : ℕ) (rs : List RecoveryCode)
    → now ≢ 0
    → any (is_unused admin_id h) (spend_code admin_id h now rs) ≡ false
unfolding spend_code
any_unused-spend_code admin_id h now [] n = refl
any_unused-spend_code admin_id h now (r ∷ rs) n =
    ground (arith, n, any_unused-spend_code admin_id h now rs n)

-- A recovery code lets its admin in once: after it has, at a time that is not the epoch, the same
-- code is wrong for the same admin under every challenge.
pub verify_recovery-verify_recovery :
    (w w' : World) (a : Admin) (key key' code code' id : String) (s : Store)
    → w.now ≢ 0
    → (verify_recovery w a key code s).1 ≡ session id
    → w'.recovery_hash code' ≡ w.recovery_hash code
    → (verify_recovery w' a key' code' (verify_recovery w a key code s).0).1 ≡ wrong key'
unfolding verify_recovery fail_challenge
verify_recovery-verify_recovery w w' a key key' code code' id s n h e =
    ground (arith, any_unused-spend_code a.id (w.recovery_hash code) w.now s.recovery_codes n)
