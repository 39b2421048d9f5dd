-- ===== src/SecondFactor/Race/Alone.antt =====
-- A request of `verifyMFA` that nothing interrupts, core/internal/api/mfa.go.
use Prim.Native.String.{◌++◌ as str_append}
use chiral.Prelude.{
  ℕ, zero, suc, ◌≡◌, ◌∙◌, refl, Bool, true, false, String, List, [], ◌∷◌, Option, none, some, inl,
  inr, if◌then◌else◌, str_eq, Bool-cases,
}
use chiral.Prelude.Maps.{lookup}
use chiral.Prelude.Text.{trim_space}
use chiral.SecondFactor.{
  Challenge, Admin, Store, World, login, email_code, get_challenge, get_admin, delete_challenge,
  bumped, is_exhausted, spend_code, Method, totp, recovery, email, unknown_method, Request, Outcome,
  session, wrong, refused, fail_challenge, verify_factors, verify_recovery, check_email_code,
  verify_email_code, by_method, with_admin, with_challenge, verify_mfa,
}
use chiral.SecondFactor.Race
use chiral.SecondFactor.Race.{
  Thread, admitted, burning, ending, failing, Event, Ask, code, Moved, admit, admit_challenge,
  admit_admin, statement, answer_code, answer_email, answered,
}

-- The next statements of a thread, up to four, as nothing comes between them.
unfoldable pub run_out : World → ℕ → Moved → Store
unfolding statement
run_out w zero (s, o, es) = s
run_out w (suc k) (s, none, es) = s
run_out w (suc k) (s, some t, es) = run_out w k (statement w t s)

abbrev pub alone : World → Request → Store → Store
alone w req s = run_out w 4 (s, admit w req.challenge (code req.method req.code) s, [])

module _ (w : World) where
  raised-fail_challenge :
      (full : Bool) (key : String) (s : Store)
      → run_out w 1 (s, if full then some (burning key) else none, [])
        ≡ (if full then delete_challenge key s else s)
  unfolding run_out statement
  raised-fail_challenge true key s = refl
  raised-fail_challenge false key s = refl

  if_pair :
      (b : Bool) (x y : Store) (o : Outcome)
      → (if b then x else y) ≡ (if◌then◌else◌ {A = Store × Outcome} b (x, o) (y, o)).0
  if_pair true x y o = refl
  if_pair false x y o = refl

  run_out_step :
      (k : ℕ) (t : Thread) (s : Store) (es : List Event)
      → run_out w (suc k) (s, some t, es) ≡ run_out w k (statement w t s)
  unfolding run_out
  run_out_step k t s es = refl

  failing-fail_challenge :
      (key : String) (s : Store) (es : List Event)
      → run_out w 3 (s, some (failing key), es) ≡ (fail_challenge key s).0
  unfolding run_out statement fail_challenge
  failing-fail_challenge key s es =
      let s' = record s { challenges = bumped key s.challenges } in
      let full = is_exhausted (lookup key s'.challenges) in
      run_out_step 2 (failing key) s es
      ∙ raised-fail_challenge full key s'
      ∙ if_pair full (delete_challenge key s') s' (wrong key)

  answered-alone :
      (right : Bool) (key : String) (spent : List String) (right_s s done : Store) (o : Outcome)
      → run_out w 3 (right_s, some (ending spent), []) ≡ done
      → run_out w 3 (answered right key spent right_s s)
        ≡ (if right then (done, o) else fail_challenge key s).0
  answered-alone true key spent right_s s done o h = h
  answered-alone false key spent right_s s done o h =
      failing-fail_challenge key s (Race.wrong key ∷ [])

  answer_email-alone :
      (a : Admin) (key email_key text : String) (c : Option Challenge) (s : Store)
      → run_out w 3 (answer_email w key email_key text c s)
        ≡ (check_email_code w a key email_key text c s).0
  unfolding check_email_code run_out statement
  answer_email-alone a key email_key text none s = refl
  answer_email-alone a key email_key text (some c) s =
      answered-alone (str_eq c.data_hash (w.hash (trim_space text))) email_key
        (email_key ∷ key ∷ []) s s (delete_challenge key (delete_challenge email_key s))
        (session a.id) refl

  answer_code-alone :
      (a : Admin) (req : Request) (key : String) (m : Method) (s : Store)
      → run_out w 3 (answer_code w a req.challenge key m req.code s) ≡ (by_method w m a req key s).0
  unfolding by_method verify_factors verify_recovery verify_email_code run_out statement
  answer_code-alone a req key totp s =
      answered-alone _ key (key ∷ []) s s (delete_challenge key s) (session a.id) refl
  answer_code-alone a req key recovery s =
      let spent = record s {
        recovery_codes = spend_code a.id (w.recovery_hash req.code) w.now s.recovery_codes;
      } in
      answered-alone _ key (key ∷ []) spent s (delete_challenge key spent) (session a.id) refl
  answer_code-alone a req key email s =
      let email_key = w.hash (str_append req.challenge ":email") in
      answer_email-alone a key email_key req.code (get_challenge email_key email_code w.now s) s
  answer_code-alone a req key unknown_method s = refl

  admit_admin-alone :
      (a : Option Admin) (req : Request) (key : String) (s : Store)
      → run_out w 4 (s, admit_admin a req.challenge key (code req.method req.code), [])
        ≡ (with_admin w a req key s).0
  unfolding with_admin run_out statement
  admit_admin-alone none req key s = refl
  admit_admin-alone (some a) req key s = on_disabled a.disabled
    where
      on_disabled :
          (b : Bool)
          → run_out w 4 (
            s,
            some (
                if b
                then ending (key ∷ [])
                else admitted a req.challenge key (code req.method req.code)),
            [],
          )
            ≡ (if b
                then (delete_challenge key s, refused)
                else by_method w req.method a req key s).0
      on_disabled true = refl
      on_disabled false = answer_code-alone a req key req.method s

  admit_challenge-alone :
      (c : Option Challenge) (req : Request) (key : String) (s : Store)
      → run_out w 4 (s, admit_challenge s.admins c req.challenge key (code req.method req.code), [])
        ≡ (with_challenge w c req key s).0
  unfolding with_challenge run_out
  admit_challenge-alone none req key s = refl
  admit_challenge-alone (some c) req key s =
      admit_admin-alone (get_admin c.admin_id s.admins) req key s

  -- With nothing in between, the statements of a request leave the tables that `verify_mfa` leaves.
  pub alone-verify_mfa : (req : Request) (s : Store) → alone w req s ≡ (verify_mfa w req s).0
  unfolding admit verify_mfa run_out
  alone-verify_mfa req s = elim (Bool-cases (str_eq (trim_space req.challenge) "")) [
    | inl e ↦ rw e refl
    | inr e ↦ rw e (
        admit_challenge-alone (get_challenge (w.hash req.challenge) login w.now s) req
          (w.hash req.challenge) s)
  ]
