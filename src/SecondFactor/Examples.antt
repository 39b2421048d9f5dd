-- ===== src/SecondFactor/Examples.antt =====
-- A second step on concrete inputs.
use chiral.Prelude.{◌≡◌, ◌≤◌, ◌+◌, ◌++◌, refl, true, false, String, List, [], ◌∷◌, some, arith}
use chiral.Prelude.Text.{trim_space}
use chiral.SecondFactor.{
  login, Store, World, create_challenge, totp, Request, session, wrong, refused, fail_challenge,
  verify_factors, verify_recovery, verify_key, verify_totp, by_method, with_admin, with_challenge,
  verify_mfa,
}
use chiral.SecondFactor.Codes.{IsCode, verify_totp_iff}
use chiral.SecondFactor.Race
use chiral.SecondFactor.Race.{
  Ask, Happening, begins, goes_on, admit, statement, happen, happen_all, heard,
}
use chiral.SecondFactor.Race.Budget.{NoneExhausted, idle, heard_few}
use chiral.SecondFactor.SingleUse.{verify_mfa-verify_mfa, verify_recovery-verify_recovery}

abbrev world : World
world = record {
  hash = λ t. t;
  recovery_hash = λ t. t;
  hotp = λ key n. "123456";
  decode = λ t. some t;
  now = 100;
}

abbrev store : Store
store = record {
  admins = record { id = "a"; disabled = false } ∷ [];
  factors =
      record { id = "f"; admin_id = "a"; is_totp = true; secret = "k"; confirmed = true } ∷ [];
  recovery_codes = record { admin_id = "a"; code_hash = "r"; used_at = 0 } ∷ [];
  challenges = [];
}

abbrev begun : Store
begun = create_challenge "c" "a" login "" 90 300 store

abbrev code : String → Request
code t = record { challenge = "c"; method = totp; code = t }

taken : verify_totp world "k" " 123456 " ≡ true
unfolding verify_totp verify_key trim_space
taken = refl

enters : (verify_mfa world (code "123456") begun).1 ≡ session "a"
unfolding verify_mfa with_challenge with_admin by_method verify_factors verify_totp verify_key
    trim_space create_challenge
enters = refl

one_counted : (verify_mfa world (code "654321") begun).1 ≡ wrong "c"
unfolding verify_mfa with_challenge with_admin by_method verify_factors fail_challenge verify_totp
    verify_key trim_space create_challenge
one_counted = refl

verify_totp_iff_example :
    (verify_totp world "k" "123456" ≡ true → IsCode world "k" "123456")
    × (IsCode world "k" "123456" → verify_totp world "k" "123456" ≡ true)
verify_totp_iff_example = verify_totp_iff world "k" "123456"

none_exhausted : NoneExhausted begun
unfolding create_challenge
none_exhausted key = ground arith

-- One wrong code from its request to the second statement of its count, four times; then two requests
-- that both read the challenge before either counts.
abbrev guess : Ask
guess = Race.code totp "1"

abbrev once : List Happening
once = begins world "c" guess ∷ goes_on world 0 ∷ goes_on world 0 ∷ goes_on world 0 ∷ []

abbrev at_once : List Happening
at_once =
    once
    ++ (once
        ++ (once
            ++ (once
                ++ (begins world "c" guess
                    ∷ begins world "c" guess
                    ∷ goes_on world 0
                    ∷ goes_on world 1
                    ∷ []))))

six_heard : heard "c" (happen_all 2 at_once (idle begun)).log ≡ 6
unfolding happen_all happen admit statement heard create_challenge verify_totp verify_key trim_space
six_heard = refl

heard_few_example : heard "c" (happen_all 2 at_once (idle begun)).log ≤ 4 + 2
heard_few_example = heard_few 2 "c" at_once begun none_exhausted

verify_mfa-verify_mfa_example :
    verify_mfa world (code "123456") (verify_mfa world (code "123456") begun).0
    ≡ ((verify_mfa world (code "123456") begun).0, refused)
verify_mfa-verify_mfa_example =
    verify_mfa-verify_mfa world world (code "123456") (code "123456") begun "a" enters refl

recovers :
    (verify_recovery world (record { id = "a"; disabled = false }) "c" "r" begun).1 ≡ session "a"
unfolding verify_recovery create_challenge
recovers = refl

verify_recovery-verify_recovery_example :
    (verify_recovery world
      (record { id = "a"; disabled = false })
      "d"
      "r"
      (verify_recovery world (record { id = "a"; disabled = false }) "c" "r" begun).0).1
    ≡ wrong "d"
verify_recovery-verify_recovery_example =
    verify_recovery-verify_recovery world world (record { id = "a"; disabled = false }) "c" "d" "r"
      "r" "a" begun (λ e. cc) recovers refl
