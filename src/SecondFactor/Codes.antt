-- ===== src/SecondFactor/Codes.antt =====
-- The codes of `VerifyTOTP`, core/internal/auth/totp.go.
use chiral.Prelude.{
  ℕ, ◌+◌, ◌-◌, ◌/◌, ◌≤◌, ◌≡◌, refl, true, String, Option, none, some, arith, str_eq, eq_iff, any,
  inl, inr, Bool-cases,
}
use chiral.Prelude.Text.{codes, trim_space}
use chiral.SecondFactor.{byte_length, World, steps, totp_digits, verify_key, verify_totp}

-- The code is that of the present step or of one of the two beside it.
abbrev pub IsCodeAt : World → String → String → Type 0
IsCodeAt w key code = (c : ℕ) × (c ≤ w.now / 30 + 1) × (w.now / 30 ≤ c + 1) × (w.hotp key c ≡ code)

any-steps :
    (w : World) (key code : String) (n c : ℕ)
    → c ≤ n + 1
    → n ≤ c + 1
    → w.hotp key c ≡ code
    → any (λ c. str_eq (w.hotp key c) code) (steps n) ≡ true
any-steps w key code n c l m e = ground (arith, eq_iff (w.hotp key c) code)

steps-any :
    (w : World) (key code : String) (n : ℕ)
    → any (λ c. str_eq (w.hotp key c) code) (steps n) ≡ true
    → (c : ℕ) × (c ≤ n + 1) × (n ≤ c + 1) × (w.hotp key c ≡ code)
steps-any w key code n h = elim (Bool-cases (str_eq (w.hotp key (n + 1)) code)) [
  | inl e ↦ (n + 1, omega arith, omega arith, ground (arith, eq_iff (w.hotp key (n + 1)) code))
  | inr e ↦ elim (Bool-cases (str_eq (w.hotp key n) code)) [
    | inl e' ↦ (n, omega arith, omega arith, ground (arith, eq_iff (w.hotp key n) code))
    | inr e' ↦
        (n - 1, omega arith, omega arith, ground (arith, e, e', eq_iff (w.hotp key (n - 1)) code))
  ]
]

-- The secret is base32 text, and the code, trimmed, has six bytes and is its key's code at the
-- present step or beside it.
abbrev pub IsCode : World → String → String → Type 0
IsCode w secret asked =
    (key : String) × (w.decode secret ≡ some key)
    × (byte_length (codes (trim_space asked)) ≡ totp_digits)
    × IsCodeAt w key (trim_space asked)

verify_key-IsCodeAt :
    (w : World) (code : String) (o : Option String)
    → verify_key w code o ≡ true
    → (key : String) × (o ≡ some key) × IsCodeAt w key code
unfolding verify_key
verify_key-IsCodeAt w code none h = cc
verify_key-IsCodeAt w code (some key) h = (key, refl, steps-any w key code (w.now / 30) h)

-- A code is taken exactly if its secret yields it at the present step of thirty seconds or at one
-- of the two beside it.
pub verify_totp_iff :
    (w : World) (secret asked : String)
    → (verify_totp w secret asked ≡ true → IsCode w secret asked)
      × (IsCode w secret asked → verify_totp w secret asked ≡ true)
unfolding verify_totp verify_key
verify_totp_iff w secret asked = (
  λ h.
      (let n : byte_length (codes (trim_space asked)) ≡ totp_digits = ground arith in
        let (key, e, c) =
          verify_key-IsCodeAt w (trim_space asked) (w.decode secret) (ground (arith, n)) in
        (key, e, n, c)),
  λ (key, e, n, (c, l, m, q)).
      ground (arith, e, n, any-steps w key (trim_space asked) (w.now / 30) c l m q),
)
