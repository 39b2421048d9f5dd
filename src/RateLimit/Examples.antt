-- ===== src/RateLimit/Examples.antt =====
-- The limiter on concrete inputs: the tests, and an instance of each theorem.
use chiral.Prelude.{◌+◌, ◌-◌, ◌*◌, ◌≡◌, min, refl, true, false, List, [], ◌∷◌, arith, str_ne}
use chiral.Prelude.Maps.{lookup}
use chiral.RateLimit.{
  Limiter, handled, too_many, second, minute, retry_after, limit_register, limit_login, allow,
  throttle, evict,
}
use chiral.RateLimit.Bounds.{IsBounded, allow-IsBounded}
use chiral.RateLimit.Isolation.{SameOrGone, allow-SameOrGone}
use chiral.RateLimit.Window.{
  Attempt, mine, other, allowed, mine_count, allowed-eq-min, allow_after_retry,
}

-- Three registrations from one address, and one login from another.
abbrev busy : Limiter
busy = record {
  buckets =
      ("register|a", record { count = 3; reset = 60 * minute })
      ∷ ("login|b", record { count = 1; reset = 5 * minute })
      ∷ [];
  max = 3;
}

abbrev full : Limiter
full = record busy { max = 2 }

throttle_refuses : (throttle "register" limit_register "a" minute busy).1 ≡ too_many 3541
unfolding throttle
throttle_refuses = refl

throttle_handles : (throttle "login" limit_login "b" minute busy).1 ≡ handled
unfolding throttle
throttle_handles = refl

-- In a full map the bucket nearest to its reset makes room.
evicts :
    (allow full "claim|c" limit_login minute).0.buckets
    ≡ ("register|a", record { count = 3; reset = 60 * minute })
      ∷ ("claim|c", record { count = 1; reset = 6 * minute })
      ∷ []
unfolding allow evict
evicts = refl

full-IsBounded : IsBounded full
full-IsBounded = record { keys = (refl, (refl, tt)); room = omega arith; fits = omega arith }

allow-IsBounded_example : IsBounded (allow full "claim|c" limit_login minute).0
allow-IsBounded_example = allow-IsBounded full "claim|c" limit_login minute full-IsBounded

-- Two logins of one address and a registration of another.
abbrev attempts : List Attempt
attempts = mine 7 ∷ other "register|a" limit_register 8 ∷ mine 9 ∷ []

abbrev roomy : Limiter
roomy = record busy { max = 9 }

allowed-eq-min_example :
    allowed "login|b" limit_login roomy attempts ≡ min (mine_count attempts) (10 - 1)
allowed-eq-min_example =
    allowed-eq-min "login|b" limit_login attempts roomy (record { count = 1; reset = 5 * minute })
      refl (omega arith, (str_ne "register|a" "login|b" refl, (omega arith, tt))) (omega arith)

refuses : (allow busy "register|a" limit_register minute).1 ≡ false
unfolding allow
refuses = refl

allow_after_retry_example :
    ((allow busy "register|a" limit_register minute).0 ≡ busy)
    × ((allow busy "register|a" limit_register
          (minute + retry_after (allow busy "register|a" limit_register minute).2 * second)).1
        ≡ true)
allow_after_retry_example =
    allow_after_retry busy "register|a" limit_register limit_register minute refuses

allow-SameOrGone_example :
    SameOrGone
      (lookup "login|b" full.buckets)
      (lookup "login|b" (allow full "claim|c" limit_login minute).0.buckets)
allow-SameOrGone_example =
    allow-SameOrGone full "login|b" "claim|c" limit_login minute (refl, (refl, tt))
      (str_ne "claim|c" "login|b" refl)
