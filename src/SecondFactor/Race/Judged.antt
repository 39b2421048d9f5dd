-- ===== src/SecondFactor/Race/Judged.antt =====
-- What one statement of core/internal/api/mfa.go does to the row of a challenge, against the requests
-- that count for it.
use chiral.Prelude.{
  ℕ, ◌+◌, ◌≤◌, ◌≡◌, ◌≢◌, refl, subst, Bool, true, false, String, [], ◌∷◌, Option, none, some, arith,
  if◌then◌else◌, str_eq, eq_iff,
}
use chiral.Prelude.Maps.{Map, lookup}
use chiral.SecondFactor.{Challenge, bumped, is_exhausted}
use chiral.SecondFactor.Race.Counts.{one}

-- At most `n` requests are in flight; of a challenge with this row, `h` wrong answers were heard, and
-- `f`, `l` and `j` threads are failing, raised and open.
abbrev pub Fine : ℕ → Option Challenge → ℕ → ℕ → ℕ → ℕ → Type 0
Fine n none h f l j = h + j ≤ 4 + n
Fine n (some c) h f l j = (h ≤ c.attempts + f) × (c.attempts ≤ 4 + l)

pub Fine-heard :
    (n : ℕ) (o : Option Challenge) (h f l j : ℕ) → f + l + j ≤ n → Fine n o h f l j → h + j ≤ 4 + n
Fine-heard n none h f l j b x = x
Fine-heard n (some c) h f l j b (x, y) = omega (arith, x, y, b)

abbrev pub bump : Option Challenge → Option Challenge
bump none = none
bump (some c) = some (record c { attempts = c.attempts + 1 })

pub lookup-bumped :
    (key j : String) (m : Map Challenge)
    → lookup key (bumped j m) ≡ (if str_eq j key then bump (lookup key m) else lookup key m)
lookup-bumped key j [] = ground arith
lookup-bumped key j ((i, c) ∷ m) =
    ground (arith, eq_iff i j, eq_iff i key, eq_iff j key, lookup-bumped key j m)

-- A row that is deleted, and the ways of a thread's weight.
pub deleted-Fine :
    (b : Bool) (n : ℕ) (o : Option Challenge) (h f l j l' : ℕ)
    → f + l + j ≤ n
    → (b ≡ false → l ≡ l')
    → Fine n o h f l j
    → Fine n (if b then none else o) h f l' j
deleted-Fine true n o h f l j l' b e x = Fine-heard n o h f l j b x
deleted-Fine false n o h f l j l' b e x = subst (λ k. Fine n o h f k j) (e refl) x

pub bumped-Fine :
    (b : Bool) (n : ℕ) (o : Option Challenge) (h f l j f' l' : ℕ)
    → f' + one b ≡ f
    → l' ≡ l + one b
    → Fine n o h f l j
    → Fine n (if b then bump o else o) h f' l' j
bumped-Fine true n none h f l j f' l' d e x = omega (arith, x)
bumped-Fine true n (some c) h f l j f' l' d e (x, y) = (omega (arith, d, x), omega (arith, e, y))
bumped-Fine false n none h f l j f' l' d e x = omega (arith, x)
bumped-Fine false n (some c) h f l j f' l' d e (x, y) = (omega (arith, d, x), omega (arith, e, y))

-- The thread leaves the raised ones, as it found the row short of the limit.
pub spared-Fine :
    (b : Bool) (n : ℕ) (o : Option Challenge) (h f l j l' : ℕ)
    → (b ≡ true → is_exhausted o ≡ false)
    → l' + one b ≡ l
    → Fine n o h f l j
    → Fine n o h f l' j
spared-Fine b n none h f l j l' q e x = x
spared-Fine true n (some c) h f l j l' q e (x, y) = (x, ground (arith, q refl))
spared-Fine false n (some c) h f l j l' q e (x, y) = (x, omega (arith, e, y))

-- A wrong answer against the row, which a thread makes that was open for it if `d`.
pub heard-Fine :
    (b d : Bool) (n : ℕ) (o : Option Challenge) (h f l j f' l' j' : ℕ)
    → (b ≡ true → d ≡ false → o ≢ none)
    → f' ≡ f + one b
    → l ≡ l'
    → j' + one d ≡ j
    → Fine n o h f l j
    → Fine n o (one b + h) f' l' j'
heard-Fine true true n none h f l j f' l' j' q e m k x = omega (arith, k, x)
heard-Fine true false n none h f l j f' l' j' q e m k x = absurd (q refl refl refl)
heard-Fine false d n none h f l j f' l' j' q e m k x = omega (arith, k, x)
heard-Fine b d n (some c) h f l j f' l' j' q e m k (x, y) =
    (omega (arith, e, x), omega (arith, m, y))

pub issued-Fine :
    (b : Bool) (n : ℕ) (c : Challenge) (o : Option Challenge) (h f l j : ℕ)
    → c.attempts ≡ 0
    → Fine n o h f l j
    → Fine n (if b then some c else o) (if b then 0 else h) f l j
issued-Fine true n c o h f l j a x = (omega arith, omega (arith, a))
issued-Fine false n c o h f l j a x = x

pub recounted :
    (n : ℕ) (o : Option Challenge) (h f l j f' l' j' : ℕ)
    → f ≡ f'
    → l ≡ l'
    → j' ≤ j
    → Fine n o h f l j
    → Fine n o h f' l' j'
recounted n none h f l j f' l' j' a b c x = omega (arith, c, x)
recounted n (some r) h f l j f' l' j' a b c (x, y) = (omega (arith, a, x), omega (arith, b, y))
