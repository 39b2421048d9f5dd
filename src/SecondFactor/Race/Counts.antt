-- ===== src/SecondFactor/Race/Counts.antt =====
-- The threads that count for a challenge, core/internal/api/mfa.go.
use chiral.Prelude.{
  ℕ, zero, suc, ◌+◌, ◌≤◌, ◌≡◌, Bool, true, false, String, List, [], ◌∷◌, Option, none, some, arith,
  if◌then◌else◌, str_eq, length,
}
use chiral.SecondFactor.Race.{
  Thread, admitted, refusing, failing, raised, burning, ending, thread_at, put_thread,
}

abbrev pub one : Bool → ℕ
one b = if b then 1 else 0

-- Threads that may yet hear a wrong answer, that heard one and have not raised the attempts for it,
-- and that raised them and have not done with the challenge.
abbrev pub is_open : String → Thread → ℕ
is_open key (admitted a challenge k ask) = one (str_eq k key)
is_open key _ = 0

abbrev pub is_failing : String → Thread → ℕ
is_failing key (refusing wa_key k) = one (str_eq k key)
is_failing key (failing k) = one (str_eq k key)
is_failing key _ = 0

abbrev pub is_counted : String → Thread → ℕ
is_counted key (raised k) = one (str_eq k key)
is_counted key (burning k) = one (str_eq k key)
is_counted key _ = 0

unfoldable pub total : (Thread → ℕ) → List Thread → ℕ
total f [] = 0
total f (t ∷ ts) = f t + total f ts

abbrev pub of_option : (Thread → ℕ) → Option Thread → ℕ
of_option f none = 0
of_option f (some t) = f t

pub total-put_thread :
    (f : Thread → ℕ) (i : ℕ) (o : Option Thread) (ts : List Thread) {t : Thread}
    → thread_at i ts ≡ some t
    → total f (put_thread i o ts) + f t ≡ total f ts + of_option f o
unfolding total
total-put_thread f i o [] h = cc
total-put_thread f zero none (u ∷ ts) h = ground (arith, h)
total-put_thread f zero (some v) (u ∷ ts) h = ground (arith, h)
total-put_thread f (suc i) o (u ∷ ts) {t} h = omega (arith, total-put_thread f i o ts {t = t} h)

pub length-put_thread :
    (i : ℕ) (o : Option Thread) (ts : List Thread) → length (put_thread i o ts) ≤ length ts
length-put_thread i o [] = omega arith
length-put_thread zero none (u ∷ ts) = omega arith
length-put_thread zero (some v) (u ∷ ts) = omega arith
length-put_thread (suc i) o (u ∷ ts) = omega (arith, length-put_thread i o ts)

one_most : (b : Bool) → one b ≤ 1
one_most true = omega arith
one_most false = omega arith

counts_most : (key : String) (t : Thread) → is_failing key t + is_counted key t + is_open key t ≤ 1
counts_most key (admitted a challenge k ask) = omega (arith, one_most (str_eq k key))
counts_most key (refusing wa_key k) = omega (arith, one_most (str_eq k key))
counts_most key (failing k) = omega (arith, one_most (str_eq k key))
counts_most key (raised k) = omega (arith, one_most (str_eq k key))
counts_most key (burning k) = omega (arith, one_most (str_eq k key))
counts_most key (ending keys) = omega arith

-- No thread counts twice.
pub totals_most :
    (key : String) (ts : List Thread)
    → total (is_failing key) ts + total (is_counted key) ts + total (is_open key) ts ≤ length ts
unfolding total
totals_most key [] = omega arith
totals_most key (t ∷ ts) = omega (arith, counts_most key t, totals_most key ts)
