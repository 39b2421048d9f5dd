-- ===== src/RateLimit/Window.antt =====
-- The budget of a window, and the wait that a refusal announces.
use chiral.Prelude.{
  ℕ, suc, ◌+◌, ◌-◌, ◌*◌, ◌/◌, ◌≤◌, ◌<◌, min, ◌≡◌, ◌≢◌, inl, inr, refl, sym, ap, ◌∙◌, Bool, true,
  false, not, ◌||◌, String, List, [], ◌∷◌, Option, none, some, arith, ltb, leb, length, All,
  Bool-cases, le→ltb, le→leb, leb→le, leb→lt, lt→leb, lt→ltb,
}
use mathlib.Core.Bool.{false≢true}
use chiral.Prelude.Maps.{lookup, insert, size, lookup-insert_self, size-insert, size-insert_old}
use chiral.RateLimit.{
  Limit, Bucket, Limiter, second, retry_after, open_window, charge, allow_with, allow,
}
use chiral.RateLimit.Isolation.{verdict, told-allow, lookup-allow_room}

-- An attempt on the key that is watched, or on another key with a budget of its own.
pub data Attempt : Type 0 where
  mine : ℕ → Attempt
  other : String → Limit → ℕ → Attempt

abbrev pub one_if : Bool → ℕ
one_if true = 1
one_if false = 0

module _ (key : String) (lim : Limit) where
  -- The limiter after one attempt, and 1 if it was the watched key's and was allowed.
  abbrev pub attempt : Limiter → Attempt → Limiter × ℕ
  attempt l (mine now) = let (l', ok, wait) = allow l key lim now in (l', one_if ok)
  attempt l (other k lim' now) = let (l', ok, wait) = allow l k lim' now in (l', 0)

  -- How many of the watched key's attempts are allowed.
  pub allowed : Limiter → List Attempt → ℕ
  allowed l [] = 0
  allowed l (a ∷ rest) = (attempt l a).1 + allowed (attempt l a).0 rest

-- How many attempts are the watched key's.
abbrev pub mine_count : List Attempt → ℕ
mine_count [] = 0
mine_count (mine _ ∷ rest) = suc (mine_count rest)
mine_count (other _ _ _ ∷ rest) = mine_count rest

-- The attempt is no later than the window's end, or on another key.
abbrev pub InWindow : String → ℕ → Attempt → Type 0
InWindow key reset (mine now) = now ≤ reset
InWindow key reset (other k _ _) = k ≢ key

-- An attempt on a bucket that is still open: allowed while the count is below the budget.
allow_open :
    (l : Limiter) (key : String) (lim : Limit) (now : ℕ) (b : Bucket)
    → lookup key l.buckets ≡ some b
    → now ≤ b.reset
    → allow l key lim now ≡ charge l key lim now b
unfolding allow allow_with
allow_open l key lim now b h e = rw h (rw (le→ltb b.reset now e))

-- The bucket after an attempt that fits.
abbrev pub charged : Bucket → Bucket
charged b = record b { count = b.count + 1 }

refused_at_budget :
    (l : Limiter) (key : String) (lim : Limit) (now : ℕ) (b : Bucket)
    → lookup key l.buckets ≡ some b
    → now ≤ b.reset
    → lim.n ≤ b.count
    → allow l key lim now ≡ (l, false, b.reset - now)
unfolding charge
refused_at_budget l key lim now b h e full =
    allow_open l key lim now b h e ∙ rw (le→leb lim.n b.count full)

allow-charged :
    (l : Limiter) (key : String) (lim : Limit) (now : ℕ) (b : Bucket)
    → lookup key l.buckets ≡ some b
    → now ≤ b.reset
    → b.count < lim.n
    → allow l key lim now ≡ (record l { buckets = insert key (charged b) l.buckets }, true, 0)
unfolding charge
allow-charged l key lim now b h e fits =
    allow_open l key lim now b h e ∙ rw (lt→leb lim.n b.count fits)

size-allow_with :
    (o : Option Bucket) (l : Limiter) (key : String) (lim : Limit) (now : ℕ)
    → size l.buckets < l.max
    → (size (allow_with o l key lim now).0.buckets ≤ size l.buckets + 1)
      × ((allow_with o l key lim now).0.max ≡ l.max)
unfolding allow_with open_window charge
size-allow_with none l key lim now room =
    rw (lt→leb l.max _ room)
      (size-insert key (record { count = 1; reset = now + lim.window }) l.buckets, refl)
size-allow_with (some b) l key lim now room = rw (lt→leb l.max _ room) (
    ground (
      arith,
      size-insert key (record { count = 1; reset = now + lim.window }) l.buckets,
      size-insert key (charged b) l.buckets,
    ))

size-allow :
    (l : Limiter) (key : String) (lim : Limit) (now : ℕ)
    → size l.buckets < l.max
    → (size (allow l key lim now).0.buckets ≤ size l.buckets + 1)
      × ((allow l key lim now).0.max ≡ l.max)
unfolding allow
size-allow l key lim now room = size-allow_with (lookup key l.buckets) l key lim now room

-- Within one window, and while the map has room for every attempt, exactly as many of a key's
-- attempts are allowed as its bucket has left of the budget, or all of them if they are fewer,
-- however the attempts of other keys are mixed in.
pub allowed-eq-min :
    (key : String) (lim : Limit) (rest : List Attempt) (l : Limiter) (b : Bucket)
    → lookup key l.buckets ≡ some b
    → All (InWindow key b.reset) rest
    → size l.buckets + length rest ≤ l.max
    → allowed key lim l rest ≡ min (mine_count rest) (lim.n - b.count)
unfolding allowed
allowed-eq-min key lim [] l b h w room = omega arith
allowed-eq-min key lim (mine now ∷ rest) l b h (e, w) room = elim (Bool-cases (leb lim.n b.count)) [
  | inl full ↦
      rw (refused_at_budget l key lim now b h e (leb→le _ _ full))
        (ground (arith, allowed-eq-min key lim rest l b h w))
  | inr fits ↦
      let l' = record l { buckets = insert key (charged b) l.buckets } in
      rw (allow-charged l key lim now b h e (leb→lt _ _ fits)) (
        ground (
          arith,
          size-insert_old key (charged b) l.buckets (λ x. cc),
          allowed-eq-min key lim rest l' (charged b) (lookup-insert_self key (charged b) l.buckets)
              w,
        ))
]
allowed-eq-min key lim (other k lim' now ∷ rest) l b h (ne, w) room =
    let grown = size-allow l k lim' now (omega arith) in
    let kept = lookup-allow_room l key k lim' now (omega arith) ne in
    omega (
      arith,
      allowed-eq-min key lim rest (allow l k lim' now).0 b (kept ∙ h) w (omega (arith, grown)),
    )

-- A verdict that refuses names a wait after which the rounded-up seconds are past the window.
verdict_after :
    (o : Option Bucket) (lim lim' : Limit) (now : ℕ)
    → (verdict o lim now).0 ≡ false
    → (verdict o lim' (now + retry_after (verdict o lim now).1 * second)).0 ≡ true
verdict_after none lim lim' now h = cc
verdict_after (some b) lim lim' now h =
    elim (Bool-cases (ltb b.reset now || not (leb lim.n b.count))) [
      | inl e ↦ absurd (false≢true (sym (rw e at h)))
      | inr e ↦ rw e (rw (lt→ltb _ _ (later b.reset now)) refl)
    ]
  where
    later : (r t : ℕ) → r < t + ((r - t) / 1_000_000_000 + 1) * 1_000_000_000
    later r t = omega arith

ok-allow :
    (l : Limiter) (key : String) (lim : Limit) (now : ℕ)
    → (allow l key lim now).1 ≡ (verdict (lookup key l.buckets) lim now).0
ok-allow l key lim now = ap (λ t. t.0) (told-allow l key lim now)

wait-allow :
    (l : Limiter) (key : String) (lim : Limit) (now : ℕ)
    → (allow l key lim now).2 ≡ (verdict (lookup key l.buckets) lim now).1
wait-allow l key lim now = ap (λ t. t.1) (told-allow l key lim now)

refused_with :
    (o : Option Bucket) (l : Limiter) (key : String) (lim : Limit) (now : ℕ)
    → (allow_with o l key lim now).1 ≡ false
    → (allow_with o l key lim now).0 ≡ l
unfolding allow_with charge
refused_with none l key lim now h = cc
refused_with (some b) l key lim now h = ground arith

-- A refused attempt leaves the limiter as it was, so waiting the announced `Retry-After` seconds
-- is always enough: at that time the key is allowed again, with any budget.
pub allow_after_retry :
    (l : Limiter) (key : String) (lim lim' : Limit) (now : ℕ)
    → (allow l key lim now).1 ≡ false
    → ((allow l key lim now).0 ≡ l)
      × ((allow l key lim' (now + retry_after (allow l key lim now).2 * second)).1 ≡ true)
allow_after_retry l key lim lim' now h =
    let o = lookup key l.buckets in
    let refused = sym (ok-allow l key lim now) ∙ h in
    (
      unfold allow in refused_with o l key lim now h,
      ok-allow l key lim' (now + retry_after (allow l key lim now).2 * second)
          ∙ ap (λ w. (verdict o lim' (now + retry_after w * second)).0) (wait-allow l key lim now)
          ∙ verdict_after o lim lim' now refused,
    )
