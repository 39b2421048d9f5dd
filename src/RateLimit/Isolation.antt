-- ===== src/RateLimit/Isolation.antt =====
-- What an attempt on one key does to the others, and what the sweep's `prune` changes.
use chiral.Prelude.{
  ℕ, ◌+◌, ◌-◌, ◌||◌, ◌≤◌, ◌<◌, ◌≡◌, ◌≢◌, ◌⊎◌, inl, inr, refl, Bool, true, false, not, String,
  Option, none, some, arith, ltb, leb, Bool-cases, if◌then◌else◌, lt→leb, ap, sym, ◌∙◌,
}
use chiral.Prelude.Maps.{
  Map, lookup, size, IsMap, lookup-insert_ne, lookup-delete, lookup-retain, keep_if,
}
use chiral.RateLimit.{
  Limit, Bucket, Limiter, drop_expired, oldest_from, evict, open_window, charge, allow_with, allow,
  prune,
}

-- A bucket that is left as it was, or gone.
abbrev pub SameOrGone : Option Bucket → Option Bucket → Type 0
SameOrGone old new = (new ≡ old) ⊎ (new ≡ none)

lookup-drop_expired :
    (j : String) (now : ℕ) (m : Map Bucket)
    → IsMap m
    → SameOrGone (lookup j m) (lookup j (drop_expired now m))
lookup-drop_expired j now m h = ground (arith, lookup-retain j (λ _ b. not (ltb b.reset now)) m h)

lookup-evict :
    (j : String) (l : Limiter) (now : ℕ)
    → IsMap l.buckets
    → SameOrGone (lookup j l.buckets) (lookup j (evict l now).buckets)
unfolding evict
lookup-evict j l now h =
    let live = drop_expired now l.buckets in
    ground
      (arith, lookup-drop_expired j now l.buckets h, lookup-delete j (oldest_from "" 0 live) live)

lookup-open_window :
    (l : Limiter) (j key : String) (lim : Limit) (now : ℕ)
    → IsMap l.buckets
    → key ≢ j
    → SameOrGone (lookup j l.buckets) (lookup j (open_window l key lim now).buckets)
unfolding open_window
lookup-open_window l j key lim now h ne =
    let opened : Bucket = record { count = 1; reset = now + lim.window } in
    ground (
      arith,
      lookup-insert_ne j key opened (evict l now).buckets ne,
      lookup-insert_ne j key opened l.buckets ne,
      lookup-evict j l now h,
    )

lookup-charge :
    (l : Limiter) (j key : String) (lim : Limit) (now : ℕ) (b : Bucket)
    → key ≢ j
    → lookup j (charge l key lim now b).0.buckets ≡ lookup j l.buckets
unfolding charge
lookup-charge l j key lim now b ne =
    ground (arith, lookup-insert_ne j key (record b { count = b.count + 1 }) l.buckets ne)

lookup-allow_with :
    (o : Option Bucket) (l : Limiter) (j key : String) (lim : Limit) (now : ℕ)
    → IsMap l.buckets
    → key ≢ j
    → SameOrGone (lookup j l.buckets) (lookup j (allow_with o l key lim now).0.buckets)
unfolding allow_with
lookup-allow_with none l j key lim now h ne = lookup-open_window l j key lim now h ne
lookup-allow_with (some b) l j key lim now h ne = elim (Bool-cases (ltb b.reset now)) [
  | inl e ↦ rw e (lookup-open_window l j key lim now h ne)
  | inr e ↦ rw e (inl (lookup-charge l j key lim now b ne))
]

-- An attempt on one key never charges another: the other key's bucket is as it was, or it was
-- evicted, which forgives its attempts.
pub allow-SameOrGone :
    (l : Limiter) (j key : String) (lim : Limit) (now : ℕ)
    → IsMap l.buckets
    → key ≢ j
    → SameOrGone (lookup j l.buckets) (lookup j (allow l key lim now).0.buckets)
unfolding allow
allow-SameOrGone l j key lim now h ne =
    lookup-allow_with (lookup key l.buckets) l j key lim now h ne

lookup-open_window_room :
    (l : Limiter) (j key : String) (lim : Limit) (now : ℕ)
    → size l.buckets < l.max
    → key ≢ j
    → lookup j (open_window l key lim now).buckets ≡ lookup j l.buckets
unfolding open_window
lookup-open_window_room l j key lim now room ne =
    rw (lt→leb l.max _ room)
      (lookup-insert_ne j key (record { count = 1; reset = now + lim.window }) l.buckets ne)

lookup-allow_with_room :
    (o : Option Bucket) (l : Limiter) (j key : String) (lim : Limit) (now : ℕ)
    → size l.buckets < l.max
    → key ≢ j
    → lookup j (allow_with o l key lim now).0.buckets ≡ lookup j l.buckets
unfolding allow_with
lookup-allow_with_room none l j key lim now room ne =
    lookup-open_window_room l j key lim now room ne
lookup-allow_with_room (some b) l j key lim now room ne = elim (Bool-cases (ltb b.reset now)) [
  | inl e ↦ rw e (lookup-open_window_room l j key lim now room ne)
  | inr e ↦ rw e (lookup-charge l j key lim now b ne)
]

-- While the map has room, an attempt on one key leaves every other bucket as it was.
pub lookup-allow_room :
    (l : Limiter) (j key : String) (lim : Limit) (now : ℕ)
    → size l.buckets < l.max
    → key ≢ j
    → lookup j (allow l key lim now).0.buckets ≡ lookup j l.buckets
unfolding allow
lookup-allow_room l j key lim now room ne =
    lookup-allow_with_room (lookup key l.buckets) l j key lim now room ne

-- What the caller is told: whether the attempt fits, and the time to wait.
abbrev pub told : Limiter × Bool × ℕ → Bool × ℕ
told (l, ok, wait) = (ok, wait)

-- The verdict depends on the key's bucket, the budget and the time alone.
abbrev pub verdict : Option Bucket → Limit → ℕ → Bool × ℕ
verdict none lim now = (true, 0)
verdict (some b) lim now =
    if ltb b.reset now || not (leb lim.n b.count) then (true, 0) else (false, b.reset - now)

told-allow_with :
    (o : Option Bucket) (l : Limiter) (key : String) (lim : Limit) (now : ℕ)
    → told (allow_with o l key lim now) ≡ verdict o lim now
unfolding allow_with charge
told-allow_with none l key lim now = refl
told-allow_with (some b) l key lim now = ground arith

pub told-allow :
    (l : Limiter) (key : String) (lim : Limit) (now : ℕ)
    → told (allow l key lim now) ≡ verdict (lookup key l.buckets) lim now
unfolding allow
told-allow l key lim now = told-allow_with (lookup key l.buckets) l key lim now

-- An expired bucket gives the same verdict as no bucket.
verdict-keep_if :
    (o : Option Bucket) (lim : Limit) (swept now : ℕ)
    → swept ≤ now
    → verdict (keep_if (λ b. not (ltb b.reset swept)) o) lim now ≡ verdict o lim now
verdict-keep_if none lim swept now h = refl
verdict-keep_if (some b) lim swept now h = ground arith

-- The sweep's `prune` changes no later answer: whatever the key and the budget, an attempt at or
-- after the sweep is told the same with and without it.
pub told-allow-prune :
    (l : Limiter) (key : String) (lim : Limit) (swept now : ℕ)
    → IsMap l.buckets
    → swept ≤ now
    → told (allow (prune l swept) key lim now) ≡ told (allow l key lim now)
unfolding prune
told-allow-prune l key lim swept now h later =
    told-allow (record l { buckets = drop_expired swept l.buckets }) key lim now
    ∙ ap (λ o. verdict o lim now) (lookup-retain key (λ _ b. not (ltb b.reset swept)) l.buckets h)
    ∙ verdict-keep_if (lookup key l.buckets) lim swept now later
    ∙ sym (told-allow l key lim now)
