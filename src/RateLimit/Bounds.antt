-- ===== src/RateLimit/Bounds.antt =====
-- The size of the limiter's map: `evict` of core/internal/api/ratelimit.go.
use chiral.Prelude.{
  ℕ, ◌+◌, ◌≤◌, ◌<◌, ◌≡◌, ◌≢◌, ◌⊎◌, inl, inr, refl, not, String, [], ◌∷◌, Option, none, some, arith,
  eq_iff, ltb, leb, Bool-cases, ltb→lt, ltb→le, leb→lt,
}
use chiral.Prelude.Maps.{
  Map, lookup, size, IsMap, insert-IsMap, retain-IsMap, delete-IsMap, size-insert, size-insert_old,
  size-retain, size-delete_old,
}
use chiral.RateLimit.{
  Limit, Bucket, Limiter, drop_expired, oldest_from, evict, open_window, charge, allow_with, allow,
  prune,
}

-- Each key has one bucket, and there are at most `max` of them.
pub record IsBounded (l : Limiter) : Type 0 where
  pub keys : IsMap l.buckets
  pub room : 0 < l.max
  pub fits : size l.buckets ≤ l.max

-- The key chosen is the one held so far or a key of the map.
oldest_from-mem :
    (k : String) (t : ℕ) (m : Map Bucket)
    → (oldest_from k t m ≡ k) ⊎ (lookup (oldest_from k t m) m ≢ none)
oldest_from-mem k t [] = inl refl
oldest_from-mem k t ((j, b) ∷ m) =
    ground (
      arith,
      oldest_from-mem j b.reset m,
      oldest_from-mem k t m,
      eq_iff j (oldest_from j b.reset m),
    )

-- In a map with an entry, the victim of the eviction is a key of the map.
oldest-mem : (m : Map Bucket) → 0 < size m → lookup (oldest_from "" 0 m) m ≢ none
oldest-mem [] h = absurd (omega arith)
oldest-mem ((j, b) ∷ m) h =
    ground (arith, oldest_from-mem j b.reset m, eq_iff j (oldest_from j b.reset m))

pub evict-size : (l : Limiter) (now : ℕ) → IsBounded l → size (evict l now).buckets < l.max
unfolding evict
evict-size l now v =
    let live = drop_expired now l.buckets in
    elim (Bool-cases (ltb (size live) l.max)) [
      | inl e ↦ rw e (ltb→lt _ _ e)
      | inr e ↦ rw e (
          let full = ltb→le _ _ e in
          let less =
            size-delete_old (oldest_from "" 0 live) live
              (oldest-mem live (omega (arith, v.room))) in
          let below = size-retain (λ _ b. not (ltb b.reset now)) l.buckets in omega (arith, v.fits))
    ]

pub evict-IsMap : (l : Limiter) (now : ℕ) → IsMap l.buckets → IsMap (evict l now).buckets
unfolding evict
evict-IsMap l now h =
    let live = retain-IsMap (λ _ b. not (ltb b.reset now)) l.buckets h in
    elim (Bool-cases (ltb (size (drop_expired now l.buckets)) l.max)) [
      | inl e ↦ rw e live
      | inr e ↦ rw e (delete-IsMap (oldest_from "" 0 (drop_expired now l.buckets)) _ live)
    ]

pub evict-max : (l : Limiter) (now : ℕ) → (evict l now).max ≡ l.max
unfolding evict
evict-max l now = ground arith

open_window-IsBounded :
    (l : Limiter) (key : String) (lim : Limit) (now : ℕ)
    → IsBounded l
    → IsBounded (open_window l key lim now)
unfolding open_window
open_window-IsBounded l key lim now v =
    let b : Bucket = record { count = 1; reset = now + lim.window } in
    elim (Bool-cases (leb l.max (size l.buckets))) [
      | inl e ↦ rw e (record {
        keys = insert-IsMap key b _ (evict-IsMap l now v.keys);
        room = rw (evict-max l now) v.room;
        fits =
            rw (evict-max l now)
              (omega (arith, size-insert key b (evict l now).buckets, evict-size l now v));
      })
      | inr e ↦ rw e (record {
        keys = insert-IsMap key b _ v.keys;
        room = v.room;
        fits = omega (arith, size-insert key b l.buckets, leb→lt _ _ e);
      })
    ]

charge-IsBounded :
    (l : Limiter) (key : String) (lim : Limit) (now : ℕ) (b : Bucket)
    → lookup key l.buckets ≡ some b
    → IsBounded l
    → IsBounded (charge l key lim now b).0
unfolding charge
charge-IsBounded l key lim now b h v =
    let b' : Bucket = record b { count = b.count + 1 } in
    elim (Bool-cases (leb lim.n b.count)) [
      | inl e ↦ rw e v
      | inr e ↦ rw e (record {
        keys = insert-IsMap key b' _ v.keys;
        room = v.room;
        fits = rw (size-insert_old key b' l.buckets (λ x. cc)) v.fits;
      })
    ]

allow_with-IsBounded :
    (o : Option Bucket) (l : Limiter) (key : String) (lim : Limit) (now : ℕ)
    → lookup key l.buckets ≡ o
    → IsBounded l
    → IsBounded (allow_with o l key lim now).0
unfolding allow_with
allow_with-IsBounded none l key lim now h v = open_window-IsBounded l key lim now v
allow_with-IsBounded (some b) l key lim now h v = elim (Bool-cases (ltb b.reset now)) [
  | inl e ↦ rw e (open_window-IsBounded l key lim now v)
  | inr e ↦ rw e (charge-IsBounded l key lim now b h v)
]

-- Every attempt keeps the limiter bounded: each key stands once and there are at most `max`
-- buckets, whatever the key, the budget and the time, if `max` is not 0.
pub allow-IsBounded :
    (l : Limiter) (key : String) (lim : Limit) (now : ℕ)
    → IsBounded l
    → IsBounded (allow l key lim now).0
unfolding allow
allow-IsBounded l key lim now v = allow_with-IsBounded (lookup key l.buckets) l key lim now refl v

pub prune-IsBounded : (l : Limiter) (now : ℕ) → IsBounded l → IsBounded (prune l now)
unfolding prune
prune-IsBounded l now v = record {
  keys = retain-IsMap _ l.buckets v.keys;
  room = v.room;
  fits = omega (arith, size-retain (λ _ b. not (ltb b.reset now)) l.buckets, v.fits);
}
