-- ===== src/RateLimit.antt =====
-- The fixed-window rate limiter of core/internal/api/ratelimit.go. A `time.Time` is a number of
-- nanoseconds and a `time.Duration` too; the map's list order is the order in which `range` visits
-- it. The mutex serialises the calls, so each is a function from the limiter to the new limiter.
pub mod Bounds
pub mod Window
pub mod Isolation
mod Examples
use Prim.Native.String.{◌++◌}
use chiral.Prelude.{
  ℕ, ◌+◌, ◌-◌, ◌*◌, ◌/◌, Bool, true, false, not, ◌||◌, String, List, [], ◌∷◌, Option, none, some,
  ltb, leb, if◌then◌else◌, str_eq,
}
use chiral.Prelude.Maps.{Map, lookup, insert, retain, delete, size}

-- `limit`: one route's budget.
pub record Limit : Type 0 where
  pub n : ℕ
  pub window : ℕ

-- `bucket`
pub record Bucket : Type 0 where
  pub count : ℕ
  pub reset : ℕ

-- `limiter`
pub record Limiter : Type 0 where
  pub buckets : Map Bucket
  pub max : ℕ

abbrev pub second : ℕ
second = 1_000_000_000

abbrev pub minute : ℕ
minute = 60 * second

-- The budgets of the routes, in the order of the source.
abbrev pub limit_login : Limit
limit_login = record { n = 10; window = 5 * minute }

abbrev pub limit_mfa : Limit
limit_mfa = record { n = 30; window = 5 * minute }

abbrev pub limit_email_code : Limit
limit_email_code = record { n = 5; window = 15 * minute }

abbrev pub limit_register : Limit
limit_register = record { n = 3; window = 60 * minute }

abbrev pub limit_claim : Limit
limit_claim = record { n = 10; window = 60 * minute }

abbrev pub limit_config : Limit
limit_config = record { n = 60; window = minute }

abbrev pub limit_subscription : Limit
limit_subscription = record { n = 60; window = minute }

pub new_limiter : ℕ → Limiter
new_limiter m = record { buckets = []; max = m }

-- The loop that deletes what `now` is after.
abbrev pub drop_expired : ℕ → Map Bucket → Map Bucket
drop_expired now = retain (λ _ b. not (ltb b.reset now))

-- The second loop of `evict`: the key seen first with the least reset time, where an empty
-- `oldestKey` stands for none yet.
abbrev pub oldest_from : String → ℕ → Map Bucket → String
oldest_from oldest_key oldest [] = oldest_key
oldest_from oldest_key oldest ((key, b) ∷ m) =
    let replaces = str_eq oldest_key "" || ltb b.reset oldest in
    oldest_from (if replaces then key else oldest_key) (if replaces then b.reset else oldest) m

pub evict : Limiter → ℕ → Limiter
evict l now =
    let live = drop_expired now l.buckets in
    if ltb (size live) l.max
    then record l { buckets = live }
    else record l { buckets = delete (oldest_from "" 0 live) live }

-- A fresh window for a key, after the eviction that a full map needs.
open_window : Limiter → String → Limit → ℕ → Limiter
open_window l key lim now =
    let room = if leb l.max (size l.buckets) then evict l now else l in
    record room {
      buckets = insert key (record { count = 1; reset = now + lim.window }) room.buckets;
    }

-- The part of `allow` behind a bucket that is still open.
charge : Limiter → String → Limit → ℕ → Bucket → Limiter × Bool × ℕ
charge l key lim now b =
    if leb lim.n b.count
    then (l, false, b.reset - now)
    else (record l { buckets = insert key (record b { count = b.count + 1 }) l.buckets }, true, 0)

-- `b, ok := l.buckets[key]` and what follows.
allow_with : Option Bucket → Limiter → String → Limit → ℕ → Limiter × Bool × ℕ
unfolding charge open_window
allow_with none l key lim now = (open_window l key lim now, true, 0)
allow_with (some b) l key lim now =
    if ltb b.reset now then (open_window l key lim now, true, 0) else charge l key lim now b

-- The new limiter, whether the attempt fits, and how long until the window resets.
pub allow : Limiter → String → Limit → ℕ → Limiter × Bool × ℕ
unfolding allow_with
allow l key lim now = allow_with (lookup key l.buckets) l key lim now

pub prune : Limiter → ℕ → Limiter
prune l now = record l { buckets = drop_expired now l.buckets }

-- What `throttle` answers: the handler runs, or 429 with a `Retry-After` of that many seconds.
-- `client` is the value of `clientIP(r)`.
pub data Answer : Type 0 where
  handled : Answer
  too_many : ℕ → Answer

-- `int(retry.Seconds()) + 1`
abbrev pub retry_after : ℕ → ℕ
retry_after retry = retry / second + 1

answer : Limiter × Bool × ℕ → Limiter × Answer
answer (l, true, retry) = (l, handled)
answer (l, false, retry) = (l, too_many (retry_after retry))

-- The key carries the route's name, so each route has a budget of its own.
abbrev pub throttle_key : String → String → String
throttle_key name client = (name ++ "|") ++ client

pub throttle : String → Limit → String → ℕ → Limiter → Limiter × Answer
unfolding answer allow
throttle name lim client now l = answer (allow l (throttle_key name client) lim now)
