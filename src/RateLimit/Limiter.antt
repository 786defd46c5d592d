-- ===== src/RateLimit/Limiter.antt =====
-- internal/ratelimit/limiter.go: buckets and the limiter. The float64 numbers of a bucket are read as
-- exact: `tokens` and `capacity` count in parts of which a token has as many as a minute has
-- nanoseconds, so that a rate of `rate` tokens a minute adds `rate` parts in a nanosecond. Times are
-- numbers of nanoseconds, limits are not negative, and the clock does not run backwards.
use oauth4os.Common.{
  ℕ, ◌+◌, ◌-◌, ◌*◌, ◌/◌, String, Bool, true, false, ◌||◌, Option, none, some, List, [], ◌∷◌, ◌==◌,
  ltb, leb, nat_eq, if◌then◌else◌,
}
use oauth4os.Common.Dict
use oauth4os.Common.Dict.{Dict}

abbrev pub second : ℕ
second = 1000000000

-- the parts of one token
abbrev pub minute : ℕ
minute = 60000000000

pub record Bucket : Type 0 where
  pub tokens : ℕ
  pub capacity : ℕ
  pub rate : ℕ
  pub last_fill : ℕ

abbrev pub filled : Bucket → ℕ → ℕ
filled b now =
    let more = b.tokens + (now - b.last_fill) * b.rate in
    if ltb b.capacity more then b.capacity else more

unfoldable pub allow_bucket : Bucket → ℕ → Bucket × Bool
allow_bucket b now =
    if leb minute (filled b now)
    then (record b { tokens = filled b now - minute; last_fill = now }, true)
    else (record b { tokens = filled b now; last_fill = now }, false)

-- A number of seconds from now, or one that is past, which the source gives as a negative number.
pub data Wait : Type 0 where
  ahead : ℕ → Wait
  past : ℕ → Wait

abbrev pub one_more : ℕ → Wait
one_more q = if leb q 1 then ahead (1 - q) else past (q - 1)

-- int((1 - tokens) / rate) + 1, where int cuts towards 0
unfoldable pub retry_bucket : Bucket → Wait
retry_bucket b =
    if nat_eq b.rate 0
    then ahead 60
    else if leb b.tokens minute
    then ahead ((minute - b.tokens) / (second * b.rate) + 1)
    else one_more ((b.tokens - minute) / (second * b.rate))

abbrev pub seconds_to_full : Bucket → ℕ
seconds_to_full b = if nat_eq b.rate 0 then 0 else (b.capacity - b.tokens) / (second * b.rate)

-- limit, remaining, and the Unix time of the reset
unfoldable pub status : Bucket → ℕ → ℕ × ℕ × ℕ
status b now = (
  b.capacity / minute,
  b.tokens / minute,
  (now + seconds_to_full b * second) / second - 62135596800,
)

pub record Limiter : Type 0 where
  pub limits : Dict ℕ
  pub buckets : Dict Bucket
  pub default_rpm : ℕ

unfoldable pub new : Dict ℕ → ℕ → Limiter
new limits default_rpm = record {
  limits = limits;
  buckets = Dict.empty;
  default_rpm = if nat_eq default_rpm 0 then 600 else default_rpm;
}

abbrev pub lower : ℕ → Option ℕ → ℕ
lower rpm none = rpm
lower rpm (some r) = if nat_eq rpm 0 || ltb r rpm then r else rpm

-- the loop of resolveRPM
unfoldable pub lowest : Dict ℕ → List String → ℕ → ℕ
lowest limits [] rpm = rpm
lowest limits (s ∷ ss) rpm = lowest limits ss (lower rpm (Dict.get limits s))

unfoldable pub resolve_rpm : Limiter → List String → ℕ
unfolding lowest
resolve_rpm l scopes =
    let rpm = lowest l.limits scopes 0 in if nat_eq rpm 0 then l.default_rpm else rpm

abbrev pub fresh_bucket : ℕ → ℕ → Bucket
fresh_bucket rpm now = record {
  tokens = rpm * minute;
  capacity = rpm * minute;
  rate = rpm;
  last_fill = now;
}

unfoldable pub get_bucket : Limiter → String → ℕ → ℕ → Limiter × Bucket
get_bucket l client_id rpm now = elim (Dict.get l.buckets client_id) [
  | some b ↦ (l, b)
  | none ↦ (
    record l { buckets = Dict.put l.buckets client_id (fresh_bucket rpm now) },
    fresh_bucket rpm now,
  )
]

-- The bucket is written in place, through the pointer in the map.
abbrev pub keep_bucket : Limiter → String → Bucket → Limiter
keep_bucket l client_id b = record l { buckets = Dict.put l.buckets client_id b }

unfoldable pub allow : Limiter → String → List String → ℕ → Limiter × Bool
unfolding resolve_rpm get_bucket allow_bucket
allow l client_id scopes now =
    let (l', b) = get_bucket l client_id (resolve_rpm l scopes) now in
    let (b', ok) = allow_bucket b now in (keep_bucket l' client_id b', ok)

unfoldable pub retry_after : Limiter → String → Wait
unfolding retry_bucket
retry_after l client_id = elim (Dict.get l.buckets client_id) [
  | none ↦ ahead 1
  | some b ↦ retry_bucket b
]

-- What the middleware does with a request: both carry the numbers of the headers.
pub data Answer : Type 0 where
  forwarded : Answer
  counted : ℕ × ℕ × ℕ → Answer
  limited : Wait → ℕ × ℕ × ℕ → Answer

unfoldable pub middleware : Limiter → String → List String → ℕ → Limiter × Answer
unfolding resolve_rpm get_bucket allow_bucket retry_bucket status
middleware l client_id scopes now =
    if client_id == ""
    then (l, forwarded)
    else let (l', b) = get_bucket l client_id (resolve_rpm l scopes) now in
      let (b', ok) = allow_bucket b now in
      (
        keep_bucket l' client_id b',
        if ok then counted (status b' now) else limited (retry_bucket b') (status b' now),
      )
