-- ===== src/Tunnel/Limits.antt =====
-- internal/tunnel/gateway.go, the limiters: failed keys for each visitor and tunnel, and requests
-- for each address and minute. Times are nanoseconds; the zero time is `none`.
pub mod Lockout
pub mod Rate
mod Tests
use meshbridge.Base.{
  ℕ, ◌+◌, ◌/◌, ◌*◌, Bool, false, ◌||◌, not, Option, none, some, [], ◌==◌, ltb, leb, if◌then◌else◌,
  length,
}
use meshbridge.Base.Dict.{Dict, lookup, insert, delete}
use meshbridge.Base.Text.{Text, eq_text}

abbrev pub second : ℕ
second = 1000000000

abbrev pub key_attempt_limit : ℕ
key_attempt_limit = 8

abbrev pub key_attempt_window : ℕ
key_attempt_window = 900 * second

pub record Attempt : Type 0 where
  pub count : ℕ
  pub until : Option ℕ

pub record AttemptLimiter : Type 0 where
  pub max : ℕ
  pub window : ℕ
  pub seen : Dict Text Attempt

unfoldable pub new_attempt_limiter : ℕ → ℕ → AttemptLimiter
new_attempt_limiter max window = record { max = max; window = window; seen = [] }

-- `now.Before(until)`.
unfoldable pub before : ℕ → Option ℕ → Bool
before now none = false
before now (some t) = ltb now t

unfoldable pub blocked : AttemptLimiter → Text → ℕ → Bool
unfolding before
blocked l key now = elim (lookup key l.seen) [ none ↦ false | some s ↦ before now s.until ]

-- The table is emptied when it holds too many keys.
unfoldable pub bounded {ℓ} : {V : Type ℓ} → ℕ → Dict Text V → Dict Text V
bounded most seen = if ltb most (length seen) then [] else seen

unfoldable pub fail : ℕ → ℕ → ℕ → Attempt → Attempt
fail max window now s =
    if leb max (s.count + 1)
    then record { count = 0; until = some (now + window) }
    else record s { count = s.count + 1 }

unfoldable pub state_of : Option Attempt → Attempt
state_of none = record { count = 0; until = none }
state_of (some s) = s

-- `record` in the source.
unfoldable pub record_failure : AttemptLimiter → Text → ℕ → AttemptLimiter
unfolding bounded fail state_of
record_failure l key now =
    let seen = bounded 10000 l.seen in
    record l { seen = insert key (fail l.max l.window now (state_of (lookup key seen))) seen }

unfoldable pub reset : AttemptLimiter → Text → AttemptLimiter
reset l key = record l { seen = delete key l.seen }

pub record RateState : Type 0 where
  pub minute : ℕ
  pub n : ℕ

abbrev pub RateLimiter : Type 0
RateLimiter = Dict Text RateState

unfoldable pub current : ℕ → Option RateState → RateState
current minute none = record { minute = minute; n = 0 }
current minute (some s) = if s.minute == minute then s else record { minute = minute; n = 0 }

unfoldable pub allow : RateLimiter → Text → ℕ → ℕ → RateLimiter × Bool
unfolding bounded current
allow l ip per_min now =
    let minute = now / second / 60 in
    let seen = bounded 20000 l in
    let s = current minute (lookup ip seen) in
    (insert ip (record s { n = s.n + 1 }) seen, leb (s.n + 1) per_min)
