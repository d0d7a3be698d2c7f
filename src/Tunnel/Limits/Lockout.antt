-- ===== src/Tunnel/Limits/Lockout.antt =====
-- internal/tunnel/gateway.go: the attempt limiter over a sequence of failures of several keys.
use meshbridge.Base.{
  ℕ, ◌+◌, ◌≤◌, ◌<◌, ◌≡◌, refl, false, List, [], ◌∷◌, ◌++◌, Option, none, some, arith, ◌=?◌, ltb,
  if◌then◌else◌, length,
}
use meshbridge.Base.Dict.{Dict, lookup, lookup-insert, length-insert, lookup-delete_self}
use meshbridge.Base.Text.{Text, eq_text, text_eq_iff}
use meshbridge.Tunnel.Limits.{
  AttemptLimiter, Attempt, before, blocked, bounded, fail, state_of, record_failure, reset,
}

-- Failures in the order in which they are recorded.
abbrev pub Failures : Type 0
Failures = List (Text × ℕ)

unfoldable pub record_all : AttemptLimiter → Failures → AttemptLimiter
record_all l [] = l
record_all l ((key, now) ∷ rest) = record_all (record_failure l key now) rest

-- The times at which one key failed.
unfoldable pub times_of : Text → Failures → List ℕ
times_of key [] = []
times_of key ((other, now) ∷ rest) =
    if other =? key then now ∷ times_of key rest else times_of key rest

-- What a key's own failures make of its state.
unfoldable pub fails : ℕ → ℕ → Option Attempt → List ℕ → Option Attempt
fails max window s [] = s
fails max window s (now ∷ rest) = fails max window (some (fail max window now (state_of s))) rest

bounded_small :
    (most : ℕ) (seen : Dict Text Attempt) → length seen ≤ most → bounded most seen ≡ seen
unfolding bounded
bounded_small most seen small = ground arith

record_failure_lem :
    (l : AttemptLimiter) (other key : Text) (now : ℕ)
    → length l.seen ≤ 10000
    → (lookup key (record_failure l other now).seen ≡ (
        if other =? key
        then some (fail l.max l.window now (state_of (lookup key l.seen)))
        else lookup key l.seen))
      × (length (record_failure l other now).seen ≤ length l.seen + 1)
unfolding record_failure
record_failure_lem l other key now small =
    let v = fail l.max l.window now (state_of (lookup other l.seen)) in
    rw (bounded_small 10000 l.seen small) (
      ground (arith, text_eq_iff other key, lookup-insert other key v l.seen),
      ground (arith, length-insert other v l.seen),
    )

-- A key's state is what its own failures make of it: no other key's failure counts for or against
-- it, as long as the table holds no more than 10000 keys.
pub lookup-record_all :
    (l : AttemptLimiter) (key : Text) (events : Failures)
    → length l.seen + length events ≤ 10000
    → lookup key (record_all l events).seen
      ≡ fails l.max l.window (lookup key l.seen) (times_of key events)
unfolding record_all fails times_of
lookup-record_all l key [] small = refl
lookup-record_all l key ((other, now) ∷ rest) small =
    let step = record_failure_lem l other key now (omega arith) in
    let later = lookup-record_all (record_failure l other now) key rest (omega arith) in
    let same_max : (record_failure l other now).max ≡ l.max = unfold record_failure in refl in
    let same_window : (record_failure l other now).window ≡ l.window =
      unfold record_failure in refl in
    ground (arith, step, later, same_max, same_window)

few-fails :
    (max window c : ℕ) (u : Option ℕ) (ts : List ℕ)
    → c + length ts < max
    → fails max window (some (record { count = c; until = u })) ts
      ≡ some (record { count = c + length ts; until = u })
unfolding fails fail state_of
few-fails max window c u [] few = ground arith
few-fails max window c u (t ∷ ts) few = ground (arith, few-fails max window (c + 1) u ts)

fails-append :
    (max window : ℕ) (s : Option Attempt) (ts : List ℕ) (t : ℕ)
    → fails max window s (ts ++ t ∷ [])
      ≡ some (fail max window t (state_of (fails max window s ts)))
unfolding fails
fails-append max window s [] t = refl
fails-append max window s (u ∷ ts) t =
    fails-append max window (some (fail max window u (state_of s))) ts t

fails_below :
    (max window : ℕ) (ts : List ℕ)
    → length ts < max
    → state_of (fails max window none ts) ≡ record { count = length ts; until = none }
unfolding fails state_of fail
fails_below max window [] few = refl
fails_below max window (t ∷ ts) few = ground (arith, few-fails max window 1 none ts)

lookup-reset_self : (l : AttemptLimiter) (key : Text) → lookup key (reset l key).seen ≡ none
unfolding reset
lookup-reset_self l key = lookup-delete_self key l.seen

-- After a success (or for a key that never failed), the `max`-th failure, however far from the others,
-- blocks the key until the window behind it has passed, whatever other keys did in between, as long as
-- the table holds no more than 10000 keys.
pub lockout :
    (l : AttemptLimiter) (key : Text) (events : Failures) (ts : List ℕ) (t now : ℕ)
    → length (reset l key).seen + length events ≤ 10000
    → times_of key events ≡ ts ++ t ∷ []
    → length ts + 1 ≡ l.max
    → blocked (record_all (reset l key) events) key now ≡ ltb now (t + l.window)
unfolding blocked before fail reset
lockout l key events ts t now small own enough = ground (
  arith,
  lookup-record_all (reset l key) key events small,
  lookup-reset_self l key,
  fails-append l.max l.window none ts t,
  fails_below l.max l.window ts,
)

-- Fewer failures than `max` never block it, as long as the table holds no more than 10000 keys.
pub tolerance :
    (l : AttemptLimiter) (key : Text) (events : Failures) (now : ℕ)
    → length (reset l key).seen + length events ≤ 10000
    → length (times_of key events) < l.max
    → blocked (record_all (reset l key) events) key now ≡ false
unfolding blocked before reset state_of
tolerance l key events now small few = ground (
  arith,
  lookup-record_all (reset l key) key events small,
  lookup-reset_self l key,
  fails_below l.max l.window (times_of key events),
)
