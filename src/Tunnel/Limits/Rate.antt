-- ===== src/Tunnel/Limits/Rate.antt =====
-- internal/tunnel/gateway.go: the rate limiter over a sequence of requests.
use Prim.Native.Nat.{min}
use meshbridge.Base.{
  ℕ, ◌+◌, ◌/◌, ◌≤◌, ◌≡◌, refl, List, [], ◌∷◌, Option, arith, ◌=?◌, ◌&&◌, if◌then◌else◌, length, leb,
  All,
}
use meshbridge.Base.Dict.{lookup, lookup-insert, length-insert}
use meshbridge.Base.Text.{Text, eq_text, text_eq_iff}
use meshbridge.Tunnel.Limits.{RateLimiter, RateState, second, bounded, current, allow}

-- Requests in the order in which they come.
abbrev pub Requests : Type 0
Requests = List (Text × ℕ)

unfoldable pub asked : Text → Requests → ℕ
asked ip [] = 0
asked ip ((other, now) ∷ rest) = (if other =? ip then 1 else 0) + asked ip rest

-- How many of an address's requests are let through.
unfoldable pub served : RateLimiter → ℕ → Text → Requests → ℕ
served l per_min ip [] = 0
served l per_min ip ((other, now) ∷ rest) =
    let (l', passed) = allow l other per_min now in
    (if other =? ip && passed then 1 else 0) + served l' per_min ip rest

-- What an address has asked for in a minute so far.
abbrev pub used : ℕ → Text → RateLimiter → ℕ
used minute ip l = (current minute (lookup ip l)).n

bounded_small : (most : ℕ) (l : RateLimiter) → length l ≤ most → bounded most l ≡ l
unfolding bounded
bounded_small most l small = ground arith

minute_of_current : (minute : ℕ) (o : Option RateState) → (current minute o).minute ≡ minute
unfolding current
minute_of_current minute o = ground arith

allow_lem :
    (l : RateLimiter) (other ip : Text) (per_min now minute : ℕ)
    → length l ≤ 20000
    → now / second / 60 ≡ minute
    → (used minute ip (allow l other per_min now).0
        ≡ used minute ip l + (if other =? ip then 1 else 0))
      × ((allow l other per_min now).1 ≡ leb (used minute other l + 1) per_min)
      × (length (allow l other per_min now).0 ≤ length l + 1)
unfolding allow
allow_lem l other ip per_min now minute small clock =
    let s = current minute (lookup other l) in
    let s' = record s { n = s.n + 1 } in
    rw (bounded_small 20000 l small, clock)
      (
        unfold current in
            ground (
              arith,
              text_eq_iff other ip,
              lookup-insert other ip s' l,
              minute_of_current minute (lookup other l),
            ),
        refl,
        ground (arith, length-insert other s' l),
      )

-- Among requests of one minute, an address is let through exactly as often as its share is not used
-- up, whatever others ask for, as long as no more than 20000 addresses are known.
pub served_exact :
    (l : RateLimiter) (per_min : ℕ) (ip : Text) (minute : ℕ) (events : Requests)
    → length l + length events ≤ 20000
    → All (λ (e : Text × ℕ). e.1 / second / 60 ≡ minute) events
    → served l per_min ip events + min (used minute ip l) per_min
      ≡ min (used minute ip l + asked ip events) per_min
unfolding served asked
served_exact l per_min ip minute [] small clock = omega arith
served_exact l per_min ip minute ((other, now) ∷ rest) small clock = ground (
  arith,
  text_eq_iff other ip,
  allow_lem l other ip per_min now minute,
  served_exact (allow l other per_min now).0 per_min ip minute rest,
)
