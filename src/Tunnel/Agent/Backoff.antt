-- ===== src/Tunnel/Agent/Backoff.antt =====
-- internal/tunnel/agent.go: the waits between two attempts to connect.
use meshbridge.Base.{ℕ, zero, suc, ◌*◌, ◌^◌, ◌≤◌, ◌<◌, ◌≡◌, refl, ltb, arith, if◌then◌else◌, ap}
use meshbridge.Tunnel.Agent.{one_second, next_backoff, backoff_after, delay}

from_six : (k : ℕ) → backoff_after (suc (suc (suc (suc (suc (suc k)))))) ≡ 64 * one_second
unfolding backoff_after next_backoff
from_six zero = refl
from_six (suc k) = ap next_backoff (from_six k)

-- The backoff doubles from one second on and stays at 64 seconds from the sixth failure on.
abbrev pub expected_backoff : ℕ → ℕ
expected_backoff n = if ltb n 6 then one_second * 2 ^ n else 64 * one_second

exact_backoff : (n : ℕ) → backoff_after n ≡ expected_backoff n
unfolding backoff_after next_backoff
exact_backoff zero = refl
exact_backoff (suc zero) = refl
exact_backoff (suc (suc zero)) = refl
exact_backoff (suc (suc (suc zero))) = refl
exact_backoff (suc (suc (suc (suc zero)))) = refl
exact_backoff (suc (suc (suc (suc (suc zero))))) = refl
exact_backoff (suc (suc (suc (suc (suc (suc k)))))) = ground (arith, from_six k)

bounded_backoff : (n : ℕ) → (one_second ≤ backoff_after n) × (backoff_after n ≤ 64 * one_second)
unfolding backoff_after next_backoff
bounded_backoff zero = (omega arith, omega arith)
bounded_backoff (suc zero) = (omega arith, omega arith)
bounded_backoff (suc (suc zero)) = (omega arith, omega arith)
bounded_backoff (suc (suc (suc zero))) = (omega arith, omega arith)
bounded_backoff (suc (suc (suc (suc zero)))) = (omega arith, omega arith)
bounded_backoff (suc (suc (suc (suc (suc zero))))) = (omega arith, omega arith)
bounded_backoff (suc (suc (suc (suc (suc (suc k)))))) =
    (omega (arith, from_six k), omega (arith, from_six k))

-- After n failures in a row the backoff is 2^n seconds, but 64 seconds from the sixth on; whatever
-- the jitter draws below the backoff, the wait is at least half a second and less than 96 seconds.
pub delay-backoff_after :
    (n drawn : ℕ)
    → drawn < backoff_after n
    → (backoff_after n ≡ expected_backoff n)
      × (one_second ≤ 2 * delay (backoff_after n) drawn)
      × (delay (backoff_after n) drawn < 96 * one_second)
unfolding delay
delay-backoff_after n drawn h =
    let (low, high) = bounded_backoff n in (exact_backoff n, omega arith, omega arith)
