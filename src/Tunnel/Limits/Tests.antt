-- ===== src/Tunnel/Limits/Tests.antt =====
-- The limiters at small inputs.
use Prim.Native.Nat.{min}
use meshbridge.Base.{◌+◌, ◌*◌, ◌≡◌, refl, [], ◌∷◌, arith, ltb}
use meshbridge.Base.Dict.{lookup, insert, delete}
use meshbridge.Base.Text.{codes, text_eq, eq_text}
use meshbridge.Tunnel.Limits.{AttemptLimiter, new_attempt_limiter, blocked, reset, second, allow}
use meshbridge.Tunnel.Limits.Lockout.{record_all, times_of, lockout, Failures}
use meshbridge.Tunnel.Limits.Rate.{Requests, asked, served, used, served_exact}

abbrev three : AttemptLimiter
unfolding new_attempt_limiter
three = new_attempt_limiter 3 100

abbrev tries : Failures
tries = (codes "a", 1) ∷ (codes "b", 2) ∷ (codes "a", 5) ∷ (codes "a", 9) ∷ []

lockout_example : blocked (record_all (reset three (codes "a")) tries) (codes "a") 50 ≡ ltb 50 109
unfolding times_of text_eq reset new_attempt_limiter delete
lockout_example = lockout three (codes "a") tries (1 ∷ 5 ∷ []) 9 50 (omega arith) refl refl

abbrev burst : Requests
burst =
    (codes "x", 61 * second)
    ∷ (codes "y", 62 * second)
    ∷ (codes "x", 63 * second)
    ∷ (codes "x", 64 * second)
    ∷ []

served_exact_example :
    served [] 2 (codes "x") burst + min (used 1 (codes "x") []) 2
    ≡ min (used 1 (codes "x") [] + asked (codes "x") burst) 2
served_exact_example = served_exact [] 2 (codes "x") 1 burst (omega arith) (omega arith)

served_two : served [] 2 (codes "x") burst ≡ 2
unfolding served allow lookup insert text_eq
served_two = refl
