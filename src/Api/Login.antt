-- ===== src/Api/Login.antt =====
-- internal/api/api.go: loginLimiter and handleLogin. Times are nanoseconds, those of a token seconds;
-- the handler reads the clock once. The password hash, the random token and the hash of tokens come from
-- libraries: `verify` and `hash_token` are parameters, the token is an argument.
pub mod Issued
use meshbridge.Base.{
  ℕ, ◌+◌, ◌*◌, ◌/◌, Bool, true, false, ◌&&◌, ◌||◌, Option, none, some, List, [], ◌∷◌, ◌++◌, ◌==◌,
  ltb, leb, if◌then◌else◌, length, not,
}
use meshbridge.Base.Dict.{Dict, lookup, insert, delete}
use meshbridge.Base.Text.{Text, codes, text_eq, eq_text, to_lower, trim_space}
use meshbridge.Tunnel.Limits.{second, before}
use meshbridge.Api.{Server, User, FailState, ApiToken, AuditRow, log, new_row}
use meshbridge.Api.Action.{
  Action, pure, gets, or_refuse, refuse_if, leave_if, refuse, modify, exec, try, ◌>>=◌, ◌>>◌,
}

abbrev pub login_max_failures : ℕ
login_max_failures = 5

abbrev pub login_window : ℕ
login_window = 900 * second

abbrev pub login_token_ttl : ℕ
login_token_ttl = 24 * 3600

-- `!until.IsZero() && now.After(until.Add(loginWindow))`.
unfoldable pub lapsed : ℕ → Option ℕ → Bool
lapsed now none = false
lapsed now (some t) = ltb (t + login_window) now

unfoldable pub checked :
    Dict Text FailState → Text → ℕ → Option FailState → Dict Text FailState × Bool
unfolding before lapsed
checked seen key now none = (seen, false)
checked seen key now (some fs) =
    if before now fs.until
    then (seen, true)
    else if lapsed now fs.until
    then (delete key seen, false)
    else (seen, false)

-- `loginLimiter.blocked`, which also collects a lapsed entry.
unfoldable pub login_blocked : Dict Text FailState → Text → ℕ → Dict Text FailState × Bool
unfolding checked
login_blocked seen key now = checked seen key now (lookup key seen)

unfoldable pub login_bounded : Dict Text FailState → Dict Text FailState
login_bounded seen = if ltb 10000 (length seen) then [] else seen

unfoldable pub fail_state : Option FailState → FailState
fail_state none = record { count = 0; until = none }
fail_state (some fs) = fs

unfoldable pub failed : ℕ → FailState → FailState
failed now fs =
    if leb login_max_failures (fs.count + 1)
    then record { count = 0; until = some (now + login_window) }
    else record fs { count = fs.count + 1 }

-- `loginLimiter.recordFailure`.
unfoldable pub login_failure : Text → ℕ → Dict Text FailState → Dict Text FailState
unfolding login_bounded fail_state failed
login_failure key now seen =
    let kept = login_bounded seen in insert key (failed now (fail_state (lookup key kept))) kept

unfoldable pub ip_key : Text → Text
ip_key ip = codes "ip:" ++ ip

unfoldable pub user_key : Text → Text
unfolding to_lower
user_key name = codes "u:" ++ to_lower name

pub record Credentials : Type 0 where
  pub username : Text
  pub password : Text

-- What the handler takes from the request and its surroundings: `body` is the decoded document,
-- `cancelled` tells that the client has gone while the password was checked, `random` is the new token.
pub record LoginRequest : Type 0 where
  pub method : Text
  pub ip : Text
  pub body : Option Credentials
  pub cancelled : Bool
  pub random : Option Text
  pub now : ℕ

unfoldable pub is_email : Text → Option Text → Bool
unfolding text_eq
is_email name none = false
is_email name (some email) = text_eq email name

-- WHERE username=? OR email=?
unfoldable pub find_user : Text → Text → Dict Text User → Option (Text × User)
unfolding text_eq is_email
find_user name email [] = none
find_user name email ((id, u) ∷ users) =
    let rest = find_user name email users in
    if text_eq u.username name || is_email email u.email then some (id, u) else rest

-- The error of the query and `disabled == 1` end alike.
unfoldable pub if_enabled : Option (Text × User) → Option (Text × User)
if_enabled none = none
if_enabled (some (id, u)) = if u.disabled == 1 then none else some (id, u)

unfoldable pub account : Bool → Text → Server → Option (Text × User)
unfolding if_enabled find_user to_lower trim_space
account up name s =
    if up then if_enabled (find_user name (to_lower (trim_space name)) s.users) else none

unfoldable pub set_failures : Dict Text FailState → Server → Server
set_failures seen s = record s { login_failures = seen }

unfoldable pub set_checked : Text → ℕ → Server → Server
unfolding set_failures login_blocked
set_checked key now s = set_failures (login_blocked s.login_failures key now).0 s

unfoldable pub stop_blocked : Text → ℕ → Action Server Unit
unfolding login_blocked set_checked
stop_blocked key now = do
  blocked ← gets (λ s. (login_blocked s.login_failures key now).1)
  modify (set_checked key now)
  refuse_if blocked 429 (codes "rate_limited")

unfoldable pub both_failed : Text → Text → ℕ → Server → Server
unfolding login_failure set_failures
both_failed name ip now s =
    set_failures (login_failure name now (login_failure ip now s.login_failures)) s

unfoldable pub both_reset : Text → Text → Server → Server
unfolding set_failures
both_reset name ip s = set_failures (delete name (delete ip s.login_failures)) s

-- An INSERT into api_tokens of a token of a sign-in here, which no grant stands behind.
unfoldable pub insert_token : Text → Text → ℕ → Server → Option Server
unfolding new_row
insert_token hash user expiry s =
    elim (new_row hash (record { user_id = user; expires_at = expiry; grant_hash = none })
      s.api_tokens) [ none ↦ none | some tokens ↦ some (record s { api_tokens = tokens }) ]

module _ (hash_token : Text → Text) (verify : Text → Text → Bool) where
  unfoldable pub verified : Text → Option (Text × User) → Option Text
  verified password none = none
  verified password (some (id, u)) = if verify u.password_hash password then some id else none

  -- What follows when the password has been checked; `id` is the account whose password it is.
  unfoldable pub issue : (ℕ → Bool) → LoginRequest → Text → Option Text → Action Server (Text × ℕ)
  unfolding both_failed both_reset user_key ip_key insert_token log
  issue up r name none = do
    modify (both_failed (user_key name) (ip_key r.ip) r.now)
    refuse 401 (codes "unauthorized")
  issue up r name (some id) = do
    modify (both_reset (user_key name) (ip_key r.ip))
    raw ← or_refuse r.random 503 (codes "unavailable")
    exec (up 1) (insert_token (hash_token raw) id (r.now / second + login_token_ttl)) 503
        (codes "unavailable")
    try (up 2) (log name (codes "login") [] [] [] (codes "login ok"))
    pure (raw, r.now / second + login_token_ttl)

  unfoldable pub handle_login : (ℕ → Bool) → LoginRequest → Action Server (Text × ℕ)
  unfolding text_eq stop_blocked account verified issue ip_key user_key
  handle_login up r = do
    refuse_if (not (text_eq r.method (codes "POST"))) 405 (codes "method")
    stop_blocked (ip_key r.ip) r.now
    c ← or_refuse r.body 400 (codes "bad_request")
    stop_blocked (user_key c.username) r.now
    user ← gets (account (up 0) c.username)
    leave_if r.cancelled
    issue up r c.username (verified c.password user)
