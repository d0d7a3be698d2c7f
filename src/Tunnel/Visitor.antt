-- ===== src/Tunnel/Visitor.antt =====
-- internal/tunnel/gateway.go, the visitor's way to a tunnel: serveVisitor, gate, tryKey and the
-- admission part of proxyRequest. The keyed hash and auth.HashToken are parameters; a request is what
-- net/http hands over of it. Times are nanoseconds; the gate's are seconds.
pub mod Authorised
pub mod Admission
mod Tests
use meshbridge.Base.{
  ℕ, ◌+◌, ◌-◌, ◌*◌, ◌/◌, Bool, true, false, ◌&&◌, ◌||◌, not, Option, none, some, List, [], ◌∷◌,
  ◌++◌, ltb, leb, ◌==◌, if◌then◌else◌, take,
}
use meshbridge.Base.Decimal.{ℤ, pos, negsuc, parse_int}
use meshbridge.Base.Dict.{Dict, lookup}
use meshbridge.Base.Text.{
  Text, codes, text_eq, eq_text, has_prefix, trim_prefix, trim_space, cut, to_lower,
}
use meshbridge.Tunnel.{Tunnel}
use meshbridge.Tunnel.Gate.{sign_gate, verify_gate, check_key, gate_ttl}
use meshbridge.Tunnel.Gateway.{
  Gateway, admit_tunnel, release_tunnel, acquire_global, release_global, begin_job, end_job,
}
use meshbridge.Tunnel.Limits.{
  AttemptLimiter, RateLimiter, second, blocked, record_failure, reset, allow,
}

pub record HttpRequest : Type 0 where
  pub ip : Text
  pub host : Text
  pub uri : Text
  pub cookie : Option Text
  pub authorization : Text
  pub method : Text
  pub content_type : Text
  pub form_key : Text
  pub tls : Bool
  pub forwarded_https : Bool

-- The kinds of errorPage that this flow uses.
pub data Page : Type 0 where
  rate_limited : Page
  paused : Page
  disabled : Page
  quota : Page
  global_quota : Page
  key_limited : Page
  unauthorized : Page
  offline : Page
  busy : Page

-- What goes back to the visitor; `passed` is the `true` of gate and no answer yet.
pub data Response : Type 0 where
  error_page : ℕ → Page → Response
  gate_page : ℕ → Response
  signed_in : Text → Text → Text → Bool → Response
  passed : Response

pub record Visitors : Type 0 where
  pub keys : AttemptLimiter
  pub rate : RateLimiter

abbrev pub default_rate_per_min : ℕ
default_rate_per_min = 240

unfoldable pub rate_of : Option ℤ → ℕ
rate_of none = default_rate_per_min
rate_of (some (negsuc n)) = default_rate_per_min
rate_of (some (pos n)) = if ltb n 10 then default_rate_per_min else n

-- `setting` is the value of tunnels_rate_per_min.
unfoldable pub rate_per_min : Text → ℕ
unfolding rate_of parse_int
rate_per_min setting = rate_of (parse_int setting)

unfoldable pub path_prefix : Text → Text
path_prefix slug = codes "/t/" ++ slug

-- The limiter's key: the head of the slug and the address.
unfoldable pub attempt_key : Tunnel → Text → Text
attempt_key t ip = take 8 t.slug ++ b'|' ∷ ip

-- Content-Type up to its parameters, in lower case.
unfoldable pub is_form : HttpRequest → Bool
unfolding text_eq cut trim_space to_lower
is_form r =
    text_eq r.method (codes "POST")
    && text_eq (to_lower (trim_space (cut r.content_type b';').0))
        (codes "application/x-www-form-urlencoded")

module _ (hmac : Text → Text → Text) (hash_token : Text → Text) (secret : Text) where
  -- `subdomain` tells that the host is that of a tunnel.
  unfoldable pub sign_in : HttpRequest → Tunnel → Bool → ℕ → Response
  unfolding sign_gate path_prefix
  sign_in r t subdomain now =
      signed_in (sign_gate hmac secret t.slug (pos (now / second + gate_ttl)))
        (if subdomain then codes "/" else path_prefix t.slug) r.uri (r.forwarded_https || r.tls)

  unfoldable pub try_key :
      Visitors → HttpRequest → Tunnel → Text → Bool → Bool → ℕ → Visitors × Response
  unfolding attempt_key blocked check_key record_failure reset sign_in
  try_key v r t key form_mode subdomain now =
      let lk = attempt_key t r.ip in
      if blocked v.keys lk now
      then (v, error_page 429 key_limited)
      else if not (check_key hash_token t.access_key_hash key)
      then (
        record v { keys = record_failure v.keys lk now },
        if form_mode then gate_page 401 else error_page 401 unauthorized,
      )
      else (
        record v { keys = reset v.keys lk },
        if not form_mode then passed else sign_in r t subdomain now,
      )

  unfoldable pub cookie_opens : Option Text → Tunnel → ℕ → Bool
  unfolding verify_gate
  cookie_opens none t now = false
  cookie_opens (some value) t now = verify_gate hmac secret t.slug value (now / second)

  unfoldable pub gate : Visitors → HttpRequest → Tunnel → Bool → ℕ → Visitors × Response
  unfolding cookie_opens has_prefix trim_prefix trim_space try_key is_form text_eq
  gate v r t subdomain now =
      if not t.key_required
      then (v, passed)
      else if cookie_opens r.cookie t now
      then (v, passed)
      else if has_prefix r.authorization (codes "Bearer ")
      then try_key v r t (trim_space (trim_prefix r.authorization (codes "Bearer "))) false
          subdomain now
      else if is_form r && not (text_eq r.form_key [])
      then try_key v r t r.form_key true subdomain now
      else (v, gate_page 200)

  -- `rate_setting` and `enabled_setting` are settings, `over_budget` is globalOverBudget.
  unfoldable pub admit_visitor :
      Visitors → HttpRequest → Tunnel → Bool → Text → Bool → ℕ → Visitors × Response
  unfolding text_eq gate
  admit_visitor v r t subdomain enabled_setting over_budget now =
      if not (text_eq enabled_setting (codes "1"))
      then (v, error_page 503 paused)
      else if text_eq t.status (codes "disabled")
      then (v, error_page 503 disabled)
      else if text_eq t.status (codes "quota_exceeded")
      then (v, error_page 503 quota)
      else if over_budget
      then (v, error_page 503 global_quota)
      else gate v r t subdomain now

  -- serveVisitor up to proxyRequest.
  unfoldable pub serve_visitor :
      Visitors → HttpRequest → Tunnel → Bool → Text → Text → Bool → ℕ → Visitors × Response
  unfolding allow rate_per_min admit_visitor
  serve_visitor v r t subdomain rate_setting enabled_setting over_budget now =
      let (rate, allowed) = allow v.rate r.ip (rate_per_min rate_setting) now in
      let counted = record v { rate = rate } in
      if not allowed
      then (counted, error_page 429 rate_limited)
      else admit_visitor counted r t subdomain enabled_setting over_budget now

abbrev pub hard_body_cap : ℕ
hard_body_cap = 1073741824

-- The bound of a request's body; `max` is negative where MaxRequestBytes is.
unfoldable pub body_limit : ℤ → ℕ
body_limit (negsuc n) = hard_body_cap
body_limit (pos n) = if n == 0 || ltb hard_body_cap n then hard_body_cap else n

unfoldable pub take_global : Gateway → Text → ℕ → Gateway × Bool → Gateway × Option Page
unfolding release_tunnel begin_job
take_global g id job (h, false) = (release_tunnel h id, some busy)
take_global g id job (h, true) = (begin_job h id job, none)

unfoldable pub take_tunnel : Gateway → Text → ℕ → Gateway × Bool → Gateway × Option Page
unfolding take_global acquire_global
take_tunnel g id job (h, false) = (h, some busy)
take_tunnel g id job (h, true) = take_global g id job (acquire_global h)

-- proxyRequest up to the meter: `none` when the request goes on to the proxy.
unfoldable pub enter_request : Gateway → Text → ℕ → Gateway × Option Page
unfolding admit_tunnel take_tunnel
enter_request g id job = elim (lookup id g.sess) [
  | none ↦ (g, some offline)
  | some s ↦ take_tunnel g id job (admit_tunnel g id)
]

-- The deferred calls of proxyRequest, last first.
unfoldable pub leave_request : Gateway → Text → ℕ → Gateway
unfolding end_job release_global release_tunnel
leave_request g id job = release_tunnel (release_global (end_job g id job)) id
