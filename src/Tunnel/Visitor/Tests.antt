-- ===== src/Tunnel/Visitor/Tests.antt =====
-- Visitors of one protected tunnel, with a keyed hash that joins its arguments and keys kept as they
-- are.
use meshbridge.Base.{◌+◌, ◌*◌, ◌/◌, ◌≡◌, refl, true, false, none, some, [], ◌++◌, replicate, arith}
use meshbridge.Base.Dict.{lookup, insert}
use meshbridge.Base.Text.{
  Text, codes, text_eq, has_prefix, is_found, trim_prefix, trim_space, trim, trim_left, strip,
  is_space, eq_text,
}
use meshbridge.Base.Decimal.{pos, parse_int, parse_digits, scan}
use meshbridge.Tunnel.{Tunnel}
use meshbridge.Tunnel.Gate.{sign_gate, check_key, gate_ttl}
use meshbridge.Tunnel.Gateway.{
  Gateway, new_gateway, count_of, is_removing, admit_tunnel, acquire_global, begin_job, attach,
  registered, replaced, was_online, past_flap, log_online, flapping,
}
use meshbridge.Tunnel.Limits.{second, new_attempt_limiter, blocked, allow, bounded, current}
use meshbridge.Tunnel.Visitor.{
  HttpRequest, Visitors, passed, signed_in, serve_visitor, admit_visitor, gate, try_key,
  cookie_opens, sign_in, rate_per_min, rate_of, attempt_key, path_prefix, enter_request,
  take_tunnel, take_global,
}
use meshbridge.Tunnel.Visitor.Authorised.{
  Authorised, Serving, serve_visitor-passed, try_key-cookie_opens,
}

abbrev joined : Text → Text → Text
joined secret t = secret ++ t ++ replicate 16 0

abbrev same : Text → Text
same t = t

abbrev shared : Tunnel
shared = record {
  id = codes "i";
  device_id = codes "d";
  name = codes "n";
  slug = codes "0123456789abcdef";
  target_scheme = codes "http";
  target_host = codes "127.0.0.1";
  target_port = 80;
  key_required = true;
  access_key_hash = codes "key";
  status = codes "active";
  strip_prefix = true;
  sandbox = true;
  monthly_quota_byte = 100;
  max_request_bytes = 0;
  created_by = [];
  created_at = 0;
  updated_at = 0;
}

abbrev carrying : HttpRequest
carrying = record {
  ip = codes "1.2.3.4";
  host = codes "h";
  uri = codes "/t/0/";
  cookie = none;
  authorization = codes "Bearer key";
  method = codes "GET";
  content_type = [];
  form_key = [];
  tls = true;
  forwarded_https = false;
}

abbrev nobody : Visitors
nobody = record { keys = new_attempt_limiter 8 (900 * second); rate = [] }

let_through :
    (serve_visitor joined same
      (codes "k")
      nobody
      carrying
      shared
      false
      (codes "240")
      (codes "1")
      false
      60).1
    ≡ passed
unfolding serve_visitor admit_visitor gate try_key cookie_opens rate_per_min rate_of attempt_key
    allow bounded current parse_int parse_digits scan text_eq has_prefix is_found trim_prefix
    trim_space trim trim_left strip is_space check_key blocked new_attempt_limiter lookup insert
let_through = refl

serve_visitor-passed_example :
    ((allow [] (codes "1.2.3.4") (rate_per_min (codes "240")) 60).1 ≡ true)
    × Serving joined same (codes "k") shared (codes "1") false
    × Authorised joined same (codes "k") nobody carrying shared 60
serve_visitor-passed_example =
    serve_visitor-passed joined same (codes "k") nobody carrying shared false (codes "240")
      (codes "1") false 60 let_through

abbrev cookie : Text
cookie = sign_gate joined (codes "k") shared.slug (pos (60 * second / second + gate_ttl))

submitted :
    (try_key joined same
      (codes "k")
      nobody
      carrying
      shared
      (codes "key")
      true
      false
      (60 * second)).1
    ≡ signed_in cookie (codes "/t/0123456789abcdef") (codes "/t/0/") true
unfolding try_key sign_in path_prefix attempt_key text_eq check_key blocked new_attempt_limiter
    lookup
submitted = refl

try_key-cookie_opens_example :
    cookie_opens joined same (codes "k") (some cookie) shared (70 * second) ≡ true
try_key-cookie_opens_example =
    try_key-cookie_opens joined same (codes "k") nobody carrying shared (codes "key") true false
      true cookie (codes "/t/0123456789abcdef") (codes "/t/0/") (60 * second) (70 * second)
      submitted (omega arith) (omega arith) (omega arith)

abbrev live : Gateway
live = attach new_gateway (codes "i") 7 true true 5

taken : (enter_request live (codes "i") 1).1 ≡ none
unfolding new_gateway attach is_removing count_of registered replaced was_online past_flap
    log_online flapping admit_tunnel acquire_global begin_job enter_request take_tunnel take_global
    lookup insert text_eq
taken = refl
