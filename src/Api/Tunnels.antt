-- ===== src/Api/Tunnels.antt =====
-- internal/api/tunnels.go: the tunnels' own API. Who may manage a device, creation, change, deletion and
-- new keys of tunnels, the agent's connection, and the question for a certificate. Signed numbers of a
-- request are integers, a Go pointer that may be nil is an Option, and the clock is read once.
pub mod Handlers
pub mod Settings
pub mod Bounds
pub mod Sized
pub mod Tenancy
pub mod Connected
use meshbridge.Base.{
  ℕ, ◌+◌, ◌*◌, ◌^◌, Bool, true, false, ◌&&◌, ◌||◌, Option, none, some, List, [], ◌∷◌, ◌++◌, ◌==◌,
  ltb, leb, if◌then◌else◌, length, not, any, map, take,
}
use meshbridge.Base.Decimal.{ℤ, pos, negsuc, format_nat}
use meshbridge.Base.Dict.{Dict, lookup, insert, delete}
use meshbridge.Base.Text.{Text, codes, text_eq, eq_text}
use meshbridge.Api.{Server, DeviceRow, AuthUser, new_row, not_owner}
use meshbridge.Api.Sessions.{has}
use meshbridge.Api.Devices.{device_owner}
use meshbridge.Tunnel.{Tunnel}
use meshbridge.Tunnel.Gateway.{Gateway, forget, end_removal, meter_result}

unfoldable pub allowed : AuthUser → Option Text → Bool
unfolding not_owner
allowed me none = false
allowed me (some owner) = not (not_owner me owner)

-- mayManageDevice, for a user whose token requireAuth has just accepted.
unfoldable pub may_manage_device : Bool → AuthUser → Text → Server → Bool
unfolding text_eq allowed device_owner
may_manage_device up me device s =
    if text_eq me.id []
    then false
    else text_eq me.role (codes "admin") || allowed me (device_owner up device s)

-- `v < 0 || v > most`.
unfoldable pub out_of_range : ℕ → ℤ → Bool
out_of_range most (pos n) = ltb most n
out_of_range most (negsuc n) = true

-- The value of a number that is not negative.
unfoldable pub to_nat : ℤ → ℕ
to_nat (pos n) = n
to_nat (negsuc n) = 0

unfoldable pub value {ℓ} : {A : Type ℓ} → A → Option A → A
value other none = other
value other (some a) = a

abbrev pub most_quota : ℕ
most_quota = 2 ^ 40

abbrev pub most_request : ℕ
most_request = 2 ^ 30

abbrev pub default_quota : ℕ
default_quota = 5 * 2 ^ 30

abbrev pub default_request : ℕ
default_request = 100 * 2 ^ 20

pub record NewTunnel : Type 0 where
  pub device_id : Text
  pub name : Text
  pub target_scheme : Text
  pub target_host : Text
  pub target_port : ℤ
  pub key_required : Option Bool
  pub strip_prefix : Option Bool
  pub sandbox : Option Bool
  pub monthly_quota_byte : ℤ
  pub max_request_bytes : ℤ

unfoldable pub for_device : Option NewTunnel → Option NewTunnel
unfolding text_eq
for_device none = none
for_device (some t) = if text_eq t.device_id [] then none else some t

unfoldable pub or_text : Text → Text → Text
or_text other [] = other
or_text other (c ∷ s) = c ∷ s

unfoldable pub or_default : ℕ → ℕ → ℕ
or_default other n = if n == 0 then other else n

-- What is random in a new tunnel: NewSlug, and NewAccessKey with the hash of the key.
pub record Drawn : Type 0 where
  pub slug : Text
  pub access_key : Text
  pub key_hash : Text

unfoldable pub tunnel_row : Text → NewTunnel → Drawn → AuthUser → ℕ → Tunnel
unfolding or_text or_default to_nat value
tunnel_row id t drawn me now = record {
  id = id;
  device_id = t.device_id;
  name = t.name;
  slug = drawn.slug;
  target_scheme = or_text (codes "http") t.target_scheme;
  target_host = or_text (codes "127.0.0.1") t.target_host;
  target_port = to_nat t.target_port;
  key_required = value true t.key_required;
  access_key_hash = if value true t.key_required then drawn.key_hash else [];
  status = codes "active";
  strip_prefix = value true t.strip_prefix;
  sandbox = value true t.sandbox;
  monthly_quota_byte = or_default default_quota (to_nat t.monthly_quota_byte);
  max_request_bytes = or_default default_request (to_nat t.max_request_bytes);
  created_by = me.id;
  created_at = now;
  updated_at = now;
}

-- INSERT INTO tunnels, whose slug is unique and whose device must exist.
unfoldable pub insert_tunnel : Tunnel → Server → Option Server
unfolding has new_row text_eq
insert_tunnel t s =
    if has t.device_id s.devices
      && not (any (λ (e : Text × Tunnel). text_eq e.1.slug t.slug) s.tunnels)
    then elim (new_row t.id t s.tunnels) [
      | none ↦ none
      | some rows ↦ some (record s { tunnels = rows })
    ]
    else none

-- UPDATE tunnels … WHERE id=?
unfoldable pub update_tunnel : Text → (Tunnel → Tunnel) → Server → Server
update_tunnel id f s = record s {
  tunnels = elim (lookup id s.tunnels) [ none ↦ s.tunnels | some t ↦ insert id (f t) s.tunnels ];
}

-- loadTunnel.
unfoldable pub load_tunnel : Bool → Text → Server → Option Tunnel
load_tunnel up id s = if up then lookup id s.tunnels else none

unfoldable pub on_gateway : (Gateway → Gateway) → Server → Server
on_gateway f s = record s { gateway = f s.gateway }

pub record Patch : Type 0 where
  pub name : Option Text
  pub status : Option Text
  pub target_scheme : Option Text
  pub target_host : Option Text
  pub target_port : Option ℤ
  pub strip_prefix : Option Bool
  pub sandbox : Option Bool
  pub monthly_quota_byte : Option ℤ
  pub max_request_bytes : Option ℤ

unfoldable pub too_long : Option Text → Bool
too_long none = false
too_long (some name) = ltb 64 (length name)

unfoldable pub bad_number : ℕ → Option ℤ → Bool
unfolding out_of_range
bad_number most none = false
bad_number most (some n) = out_of_range most n

-- The status a change leads to, `none` for any other text.
unfoldable pub next_status : Text → Option Text → Option Text
unfolding text_eq
next_status status none = some status
next_status status (some new) =
    if text_eq new (codes "active") || text_eq new (codes "disabled") then some new else none

-- `*in.MonthlyQuotaByte` or what the row had.
unfoldable pub number_or : ℕ → Option ℤ → ℕ
unfolding to_nat
number_or n none = n
number_or n (some v) = to_nat v

unfoldable pub patched : Patch → Text → ℕ → Tunnel → Tunnel → Tunnel
unfolding value number_or
patched p status now t row = record row {
  name = value row.name p.name;
  status = status;
  target_scheme = value t.target_scheme p.target_scheme;
  target_host = value t.target_host p.target_host;
  target_port = number_or t.target_port p.target_port;
  strip_prefix = value t.strip_prefix p.strip_prefix;
  sandbox = value t.sandbox p.sandbox;
  monthly_quota_byte = number_or t.monthly_quota_byte p.monthly_quota_byte;
  max_request_bytes = number_or t.max_request_bytes p.max_request_bytes;
  updated_at = now;
}

-- The gateway's part of a change. UpdateQuota and the re-armed warning change the meter.
unfoldable pub forget_disabled : Text → Text → Server → Server
unfolding text_eq on_gateway forget
forget_disabled status id s =
    if text_eq status (codes "disabled") then on_gateway (λ g. forget g id) s else s

unfoldable pub new_key : Text → ℕ → Tunnel → Tunnel
new_key hash now t = record t { access_key_hash = hash; key_required = true; updated_at = now }

unfoldable pub delete_tunnel : Text → Server → Server
delete_tunnel id s = record s { tunnels = delete id s.tunnels }

-- How PrepareDelete's wait ends: the time is over, or the requests have ended and a flush has reported
-- what it stopped, and whether it failed.
pub data Drain : Type 0 where
  timed_out : Drain
  flush_reported : Bool → List Text → Bool → Drain

unfoldable pub prepared : Drain → Bool
prepared timed_out = false
prepared (flush_reported fatal stopped failed) = not failed

unfoldable pub after_drain : Drain → Text → Gateway → Gateway
unfolding end_removal meter_result
after_drain timed_out id g = end_removal g id
after_drain (flush_reported fatal stopped true) id g = end_removal (meter_result g fatal stopped) id
after_drain (flush_reported fatal stopped false) id g = meter_result g fatal stopped

-- The query that Attach makes for an active row.
unfoldable pub is_active : Bool → Text → Server → Bool
unfolding text_eq
is_active up id s =
    up && elim (lookup id s.tunnels) [ none ↦ false | some t ↦ text_eq t.status (codes "active") ]

unfoldable pub for_token : Text → Option Tunnel → Option Tunnel
unfolding text_eq
for_token device none = none
for_token device (some t) = if text_eq t.device_id device then some t else none
