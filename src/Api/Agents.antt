-- ===== src/Api/Agents.antt =====
-- internal/api/api.go: the heartbeat of the agents. The parser and the printer of JSON are parameters.
pub mod Told
use meshbridge.Base.{
  ℕ, Bool, true, false, ◌&&◌, ◌||◌, Option, none, some, List, [], ◌∷◌, if◌then◌else◌, not, keep,
  map,
}
use meshbridge.Base.Dict.{Dict, lookup, insert}
use meshbridge.Base.Text.{Text, codes, text_eq, eq_text, cut, trim_space}
use meshbridge.Api.{Server, DeviceRow, AgentRow}
use meshbridge.Api.Action.{Action, gets, or_refuse, refuse_if, exec, try, ◌>>=◌, ◌>>◌}
use meshbridge.Api.Devices.{device_of_token, touch}
use meshbridge.Api.Sessions.{has, bearer_hash}
use meshbridge.Tunnel.{Tunnel}
use meshbridge.Tunnel.Agent.{AgentConfig}

pub record Heartbeat : Type 0 where
  pub device_id : Text
  pub hostname : Text
  pub os : Text
  pub arch : Text
  pub agent_version : Text
  pub tailscale_version : Text
  pub tailscale_ip : Text
  pub probe : Text

unfoldable pub or_empty_json : Text → Text
or_empty_json [] = codes "{}"
or_empty_json (c ∷ raw) = c ∷ raw

unfoldable pub first_line : Text → Text
unfolding cut trim_space
first_line s = trim_space (cut s 10).0

-- The class that json.Unmarshal finds, `none` for its errors.
unfoldable pub probe_class : Option Text → Text
unfolding text_eq
probe_class none = []
probe_class (some class) =
    if text_eq class (codes "DIRECT")
      || text_eq class (codes "PEER_RELAY")
      || text_eq class (codes "DERP")
      || text_eq class (codes "UNREACHABLE")
    then class
    else []

unfoldable pub empty : Text → Bool
empty [] = true
empty (c ∷ s) = false

-- INSERT INTO agents … ON CONFLICT DO UPDATE, for a device that exists.
unfoldable pub upsert_agent : Text → AgentRow → Server → Option Server
unfolding has
upsert_agent device a s =
    if has device s.devices then some (record s { agents = insert device a s.agents }) else none

unfoldable pub update_device : Text → (DeviceRow → DeviceRow) → Server → Server
update_device id f s = record s {
  devices = elim (lookup id s.devices) [ none ↦ s.devices | some d ↦ insert id (f d) s.devices ];
}

unfoldable pub set_hostname : Text → Text → Server → Server
unfolding empty update_device
set_hostname device hostname s =
    if empty hostname then s else update_device device (λ d. record d { hostname = hostname }) s

unfoldable pub set_tailscale_ip : Text → Text → Server → Server
unfolding empty update_device
set_tailscale_ip device ip s =
    if empty ip then s else update_device device (λ d. record d { tailscale_ip = ip }) s

unfoldable pub observe : Text → Text → Server → Server
unfolding empty
observe device class s =
    if empty class then s else record s { observations = (device, class) ∷ s.observations }

unfoldable pub config_of : Tunnel → AgentConfig
config_of t = record {
  id = t.id;
  scheme = t.target_scheme;
  host = t.target_host;
  port = t.target_port;
}

-- WHERE device_id=? AND status='active'
unfoldable pub serves : Text → Text × Tunnel → Bool
unfolding text_eq
serves device (id, t) = text_eq t.device_id device && text_eq t.status (codes "active")

unfoldable pub active_tunnels : Bool → Text → Server → List AgentConfig
unfolding serves config_of
active_tunnels up device s =
    if up then map (λ e. config_of e.1) (keep (serves device) s.tunnels) else []

module _ (hash_token : Text → Text) (class_of : Text → Option Text)
    (marshal_info : Text → Text → Text → Text → Text) where
  unfoldable pub beat : (ℕ → Bool) → ℕ → Text → Option Heartbeat → Action Server (List AgentConfig)
  unfolding text_eq empty upsert_agent set_hostname set_tailscale_ip observe active_tunnels
      first_line probe_class or_empty_json
  beat up now device body = do
    hb ← or_refuse body 400 (codes "bad_request")
    refuse_if (not (empty hb.device_id) && not (text_eq hb.device_id device)) 403
        (codes "forbidden")
    exec (up 2)
        (upsert_agent device (record {
          agent_version = hb.agent_version;
          tailscale_version = first_line hb.tailscale_version;
          last_seen = now;
          info_json = marshal_info hb.os hb.arch hb.agent_version (or_empty_json hb.probe);
        }))
        500 (codes "db")
    try (up 3) (set_hostname device hb.hostname)
    try (up 4) (set_tailscale_ip device hb.tailscale_ip)
    try (up 5) (observe device (probe_class (class_of hb.probe)))
    gets (active_tunnels (up 6) device)

  unfoldable pub handle_agent_heartbeat :
      (ℕ → Bool) → Text → Text → ℕ → Option Heartbeat → Action Server (List AgentConfig)
  unfolding text_eq bearer_hash device_of_token touch beat
  handle_agent_heartbeat up method header now body = do
    refuse_if (not (text_eq method (codes "POST"))) 405 (codes "method")
    hash ← or_refuse (bearer_hash hash_token header) 401 (codes "unauthorized")
    found ← gets (device_of_token (up 0) now hash)
    device ← or_refuse found 401 (codes "unauthorized")
    try (up 1) (touch hash now)
    beat up now device body
