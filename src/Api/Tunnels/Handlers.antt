-- ===== src/Api/Tunnels/Handlers.antt =====
-- internal/api/tunnels.go: the handlers. What UpdateQuota and the re-armed warning change belongs to the
-- traffic meter and is not part of this state. `parse_ip` is net.ParseIP.
use meshbridge.Base.{
  ℕ, Bool, true, false, ◌&&◌, Option, none, some, [], ◌∷◌, ◌++◌, ltb, if◌then◌else◌, length, not,
  take, map, ◌/◌,
}
use meshbridge.Base.Text.{Text, codes, text_eq, eq_text}
use meshbridge.Api.{Server, AuthUser, log, new_id}
use meshbridge.Api.Action.{
  Action, pure, gets, or_refuse, refuse, refuse_if, leave_if, modify, exec, write_row, try, ◌>>=◌,
  ◌>>◌,
}
use meshbridge.Api.Devices.{device_of_token, touch}
use meshbridge.Api.Sessions.{bearer_hash}
use meshbridge.Api.Tunnels.{
  may_manage_device, out_of_range, to_nat, value, most_quota, most_request, NewTunnel, for_device,
  or_text, Drawn, tunnel_row, insert_tunnel, update_tunnel, load_tunnel, on_gateway, Patch,
  too_long, bad_number, next_status, number_or, patched, forget_disabled, new_key, delete_tunnel,
  Drain, prepared, after_drain, is_active, for_token,
}
use meshbridge.Tunnel.{Tunnel}
use meshbridge.Tunnel.Agent.{Ip, is_loopback, target_ok, no_error}
use meshbridge.Tunnel.Gateway.{
  reset_proxy, begin_removal, end_removal, acquire_agent, release_agent, attach,
}
use meshbridge.Tunnel.Limits.{second}
use meshbridge.Tunnel.Routing.{split_host, parse_subdomain_slug, first_row, has_slug_prefix}

unfoldable pub handle_rotate_key : (ℕ → Bool) → AuthUser → Text → Drawn → ℕ → Action Server Text
unfolding load_tunnel may_manage_device update_tunnel new_key log
handle_rotate_key up me id drawn now = do
  found ← gets (load_tunnel (up 0) id)
  t ← or_refuse found 404 (codes "not_found")
  mine ← gets (may_manage_device (up 1) me t.device_id)
  refuse_if (not mine) 403 (codes "forbidden")
  write_row (up 2) (update_tunnel id (new_key drawn.key_hash now)) 500 (codes "db")
  try (up 3) (log me.id (codes "tunnel key rotated") [] t.device_id id [])
  pure drawn.access_key

-- The DELETE and what follows it; the removal guard is let go in both cases.
unfoldable pub delete_row : Bool → Bool → AuthUser → Text → Tunnel → Action Server Unit
unfolding on_gateway end_removal delete_tunnel log
delete_row false logged me id t = do
  modify (on_gateway (λ g. end_removal g id))
  refuse 500 (codes "db")
delete_row true logged me id t = do
  modify (delete_tunnel id)
  try logged (log me.id (codes "tunnel deleted") [] t.device_id id t.name)
  modify (on_gateway (λ g. end_removal g id))
  pure tt

unfoldable pub handle_tunnel_delete : (ℕ → Bool) → AuthUser → Text → Drain → Action Server Unit
unfolding load_tunnel may_manage_device on_gateway begin_removal after_drain prepared delete_row
handle_tunnel_delete up me id drain = do
  found ← gets (load_tunnel (up 0) id)
  t ← or_refuse found 404 (codes "not_found")
  mine ← gets (may_manage_device (up 1) me t.device_id)
  refuse_if (not mine) 403 (codes "forbidden")
  modify (on_gateway (λ g. begin_removal g id))
  modify (on_gateway (after_drain drain id))
  refuse_if (not (prepared drain)) 503 (codes "busy")
  delete_row (up 2) (up 3) me id t

module _ (parse_ip : Text → Option Ip) where
  unfoldable pub handle_tunnel_patch :
      (ℕ → Bool) → AuthUser → Text → Option Patch → ℕ → Action Server (Option Tunnel)
  unfolding load_tunnel may_manage_device no_error target_ok value number_or too_long bad_number
      next_status update_tunnel patched on_gateway reset_proxy forget_disabled log
  handle_tunnel_patch up me id body now = do
    found ← gets (load_tunnel (up 0) id)
    t ← or_refuse found 404 (codes "not_found")
    mine ← gets (may_manage_device (up 1) me t.device_id)
    refuse_if (not mine) 403 (codes "forbidden")
    p ← or_refuse body 400 (codes "bad_request")
    refuse_if
        (not (
          no_error parse_ip (
            target_ok parse_ip (value t.target_scheme p.target_scheme)
              (value t.target_host p.target_host) (number_or t.target_port p.target_port))))
        400 (codes "bad_request")
    refuse_if (too_long p.name) 400 (codes "bad_request")
    refuse_if (bad_number most_quota p.monthly_quota_byte) 400 (codes "bad_request")
    refuse_if (bad_number most_request p.max_request_bytes) 400 (codes "bad_request")
    status ← or_refuse (next_status t.status p.status) 400 (codes "bad_request")
    write_row (up 2) (update_tunnel id (patched p status now t)) 500 (codes "db")
    modify (on_gateway (λ g. reset_proxy g id))
    modify (forget_disabled status id)
    try (up 3) (log me.id (codes "tunnel updated") [] t.device_id id (codes "status=" ++ status))
    gets (load_tunnel (up 4) id)

module _ (parse_ip : Text → Option Ip) (hash_token : Text → Text) where
  unfoldable pub handle_tunnels_create :
      (ℕ → Bool)
      → AuthUser
      → Option NewTunnel
      → Drawn
      → ℕ
      → ℕ
      → Action Server (Option Tunnel × Text)
  unfolding for_device may_manage_device no_error target_ok or_text to_nat out_of_range
      insert_tunnel tunnel_row new_id log load_tunnel value
  handle_tunnels_create up me body drawn nano now = do
    t ← or_refuse (for_device body) 400 (codes "bad_request")
    mine ← gets (may_manage_device (up 0) me t.device_id)
    refuse_if (not mine) 403 (codes "forbidden")
    refuse_if
        (not (
          no_error parse_ip (
            target_ok parse_ip (or_text (codes "http") t.target_scheme)
              (or_text (codes "127.0.0.1") t.target_host) (to_nat t.target_port))))
        400 (codes "bad_request")
    refuse_if (ltb 64 (length t.name)) 400 (codes "bad_request")
    refuse_if (out_of_range most_quota t.monthly_quota_byte) 400 (codes "bad_request")
    refuse_if (out_of_range most_request t.max_request_bytes) 400 (codes "bad_request")
    exec (up 1) (insert_tunnel (tunnel_row (new_id hash_token t.device_id nano) t drawn me now)) 500
        (codes "db")
    try (up 2) (
        log me.id (codes "tunnel created") [] t.device_id (new_id hash_token t.device_id nano)
          (t.name ++ b' ' ∷ take 8 drawn.slug))
    stored ← gets (load_tunnel (up 3) (new_id hash_token t.device_id nano))
    pure (stored, if value true t.key_required then drawn.access_key else [])

module _ (parse_ip : Text → Option Ip) where
  unfoldable pub loopback : Option Ip → Bool
  unfolding is_loopback
  loopback none = false
  loopback (some ip) = is_loopback ip

  unfoldable pub local_host : Option Text → Bool
  unfolding loopback
  local_host none = false
  local_host (some host) = loopback (parse_ip host)

  -- The rows of `slug LIKE ?||'%' AND length(slug)=32 AND status='active'`.
  unfoldable pub certified : Text → Tunnel → Bool
  unfolding has_slug_prefix text_eq
  certified prefix t = has_slug_prefix prefix t && text_eq t.status (codes "active")

  unfoldable pub handle_cert_ask : Bool → Text → Text → Text → Action Server Text
  unfolding split_host local_host text_eq parse_subdomain_slug first_row certified
  handle_cert_ask up remote_addr base_domain domain = do
    refuse_if (not (local_host (split_host remote_addr))) 403 (codes "forbidden")
    refuse_if (text_eq base_domain []) 404 (codes "not_found")
    refuse_if (text_eq (parse_subdomain_slug domain base_domain) []) 404 (codes "not_found")
    found ← gets (λ s.
        if up
        then first_row (certified (parse_subdomain_slug domain base_domain))
            (map (λ e. e.1) s.tunnels)
        else none)
    t ← or_refuse found 404 (codes "not_found")
    pure t.id

unfoldable pub slot_taken : Bool → Server → Bool
unfolding acquire_agent
slot_taken ready s = (acquire_agent s.gateway ready).1

-- What an upgrade that fails leaves, and what follows one that does not, up to the wait for the end of
-- the session.
unfoldable pub upgrade : (ℕ → Bool) → Bool → Bool → Text → Text → ℕ → ℕ → Action Server ℕ
unfolding on_gateway release_agent touch is_active attach
upgrade up false ready hash id session nano = do
  modify (on_gateway release_agent)
  leave_if true
  pure session
upgrade up true ready hash id session nano = do
  try (up 2) (touch hash (nano / second))
  active ← gets (is_active (up 3) id)
  modify (on_gateway (λ g. attach g id session active ready nano))
  pure session

module _ (hash_token : Text → Text) where
  -- `ready` is MeterReady, `upgraded` tells whether the WebSocket and the session over it came about, and
  -- `session` is its number.
  unfoldable pub handle_tunnel_connect :
      (ℕ → Bool) → Text → Text → Bool → Bool → ℕ → ℕ → Action Server ℕ
  unfolding bearer_hash device_of_token load_tunnel for_token text_eq slot_taken on_gateway
      acquire_agent upgrade
  handle_tunnel_connect up id header ready upgraded session nano = do
    hash ← or_refuse (bearer_hash hash_token header) 401 (codes "unauthorized")
    found ← gets (device_of_token (up 0) (nano / second) hash)
    device ← or_refuse found 401 (codes "unauthorized")
    row ← gets (load_tunnel (up 1) id)
    t ← or_refuse (for_token device row) 403 (codes "forbidden")
    refuse_if (not (text_eq t.status (codes "active"))) 403 (codes "forbidden")
    slot ← gets (slot_taken ready)
    modify (on_gateway (λ g. (acquire_agent g ready).0))
    refuse_if (not slot) 503 (codes "busy")
    upgrade up upgraded ready hash id session nano

-- The calls of routesTunnels that change a tunnel.
pub data Call : Type 0 where
  create : Option NewTunnel → Drawn → Call
  patch : Text → Option Patch → Call
  remove : Text → Drain → Call
  rotate_key : Text → Drawn → Call

module _ (parse_ip : Text → Option Ip) (hash_token : Text → Text) where
  unfoldable pub serve_call : (ℕ → Bool) → AuthUser → ℕ → ℕ → Call → Action Server Unit
  unfolding handle_tunnels_create handle_tunnel_patch handle_tunnel_delete handle_rotate_key
  serve_call up me nano now (create body drawn) =
      handle_tunnels_create parse_ip hash_token up me body drawn nano now >> pure tt
  serve_call up me nano now (patch id body) =
      handle_tunnel_patch parse_ip up me id body now >> pure tt
  serve_call up me nano now (remove id drain) = handle_tunnel_delete up me id drain
  serve_call up me nano now (rotate_key id drawn) = handle_rotate_key up me id drawn now >> pure tt
