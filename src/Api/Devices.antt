-- ===== src/Api/Devices.antt =====
-- internal/api/api.go: devices and their tokens. Ids and tokens are made of `hash_token`, of the clock and of random
-- text, which are a parameter and arguments.
pub mod Revoked
use meshbridge.Base.{
  ℕ, ◌+◌, ◌*◌, Bool, true, false, ◌&&◌, ◌||◌, Option, none, some, List, [], ◌∷◌, ◌++◌, ◌==◌, ltb,
  if◌then◌else◌, length, not, any, keep, map,
}
use meshbridge.Base.Dict.{Dict, lookup, insert, delete, map_values}
use meshbridge.Base.Text.{Text, codes, text_eq, eq_text, cut, trim_space, to_lower}
use meshbridge.Api.{
  Server, DeviceRow, DeviceToken, AgentRow, Project, Membership, User, AuthUser, log, new_row,
  new_id, not_owner, named_text,
}
use meshbridge.Api.Action.{
  Action, pure, gets, or_refuse, refuse_if, exec, write_row, try, ◌>>=◌, ◌>>◌,
}
use meshbridge.Api.Sessions.{has, bearer_hash}
use meshbridge.Tunnel.{Tunnel}

abbrev pub device_token_ttl : ℕ
device_token_ttl = 90 * 24 * 3600

-- strings.ContainsAny of blank, tab and slash.
unfoldable pub bad_hostname : Text → Bool
bad_hostname name = ltb 63 (length name) || any (λ c. c == b' ' || c == 9 || c == b'/') name

-- INSERT INTO devices, whose owner must exist.
unfoldable pub insert_device : Text → Text → Text → ℕ → Server → Option Server
unfolding has new_row
insert_device id hostname owner now s =
    let row : DeviceRow = record {
      hostname = hostname;
      owner_user_id = owner;
      tailscale_ip = [];
      created_at = now;
    } in
    if has owner s.users
    then elim (new_row id row s.devices) [
      | none ↦ none
      | some devices ↦ some (record s { devices = devices })
    ]
    else none

unfoldable pub insert_device_token : Text → Text → ℕ → Server → Option Server
unfolding has new_row
insert_device_token hash device expiry s =
    let row : DeviceToken = record {
      device_id = device;
      revoked = false;
      expires_at = expiry;
      last_used = 0;
    } in
    if has device s.devices
    then elim (new_row hash row s.device_tokens) [
      | none ↦ none
      | some tokens ↦ some (record s { device_tokens = tokens })
    ]
    else none

unfoldable pub device_owner : Bool → Text → Server → Option Text
device_owner up id s =
    if up then elim (lookup id s.devices) [ none ↦ none | some d ↦ some d.owner_user_id ] else none

unfoldable pub revoked_token : Text → DeviceToken → DeviceToken
unfolding text_eq
revoked_token id t = if text_eq t.device_id id then record t { revoked = true } else t

-- UPDATE device_tokens SET revoked=1 WHERE device_id=?
unfoldable pub revoke_tokens : Text → Server → Server
unfolding revoked_token
revoke_tokens id s = record s { device_tokens = map_values (revoked_token id) s.device_tokens }

-- DELETE FROM devices WHERE id=?, with what the schema deletes along.
unfoldable pub delete_device : Text → Server → Server
unfolding text_eq
delete_device id s = record s {
  devices = delete id s.devices;
  device_tokens = keep (λ (e : Text × DeviceToken). not (text_eq e.1.device_id id)) s.device_tokens;
  agents = delete id s.agents;
  tunnels = keep (λ (e : Text × Tunnel). not (text_eq e.1.device_id id)) s.tunnels;
}

unfoldable pub handle_device_delete : (ℕ → Bool) → Text → AuthUser → Text → Action Server Unit
unfolding text_eq not_owner device_owner revoke_tokens delete_device log
handle_device_delete up method me id = do
  refuse_if (not (text_eq method (codes "DELETE"))) 405 (codes "method")
  found ← gets (device_owner (up 0) id)
  owner ← or_refuse found 404 (codes "not_found")
  refuse_if (not_owner me owner) 403 (codes "forbidden")
  write_row (up 1) (revoke_tokens id) 500 (codes "db")
  write_row (up 2) (delete_device id) 500 (codes "db")
  try (up 3) (log (codes "api") (codes "device revoked") [] id [] [])
  pure tt

-- WHERE dt.revoked=0 AND (dt.expires_at=0 OR dt.expires_at>?) AND u.disabled=0
unfoldable pub token_holds : ℕ → DeviceToken → Option User → Option Text
token_holds now t none = none
token_holds now t (some u) =
    if not t.revoked && (t.expires_at == 0 || ltb now t.expires_at) && u.disabled == 0
    then some t.device_id
    else none

unfoldable pub owned_token : ℕ → DeviceToken → Dict Text User → Option DeviceRow → Option Text
unfolding token_holds
owned_token now t users none = none
owned_token now t users (some d) = token_holds now t (lookup d.owner_user_id users)

unfoldable pub joined_token : ℕ → Server → Option DeviceToken → Option Text
unfolding owned_token
joined_token now s none = none
joined_token now s (some t) = owned_token now t s.users (lookup t.device_id s.devices)

-- The device whose live token this is, by the join of requireDeviceToken and handleTunnelConnect.
unfoldable pub device_of_token : Bool → ℕ → Text → Server → Option Text
unfolding joined_token
device_of_token up now hash s =
    if up then joined_token now s (lookup hash s.device_tokens) else none

unfoldable pub touch : Text → ℕ → Server → Server
touch hash now s = record s {
  device_tokens = elim (lookup hash s.device_tokens) [
    | none ↦ s.device_tokens
    | some t ↦ insert hash (record t { last_used = now }) s.device_tokens
  ];
}

module _ (hash_token : Text → Text) where
  -- POST of handleDevices, whose random token is empty when the source of randomness fails.
  unfoldable pub register_device :
      (ℕ → Bool) → AuthUser → Option Text → ℕ → ℕ → Text → Action Server (Text × Text × ℕ)
  unfolding named_text bad_hostname new_id insert_device insert_device_token log
  register_device up me body nano now raw = do
    hostname ← or_refuse (named_text body) 400 (codes "bad_request")
    refuse_if (bad_hostname hostname) 400 (codes "bad_request")
    exec (up 0) (insert_device (new_id hash_token hostname nano) hostname me.id now) 500
        (codes "db")
    exec (up 1)
        (insert_device_token (hash_token raw) (new_id hash_token hostname nano)
          (now + device_token_ttl))
        500 (codes "db")
    try (up 2) (
        log (codes "api") (codes "device registered") [] (new_id hash_token hostname nano) []
          hostname)
    pure (new_id hash_token hostname nano, raw, now + device_token_ttl)
