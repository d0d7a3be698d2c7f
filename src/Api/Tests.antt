-- ===== src/Api/Tests.antt =====
-- internal/api at small inputs: two users with a device each, an administrator, and one tunnel.
mod Signup
mod Tunnels
use meshbridge.Base.{
  ◌++◌, take, replicate, ℕ, ◌/◌, ◌≤◌, ◌≡◌, ◌≢◌, refl, Bool, true, false, length, Option, none, some,
  [], ◌∷◌, arith, if_elim, some_injective, subst,
}
use meshbridge.Base.Dict.{lookup}
use meshbridge.Base.Text.{Text, codes, text_eq, text_eq_iff, eq_text, strip}
use meshbridge.Api.{Server, User, DeviceRow, AuthUser}
use meshbridge.Api.Accounts.{ResetRequest, handle_password_reset}
use meshbridge.Api.Accounts.Rotated.{Reset, handle_password_reset-Rotated}
use meshbridge.Api.Action.{Ends}
use meshbridge.Api.Agents.{Heartbeat, handle_agent_heartbeat}
use meshbridge.Api.Agents.Told.{Reported, Untouched, handle_agent_heartbeat-Told}
use meshbridge.Api.Devices.{handle_device_delete}
use meshbridge.Api.Devices.Revoked.{MayManage, Unknown, SameElsewhere, handle_device_delete-Unknown}
use meshbridge.Api.Lists.{list_projects, list_transfers, list_tunnels, list_devices, handle_audit}
use meshbridge.Api.Lists.Pages.{Shows, Views, lists-Shows}
use meshbridge.Api.Lists.Visible.{IsAdmin, MaySeeProject, MaySeeJob, MaySeeTunnel}
use meshbridge.Api.Login.{LoginRequest, handle_login}
use meshbridge.Api.Login.Issued.{SignedIn, handle_login-Issued}
use meshbridge.Api.Sessions.{bearer_hash, hashed, authenticate_bearer, handle_logout}
use meshbridge.Api.Sessions.Revoked.{Revoked, handle_logout-Revoked}
use meshbridge.Api.Transfers.{NewJob, create_transfer}
use meshbridge.Api.Transfers.Guarded.{Fitting, job_of, create_transfer-Fitting}
use meshbridge.Api.Tunnels.{Patch}
use meshbridge.Api.Tunnels.Bounds.{AllFit, Fit}
use meshbridge.Api.Tunnels.Connected.{Entitled, one_slot, handle_tunnel_connect-Entitled}
use meshbridge.Api.Tunnels.Handlers.{Call, patch, serve_call, handle_tunnel_connect}
use meshbridge.Api.Tunnels.Sized.{serve_call-Fit}
use meshbridge.Api.Tunnels.Tenancy.{Stands, serve_call-Stands}
use meshbridge.Mail.{encode_hex}
use meshbridge.Tunnel.{Tunnel}
use meshbridge.Tunnel.Agent.{Ip, v4, target_ok, checked_address, is_loopback, no_error}
use meshbridge.Tunnel.Gateway.{new_gateway, attach}
use meshbridge.Tunnel.Limits.{second}

abbrev pub plain : Text → Text
plain s = s

abbrev pub up : ℕ → Bool
up n = true

abbrev same_password : Text → Text → Bool
same_password = text_eq

abbrev pub local_ip : Text → Option Ip
local_ip s = some (v4 127 0 0 1)

abbrev pub user : Text → Text → User
user name role = record {
  username = name;
  email = none;
  password_hash = codes "secret";
  role = role;
  disabled = 0;
}

abbrev pub device : Text → DeviceRow
device owner = record {
  hostname = codes "host";
  owner_user_id = owner;
  tailscale_ip = [];
  created_at = 1;
}

abbrev pub web : Tunnel
web = record {
  id = codes "t1";
  device_id = codes "d1";
  name = codes "web";
  slug = codes "5f";
  target_scheme = codes "http";
  target_host = codes "127.0.0.1";
  target_port = 80;
  key_required = true;
  access_key_hash = [];
  status = codes "active";
  strip_prefix = true;
  sandbox = true;
  monthly_quota_byte = 100;
  max_request_bytes = 100;
  created_by = codes "u1";
  created_at = 1;
  updated_at = 1;
}

pub home : Server
unfolding new_gateway
home = record {
  users =
      (codes "u1", user (codes "ann") (codes "user"))
      ∷ (codes "u2", user (codes "bob") (codes "user"))
      ∷ [];
  api_tokens =
      (codes "k1", record { user_id = codes "u1"; expires_at = 0; grant_hash = none })
      ∷ (
        codes "k2",
        record { user_id = codes "u1"; expires_at = 0; grant_hash = some (codes "g1") },
      )
      ∷ [];
  sso_grants =
      (codes "g1", record { parent_hash = codes "k1"; client_id = codes "mb"; expires_at = 9 })
      ∷ [];
  devices =
      (codes "d1", device (codes "u1"))
      ∷ (codes "d2", device (codes "u2"))
      ∷ (codes "d3", device (codes "u1"))
      ∷ [];
  device_tokens =
      (
        codes "x1",
        record { device_id = codes "d1"; revoked = false; expires_at = 0; last_used = 0 },
      )
      ∷ [];
  agents = [];
  projects = (codes "p1", record { name = codes "p"; slug = codes "p"; created_at = 1 }) ∷ [];
  memberships = record { project_id = codes "p1"; user_id = codes "u1" } ∷ [];
  jobs = [];
  tunnels = (codes "t1", web) ∷ [];
  settings = [];
  observations = [];
  audited = [];
  login_failures = [];
  gateway = new_gateway;
  mailbox = record { rows = []; next_id = 1; delivered = [] };
}

abbrev pub ann : AuthUser
ann = record { id = codes "u1"; role = codes "user" }

abbrev pub bob : AuthUser
bob = record { id = codes "u2"; role = codes "user" }

handle_logout-Revoked_example :
    Ends
      (λ _ s'.
        Revoked (codes "k1") s'
        × ((now : ℕ) → authenticate_bearer plain true now (codes "Bearer k1") s' ≡ none))
      (λ _. Unit)
      (handle_logout plain up (codes "POST") (codes "Bearer k1"))
      home
unfolding bearer_hash hashed strip
handle_logout-Revoked_example =
    handle_logout-Revoked plain up (codes "POST") (codes "Bearer k1") (codes "k1") home refl

abbrev signing_in : LoginRequest
signing_in = record {
  method = codes "POST";
  ip = codes "::1";
  body = some (record { username = codes "ann"; password = codes "secret" });
  cancelled = false;
  random = some (codes "r");
  now = 5;
}

flags_of : (k : Text) (u : User) → lookup k home.users ≡ some u → u.disabled ≤ 1
unfolding lookup home
flags_of k u h = ground arith

handle_login-Issued_example :
    Ends
      (SignedIn plain same_password up signing_in home)
      (λ s'. s'.api_tokens ≡ home.api_tokens)
      (handle_login plain same_password up signing_in)
      home
unfolding lookup text_eq home
handle_login-Issued_example =
    handle_login-Issued plain same_password up signing_in home (refl, (refl, tt)) flags_of

handle_device_delete-Unknown_example :
    Ends
      (λ _ s'.
        MayManage ann (codes "d1") home
        × Unknown (codes "d1") s'
        × SameElsewhere (codes "d1") home s')
      (λ s'. (s'.devices ≡ home.devices) × (s'.tunnels ≡ home.tunnels))
      (handle_device_delete up (codes "DELETE") ann (codes "d1"))
      home
unfolding lookup home
handle_device_delete-Unknown_example =
    handle_device_delete-Unknown up (codes "DELETE") ann (codes "d1") home (refl, tt) (refl, tt)

abbrev copy : NewJob
copy = record {
  project_id = codes "p1";
  src = codes "d1";
  dst = codes "d3";
  src_path = codes "a/b";
  dst_path = codes "c";
}

create_transfer-Fitting_example :
    Ends
      (λ id s'.
        (j : NewJob) × (some copy ≡ some j)
        × Fitting ann j home
        × (lookup id home.jobs ≡ none)
        × (lookup id s'.jobs ≡ some (job_of j 7))
        × ((k : Text) → k ≢ id → lookup k s'.jobs ≡ lookup k home.jobs))
      (λ s'. s'.jobs ≡ home.jobs)
      (create_transfer plain up ann (some copy) (codes "r") 3 7)
      home
create_transfer-Fitting_example =
    create_transfer-Fitting plain up ann (some copy) (codes "r") 3 7 home

abbrev hello : Heartbeat
hello = record {
  device_id = codes "d1";
  hostname = codes "new";
  os = [];
  arch = [];
  agent_version = codes "1";
  tailscale_version = codes "1";
  tailscale_ip = [];
  probe = [];
}

abbrev info : Text → Text → Text → Text → Text
info os arch version probe = probe

handle_agent_heartbeat-Told_example :
    Ends
      (Reported plain some info up (codes "Bearer x1") 9 (some hello) home)
      (Untouched home)
      (handle_agent_heartbeat plain some info up (codes "POST") (codes "Bearer x1") 9 (some hello))
      home
unfolding lookup home
handle_agent_heartbeat-Told_example =
    handle_agent_heartbeat-Told plain some info up (codes "POST") (codes "Bearer x1") 9 (some hello)
      home (refl, tt)

abbrev new_words : ResetRequest
new_words = record {
  email = codes "Ann@x ";
  code = codes "123456";
  new_password = codes "a longer password";
}

-- Digests have 32 bytes.
abbrev pub hash_code : Text → Text → Text
hash_code email code = take 32 (code ++ replicate 32 0)

abbrev mailed : Server
mailed = record home {
  users =
      (codes "u1", record (user (codes "ann") (codes "user")) { email = some (codes "ann@x") })
      ∷ [];
  mailbox = record {
    rows =
        record {
          id = 1;
          email = codes "ann@x";
          code_hash = encode_hex (hash_code (codes "ann@x") (codes "123456"));
          purpose = codes "reset";
          attempts = 0;
          used = false;
          created_at = 1;
          expires_at = 900;
        }
        ∷ [];
    next_id = 2;
    delivered = [];
  };
}

abbrev pub hash_password : Text → Option Text
hash_password p = some (codes "$" ++ p)

handle_password_reset-Rotated_example :
    Ends
      (λ _ s'. Reset hash_code up (some new_words) hash_password 5 mailed s')
      (λ s'. (s'.users ≡ mailed.users) × (s'.api_tokens ≡ mailed.api_tokens))
      (handle_password_reset hash_code up up (codes "POST") (some new_words) hash_password 5)
      mailed
handle_password_reset-Rotated_example =
    handle_password_reset-Rotated hash_code up up (codes "POST") (some new_words) hash_password 5
      mailed

lists-Shows_example :
    Ends
      (λ list s'.
        (s' ≡ home) × Shows (MaySeeProject ann home) (λ e. e.1.created_at) 10 0 home.projects list)
      (λ s'. s' ≡ home)
      (list_projects true ann 10 0)
      home
    × Ends
        (λ list s'.
          (s' ≡ home) × Shows (MaySeeJob ann home) (λ e. e.1.created_at) 10 0 home.jobs list)
        (λ s'. s' ≡ home)
        (list_transfers true ann 10 0)
        home
    × Ends
        (λ list s'.
          (s' ≡ home) × Shows (MaySeeTunnel ann home) (λ e. e.1.created_at) 200 0 home.tunnels list)
        (λ s'. s' ≡ home)
        (list_tunnels true ann)
        home
    × Ends
        (λ list s'. (s' ≡ home) × Views ann 7 home list)
        (λ s'. s' ≡ home)
        (list_devices true ann 7 10 0)
        home
    × Ends
        (λ list s'. (s' ≡ home) × IsAdmin ann × (length list ≤ 10))
        (λ s'. s' ≡ home)
        (handle_audit true (codes "GET") ann 10 0)
        home
lists-Shows_example = lists-Shows true (codes "GET") ann 7 10 0 home
