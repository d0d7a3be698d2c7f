-- ===== src/Api.antt =====
-- internal/api: the tables that the handlers read and write (migrations/001_init.sql to
-- 007_project_sessions.sql), and the server's state. A table is a map from its primary key; times are
-- seconds unless a file says otherwise, and an expiry of 0 is none. Each handler runs alone.
pub mod Action
pub mod Sessions
pub mod Login
pub mod Accounts
pub mod Signup
pub mod Devices
pub mod Agents
pub mod Projects
pub mod Lists
pub mod Transfers
pub mod Tunnels
mod Tests
use meshbridge.Base.{
  ℕ, [], take, ◌++◌, Bool, true, false, Option, none, some, List, ◌∷◌, if◌then◌else◌, keep, ◌&&◌,
  not,
}
use meshbridge.Base.Decimal.{format_nat}
use meshbridge.Base.Dict.{Dict, lookup, insert}
use meshbridge.Base.Text.{Text, codes, text_eq, eq_text}
use meshbridge.Mail.{Mailbox}
use meshbridge.Tunnel.{Tunnel}
use meshbridge.Tunnel.Gateway.{Gateway}

pub record User : Type 0 where
  pub username : Text
  pub email : Option Text
  pub password_hash : Text
  pub role : Text
  pub disabled : ℕ

pub record ApiToken : Type 0 where
  pub user_id : Text
  pub expires_at : ℕ
  pub grant_hash : Option Text

pub record SsoGrant : Type 0 where
  pub parent_hash : Text
  pub client_id : Text
  pub expires_at : ℕ

pub record DeviceRow : Type 0 where
  pub hostname : Text
  pub owner_user_id : Text
  pub tailscale_ip : Text
  pub created_at : ℕ

pub record DeviceToken : Type 0 where
  pub device_id : Text
  pub revoked : Bool
  pub expires_at : ℕ
  pub last_used : ℕ

pub record AgentRow : Type 0 where
  pub agent_version : Text
  pub tailscale_version : Text
  pub last_seen : ℕ
  pub info_json : Text

pub record Project : Type 0 where
  pub name : Text
  pub slug : Text
  pub created_at : ℕ

pub record Membership : Type 0 where
  pub project_id : Text
  pub user_id : Text

pub record Job : Type 0 where
  pub project_id : Text
  pub src_device_id : Text
  pub dst_device_id : Text
  pub src_path : Text
  pub dst_path : Text
  pub state : Text
  pub created_at : ℕ

pub record AuditRow : Type 0 where
  pub actor : Text
  pub event : Text
  pub project_id : Text
  pub device_id : Text
  pub job_id : Text
  pub detail : Text

pub record FailState : Type 0 where
  pub count : ℕ
  pub until : Option ℕ

-- The tables, the login limiter, the gateway and the codes of the mailer.
pub record Server : Type 0 where
  pub users : Dict Text User
  pub api_tokens : Dict Text ApiToken
  pub sso_grants : Dict Text SsoGrant
  pub devices : Dict Text DeviceRow
  pub device_tokens : Dict Text DeviceToken
  pub agents : Dict Text AgentRow
  pub projects : Dict Text Project
  pub memberships : List Membership
  pub jobs : Dict Text Job
  pub tunnels : Dict Text Tunnel
  pub settings : Dict Text Text
  pub observations : List (Text × Text)
  pub audited : List AuditRow
  pub login_failures : Dict Text FailState
  pub gateway : Gateway
  pub mailbox : Mailbox

-- Who makes a request: requestUser.
pub record AuthUser : Type 0 where
  pub id : Text
  pub role : Text

-- audit.Log, whose error every caller ignores: actor, event, project, device, job and detail.
unfoldable pub log : Text → Text → Text → Text → Text → Text → Server → Server
log actor event project device job detail s = record s {
  audited =
      record {
        actor = actor;
        event = event;
        project_id = project;
        device_id = device;
        job_id = job;
        detail = detail;
      }
      ∷ s.audited;
}

-- INSERT of a row with this key into a table, unless the key is taken.
unfoldable pub new_row {ℓ} : {V : Type ℓ} → Text → V → Dict Text V → Option (Dict Text V)
new_row key v table = elim (lookup key table) [ none ↦ some (insert key v table) | some w ↦ none ]

-- `auth.HashToken(name + nanoseconds)[:16]`.
unfoldable pub new_id : (Text → Text) → Text → ℕ → Text
unfolding format_nat
new_id hash_token name nano = take 16 (hash_token (name ++ format_nat nano))

-- `role != "admin" && owner != id`.
unfoldable pub not_owner : AuthUser → Text → Bool
unfolding text_eq
not_owner me owner = not (text_eq me.role (codes "admin")) && not (text_eq owner me.id)

-- `err != nil || name == ""`.
unfoldable pub named_text : Option Text → Option Text
named_text none = none
named_text (some []) = none
named_text (some (c ∷ name)) = some (c ∷ name)
