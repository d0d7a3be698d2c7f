-- ===== src/Tunnel.antt =====
-- internal/tunnel: the persisted row of a tunnel and the errors that its parts share.
pub mod Meter
pub mod Limits
pub mod Gate
pub mod Gateway
pub mod Visitor
pub mod Routing
pub mod Agent
use meshbridge.Base.{ℕ, Bool, Eq, ◌≡◌, ◌↔◌, true, false, arith, ◌&&◌, refl}
use meshbridge.Base.Text.{Text, text_eq, text_eq_iff}

-- The configuration of one tunnel. Sizes of bytes are not negative: the API refuses others.
pub record Tunnel : Type 0 where
  pub id : Text
  pub device_id : Text
  pub name : Text
  pub slug : Text
  pub target_scheme : Text
  pub target_host : Text
  pub target_port : ℕ
  pub key_required : Bool
  pub access_key_hash : Text
  pub status : Text
  pub strip_prefix : Bool
  pub sandbox : Bool
  pub monthly_quota_byte : ℕ
  pub max_request_bytes : ℕ
  pub created_by : Text
  pub created_at : ℕ
  pub updated_at : ℕ

-- The errors of the tunnel package, those of a context that is done, of a closed pipe, of a short
-- write and of the visitor's connection.
pub data Error : Type 0 where
  quota global_quota meter_unavailable agent_offline tunnel_busy : Error
  cancelled closed_pipe short_write broken_io : Error
