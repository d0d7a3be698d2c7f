-- ===== src/Tunnel/Meter.antt =====
-- internal/tunnel/meter.go: the state of the traffic meter, with the tables that it writes.
-- A Go map is an association list, a pointer into it is read and written back by its key.
pub mod Load
pub mod Reserve
pub mod Flush
pub mod Settle
pub mod Copy
pub mod Books
pub mod Conserve
pub mod Charge
pub mod Loading
pub mod Adjust
pub mod Budget
pub mod Stream
pub mod Accounts
mod Tests
use meshbridge.Base.{
  ℕ, Bool, true, false, List, [], ◌∷◌, Option, none, some, ◌≡◌, ◌↔◌, refl, arith, ◌&&◌, Eq,
}
use meshbridge.Base.Dict.{Dict}
use meshbridge.Base.Text.{Text, text_eq, text_eq_iff}

abbrev pub meter_chunk : ℕ
meter_chunk = 16384

abbrev pub meter_flush_bytes : ℕ
meter_flush_bytes = 262144

pub record Key : Type 0 where
  pub id : Text
  pub month : Text

unfoldable pub key_eq : Key → Key → Bool
key_eq a b = text_eq a.id b.id && text_eq a.month b.month

pub key_eq_iff : (a b : Key) → (key_eq a b ≡ true) ↔ (a ≡ b)
unfolding key_eq
key_eq_iff a b = (
  λ h. ground (arith, text_eq_iff a.id b.id, text_eq_iff a.month b.month),
  λ h. ground (arith, text_eq_iff a.id b.id, text_eq_iff a.month b.month),
)

instance abbrev pub eq_key : Eq Key
eq_key = record { beq = key_eq; beq_iff = key_eq_iff }

pub record Entry : Type 0 where
  pub total : ℕ
  pub reserved : ℕ
  pub bytes_in : ℕ
  pub bytes_out : ℕ
  pub quota : ℕ
  pub warned : Bool
  pub warn_pending : Bool
  pub stop_pending : Bool

pub record Balance : Type 0 where
  pub total : ℕ
  pub reserved : ℕ
  pub limit : ℕ

-- A row of tunnel_usage.
pub record Usage : Type 0 where
  pub bytes_in : ℕ
  pub bytes_out : ℕ
  pub warned : Bool

-- What the meter reads and writes of a row of tunnels.
pub record Row : Type 0 where
  pub status : Text
  pub quota : ℕ

-- An entry of audit_logs: its event and the tunnel.
pub record Audit : Type 0 where
  pub event : Text
  pub tunnel : Text

pub record Store : Type 0 where
  pub usage : Dict Key Usage
  pub tunnels : Dict Text Row
  pub audits : List Audit

-- `failure` is whether the source's field is not nil; `db` is `none` where its field is nil.
pub record Meter : Type 0 where
  pub db : Option Store
  pub entries : Dict Key Entry
  pub months : Dict Text Balance
  pub active : Dict Text ℕ
  pub pending : ℕ
  pub failure : Bool

-- How a call of the database ends: with its answer, with an error of its own, or because the
-- caller's context was done.
pub data Reply : Type 0 where
  answered failed aborted : Reply
