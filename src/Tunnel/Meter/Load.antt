-- ===== src/Tunnel/Meter/Load.antt =====
-- internal/tunnel/meter.go, `entry`: the month's balance and the tunnel's entry, read from the
-- tables on the first use of a month or of a tunnel in it.
use meshbridge.Base.{ℕ, ◌+◌, Bool, true, false, Option, none, some, ◌=?◌, if◌then◌else◌}
use meshbridge.Base.Dict.{Dict, lookup, insert, total}
use meshbridge.Base.Text.{eq_text, Text, codes}
use meshbridge.Tunnel.{Tunnel, Error, meter_unavailable, agent_offline, cancelled}
use meshbridge.Tunnel.Meter.{
  eq_key, Meter, Entry, Balance, Key, Usage, Store, Reply, answered, aborted,
}

pub data Loaded {ℓ} (A : Type ℓ) : Type ℓ where
  found : A → Loaded A
  refused : Error → Loaded A

unfoldable pub spent_in : Text → Dict Key Usage → ℕ
unfolding total
spent_in month = total (λ k u. if k.month =? month then u.bytes_in + u.bytes_out else 0)

-- A query that did not answer latches the failure, unless the caller had gone.
unfoldable pub lost {ℓ} : {A : Type ℓ} → Meter → Reply → Meter × Loaded A
lost m aborted = (m, refused cancelled)
lost m _ = (record m { failure = true }, refused meter_unavailable)

unfoldable pub add_month : Meter → Text → Balance → Meter × Loaded Balance
add_month m month b = (record m { months = insert month b m.months }, found b)

unfoldable pub read_month : Meter → Text → Option Store → Reply → Meter × Loaded Balance
read_month m month none _ = add_month m month (record { total = 0; reserved = 0; limit = 0 })
read_month m month (some db) answered =
    add_month m month (record { total = spent_in month db.usage; reserved = 0; limit = 0 })
read_month m month (some db) reply = lost m reply

unfoldable pub load_balance : Meter → Text → Reply → Meter × Loaded Balance
unfolding read_month add_month lost spent_in
load_balance m month reply = elim (lookup month m.months) [
  | some b ↦ (m, found b)
  | none ↦ read_month m month m.db reply
]

unfoldable pub new_entry : ℕ → ℕ → Bool → Entry
new_entry total quota warned = record {
  total = total;
  reserved = 0;
  bytes_in = 0;
  bytes_out = 0;
  quota = quota;
  warned = warned;
  warn_pending = false;
  stop_pending = false;
}

unfoldable pub add_entry : Meter → Key → Entry → Meter × Loaded Entry
add_entry m k e = (record m { entries = insert k e m.entries }, found e)

-- The row of an active tunnel, joined with its usage in the month.
unfoldable pub query_entry : Store → Key → Option Entry
unfolding new_entry
query_entry db k = elim (lookup k.id db.tunnels) [
  | none ↦ none
  | some row ↦
      if row.status =? codes "active"
      then some (elim (lookup k db.usage) [
        | none ↦ new_entry 0 row.quota false
        | some u ↦ new_entry (u.bytes_in + u.bytes_out) row.quota u.warned
      ])
      else none
]

unfoldable pub read_entry : Meter → Key → ℕ → Option Store → Reply → Meter × Loaded Entry
unfolding query_entry
read_entry m k quota none _ = add_entry m k (new_entry 0 quota false)
read_entry m k quota (some db) answered = elim (query_entry db k) [
  | none ↦ (m, refused agent_offline)
  | some e ↦ add_entry m k e
]
read_entry m k quota (some db) reply = lost m reply

unfoldable pub load_entry : Meter → Key → ℕ → Reply → Meter × Loaded Entry
unfolding read_entry add_entry lost
load_entry m k quota reply = elim (lookup k m.entries) [
  | some e ↦ (m, found e)
  | none ↦ read_entry m k quota m.db reply
]

unfoldable pub with_entry : Balance → Meter × Loaded Entry → Meter × Loaded (Entry × Balance)
with_entry b (m, refused e) = (m, refused e)
with_entry b (m, found e) = (m, found (e, b))

unfoldable pub with_balance :
    Key → ℕ → Reply → Meter × Loaded Balance → Meter × Loaded (Entry × Balance)
unfolding load_entry with_entry
with_balance k quota reply (m, refused e) = (m, refused e)
with_balance k quota reply (m, found b) = with_entry b (load_entry m k quota reply)

-- `sums` and `rows` are how the two queries end, if they are made.
unfoldable pub entry : Meter → Tunnel → Text → Reply → Reply → Meter × Loaded (Entry × Balance)
unfolding with_balance load_balance
entry m t month sums rows =
    if m.failure
    then (m, refused meter_unavailable)
    else with_balance (record { id = t.id; month = month }) t.monthly_quota_byte rows
        (load_balance m month sums)
