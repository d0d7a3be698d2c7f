-- ===== src/Tunnel/Meter/Reserve.antt =====
-- internal/tunnel/meter.go: requests, and `reserve`.
use meshbridge.Base.{ℕ, ◌+◌, ◌-◌, Bool, false, none, some, ◌&&◌, ◌==◌, ltb, leb, if◌then◌else◌}
use meshbridge.Base.Dict.{insert, lookup}
use meshbridge.Base.Text.{eq_text, Text}
use meshbridge.Tunnel.{Tunnel, Error, quota, global_quota, tunnel_busy, cancelled, closed_pipe}
use meshbridge.Tunnel.Meter.{eq_key, Meter, Entry, Balance, Key, Reply, meter_chunk}
use meshbridge.Tunnel.Meter.Load.{Loaded, found, refused, entry}

-- A request's meter: `waiting` counts the reservations that are not settled, `finished` is whether
-- `close` has run.
pub record Request : Type 0 where
  pub tunnel : Tunnel
  pub closed : Bool
  pub finished : Bool
  pub waiting : ℕ

pub record Reservation : Type 0 where
  pub key : Key
  pub n : ℕ

unfoldable pub active_of : Meter → Text → ℕ
active_of m id = elim (lookup id m.active) [ none ↦ 0 | some n ↦ n ]

unfoldable pub begin : Meter → Tunnel → Meter × Request
unfolding active_of
begin m t = (
  record m { active = insert t.id (active_of m t.id + 1) m.active },
  record { tunnel = t; closed = false; finished = false; waiting = 0 },
)

-- `if limit > 0 && want > limit-total-reserved { want = limit - total - reserved }`. The test is in
-- whole numbers; a difference below zero is kept as 0, since only `want <= 0` reads it.
unfoldable pub capped : ℕ → ℕ → ℕ → ℕ → ℕ
capped limit total reserved want =
    if ltb 0 limit && ltb limit (want + total + reserved) then limit - total - reserved else want

unfoldable pub grant : Entry → Balance → ℕ → ℕ → ℕ
unfolding capped
grant e b global_limit n =
    capped global_limit b.total b.reserved
      (capped e.quota e.total e.reserved (if ltb meter_chunk n then meter_chunk else n))

-- Why nothing can be granted.
unfoldable pub refusal : Entry → Balance → ℕ → Error
refusal e b global_limit =
    if ltb 0 e.quota && leb e.quota e.total
    then quota
    else if ltb 0 global_limit && leb global_limit b.total
    then global_quota
    else tunnel_busy

unfoldable pub take_grant : Meter → Key → Entry → Balance → ℕ → ℕ → Meter × Loaded Reservation
unfolding grant refusal
take_grant m k e b global_limit n =
    let want = grant e b global_limit n in
    let limited = record m {
      months = insert k.month (record b { limit = global_limit }) m.months;
    } in
    if want == 0 then (limited, refused (refusal e b global_limit)) else (
      record m {
        entries = insert k (record e { reserved = e.reserved + want }) m.entries;
        months =
            insert k.month (record b { limit = global_limit; reserved = b.reserved + want })
              m.months;
      },
      found (record { key = k; n = want }),
    )

-- `h.io.Add(1)`.
unfoldable pub started : Request → Meter × Loaded Reservation → Meter × Request × Loaded Reservation
started h (m, refused e) = (m, h, refused e)
started h (m, found r) = (m, record h { waiting = h.waiting + 1 }, found r)

unfoldable pub reserve_from :
    Request → Text → ℕ → ℕ → Meter × Loaded (Entry × Balance) → Meter × Request × Loaded Reservation
unfolding take_grant started
reserve_from h month n global_limit (m, refused e) = (m, h, refused e)
reserve_from h month n global_limit (m, found (e, b)) =
    started h (take_grant m (record { id = h.tunnel.id; month = month }) e b global_limit n)

-- `gone` is whether the caller's context is done, `month` the month of the meter's clock.
unfoldable pub reserve :
    Meter → Request → Bool → Text → Reply → Reply → ℕ → ℕ → Meter × Request × Loaded Reservation
unfolding reserve_from entry
reserve m h gone month sums rows n global_limit =
    if h.closed
    then (m, h, refused closed_pipe)
    else if gone
    then (m, h, refused cancelled)
    else reserve_from h month n global_limit (entry m h.tunnel month sums rows)
