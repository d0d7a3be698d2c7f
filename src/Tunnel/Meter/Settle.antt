-- ===== src/Tunnel/Meter/Settle.antt =====
-- internal/tunnel/meter.go: `settle` and `close`.
use meshbridge.Base.{
  ℕ, ◌+◌, ◌-◌, ◌*◌, ◌/◌, ◌%◌, ◌^◌, Bool, true, not, [], Option, none, some, ◌&&◌, ◌||◌, ◌==◌, ltb,
  leb, if◌then◌else◌,
}
use meshbridge.Base.Dict.{insert, lookup, delete}
use meshbridge.Base.Text.{eq_text, Text}
use meshbridge.Tunnel.{global_quota}
use meshbridge.Tunnel.Meter.{eq_key, Meter, Entry, Balance, Reply, meter_flush_bytes}
use meshbridge.Tunnel.Meter.Reserve.{Request, Reservation, active_of}
use meshbridge.Tunnel.Meter.Flush.{Outcome, flush_locked}

-- `e.total >= e.quota*8/10`: the product wraps around in 64 bits, and a negative quotient lies
-- below every total.
unfoldable pub past_warning : ℕ → ℕ → Bool
past_warning quota total =
    let product = quota * 8 % 2 ^ 64 in
    if ltb product (2 ^ 63) then leb (product / 10) total else true

count_bytes : Reservation → ℕ → Bool → Entry → Entry
count_bytes r n incoming e = record e {
  reserved = e.reserved - r.n;
  total = e.total + n;
  bytes_in = if incoming then e.bytes_in + n else e.bytes_in;
  bytes_out = if incoming then e.bytes_out else e.bytes_out + n;
}

mark_stop : Entry → Entry
mark_stop e = record e { stop_pending = e.stop_pending || (ltb 0 e.quota && leb e.quota e.total) }

mark_warning : Entry → Entry
unfolding past_warning
mark_warning e =
    let warns = ltb 0 e.quota && not e.warned && past_warning e.quota e.total in
    record e { warn_pending = e.warn_pending || warns; warned = e.warned || warns }

-- The entry behind the reads and writes of one settled reservation.
unfoldable pub settled : Reservation → ℕ → Bool → Entry → Entry
unfolding count_bytes mark_stop mark_warning
settled r n incoming e = mark_warning (mark_stop (count_bytes r n incoming e))

unfoldable pub settled_balance : Reservation → ℕ → Balance → Balance
settled_balance r n b = record b { reserved = b.reserved - r.n; total = b.total + n }

unfoldable pub at_limit : Balance → Bool
at_limit b = ltb 0 b.limit && leb b.limit b.total

unfoldable pub or_global : Balance → Outcome → Outcome
unfolding at_limit
or_global b (stopped, none) = (stopped, if at_limit b then some global_quota else none)
or_global b (stopped, some e) = (stopped, some e)

unfoldable pub after_count : Meter → Entry → Balance → Text → Reply → Meter × Outcome
unfolding or_global at_limit
after_count m e b current reply =
    if leb meter_flush_bytes m.pending || e.stop_pending || at_limit b
    then (let (m', out) = flush_locked m current reply in (m', or_global b out))
    else (m, ([], none))

-- The meter with the bytes of one settled reservation counted.
unfoldable pub counted : Meter → Reservation → ℕ → Entry → Balance → Meter
counted m r n e b = record m {
  entries = insert r.key e m.entries;
  months = insert r.key.month b m.months;
  pending = m.pending + n;
}

-- `none` is the dereference of a nil entry or balance.
unfoldable pub settle :
    Meter → Request → Reservation → ℕ → Bool → Text → Reply → Option (Meter × Request × Outcome)
unfolding settled settled_balance counted after_count
settle m h r n incoming current reply = elim (lookup r.key m.entries) [
  | none ↦ none
  | some e ↦ elim (lookup r.key.month m.months) [
    | none ↦ none
    | some b ↦
        let e' = settled r n incoming e in
        let b' = settled_balance r n b in
        let (m', out) = after_count (counted m r n e' b') e' b' current reply in
        some (m', record h { waiting = h.waiting - 1 }, out)
  ]
]

-- `close` runs once: it refuses further reservations, waits for the ones that are out, and then
-- leaves the table of active requests (where `begin` counted it) and flushes.
unfoldable pub close_started : Request → Request
close_started h = if h.finished then h else record h { closed = true }

unfoldable pub left : Meter → Text → Meter
unfolding active_of
left m id =
    let n = active_of m id - 1 in
    record m { active = if n == 0 then delete id m.active else insert id n m.active }

-- `none` while a reservation is out.
unfoldable pub close_finished : Meter → Request → Text → Reply → Option (Meter × Request × Outcome)
unfolding left
close_finished m h current reply =
    if h.finished
    then some (m, h, ([], none))
    else if h.waiting == 0
    then (let (m', out) = flush_locked (left m h.tunnel.id) current reply in
        some (m', record h { finished = true }, out))
    else none
