-- ===== src/Tunnel/Meter/Copy.antt =====
-- internal/tunnel/meter.go, `read` and `write`: the visitor's bytes, in reserved chunks.
use meshbridge.Base.{
  ℕ, zero, suc, ◌+◌, ◌-◌, Bool, true, false, List, [], ◌∷◌, Option, none, some, ◌==◌, if◌then◌else◌,
}
use meshbridge.Base.Text.{Text}
use meshbridge.Tunnel.{Error, short_write, broken_io}
use meshbridge.Tunnel.Meter.{Meter, Reply}
use meshbridge.Tunnel.Meter.Load.{Loaded, found, refused}
use meshbridge.Tunnel.Meter.Reserve.{Request, Reservation, reserve}
use meshbridge.Tunnel.Meter.Flush.{Outcome}
use meshbridge.Tunnel.Meter.Settle.{settle}

-- What surrounds one round: whether the context is done, the month of the clock when a chunk is
-- reserved and when it is settled, and how the two queries and the transaction end.
pub record Moment : Type 0 where
  pub gone : Bool
  pub month : Text
  pub later : Text
  pub sums : Reply
  pub rows : Reply
  pub transaction : Reply

-- A reader or writer is asked for so many bytes, and says how many it moved and whether it failed.
abbrev pub Device : Type 0
Device = ℕ → ℕ × Bool

-- `reports` are the calls of `onResult`, in order.
pub record Copied : Type 0 where
  pub meter : Meter
  pub request : Request
  pub count : ℕ
  pub error : Option Error
  pub reports : List Outcome

-- The error of `settle` goes before that of the device.
unfoldable pub io_error : Option Error → Bool → Option Error
io_error (some e) broken = some e
io_error none broken = if broken then some broken_io else none

unfoldable pub refused_at : Meter → Request → ℕ → Error → Copied
refused_at m h total e = record {
  meter = m;
  request = h;
  count = total;
  error = some e;
  reports = ([], some e) ∷ [];
}

unfoldable pub read_chunk : Meter → Request → Moment → Device → Reservation → Option Copied
unfolding io_error
read_chunk m h v device r =
    let (n, broken) = device r.n in
    elim (settle m h r n true v.later v.transaction) [
      | none ↦ none
      | some (m', h', out) ↦ some (record {
        meter = m';
        request = h';
        count = n;
        error = io_error out.1 broken;
        reports = out ∷ [];
      })
    ]

unfoldable pub read_from : Moment → Device → Meter × Request × Loaded Reservation → Option Copied
unfolding read_chunk refused_at
read_from v device (m, h, refused e) = some (refused_at m h 0 e)
read_from v device (m, h, found r) = read_chunk m h v device r

-- `size` is `len(p)`.
unfoldable pub read : Meter → Request → Moment → ℕ → Device → ℕ → Option Copied
unfolding read_from
read m h v size device global_limit =
    if size == 0
    then some (record { meter = m; request = h; count = 0; error = none; reports = [] })
    else read_from v device (reserve m h v.gone v.month v.sums v.rows size global_limit)

-- How a round of `write` ends: it goes on with what is left, or the call returns.
pub data Round : Type 0 where
  more : Meter → Request → ℕ → Outcome → Round
  return : Copied → Round

unfoldable pub finish_round : Meter → Request → ℕ → Outcome → Reservation → Bool → Round
finish_round m h n (stopped, some e) r broken =
    return (record {
      meter = m;
      request = h;
      count = n;
      error = some e;
      reports = (stopped, some e) ∷ [];
    })
finish_round m h n (stopped, none) r true = return (record {
  meter = m;
  request = h;
  count = n;
  error = some broken_io;
  reports = (stopped, none) ∷ [];
})
finish_round m h n (stopped, none) r false =
    if n == r.n
    then more m h n (stopped, none)
    else return (record {
      meter = m;
      request = h;
      count = n;
      error = some short_write;
      reports = (stopped, none) ∷ [];
    })

unfoldable pub write_chunk : Meter → Request → Moment → Device → Reservation → Option Round
unfolding finish_round
write_chunk m h v device r =
    let (n, broken) = device r.n in
    elim (settle m h r n false v.later v.transaction) [
      | none ↦ none
      | some (m', h', out) ↦ some (finish_round m' h' n out r broken)
    ]

unfoldable pub write_from : Moment → Device → Meter × Request × Loaded Reservation → Option Round
unfolding write_chunk refused_at
write_from v device (m, h, refused e) = some (return (refused_at m h 0 e))
write_from v device (m, h, found r) = write_chunk m h v device r

-- One round for `size` bytes that are left; its count is that of the round alone.
unfoldable pub write_round : Meter → Request → Moment → ℕ → Device → ℕ → Option Round
unfolding write_from
write_round m h v size device global_limit =
    write_from v device (reserve m h v.gone v.month v.sums v.rows size global_limit)

unfoldable pub after_round : ℕ → Outcome → Option Copied → Option Copied
after_round n out none = none
after_round n out (some c) = some (record c { count = n + c.count; reports = out ∷ c.reports })

-- What `write` does with a round, given what it does with the bytes that are left.
unfoldable pub next_round : (Meter → Request → ℕ → Option Copied) → Option Round → Option Copied
unfolding after_round
next_round rest none = none
next_round rest (some (return c)) = some c
next_round rest (some (more m h n out)) = after_round n out (rest m h n)

-- A round that goes on has moved a byte, so `size` rounds and one more are enough; round `i` has
-- the surroundings `v i` and the writer `device i`.
unfoldable pub write : ℕ → Meter → Request → (ℕ → Moment) → (ℕ → Device) → ℕ → ℕ → ℕ → Option Copied
unfolding next_round
write zero m h v device i size global_limit = none
write (suc fuel) m h v device i size global_limit =
    if size == 0
    then some (record { meter = m; request = h; count = 0; error = none; reports = [] })
    else next_round (λ m' h' n. write fuel m' h' v device (i + 1) (size - n) global_limit)
        (write_round m h (v i) size (device i) global_limit)
