-- ===== src/Tunnel/Meter/Stream.antt =====
-- internal/tunnel/meter.go: the rounds of `write` and the count that it reports.
use meshbridge.Base.{
  ℕ, zero, suc, ◌+◌, ◌-◌, ◌≤◌, ◌<◌, Bool, true, false, ◌≡◌, ◌≢◌, refl, ap, ◌⊎◌, inl, inr, [], ◌∷◌,
  Option, none, some, arith, ◌==◌, Bool-cases, Option-cases,
}
use meshbridge.Base.Text.{eq_text, Text}
use meshbridge.Tunnel.Meter.{eq_key, Meter, Reply}
use meshbridge.Tunnel.Meter.Load.{Loaded, found, refused}
use meshbridge.Tunnel.Meter.Reserve.{Request, Reservation, reserve}
use meshbridge.Tunnel.Meter.Flush.{Outcome}
use meshbridge.Tunnel.Meter.Settle.{settle}
use meshbridge.Tunnel.Meter.Copy.{
  Moment, Device, Copied, Round, more, return, refused_at, finish_round, write_chunk, write_from,
  write_round, after_round, next_round, write,
}
use meshbridge.Tunnel.Meter.Budget.{Granted, reserve-Granted}

-- A device that never claims more than it was given.
abbrev pub IsHonest : Device → Type 0
IsHonest device = (n : ℕ) → (device n).0 ≤ n

settle_succeeds :
    (m : Meter) (h : Request) (r : Reservation) (n size limit : ℕ) (incoming : Bool)
    (current : Text) (reply : Reply)
    → Granted m r size limit
    → (m' : Meter) × (h' : Request) × (out : Outcome) × (settle m h r n incoming current reply
        ≡ some (m', h', out))
unfolding settle
settle_succeeds m h r n size limit incoming current reply g =
    elim (Option-cases (settle m h r n incoming current reply)) [
      | inl stuck ↦ absurd (ground (arith, g.entry_here, g.balance_here))
      | inr ((m', h', out), done) ↦ (m', h', out, done)
    ]

-- What one round may do: go on having moved a byte or more, or return having moved no more than it
-- had, all of it unless there is an error.
abbrev pub Progress : ℕ → Round → Type 0
Progress size (more m h n out) = (0 < n) × (n ≤ size)
Progress size (return c) = (c.count ≤ size) × (c.error ≢ none)

finish_round-Progress :
    (m : Meter) (h : Request) (n size : ℕ) (out : Outcome) (r : Reservation) (broken : Bool)
    → n ≤ r.n
    → 0 < r.n
    → r.n ≤ size
    → Progress size (finish_round m h n out r broken)
unfolding finish_round
finish_round-Progress m h n size (stopped, some e) r broken le pos fits = (omega arith, λ eq. cc)
finish_round-Progress m h n size (stopped, none) r true le pos fits = (omega arith, λ eq. cc)
finish_round-Progress m h n size (stopped, none) r false le pos fits =
    elim (Bool-cases (n == r.n)) [
      | inl full ↦ rw full (ground arith, ground arith)
      | inr short ↦ rw short (omega arith, λ eq. cc)
    ]

-- A round that was made, and how it went.
record Made (size : ℕ) (o : Option Round) : Type 0 where
  round : Round
  made : o ≡ some round
  progress : Progress size round

write_chunk-Made :
    (m : Meter) (h : Request) (v : Moment) (size limit : ℕ) (device : Device) (r : Reservation)
    → IsHonest device
    → Granted m r size limit
    → Made size (write_chunk m h v device r)
write_chunk-Made m h v size limit device r honest g =
    let (m', h', out, done) =
      settle_succeeds m h r (device r.n).0 size limit false v.later v.transaction g in
    record {
      round = finish_round m' h' (device r.n).0 out r (device r.n).1;
      made = unfold write_chunk in ground arith;
      progress =
          finish_round-Progress m' h' (device r.n).0 size out r (device r.n).1 (honest r.n)
            g.positive g.asked;
    }

write_from-Made :
    (v : Moment) (size limit : ℕ) (device : Device) (p : Meter × Request × Loaded Reservation)
    → IsHonest device
    → ((r : Reservation) → p.2 ≡ found r → Granted p.0 r size limit)
    → Made size (write_from v device p)
unfolding write_from
write_from-Made v size limit device (m, h, refused e) honest g = record {
  round = return (refused_at m h 0 e);
  made = refl;
  progress = unfold refused_at in (omega arith, λ eq. cc);
}
write_from-Made v size limit device (m, h, found r) honest g =
    write_chunk-Made m h v size limit device r honest (g r refl)

write_round-Made :
    (m : Meter) (h : Request) (v : Moment) (size limit : ℕ) (device : Device)
    → IsHonest device
    → Made size (write_round m h v size device limit)
unfolding write_round
write_round-Made m h v size limit device honest =
    let p = reserve m h v.gone v.month v.sums v.rows size limit in
    write_from-Made v size limit device p honest λ r eq.
      reserve-Granted m p.0 h p.1 v.gone v.month v.sums v.rows size limit r
        (ap (λ l. (p.0, p.1, l)) eq)

-- A call that returned: no more than it had, and all of it unless it names an error.
pub record Finished (size : ℕ) (o : Option Copied) : Type 0 where
  pub result : Copied
  pub returned : o ≡ some result
  pub bounded : result.count ≤ size
  pub complete : (result.count ≡ size) ⊎ (result.error ≢ none)

after_round-Finished :
    (n size : ℕ) (out : Outcome) (o : Option Copied)
    → n ≤ size
    → Finished (size - n) o
    → Finished size (after_round n out o)
after_round-Finished n size out o le f =
    unfold after_round in
    record {
      result = record (f.result) { count = n + f.result.count; reports = out ∷ f.result.reports };
      returned = rw f.returned;
      bounded = omega (arith, f.bounded);
      complete = ground (arith, f.complete, f.bounded);
    }

return-Finished : (size : ℕ) (c : Copied) → Progress size (return c) → Finished size (some c)
return-Finished size c p = record { result = c; returned = refl; bounded = p.0; complete = inr p.1 }

next_round-Finished :
    (size : ℕ) (rest : Meter → Request → ℕ → Option Copied) (o : Option Round)
    → Made size o
    → ((m : Meter) (h : Request) (n : ℕ) → 0 < n → n ≤ size → Finished (size - n) (rest m h n))
    → Finished size (next_round rest o)
unfolding next_round
next_round-Finished size rest o made ih = rw made.made (go made.round made.progress)
  where
    go : (round : Round) → Progress size round → Finished size (next_round rest (some round))
    go (return c) p = return-Finished size c p
    go (more m h n out) p = after_round-Finished n size out (rest m h n) p.1 (ih m h n p.0 p.1)

-- With a round for each byte and one more, `write` returns; it reports at most what it was given,
-- and all of it when it reports no error.
pub write-Finished :
    (fuel : ℕ) (m : Meter) (h : Request) (v : ℕ → Moment) (device : ℕ → Device) (i size limit : ℕ)
    → ((j : ℕ) → IsHonest (device j))
    → size < fuel
    → Finished size (write fuel m h v device i size limit)
unfolding write
write-Finished zero m h v device i size limit honest enough = absurd (omega arith)
write-Finished (suc fuel) m h v device i size limit honest enough = elim (Bool-cases (size == 0)) [
  | inl empty ↦ rw empty (record {
    result = record { meter = m; request = h; count = 0; error = none; reports = [] };
    returned = refl;
    bounded = omega arith;
    complete = inl (ground arith);
  })
  | inr left ↦ rw left (
      next_round-Finished size (λ m' h' n. write fuel m' h' v device (i + 1) (size - n) limit) _
        (write_round-Made m h (v i) size limit (device i) (honest i))
        (λ m' h' n pos le.
          write-Finished fuel m' h' v device (i + 1) (size - n) limit honest (omega arith)))
]
