-- ===== src/Tunnel/Meter/Accounts.antt =====
-- internal/tunnel/meter.go: `write` as a whole, against the meter's books.
use meshbridge.Base.{
  ℕ, zero, suc, ◌+◌, ◌-◌, ◌≡◌, refl, ◌∙◌, inl, inr, Bool, true, false, [], Option, none, some,
  arith, ◌=?◌, ◌==◌, if◌then◌else◌, Bool-cases, Option-cases,
}
use meshbridge.Base.Text.{Text}
use meshbridge.Tunnel.{Tunnel}
use meshbridge.Tunnel.Meter.{eq_key, Meter, Entry, Balance, Key, Store}
use meshbridge.Tunnel.Meter.Load.{Loaded, found, refused, entry}
use meshbridge.Tunnel.Meter.Reserve.{
  Request, Reservation, take_grant, started, reserve_from, reserve,
}
use meshbridge.Tunnel.Meter.Flush.{Outcome}
use meshbridge.Tunnel.Meter.Settle.{settle}
use meshbridge.Tunnel.Meter.Copy.{
  Moment, Device, Copied, Round, more, return, refused_at, finish_round, write_chunk, write_from,
  write_round, after_round, next_round, write,
}
use meshbridge.Tunnel.Meter.Books.{Books}
use meshbridge.Tunnel.Meter.Conserve.{Kept, nothing}
use meshbridge.Tunnel.Meter.Charge.{settle_parts, settle-Kept}
use meshbridge.Tunnel.Meter.Loading.{Loads}
use meshbridge.Tunnel.Meter.Budget.{reserve-Loads}

abbrev pub key_of : Tunnel → Text → Key
key_of t month = record { id = t.id; month = month }

-- A charge of `n` bytes to one key.
abbrev pub charge_to : Key → ℕ → Key → ℕ
charge_to key n k = if key =? k then n else 0

Kept-trans :
    (m m₁ m₂ : Meter) (db : Store) (f g : Key → ℕ) (s : Kept m m₁ db f)
    → Kept m₁ m₂ s.db' g
    → Kept m m₂ db (λ k. f k + g k)
Kept-trans m m₁ m₂ db f g s t = record {
  db' = t.db';
  books = t.books;
  charged = λ k. omega (arith, s.charged k, t.charged k);
}

Kept_same :
    (m m' : Meter) (db : Store) (f g : Key → ℕ)
    → ((k : Key) → f k ≡ g k)
    → Kept m m' db f
    → Kept m m' db g
Kept_same m m' db f g same s = record {
  db' = s.db';
  books = s.books;
  charged = λ k. omega (arith, s.charged k, same k);
}

Loads-Kept : (m m' : Meter) (db : Store) → Loads m m' db → Kept m m' db nothing
Loads-Kept m m' db v = record { db' = db; books = v.books; charged = λ k. omega (arith, v.same k) }

take_grant_key :
    (m : Meter) (k : Key) (e : Entry) (b : Balance) (limit n : ℕ) (r : Reservation)
    → (take_grant m k e b limit n).1 ≡ found r
    → r.key ≡ k
unfolding take_grant
take_grant_key m k e b limit n r eq = ground arith

-- A reservation is for the request's tunnel in the clock's month, and the request stays its
-- tunnel's.
record Addressed (h : Request) (month : Text) (p : Meter × Request × Loaded Reservation)
    : Type 0 where
  tunnel : p.1.tunnel ≡ h.tunnel
  key : (r : Reservation) → p.2 ≡ found r → r.key ≡ key_of h.tunnel month

started-Addressed :
    (h : Request) (month : Text) (p : Meter × Loaded Reservation)
    → ((r : Reservation) → p.1 ≡ found r → r.key ≡ key_of h.tunnel month)
    → Addressed h month (started h p)
unfolding started
started-Addressed h month (m, refused e) key = record { tunnel = refl; key = key }
started-Addressed h month (m, found r) key = record { tunnel = refl; key = key }

reserve_from-Addressed :
    (h : Request) (month : Text) (n limit : ℕ) (p : Meter × Loaded (Entry × Balance))
    → Addressed h month (reserve_from h month n limit p)
unfolding reserve_from
reserve_from-Addressed h month n limit (m, refused e) = record {
  tunnel = refl;
  key = λ r eq. absurd (cc);
}
reserve_from-Addressed h month n limit (m, found (e, b)) =
    started-Addressed h month _ (take_grant_key m (key_of h.tunnel month) e b limit n)

reserve-Addressed :
    (m : Meter) (h : Request) (v : Moment) (size limit : ℕ)
    → Addressed h v.month (reserve m h v.gone v.month v.sums v.rows size limit)
unfolding reserve
reserve-Addressed m h v size limit =
    let body =
      reserve_from-Addressed h v.month size limit (entry m h.tunnel v.month v.sums v.rows) in
    elim (Bool-cases h.closed) [
      | inl closed ↦ simp closed (record { tunnel = refl; key = λ r eq. absurd (cc) })
      | inr opened ↦ elim (Bool-cases v.gone) [
        | inl left ↦ simp (opened, left) (record { tunnel = refl; key = λ r eq. absurd (cc) })
        | inr here ↦ simp (opened, here) body
      ]
    ]

abbrev meter_of : Round → Meter
meter_of (more m h n out) = m
meter_of (return c) = c.meter

abbrev count_of : Round → ℕ
count_of (more m h n out) = n
count_of (return c) = c.count

abbrev request_of : Round → Request
request_of (more m h n out) = h
request_of (return c) = c.request

finish_round_parts :
    (m : Meter) (h : Request) (n : ℕ) (out : Outcome) (r : Reservation) (broken : Bool)
    → let round = finish_round m h n out r broken in
      (meter_of round ≡ m) × (count_of round ≡ n) × (request_of round ≡ h)
unfolding finish_round
finish_round_parts m h n (stopped, some e) r broken = (refl, refl, refl)
finish_round_parts m h n (stopped, none) r true = (refl, refl, refl)
finish_round_parts m h n (stopped, none) r false = (ground arith, ground arith, ground arith)

-- A round charges what it counts.
record Charged (m : Meter) (db : Store) (h : Request) (key : Key) (round : Round) : Type 0 where
  kept : Kept m (meter_of round) db (charge_to key (count_of round))
  tunnel : (request_of round).tunnel ≡ h.tunnel

write_chunk-Charged :
    (m : Meter) (db : Store) (h : Request) (v : Moment) (device : Device) (r : Reservation)
    (round : Round)
    → Books m db
    → write_chunk m h v device r ≡ some round
    → Charged m db h r.key round
unfolding write_chunk
write_chunk-Charged m db h v device r round books eq =
    elim (Option-cases (settle m h r (device r.n).0 false v.later v.transaction)) [
      | inl stuck ↦ absurd (ground arith)
      | inr ((m', h', out), done) ↦
          let parts = finish_round_parts m' h' (device r.n).0 out r (device r.n).1 in
          let same : round ≡ finish_round m' h' (device r.n).0 out r (device r.n).1 =
            ground arith in
          let kept =
            settle-Kept m m' db h h' r (device r.n).0 false v.later v.transaction out books done in
          let (_, _, _, _, _, left) =
            settle_parts m m' h h' r (device r.n).0 false v.later v.transaction out done in
          rw same (record { kept = rw (parts.0, parts.1) kept; tunnel = rw (parts.2, left) refl })
    ]

write_from-Charged :
    (m₀ : Meter) (db : Store) (h₀ : Request) (v : Moment) (device : Device)
    (p : Meter × Request × Loaded Reservation) (round : Round)
    → Loads m₀ p.0 db
    → Addressed h₀ v.month p
    → write_from v device p ≡ some round
    → Charged m₀ db h₀ (key_of h₀.tunnel v.month) round
unfolding write_from refused_at Loads-Kept
write_from-Charged m₀ db h₀ v device (m, h, refused e) round loads to eq =
    let same : round ≡ return (refused_at m h 0 e) = ground arith in
    rw same (record {
      kept = Kept_same m₀ m db nothing _ (λ k. ground arith) (Loads-Kept m₀ m db loads);
      tunnel = to.tunnel;
    })
write_from-Charged m₀ db h₀ v device (m, h, found r) round loads to eq =
    let c = write_chunk-Charged m db h v device r round loads.books eq in
    let key : r.key ≡ key_of h₀.tunnel v.month = to.key r refl in
    record {
      kept =
          Kept_same m₀ (meter_of round) db _ _ (λ k. rw key (omega arith))
            (Kept-trans m₀ m (meter_of round) db nothing _ (Loads-Kept m₀ m db loads) c.kept);
      tunnel = c.tunnel ∙ to.tunnel;
    }

write_round-Charged :
    (m : Meter) (db : Store) (h : Request) (v : Moment) (size limit : ℕ) (device : Device)
    (round : Round)
    → Books m db
    → write_round m h v size device limit ≡ some round
    → Charged m db h (key_of h.tunnel v.month) round
unfolding write_round
write_round-Charged m db h v size limit device round books eq =
    write_from-Charged m db h v device (reserve m h v.gone v.month v.sums v.rows size limit) round
      (reserve-Loads m db h v.gone v.month v.sums v.rows size limit books)
      (reserve-Addressed m h v size limit) eq

after_round_inv :
    (n : ℕ) (out : Outcome) (o : Option Copied) (c : Copied)
    → after_round n out o ≡ some c
    → (d : Copied) × (o ≡ some d) × (c.meter ≡ d.meter) × (c.count ≡ n + d.count)
unfolding after_round
after_round_inv n out none c eq = absurd (cc)
after_round_inv n out (some d) c eq = (d, refl, ground arith, ground arith)

next_round-Kept :
    (m : Meter) (db : Store) (h : Request) (key : Key) (c : Copied)
    (rest : Meter → Request → ℕ → Option Copied) (o : Option Round)
    → ((round : Round) → o ≡ some round → Charged m db h key round)
    → ((m₁ : Meter) (h₁ : Request) (n : ℕ) (db₁ : Store) (d : Copied)
        → Books m₁ db₁
        → h₁.tunnel ≡ h.tunnel
        → rest m₁ h₁ n ≡ some d
        → Kept m₁ d.meter db₁ (charge_to key d.count))
    → next_round rest o ≡ some c
    → Kept m c.meter db (charge_to key c.count)
unfolding next_round
next_round-Kept m db h key c rest none charged ih eq = absurd (cc)
next_round-Kept m db h key c rest (some (return d)) charged ih eq =
    let same : c ≡ d = ground arith in rw same (charged (return d) refl).kept
next_round-Kept m db h key c rest (some (more m₁ h₁ n out)) charged ih eq =
    let (d, made, meter, count) = after_round_inv n out (rest m₁ h₁ n) c eq in
    let first = charged (more m₁ h₁ n out) refl in
    let later = ih m₁ h₁ n first.kept.db' d first.kept.books first.tunnel made in
    rw (meter, count)
      (Kept_same m d.meter db _ _ (λ k. ground arith)
        (Kept-trans m m₁ d.meter db _ _ first.kept later))

-- A whole `write` keeps the books, and charges the tunnel in the clock's month exactly the count
-- that it returns, however its rounds, its flushes and the device fail; it charges no other key.
pub write-Kept :
    (fuel : ℕ) (m : Meter) (db : Store) (h : Request) (v : ℕ → Moment) (device : ℕ → Device)
    (i size limit : ℕ) (month : Text) (c : Copied)
    → Books m db
    → ((j : ℕ) → (v j).month ≡ month)
    → write fuel m h v device i size limit ≡ some c
    → Kept m c.meter db (charge_to (key_of h.tunnel month) c.count)
unfolding write
write-Kept zero m db h v device i size limit month c books clock eq = absurd (cc)
write-Kept (suc fuel) m db h v device i size limit month c books clock eq =
    elim (Bool-cases (size == 0)) [
      | inl empty ↦
          let same : c ≡ record { meter = m; request = h; count = 0; error = none; reports = [] } =
            ground arith in
          rw same (record { db' = db; books = books; charged = λ k. ground arith })
      | inr left ↦
          next_round-Kept m db h (key_of h.tunnel month) c
            (λ m' h' n. write fuel m' h' v device (i + 1) (size - n) limit)
            (write_round m h (v i) size (device i) limit)
            (λ round made.
              rw (← clock i)
                (write_round-Charged m db h (v i) size limit (device i) round books made))
            (λ m₁ h₁ n db₁ d books₁ same made. rw (← same) (
              write-Kept fuel m₁ db₁ h₁ v device (i + 1) (size - n) limit month d books₁ clock
                made))
            (ground arith)
    ]
