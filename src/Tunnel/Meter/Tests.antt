-- ===== src/Tunnel/Meter/Tests.antt =====
-- The meter at small inputs: a tunnel with a quota of 100 bytes, and a budget of 1000 for all.
use meshbridge.Base.{ℕ, true, false, ◌≡◌, refl, [], ◌∷◌, Option, none, some, arith}
use meshbridge.Base.Dict.{lookup, insert, total}
use meshbridge.Base.Text.{Text, codes, text_eq, eq_text}
use meshbridge.Tunnel.{Tunnel, quota}
use meshbridge.Tunnel.Meter.{eq_key, key_eq, Meter, Store, answered, failed}
use meshbridge.Tunnel.Meter.Load.{Loaded}
use meshbridge.Tunnel.Meter.Reserve.{Request, Reservation, reserve}
use meshbridge.Tunnel.Meter.Flush.{Outcome, flush_locked, is_clean}
use meshbridge.Tunnel.Meter.Settle.{settle}
use meshbridge.Tunnel.Meter.Copy.{Moment, Device, Copied, write, write_round}
use meshbridge.Tunnel.Meter.Books.{Books}
use meshbridge.Tunnel.Meter.Conserve.{Kept, nothing, flush_locked-Kept}
use meshbridge.Tunnel.Meter.Charge.{charge, settle-Kept}
use meshbridge.Tunnel.Meter.Budget.{reserve-Loads}
use meshbridge.Tunnel.Meter.Stream.{Finished, write-Finished}
use meshbridge.Tunnel.Meter.Accounts.{charge_to, write-Kept}

abbrev july : Text
july = codes "2026-07"

abbrev shared_tunnel : Tunnel
shared_tunnel = record {
  id = codes "t1";
  device_id = codes "d1";
  name = codes "demo";
  slug = codes "0123456789abcdef0123456789abcdef";
  target_scheme = codes "http";
  target_host = codes "127.0.0.1";
  target_port = 8080;
  key_required = false;
  access_key_hash = [];
  status = codes "active";
  strip_prefix = true;
  sandbox = true;
  monthly_quota_byte = 100;
  max_request_bytes = 1000;
  created_by = codes "u1";
  created_at = 0;
  updated_at = 0;
}

abbrev tables : Store
tables = record {
  usage =
      (
        record { id = codes "t1"; month = july },
        record { bytes_in = 30; bytes_out = 10; warned = false },
      )
      ∷ [];
  tunnels = (codes "t1", record { status = codes "active"; quota = 100 }) ∷ [];
  audits = [];
}

abbrev fresh : Meter
fresh = record {
  db = some tables;
  entries = [];
  months = [];
  active = (codes "t1", 1) ∷ [];
  pending = 0;
  failure = false;
}

abbrev visit : Request
visit = record { tunnel = shared_tunnel; closed = false; finished = false; waiting = 0 }

fresh-Books : Books fresh tables
unfolding total
fresh-Books = record {
  over = refl;
  distinct = tt;
  distinct_months = tt;
  known = λ k e h. absurd (unfold lookup in cc);
  exact = λ k e h. absurd (unfold lookup in cc);
  shared = λ month b h. absurd (unfold lookup in cc);
  due = refl;
}

abbrev quiet : ℕ → Moment
quiet i = record {
  gone = false;
  month = july;
  later = july;
  sums = answered;
  rows = answered;
  transaction = answered;
}

abbrev full : ℕ → Device
full i n = (n, false)

nowhere : Copied
nowhere = record { meter = fresh; request = visit; count = 0; error = none; reports = [] }

copied : Option Copied → Copied
unfolding nowhere
copied none = nowhere
copied (some c) = c

-- 40 of 100 bytes are spent, so 60 of 75 pass, and the rest meets the quota.
sent : Copied
unfolding copied write write_round reserve settle flush_locked is_clean insert lookup text_eq key_eq
    total
sent = copied (write 76 fresh visit quiet full 0 75 1000)

sent_lem : write 76 fresh visit quiet full 0 75 1000 ≡ some sent
unfolding sent
sent_lem = refl

sent_short : (sent.count ≡ 60) × (sent.error ≡ some quota)
unfolding sent
sent_short = (refl, refl)

write-Kept_example :
    Kept fresh sent.meter tables (charge_to (record { id = codes "t1"; month = july }) sent.count)
write-Kept_example =
    write-Kept 76 fresh tables visit quiet full 0 75 1000 july sent fresh-Books (λ j. refl) sent_lem

write-Finished_example : Finished 75 (write 76 fresh visit quiet full 0 75 1000)
write-Finished_example =
    write-Finished 76 fresh visit quiet full 0 75 1000 (λ j n. omega arith) (omega arith)

-- One chunk for the tunnel is reserved and not settled.
held : Meter × Request × Loaded Reservation
unfolding reserve insert lookup text_eq key_eq total
held = reserve fresh visit false july answered answered 75 1000

abbrev sixty : Reservation
sixty = record { key = record { id = codes "t1"; month = july }; n = 60 }

held-Books : Books held.0 tables
unfolding held
held-Books =
    (reserve-Loads fresh tables visit false july answered answered 75 1000 fresh-Books).books

-- 10 of the 60 bytes were read.
spent : Option (Meter × Request × Outcome) → Meter × Request × Outcome
spent none = (fresh, visit, ([], none))
spent (some r) = r

ten : Meter × Request × Outcome
unfolding held spent settle flush_locked is_clean
ten = spent (settle held.0 held.1 sixty 10 true july answered)

ten_lem : settle held.0 held.1 sixty 10 true july answered ≡ some (ten.0, ten.1, ten.2)
unfolding ten
ten_lem = refl

ten-Kept : Kept held.0 ten.0 tables (charge sixty 10)
ten-Kept =
    settle-Kept held.0 ten.0 tables held.1 ten.1 sixty 10 true july answered ten.2 held-Books
      ten_lem

-- The transaction of the flush fails.
flush_locked-Kept_example : Kept ten.0 (flush_locked ten.0 july failed).0 ten-Kept.db' nothing
flush_locked-Kept_example = flush_locked-Kept ten.0 ten-Kept.db' july failed ten-Kept.books

failure_latched : (flush_locked ten.0 july failed).0.failure ≡ true
unfolding ten
failure_latched = refl
