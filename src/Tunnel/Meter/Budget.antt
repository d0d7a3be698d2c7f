-- ===== src/Tunnel/Meter/Budget.antt =====
-- internal/tunnel/meter.go: the size of a reservation against chunk, quota and shared budget.
use Prim.Native.Nat.{min}
use meshbridge.Base.{
  ℕ, ◌+◌, ◌-◌, ◌≤◌, ◌<◌, Bool, ◌≡◌, refl, ◌∙◌, ◌⊎◌, inl, inr, some, arith, ◌==◌, if◌then◌else◌,
  Bool-cases, ap,
}
use meshbridge.Base.Dict.{lookup, insert, lookup-insert_self}
use meshbridge.Base.Text.{eq_text, Text}
use meshbridge.Tunnel.Meter.{eq_key, Meter, Entry, Balance, Key, Store, Reply, meter_chunk}
use meshbridge.Tunnel.Meter.Load.{Loaded, found, refused, entry}
use meshbridge.Tunnel.Meter.Reserve.{
  Request, Reservation, capped, grant, take_grant, started, reserve_from, reserve,
}
use meshbridge.Tunnel.Meter.Books.{Books}
use meshbridge.Tunnel.Meter.Adjust.{set_balance-Books, set_entry-Loads}
use meshbridge.Tunnel.Meter.Loading.{Loads, entry_found, entry-Loads}

-- A cap that lets something through leaves the sum within its limit, and lowers what it is given.
capped_within :
    (limit total reserved want : ℕ)
    → 0 < capped limit total reserved want
    → (capped limit total reserved want ≤ want)
      × (0 < limit → total + reserved + capped limit total reserved want ≤ limit)
unfolding capped
capped_within limit total reserved want h = ground arith

-- How much is free under a limit, where 0 is no limit.
abbrev pub free : ℕ → ℕ → ℕ → ℕ → ℕ
free limit total reserved want = if limit == 0 then want else min want (limit - (total + reserved))

-- The grant is the least of what was asked for, a chunk, and what either budget has free.
pub grant_least :
    (e : Entry) (b : Balance) (global_limit n : ℕ)
    → grant e b global_limit n
      ≡ free global_limit b.total b.reserved (free e.quota e.total e.reserved (min n meter_chunk))
unfolding grant capped
grant_least e b global_limit n = ground arith

grant_bounds :
    (e : Entry) (b : Balance) (global_limit n : ℕ)
    → 0 < grant e b global_limit n
    → (grant e b global_limit n ≤ n)
      × (grant e b global_limit n ≤ meter_chunk)
      × (0 < e.quota → e.total + (e.reserved + grant e b global_limit n) ≤ e.quota)
      × (0 < global_limit → b.total + (b.reserved + grant e b global_limit n) ≤ global_limit)
unfolding grant capped
grant_bounds e b global_limit n h = ground arith

-- What stands behind a reservation that was made: its entry and its month's balance hold it, within
-- the quota and the shared budget.
pub record Granted (m : Meter) (r : Reservation) (n global_limit : ℕ) : Type 0 where
  pub entry : Entry
  pub balance : Balance
  pub entry_here : lookup r.key m.entries ≡ some entry
  pub balance_here : lookup r.key.month m.months ≡ some balance
  pub positive : 0 < r.n
  pub asked : r.n ≤ n
  pub chunk : r.n ≤ meter_chunk
  pub entry_holds : r.n ≤ entry.reserved
  pub balance_holds : r.n ≤ balance.reserved
  pub in_quota : (entry.quota ≡ 0) ⊎ (entry.total + entry.reserved ≤ entry.quota)
  pub in_budget : (global_limit ≡ 0) ⊎ (balance.total + balance.reserved ≤ global_limit)

take_grant-Granted :
    (m m' : Meter) (k : Key) (e : Entry) (b : Balance) (global_limit n : ℕ) (r : Reservation)
    → take_grant m k e b global_limit n ≡ (m', found r)
    → Granted m' r n global_limit
unfolding take_grant
take_grant-Granted m m' k e b global_limit n r h =
    let want = grant e b global_limit n in
    let e' = record e { reserved = e.reserved + want } in
    let b' = record b { limit = global_limit; reserved = b.reserved + want } in
    let positive : 0 < want = ground arith in
    let bounds = grant_bounds e b global_limit n positive in
    let same : r ≡ record { key = k; n = want } = ground arith in
    record {
      entry = e';
      balance = b';
      entry_here = ground (arith, lookup-insert_self k e' m.entries);
      balance_here = ground (arith, lookup-insert_self k.month b' m.months);
      positive = rw same positive;
      asked = rw same bounds.0;
      chunk = rw same bounds.1;
      entry_holds = rw same (omega arith);
      balance_holds = rw same (omega arith);
      in_quota = ground (arith, bounds.2);
      in_budget = ground (arith, bounds.3);
    }

started_found :
    (h h' : Request) (p : Meter × Loaded Reservation) (m' : Meter) (r : Reservation)
    → started h p ≡ (m', h', found r)
    → p ≡ (m', found r)
unfolding started
started_found h h' (m, refused x) m' r eq = ground arith
started_found h h' (m, found s) m' r eq = ground arith

reserve_from-Granted :
    (m' : Meter) (h h' : Request) (month : Text) (n global_limit : ℕ) (r : Reservation)
    (p : Meter × Loaded (Entry × Balance))
    → reserve_from h month n global_limit p ≡ (m', h', found r)
    → Granted m' r n global_limit
unfolding reserve_from
reserve_from-Granted m' h h' month n global_limit r (m, refused x) eq = absurd (cc)
reserve_from-Granted m' h h' month n global_limit r (m, found (e, b)) eq =
    take_grant-Granted m m' _ e b global_limit n r (started_found h h' _ m' r eq)

pub reserve-Granted :
    (m m' : Meter) (h h' : Request) (gone : Bool) (month : Text) (sums rows : Reply)
    (n global_limit : ℕ) (r : Reservation)
    → reserve m h gone month sums rows n global_limit ≡ (m', h', found r)
    → Granted m' r n global_limit
unfolding reserve
reserve-Granted m m' h h' gone month sums rows n global_limit r eq =
    reserve_from-Granted m' h h' month n global_limit r (entry m h.tunnel month sums rows)
      (ground arith)

-- A grant raises only what is reserved, and so charges nothing.
take_grant-Loads :
    (m : Meter) (db : Store) (k : Key) (e : Entry) (b : Balance) (global_limit n : ℕ)
    → Books m db
    → lookup k m.entries ≡ some e
    → lookup k.month m.months ≡ some b
    → Loads m (take_grant m k e b global_limit n).0 db
unfolding take_grant
take_grant-Loads m db k e b global_limit n v here month_here =
    let want = grant e b global_limit n in
    let limited = record b { limit = global_limit } in
    let held = record b { limit = global_limit; reserved = b.reserved + want } in
    elim (Bool-cases (want == 0)) [
      | inl empty ↦ rw empty (record {
        books = set_balance-Books m db k.month b limited v month_here refl;
        same = λ j. refl;
      })
      | inr some_room ↦
          let w =
            set_entry-Loads (record m { months = insert k.month held m.months }) db k e
              (record e { reserved = e.reserved + want })
              (set_balance-Books m db k.month b held v month_here refl) here refl refl in
          rw some_room (record { books = w.books; same = w.same })
    ]

started_meter : (h : Request) (p : Meter × Loaded Reservation) → (started h p).0 ≡ p.0
unfolding started
started_meter h (m, refused e) = refl
started_meter h (m, found r) = refl

reserve_from-Loads :
    (m : Meter) (db : Store) (h : Request) (month : Text) (n global_limit : ℕ)
    (p : Meter × Loaded (Entry × Balance))
    → Loads m p.0 db
    → ((e : Entry) (b : Balance)
        → p.1 ≡ found (e, b)
        → (lookup (record { id = h.tunnel.id; month = month }) p.0.entries ≡ some e)
          × (lookup month p.0.months ≡ some b))
    → Loads m (reserve_from h month n global_limit p).0 db
unfolding reserve_from
reserve_from-Loads m db h month n global_limit (m₁, refused x) v here = v
reserve_from-Loads m db h month n global_limit (m₁, found (e, b)) v here =
    let (entry_here, month_here) = here e b refl in
    let w = take_grant-Loads m₁ db _ e b global_limit n v.books entry_here month_here in
    rw (started_meter h (take_grant m₁ _ e b global_limit n))
      (record { books = w.books; same = λ j. w.same j ∙ v.same j })

-- Reserving keeps the books over the same store and charges no key, whatever it answers.
pub reserve-Loads :
    (m : Meter) (db : Store) (h : Request) (gone : Bool) (month : Text) (sums rows : Reply)
    (n global_limit : ℕ)
    → Books m db
    → Loads m (reserve m h gone month sums rows n global_limit).0 db
unfolding reserve
reserve-Loads m db h gone month sums rows n global_limit v =
    let still : Loads m m db = record { books = v; same = λ j. refl } in
    let loaded = entry m h.tunnel month sums rows in
    let body =
      reserve_from-Loads m db h month n global_limit loaded
        (entry-Loads m db h.tunnel month sums rows v)
        (λ e b eq.
          entry_found m loaded.0 h.tunnel month sums rows e b (ap (λ l. (loaded.0, l)) eq)) in
    elim (Bool-cases h.closed) [
      | inl closed ↦ simp closed still
      | inr opened ↦ elim (Bool-cases gone) [
        | inl left ↦ simp (opened, left) still
        | inr here ↦ simp (opened, here) body
      ]
    ]
