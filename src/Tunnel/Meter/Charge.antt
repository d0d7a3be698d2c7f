-- ===== src/Tunnel/Meter/Charge.antt =====
-- internal/tunnel/meter.go: what `settle`, loading and reserving charge to each key.
use meshbridge.Base.{
  ℕ, ◌+◌, ◌-◌, Bool, ◌≡◌, refl, inl, inr, some, arith, ◌=?◌, if◌then◌else◌, Bool-cases,
  Option-cases, leb, ◌||◌,
}
use meshbridge.Base.Dict.{
  lookup, insert, insert-Distinct, lookup-insert, lookup-insert_keeps, total-insert,
}
use meshbridge.Base.Text.{eq_text, text_eq_iff, Text}
use meshbridge.Tunnel.Meter.{
  eq_key, key_eq_iff, Meter, Entry, Balance, Key, Store, Reply, meter_flush_bytes,
}
use meshbridge.Tunnel.Meter.Reserve.{Request, Reservation}
use meshbridge.Tunnel.Meter.Flush.{Outcome}
use meshbridge.Tunnel.Meter.Settle.{
  settled, settled_balance, counted, after_count, at_limit, settle,
}
use meshbridge.Tunnel.Meter.Books.{dirty, unapplied, Books}
use meshbridge.Tunnel.Meter.Conserve.{Kept, nothing, flush_locked-Kept}

counts_of_settled :
    (r : Reservation) (n : ℕ) (incoming : Bool) (e : Entry)
    → ((settled r n incoming e).total ≡ e.total + n)
      × (dirty (settled r n incoming e) ≡ dirty e + n)
unfolding settled
counts_of_settled r n incoming e = (refl, ground arith)

-- The charge of one settled reservation.
abbrev pub charge : Reservation → ℕ → Key → ℕ
charge r n k = if r.key =? k then n else 0

unapplied-counted :
    (m : Meter) (r : Reservation) (n : ℕ) (incoming : Bool) (e : Entry) (b : Balance) (k : Key)
    → lookup r.key m.entries ≡ some e
    → unapplied k (counted m r n (settled r n incoming e) b).entries
      ≡ unapplied k m.entries + charge r n k
unfolding counted
unapplied-counted m r n incoming e b k here = ground (
  arith,
  total-insert (λ j e. if j =? k then dirty e else 0) r.key (settled r n incoming e) m.entries,
  counts_of_settled r n incoming e,
)

counted_known :
    (m : Meter) (db : Store) (r : Reservation) (e' : Entry) (b b' : Balance)
    → Books m db
    → lookup r.key.month m.months ≡ some b
    → (k : Key) (f : Entry) → lookup k (insert r.key e' m.entries) ≡ some f
    → (c : Balance) × (lookup k.month (insert r.key.month b' m.months) ≡ some c)
counted_known m db r e' b b' v month_here k f h = elim (Bool-cases (r.key =? k)) [
  | inl same ↦
      let month : r.key.month ≡ k.month = ground (arith, key_eq_iff r.key k) in
      lookup-insert_keeps r.key.month k.month b' b m.months (ground arith)
  | inr other ↦
      let (c, here) = v.known k f (ground (arith, lookup-insert r.key k e' m.entries)) in
      lookup-insert_keeps r.key.month k.month b' c m.months here
]

counted-Books :
    (m : Meter) (db : Store) (r : Reservation) (n : ℕ) (incoming : Bool) (e : Entry) (b : Balance)
    → Books m db
    → lookup r.key m.entries ≡ some e
    → lookup r.key.month m.months ≡ some b
    → Books (counted m r n (settled r n incoming e) (settled_balance r n b)) db
unfolding counted
counted-Books m db r n incoming e b v here month_here = record {
  over = v.over;
  distinct = insert-Distinct r.key _ m.entries v.distinct;
  distinct_months = insert-Distinct r.key.month _ m.months v.distinct_months;
  known = counted_known m db r _ b _ v month_here;
  exact = λ k e' h. ground (
    arith,
    key_eq_iff r.key k,
    lookup-insert r.key k (settled r n incoming e) m.entries,
    counts_of_settled r n incoming e,
    v.exact r.key e here,
    v.exact k e',
  );
  shared = λ month b' h.
      unfold settled_balance in
      ground (
        arith,
        text_eq_iff r.key.month month,
        lookup-insert r.key.month month (settled_balance r n b) m.months,
        total-insert (λ j e. if j.month =? month then dirty e else 0) r.key (settled r n incoming e)
            m.entries,
        counts_of_settled r n incoming e,
        v.shared r.key.month b month_here,
        v.shared month b',
      );
  due = ground (
    arith,
    v.due,
    total-insert (λ j e. dirty e) r.key (settled r n incoming e) m.entries,
    counts_of_settled r n incoming e,
  );
}

after_count-Kept :
    (m : Meter) (db : Store) (e : Entry) (b : Balance) (current : Text) (reply : Reply)
    → Books m db
    → Kept m (after_count m e b current reply).0 db nothing
unfolding after_count
after_count-Kept m db e b current reply v =
    elim (Bool-cases (leb meter_flush_bytes m.pending || e.stop_pending || at_limit b)) [
      | inl flushes ↦ rw flushes (flush_locked-Kept m db current reply v)
      | inr quiet ↦ rw quiet (record { db' = db; books = v; charged = λ k. omega arith })
    ]

-- What a settled reservation found, and what it left.
pub settle_parts :
    (m m' : Meter) (h h' : Request) (r : Reservation) (n : ℕ) (incoming : Bool) (current : Text)
    (reply : Reply) (out : Outcome)
    → settle m h r n incoming current reply ≡ some (m', h', out)
    → (e : Entry) × (b : Balance) × (lookup r.key m.entries ≡ some e)
      × (lookup r.key.month m.months ≡ some b)
      × (m'
          ≡ (after_count
              (counted m r n (settled r n incoming e) (settled_balance r n b))
              (settled r n incoming e)
              (settled_balance r n b)
              current
              reply).0)
      × (h' ≡ record h { waiting = h.waiting - 1 })
unfolding settle
settle_parts m m' h h' r n incoming current reply out done =
    elim (Option-cases (lookup r.key m.entries)) [
      | inl absent ↦ ground arith
      | inr (e, here) ↦ elim (Option-cases (lookup r.key.month m.months)) [
        | inl absent ↦ ground arith
        | inr (b, month_here) ↦ (e, b, here, month_here, ground arith, ground arith)
      ]
    ]

-- Settling charges the reservation's key exactly `n`, whichever way the bytes went and whatever
-- becomes of the flush that it may cause, and charges no other key.
pub settle-Kept :
    (m m' : Meter) (db : Store) (h h' : Request) (r : Reservation) (n : ℕ) (incoming : Bool)
    (current : Text) (reply : Reply) (out : Outcome)
    → Books m db
    → settle m h r n incoming current reply ≡ some (m', h', out)
    → Kept m m' db (charge r n)
settle-Kept m m' db h h' r n incoming current reply out v done =
    let (e, b, here, month_here, left, _) =
      settle_parts m m' h h' r n incoming current reply out done in
    let books = counted-Books m db r n incoming e b v here month_here in
    let after =
      after_count-Kept _ db (settled r n incoming e) (settled_balance r n b) current reply books in
    rw left (record {
      db' = after.db';
      books = after.books;
      charged = λ k. omega (
        arith,
        after.charged k,
        unapplied-counted m r n incoming e (settled_balance r n b) k here,
      );
    })
