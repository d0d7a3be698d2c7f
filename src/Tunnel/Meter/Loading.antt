-- ===== src/Tunnel/Meter/Loading.antt =====
-- internal/tunnel/meter.go: loading balances and entries, against the meter's books.
use meshbridge.Base.{
  ℕ, ◌≡◌, refl, ap, ◌∙◌, inl, inr, Option, none, some, arith, ◌=?◌, if◌then◌else◌, Bool-cases,
  Option-cases, sym, subst,
}
use meshbridge.Base.Dict.{
  lookup, insert-Distinct, lookup-insert, lookup-insert_self, lookup-insert_keeps, total-insert,
  total_zero,
}
use meshbridge.Base.Text.{eq_text, text_eq_iff, Text}
use meshbridge.Tunnel.{Tunnel}
use meshbridge.Tunnel.Meter.{
  eq_key, key_eq_iff, Meter, Entry, Balance, Key, Store, Reply, answered, failed, aborted,
}
use meshbridge.Tunnel.Meter.Load.{
  Loaded, found, refused, spent_in, lost, add_month, read_month, load_balance, add_entry,
  query_entry, read_entry, load_entry, with_entry, with_balance, entry,
}
use meshbridge.Tunnel.Meter.Books.{dirty, stored, unapplied, unapplied_in, Books}

-- The same store, with the same records of every key.
pub record Loads (m m' : Meter) (db : Store) : Type 0 where
  pub books : Books m' db
  pub same : (k : Key) → unapplied k m'.entries ≡ unapplied k m.entries

still : (m : Meter) (db : Store) → Books m db → Loads m m db
still m db v = record { books = v; same = λ k. refl }

lost-Loads :
    (A : Type 0) (m : Meter) (db : Store) (reply : Reply)
    → Books m db
    → Loads m (lost {A = A} m reply).0 db
unfolding lost
lost-Loads A m db aborted v = still m db v
lost-Loads A m db _ v = record {
  books = record {
    over = v.over;
    distinct = v.distinct;
    distinct_months = v.distinct_months;
    known = v.known;
    exact = v.exact;
    shared = v.shared;
    due = v.due;
  };
  same = λ k. refl;
}

-- A month that is not loaded has no entry.
month_absent :
    (m : Meter) (db : Store) (month : Text)
    → Books m db
    → lookup month m.months ≡ none
    → unapplied_in month m.entries ≡ 0
month_absent m db month v absent =
    total_zero (λ j e. if j.month =? month then dirty e else 0) m.entries v.distinct
      λ k e h. let (b, here) = v.known k e h in ground (arith, text_eq_iff k.month month)

add_month-Loads :
    (m : Meter) (db : Store) (month : Text)
    → Books m db
    → lookup month m.months ≡ none
    → Loads m
        (add_month m month (record { total = spent_in month db.usage; reserved = 0; limit = 0 })).0
        db
unfolding add_month
add_month-Loads m db month v absent = record {
  books = record {
    over = v.over;
    distinct = v.distinct;
    distinct_months = insert-Distinct month _ m.months v.distinct_months;
    known = λ k e h.
        let (b, here) = v.known k e h in lookup-insert_keeps month k.month _ b m.months here;
    exact = v.exact;
    shared = λ other b h. ground (
      arith,
      text_eq_iff month other,
      lookup-insert month other
          (record { total = spent_in month db.usage; reserved = 0; limit = 0 }) m.months,
      month_absent m db month v absent,
      v.shared other b,
    );
    due = v.due;
  };
  same = λ k. refl;
}

read_month-Loads :
    (m : Meter) (db : Store) (month : Text) (reply : Reply)
    → Books m db
    → lookup month m.months ≡ none
    → Loads m (read_month m month (some db) reply).0 db
unfolding read_month
read_month-Loads m db month answered v absent = add_month-Loads m db month v absent
read_month-Loads m db month failed v absent = lost-Loads Balance m db failed v
read_month-Loads m db month aborted v absent = lost-Loads Balance m db aborted v

load_balance-Loads :
    (m : Meter) (db : Store) (month : Text) (reply : Reply)
    → Books m db
    → Loads m (load_balance m month reply).0 db
unfolding load_balance
load_balance-Loads m db month reply v = elim (Option-cases (lookup month m.months)) [
  | inl absent ↦
      rw (absent, load_balance)
        (subst (λ o. Loads m (read_month m month o reply).0 db) (sym v.over)
          (read_month-Loads m db month reply v absent))
  | inr (b, present) ↦ rw (present, load_balance) (still m db v)
]

-- The row that is read for an entry is what the table holds of it, and nothing is unapplied.
query_entry_exact :
    (db : Store) (k : Key) (e : Entry)
    → query_entry db k ≡ some e
    → (e.total ≡ stored k db.usage) × (dirty e ≡ 0) × (e.reserved ≡ 0)
unfolding query_entry
query_entry_exact db k e h = ground arith

add_entry-Loads :
    (m : Meter) (db : Store) (k : Key) (e : Entry) (b : Balance)
    → Books m db
    → lookup k m.entries ≡ none
    → lookup k.month m.months ≡ some b
    → e.total ≡ stored k db.usage
    → dirty e ≡ 0
    → Loads m (add_entry m k e).0 db
unfolding add_entry
add_entry-Loads m db k e b v absent month_here exact clean = record {
  books = record {
    over = v.over;
    distinct = insert-Distinct k e m.entries v.distinct;
    distinct_months = v.distinct_months;
    known = λ j f h. elim (Bool-cases (k =? j)) [
      | inl same ↦ (b, ground (arith, key_eq_iff k j))
      | inr other ↦ v.known j f (ground (arith, lookup-insert k j e m.entries))
    ];
    exact = λ j f h. ground (arith, key_eq_iff k j, lookup-insert k j e m.entries, v.exact j f);
    shared = λ month c h. ground (
      arith,
      v.shared month c h,
      total-insert (λ j e. if j.month =? month then dirty e else 0) k e m.entries,
    );
    due = ground (arith, v.due, total-insert (λ j e. dirty e) k e m.entries);
  };
  same = λ j. ground (arith, total-insert (λ i e. if i =? j then dirty e else 0) k e m.entries);
}

read_entry-Loads :
    (m : Meter) (db : Store) (k : Key) (quota : ℕ) (reply : Reply) (b : Balance)
    → Books m db
    → lookup k m.entries ≡ none
    → lookup k.month m.months ≡ some b
    → Loads m (read_entry m k quota (some db) reply).0 db
unfolding read_entry
read_entry-Loads m db k quota answered b v absent month_here =
    elim (Option-cases (query_entry db k)) [
      | inl missing ↦ rw (missing, read_entry) (still m db v)
      | inr (e, row) ↦
          let (exact, clean, _) = query_entry_exact db k e row in
          rw (row, read_entry) (add_entry-Loads m db k e b v absent month_here exact clean)
    ]
read_entry-Loads m db k quota failed b v absent month_here = lost-Loads Entry m db failed v
read_entry-Loads m db k quota aborted b v absent month_here = lost-Loads Entry m db aborted v

load_entry-Loads :
    (m : Meter) (db : Store) (k : Key) (quota : ℕ) (reply : Reply) (b : Balance)
    → Books m db
    → lookup k.month m.months ≡ some b
    → Loads m (load_entry m k quota reply).0 db
unfolding load_entry
load_entry-Loads m db k quota reply b v month_here = elim (Option-cases (lookup k m.entries)) [
  | inl absent ↦
      rw (absent, load_entry)
        (subst (λ o. Loads m (read_entry m k quota o reply).0 db) (sym v.over)
          (read_entry-Loads m db k quota reply b v absent month_here))
  | inr (e, present) ↦ rw (present, load_entry) (still m db v)
]

add_month_found :
    (m m' : Meter) (month : Text) (c b : Balance)
    → add_month m month c ≡ (m', found b)
    → lookup month m'.months ≡ some b
unfolding add_month
add_month_found m m' month c b h = ground (arith, lookup-insert_self month c m.months)

read_month_found :
    (m m' : Meter) (month : Text) (o : Option Store) (reply : Reply) (b : Balance)
    → read_month m month o reply ≡ (m', found b)
    → lookup month m'.months ≡ some b
unfolding read_month lost
read_month_found m m' month none reply b h = add_month_found m m' month _ b h
read_month_found m m' month (some db) answered b h = add_month_found m m' month _ b h
read_month_found m m' month (some db) failed b h = ground arith
read_month_found m m' month (some db) aborted b h = ground arith

load_balance_found :
    (m m' : Meter) (month : Text) (reply : Reply) (b : Balance)
    → load_balance m month reply ≡ (m', found b)
    → lookup month m'.months ≡ some b
unfolding load_balance
load_balance_found m m' month reply b h = elim (Option-cases (lookup month m.months)) [
  | inl absent ↦ read_month_found m m' month m.db reply b (rw (load_balance, absent) at h)
  | inr (c, present) ↦ ground arith
]

add_entry_found :
    (m m' : Meter) (k : Key) (f e : Entry)
    → add_entry m k f ≡ (m', found e)
    → (lookup k m'.entries ≡ some e) × (m'.months ≡ m.months)
unfolding add_entry
add_entry_found m m' k f e h = ground (arith, lookup-insert_self k f m.entries)

read_entry_found :
    (m m' : Meter) (k : Key) (quota : ℕ) (o : Option Store) (reply : Reply) (e : Entry)
    → read_entry m k quota o reply ≡ (m', found e)
    → (lookup k m'.entries ≡ some e) × (m'.months ≡ m.months)
unfolding read_entry lost
read_entry_found m m' k quota none reply e h = add_entry_found m m' k _ e h
read_entry_found m m' k quota (some db) answered e h = elim (Option-cases (query_entry db k)) [
  | inl missing ↦ ground arith
  | inr (f, row) ↦ add_entry_found m m' k f e (rw (read_entry, row) at h)
]
read_entry_found m m' k quota (some db) failed e h = ground arith
read_entry_found m m' k quota (some db) aborted e h = ground arith

load_entry_found :
    (m m' : Meter) (k : Key) (quota : ℕ) (reply : Reply) (e : Entry)
    → load_entry m k quota reply ≡ (m', found e)
    → (lookup k m'.entries ≡ some e) × (m'.months ≡ m.months)
unfolding load_entry
load_entry_found m m' k quota reply e h = elim (Option-cases (lookup k m.entries)) [
  | inl absent ↦ read_entry_found m m' k quota m.db reply e (rw (load_entry, absent) at h)
  | inr (f, present) ↦ (ground arith, ground arith)
]

with_entry_found :
    (b c : Balance) (e : Entry) (m' : Meter) (p : Meter × Loaded Entry)
    → with_entry b p ≡ (m', found (e, c))
    → (p ≡ (m', found e)) × (b ≡ c)
unfolding with_entry
with_entry_found b c e m' (m, refused x) h = (ground arith, ground arith)
with_entry_found b c e m' (m, found f) h = (ground arith, ground arith)

with_balance_found :
    (k : Key) (quota : ℕ) (reply : Reply) (e : Entry) (b : Balance) (m' : Meter)
    (p : Meter × Loaded Balance)
    → with_balance k quota reply p ≡ (m', found (e, b))
    → (m₁ : Meter) × (p ≡ (m₁, found b)) × (load_entry m₁ k quota reply ≡ (m', found e))
unfolding with_balance
with_balance_found k quota reply e b m' (m, refused x) h = (m, ground arith, ground arith)
with_balance_found k quota reply e b m' (m, found c) h =
    let (loaded, same) = with_entry_found c b e m' (load_entry m k quota reply) h in
    (m, rw same, loaded)

-- Both halves of a successful load stand in the meter that it leaves.
pub entry_found :
    (m m' : Meter) (t : Tunnel) (month : Text) (sums rows : Reply) (e : Entry) (b : Balance)
    → entry m t month sums rows ≡ (m', found (e, b))
    → (lookup (record { id = t.id; month = month }) m'.entries ≡ some e)
      × (lookup month m'.months ≡ some b)
unfolding entry
entry_found m m' t month sums rows e b h = elim (Bool-cases m.failure) [
  | inl broken ↦ (ground arith, ground arith)
  | inr well ↦
      let (m₁, balance, loaded) =
        with_balance_found (record { id = t.id; month = month }) t.monthly_quota_byte rows e b m'
          (load_balance m month sums) (simp well at h) in
      let (here, months) = load_entry_found m₁ m' _ _ rows e loaded in
      (here, rw months (load_balance_found m m₁ month sums b balance))
]

with_entry_meter : (b : Balance) (p : Meter × Loaded Entry) → (with_entry b p).0 ≡ p.0
unfolding with_entry
with_entry_meter b (m, refused x) = refl
with_entry_meter b (m, found e) = refl

with_balance-Loads :
    (k : Key) (quota : ℕ) (reply : Reply) (m : Meter) (db : Store) (p : Meter × Loaded Balance)
    → Loads m p.0 db
    → ((b : Balance) → p.1 ≡ found b → lookup k.month p.0.months ≡ some b)
    → Loads m (with_balance k quota reply p).0 db
unfolding with_balance
with_balance-Loads k quota reply m db (m₁, refused x) v here = v
with_balance-Loads k quota reply m db (m₁, found b) v here =
    let w = load_entry-Loads m₁ db k quota reply b v.books (here b refl) in
    rw (with_entry_meter b (load_entry m₁ k quota reply))
      (record { books = w.books; same = λ j. w.same j ∙ v.same j })

-- A load keeps the books and charges nothing, whatever it answers.
pub entry-Loads :
    (m : Meter) (db : Store) (t : Tunnel) (month : Text) (sums rows : Reply)
    → Books m db
    → Loads m (entry m t month sums rows).0 db
unfolding entry
entry-Loads m db t month sums rows v = elim (Bool-cases m.failure) [
  | inl broken ↦ simp broken (still m db v)
  | inr well ↦ simp well (
      with_balance-Loads _ t.monthly_quota_byte rows m db (load_balance m month sums)
        (load_balance-Loads m db month sums v)
        (λ b h.
          let p = load_balance m month sums in
          load_balance_found m p.0 month sums b (ap (λ l. (p.0, l)) h)))
]
