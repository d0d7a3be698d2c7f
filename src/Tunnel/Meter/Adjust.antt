-- ===== src/Tunnel/Meter/Adjust.antt =====
-- internal/tunnel/meter.go: changes of a balance or an entry, against the meter's books.
use meshbridge.Base.{◌≡◌, inl, inr, some, arith, ◌=?◌, if◌then◌else◌, Bool-cases}
use meshbridge.Base.Dict.{
  lookup, insert, insert-Distinct, lookup-insert, lookup-insert_keeps, total-insert,
}
use meshbridge.Base.Text.{eq_text, text_eq_iff, Text}
use meshbridge.Tunnel.Meter.{eq_key, key_eq_iff, Meter, Entry, Balance, Key, Store}
use meshbridge.Tunnel.Meter.Books.{dirty, Books}
use meshbridge.Tunnel.Meter.Loading.{Loads}

pub set_balance-Books :
    (m : Meter) (db : Store) (month : Text) (b b' : Balance)
    → Books m db
    → lookup month m.months ≡ some b
    → b'.total ≡ b.total
    → Books (record m { months = insert month b' m.months }) db
set_balance-Books m db month b b' v here same = record {
  over = v.over;
  distinct = v.distinct;
  distinct_months = insert-Distinct month b' m.months v.distinct_months;
  known = λ k e h.
      let (c, there) = v.known k e h in lookup-insert_keeps month k.month b' c m.months there;
  exact = v.exact;
  shared = λ other c h. ground (
    arith,
    text_eq_iff month other,
    lookup-insert month other b' m.months,
    v.shared month b here,
    v.shared other c,
  );
  due = v.due;
}

pub set_entry-Loads :
    (m : Meter) (db : Store) (k : Key) (e e' : Entry)
    → Books m db
    → lookup k m.entries ≡ some e
    → e'.total ≡ e.total
    → dirty e' ≡ dirty e
    → Loads m (record m { entries = insert k e' m.entries }) db
set_entry-Loads m db k e e' v here same same_dirty = record {
  books = record {
    over = v.over;
    distinct = insert-Distinct k e' m.entries v.distinct;
    distinct_months = v.distinct_months;
    known = λ j f h. elim (Bool-cases (k =? j)) [
      | inl hit ↦
          let same_key : k ≡ j = (key_eq_iff k j).0 hit in rw (← same_key) (v.known k e here)
      | inr other ↦ v.known j f (ground (arith, lookup-insert k j e' m.entries))
    ];
    exact = λ j f h.
        ground
          (arith, key_eq_iff k j, lookup-insert k j e' m.entries, v.exact k e here, v.exact j f);
    shared = λ month c h. ground (
      arith,
      v.shared month c h,
      total-insert (λ j e. if j.month =? month then dirty e else 0) k e' m.entries,
    );
    due = ground (arith, v.due, total-insert (λ j e. dirty e) k e' m.entries);
  };
  same = λ j. ground (arith, total-insert (λ i e. if i =? j then dirty e else 0) k e' m.entries);
}
