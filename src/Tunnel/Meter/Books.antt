-- ===== src/Tunnel/Meter/Books.antt =====
-- The meter's books against its tables: what is stored, and what is counted and not yet stored.
use meshbridge.Base.{
  ℕ, ◌+◌, true, ◌≡◌, ap, ◌⊎◌, inl, inr, List, [], ◌∷◌, none, some, arith, ◌=?◌, if◌then◌else◌,
  Bool-cases, Option-cases,
}
use meshbridge.Base.Dict.{Dict, lookup, Distinct, lookup-insert, total, total-insert}
use meshbridge.Base.Text.{eq_text, Text}
use meshbridge.Tunnel.Meter.{eq_key, key_eq_iff, Meter, Entry, Balance, Key, Usage, Row, Store}
use meshbridge.Tunnel.Meter.Load.{spent_in}
use meshbridge.Tunnel.Meter.Flush.{
  is_clean, merged, upsert, write_entries, write_entry, stop_tunnel, warn_tunnel,
}

abbrev pub dirty : Entry → ℕ
dirty e = e.bytes_in + e.bytes_out

abbrev pub stored : Key → Dict Key Usage → ℕ
stored k usage = elim (lookup k usage) [ none ↦ 0 | some u ↦ u.bytes_in + u.bytes_out ]

-- Bytes counted for a key, for a month, and in all, that no table holds yet.
abbrev pub unapplied : Key → Dict Key Entry → ℕ
unapplied k = total (λ j e. if j =? k then dirty e else 0)

abbrev pub unapplied_in : Text → Dict Key Entry → ℕ
unapplied_in month = total (λ j e. if j.month =? month then dirty e else 0)

abbrev pub unapplied_all : Dict Key Entry → ℕ
unapplied_all = total (λ j e. dirty e)

-- The books of a meter over its store `db`.
pub record Books (m : Meter) (db : Store) : Type 0 where
  pub over : m.db ≡ some db
  pub distinct : Distinct m.entries
  pub distinct_months : Distinct m.months
  pub known :
      (k : Key) (e : Entry)
      → lookup k m.entries ≡ some e
      → (b : Balance) × (lookup k.month m.months ≡ some b)
  pub exact :
      (k : Key) (e : Entry) → lookup k m.entries ≡ some e → e.total ≡ stored k db.usage + dirty e
  pub shared :
      (month : Text) (b : Balance)
      → lookup month m.months ≡ some b
      → b.total ≡ spent_in month db.usage + unapplied_in month m.entries
  pub due : m.pending ≡ unapplied_all m.entries

pub stored-upsert :
    (k j : Key) (e : Entry) (usage : Dict Key Usage)
    → stored j (upsert k e usage) ≡ stored j usage + (if k =? j then dirty e else 0)
unfolding upsert
stored-upsert k j e usage =
    ground (arith, key_eq_iff k j, lookup-insert k j (merged e (lookup k usage)) usage)

pub spent_in-upsert :
    (k : Key) (month : Text) (e : Entry) (usage : Dict Key Usage)
    → spent_in month (upsert k e usage)
      ≡ spent_in month usage + (if k.month =? month then dirty e else 0)
unfolding upsert spent_in
spent_in-upsert k month e usage = ground (
  arith,
  total-insert (λ (k : Key) (u : Usage). if k.month =? month then u.bytes_in + u.bytes_out else 0) k
      (merged e (lookup k usage)) usage,
)

-- Only the row of usage takes part in the books.
usage-write_entry :
    (k : Key) (e : Entry) (row : Row) (db : Store)
    → (write_entry k e row db).usage ≡ upsert k e db.usage
unfolding write_entry stop_tunnel warn_tunnel
usage-write_entry k e row db = ground arith

-- What a successful loop of the transaction did with its first entry.
write_entries_first :
    (k : Key) (e : Entry) (rest : Dict Key Entry) (db db' : Store) (stopped : List Text)
    → write_entries ((k, e) ∷ rest) db ≡ some (db', stopped)
    → ((is_clean e ≡ true) × (write_entries rest db ≡ some (db', stopped)))
      ⊎ ((row : Row) × (later : List Text) × (lookup k.id db.tunnels ≡ some row)
          × (write_entries rest (write_entry k e row db) ≡ some (db', later)))
unfolding write_entries
write_entries_first k e rest db db' stopped h = elim (Bool-cases (is_clean e)) [
  | inl clean ↦ inl (clean, rw (write_entries, clean) at h)
  | inr written ↦ elim (Option-cases (lookup k.id db.tunnels)) [
    | inl absent ↦ ground arith
    | inr (row, present) ↦ elim (Option-cases (write_entries rest (write_entry k e row db))) [
      | inl failed ↦ ground arith
      | inr ((db'', later), done) ↦ inr (row, later, present, ground arith)
    ]
  ]
]

-- Any measure of the table that an upsert raises by a weight grows, over the transaction, by the
-- weights of all entries.
pub write_entries_grows :
    (f : Dict Key Usage → ℕ) (g : Key → Entry → ℕ)
    → ((k : Key) (e : Entry) (usage : Dict Key Usage) → f (upsert k e usage) ≡ f usage + g k e)
    → ((k : Key) (e : Entry) → is_clean e ≡ true → g k e ≡ 0)
    → (entries : Dict Key Entry) (db db' : Store) (stopped : List Text)
    → write_entries entries db ≡ some (db', stopped)
    → f db'.usage ≡ f db.usage + total g entries
unfolding total
write_entries_grows f g grows idle [] db db' stopped h = unfold write_entries in ground arith
write_entries_grows f g grows idle ((k, e) ∷ rest) db db' stopped h =
    elim (write_entries_first k e rest db db' stopped h) [
      | inl (clean, done) ↦
          omega (arith, idle k e clean, write_entries_grows f g grows idle rest db db' stopped done)
      | inr (row, later, present, done) ↦ omega (
        arith,
        grows k e db.usage,
        ap f (usage-write_entry k e row db),
        write_entries_grows f g grows idle rest (write_entry k e row db) db' later done,
      )
    ]

pub dirty_of_clean : (e : Entry) → is_clean e ≡ true → dirty e ≡ 0
unfolding is_clean
dirty_of_clean e h = ground arith

pub stored-write_entries :
    (entries : Dict Key Entry) (db db' : Store) (stopped : List Text) (k : Key)
    → write_entries entries db ≡ some (db', stopped)
    → stored k db'.usage ≡ stored k db.usage + unapplied k entries
stored-write_entries entries db db' stopped k =
    write_entries_grows (stored k) (λ j e. if j =? k then dirty e else 0)
      (λ j e usage. stored-upsert j k e usage) (λ j e clean. ground (arith, dirty_of_clean e))
      entries db db' stopped

pub spent_in-write_entries :
    (entries : Dict Key Entry) (db db' : Store) (stopped : List Text) (month : Text)
    → write_entries entries db ≡ some (db', stopped)
    → spent_in month db'.usage ≡ spent_in month db.usage + unapplied_in month entries
spent_in-write_entries entries db db' stopped month =
    write_entries_grows (spent_in month) (λ j e. if j.month =? month then dirty e else 0)
      (λ j e usage. spent_in-upsert j month e usage) (λ j e clean. ground (arith, dirty_of_clean e))
      entries db db' stopped
