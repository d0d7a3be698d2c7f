-- ===== src/Tunnel/Meter/Conserve.antt =====
-- internal/tunnel/meter.go: the flush against the meter's books.
use meshbridge.Base.{
  ℕ, ◌+◌, true, not, ◌≡◌, refl, sym, subst, inl, inr, List, some, arith, ◌=?◌, eq_self, ◌==◌,
  if◌then◌else◌, Bool-cases, Option-cases,
}
use meshbridge.Base.Dict.{
  Dict, lookup, Distinct, lookup_of_keep, lookup-keep, any_of_lookup, keep-Distinct,
  lookup_of_map_values, map_values-Distinct, total, total-keep, total-map_values, total_at,
}
use meshbridge.Base.Text.{eq_text, Text}
use meshbridge.Tunnel.Meter.{
  eq_key, Meter, Entry, Balance, Key, Store, Reply, answered, failed, aborted,
}
use meshbridge.Tunnel.Meter.Flush.{
  cleared, clear_all, abandon, stale, uses_month, used_month, prune, commit, flush_into,
  flush_locked, write_entries,
}
use meshbridge.Tunnel.Meter.Books.{
  dirty, stored, unapplied, Books, dirty_of_clean, stored-write_entries, spent_in-write_entries,
}

dirty_of_stale :
    (m : Meter) (current : Text) (p : Key × Entry) → stale m current p ≡ true → dirty p.1 ≡ 0
unfolding stale
dirty_of_stale m current (k, e) h = ground (arith, dirty_of_clean e)

-- Pruning drops only entries with nothing unapplied, so it changes no sum.
total-prune :
    (m : Meter) (current : Text) (g : Key → Entry → ℕ)
    → ((k : Key) (e : Entry) → dirty e ≡ 0 → g k e ≡ 0)
    → total g (prune m current).entries ≡ total g m.entries
unfolding prune
total-prune m current g h =
    total-keep g (λ p. not (stale m current p)) m.entries
      λ k e gone. h k e (dirty_of_stale m current (k, e) (ground arith))

-- A month stays while an entry of it does.
prune_known :
    (m : Meter) (db : Store) (current : Text)
    → Books m db
    → (k : Key) (e : Entry) → lookup k (prune m current).entries ≡ some e
    → (b : Balance) × (lookup k.month (prune m current).months ≡ some b)
unfolding prune uses_month used_month
prune_known m db current v k e h =
    let (b, here) =
      v.known k e (lookup_of_keep (λ p. not (stale m current p)) k e m.entries v.distinct h) in
    let kept = (prune m current).entries in
    let used = any_of_lookup (uses_month k.month) k e kept h (eq_self k.month) in
    (
      b,
      ground
          (arith, lookup-keep (used_month current kept) k.month m.months v.distinct_months, used),
    )

pub prune-Books :
    (m : Meter) (db : Store) (current : Text) → Books m db → Books (prune m current) db
prune-Books m db current v = record {
  over = unfold prune in v.over;
  distinct = unfold prune in keep-Distinct _ m.entries v.distinct;
  distinct_months = unfold prune in keep-Distinct _ m.months v.distinct_months;
  known = λ k e h. prune_known m db current v k e h;
  exact = λ k e h.
      v.exact k e (
        lookup_of_keep (λ p. not (stale m current p)) k e m.entries v.distinct (unfold prune in h));
  shared = λ month b h.
      let p =
        total-prune m current (λ j e. if j.month =? month then dirty e else 0)
          (λ j e clean. ground arith) in
      let q = v.shared month b (
        lookup_of_keep (used_month current (prune m current).entries) month b m.months
          v.distinct_months (unfold prune in h)) in
      omega arith;
  due =
      let p = total-prune m current (λ j e. dirty e) (λ j e clean. clean) in
      let q : (prune m current).pending ≡ m.pending = unfold prune in refl in
      let r = v.due in omega arith;
}

unapplied_at :
    (k : Key) (e : Entry) (entries : Dict Key Entry)
    → Distinct entries
    → lookup k entries ≡ some e
    → unapplied k entries ≡ dirty e
unapplied_at k e entries d h = ground (arith, total_at dirty k entries d)

clear_all-Books :
    (m : Meter) (db db' : Store) (stopped : List Text)
    → Books m db
    → write_entries m.entries db ≡ some (db', stopped)
    → Books (clear_all (record m { db = some db' })) db'
clear_all-Books m db db' stopped v done = record {
  over = unfold clear_all in refl;
  distinct = unfold clear_all in map_values-Distinct cleared m.entries v.distinct;
  distinct_months = unfold clear_all in v.distinct_months;
  known = λ k e h.
      let (e', here, same) = lookup_of_map_values cleared k e m.entries (unfold clear_all in h) in
      unfold clear_all in v.known k e' here;
  exact = λ k e h.
      let (e', here, same) = lookup_of_map_values cleared k e m.entries (unfold clear_all in h) in
      unfold cleared in
      ground (
        arith,
        v.exact k e' here,
        unapplied_at k e' m.entries v.distinct here,
        stored-write_entries m.entries db db' stopped k done,
      );
  shared = λ month b h.
      unfold clear_all cleared in
      omega (
        arith,
        v.shared month b (unfold clear_all in h),
        spent_in-write_entries m.entries db db' stopped month done,
        total-map_values (λ j e. if j.month =? month then dirty e else 0) cleared m.entries
            (λ j e. unfold cleared in ground arith),
      );
  due =
      unfold clear_all in
      omega (
        arith,
        total-map_values (λ j e. dirty e) cleared m.entries (λ j e. unfold cleared in omega arith),
      );
}

-- A flush that fails leaves the books as they were, and latches the failure unless its caller left.
abandon-Books : (m : Meter) (db : Store) (reply : Reply) → Books m db → Books (abandon m reply).0 db
abandon-Books m db aborted v = unfold abandon in v
abandon-Books m db _ v =
    unfold abandon in
    record {
      over = v.over;
      distinct = v.distinct;
      distinct_months = v.distinct_months;
      known = v.known;
      exact = v.exact;
      shared = v.shared;
      due = v.due;
    }

-- All that a key was ever charged: what is stored and what is not yet.
abbrev pub recorded : Key → Meter → Store → ℕ
recorded k m db = stored k db.usage + unapplied k m.entries

-- The books are kept over the store that a step leaves, and each key's record grows as told.
pub record Kept (m m' : Meter) (db : Store) (grows : Key → ℕ) : Type 0 where
  pub db' : Store
  pub books : Books m' db'
  pub charged : (k : Key) → recorded k m' db' ≡ recorded k m db + grows k

abbrev pub nothing : Key → ℕ
nothing k = 0

recorded-prune :
    (m : Meter) (db : Store) (current : Text) (k : Key)
    → recorded k (prune m current) db ≡ recorded k m db
recorded-prune m db current k = omega (
  arith,
  total-prune m current (λ j e. if j =? k then dirty e else 0) (λ j e clean. ground arith),
)

prune-Kept :
    (m : Meter) (db : Store) (current : Text) → Books m db → Kept m (prune m current) db nothing
prune-Kept m db current v = record {
  db' = db;
  books = prune-Books m db current v;
  charged = λ k. omega (arith, recorded-prune m db current k);
}

abandon-Kept :
    (m : Meter) (db : Store) (reply : Reply) → Books m db → Kept m (abandon m reply).0 db nothing
abandon-Kept m db reply v = record {
  db' = db;
  books = abandon-Books m db reply v;
  charged = λ k. elim reply as (λ reply. recorded k (abandon m reply).0 db ≡ recorded k m db + 0) [
    | answered ↦ unfold abandon in omega arith
    | failed ↦ unfold abandon in omega arith
    | aborted ↦ unfold abandon in omega arith
  ];
}

unapplied-clear_all : (m : Meter) (k : Key) → unapplied k (clear_all m).entries ≡ 0
unfolding clear_all cleared
unapplied-clear_all m k =
    total-map_values (λ j e. if j =? k then dirty e else 0) cleared m.entries (λ j e. ground arith)

done-Kept :
    (m : Meter) (db db' : Store) (stopped : List Text) (current : Text)
    → Books m db
    → write_entries m.entries db ≡ some (db', stopped)
    → Kept m (prune (clear_all (record m { db = some db' })) current) db nothing
done-Kept m db db' stopped current v done = record {
  db' = db';
  books = prune-Books _ db' current (clear_all-Books m db db' stopped v done);
  charged = λ k. omega (
    arith,
    recorded-prune (clear_all (record m { db = some db' })) db' current k,
    stored-write_entries m.entries db db' stopped k done,
    unapplied-clear_all (record m { db = some db' }) k,
  );
}

commit-Kept :
    (m : Meter) (db : Store) (current : Text) (reply : Reply)
    → Books m db
    → Kept m (commit m db current reply).0 db nothing
unfolding commit
commit-Kept m db current answered v = elim (Option-cases (write_entries m.entries db)) [
  | inl refused ↦ rw (refused, commit) (abandon-Kept m db failed v)
  | inr ((db', stopped), done) ↦ rw (done, commit) (done-Kept m db db' stopped current v done)
]
commit-Kept m db current reply v = abandon-Kept m db reply v

-- Whatever happens to its transaction, a flush keeps the books and records what was recorded: a
-- failed one loses no byte, and a successful one counts none twice.
pub flush_locked-Kept :
    (m : Meter) (db : Store) (current : Text) (reply : Reply)
    → Books m db
    → Kept m (flush_locked m current reply).0 db nothing
unfolding flush_locked
flush_locked-Kept m db current reply v = elim (Bool-cases (m.pending == 0)) [
  | inl idle ↦ rw idle (prune-Kept m db current v)
  | inr busy ↦ rw busy (
      subst (λ o. Kept m (flush_into o m current reply).0 db nothing) (sym v.over)
        (commit-Kept m db current reply v))
]
