-- ===== src/Tunnel/Meter/Flush.antt =====
-- internal/tunnel/meter.go: `flushLocked`, `prune` and `settle`.
use meshbridge.Base.{
  ◌+◌, Bool, true, false, not, List, [], ◌∷◌, ◌++◌, Option, none, some, ◌&&◌, ◌||◌, ◌==◌, ◌=?◌,
  if◌then◌else◌, keep, any,
}
use meshbridge.Base.Dict.{Dict, insert, lookup, map_values}
use meshbridge.Base.Text.{eq_text, Text, codes}
use meshbridge.Tunnel.{Error, meter_unavailable, cancelled}
use meshbridge.Tunnel.Meter.{
  eq_key, Meter, Entry, Balance, Key, Usage, Row, Store, Reply, answered, failed, aborted,
}
use meshbridge.Tunnel.Meter.Reserve.{active_of}

-- What Go returns as a list and an error side by side.
abbrev pub Outcome : Type 0
Outcome = List Text × Option Error

unfoldable pub is_clean : Entry → Bool
is_clean e = e.bytes_in == 0 && e.bytes_out == 0

unfoldable pub cleared : Entry → Entry
cleared e = record e { bytes_in = 0; bytes_out = 0; warn_pending = false; stop_pending = false }

unfoldable pub stale : Meter → Text → Key × Entry → Bool
unfolding is_clean active_of
stale m current (k, e) =
    is_clean e && e.reserved == 0 && (active_of m k.id == 0 || not (k.month =? current))

unfoldable pub uses_month : Text → Key × Entry → Bool
uses_month month p = p.0.month =? month

unfoldable pub used_month : Text → Dict Key Entry → Text × Balance → Bool
unfolding uses_month
used_month current kept (month, b) =
    month =? current || not (b.reserved == 0) || any (uses_month month) kept

-- The second loop runs over the entries that the first one left.
unfoldable pub prune : Meter → Text → Meter
unfolding stale used_month
prune m current =
    let kept = keep (λ p. not (stale m current p)) m.entries in
    record m { entries = kept; months = keep (used_month current kept) m.months }

-- INSERT INTO tunnel_usage ... ON CONFLICT DO UPDATE.
unfoldable pub merged : Entry → Option Usage → Usage
merged e none = record { bytes_in = e.bytes_in; bytes_out = e.bytes_out; warned = e.warned }
merged e (some u) = record {
  bytes_in = u.bytes_in + e.bytes_in;
  bytes_out = u.bytes_out + e.bytes_out;
  warned = u.warned || e.warned;
}

unfoldable pub upsert : Key → Entry → Dict Key Usage → Dict Key Usage
unfolding merged
upsert k e usage = insert k (merged e (lookup k usage)) usage

unfoldable pub stop_tunnel : Text → Row → Store → Store
stop_tunnel id row db =
    if row.status =? codes "active"
    then record db {
      tunnels = insert id (record row { status = codes "quota_exceeded" }) db.tunnels;
      audits = db.audits ++ (record { event = codes "tunnel quota exceeded"; tunnel = id } ∷ []);
    }
    else db

unfoldable pub warn_tunnel : Text → Bool → Store → Store
warn_tunnel id false db = db
warn_tunnel id true db = record db {
  audits = db.audits ++ (record { event = codes "tunnel quota warning"; tunnel = id } ∷ []);
}

unfoldable pub write_entry : Key → Entry → Row → Store → Store
unfolding stop_tunnel warn_tunnel upsert
write_entry k e row db =
    let warned = warn_tunnel k.id e.warn_pending (record db { usage = upsert k e db.usage }) in
    if e.stop_pending then stop_tunnel k.id row warned else warned

-- The transaction's loop: `none` where a statement fails, for the row of usage has no tunnel to
-- refer to (the tables have foreign keys).
unfoldable pub write_entries : Dict Key Entry → Store → Option (Store × List Text)
unfolding write_entry is_clean
write_entries [] db = some (db, [])
write_entries ((k, e) ∷ rest) db =
    if is_clean e then write_entries rest db else elim (lookup k.id db.tunnels) [
      | none ↦ none
      | some row ↦ elim (write_entries rest (write_entry k e row db)) [
        | none ↦ none
        | some (db', stopped) ↦ some (db', if e.stop_pending then k.id ∷ stopped else stopped)
      ]
    ]

latched : Meter → List Text → Outcome
latched m stopped = (stopped, if m.failure then some meter_unavailable else none)

unfoldable pub clear_all : Meter → Meter
unfolding cleared
clear_all m = record m { entries = map_values cleared m.entries; pending = 0 }

-- A failed transaction is rolled back: nothing is cleared.
unfoldable pub abandon : Meter → Reply → Meter × Outcome
abandon m aborted = (m, ([], some cancelled))
abandon m _ = (record m { failure = true }, ([], some meter_unavailable))

unfoldable pub commit : Meter → Store → Text → Reply → Meter × Outcome
unfolding abandon clear_all prune latched write_entries
commit m db current answered = elim (write_entries m.entries db) [
  | none ↦ abandon m failed
  | some (db', stopped) ↦
      let m' = prune (clear_all (record m { db = some db' })) current in (m', latched m' stopped)
]
commit m db current reply = abandon m reply

-- With no database the counts are dropped.
unfoldable pub flush_into : Option Store → Meter → Text → Reply → Meter × Outcome
unfolding commit clear_all prune
flush_into none m current reply = (prune (clear_all m) current, ([], none))
flush_into (some db) m current reply = commit m db current reply

-- `reply` is how the transaction ends, from BEGIN to COMMIT.
unfoldable pub flush_locked : Meter → Text → Reply → Meter × Outcome
unfolding flush_into
flush_locked m current reply =
    if m.pending == 0
    then (let m' = prune m current in (m', latched m' []))
    else flush_into m.db m current reply
