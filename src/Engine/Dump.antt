-- ===== src/Engine/Dump.antt =====
-- SnapshotEntries and Reset of storage/engine.go: the engine as a map, out and in.
use distkv.Prelude.{Bool, true, false, List, [], ◌∷◌, if◌then◌else◌, not}
use distkv.Codec.{Bytes}
use distkv.Wal.{Outcome, done, failed, append, sync, ◌>>=◌}
use distkv.KeyMap.{KvEntry, upsert_all}
use distkv.Memtable.{new_memtable}
use distkv.Memtable
use distkv.Engine.{
  Engine, Status, put_entry, encode_wal_record, merge_tables, live, remove_tables, new_log,
}

unfoldable pub pairs : List KvEntry → List (Bytes × Bytes)
pairs [] = []
pairs (e ∷ es) = (e.key, e.value) ∷ pairs es

unfoldable pub snapshot_entries : Engine → Outcome (List (Bytes × Bytes))
unfolding merge_tables live pairs
snapshot_entries en = do
  merged ← merge_tables en.tables
  done (pairs (live (upsert_all (Memtable.entries en.mem.table) merged)))

-- The loop of Reset over the entries of the snapshot.
unfoldable pub load : List (Bytes × Bytes) → Engine → Engine × Bool
unfolding encode_wal_record put_entry
load [] en = (en, true)
load ((k, v) ∷ kvs) en =
    let e : KvEntry = record { key = k; value = v; tombstone = false } in
    let (w, written) = append en.wal (encode_wal_record e) in
    let rest = load kvs (record en { wal = w; mem = put_entry e en.mem }) in
    if written then rest else (record en { wal = w }, false)

unfoldable pub reset : List (Bytes × Bytes) → Engine → Engine × Status
unfolding remove_tables new_log load
reset entries en =
    let en1 = record (remove_tables en.tables en) {
      tables = [];
      mem = record (en.mem) { table = new_memtable };
    } in
    let (en2, ready) = new_log en1 in
    let (en3, loaded) = load entries en2 in
    let (w, synced) = sync en3.wal in
    if not ready
    then (en2, failed)
    else if not loaded
    then (en3, failed)
    else (record en3 { wal = w }, if synced then done tt else failed)
