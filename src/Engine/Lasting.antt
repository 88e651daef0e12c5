-- ===== src/Engine/Lasting.antt =====
-- A flush of storage/engine.go on a device that does not fail: what it leaves on the disk.
use distkv.Prelude.{
  ℕ, suc, ◌+◌, ◌-◌, ◌^◌, ◌≤◌, ◌<◌, ◌≡◌, refl, sym, List, [], ◌∷◌, arith, ltb, length, Bool-cases,
  inl, inr,
}
use mathlib.Core.Path.{subst}
use distkv.Wal.{done, open_wal, frames}
use distkv.KeyMap.{KvEntry, upsert_all}
use distkv.Memtable.{entries, new_memtable}
use distkv.SsTable.{table_file}
use distkv.SsTable.Opening.{TableFits, table_of}
use distkv.Engine.{Engine, Status, live, compact_locked, flush_locked, max_tables_before_compact}
use distkv.Engine.Layers.{merged}
use distkv.Engine.Reading.{IsEngine}
use distkv.Engine.Flushing.{FlushFits, Keeps, emptied, compacted, merged_fits}
use distkv.Engine.Recovery.{IsDurable}
use distkv.Engine.Succeeding.{
  IsStored, drained, compact_locked_succeeds, flush_locked_drains, flush_locked_nil,
}

-- An empty buffer is durable with an empty log.
no_log-IsDurable :
    (en : Engine)
    → IsEngine en
    → IsStored en
    → en.next_sst < 2 ^ 64
    → en.wal.synced ≡ []
    → en.wal.pending ≡ []
    → entries en.mem.table ≡ []
    → IsDurable en
unfolding upsert_all frames
no_log-IsDurable en v d n s p b = record {
  valid = v;
  logged = [];
  log_fits = tt;
  log_eq = s;
  log_synced = p;
  buffer_eq = b;
  files_eq = d.files_eq;
  falling = d.falling;
  numbers = n;
}

abbrev pub Lasting : Engine × Status → Type 0
Lasting r = (r.1 ≡ done tt) × IsDurable r.0

drained-IsEngine : (en : Engine) (k : ℕ) → IsEngine en → FlushFits en → IsEngine (drained en k)
drained-IsEngine en k v f =
    let e : Keeps en (record en {
      tables = table_of en.next_sst (entries en.mem.table) ∷ en.tables;
      mem = record (en.mem) { table = new_memtable };
    }) =
      emptied en en.next_sst v f.buffer_fits in
    record { buffer = e.valid.buffer; tables = e.valid.tables }

drained-IsStored : (en : Engine) (k : ℕ) → IsStored en → IsStored (drained en k)
unfolding table_of
drained-IsStored en k d = record { files_eq = refl; falling = (omega arith, d.falling) }

drained-Lasting :
    (en : Engine) (k : ℕ)
    → IsEngine en
    → FlushFits en
    → IsStored en
    → en.next_sst + 1 < 2 ^ 64
    → Lasting (drained en k, done tt)
unfolding open_wal new_memtable entries
drained-Lasting en k v f d n = (
  refl,
  no_log-IsDurable (drained en k) (drained-IsEngine en k v f) (drained-IsStored en k d) n refl refl
      refl,
)

compacted-Lasting :
    (en : Engine) (k : ℕ)
    → IsEngine en
    → TableFits (live (merged en.tables))
    → IsStored en
    → en.next_sst + 1 < 2 ^ 64
    → en.wal.synced ≡ []
    → en.wal.pending ≡ []
    → entries en.mem.table ≡ []
    → en.wal.io ≡ suc (length en.tables + k)
    → Lasting (compact_locked en)
unfolding table_of
compacted-Lasting en k v f d n s p b io =
    let es : List KvEntry = live (merged en.tables) in
    let en' : Engine = record en {
      wal = record (en.wal) { io = k };
      tables = table_of en.next_sst es ∷ [];
      next_sst = en.next_sst + 1;
      files = (en.next_sst, table_file es) ∷ [];
    } in
    let small : Keeps en (record en { tables = table_of en.next_sst es ∷ [] }) =
      compacted en en.next_sst v f in
    subst Lasting (sym (compact_locked_succeeds en k v f d n io)) (
      refl,
      no_log-IsDurable en' (record { buffer = v.buffer; tables = small.valid.tables })
          (record { files_eq = refl; falling = (omega arith, tt) }) n s p b,
    )

drained_compacted-Lasting :
    (en : Engine) (k : ℕ)
    → IsEngine en
    → FlushFits en
    → IsStored en
    → en.next_sst + 2 < 2 ^ 64
    → Lasting (compact_locked (drained en (suc (suc (length en.tables + k)))))
unfolding open_wal new_memtable entries
drained_compacted-Lasting en k v f d n =
    let k' : ℕ = suc (suc (length en.tables + k)) in
    compacted-Lasting (drained en k') k (drained-IsEngine en k' v f) (merged_fits en.next_sst en f)
      (drained-IsStored en k' d) (omega (arith, n)) refl refl refl (omega arith)

-- A flush on a device that does not fail succeeds and leaves the disk with all that is held.
pub flush_locked-Lasting :
    (en : Engine)
    → IsDurable en
    → FlushFits en
    → en.next_sst + 2 < 2 ^ 64
    → 6 + length en.tables ≤ en.wal.io
    → ((flush_locked en).1 ≡ done tt) × IsDurable (flush_locked en).0
flush_locked-Lasting en d f n io = by_entries (entries en.mem.table) refl
  where
    by_entries : (es : List KvEntry) → entries en.mem.table ≡ es → Lasting (flush_locked en)
    by_entries [] h = subst Lasting (sym (flush_locked_nil en h)) (refl, d)
    by_entries (e ∷ es) h =
        let k : ℕ = en.wal.io - (6 + length en.tables) in
        let k4 : ℕ = suc (suc (length en.tables + k)) in
        let calls : en.wal.io ≡ suc (suc (suc (suc k4))) = omega (arith, io) in
        let stored : IsStored en = record { files_eq = d.files_eq; falling = d.falling } in
        let n1 : en.next_sst + 1 < 2 ^ 64 = omega (arith, n) in
        subst Lasting (sym (flush_locked_drains en k4 e es h f.buffer_fits stored n1 calls))
          (elim (Bool-cases (ltb max_tables_before_compact (suc (length en.tables)))) [
            | inr few ↦ rw few (drained-Lasting en k4 d.valid f stored n1)
            | inl many ↦ rw many (drained_compacted-Lasting en k d.valid f stored n)
          ])
