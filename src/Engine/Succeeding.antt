-- ===== src/Engine/Succeeding.antt =====
-- The flush and the compaction of storage/engine.go on a device that does not fail.
use distkv.Prelude.{
  ℕ, suc, ◌+◌, ◌^◌, ◌<◌, ◌≡◌, refl, ap, ◌∙◌, true, false, List, [], ◌∷◌, arith, ltb, ◌==◌,
  if◌then◌else◌, length, u64,
}
use mathlib.Core.Path.{subst}
use distkv.Codec.{Bytes}
use distkv.Wal.{done, open_wal, close, sync}
use distkv.KeyMap.{KvEntry}
use distkv.Memtable.{entries, new_memtable}
use distkv.SsTable.{SsTable, table_file}
use distkv.SsTable.Opening.{TableFits, table_of}
use distkv.SsTable.RoundTrip.{open_ss_table-table_file}
use distkv.Engine.{
  Engine, Status, make_table, then_table, remove_tables, new_log, spend, without_file, with_file,
  live, compact_locked, finish_flush, flush_locked, max_tables_before_compact,
}
use distkv.Engine.Layers.{merged, merge_tables-merged}
use distkv.Engine.Reading.{IsEngine}
use distkv.Engine.Recovery.{files_of, Falling, Falling-up}

make_table_succeeds :
    (es : List KvEntry) (en : Engine) (n : ℕ)
    → TableFits es
    → en.wal.io ≡ suc n
    → make_table es en ≡ (
      record en {
        wal = record (en.wal) { io = n };
        files = with_file en.next_sst (table_file es) en.files;
        next_sst = u64 (en.next_sst + 1);
      },
      done (table_of en.next_sst es),
    )
unfolding make_table spend
make_table_succeeds es en n f h =
    rw (make_table, spend, h, open_ss_table-table_file en.next_sst es f) refl

new_log_succeeds :
    (en : Engine) (n : ℕ)
    → en.wal.io ≡ suc (suc (suc n))
    → new_log en ≡ (record en { wal = open_wal [] n }, true)
unfolding new_log close sync spend
new_log_succeeds en n h = rw h refl

without_files : List SsTable → List (ℕ × Bytes) → List (ℕ × Bytes)
without_files [] fs = fs
without_files (t ∷ ts) fs = without_files ts (without_file t.seq fs)

remove_tables_succeeds :
    (ts : List SsTable) (en : Engine) (n : ℕ)
    → en.wal.io ≡ length ts + n
    → remove_tables ts en
      ≡ record en { wal = record (en.wal) { io = n }; files = without_files ts en.files }
unfolding remove_tables spend without_files
remove_tables_succeeds [] en n h = let left : en.wal.io ≡ n = omega (arith, h) in rw left refl
remove_tables_succeeds (t ∷ ts) en n h =
    let left : en.wal.io ≡ suc (length ts + n) = omega (arith, h) in
    rw left (
      remove_tables_succeeds ts
        (record en {
          wal = record (en.wal) { io = length ts + n };
          files = without_file t.seq en.files;
        })
        n refl)

without_file_above :
    (n : ℕ) (ts : List SsTable) → Falling n ts → without_file n (files_of ts) ≡ files_of ts
unfolding without_file
without_file_above n [] d = refl
without_file_above n (t ∷ ts) d =
    ground (arith, without_file_above n ts, Falling-up t.seq n ts, d.0, d.1)

without_files-cons :
    (n : ℕ) (f : Bytes) (ts : List SsTable)
    → Falling n ts
    → without_files ts ((n, f) ∷ files_of ts) ≡ (n, f) ∷ []
unfolding without_files without_file
without_files-cons n f [] d = refl
without_files-cons n f (t ∷ ts) d =
    let other : (n == t.seq) ≡ false = ground (arith, d.0) in
    let own : (t.seq == t.seq) ≡ true = ground arith in
    rw (other, own)
      (rw (without_file_above t.seq ts d.1)
        (without_files-cons n f ts (Falling-up t.seq n ts d.0 d.1)))

-- The directory has the tables' files, numbered below the next number.
pub record IsStored (en : Engine) : Type 0 where
  pub files_eq : en.files ≡ files_of en.tables
  pub falling : Falling en.next_sst en.tables

next_number : (n : ℕ) → n + 1 < 2 ^ 64 → u64 (n + 1) ≡ n + 1
next_number n h = ground (arith, h)

with_file_next :
    (f : Bytes) (en : Engine)
    → IsStored en
    → with_file en.next_sst f en.files ≡ (en.next_sst, f) ∷ files_of en.tables
unfolding with_file
with_file_next f en d = rw (d.files_eq, without_file_above en.next_sst en.tables d.falling) refl

pub compact_locked_succeeds :
    (en : Engine) (k : ℕ)
    → IsEngine en
    → TableFits (live (merged en.tables))
    → IsStored en
    → en.next_sst + 1 < 2 ^ 64
    → en.wal.io ≡ suc (length en.tables + k)
    → compact_locked en ≡ (
      record en {
        wal = record (en.wal) { io = k };
        tables = table_of en.next_sst (live (merged en.tables)) ∷ [];
        next_sst = en.next_sst + 1;
        files = (en.next_sst, table_file (live (merged en.tables))) ∷ [];
      },
      done tt,
    )
unfolding compact_locked
compact_locked_succeeds en k v f d n h =
    let es : List KvEntry = live (merged en.tables) in
    let t : SsTable = table_of en.next_sst es in
    let file : Bytes = table_file es in
    let en1 : Engine = record en {
      wal = record (en.wal) { io = length en.tables + k };
      files = (en.next_sst, file) ∷ files_of en.tables;
      next_sst = en.next_sst + 1;
      tables = t ∷ [];
    } in
    let made = make_table_succeeds es en (length en.tables + k) f h in
    let rest : SsTable → Engine → Engine × Status =
      λ t a. (remove_tables en.tables (record a { tables = t ∷ [] }), done tt) in
    let removed : remove_tables en.tables en1
        ≡ record en1 { wal = record (en.wal) { io = k }; files = (en.next_sst, file) ∷ [] } =
      remove_tables_succeeds en.tables en1 k refl
      ∙ ap {A = List (ℕ × Bytes)}
          (λ fs. record en1 { wal = record (en.wal) { io = k }; files = fs })
          (without_files-cons en.next_sst file en.tables d.falling) in
    rw (compact_locked, merge_tables-merged en.tables v.tables)
      (ap (λ r. then_table r rest) made
        ∙ rw (with_file_next file en d, next_number en.next_sst n)
            (ap {A = Engine} {B = Engine × Status} (λ a. (a, done tt)) removed))

finish_flush_succeeds :
    (t : SsTable) (en : Engine) (k : ℕ)
    → en.wal.io ≡ suc (suc (suc k))
    → finish_flush t en ≡ (
        if ltb max_tables_before_compact (suc (length en.tables))
        then compact_locked (record en {
          wal = open_wal [] k;
          mem = record (en.mem) { table = new_memtable };
          tables = t ∷ en.tables;
        })
        else (
          record en {
            wal = open_wal [] k;
            mem = record (en.mem) { table = new_memtable };
            tables = t ∷ en.tables;
          },
          done tt,
        ))
unfolding finish_flush new_log close sync spend
finish_flush_succeeds t en k h = rw h refl

abbrev pub drained_as : Engine → SsTable → ℕ → List (ℕ × Bytes) → ℕ → Engine
drained_as en t next files k = record en {
  wal = open_wal [] k;
  mem = record (en.mem) { table = new_memtable };
  tables = t ∷ en.tables;
  next_sst = next;
  files = files;
}

-- A buffer that has become the newest table, with an empty log.
abbrev pub drained : Engine → ℕ → Engine
drained en k =
    drained_as en (table_of en.next_sst (entries en.mem.table)) (en.next_sst + 1)
      ((en.next_sst, table_file (entries en.mem.table)) ∷ files_of en.tables) k

pub flush_locked_drains :
    (en : Engine) (k : ℕ) (e : KvEntry) (es : List KvEntry)
    → entries en.mem.table ≡ e ∷ es
    → TableFits (entries en.mem.table)
    → IsStored en
    → en.next_sst + 1 < 2 ^ 64
    → en.wal.io ≡ suc (suc (suc (suc k)))
    → flush_locked en ≡ (
        if ltb max_tables_before_compact (suc (length en.tables))
        then compact_locked (drained en k)
        else (drained en k, done tt))
unfolding flush_locked finish_flush
flush_locked_drains en k e es same f d n h =
    let file : Bytes = table_file (e ∷ es) in
    let made = make_table_succeeds (e ∷ es) en (suc (suc (suc k))) (subst TableFits same f) h in
    let en1 : Engine = record en {
      wal = record (en.wal) { io = suc (suc (suc k)) };
      files = with_file en.next_sst file en.files;
      next_sst = u64 (en.next_sst + 1);
    } in
    let t : SsTable = table_of en.next_sst (e ∷ es) in
    let steps : then_table (make_table (e ∷ es) en) finish_flush ≡ (
        if ltb max_tables_before_compact (suc (length en.tables))
        then compact_locked
            (drained_as en t (u64 (en.next_sst + 1)) (with_file en.next_sst file en.files) k)
        else (
          drained_as en t (u64 (en.next_sst + 1)) (with_file en.next_sst file en.files) k,
          done tt,
        )) =
      ap (λ r. then_table r finish_flush) made ∙ finish_flush_succeeds t en1 k refl in
    rw (flush_locked, same) (steps ∙ rw (with_file_next file en d, next_number en.next_sst n) refl)

pub flush_locked_nil : (en : Engine) → entries en.mem.table ≡ [] → flush_locked en ≡ (en, done tt)
unfolding flush_locked
flush_locked_nil en h = rw (flush_locked, h) refl
