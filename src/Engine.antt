-- ===== src/Engine.antt =====
-- storage/engine.go: the storage engine, a skip list in memory over sorted tables on the disk and a
-- write-ahead log. The device is the one of Wal.antt: the number of calls that it still takes stands
-- in the log, and files are read without a failure. A call returns its outcome beside the new state.
pub mod Layers
pub mod Reading
pub mod Dump
pub mod Logging
pub mod Start
pub mod Steps
pub mod Flushing
pub mod Writing
pub mod Resetting
pub mod Recovery
pub mod Succeeding
pub mod Lasting
pub mod Durable
use distkv.Prelude.{
  ℕ, zero, suc, ◌+◌, ◌-◌, ◌%◌, ◌*◌, ◌^◌, Bool, true, false, Option, none, some, List, [], ◌∷◌, ◌++◌,
  ltb, leb, ◌==◌, not, if◌then◌else◌, length, take, drop, u64,
}
use distkv.Codec.{Bytes, put_u32, get_u32}
use distkv.Wal.{
  Wal, open_wal, append, sync, close, replay_wal, Outcome, done, failed, panic, unfinished, ◌>>=◌,
}
use distkv.KeyMap.{KvEntry, upsert_all}
use distkv.Memtable.{Memtable, new_memtable, random_height}
use distkv.Memtable
use distkv.SsTable.{SsTable, table_file, open_ss_table}
use distkv.SsTable

abbrev pub max_tables_before_compact : ℕ
max_tables_before_compact = 6

-- The skip list with the draws of rand.Intn for the puts to come.
pub record Buffer : Type 0 where
  pub table : Memtable
  pub rand : ℕ → List ℕ

unfoldable pub put_entry : KvEntry → Buffer → Buffer
put_entry e b = record {
  table = Memtable.put e (random_height (b.rand 0)) b.table;
  rand = λ i. b.rand (suc i);
}

-- `files` are the tables' files in the directory, by the number in their names, and `torn` is how
-- much of a table's file a failing write leaves.
pub record Engine : Type 0 where
  pub wal : Wal
  pub mem : Buffer
  pub tables : List SsTable
  pub next_sst : ℕ
  pub flush_size : ℕ
  pub sync_wal : Bool
  pub files : List (ℕ × Bytes)
  pub torn : ℕ

abbrev pub Status : Type 0
Status = Outcome (Unit {0})

unfoldable pub encode_wal_record : KvEntry → Bytes
encode_wal_record e = (if e.tombstone then 1 else 0) ∷ put_u32 (length e.key) ++ (e.key ++ e.value)

-- The error of a short record is `failed`.
unfoldable pub decode_wal_record : Bytes → Outcome KvEntry
decode_wal_record [] = failed
decode_wal_record (flags ∷ r) = if ltb (length r) 4 then failed else elim (get_u32 r) [
  | none ↦ panic
  | some klen ↦
      if ltb (length (drop 4 r)) klen
      then failed
      else done (record {
        key = take klen (drop 4 r);
        value = drop klen (drop 4 r);
        tombstone = flags % 2 == 1;
      })
]

-- One call of the device that is no write to the log: none if it fails.
unfoldable pub spend : Engine → Option Engine
spend en = elim en.wal.io [
  | zero ↦ none
  | suc io ↦ some (record en { wal = record (en.wal) { io = io } })
]

unfoldable pub without_file : ℕ → List (ℕ × Bytes) → List (ℕ × Bytes)
without_file seq [] = []
without_file seq ((s, f) ∷ fs) =
    let rest = without_file seq fs in if s == seq then rest else (s, f) ∷ rest

-- os.Create truncates a file that is there.
unfoldable pub with_file : ℕ → Bytes → List (ℕ × Bytes) → List (ℕ × Bytes)
unfolding without_file
with_file seq file fs = (seq, file) ∷ without_file seq fs

-- writeSSTable and openSSTable, of the table that takes the next number. The number is taken when
-- the table is open.
unfoldable pub make_table : List KvEntry → Engine → Engine × Outcome SsTable
unfolding spend with_file
make_table entries en =
    let file = table_file entries in
    elim (spend en) [
      | none ↦ (record en { files = with_file en.next_sst (take en.torn file) en.files }, failed)
      | some en' ↦ elim (open_ss_table en.next_sst file) [
        | done t ↦ (
          record en' {
            files = with_file en.next_sst file en.files;
            next_sst = u64 (en.next_sst + 1);
          },
          done t,
        )
        | failed ↦ (record en' { files = with_file en.next_sst file en.files }, failed)
        | panic ↦ (record en' { files = with_file en.next_sst file en.files }, panic)
        | unfinished ↦ (record en' { files = with_file en.next_sst file en.files }, unfinished)
      ]
    ]

-- What follows once the new table is open.
unfoldable pub then_table :
    Engine × Outcome SsTable → (SsTable → Engine → Engine × Status) → Engine × Status
then_table (en, done t) rest = rest t en
then_table (en, failed) rest = (en, failed)
then_table (en, panic) rest = (en, panic)
then_table (en, unfinished) rest = (en, unfinished)

-- The newer entries of each key over the older ones; the oldest table, the last, is read first.
unfoldable pub merge_tables : List SsTable → Outcome (List KvEntry)
unfolding upsert_all
merge_tables [] = done []
merge_tables (t ∷ ts) = do m ← merge_tables ts; es ← SsTable.all t; done (upsert_all es m)

unfoldable pub live : List KvEntry → List KvEntry
live [] = []
live (e ∷ es) = let rest = live es in if e.tombstone then rest else e ∷ rest

-- The loop that closes and removes tables. Its errors are ignored: a file that is not removed stays.
unfoldable pub remove_tables : List SsTable → Engine → Engine
unfolding spend without_file
remove_tables [] en = en
remove_tables (t ∷ ts) en = elim (spend en) [
  | none ↦ remove_tables ts en
  | some en' ↦ remove_tables ts (record en' { files = without_file t.seq en'.files })
]

unfoldable pub compact_locked : Engine → Engine × Status
unfolding merge_tables live make_table then_table remove_tables
compact_locked en = elim (merge_tables en.tables) [
  | failed ↦ (en, failed)
  | panic ↦ (en, panic)
  | unfinished ↦ (en, unfinished)
  | done merged ↦
      then_table (make_table (live merged) en)
        (λ t en1. (remove_tables en.tables (record en1 { tables = t ∷ [] }), done tt))
]

-- The log is closed, removed and opened anew. Behind an OpenWAL that fails the source has no log, and
-- its next append panics, where here it fails.
unfoldable pub new_log : Engine → Engine × Bool
unfolding spend
new_log en =
    let (w, closed) = close en.wal in
    let en1 = record en { wal = w } in
    if not closed then (en1, false) else elim (spend en1) [
      | none ↦ (en1, false)
      | some en2 ↦ elim (spend en2) [
        | none ↦ (en2, false)
        | some en3 ↦ (record en3 { wal = open_wal [] en3.wal.io }, true)
      ]
    ]

-- flushLocked behind the test for entries, once the new table is open.
unfoldable pub finish_flush : SsTable → Engine → Engine × Status
unfolding new_log compact_locked
finish_flush t en =
    let (en1, ready) = new_log (record en { tables = t ∷ en.tables }) in
    let en2 = record en1 { mem = record (en1.mem) { table = new_memtable } } in
    if not ready
    then (en1, failed)
    else if ltb max_tables_before_compact (length en2.tables)
    then compact_locked en2
    else (en2, done tt)

unfoldable pub flush_locked : Engine → Engine × Status
unfolding make_table then_table finish_flush
flush_locked en = elim (Memtable.entries en.mem.table) [
  | [] ↦ (en, done tt)
  | e ∷ es ↦ then_table (make_table (e ∷ es) en) finish_flush
]

-- The sync of a write, if the options ask for it.
unfoldable pub sync_write : Bool → Wal → Wal × Bool
sync_write true w = sync w
sync_write false w = (w, true)

unfoldable pub write : KvEntry → Engine → Engine × Status
unfolding encode_wal_record sync_write put_entry flush_locked
write e en =
    let (w, written) = append en.wal (encode_wal_record e) in
    let (w', synced) = sync_write en.sync_wal w in
    let en1 = record en { wal = w'; mem = put_entry e en.mem } in
    if not written
    then (record en { wal = w }, failed)
    else if not synced
    then (record en { wal = w' }, failed)
    else if leb en.flush_size en1.mem.table.size
    then flush_locked en1
    else (en1, done tt)

unfoldable pub put : Bytes → Bytes → Engine → Engine × Status
unfolding write
put key value en = write (record { key = key; value = value; tombstone = false }) en

unfoldable pub delete : Bytes → Engine → Engine × Status
unfolding write
delete key en = write (record { key = key; value = []; tombstone = true }) en

abbrev pub value_of : Bytes → Bool → Option Bytes
value_of v true = none
value_of v false = some v

-- The tables, the newest first.
unfoldable pub get_from : Bytes → List SsTable → Outcome (Option Bytes)
get_from key [] = done none
get_from key (t ∷ ts) =
    let older = get_from key ts in
    SsTable.get key t >>= λ found. elim found [
      | none ↦ older
      | some e ↦ done (value_of e.value e.tombstone)
    ]

unfoldable pub get : Bytes → Engine → Outcome (Option Bytes)
unfolding get_from
get key en = elim (Memtable.get key en.mem.table) [
  | none ↦ get_from key en.tables
  | some (v, tomb) ↦ done (value_of v tomb)
]

-- Flush.
unfoldable pub flush : Engine → Engine × Status
unfolding flush_locked
flush en = flush_locked en

-- Close: the tables' files are closed, then the log.
unfoldable pub close_engine : Engine → Engine × Bool
close_engine en = let (w, closed) = close en.wal in (record en { wal = w }, closed)
