-- ===== src/Engine/Recovery.antt =====
-- OpenEngine of storage/engine.go after a crash.
use distkv.Prelude.{
  ℕ, suc, ◌+◌, ◌^◌, ◌<◌, ◌≡◌, refl, sym, ap, ◌∙◌, true, false, List, [], ◌∷◌, ◌++◌, arith, leb,
  ◌==◌, if◌then◌else◌, length, map, All, append-nil, u64, length-append, take_all,
}
use distkv.Codec.{Bytes, put_u32}
use distkv.Wal.{done, open_wal, crash, frames, replay_wal, fold_records}
use distkv.Wal.Frames.{Fits}
use distkv.Wal.Recovery.{replay_wal-frames, next_record-nil}
use distkv.KeyMap.{KvEntry, find, upsert_all}
use distkv.Memtable.{entries, random_height, new_memtable}
use distkv.Memtable.Search.{random_height_bounds}
use distkv.Memtable.Refinement.{IsMemtable, put_lem, new_memtable-IsMemtable}
use distkv.SsTable.{SsTable, open_ss_table}
use distkv.SsTable.Opening.{table_of}
use distkv.SsTable.RoundTrip.{open_ss_table-table_file}
use distkv.Engine.{Engine, Buffer, put_entry, encode_wal_record, get}
use distkv.Engine.Start.{
  EngineOptions, insert_file, newest_first, open_tables, replay_put, open_engine,
  default_flush_size,
}
use distkv.Engine.Layers.{IsTable, contents, lookup, over, visible}
use distkv.Engine.Reading.{IsEngine, holds, get-holds}
use distkv.Engine.Logging.{decode_wal_record-encode_wal_record}

abbrev pub files_of : List SsTable → List (ℕ × Bytes)
files_of [] = []
files_of (t ∷ ts) = (t.seq, t.file) ∷ files_of ts

-- The numbers of the tables fall, from below `n` on.
abbrev pub Falling : ℕ → List SsTable → Type 0
Falling n [] = Unit
Falling n (t ∷ ts) = (t.seq < n) × Falling t.seq ts

abbrev pub log_of : List KvEntry → Bytes
log_of es = frames (map encode_wal_record es)

abbrev pub LogFits : KvEntry → Type 0
LogFits e = Fits (encode_wal_record e)

-- The disk has what the engine holds: the tables' files and, synced, the log of the buffer's
-- entries, in the order in which they were written.
pub record IsDurable (en : Engine) : Type 0 where
  pub valid : IsEngine en
  pub logged : List KvEntry
  pub log_fits : All LogFits logged
  pub log_eq : en.wal.synced ≡ log_of logged
  pub log_synced : en.wal.pending ≡ []
  pub buffer_eq : entries en.mem.table ≡ upsert_all logged []
  pub files_eq : en.files ≡ files_of en.tables
  pub falling : Falling en.next_sst en.tables
  pub numbers : en.next_sst < 2 ^ 64

newest_first-files_of :
    (n : ℕ) (ts : List SsTable) → Falling n ts → newest_first (files_of ts) ≡ files_of ts
unfolding newest_first insert_file
newest_first-files_of n [] d = refl
newest_first-files_of n (t ∷ []) d = refl
newest_first-files_of n (t ∷ u ∷ us) d =
    rw (newest_first-files_of t.seq (u ∷ us) d.1) (ground (arith, d.1.0))

open_table : (t : SsTable) → IsTable t → open_ss_table t.seq t.file ≡ done t
unfolding table_of
open_table t v =
    ap (λ u. open_ss_table t.seq u.file) v.written
    ∙ open_ss_table-table_file t.seq (contents t) v.fits
    ∙ ap done (sym v.written)

pub Falling-up : (m n : ℕ) (ts : List SsTable) → m < n → Falling m ts → Falling n ts
Falling-up m n [] h d = tt
Falling-up m n (t ∷ ts) h d = (omega (arith, h, d.0), d.1)

open_tables_below :
    (n : ℕ) (ts : List SsTable)
    → All IsTable ts
    → Falling n ts
    → open_tables (files_of ts) n ≡ done (ts, n)
unfolding open_tables
open_tables_below n [] v d = refl
open_tables_below n (t ∷ ts) v d =
    let low : leb n t.seq ≡ false = ground (arith, d.0) in
    rw (open_table t v.0, low)
      (rw (open_tables_below n ts v.1 (Falling-up t.seq n ts d.0 d.1)) refl)

abbrev top : List SsTable → ℕ
top [] = 0
top (t ∷ ts) = t.seq + 1

open_tables-files_of :
    (n : ℕ) (ts : List SsTable)
    → All IsTable ts
    → Falling n ts
    → n < 2 ^ 64
    → open_tables (files_of ts) 0 ≡ done (ts, top ts)
unfolding open_tables
open_tables-files_of n [] v d h = refl
open_tables-files_of n (t ∷ ts) v d h =
    let wraps : u64 (t.seq + 1) ≡ t.seq + 1 = ground (arith, d.0, h) in
    let first : leb 0 t.seq ≡ true = ground arith in
    rw (open_table t v.0, wraps, first)
      (rw (open_tables_below (t.seq + 1) ts v.1 (Falling-up t.seq (t.seq + 1) ts (omega arith) d.1))
        refl)

key_fits : (e : KvEntry) → LogFits e → length e.key < 2 ^ 32
unfolding encode_wal_record
key_fits e f = omega (
  arith,
  f,
  length-append (put_u32 (length e.key)) (e.key ++ e.value),
  length-append e.key e.value,
)

-- The replayed puts.
unfoldable puts : List KvEntry → Buffer → Buffer
puts [] b = b
puts (e ∷ es) b = puts es (put_entry e b)

puts-entries :
    (es : List KvEntry) (b : Buffer)
    → IsMemtable b.table
    → IsMemtable (puts es b).table × (entries (puts es b).table ≡ upsert_all es (entries b.table))
unfolding puts put_entry upsert_all
puts-entries [] b v = (v, refl)
puts-entries (e ∷ es) b v =
    let one = put_lem e (random_height (b.rand 0)) b.table v (random_height_bounds (b.rand 0)).0 in
    let rest = puts-entries es (put_entry e b) one.0 in (rest.0, rest.1 ∙ ap (upsert_all es) one.1)

fold_records-puts :
    (es : List KvEntry) (b : Buffer)
    → All LogFits es
    → fold_records replay_put (map encode_wal_record es) b ≡ done (puts es b)
unfolding fold_records puts replay_put
fold_records-puts [] b f = refl
fold_records-puts (e ∷ es) b f =
    rw (decode_wal_record-encode_wal_record e (key_fits e f.0))
      (fold_records-puts es (put_entry e b) f.1)

top_lt : (n : ℕ) (ts : List SsTable) → Falling n ts → n < 2 ^ 64 → top ts < 2 ^ 64
top_lt n [] d h = omega arith
top_lt n (t ∷ ts) d h = omega (arith, d.0, h)

Falling-top : (n : ℕ) (ts : List SsTable) → Falling n ts → Falling (top ts) ts
Falling-top n [] d = tt
Falling-top n (t ∷ ts) d = (omega arith, d.1)

module _ (opts : EngineOptions) (rand : ℕ → List ℕ) (torn io : ℕ) (en : Engine)
    (d : IsDurable en) where
  abbrev restored_buffer : Buffer
  restored_buffer = puts d.logged (record { table = new_memtable; rand = rand })

  -- The engine that is opened on a durable one's disk.
  abbrev restored : Engine
  restored = record {
    wal = open_wal (log_of d.logged) io;
    mem = restored_buffer;
    tables = en.tables;
    next_sst = top en.tables;
    flush_size = if opts.flush_size == 0 then default_flush_size else opts.flush_size;
    sync_wal = opts.sync_wal;
    files = en.files;
    torn = torn;
  }

  crash-log_of : (kept : ℕ) → crash en.wal kept ≡ log_of d.logged
  unfolding crash
  crash-log_of kept =
      rw (d.log_eq, d.log_synced)
        (rw (take_all {A = ℕ} kept [] (omega arith)) (append-nil (log_of d.logged)))

  replayed :
      replay_wal replay_put (log_of d.logged) (record { table = new_memtable; rand = rand })
      ≡ done restored_buffer
  replayed =
      ap (λ f. replay_wal replay_put f (record { table = new_memtable; rand = rand }))
        (sym (append-nil (log_of d.logged)))
      ∙ replay_wal-frames replay_put (map encode_wal_record d.logged) []
          (record { table = new_memtable; rand = rand }) (fits d.logged d.log_fits) next_record-nil
      ∙ fold_records-puts d.logged (record { table = new_memtable; rand = rand }) d.log_fits
    where
      fits : (es : List KvEntry) → All LogFits es → All Fits (map encode_wal_record es)
      fits [] f = tt
      fits (e ∷ es) f = (f.0, fits es f.1)

  open_engine-restored :
      (kept : ℕ) → open_engine opts rand torn en.files (crash en.wal kept) (suc io) ≡ done restored
  unfolding open_engine
  open_engine-restored kept =
      rw (crash-log_of kept, d.files_eq, newest_first-files_of en.next_sst en.tables d.falling)
        (rw (open_tables-files_of en.next_sst en.tables d.valid.tables d.falling d.numbers)
          (rw replayed refl))

  buffer_entries : entries restored_buffer.table ≡ entries en.mem.table
  unfolding entries new_memtable
  buffer_entries =
      (puts-entries d.logged (record { table = new_memtable; rand = rand })
        new_memtable-IsMemtable).1
      ∙ sym d.buffer_eq

  restored-IsEngine : IsEngine restored
  restored-IsEngine = record {
    buffer =
        (puts-entries d.logged (record { table = new_memtable; rand = rand })
          new_memtable-IsMemtable).0;
    tables = d.valid.tables;
  }

  restored-IsDurable : IsDurable restored
  unfolding open_wal
  restored-IsDurable = record {
    valid = restored-IsEngine;
    logged = d.logged;
    log_fits = d.log_fits;
    log_eq = refl;
    log_synced = refl;
    buffer_eq = buffer_entries ∙ d.buffer_eq;
    files_eq = d.files_eq;
    falling = Falling-top en.next_sst en.tables d.falling;
    numbers = top_lt en.next_sst en.tables d.falling d.numbers;
  }

  get-restored : (key : Bytes) → get key restored ≡ get key en
  unfolding holds
  get-restored key =
      get-holds key restored restored-IsEngine
      ∙ ap (λ es. done (visible (over (find key es) (lookup key en.tables)))) buffer_entries
      ∙ sym (get-holds key en d.valid)

-- After a crash of a well-formed engine whose disk has all that it holds, the log synced,
-- OpenEngine with one call of the device left succeeds, and gives an engine of the same kind that
-- answers every read as the one before the crash did.
pub open_engine-crash :
    (opts : EngineOptions) (rand : ℕ → List ℕ) (torn io kept : ℕ) (en : Engine)
    → IsDurable en
    → (en' : Engine) × (open_engine opts rand torn en.files (crash en.wal kept) (suc io) ≡ done en')
      × IsDurable en'
      × ((key : Bytes) → get key en' ≡ get key en)
open_engine-crash opts rand torn io kept en d = (
  restored opts rand torn io en d,
  open_engine-restored opts rand torn io en d kept,
  restored-IsDurable opts rand torn io en d,
  get-restored opts rand torn io en d,
)
