-- ===== src/Engine/Start.antt =====
-- OpenEngine of storage/engine.go: the engine that is made of the files in its directory.
use distkv.Prelude.{
  ℕ, zero, suc, ◌+◌, ◌*◌, ◌^◌, Bool, true, List, [], ◌∷◌, ltb, leb, ◌==◌, if◌then◌else◌, u64,
}
use distkv.Codec.{Bytes}
use distkv.Wal.{Outcome, done, failed, ◌>>=◌, replay_wal, open_wal}
use distkv.Memtable.{new_memtable}
use distkv.SsTable.{SsTable, open_ss_table}
use distkv.Engine.{Buffer, Engine, put_entry, decode_wal_record}

abbrev pub default_flush_size : ℕ
default_flush_size = 4 * 2 ^ 20

-- EngineOptions. The default sets both.
pub record EngineOptions : Type 0 where
  pub flush_size : ℕ
  pub sync_wal : Bool

abbrev pub default_engine_options : EngineOptions
default_engine_options = record { flush_size = default_flush_size; sync_wal = true }

unfoldable pub insert_file : ℕ → Bytes → List (ℕ × Bytes) → List (ℕ × Bytes)
insert_file seq file [] = (seq, file) ∷ []
insert_file seq file ((s, f) ∷ fs) =
    let rest = insert_file seq file fs in
    if ltb s seq then (seq, file) ∷ (s, f) ∷ fs else (s, f) ∷ rest

-- sort.Slice on the numbers in the names, which differ, the highest first.
unfoldable pub newest_first : List (ℕ × Bytes) → List (ℕ × Bytes)
unfolding insert_file
newest_first [] = []
newest_first ((seq, file) ∷ fs) = insert_file seq file (newest_first fs)

-- The loop over the tables' files, with the next number so far.
unfoldable pub open_tables : List (ℕ × Bytes) → ℕ → Outcome (List SsTable × ℕ)
open_tables [] next = done ([], next)
open_tables ((seq, file) ∷ fs) next = do
  t ← open_ss_table seq file
  (ts, last) ← open_tables fs (if leb next seq then u64 (seq + 1) else next)
  done (t ∷ ts, last)

-- The callback of the replay.
unfoldable pub replay_put : Buffer → Bytes → Outcome Buffer
unfolding decode_wal_record put_entry
replay_put b p = decode_wal_record p >>= λ e. done (put_entry e b)

-- The directory is there or can be made, and reads do not fail. `log` are the bytes of engine.wal;
-- `rand`, `torn` and `io` are the draws, the part of a failing write and the calls of the device
-- that succeed, to come. The device's first call is OpenWAL's.
unfoldable pub open_engine :
    EngineOptions → (ℕ → List ℕ) → ℕ → List (ℕ × Bytes) → Bytes → ℕ → Outcome Engine
unfolding newest_first open_tables replay_put
open_engine opts rand torn files log io = do
  (ts, next) ← open_tables (newest_first files) 0
  b ← replay_wal replay_put log (record { table = new_memtable; rand = rand })
  elim io [
    | zero ↦ failed
    | suc left ↦ done (record {
      wal = open_wal log left;
      mem = b;
      tables = ts;
      next_sst = next;
      flush_size = if opts.flush_size == 0 then default_flush_size else opts.flush_size;
      sync_wal = opts.sync_wal;
      files = files;
      torn = torn;
    })
  ]
