-- ===== src/Tests/Logs.antt =====
-- Logs on a disk: crashes of the write-ahead log, and entries that are there after a restart.
use distkv.Prelude.{
  ℕ, ◌^◌, ◌≤◌, ◌<◌, ◌≡◌, ◌≢◌, refl, true, false, none, List, [], ◌∷◌, ◌++◌, arith, length, take,
}
use distkv.Codec.{Bytes, checksum, put_u32, put_u64}
use distkv.ConfState.{new_conf_state}
use distkv.Wal.{
  Wal, open_wal, append, sync, crash, frame, frames, Outcome, done, fold_records, replay_wal,
}
use distkv.Wal.Crash.{Op, append_op, sync_op, run, run_records, no_records, replay_wal-crash}
use distkv.Wal.TornTail.{appends, replay_wal-after_torn}
use distkv.DiskStorage.{
  DiskStorage, Entry, entry_normal, encode_entry, set_hard_state, append_entries, truncate,
  sync_log,
}
use distkv.DiskStorage.Restart.{open_disk_storage, crash_files, fresh, load_snapshot}
use distkv.DiskStorage.Appending.{append_entries-Kept}
use distkv.DiskStorage.RecordReplay.{EntryFits}
use distkv.DiskStorage.Keeping.{IsBacked, append_entries-IsBacked}
use distkv.DiskStorage.Durability.{set_hard_state_durable, append_entries_durable}
use distkv.Tests.Proto.{proto}

-- A callback that lists the records.
abbrev collect : List Bytes → Bytes → Outcome (List Bytes)
collect seen p = done (seen ++ p ∷ [])

abbrev calls : List Op
calls = append_op (1 ∷ []) ∷ sync_op ∷ append_op (2 ∷ []) ∷ append_op (3 ∷ []) ∷ []

replay_wal-crash_example :
    (kept : ℕ) × (replay_wal collect (crash (run calls (open_wal [] 10)) 9) []
      ≡ fold_records collect
          ((run_records calls (no_records 10)).durable
            ++ take kept (run_records calls (no_records 10)).buffered)
          [])
    × (length (run calls (open_wal [] 10)).pending ≤ 9
        → take kept (run_records calls (no_records 10)).buffered
          ≡ (run_records calls (no_records 10)).buffered)
replay_wal-crash_example = replay_wal-crash collect calls 10 9 [] (ground arith)

-- A record of two bytes, and what is written behind its first byte after a crash.
abbrev torn : Bytes
torn = 1 ∷ 2 ∷ []

abbrev mixture : Bytes
mixture = take 1 torn ++ frames ((6 ∷ []) ∷ [])

checksum-mixture : checksum (take 2 mixture) ≡ 2641893376
unfolding checksum frames frame put_u32
checksum-mixture = refl

checksum-torn : checksum torn ≡ 3066839698
unfolding checksum
checksum-torn = refl

checksums_differ : checksum (take 2 mixture) ≢ checksum torn
checksums_differ e = omega (arith, e, checksum-mixture, checksum-torn)

length-mixture : length mixture ≡ 10
unfolding frames frame put_u32
length-mixture = refl

-- Record 9 was synced, the torn one was not; record 6 was appended and synced behind it.
abbrev torn_file : Bytes
torn_file =
    crash (run ((appends ((9 ∷ []) ∷ []) ++ sync_op ∷ []) ++ append_op torn ∷ []) (open_wal [] 3)) 9

abbrev later_log : Wal
later_log = run (appends ((6 ∷ []) ∷ []) ++ sync_op ∷ []) (open_wal torn_file 2)

replay_wal-after_torn_example :
    (later_log.pending ≡ [])
    × (replay_wal collect later_log.synced [] ≡ fold_records collect ((9 ∷ []) ∷ []) [])
replay_wal-after_torn_example =
    replay_wal-after_torn collect ((9 ∷ []) ∷ []) ((6 ∷ []) ∷ []) torn 1 0 0 [] (ground arith)
      (ground arith) (omega (arith, length-mixture)) checksums_differ

abbrev empty_store : DiskStorage
empty_store = record {
  wal = open_wal [] 50;
  term = 0;
  voted_for = 0;
  dirty = false;
  conf = record { voters = 1 ∷ 2 ∷ 3 ∷ []; joint = [] };
  log = [];
  snap_index = 0;
  snap_term = 0;
  snapshot = [];
  bin_file = none;
  meta_file = none;
  conf_file = none;
}

empty_store-IsBacked : IsBacked proto (1 ∷ 2 ∷ 3 ∷ []) empty_store
unfolding frames open_wal load_snapshot fold_records fresh new_conf_state distkv.IdSet.insert_all
    distkv.IdSet.insert
empty_store-IsBacked = record {
  durable = [];
  buffered = [];
  on_disk = refl;
  waiting = refl;
  durable_fit = tt;
  buffered_fit = tt;
  base = _;
  loaded = refl;
  replays = refl;
}

hard_state_stored : (set_hard_state empty_store 4 2).1 ≡ true
unfolding set_hard_state append open_wal sync
hard_state_stored = refl

set_hard_state_durable_example :
    open_disk_storage proto (crash_files (set_hard_state empty_store 4 2).0 3) (1 ∷ 2 ∷ 3 ∷ []) 20
    ≡ done (record empty_store {
      term = 4;
      voted_for = 2;
      wal = open_wal (set_hard_state empty_store 4 2).0.wal.synced 20;
      dirty = false;
    })
set_hard_state_durable_example =
    set_hard_state_durable proto (1 ∷ 2 ∷ 3 ∷ []) empty_store 4 2 3 20 empty_store-IsBacked
      (omega arith) (omega arith) hard_state_stored

abbrev entry : ℕ → ℕ → Entry
entry t i = record {
  term = t;
  index = i;
  content = 7 ∷ [];
  kind = entry_normal;
  conf_change = none;
}

abbrev two_entries : List Entry
two_entries = entry 1 1 ∷ entry 1 2 ∷ []

two_appended : (append_entries proto empty_store two_entries).1 ≡ true
unfolding append_entries append open_wal
two_appended = refl

entry-Fits : (t i : ℕ) → t < 2 ^ 64 → i < 2 ^ 64 → EntryFits proto (entry t i)
unfolding encode_entry put_u64 put_u32
entry-Fits t i ht hi = record { term_word = ht; index_word = hi; record_fits = omega arith }

-- The store that two entries of term 1 have been appended to.
abbrev longer : DiskStorage
longer = (append_entries proto empty_store two_entries).0

longer-IsBacked : IsBacked proto (1 ∷ 2 ∷ 3 ∷ []) longer
longer-IsBacked =
    append_entries-IsBacked proto (1 ∷ 2 ∷ 3 ∷ []) empty_store two_entries two_appended
      (entry-Fits 1 1 (omega arith) (omega arith), (entry-Fits 1 2 (omega arith) (omega arith), tt))
      (omega arith, (omega arith, tt)) empty_store-IsBacked

-- An entry of term 2 replaces the second one.
longer_appended : (append_entries proto longer (entry 2 2 ∷ [])).1 ≡ true
unfolding append_entries append open_wal distkv.DiskStorage.last_of
longer_appended = refl

longer_synced : (sync_log (append_entries proto longer (entry 2 2 ∷ [])).0).1 ≡ true
unfolding sync_log append_entries append open_wal distkv.DiskStorage.last_of sync
longer_synced = refl

longer_above : longer.snap_index < 2
longer_above = omega (arith, (append_entries-Kept proto empty_store two_entries).snap_index)

append_entries_durable_example :
    (r : DiskStorage) × (open_disk_storage proto
        (crash_files (sync_log (append_entries proto longer (entry 2 2 ∷ [])).0).0 4)
        (1 ∷ 2 ∷ 3 ∷ [])
        20
      ≡ done r)
    × (r.log ≡ truncate 2 longer.log ++ entry 2 2 ∷ [])
    × (r.term ≡ longer.term)
    × (r.voted_for ≡ longer.voted_for)
    × (r.conf ≡ longer.conf)
append_entries_durable_example =
    append_entries_durable proto (1 ∷ 2 ∷ 3 ∷ []) longer (entry 2 2) [] 4 20 longer-IsBacked
      (entry-Fits 2 2 (omega arith) (omega arith), tt) (longer_above, tt) longer_appended
      longer_synced
