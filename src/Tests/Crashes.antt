-- ===== src/Tests/Crashes.antt =====
-- An engine with every write flushed, and what is found after a crash.
use distkv.Prelude.{◌≡◌, refl, sym, true, some, List, [], ◌∷◌, ◌⊎◌, arith, length}
use mathlib.Core.Path.{subst}
use distkv.Codec.{Bytes, put_u32}
use distkv.Wal.{Outcome, done, open_wal, crash, frames}
use distkv.Wal
use distkv.KeyMap.{find, Unique, upsert_all}
use distkv.Memtable.{new_memtable, entries}
use distkv.Memtable
use distkv.Memtable.Refinement.{new_memtable-IsMemtable}
use distkv.SsTable.{records, build_index, encode_record}
use distkv.SsTable.Opening.{TableFits}
use distkv.StateMachine.{Machine, lookup, snapshot, restore}
use distkv.StateMachine.OnEngine.{storage_engine, restore-snapshot_on_engines}
use distkv.Tests.Engines.{gob, encode_state, decode_state, read_contents, read_seqs}
use distkv.Engine.{Engine, put_entry, encode_wal_record, live, write, get}
use distkv.Engine.Dump.{snapshot_entries, reset}
use distkv.Engine.Start.{default_engine_options, open_engine}
use distkv.Engine.Layers.{merged}
use distkv.Engine.Reading.{IsEngine, holds, dump}
use distkv.Engine.Flushing.{FlushFits}
use distkv.Engine.Writing.{
  buffered, written, buffered-IsEngine, write-get, write-get_all_or_nothing,
}
use distkv.Engine.Recovery.{IsDurable, LogFits}
use distkv.Engine.Durable.{Room, write-Lasting, open_engine-write}
use distkv.Engine.Resetting.{plain}
use distkv.Tests.Tables.{apple}

-- Every put is past the flush size.
abbrev small_engine : Engine
small_engine = record {
  wal = open_wal [] 100;
  mem = record { table = new_memtable; rand = λ i. [] };
  tables = [];
  next_sst = 0;
  flush_size = 1;
  sync_wal = true;
  files = [];
  torn = 0;
}

small_engine-IsEngine : IsEngine small_engine
small_engine-IsEngine = record { buffer = new_memtable-IsMemtable; tables = tt }

small_engine-IsDurable : IsDurable small_engine
unfolding open_wal frames entries new_memtable upsert_all
small_engine-IsDurable = record {
  valid = small_engine-IsEngine;
  logged = [];
  log_fits = tt;
  log_eq = refl;
  log_synced = refl;
  buffer_eq = refl;
  files_eq = refl;
  falling = tt;
  numbers = omega arith;
}

apple-entries : entries (put_entry apple small_engine.mem).table ≡ apple ∷ []
unfolding put_entry Memtable.put entries new_memtable
apple-entries = refl

apple-dump : live (dump (buffered apple small_engine)) ≡ apple ∷ []
unfolding put_entry Memtable.put entries new_memtable dump merged live upsert_all
apple-dump = refl

apple-records : length (records (apple ∷ [])) ≡ 12
unfolding records encode_record put_u32
apple-records = refl

apple-build_index : length (build_index 0 0 (apple ∷ [])) ≡ 1
unfolding build_index
apple-build_index = refl

apple-TableFits : TableFits (apple ∷ [])
apple-TableFits = record {
  entries_fit = (record { key_fits = omega arith; value_fits = omega arith }, tt);
  file_fits = omega (arith, apple-records);
  count_fits = omega (arith, apple-build_index);
}

apple-FlushFits : FlushFits (buffered apple small_engine)
apple-FlushFits = record {
  buffer_fits = subst TableFits (sym apple-entries) apple-TableFits;
  live_fits = subst TableFits (sym apple-dump) apple-TableFits;
}

apple-LogFits : LogFits apple
unfolding encode_wal_record put_u32
apple-LogFits = omega arith

apple-Room : Room apple small_engine
unfolding open_wal
apple-Room = record {
  synced = refl;
  record_fits = apple-LogFits;
  flush_fits = apple-FlushFits;
  numbers_left = omega arith;
  calls_left = omega arith;
}

write-get_example :
    IsEngine (write apple small_engine).0
    × ((key : Bytes)
        → get key (write apple small_engine).0 ≡ done (written apple key (holds key small_engine)))
write-get_example =
    write-get apple small_engine small_engine-IsEngine apple-FlushFits
      (write-Lasting apple small_engine small_engine-IsDurable apple-Room).0

write-get_all_or_nothing_example :
    IsEngine (write apple small_engine).0
    × (((key : Bytes) → get key (write apple small_engine).0 ≡ get key small_engine)
        ⊎ ((key : Bytes)
            → get key (write apple small_engine).0
              ≡ done (written apple key (holds key small_engine))))
write-get_all_or_nothing_example =
    write-get_all_or_nothing apple small_engine small_engine-IsEngine apple-FlushFits

-- The engine with the entry in its table.
abbrev stored : Engine
stored = (write apple small_engine).0

stored-IsDurable : IsDurable stored
stored-IsDurable = (write-Lasting apple small_engine small_engine-IsDurable apple-Room).1

open_engine-write_example :
    (en : Engine) × (open_engine default_engine_options
        (λ i. [])
        0
        stored.files
        (crash stored.wal 5)
        10
      ≡ done en)
    × IsDurable en
    × ((key : Bytes) → get key en ≡ done (written apple key (holds key small_engine)))
open_engine-write_example =
    open_engine-write default_engine_options (λ i. []) 0 9 5 apple small_engine
      small_engine-IsDurable apple-Room

-- The dump of the engine, and a second engine that takes it.
abbrev taken : List (Bytes × Bytes)
taken = (97 ∷ [], 1 ∷ 2 ∷ []) ∷ []

abbrev filled : Engine
filled = buffered apple small_engine

filled-taken : snapshot_entries filled ≡ done taken
unfolding put_entry Memtable.put entries new_memtable snapshot_entries
filled-taken = refl

taken-Unique : Unique (plain taken)
unfolding find
taken-Unique = (refl, tt)

taken-reset : (reset taken small_engine).1 ≡ done tt
unfolding reset open_wal Wal.close Wal.append
taken-reset = refl

-- Two servers, the first with the entry in its engine.
abbrev first_server : Machine Engine
first_server = record { engine = filled; last_seq = (7 ∷ [], 1) ∷ [] }

abbrev second_server : Machine Engine
second_server = record { engine = small_engine; last_seq = [] }

abbrev sent : Bytes
sent = encode_state (record { contents = taken; last_seq = (7 ∷ [], 1) ∷ [] })

sent_taken : snapshot storage_engine gob first_server ≡ some sent
unfolding put_entry Memtable.put entries new_memtable snapshot_entries snapshot
sent_taken = refl

sent_restored : (restore storage_engine gob sent second_server).1 ≡ true
unfolding restore decode_state reset open_wal Wal.close Wal.append read_contents read_seqs
sent_restored = refl

restore-snapshot_on_engines_example :
    ((k : Bytes)
      → lookup storage_engine k (restore storage_engine gob sent second_server).0
        ≡ lookup storage_engine k first_server)
    × ((restore storage_engine gob sent second_server).0.last_seq ≡ first_server.last_seq)
    × IsEngine (restore storage_engine gob sent second_server).0.engine
restore-snapshot_on_engines_example =
    restore-snapshot_on_engines gob first_server second_server sent
      (buffered-IsEngine apple small_engine small_engine-IsEngine) sent_taken sent_restored
