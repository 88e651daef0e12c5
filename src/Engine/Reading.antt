-- ===== src/Engine/Reading.antt =====
-- Get and SnapshotEntries of storage/engine.go on a well-formed engine.
use distkv.Prelude.{◌≡◌, refl, sym, ap, ◌∙◌, Option, none, some, List, All}
use distkv.Codec.{Bytes}
use distkv.Wal.{done}
use distkv.KeyMap.{KvEntry, find, upsert_all, IsSorted}
use distkv.KeyMap.Laws.{upsert_all-IsSorted, IsSorted-Unique}
use distkv.Memtable.{entries}
use distkv.Memtable.Refinement.{IsMemtable, get-find, found, entries-IsSorted}
use distkv.Engine.{Engine, get, get_from, value_of, live}
use distkv.Engine.Dump.{snapshot_entries, pairs}
use distkv.Engine.Layers.{
  IsTable, lookup, over, visible, merged, get_from-lookup, merge_tables-merged, merged-IsSorted,
  find-merged, find-over, find-pairs,
}
use distkv.StateMachine

-- The invariant: the skip list is in order and each table's file is the one of its sorted entries.
pub record IsEngine (en : Engine) : Type 0 where
  pub buffer : IsMemtable en.mem.table
  pub tables : All IsTable en.tables

-- The map that the buffer and the tables hold.
unfoldable pub holds : Bytes → Engine → Option Bytes
holds key en = visible (over (find key (entries en.mem.table)) (lookup key en.tables))

-- Get answers with the value that the newest of the buffer and the tables has for the key, and with
-- no value for a tombstone; it does not fail on a well-formed engine.
pub get-holds : (key : Bytes) (en : Engine) → IsEngine en → get key en ≡ done (holds key en)
unfolding get holds
get-holds key en v =
    rw (get, get-find key en.mem.table v.buffer)
      (answer (find key (entries en.mem.table)) (get_from-lookup key en.tables v.tables))
  where
    answer :
        (o : Option KvEntry)
        → get_from key en.tables ≡ done (visible (lookup key en.tables))
        → elim (found o) [ none ↦ get_from key en.tables | some (v, tomb) ↦ done (value_of v tomb) ]
          ≡ done (visible (over o (lookup key en.tables)))
    answer none h = h
    answer (some e) h = refl

unfoldable pub dump : Engine → List KvEntry
dump en = upsert_all (entries en.mem.table) (merged en.tables)

pub dump-IsSorted : (en : Engine) → IsSorted (dump en)
unfolding dump
dump-IsSorted en =
    upsert_all-IsSorted (entries en.mem.table) (merged en.tables) (merged-IsSorted en.tables)

pub snapshot_entries-dump :
    (en : Engine) → IsEngine en → snapshot_entries en ≡ done (pairs (live (dump en)))
unfolding snapshot_entries dump
snapshot_entries-dump en v = rw (merge_tables-merged en.tables v.tables) refl

pub find-dump :
    (key : Bytes) (en : Engine) → IsEngine en → visible (find key (dump en)) ≡ holds key en
unfolding dump holds
find-dump key en v = ap visible (
    find-over key (entries en.mem.table) (merged en.tables)
      (IsSorted-Unique (entries en.mem.table) (entries-IsSorted en.mem.table v.buffer))
    ∙ ap (over (find key (entries en.mem.table))) (find-merged key en.tables v.tables))

-- SnapshotEntries of a well-formed engine succeeds, and its map has for each key what Get answers.
pub snapshot_entries-get :
    (en : Engine)
    → IsEngine en
    → (kvs : StateMachine.Contents) × (snapshot_entries en ≡ done kvs)
      × ((key : Bytes) → get key en ≡ done (StateMachine.find kvs key))
snapshot_entries-get en v = (
  pairs (live (dump en)),
  snapshot_entries-dump en v,
  λ key.
      get-holds key en v
      ∙ ap done (sym (find-pairs key (dump en) (dump-IsSorted en) ∙ find-dump key en v)),
)
