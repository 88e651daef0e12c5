-- ===== src/StateMachine/OnEngine.antt =====
-- server/statemachine.go on storage/engine.go: the engine's operations keep what the state machine
-- relies on.
use distkv.Prelude.{
  ◌≡◌, refl, sym, ap, ◌∙◌, Bool, true, false, Option, none, some, [], if◌then◌else◌,
}
use distkv.Codec.{Bytes}
use distkv.Text.{same}
use distkv.Wal.{Outcome, done, failed, panic, unfinished}
use distkv.KeyMap.{KvEntry, Unique}
use distkv.StateMachine
use distkv.StateMachine.{Contents, Gob, Machine, find, lookup, snapshot, restore}
use distkv.StateMachine.Restoring.{restore-snapshot}
use distkv.Engine.{Engine, Status, write, put, delete, get}
use distkv.Engine.Dump.{snapshot_entries, reset}
use distkv.Engine.Reading.{IsEngine, holds, get-holds, snapshot_entries-get}
use distkv.Engine.Flushing.{FlushFits}
use distkv.Engine.Writing.{buffered, written, write-get, write-get_all_or_nothing}
use distkv.Engine.Resetting.{plain, dump-Unique, reset-get}

abbrev pub succeeded : Status → Bool
succeeded (done u) = true
succeeded failed = false
succeeded panic = false
succeeded unfinished = false

pub succeeded-done : (s : Status) → succeeded s ≡ true → s ≡ done tt
succeeded-done (done u) h = refl
succeeded-done failed h = cc h
succeeded-done panic h = cc h
succeeded-done unfinished h = cc h

abbrev pub value_or_none : Outcome (Option Bytes) → Option Bytes
value_or_none (done v) = v
value_or_none failed = none
value_or_none panic = none
value_or_none unfinished = none

abbrev pub answers : Outcome (Option Bytes) → Bool
answers (done v) = true
answers failed = false
answers panic = false
answers unfinished = false

abbrev pub dump_or_none : Outcome Contents → Option Contents
dump_or_none (done d) = some d
dump_or_none failed = none
dump_or_none panic = none
dump_or_none unfinished = none

abbrev pub entry : Bytes → Option Bytes → KvEntry
entry k (some v) = record { key = k; value = v; tombstone = false }
entry k none = record { key = k; value = []; tombstone = true }

-- In order, and with room for the entry in a table.
abbrev pub CanWrite : Bytes → Option Bytes → Engine → Type 0
CanWrite k v en = IsEngine en × FlushFits (buffered (entry k v) en)

abbrev pub read : Bytes → Engine → Option Bytes
read k en = value_or_none (get k en)

read-holds : (k : Bytes) (en : Engine) → IsEngine en → read k en ≡ holds k en
read-holds k en v = ap value_or_none (get-holds k en v)

read-write :
    (k : Bytes) (v : Option Bytes) (j : Bytes) (en : Engine)
    → CanWrite k v en
    → succeeded (write (entry k v) en).1 ≡ true
    → read j (write (entry k v) en).0 ≡ written (entry k v) j (read j en)
read-write k v j en room h =
    let e : KvEntry = entry k v in
    ap value_or_none ((write-get e en room.0 room.1 (succeeded-done (write e en).1 h)).1 j)
    ∙ ap (written e j) (sym (read-holds j en room.0))

pub put_in_order : (k v : Bytes) (en : Engine) → CanWrite k (some v) en → IsEngine (put k v en).0
unfolding put
put_in_order k v en room = (write-get_all_or_nothing (entry k (some v)) en room.0 room.1).0

pub read-put :
    (k v j : Bytes) (en : Engine)
    → CanWrite k (some v) en
    → succeeded (put k v en).1 ≡ true
    → read j (put k v en).0 ≡ (if same k j then some v else read j en)
unfolding put
read-put k v j en room h = read-write k (some v) j en room h

pub delete_in_order : (k : Bytes) (en : Engine) → CanWrite k none en → IsEngine (delete k en).0
unfolding delete
delete_in_order k en room = (write-get_all_or_nothing (entry k none) en room.0 room.1).0

pub read-delete :
    (k j : Bytes) (en : Engine)
    → CanWrite k none en
    → succeeded (delete k en).1 ≡ true
    → read j (delete k en).0 ≡ (if same k j then none else read j en)
unfolding delete
read-delete k j en room h = read-write k none j en room h

-- The dump of an engine in order, out of the call's result.
pub dumped :
    (en : Engine) (d : Contents)
    → IsEngine en
    → dump_or_none (snapshot_entries en) ≡ some d
    → snapshot_entries en ≡ done d
dumped en d v h =
    let (kvs, taken, reads) = snapshot_entries-get en v in
    let same_dump : some kvs ≡ some d = sym (ap dump_or_none taken) ∙ h in
    let e : kvs ≡ d = cc same_dump in taken ∙ ap done e

pub read-dump :
    (en : Engine) (d : Contents)
    → IsEngine en
    → snapshot_entries en ≡ done d
    → (j : Bytes) → find d j ≡ read j en
read-dump en d v h j =
    let (kvs, taken, reads) = snapshot_entries-get en v in
    let same_dump : done kvs ≡ done d = sym taken ∙ h in
    let e : kvs ≡ d = cc same_dump in sym (ap value_or_none (reads j) ∙ ap (λ l. find l j) e)

-- The state machine's interface, filled by the storage engine.
abbrev pub storage_engine : StateMachine.Engine Engine
storage_engine = record {
  put = λ k v en. ((put k v en).0, succeeded (put k v en).1);
  delete = λ k en. ((delete k en).0, succeeded (delete k en).1);
  get = read;
  can_read = λ k en. answers (get k en);
  snapshot_entries = λ en. dump_or_none (snapshot_entries en);
  reset = λ d en. ((reset d en).0, succeeded (reset d en).1);
  InOrder = IsEngine;
  CanTake = CanWrite;
  IsDump = λ d. Unique (plain d);
  put-InOrder = put_in_order;
  get-put = read-put;
  delete-InOrder = delete_in_order;
  get-delete = read-delete;
  snapshot_entries-IsDump = λ en d v h. dump-Unique en d v (dumped en d v h);
  get-snapshot_entries = λ en d v h j. read-dump en d v (dumped en d v h) j;
  reset-InOrder = λ d en s h. (reset-get d en s (succeeded-done (reset d en).1 h)).0;
  get-reset =
      λ d en s h j. ap value_or_none ((reset-get d en s (succeeded-done (reset d en).1 h)).1 j);
}

-- A snapshot that one server's state machine took of its storage engine, and that another one
-- restores into its own with success, gives the second the first one's answer to every read and
-- every client's last number, and leaves its engine well formed. The first engine must be.
pub restore-snapshot_on_engines :
    (gob : Gob) (s t : Machine Engine) (b : Bytes)
    → IsEngine s.engine
    → snapshot storage_engine gob s ≡ some b
    → (restore storage_engine gob b t).1 ≡ true
    → ((k : Bytes)
        → lookup storage_engine k (restore storage_engine gob b t).0 ≡ lookup storage_engine k s)
      × ((restore storage_engine gob b t).0.last_seq ≡ s.last_seq)
      × IsEngine (restore storage_engine gob b t).0.engine
restore-snapshot_on_engines gob s t b v h ok = restore-snapshot storage_engine gob s t b v h ok
