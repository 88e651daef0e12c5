-- ===== src/Engine/Resetting.antt =====
-- Reset of storage/engine.go: a snapshot's entries in place of all that was held.
use distkv.Prelude.{
  ◌≡◌, refl, sym, ap, ◌∙◌, true, false, Option, none, some, List, [], ◌∷◌, arith, Bool-cases, inl,
  inr, All,
}
use mathlib.Core.Path.{subst}
use distkv.Codec.{Bytes}
use distkv.Wal.{done, failed, append}
use distkv.KeyMap.Laws.{IsSorted-Unique}
use distkv.KeyMap.{KvEntry, find, upsert_all, IsSorted, Unique}
use distkv.Memtable.{entries, new_memtable, random_height}
use distkv.Memtable.Search.{random_height_bounds}
use distkv.Memtable.Refinement.{IsMemtable, put_lem, new_memtable-IsMemtable}
use distkv.Engine.{Engine, put_entry, encode_wal_record, remove_tables, new_log, get, live}
use distkv.Engine.Dump.{load, reset, pairs, snapshot_entries}
use distkv.Engine.Layers.{IsTable, lookup, over, visible, live-IsSorted, find-over}
use distkv.Engine.Reading.{
  IsEngine, holds, get-holds, dump, dump-IsSorted, snapshot_entries-get, snapshot_entries-dump,
}
use distkv.Engine.Steps.{Same, new_log-Same}
use distkv.StateMachine

-- The entries of a map without tombstones.
abbrev pub plain : List (Bytes × Bytes) → List KvEntry
plain [] = []
plain ((k, v) ∷ kvs) = record { key = k; value = v; tombstone = false } ∷ plain kvs

-- What the loop has done when it ends.
record Loaded (kvs : List (Bytes × Bytes)) (en : Engine) (b : Engine) : Type 0 where
  same_tables : b.tables ≡ en.tables
  buffer : IsMemtable b.mem.table
  loaded : entries b.mem.table ≡ upsert_all (plain kvs) (entries en.mem.table)

load-Loaded :
    (kvs : List (Bytes × Bytes)) (en : Engine)
    → IsMemtable en.mem.table
    → (load kvs en).1 ≡ true
    → Loaded kvs en (load kvs en).0
unfolding load put_entry upsert_all
load-Loaded [] en v h = record { same_tables = refl; buffer = v; loaded = refl }
load-Loaded ((k, x) ∷ kvs) en v h =
    let e : KvEntry = record { key = k; value = x; tombstone = false } in
    let one =
      put_lem e (random_height (en.mem.rand 0)) en.mem.table v
        (random_height_bounds (en.mem.rand 0)).0 in
    let en1 : Engine = record en {
      wal = (append en.wal (encode_wal_record e)).0;
      mem = put_entry e en.mem;
    } in
    elim (Bool-cases (append en.wal (encode_wal_record e)).1) [
      | inl ok ↦
          let rest : Loaded kvs en1 (load kvs en1).0 = load-Loaded kvs en1 one.0 (rw ok at h) in
          rw ok (record {
            same_tables = rest.same_tables;
            buffer = rest.buffer;
            loaded = rest.loaded ∙ ap (upsert_all (plain kvs)) one.1;
          })
      | inr refused ↦ let stuck : false ≡ true = rw refused at h in cc stuck
    ]

find-plain :
    (kvs : List (Bytes × Bytes)) (key : Bytes)
    → visible (find key (plain kvs)) ≡ StateMachine.find kvs key
unfolding find StateMachine.find
find-plain [] key = refl
find-plain ((k, v) ∷ kvs) key = ground (arith, find-plain kvs key)

-- The engine when the loop starts, with its log.
abbrev wiped : Engine → Engine
wiped en =
    (new_log (record (remove_tables en.tables en) {
      tables = [];
      mem = record (en.mem) { table = new_memtable };
    })).0

wiped-same : (en : Engine) → ((wiped en).tables ≡ []) × ((wiped en).mem.table ≡ new_memtable)
wiped-same en =
    let en1 : Engine = record (remove_tables en.tables en) {
      tables = [];
      mem = record (en.mem) { table = new_memtable };
    } in
    let s : Same en1 (new_log en1).0 = new_log-Same en1 in
    (s.same_tables, ap (λ m. m.table) s.same_mem)

reset-Loaded :
    (kvs : List (Bytes × Bytes)) (en : Engine)
    → (reset kvs en).1 ≡ done tt
    → Loaded kvs (wiped en) (reset kvs en).0
unfolding reset
reset-Loaded kvs en h =
    let en1 : Engine = record (remove_tables en.tables en) {
      tables = [];
      mem = record (en.mem) { table = new_memtable };
    } in
    let buffer : IsMemtable (wiped en).mem.table =
      subst IsMemtable (sym (wiped-same en).1) new_memtable-IsMemtable in
    elim (Bool-cases (new_log en1).1) [
      | inr no_log ↦ let stuck : failed ≡ done tt = rw no_log at h in cc stuck
      | inl ready ↦ elim (Bool-cases (load kvs (wiped en)).1) [
        | inr cut ↦ let stuck : failed ≡ done tt = rw (ready, cut) at h in cc stuck
        | inl all ↦
            let l : Loaded kvs (wiped en) (load kvs (wiped en)).0 =
              load-Loaded kvs (wiped en) buffer all in
            rw (ready, all)
              (record { same_tables = l.same_tables; buffer = l.buffer; loaded = l.loaded })
      ]
    ]

wiped_entries : (en : Engine) → entries (wiped en).mem.table ≡ []
unfolding entries new_memtable
wiped_entries en = ap entries (wiped-same en).1

visible_alone : (o : Option KvEntry) → visible (over (over o none) none) ≡ visible o
visible_alone none = refl
visible_alone (some e) = refl

held :
    (kvs : List (Bytes × Bytes)) (b : Engine) (key : Bytes)
    → Unique (plain kvs)
    → b.tables ≡ []
    → entries b.mem.table ≡ upsert_all (plain kvs) []
    → holds key b ≡ StateMachine.find kvs key
unfolding holds lookup find
held kvs b key s t l =
    rw (t, l)
      (ap (λ o. visible (over o none)) (find-over key (plain kvs) [] s)
        ∙ visible_alone (find key (plain kvs))
        ∙ find-plain kvs key)

-- A Reset that succeeds leaves a well-formed engine whose answers are those of the given map, and
-- nothing of what was there before. No key stands twice in the map.
pub reset-get :
    (kvs : List (Bytes × Bytes)) (en : Engine)
    → Unique (plain kvs)
    → (reset kvs en).1 ≡ done tt
    → IsEngine (reset kvs en).0
      × ((key : Bytes) → get key (reset kvs en).0 ≡ done (StateMachine.find kvs key))
reset-get kvs en s h =
    let l : Loaded kvs (wiped en) (reset kvs en).0 = reset-Loaded kvs en h in
    let no_tables : (reset kvs en).0.tables ≡ [] = l.same_tables ∙ (wiped-same en).0 in
    let v : IsEngine (reset kvs en).0 = record {
      buffer = l.buffer;
      tables = subst (All IsTable) (sym no_tables) tt;
    } in
    let loaded : entries (reset kvs en).0.mem.table ≡ upsert_all (plain kvs) [] =
      l.loaded ∙ ap (upsert_all (plain kvs)) (wiped_entries en) in
    (
      v,
      λ key.
          get-holds key (reset kvs en).0 v
          ∙ ap done (held kvs (reset kvs en).0 key s no_tables loaded),
    )

pub plain-live : (es : List KvEntry) → plain (pairs (live es)) ≡ live es
unfolding pairs live
plain-live [] = refl
plain-live (e ∷ es) = ground (arith, plain-live es)

pub dump-Unique :
    (en : Engine) (kvs : List (Bytes × Bytes))
    → IsEngine en
    → snapshot_entries en ≡ done kvs
    → Unique (plain kvs)
dump-Unique en kvs v taken =
    let same_dump : done (pairs (live (dump en))) ≡ done kvs =
      sym (snapshot_entries-dump en v) ∙ taken in
    let e : pairs (live (dump en)) ≡ kvs = cc same_dump in
    IsSorted-Unique (plain kvs) (
      subst (λ l. IsSorted (plain l)) e
        (subst IsSorted (sym (plain-live (dump en))) (live-IsSorted (dump en) (dump-IsSorted en))))

-- A snapshot carries an engine over to another: when a well-formed one is dumped by SnapshotEntries
-- and the other takes the same map, its entries in any order, by a Reset that succeeds, the other
-- is well formed and answers every read as the first does.
pub reset-snapshot_entries :
    (a b : Engine) (kvs ranged : List (Bytes × Bytes))
    → IsEngine a
    → snapshot_entries a ≡ done kvs
    → Unique (plain ranged)
    → ((key : Bytes) → StateMachine.find ranged key ≡ StateMachine.find kvs key)
    → (reset ranged b).1 ≡ done tt
    → IsEngine (reset ranged b).0 × ((key : Bytes) → get key (reset ranged b).0 ≡ get key a)
reset-snapshot_entries a b kvs ranged v taken once same_map h =
    let (dumped, is_dump, reads) = snapshot_entries-get a v in
    let same_dump : done dumped ≡ done kvs = sym is_dump ∙ taken in
    let e : dumped ≡ kvs = cc same_dump in
    let (after, answers) = reset-get ranged b once h in
    (
      after,
      λ key.
          answers key
          ∙ ap done (same_map key)
          ∙ ap (λ l. done (StateMachine.find l key)) (sym e)
          ∙ sym (reads key),
    )
