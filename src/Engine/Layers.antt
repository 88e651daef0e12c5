-- ===== src/Engine/Layers.antt =====
-- What the tables of storage/engine.go hold together: for each key the entry of the newest table
-- that has it.
use distkv.Prelude.{ℕ, ◌≡◌, refl, sym, ap, ◌∙◌, Option, none, some, List, [], ◌∷◌, arith, All}
use mathlib.Core.Path.{subst}
use distkv.Codec.{Bytes}
use distkv.Wal.{Outcome, done, failed, panic, unfinished}
use distkv.KeyMap.{KvEntry, find, upsert_all, Above, IsSorted, Unique}
use distkv.KeyMap.Laws.{upsert_all-IsSorted, IsSorted-Unique, find-upsert_all, find-Above-same}
use distkv.SsTable.{SsTable, all}
use distkv.SsTable
use distkv.SsTable.Opening.{TableFits, table_of}
use distkv.SsTable.RoundTrip.{all-table_of}
use distkv.SsTable.Reading.{get-table_of}
use distkv.Engine.{merge_tables, live, get_from, value_of}
use distkv.Engine.Dump.{pairs}
use distkv.StateMachine

abbrev or_empty : Outcome (List KvEntry) → List KvEntry
or_empty (done es) = es
or_empty failed = []
or_empty panic = []
or_empty unfinished = []

-- A table's entries.
unfoldable pub contents : SsTable → List KvEntry
contents t = or_empty (all t)

-- A table as writeSSTable leaves it.
pub record IsTable (t : SsTable) : Type 0 where
  pub written : t ≡ table_of t.seq (contents t)
  pub sorted : IsSorted (contents t)
  pub fits : TableFits (contents t)

pub contents-table_of :
    (seq : ℕ) (es : List KvEntry) → TableFits es → contents (table_of seq es) ≡ es
unfolding contents
contents-table_of seq es f = ap or_empty (all-table_of es f seq)

pub table_of-IsTable :
    (seq : ℕ) (es : List KvEntry) → IsSorted es → TableFits es → IsTable (table_of seq es)
unfolding table_of
table_of-IsTable seq es s f =
    let e : contents (table_of seq es) ≡ es = contents-table_of seq es f in
    record {
      written = ap (table_of seq) (sym e);
      sorted = subst IsSorted (sym e) s;
      fits = subst TableFits (sym e) f;
    }

abbrev pub over : Option KvEntry → Option KvEntry → Option KvEntry
over (some e) older = some e
over none older = older

unfoldable pub lookup : Bytes → List SsTable → Option KvEntry
lookup key [] = none
lookup key (t ∷ ts) = over (find key (contents t)) (lookup key ts)

-- What Get makes of an entry.
abbrev pub visible : Option KvEntry → Option Bytes
visible none = none
visible (some e) = value_of e.value e.tombstone

all-contents : (t : SsTable) → IsTable t → all t ≡ done (contents t)
all-contents t v = ap all v.written ∙ all-table_of (contents t) v.fits t.seq

get-find :
    (key : Bytes) (t : SsTable) → IsTable t → SsTable.get key t ≡ done (find key (contents t))
get-find key t v =
    ap (SsTable.get key) v.written ∙ get-table_of t.seq key (contents t) v.sorted v.fits

pub get_from-lookup :
    (key : Bytes) (ts : List SsTable)
    → All IsTable ts
    → get_from key ts ≡ done (visible (lookup key ts))
unfolding get_from lookup
get_from-lookup key [] v = refl
get_from-lookup key (t ∷ ts) v =
    rw (get-find key t v.0) (answer (find key (contents t)) (get_from-lookup key ts v.1))
  where
    answer :
        (o : Option KvEntry)
        → get_from key ts ≡ done (visible (lookup key ts))
        → elim o [ none ↦ get_from key ts | some e ↦ done (value_of e.value e.tombstone) ]
          ≡ done (visible (over o (lookup key ts)))
    answer none h = h
    answer (some e) h = refl

-- The tables merged into one list.
unfoldable pub merged : List SsTable → List KvEntry
merged [] = []
merged (t ∷ ts) = upsert_all (contents t) (merged ts)

pub merge_tables-merged : (ts : List SsTable) → All IsTable ts → merge_tables ts ≡ done (merged ts)
unfolding merge_tables merged
merge_tables-merged [] v = refl
merge_tables-merged (t ∷ ts) v = rw (merge_tables-merged ts v.1, all-contents t v.0) refl

pub merged-IsSorted : (ts : List SsTable) → IsSorted (merged ts)
unfolding merged
merged-IsSorted [] = tt
merged-IsSorted (t ∷ ts) = upsert_all-IsSorted (contents t) (merged ts) (merged-IsSorted ts)

pub find-over :
    (key : Bytes) (es m : List KvEntry)
    → Unique es
    → find key (upsert_all es m) ≡ over (find key es) (find key m)
find-over key es m s = find-upsert_all es m key s ∙ same_choice (find key es)
  where
    same_choice :
        (o : Option KvEntry) → elim o [ none ↦ find key m | some e ↦ some e ] ≡ over o (find key m)
    same_choice none = refl
    same_choice (some e) = refl

pub find-merged :
    (key : Bytes) (ts : List SsTable) → All IsTable ts → find key (merged ts) ≡ lookup key ts
unfolding merged lookup
find-merged key [] v = unfold find in refl
find-merged key (t ∷ ts) v =
    find-over key (contents t) (merged ts) (IsSorted-Unique (contents t) v.0.sorted)
    ∙ ap (over (find key (contents t))) (find-merged key ts v.1)

Above-live : (k : Bytes) (es : List KvEntry) → Above k es → Above k (live es)
unfolding live
Above-live k [] a = tt
Above-live k (e ∷ es) a = ground (arith, Above-live k es a.1)

pub live-IsSorted : (es : List KvEntry) → IsSorted es → IsSorted (live es)
unfolding live
live-IsSorted [] s = tt
live-IsSorted (e ∷ es) s = ground (arith, live-IsSorted es s.1, Above-live e.key es s.0)

-- Dropping the tombstones leaves what is visible.
pub find-live :
    (key : Bytes) (es : List KvEntry)
    → IsSorted es
    → visible (find key (live es)) ≡ visible (find key es)
unfolding live find
find-live key [] s = refl
find-live key (e ∷ es) s =
    ground
      (arith, find-live key es s.1, find-Above-same e.key key (live es) (Above-live e.key es s.0))

-- The dump of the live entries, as the map that it is.
pub find-pairs :
    (key : Bytes) (es : List KvEntry)
    → IsSorted es
    → StateMachine.find (pairs (live es)) key ≡ visible (find key es)
unfolding live find pairs StateMachine.find
find-pairs key [] s = refl
find-pairs key (e ∷ es) s = ground (arith, find-pairs key es s.1, find-Above-same e.key key es s.0)
