-- ===== src/Engine/Flushing.antt =====
-- flushLocked and compactLocked of storage/engine.go: every branch keeps what the engine holds.
use distkv.Prelude.{
  ℕ, ◌≡◌, refl, sym, ap, ◌∙◌, Option, none, some, List, [], ◌∷◌, inl, inr, ltb, length, Bool-cases,
  All,
}
use mathlib.Core.Path.{subst}
use distkv.Codec.{Bytes}
use distkv.Wal.{done}
use distkv.KeyMap.{KvEntry, find, IsSorted, upsert_all}
use distkv.Memtable.{new_memtable, entries}
use distkv.Memtable.Refinement.{IsMemtable, new_memtable-IsMemtable, entries-IsSorted}
use distkv.SsTable.{SsTable}
use distkv.SsTable.Opening.{TableFits, table_of}
use distkv.Engine.{
  Engine, Buffer, make_table, live, remove_tables, new_log, compact_locked, finish_flush,
  flush_locked, max_tables_before_compact,
}
use distkv.Engine.Layers.{
  IsTable, contents, contents-table_of, table_of-IsTable, lookup, over, visible, merged,
  merge_tables-merged, merged-IsSorted, find-merged, live-IsSorted, find-live,
}
use distkv.Engine.Reading.{IsEngine, holds, dump}
use distkv.Engine.Steps.{
  Same, Same-refl, Same-trans, make_table_lem, then_table_lem, remove_tables-Same, new_log-Same,
}

-- Well formed, with the same value for every key.
pub record Keeps (a b : Engine) : Type 0 where
  pub valid : IsEngine b
  pub same_values : (key : Bytes) → holds key b ≡ holds key a

pub Keeps-trans : {a b c : Engine} → Keeps a b → Keeps b c → Keeps a c
Keeps-trans p q = record {
  valid = q.valid;
  same_values = λ key. q.same_values key ∙ p.same_values key;
}

pub Same-Keeps : {a b : Engine} → IsEngine a → Same a b → Keeps a b
unfolding holds
Same-Keeps {a} {b} v s = record {
  valid = record {
    buffer = subst (λ m. IsMemtable m.table) (sym s.same_mem) v.buffer;
    tables = subst (All IsTable) (sym s.same_tables) v.tables;
  };
  same_values = λ key. rw (s.same_mem, s.same_tables) refl;
}

visible-over :
    (o a b : Option KvEntry) → visible a ≡ visible b → visible (over o a) ≡ visible (over o b)
visible-over none a b h = h
visible-over (some e) a b h = refl

over-none : (o : Option KvEntry) → over o none ≡ o
over-none none = refl
over-none (some e) = refl

over-twice : (o a : Option KvEntry) → over o (over o a) ≡ over o a
over-twice none a = refl
over-twice (some e) a = refl

-- All tables replaced by one with their live entries.
pub compacted :
    (en : Engine) (seq : ℕ)
    → IsEngine en
    → TableFits (live (merged en.tables))
    → Keeps en (record en { tables = table_of seq (live (merged en.tables)) ∷ [] })
unfolding holds lookup
compacted en seq v f =
    let m : List KvEntry = merged en.tables in
    let s : IsSorted m = merged-IsSorted en.tables in
    record {
      valid = record {
        buffer = v.buffer;
        tables = (table_of-IsTable seq (live m) (live-IsSorted m s) f, tt);
      };
      same_values = λ key.
          visible-over (find key (entries en.mem.table))
            (over (find key (contents (table_of seq (live m)))) none) (lookup key en.tables)
            (ap visible (over-none (find key (contents (table_of seq (live m)))))
              ∙ ap (λ c. visible (find key c)) (contents-table_of seq (live m) f)
              ∙ find-live key m s
              ∙ ap visible (find-merged key en.tables v.tables));
    }

-- A compaction keeps what the engine holds, whether it succeeds or not, when the live entries fit
-- into a table.
pub compact_locked-Keeps :
    (en : Engine)
    → IsEngine en
    → TableFits (live (merged en.tables))
    → Keeps en (compact_locked en).0
unfolding compact_locked
compact_locked-Keeps en v f =
    let es : List KvEntry = live (merged en.tables) in
    let (left, made) = make_table_lem es en f in
    let after : Keeps en (record en { tables = table_of en.next_sst es ∷ [] }) =
      compacted en en.next_sst v f in
    let en1 : Engine = record (make_table es en).0 { tables = table_of en.next_sst es ∷ [] } in
    rw (compact_locked, merge_tables-merged en.tables v.tables)
      (then_table_lem (Keeps en) (make_table es en) (table_of en.next_sst es)
        (λ t a. (remove_tables en.tables (record a { tables = t ∷ [] }), done tt)) made
        (Same-Keeps v left)
        (Keeps-trans after (
          Same-Keeps after.valid (
            Same-trans (record { same_mem = left.same_mem; same_tables = refl })
              (remove_tables-Same en.tables en1)))))

-- The buffer in front of the tables as a table of its own.
flushed :
    (en : Engine) (seq : ℕ)
    → IsEngine en
    → TableFits (entries en.mem.table)
    → Keeps en (record en { tables = table_of seq (entries en.mem.table) ∷ en.tables })
unfolding holds lookup
flushed en seq v f =
    let es : List KvEntry = entries en.mem.table in
    record {
      valid = record {
        buffer = v.buffer;
        tables = (table_of-IsTable seq es (entries-IsSorted en.mem.table v.buffer) f, v.tables);
      };
      same_values = λ key.
          ap (λ c. visible (over (find key es) (over (find key c) (lookup key en.tables))))
            (contents-table_of seq es f)
          ∙ ap visible (over-twice (find key es) (lookup key en.tables));
    }

-- Then the buffer is emptied.
pub emptied :
    (en : Engine) (seq : ℕ)
    → IsEngine en
    → TableFits (entries en.mem.table)
    → Keeps en (record en {
      tables = table_of seq (entries en.mem.table) ∷ en.tables;
      mem = record (en.mem) { table = new_memtable };
    })
unfolding holds lookup new_memtable entries contents find
emptied en seq v f =
    let es : List KvEntry = entries en.mem.table in
    record {
      valid = record {
        buffer = new_memtable-IsMemtable;
        tables = (flushed en seq v f).valid.tables;
      };
      same_values = λ key.
          ap (λ c. visible (over (find key c) (lookup key en.tables))) (contents-table_of seq es f);
    }

-- What a flush needs room for: the buffer as a table, and the live entries, should it compact.
pub record FlushFits (en : Engine) : Type 0 where
  pub buffer_fits : TableFits (entries en.mem.table)
  pub live_fits : TableFits (live (dump en))

pub merged_fits :
    (seq : ℕ) (en : Engine)
    → FlushFits en
    → TableFits (live (merged (table_of seq (entries en.mem.table) ∷ en.tables)))
unfolding merged dump
merged_fits seq en f =
    subst (λ c. TableFits (live (upsert_all c (merged en.tables))))
      (sym (contents-table_of seq (entries en.mem.table) f.buffer_fits)) f.live_fits

finish_flush-Keeps :
    (seq : ℕ) (en : Engine)
    → IsEngine en
    → FlushFits en
    → Keeps en (finish_flush (table_of seq (entries en.mem.table)) en).0
unfolding finish_flush
finish_flush-Keeps seq en v f =
    let es : List KvEntry = entries en.mem.table in
    let t : SsTable = table_of seq es in
    let en0 : Engine = record en { tables = t ∷ en.tables } in
    let logged : Same en0 (new_log en0).0 = new_log-Same en0 in
    let en1 : Engine = (new_log en0).0 in
    let en2 : Engine = record en1 { mem = record (en1.mem) { table = new_memtable } } in
    let front : Keeps en en0 = flushed en seq v f.buffer_fits in
    let empty : Keeps en
        (record en { tables = t ∷ en.tables; mem = record (en.mem) { table = new_memtable } }) =
      emptied en seq v f.buffer_fits in
    let drained : Keeps en en2 = Keeps-trans empty (
      Same-Keeps empty.valid (record {
        same_mem = ap {A = Buffer} (λ m. record m { table = new_memtable }) logged.same_mem;
        same_tables = logged.same_tables;
      })) in
    let room : TableFits (live (merged en2.tables)) =
      subst (λ ts. TableFits (live (merged ts))) (sym logged.same_tables) (merged_fits seq en f) in
    elim (Bool-cases (new_log en0).1) [
      | inr h ↦ rw h (Keeps-trans front (Same-Keeps front.valid logged))
      | inl h ↦ elim (Bool-cases (ltb max_tables_before_compact (length en2.tables))) [
        | inr few ↦ rw (h, few) drained
        | inl many ↦
            rw (h, many) (Keeps-trans drained (compact_locked-Keeps en2 drained.valid room))
      ]
    ]

pub Same-FlushFits : {a b : Engine} → Same a b → FlushFits a → FlushFits b
Same-FlushFits s f = record {
  buffer_fits = subst (λ m. TableFits (entries m.table)) (sym s.same_mem) f.buffer_fits;
  live_fits = unfold dump in (rw (s.same_mem, s.same_tables) (unfold dump in f.live_fits));
}

-- A flush keeps a well-formed engine well formed and the value of every key, on every branch:
-- nothing to flush, a failing write, a failing log, and with and without a compaction. The buffer
-- and the live entries must fit into a table.
pub flush_locked-Keeps : (en : Engine) → IsEngine en → FlushFits en → Keeps en (flush_locked en).0
unfolding flush_locked
flush_locked-Keeps en v f = by_entries (entries en.mem.table) refl
  where
    by_entries : (es : List KvEntry) → entries en.mem.table ≡ es → Keeps en (flush_locked en).0
    by_entries [] h = rw (flush_locked, h) (Same-Keeps v (Same-refl en))
    by_entries (e ∷ es) h =
        let all : List KvEntry = e ∷ es in
        let (left, made) = make_table_lem all en (subst TableFits h f.buffer_fits) in
        let en1 : Engine = (make_table all en).0 in
        let first : Keeps en en1 = Same-Keeps v left in
        let same_entries : entries en1.mem.table ≡ all =
          ap (λ m. entries m.table) left.same_mem ∙ h in
        rw (flush_locked, h)
          (then_table_lem (Keeps en) (make_table all en) (table_of en.next_sst all) finish_flush
            made first
            (Keeps-trans first (
              subst (λ l. Keeps en1 (finish_flush (table_of en.next_sst l) en1).0) same_entries
                (finish_flush-Keeps en.next_sst en1 first.valid (Same-FlushFits left f)))))
