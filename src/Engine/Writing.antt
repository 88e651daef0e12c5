-- ===== src/Engine/Writing.antt =====
-- Put and Delete of storage/engine.go: what a write changes, on every branch.
use distkv.Prelude.{
  ℕ, ◌≡◌, refl, sym, ap, ◌∙◌, Option, some, ◌⊎◌, inl, inr, leb, Bool-cases, arith, if◌then◌else◌,
}
use distkv.Codec.{Bytes}
use distkv.Text.{same}
use distkv.Wal.{done, failed, append}
use distkv.KeyMap.{KvEntry, find}
use distkv.KeyMap.Laws.{find-upsert}
use distkv.Memtable.{entries, random_height}
use distkv.Memtable.Search.{random_height_bounds}
use distkv.Memtable.Refinement.{put_lem}
use distkv.Engine.{Engine, put_entry, encode_wal_record, sync_write, write, get, value_of}
use distkv.Engine.Layers.{lookup, over, visible}
use distkv.Engine.Reading.{IsEngine, holds, get-holds}
use distkv.Engine.Flushing.{
  Keeps, Keeps-trans, Same-Keeps, FlushFits, Same-FlushFits, flush_locked-Keeps,
}

-- The engine with one more entry in its buffer.
abbrev pub buffered : KvEntry → Engine → Engine
buffered e en = record en { mem = put_entry e en.mem }

-- What Get is to answer after a write of `e`.
abbrev pub written : KvEntry → Bytes → Option Bytes → Option Bytes
written e key old = if same e.key key then value_of e.value e.tombstone else old

pub buffered-IsEngine : (e : KvEntry) (en : Engine) → IsEngine en → IsEngine (buffered e en)
unfolding put_entry
buffered-IsEngine e en v =
    let h : ℕ = random_height (en.mem.rand 0) in
    record {
      buffer = (put_lem e h en.mem.table v.buffer (random_height_bounds (en.mem.rand 0)).0).0;
      tables = v.tables;
    }

visible_written :
    (e : KvEntry) (key : Bytes) (o older : Option KvEntry)
    → visible (over (if same e.key key then some e else o) older)
      ≡ written e key (visible (over o older))
visible_written e key o older = ground arith

pub holds-buffered :
    (e : KvEntry) (key : Bytes) (en : Engine)
    → IsEngine en
    → holds key (buffered e en) ≡ written e key (holds key en)
unfolding holds put_entry
holds-buffered e key en v =
    let h : ℕ = random_height (en.mem.rand 0) in
    ap (λ m. visible (over (find key m) (lookup key en.tables)))
      (put_lem e h en.mem.table v.buffer (random_height_bounds (en.mem.rand 0)).0).1
    ∙ ap (λ o. visible (over o (lookup key en.tables))) (find-upsert e key (entries en.mem.table))
    ∙ visible_written e key (find key (entries en.mem.table)) (lookup key en.tables)

-- A write fails before it has changed anything, or the entry is in the buffer.
pub write-Keeps :
    (e : KvEntry) (en : Engine)
    → IsEngine en
    → FlushFits (buffered e en)
    → (((write e en).1 ≡ failed) × Keeps en (write e en).0) ⊎ Keeps (buffered e en) (write e en).0
unfolding write
write-Keeps e en v f =
    let (w, w_ok) = append en.wal (encode_wal_record e) in
    let (w', synced) = sync_write en.sync_wal w in
    let en1 : Engine = record en { wal = w'; mem = put_entry e en.mem } in
    let entered : Keeps (buffered e en) en1 =
      Same-Keeps (buffered-IsEngine e en v) (record { same_mem = refl; same_tables = refl }) in
    elim (Bool-cases w_ok) [
      | inr h ↦ rw h (inl (refl, Same-Keeps v (record { same_mem = refl; same_tables = refl })))
      | inl h ↦ elim (Bool-cases synced) [
        | inr h' ↦
            rw (h, h') (inl (refl, Same-Keeps v (record { same_mem = refl; same_tables = refl })))
        | inl h' ↦ elim (Bool-cases (leb en.flush_size en1.mem.table.size)) [
          | inr small ↦ rw (h, h', small) (inr entered)
          | inl large ↦
              rw (h, h', large)
                (inr (
                  Keeps-trans entered (
                    flush_locked-Keeps en1 entered.valid
                      (Same-FlushFits (record { same_mem = refl; same_tables = refl }) f))))
        ]
      ]
    ]

-- A key's answer out of what the engine holds.
get-Keeps : (key : Bytes) (a b : Engine) → Keeps a b → get key b ≡ done (holds key a)
get-Keeps key a b k = get-holds key b k.valid ∙ ap done (k.same_values key)

get-Keeps_buffered :
    (e : KvEntry) (key : Bytes) (en b : Engine)
    → IsEngine en
    → Keeps (buffered e en) b
    → get key b ≡ done (written e key (holds key en))
get-Keeps_buffered e key en b v k =
    get-Keeps key (buffered e en) b k ∙ ap done (holds-buffered e key en v)

-- A write that succeeds, on a well-formed engine, leaves a well-formed engine that answers with
-- the written value, or with none after a Delete, for the key, and as before for every other key,
-- whether the write has flushed and compacted or not. The buffer with the entry, and the live
-- entries, must fit into a table.
pub write-get :
    (e : KvEntry) (en : Engine)
    → IsEngine en
    → FlushFits (buffered e en)
    → (write e en).1 ≡ done tt
    → IsEngine (write e en).0
      × ((key : Bytes) → get key (write e en).0 ≡ done (written e key (holds key en)))
write-get e en v f ok = elim (write-Keeps e en v f) [
  | inl no_write ↦ cc (no_write.0, ok)
  | inr k ↦ (k.valid, λ key. get-Keeps_buffered e key en (write e en).0 v k)
]

-- Whatever a write returns, a well-formed engine stays well formed and no read sees half of the
-- write: every key has its old answer, or every key has the answer that the write asks for. The
-- buffer with the entry, and the live entries, must fit into a table.
pub write-get_all_or_nothing :
    (e : KvEntry) (en : Engine)
    → IsEngine en
    → FlushFits (buffered e en)
    → IsEngine (write e en).0
      × (((key : Bytes) → get key (write e en).0 ≡ get key en)
          ⊎ ((key : Bytes) → get key (write e en).0 ≡ done (written e key (holds key en))))
write-get_all_or_nothing e en v f = elim (write-Keeps e en v f) [
  | inl no_write ↦ (
    no_write.1.valid,
    inl (λ key. get-Keeps key en (write e en).0 no_write.1 ∙ sym (get-holds key en v)),
  )
  | inr k ↦ (k.valid, inr (λ key. get-Keeps_buffered e key en (write e en).0 v k))
]
