-- ===== src/Engine/Durable.antt =====
-- Put and Delete of storage/engine.go on a device that does not fail: what a crash leaves of them.
use distkv.Prelude.{
  ℕ, suc, ◌+◌, ◌-◌, ◌^◌, ◌≤◌, ◌<◌, ◌≡◌, refl, sym, ap, ◌∙◌, true, List, [], ◌∷◌, ◌++◌, arith, leb,
  if◌then◌else◌, length, All, append-nil, append_assoc, Bool-cases, inl, inr,
}
use mathlib.Core.Path.{subst}
use distkv.Codec.{Bytes}
use distkv.Wal.{done, crash, frames, frame, append, sync}
use distkv.KeyMap.{KvEntry, upsert, upsert_all}
use distkv.Memtable.{random_height}
use distkv.Memtable.Search.{random_height_bounds}
use distkv.Memtable.Refinement.{put_lem}
use distkv.Engine.{Engine, put_entry, encode_wal_record, flush_locked, write, sync_write, get}
use distkv.Engine.Start.{EngineOptions, open_engine}
use distkv.Engine.Reading.{holds}
use distkv.Engine.Flushing.{FlushFits, Same-FlushFits}
use distkv.Engine.Writing.{buffered, written, buffered-IsEngine, write-get}
use distkv.Engine.Recovery.{log_of, LogFits, IsDurable, open_engine-crash}
use distkv.Engine.Lasting.{Lasting, flush_locked-Lasting}

-- The engine after the log has taken the record and is synced.
abbrev acked : KvEntry → Engine → ℕ → Engine
acked e en k = record en {
  wal = record {
    synced = en.wal.synced ++ (en.wal.pending ++ frame (encode_wal_record e));
    pending = [];
    off = en.wal.off + (8 + length (encode_wal_record e));
    io = k;
  };
  mem = put_entry e en.mem;
}

write_steps :
    (e : KvEntry) (en : Engine) (k : ℕ)
    → en.sync_wal ≡ true
    → en.wal.io ≡ suc (suc k)
    → write e en ≡ (
        if leb en.flush_size (put_entry e en.mem).table.size
        then flush_locked (acked e en k)
        else (acked e en k, done tt))
unfolding write append sync sync_write
write_steps e en k s h = rw (h, s) refl

log_of_snoc :
    (es : List KvEntry) (e : KvEntry)
    → log_of (es ++ e ∷ []) ≡ log_of es ++ frame (encode_wal_record e)
unfolding frames
log_of_snoc [] e = append-nil (frame (encode_wal_record e))
log_of_snoc (x ∷ es) e =
    rw (log_of_snoc es e)
      (sym (append_assoc (frame (encode_wal_record x)) (log_of es) (frame (encode_wal_record e))))

upsert_all_snoc :
    (es m : List KvEntry) (e : KvEntry) → upsert_all (es ++ e ∷ []) m ≡ upsert e (upsert_all es m)
unfolding upsert_all
upsert_all_snoc [] m e = refl
upsert_all_snoc (x ∷ es) m e = upsert_all_snoc es (upsert x m) e

LogFits-snoc :
    (es : List KvEntry) (e : KvEntry) → All LogFits es → LogFits e → All LogFits (es ++ e ∷ [])
LogFits-snoc [] e f h = (h, tt)
LogFits-snoc (x ∷ es) e f h = (f.0, LogFits-snoc es e f.1 h)

acked-IsDurable :
    (e : KvEntry) (en : Engine) (k : ℕ) → IsDurable en → LogFits e → IsDurable (acked e en k)
unfolding put_entry
acked-IsDurable e en k d f =
    let height : ℕ = random_height (en.mem.rand 0) in
    record {
      valid = record { buffer = (buffered-IsEngine e en d.valid).buffer; tables = d.valid.tables };
      logged = d.logged ++ e ∷ [];
      log_fits = LogFits-snoc d.logged e d.log_fits f;
      log_eq = rw (d.log_eq, d.log_synced) (sym (log_of_snoc d.logged e));
      log_synced = refl;
      buffer_eq =
          (put_lem e height en.mem.table d.valid.buffer (random_height_bounds (en.mem.rand 0)).0).1
          ∙ ap (upsert e) d.buffer_eq
          ∙ sym (upsert_all_snoc d.logged [] e);
      files_eq = d.files_eq;
      falling = d.falling;
      numbers = d.numbers;
    }

-- What a write on a synced log needs of the engine and of the device: a record and tables that fit,
-- two more numbers for tables, and every call that a flush with a compaction makes.
pub record Room (e : KvEntry) (en : Engine) : Type 0 where
  pub synced : en.sync_wal ≡ true
  pub record_fits : LogFits e
  pub flush_fits : FlushFits (buffered e en)
  pub numbers_left : en.next_sst + 2 < 2 ^ 64
  pub calls_left : 8 + length en.tables ≤ en.wal.io

-- On a device that does not fail a synced write succeeds, whether it flushes and compacts or not,
-- and leaves the disk with all that the engine holds, if there is room for it.
pub write-Lasting :
    (e : KvEntry) (en : Engine)
    → IsDurable en
    → Room e en
    → ((write e en).1 ≡ done tt) × IsDurable (write e en).0
write-Lasting e en d r =
    let k : ℕ = en.wal.io - 2 in
    let calls : en.wal.io ≡ suc (suc k) = omega (arith, r.calls_left) in
    let ready : IsDurable (acked e en k) = acked-IsDurable e en k d r.record_fits in
    subst Lasting (sym (write_steps e en k r.synced calls))
      (elim (Bool-cases (leb en.flush_size (put_entry e en.mem).table.size)) [
        | inr small ↦ rw small (refl, ready)
        | inl large ↦ rw large (
            flush_locked-Lasting (acked e en k) ready
              (Same-FlushFits (record { same_mem = refl; same_tables = refl }) r.flush_fits)
              r.numbers_left (omega (arith, r.calls_left)))
      ])

-- A write that has been acknowledged is not lost. The engine is well formed, its disk has all that
-- it holds and it syncs its log on every write; the entry, the buffer and the live entries fit
-- into the formats, two numbers for tables are left, and the device takes every call of the write.
-- After a crash behind the write OpenEngine, with one call of the device left, then gives an
-- engine of the same kind that answers with the written value for the key, or with none after a
-- Delete, and as before for every other key.
pub open_engine-write :
    (opts : EngineOptions) (rand : ℕ → List ℕ) (torn io kept : ℕ) (e : KvEntry) (en : Engine)
    → IsDurable en
    → Room e en
    → (en' : Engine) × (open_engine opts rand torn
          (write e en).0.files
          (crash (write e en).0.wal kept)
          (suc io)
        ≡ done en')
      × IsDurable en'
      × ((key : Bytes) → get key en' ≡ done (written e key (holds key en)))
open_engine-write opts rand torn io kept e en d r =
    let (ok, lasting) = write-Lasting e en d r in
    let (en', opened, again, same) =
      open_engine-crash opts rand torn io kept (write e en).0 lasting in
    (en', opened, again, λ key. same key ∙ (write-get e en d.valid r.flush_fits ok).1 key)
