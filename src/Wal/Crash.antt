-- ===== src/Wal/Crash.antt =====
-- Sequences of Append and Sync calls of storage/wal.go on a device that fails after some number of
-- calls, then a crash, then ReplayWAL.
use distkv.Prelude.{
  ℕ, zero, suc, ◌≤◌, ◌≡◌, refl, ap, ◌∙◌, sym, List, [], ◌∷◌, ◌++◌, arith, length, take, append-nil,
  append_assoc, All, All-append, All-take,
}
use mathlib.Core.Path.{◌≡⟨◌⟩◌, ◌∎}
use distkv.Codec.{Bytes}
use distkv.Wal.{
  Outcome, Wal, open_wal, frame, append, sync, crash, replay_wal, fold_records, frames,
}
use distkv.Wal.Frames.{Fits}
use distkv.Wal.Recovery.{replay_wal-frames, frames-append, Cut, cut}

pub data Op : Type 0 where
  append_op : Bytes → Op
  sync_op : Op

unfoldable pub run : List Op → Wal → Wal
run [] w = w
run (append_op p ∷ ops) w = run ops (append w p).0
run (sync_op ∷ ops) w = run ops (sync w).0

-- The same calls on the two lists of records, with the number of calls that succeed.
pub record Records : Type 0 where
  pub durable : List Bytes
  pub buffered : List Bytes
  pub calls : ℕ

abbrev pub OpFits : Op → Type 0
OpFits (append_op p) = Fits p
OpFits sync_op = Unit

-- What holds between the log and the records, through every call.
record Agree (w : Wal) (r : Records) : Type 0 where
  on_disk : w.synced ≡ frames r.durable
  waiting : w.pending ≡ frames r.buffered
  same_calls : w.io ≡ r.calls
  durable_fit : All Fits r.durable
  buffered_fit : All Fits r.buffered

pub frames_one : (p : Bytes) → frames (p ∷ []) ≡ frame p
unfolding frames
frames_one p = append-nil (frame p)

step_append : Bytes → Records → Records
step_append p r = elim r.calls [
  | zero ↦ r
  | suc n ↦ record { durable = r.durable; buffered = r.buffered ++ p ∷ []; calls = n }
]

step_sync : Records → Records
step_sync r = elim r.calls [
  | zero ↦ r
  | suc n ↦ record { durable = r.durable ++ r.buffered; buffered = []; calls = n }
]

unfoldable pub run_records : List Op → Records → Records
unfolding step_append step_sync
run_records [] r = r
run_records (append_op p ∷ ops) r = run_records ops (step_append p r)
run_records (sync_op ∷ ops) r = run_records ops (step_sync r)

append-Agree :
    (n : ℕ) (w : Wal) (r : Records) (p : Bytes)
    → w.io ≡ n
    → r.calls ≡ n
    → Fits p
    → Agree w r
    → Agree (append w p).0 (step_append p r)
unfolding append step_append
append-Agree zero w r p e e' f a = rw (e, append) (rw (e', step_append) a)
append-Agree (suc n) w r p e e' f a =
    rw (e, append)
      (rw (e', step_append)
        (record {
          on_disk = a.on_disk;
          waiting =
              ap (λ t. t ++ frame p) a.waiting
              ∙ ap (λ t. frames r.buffered ++ t) (sym (frames_one p))
              ∙ sym (frames-append r.buffered (p ∷ []));
          same_calls = refl;
          durable_fit = a.durable_fit;
          buffered_fit = All-append Fits r.buffered (p ∷ []) a.buffered_fit (f, tt);
        }))

sync-Agree :
    (n : ℕ) (w : Wal) (r : Records)
    → w.io ≡ n
    → r.calls ≡ n
    → Agree w r
    → Agree (sync w).0 (step_sync r)
unfolding sync step_sync
sync-Agree zero w r e e' a = rw (e, sync) (rw (e', step_sync) a)
sync-Agree (suc n) w r e e' a =
    rw (e, sync)
      (rw (e', step_sync)
        (record {
          on_disk = cc (a.on_disk, a.waiting, frames-append r.durable r.buffered);
          waiting = unfold frames in refl;
          same_calls = refl;
          durable_fit = All-append Fits r.durable r.buffered a.durable_fit a.buffered_fit;
          buffered_fit = tt;
        }))

run-Agree :
    (ops : List Op) (w : Wal) (r : Records)
    → All OpFits ops
    → Agree w r
    → Agree (run ops w) (run_records ops r)
unfolding run run_records
run-Agree [] w r f a = a
run-Agree (append_op p ∷ ops) w r f a =
    run-Agree ops (append w p).0 (step_append p r) f.1
      (append-Agree w.io w r p refl (sym a.same_calls) f.0 a)
run-Agree (sync_op ∷ ops) w r f a =
    run-Agree ops (sync w).0 (step_sync r) f.1 (sync-Agree w.io w r refl (sym a.same_calls) a)

abbrev pub no_records : ℕ → Records
no_records io = record { durable = []; buffered = []; calls = io }

open-Agree : (io : ℕ) → Agree (open_wal [] io) (no_records io)
unfolding open_wal frames
open-Agree io = record {
  on_disk = refl;
  waiting = refl;
  same_calls = refl;
  durable_fit = tt;
  buffered_fit = tt;
}

crash_file :
    (w : Wal) (r : Records) (c : ℕ) (a : Agree w r) (k : Cut r.buffered c)
    → crash w c ≡ frames (r.durable ++ take k.kept r.buffered) ++ k.tail
unfolding crash
crash_file w r c a k =
    w.synced ++ take c w.pending
    ≡⟨ cc (a.on_disk, a.waiting, k.split) ⟩
      frames r.durable ++ (frames (take k.kept r.buffered) ++ k.tail)
    ≡⟨ sym (append_assoc (frames r.durable) (frames (take k.kept r.buffered)) k.tail) ⟩
      frames r.durable ++ frames (take k.kept r.buffered) ++ k.tail
    ≡⟨ ap (λ t. t ++ k.tail) (sym (frames-append r.durable (take k.kept r.buffered))) ⟩
      frames (r.durable ++ take k.kept r.buffered) ++ k.tail ∎

recover :
    {S : Type 0} (fn : S → Bytes → Outcome S) (w : Wal) (r : Records) (s : S) (c : ℕ)
    → Agree w r
    → Cut r.buffered c
    → (kept : ℕ) × (replay_wal fn (crash w c) s
        ≡ fold_records fn (r.durable ++ take kept r.buffered) s)
      × (length w.pending ≤ c → take kept r.buffered ≡ r.buffered)
unfolding crash
recover fn w r s c a k = (
  k.kept,
  rw (crash_file w r c a k) (
      replay_wal-frames fn (r.durable ++ take k.kept r.buffered) k.tail s
        (All-append Fits r.durable (take k.kept r.buffered) a.durable_fit
          (All-take Fits k.kept r.buffered a.buffered_fit))
        k.ends),
  λ h. k.whole (omega (arith, ap length a.waiting)),
)

-- After any Append and Sync calls on a new log, with records shorter than 2^32 bytes and a device
-- that fails at any point, a crash that keeps any first part of the unsynced bytes leaves a file
-- whose replay folds the callback over every record that was synced and then over some first ones
-- of those that were not: over all of them if the crash lost nothing.
pub replay_wal-crash :
    {S : Type 0} (fn : S → Bytes → Outcome S) (ops : List Op) (io kept_bytes : ℕ) (s : S)
    → All OpFits ops
    → (kept : ℕ) × (replay_wal fn (crash (run ops (open_wal [] io)) kept_bytes) s
        ≡ fold_records fn
            ((run_records ops (no_records io)).durable
              ++ take kept (run_records ops (no_records io)).buffered)
            s)
      × (length (run ops (open_wal [] io)).pending ≤ kept_bytes
          → take kept (run_records ops (no_records io)).buffered
            ≡ (run_records ops (no_records io)).buffered)
replay_wal-crash fn ops io kept_bytes s f =
    let a : Agree (run ops (open_wal [] io)) (run_records ops (no_records io)) =
      run-Agree ops (open_wal [] io) (no_records io) f (open-Agree io) in
    recover fn (run ops (open_wal [] io)) (run_records ops (no_records io)) s kept_bytes a
      (cut (run_records ops (no_records io)).buffered kept_bytes a.buffered_fit)
