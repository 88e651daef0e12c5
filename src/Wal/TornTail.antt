-- ===== src/Wal/TornTail.antt =====
-- ReplayWAL and OpenWAL of storage/wal.go after a crash that left half a record: the replay stops
-- before it, and the file is appended to behind it.
use distkv.Prelude.{
  ℕ, suc, ◌+◌, ◌≤◌, ◌≡◌, ◌≢◌, refl, sym, ◌∙◌, false, true, not, none, List, [], ◌∷◌, ◌++◌,
  append-nil, arith, ltb, ◌==◌, length, take, append_assoc, All,
}
use mathlib.Core.Path.{subst}
use distkv.Codec.{Bytes, checksum, checksum-lt}
use distkv.Wal.{
  Outcome, Wal, open_wal, append, sync, crash, next_record, replay_wal, fold_records, frames, frame,
}
use distkv.Wal.Crash.{Op, append_op, sync_op, run}
use distkv.Wal.Frames.{Fits, headed, next_record-headed, take-frame}
use distkv.Wal.Recovery.{replay_wal-frames}

headed-append : (crc n : ℕ) (a b : Bytes) → headed crc n a ++ b ≡ headed crc n (a ++ b)
headed-append crc n a b = simp append_assoc

torn_mismatch :
    (p later : Bytes) (kept : ℕ)
    → Fits p
    → length p ≤ length (take kept p ++ later)
    → checksum (take (length p) (take kept p ++ later)) ≢ checksum p
    → next_record (take (8 + kept) (frame p) ++ later) ≡ none
torn_mismatch p later kept f long differs =
    let body : Bytes = take kept p ++ later in
    let whole : ltb (length body) (length p) ≡ false = ground arith in
    let wrong : not (checksum (take (length p) body) == checksum p) ≡ true = ground arith in
    rw (take-frame p kept) (
      rw (headed-append (checksum p) (length p) (take kept p) later) (
        rw (next_record-headed (checksum p) (length p) body (checksum-lt p) f)
          (rw whole (rw wrong))))

abbrev pub appends : List Bytes → List Op
appends [] = []
appends (p ∷ ps) = append_op p ∷ appends ps

run-++ : (ops more : List Op) (w : Wal) → run (ops ++ more) w ≡ run more (run ops w)
unfolding run
run-++ [] more w = refl
run-++ (append_op p ∷ ops) more w = run-++ ops more (append w p).0
run-++ (sync_op ∷ ops) more w = run-++ ops more (sync w).0

-- Appends on a device that takes them all.
record Appended (w : Wal) (ps : List Bytes) (left : ℕ) (w1 : Wal) : Type 0 where
  on_disk : w1.synced ≡ w.synced
  waiting : w1.pending ≡ w.pending ++ frames ps
  calls_left : w1.io ≡ left

append_each :
    (ps : List Bytes) (left : ℕ) (w : Wal)
    → w.io ≡ length ps + left
    → Appended w ps left (run (appends ps) w)
unfolding run frames
append_each [] left w h = record {
  on_disk = refl;
  waiting = sym (append-nil w.pending);
  calls_left = omega (arith, h);
}
append_each (p ∷ ps) left w h =
    let enough : w.io ≡ suc (length ps + left) = omega (arith, h) in
    let w1 : Wal = record {
      synced = w.synced;
      pending = w.pending ++ frame p;
      off = w.off + (8 + length p);
      io = length ps + left;
    } in
    let took : (append w p).0 ≡ w1 = unfold append in rw (enough, append) refl in
    let rest = append_each ps left w1 refl in
    subst (λ v. Appended w (p ∷ ps) left (run (appends ps) v)) (sym took)
      (record {
        on_disk = rest.on_disk;
        waiting = rest.waiting ∙ append_assoc w.pending (frame p) (frames ps);
        calls_left = rest.calls_left;
      })

sync-works :
    (w : Wal) (left : ℕ)
    → w.io ≡ suc left
    → ((sync w).0.synced ≡ w.synced ++ w.pending)
      × ((sync w).0.pending ≡ [])
      × ((sync w).0.io ≡ left)
unfolding sync
sync-works w left h = rw (h, sync) (refl, refl, refl)

-- All of the records appended and synced behind the file.
append_and_sync :
    (file : Bytes) (ps : List Bytes) (left : ℕ)
    → let w1 = run (appends ps ++ sync_op ∷ []) (open_wal file (length ps + suc left)) in
      (w1.synced ≡ file ++ frames ps) × (w1.pending ≡ []) × (w1.io ≡ left)
unfolding run
append_and_sync file ps left =
    let w : Wal = open_wal file (length ps + suc left) in
    let a = append_each ps (suc left) w (unfold open_wal in refl) in
    let (disk, none_left, calls) = sync-works (run (appends ps) w) left a.calls_left in
    let same = run-++ (appends ps) (sync_op ∷ []) w in
    let opened : (w.synced ≡ file) × (w.pending ≡ []) = unfold open_wal in (refl, refl) in
    rw same (cc (disk, a.on_disk, a.waiting, opened.0, opened.1), none_left, calls)

-- A crash behind one more Append.
crash_after :
    (w : Wal) (p : Bytes) (kept left : ℕ)
    → w.pending ≡ []
    → w.io ≡ suc left
    → crash (run (append_op p ∷ []) w) (8 + kept) ≡ w.synced ++ take (8 + kept) (frame p)
unfolding crash run append
crash_after w p kept left clear calls = rw (calls, append) (rw clear refl)

-- Some records were appended and synced, and a crash has cut the one that was appended next in its
-- payload. OpenWAL opens the file, and more records are appended and synced with success, at least
-- as many bytes as the cut took. Where the checksum notices the mixture, the next replay has the
-- records before the cut one only: it recovers none that were written and synced behind the cut. All
-- records before the cut are shorter than 2^32 bytes, the cut one too, and the device works.
pub replay_wal-after_torn :
    {S : Type 0} (fn : S → Bytes → Outcome S) (before after : List Bytes) (p : Bytes)
    (kept left left' : ℕ) (s : S)
    → All Fits before
    → Fits p
    → length p ≤ length (take kept p ++ frames after)
    → checksum (take (length p) (take kept p ++ frames after)) ≢ checksum p
    → let file =
        crash
          (run
            ((appends before ++ sync_op ∷ []) ++ append_op p ∷ [])
            (open_wal [] (length before + suc (suc left))))
          (8 + kept) in
      let later = run (appends after ++ sync_op ∷ []) (open_wal file (length after + suc left')) in
      (later.pending ≡ []) × (replay_wal fn later.synced s ≡ fold_records fn before s)
replay_wal-after_torn fn before after p kept left left' s fs f long differs =
    let w : Wal =
      run (appends before ++ sync_op ∷ []) (open_wal [] (length before + suc (suc left))) in
    let (disk, clear, calls) = append_and_sync [] before (suc left) in
    let cut = crash_after w p kept left clear calls in
    let split =
      run-++ (appends before ++ sync_op ∷ []) (append_op p ∷ [])
        (open_wal [] (length before + suc (suc left))) in
    let file : Bytes = frames before ++ take (8 + kept) (frame p) in
    let whole : crash
          (run ((appends before ++ sync_op ∷ []) ++ append_op p ∷ [])
            (open_wal [] (length before + suc (suc left))))
          (8 + kept)
        ≡ file =
      cc (split, cut, disk) in
    let (later_disk, synced_all, used) = append_and_sync file after left' in
    rw whole (
      synced_all,
      rw later_disk (
          rw (append_assoc (frames before) (take (8 + kept) (frame p)) (frames after)) (
            replay_wal-frames fn before (take (8 + kept) (frame p) ++ frames after) s fs
              (torn_mismatch p (frames after) kept f long differs))),
    )
