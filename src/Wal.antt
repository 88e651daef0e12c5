-- ===== src/Wal.antt =====
-- storage/wal.go: the append-only write-ahead log and its replay.
pub mod Frames
pub mod Recovery
pub mod Crash
pub mod TornTail
use distkv.Prelude.{
  ℕ, zero, suc, ◌+◌, Bool, true, false, Option, none, some, List, [], ◌∷◌, ◌++◌, ltb, ◌==◌, not,
  ◌≡◌, refl, if◌then◌else◌, length, take, drop,
}
use distkv.Codec.{Bytes, put_u32, get_u32, checksum}

-- What a fallible call returns. `unfinished` is a loop that has used up its fuel.
pub data Outcome {ℓ} (S : Type ℓ) : Type ℓ where
  done : S → Outcome S
  failed : Outcome S
  panic : Outcome S
  unfinished : Outcome S

infixl 5 ◌>>=◌
abbrev pub ◌>>=◌ {ℓ κ} : {S : Type ℓ} {T : Type κ} → Outcome S → (S → Outcome T) → Outcome T
done s >>= f = f s
failed >>= f = failed
panic >>= f = panic
unfinished >>= f = unfinished

pub bind_congr {ℓ κ} :
    {S : Type ℓ} {T : Type κ} (o : Outcome S) (f g : S → Outcome T)
    → ((s : S) → f s ≡ g s)
    → (o >>= f) ≡ (o >>= g)
bind_congr (done s) f g h = h s
bind_congr failed f g h = refl
bind_congr panic f g h = refl
bind_congr unfinished f g h = refl

pub bind_assoc {ℓ κ μ} :
    {S : Type ℓ} {T : Type κ} {U : Type μ} (o : Outcome S) (f : S → Outcome T) (g : T → Outcome U)
    → (o >>= f >>= g) ≡ (o >>= λ s. f s >>= g)
bind_assoc (done s) f g = refl
bind_assoc failed f g = refl
bind_assoc panic f g = refl
bind_assoc unfinished f g = refl

-- A file that is appended to through a buffer. `synced` is on the disk; of `pending`, which was
-- written after the last fsync, a crash keeps some first part. `io` counts the calls that succeed
-- before the device fails for good: the writer of bufio keeps its first error.
pub record Wal : Type 0 where
  pub synced : Bytes
  pub pending : Bytes
  pub off : ℕ
  pub io : ℕ

-- OpenWAL of a file with these contents, with the device's remaining calls.
unfoldable pub open_wal : Bytes → ℕ → Wal
open_wal file io = record { synced = file; pending = []; off = length file; io = io }

-- crc32(4) | len(4) | payload(len)
unfoldable pub frame : Bytes → Bytes
frame payload = put_u32 (checksum payload) ++ (put_u32 (length payload) ++ payload)

-- Append. The result says whether it succeeded.
unfoldable pub append : Wal → Bytes → Wal × Bool
unfolding frame
append w payload = elim w.io [
  | zero ↦ (w, false)
  | suc io ↦ (
    record {
      synced = w.synced;
      pending = w.pending ++ frame payload;
      off = w.off + (8 + length payload);
      io = io;
    },
    true,
  )
]

-- Sync: flush and fsync.
unfoldable pub sync : Wal → Wal × Bool
sync w = elim w.io [
  | zero ↦ (w, false)
  | suc io ↦ (record { synced = w.synced ++ w.pending; pending = []; off = w.off; io = io }, true)
]

-- Close: the last flush and fsync, then the file is closed.
unfoldable pub close : Wal → Wal × Bool
unfolding sync
close w = sync w

-- The file that a crash leaves, where `kept` bytes of the unsynced part reached the disk.
unfoldable pub crash : Wal → ℕ → Bytes
crash w kept = w.synced ++ take kept w.pending

-- One turn of the loop of ReplayWAL: the payload and the rest of the file, or the end of the
-- replay at a short header, a short payload or a wrong checksum.
unfoldable pub next_record : Bytes → Option (Bytes × Bytes)
next_record file = if ltb (length file) 8 then none else elim (get_u32 file) [
  | none ↦ none
  | some crc ↦ elim (get_u32 (drop 4 file)) [
    | none ↦ none
    | some n ↦
        let rest = drop 8 file in
        if ltb (length rest) n
        then none
        else if not (checksum (take n rest) == crc)
        then none
        else some (take n rest, drop n rest)
  ]
]

-- ReplayWAL over the file's contents, with the callback `fn` as a function on the state that it
-- changes. Every turn takes 8 bytes at least, so the length of the file is fuel enough.
module _ {ℓ} {S : Type ℓ} (fn : S → Bytes → Outcome S) where
  unfoldable pub replay_loop : ℕ → Bytes → S → Outcome S
  unfolding next_record
  replay_loop zero file s = unfinished
  replay_loop (suc fuel) file s = elim (next_record file) [
    | none ↦ done s
    | some (payload, rest) ↦ fn s payload >>= λ s'. replay_loop fuel rest s'
  ]

  unfoldable pub replay_wal : Bytes → S → Outcome S
  unfolding replay_loop
  replay_wal file s = replay_loop (length file + 1) file s

  -- What the records mean: the callback on each in turn, up to the first failure.
  unfoldable pub fold_records : List Bytes → S → Outcome S
  fold_records [] s = done s
  fold_records (p ∷ ps) s = fn s p >>= λ s'. fold_records ps s'

-- The file that holds these records.
unfoldable pub frames : List Bytes → Bytes
unfolding frame
frames [] = []
frames (p ∷ ps) = frame p ++ frames ps
