-- ===== src/Wal/Recovery.antt =====
-- What ReplayWAL of storage/wal.go recovers from the file that a crash leaves.
use distkv.Prelude.{
  ℕ, zero, suc, ◌+◌, ◌-◌, ◌≤◌, ◌<◌, ◌≡◌, refl, ap, ◌∙◌, sym, none, List, [], ◌∷◌, ◌++◌, arith, ltb,
  length, take, length-append, take-append_add, take-append_le, take_all, append_assoc, All,
  Bool-cases, inl, inr,
}
use distkv.Codec.{Bytes}
use distkv.Wal.Frames.{Fits, length-frame, next_record-frame, next_record-cut}
use distkv.Wal.{
  Outcome, frame, next_record, bind_congr, replay_loop, replay_wal, fold_records, frames,
}

module _ {ℓ} {S : Type ℓ} (fn : S → Bytes → Outcome S) where
  -- A file of whole frames and a tail that starts with no record replays to the fold of the
  -- records, with any fuel above their number.
  replay_loop-frames :
      (ps : List Bytes) (tail : Bytes) (fuel : ℕ) (s : S)
      → All Fits ps
      → next_record tail ≡ none
      → length ps < fuel
      → replay_loop fn fuel (frames ps ++ tail) s ≡ fold_records fn ps s
  unfolding replay_loop frames fold_records
  replay_loop-frames ps tail zero s h e lt = absurd (omega arith)
  replay_loop-frames [] tail (suc fuel) s h e lt = rw (e, replay_loop)
  replay_loop-frames (p ∷ ps) tail (suc fuel) s h e lt = rw append_assoc (
      rw (next_record-frame p (frames ps ++ tail) h.0, replay_loop)
        (bind_congr (fn s p) (replay_loop fn fuel (frames ps ++ tail)) (fold_records fn ps)
          (λ s'. replay_loop-frames ps tail fuel s' h.1 e (omega arith))))

pub length-frames : (ps : List Bytes) → length ps ≤ length (frames ps)
unfolding frames
length-frames [] = omega arith
length-frames (p ∷ ps) =
    omega (arith, length-append (frame p) (frames ps), length-frame p, length-frames ps)

pub next_record-nil : next_record [] ≡ none
unfolding next_record
next_record-nil = refl

pub replay_wal-frames {ℓ} :
    {S : Type ℓ} (fn : S → Bytes → Outcome S) (ps : List Bytes) (tail : Bytes) (s : S)
    → All Fits ps
    → next_record tail ≡ none
    → replay_wal fn (frames ps ++ tail) s ≡ fold_records fn ps s
unfolding replay_wal
replay_wal-frames fn ps tail s h e =
    replay_loop-frames fn ps tail (length (frames ps ++ tail) + 1) s h e
      (omega (arith, length-append (frames ps) tail, length-frames ps))

-- A crash cuts a file of frames into whole frames and a tail that starts with no record.
pub record Cut (ps : List Bytes) (k : ℕ) : Type 0 where
  pub kept : ℕ
  pub tail : Bytes
  pub split : take k (frames ps) ≡ frames (take kept ps) ++ tail
  pub ends : next_record tail ≡ none
  pub whole : length (frames ps) ≤ k → take kept ps ≡ ps

take-frames-cons :
    (p : Bytes) (ps : List Bytes) (k : ℕ)
    → length (frame p) ≤ k
    → take k (frame p ++ frames ps) ≡ frame p ++ take (k - length (frame p)) (frames ps)
take-frames-cons p ps k h =
    let e : k ≡ length (frame p) + (k - length (frame p)) = omega arith in
    ap (λ j. take j (frame p ++ frames ps)) e
    ∙ take-append_add (frame p) (frames ps) (k - length (frame p))

pub cut : (ps : List Bytes) (k : ℕ) → All Fits ps → Cut ps k
unfolding frames
cut [] k h = record {
  kept = 0;
  tail = [];
  split = take_all k [] (omega arith);
  ends = next_record-nil;
  whole = λ _. refl;
}
cut (p ∷ ps) k h = elim (Bool-cases (ltb k (length (frame p)))) [
  | inl inside ↦ record {
    kept = 0;
    tail = take k (frame p);
    split = take-append_le k (frame p) (frames ps) (ground arith);
    ends = next_record-cut p k h.0 (ground arith);
    whole = λ all. absurd (ground (arith, length-append (frame p) (frames ps)));
  }
  | inr beyond ↦
      let c : Cut ps (k - length (frame p)) = cut ps (k - length (frame p)) h.1 in
      record {
        kept = suc c.kept;
        tail = c.tail;
        split =
            take-frames-cons p ps k (ground arith)
            ∙ ap (λ t. frame p ++ t) c.split
            ∙ sym (append_assoc (frame p) (frames (take c.kept ps)) c.tail);
        ends = c.ends;
        whole =
            λ all. ap (λ t. p ∷ t) (c.whole (omega (arith, length-append (frame p) (frames ps))));
      }
]

pub frames-append : (ps qs : List Bytes) → frames (ps ++ qs) ≡ frames ps ++ frames qs
unfolding frames
frames-append [] qs = refl
frames-append (p ∷ ps) qs =
    rw (frames-append ps qs) (sym (append_assoc (frame p) (frames ps) (frames qs)))
