-- ===== src/DiskStorage/Appending.antt =====
-- appendEntries of raft/storage.go: the log afterwards, and what stays as it was.
use distkv.Prelude.{
  ℕ, ◌<◌, ◌≡◌, ◌∙◌, refl, sym, true, List, [], ◌∷◌, ◌++◌, arith, length, append-nil, append_assoc,
}
use distkv.Wal.{append}
use distkv.DiskStorage.{
  DiskStorage, Entry, EntryProto, encode_entry, truncate, append_loop, drop_suffix, append_entries,
  last_of,
}

-- The parts of the storage that an append leaves alone.
pub record Kept (s s' : DiskStorage) : Type 0 where
  pub term : s'.term ≡ s.term
  pub voted_for : s'.voted_for ≡ s.voted_for
  pub conf : s'.conf ≡ s.conf
  pub snap_index : s'.snap_index ≡ s.snap_index
  pub snap_term : s'.snap_term ≡ s.snap_term
  pub snapshot : s'.snapshot ≡ s.snapshot

Kept-trans : {s t u : DiskStorage} → Kept s t → Kept t u → Kept s u
Kept-trans a b = record {
  term = b.term ∙ a.term;
  voted_for = b.voted_for ∙ a.voted_for;
  conf = b.conf ∙ a.conf;
  snap_index = b.snap_index ∙ a.snap_index;
  snap_term = b.snap_term ∙ a.snap_term;
  snapshot = b.snapshot ∙ a.snapshot;
}

truncate-head :
    (from : ℕ) (e : Entry) (es : List Entry)
    → 0 < length (truncate from es)
    → truncate from (e ∷ es) ≡ e ∷ truncate from es
unfolding truncate
truncate-head from e es h = ground arith

-- A log whose last entry lies below the cut stays whole.
pub truncate_above : (from i : ℕ) (es : List Entry) → last_of i es < from → truncate from es ≡ es
unfolding last_of truncate
truncate_above from i [] h = refl
truncate_above from i (e ∷ []) h = ground arith
truncate_above from i (e ∷ x ∷ xs) h = rw (truncate_above from e.index (x ∷ xs) h, truncate)

truncate_empty : (from : ℕ) (es : List Entry) → length es ≡ 0 → truncate from es ≡ es
unfolding truncate
truncate_empty from [] h = refl
truncate_empty from (e ∷ es) h = absurd (omega arith)

module _ (proto : EntryProto) where
  append_loop-Kept : (es : List Entry) (s : DiskStorage) → Kept s (append_loop proto es s).0
  unfolding append_loop
  append_loop-Kept [] s = record {
    term = refl;
    voted_for = refl;
    conf = refl;
    snap_index = refl;
    snap_term = refl;
    snapshot = refl;
  }
  append_loop-Kept (e ∷ es) s =
      let s1 : DiskStorage = record s {
        wal = (append s.wal (encode_entry proto e)).0;
        log = s.log ++ e ∷ [];
      } in
      let k : Kept s1 (append_loop proto es s1).0 = append_loop-Kept es s1 in ground arith

  drop_suffix-Kept : (s : DiskStorage) (first : ℕ) → Kept s (drop_suffix s first).0
  unfolding drop_suffix
  drop_suffix-Kept s first = ground arith

  pub append_entries-Kept :
      (s : DiskStorage) (es : List Entry) → Kept s (append_entries proto s es).0
  unfolding append_entries
  append_entries-Kept s [] = ground arith
  append_entries-Kept s (e ∷ es) =
      let s1 : DiskStorage = (drop_suffix s e.index).0 in
      let k1 : Kept s s1 = drop_suffix-Kept s e.index in
      let k2 : Kept s1 (append_loop proto (e ∷ es) s1).0 = append_loop-Kept (e ∷ es) s1 in
      let k : Kept s (append_loop proto (e ∷ es) s1).0 = Kept-trans k1 k2 in ground arith

  append_loop-log :
      (es : List Entry) (s : DiskStorage)
      → (append_loop proto es s).1 ≡ true
      → ((append_loop proto es s).0.log ≡ s.log ++ es) × ((append_loop proto es s).0.dirty ≡ true)
  unfolding append_loop
  append_loop-log [] s h = (sym (append-nil s.log), refl)
  append_loop-log (e ∷ es) s h =
      let s1 : DiskStorage = record s {
        wal = (append s.wal (encode_entry proto e)).0;
        log = s.log ++ e ∷ [];
      } in
      ground (arith, append_loop-log es s1, append_assoc s.log (e ∷ []) es)

  drop_suffix-log :
      (s : DiskStorage) (first : ℕ)
      → (drop_suffix s first).1 ≡ true
      → (drop_suffix s first).0.log ≡ truncate first s.log
  unfolding drop_suffix truncate
  drop_suffix-log s first h =
      ground (arith, truncate_above first s.snap_index s.log, truncate_empty first s.log)

  -- A successful append of one or more entries leaves the log cut at the index of the first of them
  -- and followed by them all, and marks it as not synced.
  pub append_entries-log :
      (s : DiskStorage) (e : Entry) (es : List Entry)
      → (append_entries proto s (e ∷ es)).1 ≡ true
      → ((append_entries proto s (e ∷ es)).0.log ≡ truncate e.index s.log ++ e ∷ es)
        × ((append_entries proto s (e ∷ es)).0.dirty ≡ true)
  unfolding append_entries
  append_entries-log s e es h =
      ground (arith, drop_suffix-log s e.index, append_loop-log (e ∷ es) (drop_suffix s e.index).0)
