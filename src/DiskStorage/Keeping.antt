-- ===== src/DiskStorage/Keeping.antt =====
-- setHardState, setConfState, appendEntries and sync of raft/storage.go keep the log file and the
-- memory together.
use distkv.Prelude.{
  ℕ, ◌^◌, ◌<◌, ◌≡◌, ◌∙◌, refl, sym, true, false, List, [], ◌∷◌, ◌++◌, arith, length, append-nil,
  append_assoc, All, ◌⊎◌, inl, inr,
}
use distkv.Codec.{Bytes}
use distkv.Wal.{Wal, append, sync, done}
use distkv.Wal.Frames.{Fits}
use distkv.ConfState.{ConfState}
use distkv.ConfState.Encoding.{Encodable}
use distkv.DiskStorage.{
  DiskStorage, Entry, EntryProto, encode_entry, truncate, hard_state_record, truncate_record,
  conf_state_record, set_hard_state, set_conf_state, append_loop, drop_suffix, append_entries,
  sync_log,
}
use distkv.DiskStorage.Restart.{replay_record}
use distkv.DiskStorage.RecordReplay.{
  replay_hard, hard_state-Fits, truncate-Fits, replay_cut, replay_membership, replay_entry,
  append_ok, sync_ok, EntryFits,
}
use mathlib.Core.Path.{subst}
use distkv.DiskStorage.Backed.{mirror, SameFiles, Backed, push, flush}

module _ (proto : EntryProto) (bootstrap : List ℕ) where
  -- The log file of `s` replays to the memory of `s`.
  abbrev pub IsBacked : DiskStorage → Type 0
  IsBacked s = Backed proto bootstrap s.wal.synced s.wal.pending (mirror s)

  -- A record that is appended for a change of the memory.
  push_wal :
      (s : DiskStorage) (p : Bytes) (m' : DiskStorage)
      → (append s.wal p).1 ≡ true
      → Fits p
      → replay_record proto (mirror s) p ≡ done m'
      → SameFiles (mirror s) m'
      → IsBacked s
      → Backed proto bootstrap (append s.wal p).0.synced (append s.wal p).0.pending m'
  push_wal s p m' ok f step same b =
      rw ((append_ok s.wal p ok).0, (append_ok s.wal p ok).1)
        (push proto bootstrap s.wal.synced s.wal.pending (mirror s) m' p f step same b)

  flush_wal :
      (w : Wal) (m : DiskStorage)
      → (sync w).1 ≡ true
      → Backed proto bootstrap w.synced w.pending m
      → Backed proto bootstrap (sync w).0.synced [] m
  flush_wal w m ok b = rw (sync_ok w ok).0 (flush proto bootstrap w.synced w.pending m b)

  pub set_hard_state_parts :
      (s : DiskStorage) (t v : ℕ)
      → (set_hard_state s t v).1 ≡ true
      → ((append s.wal (hard_state_record t v)).1 ≡ true)
        × ((sync (append s.wal (hard_state_record t v)).0).1 ≡ true)
        × ((set_hard_state s t v).0 ≡ record s {
          term = t;
          voted_for = v;
          wal = (sync (append s.wal (hard_state_record t v)).0).0;
        })
  unfolding set_hard_state
  set_hard_state_parts s t v h = ground arith

  pub set_hard_state-IsBacked :
      (s : DiskStorage) (t v : ℕ)
      → (set_hard_state s t v).1 ≡ true
      → t < 2 ^ 64
      → v < 2 ^ 64
      → IsBacked s
      → IsBacked (set_hard_state s t v).0 × ((set_hard_state s t v).0.wal.pending ≡ [])
  set_hard_state-IsBacked s t v h ht hv b =
      let (appended, synced, result) = set_hard_state_parts s t v h in
      let w : Wal = (append s.wal (hard_state_record t v)).0 in
      let m' : DiskStorage = record (mirror s) { term = t; voted_for = v } in
      let small : Fits (hard_state_record t v) = hard_state-Fits t v in
      let b' : Backed proto bootstrap (sync w).0.synced [] m' = flush_wal w m' synced (
        push_wal s (hard_state_record t v) m' appended small
          (replay_hard proto (mirror s) t v ht hv) (refl, refl, refl) b) in
      rw result (rw (sync_ok w synced).1 (b', refl))

  set_conf_state_parts :
      (s : DiskStorage) (c : ConfState)
      → (set_conf_state s c).1 ≡ true
      → ((append s.wal (conf_state_record c)).1 ≡ true)
        × ((sync (append s.wal (conf_state_record c)).0).1 ≡ true)
        × ((set_conf_state s c).0
            ≡ record s { conf = c; wal = (sync (append s.wal (conf_state_record c)).0).0 })
  unfolding set_conf_state
  set_conf_state_parts s c h = ground arith

  pub set_conf_state-IsBacked :
      (s : DiskStorage) (c : ConfState)
      → (set_conf_state s c).1 ≡ true
      → Encodable c
      → 0 < length c.voters
      → Fits (conf_state_record c)
      → IsBacked s
      → IsBacked (set_conf_state s c).0 × ((set_conf_state s c).0.wal.pending ≡ [])
  set_conf_state-IsBacked s c h enc voter small b =
      let (appended, synced, result) = set_conf_state_parts s c h in
      let w : Wal = (append s.wal (conf_state_record c)).0 in
      let m' : DiskStorage = record (mirror s) { conf = c } in
      let b' : Backed proto bootstrap (sync w).0.synced [] m' = flush_wal w m' synced (
        push_wal s (conf_state_record c) m' appended small
          (replay_membership proto (mirror s) c enc voter) (refl, refl, refl) b) in
      rw result (rw (sync_ok w synced).1 (b', refl))

  sync_log_cases :
      (s : DiskStorage)
      → (sync_log s).1 ≡ true
      → (sync_log s).0 ≡ s
        ⊎ ((sync s.wal).1 ≡ true)
          × ((sync_log s).0 ≡ record s { wal = (sync s.wal).0; dirty = false })
  unfolding sync_log
  sync_log_cases s h = ground arith

  pub sync_log-IsBacked :
      (s : DiskStorage) → (sync_log s).1 ≡ true → IsBacked s → IsBacked (sync_log s).0
  sync_log-IsBacked s h b = elim (sync_log_cases s h) [
    | inl same ↦ rw same b
    | inr (synced, result) ↦
        rw result (rw (sync_ok s.wal synced).1 (flush_wal s.wal (mirror s) synced b))
  ]

  append_loop_parts :
      (e : Entry) (es : List Entry) (s : DiskStorage)
      → (append_loop proto (e ∷ es) s).1 ≡ true
      → ((append s.wal (encode_entry proto e)).1 ≡ true)
        × (append_loop proto (e ∷ es) s
            ≡ append_loop proto es
                (record s { wal = (append s.wal (encode_entry proto e)).0; log = s.log ++ e ∷ [] }))
  unfolding append_loop
  append_loop_parts e es s h = ground arith

  append_loop-IsBacked :
      (es : List Entry) (s : DiskStorage)
      → (append_loop proto es s).1 ≡ true
      → All (EntryFits proto) es
      → All (λ e. s.snap_index < e.index) es
      → IsBacked s
      → IsBacked (append_loop proto es s).0 × ((append_loop proto es s).0.log ≡ s.log ++ es)
  append_loop-IsBacked [] s h f above b = unfold append_loop in (b, sym (append-nil s.log))
  append_loop-IsBacked (e ∷ es) s h f above b =
      let (appended, result) = append_loop_parts e es s h in
      let s1 : DiskStorage = record s {
        wal = (append s.wal (encode_entry proto e)).0;
        log = s.log ++ e ∷ [];
      } in
      let b1 : IsBacked s1 =
        push_wal s (encode_entry proto e) (mirror s1) appended f.0.record_fits
          (replay_entry proto (mirror s) e f.0 above.0) (refl, refl, refl) b in
      let (b', log') = append_loop-IsBacked es s1 (rw result at h) f.1 above.1 b1 in
      rw result (b', log' ∙ append_assoc s.log (e ∷ []) es)

  drop_suffix_cases :
      (s : DiskStorage) (first : ℕ)
      → (drop_suffix s first).1 ≡ true
      → ((drop_suffix s first).0 ≡ s)
        ⊎ (((append s.wal (truncate_record first)).1 ≡ true)
            × ((drop_suffix s first).0 ≡ record s {
              wal = (append s.wal (truncate_record first)).0;
              log = truncate first s.log;
            }))
  unfolding drop_suffix
  drop_suffix_cases s first h = ground arith

  drop_suffix-IsBacked :
      (s : DiskStorage) (first : ℕ)
      → (drop_suffix s first).1 ≡ true
      → first < 2 ^ 64
      → IsBacked s
      → IsBacked (drop_suffix s first).0
  drop_suffix-IsBacked s first h small b = elim (drop_suffix_cases s first h) [
    | inl same ↦ rw same b
    | inr (appended, result) ↦ rw result (
        push_wal s (truncate_record first) (record (mirror s) { log = truncate first s.log })
          appended (truncate-Fits first) (replay_cut proto (mirror s) first small)
          (refl, refl, refl) b)
  ]

  append_entries_parts :
      (s : DiskStorage) (e : Entry) (es : List Entry)
      → (append_entries proto s (e ∷ es)).1 ≡ true
      → ((drop_suffix s e.index).1 ≡ true)
        × (append_entries proto s (e ∷ es) ≡ append_loop proto (e ∷ es) (drop_suffix s e.index).0)
  unfolding append_entries
  append_entries_parts s e es h = ground arith

  snap_index-drop_suffix :
      (s : DiskStorage) (first : ℕ) → (drop_suffix s first).0.snap_index ≡ s.snap_index
  unfolding drop_suffix
  snap_index-drop_suffix s first = ground arith

  pub append_entries-IsBacked :
      (s : DiskStorage) (es : List Entry)
      → (append_entries proto s es).1 ≡ true
      → All (EntryFits proto) es
      → All (λ e. s.snap_index < e.index) es
      → IsBacked s
      → IsBacked (append_entries proto s es).0
  append_entries-IsBacked s [] h f above b = unfold append_entries in b
  append_entries-IsBacked s (e ∷ es) h f above b =
      let (dropped, result) = append_entries_parts s e es h in
      rw result
        (append_loop-IsBacked (e ∷ es) (drop_suffix s e.index).0 (rw result at h) f
          (subst (λ (i : ℕ). All (λ (x : Entry). i < x.index) (e ∷ es))
            (sym (snap_index-drop_suffix s e.index)) above)
          (drop_suffix-IsBacked s e.index dropped f.0.index_word b)).0
