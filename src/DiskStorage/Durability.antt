-- ===== src/DiskStorage/Durability.antt =====
-- What setHardState, appendEntries and sync of raft/storage.go have synced is there after a crash.
use distkv.Prelude.{
  ℕ, zero, suc, ◌^◌, ◌<◌, ◌≡◌, ◌∙◌, refl, ap, true, false, List, [], ◌∷◌, ◌++◌, arith, take,
  append-nil, All,
}
use distkv.Wal.{open_wal, sync, done, crash}
use distkv.DiskStorage.{
  DiskStorage, Entry, EntryProto, truncate, set_hard_state, append_entries, sync_log,
}
use distkv.DiskStorage.Restart.{open_disk_storage, crash_files}
use distkv.DiskStorage.Appending.{Kept, append_entries-Kept, append_entries-log}
use distkv.DiskStorage.RecordReplay.{EntryFits}
use mathlib.Core.Path.{subst}
use distkv.DiskStorage.Backed.{mirror, files_of, Backed, reopen}
use distkv.DiskStorage.Keeping.{
  IsBacked, set_hard_state_parts, set_hard_state-IsBacked, append_entries-IsBacked,
  sync_log-IsBacked,
}

take_nil : (n : ℕ) → take {A = ℕ} n [] ≡ []
take_nil zero = refl
take_nil (suc n) = refl

module _ (proto : EntryProto) (bootstrap : List ℕ) where
  -- Opening the directory that a crash leaves when nothing was waiting for an fsync.
  reopen_synced :
      (s : DiskStorage) (kept io : ℕ)
      → s.wal.pending ≡ []
      → IsBacked proto bootstrap s
      → open_disk_storage proto (crash_files s kept) bootstrap io
        ≡ done (record s { wal = open_wal s.wal.synced io; dirty = false })
  unfolding crash_files crash
  reopen_synced s kept io none_waiting b =
      ap (λ f. open_disk_storage proto (files_of (mirror s) f) bootstrap io) file
      ∙ reopen proto bootstrap s.wal.synced (mirror s) io
          (subst (λ t. Backed proto bootstrap s.wal.synced t (mirror s)) none_waiting b)
    where
      file : s.wal.synced ++ take kept s.wal.pending ≡ s.wal.synced
      file = rw none_waiting (rw (take_nil kept) (append-nil s.wal.synced))

  -- A hard state of 64-bit numbers that setHardState has stored, in a storage whose log file
  -- replays to its memory, is there after any crash: the node that opens the directory has the
  -- term, the vote, and everything else that the node that crashed had in memory.
  pub set_hard_state_durable :
      (s : DiskStorage) (t v kept io : ℕ)
      → IsBacked proto bootstrap s
      → t < 2 ^ 64
      → v < 2 ^ 64
      → (set_hard_state s t v).1 ≡ true
      → open_disk_storage proto (crash_files (set_hard_state s t v).0 kept) bootstrap io
        ≡ done (record s {
          term = t;
          voted_for = v;
          wal = open_wal (set_hard_state s t v).0.wal.synced io;
          dirty = false;
        })
  set_hard_state_durable s t v kept io b ht hv h =
      let (b', waiting) = set_hard_state-IsBacked proto bootstrap s t v h ht hv b in
      let (appended, synced, result) = set_hard_state_parts proto bootstrap s t v h in
      reopen_synced (set_hard_state s t v).0 kept io waiting b'
      ∙ ap
          (λ (r : DiskStorage).
            done
              (record r { wal = open_wal (set_hard_state s t v).0.wal.synced io; dirty = false }))
          result

  synced_after :
      (s : DiskStorage) → (sync_log s).1 ≡ true → s.dirty ≡ true → (sync_log s).0.wal.pending ≡ []
  unfolding sync_log sync
  synced_after s h d = ground arith

  sync_log-memory : (s : DiskStorage) → (mirror (sync_log s).0) ≡ mirror s
  unfolding sync_log
  sync_log-memory s = ground arith

  -- Entries above the snapshot that appendEntries has taken and sync has made durable, in a storage
  -- whose log file replays to its memory, are there after any crash: the node that opens the
  -- directory has the log cut at the first of them and followed by them, and the term, the vote and
  -- the membership that it had. The entries have 64-bit words and records shorter than 2^32 bytes.
  pub append_entries_durable :
      (s : DiskStorage) (e : Entry) (es : List Entry) (kept io : ℕ)
      → IsBacked proto bootstrap s
      → All (EntryFits proto) (e ∷ es)
      → All (λ (x : Entry). s.snap_index < x.index) (e ∷ es)
      → (append_entries proto s (e ∷ es)).1 ≡ true
      → (sync_log (append_entries proto s (e ∷ es)).0).1 ≡ true
      → (r : DiskStorage) × (open_disk_storage proto
            (crash_files (sync_log (append_entries proto s (e ∷ es)).0).0 kept)
            bootstrap
            io
          ≡ done r)
        × (r.log ≡ truncate e.index s.log ++ e ∷ es)
        × (r.term ≡ s.term)
        × (r.voted_for ≡ s.voted_for)
        × (r.conf ≡ s.conf)
  append_entries_durable s e es kept io b f above h hs =
      let s1 : DiskStorage = (append_entries proto s (e ∷ es)).0 in
      let s2 : DiskStorage = (sync_log s1).0 in
      let b1 : IsBacked proto bootstrap s1 =
        append_entries-IsBacked proto bootstrap s (e ∷ es) h f above b in
      let (log1, dirty1) = append_entries-log proto s e es h in
      let k : Kept s s1 = append_entries-Kept proto s (e ∷ es) in
      let m : mirror s2 ≡ mirror s1 = sync_log-memory s1 in
      (
        record s2 { wal = open_wal s2.wal.synced io; dirty = false },
        reopen_synced s2 kept io (synced_after s1 hs dirty1)
            (sync_log-IsBacked proto bootstrap s1 hs b1),
        ap (λ (d : DiskStorage). d.log) m ∙ log1,
        ap (λ (d : DiskStorage). d.term) m ∙ k.term,
        ap (λ (d : DiskStorage). d.voted_for) m ∙ k.voted_for,
        ap (λ (d : DiskStorage). d.conf) m ∙ k.conf,
      )
