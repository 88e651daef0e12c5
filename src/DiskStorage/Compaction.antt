-- ===== src/DiskStorage/Compaction.antt =====
-- saveSnapshot and atomicWrite of raft/storage.go: a snapshot replaces the first part of the log.
use distkv.Prelude.{
  ℕ, zero, suc, Bool, true, false, Option, none, some, List, [], ◌∷◌, ◌++◌, not, ltb, leb,
  if◌then◌else◌,
}
use distkv.Codec.{Bytes, put_u64}
use distkv.Wal.{Wal, open_wal, append, close}
use distkv.ConfState.{ConfState}
use distkv.ConfState.Encoding.{encode_conf_state}
use distkv.DiskStorage.{
  DiskStorage, Entry, EntryProto, encode_entry, hard_state_record, conf_state_record,
}

-- atomicWrite: a temporary file, synced and then renamed, so that the new contents are there as
-- a whole or not at all. It is one call of the device; the result is what the device has left.
unfoldable pub atomic_write : ℕ → Option ℕ
atomic_write zero = none
atomic_write (suc io) = some io

-- The same disk after `io` calls are left.
abbrev with_io : DiskStorage → ℕ → DiskStorage
with_io s io = record s { wal = record (s.wal) { io = io } }

unfoldable pub save_bin : DiskStorage → Bytes → DiskStorage × Bool
unfolding atomic_write
save_bin s bytes = elim (atomic_write s.wal.io) [
  | none ↦ (s, false)
  | some io ↦ (record (with_io s io) { bin_file = some bytes }, true)
]

unfoldable pub save_meta : DiskStorage → ℕ → ℕ → DiskStorage × Bool
unfolding atomic_write
save_meta s index term = elim (atomic_write s.wal.io) [
  | none ↦ (s, false)
  | some io ↦ (record (with_io s io) { meta_file = some (put_u64 index ++ put_u64 term) }, true)
]

unfoldable pub save_conf : DiskStorage → ConfState → DiskStorage × Bool
unfolding atomic_write
save_conf s conf = elim (atomic_write s.wal.io) [
  | none ↦ (s, false)
  | some io ↦ (record (with_io s io) { conf_file = some (encode_conf_state conf) }, true)
]

-- The entries above the snapshot.
unfoldable pub keep_above : ℕ → List Entry → List Entry
keep_above index [] = []
keep_above index (e ∷ es) =
    let kept = keep_above index es in if ltb index e.index then e ∷ kept else kept

unfoldable pub append_all : List Bytes → Wal → Wal × Bool
append_all [] w = (w, true)
append_all (p ∷ ps) w =
    let (w', written) = append w p in
    let rest = append_all ps w' in if written then rest else (w', false)

unfoldable pub encode_entries : EntryProto → List Entry → List Bytes
encode_entries proto [] = []
encode_entries proto (e ∷ es) = encode_entry proto e ∷ encode_entries proto es

-- The records of the new log: the hard state, the membership and the kept entries.
unfoldable pub compacted : EntryProto → DiskStorage → ConfState → List Bytes
unfolding encode_entries
compacted proto s conf =
    hard_state_record s.term s.voted_for ∷ conf_state_record conf ∷ encode_entries proto s.log

-- The rename of the new log over the old one, and its opening.
unfoldable pub install_log : DiskStorage → Bytes → DiskStorage × Bool
unfolding atomic_write
install_log s file = elim (atomic_write s.wal.io) [
  | none ↦ (s, false)
  | some io ↦ (record s { wal = open_wal file io; dirty = false }, true)
]

-- From the creation of raft.wal.tmp on.
unfoldable pub rewrite_log : EntryProto → DiskStorage → ConfState → DiskStorage × Bool
unfolding compacted append_all install_log
rewrite_log proto s conf =
    let (nw, written) = append_all (compacted proto s conf) (open_wal [] s.wal.io) in
    let (nw', closed) = close nw in
    let (old, old_closed) = close (record (s.wal) { io = nw'.io }) in
    if not written
    then (with_io s nw.io, false)
    else if not closed
    then (with_io s nw'.io, false)
    else if not old_closed
    then (record s { wal = old }, false)
    else install_log (record s { wal = old }) nw'.synced

-- The changes in memory, between the files and the log.
unfoldable pub compact : DiskStorage → ℕ → ℕ → Bytes → ConfState → DiskStorage
unfolding keep_above
compact s index term bytes conf = record s {
  log = keep_above index s.log;
  snap_index = index;
  snap_term = term;
  snapshot = bytes;
  conf = conf;
}

unfoldable pub save_snapshot :
    EntryProto → DiskStorage → ℕ → ℕ → Bytes → ConfState → DiskStorage × Bool
unfolding save_bin save_meta save_conf compact rewrite_log
save_snapshot proto s index term bytes conf =
    if leb index s.snap_index
    then (s, true)
    else (let (s1, bin) = save_bin s bytes in
        let (s2, meta) = save_meta s1 index term in
        let (s3, membership) = save_conf s2 conf in
        if not bin
        then (s1, false)
        else if not meta
        then (s2, false)
        else if not membership
        then (s3, false)
        else rewrite_log proto (compact s3 index term bytes conf) conf)
