-- ===== src/DiskStorage/Restart.antt =====
-- openDiskStorage of raft/storage.go: what a node reads back from its disk.
use distkv.Prelude.{
  ℕ, false, Option, none, some, List, [], ◌∷◌, ◌++◌, ltb, ◌==◌, if◌then◌else◌, length, drop,
}
use distkv.Codec.{Bytes, get_u64}
use distkv.Wal.{open_wal, Outcome, done, failed, panic, ◌>>=◌, replay_wal, crash}
use distkv.ConfState.{ConfState, new_conf_state}
use distkv.ConfState.Change.{ConfResult}
use distkv.ConfState.Encoding.{decode_conf_state}
use distkv.DiskStorage.{DiskStorage, Entry, EntryProto, decode_entry, truncate}

-- The files of a node's directory.
pub record Files : Type 0 where
  pub raft_wal : Bytes
  pub snapshot_bin : Option Bytes
  pub snapshot_meta : Option Bytes
  pub snapshot_conf : Option Bytes

-- The storage before anything is read. Its `wal` is opened at the end.
unfoldable pub fresh : Files → List ℕ → DiskStorage
fresh files bootstrap = record {
  wal = open_wal [] 0;
  term = 0;
  voted_for = 0;
  dirty = false;
  conf = new_conf_state bootstrap;
  log = [];
  snap_index = 0;
  snap_term = 0;
  snapshot = [];
  bin_file = files.snapshot_bin;
  meta_file = files.snapshot_meta;
  conf_file = files.snapshot_conf;
}

-- A membership that decodes and has a voter replaces the present one.
unfoldable pub adopt_conf : ConfResult → ConfState → ConfState
adopt_conf (ConfResult.ok cs) conf = if ltb 0 (length cs.voters) then cs else conf
adopt_conf (ConfResult.err e) conf = conf
adopt_conf ConfResult.panic conf = conf

unfoldable pub snapshot_membership : Option Bytes → ConfState → ConfState
unfolding adopt_conf
snapshot_membership none conf = conf
snapshot_membership (some bytes) conf = adopt_conf (decode_conf_state bytes) conf

unfoldable pub load_snapshot : Files → DiskStorage → Outcome DiskStorage
unfolding snapshot_membership
load_snapshot files s = elim files.snapshot_meta [
  | none ↦ done s
  | some meta ↦ if ltb (length meta) 16 then done s else elim (get_u64 meta) [
    | none ↦ panic
    | some snap_index ↦ elim (get_u64 (drop 8 meta)) [
      | none ↦ panic
      | some snap_term ↦ elim files.snapshot_bin [
        | none ↦ failed
        | some bin ↦ done (record s {
          snap_index = snap_index;
          snap_term = snap_term;
          snapshot = bin;
          conf = snapshot_membership files.snapshot_conf s.conf;
        })
      ]
    ]
  ]
]

unfoldable pub replay_conf : ConfResult → DiskStorage → Outcome DiskStorage
unfolding adopt_conf
replay_conf (ConfResult.ok cs) s = done (record s { conf = adopt_conf (ConfResult.ok cs) s.conf })
replay_conf (ConfResult.err e) s = failed
replay_conf ConfResult.panic s = panic

unfoldable pub replay_append : Entry → DiskStorage → DiskStorage
replay_append e s = if ltb s.snap_index e.index then record s { log = s.log ++ e ∷ [] } else s

unfoldable pub replay_hard_state : Bytes → DiskStorage → Outcome DiskStorage
replay_hard_state body s = elim (get_u64 body) [
  | none ↦ panic
  | some term ↦ elim (get_u64 (drop 8 body)) [
    | none ↦ panic
    | some voted_for ↦ done (record s { term = term; voted_for = voted_for })
  ]
]

unfoldable pub replay_truncate : Bytes → DiskStorage → Outcome DiskStorage
replay_truncate body s = elim (get_u64 body) [
  | none ↦ panic
  | some from ↦ done (record s { log = truncate from s.log })
]

-- The callback of the replay, by the record's type byte.
unfoldable pub replay_record : EntryProto → DiskStorage → Bytes → Outcome DiskStorage
unfolding replay_conf replay_append replay_hard_state replay_truncate
replay_record proto s [] = failed
replay_record proto s (t ∷ body) =
    if t == 1
    then replay_hard_state body s
    else if t == 2
    then done (replay_append (decode_entry proto body) s)
    else if t == 3
    then replay_truncate body s
    else if t == 4
    then replay_conf (decode_conf_state body) s
    else failed

-- `io` is the number of calls that the device takes from here on.
unfoldable pub open_disk_storage : EntryProto → Files → List ℕ → ℕ → Outcome DiskStorage
unfolding fresh load_snapshot replay_record
open_disk_storage proto files bootstrap io = do
  s ← load_snapshot files (fresh files bootstrap)
  s' ← replay_wal (replay_record proto) files.raft_wal s
  done (record s' { wal = open_wal files.raft_wal io })

-- The directory that a crash leaves, where `kept` bytes of the unsynced log reached the disk.
unfoldable pub crash_files : DiskStorage → ℕ → Files
crash_files s kept = record {
  raft_wal = crash s.wal kept;
  snapshot_bin = s.bin_file;
  snapshot_meta = s.meta_file;
  snapshot_conf = s.conf_file;
}
