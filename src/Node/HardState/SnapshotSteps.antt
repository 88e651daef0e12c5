-- ===== src/Node/HardState/SnapshotSteps.antt =====
-- The snapshot, proposal and read handlers of raft/node.go, and the hard state.
use distkv.Prelude.{ℕ, ◌+◌, some, [], ◌∷◌, arith, inl, inr, Option-cases, u64}
use distkv.Codec.{Bytes}
use distkv.ConfState.{ConfState}
use distkv.ConfState.Change.{ConfChange}
use distkv.DiskStorage.{
  DiskStorage, Entry, EntryProto, set_conf_state, no_entry, last_index, entry_conf_change, term_at,
}
use distkv.DiskStorage.Compaction.{
  save_snapshot, save_bin, save_meta, save_conf, compact, rewrite_log, install_log,
}
use distkv.Node.{Node, Env, SnapshotRequest, step_down, reset_election_timer}
use distkv.Node.Membership.{propose, propose_conf_change}
use distkv.Node.Snapshots.{
  PendingRead, ReadResponse, sent_membership, install_snapshot, handle_install_snapshot, snapshot,
  on_read_response, handle_read_index,
}
use distkv.Node.HardState.{Later, SameHard, step_down-Later, append_entries-SameHard, timer-store}

-- The snapshot files and the new log leave the hard state.
pub save_bin-SameHard : (s : DiskStorage) (b : Bytes) → SameHard s (save_bin s b).0
unfolding save_bin
save_bin-SameHard s b = ground arith

pub save_meta-SameHard : (s : DiskStorage) (i t : ℕ) → SameHard s (save_meta s i t).0
unfolding save_meta
save_meta-SameHard s i t = ground arith

pub save_conf-SameHard : (s : DiskStorage) (c : ConfState) → SameHard s (save_conf s c).0
unfolding save_conf
save_conf-SameHard s c = ground arith

pub install_log-SameHard : (s : DiskStorage) (file : Bytes) → SameHard s (install_log s file).0
unfolding install_log
install_log-SameHard s file = ground arith

compact-SameHard :
    (s : DiskStorage) (i t : ℕ) (b : Bytes) (c : ConfState) → SameHard s (compact s i t b c)
unfolding compact
compact-SameHard s i t b c = ground arith

pub set_conf_state-SameHard : (s : DiskStorage) (c : ConfState) → SameHard s (set_conf_state s c).0
unfolding set_conf_state
set_conf_state-SameHard s c = ground arith

module _ (proto : EntryProto) where
  rewrite_log-SameHard : (s : DiskStorage) (c : ConfState) → SameHard s (rewrite_log proto s c).0
  unfolding rewrite_log install_log
  rewrite_log-SameHard s c = ground arith

  save_snapshot-SameHard :
      (s : DiskStorage) (i t : ℕ) (b : Bytes) (c : ConfState)
      → SameHard s (save_snapshot proto s i t b c).0
  unfolding save_snapshot
  save_snapshot-SameHard s i t b c =
      let s1 : DiskStorage = (save_bin s b).0 in
      let s2 : DiskStorage = (save_meta s1 i t).0 in
      let s3 : DiskStorage = (save_conf s2 c).0 in
      ground (
        arith,
        save_bin-SameHard s b,
        save_meta-SameHard s1 i t,
        save_conf-SameHard s2 c,
        rewrite_log-SameHard (compact s3 i t b c) c,
        compact-SameHard s3 i t b c,
      )

  install_snapshot-SameHard :
      (req : SnapshotRequest) (n : Node)
      → SameHard n.store (install_snapshot proto req n).node.store
  unfolding install_snapshot
  install_snapshot-SameHard req n = ground (
    arith,
    save_snapshot-SameHard n.store req.last_included_index req.last_included_term req.content
        (sent_membership req.conf_state n.conf),
  )

  pub handle_install_snapshot-Later :
      (env : Env) (req : SnapshotRequest) (n : Node)
      → Later n.store (handle_install_snapshot proto env req n).node.store
  unfolding handle_install_snapshot
  handle_install_snapshot-Later env req n =
      let same : Node = reset_election_timer env (record n { leader_id = req.leader_id }) in
      let down : Node = step_down env req.term n in
      let stepped : Node = reset_election_timer env (record down { leader_id = req.leader_id }) in
      ground (
        arith,
        step_down-Later env req.term n,
        install_snapshot-SameHard req same,
        install_snapshot-SameHard req stepped,
        timer-store env (record n { leader_id = req.leader_id }),
        timer-store env (record down { leader_id = req.leader_id }),
      )

  pub snapshot-Later : (i : ℕ) (b : Bytes) (n : Node) → Later n.store (snapshot proto i b n).0.store
  unfolding snapshot
  snapshot-Later i b n = elim (Option-cases (term_at n.store i)) [
    | inl missing ↦ ground arith
    | inr (t, found) ↦ ground (arith, save_snapshot-SameHard n.store i t b n.conf)
  ]

  pub propose-Later : (command : Bytes) (n : Node) → Later n.store (propose proto command n).0.store
  unfolding propose
  propose-Later command n =
      let e : Entry = record no_entry {
        term = n.store.term;
        index = u64 (last_index n.store + 1);
        content = command;
      } in
      ground (arith, append_entries-SameHard proto n.store (e ∷ []))

  pub propose_conf_change-Later :
      (cc : ConfChange) (n : Node) → Later n.store (propose_conf_change proto cc n).0.store
  unfolding propose_conf_change
  propose_conf_change-Later cc n =
      let e : Entry = record {
        term = n.store.term;
        index = u64 (last_index n.store + 1);
        content = [];
        kind = entry_conf_change;
        conf_change = some cc;
      } in
      ground (arith, append_entries-SameHard proto n.store (e ∷ []))

pub on_read_response-Later :
    (env : Env) (resp : ReadResponse) (r : PendingRead) (n : Node)
    → Later n.store (on_read_response env resp r n).0.store
unfolding on_read_response
on_read_response-Later env resp r n = ground (arith, step_down-Later env resp.term n)

pub handle_read_index-Later :
    (env : Env) (term leader_id : ℕ) (n : Node)
    → Later n.store (handle_read_index env term leader_id n).0.store
unfolding handle_read_index reset_election_timer
handle_read_index-Later env term leader_id n = ground (arith, step_down-Later env term n)
