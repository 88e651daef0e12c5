-- ===== src/Node/HardState/LogSteps.antt =====
-- The handlers of raft/node.go that append entries or hear of them, and the hard state.
use distkv.Prelude.{ℕ, ◌+◌, List, [], ◌∷◌, arith, u64, length}
use distkv.DiskStorage.{DiskStorage, Entry, EntryProto, append_entries, no_entry, last_index}
use distkv.Node.{
  Node, Env, VoteResponse, AppendRequest, AppendResponse, SnapshotRequest, step_down,
  reset_election_timer,
}
use distkv.Node.Election.{become_leader, append_noop, lead, on_vote_response}
use distkv.Node.Replication.{
  handle_append_entries, accept_entries, take_entries, follow_commit, advance_commit,
  on_append_response, on_snapshot_response, raise_progress, lower_progress, new_entries,
}
use distkv.Node.HardState.{
  Later, SameHard, step_down-Later, sync_log-SameHard, append_entries-SameHard,
  broadcast_append-SameHard, timer-store,
}

module _ (proto : EntryProto) where
  pub append_noop-SameHard : (n : Node) → SameHard n.store (append_noop proto n).store
  unfolding append_noop
  append_noop-SameHard n =
      let noop : Entry = record no_entry {
        term = n.store.term;
        index = u64 (last_index n.store + 1);
      } in
      ground (arith, append_entries-SameHard proto n.store (noop ∷ []))

  pub become_leader-SameHard :
      (env : Env) (n : Node) → SameHard n.store (become_leader proto env n).0.store
  unfolding become_leader
  become_leader-SameHard env n = ground (
    arith,
    broadcast_append-SameHard env (append_noop proto (lead n)),
    append_noop-SameHard (lead n),
  )

  pub on_vote_response-Later :
      (env : Env) (new_term : ℕ) (resp : VoteResponse) (votes : ℕ) (n : Node)
      → Later n.store (on_vote_response proto env new_term resp votes n).0.store
  unfolding on_vote_response
  on_vote_response-Later env new_term resp votes n =
      ground (arith, step_down-Later env resp.term n, become_leader-SameHard env n)

  pub take_entries-SameHard :
      (s : DiskStorage) (es : List Entry) → SameHard s (take_entries proto s es).0
  unfolding take_entries
  take_entries-SameHard s [] = ground arith
  take_entries-SameHard s (e ∷ es) = ground (
    arith,
    append_entries-SameHard proto s (e ∷ es),
    sync_log-SameHard (append_entries proto s (e ∷ es)).0,
  )

  pub accept_entries-SameHard :
      (req : AppendRequest) (n : Node) → SameHard n.store (accept_entries proto req n).0.store
  unfolding accept_entries follow_commit
  accept_entries-SameHard req n =
      ground (arith, take_entries-SameHard n.store (new_entries n.store req.entries))

  pub handle_append_entries-Later :
      (env : Env) (req : AppendRequest) (n : Node)
      → Later n.store (handle_append_entries proto env req n).0.store
  unfolding handle_append_entries
  handle_append_entries-Later env req n =
      let same : Node = reset_election_timer env (record n { leader_id = req.leader_id }) in
      let down : Node = step_down env req.term n in
      let stepped : Node = reset_election_timer env (record down { leader_id = req.leader_id }) in
      ground (
        arith,
        step_down-Later env req.term n,
        accept_entries-SameHard req same,
        accept_entries-SameHard req stepped,
        timer-store env (record n { leader_id = req.leader_id }),
        timer-store env (record down { leader_id = req.leader_id }),
      )

pub advance_commit-SameHard : (n : Node) → SameHard n.store (advance_commit n).store
unfolding advance_commit
advance_commit-SameHard n = ground (arith, sync_log-SameHard n.store)

pub on_append_response-Later :
    (env : Env) (peer : ℕ) (req : AppendRequest) (resp : AppendResponse) (n : Node)
    → Later n.store (on_append_response env peer req resp n).store
unfolding on_append_response raise_progress lower_progress
on_append_response-Later env peer req resp n = ground (
  arith,
  step_down-Later env resp.term n,
  advance_commit-SameHard (raise_progress peer (u64 (req.prev_log_index + length req.entries)) n),
)

pub on_snapshot_response-Later :
    (env : Env) (peer : ℕ) (req : SnapshotRequest) (t : ℕ) (n : Node)
    → Later n.store (on_snapshot_response env peer req t n).store
unfolding on_snapshot_response raise_progress
on_snapshot_response-Later env peer req t n = ground (arith, step_down-Later env t n)
