-- ===== src/Node/HardState.antt =====
-- The hard state (term and vote) through the handlers of raft/node.go: the term never falls, and
-- a vote that was cast is not changed within its term. This file: votes, elections, sending.
pub mod LogSteps
pub mod SnapshotSteps
pub mod ApplySteps
use distkv.Prelude.{
  ℕ, zero, suc, ◌+◌, ◌^◌, ◌≤◌, ◌<◌, ◌≡◌, ◌≢◌, ◌∙◌, refl, sym, ap, Bool, true, false, Option, none,
  some, List, [], ◌∷◌, arith, ◌⊎◌, inl, inr, Bool-cases, Option-cases, ltb, leb, u64, length,
}
use distkv.Codec.{Bytes}
use distkv.ConfState.{ConfState, all_peer_ids}
use distkv.ConfState.Change.{ConfChange, ConfResult, apply_conf_change}
use distkv.DiskStorage.{
  DiskStorage, Entry, EntryProto, set_hard_state, set_conf_state, append_entries, sync_log,
  no_entry, last_index,
}
use distkv.DiskStorage.Appending.{Kept, append_entries-Kept}
use distkv.DiskStorage.Compaction.{
  save_snapshot, save_bin, save_meta, save_conf, compact, rewrite_log, install_log,
}
use distkv.Node.{
  Node, Env, VoteRequest, VoteResponse, AppendRequest, AppendResponse, SnapshotRequest, Message,
  step_down, reset_election_timer, broadcast_append, send_all, send_append_locked,
  send_snapshot_locked, send_entries_locked,
}
use distkv.Node.Election.{
  start_election, stand, become_leader, append_noop, lead, on_vote_response, handle_request_vote,
  grant_vote,
}
use distkv.Node.Replication.{
  handle_append_entries, accept_entries, take_entries, follow_commit, advance_commit,
  on_append_response, on_snapshot_response, raise_progress, lower_progress, landed, new_entries,
}

-- A later hard state: the term is no lower, and within one term a vote that was cast is kept.
pub record Later (s s' : DiskStorage) : Type 0 where
  pub term_le : s.term ≤ s'.term
  pub vote_kept : s'.term ≡ s.term → (s.voted_for ≡ 0) ⊎ (s'.voted_for ≡ s.voted_for)

pub Later-refl : (s : DiskStorage) → Later s s
Later-refl s = ground arith

pub Later-trans : {s t u : DiskStorage} → Later s t → Later t u → Later s u
Later-trans a b = ground arith

pub term-set_hard_state :
    (s : DiskStorage) (t v : ℕ)
    → ((set_hard_state s t v).0.term ≡ t) × ((set_hard_state s t v).0.voted_for ≡ v)
unfolding set_hard_state
term-set_hard_state s t v = ground arith

pub sync_log-hard :
    (s : DiskStorage) → ((sync_log s).0.term ≡ s.term) × ((sync_log s).0.voted_for ≡ s.voted_for)
unfolding sync_log
sync_log-hard s = ground arith

pub step_down-Later : (env : Env) (t : ℕ) (n : Node) → Later n.store (step_down env t n).store
unfolding step_down reset_election_timer
step_down-Later env t n = ground (arith, term-set_hard_state n.store t 0)

pub grant_vote-Later :
    (env : Env) (req : VoteRequest) (n : Node) → Later n.store (grant_vote env req n).0.store
unfolding grant_vote reset_election_timer
grant_vote-Later env req n =
    ground (arith, term-set_hard_state n.store n.store.term req.candidate_id)

pub handle_request_vote-Later :
    (env : Env) (req : VoteRequest) (n : Node)
    → Later n.store (handle_request_vote env req n).0.store
unfolding handle_request_vote
handle_request_vote-Later env req n = ground (
  arith,
  step_down-Later env req.term n,
  grant_vote-Later env req n,
  grant_vote-Later env req (step_down env req.term n),
)

pub start_election-Later :
    (env : Env) (n : Node)
    → n.store.term + 1 < 2 ^ 64
    → Later n.store (start_election env n).0.store
unfolding start_election reset_election_timer
start_election-Later env n h =
    ground (arith, term-set_hard_state n.store (n.store.term + 1) n.cfg.id)

pub send_append_locked-store :
    (env : Env) (n : Node) (p : ℕ) → (send_append_locked env n p).0.store ≡ n.store
unfolding send_append_locked
send_append_locked-store env n p = ground arith

pub send_all-store : (env : Env) (ps : List ℕ) (n : Node) → (send_all env ps n).0.store ≡ n.store
unfolding send_all
send_all-store env [] n = refl
send_all-store env (p ∷ ps) n = ground (
  arith,
  send_all-store env ps n,
  send_all-store env ps (send_append_locked env n p).0,
  send_append_locked-store env n p,
)

-- Two storages with one hard state.
pub record SameHard (s s' : DiskStorage) : Type 0 where
  pub same_term : s'.term ≡ s.term
  pub same_vote : s'.voted_for ≡ s.voted_for

pub sync_log-SameHard : (s : DiskStorage) → SameHard s (sync_log s).0
unfolding sync_log
sync_log-SameHard s = ground arith

pub append_entries-SameHard :
    (proto : EntryProto) (s : DiskStorage) (es : List Entry)
    → SameHard s (append_entries proto s es).0
append_entries-SameHard proto s es =
    let k : Kept s (append_entries proto s es).0 = append_entries-Kept proto s es in
    record { same_term = k.term; same_vote = k.voted_for }

pub timer-store : (env : Env) (n : Node) → (reset_election_timer env n).store ≡ n.store
unfolding reset_election_timer
timer-store env n = refl

pub broadcast_append-SameHard :
    (env : Env) (n : Node) → SameHard n.store (broadcast_append env n).0.store
unfolding broadcast_append
broadcast_append-SameHard env n =
    let n1 : Node = record n { store = (sync_log n.store).0 } in
    ground (arith, sync_log-SameHard n.store, send_all-store env (all_peer_ids n.conf) n1)

-- Stepping down to a higher term leaves that term with no vote.
pub step_down-term :
    (env : Env) (t : ℕ) (n : Node)
    → n.store.term < t
    → ((step_down env t n).store.term ≡ t) × ((step_down env t n).store.voted_for ≡ 0)
unfolding step_down reset_election_timer
step_down-term env t n h = ground (arith, term-set_hard_state n.store t 0)
