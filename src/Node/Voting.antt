-- ===== src/Node/Voting.antt =====
-- Votes in raft/node.go over any sequence of steps of one node: each handler, with the answers to
-- its requests, in any order.
use distkv.Prelude.{ℕ, ◌+◌, ◌-◌, ◌^◌, ◌<◌, ◌≡◌, ◌≢◌, true, some, List, arith}
use distkv.Codec.{Bytes}
use distkv.ConfState.Change.{ConfChange}
use distkv.DiskStorage.{EntryProto}
use distkv.Node.{
  Node, Env, VoteRequest, VoteResponse, AppendRequest, AppendResponse, SnapshotRequest, step_down,
  broadcast_append, reset_election_timer,
}
use distkv.Node.Election.{start_election, on_vote_response, handle_request_vote, grant_vote}
use distkv.Node.Replication.{
  handle_append_entries, on_append_response, on_snapshot_response, landed,
}
use distkv.Node.Membership.{propose, propose_conf_change, applier_turn, ApplyMsg}
use distkv.Node.Snapshots.{
  PendingRead, ReadResponse, handle_install_snapshot, snapshot, on_read_response, handle_read_index,
}
use distkv.Node.HardState.{
  Later, Later-refl, Later-trans, handle_request_vote-Later, start_election-Later,
  broadcast_append-SameHard, term-set_hard_state, step_down-term,
}
use distkv.Node.HardState.LogSteps.{
  on_vote_response-Later, handle_append_entries-Later, on_append_response-Later,
  on_snapshot_response-Later,
}
use distkv.Node.HardState.SnapshotSteps.{
  handle_install_snapshot-Later, snapshot-Later, propose-Later, propose_conf_change-Later,
  on_read_response-Later, handle_read_index-Later,
}
use distkv.Node.HardState.ApplySteps.{apply_loop-SameHard}

pub grant_vote_lem :
    (env : Env) (req : VoteRequest) (n : Node)
    → (grant_vote env req n).1.vote_granted ≡ true
    → ((grant_vote env req n).0.store.term ≡ n.store.term)
      × ((grant_vote env req n).0.store.voted_for ≡ req.candidate_id)
unfolding grant_vote reset_election_timer
grant_vote_lem env req n h =
    ground (arith, term-set_hard_state n.store n.store.term req.candidate_id)

-- What a granted vote leaves: the answer's term and the candidate are the node's hard state.
pub granted_vote :
    (env : Env) (req : VoteRequest) (n : Node)
    → (handle_request_vote env req n).1.vote_granted ≡ true
    → ((handle_request_vote env req n).0.store.term ≡ req.term)
      × ((handle_request_vote env req n).0.store.voted_for ≡ req.candidate_id)
unfolding handle_request_vote
granted_vote env req n h = ground (
  arith,
  step_down-term env req.term n,
  grant_vote_lem env req n,
  grant_vote_lem env req (step_down env req.term n),
)

-- One step of a node: a handler, or what follows an answer. An election is a step only below the
-- last 64-bit term.
module _ (proto : EntryProto) where
  pub data Step (n n' : Node) : Type 0 where
    request_vote :
        (env : Env) (req : VoteRequest) → n' ≡ (handle_request_vote env req n).0 → Step n n'
    timeout : (env : Env) → n.store.term + 1 < 2 ^ 64 → n' ≡ (start_election env n).0 → Step n n'
    vote_answer :
        (env : Env) (t votes : ℕ) (resp : VoteResponse)
        → n' ≡ (on_vote_response proto env t resp votes n).0
        → Step n n'
    append_request :
        (env : Env) (req : AppendRequest)
        → n' ≡ (handle_append_entries proto env req n).0
        → Step n n'
    append_answer :
        (env : Env) (peer : ℕ) (req : AppendRequest) (resp : AppendResponse)
        → n' ≡ on_append_response env peer req resp n
        → Step n n'
    snapshot_request :
        (env : Env) (req : SnapshotRequest)
        → n' ≡ (handle_install_snapshot proto env req n).node
        → Step n n'
    snapshot_answer :
        (env : Env) (peer t : ℕ) (req : SnapshotRequest)
        → n' ≡ on_snapshot_response env peer req t n
        → Step n n'
    flight_over : (peer : ℕ) → n' ≡ landed peer n → Step n n'
    tick : (env : Env) → n' ≡ (broadcast_append env n).0 → Step n n'
    proposal : (command : Bytes) → n' ≡ (propose proto command n).0 → Step n n'
    conf_proposal : (cc : ConfChange) → n' ≡ (propose_conf_change proto cc n).0 → Step n n'
    own_snapshot : (i : ℕ) (b : Bytes) → n' ≡ (snapshot proto i b n).0 → Step n n'
    read_answer :
        (env : Env) (resp : ReadResponse) (r : PendingRead)
        → n' ≡ (on_read_response env resp r n).0
        → Step n n'
    read_request :
        (env : Env) (term leader_id : ℕ)
        → n' ≡ (handle_read_index env term leader_id n).0
        → Step n n'
    apply_turn : (msgs : List ApplyMsg) → applier_turn n ≡ some (n', msgs) → Step n n'

  pub data Reach (n : Node) : Node → Type 0 where
    here : Reach n n
    next : {m k : Node} → Reach n m → Step m k → Reach n k

  Step-Later : (n n' : Node) → Step n n' → Later n.store n'.store
  Step-Later n n' (request_vote env req e) = rw e (handle_request_vote-Later env req n)
  Step-Later n n' (timeout env h e) = rw e (start_election-Later env n h)
  Step-Later n n' (vote_answer env t votes resp e) =
      rw e (on_vote_response-Later proto env t resp votes n)
  Step-Later n n' (append_request env req e) = rw e (handle_append_entries-Later proto env req n)
  Step-Later n n' (append_answer env p req resp e) =
      rw e (on_append_response-Later env p req resp n)
  Step-Later n n' (snapshot_request env req e) =
      rw e (handle_install_snapshot-Later proto env req n)
  Step-Later n n' (snapshot_answer env p t req e) = rw e (on_snapshot_response-Later env p req t n)
  Step-Later n n' (flight_over p e) = rw e (unfold landed in Later-refl n.store)
  Step-Later n n' (tick env e) = rw e (ground (arith, broadcast_append-SameHard env n))
  Step-Later n n' (proposal c e) = rw e (propose-Later proto c n)
  Step-Later n n' (conf_proposal cc e) = rw e (propose_conf_change-Later proto cc n)
  Step-Later n n' (own_snapshot i b e) = rw e (snapshot-Later proto i b n)
  Step-Later n n' (read_answer env resp r e) = rw e (on_read_response-Later env resp r n)
  Step-Later n n' (read_request env t l e) = rw e (handle_read_index-Later env t l n)
  Step-Later n n' (apply_turn msgs e) = ground (
    arith,
    apply_loop-SameHard (n.commit_index - n.last_applied) n n' msgs (unfold applier_turn in e),
  )

  -- Over any steps of a node its term never falls, and within one term its vote, once cast, stays.
  pub Reach-Later : {n n' : Node} → Reach n n' → Later n.store n'.store
  Reach-Later {n} here = Later-refl n.store
  Reach-Later (next {m} {k} r st) = Later-trans (Reach-Later r) (Step-Later m k st)

  -- A node votes for one candidate in a term: two requests of the same term that it grants, with
  -- any steps of the node between them, name the same candidate (0 is no candidate's id).
  pub one_vote_per_term :
      (env env' : Env) (req req' : VoteRequest) (n m : Node)
      → (handle_request_vote env req n).1.vote_granted ≡ true
      → Reach (handle_request_vote env req n).0 m
      → (handle_request_vote env' req' m).1.vote_granted ≡ true
      → req.term ≡ req'.term
      → req.candidate_id ≢ 0
      → req.candidate_id ≡ req'.candidate_id
  one_vote_per_term env env' req req' n m g r g' same someone =
      let first : Node = (handle_request_vote env req n).0 in
      let last : Node = (handle_request_vote env' req' m).0 in
      let later : Later first.store last.store =
        Later-trans (Reach-Later r) (handle_request_vote-Later env' req' m) in
      ground (arith, granted_vote env req n, granted_vote env' req' m)
