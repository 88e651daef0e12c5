-- ===== src/Node/Hazards.antt =====
-- Behaviours of raft/node.go that its callers have to know of.
use distkv.Prelude.{ℕ, ◌+◌, ◌≡◌, ◌∙◌, refl, false, some, List, [], ◌∷◌, arith, u64}
use distkv.ConfState.{all_peer_ids}
use distkv.DiskStorage.{DiskStorage, EntryProto, set_hard_state, last_index, sync_log}
use distkv.Node.{
  Node, Env, candidate, leader, is_leader, VoteRequest, reset_election_timer, broadcast_append,
  send_all, send_append_locked,
}
use distkv.Node.Election.{
  start_election, stand, vote_messages, become_leader, append_noop, lead, last_term,
}
use distkv.Node.Snapshots.{start_read, PendingRead}

own_messages : (id : ℕ) (req : VoteRequest) → vote_messages id req (id ∷ []) ≡ []
unfolding vote_messages
own_messages id req = ground arith

stand_alone :
    (env : Env) (n : Node)
    → all_peer_ids n.conf ≡ n.cfg.id ∷ []
    → (is_leader (stand env n).0.role ≡ false) × ((stand env n).1 ≡ [])
unfolding stand reset_election_timer
stand_alone env n alone =
    let new_term : ℕ = u64 (n.store.term + 1) in
    let store : DiskStorage = (set_hard_state n.store new_term n.cfg.id).0 in
    let req : VoteRequest = record {
      term = new_term;
      candidate_id = n.cfg.id;
      last_log_index = last_index store;
      last_log_term = last_term store;
    } in
    ground (arith, own_messages n.cfg.id req)

-- A node that is no leader and whose only peer is itself asks nobody when its election timer runs
-- out, and is not the leader afterwards either.
pub start_election_alone :
    (env : Env) (n : Node)
    → all_peer_ids n.conf ≡ n.cfg.id ∷ []
    → is_leader n.role ≡ false
    → (is_leader (start_election env n).0.role ≡ false) × ((start_election env n).1 ≡ [])
unfolding start_election reset_election_timer
start_election_alone env n alone h = ground (arith, stand_alone env n)

send_append_locked-lead :
    (env : Env) (n : Node) (p : ℕ)
    → ((send_append_locked env n p).0.role ≡ n.role)
      × ((send_append_locked env n p).0.commit_index ≡ n.commit_index)
unfolding send_append_locked
send_append_locked-lead env n p = ground arith

send_all-lead :
    (env : Env) (ps : List ℕ) (n : Node)
    → ((send_all env ps n).0.role ≡ n.role) × ((send_all env ps n).0.commit_index ≡ n.commit_index)
unfolding send_all
send_all-lead env [] n = ground arith
send_all-lead env (p ∷ ps) n = ground (
  arith,
  send_all-lead env ps n,
  send_all-lead env ps (send_append_locked env n p).0,
  send_append_locked-lead env n p,
)

broadcast_append-lead :
    (env : Env) (n : Node)
    → ((broadcast_append env n).0.role ≡ n.role)
      × ((broadcast_append env n).0.commit_index ≡ n.commit_index)
unfolding broadcast_append
broadcast_append-lead env n =
    let n1 : Node = record n { store = (sync_log n.store).0 } in
    ground (arith, send_all-lead env (all_peer_ids n.conf) n1)

start_read_leader :
    (n : Node)
    → n.role ≡ leader
    → (r : PendingRead) × (start_read n ≡ some r) × (r.read_index ≡ n.commit_index)
unfolding start_read
start_read_leader n h = rw h (_, refl, refl)

module _ (proto : EntryProto) where
  append_noop-lead :
      (n : Node)
      → ((append_noop proto n).role ≡ n.role)
        × ((append_noop proto n).commit_index ≡ n.commit_index)
  unfolding append_noop
  append_noop-lead n = ground arith

  become_leader-lead :
      (env : Env) (n : Node)
      → n.role ≡ candidate
      → ((become_leader proto env n).0.role ≡ leader)
        × ((become_leader proto env n).0.commit_index ≡ n.commit_index)
  unfolding become_leader lead
  become_leader-lead env n c =
      ground
        (arith, broadcast_append-lead env (append_noop proto (lead n)), append_noop-lead (lead n))

  -- A candidate that wins starts reads at once, at the commit index that it had before it became
  -- the leader: it does not wait for an entry of its own term.
  pub start_read_after_election :
      (env : Env) (n : Node)
      → n.role ≡ candidate
      → (r : PendingRead) × (start_read (become_leader proto env n).0 ≡ some r)
        × (r.read_index ≡ n.commit_index)
  start_read_after_election env n c =
      let (role, commit) = become_leader-lead env n c in
      let (r, started, at) = start_read_leader (become_leader proto env n).0 role in
      (r, started, at ∙ commit)
