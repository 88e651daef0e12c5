-- ===== src/Node/Election.antt =====
-- startElectionLocked, becomeLeaderLocked and the vote handling of raft/node.go.
use distkv.Prelude.{
  ℕ, ◌+◌, true, false, none, some, List, [], ◌∷◌, ltb, leb, ◌==◌, not, ◌&&◌, ◌||◌, if◌then◌else◌,
  length, u64,
}
use distkv.IdSet.{contains}
use distkv.ConfState.{Map, write, all_peer_ids, has_vote_quorum}
use distkv.DiskStorage.{
  DiskStorage, Entry, EntryProto, entry_normal, last_index, term_at, set_hard_state, append_entries,
}
use distkv.Node.{
  Node, Env, candidate, leader, is_leader, is_candidate, VoteRequest, VoteResponse, Message,
  vote_message, reset_election_timer, step_down, broadcast_append,
}

-- `lastTerm, _ := n.store.termAt(lastIdx)`
abbrev pub last_term : DiskStorage → ℕ
last_term s = elim (term_at s (last_index s)) [ none ↦ 0 | some t ↦ t ]

-- One request for each peer but the node itself.
unfoldable pub vote_messages : ℕ → VoteRequest → List ℕ → List Message
vote_messages id req [] = []
vote_messages id req (p ∷ ps) =
    let rest = vote_messages id req ps in if p == id then rest else vote_message p req ∷ rest

-- The candidacy itself, once the node may stand.
unfoldable pub stand : Env → Node → Node × List Message
unfolding vote_messages reset_election_timer
stand env n =
    let new_term = u64 (n.store.term + 1) in
    let (store, stored) = set_hard_state n.store new_term n.cfg.id in
    let n1 = record n { role = candidate; store = store } in
    let req : VoteRequest = record {
      term = new_term;
      candidate_id = n.cfg.id;
      last_log_index = last_index store;
      last_log_term = last_term store;
    } in
    if not stored then (n1, []) else (
      reset_election_timer env (record n1 { leader_id = 0 }),
      vote_messages n.cfg.id req (all_peer_ids n.conf),
    )

-- startElectionLocked. A node that is no voter, or the only voter with an empty log, waits.
unfoldable pub start_election : Env → Node → Node × List Message
unfolding stand
start_election env n =
    if not (contains n.conf.voters n.cfg.id)
    then (reset_election_timer env n, [])
    else if length n.conf.voters == 1 && last_index n.store == n.store.snap_index
    then (reset_election_timer env n, [])
    else stand env n

-- `for _, p := range n.peerIDsLocked() { n.nextIndex[p] = last + 1; n.matchIndex[p] = 0 }`
unfoldable pub fill_map : List ℕ → ℕ → Map → Map
fill_map [] v m = m
fill_map (p ∷ ps) v m = fill_map ps v (write m p v)

abbrev pub empty_map : Map
empty_map _ = none

-- The leader's maps, before the no-op is appended.
unfoldable pub lead : Node → Node
unfolding fill_map
lead n =
    let last = last_index n.store in
    let peers = all_peer_ids n.conf in
    record n {
      role = leader;
      leader_id = n.cfg.id;
      progress = true;
      next_index = fill_map peers (u64 (last + 1)) empty_map;
      match_index = write (fill_map peers 0 empty_map) n.cfg.id last;
      last_sent_at = empty_map;
      inflight = λ _. false;
    }

module _ (proto : EntryProto) where
  -- The no-op entry of the new term.
  unfoldable pub append_noop : Node → Node
  append_noop n =
      let last = last_index n.store in
      let noop : Entry = record {
        term = n.store.term;
        index = u64 (last + 1);
        content = [];
        kind = entry_normal;
        conf_change = none;
      } in
      let (store, appended) = append_entries proto n.store (noop ∷ []) in
      if not appended then record n { store = store } else record n {
        store = store;
        match_index = write n.match_index n.cfg.id noop.index;
        next_index = write n.next_index n.cfg.id (u64 (noop.index + 1));
      }

  unfoldable pub become_leader : Env → Node → Node × List Message
  unfolding lead append_noop broadcast_append
  become_leader env n =
      if is_leader n.role then (n, []) else broadcast_append env (append_noop (lead n))

  -- The answer to a vote request of the election of `new_term`, which has counted `votes` so far.
  unfoldable pub on_vote_response : Env → ℕ → VoteResponse → ℕ → Node → Node × ℕ × List Message
  unfolding become_leader step_down
  on_vote_response env new_term resp votes n =
      let (n', sent) = become_leader env n in
      if ltb n.store.term resp.term
      then (step_down env resp.term n, votes, [])
      else if not (is_candidate n.role) || not (n.store.term == new_term) || not resp.vote_granted
      then (n, votes, [])
      else if has_vote_quorum n.conf (votes + 1)
      then (n', votes + 1, sent)
      else (n, votes + 1, [])

-- HandleRequestVote after the term check and with the node a voter.
unfoldable pub grant_vote : Env → VoteRequest → Node → Node × VoteResponse
unfolding reset_election_timer
grant_vote env req n =
    let last_idx = last_index n.store in
    let up_to_date =
      ltb (last_term n.store) req.last_log_term
      || (req.last_log_term == last_term n.store) && leb last_idx req.last_log_index in
    let free = (n.store.voted_for == 0) || (n.store.voted_for == req.candidate_id) in
    let (store, stored) = set_hard_state n.store n.store.term req.candidate_id in
    let refused : VoteResponse = record { term = n.store.term; vote_granted = false } in
    if free && up_to_date
    then (if stored
        then (
          reset_election_timer env (record n { store = store }),
          record { term = n.store.term; vote_granted = true },
        )
        else (record n { store = store }, refused))
    else (n, refused)

unfoldable pub handle_request_vote : Env → VoteRequest → Node → Node × VoteResponse
unfolding step_down grant_vote
handle_request_vote env req n =
    let n1 = if ltb n.store.term req.term then step_down env req.term n else n in
    let refused : VoteResponse = record { term = n1.store.term; vote_granted = false } in
    if ltb req.term n1.store.term
    then (n1, refused)
    else if not (contains n1.conf.voters n1.cfg.id)
    then (n1, refused)
    else grant_vote env req n1
