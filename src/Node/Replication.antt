-- ===== src/Node/Replication.antt =====
-- HandleAppendEntries of raft/node.go, and the leader's handling of the answers.
use distkv.Prelude.{
  ℕ, zero, suc, ◌+◌, ◌-◌, Bool, true, false, Option, none, some, List, [], ◌∷◌, ltb, leb, ◌==◌, not,
  ◌&&◌, ◌||◌, if◌then◌else◌, length, u64, min, max,
}
use distkv.ConfState.{read, write, max_commit_index}
use distkv.DiskStorage.{
  DiskStorage, Entry, EntryProto, first_index, last_index, term_at, append_entries, sync_log,
}
use distkv.Node.{
  Node, Env, is_leader, is_follower, AppendRequest, AppendResponse, SnapshotRequest,
  reset_election_timer, step_down, kick_run, set_flag,
}

-- The loop that walks back over the entries of term `t`, down from `ci`.
unfoldable pub conflict_start : DiskStorage → ℕ → ℕ → ℕ
conflict_start s t zero = zero
conflict_start s t (suc ci) =
    let back = conflict_start s t ci in
    if ltb (first_index s) (suc ci)
    then elim (term_at s ci) [ none ↦ suc ci | some pt ↦ if pt == t then back else suc ci ]
    else suc ci

-- The loop that skips the entries that the follower has already.
unfoldable pub new_entries : DiskStorage → List Entry → List Entry
new_entries s [] = []
new_entries s (e ∷ es) =
    let rest = new_entries s es in
    let held : ℕ = elim (term_at s e.index) [ none ↦ 0 | some t ↦ t ] in
    if leb e.index s.snap_index
    then rest
    else if leb e.index (last_index s) && held == e.term
    then rest
    else e ∷ es

-- The check of the entry before the new ones: none if the logs match there.
unfoldable pub check_previous : AppendRequest → DiskStorage → Option AppendResponse
unfolding conflict_start
check_previous req s =
    let refuse : ℕ → ℕ → AppendResponse = λ index term. record {
      term = s.term;
      success = false;
      conflict_index = index;
      conflict_term = term;
    } in
    if ltb (last_index s) req.prev_log_index
    then some (refuse (u64 (last_index s + 1)) 0)
    else if leb (first_index s) req.prev_log_index || req.prev_log_index == s.snap_index
    then elim (term_at s req.prev_log_index) [
      | none ↦ some (refuse (first_index s) 0)
      | some t ↦
          if t == req.prev_log_term
          then none
          else some (refuse (conflict_start s t req.prev_log_index) t)
    ]
    else none

unfoldable pub follow_commit : AppendRequest → Node → Node
follow_commit req n =
    let last_new = u64 (req.prev_log_index + length req.entries) in
    if ltb n.commit_index req.leader_commit
    then record n { commit_index = min req.leader_commit (max last_new n.commit_index) }
    else n

module _ (proto : EntryProto) where
  -- Appending and syncing what is new; the result says whether both succeeded.
  unfoldable pub take_entries : DiskStorage → List Entry → DiskStorage × Bool
  take_entries s [] = (s, true)
  take_entries s (e ∷ es) =
      let (s1, appended) = append_entries proto s (e ∷ es) in
      let (s2, synced) = sync_log s1 in if not appended then (s1, false) else (s2, synced)

  -- HandleAppendEntries from the log check on.
  unfoldable pub accept_entries : AppendRequest → Node → Node × AppendResponse
  unfolding check_previous new_entries take_entries follow_commit
  accept_entries req n = elim (check_previous req n.store) [
    | some resp ↦ (n, resp)
    | none ↦
        let (store, taken) = take_entries n.store (new_entries n.store req.entries) in
        let n1 = record n { store = store } in
        let failed : AppendResponse = record {
          term = n.store.term;
          success = false;
          conflict_index = 0;
          conflict_term = 0;
        } in
        if not taken then (n1, failed) else (follow_commit req n1, record failed { success = true })
  ]

  unfoldable pub handle_append_entries : Env → AppendRequest → Node → Node × AppendResponse
  unfolding step_down accept_entries reset_election_timer
  handle_append_entries env req n =
      let stale : AppendResponse = record {
        term = n.store.term;
        success = false;
        conflict_index = 0;
        conflict_term = 0;
      } in
      let n1 =
        if ltb n.store.term req.term || not (is_follower n.role)
        then step_down env req.term n
        else n in
      if ltb req.term n.store.term
      then (n, stale)
      else accept_entries req (reset_election_timer env (record n1 { leader_id = req.leader_id }))

-- advanceCommitLocked.
unfoldable pub advance_commit : Node → Node
advance_commit n =
    let reached = max_commit_index n.conf n.match_index in
    let (store, synced) = sync_log n.store in
    let n1 = record n { store = store } in
    if leb reached n.commit_index
    then n
    else if not synced
    then n1
    else elim (term_at store reached) [
      | none ↦ n1
      | some t ↦
          if not (t == store.term) then n1 else kick_run (record n1 { commit_index = reached })
    ]

-- The search for the leader's last entry of the conflicting term, from index `i` down.
unfoldable pub last_of_term : DiskStorage → ℕ → ℕ → ℕ → ℕ
last_of_term s conflict_term next zero = next
last_of_term s conflict_term next (suc i) =
    let below = last_of_term s conflict_term next i in
    if ltb (suc i) (first_index s) then next else elim (term_at s (suc i)) [
      | none ↦ next
      | some t ↦
          if t == conflict_term
          then u64 (suc i + 1)
          else if ltb t conflict_term
          then next
          else below
    ]

-- A success moves the peer's progress up.
unfoldable pub raise_progress : ℕ → ℕ → Node → Node
raise_progress peer index n = record n {
  match_index =
      if ltb (read n.match_index peer) index then write n.match_index peer index else n.match_index;
  next_index =
      if ltb (read n.next_index peer) (u64 (index + 1))
      then write n.next_index peer (u64 (index + 1))
      else n.next_index;
}

-- A conflict moves it back.
unfoldable pub lower_progress : ℕ → AppendResponse → Node → Node
unfolding last_of_term
lower_progress peer resp n =
    let next = read n.next_index peer in
    if not (resp.conflict_term == 0)
    then record n {
      next_index = write n.next_index peer (
          max 1 (last_of_term n.store resp.conflict_term resp.conflict_index (last_index n.store)));
    }
    else if ltb 0 resp.conflict_index
    then record n { next_index = write n.next_index peer resp.conflict_index }
    else if ltb 1 next
    then record n { next_index = write n.next_index peer (next - 1) }
    else n

-- The rest of sendAppend, when the answer to `req` is there; then the request is no longer in
-- flight, as it is not after a transport error.
unfoldable pub on_append_response : Env → ℕ → AppendRequest → AppendResponse → Node → Node
unfolding step_down raise_progress lower_progress advance_commit
on_append_response env peer req resp n =
    let index = u64 (req.prev_log_index + length req.entries) in
    if ltb n.store.term resp.term
    then step_down env resp.term n
    else if not (is_leader n.role) || not (n.store.term == req.term)
    then n
    else if resp.success
    then advance_commit (raise_progress peer index n)
    else kick_run (lower_progress peer resp n)

-- The deferred part of the sending goroutine.
unfoldable pub landed : ℕ → Node → Node
landed peer n = record n { inflight = set_flag n.inflight peer false }

-- The rest of sendSnapshot.
unfoldable pub on_snapshot_response : Env → ℕ → SnapshotRequest → ℕ → Node → Node
unfolding step_down raise_progress
on_snapshot_response env peer req resp_term n =
    if ltb n.store.term resp_term
    then step_down env resp_term n
    else if not (is_leader n.role) || not (n.store.term == req.term)
    then n
    else raise_progress peer req.last_included_index n
