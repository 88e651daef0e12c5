-- ===== src/Node/Contiguous.antt =====
-- The log of a follower in raft/node.go: its indices have no gap.
use distkv.Prelude.{
  ℕ, ◌≤◌, ◌≡◌, true, false, none, some, List, [], ◌∷◌, arith, ltb, leb, ◌==◌, if◌then◌else◌, not,
  ◌&&◌, ◌||◌, Option-cases, inl, inr,
}
use distkv.DiskStorage.{
  DiskStorage, Entry, EntryProto, last_index, term_at, append_entries, sync_log, set_hard_state,
}
use distkv.Node.{
  Node, Env, AppendRequest, AppendResponse, is_follower, step_down, reset_election_timer,
}
use distkv.Node.Replication.{
  new_entries, check_previous, take_entries, accept_entries, handle_append_entries, follow_commit,
}
use distkv.DiskStorage.Contiguous.{
  IsContiguous, NoGap, both_branches, contiguous_le, append_entries-NoGap, same-NoGap,
  sync_log-NoGap,
}

-- What is left to append counts on from an entry of the log.
new_entries-IsContiguous :
    (s : DiskStorage) (p : ℕ) (es : List Entry)
    → NoGap s
    → IsContiguous p es
    → p ≤ last_index s
    → (k : ℕ) × IsContiguous k (new_entries s es) × (s.snap_index ≤ k) × (k ≤ last_index s)
unfolding new_entries
new_entries-IsContiguous s p [] g c h =
    (s.snap_index, tt, omega arith, contiguous_le s.snap_index s.log g)
new_entries-IsContiguous s p (e ∷ es) g c h =
    let P : List Entry → Type 0 =
      λ xs. (k : ℕ) × IsContiguous k xs × (s.snap_index ≤ k) × (k ≤ last_index s) in
    let held : ℕ = elim (term_at s e.index) [ none ↦ 0 | some t ↦ t ] in
    both_branches P (leb e.index s.snap_index) (new_entries s es)
      (if leb e.index (last_index s) && held == e.term then new_entries s es else e ∷ es)
      (λ q.
        new_entries-IsContiguous s e.index es g c.1
          (ground (arith, contiguous_le s.snap_index s.log g)))
      (λ q.
        both_branches P (leb e.index (last_index s) && held == e.term) (new_entries s es) (e ∷ es)
          (λ r. new_entries-IsContiguous s e.index es g c.1 (ground arith))
          (λ r. (p, c, ground (arith, c.0), h)))

check_previous_below :
    (req : AppendRequest) (s : DiskStorage)
    → check_previous req s ≡ none
    → req.prev_log_index ≤ last_index s
unfolding check_previous
check_previous_below req s h = ground arith

follow_commit-store : (req : AppendRequest) (n : Node) → (follow_commit req n).store ≡ n.store
unfolding follow_commit
follow_commit-store req n = ground arith

step_down-log :
    (env : Env) (t : ℕ) (n : Node)
    → ((step_down env t n).store.log ≡ n.store.log)
      × ((step_down env t n).store.snap_index ≡ n.store.snap_index)
unfolding step_down reset_election_timer set_hard_state
step_down-log env t n = ground arith

module _ (proto : EntryProto) where
  take_entries-NoGap :
      (s : DiskStorage) (k : ℕ) (es : List Entry)
      → NoGap s
      → IsContiguous k es
      → s.snap_index ≤ k
      → k ≤ last_index s
      → NoGap (take_entries proto s es).0
  unfolding take_entries sync_log
  take_entries-NoGap s k [] g c lo hi = g
  take_entries-NoGap s k (e ∷ es) g c lo hi =
      let g1 = append_entries-NoGap proto s k (e ∷ es) g c lo hi in
      let r = append_entries proto s (e ∷ es) in
      both_branches (λ t. NoGap t.0) (not r.1) (r.0, false) (sync_log r.0) (λ h. g1)
        (λ h. sync_log-NoGap r.0 g1)

  accept_entries-NoGap :
      (req : AppendRequest) (n : Node)
      → NoGap n.store
      → IsContiguous req.prev_log_index req.entries
      → NoGap (accept_entries proto req n).0.store
  unfolding accept_entries follow_commit
  accept_entries-NoGap req n g c = elim (Option-cases (check_previous req n.store)) [
    | inr (resp, refused) ↦ rw (refused, accept_entries) g
    | inl passed ↦
        let (k, c', lo, hi) =
          new_entries-IsContiguous n.store req.prev_log_index req.entries g c
            (check_previous_below req n.store passed) in
        let g1 = take_entries-NoGap n.store k (new_entries n.store req.entries) g c' lo hi in
        let r = take_entries proto n.store (new_entries n.store req.entries) in
        let failed : AppendResponse = record {
          term = n.store.term;
          success = false;
          conflict_index = 0;
          conflict_term = 0;
        } in
        let n1 : Node = record n { store = r.0 } in
        rw (passed, accept_entries)
          (both_branches (λ (t : Node × AppendResponse). NoGap t.0.store) (not r.1) (n1, failed)
            (follow_commit req n1, record failed { success = true }) (λ h. g1)
            (λ h. rw (follow_commit-store req n1) g1))
  ]

  -- HandleAppendEntries keeps the follower's log without a gap, on every path: a refusal, a device
  -- that fails part of the way, and a success. The request's entries have to count on from the
  -- index before them.
  pub handle_append_entries-NoGap :
      (env : Env) (req : AppendRequest) (n : Node)
      → NoGap n.store
      → IsContiguous req.prev_log_index req.entries
      → NoGap (handle_append_entries proto env req n).0.store
  unfolding handle_append_entries reset_election_timer
  handle_append_entries-NoGap env req n g c =
      let stale : AppendResponse = record {
        term = n.store.term;
        success = false;
        conflict_index = 0;
        conflict_term = 0;
      } in
      let down : Node = step_down env req.term n in
      let n1 : Node = if ltb n.store.term req.term || not (is_follower n.role) then down else n in
      let m : Node = reset_election_timer env (record n1 { leader_id = req.leader_id }) in
      let (same_log, same_index) = step_down-log env req.term n in
      let gm : NoGap m.store =
        both_branches (λ (k : Node). NoGap k.store)
          (ltb n.store.term req.term || not (is_follower n.role)) down n
          (λ h. same-NoGap n.store down.store same_log same_index g) (λ h. g) in
      both_branches (λ t. NoGap t.0.store) (ltb req.term n.store.term) (n, stale)
        (accept_entries proto req m) (λ h. g) (λ h. accept_entries-NoGap req m gm c)
