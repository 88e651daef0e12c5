-- ===== src/Node/Commitment.antt =====
-- advanceCommitLocked and becomeLeaderLocked of raft/node.go: what a leader commits.
use distkv.Prelude.{
  ℕ, ◌≤◌, ◌<◌, ◌≡◌, ◌≢◌, true, false, some, arith, inl, inr, Bool-cases, Option-cases, leb, ◌==◌,
  sym, ap, ◌∙◌,
}
use distkv.ConfState.{max_commit_index, can_commit}
use distkv.ConfState.Commit.{max_commit_index-exact}
use distkv.DiskStorage.{DiskStorage, term_at, sync_log}
use distkv.Node.{Node}
use distkv.Node.Replication.{advance_commit}

sync_log-unchanged :
    (s : DiskStorage) → ((sync_log s).0.term ≡ s.term) × ((sync_log s).0.log ≡ s.log)
unfolding sync_log
sync_log-unchanged s = ground arith

sync_log-durable : (s : DiskStorage) → (sync_log s).1 ≡ true → (sync_log s).0.dirty ≡ false
unfolding sync_log
sync_log-durable s h = ground arith

abbrev reached : Node → ℕ
reached n = max_commit_index n.conf n.match_index

-- The two ways through the code: nothing is committed, or every test has passed.
data Advance (n : Node) : Type 0 where
  stays : (advance_commit n).commit_index ≡ n.commit_index → Advance n
  moves :
      n.commit_index < reached n
      → (sync_log n.store).1 ≡ true
      → term_at (sync_log n.store).0 (reached n) ≡ some (sync_log n.store).0.term
      → (advance_commit n).commit_index ≡ reached n
      → (advance_commit n).store ≡ (sync_log n.store).0
      → Advance n

Advance-cases : (n : Node) → Advance n
unfolding advance_commit
Advance-cases n = elim (Bool-cases (leb (reached n) n.commit_index)) [
  | inl low ↦ stays (ground arith)
  | inr above ↦ elim (Bool-cases (sync_log n.store).1) [
    | inr failed ↦ stays (ground arith)
    | inl synced ↦ elim (Option-cases (term_at (sync_log n.store).0 (reached n))) [
      | inl missing ↦ stays (ground arith)
      | inr (t, found) ↦ elim (Bool-cases (t == (sync_log n.store).0.term)) [
        | inl own ↦ moves (ground arith) synced (ground arith) (ground arith) (ground arith)
        | inr other ↦ stays (ground arith)
      ]
    ]
  ]
]

-- A leader never lowers its commit index. Where it raises it, the new index is replicated on
-- every majority that the membership requires, its entry is of the leader's own term, no higher
-- index is on those majorities, and the leader's own log is synced.
pub advance_commit_rule :
    (n : Node)
    → (n.commit_index ≤ (advance_commit n).commit_index)
      × (n.commit_index ≢ (advance_commit n).commit_index
          → (can_commit n.conf (advance_commit n).commit_index n.match_index ≡ true)
            × (term_at (advance_commit n).store (advance_commit n).commit_index ≡ some n.store.term)
            × ((idx : ℕ)
                → can_commit n.conf idx n.match_index ≡ true
                → idx ≤ (advance_commit n).commit_index)
            × ((advance_commit n).store.dirty ≡ false))
advance_commit_rule n = go (Advance-cases n)
  where
    go :
        Advance n
        → (n.commit_index ≤ (advance_commit n).commit_index)
          × (n.commit_index ≢ (advance_commit n).commit_index
              → (can_commit n.conf (advance_commit n).commit_index n.match_index ≡ true)
                × (term_at (advance_commit n).store (advance_commit n).commit_index
                    ≡ some n.store.term)
                × ((idx : ℕ)
                    → can_commit n.conf idx n.match_index ≡ true
                    → idx ≤ (advance_commit n).commit_index)
                × ((advance_commit n).store.dirty ≡ false))
    go (stays e) = (omega arith, λ d. absurd (d (sym e)))
    go (moves above synced own e f) =
        let (quorum, highest) = max_commit_index-exact n.conf n.match_index in
        (
          omega arith,
          λ d.
              rw (e, f)
                (
                  quorum (omega arith),
                  own ∙ ap some (sync_log-unchanged n.store).0,
                  highest,
                  sync_log-durable n.store synced,
                ),
        )
