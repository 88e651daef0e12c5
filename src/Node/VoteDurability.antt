-- ===== src/Node/VoteDurability.antt =====
-- HandleRequestVote of raft/node.go over the storage of raft/storage.go: a vote that was granted is
-- on the disk.
use distkv.Prelude.{
  ℕ, ◌^◌, ◌<◌, ◌≡◌, ◌∙◌, sym, refl, true, false, List, arith, ltb, if◌then◌else◌, Bool-cases, ◌⊎◌,
  inl, inr, ap,
}
use distkv.Wal.{open_wal, append, sync, done}
use distkv.DiskStorage.{DiskStorage, EntryProto, set_hard_state}
use distkv.DiskStorage.Restart.{open_disk_storage, crash_files}
use distkv.DiskStorage.Keeping.{IsBacked, set_hard_state-IsBacked}
use distkv.DiskStorage.Durability.{set_hard_state_durable}
use distkv.Node.{Node, Env, VoteRequest, step_down, reset_election_timer}
use distkv.Node.Voting.{granted_vote, grant_vote_lem}
use distkv.Node.Election.{handle_request_vote, grant_vote}

-- A device that takes a later hard state has taken the one before.
set_hard_state_before :
    (s : DiskStorage) (t v t' v' : ℕ)
    → (set_hard_state (set_hard_state s t v).0 t' v').1 ≡ true
    → (set_hard_state s t v).1 ≡ true
unfolding set_hard_state append sync
set_hard_state_before s t v t' v' h = ground arith

grant_vote_stored :
    (env : Env) (req : VoteRequest) (n : Node)
    → (grant_vote env req n).1.vote_granted ≡ true
    → ((set_hard_state n.store n.store.term req.candidate_id).1 ≡ true)
      × ((grant_vote env req n).0.store ≡ (set_hard_state n.store n.store.term req.candidate_id).0)
unfolding grant_vote reset_election_timer
grant_vote_stored env req n g = ground arith

-- The node that the vote is decided on.
unfoldable at_term : Env → VoteRequest → Node → Node
at_term env req n = if ltb n.store.term req.term then step_down env req.term n else n

handle_granted :
    (env : Env) (req : VoteRequest) (n : Node)
    → (handle_request_vote env req n).1.vote_granted ≡ true
    → ((grant_vote env req (at_term env req n)).1.vote_granted ≡ true)
      × ((handle_request_vote env req n).0 ≡ (grant_vote env req (at_term env req n)).0)
unfolding handle_request_vote at_term
handle_granted env req n g = elim (Bool-cases (ltb n.store.term req.term)) [
  | inl newer ↦ ground arith
  | inr older ↦ ground arith
]

set_hard_state-log : (s : DiskStorage) (t v : ℕ) → (set_hard_state s t v).0.log ≡ s.log
unfolding set_hard_state
set_hard_state-log s t v = ground arith

at_term-store :
    (env : Env) (req : VoteRequest) (n : Node)
    → ((at_term env req n).store ≡ n.store)
      ⊎ ((at_term env req n).store ≡ (set_hard_state n.store req.term 0).0)
unfolding at_term step_down reset_election_timer
at_term-store env req n = elim (Bool-cases (ltb n.store.term req.term)) [
  | inl newer ↦ inr (ground arith)
  | inr older ↦ inl (ground arith)
]

granted_term :
    (env : Env) (req : VoteRequest) (n : Node)
    → (handle_request_vote env req n).1.vote_granted ≡ true
    → (handle_request_vote env req n).0.store.term ≡ (at_term env req n).store.term
granted_term env req n g =
    let (g', result) = handle_granted env req n g in
    ap (λ (k : Node). k.store.term) result ∙ (grant_vote_lem env req (at_term env req n) g').0

module _ (proto : EntryProto) (bootstrap : List ℕ) where
  grant_vote_durable :
      (env : Env) (req : VoteRequest) (n : Node) (kept io : ℕ)
      → ((set_hard_state n.store n.store.term req.candidate_id).1 ≡ true
          → IsBacked proto bootstrap n.store)
      → n.store.term < 2 ^ 64
      → req.candidate_id < 2 ^ 64
      → (grant_vote env req n).1.vote_granted ≡ true
      → (r : DiskStorage) × (open_disk_storage proto
            (crash_files (grant_vote env req n).0.store kept)
            bootstrap
            io
          ≡ done r)
        × (r.term ≡ n.store.term)
        × (r.voted_for ≡ req.candidate_id)
        × (r.log ≡ n.store.log)
  grant_vote_durable env req n kept io b ht hc g =
      let (stored, result) = grant_vote_stored env req n g in
      let s' : DiskStorage = (set_hard_state n.store n.store.term req.candidate_id).0 in
      (
        record (n.store) {
          voted_for = req.candidate_id;
          wal = open_wal s'.wal.synced io;
          dirty = false;
        },
        ap (λ (s : DiskStorage). open_disk_storage proto (crash_files s kept) bootstrap io) result
            ∙ set_hard_state_durable proto bootstrap n.store n.store.term req.candidate_id kept io
                (b stored) ht hc stored,
        refl,
        refl,
        refl,
      )

  at_term-IsBacked :
      (env : Env) (req : VoteRequest) (n : Node) (t v : ℕ)
      → IsBacked proto bootstrap n.store
      → req.term < 2 ^ 64
      → (set_hard_state (at_term env req n).store t v).1 ≡ true
      → IsBacked proto bootstrap (at_term env req n).store
  at_term-IsBacked env req n t v b h stored = elim (at_term-store env req n) [
    | inl same ↦ rw same b
    | inr down ↦
        rw down
          (set_hard_state-IsBacked proto bootstrap n.store req.term 0
            (set_hard_state_before n.store req.term 0 t v (rw down at stored)) h (omega arith) b).0
  ]

  at_term-log :
      (env : Env) (req : VoteRequest) (n : Node) → (at_term env req n).store.log ≡ n.store.log
  at_term-log env req n = elim (at_term-store env req n) [
    | inl same ↦ ap (λ (s : DiskStorage). s.log) same
    | inr down ↦ ap (λ (s : DiskStorage). s.log) down ∙ set_hard_state-log n.store req.term 0
  ]

  -- A vote that is granted is durable: whatever a crash at that moment loses, the node that opens
  -- the directory again has the request's term, its vote for that candidate, and the same log. It
  -- holds of a node whose log file replays to its memory, and of 64-bit terms and ids.
  pub granted_vote_durable :
      (env : Env) (req : VoteRequest) (n : Node) (kept io : ℕ)
      → IsBacked proto bootstrap n.store
      → n.store.term < 2 ^ 64
      → req.term < 2 ^ 64
      → req.candidate_id < 2 ^ 64
      → (handle_request_vote env req n).1.vote_granted ≡ true
      → (r : DiskStorage) × (open_disk_storage proto
            (crash_files (handle_request_vote env req n).0.store kept)
            bootstrap
            io
          ≡ done r)
        × (r.term ≡ req.term)
        × (r.voted_for ≡ req.candidate_id)
        × (r.log ≡ n.store.log)
  granted_vote_durable env req n kept io b hn ht hc g =
      let (g', result) = handle_granted env req n g in
      let m : Node = at_term env req n in
      let term_eq : m.store.term ≡ req.term =
        sym (granted_term env req n g) ∙ (granted_vote env req n g).0 in
      let (r, opened, term, vote, log) =
        grant_vote_durable env req m kept io
          (at_term-IsBacked env req n m.store.term req.candidate_id b ht) (rw term_eq ht) hc g' in
      (
        r,
        ap (λ (k : Node). open_disk_storage proto (crash_files k.store kept) bootstrap io) result
            ∙ opened,
        term ∙ term_eq,
        vote,
        log ∙ at_term-log env req n,
      )
