-- ===== src/ConfState/Quorum.antt =====
-- HasVoteQuorum and canCommit of raft/confstate.go: two quorums of the same membership, or of
-- memberships one change apart, share a server.
use distkv.Prelude.{
  ℕ, ◌+◌, ◌≤◌, ◌≡◌, ◌∙◌, refl, Bool, true, false, [], ◌∷◌, arith, leb, length, ◌⊎◌, inl, inr,
  Bool-cases,
}
use distkv.IdSet.{IdSet, insert, IsAscending}
use distkv.ConfState.{
  ConfState, Map, in_joint, majority, read, count_ge, can_commit, all_peer_ids, has_vote_quorum,
}
use distkv.ConfState.Change.{
  IsWellFormed, Differ, stable, added, removed, Changed, grows, shrinks, leaves,
  Changed-IsWellFormed,
}
use distkv.ConfState.Tally.{
  tally, Meet, Meet-of_sum, tally-insert, length-insert_le, union, union-insert_left,
  union-insert_right,
}

-- The candidate counts the votes of every peer that it asked, itself included.
abbrev pub Quorum : ConfState → (ℕ → Bool) → Type 0
Quorum c p = has_vote_quorum c (tally p (all_peer_ids c)) ≡ true

-- The peers of a transition are the larger of its two sets.
record Peers (c : ConfState) (p : ℕ → Bool) : Type 0 where
  voters_size : length c.voters ≤ length (all_peer_ids c)
  joint_size : length c.joint ≤ length (all_peer_ids c)
  voters_near : length (all_peer_ids c) ≤ length c.voters + 1
  joint_near : length (all_peer_ids c) ≤ length c.joint + 1
  one_of : (length (all_peer_ids c) ≡ length c.voters) ⊎ (length (all_peer_ids c) ≡ length c.joint)
  voters_tally : tally p c.voters ≤ tally p (all_peer_ids c)
  joint_tally : tally p c.joint ≤ tally p (all_peer_ids c)

all_peer_ids-joint : (c : ConfState) → in_joint c ≡ true → all_peer_ids c ≡ union c.voters c.joint
unfolding all_peer_ids union
all_peer_ids-joint c h = rw h

Peers-added :
    (c : ConfState) (p : ℕ → Bool) (id : ℕ)
    → IsAscending c.voters
    → in_joint c ≡ true
    → c.voters ≡ insert id c.joint
    → Peers c p
Peers-added c p id a j e =
    let whole : all_peer_ids c ≡ c.voters =
      all_peer_ids-joint c j ∙ (rw e (union-insert_left id c.joint (rw e at a))) in
    record {
      voters_size = rw whole (omega arith);
      joint_size = rw (whole, e) (length-insert_le id c.joint).0;
      voters_near = rw whole (omega arith);
      joint_near = rw (whole, e) (length-insert_le id c.joint).1;
      one_of = inl (rw whole);
      voters_tally = rw whole (omega arith);
      joint_tally = rw (whole, e) (tally-insert p id c.joint);
    }

Peers-removed :
    (c : ConfState) (p : ℕ → Bool) (id : ℕ)
    → IsAscending c.joint
    → in_joint c ≡ true
    → c.joint ≡ insert id c.voters
    → Peers c p
Peers-removed c p id a j e =
    let whole : all_peer_ids c ≡ c.joint =
      all_peer_ids-joint c j ∙ (rw e (union-insert_right id c.voters (rw e at a))) in
    record {
      voters_size = rw (whole, e) (length-insert_le id c.voters).0;
      joint_size = rw whole (omega arith);
      voters_near = rw (whole, e) (length-insert_le id c.voters).1;
      joint_near = rw whole (omega arith);
      one_of = inr (rw whole);
      voters_tally = rw (whole, e) (tally-insert p id c.voters);
      joint_tally = rw whole (omega arith);
    }

peers : (c : ConfState) (p : ℕ → Bool) → IsWellFormed c → in_joint c ≡ true → Peers c p
peers c p w j = go w.differ
  where
    go : Differ c.voters c.joint → Peers c p
    go (stable e) = absurd (ground arith)
    go (added id e) = Peers-added c p id w.voters_set j e
    go (removed id e) = Peers-removed c p id w.joint_set j e

-- In a transition the quorum is a majority of all the peers.
joint-Quorum :
    (c : ConfState) (p : ℕ → Bool)
    → IsWellFormed c
    → in_joint c ≡ true
    → Quorum c p
    → majority (length (all_peer_ids c)) ≤ tally p (all_peer_ids c)
unfolding has_vote_quorum
joint-Quorum c p w j q = ground (arith, peers c p w j)

-- Outside of one it is a majority of the voters.
stable-Quorum :
    (c : ConfState) (p : ℕ → Bool)
    → in_joint c ≡ false
    → Quorum c p
    → majority (length c.voters) ≤ tally p c.voters
unfolding has_vote_quorum all_peer_ids
stable-Quorum c p j q = ground arith

-- Two quorums of one membership share a server.
quorums-Meet_same :
    (c : ConfState) (p q : ℕ → Bool) → IsWellFormed c → Quorum c p → Quorum c q → Meet p q
quorums-Meet_same c p q w hp hq = elim (Bool-cases (in_joint c)) [
  | inl j ↦
      Meet-of_sum p q (all_peer_ids c)
        (omega (arith, joint-Quorum c p w j hp, joint-Quorum c q w j hq))
  | inr s ↦ Meet-of_sum p q c.voters (omega (arith, stable-Quorum c p s hp, stable-Quorum c q s hq))
]

-- A quorum of a transition meets a majority of either of its sets.
joint_meets_voters :
    (c : ConfState) (p q : ℕ → Bool)
    → IsWellFormed c
    → in_joint c ≡ true
    → Quorum c p
    → majority (length c.voters) ≤ tally q c.voters
    → Meet p q
joint_meets_voters c p q w j hp hq =
    let f : Peers c q = peers c q w j in
    Meet-of_sum p q (all_peer_ids c) (omega (arith, joint-Quorum c p w j hp, f))

joint_meets_joint :
    (c : ConfState) (p q : ℕ → Bool)
    → IsWellFormed c
    → in_joint c ≡ true
    → Quorum c p
    → majority (length c.joint) ≤ tally q c.joint
    → Meet p q
joint_meets_joint c p q w j hp hq =
    let f : Peers c q = peers c q w j in
    Meet-of_sum p q (all_peer_ids c) (omega (arith, joint-Quorum c p w j hp, f))

Meet-sym : {p q : ℕ → Bool} → Meet p q → Meet q p
Meet-sym (id, a, b) = (id, b, a)

-- The first half of a change keeps the old voters as the second set.
quorums-Meet_entered :
    (c c' : ConfState) (p q : ℕ → Bool)
    → IsWellFormed c
    → IsWellFormed c'
    → in_joint c ≡ false
    → c'.joint ≡ c.voters
    → Quorum c p
    → Quorum c' q
    → Meet p q
quorums-Meet_entered c c' p q w w' s e hp hq = Meet-sym (
    joint_meets_joint c' q p w' (rw e (ground (arith, w.has_voter))) hq
      (rw e (stable-Quorum c p s hp)))

quorums-Meet_left :
    (c c' : ConfState) (p q : ℕ → Bool)
    → IsWellFormed c
    → in_joint c ≡ true
    → c' ≡ record c { joint = [] }
    → Quorum c p
    → Quorum c' q
    → Meet p q
quorums-Meet_left c c' p q w j e hp hq =
    joint_meets_voters c p q w j hp (stable-Quorum (record c { joint = [] }) q refl (rw e at hq))

pub quorums-Meet-Changed :
    (c c' : ConfState) (p q : ℕ → Bool)
    → IsWellFormed c
    → Changed c c'
    → Quorum c p
    → Quorum c' q
    → Meet p q
quorums-Meet-Changed c c' p q w (grows id s e) hp hq =
    quorums-Meet_entered c c' p q w (Changed-IsWellFormed (grows id s e) w) s (rw e) hp hq
quorums-Meet-Changed c c' p q w (shrinks id s m l e) hp hq =
    quorums-Meet_entered c c' p q w (Changed-IsWellFormed (shrinks id s m l e) w) s (rw e) hp hq
quorums-Meet-Changed c c' p q w (leaves j e) hp hq = quorums-Meet_left c c' p q w j e hp hq

-- Two memberships that the cluster may use at the same time.
pub data Near (c c' : ConfState) : Type 0 where
  same : c ≡ c' → Near c c'
  ahead : Changed c c' → Near c c'
  behind : Changed c' c → Near c c'

-- Two vote counts that win an election, in one well-formed membership or in two that are one
-- applied change apart, have a voter in common.
pub quorums-Meet :
    (c c' : ConfState) (p q : ℕ → Bool)
    → IsWellFormed c
    → IsWellFormed c'
    → Near c c'
    → Quorum c p
    → Quorum c' q
    → Meet p q
quorums-Meet c c' p q w w' (same e) hp hq = quorums-Meet_same c p q w hp (rw (← e) at hq)
quorums-Meet c c' p q w w' (ahead ch) hp hq = quorums-Meet-Changed c c' p q w ch hp hq
quorums-Meet c c' p q w w' (behind ch) hp hq = Meet-sym (quorums-Meet-Changed c' c q p w' ch hq hp)

-- The servers known to hold the log up to an index.
abbrev pub holders : Map → ℕ → ℕ → Bool
holders m idx id = leb idx (read m id)

count_ge-eq-tally :
    (ids : IdSet) (m : Map) (idx : ℕ) → count_ge ids m idx ≡ tally (holders m idx) ids
unfolding count_ge tally
count_ge-eq-tally [] m idx = refl
count_ge-eq-tally (x ∷ xs) m idx = ground (arith, count_ge-eq-tally xs m idx)

commit-Quorum :
    (c : ConfState) (m : Map) (idx : ℕ)
    → IsWellFormed c
    → can_commit c idx m ≡ true
    → Quorum c (holders m idx)
commit-Quorum c m idx w h = elim (Bool-cases (in_joint c)) [
  | inl j ↦ in_transition j
  | inr s ↦ outside s
]
  where
    in_transition : in_joint c ≡ true → Quorum c (holders m idx)
    in_transition j =
        unfold can_commit has_vote_quorum in
        ground (
          arith,
          peers c (holders m idx) w j,
          count_ge-eq-tally c.voters m idx,
          count_ge-eq-tally c.joint m idx,
        )

    outside : in_joint c ≡ false → Quorum c (holders m idx)
    outside s =
        unfold can_commit has_vote_quorum all_peer_ids in
        ground (arith, count_ge-eq-tally c.voters m idx)

-- An index that may be committed is held by some voter of every candidate that wins an election,
-- in the same membership or in one that is one applied change away.
pub commit_meets_election :
    (c c' : ConfState) (m : Map) (idx : ℕ) (votes : ℕ → Bool)
    → IsWellFormed c
    → IsWellFormed c'
    → Near c c'
    → can_commit c idx m ≡ true
    → Quorum c' votes
    → (id : ℕ) × (idx ≤ read m id) × (votes id ≡ true)
commit_meets_election c c' m idx votes w w' near h q =
    let (id, held, voted) =
      quorums-Meet c c' (holders m idx) votes w w' near (commit-Quorum c m idx w h) q in
    (id, ground arith, voted)
