-- ===== src/ConfState.antt =====
-- The data and the quorum arithmetic of raft/confstate.go and raft/confstate_errors.go:
-- the committed membership, and joint consensus.
pub mod Change
pub mod Commit
pub mod Tally
pub mod Quorum
pub mod Encoding
use distkv.Prelude.{
  ℕ, ◌+◌, ◌/◌, Bool, not, ◌&&◌, Option, none, some, List, [], ◌∷◌, ltb, leb, ◌==◌, if◌then◌else◌,
  length,
}
use distkv.IdSet.{IdSet, insert_all}

-- `joint` is [] when the cluster is not in a joint transition.
pub record ConfState : Type 0 where
  pub voters : IdSet
  pub joint : IdSet

unfoldable pub new_conf_state : List ℕ → ConfState
new_conf_state ids = record { voters = insert_all ids []; joint = [] }

abbrev pub in_joint : ConfState → Bool
in_joint c = ltb 0 (length c.joint)

-- Every server that should receive replication RPCs.
unfoldable pub all_peer_ids : ConfState → List ℕ
all_peer_ids c = if not (in_joint c) then c.voters else insert_all c.joint (insert_all c.voters [])

abbrev pub majority : ℕ → ℕ
majority n = n / 2 + 1

unfoldable pub has_vote_quorum : ConfState → ℕ → Bool
has_vote_quorum c vote_count =
    if not (in_joint c)
    then leb (majority (length c.voters)) vote_count
    else leb (majority (length c.joint)) vote_count && leb (majority (length c.voters)) vote_count

-- Go's map[uint64]uint64. A read of a missing key gives 0.
abbrev pub Map : Type 0
Map = ℕ → Option ℕ

abbrev pub read : Map → ℕ → ℕ
read m id = elim (m id) [ none ↦ 0 | some v ↦ v ]

abbrev pub write : Map → ℕ → ℕ → Map
write m id v j = if id == j then some v else m j

abbrev pub erase : Map → ℕ → Map
erase m id j = if id == j then none else m j

unfoldable pub count_ge : List ℕ → Map → ℕ → ℕ
count_ge [] match_index idx = 0
count_ge (id ∷ ids) match_index idx =
    (if leb idx (read match_index id) then 1 else 0) + count_ge ids match_index idx

unfoldable pub can_commit : ConfState → ℕ → Map → Bool
can_commit c idx match_index =
    if not (in_joint c)
    then leb (majority (length c.voters)) (count_ge c.voters match_index idx)
    else leb (majority (length c.joint)) (count_ge c.joint match_index idx)
      && leb (majority (length c.voters)) (count_ge c.voters match_index idx)

-- `vals`, the match index of each peer.
unfoldable pub match_values : List ℕ → Map → List ℕ
match_values [] match_index = []
match_values (id ∷ ids) match_index = read match_index id ∷ match_values ids match_index

-- `sort.Slice` with `vals[i] > vals[j]`: the values in descending order.
unfoldable pub insert_desc : ℕ → List ℕ → List ℕ
insert_desc v [] = v ∷ []
insert_desc v (x ∷ xs) = if leb x v then v ∷ x ∷ xs else x ∷ insert_desc v xs

unfoldable pub sort_desc : List ℕ → List ℕ
unfolding insert_desc
sort_desc [] = []
sort_desc (x ∷ xs) = insert_desc x (sort_desc xs)

-- The loop over the sorted values: the first one that is not 0 and can be committed.
unfoldable pub first_committable : ConfState → Map → List ℕ → ℕ
first_committable c match_index [] = 0
first_committable c match_index (idx ∷ vals) =
    let rest = first_committable c match_index vals in
    if idx == 0 then rest else if can_commit c idx match_index then idx else rest

unfoldable pub max_commit_index : ConfState → Map → ℕ
unfolding sort_desc first_committable match_values
max_commit_index c match_index =
    first_committable c match_index (sort_desc (match_values (all_peer_ids c) match_index))
