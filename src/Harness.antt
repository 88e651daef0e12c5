-- ===== src/Harness.antt =====
-- harness/cluster.go: the cluster of the tests, with the commands that each of its nodes has applied.
-- The nodes themselves and the network are those of the other modules: here a node is its id.
pub mod Consistency
pub mod Polling
pub mod Leading
use distkv.Prelude.{
  ℕ, ◌≡◌, Bool, true, false, Option, none, some, List, [], ◌∷◌, ◌++◌, ltb, leb, ◌==◌, not, ◌&&◌,
  ◌||◌, if◌then◌else◌, length,
}
use distkv.Codec.{Bytes}
use distkv.Text.{same}
use distkv.IdMap.{look, put}
use distkv.Node.Membership.{ApplyMsg, command_msg, conf_change_msg, snapshot_msg}

pub record AppliedEntry : Type 0 where
  pub index : ℕ
  pub content : Bytes

-- `nodes` are the ids that have been started, in the order of the map's range.
pub record Cluster : Type 0 where
  pub ids : List ℕ
  pub nodes : List ℕ
  pub applied : List (ℕ × List AppliedEntry)
  pub stopped : List (ℕ × Bool)

-- Reads of the two maps: a missing id has applied nothing and is not stopped.
abbrev pub entries_or_none : Option (List AppliedEntry) → List AppliedEntry
entries_or_none none = []
entries_or_none (some es) = es

abbrev pub flag_or_false : Option Bool → Bool
flag_or_false none = false
flag_or_false (some b) = b

unfoldable pub applied_by : ℕ → Cluster → List AppliedEntry
applied_by id c = entries_or_none (look id c.applied)

unfoldable pub is_stopped : ℕ → Cluster → Bool
is_stopped id c = flag_or_false (look id c.stopped)

unfoldable pub among : ℕ → List ℕ → Bool
among id [] = false
among id (j ∷ js) = (j == id) || among id js

-- startNode, as far as the cluster's own record goes.
unfoldable pub mark_started : ℕ → Cluster → Cluster
unfolding among
mark_started id c = record c {
  nodes = if among id c.nodes then c.nodes else c.nodes ++ id ∷ [];
  stopped = put id false c.stopped;
}

-- The goroutine that drains a node's channel: one message.
unfoldable pub drain : ℕ → ApplyMsg → Cluster → Cluster
unfolding applied_by
drain id (command_msg [] index term) c = c
drain id (command_msg (b ∷ bs) index term) c =
    let e : AppliedEntry = record { index = index; content = b ∷ bs } in
    record c { applied = put id (applied_by id c ++ e ∷ []) c.applied }
drain id (conf_change_msg cc index term) c = c
drain id (snapshot_msg bytes index term) c = c

unfoldable pub mark_stopped : ℕ → Cluster → Cluster
mark_stopped id c = record c { stopped = put id true c.stopped }

unfoldable pub restart_node : ℕ → Cluster → Cluster
unfolding mark_started
restart_node id c = mark_started id (record c { applied = put id [] c.applied })

-- `1` to `n`, and each of them started.
unfoldable pub start_all : List ℕ → Cluster → Cluster
unfolding mark_started
start_all [] c = c
start_all (id ∷ ids) c = start_all ids (mark_started id c)

unfoldable pub without_id : ℕ → List ℕ → List ℕ
without_id id [] = []
without_id id (x ∷ xs) = let rest = without_id id xs in if not (x == id) then x ∷ rest else rest

-- AddMember: the test's failure is none; otherwise the ids that the new node starts with.
unfoldable pub add_to_cluster : ℕ → Cluster → Option (Cluster × List ℕ)
unfolding among without_id mark_started
add_to_cluster id c =
    if among id c.ids
    then none
    else (let ids = c.ids ++ id ∷ [] in
        some (mark_started id (record c { ids = ids }), without_id id ids))

-- RemoveMember, when the membership has changed.
unfoldable pub remove_from_cluster : ℕ → Cluster → Cluster
unfolding mark_stopped without_id
remove_from_cluster id c = let c1 = mark_stopped id c in record c1 { ids = without_id id c1.ids }

-- The nodes that Shutdown stops.
unfoldable pub running_nodes : List ℕ → Cluster → List ℕ
unfolding is_stopped
running_nodes [] c = []
running_nodes (id ∷ ids) c =
    let rest = running_nodes ids c in if not (is_stopped id c) then id ∷ rest else rest

-- What CheckConsistency ends with: its two maps, or the failure that it reports, an index with a
-- node and its command, and with the other command and its node.
pub data Verdict : Type 0 where
  consistent : List (ℕ × Bytes) → List (ℕ × ℕ) → Verdict
  divergence : ℕ → ℕ → Bytes → Bytes → Option ℕ → Verdict

-- The inner loop, over the entries of one node.
unfoldable pub check_entries : ℕ → List AppliedEntry → List (ℕ × Bytes) → List (ℕ × ℕ) → Verdict
check_entries id [] seen owner = consistent seen owner
check_entries id (e ∷ es) seen owner =
    let old = check_entries id es seen owner in
    let new = check_entries id es (put e.index e.content seen) (put e.index id owner) in
    elim (look e.index seen) [
      | none ↦ new
      | some prev ↦
          if not (same prev e.content)
          then divergence e.index id e.content prev (look e.index owner)
          else old
    ]

unfoldable pub check_nodes : List ℕ → Cluster → List (ℕ × Bytes) → List (ℕ × ℕ) → Verdict
unfolding check_entries applied_by
check_nodes [] c seen owner = consistent seen owner
check_nodes (id ∷ ids) c seen owner = elim (check_entries id (applied_by id c) seen owner) [
  | consistent seen1 owner1 ↦ check_nodes ids c seen1 owner1
  | divergence index node content prev other ↦ divergence index node content prev other
]

unfoldable pub check_consistency : Cluster → Verdict
unfolding check_nodes
check_consistency c = check_nodes c.nodes c [] []
