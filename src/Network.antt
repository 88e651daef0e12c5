-- ===== src/Network.antt =====
-- harness/network.go: the simulated network between the Raft nodes of one process. Rates and
-- random draws are numbers of one unit. The calls of one exchange see the same faults; a sleep
-- between them has no effect on the state.
pub mod Partition
use distkv.Prelude.{
  ℕ, suc, Bool, true, false, Option, none, some, List, [], ◌∷◌, ◌++◌, ltb, ◌==◌, if◌then◌else◌, not,
  ◌&&◌, ◌||◌, ◌%◌,
}
use distkv.ConfState.{Map, read, write}
use distkv.DiskStorage.{EntryProto}
use distkv.Node.{
  Node, Env, VoteRequest, VoteResponse, AppendRequest, AppendResponse, SnapshotRequest,
}
use distkv.Node.Election.{handle_request_vote}
use distkv.Node.Replication.{handle_append_entries}
use distkv.Node.Snapshots.{ReadResponse, handle_install_snapshot, handle_read_index}

pub record SimNetwork : Type 0 where
  pub nodes : ℕ → Option Node
  pub discon : ℕ → Bool
  pub cut_links : ℕ → ℕ → Bool
  pub drop_rate : ℕ
  pub max_delay : ℕ

abbrev pub no_links : ℕ → ℕ → Bool
no_links a b = false

unfoldable pub new_sim_network : SimNetwork
new_sim_network = record {
  nodes = λ _. none;
  discon = λ _. false;
  cut_links = no_links;
  drop_rate = 0;
  max_delay = 0;
}

abbrev pub set_node : ℕ → Option Node → SimNetwork → SimNetwork
set_node id n s = record s { nodes = λ j. if id == j then n else s.nodes j }

unfoldable pub register : ℕ → Node → SimNetwork → SimNetwork
register id n s = set_node id (some n) s

unfoldable pub unregister : ℕ → SimNetwork → SimNetwork
unregister id s = set_node id none s

unfoldable pub disconnect : ℕ → SimNetwork → SimNetwork
disconnect id s = record s { discon = λ j. if id == j then true else s.discon j }

unfoldable pub reconnect : ℕ → SimNetwork → SimNetwork
reconnect id s = record s { discon = λ j. if id == j then false else s.discon j }

-- The loop that gives the members of one group its number; a later group wins.
unfoldable pub number_group : ℕ → List ℕ → Map → Map
number_group gi [] group = group
number_group gi (id ∷ ids) group = number_group gi ids (write group id gi)

unfoldable pub number_groups : ℕ → List (List ℕ) → Map → Map
unfolding number_group
number_groups gi [] group = group
number_groups gi (g ∷ gs) group = number_groups (suc gi) gs (number_group gi g group)

unfoldable pub all_ids : List (List ℕ) → List ℕ
all_ids [] = []
all_ids (g ∷ gs) = g ++ all_ids gs

-- The inner loop, for one `a`.
unfoldable pub cut_from : Map → ℕ → List ℕ → (ℕ → ℕ → Bool) → ℕ → ℕ → Bool
cut_from group a [] links = links
cut_from group a (b ∷ bs) links = cut_from group a bs (
    if not (a == b) && not (read group a == read group b)
    then (λ x y. if a == x && b == y then true else links x y)
    else links)

unfoldable pub cut_pairs : Map → List ℕ → List ℕ → (ℕ → ℕ → Bool) → ℕ → ℕ → Bool
unfolding cut_from
cut_pairs group [] all links = links
cut_pairs group (a ∷ rest) all links = cut_pairs group rest all (cut_from group a all links)

unfoldable pub partition : List (List ℕ) → SimNetwork → SimNetwork
unfolding number_groups all_ids cut_pairs
partition groups s =
    let group = number_groups 0 groups (λ _. none) in
    record s { cut_links = cut_pairs group (all_ids groups) (all_ids groups) no_links }

unfoldable pub heal : SimNetwork → SimNetwork
heal s = record s { cut_links = no_links; discon = λ _. false }

unfoldable pub set_drop_rate : ℕ → SimNetwork → SimNetwork
set_drop_rate p s = record s { drop_rate = p }

unfoldable pub set_max_delay : ℕ → SimNetwork → SimNetwork
set_max_delay d s = record s { max_delay = d }

-- The draws of rand.Float64 and rand.Int63n.
pub record Draws : Type 0 where
  pub chance : ℕ
  pub delay : ℕ

-- The target node and the delay, or errUnreachable.
unfoldable pub route : Draws → ℕ → ℕ → SimNetwork → Option (Node × ℕ)
route d from to s =
    if s.discon from || (s.discon to || s.cut_links from to)
    then none
    else if ltb 0 s.drop_rate && ltb d.chance s.drop_rate
    then none
    else elim (s.nodes to) [
      | none ↦ none
      | some n ↦ some (n, if ltb 0 s.max_delay then d.delay % s.max_delay else 0)
    ]

unfoldable pub is_connected : ℕ → SimNetwork → Bool
is_connected id s = not (s.discon id)

-- The shape that the four methods of simTransport share: the request crosses the network, the
-- target handles it, and the reply crosses back.
unfoldable pub exchange {ℓ} :
    {R : Type ℓ} → (Node → Node × R) → Draws → Draws → ℕ → ℕ → SimNetwork → SimNetwork × Option R
unfolding route
exchange handle there back from peer s = elim (route there from peer s) [
  | none ↦ (s, none)
  | some (n, delay) ↦
      let (n', resp) = handle n in
      let s' = set_node peer (some n') s in
      elim (route back peer from s') [ none ↦ (s', none) | some r ↦ (s', some resp) ]
]

module _ (there back : Draws) (from peer : ℕ) where
  unfoldable pub request_vote : Env → VoteRequest → SimNetwork → SimNetwork × Option VoteResponse
  unfolding exchange
  request_vote env req s = exchange (handle_request_vote env req) there back from peer s

  unfoldable pub send_entries :
      EntryProto → Env → AppendRequest → SimNetwork → SimNetwork × Option AppendResponse
  unfolding exchange
  send_entries proto env req s =
      exchange (handle_append_entries proto env req) there back from peer s

  -- The answer of an installation is its term. Whether the mutex was released is not followed.
  unfoldable pub send_snapshot :
      EntryProto → Env → SnapshotRequest → SimNetwork → SimNetwork × Option ℕ
  unfolding exchange
  send_snapshot proto env req s =
      exchange (λ n. let r = handle_install_snapshot proto env req n in (r.node, r.resp_term)) there
        back from peer s

  unfoldable pub send_read_index : Env → ℕ → ℕ → SimNetwork → SimNetwork × Option ReadResponse
  unfolding exchange
  send_read_index env term leader_id s =
      exchange (handle_read_index env term leader_id) there back from peer s
