-- ===== src/Tests/Programs.antt =====
-- A history and its parts, a cluster that agrees and one that does not, and command lines.
use distkv.Prelude.{
  ℕ, ◌+◌, ◌≡◌, ◌⊎◌, ◌↔◌, refl, Bool, true, false, none, some, List, [], ◌∷◌, map, arith,
}
use distkv.Codec.{Bytes}
use distkv.IdSet.{contains}
use distkv.Text.{same, less}
use distkv.KvModel.{put_op}
use distkv.KvModel.Groups.{members, has, names, belonging, Ascending}
use distkv.KvModel.Histories.{
  Operation, partition_history, tag_operations, partition_history-belonging,
}
use distkv.Harness.{Cluster, check_consistency, divergence}
use distkv.Harness.Consistency.{Tells, check_consistency-Tells}
use distkv.IdMap.{look, put}
use distkv.Programs.{
  Flags, Options, options_of, ids_of, peer_ids, members_cmd, index_panic, add_word, remove_word,
}
use distkv.Programs.Specs.{Plain, format_specs, last_address, options_of-peers}
use distkv.Programs.MembersCmd.{members_cmd-panic}

-- Two clients write key 5, and one of them reads key 3.
abbrev op_on : Bytes → ℕ → Operation
op_on key at = record {
  client_id = at;
  input = record { op = put_op; key = key; value = at ∷ [] };
  call = at;
  output = record { value = []; found = false };
  return_time = at + 1;
}

abbrev history : List Operation
history = op_on (5 ∷ []) 1 ∷ op_on (3 ∷ []) 2 ∷ op_on (5 ∷ []) 3 ∷ []

partition_history-belonging_example :
    (ks : List Bytes) × (partition_history history
      ≡ map (λ k. belonging k (tag_operations history)) ks)
    × Ascending ks
    × ((k : Bytes) → has k ks ≡ names k (tag_operations history))
partition_history-belonging_example = partition_history-belonging history

history_parts :
    partition_history history
    ≡ (op_on (3 ∷ []) 2 ∷ []) ∷ (op_on (5 ∷ []) 1 ∷ op_on (5 ∷ []) 3 ∷ []) ∷ []
unfolding partition_history same less members
history_parts = refl

-- Nodes 1 and 2 have applied different commands at index 4.
abbrev torn_cluster : Cluster
torn_cluster = record {
  ids = 1 ∷ 2 ∷ [];
  nodes = 1 ∷ 2 ∷ [];
  applied =
      (1, record { index = 4; content = 8 ∷ [] } ∷ [])
      ∷ (2, record { index = 4; content = 9 ∷ [] } ∷ [])
      ∷ [];
  stopped = [];
}

check_consistency-Tells_example : Tells torn_cluster (check_consistency torn_cluster)
check_consistency-Tells_example = check_consistency-Tells torn_cluster

torn_found : check_consistency torn_cluster ≡ divergence 4 2 (9 ∷ []) (8 ∷ []) (some 1)
unfolding check_consistency look put same
torn_found = refl

-- `-id 1 -dir d -kv 7 -raft 8 -peers 1=8,2=9`
abbrev flags : Flags
flags = record {
  id = 1;
  dir = 100 ∷ [];
  kv_addr = 55 ∷ [];
  raft_addr = 56 ∷ [];
  peers_flag = format_specs (1, 56 ∷ []) ((2, 57 ∷ []) ∷ []);
  join_flag = [];
}

flags-Plain : Plain ((1, 56 ∷ []) ∷ (2, 57 ∷ []) ∷ [])
flags-Plain = ((ground arith, (ground arith, tt)), ((ground arith, (ground arith, tt)), tt))

options_of-peers_example :
    (o : Options) × (options_of flags ≡ some o)
    × ((id : ℕ) → look id o.peers ≡ last_address id ((1, 56 ∷ []) ∷ (2, 57 ∷ []) ∷ []) none)
    × ((id : ℕ)
        → contains (peer_ids o) id ≡ contains (ids_of ((1, 56 ∷ []) ∷ (2, 57 ∷ []) ∷ [])) id)
options_of-peers_example =
    options_of-peers flags (1, 56 ∷ []) ((2, 57 ∷ []) ∷ []) refl flags-Plain refl

abbrev any_address : Bytes → Bool
any_address addr = true

members_cmd-panic_example :
    (members_cmd any_address ((55 ∷ []) ∷ []) (add_word ∷ []) ≡ index_panic) ↔ (
      (any_address (55 ∷ []) ≡ true)
      × ((add_word ∷ [] ≡ add_word ∷ []) ⊎ (add_word ∷ [] ≡ remove_word ∷ [])))
members_cmd-panic_example = members_cmd-panic any_address (55 ∷ []) [] (add_word ∷ [])
