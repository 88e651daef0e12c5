-- ===== src/Node/Running.antt =====
-- The goroutine run of raft/node.go, and the calls that read a node.
use distkv.Prelude.{ℕ, Bool, List, [], ltb, if◌then◌else◌}
use distkv.Codec.{Bytes}
use distkv.Wal.{close}
use distkv.DiskStorage.{last_index}
use distkv.Node.{Node, Env, follower, candidate, leader, Message, is_leader, broadcast_append}
use distkv.Node.Election.{start_election}

-- One turn of run, at a kick or at a tick of the timer.
unfoldable pub run_turn : Env → Node → Node × List Message
unfolding start_election broadcast_append
run_turn env n =
    let elected = start_election env n in
    elim n.role [
      | leader ↦ broadcast_append env n
      | follower ↦ if ltb n.election_deadline env.now then elected else (n, [])
      | candidate ↦ if ltb n.election_deadline env.now then elected else (n, [])
    ]

-- Stop, when the goroutines have ended: the storage is closed.
unfoldable pub stop : Node → Node
stop n = record n { store = record n.store { wal = (close n.store.wal).0 } }

-- Status: the term, whether the node leads, and the leader that it knows.
unfoldable pub node_status : Node → ℕ × Bool × ℕ
node_status n = (n.store.term, is_leader n.role, n.leader_id)

unfoldable pub last_log_index : Node → ℕ
last_log_index n = last_index n.store

unfoldable pub read_snapshot : Node → Bytes × ℕ × ℕ
read_snapshot n = (n.store.snapshot, n.store.snap_index, n.store.snap_term)
