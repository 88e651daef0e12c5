-- ===== src/Server.antt =====
-- server/server.go: the Raft node's messages applied to the state machine, and the calls that wait
-- for them.
pub mod Requests
pub mod Members
pub mod Snapshots
pub mod Reads
pub mod Replicas
use distkv.Prelude.{
  ℕ, zero, suc, ◌+◌, ◌≡◌, Bool, true, false, Option, none, some, List, [], ◌∷◌, ltb, leb, ◌==◌, not,
  ◌&&◌, if◌then◌else◌, length,
}
use distkv.Codec.{Bytes}
use distkv.IdMap.{look, del, put}
use distkv.ConfState.Change.{ConfChange, add_node, remove_node, leave_joint, other_type}
use distkv.Node.Membership.{ApplyMsg, command_msg, conf_change_msg, snapshot_msg}
use distkv.Transport.{Transport, set_peer, remove_peer, new_transport}
use distkv.StateMachine.{Command, Engine, Gob, Machine, apply, restore, snapshot, new_state_machine}

abbrev pub snapshot_threshold : ℕ
snapshot_threshold = 10000

-- encodeCommand and decodeCommand, by encoding/gob, which gives back what was encoded.
pub record CommandGob : Type 0 where
  pub encode_command : Command → Option Bytes
  pub decode_command : Bytes → Option Command
  pub decode_command-encode_command :
      (c : Command) (b : Bytes) → encode_command c ≡ some b → decode_command b ≡ some c

-- The term of the entry that was applied, and whether it was applied without an error.
pub record WaitResult : Type 0 where
  pub term : ℕ
  pub applied_well : Bool

-- A waiter is the number of the call that made the channel. `channels` has what was sent on a
-- channel, and `snapshots` the calls of node.Snapshot, the last one first.
pub record Server (E C : Type 0) : Type 0 where
  pub machine : Machine E
  pub transport : Option (Transport C)
  pub waiters : List (ℕ × ℕ)
  pub channels : List (ℕ × WaitResult)
  pub applied : ℕ
  pub since_snap : ℕ
  pub snapshots : List (ℕ × Bytes)

module _ {C : Type 0} (dial : Bytes → Option C) where
  -- onConfChangeApplied.
  unfoldable pub on_conf_change_applied : ConfChange → Option (Transport C) → Option (Transport C)
  on_conf_change_applied cc none = none
  on_conf_change_applied cc (some t) = elim cc.kind [
    | add_node ↦
        some (if ltb 0 (length cc.context) then set_peer dial cc.node_id cc.context t else t)
    | remove_node ↦ some (remove_peer dial cc.node_id t)
    | leave_joint ↦ some t
    | other_type k ↦ some t
  ]

module _ {E C : Type 0} where
  -- The send on the channel that waits for the index, if there is one, and its removal. The channel
  -- has room for one result: with one in it, the send blocks for good, with the mutex locked.
  unfoldable pub notify : ℕ → WaitResult → Server E C → Option (Server E C)
  notify index res s = elim (look index s.waiters) [
    | none ↦ some s
    | some ch ↦ elim (look ch s.channels) [
      | some old ↦ none
      | none ↦ some (record s { channels = put ch res s.channels; waiters = del index s.waiters })
    ]
  ]

module _ {E : Type 0} (api : Engine E) (coding : CommandGob) where
  -- A committed command on the machine, and whether that succeeds. An empty command is the no-op of
  -- a new leader.
  unfoldable pub apply_command : Bytes → Machine E → Machine E × Bool
  apply_command [] m = (m, true)
  apply_command (b ∷ bs) m = elim (coding.decode_command (b ∷ bs)) [
    | none ↦ (m, false)
    | some c ↦ apply api c m
  ]

module _ {E C : Type 0} (api : Engine E) (gob : Gob) where
  -- The automatic snapshot at the index.
  unfoldable pub take_snapshot : ℕ → Server E C → Server E C
  take_snapshot index s = record s {
    snapshots = elim (snapshot api gob s.machine) [
      | none ↦ s.snapshots
      | some bytes ↦ (index, bytes) ∷ s.snapshots
    ];
  }

  unfoldable pub after_notify : Bool → ℕ → Option (Server E C) → Option (Server E C)
  unfolding take_snapshot
  after_notify need_snap index none = none
  after_notify need_snap index (some s) = some (if need_snap then take_snapshot index s else s)

module _ {E C : Type 0} (api : Engine E) (gob : Gob) (dial : Bytes → Option C) where
  -- The second half of New: the node has a snapshot, if its index is not 0.
  unfoldable pub new_server : E → List (ℕ × Bytes) → Bytes → ℕ → Option (Server E C)
  new_server engine addrs snap idx =
      let s : Server E C = record {
        machine = new_state_machine api engine;
        transport = some (new_transport dial addrs);
        waiters = [];
        channels = [];
        applied = 0;
        since_snap = 0;
        snapshots = [];
      } in
      if not (ltb 0 idx)
      then some s
      else (let (m, ok) = restore api gob snap s.machine in
          if not ok then none else some (record s { machine = m; applied = idx }))

module _ {E C : Type 0} (api : Engine E) (gob : Gob) (coding : CommandGob)
    (dial : Bytes → Option C) where
  -- One turn of applyLoop, or none where it blocks.
  unfoldable pub on_message : ApplyMsg → Server E C → Option (Server E C)
  unfolding notify apply_command after_notify on_conf_change_applied
  on_message (snapshot_msg bytes index term) s =
      let (m, ok) = restore api gob bytes s.machine in
      some (if not ok then record s { machine = m } else record s { machine = m; applied = index })
  on_message (conf_change_msg cc index term) s =
      notify index (record { term = term; applied_well = true })
        (record s { transport = on_conf_change_applied dial cc s.transport; applied = index })
  on_message (command_msg content index term) s =
      let (m, ok) = apply_command api coding content s.machine in
      let need_snap = leb snapshot_threshold (s.since_snap + 1) in
      after_notify api gob need_snap index (
        notify index (record { term = term; applied_well = ok })
          (record s {
            machine = m;
            applied = index;
            since_snap = if need_snap then 0 else s.since_snap + 1;
          }))
