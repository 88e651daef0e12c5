-- ===== src/Node/Membership.antt =====
-- Propose, ProposeConfChange, applyConfChangeLocked and one turn of the applier of raft/node.go.
use distkv.Prelude.{
  ℕ, zero, suc, ◌+◌, ◌-◌, Bool, true, false, Option, none, some, List, [], ◌∷◌, ltb, leb, ◌==◌, not,
  ◌&&◌, if◌then◌else◌, length, u64,
}
use distkv.Codec.{Bytes}
use distkv.ConfState.{write, erase, in_joint}
use distkv.ConfState.Change.{
  ConfChange, ConfChangeType, ConfError, ConfResult, add_node, remove_node, leave_joint, other_type,
  apply_conf_change, conf_change_in_progress,
}
use distkv.DiskStorage.{
  Entry, EntryProto, entry_normal, entry_conf_change, first_index, last_index, entry_at,
  append_entries, set_conf_state,
}
use distkv.Node.{Node, follower, is_leader, kick_run}

-- What a proposal returns: the index and term of its entry, or the reason that it is refused.
pub data Proposal : Type 0 where
  accepted : ℕ → ℕ → Proposal
  not_leader : Proposal
  refused : ConfError → Proposal
  not_written : Proposal
  panicked : Proposal

module _ (proto : EntryProto) where
  -- appendEntryLocked.
  unfoldable pub append_entry : Entry → Node → Node × Proposal
  append_entry e n =
      let (store, appended) = append_entries proto n.store (e ∷ []) in
      if not appended then (record n { store = store }, not_written) else (
        kick_run (record n { store = store; match_index = write n.match_index n.cfg.id e.index }),
        accepted e.index e.term,
      )

  unfoldable pub propose : Bytes → Node → Node × Proposal
  unfolding append_entry
  propose command n =
      if not (is_leader n.role)
      then (n, not_leader)
      else append_entry
          (record {
            term = n.store.term;
            index = u64 (last_index n.store + 1);
            content = command;
            kind = entry_normal;
            conf_change = none;
          })
          n

  unfoldable pub is_leave : ConfChangeType → Bool
  is_leave leave_joint = true
  is_leave _ = false

  unfoldable pub propose_conf_change : ConfChange → Node → Node × Proposal
  unfolding append_entry is_leave
  propose_conf_change cc n =
      if not (is_leader n.role)
      then (n, not_leader)
      else if not (is_leave cc.kind) && in_joint n.conf
      then (n, refused conf_change_in_progress)
      else elim (apply_conf_change n.conf cc) [
        | ConfResult.err e ↦ (n, refused e)
        | ConfResult.panic ↦ (n, panicked)
        | ConfResult.ok next ↦
            append_entry
              (record {
                term = n.store.term;
                index = u64 (last_index n.store + 1);
                content = [];
                kind = entry_conf_change;
                conf_change = some cc;
              })
              n
      ]

-- The address book after a change.
unfoldable pub change_addrs : ConfChange → (ℕ → Option Bytes) → ℕ → Option Bytes
change_addrs cc addrs j = elim cc.kind [
  | add_node ↦ if ltb 0 (length cc.context) && cc.node_id == j then some cc.context else addrs j
  | remove_node ↦ if cc.node_id == j then none else addrs j
  | leave_joint ↦ addrs j
  | other_type t ↦ addrs j
]

-- A node that is removed gives up its role.
unfoldable pub retire : ConfChange → Node → Node
retire cc n = elim cc.kind [
  | add_node ↦ n
  | remove_node ↦ if cc.node_id == n.cfg.id then record n { role = follower; leader_id = 0 } else n
  | leave_joint ↦ n
  | other_type t ↦ n
]

-- `for id := range n.conf.Voters`: each voter that the leader does not track yet.
unfoldable pub track_all : List ℕ → ℕ → Node → Node
track_all [] next n = n
track_all (id ∷ ids) next n = track_all ids next (elim (n.next_index id) [
  | some i ↦ n
  | none ↦ record n {
    next_index = write n.next_index id next;
    match_index = write n.match_index id 0;
  }
])

-- The leader's maps after a change.
unfoldable pub track : ConfChange → Node → Node
unfolding track_all
track cc n = if not (is_leader n.role && n.progress) then n else elim cc.kind [
  | add_node ↦ elim (n.next_index cc.node_id) [
    | some i ↦ n
    | none ↦ record n {
      next_index = write n.next_index cc.node_id (first_index n.store);
      match_index = write n.match_index cc.node_id 0;
    }
  ]
  | remove_node ↦ record n {
    next_index = erase n.next_index cc.node_id;
    match_index = erase n.match_index cc.node_id;
    last_sent_at = erase n.last_sent_at cc.node_id;
  }
  | leave_joint ↦ track_all n.conf.voters (u64 (last_index n.store + 1)) n
  | other_type t ↦ n
]

-- applyConfChangeLocked, whose error is only logged. `panic` stands for a panic of the node.
unfoldable pub apply_conf_change_locked : ConfChange → Node → Option Node
unfolding change_addrs retire track
apply_conf_change_locked cc n = elim (apply_conf_change n.conf cc) [
  | ConfResult.err e ↦ some n
  | ConfResult.panic ↦ none
  | ConfResult.ok next ↦
      let n1 = track cc (retire cc (record n { conf = next; addrs = change_addrs cc n.addrs })) in
      some (record n1 { store = (set_conf_state n1.store n1.conf).0 })
]

-- The two kinds of message that the applier sends for an entry.
pub data ApplyMsg : Type 0 where
  command_msg : Bytes → ℕ → ℕ → ApplyMsg
  conf_change_msg : ConfChange → ℕ → ℕ → ApplyMsg
  snapshot_msg : Bytes → ℕ → ℕ → ApplyMsg

abbrev pub membership_change : Entry → Option ConfChange
membership_change e = elim e.kind [ entry_normal ↦ none | entry_conf_change ↦ e.conf_change ]

unfoldable pub apply_entry : Entry → Node → Option (Node × ApplyMsg)
unfolding apply_conf_change_locked
apply_entry e n = elim (membership_change e) [
  | none ↦ some (n, command_msg e.content e.index e.term)
  | some cc ↦ elim (apply_conf_change_locked cc n) [
    | none ↦ none
    | some n' ↦ some (n', conf_change_msg cc e.index e.term)
  ]
]

-- The loop of the applier that collects messages: `none` is a panic (an entry that is not there,
-- or a change that panics). Each turn raises `last_applied`, so the distance to the commit index
-- is fuel enough.
unfoldable pub apply_loop : ℕ → Node → Option (Node × List ApplyMsg)
unfolding apply_entry
apply_loop zero n = some (n, [])
apply_loop (suc fuel) n =
    let next = u64 (n.last_applied + 1) in
    let skipped = apply_loop fuel (record n { last_applied = n.store.snap_index }) in
    let applied : Option (Node × List ApplyMsg) = elim (entry_at n.store next) [
      | none ↦ none
      | some e ↦ elim (apply_entry e n) [
        | none ↦ none
        | some (n', msg) ↦ elim (apply_loop fuel (record n' { last_applied = next })) [
          | none ↦ none
          | some (n'', msgs) ↦ some (n'', msg ∷ msgs)
        ]
      ]
    ] in
    if leb n.commit_index n.last_applied
    then some (n, [])
    else if ltb next (first_index n.store)
    then skipped
    else applied

unfoldable pub applier_turn : Node → Option (Node × List ApplyMsg)
unfolding apply_loop
applier_turn n = apply_loop (n.commit_index - n.last_applied) n
