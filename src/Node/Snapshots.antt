-- ===== src/Node/Snapshots.antt =====
-- HandleInstallSnapshot, Snapshot and the ReadIndex handling of raft/node.go.
use distkv.Prelude.{
  ℕ, ◌+◌, Bool, true, false, Option, none, some, ltb, leb, ◌==◌, not, ◌&&◌, ◌||◌, if◌then◌else◌,
  length, max,
}
use distkv.Codec.{Bytes}
use distkv.ConfState.{ConfState, in_joint, majority, all_peer_ids}
use distkv.ConfState.Change.{ConfResult}
use distkv.ConfState.Encoding.{decode_conf_state}
use distkv.DiskStorage.{EntryProto, term_at}
use distkv.DiskStorage.Compaction.{save_snapshot}
use distkv.Node.{
  Node, Env, is_leader, is_follower, is_candidate, SnapshotRequest, reset_election_timer, step_down,
}
use distkv.Node.Membership.{ApplyMsg, snapshot_msg}

-- The membership that comes with a snapshot, unless it does not decode.
unfoldable pub sent_membership : Bytes → ConfState → ConfState
sent_membership bytes conf =
    let decoded : ConfState = elim (decode_conf_state bytes) [
      | ConfResult.ok cs ↦ cs
      | ConfResult.err e ↦ conf
      | ConfResult.panic ↦ conf
    ] in
    if ltb 0 (length bytes) then decoded else conf

-- What HandleInstallSnapshot leaves: the term of its answer, the message for the state machine,
-- and whether the mutex was released. The mutex is taken on entry; there is no deferred unlock.
pub record Installed : Type 0 where
  pub node : Node
  pub resp_term : ℕ
  pub message : Option ApplyMsg
  pub released : Bool

module _ (proto : EntryProto) where
  -- The part behind the term check.
  unfoldable pub install_snapshot : SnapshotRequest → Node → Installed
  unfolding sent_membership
  install_snapshot req n =
      let conf = sent_membership req.conf_state n.conf in
      let (store, saved) =
        save_snapshot proto n.store req.last_included_index req.last_included_term req.content
          conf in
      if leb req.last_included_index n.store.snap_index
      then record { node = n; resp_term = n.store.term; message = none; released = true }
      else if not saved
      then record {
        node = record n { store = store };
        resp_term = n.store.term;
        message = none;
        released = false;
      }
      else record {
        node = record n {
          store = store;
          conf = conf;
          commit_index = req.last_included_index;
          last_applied = req.last_included_index;
        };
        resp_term = n.store.term;
        message = some (snapshot_msg req.content req.last_included_index req.last_included_term);
        released = true;
      }

  unfoldable pub handle_install_snapshot : Env → SnapshotRequest → Node → Installed
  unfolding step_down install_snapshot reset_election_timer
  handle_install_snapshot env req n =
      let n1 =
        if ltb n.store.term req.term || not (is_follower n.role)
        then step_down env req.term n
        else n in
      if ltb req.term n.store.term
      then record { node = n; resp_term = n.store.term; message = none; released = true }
      else install_snapshot req (reset_election_timer env (record n1 { leader_id = req.leader_id }))

  -- Snapshot: the state machine's own snapshot at an index that is applied.
  unfoldable pub snapshot : ℕ → Bytes → Node → Node × Bool
  snapshot index bytes n =
      if ltb n.last_applied index then (n, false) else elim (term_at n.store index) [
        | none ↦ (n, true)
        | some term ↦
            let (store, saved) = save_snapshot proto n.store index term bytes n.conf in
            (record n { store = store }, saved)
      ]

-- What ReadIndex holds on to while it waits: the read index, the term and the acks needed.
pub record PendingRead : Type 0 where
  pub read_index : ℕ
  pub term : ℕ
  pub need : ℕ
  pub acks : ℕ

-- The start of ReadIndex: none when the node is not the leader.
unfoldable pub start_read : Node → Option PendingRead
start_read n =
    let peers_majority = majority (length (all_peer_ids n.conf)) in
    let need =
      if in_joint n.conf
      then max (max peers_majority (majority (length n.conf.joint)))
          (majority (length n.conf.voters))
      else peers_majority in
    if not (is_leader n.role)
    then none
    else some (record { read_index = n.commit_index; term = n.store.term; need = need; acks = 1 })

-- The answer of a peer to a ReadIndex request.
pub record ReadResponse : Type 0 where
  pub term : ℕ
  pub ack : Bool

-- One answer, in the goroutine that asked.
unfoldable pub on_read_response : Env → ReadResponse → PendingRead → Node → Node × PendingRead
unfolding step_down
on_read_response env resp r n =
    if ltb n.store.term resp.term
    then (step_down env resp.term n, r)
    else if not (is_leader n.role) || not (n.store.term == r.term)
    then (n, r)
    else if resp.ack
    then (n, record r { acks = r.acks + 1 })
    else (n, r)

-- The end of ReadIndex when the acks are there: the read index, if the node still leads that term.
-- The wait is over only by an ack, so at least one answer was counted.
unfoldable pub finish_read : PendingRead → Node → Option ℕ
finish_read r n =
    if ltb 1 r.acks && leb r.need r.acks && (is_leader n.role && n.store.term == r.term)
    then some r.read_index
    else none

unfoldable pub handle_read_index : Env → ℕ → ℕ → Node → Node × ReadResponse
unfolding step_down reset_election_timer
handle_read_index env term leader_id n =
    let n1 = if ltb n.store.term term then step_down env term n else n in
    if ltb term n.store.term
    then (n, record { term = n.store.term; ack = false })
    else if not (term == n1.store.term) || is_candidate n1.role
    then (n1, record { term = n.store.term; ack = false })
    else (
      reset_election_timer env (record n1 { leader_id = leader_id }),
      record { term = n.store.term; ack = true },
    )
