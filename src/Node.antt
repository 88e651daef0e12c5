-- ===== src/Node.antt =====
-- raft/node.go: the state of a Raft node, its messages and the steps that several handlers share.
-- A handler is a function on the state that the mutex guards; the requests that it sends from new
-- goroutines are listed in its result, and each answer is a later step.
pub mod Election
pub mod Replication
pub mod Membership
pub mod Snapshots
pub mod HardState
pub mod Voting
pub mod VoteDurability
pub mod Commitment
pub mod Contiguous
pub mod Hazards
pub mod Running
use distkv.Prelude.{
  ℕ, zero, suc, ◌+◌, ◌-◌, ◌%◌, Bool, true, false, Option, none, some, List, [], ◌∷◌, ◌++◌, ltb, leb,
  ◌==◌, if◌then◌else◌, length, u64, max, not, ◌&&◌,
}
use distkv.Codec.{Bytes}
use distkv.ConfState.{ConfState, Map, read, write, erase, all_peer_ids, max_commit_index}
use distkv.ConfState.Encoding.{encode_conf_state}
use distkv.DiskStorage.{
  DiskStorage, Entry, EntryProto, entry_normal, first_index, last_index, term_at, entries_from,
  set_hard_state, append_entries, sync_log,
}

pub data Role : Type 0 where
  follower candidate leader : Role

abbrev pub is_leader : Role → Bool
is_leader leader = true
is_leader _ = false

abbrev pub is_follower : Role → Bool
is_follower follower = true
is_follower _ = false

abbrev pub is_candidate : Role → Bool
is_candidate candidate = true
is_candidate _ = false

-- The fields of Config that the steps read; durations and times are in nanoseconds.
pub record Config : Type 0 where
  pub id : ℕ
  pub election_timeout_min : ℕ
  pub election_timeout_max : ℕ
  pub heartbeat_interval : ℕ

-- Config.fill: the defaults.
unfoldable pub fill : Config → Config
fill c = record {
  id = c.id;
  election_timeout_min =
      if c.election_timeout_min == 0 then 150_000_000 else c.election_timeout_min;
  election_timeout_max =
      if c.election_timeout_max == 0 then 300_000_000 else c.election_timeout_max;
  heartbeat_interval = if c.heartbeat_interval == 0 then 50_000_000 else c.heartbeat_interval;
}

-- `progress` says that the leader's maps have been made (`nextIndex != nil`), and `kicked` that
-- the channel `kick` holds a token.
pub record Node : Type 0 where
  pub cfg : Config
  pub store : DiskStorage
  pub conf : ConfState
  pub addrs : ℕ → Option Bytes
  pub role : Role
  pub leader_id : ℕ
  pub commit_index : ℕ
  pub last_applied : ℕ
  pub progress : Bool
  pub next_index : Map
  pub match_index : Map
  pub last_sent_at : Map
  pub inflight : ℕ → Bool
  pub election_deadline : ℕ
  pub kicked : Bool

-- What a step takes from outside: the clock, and a random draw.
pub record Env : Type 0 where
  pub now : ℕ
  pub draw : ℕ

pub record VoteRequest : Type 0 where
  pub term : ℕ
  pub candidate_id : ℕ
  pub last_log_index : ℕ
  pub last_log_term : ℕ

pub record VoteResponse : Type 0 where
  pub term : ℕ
  pub vote_granted : Bool

pub record AppendRequest : Type 0 where
  pub term : ℕ
  pub leader_id : ℕ
  pub prev_log_index : ℕ
  pub prev_log_term : ℕ
  pub entries : List Entry
  pub leader_commit : ℕ

pub record AppendResponse : Type 0 where
  pub term : ℕ
  pub success : Bool
  pub conflict_index : ℕ
  pub conflict_term : ℕ

pub record SnapshotRequest : Type 0 where
  pub term : ℕ
  pub leader_id : ℕ
  pub last_included_index : ℕ
  pub last_included_term : ℕ
  pub content : Bytes
  pub conf_state : Bytes

-- A request and the peer that it goes to.
pub data Message : Type 0 where
  vote_message : ℕ → VoteRequest → Message
  append_message : ℕ → AppendRequest → Message
  snapshot_message : ℕ → SnapshotRequest → Message

-- rand.Int63n(span + 1) is the draw, reduced to that range.
unfoldable pub reset_election_timer : Env → Node → Node
reset_election_timer env n =
    let span = n.cfg.election_timeout_max - n.cfg.election_timeout_min in
    record n { election_deadline = env.now + (n.cfg.election_timeout_min + env.draw % (span + 1)) }

abbrev pub kick_run : Node → Node
kick_run n = record n { kicked = true }

-- NewNode, on a storage that has been opened.
unfoldable pub new_node : Env → Config → (ℕ → Option Bytes) → DiskStorage → Node
unfolding fill reset_election_timer
new_node env cfg addrs store = reset_election_timer env (record {
  cfg = fill cfg;
  store = store;
  conf = store.conf;
  addrs = addrs;
  role = follower;
  leader_id = 0;
  commit_index = if ltb 0 store.snap_index then store.snap_index else 0;
  last_applied = if ltb 0 store.snap_index then store.snap_index else 0;
  progress = false;
  next_index = λ _. none;
  match_index = λ _. none;
  last_sent_at = λ _. none;
  inflight = λ _. false;
  election_deadline = 0;
  kicked = false;
})

-- stepDownLocked. A failure to store the term is only logged.
unfoldable pub step_down : Env → ℕ → Node → Node
unfolding reset_election_timer
step_down env term n =
    let store = if ltb n.store.term term then (set_hard_state n.store term 0).0 else n.store in
    reset_election_timer env (record n { store = store; role = follower })

abbrev pub set_flag : (ℕ → Bool) → ℕ → Bool → ℕ → Bool
set_flag f id b j = if id == j then b else f j

-- The snapshot branch of sendAppendLocked.
unfoldable pub send_snapshot_locked : Node → ℕ → Node × List Message
send_snapshot_locked n peer = if n.inflight peer then (n, []) else (
  record n { inflight = set_flag n.inflight peer true },
  snapshot_message peer (record {
    term = n.store.term;
    leader_id = n.cfg.id;
    last_included_index = n.store.snap_index;
    last_included_term = n.store.snap_term;
    content = n.store.snapshot;
    conf_state = encode_conf_state n.conf;
  })
      ∷ [],
)

-- The other branch: `ni` is at least the first index of the log, so `ni - 1` does not wrap.
unfoldable pub send_entries_locked : Node → ℕ → ℕ → Node × List Message
send_entries_locked n peer ni = elim (term_at n.store (ni - 1)) [
  | none ↦ (n, [])
  | some prev_term ↦ if n.inflight peer then (n, []) else (
    record n { inflight = set_flag n.inflight peer true },
    append_message peer (record {
      term = n.store.term;
      leader_id = n.cfg.id;
      prev_log_index = ni - 1;
      prev_log_term = prev_term;
      entries = entries_from n.store ni;
      leader_commit = n.commit_index;
    })
        ∷ [],
  )
]

unfoldable pub send_append_locked : Env → Node → ℕ → Node × List Message
unfolding send_snapshot_locked send_entries_locked
send_append_locked env n peer =
    let ni = read n.next_index peer in
    let has_new = leb ni (last_index n.store) in
    let sent = record n { last_sent_at = write n.last_sent_at peer env.now } in
    if not has_new && ltb (env.now - read n.last_sent_at peer) n.cfg.heartbeat_interval
    then (n, [])
    else if ltb ni (first_index n.store)
    then send_snapshot_locked sent peer
    else send_entries_locked sent peer ni

unfoldable pub send_all : Env → List ℕ → Node → Node × List Message
unfolding send_append_locked
send_all env [] n = (n, [])
send_all env (p ∷ ps) n =
    let (n1, sent) = if p == n.cfg.id then (n, []) else send_append_locked env n p in
    let (n2, rest) = send_all env ps n1 in (n2, sent ++ rest)

unfoldable pub broadcast_append : Env → Node → Node × List Message
unfolding send_all
broadcast_append env n =
    let (store, synced) = sync_log n.store in
    if not synced
    then (record n { store = store }, [])
    else send_all env (all_peer_ids n.conf) (record n { store = store })
