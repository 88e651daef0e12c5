-- ===== src/Tests/Votes.antt =====
-- A cluster of three servers: votes, a restart after them, and what a leader does.
use distkv.Prelude.{ℕ, ◌≤◌, ◌≡◌, ◌≢◌, refl, true, false, none, some, [], ◌∷◌, arith}
use distkv.IdSet.{contains, insert, insert_all}
use distkv.ConfState.{
  ConfState, write, can_commit, max_commit_index, all_peer_ids, in_joint, read, new_conf_state,
}
use distkv.Wal.{open_wal, append, sync, frames, done, fold_records}
use distkv.DiskStorage.{
  DiskStorage, Entry, entry_normal, set_hard_state, last_of, term_at, sync_log,
}
use distkv.DiskStorage.Restart.{open_disk_storage, crash_files, fresh, load_snapshot}
use distkv.DiskStorage.Keeping.{IsBacked}
use distkv.Node.{
  Node, Env, Config, follower, candidate, leader, is_leader, VoteRequest, SnapshotRequest, new_node,
  fill, step_down, reset_election_timer, broadcast_append, send_all, send_append_locked,
  send_entries_locked,
}
use distkv.Node.Election.{start_election, handle_request_vote, grant_vote}
use distkv.Node.Replication.{advance_commit}
use distkv.Node.Voting.{Reach, here, next, tick, one_vote_per_term}
use distkv.Node.VoteDurability.{granted_vote_durable}
use distkv.Node.Commitment.{advance_commit_rule}
use distkv.Node.Hazards.{start_election_alone}
use distkv.DiskStorage.Contiguous.{NoGap}
use distkv.Node.{AppendRequest}
use distkv.Node.Replication.{handle_append_entries}
use distkv.Node.Contiguous.{handle_append_entries-NoGap}
use distkv.Tests.Proto.{proto}

abbrev pub servers : ConfState
servers = record { voters = 1 ∷ 2 ∷ 3 ∷ []; joint = [] }

abbrev one_entry : Entry
one_entry = record {
  term = 1;
  index = 1;
  content = 7 ∷ [];
  kind = entry_normal;
  conf_change = none;
}

abbrev pub empty_store : DiskStorage
empty_store = record {
  wal = open_wal [] 50;
  term = 0;
  voted_for = 0;
  dirty = false;
  conf = servers;
  log = [];
  snap_index = 0;
  snap_term = 0;
  snapshot = [];
  bin_file = none;
  meta_file = none;
  conf_file = none;
}

abbrev pub settings : Config
settings = record {
  id = 2;
  election_timeout_min = 0;
  election_timeout_max = 0;
  heartbeat_interval = 0;
}

abbrev pub clock : Env
clock = record { now = 1000; draw = 5 }

abbrev pub started : Node
started = new_node clock settings (λ _. none) empty_store

abbrev pub ask : VoteRequest
ask = record { term = 1; candidate_id = 3; last_log_index = 4; last_log_term = 1 }

abbrev ask_again : VoteRequest
ask_again = record { term = 1; candidate_id = 3; last_log_index = 9; last_log_term = 1 }

abbrev voted : Node
voted = (handle_request_vote clock ask started).0

started_votes : (handle_request_vote clock ask started).1.vote_granted ≡ true
unfolding new_node fill reset_election_timer handle_request_vote grant_vote step_down set_hard_state
    append sync open_wal contains term_at last_of
started_votes = refl

ticked : Reach proto voted (broadcast_append clock voted).0
ticked = next here (tick clock refl)

voted_votes :
    (handle_request_vote clock ask_again (broadcast_append clock voted).0).1.vote_granted ≡ true
unfolding new_node fill reset_election_timer handle_request_vote grant_vote step_down set_hard_state
    append sync open_wal contains broadcast_append sync_log send_all send_append_locked
    send_entries_locked all_peer_ids insert_all insert term_at last_of
voted_votes = refl

one_vote_per_term_example : ask.candidate_id ≡ ask_again.candidate_id
one_vote_per_term_example =
    one_vote_per_term proto clock clock ask ask_again started (broadcast_append clock voted).0
      started_votes ticked voted_votes refl (ground arith)

empty-IsBacked : IsBacked proto (1 ∷ 2 ∷ 3 ∷ []) started.store
unfolding new_node reset_election_timer open_wal fold_records load_snapshot fresh new_conf_state
    frames insert_all insert
empty-IsBacked = record {
  durable = [];
  buffered = [];
  on_disk = refl;
  waiting = refl;
  durable_fit = tt;
  buffered_fit = tt;
  base = _;
  loaded = refl;
  replays = refl;
}

granted_vote_durable_example :
    (r : DiskStorage) × (open_disk_storage proto (crash_files voted.store 6) (1 ∷ 2 ∷ 3 ∷ []) 40
      ≡ done r)
    × (r.term ≡ 1)
    × (r.voted_for ≡ 3)
    × (r.log ≡ started.store.log)
granted_vote_durable_example =
    granted_vote_durable proto (1 ∷ 2 ∷ 3 ∷ []) clock ask started 6 40 empty-IsBacked
      (unfold new_node reset_election_timer in omega arith) (omega arith) (omega arith)
      started_votes

-- A leader that two servers follow up to index 1, which holds an entry of its own term.
abbrev leading : Node
leading = record started {
  role = leader;
  store = record empty_store { term = 1; log = one_entry ∷ []; dirty = true };
  match_index = write (write (λ _. none) 2 1) 3 1;
}

advance_commit_rule_example :
    (leading.commit_index ≤ (advance_commit leading).commit_index)
    × (leading.commit_index ≢ (advance_commit leading).commit_index
        → (can_commit leading.conf (advance_commit leading).commit_index leading.match_index ≡ true)
          × (term_at (advance_commit leading).store (advance_commit leading).commit_index ≡ some 1)
          × ((idx : ℕ)
              → can_commit leading.conf idx leading.match_index ≡ true
              → idx ≤ (advance_commit leading).commit_index)
          × ((advance_commit leading).store.dirty ≡ false))
advance_commit_rule_example = advance_commit_rule leading

advance_commit-leading : (advance_commit leading).commit_index ≡ 1
unfolding advance_commit max_commit_index all_peer_ids new_node can_commit distkv.ConfState.count_ge
    sync_log sync open_wal term_at last_of
advance_commit-leading = refl

abbrev alone : Node
alone = record started { conf = record { voters = 2 ∷ []; joint = [] } }

alone_peers : all_peer_ids alone.conf ≡ alone.cfg.id ∷ []
unfolding all_peer_ids insert_all insert new_node fill reset_election_timer
alone_peers = refl

alone_follows : is_leader alone.role ≡ false
unfolding new_node reset_election_timer
alone_follows = refl

start_election_alone_example :
    (is_leader (start_election clock alone).0.role ≡ false) × ((start_election clock alone).1 ≡ [])
start_election_alone_example = start_election_alone clock alone alone_peers alone_follows

-- A follower whose disk takes no call any more.
abbrev broken : Node
broken = record started { store = record empty_store { wal = open_wal [] 0 } }

abbrev snapshot_offer : SnapshotRequest
snapshot_offer = record {
  term = 0;
  leader_id = 1;
  last_included_index = 5;
  last_included_term = 0;
  content = 9 ∷ [];
  conf_state = [];
}

broken_follows : broken.role ≡ follower
unfolding new_node reset_election_timer
broken_follows = refl

abbrev running : Node
running = record started { role = candidate; commit_index = 3 }

abbrev two_more : AppendRequest
two_more = record {
  term = 1;
  leader_id = 3;
  prev_log_index = 0;
  prev_log_term = 0;
  entries = one_entry ∷ record one_entry { index = 2 } ∷ [];
  leader_commit = 1;
}

started-NoGap : NoGap started.store
unfolding new_node reset_election_timer
started-NoGap = tt

handle_append_entries-NoGap_example :
    NoGap (handle_append_entries proto clock two_more started).0.store
handle_append_entries-NoGap_example =
    handle_append_entries-NoGap proto clock two_more started started-NoGap (refl, (refl, tt))
