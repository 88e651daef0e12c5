-- ===== src/Tests/Servers.antt =====
-- A server on the engine and the codings of Engines.antt: a write that is answered, two replicas, a
-- read, membership calls, and a transport.
use distkv.Prelude.{
  ℕ, zero, suc, ◌+◌, ◌/◌, ◌%◌, ◌≡◌, ◌⊎◌, ◌≢◌, refl, sym, ap, ◌∙◌, true, false, Option, none, some,
  List, [], ◌∷◌, ◌++◌, arith, length, take-append, drop-append,
}
use mathlib.Core.List.{Memᴰ}
use distkv.Codec.{Bytes}
use distkv.Text.{same}
use distkv.IdMap.{look, put, del}
use distkv.StateMachine.{
  Command, CommandOp, put_op, delete_op, unknown_op, Contents, Machine, lookup, restore, apply,
  seq_of, set_seq,
}
use distkv.Node.Membership.{ApplyMsg, command_msg, snapshot_msg}
use distkv.Tests.Engines.{
  list_engine, gob, put_five, put_six, empty_machine, after_five, saved, block, ◌>>=◌, after_taken,
  saved_restored, decode_state, read_contents, read_seqs,
}
use distkv.Server.{Server, CommandGob, snapshot_threshold, on_message}
use distkv.Server.Requests.{
  System, Event, called, registered, message, woken, replied, Reply, ok_reply, run_events,
}
use distkv.Server.Requests.Turns.{command_outcome, change_outcome, outcomes}
use distkv.Server.Requests.Answers.{start, run_events-ok_reply, run_events-ne-none}
use distkv.Server.Requests.Core.{core, turns}
use distkv.Server.Requests.Refinement.{run_events-core}
use distkv.Server.Snapshots.{due, snapshots_of, run_events-since_snap}
use distkv.Server.Replicas.{snapshot-replicas_agree}
use distkv.Server.Reads.{UpTo, serve_get, serve_get-UpTo}
use distkv.Server.Members.{
  AddMemberRequest, add_member, remove_member, is_ok, member_calls_in_joint,
}
use distkv.Node.{Node, leader}
use distkv.Tests.Votes.{started}
use distkv.Tests.Proto.{proto}
use distkv.Transport.{new_transport, client}
use distkv.Transport.Caching.{
  PeerEvent, run_peer_events, client_event, set_event, connect, address, client-run_peer_events,
}

abbrev op_block : CommandOp → Bytes
op_block put_op = 0 ∷ []
op_block delete_op = 1 ∷ []
op_block (unknown_op name) = 2 ∷ name

abbrev op_from : Bytes → CommandOp
op_from [] = put_op
op_from (zero ∷ name) = put_op
op_from (suc zero ∷ name) = delete_op
op_from (suc (suc n) ∷ name) = unknown_op name

abbrev write_command : Command → Bytes
write_command c =
    c.seq ∷ length c.key ∷ c.key
    ++ (length c.value ∷ c.value ++ (length c.client_id ∷ c.client_id ++ op_block c.op))

unfoldable read_command : Bytes → Option Command
read_command [] = none
read_command (seq ∷ buf) = do
  (key, buf1) ← block buf
  (value, buf2) ← block buf1
  (client_id, buf3) ← block buf2
  some (record { op = op_from buf3; key = key; value = value; client_id = client_id; seq = seq })

op_from-op_block : (op : CommandOp) → op_from (op_block op) ≡ op
op_from-op_block put_op = refl
op_from-op_block delete_op = refl
op_from-op_block (unknown_op name) = refl

read_command-write_command : (c : Command) → read_command (write_command c) ≡ some c
unfolding read_command
read_command-write_command c =
    let last = op_block c.op in
    let third : Bytes = length c.client_id ∷ c.client_id ++ last in
    let second : Bytes = length c.value ∷ c.value ++ third in
    rw (take-append c.key second, drop-append c.key second)
      (rw (take-append c.value third, drop-append c.value third)
        (rw (take-append c.client_id last, drop-append c.client_id last)
          (rw (op_from-op_block c.op) refl)))

abbrev command_or_none : Option Bytes → Option Command
command_or_none none = none
command_or_none (some b) = read_command b

abbrev coding : CommandGob
coding = record {
  encode_command = λ c. some (write_command c);
  decode_command = read_command;
  decode_command-encode_command =
      λ c b h. ap command_or_none (sym h) ∙ read_command-write_command c;
}

-- A connection is the address that it is for.
abbrev dial_self : Bytes → Option Bytes
dial_self addr = some addr

abbrev server_on : Machine Contents → ℕ → Server Contents Bytes
server_on m applied = record {
  machine = m;
  transport = none;
  waiters = [];
  channels = [];
  applied = applied;
  since_snap = 0;
  snapshots = [];
}

-- Call 1 proposes put_five, which becomes entry 1 of term 2.
abbrev put_events : List Event
put_events =
    called 1 1 2 ∷ registered 1 ∷ message (command_msg (write_command put_five) 1 2) ∷ woken 1 ∷ []

abbrev or_else : {A : Type 0} → A → Option A → A
or_else a none = a
or_else a (some b) = b

abbrev empty_system : System Contents Bytes
empty_system = start (server_on empty_machine 0)

abbrev put_done : System Contents Bytes
put_done =
    or_else empty_system (run_events list_engine gob coding dial_self put_events empty_system)

put_runs : run_events list_engine gob coding dial_self put_events empty_system ≡ some put_done
unfolding run_events read_command look put del apply on_message
put_runs = refl

put_answered : look 1 put_done.callers ≡ some (replied 1 2 ok_reply)
unfolding run_events read_command look put del apply on_message seq_of
put_answered = refl

run_events-ok_reply_example :
    Memᴰ (command_outcome 1 2 true) (
      outcomes list_engine gob coding (command_msg (write_command put_five) 1 2 ∷ []) empty_machine)
    ⊎ Memᴰ (change_outcome 1 2) (
        outcomes list_engine gob coding
          (command_msg (write_command put_five) 1 2 ∷ [])
          empty_machine)
run_events-ok_reply_example =
    run_events-ok_reply list_engine gob coding dial_self put_events (server_on empty_machine 0)
      put_done 1 1 2 put_runs put_answered

run_events-ne-none_example :
    run_events list_engine gob coding dial_self put_events empty_system ≢ none
run_events-ne-none_example =
    run_events-ne-none list_engine gob coding dial_self put_events (server_on empty_machine 0)

run_events-core_example :
    core put_done.server
    ≡ turns list_engine gob coding
        (command_msg (write_command put_five) 1 2 ∷ [])
        (core (server_on empty_machine 0))
run_events-core_example =
    run_events-core list_engine gob coding dial_self put_events empty_system put_done put_runs

run_events-since_snap_example :
    (put_done.server.since_snap ≡ 1 % snapshot_threshold)
    × (put_done.server.snapshots
        ≡ snapshots_of list_engine gob coding
            (due list_engine gob coding 0
              (command_msg (write_command put_five) 1 2 ∷ [])
              empty_machine)
            [])
    × (length (
          due list_engine gob coding 0
            (command_msg (write_command put_five) 1 2 ∷ [])
            empty_machine)
        ≡ 1 / snapshot_threshold)
run_events-since_snap_example =
    run_events-since_snap list_engine gob coding dial_self put_events empty_system put_done
      (omega arith) put_runs

-- One server goes on behind put_five; the other restores it and goes on likewise.
abbrev later : List ApplyMsg
later = command_msg (write_command put_six) 2 2 ∷ []

abbrev first_system : System Contents Bytes
first_system = start (server_on after_five 1)

abbrev first_events : List Event
first_events = message (command_msg (write_command put_six) 2 2) ∷ []

abbrev first_done : System Contents Bytes
first_done =
    or_else first_system (run_events list_engine gob coding dial_self first_events first_system)

abbrev second_events : List Event
second_events = message (snapshot_msg saved 1 2) ∷ first_events

abbrev second_done : System Contents Bytes
second_done =
    or_else empty_system (run_events list_engine gob coding dial_self second_events empty_system)

first_runs : run_events list_engine gob coding dial_self first_events first_system ≡ some first_done
unfolding run_events read_command look apply on_message
first_runs = refl

second_runs :
    run_events list_engine gob coding dial_self second_events empty_system ≡ some second_done
unfolding run_events read_command look apply on_message restore decode_state read_contents read_seqs
second_runs = refl

six_applied : (apply list_engine put_six after_five).1 ≡ true
unfolding apply seq_of set_seq same
six_applied = refl

six_applied_behind :
    (apply list_engine put_six (restore list_engine gob saved empty_machine).0).1 ≡ true
unfolding apply restore seq_of decode_state read_contents read_seqs same
six_applied_behind = refl

snapshot-replicas_agree_example :
    (second_done.server.applied ≡ first_done.server.applied)
    × (second_done.server.machine.last_seq ≡ first_done.server.machine.last_seq)
    × ((k : Bytes)
        → lookup list_engine k second_done.server.machine
          ≡ lookup list_engine k first_done.server.machine)
snapshot-replicas_agree_example =
    snapshot-replicas_agree list_engine gob coding dial_self dial_self later (put_six ∷ []) saved 1
      2 first_events first_system first_done second_events empty_system second_done (refl, tt) refl
      refl tt refl after_taken saved_restored (tt, six_applied, tt) (tt, six_applied_behind, tt)
      first_runs second_runs

-- A moment is its time: one entry is applied in each millisecond.
serve_get-UpTo_example :
    UpTo list_engine
      (server_on after_five)
      (λ w. w)
      (λ w. (w, some 3))
      (λ w. (w + 1, false))
      (1 ∷ [])
      3
      (serve_get list_engine
        (server_on after_five)
        (λ w. w)
        (λ w. (w, some 3))
        (λ w. (w + 1, false))
        3003
        (1 ∷ [])
        0)
serve_get-UpTo_example =
    serve_get-UpTo list_engine (server_on after_five) (λ w. w) (λ w. (w, some 3))
      (λ w. (w + 1, false)) (λ w h. omega arith) (1 ∷ []) 0 3 refl

-- A leader in a transition.
abbrev moving : Node
moving = record started {
  role = leader;
  conf = record { voters = 1 ∷ 2 ∷ 3 ∷ 4 ∷ []; joint = 1 ∷ 2 ∷ 3 ∷ [] };
}

abbrev accept_all : ℕ → ℕ → Node → Node × Reply
accept_all index term n = (n, ok_reply)

abbrev server_five : AddMemberRequest
server_five = record { id = 5; raft_addr = 53 ∷ [] }

member_calls_in_joint_example :
    ((add_member proto accept_all server_five moving).0 ≡ moving)
    × (is_ok proto accept_all (add_member proto accept_all server_five moving).1 ≡ false)
    × ((remove_member proto accept_all 1 2 moving).0 ≡ moving)
    × (is_ok proto accept_all (remove_member proto accept_all 1 2 moving).1 ≡ false)
member_calls_in_joint_example = member_calls_in_joint proto accept_all server_five 1 2 moving refl

-- Peer 2 is asked, gets another address, and is asked again.
abbrev peer_events : List PeerEvent
peer_events = client_event 2 ∷ set_event 2 (9 ∷ []) ∷ client_event 2 ∷ []

client-run_peer_events_example :
    (client dial_self 2
      (run_peer_events dial_self peer_events (new_transport dial_self ((2, 8 ∷ []) ∷ [])))).1
    ≡ connect dial_self (address peer_events 2 (look 2 ((2, 8 ∷ []) ∷ [])))
client-run_peer_events_example = client-run_peer_events dial_self peer_events ((2, 8 ∷ []) ∷ []) 2
