-- ===== src/Server/Requests.antt =====
-- The calls that propose and wait: propose of server/server.go and proposeConfChange of
-- server/membership.go, whose steps alternate with the turns of applyLoop.
pub mod Waiting
pub mod Core
pub mod Turns
pub mod Refinement
pub mod Calls
pub mod Answers
use distkv.Prelude.{
  ℕ, Bool, true, false, Option, none, some, List, [], ◌∷◌, ◌==◌, not, if◌then◌else◌,
}
use distkv.Codec.{Bytes}
use distkv.IdMap.{look, del, put}
use distkv.DiskStorage.{EntryProto}
use distkv.ConfState.Change.{ConfChange}
use distkv.Node.{Node}
use distkv.Node.Membership
use distkv.Node.Membership.{
  ApplyMsg, Proposal, accepted, not_leader, refused, not_written, panicked, propose,
  propose_conf_change,
}
use distkv.Transport.{Transport}
use distkv.StateMachine.{Command, put_op, delete_op, Engine, Gob}
use distkv.Server.{Server, CommandGob, WaitResult, on_message}

-- What a call answers: nil, or a status of its codes.
pub data Reply : Type 0 where
  ok_reply not_leader_reply internal_error deadline_exceeded unavailable : Reply
  invalid_argument last_voter : Reply

-- Where a call is: behind node.Propose with the entry's index and term, at the select, or done.
pub data Caller : Type 0 where
  proposed : ℕ → ℕ → Caller
  waiting : ℕ → ℕ → Caller
  replied : ℕ → ℕ → Reply → Caller
  turned_away : Reply → Caller
  crashed : Caller

-- notLeaderErr is the answer to every error of a proposal.
unfoldable pub after_proposal : Proposal → Caller
after_proposal (accepted index term) = proposed index term
after_proposal not_leader = turned_away not_leader_reply
after_proposal (refused e) = turned_away not_leader_reply
after_proposal not_written = turned_away not_leader_reply
after_proposal panicked = crashed

unfoldable pub propose_command : EntryProto → CommandGob → Command → Node → Node × Caller
unfolding after_proposal
propose_command proto coding c n = elim (coding.encode_command c) [
  | none ↦ (n, turned_away internal_error)
  | some bytes ↦ let (n1, p) = propose proto bytes n in (n1, after_proposal p)
]

-- The commands of Put and Delete.
unfoldable pub put_command : Bytes → Bytes → Bytes → ℕ → Command
put_command key value client_id seq = record {
  op = put_op;
  key = key;
  value = value;
  client_id = client_id;
  seq = seq;
}

unfoldable pub delete_command : Bytes → Bytes → ℕ → Command
delete_command key client_id seq = record {
  op = delete_op;
  key = key;
  value = [];
  client_id = client_id;
  seq = seq;
}

unfoldable pub propose_change : EntryProto → ConfChange → Node → Node × Caller
unfolding after_proposal
propose_change proto cc n = let (n1, p) = propose_conf_change proto cc n in (n1, after_proposal p)

-- The case of the select on the channel.
unfoldable pub reply_of : ℕ → WaitResult → Reply
reply_of term res =
    if not (res.term == term)
    then not_leader_reply
    else if not res.applied_well
    then internal_error
    else ok_reply

-- Calls are numbered, and `callers` has each one that node.Propose has taken.
pub record System (E C : Type 0) : Type 0 where
  pub server : Server E C
  pub callers : List (ℕ × Caller)

-- A turn of applyLoop; a call's return from node.Propose; its entry into the map of waiters; its
-- receiving from the channel; and its giving up, when the context is done or the timer runs out.
pub data Event : Type 0 where
  message : ApplyMsg → Event
  called : ℕ → ℕ → ℕ → Event
  registered : ℕ → Event
  woken : ℕ → Event
  cancelled : ℕ → Event
  timed_out : ℕ → Event

module _ {E C : Type 0} where
  unfoldable pub register_waiter : ℕ → Option Caller → System E C → System E C
  register_waiter id (some (proposed index term)) sys = record {
    server = record sys.server { waiters = put index id sys.server.waiters };
    callers = put id (waiting index term) sys.callers;
  }
  register_waiter id _ sys = sys

  -- The return, with its deferred delete.
  unfoldable pub finish_call : ℕ → ℕ → ℕ → Reply → System E C → System E C
  finish_call id index term reply sys = record {
    server = record sys.server { waiters = del index sys.server.waiters };
    callers = put id (replied index term reply) sys.callers;
  }

  unfoldable pub wake : ℕ → Option Caller → System E C → System E C
  unfolding finish_call reply_of
  wake id (some (waiting index term)) sys = elim (look id sys.server.channels) [
    | none ↦ sys
    | some res ↦ finish_call id index term (reply_of term res) sys
  ]
  wake id _ sys = sys

  unfoldable pub give_up : ℕ → Reply → Option Caller → System E C → System E C
  unfolding finish_call
  give_up id reply (some (waiting index term)) sys = finish_call id index term reply sys
  give_up id reply _ sys = sys

  unfoldable pub begin_call : ℕ → ℕ → ℕ → Option Caller → System E C → System E C
  begin_call id index term none sys = record sys {
    callers = put id (proposed index term) sys.callers;
  }
  begin_call id index term (some c) sys = sys

module _ {E C : Type 0} (api : Engine E) (gob : Gob) (coding : CommandGob)
    (dial : Bytes → Option C) where
  unfoldable pub system_step : Event → System E C → Option (System E C)
  unfolding begin_call register_waiter wake give_up
  system_step (message m) sys = elim (on_message api gob coding dial m sys.server) [
    | none ↦ none
    | some s ↦ some (record sys { server = s })
  ]
  system_step (called id index term) sys = some (begin_call id index term (look id sys.callers) sys)
  system_step (registered id) sys = some (register_waiter id (look id sys.callers) sys)
  system_step (woken id) sys = some (wake id (look id sys.callers) sys)
  system_step (cancelled id) sys = some (give_up id deadline_exceeded (look id sys.callers) sys)
  system_step (timed_out id) sys = some (give_up id unavailable (look id sys.callers) sys)

  unfoldable pub run_events : List Event → System E C → Option (System E C)
  unfolding system_step
  run_events [] sys = some sys
  run_events (e ∷ es) sys = elim (system_step e sys) [
    | none ↦ none
    | some sys1 ↦ run_events es sys1
  ]

abbrev pub messages : List Event → List ApplyMsg
messages [] = []
messages (message m ∷ es) = m ∷ messages es
messages (called id index term ∷ es) = messages es
messages (registered id ∷ es) = messages es
messages (woken id ∷ es) = messages es
messages (cancelled id ∷ es) = messages es
messages (timed_out id ∷ es) = messages es
