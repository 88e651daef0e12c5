-- ===== src/Server/Requests/Core.antt =====
-- The part of server/server.go's state that its loop keeps: the machine, how far it is, and its
-- snapshots.
use distkv.Prelude.{ℕ, ◌+◌, ◌≡◌, refl, Option, none, some, List, [], ◌∷◌, arith, if◌then◌else◌, leb}
use distkv.Codec.{Bytes}
use distkv.Node.Membership.{ApplyMsg, command_msg, conf_change_msg, snapshot_msg}
use distkv.StateMachine.{Engine, Gob, Machine, restore, snapshot}
use distkv.Server.{Server, snapshot_threshold, CommandGob, apply_command}
use distkv.Server.Requests.{
  Caller, System, proposed, waiting, replied, turned_away, crashed, Reply, begin_call,
  register_waiter, wake, give_up, finish_call,
}

-- A server without its waiters, their channels and the transport.
pub record Core (E : Type 0) : Type 0 where
  pub machine : Machine E
  pub applied : ℕ
  pub since_snap : ℕ
  pub snapshots : List (ℕ × Bytes)

abbrev pub core : {E C : Type 0} → Server E C → Core E
core s = record {
  machine = s.machine;
  applied = s.applied;
  since_snap = s.since_snap;
  snapshots = s.snapshots;
}

module _ {E C : Type 0} where
  pub begin_call-core :
      (id i t : ℕ) (o : Option Caller) (sys : System E C)
      → core (begin_call id i t o sys).server ≡ core sys.server
  unfolding begin_call
  begin_call-core id i t none sys = refl
  begin_call-core id i t (some c) sys = refl

  pub register_waiter-core :
      (id : ℕ) (o : Option Caller) (sys : System E C)
      → core (register_waiter id o sys).server ≡ core sys.server
  unfolding register_waiter
  register_waiter-core id none sys = refl
  register_waiter-core id (some (proposed i t)) sys = refl
  register_waiter-core id (some (waiting i t)) sys = refl
  register_waiter-core id (some (replied i t r)) sys = refl
  register_waiter-core id (some (turned_away r)) sys = refl
  register_waiter-core id (some crashed) sys = refl

  pub wake-core :
      (id : ℕ) (o : Option Caller) (sys : System E C)
      → core (wake id o sys).server ≡ core sys.server
  unfolding wake finish_call
  wake-core id none sys = refl
  wake-core id (some (proposed i t)) sys = refl
  wake-core id (some (waiting i t)) sys = grind arith
  wake-core id (some (replied i t r)) sys = refl
  wake-core id (some (turned_away r)) sys = refl
  wake-core id (some crashed) sys = refl

  pub give_up-core :
      (id : ℕ) (reply : Reply) (o : Option Caller) (sys : System E C)
      → core (give_up id reply o sys).server ≡ core sys.server
  unfolding give_up finish_call
  give_up-core id reply none sys = refl
  give_up-core id reply (some (proposed i t)) sys = refl
  give_up-core id reply (some (waiting i t)) sys = refl
  give_up-core id reply (some (replied i t r)) sys = refl
  give_up-core id reply (some (turned_away r)) sys = refl
  give_up-core id reply (some crashed) sys = refl

module _ {E : Type 0} (api : Engine E) (gob : Gob) (coding : CommandGob) where
  -- A message on a server that nobody waits for.
  abbrev pub turn : ApplyMsg → Core E → Core E
  turn (snapshot_msg bytes index term) c =
      let (m, ok) = restore api gob bytes c.machine in
      if ok then record c { machine = m; applied = index } else record c { machine = m }
  turn (conf_change_msg cc index term) c = record c { applied = index }
  turn (command_msg content index term) c =
      let m = (apply_command api coding content c.machine).0 in
      if leb snapshot_threshold (c.since_snap + 1)
      then record {
        machine = m;
        applied = index;
        since_snap = 0;
        snapshots = elim (snapshot api gob m) [
          | none ↦ c.snapshots
          | some bytes ↦ (index, bytes) ∷ c.snapshots
        ];
      }
      else record c { machine = m; applied = index; since_snap = c.since_snap + 1 }

  abbrev pub turns : List ApplyMsg → Core E → Core E
  turns [] c = c
  turns (m ∷ ms) c = turns ms (turn m c)
