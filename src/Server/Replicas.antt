-- ===== src/Server/Replicas.antt =====
-- Two servers of server/server.go whose nodes give them the same entries, one of them behind a
-- snapshot of the other.
use distkv.Prelude.{ℕ, ◌≡◌, refl, sym, ap, ◌∙◌, true, Option, some, List, [], ◌∷◌, arith}
use distkv.Codec.{Bytes}
use distkv.ConfState.Change.{ConfChange}
use distkv.Node.Membership.{ApplyMsg, command_msg, conf_change_msg, snapshot_msg}
use distkv.StateMachine.{Command, Engine, Gob, Machine, apply, lookup, restore, snapshot}
use distkv.StateMachine.Once.{run_commands}
use distkv.StateMachine.Replaying.{Runs, restore-run_commands}
use distkv.Server.{CommandGob, apply_command}
use distkv.Server.Requests.{Event, System, run_events, messages}
use distkv.Server.Requests.Core.{Core, core, turn, turns}
use distkv.Server.Requests.Refinement.{run_events-core}

module _ (coding : CommandGob) where
  -- The messages hold these commands, as encodeCommand has written them, beside membership changes
  -- and the no-ops of new leaders.
  abbrev pub Carries : List ApplyMsg → List Command → Type 0
  Carries [] [] = Unit
  Carries [] (c ∷ cs) = ⊥
  Carries (snapshot_msg bytes index term ∷ ms) cs = ⊥
  Carries (conf_change_msg cc index term ∷ ms) cs = Carries ms cs
  Carries (command_msg [] index term ∷ ms) cs = Carries ms cs
  Carries (command_msg (b ∷ bs) index term ∷ ms) [] = ⊥
  Carries (command_msg (b ∷ bs) index term ∷ ms) (c ∷ cs) =
      (coding.encode_command c ≡ some (b ∷ bs)) × Carries ms cs

  Carries-snapshot :
      (bytes : Bytes) (index term : ℕ) (ms : List ApplyMsg) (cs : List Command)
      → Carries (snapshot_msg bytes index term ∷ ms) cs
      → ⊥
  Carries-snapshot bytes index term ms [] h = h
  Carries-snapshot bytes index term ms (c ∷ cs) h = h

  Carries-change :
      (change : ConfChange) (index term : ℕ) (ms : List ApplyMsg) (cs : List Command)
      → Carries (conf_change_msg change index term ∷ ms) cs
      → Carries ms cs
  Carries-change change index term ms [] h = h
  Carries-change change index term ms (c ∷ cs) h = h

  Carries-command :
      (content : Bytes) (index term : ℕ) (ms : List ApplyMsg) (cs : List Command)
      → Carries (command_msg content index term ∷ ms) cs
      → (rest : List Command) × Carries ms rest
  Carries-command [] index term ms [] h = ([], h)
  Carries-command [] index term ms (c ∷ cs) h = (c ∷ cs, h)
  Carries-command (b ∷ bs) index term ms [] h = absurd h
  Carries-command (b ∷ bs) index term ms (c ∷ cs) h = (cs, h.1)

module _ {E : Type 0} (api : Engine E) (gob : Gob) (coding : CommandGob) where
  apply_command-encode_command :
      (c : Command) (b : ℕ) (bs : Bytes) (m : Machine E)
      → coding.encode_command c ≡ some (b ∷ bs)
      → apply_command api coding (b ∷ bs) m ≡ apply api c m
  unfolding apply_command
  apply_command-encode_command c b bs m h =
      rw (apply_command, coding.decode_command-encode_command c (b ∷ bs) h) refl

  turn-machine :
      (content : Bytes) (index term : ℕ) (c : Core E)
      → (turn api gob coding (command_msg content index term) c).machine
        ≡ (apply_command api coding content c.machine).0
  turn-machine content index term c = ground arith

  turn-applied :
      (content : Bytes) (index term : ℕ) (c : Core E)
      → (turn api gob coding (command_msg content index term) c).applied ≡ index
  turn-applied content index term c = ground arith

  -- Such messages are the loop over their commands.
  turns-run_commands :
      (ms : List ApplyMsg) (cs : List Command) (c : Core E)
      → Carries coding ms cs
      → (turns api gob coding ms c).machine ≡ run_commands api cs c.machine
  unfolding run_commands apply_command
  turns-run_commands [] [] c h = refl
  turns-run_commands [] (x ∷ cs) c h = absurd h
  turns-run_commands (snapshot_msg bytes index term ∷ ms) cs c h = absurd h
  turns-run_commands (conf_change_msg cc index term ∷ ms) cs c h =
      turns-run_commands ms cs (record c { applied = index }) h
  turns-run_commands (command_msg [] index term ∷ ms) cs c h =
      turns-run_commands ms cs (turn api gob coding (command_msg [] index term) c) h
      ∙ ap (run_commands api cs) (turn-machine [] index term c)
  turns-run_commands (command_msg (b ∷ bs) index term ∷ ms) [] c h = absurd h
  turns-run_commands (command_msg (b ∷ bs) index term ∷ ms) (x ∷ cs) c (e, h) =
      turns-run_commands ms cs (turn api gob coding (command_msg (b ∷ bs) index term) c) h
      ∙ ap (run_commands api cs) (
          turn-machine (b ∷ bs) index term c
          ∙ ap (λ r. r.0) (apply_command-encode_command x b bs c.machine e))

  turns-applied :
      (ms : List ApplyMsg) (cs : List Command) (c d : Core E)
      → Carries coding ms cs
      → c.applied ≡ d.applied
      → (turns api gob coding ms c).applied ≡ (turns api gob coding ms d).applied
  turns-applied [] cs c d h e = e
  turns-applied (snapshot_msg bytes index term ∷ ms) cs c d h e =
      absurd (Carries-snapshot coding bytes index term ms cs h)
  turns-applied (conf_change_msg cc index term ∷ ms) cs c d h e =
      turns-applied ms cs (record c { applied = index }) (record d { applied = index })
        (Carries-change coding cc index term ms cs h) refl
  turns-applied (command_msg content index term ∷ ms) cs c d h e =
      let (rest, carried) = Carries-command coding content index term ms cs h in
      turns-applied ms rest (turn api gob coding (command_msg content index term) c)
        (turn api gob coding (command_msg content index term) d) carried
        (turn-applied content index term c ∙ sym (turn-applied content index term d))

module _ {E C D : Type 0} (api : Engine E) (gob : Gob) (coding : CommandGob)
    (dial : Bytes → Option C) (dial' : Bytes → Option D) where
  -- A server that falls back on another's snapshot ends as the other does. The one has applied up to
  -- the snapshot's index, in order, and takes the entries behind it; the other restores the snapshot
  -- and takes the same entries; between them, the calls of either do what they like. Where the
  -- restore succeeds, and each command is one that both engines can take and apply without an error,
  -- both have then applied the same index, have the clients' numbers alike, and answer every read
  -- alike.
  pub snapshot-replicas_agree :
      (ms : List ApplyMsg) (cs : List Command) (bytes : Bytes) (index term : ℕ)
      → (es : List Event) (sys sys1 : System E C) → (fs : List Event) (sib sib1 : System E D)
      → Carries coding ms cs
      → messages es ≡ ms
      → messages fs ≡ snapshot_msg bytes index term ∷ ms
      → api.InOrder sys.server.machine.engine
      → sys.server.applied ≡ index
      → snapshot api gob sys.server.machine ≡ some bytes
      → (restore api gob bytes sib.server.machine).1 ≡ true
      → Runs api cs sys.server.machine
      → Runs api cs (restore api gob bytes sib.server.machine).0
      → run_events api gob coding dial es sys ≡ some sys1
      → run_events api gob coding dial' fs sib ≡ some sib1
      → (sib1.server.applied ≡ sys1.server.applied)
        × (sib1.server.machine.last_seq ≡ sys1.server.machine.last_seq)
        × ((k : Bytes) → lookup api k sib1.server.machine ≡ lookup api k sys1.server.machine)
  snapshot-replicas_agree ms cs bytes index term es sys sys1 fs sib sib1 carried from from' v
        at_index taken ok rs rt ran ran' =
      let m = sys.server.machine in
      let r = (restore api gob bytes sib.server.machine).0 in
      let first =
        run_events-core api gob coding dial es sys sys1 ran
        ∙ ap (λ x. turns api gob coding x (core sys.server)) from in
      let behind : Core E = record (core sib.server) { machine = r; applied = index } in
      let second =
        run_events-core api gob coding dial' fs sib sib1 ran'
        ∙ ap (λ x. turns api gob coding x (core sib.server)) from'
        ∙ ap (turns api gob coding ms) (restored bytes index term (core sib.server) ok) in
      let (seqs, reads) =
        restore-run_commands api gob cs m sib.server.machine bytes v taken ok rs rt in
      let one : sys1.server.machine ≡ run_commands api cs m =
        ap (λ c. c.machine) first
        ∙ turns-run_commands api gob coding ms cs (core sys.server) carried in
      let two : sib1.server.machine ≡ run_commands api cs r =
        ap (λ c. c.machine) second ∙ turns-run_commands api gob coding ms cs behind carried in
      (
        ap (λ c. c.applied) second
            ∙ turns-applied api gob coding ms cs behind (core sys.server) carried (sym at_index)
            ∙ sym (ap (λ c. c.applied) first),
        ap (λ x. x.last_seq) two ∙ seqs ∙ sym (ap (λ x. x.last_seq) one),
        λ k. ap (lookup api k) two ∙ reads k ∙ sym (ap (lookup api k) one),
      )
    where
      restored :
          (bytes : Bytes) (index term : ℕ) (c : Core E)
          → (restore api gob bytes c.machine).1 ≡ true
          → turn api gob coding (snapshot_msg bytes index term) c
            ≡ record c { machine = (restore api gob bytes c.machine).0; applied = index }
      restored bytes index term c h = rw h refl
