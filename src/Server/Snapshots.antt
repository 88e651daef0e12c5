-- ===== src/Server/Snapshots.antt =====
-- When server/server.go asks the Raft node for a snapshot of its log.
use distkv.Prelude.{
  ℕ, suc, ◌+◌, ◌<◌, ◌/◌, ◌%◌, ◌≡◌, inl, inr, refl, ap, ◌∙◌, Bool, true, false, Option, none, some,
  List, [], ◌∷◌, arith, length, ◌==◌, leb, if◌then◌else◌, Bool-cases,
}
use distkv.Codec.{Bytes}
use distkv.Node.Membership.{ApplyMsg, command_msg, conf_change_msg, snapshot_msg}
use distkv.StateMachine.{Engine, Gob, Machine, restore, snapshot}
use distkv.Server.{snapshot_threshold, CommandGob, apply_command}
use distkv.Server.Requests.{Event, System, run_events, messages}
use distkv.Server.Requests.Core.{Core, core, turn, turns}
use distkv.Server.Requests.Refinement.{run_events-core}

-- The entries that are no membership changes.
abbrev pub commands : List ApplyMsg → ℕ
commands [] = 0
commands (snapshot_msg bytes index term ∷ ms) = commands ms
commands (conf_change_msg cc index term ∷ ms) = commands ms
commands (command_msg content index term ∷ ms) = suc (commands ms)

module _ {E : Type 0} (api : Engine E) (gob : Gob) (coding : CommandGob) where
  -- The machine behind every command at which the number of commands is a multiple of the threshold,
  -- with the command's index. `count` is their number before.
  abbrev pub due : ℕ → List ApplyMsg → Machine E → List (ℕ × Machine E)
  due count [] m = []
  due count (snapshot_msg bytes index term ∷ ms) m = due count ms (restore api gob bytes m).0
  due count (conf_change_msg cc index term ∷ ms) m = due count ms m
  due count (command_msg content index term ∷ ms) m =
      let m1 = (apply_command api coding content m).0 in
      let rest = due (count + 1) ms m1 in
      if (count + 1) % snapshot_threshold == 0 then (index, m1) ∷ rest else rest

  -- Their encodings before the older ones, the last one first. One that fails is left out.
  abbrev pub snapshots_of : List (ℕ × Machine E) → List (ℕ × Bytes) → List (ℕ × Bytes)
  snapshots_of [] older = older
  snapshots_of ((index, m) ∷ rest) older =
      snapshots_of rest
        (elim (snapshot api gob m) [ none ↦ older | some bytes ↦ (index, bytes) ∷ older ])

  length-due :
      (count : ℕ) (ms : List ApplyMsg) (m : Machine E)
      → (count + commands ms) / snapshot_threshold
        ≡ count / snapshot_threshold + length (due count ms m)
  length-due count [] m = omega arith
  length-due count (snapshot_msg bytes index term ∷ ms) m =
      length-due count ms (restore api gob bytes m).0
  length-due count (conf_change_msg cc index term ∷ ms) m = length-due count ms m
  length-due count (command_msg content index term ∷ ms) m =
      let later = length-due (count + 1) ms (apply_command api coding content m).0 in
      elim (Bool-cases ((count + 1) % snapshot_threshold == 0)) [
        | inl full ↦ rw full (ground (arith, later, full))
        | inr between ↦ rw between (ground (arith, later, between))
      ]

  -- A turn for a command, whether or not a snapshot is due.
  abbrev turn_of : Core E → Machine E → ℕ → Bool → Core E
  turn_of c m index need_snap =
      if need_snap
      then record {
        machine = m;
        applied = index;
        since_snap = 0;
        snapshots = elim (snapshot api gob m) [
          | none ↦ c.snapshots
          | some bytes ↦ (index, bytes) ∷ c.snapshots
        ];
      }
      else record c { machine = m; applied = index; since_snap = c.since_snap + 1 }

  -- What the loop counts, and the snapshots that it takes.
  turns-since_snap :
      (ms : List ApplyMsg) (c : Core E) (count : ℕ)
      → c.since_snap ≡ count % snapshot_threshold
      → ((turns api gob coding ms c).since_snap ≡ (count + commands ms) % snapshot_threshold)
        × ((turns api gob coding ms c).snapshots
            ≡ snapshots_of (due count ms c.machine) c.snapshots)
  turns-since_snap [] c count h = (omega (arith, h), refl)
  turns-since_snap (snapshot_msg bytes index term ∷ ms) c count h =
      elim (Bool-cases (restore api gob bytes c.machine).1) [
        | inl ok ↦
            let c1 : Core E = record c {
              machine = (restore api gob bytes c.machine).0;
              applied = index;
            } in
            let turned : turn api gob coding (snapshot_msg bytes index term) c ≡ c1 = rw ok refl in
            let (counted, taken) = turns-since_snap ms c1 count h in
            (
              ap (λ d. (turns api gob coding ms d).since_snap) turned ∙ counted,
              ap (λ d. (turns api gob coding ms d).snapshots) turned ∙ taken,
            )
        | inr failed ↦
            let c1 : Core E = record c { machine = (restore api gob bytes c.machine).0 } in
            let turned : turn api gob coding (snapshot_msg bytes index term) c ≡ c1 =
              rw failed refl in
            let (counted, taken) = turns-since_snap ms c1 count h in
            (
              ap (λ d. (turns api gob coding ms d).since_snap) turned ∙ counted,
              ap (λ d. (turns api gob coding ms d).snapshots) turned ∙ taken,
            )
      ]
  turns-since_snap (conf_change_msg cc index term ∷ ms) c count h =
      turns-since_snap ms (record c { applied = index }) count h
  turns-since_snap (command_msg content index term ∷ ms) c count h =
      let m1 = (apply_command api coding content c.machine).0 in
      let m = command_msg content index term in
      elim (Bool-cases (leb snapshot_threshold (c.since_snap + 1))) [
        | inl need_snap ↦
            let full : ((count + 1) % snapshot_threshold == 0) ≡ true =
              ground (arith, h, need_snap) in
            let c1 : Core E = record {
              machine = m1;
              applied = index;
              since_snap = 0;
              snapshots = elim (snapshot api gob m1) [
                | none ↦ c.snapshots
                | some bytes ↦ (index, bytes) ∷ c.snapshots
              ];
            } in
            let turned : turn api gob coding m c ≡ c1 = ap (turn_of c m1 index) need_snap in
            let (counted, taken) = turns-since_snap ms c1 (count + 1) (ground (arith, full)) in
            rw full (
              ap (λ d. (turns api gob coding ms d).since_snap) turned ∙ counted ∙ omega arith,
              ap (λ d. (turns api gob coding ms d).snapshots) turned ∙ taken,
            )
        | inr early ↦
            let between : ((count + 1) % snapshot_threshold == 0) ≡ false =
              ground (arith, h, early) in
            let c1 : Core E = record c {
              machine = m1;
              applied = index;
              since_snap = c.since_snap + 1;
            } in
            let turned : turn api gob coding m c ≡ c1 = ap (turn_of c m1 index) early in
            let (counted, taken) = turns-since_snap ms c1 (count + 1) (ground (arith, h, early)) in
            rw between (
              ap (λ d. (turns api gob coding ms d).since_snap) turned ∙ counted ∙ omega arith,
              ap (λ d. (turns api gob coding ms d).snapshots) turned ∙ taken,
            )
      ]

module _ {E C : Type 0} (api : Engine E) (gob : Gob) (coding : CommandGob)
    (dial : Bytes → Option C) where
  -- After any steps, from a count below the threshold, the count since the last snapshot is that of
  -- the commands so far, modulo the threshold; membership entries do not count. The snapshots that
  -- were taken are those of the machine behind every command that makes the number of commands a
  -- multiple of the threshold, at that command's index, except where the machine cannot be encoded.
  -- These commands are as many as the threshold fits into all of them.
  pub run_events-since_snap :
      (es : List Event) (sys sys1 : System E C)
      → sys.server.since_snap < snapshot_threshold
      → run_events api gob coding dial es sys ≡ some sys1
      → (sys1.server.since_snap
          ≡ (sys.server.since_snap + commands (messages es)) % snapshot_threshold)
        × (sys1.server.snapshots
            ≡ snapshots_of api gob coding
                (due api gob coding sys.server.since_snap (messages es) sys.server.machine)
                sys.server.snapshots)
        × (length (due api gob coding sys.server.since_snap (messages es) sys.server.machine)
            ≡ (sys.server.since_snap + commands (messages es)) / snapshot_threshold)
  run_events-since_snap es sys sys1 h ran =
      let count = sys.server.since_snap in
      let same = run_events-core api gob coding dial es sys sys1 ran in
      let (counted, taken) =
        turns-since_snap api gob coding (messages es) (core sys.server) count (omega (arith, h)) in
      let many = length-due api gob coding count (messages es) sys.server.machine in
      (
        ap (λ c. c.since_snap) same ∙ counted,
        ap (λ c. c.snapshots) same ∙ taken,
        omega (arith, many, h),
      )
