-- ===== src/Server/Requests/Refinement.antt =====
-- The steps of server/server.go, seen without the calls.
use distkv.Prelude.{
  ℕ, ◌+◌, ◌≡◌, inl, inr, refl, sym, ap, ◌∙◌, true, Option, none, some, List, [], ◌∷◌, if◌then◌else◌,
  leb, Bool-cases, Option-cases,
}
use distkv.Codec.{Bytes}
use distkv.IdMap.{look, del, put}
use distkv.Node.Membership.{ApplyMsg, command_msg, conf_change_msg, snapshot_msg}
use distkv.StateMachine.{Engine, Gob, restore, snapshot}
use distkv.Server.{
  Server, snapshot_threshold, CommandGob, WaitResult, on_message, notify, apply_command,
  after_notify, take_snapshot, on_conf_change_applied,
}
use distkv.Server.Requests.{
  Event, System, message, called, registered, woken, cancelled, timed_out, deadline_exceeded,
  unavailable, system_step, run_events, messages, begin_call, register_waiter, wake, give_up,
}
use distkv.Server.Requests.Core.{
  Core, core, turn, turns, begin_call-core, register_waiter-core, wake-core, give_up-core,
}

core_of_some : {E C : Type 0} (s s1 : Server E C) → some s ≡ some s1 → core s1 ≡ core s
core_of_some s s1 h = let e : s ≡ s1 = cc h in ap core (sym e)

notify-core :
    {E C : Type 0} (index : ℕ) (res : WaitResult) (s s1 : Server E C)
    → notify index res s ≡ some s1
    → core s1 ≡ core s
unfolding notify
notify-core index res s s1 h = elim (Option-cases (look index s.waiters)) [
  | inl nobody ↦ core_of_some s s1 (rw (notify, nobody) at h)
  | inr (ch, waits) ↦ elim (Option-cases (look ch s.channels)) [
    | inl free ↦
        core_of_some (record s { channels = put ch res s.channels; waiters = del index s.waiters })
          s1 (rw (notify, waits, free) at h)
    | inr (old, full) ↦
        let gone : none ≡ some s1 = rw (notify, waits, full) at h in absurd (cc gone)
  ]
]

module _ {E C : Type 0} (api : Engine E) (gob : Gob) (coding : CommandGob)
    (dial : Bytes → Option C) where
  abbrev snapped : ℕ → Core E → Core E
  snapped index c = record c {
    snapshots = elim (snapshot api gob c.machine) [
      | none ↦ c.snapshots
      | some bytes ↦ (index, bytes) ∷ c.snapshots
    ];
  }

  on_message-core :
      (m : ApplyMsg) (s s1 : Server E C)
      → on_message api gob coding dial m s ≡ some s1
      → core s1 ≡ turn api gob coding m (core s)
  unfolding on_message after_notify take_snapshot
  on_message-core (snapshot_msg bytes index term) s s1 h =
      let (m, ok) = restore api gob bytes s.machine in
      elim (Bool-cases ok) [
        | inl good ↦
            let e : core s1 ≡ core (record s { machine = m; applied = index }) =
              core_of_some (record s { machine = m; applied = index }) s1 (rw good at h) in
            e ∙ rw good refl
        | inr bad ↦
            let e : core s1 ≡ core (record s { machine = m }) =
              core_of_some (record s { machine = m }) s1 (rw bad at h) in
            e ∙ rw bad refl
      ]
  on_message-core (conf_change_msg cc index term) s s1 h =
      notify-core index (record { term = term; applied_well = true })
        (record s { transport = on_conf_change_applied dial cc s.transport; applied = index }) s1 h
  on_message-core (command_msg content index term) s s1 h =
      let (m, ok) = apply_command api coding content s.machine in
      let need_snap = leb snapshot_threshold (s.since_snap + 1) in
      let res : WaitResult = record { term = term; applied_well = ok } in
      let before : Server E C = record s {
        machine = m;
        applied = index;
        since_snap = if need_snap then 0 else s.since_snap + 1;
      } in
      elim (Option-cases (notify index res before)) [
        | inl blocked ↦
            let gone : none ≡ some s1 =
              sym (ap (after_notify api gob need_snap index) blocked) ∙ h in
            absurd (cc gone)
        | inr (s2, sent) ↦
            let told : some (if need_snap then take_snapshot api gob index s2 else s2) ≡ some s1 =
              sym (ap (after_notify api gob need_snap index) sent) ∙ h in
            elim (Bool-cases need_snap) [
              | inl due ↦
                  let e : some (take_snapshot api gob index s2) ≡ some s1 = rw due at told in
                  core_of_some (take_snapshot api gob index s2) s1 e
                  ∙ ap (snapped index) (notify-core index res before s2 sent)
                  ∙ rw due refl
              | inr early ↦
                  let e : some s2 ≡ some s1 = rw early at told in
                  core_of_some s2 s1 e ∙ notify-core index res before s2 sent ∙ rw early refl
            ]
      ]

  server_of_some : (sys sys1 : System E C) → some sys ≡ some sys1 → sys1.server ≡ sys.server
  server_of_some sys sys1 h = let e : sys ≡ sys1 = cc h in ap (λ x. x.server) (sym e)

  by_core :
      (es : List Event) (sys sys1 next : System E C)
      → some next ≡ some sys1
      → core next.server ≡ core sys.server
      → turns api gob coding (messages es) (core sys1.server)
        ≡ turns api gob coding (messages es) (core sys.server)
  by_core es sys sys1 next h k =
      ap (turns api gob coding (messages es)) (ap core (server_of_some next sys1 h) ∙ k)

  system_step-core :
      (e : Event) (es : List Event) (sys sys1 : System E C)
      → system_step api gob coding dial e sys ≡ some sys1
      → turns api gob coding (messages es) (core sys1.server)
        ≡ turns api gob coding (messages (e ∷ es)) (core sys.server)
  unfolding system_step
  system_step-core (message m) es sys sys1 h =
      elim (Option-cases (on_message api gob coding dial m sys.server)) [
        | inl blocked ↦
            let gone : none ≡ some sys1 = rw (system_step, blocked) at h in absurd (cc gone)
        | inr (s1, sent) ↦
            let e : some (record sys { server = s1 }) ≡ some sys1 = rw (system_step, sent) at h in
            let same : sys1.server ≡ s1 = server_of_some (record sys { server = s1 }) sys1 e in
            ap (λ s. turns api gob coding (messages es) (core s)) same
            ∙ ap (turns api gob coding (messages es)) (on_message-core m sys.server s1 sent)
      ]
  system_step-core (called id i t) es sys sys1 h =
      by_core es sys sys1 (begin_call id i t (look id sys.callers) sys) h
        (begin_call-core id i t (look id sys.callers) sys)
  system_step-core (registered id) es sys sys1 h =
      by_core es sys sys1 (register_waiter id (look id sys.callers) sys) h
        (register_waiter-core id (look id sys.callers) sys)
  system_step-core (woken id) es sys sys1 h =
      by_core es sys sys1 (wake id (look id sys.callers) sys) h
        (wake-core id (look id sys.callers) sys)
  system_step-core (cancelled id) es sys sys1 h =
      by_core es sys sys1 (give_up id deadline_exceeded (look id sys.callers) sys) h
        (give_up-core id deadline_exceeded (look id sys.callers) sys)
  system_step-core (timed_out id) es sys sys1 h =
      by_core es sys sys1 (give_up id unavailable (look id sys.callers) sys) h
        (give_up-core id unavailable (look id sys.callers) sys)

  -- The calls have no influence on what is applied: after any steps the machine, the applied index,
  -- the count since the last snapshot and the snapshots are those of a server that takes the same
  -- messages in the same order and that nobody waits for.
  pub run_events-core :
      (es : List Event) (sys sys1 : System E C)
      → run_events api gob coding dial es sys ≡ some sys1
      → core sys1.server ≡ turns api gob coding (messages es) (core sys.server)
  unfolding run_events
  run_events-core [] sys sys1 h = ap core (server_of_some sys sys1 h)
  run_events-core (e ∷ es) sys sys1 h =
      elim (Option-cases (system_step api gob coding dial e sys)) [
        | inl blocked ↦
            let gone : none ≡ some sys1 = rw (run_events, blocked) at h in absurd (cc gone)
        | inr (next, stepped) ↦
            let rest : run_events api gob coding dial es next ≡ some sys1 =
              rw (run_events, stepped) at h in
            run_events-core es next sys1 rest ∙ system_step-core e es sys next stepped
      ]
