-- ===== src/Server/Requests/Answers.antt =====
-- The answers of the calls of server/server.go, and the sends of applyLoop on their channels.
use distkv.Prelude.{
  ℕ, ◌≡◌, ◌≢◌, ◌⊎◌, inl, inr, refl, ap, Bool, true, Option, none, some, List, [], ◌∷◌, All,
}
use mathlib.Core.List.{Memᴰ}
use distkv.Codec.{Bytes}
use distkv.IdMap.{look}
use distkv.Node.Membership.{ApplyMsg, command_msg, conf_change_msg, snapshot_msg}
use distkv.StateMachine.{Engine, Gob, Machine, restore}
use distkv.Server.{Server, CommandGob, apply_command}
use distkv.Server.Requests.{
  Event, System, replied, message, called, registered, woken, cancelled, timed_out, ok_reply,
  deadline_exceeded, unavailable, system_step, run_events, messages, begin_call, register_waiter,
  wake, give_up,
}
use distkv.Server.Requests.Core.{begin_call-core, register_waiter-core, wake-core, give_up-core}
use distkv.Server.Requests.Turns.{
  Outcome, command_outcome, change_outcome, outcomes, Told, Promised, on_message-Sound,
  first_promise,
}
use distkv.Server.Requests.Calls.{
  SoundSystem, begin_call-SoundSystem, register_waiter-SoundSystem, wake-SoundSystem,
  give_up-SoundSystem,
}

All-members :
    (xs : List Outcome) (Q : Outcome → Type 0) → ((o : Outcome) → Memᴰ o xs → Q o) → All Q xs
All-members [] Q f = tt
All-members (x ∷ xs) Q f = (f x (Memᴰ.head refl), All-members xs Q (λ o m. f o (Memᴰ.tail m)))

module _ {E C : Type 0} (api : Engine E) (gob : Gob) (coding : CommandGob) (dial : Bytes → Option C)
    (P : ℕ → ℕ → Bool → Type 0) where
  system_step-Sound :
      (e : Event) (es : List Event) (sys : System E C)
      → Promised api gob coding dial P (messages (e ∷ es)) sys.server.machine
      → SoundSystem P sys
      → (sys1 : System E C) × (system_step api gob coding dial e sys ≡ some sys1)
        × SoundSystem P sys1
        × Promised api gob coding dial P (messages es) sys1.server.machine
  unfolding system_step
  system_step-Sound (message m) es sys p v =
      let (now, later) = first_promise api gob coding dial P m (messages es) sys.server.machine p in
      let (s1, sent, v1, same) =
        on_message-Sound api gob coding dial P m sys.callers sys.server now v in
      (record sys { server = s1 }, rw (system_step, sent) refl, v1, rw same later)
  system_step-Sound (called id i t) es sys p v = (
    begin_call id i t (look id sys.callers) sys,
    refl,
    begin_call-SoundSystem P id i t sys v,
    rw (ap (λ c. c.machine) (begin_call-core id i t (look id sys.callers) sys)) p,
  )
  system_step-Sound (registered id) es sys p v = (
    register_waiter id (look id sys.callers) sys,
    refl,
    register_waiter-SoundSystem P id sys v,
    rw (ap (λ c. c.machine) (register_waiter-core id (look id sys.callers) sys)) p,
  )
  system_step-Sound (woken id) es sys p v = (
    wake id (look id sys.callers) sys,
    refl,
    wake-SoundSystem P id sys v,
    rw (ap (λ c. c.machine) (wake-core id (look id sys.callers) sys)) p,
  )
  system_step-Sound (cancelled id) es sys p v = (
    give_up id deadline_exceeded (look id sys.callers) sys,
    refl,
    give_up-SoundSystem P id deadline_exceeded sys (λ e. cc e) v,
    rw (ap (λ c. c.machine) (give_up-core id deadline_exceeded (look id sys.callers) sys)) p,
  )
  system_step-Sound (timed_out id) es sys p v = (
    give_up id unavailable (look id sys.callers) sys,
    refl,
    give_up-SoundSystem P id unavailable sys (λ e. cc e) v,
    rw (ap (λ c. c.machine) (give_up-core id unavailable (look id sys.callers) sys)) p,
  )

  run_events-Sound :
      (es : List Event) (sys : System E C)
      → Promised api gob coding dial P (messages es) sys.server.machine
      → SoundSystem P sys
      → (sys1 : System E C) × (run_events api gob coding dial es sys ≡ some sys1)
        × SoundSystem P sys1
  unfolding run_events
  run_events-Sound [] sys p v = (sys, refl, v)
  run_events-Sound (e ∷ es) sys p v =
      let (sys1, stepped, v1, later) = system_step-Sound e es sys p v in
      let (sys2, ran, v2) = run_events-Sound es sys1 later v1 in
      (sys2, rw (run_events, stepped) ran, v2)

-- No call waits, and nothing was sent.
abbrev pub start : {E C : Type 0} → Server E C → System E C
start s = record { server = record s { waiters = []; channels = [] }; callers = [] }

module _ {E C : Type 0} (api : Engine E) (gob : Gob) (coding : CommandGob)
    (dial : Bytes → Option C) where
  start-Sound : (P : ℕ → ℕ → Bool → Type 0) (s : Server E C) → SoundSystem P (start s)
  unfolding look
  start-Sound P s = record {
    waits = λ i ch h. absurd (cc h);
    sent = λ ch res h. absurd (cc h);
    answered = λ id i t h. absurd (cc h);
  }

  any_promise :
      (ms : List ApplyMsg) (m : Machine E) → Promised api gob coding dial (λ i t well. Unit) ms m
  any_promise [] m = tt
  any_promise (snapshot_msg bytes index term ∷ ms) m = any_promise ms (restore api gob bytes m).0
  any_promise (conf_change_msg cc index term ∷ ms) m = (tt, any_promise ms m)
  any_promise (command_msg content index term ∷ ms) m =
      (tt, any_promise ms (apply_command api coding content m).0)

  -- Whatever the calls do between its turns, applyLoop never blocks on a channel with the mutex
  -- locked: from a server on which no call waits, every sequence of messages, proposals, entries into
  -- the map of waiters, receives and timeouts runs to its end.
  pub run_events-ne-none :
      (es : List Event) (s : Server E C) → run_events api gob coding dial es (start s) ≢ none
  run_events-ne-none es s h =
      let (sys, ran, v) =
        run_events-Sound api gob coding dial (λ i t well. Unit) es (start s)
          (any_promise (messages es) s.machine) (start-Sound (λ i t well. Unit) s) in
      cc (ran, h)

  -- A call that is answered with success has had its entry committed and taken by this server: from
  -- a server on which no call waits, after any sequence of steps, the loop has taken an entry of the
  -- index and the term that node.Propose or ProposeConfChange gave to the call. It is a command that
  -- was applied without an error, or it is a membership change; of a change the answer does not say
  -- whether the node's membership took it.
  pub run_events-ok_reply :
      (es : List Event) (s : Server E C) (sys : System E C) (id index term : ℕ)
      → run_events api gob coding dial es (start s) ≡ some sys
      → look id sys.callers ≡ some (replied index term ok_reply)
      → Memᴰ (command_outcome index term true) (outcomes api gob coding (messages es) s.machine)
        ⊎ Memᴰ (change_outcome index term) (outcomes api gob coding (messages es) s.machine)
  run_events-ok_reply es s sys id index term h at_id =
      let P : ℕ → ℕ → Bool → Type 0 =
        λ i t well. Memᴰ (command_outcome i t well) outs ⊎ Memᴰ (change_outcome i t) outs in
      let (sys1, ran, v) =
        run_events-Sound api gob coding dial P es (start s) (All-members outs (Told P) taken)
          (start-Sound P s) in
      let same : sys1 ≡ sys = cc (ran, h) in v.answered id index term (rw same at_id)
    where
      outs : List Outcome
      outs = outcomes api gob coding (messages es) s.machine

      taken :
          (o : Outcome)
          → Memᴰ o outs
          → Told
              (λ i t well. Memᴰ (command_outcome i t well) outs ⊎ Memᴰ (change_outcome i t) outs)
              o
      taken (command_outcome i t well) m = inl m
      taken (change_outcome i t) m = inr m
