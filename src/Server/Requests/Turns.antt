-- ===== src/Server/Requests/Turns.antt =====
-- A turn of applyLoop of server/server.go: what it leaves of the waiters, and what it tells them.
use distkv.Prelude.{
  ℕ, ◌+◌, ◌≡◌, inl, inr, refl, ap, ◌∙◌, Bool, true, Option, some, List, [], ◌∷◌, if◌then◌else◌, leb,
  Bool-cases, Option-cases, All,
}
use distkv.Codec.{Bytes}
use distkv.IdMap.{look, del, put}
use distkv.Node.Membership.{ApplyMsg, command_msg, conf_change_msg, snapshot_msg}
use distkv.StateMachine.{Engine, Gob, Machine, restore}
use distkv.Server.{
  Server, snapshot_threshold, CommandGob, WaitResult, on_message, notify, apply_command,
  after_notify, take_snapshot, on_conf_change_applied,
}
use distkv.Server.Requests.{Caller}
use distkv.Server.Requests.Waiting.{Sound, send-Sound}

-- An entry that the loop has taken, with its index and term: a command, with whether it was applied
-- without an error, or a membership change. The node's applier sends a change on whether or not its
-- membership took it, and the message does not say.
pub data Outcome : Type 0 where
  command_outcome : ℕ → ℕ → Bool → Outcome
  change_outcome : ℕ → ℕ → Outcome

module _ {E : Type 0} (api : Engine E) (gob : Gob) (coding : CommandGob) where
  -- The machine after a message, without the calls.
  abbrev pub after : ApplyMsg → Machine E → Machine E
  after (snapshot_msg bytes index term) m = (restore api gob bytes m).0
  after (conf_change_msg cc index term) m = m
  after (command_msg content index term) m = (apply_command api coding content m).0

  abbrev pub outcomes : List ApplyMsg → Machine E → List Outcome
  outcomes [] m = []
  outcomes (snapshot_msg bytes index term ∷ ms) m = outcomes ms (restore api gob bytes m).0
  outcomes (conf_change_msg cc index term ∷ ms) m = change_outcome index term ∷ outcomes ms m
  outcomes (command_msg content index term ∷ ms) m =
      let (m1, ok) = apply_command api coding content m in
      command_outcome index term ok ∷ outcomes ms m1

-- What the loop tells a call that waits for the entry: of a change, always that it went well.
abbrev pub Told : (ℕ → ℕ → Bool → Type 0) → Outcome → Type 0
Told P (command_outcome index term well) = P index term well
Told P (change_outcome index term) = P index term true

module _ {E C : Type 0} (P : ℕ → ℕ → Bool → Type 0) (callers : List (ℕ × Caller)) where
  abbrev pub SoundServer : Server E C → Type 0
  SoundServer s = Sound P s.waiters s.channels callers

  notify-Sound :
      (index : ℕ) (res : WaitResult) (s : Server E C)
      → P index res.term res.applied_well
      → SoundServer s
      → (s1 : Server E C) × (notify index res s ≡ some s1)
        × SoundServer s1
        × (s1.machine ≡ s.machine)
  unfolding notify
  notify-Sound index res s p v = elim (Option-cases (look index s.waiters)) [
    | inl nobody ↦ (s, rw (notify, nobody) refl, v, refl)
    | inr (ch, waits) ↦
        let (t, at_ch, free) = v.waits index ch waits in
        (
          record s { channels = put ch res s.channels; waiters = del index s.waiters },
          rw (notify, waits, free) refl,
          send-Sound P s.waiters s.channels callers index ch res waits p v,
          refl,
        )
  ]

module _ {E C : Type 0} (api : Engine E) (gob : Gob) (coding : CommandGob) (dial : Bytes → Option C)
    (P : ℕ → ℕ → Bool → Type 0) where
  abbrev pub Promised : List ApplyMsg → Machine E → Type 0
  Promised ms m = All (Told P) (outcomes api gob coding ms m)

  -- A turn of applyLoop does not block, keeps what is sound, and runs the message on the machine.
  pub on_message-Sound :
      (m : ApplyMsg) (callers : List (ℕ × Caller)) (s : Server E C)
      → Promised (m ∷ []) s.machine
      → SoundServer P callers s
      → (s1 : Server E C) × (on_message api gob coding dial m s ≡ some s1)
        × SoundServer P callers s1
        × (s1.machine ≡ after api gob coding m s.machine)
  unfolding on_message take_snapshot after_notify
  on_message-Sound (snapshot_msg bytes index term) callers s p v =
      elim (Bool-cases (restore api gob bytes s.machine).1) [
        | inl ok ↦ (
          record s { machine = (restore api gob bytes s.machine).0; applied = index },
          rw ok refl,
          v,
          refl,
        )
        | inr failed ↦
            (record s { machine = (restore api gob bytes s.machine).0 }, rw failed refl, v, refl)
      ]
  on_message-Sound (conf_change_msg cc index term) callers s p v =
      notify-Sound P callers index (record { term = term; applied_well = true })
        (record s { transport = on_conf_change_applied dial cc s.transport; applied = index }) p.0 v
  on_message-Sound (command_msg content index term) callers s p v =
      let (m1, ok) = apply_command api coding content s.machine in
      let need_snap = leb snapshot_threshold (s.since_snap + 1) in
      let (s1, sent, v1, same) =
        notify-Sound P callers index (record { term = term; applied_well = ok })
          (record s {
            machine = m1;
            applied = index;
            since_snap = if need_snap then 0 else s.since_snap + 1;
          })
          p.0 v in
      elim (Bool-cases need_snap) [
        | inl due ↦ (
          take_snapshot api gob index s1,
          ap (after_notify api gob need_snap index) sent ∙ rw due refl,
          v1,
          same,
        )
        | inr early ↦ (s1, ap (after_notify api gob need_snap index) sent ∙ rw early refl, v1, same)
      ]

  pub first_promise :
      (m : ApplyMsg) (ms : List ApplyMsg) (a : Machine E)
      → Promised (m ∷ ms) a
      → Promised (m ∷ []) a × Promised ms (after api gob coding m a)
  first_promise (snapshot_msg bytes index term) ms a p = (tt, p)
  first_promise (conf_change_msg cc index term) ms a p = ((p.0, tt), p.1)
  first_promise (command_msg content index term) ms a p = ((p.0, tt), p.1)
