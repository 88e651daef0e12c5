-- ===== src/KvModel/Refinement.antt =====
-- The state machine of server/statemachine.go against the sequential specification of
-- linearizability/model.go.
use distkv.Prelude.{◌≡◌, refl, ap, ◌∙◌, true, false, Option, none, some, [], arith}
use distkv.Codec.{Bytes}
use distkv.Text.{same, same_refl}
use distkv.StateMachine.{
  Command, CommandOp, Engine, Machine, CanRun, execute, apply, is_duplicate, lookup,
}
use distkv.KvModel.{
  KvOp, put_op, get_op, delete_op, other_op, KvInput, KvOutput, KeyState, init, step, step_op,
}

abbrev pub op_of : CommandOp → KvOp
op_of CommandOp.put_op = put_op
op_of CommandOp.delete_op = delete_op
op_of (CommandOp.unknown_op name) = other_op name

abbrev pub input_of : Command → KvInput
input_of c = record { op = op_of c.op; key = c.key; value = c.value }

abbrev pub state_of : Option Bytes → KeyState
state_of none = init
state_of (some v) = record { present = true; val = v }

-- What a read returns to the client.
abbrev pub output_of : Option Bytes → KvOutput
output_of none = record { value = []; found = false }
output_of (some v) = record { value = v; found = true }

module _ {E : Type 0} (api : Engine E) where
  abbrev pub key_state : Bytes → Machine E → KeyState
  key_state k s = state_of (lookup api k s)

  execute-step :
      (op : CommandOp) (key value j : Bytes) (out : KvOutput) (e : E)
      → CanRun api op key value e
      → (execute api op key value e).1 ≡ true
      → (state_of (api.get key (execute api op key value e).0)
          ≡ (step_op
              (op_of op)
              (record { op = op_of op; key = key; value = value })
              out
              (state_of (api.get key e))).1)
        × (same key j ≡ false → api.get j (execute api op key value e).0 ≡ api.get j e)
  unfolding execute step_op
  execute-step CommandOp.put_op key value j out e room h =
      ground
        (arith, api.get-put key value key e room h, api.get-put key value j e room h, same_refl key)
  execute-step CommandOp.delete_op key value j out e room h =
      ground (arith, api.get-delete key key e room h, api.get-delete key j e room h, same_refl key)
  execute-step (CommandOp.unknown_op name) key value j out e room h = cc

  apply_fresh :
      (c : Command) (s : Machine E)
      → (apply api c s).1 ≡ true
      → is_duplicate api c s ≡ false
      → ((execute api c.op c.key c.value s.engine).1 ≡ true)
        × ((apply api c s).0.engine ≡ (execute api c.op c.key c.value s.engine).0)
  unfolding apply
  apply_fresh c s h f = ground arith

  apply_retry : (c : Command) (s : Machine E) → is_duplicate api c s ≡ true → (apply api c s).0 ≡ s
  unfolding apply
  apply_retry c s d = ground arith

  read_allowed :
      (key : Bytes) (o : Option Bytes)
      → step (state_of o) (record { op = get_op; key = key; value = [] }) (output_of o)
        ≡ (true, state_of o)
  unfolding step step_op
  read_allowed key none = refl
  read_allowed key (some v) = rw (same_refl v) refl

  -- A command that is no retry and that the engine can take and takes moves its key as the
  -- specification's Step does, and moves no other key. A retry moves nothing. A read is one that Step allows.
  pub apply_refines :
      (c : Command) (j : Bytes) (out : KvOutput) (s : Machine E)
      → CanRun api c.op c.key c.value s.engine
      → (apply api c s).1 ≡ true
      → (is_duplicate api c s ≡ false
          → (key_state c.key (apply api c s).0 ≡ (step (key_state c.key s) (input_of c) out).1)
            × (same c.key j ≡ false → key_state j (apply api c s).0 ≡ key_state j s))
        × (is_duplicate api c s ≡ true → key_state j (apply api c s).0 ≡ key_state j s)
        × (step
              (key_state j s)
              (record { op = get_op; key = j; value = [] })
              (output_of (lookup api j s))
            ≡ (true, key_state j s))
  unfolding lookup step
  apply_refines c j out s room h = (
    λ f.
        let (done, engine) = apply_fresh c s h f in
        let (own, others) = execute-step c.op c.key c.value j out s.engine room done in
        (
          ap (λ e. state_of (api.get c.key e)) engine ∙ own,
          λ d. ap (λ e. state_of (api.get j e)) engine ∙ ap state_of (others d),
        ),
    λ d. ap (key_state j) (apply_retry c s d),
    read_allowed j (lookup api j s),
  )
