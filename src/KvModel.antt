-- ===== src/KvModel.antt =====
-- linearizability/model.go: the sequential specification that histories of the store are checked
-- against, for one key.
pub mod Refinement
pub mod Groups
pub mod Histories
use distkv.Prelude.{
  ℕ, Bool, true, false, Option, none, some, List, [], ◌∷◌, if◌then◌else◌, not, ◌&&◌,
}
use distkv.Codec.{Bytes}
use distkv.Text.{same}

-- KVInput.Op: "put", "get", "delete", or any other string.
pub data KvOp : Type 0 where
  put_op get_op delete_op : KvOp
  other_op : Bytes → KvOp

pub record KvInput : Type 0 where
  pub op : KvOp
  pub key : Bytes
  pub value : Bytes

pub record KvOutput : Type 0 where
  pub value : Bytes
  pub found : Bool

pub record KeyState : Type 0 where
  pub present : Bool
  pub val : Bytes

abbrev pub init : KeyState
init = record { present = false; val = [] }

-- Step: whether the output is allowed, and the next state.
unfoldable pub step_op : KvOp → KvInput → KvOutput → KeyState → Bool × KeyState
step_op put_op input out st = (true, record { present = true; val = input.value })
step_op delete_op input out st = (true, init)
step_op get_op input out st =
    if not st.present then (not out.found, st) else (out.found && same out.value st.val, st)
step_op (other_op name) input out st = (false, st)

unfoldable pub step : KeyState → KvInput → KvOutput → Bool × KeyState
unfolding step_op
step st input out = step_op input.op input out st

abbrev pub bool_eq : Bool → Bool → Bool
bool_eq true b = b
bool_eq false b = not b

unfoldable pub equal : KeyState → KeyState → Bool
equal a b = bool_eq a.present b.present && same a.val b.val
