-- ===== src/StateMachine.antt =====
-- server/statemachine.go: committed commands on the storage engine, once for each client request.
pub mod Once
pub mod Restoring
pub mod OnEngine
pub mod Replaying
use distkv.Prelude.{
  ℕ, ◌≡◌, Bool, true, false, Option, none, some, List, [], ◌∷◌, ltb, leb, ◌==◌, if◌then◌else◌, not,
  ◌&&◌,
}
use distkv.Codec.{Bytes}
use distkv.Text.{same}

abbrev pub is_empty : Bytes → Bool
is_empty [] = true
is_empty (x ∷ xs) = false

-- Command.Op: "put", "delete", or any other string.
pub data CommandOp : Type 0 where
  put_op delete_op : CommandOp
  unknown_op : Bytes → CommandOp

pub record Command : Type 0 where
  pub op : CommandOp
  pub key : Bytes
  pub value : Bytes
  pub client_id : Bytes
  pub seq : ℕ

-- Go's map[string][]byte and map[string]uint64, as lists of their entries. A read of a missing
-- client gives 0.
abbrev pub Contents : Type 0
Contents = List (Bytes × Bytes)

abbrev pub SeqMap : Type 0
SeqMap = List (Bytes × ℕ)

unfoldable pub find : Contents → Bytes → Option Bytes
find [] j = none
find ((k, v) ∷ d) j = if same k j then some v else find d j

unfoldable pub seq_of : SeqMap → Bytes → ℕ
seq_of [] j = 0
seq_of ((id, v) ∷ m) j = if same id j then v else seq_of m j

unfoldable pub set_seq : SeqMap → Bytes → ℕ → SeqMap
set_seq [] id v = (id, v) ∷ []
set_seq ((k, w) ∷ m) id v = if same k id then (k, v) ∷ m else (k, w) ∷ set_seq m id v

-- What the state machine uses of storage/engine.go: the calls, each with whether it succeeded,
-- and what Put, Delete, SnapshotEntries and Reset promise to Get, of an engine that is in order and
-- can take the value, or the deletion, that it is given. `get` is what Get finds, and `can_read`
-- whether it gives no error. A dump is a map as SnapshotEntries gives it.
pub record Engine (E : Type 0) : Type 1 where
  pub put : Bytes → Bytes → E → E × Bool
  pub delete : Bytes → E → E × Bool
  pub get : Bytes → E → Option Bytes
  pub can_read : Bytes → E → Bool
  pub snapshot_entries : E → Option Contents
  pub reset : Contents → E → E × Bool
  pub InOrder : E → Type 0
  pub CanTake : Bytes → Option Bytes → E → Type 0
  pub IsDump : Contents → Type 0
  pub put-InOrder : (k v : Bytes) (e : E) → CanTake k (some v) e → InOrder (put k v e).0
  pub get-put :
      (k v j : Bytes) (e : E)
      → CanTake k (some v) e
      → (put k v e).1 ≡ true
      → get j (put k v e).0 ≡ (if same k j then some v else get j e)
  pub delete-InOrder : (k : Bytes) (e : E) → CanTake k none e → InOrder (delete k e).0
  pub get-delete :
      (k j : Bytes) (e : E)
      → CanTake k none e
      → (delete k e).1 ≡ true
      → get j (delete k e).0 ≡ (if same k j then none else get j e)
  pub snapshot_entries-IsDump :
      (e : E) (d : Contents) → InOrder e → snapshot_entries e ≡ some d → IsDump d
  pub get-snapshot_entries :
      (e : E) (d : Contents)
      → InOrder e
      → snapshot_entries e ≡ some d
      → (j : Bytes) → find d j ≡ get j e
  pub reset-InOrder :
      (d : Contents) (e : E) → IsDump d → (reset d e).1 ≡ true → InOrder (reset d e).0
  pub get-reset :
      (d : Contents) (e : E)
      → IsDump d
      → (reset d e).1 ≡ true
      → (j : Bytes) → get j (reset d e).0 ≡ find d j

-- snapshotState, and encoding/gob, which gives back what was encoded.
pub record SnapshotState : Type 0 where
  pub contents : Contents
  pub last_seq : SeqMap

pub record Gob : Type 0 where
  pub encode : SnapshotState → Option Bytes
  pub decode : Bytes → Option SnapshotState
  pub decode-encode : (st : SnapshotState) (b : Bytes) → encode st ≡ some b → decode b ≡ some st

pub record Machine (E : Type 0) : Type 0 where
  pub engine : E
  pub last_seq : SeqMap

module _ {E : Type 0} (api : Engine E) where
  unfoldable pub new_state_machine : E → Machine E
  new_state_machine e = record { engine = e; last_seq = [] }

  -- The switch on the operation.
  unfoldable pub execute : CommandOp → Bytes → Bytes → E → E × Bool
  execute put_op key value e = api.put key value e
  execute delete_op key value e = api.delete key e
  execute (unknown_op name) key value e = (e, false)

  -- The engine can take what the operation writes.
  abbrev pub CanRun : CommandOp → Bytes → Bytes → E → Type 0
  CanRun put_op key value e = api.CanTake key (some value) e
  CanRun delete_op key value e = api.CanTake key none e
  CanRun (unknown_op name) key value e = Unit

  unfoldable pub is_duplicate : Command → Machine E → Bool
  is_duplicate c s =
      not (is_empty c.client_id) && (ltb 0 c.seq && leb c.seq (seq_of s.last_seq c.client_id))

  unfoldable pub apply : Command → Machine E → Machine E × Bool
  unfolding execute is_duplicate
  apply c s =
      let (e, ok) = execute c.op c.key c.value s.engine in
      if is_duplicate c s then (s, true) else if not ok then (record s { engine = e }, false) else (
        record {
          engine = e;
          last_seq =
              if not (is_empty c.client_id)
              then set_seq s.last_seq c.client_id c.seq
              else s.last_seq;
        },
        true,
      )

  unfoldable pub lookup : Bytes → Machine E → Option Bytes
  lookup key s = api.get key s.engine

  -- What the state machine's get answers: none is an error.
  unfoldable pub read_key : Bytes → Machine E → Option (Option Bytes)
  unfolding lookup
  read_key key s = if api.can_read key s.engine then some (lookup key s) else none

  unfoldable pub snapshot : Gob → Machine E → Option Bytes
  snapshot gob s = elim (api.snapshot_entries s.engine) [
    | none ↦ none
    | some contents ↦ gob.encode (record { contents = contents; last_seq = s.last_seq })
  ]

  unfoldable pub restore : Gob → Bytes → Machine E → Machine E × Bool
  restore gob bytes s = elim (gob.decode bytes) [
    | none ↦ (s, false)
    | some st ↦
        let (e, ok) = api.reset st.contents s.engine in
        if not ok
        then (record s { engine = e }, false)
        else (record { engine = e; last_seq = st.last_seq }, true)
  ]
