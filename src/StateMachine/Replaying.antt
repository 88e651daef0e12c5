-- ===== src/StateMachine/Replaying.antt =====
-- The same commands on two state machines of server/statemachine.go, whose engines may differ: a
-- replica after a restart or a snapshot beside one that has run all along.
use distkv.Prelude.{
  ◌≡◌, ◌⊎◌, inl, inr, refl, sym, ◌∙◌, Bool, true, false, Option, none, some, List, [], ◌∷◌, not,
  ◌&&◌, ◌||◌, arith, if◌then◌else◌, Bool-cases,
}
use distkv.Codec.{Bytes}
use distkv.Text.{same}
use distkv.StateMachine.{
  Command, CommandOp, put_op, delete_op, unknown_op, Engine, Gob, Machine, CanRun, execute, apply,
  is_duplicate, lookup, snapshot, restore,
}
use distkv.StateMachine.Once.{run_commands}
use distkv.StateMachine.Restoring.{restore-snapshot}

-- What an operation makes of a key's value.
abbrev pub effect : CommandOp → Bytes → Bytes → Bytes → Option Bytes → Option Bytes
effect put_op key value k old = if same key k then some value else old
effect delete_op key value k old = if same key k then none else old
effect (unknown_op name) key value k old = old

module _ {E : Type 0} (api : Engine E) where
  get-execute :
      (op : CommandOp) (key value k : Bytes) (e : E)
      → CanRun api op key value e
      → (execute api op key value e).1 ≡ true
      → api.get k (execute api op key value e).0 ≡ effect op key value k (api.get k e)
  unfolding execute
  get-execute put_op key value k e room h = api.get-put key value k e room h
  get-execute delete_op key value k e room h = api.get-delete key k e room h
  get-execute (unknown_op name) key value k e room h = refl

  pub lookup-apply :
      (c : Command) (k : Bytes) (s : Machine E)
      → CanRun api c.op c.key c.value s.engine
      → (apply api c s).1 ≡ true
      → lookup api k (apply api c s).0 ≡ (
          if is_duplicate api c s
          then lookup api k s
          else effect c.op c.key c.value k (lookup api k s))
  unfolding lookup apply
  lookup-apply c k s room h = elim (Bool-cases (is_duplicate api c s)) [
    | inl again ↦ rw again refl
    | inr fresh ↦ elim (Bool-cases (execute api c.op c.key c.value s.engine).1) [
      | inl ok ↦ rw (fresh, ok) (get-execute c.op c.key c.value k s.engine room ok)
      | inr refused ↦ let stuck : false ≡ true = rw (fresh, refused) at h in cc stuck
    ]
  ]

  pub fresh_taken :
      (c : Command) (s : Machine E)
      → (apply api c s).1 ≡ true
      → is_duplicate api c s ≡ false
      → (execute api c.op c.key c.value s.engine).1 ≡ true
  unfolding apply
  fresh_taken c s h f = ground arith

  -- Every command is one that the engine can take, and is applied without an error.
  abbrev pub Runs : List Command → Machine E → Type 0
  Runs [] s = Unit
  Runs (c ∷ cs) s =
      CanRun api c.op c.key c.value s.engine
      × ((apply api c s).1 ≡ true)
      × Runs cs (apply api c s).0

  -- Whether some command that is no retry names the key.
  unfoldable pub writes : Bytes → List Command → Machine E → Bool
  unfolding apply is_duplicate
  writes k [] s = false
  writes k (c ∷ cs) s =
      (not (is_duplicate api c s) && same c.key k) || writes k cs (apply api c s).0

module _ {E F : Type 0} (a : Engine E) (b : Engine F) where
  same_duplicate :
      (c : Command) (s : Machine E) (t : Machine F)
      → s.last_seq ≡ t.last_seq
      → is_duplicate a c s ≡ is_duplicate b c t
  unfolding is_duplicate
  same_duplicate c s t h = rw h refl

  last_seq-apply :
      (c : Command) (s : Machine E) (t : Machine F)
      → s.last_seq ≡ t.last_seq
      → (apply a c s).1 ≡ true
      → (apply b c t).1 ≡ true
      → (apply a c s).0.last_seq ≡ (apply b c t).0.last_seq
  unfolding apply
  last_seq-apply c s t h ok_s ok_t = ground (arith, same_duplicate c s t h)

  -- A fresh command leaves both with one answer for its key, whatever they had.
  effect_own :
      (op : CommandOp) (key value k : Bytes) (old older : Option Bytes) (e : E)
      → (execute a op key value e).1 ≡ true
      → same key k ≡ true
      → effect op key value k old ≡ effect op key value k older
  unfolding execute
  effect_own put_op key value k old older e ok h = rw h refl
  effect_own delete_op key value k old older e ok h = rw h refl
  effect_own (unknown_op name) key value k old older e ok h = cc ok

  lookup-apply-same :
      (c : Command) (k : Bytes) (s : Machine E) (t : Machine F)
      → s.last_seq ≡ t.last_seq
      → CanRun a c.op c.key c.value s.engine
      → CanRun b c.op c.key c.value t.engine
      → (apply a c s).1 ≡ true
      → (apply b c t).1 ≡ true
      → (lookup a k s ≡ lookup b k t) ⊎ ((is_duplicate a c s ≡ false) × (same c.key k ≡ true))
      → lookup a k (apply a c s).0 ≡ lookup b k (apply b c t).0
  lookup-apply-same c k s t h room_s room_t ok_s ok_t known =
      lookup-apply a c k s room_s ok_s ∙ joined ∙ sym (lookup-apply b c k t room_t ok_t)
    where
      joined :
          (if is_duplicate a c s then lookup a k s else effect c.op c.key c.value k (lookup a k s))
          ≡ (if is_duplicate b c t
              then lookup b k t
              else effect c.op c.key c.value k (lookup b k t))
      joined = elim known [
        | inl agree ↦ rw (same_duplicate c s t h, agree) refl
        | inr (fresh, own) ↦
            let fresh_t : is_duplicate b c t ≡ false = sym (same_duplicate c s t h) ∙ fresh in
            rw (fresh, fresh_t)
              (effect_own c.op c.key c.value k (lookup a k s) (lookup b k t) s.engine
                (fresh_taken a c s ok_s fresh) own)
      ]

  -- Two machines with the same numbers of the clients run the same commands, each of which both can
  -- take and apply without an error. They then have the same numbers again, and the same answer for
  -- every key for which they had one before or that some command, no retry, has written.
  pub run_commands-agree :
      (cs : List Command) (k : Bytes) (s : Machine E) (t : Machine F)
      → s.last_seq ≡ t.last_seq
      → Runs a cs s
      → Runs b cs t
      → (lookup a k s ≡ lookup b k t) ⊎ (writes a k cs s ≡ true)
      → ((run_commands a cs s).last_seq ≡ (run_commands b cs t).last_seq)
        × (lookup a k (run_commands a cs s) ≡ lookup b k (run_commands b cs t))
  unfolding run_commands writes
  run_commands-agree [] k s t h rs rt (inl agree) = (h, agree)
  run_commands-agree [] k s t h rs rt (inr written) = cc written
  run_commands-agree (c ∷ cs) k s t h (room_s, ok_s, rs) (room_t, ok_t, rt) known =
      run_commands-agree cs k (apply a c s).0 (apply b c t).0 (last_seq-apply c s t h ok_s ok_t) rs
        rt (next known)
    where
      next :
          (lookup a k s ≡ lookup b k t)
            ⊎ ((not (is_duplicate a c s) && same c.key k || writes a k cs (apply a c s).0) ≡ true)
          → (lookup a k (apply a c s).0 ≡ lookup b k (apply b c t).0)
            ⊎ (writes a k cs (apply a c s).0 ≡ true)
      next (inl agree) = inl (lookup-apply-same c k s t h room_s room_t ok_s ok_t (inl agree))
      next (inr written) = elim (Bool-cases (writes a k cs (apply a c s).0)) [
        | inl later ↦ inr later
        | inr never ↦
            let now : (is_duplicate a c s ≡ false) × (same c.key k ≡ true) =
              ground (arith, never, written) in
            inl (lookup-apply-same c k s t h room_s room_t ok_s ok_t (inr now))
      ]

-- A replica that restores another's snapshot and goes on with the same commands as the other answers
-- every read as the other does. The other's engine is in order, the restore succeeds, and each
-- command is one that both can take and apply without an error.
pub restore-run_commands :
    {E : Type 0} (api : Engine E) (gob : Gob) (cs : List Command) (s t : Machine E) (b : Bytes)
    → api.InOrder s.engine
    → snapshot api gob s ≡ some b
    → (restore api gob b t).1 ≡ true
    → Runs api cs s
    → Runs api cs (restore api gob b t).0
    → ((run_commands api cs (restore api gob b t).0).last_seq ≡ (run_commands api cs s).last_seq)
      × ((k : Bytes)
          → lookup api k (run_commands api cs (restore api gob b t).0)
            ≡ lookup api k (run_commands api cs s))
restore-run_commands api gob cs s t b v taken ok rs rt =
    let r = (restore api gob b t).0 in
    let (reads, seqs, after) = restore-snapshot api gob s t b v taken ok in
    (
      (run_commands-agree api api cs [] r s seqs rt rs (inl (reads []))).0,
      λ k. (run_commands-agree api api cs k r s seqs rt rs (inl (reads k))).1,
    )
