-- ===== src/StateMachine/Once.antt =====
-- Retries of a client's command against server/statemachine.go.
use distkv.Prelude.{
  ℕ, ◌≤◌, ◌<◌, ◌≡◌, refl, sym, ap, true, false, List, [], ◌∷◌, arith, if◌then◌else◌, Bool-cases,
  inl, inr, All,
}
use distkv.Codec.{Bytes}
use distkv.Text.{same, same_refl, eq_of_same}
use distkv.StateMachine.{
  Command, Engine, Machine, SeqMap, is_empty, seq_of, set_seq, apply, is_duplicate,
}

pub seq_of-set_seq :
    (m : SeqMap) (id j : Bytes) (v : ℕ)
    → seq_of (set_seq m id v) j ≡ (if same id j then v else seq_of m j)
unfolding seq_of set_seq
seq_of-set_seq [] id j v = refl
seq_of-set_seq ((k, w) ∷ m) id j v = elim (Bool-cases (same k id)) [
  | inl here ↦
      let e : same k j ≡ same id j = ap (λ t. same t j) (eq_of_same k id here) in
      ground (arith, seq_of-set_seq m id j v)
  | inr there ↦ elim (Bool-cases (same id j)) [
    | inl hit ↦
        let e : same k j ≡ same k id = ap (same k) (sym (eq_of_same id j hit)) in
        ground (arith, seq_of-set_seq m id j v)
    | inr miss ↦ ground (arith, seq_of-set_seq m id j v)
  ]
]

module _ {E : Type 0} (api : Engine E) where
  -- The loop of the server over committed commands; an error is answered, and the loop goes on.
  unfoldable pub run_commands : List Command → Machine E → Machine E
  unfolding apply
  run_commands [] s = s
  run_commands (c ∷ cs) s = run_commands cs (apply api c s).0

  -- A client's own commands carry a number from 1 on.
  abbrev pub Numbered : Bytes → Command → Type 0
  Numbered client c = same c.client_id client ≡ true → 0 < c.seq

  last_seq-apply :
      (client : Bytes) (c : Command) (s : Machine E)
      → Numbered client c
      → seq_of s.last_seq client ≤ seq_of (apply api c s).0.last_seq client
  unfolding apply is_duplicate
  last_seq-apply client c s numbered = elim (Bool-cases (same c.client_id client)) [
    | inl own ↦
        let e : seq_of s.last_seq c.client_id ≡ seq_of s.last_seq client =
          ap (seq_of s.last_seq) (eq_of_same c.client_id client own) in
        ground (arith, seq_of-set_seq s.last_seq c.client_id client c.seq)
    | inr other ↦ ground (arith, seq_of-set_seq s.last_seq c.client_id client c.seq)
  ]

  last_seq-run_commands :
      (client : Bytes) (cs : List Command) (s : Machine E)
      → All (Numbered client) cs
      → seq_of s.last_seq client ≤ seq_of (run_commands cs s).last_seq client
  unfolding run_commands
  last_seq-run_commands client [] s h = omega arith
  last_seq-run_commands client (c ∷ cs) s h =
      omega (
        arith,
        last_seq-apply client c s h.0,
        last_seq-run_commands client cs (apply api c s).0 h.1,
      )

  applied_seq :
      (c : Command) (s : Machine E)
      → is_empty c.client_id ≡ false
      → 0 < c.seq
      → (apply api c s).1 ≡ true
      → c.seq ≤ seq_of (apply api c s).0.last_seq c.client_id
  unfolding apply is_duplicate
  applied_seq c s named numbered h =
      ground (arith, same_refl c.client_id, seq_of-set_seq s.last_seq c.client_id c.client_id c.seq)

  -- A numbered command of a named client that was applied with success is applied once: whatever
  -- commands come after it, where this client's carry a number, a retry succeeds and changes
  -- nothing.
  pub retry_ignored :
      (c : Command) (cs : List Command) (s : Machine E)
      → is_empty c.client_id ≡ false
      → 0 < c.seq
      → All (Numbered c.client_id) cs
      → (apply api c s).1 ≡ true
      → apply api c (run_commands cs (apply api c s).0) ≡ (run_commands cs (apply api c s).0, true)
  retry_ignored c cs s named numbered h applied =
      let s1 : Machine E = run_commands cs (apply api c s).0 in
      let seen : c.seq ≤ seq_of s1.last_seq c.client_id = omega (
        arith,
        applied_seq c s named numbered applied,
        last_seq-run_commands c.client_id cs (apply api c s).0 h,
      ) in
      unfold apply is_duplicate in ground arith
