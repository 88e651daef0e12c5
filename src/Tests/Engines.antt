-- ===== src/Tests/Engines.antt =====
-- An engine that keeps its entries in a list, a serializer of snapshots, and the state machine on
-- them.
use distkv.Prelude.{
  ℕ, zero, suc, ◌≡◌, refl, sym, ap, ◌∙◌, true, false, Option, none, some, [], ◌∷◌, ◌++◌, arith,
  if◌then◌else◌, length, take, drop, take-append, drop-append, Bool-cases, inl, inr,
}
use distkv.Codec.{Bytes}
use distkv.Text.{same, eq_of_same}
use distkv.StateMachine.{
  Command, put_op, Contents, SeqMap, Engine, Gob, SnapshotState, Machine, find, seq_of, set_seq,
  apply, is_duplicate, lookup, snapshot, restore,
}
use distkv.StateMachine.Once.{run_commands, retry_ignored}
use distkv.KvModel.{step, get_op}
use distkv.KvModel.Refinement.{key_state, input_of, output_of, apply_refines}

unfoldable pub without : Bytes → Contents → Contents
without k [] = []
without k ((j, v) ∷ d) = let rest = without k d in if same k j then rest else (j, v) ∷ rest

pub find-without :
    (k j : Bytes) (d : Contents) → find (without k d) j ≡ (if same k j then none else find d j)
unfolding find without
find-without k j [] = ground arith
find-without k j ((i, v) ∷ d) = elim (Bool-cases (same k i)) [
  | inl here ↦
      let e : same k j ≡ same i j = ap (λ t. same t j) (eq_of_same k i here) in
      ground (arith, find-without k j d)
  | inr there ↦ elim (Bool-cases (same i j)) [
    | inl hit ↦
        let e : same k i ≡ same k j = ap (same k) (eq_of_same i j hit) in
        ground (arith, find-without k j d)
    | inr miss ↦ ground (arith, find-without k j d)
  ]
]

pub find-cons :
    (k v j : Bytes) (d : Contents) → find ((k, v) ∷ d) j ≡ (if same k j then some v else find d j)
unfolding find
find-cons k v j d = refl

abbrev pub or_empty : Option Contents → Contents
or_empty none = []
or_empty (some d) = d

abbrev pub list_engine : Engine Contents
list_engine = record {
  put = λ k v d. ((k, v) ∷ d, true);
  delete = λ k d. (without k d, true);
  get = λ k d. find d k;
  can_read = λ k d. true;
  snapshot_entries = λ d. some d;
  reset = λ d e. (d, true);
  InOrder = λ d. Unit;
  CanTake = λ k v d. Unit;
  IsDump = λ d. Unit;
  put-InOrder = λ k v d room. tt;
  get-put = λ k v j d room h. find-cons k v j d;
  delete-InOrder = λ k d room. tt;
  get-delete = λ k j d room h. find-without k j d;
  snapshot_entries-IsDump = λ e d v h. tt;
  get-snapshot_entries = λ e d v h j. ap (λ o. find (or_empty o) j) (sym h);
  reset-InOrder = λ d e u h. tt;
  get-reset = λ d e u h j. refl;
}

abbrev pub write_contents : Contents → Bytes → Bytes
write_contents [] rest = rest
write_contents ((k, v) ∷ d) rest = length k ∷ k ++ (length v ∷ v ++ write_contents d rest)

abbrev pub write_seqs : SeqMap → Bytes
write_seqs [] = []
write_seqs ((id, q) ∷ m) = q ∷ length id ∷ id ++ write_seqs m

infixl 5 ◌>>=◌
abbrev pub ◌>>=◌ : {A B : Type 0} → Option A → (A → Option B) → Option B
none >>= f = none
some a >>= f = f a

-- A length and that many bytes.
abbrev pub block : Bytes → Option (Bytes × Bytes)
block [] = none
block (n ∷ buf) = some (take n buf, drop n buf)

unfoldable pub read_contents : ℕ → Bytes → Option (Contents × Bytes)
read_contents zero buf = some ([], buf)
read_contents (suc n) buf = do
  (k, buf1) ← block buf
  (v, buf2) ← block buf1
  (d, rest) ← read_contents n buf2
  some ((k, v) ∷ d, rest)

unfoldable pub read_seqs : ℕ → Bytes → Option SeqMap
read_seqs zero buf = some []
read_seqs (suc n) [] = none
read_seqs (suc n) (q ∷ buf) = do (id, rest) ← block buf; m ← read_seqs n rest; some ((id, q) ∷ m)

read_contents-write_contents :
    (d : Contents) (rest : Bytes)
    → read_contents (length d) (write_contents d rest) ≡ some (d, rest)
unfolding read_contents
read_contents-write_contents [] rest = refl
read_contents-write_contents ((k, v) ∷ d) rest =
    let more : Bytes = length v ∷ v ++ write_contents d rest in
    rw (take-append k more, drop-append k more)
      (rw (take-append v (write_contents d rest), drop-append v (write_contents d rest))
        (rw (read_contents-write_contents d rest) refl))

read_seqs-write_seqs : (m : SeqMap) → read_seqs (length m) (write_seqs m) ≡ some m
unfolding read_seqs
read_seqs-write_seqs [] = refl
read_seqs-write_seqs ((id, q) ∷ m) =
    rw (take-append id (write_seqs m), drop-append id (write_seqs m))
      (rw (read_seqs-write_seqs m) refl)

abbrev pub encode_state : SnapshotState → Bytes
encode_state st =
    length st.contents ∷ length st.last_seq ∷ write_contents st.contents (write_seqs st.last_seq)

unfoldable pub decode_state : Bytes → Option SnapshotState
decode_state (n ∷ m ∷ buf) = do
  (d, rest) ← read_contents n buf
  seqs ← read_seqs m rest
  some (record { contents = d; last_seq = seqs })
decode_state _ = none

pub decode_state-encode_state : (st : SnapshotState) → decode_state (encode_state st) ≡ some st
unfolding decode_state
decode_state-encode_state st =
    rw (read_contents-write_contents st.contents (write_seqs st.last_seq))
      (rw (read_seqs-write_seqs st.last_seq) refl)

abbrev pub or_none : Option Bytes → Option SnapshotState
or_none none = none
or_none (some b) = decode_state b

abbrev pub gob : Gob
gob = record {
  encode = λ st. some (encode_state st);
  decode = decode_state;
  decode-encode = λ st b h. ap or_none (sym h) ∙ decode_state-encode_state st;
}

-- Client 7 puts 5 under key 1, and other commands follow.
abbrev pub put_five : Command
put_five = record { op = put_op; key = 1 ∷ []; value = 5 ∷ []; client_id = 7 ∷ []; seq = 1 }

abbrev pub put_six : Command
put_six = record { op = put_op; key = 1 ∷ []; value = 6 ∷ []; client_id = 8 ∷ []; seq = 4 }

abbrev pub empty_machine : Machine Contents
empty_machine = record { engine = []; last_seq = [] }

abbrev pub after_five : Machine Contents
after_five = (apply list_engine put_five empty_machine).0

abbrev pub saved : Bytes
saved = encode_state (record { contents = (1 ∷ [], 5 ∷ []) ∷ []; last_seq = (7 ∷ [], 1) ∷ [] })

five_applied : (apply list_engine put_five empty_machine).1 ≡ true
unfolding apply seq_of
five_applied = refl

retry_ignored_example :
    apply list_engine put_five (run_commands list_engine (put_six ∷ []) after_five)
    ≡ (run_commands list_engine (put_six ∷ []) after_five, true)
retry_ignored_example =
    retry_ignored list_engine put_five (put_six ∷ []) empty_machine refl (omega arith)
      ((λ h. omega arith), tt) five_applied

pub after_taken : snapshot list_engine gob after_five ≡ some saved
unfolding snapshot apply seq_of set_seq
after_taken = refl

pub saved_restored : (restore list_engine gob saved empty_machine).1 ≡ true
unfolding restore decode_state read_contents read_seqs
saved_restored = refl

apply_refines_example :
    (is_duplicate list_engine put_five empty_machine ≡ false
      → (key_state list_engine (1 ∷ []) after_five
          ≡ (step
              (key_state list_engine (1 ∷ []) empty_machine)
              (input_of put_five)
              (output_of none)).1)
        × (same (1 ∷ []) (2 ∷ []) ≡ false
            → key_state list_engine (2 ∷ []) after_five
              ≡ key_state list_engine (2 ∷ []) empty_machine))
    × (is_duplicate list_engine put_five empty_machine ≡ true
        → key_state list_engine (2 ∷ []) after_five ≡ key_state list_engine (2 ∷ []) empty_machine)
    × (step
          (key_state list_engine (2 ∷ []) empty_machine)
          (record { op = get_op; key = 2 ∷ []; value = [] })
          (output_of (lookup list_engine (2 ∷ []) empty_machine))
        ≡ (true, key_state list_engine (2 ∷ []) empty_machine))
apply_refines_example =
    apply_refines list_engine put_five (2 ∷ []) (output_of none) empty_machine tt five_applied
