-- ===== src/ConfState/Encoding.antt =====
-- encodeConfState and decodeConfState of raft/confstate.go. A position in the buffer is the rest of
-- the buffer from there on.
use distkv.Prelude.{
  ℕ, zero, suc, ◌*◌, ◌^◌, ◌≤◌, ◌<◌, ◌≡◌, ◌≢◌, ◌∙◌, refl, ap, false, Option, none, some, List, [],
  ◌∷◌, ◌++◌, arith, ltb, if◌then◌else◌, length, drop, length-append, length-drop, All, append_assoc,
  append-nil, Option-cases, inl, inr,
}
use distkv.Codec.{
  Bytes, put_u32, get_u32, put_u64, get_u64, get_u32-put_u32, get_u64-put_u64, length-put_u32,
  length-put_u64, drop-put_u32, drop-put_u64,
}
use distkv.IdSet.{
  IdSet, contains, insert, insert_all, IsAscending, contains-insert_all, insert_all-IsAscending,
}
use distkv.ConfState.{ConfState}
use distkv.ConfState.Tally.{ascending_ext}
use distkv.ConfState.Change.{ConfResult, ok, err, panic, invalid_conf_state}

unfoldable pub encode_ids : List ℕ → Bytes
encode_ids [] = []
encode_ids (id ∷ ids) = put_u64 id ++ encode_ids ids

unfoldable pub encode_conf_state : ConfState → Bytes
unfolding encode_ids
encode_conf_state c =
    put_u32 (length c.voters)
    ++ (encode_ids c.voters ++ (put_u32 (length c.joint) ++ encode_ids c.joint))

-- A loop that reads `n` ids into a set, with the rest of the buffer.
unfoldable pub decode_ids : ℕ → Bytes → IdSet → Option (IdSet × Bytes)
decode_ids zero buf set = some (set, buf)
decode_ids (suc n) buf set = elim (get_u64 buf) [
  | none ↦ none
  | some id ↦ decode_ids n (drop 8 buf) (insert id set)
]

-- The second half of decodeConfState, from the count of the joint set on.
unfoldable pub decode_joint : IdSet → Bytes → ConfResult
unfolding decode_ids
decode_joint voters buf =
    if ltb (length buf) 4 then ok (record { voters = voters; joint = [] }) else elim (get_u32 buf) [
      | none ↦ panic
      | some nj ↦
          if ltb (length (drop 4 buf)) (nj * 8)
          then err invalid_conf_state
          else elim (decode_ids nj (drop 4 buf) []) [
            | none ↦ panic
            | some (joint, rest) ↦ ok (record { voters = voters; joint = joint })
          ]
    ]

unfoldable pub decode_conf_state : Bytes → ConfResult
unfolding decode_joint decode_ids
decode_conf_state buf =
    if ltb (length buf) 4 then ok (record { voters = []; joint = [] }) else elim (get_u32 buf) [
      | none ↦ panic
      | some nv ↦
          if ltb (length (drop 4 buf)) (nv * 8)
          then err invalid_conf_state
          else elim (decode_ids nv (drop 4 buf) []) [
            | none ↦ panic
            | some (voters, rest) ↦ decode_joint voters rest
          ]
    ]

abbrev pub FitsWord : ℕ → Type 0
FitsWord id = id < 2 ^ 64

decode_ids-encode_ids :
    (ids : List ℕ) (rest : Bytes) (set : IdSet)
    → All FitsWord ids
    → decode_ids (length ids) (encode_ids ids ++ rest) set ≡ some (insert_all ids set, rest)
unfolding decode_ids encode_ids insert_all
decode_ids-encode_ids [] rest set h = refl
decode_ids-encode_ids (id ∷ ids) rest set h = rw append_assoc (
    rw (get_u64-put_u64 id (encode_ids ids ++ rest) h.0, decode_ids)
      (rw (drop-put_u64 id (encode_ids ids ++ rest))
        (decode_ids-encode_ids ids rest (insert id set) h.1)))

length-encode_ids : (ids : List ℕ) → length (encode_ids ids) ≡ length ids * 8
unfolding encode_ids
length-encode_ids [] = omega arith
length-encode_ids (id ∷ ids) =
    omega
      (arith, length-append (put_u64 id) (encode_ids ids), length-put_u64 id, length-encode_ids ids)

-- Reading an ascending list back into a set gives the list.
insert_all_self : (ids : IdSet) → IsAscending ids → insert_all ids [] ≡ ids
insert_all_self ids a =
    ascending_ext (insert_all ids []) ids (insert_all-IsAscending ids [] tt) a
      (λ j. unfold contains in ground (arith, contains-insert_all ids j []))

-- A block of ids behind its count, as both halves of the decoder meet it.
abbrev block : IdSet → Bytes → Bytes
block ids rest = put_u32 (length ids) ++ (encode_ids ids ++ rest)

module _ (ids : IdSet) (rest : Bytes) (n : length ids < 2 ^ 32) where
  block_long : ltb (length (block ids rest)) 4 ≡ false
  block_long = ground (
    arith,
    length-append (put_u32 (length ids)) (encode_ids ids ++ rest),
    length-put_u32 (length ids),
  )

  block_count : get_u32 (block ids rest) ≡ some (length ids)
  block_count = get_u32-put_u32 (length ids) (encode_ids ids ++ rest) n

  block_body : drop 4 (block ids rest) ≡ encode_ids ids ++ rest
  block_body = drop-put_u32 (length ids) (encode_ids ids ++ rest)

  block_whole : ltb (length (encode_ids ids ++ rest)) (length ids * 8) ≡ false
  block_whole = ground (arith, length-append (encode_ids ids) rest, length-encode_ids ids)

  block_ids :
      IsAscending ids
      → All FitsWord ids
      → decode_ids (length ids) (encode_ids ids ++ rest) [] ≡ some (ids, rest)
  block_ids a f = rw (decode_ids-encode_ids ids rest [] f) (rw (insert_all_self ids a))

decode_joint-encode :
    (voters joint : IdSet)
    → IsAscending joint
    → length joint < 2 ^ 32
    → All FitsWord joint
    → decode_joint voters (block joint []) ≡ ok (record { voters = voters; joint = joint })
unfolding decode_joint
decode_joint-encode voters joint a n f =
    rw (block_long joint [] n, block_count joint [] n, block_body joint [] n)
      (rw (block_whole joint [] n, block_ids joint [] n a f))

-- What a membership must fit into to be written: 64-bit ids and 32-bit counts.
pub record Encodable (c : ConfState) : Type 0 where
  pub voters_set : IsAscending c.voters
  pub joint_set : IsAscending c.joint
  pub voters_count : length c.voters < 2 ^ 32
  pub joint_count : length c.joint < 2 ^ 32
  pub voter_ids : All FitsWord c.voters
  pub joint_ids : All FitsWord c.joint

encode_conf_state-block : (c : ConfState) → encode_conf_state c ≡ block c.voters (block c.joint [])
unfolding encode_conf_state
encode_conf_state-block c = rw append-nil

decode_conf_state-block :
    (c : ConfState) → Encodable c → decode_conf_state (block c.voters (block c.joint [])) ≡ ok c
unfolding decode_conf_state
decode_conf_state-block c e =
    let rest : Bytes = block c.joint [] in
    rw
      (
        block_long c.voters rest e.voters_count,
        block_count c.voters rest e.voters_count,
        block_body c.voters rest e.voters_count,
      )
      (rw
        (
          block_whole c.voters rest e.voters_count,
          block_ids c.voters rest e.voters_count e.voters_set e.voter_ids,
        )
        (decode_joint-encode c.voters c.joint e.joint_set e.joint_count e.joint_ids))

-- A membership of 64-bit ids, without repetition and with at most 2^32 - 1 in each set, is read
-- back from what was written of it.
pub decode_conf_state-encode_conf_state :
    (c : ConfState) → Encodable c → decode_conf_state (encode_conf_state c) ≡ ok c
decode_conf_state-encode_conf_state c e =
    ap decode_conf_state (encode_conf_state-block c) ∙ decode_conf_state-block c e

get_u32_total : (buf : Bytes) → 4 ≤ length buf → get_u32 buf ≢ none
unfolding get_u32
get_u32_total [] h e = absurd (omega arith)
get_u32_total (a ∷ []) h e = absurd (omega arith)
get_u32_total (a ∷ b ∷ []) h e = absurd (omega arith)
get_u32_total (a ∷ b ∷ c ∷ []) h e = absurd (omega arith)
get_u32_total (a ∷ b ∷ c ∷ d ∷ r) h e = cc

get_u64_total : (buf : Bytes) → 8 ≤ length buf → get_u64 buf ≢ none
unfolding get_u64
get_u64_total [] h e = absurd (omega arith)
get_u64_total (a ∷ []) h e = absurd (omega arith)
get_u64_total (a ∷ b ∷ []) h e = absurd (omega arith)
get_u64_total (a ∷ b ∷ c ∷ []) h e = absurd (omega arith)
get_u64_total (a ∷ b ∷ c ∷ d ∷ r) h e = ground (arith, get_u32_total r)

decode_ids_total :
    (n : ℕ) (buf : Bytes) (set : IdSet) → n * 8 ≤ length buf → decode_ids n buf set ≢ none
unfolding decode_ids
decode_ids_total zero buf set h e = cc
decode_ids_total (suc n) buf set h e = elim (Option-cases (get_u64 buf)) [
  | inl q ↦ get_u64_total buf (omega arith) q
  | inr (id, q) ↦
      decode_ids_total n (drop 8 buf) (insert id set) (omega (arith, length-drop 8 buf))
        (rw (q, decode_ids) at e)
]

decode_joint-ne-panic : (voters : IdSet) (buf : Bytes) → decode_joint voters buf ≢ panic
unfolding decode_joint
decode_joint-ne-panic voters buf e = elim (Option-cases (get_u32 buf)) [
  | inl q ↦ ground (arith, get_u32_total buf)
  | inr (nj, q) ↦ ground (arith, decode_ids_total nj (drop 4 buf) [])
]

-- No buffer, however malformed, makes the decoder panic.
pub decode_conf_state-ne-panic : (buf : Bytes) → decode_conf_state buf ≢ panic
unfolding decode_conf_state
decode_conf_state-ne-panic buf e = elim (Option-cases (get_u32 buf)) [
  | inl q ↦ ground (arith, get_u32_total buf)
  | inr (nv, q) ↦ elim (Option-cases (decode_ids nv (drop 4 buf) [])) [
    | inl stuck ↦ ground (arith, decode_ids_total nv (drop 4 buf) [])
    | inr (r, found) ↦ ground (arith, decode_joint-ne-panic r.0 r.1)
  ]
]
