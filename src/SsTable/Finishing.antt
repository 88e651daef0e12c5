-- ===== src/SsTable/Finishing.antt =====
-- The loops of storage/sstable.go end on every file, also on one that is no table.
use distkv.Prelude.{
  ℕ, zero, suc, ◌+◌, ◌-◌, ◌≤◌, ◌<◌, ◌≡◌, ◌≢◌, refl, sym, ap, ◌∙◌, Bool, true, false, Option, none,
  some, [], ◌∷◌, arith, ◌%◌, ◌==◌, ltb, length, take, drop, length-drop, inl, inr, Bool-cases,
  if◌then◌else◌,
}
use distkv.Codec.{Bytes, get_u32}
use distkv.Wal.{Outcome, done, failed, panic, unfinished, ◌>>=◌}
use distkv.KeyMap.{KvEntry}
use distkv.SsTable.{next_entry, scan_loop, scan_block}

abbrev pub ends {ℓ} : {S : Type ℓ} → Outcome S → Bool
ends (done s) = true
ends failed = true
ends panic = true
ends unfinished = false

-- A record leaves less to scan.
abbrev Shrinks : ℕ → Outcome (Option (KvEntry × Bytes)) → Type 0
Shrinks n (done none) = Unit
Shrinks n (done (some (e, rest))) = length rest < n
Shrinks n failed = Unit
Shrinks n panic = Unit
Shrinks n unfinished = ⊥

next_entry-Shrinks : (buf : Bytes) → Shrinks (length buf) (next_entry buf)
unfolding next_entry
next_entry-Shrinks [] = tt
next_entry-Shrinks (flags ∷ r) = elim (Bool-cases (ltb (length r) 8)) [
  | inl short ↦ rw short tt
  | inr long ↦ rw long (key_length (get_u32 r) refl)
]
  where
    body : Bytes
    body = drop 4 (drop 4 r)

    rest_of : ℕ → ℕ → Outcome (Option (KvEntry × Bytes))
    rest_of klen vlen =
        if ltb (length body) klen
        then failed
        else if ltb (length (drop klen body)) vlen
        then failed
        else done (
            some (
              record {
                key = take klen body;
                value = take vlen (drop klen body);
                tombstone = flags % 2 == 1;
              },
              drop vlen (drop klen body),
            ))

    left : (klen vlen : ℕ) → length (drop vlen (drop klen body)) < suc (length r)
    left klen vlen = omega (
      arith,
      length-drop vlen (drop klen body),
      length-drop klen body,
      length-drop 4 (drop 4 r),
      length-drop 4 r,
    )

    shrinks : (klen vlen : ℕ) → Shrinks (suc (length r)) (rest_of klen vlen)
    shrinks klen vlen = elim (Bool-cases (ltb (length body) klen)) [
      | inl cut ↦ rw (rest_of, cut) tt
      | inr whole ↦ elim (Bool-cases (ltb (length (drop klen body)) vlen)) [
        | inl cut ↦ rw (rest_of, whole, cut) tt
        | inr all ↦ rw (rest_of, whole, all) (left klen vlen)
      ]
    ]

    key_length :
        (o : Option ℕ)
        → get_u32 r ≡ o
        → Shrinks (suc (length r)) (elim (get_u32 r) [
          | none ↦ panic
          | some klen ↦ elim (get_u32 (drop 4 r)) [ none ↦ panic | some vlen ↦ rest_of klen vlen ]
        ])
    key_length none h = rw h tt
    key_length (some klen) h = rw h (value_length klen (get_u32 (drop 4 r)))
      where
        value_length :
            (klen : ℕ) (o : Option ℕ)
            → Shrinks (suc (length r)) (elim o [ none ↦ panic | some vlen ↦ rest_of klen vlen ])
        value_length klen none = tt
        value_length klen (some vlen) = shrinks klen vlen

module _ {S : Type 0} (fn : S → KvEntry → S × Bool) where
  ends_next :
      (fuel n : ℕ) (last : Bytes) (s : S) (o : Outcome (Option (KvEntry × Bytes)))
      → n ≤ fuel
      → Shrinks n o
      → ((e : KvEntry) (rest : Bytes) (s' : S)
          → length rest < fuel
          → ends (scan_loop fn fuel rest e.key s') ≡ true)
      → ends {S = Bytes × S} (
          o >>= λ r. elim r [
            | none ↦ done (last, s)
            | some (e, rest) ↦ elim (fn s e).1 [
              | true ↦ done (e.key, (fn s e).0)
              | false ↦ scan_loop fn fuel rest e.key (fn s e).0
            ]
          ])
        ≡ true
  ends_next fuel n last s (done none) m h go = refl
  ends_next fuel n last s (done (some (e, rest))) m h go = elim (Bool-cases (fn s e).1) [
    | inl stop ↦ rw stop refl
    | inr on ↦ rw on (go e rest (fn s e).0 (omega (arith, m, h)))
  ]
  ends_next fuel n last s failed m h go = refl
  ends_next fuel n last s panic m h go = refl
  ends_next fuel n last s unfinished m h go = elim h [ ]

  scan_loop-ends :
      (fuel : ℕ) (buf last : Bytes) (s : S)
      → length buf < fuel
      → ends (scan_loop fn fuel buf last s) ≡ true
  unfolding scan_loop
  scan_loop-ends zero buf last s h = ground arith
  scan_loop-ends (suc fuel) buf last s h =
      ends_next fuel (length buf) last s (next_entry buf) (omega (arith, h))
        (next_entry-Shrinks buf) (λ e rest s' short. scan_loop-ends fuel rest e.key s' short)

  -- scanBlock ends on every file, from every offset and with every callback, with a result, an error
  -- or a panic.
  pub scan_block-ends :
      (file : Bytes) (off limit : ℕ) (s : S) → scan_block fn file off limit s ≢ unfinished
  unfolding scan_block
  scan_block-ends file off limit s h =
      let block : Bytes = take (limit - off) (drop off file) in
      let e : ends (scan_loop fn (length block + 1) block [] s) ≡ true =
        scan_loop-ends (length block + 1) block [] s (omega arith) in
      let no_end : true ≡ false = sym e ∙ ap ends h in cc no_end
