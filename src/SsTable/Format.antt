-- ===== src/SsTable/Format.antt =====
-- The records of a table's data block, as storage/sstable.go writes and scans them.
use distkv.Prelude.{
  ℕ, zero, suc, ◌+◌, ◌-◌, ◌%◌, ◌^◌, ◌≤◌, ◌<◌, ◌≡◌, refl, sym, ap, ◌∙◌, Bool, true, false, none,
  some, List, [], ◌∷◌, ◌++◌, arith, ltb, ◌==◌, if◌then◌else◌, length, length-append, take-append,
  drop-append, append_assoc, All,
}
use distkv.Codec.{Bytes, put_u32, get_u32-put_u32, drop-put_u32, length-put_u32}
use distkv.Wal.{done}
use distkv.KeyMap.{KvEntry}
use distkv.SsTable.{encode_record, records, next_entry, scan_loop, scan_block}

-- Keys and values with a 32-bit length.
pub record EntryFits (e : KvEntry) : Type 0 where
  pub key_fits : length e.key < 2 ^ 32
  pub value_fits : length e.value < 2 ^ 32

abbrev pub flag : KvEntry → ℕ
flag e = if e.tombstone then 1 else 0

encode_record-append :
    (e : KvEntry) (rest : Bytes)
    → encode_record e ++ rest
      ≡ flag e ∷ put_u32 (length e.key)
        ++ (put_u32 (length e.value) ++ (e.key ++ (e.value ++ rest)))
unfolding encode_record
encode_record-append e rest = simp append_assoc

pub flag_read : (e : KvEntry) → ((flag e % 2) == 1) ≡ e.tombstone
flag_read e = ground arith

-- A record is read back, whatever follows it.
pub next_entry-encode_record :
    (e : KvEntry) (rest : Bytes)
    → EntryFits e
    → next_entry (encode_record e ++ rest) ≡ done (some (e, rest))
unfolding next_entry put_u32
next_entry-encode_record e rest f =
    let tail : Bytes = e.key ++ (e.value ++ rest) in
    let body : Bytes = put_u32 (length e.value) ++ tail in
    let long : ltb (length (put_u32 (length e.key) ++ body)) 8 ≡ false = ground (
      arith,
      length-append (put_u32 (length e.key)) body,
      length-append (put_u32 (length e.value)) tail,
      length-put_u32 (length e.key),
      length-put_u32 (length e.value),
    ) in
    let whole_key : ltb (length tail) (length e.key) ≡ false =
      ground (arith, length-append e.key (e.value ++ rest)) in
    let whole_value : ltb (length (e.value ++ rest)) (length e.value) ≡ false =
      ground (arith, length-append e.value rest) in
    rw (encode_record-append e rest) (
      rw long (
        rw (get_u32-put_u32 (length e.key) body f.key_fits) (
          rw (drop-put_u32 (length e.key) body) (
            rw (get_u32-put_u32 (length e.value) tail f.value_fits) (
              rw (drop-put_u32 (length e.value) tail) (
                rw (whole_key, drop-append e.key (e.value ++ rest), whole_value)
                  (rw (take-append e.key (e.value ++ rest), take-append e.value rest)
                    (rw (drop-append e.value rest, flag_read e) refl))))))))

pub length-encode_record :
    (e : KvEntry) → length (encode_record e) ≡ 9 + length e.key + length e.value
unfolding encode_record
length-encode_record e = omega (
  arith,
  length-append (put_u32 (length e.key)) (put_u32 (length e.value) ++ (e.key ++ e.value)),
  length-append (put_u32 (length e.value)) (e.key ++ e.value),
  length-append e.key e.value,
  length-put_u32 (length e.key),
  length-put_u32 (length e.value),
)

pub records-append : (a b : List KvEntry) → records (a ++ b) ≡ records a ++ records b
unfolding records
records-append [] b = refl
records-append (e ∷ es) b =
    ap (λ t. encode_record e ++ t) (records-append es b)
    ∙ sym (append_assoc (encode_record e) (records es) (records b))

pub length-records : (es : List KvEntry) → length es ≤ length (records es)
unfolding records
length-records [] = omega arith
length-records (e ∷ es) =
    omega (
      arith,
      length-append (encode_record e) (records es),
      length-encode_record e,
      length-records es,
    )

next_entry-nil : next_entry [] ≡ done none
unfolding next_entry
next_entry-nil = refl

module _ {ℓ} {S : Type ℓ} (fn : S → KvEntry → S × Bool) where
  -- What a scan does on the entries themselves.
  unfoldable pub visit : List KvEntry → Bytes → S → Bytes × S
  visit [] last s = (last, s)
  visit (e ∷ es) last s = elim (fn s e).1 [
    | true ↦ (e.key, (fn s e).0)
    | false ↦ visit es e.key (fn s e).0
  ]

  scan_loop-records :
      (fuel : ℕ) (es : List KvEntry) (last : Bytes) (s : S)
      → All EntryFits es
      → length es < fuel
      → scan_loop fn fuel (records es) last s ≡ done (visit es last s)
  unfolding scan_loop records visit
  scan_loop-records zero es last s f h = absurd (omega arith)
  scan_loop-records (suc fuel) [] last s f h = refl
  scan_loop-records (suc fuel) (e ∷ es) last s f h =
      let ih : scan_loop fn fuel (records es) e.key (fn s e).0 ≡ done (visit es e.key (fn s e).0) =
        scan_loop-records fuel es e.key (fn s e).0 f.1 (omega arith) in
      rw (next_entry-encode_record e (records es) f.0) (ground arith)

  -- A scan from the start of a record to the end of the data block visits the records from there on.
  pub scan_block-records :
      (pre es : List KvEntry) (rest : Bytes) (s : S)
      → All EntryFits es
      → scan_block fn
          (records (pre ++ es) ++ rest)
          (length (records pre))
          (length (records (pre ++ es)))
          s
        ≡ done (visit es [] s)
  unfolding scan_block
  scan_block-records pre es rest s f = rw (records-append pre es) (
      rw (append_assoc (records pre) (records es) rest) (
        rw (drop-append (records pre) (records es ++ rest)) (
          rw size (
            rw (take-append (records es) rest) (
              scan_loop-records (length (records es) + 1) es [] s f
                (omega (arith, length-records es)))))))
    where
      size : length (records pre ++ records es) - length (records pre) ≡ length (records es)
      size = omega (arith, length-append (records pre) (records es))
