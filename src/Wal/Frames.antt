-- ===== src/Wal/Frames.antt =====
-- One turn of the loop of ReplayWAL in storage/wal.go: a whole frame, and a frame cut short.
use distkv.Prelude.{
  ℕ, ◌+◌, ◌-◌, ◌^◌, ◌<◌, ◌≡◌, refl, ap, ◌∙◌, true, false, none, some, [], ◌∷◌, ◌++◌, arith, ltb,
  ◌==◌, not, if◌then◌else◌, length, take, drop, length-append, length-take, take-append,
  drop-append, take-append_add, append_assoc, ==_refl, Bool-cases, inl, inr,
}
use distkv.Codec.{
  Bytes, put_u32, get_u32, checksum, get_u32-put_u32, length-put_u32, drop-put_u32, checksum-lt,
}
use distkv.Wal.{frame, next_record}

abbrev pub Fits : Bytes → Type 0
Fits p = length p < 2 ^ 32

pub length-frame : (p : Bytes) → length (frame p) ≡ 8 + length p
unfolding frame
length-frame p = omega (
  arith,
  length-append (put_u32 (checksum p)) (put_u32 (length p) ++ p),
  length-append (put_u32 (length p)) p,
  length-put_u32 (checksum p),
  length-put_u32 (length p),
)

drop_8 : (file : Bytes) → drop 8 file ≡ drop 4 (drop 4 file)
drop_8 [] = refl
drop_8 (a ∷ []) = refl
drop_8 (a ∷ b ∷ []) = refl
drop_8 (a ∷ b ∷ c ∷ []) = refl
drop_8 (a ∷ b ∷ c ∷ d ∷ r) = refl

abbrev pub headed : ℕ → ℕ → Bytes → Bytes
headed crc n body = put_u32 crc ++ (put_u32 n ++ body)

-- One turn of the loop on a file that starts with a header.
module _ (crc n : ℕ) (body : Bytes) where
  drop_4 : drop 4 (headed crc n body) ≡ put_u32 n ++ body
  drop_4 = drop-put_u32 crc (put_u32 n ++ body)

  headed_rest : drop 8 (headed crc n body) ≡ body
  headed_rest = drop_8 (headed crc n body) ∙ ap (drop 4) drop_4 ∙ drop-put_u32 n body

  length-headed : length (headed crc n body) ≡ 8 + length body
  length-headed = omega (
    arith,
    length-append (put_u32 crc) (put_u32 n ++ body),
    length-append (put_u32 n) body,
    length-put_u32 crc,
    length-put_u32 n,
  )

  pub next_record-headed :
      crc < 2 ^ 32
      → n < 2 ^ 32
      → next_record (headed crc n body) ≡ (
          if ltb (length body) n
          then none
          else if not (checksum (take n body) == crc)
          then none
          else some (take n body, drop n body))
  unfolding next_record
  next_record-headed hc hn =
      let long : ltb (length (headed crc n body)) 8 ≡ false = ground (arith, length-headed) in
      let len : get_u32 (drop 4 (headed crc n body)) ≡ some n =
        ap get_u32 drop_4 ∙ get_u32-put_u32 n body hn in
      rw (long, get_u32-put_u32 crc (put_u32 n ++ body) hc, len, headed_rest)

frame-append : (p rest : Bytes) → frame p ++ rest ≡ headed (checksum p) (length p) (p ++ rest)
unfolding frame
frame-append p rest = simp append_assoc

-- A whole frame is read back, whatever follows it.
pub next_record-frame : (p rest : Bytes) → Fits p → next_record (frame p ++ rest) ≡ some (p, rest)
next_record-frame p rest h =
    let fits : ltb (length (p ++ rest)) (length p) ≡ false = ground (arith, length-append p rest) in
    rw frame-append (
      rw (next_record-headed (checksum p) (length p) (p ++ rest) (checksum-lt p) h)
        (rw (fits, take-append p rest, drop-append p rest) (rw (==_refl (checksum p)))))

-- A header and a body that is too short, or whose checksum is another, end the replay.
next_record-torn :
    (p : Bytes) (body : Bytes)
    → Fits p
    → length body < length p
    → next_record (headed (checksum p) (length p) body) ≡ none
next_record-torn p body h short =
    let torn : ltb (length body) (length p) ≡ true = ground arith in
    rw (next_record-headed (checksum p) (length p) body (checksum-lt p) h) (rw torn)

take-headed :
    (k crc n : ℕ) (body : Bytes) → take (8 + k) (headed crc n body) ≡ headed crc n (take k body)
take-headed k crc n body =
    let e : 8 + k ≡ length (put_u32 crc) + (length (put_u32 n) + k) =
      omega (arith, length-put_u32 crc, length-put_u32 n) in
    rw e (
      take-append_add (put_u32 crc) (put_u32 n ++ body) (length (put_u32 n) + k)
      ∙ ap (λ t. put_u32 crc ++ t) (take-append_add (put_u32 n) body k))

next_record-short : (file : Bytes) → length file < 8 → next_record file ≡ none
unfolding next_record
next_record-short file h = let short : ltb (length file) 8 ≡ true = ground arith in rw short

pub take-frame :
    (p : Bytes) (k : ℕ) → take (8 + k) (frame p) ≡ headed (checksum p) (length p) (take k p)
unfolding frame
take-frame p k = take-headed k (checksum p) (length p) p

-- A frame that a crash cut short is dropped.
pub next_record-cut :
    (p : Bytes) (k : ℕ) → Fits p → k < length (frame p) → next_record (take k (frame p)) ≡ none
next_record-cut p k h short = elim (Bool-cases (ltb k 8)) [
  | inl low ↦ next_record-short (take k (frame p)) (ground (arith, length-take k (frame p)))
  | inr high ↦
      let e : k ≡ 8 + (k - 8) = ground arith in
      rw e (
        rw (take-frame p (k - 8)) (
          next_record-torn p (take (k - 8) p) h
            (ground (arith, length-take (k - 8) p, length-frame p))))
]
