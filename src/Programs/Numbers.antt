-- ===== src/Programs/Numbers.antt =====
-- Numbers in decimal, written and read back.
use distkv.Prelude.{
  ℕ, zero, suc, ◌+◌, ◌*◌, ◌/◌, ◌%◌, ◌^◌, ◌<◌, ◌≡◌, refl, sym, ap, ◌∙◌, false, none, some, [], ◌∷◌,
  ◌++◌, arith, ltb, ◌==◌, ◌⊎◌, All, All-append, if◌then◌else◌, Bool-cases, Option-cases, inl, inr,
}
use distkv.Codec.{Bytes}
use distkv.Programs.{push_digit, parse_digits, parse_uint}

-- The decimal digits of a number, as fmt writes them.
unfoldable pub digits_up_to : ℕ → ℕ → Bytes
digits_up_to zero n = []
digits_up_to (suc fuel) n =
    let front = digits_up_to fuel (n / 10) in
    if ltb n 10 then (48 + n) ∷ [] else front ++ (48 + n % 10) ∷ []

abbrev pub digits : ℕ → Bytes
digits n = digits_up_to (suc n) n

parse_digits-snoc :
    (ds : Bytes) (d v u : ℕ)
    → parse_digits ds v ≡ some u
    → parse_digits (ds ++ d ∷ []) v ≡ parse_digits (d ∷ []) u
unfolding parse_digits
parse_digits-snoc [] d v u h = let e : v ≡ u = cc h in rw e refl
parse_digits-snoc (x ∷ ds) d v u h = elim (Option-cases (push_digit v x)) [
  | inl bad ↦ let gone : none ≡ some u = rw (parse_digits, bad) at h in absurd (cc gone)
  | inr (v1, good) ↦
      let rest : parse_digits ds v1 ≡ some u = rw (parse_digits, good) at h in
      rw (parse_digits, good) (parse_digits-snoc ds d v1 u rest)
]

one_digit :
    (v d n : ℕ) → d < 10 → v * 10 + d ≡ n → n < 2 ^ 64 → parse_digits ((48 + d) ∷ []) v ≡ some n
unfolding parse_digits push_digit
one_digit v d n h e w = ground (arith, h, e, w)

parse_digits-digits_up_to :
    (fuel n : ℕ) → n < fuel → n < 2 ^ 64 → parse_digits (digits_up_to fuel n) 0 ≡ some n
unfolding digits_up_to parse_digits push_digit
parse_digits-digits_up_to zero n h w = absurd (omega (arith, h))
parse_digits-digits_up_to (suc fuel) n h w = elim (Bool-cases (ltb n 10)) [
  | inl small ↦ rw (digits_up_to, small) (one_digit 0 n n (ground (arith, small)) (omega arith) w)
  | inr large ↦
      let front =
        parse_digits-digits_up_to fuel (n / 10) (ground (arith, large, h)) (ground (arith, w)) in
      rw (digits_up_to, large)
        (parse_digits-snoc (digits_up_to fuel (n / 10)) (48 + n % 10) 0 (n / 10) front
          ∙ one_digit (n / 10) (n % 10) n (omega arith) (omega arith) w)
]

-- A character that is no digit is not in a number.
pub digits_up_to-lack :
    (sep fuel n : ℕ) → (sep < 48) ⊎ (57 < sep) → All (λ x. (x == sep) ≡ false) (digits_up_to fuel n)
unfolding digits_up_to
digits_up_to-lack sep zero n h = tt
digits_up_to-lack sep (suc fuel) n h = elim (Bool-cases (ltb n 10)) [
  | inl small ↦ rw (digits_up_to, small) (ground (arith, h, small), tt)
  | inr large ↦
      rw (digits_up_to, large)
        (All-append (λ x. (x == sep) ≡ false) (digits_up_to fuel (n / 10)) ((48 + n % 10) ∷ [])
          (digits_up_to-lack sep fuel (n / 10) h) (last_digit (n % 10) (omega arith) h, tt))
]
  where
    last_digit : (d : ℕ) → d < 10 → (sep < 48) ⊎ (57 < sep) → (48 + d == sep) ≡ false
    last_digit d small apart = ground (arith, small, apart)

digits-first : (fuel n : ℕ) → (d : ℕ) × (ds : Bytes) × (digits_up_to (suc fuel) n ≡ d ∷ ds)
unfolding digits_up_to
digits-first zero n = elim (Bool-cases (ltb n 10)) [
  | inl small ↦ (48 + n, [], rw (digits_up_to, small) refl)
  | inr large ↦ (48 + n % 10, [], rw (digits_up_to, large) refl)
]
digits-first (suc fuel) n = elim (Bool-cases (ltb n 10)) [
  | inl small ↦ (48 + n, [], rw (digits_up_to, small) refl)
  | inr large ↦
      let (d, ds, e) = digits-first fuel (n / 10) in
      (
        d,
        ds ++ (48 + n % 10) ∷ [],
        rw (digits_up_to, large) (ap (λ xs. xs ++ (48 + n % 10) ∷ []) e),
      )
]

-- A number of 64 bits is read back from its digits.
pub parse_uint-digits : (n : ℕ) → n < 2 ^ 64 → parse_uint (digits n) ≡ some n
unfolding parse_uint
parse_uint-digits n w =
    let (d, ds, e) = digits-first n n in
    ap parse_uint e
    ∙ sym (ap (λ xs. parse_digits xs 0) e)
    ∙ parse_digits-digits_up_to (suc n) n (omega arith) w
