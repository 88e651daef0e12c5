-- ===== src/Programs/Bench.antt =====
-- cmd/bench: the keys of the benchmark, and its percentiles.
use distkv.Prelude.{
  ℕ, zero, suc, ◌-◌, ◌%◌, ◌≤◌, ◌<◌, ◌≡◌, refl, Option, none, some, List, [], ◌∷◌, ◌++◌, arith,
  if◌then◌else◌, leb, length, get_elem?,
}
use distkv.Codec.{Bytes}
use distkv.Programs.Numbers.{digits}

-- `%08d`
unfoldable pub zeros : ℕ → Bytes
zeros zero = []
zeros (suc n) = 48 ∷ zeros n

unfoldable pub padded : ℕ → Bytes
unfolding zeros
padded n = zeros (8 - length (digits n)) ++ digits n

abbrev pub bench_prefix : Bytes
bench_prefix = 98 ∷ 101 ∷ 110 ∷ 99 ∷ 104 ∷ 45 ∷ []

-- `i % space` panics for an empty space.
unfoldable pub bench_key : ℕ → ℕ → Option Bytes
unfolding padded
bench_key i zero = none
bench_key i (suc space) = some (bench_prefix ++ padded (i % suc space))

-- sort.Slice, by insertion.
unfoldable pub insert_latency : ℕ → List ℕ → List ℕ
insert_latency v [] = v ∷ []
insert_latency v (x ∷ xs) =
    let rest = insert_latency v xs in if leb v x then v ∷ x ∷ xs else x ∷ rest

unfoldable pub sort_latencies : List ℕ → List ℕ
unfolding insert_latency
sort_latencies [] = []
sort_latencies (x ∷ xs) = insert_latency x (sort_latencies xs)

-- `lats[int(p * float64(len(lats)-1))]`: `share` is the product, cut to an integer. None is an index
-- out of range.
unfoldable pub percentile : (ℕ → ℕ) → List ℕ → Option ℕ
percentile share lats = get_elem? lats (share (length lats - 1))

-- A share of a number is no more than the number.
abbrev pub IsShare : (ℕ → ℕ) → Type 0
IsShare share = (n : ℕ) → share n ≤ n

length-insert_latency : (v : ℕ) (xs : List ℕ) → length (insert_latency v xs) ≡ suc (length xs)
unfolding insert_latency
length-insert_latency v [] = refl
length-insert_latency v (x ∷ xs) = ground (arith, length-insert_latency v xs)

length-sort_latencies : (xs : List ℕ) → length (sort_latencies xs) ≡ length xs
unfolding sort_latencies
length-sort_latencies [] = refl
length-sort_latencies (x ∷ xs) =
    omega (arith, length-sort_latencies xs, length-insert_latency x (sort_latencies xs))

get_elem?_below : (xs : List ℕ) (i : ℕ) → i < length xs → (v : ℕ) × (get_elem? xs i ≡ some v)
get_elem?_below [] i h = absurd (omega (arith, h))
get_elem?_below (x ∷ xs) zero h = (x, refl)
get_elem?_below (x ∷ xs) (suc i) h = get_elem?_below xs i (omega (arith, h))

-- The percentiles of a report of one operation at least are in range.
pub percentile-sort_latencies :
    (share : ℕ → ℕ) (x : ℕ) (xs : List ℕ)
    → IsShare share
    → (v : ℕ) × (percentile share (sort_latencies (x ∷ xs)) ≡ some v)
unfolding percentile
percentile-sort_latencies share x xs h =
    let sorted = sort_latencies (x ∷ xs) in
    let counted = length-sort_latencies (x ∷ xs) in
    let below = h (length sorted - 1) in
    get_elem?_below sorted (share (length sorted - 1)) (omega (arith, counted, below))
