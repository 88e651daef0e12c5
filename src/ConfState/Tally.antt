-- ===== src/ConfState/Tally.antt =====
-- Counting lemmas for the quorums of raft/confstate.go: tallies over a set of servers, and the
-- union that AllPeerIDs builds.
use distkv.Prelude.{
  ℕ, ◌+◌, ◌≤◌, ◌<◌, ◌≡◌, refl, Bool, true, ◌&&◌, List, [], ◌∷◌, arith, if◌then◌else◌, length, inl,
  inr, Bool-cases,
}
use distkv.IdSet.{
  IdSet, contains, insert, insert_all, IsAscending, IsAscending-tail, contains_below,
  contains-insert, contains-insert_all, insert_all-IsAscending,
}

-- The servers of a list that are in a set of votes.
unfoldable pub tally : (ℕ → Bool) → List ℕ → ℕ
tally p [] = 0
tally p (x ∷ xs) = (if p x then 1 else 0) + tally p xs

tally_both :
    (p q : ℕ → Bool) (xs : List ℕ)
    → tally p xs + tally q xs ≤ length xs + tally (λ id. p id && q id) xs
unfolding tally
tally_both p q [] = omega arith
tally_both p q (x ∷ xs) = ground (arith, tally_both p q xs)

abbrev pub Meet : (ℕ → Bool) → (ℕ → Bool) → Type 0
Meet p q = (id : ℕ) × (p id ≡ true) × (q id ≡ true)

tally_pos : (p q : ℕ → Bool) (xs : List ℕ) → 0 < tally (λ id. p id && q id) xs → Meet p q
unfolding tally
tally_pos p q [] h = absurd (omega arith)
tally_pos p q (x ∷ xs) h = elim (Bool-cases (p x && q x)) [
  | inl both ↦ (x, ground arith, ground arith)
  | inr neither ↦ tally_pos p q xs (ground arith)
]

pub Meet-of_sum : (p q : ℕ → Bool) (xs : List ℕ) → length xs < tally p xs + tally q xs → Meet p q
Meet-of_sum p q xs h = tally_pos p q xs (omega (arith, tally_both p q xs))

pub tally-insert : (p : ℕ → Bool) (id : ℕ) (s : IdSet) → tally p s ≤ tally p (insert id s)
unfolding tally insert
tally-insert p id [] = ground arith
tally-insert p id (x ∷ xs) = ground (arith, tally-insert p id xs)

pub length-insert_le :
    (id : ℕ) (s : IdSet) → (length s ≤ length (insert id s)) × (length (insert id s) ≤ length s + 1)
unfolding insert
length-insert_le id [] = omega arith
length-insert_le id (x ∷ xs) = ground (arith, length-insert_le id xs)

-- Two ascending lists with the same members are equal.
pub ascending_ext :
    (xs ys : IdSet)
    → IsAscending xs
    → IsAscending ys
    → ((j : ℕ) → contains xs j ≡ contains ys j)
    → xs ≡ ys
unfolding contains
ascending_ext [] [] a b h = refl
ascending_ext [] (y ∷ ys) a b h = ground (arith, h y)
ascending_ext (x ∷ xs) [] a b h = ground (arith, h x)
ascending_ext (x ∷ xs) (y ∷ ys) a b h =
    let heads : x ≡ y =
      ground (arith, h x, h y, contains_below x y xs a, contains_below y x ys b) in
    let tails : xs ≡ ys =
      ascending_ext xs ys (IsAscending-tail x xs a) (IsAscending-tail y ys b)
        (λ j. ground (arith, heads, h j, contains_below x j xs a, contains_below y j ys b)) in
    cc (heads, tails)

unfoldable pub union : IdSet → IdSet → IdSet
union a b = insert_all b (insert_all a [])

contains-union :
    (a b : IdSet) (j : ℕ) → contains (union a b) j ≡ (if contains b j then true else contains a j)
unfolding union contains
contains-union a b j =
    ground (arith, contains-insert_all a j [], contains-insert_all b j (insert_all a []))

union-IsAscending : (a b : IdSet) → IsAscending (union a b)
unfolding union
union-IsAscending a b = insert_all-IsAscending b (insert_all a []) (insert_all-IsAscending a [] tt)

pub union-insert_left :
    (id : ℕ) (s : IdSet) → IsAscending (insert id s) → union (insert id s) s ≡ insert id s
union-insert_left id s a =
    ascending_ext (union (insert id s) s) (insert id s) (union-IsAscending (insert id s) s) a
      (λ j. ground (arith, contains-union (insert id s) s j, contains-insert id j s))

pub union-insert_right :
    (id : ℕ) (s : IdSet) → IsAscending (insert id s) → union s (insert id s) ≡ insert id s
union-insert_right id s a =
    ascending_ext (union s (insert id s)) (insert id s) (union-IsAscending s (insert id s)) a
      (λ j. ground (arith, contains-union s (insert id s) j, contains-insert id j s))
