-- ===== src/IdSet.antt =====
-- Go's map[uint64]struct{}: a set of server ids, kept as the strictly ascending list of its keys.
-- The source reads such a map by membership, by len and through sortedKeys of raft/confstate.go,
-- which all agree with this list; a nil map and an empty one are both [].
use distkv.Prelude.{
  ℕ, suc, ◌+◌, ◌≤◌, ◌<◌, ◌≡◌, refl, Bool, true, false, List, [], ◌∷◌, arith, ltb, ◌==◌,
  if◌then◌else◌, length,
}

abbrev pub IdSet : Type 0
IdSet = List ℕ

-- `_, ok := m[id]`
unfoldable pub contains : IdSet → ℕ → Bool
contains [] id = false
contains (x ∷ xs) id = if x == id then true else contains xs id

-- `m[id] = struct{}{}`
unfoldable pub insert : ℕ → IdSet → IdSet
insert id [] = id ∷ []
insert id (x ∷ xs) = if ltb id x then id ∷ x ∷ xs else if id == x then x ∷ xs else x ∷ insert id xs

-- `delete(m, id)`
unfoldable pub remove : ℕ → IdSet → IdSet
remove id [] = []
remove id (x ∷ xs) = if id == x then xs else x ∷ remove id xs

-- A loop of inserts.
unfoldable pub insert_all : List ℕ → IdSet → IdSet
insert_all [] s = s
insert_all (x ∷ xs) s = insert_all xs (insert x s)

-- `len(m)` is the length of the list as long as it is strictly ascending.
abbrev pub IsAscending : IdSet → Type 0
IsAscending [] = Unit
IsAscending (x ∷ []) = Unit
IsAscending (x ∷ y ∷ xs) = (x < y) × IsAscending (y ∷ xs)

pub contains-insert :
    (id j : ℕ) (s : IdSet) → contains (insert id s) j ≡ (if id == j then true else contains s j)
unfolding contains insert
contains-insert id j [] = refl
contains-insert id j (x ∷ xs) = ground (arith, contains-insert id j xs)

pub contains-insert_all :
    (ids : List ℕ) (j : ℕ) (s : IdSet)
    → contains (insert_all ids s) j ≡ (if contains ids j then true else contains s j)
unfolding contains insert_all
contains-insert_all [] j s = refl
contains-insert_all (x ∷ xs) j s =
    ground (arith, contains-insert_all xs j (insert x s), contains-insert x j s)

-- An id at or below the first key of an ascending list is no later key.
pub contains_below : (x j : ℕ) (xs : IdSet) → IsAscending (x ∷ xs) → j ≤ x → contains xs j ≡ false
unfolding contains
contains_below x j [] a h = refl
contains_below x j (y ∷ xs) a h = ground (arith, contains_below y j xs a.1)

pub IsAscending-tail : (x : ℕ) (xs : IdSet) → IsAscending (x ∷ xs) → IsAscending xs
IsAscending-tail x [] a = tt
IsAscending-tail x (y ∷ xs) a = a.1

pub contains-remove :
    (id j : ℕ) (s : IdSet)
    → IsAscending s
    → contains (remove id s) j ≡ (if id == j then false else contains s j)
unfolding contains remove
contains-remove id j [] a = ground arith
contains-remove id j (x ∷ xs) a =
    ground (arith, contains-remove id j xs (IsAscending-tail x xs a), contains_below x j xs a)

pub insert-IsAscending : (id : ℕ) (s : IdSet) → IsAscending s → IsAscending (insert id s)
unfolding insert
insert-IsAscending id [] a = tt
insert-IsAscending id (x ∷ []) a = ground arith
insert-IsAscending id (x ∷ y ∷ xs) a = ground (arith, insert-IsAscending id (y ∷ xs) a.1)

pub insert_all-IsAscending :
    (ids : List ℕ) (s : IdSet) → IsAscending s → IsAscending (insert_all ids s)
unfolding insert_all
insert_all-IsAscending [] s a = a
insert_all-IsAscending (x ∷ xs) s a =
    insert_all-IsAscending xs (insert x s) (insert-IsAscending x s a)

pub remove-IsAscending : (id : ℕ) (s : IdSet) → IsAscending s → IsAscending (remove id s)
unfolding remove
remove-IsAscending id [] a = tt
remove-IsAscending id (x ∷ []) a = ground arith
remove-IsAscending id (x ∷ y ∷ []) a = ground arith
remove-IsAscending id (x ∷ y ∷ z ∷ xs) a = ground (arith, remove-IsAscending id (y ∷ z ∷ xs) a.1)

pub length-insert :
    (id : ℕ) (s : IdSet)
    → IsAscending s
    → length (insert id s) ≡ (if contains s id then length s else suc (length s))
unfolding insert contains
length-insert id [] a = refl
length-insert id (x ∷ xs) a =
    ground (arith, length-insert id xs (IsAscending-tail x xs a), contains_below x id xs a)

pub length-remove :
    (id : ℕ) (s : IdSet) → length (remove id s) + (if contains s id then 1 else 0) ≡ length s
unfolding remove contains
length-remove id [] = omega arith
length-remove id (x ∷ xs) = ground (arith, length-remove id xs)
