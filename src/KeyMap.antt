-- ===== src/KeyMap.antt =====
-- The entries of storage/memtable.go, and Go's map[string]kvEntry of storage/engine.go as the list
-- of its entries in ascending order of their keys: the order in which the source goes through such
-- a map, after sort.Strings.
pub mod Laws
use distkv.Prelude.{ℕ, ◌≡◌, Bool, true, false, Option, none, some, List, [], ◌∷◌, if◌then◌else◌}
use distkv.Codec.{Bytes}
use distkv.Text.{same, less}

pub record KvEntry : Type 0 where
  pub key : Bytes
  pub value : Bytes
  pub tombstone : Bool

-- `m[key]`
unfoldable pub find : Bytes → List KvEntry → Option KvEntry
find j [] = none
find j (x ∷ xs) = if same x.key j then some x else find j xs

-- `m[e.key] = e`
unfoldable pub upsert : KvEntry → List KvEntry → List KvEntry
upsert e [] = e ∷ []
upsert e (x ∷ xs) =
    let rest = upsert e xs in
    if less x.key e.key then x ∷ rest else if same x.key e.key then e ∷ xs else e ∷ x ∷ xs

unfoldable pub upsert_all : List KvEntry → List KvEntry → List KvEntry
unfolding upsert
upsert_all [] m = m
upsert_all (e ∷ es) m = upsert_all es (upsert e m)

-- Every key is above `k`.
abbrev pub Above : Bytes → List KvEntry → Type 0
Above k [] = Unit
Above k (x ∷ xs) = (less k x.key ≡ true) × Above k xs

abbrev pub IsSorted : List KvEntry → Type 0
IsSorted [] = Unit
IsSorted (x ∷ xs) = Above x.key xs × IsSorted xs

-- No key stands twice.
abbrev pub Unique : List KvEntry → Type 0
Unique [] = Unit
Unique (x ∷ xs) = (find x.key xs ≡ none) × Unique xs
