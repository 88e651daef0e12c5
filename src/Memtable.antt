-- ===== src/Memtable.antt =====
-- storage/memtable.go: the skip list of the engine. Its nodes are listed in the order of level 0,
-- each with its height: `next[i]` of a node is the first later node that is taller than i. A place
-- in the list is the part behind it, so the head's is the whole list. Memtable/Pointers.antt has
-- put with the pointers of each level, and Memtable/HeapPut.antt relates the two.
pub mod Search
pub mod Refinement
pub mod Pointers
pub mod Levels
pub mod Descent
pub mod Splicing
pub mod Linking
pub mod HeapPut
use distkv.Prelude.{
  ℕ, zero, suc, ◌+◌, ◌-◌, ◌≡◌, Bool, true, false, Option, none, some, List, [], ◌∷◌, ◌++◌, ltb,
  ◌==◌, ◌&&◌, if◌then◌else◌, length, take,
}
use distkv.Codec.{Bytes}
use distkv.Text.{same, less}
use distkv.KeyMap.{KvEntry}

abbrev pub max_height : ℕ
max_height = 12

pub record SkipNode : Type 0 where
  pub key : Bytes
  pub value : Bytes
  pub tombstone : Bool
  pub height : ℕ

pub record Memtable : Type 0 where
  pub nodes : List SkipNode
  pub size : ℕ
  pub count : ℕ

unfoldable pub new_memtable : Memtable
new_memtable = record { nodes = []; size = 0; count = 0 }

-- The loop of randomHeight from height `h`, with the results of rand.Intn(4) in turn.
unfoldable pub climb : ℕ → List ℕ → ℕ
climb h [] = h
climb h (draw ∷ draws) =
    let higher = climb (h + 1) draws in if ltb h max_height && draw == 0 then higher else h

unfoldable pub random_height : List ℕ → ℕ
unfolding climb
random_height draws = climb 1 draws

-- The loop at one level: `here` is the place of x, and the scan goes on behind it to `next[level]`.
unfoldable pub advance : ℕ → Bytes → List SkipNode → List SkipNode → List SkipNode
advance level key here [] = here
advance level key here (n ∷ ns) =
    let moved = advance level key ns ns in
    let further = advance level key here ns in
    if ltb level n.height then (if less n.key key then moved else here) else further

-- The levels from the top one down to 0.
unfoldable pub search_down : ℕ → Bytes → List SkipNode → List SkipNode
unfolding advance
search_down zero key here = here
search_down (suc level) key here = search_down level key (advance level key here here)

-- What put does at `x.next[0]`: a node with the key takes the value, any other has a new one linked
-- before it.
unfoldable pub place : KvEntry → ℕ → List SkipNode → List SkipNode → Memtable → Memtable
place e h before [] m = record {
  nodes =
      before ++ record { key = e.key; value = e.value; tombstone = e.tombstone; height = h } ∷ [];
  size = m.size + (length e.key + length e.value + 32);
  count = m.count + 1;
}
place e h before (n ∷ after) m =
    if same n.key e.key
    then record {
      nodes = before ++ record n { value = e.value; tombstone = e.tombstone } ∷ after;
      size = m.size + length e.value - length n.value;
      count = m.count;
    }
    else record {
      nodes =
          before
          ++ record { key = e.key; value = e.value; tombstone = e.tombstone; height = h }
            ∷ n
            ∷ after;
      size = m.size + (length e.key + length e.value + 32);
      count = m.count + 1;
    }

unfoldable pub put : KvEntry → ℕ → Memtable → Memtable
unfolding place search_down
put e h m =
    let behind = search_down max_height e.key m.nodes in
    place e h (take (length m.nodes - length behind) m.nodes) behind m

-- The value and the tombstone, if the key is there.
unfoldable pub hit : Bytes → List SkipNode → Option (Bytes × Bool)
hit key [] = none
hit key (n ∷ ns) = if same n.key key then some (n.value, n.tombstone) else none

unfoldable pub get : Bytes → Memtable → Option (Bytes × Bool)
unfolding hit search_down
get key m = hit key (search_down max_height key m.nodes)

abbrev pub entry_of : SkipNode → KvEntry
entry_of n = record { key = n.key; value = n.value; tombstone = n.tombstone }

unfoldable pub entries_of : List SkipNode → List KvEntry
entries_of [] = []
entries_of (n ∷ ns) = entry_of n ∷ entries_of ns

unfoldable pub entries : Memtable → List KvEntry
unfolding entries_of
entries m = entries_of m.nodes
