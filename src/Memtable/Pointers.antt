-- ===== src/Memtable/Pointers.antt =====
-- storage/memtable.go with its pointers: the search through the levels with `update`, and the loop
-- of put that links a node on each of its levels.
use distkv.Prelude.{ℕ, zero, suc, false, [], Option, none, some, ◌==◌, ◌&&◌, if◌then◌else◌}
use distkv.Codec.{Bytes}
use distkv.Text.{same, less}
use distkv.KeyMap.{KvEntry}
use distkv.Memtable.{SkipNode, max_height}

-- The nodes by their address, with the head at address 0, and `next` of an address and a level.
pub record SkipHeap : Type 0 where
  pub node : ℕ → SkipNode
  pub next : ℕ → ℕ → Option ℕ

-- newMemtable: the head has every level, and no node behind it.
unfoldable pub new_heap : SkipHeap
new_heap = record {
  node = λ v. record { key = []; value = []; tombstone = false; height = max_height };
  next = λ v i. none;
}

-- `x.next[i] = y`
abbrev pub set_next : ℕ → ℕ → Option ℕ → (ℕ → ℕ → Option ℕ) → ℕ → ℕ → Option ℕ
set_next x i y next v j = if x == v && i == j then y else next v j

module _ (key : Bytes) (heap : SkipHeap) where
  -- The loop at one level, from x.
  unfoldable pub scan : ℕ → ℕ → ℕ → ℕ
  scan zero i x = x
  scan (suc fuel) i x = elim (heap.next x i) [
    | none ↦ x
    | some y ↦ let further = scan fuel i y in if less (heap.node y).key key then further else x
  ]

  -- The loop over the levels below the number, the top one first, which fills `update`.
  unfoldable pub find_update : ℕ → ℕ → ℕ → (ℕ → ℕ) → ℕ → ℕ
  unfolding scan
  find_update fuel zero x update = update
  find_update fuel (suc i) x update =
      let x1 = scan fuel i x in find_update fuel i x1 (λ j. if i == j then x1 else update j)

-- The loop that links the node n at the levels below the number.
unfoldable pub link_levels : ℕ → (ℕ → ℕ) → ℕ → (ℕ → ℕ → Option ℕ) → ℕ → ℕ → Option ℕ
link_levels zero update n next = next
link_levels (suc i) update n next =
    let below = link_levels i update n next in
    set_next (update i) i (some n) (set_next n i (below (update i) i) below)

abbrev pub new_node : KvEntry → ℕ → SkipNode
new_node e h = record { key = e.key; value = e.value; tombstone = e.tombstone; height = h }

unfoldable pub link_node : KvEntry → ℕ → ℕ → (ℕ → ℕ) → SkipHeap → SkipHeap
unfolding link_levels
link_node e h n update heap = record {
  node = λ v. if n == v then new_node e h else heap.node v;
  next = link_levels h update n heap.next;
}

unfoldable pub overwrite : KvEntry → ℕ → SkipHeap → SkipHeap
overwrite e y heap = record heap {
  node = λ v.
      if y == v
      then record (heap.node y) { value = e.value; tombstone = e.tombstone }
      else heap.node v;
}

-- put, where a new node gets the address n.
unfoldable pub put_in_heap : ℕ → KvEntry → ℕ → ℕ → SkipHeap → SkipHeap
unfolding find_update link_node overwrite
put_in_heap fuel e h n heap =
    let update = find_update e.key heap fuel max_height 0 (λ i. 0) in
    elim (heap.next (update 0) 0) [
      | none ↦ link_node e h n update heap
      | some y ↦
          if same (heap.node y).key e.key then overwrite e y heap else link_node e h n update heap
    ]
