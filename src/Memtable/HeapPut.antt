-- ===== src/Memtable/HeapPut.antt =====
-- put of storage/memtable.go along the pointers and put on the list of the nodes come to the same.
use distkv.Prelude.{
  ℕ, ◌≤◌, ◌<◌, ◌≡◌, refl, sym, ap, ◌∙◌, true, false, none, some, List, [], ◌∷◌, ◌++◌, arith, ltb,
  ◌==◌, ==_iff, Bool-cases, inl, inr, length, length-append,
}
use mathlib.Core.Path.{subst}
use distkv.Codec.{Bytes}
use distkv.Text.{same, less, less_trans}
use distkv.IdSet.{contains}
use distkv.KeyMap.{KvEntry, upsert}
use distkv.Memtable.{SkipNode, Memtable, max_height, put, entries}
use distkv.Memtable.Search.{NodesAbove, IsSkipList}
use distkv.Memtable.Refinement.{IsMemtable, link, put-link, put_lem}
use distkv.Memtable.Pointers.{SkipHeap, find_update, overwrite, put_in_heap, new_heap}
use distkv.Memtable.Levels.{Distinct, first_at, last_at}
use distkv.Memtable.Descent.{Lows, Highs, find_update-last_at}
use distkv.Memtable.Splicing.{
  contains-append, first_at-agree, Level-agree, next-last_at, nodes_at, nodes_at-agree,
  nodes_at-append,
}
use distkv.Memtable.Linking.{heights, Shows, link_node-Shows}

-- A list of addresses, cut at the key.
record Cut (key : Bytes) (heap : SkipHeap) (ids : List ℕ) : Type 0 where
  before : List ℕ
  after : List ℕ
  whole : ids ≡ before ++ after
  lows : Lows key heap [] before
  highs : Highs key heap [] after

not_before_key :
    (key : Bytes) (heap : SkipHeap) (k : Bytes) (ids : List ℕ)
    → less k key ≡ false
    → NodesAbove k (nodes_at heap.node ids)
    → Highs key heap [] ids
not_before_key key heap k [] h a = tt
not_before_key key heap k (y ∷ ys) h (a, more) = (
  elim (Bool-cases (less (heap.node y).key key)) [
    | inl low ↦
        let t : less k key ≡ true = less_trans k (heap.node y).key key a low in absurd (cc (t, h))
    | inr high ↦ high
  ],
  not_before_key key heap k ys h more,
)

split_by_key :
    (key : Bytes) (heap : SkipHeap) (ids : List ℕ)
    → IsSkipList (nodes_at heap.node ids)
    → Cut key heap ids
split_by_key key heap [] s = record { before = []; after = []; whole = refl; lows = tt; highs = tt }
split_by_key key heap (y ∷ ys) s = elim (Bool-cases (less (heap.node y).key key)) [
  | inl low ↦
      let c = split_by_key key heap ys s.2 in
      record {
        before = y ∷ c.before;
        after = c.after;
        whole = ap (λ l. y ∷ l) c.whole;
        lows = (low, c.lows);
        highs = c.highs;
      }
  | inr high ↦ record {
    before = [];
    after = y ∷ ys;
    whole = refl;
    lows = tt;
    highs = (high, not_before_key key heap (heap.node y).key ys high s.0);
  }
]

link-Lows :
    (e : KvEntry) (h : ℕ) (heap : SkipHeap) (xs : List ℕ) (ns : List SkipNode)
    → Lows e.key heap [] xs
    → link e h (nodes_at heap.node xs ++ ns) ≡ nodes_at heap.node xs ++ link e h ns
unfolding link
link-Lows e h heap [] ns l = refl
link-Lows e h heap (x ∷ xs) ns (l, ls) =
    rw (link, l) (ap (λ t. heap.node x ∷ t) (link-Lows e h heap xs ns ls))

reaches_zero :
    (f : ℕ → SkipNode) (xs ys : List ℕ) (y : ℕ)
    → IsSkipList (nodes_at f (xs ++ y ∷ ys))
    → 0 < (f y).height
reaches_zero f [] ys y s = s.1
reaches_zero f (x ∷ xs) ys y s = reaches_zero f xs ys y s.2

once :
    (xs ys : List ℕ) (y : ℕ)
    → Distinct (xs ++ y ∷ ys)
    → (contains xs y ≡ false) × (contains ys y ≡ false)
unfolding contains
once [] ys y d = (refl, d.0)
once (x ∷ xs) ys y (d, ds) =
    let (left, right) = once xs ys y ds in
    let apart : (x == y) ≡ false =
      ground (arith, d, contains-append xs (y ∷ ys) x, ==_iff x y, ==_iff y x) in
    (ground (arith, left, apart), right)

not_in : (xs : List ℕ) (y v : ℕ) → contains xs y ≡ false → contains xs v ≡ true → (y == v) ≡ false
not_in xs y v out m = elim (Bool-cases (y == v)) [
  | inl here ↦
      let s : v ≡ y = ground (arith, here, ==_iff y v) in
      let m1 : contains xs y ≡ true = rw (sym s) m in absurd (cc (m1, out))
  | inr other ↦ other
]

overwrite-Shows :
    (e : KvEntry) (heap : SkipHeap) (before ys : List ℕ) (y : ℕ) (ns : List SkipNode)
    → Shows heap (before ++ y ∷ ys) ns
    → Shows (overwrite e y heap) (before ++ y ∷ ys) (
        nodes_at heap.node before
        ++ record (heap.node y) { value = e.value; tombstone = e.tombstone }
          ∷ nodes_at heap.node ys)
unfolding overwrite contains
overwrite-Shows e heap before ys y ns v = record {
  contents =
      let (left, right) = once before ys y v.distinct.1 in
      let one =
        nodes_at-agree heap.node heap1.node before (λ w m. kept w (not_in before y w left m)) in
      let two = nodes_at-agree heap.node heap1.node ys (λ w m. kept w (not_in ys y w right m)) in
      nodes_at-append heap1.node before (y ∷ ys) ∙ cc (one, two, changed);
  distinct = v.distinct;
  head_height = height 0 ∙ v.head_height;
  head_pointers = λ j b.
      v.head_pointers j b
      ∙ sym (first_at-agree (heights heap) (heights heap1) j (before ++ y ∷ ys) (λ w m. height w));
  levels = λ j.
      Level-agree (heights heap) (heights heap1) j (λ w. heap.next w j) (before ++ y ∷ ys)
        (λ w m. height w) (v.levels j);
}
  where
    heap1 : SkipHeap
    heap1 = overwrite e y heap

    new : SkipNode
    new = record (heap.node y) { value = e.value; tombstone = e.tombstone }

    kept : (w : ℕ) → (y == w) ≡ false → heap1.node w ≡ heap.node w
    kept w h = rw h refl

    changed : heap1.node y ≡ new
    changed = let own : (y == y) ≡ true = ground (arith, ==_iff y y) in rw own refl

    height : (w : ℕ) → heights heap1 w ≡ heights heap w
    height w = elim (Bool-cases (y == w)) [
      | inl here ↦
          let s : y ≡ w = ground (arith, here, ==_iff y w) in
          ap (heights heap1) (sym s) ∙ ap (λ (x : SkipNode). x.height) changed ∙ ap (heights heap) s
      | inr other ↦ ap (λ (x : SkipNode). x.height) (kept w other)
    ]

module _ (e : KvEntry) (h n fuel : ℕ) (heap : SkipHeap) where
  abbrev updates : ℕ → ℕ
  updates = find_update e.key heap fuel max_height 0 (λ i. 0)

  updates-last_at :
      (before after : List ℕ) (ns : List SkipNode) (j : ℕ)
      → length before < fuel
      → Lows e.key heap [] before
      → Highs e.key heap [] after
      → Shows heap (before ++ after) ns
      → j < max_height
      → updates j ≡ last_at (heights heap) j 0 before
  updates-last_at before after ns j f l g v b =
      let lower : ltb j max_height ≡ true = ground (arith, b) in
      find_update-last_at e.key heap after max_height fuel 0 before (λ i. 0) j f l g
        (λ k p. v.head_pointers k p) v.levels
      ∙ rw lower refl

  -- What the search finds on level 0.
  found_at :
      (before after : List ℕ) (ns : List SkipNode)
      → length before < fuel
      → Lows e.key heap [] before
      → Highs e.key heap [] after
      → Shows heap (before ++ after) ns
      → heap.next (updates 0) 0 ≡ first_at (heights heap) 0 after
  found_at before after ns f l g v =
      ap (λ w. heap.next w 0) (updates-last_at before after ns 0 f l g v (omega arith))
      ∙ next-last_at (heights heap) 0 (λ w. heap.next w 0) 0 before after
          (v.head_pointers 0 (omega arith)) (v.levels 0)

  put_at :
      (before after : List ℕ) (ns : List SkipNode)
      → h ≤ max_height
      → contains (0 ∷ before ++ after) n ≡ false
      → length before < fuel
      → Lows e.key heap [] before
      → Highs e.key heap [] after
      → IsSkipList (nodes_at heap.node (before ++ after))
      → Shows heap (before ++ after) ns
      → (ids : List ℕ) × Shows
          (put_in_heap fuel e h n heap)
          ids
          (link e h (nodes_at heap.node (before ++ after)))
  unfolding put_in_heap link
  put_at before [] ns t out f l g s v =
      let end : heap.next (updates 0) 0 ≡ none = found_at before [] ns f l g v in
      let linked_here =
        link_node-Shows e h n heap before [] updates out ns t
          (λ j b. updates-last_at before [] ns j f l g v b) v in
      (
        before ++ n ∷ [],
        rw (nodes_at-append heap.node before [], link-Lows e h heap before [] l)
            (rw (put_in_heap, end) linked_here),
      )
  put_at before (y ∷ ys) ns t out f l (g, gs) s v =
      let tall : ltb 0 (heights heap y) ≡ true =
        ground (arith, reaches_zero heap.node before ys y s) in
      let here : heap.next (updates 0) 0 ≡ some y =
        found_at before (y ∷ ys) ns f l (g, gs) v ∙ rw tall refl in
      let split = nodes_at-append heap.node before (y ∷ ys) in
      let spliced = link-Lows e h heap before (nodes_at heap.node (y ∷ ys)) l in
      elim (Bool-cases (same (heap.node y).key e.key)) [
        | inl hit ↦ (
          before ++ y ∷ ys,
          rw (split, spliced)
              (rw (put_in_heap, here) (rw (hit, g) (overwrite-Shows e heap before ys y ns v))),
        )
        | inr miss ↦
            let linked_here =
              link_node-Shows e h n heap before (y ∷ ys) updates out ns t
                (λ j b. updates-last_at before (y ∷ ys) ns j f l (g, gs) v b) v in
            (
              before ++ n ∷ y ∷ ys,
              rw (split, spliced) (rw (put_in_heap, here) (rw (miss, g) linked_here)),
            )
      ]

-- A put along the pointers, with the search that fills update and the loop that links the new node
-- on each of its levels: from a heap that holds the nodes of a memtable in order, each level of it
-- linking the nodes that reach it, it leads to one that holds the nodes of the memtable after the
-- put, and again each level links the nodes that reach it. That memtable is in order, and its
-- entries are those from before with the new one at its key. The new node has an address that is
-- free and between 1 and 12 levels, and there is fuel for the nodes of the list.
pub put_in_heap-put :
    (e : KvEntry) (h n fuel : ℕ) (heap : SkipHeap) (ids : List ℕ) (m : Memtable)
    → IsMemtable m
    → Shows heap ids m.nodes
    → 0 < h
    → h ≤ max_height
    → contains (0 ∷ ids) n ≡ false
    → length ids < fuel
    → (ids1 : List ℕ) × Shows (put_in_heap fuel e h n heap) ids1 (put e h m).nodes
      × IsMemtable (put e h m)
      × (entries (put e h m) ≡ upsert e (entries m))
put_in_heap-put e h n fuel heap ids m good v b t out f =
    let sorted : IsSkipList (nodes_at heap.node ids) =
      subst IsSkipList (sym v.contents) good.skip_list in
    let c = split_by_key e.key heap ids sorted in
    let short : length c.before < fuel =
      omega (arith, ap length c.whole, length-append c.before c.after, f) in
    let (ids1, shown) =
      put_at e h n fuel heap c.before c.after m.nodes t
        (ap (λ l. contains (0 ∷ l) n) (sym c.whole) ∙ out) short c.lows c.highs
        (subst (λ l. IsSkipList (nodes_at heap.node l)) c.whole sorted)
        (subst (λ l. Shows heap l m.nodes) c.whole v) in
    let same_nodes : link e h (nodes_at heap.node (c.before ++ c.after)) ≡ (put e h m).nodes =
      ap (λ l. link e h (nodes_at heap.node l)) (sym c.whole)
      ∙ ap (link e h) v.contents
      ∙ sym (put-link e h m good) in
    let (in_order, upserted, sorted1) = put_lem e h m good b in
    (ids1, subst (Shows (put_in_heap fuel e h n heap) ids1) same_nodes shown, in_order, upserted)

-- An empty memtable.
pub new_heap-Shows : Shows new_heap [] []
unfolding new_heap contains
new_heap-Shows = record {
  contents = refl;
  distinct = (refl, tt);
  head_height = refl;
  head_pointers = λ j b. refl;
  levels = λ j. tt;
}
