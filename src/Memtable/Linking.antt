-- ===== src/Memtable/Linking.antt =====
-- put of storage/memtable.go along the pointers, against put on the list of the nodes.
use distkv.Prelude.{
  ℕ, ◌≤◌, ◌<◌, ◌≡◌, refl, sym, ap, ◌∙◌, true, false, Option, List, ◌∷◌, ◌++◌, arith, ltb, ◌==◌,
  ==_iff, Bool-cases, inl, inr,
}
use distkv.IdSet.{contains}
use distkv.KeyMap.{KvEntry}
use distkv.Memtable.{SkipNode, max_height}
use distkv.Memtable.Pointers.{SkipHeap, new_node, link_node}
use distkv.Memtable.Levels.{
  Distinct, first_at, last_at, Level, Level-kept, linked, linked-Level, first_at-short, Level-short,
  link_levels-linked,
}
use distkv.Memtable.Splicing.{
  contains-append, Distinct-mid, first_at-agree, last_at-agree, Level-agree, nodes_at,
  nodes_at-agree, nodes_at-append,
}

abbrev pub heights : SkipHeap → ℕ → ℕ
heights heap v = (heap.node v).height

-- The heap holds these nodes, at these addresses in the order of level 0: on every level the pointers
-- lead from the head and from each node that reaches the level to the next one that does.
pub record Shows (heap : SkipHeap) (ids : List ℕ) (nodes : List SkipNode) : Type 0 where
  pub contents : nodes_at heap.node ids ≡ nodes
  pub distinct : Distinct (0 ∷ ids)
  pub head_height : heights heap 0 ≡ max_height
  pub head_pointers : (j : ℕ) → j < max_height → heap.next 0 j ≡ first_at (heights heap) j ids
  pub levels : (j : ℕ) → Level (heights heap) j (λ v. heap.next v j) ids

module _ (e : KvEntry) (h n : ℕ) (heap : SkipHeap) (before after : List ℕ) (update : ℕ → ℕ)
    (out : contains (0 ∷ before ++ after) n ≡ false) where
  absent : (v : ℕ) → contains (0 ∷ before ++ after) v ≡ true → (n == v) ≡ false
  absent v m = elim (Bool-cases (n == v)) [
    | inl here ↦
        let s : v ≡ n = ground (arith, here, ==_iff n v) in
        let m1 : contains (0 ∷ before ++ after) n ≡ true = rw (sym s) m in absurd (cc (m1, out))
    | inr other ↦ other
  ]

  kept :
      (v : ℕ)
      → contains (0 ∷ before ++ after) v ≡ true
      → (link_node e h n update heap).node v ≡ heap.node v
  unfolding link_node
  kept v m = rw (absent v m) refl

  own : (link_node e h n update heap).node n ≡ new_node e h
  unfolding link_node
  own = let same_n : (n == n) ≡ true = ground (arith, ==_iff n n) in rw same_n refl

  kept_height :
      (v : ℕ)
      → contains (0 ∷ before ++ after) v ≡ true
      → heights (link_node e h n update heap) v ≡ heights heap v
  kept_height v m = ap (λ (s : SkipNode). s.height) (kept v m)

  in_list : (v : ℕ) → contains (before ++ after) v ≡ true → contains (0 ∷ before ++ after) v ≡ true
  unfolding contains
  in_list v m = ground (arith, m)

  in_before : (v : ℕ) → contains before v ≡ true → contains (0 ∷ before ++ after) v ≡ true
  unfolding contains
  in_before v m = ground (arith, contains-append before after v, m)

  in_after : (v : ℕ) → contains after v ≡ true → contains (0 ∷ before ++ after) v ≡ true
  unfolding contains
  in_after v m = ground (arith, contains-append before after v, m)

  -- A level that the new node reaches.
  reached_by_node :
      (j : ℕ)
      → ltb j h ≡ true
      → Distinct (0 ∷ before ++ after)
      → update j ≡ last_at (heights heap) j 0 before
      → heap.next 0 j ≡ first_at (heights heap) j (before ++ after)
      → Level (heights heap) j (λ v. heap.next v j) (before ++ after)
      → ((link_node e h n update heap).next 0 j
          ≡ first_at (heights (link_node e h n update heap)) j (before ++ n ∷ after))
        × Level
            (heights (link_node e h n update heap))
            j
            (λ v. (link_node e h n update heap).next v j)
            (before ++ n ∷ after)
  reached_by_node j below d u p v =
      let ht1 = heights (link_node e h n update heap) in
      let nx : ℕ → Option ℕ = λ w. heap.next w j in
      let taller : ltb j (ht1 n) ≡ true = ap (λ (s : SkipNode). ltb j s.height) own ∙ below in
      let u1 : last_at ht1 j 0 before ≡ update j =
        last_at-agree (heights heap) ht1 j 0 before (λ w m. kept_height w (in_before w m))
        ∙ sym u in
      let p1 : nx 0 ≡ first_at ht1 j (before ++ after) =
        p
        ∙ sym (
            first_at-agree (heights heap) ht1 j (before ++ after)
              (λ w m. kept_height w (in_list w m))) in
      let v1 =
        Level-agree (heights heap) ht1 j nx (before ++ after) (λ w m. kept_height w (in_list w m))
          v in
      let (head, rest) = linked-Level ht1 j before after 0 n (update j) nx u1 taller d out p1 v1 in
      (
        now j below 0 ∙ head,
        Level-kept ht1 j (linked ht1 j (update j) n nx)
            (λ w. (link_node e h n update heap).next w j) (before ++ n ∷ after)
            (λ w m. now j below w) rest,
      )
    where
      now :
          (j : ℕ)
          → ltb j h ≡ true
          → (w : ℕ)
          → (link_node e h n update heap).next w j
            ≡ linked (heights (link_node e h n update heap)) j (update j) n (λ x. heap.next x j) w
      now j below w =
          unfold link_node in link_levels-linked h update n heap.next w j ∙ rw below refl

  -- A level above the new node.
  above_node :
      (j : ℕ)
      → ltb j h ≡ false
      → Level (heights heap) j (λ v. heap.next v j) (before ++ after)
      → (first_at (heights (link_node e h n update heap)) j (before ++ n ∷ after)
          ≡ first_at (heights heap) j (before ++ after))
        × ((w : ℕ) → (link_node e h n update heap).next w j ≡ heap.next w j)
        × Level
            (heights (link_node e h n update heap))
            j
            (λ v. (link_node e h n update heap).next v j)
            (before ++ n ∷ after)
  above_node j above v =
      let ht1 = heights (link_node e h n update heap) in
      let nx : ℕ → Option ℕ = λ w. heap.next w j in
      let short : ltb j (ht1 n) ≡ false = ap (λ (s : SkipNode). ltb j s.height) own ∙ above in
      let v1 =
        Level-agree (heights heap) ht1 j nx (before ++ after) (λ w m. kept_height w (in_list w m))
          v in
      (
        first_at-short ht1 j before after n short
            ∙ first_at-agree (heights heap) ht1 j (before ++ after)
                (λ w m. kept_height w (in_list w m)),
        now j above,
        Level-kept ht1 j nx (λ w. (link_node e h n update heap).next w j) (before ++ n ∷ after)
            (λ w m. now j above w) (Level-short ht1 j before after n nx short v1),
      )
    where
      now :
          (j : ℕ)
          → ltb j h ≡ false
          → (w : ℕ) → (link_node e h n update heap).next w j ≡ heap.next w j
      now j above w =
          unfold link_node in link_levels-linked h update n heap.next w j ∙ rw above refl

  -- The linking loop, on a heap whose update array is right.
  pub link_node-Shows :
      (ns : List SkipNode)
      → h ≤ max_height
      → ((j : ℕ) → j < max_height → update j ≡ last_at (heights heap) j 0 before)
      → Shows heap (before ++ after) ns
      → Shows
          (link_node e h n update heap)
          (before ++ n ∷ after)
          (nodes_at heap.node before ++ new_node e h ∷ nodes_at heap.node after)
  unfolding contains
  link_node-Shows ns tall ups v = record {
    contents =
        let heap1 = link_node e h n update heap in
        let one = nodes_at-agree heap.node heap1.node before (λ w m. kept w (in_before w m)) in
        let two = nodes_at-agree heap.node heap1.node after (λ w m. kept w (in_after w m)) in
        nodes_at-append heap1.node before (n ∷ after) ∙ cc (one, two, own);
    distinct = Distinct-mid (0 ∷ before) after n v.distinct out;
    head_height = kept_height 0 refl ∙ v.head_height;
    head_pointers = λ j b. elim (Bool-cases (ltb j h)) [
      | inl below ↦
          (reached_by_node j below v.distinct (ups j b) (v.head_pointers j b) (v.levels j)).0
      | inr above ↦ let a = above_node j above (v.levels j) in a.1 0 ∙ v.head_pointers j b ∙ sym a.0
    ];
    levels = λ j. elim (Bool-cases (ltb j h)) [
      | inl below ↦
          let b : j < max_height = ground (arith, below, tall) in
          (reached_by_node j below v.distinct (ups j b) (v.head_pointers j b) (v.levels j)).1
      | inr above ↦ (above_node j above (v.levels j)).2
    ];
  }
