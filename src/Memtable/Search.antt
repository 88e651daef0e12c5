-- ===== src/Memtable/Search.antt =====
-- The search through the levels of storage/memtable.go against a plain walk along the list.
use distkv.Prelude.{
  ℕ, zero, suc, ◌+◌, ◌≤◌, ◌<◌, ◌≡◌, refl, sym, ◌∙◌, true, List, [], ◌∷◌, ◌++◌, arith, ltb,
  if◌then◌else◌, Bool-cases, inl, inr, append_assoc,
}
use mathlib.Core.Path.{subst}
use distkv.Codec.{Bytes}
use distkv.Text.{less, less_trans}
use distkv.Memtable.{SkipNode, max_height, climb, random_height, advance, search_down}

climb_bounds :
    (h : ℕ) (draws : List ℕ) → h ≤ max_height → (h ≤ climb h draws) × (climb h draws ≤ max_height)
unfolding climb
climb_bounds h [] p = omega arith
climb_bounds h (draw ∷ draws) p = ground (arith, climb_bounds (h + 1) draws)

-- The number of levels of a new node lies between 1 and maxHeight, whatever is drawn.
pub random_height_bounds :
    (draws : List ℕ) → (1 ≤ random_height draws) × (random_height draws ≤ max_height)
unfolding random_height
random_height_bounds draws = climb_bounds 1 draws (omega arith)

abbrev pub NodesAbove : Bytes → List SkipNode → Type 0
NodesAbove k [] = Unit
NodesAbove k (n ∷ ns) = (less k n.key ≡ true) × NodesAbove k ns

-- A skip list: keys in ascending order, and every node on level 0.
abbrev pub IsSkipList : List SkipNode → Type 0
IsSkipList [] = Unit
IsSkipList (n ∷ ns) = NodesAbove n.key ns × (0 < n.height) × IsSkipList ns

-- The plain walk: the part behind the last key below `key`.
unfoldable pub walk : Bytes → List SkipNode → List SkipNode
walk key [] = []
walk key (n ∷ ns) = let rest = walk key ns in if less n.key key then rest else n ∷ ns

-- The part of a list behind some of its first nodes, all below `key`.
data Behind (key : Bytes) : List SkipNode → List SkipNode → Type 0 where
  whole : (ns : List SkipNode) → Behind key ns ns
  step :
      (n : SkipNode) (ns rest : List SkipNode)
      → less n.key key ≡ true
      → Behind key ns rest
      → Behind key (n ∷ ns) rest

Behind-trans :
    {key : Bytes} (a b c : List SkipNode) → Behind key a b → Behind key b c → Behind key a c
Behind-trans a b c (whole _) q = q
Behind-trans a b c (step n ns _ h p) q = step n ns c h (Behind-trans ns b c p q)

walk-Behind : {key : Bytes} (a b : List SkipNode) → Behind key a b → walk key a ≡ walk key b
unfolding walk
walk-Behind a b (whole _) = refl
walk-Behind a b (step n ns _ h p) = ground (arith, walk-Behind ns b p)

Behind-IsSkipList :
    {key : Bytes} (a b : List SkipNode) → Behind key a b → IsSkipList a → IsSkipList b
Behind-IsSkipList a b (whole _) s = s
Behind-IsSkipList a b (step n ns _ h p) s = Behind-IsSkipList ns b p s.2

NodesAbove-mid :
    (k : Bytes) (n : SkipNode) (pre ns : List SkipNode)
    → NodesAbove k (pre ++ n ∷ ns)
    → less k n.key ≡ true
NodesAbove-mid k n [] ns a = a.0
NodesAbove-mid k n (p ∷ pre) ns a = NodesAbove-mid k n pre ns a.1

-- A node below the key has only nodes below the key before it.
passed :
    (key : Bytes) (n : SkipNode) (pre ns : List SkipNode)
    → IsSkipList (pre ++ n ∷ ns)
    → less n.key key ≡ true
    → Behind key (pre ++ n ∷ ns) ns
passed key n [] ns s h = step n ns ns h (whole ns)
passed key n (p ∷ pre) ns s h =
    step p (pre ++ n ∷ ns) ns (less_trans p.key n.key key (NodesAbove-mid p.key n pre ns s.0) h)
      (passed key n pre ns s.2 h)

advance-Behind :
    (level : ℕ) (key : Bytes) (pre ns : List SkipNode)
    → IsSkipList (pre ++ ns)
    → Behind key (pre ++ ns) (advance level key (pre ++ ns) ns)
unfolding advance
advance-Behind level key pre [] s = whole (pre ++ [])
advance-Behind level key pre (n ∷ ns) s = elim (Bool-cases (ltb level n.height)) [
  | inl tall ↦ elim (Bool-cases (less n.key key)) [
    | inl below ↦
        let p : Behind key (pre ++ n ∷ ns) ns = passed key n pre ns s below in
        rw (tall, below)
          (Behind-trans (pre ++ n ∷ ns) ns (advance level key ns ns) p
            (advance-Behind level key [] ns (Behind-IsSkipList (pre ++ n ∷ ns) ns p s)))
    | inr above ↦ rw (tall, above) (whole (pre ++ n ∷ ns))
  ]
  | inr short ↦
      let e : (pre ++ n ∷ []) ++ ns ≡ pre ++ n ∷ ns = append_assoc pre (n ∷ []) ns in
      rw short (
        subst (λ l. Behind key l (advance level key l ns)) e
          (advance-Behind level key (pre ++ n ∷ []) ns (subst IsSkipList (sym e) s)))
]

-- On level 0 the scan is the plain walk.
advance_zero :
    (key : Bytes) (ns : List SkipNode) → IsSkipList ns → advance 0 key ns ns ≡ walk key ns
unfolding advance walk
advance_zero key [] s = refl
advance_zero key (n ∷ ns) s = ground (arith, advance_zero key ns s.2)

-- The search through the levels ends where a plain walk along all the nodes does, on a skip list
-- and from any number of levels, level 0 among them: it skips nodes, and never one too many.
pub search_down-walk :
    (level : ℕ) (key : Bytes) (ns : List SkipNode)
    → IsSkipList ns
    → search_down (suc level) key ns ≡ walk key ns
unfolding search_down
search_down-walk zero key ns s = advance_zero key ns s
search_down-walk (suc level) key ns s =
    let b : Behind key ns (advance (suc level) key ns ns) =
      advance-Behind (suc level) key [] ns s in
    search_down-walk level key (advance (suc level) key ns ns) (Behind-IsSkipList ns _ b s)
    ∙ sym (walk-Behind ns (advance (suc level) key ns ns) b)
