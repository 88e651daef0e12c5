-- ===== src/Memtable/Refinement.antt =====
-- The skip list of storage/memtable.go as a map from keys to entries.
use distkv.Prelude.{
  ℕ, suc, ◌+◌, ◌-◌, ◌≤◌, ◌<◌, ◌≡◌, refl, sym, ap, ◌∙◌, Bool, true, false, Option, none, some, List,
  [], ◌∷◌, arith, if◌then◌else◌, Bool-cases, inl, inr, length, take, length-append, length-take,
}
use mathlib.Core.Path.{subst}
use distkv.Codec.{Bytes}
use distkv.Text.{same, less, eq_of_same, less_trans, less_of_not, less_not_same}
use distkv.KeyMap.{KvEntry, find, upsert, Above, IsSorted}
use distkv.KeyMap.Laws.{find-Above}
use distkv.Memtable.{SkipNode, Memtable, place, put, hit, get, entries_of, entries, new_memtable}
use distkv.Memtable.Search.{NodesAbove, IsSkipList, walk, search_down-walk}

pub record IsMemtable (m : Memtable) : Type 0 where
  pub skip_list : IsSkipList m.nodes
  pub counted : m.count ≡ length m.nodes

-- A node linked into a sorted list, by recursion on it.
unfoldable pub link : KvEntry → ℕ → List SkipNode → List SkipNode
link e h [] = record { key = e.key; value = e.value; tombstone = e.tombstone; height = h } ∷ []
link e h (n ∷ ns) =
    let rest = link e h ns in
    if less n.key e.key
    then n ∷ rest
    else if same n.key e.key
    then record n { value = e.value; tombstone = e.tombstone } ∷ ns
    else record { key = e.key; value = e.value; tombstone = e.tombstone; height = h } ∷ n ∷ ns

length-walk : (key : Bytes) (ns : List SkipNode) → length (walk key ns) ≤ length ns
unfolding walk
length-walk key [] = omega arith
length-walk key (n ∷ ns) = ground (arith, length-walk key ns)

abbrev before : Bytes → List SkipNode → List SkipNode
before key ns = take (length ns - length (walk key ns)) ns

before_cons :
    (key : Bytes) (n : SkipNode) (ns : List SkipNode)
    → less n.key key ≡ true
    → before key (n ∷ ns) ≡ n ∷ before key ns
unfolding walk
before_cons key n ns h =
    let e : suc (length ns) - length (walk key ns) ≡ suc (length ns - length (walk key ns)) =
      omega (arith, length-walk key ns) in
    rw h (rw e refl)

before_stop :
    (key : Bytes) (n : SkipNode) (ns : List SkipNode)
    → less n.key key ≡ false
    → before key (n ∷ ns) ≡ []
unfolding walk
before_stop key n ns h =
    let e : suc (length ns) - suc (length ns) ≡ 0 = omega arith in rw h (rw e refl)

place-nodes_before :
    (e : KvEntry) (h : ℕ) (n : SkipNode) (pre behind : List SkipNode) (m : Memtable)
    → (place e h (n ∷ pre) behind m).nodes ≡ n ∷ (place e h pre behind m).nodes
unfolding place
place-nodes_before e h n pre [] m = refl
place-nodes_before e h n pre (b ∷ bs) m = ground arith

place-link :
    (e : KvEntry) (h : ℕ) (ns : List SkipNode) (m : Memtable)
    → (place e h (before e.key ns) (walk e.key ns) m).nodes ≡ link e h ns
unfolding place link walk
place-link e h [] m = refl
place-link e h (n ∷ ns) m = elim (Bool-cases (less n.key e.key)) [
  | inl below ↦ rw (before_cons e.key n ns below) (
      rw below (
        place-nodes_before e h n (before e.key ns) (walk e.key ns) m
        ∙ ap (λ l. n ∷ l) (place-link e h ns m)))
  | inr above ↦ rw (before_stop e.key n ns above) (rw above (ground arith))
]

Above-entries_of : (k : Bytes) (ns : List SkipNode) → NodesAbove k ns → Above k (entries_of ns)
unfolding entries_of
Above-entries_of k [] a = tt
Above-entries_of k (n ∷ ns) a = (a.0, Above-entries_of k ns a.1)

entries_of-IsSorted : (ns : List SkipNode) → IsSkipList ns → IsSorted (entries_of ns)
unfolding entries_of
entries_of-IsSorted [] s = tt
entries_of-IsSorted (n ∷ ns) s = (Above-entries_of n.key ns s.0, entries_of-IsSorted ns s.2)

link-entries_of :
    (e : KvEntry) (h : ℕ) (ns : List SkipNode) → entries_of (link e h ns) ≡ upsert e (entries_of ns)
unfolding link entries_of upsert
link-entries_of e h [] = refl
link-entries_of e h (n ∷ ns) = ground (arith, link-entries_of e h ns, eq_of_same n.key e.key)

NodesAbove-trans :
    (k l : Bytes) (ns : List SkipNode) → less k l ≡ true → NodesAbove l ns → NodesAbove k ns
NodesAbove-trans k l [] h a = tt
NodesAbove-trans k l (n ∷ ns) h a = (less_trans k l n.key h a.0, NodesAbove-trans k l ns h a.1)

NodesAbove-link :
    (k : Bytes) (e : KvEntry) (h : ℕ) (ns : List SkipNode)
    → less k e.key ≡ true
    → NodesAbove k ns
    → NodesAbove k (link e h ns)
unfolding link
NodesAbove-link k e h [] b a = (b, tt)
NodesAbove-link k e h (n ∷ ns) b a = ground (arith, NodesAbove-link k e h ns)

link-IsSkipList :
    (e : KvEntry) (h : ℕ) (ns : List SkipNode) → 0 < h → IsSkipList ns → IsSkipList (link e h ns)
unfolding link
link-IsSkipList e h [] p s = (tt, p, tt)
link-IsSkipList e h (n ∷ ns) p s = elim (Bool-cases (less n.key e.key)) [
  | inl low ↦ rw low (NodesAbove-link n.key e h ns low s.0, s.1, link-IsSkipList e h ns p s.2)
  | inr high ↦ elim (Bool-cases (same n.key e.key)) [
    | inl hit ↦ rw (high, hit) s
    | inr miss ↦
        let b : less e.key n.key ≡ true = less_of_not n.key e.key high miss in
        rw (high, miss) ((b, NodesAbove-trans e.key n.key ns b s.0), p, s)
  ]
]

pub put-link :
    (e : KvEntry) (h : ℕ) (m : Memtable) → IsMemtable m → (put e h m).nodes ≡ link e h m.nodes
unfolding put
put-link e h m v = rw (search_down-walk 11 e.key m.nodes v.skip_list) (place-link e h m.nodes m)

length-place :
    (e : KvEntry) (h : ℕ) (pre behind : List SkipNode) (m : Memtable)
    → m.count ≡ length pre + length behind
    → (place e h pre behind m).count ≡ length (place e h pre behind m).nodes
unfolding place
length-place e h pre [] m c =
    let node : SkipNode = record {
      key = e.key;
      value = e.value;
      tombstone = e.tombstone;
      height = h;
    } in
    omega (arith, length-append pre (node ∷ []))
length-place e h pre (n ∷ ns) m c =
    let node : SkipNode = record {
      key = e.key;
      value = e.value;
      tombstone = e.tombstone;
      height = h;
    } in
    let node' : SkipNode = record n { value = e.value; tombstone = e.tombstone } in
    ground (arith, length-append pre (node ∷ n ∷ ns), length-append pre (node' ∷ ns))

length-before :
    (key : Bytes) (ns : List SkipNode) → length (before key ns) + length (walk key ns) ≡ length ns
length-before key ns =
    omega (arith, length-walk key ns, length-take (length ns - length (walk key ns)) ns)

-- A put of a node with one level at least keeps the skip list in order, every node on level 0, and
-- its count, and changes the map from keys to entries at its key alone; the entries that the list
-- is read out to are sorted.
pub put_lem :
    (e : KvEntry) (h : ℕ) (m : Memtable)
    → IsMemtable m
    → 0 < h
    → IsMemtable (put e h m)
      × (entries (put e h m) ≡ upsert e (entries m))
      × IsSorted (entries (put e h m))
unfolding entries
put_lem e h m v p =
    let nodes : (put e h m).nodes ≡ link e h m.nodes = put-link e h m v in
    let list : IsSkipList (put e h m).nodes =
      subst IsSkipList (sym nodes) (link-IsSkipList e h m.nodes p v.skip_list) in
    (
      record { skip_list = list; counted = counted },
      ap entries_of nodes ∙ link-entries_of e h m.nodes,
      entries_of-IsSorted (put e h m).nodes list,
    )
  where
    counted : (put e h m).count ≡ length (put e h m).nodes
    counted =
        unfold put in
        rw (search_down-walk 11 e.key m.nodes v.skip_list) (
          length-place e h (before e.key m.nodes) (walk e.key m.nodes) m
            (v.counted ∙ sym (length-before e.key m.nodes)))

abbrev pub found : Option KvEntry → Option (Bytes × Bool)
found none = none
found (some e) = some (e.value, e.tombstone)

hit-walk :
    (key : Bytes) (ns : List SkipNode)
    → IsSkipList ns
    → hit key (walk key ns) ≡ found (find key (entries_of ns))
unfolding hit walk entries_of find
hit-walk key [] s = refl
hit-walk key (n ∷ ns) s = ground (
  arith,
  hit-walk key ns s.2,
  less_not_same n.key key,
  less_of_not n.key key,
  find-Above key (entries_of ns),
  Above-entries_of key ns,
  NodesAbove-trans key n.key ns,
)

-- A get answers with the entry of the key.
pub get-find :
    (key : Bytes) (m : Memtable) → IsMemtable m → get key m ≡ found (find key (entries m))
unfolding get entries
get-find key m v =
    rw (search_down-walk 11 key m.nodes v.skip_list) (hit-walk key m.nodes v.skip_list)

pub new_memtable-IsMemtable : IsMemtable new_memtable
unfolding new_memtable
new_memtable-IsMemtable = record { skip_list = tt; counted = refl }

pub entries-IsSorted : (m : Memtable) → IsMemtable m → IsSorted (entries m)
unfolding entries
entries-IsSorted m v = entries_of-IsSorted m.nodes v.skip_list
