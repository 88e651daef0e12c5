-- ===== src/SsTable/Reading.antt =====
-- Looking a key up in a table of storage/sstable.go, through its sparse index.
use distkv.Prelude.{
  ℕ, ◌+◌, ◌≡◌, refl, sym, ap, ◌∙◌, Bool, true, false, Option, none, some, List, [], ◌∷◌, ◌++◌,
  arith, ◌==◌, ◌||◌, length, All, Bool-cases, inl, inr,
}
use mathlib.Core.Path.{subst}
use distkv.Codec.{Bytes}
use distkv.Text.{less, less_trans, less_not_same, eq_of_same}
use distkv.Wal.{done}
use distkv.KeyMap.{KvEntry, find, Above, IsSorted}
use distkv.KeyMap.Laws.{find-Above, Above-trans}
use distkv.SsTable.{
  IndexEntry, SsTable, records, build_index, table_file, scan_block, index_limit, last_at_most,
  seek, get,
}
use distkv.SsTable.Format.{visit}
use distkv.SsTable.Opening.{TableFits, last_key, first_key, table_of, Starts}
use distkv.SsTable.RoundTrip.{scan_from, index-Starts, index_limit-table_of, block, tail}

-- The scan finds the key's entry among sorted ones.
visit-seek :
    (key l : Bytes) (es : List KvEntry) → IsSorted es → (visit (seek key) es l none).1 ≡ find key es
unfolding visit seek find
visit-seek key l [] s = refl
visit-seek key l (e ∷ es) s =
    ground (arith, visit-seek key e.key es s.1, find-Above key es, Above-trans key e.key es)

Above-mid :
    (k : Bytes) (a b : List KvEntry) (x : KvEntry) → Above k (a ++ x ∷ b) → less k x.key ≡ true
Above-mid k [] b x h = h.0
Above-mid k (y ∷ a) b x h = Above-mid k a b x h.1

-- Entries before one whose key is at most the wanted one do not have the wanted key.
find_skip :
    (key : Bytes) (pre post : List KvEntry) (e : KvEntry)
    → IsSorted (pre ++ e ∷ post)
    → less key e.key ≡ false
    → find key (pre ++ e ∷ post) ≡ find key (e ∷ post)
unfolding find
find_skip key [] post e s h = refl
find_skip key (p ∷ pre) post e s h =
    ground
      (arith, find_skip key pre post e s.1 h, Above-mid p.key pre post e s.0, eq_of_same p.key key)

IsSorted-suffix : (a b : List KvEntry) → IsSorted (a ++ b) → IsSorted b
IsSorted-suffix [] b s = s
IsSorted-suffix (x ∷ a) b s = IsSorted-suffix a b s.1

-- A key above the last one is not there.
below_last :
    (key : Bytes) (e : KvEntry) (es : List KvEntry)
    → IsSorted (e ∷ es)
    → less (last_key e.key es) key ≡ true
    → less e.key key ≡ true
unfolding last_key
below_last key e [] s h = h
below_last key e (x ∷ xs) s h = less_trans e.key x.key key s.0.0 (below_last key x xs s.1 h)

find_above_last :
    (key : Bytes) (es : List KvEntry)
    → IsSorted es
    → less (last_key [] es) key ≡ true
    → find key es ≡ none
unfolding find last_key
find_above_last key [] s h = refl
find_above_last key (e ∷ []) s h = ground (arith, less_not_same e.key key)
find_above_last key (e ∷ x ∷ xs) s h =
    ground (
      arith,
      find_above_last key (x ∷ xs) s.1,
      less_not_same e.key key,
      below_last key e (x ∷ xs) s,
    )

find_below_first :
    (key : Bytes) (es : List KvEntry)
    → IsSorted es
    → less key (first_key es) ≡ true
    → find key es ≡ none
unfolding find first_key
find_below_first key [] s h = refl
find_below_first key (e ∷ es) s h = find-Above key (e ∷ es) (h, Above-trans key e.key es h s.0)

-- The entry that the search of the index ends at is an index entry with no greater a key.
last_at_most-All {ℓ} :
    (P : IndexEntry → Type ℓ) (key : Bytes) (x : IndexEntry) (xs : List IndexEntry)
    → P x
    → less key x.key ≡ false
    → All P xs
    → (y : IndexEntry) × (last_at_most key (some x) xs ≡ some y) × P y × (less key y.key ≡ false)
unfolding last_at_most
last_at_most-All P key x [] p h a = (x, refl, p, h)
last_at_most-All P key x (z ∷ zs) p h a = elim (Bool-cases (less key z.key)) [
  | inl above ↦ (x, rw above refl, p, h)
  | inr fits ↦ rw fits (last_at_most-All P key z zs a.0 fits a.1)
]

-- The two ways through get: a key outside the bounds, and a scan from the index's entry.
abbrev outside : Bytes → SsTable → Bool
outside key t = (length t.index == 0) || (less key t.min_key || less t.max_key key)

get_outside : (key : Bytes) (t : SsTable) → outside key t ≡ true → get key t ≡ done none
unfolding get
get_outside key t h = rw h refl

get_inside :
    (key : Bytes) (t : SsTable) (x : IndexEntry) (limit : ℕ) (r : Bytes × Option KvEntry)
    → outside key t ≡ false
    → last_at_most key none t.index ≡ some x
    → index_limit t ≡ some limit
    → scan_block (seek key) t.file x.offset limit none ≡ done r
    → get key t ≡ done r.1
unfolding get
get_inside key t x limit r o s i d = rw (o, get) (rw s (rw i (rw d refl)))

find_from :
    (key : Bytes) (es : List KvEntry) (x : IndexEntry) (st : Starts es x)
    → IsSorted es
    → less key x.key ≡ false
    → (visit (seek key) (st.entry ∷ st.after) [] none).1 ≡ find key es
find_from key es x st s h =
    let sorted : IsSorted (st.before ++ st.entry ∷ st.after) = subst IsSorted st.split s in
    visit-seek key [] (st.entry ∷ st.after) (IsSorted-suffix st.before (st.entry ∷ st.after) sorted)
    ∙ sym (find_skip key st.before st.after st.entry sorted (ap (less key) (sym st.key_eq) ∙ h))
    ∙ ap (find key) (sym st.split)

-- Looking a key up in the table of sorted entries that fit into its format gives the key's entry,
-- and none where it has none: the search of the sparse index and the scan from there on miss
-- nothing.
pub get-table_of :
    (seq : ℕ) (key : Bytes) (es : List KvEntry)
    → IsSorted es
    → TableFits es
    → get key (table_of seq es) ≡ done (find key es)
get-table_of seq key [] s f =
    get_outside key (table_of seq []) (unfold table_of build_index in refl) ∙ (unfold find in refl)
get-table_of seq key (e ∷ es) s f = elim (Bool-cases (outside key (table_of seq (e ∷ es)))) [
  | inl out ↦ get_outside key (table_of seq (e ∷ es)) out ∙ ap done (sym (missing out))
  | inr within ↦
      let (y, searched, st, low) =
        last_at_most-All (Starts (e ∷ es)) key x xs starts.0 (above within) starts.1 in
      get_inside key (table_of seq (e ∷ es)) y (length (records (e ∷ es)))
        (visit (seek key) (st.entry ∷ st.after) [] none) within (first within searched)
        (index_limit-table_of (e ∷ es) f seq) (scanned y st)
      ∙ ap done (find_from key (e ∷ es) y st s low)
]
  where
    x : IndexEntry
    x = record { key = e.key; offset = 0 }

    xs : List IndexEntry
    xs = build_index 1 (0 + (9 + length e.key + length e.value)) es

    starts : All (Starts (e ∷ es)) (x ∷ xs)
    starts = unfold build_index in index-Starts (e ∷ es) f

    missing : outside key (table_of seq (e ∷ es)) ≡ true → find key (e ∷ es) ≡ none
    missing out = elim (Bool-cases (less key e.key)) [
      | inl low ↦ find_below_first key (e ∷ es) s (unfold first_key in low)
      | inr high ↦
          find_above_last key (e ∷ es) s
            (unfold table_of first_key build_index in ground (arith, out))
    ]

    above : outside key (table_of seq (e ∷ es)) ≡ false → less key e.key ≡ false
    above w = unfold table_of first_key build_index in ground (arith, w)

    first :
        {y : IndexEntry}
        → outside key (table_of seq (e ∷ es)) ≡ false
        → last_at_most key (some x) xs ≡ some y
        → last_at_most key none (table_of seq (e ∷ es)).index ≡ some y
    first w h = unfold table_of build_index last_at_most in rw (above w) h

    scanned :
        (y : IndexEntry) (st : Starts (e ∷ es) y)
        → scan_block
            (seek key)
            (table_of seq (e ∷ es)).file
            y.offset
            (length (records (e ∷ es)))
            none
          ≡ done (visit (seek key) (st.entry ∷ st.after) [] none)
    scanned y st =
        unfold table_of table_file in
        scan_from (seek key) (e ∷ es) y (block (e ∷ es) f ++ tail (e ∷ es) f) none f st
