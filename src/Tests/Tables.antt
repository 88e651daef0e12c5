-- ===== src/Tests/Tables.antt =====
-- A skip list, a table and an engine with two entries.
use distkv.Prelude.{
  ℕ, ◌+◌, ◌≡◌, ◌≢◌, refl, true, false, none, some, List, [], ◌∷◌, arith, length, ltb, ◌==◌,
  if◌then◌else◌,
}
use distkv.Text.{less}
use distkv.Codec.{put_u32}
use distkv.Wal.{done, unfinished}
use distkv.KeyMap.{KvEntry, find, upsert, IsSorted}
use distkv.Memtable.{
  Memtable, SkipNode, new_memtable, random_height, max_height, search_down, entries,
}
use distkv.Memtable
use distkv.Memtable.Search.{search_down-walk, walk, IsSkipList}
use distkv.Memtable.Refinement.{IsMemtable}
use distkv.Memtable.Pointers.{SkipHeap, put_in_heap}
use distkv.Memtable.Linking.{Shows}
use distkv.Memtable.HeapPut.{put_in_heap-put}
use distkv.IdSet.{contains}
use distkv.SsTable.{
  SsTable, open_ss_table, table_file, records, build_index, encode_record, scan_block,
}
use distkv.SsTable
use distkv.SsTable.Format.{EntryFits}
use distkv.SsTable.Opening.{TableFits, table_of}
use distkv.SsTable.RoundTrip.{open_ss_table-table_file}
use distkv.SsTable.Reading.{get-table_of}
use distkv.SsTable.Finishing.{scan_block-ends}

abbrev pub apple : KvEntry
apple = record { key = 97 ∷ []; value = 1 ∷ 2 ∷ []; tombstone = false }

abbrev pub pear : KvEntry
pear = record { key = 112 ∷ []; value = []; tombstone = true }

-- The node of one key at address 1, with two levels.
abbrev first_node : SkipNode
first_node = record { key = 97 ∷ []; value = 1 ∷ []; tombstone = false; height = 2 }

abbrev one_node : Memtable
one_node = record { nodes = first_node ∷ []; size = 34; count = 1 }

abbrev one_heap : SkipHeap
one_heap = record {
  node = λ v.
      if v == 1
      then first_node
      else record { key = []; value = []; tombstone = false; height = 12 };
  next = λ v j. if v == 0 then (if ltb j 2 then some 1 else none) else none;
}

one_heap-Shows : Shows one_heap (1 ∷ []) one_node.nodes
one_heap-Shows = record {
  contents = refl;
  distinct = (unfold contains in refl, (unfold contains in refl, tt));
  head_height = refl;
  head_pointers = λ j b. refl;
  levels = λ j. (λ t. refl, tt);
}

one_node-IsMemtable : IsMemtable one_node
one_node-IsMemtable = record { skip_list = (tt, omega arith, tt); counted = refl }

put_in_heap-put_example :
    (ids1 : List ℕ) × Shows
      (put_in_heap 2 pear 3 2 one_heap)
      ids1
      (Memtable.put pear 3 one_node).nodes
    × IsMemtable (Memtable.put pear 3 one_node)
    × (entries (Memtable.put pear 3 one_node) ≡ upsert pear (entries one_node))
put_in_heap-put_example =
    put_in_heap-put pear 3 2 2 one_heap (1 ∷ []) one_node one_node-IsMemtable one_heap-Shows
      (omega arith) (omega arith) (unfold contains in refl) (omega arith)

abbrev two_nodes : List SkipNode
two_nodes =
    record { key = 97 ∷ []; value = 1 ∷ []; tombstone = false; height = 1 }
    ∷ record { key = 112 ∷ []; value = []; tombstone = true; height = 2 }
    ∷ []

two_nodes-IsSkipList : IsSkipList two_nodes
unfolding less
two_nodes-IsSkipList = ((refl, tt), omega arith, (tt, omega arith, tt))

search_down-walk_example : search_down 2 (112 ∷ []) two_nodes ≡ walk (112 ∷ []) two_nodes
search_down-walk_example = search_down-walk 1 (112 ∷ []) two_nodes two_nodes-IsSkipList

abbrev pub two_entries : List KvEntry
two_entries = apple ∷ pear ∷ []

two_entries-IsSorted : IsSorted two_entries
unfolding less
two_entries-IsSorted = ((refl, tt), (tt, tt))

abbrev pub fit : EntryFits apple × (EntryFits pear × Unit {0})
fit = (
  record { key_fits = omega arith; value_fits = omega arith },
  (record { key_fits = omega arith; value_fits = omega arith }, tt),
)

two_entries-records : length (records two_entries) ≡ 22
unfolding records encode_record put_u32
two_entries-records = refl

two_entries-build_index : length (build_index 0 0 two_entries) ≡ 1
unfolding build_index
two_entries-build_index = refl

two_entries-TableFits : TableFits two_entries
two_entries-TableFits = record {
  entries_fit = fit;
  file_fits = omega (arith, two_entries-records);
  count_fits = omega (arith, two_entries-build_index);
}

open_ss_table-table_file_example :
    open_ss_table 3 (table_file two_entries) ≡ done (table_of 3 two_entries)
open_ss_table-table_file_example = open_ss_table-table_file 3 two_entries two_entries-TableFits

get-table_of_example :
    SsTable.get (112 ∷ []) (table_of 3 two_entries) ≡ done (find (112 ∷ []) two_entries)
get-table_of_example =
    get-table_of 3 (112 ∷ []) two_entries two_entries-IsSorted two_entries-TableFits

scan_block-ends_example :
    scan_block {S = ℕ} (λ n e. (n + 1, false)) (1 ∷ 2 ∷ 3 ∷ []) 0 3 0 ≢ unfinished
scan_block-ends_example = scan_block-ends (λ n e. (n + 1, false)) (1 ∷ 2 ∷ 3 ∷ []) 0 3 0
