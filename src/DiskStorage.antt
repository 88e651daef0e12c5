-- ===== src/DiskStorage.antt =====
-- raft/storage.go: the hard state, the log and the snapshots of a node on its disk.
pub mod Restart
pub mod Backed
pub mod Appending
pub mod Contiguous
pub mod RecordReplay
pub mod Keeping
pub mod Durability
pub mod Compaction
use distkv.Prelude.{
  ℕ, zero, suc, ◌+◌, ◌-◌, ◌≤◌, Bool, true, false, Option, none, some, List, [], ◌∷◌, ◌++◌, ltb, leb,
  ◌==◌, ◌&&◌, ◌||◌, if◌then◌else◌, length, drop, get_elem?, u64, ◌≡◌, not,
}
use distkv.Codec.{Bytes, put_u64, get_u64}
use distkv.Wal.{Wal, open_wal, append, sync, close, Outcome, done, failed, panic, ◌>>=◌, replay_wal}
use distkv.ConfState.{ConfState, new_conf_state}
use distkv.ConfState.Change.{ConfChange, ConfResult, ok, err}
use distkv.ConfState.Change
use distkv.ConfState.Encoding.{encode_conf_state, decode_conf_state}

pub data EntryType : Type 0 where
  entry_normal entry_conf_change : EntryType

pub record Entry : Type 0 where
  pub term : ℕ
  pub index : ℕ
  pub content : Bytes
  pub kind : EntryType
  pub conf_change : Option ConfChange

abbrev pub no_entry : Entry
no_entry = record { term = 0; index = 0; content = []; kind = entry_normal; conf_change = none }

-- The protobuf library's Marshal and Unmarshal of an Entry, which the source calls: what was
-- marshalled is unmarshalled again.
pub record EntryProto : Type 0 where
  pub marshal : Entry → Bytes
  pub unmarshal : Bytes → Option Entry
  pub unmarshal-marshal : (e : Entry) → unmarshal (marshal e) ≡ some e

-- The log starts at index `snap_index` + 1. The three last fields are the files snapshot.bin,
-- snapshot.meta and snapshot.conf, and the file of `wal` is raft.wal.
pub record DiskStorage : Type 0 where
  pub wal : Wal
  pub term : ℕ
  pub voted_for : ℕ
  pub dirty : Bool
  pub conf : ConfState
  pub log : List Entry
  pub snap_index : ℕ
  pub snap_term : ℕ
  pub snapshot : Bytes
  pub bin_file : Option Bytes
  pub meta_file : Option Bytes
  pub conf_file : Option Bytes

unfoldable pub hard_state_record : ℕ → ℕ → Bytes
hard_state_record term voted_for = 1 ∷ put_u64 term ++ put_u64 voted_for

unfoldable pub truncate_record : ℕ → Bytes
truncate_record from = 3 ∷ put_u64 from

unfoldable pub conf_state_record : ConfState → Bytes
conf_state_record c = 4 ∷ encode_conf_state c

-- encodeEntry: the type byte, the term, the index and the marshalled entry.
unfoldable pub encode_entry : EntryProto → Entry → Bytes
encode_entry proto e = 2 ∷ put_u64 e.term ++ (put_u64 e.index ++ proto.marshal e)

-- decodeEntry, of a record without its type byte. The two words are there, since 16 bytes are.
unfoldable pub decode_entry : EntryProto → Bytes → Entry
decode_entry proto p = if ltb (length p) 16 then no_entry else elim (get_u64 p) [
  | none ↦ no_entry
  | some term ↦ elim (get_u64 (drop 8 p)) [
    | none ↦ no_entry
    | some index ↦ elim (proto.unmarshal (drop 8 (drop 8 p))) [
      | none ↦ record no_entry { term = term; index = index; content = drop 8 (drop 8 p) }
      | some e ↦ record e { term = term; index = index }
    ]
  ]
]

-- `for len(log) > 0 && log[len(log)-1].Index >= from { log = log[:len(log)-1] }`
unfoldable pub truncate : ℕ → List Entry → List Entry
truncate from [] = []
truncate from (e ∷ es) = elim (truncate from es) [
  | [] ↦ if leb from e.index then [] else e ∷ []
  | x ∷ xs ↦ e ∷ x ∷ xs
]

abbrev pub first_index : DiskStorage → ℕ
first_index s = u64 (s.snap_index + 1)

-- The index of the last entry, or of the snapshot.
unfoldable pub last_of : ℕ → List Entry → ℕ
last_of snap_index [] = snap_index
last_of snap_index (e ∷ es) = last_of e.index es

abbrev pub last_index : DiskStorage → ℕ
last_index s = last_of s.snap_index s.log

-- `none` stands for the result `0, false`, and for the panic on a log with a gap, which
-- Contiguous.antt excludes.
unfoldable pub term_at : DiskStorage → ℕ → Option ℕ
term_at s index =
    if index == s.snap_index
    then some s.snap_term
    else if ltb index (first_index s) || ltb (last_index s) index
    then none
    else elim (get_elem? s.log (index - first_index s)) [ none ↦ none | some e ↦ some e.term ]

unfoldable pub entries_from : DiskStorage → ℕ → List Entry
entries_from s lo =
    if ltb lo (first_index s) || ltb (last_index s) lo then [] else drop (lo - first_index s) s.log

-- `none` is the panic of an index out of range.
unfoldable pub entry_at : DiskStorage → ℕ → Option Entry
entry_at s index =
    if ltb index (first_index s) then none else get_elem? s.log (index - first_index s)

-- setHardState. The memory is changed even if the write fails.
unfoldable pub set_hard_state : DiskStorage → ℕ → ℕ → DiskStorage × Bool
unfolding hard_state_record
set_hard_state s term voted_for =
    let (w, written) = append s.wal (hard_state_record term voted_for) in
    let (w', synced) = sync w in
    if written
    then (record s { term = term; voted_for = voted_for; wal = w' }, synced)
    else (record s { term = term; voted_for = voted_for; wal = w }, false)

unfoldable pub set_conf_state : DiskStorage → ConfState → DiskStorage × Bool
unfolding conf_state_record
set_conf_state s c =
    let (w, written) = append s.wal (conf_state_record c) in
    let (w', synced) = sync w in
    if written
    then (record s { conf = c; wal = w' }, synced)
    else (record s { conf = c; wal = w }, false)

-- The loop that writes and appends the entries one by one.
unfoldable pub append_loop : EntryProto → List Entry → DiskStorage → DiskStorage × Bool
unfolding encode_entry
append_loop proto [] s = (record s { dirty = true }, true)
append_loop proto (e ∷ es) s =
    let (w, written) = append s.wal (encode_entry proto e) in
    let rest = append_loop proto es (record s { wal = w; log = s.log ++ e ∷ [] }) in
    if written then rest else (record s { wal = w }, false)

-- The conflicting suffix goes first, in the file and in memory.
unfoldable pub drop_suffix : DiskStorage → ℕ → DiskStorage × Bool
unfolding truncate_record truncate
drop_suffix s first =
    if ltb 0 (length s.log) && leb first (last_index s)
    then (let (w, written) = append s.wal (truncate_record first) in
        if written
        then (record s { wal = w; log = truncate first s.log }, true)
        else (record s { wal = w }, false))
    else (s, true)

unfoldable pub append_entries : EntryProto → DiskStorage → List Entry → DiskStorage × Bool
unfolding drop_suffix append_loop
append_entries proto s [] = (s, true)
append_entries proto s (e ∷ es) =
    let (s', dropped) = drop_suffix s e.index in
    if dropped then append_loop proto (e ∷ es) s' else (s', false)

unfoldable pub sync_log : DiskStorage → DiskStorage × Bool
sync_log s =
    if not s.dirty
    then (s, true)
    else (let (w, synced) = sync s.wal in
        if synced
        then (record s { wal = w; dirty = false }, true)
        else (record s { wal = w }, false))
