-- ===== src/SsTable.antt =====
-- storage/sstable.go: the sorted tables on the disk. A table's file is its bytes; `seq` is the number
-- in its name, and stands for the path.
pub mod Format
pub mod Opening
pub mod RoundTrip
pub mod Reading
pub mod Finishing
use distkv.Prelude.{
  ℕ, zero, suc, ◌+◌, ◌-◌, ◌%◌, ◌^◌, Bool, true, false, Option, none, some, List, [], ◌∷◌, ◌++◌, ltb,
  leb, ◌==◌, ◌&&◌, ◌||◌, not, if◌then◌else◌, length, take, drop,
}
use distkv.Codec.{Bytes, put_u32, get_u32, put_u64, get_u64, checksum}
use distkv.Text.{same, less}
use distkv.Wal.{Outcome, done, failed, panic, unfinished, ◌>>=◌}
use distkv.KeyMap.{KvEntry}

abbrev pub sst_magic : ℕ
sst_magic = 0x5354414B564B5631

abbrev pub index_every : ℕ
index_every = 16

pub record IndexEntry : Type 0 where
  pub key : Bytes
  pub offset : ℕ

pub record SsTable : Type 0 where
  pub seq : ℕ
  pub file : Bytes
  pub index : List IndexEntry
  pub min_key : Bytes
  pub max_key : Bytes

-- One record of the data block.
unfoldable pub encode_record : KvEntry → Bytes
encode_record e =
    (if e.tombstone then 1 else 0) ∷ put_u32 (length e.key)
    ++ (put_u32 (length e.value) ++ (e.key ++ e.value))

unfoldable pub records : List KvEntry → Bytes
unfolding encode_record
records [] = []
records (e ∷ es) = encode_record e ++ records es

-- The index that the loop of writeSSTable collects, from entry number `i` at offset `off` on.
unfoldable pub build_index : ℕ → ℕ → List KvEntry → List IndexEntry
build_index i off [] = []
build_index i off (e ∷ es) =
    let rest = build_index (i + 1) (off + (9 + length e.key + length e.value)) es in
    if i % index_every == 0 then record { key = e.key; offset = off } ∷ rest else rest

unfoldable pub encode_index : List IndexEntry → Bytes
encode_index [] = []
encode_index (x ∷ xs) = put_u32 (length x.key) ++ (x.key ++ (put_u64 x.offset ++ encode_index xs))

unfoldable pub footer : ℕ → ℕ → ℕ → Bytes
footer index_off count crc =
    put_u64 index_off ++ (put_u32 count ++ (put_u32 crc ++ put_u64 sst_magic))

-- The file that writeSSTable leaves when every write succeeds.
unfoldable pub table_file : List KvEntry → Bytes
unfolding records build_index encode_index footer
table_file entries =
    let block = encode_index (build_index 0 0 entries) in
    records entries
    ++ (block
        ++ footer (length (records entries)) (length (build_index 0 0 entries)) (checksum block))

-- The next record of a block: none where no whole header is left, and a failure where a key or a
-- value is cut short.
unfoldable pub next_entry : Bytes → Outcome (Option (KvEntry × Bytes))
next_entry [] = done none
next_entry (flags ∷ r) = if ltb (length r) 8 then done none else elim (get_u32 r) [
  | none ↦ panic
  | some klen ↦ elim (get_u32 (drop 4 r)) [
    | none ↦ panic
    | some vlen ↦
        let body = drop 4 (drop 4 r) in
        if ltb (length body) klen
        then failed
        else if ltb (length (drop klen body)) vlen
        then failed
        else done (
            some (
              record {
                key = take klen body;
                value = take vlen (drop klen body);
                tombstone = flags % 2 == 1;
              },
              drop vlen (drop klen body),
            ))
  ]
]

-- scanBlock with the callback `fn` as a function on the state that it changes, which says whether
-- to stop. A record takes nine bytes at least, so the length of the block is fuel enough.
module _ {ℓ} {S : Type ℓ} (fn : S → KvEntry → S × Bool) where
  unfoldable pub scan_loop : ℕ → Bytes → Bytes → S → Outcome (Bytes × S)
  unfolding next_entry
  scan_loop zero buf last s = unfinished
  scan_loop (suc fuel) buf last s = next_entry buf >>= λ r. elim r [
    | none ↦ done (last, s)
    | some (e, rest) ↦ elim (fn s e).1 [
      | true ↦ done (e.key, (fn s e).0)
      | false ↦ scan_loop fuel rest e.key (fn s e).0
    ]
  ]

  unfoldable pub scan_block : Bytes → ℕ → ℕ → S → Outcome (Bytes × S)
  unfolding scan_loop
  scan_block file off limit s =
      let block = take (limit - off) (drop off file) in scan_loop (length block + 1) block [] s

-- The loop over the index block; a slice out of bounds panics.
unfoldable pub parse_index : ℕ → Bytes → Outcome (List IndexEntry)
parse_index zero buf = done []
parse_index (suc n) buf = elim (get_u32 buf) [
  | none ↦ panic
  | some klen ↦
      let body = drop 4 buf in
      if ltb (length body) klen then panic else elim (get_u64 (drop klen body)) [
        | none ↦ panic
        | some off ↦ parse_index n (drop 8 (drop klen body)) >>= λ rest.
            done (record { key = take klen body; offset = off } ∷ rest)
      ]
]

abbrev pub last_entry : IndexEntry → List IndexEntry → IndexEntry
last_entry x [] = x
last_entry x (y ∷ ys) = last_entry y ys

-- The last part of openSSTable: the least and the greatest key.
unfoldable pub with_bounds : ℕ → Bytes → ℕ → List IndexEntry → Outcome SsTable
unfolding scan_block
with_bounds seq file index_off [] =
    done (record { seq = seq; file = file; index = []; min_key = []; max_key = [] })
with_bounds seq file index_off (x ∷ xs) =
    scan_block {S = Unit {0}} (λ s e. (s, false)) file (last_entry x xs).offset index_off tt
    >>= λ r.
        done (record { seq = seq; file = file; index = x ∷ xs; min_key = x.key; max_key = r.0 })

-- The runtime's limit on the size of one slice.
abbrev pub max_alloc : ℕ
max_alloc = 2 ^ 48

-- openSSTable. A read of bytes that are there does not fail. An offset with its top bit set is
-- negative: reading there fails, if the slice that is made for it is not too large.
unfoldable pub open_ss_table : ℕ → Bytes → Outcome SsTable
unfolding parse_index with_bounds
open_ss_table seq file =
    let size = length file in
    let foot = drop (size - 24) file in
    if ltb size 24 then failed else elim (get_u64 (drop 16 foot)) [
      | none ↦ panic
      | some magic ↦ elim (get_u64 foot) [
        | none ↦ panic
        | some index_off ↦ elim (get_u32 (drop 8 foot)) [
          | none ↦ panic
          | some count ↦ elim (get_u32 (drop 12 foot)) [
            | none ↦ panic
            | some want_crc ↦
                let block = take (size - 24 - index_off) (drop index_off file) in
                if not (magic == sst_magic)
                then failed
                else if leb (2 ^ 63) index_off
                then (if ltb (size - 24 + (2 ^ 64 - index_off)) max_alloc then failed else panic)
                else if ltb (size - 24) index_off
                then panic
                else if not (checksum block == want_crc)
                then failed
                else parse_index count block >>= λ index. with_bounds seq file index_off index
          ]
        ]
      ]
    ]

unfoldable pub index_limit : SsTable → Option ℕ
index_limit t = get_u64 (drop (length t.file - 24) t.file)

-- sort.Search for the first index entry above the key, less one.
unfoldable pub last_at_most : Bytes → Option IndexEntry → List IndexEntry → Option IndexEntry
last_at_most key acc [] = acc
last_at_most key acc (x ∷ xs) =
    let rest = last_at_most key (some x) xs in if less key x.key then acc else rest

-- The callback of get: a record with the key is found, and one above it ends the scan.
unfoldable pub seek : Bytes → Option KvEntry → KvEntry → Option KvEntry × Bool
seek key found e = if same e.key key then (some e, true) else (found, less key e.key)

unfoldable pub get : Bytes → SsTable → Outcome (Option KvEntry)
unfolding last_at_most index_limit seek scan_block
get key t =
    if (length t.index == 0) || (less key t.min_key || less t.max_key key)
    then done none
    else elim (last_at_most key none t.index) [
      | none ↦ done none
      | some x ↦ elim (index_limit t) [
        | none ↦ failed
        | some limit ↦ scan_block (seek key) t.file x.offset limit none >>= λ r. done r.1
      ]
    ]

unfoldable pub all : SsTable → Outcome (List KvEntry)
unfolding index_limit scan_block
all t = elim (index_limit t) [
  | none ↦ failed
  | some limit ↦
      scan_block {S = List KvEntry} (λ out e. (out ++ e ∷ [], false)) t.file 0 limit [] >>= λ r.
      done r.1
]
