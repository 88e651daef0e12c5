-- ===== src/SsTable/RoundTrip.antt =====
-- storage/sstable.go: a table that is written, opened and read out.
use distkv.Prelude.{
  ℕ, ◌+◌, ◌-◌, ◌^◌, ◌≤◌, ◌<◌, ◌≡◌, refl, sym, ap, ◌∙◌, Bool, true, false, some, List, [], ◌∷◌, ◌++◌,
  arith, ltb, leb, length, take, drop, length-append, take-append, drop-append, append_assoc,
  append-nil, All, ==_refl,
}
use mathlib.Core.Path.{subst}
use distkv.Codec.{
  Bytes, put_u32, get_u32, put_u64, get_u64, checksum, checksum-lt, get_u32-put_u32,
  get_u64-put_u64,
}
use distkv.Wal.{done, failed}
use distkv.KeyMap.{KvEntry}
use distkv.SsTable.{
  IndexEntry, SsTable, sst_magic, records, build_index, encode_index, footer, table_file,
  scan_block, parse_index, last_entry, with_bounds, open_ss_table, index_limit, all,
}
use distkv.SsTable.Format.{EntryFits, visit, scan_block-records}
use distkv.SsTable.Opening.{
  TableFits, last_key, first_key, table_of, Starts, build_index-Starts, IndexFits, Starts-IndexFits,
  All-map, All-suffix, parse_index-encode_index,
}

-- The fields of a footer.
module _ (index_off count crc : ℕ) where
  abbrev foot : Bytes
  foot = footer index_off count crc

  length-footer : length foot ≡ 24
  unfolding footer put_u64 put_u32
  length-footer = refl

  footer_magic : get_u64 (drop 16 foot) ≡ some sst_magic
  unfolding footer put_u64 put_u32 get_u64 get_u32
  footer_magic = refl

  footer_offset : index_off < 2 ^ 64 → get_u64 foot ≡ some index_off
  unfolding footer
  footer_offset h =
      get_u64-put_u64 index_off (put_u32 count ++ (put_u32 crc ++ put_u64 sst_magic)) h

  footer_count : count < 2 ^ 32 → get_u32 (drop 8 foot) ≡ some count
  unfolding footer put_u64 put_u32
  footer_count h = get_u32-put_u32 count (put_u32 crc ++ put_u64 sst_magic) h

  footer_crc : crc < 2 ^ 32 → get_u32 (drop 12 foot) ≡ some crc
  unfolding footer put_u64 put_u32
  footer_crc h = get_u32-put_u32 crc (put_u64 sst_magic) h

open_steps :
    (seq index_off count crc : ℕ) (file : Bytes) (index : List IndexEntry)
    → 24 ≤ length file
    → get_u64 (drop 16 (drop (length file - 24) file)) ≡ some sst_magic
    → get_u64 (drop (length file - 24) file) ≡ some index_off
    → get_u32 (drop 8 (drop (length file - 24) file)) ≡ some count
    → get_u32 (drop 12 (drop (length file - 24) file)) ≡ some crc
    → index_off < 2 ^ 63
    → index_off ≤ length file - 24
    → checksum (take (length file - 24 - index_off) (drop index_off file)) ≡ crc
    → parse_index count (take (length file - 24 - index_off) (drop index_off file)) ≡ done index
    → open_ss_table seq file ≡ with_bounds seq file index_off index
unfolding open_ss_table
open_steps seq index_off count crc file index long magic off cnt sum small within crc_eq parsed =
    let a : ltb (length file) 24 ≡ false = ground arith in
    let b : leb (2 ^ 63) index_off ≡ false = ground arith in
    let c : ltb (length file - 24) index_off ≡ false = ground arith in
    rw (a, magic) (rw off (rw (cnt, sum) (rw (b, c) (rw (crc_eq, ==_refl crc, parsed) refl))))

visit_last :
    (es : List KvEntry) (l : Bytes)
    → visit {S = Unit {0}} (λ s e. (s, false)) es l tt ≡ (last_key l es, tt)
unfolding visit last_key
visit_last [] l = refl
visit_last (e ∷ es) l = visit_last es e.key

visit_all :
    (es out : List KvEntry) (l : Bytes)
    → (visit {S = List KvEntry} (λ out e. (out ++ e ∷ [], false)) es l out).1 ≡ out ++ es
unfolding visit
visit_all [] out l = sym (append-nil out)
visit_all (e ∷ es) out l = visit_all es (out ++ e ∷ []) e.key ∙ append_assoc out (e ∷ []) es

last_entry-All {ℓ} :
    (P : IndexEntry → Type ℓ) (x : IndexEntry) (xs : List IndexEntry)
    → All P (x ∷ xs)
    → P (last_entry x xs)
last_entry-All P x [] a = a.0
last_entry-All P x (y ∷ ys) a = last_entry-All P y ys a.1

pub last_key_mid :
    (l : Bytes) (pre post : List KvEntry) (e : KvEntry)
    → last_key l (pre ++ e ∷ post) ≡ last_key [] (e ∷ post)
unfolding last_key
last_key_mid l [] post e = refl
last_key_mid l (p ∷ pre) post e = last_key_mid p.key pre post e

-- A scan from an indexed offset visits the entries from there on.
pub scan_from {ℓ} :
    {S : Type ℓ} (fn : S → KvEntry → S × Bool) (es : List KvEntry) (x : IndexEntry) (rest : Bytes)
    (s : S)
    → TableFits es
    → (st : Starts es x)
    → scan_block fn (records es ++ rest) x.offset (length (records es)) s
      ≡ done (visit fn (st.entry ∷ st.after) [] s)
scan_from fn es x rest s f st =
    subst
      (λ l.
        scan_block fn (records l ++ rest) x.offset (length (records l)) s
        ≡ done (visit fn (st.entry ∷ st.after) [] s))
      (sym st.split)
      (rw st.offset_eq (
        scan_block-records fn st.before (st.entry ∷ st.after) rest s (
          All-suffix EntryFits st.before (st.entry ∷ st.after)
            (subst (All EntryFits) st.split f.entries_fit))))

-- The callback of `all`.
abbrev collect : List KvEntry → KvEntry → List KvEntry × Bool
collect out e = (out ++ e ∷ [], false)

all_steps :
    (t : SsTable) (limit : ℕ) (r : Bytes × List KvEntry)
    → index_limit t ≡ some limit
    → scan_block collect t.file 0 limit [] ≡ done r
    → all t ≡ done r.1
unfolding all
all_steps t limit r e s = rw (e, all) (rw s refl)

module _ (es : List KvEntry) (f : TableFits es) where
  abbrev pub index : List IndexEntry
  index = build_index 0 0 es

  abbrev pub block : Bytes
  block = encode_index index

  abbrev pub tail : Bytes
  tail = footer (length (records es)) (length index) (checksum block)

  pub index-Starts : All (Starts es) index
  index-Starts = build_index-Starts 0 0 [] es (unfold records in refl)

  length-table_file : length (table_file es) ≡ length (records es) + length block + 24
  unfolding table_file
  length-table_file = omega (
    arith,
    length-append (records es) (block ++ tail),
    length-append block tail,
    length-footer (length (records es)) (length index) (checksum block),
  )

  foot_at : drop (length (table_file es) - 24) (table_file es) ≡ tail
  foot_at =
      let e : length (table_file es) - 24 ≡ length (records es ++ block) =
        omega (arith, length-table_file, length-append (records es) block) in
      rw e (
        unfold table_file in
        (ap (drop (length (records es ++ block))) (sym (append_assoc (records es) block tail))
          ∙ drop-append (records es ++ block) tail))

  block_at :
      take
        (length (table_file es) - 24 - length (records es))
        (drop (length (records es)) (table_file es))
      ≡ block
  block_at =
      let e : length (table_file es) - 24 - length (records es) ≡ length block =
        omega (arith, length-table_file) in
      rw e (
        unfold table_file in
        (ap (take (length block)) (drop-append (records es) (block ++ tail))
          ∙ take-append block tail))

  limit_read :
      get_u64 (drop (length (table_file es) - 24) (table_file es)) ≡ some (length (records es))
  limit_read =
      ap get_u64 foot_at
      ∙ footer_offset (length (records es)) (length index) (checksum block)
          (omega (arith, f.file_fits))

  open_index :
      (seq : ℕ)
      → open_ss_table seq (table_file es)
        ≡ with_bounds seq (table_file es) (length (records es)) index
  open_index seq =
      let o : ℕ = length (records es) in
      let c : ℕ = length index in
      let k : ℕ = checksum block in
      open_steps seq o c k (table_file es) index (omega (arith, length-table_file))
        (ap (λ t. get_u64 (drop 16 t)) foot_at ∙ footer_magic o c k) limit_read
        (ap (λ t. get_u32 (drop 8 t)) foot_at ∙ footer_count o c k f.count_fits)
        (ap (λ t. get_u32 (drop 12 t)) foot_at ∙ footer_crc o c k (checksum-lt block)) f.file_fits
        (omega (arith, length-table_file)) (ap checksum block_at)
        (ap (parse_index c) block_at
          ∙ parse_index-encode_index index
              (All-map (Starts es) IndexFits index (λ x. Starts-IndexFits es x f) index-Starts))

  -- The scan for the greatest key, from any indexed entry.
  greatest :
      (x : IndexEntry)
      → Starts es x
      → scan_block {S = Unit {0}}
          (λ s e. (s, false))
          (table_file es)
          x.offset
          (length (records es))
          tt
        ≡ done (last_key [] es, tt)
  greatest x st =
      unfold table_file in
      (scan_from (λ s e. (s, false)) es x (block ++ tail) tt f st
        ∙ ap done (
            visit_last (st.entry ∷ st.after) []
            ∙ ap (λ l. (l, tt))
                (sym (last_key_mid [] st.before st.after st.entry)
                  ∙ ap (last_key []) (sym st.split))))

  pub index_limit-table_of : (seq : ℕ) → index_limit (table_of seq es) ≡ some (length (records es))
  unfolding index_limit table_of
  index_limit-table_of seq = limit_read

  -- The table reads out to the entries that it was made of.
  pub all-table_of : (seq : ℕ) → all (table_of seq es) ≡ done es
  all-table_of seq =
      all_steps (table_of seq es) (length (records es)) (visit collect es [] [])
        (index_limit-table_of seq)
        (unfold table_file table_of in
          scan_block-records collect [] es (block ++ tail) [] f.entries_fit)
      ∙ ap done (visit_all es [] [])

bounds :
    (seq : ℕ) (es : List KvEntry)
    → TableFits es
    → with_bounds seq (table_file es) (length (records es)) (build_index 0 0 es)
      ≡ done (table_of seq es)
unfolding with_bounds table_of build_index
bounds seq [] f = refl
bounds seq (e ∷ es) f =
    let x : IndexEntry = record { key = e.key; offset = 0 } in
    let xs : List IndexEntry = build_index 1 (0 + (9 + length e.key + length e.value)) es in
    rw
      (greatest (e ∷ es) f (last_entry x xs)
        (last_entry-All (Starts (e ∷ es)) x xs (index-Starts (e ∷ es) f)))
      (unfold first_key in refl)

-- A table that has been written is opened: openSSTable finds the index and the bounds, for entries
-- that fit into the format, none included.
pub open_ss_table-table_file :
    (seq : ℕ) (es : List KvEntry)
    → TableFits es
    → open_ss_table seq (table_file es) ≡ done (table_of seq es)
open_ss_table-table_file seq es f = open_index es f seq ∙ bounds seq es f

-- A table file that is cut short in its first 23 bytes, such as a crash in the middle of
-- writeSSTable leaves, cannot be opened.
pub open_ss_table-cut :
    (seq : ℕ) (file : Bytes) → length file < 24 → open_ss_table seq file ≡ failed
unfolding open_ss_table
open_ss_table-cut seq file h =
    let short : ltb (length file) 24 ≡ true = ground arith in rw short refl
