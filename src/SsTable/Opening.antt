-- ===== src/SsTable/Opening.antt =====
-- Opening a table that storage/sstable.go has written.
use distkv.Prelude.{
  ℕ, suc, ◌+◌, ◌%◌, ◌^◌, ◌<◌, ◌≡◌, refl, ap, ◌∙◌, false, some, List, [], ◌∷◌, ◌++◌, arith, ltb,
  ◌==◌, length, take, drop, length-append, take-append, drop-append, append_assoc, append-nil, All,
  Bool-cases, inl, inr,
}
use mathlib.Core.Path.{subst}
use distkv.Codec.{
  Bytes, put_u32, get_u32, put_u64, get_u64, get_u32-put_u32, get_u64-put_u64, drop-put_u32,
  drop-put_u64,
}
use distkv.Wal.{done}
use distkv.KeyMap.{KvEntry}
use distkv.SsTable.{
  IndexEntry, SsTable, index_every, encode_record, records, build_index, encode_index, table_file,
  parse_index,
}
use distkv.SsTable.Format.{EntryFits, length-encode_record, records-append}

-- What a table must fit into to be written: 32-bit lengths of keys, values and the index, and a file
-- offset of 63 bits.
pub record TableFits (es : List KvEntry) : Type 0 where
  pub entries_fit : All EntryFits es
  pub file_fits : length (records es) < 2 ^ 63
  pub count_fits : length (build_index 0 0 es) < 2 ^ 32

unfoldable pub last_key : Bytes → List KvEntry → Bytes
last_key l [] = l
last_key l (e ∷ es) = last_key e.key es

unfoldable pub first_key : List KvEntry → Bytes
first_key [] = []
first_key (e ∷ es) = e.key

-- The table that writeSSTable and openSSTable make of sorted entries.
unfoldable pub table_of : ℕ → List KvEntry → SsTable
unfolding last_key first_key
table_of seq es = record {
  seq = seq;
  file = table_file es;
  index = build_index 0 0 es;
  min_key = first_key es;
  max_key = last_key [] es;
}

-- An index entry gives the key and the offset of some entry.
pub record Starts (es : List KvEntry) (x : IndexEntry) : Type 0 where
  pub before : List KvEntry
  pub entry : KvEntry
  pub after : List KvEntry
  pub split : es ≡ before ++ entry ∷ after
  pub key_eq : x.key ≡ entry.key
  pub offset_eq : x.offset ≡ length (records before)

length-records_snoc :
    (pre : List KvEntry) (e : KvEntry)
    → length (records (pre ++ e ∷ [])) ≡ length (records pre) + (9 + length e.key + length e.value)
unfolding records
length-records_snoc pre e =
    ap length (records-append pre (e ∷ []))
    ∙ omega (
      arith,
      length-append (records pre) (encode_record e ++ []),
      ap length (append-nil (encode_record e)),
      length-encode_record e,
    )

pub build_index-Starts :
    (i off : ℕ) (pre es : List KvEntry)
    → off ≡ length (records pre)
    → All (Starts (pre ++ es)) (build_index i off es)
unfolding build_index
build_index-Starts i off pre [] h = tt
build_index-Starts i off pre (e ∷ es) h =
    let next : ℕ = off + (9 + length e.key + length e.value) in
    let rest : All (Starts (pre ++ e ∷ es)) (build_index (i + 1) next es) =
      subst (λ l. All (Starts l) (build_index (i + 1) next es)) (append_assoc pre (e ∷ []) es)
        (build_index-Starts (i + 1) next (pre ++ e ∷ []) es
          (omega (arith, length-records_snoc pre e))) in
    let here : Starts (pre ++ e ∷ es) (record { key = e.key; offset = off }) = record {
      before = pre;
      entry = e;
      after = es;
      split = refl;
      key_eq = refl;
      offset_eq = h;
    } in
    elim (Bool-cases (i % index_every == 0)) [
      | inl marked ↦ rw marked (here, rest)
      | inr plain ↦ rw plain rest
    ]

pub record IndexFits (x : IndexEntry) : Type 0 where
  pub key_fits : length x.key < 2 ^ 32
  pub offset_fits : x.offset < 2 ^ 64

pub All-mid {ℓ κ} :
    {A : Type ℓ} (P : A → Type κ) (a : List A) (x : A) (b : List A) → All P (a ++ x ∷ b) → P x
All-mid P [] x b h = h.0
All-mid P (y ∷ a) x b h = All-mid P a x b h.1

pub All-suffix {ℓ κ} : {A : Type ℓ} (P : A → Type κ) (a b : List A) → All P (a ++ b) → All P b
All-suffix P [] b h = h
All-suffix P (y ∷ a) b h = All-suffix P a b h.1

pub Starts-IndexFits :
    (es : List KvEntry) (x : IndexEntry) → TableFits es → Starts es x → IndexFits x
Starts-IndexFits es x f s =
    let e : EntryFits s.entry =
      All-mid EntryFits s.before s.entry s.after (subst (All EntryFits) s.split f.entries_fit) in
    let size : length (records es)
        ≡ length (records s.before) + length (records (s.entry ∷ s.after)) =
      ap (λ l. length (records l)) s.split
      ∙ ap length (records-append s.before (s.entry ∷ s.after))
      ∙ length-append (records s.before) (records (s.entry ∷ s.after)) in
    record {
      key_fits = rw s.key_eq e.key_fits;
      offset_fits = omega (arith, s.offset_eq, size, f.file_fits);
    }

pub All-map {ℓ κ μ} :
    {A : Type ℓ} (P : A → Type κ) (Q : A → Type μ) (xs : List A)
    → ((x : A) → P x → Q x)
    → All P xs
    → All Q xs
All-map P Q [] h a = tt
All-map P Q (x ∷ xs) h a = (h x a.0, All-map P Q xs h a.1)

parse_index_step :
    (n klen off : ℕ) (buf key rest : Bytes) (xs : List IndexEntry)
    → get_u32 buf ≡ some klen
    → ltb (length (drop 4 buf)) klen ≡ false
    → take klen (drop 4 buf) ≡ key
    → get_u64 (drop klen (drop 4 buf)) ≡ some off
    → drop 8 (drop klen (drop 4 buf)) ≡ rest
    → parse_index n rest ≡ done xs
    → parse_index (suc n) buf ≡ done (record { key = key; offset = off } ∷ xs)
unfolding parse_index
parse_index_step n klen off buf key rest xs len whole k word r ih =
    rw (len, parse_index) (rw (whole, word) (rw (r, k) (rw ih refl)))

-- The index is parsed back.
pub parse_index-encode_index :
    (xs : List IndexEntry) → All IndexFits xs → parse_index (length xs) (encode_index xs) ≡ done xs
unfolding encode_index
parse_index-encode_index [] f = unfold parse_index in refl
parse_index-encode_index (x ∷ xs) f =
    let tail : Bytes = put_u64 x.offset ++ encode_index xs in
    let body : drop 4 (put_u32 (length x.key) ++ (x.key ++ tail)) ≡ x.key ++ tail =
      drop-put_u32 (length x.key) (x.key ++ tail) in
    let behind : drop (length x.key) (drop 4 (put_u32 (length x.key) ++ (x.key ++ tail))) ≡ tail =
      ap (drop (length x.key)) body ∙ drop-append x.key tail in
    parse_index_step (length xs) (length x.key) x.offset (put_u32 (length x.key) ++ (x.key ++ tail))
      x.key (encode_index xs) xs (get_u32-put_u32 (length x.key) (x.key ++ tail) f.0.key_fits)
      (ground (arith, ap length body, length-append x.key tail))
      (ap (take (length x.key)) body ∙ take-append x.key tail)
      (ap get_u64 behind ∙ get_u64-put_u64 x.offset (encode_index xs) f.0.offset_fits)
      (ap (drop 8) behind ∙ drop-put_u64 x.offset (encode_index xs))
      (parse_index-encode_index xs f.1)
