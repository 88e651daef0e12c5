-- ===== src/Programs/Specs.antt =====
-- The specifications `id=host:port` of cmd/distkv and cmd/distkv-cli, written and read.
use distkv.Prelude.{
  ℕ, suc, ◌^◌, ◌<◌, ◌≡◌, refl, ap, ◌∙◌, true, false, not, Option, none, some, List, [], ◌∷◌, ◌++◌,
  arith, ◌==◌, if◌then◌else◌, Bool-cases, inl, inr, All, All-append,
}
use distkv.Codec.{Bytes}
use distkv.IdMap.{look, put, look-put}
use distkv.IdSet.{contains}
use distkv.StateMachine.{is_empty}
use distkv.Programs.{
  split, split_once, parse_member_spec, Flags, Options, read_peers, join_peers, seeds_of,
  options_of, incomplete, ids_of, peer_ids,
}
use distkv.Programs.Numbers.{digits, digits_up_to-lack, parse_uint-digits}

-- The separator is not in the text.
abbrev pub Lacks : ℕ → Bytes → Type 0
Lacks sep xs = All (λ x. (x == sep) ≡ false) xs

split_once-append :
    (sep : ℕ) (xs ys : Bytes) → Lacks sep xs → split_once sep (xs ++ sep ∷ ys) ≡ some (xs, ys)
unfolding split_once
split_once-append sep [] ys h = ground arith
split_once-append sep (x ∷ xs) ys (h, hs) = rw (split_once, h, split_once-append sep xs ys hs) refl

split-lack : (sep : ℕ) (xs : Bytes) → Lacks sep xs → split sep xs ≡ xs ∷ []
unfolding split
split-lack sep [] h = refl
split-lack sep (x ∷ xs) (h, hs) = rw (split, h, split-lack sep xs hs) refl

split-append :
    (sep : ℕ) (xs ys : Bytes) → Lacks sep xs → split sep (xs ++ sep ∷ ys) ≡ xs ∷ split sep ys
unfolding split
split-append sep [] ys h = ground arith
split-append sep (x ∷ xs) ys (h, hs) = rw (split, h, split-append sep xs ys hs) refl

abbrev pub format_spec : ℕ × Bytes → Bytes
format_spec (id, addr) = digits id ++ 61 ∷ addr

-- A specification is read back: the id of 64 bits, and the address, whatever is in it.
pub parse_member_spec-format_spec :
    (id : ℕ) (addr : Bytes)
    → id < 2 ^ 64
    → parse_member_spec (format_spec (id, addr)) ≡ some (id, addr)
unfolding parse_member_spec
parse_member_spec-format_spec id addr w =
    let cut =
      split_once-append 61 (digits id) addr (digits_up_to-lack 61 (suc id) id (omega arith)) in
    rw (parse_member_spec, cut, parse_uint-digits id w) refl

-- Specifications joined by commas.
abbrev pub format_specs : ℕ × Bytes → List (ℕ × Bytes) → Bytes
format_specs p [] = format_spec p
format_specs p (q ∷ ps) = format_spec p ++ 44 ∷ format_specs q ps

-- Ids of 64 bits, and addresses without a comma.
abbrev pub Plain : List (ℕ × Bytes) → Type 0
Plain ps = All (λ p. (p.0 < 2 ^ 64) × Lacks 44 p.1) ps

abbrev format_all : List (ℕ × Bytes) → List Bytes
format_all [] = []
format_all (p ∷ ps) = format_spec p ∷ format_all ps

spec-lack : (p : ℕ × Bytes) → Lacks 44 p.1 → Lacks 44 (format_spec p)
spec-lack (id, addr) h =
    All-append (λ x. (x == 44) ≡ false) (digits id) (61 ∷ addr)
      (digits_up_to-lack 44 (suc id) id (omega arith)) (ground arith, h)

split-format_specs :
    (p : ℕ × Bytes) (ps : List (ℕ × Bytes))
    → Plain (p ∷ ps)
    → split 44 (format_specs p ps) ≡ format_all (p ∷ ps)
split-format_specs p [] (h, hs) = split-lack 44 (format_spec p) (spec-lack p h.1)
split-format_specs p (q ∷ ps) (h, hs) =
    split-append 44 (format_spec p) (format_specs q ps) (spec-lack p h.1)
    ∙ ap (λ xs. format_spec p ∷ xs) (split-format_specs q ps hs)

-- The entries of a map that is filled in this order: of two with one id, the later one stays.
abbrev pub put_all : List (ℕ × Bytes) → List (ℕ × Bytes) → List (ℕ × Bytes)
put_all [] m = m
put_all ((id, addr) ∷ ps) m = put_all ps (put id addr m)

read_peers-format_all :
    (ps m : List (ℕ × Bytes)) → Plain ps → read_peers (format_all ps) m ≡ some (put_all ps m)
unfolding read_peers
read_peers-format_all [] m h = refl
read_peers-format_all ((id, addr) ∷ ps) m (h, hs) =
    rw (read_peers, parse_member_spec-format_spec id addr h.0)
      (read_peers-format_all ps (put id addr m) hs)

abbrev pub other_ids : ℕ → List (ℕ × Bytes) → List ℕ
other_ids id [] = []
other_ids id ((j, addr) ∷ ps) =
    let rest = other_ids id ps in if not (j == id) then j ∷ rest else rest

seeds_of-format_all :
    (self : ℕ) (ps : List (ℕ × Bytes))
    → Plain ps
    → seeds_of self (format_all ps) ≡ other_ids self ps
unfolding seeds_of
seeds_of-format_all self [] h = refl
seeds_of-format_all self ((id, addr) ∷ ps) (h, hs) =
    rw (seeds_of, parse_member_spec-format_spec id addr h.0, seeds_of-format_all self ps hs) refl

filled_behind : (xs ys : Bytes) (y : ℕ) → is_empty (xs ++ y ∷ ys) ≡ false
filled_behind [] ys y = refl
filled_behind (x ∷ xs) ys y = refl

format_specs_filled : (p : ℕ × Bytes) (ps : List (ℕ × Bytes)) → is_empty (format_specs p ps) ≡ false
format_specs_filled (id, addr) [] = filled_behind (digits id) addr 61
format_specs_filled p (q ∷ ps) = filled_behind (format_spec p) (format_specs q ps) 44

read_peers-format_specs :
    (p : ℕ × Bytes) (ps : List (ℕ × Bytes))
    → Plain (p ∷ ps)
    → read_peers (split 44 (format_specs p ps)) [] ≡ some (put_all (p ∷ ps) [])
read_peers-format_specs p ps h =
    ap (λ xs. read_peers xs []) (split-format_specs p ps h) ∙ read_peers-format_all (p ∷ ps) [] h

other_ids-All : (id : ℕ) (ps : List (ℕ × Bytes)) → All (λ j. (j == id) ≡ false) (other_ids id ps)
other_ids-All id [] = tt
other_ids-All id ((j, addr) ∷ ps) = elim (Bool-cases (j == id)) [
  | inl own ↦ rw own (other_ids-All id ps)
  | inr other ↦ rw other (other, other_ids-All id ps)
]

peers_read :
    (f : Flags) (p : ℕ × Bytes) (ps : List (ℕ × Bytes))
    → incomplete f ≡ false
    → Plain (p ∷ ps)
    → f.peers_flag ≡ format_specs p ps
    → options_of f ≡ some (record { peers = put_all (p ∷ ps) []; bootstrap_ids = [] })
unfolding options_of
peers_read f p ps given h written =
    let filled = ap is_empty written ∙ format_specs_filled p ps in
    let parsed = ap (λ s. read_peers (split 44 s) []) written ∙ read_peers-format_specs p ps h in
    elim (Bool-cases (is_empty f.join_flag)) [
      | inl bare ↦ ground (arith, given, filled, bare, parsed)
      | inr both ↦ ground (arith, given, filled, both, parsed)
    ]

-- The address behind the last specification of the id.
abbrev pub last_address : ℕ → List (ℕ × Bytes) → Option Bytes → Option Bytes
last_address id [] found = found
last_address id ((j, addr) ∷ ps) found = last_address id ps (if j == id then some addr else found)

look-put_all :
    (id : ℕ) (ps m : List (ℕ × Bytes)) → look id (put_all ps m) ≡ last_address id ps (look id m)
look-put_all id [] m = refl
look-put_all id ((j, addr) ∷ ps) m =
    look-put_all id ps (put j addr m) ∙ ap (last_address id ps) (look-put j id addr m)

contains-put :
    (id j : ℕ) (addr : Bytes) (m : List (ℕ × Bytes))
    → contains (ids_of (put id addr m)) j ≡ (if id == j then true else contains (ids_of m) j)
unfolding put ids_of contains
contains-put id j addr [] = ground arith
contains-put id j addr ((k, old) ∷ m) = ground (arith, contains-put id j addr m)

contains-put_all :
    (j : ℕ) (ps m : List (ℕ × Bytes))
    → contains (ids_of (put_all ps m)) j
      ≡ (if contains (ids_of ps) j then true else contains (ids_of m) j)
unfolding ids_of contains
contains-put_all j [] m = refl
contains-put_all j ((id, addr) ∷ ps) m =
    ground (arith, contains-put_all j ps (put id addr m), contains-put id j addr m)

-- The -peers flag of a node with all its other flags: written out of ids of 64 bits and
-- addresses without a comma, it is read back. The peers are those that were written, each with the
-- address behind its last mention, and the initial voters that server.New takes are their ids, all
-- of them and no others.
pub options_of-peers :
    (f : Flags) (p : ℕ × Bytes) (ps : List (ℕ × Bytes))
    → incomplete f ≡ false
    → Plain (p ∷ ps)
    → f.peers_flag ≡ format_specs p ps
    → (o : Options) × (options_of f ≡ some o)
      × ((id : ℕ) → look id o.peers ≡ last_address id (p ∷ ps) none)
      × ((id : ℕ) → contains (peer_ids o) id ≡ contains (ids_of (p ∷ ps)) id)
unfolding peer_ids
options_of-peers f p ps given h written = (
  record { peers = put_all (p ∷ ps) []; bootstrap_ids = [] },
  peers_read f p ps given h written,
  λ id. look-put_all id (p ∷ ps) [] ∙ ap (last_address id (p ∷ ps)) (unfold look in refl),
  λ id. contains-put_all id (p ∷ ps) [] ∙ (unfold ids_of contains in ground arith),
)

-- The -join flag of a node with all its other flags but -peers: the seeds are its initial voters, and the node itself
-- is none of them, provided that there is another seed than the node.
pub options_of-join :
    (f : Flags) (p : ℕ × Bytes) (ps : List (ℕ × Bytes))
    → incomplete f ≡ false
    → Plain (p ∷ ps)
    → f.peers_flag ≡ []
    → f.join_flag ≡ format_specs p ps
    → (p.0 == f.id) ≡ false
    → (o : Options) × (options_of f ≡ some o)
      × (peer_ids o ≡ other_ids f.id (p ∷ ps))
      × All (λ id. (id == f.id) ≡ false) (peer_ids o)
unfolding options_of peer_ids
options_of-join f p ps given h no_peers written apart =
    let bare : is_empty f.peers_flag ≡ true = ap is_empty no_peers in
    let filled = ap is_empty written ∙ format_specs_filled p ps in
    let parsed = ap (λ s. read_peers (split 44 s) []) written ∙ read_peers-format_specs p ps h in
    let seeds =
      ap (λ s. seeds_of f.id (split 44 s)) written
      ∙ ap (seeds_of f.id) (split-format_specs p ps h)
      ∙ seeds_of-format_all f.id (p ∷ ps) h in
    let parts = split 44 f.join_flag in
    let first = put f.id f.raft_addr (join_peers parts ((f.id, f.raft_addr) ∷ [])) in
    let o : Options = record {
      peers = put f.id f.raft_addr (join_peers parts first);
      bootstrap_ids = seeds_of f.id parts;
    } in
    let voters : peer_ids o ≡ other_ids f.id (p ∷ ps) =
      rw (peer_ids, seeds) (ground (arith, apart)) in
    (
      o,
      ground (arith, given, filled, bare, parsed),
      voters,
      rw voters (other_ids-All f.id (p ∷ ps)),
    )
