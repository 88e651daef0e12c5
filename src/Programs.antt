-- ===== src/Programs.antt =====
-- The programs of cmd/: how they read their arguments and requests, up to the calls of the server and
-- the client. strings.Split, strings.SplitN and strconv.ParseUint are those of Go's library.
pub mod Numbers
pub mod Specs
pub mod MembersCmd
pub mod WebApi
pub mod Bench
use distkv.Prelude.{
  ℕ, zero, suc, ◌+◌, ◌-◌, ◌*◌, ◌/◌, ◌%◌, ◌^◌, Bool, true, false, Option, none, some, List, [], ◌∷◌,
  ◌++◌, ltb, leb, ◌==◌, not, ◌&&◌, ◌||◌, if◌then◌else◌, length,
}
use distkv.Codec.{Bytes}
use distkv.Text.{same}
use distkv.IdMap.{put}
use distkv.StateMachine.{is_empty}
use distkv.KvModel.Groups.{has, sort_strings}

-- One more digit of a number of 64 bits.
unfoldable pub push_digit : ℕ → ℕ → Option ℕ
push_digit v d =
    if leb 48 d && (leb d 57 && ltb (v * 10 + (d - 48)) (2 ^ 64))
    then some (v * 10 + (d - 48))
    else none

unfoldable pub parse_digits : Bytes → ℕ → Option ℕ
unfolding push_digit
parse_digits [] v = some v
parse_digits (d ∷ ds) v = elim (push_digit v d) [ none ↦ none | some v1 ↦ parse_digits ds v1 ]

-- strconv.ParseUint(s, 10, 64): none is an error, of syntax or of range.
unfoldable pub parse_uint : Bytes → Option ℕ
unfolding parse_digits
parse_uint [] = none
parse_uint (d ∷ ds) = parse_digits (d ∷ ds) 0

-- strings.Split by one byte, and strings.SplitN in two at the first one.
abbrev pub onto_first : ℕ → List Bytes → List Bytes
onto_first x [] = (x ∷ []) ∷ []
onto_first x (p ∷ ps) = (x ∷ p) ∷ ps

unfoldable pub split : ℕ → Bytes → List Bytes
split sep [] = [] ∷ []
split sep (x ∷ xs) = let rest = split sep xs in if x == sep then [] ∷ rest else onto_first x rest

unfoldable pub split_once : ℕ → Bytes → Option (Bytes × Bytes)
split_once sep [] = none
split_once sep (x ∷ xs) =
    let rest = split_once sep xs in
    if x == sep
    then some ([], xs)
    else elim rest [ none ↦ none | some (before, behind) ↦ some (x ∷ before, behind) ]

-- parseMemberSpec of cmd/distkv-cli: `id=host:port`.
unfoldable pub parse_member_spec : Bytes → Option (ℕ × Bytes)
unfolding split_once parse_uint
parse_member_spec spec = elim (split_once 61 spec) [
  | none ↦ none
  | some (number, addr) ↦ elim (parse_uint number) [ none ↦ none | some id ↦ some (id, addr) ]
]

-- What membersCmd comes to, for the addresses of the cluster and the arguments behind `members`.
pub data MembersCall : Type 0 where
  need_subcommand dial_failed unknown_subcommand missing_arguments bad_argument index_panic :
      MembersCall
  list_call : MembersCall
  add_call : ℕ → Bytes → MembersCall
  remove_call : ℕ → MembersCall

abbrev pub list_word : Bytes
list_word = 108 ∷ 105 ∷ 115 ∷ 116 ∷ []

abbrev pub add_word : Bytes
add_word = 97 ∷ 100 ∷ 100 ∷ []

abbrev pub remove_word : Bytes
remove_word = 114 ∷ 101 ∷ 109 ∷ 111 ∷ 118 ∷ 101 ∷ []

-- requireArgs.
unfoldable pub enough_args : List Bytes → ℕ → Bool
enough_args args n = not (ltb (length args) n)

abbrev pub second : List Bytes → Option Bytes
second [] = none
second (x ∷ []) = none
second (x ∷ y ∷ ys) = some y

-- `dials` says of an address whether grpc.NewClient takes it.
unfoldable pub members_cmd : (Bytes → Bool) → List Bytes → List Bytes → MembersCall
unfolding enough_args parse_member_spec parse_uint
members_cmd dials addrs [] = need_subcommand
members_cmd dials [] (word ∷ args) = index_panic
members_cmd dials (addr ∷ addrs) (word ∷ args) =
    if not (dials addr)
    then dial_failed
    else if same word list_word
    then list_call
    else if same word add_word
    then (if not (enough_args (add_word ∷ word ∷ args) 2)
        then missing_arguments
        else elim (second (word ∷ args)) [
          | none ↦ index_panic
          | some spec ↦ elim (parse_member_spec spec) [
            | none ↦ bad_argument
            | some (id, addr) ↦ add_call id addr
          ]
        ])
    else if same word remove_word
    then (if not (enough_args (remove_word ∷ word ∷ args) 2)
        then missing_arguments
        else elim (second (word ∷ args)) [
          | none ↦ index_panic
          | some number ↦ elim (parse_uint number) [
            | none ↦ bad_argument
            | some id ↦ remove_call id
          ]
        ])
    else unknown_subcommand

-- The flags of cmd/distkv that say who the peers are.
pub record Flags : Type 0 where
  pub id : ℕ
  pub dir : Bytes
  pub kv_addr : Bytes
  pub raft_addr : Bytes
  pub peers_flag : Bytes
  pub join_flag : Bytes

-- server.Options, of which these matter here.
pub record Options : Type 0 where
  pub peers : List (ℕ × Bytes)
  pub bootstrap_ids : List ℕ

-- The loop over the parts; a bad one ends the program.
unfoldable pub read_peers : List Bytes → List (ℕ × Bytes) → Option (List (ℕ × Bytes))
unfolding parse_member_spec
read_peers [] peers = some peers
read_peers (part ∷ rest) peers = elim (parse_member_spec part) [
  | none ↦ none
  | some (pid, addr) ↦ read_peers rest (put pid addr peers)
]

-- The loops for a joining node. They come behind the one above, so that every part is a good one.
unfoldable pub join_peers : List Bytes → List (ℕ × Bytes) → List (ℕ × Bytes)
unfolding parse_member_spec
join_peers [] peers = peers
join_peers (part ∷ rest) peers = elim (parse_member_spec part) [
  | none ↦ join_peers rest peers
  | some (pid, addr) ↦ join_peers rest (put pid addr peers)
]

unfoldable pub seeds_of : ℕ → List Bytes → List ℕ
unfolding parse_member_spec
seeds_of id [] = []
seeds_of id (part ∷ rest) =
    let seeds = seeds_of id rest in
    elim (parse_member_spec part) [
      | none ↦ seeds
      | some (pid, addr) ↦ if not (pid == id) then pid ∷ seeds else seeds
    ]

abbrev pub incomplete : Flags → Bool
incomplete f = (f.id == 0) || (is_empty f.dir || (is_empty f.kv_addr || is_empty f.raft_addr))

-- None is an exit with status 2.
unfoldable pub options_of : Flags → Option Options
unfolding read_peers join_peers seeds_of split
options_of f =
    let spec = if is_empty f.peers_flag then f.join_flag else f.peers_flag in
    let joining = not (is_empty f.join_flag) && is_empty f.peers_flag in
    let parts = split 44 f.join_flag in
    let first = put f.id f.raft_addr (join_peers parts ((f.id, f.raft_addr) ∷ [])) in
    let again = put f.id f.raft_addr (join_peers parts first) in
    if incomplete f
    then none
    else if is_empty f.peers_flag && is_empty f.join_flag
    then none
    else elim (read_peers (split 44 spec) []) [
      | none ↦ none
      | some peers ↦ some (
          if joining
          then record { peers = again; bootstrap_ids = seeds_of f.id parts }
          else record { peers = peers; bootstrap_ids = [] })
    ]

-- The initial voters of server.New: the keys of the peers, where none are named.
unfoldable pub ids_of : List (ℕ × Bytes) → List ℕ
ids_of [] = []
ids_of ((id, addr) ∷ peers) = id ∷ ids_of peers

unfoldable pub peer_ids : Options → List ℕ
unfolding ids_of
peer_ids o = if length o.bootstrap_ids == 0 then ids_of o.peers else o.bootstrap_ids

-- strings.TrimSpace, of ASCII spaces.
abbrev pub is_space : ℕ → Bool
is_space c = (c == 32) || (leb 9 c && leb c 13)

unfoldable pub trim_left : Bytes → Bytes
trim_left [] = []
trim_left (c ∷ cs) = let rest = trim_left cs in if is_space c then rest else c ∷ cs

unfoldable pub trim_right : Bytes → Bytes
trim_right [] = []
trim_right (c ∷ cs) =
    let rest = trim_right cs in if is_space c && is_empty rest then [] else c ∷ rest

-- splitAddrs of cmd/distkv-webapi.
unfoldable pub trimmed : List Bytes → List Bytes
unfolding trim_left trim_right
trimmed [] = []
trimmed (p ∷ ps) =
    let rest = trimmed ps in
    let t = trim_right (trim_left p) in if is_empty t then rest else t ∷ rest

unfoldable pub split_addrs : Bytes → List Bytes
unfolding trimmed split
split_addrs s = trimmed (split 44 s)
