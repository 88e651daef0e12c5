-- ===== src/Programs/WebApi.antt =====
-- cmd/distkv-webapi: HTTP requests turned into calls of the client, and their answers.
use distkv.Prelude.{
  ℕ, ◌+◌, ◌^◌, ◌≤◌, ◌≡◌, ◌↔◌, refl, ap, Bool, true, false, ◌&&◌, ◌||◌, Option, none, some, List, [],
  ◌∷◌, arith, ltb, ◌==◌, if◌then◌else◌, length, take, length-take, take_all,
}
use distkv.Codec.{Bytes}
use distkv.StateMachine.{is_empty}
use distkv.KvModel.Groups.{has, sort_strings}
use distkv.Programs.{parse_uint}
use distkv.Programs.Numbers.{digits}

-- A call of the client: a result, or the text of its error.
pub data Called (R : Type 0) : Type 0 where
  returned : R → Called R
  failed : Bytes → Called R

-- An answer: its code, and what its body says.
pub data Body (R : Type 0) : Type 0 where
  body_of : R → Body R
  error_text : Bytes → Body R
  bad_request : Body R

pub record Response (R : Type 0) : Type 0 where
  pub code : ℕ
  pub body : Body R

-- strings.Contains.
unfoldable pub starts_with : Bytes → Bytes → Bool
starts_with [] text = true
starts_with (x ∷ xs) [] = false
starts_with (x ∷ xs) (y ∷ ys) = (x == y) && starts_with xs ys

unfoldable pub contains_text : Bytes → Bytes → Bool
unfolding starts_with
contains_text sub [] = starts_with sub []
contains_text sub (y ∷ ys) = starts_with sub (y ∷ ys) || contains_text sub ys

-- `not leader`
abbrev pub not_leader_text : Bytes
not_leader_text = 110 ∷ 111 ∷ 116 ∷ 32 ∷ 108 ∷ 101 ∷ 97 ∷ 100 ∷ 101 ∷ 114 ∷ []

-- `application/json`
abbrev pub json_type : Bytes
json_type =
    97 ∷ 112 ∷ 112 ∷ 108 ∷ 105 ∷ 99 ∷ 97 ∷ 116 ∷ 105 ∷ 111 ∷ 110 ∷ 47 ∷ 106 ∷ 115 ∷ 111 ∷ 110 ∷ []

unfoldable pub write_err : {R : Type 0} → Bytes → Response R
unfolding contains_text
write_err msg = record {
  code = if contains_text not_leader_text msg then 503 else 502;
  body = error_text msg;
}

unfoldable pub answer : {R : Type 0} → Called R → Response R
unfolding write_err
answer (returned r) = record { code = 200; body = body_of r }
answer (failed msg) = write_err msg

abbrev pub bad : {R : Type 0} → Response R
bad = record { code = 400; body = bad_request }

-- A kept state and the world behind a call.
abbrev pub finish_request : {W R : Type 0} → W × Called R → W × Response R
finish_request (w, r) = (w, answer r)

-- io.LimitReader reads so many bytes and then reports the end.
abbrev pub body_limit : ℕ
body_limit = 2 ^ 20

-- `unmarshal` is json.Unmarshal of an object with the field `value`.
unfoldable pub put_value : (Bytes → Option Bytes) → Bytes → Bytes → Option Bytes
unfolding contains_text
put_value unmarshal content_type sent =
    let body = take body_limit sent in
    if contains_text json_type content_type then unmarshal body else some body

module _ {W : Type 0} (get : Bytes → W → W × Called (Option Bytes))
    (put : Bytes → Bytes → W → W × Called Unit) (delete : Bytes → W → W × Called Unit)
    (unmarshal : Bytes → Option Bytes) where
  unfoldable pub get_kv : Bytes → W → W × Response (Option Bytes)
  unfolding answer
  get_kv key w = finish_request (get key w)

  -- A request whose body cannot be read is none.
  unfoldable pub put_kv : Bytes → Bytes → Option Bytes → W → W × Response Unit
  unfolding answer put_value
  put_kv key content_type none w = (w, bad)
  put_kv key content_type (some sent) w = elim (put_value unmarshal content_type sent) [
    | none ↦ (w, bad)
    | some value ↦ finish_request (put key value w)
  ]

  unfoldable pub delete_kv : Bytes → W → W × Response Unit
  unfolding answer
  delete_kv key w = finish_request (delete key w)

  -- A plain body of a PUT request is stored as it is if it has at most a megabyte. A longer one is
  -- cut, and what is left of it is stored, with the same answer.
  pub put_kv-body :
      (key content_type sent : Bytes) (w : W)
      → contains_text json_type content_type ≡ false
      → (put_kv key content_type (some sent) w ≡ finish_request (put key (take body_limit sent) w))
        × ((take body_limit sent ≡ sent) ↔ (length sent ≤ body_limit))
  unfolding put_kv put_value
  put_kv-body key content_type sent w plain = (
    rw (put_kv, put_value, plain) refl,
    (
      λ e. (let counted = ap length e in omega (arith, counted, length-take body_limit sent)),
      λ h. take_all body_limit sent h,
    ),
  )

module _ {W : Type 0} (add : ℕ → Bytes → W → W × Called Unit)
    (remove : ℕ → W → W × Called Unit) where
  -- A body that is no such object is none.
  unfoldable pub add_member_http : Option (ℕ × Bytes) → W → W × Response Unit
  unfolding answer
  add_member_http none w = (w, bad)
  add_member_http (some (id, raft_addr)) w =
      if (id == 0) || is_empty raft_addr then (w, bad) else finish_request (add id raft_addr w)

  unfoldable pub remove_member_http : Bytes → W → W × Response Unit
  unfolding answer parse_uint
  remove_member_http path w = elim (parse_uint path) [
    | none ↦ (w, bad)
    | some id ↦ if id == 0 then (w, bad) else finish_request (remove id w)
  ]

-- net.SplitHostPort and net.JoinHostPort are parameters. `…:800N` of Raft is `…:700N` of the clients.
module _ (split_host_port : Bytes → Option (Bytes × Bytes))
    (join_host_port : Bytes → Bytes → Bytes) where
  unfoldable pub client_port : Bytes → ℕ → Option Bytes
  client_port [] id = if ltb 0 id then some (digits (7000 + id)) else none
  client_port (c ∷ port) id =
      if (length (c ∷ port) == 4) && (c == 56)
      then some (55 ∷ port)
      else if ltb 0 id
      then some (digits (7000 + id))
      else none

  unfoldable pub kv_addr_from_raft : Bytes → ℕ → Bytes
  unfolding client_port
  kv_addr_from_raft raft_addr id = elim (split_host_port raft_addr) [
    | none ↦ []
    | some (host, port) ↦ elim (client_port port id) [ none ↦ [] | some p ↦ join_host_port host p ]
  ]

  -- The addresses that the status page asks, each once.
  unfoldable pub add_address : Bytes → List Bytes → List Bytes
  add_address addr addrs = if has addr addrs then addrs else addr ∷ addrs

  unfoldable pub add_addresses : List Bytes → List Bytes → List Bytes
  unfolding add_address
  add_addresses [] addrs = addrs
  add_addresses (a ∷ more) addrs = add_addresses more (add_address a addrs)

  unfoldable pub member_addresses : List (ℕ × Bytes) → List Bytes → List Bytes
  unfolding add_address kv_addr_from_raft
  member_addresses [] addrs = addrs
  member_addresses ((id, raft_addr) ∷ members) addrs =
      let kv = kv_addr_from_raft raft_addr id in
      member_addresses members (if is_empty kv then addrs else add_address kv addrs)

  -- `members` is none where ListMembers fails.
  unfoldable pub status_addresses : List Bytes → Option (List (ℕ × Bytes)) → List Bytes
  unfolding add_addresses member_addresses sort_strings
  status_addresses configured members =
      let known = add_addresses configured [] in
      sort_strings (elim members [ none ↦ known | some ms ↦ member_addresses ms known ])
