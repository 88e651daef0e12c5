-- ===== src/Client.antt =====
-- client/client.go: a client that finds the leader and retries.
pub mod Retrying
pub mod Requests
use distkv.Prelude.{
  ℕ, zero, suc, ◌+◌, ◌*◌, Bool, true, false, Option, none, some, List, [], ◌∷◌, ◌++◌, ltb, not,
  ◌||◌, if◌then◌else◌, u64,
}
use distkv.Codec.{Bytes}
use distkv.Text.{same}
use distkv.StateMachine.{Command, put_op, delete_op, is_empty}

-- `conns` are the addresses with a connection; an empty `leader` is an unknown one.
pub record Client : Type 0 where
  pub addrs : List Bytes
  pub conns : List Bytes
  pub leader : Bytes
  pub id : Bytes
  pub seq : ℕ

unfoldable pub new_client : List Bytes → Bytes → Client
new_client addrs id = record { addrs = addrs; conns = []; leader = []; id = id; seq = 0 }

unfoldable pub connected : Bytes → List Bytes → Bool
connected addr [] = false
connected addr (a ∷ conns) = same a addr || connected addr conns

unfoldable pub others : Bytes → List Bytes → List Bytes
others leader [] = []
others leader (a ∷ addrs) =
    let rest = others leader addrs in if same a leader then rest else a ∷ rest

-- The addresses of one round: the last known leader first.
unfoldable pub order : Client → List Bytes
unfolding others
order c = if is_empty c.leader then others c.leader c.addrs else c.leader ∷ others c.leader c.addrs

unfoldable pub forget : Bytes → Client → Client
forget addr c = if same c.leader addr then record c { leader = [] } else c

unfoldable pub next_backoff : ℕ → ℕ
next_backoff backoff = if ltb backoff 500 then backoff * 2 else backoff

-- How a round, or all of try, ends. `unfinished` is a loop that has used up its fuel.
pub data Result (R : Type 0) : Type 0 where
  answered : R → Result R
  out_of_time : Result R
  all_failed : Result R
  unfinished : Result R

-- What is outside the client: `dial` makes a connection, `call` runs the request against a
-- connected address, `expired` is ctx.Err, and `wait` is the select of ctx.Done against time.After,
-- with whether the context was done first.
module _ {W R : Type 0} (dial : Bytes → W → W × Bool) (call : Bytes → W → W × Option R)
    (expired : W → Bool) (wait : ℕ → W → W × Bool) where
  unfoldable pub conn : Bytes → Client → W → Client × W × Bool
  unfolding connected
  conn addr c w =
      let (w', ok) = dial addr w in
      if connected addr c.conns
      then (c, w, true)
      else if ok
      then (record c { conns = addr ∷ c.conns }, w', true)
      else (c, w', false)

  -- The loop over the addresses of one round.
  unfoldable pub try_each : List Bytes → Client → W → Client × W × Result R
  unfolding conn forget
  try_each [] c w = (c, w, all_failed)
  try_each (addr ∷ addrs) c w =
      let (c1, w1, ok) = conn addr c w in
      let (w2, reply) = call addr w1 in
      let skipped = try_each addrs c1 w1 in
      let retried = try_each addrs (forget addr c1) w2 in
      if expired w
      then (c, w, out_of_time)
      else if not ok
      then skipped
      else elim reply [ none ↦ retried | some r ↦ (record c1 { leader = addr }, w2, answered r) ]

  -- The rounds, on fuel.
  unfoldable pub try_loop : ℕ → ℕ → Client → W → Client × W × Result R
  unfolding try_each order next_backoff
  try_loop zero backoff c w = (c, w, unfinished)
  try_loop (suc fuel) backoff c w =
      let (c1, w1, result) = try_each (order c) c w in
      let (w2, over) = wait backoff w1 in
      let rest = try_loop fuel (next_backoff backoff) c1 w2 in
      elim result [
        | all_failed ↦ if over then (c1, w2, out_of_time) else rest
        | answered r ↦ (c1, w1, answered r)
        | out_of_time ↦ (c1, w1, out_of_time)
        | unfinished ↦ (c1, w1, unfinished)
      ]

  unfoldable pub try : ℕ → Client → W → Client × W × Result R
  unfolding try_loop
  try fuel c w = try_loop fuel 20 c w

-- The requests of Put and Delete, made once for all their retries, with the client's next number.
unfoldable pub put_request : Bytes → Bytes → Client → Client × Command
put_request key value c = (
  record c { seq = u64 (c.seq + 1) },
  record { op = put_op; key = key; value = value; client_id = c.id; seq = u64 (c.seq + 1) },
)

unfoldable pub delete_request : Bytes → Client → Client × Command
delete_request key c = (
  record c { seq = u64 (c.seq + 1) },
  record { op = delete_op; key = key; value = []; client_id = c.id; seq = u64 (c.seq + 1) },
)
