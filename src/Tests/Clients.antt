-- ===== src/Tests/Clients.antt =====
-- A client with two servers that answer from some time on.
use distkv.Prelude.{ℕ, ◌+◌, ◌≢◌, Bool, true, Option, none, some, [], ◌∷◌, arith, ltb, if◌then◌else◌}
use distkv.Codec.{Bytes}
use distkv.Client.{Client, new_client, try, unfinished}
use distkv.Client.Retrying.{Timed, try-finishes}

-- The world is the time.
abbrev dial : Bytes → ℕ → ℕ × Bool
dial addr w = (w + 1, true)

abbrev call : Bytes → ℕ → ℕ × Option ℕ
call addr w = (w + 3, if ltb w 30 then none else some w)

abbrev expired : ℕ → Bool
expired w = ltb 100 w

abbrev wait : ℕ → ℕ → ℕ × Bool
wait backoff w = (w + backoff, ltb 100 w)

abbrev two_servers : Client
two_servers = new_client ((1 ∷ []) ∷ (2 ∷ []) ∷ []) (9 ∷ [])

timed : Timed dial call expired wait (λ w. w) 100
timed = record {
  dial_time = λ addr w. omega arith;
  call_time = λ addr w. omega arith;
  wait_time = λ backoff w h. ground (arith, h);
}

try-finishes_example : (try dial call expired wait 102 two_servers 0).2 ≢ unfinished
try-finishes_example = try-finishes dial call expired wait (λ w. w) 100 timed two_servers 0
