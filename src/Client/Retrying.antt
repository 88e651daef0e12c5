-- ===== src/Client/Retrying.antt =====
-- The loops of client/client.go: that they end, and what an answer says.
use distkv.Prelude.{
  ℕ, zero, suc, ◌+◌, ◌≤◌, ◌<◌, ◌≡◌, ◌≢◌, refl, sym, ap, ◌∙◌, Bool, true, false, Option, some, List,
  [], ◌∷◌, arith, Bool-cases, Option-cases, inl, inr,
}
use mathlib.Core.Path.{subst}
use distkv.Codec.{Bytes}
use distkv.Client.{
  Client, Result, answered, out_of_time, all_failed, unfinished, conn, forget, order, next_backoff,
  try_each, try_loop, try,
}

abbrev finished : {R : Type 0} → Result R → Bool
finished (answered r) = true
finished out_of_time = true
finished all_failed = true
finished unfinished = false

next_backoff_pos : (b : ℕ) → 0 < b → 0 < next_backoff b
unfolding next_backoff
next_backoff_pos b h = ground (arith, h)

module _ {W R : Type 0} (dial : Bytes → W → W × Bool) (call : Bytes → W → W × Option R)
    (expired : W → Bool) (wait : ℕ → W → W × Bool) where
  -- An answer of the address that is then the leader.
  abbrev pub FromLeader : Client → Result R → Type 0
  FromLeader c (answered r) = (w : W) × ((call c.leader w).1 ≡ some r)
  FromLeader c out_of_time = Unit
  FromLeader c all_failed = Unit
  FromLeader c unfinished = Unit

  try_each-FromLeader :
      (addrs : List Bytes) (c : Client) (w : W)
      → FromLeader
          (try_each dial call expired wait addrs c w).0
          (try_each dial call expired wait addrs c w).2
  unfolding try_each
  try_each-FromLeader [] c w = tt
  try_each-FromLeader (addr ∷ addrs) c w =
      let (c1, w1, ok) = conn dial call expired wait addr c w in
      elim (Bool-cases (expired w)) [
        | inl late ↦ rw late tt
        | inr early ↦ elim (Bool-cases ok) [
          | inr refused ↦ rw (early, refused) (try_each-FromLeader addrs c1 w1)
          | inl made ↦ elim (Option-cases (call addr w1).1) [
            | inl silent ↦
                rw (early, made, silent)
                  (try_each-FromLeader addrs (forget addr c1) (call addr w1).0)
            | inr (r, reply) ↦ rw (early, made, reply) (w1, reply)
          ]
        ]
      ]

  try_loop-FromLeader :
      (fuel backoff : ℕ) (c : Client) (w : W)
      → FromLeader
          (try_loop dial call expired wait fuel backoff c w).0
          (try_loop dial call expired wait fuel backoff c w).2
  unfolding try_loop
  try_loop-FromLeader zero backoff c w = tt
  try_loop-FromLeader (suc fuel) backoff c w =
      by_result (try_each dial call expired wait (order c) c w).2 refl
        (λ b c' w'. try_loop-FromLeader fuel b c' w')
    where
      by_result :
          (res : Result R)
          → (try_each dial call expired wait (order c) c w).2 ≡ res
          → ((b : ℕ) (c' : Client) (w' : W)
              → FromLeader
                  (try_loop dial call expired wait fuel b c' w').0
                  (try_loop dial call expired wait fuel b c' w').2)
          → FromLeader
              (try_loop dial call expired wait (suc fuel) backoff c w).0
              (try_loop dial call expired wait (suc fuel) backoff c w).2
      by_result (answered r) h rest =
          rw (try_loop, h)
            (subst (FromLeader (try_each dial call expired wait (order c) c w).0) h
              (try_each-FromLeader (order c) c w))
      by_result out_of_time h rest = rw (try_loop, h) tt
      by_result unfinished h rest = rw (try_loop, h) tt
      by_result all_failed h rest =
          let (c1, w1, result) = try_each dial call expired wait (order c) c w in
          let (w2, over) = wait backoff w1 in
          elim (Bool-cases over) [
            | inl stop ↦ rw (try_loop, h, stop) tt
            | inr on ↦ rw (try_loop, h, on) (rest (next_backoff backoff) c1 w2)
          ]

  -- When try succeeds, its answer is one of the address that it then takes for the leader.
  pub try-FromLeader :
      (fuel : ℕ) (c : Client) (w : W)
      → FromLeader (try dial call expired wait fuel c w).0 (try dial call expired wait fuel c w).2
  unfolding try
  try-FromLeader fuel c w = try_loop-FromLeader fuel 20 c w

  -- What the loops need of time: calls take some, and the timer of a wait is ahead of the context
  -- only before the deadline.
  pub record Timed (clock : W → ℕ) (deadline : ℕ) : Type 0 where
    pub dial_time : (addr : Bytes) (w : W) → clock w ≤ clock (dial addr w).0
    pub call_time : (addr : Bytes) (w : W) → clock w ≤ clock (call addr w).0
    pub wait_time :
        (backoff : ℕ) (w : W)
        → (wait backoff w).1 ≡ false
        → (clock w ≤ deadline) × (clock w + backoff ≤ clock (wait backoff w).0)

  module _ (clock : W → ℕ) (deadline : ℕ) (t : Timed clock deadline) where
    conn_time :
        (addr : Bytes) (c : Client) (w : W)
        → clock w ≤ clock (conn dial call expired wait addr c w).1
    unfolding conn
    conn_time addr c w = ground (arith, t.dial_time addr w)

    try_each_time :
        (addrs : List Bytes) (c : Client) (w : W)
        → (clock w ≤ clock (try_each dial call expired wait addrs c w).1)
          × (finished (try_each dial call expired wait addrs c w).2 ≡ true)
    unfolding try_each
    try_each_time [] c w = (omega arith, refl)
    try_each_time (addr ∷ addrs) c w =
        let (c1, w1, ok) = conn dial call expired wait addr c w in
        let made_at : clock w ≤ clock w1 = conn_time addr c w in
        let called_at : clock w1 ≤ clock (call addr w1).0 = t.call_time addr w1 in
        let skipped = try_each_time addrs c1 w1 in
        let retried = try_each_time addrs (forget addr c1) (call addr w1).0 in
        elim (Bool-cases (expired w)) [
          | inl late ↦ rw late (omega arith, refl)
          | inr early ↦ elim (Bool-cases ok) [
            | inr refused ↦ rw (early, refused) (omega (arith, made_at, skipped.0), skipped.1)
            | inl made ↦ elim (Option-cases (call addr w1).1) [
              | inl silent ↦
                  rw (early, made, silent) (omega (arith, made_at, called_at, retried.0), retried.1)
              | inr (r, reply) ↦ rw (early, made, reply) (omega (arith, made_at, called_at), refl)
            ]
          ]
        ]

    try_loop_finishes :
        (fuel backoff : ℕ) (c : Client) (w : W)
        → 0 < fuel
        → 0 < backoff
        → deadline + 1 < fuel + clock w
        → finished (try_loop dial call expired wait fuel backoff c w).2 ≡ true
    unfolding try_loop
    try_loop_finishes zero backoff c w f b h = ground (arith, f)
    try_loop_finishes (suc fuel) backoff c w f b h =
        by_result (try_each dial call expired wait (order c) c w).2 refl (λ c' w' more h'.
          try_loop_finishes fuel (next_backoff backoff) c' w' more (next_backoff_pos backoff b) h')
      where
        by_result :
            (res : Result R)
            → (try_each dial call expired wait (order c) c w).2 ≡ res
            → ((c' : Client) (w' : W)
                → 0 < fuel
                → deadline + 1 < fuel + clock w'
                → finished (try_loop dial call expired wait fuel (next_backoff backoff) c' w').2
                  ≡ true)
            → finished (try_loop dial call expired wait (suc fuel) backoff c w).2 ≡ true
        by_result (answered r) e rest = rw (try_loop, e) refl
        by_result out_of_time e rest = rw (try_loop, e) refl
        by_result unfinished e rest =
            let none_left : true ≡ false = sym (try_each_time (order c) c w).1 ∙ ap finished e in
            cc none_left
        by_result all_failed e rest =
            let (c1, w1, result) = try_each dial call expired wait (order c) c w in
            let (w2, over) = wait backoff w1 in
            let went : clock w ≤ clock w1 = (try_each_time (order c) c w).0 in
            elim (Bool-cases over) [
              | inl stop ↦ rw (try_loop, e, stop) refl
              | inr on ↦
                  let waited : (clock w1 ≤ deadline) × (clock w1 + backoff ≤ clock w2) =
                    t.wait_time backoff w1 on in
                  rw (try_loop, e, on)
                    (rest c1 w2 (omega (arith, went, waited.0, h))
                      (omega (arith, went, waited.0, waited.1, h, b)))
            ]

    -- The loop over the rounds ends, however the addresses answer, when time passes as Timed says:
    -- rounds to the number of the deadline and two more are enough.
    pub try-finishes :
        (c : Client) (w : W) → (try dial call expired wait (deadline + 2) c w).2 ≢ unfinished
    unfolding try
    try-finishes c w h =
        let done : finished (try_loop dial call expired wait (deadline + 2) 20 c w).2 ≡ true =
          try_loop_finishes (deadline + 2) 20 c w (omega arith) (omega arith) (omega arith) in
        let none_left : true ≡ false = sym done ∙ ap finished h in cc none_left
