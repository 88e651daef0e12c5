-- ===== src/Harness/Leading.antt =====
-- How long the waits of harness/cluster.go look, and the node that Leader picks.
use distkv.Prelude.{
  ℕ, zero, suc, ◌+◌, ◌≤◌, ◌<◌, ◌≡◌, refl, sym, Bool, true, List, [], ◌∷◌, arith, ltb, Bool-cases,
  inl, inr,
}
use mathlib.Core.Path.{subst}
use distkv.Harness.{Cluster}
use distkv.Harness.Polling.{
  Look, hit, retry, stop, Waited, found, expired, unfinished, wait_until, reachable_leaders, single,
  leader,
}

module _ {W : Type 0} (clock : W → ℕ) (sleep : ℕ → W → W) where
  -- What a look may have found: it was before the deadline.
  abbrev pub FoundBy : {R : Type 0} → (W → W × Look R) → ℕ → W × Waited R → Type 0
  FoundBy look_at deadline (w, found r) = (x : W) × (look_at x ≡ (w, hit r)) × (clock x < deadline)
  FoundBy look_at deadline (w, expired) = Unit
  FoundBy look_at deadline (w, unfinished) = ⊥

  wait_until-FoundBy :
      {R : Type 0} (look_at : W → W × Look R) (pause fuel deadline : ℕ) (w : W)
      → ((x : W) → clock x ≤ clock (look_at x).0)
      → ((n : ℕ) (x : W) → clock x + n ≤ clock (sleep n x))
      → 0 < pause
      → deadline + 1 < fuel + clock w
      → 0 < fuel
      → FoundBy look_at deadline (wait_until clock sleep look_at pause fuel deadline w)
  unfolding wait_until
  wait_until-FoundBy {R = R} look_at pause zero deadline w goes sleeps p h f =
      absurd (omega (arith, f))
  wait_until-FoundBy {R = R} look_at pause (suc fuel) deadline w goes sleeps p h f =
      elim (Bool-cases (ltb (clock w) deadline)) [
        | inr late ↦ rw (wait_until, late) tt
        | inl early ↦ by_look (look_at w).1 refl early (λ x more some_fuel.
            wait_until-FoundBy look_at pause fuel deadline x goes sleeps p more some_fuel)
      ]
    where
      by_look :
          (seen : Look R)
          → (look_at w).1 ≡ seen
          → ltb (clock w) deadline ≡ true
          → ((x : W)
              → deadline + 1 < fuel + clock x
              → 0 < fuel
              → FoundBy look_at deadline (wait_until clock sleep look_at pause fuel deadline x))
          → FoundBy look_at deadline (wait_until clock sleep look_at pause (suc fuel) deadline w)
      by_look (hit r) e early rest = rw (wait_until, early, e) (w, cc e, ground (arith, early))
      by_look retry e early rest =
          let passed = goes w in
          let slept = sleeps pause (look_at w).0 in
          let again : wait_until clock sleep look_at pause (suc fuel) deadline w
              ≡ wait_until clock sleep look_at pause fuel deadline (sleep pause (look_at w).0) =
            rw (wait_until, early, e) refl in
          subst (FoundBy look_at deadline) (sym again) (
            rest (sleep pause (look_at w).0) (ground (arith, early, passed, slept, p, h))
              (ground (arith, early, h)))
      by_look stop e early rest = rw (wait_until, early, e) tt

  module _ (cluster : W → Cluster) (connected leads : ℕ → W → Bool) where
    -- A leader that is the only one among the live and reachable nodes at a moment in time.
    abbrev pub OnlyLeader : ℕ → W × Waited ℕ → Type 0
    OnlyLeader deadline (w, found id) =
        (reachable_leaders clock sleep cluster connected leads (cluster w).nodes w ≡ id ∷ [])
        × (clock w < deadline)
    OnlyLeader deadline (w, expired) = Unit
    OnlyLeader deadline (w, unfinished) = ⊥

    single-hit :
        (ids : List ℕ) (id : ℕ)
        → single clock sleep cluster connected leads ids ≡ hit id
        → ids ≡ id ∷ []
    unfolding single
    single-hit [] id h = cc h
    single-hit (j ∷ []) id h = cc h
    single-hit (j ∷ k ∷ js) id h = cc h

    -- Leader ends, when a sleep takes the time that it is given: after timeout + 2 looks at most. The
    -- node that it answers with was, at a moment before the deadline, the only one that led among
    -- the nodes that were live and reachable.
    pub leader-OnlyLeader :
        ((n : ℕ) (x : W) → clock x + n ≤ clock (sleep n x))
        → (timeout : ℕ) (w : W)
        → OnlyLeader
            (clock w + timeout)
            (leader clock sleep cluster connected leads (timeout + 2) timeout w)
    unfolding leader
    leader-OnlyLeader sleeps timeout w =
        by_result (leader clock sleep cluster connected leads (timeout + 2) timeout w) (
          wait_until-FoundBy
            (λ x. (
              x,
              single clock sleep cluster connected leads
                  (reachable_leaders clock sleep cluster connected leads (cluster x).nodes x),
            ))
            20 (timeout + 2) (clock w + timeout) w (λ x. omega arith) sleeps (omega arith)
            (omega arith) (omega arith))
      where
        by_result :
            (r : W × Waited ℕ)
            → FoundBy
                (λ x. (
                  x,
                  single clock sleep cluster connected leads
                      (reachable_leaders clock sleep cluster connected leads (cluster x).nodes x),
                ))
                (clock w + timeout)
                r
            → OnlyLeader (clock w + timeout) r
        by_result (v, found id) (x, e, early) =
            let here : x ≡ v = cc e in
            let one : single clock sleep cluster connected leads
                  (reachable_leaders clock sleep cluster connected leads (cluster x).nodes x)
                ≡ hit id =
              cc e in
            rw (sym here) (
              single-hit (reachable_leaders clock sleep cluster connected leads (cluster x).nodes x)
                  id one,
              early,
            )
        by_result (v, expired) b = tt
        by_result (v, unfinished) b = b
