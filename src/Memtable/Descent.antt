-- ===== src/Memtable/Descent.antt =====
-- The search of storage/memtable.go along the pointers: `update` has the last node before the key on
-- every level.
use distkv.Prelude.{
  ℕ, zero, suc, ◌≤◌, ◌<◌, ◌≡◌, refl, sym, ap, ◌∙◌, Bool, true, false, Option, some, List, [], ◌∷◌,
  ◌++◌, ◌||◌, arith, ltb, ◌==◌, ==_iff, if◌then◌else◌, Bool-cases, Option-cases, inl, inr, length,
  All,
}
use distkv.Codec.{Bytes}
use distkv.Text.{less}
use distkv.Memtable.Pointers.{SkipHeap, scan, find_update}
use distkv.Memtable.Levels.{first_at, last_at, Level}

-- Whether some node is taller.
abbrev pub has : (ℕ → ℕ) → ℕ → List ℕ → Bool
has ht i [] = false
has ht i (x ∷ xs) = ltb i (ht x) || has ht i xs

last_at-none : (ht : ℕ → ℕ) (i u : ℕ) (xs : List ℕ) → has ht i xs ≡ false → last_at ht i u xs ≡ u
last_at-none ht i u [] h = refl
last_at-none ht i u (x ∷ xs) h =
    let short : ltb i (ht x) ≡ false = ground (arith, h) in
    rw short (last_at-none ht i u xs (ground (arith, h)))

module _ (key : Bytes) (heap : SkipHeap) (after : List ℕ) where
  abbrev pub height_of : ℕ → ℕ
  height_of v = (heap.node v).height

  abbrev pub below : ℕ → Bool
  below v = less (heap.node v).key key

  -- The pointers of a level.
  abbrev pub at_level : ℕ → ℕ → Option ℕ
  at_level j v = heap.next v j

  abbrev pub Lows : List ℕ → Type 0
  Lows xs = All (λ v. below v ≡ true) xs

  abbrev pub Highs : List ℕ → Type 0
  Highs xs = All (λ v. below v ≡ false) xs

  first_at-high :
      (i y : ℕ) (xs : List ℕ) → Highs xs → first_at height_of i xs ≡ some y → below y ≡ false
  first_at-high i y [] h e = absurd (cc e)
  first_at-high i y (x ∷ xs) (h, hs) e = elim (Bool-cases (ltb i (height_of x))) [
    | inl tall ↦
        let s : some x ≡ some y = sym (rw tall refl) ∙ e in let q : x ≡ y = cc s in rw (sym q) h
    | inr short ↦
        let s : first_at height_of i xs ≡ some y = sym (rw short refl) ∙ e in
        first_at-high i y xs hs s
  ]

  -- With enough fuel the scan of a level ends at the last node before the key that reaches it.
  pub scan-last_at :
      (i : ℕ) (xs : List ℕ) (x fuel : ℕ)
      → length xs < fuel
      → Lows xs
      → Highs after
      → heap.next x i ≡ first_at height_of i (xs ++ after)
      → Level height_of i (at_level i) (xs ++ after)
      → scan key heap fuel i x ≡ last_at height_of i x xs
  unfolding scan
  scan-last_at i xs x zero f l h e v = absurd (omega (arith, f))
  scan-last_at i [] x (suc fuel) f l h e v = elim (Option-cases (heap.next x i)) [
    | inl end ↦ rw (scan, end) refl
    | inr (y, more) ↦
        let high : less (heap.node y).key key ≡ false = first_at-high i y after h (sym e ∙ more) in
        rw (scan, more) (rw high refl)
  ]
  scan-last_at i (y ∷ ys) x (suc fuel) f (l, ls) h e v = elim (Bool-cases (ltb i (height_of y))) [
    | inl tall ↦
        let more : heap.next x i ≡ some y = e ∙ rw tall refl in
        let low : less (heap.node y).key key ≡ true = l in
        rw tall (
          rw (scan, more)
            (rw low (scan-last_at i ys y fuel (omega (arith, f)) ls h (v.0 tall) v.1)))
    | inr short ↦
        let e1 : heap.next x i ≡ first_at height_of i (ys ++ after) = e ∙ rw short refl in
        rw short (scan-last_at i ys x (suc fuel) (omega (arith, f)) ls h e1 v.1)
  ]

  -- What lies behind the last node of a level before the key.
  record Reached (i : ℕ) (xs : List ℕ) : Type 0 where
    at : ℕ
    rest : List ℕ
    last : (x j : ℕ) → j ≤ i → last_at height_of j x xs ≡ last_at height_of j at rest
    none_taller : has height_of i rest ≡ false
    pointers : (j : ℕ) → j ≤ i → heap.next at j ≡ first_at height_of j (rest ++ after)
    levels : (j : ℕ) → Level height_of j (at_level j) (rest ++ after)
    lows : Lows rest
    shorter : length rest ≤ length xs

  taller_on : (i j h : ℕ) → j ≤ i → ltb i h ≡ true → ltb j h ≡ true
  taller_on i j h p q = ground (arith, p, q)

  reach :
      (i : ℕ) (xs : List ℕ)
      → has height_of i xs ≡ true
      → Lows xs
      → ((j : ℕ) → Level height_of j (at_level j) (xs ++ after))
      → Reached i xs
  reach i [] t l v = absurd (cc t)
  reach i (y ∷ ys) t (l, ls) v = elim (Bool-cases (has height_of i ys)) [
    | inl further ↦
        let r = reach i ys further ls (λ j. (v j).1) in
        record {
          at = r.at;
          rest = r.rest;
          last = λ x j p. r.last (if ltb j (height_of y) then y else x) j p;
          none_taller = r.none_taller;
          pointers = r.pointers;
          levels = r.levels;
          lows = r.lows;
          shorter = omega (arith, r.shorter);
        }
    | inr last_one ↦
        let tall : ltb i (height_of y) ≡ true = ground (arith, t, last_one) in
        record {
          at = y;
          rest = ys;
          last = λ x j p.
              (let q : ltb j (height_of y) ≡ true = taller_on i j (height_of y) p tall in
                rw q refl);
          none_taller = last_one;
          pointers = λ j p. (v j).0 (taller_on i j (height_of y) p tall);
          levels = λ j. (v j).1;
          lows = ls;
          shorter = omega arith;
        }
  ]

  -- The loop over the levels leaves in update[j], for the levels below the number, the last node
  -- before the key that reaches level j.
  pub find_update-last_at :
      (i fuel x : ℕ) (xs : List ℕ) (update : ℕ → ℕ) (j : ℕ)
      → length xs < fuel
      → Lows xs
      → Highs after
      → ((k : ℕ) → k < i → heap.next x k ≡ first_at height_of k (xs ++ after))
      → ((k : ℕ) → Level height_of k (at_level k) (xs ++ after))
      → find_update key heap fuel i x update j
        ≡ (if ltb j i then last_at height_of j x xs else update j)
  unfolding find_update
  find_update-last_at zero fuel x xs update j f l h e v = ground arith
  find_update-last_at (suc i) fuel x xs update j f l h e v =
      let x1 = scan key heap fuel i x in
      let update1 : ℕ → ℕ = λ k. if i == k then x1 else update k in
      let ends : x1 ≡ last_at height_of i x xs =
        scan-last_at i xs x fuel f l h (e i (omega arith)) (v i) in
      elim (Bool-cases (has height_of i xs)) [
        | inl moved ↦
            let r = reach i xs moved l v in
            let there : x1 ≡ r.at =
              ends
              ∙ r.last x i (omega arith)
              ∙ last_at-none height_of i r.at r.rest r.none_taller in
            let ih =
              find_update-last_at i fuel x1 r.rest update1 j (omega (arith, f, r.shorter)) r.lows h
                (λ k p. ap (λ w. heap.next w k) there ∙ r.pointers k (omega (arith, p))) r.levels in
            ih ∙ elim (Bool-cases (ltb j i)) [
              | inl lower ↦
                  let same : last_at height_of j x xs ≡ last_at height_of j x1 r.rest =
                    r.last x j (ground (arith, lower))
                    ∙ ap (λ w. last_at height_of j w r.rest) (sym there) in
                  ground (arith, lower, same)
              | inr upper ↦ here upper ends (last_at height_of j x1 r.rest)
            ]
        | inr stays ↦
            let there : x1 ≡ x = ends ∙ last_at-none height_of i x xs stays in
            let ih =
              find_update-last_at i fuel x1 xs update1 j f l h
                (λ k p. ap (λ w. heap.next w k) there ∙ e k (omega (arith, p))) v in
            ih ∙ elim (Bool-cases (ltb j i)) [
              | inl lower ↦
                  let same : last_at height_of j x1 xs ≡ last_at height_of j x xs =
                    ap (λ w. last_at height_of j w xs) there in
                  ground (arith, lower, same)
              | inr upper ↦ here upper ends (last_at height_of j x1 xs)
            ]
      ]
    where
      here :
          ltb j i ≡ false
          → scan key heap fuel i x ≡ last_at height_of i x xs
          → (y : ℕ)
          → (if ltb j i then y else if i == j then scan key heap fuel i x else update j)
            ≡ (if ltb j (suc i) then last_at height_of j x xs else update j)
      here upper ends y = elim (Bool-cases (i == j)) [
        | inl own ↦
            let s : i ≡ j = ground (arith, own, ==_iff i j) in
            let ends' : scan key heap fuel i x ≡ last_at height_of j x xs =
              ends ∙ ap (λ k. last_at height_of k x xs) s in
            ground (arith, upper, own, s, ends')
        | inr other ↦ ground (arith, upper, other, ==_iff i j)
      ]
