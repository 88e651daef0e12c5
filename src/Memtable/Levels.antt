-- ===== src/Memtable/Levels.antt =====
-- The levels of the skip list of storage/memtable.go: each is the list of the nodes that are taller.
use distkv.Prelude.{
  ℕ, zero, suc, ◌≡◌, refl, sym, ap, ◌∙◌, true, false, Option, none, some, List, [], ◌∷◌, ◌++◌,
  arith, ltb, ◌==◌, ==_iff, if◌then◌else◌, Bool-cases, inl, inr,
}
use distkv.IdSet.{contains}
use distkv.Memtable.Pointers.{link_levels}

abbrev pub Distinct : List ℕ → Type 0
Distinct [] = Unit
Distinct (x ∷ xs) = (contains xs x ≡ false) × Distinct xs

-- For the nodes' heights and a level: the first and the last taller node, and the level's pointers.
module _ (ht : ℕ → ℕ) (i : ℕ) where
  abbrev pub first_at : List ℕ → Option ℕ
  first_at [] = none
  first_at (x ∷ xs) = if ltb i (ht x) then some x else first_at xs

  abbrev pub last_at : ℕ → List ℕ → ℕ
  last_at u [] = u
  last_at u (x ∷ xs) = last_at (if ltb i (ht x) then x else u) xs

  abbrev pub Level : (ℕ → Option ℕ) → List ℕ → Type 0
  Level nx [] = Unit
  Level nx (x ∷ xs) = (ltb i (ht x) ≡ true → nx x ≡ first_at xs) × Level nx xs

  pub last_at-in : (u : ℕ) (xs after : List ℕ) → contains (u ∷ xs ++ after) (last_at u xs) ≡ true
  unfolding contains
  last_at-in u [] after = ground (arith, ==_iff u u)
  last_at-in u (x ∷ xs) after = elim (Bool-cases (ltb i (ht x))) [
    | inl tall ↦
        let h : contains (x ∷ xs ++ after) (last_at x xs) ≡ true = last_at-in x xs after in
        rw tall (ground (arith, h))
    | inr short ↦
        let h : contains (u ∷ xs ++ after) (last_at u xs) ≡ true = last_at-in u xs after in
        rw short (ground (arith, h))
  ]

  pub Level-kept :
      (nx nx' : ℕ → Option ℕ) (xs : List ℕ)
      → ((x : ℕ) → contains xs x ≡ true → nx' x ≡ nx x)
      → Level nx xs
      → Level nx' xs
  unfolding contains
  Level-kept nx nx' [] f v = tt
  Level-kept nx nx' (x ∷ xs) f v = (
    λ tall. f x (ground (arith, ==_iff x x)) ∙ v.0 tall,
    Level-kept nx nx' xs (λ y m. f y (ground (arith, m))) v.1,
  )

  -- The pointers of the level with n behind u.
  abbrev pub linked : ℕ → ℕ → (ℕ → Option ℕ) → ℕ → Option ℕ
  linked u n nx v = if u == v then some n else if n == v then nx u else nx v

  pub linked-Level :
      (xs after : List ℕ) (x n u : ℕ) (nx : ℕ → Option ℕ)
      → last_at x xs ≡ u
      → ltb i (ht n) ≡ true
      → Distinct (x ∷ xs ++ after)
      → contains (x ∷ xs ++ after) n ≡ false
      → nx x ≡ first_at (xs ++ after)
      → Level nx (xs ++ after)
      → (linked u n nx x ≡ first_at (xs ++ n ∷ after)) × Level (linked u n nx) (xs ++ n ∷ after)
  unfolding contains
  linked-Level [] after x n u nx own tall d out e v = (
    ground (arith, own, tall, ==_iff u x),
    (
      λ t. ground (arith, e, out, own, ap nx own, ==_iff u n, ==_iff x n, ==_iff n n),
      Level-kept nx (linked u n nx) after
          (λ y m. ground (arith, outside y m, absent y m, own, ==_iff u y, ==_iff x y, ==_iff n y))
          v,
    ),
  )
    where
      outside : (y : ℕ) → contains after y ≡ true → (x == y) ≡ false
      outside y m = elim (Bool-cases (x == y)) [
        | inl same ↦
            let s : x ≡ y = ground (arith, same, ==_iff x y) in
            let m' : contains after x ≡ true = rw s m in absurd (cc (m', d.0))
        | inr other ↦ other
      ]

      absent : (y : ℕ) → contains after y ≡ true → (n == y) ≡ false
      absent y m = elim (Bool-cases (n == y)) [
        | inl same ↦
            let s : n ≡ y = ground (arith, same, ==_iff n y) in
            let m' : contains after n ≡ true = rw s m in absurd (ground (arith, m', out))
        | inr other ↦ other
      ]
  linked-Level (y ∷ ys) after x n u nx own tall d out e v = elim (Bool-cases (ltb i (ht y))) [
    | inl taller ↦
        let next_y : nx y ≡ first_at (ys ++ after) = v.0 taller in
        let own1 : last_at y ys ≡ u = sym (rw taller refl) ∙ own in
        let (here, rest) =
          linked-Level ys after y n u nx own1 tall d.1 (ground (arith, out)) next_y v.1 in
        let inside = last_at-in y ys after in
        let apart : (u == x) ≡ false = elim (Bool-cases (u == x)) [
          | inl same ↦
              let s : last_at y ys ≡ x = own1 ∙ ground (arith, same, ==_iff u x) in
              let m : contains (y ∷ ys ++ after) x ≡ true = rw (sym s) inside in
              absurd (cc (m, d.0))
          | inr other ↦ other
        ] in
        let e1 : nx x ≡ some y = e ∙ rw taller refl in
        rw taller (ground (arith, apart, out, e1, ==_iff x n, ==_iff n x), (λ t. here, rest))
    | inr short ↦
        let e1 : nx x ≡ first_at (ys ++ after) = e ∙ rw short refl in
        let d1 : Distinct (x ∷ ys ++ after) = (ground (arith, d.0), d.1.1) in
        let (here, rest) =
          linked-Level ys after x n u nx (sym (rw short refl) ∙ own) tall d1 (ground (arith, out))
            e1 v.1 in
        rw short (here, (λ t. absurd (cc (t, short)), rest))
  ]

  -- A node that does not reach the level leaves it as it is.
  pub first_at-short :
      (xs after : List ℕ) (n : ℕ)
      → ltb i (ht n) ≡ false
      → first_at (xs ++ n ∷ after) ≡ first_at (xs ++ after)
  first_at-short [] after n h = rw h refl
  first_at-short (x ∷ xs) after n h =
      ap (λ o. if ltb i (ht x) then some x else o) (first_at-short xs after n h)

  pub Level-short :
      (xs after : List ℕ) (n : ℕ) (nx : ℕ → Option ℕ)
      → ltb i (ht n) ≡ false
      → Level nx (xs ++ after)
      → Level nx (xs ++ n ∷ after)
  Level-short [] after n nx h v = (λ t. absurd (cc (t, h)), v)
  Level-short (x ∷ xs) after n nx h v =
      (λ t. v.0 t ∙ sym (first_at-short xs after n h), Level-short xs after n nx h v.1)

-- What the loop of put writes: at each level below h, n is linked behind update[j].
pub link_levels-linked :
    (h : ℕ) (update : ℕ → ℕ) (n : ℕ) (next : ℕ → ℕ → Option ℕ) (v j : ℕ)
    → link_levels h update n next v j ≡ (
        if ltb j h
        then (if update j == v then some n else if n == v then next (update j) j else next v j)
        else next v j)
unfolding link_levels
link_levels-linked zero update n next v j = ground arith
link_levels-linked (suc i) update n next v j = elim (Bool-cases (i == j)) [
  | inl here ↦
      let e : i ≡ j = ground (arith, here, ==_iff i j) in
      let one = link_levels-linked i update n next (update i) i in
      let two = link_levels-linked i update n next v i in
      rw (sym e) (ground (arith, one, two, ==_iff i i))
  | inr other ↦ ground (arith, other, ==_iff i j, link_levels-linked i update n next v j)
]
