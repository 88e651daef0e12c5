-- ===== src/Memtable/Splicing.antt =====
-- Lists of the addresses of skip list nodes, storage/memtable.go: one address more, and heights and
-- nodes that differ at an address that is not in the list.
use distkv.Prelude.{
  ℕ, ◌≡◌, refl, sym, ap, ◌∙◌, true, false, Option, some, List, [], ◌∷◌, ◌++◌, arith, ltb, ◌==◌,
  ==_iff, if◌then◌else◌, Bool-cases, inl, inr,
}
use distkv.IdSet.{contains}
use distkv.Memtable.{SkipNode}
use distkv.Memtable.Levels.{Distinct, first_at, last_at, Level}

contains-mid :
    (xs ys : List ℕ) (n v : ℕ)
    → contains (xs ++ n ∷ ys) v ≡ (if n == v then true else contains (xs ++ ys) v)
unfolding contains
contains-mid [] ys n v = refl
contains-mid (x ∷ xs) ys n v = ground (arith, contains-mid xs ys n v)

pub contains-append :
    (xs ys : List ℕ) (v : ℕ)
    → contains (xs ++ ys) v ≡ (if contains xs v then true else contains ys v)
unfolding contains
contains-append [] ys v = refl
contains-append (x ∷ xs) ys v = ground (arith, contains-append xs ys v)

pub Distinct-mid :
    (xs ys : List ℕ) (n : ℕ)
    → Distinct (xs ++ ys)
    → contains (xs ++ ys) n ≡ false
    → Distinct (xs ++ n ∷ ys)
unfolding contains
Distinct-mid [] ys n d out = (out, d)
Distinct-mid (x ∷ xs) ys n (d, ds) out = (
  ground (arith, contains-mid xs ys n x, d, out, ==_iff n x, ==_iff x n),
  Distinct-mid xs ys n ds (ground (arith, out)),
)

-- Two heights that agree on a list.
module _ (ht ht' : ℕ → ℕ) (i : ℕ) where
  pub first_at-agree :
      (xs : List ℕ)
      → ((v : ℕ) → contains xs v ≡ true → ht' v ≡ ht v)
      → first_at ht' i xs ≡ first_at ht i xs
  unfolding contains
  first_at-agree [] f = refl
  first_at-agree (x ∷ xs) f = rw (f x (ground (arith, ==_iff x x))) (
      ap (λ o. if ltb i (ht x) then some x else o)
        (first_at-agree xs (λ v m. f v (ground (arith, m)))))

  pub last_at-agree :
      (u : ℕ) (xs : List ℕ)
      → ((v : ℕ) → contains xs v ≡ true → ht' v ≡ ht v)
      → last_at ht' i u xs ≡ last_at ht i u xs
  unfolding contains
  last_at-agree u [] f = refl
  last_at-agree u (x ∷ xs) f =
      rw (f x (ground (arith, ==_iff x x)))
        (last_at-agree (if ltb i (ht x) then x else u) xs (λ v m. f v (ground (arith, m))))

  pub Level-agree :
      (nx : ℕ → Option ℕ) (xs : List ℕ)
      → ((v : ℕ) → contains xs v ≡ true → ht' v ≡ ht v)
      → Level ht i nx xs
      → Level ht' i nx xs
  unfolding contains
  Level-agree nx [] f v = tt
  Level-agree nx (x ∷ xs) f v = (
    λ t.
        (let tall : ltb i (ht x) ≡ true = ap (ltb i) (sym (f x (ground (arith, ==_iff x x)))) ∙ t in
          v.0 tall ∙ sym (first_at-agree xs (λ w m. f w (ground (arith, m))))),
    Level-agree nx xs (λ w m. f w (ground (arith, m))) v.1,
  )

-- The pointer behind the last node before a place is the one to the first node behind it.
pub next-last_at :
    (ht : ℕ → ℕ) (i : ℕ) (nx : ℕ → Option ℕ) (x : ℕ) (xs after : List ℕ)
    → nx x ≡ first_at ht i (xs ++ after)
    → Level ht i nx (xs ++ after)
    → nx (last_at ht i x xs) ≡ first_at ht i after
next-last_at ht i nx x [] after e v = e
next-last_at ht i nx x (y ∷ ys) after e v = elim (Bool-cases (ltb i (ht y))) [
  | inl tall ↦ rw tall (next-last_at ht i nx y ys after (v.0 tall) v.1)
  | inr short ↦ rw short (next-last_at ht i nx x ys after (e ∙ rw short refl) v.1)
]

-- The nodes at the addresses of a list.
abbrev pub nodes_at : (ℕ → SkipNode) → List ℕ → List SkipNode
nodes_at f [] = []
nodes_at f (x ∷ xs) = f x ∷ nodes_at f xs

pub nodes_at-agree :
    (f g : ℕ → SkipNode) (xs : List ℕ)
    → ((v : ℕ) → contains xs v ≡ true → g v ≡ f v)
    → nodes_at g xs ≡ nodes_at f xs
unfolding contains
nodes_at-agree f g [] same = refl
nodes_at-agree f g (x ∷ xs) same =
    rw
      (
        same x (ground (arith, ==_iff x x)),
        nodes_at-agree f g xs (λ v m. same v (ground (arith, m))),
      )
      refl

pub nodes_at-append :
    (f : ℕ → SkipNode) (xs ys : List ℕ) → nodes_at f (xs ++ ys) ≡ nodes_at f xs ++ nodes_at f ys
nodes_at-append f [] ys = refl
nodes_at-append f (x ∷ xs) ys = ap (λ l. f x ∷ l) (nodes_at-append f xs ys)
