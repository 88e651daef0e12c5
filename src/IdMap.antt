-- ===== src/IdMap.antt =====
-- Go's map[uint64]V as an association list. A range over such a map has no order; the source reads
-- these maps by key only.
use distkv.Prelude.{
  ℕ, ◌≡◌, ◌≢◌, ◌⊎◌, inl, inr, ◌∙◌, Bool-cases, Option, none, some, List, [], ◌∷◌, arith, ◌==◌,
  if◌then◌else◌,
}

module _ {ℓ} {V : Type ℓ} where
  -- `v, ok := m[id]`
  unfoldable pub look : ℕ → List (ℕ × V) → Option V
  look id [] = none
  look id ((j, v) ∷ m) = if j == id then some v else look id m

  -- `delete(m, id)`
  unfoldable pub del : ℕ → List (ℕ × V) → List (ℕ × V)
  del id [] = []
  del id ((j, v) ∷ m) = let rest = del id m in if j == id then rest else (j, v) ∷ rest

  -- `m[id] = v`
  unfoldable pub put : ℕ → V → List (ℕ × V) → List (ℕ × V)
  put id v [] = (id, v) ∷ []
  put id v ((j, w) ∷ m) = if j == id then (id, v) ∷ m else (j, w) ∷ put id v m

  pub look-del :
      (id k : ℕ) (m : List (ℕ × V)) → look k (del id m) ≡ (if id == k then none else look k m)
  unfolding look del
  look-del id k [] = ground arith
  look-del id k ((j, v) ∷ m) = ground (arith, look-del id k m)

  pub look-put :
      (id k : ℕ) (v : V) (m : List (ℕ × V))
      → look k (put id v m) ≡ (if id == k then some v else look k m)
  unfolding look put
  look-put id k v [] = ground arith
  look-put id k v ((j, w) ∷ m) = ground (arith, look-put id k v m)

  pub put_kept :
      (id k : ℕ) (v old : V) (m : List (ℕ × V))
      → look id m ≢ some old
      → look k m ≡ some old
      → look k (put id v m) ≡ some old
  put_kept id k v old m apart h = elim (Bool-cases (id == k)) [
    | inl here ↦ let e : id ≡ k = ground (arith, here) in absurd (apart (rw e h))
    | inr there ↦ look-put id k v m ∙ rw there h
  ]

  -- Where a value that is read after a change comes from.
  pub put_origin :
      (id k : ℕ) (v old : V) (m : List (ℕ × V))
      → look k (put id v m) ≡ some old
      → ((id ≡ k) × (some v ≡ some old)) ⊎ (look k m ≡ some old)
  put_origin id k v old m h = elim (Bool-cases (id == k)) [
    | inl here ↦ inl (ground (arith, here), rw (look-put id k v m, here) at h)
    | inr there ↦ inr (rw (look-put id k v m, there) at h)
  ]

  pub del_origin :
      (id k : ℕ) (old : V) (m : List (ℕ × V))
      → look k (del id m) ≡ some old
      → (id ≢ k) × (look k m ≡ some old)
  del_origin id k old m h = elim (Bool-cases (id == k)) [
    | inl here ↦ let gone : none ≡ some old = rw (look-del id k m, here) at h in absurd (cc gone)
    | inr there ↦ (ground (arith, there), rw (look-del id k m, there) at h)
  ]

  pub look-put_own : (id : ℕ) (v : V) (m : List (ℕ × V)) → look id (put id v m) ≡ some v
  look-put_own id v m = ground (arith, look-put id id v m)
