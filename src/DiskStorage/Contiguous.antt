-- ===== src/DiskStorage/Contiguous.antt =====
-- The log of raft/storage.go: its indices have no gap, which the reads by position rely on.
use distkv.Prelude.{
  ℕ, ◌+◌, ◌≤◌, ◌<◌, ◌≡◌, refl, sym, Bool, true, false, List, [], ◌∷◌, ◌++◌, arith, ltb, leb,
  if◌then◌else◌, ◌&&◌, Bool-cases, inl, inr, length,
}
use mathlib.Core.Path.{subst}
use distkv.DiskStorage.{
  DiskStorage, Entry, EntryProto, truncate, last_of, last_index, append_loop, drop_suffix,
  append_entries, sync_log, encode_entry, truncate_record,
}
use distkv.Wal.{append}

-- The entries' indices count on from `i`.
abbrev pub IsContiguous : ℕ → List Entry → Type 0
IsContiguous i [] = Unit
IsContiguous i (e ∷ es) = (e.index ≡ i + 1) × IsContiguous e.index es

pub contiguous_le : (i : ℕ) (es : List Entry) → IsContiguous i es → i ≤ last_of i es
unfolding last_of
contiguous_le i [] c = omega arith
contiguous_le i (e ∷ es) c = omega (arith, c.0, contiguous_le e.index es c.1)

snoc-IsContiguous :
    (i : ℕ) (es : List Entry) (e : Entry)
    → IsContiguous i es
    → e.index ≡ last_of i es + 1
    → IsContiguous i (es ++ e ∷ []) × (last_of i (es ++ e ∷ []) ≡ e.index)
unfolding last_of
snoc-IsContiguous i [] e c h = ((h, tt), refl)
snoc-IsContiguous i (x ∷ xs) e c h =
    let (c', l) = snoc-IsContiguous x.index xs e c.1 h in ((c.0, c'), l)

truncate_below :
    (i from : ℕ) (es : List Entry) → IsContiguous i es → from ≤ i + 1 → truncate from es ≡ []
unfolding truncate
truncate_below i from [] c h = refl
truncate_below i from (e ∷ es) c h = ground (arith, truncate_below e.index from es c.1)

-- What `truncate` makes of a head below the cut.
truncate_kept :
    (from : ℕ) (e : Entry) (es : List Entry)
    → e.index < from
    → truncate from (e ∷ es) ≡ e ∷ truncate from es
unfolding truncate
truncate_kept from e es h = ground arith

truncate-IsContiguous :
    (i from : ℕ) (es : List Entry)
    → IsContiguous i es
    → i < from
    → from ≤ last_of i es + 1
    → IsContiguous i (truncate from es) × (last_of i (truncate from es) + 1 ≡ from)
unfolding last_of truncate
truncate-IsContiguous i from [] c lo hi = (tt, omega arith)
truncate-IsContiguous i from (e ∷ es) c lo hi = elim (Bool-cases (ltb e.index from)) [
  | inl below ↦
      let (c', l) = truncate-IsContiguous e.index from es c.1 (ground arith) hi in
      subst (λ t. IsContiguous i t × (last_of i t + 1 ≡ from))
        (sym (truncate_kept from e es (ground arith))) ((c.0, c'), l)
  | inr above ↦
      subst (λ t. IsContiguous i t × (last_of i t + 1 ≡ from))
        (sym (truncate_below i from (e ∷ es) c (ground (arith, c.0)))) (tt, ground (arith, c.0))
]

-- A property of both branches.
pub both_branches {ℓ κ} :
    {A : Type ℓ} (P : A → Type κ) (b : Bool) (x y : A)
    → (b ≡ true → P x)
    → (b ≡ false → P y)
    → P (if b then x else y)
both_branches P true x y f g = f refl
both_branches P false x y f g = g refl

last_of_empty : (i : ℕ) (es : List Entry) → length es ≡ 0 → last_of i es ≡ i
unfolding last_of
last_of_empty i [] h = refl
last_of_empty i (e ∷ es) h = absurd (omega arith)

abbrev pub NoGap : DiskStorage → Type 0
NoGap s = IsContiguous s.snap_index s.log

module _ (proto : EntryProto) where
  append_loop-NoGap :
      (es : List Entry) (s : DiskStorage)
      → NoGap s
      → IsContiguous (last_index s) es
      → NoGap (append_loop proto es s).0
  unfolding append_loop
  append_loop-NoGap [] s g c = g
  append_loop-NoGap (e ∷ es) s g c =
      let s1 : DiskStorage = record s {
        wal = (append s.wal (encode_entry proto e)).0;
        log = s.log ++ e ∷ [];
      } in
      let (g1, l) = snoc-IsContiguous s.snap_index s.log e g c.0 in
      let rest : NoGap (append_loop proto es s1).0 =
        append_loop-NoGap es s1 g1 (subst (λ i. IsContiguous i es) (sym l) c.1) in
      both_branches (λ r. NoGap r.0) (append s.wal (encode_entry proto e)).1
        (append_loop proto es s1)
        (record s { wal = (append s.wal (encode_entry proto e)).0 }, false) (λ h. rest) (λ h. g)

  drop_suffix-NoGap :
      (s : DiskStorage) (first : ℕ)
      → NoGap s
      → s.snap_index < first
      → first ≤ last_index s + 1
      → NoGap (drop_suffix s first).0
        × ((drop_suffix s first).1 ≡ true → last_index (drop_suffix s first).0 + 1 ≡ first)
  unfolding drop_suffix
  drop_suffix-NoGap s first g lo hi =
      let t = truncate-IsContiguous s.snap_index first s.log g lo hi in
      let w = append s.wal (truncate_record first) in
      let P : DiskStorage × Bool → Type 0 =
        λ r. NoGap r.0 × (r.1 ≡ true → last_index r.0 + 1 ≡ first) in
      both_branches P (ltb 0 (length s.log) && leb first (last_index s))
        (if w.1
          then (record s { wal = w.0; log = truncate first s.log }, true)
          else (record s { wal = w.0 }, false))
        (s, true)
        (λ h.
          both_branches P w.1 (record s { wal = w.0; log = truncate first s.log }, true)
            (record s { wal = w.0 }, false) (λ h'. (t.0, λ q. t.1)) (λ h'. (g, λ q. cc)))
        (λ h. (g, λ q. ground (arith, last_of_empty s.snap_index s.log)))

  pub append_entries-NoGap :
      (s : DiskStorage) (k : ℕ) (es : List Entry)
      → NoGap s
      → IsContiguous k es
      → s.snap_index ≤ k
      → k ≤ last_index s
      → NoGap (append_entries proto s es).0
  unfolding append_entries
  append_entries-NoGap s k [] g c lo hi = g
  append_entries-NoGap s k (e ∷ es) g c lo hi =
      let (g1, l) = drop_suffix-NoGap s e.index g (omega (arith, c.0)) (omega (arith, c.0)) in
      let s1 : DiskStorage = (drop_suffix s e.index).0 in
      both_branches (λ r. NoGap r.0) (drop_suffix s e.index).1 (append_loop proto (e ∷ es) s1)
        (s1, false) (λ h. append_loop-NoGap (e ∷ es) s1 g1 (sym (l h), c.1)) (λ h. g1)

pub same-NoGap :
    (s s' : DiskStorage) → s'.log ≡ s.log → s'.snap_index ≡ s.snap_index → NoGap s → NoGap s'
same-NoGap s s' e f g = rw (e, f) g

pub sync_log-NoGap : (s : DiskStorage) → NoGap s → NoGap (sync_log s).0
sync_log-NoGap s g = same-NoGap s (sync_log s).0 (kept s).0 (kept s).1 g
  where
    kept :
        (t : DiskStorage)
        → ((sync_log t).0.log ≡ t.log) × ((sync_log t).0.snap_index ≡ t.snap_index)
    kept t = unfold sync_log in ground arith
