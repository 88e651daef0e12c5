-- ===== src/Harness/Consistency.antt =====
-- What CheckConsistency of harness/cluster.go decides.
use distkv.Prelude.{
  ℕ, ◌≡◌, ◌≢◌, inl, inr, refl, sym, ap, ◌∙◌, true, false, some, List, [], ◌∷◌, Bool-cases,
  Option-cases, All,
}
use mathlib.Core.List.{Memᴰ}
use distkv.Codec.{Bytes}
use distkv.Text.{same, same_refl, eq_of_same}
use distkv.IdMap.{look, put, look-put_own, put_origin, put_kept}
use distkv.Harness.{
  AppliedEntry, Cluster, Verdict, consistent, divergence, applied_by, check_entries, check_nodes,
  check_consistency,
}

-- Every entry is the one that `seen` has at its index.
abbrev pub Holds : List (ℕ × Bytes) → AppliedEntry → Type 0
Holds seen e = look e.index seen ≡ some e.content

-- `seen` has grown: what it had, it has.
abbrev pub Grows : List (ℕ × Bytes) → List (ℕ × Bytes) → Type 0
Grows seen later = (i : ℕ) (b : Bytes) → look i seen ≡ some b → look i later ≡ some b

all_member : {A : Type 0} (P : A → Type 0) (xs : List A) (x : A) → All P xs → Memᴰ x xs → P x
all_member P [] x a m = elim m [ ]
all_member P (y ∷ ys) x a (Memᴰ.head e) = rw e a.0
all_member P (y ∷ ys) x a (Memᴰ.tail m) = all_member P ys x a.1 m

member-All : {A : Type 0} (P : A → Type 0) (xs : List A) → ((x : A) → Memᴰ x xs → P x) → All P xs
member-All P [] f = tt
member-All P (x ∷ xs) f = (f x (Memᴰ.head refl), member-All P xs (λ y m. f y (Memᴰ.tail m)))

Holds-later :
    (seen later : List (ℕ × Bytes)) (es : List AppliedEntry)
    → Grows seen later
    → All (Holds seen) es
    → All (Holds later) es
Holds-later seen later [] g a = tt
Holds-later seen later (e ∷ es) g a = (g e.index e.content a.0, Holds-later seen later es g a.1)

-- `R` says which entries a node has applied.
module _ (R : ℕ → ℕ → Bytes → Type 0) where
  abbrev Known : List (ℕ × Bytes) → Type 0
  Known seen = (i : ℕ) (b : Bytes) → look i seen ≡ some b → (m : ℕ) × R m i b

  abbrev EntriesResult : List AppliedEntry → List (ℕ × Bytes) → Verdict → Type 0
  EntriesResult es seen (consistent seen1 owner1) =
      Grows seen seen1 × All (Holds seen1) es × Known seen1
  EntriesResult es seen (divergence i n a b o) = (a ≢ b) × R n i a × ((m : ℕ) × R m i b)

  extend :
      (e : AppliedEntry) (es : List AppliedEntry) (seen seen1 : List (ℕ × Bytes)) (v : Verdict)
      → Grows seen seen1
      → Holds seen1 e
      → EntriesResult es seen1 v
      → EntriesResult (e ∷ es) seen v
  extend e es seen seen1 (consistent seen2 owner2) g h (g2, a, k) =
      (λ i b x. g2 i b (g i b x), (g2 e.index e.content h, a), k)
  extend e es seen seen1 (divergence i n a b o) g h r = r

  check_entries-EntriesResult :
      (id : ℕ) (es : List AppliedEntry) (seen : List (ℕ × Bytes)) (owner : List (ℕ × ℕ))
      → All (λ e. R id e.index e.content) es
      → Known seen
      → EntriesResult es seen (check_entries id es seen owner)
  unfolding check_entries
  check_entries-EntriesResult id [] seen owner r k = (λ i b h. h, tt, k)
  check_entries-EntriesResult id (e ∷ es) seen owner r k = elim (Option-cases (look e.index seen)) [
    | inl first ↦
        let seen1 = put e.index e.content seen in
        let grows : Grows seen seen1 =
          λ i b h. put_kept e.index i e.content b seen (λ x. cc (first, x)) h in
        let known : Known seen1 = λ i b h. (elim (put_origin e.index i e.content b seen h) [
          | inl (here, same_content) ↦ (id, by_equal id e i b here same_content r.0)
          | inr old ↦ k i b old
        ]) in
        rw (check_entries, first)
          (extend e es seen seen1 (check_entries id es seen1 (put e.index id owner)) grows
            (look-put_own e.index e.content seen)
            (check_entries-EntriesResult id es seen1 (put e.index id owner) r.1 known))
    | inr (prev, before) ↦ elim (Bool-cases (same prev e.content)) [
      | inl agree ↦
          let kept : Holds seen e = rw (sym (eq_of_same prev e.content agree)) before in
          rw (check_entries, before, agree)
            (extend e es seen seen (check_entries id es seen owner) (λ i b h. h) kept
              (check_entries-EntriesResult id es seen owner r.1 k))
      | inr differ ↦
          rw (check_entries, before, differ)
            (
              λ x.
                  (let stuck : true ≡ false =
                      sym (same_refl prev) ∙ ap (same prev) (sym x) ∙ differ in
                    cc stuck),
              r.0,
              k e.index prev before,
            )
    ]
  ]
    where
      by_equal :
          (n : ℕ) (x : AppliedEntry) (i : ℕ) (b : Bytes)
          → x.index ≡ i
          → some x.content ≡ some b
          → R n x.index x.content
          → R n i b
      by_equal n x i b here content held =
          let c : x.content ≡ b = cc content in rw (sym here, sym c) held

  module _ (c : Cluster)
      (all : (n : ℕ) (e : AppliedEntry) → Memᴰ e (applied_by n c) → R n e.index e.content) where
    abbrev NodesResult : List ℕ → List (ℕ × Bytes) → Verdict → Type 0
    NodesResult ids seen (consistent seen1 owner1) =
        Grows seen seen1 × All (λ id. All (Holds seen1) (applied_by id c)) ids
    NodesResult ids seen (divergence i n a b o) = (a ≢ b) × R n i a × ((m : ℕ) × R m i b)

    check_nodes-NodesResult :
        (ids : List ℕ) (seen : List (ℕ × Bytes)) (owner : List (ℕ × ℕ))
        → Known seen
        → NodesResult ids seen (check_nodes ids c seen owner)
    unfolding check_nodes
    check_nodes-NodesResult [] seen owner k = (λ i b h. h, tt)
    check_nodes-NodesResult (id ∷ ids) seen owner k =
        by_verdict (check_entries id (applied_by id c) seen owner) refl
          (check_entries-EntriesResult id (applied_by id c) seen owner
            (member-All (λ e. R id e.index e.content) (applied_by id c) (all id)) k)
          (λ s o known. check_nodes-NodesResult ids s o known)
      where
        joined :
            (v : Verdict) (seen1 : List (ℕ × Bytes))
            → Grows seen seen1
            → All (Holds seen1) (applied_by id c)
            → NodesResult ids seen1 v
            → NodesResult (id ∷ ids) seen v
        joined (consistent seen2 owner2) seen1 g held (g2, a) =
            (λ i b x. g2 i b (g i b x), (Holds-later seen1 seen2 (applied_by id c) g2 held, a))
        joined (divergence i n a b o) seen1 g held r = r

        by_verdict :
            (v : Verdict)
            → check_entries id (applied_by id c) seen owner ≡ v
            → EntriesResult (applied_by id c) seen v
            → ((s : List (ℕ × Bytes)) (o : List (ℕ × ℕ))
                → Known s
                → NodesResult ids s (check_nodes ids c s o))
            → NodesResult (id ∷ ids) seen (check_nodes (id ∷ ids) c seen owner)
        by_verdict (consistent seen1 owner1) h (g, held, known) rest =
            rw (check_nodes, h)
              (joined (check_nodes ids c seen1 owner1) seen1 g held (rest seen1 owner1 known))
        by_verdict (divergence i n a b o) h r rest = rw (check_nodes, h) r

abbrev pub HasApplied : Cluster → ℕ → ℕ → Bytes → Type 0
HasApplied c n index content =
    (e : AppliedEntry) × (e.index ≡ index) × (e.content ≡ content) × Memᴰ e (applied_by n c)

-- No two nodes have applied different commands at one index; or else two such commands.
abbrev pub Tells : Cluster → Verdict → Type 0
Tells c (consistent seen owner) =
    (n m : ℕ) (e f : AppliedEntry)
    → Memᴰ n c.nodes
    → Memᴰ m c.nodes
    → Memᴰ e (applied_by n c)
    → Memᴰ f (applied_by m c)
    → e.index ≡ f.index
    → e.content ≡ f.content
Tells c (divergence index n content prev owner) =
    (content ≢ prev) × HasApplied c n index content × ((m : ℕ) × HasApplied c m index prev)

-- CheckConsistency passes exactly if no two nodes, and no node twice, have applied different commands
-- at the same index: where it fails, the command that it reports was applied by the node that it
-- reports, at that index, and some node has applied the other one there.
pub check_consistency-Tells : (c : Cluster) → Tells c (check_consistency c)
unfolding check_consistency look
check_consistency-Tells c =
    by_verdict (check_nodes c.nodes c [] [])
      (check_nodes-NodesResult (HasApplied c) c (λ n e m. (e, refl, refl, m)) c.nodes [] [] nothing)
  where
    nothing : (i : ℕ) (b : Bytes) → look i [] ≡ some b → (m : ℕ) × HasApplied c m i b
    nothing i b h = absurd (cc h)

    by_verdict :
        (v : Verdict)
        → NodesResult (HasApplied c) c (λ n e m. (e, refl, refl, m)) c.nodes [] v
        → Tells c v
    by_verdict (consistent seen owner) (g, held) = λ n m e f at_n at_m at_e at_f same_index.
        (let one =
            all_member (Holds seen) (applied_by n c) e
              (all_member (λ id. All (Holds seen) (applied_by id c)) c.nodes n held at_n) at_e in
          let two =
            all_member (Holds seen) (applied_by m c) f
              (all_member (λ id. All (Holds seen) (applied_by id c)) c.nodes m held at_m) at_f in
          let moved : look e.index seen ≡ some f.content = rw same_index two in cc (one, moved))
    by_verdict (divergence i n a b o) r = r
