-- ===== src/ConfState/Commit.antt =====
-- MaxCommitIndex of raft/confstate.go: the highest index on the required majorities.
use distkv.Prelude.{
  ℕ, zero, suc, ◌≤◌, ◌<◌, ◌≡◌, ◌∙◌, refl, true, ◌&&◌, List, [], ◌∷◌, arith, ltb, leb, ◌==◌,
  if◌then◌else◌, ◌⊎◌, inl, inr, Bool-cases, ==_iff,
}
use distkv.IdSet.{contains, insert_all, contains-insert_all}
use distkv.ConfState.{
  ConfState, Map, in_joint, read, count_ge, can_commit, match_values, sort_desc, insert_desc,
  first_committable, max_commit_index, all_peer_ids,
}

abbrev IsDescending : List ℕ → Type 0
IsDescending [] = Unit
IsDescending (x ∷ []) = Unit
IsDescending (x ∷ y ∷ xs) = (y ≤ x) × IsDescending (y ∷ xs)

insert_desc-IsDescending : (v : ℕ) (xs : List ℕ) → IsDescending xs → IsDescending (insert_desc v xs)
unfolding insert_desc
insert_desc-IsDescending v [] d = tt
insert_desc-IsDescending v (x ∷ []) d = ground arith
insert_desc-IsDescending v (x ∷ y ∷ xs) d = ground (arith, insert_desc-IsDescending v (y ∷ xs) d.1)

sort_desc-IsDescending : (xs : List ℕ) → IsDescending (sort_desc xs)
unfolding sort_desc
sort_desc-IsDescending [] = tt
sort_desc-IsDescending (x ∷ xs) =
    insert_desc-IsDescending x (sort_desc xs) (sort_desc-IsDescending xs)

contains-insert_desc :
    (v j : ℕ) (xs : List ℕ)
    → contains (insert_desc v xs) j ≡ (if v == j then true else contains xs j)
unfolding insert_desc contains
contains-insert_desc v j [] = refl
contains-insert_desc v j (x ∷ xs) = ground (arith, contains-insert_desc v j xs)

contains-sort_desc : (j : ℕ) (xs : List ℕ) → contains (sort_desc xs) j ≡ contains xs j
unfolding sort_desc contains
contains-sort_desc j [] = refl
contains-sort_desc j (x ∷ xs) =
    ground (arith, contains-sort_desc j xs, contains-insert_desc x j (sort_desc xs))

-- Every value of a descending list is at most the head.
contains_le_head : (x j : ℕ) (xs : List ℕ) → IsDescending (x ∷ xs) → contains xs j ≡ true → j ≤ x
unfolding contains
contains_le_head x j [] d h = cc
contains_le_head x j (y ∷ xs) d h = ground (arith, contains_le_head y j xs d.1)

IsDescending-tail : (x : ℕ) (xs : List ℕ) → IsDescending (x ∷ xs) → IsDescending xs
IsDescending-tail x [] d = tt
IsDescending-tail x (y ∷ xs) d = d.1

module _ (c : ConfState) (m : Map) where
  -- The loop stops at a value that is at least any committable one of a descending list.
  first_committable-max :
      (xs : List ℕ) (v : ℕ)
      → IsDescending xs
      → contains xs v ≡ true
      → 0 < v
      → can_commit c v m ≡ true
      → v ≤ first_committable c m xs
  unfolding first_committable contains
  first_committable-max [] v d h p q = cc
  first_committable-max (x ∷ xs) v d h p q = ground (
    arith,
    first_committable-max xs v (IsDescending-tail x xs d),
    contains_le_head x v xs d,
    ==_iff x v,
  )

  first_committable-committed :
      (xs : List ℕ)
      → 0 < first_committable c m xs
      → can_commit c (first_committable c m xs) m ≡ true
  unfolding first_committable
  first_committable-committed [] h = absurd (omega arith)
  first_committable-committed (x ∷ xs) h = ground (arith, first_committable-committed xs)

abbrev Within : List ℕ → List ℕ → Type 0
Within xs ys = (j : ℕ) → contains xs j ≡ true → contains ys j ≡ true

-- The least value of a list that reaches a bound.
abbrev Least : ℕ → List ℕ → ℕ → Type 0
Least idx xs v =
    (contains xs v ≡ true) × (idx ≤ v) × ((j : ℕ) → contains xs j ≡ true → idx ≤ j → v ≤ j)

abbrev AllBelow : ℕ → List ℕ → Type 0
AllBelow idx xs = (j : ℕ) → contains xs j ≡ true → j < idx

Least-cons :
    (idx x : ℕ) (xs : List ℕ)
    → AllBelow idx xs ⊎ ((v : ℕ) × Least idx xs v)
    → AllBelow idx (x ∷ xs) ⊎ ((v : ℕ) × Least idx (x ∷ xs) v)
unfolding contains
Least-cons idx x xs (inl below) = elim (Bool-cases (leb idx x)) [
  | inl fits ↦ inr (x, (ground arith, ground arith, λ j h p. ground (arith, below j)))
  | inr low ↦ inl (λ j h. ground (arith, below j))
]
Least-cons idx x xs (inr (v, (here, up, low))) = elim (Bool-cases (leb idx x && ltb x v)) [
  | inl fits ↦ inr (x, (ground arith, ground arith, λ j h p. ground (arith, low j)))
  | inr old ↦ inr (v, (ground arith, up, λ j h p. ground (arith, low j)))
]

least : (idx : ℕ) (xs : List ℕ) → AllBelow idx xs ⊎ ((v : ℕ) × Least idx xs v)
unfolding contains
least idx [] = inl (λ j h. cc)
least idx (x ∷ xs) = Least-cons idx x xs (least idx xs)

contains-match_values :
    (ids : List ℕ) (m : Map) (id : ℕ)
    → contains ids id ≡ true
    → contains (match_values ids m) (read m id) ≡ true
unfolding contains match_values
contains-match_values [] m id h = cc
contains-match_values (x ∷ xs) m id h =
    ground (arith, contains-match_values xs m id, ==_iff x id, ==_iff (read m x) (read m id))

module _ (m : Map) (vals : List ℕ) (idx v : ℕ) where
  abbrev Covered : List ℕ → Type 0
  Covered ids = (id : ℕ) → contains ids id ≡ true → contains vals (read m id) ≡ true

  Covered-tail : (x : ℕ) (xs : List ℕ) → Covered (x ∷ xs) → Covered xs
  unfolding contains
  Covered-tail x xs cov id h = ground (arith, cov id)

  Covered-head : (x : ℕ) (xs : List ℕ) → Covered (x ∷ xs) → contains vals (read m x) ≡ true
  unfolding contains
  Covered-head x xs cov = ground (arith, cov x)

  -- Between a bound and the least value that reaches it no server is lost.
  count_ge-Least :
      (ids : List ℕ) → Least idx vals v → Covered ids → count_ge ids m v ≡ count_ge ids m idx
  unfolding count_ge
  count_ge-Least [] l cov = refl
  count_ge-Least (x ∷ xs) l cov =
      ground
        (arith, l.2 (read m x), Covered-head x xs cov, count_ge-Least xs l (Covered-tail x xs cov))

  count_ge-AllBelow : (ids : List ℕ) → AllBelow idx vals → Covered ids → count_ge ids m idx ≡ 0
  unfolding count_ge
  count_ge-AllBelow [] b cov = refl
  count_ge-AllBelow (x ∷ xs) b cov =
      ground
        (arith, b (read m x), Covered-head x xs cov, count_ge-AllBelow xs b (Covered-tail x xs cov))

voters-Within : (c : ConfState) → Within c.voters (all_peer_ids c)
unfolding all_peer_ids contains
voters-Within c j h = ground (
  arith,
  contains-insert_all c.voters j [],
  contains-insert_all c.joint j (insert_all c.voters []),
)

joint-Within : (c : ConfState) → in_joint c ≡ true → Within c.joint (all_peer_ids c)
unfolding all_peer_ids contains
joint-Within c t j h = ground (arith, contains-insert_all c.joint j (insert_all c.voters []))

module _ (c : ConfState) (m : Map) where
  abbrev values : List ℕ
  values = match_values (all_peer_ids c) m

  -- A committable index has a committable match index above it.
  can_commit-value :
      (idx : ℕ)
      → can_commit c idx m ≡ true
      → (v : ℕ) × (contains values v ≡ true) × (idx ≤ v) × (can_commit c v m ≡ true)
  unfolding can_commit
  can_commit-value idx q = elim (least idx values) [
    | inl below ↦ absurd (
        ground (
          arith,
          count_ge-AllBelow m values idx idx c.voters below
              (λ id h. contains-match_values (all_peer_ids c) m id (voters-Within c id h)),
        ))
    | inr (v, l) ↦ elim (Bool-cases (in_joint c)) [
      | inl joint ↦ (
        v,
        l.0,
        l.1,
        ground (
          arith,
          count_ge-Least m values idx v c.voters l
              (λ id h. contains-match_values (all_peer_ids c) m id (voters-Within c id h)),
          count_ge-Least m values idx v c.joint l
              (λ id h. contains-match_values (all_peer_ids c) m id (joint-Within c joint id h)),
        ),
      )
      | inr plain ↦ (
        v,
        l.0,
        l.1,
        ground (
          arith,
          count_ge-Least m values idx v c.voters l
              (λ id h. contains-match_values (all_peer_ids c) m id (voters-Within c id h)),
        ),
      )
    ]
  ]

-- The returned index is replicated on every required majority, unless it is 0, and no index
-- above it is.
pub max_commit_index-exact :
    (c : ConfState) (m : Map)
    → (0 < max_commit_index c m → can_commit c (max_commit_index c m) m ≡ true)
      × ((idx : ℕ) → can_commit c idx m ≡ true → idx ≤ max_commit_index c m)
unfolding max_commit_index
max_commit_index-exact c m = (
  first_committable-committed c m (sort_desc (values c m)),
  λ idx q. highest idx (can_commit-value c m idx q),
)
  where
    highest :
        (idx : ℕ)
        → (v : ℕ) × (contains (values c m) v ≡ true) × (idx ≤ v) × (can_commit c v m ≡ true)
        → idx ≤ first_committable c m (sort_desc (values c m))
    highest zero r = omega arith
    highest (suc i) (v, here, up, q) = omega (
      arith,
      first_committable-max c m (sort_desc (values c m)) v (sort_desc-IsDescending (values c m))
          (contains-sort_desc v (values c m) ∙ here) (omega arith) q,
    )
