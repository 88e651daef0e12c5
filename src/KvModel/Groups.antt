-- ===== src/KvModel/Groups.antt =====
-- Lists grouped by a key, as linearizability/model.go does it with a map from keys to slices.
use distkv.Prelude.{
  ◌≡◌, refl, sym, ap, ◌∙◌, Bool, true, false, List, [], ◌∷◌, ◌++◌, arith, ◌||◌, if◌then◌else◌,
  Bool-cases, inl, inr, append_assoc, append-nil,
}
use distkv.Codec.{Bytes}
use distkv.Text.{same, less, same_sym, same_left, less_of_not, less_trans, eq_of_same}

-- Whether a key is among these.
unfoldable pub has : Bytes → List Bytes → Bool
has k [] = false
has k (j ∷ js) = same j k || has k js

-- sort.Strings, by insertion.
unfoldable pub insert_string : Bytes → List Bytes → List Bytes
insert_string k [] = k ∷ []
insert_string k (j ∷ js) =
    let rest = insert_string k js in if less k j then k ∷ j ∷ js else j ∷ rest

unfoldable pub sort_strings : List Bytes → List Bytes
unfolding insert_string
sort_strings [] = []
sort_strings (k ∷ ks) = insert_string k (sort_strings ks)

-- No key is there twice.
abbrev pub Distinct : List Bytes → Type 0
Distinct [] = Unit
Distinct (k ∷ ks) = (has k ks ≡ false) × Distinct ks

module _ {A : Type 0} where
  -- `m[key]`, of a map from keys to slices: a missing key gives nil.
  unfoldable pub members : Bytes → List (Bytes × List A) → List A
  members k [] = []
  members k ((j, xs) ∷ m) = if same j k then xs else members k m

  -- `m[key] = append(m[key], x)`
  unfoldable pub append_to : Bytes → A → List (Bytes × List A) → List (Bytes × List A)
  append_to k x [] = (k, x ∷ []) ∷ []
  append_to k x ((j, xs) ∷ m) =
      if same j k then (j, xs ++ x ∷ []) ∷ m else (j, xs) ∷ append_to k x m

  unfoldable pub keys : List (Bytes × List A) → List Bytes
  keys [] = []
  keys ((k, xs) ∷ m) = k ∷ keys m

  -- The elements with a key, in their order, of a list of elements with their keys.
  abbrev pub belonging : Bytes → List (Bytes × A) → List A
  belonging k [] = []
  belonging k ((j, x) ∷ ps) = if same j k then x ∷ belonging k ps else belonging k ps

  abbrev pub names : Bytes → List (Bytes × A) → Bool
  names k [] = false
  names k ((j, x) ∷ ps) = same j k || names k ps

  unfoldable pub collect : List (Bytes × A) → List (Bytes × List A) → List (Bytes × List A)
  unfolding append_to
  collect [] m = m
  collect ((k, x) ∷ ps) m = collect ps (append_to k x m)

  members-append_to :
      (k j : Bytes) (x : A) (m : List (Bytes × List A))
      → members j (append_to k x m) ≡ (if same k j then members j m ++ x ∷ [] else members j m)
  unfolding members append_to
  members-append_to k j x [] = ground arith
  members-append_to k j x ((i, xs) ∷ m) = elim (Bool-cases (same i k)) [
    | inl here ↦ let e : same i j ≡ same k j = same_left i k j here in ground (arith, e, here)
    | inr there ↦ elim (Bool-cases (same k j)) [
      | inl hit ↦
          let e : same i k ≡ same i j = ap (same i) (eq_of_same k j hit) in
          ground (arith, e, there, hit, members-append_to k j x m)
      | inr miss ↦ ground (arith, there, miss, members-append_to k j x m)
    ]
  ]

  has-append_to :
      (k j : Bytes) (x : A) (m : List (Bytes × List A))
      → has j (keys (append_to k x m)) ≡ (same k j || has j (keys m))
  unfolding has keys append_to
  has-append_to k j x [] = ground arith
  has-append_to k j x ((i, xs) ∷ m) = elim (Bool-cases (same i k)) [
    | inl here ↦ let e : same i j ≡ same k j = same_left i k j here in ground (arith, e, here)
    | inr there ↦ ground (arith, there, has-append_to k j x m)
  ]

  pub members-collect :
      (ps : List (Bytes × A)) (m : List (Bytes × List A)) (k : Bytes)
      → members k (collect ps m) ≡ members k m ++ belonging k ps
  unfolding collect
  members-collect [] m k = sym (append-nil (members k m))
  members-collect ((j, x) ∷ ps) m k =
      members-collect ps (append_to j x m) k
      ∙ ap (λ xs. xs ++ belonging k ps) (members-append_to j k x m)
      ∙ elim (Bool-cases (same j k)) [
        | inl own ↦ rw own (append_assoc (members k m) (x ∷ []) (belonging k ps))
        | inr other ↦ rw other refl
      ]

  pub has-collect :
      (ps : List (Bytes × A)) (m : List (Bytes × List A)) (k : Bytes)
      → has k (keys (collect ps m)) ≡ (has k (keys m) || names k ps)
  unfolding collect
  has-collect [] m k = ground arith
  has-collect ((j, x) ∷ ps) m k =
      ground (arith, has-collect ps (append_to j x m) k, has-append_to j k x m)

  append_to-Distinct :
      (k : Bytes) (x : A) (m : List (Bytes × List A))
      → Distinct (keys m)
      → Distinct (keys (append_to k x m))
  unfolding keys append_to has
  append_to-Distinct k x [] d = (refl, tt)
  append_to-Distinct k x ((i, xs) ∷ m) (new, d) = elim (Bool-cases (same i k)) [
    | inl here ↦ rw here (new, d)
    | inr there ↦
        let still : has i (keys (append_to k x m)) ≡ false =
          ground (arith, new, has-append_to k i x m, same_sym k i, there) in
        rw there (still, append_to-Distinct k x m d)
  ]

  pub collect-Distinct :
      (ps : List (Bytes × A)) (m : List (Bytes × List A))
      → Distinct (keys m)
      → Distinct (keys (collect ps m))
  unfolding collect
  collect-Distinct [] m d = d
  collect-Distinct ((k, x) ∷ ps) m d =
      collect-Distinct ps (append_to k x m) (append_to-Distinct k x m d)

-- In strictly ascending order.
abbrev pub AllAbove : Bytes → List Bytes → Type 0
AllAbove k [] = Unit
AllAbove k (j ∷ js) = (less k j ≡ true) × AllAbove k js

abbrev pub Ascending : List Bytes → Type 0
Ascending [] = Unit
Ascending (k ∷ ks) = AllAbove k ks × Ascending ks

has-insert_string :
    (k j : Bytes) (ks : List Bytes) → has j (insert_string k ks) ≡ (same k j || has j ks)
unfolding has insert_string
has-insert_string k j [] = refl
has-insert_string k j (i ∷ is) = ground (arith, has-insert_string k j is)

AllAbove-trans : (k j : Bytes) (ks : List Bytes) → less k j ≡ true → AllAbove j ks → AllAbove k ks
AllAbove-trans k j [] h a = tt
AllAbove-trans k j (i ∷ is) h (b, a) = (less_trans k j i h b, AllAbove-trans k j is h a)

insert_string-AllAbove :
    (k j : Bytes) (ks : List Bytes)
    → less j k ≡ true
    → AllAbove j ks
    → AllAbove j (insert_string k ks)
unfolding insert_string
insert_string-AllAbove k j [] h a = (h, tt)
insert_string-AllAbove k j (i ∷ is) h (b, a) = elim (Bool-cases (less k i)) [
  | inl below ↦ rw below (h, (b, a))
  | inr above ↦ rw above (b, insert_string-AllAbove k j is h a)
]

insert_string-Ascending :
    (k : Bytes) (ks : List Bytes) → has k ks ≡ false → Ascending ks → Ascending (insert_string k ks)
unfolding insert_string has
insert_string-Ascending k [] new a = (tt, tt)
insert_string-Ascending k (i ∷ is) new (b, a) = elim (Bool-cases (less k i)) [
  | inl below ↦ rw below ((below, AllAbove-trans k i is below b), (b, a))
  | inr above ↦
      let apart : same k i ≡ false = ground (arith, new, same_sym k i) in
      let fresh : has k is ≡ false = ground (arith, new) in
      rw above (
        insert_string-AllAbove k i is (less_of_not k i above apart) b,
        insert_string-Ascending k is fresh a,
      )
]

pub has-sort_strings : (ks : List Bytes) (j : Bytes) → has j (sort_strings ks) ≡ has j ks
unfolding has sort_strings
has-sort_strings [] j = refl
has-sort_strings (k ∷ ks) j =
    has-insert_string k j (sort_strings ks) ∙ ap (λ b. same k j || b) (has-sort_strings ks j)

pub sort_strings-Ascending : (ks : List Bytes) → Distinct ks → Ascending (sort_strings ks)
unfolding sort_strings
sort_strings-Ascending [] d = tt
sort_strings-Ascending (k ∷ ks) (new, d) =
    insert_string-Ascending k (sort_strings ks) (has-sort_strings ks k ∙ new)
      (sort_strings-Ascending ks d)
