-- ===== src/KeyMap/Laws.antt =====
-- The laws of sorted entries.
use distkv.Prelude.{
  ◌≡◌, refl, sym, ◌∙◌, ap, true, none, some, List, [], ◌∷◌, arith, if◌then◌else◌, Bool-cases, inl,
  inr,
}
use distkv.Codec.{Bytes}
use distkv.Text.{
  same, less, same_sym, eq_of_same, less_trans, less_not_same, same_left, same_join, less_of_not,
}
use mathlib.Core.Path.{subst}
use distkv.KeyMap.{KvEntry, find, upsert, upsert_all, Above, IsSorted, Unique}

pub find-upsert :
    (e : KvEntry) (j : Bytes) (m : List KvEntry)
    → find j (upsert e m) ≡ (if same e.key j then some e else find j m)
unfolding find upsert
find-upsert e j [] = refl
find-upsert e j (x ∷ xs) = ground (
  arith,
  find-upsert e j xs,
  same_left x.key e.key j,
  less_not_same x.key e.key,
  same_join x.key e.key j,
)

pub Above-trans : (k l : Bytes) (m : List KvEntry) → less k l ≡ true → Above l m → Above k m
Above-trans k l [] h a = tt
Above-trans k l (x ∷ xs) h a = (less_trans k l x.key h a.0, Above-trans k l xs h a.1)

pub Above-upsert :
    (k : Bytes) (e : KvEntry) (m : List KvEntry)
    → less k e.key ≡ true
    → Above k m
    → Above k (upsert e m)
unfolding upsert
Above-upsert k e [] h a = (h, tt)
Above-upsert k e (x ∷ xs) h a = ground (arith, Above-upsert k e xs)

pub upsert-IsSorted : (e : KvEntry) (m : List KvEntry) → IsSorted m → IsSorted (upsert e m)
unfolding upsert
upsert-IsSorted e [] s = (tt, tt)
upsert-IsSorted e (x ∷ xs) s = elim (Bool-cases (less x.key e.key)) [
  | inl low ↦ rw low (Above-upsert x.key e xs low s.0, upsert-IsSorted e xs s.1)
  | inr high ↦ elim (Bool-cases (same x.key e.key)) [
    | inl hit ↦ rw (high, hit) (subst (λ k. Above k xs) (eq_of_same x.key e.key hit) s.0, s.1)
    | inr miss ↦
        let h : less e.key x.key ≡ true = less_of_not x.key e.key high miss in
        rw (high, miss) ((h, Above-trans e.key x.key xs h s.0), s)
  ]
]

pub upsert_all-IsSorted : (es m : List KvEntry) → IsSorted m → IsSorted (upsert_all es m)
unfolding upsert_all
upsert_all-IsSorted [] m s = s
upsert_all-IsSorted (e ∷ es) m s = upsert_all-IsSorted es (upsert e m) (upsert-IsSorted e m s)

-- A key below all the others is not among them.
pub find-Above : (j : Bytes) (m : List KvEntry) → Above j m → find j m ≡ none
unfolding find
find-Above j [] a = refl
find-Above j (x ∷ xs) a = ground (arith, find-Above j xs, less_not_same j x.key, same_sym j x.key)

pub find-Above-same :
    (k j : Bytes) (m : List KvEntry) → Above k m → same k j ≡ true → find j m ≡ none
find-Above-same k j m a h = find-Above j m (subst (λ t. Above t m) (eq_of_same k j h) a)

pub find-same : (a b : Bytes) (m : List KvEntry) → same a b ≡ true → find a m ≡ find b m
find-same a b m h = ap (λ k. find k m) (eq_of_same a b h)

pub IsSorted-Unique : (es : List KvEntry) → IsSorted es → Unique es
IsSorted-Unique [] s = tt
IsSorted-Unique (x ∷ xs) s = (find-Above x.key xs s.0, IsSorted-Unique xs s.1)

find-same-none :
    (k j : Bytes) (m : List KvEntry) → find k m ≡ none → same k j ≡ true → find j m ≡ none
find-same-none k j m h e = sym (find-same k j m e) ∙ h

-- Of entries with different keys each is found under its own.
pub find-upsert_all :
    (es m : List KvEntry) (j : Bytes)
    → Unique es
    → find j (upsert_all es m) ≡ elim (find j es) [ none ↦ find j m | some e ↦ some e ]
unfolding upsert_all find
find-upsert_all [] m j s = refl
find-upsert_all (e ∷ es) m j s =
    ground (
      arith,
      find-upsert_all es (upsert e m) j s.1,
      find-upsert e j m,
      find-same-none e.key j es s.0,
    )
