-- ===== src/Text.antt =====
-- Go's strings as their bytes, with the tests `==` and `<` of the language.
use distkv.Prelude.{◌≡◌, refl, ap, Bool, true, false, [], ◌∷◌, arith, ltb, ◌==◌, ◌&&◌, ◌||◌, ==_iff}
use distkv.Codec.{Bytes}

unfoldable pub same : Bytes → Bytes → Bool
same [] [] = true
same (x ∷ xs) (y ∷ ys) = (x == y) && same xs ys
same _ _ = false

-- The order of strings is the lexicographic one on bytes.
unfoldable pub less : Bytes → Bytes → Bool
less xs [] = false
less [] (y ∷ ys) = true
less (x ∷ xs) (y ∷ ys) = ltb x y || ((x == y) && less xs ys)

pub same_refl : (x : Bytes) → same x x ≡ true
unfolding same
same_refl [] = refl
same_refl (x ∷ xs) = ground (arith, same_refl xs)

pub eq_of_same : (x y : Bytes) → same x y ≡ true → x ≡ y
unfolding same
eq_of_same [] [] h = refl
eq_of_same [] (y ∷ ys) h = cc
eq_of_same (x ∷ xs) [] h = cc
eq_of_same (x ∷ xs) (y ∷ ys) h = ground (arith, eq_of_same xs ys, ==_iff x y)

pub same_sym : (a b : Bytes) → same a b ≡ same b a
unfolding same
same_sym [] [] = refl
same_sym [] (y ∷ ys) = refl
same_sym (x ∷ xs) [] = refl
same_sym (x ∷ xs) (y ∷ ys) = ground (arith, same_sym xs ys)

pub less_irrefl : (a : Bytes) → less a a ≡ false
unfolding less
less_irrefl [] = refl
less_irrefl (x ∷ xs) = ground (arith, less_irrefl xs)

pub less_trans : (a b c : Bytes) → less a b ≡ true → less b c ≡ true → less a c ≡ true
unfolding less
less_trans a b [] p q = cc
less_trans a [] (z ∷ zs) p q = cc
less_trans [] (y ∷ ys) (z ∷ zs) p q = refl
less_trans (x ∷ xs) (y ∷ ys) (z ∷ zs) p q = ground (arith, less_trans xs ys zs)

pub less_total : (a b : Bytes) → less a b ≡ false → less b a ≡ false → same a b ≡ true
unfolding less same
less_total [] [] p q = refl
less_total [] (y ∷ ys) p q = cc
less_total (x ∷ xs) [] p q = cc
less_total (x ∷ xs) (y ∷ ys) p q = ground (arith, less_total xs ys)

pub less_asymm : (a b : Bytes) → less a b ≡ true → less b a ≡ false
unfolding less
less_asymm a [] p = cc
less_asymm [] (y ∷ ys) p = refl
less_asymm (x ∷ xs) (y ∷ ys) p = ground (arith, less_asymm xs ys)

-- A key below another is another key.
pub less_not_same : (a b : Bytes) → less a b ≡ true → same a b ≡ false
unfolding less same
less_not_same a [] p = cc
less_not_same [] (y ∷ ys) p = refl
less_not_same (x ∷ xs) (y ∷ ys) p = ground (arith, less_not_same xs ys)

pub same_left : (a b j : Bytes) → same a b ≡ true → same a j ≡ same b j
same_left a b j h = ap (λ t. same t j) (eq_of_same a b h)

pub same_join : (a b j : Bytes) → same a j ≡ true → same b j ≡ true → same a b ≡ true
same_join a b j p q = ground (arith, eq_of_same a j, eq_of_same b j, same_refl a)

pub less_of_not : (a b : Bytes) → less a b ≡ false → same a b ≡ false → less b a ≡ true
less_of_not a b p q = ground (arith, less_total a b)
