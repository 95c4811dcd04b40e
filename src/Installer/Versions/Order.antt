-- ===== src/Installer/Versions/Order.antt =====
-- system/installer/main.c: versions as lists of numbers, compared from the left, where a missing number
-- counts as 0.
use zelto_os.Prelude.{◌≡◌, refl, Bool, false, List, [], ◌∷◌, arith, if◌then◌else◌}
use zelto_os.Number.{ℤ, pos, negsuc, eqb_ℤ, ltb_ℤ}

unfoldable pub lex : List ℤ → List ℤ → ℤ
lex [] [] = pos 0
lex [] (y ∷ ys) = if eqb_ℤ (pos 0) y then lex [] ys else if ltb_ℤ (pos 0) y then negsuc 0 else pos 1
lex (x ∷ xs) [] = if eqb_ℤ x (pos 0) then lex xs [] else if ltb_ℤ x (pos 0) then negsuc 0 else pos 1
lex (x ∷ xs) (y ∷ ys) = if eqb_ℤ x y then lex xs ys else if ltb_ℤ x y then negsuc 0 else pos 1

pub lex-zero_left : (ys : List ℤ) → lex (pos 0 ∷ []) ys ≡ lex [] ys
unfolding lex
lex-zero_left [] = refl
lex-zero_left (y ∷ ys) = ground arith

pub lex-zero_right : (xs : List ℤ) → lex xs (pos 0 ∷ []) ≡ lex xs []
unfolding lex
lex-zero_right [] = refl
lex-zero_right (x ∷ xs) = ground arith

-- Not before, as the update rule tests it.
abbrev pub is_before : List ℤ → List ℤ → Bool
is_before xs ys = ltb_ℤ (lex xs ys) (pos 0)

pub is_before_refl : (xs : List ℤ) → is_before xs xs ≡ false
unfolding lex
is_before_refl [] = refl
is_before_refl (x ∷ xs) = ground (arith, is_before_refl xs)

-- The order of versions is transitive.
pub is_before_trans :
    (xs ys zs : List ℤ)
    → is_before ys xs ≡ false
    → is_before zs ys ≡ false
    → is_before zs xs ≡ false
unfolding lex
is_before_trans [] [] [] h k = refl
is_before_trans [] [] (z ∷ zs) h k = k
is_before_trans [] (y ∷ ys) [] h k = refl
is_before_trans [] (y ∷ ys) (z ∷ zs) h k = ground (arith, h, k, is_before_trans [] ys zs)
is_before_trans (x ∷ xs) [] [] h k = h
is_before_trans (x ∷ xs) [] (z ∷ zs) h k = ground (arith, h, k, is_before_trans xs [] zs)
is_before_trans (x ∷ xs) (y ∷ ys) [] h k = ground (arith, h, k, is_before_trans xs ys [])
is_before_trans (x ∷ xs) (y ∷ ys) (z ∷ zs) h k = ground (arith, h, k, is_before_trans xs ys zs)
