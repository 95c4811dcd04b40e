-- ===== src/Installer/Versions/Numbers.antt =====
-- system/installer/main.c: the walk of version_cmp over the two texts.
use zelto_os.Prelude.{
  ℕ, zero, suc, ◌+◌, ◌-◌, ◌*◌, ◌%◌, ◌≤◌, ◌<◌, ◌≡◌, refl, ap₂, Bool, true, false, not, ◌&&◌, List,
  [], ◌∷◌, map, some, arith, if◌then◌else◌, ◌==◌, length, inl, inr, Bool-cases, All,
}
use zelto_os.Text.{Bytes, drop_while, take_while}
use zelto_os.Number.{ℤ, pos, long_mod, long_of}
use zelto_os.Zsysd.Wire.{is_digit}
use zelto_os.Installer.Versions.{component, skip_dot, is_empty, cmp_from, version_cmp}
use zelto_os.Installer.Versions.Order.{lex, lex-zero_left, lex-zero_right}

abbrev pub not_dot : ℕ → Bool
not_dot c = not (c == b'.')

-- The number that the digits of a text make, and its 64 bits as a round of version_cmp collects them.
unfoldable pub value : ℕ → Bytes → ℕ
value n [] = n
value n (c ∷ s) = value (if is_digit c then n * 10 + (c - b'0') else n) s

unfoldable pub word : ℕ → Bytes → ℕ
word n [] = n
word n (c ∷ s) = word (if is_digit c then (n * 10 + (c - b'0')) % long_mod else n) s

abbrev pub number : Bytes → ℤ
number s = long_of (word 0 s)

unfoldable pub cons_piece : ℕ → List Bytes → List Bytes
cons_piece c [] = (c ∷ []) ∷ []
cons_piece c (l ∷ ls) = (c ∷ l) ∷ ls

-- The pieces between the dots: one more than there are dots.
unfoldable pub split_dots : Bytes → List Bytes
unfolding cons_piece
split_dots [] = [] ∷ []
split_dots (c ∷ s) = let rest = split_dots s in if c == b'.' then [] ∷ rest else cons_piece c rest

unfoldable pub numbers : Bytes → List ℤ
unfolding split_dots word
numbers s = map number (split_dots s)

abbrev tail_pieces : Bytes → List Bytes
tail_pieces [] = []
tail_pieces (c ∷ s) = split_dots s

split_dots-first :
    (s : Bytes) → split_dots s ≡ take_while not_dot s ∷ tail_pieces (drop_while not_dot s)
unfolding split_dots take_while drop_while
split_dots-first [] = refl
split_dots-first (c ∷ s) = ground (arith, split_dots-first s)

component_lem :
    (n : ℕ) (s : Bytes) → component n s ≡ (word n (take_while not_dot s), drop_while not_dot s)
unfolding component word take_while drop_while
component_lem n [] = refl
component_lem n (c ∷ s) =
    ground (arith, component_lem (if is_digit c then (n * 10 + (c - b'0')) % long_mod else n) s)

-- What the next round starts at.
abbrev next : Bytes → Bytes
next s = skip_dot (drop_while not_dot s)

abbrev tail_numbers : Bytes → List ℤ
tail_numbers s = map number (tail_pieces (drop_while not_dot s))

length-next-le : (s : Bytes) → length (next s) ≤ length s - 1
unfolding drop_while
length-next-le [] = omega arith
length-next-le (c ∷ s) = ground (arith, length-next-le s)

numbers-first : (s : Bytes) → numbers s ≡ number (take_while not_dot s) ∷ tail_numbers s
unfolding numbers
numbers-first s = rw (split_dots-first s) refl

lex-next_left : (s : Bytes) (ys : List ℤ) → lex (numbers (next s)) ys ≡ lex (tail_numbers s) ys
unfolding drop_while
lex-next_left [] ys = unfold numbers split_dots word in lex-zero_left ys
lex-next_left (c ∷ s) ys = elim (Bool-cases (c == b'.')) [
  | inl e ↦ rw (e, e) (unfold numbers in refl)
  | inr e ↦ rw e (lex-next_left s ys)
]

lex-next_right : (xs : List ℤ) (s : Bytes) → lex xs (numbers (next s)) ≡ lex xs (tail_numbers s)
unfolding drop_while
lex-next_right xs [] = unfold numbers split_dots word in lex-zero_right xs
lex-next_right xs (c ∷ s) = elim (Bool-cases (c == b'.')) [
  | inl e ↦ rw (e, e) (unfold numbers in refl)
  | inr e ↦ rw e (lex-next_right xs s)
]

ended :
    (f : ℕ) (a b : Bytes)
    → (is_empty a && is_empty b) ≡ true
    → cmp_from (suc f) a b ≡ some (lex (numbers a) (numbers b))
unfolding cmp_from lex component numbers split_dots word
ended f [] [] e = refl
ended f [] (d ∷ b) e = absurd (ground (arith, e))
ended f (c ∷ a) b e = absurd (ground (arith, e))

less :
    (f : ℕ) (a b : Bytes)
    → (is_empty a && is_empty b) ≡ false
    → length a + length b < suc f
    → length (next a) + length (next b) < f
less f a b e h = ground (arith, e, h, length-next-le a, length-next-le b)

round :
    (f : ℕ) (a b : Bytes)
    → (is_empty a && is_empty b) ≡ false
    → cmp_from f (next a) (next b) ≡ some (lex (numbers (next a)) (numbers (next b)))
    → cmp_from (suc f) a b ≡ some (lex (numbers a) (numbers b))
unfolding cmp_from lex
round f a b e ih = ground (
  arith,
  e,
  ih,
  component_lem 0 a,
  component_lem 0 b,
  numbers-first a,
  numbers-first b,
  lex-next_left a (numbers (next b)),
  lex-next_right (tail_numbers a) b,
)

cmp_from_lem :
    (f : ℕ) (a b : Bytes)
    → length a + length b < f
    → cmp_from f a b ≡ some (lex (numbers a) (numbers b))
cmp_from_lem zero a b h = absurd (omega (arith, h))
cmp_from_lem (suc f) a b h =
    let shorter = λ (e : (is_empty a && is_empty b) ≡ false).
      round f a b e (cmp_from_lem f (next a) (next b) (less f a b e h)) in
    elim (Bool-cases (is_empty a && is_empty b)) [ inl e ↦ ended f a b e | inr e ↦ shorter e ]

-- The 64 bits of the number.
word-value : (n m : ℕ) (s : Bytes) → n ≡ m % long_mod → word n s ≡ value m s % long_mod
unfolding word value
word-value n m [] h = h
word-value n m (c ∷ s) h = elim (Bool-cases (is_digit c)) [
  | inl e ↦
      rw e
        (word-value ((n * 10 + (c - b'0')) % long_mod) (m * 10 + (c - b'0')) s (omega (arith, h)))
  | inr e ↦ rw e (word-value n m s h)
]

-- A piece whose number a long can hold.
abbrev pub IsLong : Bytes → Type 0
IsLong s = value 0 s < 9_223_372_036_854_775_808

number-value : (s : Bytes) → IsLong s → number s ≡ pos (value 0 s)
number-value s h = ground (arith, h, word-value 0 0 s refl)

map-number : (ls : List Bytes) → All IsLong ls → map number ls ≡ map (λ s. pos (value 0 s)) ls
map-number [] h = refl
map-number (s ∷ ls) h = ap₂ ◌∷◌ (number-value s h.0) (map-number ls h.1)

-- version_cmp ends on every two texts, and its result is the order of their numbers, the digits between
-- the dots, from the left, where a missing number counts as 0. A number is what a long of 64 bits
-- that wraps around makes of the digits; where each is below 2 ^ 63 it is the decimal number.
pub version_cmp-numbers :
    (a b : Bytes)
    → (version_cmp a b ≡ some (lex (numbers a) (numbers b)))
      × (All IsLong (split_dots a) → numbers a ≡ map (λ s. pos (value 0 s)) (split_dots a))
unfolding version_cmp numbers
version_cmp-numbers a b =
    (cmp_from_lem (suc (length a + length b)) a b (omega arith), map-number (split_dots a))
