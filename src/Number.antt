-- ===== src/Number.antt =====
-- Signed 64-bit numbers of the sources, without their overflow, and the texts that hold them: libc's
-- atoi, atoll and strtoll in base 10, and printf's %lld.
use zelto_os.Prelude.{
  ℕ, suc, ◌+◌, ◌-◌, ◌*◌, ◌%◌, Bool, [], ◌∷◌, Option, none, some, ltb, if◌then◌else◌, ◌==◌,
}
use zelto_os.Text.{Bytes, drop_while}
use zelto_os.Zsysd.Wire.{digits_from, is_white, show}

-- `negsuc n` is -(n + 1).
pub data ℤ : Type 0 where
  pos : ℕ → ℤ
  negsuc : ℕ → ℤ

abbrev pub pos_part : ℤ → ℕ
pos_part (pos n) = n
pos_part (negsuc n) = 0

abbrev pub neg_part : ℤ → ℕ
neg_part (pos n) = 0
neg_part (negsuc n) = suc n

abbrev pub ltb_ℤ : ℤ → ℤ → Bool
ltb_ℤ a b = ltb (pos_part a + neg_part b) (pos_part b + neg_part a)

abbrev pub eqb_ℤ : ℤ → ℤ → Bool
eqb_ℤ a b = pos_part a + neg_part b == pos_part b + neg_part a

abbrev pub suc_ℤ : ℤ → ℤ
suc_ℤ (pos n) = pos (suc n)
suc_ℤ (negsuc n) = if n == 0 then pos 0 else negsuc (n - 1)

-- The value with the sign turned.
abbrev pub minus : ℕ → ℤ
minus n = if n == 0 then pos 0 else negsuc (n - 1)

unfoldable pub signed : Bytes → ℤ
unfolding digits_from
signed [] = pos 0
signed (c ∷ s) =
    if c == b'-'
    then minus (digits_from 0 s)
    else if c == b'+'
    then pos (digits_from 0 s)
    else pos (digits_from 0 (c ∷ s))

unfoldable pub strtoll : Bytes → ℤ
unfolding signed drop_while
strtoll s = signed (drop_while is_white s)

-- %lld
abbrev pub show_ℤ : ℤ → Bytes
show_ℤ (pos n) = show n
show_ℤ (negsuc n) = b'-' ∷ show (suc n)

abbrev pub int_max : ℕ
int_max = 2_147_483_648

abbrev pub low_word : ℤ → ℕ
low_word (pos n) = n % 4_294_967_296
low_word (negsuc n) = (4_294_967_296 - suc n % 4_294_967_296) % 4_294_967_296

abbrev pub scaled : ℤ → ℤ
scaled (pos n) = pos (n * 1000)
scaled (negsuc n) = negsuc (suc n * 1000 - 1)

-- (int)(x * 1000), and `none` where that is negative.
unfoldable pub millis : ℤ → Option ℕ
millis x = let w = low_word (scaled x) in if ltb w int_max then some w else none

-- A `long` of 64 bits is its pattern, below 2 ^ 64; this is the number that the pattern stands for.
abbrev pub long_mod : ℕ
long_mod = 18_446_744_073_709_551_616

abbrev pub long_of : ℕ → ℤ
long_of w = if ltb w 9_223_372_036_854_775_808 then pos w else negsuc (long_mod - w - 1)
