-- ===== src/Installer/Versions.antt =====
-- system/installer/main.c: version_cmp.
use zelto_os.Prelude.{
  ℕ, zero, suc, ◌+◌, ◌-◌, ◌*◌, ◌%◌, Bool, true, false, ◌&&◌, List, [], ◌∷◌, Option, none, some,
  if◌then◌else◌, ◌==◌, ltb, leb, length,
}
use zelto_os.Text.{Bytes}
use zelto_os.Number.{ℤ, pos, negsuc, eqb_ℤ, ltb_ℤ, long_mod, long_of}
use zelto_os.Zsysd.Wire.{is_digit}
pub mod Order
pub mod Numbers

-- The number up to the next dot, over what is no digit, and what is left from the dot on. The number
-- is the pattern of a long, and wraps around at 64 bits.
unfoldable pub component : ℕ → Bytes → ℕ × Bytes
component n [] = (n, [])
component n (c ∷ s) =
    let rest = component (if is_digit c then (n * 10 + (c - b'0')) % long_mod else n) s in
    if c == b'.' then (n, c ∷ s) else rest

abbrev pub skip_dot : Bytes → Bytes
skip_dot [] = []
skip_dot (c ∷ s) = if c == b'.' then s else c ∷ s

abbrev pub is_empty : Bytes → Bool
is_empty [] = true
is_empty (c ∷ s) = false

-- The rounds of the loop, by fuel; `none` is a loop that has not ended.
unfoldable pub cmp_from : ℕ → Bytes → Bytes → Option ℤ
unfolding component
cmp_from zero a b = none
cmp_from (suc f) a b =
    let (na, a') = component 0 a in
    let (nb, b') = component 0 b in
    let va = long_of na in
    let vb = long_of nb in
    let rest = cmp_from f (skip_dot a') (skip_dot b') in
    if is_empty a && is_empty b
    then some (pos 0)
    else if eqb_ℤ va vb
    then rest
    else some (if ltb_ℤ va vb then negsuc 0 else pos 1)

-- Each round takes a byte off one of the texts, or ends.
unfoldable pub version_cmp : Bytes → Bytes → Option ℤ
unfolding cmp_from
version_cmp a b = cmp_from (suc (length a + length b)) a b
