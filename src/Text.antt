-- ===== src/Text.antt =====
-- NUL-terminated C strings as lists of bytes with no NUL, and the libc calls on them that the
-- sources make: strcmp, strncmp, strstr, strchr, bounded copies, and the loops that skip bytes.
use Prim.Native.Char.{code}
use Prim.Native.String.{String}
use zelto_os.Prelude.{
  ℕ, zero, suc, ◌+◌, ◌-◌, ◌<◌, ◌≤◌, ◌≡◌, ◌↔◌, refl, ap, Bool, true, false, not, ◌&&◌, ◌||◌, List,
  [], ◌∷◌, ◌++◌, Option, none, some, arith, if◌then◌else◌, ◌==◌, leb, length, take, All,
  length-take-le,
}
pub mod Search
pub mod Lines

abbrev pub Bytes : Type 0
Bytes = List ℕ

-- A literal of the source: the code points of an ASCII text.
abbrev pub codes : String → Bytes
codes String.[] = []
codes (String.◌∷◌ c s) = code c ∷ codes s

-- strcmp(a, b) == 0
unfoldable pub eqb : Bytes → Bytes → Bool
eqb [] [] = true
eqb (x ∷ xs) (y ∷ ys) = x == y && eqb xs ys
eqb _ _ = false

pub eqb_iff : (a b : Bytes) → (eqb a b ≡ true) ↔ (a ≡ b)
unfolding eqb
eqb_iff (x ∷ a) (y ∷ b) = ground (arith, eqb_iff a b)
eqb_iff _ _ = ground arith

pub eqb_refl : (a : Bytes) → eqb a a ≡ true
eqb_refl a = (eqb_iff a a).1 refl

-- snprintf(dst, n, "%s", s): at most n - 1 bytes are kept.
abbrev pub clip : ℕ → Bytes → Bytes
clip n s = take (n - 1) s

-- strncmp(s, pat, strlen(pat)) == 0, with what follows the prefix.
unfoldable pub strip_prefix : Bytes → Bytes → Option Bytes
strip_prefix [] s = some s
strip_prefix (c ∷ pat) [] = none
strip_prefix (c ∷ pat) (d ∷ s) = if c == d then strip_prefix pat s else none

-- strstr(s, pat) + strlen(pat), for a pattern that is not empty.
unfoldable pub find_after : Bytes → Bytes → Option Bytes
unfolding strip_prefix
find_after pat [] = none
find_after pat (c ∷ s) = elim (strip_prefix pat (c ∷ s)) [
  | some rest ↦ some rest
  | none ↦ find_after pat s
]

-- strchr(s, c) + 1
unfoldable pub after_char : ℕ → Bytes → Option Bytes
after_char c [] = none
after_char c (d ∷ s) = if d == c then some s else after_char c s

-- strchr(s, c): what stands before the first c, and what stands behind it.
unfoldable pub split_at : ℕ → Bytes → Option (Bytes × Bytes)
split_at c [] = none
split_at c (d ∷ s) =
    let rest = split_at c s in
    if d == c then some ([], s) else elim rest [ none ↦ none | some (a, b) ↦ some (d ∷ a, b) ]

-- while (test(*p)) p++;
unfoldable pub drop_while : (ℕ → Bool) → Bytes → Bytes
drop_while p [] = []
drop_while p (c ∷ s) = if p c then drop_while p s else c ∷ s

unfoldable pub take_while : (ℕ → Bool) → Bytes → Bytes
take_while p [] = []
take_while p (c ∷ s) = if p c then c ∷ take_while p s else []

unfoldable pub cons_end : Bool → ℕ → Bytes → Bytes
cons_end true c [] = []
cons_end _ c s = c ∷ s

-- while (n > 0 && test(s[n - 1])) n--;
unfoldable pub trim_end : (ℕ → Bool) → Bytes → Bytes
unfolding cons_end
trim_end p [] = []
trim_end p (c ∷ s) = cons_end (p c) c (trim_end p s)

unfoldable pub cons_line : ℕ → List Bytes → List Bytes
cons_line c [] = (c ∷ []) ∷ []
cons_line c (l ∷ ls) = (c ∷ l) ∷ ls

-- The texts that `while (fgets(line, room + 1, f))` reads in turn: each ends behind a newline, at `room`
-- bytes, or at the end of the file. The second argument is the room left in the current line.
unfoldable pub lines_from : ℕ → ℕ → Bytes → List Bytes
unfolding cons_line
lines_from room left [] = []
lines_from room left (c ∷ s) =
    let ends = c == b'\n' || leb left 1 in
    let rest = lines_from room (if ends then room else left - 1) s in
    if ends then (c ∷ []) ∷ rest else cons_line c rest

unfoldable pub lines_of : ℕ → Bytes → List Bytes
unfolding lines_from
lines_of room s = lines_from room room s

abbrev pub is_eol : ℕ → Bool
is_eol c = c == b'\n' || c == b'\r'

-- Strip a trailing CR/LF in place.
unfoldable pub chomp : Bytes → Bytes
unfolding trim_end
chomp s = trim_end is_eol s

-- No byte of the text is `c`.
abbrev pub Free : ℕ → Bytes → Type 0
Free c s = All (λ d. (d == c) ≡ false) s

-- The pieces between the newlines: one more than there are newlines.
unfoldable pub cons_token : ℕ → List Bytes → List Bytes
cons_token c [] = (c ∷ []) ∷ []
cons_token c (l ∷ ls) = (c ∷ l) ∷ ls

unfoldable pub split_lines : Bytes → List Bytes
unfolding cons_token
split_lines [] = [] ∷ []
split_lines (c ∷ s) =
    let rest = split_lines s in if c == b'\n' then [] ∷ rest else cons_token c rest
