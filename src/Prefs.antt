-- ===== src/Prefs.antt =====
-- sdk/src/storage.c, the preferences of an app: prefs_find, prefs_store and the calls on them. The file
-- is its text, or none where z_file_read has no buffer; its loops walk over the pieces between the
-- newlines. The empty piece behind a last newline, at which the loops stop, holds no pair and is not
-- copied, so that walking over it too changes nothing.
use zelto_os.Prelude.{
  ℕ, ◌+◌, ◌-◌, Bool, true, false, not, ◌&&◌, List, [], ◌∷◌, ◌++◌, Option, none, some, if◌then◌else◌,
  ltb, length,
}
use zelto_os.Number.{ℤ, show_ℤ, strtoll}
use zelto_os.Text.{Bytes, eqb, split_at, split_lines, clip}
pub mod Stores

-- The value of a line that holds the key.
abbrev pub value_if : Bytes → Option (Bytes × Bytes) → Option Bytes
value_if key none = none
value_if key (some (k, v)) = if eqb k key then some v else none

unfoldable pub line_value : Bytes → Bytes → Option Bytes
unfolding split_at eqb
line_value key line = value_if key (split_at b'\t' line)

unfoldable pub find_line : ℕ → Bytes → List Bytes → Option Bytes
unfolding line_value
find_line size key [] = none
find_line size key (l ∷ ls) = elim (line_value key l) [
  | some v ↦ some (clip size v)
  | none ↦ find_line size key ls
]

abbrev pub lines_in : Option Bytes → List Bytes
lines_in none = []
lines_in (some text) = split_lines text

unfoldable pub prefs_find : Option Bytes → Bytes → ℕ → Option Bytes
unfolding find_line split_lines
prefs_find text key size = find_line size key (lines_in text)

abbrev pub is_key : Bytes → Bytes → Bool
is_key key line = elim (line_value key line) [ some v ↦ true | none ↦ false ]

abbrev pub prefs_max : ℕ
prefs_max = 8192

-- The lines that are copied to a buffer that holds `len` bytes: not the key's, not an empty one, and
-- none that does not fit.
unfoldable pub copy_lines : Bytes → ℕ → List Bytes → Bytes
unfolding line_value
copy_lines key len [] = []
copy_lines key len (l ∷ ls) =
    let kept = l ++ b'\n' ∷ copy_lines key (len + length l + 1) ls in
    let left_out = copy_lines key len ls in
    if not (is_key key l) && (ltb 0 (length l) && ltb (len + length l + 1) prefs_max)
    then kept
    else left_out

-- The new pair, where there is one and it fits.
abbrev pub new_line : Bytes → Option Bytes → ℕ → Bytes
new_line key none len = []
new_line key (some value) len =
    let t = key ++ b'\t' ∷ (value ++ b'\n' ∷ []) in
    if ltb (length t) (prefs_max - len) then t else []

-- The text that is written back; a value of none takes the key out.
unfoldable pub prefs_store : Option Bytes → Bytes → Option Bytes → Bytes
unfolding copy_lines split_lines
prefs_store text key value =
    let buf = copy_lines key 0 (lines_in text) in buf ++ new_line key value (length buf)

abbrev pub or_fallback : Option Bytes → Option Bytes → Option Bytes
or_fallback (some v) fallback = some v
or_fallback none fallback = fallback

abbrev pub z_prefs_get_str : Option Bytes → Bytes → Option Bytes → Option Bytes
z_prefs_get_str text key fallback = or_fallback (prefs_find text key 1024) fallback

abbrev pub z_prefs_set_str : Option Bytes → Bytes → Bytes → Bytes
z_prefs_set_str text key value = prefs_store text key (some value)

-- The file after the call; a key is given.
abbrev pub z_prefs_remove : Option Bytes → Bytes → Bytes
z_prefs_remove text key = prefs_store text key none

abbrev pub z_prefs_set_int : Option Bytes → Bytes → ℤ → Bytes
z_prefs_set_int text key value = z_prefs_set_str text key (show_ℤ value)

abbrev pub int_or : Option Bytes → ℤ → ℤ
int_or none fallback = fallback
int_or (some s) fallback = strtoll s

abbrev pub z_prefs_get_int : Option Bytes → Bytes → ℤ → ℤ
z_prefs_get_int text key fallback = int_or (z_prefs_get_str text key none) fallback
