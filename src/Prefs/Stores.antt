-- ===== src/Prefs/Stores.antt =====
-- sdk/src/storage.c: what is read from the preferences after a store.
use mathlib.Core.List.{append_assoc}
use zelto_os.Prelude.{
  ℕ, ◌+◌, ◌≤◌, ◌<◌, ◌≡◌, refl, sym, inl, inr, false, List, [], ◌∷◌, ◌++◌, Option, none, some, arith,
  if◌then◌else◌, ◌==◌, Bool-cases, Option-cases, All, length, length-append,
}
use zelto_os.Text.{Bytes, eqb, eqb_iff, split_at, split_lines, cons_token, clip, Free}
use zelto_os.Text.Search.{split_at-Free}
use zelto_os.Prefs.{find_line, lines_in, prefs_find, prefs_max, copy_lines, prefs_store}

split_lines-line : (l s : Bytes) → Free b'\n' l → split_lines (l ++ b'\n' ∷ s) ≡ l ∷ split_lines s
unfolding split_lines
split_lines-line [] s f = refl
split_lines-line (c ∷ l) s f = ground (arith, split_lines-line l s f.1)

abbrev total : List Bytes → ℕ
total [] = 0
total (l ∷ ls) = length l + 1 + total ls

cons_token-total :
    (c : ℕ) (ls : List Bytes)
    → (c == b'\n') ≡ false
    → All (Free b'\n') ls
    → (total (cons_token c ls) ≤ 1 + total ls + 1) × All (Free b'\n') (cons_token c ls)
unfolding cons_token
cons_token-total c [] h a = (omega arith, ((h, tt), tt))
cons_token-total c (l ∷ ls) h a = (omega arith, ((h, a.0), a.1))

split_lines-Free : (s : Bytes) → All (Free b'\n') (split_lines s)
unfolding split_lines
split_lines-Free [] = (tt, tt)
split_lines-Free (c ∷ s) = elim (Bool-cases (c == b'\n')) [
  | inl e ↦ rw e (tt, split_lines-Free s)
  | inr e ↦ rw e ((cons_token-total c (split_lines s) e (split_lines-Free s)).1)
]

-- The pieces and their newlines are as long as the text and one newline.
split_lines-total :
    (s : Bytes) → (0 < length (split_lines s)) × (total (split_lines s) ≡ length s + 1)
unfolding split_lines cons_token
split_lines-total [] = (omega arith, omega arith)
split_lines-total (c ∷ s) = elim (Bool-cases (c == b'\n')) [
  | inl e ↦ rw e (omega arith, omega (arith, (split_lines-total s).1))
  | inr e ↦ rw e (longer (split_lines s) (split_lines-total s).0 (split_lines-total s).1)
]
  where
    longer :
        (ls : List Bytes)
        → 0 < length ls
        → total ls ≡ length s + 1
        → (0 < length (cons_token c ls)) × (total (cons_token c ls) ≡ length (c ∷ s) + 1)
    longer [] h k = absurd (omega (arith, h))
    longer (l ∷ ls) h k = (omega arith, omega (arith, k))

abbrev or_else : Option Bytes → Option Bytes → Option Bytes
or_else none o = o
or_else (some v) o = some v

-- Reading behind the copy: the copied lines first, if the key is another one, then what follows.
find_line-copy_lines :
    (size len : ℕ) (key key' : Bytes) (ls : List Bytes) (rest : Bytes)
    → All (Free b'\n') ls
    → len + total ls < prefs_max
    → find_line size key' (split_lines (copy_lines key len ls ++ rest)) ≡ (
        if eqb key key'
        then find_line size key' (split_lines rest)
        else or_else (find_line size key' ls) (find_line size key' (split_lines rest)))
unfolding copy_lines find_line
find_line-copy_lines size len key key' [] rest a h = ground arith
find_line-copy_lines size len key key' ([] ∷ ls) rest a h =
    ground (arith, find_line-copy_lines size len key key' ls rest a.1)
find_line-copy_lines size len key key' ((c ∷ l) ∷ ls) rest a h =
    elim (Option-cases (split_at b'\t' (c ∷ l))) [
      | inl e ↦ ground (
        arith,
        e,
        append_assoc (c ∷ l) (b'\n' ∷ copy_lines key (len + length (c ∷ l) + 1) ls) rest,
        split_lines-line (c ∷ l) (copy_lines key (len + length (c ∷ l) + 1) ls ++ rest) a.0,
        find_line-copy_lines size (len + length (c ∷ l) + 1) key key' ls rest a.1,
        find_line-copy_lines size len key key' ls rest a.1,
      )
      | inr ((k, v), e) ↦ ground (
        arith,
        e,
        eqb_iff k key,
        eqb_iff k key',
        eqb_iff key key',
        append_assoc (c ∷ l) (b'\n' ∷ copy_lines key (len + length (c ∷ l) + 1) ls) rest,
        split_lines-line (c ∷ l) (copy_lines key (len + length (c ∷ l) + 1) ls ++ rest) a.0,
        find_line-copy_lines size (len + length (c ∷ l) + 1) key key' ls rest a.1,
        find_line-copy_lines size len key key' ls rest a.1,
      )
    ]

length-copy_lines-le :
    (key : Bytes) (len : ℕ) (ls : List Bytes) → length (copy_lines key len ls) ≤ total ls
unfolding copy_lines
length-copy_lines-le key len [] = omega arith
length-copy_lines-le key len (l ∷ ls) = ground (
  arith,
  length-append l (b'\n' ∷ copy_lines key (len + length l + 1) ls),
  length-copy_lines-le key (len + length l + 1) ls,
  length-copy_lines-le key len ls,
)

Free-append : (c : ℕ) (a b : Bytes) → Free c a → Free c b → Free c (a ++ b)
Free-append c [] b fa fb = fb
Free-append c (x ∷ a) b fa fb = (fa.0, Free-append c a b fa.1 fb)

-- A pair that the format can hold.
pub record IsPair (key value : Bytes) : Type 0 where
  pub key_no_tab : Free b'\t' key
  pub key_no_newline : Free b'\n' key
  pub value_no_newline : Free b'\n' value

abbrev row : Bytes → Bytes → Bytes
row key value = key ++ b'\t' ∷ (value ++ b'\n' ∷ [])

find_line-row :
    (size : ℕ) (key value key' : Bytes)
    → IsPair key value
    → find_line size key' (split_lines (row key value))
      ≡ (if eqb key key' then some (clip size value) else none)
unfolding find_line split_lines
find_line-row size key value key' p =
    rw
      (
        sym (append_assoc key (b'\t' ∷ value) (b'\n' ∷ [])),
        split_lines-line (key ++ b'\t' ∷ value) []
            (Free-append b'\n' key (b'\t' ∷ value) p.key_no_newline (refl, p.value_no_newline)),
      )
      (ground (arith, split_at-Free b'\t' key value p.key_no_tab))

abbrev pub content : Option Bytes → Bytes
content none = []
content (some text) = text

lines_in-total :
    (text : Option Bytes)
    → (total (lines_in text) ≤ length (content text) + 1) × All (Free b'\n') (lines_in text)
lines_in-total none = (omega arith, tt)
lines_in-total (some text) = (omega (arith, (split_lines-total text).1), split_lines-Free text)

-- After a store of a pair that the format can hold, to a file that leaves room for it in the buffer, the
-- key has the value, cut to the reader's buffer, and every other key has what it had.
pub prefs_find-prefs_store :
    (text : Option Bytes) (key value key' : Bytes) (size : ℕ)
    → IsPair key value
    → length (content text) + length key + length value + 3 < prefs_max
    → prefs_find (some (prefs_store text key (some value))) key' size
      ≡ (if eqb key key' then some (clip size value) else prefs_find text key' size)
unfolding prefs_find prefs_store
prefs_find-prefs_store text key value key' size p h = ground (
  arith,
  length-append key (b'\t' ∷ (value ++ b'\n' ∷ [])),
  length-append value (b'\n' ∷ []),
  length-copy_lines-le key 0 (lines_in text),
  lines_in-total text,
  find_line-copy_lines size 0 key key' (lines_in text) (row key value) (lines_in-total text).1,
  find_line-row size key value key' p,
)

-- After a removal the key is not found, and every other key has what it had.
pub prefs_find-prefs_store-none :
    (text : Option Bytes) (key key' : Bytes) (size : ℕ)
    → length (content text) + 1 < prefs_max
    → prefs_find (some (prefs_store text key none)) key' size
      ≡ (if eqb key key' then none else prefs_find text key' size)
unfolding prefs_find prefs_store find_line split_lines
prefs_find-prefs_store-none text key key' size h = ground (
  arith,
  lines_in-total text,
  find_line-copy_lines size 0 key key' (lines_in text) [] (lines_in-total text).1,
)
