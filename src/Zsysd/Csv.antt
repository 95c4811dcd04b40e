-- ===== src/Zsysd/Csv.antt =====
-- system/zsysd/main.c, the comma-separated lists of a manifest: csv_contains, mime_glob_match,
-- share_target_matches and scheme_of. A walk over a list takes one round more than it has bytes.
use zelto_os.Prelude.{
  ℕ, zero, suc, ◌+◌, ◌-◌, Bool, true, false, not, ◌&&◌, ◌||◌, List, [], ◌∷◌, ◌++◌, Option, none,
  some, if◌then◌else◌, ◌==◌, ltb, leb, length, take, drop,
}
use zelto_os.Prelude.Slots.{any}
use zelto_os.Text.{Bytes, eqb, strip_prefix, drop_while, take_while, trim_end, clip}
pub mod Split

abbrev pub is_sep : ℕ → Bool
is_sep c = c == b',' || c == b' '

abbrev pub is_space : ℕ → Bool
is_space c = c == b' '

abbrev pub not_comma : ℕ → Bool
not_comma c = not (c == b',')

-- One round of the outer loop, at *p != 0: the entry that starts at p, and where the round ends.
unfoldable pub entry : Bytes → Bytes
entry p = trim_end is_space (take_while not_comma (drop_while is_sep p))

unfoldable pub after_entry : Bytes → Bytes
after_entry p = drop_while not_comma (drop_while is_sep p)

-- while (*p) { ... if (test(entry)) return true; } return false;
unfoldable pub walk : (Bytes → Bool) → ℕ → Bytes → Bool
unfolding entry after_entry
walk test zero p = false
walk test (suc f) [] = false
walk test (suc f) (c ∷ s) =
    let rest = walk test f (after_entry (c ∷ s)) in if test (entry (c ∷ s)) then true else rest

-- Is `item` one of the comma-separated entries in `csv`?
unfoldable pub csv_contains : Bytes → Bytes → Bool
unfolding walk eqb
csv_contains csv item = walk (λ e. eqb e item) (suc (length csv)) csv

-- The last two bytes of a pattern are "/*".
unfoldable pub ends_with_star : Bytes → Bool
ends_with_star [] = false
ends_with_star (c ∷ []) = false
ends_with_star (c ∷ d ∷ []) = c == b'/' && d == b'*'
ends_with_star (c ∷ d ∷ e ∷ s) = ends_with_star (d ∷ e ∷ s)

abbrev pub is_some {ℓ} : {A : Type ℓ} → Option A → Bool
is_some none = false
is_some (some a) = true

-- Exact, or a "type/*" glob: compare up to and with the slash.
unfoldable pub mime_glob_match : Bytes → Bytes → Bool
unfolding ends_with_star eqb strip_prefix
mime_glob_match pattern mime =
    if ends_with_star pattern
    then is_some (strip_prefix (take (length pattern - 1) pattern) mime)
    else eqb pattern mime

-- The test on one entry: an entry that is not empty, cut to the buffer of 64 bytes.
unfoldable pub accepts : Bytes → Bytes → Bool
unfolding mime_glob_match
accepts mime [] = false
accepts mime (c ∷ s) = mime_glob_match (clip 64 (c ∷ s)) mime

-- Does this app accept `mime` (any entry in its share_targets CSV matches)?
unfoldable pub share_target_matches : Bytes → Bytes → Bool
unfolding walk accepts
share_target_matches targets mime = walk (accepts mime) (suc (length targets)) targets

-- Copy the scheme of a URL ("zelto://note/42" -> "zelto") into a buffer of n bytes.
unfoldable pub scheme_of : Bytes → ℕ → Bytes
unfolding take_while
scheme_of url n = clip n (take_while (λ c. not (c == b':')) url)
