-- ===== src/Zsysd/Csv/Split.antt =====
-- system/zsysd/main.c: the walk over a comma-separated list, and the list split at its commas.
use zelto_os.Prelude.{
  ℕ, zero, suc, ◌≤◌, ◌<◌, ◌≡◌, refl, Bool, true, false, List, [], ◌∷◌, arith, if◌then◌else◌, ◌==◌,
  length,
}
use zelto_os.Prelude.Slots.{any}
use zelto_os.Text.{Bytes, eqb, drop_while, take_while, trim_end}
use zelto_os.Zsysd.Csv.{
  is_sep, is_space, not_comma, walk, csv_contains, accepts, share_target_matches,
}

-- The pieces between the commas: one more than there are commas.
unfoldable pub cons_piece : ℕ → List Bytes → List Bytes
cons_piece c [] = (c ∷ []) ∷ []
cons_piece c (l ∷ ls) = (c ∷ l) ∷ ls

unfoldable pub split_commas : Bytes → List Bytes
unfolding cons_piece
split_commas [] = [] ∷ []
split_commas (c ∷ s) =
    let rest = split_commas s in if c == b',' then [] ∷ rest else cons_piece c rest

-- A piece with no blanks at its ends.
unfoldable pub trim : Bytes → Bytes
trim s = trim_end is_space (drop_while is_space s)

abbrev tail_pieces : Bytes → List Bytes
tail_pieces [] = []
tail_pieces (c ∷ s) = split_commas s

split_commas-first :
    (s : Bytes) → split_commas s ≡ take_while not_comma s ∷ tail_pieces (drop_while not_comma s)
unfolding split_commas take_while drop_while
split_commas-first [] = refl
split_commas-first (c ∷ s) = ground (arith, split_commas-first s)

length-drop_while-le : (p : ℕ → Bool) (s : Bytes) → length (drop_while p s) ≤ length s
unfolding drop_while
length-drop_while-le p [] = omega arith
length-drop_while-le p (c ∷ s) = ground (arith, length-drop_while-le p s)

module _ (test : Bytes → Bool) (skips : test [] ≡ false) where
  abbrev any_piece : List Bytes → Bool
  any_piece = any (λ e. test (trim e))

  -- A round that starts at a separator starts at what follows it.
  walk-sep :
      (f c : ℕ) (s : Bytes) → is_sep c ≡ true → walk test (suc f) (c ∷ s) ≡ walk test (suc f) s
  unfolding walk drop_while take_while trim_end
  walk-sep zero c [] h = ground (arith, skips)
  walk-sep (suc f) c [] h = ground (arith, skips)
  walk-sep f c (d ∷ s) h = ground arith

  any_piece-space :
      (c : ℕ) (s : Bytes)
      → is_space c ≡ true
      → any_piece (split_commas (c ∷ s)) ≡ any_piece (split_commas s)
  unfolding split_commas trim drop_while
  any_piece-space c s h = ground (arith, split_commas-first s)

  any_piece-tail :
      (s : Bytes)
      → any_piece (tail_pieces (drop_while not_comma s))
        ≡ any_piece (split_commas (drop_while not_comma s))
  unfolding split_commas trim drop_while trim_end
  any_piece-tail [] = ground (arith, skips)
  any_piece-tail (c ∷ s) = ground (arith, skips, any_piece-tail s)

  -- At any other byte a round tests the first piece and ends behind it.
  walk-entry :
      (f c : ℕ) (s : Bytes)
      → is_sep c ≡ false
      → walk test f (drop_while not_comma s) ≡ any_piece (split_commas (drop_while not_comma s))
      → walk test (suc f) (c ∷ s) ≡ any_piece (split_commas (c ∷ s))
  unfolding walk split_commas trim drop_while take_while
  walk-entry f c s h ih = ground (arith, split_commas-first s, any_piece-tail s)

  any_piece-comma :
      (c : ℕ) (s : Bytes)
      → (c == b',') ≡ true
      → any_piece (split_commas (c ∷ s)) ≡ any_piece (split_commas s)
  unfolding split_commas trim drop_while trim_end
  any_piece-comma c s h = ground (arith, skips)

  walk-split : (f : ℕ) (s : Bytes) → length s < f → walk test f s ≡ any_piece (split_commas s)
  walk-split zero s h = absurd (omega arith)
  walk-split (suc f) [] h =
      unfold walk split_commas trim drop_while trim_end in ground (arith, skips)
  walk-split (suc f) (c ∷ s) h = ground (
    arith,
    walk-sep f c s,
    any_piece-space c s,
    any_piece-comma c s,
    walk-split (suc f) s (omega arith),
    walk-entry f c s,
    walk-split f (drop_while not_comma s) (omega (arith, length-drop_while-le not_comma s)),
  )

-- A list contains an item that is not empty exactly if the item is one of the pieces between its
-- commas, the blanks at the ends of each piece aside.
pub csv_contains-split :
    (csv item : Bytes)
    → eqb [] item ≡ false
    → csv_contains csv item ≡ any (λ e. eqb (trim e) item) (split_commas csv)
unfolding csv_contains
csv_contains-split csv item h = walk-split (λ e. eqb e item) h (suc (length csv)) csv (omega arith)

-- An app takes a MIME type exactly if a piece of its share_targets that is not blank, cut to 63
-- bytes, is that type or a glob over it.
pub share_target_matches-split :
    (targets mime : Bytes)
    → share_target_matches targets mime ≡ any (λ e. accepts mime (trim e)) (split_commas targets)
unfolding share_target_matches
share_target_matches-split targets mime =
    walk-split (accepts mime) (unfold accepts in refl) (suc (length targets)) targets (omega arith)
