-- ===== src/Text/Search.antt =====
-- Laws of the searches over text that does not hold the byte searched for.
use zelto_os.Prelude.{
  ℕ, ◌≡◌, refl, inl, inr, [], ◌∷◌, ◌++◌, none, some, arith, if◌then◌else◌, Bool-cases,
}
use zelto_os.Text.{Bytes, eqb, strip_prefix, find_after, after_char, split_at, Free}

pub split_at-Free : (c : ℕ) (a b : Bytes) → Free c a → split_at c (a ++ c ∷ b) ≡ some (a, b)
unfolding split_at
split_at-Free c [] b f = ground arith
split_at-Free c (d ∷ a) b f = ground (arith, split_at-Free c a b f.1)

pub after_char-skip : (c : ℕ) (a b : Bytes) → Free c a → after_char c (a ++ b) ≡ after_char c b
unfolding after_char
after_char-skip c [] b f = refl
after_char-skip c (d ∷ a) b f = ground (arith, after_char-skip c a b f.1)

-- Between two quotes a quoted pattern is found exactly if it is the whole text there.
pub strip_prefix-quoted :
    (q : ℕ) (k s rest : Bytes)
    → Free q k
    → Free q s
    → strip_prefix (k ++ q ∷ []) (s ++ q ∷ rest) ≡ (if eqb k s then some rest else none)
unfolding strip_prefix eqb
strip_prefix-quoted q [] [] rest fk fs = ground arith
strip_prefix-quoted q [] (d ∷ s) rest fk fs = ground arith
strip_prefix-quoted q (c ∷ k) [] rest fk fs = ground arith
strip_prefix-quoted q (c ∷ k) (d ∷ s) rest fk fs =
    ground (arith, strip_prefix-quoted q k s rest fk.1 fs.1)

-- A search for a pattern that starts with `q` skips text with no `q`.
pub find_after-skip :
    (q : ℕ) (pat s rest : Bytes)
    → Free q s
    → find_after (q ∷ pat) (s ++ rest) ≡ find_after (q ∷ pat) rest
unfolding find_after
find_after-skip q pat [] rest f = refl
find_after-skip q pat (d ∷ s) rest f = ground (arith, find_after-skip q pat s rest f.1)

-- At a quoted text the search stops if it is the pattern's, and goes on at its second quote if not.
pub find_after-quoted :
    (q : ℕ) (k s rest : Bytes)
    → Free q k
    → Free q s
    → find_after (q ∷ (k ++ q ∷ [])) (q ∷ (s ++ q ∷ rest))
      ≡ (if eqb k s then some rest else find_after (q ∷ (k ++ q ∷ [])) (q ∷ rest))
unfolding find_after
find_after-quoted q k s rest fk fs = elim (Bool-cases (eqb k s)) [
  | inl e ↦ ground (arith, strip_prefix-quoted q k s rest fk fs)
  | inr e ↦
      ground (
        arith,
        strip_prefix-quoted q k s rest fk fs,
        find_after-skip q (k ++ q ∷ []) s (q ∷ rest) fs,
      )
]
