-- ===== src/Text/Lines.antt =====
-- The lines of a text file as fgets reads them, and what chomp leaves of them.
use zelto_os.Prelude.{
  ℕ, ◌-◌, ◌<◌, ◌≡◌, refl, ◌∙◌, Bool, true, false, [], ◌∷◌, ◌++◌, arith, All, length,
}
use zelto_os.Text.{Bytes, lines_from, trim_end, cons_end, chomp, is_eol, Free}

-- A line that fits the buffer is read whole.
pub lines_from-line :
    (room left : ℕ) (l s : Bytes)
    → Free b'\n' l
    → length l < left
    → lines_from room left (l ++ b'\n' ∷ s) ≡ (l ++ b'\n' ∷ []) ∷ lines_from room room s
unfolding lines_from
lines_from-line room left [] s f h = refl
lines_from-line room left (c ∷ l) s f h =
    ground (arith, lines_from-line room (left - 1) l s f.1 (omega arith))

pub trim_end-last :
    (p : ℕ → Bool) (l : Bytes) (c : ℕ) → p c ≡ true → trim_end p (l ++ c ∷ []) ≡ trim_end p l
unfolding trim_end
trim_end-last p [] c h = ground arith
trim_end-last p (d ∷ l) c h = ground (arith, trim_end-last p l c h)

cons_end-append :
    (b : Bool) (c : ℕ) (k : Bytes) (d : ℕ) (s : Bytes)
    → cons_end b c (k ++ d ∷ s) ≡ c ∷ (k ++ d ∷ s)
unfolding cons_end
cons_end-append false c k d s = refl
cons_end-append true c [] d s = refl
cons_end-append true c (e ∷ k) d s = refl

-- Nothing is trimmed from a text that stands in front of one that is not trimmed.
pub trim_end-append :
    (p : ℕ → Bool) (k : Bytes) (d : ℕ) (s : Bytes)
    → trim_end p (d ∷ s) ≡ d ∷ s
    → trim_end p (k ++ d ∷ s) ≡ k ++ d ∷ s
unfolding trim_end
trim_end-append p [] d s h = h
trim_end-append p (c ∷ k) d s h = rw (trim_end-append p k d s h) (cons_end-append (p c) c k d s)

-- No byte ends a line.
abbrev pub Plain : Bytes → Type 0
Plain s = All (λ d. is_eol d ≡ false) s

pub Plain-Free : (s : Bytes) → Plain s → Free b'\n' s
Plain-Free [] h = tt
Plain-Free (c ∷ s) h = (ground (arith, h.0), Plain-Free s h.1)

pub trim_end-Plain : (s : Bytes) → Plain s → trim_end is_eol s ≡ s
unfolding trim_end
trim_end-Plain [] h = refl
trim_end-Plain (c ∷ s) h = rw (trim_end-Plain s h.1, h.0) (cons_end-false c s)
  where
    cons_end-false : (c : ℕ) (s : Bytes) → cons_end false c s ≡ c ∷ s
    cons_end-false c s = unfold cons_end in refl

-- A line with no end of line in it is read back as it was.
pub chomp-Plain : (s : Bytes) → Plain s → chomp (s ++ b'\n' ∷ []) ≡ s
unfolding chomp
chomp-Plain s h = trim_end-last is_eol s b'\n' refl ∙ trim_end-Plain s h
