-- ===== src/Zsysd/Settings/File.antt =====
-- system/zsysd/main.c: the settings file, line by line.
use mathlib.Core.List.{append_assoc}
use zelto_os.Prelude.{
  ◌<◌, ◌≡◌, ◌≢◌, refl, sym, ap, ◌∙◌, inl, inr, true, List, [], ◌∷◌, ◌++◌, some, arith,
  if◌then◌else◌, Bool-cases, length, length-append, All, All-append,
}
use zelto_os.Text.{Bytes, lines_from, lines_of, trim_end, chomp, is_eol, Free}
use zelto_os.Text.Search.{split_at-Free}
use zelto_os.Text.Lines.{lines_from-line, trim_end-last, trim_end-append}
use zelto_os.Zsysd.State.{Setting}
use zelto_os.Zsysd.Settings.{settings_text, load_pair, load_lines, setting_put}
use zelto_os.Zsysd.Settings.Table.{Fits}

-- A pair that the format can hold: no TAB or newline in the key, which is not empty; no newline in the
-- value, and no end of line at its end.
pub record IsStorable (key value : Bytes) : Type 0 where
  pub fits : Fits key value
  pub key_ne_nil : key ≢ []
  pub key_no_tab : Free b'\t' key
  pub key_no_newline : Free b'\n' key
  pub value_no_newline : Free b'\n' value
  pub value_kept : trim_end is_eol value ≡ value

abbrev row : Bytes → Bytes → Bytes
row key value = key ++ b'\t' ∷ value

chomp-row :
    (key value : Bytes) → IsStorable key value → chomp (row key value ++ b'\n' ∷ []) ≡ row key value
unfolding chomp
chomp-row key value v =
    trim_end-last is_eol (row key value) b'\n' refl
    ∙ trim_end-append is_eol key b'\t' value (kept value v.value_kept)
  where
    kept :
        (value : Bytes)
        → trim_end is_eol value ≡ value
        → trim_end is_eol (b'\t' ∷ value) ≡ b'\t' ∷ value
    kept value e = unfold trim_end in rw e

load_pair-put :
    (ss : List Setting) (key value : Bytes)
    → key ≢ []
    → load_pair ss (some (key, value)) ≡ (setting_put ss key value).0
unfolding load_pair
load_pair-put ss [] value ne = absurd (ne refl)
load_pair-put ss (c ∷ key) value ne = refl

load_lines-row :
    (ss : List Setting) (key value : Bytes) (ls : List Bytes)
    → IsStorable key value
    → load_lines ss ((row key value ++ b'\n' ∷ []) ∷ ls)
      ≡ load_lines (setting_put ss key value).0 ls
unfolding load_lines
load_lines-row ss key value ls v = rw (
  chomp-row key value v,
  split_at-Free b'\t' key value v.key_no_tab,
  load_pair-put ss key value v.key_ne_nil,
)

length-row-lt : (key value : Bytes) → Fits key value → length (row key value) < 255
length-row-lt key value f =
    omega (arith, length-append key (b'\t' ∷ value), f.key_fits, f.value_fits)

-- Every slot in use is storable.
abbrev pub Storable : Setting → Type 0
Storable s = s.used ≡ true → IsStorable s.key s.value

-- The slots in use are put one after the other.
abbrev pub put_all : List Setting → List Setting → List Setting
put_all t [] = t
put_all t (s ∷ ss) = put_all (if s.used then (setting_put t s.key s.value).0 else t) ss

-- Reading the written file puts the slots in use, in their order.
pub load_lines-settings_text :
    (t ss : List Setting)
    → All Storable ss
    → load_lines t (lines_of 255 (settings_text ss)) ≡ put_all t ss
unfolding settings_text lines_of
load_lines-settings_text t [] a = unfold lines_from load_lines in refl
load_lines-settings_text t (s ∷ ss) a = elim (Bool-cases s.used) [
  | inl e ↦
      let v = a.0 e in
      rw e (
        ap (λ x. load_lines t (lines_from 255 255 x))
          (sym (append_assoc s.key (b'\t' ∷ s.value) (b'\n' ∷ settings_text ss)))
        ∙ ap (load_lines t) (
            lines_from-line 255 255 (row s.key s.value) (settings_text ss)
              (All-append _ s.key (b'\t' ∷ s.value) v.key_no_newline (refl, v.value_no_newline))
              (length-row-lt s.key s.value v.fits))
        ∙ load_lines-row t s.key s.value (lines_from 255 255 (settings_text ss)) v
        ∙ load_lines-settings_text (setting_put t s.key s.value).0 ss a.1)
  | inr e ↦ rw e (load_lines-settings_text t ss a.1)
]
