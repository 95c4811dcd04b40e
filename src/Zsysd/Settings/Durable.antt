-- ===== src/Zsysd/Settings/Durable.antt =====
-- system/zsysd/main.c: the settings over a restart of the broker.
use zelto_os.Prelude.{
  ℕ, zero, suc, ◌≤◌, ◌≡◌, refl, ap, inl, inr, Bool, true, false, List, [], ◌∷◌, some, arith,
  if◌then◌else◌, Bool-cases, All, length, replicate,
}
use zelto_os.Prelude.Slots.{any, count, any-find?}
use zelto_os.Text.{Bytes, eqb_iff}
use zelto_os.Zsysd.State.{Setting, empty_setting, max_settings}
use zelto_os.Zsysd.Settings.{
  is_setting, setting_find, value_of, setting_value, setting_put, settings_load, settings_text,
}
use zelto_os.Zsysd.Settings.Table.{Fits, room, put_new, has-setting_put_other, setting_put_lem}
use zelto_os.Zsysd.Settings.File.{Storable, put_all, load_lines-settings_text}

-- No key stands in two slots in use.
abbrev pub Distinct : List Setting → Type 0
Distinct [] = Unit
Distinct (s ∷ ss) = (s.used ≡ true → any (is_setting s.key) ss ≡ false) × Distinct ss

abbrev pub in_use : Setting → Bool
in_use s = s.used

abbrev Absent : List Setting → Setting → Type 0
Absent t s = s.used ≡ true → any (is_setting s.key) t ≡ false

-- A key that stands in none of the slots of `ss` stays new to the table after a put of another key.
Absent-put :
    (t : List Setting) (key value : Bytes) (ss : List Setting)
    → Fits key value
    → any (is_setting key) ss ≡ false
    → All (Absent t) ss
    → All (Absent (setting_put t key value).0) ss
Absent-put t key value [] f d a = tt
Absent-put t key value (s ∷ ss) f d a = (
  λ u. ground (
    arith,
    a.0 u,
    eqb_iff key s.key,
    eqb_iff s.key key,
    has-setting_put_other t key value s.key f,
  ),
  Absent-put t key value ss f (ground arith) a.1,
)

setting_value-absent :
    (ss : List Setting) (k : Bytes) → any (is_setting k) ss ≡ false → setting_value ss k ≡ []
unfolding setting_value
setting_value-absent ss k h = ap value_of (any-find? (is_setting k) ss h)

setting_value-cons :
    (s : Setting) (ss : List Setting) (k : Bytes)
    → setting_value (s ∷ ss) k ≡ (if is_setting k s then s.value else setting_value ss k)
unfolding setting_value setting_find
setting_value-cons s ss k = ground arith

put_all-setting_value :
    (t ss : List Setting) (k : Bytes)
    → All Storable ss
    → Distinct ss
    → All (Absent t) ss
    → count in_use ss ≤ room t
    → setting_value (put_all t ss) k
      ≡ (if any (is_setting k) ss then setting_value ss k else setting_value t k)
put_all-setting_value t [] k v d a r = refl
put_all-setting_value t (s ∷ ss) k v d a r = elim (Bool-cases s.used) [
  | inl e ↦
      let f = (v.0 e).fits in
      let new = put_new t s.key s.value (a.0 e) (ground arith) in
      let t' = (setting_put t s.key s.value).0 in
      let later =
        put_all-setting_value t' ss k v.1 d.1 (Absent-put t s.key s.value ss f (d.0 e) a.1)
          (ground (arith, new.1)) in
      rw e (
        ground (
          arith,
          later,
          new.0,
          d.0 e,
          eqb_iff s.key k,
          setting_put_lem t s.key s.value k f,
          setting_value-cons s ss k,
        ))
  | inr e ↦
      let later = put_all-setting_value t ss k v.1 d.1 a.1 (ground arith) in
      rw e (ground (arith, later, setting_value-cons s ss k))
]

any-replicate : (n : ℕ) (k : Bytes) → any (is_setting k) (replicate n empty_setting) ≡ false
any-replicate zero k = refl
any-replicate (suc n) k = any-replicate n k

room-replicate : (n : ℕ) → room (replicate n empty_setting) ≡ n
room-replicate zero = refl
room-replicate (suc n) = omega (arith, room-replicate n)

Absent-replicate : (n : ℕ) (ss : List Setting) → All (Absent (replicate n empty_setting)) ss
Absent-replicate n [] = tt
Absent-replicate n (s ∷ ss) = (λ u. any-replicate n s.key, Absent-replicate n ss)

count-le-length : (ss : List Setting) → count in_use ss ≤ length ss
count-le-length [] = omega arith
count-le-length (s ∷ ss) = ground (arith, count-le-length ss)

-- A broker that starts over loads from the file what the one before it had written through: every key
-- has the value that it had, and a key that was unset is unset. No key stands in two slots of the
-- table; a key in use fits its buffer, is not empty and holds no TAB or newline, and its value fits its
-- buffer, holds no newline and does not end in a carriage return.
pub settings_load-settings_text :
    (ss : List Setting) (k : Bytes)
    → length ss ≤ max_settings
    → All Storable ss
    → Distinct ss
    → setting_value
        (settings_load (replicate max_settings empty_setting) (some (settings_text ss)))
        k
      ≡ setting_value ss k
unfolding settings_load
settings_load-settings_text ss k len v d =
    rw (load_lines-settings_text (replicate max_settings empty_setting) ss v) (
      ground (
        arith,
        put_all-setting_value (replicate max_settings empty_setting) ss k v d
            (Absent-replicate max_settings ss)
            (omega (arith, count-le-length ss, room-replicate max_settings)),
        setting_value-absent ss k,
        setting_value-absent (replicate max_settings empty_setting) k
            (any-replicate max_settings k),
      ))
