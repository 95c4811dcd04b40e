-- ===== src/Zsysd/Settings/Invariant.antt =====
-- system/zsysd/main.c: the shape of a settings table that the file can hold.
use zelto_os.Prelude.{
  ◌≤◌, ◌≡◌, sym, subst, ◌∙◌, ◌⊎◌, inl, inr, Bool, true, false, List, [], ◌∷◌, arith, Bool-cases,
  All, length,
}
use zelto_os.Prelude.Slots.{any, modify_first, length-modify_first, All-modify_first}
use zelto_os.Text.{Bytes, eqb, eqb_iff}
use zelto_os.Zsysd.State.{Setting, max_settings}
use zelto_os.Zsysd.Settings.{is_setting, is_free, write_setting, setting_slot, setting_put}
use zelto_os.Zsysd.Settings.Table.{Fits, put-unseen, any-modify_first_other, write_setting-stored}
use zelto_os.Zsysd.Settings.File.{IsStorable, Storable}
use zelto_os.Zsysd.Settings.Durable.{Distinct}

pub record IsDurable (ss : List Setting) : Type 0 where
  pub fits : length ss ≤ max_settings
  pub storable : All Storable ss
  pub distinct : Distinct ss

module _ (key value : Bytes) (f : Fits key value) where
  abbrev writes : (Setting → Bool) → List Setting → List Setting
  writes p ss = modify_first p (write_setting key value) ss

  key-ne : (s : Setting) → is_setting key s ≡ false → s.used ≡ true → eqb key s.key ≡ false
  key-ne s h u = ground (arith, eqb_iff key s.key, eqb_iff s.key key)

  -- A slot in front of the one written keeps its key to itself.
  alone :
      (p : Setting → Bool) (s : Setting) (ss : List Setting)
      → ((x : Setting) → p x ≡ true → (is_setting key x ≡ true) ⊎ (is_free x ≡ true))
      → is_setting key s ≡ false
      → s.used ≡ true
      → any (is_setting s.key) ss ≡ false
      → any (is_setting s.key) (writes p ss) ≡ false
  alone p s ss h n u a =
      any-modify_first_other p (is_setting s.key) (write_setting key value) ss
        (λ x hx. put-unseen key value s.key f (key-ne s n u) x (h x hx))
      ∙ a

  Distinct-overwrite : (ss : List Setting) → Distinct ss → Distinct (writes (is_setting key) ss)
  Distinct-overwrite [] d = tt
  Distinct-overwrite (s ∷ ss) d = elim (Bool-cases (is_setting key s)) [
    | inl e ↦
        rw e (λ u. ground (arith, d.0, eqb_iff s.key key, write_setting-stored key value s f), d.1)
    | inr e ↦
        rw e
          (λ u. alone (is_setting key) s ss (λ x h. inl h) e u (d.0 u), Distinct-overwrite ss d.1)
  ]

  Distinct-insert :
      (ss : List Setting)
      → any (is_setting key) ss ≡ false
      → Distinct ss
      → Distinct (writes is_free ss)
  Distinct-insert [] n d = tt
  Distinct-insert (s ∷ ss) n d = elim (Bool-cases (is_free s)) [
    | inl e ↦ rw e (λ u. ground (arith, write_setting-stored key value s f), d.1)
    | inr e ↦ rw e (
      λ u. alone is_free s ss (λ x h. inr h) (ground arith) u (d.0 u),
      Distinct-insert ss (ground arith) d.1,
    )
  ]

-- A put of a pair that the format can hold keeps the table durable.
pub setting_put-IsDurable :
    (ss : List Setting) (key value : Bytes)
    → IsStorable key value
    → IsDurable ss
    → IsDurable (setting_put ss key value).0
unfolding setting_put
setting_put-IsDurable ss key value v d = record {
  fits =
      ground
        (arith, length-modify_first (setting_slot ss key) (write_setting key value) ss, d.fits);
  storable =
      All-modify_first Storable (setting_slot ss key) (write_setting key value) ss
        (λ x h s. subst Storable (sym (write_setting-stored key value x v.fits)) (λ u. v))
        d.storable;
  distinct = elim (Bool-cases (any (is_setting key) ss)) [
    | inl old ↦ rw old (Distinct-overwrite key value v.fits ss d.distinct)
    | inr new ↦ rw new (Distinct-insert key value v.fits ss new d.distinct)
  ];
}
