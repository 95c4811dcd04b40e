-- ===== src/Zsysd/Settings/Table.antt =====
-- system/zsysd/main.c: the settings table as a map from keys to values.
use zelto_os.Prelude.{
  ℕ, ◌+◌, ◌≤◌, ◌<◌, ◌≡◌, refl, ap, ◌∙◌, ◌⊎◌, inl, inr, Bool, true, false, ◌&&◌, List, [], ◌∷◌,
  arith, if◌then◌else◌, Bool-cases, length, take-eq_self,
}
use zelto_os.Prelude.Slots.{
  any, modify_first, count, any-some, any-find?, find?-modify_first, find?-modify_first_other,
  find?-insert, modify_first-none,
}
use zelto_os.Text.{Bytes, eqb, eqb_iff}
use zelto_os.Zsysd.State.{Setting}
use zelto_os.Zsysd.Settings.{
  is_setting, is_free, value_of, setting_value, write_setting, setting_slot, setting_put,
}

-- The key and the value fit their buffers, as every pair read from a request does.
pub record Fits (key value : Bytes) : Type 0 where
  pub key_fits : length key ≤ 63
  pub value_fits : length value ≤ 159

abbrev pub stored : Bytes → Bytes → Setting
stored key value = record { used = true; key = key; value = value }

pub write_setting-stored :
    (key value : Bytes) (s : Setting)
    → Fits key value
    → write_setting key value s ≡ stored key value
write_setting-stored key value s f =
    ground (arith, take-eq_self 63 key f.key_fits, take-eq_self 159 value f.value_fits)

write_setting-hits :
    (key value : Bytes) (s : Setting)
    → Fits key value
    → is_setting key (write_setting key value s) ≡ true
write_setting-hits key value s f = ground (arith, take-eq_self 63 key f.key_fits, eqb_iff key key)

-- A pair that is put is read back; the put fails only for a new key in a full table.
pub setting_value-setting_put :
    (ss : List Setting) (key value : Bytes)
    → Fits key value
    → (setting_put ss key value).1 ≡ true
    → setting_value (setting_put ss key value).0 key ≡ value
unfolding setting_value setting_put
setting_value-setting_put ss key value f room = elim (Bool-cases (any (is_setting key) ss)) [
  | inl old ↦
      let (x, found) = any-some (is_setting key) ss old in
      rw old (
        ap value_of (find?-modify_first _ _ ss found (write_setting-hits key value x f))
        ∙ take-eq_self 159 value f.value_fits)
  | inr new ↦
      let (x, found) = any-some is_free ss (rw new at room) in
      rw new (
        ap value_of (
          find?-insert _ _ (write_setting key value) ss (any-find? _ ss new) found
            (write_setting-hits key value x f))
        ∙ take-eq_self 159 value f.value_fits)
]

pub put-unseen :
    (key value key' : Bytes)
    → Fits key value
    → eqb key key' ≡ false
    → (x : Setting) → (is_setting key x ≡ true) ⊎ (is_free x ≡ true)
    → (is_setting key' x ≡ false) × (is_setting key' (write_setting key value x) ≡ false)
put-unseen key value key' f ne x h =
    ground (arith, write_setting-stored key value x f, eqb_iff x.key key)

-- No other key is touched, whether there is room or not.
pub setting_value-setting_put_other :
    (ss : List Setting) (key value key' : Bytes)
    → Fits key value
    → eqb key key' ≡ false
    → setting_value (setting_put ss key value).0 key' ≡ setting_value ss key'
unfolding setting_value setting_put
setting_value-setting_put_other ss key value key' f ne = ap value_of (
    find?-modify_first_other _ _ _ ss λ x h.
      put-unseen key value key' f ne x (ground (arith, Bool-cases (any (is_setting key) ss))))

setting_put-full :
    (ss : List Setting) (key value : Bytes)
    → (setting_put ss key value).1 ≡ false
    → (setting_put ss key value).0 ≡ ss
unfolding setting_put
setting_put-full ss key value full =
    modify_first-none (setting_slot ss key) (write_setting key value) ss full

-- What the table says of a key after a put of a key and a value that fit their buffers: the new
-- value under that key, if there was room; under every other key, and where there was no room,
-- what it said before.
pub setting_put_lem :
    (ss : List Setting) (key value key' : Bytes)
    → Fits key value
    → setting_value (setting_put ss key value).0 key'
      ≡ (if eqb key key' && (setting_put ss key value).1 then value else setting_value ss key')
setting_put_lem ss key value key' f = ground (
  arith,
  eqb_iff key key',
  setting_value-setting_put ss key value f,
  setting_put-full ss key value,
  setting_value-setting_put_other ss key value key' f,
)

-- How many slots are free.
abbrev pub room : List Setting → ℕ
room ss = count is_free ss

room-insert :
    (ss : List Setting) (key value : Bytes)
    → any is_free ss ≡ true
    → room (modify_first is_free (write_setting key value) ss) + 1 ≡ room ss
room-insert [] key value h = cc
room-insert (s ∷ ss) key value h = ground (arith, room-insert ss key value)

room-any : (ss : List Setting) → 0 < room ss → any is_free ss ≡ true
room-any [] h = absurd (omega arith)
room-any (s ∷ ss) h = ground (arith, room-any ss)

pub put_new :
    (ss : List Setting) (key value : Bytes)
    → any (is_setting key) ss ≡ false
    → 0 < room ss
    → ((setting_put ss key value).1 ≡ true) × (room (setting_put ss key value).0 + 1 ≡ room ss)
unfolding setting_put
put_new ss key value new h = ground (arith, room-any ss h, room-insert ss key value)

pub any-modify_first_other :
    (p q : Setting → Bool) (f : Setting → Setting) (ss : List Setting)
    → ((x : Setting) → p x ≡ true → (q x ≡ false) × (q (f x) ≡ false))
    → any q (modify_first p f ss) ≡ any q ss
any-modify_first_other p q f [] h = refl
any-modify_first_other p q f (x ∷ ss) h = ground (arith, h x, any-modify_first_other p q f ss h)

pub has-setting_put_other :
    (ss : List Setting) (key value key' : Bytes)
    → Fits key value
    → eqb key key' ≡ false
    → any (is_setting key') (setting_put ss key value).0 ≡ any (is_setting key') ss
unfolding setting_put
has-setting_put_other ss key value key' f ne =
    any-modify_first_other _ _ _ ss
      λ x h. put-unseen key value key' f ne x (ground (arith, Bool-cases (any (is_setting key) ss)))
