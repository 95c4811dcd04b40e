-- ===== src/Zsysd/Settings/Push.antt =====
-- system/zsysd/main.c: the push of a settings change to the observers, and its buffer.
use zelto_os.Prelude.{
  ℕ, ◌+◌, ◌≤◌, ◌≡◌, true, List, [], ◌∷◌, ◌++◌, map, arith, if◌then◌else◌, ltb, length,
  length-append,
}
use zelto_os.Text.{Bytes, codes}
use zelto_os.Zsysd.State.{Broker, sent, persisted}
use zelto_os.Zsysd.Wire.{settings_changed}
use zelto_os.Zsysd.Settings.{broadcast, settings_set, setting_put, settings_text}

length-settings_changed :
    (key value : Bytes) → length (settings_changed key value) ≡ length key + length value + 46
length-settings_changed key value = omega (
  arith,
  length-append key (codes "\",\"value\":\"" ++ (value ++ codes "\"}\n")),
  length-append value (codes "\"}\n"),
)

-- Every observer gets the change once if the key and the value have at most 209 bytes together;
-- otherwise nobody gets it.
pub broadcast_lem :
    (subs : List ℕ) (key value : Bytes)
    → broadcast subs key value ≡ (
        if ltb (length key + length value) 210
        then map (λ fd. sent fd (settings_changed key value)) subs
        else [])
unfolding broadcast
broadcast_lem [] key value = ground arith
broadcast_lem (fd ∷ subs) key value =
    ground (arith, length-settings_changed key value, broadcast_lem subs key value)

-- A change that the table takes, of a key that is not empty, whose key and value have 210 bytes or
-- more together, is stored and, where the file can be written, written to it, and no observer is
-- told.
pub settings_set_silent :
    (b : Broker) (c : ℕ) (key value : Bytes)
    → 209 ≤ length key + length value
    → (setting_put b.settings (c ∷ key) value).1 ≡ true
    → ((settings_set b true (c ∷ key) value).0.settings
        ≡ (setting_put b.settings (c ∷ key) value).0)
      × ((settings_set b true (c ∷ key) value).1
          ≡ persisted (settings_text (setting_put b.settings (c ∷ key) value).0) ∷ [])
unfolding settings_set
settings_set_silent b c key value long room = ground (arith, broadcast_lem b.subs (c ∷ key) value)
