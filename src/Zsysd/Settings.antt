-- ===== src/Zsysd/Settings.antt =====
-- system/zsysd/main.c, the settings store: the table, the file that it is written through to, and the
-- subscribers.
use zelto_os.Prelude.{
  ℕ, suc, ◌+◌, ◌-◌, Bool, true, false, not, ◌&&◌, List, [], ◌∷◌, ◌++◌, Option, none, some,
  if◌then◌else◌, ◌==◌, ltb, length,
}
use zelto_os.Prelude.Slots.{any, find?, modify_first}
use zelto_os.Text.{Bytes, codes, eqb, clip, chomp, split_at, lines_of}
use zelto_os.Zsysd.State.{Setting, Broker, Event, send, persisted, max_clients}
use zelto_os.Zsysd.Wire.{settings_changed}
pub mod Table
pub mod File
pub mod Durable
pub mod Invariant
pub mod Push

abbrev pub is_setting : Bytes → Setting → Bool
is_setting key s = s.used && eqb s.key key

abbrev pub is_free : Setting → Bool
is_free s = not s.used

unfoldable pub setting_find : List Setting → Bytes → Option Setting
setting_find ss key = find? (is_setting key) ss

abbrev pub value_of : Option Setting → Bytes
value_of none = []
value_of (some s) = s.value

-- The stored value for a key, or "" when unset.
unfoldable pub setting_value : List Setting → Bytes → Bytes
unfolding setting_find
setting_value ss key = value_of (setting_find ss key)

abbrev pub write_setting : Bytes → Bytes → Setting → Setting
write_setting key value s = record { used = true; key = clip 64 key; value = clip 160 value }

abbrev pub setting_slot : List Setting → Bytes → Setting → Bool
setting_slot ss key = if any (is_setting key) ss then is_setting key else is_free

-- Insert or overwrite. The Boolean is false if the table is full and the key is new.
unfoldable pub setting_put : List Setting → Bytes → Bytes → List Setting × Bool
setting_put ss key value =
    (modify_first (setting_slot ss key) (write_setting key value) ss, any (setting_slot ss key) ss)

unfoldable pub load_pair : List Setting → Option (Bytes × Bytes) → List Setting
unfolding setting_put
load_pair ss none = ss
load_pair ss (some ([], value)) = ss
load_pair ss (some (c ∷ key, value)) = (setting_put ss (c ∷ key) value).0

unfoldable pub load_lines : List Setting → List Bytes → List Setting
unfolding load_pair chomp split_at
load_lines ss [] = ss
load_lines ss (l ∷ ls) = load_lines (load_pair ss (split_at b'\t' (chomp l))) ls

-- Read the persisted file into the table at startup; `none` is a missing file.
unfoldable pub settings_load : List Setting → Option Bytes → List Setting
unfolding load_lines lines_of
settings_load ss none = ss
settings_load ss (some content) = load_lines ss (lines_of 255 content)

-- The content of the file: key, TAB, value and newline for each slot in use.
unfoldable pub settings_text : List Setting → Bytes
settings_text [] = []
settings_text (s ∷ ss) =
    let rest = settings_text ss in
    if s.used then s.key ++ b'\t' ∷ (s.value ++ b'\n' ∷ rest) else rest

abbrev pub settings_persist : Bool → List Setting → List Event
settings_persist writable ss = if writable then persisted (settings_text ss) ∷ [] else []

abbrev pub is_sub : ℕ → ℕ → Bool
is_sub fd g = g == fd

-- Register an observer, once.
unfoldable pub subscribe : List ℕ → ℕ → List ℕ
subscribe subs fd =
    if any (is_sub fd) subs
    then subs
    else if ltb (length subs) max_clients
    then subs ++ fd ∷ []
    else subs

abbrev pub last_or : ℕ → List ℕ → ℕ
last_or d [] = d
last_or d (x ∷ xs) = last_or x xs

abbrev pub but_last : List ℕ → List ℕ
but_last [] = []
but_last (x ∷ []) = []
but_last (x ∷ y ∷ xs) = x ∷ but_last (y ∷ xs)

-- subs[i] = subs[--n] for the first i that holds fd.
unfoldable pub unsubscribe : List ℕ → ℕ → List ℕ
unsubscribe [] fd = []
unsubscribe (g ∷ []) fd = if g == fd then [] else g ∷ []
unsubscribe (g ∷ h ∷ gs) fd =
    let rest = unsubscribe (h ∷ gs) fd in
    if g == fd then last_or h gs ∷ but_last (h ∷ gs) else g ∷ rest

-- Push a settings_changed to every subscriber, in a buffer of 256 bytes.
unfoldable pub broadcast : List ℕ → Bytes → Bytes → List Event
broadcast [] key value = []
broadcast (fd ∷ subs) key value =
    send 256 fd (settings_changed key value) ++ broadcast subs key value

unfoldable pub after_put : Broker → Bool → Bytes → Bytes → List Setting × Bool → Broker × List Event
unfolding settings_text broadcast
after_put b writable key value (ss, true) =
    (record b { settings = ss }, settings_persist writable ss ++ broadcast b.subs key value)
after_put b writable key value (ss, false) = (b, [])

-- settings_set: an empty key, or a new key in a full table, changes nothing.
unfoldable pub settings_set : Broker → Bool → Bytes → Bytes → Broker × List Event
unfolding after_put setting_put
settings_set b writable [] value = (b, [])
settings_set b writable (c ∷ key) value =
    after_put b writable (c ∷ key) value (setting_put b.settings (c ∷ key) value)
