-- ===== src/Lock.antt =====
-- system/lock/main.c, the lock screen: what its idle timers, the settings observer, the swipe and the
-- keypad do to LockState, and what lock_body asks of the surface. An idle notification is its timeout
-- in milliseconds, and none is NULL: z_idle_notify (sdk/src/app.c) makes none of a negative timeout or
-- where the compositor has no idle notifier. The repaints are left out.
use zelto_os.Prelude.{
  ℕ, suc, ◌+◌, ◌-◌, ◌≡◌, Bool, true, false, not, ◌&&◌, ◌||◌, List, [], ◌∷◌, ◌++◌, Option, none,
  some, if◌then◌else◌, ◌==◌, ltb, length,
}
use zelto_os.Text.{Bytes, codes, eqb, clip}
use zelto_os.Number.{ℤ, pos, ltb_ℤ, eqb_ℤ, suc_ℤ, strtoll, millis}
pub mod Invariant
pub mod Guard
pub mod Refines
pub mod Keypad

pub data LockPhase : Type 0 where
  active dimmed locked_phase off : LockPhase

pub record LockState : Type 0 where
  pub enabled : Bool
  pub dim_s : ℤ
  pub lock_s : ℤ
  pub off_s : ℤ
  pub passcode : Bytes
  pub lock_now_seen : ℤ
  pub phase : LockPhase
  pub locked : Bool
  pub n_dim : Option ℕ
  pub n_lock : Option ℕ
  pub n_lockoff : Option ℕ
  pub entering : Bool
  -- entry[0 .. entry_len)
  pub entry : Bytes
  pub wrong : Bool

-- Whether the compositor has an idle notifier and a seat.
abbrev pub z_idle_notify : Bool → ℤ → Option ℕ
z_idle_notify has_idle timeout = if has_idle then millis timeout else none

abbrev pub disarm_unlocked : LockState → LockState
disarm_unlocked s = record s { n_dim = none; n_lock = none }

abbrev pub disarm_all : LockState → LockState
disarm_all s = record s { n_dim = none; n_lock = none; n_lockoff = none }

-- The seconds after which the screen dims, locks and, locked, goes dark.
abbrev pub dim_after : LockState → ℤ
dim_after s = if ltb_ℤ (pos 0) s.dim_s then s.dim_s else pos 1

abbrev pub lock_after : LockState → ℤ
lock_after s = if ltb_ℤ (dim_after s) s.lock_s then s.lock_s else suc_ℤ (dim_after s)

abbrev pub off_after : LockState → ℤ
off_after s = if ltb_ℤ s.lock_s s.off_s then s.off_s else suc_ℤ s.lock_s

unfoldable pub arm_unlocked : Bool → LockState → LockState
arm_unlocked has_idle s = record s {
  n_dim = z_idle_notify has_idle (dim_after s);
  n_lock = z_idle_notify has_idle (lock_after s);
}

unfoldable pub arm_locked : Bool → LockState → LockState
arm_locked has_idle s = record s { n_lockoff = z_idle_notify has_idle (off_after s) }

unfoldable pub enter_locked : Bool → LockState → LockState
unfolding arm_locked
enter_locked has_idle s = arm_locked has_idle (record s {
  n_dim = none;
  n_lock = none;
  locked = true;
  phase = locked_phase;
  entering = false;
  entry = [];
  wrong = false;
})

unfoldable pub do_unlock : Bool → LockState → LockState
unfolding arm_unlocked
do_unlock has_idle s =
    let t = record (disarm_all s) {
      locked = false;
      phase = active;
      entering = false;
      entry = [];
      wrong = false;
    } in
    if s.enabled then arm_unlocked has_idle t else t

abbrev pub is_active : LockPhase → Bool
is_active active = true
is_active dimmed = false
is_active locked_phase = false
is_active off = false

abbrev pub is_off : LockPhase → Bool
is_off off = true
is_off active = false
is_off dimmed = false
is_off locked_phase = false

abbrev pub is_locked_phase : LockPhase → Bool
is_locked_phase locked_phase = true
is_locked_phase active = false
is_locked_phase dimmed = false
is_locked_phase off = false

abbrev pub on_dim_idled : LockState → LockState
on_dim_idled s =
    if not s.enabled || s.locked
    then s
    else if is_active s.phase
    then record s { phase = dimmed }
    else s

abbrev pub on_lock_idled : Bool → LockState → LockState
on_lock_idled has_idle s = if not s.enabled || s.locked then s else enter_locked has_idle s

abbrev pub on_unlocked_resume : LockState → LockState
on_unlocked_resume s = if s.locked || is_active s.phase then s else record s { phase = active }

abbrev pub on_lockoff_idled : LockState → LockState
on_lockoff_idled s = if not s.locked || is_off s.phase then s else record s { phase = off }

abbrev pub on_lockoff_resume : LockState → LockState
on_lockoff_resume s =
    if not s.locked || is_locked_phase s.phase
    then s
    else record s { phase = locked_phase; entering = false; entry = [] }

-- The settings that the observer reacts to.
pub data SettingKey : Type 0 where
  lock_enabled idle_dim_s idle_lock_s idle_off_s passcode_key lock_now other_key : SettingKey

unfoldable pub key_of : Bytes → SettingKey
unfolding eqb
key_of key =
    if eqb key (codes "sys.lock_enabled")
    then lock_enabled
    else if eqb key (codes "sys.idle_dim_s")
    then idle_dim_s
    else if eqb key (codes "sys.idle_lock_s")
    then idle_lock_s
    else if eqb key (codes "sys.idle_off_s")
    then idle_off_s
    else if eqb key (codes "sys.passcode")
    then passcode_key
    else if eqb key (codes "sys.lock_now")
    then lock_now
    else other_key

abbrev pub is_on : Bytes → Bool
is_on value = not (eqb_ℤ (strtoll value) (pos 0))

abbrev pub bool_eqb : Bool → Bool → Bool
bool_eqb true b = b
bool_eqb false b = not b

-- The whole machine starts over, armed or inert.
abbrev pub switch_enabled : Bool → Bool → LockState → LockState
switch_enabled has_idle true s =
    arm_unlocked has_idle (record s { enabled = true; phase = active; locked = false })
switch_enabled has_idle false s = record (disarm_all s) {
  enabled = false;
  locked = false;
  phase = active;
}

abbrev pub rearm_unlocked : Bool → LockState → LockState
rearm_unlocked has_idle s = if s.enabled && not s.locked then arm_unlocked has_idle s else s

unfoldable pub change : SettingKey → Bool → Bytes → LockState → LockState
unfolding arm_unlocked arm_locked enter_locked strtoll
change lock_enabled has_idle value s =
    if bool_eqb (is_on value) s.enabled then s else switch_enabled has_idle (is_on value) s
change idle_dim_s has_idle value s = rearm_unlocked has_idle (record s { dim_s = strtoll value })
change idle_lock_s has_idle value s = rearm_unlocked has_idle (record s { lock_s = strtoll value })
change idle_off_s has_idle value s =
    let t = record s { off_s = strtoll value } in if s.locked then arm_locked has_idle t else t
change passcode_key has_idle value s = record s { passcode = clip 16 value }
change lock_now has_idle value s =
    let t = record s { lock_now_seen = strtoll value } in
    if eqb_ℤ (strtoll value) s.lock_now_seen
    then s
    else if s.enabled && not s.locked
    then enter_locked has_idle t
    else t
change other_key has_idle value s = s

unfoldable pub on_changed : Bool → Bytes → Bytes → LockState → LockState
unfolding change key_of
on_changed has_idle key value s = change (key_of key) has_idle value s

abbrev pub has_code : Bytes → Bool
has_code [] = false
has_code (c ∷ s) = true

-- A pan that has ended, with the swipe up far enough or not.
unfoldable pub on_lock_pan : Bool → Bool → LockState → LockState
unfolding do_unlock
on_lock_pan has_idle up s =
    if not s.locked || s.entering
    then s
    else if not up
    then s
    else if has_code s.passcode
    then record s { entering = true; entry = []; wrong = false }
    else do_unlock has_idle s

abbrev pub typed : ℕ → LockState → LockState
typed d s =
    if ltb (length s.entry) 4
    then record s { entry = s.entry ++ (b'0' + d) ∷ []; wrong = false }
    else s

-- With four digits typed the code is right or the typing starts over.
abbrev pub try_code : Bool → LockState → LockState
try_code has_idle s =
    if length s.entry == 4
    then (if eqb s.entry s.passcode
        then do_unlock has_idle s
        else record s { wrong = true; entry = [] })
    else s

unfoldable pub on_digit : Bool → ℕ → LockState → LockState
unfolding do_unlock eqb
on_digit has_idle d s = try_code has_idle (typed d s)

-- What can happen to the lock screen.
pub data Event : Type 0 where
  dim_idled lock_idled unlocked_resume lockoff_idled lockoff_resume : Event
  changed : Bytes → Bytes → Event
  -- a pan ends, far enough up or not
  pan : Bool → Event
  digit : ℕ → Event

unfoldable pub handle : Bool → Event → LockState → LockState
unfolding enter_locked on_changed on_lock_pan on_digit
handle has_idle dim_idled s = on_dim_idled s
handle has_idle lock_idled s = on_lock_idled has_idle s
handle has_idle unlocked_resume s = on_unlocked_resume s
handle has_idle lockoff_idled s = on_lockoff_idled s
handle has_idle lockoff_resume s = on_lockoff_resume s
handle has_idle (changed key value) s = on_changed has_idle key value s
handle has_idle (pan up) s = on_lock_pan has_idle up s
handle has_idle (digit d) s = on_digit has_idle d s

unfoldable pub run : Bool → List Event → LockState → LockState
unfolding handle
run has_idle [] s = s
run has_idle (e ∷ es) s = run has_idle es (handle has_idle e s)

abbrev pub or_number : ℤ → Option Bytes → ℤ
or_number n none = n
or_number n (some []) = n
or_number n (some (c ∷ s)) = strtoll (c ∷ s)

abbrev pub or_text : Option Bytes → Bytes
or_text none = []
or_text (some s) = s

-- load_config and the first lock_body: the settings are read through z_setting_get_str.
unfoldable pub start : Bool → (Bytes → Option Bytes) → LockState
unfolding arm_unlocked strtoll
start has_idle get =
    let on = not (eqb_ℤ (or_number (pos 0) (get (codes "sys.lock_enabled"))) (pos 0)) in
    let s : LockState = record {
      enabled = on;
      dim_s = or_number (pos 8) (get (codes "sys.idle_dim_s"));
      lock_s = or_number (pos 20) (get (codes "sys.idle_lock_s"));
      off_s = or_number (pos 120) (get (codes "sys.idle_off_s"));
      passcode = clip 16 (or_text (get (codes "sys.passcode")));
      lock_now_seen = or_number (pos 0) (get (codes "sys.lock_now"));
      phase = active;
      locked = false;
      n_dim = none;
      n_lock = none;
      n_lockoff = none;
      entering = false;
      entry = [];
      wrong = false;
    } in
    if on then arm_unlocked has_idle s else s

-- What lock_body asks of the surface: the exclusive keyboard, and whether the whole surface takes the
-- pointer or none of it does; and what it shows.
pub data Screen : Type 0 where
  nothing scrim dark lock_view keypad_view : Screen

pub record Surface : Type 0 where
  pub keyboard : Bool
  pub whole_input : Bool
  pub screen : Screen

unfoldable pub body : LockPhase → LockState → Surface
body dimmed s = record { keyboard = false; whole_input = false; screen = scrim }
body locked_phase s = record {
  keyboard = true;
  whole_input = true;
  screen = if s.entering then keypad_view else lock_view;
}
body off s = record { keyboard = s.locked; whole_input = true; screen = dark }
body active s = record { keyboard = false; whole_input = false; screen = nothing }

unfoldable pub lock_body : LockState → Surface
unfolding body
lock_body s = body s.phase s
