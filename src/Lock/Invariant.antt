-- ===== src/Lock/Invariant.antt =====
-- system/lock/main.c: what holds of LockState between events.
use zelto_os.Prelude.{
  ℕ, ◌+◌, ◌≤◌, ◌≡◌, Bool, true, false, not, ◌&&◌, List, [], ◌∷◌, Option, none, arith, if◌then◌else◌,
  length, length-append,
}
use zelto_os.Text.{Bytes}
use zelto_os.Lock.{
  LockPhase, active, dimmed, locked_phase, off, LockState, z_idle_notify, dim_after, lock_after,
  arm_unlocked, arm_locked, enter_locked, do_unlock, on_dim_idled, on_lock_idled,
  on_unlocked_resume, on_lockoff_idled, on_lockoff_resume, SettingKey, lock_enabled, idle_dim_s,
  idle_lock_s, idle_off_s, passcode_key, lock_now, other_key, key_of, change, on_changed,
  on_lock_pan, on_digit, Event, dim_idled, lock_idled, unlocked_resume, lockoff_idled,
  lockoff_resume, changed, pan, digit, handle, run, start,
}

abbrev pub is_sealed : LockPhase → Bool
is_sealed locked_phase = true
is_sealed off = true
is_sealed active = false
is_sealed dimmed = false

-- The phase agrees with `locked`; only an enabled machine is locked; the dim and lock timers run exactly
-- while it is enabled and unlocked, with the timeouts of the settings as they are; and the code is not
-- complete.
pub record IsSound (has_idle : Bool) (s : LockState) : Type 0 where
  pub phase_is : s.locked ≡ is_sealed s.phase
  pub locked_on : s.locked ≡ true → s.enabled ≡ true
  pub dim_is :
      s.n_dim ≡ (if s.enabled && not s.locked then z_idle_notify has_idle (dim_after s) else none)
  pub lock_is :
      s.n_lock ≡ (if s.enabled && not s.locked then z_idle_notify has_idle (lock_after s) else none)
  pub short : length s.entry ≤ 3

module _ (has_idle : Bool) (s : LockState) (h : IsSound has_idle s) where
  idle_dim-IsSound : IsSound has_idle (on_dim_idled s)
  idle_dim-IsSound = ground (arith, h.phase_is, h.locked_on, h.dim_is, h.lock_is, h.short)

  enter_locked-IsSound : s.enabled ≡ true → IsSound has_idle (enter_locked has_idle s)
  unfolding enter_locked
  enter_locked-IsSound e = ground (arith, e)

  do_unlock-IsSound : IsSound has_idle (do_unlock has_idle s)
  unfolding do_unlock arm_unlocked
  do_unlock-IsSound = ground arith

  idle_lock-IsSound : IsSound has_idle (on_lock_idled has_idle s)
  unfolding enter_locked arm_locked
  idle_lock-IsSound = ground (arith, h.phase_is, h.locked_on, h.dim_is, h.lock_is, h.short)

  resume-IsSound : IsSound has_idle (on_unlocked_resume s)
  resume-IsSound = ground (arith, h.phase_is, h.locked_on, h.dim_is, h.lock_is, h.short)

  off_idled-IsSound : IsSound has_idle (on_lockoff_idled s)
  off_idled-IsSound = ground (arith, h.phase_is, h.locked_on, h.dim_is, h.lock_is, h.short)

  off_resume-IsSound : IsSound has_idle (on_lockoff_resume s)
  off_resume-IsSound = ground (arith, h.phase_is, h.locked_on, h.dim_is, h.lock_is, h.short)

  change-IsSound : (k : SettingKey) (value : Bytes) → IsSound has_idle (change k has_idle value s)
  unfolding change arm_unlocked arm_locked enter_locked
  change-IsSound lock_enabled value =
      ground (arith, h.phase_is, h.locked_on, h.dim_is, h.lock_is, h.short)
  change-IsSound idle_dim_s value =
      ground (arith, h.phase_is, h.locked_on, h.dim_is, h.lock_is, h.short)
  change-IsSound idle_lock_s value =
      ground (arith, h.phase_is, h.locked_on, h.dim_is, h.lock_is, h.short)
  change-IsSound idle_off_s value =
      ground (arith, h.phase_is, h.locked_on, h.dim_is, h.lock_is, h.short)
  change-IsSound passcode_key value =
      ground (arith, h.phase_is, h.locked_on, h.dim_is, h.lock_is, h.short)
  change-IsSound lock_now value =
      ground (arith, h.phase_is, h.locked_on, h.dim_is, h.lock_is, h.short)
  change-IsSound other_key value = h

  pan-IsSound : (up : Bool) → IsSound has_idle (on_lock_pan has_idle up s)
  unfolding on_lock_pan do_unlock arm_unlocked
  pan-IsSound up = ground (arith, h.phase_is, h.locked_on, h.dim_is, h.lock_is, h.short)

  digit-IsSound : (d : ℕ) → IsSound has_idle (on_digit has_idle d s)
  unfolding on_digit do_unlock arm_unlocked
  digit-IsSound d = ground (
    arith,
    h.phase_is,
    h.locked_on,
    h.dim_is,
    h.lock_is,
    h.short,
    length-append s.entry ((b'0' + d) ∷ []),
  )

  pub handle-IsSound : (e : Event) → IsSound has_idle (handle has_idle e s)
  unfolding handle on_changed
  handle-IsSound dim_idled = idle_dim-IsSound
  handle-IsSound lock_idled = idle_lock-IsSound
  handle-IsSound unlocked_resume = resume-IsSound
  handle-IsSound lockoff_idled = off_idled-IsSound
  handle-IsSound lockoff_resume = off_resume-IsSound
  handle-IsSound (changed key value) = change-IsSound (key_of key) value
  handle-IsSound (pan up) = pan-IsSound up
  handle-IsSound (digit d) = digit-IsSound d

pub start-IsSound :
    (has_idle : Bool) (get : Bytes → Option Bytes) → IsSound has_idle (start has_idle get)
unfolding start arm_unlocked
start-IsSound has_idle get = ground arith

pub run-IsSound :
    (has_idle : Bool) (es : List Event) (s : LockState)
    → IsSound has_idle s
    → IsSound has_idle (run has_idle es s)
unfolding run
run-IsSound has_idle [] s h = h
run-IsSound has_idle (e ∷ es) s h =
    run-IsSound has_idle es (handle has_idle e s) (handle-IsSound has_idle s h e)
