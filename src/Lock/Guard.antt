-- ===== src/Lock/Guard.antt =====
-- system/lock/main.c: what the surface of the lock screen takes, in every state of a run.
use zelto_os.Prelude.{
  ℕ, ◌*◌, ◌≤◌, ◌≡◌, ap, ap₂, ◌∙◌, Bool, true, not, ◌&&◌, List, Option, none, some, arith,
  if◌then◌else◌,
}
use zelto_os.Text.{Bytes}
use zelto_os.Number.{pos, millis}
use zelto_os.Lock.{
  LockPhase, active, dimmed, locked_phase, off, LockState, z_idle_notify, lock_after, Event, run,
  start, lock_body, body,
}
use zelto_os.Lock.Invariant.{is_sealed, start-IsSound, run-IsSound}

body-guards :
    (p : LockPhase) (s : LockState)
    → s.locked ≡ is_sealed p
    → ((body p s).keyboard ≡ s.locked) × ((body p s).whole_input ≡ s.locked)
unfolding body
body-guards active s h = ground (arith, h)
body-guards dimmed s h = ground (arith, h)
body-guards locked_phase s h = ground (arith, h)
body-guards off s h = ground (arith, h)

-- (int)(k * 1000) is what it says up to 2147483 seconds.
z_idle_notify-pos : (k : ℕ) → k ≤ 2_147_483 → z_idle_notify true (pos k) ≡ some (k * 1000)
unfolding millis
z_idle_notify-pos k h = ground (arith, h)

-- From the start on, whatever the timers, the settings, the swipes and the keypad do: the surface grabs
-- the keyboard and takes the pointer everywhere while the machine is locked, and does neither while it
-- is not; only an enabled machine is locked; there is no lock timer while it is disabled or locked,
-- and otherwise the timer is the one that z_idle_notify makes of the timeout of the settings as they
-- are. That is a timer of so many seconds where the compositor has an idle notifier and the timeout
-- is at most 2147483 seconds; without an idle notifier there is none, and for a longer timeout there
-- may be none.
pub run-guards :
    (has_idle : Bool) (get : Bytes → Option Bytes) (es : List Event)
    → let s = run has_idle es (start has_idle get) in
      ((lock_body s).keyboard ≡ s.locked)
      × ((lock_body s).whole_input ≡ s.locked)
      × (s.locked ≡ true → s.enabled ≡ true)
      × (s.n_lock
          ≡ (if s.enabled && not s.locked then z_idle_notify has_idle (lock_after s) else none))
      × ((k : ℕ)
          → has_idle ≡ true
          → (s.enabled && not s.locked) ≡ true
          → lock_after s ≡ pos k
          → k ≤ 2_147_483
          → s.n_lock ≡ some (k * 1000))
unfolding lock_body
run-guards has_idle get es =
    let s = run has_idle es (start has_idle get) in
    let h = run-IsSound has_idle es (start has_idle get) (start-IsSound has_idle get) in
    let g = body-guards s.phase s h.phase_is in
    (
      g.0,
      g.1,
      h.locked_on,
      h.lock_is,
      λ k idle on after le.
          h.lock_is
          ∙ ap (λ b. if b then z_idle_notify has_idle (lock_after s) else none) on
          ∙ ap₂ z_idle_notify idle after
          ∙ z_idle_notify-pos k le,
    )
