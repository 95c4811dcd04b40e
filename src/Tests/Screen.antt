-- ===== src/Tests/Screen.antt =====
-- A lock screen of four digits, one of three, and their runs.
use zelto_os.Prelude.{
  ℕ, ◌*◌, ◌≤◌, ◌≡◌, refl, Bool, true, false, not, ◌&&◌, List, [], ◌∷◌, Option, none, some, arith,
  if◌then◌else◌,
}
use zelto_os.Text.{Bytes, codes, eqb}
use zelto_os.Number.{pos}
use zelto_os.Lock.{
  LockState, active, locked_phase, Event, lock_idled, lockoff_idled, pan, digit, changed, handle,
  run, start, lock_body, z_idle_notify, lock_after,
}
use zelto_os.Lock.Guard.{run-guards}
use zelto_os.Lock.Refines.{Moves, open_view, view, run-Moves}
use zelto_os.Lock.Keypad.{IsStuck, run-locked, run-word, word}

-- Enabled, and everything else as the source's defaults.
abbrev settings : Bytes → Option Bytes
settings key = if eqb key (codes "sys.lock_enabled") then some (codes "1") else none

abbrev evening : List Event
evening = lock_idled ∷ lockoff_idled ∷ changed (codes "sys.passcode") (codes "1234") ∷ []

abbrev sealed_by : Bytes → LockState
sealed_by code = record {
  enabled = true;
  dim_s = pos 8;
  lock_s = pos 20;
  off_s = pos 120;
  passcode = code;
  lock_now_seen = pos 0;
  phase = locked_phase;
  locked = true;
  n_dim = none;
  n_lock = none;
  n_lockoff = some 120_000;
  entering = false;
  entry = [];
  wrong = false;
}

run-guards_example :
    let s = run true evening (start true settings) in
    ((lock_body s).keyboard ≡ s.locked)
    × ((lock_body s).whole_input ≡ s.locked)
    × (s.locked ≡ true → s.enabled ≡ true)
    × (s.n_lock ≡ (if s.enabled && not s.locked then z_idle_notify true (lock_after s) else none))
    × ((k : ℕ)
        → ◌≡◌ {A = Bool} true true
        → (s.enabled && not s.locked) ≡ true
        → lock_after s ≡ pos k
        → k ≤ 2_147_483
        → s.n_lock ≡ some (k * 1000))
run-guards_example = run-guards true settings evening

run-Moves_example : Moves evening open_view (view (run true evening (start true settings)))
run-Moves_example = run-Moves true settings evening

-- After the idle timer and a code the screen is sealed.
evening_locks : (run true evening (start true settings)).locked ≡ true
unfolding run handle start
evening_locks = refl

short-IsStuck : IsStuck (sealed_by (codes "123"))
short-IsStuck = record { locked = refl; enabled = refl; code = refl; code_length = omega arith }

abbrev attempt : List Event
attempt = pan true ∷ digit 1 ∷ digit 2 ∷ digit 3 ∷ []

run-locked_example : (run true attempt (sealed_by (codes "123"))).locked ≡ true
run-locked_example =
    run-locked true attempt (sealed_by (codes "123")) short-IsStuck (tt, (tt, (tt, (tt, tt))))

run-word_example :
    let t =
      run true (pan true ∷ digit 1 ∷ digit 2 ∷ digit 3 ∷ digit 4 ∷ []) (sealed_by (codes "1234")) in
    (t.locked ≡ not (eqb (word 1 2 3 4) (codes "1234")))
    × (t.entry ≡ [])
    × (t.locked ≡ false → t.phase ≡ active)
run-word_example = run-word true (sealed_by (codes "1234")) 1 2 3 4 refl refl refl
