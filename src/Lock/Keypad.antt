-- ===== src/Lock/Keypad.antt =====
-- system/lock/main.c: a passcode that the keypad cannot spell.
use zelto_os.Prelude.{ℕ, ◌+◌, ◌≡◌, ◌≢◌, Bool, true, false, not, List, [], ◌∷◌, arith, All, length}
use zelto_os.Text.{Bytes, eqb, eqb_iff}
use zelto_os.Lock.{
  LockState, active, arm_unlocked, has_code, do_unlock, on_lock_pan, on_digit, typed, try_code,
  Event, dim_idled, lock_idled, unlocked_resume, lockoff_idled, lockoff_resume, changed, pan, digit,
  handle, run,
}

-- All but the settings: timers, swipes and digits.
abbrev pub IsLocal : Event → Type 0
IsLocal dim_idled = Unit
IsLocal lock_idled = Unit
IsLocal unlocked_resume = Unit
IsLocal lockoff_idled = Unit
IsLocal lockoff_resume = Unit
IsLocal (changed key value) = ⊥
IsLocal (pan up) = Unit
IsLocal (digit d) = Unit

-- Locked, with a code set that has not four characters.
pub record IsStuck (s : LockState) : Type 0 where
  pub locked : s.locked ≡ true
  pub enabled : s.enabled ≡ true
  pub code : has_code s.passcode ≡ true
  pub code_length : length s.passcode ≢ 4

module _ (has_idle : Bool) (s : LockState) (h : IsStuck s) where
  try_code-IsStuck : IsStuck (try_code has_idle s)
  try_code-IsStuck =
      ground (arith, h.locked, h.enabled, h.code, h.code_length, eqb_iff s.entry s.passcode)

  typed-IsStuck : (d : ℕ) → IsStuck (typed d s)
  typed-IsStuck d = ground (arith, h.locked, h.enabled, h.code, h.code_length)

module _ (has_idle : Bool) (s : LockState) (h : IsStuck s) where
  digit-IsStuck : (d : ℕ) → IsStuck (on_digit has_idle d s)
  unfolding on_digit
  digit-IsStuck d = try_code-IsStuck has_idle (typed d s) (typed-IsStuck has_idle s h d)

  handle-IsStuck : (e : Event) → IsLocal e → IsStuck (handle has_idle e s)
  unfolding handle on_lock_pan
  handle-IsStuck dim_idled l = ground (arith, h.locked, h.enabled, h.code, h.code_length)
  handle-IsStuck lock_idled l = ground (arith, h.locked, h.enabled, h.code, h.code_length)
  handle-IsStuck unlocked_resume l = ground (arith, h.locked, h.enabled, h.code, h.code_length)
  handle-IsStuck lockoff_idled l = ground (arith, h.locked, h.enabled, h.code, h.code_length)
  handle-IsStuck lockoff_resume l = ground (arith, h.locked, h.enabled, h.code, h.code_length)
  handle-IsStuck (changed key value) l = absurd l
  handle-IsStuck (pan up) l = ground (arith, h.locked, h.enabled, h.code, h.code_length)
  handle-IsStuck (digit d) l = digit-IsStuck d

-- A locked screen whose passcode is set to other than four characters stays locked through every
-- sequence of timers, swipes and digits: the keypad compares four digits only.
pub run-locked :
    (has_idle : Bool) (es : List Event) (s : LockState)
    → IsStuck s
    → All IsLocal es
    → (run has_idle es s).locked ≡ true
unfolding run
run-locked has_idle [] s h a = h.locked
run-locked has_idle (e ∷ es) s h a =
    run-locked has_idle es (handle has_idle e s) (handle-IsStuck has_idle s h e a.0) a.1

abbrev pub word : ℕ → ℕ → ℕ → ℕ → Bytes
word a b c d = (b'0' + a) ∷ (b'0' + b) ∷ (b'0' + c) ∷ (b'0' + d) ∷ []

-- On a locked screen with a passcode set and the keypad shut, a swipe up and four digits unlock exactly
-- when the digits are the passcode; unlocked, the screen is the app's again and the typing is cleared
-- either way.
pub run-word :
    (has_idle : Bool) (s : LockState) (a b c d : ℕ)
    → s.locked ≡ true
    → s.entering ≡ false
    → has_code s.passcode ≡ true
    → let t = run has_idle (pan true ∷ digit a ∷ digit b ∷ digit c ∷ digit d ∷ []) s in
      (t.locked ≡ not (eqb (word a b c d) s.passcode))
      × (t.entry ≡ [])
      × (t.locked ≡ false → t.phase ≡ active)
unfolding run handle on_lock_pan on_digit do_unlock arm_unlocked
run-word has_idle s a b c d hl he hc = ground (arith, hl, he, hc)
