-- ===== src/Lock/Refines.antt =====
-- system/lock/main.c against what a lock promises: the machine with two states, open and sealed, in
-- which only the right code, a swipe with no code set, or the setting that turns the lock off opens.
use zelto_os.Prelude.{
  ℕ, ◌+◌, ◌≤◌, ◌≡◌, refl, ap, subst, inl, inr, Bool, true, false, not, ◌&&◌, ◌||◌, List, [], ◌∷◌,
  ◌++◌, arith, ◌==◌, Bool-cases, length, length-append, Option,
}
use zelto_os.Text.{Bytes, eqb, eqb_iff}
use zelto_os.Lock.{
  LockState, has_code, enter_locked, arm_locked, arm_unlocked, do_unlock, on_lock_pan, on_digit,
  Event, dim_idled, lock_idled, unlocked_resume, lockoff_idled, lockoff_resume, changed, pan, digit,
  handle, run, start, SettingKey, lock_enabled, idle_dim_s, idle_lock_s, idle_off_s, passcode_key,
  lock_now, other_key, key_of, change, on_changed, on_dim_idled, on_lock_idled, on_lockoff_resume,
  is_locked_phase, on_unlocked_resume, on_lockoff_idled,
}
use zelto_os.Lock.Invariant.{IsSound, start-IsSound, handle-IsSound}

-- Open, or sealed under a code with the digits typed so far.
pub data View : Type 0 where
  open_view : View
  sealed : Bytes → Bytes → View

-- What an event may do.
pub data Move (e : Event) : View → View → Type 0 where
  stay : (v : View) → Move e v v
  seal_idle : (code : Bytes) → e ≡ lock_idled → Move e open_view (sealed code [])
  seal_now :
      (key value code : Bytes)
      → e ≡ changed key value
      → key_of key ≡ lock_now
      → Move e open_view (sealed code [])
  retype : (code t : Bytes) → Move e (sealed code t) (sealed code [])
  type_digit :
      (d : ℕ) (code t : Bytes)
      → e ≡ digit d
      → length t ≤ 2
      → Move e (sealed code t) (sealed code (t ++ (b'0' + d) ∷ []))
  recode :
      (key value code code' t : Bytes)
      → e ≡ changed key value
      → key_of key ≡ passcode_key
      → Move e (sealed code t) (sealed code' t)
  open_free : (t : Bytes) → e ≡ pan true → Move e (sealed [] t) open_view
  open_code :
      (d : ℕ) (code t : Bytes)
      → e ≡ digit d
      → t ++ (b'0' + d) ∷ [] ≡ code
      → Move e (sealed code t) open_view
  turn_off :
      (key value code t : Bytes)
      → e ≡ changed key value
      → key_of key ≡ lock_enabled
      → Move e (sealed code t) open_view

abbrev pub seen : Bool → Bytes → Bytes → View
seen true code t = sealed code t
seen false code t = open_view

abbrev pub view : LockState → View
view s = seen s.locked s.passcode s.entry

-- The moves of a run, one for each event.
pub data Moves : List Event → View → View → Type 0 where
  rest : (v : View) → Moves [] v v
  step :
      (e : Event) (es : List Event) (u v w : View) → Move e u v → Moves es v w → Moves (e ∷ es) u w

moved : {e : Event} {u v u' v' : View} → u ≡ u' → v ≡ v' → Move e u v → Move e u' v'
moved {e} {u} {v} {u'} {v'} p q m = subst (λ x. Move e x v') p (subst (Move e u) q m)

-- Moves between states, by their fields.
module _ (e : Event) (s t : LockState) where
  same-Move : view s ≡ view t → Move e (view s) (view t)
  same-Move h = subst (λ v. Move e (view s) v) h (stay (view s))

  seal_idle-Move :
      e ≡ lock_idled → s.locked ≡ false → t.locked ≡ true → t.entry ≡ [] → Move e (view s) (view t)
  seal_idle-Move h hs ht he =
      moved (ground (arith, hs)) (ground (arith, ht, he)) (seal_idle t.passcode h)

  seal_now-Move :
      (key value : Bytes)
      → e ≡ changed key value
      → key_of key ≡ lock_now
      → s.locked ≡ false
      → t.locked ≡ true
      → t.entry ≡ []
      → Move e (view s) (view t)
  seal_now-Move key value h hk hs ht he =
      moved (ground (arith, hs)) (ground (arith, ht, he)) (seal_now key value t.passcode h hk)

  retype-Move :
      s.locked ≡ true
      → t.locked ≡ true
      → t.passcode ≡ s.passcode
      → t.entry ≡ []
      → Move e (view s) (view t)
  retype-Move hs ht hp he =
      moved (ground (arith, hs)) (ground (arith, ht, he, hp)) (retype s.passcode s.entry)

  recode-Move :
      (key value : Bytes)
      → e ≡ changed key value
      → key_of key ≡ passcode_key
      → s.locked ≡ true
      → t.locked ≡ true
      → t.entry ≡ s.entry
      → Move e (view s) (view t)
  recode-Move key value h hk hs ht he =
      moved (ground (arith, hs)) (ground (arith, ht, he))
        (recode key value s.passcode t.passcode s.entry h hk)

  turn_off-Move :
      (key value : Bytes)
      → e ≡ changed key value
      → key_of key ≡ lock_enabled
      → s.locked ≡ true
      → t.locked ≡ false
      → Move e (view s) (view t)
  turn_off-Move key value h hk hs ht =
      moved (ground (arith, hs)) (ground (arith, ht)) (turn_off key value s.passcode s.entry h hk)

  open_free-Move :
      e ≡ pan true → s.locked ≡ true → s.passcode ≡ [] → t.locked ≡ false → Move e (view s) (view t)
  open_free-Move h hs hp ht =
      moved (ground (arith, hs, hp)) (ground (arith, ht)) (open_free s.entry h)

  type_digit-Move :
      (d : ℕ)
      → e ≡ digit d
      → length s.entry ≤ 2
      → s.locked ≡ true
      → t.locked ≡ true
      → t.passcode ≡ s.passcode
      → t.entry ≡ s.entry ++ (b'0' + d) ∷ []
      → Move e (view s) (view t)
  type_digit-Move d h l hs ht hp he =
      moved (ground (arith, hs)) (ground (arith, ht, hp, he)) (type_digit d s.passcode s.entry h l)

  open_code-Move :
      (d : ℕ)
      → e ≡ digit d
      → s.entry ++ (b'0' + d) ∷ [] ≡ s.passcode
      → s.locked ≡ true
      → t.locked ≡ false
      → Move e (view s) (view t)
  open_code-Move d h hc hs ht =
      moved (ground (arith, hs)) (ground (arith, ht)) (open_code d s.passcode s.entry h hc)

module _ (has_idle : Bool) (s : LockState) where
  lock_idled-Move : Move lock_idled (view s) (view (on_lock_idled has_idle s))
  unfolding enter_locked arm_locked
  lock_idled-Move = elim (Bool-cases (not s.enabled || s.locked)) [
    | inl e ↦ same-Move lock_idled s (on_lock_idled has_idle s) (ground (arith, e))
    | inr e ↦
        seal_idle-Move lock_idled s (on_lock_idled has_idle s) refl (ground (arith, e))
          (ground (arith, e)) (ground (arith, e))
  ]

  off_resume-Move : Move lockoff_resume (view s) (view (on_lockoff_resume s))
  off_resume-Move = elim (Bool-cases (not s.locked || is_locked_phase s.phase)) [
    | inl e ↦ same-Move lockoff_resume s (on_lockoff_resume s) (ground (arith, e))
    | inr e ↦
        retype-Move lockoff_resume s (on_lockoff_resume s) (ground (arith, e)) (ground (arith, e))
          (ground (arith, e)) (ground (arith, e))
  ]

  module _ (key value : Bytes) where
    enabled-Move :
        key_of key ≡ lock_enabled
        → Move (changed key value) (view s) (view (change lock_enabled has_idle value s))
    unfolding change arm_unlocked
    enabled-Move hk =
        let t = change lock_enabled has_idle value s in
        elim (Bool-cases (s.locked && not t.locked)) [
          | inl e ↦
              turn_off-Move (changed key value) s t key value refl hk (ground (arith, e))
                (ground (arith, e))
          | inr e ↦ same-Move (changed key value) s t (ground (arith, e))
        ]

    now-Move :
        key_of key ≡ lock_now
        → Move (changed key value) (view s) (view (change lock_now has_idle value s))
    unfolding change enter_locked arm_locked
    now-Move hk =
        let t = change lock_now has_idle value s in
        elim (Bool-cases (not s.locked && t.locked)) [
          | inl e ↦
              seal_now-Move (changed key value) s t key value refl hk (ground (arith, e))
                (ground (arith, e)) (ground (arith, e))
          | inr e ↦ same-Move (changed key value) s t (ground (arith, e))
        ]

    code-Move :
        key_of key ≡ passcode_key
        → Move (changed key value) (view s) (view (change passcode_key has_idle value s))
    unfolding change
    code-Move hk =
        let t = change passcode_key has_idle value s in
        elim (Bool-cases s.locked) [
          | inl e ↦ recode-Move (changed key value) s t key value refl hk e e refl
          | inr e ↦ same-Move (changed key value) s t (ground (arith, e))
        ]

    change-Move :
        (k : SettingKey)
        → key_of key ≡ k
        → Move (changed key value) (view s) (view (change k has_idle value s))
    unfolding change arm_unlocked arm_locked
    change-Move lock_enabled hk = enabled-Move hk
    change-Move idle_dim_s hk =
        same-Move (changed key value) s (change idle_dim_s has_idle value s) (ground arith)
    change-Move idle_lock_s hk =
        same-Move (changed key value) s (change idle_lock_s has_idle value s) (ground arith)
    change-Move idle_off_s hk =
        same-Move (changed key value) s (change idle_off_s has_idle value s) (ground arith)
    change-Move passcode_key hk = code-Move hk
    change-Move lock_now hk = now-Move hk
    change-Move other_key hk = same-Move (changed key value) s s refl

  pan-Move : (up : Bool) → Move (pan up) (view s) (view (on_lock_pan has_idle up s))
  unfolding on_lock_pan do_unlock arm_unlocked
  pan-Move up =
      let t = on_lock_pan has_idle up s in
      elim (Bool-cases (not s.locked || s.entering)) [
        | inl e ↦ same-Move (pan up) s t (ground (arith, e))
        | inr e ↦ elim (Bool-cases up) [
          | inl u ↦ elim (Bool-cases (has_code s.passcode)) [
            | inl c ↦
                retype-Move (pan up) s t (ground (arith, e)) (ground (arith, e, u, c))
                  (ground (arith, e, u, c)) (ground (arith, e, u, c))
            | inr c ↦
                open_free-Move (pan up) s t (ap pan u) (ground (arith, e)) (ground (arith, c))
                  (ground (arith, e, u, c))
          ]
          | inr u ↦ same-Move (pan up) s t (ground (arith, e, u))
        ]
      ]

  digit-Move : (d : ℕ) → length s.entry ≤ 3 → Move (digit d) (view s) (view (on_digit has_idle d s))
  unfolding on_digit do_unlock arm_unlocked
  digit-Move d short =
      let t = on_digit has_idle d s in
      let word = s.entry ++ (b'0' + d) ∷ [] in
      let l = length-append s.entry ((b'0' + d) ∷ []) in
      elim (Bool-cases s.locked) [
        | inl e ↦ elim (Bool-cases (length word == 4)) [
          | inl full ↦ elim (Bool-cases (eqb word s.passcode)) [
            | inl c ↦
                open_code-Move (digit d) s t d refl ((eqb_iff word s.passcode).0 c) e
                  (ground (arith, short, l, full, c))
            | inr c ↦
                retype-Move (digit d) s t e (ground (arith, e, short, l, full, c))
                  (ground (arith, short, l, full, c)) (ground (arith, short, l, full, c))
          ]
          | inr more ↦
              type_digit-Move (digit d) s t d refl (ground (arith, short, l, more)) e
                (ground (arith, e, short, l, more)) (ground (arith, short, l, more))
                (ground (arith, short, l, more))
        ]
        | inr e ↦ same-Move (digit d) s t (ground (arith, e))
      ]

  handle-Move : (e : Event) → length s.entry ≤ 3 → Move e (view s) (view (handle has_idle e s))
  unfolding handle on_changed
  handle-Move dim_idled short = same-Move dim_idled s (on_dim_idled s) (ground arith)
  handle-Move lock_idled short = lock_idled-Move
  handle-Move unlocked_resume short =
      same-Move unlocked_resume s (on_unlocked_resume s) (ground arith)
  handle-Move lockoff_idled short = same-Move lockoff_idled s (on_lockoff_idled s) (ground arith)
  handle-Move lockoff_resume short = off_resume-Move
  handle-Move (changed key value) short = change-Move key value (key_of key) refl
  handle-Move (pan up) short = pan-Move up
  handle-Move (digit d) short = digit-Move d short

start-open : (has_idle : Bool) (get : Bytes → Option Bytes) → view (start has_idle get) ≡ open_view
unfolding start arm_unlocked
start-open has_idle get = ground arith

moves :
    (has_idle : Bool) (es : List Event) (s : LockState)
    → IsSound has_idle s
    → Moves es (view s) (view (run has_idle es s))
unfolding run
moves has_idle [] s h = rest (view s)
moves has_idle (e ∷ es) s h =
    let t = handle has_idle e s in
    step e es (view s) (view t) (view (run has_idle es t)) (handle-Move has_idle s e h.short)
      (moves has_idle es t (handle-IsSound has_idle s h e))

-- Whatever settings the lock screen starts with and whatever events follow, its run is one of the
-- two-state lock: started open, it is sealed by the idle timer or sys.lock_now only, and opened only by
-- a digit that completes exactly the passcode, by a swipe up while no passcode is set, or by
-- sys.lock_enabled; the typing grows by one digit at a time or starts over.
pub run-Moves :
    (has_idle : Bool) (get : Bytes → Option Bytes) (es : List Event)
    → Moves es open_view (view (run has_idle es (start has_idle get)))
run-Moves has_idle get es =
    subst (λ v. Moves es v (view (run has_idle es (start has_idle get)))) (start-open has_idle get)
      (moves has_idle es (start has_idle get) (start-IsSound has_idle get))
