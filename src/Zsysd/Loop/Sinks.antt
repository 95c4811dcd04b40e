-- ===== src/Zsysd/Loop/Sinks.antt =====
-- system/zsysd/main.c: the connections, the shade and the settings observers, counted.
use zelto_os.Prelude.{
  ℕ, zero, suc, ◌+◌, ◌≤◌, ◌<◌, ◌≡◌, refl, subst, inl, inr, true, false, List, [], ◌∷◌, ◌++◌, Option,
  none, some, arith, if◌then◌else◌, ◌==◌, Bool-cases, All, get_elem?, set,
}
use zelto_os.Prelude.Slots.{any, count, modify_first}
use zelto_os.Text.{Bytes}
use zelto_os.Zsysd.State.{Client}
use zelto_os.Zsysd.Settings.{is_sub, subscribe, unsubscribe, last_or, but_last}
use zelto_os.Zsysd.Handle.{set_app}
use zelto_os.Zsysd.Handle.Live.{holders}
use zelto_os.Zsysd.Loop.{is_vacant, slot_fd}

-- How often a descriptor stands in the observers' array.
count-append :
    (g : ℕ) (xs ys : List ℕ)
    → count (is_sub g) (xs ++ ys) ≡ count (is_sub g) xs + count (is_sub g) ys
count-append g [] ys = omega arith
count-append g (x ∷ xs) ys = omega (arith, count-append g xs ys)

pub count-any : (g : ℕ) (xs : List ℕ) → any (is_sub g) xs ≡ false → count (is_sub g) xs ≡ 0
count-any g [] h = refl
count-any g (x ∷ xs) h = ground (arith, count-any g xs)

count-rotate :
    (g h : ℕ) (gs : List ℕ)
    → count (is_sub g) (last_or h gs ∷ but_last (h ∷ gs)) ≡ count (is_sub g) (h ∷ gs)
count-rotate g h [] = refl
count-rotate g h (x ∷ xs) = omega (arith, count-rotate g x xs)

-- An observer that is subscribed once is gone after the swap with the last one; the others stay.
pub count-unsubscribe :
    (g fd : ℕ) (subs : List ℕ)
    → count (is_sub g) (unsubscribe subs fd)
        + (if any (is_sub fd) subs then (if fd == g then 1 else 0) else 0)
      ≡ count (is_sub g) subs
unfolding unsubscribe
count-unsubscribe g fd [] = refl
count-unsubscribe g fd (x ∷ []) = ground arith
count-unsubscribe g fd (x ∷ h ∷ gs) =
    ground (arith, count-unsubscribe g fd (h ∷ gs), count-rotate g h gs)

pub subscribe-once :
    (g fd : ℕ) (subs : List ℕ)
    → count (is_sub g) subs ≤ 1
    → count (is_sub g) (subscribe subs fd) ≤ 1
unfolding subscribe
subscribe-once g fd subs h = ground (arith, count-any fd subs, count-append g subs (fd ∷ []))

pub count-subscribe-le :
    (g fd : ℕ) (subs : List ℕ)
    → count (is_sub g) (subscribe subs fd) ≤ count (is_sub g) subs + (if fd == g then 1 else 0)
unfolding subscribe
count-subscribe-le g fd subs = ground (arith, count-append g subs (fd ∷ []))

pub All-count {κ} :
    (P : ℕ → Type κ) (subs : List ℕ) (g : ℕ) → All P subs → 0 < count (is_sub g) subs → P g
All-count P [] g a h = absurd (omega arith)
All-count P (x ∷ xs) g a h = elim (Bool-cases (is_sub g x)) [
  | inl e ↦ subst P (ground arith) a.0
  | inr e ↦ All-count P xs g a.1 (ground arith)
]

pub count-All {κ} :
    (P : ℕ → Type κ) (subs : List ℕ) → ((g : ℕ) → 0 < count (is_sub g) subs → P g) → All P subs
count-All P [] h = tt
count-All P (x ∷ xs) h = (h x (ground arith), count-All P xs (λ g k. h g (ground arith)))

pub holders-set_app :
    (g : ℕ) (cs : List Client) (slot : ℕ) (app_id : Bytes) (o : Option Client)
    → get_elem? cs slot ≡ o
    → holders g (set_app cs slot app_id o) ≡ holders g cs
holders-set_app g cs slot app_id none h = refl
holders-set_app g [] slot app_id (some c) h = refl
holders-set_app g (d ∷ cs) zero app_id (some c) h = ground arith
holders-set_app g (d ∷ cs) (suc slot) app_id (some c) h =
    ground (arith, holders-set_app g cs slot app_id (some c))

pub holders-vacate :
    (g fd : ℕ) (cs : List Client) (slot : ℕ)
    → slot_fd (get_elem? cs slot) ≡ some fd
    → holders g (set cs slot (record { fd = none; app = [] })) + (if fd == g then 1 else 0)
      ≡ holders g cs
holders-vacate g fd [] slot h = cc
holders-vacate g fd (d ∷ cs) zero h = ground arith
holders-vacate g fd (d ∷ cs) (suc slot) h = ground (arith, holders-vacate g fd cs slot)

pub holders-occupy :
    (g fd : ℕ) (cs : List Client)
    → any is_vacant cs ≡ true
    → holders g (modify_first is_vacant (λ _. record { fd = some fd; app = [] }) cs)
      ≡ holders g cs + (if fd == g then 1 else 0)
holders-occupy g fd [] h = cc
holders-occupy g fd (d ∷ cs) h = ground (arith, holders-occupy g fd cs)
