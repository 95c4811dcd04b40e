-- ===== src/Prelude/Slots.antt =====
-- Fixed arrays of slots that the C code searches from index 0: the first slot that passes a test is
-- read (`find?`) or written through the pointer found (`modify_first`). An array in which no slot
-- passes is left as it was.
use zelto_os.Prelude.{
  ℕ, ◌+◌, ◌≡◌, refl, subst, inl, inr, Bool, true, false, ◌||◌, List, [], ◌∷◌, ◌++◌, Option, none,
  some, arith, if◌then◌else◌, Bool-cases, length, All,
}

module _ {ℓ} {A : Type ℓ} where
  abbrev pub any : (A → Bool) → List A → Bool
  any p [] = false
  any p (x ∷ xs) = p x || any p xs

  abbrev pub find? : (A → Bool) → List A → Option A
  find? p [] = none
  find? p (x ∷ xs) = if p x then some x else find? p xs

  abbrev pub modify_first : (A → Bool) → (A → A) → List A → List A
  modify_first p f [] = []
  modify_first p f (x ∷ xs) = if p x then f x ∷ xs else x ∷ modify_first p f xs

  abbrev pub count : (A → Bool) → List A → ℕ
  count p [] = 0
  count p (x ∷ xs) = (if p x then 1 else 0) + count p xs

  abbrev pub keep : (A → Bool) → List A → List A
  keep p [] = []
  keep p (x ∷ xs) = if p x then x ∷ keep p xs else keep p xs

module _ {ℓ} {A : Type ℓ} where
  pub any-find? : (p : A → Bool) (xs : List A) → any p xs ≡ false → find? p xs ≡ none
  any-find? p [] h = refl
  any-find? p (x ∷ xs) h = ground (arith, any-find? p xs)

  pub find?-holds : (p : A → Bool) (xs : List A) {x : A} → find? p xs ≡ some x → p x ≡ true
  find?-holds p [] h = cc
  find?-holds p (y ∷ xs) {x} h = ground (arith, find?-holds p xs {x = x})

  pub find?-any : (p : A → Bool) (xs : List A) {x : A} → find? p xs ≡ some x → any p xs ≡ true
  find?-any p [] h = cc
  find?-any p (y ∷ xs) {x} h = ground (arith, find?-any p xs {x = x})

  pub any-some : (p : A → Bool) (xs : List A) → any p xs ≡ true → (x : A) × (find? p xs ≡ some x)
  any-some p [] h = cc
  any-some p (y ∷ xs) h = elim (Bool-cases (p y)) [
    | inl e ↦ (y, rw e)
    | inr e ↦ let (x, found) = any-some p xs (rw e at h) in (x, rw e found)
  ]

  pub length-modify_first :
      (p : A → Bool) (f : A → A) (xs : List A) → length (modify_first p f xs) ≡ length xs
  length-modify_first p f [] = refl
  length-modify_first p f (x ∷ xs) = ground (arith, length-modify_first p f xs)

  -- The slot written is the slot found, where the write keeps the test.
  pub find?-modify_first :
      (p : A → Bool) (f : A → A) (xs : List A) {x : A}
      → find? p xs ≡ some x
      → p (f x) ≡ true
      → find? p (modify_first p f xs) ≡ some (f x)
  find?-modify_first p f [] h k = cc
  find?-modify_first p f (y ∷ xs) h k = elim (Bool-cases (p y)) [
    | inl e ↦ ground arith
    | inr e ↦ rw (e, e) (find?-modify_first p f xs (rw e at h) k)
  ]

  -- A write that neither takes a slot from `q` nor gives it one is not seen by `q`.
  pub find?-modify_first_other :
      (p q : A → Bool) (f : A → A) (xs : List A)
      → ((x : A) → p x ≡ true → (q x ≡ false) × (q (f x) ≡ false))
      → find? q (modify_first p f xs) ≡ find? q xs
  find?-modify_first_other p q f [] h = refl
  find?-modify_first_other p q f (x ∷ xs) h =
      ground (arith, h x, find?-modify_first_other p q f xs h)

  -- A new entry, put in a free slot, is found.
  pub find?-insert :
      (p q : A → Bool) (f : A → A) (xs : List A) {x : A}
      → find? q xs ≡ none
      → find? p xs ≡ some x
      → q (f x) ≡ true
      → find? q (modify_first p f xs) ≡ some (f x)
  find?-insert p q f [] n h k = cc
  find?-insert p q f (y ∷ xs) {x} n h k = elim (Bool-cases (p y)) [
    | inl e ↦ ground arith
    | inr e ↦ ground (arith, find?-insert p q f xs {x = x})
  ]

  pub modify_first-none :
      (p : A → Bool) (f : A → A) (xs : List A) → any p xs ≡ false → modify_first p f xs ≡ xs
  modify_first-none p f [] h = refl
  modify_first-none p f (x ∷ xs) h = ground (arith, modify_first-none p f xs)

  pub All-modify_first {κ} :
      (P : A → Type κ) (p : A → Bool) (f : A → A) (xs : List A)
      → ((x : A) → p x ≡ true → P x → P (f x))
      → All P xs
      → All P (modify_first p f xs)
  All-modify_first P p f [] h a = tt
  All-modify_first P p f (x ∷ xs) h a = elim (Bool-cases (p x)) [
    | inl e ↦ rw e (h x e a.0, a.1)
    | inr e ↦ rw e (a.0, All-modify_first P p f xs h a.1)
  ]

  pub find?-All {κ} :
      (P : A → Type κ) (p : A → Bool) (xs : List A) {x : A} → find? p xs ≡ some x → All P xs → P x
  find?-All P p [] h a = cc
  find?-All P p (y ∷ xs) h a = elim (Bool-cases (p y)) [
    | inl e ↦ subst P (ground arith) a.0
    | inr e ↦ find?-All P p xs (rw e at h) a.1
  ]

  pub All-imp {κ μ} :
      (P : A → Type κ) (Q : A → Type μ) (xs : List A) → ((x : A) → P x → Q x) → All P xs → All Q xs
  All-imp P Q [] h a = tt
  All-imp P Q (x ∷ xs) h a = (h x a.0, All-imp P Q xs h a.1)

module _ {ℓ} {A : Type ℓ} where
  pub any-append_left : (p : A → Bool) (xs ys : List A) → any p xs ≡ true → any p (xs ++ ys) ≡ true
  any-append_left p [] ys h = cc
  any-append_left p (x ∷ xs) ys h = ground (arith, any-append_left p xs ys)

  pub any-append_right : (p : A → Bool) (xs ys : List A) → any p ys ≡ true → any p (xs ++ ys) ≡ true
  any-append_right p [] ys h = h
  any-append_right p (x ∷ xs) ys h = ground (arith, any-append_right p xs ys)

  pub find?-free : (p : A → Bool) (xs : List A) → All (λ x. p x ≡ false) xs → find? p xs ≡ none
  find?-free p [] a = refl
  find?-free p (x ∷ xs) a = ground (arith, find?-free p xs a.1)
