-- ===== src/Shade/Mirror.antt =====
-- system/shade/main.c: the banners over the shows and hides that the broker pushes.
use zelto_os.Prelude.{
  ◌-◌, ◌≤◌, ◌≡◌, refl, sym, ap, ◌∙◌, inl, inr, Bool, true, false, ◌&&◌, ◌||◌, List, [], ◌∷◌, Option,
  none, some, arith, if◌then◌else◌, Bool-cases, Option-cases, length, take, ltb, length-take-le,
  take-eq_self,
}
use zelto_os.Prelude.Slots.{any, find?, modify_first, any-find?}
use zelto_os.Number.{ℤ, pos, negsuc, eqb_ℤ}
use zelto_os.Client.Mailbox.{ZShownNotification}
use zelto_os.Shade.{
  Banner, ShadeState, is_banner, is_free, banner_by_id, banner_of, on_show, unused, dismiss,
  on_hide, Push, show, hide, pushed, run, max_history, start,
}

eqb_ℤ_iff : (a b : ℤ) → (eqb_ℤ a b ≡ true → a ≡ b) × (a ≡ b → eqb_ℤ a b ≡ true)
eqb_ℤ_iff (pos a) (pos b) = ground arith
eqb_ℤ_iff (pos a) (negsuc b) = ground arith
eqb_ℤ_iff (negsuc a) (pos b) = ground arith
eqb_ℤ_iff (negsuc a) (negsuc b) = ground arith

-- No id stands in two banners in use.
abbrev pub Distinct : List Banner → Type 0
Distinct [] = Unit
Distinct (b ∷ bs) = (b.used ≡ true → any (is_banner b.id) bs ≡ false) × Distinct bs

-- After a drop nothing has the id, and every other id its banner.
find?-unused :
    (id id' : ℤ) (bs : List Banner)
    → Distinct bs
    → find? (is_banner id') (modify_first (is_banner id) unused bs)
      ≡ (if eqb_ℤ id id' then none else find? (is_banner id') bs)
find?-unused id id' [] d = ground arith
find?-unused id id' (b ∷ bs) d = ground (
  arith,
  d.0,
  find?-unused id id' bs d.1,
  eqb_ℤ_iff id id',
  eqb_ℤ_iff b.id id,
  eqb_ℤ_iff b.id id',
  any-find? (is_banner b.id) bs,
)

module _ (w : Banner) (in_use : w.used ≡ true) where
  find?-replace :
      (id' : ℤ) (bs : List Banner)
      → any (is_banner w.id) bs ≡ true
      → find? (is_banner id') (modify_first (is_banner w.id) (λ b. w) bs)
        ≡ (if eqb_ℤ w.id id' then some w else find? (is_banner id') bs)
  find?-replace id' [] h = ground (arith, h)
  find?-replace id' (b ∷ bs) h = ground (
    arith,
    h,
    in_use,
    find?-replace id' bs,
    eqb_ℤ_iff w.id id',
    eqb_ℤ_iff b.id w.id,
    eqb_ℤ_iff b.id id',
  )

  find?-add :
      (id' : ℤ) (bs : List Banner)
      → any (is_banner w.id) bs ≡ false
      → find? (is_banner id') (modify_first is_free (λ b. w) bs)
        ≡ (if eqb_ℤ w.id id' && any is_free bs then some w else find? (is_banner id') bs)
  find?-add id' [] h = ground (arith, h)
  find?-add id' (b ∷ bs) h = ground (
    arith,
    h,
    in_use,
    find?-add id' bs,
    eqb_ℤ_iff w.id id',
    eqb_ℤ_iff b.id w.id,
    eqb_ℤ_iff b.id id',
  )

  -- No banner but the new one takes an id.
  any-add :
      (p : Banner → Bool) (k : ℤ) (bs : List Banner)
      → any (is_banner k) bs ≡ false
      → eqb_ℤ w.id k ≡ false
      → any (is_banner k) (modify_first p (λ b. w) bs) ≡ false
  any-add p k [] h e = refl
  any-add p k (b ∷ bs) h e = ground (arith, h, e, any-add p k bs)

  Distinct-replace :
      (bs : List Banner) → Distinct bs → Distinct (modify_first (is_banner w.id) (λ b. w) bs)
  Distinct-replace [] d = tt
  Distinct-replace (b ∷ bs) d = elim (Bool-cases (is_banner w.id b)) [
    | inl e ↦ rw e (λ u. ground (arith, e, d.0, eqb_ℤ_iff b.id w.id), d.1)
    | inr e ↦ rw e (
      λ u.
          any-add (is_banner w.id) b.id bs (d.0 u)
            (ground (arith, e, u, eqb_ℤ_iff b.id w.id, eqb_ℤ_iff w.id b.id)),
      Distinct-replace bs d.1,
    )
  ]

  Distinct-add :
      (bs : List Banner)
      → any (is_banner w.id) bs ≡ false
      → Distinct bs
      → Distinct (modify_first is_free (λ b. w) bs)
  Distinct-add [] h d = tt
  Distinct-add (b ∷ bs) h d = elim (Bool-cases (is_free b)) [
    | inl e ↦ rw e (λ u. ground (arith, h), d.1)
    | inr e ↦ rw e (
      λ u.
          any-add is_free b.id bs (d.0 u)
            (ground (arith, h, u, eqb_ℤ_iff b.id w.id, eqb_ℤ_iff w.id b.id)),
      Distinct-add bs (ground (arith, h)) d.1,
    )
  ]

any-unused :
    (id k : ℤ) (bs : List Banner)
    → any (is_banner k) bs ≡ false
    → any (is_banner k) (modify_first (is_banner id) unused bs) ≡ false
any-unused id k [] h = refl
any-unused id k (b ∷ bs) h = ground (arith, h, any-unused id k bs)

Distinct-unused :
    (id : ℤ) (bs : List Banner) → Distinct bs → Distinct (modify_first (is_banner id) unused bs)
Distinct-unused id [] d = tt
Distinct-unused id (b ∷ bs) d = elim (Bool-cases (is_banner id b)) [
  | inl e ↦ rw e (λ u. cc, d.1)
  | inr e ↦ rw e (λ u. any-unused id b.id bs (d.0 u), Distinct-unused id bs d.1)
]

-- Between pushes: no id twice, and the history in its bounds.
pub record IsSound (s : ShadeState) : Type 0 where
  pub distinct : Distinct s.banners
  pub bounded : length s.history ≤ max_history

on_show-IsSound : (n : ZShownNotification) (s : ShadeState) → IsSound s → IsSound (on_show n s)
unfolding on_show
on_show-IsSound n s h = elim (Bool-cases (any (is_banner n.id) s.banners)) [
  | inl e ↦ rw e (record {
    distinct = Distinct-replace (banner_of n) refl s.banners h.distinct;
    bounded = h.bounded;
  })
  | inr e ↦ rw e (record {
    distinct = Distinct-add (banner_of n) refl s.banners e h.distinct;
    bounded = h.bounded;
  })
]

dismiss-IsSound :
    (id : ℤ) (o : Option Banner) (s : ShadeState) → IsSound s → IsSound (dismiss id o s)
dismiss-IsSound id none s h = h
dismiss-IsSound id (some b) s h = record {
  distinct = Distinct-unused id s.banners h.distinct;
  bounded =
      ground
        (arith, h.bounded, length-take-le (length s.history) s.history, length-take-le 5 s.history);
}

run-IsSound : (ps : List Push) (s : ShadeState) → IsSound s → IsSound (run ps s)
unfolding run pushed on_hide
run-IsSound [] s h = h
run-IsSound (show n ∷ ps) s h = run-IsSound ps (on_show n s) (on_show-IsSound n s h)
run-IsSound (hide id ∷ ps) s h =
    run-IsSound ps (dismiss id (banner_by_id s id) s) (dismiss-IsSound id (banner_by_id s id) s h)

start-IsSound : IsSound start
start-IsSound = record {
  distinct = (
    λ u. refl,
    (λ u. refl, (λ u. refl, (λ u. refl, (λ u. refl, (λ u. refl, (λ u. refl, (λ u. refl, tt))))))),
  );
  bounded = omega arith;
}

and_true : (b : Bool) → (b && true) ≡ b
and_true true = refl
and_true false = refl

shows :
    (n : ZShownNotification) (s : ShadeState) (id' : ℤ)
    → banner_by_id (on_show n s) id' ≡ (
        if eqb_ℤ n.id id' && (any (is_banner n.id) s.banners || any is_free s.banners)
        then some (banner_of n)
        else banner_by_id s id')
unfolding banner_by_id on_show
shows n s id' = elim (Bool-cases (any (is_banner n.id) s.banners)) [
  | inl e ↦ rw e (
      find?-replace (banner_of n) refl id' s.banners e
      ∙ ap (λ b. if b then some (banner_of n) else find? (is_banner id') s.banners)
          (sym (and_true (eqb_ℤ n.id id'))))
  | inr e ↦ rw e (find?-add (banner_of n) refl id' s.banners e)
]

hides :
    (id : ℤ) (s : ShadeState) (id' : ℤ)
    → Distinct s.banners
    → banner_by_id (on_hide id s) id' ≡ (if eqb_ℤ id id' then none else banner_by_id s id')
unfolding banner_by_id on_hide
hides id s id' d = elim (Option-cases (find? (is_banner id) s.banners)) [
  | inl e ↦ ground (arith, e, eqb_ℤ_iff id id')
  | inr (b, e) ↦ ground (arith, e, find?-unused id id' s.banners d)
]

short_history :
    (hs : List Banner)
    → length hs ≤ 6
    → take (if ltb (length hs) max_history then length hs else max_history - 1) hs ≡ take 5 hs
short_history hs h = elim (Bool-cases (ltb (length hs) max_history)) [
  | inl e ↦
      rw e (take-eq_self (length hs) hs (omega arith) ∙ sym (take-eq_self 5 hs (ground (arith, e))))
  | inr e ↦ rw e refl
]

hides-history :
    (id : ℤ) (s : ShadeState) (b : Banner)
    → banner_by_id s id ≡ some b
    → length s.history ≤ 6
    → (on_hide id s).history ≡ b ∷ take 5 s.history
unfolding on_hide
hides-history id s b e l =
    ap (λ o. (dismiss id o s).history) e ∙ ap (◌∷◌ b) (short_history s.history l)

-- In every state that the broker's shows and hides lead to: a show puts its notification under its id, cut
-- to the banner's buffers, where the id is there or a slot is free, and changes the banner of no other
-- id; a hide leaves no banner with its id and changes no other, and puts the banner, if there was one,
-- in front of the history, which never has more than six.
pub run-banner_by_id :
    (ps : List Push) (n : ZShownNotification) (id id' : ℤ)
    → let s = run ps start in
      (banner_by_id (on_show n s) id' ≡ (
        if eqb_ℤ n.id id' && (any (is_banner n.id) s.banners || any is_free s.banners)
        then some (banner_of n)
        else banner_by_id s id'))
      × (banner_by_id (on_hide id s) id' ≡ (if eqb_ℤ id id' then none else banner_by_id s id'))
      × ((b : Banner) → banner_by_id s id ≡ some b → (on_hide id s).history ≡ b ∷ take 5 s.history)
      × (length s.history ≤ 6)
run-banner_by_id ps n id id' =
    let s = run ps start in
    let h = run-IsSound ps start start-IsSound in
    (shows n s id', hides id s id' h.distinct, λ b e. hides-history id s b e h.bounded, h.bounded)
