-- ===== src/Zsysd/Notifs/Ids.antt =====
-- system/zsysd/main.c: the ids of the notification store.
use zelto_os.Prelude.{
  ℕ, ◌+◌, ◌<◌, ◌≡◌, refl, sym, subst, inl, inr, true, false, List, [], ◌∷◌, arith, ◌==◌, Bool-cases,
  All,
}
use zelto_os.Prelude.Slots.{any, modify_first, All-modify_first, All-imp}
use zelto_os.Zsysd.State.{Notification, Broker}
use zelto_os.Zsysd.Notifs.{is_notif, is_free, unused, notif_drop, store_notif}

-- The slots in use have ids below `n`, from 1 on, and no id twice.
abbrev pub Below : ℕ → Notification → Type 0
Below n s = s.used ≡ true → (0 < s.id) × (s.id < n)

abbrev pub DistinctIds : List Notification → Type 0
DistinctIds [] = Unit
DistinctIds (s ∷ ss) = (s.used ≡ true → any (is_notif s.id) ss ≡ false) × DistinctIds ss

pub record HasIds (b : Broker) : Type 0 where
  pub next_pos : 0 < b.next_notif_id
  pub below : All (Below b.next_notif_id) b.notifs
  pub distinct : DistinctIds b.notifs

pub any-unused :
    (id k : ℕ) (ns : List Notification)
    → any (is_notif k) ns ≡ false
    → any (is_notif k) (modify_first (is_notif id) unused ns) ≡ false
any-unused id k [] h = refl
any-unused id k (s ∷ ss) h = ground (arith, any-unused id k ss)

DistinctIds-unused :
    (id : ℕ) (ns : List Notification)
    → DistinctIds ns
    → DistinctIds (modify_first (is_notif id) unused ns)
DistinctIds-unused id [] d = tt
DistinctIds-unused id (s ∷ ss) d = elim (Bool-cases (is_notif id s)) [
  | inl e ↦ rw e (λ u. cc, d.1)
  | inr e ↦ rw e (λ u. any-unused id s.id ss (d.0 u), DistinctIds-unused id ss d.1)
]

pub notif_drop-HasIds : (b : Broker) (id : ℕ) → HasIds b → HasIds (notif_drop b id).0
unfolding notif_drop
notif_drop-HasIds b id h = elim (Bool-cases (any (is_notif id) b.notifs)) [
  | inl e ↦ rw e (record {
    next_pos = h.next_pos;
    below =
        All-modify_first (Below b.next_notif_id) (is_notif id) unused b.notifs (λ x k p u. cc)
          h.below;
    distinct = DistinctIds-unused id b.notifs h.distinct;
  })
  | inr e ↦ rw e h
]

pub any-Below : (n : ℕ) (ns : List Notification) → All (Below n) ns → any (is_notif n) ns ≡ false
any-Below n [] a = refl
any-Below n (s ∷ ss) a = elim (Bool-cases s.used) [
  | inl u ↦ ground (arith, a.0 u, any-Below n ss a.1)
  | inr u ↦ ground (arith, any-Below n ss a.1)
]

any-stored :
    (k : ℕ) (m : Notification) (ns : List Notification)
    → (m.id == k) ≡ false
    → any (is_notif k) ns ≡ false
    → any (is_notif k) (modify_first is_free (λ _. m) ns) ≡ false
any-stored k m [] h a = refl
any-stored k m (s ∷ ss) h a = ground (arith, any-stored k m ss h)

DistinctIds-store :
    (m : Notification) (ns : List Notification)
    → All (Below m.id) ns
    → DistinctIds ns
    → DistinctIds (modify_first is_free (λ _. m) ns)
DistinctIds-store m [] a d = tt
DistinctIds-store m (s ∷ ss) a d = elim (Bool-cases s.used) [
  | inl u ↦
      rw u
        (λ v. any-stored s.id m ss (ground (arith, a.0 u)) (d.0 u), DistinctIds-store m ss a.1 d.1)
  | inr u ↦ rw u (λ v. any-Below m.id ss a.1, d.1)
]

pub store_notif-HasIds :
    (b : Broker) (fd : ℕ) (n : Notification)
    → n.id ≡ b.next_notif_id
    → HasIds b
    → HasIds (store_notif b fd n).0
unfolding store_notif
store_notif-HasIds b fd n e h = elim (Bool-cases (any is_free b.notifs)) [
  | inl r ↦ rw r (record {
    next_pos = omega arith;
    below =
        All-modify_first (Below (b.next_notif_id + 1)) is_free (λ _. n) b.notifs
          (λ x k p u. (ground (arith, h.next_pos), ground arith))
          (All-imp (Below b.next_notif_id) (Below (b.next_notif_id + 1)) b.notifs
            (λ x p u. ((p u).0, omega (arith, (p u).1))) h.below);
    distinct =
        DistinctIds-store n b.notifs (subst (λ k. All (Below k) b.notifs) (sym e) h.below)
          h.distinct;
  })
  | inr r ↦ rw r h
]
