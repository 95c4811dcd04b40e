-- ===== src/Zsysd/Notifs/Post.antt =====
-- What the store answers after a post and after a drop, for every id.
use zelto_os.Prelude.{
  ℕ, ◌≡◌, refl, ◌∙◌, inl, inr, true, false, List, [], ◌∷◌, none, some, arith, if◌then◌else◌, ◌==◌,
  Bool-cases,
}
use zelto_os.Prelude.Slots.{
  any, find?, modify_first, any-find?, find?-modify_first_other, find?-insert, any-some,
}
use zelto_os.Zsysd.State.{Notification, Broker}
use zelto_os.Zsysd.Notifs.{is_notif, is_free, notif_find, unused, notif_drop, store_notif}
use zelto_os.Zsysd.Notifs.Ids.{HasIds, DistinctIds, any-Below}

any-drop :
    (id : ℕ) (ns : List Notification)
    → DistinctIds ns
    → any (is_notif id) (modify_first (is_notif id) unused ns) ≡ false
any-drop id [] d = refl
any-drop id (s ∷ ss) d = ground (arith, d.0, any-drop id ss d.1)

find?-drop :
    (id k : ℕ) (ns : List Notification)
    → DistinctIds ns
    → find? (is_notif k) (modify_first (is_notif id) unused ns)
      ≡ (if id == k then none else find? (is_notif k) ns)
find?-drop id k ns d = elim (Bool-cases (id == k)) [
  | inl e ↦
      let same : id ≡ k = ground arith in
      rw (← same) (
        ground (
          arith,
          any-find? (is_notif id) (modify_first (is_notif id) unused ns) (any-drop id ns d),
        ))
  | inr e ↦ rw e (find?-modify_first_other _ _ unused ns (λ x h. (ground arith, ground arith)))
]

-- In a store whose ids are distinct, positive and below the next one, a drop takes out the
-- notification of that id, if there is one, and no other.
pub notif_find-notif_drop :
    (b : Broker) (id k : ℕ)
    → HasIds b
    → notif_find (notif_drop b id).0.notifs k ≡ (if id == k then none else notif_find b.notifs k)
unfolding notif_drop notif_find
notif_find-notif_drop b id k h = elim (Bool-cases (any (is_notif id) b.notifs)) [
  | inl e ↦ rw e (find?-drop id k b.notifs h.distinct)
  | inr e ↦ rw e (ground (arith, any-find? (is_notif id) b.notifs e))
]

-- In a store whose ids are distinct, positive and below the next one, and that has a slot free, no
-- stored notification has the id of a post that takes the next id; after the post the store has it
-- under that id, and under every other id what it had.
pub notif_find-store_notif :
    (b : Broker) (fd k : ℕ) (n : Notification)
    → HasIds b
    → n.used ≡ true
    → n.id ≡ b.next_notif_id
    → any is_free b.notifs ≡ true
    → (notif_find b.notifs n.id ≡ none)
      × (notif_find (store_notif b fd n).0.notifs k
          ≡ (if n.id == k then some n else notif_find b.notifs k))
unfolding store_notif notif_find
notif_find-store_notif b fd k n h u e room =
    let new =
      any-find? (is_notif n.id) b.notifs (rw e (any-Below b.next_notif_id b.notifs h.below)) in
    (new, rw room (found new))
  where
    found :
        find? (is_notif n.id) b.notifs ≡ none
        → find? (is_notif k) (modify_first is_free (λ _. n) b.notifs)
          ≡ (if n.id == k then some n else find? (is_notif k) b.notifs)
    found new = elim (Bool-cases (n.id == k)) [
      | inl same ↦
          let (x, free) = any-some is_free b.notifs room in
          let k_is : n.id ≡ k = ground arith in
          rw (← k_is) (
            find?-insert is_free (is_notif n.id) (λ _. n) b.notifs new free (ground arith)
            ∙ ground arith)
      | inr ne ↦ rw ne (
          find?-modify_first_other is_free (is_notif k) (λ _. n) b.notifs
            (λ x h. (ground arith, ground arith)))
    ]
