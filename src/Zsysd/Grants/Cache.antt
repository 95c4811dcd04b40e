-- ===== src/Zsysd/Grants/Cache.antt =====
-- system/zsysd/main.c: the cache of permission decisions.
use zelto_os.Prelude.{
  ◌≤◌, ◌≡◌, ap, ◌∙◌, ◌⊎◌, inl, inr, Bool, true, false, ◌&&◌, List, [], ◌∷◌, none, some, arith,
  Bool-cases, Option-cases, length, take-eq_self,
}
use zelto_os.Prelude.Slots.{
  any, any-some, any-find?, find?-modify_first, find?-modify_first_other, find?-insert,
}
use zelto_os.Text.{Bytes, eqb, eqb_iff}
use zelto_os.Zsysd.State.{Manifest, Grant, asked}
use zelto_os.Zsysd.Manifests.{manifest_declares}
use zelto_os.Zsysd.Grants.{
  is_grant, is_free, grant_find, write_grant, grant_set, granted, denied, settled, decide,
}

-- The key fits its buffers, as every key read from a request does.
pub record Fits (app_id perm : Bytes) : Type 0 where
  pub app_id_fits : length app_id ≤ 95
  pub perm_fits : length perm ≤ 31

write_grant-hits :
    (app_id perm : Bytes) (allow : Bool) (g : Grant)
    → Fits app_id perm
    → is_grant app_id perm (write_grant app_id perm allow g) ≡ true
write_grant-hits app_id perm allow g f = ground (
  arith,
  take-eq_self 95 app_id f.app_id_fits,
  take-eq_self 31 perm f.perm_fits,
  eqb_iff app_id app_id,
  eqb_iff perm perm,
)

abbrev pub decision : Bytes → Bytes → Bool → Grant
decision app_id perm allow = record { app_id = app_id; perm = perm; granted = allow; used = true }

pub write_grant-decision :
    (app_id perm : Bytes) (allow : Bool) (g : Grant)
    → Fits app_id perm
    → write_grant app_id perm allow g ≡ decision app_id perm allow
write_grant-decision app_id perm allow g f =
    ground (arith, take-eq_self 95 app_id f.app_id_fits, take-eq_self 31 perm f.perm_fits)

-- A decision that is recorded is found, where the key has a slot or a slot is free.
pub grant_find-grant_set :
    (gs : List Grant) (app_id perm : Bytes) (allow : Bool)
    → Fits app_id perm
    → any is_free gs ≡ true
    → grant_find (grant_set gs app_id perm allow) app_id perm ≡ some (decision app_id perm allow)
unfolding grant_find grant_set
grant_find-grant_set gs app_id perm allow f room =
    elim (Bool-cases (any (is_grant app_id perm) gs)) [
      | inl old ↦
          let (x, found) = any-some (is_grant app_id perm) gs old in
          rw old (
            find?-modify_first _ _ gs found (write_grant-hits app_id perm allow x f)
            ∙ ap some (write_grant-decision app_id perm allow x f))
      | inr new ↦
          let (x, found) = any-some is_free gs room in
          rw new (
            find?-insert _ _ _ gs (any-find? _ gs new) found
              (write_grant-hits app_id perm allow x f)
            ∙ ap some (write_grant-decision app_id perm allow x f))
    ]

abbrev pub same_key : Bytes → Bytes → Bytes → Bytes → Bool
same_key app_id perm app_id' perm' = eqb app_id app_id' && eqb perm perm'

-- Whichever slot is written, a search for another key does not see it.
write-unseen :
    (app_id perm app_id' perm' : Bytes) (allow : Bool)
    → Fits app_id perm
    → same_key app_id perm app_id' perm' ≡ false
    → (x : Grant) → (is_grant app_id perm x ≡ true) ⊎ (is_free x ≡ true)
    → (is_grant app_id' perm' x ≡ false)
      × (is_grant app_id' perm' (write_grant app_id perm allow x) ≡ false)
write-unseen app_id perm app_id' perm' allow f ne x h = ground (
  arith,
  write_grant-decision app_id perm allow x f,
  eqb_iff x.app_id app_id,
  eqb_iff x.perm perm,
)

pub grant_find-grant_set_other :
    (gs : List Grant) (app_id perm app_id' perm' : Bytes) (allow : Bool)
    → Fits app_id perm
    → same_key app_id perm app_id' perm' ≡ false
    → grant_find (grant_set gs app_id perm allow) app_id' perm' ≡ grant_find gs app_id' perm'
unfolding grant_find grant_set
grant_find-grant_set_other gs app_id perm app_id' perm' allow f ne =
    find?-modify_first_other _ _ _ gs λ x h.
      write-unseen app_id perm app_id' perm' allow f ne x
        (ground (arith, Bool-cases (any (is_grant app_id perm) gs)))

-- No later decision, on this key or on another, changes one that is cached.
pub decide-keeps :
    (consent : Bytes → Bytes → Bool) (ms : List Manifest) (gs : List Grant) (request : Bool)
    (app_id perm app_id' perm' : Bytes) {g : Grant}
    → Fits app_id perm
    → grant_find gs app_id' perm' ≡ some g
    → grant_find (decide consent ms gs request app_id perm).grants app_id' perm' ≡ some g
unfolding decide
decide-keeps consent ms gs request app_id perm app_id' perm' {g} f h = ground (
  arith,
  eqb_iff app_id app_id',
  eqb_iff perm perm',
  grant_find-grant_set_other gs app_id perm app_id' perm' (consent app_id perm) f,
)

-- A permission is granted only by a cached grant, or by the user's consent, asked for now, to a
-- permission that the app's manifest declares and that a perm_request names.
pub decide_granted :
    (consent : Bytes → Bytes → Bool) (ms : List Manifest) (gs : List Grant) (request : Bool)
    (app_id perm : Bytes)
    → (decide consent ms gs request app_id perm).status ≡ granted
    → ((g : Grant) × (grant_find gs app_id perm ≡ some g) × (g.granted ≡ true))
      ⊎ ((manifest_declares ms app_id perm ≡ true)
          × (request ≡ true)
          × (consent app_id perm ≡ true)
          × ((decide consent ms gs request app_id perm).events ≡ asked app_id perm true ∷ []))
unfolding decide
decide_granted consent ms gs request app_id perm h =
    elim (Option-cases (grant_find gs app_id perm)) [
      | inl e ↦ inr (ground arith, ground arith, ground arith, ground arith)
      | inr (g, e) ↦ inl (g, e, ground arith)
    ]

-- A permission that the manifest does not declare and that has no cached decision is denied, by either
-- operation, with no dialog and nothing recorded.
pub decide_undeclared :
    (consent : Bytes → Bytes → Bool) (ms : List Manifest) (gs : List Grant) (request : Bool)
    (app_id perm : Bytes)
    → manifest_declares ms app_id perm ≡ false
    → grant_find gs app_id perm ≡ none
    → decide consent ms gs request app_id perm ≡ settled gs denied
unfolding decide
decide_undeclared consent ms gs request app_id perm h e = ground arith
