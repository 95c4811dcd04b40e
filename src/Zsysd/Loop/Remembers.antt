-- ===== src/Zsysd/Loop/Remembers.antt =====
-- system/zsysd/main.c: the answer of the consent dialog over a whole run of the loop.
use zelto_os.Prelude.{
  ◌≡◌, refl, Bool, true, false, List, [], ◌∷◌, none, some, arith, inl, inr, Bool-cases,
}
use zelto_os.Prelude.Slots.{any, any-some, modify_first-none}
use zelto_os.Text.{Bytes}
use zelto_os.Zsysd.State.{Manifest, Grant, Broker, Env, asked}
use zelto_os.Zsysd.Manifests.{manifest_declares}
use zelto_os.Zsysd.Grants.{
  is_grant, is_free, grant_find, write_grant, grant_set, of_answer, settled, decide,
}
use zelto_os.Zsysd.Grants.Cache.{Fits, grant_find-grant_set}
use zelto_os.Zsysd.Loop.{Input, run}
use zelto_os.Zsysd.Loop.Keeps.{run-keeps}

decide_cached :
    (consent : Bytes → Bytes → Bool) (ms : List Manifest) (gs : List Grant) (request : Bool)
    (app_id perm : Bytes) {g : Grant}
    → grant_find gs app_id perm ≡ some g
    → decide consent ms gs request app_id perm ≡ settled gs (of_answer g.granted)
unfolding decide
decide_cached consent ms gs request app_id perm h = ground (arith, h)

decide_first :
    (consent : Bytes → Bytes → Bool) (ms : List Manifest) (gs : List Grant) (app_id perm : Bytes)
    → grant_find gs app_id perm ≡ none
    → manifest_declares ms app_id perm ≡ true
    → decide consent ms gs true app_id perm ≡ record {
      status = of_answer (consent app_id perm);
      grants = grant_set gs app_id perm (consent app_id perm);
      events = asked app_id perm (consent app_id perm) ∷ [];
    }
unfolding decide
decide_first consent ms gs app_id perm new declared = ground (arith, new, declared)

grant_set-full :
    (gs : List Grant) (app_id perm : Bytes) (allow : Bool)
    → grant_find gs app_id perm ≡ none
    → any is_free gs ≡ false
    → grant_set gs app_id perm allow ≡ gs
unfolding grant_set grant_find
grant_set-full gs app_id perm allow new full = elim (Bool-cases (any (is_grant app_id perm) gs)) [
  | inl e ↦
      let (x, there) = any-some (is_grant app_id perm) gs e in absurd (ground (arith, new, there))
  | inr e ↦ rw e (modify_first-none is_free (write_grant app_id perm allow) gs full)
]

-- A perm_request for a declared permission that is not decided yet, of an app id and a name that fit a
-- slot's buffers, asks the user once and answers what the user says. With a slot free the answer is
-- kept: after every run of the loop from there on, whatever other apps and keys it decides, a
-- request or a status query for this key gets that answer in any environment, with no dialog. With
-- none free nothing is recorded, and the next request would ask again.
pub decide-run :
    (env env' : Env) (b : Broker) (is : List Input) (request : Bool) (app_id perm : Bytes)
    → Fits app_id perm
    → grant_find b.grants app_id perm ≡ none
    → manifest_declares b.manifests app_id perm ≡ true
    → let d = decide env.consent b.manifests b.grants true app_id perm in
      let b' = (run (record b { grants = d.grants }) is).0 in
      (d.status ≡ of_answer (env.consent app_id perm))
      × (d.events ≡ asked app_id perm (env.consent app_id perm) ∷ [])
      × (any is_free b.grants ≡ true
          → decide env'.consent b'.manifests b'.grants request app_id perm
            ≡ settled b'.grants (of_answer (env.consent app_id perm)))
      × (any is_free b.grants ≡ false → d.grants ≡ b.grants)
decide-run env env' b is request app_id perm f new declared =
    let allow = env.consent app_id perm in
    let gs = grant_set b.grants app_id perm allow in
    let b' = (run (record b { grants = gs }) is).0 in
    rw (decide_first env.consent b.manifests b.grants app_id perm new declared) (
      refl,
      refl,
      λ room. decide_cached env'.consent b'.manifests b'.grants request app_id perm (
          run-keeps (record b { grants = gs }) is app_id perm
            (grant_find-grant_set b.grants app_id perm allow f room)),
      λ full. grant_set-full b.grants app_id perm allow new full,
    )
