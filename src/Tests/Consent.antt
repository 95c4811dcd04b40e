-- ===== src/Tests/Consent.antt =====
-- The permissions and the connections, on small runs.
use zelto_os.Prelude.{◌≡◌, refl, true, false, List, [], ◌∷◌, some, ◌⊎◌, arith}
use zelto_os.Prelude.Slots.{any}
use zelto_os.Text.{codes}
use zelto_os.Zsysd.State.{asked, Grant, Broker, initial}
use zelto_os.Zsysd.Grants.{grant_find, grant_set, decide, of_answer, settled, is_free}
use zelto_os.Zsysd.Grants.Cache.{decide_granted, decision}
use zelto_os.Zsysd.Manifests.{manifest_declares}
use zelto_os.Zsysd.Wire.Fields.{request}
use zelto_os.Zsysd.Handle.Live.{AllGo}
use zelto_os.Zsysd.Loop.{step, run, accepted, hung_up, received}
use zelto_os.Zsysd.Loop.Consent.{is_consent, run_consented}
use zelto_os.Zsysd.Loop.Keeps.{run-keeps}
use zelto_os.Zsysd.Loop.Remembers.{decide-run}
use zelto_os.Zsysd.Loop.Reach.{Reach, here, next, Reach-AllGo, IsGone, Reach-IsGone, initial-Wired}
use zelto_os.Tests.Data.{cam, camera, agrees, home, visit, ask}

run_consented_example : any (is_consent cam camera) (run home visit).1 ≡ true
unfolding run grant_find initial request manifest_declares zelto_os.Text.trim_end grant_set
run_consented_example = run_consented home visit cam camera (refl, (refl, tt)) refl refl

abbrev keeper : List Grant
keeper = decision cam camera false ∷ []

run-keeps_example :
    grant_find (run (record home { grants = keeper }) visit).0.grants cam camera
    ≡ some (decision cam camera false)
unfolding grant_find zelto_os.Text.eqb
run-keeps_example = run-keeps (record home { grants = keeper }) visit cam camera refl

abbrev connected : Broker
connected = (step initial (accepted 5)).0

connects : Reach initial connected
unfolding initial
connects = next (accepted 5) refl here

Reach-AllGo_example : AllGo connected.clients (step connected (received 0 ask (λ i. agrees))).1
Reach-AllGo_example = Reach-AllGo (received 0 ask (λ i. agrees)) initial-Wired connects tt

Reach-IsGone_example : IsGone 5 (step connected (hung_up 0)).0
Reach-IsGone_example = Reach-IsGone 0 5 initial-Wired connects (unfold step initial in refl)

decide_granted_example :
    ((g : Grant) × (grant_find home.grants cam camera ≡ some g) × (g.granted ≡ true))
    ⊎ ((manifest_declares home.manifests cam camera ≡ true)
        × (true ≡ true)
        × (agrees.consent cam camera ≡ true)
        × ((decide agrees.consent home.manifests home.grants true cam camera).events
            ≡ asked cam camera true ∷ []))
unfolding initial decide manifest_declares zelto_os.Text.trim_end zelto_os.Text.take_while
    zelto_os.Text.drop_while
decide_granted_example =
    decide_granted agrees.consent home.manifests home.grants true cam camera refl

decide-run_example :
    let d = decide agrees.consent home.manifests home.grants true cam camera in
    let b' = (run (record home { grants = d.grants }) visit).0 in
    (d.status ≡ of_answer true)
    × (d.events ≡ asked cam camera true ∷ [])
    × (any is_free home.grants ≡ true
        → decide agrees.consent b'.manifests b'.grants false cam camera
          ≡ settled b'.grants (of_answer true))
    × (any is_free home.grants ≡ false → d.grants ≡ home.grants)
unfolding grant_find manifest_declares zelto_os.Text.trim_end zelto_os.Text.take_while
    zelto_os.Text.drop_while
decide-run_example =
    decide-run agrees agrees home visit false cam camera
      (record { app_id_fits = omega arith; perm_fits = omega arith }) refl refl
