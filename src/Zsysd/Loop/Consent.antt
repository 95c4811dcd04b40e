-- ===== src/Zsysd/Loop/Consent.antt =====
-- system/zsysd/main.c: permissions and consent over a whole run of the loop.
use mathlib.Core.List.{append_assoc}
use zelto_os.Prelude.{
  ℕ, suc, ◌≡◌, sym, subst, inl, inr, Bool, true, false, ◌&&◌, List, [], ◌∷◌, ◌++◌, Option, none,
  some, arith, get_elem?, All, Bool-cases, Option-cases,
}
use zelto_os.Prelude.Slots.{
  any, any-append_left, any-append_right, All-modify_first, All-imp, find?-All, find?-holds,
}
use zelto_os.Text.{clip, Bytes, eqb, eqb_iff, eqb_refl}
use zelto_os.Zsysd.State.{
  Grant, Broker, Event, sent, launched, asked, chose, persisted, closed, Env, Manifest,
}
use zelto_os.Zsysd.Grants.{grant_find, grant_set, is_grant, decide, undecided}
use zelto_os.Zsysd.Grants.Cache.{Fits, decision, write_grant-decision}
use zelto_os.Zsysd.Manifests.{manifest_declares}
use zelto_os.Zsysd.Handle.{handle_line}
use zelto_os.Zsysd.Handle.Decides.{Decides, handle_line-Decides}
use zelto_os.Zsysd.Loop.{
  Input, accepted, received, hung_up, accept, handle_lines, receive, hang_up, step, run, tokens,
  slot_fd, is_vacant,
}

-- The user said yes to this permission of this app.
abbrev pub is_consent : Bytes → Bytes → Event → Bool
is_consent app_id perm (asked a p answer) = answer && (eqb a app_id && eqb p perm)
is_consent app_id perm (sent fd msg) = false
is_consent app_id perm (launched exec) = false
is_consent app_id perm (chose cands pick) = false
is_consent app_id perm (persisted text) = false
is_consent app_id perm (closed fd) = false

abbrev Backed : List Event → Grant → Type 0
Backed log g = g.used ≡ true → g.granted ≡ true → any (is_consent g.app_id g.perm) log ≡ true

abbrev Consented : List Event → List Grant → Type 0
Consented log gs = All (Backed log) gs

Consented-more :
    (log es : List Event) (gs : List Grant) → Consented log gs → Consented (log ++ es) gs
Consented-more log es gs c =
    All-imp (Backed log) (Backed (log ++ es)) gs (λ g h u k. any-append_left _ log es (h u k)) c

decision-Backed :
    (log rest : List Event) (app_id perm : Bytes) (allow : Bool)
    → Backed (log ++ asked app_id perm allow ∷ rest) (decision app_id perm allow)
decision-Backed log rest app_id perm allow u k =
    any-append_right _ log (asked app_id perm allow ∷ rest)
      (ground (arith, eqb_refl app_id, eqb_refl perm))

grant_set-Consented :
    (log rest : List Event) (gs : List Grant) (app_id perm : Bytes) (allow : Bool)
    → Fits app_id perm
    → Consented log gs
    → Consented (log ++ asked app_id perm allow ∷ rest) (grant_set gs app_id perm allow)
unfolding grant_set
grant_set-Consented log rest gs app_id perm allow f c =
    let log' : List Event = log ++ asked app_id perm allow ∷ rest in
    All-modify_first (Backed log') _ _ gs
      (λ x h b.
        subst (Backed log') (sym (write_grant-decision app_id perm allow x f))
          (decision-Backed log rest app_id perm allow))
      (Consented-more log (asked app_id perm allow ∷ rest) gs c)

undecided-Consented :
    (declared request : Bool) (consent : Bytes → Bytes → Bool) (gs : List Grant)
    (app_id perm : Bytes) (log rest : List Event)
    → Fits app_id perm
    → Consented log gs
    → Consented
        (log ++ ((undecided declared request consent gs app_id perm).events ++ rest))
        (undecided declared request consent gs app_id perm).grants
unfolding undecided
undecided-Consented false request consent gs app_id perm log rest f c = Consented-more log rest gs c
undecided-Consented true false consent gs app_id perm log rest f c = Consented-more log rest gs c
undecided-Consented true true consent gs app_id perm log rest f c =
    grant_set-Consented log rest gs app_id perm (consent app_id perm) f c

decide-Consented :
    (consent : Bytes → Bytes → Bool) (ms : List Manifest) (gs : List Grant) (request : Bool)
    (app_id perm : Bytes) (log rest : List Event)
    → Fits app_id perm
    → Consented log gs
    → Consented
        (log ++ ((decide consent ms gs request app_id perm).events ++ rest))
        (decide consent ms gs request app_id perm).grants
decide-Consented consent ms gs request app_id perm log rest f c =
    elim (Option-cases (grant_find gs app_id perm)) [
      | inl e ↦
          unfold decide in
          rw (e, decide)
            (undecided-Consented (manifest_declares ms app_id perm) request consent gs app_id perm
              log rest f c)
      | inr (g, e) ↦ unfold decide in rw (e, decide) (Consented-more log rest gs c)
    ]

Decides-Consented :
    (env : Env) (b : Broker) (r : Broker × List Event) (log : List Event)
    → Decides env b r
    → Consented log b.grants
    → Consented (log ++ r.1) r.0.grants
Decides-Consented env b r log (inl e) c = rw e (Consented-more log r.1 b.grants c)
Decides-Consented env b r log (inr d) c =
    rw (d.grants_are, d.events_are)
      (decide-Consented env.consent b.manifests b.grants d.request d.app_id d.perm log d.rest d.fits
        c)

handle_lines-Consented :
    (envs : ℕ → Env) (i : ℕ) (b : Broker) (slot fd : ℕ) (ls : List Bytes) (log : List Event)
    → Consented log b.grants
    → Consented
        (log ++ (handle_lines envs i b slot fd ls).1)
        (handle_lines envs i b slot fd ls).0.grants
unfolding handle_lines
handle_lines-Consented envs i b slot fd [] log c = Consented-more log [] b.grants c
handle_lines-Consented envs i b slot fd (l ∷ ls) log c =
    let r = handle_line (envs i) b slot fd l in
    let first = Decides-Consented (envs i) b r log (handle_line-Decides (envs i) b slot fd l) c in
    rw (← append_assoc log r.1 _)
      (handle_lines-Consented envs (suc i) r.0 slot fd ls (log ++ r.1) first)

receive-Consented :
    (b : Broker) (slot : ℕ) (fd : Option ℕ) (text : Bytes) (envs : ℕ → Env) (log : List Event)
    → Consented log b.grants
    → Consented (log ++ (receive b slot fd text envs).1) (receive b slot fd text envs).0.grants
unfolding receive
receive-Consented b slot none text envs log c = Consented-more log [] b.grants c
receive-Consented b slot (some fd) text envs log c =
    handle_lines-Consented envs 0 b slot fd (tokens (clip 512 text)) log c

hang_up-Consented :
    (b : Broker) (slot : ℕ) (fd : Option ℕ) (log : List Event)
    → Consented log b.grants
    → Consented (log ++ (hang_up b slot fd).1) (hang_up b slot fd).0.grants
unfolding hang_up
hang_up-Consented b slot none log c = Consented-more log [] b.grants c
hang_up-Consented b slot (some fd) log c = Consented-more log (closed fd ∷ []) b.grants c

accept-Consented :
    (b : Broker) (fd : ℕ) (log : List Event)
    → Consented log b.grants
    → Consented (log ++ (accept b fd).1) (accept b fd).0.grants
unfolding accept
accept-Consented b fd log c = elim (Bool-cases (any is_vacant b.clients)) [
  | inl e ↦ rw e (Consented-more log [] b.grants c)
  | inr e ↦ rw e (Consented-more log (closed fd ∷ []) b.grants c)
]

step-Consented :
    (b : Broker) (i : Input) (log : List Event)
    → Consented log b.grants
    → Consented (log ++ (step b i).1) (step b i).0.grants
unfolding step
step-Consented b (accepted fd) log c = accept-Consented b fd log c
step-Consented b (received slot text envs) log c =
    receive-Consented b slot (slot_fd (get_elem? b.clients slot)) text envs log c
step-Consented b (hung_up slot) log c =
    hang_up-Consented b slot (slot_fd (get_elem? b.clients slot)) log c

run-Consented :
    (b : Broker) (is : List Input) (log : List Event)
    → Consented log b.grants
    → Consented (log ++ (run b is).1) (run b is).0.grants
unfolding run
run-Consented b [] log c = Consented-more log [] b.grants c
run-Consented b (i ∷ is) log c =
    let r = step b i in
    rw (← append_assoc log r.1 _) (run-Consented r.0 is (log ++ r.1) (step-Consented b i log c))

free-Consented : (gs : List Grant) → All (λ g. g.used ≡ false) gs → Consented [] gs
free-Consented [] a = tt
free-Consented (g ∷ gs) a = (λ u k. ground arith, free-Consented gs a.1)

-- Whatever connects, is sent and hangs up, in any order: a broker that starts with no grant has a grant
-- for a permission only if, earlier in the run, the consent dialog was shown for that app and that
-- permission and the user said yes.
pub run_consented :
    (b : Broker) (is : List Input) (app_id perm : Bytes) {g : Grant}
    → All (λ h. h.used ≡ false) b.grants
    → grant_find (run b is).0.grants app_id perm ≡ some g
    → g.granted ≡ true
    → any (is_consent app_id perm) (run b is).1 ≡ true
unfolding grant_find
run_consented b is app_id perm {g} free found granted =
    let backed =
      find?-All (Backed (run b is).1) (is_grant app_id perm) (run b is).0.grants found
        (run-Consented b is [] (free-Consented b.grants free)) in
    let hit = find?-holds (is_grant app_id perm) (run b is).0.grants found in
    let key : (g.used ≡ true) × (g.app_id ≡ app_id) × (g.perm ≡ perm) =
      ground (arith, eqb_iff g.app_id app_id, eqb_iff g.perm perm) in
    rw (key.1, key.2) at (backed key.0 granted)
