-- ===== src/Zsysd/Loop/Keeps.antt =====
-- system/zsysd/main.c: cached decisions over a whole run of the loop.
use zelto_os.Prelude.{
  ℕ, suc, ◌≡◌, refl, inl, inr, List, [], ◌∷◌, Option, none, some, arith, get_elem?,
}
use zelto_os.Text.{clip, Bytes}
use zelto_os.Zsysd.State.{Grant, Broker, Event, Env}
use zelto_os.Zsysd.Grants.{grant_find}
use zelto_os.Zsysd.Grants.Cache.{decide-keeps}
use zelto_os.Zsysd.Handle.{handle_line}
use zelto_os.Zsysd.Handle.Decides.{Decides, handle_line-Decides}
use zelto_os.Zsysd.Loop.{
  Input, accepted, received, hung_up, accept, handle_lines, receive, hang_up, step, run, tokens,
  slot_fd,
}

Decides-keeps :
    (env : Env) (b : Broker) (r : Broker × List Event) (app_id perm : Bytes) {g : Grant}
    → Decides env b r
    → grant_find b.grants app_id perm ≡ some g
    → grant_find r.0.grants app_id perm ≡ some g
Decides-keeps env b r app_id perm (inl e) h = rw e h
Decides-keeps env b r app_id perm (inr d) h =
    rw d.grants_are
      (decide-keeps env.consent b.manifests b.grants d.request d.app_id d.perm app_id perm d.fits h)

handle_lines-keeps :
    (envs : ℕ → Env) (i : ℕ) (b : Broker) (slot fd : ℕ) (ls : List Bytes) (app_id perm : Bytes)
    {g : Grant}
    → grant_find b.grants app_id perm ≡ some g
    → grant_find (handle_lines envs i b slot fd ls).0.grants app_id perm ≡ some g
unfolding handle_lines
handle_lines-keeps envs i b slot fd [] app_id perm h = h
handle_lines-keeps envs i b slot fd (l ∷ ls) app_id perm h =
    let r = handle_line (envs i) b slot fd l in
    handle_lines-keeps envs (suc i) r.0 slot fd ls app_id perm
      (Decides-keeps (envs i) b r app_id perm (handle_line-Decides (envs i) b slot fd l) h)

receive-keeps :
    (b : Broker) (slot : ℕ) (fd : Option ℕ) (text : Bytes) (envs : ℕ → Env) (app_id perm : Bytes)
    {g : Grant}
    → grant_find b.grants app_id perm ≡ some g
    → grant_find (receive b slot fd text envs).0.grants app_id perm ≡ some g
unfolding receive
receive-keeps b slot none text envs app_id perm h = h
receive-keeps b slot (some fd) text envs app_id perm h =
    handle_lines-keeps envs 0 b slot fd (tokens (clip 512 text)) app_id perm h

grants-accept : (b : Broker) (fd : ℕ) → (accept b fd).0.grants ≡ b.grants
unfolding accept
grants-accept b fd = ground arith

grants-hang_up : (b : Broker) (slot : ℕ) (fd : Option ℕ) → (hang_up b slot fd).0.grants ≡ b.grants
unfolding hang_up
grants-hang_up b slot none = refl
grants-hang_up b slot (some fd) = refl

step-keeps :
    (b : Broker) (i : Input) (app_id perm : Bytes) {g : Grant}
    → grant_find b.grants app_id perm ≡ some g
    → grant_find (step b i).0.grants app_id perm ≡ some g
unfolding step
step-keeps b (accepted fd) app_id perm h = rw (grants-accept b fd) h
step-keeps b (received slot text envs) app_id perm h =
    receive-keeps b slot (slot_fd (get_elem? b.clients slot)) text envs app_id perm h
step-keeps b (hung_up slot) app_id perm h =
    rw (grants-hang_up b slot (slot_fd (get_elem? b.clients slot))) h

-- A cached decision stays as it is through every run of the loop.
pub run-keeps :
    (b : Broker) (is : List Input) (app_id perm : Bytes) {g : Grant}
    → grant_find b.grants app_id perm ≡ some g
    → grant_find (run b is).0.grants app_id perm ≡ some g
unfolding run
run-keeps b [] app_id perm h = h
run-keeps b (i ∷ is) app_id perm h =
    run-keeps (step b i).0 is app_id perm (step-keeps b i app_id perm h)
