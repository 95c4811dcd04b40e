-- ===== src/Zsysd/Loop/Fresh.antt =====
-- system/zsysd/main.c: the ids of the notification store over a whole run of the loop.
use zelto_os.Prelude.{ℕ, suc, ◌≡◌, refl, List, [], ◌∷◌, Option, none, some, arith, get_elem?}
use zelto_os.Text.{Bytes, clip}
use zelto_os.Zsysd.State.{Broker, Env}
use zelto_os.Zsysd.Notifs.Ids.{HasIds}
use zelto_os.Zsysd.Handle.{handle_line}
use zelto_os.Zsysd.Handle.Ids.{handle_line-HasIds}
use zelto_os.Zsysd.Loop.{
  Input, accepted, received, hung_up, accept, handle_lines, receive, hang_up, step, run, tokens,
  slot_fd,
}

HasIds-same :
    {b b' : Broker}
    → b'.notifs ≡ b.notifs
    → b'.next_notif_id ≡ b.next_notif_id
    → HasIds b
    → HasIds b'
HasIds-same e f h = record {
  next_pos = rw f h.next_pos;
  below = rw (e, f) h.below;
  distinct = rw e h.distinct;
}

handle_lines-HasIds :
    (envs : ℕ → Env) (i : ℕ) (b : Broker) (slot fd : ℕ) (ls : List Bytes)
    → HasIds b
    → HasIds (handle_lines envs i b slot fd ls).0
unfolding handle_lines
handle_lines-HasIds envs i b slot fd [] h = h
handle_lines-HasIds envs i b slot fd (l ∷ ls) h =
    handle_lines-HasIds envs (suc i) (handle_line (envs i) b slot fd l).0 slot fd ls
      (handle_line-HasIds (envs i) b slot fd l h)

receive-HasIds :
    (b : Broker) (slot : ℕ) (fd : Option ℕ) (text : Bytes) (envs : ℕ → Env)
    → HasIds b
    → HasIds (receive b slot fd text envs).0
unfolding receive
receive-HasIds b slot none text envs h = h
receive-HasIds b slot (some fd) text envs h =
    handle_lines-HasIds envs 0 b slot fd (tokens (clip 512 text)) h

hang_up-HasIds : (b : Broker) (slot : ℕ) (fd : Option ℕ) → HasIds b → HasIds (hang_up b slot fd).0
unfolding hang_up
hang_up-HasIds b slot none h = h
hang_up-HasIds b slot (some fd) h = HasIds-same refl refl h

accept-HasIds : (b : Broker) (fd : ℕ) → HasIds b → HasIds (accept b fd).0
unfolding accept
accept-HasIds b fd h = HasIds-same (ground arith) (ground arith) h

step-HasIds : (b : Broker) (i : Input) → HasIds b → HasIds (step b i).0
unfolding step
step-HasIds b (accepted fd) h = accept-HasIds b fd h
step-HasIds b (received slot text envs) h =
    receive-HasIds b slot (slot_fd (get_elem? b.clients slot)) text envs h
step-HasIds b (hung_up slot) h = hang_up-HasIds b slot (slot_fd (get_elem? b.clients slot)) h

-- Where the ids of the stored notifications are distinct, positive and below the next id to be given
-- out, they are so after every run of the loop.
pub run-HasIds : (b : Broker) (is : List Input) → HasIds b → HasIds (run b is).0
unfolding run
run-HasIds b [] h = h
run-HasIds b (i ∷ is) h = run-HasIds (step b i).0 is (step-HasIds b i h)
