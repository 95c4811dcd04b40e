-- ===== src/Zsysd/Loop.antt =====
-- system/zsysd/main.c, the poll loop of main. One input is a connection that accept returns, the bytes
-- that a read of a client's slot returns, or a read that finds the connection closed or broken.
use zelto_os.Prelude.{
  ℕ, zero, suc, ◌+◌, ◌-◌, Bool, true, false, not, ◌&&◌, ◌||◌, List, [], ◌∷◌, ◌++◌, Option, none,
  some, if◌then◌else◌, ◌==◌, set, get_elem?,
}
use zelto_os.Prelude.Slots.{any, modify_first}
use zelto_os.Text.{Bytes, clip, split_lines}
use zelto_os.Zsysd.State.{Client, Broker, Event, closed, Env}
use zelto_os.Zsysd.Settings.{settings_load, unsubscribe}
use zelto_os.Zsysd.Manifests.{load_manifests}
use zelto_os.Zsysd.Intents.{is_live, logged}
use zelto_os.Zsysd.Handle.{handle_line}
pub mod Consent
pub mod Keeps
pub mod Remembers
pub mod Sinks
pub mod Wired
pub mod Reach
pub mod Fresh

pub data Input : Type 0 where
  -- accept() returned this descriptor
  accepted : ℕ → Input
  -- read() on the slot returned these bytes; the i-th line is handled in the i-th environment
  received : ℕ → Bytes → (ℕ → Env) → Input
  -- read() on the slot returned 0 or an error
  hung_up : ℕ → Input

abbrev pub is_vacant : Client → Bool
is_vacant c = not (is_live c.fd)

-- The first free slot takes the connection; with none it is closed.
unfoldable pub accept : Broker → ℕ → Broker × List Event
accept b fd =
    if any is_vacant b.clients
    then (
      record b {
        clients = modify_first is_vacant (λ _. record { fd = some fd; app = [] }) b.clients;
      },
      [],
    )
    else (b, closed fd ∷ [])

unfoldable pub drop_empty : List Bytes → List Bytes
drop_empty [] = []
drop_empty ([] ∷ ls) = drop_empty ls
drop_empty ((c ∷ l) ∷ ls) = (c ∷ l) ∷ drop_empty ls

-- The pieces that strtok_r(buf, "\n") yields.
unfoldable pub tokens : Bytes → List Bytes
unfolding split_lines drop_empty
tokens s = drop_empty (split_lines s)

unfoldable pub handle_lines : (ℕ → Env) → ℕ → Broker → ℕ → ℕ → List Bytes → Broker × List Event
unfolding handle_line
handle_lines envs i b slot fd [] = (b, [])
handle_lines envs i b slot fd (l ∷ ls) =
    let (b', es) = handle_line (envs i) b slot fd l in
    logged es (handle_lines envs (suc i) b' slot fd ls)

abbrev pub forget : Option ℕ → ℕ → Option ℕ
forget none fd = none
forget (some g) fd = if fd == g then none else some g

-- The connection is gone: its slot, its mailbox, and every place that names its descriptor.
unfoldable pub disconnect : Broker → ℕ → ℕ → Broker × List Event
unfolding unsubscribe
disconnect b slot fd = (
  record b {
    clients = set b.clients slot (record { fd = none; app = [] });
    shade = forget b.shade fd;
    subs = unsubscribe b.subs fd;
  },
  closed fd ∷ [],
)

abbrev pub slot_fd : Option Client → Option ℕ
slot_fd none = none
slot_fd (some c) = c.fd

unfoldable pub receive : Broker → ℕ → Option ℕ → Bytes → (ℕ → Env) → Broker × List Event
unfolding handle_lines tokens
receive b slot none text envs = (b, [])
receive b slot (some fd) text envs = handle_lines envs 0 b slot fd (tokens (clip 512 text))

unfoldable pub hang_up : Broker → ℕ → Option ℕ → Broker × List Event
unfolding disconnect
hang_up b slot none = (b, [])
hang_up b slot (some fd) = disconnect b slot fd

-- Only slots with a descriptor are polled.
unfoldable pub step : Broker → Input → Broker × List Event
unfolding accept receive hang_up
step b (accepted fd) = accept b fd
step b (received slot text envs) = receive b slot (slot_fd (get_elem? b.clients slot)) text envs
step b (hung_up slot) = hang_up b slot (slot_fd (get_elem? b.clients slot))

unfoldable pub run : Broker → List Input → Broker × List Event
unfolding step
run b [] = (b, [])
run b (i ∷ is) = let (b', es) = step b i in logged es (run b' is)

-- What main loads before the loop.
pub boot : Broker → Env → Option Bytes → Broker
unfolding settings_load load_manifests
boot b env conf = record b {
  manifests = load_manifests env.baked env.runtime;
  settings = settings_load b.settings conf;
}
