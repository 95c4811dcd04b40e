-- ===== src/Net/Ready.antt =====
-- sdk/src/net.c, the client's part of the app's poll loop: z_net_collect_fds and z_net_handle_ready over
-- the tables g_active and g_ws. A callback that sends or frees requests of its own is left aside.
use zelto_os.Prelude.{
  ℕ, suc, ◌+◌, ◌≤◌, Bool, false, List, [], ◌∷◌, ◌++◌, Option, none, some, arith, if◌then◌else◌, ltb,
  ◌==◌, length, length-append,
}
use zelto_os.Prelude.Slots.{any, modify_first}
use zelto_os.Net.Io.{Poll}
use zelto_os.Net.Request.{
  Request, NetState, perm_wait, connecting, sending, receiving, Flight, going, over, net_advance,
}
use zelto_os.Net.Socket.{Socket, WsState, ws_connect, ws_hs, ws_open, ws_dead, is_dead, ws_advance}

pub record Tables : Type 0 where
  pub active : List (Option Request)
  pub ws : List (Option Socket)

-- POLLIN or POLLOUT.
pub data Interest : Type 0 where
  poll_in poll_out : Interest

pub record PollFd : Type 0 where
  pub fd : ℕ
  pub events : Interest

abbrev pub request_events : NetState → Interest
request_events receiving = poll_in
request_events perm_wait = poll_out
request_events connecting = poll_out
request_events sending = poll_out

abbrev pub socket_events : WsState → Interest
socket_events ws_connect = poll_out
socket_events ws_hs = poll_in
socket_events ws_open = poll_in
socket_events ws_dead = poll_in

abbrev pub entry_of : Option ℕ → Interest → Option PollFd
entry_of none ev = none
entry_of (some fd) ev = some (record { fd = fd; events = ev })

-- A slot's entry in the poll set; a free slot and one with no descriptor have none, a dead socket too.
abbrev pub request_entry : Option Request → Option PollFd
request_entry none = none
request_entry (some r) = entry_of r.fd (request_events r.state)

abbrev pub socket_entry : Option Socket → Option PollFd
socket_entry none = none
socket_entry (some w) = if is_dead w.state then none else entry_of w.fd (socket_events w.state)

-- The loops over the tables, with `n` entries in the set: at `max` they end.
unfoldable pub collect : {A : Type 0} → (A → Option PollFd) → ℕ → ℕ → List A → List PollFd
collect entry max n [] = []
collect entry max n (x ∷ xs) =
    let without = collect entry max n xs in
    let rest = collect entry max (suc n) xs in
    elim (entry x) [ none ↦ without | some e ↦ if ltb n max then e ∷ rest else [] ]

unfoldable pub z_net_collect_fds : Tables → ℕ → List PollFd
unfolding collect
z_net_collect_fds t max =
    let http = collect request_entry max 0 t.active in
    http ++ collect socket_entry max (length http) t.ws

abbrev pub is_fd : ℕ → Option ℕ → Bool
is_fd fd none = false
is_fd fd (some g) = g == fd

abbrev pub request_has : ℕ → Option Request → Bool
request_has fd none = false
request_has fd (some r) = is_fd fd r.fd

abbrev pub socket_has : ℕ → Option Socket → Bool
socket_has fd none = false
socket_has fd (some w) = is_fd fd w.fd

abbrev pub in_flight : Flight → Option Request
in_flight (going r) = some r
in_flight (over res) = none

abbrev pub advance_request : Poll → Option Request → Option Request
advance_request p none = none
advance_request p (some r) = in_flight (net_advance p r)

abbrev pub advance_socket : Poll → Option Socket → Option Socket
advance_socket p none = none
advance_socket p (some w) =
    let w' = (ws_advance p w).socket in if is_dead w'.state then none else some w'

-- One ready descriptor: the request that has it, or else the socket that has it.
unfoldable pub handle_fd : Tables → ℕ → Poll → Tables
unfolding net_advance ws_advance
handle_fd t fd p =
    if any (request_has fd) t.active
    then record t { active = modify_first (request_has fd) (advance_request p) t.active }
    else record t { ws = modify_first (socket_has fd) (advance_socket p) t.ws }

-- The descriptors that poll reported, each with what its system calls then return.
unfoldable pub z_net_handle_ready : Tables → List (ℕ × Poll) → Tables
unfolding handle_fd
z_net_handle_ready t [] = t
z_net_handle_ready t ((fd, p) ∷ ready) = z_net_handle_ready (handle_fd t fd p) ready

length-collect-le :
    {A : Type 0} (entry : A → Option PollFd) (max n : ℕ) (xs : List A)
    → n ≤ max
    → n + length (collect entry max n xs) ≤ max
unfolding collect
length-collect-le entry max n [] h = omega arith
length-collect-le entry max n (x ∷ xs) h =
    ground (arith, length-collect-le entry max n xs, length-collect-le entry max (suc n) xs)

-- The poll set never has more entries than the app's array has room for.
pub length-z_net_collect_fds-le : (t : Tables) (max : ℕ) → length (z_net_collect_fds t max) ≤ max
unfolding z_net_collect_fds
length-z_net_collect_fds-le t max =
    let http = collect request_entry max 0 t.active in
    let first = length-collect-le request_entry max 0 t.active (omega arith) in
    omega (
      arith,
      first,
      length-append http (collect socket_entry max (length http) t.ws),
      length-collect-le socket_entry max (length http) t.ws (omega (arith, first)),
    )
