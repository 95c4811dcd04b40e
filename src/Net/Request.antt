-- ===== src/Net/Request.antt =====
-- sdk/src/net.c, the life of an HTTP request: build_request, start_connect, net_perm_cb, net_advance,
-- z_net_request, z_net_set_header, z_net_set_body and z_net_send. A request is its struct while it is in
-- flight; when its callback is called the request is freed, and its response is what is left.
use zelto_os.Prelude.{
  ℕ, ◌+◌, ◌-◌, ◌≤◌, ◌≡◌, refl, Bool, true, false, not, List, [], ◌∷◌, ◌++◌, Option, none, some,
  if◌then◌else◌, ◌==◌, ltb, length,
}
use zelto_os.Prelude.Slots.{any, modify_first}
use zelto_os.Text.{Bytes, codes, clip}
use zelto_os.Zsysd.Wire.{show, bind}
use zelto_os.Zsysd.Grants.{Status, granted, denied, prompt}
use zelto_os.Net.Url.{Url, parse_url}
use zelto_os.Net.Io.{
  Write, Read, Poll, Sent, End, done, blocked, broken, send_all, recv_all, Received, written,
}
use zelto_os.Net.Response.{Response, response, no_response}
pub mod Wire
pub mod Answer

pub data NetState : Type 0 where
  perm_wait connecting sending receiving : NetState

pub record Request : Type 0 where
  pub http_method : Bytes
  pub host : Bytes
  pub port : Option ℕ
  pub path : Bytes
  pub hdrs : Bytes
  pub body : Bytes
  pub fd : Option ℕ
  pub state : NetState
  pub sendbuf : Bytes
  pub send_off : ℕ
  pub rbuf : Bytes

-- A request in flight, or the response with which its callback was called.
pub data Flight : Type 0 where
  going : Request → Flight
  over : Response → Flight

abbrev pub of_url : Bytes → Url → Request
of_url http_method u = record {
  http_method = clip 8 http_method;
  host = u.host;
  port = u.port;
  path = u.path;
  hdrs = [];
  body = [];
  fd = none;
  state = perm_wait;
  sendbuf = [];
  send_off = 0;
  rbuf = [];
}

pub z_net_request : Bytes → Bytes → Option Request
unfolding parse_url
z_net_request http_method url =
    bind (parse_url url (codes "http://") 80 128 512) λ u. some (of_url http_method u)

-- A header that does not fit the buffer is cut where the buffer ends.
unfoldable pub z_net_set_header : Request → Bytes → Bytes → Request
z_net_set_header r k v = record r {
  hdrs = clip 1024 (r.hdrs ++ (k ++ (codes ": " ++ (v ++ 13 ∷ 10 ∷ []))));
}

abbrev pub z_net_set_body : Request → Bytes → Request
z_net_set_body r [] = r
z_net_set_body r (c ∷ s) = record r { body = c ∷ s }

abbrev pub head_max : ℕ
head_max = 2560

abbrev pub crlf : Bytes
crlf = 13 ∷ 10 ∷ []

abbrev pub request_head : Request → Bytes
request_head r =
    r.http_method
    ++ (codes " "
        ++ (r.path
            ++ (codes " HTTP/1.1"
                ++ (crlf
                    ++ (codes "Host: "
                        ++ (r.host
                            ++ (crlf ++ (r.hdrs ++ (codes "Connection: close" ++ crlf)))))))))

-- snprintf at the end of the head: what does not fit is left out.
abbrev pub add_head : Bytes → Bytes → Bytes
add_head head t = if ltb (length head + length t) head_max then head ++ t else head

abbrev pub add_length : Bytes → Bytes → Bytes
add_length head [] = head
add_length head (c ∷ s) =
    add_head head (codes "Content-Length: " ++ (show (length (c ∷ s)) ++ crlf))

unfoldable pub build_request : Request → Request
unfolding show
build_request r = record r {
  sendbuf = add_head (add_length (add_head [] (request_head r)) r.body) crlf ++ r.body;
  send_off = 0;
}

-- What tcp_connect_nb returns.
pub data Connect : Type 0 where
  refused : Connect
  -- the descriptor, and whether the connect is still in progress
  opened : ℕ → Bool → Connect

unfoldable pub start_connect : Connect → Request → Flight
unfolding build_request
start_connect refused r = over no_response
start_connect (opened fd in_progress) r =
    going (record (build_request r) {
      fd = some fd;
      state = if in_progress then connecting else sending;
    })

-- What z_net_send finds: the sys.airplane setting, the permission, and what a connect would give.
pub record Net : Type 0 where
  pub airplane : Bool
  pub permission : Status
  pub connect : Connect

abbrev pub gate : Status → Connect → Request → Flight
gate granted c r = start_connect c r
gate denied c r = over no_response
gate prompt c r = going (record r { state = perm_wait })

unfoldable pub begin : Net → Request → Flight
unfolding start_connect
begin net r = if net.airplane then over no_response else gate net.permission net.connect r

-- g_active: the requests in flight.
abbrev pub is_vacant : Option Request → Bool
is_vacant none = true
is_vacant (some r) = false

-- add_active, and destroy_request for a request that is over at once: its slot is free again.
abbrev pub settle : List (Option Request) → Flight → List (Option Request) × Option Response
settle tbl (going r) = (modify_first is_vacant (λ o. some r) tbl, none)
settle tbl (over res) = (tbl, some res)

unfoldable pub z_net_send :
    Net → List (Option Request) → Request → List (Option Request) × Option Response
unfolding begin
z_net_send net tbl r =
    if any is_vacant tbl then settle tbl (begin net r) else (tbl, some no_response)

-- net_perm_cb: the user has answered.
unfoldable pub net_perm_cb : Status → Connect → Request → Flight
unfolding start_connect
net_perm_cb granted c r = start_connect c r
net_perm_cb denied c r = over no_response
net_perm_cb prompt c r = over no_response

abbrev pub after_send : Request → ℕ → End → Flight
after_send r off done = going (record r { send_off = off; state = receiving })
after_send r off blocked = going (record r { send_off = off; state = sending })
after_send r off broken = over no_response

abbrev pub send_more : List Write → Request → Flight
send_more ws r = let s = send_all (length r.sendbuf) r.send_off ws in after_send r s.off s.end

abbrev pub after_recv : Request → Bytes → End → Flight
after_recv r text done = over (response text)
after_recv r text blocked = going (record r { rbuf = text })
after_recv r text broken = over no_response

abbrev pub recv_more : List Read → Request → Flight
recv_more rs r = let g = recv_all rs in after_recv r (r.rbuf ++ g.bytes) g.end

abbrev pub advance_in : NetState → Poll → Request → Flight
advance_in perm_wait p r = going r
advance_in connecting p r = if p.so_error then over no_response else send_more p.writes r
advance_in sending p r = send_more p.writes r
advance_in receiving p r = recv_more p.reads r

-- One poll round in which the descriptor is ready.
unfoldable pub net_advance : Poll → Request → Flight
unfolding send_all recv_all response
net_advance p r = advance_in r.state p r

unfoldable pub net_run : Flight → List Poll → Flight
unfolding net_advance
net_run f [] = f
net_run (over res) (p ∷ ps) = over res
net_run (going r) (p ∷ ps) = net_run (net_advance p r) ps
