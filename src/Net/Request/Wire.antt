-- ===== src/Net/Request/Wire.antt =====
-- sdk/src/net.c: what goes out for a request, and when.
use mathlib.Core.List.{append_assoc, append-nil}
use zelto_os.Prelude.{
  ℕ, ◌+◌, ◌≤◌, ◌<◌, ◌≡◌, ◌≢◌, ◌⊎◌, refl, sym, subst, inl, inr, Bool, true, false, List, [], ◌∷◌,
  ◌++◌, none, arith, if◌then◌else◌, Bool-cases, length, length-append,
}
use zelto_os.Text.{Bytes, codes}
use zelto_os.Zsysd.Wire.{show}
use zelto_os.Zsysd.Grants.{Status, granted, denied, prompt}
use zelto_os.Net.Io.{Write, Poll, End, done, blocked, broken, send_all-le}
use zelto_os.Net.Response.{no_response}
use zelto_os.Net.Request.{
  Request, perm_wait, connecting, sending, receiving, Flight, going, over, crlf, head_max, add_head,
  add_length, request_head, build_request, Connect, refused, opened, start_connect, Net, begin,
  net_perm_cb, net_advance, net_run, gate, after_send, after_recv, send_more, advance_in, NetState,
}

-- The fields fit the buffers of the struct.
pub record Bounded (r : Request) : Type 0 where
  pub method_fits : length r.http_method ≤ 7
  pub host_fits : length r.host ≤ 127
  pub path_fits : length r.path ≤ 511
  pub hdrs_fits : length r.hdrs ≤ 1023

abbrev pub content_length : Bytes → Bytes
content_length [] = []
content_length (c ∷ s) = codes "Content-Length: " ++ (show (length (c ∷ s)) ++ crlf)

length-request_head :
    (r : Request)
    → length (request_head r)
      ≡ length r.http_method + (length r.path + (length r.host + (length r.hdrs + 39)))
length-request_head r =
    let tail_4 = codes "Connection: close" ++ crlf in
    let tail_3 = crlf ++ (r.hdrs ++ tail_4) in
    let tail_2 = codes " HTTP/1.1" ++ (crlf ++ (codes "Host: " ++ (r.host ++ tail_3))) in
    omega (
      arith,
      length-append r.http_method (codes " " ++ (r.path ++ tail_2)),
      length-append r.path tail_2,
      length-append r.host tail_3,
      length-append r.hdrs tail_4,
    )

add_head-fits : (head t : Bytes) → length head + length t < head_max → add_head head t ≡ head ++ t
add_head-fits head t h = ground arith

length-content_length :
    (body : Bytes) → length (show (length body)) ≤ 20 → length (content_length body) ≤ 38
length-content_length [] h = omega arith
length-content_length (c ∷ s) h = omega (arith, length-append (show (length (c ∷ s))) crlf)

add_length-fits :
    (head body : Bytes)
    → length head ≤ 2000
    → length (show (length body)) ≤ 20
    → add_length head body ≡ head ++ content_length body
add_length-fits head [] h k = sym (append-nil head)
add_length-fits head (c ∷ s) h k =
    add_head-fits head (content_length (c ∷ s)) (omega (arith, length-content_length (c ∷ s) k))

-- The head buffer is large enough: with the fields in their buffers and a body whose length has at most
-- 20 digits, the bytes to send are the request line, the headers, the length of a body that is there,
-- the blank line and the body.
pub build_request_lem :
    (r : Request)
    → Bounded r
    → length (show (length r.body)) ≤ 20
    → (build_request r).sendbuf ≡ (request_head r ++ content_length r.body) ++ (crlf ++ r.body)
unfolding build_request
build_request_lem r b h =
    let head = request_head r in
    let n = length-request_head r in
    rw
      (
        add_head-fits [] head
            (omega (arith, n, b.method_fits, b.path_fits, b.host_fits, b.hdrs_fits)),
        add_length-fits head r.body
            (omega (arith, n, b.method_fits, b.path_fits, b.host_fits, b.hdrs_fits)) h,
        add_head-fits (head ++ content_length r.body) crlf (
            omega (
              arith,
              n,
              b.method_fits,
              b.path_fits,
              b.host_fits,
              b.hdrs_fits,
              length-append head (content_length r.body),
              length-content_length r.body h,
            )),
      )
      (append_assoc (head ++ content_length r.body) crlf r.body)

-- A request that z_net_send leaves in flight: with a descriptor it was sent with airplane mode off and the
-- permission granted, with none it waits for the user.
sent :
    (a : Bool) (st : Status) (c : Connect) (r r' : Request)
    → r.fd ≡ none
    → (if a then over no_response else gate st c r) ≡ going r'
    → (a ≡ false) × (((st ≡ granted) × (r'.fd ≢ none)) ⊎ ((st ≡ prompt) × (r'.fd ≡ none)))
unfolding start_connect
sent true st c r r' n h = cc
sent false granted refused r r' n h = cc
sent false granted (opened fd p) r r' n h = (refl, inl (refl, λ e. cc))
sent false denied c r r' n h = cc
sent false prompt c r r' n h = (refl, inr (refl, ground (arith, n, h)))

allowed :
    (st : Status) (c : Connect) (r r' : Request) → net_perm_cb st c r ≡ going r' → st ≡ granted
unfolding net_perm_cb
allowed granted c r r' h = refl
allowed denied c r r' h = cc
allowed prompt c r r' h = cc

-- z_net_send opens no connection in airplane mode or without the network permission: a request that is
-- sent with no descriptor and then has one was sent with airplane mode off and the permission
-- granted. One that is in flight with none was sent with airplane mode off and the permission not
-- decided, and stays in flight after the user's answer only if that is granted.
pub begin-granted :
    (net : Net) (st : Status) (c : Connect) (r r' : Request)
    → r.fd ≡ none
    → begin net r ≡ going r'
    → (net.airplane ≡ false)
      × ((r'.fd ≢ none → net.permission ≡ granted)
          × (r'.fd ≡ none
              → (net.permission ≡ prompt)
                × ((r'' : Request) → net_perm_cb st c r' ≡ going r'' → st ≡ granted)))
unfolding begin
begin-granted net st c r r' n e =
    let (off, cases) = sent net.airplane net.permission net.connect r r' n e in
    elim cases [
      | inl (g, there) ↦ (off, (λ h. g, λ h. absurd (there h)))
      | inr (p, gone) ↦ (off, (λ h. absurd (h gone), λ h. (p, λ r'' h'. allowed st c r' r'' h')))
    ]

-- The offset is in the buffer, and at its end where the response is read.
pub record InFlight (r : Request) : Type 0 where
  pub off_le : r.send_off ≤ length r.sendbuf
  pub all_sent : r.state ≡ receiving → r.send_off ≡ length r.sendbuf

abbrev pub Flying : Flight → Type 0
Flying (going r) = InFlight r
Flying (over res) = Unit

after_send-Flying :
    (r : Request) (off : ℕ) (end : End)
    → off ≤ length r.sendbuf
    → (end ≡ done → off ≡ length r.sendbuf)
    → Flying (after_send r off end)
after_send-Flying r off done h k = record { off_le = h; all_sent = λ e. k refl }
after_send-Flying r off blocked h k = record { off_le = h; all_sent = λ e. cc }
after_send-Flying r off broken h k = tt

send_more-Flying : (ws : List Write) (r : Request) → InFlight r → Flying (send_more ws r)
send_more-Flying ws r i =
    let l = send_all-le (length r.sendbuf) r.send_off ws i.off_le in after_send-Flying r _ _ l.1 l.2

after_recv-Flying :
    (r : Request) (text : Bytes) (end : End) → InFlight r → Flying (after_recv r text end)
after_recv-Flying r text done i = tt
after_recv-Flying r text blocked i = record { off_le = i.off_le; all_sent = i.all_sent }
after_recv-Flying r text broken i = tt

advance_in-Flying :
    (st : NetState) (p : Poll) (r : Request) → InFlight r → Flying (advance_in st p r)
advance_in-Flying perm_wait p r i = i
advance_in-Flying connecting p r i = elim (Bool-cases p.so_error) [
  | inl e ↦ rw e tt
  | inr e ↦ rw e (send_more-Flying p.writes r i)
]
advance_in-Flying sending p r i = send_more-Flying p.writes r i
advance_in-Flying receiving p r i = after_recv-Flying r _ _ i

net_run-Flying : (f : Flight) (ps : List Poll) → Flying f → Flying (net_run f ps)
unfolding net_run net_advance
net_run-Flying f [] i = i
net_run-Flying (over res) (p ∷ ps) i = tt
net_run-Flying (going r) (p ∷ ps) i =
    net_run-Flying (net_advance p r) ps (advance_in-Flying r.state p r i)

start_connect-Flying : (c : Connect) (r : Request) → Flying (start_connect c r)
unfolding start_connect build_request
start_connect-Flying refused r = tt
start_connect-Flying (opened fd true) r = record { off_le = omega arith; all_sent = λ e. cc }
start_connect-Flying (opened fd false) r = record { off_le = omega arith; all_sent = λ e. cc }

-- Through every sequence of poll rounds from the connect on, a request in flight has written a part of
-- its bytes, and it waits for the response only when it has written them all.
pub net_run-InFlight :
    (c : Connect) (r r' : Request) (ps : List Poll)
    → net_run (start_connect c r) ps ≡ going r'
    → InFlight r'
net_run-InFlight c r r' ps e =
    subst Flying e (net_run-Flying (start_connect c r) ps (start_connect-Flying c r))
