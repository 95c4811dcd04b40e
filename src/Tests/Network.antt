-- ===== src/Tests/Network.antt =====
-- The network client: a URL, a request with its response, and a WebSocket.
use zelto_os.Prelude.{◌≡◌, ◌≢◌, refl, true, false, List, [], ◌∷◌, ◌++◌, none, some, arith, take}
use zelto_os.Text.{Bytes, codes, clip}
use zelto_os.Zsysd.Wire.{atoll}
use zelto_os.Zsysd.Grants.{granted, denied, prompt}
use zelto_os.Net.Ready.{Tables}
use zelto_os.Net.Url.{Url, IsHost}
use zelto_os.Net.Io.{Poll, wrote, write_blocks, got, read_blocks}
use zelto_os.Net.Frames.{parse_frames, frame_bytes}
use zelto_os.Net.Frames.Stream.{parse_frames-append}
use zelto_os.Net.Frames.Sent.{receive_frame, announced, receive_frame-frame_bytes}
use zelto_os.Net.Response.{crlf2}
use zelto_os.Net.Request.{
  Request, sending, receiving, going, crlf, request_head, build_request, opened, refused,
  start_connect, Net, begin, net_perm_cb, net_run,
}
use zelto_os.Net.Request.Wire.{
  Bounded, content_length, build_request_lem, begin-granted, InFlight, net_run-InFlight,
}
use zelto_os.Net.Socket.{Socket, ws_hs, new_socket, handshake, z_ws_open, ws_run}
use zelto_os.Net.Socket.Handshake.{ws_run-handshake, z_ws_open_silent}

abbrev host_text : Bytes
host_text = codes "10.0.2.2"

host_text-IsHost : IsHost 128 host_text
host_text-IsHost = record {
  ne_nil = omega arith;
  fits = omega arith;
  no_slash = (refl, (refl, (refl, (refl, (refl, (refl, (refl, (refl, tt))))))));
  no_colon = (refl, (refl, (refl, (refl, (refl, (refl, (refl, (refl, tt))))))));
}

-- A text frame "hi", in two reads.
parse_frames-append_example :
    let p = parse_frames true (129 ∷ 2 ∷ 104 ∷ []) in
    let q = parse_frames true (p.left ++ 105 ∷ []) in
    ((parse_frames true (129 ∷ 2 ∷ 104 ∷ 105 ∷ [])).texts ≡ p.texts ++ q.texts)
    × ((parse_frames true (129 ∷ 2 ∷ 104 ∷ 105 ∷ [])).left ≡ q.left)
    × ((parse_frames true (129 ∷ 2 ∷ 104 ∷ 105 ∷ [])).dead ≡ q.dead)
parse_frames-append_example =
    parse_frames-append true (129 ∷ 2 ∷ 104 ∷ []) (105 ∷ []) (unfold parse_frames in refl)

receive_frame-frame_bytes_example :
    receive_frame (frame_bytes 1 (codes "hi"))
    ≡ some (record { opcode = 1; payload = take (announced 2) (codes "hi") })
receive_frame-frame_bytes_example =
    receive_frame-frame_bytes 1 (codes "hi") (omega arith) (omega arith, (omega arith, tt))

abbrev answer : Bytes
answer = codes "HTTP/1.1 200 OK" ++ (crlf2 ++ codes "hi")

abbrev asked_for : Request
asked_for = record {
  http_method = codes "POST";
  host = host_text;
  port = some 80;
  path = codes "/x";
  hdrs = [];
  body = codes "abc";
  fd = none;
  state = sending;
  sendbuf = [];
  send_off = 0;
  rbuf = [];
}

asked_for-Bounded : Bounded asked_for
asked_for-Bounded = record {
  method_fits = omega arith;
  host_fits = omega arith;
  path_fits = omega arith;
  hdrs_fits = omega arith;
}

build_request_lem_example :
    (build_request asked_for).sendbuf
    ≡ (request_head asked_for ++ content_length asked_for.body) ++ (crlf ++ asked_for.body)
unfolding zelto_os.Zsysd.Wire.show
build_request_lem_example = build_request_lem asked_for asked_for-Bounded (omega arith)

abbrev online : Net
online = record { airplane = false; permission = granted; connect = opened 7 false }

abbrev opened_request : Request
opened_request = record (build_request asked_for) { fd = some 7; state = sending }

begin-granted_example :
    (online.airplane ≡ false)
    × ((opened_request.fd ≢ none → online.permission ≡ granted)
        × (opened_request.fd ≡ none
            → (online.permission ≡ prompt)
              × ((r'' : Request)
                  → net_perm_cb denied refused opened_request ≡ going r''
                  → denied ≡ granted)))
begin-granted_example =
    begin-granted online denied refused asked_for opened_request refl (unfold begin in refl)

-- A round in which the socket takes ten bytes.
abbrev ten : Poll
ten = record { so_error = false; writes = wrote 10 ∷ write_blocks ∷ []; reads = [] }

abbrev partly_sent : Request
partly_sent = record opened_request { send_off = 10 }

net_run-InFlight_example : InFlight partly_sent
unfolding net_run build_request start_connect
net_run-InFlight_example = net_run-InFlight (opened 7 false) asked_for partly_sent (ten ∷ []) refl

abbrev awaiting : Request
awaiting = record asked_for { state = receiving }

abbrev pieces : List (List Bytes)
pieces = (codes "HTTP/1.1 2" ∷ codes "00 OK" ∷ []) ∷ (crlf2 ∷ []) ∷ (codes "hi" ∷ []) ∷ []

abbrev ws_url : Url
ws_url = record { host = host_text; port = some 80; path = codes "/" }

-- Everything is written, and the server switches protocols.
abbrev agreed : List Poll
agreed =
    record { so_error = false; writes = wrote 50 ∷ wrote 1000 ∷ []; reads = [] }
    ∷ record {
      so_error = false;
      writes = [];
      reads = got (codes "HTTP/1.1 101 OK" ++ crlf2) ∷ read_blocks ∷ [];
    }
    ∷ []

ws_run-handshake_example : (ws_run (new_socket ws_url 7 true) agreed).wire ≡ handshake ws_url
unfolding ws_run zelto_os.Text.eqb
ws_run-handshake_example = ws_run-handshake ws_url 7 agreed refl

abbrev at_once : Socket
at_once = new_socket ws_url 7 false

z_ws_open_silent_example : (at_once.state ≡ ws_hs) × ((ws_run at_once agreed).wire ≡ [])
unfolding z_ws_open
z_ws_open_silent_example =
    z_ws_open_silent online (none ∷ []) (codes "ws://10.0.2.2/") at_once 7 agreed refl refl

-- A request and a socket, and room for one entry.
abbrev both : Tables
both = record { active = some partly_sent ∷ none ∷ []; ws = some at_once ∷ [] }
