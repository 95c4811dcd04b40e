-- ===== src/Net/Socket.antt =====
-- sdk/src/net.c, the life of a WebSocket: z_ws_open, ws_advance, z_ws_send and z_ws_close. A socket is
-- its struct; its round gives the struct after it, the bytes written and the texts delivered.
use zelto_os.Prelude.{
  ℕ, ◌+◌, ◌-◌, ◌≤◌, ◌≡◌, refl, Bool, true, false, not, ◌&&◌, ◌||◌, List, [], ◌∷◌, ◌++◌, Option,
  none, some, if◌then◌else◌, ◌==◌, ltb, length, take,
}
use zelto_os.Prelude.Slots.{any, modify_first}
use zelto_os.Text.{Bytes, codes, eqb, strip_prefix}
use zelto_os.Zsysd.Wire.{bind}
use zelto_os.Zsysd.Grants.{Status, granted, denied, prompt}
use zelto_os.Net.Url.{Url, parse_url}
use zelto_os.Net.Io.{
  Write, Read, Poll, Sent, End, done, blocked, broken, send_all, recv_all, Received, written,
}
use zelto_os.Net.Response.{crlf2}
use zelto_os.Net.Request.{Net, Connect, refused, opened}
use zelto_os.Net.Frames.{Parsed, parse_frames, ws_write_frame}
pub mod Handshake

pub data WsState : Type 0 where
  ws_connect ws_hs ws_open ws_dead : WsState

pub record Socket : Type 0 where
  pub host : Bytes
  pub port : Option ℕ
  pub path : Bytes
  pub fd : Option ℕ
  pub state : WsState
  pub sendbuf : Bytes
  pub send_off : ℕ
  pub ibuf : Bytes
  pub has_cb : Bool

-- The socket after a round, the bytes written, and the texts that the callback got.
pub record Turn : Type 0 where
  pub socket : Socket
  pub wire : Bytes
  pub texts : List Bytes

abbrev pub crlf : Bytes
crlf = 13 ∷ 10 ∷ []

abbrev pub handshake : Url → Bytes
handshake u =
    codes "GET "
    ++ (u.path
        ++ (codes " HTTP/1.1"
            ++ (crlf
                ++ (codes "Host: "
                    ++ (u.host
                        ++ (crlf
                            ++ (codes "Upgrade: websocket"
                                ++ (crlf
                                    ++ (codes "Connection: Upgrade"
                                        ++ (crlf
                                            ++ (codes "Sec-WebSocket-Key: dGhlIHNhbXBsZSBub25jZQ=="
                                                ++ (crlf
                                                    ++ (codes "Sec-WebSocket-Version: 13"
                                                        ++ crlf2)))))))))))))

abbrev pub new_socket : Url → ℕ → Bool → Socket
new_socket u fd in_progress = record {
  host = u.host;
  port = u.port;
  path = u.path;
  fd = some fd;
  state = if in_progress then ws_connect else ws_hs;
  sendbuf = handshake u;
  send_off = 0;
  ibuf = [];
  has_cb = false;
}

abbrev pub is_denied : Status → Bool
is_denied denied = true
is_denied granted = false
is_denied prompt = false

-- A handshake that does not fit its buffer closes the socket again.
abbrev pub connected : Url → Connect → Option Socket
connected u refused = none
connected u (opened fd in_progress) =
    if ltb (length (handshake u)) 1024 then some (new_socket u fd in_progress) else none

abbrev pub is_vacant : Option Socket → Bool
is_vacant none = true
is_vacant (some w) = false

-- z_ws_open, but for its place in the table g_ws, of which it needs one.
unfoldable pub z_ws_open : Net → List (Option Socket) → Bytes → Option Socket
unfolding parse_url
z_ws_open net tbl url =
    if net.airplane || is_denied net.permission
    then none
    else bind (parse_url url (codes "ws://") 80 128 512)
        λ u. if any is_vacant tbl then connected u net.connect else none

abbrev pub quiet : Socket → Turn
quiet w = record { socket = w; wire = []; texts = [] }

-- WS_CONNECT: write the handshake on.
abbrev pub after_write : Socket → ℕ → End → Turn
after_write w off done = record {
  socket = record w { send_off = off; state = ws_hs };
  wire = written w.sendbuf w.send_off off;
  texts = [];
}
after_write w off blocked = record {
  socket = record w { send_off = off };
  wire = written w.sendbuf w.send_off off;
  texts = [];
}
after_write w off broken = record {
  socket = record w { send_off = off; state = ws_dead };
  wire = written w.sendbuf w.send_off off;
  texts = [];
}

abbrev pub write_on : List Write → Socket → Turn
write_on ws w = let s = send_all (length w.sendbuf) w.send_off ws in after_write w s.off s.end

-- ws_parse_frames over the bytes buffered.
abbrev pub read_frames : Socket → Turn
read_frames w =
    let p = parse_frames w.has_cb w.ibuf in
    record {
      socket = record w { ibuf = p.left; state = if p.dead then ws_dead else w.state };
      wire = [];
      texts = p.texts;
    }

-- mem_find: what stands behind the first occurrence.
unfoldable pub mem_find : Bytes → Bytes → Option Bytes
unfolding strip_prefix
mem_find pat [] = none
mem_find pat (c ∷ s) = elim (strip_prefix pat (c ∷ s)) [
  | some rest ↦ some rest
  | none ↦ mem_find pat s
]

abbrev pub switches : Bytes → Bool
switches s = eqb (take 12 s) (codes "HTTP/1.1 101")

-- The answer to the handshake: only 101 opens the socket, and the frames behind it are read at once.
abbrev pub shake : Socket → Option Bytes → Turn
shake w none = quiet w
shake w (some rest) =
    if switches w.ibuf
    then read_frames (record w { ibuf = rest; state = ws_open })
    else quiet (record w { ibuf = rest; state = ws_dead })

abbrev pub read_in : WsState → Socket → Turn
read_in ws_hs w = shake w (mem_find crlf2 w.ibuf)
read_in ws_connect w = read_frames w
read_in ws_open w = read_frames w
read_in ws_dead w = read_frames w

abbrev pub after_read : Socket → Bytes → End → Turn
after_read w text blocked = read_in w.state (record w { ibuf = text })
after_read w text done = quiet (record w { ibuf = text; state = ws_dead })
after_read w text broken = quiet (record w { ibuf = text; state = ws_dead })

abbrev pub read_on : List Read → Socket → Turn
read_on rs w = let g = recv_all rs in after_read w (w.ibuf ++ g.bytes) g.end

abbrev pub ws_advance_in : WsState → Poll → Socket → Turn
ws_advance_in ws_connect p w =
    if p.so_error then quiet (record w { state = ws_dead }) else write_on p.writes w
ws_advance_in ws_hs p w = read_on p.reads w
ws_advance_in ws_open p w = read_on p.reads w
ws_advance_in ws_dead p w = read_on p.reads w

unfoldable pub ws_advance : Poll → Socket → Turn
unfolding send_all recv_all parse_frames mem_find
ws_advance p w = ws_advance_in w.state p w

-- Poll rounds one after the other. A socket that is dead is taken out of the table.
abbrev pub is_dead : WsState → Bool
is_dead ws_dead = true
is_dead ws_connect = false
is_dead ws_hs = false
is_dead ws_open = false

unfoldable pub ws_run : Socket → List Poll → Turn
unfolding ws_advance
ws_run w [] = quiet w
ws_run w (p ∷ ps) =
    let t = ws_advance p w in
    let rest = ws_run t.socket ps in
    if is_dead w.state
    then quiet w
    else record { socket = rest.socket; wire = t.wire ++ rest.wire; texts = t.texts ++ rest.texts }

-- z_ws_send writes a text frame on an open socket, z_ws_close a close frame.
abbrev pub when_open : WsState → Bytes → Bytes
when_open ws_open s = s
when_open ws_connect s = []
when_open ws_hs s = []
when_open ws_dead s = []

unfoldable pub z_ws_send : Socket → Bytes → Bytes
unfolding ws_write_frame
z_ws_send w text = when_open w.state (ws_write_frame w.fd 1 text)

pub z_ws_close : Socket → Bytes
unfolding ws_write_frame
z_ws_close w = when_open w.state (ws_write_frame w.fd 8 [])
