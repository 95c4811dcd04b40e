-- ===== src/Net/Socket/Handshake.antt =====
-- sdk/src/net.c: what a WebSocket writes before it is open.
use mathlib.Core.List.{append_assoc, append-nil}
use zelto_os.Prelude.{
  ℕ, ◌≤◌, ◌≡◌, refl, sym, ap, subst, ◌∙◌, ◌≢◌, inl, inr, Bool, true, false, List, [], ◌∷◌, ◌++◌,
  Option, none, some, arith, ◌||◌, if◌then◌else◌, Bool-cases, length, take, take-eq_self,
}
use zelto_os.Text.{Bytes, codes}
use zelto_os.Prelude.Slots.{any}
use zelto_os.Zsysd.Wire.{bind}
use zelto_os.Net.Url.{Url, parse_url}
use zelto_os.Net.Io.{Write, Poll, End, done, blocked, broken, send_all, send_all-le, take-written}
use zelto_os.Net.Response.{crlf2}
use zelto_os.Net.Request.{Net, Connect, opened}
use zelto_os.Net.Frames.{parse_frames}
use zelto_os.Net.Socket.{
  Socket, WsState, ws_connect, ws_hs, ws_open, ws_dead, Turn, quiet, handshake, new_socket,
  z_ws_open, after_write, write_on, read_frames, mem_find, switches, shake, read_in, after_read,
  ws_advance_in, ws_advance, is_dead, ws_run, connected, is_denied, is_vacant,
}

-- What a round keeps: the handshake, and that what is written is the handshake's next part; it is
-- written whole where the socket waits for the answer or is open.
record Keeps (w : Socket) (t : Turn) : Type 0 where
  buf_same : t.socket.sendbuf ≡ w.sendbuf
  off_le : t.socket.send_off ≤ length w.sendbuf
  wire_is : take w.send_off w.sendbuf ++ t.wire ≡ take t.socket.send_off w.sendbuf

record Shaking (w : Socket) : Type 0 where
  off_le : w.send_off ≤ length w.sendbuf
  whole : w.state ≢ ws_connect → is_dead w.state ≡ false → w.send_off ≡ length w.sendbuf

-- A round that writes nothing and leaves the offset.
record Reads (w : Socket) (t : Turn) : Type 0 where
  buf_same : t.socket.sendbuf ≡ w.sendbuf
  off_same : t.socket.send_off ≡ w.send_off
  wire_nil : t.wire ≡ []
  not_connect : t.socket.state ≢ ws_connect

read_frames-Reads : (w : Socket) → w.state ≢ ws_connect → Reads w (read_frames w)
read_frames-Reads w h = elim (Bool-cases (parse_frames w.has_cb w.ibuf).dead) [
  | inl e ↦ record {
    buf_same = refl;
    off_same = refl;
    wire_nil = refl;
    not_connect = rw e (λ k. cc);
  }
  | inr e ↦ record { buf_same = refl; off_same = refl; wire_nil = refl; not_connect = rw e h }
]

dead-Reads :
    (w : Socket) (text : Bytes) → Reads w (quiet (record w { ibuf = text; state = ws_dead }))
dead-Reads w text = record {
  buf_same = refl;
  off_same = refl;
  wire_nil = refl;
  not_connect = λ k. cc;
}

shake-Reads : (w : Socket) (o : Option Bytes) → w.state ≡ ws_hs → Reads w (shake w o)
shake-Reads w none h = record {
  buf_same = refl;
  off_same = refl;
  wire_nil = refl;
  not_connect = λ k. ground (arith, h, k);
}
shake-Reads w (some rest) h = elim (Bool-cases (switches w.ibuf)) [
  | inl e ↦
      let r = read_frames-Reads (record w { ibuf = rest; state = ws_open }) (λ k. cc) in
      rw e (record {
        buf_same = r.buf_same;
        off_same = r.off_same;
        wire_nil = r.wire_nil;
        not_connect = r.not_connect;
      })
  | inr e ↦
      rw e (record { buf_same = refl; off_same = refl; wire_nil = refl; not_connect = λ k. cc })
]

read_in-Reads :
    (st : WsState) (w : Socket) → w.state ≡ st → st ≢ ws_connect → Reads w (read_in st w)
read_in-Reads ws_connect w e h = absurd (h refl)
read_in-Reads ws_hs w e h = shake-Reads w (mem_find crlf2 w.ibuf) e
read_in-Reads ws_open w e h = read_frames-Reads w (λ k. h (sym e ∙ k))
read_in-Reads ws_dead w e h = read_frames-Reads w (λ k. h (sym e ∙ k))

after_read-Reads :
    (w : Socket) (text : Bytes) (end : End) → w.state ≢ ws_connect → Reads w (after_read w text end)
after_read-Reads w text blocked h =
    let r = read_in-Reads w.state (record w { ibuf = text }) refl h in
    record {
      buf_same = r.buf_same;
      off_same = r.off_same;
      wire_nil = r.wire_nil;
      not_connect = r.not_connect;
    }
after_read-Reads w text done h = dead-Reads w text
after_read-Reads w text broken h = dead-Reads w text

advance_in-Reads :
    (st : WsState) (p : Poll) (w : Socket)
    → w.state ≡ st
    → st ≢ ws_connect
    → Reads w (ws_advance_in st p w)
advance_in-Reads ws_connect p w e h = absurd (h refl)
advance_in-Reads ws_hs p w e h = after_read-Reads w _ _ (λ k. h (sym e ∙ k))
advance_in-Reads ws_open p w e h = after_read-Reads w _ _ (λ k. h (sym e ∙ k))
advance_in-Reads ws_dead p w e h = after_read-Reads w _ _ (λ k. h (sym e ∙ k))

-- A socket that is not connecting writes nothing, in any number of rounds.
ws_run-quiet : (w : Socket) (ps : List Poll) → w.state ≢ ws_connect → (ws_run w ps).wire ≡ []
unfolding ws_run ws_advance
ws_run-quiet w [] h = refl
ws_run-quiet w (p ∷ ps) h =
    let r = advance_in-Reads w.state p w refl h in
    elim (Bool-cases (is_dead w.state)) [
      | inl e ↦ rw e refl
      | inr e ↦
          rw (e, r.wire_nil) (ws_run-quiet (ws_advance_in w.state p w).socket ps r.not_connect)
    ]

connected-state :
    (u : Url) (fd : ℕ) {w : Socket} → connected u (opened fd false) ≡ some w → w.state ≡ ws_hs
connected-state u fd e = ground (arith, e)

-- Where the connect completes at once, the socket starts by waiting for the answer to a handshake that
-- it has not sent, and no poll round ever sends it.
pub z_ws_open_silent :
    (net : Net) (tbl : List (Option Socket)) (url : Bytes) (w : Socket) (fd : ℕ) (ps : List Poll)
    → net.connect ≡ opened fd false
    → z_ws_open net tbl url ≡ some w
    → (w.state ≡ ws_hs) × ((ws_run w ps).wire ≡ [])
unfolding z_ws_open
z_ws_open_silent net tbl url w fd ps c e =
    let h =
      opened_state (net.airplane || is_denied net.permission)
        (parse_url url (codes "ws://") 80 128 512) (any is_vacant tbl) net.connect c e in
    (h, ws_run-quiet w ps (λ k. ws_hs-ne (sym h ∙ k)))
  where
    ws_hs-ne : ws_hs ≢ ws_connect
    ws_hs-ne k = cc

    opened_state :
        (off : Bool) (o : Option Url) (room : Bool) (c : Connect)
        → c ≡ opened fd false
        → (if off then none else bind o (λ u. if room then connected u c else none)) ≡ some w
        → w.state ≡ ws_hs
    opened_state true o room c e f = cc
    opened_state false none room c e f = cc
    opened_state false (some u) false c e f = cc
    opened_state false (some u) true c e f = connected-state u fd (ap (connected u) (sym e) ∙ f)

write_on-Keeps :
    (ws : List Write) (w : Socket)
    → w.state ≡ ws_connect
    → Shaking w
    → Keeps w (write_on ws w) × Shaking (write_on ws w).socket
write_on-Keeps ws w at s =
    let l = send_all-le (length w.sendbuf) w.send_off ws s.off_le in
    let r = send_all (length w.sendbuf) w.send_off ws in ends r.off r.end l.0 l.1 l.2
  where
    ends :
        (off : ℕ) (end : End)
        → w.send_off ≤ off
        → off ≤ length w.sendbuf
        → (end ≡ done → off ≡ length w.sendbuf)
        → Keeps w (after_write w off end) × Shaking (after_write w off end).socket
    ends off done h k l = (
      record { buf_same = refl; off_le = k; wire_is = take-written w.send_off off w.sendbuf h },
      record { off_le = k; whole = λ c d. l refl },
    )
    ends off blocked h k l = (
      record { buf_same = refl; off_le = k; wire_is = take-written w.send_off off w.sendbuf h },
      record { off_le = k; whole = λ c d. absurd (c at) },
    )
    ends off broken h k l = (
      record { buf_same = refl; off_le = k; wire_is = take-written w.send_off off w.sendbuf h },
      record { off_le = k; whole = λ c d. cc },
    )

Reads-Keeps :
    (w : Socket) (t : Turn)
    → Reads w t
    → w.send_off ≡ length w.sendbuf
    → Keeps w t × Shaking t.socket
Reads-Keeps w t r h = (
  record {
    buf_same = r.buf_same;
    off_le = omega (arith, r.off_same, h);
    wire_is = rw (r.wire_nil, r.off_same) (append-nil (take w.send_off w.sendbuf));
  },
  record {
    off_le = rw (r.buf_same, r.off_same) (omega (arith, h));
    whole = λ c d. rw (r.buf_same, r.off_same) h;
  },
)

advance_in-Keeps :
    (st : WsState) (p : Poll) (w : Socket)
    → w.state ≡ st
    → is_dead st ≡ false
    → Shaking w
    → Keeps w (ws_advance_in st p w) × Shaking (ws_advance_in st p w).socket
advance_in-Keeps ws_connect p w e d s = elim (Bool-cases p.so_error) [
  | inl f ↦ rw f (
    record { buf_same = refl; off_le = s.off_le; wire_is = append-nil (take w.send_off w.sendbuf) },
    record { off_le = s.off_le; whole = λ c d. cc },
  )
  | inr f ↦ rw f (write_on-Keeps p.writes w e s)
]
advance_in-Keeps ws_dead p w e d s = cc
advance_in-Keeps ws_hs p w e d s =
    Reads-Keeps w _ (advance_in-Reads ws_hs p w e (λ k. cc))
      (s.whole (λ k. ground (arith, e, k)) (ap is_dead e ∙ d))
advance_in-Keeps ws_open p w e d s =
    Reads-Keeps w _ (advance_in-Reads ws_open p w e (λ k. cc))
      (s.whole (λ k. ground (arith, e, k)) (ap is_dead e ∙ d))

then-Keeps :
    (w : Socket) (t rest : Turn) (texts : List Bytes)
    → Keeps w t
    → Keeps t.socket rest
    → Keeps w (record { socket = rest.socket; wire = t.wire ++ rest.wire; texts = texts })
then-Keeps w t rest texts k l = record {
  buf_same = l.buf_same ∙ k.buf_same;
  off_le = subst (λ b. rest.socket.send_off ≤ length b) k.buf_same l.off_le;
  wire_is =
      sym (append_assoc (take w.send_off w.sendbuf) t.wire rest.wire)
      ∙ (ap (λ s. s ++ rest.wire) k.wire_is
          ∙ subst (λ b. take t.socket.send_off b ++ rest.wire ≡ take rest.socket.send_off b)
              k.buf_same l.wire_is);
}

ws_run-Keeps :
    (w : Socket) (ps : List Poll) → Shaking w → Keeps w (ws_run w ps) × Shaking (ws_run w ps).socket
unfolding ws_run ws_advance
ws_run-Keeps w [] s = (
  record { buf_same = refl; off_le = s.off_le; wire_is = append-nil (take w.send_off w.sendbuf) },
  s,
)
ws_run-Keeps w (p ∷ ps) s = elim (Bool-cases (is_dead w.state)) [
  | inl e ↦ rw e (
    record { buf_same = refl; off_le = s.off_le; wire_is = append-nil (take w.send_off w.sendbuf) },
    s,
  )
  | inr e ↦
      let t = ws_advance_in w.state p w in
      let a = advance_in-Keeps w.state p w refl e s in
      let r = ws_run-Keeps t.socket ps a.1 in
      rw e (then-Keeps w t (ws_run t.socket ps) _ a.0 r.0, r.1)
]

-- A socket whose connect was in progress is open only after the whole handshake was written, in order
-- and once, in whatever parts the writes took it.
pub ws_run-handshake :
    (u : Url) (fd : ℕ) (ps : List Poll)
    → (ws_run (new_socket u fd true) ps).socket.state ≡ ws_open
    → (ws_run (new_socket u fd true) ps).wire ≡ handshake u
ws_run-handshake u fd ps e =
    let w = new_socket u fd true in
    let r = ws_run-Keeps w ps (record { off_le = omega arith; whole = λ c d. absurd (c refl) }) in
    let o = r.1.whole (λ k. ground (arith, e, k)) (ap is_dead e) in
    r.0.wire_is
    ∙ take-eq_self (ws_run w ps).socket.send_off (handshake u)
        (omega (arith, o, ap length r.0.buf_same))
