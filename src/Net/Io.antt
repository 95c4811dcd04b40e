-- ===== src/Net/Io.antt =====
-- sdk/src/net.c, the loops over write and read of net_advance and ws_advance. The results of the
-- system calls of one poll round are given in order; after the last one every call would block.
use zelto_os.Prelude.{
  ℕ, zero, suc, ap, ◌+◌, ◌-◌, ◌≤◌, ◌≡◌, refl, Bool, List, [], ◌∷◌, ◌++◌, arith, if◌then◌else◌, ltb,
  take, drop,
}
use zelto_os.Text.{Bytes}

pub data Write : Type 0 where
  wrote : ℕ → Write
  write_blocks write_fails : Write

-- `read_fails` is also a buffer that cannot grow.
pub data Read : Type 0 where
  got : Bytes → Read
  closed_by_peer read_blocks read_fails : Read

-- What one round of the poll loop meets: the socket's pending error, then the calls' results.
pub record Poll : Type 0 where
  pub so_error : Bool
  pub writes : List Write
  pub reads : List Read

pub data End : Type 0 where
  done blocked broken : End

pub record Sent : Type 0 where
  pub off : ℕ
  pub end : End

-- write() takes at most what it is given.
abbrev pub advance_off : ℕ → ℕ → ℕ → ℕ
advance_off len off n = if ltb (len - off) n then len else off + n

-- while (send_off < send_len) { write … }
unfoldable pub send_all : ℕ → ℕ → List Write → Sent
send_all len off [] =
    if ltb off len then record { off = off; end = blocked } else record { off = off; end = done }
send_all len off (wrote n ∷ ws) =
    let rest = send_all len (advance_off len off n) ws in
    if ltb off len then rest else record { off = off; end = done }
send_all len off (write_blocks ∷ ws) =
    if ltb off len then record { off = off; end = blocked } else record { off = off; end = done }
send_all len off (write_fails ∷ ws) =
    if ltb off len then record { off = off; end = broken } else record { off = off; end = done }

-- What is written between two offsets.
abbrev pub written : Bytes → ℕ → ℕ → Bytes
written buf off off' = take (off' - off) (drop off buf)

pub record Received : Type 0 where
  pub bytes : Bytes
  pub end : End

-- for (;;) { read … }: `done` is the end of the stream.
unfoldable pub recv_all : List Read → Received
recv_all [] = record { bytes = []; end = blocked }
recv_all (got s ∷ rs) = let rest = recv_all rs in record { bytes = s ++ rest.bytes; end = rest.end }
recv_all (closed_by_peer ∷ rs) = record { bytes = []; end = done }
recv_all (read_blocks ∷ rs) = record { bytes = []; end = blocked }
recv_all (read_fails ∷ rs) = record { bytes = []; end = broken }

-- The offset moves forward, stays in the buffer, and is at its end when the loop is done.
pub send_all-le :
    (len off : ℕ) (ws : List Write)
    → off ≤ len
    → (off ≤ (send_all len off ws).off)
      × ((send_all len off ws).off ≤ len)
      × ((send_all len off ws).end ≡ done → (send_all len off ws).off ≡ len)
unfolding send_all
send_all-le len off [] h = ground arith
send_all-le len off (wrote n ∷ ws) h = ground (arith, send_all-le len (advance_off len off n) ws)
send_all-le len off (write_blocks ∷ ws) h = ground arith
send_all-le len off (write_fails ∷ ws) h = ground arith

zero_less : (n : ℕ) → n - 0 ≡ n
zero_less n = omega arith

less_suc : (m n : ℕ) → suc n - suc m ≡ n - m
less_suc m n = omega arith

take-nil : (n : ℕ) → take {A = ℕ} n [] ≡ []
take-nil zero = refl
take-nil (suc n) = refl

-- What is written from one offset to the next extends what was written up to the first.
pub take-written :
    (off off' : ℕ) (buf : Bytes) → off ≤ off' → take off buf ++ written buf off off' ≡ take off' buf
take-written zero off' buf h = rw (zero_less off') refl
take-written (suc off) zero buf h = absurd (omega arith)
take-written (suc off) (suc off') [] h = rw (less_suc off off') (take-nil (off' - off))
take-written (suc off) (suc off') (x ∷ buf) h =
    rw (less_suc off off') (ap (◌∷◌ x) (take-written off off' buf (omega arith)))
