-- ===== src/Net/Frames.antt =====
-- sdk/src/net.c, the frames of a WebSocket: ws_parse_frames and ws_write_frame. A byte is a number
-- below 256; `f & 0x0f` is f % 16, `f & 0x7f` is f % 128, and `x << 8` is x * 256.
use Prim.Native.Nat.{bit_xor}
use zelto_os.Prelude.{
  ℕ, zero, suc, ◌+◌, ◌*◌, ◌/◌, ◌%◌, Bool, true, false, ◌&&◌, List, [], ◌∷◌, ◌++◌, Option, none,
  some, if◌then◌else◌, ◌==◌, ltb, length, take, drop,
}
use zelto_os.Text.{Bytes}
pub mod Stream
pub mod Sent

pub record Frame : Type 0 where
  pub opcode : ℕ
  pub payload : Bytes

abbrev pub mask_len : ℕ → ℕ
mask_len f1 = if (f1 / 128) % 2 == 1 then 4 else 0

-- A frame whose header is read: it is there whole, or more bytes are needed.
abbrev pub cut_frame : ℕ → ℕ → ℕ → Bytes → Option (Frame × Bytes)
cut_frame f0 f1 plen s =
    if ltb (length s) (mask_len f1 + plen)
    then none
    else some (
      record { opcode = f0 % 16; payload = take plen (drop (mask_len f1) s) },
      drop (mask_len f1 + plen) s,
    )

-- The two bytes of a longer length.
abbrev pub long_frame : ℕ → ℕ → Bytes → Option (Frame × Bytes)
long_frame f0 f1 [] = none
long_frame f0 f1 (h ∷ []) = none
long_frame f0 f1 (h ∷ l ∷ s) = cut_frame f0 f1 (h * 256 + l) s

-- The first frame of a buffer and what stands behind it; none where the loop breaks off.
unfoldable pub frame_at : Bytes → Option (Frame × Bytes)
frame_at [] = none
frame_at (f0 ∷ []) = none
frame_at (f0 ∷ f1 ∷ s) =
    if f1 % 128 == 126
    then long_frame f0 f1 s
    else if f1 % 128 == 127
    then none
    else cut_frame f0 f1 (f1 % 128) s

-- What one pass over the buffer does: whether a close frame was read, the texts that the callback got,
-- and what stays in the buffer.
pub record Parsed : Type 0 where
  pub dead : Bool
  pub texts : List Bytes
  pub left : Bytes

abbrev pub stopped : Bytes → Parsed
stopped s = record { dead = false; texts = []; left = s }

abbrev pub taken : Bool → Frame → Bytes → Parsed → Parsed
taken has_cb f r rest =
    if f.opcode == 8
    then record { dead = true; texts = []; left = r }
    else if f.opcode == 1 && has_cb
    then record rest { texts = f.payload ∷ rest.texts }
    else rest

unfoldable pub parse_on : ℕ → Bool → Bytes → Parsed
unfolding frame_at
parse_on zero has_cb s = stopped s
parse_on (suc n) has_cb s = elim (frame_at s) [
  | some (f, r) ↦ taken has_cb f r (parse_on n has_cb r)
  | none ↦ stopped s
]

-- A frame has two bytes at least: as many rounds as bytes are enough.
unfoldable pub parse_frames : Bool → Bytes → Parsed
unfolding parse_on
parse_frames has_cb s = parse_on (length s) has_cb s

-- The mask that the client always uses, by the index's two lowest bits.
abbrev pub mask_byte : ℕ → ℕ
mask_byte i = if i == 0 then 0x12 else if i == 1 then 0x34 else if i == 2 then 0x56 else 0x78

unfoldable pub masked_from : ℕ → Bytes → Bytes
masked_from i [] = []
masked_from i (b ∷ s) = bit_xor b (mask_byte (i % 4)) ∷ masked_from (suc i) s

abbrev pub length_bytes : ℕ → Bytes
length_bytes n = if ltb n 126 then (128 + n) ∷ [] else (128 + 126) ∷ (n / 256) % 256 ∷ n % 256 ∷ []

-- The bytes that ws_write_frame writes for an opcode below 128, header first.
unfoldable pub frame_bytes : ℕ → Bytes → Bytes
unfolding masked_from
frame_bytes opcode text =
    (128 + opcode) ∷ (length_bytes (length text) ++ 0x12 ∷ 0x34 ∷ 0x56 ∷ 0x78 ∷ masked_from 0 text)

-- Nothing is written to a socket that has no descriptor.
unfoldable pub ws_write_frame : Option ℕ → ℕ → Bytes → Bytes
unfolding frame_bytes
ws_write_frame none opcode text = []
ws_write_frame (some fd) opcode text = frame_bytes opcode text
