-- ===== src/Net/Frames/Sent.antt =====
-- The frames that the client writes, and a receiver of masked frames after RFC 6455.
use Prim.Native.Nat.{bit_xor}
use zelto_os.Prelude.{
  ℕ, zero, suc, ◌+◌, ◌*◌, ◌/◌, ◌%◌, ◌≤◌, ◌<◌, ◌≡◌, refl, sym, ap, ap₂, ◌∙◌, inl, inr, Bool, true,
  false, ◌&&◌, [], ◌∷◌, Option, none, some, arith, if◌then◌else◌, ◌==◌, Bool-cases, ltb, length,
  take, All,
}
use zelto_os.Text.{Bytes}
use zelto_os.Net.Frames.{Frame, mask_byte, masked_from, frame_bytes}

-- A receiver of masked frames: each byte of the payload is combined with the byte of the mask at its
-- index modulo 4, which m0 to m3 take turns to stand at.
pub unmask : ℕ → ℕ → ℕ → ℕ → Bytes → Bytes
unmask m0 m1 m2 m3 [] = []
unmask m0 m1 m2 m3 (b ∷ s) = bit_xor b m0 ∷ unmask m1 m2 m3 m0 s

-- The length is in the second byte below 126, and in two more bytes at 126.
abbrev pub read_masked : ℕ → ℕ → Bytes → Option Frame
read_masked f0 n (m0 ∷ m1 ∷ m2 ∷ m3 ∷ s) =
    if ltb (length s) n
    then none
    else some (record { opcode = f0 % 16; payload = unmask m0 m1 m2 m3 (take n s) })
read_masked f0 n _ = none

abbrev pub read_long : ℕ → Bytes → Option Frame
read_long f0 (h ∷ l ∷ s) = read_masked f0 (h * 256 + l) s
read_long f0 _ = none

abbrev pub read_header : ℕ → ℕ → Bytes → Option Frame
read_header f0 f1 s =
    if f1 % 128 == 126
    then read_long f0 s
    else if f1 % 128 == 127
    then none
    else read_masked f0 (f1 % 128) s

-- A server fails the connection on a frame that is not masked. A frame that is not the last of its
-- message, or that has a reserved bit set, is not taken either.
pub receive_frame : Bytes → Option Frame
receive_frame (f0 ∷ f1 ∷ s) = if f0 / 16 == 8 && f1 / 128 == 1 then read_header f0 f1 s else none
receive_frame _ = none

all_below : ℕ → (ℕ → Bool) → Bool
all_below zero p = true
all_below (suc n) p = p n && all_below n p

all_below-lem : (n : ℕ) (p : ℕ → Bool) (x : ℕ) → all_below n p ≡ true → x < n → p x ≡ true
unfolding all_below
all_below-lem zero p x h lt = absurd (omega arith)
all_below-lem (suc n) p x h lt = ground (arith, all_below-lem n p x)

undone : ℕ → Bool
undone m = all_below 256 (λ x. bit_xor (bit_xor x m) m == x)

xor_twice : (m x : ℕ) → undone m ≡ true → x < 256 → bit_xor (bit_xor x m) m ≡ x
unfolding undone
xor_twice m x h lt = ground (arith, all_below-lem 256 (λ x. bit_xor (bit_xor x m) m == x) x h lt)

mask-undone : (i : ℕ) → undone (mask_byte (i % 4)) ≡ true
mask-undone i = ground (arith, table.0, table.1, table.2, table.3)
  where
    table :
        (undone 0x12 ≡ true) × (undone 0x34 ≡ true) × (undone 0x56 ≡ true) × (undone 0x78 ≡ true)
    table = unfold undone all_below in (refl, refl, refl, refl)

-- A value of uint8_t.
abbrev pub IsByte : ℕ → Type 0
IsByte b = b < 256

length-masked_from : (i : ℕ) (s : Bytes) → length (masked_from i s) ≡ length s
unfolding masked_from
length-masked_from i [] = refl
length-masked_from i (b ∷ s) = omega (arith, length-masked_from (suc i) s)

mask_turn : (i : ℕ) → mask_byte (suc (suc (suc (suc i))) % 4) ≡ mask_byte (i % 4)
mask_turn i = ap mask_byte {x = suc (suc (suc (suc i))) % 4} {y = i % 4} (omega arith)

unmask-masked :
    (i n m0 m1 m2 m3 : ℕ) (s : Bytes)
    → m0 ≡ mask_byte (i % 4)
    → m1 ≡ mask_byte (suc i % 4)
    → m2 ≡ mask_byte (suc (suc i) % 4)
    → m3 ≡ mask_byte (suc (suc (suc i)) % 4)
    → All IsByte s
    → unmask m0 m1 m2 m3 (take n (masked_from i s)) ≡ take n s
unfolding masked_from unmask
unmask-masked i zero m0 m1 m2 m3 s e0 e1 e2 e3 a = refl
unmask-masked i (suc n) m0 m1 m2 m3 [] e0 e1 e2 e3 a = refl
unmask-masked i (suc n) m0 m1 m2 m3 (b ∷ s) e0 e1 e2 e3 a =
    ap₂ ◌∷◌ (rw e0 (xor_twice (mask_byte (i % 4)) b (mask-undone i) a.0))
      (unmask-masked (suc i) n m1 m2 m3 m0 s e1 e2 e3 (e0 ∙ sym (mask_turn i)) a.1)

-- How many bytes of the payload the header announces: the length field has two bytes at most.
abbrev pub announced : ℕ → ℕ
announced n = if ltb n 126 then n else n % 65536

read_masked-frame :
    (opcode n : ℕ) (text : Bytes)
    → opcode < 16
    → n ≤ length text
    → All IsByte text
    → read_masked (128 + opcode) n (0x12 ∷ 0x34 ∷ 0x56 ∷ 0x78 ∷ masked_from 0 text)
      ≡ some (record { opcode = opcode; payload = take n text })
read_masked-frame opcode n text h k a = ground (
  arith,
  length-masked_from 0 text,
  unmask-masked 0 n 0x12 0x34 0x56 0x78 text refl refl refl refl a,
)

short_length :
    (n : ℕ)
    → ltb n 126 ≡ true
    → (((128 + n) % 128 == 126) ≡ false)
      × (((128 + n) % 128 == 127) ≡ false)
      × ((128 + n) % 128 ≡ n)
short_length n h = ground arith

long_length : (n : ℕ) → (n / 256) % 256 * 256 + n % 256 ≡ n % 65536
long_length n = omega arith

header_bits :
    (opcode n : ℕ)
    → opcode < 16
    → n < 128
    → ((128 + opcode) / 16 == 8 && (128 + n) / 128 == 1) ≡ true
header_bits opcode n h k = ground (arith, h, k)

-- A receiver that takes only masked frames, each the whole of its message, with no reserved bit set,
-- takes a frame that the client writes, of an opcode below 16 and a text of bytes, and reads the
-- opcode and as many bytes of the text as the header announces: all of them up to 65535, and
-- only the length modulo 65536 above.
pub receive_frame-frame_bytes :
    (opcode : ℕ) (text : Bytes)
    → opcode < 16
    → All IsByte text
    → receive_frame (frame_bytes opcode text)
      ≡ some (record { opcode = opcode; payload = take (announced (length text)) text })
unfolding receive_frame frame_bytes
receive_frame-frame_bytes opcode text h a = elim (Bool-cases (ltb (length text) 126)) [
  | inl e ↦
      let s = short_length (length text) e in
      rw (e, header_bits opcode (length text) h (ground (arith, e)), s.0, s.1, s.2)
        (read_masked-frame opcode (length text) text h (omega arith) a)
  | inr e ↦
      rw (e, header_bits opcode 126 h (omega arith), long_length (length text))
        (read_masked-frame opcode (length text % 65536) text h (omega arith) a)
]
