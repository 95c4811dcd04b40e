-- ===== src/Net/Response.antt =====
-- sdk/src/net.c, the response of an HTTP request: finish_ok, z_net_body and z_net_header.
use zelto_os.Prelude.{
  ℕ, zero, suc, ◌+◌, ◌-◌, ◌≤◌, ◌≡◌, refl, ap, inl, inr, Bool, true, false, not, ◌&&◌, ◌||◌, List,
  [], ◌∷◌, ◌++◌, Option, none, some, arith, if◌then◌else◌, ◌==◌, ltb, leb, length, take, drop,
  Option-cases, get_elem?,
}
use zelto_os.Text.{
  Bytes, codes, eqb, strip_prefix, after_char, drop_while, take_while, trim_end, clip, split_lines,
}
use zelto_os.Zsysd.Wire.{atoll, bind}
pub mod Split

pub record Response : Type 0 where
  -- 0 for a transport error; none for a negative number
  pub status : Option ℕ
  pub ok : Bool
  pub raw : Bytes
  -- what stands before the blank line, if there is one
  pub header : Option Bytes
  pub body : Bytes

abbrev pub not_nul : ℕ → Bool
not_nul c = not (c == 0)

abbrev pub after_byte : ℕ → Option (Bytes × Bytes) → Option (Bytes × Bytes)
after_byte c none = none
after_byte c (some (a, b)) = some (c ∷ a, b)

-- strstr, which stops at a NUL: what stands before the first occurrence, and what stands behind it.
unfoldable pub cut_at : Bytes → Bytes → Option (Bytes × Bytes)
unfolding strip_prefix
cut_at pat [] = none
cut_at pat (c ∷ s) = elim (strip_prefix pat (c ∷ s)) [
  | some rest ↦ some ([], rest)
  | none ↦ let rest = cut_at pat s in if c == 0 then none else after_byte c rest
]

abbrev pub crlf2 : Bytes
crlf2 = 13 ∷ 10 ∷ 13 ∷ 10 ∷ []

-- atoi behind the first blank, if the text starts with HTTP/
abbrev pub status_line : Bytes → Option Bytes → Option ℕ
status_line raw none = some 0
status_line raw (some s) = elim (after_char b' ' (take_while not_nul raw)) [
  | none ↦ some 0
  | some t ↦ atoll t
]

unfoldable pub status_of : Bytes → Option ℕ
unfolding strip_prefix after_char take_while atoll
status_of raw = status_line raw (strip_prefix (codes "HTTP/") raw)

abbrev pub is_success : Option ℕ → Bool
is_success none = false
is_success (some n) = leb 200 n && ltb n 300

abbrev pub with_split : Bytes → Option (Bytes × Bytes) → Response
with_split raw none = record {
  status = status_of raw;
  ok = is_success (status_of raw);
  raw = raw;
  header = none;
  body = raw;
}
with_split raw (some (h, b)) = record {
  status = status_of raw;
  ok = is_success (status_of raw);
  raw = raw;
  header = some h;
  body = b;
}

-- finish_ok: the response that the callback gets for the bytes received.
unfoldable pub response : Bytes → Response
unfolding cut_at status_of
response raw = with_split raw (cut_at crlf2 raw)

-- finish_err: the zeroed response of a transport error.
abbrev pub no_response : Response
no_response = record { status = some 0; ok = false; raw = []; header = none; body = [] }

-- strncasecmp, on letters of ASCII.
abbrev pub lower : ℕ → ℕ
lower c = if leb b'A' c && leb c b'Z' then c + 32 else c

-- line[0 .. n) is the name but for case, and line[n] is ':'; the value behind it.
unfoldable pub value_behind : Bytes → Bytes → Option Bytes
value_behind [] [] = none
value_behind [] (c ∷ line) = if c == b':' then some line else none
value_behind (d ∷ name) [] = none
value_behind (d ∷ name) (c ∷ line) =
    let rest = value_behind name line in if lower c == lower d then rest else none

abbrev pub is_blank : ℕ → Bool
is_blank c = c == b' ' || c == b'\t'

abbrev pub is_tail : ℕ → Bool
is_tail c = c == 13 || c == b' '

-- The value with no blanks in front and no carriage return or blank at the end, cut to the buffer.
abbrev pub tidy : Bytes → Bytes
tidy v = clip 256 (trim_end is_tail (drop_while is_blank v))

unfoldable pub find_header : Bytes → List Bytes → Option Bytes
unfolding value_behind trim_end drop_while
find_header name [] = none
find_header name (line ∷ ls) = elim (value_behind name line) [
  | some v ↦ some (tidy v)
  | none ↦ find_header name ls
]

-- The header lines: behind the first newline, or from the start where there is none. A newline that
-- is found only behind the header leaves no line.
abbrev pub header_block : Response → Option Bytes → Option Bytes → Bytes
header_block res none none = res.raw
header_block res none (some t) = t
header_block res (some h) none = []
header_block res (some h) (some t) = t

unfoldable pub z_net_header : Response → Bytes → Option Bytes
unfolding find_header after_char take_while split_lines
z_net_header res name = find_header name (
    split_lines (
      header_block res res.header (elim res.header [
        | none ↦ after_char b'\n' (take_while not_nul res.raw)
        | some h ↦ after_char b'\n' h
      ])))

-- z_net_body: the body, where there is a buffer.
abbrev pub z_net_body : Response → Bytes
z_net_body res = res.body
