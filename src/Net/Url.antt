-- ===== src/Net/Url.antt =====
-- sdk/src/net.c, parse_url: scheme, host, port and path of a URL.
use zelto_os.Prelude.{
  ℕ, ◌+◌, ◌≤◌, ◌≡◌, refl, false, [], ◌∷◌, ◌++◌, Option, none, some, arith, if◌then◌else◌, ◌==◌, ltb,
  length,
}
use zelto_os.Text.{Bytes, strip_prefix, split_at, after_char, clip, Free}
use zelto_os.Text.Search.{split_at-Free, after_char-skip}
use zelto_os.Zsysd.Wire.{atoll, bind, or_empty}

pub record Url : Type 0 where
  pub host : Bytes
  -- none: atoi read a negative number
  pub port : Option ℕ
  pub path : Bytes

-- The part before the slash, and the path from it on.
abbrev authority : Bytes → Option (Bytes × Bytes) → Bytes
authority p none = p
authority p (some (a, t)) = a

abbrev path_of : Option (Bytes × Bytes) → Bytes
path_of none = b'/' ∷ []
path_of (some (a, t)) = b'/' ∷ t

abbrev host_of : Bytes → Option (Bytes × Bytes) → Bytes
host_of a none = a
host_of a (some (h, t)) = h

-- atoi reads on past the authority: it stops at the first byte that is no digit.
abbrev port_of : Bytes → ℕ → Option (Bytes × Bytes) → Option ℕ
port_of p def_port none = some def_port
port_of p def_port (some (h, t)) = atoll (or_empty (after_char b':' p))

-- A host that is empty or that does not fit its buffer is refused.
abbrev checked : ℕ → Url → Option Url
checked hostn u =
    if length u.host == 0 then none else if ltb hostn (length u.host + 1) then none else some u

abbrev parse_rest : Bytes → ℕ → ℕ → ℕ → Option Url
parse_rest p def_port hostn pathn =
    let slash = split_at b'/' p in
    let colon = split_at b':' (authority p slash) in
    checked hostn (record {
      host = host_of (authority p slash) colon;
      port = port_of p def_port colon;
      path = clip pathn (path_of slash);
    })

unfoldable pub parse_url : Bytes → Bytes → ℕ → ℕ → ℕ → Option Url
unfolding strip_prefix split_at after_char atoll
parse_url url scheme def_port hostn pathn =
    bind (strip_prefix scheme url) λ p. parse_rest p def_port hostn pathn

strip_prefix-append : (a b : Bytes) → strip_prefix a (a ++ b) ≡ some b
unfolding strip_prefix
strip_prefix-append [] b = refl
strip_prefix-append (c ∷ a) b = ground (arith, strip_prefix-append a b)

split_at-none : (c : ℕ) (a : Bytes) → Free c a → split_at c a ≡ none
unfolding split_at
split_at-none c [] f = refl
split_at-none c (x ∷ a) f = ground (arith, split_at-none c a f.1)

-- A host that fits the buffer and holds no separator.
pub record IsHost (hostn : ℕ) (host : Bytes) : Type 0 where
  pub ne_nil : 1 ≤ length host
  pub fits : length host + 1 ≤ hostn
  pub no_slash : Free b'/' host
  pub no_colon : Free b':' host

-- A URL of scheme, host and path gives back its host, the scheme's default port, and the path from its
-- slash on, cut to the buffer.
pub parse_url-host :
    (scheme host path : Bytes) (def_port hostn pathn : ℕ)
    → IsHost hostn host
    → parse_url (scheme ++ (host ++ b'/' ∷ path)) scheme def_port hostn pathn
      ≡ some (record { host = host; port = some def_port; path = clip pathn (b'/' ∷ path) })
unfolding parse_url
parse_url-host scheme host path def_port hostn pathn h = ground (
  arith,
  strip_prefix-append scheme (host ++ b'/' ∷ path),
  split_at-Free b'/' host path h.no_slash,
  split_at-none b':' host h.no_colon,
  h.ne_nil,
  h.fits,
)

split_at-second :
    (c d : ℕ) (a b rest : Bytes)
    → Free c a
    → (d == c) ≡ false
    → Free c b
    → split_at c (a ++ d ∷ (b ++ c ∷ rest)) ≡ some (a ++ d ∷ b, rest)
unfolding split_at
split_at-second c d [] b rest fa ne fb = ground (arith, split_at-Free c b rest fb)
split_at-second c d (x ∷ a) b rest fa ne fb =
    ground (arith, split_at-second c d a b rest fa.1 ne fb)

-- A URL of scheme, host, port and path, whose host is not empty, fits its buffer and holds no
-- separator, and whose port text holds no slash, gives back the host, the port that atoi reads
-- behind the colon, and the path from its slash on, cut to the buffer.
pub parse_url-port :
    (scheme host digits path : Bytes) (def_port hostn pathn : ℕ)
    → IsHost hostn host
    → Free b'/' digits
    → parse_url (scheme ++ (host ++ b':' ∷ (digits ++ b'/' ∷ path))) scheme def_port hostn pathn
      ≡ some (record {
        host = host;
        port = atoll (digits ++ b'/' ∷ path);
        path = clip pathn (b'/' ∷ path);
      })
unfolding parse_url after_char
parse_url-port scheme host digits path def_port hostn pathn h fd = ground (
  arith,
  strip_prefix-append scheme (host ++ b':' ∷ (digits ++ b'/' ∷ path)),
  split_at-second b'/' b':' host digits path h.no_slash refl fd,
  split_at-Free b':' host digits h.no_colon,
  after_char-skip b':' host (b':' ∷ (digits ++ b'/' ∷ path)) h.no_colon,
  h.ne_nil,
  h.fits,
)
