-- ===== src/Installer/Verify/Sums.antt =====
-- system/installer/main.c: verify_hashes on a list as sha256sum prints it.
use zelto_os.Prelude.{
  ℕ, ◌+◌, ◌*◌, ◌/◌, ◌%◌, ◌≤◌, ◌<◌, ◌≡◌, ◌↔◌, refl, sym, ap, ap₂, subst, ◌∙◌, Bool, true, false, not,
  ◌&&◌, List, [], ◌∷◌, ◌++◌, Option, none, some, arith, ◌==◌, ltb, All, All-append, length,
  length-append, take, drop,
}
use zelto_os.Text.{Bytes, codes, eqb, eqb_refl, chomp, drop_while, lines_of, lines_from, is_eol}
use zelto_os.Text.Lines.{Plain, Plain-Free, chomp-Plain, lines_from-line}
use zelto_os.Installer.Verify.{
  Files, hex_digit, to_hex, in_dir, is_gap, hash_is, check_line, check_lines, verify_hashes,
}

abbrev pub Octets : Bytes → Type 0
Octets bs = All (λ b. b < 256) bs

hex_digit-inj : (a b : ℕ) → a < 16 → b < 16 → hex_digit a ≡ hex_digit b → a ≡ b
hex_digit-inj a b ha hb h = ground (arith, ha, hb, h)

hex_digit-Plain : (a : ℕ) → a < 16 → is_eol (hex_digit a) ≡ false
hex_digit-Plain a h = ground (arith, h)

octet-inj : (a b : ℕ) → a < 256 → b < 256 → a / 16 % 16 ≡ b / 16 % 16 → a % 16 ≡ b % 16 → a ≡ b
octet-inj a b ha hb p q = omega (arith, ha, hb, p, q)

same-parts :
    (p q r s : ℕ) (t : Bool) → (p == q && (r == s && t)) ≡ true → (p ≡ q) × (r ≡ s) × (t ≡ true)
same-parts p q r s t h = (ground (arith, h), ground (arith, h), ground (arith, h))

-- Different digests have different texts.
to_hex-inj : (a b : Bytes) → Octets a → Octets b → eqb (to_hex a) (to_hex b) ≡ true → a ≡ b
unfolding to_hex eqb
to_hex-inj [] [] ha hb h = refl
to_hex-inj [] (y ∷ b) ha hb h = absurd (ground (arith, h))
to_hex-inj (x ∷ a) [] ha hb h = absurd (ground (arith, h))
to_hex-inj (x ∷ a) (y ∷ b) ha hb h =
    let t =
      same-parts (hex_digit (x / 16 % 16)) (hex_digit (y / 16 % 16)) (hex_digit (x % 16))
        (hex_digit (y % 16)) (eqb (to_hex a) (to_hex b)) h in
    ap₂ (◌∷◌)
      (octet-inj x y ha.0 hb.0
        (hex_digit-inj (x / 16 % 16) (y / 16 % 16) (omega arith) (omega arith) t.0)
        (hex_digit-inj (x % 16) (y % 16) (omega arith) (omega arith) t.1))
      (to_hex-inj a b ha.1 hb.1 t.2)

to_hex-Plain : (d : Bytes) → Plain (to_hex d)
unfolding to_hex
to_hex-Plain [] = tt
to_hex-Plain (x ∷ d) = (
  hex_digit-Plain (x / 16 % 16) (omega arith),
  (hex_digit-Plain (x % 16) (omega arith), to_hex-Plain d),
)

length-to_hex : (d : Bytes) → length (to_hex d) ≡ length d * 2
unfolding to_hex
length-to_hex [] = refl
length-to_hex (x ∷ d) = omega (arith, length-to_hex d)

take-length : (a b : Bytes) → take (length a) (a ++ b) ≡ a
take-length [] b = refl
take-length (x ∷ a) b = ap (◌∷◌ x) (take-length a b)

drop-length : (a b : Bytes) → drop (length a) (a ++ b) ≡ b
drop-length [] b = refl
drop-length (x ∷ a) b = drop-length a b

-- A file and the digest that the list gives for it.
pub record Entry : Type 0 where
  pub path : Bytes
  pub digest : Bytes

abbrev pub starts_path : Bytes → Bool
starts_path [] = false
starts_path (c ∷ s) = not (is_gap c)

-- An entry that a line of 1023 bytes can hold.
pub record IsEntry (e : Entry) : Type 0 where
  pub path_plain : Plain e.path
  pub path_starts : starts_path e.path ≡ true
  pub path_fits : length e.path ≤ 955
  pub digest_octets : Octets e.digest
  pub digest_length : length e.digest ≡ 32

abbrev pub sum_line : Entry → Bytes
sum_line e = to_hex e.digest ++ (b' ' ∷ b' ' ∷ e.path)

-- The text of the list, as sha256sum prints it.
unfoldable pub sums : List Entry → Bytes
unfolding to_hex
sums [] = []
sums (e ∷ es) = sum_line e ++ b'\n' ∷ sums es

gap-path : (p : Bytes) → starts_path p ≡ true → drop_while is_gap (b' ' ∷ b' ' ∷ p) ≡ p
unfolding drop_while
gap-path [] h = absurd (ground (arith, h))
gap-path (c ∷ p) h = ground (arith, h)

not_empty : (p : Bytes) → starts_path p ≡ true → 1 ≤ length p
not_empty [] h = absurd (ground (arith, h))
not_empty (c ∷ p) h = omega arith

check_line_lem :
    (hash : Bytes → Bytes) (files : Files) (workdir raw l want path : Bytes)
    → chomp raw ≡ l
    → ltb (length l) 67 ≡ false
    → take 64 l ≡ want
    → drop_while is_gap (drop 64 l) ≡ path
    → check_line hash files workdir raw ≡ hash_is hash (files (in_dir 1200 workdir path)) want
unfolding check_line
check_line_lem hash files workdir raw l want path hc hl ht hp = rw (hc, hl, ht, hp) refl

module _ (e : Entry) (h : IsEntry e) where
  hex_length : length (to_hex e.digest) ≡ 64
  hex_length = omega (arith, length-to_hex e.digest, h.digest_length)

  sum_line-Plain : Plain (sum_line e)
  sum_line-Plain =
      All-append (λ d. is_eol d ≡ false) (to_hex e.digest) (b' ' ∷ b' ' ∷ e.path)
        (to_hex-Plain e.digest) (refl, (refl, h.path_plain))

  length-sum_line : length (sum_line e) ≡ 66 + length e.path
  length-sum_line =
      omega (arith, length-append (to_hex e.digest) (b' ' ∷ b' ' ∷ e.path), hex_length)

  path_length : 1 ≤ length e.path
  path_length = not_empty e.path h.path_starts

  check_line-sum_line :
      (hash : Bytes → Bytes) (files : Files) (workdir : Bytes)
      → check_line hash files workdir (sum_line e ++ b'\n' ∷ [])
        ≡ hash_is hash (files (in_dir 1200 workdir e.path)) (to_hex e.digest)
  check_line-sum_line hash files workdir =
      let tail = b' ' ∷ b' ' ∷ e.path in
      check_line_lem hash files workdir (sum_line e ++ b'\n' ∷ []) (sum_line e) (to_hex e.digest)
        e.path (chomp-Plain (sum_line e) sum_line-Plain)
        (ground (arith, length-sum_line, path_length))
        (subst (λ n. take n (sum_line e) ≡ to_hex e.digest) hex_length
          (take-length (to_hex e.digest) tail))
        (ap (drop_while is_gap) (
            subst (λ n. drop n (sum_line e) ≡ tail) hex_length (drop-length (to_hex e.digest) tail))
          ∙ gap-path e.path h.path_starts)

-- The file of an entry is there and has the digest that the list gives.
abbrev pub Intact : (Bytes → Bytes) → Files → Bytes → Entry → Type 0
Intact hash files workdir e =
    (content : Bytes) × (files (in_dir 1200 workdir e.path) ≡ some content)
    × (hash content ≡ e.digest)

same :
    (hash : Bytes → Bytes) (e : Entry) (c c' : Bytes)
    → ◌≡◌ {A = Option Bytes} (some c) (some c')
    → hash c' ≡ e.digest
    → hash c ≡ e.digest
same hash e c c' p q = ap hash (ground (arith, p)) ∙ q

and_iff : (a b : Bool) → ((a && b) ≡ true) ↔ ((a ≡ true) × (b ≡ true))
and_iff true b = (λ h. (refl, h), λ h. h.1)
and_iff false b = (λ h. absurd (ground (arith, h)), λ h. h.0)

module _ (hash : Bytes → Bytes) (octets : (b : Bytes) → Octets (hash b)) (files : Files)
    (workdir : Bytes) where
  hash_is-Intact :
      (e : Entry) (o : Option Bytes)
      → IsEntry e
      → files (in_dir 1200 workdir e.path) ≡ o
      → (hash_is hash o (to_hex e.digest) ≡ true) ↔ Intact hash files workdir e
  hash_is-Intact e none h p =
      (λ k. absurd (ground (arith, k)), λ t. absurd (ground (arith, p, t.1)))
  hash_is-Intact e (some c) h p = (
    λ k. (c, p, sym (to_hex-inj e.digest (hash c) h.digest_octets (octets c) k)),
    λ t. rw (same hash e c t.0 (sym p ∙ t.1) t.2) (eqb_refl (to_hex e.digest)),
  )

  -- The first line is read whole and checked, and the others are read as they were.
  check_lines-line :
      (e : Entry) (es : List Entry)
      → IsEntry e
      → check_lines hash files workdir (lines_of 1023 (sums (e ∷ es))) ≡ (
          hash_is hash (files (in_dir 1200 workdir e.path)) (to_hex e.digest)
          && check_lines hash files workdir (lines_of 1023 (sums es)))
  unfolding check_lines lines_of sums
  check_lines-line e es h =
      ap (check_lines hash files workdir) (
        lines_from-line 1023 1023 (sum_line e) (sums es)
          (Plain-Free (sum_line e) (sum_line-Plain e h))
          (omega (arith, length-sum_line e h, h.path_fits)))
      ∙ ap (λ b. b && check_lines hash files workdir (lines_of 1023 (sums es)))
          (check_line-sum_line e h hash files workdir)

  check_lines-sums :
      (es : List Entry)
      → All IsEntry es
      → (check_lines hash files workdir (lines_of 1023 (sums es)) ≡ true)
        ↔ All (Intact hash files workdir) es
  check_lines-sums [] a = unfold sums lines_of lines_from check_lines in (λ k. tt, λ k. refl)
  check_lines-sums (e ∷ es) a =
      let first = hash_is-Intact e (files (in_dir 1200 workdir e.path)) a.0 refl in
      let rest = check_lines-sums es a.1 in
      let both =
        and_iff (hash_is hash (files (in_dir 1200 workdir e.path)) (to_hex e.digest))
          (check_lines hash files workdir (lines_of 1023 (sums es))) in
      let eq = check_lines-line e es a.0 in
      (
        λ k. let t = both.0 (sym eq ∙ k) in (first.0 t.0, rest.0 t.1),
        λ t. eq ∙ both.1 (first.1 t.0, rest.1 t.1),
      )

  -- A list of files and digests, as sha256sum prints it, passes exactly if every file of the list is
  -- there and has the digest of the list: each path starts with no blank or star, holds no end of line
  -- and has at most 955 bytes, and the digests are of 32 bytes.
  pub verify_hashes-sums :
      (es : List Entry)
      → All IsEntry es
      → files (in_dir 1024 workdir (codes "MANIFEST.sha256")) ≡ some (sums es)
      → (verify_hashes hash files workdir ≡ true) ↔ All (Intact hash files workdir) es
  unfolding verify_hashes
  verify_hashes-sums es a p = rw p (check_lines-sums es a)
