-- ===== src/Installer/Verify.antt =====
-- system/installer/main.c: to_hex, sha256_file_hex, verify_signature and verify_hashes. The hash and the
-- check of the signature are libsodium's, and parameters.
use zelto_os.Prelude.{
  ℕ, ◌+◌, ◌-◌, ◌/◌, ◌%◌, Bool, true, false, not, ◌&&◌, ◌||◌, List, [], ◌∷◌, ◌++◌, Option, none,
  some, if◌then◌else◌, ◌==◌, ltb, length, take, drop,
}
use zelto_os.Text.{Bytes, codes, eqb, clip, chomp, drop_while, lines_of}
pub mod Sums

-- What a path reads as, where it opens and every read succeeds.
abbrev pub Files : Type 0
Files = Bytes → Option Bytes

abbrev pub hex_digit : ℕ → ℕ
hex_digit n = if ltb n 10 then b'0' + n else b'a' + (n - 10)

unfoldable pub to_hex : Bytes → Bytes
to_hex [] = []
to_hex (b ∷ bs) = hex_digit (b / 16 % 16) ∷ hex_digit (b % 16) ∷ to_hex bs

abbrev pub trusted_pub : Bytes
trusted_pub = codes "/usr/share/zelto/keys/trusted.pub"

-- crypto_sign_PUBLICKEYBYTES and crypto_sign_BYTES, of Ed25519.
abbrev pub public_key_bytes : ℕ
public_key_bytes = 32

abbrev pub sign_bytes : ℕ
sign_bytes = 64

abbrev pub in_dir : ℕ → Bytes → Bytes → Bytes
in_dir size dir name = clip size (dir ++ b'/' ∷ name)

abbrev pub is_gap : ℕ → Bool
is_gap c = c == b' ' || c == b'\t' || c == b'*'

module _ (verify_detached : Bytes → Bytes → Bytes → Bool) where
  abbrev pub verify_with : Option Bytes → Option Bytes → Option Bytes → Bool
  verify_with (some key) (some sig) (some man) =
      length key == public_key_bytes && (length sig == sign_bytes && verify_detached sig man key)
  verify_with _ _ _ = false

  unfoldable pub verify_signature : Files → Bytes → Bool
  verify_signature files workdir =
      verify_with (files trusted_pub) (files (in_dir 1024 workdir (codes "SIGNATURE")))
        (files (in_dir 1024 workdir (codes "MANIFEST.sha256")))

module _ (hash : Bytes → Bytes) where
  -- sha256_file_hex and the strcmp on it.
  abbrev pub hash_is : Option Bytes → Bytes → Bool
  hash_is none want = false
  hash_is (some content) want = eqb want (to_hex (hash content))

  -- One line of the list; those with no room for a hash and a path are skipped.
  unfoldable pub check_line : Files → Bytes → Bytes → Bool
  unfolding chomp drop_while to_hex eqb
  check_line files workdir raw =
      let l = chomp raw in
      if ltb (length l) 67
      then true
      else hash_is (files (in_dir 1200 workdir (drop_while is_gap (drop 64 l)))) (take 64 l)

  unfoldable pub check_lines : Files → Bytes → List Bytes → Bool
  unfolding check_line
  check_lines files workdir [] = true
  check_lines files workdir (l ∷ ls) = check_line files workdir l && check_lines files workdir ls

  abbrev pub check_list : Files → Bytes → Option Bytes → Bool
  check_list files workdir none = false
  check_list files workdir (some text) = check_lines files workdir (lines_of 1023 text)

  unfoldable pub verify_hashes : Files → Bytes → Bool
  unfolding check_lines lines_of
  verify_hashes files workdir =
      check_list files workdir (files (in_dir 1024 workdir (codes "MANIFEST.sha256")))
