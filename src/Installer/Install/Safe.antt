-- ===== src/Installer/Install/Safe.antt =====
-- system/installer/main.c: what main installs, and of which packages.
use zelto_os.Prelude.{
  ◌≡◌, ◌≢◌, refl, ap, ◌∙◌, inl, inr, ◌⊎◌, Bool, true, false, ◌&&◌, List, Option, none, some, arith,
  ◌==◌, Bool-cases, Option-cases, All, length,
}
use zelto_os.Text.{Bytes, codes}
use zelto_os.Installer.Verify.{
  Files, trusted_pub, public_key_bytes, sign_bytes, in_dir, verify_with, verify_signature,
  verify_hashes,
}
use zelto_os.Installer.Verify.Sums.{Octets, Entry, IsEntry, sums, Intact, verify_hashes-sums}
use zelto_os.Installer.Install.{System, verify, verified, unpacked, install}

-- The unpacked files are signed with the trusted key, and every file of the signed list, as sha256sum
-- prints it, has the digest of the list.
pub record IsGenuine (w : System) (files : Files) : Type 0 where
  pub key : Bytes
  pub sig : Bytes
  pub list : Bytes
  pub key_is : files trusted_pub ≡ some key
  pub key_length : length key ≡ public_key_bytes
  pub sig_is : files (in_dir 1024 w.workdir (codes "SIGNATURE")) ≡ some sig
  pub sig_length : length sig ≡ sign_bytes
  pub list_is : files (in_dir 1024 w.workdir (codes "MANIFEST.sha256")) ≡ some list
  pub signed : w.verify_detached sig list key ≡ true
  pub intact :
      (es : List Entry) → All IsEntry es → list ≡ sums es → All (Intact w.hash files w.workdir) es

and_split : (a b : Bool) → (a && b) ≡ true → (a ≡ true) × (b ≡ true)
and_split true b h = (refl, h)
and_split false b h = absurd (ground (arith, h))

module _ (w : System) (octets : (b : Bytes) → Octets (w.hash b)) (files : Files) where
  verify_with-IsGenuine :
      (k s l : Option Bytes)
      → files trusted_pub ≡ k
      → files (in_dir 1024 w.workdir (codes "SIGNATURE")) ≡ s
      → files (in_dir 1024 w.workdir (codes "MANIFEST.sha256")) ≡ l
      → verify_with w.verify_detached k s l ≡ true
      → verify_hashes w.hash files w.workdir ≡ true
      → IsGenuine w files
  verify_with-IsGenuine (some k) (some s) (some l) pk ps pl h t =
      let a = and_split (length k == public_key_bytes) _ h in
      let b = and_split (length s == sign_bytes) _ a.1 in
      record {
        key = k;
        sig = s;
        list = l;
        key_is = pk;
        key_length = ground (arith, a.0);
        sig_is = ps;
        sig_length = ground (arith, b.0);
        list_is = pl;
        signed = b.1;
        intact = λ es ok e.
            (verify_hashes-sums w.hash octets files w.workdir es ok (pl ∙ ap some e)).0 t;
      }
  verify_with-IsGenuine none s l pk ps pl h t = absurd (ground (arith, h))
  verify_with-IsGenuine (some k) none l pk ps pl h t = absurd (ground (arith, h))
  verify_with-IsGenuine (some k) (some s) none pk ps pl h t = absurd (ground (arith, h))

  verify-IsGenuine : verify w files ≡ true → IsGenuine w files
  unfolding verify_signature
  verify-IsGenuine h =
      let t = and_split (verify_signature w.verify_detached files w.workdir) _ h in
      verify_with-IsGenuine (files trusted_pub) (files (in_dir 1024 w.workdir (codes "SIGNATURE")))
        (files (in_dir 1024 w.workdir (codes "MANIFEST.sha256"))) refl refl refl t.0 t.1

abbrev Changes : System → Files → Bytes → Type 0
Changes w files q = ((install w files).0 ≡ true) ⊎ ((install w files).1 q ≢ files q)

no_change :
    (w : System) (files g : Files) (q : Bytes)
    → unpacked w files (w.unzip files) ≡ (false, g)
    → w.remove g q ≡ files q
    → Changes w files q
    → ⊥
unfolding install
no_change w files g q e r (inl h) = ground (arith, e, h)
no_change w files g q e r (inr n) = n (ap (λ x. w.remove x.1 q) e ∙ r)

-- An install that succeeds, or that changes the file at a path which neither unzip nor the removal of the
-- work directory touches, is one of a genuine package: signed with the trusted key, and with no listed
-- file altered. The digests of the hash are bytes.
pub install-IsGenuine :
    (w : System) (files : Files) (q : Bytes)
    → ((b : Bytes) → Octets (w.hash b))
    → ((f f' : Files) → w.unzip f ≡ some f' → f' q ≡ f q)
    → ((f : Files) → w.remove f q ≡ f q)
    → ((install w files).0 ≡ true) ⊎ ((install w files).1 q ≢ files q)
    → (f : Files) × (w.unzip files ≡ some f) × IsGenuine w f
install-IsGenuine w files q octets keeps removes h = elim (Option-cases (w.unzip files)) [
  | inl e ↦ absurd (no_change w files files q (ap (unpacked w files) e) (removes files) h)
  | inr (f, e) ↦ elim (Bool-cases (verify w f)) [
    | inl v ↦ (f, e, verify-IsGenuine w octets f v)
    | inr v ↦ absurd (
        no_change w files f q (ap (unpacked w files) e ∙ unverified w f v)
          (removes f ∙ keeps files f e) h)
  ]
]
  where
    unverified : (w : System) (f : Files) → verify w f ≡ false → verified w f ≡ (false, f)
    unverified w f v = rw v refl
