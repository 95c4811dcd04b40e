-- ===== src/Tests/Packages.antt =====
-- A signed package of two files and its install.
use zelto_os.Prelude.{
  ℕ, zero, suc, ◌<◌, ◌≡◌, ◌↔◌, refl, sym, ap, ◌∙◌, inl, true, false, List, [], ◌∷◌, ◌++◌, Option,
  none, some, arith, if◌then◌else◌, map, All, replicate,
}
use zelto_os.Text.{
  Bytes, codes, eqb, chomp, lines_of, lines_from, split_at, trim_end, cons_end, cons_line,
}
use zelto_os.Text.Lines.{Plain}
use zelto_os.Zsysd.Manifests as Broker
use zelto_os.Installer.{
  Package, no_package, parse_manifest, read_lines, read_line, manifest_set, base_name, base_from,
}
use zelto_os.Number.{pos}
use zelto_os.Installer.Manifests.{IsWritable}
use zelto_os.Installer.Versions.{version_cmp}
use zelto_os.Installer.Versions.Numbers.{numbers, value, split_dots, IsLong, version_cmp-numbers}
use zelto_os.Installer.Versions.Order.{lex}
use zelto_os.Installer.Verify.{Files, in_dir, trusted_pub, verify_signature, verify_hashes}
use zelto_os.Installer.Verify.Sums.{Octets, Entry, IsEntry, Intact, sums, verify_hashes-sums}
use zelto_os.Installer.Install.{
  System, put, install, verify, bin_dst, manifest_path, manifests_dir, parsed, is_downgrade,
}
use zelto_os.Installer.Install.Safe.{IsGenuine, install-IsGenuine}
use zelto_os.Installer.Install.Sequence.{manifest_of}
use zelto_os.Installer.Install.Succeeds.{IsFine, install-succeeds}

abbrev work : Bytes
work = codes "/tmp/z"

abbrev toml : Bytes
toml = codes "id=cam\nversion=1.10\npermissions=camera\nexec=native/cam\n"

abbrev binary : Bytes
binary = 127 ∷ 69 ∷ 76 ∷ 70 ∷ []

abbrev sum : Bytes → Bytes
sum b = replicate 32 7

octets : (n : ℕ) → Octets (replicate n 7)
octets zero = tt
octets (suc n) = (omega arith, octets n)

abbrev listed : List Entry
listed =
    record { path = codes "zelto.toml"; digest = replicate 32 7 }
    ∷ record { path = codes "native/cam"; digest = replicate 32 7 }
    ∷ []

listed-IsEntry : All IsEntry listed
listed-IsEntry = (
  record {
    path_plain = (refl, (refl, (refl, (refl, (refl, (refl, (refl, (refl, (refl, (refl, tt))))))))));
    path_starts = refl;
    path_fits = omega arith;
    digest_octets = octets 32;
    digest_length = refl;
  },
  (
    record {
      path_plain =
          (refl, (refl, (refl, (refl, (refl, (refl, (refl, (refl, (refl, (refl, tt))))))))));
      path_starts = refl;
      path_fits = omega arith;
      digest_octets = octets 32;
      digest_length = refl;
    },
    tt,
  ),
)

-- The disk before, with the trusted key, and after the package is unpacked.
abbrev disk : Files
disk = λ q. if eqb q trusted_pub then some (replicate 32 1) else none

abbrev contents : Files → Files
contents f =
    put
      (put (put (put f (codes "/tmp/z/zelto.toml") toml) (codes "/tmp/z/native/cam") binary)
        (codes "/tmp/z/SIGNATURE") (replicate 64 1))
      (codes "/tmp/z/MANIFEST.sha256") (sums listed)

abbrev phone : System
phone = record {
  data_dir = codes "/d";
  workdir = work;
  unzip = λ f. some (contents f);
  hash = sum;
  verify_detached = λ sig man key. eqb sig (key ++ key);
  makes = λ p. true;
  opens = λ p. true;
  fails_at = λ p. none;
  taken = λ t. t;
  has_assets = true;
  copy_assets = λ f. f;
  renames = true;
  remove = λ f. f;
}

version_cmp-numbers_example :
    (version_cmp (codes "1.10") (codes "1.9.3")
      ≡ some (lex (numbers (codes "1.10")) (numbers (codes "1.9.3"))))
    × (All IsLong (split_dots (codes "1.10"))
        → numbers (codes "1.10") ≡ map (λ s. pos (value 0 s)) (split_dots (codes "1.10")))
version_cmp-numbers_example = version_cmp-numbers (codes "1.10") (codes "1.9.3")

later :
    lex (pos 1 ∷ pos 10 ∷ []) (pos 1 ∷ pos 9 ∷ pos 3 ∷ []) ≡ lex (pos 1 ∷ []) (pos 0 ∷ pos 5 ∷ [])
unfolding lex
later = refl

list_is : contents disk (in_dir 1024 work (codes "MANIFEST.sha256")) ≡ some (sums listed)
unfolding eqb
list_is = refl

verify_hashes-sums_example :
    (verify_hashes sum (contents disk) work ≡ true) ↔ All (Intact sum (contents disk) work) listed
verify_hashes-sums_example =
    verify_hashes-sums sum (λ b. octets 32) (contents disk) work listed listed-IsEntry list_is

signature_holds : verify_signature phone.verify_detached (contents disk) work ≡ true
unfolding verify_signature eqb
signature_holds = refl

hashes_hold : verify_hashes sum (contents disk) work ≡ true
unfolding eqb
hashes_hold =
    (verify_hashes-sums sum (λ b. octets 32) (contents disk) work listed listed-IsEntry list_is).1
      ((toml, refl, refl), ((binary, refl, refl), tt))

phone_verifies : verify phone (contents disk) ≡ true
phone_verifies = rw (signature_holds, hashes_hold) refl

abbrev cam : Package
cam = record no_package {
  id = codes "cam";
  version = codes "1.10";
  perms = codes "camera";
  exec = codes "native/cam";
}

toml_is : contents disk (in_dir 1024 work (codes "zelto.toml")) ≡ some toml
unfolding eqb
toml_is = refl

toml_parses : parse_manifest toml ≡ cam
unfolding parse_manifest lines_of lines_from cons_line read_lines read_line manifest_set chomp
    trim_end cons_end split_at eqb
toml_parses = refl

cam_is_parsed : parsed (contents disk (in_dir 1024 work (codes "zelto.toml"))) ≡ some cam
cam_is_parsed = rw (toml_is, toml_parses) refl

phone-IsFine : IsFine phone
phone-IsFine = record {
  dir = omega arith;
  makes = λ p. refl;
  opens = λ p. refl;
  copies = λ p. refl;
  takes_all = λ t. refl;
  renames = refl;
}

cam_dst : bin_dst phone cam ≡ codes "/d/installed/cam/cam"
unfolding base_name base_from
cam_dst = refl

-- "/d/installed/cam/cam" has no end of line.
cam_dst-Plain : Plain (codes "/d/installed/cam/cam")
cam_dst-Plain = ground arith

cam-IsWritable : (room : ℕ) → 254 < room → IsWritable room cam (bin_dst phone cam)
unfolding base_name base_from
cam-IsWritable room h = record {
  id_plain = (refl, (refl, (refl, tt)));
  id_fits = omega arith;
  name_plain = tt;
  name_fits = omega arith;
  subtitle_plain = tt;
  subtitle_fits = omega arith;
  color_plain = tt;
  color_fits = omega arith;
  version_plain = (refl, (refl, (refl, (refl, tt))));
  version_fits = omega arith;
  perms_plain = (refl, (refl, (refl, (refl, (refl, (refl, tt))))));
  perms_fits = omega arith;
  perms_line = omega (arith, h);
  share_targets_plain = tt;
  share_targets_fits = omega arith;
  share_targets_line = omega (arith, h);
  links_plain = tt;
  links_fits = omega arith;
  exec_plain = cam_dst-Plain;
  exec_line = omega (arith, h);
}

not_installed : contents disk (manifest_path (manifests_dir phone) (codes "cam")) ≡ none
unfolding eqb
not_installed = refl

cam_no_downgrade :
    is_downgrade cam (parsed (contents disk (manifest_path (manifests_dir phone) cam.id))) ≡ false
unfolding is_downgrade
cam_no_downgrade = rw not_installed refl

binary_is : contents disk (in_dir 1300 work cam.exec) ≡ some binary
unfolding eqb
binary_is = refl

phone_installs : (install phone disk).0 ≡ true
phone_installs =
    (install-succeeds phone disk (contents disk) cam binary phone-IsFine refl phone_verifies
      cam_is_parsed refl refl cam_no_downgrade binary_is (cam-IsWritable 255 (omega arith))
      (λ g. refl) (λ g. refl) (λ g. refl)).0

abbrev or_else : Files → Option Files → Files
or_else f none = f
or_else f (some g) = g

unzipped : (f f' : Files) → phone.unzip f ≡ some f' → f' ≡ contents f
unzipped f f' e = sym (ap (or_else f) e)

unzip_elsewhere :
    (q : Bytes)
    → ((f : Files) → contents f q ≡ f q)
    → (f f' : Files) → phone.unzip f ≡ some f'
    → f' q ≡ f q
unzip_elsewhere q h f f' e = ap (λ g. g q) (unzipped f f' e) ∙ h f

x_elsewhere : (f : Files) → contents f (codes "/d/x") ≡ f (codes "/d/x")
unfolding eqb
x_elsewhere f = refl

install-IsGenuine_example : (f : Files) × (phone.unzip disk ≡ some f) × IsGenuine phone f
install-IsGenuine_example =
    install-IsGenuine phone disk (codes "/d/x") (λ b. octets 32)
      (unzip_elsewhere (codes "/d/x") x_elsewhere) (λ f. refl) (inl phone_installs)

abbrev package_of : Option Package → Package
package_of none = cam
package_of (some m) = m

-- The package is there with version 1.2.
abbrev older : Files
older = put disk (manifest_of (codes "/d") (codes "cam")) (codes "id=cam\nversion=1.2\n")

abbrev old_cam : Package
old_cam = record no_package { id = codes "cam"; version = codes "1.2" }
