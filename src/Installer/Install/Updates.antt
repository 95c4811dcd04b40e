-- ===== src/Installer/Install/Updates.antt =====
-- system/installer/main.c: the version of an installed package over one install.
use zelto_os.Prelude.{
  ◌≤◌, ◌≡◌, ◌≢◌, refl, sym, ap, ◌∙◌, inl, inr, ◌⊎◌, Bool, true, false, ◌&&◌, ◌||◌, List, Option,
  none, some, arith, Bool-cases, length,
}
use zelto_os.Text.{Bytes, codes, eqb, eqb_iff, clip}
use zelto_os.Installer.{Package, parse_manifest, runtime_manifest}
use zelto_os.Installer.Manifests.{IsWritable}
use zelto_os.Installer.Manifests.Own.{parse_manifest-runtime_manifest}
use zelto_os.Number.{ℤ}
use zelto_os.Installer.Versions.{is_empty}
use zelto_os.Installer.Versions.Numbers.{numbers, version_cmp-numbers}
use zelto_os.Installer.Versions.Order.{is_before, is_before_trans}
use zelto_os.Installer.Verify.{Files, in_dir}
use zelto_os.Installer.Install.{
  System, mkdir_p, copy_file, write_runtime_manifest, manifest_path, manifests_dir, installed_dir,
  bin_dst, temp_path, parsed, is_downgrade, install_package, admit, verify, unpacked, install,
  register, with_assets, copied, verified,
}
use zelto_os.Installer.Install.Paths.{bin_ne_manifest, temp_ne_manifest}

-- The manifest at a path has an id, and a version not before the given one.
abbrev pub AtLeast : Bytes → List ℤ → Files → Type 0
AtLeast q xs files =
    (p : Package) × (parsed (files q) ≡ some p)
    × (is_empty p.id ≡ false)
    × (is_empty p.version ≡ false)
    × (is_before (numbers p.version) xs ≡ false)

same-AtLeast : (q : Bytes) (xs : List ℤ) (f g : Files) → g q ≡ f q → AtLeast q xs f → AtLeast q xs g
same-AtLeast q xs f g e (p, a, i, v, b) = (p, ap parsed e ∙ a, i, v, b)

pub eqb_ne : (a b : Bytes) → a ≢ b → eqb a b ≡ false
eqb_ne a b h = ground (arith, h, eqb_iff a b)

copy_file-other :
    (w : System) (files : Files) (src dst q : Bytes)
    → eqb dst q ≡ false
    → (copy_file w files src dst).1 q ≡ files q
unfolding copy_file
copy_file-other w files src dst q h = ground (arith, h)

write-other :
    (w : System) (files : Files) (dir : Bytes) (m : Package) (e q : Bytes)
    → eqb (temp_path dir m.id) q ≡ false
    → ((write_runtime_manifest w files dir m e).1 q ≡ files q)
      ⊎ ((eqb (manifest_path dir m.id) q ≡ true)
          × ((write_runtime_manifest w files dir m e).1 q ≡ some (w.taken (runtime_manifest m e))))
unfolding write_runtime_manifest
write-other w files dir m e q h = elim (Bool-cases (eqb (manifest_path dir m.id) q)) [
  | inl t ↦ elim (Bool-cases (w.opens (temp_path dir m.id) && w.renames)) [
    | inl o ↦ inr (t, ground (arith, h, t, o))
    | inr o ↦ inl (ground (arith, h, t, o))
  ]
  | inr t ↦ inl (ground (arith, h, t))
]

-- What main needs of the world outside for the path of the manifest of `id`: that path is left alone by
-- unzip, by the copy of the assets and by the removal of the work directory, the disk takes the whole
-- manifest, and each package that is unpacked has a version, and fields with no end of line that fit.
pub record IsOrderly (d id : Bytes) (w : System) : Type 0 where
  pub dir : w.data_dir ≡ d
  pub unzip_keeps :
      (f f' : Files)
      → w.unzip f ≡ some f'
      → f' (manifest_path (manifests_dir w) id) ≡ f (manifest_path (manifests_dir w) id)
  pub assets_keep :
      (f : Files)
      → w.copy_assets f (manifest_path (manifests_dir w) id)
        ≡ f (manifest_path (manifests_dir w) id)
  pub remove_keeps :
      (f : Files)
      → w.remove f (manifest_path (manifests_dir w) id) ≡ f (manifest_path (manifests_dir w) id)
  pub takes_all : (text : Bytes) → w.taken text ≡ text
  pub published :
      (f f' : Files) (m : Package)
      → w.unzip f ≡ some f'
      → parsed (f' (in_dir 1024 w.workdir (codes "zelto.toml"))) ≡ some m
      → IsWritable 511 m (bin_dst w m) × (is_empty m.version ≡ false)

module _ (w : System) (id : Bytes) (hd : length w.data_dir ≤ 900) (hi : length id ≤ 95)
    (xs : List ℤ) (o : IsOrderly w.data_dir id w) where
  abbrev q : Bytes
  q = manifest_path (manifests_dir w) id

  module _ (m : Package) (k : IsWritable 511 m (bin_dst w m)) (v : is_empty m.version ≡ false)
      (mid : is_empty m.id ≡ false) where
    bin_other : eqb (bin_dst w m) q ≡ false
    bin_other = eqb_ne (bin_dst w m) q (bin_ne_manifest w.data_dir m.id m.exec id hd k.id_fits)

    temp_other : eqb (temp_path (manifests_dir w) m.id) q ≡ false
    temp_other =
        eqb_ne (temp_path (manifests_dir w) m.id) q
          (temp_ne_manifest w.data_dir m.id id hd k.id_fits hi)

    -- What the installed manifest reads as.
    reads_as :
        parsed (some (w.taken (runtime_manifest m (bin_dst w m))))
        ≡ some (record m { exec = clip 256 (bin_dst w m) })
    reads_as =
        ap (λ t. some (parse_manifest t)) (o.takes_all (runtime_manifest m (bin_dst w m)))
        ∙ ap some (parse_manifest-runtime_manifest m (bin_dst w m) k)

    abbrev IsNewer : Type 0
    IsNewer =
        eqb (manifest_path (manifests_dir w) m.id) q ≡ true
        → is_before (numbers m.version) xs ≡ false

    write-AtLeast :
        (files : Files)
        → AtLeast q xs files
        → IsNewer
        → AtLeast q xs (write_runtime_manifest w files (manifests_dir w) m (bin_dst w m)).1
    write-AtLeast files a newer =
        elim (write-other w files (manifests_dir w) m (bin_dst w m) q temp_other) [
          | inl e ↦
              same-AtLeast q xs files
                (write_runtime_manifest w files (manifests_dir w) m (bin_dst w m)).1 e a
          | inr (t, e) ↦
              (record m { exec = clip 256 (bin_dst w m) }, ap parsed e ∙ reads_as, mid, v, newer t)
        ]

    register-AtLeast :
        (files : Files) → AtLeast q xs files → IsNewer → AtLeast q xs (register w m files).1
    register-AtLeast files a newer = elim (Bool-cases (mkdir_p w.makes (manifests_dir w))) [
      | inl e ↦ rw e (write-AtLeast files a newer)
      | inr e ↦ rw e a
    ]

    assets-AtLeast : (files : Files) → AtLeast q xs files → AtLeast q xs (with_assets w files)
    assets-AtLeast files a = elim (Bool-cases w.has_assets) [
      | inl e ↦ rw e (same-AtLeast q xs files (w.copy_assets files) (o.assets_keep files) a)
      | inr e ↦ rw e a
    ]

    copied-AtLeast : (r : Bool × Files) → AtLeast q xs r.1 → IsNewer → AtLeast q xs (copied w m r).1
    copied-AtLeast (true, files) a newer =
        register-AtLeast (with_assets w files) (assets-AtLeast files a) newer
    copied-AtLeast (false, files) a newer = a

    install_package-AtLeast :
        (files : Files) → AtLeast q xs files → IsNewer → AtLeast q xs (install_package w m files).1
    install_package-AtLeast files a newer =
        let copy = copy_file w files (in_dir 1300 w.workdir m.exec) (bin_dst w m) in
        elim (Bool-cases (mkdir_p w.makes (installed_dir w m.id))) [
          | inl e ↦ rw e (
              copied-AtLeast copy
                (same-AtLeast q xs files copy.1
                  (copy_file-other w files (in_dir 1300 w.workdir m.exec) (bin_dst w m) q bin_other)
                  a)
                newer)
          | inr e ↦ rw e a
        ]

  -- The update rule, at the path of the package.
  not_downgrade :
      (m p : Package)
      → is_empty m.version ≡ false
      → is_empty p.id ≡ false
      → is_empty p.version ≡ false
      → is_downgrade m (some p) ≡ false
      → is_before (numbers m.version) (numbers p.version) ≡ false
  unfolding is_downgrade
  not_downgrade m p mv pi pv h =
      let e = (version_cmp-numbers m.version p.version).0 in rw (mv, pi, pv, e) at h

  newer :
      (files : Files) (m : Package)
      → AtLeast q xs files
      → is_empty m.version ≡ false
      → is_downgrade m (parsed (files (manifest_path (manifests_dir w) m.id))) ≡ false
      → eqb (manifest_path (manifests_dir w) m.id) q ≡ true
      → is_before (numbers m.version) xs ≡ false
  newer files m (p, there, pi, pv, pb) mv t e =
      let path = (eqb_iff (manifest_path (manifests_dir w) m.id) q).0 e in
      let old = ap (λ x. parsed (files x)) path ∙ there in
      is_before_trans xs (numbers p.version) (numbers m.version) pb
        (not_downgrade m p mv pi pv (sym (ap (is_downgrade m) old) ∙ t))

  admit-AtLeast :
      (files : Files) (p : Option Package)
      → ((m : Package) → p ≡ some m → IsWritable 511 m (bin_dst w m) × (is_empty m.version ≡ false))
      → AtLeast q xs files
      → AtLeast q xs (admit w files p).1
  unfolding admit
  admit-AtLeast files none h a = a
  admit-AtLeast files (some m) h a = elim (Bool-cases (is_empty m.id || is_empty m.exec)) [
    | inl e ↦ rw e a
    | inr e ↦
        elim (Bool-cases (is_downgrade m (parsed (files (manifest_path (manifests_dir w) m.id))))) [
          | inl t ↦ rw (e, t) a
          | inr t ↦
              rw (e, t)
                (install_package-AtLeast m (h m refl).0 (h m refl).1 (ground (arith, e)) files a
                  (newer files m a (h m refl).1 t))
        ]
  ]

  verified-AtLeast :
      (files f : Files)
      → w.unzip files ≡ some f
      → AtLeast q xs files
      → AtLeast q xs (verified w f).1
  verified-AtLeast files f e a = elim (Bool-cases (verify w f)) [
    | inl v ↦ rw v (
        admit-AtLeast f (parsed (f (in_dir 1024 w.workdir (codes "zelto.toml"))))
          (λ m h. o.published files f m e h)
          (same-AtLeast q xs files f (o.unzip_keeps files f e) a))
    | inr v ↦ rw v (same-AtLeast q xs files f (o.unzip_keeps files f e) a)
  ]

  unpacked-AtLeast :
      (files : Files) (u : Option Files)
      → w.unzip files ≡ u
      → AtLeast q xs files
      → AtLeast q xs (unpacked w files u).1
  unpacked-AtLeast files none e a = a
  unpacked-AtLeast files (some f) e a = verified-AtLeast files f e a

  pub install-AtLeast : (files : Files) → AtLeast q xs files → AtLeast q xs (install w files).1
  unfolding install
  install-AtLeast files a =
      let g = (unpacked w files (w.unzip files)).1 in
      same-AtLeast q xs g (w.remove g) (o.remove_keeps g)
        (unpacked-AtLeast files (w.unzip files) refl a)
