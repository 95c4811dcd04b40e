-- ===== src/Installer/Install/Succeeds.antt =====
-- system/installer/main.c and system/zsysd/main.c: an install that meets no failure.
use zelto_os.Prelude.{
  ◌≤◌, ◌≡◌, refl, sym, ap, ◌∙◌, Bool, true, false, [], ◌∷◌, ◌++◌, none, some, arith, if◌then◌else◌,
  Bool-cases, length, take,
}
use zelto_os.Text.{Bytes, codes, eqb_refl, clip}
use zelto_os.Zsysd.Manifests as Broker
use zelto_os.Installer.{Package, runtime_manifest}
use zelto_os.Installer.Versions.{is_empty}
use zelto_os.Installer.Verify.{Files, in_dir}
use zelto_os.Installer.Manifests.{IsWritable}
use zelto_os.Installer.Install.{
  System, mkdir_from, mkdir_p, copy_file, write_runtime_manifest, manifest_path, manifests_dir,
  installed_dir, bin_dst, temp_path, parsed, is_downgrade, install_package, admit, verify, unpacked,
  install, register, with_assets, copied, put, gone,
}
use zelto_os.Installer.Manifests.Broker.{broker-runtime_manifest}
use zelto_os.Installer.Install.Updates.{eqb_ne}
use zelto_os.Installer.Install.Paths.{bin_ne_manifest, temp_ne_manifest, bin_ne_temp}

-- A disk on which nothing fails, under a data directory whose path has up to 900 bytes.
pub record IsFine (w : System) : Type 0 where
  pub dir : length w.data_dir ≤ 900
  pub makes : (p : Bytes) → w.makes p ≡ true
  pub opens : (p : Bytes) → w.opens p ≡ true
  pub copies : (p : Bytes) → w.fails_at p ≡ none
  pub takes_all : (text : Bytes) → w.taken text ≡ text
  pub renames : w.renames ≡ true

mkdir_from-true :
    (makes : Bytes → Bool) (done s : Bytes)
    → ((p : Bytes) → makes p ≡ true)
    → mkdir_from makes done s ≡ true
unfolding mkdir_from
mkdir_from-true makes done [] h = h done
mkdir_from-true makes done (c ∷ s) h =
    ground (arith, h done, mkdir_from-true makes (done ++ c ∷ []) s h)

mkdir_p-true :
    (makes : Bytes → Bool) (path : Bytes)
    → ((p : Bytes) → makes p ≡ true)
    → mkdir_p makes path ≡ true
unfolding mkdir_p
mkdir_p-true makes [] h = h []
mkdir_p-true makes (c ∷ s) h = mkdir_from-true makes (c ∷ []) (take 1022 s) h

module _ (w : System) (fine : IsFine w) (m : Package) where
  copy_file-fine :
      (f : Files) (src dst bin : Bytes)
      → f src ≡ some bin
      → copy_file w f src dst ≡ (true, put f dst bin)
  unfolding copy_file
  copy_file-fine f src dst bin h = rw (h, fine.opens dst, fine.copies dst) refl

  abbrev registered : Files → Files
  registered g =
      let text = runtime_manifest m (bin_dst w m) in
      gone (put g (manifest_path (manifests_dir w) m.id) text) (temp_path (manifests_dir w) m.id)

  register-fine : (g : Files) → register w m g ≡ (true, registered g)
  unfolding write_runtime_manifest
  register-fine g =
      rw
        (
          mkdir_p-true w.makes (manifests_dir w) fine.makes,
          fine.opens (temp_path (manifests_dir w) m.id),
          fine.renames,
          fine.takes_all (runtime_manifest m (bin_dst w m)),
        )
        refl

  copied-fine : (g : Files) → copied w m (true, g) ≡ (true, registered (with_assets w g))
  copied-fine g = register-fine (with_assets w g)

  install_package-fine :
      (f : Files) (bin : Bytes)
      → f (in_dir 1300 w.workdir m.exec) ≡ some bin
      → install_package w m f ≡ (true, registered (with_assets w (put f (bin_dst w m) bin)))
  install_package-fine f bin h =
      ap
        (λ b.
          if b
          then copied w m (copy_file w f (in_dir 1300 w.workdir m.exec) (bin_dst w m))
          else (false, f))
        (mkdir_p-true w.makes (installed_dir w m.id) fine.makes)
      ∙ ap (copied w m) (copy_file-fine f (in_dir 1300 w.workdir m.exec) (bin_dst w m) bin h)
      ∙ copied-fine (put f (bin_dst w m) bin)

  admit-fine :
      (f : Files) (bin : Bytes)
      → is_empty m.id ≡ false
      → is_empty m.exec ≡ false
      → is_downgrade m (parsed (f (manifest_path (manifests_dir w) m.id))) ≡ false
      → f (in_dir 1300 w.workdir m.exec) ≡ some bin
      → admit w f (some m) ≡ (true, registered (with_assets w (put f (bin_dst w m) bin)))
  unfolding admit
  admit-fine f bin hi he hd hb = rw (hi, he, hd) (install_package-fine f bin hb)

  registered-manifest :
      (g : Files)
      → length m.id ≤ 95
      → registered g (manifest_path (manifests_dir w) m.id)
        ≡ some (runtime_manifest m (bin_dst w m))
  registered-manifest g l =
      let q = manifest_path (manifests_dir w) m.id in
      let other =
        eqb_ne (temp_path (manifests_dir w) m.id) q
          (temp_ne_manifest w.data_dir m.id m.id fine.dir l l) in
      ground (arith, other, eqb_refl q)

  registered-binary :
      (g : Files) (bin : Bytes)
      → length m.id ≤ 95
      → g (bin_dst w m) ≡ some bin
      → registered g (bin_dst w m) ≡ some bin
  registered-binary g bin l h =
      let b = bin_dst w m in
      let t =
        eqb_ne (temp_path (manifests_dir w) m.id) b
          (λ e. bin_ne_temp w.data_dir m.id m.exec m.id fine.dir l (sym e)) in
      let q =
        eqb_ne (manifest_path (manifests_dir w) m.id) b
          (λ e. bin_ne_manifest w.data_dir m.id m.exec m.id fine.dir l (sym e)) in
      ground (arith, t, q, h)

  with_assets-binary :
      (f : Files) (bin : Bytes)
      → ((g : Files) → w.copy_assets g (bin_dst w m) ≡ g (bin_dst w m))
      → with_assets w (put f (bin_dst w m) bin) (bin_dst w m) ≡ some bin
  with_assets-binary f bin keeps =
      ground
        (arith, keeps (put f (bin_dst w m) bin), eqb_refl (bin_dst w m), Bool-cases w.has_assets)

pub install-succeeds :
    (w : System) (files f : Files) (m : Package) (bin : Bytes)
    → IsFine w
    → w.unzip files ≡ some f
    → verify w f ≡ true
    → parsed (f (in_dir 1024 w.workdir (codes "zelto.toml"))) ≡ some m
    → is_empty m.id ≡ false
    → is_empty m.exec ≡ false
    → is_downgrade m (parsed (f (manifest_path (manifests_dir w) m.id))) ≡ false
    → f (in_dir 1300 w.workdir m.exec) ≡ some bin
    → IsWritable 255 m (bin_dst w m)
    → ((g : Files) → w.copy_assets g (bin_dst w m) ≡ g (bin_dst w m))
    → ((g : Files) → w.remove g (bin_dst w m) ≡ g (bin_dst w m))
    → ((g : Files)
        → w.remove g (manifest_path (manifests_dir w) m.id)
          ≡ g (manifest_path (manifests_dir w) m.id))
    → ((install w files).0 ≡ true)
      × ((install w files).1 (bin_dst w m) ≡ some bin)
      × ((text : Bytes) × ((install w files).1 (manifest_path (manifests_dir w) m.id) ≡ some text)
          × (Broker.parse_manifest text ≡ record {
            id = m.id;
            perms = m.perms;
            share_targets = m.share_targets;
            links = m.links;
            exec = clip 160 (bin_dst w m);
          }))
unfolding install
install-succeeds w files f m bin fine hu hv ht hi he hd hb k assets keeps_bin keeps_man =
    let f' = with_assets w (put f (bin_dst w m) bin) in
    let g = registered w fine m f' in
    let r : unpacked w files (w.unzip files) ≡ (true, g) =
      ap (unpacked w files) hu
      ∙ ap
          (λ b.
            if b
            then admit w f (parsed (f (in_dir 1024 w.workdir (codes "zelto.toml"))))
            else (false, f))
          hv
      ∙ ap (admit w f) ht
      ∙ admit-fine w fine m f bin hi he hd hb in
    (
      ap (λ x. x.0) r,
      ap (λ x. w.remove x.1 (bin_dst w m)) r
          ∙ keeps_bin g
          ∙ registered-binary w fine m f' bin k.id_fits (with_assets-binary w fine m f bin assets),
      (
        runtime_manifest m (bin_dst w m),
        ap (λ x. w.remove x.1 (manifest_path (manifests_dir w) m.id)) r
            ∙ keeps_man g
            ∙ registered-manifest w fine m f' k.id_fits,
        broker-runtime_manifest m (bin_dst w m) k,
      ),
    )
