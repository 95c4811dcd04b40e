-- ===== src/Installer/Install/Sequence.antt =====
-- system/installer/main.c: installs one after the other.
use zelto_os.Prelude.{List, [], ◌∷◌, ◌++◌}
use zelto_os.Text.{Bytes, codes, clip}
use zelto_os.Installer.Verify.{Files}
use zelto_os.Installer.Install.{System, manifest_path, install}

abbrev pub manifest_of : Bytes → Bytes → Bytes
manifest_of d id = manifest_path (clip 1024 (d ++ codes "/apps/manifests")) id

-- One install after the other, each with its package, whether it succeeds or fails.
unfoldable pub installs : List System → Files → Files
unfolding install
installs [] files = files
installs (w ∷ ws) files = installs ws (install w files).1
