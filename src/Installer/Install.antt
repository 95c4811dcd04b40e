-- ===== src/Installer/Install.antt =====
-- system/installer/main.c: mkdir_p, copy_file, write_runtime_manifest and main. The processes and the
-- disk outside are parameters of the record System; directories are not modelled but for whether mkdir
-- succeeds.
use zelto_os.Prelude.{
  ℕ, ◌+◌, ◌-◌, Bool, true, false, not, ◌&&◌, ◌||◌, List, [], ◌∷◌, ◌++◌, Option, none, some,
  if◌then◌else◌, ◌==◌, take,
}
use zelto_os.Text.{Bytes, codes, eqb, clip}
use zelto_os.Number.{ℤ, pos, ltb_ℤ}
use zelto_os.Installer.{Package, parse_manifest, runtime_manifest, base_name}
use zelto_os.Installer.Versions.{version_cmp, is_empty}
use zelto_os.Installer.Verify.{Files, verify_signature, verify_hashes, in_dir}
pub mod Safe
pub mod Paths
pub mod Updates
pub mod Sequence
pub mod Succeeds

pub record System : Type 0 where
  -- $ZELTO_DATA_DIR
  pub data_dir : Bytes
  -- the directory that mkdtemp makes
  pub workdir : Bytes
  -- unzip into it; none where it fails
  pub unzip : Files → Option Files
  pub hash : Bytes → Bytes
  pub verify_detached : Bytes → Bytes → Bytes → Bool
  -- mkdir(path) succeeds, or the directory is there
  pub makes : Bytes → Bool
  -- a file can be opened for writing
  pub opens : Bytes → Bool
  -- a copy to the path fails behind so many bytes
  pub fails_at : Bytes → Option ℕ
  -- what of a text the disk takes; the stdio errors are ignored
  pub taken : Bytes → Bytes
  pub has_assets : Bool
  -- cp -a of the assets
  pub copy_assets : Files → Files
  pub renames : Bool
  -- rm -rf of the work directory
  pub remove : Files → Files

abbrev pub put : Files → Bytes → Bytes → Files
put files path content = λ q. if eqb path q then some content else files q

-- Every directory on the way, and the path.
unfoldable pub mkdir_from : (Bytes → Bool) → Bytes → Bytes → Bool
mkdir_from makes done [] = makes done
mkdir_from makes done (c ∷ s) =
    let rest = mkdir_from makes (done ++ c ∷ []) s in
    if c == b'/' && not (makes done) then false else rest

abbrev pub mkdir_walk : (Bytes → Bool) → Bytes → Bool
mkdir_walk makes [] = makes []
mkdir_walk makes (c ∷ s) = mkdir_from makes (c ∷ []) s

unfoldable pub mkdir_p : (Bytes → Bool) → Bytes → Bool
unfolding mkdir_from
mkdir_p makes path = mkdir_walk makes (clip 1024 path)

-- The destination is emptied before the first byte is copied.
abbrev pub copy_content : Files → Bytes → Option ℕ → Bytes → Bool × Files
copy_content files dst none content = (true, put files dst content)
copy_content files dst (some n) content = (false, put files dst (take n content))

abbrev pub copy_opened : System → Files → Bytes → Option Bytes → Bool × Files
copy_opened w files dst none = (false, files)
copy_opened w files dst (some content) =
    if w.opens dst then copy_content files dst (w.fails_at dst) content else (false, files)

unfoldable pub copy_file : System → Files → Bytes → Bytes → Bool × Files
copy_file w files src dst = copy_opened w files dst (files src)

abbrev pub manifest_path : Bytes → Bytes → Bytes
manifest_path manifests_dir id = clip 1200 (manifests_dir ++ b'/' ∷ (id ++ codes ".app"))

abbrev pub temp_path : Bytes → Bytes → Bytes
temp_path manifests_dir id = clip 1300 (manifests_dir ++ b'/' ∷ (id ++ codes ".app.tmp"))

abbrev pub gone : Files → Bytes → Files
gone files path = λ q. if eqb path q then none else files q

unfoldable pub write_runtime_manifest : System → Files → Bytes → Package → Bytes → Bool × Files
unfolding runtime_manifest
write_runtime_manifest w files manifests_dir m installed_exec =
    let tmp = temp_path manifests_dir m.id in
    let target = manifest_path manifests_dir m.id in
    let text = w.taken (runtime_manifest m installed_exec) in
    if not (w.opens tmp)
    then (false, files)
    else if not w.renames
    then (false, put files tmp text)
    else (true, gone (put files target text) tmp)

-- parse_manifest(path), and the manifest that it fills.
abbrev pub parsed : Option Bytes → Option Package
parsed none = none
parsed (some content) = some (parse_manifest content)

-- version_cmp(a, b) < 0
abbrev pub is_less : Option ℤ → Bool
is_less none = false
is_less (some z) = ltb_ℤ z (pos 0)

-- The update rule, for what is installed under the id.
unfoldable pub is_downgrade : Package → Option Package → Bool
is_downgrade m none = false
is_downgrade m (some old) =
    not (is_empty old.id)
    && (not (is_empty m.version)
        && (not (is_empty old.version) && is_less (version_cmp m.version old.version)))

abbrev pub manifests_dir : System → Bytes
manifests_dir w = clip 1024 (w.data_dir ++ codes "/apps/manifests")

abbrev pub installed_dir : System → Bytes → Bytes
installed_dir w id = clip 1024 (w.data_dir ++ (codes "/installed/" ++ id))

abbrev pub bin_dst : System → Package → Bytes
bin_dst w m = in_dir 1400 (installed_dir w m.id) (base_name m.exec)

-- Step 6, and what zsysd is told.
abbrev pub register : System → Package → Files → Bool × Files
register w m files =
    if mkdir_p w.makes (manifests_dir w)
    then write_runtime_manifest w files (manifests_dir w) m (bin_dst w m)
    else (false, files)

abbrev pub with_assets : System → Files → Files
with_assets w files = if w.has_assets then w.copy_assets files else files

-- Step 5, and the rest.
abbrev pub copied : System → Package → Bool × Files → Bool × Files
copied w m (true, files) = register w m (with_assets w files)
copied w m (false, files) = (false, files)

abbrev pub install_package : System → Package → Files → Bool × Files
install_package w m files =
    if mkdir_p w.makes (installed_dir w m.id)
    then copied w m (copy_file w files (in_dir 1300 w.workdir m.exec) (bin_dst w m))
    else (false, files)

-- Step 4 and the update rule.
unfoldable pub admit : System → Files → Option Package → Bool × Files
unfolding is_downgrade parse_manifest mkdir_p copy_file write_runtime_manifest
admit w files none = (false, files)
admit w files (some m) =
    if is_empty m.id || is_empty m.exec
    then (false, files)
    else if is_downgrade m (parsed (files (manifest_path (manifests_dir w) m.id)))
    then (false, files)
    else install_package w m files

abbrev pub verify : System → Files → Bool
verify w files =
    verify_signature w.verify_detached files w.workdir && verify_hashes w.hash files w.workdir

abbrev pub verified : System → Files → Bool × Files
verified w files =
    if verify w files
    then admit w files (parsed (files (in_dir 1024 w.workdir (codes "zelto.toml"))))
    else (false, files)

abbrev pub unpacked : System → Files → Option Files → Bool × Files
unpacked w files none = (false, files)
unpacked w files (some files') = verified w files'

-- The package is unpacked, and whatever happens then the work directory is removed. The result is whether
-- main returns 0, and the files.
unfoldable pub install : System → Files → Bool × Files
unfolding admit verify_signature verify_hashes parse_manifest
install w files = let (ok, files') = unpacked w files (w.unzip files) in (ok, w.remove files')
