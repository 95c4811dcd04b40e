-- ===== src/Installer.antt =====
-- system/installer/main.c, the package installer: its manifest (zelto.toml, and the runtime manifest
-- that it writes for the broker). Versions, Verify and Install have the rest of the file.
use zelto_os.Prelude.{
  Bool, true, false, ◌||◌, List, [], ◌∷◌, ◌++◌, Option, none, some, if◌then◌else◌, ◌==◌,
}
use zelto_os.Text.{Bytes, codes, eqb, clip, chomp, split_at, lines_of}
pub mod Manifests
pub mod Versions
pub mod Verify
pub mod Install

pub record Package : Type 0 where
  pub id : Bytes
  pub name : Bytes
  pub subtitle : Bytes
  pub color : Bytes
  pub version : Bytes
  pub perms : Bytes
  pub share_targets : Bytes
  pub links : Bytes
  -- in the package, or installed
  pub exec : Bytes

abbrev pub no_package : Package
no_package = record {
  id = [];
  name = [];
  subtitle = [];
  color = [];
  version = [];
  perms = [];
  share_targets = [];
  links = [];
  exec = [];
}

unfoldable pub manifest_set : Package → Bytes → Bytes → Package
unfolding eqb
manifest_set m k v =
    if eqb k (codes "id")
    then record m { id = clip 96 v }
    else if eqb k (codes "name")
    then record m { name = clip 64 v }
    else if eqb k (codes "subtitle")
    then record m { subtitle = clip 96 v }
    else if eqb k (codes "color")
    then record m { color = clip 16 v }
    else if eqb k (codes "version")
    then record m { version = clip 32 v }
    else if eqb k (codes "permissions")
    then record m { perms = clip 256 v }
    else if eqb k (codes "share_targets")
    then record m { share_targets = clip 256 v }
    else if eqb k (codes "links")
    then record m { links = clip 128 v }
    else if eqb k (codes "exec")
    then record m { exec = clip 256 v }
    else m

-- Comments and empty lines.
abbrev pub is_skipped : Bytes → Bool
is_skipped [] = true
is_skipped (c ∷ s) = c == b'#'

abbrev pub manifest_pair : Package → Option (Bytes × Bytes) → Package
manifest_pair m none = m
manifest_pair m (some (k, v)) = manifest_set m k v

unfoldable pub read_line : Package → Bytes → Package
unfolding manifest_set chomp split_at
read_line m raw =
    let line = chomp raw in if is_skipped line then m else manifest_pair m (split_at b'=' line)

unfoldable pub read_lines : Package → List Bytes → Package
unfolding read_line
read_lines m [] = m
read_lines m (l ∷ ls) = read_lines (read_line m l) ls

-- A file that opens, with what it holds.
unfoldable pub parse_manifest : Bytes → Package
unfolding read_lines lines_of
parse_manifest content = read_lines no_package (lines_of 511 content)

unfoldable pub line : Bytes → Bytes → Bytes → Bytes
line k v rest = k ++ b'=' ∷ (v ++ b'\n' ∷ rest)

-- if (v[0]) fprintf(f, "k=%s\n", v);
unfoldable pub line_if : Bytes → Bytes → Bytes → Bytes
unfolding line
line_if k [] rest = rest
line_if k (c ∷ v) rest = line k (c ∷ v) rest

abbrev pub banner : Bytes
banner = codes "# Installed at runtime by zelto-install from a signed .zap."

-- The text of the runtime manifest.
unfoldable pub runtime_manifest : Package → Bytes → Bytes
unfolding line line_if
runtime_manifest m installed_exec =
    banner
    ++ b'\n'
      ∷ line (codes "id") m.id (
          line_if (codes "name") m.name (
            line_if (codes "subtitle") m.subtitle (
              line_if (codes "color") m.color (
                line_if (codes "version") m.version (
                  line_if (codes "permissions") m.perms (
                    line_if (codes "share_targets") m.share_targets (
                      line_if (codes "links") m.links (line (codes "exec") installed_exec []))))))))

-- strrchr(path, '/') + 1, or the whole path.
unfoldable pub base_from : Bytes → Bytes → Bytes
base_from best [] = best
base_from best (c ∷ s) = base_from (if c == b'/' then s else best) s

unfoldable pub base_name : Bytes → Bytes
unfolding base_from
base_name path = base_from path path
