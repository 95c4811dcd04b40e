-- ===== src/Zsysd/Manifests.antt =====
-- system/zsysd/main.c, the manifest table: scan_manifest_dir, load_manifests, manifest_declares and
-- manifest_by_id. A file is read line by line into a buffer of 256 bytes, as fgets does.
use zelto_os.Prelude.{
  ◌-◌, Bool, false, not, ◌&&◌, List, [], ◌∷◌, ◌++◌, Option, none, some, if◌then◌else◌, ◌==◌, ltb,
  length, drop,
}
use zelto_os.Prelude.Slots.{find?}
use zelto_os.Text.{Bytes, codes, eqb, clip, chomp, split_at, lines_of}
use zelto_os.Zsysd.Csv.{csv_contains}
use zelto_os.Zsysd.State.{Manifest, DirEntry, max_manifests}

abbrev pub no_manifest : Manifest
no_manifest = record { id = []; perms = []; share_targets = []; links = []; exec = [] }

-- The chain of strcmp on the key of a line.
unfoldable pub set_key : Manifest → Bytes → Bytes → Manifest
set_key m k v =
    if eqb k (codes "id")
    then record m { id = clip 96 v }
    else if eqb k (codes "permissions")
    then record m { perms = clip 256 v }
    else if eqb k (codes "share_targets")
    then record m { share_targets = clip 256 v }
    else if eqb k (codes "links")
    then record m { links = clip 128 v }
    else if eqb k (codes "exec")
    then record m { exec = clip 160 v }
    else m

abbrev pub is_comment : Bytes → Bool
is_comment [] = false
is_comment (c ∷ s) = c == b'#'

unfoldable pub set_pair : Manifest → Option (Bytes × Bytes) → Manifest
unfolding set_key
set_pair m none = m
set_pair m (some (k, v)) = set_key m k v

-- One line: comments and lines with no '=' are skipped.
unfoldable pub read_line : Manifest → Bytes → Manifest
unfolding set_pair chomp split_at
read_line m raw =
    let line = chomp raw in if is_comment line then m else set_pair m (split_at b'=' line)

unfoldable pub read_lines : Manifest → List Bytes → Manifest
unfolding read_line
read_lines m [] = m
read_lines m (l ∷ ls) = read_lines (read_line m l) ls

unfoldable pub parse_manifest : Bytes → Manifest
unfolding read_lines lines_of
parse_manifest content = read_lines no_manifest (lines_of 255 content)

-- At least five bytes, the last four ".app".
pub is_app_file : Bytes → Bool
unfolding eqb
is_app_file name = not (ltb (length name) 5) && eqb (drop (length name - 4) name) (codes ".app")

abbrev pub append_manifest : List Manifest → Manifest → Bytes → List Manifest
append_manifest ms m [] = ms
append_manifest ms m (c ∷ s) = ms ++ (m ∷ [])

-- What one directory entry adds to the table.
pub scan_entry : List Manifest → DirEntry → Option Bytes → List Manifest
unfolding parse_manifest is_app_file
scan_entry ms e none = ms
scan_entry ms e (some content) =
    let m = parse_manifest content in if is_app_file e.name then append_manifest ms m m.id else ms

-- The loop over readdir, which stops when the table is full.
pub scan_entries : List Manifest → List DirEntry → List Manifest
unfolding scan_entry
scan_entries ms [] = ms
scan_entries ms (e ∷ es) =
    scan_entries (if ltb (length ms) max_manifests then scan_entry ms e e.content else ms) es

pub scan_manifest_dir : List Manifest → Option (List DirEntry) → List Manifest
unfolding scan_entries
scan_manifest_dir ms none = ms
scan_manifest_dir ms (some es) = scan_entries ms es

-- Rebuild the table from both directories.
unfoldable pub load_manifests : Option (List DirEntry) → Option (List DirEntry) → List Manifest
unfolding scan_manifest_dir
load_manifests baked runtime = scan_manifest_dir (scan_manifest_dir [] baked) runtime

unfoldable pub manifest_by_id : List Manifest → Bytes → Option Manifest
unfolding eqb
manifest_by_id ms app_id = find? (λ m. eqb m.id app_id) ms

unfoldable pub declares : Option Manifest → Bytes → Bool
unfolding csv_contains
declares none perm = false
declares (some m) perm = csv_contains m.perms perm

unfoldable pub manifest_declares : List Manifest → Bytes → Bytes → Bool
unfolding manifest_by_id declares
manifest_declares ms app_id perm = declares (manifest_by_id ms app_id) perm
