-- ===== src/Installer/Manifests.antt =====
-- system/installer/main.c and system/zsysd/main.c: the runtime manifest that the installer writes, as the
-- installer and the broker read it.
use mathlib.Core.List.{append_assoc}
use zelto_os.Prelude.{
  ℕ, suc, ◌+◌, ◌-◌, ◌≤◌, ◌<◌, ◌≡◌, refl, sym, ap, ◌∙◌, Bool, true, false, not, ◌&&◌, List, [], ◌∷◌,
  ◌++◌, Option, none, some, arith, if◌then◌else◌, ◌==◌, All, All-append, length, length-append,
  take-eq_self,
}
use zelto_os.Text.{Bytes, codes, clip, lines_of, lines_from, chomp, is_eol, Free, split_at}
use zelto_os.Text.Lines.{Plain, Plain-Free, chomp-Plain, lines_from-line}
use zelto_os.Text.Search.{split_at-Free}
use zelto_os.Installer.{
  Package, no_package, manifest_set, is_skipped, manifest_pair, read_line, read_lines,
  parse_manifest, line, line_if, banner, runtime_manifest,
}
pub mod Own
pub mod Broker

-- Keys that a line can start with.
abbrev pub key_byte : ℕ → Bool
key_byte c = not (is_eol c) && not (c == b'=')

abbrev pub key_bytes : Bytes → Bool
key_bytes [] = true
key_bytes (c ∷ k) = key_byte c && key_bytes k

abbrev pub is_key : Bytes → Bool
is_key [] = false
is_key (c ∷ k) = not (c == b'#') && key_bytes (c ∷ k)

key_bytes-Plain : (k : Bytes) → key_bytes k ≡ true → Plain k × Free b'=' k
key_bytes-Plain [] h = (tt, tt)
key_bytes-Plain (c ∷ k) h =
    let r = key_bytes-Plain k (ground (arith, h)) in
    ((ground (arith, h), r.0), (ground (arith, h), r.1))

pub is_key-Plain : (k : Bytes) → is_key k ≡ true → Plain k × Free b'=' k
is_key-Plain [] h = absurd (ground (arith, h))
is_key-Plain (c ∷ k) h = key_bytes-Plain (c ∷ k) (ground (arith, h))

abbrev pub pair_text : Bytes → Bytes → Bytes
pair_text k v = k ++ b'=' ∷ v

pub pair_text-Plain : (k v : Bytes) → is_key k ≡ true → Plain v → Plain (pair_text k v)
pair_text-Plain k v h p =
    All-append (λ d. is_eol d ≡ false) k (b'=' ∷ v) (is_key-Plain k h).0 (refl, p)

-- A reader of lines that gives each pair to `set`.
module _ {M : Type 0} (room : ℕ) (set : M → Bytes → Bytes → M) (read : M → List Bytes → M) where
  abbrev pub Reads : Type 0
  Reads =
      (m : M) (k v : Bytes) (ls : List Bytes)
      → is_key k ≡ true
      → Plain v
      → read m ((pair_text k v ++ b'\n' ∷ []) ∷ ls) ≡ read (set m k v) ls

  abbrev pub set_if : M → Bytes → Bytes → M
  set_if m k [] = m
  set_if m k (c ∷ v) = set m k (c ∷ v)

  module _ (reads : Reads) where
    read-line :
        (m : M) (k v rest : Bytes)
        → is_key k ≡ true
        → Plain v
        → length k + length v + 1 < room
        → read m (lines_of room (line k v rest)) ≡ read (set m k v) (lines_of room rest)
    unfolding line lines_of
    read-line m k v rest h p l =
        let q = pair_text-Plain k v h p in
        ap (λ x. read m (lines_from room room x)) (sym (append_assoc k (b'=' ∷ v) (b'\n' ∷ rest)))
        ∙ ap (read m) (
            lines_from-line room room (pair_text k v) rest (Plain-Free (pair_text k v) q)
              (omega (arith, length-append k (b'=' ∷ v), l)))
        ∙ reads m k v (lines_from room room rest) h p

    read-line_if :
        (m : M) (k v rest : Bytes)
        → is_key k ≡ true
        → Plain v
        → length k + length v + 1 < room
        → read m (lines_of room (line_if k v rest)) ≡ read (set_if m k v) (lines_of room rest)
    unfolding line_if
    read-line_if m k [] rest h p l = refl
    read-line_if m k (c ∷ v) rest h p l = read-line m k (c ∷ v) rest h p l

-- A package and the path of its binary, of which every line fits a reader's buffer of room + 1 bytes.
pub record IsWritable (room : ℕ) (m : Package) (e : Bytes) : Type 0 where
  pub id_plain : Plain m.id
  pub id_fits : length m.id ≤ 95
  pub name_plain : Plain m.name
  pub name_fits : length m.name ≤ 63
  pub subtitle_plain : Plain m.subtitle
  pub subtitle_fits : length m.subtitle ≤ 95
  pub color_plain : Plain m.color
  pub color_fits : length m.color ≤ 15
  pub version_plain : Plain m.version
  pub version_fits : length m.version ≤ 31
  pub perms_plain : Plain m.perms
  pub perms_fits : length m.perms ≤ 255
  pub perms_line : length m.perms + 12 < room
  pub share_targets_plain : Plain m.share_targets
  pub share_targets_fits : length m.share_targets ≤ 255
  pub share_targets_line : length m.share_targets + 14 < room
  pub links_plain : Plain m.links
  pub links_fits : length m.links ≤ 127
  pub exec_plain : Plain e
  pub exec_line : length e + 5 < room

module _ {M : Type 0} (room : ℕ) (set : M → Bytes → Bytes → M) (read : M → List Bytes → M) where
  -- The pairs of the manifest, in their order.
  abbrev pub set_all : M → Package → Bytes → M
  set_all m0 m e =
      let put = set_if room set read in
      set
        (put
          (put
            (put
              (put
                (put
                  (put (put (set m0 (codes "id") m.id) (codes "name") m.name) (codes "subtitle")
                    m.subtitle)
                  (codes "color") m.color)
                (codes "version") m.version)
              (codes "permissions") m.perms)
            (codes "share_targets") m.share_targets)
          (codes "links") m.links)
        (codes "exec") e

  pub read-runtime_manifest :
      (reads : Reads room set read)
      (reads_banner : (m : M) (ls : List Bytes) → read m ((banner ++ b'\n' ∷ []) ∷ ls) ≡ read m ls)
      (m0 : M) (m : Package) (e : Bytes)
      → 127 + 7 < room
      → IsWritable room m e
      → read m0 (lines_of room (runtime_manifest m e)) ≡ read (set_all m0 m e) []
  unfolding runtime_manifest lines_of
  read-runtime_manifest reads reads_banner m0 m e r w =
      let go = read-line_if room set read reads in
      let t8 = line (codes "exec") e [] in
      let t7 = line_if (codes "links") m.links t8 in
      let t6 = line_if (codes "share_targets") m.share_targets t7 in
      let t5 = line_if (codes "permissions") m.perms t6 in
      let t4 = line_if (codes "version") m.version t5 in
      let t3 = line_if (codes "color") m.color t4 in
      let t2 = line_if (codes "subtitle") m.subtitle t3 in
      let t1 = line_if (codes "name") m.name t2 in
      let t0 = line (codes "id") m.id t1 in
      let free = Plain-Free banner (key_bytes-Plain banner refl).0 in
      ap (read m0) (lines_from-line room room banner t0 free (omega arith))
      ∙ reads_banner m0 (lines_of room t0)
      ∙ read-line room set read reads m0 (codes "id") m.id t1 refl w.id_plain
          (omega (arith, r, w.id_fits))
      ∙ go _ (codes "name") m.name t2 refl w.name_plain (omega (arith, r, w.name_fits))
      ∙ go _ (codes "subtitle") m.subtitle t3 refl w.subtitle_plain
          (omega (arith, r, w.subtitle_fits))
      ∙ go _ (codes "color") m.color t4 refl w.color_plain (omega (arith, r, w.color_fits))
      ∙ go _ (codes "version") m.version t5 refl w.version_plain (omega (arith, r, w.version_fits))
      ∙ go _ (codes "permissions") m.perms t6 refl w.perms_plain (omega (arith, w.perms_line))
      ∙ go _ (codes "share_targets") m.share_targets t7 refl w.share_targets_plain
          (omega (arith, w.share_targets_line))
      ∙ go _ (codes "links") m.links t8 refl w.links_plain (omega (arith, r, w.links_fits))
      ∙ read-line room set read reads _ (codes "exec") e [] refl w.exec_plain
          (omega (arith, w.exec_line))
