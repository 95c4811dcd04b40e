-- ===== src/Installer/Manifests/Broker.antt =====
-- system/installer/main.c and system/zsysd/main.c: the runtime manifest as scan_manifest_dir reads it.
use zelto_os.Prelude.{
  ◌≤◌, ◌≡◌, refl, ap, ◌∙◌, true, false, List, [], ◌∷◌, ◌++◌, arith, length, take-eq_self,
}
use zelto_os.Text.{Bytes, codes, eqb, clip, chomp, trim_end, cons_end}
use zelto_os.Text.Lines.{Plain, chomp-Plain}
use zelto_os.Text.Search.{split_at-Free}
use zelto_os.Zsysd.State.{Manifest}
use zelto_os.Zsysd.Manifests.{
  no_manifest, set_key, is_comment, set_pair, read_line, read_lines, parse_manifest,
}
use zelto_os.Installer.{Package, banner, runtime_manifest}
use zelto_os.Installer.Manifests.{
  is_key, is_key-Plain, pair_text, pair_text-Plain, Reads, set_if, set_all, read-runtime_manifest,
  IsWritable,
}

is_comment-key : (k s : Bytes) → is_key k ≡ true → is_comment (k ++ s) ≡ false
is_comment-key [] s h = absurd (ground (arith, h))
is_comment-key (c ∷ k) s h = ground (arith, h)

reads : Reads 255 set_key read_lines
unfolding read_lines
reads m k v ls h p = ap (λ x. read_lines x ls) (pair m k v h p)
  where
    pair :
        (m : Manifest) (k v : Bytes)
        → is_key k ≡ true
        → Plain v
        → read_line m (pair_text k v ++ b'\n' ∷ []) ≡ set_key m k v
    pair m k v h p =
        unfold read_line set_pair in
        rw
          (
            chomp-Plain (pair_text k v) (pair_text-Plain k v h p),
            is_comment-key k (b'=' ∷ v) h,
            split_at-Free b'=' k v (is_key-Plain k h).1,
          )
          refl

reads_banner :
    (m : Manifest) (ls : List Bytes) → read_lines m ((banner ++ b'\n' ∷ []) ∷ ls) ≡ read_lines m ls
unfolding read_lines read_line chomp trim_end cons_end
reads_banner m ls = refl

abbrev put : Manifest → Bytes → Bytes → Manifest
put = set_if 255 set_key read_lines

-- A key that the broker has no field for.
put-other : (m : Manifest) (k v : Bytes) → ((x : Bytes) → set_key m k x ≡ m) → put m k v ≡ m
put-other m k [] h = refl
put-other m k (c ∷ v) h = h (c ∷ v)

put_perms :
    (p : Manifest) (v : Bytes)
    → p.perms ≡ []
    → length v ≤ 255
    → put p (codes "permissions") v ≡ record p { perms = v }
unfolding set_key eqb
put_perms p [] h l = ap (λ x. record p { perms = x }) h
put_perms p (c ∷ v) h l = ap (λ x. record p { perms = x }) (take-eq_self 255 (c ∷ v) l)

put_share_targets :
    (p : Manifest) (v : Bytes)
    → p.share_targets ≡ []
    → length v ≤ 255
    → put p (codes "share_targets") v ≡ record p { share_targets = v }
unfolding set_key eqb
put_share_targets p [] h l = ap (λ x. record p { share_targets = x }) h
put_share_targets p (c ∷ v) h l =
    ap (λ x. record p { share_targets = x }) (take-eq_self 255 (c ∷ v) l)

put_links :
    (p : Manifest) (v : Bytes)
    → p.links ≡ []
    → length v ≤ 127
    → put p (codes "links") v ≡ record p { links = v }
unfolding set_key eqb
put_links p [] h l = ap (λ x. record p { links = x }) h
put_links p (c ∷ v) h l = ap (λ x. record p { links = x }) (take-eq_self 127 (c ∷ v) l)

put_id : (p : Manifest) (v : Bytes) → length v ≤ 95 → set_key p (codes "id") v ≡ record p { id = v }
unfolding set_key eqb
put_id p v l = ap (λ x. record p { id = x }) (take-eq_self 95 v l)

put_exec : (p : Manifest) (v : Bytes) → set_key p (codes "exec") v ≡ record p { exec = clip 160 v }
unfolding set_key eqb
put_exec p v = refl

fields :
    (m : Package) (e : Bytes)
    → IsWritable 255 m e
    → set_all 255 set_key read_lines no_manifest m e ≡ record {
      id = m.id;
      perms = m.perms;
      share_targets = m.share_targets;
      links = m.links;
      exec = clip 160 e;
    }
fields m e w =
    let p0 : Manifest = record no_manifest { id = m.id } in
    let p1 : Manifest = record p0 { perms = m.perms } in
    let p2 : Manifest = record p1 { share_targets = m.share_targets } in
    let p3 : Manifest = record p2 { links = m.links } in
    rw
      (
        put_id no_manifest m.id w.id_fits,
        put-other p0 (codes "name") m.name (λ x. unfold set_key eqb in refl),
        put-other p0 (codes "subtitle") m.subtitle (λ x. unfold set_key eqb in refl),
        put-other p0 (codes "color") m.color (λ x. unfold set_key eqb in refl),
        put-other p0 (codes "version") m.version (λ x. unfold set_key eqb in refl),
        put_perms p0 m.perms refl w.perms_fits,
        put_share_targets p1 m.share_targets refl w.share_targets_fits,
        put_links p2 m.links refl w.links_fits,
        put_exec p3 e,
      )
      refl

-- What the broker reads of the runtime manifest that the installer writes: the package's id, permissions,
-- share targets and links, and the path of the installed binary, cut to 159 bytes. No field holds an end
-- of line, each fits the installer's buffer, and each line the broker's, of 256 bytes.
pub broker-runtime_manifest :
    (m : Package) (e : Bytes)
    → IsWritable 255 m e
    → parse_manifest (runtime_manifest m e) ≡ record {
      id = m.id;
      perms = m.perms;
      share_targets = m.share_targets;
      links = m.links;
      exec = clip 160 e;
    }
unfolding parse_manifest read_lines
broker-runtime_manifest m e w =
    read-runtime_manifest 255 set_key read_lines reads reads_banner no_manifest m e (omega arith) w
    ∙ fields m e w
