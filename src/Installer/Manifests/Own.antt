-- ===== src/Installer/Manifests/Own.antt =====
-- system/installer/main.c: the runtime manifest as parse_manifest reads it at the next update.
use zelto_os.Prelude.{
  ◌≤◌, ◌≡◌, refl, ap, ◌∙◌, true, false, List, [], ◌∷◌, ◌++◌, arith, length, take-eq_self,
}
use zelto_os.Text.{Bytes, codes, eqb, clip, chomp, trim_end, cons_end}
use zelto_os.Text.Lines.{Plain, chomp-Plain}
use zelto_os.Text.Search.{split_at-Free}
use zelto_os.Installer.{
  Package, no_package, manifest_set, is_skipped, read_line, read_lines, parse_manifest, banner,
  runtime_manifest,
}
use zelto_os.Installer.Manifests.{
  is_key, is_key-Plain, pair_text, pair_text-Plain, Reads, set_if, set_all, read-runtime_manifest,
  IsWritable,
}

is_skipped-key : (k s : Bytes) → is_key k ≡ true → is_skipped (k ++ s) ≡ false
is_skipped-key [] s h = absurd (ground (arith, h))
is_skipped-key (c ∷ k) s h = ground (arith, h)

reads : Reads 511 manifest_set read_lines
unfolding read_lines
reads m k v ls h p = ap (λ x. read_lines x ls) (pair m k v h p)
  where
    pair :
        (m : Package) (k v : Bytes)
        → is_key k ≡ true
        → Plain v
        → read_line m (pair_text k v ++ b'\n' ∷ []) ≡ manifest_set m k v
    pair m k v h p =
        unfold read_line in
        rw
          (
            chomp-Plain (pair_text k v) (pair_text-Plain k v h p),
            is_skipped-key k (b'=' ∷ v) h,
            split_at-Free b'=' k v (is_key-Plain k h).1,
          )
          refl

reads_banner :
    (m : Package) (ls : List Bytes) → read_lines m ((banner ++ b'\n' ∷ []) ∷ ls) ≡ read_lines m ls
unfolding read_lines read_line chomp trim_end cons_end
reads_banner m ls = refl

abbrev put : Package → Bytes → Bytes → Package
put = set_if 511 manifest_set read_lines

put_name :
    (p : Package) (v : Bytes)
    → p.name ≡ []
    → length v ≤ 63
    → put p (codes "name") v ≡ record p { name = v }
unfolding manifest_set eqb
put_name p [] h l = ap (λ x. record p { name = x }) h
put_name p (c ∷ v) h l = ap (λ x. record p { name = x }) (take-eq_self 63 (c ∷ v) l)

put_subtitle :
    (p : Package) (v : Bytes)
    → p.subtitle ≡ []
    → length v ≤ 95
    → put p (codes "subtitle") v ≡ record p { subtitle = v }
unfolding manifest_set eqb
put_subtitle p [] h l = ap (λ x. record p { subtitle = x }) h
put_subtitle p (c ∷ v) h l = ap (λ x. record p { subtitle = x }) (take-eq_self 95 (c ∷ v) l)

put_color :
    (p : Package) (v : Bytes)
    → p.color ≡ []
    → length v ≤ 15
    → put p (codes "color") v ≡ record p { color = v }
unfolding manifest_set eqb
put_color p [] h l = ap (λ x. record p { color = x }) h
put_color p (c ∷ v) h l = ap (λ x. record p { color = x }) (take-eq_self 15 (c ∷ v) l)

put_version :
    (p : Package) (v : Bytes)
    → p.version ≡ []
    → length v ≤ 31
    → put p (codes "version") v ≡ record p { version = v }
unfolding manifest_set eqb
put_version p [] h l = ap (λ x. record p { version = x }) h
put_version p (c ∷ v) h l = ap (λ x. record p { version = x }) (take-eq_self 31 (c ∷ v) l)

put_perms :
    (p : Package) (v : Bytes)
    → p.perms ≡ []
    → length v ≤ 255
    → put p (codes "permissions") v ≡ record p { perms = v }
unfolding manifest_set eqb
put_perms p [] h l = ap (λ x. record p { perms = x }) h
put_perms p (c ∷ v) h l = ap (λ x. record p { perms = x }) (take-eq_self 255 (c ∷ v) l)

put_share_targets :
    (p : Package) (v : Bytes)
    → p.share_targets ≡ []
    → length v ≤ 255
    → put p (codes "share_targets") v ≡ record p { share_targets = v }
unfolding manifest_set eqb
put_share_targets p [] h l = ap (λ x. record p { share_targets = x }) h
put_share_targets p (c ∷ v) h l =
    ap (λ x. record p { share_targets = x }) (take-eq_self 255 (c ∷ v) l)

put_links :
    (p : Package) (v : Bytes)
    → p.links ≡ []
    → length v ≤ 127
    → put p (codes "links") v ≡ record p { links = v }
unfolding manifest_set eqb
put_links p [] h l = ap (λ x. record p { links = x }) h
put_links p (c ∷ v) h l = ap (λ x. record p { links = x }) (take-eq_self 127 (c ∷ v) l)

put_id :
    (p : Package) (v : Bytes) → length v ≤ 95 → manifest_set p (codes "id") v ≡ record p { id = v }
unfolding manifest_set eqb
put_id p v l = ap (λ x. record p { id = x }) (take-eq_self 95 v l)

put_exec :
    (p : Package) (v : Bytes) → manifest_set p (codes "exec") v ≡ record p { exec = clip 256 v }
unfolding manifest_set eqb
put_exec p v = refl

fields :
    (m : Package) (e : Bytes)
    → IsWritable 511 m e
    → set_all 511 manifest_set read_lines no_package m e ≡ record m { exec = clip 256 e }
fields m e w =
    let p0 : Package = record no_package { id = m.id } in
    let p1 : Package = record p0 { name = m.name } in
    let p2 : Package = record p1 { subtitle = m.subtitle } in
    let p3 : Package = record p2 { color = m.color } in
    let p4 : Package = record p3 { version = m.version } in
    let p5 : Package = record p4 { perms = m.perms } in
    let p6 : Package = record p5 { share_targets = m.share_targets } in
    let p7 : Package = record p6 { links = m.links } in
    rw
      (
        put_id no_package m.id w.id_fits,
        put_name p0 m.name refl w.name_fits,
        put_subtitle p1 m.subtitle refl w.subtitle_fits,
        put_color p2 m.color refl w.color_fits,
        put_version p3 m.version refl w.version_fits,
        put_perms p4 m.perms refl w.perms_fits,
        put_share_targets p5 m.share_targets refl w.share_targets_fits,
        put_links p6 m.links refl w.links_fits,
        put_exec p7 e,
      )
      refl

-- The runtime manifest that an install writes is read back by parse_manifest with every field of the
-- package, and the installed binary, cut to its buffer, as its exec. No field holds an end of line and
-- each fits its buffer.
pub parse_manifest-runtime_manifest :
    (m : Package) (e : Bytes)
    → IsWritable 511 m e
    → parse_manifest (runtime_manifest m e) ≡ record m { exec = clip 256 e }
unfolding parse_manifest read_lines
parse_manifest-runtime_manifest m e w =
    read-runtime_manifest 511 manifest_set read_lines reads reads_banner no_package m e
      (omega arith) w
    ∙ fields m e w
