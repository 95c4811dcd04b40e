-- ===== src/Installer/Install/Paths.antt =====
-- system/installer/main.c: the paths that main writes are different ones.
use mathlib.Core.List.{append_assoc}
use zelto_os.Prelude.{
  ℕ, zero, suc, ◌+◌, ◌≤◌, ◌<◌, ◌≡◌, ◌≢◌, refl, sym, ap, ◌∙◌, [], ◌∷◌, ◌++◌, Option, some, arith,
  length, length-append, take, get_elem?, take-eq_self, length-take-le,
}
use zelto_os.Text.{Bytes, codes, clip}
use zelto_os.Installer.{base_name}
use zelto_os.Installer.Verify.{in_dir}
use zelto_os.Installer.Install.{manifest_path, temp_path}

get_elem?-take : (n i : ℕ) (s : Bytes) → i < n → get_elem? (take n s) i ≡ get_elem? s i
get_elem?-take zero i s h = absurd (omega (arith, h))
get_elem?-take (suc n) i [] h = refl
get_elem?-take (suc n) zero (c ∷ s) h = refl
get_elem?-take (suc n) (suc i) (c ∷ s) h = get_elem?-take n i s (omega (arith, h))

get_elem?-append_right :
    (a s : Bytes) (i j : ℕ) → j ≡ length a + i → get_elem? (a ++ s) j ≡ get_elem? s i
get_elem?-append_right [] s i j e = let p : j ≡ i = omega (arith, e) in ap (get_elem? s) p
get_elem?-append_right (c ∷ a) s i zero e = absurd (omega (arith, e))
get_elem?-append_right (c ∷ a) s i (suc j) e = get_elem?-append_right a s i j (omega (arith, e))

get_elem?-append_left : (a s : Bytes) (i : ℕ) → i < length a → get_elem? (a ++ s) i ≡ get_elem? a i
get_elem?-append_left [] s i h = absurd (omega (arith, h))
get_elem?-append_left (c ∷ a) s zero h = refl
get_elem?-append_left (c ∷ a) s (suc i) h = get_elem?-append_left a s i (omega (arith, h))

-- The byte behind the data directory and its slash.
at_entry :
    (size room : ℕ) (d part s : Bytes)
    → length d + 2 ≤ room
    → length d + length part ≤ size
    → 2 ≤ length part
    → get_elem? (take room (take size (d ++ part) ++ s)) (length d + 1) ≡ get_elem? part 1
at_entry size room d part s hr hs hp =
    let l = length-append d part in
    get_elem?-take room (length d + 1) (take size (d ++ part) ++ s) (omega (arith, hr))
    ∙ ap (λ x. get_elem? (x ++ s) (length d + 1))
        (take-eq_self size (d ++ part) (omega (arith, l, hs)))
    ∙ get_elem?-append_left (d ++ part) s (length d + 1) (omega (arith, l, hp))
    ∙ get_elem?-append_right d part 1 (length d + 1) refl

-- Installed binaries and manifests are in different directories.
bin_ne :
    (d id exec s : Bytes) (room : ℕ)
    → length d ≤ 900
    → length id ≤ 95
    → 1100 ≤ room
    → in_dir 1400 (clip 1024 (d ++ (codes "/installed/" ++ id))) (base_name exec)
      ≢ take room (clip 1024 (d ++ codes "/apps/manifests") ++ s)
bin_ne d id exec s room hd hi hr e =
    let l = length-append (codes "/installed/") id in
    let part = codes "/installed/" ++ id in
    let left =
      at_entry 1023 1399 d part (b'/' ∷ base_name exec) (omega (arith, hd))
        (omega (arith, hd, hi, l)) (omega (arith, l)) in
    let right =
      at_entry 1023 room d (codes "/apps/manifests") s (omega (arith, hd, hr)) (omega (arith, hd))
        (omega arith) in
    absurd (other (sym left ∙ ap (λ x. get_elem? x (length d + 1)) e ∙ right))
  where
    other : ◌≢◌ {A = Option ℕ} (some b'i') (some b'a')
    other h = ground (arith, h)

pub bin_ne_manifest :
    (d id exec id' : Bytes)
    → length d ≤ 900
    → length id ≤ 95
    → in_dir 1400 (clip 1024 (d ++ (codes "/installed/" ++ id))) (base_name exec)
      ≢ manifest_path (clip 1024 (d ++ codes "/apps/manifests")) id'
bin_ne_manifest d id exec id' hd hi =
    bin_ne d id exec (b'/' ∷ (id' ++ codes ".app")) 1199 hd hi (omega arith)

pub bin_ne_temp :
    (d id exec id' : Bytes)
    → length d ≤ 900
    → length id ≤ 95
    → in_dir 1400 (clip 1024 (d ++ (codes "/installed/" ++ id))) (base_name exec)
      ≢ temp_path (clip 1024 (d ++ codes "/apps/manifests")) id'
bin_ne_temp d id exec id' hd hi =
    bin_ne d id exec (b'/' ∷ (id' ++ codes ".app.tmp")) 1299 hd hi (omega arith)

ends_differ : (a b : Bytes) → a ++ codes ".app.tmp" ≢ b ++ codes ".app"
ends_differ a b h =
    let l : length a + 8 ≡ length b + 4 =
      omega
        (arith, ap length h, length-append a (codes ".app.tmp"), length-append b (codes ".app")) in
    let left = get_elem?-append_right a (codes ".app.tmp") 5 (length a + 5) refl in
    let right = get_elem?-append_right b (codes ".app") 1 (length a + 5) (omega (arith, l)) in
    absurd (other (sym left ∙ ap (λ x. get_elem? x (length a + 5)) h ∙ right))
  where
    other : ◌≢◌ {A = Option ℕ} (some b't') (some b'a')
    other h = ground (arith, h)

whole :
    (room : ℕ) (m id ending : Bytes)
    → length m + length id + length ending + 1 ≤ room
    → take room (m ++ b'/' ∷ (id ++ ending)) ≡ (m ++ b'/' ∷ id) ++ ending
whole room m id ending h =
    take-eq_self room (m ++ b'/' ∷ (id ++ ending))
      (omega (arith, h, length-append m (b'/' ∷ (id ++ ending)), length-append id ending))
    ∙ sym (append_assoc m (b'/' ∷ id) ending)

-- A manifest under way has another name than one that is there.
pub temp_ne_manifest :
    (d id id' : Bytes)
    → length d ≤ 900
    → length id ≤ 95
    → length id' ≤ 95
    → temp_path (clip 1024 (d ++ codes "/apps/manifests")) id
      ≢ manifest_path (clip 1024 (d ++ codes "/apps/manifests")) id'
temp_ne_manifest d id id' hd hi hi' e =
    let m = clip 1024 (d ++ codes "/apps/manifests") in
    let l = length-take-le 1023 (d ++ codes "/apps/manifests") in
    ends_differ (m ++ b'/' ∷ id) (m ++ b'/' ∷ id') (
      sym (whole 1299 m id (codes ".app.tmp") (omega (arith, l, hi)))
      ∙ e
      ∙ whole 1199 m id' (codes ".app") (omega (arith, l, hi')))
