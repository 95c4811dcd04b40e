-- ===== src/Net/Frames/Stream.antt =====
-- sdk/src/net.c, ws_parse_frames: frames that arrive in pieces.
use zelto_os.Prelude.{
  ℕ, zero, suc, ◌+◌, ◌*◌, ◌%◌, ◌≤◌, ◌<◌, ◌≡◌, refl, ap, inl, inr, Bool, false, [], ◌∷◌, ◌++◌, some,
  arith, ◌==◌, Option-cases, length, length-append, take, drop,
}
use zelto_os.Text.{Bytes}
use zelto_os.Net.Frames.{
  Frame, mask_len, cut_frame, frame_at, Parsed, taken, parse_on, parse_frames,
}

take-append : (n : ℕ) (s b : Bytes) → n ≤ length s → take n (s ++ b) ≡ take n s
take-append zero s b h = refl
take-append (suc n) [] b h = absurd (omega arith)
take-append (suc n) (x ∷ s) b h = ap (◌∷◌ x) (take-append n s b (omega arith))

drop-append : (n : ℕ) (s b : Bytes) → n ≤ length s → drop n (s ++ b) ≡ drop n s ++ b
drop-append zero s b h = refl
drop-append (suc n) [] b h = absurd (omega arith)
drop-append (suc n) (x ∷ s) b h = drop-append n s b (omega arith)

length-drop : (n : ℕ) (s : Bytes) → n ≤ length s → length (drop n s) + n ≡ length s
length-drop zero s h = omega arith
length-drop (suc n) [] h = absurd (omega arith)
length-drop (suc n) (x ∷ s) h = omega (arith, length-drop n s (omega arith))

payload-append :
    (m n : ℕ) (s b : Bytes) → m + n ≤ length s → take n (drop m (s ++ b)) ≡ take n (drop m s)
payload-append m n s b h =
    rw (drop-append m s b (omega arith))
      (take-append n (drop m s) b (omega (arith, length-drop m s (omega arith))))

cut_frame-append :
    (f0 f1 n : ℕ) (s b : Bytes) {f : Frame} {r : Bytes}
    → cut_frame f0 f1 n s ≡ some (f, r)
    → (cut_frame f0 f1 n (s ++ b) ≡ some (f, r ++ b)) × (length r ≤ length s)
cut_frame-append f0 f1 n s b h = ground (
  arith,
  length-append s b,
  payload-append (mask_len f1) n s b,
  drop-append (mask_len f1 + n) s b,
  length-drop (mask_len f1 + n) s,
)

frame_at-append :
    (s b : Bytes) {f : Frame} {r : Bytes}
    → frame_at s ≡ some (f, r)
    → (frame_at (s ++ b) ≡ some (f, r ++ b)) × (length r < length s)
unfolding frame_at
frame_at-append [] b h = cc
frame_at-append (f0 ∷ []) b h = cc
frame_at-append (f0 ∷ f1 ∷ []) b {f = f} {r = r} h =
    ground (arith, cut_frame-append f0 f1 (f1 % 128) [] b {f = f} {r = r})
frame_at-append (f0 ∷ f1 ∷ h1 ∷ []) b {f = f} {r = r} h =
    ground (arith, cut_frame-append f0 f1 (f1 % 128) (h1 ∷ []) b {f = f} {r = r})
frame_at-append (f0 ∷ f1 ∷ h1 ∷ h2 ∷ s) b {f = f} {r = r} h = ground (
  arith,
  cut_frame-append f0 f1 (f1 % 128) (h1 ∷ h2 ∷ s) b {f = f} {r = r},
  cut_frame-append f0 f1 (h1 * 256 + h2) s b {f = f} {r = r},
)

-- More rounds than bytes change nothing.
parse_on-enough :
    (n m : ℕ) (c : Bool) (s : Bytes) → length s ≤ n → length s ≤ m → parse_on n c s ≡ parse_on m c s
unfolding parse_on
parse_on-enough zero zero c s h k = refl
parse_on-enough zero (suc m) c [] h k = unfold frame_at in refl
parse_on-enough (suc n) zero c [] h k = unfold frame_at in refl
parse_on-enough zero (suc m) c (x ∷ s) h k = absurd (omega arith)
parse_on-enough (suc n) zero c (x ∷ s) h k = absurd (omega arith)
parse_on-enough (suc n) (suc m) c s h k = elim (Option-cases (frame_at s)) [
  | inl e ↦ rw (e, parse_on) refl
  | inr ((f, r), e) ↦
      rw (e, parse_on)
        (ap (taken c f r) (parse_on-enough n m c r (shorter f r e h) (shorter f r e k)))
]
  where
    shorter :
        {n : ℕ} (f : Frame) (r : Bytes) → frame_at s ≡ some (f, r) → length s ≤ suc n → length r ≤ n
    shorter f r e h = omega (arith, (frame_at-append s [] e).1)

parse_frames-frame :
    (c : Bool) (s : Bytes) {f : Frame} {r : Bytes}
    → frame_at s ≡ some (f, r)
    → parse_frames c s ≡ taken c f r (parse_frames c r)
unfolding parse_frames parse_on
parse_frames-frame c [] e = cc
parse_frames-frame c (x ∷ s) {f = f} {r = r} e =
    rw (e, parse_on)
      (ap (taken c f r) (
        parse_on-enough (length s) (length r) c r (omega (arith, (frame_at-append (x ∷ s) [] e).1))
          (omega arith)))

-- One pass, and what a second pass over the rest and more bytes adds.
abbrev Joins : Parsed → Parsed → Parsed → Type 0
Joins p q all = (all.texts ≡ p.texts ++ q.texts) × (all.left ≡ q.left) × (all.dead ≡ q.dead)

taken-Joins :
    (c : Bool) (f : Frame) (r r' : Bytes) (p q all : Parsed)
    → (f.opcode == 8) ≡ false
    → Joins p q all
    → Joins (taken c f r p) q (taken c f r' all)
taken-Joins c f r r' p q all h j = ground (arith, j.0, j.1, j.2)

stays :
    (c : Bool) (f : Frame) (r : Bytes) (p : Parsed)
    → (taken c f r p).dead ≡ false
    → ((f.opcode == 8) ≡ false) × (p.dead ≡ false) × ((taken c f r p).left ≡ p.left)
stays c f r p h = ground arith

parse_on-Joins :
    (n : ℕ) (c : Bool) (a b : Bytes)
    → length a ≤ n
    → (parse_on n c a).dead ≡ false
    → Joins (parse_on n c a) (parse_frames c ((parse_on n c a).left ++ b)) (parse_frames c (a ++ b))
unfolding parse_on
parse_on-Joins zero c a b h d = (refl, refl, refl)
parse_on-Joins (suc n) c a b h d = elim (Option-cases (frame_at a)) [
  | inl e ↦ rw (e, parse_on) (refl, refl, refl)
  | inr ((f, r), e) ↦
      let p = parse_on n c r in
      let s = stays c f r p (rw (e, parse_on) at d) in
      rw (e, parse_on, parse_frames-frame c (a ++ b) (frame_at-append a b e).0, s.2)
        (taken-Joins c f r (r ++ b) p (parse_frames c (p.left ++ b)) (parse_frames c (r ++ b)) s.0
          (parse_on-Joins n c r b (omega (arith, (frame_at-append a b e).1)) s.1))
]

-- Cutting the bytes from the server into two reads changes nothing: while no close frame has come, the
-- texts of the first pass and then those of a pass over what it left with the new bytes are the texts
-- of one pass over all the bytes, with the same rest and the same end.
pub parse_frames-append :
    (c : Bool) (a b : Bytes)
    → (parse_frames c a).dead ≡ false
    → let p = parse_frames c a in
      let q = parse_frames c (p.left ++ b) in
      ((parse_frames c (a ++ b)).texts ≡ p.texts ++ q.texts)
      × ((parse_frames c (a ++ b)).left ≡ q.left)
      × ((parse_frames c (a ++ b)).dead ≡ q.dead)
parse_frames-append c a b d =
    unfold parse_frames in parse_on-Joins (length a) c a b (omega arith) (unfold parse_frames in d)
