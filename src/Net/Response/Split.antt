-- ===== src/Net/Response/Split.antt =====
-- sdk/src/net.c, finish_ok: where the header of a response ends and the body begins.
use zelto_os.Prelude.{◌≡◌, refl, ◌⊎◌, inl, inr, [], ◌∷◌, ◌++◌, none, some, arith, Option-cases}
use zelto_os.Text.{Bytes, strip_prefix}
use zelto_os.Net.Response.{cut_at, crlf2, response}

strip_prefix-some : (p s : Bytes) {r : Bytes} → strip_prefix p s ≡ some r → s ≡ p ++ r
unfolding strip_prefix
strip_prefix-some [] s h = ground arith
strip_prefix-some (c ∷ p) [] h = cc
strip_prefix-some (c ∷ p) (d ∷ s) {r = r} h = ground (arith, strip_prefix-some p s {r = r})

cut_at-some : (p s : Bytes) {a b : Bytes} → cut_at p s ≡ some (a, b) → s ≡ a ++ (p ++ b)
unfolding cut_at
cut_at-some p [] h = cc
cut_at-some p (c ∷ s) {a = a} {b = b} h = elim (Option-cases (strip_prefix p (c ∷ s))) [
  | inl e ↦ elim (Option-cases (cut_at p s)) [
    | inl f ↦ ground (arith, e, f)
    | inr ((a', b'), f) ↦ ground (arith, e, f, cut_at-some p s {a = a'} {b = b'} f)
  ]
  | inr (r, e) ↦ ground (arith, e, strip_prefix-some p (c ∷ s) e)
]

-- The body is all of the response if no blank line ends a header in it; otherwise the response is the
-- header, the blank line and the body.
pub response-split :
    (raw : Bytes)
    → (((response raw).header ≡ none) × ((response raw).body ≡ raw))
      ⊎ ((h : Bytes) × ((response raw).header ≡ some h)
          × (raw ≡ h ++ (crlf2 ++ (response raw).body)))
unfolding response
response-split raw = elim (Option-cases (cut_at crlf2 raw)) [
  | inl e ↦ inl (rw (e, response) refl, rw (e, response) refl)
  | inr ((a, b), e) ↦ inr (a, rw (e, response) refl, rw (e, response) (cut_at-some crlf2 raw e))
]
