-- ===== src/Client/Mailbox/Stash.antt =====
-- sdk/src/app.c and system/zsysd/main.c: the URLs that the broker delivers, before and after the app has
-- set its handler.
use mathlib.Core.List.{append_assoc}
use zelto_os.Prelude.{
  ◌≤◌, ◌≡◌, refl, sym, ap, ◌∙◌, true, false, List, [], ◌∷◌, ◌++◌, map, none, some, arith, length,
  All, take-eq_self,
}
use zelto_os.Text.{Bytes, codes, eqb, Free}
use zelto_os.Zsysd.Wire.{quote, field, json_get}
use zelto_os.Zsysd.Wire as Wire
use zelto_os.Zsysd.Wire.Fields.{
  Field, request, rows, lookup, clipped, IsPlain, IsKey, json_get-request,
}
use zelto_os.Client.{pair}
use zelto_os.Client.Answers.{field-request, Differs, lacks-Free, request-Free}
use zelto_os.Client.Keeps.{pair-IsPlain, literal-IsKey, op-IsKey}
use zelto_os.Client.Mailbox.{
  App, dispatch_if, url_called, deliver_url, deliver, dispatch_op, ctrl_dispatch_line,
  dispatch_lines, z_on_open_url, split_buf, cons_first,
}

abbrev url_fields : Bytes → List Field
url_fields url =
    pair (codes "op") (codes "deliver")
    ∷ pair (codes "kind") (codes "open_url")
    ∷ pair (codes "url") url
    ∷ []

-- The line that the broker writes, without its newline.
abbrev pub url_line : Bytes → Bytes
url_line url = request (url_fields url)

-- A URL with no quote, in the buffer, and spelled like none of the keys.
pub record IsUrl (url : Bytes) : Type 0 where
  pub quotes : Free quote url
  pub fits : length url ≤ 255
  pub no_key : Differs (codes "op" ∷ codes "kind" ∷ codes "url" ∷ []) url

kind-IsKey : IsKey (codes "kind")
unfolding eqb
kind-IsKey = literal-IsKey (codes "kind") refl (omega arith) refl refl

url-IsKey : IsKey (codes "url")
unfolding eqb
url-IsKey = literal-IsKey (codes "url") refl (omega arith) refl refl

module _ (url : Bytes) (h : IsUrl url) where
  plain :
      (k : Bytes)
      → eqb k (codes "deliver") ≡ false
      → eqb k (codes "open_url") ≡ false
      → eqb k url ≡ false
      → All (IsPlain k) (url_fields url)
  plain k d o u = (
    pair-IsPlain k (codes "op") (codes "deliver") refl (lacks-Free quote (codes "deliver") refl) d,
    (
      pair-IsPlain k (codes "kind") (codes "open_url") refl
          (lacks-Free quote (codes "open_url") refl) o,
      (pair-IsPlain k (codes "url") url refl h.quotes u, tt),
    ),
  )

  -- The line is delivered as its URL.
  dispatch-url : (app : App) → ctrl_dispatch_line app (url_line url) ≡ deliver_url app url
  unfolding ctrl_dispatch_line dispatch_op deliver lookup clipped eqb
  dispatch-url app =
      let line = url_line url in
      let ho =
        json_get-request (codes "op") op-IsKey 24 (url_fields url)
          (plain (codes "op") refl refl h.no_key.0) in
      let hk =
        field-request (codes "kind") 16 (url_fields url) (codes "open_url") kind-IsKey
          (plain (codes "kind") refl refl h.no_key.1.0) refl (omega arith) in
      let hu =
        field-request (codes "url") 256 (url_fields url) url url-IsKey
          (plain (codes "url") refl refl h.no_key.1.1.0) refl h.fits in
      ap (λ o. dispatch_if app o line) ho
      ∙ ap (λ k. deliver app k line) hk
      ∙ ap (deliver_url app) hu

-- The broker's text is the line.
deliver_url-line : (url s : Bytes) → Wire.deliver_url url ++ s ≡ url_line url ++ b'\n' ∷ s
unfolding request rows
deliver_url-line url s =
    ap (λ x. codes "{\"op\":\"deliver\",\"kind\":\"open_url\",\"url\":\"" ++ x)
      (append_assoc url (codes "\"}\n") s ∙ sym (append_assoc url (codes "\"}") (b'\n' ∷ s)))

split_buf-line :
    (l s : Bytes)
    → Free b'\n' l
    → split_buf (l ++ b'\n' ∷ s) ≡ (l ∷ (split_buf s).0, (split_buf s).1)
unfolding split_buf
split_buf-line [] s f = refl
split_buf-line (c ∷ l) s f = rw f.0 (ap (cons_first c) (split_buf-line l s f.1))

-- What the broker writes for URLs that it delivers one after the other.
abbrev pub delivered : List Bytes → Bytes
delivered [] = []
delivered (u ∷ us) = Wire.deliver_url u ++ delivered us

abbrev pub IsSent : Bytes → Type 0
IsSent u = IsUrl u × Free b'\n' u

url_line-Free : (u : Bytes) → Free b'\n' u → Free b'\n' (url_line u)
url_line-Free u f = request-Free (url_fields u) (
  (lacks-Free b'\n' (codes "op") refl, lacks-Free b'\n' (codes "deliver") refl),
  (
    (lacks-Free b'\n' (codes "kind") refl, lacks-Free b'\n' (codes "open_url") refl),
    ((lacks-Free b'\n' (codes "url") refl, f), tt),
  ),
)

split_buf-delivered :
    (us : List Bytes) → All IsSent us → (split_buf (delivered us)).0 ≡ map url_line us
split_buf-delivered [] a = unfold split_buf in refl
split_buf-delivered (u ∷ us) a =
    ap (λ x. (split_buf x).0) (deliver_url-line u (delivered us))
    ∙ ap (λ x. x.0) (split_buf-line (url_line u) (delivered us) (url_line-Free u a.0.1))
    ∙ ap (◌∷◌ (url_line u)) (split_buf-delivered us a.1)

call_step :
    (app : App) (u : Bytes)
    → IsUrl u
    → app.url_cb ≡ true
    → ctrl_dispatch_line app (url_line u) ≡ (record app { pend_url = none }, url_called u ∷ [])
unfolding deliver_url
call_step app u i h = dispatch-url u i app ∙ ground (arith, h, take-eq_self 255 u i.fits)

stash_step :
    (app : App) (u : Bytes)
    → IsUrl u
    → app.url_cb ≡ false
    → ctrl_dispatch_line app (url_line u) ≡ (record app { pend_url = some u }, [])
unfolding deliver_url
stash_step app u i h = dispatch-url u i app ∙ ground (arith, h, take-eq_self 255 u i.fits)

-- With a handler set, each URL is handed over, once and in order.
called :
    (app : App) (us : List Bytes)
    → All IsSent us
    → app.url_cb ≡ true
    → (dispatch_lines app (map url_line us)).1 ≡ map url_called us
unfolding dispatch_lines
called app [] a h = refl
called app (u ∷ us) a h =
    ap (λ x. x.1 ++ (dispatch_lines x.0 (map url_line us)).1) (call_step app u a.0.0 h)
    ∙ ap (◌∷◌ (url_called u)) (called (record app { pend_url = none }) us a.1 h)

abbrev pub last_of : Bytes → List Bytes → Bytes
last_of u [] = u
last_of u (v ∷ us) = last_of v us

-- With none, the last one waits.
stashed :
    (app : App) (u : Bytes) (us : List Bytes)
    → IsSent u
    → All IsSent us
    → app.url_cb ≡ false
    → dispatch_lines app (map url_line (u ∷ us))
      ≡ (record app { pend_url = some (last_of u us) }, [])
unfolding dispatch_lines
stashed app u [] i a h = ap (λ x. (x.0, x.1 ++ [])) (stash_step app u i.0 h)
stashed app u (v ∷ us) i a h =
    ap
      (λ x. (
        (dispatch_lines x.0 (map url_line (v ∷ us))).0,
        x.1 ++ (dispatch_lines x.0 (map url_line (v ∷ us))).1,
      ))
      (stash_step app u i.0 h)
    ∙ stashed (record app { pend_url = some u }) v us a.0 a.1 h

-- The broker writes the URLs it delivers one after the other. Where the app has set its handler it is
-- called with each, once and in order. Where it has not, none is lost to the connection but all except
-- the last are overwritten: when the handler is set it is called with the last URL only. The URLs
-- fit the buffer, hold no quote or end of line, and are spelled like no key.
pub delivered-z_on_open_url :
    (app : App) (u : Bytes) (us : List Bytes)
    → IsSent u
    → All IsSent us
    → let r = dispatch_lines app (split_buf (delivered (u ∷ us))).0 in
      (app.url_cb ≡ true → r.1 ≡ map url_called (u ∷ us))
      × (app.url_cb ≡ false → (r.1 ≡ []) × ((z_on_open_url r.0).1 ≡ url_called (last_of u us) ∷ []))
unfolding z_on_open_url
delivered-z_on_open_url app u us i a =
    let lines = ap (dispatch_lines app) (split_buf-delivered (u ∷ us) (i, a)) in
    (
      λ h. ap (λ x. x.1) lines ∙ called app (u ∷ us) (i, a) h,
      λ h.
          let e = lines ∙ stashed app u us i a h in
          (ap (λ x. x.1) e, ap (λ x. (z_on_open_url x.0).1) e),
    )
