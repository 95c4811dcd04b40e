-- ===== src/Client/Keeps.antt =====
-- sdk/src/app.c and system/zsysd/main.c: a setting, written and read by clients through the broker.
use mathlib.Core.List.{append_assoc, append-nil}
use zelto_os.Prelude.{
  ℕ, ◌+◌, ◌≤◌, ◌≡◌, refl, sym, ap, ◌∙◌, Bool, true, false, List, [], ◌∷◌, ◌++◌, Option, some, arith,
  length, length-append, ltb, All, take-eq_self,
}
use zelto_os.Text.{Bytes, codes, eqb, eqb_refl, Free}
use zelto_os.Zsysd.State.{Broker, Env, Setting, send}
use zelto_os.Zsysd.Wire.{quote, value_reply, field}
use zelto_os.Zsysd.Wire.Fields.{
  Field, request, rows, lookup, clipped, IsPlain, IsKey, json_get-request,
}
use zelto_os.Zsysd.Settings.{setting_value, setting_put, settings_set, after_put}
use zelto_os.Zsysd.Settings.Table.{setting_put_lem}
use zelto_os.Zsysd.Handle.{
  settings_get, settings_put, op_of, handle_op, handle_line, is_empty, get_value,
}
use zelto_os.Client.{
  pair, message, tell, set_fields, or_fallback, value_in, value_from, z_setting_get_str,
  z_setting_set_str,
}
use zelto_os.Client.Answers.{
  replies, first_line, broker_at, OneLine, request-Free, first_line-message, read_from-line,
  field-request, Differs, lacks, lacks-Free,
}
use zelto_os.Client.Asks.{handle_line-op, ask-broker_at, length-message}

-- A pair that a client can set: a key, no quote or end of line, in the broker's buffers and the client's,
-- and spelled like none of the keys of the requests.
pub record IsSettable (key value : Bytes) : Type 0 where
  pub key_there : is_empty key ≡ false
  pub key_quotes : Free quote key
  pub key_line : Free b'\n' key
  pub key_fits : length key ≤ 63
  pub key_no_key : Differs (codes "op" ∷ codes "key" ∷ codes "value" ∷ []) key
  pub value_quotes : Free quote value
  pub value_line : Free b'\n' value
  pub value_fits : length value ≤ 159
  pub value_no_key : Differs (codes "op" ∷ codes "key" ∷ codes "value" ∷ []) value
  pub both_fit : length key + length value ≤ 212

pub literal-IsKey :
    (k : Bytes)
    → lacks quote k ≡ true
    → length k ≤ 61
    → eqb k (b':' ∷ []) ≡ false
    → eqb k (b',' ∷ []) ≡ false
    → IsKey k
literal-IsKey k h l c d = record {
  free = lacks-Free quote k h;
  fits = l;
  ne_colon = c;
  ne_comma = d;
}

pub op-IsKey : IsKey (codes "op")
unfolding eqb
op-IsKey = literal-IsKey (codes "op") refl (omega arith) refl refl

name-IsKey : IsKey (codes "key")
unfolding eqb
name-IsKey = literal-IsKey (codes "key") refl (omega arith) refl refl

value-IsKey : IsKey (codes "value")
unfolding eqb
value-IsKey = literal-IsKey (codes "value") refl (omega arith) refl refl

pub pair-IsPlain :
    (k f v : Bytes) → lacks quote f ≡ true → Free quote v → eqb k v ≡ false → IsPlain k (pair f v)
pair-IsPlain k f v h q d = record { key_free = lacks-Free quote f h; value_free = q; value_ne = d }

-- The reply is a line of one field.
value_reply-message : (v : Bytes) → value_reply v ≡ message (pair (codes "value") v ∷ [])
unfolding request rows
value_reply-message v =
    ap (λ x. codes "{\"value\":\"" ++ x) (sym (append_assoc v (codes "\"}") (codes "\n")))

after_put-settings :
    (b : Broker) (writable : Bool) (key value : Bytes) (r : List Setting × Bool)
    → r.1 ≡ true
    → (after_put b writable key value r).0.settings ≡ r.0
unfolding after_put
after_put-settings b writable key value (ss, true) h = refl
after_put-settings b writable key value (ss, false) h = absurd (ground (arith, h))

settings_set-settings :
    (b : Broker) (writable : Bool) (key value : Bytes)
    → is_empty key ≡ false
    → (setting_put b.settings key value).1 ≡ true
    → (settings_set b writable key value).0.settings ≡ (setting_put b.settings key value).0
unfolding settings_set
settings_set-settings b writable [] value e h = absurd (ground (arith, e))
settings_set-settings b writable (c ∷ key) value e h =
    after_put-settings b writable (c ∷ key) value (setting_put b.settings (c ∷ key) value) h

get_value-there :
    (b : Broker) (key : Bytes)
    → is_empty key ≡ false
    → get_value b key ≡ setting_value b.settings key
get_value-there b [] e = absurd (ground (arith, e))
get_value-there b (c ∷ key) e = refl

abbrev get_fields : Bytes → List Field
get_fields key = pair (codes "op") (codes "settings_get") ∷ pair (codes "key") key ∷ []

replies-value :
    (fd : ℕ) (v : Bytes) → length v ≤ 159 → replies fd (send 256 fd (value_reply v)) ≡ value_reply v
replies-value fd v h =
    ground (arith, h, length-append v (codes "\"}\n"), append-nil (value_reply v))

-- What z_setting_get_str makes of the reply.
value_from-reply :
    (fallback : Option Bytes) (v : Bytes)
    → Free quote v
    → Free b'\n' v
    → eqb (codes "value") v ≡ false
    → length v ≤ 159
    → value_from fallback (some (value_reply v)) ≡ or_fallback fallback (some v)
unfolding clipped lookup eqb request rows
value_from-reply fallback v q l d h =
    let one = pair (codes "value") v ∷ [] in
    let free : Free b'\n' (request one) =
      request-Free one ((lacks-Free b'\n' (codes "value") refl, l), tt) in
    let short : length (request one) ≤ 255 = omega (arith, length-append v (codes "\"}"), h) in
    ap (λ x. value_from fallback (some x)) (value_reply-message v)
    ∙ ap (value_in fallback) (read_from-line 255 (request one) [] free short)
    ∙ ap (or_fallback fallback) (
        json_get-request (codes "value") value-IsKey 256 one
          (pair-IsPlain (codes "value") (codes "value") v refl q d, tt)
        ∙ ap some (take-eq_self 255 v (omega (arith, h))))

module _ (key value : Bytes) (h : IsSettable key value) where
  abbrev fs : List Field
  fs = set_fields key value

  set_line : All OneLine fs
  set_line = (
    (lacks-Free b'\n' (codes "op") refl, lacks-Free b'\n' (codes "settings_set") refl),
    (
      (lacks-Free b'\n' (codes "key") refl, h.key_line),
      ((lacks-Free b'\n' (codes "value") refl, h.value_line), tt),
    ),
  )

  set_fields-IsPlain :
      (k : Bytes)
      → eqb k (codes "settings_set") ≡ false
      → eqb k key ≡ false
      → eqb k value ≡ false
      → All (IsPlain k) fs
  set_fields-IsPlain k d dk dv = (
    pair-IsPlain k (codes "op") (codes "settings_set") refl
        (lacks-Free quote (codes "settings_set") refl) d,
    (
      pair-IsPlain k (codes "key") key refl h.key_quotes dk,
      (pair-IsPlain k (codes "value") value refl h.value_quotes dv, tt),
    ),
  )

  set_handled :
      (env : Env) (b : Broker) (slot fd : ℕ)
      → handle_line env b slot fd (request fs) ≡ settings_set b env.writable key value
  unfolding handle_op lookup eqb op_of
  set_handled env b slot fd =
      let line = request fs in
      let ho =
        field-request (codes "op") 32 fs (codes "settings_set") op-IsKey
          (set_fields-IsPlain (codes "op") refl h.key_no_key.0 h.value_no_key.0) refl
          (omega arith) in
      let hk =
        field-request (codes "key") 64 fs key name-IsKey
          (set_fields-IsPlain (codes "key") refl h.key_no_key.1.0 h.value_no_key.1.0) refl
          h.key_fits in
      let hv =
        field-request (codes "value") 160 fs value value-IsKey
          (set_fields-IsPlain (codes "value") refl h.key_no_key.1.1.0 h.value_no_key.1.1.0) refl
          h.value_fits in
      handle_line-op env b slot fd line (codes "settings_set") settings_put ho refl
      ∙ ap (λ x. settings_set b env.writable x (field line (codes "value") 160)) hk
      ∙ ap (settings_set b env.writable key) hv

  get_line : All OneLine (get_fields key)
  get_line = (
    (lacks-Free b'\n' (codes "op") refl, lacks-Free b'\n' (codes "settings_get") refl),
    ((lacks-Free b'\n' (codes "key") refl, h.key_line), tt),
  )

  get_fields-IsPlain :
      (k : Bytes)
      → eqb k (codes "settings_get") ≡ false
      → eqb k key ≡ false
      → All (IsPlain k) (get_fields key)
  get_fields-IsPlain k d dk = (
    pair-IsPlain k (codes "op") (codes "settings_get") refl
        (lacks-Free quote (codes "settings_get") refl) d,
    (pair-IsPlain k (codes "key") key refl h.key_quotes dk, tt),
  )

  get_handled :
      (env : Env) (b : Broker) (slot fd : ℕ)
      → (handle_line env b slot fd (request (get_fields key))).1
        ≡ send 256 fd (value_reply (setting_value b.settings key))
  unfolding handle_op lookup eqb op_of
  get_handled env b slot fd =
      let line = request (get_fields key) in
      let ho =
        field-request (codes "op") 32 (get_fields key) (codes "settings_get") op-IsKey
          (get_fields-IsPlain (codes "op") refl h.key_no_key.0) refl (omega arith) in
      let hk =
        field-request (codes "key") 64 (get_fields key) key name-IsKey
          (get_fields-IsPlain (codes "key") refl h.key_no_key.1.0) refl h.key_fits in
      ap (λ x. x.1) (handle_line-op env b slot fd line (codes "settings_get") settings_get ho refl)
      ∙ ap (λ x. send 256 fd (value_reply (get_value b x))) hk
      ∙ ap (λ x. send 256 fd (value_reply x)) (get_value-there b key h.key_there)

  -- A client reads what the broker's table holds, where that is a value it was sent.
  get-value :
      (env : Env) (b : Broker) (slot fd : ℕ) (fallback : Option Bytes)
      → setting_value b.settings key ≡ value
      → z_setting_get_str (broker_at env b slot fd) key fallback ≡ or_fallback fallback (some value)
  unfolding z_setting_get_str
  get-value env b slot fd fallback e =
      ap (value_from fallback) (
        ask-broker_at 128 env b slot fd (get_fields key) get_line (omega (arith, h.key_fits))
        ∙ ap (λ x. some (replies fd x)) (get_handled env b slot fd)
        ∙ ap (λ x. some (replies fd (send 256 fd (value_reply x)))) e
        ∙ ap some (replies-value fd value h.value_fits))
      ∙ value_from-reply fallback value h.value_quotes h.value_line h.value_no_key.1.1.0
          h.value_fits

-- A setting that a client writes, of a value that is not empty, is what every client then reads: the
-- message of z_setting_set_str is sent, and on the broker that has handled its line z_setting_get_str
-- returns the value. A reader of an empty value gets its own fallback. The table has room, or the key
-- already; the key is not empty; key and value fit the buffers, together in 212 bytes, hold no quote
-- or newline and are spelled like no key of the requests.
pub z_setting_get_str-set :
    (env : Env) (b : Broker) (slot slot' fd fd' : ℕ) (key value : Bytes) (fallback : Option Bytes)
    → IsSettable key value
    → (setting_put b.settings key value).1 ≡ true
    → (msg : Bytes) × (z_setting_set_str (broker_at env b slot fd) key value ≡ some msg)
      × (z_setting_get_str
            (broker_at env (handle_line env b slot fd (first_line msg)).0 slot' fd')
            key
            fallback
          ≡ or_fallback fallback (some value))
unfolding z_setting_set_str tell
z_setting_get_str-set env b slot slot' fd fd' key value fallback h room =
    let fs = set_fields key value in
    let fits : ltb (length (message fs)) 256 ≡ true =
      ground (arith, h.both_fit, length-message fs) in
    let next = (handle_line env b slot fd (first_line (message fs))).0 in
    let handled : next.settings ≡ (setting_put b.settings key value).0 =
      ap (λ x. (handle_line env b slot fd x).0.settings)
        (first_line-message fs (set_line key value h))
      ∙ ap (λ x. x.0.settings) (set_handled key value h env b slot fd)
      ∙ settings_set-settings b env.writable key value h.key_there room in
    (
      message fs,
      rw fits refl,
      get-value key value h env next slot' fd' fallback (
          ap (λ x. setting_value x key) handled
          ∙ setting_put_lem b.settings key value key
              (record { key_fits = h.key_fits; value_fits = h.value_fits })
          ∙ ground (arith, room, eqb_refl key)),
    )
