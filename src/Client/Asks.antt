-- ===== src/Client/Asks.antt =====
-- sdk/src/app.c and system/zsysd/main.c: a permission, asked for by the client and decided by the broker.
use mathlib.Core.List.{append-nil}
use zelto_os.Prelude.{
  ℕ, ◌+◌, ◌≤◌, ◌<◌, ◌≡◌, refl, ap, ◌∙◌, inl, inr, Bool, true, false, List, [], ◌∷◌, ◌++◌, some,
  arith, Option-cases, length, length-append, ltb, All,
}
use zelto_os.Text.{Bytes, codes, eqb, Free, find_after, strip_prefix}
use zelto_os.Zsysd.State.{Broker, Env, Event, sent, Manifest, Grant}
use zelto_os.Zsysd.Wire.{quote, status_reply, field}
use zelto_os.Zsysd.Wire.Fields.{Field, request, rows, lookup, IsPlain, IsKey}
use zelto_os.Zsysd.Manifests.{manifest_declares}
use zelto_os.Zsysd.Grants.{
  Status, granted, denied, prompt, status_word, decide, undecided, grant_find,
}
use zelto_os.Zsysd.Handle.{
  Op, permission, op_of, handle_op, handle_line, is_empty, permission_status, reply_status,
}
use zelto_os.Client.{
  PermStatus, perm_granted, perm_denied, perm_prompt, zsysd_parse_status, read_from, message, ask,
  perm_fields, reply_or, z_perm_status, z_perm_request,
}
use zelto_os.Client.Answers.{
  replies, broker_at, OneLine, first_line-message, field-request, Differs, lacks-Free,
}

abbrev size : List Field → ℕ
size [] = 1
size (f ∷ fs) = 6 + length f.key + length f.value + size fs

length-rows : (c : ℕ) (fs : List Field) → length (rows c fs) ≡ size fs
unfolding rows
length-rows c [] = refl
length-rows c (f ∷ fs) = omega (
  arith,
  length-append f.key (quote ∷ b':' ∷ quote ∷ (f.value ++ quote ∷ rows b',' fs)),
  length-append f.value (quote ∷ rows b',' fs),
  length-rows b',' fs,
)

pub length-message : (fs : List Field) → length (message fs) ≡ size fs + 1
unfolding request
length-message fs = omega (arith, length-append (rows b'{' fs) (b'\n' ∷ []), length-rows b'{' fs)

-- A message that fits reaches the broker as one line.
pub ask-broker_at :
    (n : ℕ) (env : Env) (b : Broker) (slot fd : ℕ) (fs : List Field)
    → All OneLine fs
    → size fs + 1 < n
    → ask n (broker_at env b slot fd) fs
      ≡ some (replies fd (handle_line env b slot fd (request fs)).1)
unfolding ask
ask-broker_at n env b slot fd fs a h =
    let fits : ltb (length (message fs)) n ≡ true = ground (arith, h, length-message fs) in
    rw (fits, first_line-message fs a) refl

pub status_of : Status → PermStatus
status_of granted = perm_granted
status_of denied = perm_denied
status_of prompt = perm_prompt

-- The three replies are told apart.
reply_or-status_reply :
    (d : PermStatus) (st : Status)
    → reply_or d (some (status_reply (status_word st))) ≡ status_of st
unfolding zsysd_parse_status read_from find_after strip_prefix status_of
reply_or-status_reply d granted = refl
reply_or-status_reply d denied = refl
reply_or-status_reply d prompt = refl

undecided-silent :
    (declared r : Bool) (consent : Bytes → Bytes → Bool) (gs : List Grant) (a p : Bytes) (fd : ℕ)
    (es : List Event)
    → replies fd ((undecided declared r consent gs a p).events ++ es) ≡ replies fd es
unfolding undecided
undecided-silent false r consent gs a p fd es = refl
undecided-silent true false consent gs a p fd es = refl
undecided-silent true true consent gs a p fd es = refl

-- A decision writes nothing but its reply.
decide-silent :
    (consent : Bytes → Bytes → Bool) (ms : List Manifest) (gs : List Grant) (r : Bool) (a p : Bytes)
    (fd : ℕ) (es : List Event)
    → replies fd ((decide consent ms gs r a p).events ++ es) ≡ replies fd es
unfolding decide
decide-silent consent ms gs r a p fd es = elim (Option-cases (grant_find gs a p)) [
  | inl e ↦ ground (arith, e, undecided-silent (manifest_declares ms a p) r consent gs a p fd es)
  | inr (g, e) ↦ ground (arith, e)
]

replies-sent : (fd : ℕ) (text : Bytes) → replies fd (sent fd text ∷ []) ≡ text
replies-sent fd text = ground (arith, append-nil text)

-- An app and a permission that can be asked for: not empty, with no quote or end of line, in their
-- buffers, and spelled like none of the keys of the request.
pub record IsAsked (app_id perm : Bytes) : Type 0 where
  pub app_id_there : is_empty app_id ≡ false
  pub app_id_quotes : Free quote app_id
  pub app_id_line : Free b'\n' app_id
  pub app_id_fits : length app_id ≤ 95
  pub app_id_no_key : Differs (codes "op" ∷ codes "app_id" ∷ codes "perm" ∷ []) app_id
  pub perm_there : is_empty perm ≡ false
  pub perm_quotes : Free quote perm
  pub perm_line : Free b'\n' perm
  pub perm_fits : length perm ≤ 31
  pub perm_no_key : Differs (codes "op" ∷ codes "app_id" ∷ codes "perm" ∷ []) perm

abbrev word : Bool → Bytes
word true = codes "perm_request"
word false = codes "perm_status"

word-Free : (r : Bool) → Free quote (word r) × Free b'\n' (word r)
word-Free true = (lacks-Free quote (word true) refl, lacks-Free b'\n' (word true) refl)
word-Free false = (lacks-Free quote (word false) refl, lacks-Free b'\n' (word false) refl)

word-Differs : (r : Bool) → Differs (codes "op" ∷ codes "app_id" ∷ codes "perm" ∷ []) (word r)
unfolding eqb
word-Differs true = (refl, (refl, (refl, tt)))
word-Differs false = (refl, (refl, (refl, tt)))

op-IsKey : IsKey (codes "op")
unfolding eqb
op-IsKey = record {
  free = lacks-Free quote (codes "op") refl;
  fits = omega arith;
  ne_colon = refl;
  ne_comma = refl;
}

app_id-IsKey : IsKey (codes "app_id")
unfolding eqb
app_id-IsKey = record {
  free = lacks-Free quote (codes "app_id") refl;
  fits = omega arith;
  ne_colon = refl;
  ne_comma = refl;
}

perm-IsKey : IsKey (codes "perm")
unfolding eqb
perm-IsKey = record {
  free = lacks-Free quote (codes "perm") refl;
  fits = omega arith;
  ne_colon = refl;
  ne_comma = refl;
}

word-op : (r : Bool) → op_of (word r) ≡ permission
unfolding op_of eqb
word-op true = refl
word-op false = refl

pub handle_line-op :
    (env : Env) (b : Broker) (slot fd : ℕ) (line o : Bytes) (op : Op)
    → field line (codes "op") 32 ≡ o
    → op_of o ≡ op
    → handle_line env b slot fd line ≡ handle_op op env b slot fd o line
unfolding handle_line
handle_line-op env b slot fd line o op ho hp =
    ap (λ x. handle_op (op_of x) env b slot fd x line) ho
    ∙ ap (λ p. handle_op p env b slot fd o line) hp

status-decide :
    (r : Bool) (env : Env) (b : Broker) (app_id perm : Bytes)
    → IsAsked app_id perm
    → permission_status env b (word r) app_id perm
      ≡ decide env.consent b.manifests b.grants r app_id perm
unfolding permission_status eqb
status-decide true env b app_id perm h = rw (h.app_id_there, h.perm_there) refl
status-decide false env b app_id perm h = rw (h.app_id_there, h.perm_there) refl

module _ (r : Bool) (app_id perm : Bytes) (h : IsAsked app_id perm) where
  abbrev fs : List Field
  fs = perm_fields (word r) app_id perm

  one_line : All OneLine fs
  one_line = (
    (lacks-Free b'\n' (codes "op") refl, (word-Free r).1),
    (
      (lacks-Free b'\n' (codes "app_id") refl, h.app_id_line),
      ((lacks-Free b'\n' (codes "perm") refl, h.perm_line), tt),
    ),
  )

  plain :
      (k : Bytes)
      → eqb k (word r) ≡ false
      → eqb k app_id ≡ false
      → eqb k perm ≡ false
      → All (IsPlain k) fs
  plain k dw da dp = (
    record {
      key_free = lacks-Free quote (codes "op") refl;
      value_free = (word-Free r).0;
      value_ne = dw;
    },
    (
      record {
        key_free = lacks-Free quote (codes "app_id") refl;
        value_free = h.app_id_quotes;
        value_ne = da;
      },
      (
        record {
          key_free = lacks-Free quote (codes "perm") refl;
          value_free = h.perm_quotes;
          value_ne = dp;
        },
        tt,
      ),
    ),
  )

  field_op : field (request fs) (codes "op") 32 ≡ word r
  unfolding lookup eqb
  field_op =
      field-request (codes "op") 32 fs (word r) op-IsKey
        (plain (codes "op") (word-Differs r).0 h.app_id_no_key.0 h.perm_no_key.0) refl
        (word-short r)
    where
      word-short : (r : Bool) → length (word r) ≤ 31
      word-short true = omega arith
      word-short false = omega arith

  field_app_id : field (request fs) (codes "app_id") 96 ≡ app_id
  unfolding lookup eqb
  field_app_id =
      field-request (codes "app_id") 96 fs app_id app_id-IsKey
        (plain (codes "app_id") (word-Differs r).1.0 h.app_id_no_key.1.0 h.perm_no_key.1.0) refl
        h.app_id_fits

  field_perm : field (request fs) (codes "perm") 32 ≡ perm
  unfolding lookup eqb
  field_perm =
      field-request (codes "perm") 32 fs perm perm-IsKey
        (plain (codes "perm") (word-Differs r).1.1.0 h.app_id_no_key.1.1.0 h.perm_no_key.1.1.0) refl
        h.perm_fits

  decided :
      (env : Env) (b : Broker) (slot fd : ℕ)
      → handle_line env b slot fd (request fs)
        ≡ reply_status b fd (decide env.consent b.manifests b.grants r app_id perm)
  unfolding handle_op
  decided env b slot fd =
      handle_line-op env b slot fd (request fs) (word r) permission field_op (word-op r)
      ∙ ap
          (λ x.
            reply_status b fd
              (permission_status env b (word r) x (field (request fs) (codes "perm") 32)))
          field_app_id
      ∙ ap (λ x. reply_status b fd (permission_status env b (word r) app_id x)) field_perm
      ∙ ap (reply_status b fd) (status-decide r env b app_id perm h)

  -- What the client makes of the broker's reply.
  answered :
      (env : Env) (b : Broker) (slot fd : ℕ) (st : PermStatus)
      → reply_or st (ask 256 (broker_at env b slot fd) fs)
        ≡ status_of (decide env.consent b.manifests b.grants r app_id perm).status
  answered env b slot fd st =
      let d = decide env.consent b.manifests b.grants r app_id perm in
      let text = status_reply (status_word d.status) in
      ap (reply_or st) (
        ask-broker_at 256 env b slot fd fs one_line fits
        ∙ ap (λ x. some (replies fd x.1)) (decided env b slot fd)
        ∙ ap some (
            decide-silent env.consent b.manifests b.grants r app_id perm fd (sent fd text ∷ [])
            ∙ replies-sent fd text))
      ∙ reply_or-status_reply st d.status
    where
      word_short : (r : Bool) → length (word r) ≤ 12
      word_short true = omega arith
      word_short false = omega arith

      fits : size fs + 1 < 256
      fits = omega (arith, word_short r, h.app_id_fits, h.perm_fits)

-- z_perm_status on a connection that the broker answers is the broker's decision without a dialog: the
-- cached one, denied where the manifest does not declare the permission, else prompt. The app and
-- the permission fit their buffers, hold no quote or end of line, and are spelled like no key.
pub z_perm_status-decide :
    (env : Env) (b : Broker) (slot fd : ℕ) (app_id perm : Bytes)
    → IsAsked app_id perm
    → z_perm_status (broker_at env b slot fd) app_id perm
      ≡ status_of (decide env.consent b.manifests b.grants false app_id perm).status
unfolding z_perm_status
z_perm_status-decide env b slot fd app_id perm h =
    answered false app_id perm h env b slot fd perm_prompt

-- The callback of z_perm_request, with no request outstanding, is called with the broker's decision, for
-- which the user is asked where there is none yet. The app and the permission fit their buffers, hold
-- no quote or end of line, and are spelled like no key.
pub z_perm_request-decide :
    (env : Env) (b : Broker) (slot fd : ℕ) (app_id perm : Bytes)
    → IsAsked app_id perm
    → z_perm_request false (broker_at env b slot fd) app_id perm
      ≡ status_of (decide env.consent b.manifests b.grants true app_id perm).status
unfolding z_perm_request
z_perm_request-decide env b slot fd app_id perm h =
    answered true app_id perm h env b slot fd perm_denied
