-- ===== src/Zsysd/Wire/Fields.antt =====
-- system/zsysd/main.c: json_get on the lines that a client of the protocol builds.
use zelto_os.Prelude.{
  ℕ, ◌≤◌, ◌≡◌, refl, sym, ◌∙◌, false, List, [], ◌∷◌, ◌++◌, Option, none, some, arith, if◌then◌else◌,
  ◌==◌, length, length-append, take-eq_self, All,
}
use zelto_os.Text.{
  Bytes, eqb, eqb_iff, strip_prefix, find_after, after_char, drop_while, take_while, Free, clip,
}
use zelto_os.Text.Search.{find_after-skip, find_after-quoted, after_char-skip}
use zelto_os.Zsysd.Wire.{quote, quoted, is_blank, not_quote, value_at, json_get, bind}

-- The fields of a request, in the order of the line.
pub record Field : Type 0 where
  pub key : Bytes
  pub value : Bytes

abbrev pub member : Field → Bytes → Bytes
member f rest = quote ∷ (f.key ++ quote ∷ b':' ∷ quote ∷ (f.value ++ quote ∷ rest))

unfoldable pub rows : ℕ → List Field → Bytes
rows c [] = b'}' ∷ []
rows c (f ∷ fs) = c ∷ member f (rows b',' fs)

-- {"k1":"v1","k2":"v2"}, of one field at least.
unfoldable pub request : List Field → Bytes
unfolding rows
request fs = rows b'{' fs

-- The fields up to the first with that key.
unfoldable pub lookup : Bytes → List Field → Option Bytes
lookup k [] = none
lookup k (f ∷ fs) = if eqb k f.key then some f.value else lookup k fs

-- No quote stands in the field, and its value is not spelled like the key that is looked for.
pub record IsPlain (k : Bytes) (f : Field) : Type 0 where
  pub key_free : Free quote f.key
  pub value_free : Free quote f.value
  pub value_ne : eqb k f.value ≡ false

-- A key that can be looked for: it fits the pattern's buffer and is no punctuation of the format.
pub record IsKey (k : Bytes) : Type 0 where
  pub free : Free quote k
  pub fits : length k ≤ 61
  pub ne_colon : eqb k (b':' ∷ []) ≡ false
  pub ne_comma : eqb k (b',' ∷ []) ≡ false

unfoldable pub clipped : ℕ → Option Bytes → Option Bytes
clipped n none = none
clipped n (some v) = some (clip n v)

abbrev pattern_of : Bytes → Bytes
pattern_of k = quote ∷ (k ++ quote ∷ [])

quoted-pattern : (k : Bytes) → length k ≤ 61 → quoted k ≡ pattern_of k
quoted-pattern k h = take-eq_self 63 (pattern_of k) (omega (arith, length-append k (quote ∷ [])))

strip_prefix-Free : (k s : Bytes) → Free quote s → strip_prefix (k ++ quote ∷ []) s ≡ none
unfolding strip_prefix
strip_prefix-Free [] [] f = refl
strip_prefix-Free [] (d ∷ s) f = ground arith
strip_prefix-Free (c ∷ k) [] f = refl
strip_prefix-Free (c ∷ k) (d ∷ s) f = ground (arith, strip_prefix-Free k s f.1)

find_after-last : (k s : Bytes) → Free quote s → find_after (pattern_of k) (quote ∷ s) ≡ none
unfolding find_after strip_prefix
find_after-last k s f = ground (arith, strip_prefix-Free k s f, tail_none s f)
  where
    tail_none : (s : Bytes) → Free quote s → find_after (pattern_of k) s ≡ none
    tail_none [] f = refl
    tail_none (d ∷ s) f = ground (arith, tail_none s f.1)

module _ (k : Bytes) (is_key : IsKey k) where
  -- From a value's closing quote the search goes on at the next field.
  find_after-rows :
      (fs : List Field)
      → find_after (pattern_of k) (quote ∷ rows b',' fs) ≡ find_after (pattern_of k) (rows b',' fs)
  unfolding rows find_after
  find_after-rows [] =
      find_after-last k (b'}' ∷ []) (refl, tt)
      ∙ sym (find_after-skip quote (k ++ quote ∷ []) (b'}' ∷ []) [] (refl, tt))
  find_after-rows (f ∷ fs) = ground (
    arith,
    find_after-quoted quote k (b',' ∷ [])
        (f.key ++ quote ∷ b':' ∷ quote ∷ (f.value ++ quote ∷ rows b',' fs)) is_key.free (refl, tt),
    is_key.ne_comma,
    find_after-skip quote (k ++ quote ∷ []) (b',' ∷ []) (member f (rows b',' fs)) (refl, tt),
  )

  find_after-member :
      (f : Field) (rest : Bytes)
      → IsPlain k f
      → find_after (pattern_of k) (member f rest) ≡ (
          if eqb k f.key
          then some (b':' ∷ quote ∷ (f.value ++ quote ∷ rest))
          else find_after (pattern_of k) (quote ∷ rest))
  find_after-member f rest p = ground (
    arith,
    find_after-quoted quote k f.key (b':' ∷ quote ∷ (f.value ++ quote ∷ rest)) is_key.free
        p.key_free,
    find_after-quoted quote k (b':' ∷ []) (f.value ++ quote ∷ rest) is_key.free (refl, tt),
    is_key.ne_colon,
    find_after-quoted quote k f.value rest is_key.free p.value_free,
    p.value_ne,
  )

  abbrev at_key : List Field → Option Bytes
  at_key [] = none
  at_key (f ∷ fs) =
      if eqb k f.key then some (b':' ∷ quote ∷ (f.value ++ quote ∷ rows b',' fs)) else at_key fs

  find_after-at_key :
      (c : ℕ) (fs : List Field)
      → (c == quote) ≡ false
      → All (IsPlain k) fs
      → find_after (pattern_of k) (rows c fs) ≡ at_key fs
  unfolding rows
  find_after-at_key c [] h a =
      find_after-skip quote (k ++ quote ∷ []) (b'}' ∷ []) [] (refl, tt) ∙ unfold find_after in refl
  find_after-at_key c (f ∷ fs) h a = ground (
    arith,
    find_after-skip quote (k ++ quote ∷ []) (c ∷ []) (member f (rows b',' fs)) (h, tt),
    find_after-member f (rows b',' fs) a.0,
    find_after-rows fs,
    find_after-at_key b',' fs refl a.1,
  )

  take_while-Free : (v rest : Bytes) → Free quote v → take_while not_quote (v ++ quote ∷ rest) ≡ v
  unfolding take_while
  take_while-Free [] rest f = refl
  take_while-Free (c ∷ v) rest f = ground (arith, take_while-Free v rest f.1)

  -- The rest of json_get, behind the pattern.
  read_value : ℕ → Option Bytes → Option Bytes
  read_value n o = bind o λ p. bind (after_char b':' p) λ v. value_at n (drop_while is_blank v)

  at_key-lookup :
      (n : ℕ) (fs : List Field)
      → All (IsPlain k) fs
      → read_value n (at_key fs) ≡ clipped n (lookup k fs)
  unfolding read_value clipped lookup after_char drop_while value_at
  at_key-lookup n [] a = refl
  at_key-lookup n (f ∷ fs) a =
      ground (arith, at_key-lookup n fs a.1, take_while-Free f.value (rows b',' fs) a.0.value_free)

  -- On a line of quoted fields with no quote inside and no value spelled like the key, json_get
  -- reads the value of the first field with the key, cut to the buffer, and fails if there is
  -- none. The key has at most 61 bytes, no quote, and is neither a colon nor a comma.
  pub json_get-request :
      (n : ℕ) (fs : List Field)
      → All (IsPlain k) fs
      → json_get (request fs) k n ≡ clipped n (lookup k fs)
  unfolding json_get request
  json_get-request n fs a =
      rw (quoted-pattern k is_key.fits, find_after-at_key b'{' fs refl a)
        (unfold read_value in at_key-lookup n fs a)

  find_after-misread :
      (f : Field) (rest : Bytes)
      → f.value ≡ k
      → eqb k f.key ≡ false
      → Free quote f.key
      → find_after (pattern_of k) (b'{' ∷ member f rest) ≡ some rest
  find_after-misread f rest e ne kf = ground (
    arith,
    find_after-skip quote (k ++ quote ∷ []) (b'{' ∷ []) (member f rest) (refl, tt),
    find_after-quoted quote k f.key (b':' ∷ quote ∷ (f.value ++ quote ∷ rest)) is_key.free kf,
    find_after-quoted quote k (b':' ∷ []) (f.value ++ quote ∷ rest) is_key.free (refl, tt),
    is_key.ne_colon,
    find_after-quoted quote k k rest is_key.free is_key.free,
    eqb_iff k k,
  )

  -- If the value of the first field is spelled like the key, and its own key is not, the value is
  -- taken for the key: the result is the value of the second field, cut to the buffer. No quote
  -- stands in the first field's key and the second's value, no colon in the second's key; the key
  -- looked for has at most 61 bytes, no quote, and is neither a colon nor a comma.
  pub json_get_misread :
      (n : ℕ) (f g : Field) (fs : List Field)
      → f.value ≡ k
      → eqb k f.key ≡ false
      → Free quote f.key
      → Free b':' g.key
      → Free quote g.value
      → json_get (request (f ∷ g ∷ fs)) k n ≡ some (clip n g.value)
  unfolding json_get request rows after_char drop_while value_at
  json_get_misread n f g fs e ne kf kg vg =
      rw
        (
          quoted-pattern k is_key.fits,
          find_after-misread f (b',' ∷ member g (rows b',' fs)) e ne kf,
        )
        (ground (
          arith,
          after_char-skip b':' g.key (quote ∷ b':' ∷ quote ∷ (g.value ++ quote ∷ rows b',' fs)) kg,
          take_while-Free g.value (rows b',' fs) vg,
        ))
