-- ===== src/Zsysd/Wire.antt =====
-- system/zsysd/main.c, the line protocol: json_get and the texts of the replies and pushes.
-- A number in a message is written by `show` (printf's %lld) and read back by `atoll`.
use zelto_os.Prelude.{
  ℕ, zero, suc, ◌+◌, ◌-◌, ◌*◌, ◌/◌, ◌%◌, Bool, true, false, not, ◌&&◌, ◌||◌, List, [], ◌∷◌, ◌++◌,
  Option, none, some, if◌then◌else◌, ◌==◌, leb,
}
use zelto_os.Text.{Bytes, codes, find_after, after_char, drop_while, take_while, clip}
pub mod Fields
pub mod Limits

abbrev pub quote : ℕ
quote = 34

abbrev pub is_blank : ℕ → Bool
is_blank c = c == b' ' || c == b'\t'

abbrev pub not_quote : ℕ → Bool
not_quote c = not (c == quote)

-- The pattern "\"key\"" in its buffer of 64 bytes.
abbrev pub quoted : Bytes → Bytes
quoted key = clip 64 (quote ∷ (key ++ quote ∷ []))

-- The value behind the colon: blanks, a quote, and at most n - 1 bytes up to the next quote.
unfoldable pub value_at : ℕ → Bytes → Option Bytes
value_at n [] = none
value_at n (c ∷ p) = if c == quote then some (clip n (take_while not_quote p)) else none

abbrev pub bind {ℓ κ} : {A : Type ℓ} {B : Type κ} → Option A → (A → Option B) → Option B
bind none f = none
bind (some a) f = f a

unfoldable pub json_get : Bytes → Bytes → ℕ → Option Bytes
unfolding find_after after_char value_at drop_while take_while
json_get buf key n =
    bind (find_after (quoted key) buf)
      λ p. bind (after_char b':' p) λ v. value_at n (drop_while is_blank v)

abbrev pub or_empty : Option Bytes → Bytes
or_empty none = []
or_empty (some v) = v

-- char out[n] = {0}; json_get(line, key, out, n);
unfoldable pub field : Bytes → Bytes → ℕ → Bytes
unfolding json_get
field line key n = or_empty (json_get line key n)

-- The decimal digits of a number, by fuel: a number has at most as many digits as its value plus one.
unfoldable pub show_from : ℕ → ℕ → Bytes → Bytes
show_from zero n acc = acc
show_from (suc f) n acc =
    let d = (b'0' + n % 10) ∷ acc in
    let rest = show_from f (n / 10) d in if n / 10 == 0 then d else rest

unfoldable pub show : ℕ → Bytes
unfolding show_from
show n = show_from (suc n) n []

abbrev pub is_digit : ℕ → Bool
is_digit c = leb b'0' c && leb c b'9'

unfoldable pub digits_from : ℕ → Bytes → ℕ
digits_from acc [] = acc
digits_from acc (c ∷ s) =
    let rest = digits_from (acc * 10 + (c - b'0')) s in if is_digit c then rest else acc

abbrev pub is_white : ℕ → Bool
is_white c = c == b' ' || (leb 9 c && leb c 13)

unfoldable pub signed_from : Bytes → Option ℕ
unfolding digits_from
signed_from [] = some 0
signed_from (c ∷ s) =
    if c == b'-'
    then (if digits_from 0 s == 0 then some 0 else none)
    else if c == b'+'
    then some (digits_from 0 s)
    else some (digits_from 0 (c ∷ s))

-- libc's atoll on the values in range; `none` stands for a negative number, which no id is.
unfoldable pub atoll : Bytes → Option ℕ
unfolding signed_from drop_while
atoll s = signed_from (drop_while is_white s)

-- The texts of the messages, without and with values.
abbrev pub status_reply : Bytes → Bytes
status_reply st = codes "{\"status\":\"" ++ (st ++ codes "\"}\n")

abbrev pub id_reply : Bytes → Bytes
id_reply id = codes "{\"id\":\"" ++ (id ++ codes "\"}\n")

abbrev pub value_reply : Bytes → Bytes
value_reply v = codes "{\"value\":\"" ++ (v ++ codes "\"}\n")

abbrev pub deliver_share : Bytes → Bytes → Bytes
deliver_share mime payload =
    codes "{\"op\":\"deliver\",\"kind\":\"share\",\"mime\":\""
    ++ (mime ++ (codes "\",\"payload\":\"" ++ (payload ++ codes "\"}\n")))

abbrev pub deliver_url : Bytes → Bytes
deliver_url url =
    codes "{\"op\":\"deliver\",\"kind\":\"open_url\",\"url\":\"" ++ (url ++ codes "\"}\n")

abbrev pub deliver_action : Bytes → Bytes → Bytes
deliver_action id action =
    codes "{\"op\":\"deliver\",\"kind\":\"notify_action\",\"id\":\""
    ++ (id ++ (codes "\",\"action\":\"" ++ (action ++ codes "\"}\n")))

abbrev pub notify_hide : Bytes → Bytes
notify_hide id = codes "{\"op\":\"notify_hide\",\"id\":\"" ++ (id ++ codes "\"}\n")

abbrev pub settings_changed : Bytes → Bytes → Bytes
settings_changed key value =
    codes "{\"op\":\"settings_changed\",\"key\":\""
    ++ (key ++ (codes "\",\"value\":\"" ++ (value ++ codes "\"}\n")))
