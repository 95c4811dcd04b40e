-- ===== src/Zsysd/Wire/Limits.antt =====
-- system/zsysd/main.c: the length of a field that is read from a request.
use zelto_os.Prelude.{ℕ, ◌-◌, ◌≤◌, [], ◌∷◌, Option, none, some, arith, length, length-take-le}
use zelto_os.Text.{Bytes, take_while, find_after, after_char, drop_while}
use zelto_os.Zsysd.Wire
use zelto_os.Zsysd.Wire.{value_at, json_get, or_empty, field, not_quote, quoted, is_blank}

length-value_at-le : (n : ℕ) (p : Bytes) → length (or_empty (value_at n p)) ≤ n - 1
unfolding value_at
length-value_at-le n [] = omega arith
length-value_at-le n (c ∷ p) = ground (arith, length-take-le (n - 1) (take_while not_quote p))

pub length-field-le : (line key : Bytes) (n : ℕ) → length (field line key n) ≤ n - 1
unfolding field
length-field-le line key n = after (find_after (quoted key) line)
  where
    behind :
        (q : Option Bytes)
        → length (or_empty (Wire.bind q (λ v. value_at n (drop_while is_blank v)))) ≤ n - 1
    behind none = omega arith
    behind (some v) = length-value_at-le n (drop_while is_blank v)

    after :
        (o : Option Bytes)
        → length (
            or_empty (
              Wire.bind o
                (λ p. Wire.bind (after_char b':' p) (λ v. value_at n (drop_while is_blank v)))))
          ≤ n - 1
    after none = omega arith
    after (some p) = behind (after_char b':' p)
