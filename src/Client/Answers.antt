-- ===== src/Client/Answers.antt =====
-- sdk/src/app.c and system/zsysd/main.c: a request line of the client in the hands of the broker.
use zelto_os.Prelude.{
  ℕ, zero, suc, ◌-◌, ◌≤◌, ◌≡◌, refl, ap, ◌∙◌, Bool, true, false, not, ◌&&◌, List, [], ◌∷◌, ◌++◌,
  some, arith, if◌then◌else◌, ◌==◌, length, take-eq_self, All, All-append,
}
use zelto_os.Text.{Bytes, eqb, take_while, Free}
use zelto_os.Zsysd.State.{Broker, Env, Event, sent}
use zelto_os.Zsysd.Wire.{quote, field, or_empty}
use zelto_os.Zsysd.Wire.Fields.{
  Field, request, rows, lookup, clipped, IsPlain, IsKey, json_get-request,
}
use zelto_os.Zsysd.Handle.{handle_line}
use zelto_os.Client.{Conn, read_from, message}

-- What is written to one descriptor.
abbrev pub replies : ℕ → List Event → Bytes
replies fd [] = []
replies fd (sent g text ∷ es) = if g == fd then text ++ replies fd es else replies fd es
replies fd (_ ∷ es) = replies fd es

abbrev pub in_line : ℕ → Bool
in_line c = not (c == b'\n')

abbrev pub first_line : Bytes → Bytes
first_line s = take_while in_line s

-- A connection that the broker, in that state and on that descriptor, answers.
abbrev pub broker_at : Env → Broker → ℕ → ℕ → Conn
broker_at env b slot fd = record {
  connects = true;
  takes = true;
  answer = λ msg. replies fd (handle_line env b slot fd (first_line msg)).1;
}

first_line-Free : (s r : Bytes) → Free b'\n' s → first_line (s ++ b'\n' ∷ r) ≡ s
unfolding take_while
first_line-Free [] r f = refl
first_line-Free (c ∷ s) r f = ground (arith, first_line-Free s r f.1)

-- Neither the key nor the value holds an end of line.
abbrev pub OneLine : Field → Type 0
OneLine f = Free b'\n' f.key × Free b'\n' f.value

rows-Free :
    (c : ℕ) (fs : List Field) → (c == b'\n') ≡ false → All OneLine fs → Free b'\n' (rows c fs)
unfolding rows
rows-Free c [] h a = (refl, tt)
rows-Free c (f ∷ fs) h a = (
  h,
  (
    refl,
    All-append (λ d. (d == b'\n') ≡ false) f.key
        (quote ∷ b':' ∷ quote ∷ (f.value ++ quote ∷ rows b',' fs)) a.0.0
        (
          refl,
          (
            refl,
            (
              refl,
              All-append (λ d. (d == b'\n') ≡ false) f.value (quote ∷ rows b',' fs) a.0.1
                  (refl, rows-Free b',' fs refl a.1),
            ),
          ),
        ),
  ),
)

pub request-Free : (fs : List Field) → All OneLine fs → Free b'\n' (request fs)
unfolding request
request-Free fs a = rows-Free b'{' fs refl a

-- The broker's line is the request.
pub first_line-message : (fs : List Field) → All OneLine fs → first_line (message fs) ≡ request fs
first_line-message fs a = first_line-Free (request fs) [] (request-Free fs a)

-- A reply line that fits is read as it is.
pub read_from-line :
    (room : ℕ) (l s : Bytes)
    → Free b'\n' l
    → length l ≤ room
    → read_from room (l ++ b'\n' ∷ s) ≡ some l
unfolding read_from
read_from-line zero [] s f h = refl
read_from-line zero (c ∷ l) s f h = absurd (omega (arith, h))
read_from-line (suc room) [] s f h = refl
read_from-line (suc room) (c ∷ l) s f h =
    ground (arith, f.0, read_from-line room l s f.1 (omega (arith, h)))

-- A field of a request, as the broker reads it.
pub field-request :
    (k : Bytes) (n : ℕ) (fs : List Field) (v : Bytes)
    → IsKey k
    → All (IsPlain k) fs
    → lookup k fs ≡ some v
    → length v ≤ n - 1
    → field (request fs) k n ≡ v
unfolding field clipped
field-request k n fs v ik a l h =
    ap or_empty (json_get-request k ik n fs a)
    ∙ ap (λ o. or_empty (clipped n o)) l
    ∙ take-eq_self (n - 1) v h

-- A value that can stand in a request, against the keys that are looked for.
abbrev pub Differs : List Bytes → Bytes → Type 0
Differs ks v = All (λ k. eqb k v ≡ false) ks

-- The bytes of a text of the source, tested.
abbrev pub lacks : ℕ → Bytes → Bool
lacks q [] = true
lacks q (c ∷ s) = not (c == q) && lacks q s

pub lacks-Free : (q : ℕ) (s : Bytes) → lacks q s ≡ true → Free q s
lacks-Free q [] h = tt
lacks-Free q (c ∷ s) h = (ground (arith, h), lacks-Free q s (ground (arith, h)))
