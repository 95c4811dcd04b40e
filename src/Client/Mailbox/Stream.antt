-- ===== src/Client/Mailbox/Stream.antt =====
-- sdk/src/app.c: the control connection read in pieces.
use mathlib.Core.List.{append_assoc}
use zelto_os.Prelude.{
  ℕ, zero, suc, ◌-◌, ◌≤◌, ◌<◌, ◌≡◌, refl, sym, ap, ◌∙◌, inl, inr, true, false, List, [], ◌∷◌, ◌++◌,
  some, arith, if◌then◌else◌, ◌==◌, Bool-cases, length, ltb, All, take, drop, subst,
}
use zelto_os.Text.{Bytes, Free}
use zelto_os.Client.Mailbox.{
  App, Call, ctrl_dispatch_line, dispatch_lines, cons_first, split_buf, Ctrl, ctrl_room, kept,
  take_in, ctrl_handle_read,
}

-- The lines of a text and its rest, from what is left of the text before it.
abbrev join : List Bytes × Bytes → Bytes → List Bytes × Bytes
join (ls, r) b = let (ls', r') = split_buf (r ++ b) in (ls ++ ls', r')

abbrev add : ℕ → List Bytes × Bytes → List Bytes × Bytes
add c (ls, r) = if c == b'\n' then ([] ∷ ls, r) else cons_first c (ls, r)

add-join : (c : ℕ) (p : List Bytes × Bytes) (b : Bytes) → add c (join p b) ≡ join (add c p) b
unfolding split_buf
add-join c ([], r) b = elim (Bool-cases (c == b'\n')) [
  | inl e ↦ rw e refl
  | inr e ↦ ground (arith, e)
]
add-join c (l ∷ ls, r) b = elim (Bool-cases (c == b'\n')) [ inl e ↦ rw e refl | inr e ↦ rw e refl ]

split_buf-append : (a b : Bytes) → split_buf (a ++ b) ≡ join (split_buf a) b
unfolding split_buf
split_buf-append [] b = refl
split_buf-append (c ∷ a) b = ap (add c) (split_buf-append a b) ∙ add-join c (split_buf a) b

dispatch_lines-append :
    (app : App) (ls ls' : List Bytes)
    → dispatch_lines app (ls ++ ls') ≡ (
      (dispatch_lines (dispatch_lines app ls).0 ls').0,
      (dispatch_lines app ls).1 ++ (dispatch_lines (dispatch_lines app ls).0 ls').1,
    )
unfolding dispatch_lines
dispatch_lines-append app [] ls' = refl
dispatch_lines-append app (l ∷ ls) ls' =
    let app1 = (ctrl_dispatch_line app l).0 in
    let calls1 = (ctrl_dispatch_line app l).1 in
    let mid = dispatch_lines app1 ls in
    let last = dispatch_lines mid.0 ls' in
    ap (λ x. (x.0, calls1 ++ x.1)) (dispatch_lines-append app1 ls ls')
    ∙ ap (λ x. (last.0, x)) (sym (append_assoc calls1 mid.1 last.1))

-- No line, and not what stands behind the last one, fills the buffer.
abbrev pub IsShort : Bytes → Type 0
IsShort s = All (λ l. length l < ctrl_room) (split_buf s).0 × (length (split_buf s).1 < ctrl_room)

abbrev first_length : List Bytes × Bytes → ℕ
first_length ([], r) = length r
first_length (l ∷ ls, r) = length l

first_length-append : (r b : Bytes) → Free b'\n' r → length r ≤ first_length (split_buf (r ++ b))
unfolding split_buf
first_length-append [] b f = omega arith
first_length-append (c ∷ r) b f = rw f.0 (longer (split_buf (r ++ b)) (first_length-append r b f.1))
  where
    longer :
        (p : List Bytes × Bytes)
        → length r ≤ first_length p
        → suc (length r) ≤ first_length (cons_first c p)
    longer ([], t) h = omega (arith, h)
    longer (l ∷ ls, t) h = omega (arith, h)

rest-Free : (a : Bytes) → Free b'\n' (split_buf a).1
unfolding split_buf
rest-Free [] = tt
rest-Free (c ∷ a) = elim (Bool-cases (c == b'\n')) [
  | inl e ↦ rw e (rest-Free a)
  | inr e ↦ rw e (longer (split_buf a) e (rest-Free a))
]
  where
    longer :
        (p : List Bytes × Bytes)
        → (c == b'\n') ≡ false
        → Free b'\n' p.1
        → Free b'\n' (cons_first c p).1
    longer ([], t) e h = (e, h)
    longer (l ∷ ls, t) e h = h

All-append_right : (P : Bytes → Type 0) (xs ys : List Bytes) → All P (xs ++ ys) → All P ys
All-append_right P [] ys h = h
All-append_right P (x ∷ xs) ys h = All-append_right P xs ys h.1

abbrev Short : List Bytes × Bytes → Type 0
Short p = All (λ l. length l < ctrl_room) p.0 × (length p.1 < ctrl_room)

first_length-Short : (p : List Bytes × Bytes) → Short p → first_length p < ctrl_room
first_length-Short ([], r) h = h.1
first_length-Short (l ∷ ls, r) h = h.0.0

join-Short : (p : List Bytes × Bytes) (b : Bytes) → Short (join p b) → IsShort (p.1 ++ b)
join-Short (ls, r) b h =
    (All-append_right (λ l. length l < ctrl_room) ls (split_buf (r ++ b)).0 h.0, h.1)

-- What is kept of short lines is short, and stays so as the stream goes on.
rest-IsShort : (a b : Bytes) → IsShort (a ++ b) → IsShort ((split_buf a).1 ++ b)
rest-IsShort a b h = join-Short (split_buf a) b (subst Short (split_buf-append a b) h)

rest-short : (a b : Bytes) → IsShort (a ++ b) → length (split_buf a).1 < ctrl_room
rest-short a b h =
    let r = (split_buf a).1 in
    omega (
      arith,
      first_length-append r b (rest-Free a),
      first_length-Short (split_buf (r ++ b)) (rest-IsShort a b h),
    )

abbrev pub after : List Call → Ctrl × List Call → Ctrl × List Call
after calls (c, calls') = (c, calls ++ calls')

-- Reading on from one read.
abbrev on_from : Ctrl × List Call → Bytes → Ctrl × List Call
on_from (c, calls) b = after calls (take_in c.app (split_buf (c.buf ++ b)))

take_in-join :
    (app : App) (p : List Bytes × Bytes) (b : Bytes)
    → take_in app (join p b) ≡ on_from (take_in app p) b
take_in-join app (ls, r) b =
    let q = split_buf (r ++ b) in
    ap (λ x. (record { app = x.0; buf = q.1; open_fd = true }, x.1))
      (dispatch_lines-append app ls q.0)

take_in-append :
    (app : App) (buf s b : Bytes)
    → take_in app (split_buf (buf ++ (s ++ b))) ≡ on_from (take_in app (split_buf (buf ++ s))) b
take_in-append app buf s b =
    ap (λ x. take_in app (split_buf x)) (sym (append_assoc buf s b))
    ∙ ap (take_in app) (split_buf-append (buf ++ s) b)
    ∙ take_in-join app (split_buf (buf ++ s)) b

-- A read of up to n + 1 bytes of what has arrived, as far as the buffer has room.
abbrev pub chunk : Ctrl → ℕ → ℕ
chunk c n =
    if ltb (suc n) (ctrl_room - length (kept c.buf)) then suc n else ctrl_room - length (kept c.buf)

-- A run of reads over what arrives: the connection, the callbacks, and what is not read yet.
unfoldable pub run : Ctrl → List ℕ → Bytes → (Ctrl × List Call) × Bytes
unfolding ctrl_handle_read
run c [] stream = ((c, []), stream)
run c (n ∷ ns) stream =
    let (c1, calls1) = ctrl_handle_read c (some (take (chunk c n) stream)) in
    let (d, rest) = run c1 ns (drop (chunk c n) stream) in (after calls1 d, rest)

take-drop : (n : ℕ) (s : Bytes) → take n s ++ drop n s ≡ s
take-drop zero s = refl
take-drop (suc n) [] = refl
take-drop (suc n) (c ∷ s) = ap (◌∷◌ c) (take-drop n s)

after-after :
    (calls calls' : List Call) (x : Ctrl × List Call)
    → after calls (after calls' x) ≡ after (calls ++ calls') x
after-after calls calls' (c, more) = ap (λ y. (c, y)) (sym (append_assoc calls calls' more))

handle-short :
    (c : Ctrl) (s : Bytes)
    → length c.buf < ctrl_room
    → ctrl_handle_read c (some s) ≡ take_in c.app (split_buf (c.buf ++ s))
unfolding ctrl_handle_read
handle-short c s h =
    let e : kept c.buf ≡ c.buf = ground (arith, h) in ap (λ x. take_in c.app (split_buf (x ++ s))) e

-- All of the stream at once, from a connection.
abbrev all_of : Ctrl → Bytes → Ctrl × List Call
all_of c stream = take_in c.app (split_buf (c.buf ++ stream))

buf-short : (buf s : Bytes) → Free b'\n' buf → IsShort (buf ++ s) → length buf < ctrl_room
buf-short buf s f h =
    omega (arith, first_length-append buf s f, first_length-Short (split_buf (buf ++ s)) h)

abbrev Follows : Ctrl → Bytes → (Ctrl × List Call) × Bytes → Type 0
Follows c stream t = all_of c stream ≡ after t.0.1 (all_of t.0.0 t.1)

run-Follows :
    (c : Ctrl) (ns : List ℕ) (stream : Bytes)
    → Free b'\n' c.buf
    → IsShort (c.buf ++ stream)
    → Follows c stream (run c ns stream)
unfolding run
run-Follows c [] stream f h = refl
run-Follows c (n ∷ ns) stream f h =
    let s = take (chunk c n) stream in
    let b = drop (chunk c n) stream in
    let p = split_buf (c.buf ++ s) in
    let h1 = take_in c.app p in
    let whole : IsShort ((c.buf ++ s) ++ b) =
      subst IsShort
        (ap (λ x. c.buf ++ x) (sym (take-drop (chunk c n) stream)) ∙ sym (append_assoc c.buf s b))
        h in
    let ih = run-Follows h1.0 ns b (rest-Free (c.buf ++ s)) (rest-IsShort (c.buf ++ s) b whole) in
    let t = run h1.0 ns b in
    let here : Follows c stream (after h1.1 t.0, t.1) =
      ap (all_of c) (sym (take-drop (chunk c n) stream))
      ∙ take_in-append c.app c.buf s b
      ∙ ap (after h1.1) ih
      ∙ after-after h1.1 t.0.1 (all_of t.0.0 t.1) in
    subst (λ x. Follows c stream (after x.1 (run x.0 ns b).0, (run x.0 ns b).1))
      (sym (handle-short c s (buf-short c.buf stream f h))) here

abbrev pub fresh : App → Ctrl
fresh app = record { app = app; buf = []; open_fd = true }

-- Where no line fills the buffer, that is, each has less than 511 bytes, and so has what stands behind the
-- last of them: however what the broker writes is cut into reads, the callbacks are those of its
-- complete lines, each line once and in order. Those called so far are the first of them, and what is
-- in the buffer and not yet read gives the others. The connection is new.
pub run-dispatch_lines :
    (app : App) (ns : List ℕ) (stream : Bytes)
    → IsShort stream
    → let (t, calls) = (run (fresh app) ns stream).0 in
      let later = dispatch_lines t.app (split_buf (t.buf ++ (run (fresh app) ns stream).1)).0 in
      dispatch_lines app (split_buf stream).0 ≡ (later.0, calls ++ later.1)
run-dispatch_lines app ns stream h =
    ap (λ x. (x.0.app, x.1)) (run-Follows (fresh app) ns stream tt h)
