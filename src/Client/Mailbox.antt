-- ===== src/Client/Mailbox.antt =====
-- sdk/src/app.c, the control connection: what the broker pushes, line by line, and the callbacks it
-- becomes. A callback is recorded as a Call; what it does to the app in turn is not modelled.
use zelto_os.Prelude.{
  ℕ, zero, suc, ◌+◌, ◌-◌, Bool, true, false, not, ◌&&◌, ◌||◌, List, [], ◌∷◌, ◌++◌, Option, none,
  some, if◌then◌else◌, ◌==◌, ltb, length, take, drop,
}
use zelto_os.Text.{Bytes, codes, eqb, clip}
use zelto_os.Number.{ℤ, strtoll}
use zelto_os.Zsysd.Wire.{json_get, field}
pub mod Stream
pub mod Stash

-- What ZApp keeps for the connection: which callbacks are registered, and what waits for one.
pub record App : Type 0 where
  pub url_cb : Bool
  pub share_cb : Bool
  pub notify_action_cb : Bool
  pub notify_show_cb : Bool
  pub notify_hide_cb : Bool
  pub settings_cb : Bool
  pub pend_url : Option Bytes
  pub pend_share : Option (Bytes × Bytes)
  pub pend_action : Option (ℤ × Bytes)

pub record ZShownNotification : Type 0 where
  pub id : ℤ
  pub app_id : Bytes
  pub title : Bytes
  pub body : Bytes
  pub tap_route : Bytes
  pub action_id : Bytes
  pub action_title : Bytes

pub data Call : Type 0 where
  url_called : Bytes → Call
  share_called : Bytes → Bytes → Call
  action_called : ℤ → Bytes → Call
  show_called : ZShownNotification → Call
  hide_called : ℤ → Call
  settings_called : Bytes → Bytes → Call

unfoldable pub deliver_share : App → Bytes → Bytes → App × List Call
deliver_share app mime text =
    let m = clip 64 mime in
    let t = clip 256 text in
    if app.share_cb
    then (record app { pend_share = none }, share_called m t ∷ [])
    else (record app { pend_share = some (m, t) }, [])

unfoldable pub deliver_url : App → Bytes → App × List Call
deliver_url app url =
    let u = clip 256 url in
    if app.url_cb
    then (record app { pend_url = none }, url_called u ∷ [])
    else (record app { pend_url = some u }, [])

unfoldable pub deliver_action : App → ℤ → Bytes → App × List Call
deliver_action app id action_id =
    let a = clip 64 action_id in
    if app.notify_action_cb
    then (record app { pend_action = none }, action_called id a ∷ [])
    else (record app { pend_action = some (id, a) }, [])

abbrev pub shown : Bytes → ZShownNotification
shown line = record {
  id = strtoll (field line (codes "id") 24);
  app_id = field line (codes "app_id") 96;
  title = field line (codes "title") 128;
  body = field line (codes "body") 192;
  tap_route = field line (codes "tap_route") 256;
  action_id = field line (codes "action_id") 64;
  action_title = field line (codes "action_title") 64;
}

-- A "deliver" line, by its kind.
unfoldable pub deliver : App → Bytes → Bytes → App × List Call
unfolding deliver_share deliver_url deliver_action field eqb strtoll
deliver app kind line =
    if eqb kind (codes "share")
    then deliver_share app (field line (codes "mime") 64) (field line (codes "payload") 256)
    else if eqb kind (codes "open_url")
    then deliver_url app (field line (codes "url") 256)
    else if eqb kind (codes "notify_action")
    then deliver_action app (strtoll (field line (codes "id") 24)) (field line (codes "action") 64)
    else (app, [])

unfoldable pub dispatch_op : App → Bytes → Bytes → App × List Call
unfolding deliver
dispatch_op app op line =
    if eqb op (codes "notify_show") && app.notify_show_cb
    then (app, show_called (shown line) ∷ [])
    else if eqb op (codes "notify_hide") && app.notify_hide_cb
    then (app, hide_called (strtoll (field line (codes "id") 24)) ∷ [])
    else if eqb op (codes "settings_changed") && app.settings_cb
    then (app, settings_called (field line (codes "key") 64) (field line (codes "value") 160) ∷ [])
    else if not (eqb op (codes "deliver"))
    then (app, [])
    else deliver app (field line (codes "kind") 16) line

abbrev pub dispatch_if : App → Option Bytes → Bytes → App × List Call
dispatch_if app none line = (app, [])
dispatch_if app (some op) line = dispatch_op app op line

unfoldable pub ctrl_dispatch_line : App → Bytes → App × List Call
unfolding dispatch_op json_get
ctrl_dispatch_line app line = dispatch_if app (json_get line (codes "op") 24) line

-- The complete lines of the buffer, in turn.
unfoldable pub dispatch_lines : App → List Bytes → App × List Call
unfolding ctrl_dispatch_line
dispatch_lines app [] = (app, [])
dispatch_lines app (l ∷ ls) =
    let (app1, calls1) = ctrl_dispatch_line app l in
    let (app2, calls2) = dispatch_lines app1 ls in (app2, calls1 ++ calls2)

abbrev pub cons_first : ℕ → List Bytes × Bytes → List Bytes × Bytes
cons_first c ([], r) = ([], c ∷ r)
cons_first c (l ∷ ls, r) = ((c ∷ l) ∷ ls, r)

-- The lines that a newline ends, and what stands behind the last one.
unfoldable pub split_buf : Bytes → List Bytes × Bytes
split_buf [] = ([], [])
split_buf (c ∷ s) =
    let (ls, r) = split_buf s in if c == b'\n' then ([] ∷ ls, r) else cons_first c (ls, r)

-- ctrl_buf[0 .. ctrl_len), with the app; `open` is ctrl_fd >= 0.
pub record Ctrl : Type 0 where
  pub app : App
  pub buf : Bytes
  pub open_fd : Bool

-- sizeof(ctrl_buf) - 1
abbrev pub ctrl_room : ℕ
ctrl_room = 511

-- An overlong line is dropped.
abbrev pub kept : Bytes → Bytes
kept buf = if ltb (length buf) ctrl_room then buf else []

abbrev pub take_in : App → List Bytes × Bytes → Ctrl × List Call
take_in app (ls, r) =
    let (app', calls) = dispatch_lines app ls in
    (record { app = app'; buf = r; open_fd = true }, calls)

-- The result of read: none is an error or the end; the bytes are at most what there is room for.
unfoldable pub ctrl_handle_read : Ctrl → Option Bytes → Ctrl × List Call
unfolding dispatch_lines split_buf
ctrl_handle_read c none = (record c { buf = kept c.buf; open_fd = false }, [])
ctrl_handle_read c (some s) = take_in c.app (split_buf (kept c.buf ++ s))

unfoldable pub z_on_open_url : App → App × List Call
z_on_open_url app = elim app.pend_url [
  | none ↦ (record app { url_cb = true }, [])
  | some u ↦ (record app { url_cb = true; pend_url = none }, url_called u ∷ [])
]

unfoldable pub z_on_share_target : App → App × List Call
z_on_share_target app = elim app.pend_share [
  | none ↦ (record app { share_cb = true }, [])
  | some (m, t) ↦ (record app { share_cb = true; pend_share = none }, share_called m t ∷ [])
]

unfoldable pub z_on_notification_action : App → App × List Call
z_on_notification_action app = elim app.pend_action [
  | none ↦ (record app { notify_action_cb = true }, [])
  | some (i, a) ↦
      (record app { notify_action_cb = true; pend_action = none }, action_called i a ∷ [])
]
