-- ===== src/Client.antt =====
-- sdk/src/app.c, the client half of the broker's protocol: the requests over connections of their own
-- (permissions, settings, notifications). Client.Mailbox has the control connection.
use zelto_os.Prelude.{
  ℕ, zero, suc, ◌+◌, ◌-◌, Bool, true, false, not, ◌&&◌, ◌||◌, List, [], ◌∷◌, ◌++◌, Option, none,
  some, if◌then◌else◌, ◌==◌, ltb, length,
}
use zelto_os.Text.{Bytes, codes, eqb, clip, find_after}
use zelto_os.Number.{ℤ, pos, negsuc, strtoll, show_ℤ}
use zelto_os.Zsysd.Wire.{json_get}
use zelto_os.Zsysd.Wire.Fields.{Field, request}
pub mod Answers
pub mod Asks
pub mod Keeps
pub mod Mailbox

-- A connection to the broker: whether connect succeeds and write takes a whole message, and what the
-- broker writes on it until it closes.
pub record Conn : Type 0 where
  pub connects : Bool
  pub takes : Bool
  pub answer : Bytes → Bytes

pub data PermStatus : Type 0 where
  perm_granted perm_denied perm_prompt : PermStatus

-- strstr(line, word)
abbrev pub holds : Bytes → Bytes → Bool
holds word line = elim (find_after word line) [ some rest ↦ true | none ↦ false ]

unfoldable pub zsysd_parse_status : Bytes → PermStatus
unfolding find_after
zsysd_parse_status line =
    if holds (codes "granted") line
    then perm_granted
    else if holds (codes "denied") line
    then perm_denied
    else perm_prompt

abbrev pub cons_read : ℕ → Option Bytes → Option Bytes
cons_read c none = none
cons_read c (some l) = some (c ∷ l)

-- A line of at most n - 1 bytes; `none` is the end of the stream before it is whole.
unfoldable pub read_from : ℕ → Bytes → Option Bytes
read_from zero s = some []
read_from (suc room) [] = none
read_from (suc room) (c ∷ s) =
    let rest = read_from room s in if c == b'\n' then some [] else cons_read c rest

abbrev pub zsysd_read_line : ℕ → Bytes → Option Bytes
zsysd_read_line n s = read_from (n - 1) s

abbrev pub pair : Bytes → Bytes → Field
pair k v = record { key = k; value = v }

-- A format {"k":"%s",...}\n and its arguments.
abbrev pub message : List Field → Bytes
message fs = request fs ++ b'\n' ∷ []

-- snprintf into a buffer of n bytes, and the write: what comes back, where the message fits.
unfoldable pub ask : ℕ → Conn → List Field → Option Bytes
unfolding request
ask n conn fs =
    if conn.connects && (ltb (length (message fs)) n && conn.takes)
    then some (conn.answer (message fs))
    else none

abbrev pub perm_fields : Bytes → Bytes → Bytes → List Field
perm_fields op app_id perm =
    pair (codes "op") op ∷ pair (codes "app_id") app_id ∷ pair (codes "perm") perm ∷ []

-- What a reply line says, and the status where there is none.
abbrev pub parsed_or : PermStatus → Option Bytes → PermStatus
parsed_or st none = st
parsed_or st (some l) = zsysd_parse_status l

abbrev pub reply_or : PermStatus → Option Bytes → PermStatus
reply_or st none = st
reply_or st (some s) = parsed_or st (zsysd_read_line 256 s)

unfoldable pub z_perm_status : Conn → Bytes → Bytes → PermStatus
unfolding ask zsysd_parse_status read_from
z_perm_status conn app_id name =
    reply_or perm_prompt (ask 256 conn (perm_fields (codes "perm_status") app_id name))

-- z_perm_request and, where it waits for the answer, perm_handle_reply: the status that the callback is
-- called with. The flag is whether a request is outstanding.
unfoldable pub z_perm_request : Bool → Conn → Bytes → Bytes → PermStatus
unfolding ask zsysd_parse_status read_from
z_perm_request outstanding conn app_id name =
    let st = reply_or perm_denied (ask 256 conn (perm_fields (codes "perm_request") app_id name)) in
    if outstanding then perm_denied else st

abbrev pub or_fallback : Option Bytes → Option Bytes → Option Bytes
or_fallback fallback none = fallback
or_fallback fallback (some []) = fallback
or_fallback fallback (some (c ∷ v)) = some (c ∷ v)

abbrev pub value_in : Option Bytes → Option Bytes → Option Bytes
value_in fallback none = fallback
value_in fallback (some l) = or_fallback fallback (json_get l (codes "value") 256)

abbrev pub value_from : Option Bytes → Option Bytes → Option Bytes
value_from fallback none = fallback
value_from fallback (some s) = value_in fallback (zsysd_read_line 256 s)

unfoldable pub z_setting_get_str : Conn → Bytes → Option Bytes → Option Bytes
unfolding ask read_from json_get
z_setting_get_str conn key fallback =
    value_from fallback
      (ask 128 conn (pair (codes "op") (codes "settings_get") ∷ pair (codes "key") key ∷ []))

abbrev pub int_or : ℤ → Option Bytes → ℤ
int_or fallback none = fallback
int_or fallback (some []) = fallback
int_or fallback (some (c ∷ s)) = strtoll (c ∷ s)

unfoldable pub z_setting_get_int : Conn → Bytes → ℤ → ℤ
unfolding z_setting_get_str strtoll
z_setting_get_int conn key fallback = int_or fallback (z_setting_get_str conn key none)

abbrev pub set_fields : Bytes → Bytes → List Field
set_fields key value =
    pair (codes "op") (codes "settings_set")
    ∷ pair (codes "key") key
    ∷ pair (codes "value") value
    ∷ []

-- What a request that is not answered writes, if anything.
unfoldable pub tell : ℕ → Conn → List Field → Option Bytes
unfolding request
tell n conn fs = if conn.connects && ltb (length (message fs)) n then some (message fs) else none

unfoldable pub z_setting_set_str : Conn → Bytes → Bytes → Option Bytes
unfolding tell
z_setting_set_str conn key value = tell 256 conn (set_fields key value)

abbrev pub z_setting_set_int : Conn → Bytes → ℤ → Option Bytes
z_setting_set_int conn key value = z_setting_set_str conn key (clip 32 (show_ℤ value))

pub record ZNotification : Type 0 where
  pub title : Bytes
  pub body : Bytes
  pub channel : Bytes
  pub tap_route : Bytes
  pub action_id : Bytes
  pub action_title : Bytes

abbrev pub z_notify_new : Bytes → Bytes → ZNotification
z_notify_new title body = record {
  title = clip 128 title;
  body = clip 192 body;
  channel = [];
  tap_route = [];
  action_id = [];
  action_title = [];
}

abbrev pub z_notify_set_channel : ZNotification → Bytes → ZNotification
z_notify_set_channel n channel_id = record n { channel = clip 64 channel_id }

abbrev pub z_notify_set_tap_route : ZNotification → Bytes → ZNotification
z_notify_set_tap_route n url = record n { tap_route = clip 256 url }

abbrev pub z_notify_add_action : ZNotification → Bytes → Bytes → ZNotification
z_notify_add_action n id title = record n { action_id = clip 64 id; action_title = clip 64 title }

abbrev pub post_fields : Bytes → ZNotification → List Field
post_fields app_id n =
    pair (codes "op") (codes "notify_post")
    ∷ pair (codes "app_id") app_id
    ∷ pair (codes "title") n.title
    ∷ pair (codes "body") n.body
    ∷ pair (codes "channel") n.channel
    ∷ pair (codes "tap_route") n.tap_route
    ∷ pair (codes "action_id") n.action_id
    ∷ pair (codes "action_title") n.action_title
    ∷ []

abbrev pub id_of : Option Bytes → ℤ
id_of none = negsuc 0
id_of (some s) = strtoll s

abbrev pub id_in : Option Bytes → ℤ
id_in none = negsuc 0
id_in (some l) = id_of (json_get l (codes "id") 24)

abbrev pub id_from : Option Bytes → ℤ
id_from none = negsuc 0
id_from (some s) = id_in (zsysd_read_line 64 s)

-- The id that the broker gives, or -1.
unfoldable pub z_notify_post : Conn → Bytes → ZNotification → ℤ
unfolding ask read_from json_get strtoll
z_notify_post conn app_id n = id_from (ask 1024 conn (post_fields app_id n))

unfoldable pub z_notify_cancel : Conn → ℤ → Option Bytes
unfolding tell
z_notify_cancel conn id =
    tell 64 conn (pair (codes "op") (codes "notify_cancel") ∷ pair (codes "id") (show_ℤ id) ∷ [])

unfoldable pub z_notify_define_channel : Conn → Bytes → Bytes → ℤ → Option Bytes
unfolding tell
z_notify_define_channel conn id name imp = tell 256 conn (
    pair (codes "op") (codes "notify_channel")
    ∷ pair (codes "id") id
    ∷ pair (codes "name") name
    ∷ pair (codes "importance") (show_ℤ imp)
    ∷ [])

unfoldable pub z_notify_set_badge : Conn → Bytes → ℤ → Option Bytes
unfolding tell
z_notify_set_badge conn app_id count = tell 128 conn (
    pair (codes "op") (codes "notify_badge")
    ∷ pair (codes "app_id") app_id
    ∷ pair (codes "count") (show_ℤ count)
    ∷ [])

-- What is written on the control connection, where it is open and the message fits a buffer of n bytes.
unfoldable pub tell_ctrl : ℕ → Bool → List Field → Option Bytes
unfolding request
tell_ctrl n open_fd fs = if open_fd && ltb (length (message fs)) n then some (message fs) else none

unfoldable pub z_open_url : Bool → Bytes → Option Bytes
unfolding tell_ctrl
z_open_url open_fd url = tell_ctrl 320 open_fd (
    pair (codes "op") (codes "intent_resolve")
    ∷ pair (codes "action") (codes "open_url")
    ∷ pair (codes "url") url
    ∷ [])

abbrev pub or_plain : Option Bytes → Bytes
or_plain none = codes "text/plain"
or_plain (some mime) = mime

abbrev pub or_nothing : Option Bytes → Bytes
or_nothing none = []
or_nothing (some text) = text

-- The first item is shared.
unfoldable pub z_share : Bool → List (Option Bytes × Option Bytes) → Option Bytes
unfolding tell_ctrl
z_share open_fd [] = none
z_share open_fd ((mime, text) ∷ items) = tell_ctrl 384 open_fd (
    pair (codes "op") (codes "intent_resolve")
    ∷ pair (codes "action") (codes "share")
    ∷ pair (codes "mime") (or_plain mime)
    ∷ pair (codes "payload") (or_nothing text)
    ∷ [])

unfoldable pub z_notify_report_tap : Bool → ℤ → Option Bytes
unfolding tell_ctrl
z_notify_report_tap open_fd id =
    tell_ctrl 64 open_fd
      (pair (codes "op") (codes "notify_tap") ∷ pair (codes "id") (show_ℤ id) ∷ [])

unfoldable pub z_notify_report_action : Bool → ℤ → Bytes → Option Bytes
unfolding tell_ctrl
z_notify_report_action open_fd id action_id = tell_ctrl 128 open_fd (
    pair (codes "op") (codes "notify_action")
    ∷ pair (codes "id") (show_ℤ id)
    ∷ pair (codes "action") action_id
    ∷ [])
