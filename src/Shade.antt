-- ===== src/Shade.antt =====
-- system/shade/main.c, the notification shade: the banners and their history (on_show, on_hide), what the
-- taps on a card send, and the quick settings. The pull gesture and the views are left out.
use zelto_os.Prelude.{
  ℕ, ◌+◌, ◌-◌, Bool, true, false, not, ◌&&◌, List, [], ◌∷◌, ◌++◌, Option, none, some, if◌then◌else◌,
  ltb, ◌==◌, length, take, replicate,
}
use zelto_os.Prelude.Slots.{any, find?, modify_first, count}
use zelto_os.Text.{Bytes, codes, eqb, clip}
use zelto_os.Number.{ℤ, pos, eqb_ℤ, low_word, strtoll}
use zelto_os.Client.{
  z_open_url, z_notify_report_tap, z_notify_report_action, Conn, z_setting_set_int,
}
use zelto_os.Client.Mailbox.{ZShownNotification}
pub mod Mirror

abbrev pub max_banners : ℕ
max_banners = 8

abbrev pub max_history : ℕ
max_history = 6

pub record Banner : Type 0 where
  pub used : Bool
  pub id : ℤ
  pub app_id : Bytes
  pub title : Bytes
  pub body : Bytes
  pub tap_route : Bytes
  pub action_id : Bytes
  pub action_title : Bytes

-- The history is its first n_history entries.
pub record ShadeState : Type 0 where
  pub banners : List Banner
  pub history : List Banner
  pub qs_loaded : Bool
  pub qs_wifi : Bool
  pub qs_mute : Bool
  pub qs_bright : Bool

abbrev pub is_banner : ℤ → Banner → Bool
is_banner id b = b.used && eqb_ℤ b.id id

abbrev pub is_free : Banner → Bool
is_free b = not b.used

unfoldable pub banner_by_id : ShadeState → ℤ → Option Banner
banner_by_id s id = find? (is_banner id) s.banners

abbrev pub banner_of : ZShownNotification → Banner
banner_of n = record {
  used = true;
  id = n.id;
  app_id = clip 96 n.app_id;
  title = clip 128 n.title;
  body = clip 192 n.body;
  tap_route = clip 256 n.tap_route;
  action_id = clip 64 n.action_id;
  action_title = clip 64 n.action_title;
}

-- The banner with the id, else the first free slot, else nothing.
unfoldable pub on_show : ZShownNotification → ShadeState → ShadeState
on_show n s = record s {
  banners =
      modify_first (if any (is_banner n.id) s.banners then is_banner n.id else is_free)
        (λ b. banner_of n) s.banners;
}

abbrev pub unused : Banner → Banner
unused b = record b { used = false }

-- The banner in front, the others shifted down one.
abbrev pub shift_in : Banner → List Banner → List Banner
shift_in b hs = b ∷ take (if ltb (length hs) max_history then length hs else max_history - 1) hs

abbrev pub dismiss : ℤ → Option Banner → ShadeState → ShadeState
dismiss id none s = s
dismiss id (some b) s = record s {
  banners = modify_first (is_banner id) unused s.banners;
  history = shift_in b s.history;
}

unfoldable pub on_hide : ℤ → ShadeState → ShadeState
unfolding banner_by_id
on_hide id s = dismiss id (banner_by_id s id) s

abbrev pub in_use : Banner → Bool
in_use b = b.used

abbrev pub active_count : ShadeState → ℕ
active_count s = count in_use s.banners

abbrev pub has_text : Bytes → Bool
has_text [] = false
has_text (c ∷ s) = true

-- What a tap on the card, and on its action, writes on the control connection.
unfoldable pub tap_body : Bool → Banner → List (Option Bytes)
unfolding z_open_url z_notify_report_tap
tap_body open_fd b =
    let report = z_notify_report_tap open_fd b.id ∷ [] in
    if has_text b.tap_route then z_open_url open_fd b.tap_route ∷ report else report

unfoldable pub tap_action : Bool → Banner → Option Bytes
unfolding z_notify_report_action
tap_action open_fd b = z_notify_report_action open_fd b.id b.action_id

abbrev pub is_on : ℤ → Bool
is_on n = not (eqb_ℤ n (pos 0))

-- The quick settings, read once; `get` is z_setting_get_int.
abbrev pub ensure_qs : (Bytes → ℤ → ℤ) → ShadeState → ShadeState
ensure_qs get s = if s.qs_loaded then s else record s {
  qs_loaded = true;
  qs_wifi = is_on (get (codes "sys.wifi") (pos 1));
  qs_mute = is_on (get (codes "sys.mute") (pos 0));
  qs_bright = is_on (get (codes "sys.bright") (pos 1));
}

-- atoi keeps the low 32 bits.
unfoldable pub on_qs_setting : Bytes → Bytes → ShadeState → ShadeState
unfolding eqb strtoll
on_qs_setting key value s =
    let v = not (low_word (strtoll value) == 0) in
    if eqb key (codes "sys.wifi")
    then record s { qs_wifi = v }
    else if eqb key (codes "sys.mute")
    then record s { qs_mute = v }
    else if eqb key (codes "sys.bright")
    then record s { qs_bright = v }
    else s

abbrev pub int_of : Bool → ℤ
int_of true = pos 1
int_of false = pos 0

-- The state after a toggle, and what is sent.
unfoldable pub toggle_wifi : Conn → ShadeState → ShadeState × Option Bytes
toggle_wifi conn s =
    let v = not s.qs_wifi in
    (record s { qs_wifi = v }, z_setting_set_int conn (codes "sys.wifi") (int_of v))

unfoldable pub toggle_mute : Conn → ShadeState → ShadeState × Option Bytes
toggle_mute conn s =
    let v = not s.qs_mute in
    (record s { qs_mute = v }, z_setting_set_int conn (codes "sys.mute") (int_of v))

unfoldable pub toggle_bright : Conn → ShadeState → ShadeState × Option Bytes
toggle_bright conn s =
    let v = not s.qs_bright in
    (record s { qs_bright = v }, z_setting_set_int conn (codes "sys.bright") (int_of v))

-- What the broker pushes.
pub data Push : Type 0 where
  show : ZShownNotification → Push
  hide : ℤ → Push

unfoldable pub pushed : Push → ShadeState → ShadeState
unfolding on_show on_hide
pushed (show n) s = on_show n s
pushed (hide id) s = on_hide id s

unfoldable pub run : List Push → ShadeState → ShadeState
unfolding pushed
run [] s = s
run (p ∷ ps) s = run ps (pushed p s)

abbrev pub empty_banner : Banner
empty_banner = record {
  used = false;
  id = pos 0;
  app_id = [];
  title = [];
  body = [];
  tap_route = [];
  action_id = [];
  action_title = [];
}

abbrev pub start : ShadeState
start = record {
  banners = replicate max_banners empty_banner;
  history = [];
  qs_loaded = false;
  qs_wifi = false;
  qs_mute = false;
  qs_bright = false;
}
