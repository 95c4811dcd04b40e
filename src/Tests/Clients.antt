-- ===== src/Tests/Clients.antt =====
-- A client and the broker: a permission, a setting and two deep links.
use zelto_os.Prelude.{◌≡◌, refl, true, false, [], ◌∷◌, ◌++◌, map, none, some, arith}
use zelto_os.Text.{Bytes, codes, eqb}
use zelto_os.Zsysd.State.{initial}
use zelto_os.Zsysd.Wire.{quote}
use zelto_os.Zsysd.Grants.{decide}
use zelto_os.Zsysd.Handle.{handle_line}
use zelto_os.Zsysd.Settings.{setting_put}
use zelto_os.Client.{z_perm_request, z_setting_get_str, z_setting_set_str, or_fallback}
use zelto_os.Client.Answers.{broker_at, first_line, lacks-Free}
use zelto_os.Client.Asks.{IsAsked, status_of, z_perm_request-decide}
use zelto_os.Client.Keeps.{IsSettable, z_setting_get_str-set}
use zelto_os.Client.Mailbox.{App, url_called, dispatch_lines, split_buf, z_on_open_url}
use zelto_os.Client.Mailbox.Stream.{IsShort, run, fresh, run-dispatch_lines}
use zelto_os.Client.Mailbox.Stash.{IsSent, delivered, last_of, delivered-z_on_open_url}
use zelto_os.Tests.Data.{cam, camera, agrees, home}

camera-IsAsked : IsAsked cam camera
unfolding eqb
camera-IsAsked = record {
  app_id_there = refl;
  app_id_quotes = lacks-Free quote cam refl;
  app_id_line = lacks-Free b'\n' cam refl;
  app_id_fits = omega arith;
  app_id_no_key = (refl, (refl, (refl, tt)));
  perm_there = refl;
  perm_quotes = lacks-Free quote camera refl;
  perm_line = lacks-Free b'\n' camera refl;
  perm_fits = omega arith;
  perm_no_key = (refl, (refl, (refl, tt)));
}

z_perm_request-decide_example :
    z_perm_request false (broker_at agrees home 0 5) cam camera
    ≡ status_of (decide agrees.consent home.manifests home.grants true cam camera).status
z_perm_request-decide_example = z_perm_request-decide agrees home 0 5 cam camera camera-IsAsked

abbrev volume : Bytes
volume = codes "vol"

abbrev seven : Bytes
seven = codes "7"

volume-IsSettable : IsSettable volume seven
unfolding eqb
volume-IsSettable = record {
  key_there = refl;
  key_quotes = lacks-Free quote volume refl;
  key_line = lacks-Free b'\n' volume refl;
  key_fits = omega arith;
  key_no_key = (refl, (refl, (refl, tt)));
  value_quotes = lacks-Free quote seven refl;
  value_line = lacks-Free b'\n' seven refl;
  value_fits = omega arith;
  value_no_key = (refl, (refl, (refl, tt)));
  both_fit = omega arith;
}

has_room : (setting_put initial.settings volume seven).1 ≡ true
unfolding setting_put initial
has_room = refl

z_setting_get_str-set_example :
    (msg : Bytes) × (z_setting_set_str (broker_at agrees initial 0 5) volume seven ≡ some msg)
    × (z_setting_get_str
          (broker_at agrees (handle_line agrees initial 0 5 (first_line msg)).0 1 6)
          volume
          none
        ≡ or_fallback none (some seven))
z_setting_get_str-set_example =
    z_setting_get_str-set agrees initial 0 1 5 6 volume seven none volume-IsSettable has_room

abbrev app : App
app = record {
  url_cb = false;
  share_cb = false;
  notify_action_cb = false;
  notify_show_cb = false;
  notify_hide_cb = false;
  settings_cb = false;
  pend_url = none;
  pend_share = none;
  pend_action = none;
}

abbrev link : Bytes
link = codes "zelto://a"

link-IsSent : IsSent link
unfolding eqb
link-IsSent = (
  record {
    quotes = lacks-Free quote link refl;
    fits = omega arith;
    no_key = (refl, (refl, (refl, tt)));
  },
  lacks-Free b'\n' link refl,
)

delivered-z_on_open_url_example :
    let r = dispatch_lines app (split_buf (delivered (link ∷ link ∷ []))).0 in
    (app.url_cb ≡ true → r.1 ≡ map url_called (link ∷ link ∷ []))
    × (app.url_cb ≡ false
        → (r.1 ≡ []) × ((z_on_open_url r.0).1 ≡ url_called (last_of link (link ∷ [])) ∷ []))
delivered-z_on_open_url_example =
    delivered-z_on_open_url app link (link ∷ []) link-IsSent (link-IsSent, tt)

abbrev wire : Bytes
wire = codes "{\"op\":\"x\"}\n{\"op\":\"y\"}\n"

wire-IsShort : IsShort wire
unfolding split_buf
wire-IsShort = ((omega arith, (omega arith, tt)), omega arith)

run-dispatch_lines_example :
    let (t, calls) = (run (fresh app) (4 ∷ 8 ∷ []) wire).0 in
    let later =
      dispatch_lines t.app (split_buf (t.buf ++ (run (fresh app) (4 ∷ 8 ∷ []) wire).1)).0 in
    dispatch_lines app (split_buf wire).0 ≡ (later.0, calls ++ later.1)
run-dispatch_lines_example = run-dispatch_lines app (4 ∷ 8 ∷ []) wire wire-IsShort
