-- ===== src/Zsysd/Notifs.antt =====
-- system/zsysd/main.c, the notification store: send_notify_show, notif_find, notif_drop and
-- handle_notify_post.
use zelto_os.Prelude.{
  ℕ, ◌+◌, Bool, true, false, not, ◌&&◌, List, [], ◌∷◌, ◌++◌, Option, none, some, if◌then◌else◌,
  ◌==◌,
}
use zelto_os.Prelude.Slots.{any, find?, modify_first}
use zelto_os.Text.{Bytes, codes, clip}
use zelto_os.Zsysd.State.{Notification, Broker, Event, sent, send, Env, max_notifs}
use zelto_os.Zsysd.Wire.{show, field, id_reply, notify_hide}
use zelto_os.Zsysd.Grants.{Status, granted, denied, prompt, Decision, decide, settled}
pub mod Ids
pub mod Post

abbrev pub is_notif : ℕ → Notification → Bool
is_notif id n = n.used && (n.id == id)

abbrev pub is_free : Notification → Bool
is_free n = not n.used

unfoldable pub notif_find : List Notification → ℕ → Option Notification
notif_find ns id = find? (is_notif id) ns

-- The push of a stored notification to the shade, in a buffer of 1024 bytes.
abbrev pub notify_show : Notification → Bytes
notify_show n =
    codes "{\"op\":\"notify_show\",\"id\":\""
    ++ (show n.id
        ++ (codes "\",\"app_id\":\""
            ++ (n.app_id
                ++ (codes "\",\"title\":\""
                    ++ (n.title
                        ++ (codes "\",\"body\":\""
                            ++ (n.body
                                ++ (codes "\",\"tap_route\":\""
                                    ++ (n.tap_route
                                        ++ (codes "\",\"action_id\":\""
                                            ++ (n.action_id
                                                ++ (codes "\",\"action_title\":\""
                                                    ++ (n.action_title ++ codes "\"}\n")))))))))))))

unfoldable pub to_shade : Option ℕ → ℕ → Bytes → List Event
to_shade none cap msg = []
to_shade (some fd) cap msg = send cap fd msg

abbrev pub unused : Notification → Notification
unused n = record n { used = false }

-- Remove a notification from the store and hide its banner on the shade.
unfoldable pub notif_drop : Broker → ℕ → Broker × List Event
unfolding to_shade
notif_drop b id =
    if any (is_notif id) b.notifs
    then (
      record b { notifs = modify_first (is_notif id) unused b.notifs },
      to_shade b.shade 64 (notify_hide (show id)),
    )
    else (b, [])

-- The number of an id field; a negative one is in no slot.
unfoldable pub drop_id : Broker → Option ℕ → Broker × List Event
unfolding notif_drop
drop_id b none = (b, [])
drop_id b (some id) = notif_drop b id

-- The notification that a request asks for, under the next id.
abbrev pub of_request : Bytes → ℕ → Notification
of_request line id = record {
  used = true;
  id = id;
  app_id = field line (codes "app_id") 96;
  title = field line (codes "title") 128;
  body = field line (codes "body") 192;
  channel = field line (codes "channel") 64;
  tap_route = field line (codes "tap_route") 256;
  action_id = field line (codes "action_id") 64;
  action_title = field line (codes "action_title") 64;
}

abbrev pub refusal : Bytes
refusal = codes "{\"id\":\"-1\"}\n"

-- The post is allowed: the first free slot takes it, or the store is full.
unfoldable pub store_notif : Broker → ℕ → Notification → Broker × List Event
unfolding to_shade
store_notif b fd n =
    if any is_free b.notifs
    then (
      record b {
        notifs = modify_first is_free (λ _. n) b.notifs;
        next_notif_id = b.next_notif_id + 1;
      },
      sent fd (id_reply (show n.id)) ∷ to_shade b.shade 1024 (notify_show n),
    )
    else (b, sent fd refusal ∷ [])

abbrev pub post_permission : Env → Broker → Bytes → Decision
post_permission env b [] = settled b.grants denied
post_permission env b (c ∷ app) =
    decide env.consent b.manifests b.grants true (c ∷ app) (codes "notifications")

unfoldable pub post_decided : Broker → ℕ → Notification → Status → Broker × List Event
unfolding store_notif
post_decided b fd n granted = store_notif b fd n
post_decided b fd n denied = (b, sent fd refusal ∷ [])
post_decided b fd n prompt = (b, sent fd refusal ∷ [])

-- notify_post: gate on the permission, store under the next id, reply, and push to the shade.
unfoldable pub handle_notify_post : Env → Broker → ℕ → Bytes → Broker × List Event
unfolding post_decided
handle_notify_post env b fd line =
    let d = post_permission env b (field line (codes "app_id") 96) in
    let n = of_request line b.next_notif_id in
    let (b', es) = post_decided (record b { grants = d.grants }) fd n d.status in
    (b', d.events ++ es)
