-- ===== src/Zsysd/Handle/Ids.antt =====
-- The ids of the notification store through every request line.
use zelto_os.Prelude.{ℕ, ◌≡◌, List, [], ◌∷◌, Option, none, some, arith}
use zelto_os.Text.{Bytes, codes, clip}
use zelto_os.Zsysd.State.{share, open_url, Kind, Notification, Broker, Env}
use zelto_os.Zsysd.Wire.{field}
use zelto_os.Zsysd.Grants.{Status, granted, denied, prompt}
use zelto_os.Zsysd.Notifs.{drop_id, post_decided, notif_find}
use zelto_os.Zsysd.Intents.{
  deliver_or_queue, deliver_pick, pick_of, choose_share, choose_url, resolve_share, resolve_url,
  handle_intent_resolve, deliver_action_to, route_found, route_notify_action,
}
use zelto_os.Prelude.{Bool, refl}
use zelto_os.Zsysd.Notifs.{handle_notify_post, post_permission, of_request}
use zelto_os.Zsysd.Notifs.Ids.{HasIds, notif_drop-HasIds, store_notif-HasIds}
use zelto_os.Zsysd.Settings.{settings_set}
use zelto_os.Zsysd.Handle.{
  Op, register, intent_resolve, reload, notify_subscribe, notify_post, notify_cancel, notify_tap,
  notify_action, notify_channel, notify_badge, settings_get, settings_put, settings_subscribe,
  permission, register_app, permission_status, handle_line, handle_op,
}

-- The store and its counter are as they were.
record Quiet (b b' : Broker) : Type 0 where
  notifs_same : b'.notifs ≡ b.notifs
  next_same : b'.next_notif_id ≡ b.next_notif_id

deliver_or_queue-Quiet :
    (b : Broker) (app_id : Bytes) (kind : Kind) (mime url payload : Bytes)
    → Quiet b (deliver_or_queue b app_id kind mime url payload).0
unfolding deliver_or_queue
deliver_or_queue-Quiet b app_id kind mime url payload = ground arith

deliver_pick-Quiet :
    (b : Broker) (pick : Option Bytes) (kind : Kind) (mime url payload : Bytes)
    → Quiet b (deliver_pick b pick kind mime url payload).0
unfolding deliver_pick
deliver_pick-Quiet b none kind mime url payload = ground arith
deliver_pick-Quiet b (some app) kind mime url payload =
    deliver_or_queue-Quiet b app kind mime url payload

choose_share-Quiet :
    (env : Env) (b : Broker) (cands : List Bytes) (mime payload : Bytes)
    → Quiet b (choose_share env b cands mime payload).0
unfolding choose_share
choose_share-Quiet env b [] mime payload = ground arith
choose_share-Quiet env b (c ∷ cands) mime payload =
    deliver_pick-Quiet b (pick_of (c ∷ cands) (env.choose (c ∷ cands))) share mime [] payload

choose_url-Quiet :
    (env : Env) (b : Broker) (cands : List Bytes) (url : Bytes)
    → Quiet b (choose_url env b cands url).0
unfolding choose_url
choose_url-Quiet env b [] url = ground arith
choose_url-Quiet env b (c ∷ []) url = deliver_or_queue-Quiet b c open_url [] url []
choose_url-Quiet env b (c ∷ d ∷ cands) url =
    deliver_pick-Quiet b (pick_of (c ∷ d ∷ cands) (env.choose (c ∷ d ∷ cands))) open_url [] url []

resolve_share-Quiet :
    (env : Env) (b : Broker) (mime payload : Bytes) → Quiet b (resolve_share env b mime payload).0
unfolding resolve_share
resolve_share-Quiet env b mime payload = choose_share-Quiet env b _ mime payload

resolve_url-Quiet : (env : Env) (b : Broker) (url : Bytes) → Quiet b (resolve_url env b url).0
unfolding resolve_url
resolve_url-Quiet env b url = choose_url-Quiet env b _ url

handle_intent_resolve-Quiet :
    (env : Env) (b : Broker) (line : Bytes) → Quiet b (handle_intent_resolve env b line).0
unfolding handle_intent_resolve
handle_intent_resolve-Quiet env b line = ground (
  arith,
  resolve_share-Quiet env b (field line (codes "mime") 64) (field line (codes "payload") 256),
  resolve_url-Quiet env b (field line (codes "url") 256),
)

deliver_action_to-Quiet :
    (b : Broker) (app_id : Bytes) (id : ℕ) (action : Bytes)
    → Quiet b (deliver_action_to b app_id id action).0
unfolding deliver_action_to
deliver_action_to-Quiet b app_id id action = ground arith

Quiet-HasIds : {b b' : Broker} → Quiet b b' → HasIds b → HasIds b'
Quiet-HasIds q h = record {
  next_pos = rw q.next_same h.next_pos;
  below = rw (q.notifs_same, q.next_same) h.below;
  distinct = rw q.notifs_same h.distinct;
}

drop_id-HasIds : (b : Broker) (id : Option ℕ) → HasIds b → HasIds (drop_id b id).0
unfolding drop_id
drop_id-HasIds b none h = h
drop_id-HasIds b (some id) h = notif_drop-HasIds b id h

route_found-HasIds :
    (b : Broker) (n : Option Notification) (id : ℕ) (action : Bytes)
    → HasIds b
    → HasIds (route_found b n id action).0
unfolding route_found
route_found-HasIds b none id action h = h
route_found-HasIds b (some n) id action h =
    notif_drop-HasIds (deliver_action_to b (clip 96 n.app_id) id action).0 id
      (Quiet-HasIds (deliver_action_to-Quiet b (clip 96 n.app_id) id action) h)

route_notify_action-HasIds :
    (b : Broker) (id : Option ℕ) (action : Bytes)
    → HasIds b
    → HasIds (route_notify_action b id action).0
unfolding route_notify_action
route_notify_action-HasIds b none action h = h
route_notify_action-HasIds b (some id) action h =
    route_found-HasIds b (notif_find b.notifs id) id action h

post_decided-HasIds :
    (b : Broker) (fd : ℕ) (n : Notification) (st : Status)
    → n.id ≡ b.next_notif_id
    → HasIds b
    → HasIds (post_decided b fd n st).0
unfolding post_decided
post_decided-HasIds b fd n granted e h = store_notif-HasIds b fd n e h
post_decided-HasIds b fd n denied e h = h
post_decided-HasIds b fd n prompt e h = h

handle_notify_post-HasIds :
    (env : Env) (b : Broker) (fd : ℕ) (line : Bytes)
    → HasIds b
    → HasIds (handle_notify_post env b fd line).0
unfolding handle_notify_post
handle_notify_post-HasIds env b fd line h =
    let d = post_permission env b (field line (codes "app_id") 96) in
    post_decided-HasIds (record b { grants = d.grants }) fd (of_request line b.next_notif_id)
      d.status refl (record { next_pos = h.next_pos; below = h.below; distinct = h.distinct })

settings_set-Quiet :
    (b : Broker) (w : Bool) (key value : Bytes) → Quiet b (settings_set b w key value).0
unfolding settings_set
settings_set-Quiet b w [] value = ground arith
settings_set-Quiet b w (c ∷ key) value = ground arith

pub handle_op-HasIds :
    (o : Op) (env : Env) (b : Broker) (slot fd : ℕ) (op line : Bytes)
    → HasIds b
    → HasIds (handle_op o env b slot fd op line).0
unfolding handle_op register_app permission_status
handle_op-HasIds register env b slot fd op line h = record {
  next_pos = h.next_pos;
  below = h.below;
  distinct = h.distinct;
}
handle_op-HasIds intent_resolve env b slot fd op line h =
    Quiet-HasIds (handle_intent_resolve-Quiet env b line) h
handle_op-HasIds reload env b slot fd op line h = record {
  next_pos = h.next_pos;
  below = h.below;
  distinct = h.distinct;
}
handle_op-HasIds notify_subscribe env b slot fd op line h = record {
  next_pos = h.next_pos;
  below = h.below;
  distinct = h.distinct;
}
handle_op-HasIds notify_post env b slot fd op line h = handle_notify_post-HasIds env b fd line h
handle_op-HasIds notify_cancel env b slot fd op line h = drop_id-HasIds b _ h
handle_op-HasIds notify_tap env b slot fd op line h = drop_id-HasIds b _ h
handle_op-HasIds notify_action env b slot fd op line h = route_notify_action-HasIds b _ _ h
handle_op-HasIds notify_channel env b slot fd op line h = h
handle_op-HasIds notify_badge env b slot fd op line h = h
handle_op-HasIds settings_get env b slot fd op line h = h
handle_op-HasIds settings_put env b slot fd op line h =
    Quiet-HasIds (settings_set-Quiet b env.writable _ _) h
handle_op-HasIds settings_subscribe env b slot fd op line h = record {
  next_pos = h.next_pos;
  below = h.below;
  distinct = h.distinct;
}
handle_op-HasIds permission env b slot fd op line h = record {
  next_pos = h.next_pos;
  below = h.below;
  distinct = h.distinct;
}

-- Every request line keeps the ids of the stored notifications distinct, positive and below the next
-- id to be given out.
pub handle_line-HasIds :
    (env : Env) (b : Broker) (slot fd : ℕ) (line : Bytes)
    → HasIds b
    → HasIds (handle_line env b slot fd line).0
unfolding handle_line
handle_line-HasIds env b slot fd line h = handle_op-HasIds _ env b slot fd _ line h
