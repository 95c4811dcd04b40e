-- ===== src/Zsysd/Handle/Frame.antt =====
-- system/zsysd/main.c: the parts of the broker that the handlers leave alone.
use zelto_os.Prelude.{ℕ, ◌≡◌, List, [], ◌∷◌, Option, none, some, arith}
use zelto_os.Text.{Bytes, codes, clip}
use zelto_os.Zsysd.State.{share, open_url, Kind, Notification, Broker, Env}
use zelto_os.Zsysd.Wire.{field}
use zelto_os.Zsysd.Grants.{Status, granted, denied, prompt}
use zelto_os.Zsysd.Notifs.{notif_drop, drop_id, store_notif, post_decided, notif_find}
use zelto_os.Zsysd.Intents.{
  deliver_or_queue, deliver_pick, pick_of, choose_share, choose_url, resolve_share, resolve_url,
  handle_intent_resolve, deliver_action_to, route_found, route_notify_action,
}

-- What the intents, the notifications and their delivery leave alone.
pub record Frame (b b' : Broker) : Type 0 where
  pub grants_same : b'.grants ≡ b.grants
  pub clients_same : b'.clients ≡ b.clients
  pub shade_same : b'.shade ≡ b.shade
  pub subs_same : b'.subs ≡ b.subs
  pub settings_same : b'.settings ≡ b.settings
  pub manifests_same : b'.manifests ≡ b.manifests

pub notif_drop-Frame : (b : Broker) (id : ℕ) → Frame b (notif_drop b id).0
unfolding notif_drop
notif_drop-Frame b id = ground arith

pub drop_id-Frame : (b : Broker) (id : Option ℕ) → Frame b (drop_id b id).0
unfolding drop_id
drop_id-Frame b none = ground arith
drop_id-Frame b (some id) = notif_drop-Frame b id

pub deliver_or_queue-Frame :
    (b : Broker) (app_id : Bytes) (kind : Kind) (mime url payload : Bytes)
    → Frame b (deliver_or_queue b app_id kind mime url payload).0
unfolding deliver_or_queue
deliver_or_queue-Frame b app_id kind mime url payload = ground arith

pub deliver_pick-Frame :
    (b : Broker) (pick : Option Bytes) (kind : Kind) (mime url payload : Bytes)
    → Frame b (deliver_pick b pick kind mime url payload).0
unfolding deliver_pick
deliver_pick-Frame b none kind mime url payload = ground arith
deliver_pick-Frame b (some app) kind mime url payload =
    deliver_or_queue-Frame b app kind mime url payload

choose_share-Frame :
    (env : Env) (b : Broker) (cands : List Bytes) (mime payload : Bytes)
    → Frame b (choose_share env b cands mime payload).0
unfolding choose_share
choose_share-Frame env b [] mime payload = ground arith
choose_share-Frame env b (c ∷ cands) mime payload =
    deliver_pick-Frame b (pick_of (c ∷ cands) (env.choose (c ∷ cands))) share mime [] payload

choose_url-Frame :
    (env : Env) (b : Broker) (cands : List Bytes) (url : Bytes)
    → Frame b (choose_url env b cands url).0
unfolding choose_url
choose_url-Frame env b [] url = ground arith
choose_url-Frame env b (c ∷ []) url = deliver_or_queue-Frame b c open_url [] url []
choose_url-Frame env b (c ∷ d ∷ cands) url =
    deliver_pick-Frame b (pick_of (c ∷ d ∷ cands) (env.choose (c ∷ d ∷ cands))) open_url [] url []

resolve_share-Frame :
    (env : Env) (b : Broker) (mime payload : Bytes) → Frame b (resolve_share env b mime payload).0
unfolding resolve_share
resolve_share-Frame env b mime payload = choose_share-Frame env b _ mime payload

resolve_url-Frame : (env : Env) (b : Broker) (url : Bytes) → Frame b (resolve_url env b url).0
unfolding resolve_url
resolve_url-Frame env b url = choose_url-Frame env b _ url

pub handle_intent_resolve-Frame :
    (env : Env) (b : Broker) (line : Bytes) → Frame b (handle_intent_resolve env b line).0
unfolding handle_intent_resolve
handle_intent_resolve-Frame env b line = ground (
  arith,
  resolve_share-Frame env b (field line (codes "mime") 64) (field line (codes "payload") 256),
  resolve_url-Frame env b (field line (codes "url") 256),
)

pub deliver_action_to-Frame :
    (b : Broker) (app_id : Bytes) (id : ℕ) (action : Bytes)
    → Frame b (deliver_action_to b app_id id action).0
unfolding deliver_action_to
deliver_action_to-Frame b app_id id action = ground arith

route_found-Frame :
    (b : Broker) (n : Option Notification) (id : ℕ) (action : Bytes)
    → Frame b (route_found b n id action).0
unfolding route_found
route_found-Frame b none id action = ground arith
route_found-Frame b (some n) id action = ground (
  arith,
  deliver_action_to-Frame b (clip 96 n.app_id) id action,
  notif_drop-Frame (deliver_action_to b (clip 96 n.app_id) id action).0 id,
)

pub route_notify_action-Frame :
    (b : Broker) (id : Option ℕ) (action : Bytes) → Frame b (route_notify_action b id action).0
unfolding route_notify_action
route_notify_action-Frame b none action = ground arith
route_notify_action-Frame b (some id) action =
    route_found-Frame b (notif_find b.notifs id) id action

pub store_notif-Frame : (b : Broker) (fd : ℕ) (n : Notification) → Frame b (store_notif b fd n).0
unfolding store_notif
store_notif-Frame b fd n = ground arith

pub post_decided-Frame :
    (b : Broker) (fd : ℕ) (n : Notification) (st : Status) → Frame b (post_decided b fd n st).0
unfolding post_decided
post_decided-Frame b fd n granted = store_notif-Frame b fd n
post_decided-Frame b fd n denied = ground arith
post_decided-Frame b fd n prompt = ground arith
