-- ===== src/Zsysd/Handle/Targets.antt =====
-- system/zsysd/main.c: the descriptors that a request line writes to.
use zelto_os.Prelude.{
  ℕ, ◌≡◌, refl, sym, subst, ◌∙◌, inl, inr, Bool, true, false, List, [], ◌∷◌, Option, none, some,
  arith, Option-cases, All, All-append,
}
use zelto_os.Text.{Bytes, codes, eqb, clip}
use zelto_os.Zsysd.State.{Grant, Client, Notification, Broker, Env, send, Manifest}
use zelto_os.Zsysd.Wire.{field, show, notify_hide, settings_changed, value_reply}
use zelto_os.Zsysd.Grants.{Status, granted, denied, prompt, Decision, decide, undecided, grant_find}
use zelto_os.Zsysd.Manifests.{manifest_declares}
use zelto_os.Zsysd.Notifs.{
  to_shade, notif_drop, drop_id, store_notif, post_decided, post_permission, of_request,
  notify_show, handle_notify_post,
}
use zelto_os.Zsysd.Settings.{settings_set, broadcast}
use zelto_os.Zsysd.Intents.{deliver_action_to, route_found, route_notify_action}
use zelto_os.Zsysd.Handle.Frame.{Frame, deliver_action_to-Frame}
use zelto_os.Zsysd.Handle.{
  Op, register, intent_resolve, reload, notify_subscribe, notify_post, notify_cancel, notify_tap,
  notify_action, notify_channel, notify_badge, settings_get, settings_put, settings_subscribe,
  permission, register_app, permission_status, handle_op, reply_status, get_value,
}
use zelto_os.Zsysd.Handle.Live.{Live, GoesTo, AllGo, send-AllGo, Sinks}
use zelto_os.Zsysd.Handle.Delivery.{
  handle_intent_resolve-AllGo, deliver_action_to-AllGo, flush_events-AllGo,
}

pub decide-AllGo :
    (cs : List Client) (consent : Bytes → Bytes → Bool) (ms : List Manifest) (gs : List Grant)
    (request : Bool) (app_id perm : Bytes)
    → AllGo cs (decide consent ms gs request app_id perm).events
unfolding decide
decide-AllGo cs consent ms gs request app_id perm =
    elim (Option-cases (grant_find gs app_id perm)) [
      | inl e ↦ rw (e, decide) (go (manifest_declares ms app_id perm) request)
      | inr (g, e) ↦ rw (e, decide) tt
    ]
  where
    go : (d r : Bool) → AllGo cs (undecided d r consent gs app_id perm).events
    go false r = tt
    go true false = tt
    go true true = (tt, tt)

pub to_shade-AllGo :
    (cs : List Client) (shade : Option ℕ) (cap : ℕ) (msg : Bytes)
    → ((fd : ℕ) → shade ≡ some fd → Live cs fd)
    → AllGo cs (to_shade shade cap msg)
unfolding to_shade
to_shade-AllGo cs none cap msg h = tt
to_shade-AllGo cs (some fd) cap msg h = send-AllGo cs cap fd msg (h fd refl)

pub notif_drop-AllGo : (b : Broker) (id : ℕ) → Sinks b → AllGo b.clients (notif_drop b id).1
unfolding notif_drop
notif_drop-AllGo b id s =
    ground (arith, to_shade-AllGo b.clients b.shade 64 (notify_hide (show id)) s.shade_live)

pub drop_id-AllGo : (b : Broker) (id : Option ℕ) → Sinks b → AllGo b.clients (drop_id b id).1
unfolding drop_id
drop_id-AllGo b none s = tt
drop_id-AllGo b (some id) s = notif_drop-AllGo b id s

pub store_notif-AllGo :
    (b : Broker) (fd : ℕ) (n : Notification)
    → Live b.clients fd
    → Sinks b
    → AllGo b.clients (store_notif b fd n).1
unfolding store_notif
store_notif-AllGo b fd n h s =
    ground (arith, to_shade-AllGo b.clients b.shade 1024 (notify_show n) s.shade_live)

pub post_decided-AllGo :
    (b : Broker) (fd : ℕ) (n : Notification) (st : Status)
    → Live b.clients fd
    → Sinks b
    → AllGo b.clients (post_decided b fd n st).1
unfolding post_decided
post_decided-AllGo b fd n granted h s = store_notif-AllGo b fd n h s
post_decided-AllGo b fd n denied h s = (h, tt)
post_decided-AllGo b fd n prompt h s = (h, tt)

pub post_permission-AllGo :
    (env : Env) (b : Broker) (app_id : Bytes)
    → AllGo b.clients (post_permission env b app_id).events
post_permission-AllGo env b [] = tt
post_permission-AllGo env b (c ∷ app) = decide-AllGo b.clients _ _ _ _ _ _

pub handle_notify_post-AllGo :
    (env : Env) (b : Broker) (fd : ℕ) (line : Bytes)
    → Live b.clients fd
    → Sinks b
    → AllGo b.clients (handle_notify_post env b fd line).1
unfolding handle_notify_post
handle_notify_post-AllGo env b fd line h s =
    let d = post_permission env b (field line (codes "app_id") 96) in
    All-append (GoesTo b.clients) d.events _
      (post_permission-AllGo env b (field line (codes "app_id") 96))
      (post_decided-AllGo (record b { grants = d.grants }) fd (of_request line b.next_notif_id)
        d.status h (record { shade_live = s.shade_live; subs_live = s.subs_live }))

pub broadcast-AllGo :
    (cs : List Client) (subs : List ℕ) (key value : Bytes)
    → All (Live cs) subs
    → AllGo cs (broadcast subs key value)
unfolding broadcast
broadcast-AllGo cs [] key value a = tt
broadcast-AllGo cs (fd ∷ subs) key value a =
    All-append (GoesTo cs) (send 256 fd (settings_changed key value)) _
      (send-AllGo cs 256 fd (settings_changed key value) a.0)
      (broadcast-AllGo cs subs key value a.1)

pub settings_set-AllGo :
    (b : Broker) (w : Bool) (key value : Bytes)
    → Sinks b
    → AllGo b.clients (settings_set b w key value).1
unfolding settings_set
settings_set-AllGo b w [] value s = tt
settings_set-AllGo b w (c ∷ key) value s =
    ground (arith, broadcast-AllGo b.clients b.subs (c ∷ key) value s.subs_live)

pub Frame-Sinks : {b b' : Broker} → Frame b b' → Sinks b → Sinks b'
Frame-Sinks f s = record {
  shade_live = λ fd h. rw f.clients_same (s.shade_live fd (sym f.shade_same ∙ h));
  subs_live = rw (f.subs_same, f.clients_same) s.subs_live;
}

pub route_found-AllGo :
    (b : Broker) (n : Option Notification) (id : ℕ) (action : Bytes)
    → Sinks b
    → AllGo b.clients (route_found b n id action).1
unfolding route_found
route_found-AllGo b none id action s = tt
route_found-AllGo b (some n) id action s =
    let r = deliver_action_to b (clip 96 n.app_id) id action in
    let f = deliver_action_to-Frame b (clip 96 n.app_id) id action in
    All-append (GoesTo b.clients) r.1 _ (deliver_action_to-AllGo b (clip 96 n.app_id) id action) (
      subst (λ cs. AllGo cs (notif_drop r.0 id).1) f.clients_same
        (notif_drop-AllGo r.0 id (Frame-Sinks f s)))

pub route_notify_action-AllGo :
    (b : Broker) (id : Option ℕ) (action : Bytes)
    → Sinks b
    → AllGo b.clients (route_notify_action b id action).1
unfolding route_notify_action
route_notify_action-AllGo b none action s = tt
route_notify_action-AllGo b (some id) action s = route_found-AllGo b _ id action s

pub permission-AllGo :
    (env : Env) (b : Broker) (op app_id perm : Bytes)
    → AllGo b.clients (permission_status env b op app_id perm).events
unfolding permission_status
permission-AllGo env b op app_id perm = ground (
  arith,
  decide-AllGo b.clients env.consent b.manifests b.grants (eqb op (codes "perm_request")) app_id
      perm,
)

pub reply_status-AllGo :
    (b : Broker) (fd : ℕ) (d : Decision)
    → AllGo b.clients d.events
    → Live b.clients fd
    → AllGo b.clients (reply_status b fd d).1
reply_status-AllGo b fd d a h = All-append (GoesTo b.clients) d.events _ a (h, tt)

-- While a line from a live connection is handled, every write goes to a live descriptor.
pub handle_op-AllGo :
    (o : Op) (env : Env) (b : Broker) (slot fd : ℕ) (op line : Bytes)
    → Live b.clients fd
    → Sinks b
    → AllGo b.clients (handle_op o env b slot fd op line).1
unfolding handle_op register_app permission_status
handle_op-AllGo register env b slot fd op line h s =
    flush_events-AllGo b.clients b.pending (field line (codes "app_id") 96) fd h
handle_op-AllGo intent_resolve env b slot fd op line h s = handle_intent_resolve-AllGo env b line
handle_op-AllGo reload env b slot fd op line h s = tt
handle_op-AllGo notify_subscribe env b slot fd op line h s = tt
handle_op-AllGo notify_post env b slot fd op line h s = handle_notify_post-AllGo env b fd line h s
handle_op-AllGo notify_cancel env b slot fd op line h s = drop_id-AllGo b _ s
handle_op-AllGo notify_tap env b slot fd op line h s = drop_id-AllGo b _ s
handle_op-AllGo notify_action env b slot fd op line h s = route_notify_action-AllGo b _ _ s
handle_op-AllGo notify_channel env b slot fd op line h s = tt
handle_op-AllGo notify_badge env b slot fd op line h s = tt
handle_op-AllGo settings_get env b slot fd op line h s =
    send-AllGo b.clients 256 fd (value_reply (get_value b (field line (codes "key") 64))) h
handle_op-AllGo settings_put env b slot fd op line h s = settings_set-AllGo b env.writable _ _ s
handle_op-AllGo settings_subscribe env b slot fd op line h s = tt
handle_op-AllGo permission env b slot fd op line h s =
    reply_status-AllGo b fd
      (permission_status env b op (field line (codes "app_id") 96) (field line (codes "perm") 32))
      (permission-AllGo env b op _ _) h
