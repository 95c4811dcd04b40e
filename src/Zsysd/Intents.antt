-- ===== src/Zsysd/Intents.antt =====
-- system/zsysd/main.c, app-to-app intents: mailboxes, the pending queue, delivery, and the
-- resolution of a sender's intent.
use zelto_os.Prelude.{
  ℕ, zero, suc, ◌-◌, Bool, true, false, not, ◌&&◌, ◌||◌, List, [], ◌∷◌, ◌++◌, map, Option, none,
  some, if◌then◌else◌, ◌==◌, ltb, length, get_elem?,
}
use zelto_os.Prelude.Slots.{any, find?, modify_first, keep}
use zelto_os.Text.{Bytes, codes, eqb, clip}
use zelto_os.Zsysd.State.{
  Manifest, Kind, share, open_url, notify_action, Pending, Client, Broker, Event, launched, chose,
  send, Env, Notification,
}
use zelto_os.Zsysd.Wire.{show, field, deliver_share, deliver_url, deliver_action}
use zelto_os.Zsysd.Csv.{csv_contains, share_target_matches, scheme_of}
use zelto_os.Zsysd.Manifests.{manifest_by_id}
use zelto_os.Zsysd.Notifs.{notif_find, notif_drop}
pub mod Queue

abbrev pub is_live : Option ℕ → Bool
is_live none = false
is_live (some fd) = true

abbrev pub has_mailbox : Bytes → Client → Bool
has_mailbox app_id c = is_live c.fd && eqb c.app app_id

abbrev pub fd_of : Option Client → Option ℕ
fd_of none = none
fd_of (some c) = c.fd

-- The live mailbox registered for an app.
unfoldable pub mailbox_fd : List Client → Bytes → Option ℕ
mailbox_fd cs app_id = fd_of (find? (has_mailbox app_id) cs)

abbrev pub send_deliver_share : ℕ → Bytes → Bytes → List Event
send_deliver_share fd mime payload = send 512 fd (deliver_share mime payload)

abbrev pub send_deliver_url : ℕ → Bytes → List Event
send_deliver_url fd url = send 384 fd (deliver_url url)

abbrev pub send_deliver_action : ℕ → ℕ → Bytes → List Event
send_deliver_action fd id action = send 256 fd (deliver_action (show id) action)

abbrev pub launch_exec : Bytes → List Event
launch_exec [] = []
launch_exec (c ∷ exec) = launched (c ∷ exec) ∷ []

abbrev pub launch_manifest : Option Manifest → List Event
launch_manifest none = []
launch_manifest (some m) = launch_exec m.exec

-- Launch an app by its manifest's exec=, if it has one.
unfoldable pub launch_app : List Manifest → Bytes → List Event
unfolding manifest_by_id
launch_app ms app_id = launch_manifest (manifest_by_id ms app_id)

abbrev pub is_free : Pending → Bool
is_free p = not p.used

-- The slot keeps the notif_id of its last use.
abbrev pub write_intent : Bytes → Kind → Bytes → Bytes → Bytes → Pending → Pending
write_intent app_id kind mime url payload p = record p {
  used = true;
  app_id = clip 96 app_id;
  kind = kind;
  mime = clip 64 mime;
  url = clip 256 url;
  payload = clip 256 payload;
}

-- Queue an intent for an app that has no live mailbox yet; dropped if the queue is full.
unfoldable pub enqueue_pending : List Pending → Bytes → Kind → Bytes → Bytes → Bytes → List Pending
enqueue_pending ps app_id kind mime url payload =
    modify_first is_free (write_intent app_id kind mime url payload) ps

abbrev pub is_for : Bytes → Pending → Bool
is_for app_id p = p.used && eqb p.app_id app_id

abbrev pub deliver_kind : Kind → ℕ → Pending → List Event
deliver_kind open_url fd p = send_deliver_url fd p.url
deliver_kind notify_action fd p = send_deliver_action fd p.notif_id p.payload
deliver_kind share fd p = send_deliver_share fd p.mime p.payload

-- The messages of every queued intent of an app, in the order of the slots.
unfoldable pub flush_events : List Pending → Bytes → ℕ → List Event
flush_events [] app_id fd = []
flush_events (p ∷ ps) app_id fd =
    let rest = flush_events ps app_id fd in
    if is_for app_id p then deliver_kind p.kind fd p ++ rest else rest

abbrev pub release : Pending → Pending
release p = record p { used = false }

unfoldable pub flush_slots : List Pending → Bytes → List Pending
flush_slots [] app_id = []
flush_slots (p ∷ ps) app_id = (if is_for app_id p then release p else p) ∷ flush_slots ps app_id

unfoldable pub flush_pending : List Pending → Bytes → ℕ → List Pending × List Event
unfolding flush_events flush_slots
flush_pending ps app_id fd = (flush_slots ps app_id, flush_events ps app_id fd)

abbrev pub deliver_now : Kind → ℕ → Bytes → Bytes → Bytes → List Event
deliver_now open_url fd mime url payload = send_deliver_url fd url
deliver_now _ fd mime url payload = send_deliver_share fd mime payload

-- Push now if the target has a mailbox, else launch it and queue the intent.
unfoldable pub deliver_or_queue :
    Broker → Bytes → Kind → Bytes → Bytes → Bytes → Broker × List Event
unfolding mailbox_fd launch_app enqueue_pending
deliver_or_queue b app_id kind mime url payload = elim (mailbox_fd b.clients app_id) [
  | some fd ↦ (b, deliver_now kind fd mime url payload)
  | none ↦ (
    record b { pending = enqueue_pending b.pending app_id kind mime url payload },
    launch_app b.manifests app_id,
  )
]

-- The ids of the manifests that pass a test, in the order of the table.
abbrev pub candidates : (Manifest → Bool) → List Manifest → List Bytes
candidates test [] = []
candidates test (m ∷ ms) = if test m then clip 96 m.id ∷ candidates test ms else candidates test ms

-- cands[pick - 1]; 0 and what lies behind the last candidate cancel.
abbrev pub pick_of : List Bytes → ℕ → Option Bytes
pick_of cands zero = none
pick_of cands (suc i) = get_elem? cands i

unfoldable pub deliver_pick :
    Broker → Option Bytes → Kind → Bytes → Bytes → Bytes → Broker × List Event
unfolding deliver_or_queue
deliver_pick b none kind mime url payload = (b, [])
deliver_pick b (some app) kind mime url payload = deliver_or_queue b app kind mime url payload

abbrev pub logged : List Event → Broker × List Event → Broker × List Event
logged es (b, later) = (b, es ++ later)

-- Share always shows the chooser, even over a single candidate.
unfoldable pub choose_share : Env → Broker → List Bytes → Bytes → Bytes → Broker × List Event
unfolding deliver_pick
choose_share env b [] mime payload = (b, [])
choose_share env b (c ∷ cands) mime payload =
    let pick = env.choose (c ∷ cands) in
    logged (chose (c ∷ cands) pick ∷ [])
      (deliver_pick b (pick_of (c ∷ cands) pick) share mime [] payload)

-- A single handler of a scheme skips the chooser.
unfoldable pub choose_url : Env → Broker → List Bytes → Bytes → Broker × List Event
unfolding deliver_or_queue deliver_pick
choose_url env b [] url = (b, [])
choose_url env b (c ∷ []) url = deliver_or_queue b c open_url [] url []
choose_url env b (c ∷ d ∷ cands) url =
    let pick = env.choose (c ∷ d ∷ cands) in
    logged (chose (c ∷ d ∷ cands) pick ∷ [])
      (deliver_pick b (pick_of (c ∷ d ∷ cands) pick) open_url [] url [])

unfoldable pub resolve_share : Env → Broker → Bytes → Bytes → Broker × List Event
unfolding choose_share share_target_matches
resolve_share env b mime payload =
    choose_share env b (candidates (λ m. share_target_matches m.share_targets mime) b.manifests)
      mime payload

unfoldable pub resolve_url : Env → Broker → Bytes → Broker × List Event
unfolding choose_url csv_contains scheme_of
resolve_url env b url =
    choose_url env b (candidates (λ m. csv_contains m.links (scheme_of url 32)) b.manifests) url

unfoldable pub handle_intent_resolve : Env → Broker → Bytes → Broker × List Event
unfolding resolve_share resolve_url eqb field
handle_intent_resolve env b line =
    let action = field line (codes "action") 16 in
    if eqb action (codes "share")
    then resolve_share env b (field line (codes "mime") 64) (field line (codes "payload") 256)
    else if eqb action (codes "open_url")
    then resolve_url env b (field line (codes "url") 256)
    else (b, [])

-- The slot keeps the mime and the url of its last use.
abbrev pub write_action : Bytes → ℕ → Bytes → Pending → Pending
write_action app_id id action p = record p {
  used = true;
  app_id = clip 96 app_id;
  kind = notify_action;
  payload = clip 256 action;
  notif_id = id;
}

-- Deliver a tapped action to the poster, or launch it and queue the action.
unfoldable pub deliver_action_to : Broker → Bytes → ℕ → Bytes → Broker × List Event
unfolding mailbox_fd launch_app
deliver_action_to b app_id id action = elim (mailbox_fd b.clients app_id) [
  | some fd ↦ (b, send_deliver_action fd id action)
  | none ↦ (
    record b { pending = modify_first is_free (write_action app_id id action) b.pending },
    launch_app b.manifests app_id,
  )
]

-- An action tapped on the shade goes to the poster's mailbox, and the banner is dropped.
unfoldable pub route_found : Broker → Option Notification → ℕ → Bytes → Broker × List Event
unfolding deliver_action_to notif_drop
route_found b none id action = (b, [])
route_found b (some n) id action =
    let (b', es) = deliver_action_to b (clip 96 n.app_id) id action in logged es (notif_drop b' id)

unfoldable pub route_notify_action : Broker → Option ℕ → Bytes → Broker × List Event
unfolding route_found notif_find
route_notify_action b none action = (b, [])
route_notify_action b (some id) action = route_found b (notif_find b.notifs id) id action
