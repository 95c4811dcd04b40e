-- ===== src/Zsysd/Handle/Delivery.antt =====
-- system/zsysd/main.c: the descriptors to which intents are delivered.
use zelto_os.Prelude.{
  ℕ, ◌≡◌, inl, inr, List, [], ◌∷◌, Option, none, some, arith, Bool-cases, Option-cases, All-append,
}
use zelto_os.Text.{Bytes, codes}
use zelto_os.Zsysd.State.{
  Kind, share, open_url, notify_action as action_kind, Pending, Client, Broker, Env, Manifest,
}
use zelto_os.Zsysd.Wire.{field, show, deliver_share, deliver_url, deliver_action}
use zelto_os.Zsysd.Intents.{
  mailbox_fd, launch_app, deliver_or_queue, deliver_pick, pick_of, choose_share, choose_url,
  resolve_share, resolve_url, handle_intent_resolve, deliver_action_to, flush_events, is_for,
  deliver_kind, deliver_now, launch_exec, launch_manifest,
}
use zelto_os.Zsysd.Handle.Live.{Live, GoesTo, AllGo, send-AllGo}

pub mailbox_fd-Live :
    (cs : List Client) (app_id : Bytes) {fd : ℕ} → mailbox_fd cs app_id ≡ some fd → Live cs fd
unfolding mailbox_fd
mailbox_fd-Live [] app_id h = cc
mailbox_fd-Live (c ∷ cs) app_id {fd} h = ground (arith, mailbox_fd-Live cs app_id {fd = fd})

pub launch_manifest-AllGo : (cs : List Client) (m : Option Manifest) → AllGo cs (launch_manifest m)
launch_manifest-AllGo cs none = tt
launch_manifest-AllGo cs (some m) = go m.exec
  where
    go : (exec : Bytes) → AllGo cs (launch_exec exec)
    go [] = tt
    go (c ∷ exec) = (tt, tt)

pub launch_app-AllGo :
    (cs : List Client) (ms : List Manifest) (app_id : Bytes) → AllGo cs (launch_app ms app_id)
unfolding launch_app
launch_app-AllGo cs ms app_id = launch_manifest-AllGo cs _

pub deliver_kind-AllGo :
    (cs : List Client) (k : Kind) (fd : ℕ) (p : Pending)
    → Live cs fd
    → AllGo cs (deliver_kind k fd p)
deliver_kind-AllGo cs share fd p h = send-AllGo cs 512 fd (deliver_share p.mime p.payload) h
deliver_kind-AllGo cs open_url fd p h = send-AllGo cs 384 fd (deliver_url p.url) h
deliver_kind-AllGo cs action_kind fd p h =
    send-AllGo cs 256 fd (deliver_action (show p.notif_id) p.payload) h

pub flush_events-AllGo :
    (cs : List Client) (ps : List Pending) (app_id : Bytes) (fd : ℕ)
    → Live cs fd
    → AllGo cs (flush_events ps app_id fd)
unfolding flush_events
flush_events-AllGo cs [] app_id fd h = tt
flush_events-AllGo cs (p ∷ ps) app_id fd h = elim (Bool-cases (is_for app_id p)) [
  | inl e ↦ rw e (
      All-append (GoesTo cs) (deliver_kind p.kind fd p) _ (deliver_kind-AllGo cs p.kind fd p h)
        (flush_events-AllGo cs ps app_id fd h))
  | inr e ↦ rw e (flush_events-AllGo cs ps app_id fd h)
]

pub deliver_now-AllGo :
    (cs : List Client) (k : Kind) (fd : ℕ) (mime url payload : Bytes)
    → Live cs fd
    → AllGo cs (deliver_now k fd mime url payload)
deliver_now-AllGo cs open_url fd mime url payload h = send-AllGo cs 384 fd (deliver_url url) h
deliver_now-AllGo cs share fd mime url payload h =
    send-AllGo cs 512 fd (deliver_share mime payload) h
deliver_now-AllGo cs action_kind fd mime url payload h =
    send-AllGo cs 512 fd (deliver_share mime payload) h

pub deliver_or_queue-AllGo :
    (b : Broker) (app_id : Bytes) (k : Kind) (mime url payload : Bytes)
    → AllGo b.clients (deliver_or_queue b app_id k mime url payload).1
unfolding deliver_or_queue
deliver_or_queue-AllGo b app_id k mime url payload =
    elim (Option-cases (mailbox_fd b.clients app_id)) [
      | inl e ↦ rw (e, deliver_or_queue) (launch_app-AllGo b.clients b.manifests app_id)
      | inr (fd, e) ↦
          rw (e, deliver_or_queue)
            (deliver_now-AllGo b.clients k fd mime url payload (mailbox_fd-Live b.clients app_id e))
    ]

pub deliver_pick-AllGo :
    (b : Broker) (pick : Option Bytes) (k : Kind) (mime url payload : Bytes)
    → AllGo b.clients (deliver_pick b pick k mime url payload).1
unfolding deliver_pick
deliver_pick-AllGo b none k mime url payload = tt
deliver_pick-AllGo b (some app) k mime url payload = deliver_or_queue-AllGo b app k mime url payload

pub choose_share-AllGo :
    (env : Env) (b : Broker) (cands : List Bytes) (mime payload : Bytes)
    → AllGo b.clients (choose_share env b cands mime payload).1
unfolding choose_share
choose_share-AllGo env b [] mime payload = tt
choose_share-AllGo env b (c ∷ cands) mime payload =
    (tt, deliver_pick-AllGo b (pick_of (c ∷ cands) (env.choose (c ∷ cands))) share mime [] payload)

pub choose_url-AllGo :
    (env : Env) (b : Broker) (cands : List Bytes) (url : Bytes)
    → AllGo b.clients (choose_url env b cands url).1
unfolding choose_url
choose_url-AllGo env b [] url = tt
choose_url-AllGo env b (c ∷ []) url = deliver_or_queue-AllGo b c open_url [] url []
choose_url-AllGo env b (c ∷ d ∷ cands) url = (
  tt,
  deliver_pick-AllGo b (pick_of (c ∷ d ∷ cands) (env.choose (c ∷ d ∷ cands))) open_url [] url [],
)

pub resolve_share-AllGo :
    (env : Env) (b : Broker) (mime payload : Bytes)
    → AllGo b.clients (resolve_share env b mime payload).1
unfolding resolve_share
resolve_share-AllGo env b mime payload = choose_share-AllGo env b _ mime payload

pub resolve_url-AllGo :
    (env : Env) (b : Broker) (url : Bytes) → AllGo b.clients (resolve_url env b url).1
unfolding resolve_url
resolve_url-AllGo env b url = choose_url-AllGo env b _ url

pub handle_intent_resolve-AllGo :
    (env : Env) (b : Broker) (line : Bytes) → AllGo b.clients (handle_intent_resolve env b line).1
unfolding handle_intent_resolve
handle_intent_resolve-AllGo env b line = ground (
  arith,
  resolve_share-AllGo env b (field line (codes "mime") 64) (field line (codes "payload") 256),
  resolve_url-AllGo env b (field line (codes "url") 256),
)

pub deliver_action_to-AllGo :
    (b : Broker) (app_id : Bytes) (id : ℕ) (action : Bytes)
    → AllGo b.clients (deliver_action_to b app_id id action).1
unfolding deliver_action_to
deliver_action_to-AllGo b app_id id action = elim (Option-cases (mailbox_fd b.clients app_id)) [
  | inl e ↦ rw (e, deliver_action_to) (launch_app-AllGo b.clients b.manifests app_id)
  | inr (fd, e) ↦
      rw (e, deliver_action_to)
        (send-AllGo b.clients 256 fd (deliver_action (show id) action)
          (mailbox_fd-Live b.clients app_id e))
]
