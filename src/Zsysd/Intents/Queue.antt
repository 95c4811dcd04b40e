-- ===== src/Zsysd/Intents/Queue.antt =====
-- system/zsysd/main.c, the pending queue: deliver_or_queue and flush_pending.
use zelto_os.Prelude.{
  ℕ, ◌≤◌, ◌≡◌, refl, ap, ◌∙◌, inl, inr, true, false, List, [], ◌∷◌, ◌++◌, none, some, arith,
  if◌then◌else◌, Bool-cases, length, take-eq_self,
}
use zelto_os.Prelude.Slots.{any, modify_first, modify_first-none, keep}
use zelto_os.Text.{Bytes, eqb, eqb_iff, clip}
use zelto_os.Zsysd.State.{Kind, Pending, Broker, Event, Manifest, launched}
use zelto_os.Zsysd.Manifests.{manifest_by_id}
use zelto_os.Zsysd.Intents.{
  is_free, is_for, write_intent, flush_events, flush_slots, flush_pending, deliver_kind, mailbox_fd,
  deliver_or_queue, launch_app,
}

-- The intents that wait for an app, in the order of their slots.
abbrev pub waiting : Bytes → List Pending → List Pending
waiting app_id ps = keep (is_for app_id) ps

abbrev pub deliver_all : ℕ → List Pending → List Event
deliver_all fd [] = []
deliver_all fd (p ∷ ps) = deliver_kind p.kind fd p ++ deliver_all fd ps

-- A registration sends each intent that waits for the app, in the order of the slots, which is not that
-- of arrival where a slot has been freed and taken again. Then none waits for it, so that the next
-- registration sends nothing, and what waits for any other app is as it was.
pub flush_pending_lem :
    (ps : List Pending) (app_id other : Bytes) (fd fd' : ℕ)
    → eqb app_id other ≡ false
    → let ps' = (flush_pending ps app_id fd).0 in
      ((flush_pending ps app_id fd).1 ≡ deliver_all fd (waiting app_id ps))
      × (waiting app_id ps' ≡ [])
      × ((flush_pending ps' app_id fd').1 ≡ [])
      × (waiting other ps' ≡ waiting other ps)
unfolding flush_pending
flush_pending_lem ps app_id other fd fd' ne = (
  events ps fd,
  slots ps,
  events (flush_slots ps app_id) fd' ∙ ap (deliver_all fd') (slots ps),
  others ps ne,
)
  where
    events :
        (ps : List Pending) (fd : ℕ)
        → flush_events ps app_id fd ≡ deliver_all fd (waiting app_id ps)
    events [] fd = unfold flush_events in refl
    events (p ∷ ps) fd = unfold flush_events in ground (arith, events ps fd)

    slots : (ps : List Pending) → waiting app_id (flush_slots ps app_id) ≡ []
    slots [] = unfold flush_slots in refl
    slots (p ∷ ps) = unfold flush_slots in ground (arith, slots ps)

    others :
        (ps : List Pending)
        → eqb app_id other ≡ false
        → waiting other (flush_slots ps app_id) ≡ waiting other ps
    others [] ne = unfold flush_slots in refl
    others (p ∷ ps) ne = unfold flush_slots in ground (arith, others ps ne, eqb_iff p.app_id app_id)

-- A new intent of an app stands among those that waited for it before.
pub record Queued (app_id : Bytes) (kind : Kind) (mime url payload : Bytes) (old new : List Pending)
    : Type 0 where
  pub item : Pending
  pub before : List Pending
  pub behind : List Pending
  pub old_is : waiting app_id old ≡ before ++ behind
  pub new_is : waiting app_id new ≡ before ++ item ∷ behind
  pub kind_is : item.kind ≡ kind
  pub mime_is : item.mime ≡ clip 64 mime
  pub url_is : item.url ≡ clip 256 url
  pub payload_is : item.payload ≡ clip 256 payload

module _ (app_id : Bytes) (kind : Kind) (mime url payload : Bytes) (fits : length app_id ≤ 95) where
  abbrev write : Pending → Pending
  write = write_intent app_id kind mime url payload

  write-is_for : (p : Pending) → is_for app_id (write p) ≡ true
  write-is_for p = ground (arith, take-eq_self 95 app_id fits, eqb_iff app_id app_id)

  Queued-here :
      (p : Pending) (ps : List Pending)
      → is_free p ≡ true
      → Queued app_id kind mime url payload (p ∷ ps) (write p ∷ ps)
  Queued-here p ps h = record {
    item = write p;
    before = [];
    behind = waiting app_id ps;
    old_is = ground arith;
    new_is = ground (arith, write-is_for p);
    kind_is = refl;
    mime_is = refl;
    url_is = refl;
    payload_is = refl;
  }

  Queued-there :
      (p : Pending) (ps qs : List Pending)
      → Queued app_id kind mime url payload ps qs
      → Queued app_id kind mime url payload (p ∷ ps) (p ∷ qs)
  Queued-there p ps qs q = record {
    item = q.item;
    before = (if is_for app_id p then p ∷ q.before else q.before);
    behind = q.behind;
    old_is = ground (arith, q.old_is);
    new_is = ground (arith, q.new_is);
    kind_is = q.kind_is;
    mime_is = q.mime_is;
    url_is = q.url_is;
    payload_is = q.payload_is;
  }

  enqueue_pending-Queued :
      (ps : List Pending)
      → any is_free ps ≡ true
      → Queued app_id kind mime url payload ps (modify_first is_free write ps)
  enqueue_pending-Queued [] h = cc
  enqueue_pending-Queued (p ∷ ps) h = elim (Bool-cases (is_free p)) [
    | inl e ↦ rw e (Queued-here p ps e)
    | inr e ↦
        rw e (
          Queued-there p ps (modify_first is_free write ps) (enqueue_pending-Queued ps (rw e at h)))
  ]

  launch_app-exec :
      (ms : List Manifest) {m : Manifest} {c : ℕ} {exec : Bytes}
      → manifest_by_id ms app_id ≡ some m
      → m.exec ≡ c ∷ exec
      → launch_app ms app_id ≡ launched m.exec ∷ []
  unfolding launch_app
  launch_app-exec ms h e = rw h (rw e refl)

  -- An intent for an app with no mailbox, of an id of at most 95 bytes, whose manifest has an exec,
  -- launches that, and nothing else happens outside. With a slot free the intent waits for the app:
  -- it joins what waited for it before, its fields cut to their buffers. With none free it is
  -- dropped, though the app is launched.
  pub deliver_or_queue-Queued :
      (b : Broker) {m : Manifest} {c : ℕ} {exec : Bytes}
      → mailbox_fd b.clients app_id ≡ none
      → manifest_by_id b.manifests app_id ≡ some m
      → m.exec ≡ c ∷ exec
      → let r = deliver_or_queue b app_id kind mime url payload in
        (r.1 ≡ launched m.exec ∷ [])
        × (any is_free b.pending ≡ true → Queued app_id kind mime url payload b.pending r.0.pending)
        × (any is_free b.pending ≡ false → r.0.pending ≡ b.pending)
  unfolding deliver_or_queue
  deliver_or_queue-Queued b none_live known has_exec = (
    rw (none_live, deliver_or_queue) (launch_app-exec b.manifests known has_exec),
    λ room. rw (none_live, deliver_or_queue) (enqueue_pending-Queued b.pending room),
    λ full. rw (none_live, deliver_or_queue) (modify_first-none is_free write b.pending full),
  )
