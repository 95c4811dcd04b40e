-- ===== src/Tests/Inbox.antt =====
-- The notification store and the pending intents, on a few slots.
use zelto_os.Prelude.{◌≡◌, refl, true, false, List, [], ◌∷◌, none, some, arith, if◌then◌else◌, ◌==◌}
use zelto_os.Text.{codes}
use zelto_os.Zsysd.State.{share, open_url, launched, Manifest, Pending, Broker, empty_pending}
use zelto_os.Prelude.Slots.{any}
use zelto_os.Zsysd.Notifs.{notif_find, store_notif}
use zelto_os.Zsysd.Notifs.Ids.{HasIds}
use zelto_os.Zsysd.Notifs.Post.{notif_find-store_notif}
use zelto_os.Zsysd.Intents.{
  flush_pending, deliver_or_queue, enqueue_pending, write_intent, release, is_free, flush_slots,
}
use zelto_os.Zsysd.Intents.Queue.{
  waiting, deliver_all, flush_pending_lem, Queued, deliver_or_queue-Queued,
}
use zelto_os.Zsysd.Loop.{run}
use zelto_os.Zsysd.Loop.Fresh.{run-HasIds}
use zelto_os.Tests.Data.{cam, visit, note, noted, home, waiting_share, cam_manifest}

noted-HasIds : HasIds noted
noted-HasIds = record {
  next_pos = omega arith;
  below = ((λ u. (omega arith, omega arith)), ((λ u. cc), ((λ u. (omega arith, omega arith)), tt)));
  distinct = ((λ u. refl), ((λ u. cc), ((λ u. refl), tt)));
}

notif_find-store_notif_example :
    (notif_find noted.notifs 3 ≡ none)
    × (notif_find (store_notif noted 9 (note 3)).0.notifs 2
        ≡ (if 3 == 2 then some (note 3) else notif_find noted.notifs 2))
notif_find-store_notif_example =
    notif_find-store_notif noted 9 2 (note 3) noted-HasIds refl refl refl

run-HasIds_example : HasIds (run noted visit).0
run-HasIds_example = run-HasIds noted visit noted-HasIds

abbrev queue : List Pending
queue = waiting_share cam ∷ waiting_share (codes "mail") ∷ empty_pending ∷ []

flush_pending_lem_example :
    let queue' = (flush_pending queue cam 7).0 in
    ((flush_pending queue cam 7).1 ≡ deliver_all 7 (waiting cam queue))
    × (waiting cam queue' ≡ [])
    × ((flush_pending queue' cam 8).1 ≡ [])
    × (waiting (codes "mail") queue' ≡ waiting (codes "mail") queue)
flush_pending_lem_example =
    flush_pending_lem queue cam (codes "mail") 7 8 (unfold zelto_os.Text.eqb in refl)

abbrev cam_runs : Manifest
cam_runs = record cam_manifest { exec = codes "/bin/cam" }

abbrev queued : Broker
queued = record home { manifests = cam_runs ∷ []; pending = queue; clients = [] }

deliver_or_queue-Queued_example :
    let r = deliver_or_queue queued cam share (codes "text/plain") [] (codes "hi") in
    (r.1 ≡ launched (codes "/bin/cam") ∷ [])
    × (any is_free queued.pending ≡ true
        → Queued cam share (codes "text/plain") [] (codes "hi") queued.pending r.0.pending)
    × (any is_free queued.pending ≡ false → r.0.pending ≡ queued.pending)
deliver_or_queue-Queued_example =
    deliver_or_queue-Queued cam share (codes "text/plain") [] (codes "hi") (omega arith) queued
      {m = cam_runs} (unfold zelto_os.Zsysd.Intents.mailbox_fd in refl)
      (unfold zelto_os.Zsysd.Manifests.manifest_by_id zelto_os.Text.eqb in refl) refl

-- The first slot is freed and taken again: of the two intents for `cam` the later one is sent first.
abbrev taken_again : List Pending
taken_again =
    (flush_pending (waiting_share (codes "mail") ∷ waiting_share cam ∷ []) (codes "mail") 7).0

late_first :
    waiting cam (enqueue_pending taken_again cam open_url [] (codes "late:") [])
    ≡ write_intent cam open_url [] (codes "late:") [] (release (waiting_share (codes "mail")))
      ∷ waiting_share cam
      ∷ []
unfolding flush_pending flush_slots enqueue_pending zelto_os.Text.eqb
late_first = refl
