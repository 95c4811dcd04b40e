-- ===== src/Tests/Data.antt =====
-- The brokers, environments and request lines that the examples run on.
use zelto_os.Prelude.{ℕ, true, List, [], ◌∷◌, ◌++◌, none}
use zelto_os.Text.{Bytes, codes}
use zelto_os.Zsysd.State.{
  Manifest, Notification, Pending, Broker, Env, share, initial, empty_grant, empty_notif,
  empty_pending,
}
use zelto_os.Zsysd.Wire.Fields.{Field, request}
use zelto_os.Zsysd.Loop.{Input, accepted, received, hung_up}

abbrev pub cam : Bytes
cam = codes "cam"

abbrev pub camera : Bytes
camera = codes "camera"

abbrev pub cam_manifest : Manifest
cam_manifest = record {
  id = cam;
  perms = codes "camera, notifications";
  share_targets = [];
  links = [];
  exec = [];
}

abbrev pub agrees : Env
agrees = record {
  consent = λ a p. true;
  choose = λ cands. 0;
  baked = none;
  runtime = none;
  writable = true;
}

-- A broker with two grant slots and one app.
abbrev pub home : Broker
home = record initial { manifests = cam_manifest ∷ []; grants = empty_grant ∷ empty_grant ∷ [] }

abbrev pub pair : Bytes → Bytes → Field
pair k v = record { key = k; value = v }

abbrev pub ask : Bytes
ask = request (
    pair (codes "op") (codes "perm_request")
    ∷ pair (codes "app_id") cam
    ∷ pair (codes "perm") camera
    ∷ [])

-- An app connects, asks for the camera and hangs up.
abbrev pub visit : List Input
visit = accepted 5 ∷ received 0 (ask ++ 10 ∷ []) (λ i. agrees) ∷ hung_up 0 ∷ []

abbrev pub note : ℕ → Notification
note n = record empty_notif { used = true; id = n; app_id = cam }

-- Two notifications and one free slot.
abbrev pub noted : Broker
noted = record home { notifs = note 2 ∷ empty_notif ∷ note 1 ∷ []; next_notif_id = 3 }

abbrev pub waiting_share : Bytes → Pending
waiting_share app_id = record empty_pending { used = true; app_id = app_id; kind = share }
