-- ===== src/Zsysd/State.antt =====
-- system/zsysd/main.c, the tables of the broker. A global array is a list of its slots, and a field
-- `used` marks a slot in use, as in the source. A file descriptor is a number, with `none` for -1.
-- What the broker does to the outside is a list of events, in order.
use zelto_os.Prelude.{
  ℕ, Bool, false, List, [], ◌∷◌, Option, none, ltb, length, replicate, if◌then◌else◌,
}
use zelto_os.Text.{Bytes}

abbrev pub max_grants : ℕ
max_grants = 128

abbrev pub max_manifests : ℕ
max_manifests = 64

abbrev pub max_clients : ℕ
max_clients = 32

abbrev pub max_pending : ℕ
max_pending = 16

abbrev pub max_notifs : ℕ
max_notifs = 32

abbrev pub max_settings : ℕ
max_settings = 64

pub record Manifest : Type 0 where
  pub id : Bytes
  pub perms : Bytes
  pub share_targets : Bytes
  pub links : Bytes
  pub exec : Bytes

-- The strings that `kind` holds.
pub data Kind : Type 0 where
  share open_url notify_action : Kind

pub record Pending : Type 0 where
  pub used : Bool
  pub app_id : Bytes
  pub kind : Kind
  pub mime : Bytes
  pub url : Bytes
  pub payload : Bytes
  pub notif_id : ℕ

-- g_client_fd[slot] and g_client_app[slot].
pub record Client : Type 0 where
  pub fd : Option ℕ
  pub app : Bytes

pub record Grant : Type 0 where
  pub app_id : Bytes
  pub perm : Bytes
  pub granted : Bool
  pub used : Bool

pub record Notification : Type 0 where
  pub used : Bool
  pub id : ℕ
  pub app_id : Bytes
  pub title : Bytes
  pub body : Bytes
  pub channel : Bytes
  pub tap_route : Bytes
  pub action_id : Bytes
  pub action_title : Bytes

pub record Setting : Type 0 where
  pub used : Bool
  pub key : Bytes
  pub value : Bytes

pub record Broker : Type 0 where
  pub manifests : List Manifest
  pub pending : List Pending
  pub clients : List Client
  pub grants : List Grant
  pub notifs : List Notification
  pub next_notif_id : ℕ
  pub shade : Option ℕ
  pub settings : List Setting
  pub subs : List ℕ

pub data Event : Type 0 where
  -- write(fd, text)
  sent : ℕ → Bytes → Event
  -- fork and exec of a manifest's exec=
  launched : Bytes → Event
  -- the consent dialog for an app and a permission, with the user's answer
  asked : Bytes → Bytes → Bool → Event
  -- the chooser over the candidates, with its exit code
  chose : List Bytes → ℕ → Event
  -- the settings file is rewritten
  persisted : Bytes → Event
  -- close(fd)
  closed : ℕ → Event

-- One entry of a manifest directory: its name, and its content if it can be opened.
pub record DirEntry : Type 0 where
  pub name : Bytes
  pub content : Option Bytes

-- What lies outside the broker while it handles one line: the user's answer to each dialog, the two
-- manifest directories (none: not there, or ZELTO_DATA_DIR is unset), and whether the settings file
-- can be opened for writing.
pub record Env : Type 0 where
  pub consent : Bytes → Bytes → Bool
  pub choose : List Bytes → ℕ
  pub baked : Option (List DirEntry)
  pub runtime : Option (List DirEntry)
  pub writable : Bool

-- A message is written only if snprintf did not cut it: its length is below the buffer's size.
abbrev pub send : ℕ → ℕ → Bytes → List Event
send cap fd msg = if ltb (length msg) cap then sent fd msg ∷ [] else []

abbrev pub empty_pending : Pending
empty_pending = record {
  used = false;
  app_id = [];
  kind = share;
  mime = [];
  url = [];
  payload = [];
  notif_id = 0;
}

abbrev pub empty_grant : Grant
empty_grant = record { app_id = []; perm = []; granted = false; used = false }

abbrev pub empty_notif : Notification
empty_notif = record {
  used = false;
  id = 0;
  app_id = [];
  title = [];
  body = [];
  channel = [];
  tap_route = [];
  action_id = [];
  action_title = [];
}

abbrev pub empty_setting : Setting
empty_setting = record { used = false; key = []; value = [] }

-- The globals as main leaves them before the loop, but for the manifests and settings that it loads.
unfoldable pub initial : Broker
initial = record {
  manifests = [];
  pending = replicate max_pending empty_pending;
  clients = replicate max_clients (record { fd = none; app = [] });
  grants = replicate max_grants empty_grant;
  notifs = replicate max_notifs empty_notif;
  next_notif_id = 1;
  shade = none;
  settings = replicate max_settings empty_setting;
  subs = [];
}
