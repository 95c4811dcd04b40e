-- ===== src/Zsysd/Handle.antt =====
-- system/zsysd/main.c, handle_line: one request line, by its "op".
use zelto_os.Prelude.{
  ℕ, ◌+◌, ◌-◌, Bool, true, false, not, ◌&&◌, ◌||◌, List, [], ◌∷◌, ◌++◌, Option, none, some,
  if◌then◌else◌, ◌==◌, ltb, length, set, get_elem?,
}
use zelto_os.Text.{Bytes, codes, eqb, clip}
use zelto_os.Zsysd.State.{Manifest, Client, Broker, Event, sent, send, Env, max_clients}
use zelto_os.Zsysd.Wire.{field, atoll, value_reply, status_reply}
use zelto_os.Zsysd.Manifests.{load_manifests}
use zelto_os.Zsysd.Grants.{Status, denied, status_word, Decision, decide, settled}
use zelto_os.Zsysd.Notifs.{handle_notify_post, drop_id}
use zelto_os.Zsysd.Settings.{setting_value, settings_set, subscribe}
use zelto_os.Zsysd.Intents.{flush_pending, handle_intent_resolve, route_notify_action, logged}
pub mod Frame
pub mod Decides
pub mod Live
pub mod Delivery
pub mod Targets
pub mod Ids

-- The operations that handle_line tells apart; every other word is a permission operation.
pub data Op : Type 0 where
  register intent_resolve reload : Op
  notify_subscribe notify_post notify_cancel notify_tap notify_action notify_channel notify_badge :
      Op
  settings_get settings_put settings_subscribe : Op
  permission : Op

unfoldable pub op_of : Bytes → Op
unfolding eqb
op_of op =
    if eqb op (codes "register")
    then register
    else if eqb op (codes "intent_resolve")
    then intent_resolve
    else if eqb op (codes "reload")
    then reload
    else if eqb op (codes "notify_subscribe")
    then notify_subscribe
    else if eqb op (codes "notify_post")
    then notify_post
    else if eqb op (codes "notify_cancel")
    then notify_cancel
    else if eqb op (codes "notify_tap")
    then notify_tap
    else if eqb op (codes "notify_action")
    then notify_action
    else if eqb op (codes "notify_channel")
    then notify_channel
    else if eqb op (codes "settings_get")
    then settings_get
    else if eqb op (codes "settings_set")
    then settings_put
    else if eqb op (codes "settings_subscribe")
    then settings_subscribe
    else if eqb op (codes "notify_badge")
    then notify_badge
    else permission

abbrev pub set_app : List Client → ℕ → Bytes → Option Client → List Client
set_app cs slot app_id none = cs
set_app cs slot app_id (some c) = set cs slot (record c { app = clip 96 app_id })

-- Record the mailbox of the slot, and hand over what waited for the app.
unfoldable pub register_app : Broker → ℕ → ℕ → Bytes → Broker × List Event
unfolding flush_pending
register_app b slot fd app_id =
    let (pending, es) = flush_pending b.pending app_id fd in
    (
      record b {
        clients = set_app b.clients slot app_id (get_elem? b.clients slot);
        pending = pending;
      },
      es,
    )

abbrev pub is_empty : Bytes → Bool
is_empty [] = true
is_empty (c ∷ s) = false

-- perm_status and perm_request: reply with the decision on this connection.
unfoldable pub permission_status : Env → Broker → Bytes → Bytes → Bytes → Decision
unfolding decide eqb
permission_status env b op app_id perm =
    if is_empty op || (is_empty app_id || is_empty perm)
    then settled b.grants denied
    else decide env.consent b.manifests b.grants (eqb op (codes "perm_request")) app_id perm

abbrev pub reply_status : Broker → ℕ → Decision → Broker × List Event
reply_status b fd d =
    (record b { grants = d.grants }, d.events ++ sent fd (status_reply (status_word d.status)) ∷ [])

abbrev pub handle_permission : Env → Broker → ℕ → Bytes → Bytes → Broker × List Event
handle_permission env b fd op line =
    reply_status b fd
      (permission_status env b op (field line (codes "app_id") 96) (field line (codes "perm") 32))

-- The value in a settings_get reply: an empty key has none.
abbrev pub get_value : Broker → Bytes → Bytes
get_value b [] = []
get_value b (c ∷ key) = setting_value b.settings (c ∷ key)

-- The branches of handle_line; `op` is the word itself, for the permission operations.
unfoldable pub handle_op : Op → Env → Broker → ℕ → ℕ → Bytes → Bytes → Broker × List Event
unfolding register_app permission_status
handle_op register env b slot fd op line = register_app b slot fd (field line (codes "app_id") 96)
handle_op intent_resolve env b slot fd op line = handle_intent_resolve env b line
handle_op reload env b slot fd op line =
    (record b { manifests = load_manifests env.baked env.runtime }, [])
handle_op notify_subscribe env b slot fd op line = (record b { shade = some fd }, [])
handle_op notify_post env b slot fd op line = handle_notify_post env b fd line
handle_op notify_cancel env b slot fd op line = drop_id b (atoll (field line (codes "id") 24))
handle_op notify_tap env b slot fd op line = drop_id b (atoll (field line (codes "id") 24))
handle_op notify_action env b slot fd op line =
    route_notify_action b (atoll (field line (codes "id") 24)) (field line (codes "action") 64)
handle_op notify_channel env b slot fd op line = (b, [])
handle_op notify_badge env b slot fd op line = (b, [])
handle_op settings_get env b slot fd op line =
    (b, send 256 fd (value_reply (get_value b (field line (codes "key") 64))))
handle_op settings_put env b slot fd op line =
    settings_set b env.writable (field line (codes "key") 64) (field line (codes "value") 160)
handle_op settings_subscribe env b slot fd op line = (record b { subs = subscribe b.subs fd }, [])
handle_op permission env b slot fd op line = handle_permission env b fd op line

unfoldable pub handle_line : Env → Broker → ℕ → ℕ → Bytes → Broker × List Event
unfolding handle_op op_of field
handle_line env b slot fd line =
    let op = field line (codes "op") 32 in handle_op (op_of op) env b slot fd op line
