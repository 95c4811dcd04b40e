-- ===== src/Zsysd/Handle/Decides.antt =====
-- system/zsysd/main.c: how a request line can change the grants.
use zelto_os.Prelude.{
  ℕ, ◌≤◌, ◌≡◌, refl, ◌⊎◌, inl, inr, Bool, true, List, [], ◌∷◌, ◌++◌, arith, ◌||◌, length,
  Bool-cases,
}
use zelto_os.Text.{Bytes, codes, eqb}
use zelto_os.Zsysd.State.{sent, Broker, Event, Env}
use zelto_os.Zsysd.Wire.{field, status_reply}
use zelto_os.Zsysd.Wire.Limits.{length-field-le}
use zelto_os.Zsysd.Grants.{status_word, denied, decide}
use zelto_os.Zsysd.Grants.Cache.{Fits}
use zelto_os.Zsysd.Notifs.{post_decided, post_permission, of_request, handle_notify_post}
use zelto_os.Zsysd.Settings.{settings_set}
use zelto_os.Zsysd.Handle.Frame.{
  drop_id-Frame, handle_intent_resolve-Frame, route_notify_action-Frame, post_decided-Frame,
}
use zelto_os.Zsysd.Handle.{
  Op, register, intent_resolve, reload, notify_subscribe, notify_post, notify_cancel, notify_tap,
  notify_action, notify_channel, notify_badge, settings_get, settings_put, settings_subscribe,
  permission, register_app, permission_status, handle_line, handle_op, is_empty, reply_status,
}

-- One decision was made, and its events come first.
pub record OneDecision (env : Env) (b : Broker) (r : Broker × List Event) : Type 0 where
  pub app_id : Bytes
  pub perm : Bytes
  pub request : Bool
  pub rest : List Event
  pub fits : Fits app_id perm
  pub grants_are : r.0.grants ≡ (decide env.consent b.manifests b.grants request app_id perm).grants
  pub events_are :
      r.1 ≡ (decide env.consent b.manifests b.grants request app_id perm).events ++ rest

abbrev pub Decides : Env → Broker → Broker × List Event → Type 0
Decides env b r = (r.0.grants ≡ b.grants) ⊎ OneDecision env b r

decided-Decides :
    (env : Env) (b : Broker) (fd : ℕ) (line app_id : Bytes)
    → length app_id ≤ 95
    → Decides env b (
        let d = post_permission env b app_id in
        let n = of_request line b.next_notif_id in
        let r = post_decided (record b { grants = d.grants }) fd n d.status in
        (r.0, d.events ++ r.1))
decided-Decides env b fd line [] h =
    inl
      (post_decided-Frame (record b { grants = b.grants }) fd (of_request line b.next_notif_id)
        denied).grants_same
decided-Decides env b fd line (c ∷ app) h =
    let d = post_permission env b (c ∷ app) in
    let n = of_request line b.next_notif_id in
    inr (record {
      app_id = c ∷ app;
      perm = codes "notifications";
      request = true;
      rest = (post_decided (record b { grants = d.grants }) fd n d.status).1;
      fits = record { app_id_fits = h; perm_fits = omega arith };
      grants_are = (post_decided-Frame (record b { grants = d.grants }) fd n d.status).grants_same;
      events_are = refl;
    })

post-Decides :
    (env : Env) (b : Broker) (fd : ℕ) (line : Bytes)
    → Decides env b (handle_notify_post env b fd line)
unfolding handle_notify_post
post-Decides env b fd line =
    decided-Decides env b fd line (field line (codes "app_id") 96)
      (length-field-le line (codes "app_id") 96)

permission-Decides :
    (env : Env) (b : Broker) (fd : ℕ) (op app_id perm : Bytes)
    → length app_id ≤ 95
    → length perm ≤ 31
    → Decides env b (reply_status b fd (permission_status env b op app_id perm))
unfolding permission_status
permission-Decides env b fd op app_id perm h k =
    elim (Bool-cases (is_empty op || (is_empty app_id || is_empty perm))) [
      | inl e ↦ inl (rw e)
      | inr e ↦ inr (record {
        app_id = app_id;
        perm = perm;
        request = eqb op (codes "perm_request");
        rest =
            sent fd (
              status_reply (
                status_word
                  (decide env.consent b.manifests b.grants (eqb op (codes "perm_request")) app_id
                    perm).status))
            ∷ [];
        fits = record { app_id_fits = h; perm_fits = k };
        grants_are = rw e;
        events_are = rw e;
      })
    ]

grants-settings_set :
    (b : Broker) (w : Bool) (key value : Bytes) → (settings_set b w key value).0.grants ≡ b.grants
unfolding settings_set
grants-settings_set b w [] value = refl
grants-settings_set b w (c ∷ key) value = ground arith

-- A request line changes the grants by one decision on a key that fits its buffers, or not at all.
pub handle_op-Decides :
    (o : Op) (env : Env) (b : Broker) (slot fd : ℕ) (op line : Bytes)
    → Decides env b (handle_op o env b slot fd op line)
unfolding handle_op register_app
handle_op-Decides register env b slot fd op line = inl refl
handle_op-Decides intent_resolve env b slot fd op line =
    inl (handle_intent_resolve-Frame env b line).grants_same
handle_op-Decides reload env b slot fd op line = inl refl
handle_op-Decides notify_subscribe env b slot fd op line = inl refl
handle_op-Decides notify_post env b slot fd op line = post-Decides env b fd line
handle_op-Decides notify_cancel env b slot fd op line = inl (drop_id-Frame b _).grants_same
handle_op-Decides notify_tap env b slot fd op line = inl (drop_id-Frame b _).grants_same
handle_op-Decides notify_action env b slot fd op line =
    inl (route_notify_action-Frame b _ _).grants_same
handle_op-Decides notify_channel env b slot fd op line = inl refl
handle_op-Decides notify_badge env b slot fd op line = inl refl
handle_op-Decides settings_get env b slot fd op line = inl refl
handle_op-Decides settings_put env b slot fd op line = inl (grants-settings_set b env.writable _ _)
handle_op-Decides settings_subscribe env b slot fd op line = inl refl
handle_op-Decides permission env b slot fd op line =
    permission-Decides env b fd op (field line (codes "app_id") 96) (field line (codes "perm") 32)
      (length-field-le line (codes "app_id") 96) (length-field-le line (codes "perm") 32)

pub handle_line-Decides :
    (env : Env) (b : Broker) (slot fd : ℕ) (line : Bytes)
    → Decides env b (handle_line env b slot fd line)
unfolding handle_line
handle_line-Decides env b slot fd line = handle_op-Decides _ env b slot fd _ line
