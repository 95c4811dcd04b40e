-- ===== src/Zsysd/Loop/Wired.antt =====
-- system/zsysd/main.c: the invariant of the connections, line by line.
use zelto_os.Prelude.{
  ℕ, zero, suc, ◌≤◌, ◌<◌, ◌≡◌, refl, sym, ◌∙◌, ◌⊎◌, inl, inr, Bool, List, [], ◌∷◌, some, arith,
  All-append, get_elem?,
}
use zelto_os.Prelude.Slots.{count}
use zelto_os.Text.{Bytes, codes}
use zelto_os.Zsysd.State.{
  Client, Broker, Event, sent, launched, asked, chose, persisted, closed, Env,
}
use zelto_os.Zsysd.Wire.{field}
use zelto_os.Zsysd.Notifs.{handle_notify_post, post_permission, of_request}
use zelto_os.Zsysd.Settings.{is_sub, subscribe, settings_set}
use zelto_os.Zsysd.Handle.Frame.{
  Frame, drop_id-Frame, handle_intent_resolve-Frame, route_notify_action-Frame, post_decided-Frame,
}
use zelto_os.Zsysd.Handle.{
  Op, register, intent_resolve, reload, notify_subscribe, notify_post, notify_cancel, notify_tap,
  notify_action, notify_channel, notify_badge, settings_get, settings_put, settings_subscribe,
  permission, register_app, permission_status, handle_line, handle_op,
}
use zelto_os.Zsysd.Handle.Live.{holders, Live, GoesTo, AllGo, Sinks}
use zelto_os.Zsysd.Handle.Targets.{handle_op-AllGo}
use zelto_os.Zsysd.Loop.Sinks.{
  subscribe-once, All-count, count-All, count-subscribe-le, holders-set_app,
}
use zelto_os.Zsysd.Loop.{handle_lines, slot_fd}

pub record Wired (b : Broker) : Type 0 where
  pub sinks : Sinks b
  pub subs_once : (g : ℕ) → count (is_sub g) b.subs ≤ 1
  pub fds_once : (g : ℕ) → holders g b.clients ≤ 1

-- What a line from the connection `fd` does to the connections.
record Conn (fd : ℕ) (b b' : Broker) : Type 0 where
  fds_same : (g : ℕ) → holders g b'.clients ≡ holders g b.clients
  shade_is : (b'.shade ≡ b.shade) ⊎ (b'.shade ≡ some fd)
  subs_are : (b'.subs ≡ b.subs) ⊎ (b'.subs ≡ subscribe b.subs fd)

Conn-same :
    (fd : ℕ) {b b' : Broker}
    → b'.clients ≡ b.clients
    → b'.shade ≡ b.shade
    → b'.subs ≡ b.subs
    → Conn fd b b'
Conn-same fd c s u = record { fds_same = λ g. rw c; shade_is = inl s; subs_are = inl u }

Frame-Conn : (fd : ℕ) {b b' : Broker} → Frame b b' → Conn fd b b'
Frame-Conn fd f = Conn-same fd f.clients_same f.shade_same f.subs_same

settings_set-Conn :
    (fd : ℕ) (b : Broker) (w : Bool) (key value : Bytes) → Conn fd b (settings_set b w key value).0
unfolding settings_set
settings_set-Conn fd b w [] value = Conn-same fd refl refl refl
settings_set-Conn fd b w (c ∷ key) value = Conn-same fd (ground arith) (ground arith) (ground arith)

handle_notify_post-Conn :
    (fd : ℕ) (env : Env) (b : Broker) (line : Bytes)
    → Conn fd b (handle_notify_post env b fd line).0
unfolding handle_notify_post
handle_notify_post-Conn fd env b line =
    let d = post_permission env b (field line (codes "app_id") 96) in
    let f =
      post_decided-Frame (record b { grants = d.grants }) fd (of_request line b.next_notif_id)
        d.status in
    Conn-same fd f.clients_same f.shade_same f.subs_same

handle_op-Conn :
    (o : Op) (env : Env) (b : Broker) (slot fd : ℕ) (op line : Bytes)
    → Conn fd b (handle_op o env b slot fd op line).0
unfolding handle_op register_app permission_status
handle_op-Conn register env b slot fd op line = record {
  fds_same = λ g. holders-set_app g b.clients slot (field line (codes "app_id") 96) _ refl;
  shade_is = inl refl;
  subs_are = inl refl;
}
handle_op-Conn intent_resolve env b slot fd op line =
    Frame-Conn fd (handle_intent_resolve-Frame env b line)
handle_op-Conn reload env b slot fd op line = Conn-same fd refl refl refl
handle_op-Conn notify_subscribe env b slot fd op line = record {
  fds_same = λ g. refl;
  shade_is = inr refl;
  subs_are = inl refl;
}
handle_op-Conn notify_post env b slot fd op line = handle_notify_post-Conn fd env b line
handle_op-Conn notify_cancel env b slot fd op line = Frame-Conn fd (drop_id-Frame b _)
handle_op-Conn notify_tap env b slot fd op line = Frame-Conn fd (drop_id-Frame b _)
handle_op-Conn notify_action env b slot fd op line = Frame-Conn fd (route_notify_action-Frame b _ _)
handle_op-Conn notify_channel env b slot fd op line = Conn-same fd refl refl refl
handle_op-Conn notify_badge env b slot fd op line = Conn-same fd refl refl refl
handle_op-Conn settings_get env b slot fd op line = Conn-same fd refl refl refl
handle_op-Conn settings_put env b slot fd op line = settings_set-Conn fd b env.writable _ _
handle_op-Conn settings_subscribe env b slot fd op line = record {
  fds_same = λ g. refl;
  shade_is = inl refl;
  subs_are = inr refl;
}
handle_op-Conn permission env b slot fd op line = Conn-same fd refl refl refl

Conn-sub :
    {fd : ℕ} {b b' : Broker} (g : ℕ)
    → Conn fd b b'
    → 0 < count (is_sub g) b'.subs
    → (0 < count (is_sub g) b.subs) ⊎ (g ≡ fd)
Conn-sub {fd} {b} {b'} g c k = ground (arith, c.subs_are, count-subscribe-le g fd b.subs)

Conn-Live : {fd : ℕ} {b b' : Broker} (g : ℕ) → Conn fd b b' → Live b.clients g → Live b'.clients g
Conn-Live g c h = rw (c.fds_same g) h

Conn-Wired : {fd : ℕ} {b b' : Broker} → Conn fd b b' → Live b.clients fd → Wired b → Wired b'
Conn-Wired {fd} {b} {b'} c h w = record {
  sinks = record {
    shade_live = λ g e. Conn-Live g c (shade g e c.shade_is);
    subs_live = count-All (Live b'.clients) b'.subs (λ g k. Conn-Live g c (sub g (Conn-sub g c k)));
  };
  subs_once = λ g. ground (arith, c.subs_are, w.subs_once g, subscribe-once g fd b.subs);
  fds_once = λ g. rw (c.fds_same g) (w.fds_once g);
}
  where
    shade :
        (g : ℕ) → b'.shade ≡ some g → (b'.shade ≡ b.shade) ⊎ (b'.shade ≡ some fd) → Live b.clients g
    shade g e (inl old) = w.sinks.shade_live g (sym old ∙ e)
    shade g e (inr new) = let same : g ≡ fd = cc in rw same h

    sub : (g : ℕ) → (0 < count (is_sub g) b.subs) ⊎ (g ≡ fd) → Live b.clients g
    sub g (inl k) = All-count (Live b.clients) b.subs g w.sinks.subs_live k
    sub g (inr e) = rw e h

-- A write that is right for the connections after a line is right for those before it.
AllGo-same :
    (cs cs' : List Client) (es : List Event)
    → ((g : ℕ) → holders g cs' ≡ holders g cs)
    → AllGo cs' es
    → AllGo cs es
AllGo-same cs cs' [] e a = tt
AllGo-same cs cs' (sent fd msg ∷ es) e a = (rw (← e fd) a.0, AllGo-same cs cs' es e a.1)
AllGo-same cs cs' (launched x ∷ es) e a = (tt, AllGo-same cs cs' es e a.1)
AllGo-same cs cs' (asked x y z ∷ es) e a = (tt, AllGo-same cs cs' es e a.1)
AllGo-same cs cs' (chose x y ∷ es) e a = (tt, AllGo-same cs cs' es e a.1)
AllGo-same cs cs' (persisted x ∷ es) e a = (tt, AllGo-same cs cs' es e a.1)
AllGo-same cs cs' (closed x ∷ es) e a = (tt, AllGo-same cs cs' es e a.1)

-- The writes are right, the invariant holds after them, and no connection has come or gone.
pub record Kept (b : Broker) (r : Broker × List Event) : Type 0 where
  pub goes : AllGo b.clients r.1
  pub wired : Wired r.0
  pub fds_kept : (g : ℕ) → holders g r.0.clients ≡ holders g b.clients

handle_line-Kept :
    (env : Env) (b : Broker) (slot fd : ℕ) (line : Bytes)
    → Live b.clients fd
    → Wired b
    → Kept b (handle_line env b slot fd line)
unfolding handle_line
handle_line-Kept env b slot fd line h w =
    let c = handle_op-Conn _ env b slot fd _ line in
    record {
      goes = handle_op-AllGo _ env b slot fd _ line h w.sinks;
      wired = Conn-Wired c h w;
      fds_kept = c.fds_same;
    }

pub handle_lines-Kept :
    (envs : ℕ → Env) (i : ℕ) (b : Broker) (slot fd : ℕ) (ls : List Bytes)
    → Live b.clients fd
    → Wired b
    → Kept b (handle_lines envs i b slot fd ls)
unfolding handle_lines
handle_lines-Kept envs i b slot fd [] h w = record { goes = tt; wired = w; fds_kept = λ g. refl }
handle_lines-Kept envs i b slot fd (l ∷ ls) h w =
    let r = handle_line (envs i) b slot fd l in
    let k = handle_line-Kept (envs i) b slot fd l h w in
    let later = handle_lines-Kept envs (suc i) r.0 slot fd ls (rw (k.fds_kept fd) h) k.wired in
    record {
      goes =
          All-append (GoesTo b.clients) r.1 _ k.goes
            (AllGo-same b.clients r.0.clients _ k.fds_kept later.goes);
      wired = later.wired;
      fds_kept = λ g. later.fds_kept g ∙ k.fds_kept g;
    }

pub slot_fd-Live :
    (cs : List Client) (slot : ℕ) {fd : ℕ} → slot_fd (get_elem? cs slot) ≡ some fd → Live cs fd
slot_fd-Live [] slot h = cc
slot_fd-Live (c ∷ cs) zero h = ground arith
slot_fd-Live (c ∷ cs) (suc slot) {fd} h = ground (arith, slot_fd-Live cs slot {fd = fd})
