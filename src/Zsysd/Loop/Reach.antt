-- ===== src/Zsysd/Loop/Reach.antt =====
-- system/zsysd/main.c: the states that the loop can reach.
use zelto_os.Prelude.{
  ℕ, ◌<◌, ◌≡◌, refl, inl, inr, ◌≢◌, true, false, List, [], Option, none, some, arith, ◌==◌,
  Bool-cases, Option-cases, get_elem?,
}
use zelto_os.Prelude.Slots.{any, count, modify_first}
use zelto_os.Text.{Bytes, clip}
use zelto_os.Zsysd.State.{Broker, Event, Env, initial}
use zelto_os.Zsysd.Settings.{is_sub}
use zelto_os.Zsysd.Handle.Live.{holders, Live, AllGo}
use zelto_os.Zsysd.Loop.Sinks.{
  count-any, count-unsubscribe, All-count, count-All, holders-vacate, holders-occupy,
}
use zelto_os.Zsysd.Loop.Wired.{Wired, handle_lines-Kept, slot_fd-Live}
use zelto_os.Zsysd.Loop.{
  Input, accepted, received, hung_up, is_vacant, accept, tokens, forget, disconnect, slot_fd,
  receive, hang_up, step,
}

-- The kernel gives out a descriptor that no open connection has.
abbrev pub IsFresh : Broker → Input → Type 0
IsFresh b (accepted fd) = holders fd b.clients ≡ 0
IsFresh b (received slot text envs) = Unit
IsFresh b (hung_up slot) = Unit

accept-Wired : (b : Broker) (fd : ℕ) → holders fd b.clients ≡ 0 → Wired b → Wired (accept b fd).0
unfolding accept
accept-Wired b fd fresh w = elim (Bool-cases (any is_vacant b.clients)) [
  | inl e ↦ rw e (record {
    sinks = record {
      shade_live = λ g h. more g e (w.sinks.shade_live g h);
      subs_live =
          count-All
            (Live (modify_first is_vacant (λ _. record { fd = some fd; app = [] }) b.clients))
            b.subs (λ g h. more g e (All-count (Live b.clients) b.subs g w.sinks.subs_live h));
    };
    subs_once = w.subs_once;
    fds_once = λ g. ground (arith, holders-occupy g fd b.clients, w.fds_once g);
  })
  | inr e ↦ rw e w
]
  where
    more :
        (g : ℕ)
        → any is_vacant b.clients ≡ true
        → Live b.clients g
        → Live (modify_first is_vacant (λ _. record { fd = some fd; app = [] }) b.clients) g
    more g e h = ground (arith, holders-occupy g fd b.clients)

-- A connection that has gone: no slot holds it, and no sink names it.
pub record IsGone (fd : ℕ) (b : Broker) : Type 0 where
  pub no_slot : holders fd b.clients ≡ 0
  pub no_shade : b.shade ≢ some fd
  pub no_sub : count (is_sub fd) b.subs ≡ 0

module _ (b : Broker) (slot fd : ℕ) (at_slot : slot_fd (get_elem? b.clients slot) ≡ some fd)
    (w : Wired b) where
  stays : (g : ℕ) → (fd == g) ≡ false → Live b.clients g → Live (disconnect b slot fd).0.clients g
  unfolding disconnect
  stays g ne h = ground (arith, holders-vacate g fd b.clients slot at_slot)

  sub_of :
      (g : ℕ)
      → 0 < count (is_sub g) (disconnect b slot fd).0.subs
      → (0 < count (is_sub g) b.subs) × ((fd == g) ≡ false)
  unfolding disconnect
  sub_of g h = ground (arith, count-unsubscribe g fd b.subs, count-any fd b.subs, w.subs_once g)

  pub disconnect-IsGone : IsGone fd (disconnect b slot fd).0
  unfolding disconnect
  disconnect-IsGone = record {
    no_slot = ground (arith, holders-vacate fd fd b.clients slot at_slot, w.fds_once fd);
    no_shade = forget-ne b.shade;
    no_sub = ground (arith, count-unsubscribe fd fd b.subs, count-any fd b.subs, w.subs_once fd);
  }
    where
      forget-ne : (o : Option ℕ) → forget o fd ≢ some fd
      forget-ne none h = cc
      forget-ne (some g) h = ground arith

  shade_of :
      (g : ℕ) (o : Option ℕ)
      → ((k : ℕ) → o ≡ some k → Live b.clients k)
      → forget o fd ≡ some g
      → Live b.clients g × ((fd == g) ≡ false)
  shade_of g none live h = cc
  shade_of g (some k) live h = ground (arith, live k refl)

  disconnect-Wired : Wired (disconnect b slot fd).0
  disconnect-Wired = record {
    sinks = record {
      shade_live = λ g h.
          let s = shade_of g b.shade w.sinks.shade_live (unfold disconnect in h) in stays g s.1 s.0;
      subs_live =
          count-All (Live (disconnect b slot fd).0.clients) (disconnect b slot fd).0.subs λ g h.
            let s = sub_of g h in
            stays g s.1 (All-count (Live b.clients) b.subs g w.sinks.subs_live s.0);
    };
    subs_once =
        λ g. unfold disconnect in ground (arith, count-unsubscribe g fd b.subs, w.subs_once g);
    fds_once = λ g.
        unfold disconnect in
        ground (arith, holders-vacate g fd b.clients slot at_slot, w.fds_once g);
  }

-- A step's writes are right, and the invariant holds after it.
record Steps (b : Broker) (r : Broker × List Event) : Type 0 where
  goes : AllGo b.clients r.1
  wired : Wired r.0

receive-Steps :
    (b : Broker) (slot : ℕ) (text : Bytes) (envs : ℕ → Env)
    → Wired b
    → Steps b (receive b slot (slot_fd (get_elem? b.clients slot)) text envs)
unfolding receive
receive-Steps b slot text envs w = elim (Option-cases (slot_fd (get_elem? b.clients slot))) [
  | inl e ↦ rw (e, receive) (record { goes = tt; wired = w })
  | inr (fd, e) ↦
      let k =
        handle_lines-Kept envs 0 b slot fd (tokens (clip 512 text)) (slot_fd-Live b.clients slot e)
          w in
      rw (e, receive) (record { goes = k.goes; wired = k.wired })
]

hang_up-Steps :
    (b : Broker) (slot : ℕ)
    → Wired b
    → Steps b (hang_up b slot (slot_fd (get_elem? b.clients slot)))
unfolding hang_up
hang_up-Steps b slot w = elim (Option-cases (slot_fd (get_elem? b.clients slot))) [
  | inl e ↦ rw (e, hang_up) (record { goes = tt; wired = w })
  | inr (fd, e) ↦
      rw (e, hang_up)
        (record { goes = unfold disconnect in (tt, tt); wired = disconnect-Wired b slot fd e w })
]

accept-AllGo : (b : Broker) (fd : ℕ) → AllGo b.clients (accept b fd).1
unfolding accept
accept-AllGo b fd = ground arith

step-Steps : (b : Broker) (i : Input) → IsFresh b i → Wired b → Steps b (step b i)
unfolding step
step-Steps b (accepted fd) f w = record { goes = accept-AllGo b fd; wired = accept-Wired b fd f w }
step-Steps b (received slot text envs) f w = receive-Steps b slot text envs w
step-Steps b (hung_up slot) f w = hang_up-Steps b slot w

-- What the loop can reach from a state, in an environment that gives out fresh descriptors.
pub data Reach (b : Broker) : Broker → Type 0 where
  here : Reach b b
  next : {c : Broker} (i : Input) → IsFresh c i → Reach b c → Reach b (step c i).0

Reach-Wired : {b c : Broker} → Wired b → Reach b c → Wired c
Reach-Wired w here = w
Reach-Wired w (next {c} i f r) = (step-Steps c i f (Reach-Wired w r)).wired

-- In every state that the loop can reach from one whose sinks are open connections, the next step
-- writes only to descriptors that some client's slot holds.
pub Reach-AllGo :
    {b c : Broker} (i : Input) → Wired b → Reach b c → IsFresh c i → AllGo c.clients (step c i).1
Reach-AllGo {b} {c} i w r f = (step-Steps c i f (Reach-Wired w r)).goes

-- When a connection hangs up, in a state that the loop can reach from one whose sinks are open
-- connections, its descriptor is in no slot, is not the shade's, and is no settings observer's.
pub Reach-IsGone :
    {b c : Broker} (slot fd : ℕ)
    → Wired b
    → Reach b c
    → slot_fd (get_elem? c.clients slot) ≡ some fd
    → IsGone fd (step c (hung_up slot)).0
unfolding step hang_up
Reach-IsGone {b} {c} slot fd w r e =
    rw (e, hang_up) (disconnect-IsGone c slot fd e (Reach-Wired w r))

vacant-Wired :
    (b : Broker) → b.shade ≡ none → b.subs ≡ [] → ((g : ℕ) → holders g b.clients ≡ 0) → Wired b
vacant-Wired b s u h = record {
  sinks = record { shade_live = λ fd e. cc; subs_live = rw u tt };
  subs_once = λ g. rw u (omega arith);
  fds_once = λ g. omega (arith, h g);
}

pub initial-Wired : Wired initial
unfolding initial
initial-Wired = vacant-Wired initial refl refl (λ g. refl)
