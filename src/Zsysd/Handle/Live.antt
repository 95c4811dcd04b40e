-- ===== src/Zsysd/Handle/Live.antt =====
-- What it is for a write to go to a descriptor that a client's slot holds.
use zelto_os.Prelude.{ℕ, ◌<◌, ◌≡◌, Bool, false, List, Option, none, some, arith, ◌==◌, All}
use zelto_os.Prelude.Slots.{count}
use zelto_os.Text.{Bytes}
use zelto_os.Zsysd.State.{
  Client, Broker, Event, sent, launched, asked, chose, persisted, closed, send,
}

abbrev pub is_fd : ℕ → Option ℕ → Bool
is_fd fd none = false
is_fd fd (some g) = g == fd

abbrev pub holds : ℕ → Client → Bool
holds fd c = is_fd fd c.fd

-- How many slots hold the descriptor.
abbrev pub holders : ℕ → List Client → ℕ
holders fd cs = count (holds fd) cs

abbrev pub Live : List Client → ℕ → Type 0
Live cs fd = 0 < holders fd cs

-- A write goes to a descriptor that a slot holds.
abbrev pub GoesTo : List Client → Event → Type 0
GoesTo cs (sent fd msg) = Live cs fd
GoesTo cs (launched exec) = Unit
GoesTo cs (asked a p answer) = Unit
GoesTo cs (chose cands pick) = Unit
GoesTo cs (persisted text) = Unit
GoesTo cs (closed fd) = Unit

abbrev pub AllGo : List Client → List Event → Type 0
AllGo cs es = All (GoesTo cs) es

pub send-AllGo :
    (cs : List Client) (cap fd : ℕ) (msg : Bytes) → Live cs fd → AllGo cs (send cap fd msg)
send-AllGo cs cap fd msg h = ground arith

-- The sinks that a broker pushes to without being asked are live.
pub record Sinks (b : Broker) : Type 0 where
  pub shade_live : (fd : ℕ) → b.shade ≡ some fd → Live b.clients fd
  pub subs_live : All (Live b.clients) b.subs
