-- ===== src/Zsysd/Grants.antt =====
-- system/zsysd/main.c, the permission broker: grant_find, grant_set and decide.
use zelto_os.Prelude.{
  ℕ, Bool, true, false, not, ◌&&◌, List, [], ◌∷◌, Option, none, some, if◌then◌else◌,
}
use zelto_os.Prelude.Slots.{any, find?, modify_first}
use zelto_os.Text.{Bytes, codes, eqb, clip}
use zelto_os.Zsysd.State.{Manifest, Grant, Event, asked}
use zelto_os.Zsysd.Manifests.{manifest_declares}
pub mod Cache

abbrev pub is_grant : Bytes → Bytes → Grant → Bool
is_grant app_id perm g = g.used && (eqb g.app_id app_id && eqb g.perm perm)

abbrev pub is_free : Grant → Bool
is_free g = not g.used

unfoldable pub grant_find : List Grant → Bytes → Bytes → Option Grant
grant_find gs app_id perm = find? (is_grant app_id perm) gs

abbrev pub write_grant : Bytes → Bytes → Bool → Grant → Grant
write_grant app_id perm granted g = record {
  app_id = clip 96 app_id;
  perm = clip 32 perm;
  granted = granted;
  used = true;
}

-- The slot of the key, else the first free slot, else nothing.
unfoldable pub grant_set : List Grant → Bytes → Bytes → Bool → List Grant
unfolding grant_find
grant_set gs app_id perm granted =
    modify_first (if any (is_grant app_id perm) gs then is_grant app_id perm else is_free)
      (write_grant app_id perm granted) gs

pub data Status : Type 0 where
  granted denied prompt : Status

abbrev pub status_word : Status → Bytes
status_word granted = codes "granted"
status_word denied = codes "denied"
status_word prompt = codes "prompt"

abbrev pub of_answer : Bool → Status
of_answer true = granted
of_answer false = denied

pub record Decision : Type 0 where
  pub status : Status
  pub grants : List Grant
  pub events : List Event

-- The request is decided by the user now.
abbrev pub prompted : List Grant → Bytes → Bytes → Bool → Decision
prompted gs app_id perm allow = record {
  status = of_answer allow;
  grants = grant_set gs app_id perm allow;
  events = asked app_id perm allow ∷ [];
}

abbrev pub settled : List Grant → Status → Decision
settled gs st = record { status = st; grants = gs; events = [] }

-- With no cached decision: undeclared is denied; perm_status reports; perm_request asks.
unfoldable pub undecided :
    Bool → Bool → (Bytes → Bytes → Bool) → List Grant → Bytes → Bytes → Decision
undecided declared request consent gs app_id perm =
    if not declared
    then settled gs denied
    else if not request
    then settled gs prompt
    else prompted gs app_id perm (consent app_id perm)

-- `request` says that the operation is "perm_request".
unfoldable pub decide :
    (Bytes → Bytes → Bool) → List Manifest → List Grant → Bool → Bytes → Bytes → Decision
unfolding grant_find undecided
decide consent ms gs request app_id perm = elim (grant_find gs app_id perm) [
  | some g ↦ settled gs (of_answer g.granted)
  | none ↦ undecided (manifest_declares ms app_id perm) request consent gs app_id perm
]
