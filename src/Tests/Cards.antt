-- ===== src/Tests/Cards.antt =====
-- A shade with one notification, which is shown again and then dropped.
use zelto_os.Prelude.{◌≡◌, ◌≤◌, ◌&&◌, ◌||◌, [], ◌∷◌, none, some, if◌then◌else◌, take, length}
use zelto_os.Prelude.Slots.{any}
use zelto_os.Text.{codes}
use zelto_os.Number.{pos, eqb_ℤ}
use zelto_os.Client.Mailbox.{ZShownNotification}
use zelto_os.Shade.{
  Banner, show, run, start, is_banner, is_free, banner_by_id, banner_of, on_show, on_hide,
}
use zelto_os.Shade.Mirror.{run-banner_by_id}

abbrev note : ZShownNotification
note = record {
  id = pos 3;
  app_id = codes "cam";
  title = codes "t";
  body = codes "b";
  tap_route = [];
  action_id = [];
  action_title = [];
}

run-banner_by_id_example :
    let s = run (show note ∷ []) start in
    (banner_by_id (on_show note s) (pos 4) ≡ (
      if eqb_ℤ note.id (pos 4) && (any (is_banner note.id) s.banners || any is_free s.banners)
      then some (banner_of note)
      else banner_by_id s (pos 4)))
    × (banner_by_id (on_hide (pos 3) s) (pos 4)
        ≡ (if eqb_ℤ (pos 3) (pos 4) then none else banner_by_id s (pos 4)))
    × ((b : Banner)
        → banner_by_id s (pos 3) ≡ some b
        → (on_hide (pos 3) s).history ≡ b ∷ take 5 s.history)
    × (length s.history ≤ 6)
run-banner_by_id_example = run-banner_by_id (show note ∷ []) note (pos 3) (pos 4)
