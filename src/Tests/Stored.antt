-- ===== src/Tests/Stored.antt =====
-- The preferences of an app, on a file of two lines.
use zelto_os.Prelude.{◌≡◌, refl, some, arith, if◌then◌else◌}
use zelto_os.Text.{Bytes, codes, eqb, clip}
use zelto_os.Prefs.{prefs_find, prefs_store}
use zelto_os.Prefs.Stores.{IsPair, prefs_find-prefs_store}

abbrev file : Bytes
file = codes "a\tone\nb\ttwo\n"

b_new-IsPair : IsPair (codes "b") (codes "new")
b_new-IsPair = record {
  key_no_tab = (refl, tt);
  key_no_newline = (refl, tt);
  value_no_newline = (refl, (refl, (refl, tt)));
}

prefs_find-prefs_store_example :
    prefs_find (some (prefs_store (some file) (codes "b") (some (codes "new")))) (codes "a") 1024
    ≡ (if eqb (codes "b") (codes "a")
        then some (clip 1024 (codes "new"))
        else prefs_find (some file) (codes "a") 1024)
prefs_find-prefs_store_example =
    prefs_find-prefs_store (some file) (codes "b") (codes "new") (codes "a") 1024 b_new-IsPair
      (omega arith)
