-- ===== src/Tests/Tables.antt =====
-- The settings table and its file, on two entries.
use zelto_os.Prelude.{◌≡◌, refl, true, List, [], ◌∷◌, some, arith, replicate}
use zelto_os.Text.{Bytes, codes, eqb}
use zelto_os.Zsysd.State.{Setting, Broker, persisted, initial, empty_setting, max_settings}
use zelto_os.Zsysd.Settings.{setting_put, setting_value, settings_load, settings_text, settings_set}
use zelto_os.Zsysd.Settings.File.{IsStorable}
use zelto_os.Zsysd.Settings.Durable.{settings_load-settings_text}
use zelto_os.Zsysd.Settings.Invariant.{IsDurable, setting_put-IsDurable}
use zelto_os.Zsysd.Settings.Push.{settings_set_silent}

abbrev theme : Bytes
theme = codes "theme"

abbrev dark : Bytes
dark = codes "dark"

abbrev two : List Setting
two = record { used = true; key = theme; value = dark } ∷ empty_setting ∷ []

theme-IsStorable : IsStorable theme dark
theme-IsStorable = record {
  fits = record { key_fits = omega arith; value_fits = omega arith };
  key_ne_nil = λ e. cc;
  key_no_tab = (refl, (refl, (refl, (refl, (refl, tt)))));
  key_no_newline = (refl, (refl, (refl, (refl, (refl, tt)))));
  value_no_newline = (refl, (refl, (refl, (refl, tt))));
  value_kept = unfold zelto_os.Text.trim_end in refl;
}

volume-IsStorable : IsStorable (codes "vol") (codes "7")
volume-IsStorable = record {
  fits = record { key_fits = omega arith; value_fits = omega arith };
  key_ne_nil = λ e. cc;
  key_no_tab = (refl, (refl, (refl, tt)));
  key_no_newline = (refl, (refl, (refl, tt)));
  value_no_newline = (refl, tt);
  value_kept = unfold zelto_os.Text.trim_end in refl;
}

two-IsDurable : IsDurable two
two-IsDurable = record {
  fits = omega arith;
  storable = ((λ u. theme-IsStorable), ((λ u. cc), tt));
  distinct = ((λ u. refl), ((λ u. cc), tt));
}

settings_load-settings_text_example :
    setting_value
      (settings_load (replicate max_settings empty_setting) (some (settings_text two)))
      theme
    ≡ setting_value two theme
settings_load-settings_text_example =
    settings_load-settings_text two theme two-IsDurable.fits two-IsDurable.storable
      two-IsDurable.distinct

setting_put-IsDurable_example : IsDurable (setting_put two (codes "vol") (codes "7")).0
setting_put-IsDurable_example =
    setting_put-IsDurable two (codes "vol") (codes "7") volume-IsStorable two-IsDurable

abbrev observed : Broker
observed = record initial { settings = two; subs = 4 ∷ [] }

abbrev long_key : Bytes
long_key = replicate 62 97

abbrev long_value : Bytes
long_value = replicate 159 98

settings_set_silent_example :
    ((settings_set observed true (97 ∷ long_key) long_value).0.settings
      ≡ (setting_put observed.settings (97 ∷ long_key) long_value).0)
    × ((settings_set observed true (97 ∷ long_key) long_value).1
        ≡ persisted (settings_text (setting_put observed.settings (97 ∷ long_key) long_value).0)
          ∷ [])
unfolding eqb
settings_set_silent_example =
    settings_set_silent observed 97 long_key long_value (omega arith)
      (unfold setting_put initial in refl)
