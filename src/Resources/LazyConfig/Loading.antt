-- ===== src/Resources/LazyConfig/Loading.antt =====
-- Chapter 9/lazy_init.cpp: the settings are loaded once, before the first change.
use c_programming_for_linux.Prelude.{
  ◌≡◌, refl, true, List, [], ◌∷◌, ◌++◌, append_assoc, append-nil, ap,
}
use c_programming_for_linux.Resources.LazyConfig.{
  Line, loading, removing, set_setting, config_loaded, startup, construct, emplace, change_setting,
  change_settings, destruct, main,
}

module _ {Text : Type 0} (settings_cfg : Text) where
  abbrev pub set_lines : List (Text × Text) → List (Line Text)
  set_lines [] = []
  set_lines ((setting, value) ∷ rest) = set_setting setting value ∷ set_lines rest

  -- What a program prints that changes these settings.
  abbrev pub lazy_lines : List (Text × Text) → List (Line Text)
  lazy_lines [] = []
  lazy_lines (change ∷ rest) = (loading settings_cfg ∷ set_lines (change ∷ rest)) ++ removing ∷ []

  loaded_changes :
      (changes : List (Text × Text)) (lines : List (Line Text))
      → change_settings settings_cfg changes (record { settings = true; printed = lines })
        ≡ record { settings = true; printed = lines ++ set_lines changes }
  unfolding change_settings change_setting
  loaded_changes [] lines = simp append-nil
  loaded_changes ((setting, value) ∷ rest) lines =
      rw (loaded_changes rest (lines ++ set_setting setting value ∷ [])) (simp append_assoc)

  -- Whatever settings are changed, in any number, the program prints that it loads them once, before
  -- the first change, and that it removes them at the end; without a change it does neither.
  pub settings_are_lazy :
      (changes : List (Text × Text))
      → main settings_cfg changes ≡ config_loaded ∷ startup ∷ lazy_lines changes
  unfolding main construct change_settings change_setting emplace destruct
  settings_are_lazy [] = refl
  settings_are_lazy ((setting, value) ∷ rest) =
      ap (λ c. (destruct settings_cfg c).printed)
        (loaded_changes rest
          (config_loaded ∷ startup ∷ loading settings_cfg ∷ set_setting setting value ∷ []))
