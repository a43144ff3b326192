-- ===== src/Resources/LazyConfig.antt =====
-- Chapter 9/lazy_init.cpp: settings that are loaded when the first of them is changed. The settings
-- hold no value of their own, so an `optional` of them is empty or not; the strings are a type that is
-- an argument.
pub mod Loading
mod Examples
use c_programming_for_linux.Prelude.{Bool, true, false, List, [], ◌∷◌, ◌++◌, if◌then◌else◌}

-- The lines printed.
pub data Line (Text : Type 0) : Type 0 where
  loading : Text → Line Text
  removing : Line Text
  set_setting : Text → Text → Line Text
  config_loaded : Line Text
  startup : Line Text

-- `Config`, with what has been printed, the newest last.
pub record Config (Text : Type 0) : Type 0 where
  pub settings : Bool
  pub printed : List (Line Text)

module _ {Text : Type 0} (settings_cfg : Text) where
  abbrev pub print : Line Text → Config Text → Config Text
  print line c = record c { printed = c.printed ++ line ∷ [] }

  -- `Config()`
  pub construct : Config Text
  construct = record { settings = false; printed = config_loaded ∷ [] }

  -- `settings.emplace("settings.cfg")`
  pub emplace : Config Text → Config Text
  emplace c = print (loading settings_cfg) (record c { settings = true })

  pub change_setting : Text → Text → Config Text → Config Text
  unfolding emplace
  change_setting setting value c =
      print (set_setting setting value) (if c.settings then c else emplace c)

  -- `~Config()`, which destroys the settings if there are any.
  pub destruct : Config Text → Config Text
  destruct c = if c.settings then print removing (record c { settings = false }) else c

  pub change_settings : List (Text × Text) → Config Text → Config Text
  change_settings [] c = c
  change_settings ((setting, value) ∷ rest) c =
      change_settings rest (change_setting setting value c)

  -- `main`, for any changes.
  pub main : List (Text × Text) → List (Line Text)
  unfolding construct change_settings destruct
  main changes = (destruct (change_settings changes (print startup construct))).printed
