-- ===== src/Resources/LazyConfig/Examples.antt =====
-- Chapter 9/lazy_init.cpp: the two changes of main, and none.
use c_programming_for_linux.Prelude.{◌≡◌, List, [], ◌∷◌}
use Prim.Native.String.{String}
use c_programming_for_linux.Resources.LazyConfig.{
  loading, removing, set_setting, config_loaded, startup, main,
}
use c_programming_for_linux.Resources.LazyConfig.Loading.{lazy_lines, settings_are_lazy}

abbrev changes : List (String × String)
changes = ("Drive mode", "Sport") ∷ ("Gear label", "PRNDL") ∷ []

settings_are_lazy_example :
    main "settings.cfg" changes ≡ config_loaded ∷ startup ∷ lazy_lines "settings.cfg" changes
settings_are_lazy_example = settings_are_lazy "settings.cfg" changes

both_changes :
    main "settings.cfg" changes
    ≡ config_loaded
      ∷ startup
      ∷ loading "settings.cfg"
      ∷ set_setting "Drive mode" "Sport"
      ∷ set_setting "Gear label" "PRNDL"
      ∷ removing
      ∷ []
both_changes = settings_are_lazy "settings.cfg" changes
