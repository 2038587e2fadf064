-- ===== src/Config/Options.antt =====
-- The definitions of options in config.py, without their help and its texts.
pub mod General
pub mod Services
pub mod Hardware
pub mod Features
use whitebox_tempest_plugin.Prelude.{ℕ, Bool, List, Option}
use whitebox_tempest_plugin.Python.Text.{Text, codes}

-- The class of an option, or its type.
pub data Kind : Type 0 where
  str_opt int_opt bool_opt dict_opt list_opt dict_of_ints_opt list_of_ints_opt : Kind

pub data Default : Type 0 where
  text : Text → Default
  number : ℕ → Default
  flag : Bool → Default
  no_items : Default

-- An option: `default=None` is as good as none, and so is an empty list of choices. A deprecated
-- option is a name and a group.
pub record Opt : Type 0 where
  pub name : Text
  pub kind : Kind
  pub default : Option Default
  pub choices : List (Option Text)
  pub deprecated : List (Text × Text)

abbrev pub general_group : Text
general_group = codes "whitebox"

abbrev pub nova_compute_group : Text
nova_compute_group = codes "whitebox-nova-compute"

abbrev pub database_group : Text
database_group = codes "whitebox-database"

abbrev pub hardware_group : Text
hardware_group = codes "whitebox-hardware"
