-- ===== src/Tests/Plugin.antt =====
-- A registrar whose state is what is registered.
use whitebox_tempest_plugin.Prelude.{◌≡◌, refl, true, List, [], none, some}
use whitebox_tempest_plugin.Config.Options.{Opt, database_group, str_opt, text}
use whitebox_tempest_plugin.Exceptions.{ok}
use whitebox_tempest_plugin.Exceptions.Action.{Action}
use whitebox_tempest_plugin.Plugin.{register_opts, get_opt_lists}
use whitebox_tempest_plugin.Plugin.Registry.{
  Registry, overlay, find_listed, IsRegistrar, distinct_groups,
}
use whitebox_tempest_plugin.Plugin.Registered.{tables, register_opts-tables}
use whitebox_tempest_plugin.Python.Text.{Text, codes, text_eq}

abbrev registrar : Text → List Opt → Action Registry Unit
registrar g opts r = (ok tt, overlay g opts r)

abbrev same : Registry → Registry
same r = r

registrar-IsRegistrar : IsRegistrar registrar same
registrar-IsRegistrar = record { registers = λ g opts s d f. (refl, refl) }

abbrev features : Text
features = codes "compute-feature-enabled"

abbrev empty : Registry
empty group name = none

abbrev cell_name : Opt
cell_name = record {
  name = codes "nova_cell1_db_name";
  kind = str_opt;
  default = some (text (codes "nova_cell1"));
  choices = [];
  deprecated = [];
}

cell_name_listed :
    find_listed database_group (codes "nova_cell1_db_name") get_opt_lists ≡ some cell_name
unfolding find_listed get_opt_lists text_eq
cell_name_listed = refl

-- The options of compute features are registered, and not listed.
iothreads_unlisted : find_listed features (codes "iothreads") get_opt_lists ≡ none
unfolding find_listed get_opt_lists text_eq
iothreads_unlisted = refl

other_groups : distinct_groups (tables features) ≡ true
unfolding get_opt_lists text_eq
other_groups = refl

register_opts-tables_example :
    let after = register_opts registrar features empty in
    (after.0 ≡ ok tt)
    × ((group name : Text) (o : Opt)
        → find_listed group name (tables features) ≡ some o
        → same after.1 group name ≡ some o)
    × ((group name : Text)
        → find_listed group name (tables features) ≡ none
        → same after.1 group name ≡ empty group name)
register_opts-tables_example =
    register_opts-tables registrar same registrar-IsRegistrar features empty other_groups
      (λ group name o h. refl)
