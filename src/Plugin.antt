-- ===== src/Plugin.antt =====
-- whitebox_tempest_plugin/plugin.py: the options that the plugin registers with Tempest, and those
-- that it lists. Tempest's register_opt_group and its group of compute features are parameters.
pub mod Registry
pub mod Registered
use whitebox_tempest_plugin.Prelude.{List, [], ◌∷◌}
use whitebox_tempest_plugin.Config.Options.{
  Opt, general_group, nova_compute_group, database_group, hardware_group,
}
use whitebox_tempest_plugin.Config.Options.General.{general_opts}
use whitebox_tempest_plugin.Config.Options.Services.{nova_compute_opts, database_opts}
use whitebox_tempest_plugin.Config.Options.Hardware.{hardware_opts}
use whitebox_tempest_plugin.Config.Options.Features.{compute_features_group_opts}
use whitebox_tempest_plugin.Exceptions.Action.{Action, ◌>>=◌, ◌>>◌}
use whitebox_tempest_plugin.Python.Text.{Text}

module _ {S : Type 0} (register_opt_group : Text → List Opt → Action S Unit)
    (compute_features_group : Text) where
  unfoldable pub register_opts : Action S Unit
  register_opts = do
    register_opt_group general_group general_opts
    register_opt_group nova_compute_group nova_compute_opts
    register_opt_group database_group database_opts
    register_opt_group hardware_group hardware_opts
    register_opt_group compute_features_group compute_features_group_opts

unfoldable pub get_opt_lists : List (Text × List Opt)
get_opt_lists =
    (general_group, general_opts)
    ∷ (nova_compute_group, nova_compute_opts)
    ∷ (database_group, database_opts)
    ∷ (hardware_group, hardware_opts)
    ∷ []
