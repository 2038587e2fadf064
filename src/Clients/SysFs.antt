-- ===== src/Clients/SysFs.antt =====
-- `SysFSClient` of services/clients.py: values of files under /sys, read by one `grep`.
pub mod Lines
pub mod Output
use whitebox_tempest_plugin.Prelude.{
  ℕ, zero, suc, Bool, ◌||◌, false, not, List, [], ◌∷◌, ◌++◌, Option, none, some, map, if◌then◌else◌,
}
use whitebox_tempest_plugin.Config.{Conf}
use whitebox_tempest_plugin.Exceptions.{Result, ok, err, value_error, key_error, extra_value_found}
use whitebox_tempest_plugin.Exceptions.Action.{Action, pure, from_result, ◌>>=◌, ◌>>◌}
use whitebox_tempest_plugin.Python.Dict.{Dict, lookup, insert, keys}
use whitebox_tempest_plugin.Python.Equality.{text_instance}
use whitebox_tempest_plugin.Python.Set.{contains, union}
use whitebox_tempest_plugin.Python.Text.{Text, codes, split, split_once, strip, join}
use whitebox_tempest_plugin.Clients.Ssh.{SshClient, execute, ◌<+>◌}
use whitebox_tempest_plugin.Clients.SysFs.Lines.{sys_path, asked, read_lines}
use whitebox_tempest_plugin.World.{World}

module _ (W : World) (conf : Conf) (client : SshClient) where
  unfoldable pub get_sysfs_values : List Text → Action W.State (Dict Text Text)
  unfolding read_lines
  get_sysfs_values paths = do
    result ←
        execute W conf client (codes "grep -H \"\"" <+> join (codes " ") (asked paths)) none false
    from_result (read_lines (asked paths) (split 10 (strip result)) [])

  -- `self.get_sysfs_values(path)[path]`
  unfoldable pub get_sysfs_value : Text → Action W.State Text
  get_sysfs_value path = do
    results ← get_sysfs_values (path ∷ [])
    from_result (elim (lookup path results) [ none ↦ err key_error | some value ↦ ok value ])

  unfoldable pub set_sysfs_value : Text → Text → Action W.State Unit
  set_sysfs_value path value = do
    execute W conf client (codes "echo \"" ++ (value ++ (codes "\" | sudo tee " ++ sys_path path)))
        none false
    pure tt
