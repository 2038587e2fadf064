-- ===== src/Clients/SysFs/Output.antt =====
-- What `get_sysfs_values` returns or raises for an output of `grep -H`.
use whitebox_tempest_plugin.Prelude.{◌≡◌, refl, ap, ◌∙◌, true, false, List, [], ◌∷◌, none, map, all}
use whitebox_tempest_plugin.Config.{Conf}
use whitebox_tempest_plugin.Exceptions.{Result, ok}
use whitebox_tempest_plugin.Python.Dict.{Dict, lookup}
use whitebox_tempest_plugin.Python.Equality.{text_instance}
use whitebox_tempest_plugin.Python.Text.{Text, codes, split, strip, join}
use whitebox_tempest_plugin.Python.Text.Laws.{lacks, split-join}
use whitebox_tempest_plugin.Clients.Ssh.{SshClient, execute, ◌<+>◌}
use whitebox_tempest_plugin.Clients.SysFs.{get_sysfs_values}
use whitebox_tempest_plugin.Clients.SysFs.Lines.{asked}
use whitebox_tempest_plugin.Clients.SysFs.Lines.Values.{
  Entry, line, is_plain, last_value, stored, lookup-stored, read_lines_lem,
}
use whitebox_tempest_plugin.World.{World}

-- The text of lines.
abbrev pub text_of : List Text → Text
text_of = join (10 ∷ [])

module _ (W : World) (conf : Conf) (client : SshClient) where
  -- The command that `get_sysfs_values` runs.
  abbrev pub grep : List Text → W.State → Result Text × W.State
  grep paths =
      execute W conf client (codes "grep -H \"\"" <+> join (codes " ") (asked paths)) none false

  -- If grep prints one line or more, each of a path that was asked for, the values are returned by
  -- their paths without white space round them. Of several lines for one path the last one counts,
  -- and no exception tells of the others. Paths have no colon and do not start with /sys/
  -- themselves, and values no line break.
  pub get_sysfs_values_lem :
      (paths : List Text) (entry : Entry) (entries : List Entry) (s : W.State) (out : Text)
      → (grep paths s).0 ≡ ok out
      → strip out ≡ text_of (map line (entry ∷ entries))
      → all (lacks 10) (map line (entry ∷ entries)) ≡ true
      → all (is_plain (asked paths)) (entry ∷ entries) ≡ true
      → (results : Dict Text Text) × ((get_sysfs_values W conf client paths s).0 ≡ ok results)
        × ((path : Text) → lookup path results ≡ last_value path (entry ∷ entries) none)
  unfolding get_sysfs_values
  get_sysfs_values_lem paths entry entries s out h o l p =
      let lines = map line (entry ∷ entries) in
      let parts : split 10 (strip out) ≡ lines =
        ap (split 10) o ∙ split-join 10 (line entry) (map line entries) l in
      (
        stored (entry ∷ entries) [],
        rw (h, parts) (read_lines_lem (asked paths) (entry ∷ entries) [] p refl),
        λ path. unfold lookup in lookup-stored (entry ∷ entries) [] path,
      )
