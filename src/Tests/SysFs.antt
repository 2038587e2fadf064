-- ===== src/Tests/SysFs.antt =====
-- Values under /sys, on a host whose every command prints the same lines.
use whitebox_tempest_plugin.Prelude.{◌≡◌, refl, true, all, List, [], ◌∷◌, none, map}
use whitebox_tempest_plugin.Exceptions.{ok, err, extra_value_found}
use whitebox_tempest_plugin.Python.Dict.{Dict, lookup, insert}
use whitebox_tempest_plugin.Python.Equality.{text_instance}
use whitebox_tempest_plugin.Python.Set.{contains, union, add}
use whitebox_tempest_plugin.Python.Text.{
  Text, codes, text_eq, split, split_once, strip, join, starts_with,
}
use whitebox_tempest_plugin.Clients.Ssh.{execute}
use whitebox_tempest_plugin.Clients.SysFs.{get_sysfs_values, get_sysfs_value}
use whitebox_tempest_plugin.Clients.SysFs.Lines.{asked, read_lines}
use whitebox_tempest_plugin.Clients.SysFs.Lines.Values.{Entry, line, is_plain, last_value}
use whitebox_tempest_plugin.Clients.SysFs.Output.{grep, text_of, get_sysfs_values_lem}
use whitebox_tempest_plugin.World.{World}
use whitebox_tempest_plugin.Tests.Host.{host, conf}
use whitebox_tempest_plugin.Tests.Files.{manager}
use whitebox_tempest_plugin.Tests.Waiters.{box}

abbrev printed : Text
printed = text_of (codes "/sys/a:1" ∷ codes "/sys/b: 2" ∷ codes "/sys/a:3" ∷ [])

abbrev printer : World
printer = record host { exec_command = λ connection command box. (ok printed, box) }

abbrev paths : List Text
paths = codes "a" ∷ codes "b" ∷ []

abbrev a_entry : Entry
a_entry = (codes "a", codes "1")

abbrev more : List Entry
more = (codes "b", codes " 2") ∷ (codes "a", codes "3") ∷ []

grep_run : (grep printer conf manager.ssh paths box).0 ≡ ok printed
unfolding execute
grep_run = refl

strip_run : strip printed ≡ text_of (map line (a_entry ∷ more))
unfolding strip join
strip_run = refl

plain_run : all (is_plain (asked paths)) (a_entry ∷ more) ≡ true
unfolding union contains add text_eq starts_with join
plain_run = refl

-- The second line is of a path that was not asked for.
value_run :
    (get_sysfs_value printer conf manager.ssh (codes "a") box).0
    ≡ err (extra_value_found (codes "/sys/b"))
unfolding get_sysfs_value get_sysfs_values read_lines execute split strip split_once insert union
    contains add text_eq starts_with join
value_run = refl

get_sysfs_values_lem_example :
    (results : Dict Text Text) × ((get_sysfs_values printer conf manager.ssh paths box).0
      ≡ ok results)
    × ((path : Text) → lookup path results ≡ last_value path (a_entry ∷ more) none)
get_sysfs_values_lem_example =
    get_sysfs_values_lem printer conf manager.ssh paths a_entry more box printed grep_run strip_run
      refl plain_run

abbrev only_a : List Text
only_a = codes "a" ∷ []
