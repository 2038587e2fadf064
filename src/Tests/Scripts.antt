-- ===== src/Tests/Scripts.antt =====
-- A script that sets an option under others and raises.
use whitebox_tempest_plugin.Prelude.{◌≡◌, refl, [], ◌∷◌, some}
use whitebox_tempest_plugin.Exceptions.{err, key_error}
use whitebox_tempest_plugin.Python.Text.{codes, text_eq}
use whitebox_tempest_plugin.Clients.ServiceManager.{ConfOpt}
use whitebox_tempest_plugin.Clients.ServiceManager.Scripts.{
  Script, set, fail, in_turn, under, perform, carry_out, Shows, perform-Shows,
}
use whitebox_tempest_plugin.Tests.Host.{host, conf}
use whitebox_tempest_plugin.Tests.Files.{manager, seen, host-IsCrudini, host-KeepsFile}
use whitebox_tempest_plugin.Tests.Waiters.{box}

abbrev shared : ConfOpt
shared = record {
  section = codes "compute";
  option = codes "cpu_shared_set";
  value = some (codes "0-3");
}

abbrev debug : ConfOpt
debug = record { section = codes "DEFAULT"; option = codes "debug"; value = some (codes "true") }

abbrev script : Script
script =
    under (shared ∷ [])
      (in_turn (under (debug ∷ []) (set shared)) (in_turn (set debug) (fail key_error)))

-- On the abstract file, the script raises, and leaves the debug option behind, which no
-- config_options lists around it.
script_run : (carry_out script (seen box)).0 ≡ err key_error
unfolding carry_out
script_run = refl

script_leaves :
    (carry_out script (seen box)).1 (codes "DEFAULT") (codes "debug") ≡ some (codes "true")
unfolding carry_out text_eq
script_leaves = refl

perform-Shows_example :
    Shows seen (perform host conf manager script box) (carry_out script (seen box))
perform-Shows_example =
    perform-Shows host conf manager seen host-IsCrudini host-KeepsFile script box refl
      (λ section option. refl)
