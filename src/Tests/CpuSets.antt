-- ===== src/Tests/CpuSets.antt =====
-- The CPU sets that a manager reports for the file of the tests.
use whitebox_tempest_plugin.Prelude.{◌≡◌, refl, true, List, [], ◌∷◌, none, some, if◌then◌else◌}
use whitebox_tempest_plugin.Exceptions.{ok}
use whitebox_tempest_plugin.Python.Text.{codes, text_eq, join}
use whitebox_tempest_plugin.Python.Text.Number.{str_nat}
use whitebox_tempest_plugin.Clients.ServiceManager.{enter_options}
use whitebox_tempest_plugin.Clients.ServiceManager.View.{is_sendable}
use whitebox_tempest_plugin.Tests.Host.{Box, host, conf}
use whitebox_tempest_plugin.Tests.Files.{manager, seen, host-IsCrudini, host-KeepsFile}
use whitebox_tempest_plugin.Tests.Waiters.{box}
use whitebox_tempest_plugin.Clients.ServiceManager.{get_cpu_shared_set}
use whitebox_tempest_plugin.Clients.ServiceManager.CpuSets.{
  shared_set_opt, get_cpu_shared_set-enter_options,
}
use whitebox_tempest_plugin.Prelude.{◌&&◌, not}
use whitebox_tempest_plugin.Prelude.Int.{ℤ}
use whitebox_tempest_plugin.Python.Equality.{int_eq}
use whitebox_tempest_plugin.Python.Set.{contains}
use whitebox_tempest_plugin.Hardware.CpuSpec.Print.{span, omit, print_rules}
use whitebox_tempest_plugin.Hardware.CpuSpec.RoundTrip.{any_lists, any_omits}

-- A file with the older option alone.
abbrev pin_box : Box
pin_box = record box {
  file =
      λ section option. if text_eq option (codes "vcpu_pin_set") then some (codes "2-3") else none;
}

shared_is_sendable : is_sendable (shared_set_opt (print_rules (span 0 3 ∷ omit 1 ∷ []))) ≡ true
unfolding print_rules join str_nat
shared_is_sendable = refl

get_cpu_shared_set-enter_options_example :
    (cpus : List ℤ) × ((get_cpu_shared_set host conf manager
        (enter_options host conf manager
          (shared_set_opt (print_rules (span 0 3 ∷ omit 1 ∷ [])) ∷ [])
          box).1).0
      ≡ ok cpus)
    × ((x : ℤ)
        → contains cpus x
          ≡ (any_lists (span 0 3 ∷ omit 1 ∷ []) x && not (any_omits (span 0 3 ∷ omit 1 ∷ []) x)))
get_cpu_shared_set-enter_options_example =
    get_cpu_shared_set-enter_options host conf manager seen host-IsCrudini host-KeepsFile (span 0 3)
      (omit 1 ∷ []) box shared_is_sendable refl
