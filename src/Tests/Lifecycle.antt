-- ===== src/Tests/Lifecycle.antt =====
-- Stopping and restarting the plain manager of the tests.
use whitebox_tempest_plugin.Prelude.{◌≡◌, refl, [], some}
use whitebox_tempest_plugin.Exceptions.{ok}
use whitebox_tempest_plugin.Python.Text.{codes, split, text_eq}
use whitebox_tempest_plugin.Clients.Ssh.{execute}
use whitebox_tempest_plugin.Clients.ServiceManager.{ServiceManager, run_field}
use whitebox_tempest_plugin.Tests.Host.{host, conf, reply}
use whitebox_tempest_plugin.Tests.Files.{manager}
use whitebox_tempest_plugin.Tests.Waiters.{box}

-- Only a mask command, and only an unmask command.
abbrev masking : ServiceManager
masking = record manager { mask_command = some (codes "mask") }

abbrev unmasking : ServiceManager
unmasking = record manager { unmask_command = some (codes "unmask") }

masking_run : (run_field host conf masking masking.stop_command box).0 ≡ ok []
unfolding execute split reply text_eq
masking_run = refl

unmasking_run : (run_field host conf unmasking unmasking.stop_command box).0 ≡ ok []
unfolding execute split reply text_eq
unmasking_run = refl
