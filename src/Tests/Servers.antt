-- ===== src/Tests/Servers.antt =====
-- Migrations, and the wait for a shutdown that does not come.
use whitebox_tempest_plugin.Prelude.{◌+◌, ◌≡◌, refl, [], none, some, arith}
use whitebox_tempest_plugin.Exceptions.{ok}
use whitebox_tempest_plugin.Python.Text.{Text, codes, text_eq}
use whitebox_tempest_plugin.Base.Servers.{live_migrate, domain_check, wait_for_domain_shutdown}
use whitebox_tempest_plugin.Base.Servers.Moves.{Landed, live_migrate-Landed}
use whitebox_tempest_plugin.Base.Servers.Shutdown.{wait_for_domain_shutdown-Ended}
use whitebox_tempest_plugin.Clients.Ssh.{SshClient, execute}
use whitebox_tempest_plugin.Waiters.Polling.{IsQuery, Ended}
use whitebox_tempest_plugin.World.{World}
use whitebox_tempest_plugin.Tests.Host.{Box, host, conf}
use whitebox_tempest_plugin.Tests.Idle.{idle_api}
use whitebox_tempest_plugin.Tests.Waiters.{box}

migrated :
    live_migrate idle_api (codes "s") (codes "ACTIVE") (some (codes "compute1")) box ≡ (ok tt, box)
unfolding live_migrate text_eq
migrated = refl

live_migrate-Landed_example :
    (orig_host : Text) × (target : Text) × (u : Box) × ((idle_api.get_host_for_server
        (codes "s")
        box).0
      ≡ ok orig_host)
    × (idle_api.get_host_for_server (codes "s") u ≡ (ok target, box))
    × Landed (some (codes "compute1")) orig_host target
live_migrate-Landed_example =
    live_migrate-Landed idle_api (codes "s") (codes "ACTIVE") (some (codes "compute1")) box box
      migrated

-- Each command takes a second, and the domain is always listed.
abbrev slow_host : World
slow_host = record host {
  exec_command = λ connection command s. (ok (codes "i-1"), record s { now = s.now + 1 });
}

abbrev ssh : SshClient
ssh = record {
  ssh_key = [];
  ssh_user = [];
  host_parameters = none;
  ctlplane_address = codes "compute1";
}

shutdown-IsQuery : IsQuery slow_host (domain_check slow_host conf ssh (codes "i-1"))
unfolding domain_check execute
shutdown-IsQuery = record {
  clock_mono = λ s. omega arith;
  ne-timeout = λ s h. cc;
  ne-no_fuel = λ s h. cc;
}

wait_for_domain_shutdown-Ended_example :
    Ended slow_host 10
      (domain_check slow_host conf ssh (codes "i-1"))
      100
      (wait_for_domain_shutdown slow_host conf 12 ssh (codes "i-1") box)
wait_for_domain_shutdown-Ended_example =
    wait_for_domain_shutdown-Ended slow_host conf ssh (codes "i-1") shutdown-IsQuery 11 12 box
      (omega arith) (unfold domain_check execute in omega arith)
