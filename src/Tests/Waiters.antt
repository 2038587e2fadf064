-- ===== src/Tests/Waiters.antt =====
-- Waits on the host of the tests, whose polls each take a second.
use whitebox_tempest_plugin.Prelude.{ℕ, zero, suc, ◌≤◌, ◌≡◌, ◌≢◌, refl, none, arith}
use whitebox_tempest_plugin.Exceptions.{Error, ok, err, timeout_exception, no_fuel}
use whitebox_tempest_plugin.Python.Text.{codes, text_eq}
use whitebox_tempest_plugin.Python.Dict.{lookup}
use whitebox_tempest_plugin.Waiters.{
  ServicesClient, poll_status, wait_for_nova_service_state, migration_check, trait_check,
  wait_for_server_migration_complete, wait_for_trait_add_in_rp,
}
use whitebox_tempest_plugin.Waiters.Service
use whitebox_tempest_plugin.Waiters.Service.{IsTimed, wait_for_nova_service_state-Ended}
use whitebox_tempest_plugin.Waiters.Polling
use whitebox_tempest_plugin.Waiters.Polling.{
  IsQuery, SleepAdvances, wait_for_server_migration_complete-Ended, wait_for_trait_add_in_rp-Ended,
}
use whitebox_tempest_plugin.Tests.Host.{Box, host, conf, poll_at}

abbrev pub box : Box
box = record { file = λ section option. none; now = 100; polls_left = 2 }

abbrev pub client : ServicesClient
client = record { build_timeout = 10; build_interval = 2 }

poll_later : (n : ℕ) (s : Box) → s.now ≤ (poll_at n s).1.now
poll_later zero s = omega arith
poll_later (suc n) s = omega arith

poll_ok : (n : ℕ) (s : Box) (e : Error) → (poll_at n s).0 ≢ err e
poll_ok zero s e h = cc
poll_ok (suc n) s e h = cc

pub host-IsTimed : IsTimed host
host-IsTimed = record {
  clock-sleep = λ n s. omega arith;
  clock-list_services = λ h b s. poll_later s.polls_left s;
  list_services-ne-timeout = λ h b s. poll_ok s.polls_left s timeout_exception;
  list_services-ne-no_fuel = λ h b s. poll_ok s.polls_left s no_fuel;
}

pub host-SleepAdvances : SleepAdvances host
host-SleepAdvances n s = omega arith

pub migrations-IsQuery : IsQuery host host.list_migrations
migrations-IsQuery = record {
  clock_mono = λ s. omega arith;
  ne-timeout = λ s h. cc;
  ne-no_fuel = λ s h. cc;
}

traits-IsQuery : IsQuery host (host.list_resource_provider_traits (codes "rp"))
traits-IsQuery = record {
  clock_mono = λ s. omega arith;
  ne-timeout = λ s h. cc;
  ne-no_fuel = λ s h. cc;
}

-- The third poll finds the binary up.
wait_run :
    wait_for_nova_service_state host client
      (codes "compute1")
      (codes "nova-compute")
      (codes "state")
      (codes "up")
      box
    ≡ (ok tt, record box { now = 107; polls_left = 0 })
unfolding wait_for_nova_service_state poll_status lookup text_eq
wait_run = refl

wait_for_nova_service_state-Ended_example :
    let r =
      wait_for_nova_service_state host client
        (codes "compute1")
        (codes "nova-compute")
        (codes "state")
        (codes "up")
        box in
    Service.Ended host client
      (codes "compute1")
      (codes "nova-compute")
      (codes "state")
      (codes "up")
      100
      r.0
      r.1
wait_for_nova_service_state-Ended_example =
    wait_for_nova_service_state-Ended host host-IsTimed client (codes "compute1")
      (codes "nova-compute") (codes "state") (codes "up") box (omega arith)

wait_for_server_migration_complete-Ended_example :
    Polling.Ended host 10
      (migration_check host)
      100
      (wait_for_server_migration_complete host client box)
wait_for_server_migration_complete-Ended_example =
    wait_for_server_migration_complete-Ended host host-SleepAdvances migrations-IsQuery client box

wait_for_trait_add_in_rp-Ended_example :
    Polling.Ended host 10
      (trait_check host (codes "CUSTOM_A") (codes "rp"))
      100
      (wait_for_trait_add_in_rp host conf (codes "CUSTOM_A") (codes "rp") box)
wait_for_trait_add_in_rp-Ended_example =
    wait_for_trait_add_in_rp-Ended host host-SleepAdvances (codes "CUSTOM_A") (codes "rp")
      traits-IsQuery conf box (omega arith)
