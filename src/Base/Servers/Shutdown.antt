-- ===== src/Base/Servers/Shutdown.antt =====
-- How the wait for the shutdown of a domain ends.
use whitebox_tempest_plugin.Prelude.{
  ℕ, zero, suc, ◌+◌, ◌-◌, ◌<◌, refl, leb, arith, Bool-cases, inl, inr,
}
use whitebox_tempest_plugin.Config.{Conf}
use whitebox_tempest_plugin.Python.Text.{Text}
use whitebox_tempest_plugin.Clients.Ssh.{SshClient}
use whitebox_tempest_plugin.Base.Servers.{domain_check, shutdown_loop, wait_for_domain_shutdown}
use whitebox_tempest_plugin.Waiters.Polling.{IsQuery, Ended, after_check}
use whitebox_tempest_plugin.World.{World}

module _ (W : World) (conf : Conf) (client : SshClient) (domain_name : Text) where
  -- The state behind a number of polls.
  abbrev pub polled : ℕ → W.State → W.State
  polled zero s = s
  polled (suc n) s = polled n (domain_check W conf client domain_name s).1

  shutdown_loop-Ended :
      (Q : IsQuery W (domain_check W conf client domain_name)) (n fuel start_time : ℕ) (s : W.State)
      → n < fuel
      → start_time + conf.compute.build_timeout < W.clock (polled n s)
      → Ended W conf.compute.build_timeout
          (domain_check W conf client domain_name)
          start_time
          (shutdown_loop W conf client domain_name fuel start_time s)
  unfolding shutdown_loop
  shutdown_loop-Ended Q n zero start_time s l h = absurd (omega arith)
  shutdown_loop-Ended Q zero (suc fuel) start_time s l h = ground arith
  shutdown_loop-Ended Q (suc n) (suc fuel) start_time s l h =
      let check = domain_check W conf client domain_name in
      elim (Bool-cases (leb (W.clock s - start_time) conf.compute.build_timeout)) [
        | inl early ↦ rw early (
            after_check W conf.compute.build_timeout check Q start_time s _
              (shutdown_loop-Ended Q n fuel start_time (check s).1 (omega arith) h) (check s).0
              (check s).1 refl)
        | inr over ↦ rw over (ground arith)
      ]

  -- If some number of polls takes the clock past the timeout, the wait ends within one round more:
  -- with a list that has no trace of the domain, with a TimeoutException after the timeout is over,
  -- or with the exception of a poll; the polls do not turn the clock back, and raise no
  -- TimeoutException of their own.
  pub wait_for_domain_shutdown-Ended :
      (Q : IsQuery W (domain_check W conf client domain_name)) (n fuel : ℕ) (s : W.State)
      → n < fuel
      → W.clock s + conf.compute.build_timeout < W.clock (polled n s)
      → Ended W conf.compute.build_timeout
          (domain_check W conf client domain_name)
          (W.clock s)
          (wait_for_domain_shutdown W conf fuel client domain_name s)
  unfolding wait_for_domain_shutdown
  wait_for_domain_shutdown-Ended Q n fuel s l h = shutdown_loop-Ended Q n fuel (W.clock s) s l h
