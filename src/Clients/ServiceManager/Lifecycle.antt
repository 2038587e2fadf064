-- ===== src/Clients/ServiceManager/Lifecycle.antt =====
-- Starting, stopping and restarting a service, for each class of manager.
use whitebox_tempest_plugin.Prelude.{
  ℕ, ◌<◌, ◌≡◌, refl, ap, pair_eq, ◌∙◌, [], Option, none, some, Bool-cases, inl, inr,
}
use whitebox_tempest_plugin.Prelude.{true, false}
use whitebox_tempest_plugin.Config.{Conf}
use whitebox_tempest_plugin.Exceptions.{Result, ok, err}
use whitebox_tempest_plugin.Exceptions.Action.{
  Action, resume, resume_returned, returned_through, pure, ◌>>=◌, ◌>>◌,
}
use whitebox_tempest_plugin.Python.Text.{Text, codes}
use whitebox_tempest_plugin.Clients.ServiceManager.{
  service_manager, nova_service_manager, virt_qemud_manager, ServiceManager, run, run_field,
  run_if_unmask, is_set, start, stop, start_as, stop_as, restart,
}
use whitebox_tempest_plugin.Clients.ServiceManager.File.{Returns}
use whitebox_tempest_plugin.Clients.ServiceManager.Options.{KeepsFile}
use whitebox_tempest_plugin.Clients.ServiceManager.View.{View}
use whitebox_tempest_plugin.Waiters.{ServicesClient, poll_status, wait_for_nova_service_state}
use whitebox_tempest_plugin.Waiters.Service.{IsTimed, Ended, wait_for_nova_service_state-Ended}
use whitebox_tempest_plugin.World.{World}

resume-pure_state :
    {A B S : Type 0} (b : B) (r : Result A) (s : S) → (resume {S = S} r (λ _. pure b) s).1 ≡ s
resume-pure_state b (ok a) s = refl
resume-pure_state b (err e) s = refl

-- The command of a field returns, and leaves the configuration file alone.
pub record IsHarmless (W : World) (conf : Conf) (m : ServiceManager) (view : W.State → View)
    (command : Option Text) : Type 0 where
  pub returns : (s : W.State) → Returns (run_field W conf m command s).0
  pub keeps : (s : W.State) → view (run_field W conf m command s).1 ≡ view s

module _ (W : World) (conf : Conf) (m : ServiceManager) (view : W.State → View)
    (plain : m.kind ≡ service_manager) where
  run_if_unmask_lem :
      (command : Option Text)
      → IsHarmless W conf m view command
      → (s : W.State)
      → Returns (run_if_unmask W conf m command s).0
        × (view (run_if_unmask W conf m command s).1 ≡ view s)
  run_if_unmask_lem command h s = elim (Bool-cases (is_set m.unmask_command)) [
    | inl set ↦ rw set (h.returns s, h.keeps s)
    | inr unset ↦ rw unset (([], refl), refl)
  ]

  plain_stop :
      (s : W.State)
      → IsHarmless W conf m view m.stop_command
      → IsHarmless W conf m view m.mask_command
      → ((stop W conf m s).0 ≡ ok none) × (view (stop W conf m s).1 ≡ view s)
  unfolding stop
  plain_stop s b c =
      let s1 = (run_field W conf m m.stop_command s).1 in
      let (out, e) = b.returns s in
      let ((out', e'), k) = run_if_unmask_lem m.mask_command c s1 in
      rw (plain, stop_as, e, e', k, b.keeps s) (refl, refl)

  plain_start :
      (s : W.State)
      → IsHarmless W conf m view m.start_command
      → IsHarmless W conf m view m.unmask_command
      → ((start W conf m s).0 ≡ ok none) × (view (start W conf m s).1 ≡ view s)
  unfolding start
  plain_start s a d =
      let s1 = (run_if_unmask W conf m m.unmask_command s).1 in
      let ((out, e), k) = run_if_unmask_lem m.unmask_command d s in
      let (out', e') = a.returns s1 in rw (plain, start_as, e, e', a.keeps s1, k) (refl, refl)

  -- The stop of a plain manager without an unmask command runs the stop command alone, and never the
  -- mask command.
  pub stop-never_masks :
      (s : W.State) (out : Text)
      → is_set m.unmask_command ≡ false
      → (run_field W conf m m.stop_command s).0 ≡ ok out
      → stop W conf m s ≡ (ok none, (run_field W conf m m.stop_command s).1)
  unfolding stop
  stop-never_masks s out unset e = rw (plain, stop_as, e, unset) refl

  -- The stop of a plain manager with an unmask command and no mask command runs the command None
  -- behind the stop command.
  pub stop-runs_none :
      (s : W.State) (out : Text)
      → is_set m.unmask_command ≡ true
      → m.mask_command ≡ none
      → (run_field W conf m m.stop_command s).0 ≡ ok out
      → (stop W conf m s).1
        ≡ (run W conf m (codes "None") (run_field W conf m m.stop_command s).1).1
  unfolding stop
  stop-runs_none s out set unmasked e =
      let s1 = (run_field W conf m m.stop_command s).1 in
      rw (plain, stop_as, e, set, unmasked)
        (resume-pure_state none (run W conf m (codes "None") s1).0
          (run W conf m (codes "None") s1).1)

  -- The restart of a plain service manager returns and keeps the configuration file, if its four
  -- commands do.
  pub restart-KeepsFile :
      IsHarmless W conf m view m.start_command
      → IsHarmless W conf m view m.stop_command
      → IsHarmless W conf m view m.mask_command
      → IsHarmless W conf m view m.unmask_command
      → KeepsFile W conf m view
  unfolding restart
  restart-KeepsFile a b c d = record {
    restart_returns = λ s. rw ((plain_stop s b c).0, (plain_start (stop W conf m s).1 a d).0) refl;
    view-restart = λ s.
        rw ((plain_stop s b c).0, (plain_start (stop W conf m s).1 a d).0)
          ((plain_start (stop W conf m s).1 a d).1 ∙ (plain_stop s b c).1);
  }

module _ (W : World) (T : IsTimed W) (client : ServicesClient)
    (host binary field state : Text) where
  abbrev wait : Action W.State (Unit {0})
  wait = wait_for_nova_service_state W client host binary field state

  -- A command, then the wait, then the command's result.
  abbrev run_and_wait : Action W.State Text → Action W.State (Option Text)
  run_and_wait command = do result ← command; wait; pure (some result)

  wait_ok :
      (r : Result (Unit {0})) (s : W.State) (result : Text) (x : Option Text) (start_time : ℕ)
      → Ended W client host binary field state start_time r s
      → (resume {S = W.State} r (λ _. pure (some result)) s).0 ≡ ok x
      → (t : W.State) × (poll_status W host binary field t
          ≡ (ok state, (resume {S = W.State} r (λ _. pure (some result)) s).1))
  wait_ok (ok _) s result x start_time ended h = ended
  wait_ok (err e) s result x start_time ended h = cc

  command_ok :
      0 < client.build_interval
      → (r : Result Text) (s : W.State) (x : Option Text)
      → let after = resume r (λ result. wait >> pure (some result)) s in
        after.0 ≡ ok x → (t : W.State) × (poll_status W host binary field t ≡ (ok state, after.1))
  command_ok i (ok result) s x h =
      wait_ok (wait s).0 (wait s).1 result x (W.clock s)
        (wait_for_nova_service_state-Ended W T client host binary field state s i) h
  command_ok i (err e) s x h = cc

module _ (W : World) (T : IsTimed W) (conf : Conf) (m : ServiceManager) (host : Text)
    (client : ServicesClient) (i : 0 < client.build_interval) where
  -- If the start of a Nova service returns, the services API has just reported the service up; the
  -- interval of the polls is not zero.
  pub nova_start :
      (s : W.State) (x : Option Text)
      → m.kind ≡ nova_service_manager host client
      → (start W conf m s).0 ≡ ok x
      → (t : W.State) × (poll_status W host m.service (codes "state") t
          ≡ (ok (codes "up"), (start W conf m s).1))
  unfolding start
  nova_start s x k h =
      let ran = run_field W conf m m.start_command s in
      rw k (
        command_ok W T client host m.service (codes "state") (codes "up") i ran.0 ran.1 x
          (rw k at h))

  -- If the stop of a Nova service returns, the services API has just reported the service down.
  pub nova_stop :
      (s : W.State) (x : Option Text)
      → m.kind ≡ nova_service_manager host client
      → (stop W conf m s).0 ≡ ok x
      → (t : W.State) × (poll_status W host m.service (codes "state") t
          ≡ (ok (codes "down"), (stop W conf m s).1))
  unfolding stop
  nova_stop s x k h =
      let ran = run_field W conf m m.stop_command s in
      rw k (
        command_ok W T client host m.service (codes "state") (codes "down") i ran.0 ran.1 x
          (rw k at h))

  stop_command_ran :
      (s : W.State) (x : Option Text)
      → m.kind ≡ nova_service_manager host client
      → (stop W conf m s).0 ≡ ok x
      → (out : Text) × ((run_field W conf m m.stop_command s).0 ≡ ok out)
  unfolding stop
  stop_command_ran s x k h =
      let (out, e, rest) =
        resume_returned (run_field W conf m m.stop_command s).0 _ _ (rw (k, stop_as) at h) in
      (out, e)

  start_command_ran :
      (s : W.State) (x : Option Text)
      → m.kind ≡ nova_service_manager host client
      → (start W conf m s).0 ≡ ok x
      → (out : Text) × ((run_field W conf m m.start_command s).0 ≡ ok out)
  unfolding start
  start_command_ran s x k h =
      let (out, e, rest) =
        resume_returned (run_field W conf m m.start_command s).0 _ _ (rw (k, start_as) at h) in
      (out, e)

  -- A restart of a Nova service that returns has run the stop command, then found the service reported
  -- down, then run the start command, and then found it reported up, in this order; the interval of
  -- the polls is not zero.
  pub nova_restart :
      (s : W.State)
      → m.kind ≡ nova_service_manager host client
      → (restart W conf m s).0 ≡ ok tt
      → (stopped : Text) × (started : Text) × (t : W.State) × (u : W.State) × (v : W.State)
        × ((run_field W conf m m.stop_command s).0 ≡ ok stopped)
        × (poll_status W host m.service (codes "state") t ≡ (ok (codes "down"), u))
        × ((run_field W conf m m.start_command u).0 ≡ ok started)
        × (poll_status W host m.service (codes "state") v
            ≡ (ok (codes "up"), (restart W conf m s).1))
  unfolding restart
  nova_restart s k h =
      let (x, e, h') =
        returned_through (stop W conf m s).0 _ (stop W conf m s).1 _ _ (pair_eq h refl) in
      let u = (stop W conf m s).1 in
      let (y, f, h'') = returned_through (start W conf m u).0 _ (start W conf m u).1 _ _ h' in
      let (t, down) = nova_stop s x k e in
      let (v, up) = nova_start u y k f in
      let final : (start W conf m u).1 ≡ (restart W conf m s).1 = ap (λ p. p.1) h'' in
      let (stopped, ran) = stop_command_ran s x k e in
      let (started, ran') = start_command_ran u y k f in
      (stopped, started, t, u, v, ran, down, ran', up ∙ ap (λ w. (ok (codes "up"), w)) final)

  -- If the start of libvirt's daemon returns, the services API has just reported nova-compute
  -- enabled on the host.
  pub virt_qemud_start :
      (s : W.State) (x : Option Text)
      → m.kind ≡ virt_qemud_manager host client
      → (start W conf m s).0 ≡ ok x
      → (t : W.State) × (poll_status W host (codes "nova-compute") (codes "status") t
          ≡ (ok (codes "enabled"), (start W conf m s).1))
  unfolding start
  virt_qemud_start s x k h =
      let ran = run_field W conf m m.start_command s in
      rw k (
        command_ok W T client host (codes "nova-compute") (codes "status") (codes "enabled") i ran.0
          ran.1 x (rw k at h))

  -- If the stop of libvirt's daemon returns, the services API has just reported nova-compute
  -- disabled on the host.
  pub virt_qemud_stop :
      (s : W.State) (x : Option Text)
      → m.kind ≡ virt_qemud_manager host client
      → (stop W conf m s).0 ≡ ok x
      → (t : W.State) × (poll_status W host (codes "nova-compute") (codes "status") t
          ≡ (ok (codes "disabled"), (stop W conf m s).1))
  unfolding stop
  virt_qemud_stop s x k h =
      let ran = run_field W conf m m.stop_command s in
      rw k (
        command_ok W T client host (codes "nova-compute") (codes "status") (codes "disabled") i
          ran.0 ran.1 x (rw k at h))
