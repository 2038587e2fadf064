-- ===== src/Waiters/Service.antt =====
-- How `wait_for_nova_service_state` ends.
use whitebox_tempest_plugin.Prelude.{
  ℕ, zero, suc, ◌+◌, ◌-◌, ◌≤◌, ◌<◌, ◌≡◌, ◌≢◌, refl, ◌∙◌, ap, List, arith, leb, Bool-cases, inl, inr,
}
use whitebox_tempest_plugin.Exceptions.{Error, Result, ok, err, timeout_exception, no_fuel}
use whitebox_tempest_plugin.Exceptions.Action.{Action, resume, from_result}
use whitebox_tempest_plugin.Python.Dict.{Dict}
use whitebox_tempest_plugin.Python.Text.{Text, text_eq}
use whitebox_tempest_plugin.Python.Text.Laws.{text_eq→≡}
use whitebox_tempest_plugin.World.{World}
use whitebox_tempest_plugin.Waiters.{
  ServicesClient, poll_status, first_status, service_loop, wait_for_nova_service_state,
}

-- What the waiters rely on: a sleep lasts as long as it is told to, a call of the services API
-- does not turn the clock back, and it raises no exception of the waiters' own.
pub record IsTimed (W : World) : Type 0 where
  pub clock-sleep : (n : ℕ) (s : W.State) → W.clock s + n ≤ W.clock (W.sleep n s)
  pub clock-list_services :
      (host binary : Text) (s : W.State) → W.clock s ≤ W.clock (W.list_services host binary s).1
  pub list_services-ne-timeout :
      (host binary : Text) (s : W.State) → (W.list_services host binary s).0 ≢ err timeout_exception
  pub list_services-ne-no_fuel :
      (host binary : Text) (s : W.State) → (W.list_services host binary s).0 ≢ err no_fuel

module _ (W : World) (client : ServicesClient) (host binary status_field state : Text) where
  -- How a wait that began at a time can end: a poll has just reported the state; or the time is
  -- over; or the API has raised. The fuel does not run out.
  abbrev pub Ended : ℕ → Result (Unit {0}) → W.State → Type 0
  Ended start_time (ok _) s =
      (t : W.State) × (poll_status W host binary status_field t ≡ (ok state, s))
  Ended start_time (err timeout_exception) s = start_time + client.build_timeout ≤ W.clock s
  Ended start_time (err no_fuel) s = ⊥
  Ended start_time (err e) s =
      (t : W.State) × (poll_status W host binary status_field t ≡ (err e, s))

module _ (W : World) (T : IsTimed W) (client : ServicesClient)
    (host binary status_field state : Text) where
  abbrev poll : Action W.State Text
  poll = poll_status W host binary status_field

  abbrev EndedBy : ℕ → Result (Unit {0}) × W.State → Type 0
  EndedBy start_time r = Ended W client host binary status_field state start_time r.0 r.1

  abbrev loop : ℕ → ℕ → Text → Action W.State Unit
  loop = service_loop W client host binary status_field state

  -- An exception of a poll is none of the waiter's own.
  poll_raises :
      (start_time : ℕ) (s : W.State) (e : Error) (t : W.State)
      → poll s ≡ (err e, t)
      → EndedBy start_time (err e, t)
  unfolding poll_status
  poll_raises start_time s timeout_exception t h =
      absurd (ground (arith, T.list_services-ne-timeout host binary s, ap (λ p. p.0) h))
  poll_raises start_time s no_fuel t h =
      absurd (ground (arith, T.list_services-ne-no_fuel host binary s, ap (λ p. p.0) h))
  poll_raises start_time s _ t h = (s, h)

  resume-state :
      (r : Result (List (Dict Text Text))) (s : W.State)
      → (resume r (λ services. from_result (first_status status_field services)) s).1 ≡ s
  resume-state (ok services) s = refl
  resume-state (err e) s = refl

  clock-poll_status : (s : W.State) → W.clock s ≤ W.clock (poll s).1
  unfolding poll_status
  clock-poll_status s = rw resume-state (T.clock-list_services host binary s)

  clock_after : (s t : W.State) {r : Result Text} → poll s ≡ (r, t) → W.clock s ≤ W.clock t
  clock_after s t e = let e' : (poll s).1 ≡ t = ap (λ p. p.1) e in rw e' at (clock-poll_status s)

  after_poll :
      (start_time fuel : ℕ) (slept : W.State)
      → ((status : Text) (s : W.State)
          → poll slept ≡ (ok status, s)
          → EndedBy start_time (loop fuel start_time status s))
      → (r : Result Text) (s : W.State) → poll slept ≡ (r, s)
      → EndedBy start_time (resume r (loop fuel start_time) s)
  after_poll start_time fuel slept ih (ok status) s e = ih status s e
  after_poll start_time fuel slept ih (err x) s e = poll_raises start_time slept x s e

  -- The loop, from a time `before` that the clock has passed: a round ends it, or takes a second.
  service_loop-Ended :
      (fuel start_time before : ℕ) (status : Text) (t s : W.State)
      → 0 < client.build_interval
      → poll t ≡ (ok status, s)
      → start_time ≤ before
      → before ≤ start_time + client.build_timeout
      → before ≤ W.clock s
      → start_time + client.build_timeout < before + fuel
      → EndedBy start_time (loop fuel start_time status s)
  unfolding service_loop
  service_loop-Ended zero start_time before status t s i e a b c d = absurd (omega arith)
  service_loop-Ended (suc fuel) start_time before status t s i e a b c d =
      let slept = W.sleep client.build_interval s in
      let later : W.clock s + client.build_interval ≤ W.clock slept = T.clock-sleep _ s in
      elim (Bool-cases (text_eq status state)) [
        | inl reached ↦ rw reached (t, e ∙ ap (λ x. (ok x, s)) (text_eq→≡ status state reached))
        | inr other ↦ elim (Bool-cases (leb client.build_timeout (W.clock slept - start_time))) [
          | inl over ↦ rw (other, over) (ground arith)
          | inr early ↦
              rw (other, early)
                (after_poll start_time fuel slept
                  (λ status' s' e'.
                    service_loop-Ended fuel start_time (W.clock slept) status' slept s' i e'
                      (omega arith) (ground arith) (clock_after slept s' e') (omega arith))
                  (poll slept).0 (poll slept).1 refl)
        ]
      ]

  -- If the interval is not zero, a wait ends: with a poll that has just reported the state, with a
  -- TimeoutException once the timeout is over, or with the exception of a poll, which is one of the
  -- services API or the IndexError of an empty list of services.
  pub wait_for_nova_service_state-Ended :
      (s : W.State)
      → 0 < client.build_interval
      → EndedBy (W.clock s) (wait_for_nova_service_state W client host binary status_field state s)
  unfolding wait_for_nova_service_state
  wait_for_nova_service_state-Ended s i =
      after_poll (W.clock s) (suc client.build_timeout) s
        (λ status s' e.
          service_loop-Ended (suc client.build_timeout) (W.clock s) (W.clock s) status s s' i e
            (omega arith) (omega arith) (clock_after s s' e) (omega arith))
        (poll s).0 (poll s).1 refl
