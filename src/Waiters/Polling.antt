-- ===== src/Waiters/Polling.antt =====
-- How the waits for a migration and for a trait end.
use whitebox_tempest_plugin.Prelude.{
  ℕ, zero, suc, ◌+◌, ◌-◌, ◌≤◌, ◌<◌, ◌≡◌, ◌≢◌, refl, ap, true, List, [], ◌∷◌, Option, none, some,
  arith, leb, if◌then◌else◌, Bool-cases, inl, inr,
}
use whitebox_tempest_plugin.Config.{Conf}
use whitebox_tempest_plugin.Exceptions.{Error, Result, ok, err, timeout_exception, no_fuel}
use whitebox_tempest_plugin.Exceptions.Action.{Action, ◌>>=◌, resume, from_result}
use whitebox_tempest_plugin.Python.Equality.{text_instance}
use whitebox_tempest_plugin.Python.Set.{contains}
use whitebox_tempest_plugin.Python.Text.{Text}
use whitebox_tempest_plugin.World.{World}
use whitebox_tempest_plugin.Waiters.{
  ServicesClient, settle, poll_loop, poll_until, migration_outcome, migration_check, trait_check,
  wait_for_server_migration_complete, wait_for_trait_add_in_rp,
}

-- An action that does not turn the clock back, and raises no exception of the waiters' own.
pub record IsQuery {A : Type 0} (W : World) (check : Action W.State A) : Type 0 where
  pub clock_mono : (s : W.State) → W.clock s ≤ W.clock (check s).1
  pub ne-timeout : (s : W.State) → (check s).0 ≢ err timeout_exception
  pub ne-no_fuel : (s : W.State) → (check s).0 ≢ err no_fuel

abbrev pub SleepAdvances : World → Type 0
SleepAdvances W = (n : ℕ) (s : W.State) → W.clock s + n ≤ W.clock (W.sleep n s)

module _ {A : Type 0} (W : World) (timeout : ℕ) (check : Action W.State (Option A)) where
  -- How a wait that began at a time can end: a check has just found the value or raised the
  -- exception; or the time is over. The fuel does not run out.
  abbrev pub Ended : ℕ → Result A × W.State → Type 0
  Ended start_time (ok a, s) = (t : W.State) × (check t ≡ (ok (some a), s))
  Ended start_time (err timeout_exception, s) = start_time + timeout < W.clock s
  Ended start_time (err no_fuel, s) = ⊥
  Ended start_time (err e, s) = (t : W.State) × (check t ≡ (err e, s))

module _ {A : Type 0} (W : World) (timeout : ℕ) (check : Action W.State (Option A))
    (Q : IsQuery W check) where
  check_raises :
      (start_time : ℕ) (s : W.State) (e : Error) (t : W.State)
      → check s ≡ (err e, t)
      → Ended W timeout check start_time (err e, t)
  check_raises start_time s timeout_exception t h = absurd (Q.ne-timeout s (ap (λ p. p.0) h))
  check_raises start_time s no_fuel t h = absurd (Q.ne-no_fuel s (ap (λ p. p.0) h))
  check_raises start_time s _ t h = (s, h)

  pub after_check :
      (start_time : ℕ) (s : W.State) (again : Result A × W.State)
      → Ended W timeout check start_time again
      → (r : Result (Option A)) (t : W.State) → check s ≡ (r, t)
      → Ended W timeout check start_time (settle r t again)
  after_check start_time s again h (err e) t c = check_raises start_time s e t c
  after_check start_time s again h (ok none) t c = h
  after_check start_time s again h (ok (some a)) t c = (s, c)

module _ {A : Type 0} (W : World) (sleeps : SleepAdvances W) (timeout interval : ℕ)
    (check : Action W.State (Option A)) (Q : IsQuery W check) where
  -- The loop, from a time `before` that the clock has passed: a round ends it, or takes a second.
  poll_loop-Ended :
      (fuel start_time before : ℕ) (s : W.State)
      → 0 < interval
      → start_time ≤ before
      → before ≤ start_time + timeout + 1
      → before ≤ W.clock s
      → start_time + timeout + 1 < before + fuel
      → Ended W timeout check start_time (poll_loop W timeout interval check fuel start_time s)
  unfolding poll_loop
  poll_loop-Ended zero start_time before s i a b c d = absurd (omega arith)
  poll_loop-Ended (suc fuel) start_time before s i a b c d =
      let next = W.sleep interval (check s).1 in
      let later : W.clock s + interval ≤ W.clock next =
        omega (arith, sleeps interval (check s).1, Q.clock_mono s) in
      elim (Bool-cases (leb (W.clock s - start_time) timeout)) [
        | inl early ↦ rw early (
            after_check W timeout check Q start_time s _
              (poll_loop-Ended fuel start_time (W.clock s + 1) next i (omega arith) (ground arith)
                (omega arith) (omega arith))
              (check s).0 (check s).1 refl)
        | inr over ↦ rw over (ground arith)
      ]

  poll_until-Ended :
      (s : W.State)
      → 0 < interval
      → Ended W timeout check (W.clock s) (poll_until W timeout interval check s)
  unfolding poll_until
  poll_until-Ended s i =
      poll_loop-Ended (suc (suc timeout)) (W.clock s) (W.clock s) s i (omega arith) (omega arith)
        (omega arith) (omega arith)

-- A query with a pure step behind it, which raises no exception of the waiters' own.
module _ {A B : Type 0} (W : World) (query : Action W.State A) (Q : IsQuery W query)
    (f : A → Result B) (f_ne-timeout : (a : A) → f a ≢ err timeout_exception)
    (f_ne-no_fuel : (a : A) → f a ≢ err no_fuel) where
  step_state : (r : Result A) (s : W.State) → (resume r (λ a. from_result (f a)) s).1 ≡ s
  step_state (ok a) s = refl
  step_state (err e) s = refl

  step_ne :
      (e : Error)
      → ((a : A) → f a ≢ err e)
      → (r : Result A) (s : W.State) → r ≢ err e
      → (resume r (λ a. from_result (f a)) s).0 ≢ err e
  step_ne e h (ok a) s n = h a
  step_ne e h (err x) s n = λ p. n (cc)

  step-IsQuery : IsQuery W (query >>= λ a. from_result (f a))
  step-IsQuery = record {
    clock_mono = λ s. rw step_state (Q.clock_mono s);
    ne-timeout =
        λ s. step_ne timeout_exception f_ne-timeout (query s).0 (query s).1 (Q.ne-timeout s);
    ne-no_fuel = λ s. step_ne no_fuel f_ne-no_fuel (query s).0 (query s).1 (Q.ne-no_fuel s);
  }

migration_outcome-ne-timeout : (l : List Text) → migration_outcome l ≢ err timeout_exception
unfolding migration_outcome
migration_outcome-ne-timeout [] h = cc
migration_outcome-ne-timeout (x ∷ l) h = ground arith

migration_outcome-ne-no_fuel : (l : List Text) → migration_outcome l ≢ err no_fuel
unfolding migration_outcome
migration_outcome-ne-no_fuel [] h = cc
migration_outcome-ne-no_fuel (x ∷ l) h = ground arith

module _ (W : World) (sleeps : SleepAdvances W) where
  -- The wait for a migration ends: with the last migration found done, with a TimeoutException
  -- after the timeout is over, or with the exception of a check, such as that of a failed migration
  -- or of an empty list.
  pub wait_for_server_migration_complete-Ended :
      (Q : IsQuery W W.list_migrations) (client : ServicesClient) (s : W.State)
      → Ended W client.build_timeout
          (migration_check W)
          (W.clock s)
          (wait_for_server_migration_complete W client s)
  unfolding wait_for_server_migration_complete migration_check
  wait_for_server_migration_complete-Ended Q client s =
      poll_until-Ended W sleeps client.build_timeout (client.build_interval + 1) (migration_check W)
        (step-IsQuery W W.list_migrations Q migration_outcome migration_outcome-ne-timeout
          migration_outcome-ne-no_fuel)
        s (omega arith)

  -- The wait for a trait ends, if the interval is not zero: with the trait found among the provider's,
  -- with a TimeoutException after the timeout is over, or with an exception of the placement API.
  pub wait_for_trait_add_in_rp-Ended :
      (trait provider : Text) (Q : IsQuery W (W.list_resource_provider_traits provider))
      (conf : Conf) (s : W.State)
      → 0 < conf.compute.build_interval
      → Ended W conf.compute.build_timeout
          (trait_check W trait provider)
          (W.clock s)
          (wait_for_trait_add_in_rp W conf trait provider s)
  unfolding wait_for_trait_add_in_rp trait_check
  wait_for_trait_add_in_rp-Ended trait provider Q conf s i =
      poll_until-Ended W sleeps conf.compute.build_timeout conf.compute.build_interval
        (trait_check W trait provider)
        (step-IsQuery W (W.list_resource_provider_traits provider) Q
          (λ traits. ok (if contains traits trait then some true else none)) (λ a h. cc)
          (λ a h. cc))
        s i
