-- ===== src/Waiters.antt =====
-- whitebox_tempest_plugin/common/waiters.py: loops that poll until a condition holds or the time is
-- over. Each loop has fuel for one round per second of its timeout, which `Waiters.Service` and
-- `Waiters.Polling` show to be enough.
pub mod Service
pub mod Polling
use whitebox_tempest_plugin.Prelude.{
  ℕ, zero, suc, ◌+◌, ◌-◌, Bool, true, List, [], ◌∷◌, Option, none, some, leb, ltb, ◌||◌,
  if◌then◌else◌,
}
use whitebox_tempest_plugin.Config.{Conf}
use whitebox_tempest_plugin.Exceptions.{
  Error, Result, ok, err, index_error, key_error, timeout_exception, migration_exception, no_fuel,
}
use whitebox_tempest_plugin.Exceptions.Action.{Action, from_result, pure, ◌>>=◌}
use whitebox_tempest_plugin.Python.Equality.{text_instance}
use whitebox_tempest_plugin.Python.Dict.{Dict, lookup}
use whitebox_tempest_plugin.Python.Set.{contains}
use whitebox_tempest_plugin.Python.Text.{Text, codes, text_eq}
use whitebox_tempest_plugin.World.{World}

-- The times of a client of Tempest.
pub record ServicesClient : Type 0 where
  pub build_timeout : ℕ
  pub build_interval : ℕ

-- `services[0][status_field]`
unfoldable pub first_status : Text → List (Dict Text Text) → Result Text
first_status status_field [] = err index_error
first_status status_field (service ∷ _) = elim (lookup status_field service) [
  | none ↦ err key_error
  | some value ↦ ok value
]

-- What a round of a wait does with the result of its check.
abbrev pub settle : {A S : Type 0} → Result (Option A) → S → Result A × S → Result A × S
settle (err e) s again = (err e, s)
settle (ok none) s again = again
settle (ok (some a)) s again = (ok a, s)

last_status : Text → List Text → Text
last_status status [] = status
last_status _ (status ∷ statuses) = last_status status statuses

-- The test of the last migration: done, failed, or still to wait for.
unfoldable pub migration_outcome : List Text → Result (Option (Unit {0}))
unfolding last_status
migration_outcome [] = err index_error
migration_outcome (first ∷ rest) =
    let status = last_status first rest in
    if contains (codes "done" ∷ codes "completed" ∷ []) status
    then ok (some tt)
    else if contains (codes "error" ∷ codes "failed" ∷ []) status
    then err migration_exception
    else ok none

module _ (W : World) where
  -- `int(time.time()) - start_time >= timeout`
  abbrev pub timed_out : ℕ → ℕ → W.State → Bool
  timed_out start_time timeout s = leb timeout (W.clock s - start_time)

  -- The status of the first service that the API lists.
  unfoldable pub poll_status : Text → Text → Text → Action W.State Text
  unfolding first_status
  poll_status host binary status_field = do
    services ← W.list_services host binary
    from_result (first_status status_field services)

  module _ (client : ServicesClient) (host binary status_field state : Text) where
    unfoldable pub service_loop : ℕ → ℕ → Text → Action W.State Unit
    service_loop zero start_time status s = (err no_fuel, s)
    service_loop (suc fuel) start_time status s =
        let slept = W.sleep client.build_interval s in
        let again = (poll_status host binary status_field >>= service_loop fuel start_time) slept in
        if text_eq status state
        then (ok tt, s)
        else if timed_out start_time client.build_timeout slept
        then (err timeout_exception, slept)
        else again

    unfoldable pub wait_for_nova_service_state : Action W.State Unit
    unfolding service_loop
    wait_for_nova_service_state s =
        (poll_status host binary status_field
            >>= service_loop (suc client.build_timeout) (W.clock s))
          s

  module _ {A : Type 0} (timeout interval : ℕ) (check : Action W.State (Option A)) where
    -- `while int(time.time()) - start_time <= timeout`, with a check that returns or goes on, a
    -- sleep, and a TimeoutException behind the loop.
    unfoldable pub poll_loop : ℕ → ℕ → Action W.State A
    poll_loop zero start_time s = (err no_fuel, s)
    poll_loop (suc fuel) start_time s =
        let again = poll_loop fuel start_time (W.sleep interval (check s).1) in
        if leb (W.clock s - start_time) timeout
        then settle (check s).0 (check s).1 again
        else (err timeout_exception, s)

    unfoldable pub poll_until : Action W.State A
    unfolding poll_loop
    poll_until s = poll_loop (suc (suc timeout)) (W.clock s) s

  -- `migrations[-1]['status']`, and what it means for the wait.
  unfoldable pub migration_check : Action W.State (Option Unit)
  unfolding migration_outcome
  migration_check = do statuses ← W.list_migrations; from_result (migration_outcome statuses)

  unfoldable pub wait_for_server_migration_complete : ServicesClient → Action W.State Unit
  unfolding poll_until
  wait_for_server_migration_complete client =
      poll_until client.build_timeout (client.build_interval + 1) migration_check

  unfoldable pub trait_check : Text → Text → Action W.State (Option Bool)
  trait_check trait provider = do
    traits ← W.list_resource_provider_traits provider
    pure (if contains traits trait then some true else none)

  unfoldable pub wait_for_trait_add_in_rp : Conf → Text → Text → Action W.State Bool
  unfolding poll_until
  wait_for_trait_add_in_rp conf trait provider =
      poll_until conf.compute.build_timeout conf.compute.build_interval (trait_check trait provider)
