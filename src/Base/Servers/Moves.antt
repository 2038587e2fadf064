-- ===== src/Base/Servers/Moves.antt =====
-- A live migration that returns has moved the server.
use whitebox_tempest_plugin.Prelude.{
  ◌≡◌, ◌≢◌, refl, pair_eq, ap, sym, ◌∙◌, not, Bool, true, false, [], ◌∷◌, Option, none, some, arith,
}
use whitebox_tempest_plugin.Exceptions.{ok}
use whitebox_tempest_plugin.Exceptions.Action.{returned_through, assert_that}
use whitebox_tempest_plugin.Python.Text.{Text, text_eq}
use whitebox_tempest_plugin.Python.Text.Laws.{text_eq→≡, text_eq_refl}
use whitebox_tempest_plugin.Base.Api.{Api}
use whitebox_tempest_plugin.Base.Servers.{has_landed, live_migrate}

-- The host that a server is on behind a migration from a host, with a target or without.
abbrev pub Landed : Option Text → Text → Text → Type 0
Landed (some (c ∷ target_host)) orig_host host = host ≡ c ∷ target_host
Landed _ orig_host host = host ≢ orig_host

true_ne : {b : Bool} → b ≡ true → not b ≡ true → ⊥
true_ne h k = ground (arith, h, k)

differs : (orig_host host : Text) → not (text_eq orig_host host) ≡ true → host ≢ orig_host
differs orig_host host h e =
    true_ne (text_eq_refl orig_host) (ap (λ x. not (text_eq orig_host x)) (sym e) ∙ h)

has_landed-Landed :
    (target : Option Text) (orig_host host : Text)
    → has_landed target orig_host host ≡ true
    → Landed target orig_host host
has_landed-Landed (some (c ∷ target)) orig_host host h = sym (text_eq→≡ (c ∷ target) host h)
has_landed-Landed (some []) orig_host host h = λ e. differs orig_host host h e
has_landed-Landed none orig_host host h = λ e. differs orig_host host h e

asserted : {S : Type 0} (b : Bool) (s t : S) → assert_that b s ≡ (ok tt, t) → (b ≡ true) × (s ≡ t)
asserted true s t h = (refl, ap (λ p. p.1) h)
asserted false s t h = cc

-- A live migration that returns has moved the server, by what the API last says: to the target,
-- where one is given and not empty, and otherwise to a host that is not the one it began on.
pub live_migrate-Landed :
    {S : Type 0} (api : Api S) (server_id state : Text) (target : Option Text) (s t : S)
    → live_migrate api server_id state target s ≡ (ok tt, t)
    → (orig_host : Text) × (host : Text) × (u : S) × ((api.get_host_for_server server_id s).0
        ≡ ok orig_host)
      × (api.get_host_for_server server_id u ≡ (ok host, t))
      × Landed target orig_host host
unfolding live_migrate
live_migrate-Landed api server_id state target s t h =
    let (orig_host, e0, h0) = returned_through (api.get_host_for_server server_id s).0 _ _ _ _ h in
    let s1 = (api.get_host_for_server server_id s).1 in
    let (a1, e1, h1) =
      returned_through (api.live_migrate_server server_id target s1).0 _ _ _ _ h0 in
    let s2 = (api.live_migrate_server server_id target s1).1 in
    let (a2, e2, h2) =
      returned_through (api.wait_for_server_status server_id state s2).0 _ _ _ _ h1 in
    let u = (api.wait_for_server_status server_id state s2).1 in
    let (host, e3, h3) = returned_through (api.get_host_for_server server_id u).0 _ _ _ _ h2 in
    let (landed, same) = asserted _ _ _ h3 in
    (orig_host, host, u, e0, pair_eq e3 same, has_landed-Landed target orig_host host landed)
