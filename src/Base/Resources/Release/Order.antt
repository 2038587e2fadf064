-- ===== src/Base/Resources/Release/Order.antt =====
-- The clean-ups run in the reverse of the order of creation, so each finds its resource the newest.
use whitebox_tempest_plugin.Prelude.{◌≡◌, refl, ap, ◌∙◌, true, List, [], ◌∷◌, arith}
use whitebox_tempest_plugin.Python.Text.{Text}
use whitebox_tempest_plugin.Python.Text.Laws.{text_eq_refl}
use whitebox_tempest_plugin.Base.Api.{Api, VolumeType, Volume}
use whitebox_tempest_plugin.Base.Resources.{
  Cleanup, admin_delete_server, delete_keypair, delete_image, delete_network, delete_subnet,
  delete_port, cleanup_volume_type, of_type, delete_volumes, delete_type_with_volumes, run_cleanup,
}
use whitebox_tempest_plugin.Base.Resources.Release.{
  Resource, volume_type, volume, resource_of, is_plain, volumes_in, is_unused, Owns, nothing, plain,
  a_type, type_and_volume, IsApi, run_all,
}

of_type_unused :
    (name : Text) (volumes : List Volume)
    → is_unused name volumes ≡ true
    → of_type name volumes ≡ []
of_type_unused name [] h = refl
of_type_unused name (v ∷ volumes) h = ground (arith, of_type_unused name volumes)

module _ {S : Type 0} (api : Api S) (held : S → List Resource) (I : IsApi api held) where
  run_cleanup_lem :
      (c : Cleanup) (s : S) (rest : List Resource)
      → is_plain c ≡ true
      → held s ≡ resource_of c ∷ rest
      → held (run_cleanup api c s).1 ≡ rest
  unfolding run_cleanup
  run_cleanup_lem (admin_delete_server id) s rest p h =
      let (e, going) = I.delete_server_lem id s rest h in
      rw e (I.wait_for_server_termination_lem id (api.delete_server id s).1 rest going)
  run_cleanup_lem (delete_keypair name) s rest p h = (I.delete_keypair_lem name s rest h).1
  run_cleanup_lem (delete_image id) s rest p h = (I.delete_image_lem id s rest h).1
  run_cleanup_lem (delete_network id) s rest p h = (I.delete_network_lem id s rest h).1
  run_cleanup_lem (delete_subnet id) s rest p h = (I.delete_subnet_lem id s rest h).1
  run_cleanup_lem (delete_port id) s rest p h = (I.delete_port_lem id s rest h).1
  run_cleanup_lem (cleanup_volume_type t) s rest p h = cc

  -- The clean-up of a type that no volume is of.
  type_alone :
      (t : VolumeType) (s : S) (rest : List Resource)
      → is_unused t.name (volumes_in rest) ≡ true
      → held s ≡ volume_type t ∷ rest
      → held (run_cleanup api (cleanup_volume_type t) s).1 ≡ rest
  unfolding run_cleanup delete_type_with_volumes delete_volumes
  type_alone t s rest u h =
      let listed : volumes_in (held s) ≡ volumes_in rest = ap volumes_in h in
      let s1 = (api.list_volumes s).1 in
      rw (I.list_volumes_lem s, listed, of_type_unused t.name (volumes_in rest) u)
        (I.delete_volume_type_lem t s1 rest u (I.held-list_volumes s ∙ h))

  -- The clean-up of a type that one volume is of, the newest.
  type_with_volume :
      (t : VolumeType) (id : Text) (s : S) (rest : List Resource)
      → is_unused t.name (volumes_in rest) ≡ true
      → held s ≡ volume (record { id = id; volume_type = t.name }) ∷ volume_type t ∷ rest
      → held (run_cleanup api (cleanup_volume_type t) s).1 ≡ rest
  unfolding run_cleanup delete_type_with_volumes delete_volumes
  type_with_volume t id s rest u h =
      let v : Volume = record { id = id; volume_type = t.name } in
      let listed : volumes_in (held s) ≡ v ∷ volumes_in rest = ap volumes_in h in
      let s1 = (api.list_volumes s).1 in
      let s2 = (api.delete_volume id s1).1 in
      let s3 = (api.wait_for_resource_deletion id s2).1 in
      let (e, going) =
        I.delete_volume_lem v s1 (volume_type t ∷ rest) (I.held-list_volumes s ∙ h) in
      let (waited, k) = I.wait_for_resource_deletion_lem v s2 (volume_type t ∷ rest) going in
      rw
        (
          I.list_volumes_lem s,
          listed,
          text_eq_refl t.name,
          of_type_unused t.name (volumes_in rest) u,
          e,
          waited,
        )
        (I.delete_volume_type_lem t s3 rest u k)

  -- Running the clean-ups leaves what was there before them.
  pub run_all_lem :
      {base now : List Resource} {cleanups : List Cleanup}
      → Owns base cleanups now
      → (s : S) → held s ≡ now
      → held (run_all api cleanups s) ≡ base
  run_all_lem nothing s h = h
  run_all_lem (plain {held = rest} c p o) s h = run_all_lem o _ (run_cleanup_lem c s rest p h)
  run_all_lem (a_type {held = rest} t u o) s h = run_all_lem o _ (type_alone t s rest u h)
  run_all_lem (type_and_volume {held = rest} t id u o) s h =
      run_all_lem o _ (type_with_volume t id s rest u h)
