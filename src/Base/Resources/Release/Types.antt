-- ===== src/Base/Resources/Release/Types.antt =====
-- The volume types that the helpers of base.py create, and the volumes of those types.
use whitebox_tempest_plugin.Prelude.{
  sym, ◌≡◌, ◌≢◌, refl, ◌∙◌, true, List, [], ◌∷◌, ◌++◌, Option, none, some,
}
use whitebox_tempest_plugin.Exceptions.{Result, ok, err}
use whitebox_tempest_plugin.Exceptions.Action.{pure, from_result}
use whitebox_tempest_plugin.Python.Dict.{Dict}
use whitebox_tempest_plugin.Python.Text.{Text, codes}
use whitebox_tempest_plugin.Base.Api.{Api, VolumeType, TypeResponse, EncryptionArguments}
use whitebox_tempest_plugin.Base.Resources.{
  cleanup_volume_type, Case, on_cloud, add_cleanup, or_empty, with_backend, checked_id, with_id,
  name_or_random, create_volume_type, type_or_new, create_encryption_type, create_encrypted_volume,
}
use whitebox_tempest_plugin.Base.Resources.Release.{
  Resource, volume_type, type_of, volume, volumes_in, is_unused, type_and_volume, Made, IsApi,
}
use whitebox_tempest_plugin.Base.Resources.Release.Triples.{
  Covered, Pending, FreshType, Post, Triple, Safe, bind_triple, bind-Safe, call-Safe,
  FreshType-Covered,
}
use whitebox_tempest_plugin.Base.Resources.Release.Helpers.{name_or_random-Safe}

some_injective' : {a b : Text} → some a ≡ some b → a ≡ b
some_injective' h = cc

module _ {S : Type 0} (held : S → List Resource) (base : List Resource) where
  -- A volume type that was just made, still without its clean-up.
  abbrev PendingType : VolumeType → Case S → Type 0
  PendingType t c =
      (p : Pending held base (volume_type t) c) × (is_unused t.name (volumes_in p.others) ≡ true)
      × (t.id ≢ [])

  -- The same, before its id is looked at.
  abbrev PendingResponse : TypeResponse → Case S → Type 0
  PendingResponse r c =
      (p : Pending held base (volume_type (type_of r)) c) × (is_unused r.name (volumes_in p.others)
        ≡ true)
      × ((id : Text) × (r.id ≡ some id) × (id ≢ []))

  check_id :
      (o : Option Text) (name : Text)
      → Triple held base
          (PendingResponse (record { id = o; name = name }))
          (from_result (checked_id o name))
          PendingType
  check_id none name c (p, u, (id, e, n)) = cc
  check_id (some x) name c (p, u, (id, e, n)) = (p, u, λ z. n (some_injective' (sym e) ∙ z))

  abbrev NewType : VolumeType → Case S → Type 0
  NewType t c = FreshType held base t c × (t.id ≢ [])

  register_type :
      (t : VolumeType)
      → Triple held base (PendingType t) (add_cleanup (cleanup_volume_type t)) (λ u. NewType t)
  register_type t c (p, u, n) = (
    record {
      earlier = c.cleanups;
      others = p.others;
      covered = p.covered;
      registered = refl;
      newest = p.newest;
      unused = u;
    },
    n,
  )

  NewType-Covered : (t : VolumeType) (c : Case S) → NewType t c → Covered held base c
  NewType-Covered t c h = FreshType-Covered held base t c h.0

  kept_type :
      (t : VolumeType) (c : Case S) (s : S)
      → held s ≡ held c.cloud
      → NewType t c
      → NewType t (record c { cloud = s })
  kept_type t c s e (h, n) = (
    record {
      earlier = h.earlier;
      others = h.others;
      covered = h.covered;
      registered = h.registered;
      newest = e ∙ h.newest;
      unused = h.unused;
    },
    n,
  )

  Post-kept_type :
      {A : Type 0} (t : VolumeType) (c : Case S) (r : Result A) (s : S)
      → held s ≡ held c.cloud
      → NewType t c
      → Post held base (λ (a : A). NewType t) (r, record c { cloud = s })
  Post-kept_type t c (ok a) s e h = kept_type t c s e h
  Post-kept_type t c (err x) s e h =
      NewType-Covered t (record c { cloud = s }) (kept_type t c s e h)

  Post-type :
      (c : Case S) (r : Result TypeResponse) (s : S)
      → Made (λ t. volume_type (type_of t) ∷ held c.cloud) (held c.cloud) (held s) r
      → ((t : TypeResponse) → r ≡ ok t → is_unused t.name (volumes_in (held c.cloud)) ≡ true)
      → ((t : TypeResponse) → r ≡ ok t → (id : Text) × (t.id ≡ some id) × (id ≢ []))
      → Covered held base c
      → Post held base PendingResponse (r, record c { cloud = s })
  Post-type c (ok t) s m u n h =
      (record { others = held c.cloud; covered = h; newest = m }, u t refl, n t refl)
  Post-type c (err x) s m u n h = rw m h

  Post-volume :
      (t : VolumeType) (c : Case S) (r : Result Text) (s : S)
      → Made
          (λ id. volume (record { id = id; volume_type = t.name }) ∷ held c.cloud)
          (held c.cloud)
          (held s)
          r
      → NewType t c
      → Post held base (λ (id : Text). Covered held base) (r, record c { cloud = s })
  Post-volume t c (ok id) s m (h, n) =
      rw (m, h.newest, h.registered) (type_and_volume t id h.unused h.covered)
  Post-volume t c (err x) s m h = NewType-Covered t (record c { cloud = s }) (kept_type t c s m h)

module _ {S : Type 0} (api : Api S) (held : S → List Resource) (I : IsApi api held)
    (base : List Resource) (class_name : Text) where
  check_response :
      (r : TypeResponse)
      → Triple held base
          (PendingResponse held base r)
          (from_result (with_id r))
          (PendingType held base)
  unfolding with_id
  check_response r = check_id held base r.id r.name

  create_volume_type_triple :
      (name backend : Option Text) (specs kwargs : Dict Text Text)
      → Triple held base
          (Covered held base)
          (create_volume_type api class_name name backend specs kwargs)
          (NewType held base)
  unfolding create_volume_type
  create_volume_type_triple name backend specs kwargs =
      let prefix = class_name ++ codes "-volume-type" in
      let specs' = with_backend (or_empty backend) specs in
      bind_triple held base (Covered held base) (λ n. Covered held base) (NewType held base)
        (name_or_random (or_empty name) (api.rand_name none prefix)) _
        (name_or_random-Safe held base (or_empty name) _ (I.held-rand_name none prefix))
        λ name'.
          bind_triple held base (Covered held base) (λ n. Covered held base) (NewType held base)
            (on_cloud (api.rand_name none (codes "scenario-type-" ++ name'))) _
            (call-Safe held base _ (I.held-rand_name none (codes "scenario-type-" ++ name')))
            λ randomized.
              bind_triple held base (Covered held base) (PendingResponse held base)
                (NewType held base) (on_cloud (api.create_volume_type randomized specs' kwargs)) _
                (λ c h.
                  Post-type held base c (api.create_volume_type randomized specs' kwargs c.cloud).0
                    (api.create_volume_type randomized specs' kwargs c.cloud).1
                    (I.create_volume_type_lem randomized specs' kwargs c.cloud)
                    (I.created_is_unused randomized specs' kwargs c.cloud)
                    (I.created_id randomized specs' kwargs c.cloud) h)
                λ r.
                  bind_triple held base (PendingResponse held base r) (PendingType held base)
                    (NewType held base) (from_result (with_id r)) _ (check_response r)
                    λ t.
                      bind_triple held base (PendingType held base t) (λ u. NewType held base t)
                        (NewType held base) (add_cleanup (cleanup_volume_type t)) (λ u. pure t)
                        (register_type held base t) λ u c h. h

  Post-weaken :
      (r : Result VolumeType) (c : Case S)
      → Post held base (NewType held base) (r, c)
      → Post held base (λ (t : VolumeType). Covered held base) (r, c)
  Post-weaken (ok t) c h = NewType-Covered held base t c h
  Post-weaken (err e) c h = h

  pub create_volume_type-Safe :
      (name backend : Option Text) (specs kwargs : Dict Text Text)
      → Safe held base (create_volume_type api class_name name backend specs kwargs)
  create_volume_type-Safe name backend specs kwargs c h =
      Post-weaken (create_volume_type api class_name name backend specs kwargs c).0
        (create_volume_type api class_name name backend specs kwargs c).1
        (create_volume_type_triple name backend specs kwargs c h)

  type_or_new-Safe : (type_id : Text) → Safe held base (type_or_new api class_name type_id)
  unfolding type_or_new
  type_or_new-Safe [] =
      bind-Safe held base (create_volume_type api class_name none none [] []) _
        (create_volume_type-Safe none none [] []) λ t c h. h
  type_or_new-Safe (x ∷ type_id) = λ c h. h

  pub create_encryption_type-Safe :
      (type_id : Option Text) (arguments : EncryptionArguments)
      → Safe held base (create_encryption_type api class_name type_id arguments)
  unfolding create_encryption_type
  create_encryption_type-Safe type_id arguments =
      bind-Safe held base (type_or_new api class_name (or_empty type_id)) _
        (type_or_new-Safe (or_empty type_id))
        λ id.
          call-Safe held base (api.create_encryption_type id arguments)
            (I.held-create_encryption_type id arguments)

  -- An id that is given is used.
  given_type :
      (id : Text) (arguments : EncryptionArguments) (t : VolumeType) (c : Case S)
      → id ≢ []
      → NewType held base t c
      → Post held base
          (λ u. NewType held base t)
          (create_encryption_type api class_name (some id) arguments c)
  unfolding create_encryption_type type_or_new
  given_type [] arguments t c n h = absurd (n refl)
  given_type (x ∷ id) arguments t c n h =
      Post-kept_type held base t c (api.create_encryption_type (x ∷ id) arguments c.cloud).0
        (api.create_encryption_type (x ∷ id) arguments c.cloud).1
        (I.held-create_encryption_type (x ∷ id) arguments c.cloud) h

  pub create_encrypted_volume-Safe :
      (name : Text) (arguments : EncryptionArguments)
      → Safe held base (create_encrypted_volume api class_name name arguments)
  unfolding create_encrypted_volume
  create_encrypted_volume-Safe name arguments =
      bind_triple held base (Covered held base) (NewType held base) (λ id. Covered held base)
        (create_volume_type api class_name (some name) none [] []) _
        (create_volume_type_triple (some name) none [] [])
        λ t.
          bind_triple held base (NewType held base t) (λ u. NewType held base t)
            (λ id. Covered held base) (create_encryption_type api class_name (some t.id) arguments)
            _ (λ c h. given_type t.id arguments t c h.1 h)
            λ u c h.
              Post-volume held base t c (api.create_volume t.name c.cloud).0
                (api.create_volume t.name c.cloud).1 (I.create_volume_lem t.name c.cloud) h
