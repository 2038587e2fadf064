-- ===== src/Base/Resources/Release/Triples.antt =====
-- What the actions of a test do to the clean-ups and to the cloud, as triples.
use whitebox_tempest_plugin.Prelude.{◌≡◌, true, List, ◌∷◌}
use whitebox_tempest_plugin.Exceptions.{Result, ok, err}
use whitebox_tempest_plugin.Exceptions.Action.{Action, resume, ◌>>=◌}
use whitebox_tempest_plugin.Base.Api.{VolumeType}
use whitebox_tempest_plugin.Base.Resources.{
  Cleanup, cleanup_volume_type, Case, on_cloud, add_cleanup,
}
use whitebox_tempest_plugin.Base.Resources.Release.{
  Resource, resource_of, is_plain, volumes_in, is_unused, Owns, plain, a_type, Made, Creates, Keeps,
}
use whitebox_tempest_plugin.Base.Resources.Release.{volume_type}

module _ {S : Type 0} (held : S → List Resource) (base : List Resource) where
  -- Everything beyond `base` has its clean-up.
  abbrev pub Covered : Case S → Type 0
  Covered c = Owns base c.cleanups (held c.cloud)

  -- A resource has just been made, and has no clean-up yet.
  pub record Pending (r : Resource) (c : Case S) : Type 0 where
    pub others : List Resource
    pub covered : Owns base c.cleanups others
    pub newest : held c.cloud ≡ r ∷ others

  -- The newest resource is a volume type that no volume is of, and has its clean-up.
  pub record FreshType (t : VolumeType) (c : Case S) : Type 0 where
    pub earlier : List Cleanup
    pub others : List Resource
    pub covered : Owns base earlier others
    pub registered : c.cleanups ≡ cleanup_volume_type t ∷ earlier
    pub newest : held c.cloud ≡ volume_type t ∷ others
    pub unused : is_unused t.name (volumes_in others) ≡ true

  -- Where an action raises, everything is covered.
  abbrev pub Post : {A : Type 0} → (A → Case S → Type 0) → Result A × Case S → Type 0
  Post Q (ok a, c) = Q a c
  Post Q (err e, c) = Covered c

  abbrev pub Triple :
      {A : Type 0} → (Case S → Type 0) → Action (Case S) A → (A → Case S → Type 0) → Type 0
  Triple P m Q = (c : Case S) → P c → Post Q (m c)

  abbrev pub Safe : {A : Type 0} → Action (Case S) A → Type 0
  Safe {A} m = Triple Covered m (λ (a : A). Covered)

  resume_triple :
      {A B : Type 0} (Q : A → Case S → Type 0) (R : B → Case S → Type 0) (f : A → Action (Case S) B)
      (r : Result A) (c : Case S)
      → ((a : A) → Triple (Q a) (f a) R)
      → Post Q (r, c)
      → Post R (resume r f c)
  resume_triple Q R f (ok a) c h q = h a c q
  resume_triple Q R f (err e) c h q = q

  pub bind_triple :
      {A B : Type 0} (P : Case S → Type 0) (Q : A → Case S → Type 0) (R : B → Case S → Type 0)
      (m : Action (Case S) A) (f : A → Action (Case S) B)
      → Triple P m Q
      → ((a : A) → Triple (Q a) (f a) R)
      → Triple P (m >>= f) R
  bind_triple P Q R m f h k c p = resume_triple Q R f (m c).0 (m c).1 k (h c p)

  pub bind-Safe :
      {A B : Type 0} (m : Action (Case S) A) (f : A → Action (Case S) B)
      → Safe m
      → ((a : A) → Safe (f a))
      → Safe (m >>= f)
  bind-Safe m f h k = bind_triple Covered (λ a. Covered) (λ b. Covered) m f h k

  same-Covered :
      (c : Case S) (s : S) → held s ≡ held c.cloud → Covered c → Covered (record c { cloud = s })
  same-Covered c s e h = rw e h

  Post-kept :
      {A : Type 0} (c : Case S) (r : Result A) (s : S)
      → held s ≡ held c.cloud
      → Covered c
      → Post (λ (a : A). Covered) (r, record c { cloud = s })
  Post-kept c (ok a) s e h = same-Covered c s e h
  Post-kept c (err x) s e h = same-Covered c s e h

  -- A call that neither creates nor deletes.
  pub call-Safe : {A : Type 0} (action : Action S A) → Keeps held action → Safe (on_cloud action)
  call-Safe action k c h = Post-kept c (action c.cloud).0 (action c.cloud).1 (k c.cloud) h

  Post-Made :
      {A : Type 0} (make : A → Resource) (c : Case S) (r : Result A) (s : S)
      → Made (λ a. make a ∷ held c.cloud) (held c.cloud) (held s) r
      → Covered c
      → Post (λ (a : A). Pending (make a)) (r, record c { cloud = s })
  Post-Made make c (ok a) s m h = record { others = held c.cloud; covered = h; newest = m }
  Post-Made make c (err x) s m h = same-Covered c s m h

  pub call-Pending :
      {A : Type 0} (make : A → Resource) (action : Action S A)
      → Creates held make action
      → Triple Covered (on_cloud action) (λ a. Pending (make a))
  call-Pending make action k c h =
      Post-Made make c (action c.cloud).0 (action c.cloud).1 (k c.cloud) h

  add_cleanup_triple :
      (cleanup : Cleanup)
      → is_plain cleanup ≡ true
      → Triple (Pending (resource_of cleanup)) (add_cleanup cleanup) (λ u. Covered)
  add_cleanup_triple cleanup p c h = rw h.newest (plain cleanup p h.covered)

  -- A call that creates a resource, followed at once by the registration of its clean-up.
  pub registered-Safe :
      {A B : Type 0} (cleanup : A → Cleanup) (action : Action S A) (rest : A → Action (Case S) B)
      → ((a : A) → is_plain (cleanup a) ≡ true)
      → Creates held (λ a. resource_of (cleanup a)) action
      → ((a : A) → Safe (rest a))
      → Safe (on_cloud action >>= λ a. add_cleanup (cleanup a) >>= λ u. rest a)
  registered-Safe cleanup action rest p h k =
      bind_triple Covered (λ a. Pending (resource_of (cleanup a))) (λ b. Covered) (on_cloud action)
        _ (call-Pending (λ a. resource_of (cleanup a)) action h)
        λ a.
          bind_triple (Pending (resource_of (cleanup a))) (λ u. Covered) (λ b. Covered)
            (add_cleanup (cleanup a)) _ (add_cleanup_triple (cleanup a) (p a)) λ u. k a

  -- A volume type with its clean-up is covered.
  pub FreshType-Covered : (t : VolumeType) (c : Case S) → FreshType t c → Covered c
  FreshType-Covered t c h = rw (h.newest, h.registered) (a_type t h.unused h.covered)
