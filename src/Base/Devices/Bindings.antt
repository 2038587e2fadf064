-- ===== src/Base/Devices/Bindings.antt =====
-- What the check of a port's binding asserts of the PCI devices, and what a search of an interface
-- returns.
use whitebox_tempest_plugin.Prelude.{
  ◌≡◌, ◌↔◌, refl, pair_eq, both_true, both_left, both_right, ap, sym, ◌∙◌, Bool, true, false, ◌&&◌,
  List, [], ◌∷◌, Option, all, All,
}
use whitebox_tempest_plugin.Exceptions.{Result, ok, err}
use whitebox_tempest_plugin.Exceptions.Action.{
  Action, resume, returned_through, from_result, assert_that, ◌>>=◌, ◌>>◌,
}
use whitebox_tempest_plugin.Python.Text.{Text, codes, text_eq}
use whitebox_tempest_plugin.Base.Api.{Api, Attribute}
use whitebox_tempest_plugin.Config.{Conf}
use whitebox_tempest_plugin.Clients.Database.{Driver}
use whitebox_tempest_plugin.Base.Devices.Bound.{test_slot, is_bound, Bound, all-Bound}
use whitebox_tempest_plugin.Base.Devices.{
  PciDevice, pci_slot, has_dev_type, verify_device, verify_devices, Queries, get_port_attribute,
  search_pci_devices, verify_neutron_port_binding,
}

module _ {S : Type 0} where
  assert_iff : (b : Bool) (s : S) → (assert_that b s ≡ (ok tt, s)) ↔ (b ≡ true)
  assert_iff true s = (λ h. refl, λ h. refl)
  assert_iff false s = (λ h. cc, λ h. cc)

  both : (a b : Bool) (s : S) → ((assert_that a >> assert_that b) s ≡ (ok tt, s)) ↔ (a && b ≡ true)
  both true b s = assert_iff b s
  both false b s = (λ h. cc, λ h. cc)

  slot_iff :
      (r : Result Text) (f : Text → Bool) (b : Bool) (s : S)
      → ((from_result r >>= λ slot. assert_that (f slot) >> assert_that b) s ≡ (ok tt, s))
        ↔ (test_slot f r && b ≡ true)
  slot_iff (ok slot) f b s = both (f slot) b s
  slot_iff (err e) f b s = (λ h. cc, λ h. cc)

  checks_iff :
      (a : Bool) (r : Result Text) (f : Text → Bool) (b : Bool) (s : S)
      → ((assert_that a >> (from_result r >>= λ slot. assert_that (f slot) >> assert_that b)) s
          ≡ (ok tt, s))
        ↔ (a && (test_slot f r && b) ≡ true)
  checks_iff true r f b s = slot_iff r f b s
  checks_iff false r f b s = (λ h. cc, λ h. cc)

  verify_device_iff :
      (binding_profile vnic_type : Option Attribute) (device : PciDevice) (s : S)
      → (verify_device binding_profile vnic_type device s ≡ (ok tt, s))
        ↔ (is_bound binding_profile vnic_type device ≡ true)
  unfolding verify_device
  verify_device_iff binding_profile vnic_type device s =
      checks_iff (text_eq (codes "allocated") device.status) (pci_slot binding_profile)
        (text_eq device.address) (has_dev_type vnic_type device.dev_type) s

  kept_both : (a b : Bool) (s : S) → ((assert_that a >> assert_that b) s).1 ≡ s
  kept_both true true s = refl
  kept_both true false s = refl
  kept_both false b s = refl

  kept_slot :
      (r : Result Text) (f : Text → Bool) (b : Bool) (s : S)
      → ((from_result r >>= λ slot. assert_that (f slot) >> assert_that b) s).1 ≡ s
  kept_slot (ok slot) f b s = kept_both (f slot) b s
  kept_slot (err e) f b s = refl

  verify_device_keeps :
      (a : Bool) (r : Result Text) (f : Text → Bool) (b : Bool) (s : S)
      → ((assert_that a >> (from_result r >>= λ slot. assert_that (f slot) >> assert_that b)) s).1
        ≡ s
  verify_device_keeps true r f b s = kept_slot r f b s
  verify_device_keeps false r f b s = refl

  devices_step :
      (r : Result (Unit {0})) (t : S) (rest : Action S Unit) (s : S)
      → t ≡ s
      → (resume r (λ u. rest) t ≡ (ok tt, s)) ↔ ((r ≡ ok tt) × (rest s ≡ (ok tt, s)))
  devices_step (ok u) t rest s e = (λ h. (refl, ap rest (sym e) ∙ h), λ p. ap rest e ∙ p.1)
  devices_step (err x) t rest s e = (λ h. cc, λ p. cc)

  kept_rest :
      (r : Result (Unit {0})) (t : S) (rest : Action S Unit) (s : S)
      → t ≡ s
      → (rest s).1 ≡ s
      → (resume r (λ u. rest) t).1 ≡ s
  kept_rest (ok u) t rest s e h = ap (λ x. (rest x).1) e ∙ h
  kept_rest (err x) t rest s e h = e

  one_device_keeps :
      (binding_profile vnic_type : Option Attribute) (device : PciDevice) (s : S)
      → (verify_device binding_profile vnic_type device s).1 ≡ s
  unfolding verify_device
  one_device_keeps binding_profile vnic_type device s =
      verify_device_keeps (text_eq (codes "allocated") device.status) (pci_slot binding_profile)
        (text_eq device.address) (has_dev_type vnic_type device.dev_type) s

  verify_devices_keeps :
      (binding_profile vnic_type : Option Attribute) (pci_info : List PciDevice) (s : S)
      → (verify_devices binding_profile vnic_type pci_info s).1 ≡ s
  unfolding verify_devices
  verify_devices_keeps binding_profile vnic_type [] s = refl
  verify_devices_keeps binding_profile vnic_type (device ∷ pci_info) s =
      kept_rest (verify_device binding_profile vnic_type device s).0 _ _ s
        (one_device_keeps binding_profile vnic_type device s)
        (verify_devices_keeps binding_profile vnic_type pci_info s)

  -- The check of a port's binding passes, and changes nothing, exactly where each of the devices is
  -- allocated, sits in the slot of the binding profile, and has a type that goes with the vnic type.
  pub verify_devices_iff :
      (binding_profile vnic_type : Option Attribute) (pci_info : List PciDevice) (s : S)
      → (verify_devices binding_profile vnic_type pci_info s ≡ (ok tt, s))
        ↔ (all (is_bound binding_profile vnic_type) pci_info ≡ true)
  unfolding verify_devices
  verify_devices_iff binding_profile vnic_type [] s = (λ h. refl, λ h. refl)
  verify_devices_iff binding_profile vnic_type (device ∷ pci_info) s =
      let m = verify_device binding_profile vnic_type device s in
      let kept = one_device_keeps binding_profile vnic_type device s in
      let step = devices_step m.0 m.1 (verify_devices binding_profile vnic_type pci_info) s kept in
      let one = verify_device_iff binding_profile vnic_type device s in
      let others = verify_devices_iff binding_profile vnic_type pci_info s in
      (
        λ h. both_true (one.0 (pair_eq ((step.0 h).0) kept)) (others.0 ((step.0 h).1)),
        λ h. step.1 (ap (λ p. p.0) (one.1 (both_left _ _ h)), others.1 (both_right _ _ h)),
      )

-- `_verify_neutron_port_binding` returns only if each of the server's PCI devices, as the search finds
-- them, is allocated, has the address that the port's binding profile gives as its pci_slot, and has the
-- type for the port's vnic type: vdpa for vdpa, type-PF for direct-physical, else type-VF or type-PCI.
pub verify_neutron_port_binding-All :
    {S : Type 0} (D : Driver S) (q : Queries D) (conf : Conf) (api : Api S)
    (server_id port_id : Text) (s t : S)
    → verify_neutron_port_binding D q conf api server_id port_id s ≡ (ok tt, t)
    → (binding_profile : Option Attribute) × (pci_info : List PciDevice) × (vnic_type : Option
        Attribute)
      × (u : S) × (v : S) × (get_port_attribute D q conf api port_id (codes "binding:profile") s
          ≡ (ok binding_profile, u))
      × (search_pci_devices D q conf (codes "instance_uuid") server_id u ≡ (ok pci_info, v))
      × (get_port_attribute D q conf api port_id (codes "binding:vnic_type") v ≡ (ok vnic_type, t))
      × All (Bound binding_profile vnic_type) pci_info
unfolding verify_neutron_port_binding
verify_neutron_port_binding-All D q conf api server_id port_id s t h =
    let m0 = get_port_attribute D q conf api port_id (codes "binding:profile") s in
    let (binding_profile, e0, h0) = returned_through m0.0 _ _ _ _ h in
    let m1 = search_pci_devices D q conf (codes "instance_uuid") server_id m0.1 in
    let (pci_info, e1, h1) = returned_through m1.0 _ _ _ _ h0 in
    let m2 = get_port_attribute D q conf api port_id (codes "binding:vnic_type") m1.1 in
    let (vnic_type, e2, h2) = returned_through m2.0 _ _ _ _ h1 in
    let same : m2.1 ≡ t =
      sym (verify_devices_keeps binding_profile vnic_type pci_info m2.1) ∙ ap (λ p. p.1) h2 in
    let passed : verify_devices binding_profile vnic_type pci_info t ≡ (ok tt, t) =
      ap (verify_devices binding_profile vnic_type pci_info) (sym same) ∙ h2 in
    (
      binding_profile,
      pci_info,
      vnic_type,
      m0.1,
      m1.1,
      pair_eq e0 refl,
      pair_eq e1 refl,
      pair_eq e2 same,
      all-Bound binding_profile vnic_type pci_info
          ((verify_devices_iff binding_profile vnic_type pci_info t).0 passed),
    )
