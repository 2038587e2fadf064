-- ===== src/Base/Devices/Bound.antt =====
-- When a PCI device is what a port is bound to.
use whitebox_tempest_plugin.Prelude.{
  ◌≡◌, ◌≢◌, ◌⊎◌, inl, inr, refl, both_left, both_right, ap, sym, Bool, true, false, ◌&&◌, ◌||◌,
  List, [], ◌∷◌, Option, none, some, all, All, arith, Bool-cases,
}
use whitebox_tempest_plugin.Exceptions.{Result, ok, err, key_error}
use whitebox_tempest_plugin.Python.Dict.{Dict, lookup}
use whitebox_tempest_plugin.Python.Equality.{text_instance}
use whitebox_tempest_plugin.Python.Text.{Text, codes, text_eq}
use whitebox_tempest_plugin.Python.Text.Laws.{text_eq→≡, text_eq_refl}
use whitebox_tempest_plugin.Base.Api.{Attribute, word, profile}
use whitebox_tempest_plugin.Base.Devices.{PciDevice, pci_slot, is_word, has_dev_type}

abbrev pub test_slot : (Text → Bool) → Result Text → Bool
test_slot f (ok slot) = f slot
test_slot f (err e) = false

-- A device is allocated, sits in the slot that the port is bound to, and has a type for the port.
abbrev pub is_bound : Option Attribute → Option Attribute → PciDevice → Bool
is_bound binding_profile vnic_type device =
    text_eq (codes "allocated") device.status
    && (test_slot (text_eq device.address) (pci_slot binding_profile)
        && has_dev_type vnic_type device.dev_type)

-- The types of device that a port can be bound to: a VDPA device for a vdpa port, a physical function
-- for a direct-physical port, and a virtual function or a plain PCI device for any other port.
pub data DevTypeFor (vnic_type : Option Attribute) (dev_type : Text) : Type 0 where
  vdpa :
      vnic_type ≡ some (word (codes "vdpa"))
      → dev_type ≡ codes "vdpa"
      → DevTypeFor vnic_type dev_type
  physical :
      vnic_type ≡ some (word (codes "direct-physical"))
      → dev_type ≡ codes "type-PF"
      → DevTypeFor vnic_type dev_type
  other :
      vnic_type ≢ some (word (codes "vdpa"))
      → vnic_type ≢ some (word (codes "direct-physical"))
      → (dev_type ≡ codes "type-VF") ⊎ (dev_type ≡ codes "type-PCI")
      → DevTypeFor vnic_type dev_type

-- A device that a port is bound to, by the port's binding profile and vnic type.
pub record Bound (binding_profile vnic_type : Option Attribute) (device : PciDevice) : Type 0 where
  pub allocated : device.status ≡ codes "allocated"
  pub slot :
      (d : Dict Text Text) × (binding_profile ≡ some (profile d))
      × (lookup (codes "pci_slot") d ≡ some device.address)
  pub typed : DevTypeFor vnic_type device.dev_type

is_word→≡ : (v : Option Attribute) (name : Text) → is_word v name ≡ true → v ≡ some (word name)
is_word→≡ none name h = cc
is_word→≡ (some (word w)) name h = ap (λ x. some (word x)) (text_eq→≡ w name h)
is_word→≡ (some (profile d)) name h = cc

is_word_refl : (v : Option Attribute) (name : Text) → v ≡ some (word name) → is_word v name ≡ true
is_word_refl v name h = rw h (text_eq_refl name)

not_word : (v : Option Attribute) (name : Text) → is_word v name ≡ false → v ≢ some (word name)
not_word v name h e = ground (arith, h, is_word_refl v name e)

either : (a b : Bool) → (a || b) ≡ true → (a ≡ true) ⊎ (b ≡ true)
either true b h = inl refl
either false b h = inr h

one_of : (t a b : Text) → (text_eq t a || text_eq t b) ≡ true → (t ≡ a) ⊎ (t ≡ b)
one_of t a b h = elim (either (text_eq t a) (text_eq t b) h) [
  | inl p ↦ inl (text_eq→≡ t a p)
  | inr p ↦ inr (text_eq→≡ t b p)
]

has_dev_type-DevTypeFor :
    (v : Option Attribute) (t : Text) → has_dev_type v t ≡ true → DevTypeFor v t
has_dev_type-DevTypeFor v t h = elim (Bool-cases (is_word v (codes "vdpa"))) [
  | inl p ↦ vdpa (is_word→≡ v (codes "vdpa") p) (text_eq→≡ t (codes "vdpa") (rw p at h))
  | inr p ↦ elim (Bool-cases (is_word v (codes "direct-physical"))) [
    | inl q ↦
        physical (is_word→≡ v (codes "direct-physical") q)
          (text_eq→≡ t (codes "type-PF") (rw (p, q) at h))
    | inr q ↦
        other (not_word v (codes "vdpa") p) (not_word v (codes "direct-physical") q)
          (one_of t (codes "type-VF") (codes "type-PCI") (rw (p, q) at h))
  ]
]

slot_in :
    (o : Option Text) (address : Text)
    → test_slot (text_eq address) (elim o [ none ↦ err key_error | some slot ↦ ok slot ]) ≡ true
    → o ≡ some address
slot_in none address h = cc
slot_in (some slot) address h = ap some (sym (text_eq→≡ address slot h))

slot_of :
    (p : Option Attribute) (address : Text)
    → test_slot (text_eq address) (pci_slot p) ≡ true
    → (d : Dict Text Text) × (p ≡ some (profile d)) × (lookup (codes "pci_slot") d ≡ some address)
slot_of none address h = cc
slot_of (some (word w)) address h = cc
slot_of (some (profile d)) address h = (d, refl, slot_in (lookup (codes "pci_slot") d) address h)

is_bound-Bound :
    (p v : Option Attribute) (device : PciDevice) → is_bound p v device ≡ true → Bound p v device
is_bound-Bound p v device h = record {
  allocated = sym (text_eq→≡ (codes "allocated") device.status (both_left _ _ h));
  slot = slot_of p device.address (both_left _ _ (both_right _ _ h));
  typed = has_dev_type-DevTypeFor v device.dev_type (both_right _ _ (both_right _ _ h));
}

pub all-Bound :
    (p v : Option Attribute) (l : List PciDevice) → all (is_bound p v) l ≡ true → All (Bound p v) l
all-Bound p v [] h = tt
all-Bound p v (device ∷ l) h =
    (is_bound-Bound p v device (both_left _ _ h), all-Bound p v l (both_right _ _ h))
