-- ===== src/Removable/Device/Safe.antt =====
-- What the device checks let through.
use libre_core_mac_loader.Prelude.{
  ℕ, ◌≤◌, ◌<◌, String, ◌≡◌, refl, ◌↔◌, true, false, some, List, [], ◌∷◌, arith, ◌==◌, nat_eq,
  string_eq, bool_eq, option_eq, list_eq, option_beq_iff, list_beq_iff, bool_beq_iff, ◌++◌, ap,
  subst, ◌≢◌, inl, inr, beq_cases,
}
use libre_core_mac_loader.Prelude.Text.{is_blank}
use libre_core_mac_loader.Removable.Outcome.{done}
use libre_core_mac_loader.Removable.Device.{
  RemovableDevice, assert_safe, matches, same_identity, recheck_matches, recheck_device,
}

-- A device that may be written, with room for the payload.
pub record IsSafe (device : RemovableDevice) (required_bytes : ℕ) : Type 0 where
  pub named : is_blank device.device_id ≡ false
  pub removable : device.is_removable ≡ true
  pub whole : device.whole_device ≡ true
  pub not_system : device.is_system_disk ≡ false
  pub unmounted : device.mounted ≡ false
  pub writable : device.read_only ≡ false
  pub real : 0 < device.capacity_bytes
  pub fits : required_bytes ≤ device.capacity_bytes

-- The safety check passes exactly the devices that have an id, are removable, whole, not the
-- system disk, not mounted and not read-only, and hold the required bytes.
pub assert_safe-IsSafe :
    (device : RemovableDevice) (required_bytes : ℕ)
    → (assert_safe device required_bytes ≡ done tt) ↔ IsSafe device required_bytes
unfolding assert_safe
assert_safe-IsSafe device required_bytes = (λ h. ground arith, λ i. ground arith)

-- No device of the list has the id.
abbrev Lacks : String → List RemovableDevice → Type 0
Lacks id [] = Unit
Lacks id (d ∷ rest) = (d.device_id ≢ id) × Lacks id rest

matches-nil : (id : String) (l : List RemovableDevice) → matches id l ≡ [] → Lacks id l
unfolding matches
matches-nil id [] h = tt
matches-nil id (d ∷ l) h =
    (ground (arith, string_eq.beq_iff d.device_id id), matches-nil id l (ground arith))

-- The device stands once in the list, and no other device has its id.
pub record IsOnly (id : String) (devices : List RemovableDevice) (d : RemovableDevice)
    : Type 0 where
  pub before : List RemovableDevice
  pub after : List RemovableDevice
  pub split : devices ≡ before ++ d ∷ after
  pub named : d.device_id ≡ id
  pub lacks_before : Lacks id before
  pub lacks_after : Lacks id after

matches-IsOnly :
    (id : String) (l : List RemovableDevice) (d : RemovableDevice)
    → matches id l ≡ d ∷ []
    → IsOnly id l d
unfolding matches
matches-IsOnly id [] d h = cc
matches-IsOnly id (x ∷ l) d h = elim (beq_cases x.device_id id) [
  | inl e ↦ record {
    before = [];
    after = l;
    split = ground (arith, string_eq.beq_iff x.device_id id);
    named = ground (arith, string_eq.beq_iff x.device_id id);
    lacks_before = tt;
    lacks_after = matches-nil id l (ground (arith, string_eq.beq_iff x.device_id id));
  }
  | inr e ↦
      let i = matches-IsOnly id l d (ground arith) in
      record {
        before = x ∷ i.before;
        after = i.after;
        split = ap (λ (t : List RemovableDevice). x ∷ t) i.split;
        named = i.named;
        lacks_before = (ground (arith, string_eq.beq_iff x.device_id id), i.lacks_before);
        lacks_after = i.lacks_after;
      }
]

-- The device was seen again, alone under its id, unchanged in what identifies it, and safe.
pub record IsRechecked (devices : List RemovableDevice) (expected : RemovableDevice)
    (required_bytes : ℕ) (d : RemovableDevice) : Type 0 where
  pub only : IsOnly expected.device_id devices d
  pub capacity : d.capacity_bytes ≡ expected.capacity_bytes
  pub model : d.model ≡ expected.model
  pub serial : d.serial ≡ expected.serial
  pub vendor : d.vendor ≡ expected.vendor
  pub is_removable : d.is_removable ≡ expected.is_removable
  pub is_system_disk : d.is_system_disk ≡ expected.is_system_disk
  pub partitions : d.partitions ≡ expected.partitions
  pub whole_device : d.whole_device ≡ expected.whole_device
  pub safe : IsSafe d required_bytes

same_identity_iff :
    (c e : RemovableDevice)
    → same_identity c e ≡ true
    → (c.model ≡ e.model)
      × (c.serial ≡ e.serial)
      × (c.vendor ≡ e.vendor)
      × (c.is_removable ≡ e.is_removable)
      × (c.is_system_disk ≡ e.is_system_disk)
      × (c.partitions ≡ e.partitions)
      × (c.whole_device ≡ e.whole_device)
unfolding same_identity
same_identity_iff c e h = ground (
  arith,
  string_eq.beq_iff c.model e.model,
  option_beq_iff c.serial e.serial,
  option_beq_iff c.vendor e.vendor,
  bool_beq_iff c.is_removable e.is_removable,
  bool_beq_iff c.is_system_disk e.is_system_disk,
  list_beq_iff c.partitions e.partitions,
  bool_beq_iff c.whole_device e.whole_device,
)

module _ (sha256 : String → String) where
  recheck_one :
      (expected c d : RemovableDevice) (n : ℕ)
      → recheck_matches sha256 expected n (c ∷ []) ≡ done d
      → ((c.capacity_bytes == expected.capacity_bytes) ≡ true)
        × (same_identity c expected ≡ true)
        × (assert_safe c n ≡ done tt)
        × (c ≡ d)
  unfolding recheck_matches
  recheck_one expected c d n h = ground arith

  recheck_matches-IsRechecked :
      (expected : RemovableDevice) (required_bytes : ℕ) (found : List RemovableDevice)
      (d : RemovableDevice) (devices : List RemovableDevice)
      → recheck_matches sha256 expected required_bytes found ≡ done d
      → ((x : RemovableDevice) → found ≡ x ∷ [] → IsOnly expected.device_id devices x)
      → IsRechecked devices expected required_bytes d
  unfolding recheck_matches
  recheck_matches-IsRechecked expected n [] d devices h only = cc
  recheck_matches-IsRechecked expected n (c ∷ []) d devices h only =
      let (sized, same, safe, same_device) = recheck_one expected c d n h in
      let s = same_identity_iff c expected same in
      let built : IsRechecked devices expected n c = record {
        only = only c refl;
        capacity = (nat_eq.beq_iff c.capacity_bytes expected.capacity_bytes).0 sized;
        model = s.0;
        serial = s.1;
        vendor = s.2;
        is_removable = s.3;
        is_system_disk = s.4;
        partitions = s.5;
        whole_device = s.6;
        safe = (assert_safe-IsSafe c n).0 safe;
      } in
      subst (IsRechecked devices expected n) same_device built
  recheck_matches-IsRechecked expected n (c ∷ e ∷ l) d devices h only = cc

  -- A recheck against the connected devices returns a device only if it is the one connected device
  -- with the expected id, has the expected capacity and identity, and is safe for the required bytes.
  pub recheck_device-IsRechecked :
      (devices : List RemovableDevice) (expected : RemovableDevice) (required_bytes : ℕ)
      (d : RemovableDevice)
      → recheck_device sha256 (some (done devices)) expected required_bytes ≡ done d
      → IsRechecked devices expected required_bytes d
  unfolding recheck_device
  recheck_device-IsRechecked devices expected n d h =
      recheck_matches-IsRechecked expected n (matches expected.device_id devices) d devices h
        (matches-IsOnly expected.device_id devices)
