-- ===== src/Removable/Samples/Equality.antt =====
-- The equality of plans, which stands for their digests in the samples.
use libre_core_mac_loader.Prelude.{
  ◌≡◌, refl, ◌↔◌, Bool, true, ◌&&◌, arith, ◌==◌, nat_eq, string_eq, bool_eq, option_eq, list_eq,
  option_beq_iff, list_beq_iff, bool_beq_iff, Eq, subst, beq_refl,
}
use libre_core_mac_loader.Removable.Device.{RemovableDevice}
use libre_core_mac_loader.Removable.Source.{file_eq}
use libre_core_mac_loader.Removable.Plan.{bindings_eq, bindings_beq_iff, WritePlan}
use libre_core_mac_loader.Removable.Published.Contracts.{}

abbrev state_beq : RemovableDevice → RemovableDevice → Bool
state_beq a b =
    a.is_system_disk == b.is_system_disk
    && a.is_removable == b.is_removable
    && a.mounted == b.mounted
    && a.read_only == b.read_only
    && a.whole_device == b.whole_device

state_beq_lem :
    (a b : RemovableDevice)
    → state_beq a b ≡ true
    → (a.is_system_disk ≡ b.is_system_disk)
      × (a.is_removable ≡ b.is_removable)
      × (a.mounted ≡ b.mounted)
      × (a.read_only ≡ b.read_only)
      × (a.whole_device ≡ b.whole_device)
state_beq_lem a b h = ground (
  arith,
  bool_beq_iff a.is_system_disk b.is_system_disk,
  bool_beq_iff a.is_removable b.is_removable,
  bool_beq_iff a.mounted b.mounted,
  bool_beq_iff a.read_only b.read_only,
  bool_beq_iff a.whole_device b.whole_device,
)

abbrev name_beq : RemovableDevice → RemovableDevice → Bool
name_beq a b =
    a.device_id == b.device_id
    && a.model == b.model
    && a.capacity_bytes == b.capacity_bytes
    && a.serial == b.serial
    && a.vendor == b.vendor
    && a.partitions == b.partitions
    && a.system_disk_ref == b.system_disk_ref

name_beq_lem :
    (a b : RemovableDevice)
    → name_beq a b ≡ true
    → (a.device_id ≡ b.device_id)
      × (a.model ≡ b.model)
      × (a.capacity_bytes ≡ b.capacity_bytes)
      × (a.serial ≡ b.serial)
      × (a.vendor ≡ b.vendor)
      × (a.partitions ≡ b.partitions)
      × (a.system_disk_ref ≡ b.system_disk_ref)
name_beq_lem a b h = ground (
  arith,
  string_eq.beq_iff a.device_id b.device_id,
  string_eq.beq_iff a.model b.model,
  nat_eq.beq_iff a.capacity_bytes b.capacity_bytes,
  option_beq_iff a.serial b.serial,
  option_beq_iff a.vendor b.vendor,
  list_beq_iff a.partitions b.partitions,
  option_beq_iff a.system_disk_ref b.system_disk_ref,
)

and_both : (a b : Bool) → (a && b) ≡ true → (a ≡ true) × (b ≡ true)
and_both a b h = ground arith

unfoldable pub device_beq : RemovableDevice → RemovableDevice → Bool
device_beq a b = name_beq a b && state_beq a b

device_beq_iff : (a b : RemovableDevice) → (device_beq a b ≡ true) ↔ (a ≡ b)
unfolding device_beq
device_beq_iff a b =
    (λ h. equal h, λ h. subst (λ (x : RemovableDevice). device_beq a x ≡ true) h (reflexive a))
  where
    equal : device_beq a b ≡ true → a ≡ b
    equal h =
        let (names, states) = and_both (name_beq a b) (state_beq a b) h in
        let (n1, n2, n3, n4, n5, n6, n7) = name_beq_lem a b names in
        let (s1, s2, s3, s4, s5) = state_beq_lem a b states in cc

    reflexive : (x : RemovableDevice) → device_beq x x ≡ true
    reflexive x =
        rw
          (
            beq_refl x.device_id,
            beq_refl x.model,
            beq_refl x.capacity_bytes,
            beq_refl x.serial,
            beq_refl x.vendor,
            beq_refl x.partitions,
            beq_refl x.system_disk_ref,
            beq_refl x.is_system_disk,
            beq_refl x.is_removable,
            beq_refl x.mounted,
            beq_refl x.read_only,
            beq_refl x.whole_device,
          )
          refl

unfoldable pub plan_beq : WritePlan → WritePlan → Bool
plan_beq a b =
    device_beq a.target b.target
    && a.required_bytes == b.required_bytes
    && a.partitions == b.partitions
    && a.destroys_data == b.destroys_data
    && a.expected_files == b.expected_files
    && a.bindings == b.bindings
    && a.source_validated == b.source_validated

pub plan_beq_iff : (a b : WritePlan) → (plan_beq a b ≡ true) ↔ (a ≡ b)
unfolding plan_beq
plan_beq_iff a b = ground (
  arith,
  device_beq_iff a.target b.target,
  nat_eq.beq_iff a.required_bytes b.required_bytes,
  list_beq_iff a.partitions b.partitions,
  bool_beq_iff a.destroys_data b.destroys_data,
  list_beq_iff a.expected_files b.expected_files,
  bindings_beq_iff a.bindings b.bindings,
  bool_beq_iff a.source_validated b.source_validated,
)

-- A plan is its own digest here, so no two plans collide.
instance abbrev pub plan_eq : Eq WritePlan
plan_eq = record { beq = plan_beq; beq_iff = plan_beq_iff }

abbrev pub same : WritePlan → WritePlan
same plan = plan
