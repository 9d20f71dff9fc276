-- ===== src/Removable/Device.antt =====
-- RemovableDevice of macloader/removable/writer.py, and the checks of RemovableMediaWriter that
-- look at devices only. Sizes are natural numbers.
pub mod Safe
use Prim.Native.String.{slice}
use libre_core_mac_loader.Prelude.{
  ℕ, ◌≤◌, ◌<◌, String, ◌<>◌, ◌≡◌, ◌↔◌, Bool, true, false, not, ◌&&◌, ◌||◌, Option, none, some, List,
  [], ◌∷◌, ltb, leb, ◌==◌, string_eq, bool_eq, nat_eq, option_eq, list_eq, bool_beq, list_beq,
  option_beq, if◌then◌else◌,
}
use libre_core_mac_loader.Prelude.Text.{is_blank, decimal}
use libre_core_mac_loader.Removable.Outcome.{Outcome, done, unsafe, raised, ◌>>=◌, ◌>>◌, refuse_if}

pub record RemovableDevice : Type 0 where
  pub device_id : String
  pub model : String
  pub capacity_bytes : ℕ
  pub is_system_disk : Bool
  pub is_removable : Bool
  pub mounted : Bool
  pub serial : Option String
  pub vendor : Option String
  pub read_only : Bool
  pub partitions : List String
  pub whole_device : Bool
  pub system_disk_ref : Option String

-- `_assert_safe`
unfoldable pub assert_safe : RemovableDevice → ℕ → Outcome (Unit {0})
unfolding is_blank
assert_safe device required_bytes = do
  refuse_if (is_blank device.device_id) "Target device ID is missing or empty"
  refuse_if (not device.is_removable) "Target is not removable"
  refuse_if (not device.whole_device)
      "Refusing a partition target; a whole removable device is required"
  refuse_if device.is_system_disk "Refusing to modify the system disk"
  refuse_if device.mounted "Target is mounted or busy"
  refuse_if device.read_only "Target device is read-only"
  refuse_if (leb device.capacity_bytes 0) "Target capacity is invalid or zero"
  refuse_if (ltb device.capacity_bytes required_bytes) "Target capacity is insufficient"

-- `[d for d in current_devices if d.device_id == expected_target.device_id]`
unfoldable pub matches : String → List RemovableDevice → List RemovableDevice
matches device_id [] = []
matches device_id (d ∷ rest) =
    let kept = matches device_id rest in if d.device_id == device_id then d ∷ kept else kept

-- The identity test of `_recheck_device`.
unfoldable pub same_identity : RemovableDevice → RemovableDevice → Bool
unfolding bool_beq list_beq option_beq
same_identity current expected =
    current.model == expected.model
    && current.serial == expected.serial
    && current.vendor == expected.vendor
    && current.is_removable == expected.is_removable
    && current.is_system_disk == expected.is_system_disk
    && current.partitions == expected.partitions
    && current.whole_device == expected.whole_device

module _ (sha256 : String → String) where
  -- `public_device_ref`; `sha256` is the hexadecimal digest of a text.
  unfoldable pub public_device_ref : RemovableDevice → String
  public_device_ref device = "device-" <> slice (sha256 device.device_id) 0 16

  -- The part of `_recheck_device` that looks at the devices with the expected id.
  unfoldable pub recheck_matches :
      RemovableDevice → ℕ → List RemovableDevice → Outcome RemovableDevice
  unfolding public_device_ref
  recheck_matches expected required_bytes [] = unsafe (
      "Target device '"
      <> public_device_ref expected
      <> "' is no longer present (stale device / removed)")
  recheck_matches expected required_bytes (current ∷ []) = do
    refuse_if (not (current.capacity_bytes == expected.capacity_bytes)) (
        "Target device capacity changed from "
        <> decimal expected.capacity_bytes
        <> " to "
        <> decimal current.capacity_bytes
        <> " (possible hot-swap)")
    refuse_if (not (same_identity current expected))
        "Target device identity changed since planning (possible hot-swap)"
    assert_safe current required_bytes
    done current
  recheck_matches expected required_bytes (_ ∷ _ ∷ _) =
      unsafe ("Ambiguous target devices found for '" <> public_device_ref expected <> "'")

  -- `_recheck_device`; the enumerator is what a call of it comes to.
  unfoldable pub recheck_device :
      Option (Outcome (List RemovableDevice)) → RemovableDevice → ℕ → Outcome RemovableDevice
  unfolding matches recheck_matches
  recheck_device none expected required_bytes = do
    assert_safe expected required_bytes
    done expected
  recheck_device (some (unsafe m)) expected required_bytes =
      unsafe ("Device re-enumeration failed: " <> m)
  recheck_device (some (raised m)) expected required_bytes =
      unsafe ("Device re-enumeration failed: " <> m)
  recheck_device (some (done devices)) expected required_bytes =
      recheck_matches expected required_bytes (matches expected.device_id devices)
