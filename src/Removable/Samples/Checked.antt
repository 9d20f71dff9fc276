-- ===== src/Removable/Samples/Checked.antt =====
-- The checks before a write, on the sample medium.
use libre_core_mac_loader.Prelude.{
  ◌≡◌, ◌≢◌, refl, ◌↔◌, ◌≤◌, ◌<◌, ◌+◌, true, some, [], list_beq, option_beq, bool_beq,
}
use libre_core_mac_loader.Prelude.Text.{lower, decimal}
use libre_core_mac_loader.Removable.Outcome.{done, unsafe}
use libre_core_mac_loader.Removable.Device.{
  assert_safe, recheck_device, same_identity, public_device_ref,
}
use libre_core_mac_loader.Removable.Device.Safe.{
  IsSafe, assert_safe-IsSafe, IsRechecked, recheck_device-IsRechecked,
}
use libre_core_mac_loader.Removable.Source.{
  payload, payload_root, at, below, posix, manifest_step, manifest_loop, source_manifest,
  efi_payload_records,
}
use libre_core_mac_loader.Removable.Source.Bounds.{IsManifest, source_manifest-IsManifest}
use libre_core_mac_loader.Removable.Plan.{
  complete, is_sha256, plan_digest, payload_of, erase_phrase, issue, valid_for, max_lifetime,
}
use libre_core_mac_loader.Removable.Plan.Confirmation.{issue-valid_for, valid_for_unique}
use libre_core_mac_loader.Removable.Published.Checks.{
  from_published_contracts, raw_manifest, check_manifest, both_objects, check_contracts,
  check_policy, check_lock, check_payload, raw_state, check_state, check_recovery,
  validate_published_artifacts,
}
use libre_core_mac_loader.Removable.Published.Accepted.{
  IsReconciled, validate_published_artifacts-IsReconciled,
}
use libre_core_mac_loader.Removable.Writer.Source.{Readings, validate_source, dry_run}
use libre_core_mac_loader.Removable.Writer.Planned.{IsPlanned, dry_run-IsPlanned}
use libre_core_mac_loader.Removable.Samples.Equality.{plan_eq, device_beq, plan_beq, same}
use libre_core_mac_loader.Removable.Samples.Media.{
  text, stick, disk, bound, tree, listed, folder, digests, published, plan, devices, writer,
  confirmation,
}

refused_disk : assert_safe disk 8_000 ≡ unsafe "Target is not removable"
unfolding assert_safe
refused_disk = refl

rechecked : recheck_device text (some (done devices)) stick 8_000 ≡ done stick
unfolding recheck_device same_identity assert_safe bool_beq list_beq option_beq
rechecked = refl

manifest_listed : source_manifest tree ≡ done listed
unfolding source_manifest manifest_loop manifest_step posix at list_beq payload payload_root below
manifest_listed = refl

-- A folder that does not change.
abbrev readings : Readings
readings = record {
  validated_source = folder;
  manifest_source = folder.entries;
  recovery_source = folder.entries;
}

planned : dry_run writer stick 8_000 (some readings) (some bound) ≡ done plan
unfolding dry_run assert_safe validate_source source_manifest manifest_loop manifest_step posix at
    list_beq payload payload_root below complete is_sha256
planned = refl

issued : issue text same plan 1_000 60_000 ≡ done confirmation
unfolding issue plan_digest payload_of erase_phrase public_device_ref decimal
issued = refl

confirmed : valid_for text same confirmation plan 2_000 ≡ true
unfolding valid_for plan_digest payload_of erase_phrase public_device_ref decimal plan_beq
    device_beq bool_beq list_beq option_beq
confirmed = refl

accepted : validate_published_artifacts digests true tree bound published ≡ done tt
unfolding validate_published_artifacts check_recovery check_manifest check_lock check_contracts
    check_policy check_payload check_state raw_manifest both_objects raw_state
    from_published_contracts efi_payload_records at list_beq option_beq lower posix
accepted = refl

assert_safe-IsSafe_example : (assert_safe stick 8_000 ≡ done tt) ↔ IsSafe stick 8_000
assert_safe-IsSafe_example = assert_safe-IsSafe stick 8_000

recheck_device-IsRechecked_example : IsRechecked devices stick 8_000 stick
recheck_device-IsRechecked_example =
    recheck_device-IsRechecked text devices stick 8_000 stick rechecked

source_manifest-IsManifest_example :
    (source_manifest tree ≡ done listed) ↔ (IsManifest (payload tree) listed × (listed ≢ []))
source_manifest-IsManifest_example = source_manifest-IsManifest tree listed

issue-valid_for_example :
    (0 < 60_000)
    × (60_000 ≤ max_lifetime)
    × ((valid_for text same confirmation plan 61_000 ≡ true)
        ↔ ((1_000 ≤ 61_000) × (61_000 < 1_000 + 60_000)))
issue-valid_for_example = issue-valid_for text same plan 1_000 60_000 61_000 confirmation issued

valid_for_unique_example : plan ≡ plan
valid_for_unique_example =
    valid_for_unique text same confirmation plan plan 2_000 2_000 (λ x y h. h) confirmed confirmed

validate_published_artifacts-IsReconciled_example : IsReconciled digests tree bound published
validate_published_artifacts-IsReconciled_example =
    validate_published_artifacts-IsReconciled digests tree bound published accepted

dry_run-IsPlanned_example : IsPlanned writer stick 8_000 readings (some bound) plan
dry_run-IsPlanned_example = dry_run-IsPlanned writer stick 8_000 readings (some bound) plan planned
