-- ===== src/Removable/Samples/Written.antt =====
-- A whole write of the sample medium, and one whose readback fails.
use libre_core_mac_loader.Prelude.{
  String, ◌≡◌, refl, ap, ◌⊎◌, Bool, true, false, some, List, [], ◌∷◌, ◌++◌, list_beq, option_beq,
  bool_beq,
}
use libre_core_mac_loader.Prelude.Text.{lower, decimal, is_blank}
use libre_core_mac_loader.Removable.Outcome.{Outcome, done, unsafe}
use libre_core_mac_loader.Removable.Device.{
  recheck_device, assert_safe, same_identity, public_device_ref,
}
use libre_core_mac_loader.Removable.Device.Safe.{IsRechecked}
use libre_core_mac_loader.Removable.Source.{
  Entry, payload, payload_root, at, below, posix, manifest_step, manifest_loop, source_manifest,
  copy_no_follow, efi_payload_records,
}
use libre_core_mac_loader.Removable.Plan.{
  WritePlan, complete, is_sha256, plan_digest, payload_of, erase_phrase, valid_for,
}
use libre_core_mac_loader.Removable.Published.Checks.{
  from_published_contracts, raw_manifest, check_manifest, both_objects, check_contracts,
  check_policy, check_lock, check_payload, raw_state, check_state, check_recovery,
  validate_published_artifacts,
}
use libre_core_mac_loader.Removable.Writer.Source.{
  Event, written, read_back, invalidated, Writer, validate_source,
}
use libre_core_mac_loader.Removable.Writer.Steps.{
  Adapters, require_files, prepare_source, prepare_target, prepare, snapshot, invalidate,
  read_after, after_start, conclude, run, execute, write,
}
use libre_core_mac_loader.Removable.Writer.Safety.{HasNoWrite, IsAuthorised}
use libre_core_mac_loader.Removable.Writer.Events.{
  write-IsAuthorised, IsVerified, write-IsVerified, write-invalidated,
}
use libre_core_mac_loader.Removable.Writer.Target.{write-IsRechecked}
use libre_core_mac_loader.Removable.Samples.Equality.{plan_eq, device_beq, plan_beq, same}
use libre_core_mac_loader.Removable.Samples.Media.{
  text, stick, tree, listed, digests, plan, devices, writer, world, confirmation,
}

-- The sample writer with a verifier that answers `b`.
abbrev reader : Bool → Writer
reader b = record writer { readback_verifier = some (λ p s. done b) }

abbrev adapters : Bool → Adapters
adapters b = record { destructive_write = λ p s. done tt; readback_verifier = λ p s. done b }

abbrev misread : Writer
misread = reader false

prepared :
    (b : Bool)
    → write text same digests (reader b) world plan confirmation
      ≡ run text same digests (reader b) world plan listed tree (adapters b)
unfolding write execute snapshot prepare prepare_target prepare_source require_files source_manifest
    manifest_loop manifest_step posix at list_beq payload payload_root below complete is_sha256
    valid_for plan_digest payload_of erase_phrase public_device_ref decimal plan_beq device_beq
    bool_beq option_beq copy_no_follow recheck_device same_identity assert_safe validate_source
    is_blank validate_published_artifacts check_recovery check_manifest check_lock check_contracts
    check_policy check_payload check_state raw_manifest both_objects raw_state
    from_published_contracts efi_payload_records lower
prepared b = refl

events_of_write :
    write text same digests writer world plan confirmation
    ≡ (done tt, written plan tree ∷ read_back plan tree ∷ [])
unfolding run conclude after_start read_after
events_of_write = prepared true

events_of_misread :
    (write text same digests misread world plan confirmation).1
    ≡ written plan tree ∷ read_back plan tree ∷ invalidated plan "readback verification failed" ∷ []
unfolding run conclude after_start read_after invalidate
events_of_misread = ap (λ (r : Outcome (Unit {0}) × List Event). r.1) (prepared false)

write-IsAuthorised_example :
    IsAuthorised text same digests writer world plan confirmation plan tree
    × (◌≡◌ {A = List Event} [] [])
    × HasNoWrite (read_back plan tree ∷ [])
write-IsAuthorised_example =
    write-IsAuthorised text same digests writer world plan confirmation plan tree []
      (read_back plan tree ∷ []) (ap (λ (r : Outcome (Unit {0}) × List Event). r.1) events_of_write)

write-IsVerified_example :
    IsVerified text same digests writer world plan confirmation
      (write text same digests writer world plan confirmation).1
write-IsVerified_example =
    write-IsVerified text same digests writer world plan confirmation
      (ap (λ (r : Outcome (Unit {0}) × List Event). r.0) events_of_write)

write-invalidated_example :
    ((read_back plan tree ∷ invalidated plan "readback verification failed" ∷ []
        ≡ read_back plan tree ∷ [])
      × (verify : WritePlan → List Entry → Outcome Bool) × (misread.readback_verifier ≡ some verify)
      × (verify plan tree ≡ done true))
    ⊎ ((reason text' : String) × (before : List Event) × (read_back plan tree
            ∷ invalidated plan "readback verification failed"
            ∷ []
          ≡ before ++ invalidated plan reason ∷ [])
        × ((write text same digests misread world plan confirmation).0 ≡ unsafe text'))
write-invalidated_example =
    write-invalidated text same digests misread world plan confirmation plan tree
      (read_back plan tree ∷ invalidated plan "readback verification failed" ∷ [])
      (λ p reason. done tt) refl events_of_misread

write-IsRechecked_example : (plan ≡ plan) × IsRechecked devices stick 8_000 stick
write-IsRechecked_example =
    write-IsRechecked text same digests writer world plan confirmation devices plan tree []
      (read_back plan tree ∷ []) (λ x y h. h) refl
      (ap (λ (r : Outcome (Unit {0}) × List Event). r.1) events_of_write)
