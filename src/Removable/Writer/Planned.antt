-- ===== src/Removable/Writer/Planned.antt =====
-- What dry_run() of macloader/removable/writer.py plans.
use libre_core_mac_loader.Prelude.{ℕ, ◌≡◌, true, Option, some, [], ◌∷◌, arith}
use libre_core_mac_loader.Removable.Outcome.{done}
use libre_core_mac_loader.Removable.Device.{RemovableDevice, assert_safe}
use libre_core_mac_loader.Removable.Device.Safe.{IsSafe, assert_safe-IsSafe}
use libre_core_mac_loader.Removable.Source.{payload, source_manifest, is_dir, at}
use libre_core_mac_loader.Removable.Source.Bounds.{IsManifest, source_manifest-IsManifest}
use libre_core_mac_loader.Removable.Plan.{MediaBindings, WritePlan}
use libre_core_mac_loader.Removable.Writer.Source.{
  Writer, Readings, validate_source, dry_run, or_none, is_complete,
}

-- The plan is for the device as it was given, which is safe, and lists the whole validated source.
pub record IsPlanned (w : Writer) (device : RemovableDevice) (required_bytes : ℕ) (s : Readings)
    (b : Option MediaBindings) (plan : WritePlan) : Type 0 where
  pub target : plan.target ≡ device
  pub room : plan.required_bytes ≡ required_bytes
  pub bindings : plan.bindings ≡ or_none b
  pub source_validated : plan.source_validated ≡ true
  pub safe : IsSafe device required_bytes
  pub valid : validate_source w.source_validator s.validated_source ≡ done tt
  pub files : IsManifest (payload s.manifest_source) plan.expected_files
  pub recovery : is_complete b ≡ true → is_dir (at ("Recovery" ∷ []) s.recovery_source) ≡ true

-- A dry run with a source returns a plan only for a safe device and a valid source; the plan lists
-- exactly the regular files of the payload, within the limits, and with complete bindings the
-- source has a Recovery directory: each as the source is when it is read for that.
pub dry_run-IsPlanned :
    (w : Writer) (device : RemovableDevice) (required_bytes : ℕ) (s : Readings)
    (b : Option MediaBindings) (plan : WritePlan)
    → dry_run w device required_bytes (some s) b ≡ done plan
    → IsPlanned w device required_bytes s b plan
unfolding dry_run
dry_run-IsPlanned w device n s b plan h =
    let (target, room, bindings, checked, safe, valid, manifest, recovery) = facts in
    record {
      target = target;
      room = room;
      bindings = bindings;
      source_validated = checked;
      safe = (assert_safe-IsSafe device n).0 safe;
      valid = valid;
      files = ((source_manifest-IsManifest s.manifest_source plan.expected_files).0 manifest).0;
      recovery = recovery;
    }
  where
    facts :
        (plan.target ≡ device)
        × (plan.required_bytes ≡ n)
        × (plan.bindings ≡ or_none b)
        × (plan.source_validated ≡ true)
        × (assert_safe device n ≡ done tt)
        × (validate_source w.source_validator s.validated_source ≡ done tt)
        × (source_manifest s.manifest_source ≡ done plan.expected_files)
        × (is_complete b ≡ true → is_dir (at ("Recovery" ∷ []) s.recovery_source) ≡ true)
    facts = ground arith
