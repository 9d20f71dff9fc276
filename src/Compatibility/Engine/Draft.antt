-- ===== src/Compatibility/Engine/Draft.antt =====
-- CompatibilityEngine.generate_build_plan of macloader/compatibility/engine.py.
use libre_core_mac_loader.Prelude.{
  String, Bool, true, false, not, ◌&&◌, ◌||◌, List, [], ◌∷◌, ◌++◌, ◌==◌, string_eq, contains,
  if◌then◌else◌,
}
use libre_core_mac_loader.Prelude.Text.{mentions}
use libre_core_mac_loader.Compatibility.State.{
  CompatibilityState, is_usable, is_unknown, ComponentResult,
}
use libre_core_mac_loader.Compatibility.Components.{is_filled}
use libre_core_mac_loader.Compatibility.Engine.Findings.{deduplicate_preserve_order}
use libre_core_mac_loader.Compatibility.Engine.Evaluate.{Report}

-- The dict of a planned component.
abbrev pub Planned : Type 0
Planned = List (String × String)

-- required_capabilities, planned_components and unresolved_requirements; the set beside the
-- capabilities has the same elements.
pub record Draft : Type 0 where
  pub capabilities : List String
  pub planned : List Planned
  pub unresolved : List String

-- BuildPlan of macloader/domain/build_plan.py, without the time, the random id and the lists
-- and options of an accepted configuration
pub record BuildPlan : Type 0 where
  pub target_model : String
  pub target_macos : String
  pub hardware_snapshot_id : String
  pub support_state : CompatibilityState
  pub required_capabilities : List String
  pub planned_components : List Planned
  pub unresolved_requirements : List String
  pub warnings : List String
  pub is_actionable : Bool
  pub build_ready : Bool
  pub policy_version : String
  pub is_preliminary : Bool
  pub target_version : String
  pub target_build : String
  pub target_release_digest : String
  pub stable_model_id : String
  pub accepted_configuration_digest : String
  pub hardware_content_digest : String

unfoldable pub add_capability : String → List String → List String
unfolding contains
add_capability capability capabilities =
    if contains capabilities capability then capabilities else capabilities ++ capability ∷ []

-- The three changes that a branch makes.
unfoldable pub plan : String → Planned → List String → Draft → Draft
unfolding add_capability
plan capability component unresolved draft = record {
  capabilities = add_capability capability draft.capabilities;
  planned = draft.planned ++ component ∷ [];
  unresolved = draft.unresolved ++ unresolved;
}

abbrev driver : String → String → String → Planned
driver category name requirement =
    ("category", category) ∷ ("name", name) ∷ ("driver_requirement", requirement) ∷ []

abbrev pub known : ComponentResult → Bool
known cr = not (is_unknown cr.decision.state)

-- `has_igpu`
unfoldable pub has_igpu : List ComponentResult → Bool
has_igpu [] = false
has_igpu (cr ∷ results) =
    (cr.category == "graphics" && cr.component_id == "intel-uhd-620" && known cr)
    || has_igpu results

unfoldable pub plan_igpu : Draft → Draft
unfolding plan
plan_igpu draft =
    plan "accelerated_intel_uhd_620"
      (driver "graphics" "Intel UHD Graphics 620" "WhateverGreen.kext")
      ("Exact framebuffer and device-id injection policy deferred to v0.0.5" ∷ []) draft

unfoldable pub plan_dgpu : Draft → Draft
unfolding plan
plan_dgpu draft =
    plan "disable_discrete_gpu"
      (("category", "graphics_dgpu")
        ∷ ("name", "Nvidia GeForce MX150 Disabler")
        ∷ ("policy", "ACPI SSDT-dGPU-Off and -wegnoegpu")
        ∷ [])
      [] draft

unfoldable pub plan_audio : String → Draft → Draft
unfolding plan
plan_audio target_macos draft =
    plan "alc257_audio" (driver "audio" "Realtek ALC257" "AppleALC.kext")
      ((if target_macos == "tahoe"
          then "Tahoe audio workaround (AppleHDA absent) deferred to v0.0.5"
          else "Audio layout-id selection deferred to v0.0.5")
        ∷ [])
      draft

unfoldable pub plan_ethernet : Draft → Draft
unfolding plan
plan_ethernet draft =
    plan "intel_gigabit_ethernet" (driver "ethernet" "Intel Gigabit Ethernet" "IntelMausi.kext") []
      draft

unfoldable pub plan_wifi : String → Draft → Draft
unfolding plan
plan_wifi target_macos draft =
    plan "intel_wireless_lan" (driver "wifi" "Intel Wi-Fi Adapter" "AirportItlwm.kext / itlwm.kext")
      (if target_macos == "tahoe"
        then "Tahoe Intel wireless driver stack verification deferred to v0.0.5" ∷ []
        else [])
      draft

unfoldable pub plan_storage : Draft → Draft
unfolding plan
plan_storage draft =
    plan "nvme_compatibility_fix" (driver "storage" "NVMeFix" "NVMeFix.kext") [] draft

unfoldable pub plan_touchscreen : Draft → Draft
unfolding plan
plan_touchscreen draft =
    plan "i2c_touchscreen"
      (driver "input" "I2C Multitouch Touchscreen" "VoodooI2C.kext + VoodooI2CHID.kext") [] draft

unfoldable pub plan_trackpad : String → Draft → Draft
unfolding plan
plan_trackpad name draft =
    plan "ps2_trackpad_trackpoint" (driver "input" name "VoodooPS2Controller.kext") [] draft

unfoldable pub plan_bluetooth : String → Draft → Draft
unfolding plan
plan_bluetooth name draft =
    plan "intel_bluetooth"
      (driver "bluetooth" name "IntelBluetoothFirmware.kext + BlueToolFixup.kext") [] draft

-- The chain of tests on one result: from the discrete GPU to Wi-Fi, and the rest.
unfoldable pub plan_peripheral : ComponentResult → Draft → Draft
unfolding plan_storage plan_touchscreen plan_trackpad plan_bluetooth
plan_peripheral cr draft =
    if cr.category == "storage" && known cr && mentions cr.component_id "pm981"
    then plan_storage draft
    else if cr.category == "input" && known cr && mentions cr.component_id "touchscreen"
    then plan_touchscreen draft
    else if cr.category == "input" && known cr && cr.component_id == "thinkpad-trackpad-trackpoint"
    then plan_trackpad cr.component_name draft
    else if cr.category == "bluetooth" && known cr
    then plan_bluetooth cr.component_name draft
    else draft

unfoldable pub plan_result : String → ComponentResult → Draft → Draft
unfolding plan_dgpu plan_audio plan_ethernet plan_wifi plan_peripheral
plan_result target_macos cr draft =
    if cr.category == "graphics_dgpu" && known cr
    then plan_dgpu draft
    else if cr.category == "audio" && known cr
    then plan_audio target_macos draft
    else if cr.category == "ethernet" && known cr
    then plan_ethernet draft
    else if cr.category == "wifi" && known cr
    then plan_wifi target_macos draft
    else plan_peripheral cr draft

unfoldable pub plan_results : String → List ComponentResult → Draft → Draft
unfolding plan_result
plan_results target_macos [] draft = draft
plan_results target_macos (cr ∷ results) draft =
    plan_results target_macos results (plan_result target_macos cr draft)

-- The lists before the loop.
unfoldable pub first_draft : Report → Draft
first_draft report = record {
  capabilities = [];
  planned = [];
  unresolved = report.unresolved_requirements;
}

-- The three lists, from the report.
unfoldable pub draft_of : Report → Draft
unfolding first_draft plan_igpu has_igpu plan_results
draft_of report = plan_results report.target_macos report.component_results (
    if has_igpu report.component_results
    then plan_igpu (first_draft report)
    else first_draft report)

-- `__post_init__`: the readiness is derived from the state and the requirements, whatever the
-- arguments were.
unfoldable pub post_init : BuildPlan → BuildPlan
unfolding is_usable
post_init plan = record plan {
  is_actionable = is_usable plan.support_state;
  build_ready = is_usable plan.support_state && not (is_filled plan.unresolved_requirements);
}

-- The version is that of the dependency catalogue, or empty without one.
unfoldable pub generate_build_plan : String → Report → BuildPlan
unfolding draft_of deduplicate_preserve_order post_init
generate_build_plan policy_version report =
    let draft = draft_of report in
    post_init (record {
      target_model = report.model_name;
      target_macos = report.target_macos;
      hardware_snapshot_id = report.snapshot_id;
      support_state = report.overall;
      required_capabilities = draft.capabilities;
      planned_components = draft.planned;
      unresolved_requirements = deduplicate_preserve_order draft.unresolved;
      warnings = report.warnings;
      is_actionable = report.can_generate;
      build_ready = report.can_generate && not (is_filled draft.unresolved);
      policy_version = policy_version;
      is_preliminary = true;
      target_version = "";
      target_build = "";
      target_release_digest = "";
      stable_model_id = "";
      accepted_configuration_digest = "";
      hardware_content_digest = "";
    })
