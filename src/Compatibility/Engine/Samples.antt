-- ===== src/Compatibility/Engine/Samples.antt =====
-- A laptop whose devices are all covered.
use libre_core_mac_loader.Prelude.{
  String, ◌≡◌, refl, ◌↔◌, ◌⊎◌, true, false, ◌&&◌, ◌||◌, Option, none, some, List, [], ◌∷◌,
  string_eq, contains, ◌==◌, list_beq,
}
use libre_core_mac_loader.Prelude.Text.{lower, strip, mentions, is_space, decimal, of_codes}
use libre_core_mac_loader.Compatibility.State.{conditional, experimental, is_usable, unknown_result}
use libre_core_mac_loader.Compatibility.Registry.{
  Policy, Rules, Component, MacosProfile, Database, find, get_component, get_components_by_category,
  get_macos,
}
use libre_core_mac_loader.Compatibility.Hardware.{PciDevice, HardwareSnapshot, pci_id}
use libre_core_mac_loader.Compatibility.Matcher.Samples.{registry, laptop, t480s}
use libre_core_mac_loader.Compatibility.Components.{
  match_component_by_pci, match_component_by_usb, match_input_component, accepts_input,
  mentions_any,
}
use libre_core_mac_loader.Compatibility.Matcher
use libre_core_mac_loader.Compatibility.Matcher.{
  Refusal, matched, refused, machine_type, match_model, choose, with_machine,
  get_model_by_machine_type, product_matches, names_match, product_alias_matches, extends,
  normalize_alias, has_id,
}
use libre_core_mac_loader.Compatibility.Matcher.Decision.{
  decision_of, matched_decision, evidence_label, or_unknown, product_or_unknown,
}
use libre_core_mac_loader.Compatibility.Engine.Findings.{
  covered, for_each, component_result, deduplicate, deduplicate_preserve_order,
}
use libre_core_mac_loader.Compatibility.Engine.Devices.{
  is_supported_generation, evaluate_cpu, pci_policy, evaluate_igpu, evaluate_dgpu, codec_policy,
  evaluate_audio, evaluate_ethernet, evaluate_wifi, usb_policy, evaluate_bluetooth, storage_policy,
  evaluate_storage, input_policy, evaluate_input,
}
use libre_core_mac_loader.Compatibility.Engine.Overall.{
  scan, overall_state, can_generate_build_plan,
}
use libre_core_mac_loader.Compatibility.Engine.Evaluate.{
  Report, evaluate_devices, add_policy_notes, has_category, add_required, inventory_results,
  all_findings, model_policy, report_of, evaluate,
}
use libre_core_mac_loader.Compatibility.Engine.Draft.{has_igpu, draft_of, generate_build_plan}
use libre_core_mac_loader.Compatibility.Engine.Severity.{worse, worst, restriction}
use libre_core_mac_loader.Compatibility.Engine.Reported.{Reported, os_key, evaluate-worst}
use libre_core_mac_loader.Compatibility.Engine.Planable.{Planable, evaluate-Planable}
use libre_core_mac_loader.Compatibility.Engine.Distinct.{
  Distinct, deduplicate_preserve_order-Distinct,
}
use libre_core_mac_loader.Compatibility.Engine.Capabilities.{any_asked}
use libre_core_mac_loader.Compatibility.Engine.Requested.{
  draft_of-asked, any_defers, generate_build_plan-ready,
}

abbrev policy_ok : Policy
policy_ok = record {
  state = experimental;
  reason = "Reported to work";
  required_actions = [];
  known_limitations = [];
  unresolved_requirements = [];
}

abbrev rules_of : List String → List String → Rules
rules_of pci_ids kinds = record {
  pci_ids = pci_ids;
  usb_ids = [];
  kinds = kinds;
  buses = [];
  codec_ids = [];
  codec_names = [];
  device_classes = [];
  model_patterns = [];
}

abbrev component : String → String → List String → List String → Component
component id category pci_ids kinds = record {
  id = id;
  category = category;
  rules = rules_of pci_ids kinds;
  macos_policies = ("sequoia", policy_ok) ∷ [];
}

abbrev pub db : Database
db = record {
  models = registry;
  components =
      component "intel-uhd-620" "graphics" ("8086:5917" ∷ []) []
      ∷ component "intel-i219" "ethernet" ("8086:15d8" ∷ []) []
      ∷ component "thinkpad-trackpad-trackpoint" "input" [] ("trackpad" ∷ [])
      ∷ [];
  macos_profiles =
      ("sequoia", record { version_name = "macOS Sequoia"; status = conditional }) ∷ [];
}

abbrev pci : String → Option PciDevice
pci device_id = some (record { vendor_id = "8086"; device_id = device_id; device_class = none })

abbrev pub snapshot : HardwareSnapshot
snapshot = record {
  snapshot_id = "sample";
  machine = laptop "20l7" "ThinkPad T480s";
  cpu = some (record {
    model_name = "Intel Core i5-8250U";
    vendor = some "GenuineIntel";
    cores = 4;
    threads = 8;
    generation = some "Kaby Lake Refresh";
  });
  igpu = some (record { name = "UHD Graphics 620"; pci = pci "5917" });
  dgpus = [];
  audio = [];
  ethernet = record { name = "I219-V"; pci = pci "15d8"; usb = none } ∷ [];
  wifi = [];
  bluetooth = [];
  storage = [];
  input_devices = record { name = "TrackPoint"; bus = "ps2"; kind = "Trackpad" } ∷ [];
  inventory_status =
      ("audio", true) ∷ ("wifi", true) ∷ ("bluetooth", true) ∷ ("storage", true) ∷ [];
}

abbrev macos : MacosProfile
macos = record { version_name = "macOS Sequoia"; status = conditional }

abbrev pub report : Report
report =
    report_of snapshot "sequoia" macos t480s
      (decision_of snapshot.machine (matched t480s machine_type))
      (all_findings db "sequoia" macos t480s snapshot)

evaluated : evaluate db snapshot "Sequoia " ≡ some report
unfolding evaluate report_of all_findings evaluate_devices add_policy_notes add_required
    has_category inventory_results model_policy decision_of matched_decision evidence_label
    or_unknown product_or_unknown of_codes evaluate_cpu evaluate_igpu evaluate_dgpu evaluate_audio
    evaluate_ethernet evaluate_wifi evaluate_bluetooth evaluate_storage evaluate_input
    is_supported_generation pci_policy codec_policy usb_policy storage_policy input_policy covered
    for_each component_result unknown_result deduplicate_preserve_order deduplicate contains find
    get_component get_components_by_category get_macos match_component_by_pci match_component_by_usb
    match_input_component accepts_input pci_id scan overall_state can_generate_build_plan is_usable
    lower strip is_space mentions decimal match_model choose with_machine get_model_by_machine_type
    product_matches names_match product_alias_matches extends normalize_alias Matcher.strip
    Matcher.lstrip Matcher.rstrip Matcher.upper has_id list_beq mentions_any
evaluated = refl

planable : report.can_generate ≡ true
unfolding evaluate report_of all_findings evaluate_devices add_policy_notes add_required
    has_category inventory_results model_policy decision_of matched_decision evidence_label
    or_unknown product_or_unknown of_codes evaluate_cpu evaluate_igpu evaluate_dgpu evaluate_audio
    evaluate_ethernet evaluate_wifi evaluate_bluetooth evaluate_storage evaluate_input
    is_supported_generation pci_policy codec_policy usb_policy storage_policy input_policy covered
    for_each component_result unknown_result deduplicate_preserve_order deduplicate contains find
    get_component get_components_by_category get_macos match_component_by_pci match_component_by_usb
    match_input_component accepts_input pci_id scan overall_state can_generate_build_plan is_usable
    lower strip is_space mentions decimal match_model choose with_machine get_model_by_machine_type
    product_matches names_match product_alias_matches extends normalize_alias Matcher.strip
    Matcher.lstrip Matcher.rstrip Matcher.upper has_id list_beq mentions_any
planable = refl

evaluate-Planable_example : Planable db snapshot "Sequoia " report
evaluate-Planable_example = evaluate-Planable db snapshot "Sequoia " report evaluated planable

evaluate-worst_example :
    ((given : Reported db snapshot "Sequoia " report) × (report.overall
        ≡ worse
            (worse (model_policy given.model (os_key "Sequoia ")) (restriction given.macos.status))
            (worst report.component_results)))
    ⊎ ((why : Refusal) × (match_model snapshot.machine db.models ≡ refused why)
        × (is_usable report.overall ≡ false)
        × (report.can_generate ≡ false))
evaluate-worst_example = evaluate-worst db snapshot "Sequoia " report evaluated

abbrev repeated : List String
repeated = "Audio" ∷ "Wi-Fi" ∷ "Audio" ∷ []

deduplicated : deduplicate_preserve_order repeated ≡ "Audio" ∷ "Wi-Fi" ∷ []
unfolding deduplicate_preserve_order deduplicate contains
deduplicated = refl

deduplicate_preserve_order-Distinct_example :
    Distinct (deduplicate_preserve_order repeated)
    × ((a : String) → contains (deduplicate_preserve_order repeated) a ≡ contains repeated a)
deduplicate_preserve_order-Distinct_example = deduplicate_preserve_order-Distinct repeated

draft_of-asked_example :
    Distinct (draft_of report).capabilities
    × ((a : String)
        → contains (draft_of report).capabilities a ≡ (
            (has_igpu report.component_results && a == "accelerated_intel_uhd_620")
            || any_asked report.component_results a))
draft_of-asked_example = draft_of-asked report

generate_build_plan-ready_example :
    ((generate_build_plan "1" report).is_actionable ≡ report.can_generate)
    × (((generate_build_plan "1" report).build_ready ≡ true) ↔ (
        (report.can_generate ≡ true)
        × (report.unresolved_requirements ≡ [])
        × (has_igpu report.component_results ≡ false)
        × (any_defers report.target_macos report.component_results ≡ false)))
generate_build_plan-ready_example =
    generate_build_plan-ready db snapshot "Sequoia " "1" report evaluated
