-- ===== src/Compatibility/Engine/Evaluate.antt =====
-- CompatibilityEngine.evaluate of macloader/compatibility/engine.py.
use libre_core_mac_loader.Prelude.{
  String, ◌<>◌, Bool, false, not, ◌&&◌, ◌||◌, Option, none, some, List, [], ◌∷◌, ◌++◌, ◌==◌,
  string_eq, bool_eq, option_eq, if◌then◌else◌,
}
use libre_core_mac_loader.Prelude.Text.{lower, strip}
use libre_core_mac_loader.Compatibility.State.{
  CompatibilityState, blocked, unknown, is_unknown, SupportDecision, ComponentResult,
  unknown_result,
}
use libre_core_mac_loader.Compatibility.Matcher.{Model, Match, matched, refused, match_model}
use libre_core_mac_loader.Compatibility.Matcher.Decision.{or_unknown, decision_of}
use libre_core_mac_loader.Compatibility.Registry.{
  Policy, Component, MacosProfile, Database, find, get_component, get_macos,
}
use libre_core_mac_loader.Compatibility.Hardware.{HardwareSnapshot}
use libre_core_mac_loader.Compatibility.Components.{is_filled}
use libre_core_mac_loader.Compatibility.Engine.Findings.{
  Findings, no_findings, ◌then_also◌, for_each, covered, deduplicate_preserve_order,
}
use libre_core_mac_loader.Compatibility.Engine.Devices.{
  evaluate_cpu, evaluate_igpu, evaluate_dgpu, evaluate_audio, evaluate_ethernet, evaluate_wifi,
  evaluate_bluetooth, evaluate_storage, evaluate_input,
}
use libre_core_mac_loader.Compatibility.Engine.Overall.{
  scan, first_flags, overall_state, can_generate_build_plan,
}

-- CompatibilityReport, without the time
pub record Report : Type 0 where
  pub snapshot_id : String
  pub target_macos : String
  pub model_id : Option String
  pub model_name : String
  pub overall : CompatibilityState
  pub model_decision : SupportDecision
  pub component_results : List ComponentResult
  pub warnings : List String
  pub unresolved_requirements : List String
  pub can_generate : Bool

-- The sections for the devices, in the order of the code.
unfoldable pub evaluate_devices :
    Database → String → MacosProfile → Model → HardwareSnapshot → Findings
unfolding for_each
evaluate_devices db os_key macos model s =
    evaluate_cpu macos model s.cpu
    then_also evaluate_igpu db.components os_key s.igpu
    then_also for_each (evaluate_dgpu db.components os_key model) s.dgpus
    then_also for_each (evaluate_audio db.components os_key) s.audio
    then_also for_each (evaluate_ethernet db.components os_key) s.ethernet
    then_also for_each (evaluate_wifi db.components os_key) s.wifi
    then_also for_each (evaluate_bluetooth db.components os_key) s.bluetooth
    then_also for_each (evaluate_storage db.components os_key) s.storage
    then_also for_each (evaluate_input db.components os_key) s.input_devices

-- What the policies of the components named in the results add.
abbrev policy_notes : Option (Component × Policy) → Findings
policy_notes none = no_findings
policy_notes (some (comp, policy)) = record {
  results = [];
  warnings = policy.known_limitations;
  unresolved = policy.unresolved_requirements;
}

unfoldable pub add_policy_notes : List Component → String → List ComponentResult → Findings
unfolding covered get_component
add_policy_notes comps os_key [] = no_findings
add_policy_notes comps os_key (result ∷ results) =
    policy_notes (covered os_key (get_component result.component_id comps))
    then_also add_policy_notes comps os_key results

unfoldable pub has_category : String → List ComponentResult → Bool
has_category category [] = false
has_category category (r ∷ results) = r.category == category || has_category category results

-- The loop over `always_required_categories`
abbrev pub required_result : String → ComponentResult
required_result category =
    unknown_result category ("unknown-" <> category) "Unknown"
      "No verified matching hardware policy was found."

unfoldable pub add_required : List String → List ComponentResult → List ComponentResult
unfolding has_category
add_required [] results = results
add_required (category ∷ categories) results =
    let present = add_required categories results in
    let added = add_required categories (results ++ required_result category ∷ []) in
    if has_category category results then present else added

-- The loop over `inventory_fields`
abbrev pub inventory_result : String → ComponentResult
inventory_result category =
    unknown_result category ("unknown-" <> category <> "-inventory") "Unknown"
      "Inventory for this device class was not confirmed complete."

abbrev pub is_complete : List (String × Bool) → String → Bool
is_complete status category = elim (find category status) [ none ↦ false | some b ↦ b ]

abbrev pub inventory_check {ℓ} :
    {A : Type ℓ} → List (String × Bool) → String → List A → List ComponentResult
inventory_check status category items =
    if not (is_filled items) && not (is_complete status category)
    then inventory_result category ∷ []
    else []

unfoldable pub inventory_results : HardwareSnapshot → List ComponentResult
unfolding find
inventory_results s =
    inventory_check s.inventory_status "audio" s.audio
    ++ (inventory_check s.inventory_status "ethernet" s.ethernet
        ++ (inventory_check s.inventory_status "wifi" s.wifi
            ++ (inventory_check s.inventory_status "bluetooth" s.bluetooth
                ++ (inventory_check s.inventory_status "storage" s.storage
                    ++ inventory_check s.inventory_status "input" s.input_devices))))

-- Everything that is found for a model.
unfoldable pub all_findings : Database → String → MacosProfile → Model → HardwareSnapshot → Findings
unfolding evaluate_devices add_policy_notes
all_findings db os_key macos model s =
    let found = evaluate_devices db os_key macos model s in
    let noted = found then_also add_policy_notes db.components os_key found.results in
    record noted {
      results = add_required ("cpu" ∷ "graphics" ∷ []) noted.results ++ inventory_results s;
    }

-- `default_macos_status.get(os_key, UNKNOWN)`
unfoldable pub model_policy : Model → String → CompatibilityState
unfolding find
model_policy model os_key = elim (find os_key model.default_macos_status) [
  | none ↦ unknown
  | some state ↦ state
]

-- The report for a model, and the one without a model.
unfoldable pub report_of :
    HardwareSnapshot → String → MacosProfile → Model → SupportDecision → Findings → Report
unfolding scan overall_state deduplicate_preserve_order model_policy can_generate_build_plan
report_of s os_key macos model decision found =
    let policy_state = model_policy model os_key in
    let flags = scan (first_flags policy_state macos.status) found.results in
    record {
      snapshot_id = s.snapshot_id;
      target_macos = os_key;
      model_id = some model.id;
      model_name = model.display_name;
      overall = overall_state policy_state flags;
      model_decision = decision;
      component_results = found.results;
      warnings = deduplicate_preserve_order found.warnings;
      unresolved_requirements = deduplicate_preserve_order found.unresolved;
      can_generate = can_generate_build_plan policy_state flags decision.state macos.status;
    }

unfoldable pub refused_report : HardwareSnapshot → String → SupportDecision → Report
unfolding deduplicate_preserve_order or_unknown
refused_report s os_key decision = record {
  snapshot_id = s.snapshot_id;
  target_macos = os_key;
  model_id = none;
  model_name = or_unknown s.machine.product_name;
  overall = if is_unknown decision.state then unknown else blocked;
  model_decision = decision;
  component_results = [];
  warnings = deduplicate_preserve_order (decision.reason ∷ []);
  unresolved_requirements = [];
  can_generate = false;
}

abbrev pub evaluate_match : Database → String → MacosProfile → HardwareSnapshot → Match → Report
evaluate_match db os_key macos s (matched model label) =
    report_of s os_key macos model (decision_of s.machine (matched model label))
      (all_findings db os_key macos model s)
evaluate_match db os_key macos s (refused why) =
    refused_report s os_key (decision_of s.machine (refused why))

-- The target that the database does not have raises UnsupportedMacOSError: none.
unfoldable pub evaluate : Database → HardwareSnapshot → String → Option Report
unfolding lower strip get_macos match_model decision_of report_of refused_report all_findings
evaluate db s target_macos =
    let os_key = lower (strip target_macos) in
    elim (get_macos db os_key) [
      | none ↦ none
      | some macos ↦ some (evaluate_match db os_key macos s (match_model s.machine db.models))
    ]
