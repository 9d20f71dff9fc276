-- ===== src/Compatibility/Engine/Findings.antt =====
-- What the sections of CompatibilityEngine.evaluate collect, in macloader/compatibility/engine.py,
-- and `_deduplicate_preserve_order`.
use libre_core_mac_loader.Prelude.{
  String, ◌<>◌, Option, none, some, List, [], ◌∷◌, ◌++◌, string_eq, contains, if◌then◌else◌,
}
use libre_core_mac_loader.Compatibility.State.{ComponentResult}
use libre_core_mac_loader.Compatibility.Registry.{Policy, Component, find}

-- component_results, warnings and unresolved_requirements, to which every section appends.
pub record Findings : Type 0 where
  pub results : List ComponentResult
  pub warnings : List String
  pub unresolved : List String

abbrev pub no_findings : Findings
no_findings = record { results = []; warnings = []; unresolved = [] }

infixl 40 ◌then_also◌
abbrev pub ◌then_also◌ : Findings → Findings → Findings
f then_also g = record {
  results = f.results ++ g.results;
  warnings = f.warnings ++ g.warnings;
  unresolved = f.unresolved ++ g.unresolved;
}

abbrev pub only : ComponentResult → Findings
only r = record { results = r ∷ []; warnings = []; unresolved = [] }

abbrev pub with_warnings : ComponentResult → List String → Findings
with_warnings r warnings = record { results = r ∷ []; warnings = warnings; unresolved = [] }

-- A loop over the devices of one kind.
unfoldable pub for_each {ℓ} : {A : Type ℓ} → (A → Findings) → List A → Findings
for_each f [] = no_findings
for_each f (a ∷ l) = f a then_also for_each f l

-- `comp and os_key in comp.macos_policies`, with the component and its policy.
unfoldable pub covered : String → Option Component → Option (Component × Policy)
unfolding find
covered os_key none = none
covered os_key (some c) = elim (find os_key c.macos_policies) [
  | none ↦ none
  | some policy ↦ some (c, policy)
]

-- `_component_result`
unfoldable pub component_result : String → Component → String → Policy → String → ComponentResult
component_result category comp name policy evidence = record {
  category = category;
  component_id = comp.id;
  component_name = name;
  decision = record {
    target = "component:" <> comp.id;
    state = policy.state;
    reason = policy.reason;
    evidence = evidence;
    required_actions = policy.required_actions;
    known_limitations = policy.known_limitations;
  };
}

-- `_deduplicate_preserve_order`, with the items that were seen as an argument.
unfoldable pub deduplicate : List String → List String → List String
deduplicate seen [] = []
deduplicate seen (item ∷ items) =
    let skipped = deduplicate seen items in
    let kept = deduplicate (item ∷ seen) items in
    if contains seen item then skipped else item ∷ kept

unfoldable pub deduplicate_preserve_order : List String → List String
unfolding deduplicate
deduplicate_preserve_order items = deduplicate [] items
