-- ===== src/Compatibility/Matcher/Decision.antt =====
-- The SupportDecision that match_model of macloader/compatibility/model_matcher.py returns beside
-- the model.
use libre_core_mac_loader.Prelude.{String, ◌<>◌, Option, none, some, [], ◌∷◌}
use libre_core_mac_loader.Prelude.Text.{of_codes}
use libre_core_mac_loader.Compatibility.State.{
  CompatibilityState, experimental, blocked, unknown, SupportDecision,
}
use libre_core_mac_loader.Compatibility.Matcher.{
  Text, Model, Snapshot, Refusal, unsupported_manufacturer, unknown_machine_type, contradictory,
  conflicting, ambiguous, unsupported_model, Label, machine_type, product_string, Match, matched,
  refused, upper, clean,
}

-- A field in an f-string, and `value or "Unknown"`.
unfoldable pub shown : Option Text → String
unfolding of_codes
shown none = "None"
shown (some s) = of_codes s

unfoldable pub or_unknown : Option Text → String
unfolding of_codes
or_unknown none = "Unknown"
or_unknown (some []) = "Unknown"
or_unknown (some (c ∷ s)) = of_codes (c ∷ s)

-- `snapshot.product_name or snapshot.product_version or "Unknown"`
unfoldable pub product_or_unknown : Option Text → Option Text → String
unfolding or_unknown of_codes
product_or_unknown (some (c ∷ s)) version = of_codes (c ∷ s)
product_or_unknown (some []) version = or_unknown version
product_or_unknown none version = or_unknown version

abbrev made : String → CompatibilityState → String → String → SupportDecision
made target state reason evidence = record {
  target = target;
  state = state;
  reason = reason;
  evidence = evidence;
  required_actions = [];
  known_limitations = [];
}

unfoldable pub detected_desc : Snapshot → String
unfolding shown or_unknown
detected_desc s =
    shown s.product_name
    <> " ("
    <> or_unknown s.product_version
    <> ") [MT: "
    <> or_unknown s.machine_type
    <> "]"

unfoldable pub identity : Snapshot → String
unfolding of_codes
identity s =
    "Product Name: "
    <> of_codes (clean s.product_name)
    <> ", Product Version: "
    <> of_codes (clean s.product_version)

unfoldable pub full_identity : Snapshot → String
unfolding of_codes identity
full_identity s = "Machine Type: " <> of_codes (upper (clean s.machine_type)) <> ", " <> identity s

unfoldable pub refusal_decision : Snapshot → Refusal → SupportDecision
unfolding shown or_unknown detected_desc identity full_identity of_codes
refusal_decision s unsupported_manufacturer =
    made "system:model" blocked
      ("Unsupported manufacturer '"
        <> or_unknown s.manufacturer
        <> "'. MacLoader currently only supports Lenovo ThinkPads.")
      ("Manufacturer: " <> shown s.manufacturer <> ", Product: " <> shown s.product_name)
refusal_decision s unknown_machine_type =
    made "system:model" unknown
      ("Machine type '"
        <> of_codes (upper (clean s.machine_type))
        <> "' is not in the supported model registry; refusing to infer a policy from names alone.")
      (full_identity s)
refusal_decision s contradictory =
    made "system:model" unknown
      "Contradictory machine-type and product-string evidence; refusing to choose a model policy."
      (full_identity s)
refusal_decision s conflicting =
    made "system:model" unknown
      "Machine-type evidence conflicts with the supplied product identity; refusing to choose a model policy."
      (full_identity s)
refusal_decision s ambiguous =
    made "system:model" unknown
      "Product evidence matches multiple supported model policies; refusing an ambiguous match."
      (identity s)
refusal_decision s unsupported_model =
    made "system:model" blocked
      ("Unsupported Lenovo ThinkPad model: "
        <> detected_desc s
        <> ". MacLoader v0.1 supports only ThinkPad T480 and T480s.")
      ("Detected: " <> detected_desc s)

unfoldable pub evidence_label : Snapshot → Label → String
unfolding of_codes
evidence_label s machine_type = "machine type '" <> of_codes (upper (clean s.machine_type)) <> "'"
evidence_label s product_string = "product string"

-- `_matched_decision`
unfoldable pub matched_decision : Model → Label → Snapshot → SupportDecision
unfolding evidence_label or_unknown product_or_unknown
matched_decision m label s =
    made ("model:" <> m.id) experimental
      ("Matched supported model '" <> m.display_name <> "' by " <> evidence_label s label <> ".")
      ("Machine Type: "
        <> or_unknown s.machine_type
        <> ", Product: "
        <> product_or_unknown s.product_name s.product_version)

unfoldable pub decision_of : Snapshot → Match → SupportDecision
unfolding matched_decision refusal_decision
decision_of s (matched m label) = matched_decision m label s
decision_of s (refused r) = refusal_decision s r
