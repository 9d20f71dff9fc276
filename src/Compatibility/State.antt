-- ===== src/Compatibility/State.antt =====
-- The states and the decisions of macloader/domain/compatibility.py.
use libre_core_mac_loader.Prelude.{String, ◌<>◌, Bool, true, false, List, []}

pub data CompatibilityState : Type 0 where
  supported conditional experimental blocked unknown : CompatibilityState

unfoldable pub is_usable : CompatibilityState → Bool
is_usable supported = true
is_usable conditional = true
is_usable experimental = true
is_usable blocked = false
is_usable unknown = false

-- The comparison with one state.
abbrev pub is_blocked : CompatibilityState → Bool
is_blocked supported = false
is_blocked conditional = false
is_blocked experimental = false
is_blocked blocked = true
is_blocked unknown = false

abbrev pub is_unknown : CompatibilityState → Bool
is_unknown supported = false
is_unknown conditional = false
is_unknown experimental = false
is_unknown blocked = false
is_unknown unknown = true

abbrev pub is_conditional : CompatibilityState → Bool
is_conditional supported = false
is_conditional conditional = true
is_conditional experimental = false
is_conditional blocked = false
is_conditional unknown = false

-- SupportDecision
pub record SupportDecision : Type 0 where
  pub target : String
  pub state : CompatibilityState
  pub reason : String
  pub evidence : String
  pub required_actions : List String
  pub known_limitations : List String

-- ComponentCompatibilityResult
pub record ComponentResult : Type 0 where
  pub category : String
  pub component_id : String
  pub component_name : String
  pub decision : SupportDecision

-- `_unknown_result` and `_blocked_result`
abbrev plain_decision : String → CompatibilityState → String → SupportDecision
plain_decision target state reason = record {
  target = target;
  state = state;
  reason = reason;
  evidence = "";
  required_actions = [];
  known_limitations = [];
}

unfoldable pub unknown_result : String → String → String → String → ComponentResult
unknown_result category component_id name reason = record {
  category = category;
  component_id = component_id;
  component_name = name;
  decision = plain_decision ("component:" <> component_id) unknown reason;
}

unfoldable pub blocked_result : String → String → String → String → ComponentResult
blocked_result category component_id name reason = record {
  category = category;
  component_id = component_id;
  component_name = name;
  decision = plain_decision ("component:" <> component_id) blocked reason;
}
