-- ===== src/Compatibility/Engine/Overall.antt =====
-- The overall state that CompatibilityEngine.evaluate of macloader/compatibility/engine.py computes
-- from the model policy, the macOS version and the results.
use libre_core_mac_loader.Prelude.{Bool, true, false, not, ◌&&◌, ◌||◌, List, [], ◌∷◌, if◌then◌else◌}
use libre_core_mac_loader.Compatibility.State.{
  CompatibilityState, supported, conditional, experimental, blocked, unknown, is_usable, is_blocked,
  is_unknown, is_conditional, ComponentResult,
}

-- has_blocked, has_conditional and has_unknown
pub record Flags : Type 0 where
  pub has_blocked : Bool
  pub has_conditional : Bool
  pub has_unknown : Bool

-- The loop over the results, which breaks at the first that is blocked.
unfoldable pub scan : Flags → List ComponentResult → Flags
scan flags [] = flags
scan flags (res ∷ rest) = elim res.decision.state [
  | blocked ↦ record flags { has_blocked = true }
  | conditional ↦ scan (record flags { has_conditional = true }) rest
  | unknown ↦ scan (record flags { has_unknown = true }) rest
  | supported ↦ scan flags rest
  | experimental ↦ scan flags rest
]

-- The flags before the loop.
abbrev pub first_flags : CompatibilityState → CompatibilityState → Flags
first_flags model_policy_state macos_status = record {
  has_blocked = is_blocked model_policy_state || is_blocked macos_status;
  has_conditional = false;
  has_unknown = is_unknown model_policy_state || is_unknown macos_status;
}

abbrev demoted : CompatibilityState → CompatibilityState
demoted supported = experimental
demoted conditional = conditional
demoted experimental = experimental
demoted blocked = blocked
demoted unknown = unknown

unfoldable pub overall_state : CompatibilityState → Flags → CompatibilityState
overall_state model_policy_state flags =
    if flags.has_blocked
    then blocked
    else if flags.has_unknown
    then unknown
    else if flags.has_conditional || is_conditional model_policy_state
    then conditional
    else demoted model_policy_state

unfoldable pub can_generate_build_plan :
    CompatibilityState → Flags → CompatibilityState → CompatibilityState → Bool
unfolding overall_state is_usable
can_generate_build_plan model_policy_state flags decision_state macos_status =
    is_usable (overall_state model_policy_state flags)
    && not flags.has_unknown
    && not flags.has_blocked
    && not (is_unknown decision_state)
    && is_usable macos_status
