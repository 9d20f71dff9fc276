-- ===== src/Compatibility/Engine/Requested.antt =====
-- What CompatibilityEngine.generate_build_plan of macloader/compatibility/engine.py plans, and when
-- the plan is ready to build.
use libre_core_mac_loader.Prelude.{
  String, ◌≡◌, refl, sym, ◌↔◌, inl, inr, Bool, true, false, ◌&&◌, ◌||◌, some, List, [], ◌∷◌, ◌++◌,
  ◌==◌, string_eq, contains, arith, Bool-cases, subst,
}
use libre_core_mac_loader.Compatibility.State.{ComponentResult}
use libre_core_mac_loader.Compatibility.Components.{is_filled}
use libre_core_mac_loader.Compatibility.Engine.Evaluate.{Report, evaluate}
use libre_core_mac_loader.Compatibility.Registry.{Database}
use libre_core_mac_loader.Compatibility.Hardware.{HardwareSnapshot}
use libre_core_mac_loader.Compatibility.Engine.Reported.{evaluate-usable}
use libre_core_mac_loader.Compatibility.Engine.Draft.{
  Draft, plan, known, has_igpu, plan_igpu, plan_dgpu, plan_audio, plan_ethernet, plan_wifi,
  plan_storage, plan_touchscreen, plan_trackpad, plan_bluetooth, plan_peripheral, plan_result,
  plan_results, first_draft, draft_of, post_init, generate_build_plan,
}
use libre_core_mac_loader.Compatibility.Engine.Distinct.{
  Distinct, deduplicate_preserve_order-is_filled,
}
use libre_core_mac_loader.Compatibility.Engine.Capabilities.{
  asked, any_asked, plan_result-asked, add_asked-Distinct, add_asked-contains,
}

plan_results-Distinct :
    (target : String) (results : List ComponentResult) (draft : Draft)
    → Distinct draft.capabilities
    → Distinct (plan_results target results draft).capabilities
unfolding plan_results
plan_results-Distinct target [] draft h = h
plan_results-Distinct target (cr ∷ results) draft h =
    plan_results-Distinct target results (plan_result target cr draft) (
      subst Distinct (sym (plan_result-asked cr draft target))
        (add_asked-Distinct (asked cr) draft.capabilities h))

plan_results-contains :
    (target : String) (results : List ComponentResult) (draft : Draft) (a : String)
    → contains (plan_results target results draft).capabilities a
      ≡ (contains draft.capabilities a || any_asked results a)
unfolding plan_results any_asked
plan_results-contains target [] draft a = ground arith
plan_results-contains target (cr ∷ results) draft a = ground (
  arith,
  plan_results-contains target results (plan_result target cr draft) a,
  add_asked-contains (asked cr) draft.capabilities a,
  plan_result-asked cr draft target,
)

-- The required capabilities of a build plan have no repetition, and a capability is among them
-- just when a result asks for it: by its category and component, unless its state is unknown, and
-- for the Intel graphics when these are recognised.
pub draft_of-asked :
    (report : Report)
    → Distinct (draft_of report).capabilities
      × ((a : String)
          → contains (draft_of report).capabilities a ≡ (
              (has_igpu report.component_results && a == "accelerated_intel_uhd_620")
              || any_asked report.component_results a))
unfolding draft_of plan_igpu plan contains
draft_of-asked report = elim (Bool-cases (has_igpu report.component_results)) [
  | inl e ↦ (
    rw (e) (plan_results-Distinct report.target_macos report.component_results _ (refl, tt)),
    λ a. rw (e) (
        ground (
          arith,
          plan_results-contains report.target_macos report.component_results
              (plan_igpu (first_draft report)) a,
        )),
  )
  | inr e ↦ (
    rw (e) (
        plan_results-Distinct report.target_macos report.component_results (first_draft report) tt),
    λ a.
        rw (e) (
          plan_results-contains report.target_macos report.component_results (first_draft report)
            a),
  )
]

-- Whether a result leaves work to a later version.
abbrev pub defers : String → ComponentResult → Bool
defers target cr =
    known cr && (cr.category == "audio" || (cr.category == "wifi" && target == "tahoe"))

unfoldable pub any_defers : String → List ComponentResult → Bool
any_defers target [] = false
any_defers target (cr ∷ results) = defers target cr || any_defers target results

is_filled-append : (xs ys : List String) → is_filled (xs ++ ys) ≡ (is_filled xs || is_filled ys)
is_filled-append [] ys = refl
is_filled-append (x ∷ xs) ys = refl

module _ (cr : ComponentResult) (draft : Draft) where
  plan_peripheral-unresolved :
      is_filled (plan_peripheral cr draft).unresolved ≡ is_filled draft.unresolved
  unfolding plan_peripheral plan_storage plan_touchscreen plan_trackpad plan_bluetooth plan
  plan_peripheral-unresolved = ground (arith, is_filled-append draft.unresolved [])

  plan_result-unresolved :
      (target : String)
      → is_filled (plan_result target cr draft).unresolved
        ≡ (is_filled draft.unresolved || defers target cr)
  unfolding plan_result plan_dgpu plan_audio plan_ethernet plan_wifi plan
  plan_result-unresolved target = ground (
    arith,
    plan_peripheral-unresolved,
    other "graphics_dgpu" "audio" refl,
    other "graphics_dgpu" "wifi" refl,
    other "ethernet" "audio" refl,
    other "ethernet" "wifi" refl,
    is_filled-append draft.unresolved [],
    is_filled-append draft.unresolved
        ("Tahoe audio workaround (AppleHDA absent) deferred to v0.0.5" ∷ []),
    is_filled-append draft.unresolved ("Audio layout-id selection deferred to v0.0.5" ∷ []),
    is_filled-append draft.unresolved
        ("Tahoe Intel wireless driver stack verification deferred to v0.0.5" ∷ []),
  )
    where
      other :
          (a b : String) → (a == b) ≡ false → (cr.category == a) ≡ true → (cr.category == b) ≡ false
      other a b differ e = rw ((string_eq.beq_iff cr.category a).0 e) differ

plan_results-unresolved :
    (target : String) (results : List ComponentResult) (draft : Draft)
    → is_filled (plan_results target results draft).unresolved
      ≡ (is_filled draft.unresolved || any_defers target results)
unfolding plan_results any_defers
plan_results-unresolved target [] draft = ground arith
plan_results-unresolved target (cr ∷ results) draft = ground (
  arith,
  plan_results-unresolved target results (plan_result target cr draft),
  plan_result-unresolved cr draft target,
)

plan_igpu-unresolved : (draft : Draft) → is_filled (plan_igpu draft).unresolved ≡ true
unfolding plan_igpu plan
plan_igpu-unresolved draft = ground (
  arith,
  is_filled-append draft.unresolved
      ("Exact framebuffer and device-id injection policy deferred to v0.0.5" ∷ []),
)

pub draft_of-unresolved :
    (report : Report)
    → is_filled (draft_of report).unresolved ≡ (
        is_filled report.unresolved_requirements
        || has_igpu report.component_results
        || any_defers report.target_macos report.component_results)
unfolding draft_of first_draft
draft_of-unresolved report = ground (
  arith,
  plan_igpu-unresolved (first_draft report),
  plan_results-unresolved report.target_macos report.component_results
      (plan_igpu (first_draft report)),
  plan_results-unresolved report.target_macos report.component_results (first_draft report),
)

is_filled-nil : (l : List String) → (is_filled l ≡ false) ↔ (l ≡ [])
is_filled-nil [] = (λ _. refl, λ _. refl)
is_filled-nil (a ∷ l) = (λ h. cc, λ h. cc)

-- The build plan for a report of the engine is actionable just when the report allows a plan,
-- although the plan derives this from the state alone; and it is ready just when moreover the
-- report has no unresolved requirement, the Intel UHD 620 graphics are not recognised, and no
-- recognised result is audio, or Wi-Fi for Tahoe.
pub generate_build_plan-ready :
    (db : Database) (s : HardwareSnapshot) (target policy_version : String) (report : Report)
    → evaluate db s target ≡ some report
    → ((generate_build_plan policy_version report).is_actionable ≡ report.can_generate)
      × (((generate_build_plan policy_version report).build_ready ≡ true) ↔ (
          (report.can_generate ≡ true)
          × (report.unresolved_requirements ≡ [])
          × (has_igpu report.component_results ≡ false)
          × (any_defers report.target_macos report.component_results ≡ false)))
unfolding generate_build_plan post_init
generate_build_plan-ready db s target policy_version report h =
    let usable = evaluate-usable db s target report h in
    let same = deduplicate_preserve_order-is_filled (draft_of report).unresolved in
    let filled = draft_of-unresolved report in
    let empty = is_filled-nil report.unresolved_requirements in
    (
      usable,
      (
        λ h. ground (arith, usable, same, filled, empty),
        λ h. ground (arith, usable, same, filled, empty),
      ),
    )
