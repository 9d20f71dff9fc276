-- ===== src/Compatibility/Engine/Reported.antt =====
-- The two shapes of the report of CompatibilityEngine.evaluate, in macloader/compatibility/engine.py.
use libre_core_mac_loader.Prelude.{
  String, ◌≡◌, refl, sym, ap, subst, ◌∙◌, ◌⊎◌, inl, inr, false, some, arith, Option-cases,
}
use libre_core_mac_loader.Prelude.Text.{lower, strip}
use libre_core_mac_loader.Compatibility.State.{is_usable, SupportDecision}
use libre_core_mac_loader.Compatibility.Matcher.{
  Model, Label, Refusal, Match, matched, refused, match_model,
}
use libre_core_mac_loader.Compatibility.Matcher.Decision.{decision_of, matched_decision}
use libre_core_mac_loader.Compatibility.Registry.{MacosProfile, Database, get_macos}
use libre_core_mac_loader.Compatibility.Hardware.{HardwareSnapshot}
use libre_core_mac_loader.Compatibility.Engine.Evaluate.{
  Report, report_of, refused_report, all_findings, model_policy, evaluate,
}
use libre_core_mac_loader.Compatibility.Engine.Severity.{
  worse, worst, restriction, overall_state-worst, can_generate-usable,
}

-- The target's name in the registry.
abbrev pub os_key : String → String
os_key target_macos = lower (strip target_macos)

-- What the report was made from.
pub record Reported (db : Database) (s : HardwareSnapshot) (target : String) (report : Report)
    : Type 0 where
  pub model : Model
  pub label : Label
  pub macos : MacosProfile
  pub is_matched : match_model s.machine db.models ≡ matched model label
  pub is_listed : get_macos db (os_key target) ≡ some macos
  pub is_made :
      report
      ≡ report_of s
          (os_key target)
          macos
          model
          (decision_of s.machine (matched model label))
          (all_findings db (os_key target) macos model s)

Match-cases :
    (m : Match)
    → ((model : Model) × (label : Label) × (m ≡ matched model label))
      ⊎ ((why : Refusal) × (m ≡ refused why))
Match-cases (matched model label) = inl (model, label, refl)
Match-cases (refused why) = inr (why, refl)

pub evaluate-cases :
    (db : Database) (s : HardwareSnapshot) (target : String) (report : Report)
    → evaluate db s target ≡ some report
    → Reported db s target report
      ⊎ ((why : Refusal) × (match_model s.machine db.models ≡ refused why)
          × (report ≡ refused_report s (os_key target) (decision_of s.machine (refused why))))
unfolding evaluate
evaluate-cases db s target report h = elim (Option-cases (get_macos db (os_key target))) [
  | inl e ↦ absurd (ground arith)
  | inr (macos, e) ↦ elim (Match-cases (match_model s.machine db.models)) [
    | inl (model, label, f) ↦ inl (record {
      model = model;
      label = label;
      macos = macos;
      is_matched = f;
      is_listed = e;
      is_made = ground arith;
    })
    | inr (why, f) ↦ inr (why, f, ground arith)
  ]
]

Reported-worst :
    (db : Database) (s : HardwareSnapshot) (target : String) (report : Report)
    → (given : Reported db s target report)
    → report.overall
      ≡ worse
          (worse (model_policy given.model (os_key target)) (restriction given.macos.status))
          (worst report.component_results)
unfolding report_of
Reported-worst db s target report given =
    let same = given.is_made in
    let found = all_findings db (os_key target) given.macos given.model s in
    ap (λ r. r.overall) same
    ∙ overall_state-worst (model_policy given.model (os_key target)) given.macos.status
        found.results
    ∙ ap
        (λ r.
          worse (worse (model_policy given.model (os_key target)) (restriction given.macos.status))
            (worst r.component_results))
        (sym same)

refused_report-unusable :
    (s : HardwareSnapshot) (key : String) (decision : SupportDecision)
    → (is_usable (refused_report s key decision).overall ≡ false)
      × ((refused_report s key decision).can_generate ≡ false)
unfolding refused_report is_usable
refused_report-unusable s key decision = (ground arith, refl)

-- The overall state of a report is the worst of the model's policy for the macOS version, the
-- restriction that the version makes (blocked or unknown) and the states of all the results, in
-- whatever order they come and although the loop stops at the first that is blocked; "supported"
-- counts as "experimental". Without a matched model the state is not usable and no build plan is
-- allowed.
pub evaluate-worst :
    (db : Database) (s : HardwareSnapshot) (target : String) (report : Report)
    → evaluate db s target ≡ some report
    → ((given : Reported db s target report) × (report.overall
          ≡ worse
              (worse (model_policy given.model (os_key target)) (restriction given.macos.status))
              (worst report.component_results)))
      ⊎ ((why : Refusal) × (match_model s.machine db.models ≡ refused why)
          × (is_usable report.overall ≡ false)
          × (report.can_generate ≡ false))
evaluate-worst db s target report h = elim (evaluate-cases db s target report h) [
  | inl given ↦ inl (given, Reported-worst db s target report given)
  | inr (why, f, made) ↦
      let (overall, plan) =
        refused_report-unusable s (os_key target) (decision_of s.machine (refused why)) in
      inr (
        why,
        f,
        subst (λ r. is_usable r.overall ≡ false) (sym made) overall,
        subst (λ r. r.can_generate ≡ false) (sym made) plan,
      )
]

refused_report-usable :
    (s : HardwareSnapshot) (key : String) (decision : SupportDecision)
    → is_usable (refused_report s key decision).overall
      ≡ (refused_report s key decision).can_generate
refused_report-usable s key decision =
    let (overall, plan) = refused_report-unusable s key decision in overall ∙ sym plan

-- Whether a plan is allowed can be read off the state.
pub evaluate-usable :
    (db : Database) (s : HardwareSnapshot) (target : String) (report : Report)
    → evaluate db s target ≡ some report
    → is_usable report.overall ≡ report.can_generate
unfolding report_of decision_of matched_decision
evaluate-usable db s target report h = elim (evaluate-cases db s target report h) [
  | inl given ↦
      subst (λ r. is_usable r.overall ≡ r.can_generate) (sym given.is_made)
        (can_generate-usable (model_policy given.model (os_key target)) given.macos.status
          (decision_of s.machine (matched given.model given.label)).state
          (all_findings db (os_key target) given.macos given.model s).results refl)
  | inr (why, f, made) ↦
      subst (λ r. is_usable r.overall ≡ r.can_generate) (sym made)
        (refused_report-usable s (os_key target) (decision_of s.machine (refused why)))
]
