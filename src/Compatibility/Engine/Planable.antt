-- ===== src/Compatibility/Engine/Planable.antt =====
-- What has to hold for a report of macloader/compatibility/engine.py to allow a build plan.
use libre_core_mac_loader.Prelude.{
  String, ◌≡◌, refl, sym, subst, ◌⊎◌, inl, inr, Bool, true, false, some, List, [], ◌∷◌, ◌++◌, All,
  All-append, arith, Bool-cases,
}
use libre_core_mac_loader.Compatibility.State.{is_usable, unknown_result, ComponentResult}
use libre_core_mac_loader.Compatibility.Matcher.{Model, matched}
use libre_core_mac_loader.Compatibility.Matcher.Decision.{decision_of}
use libre_core_mac_loader.Compatibility.Registry.{MacosProfile, Database}
use libre_core_mac_loader.Compatibility.Hardware.{HardwareSnapshot}
use libre_core_mac_loader.Compatibility.Components.{is_filled}
use libre_core_mac_loader.Compatibility.Engine.Evaluate.{
  Report, report_of, refused_report, evaluate_devices, add_policy_notes, has_category, add_required,
  is_complete, inventory_check, inventory_results, required_result, all_findings, model_policy,
  evaluate,
}
use libre_core_mac_loader.Compatibility.Engine.Severity.{Usable, can_generate-Usable}
use libre_core_mac_loader.Compatibility.Engine.Coverage.{AllCovered, evaluate_devices-AllCovered}
use libre_core_mac_loader.Compatibility.Engine.Reported.{Reported, os_key, evaluate-cases}
use libre_core_mac_loader.Compatibility.Engine.Basic.{
  SupportedCpu, CoveredGpu, evaluate_devices-basic,
}
use libre_core_mac_loader.Compatibility.Engine.Categories.{
  has_category-append_nil, add_policy_notes-nil,
}

-- The category has an entry in the results.
abbrev pub Present : List ComponentResult → String → Type 0
Present results category = has_category category results ≡ true

Present-append :
    (results more : List ComponentResult) (category : String)
    → Present results category
    → Present (results ++ more) category
unfolding has_category
Present-append [] more category h = cc
Present-append (r ∷ results) more category h = ground (arith, Present-append results more category)

required_result-ne-Usable : (category : String) → Usable (required_result category) → ⊥
unfolding is_usable unknown_result
required_result-ne-Usable category h = cc

-- No required category was missing, since the result that would be added is not usable.
add_required-Usable :
    (categories : List String) (results : List ComponentResult)
    → All Usable (add_required categories results)
    → All Usable results × All (Present results) categories
unfolding add_required
add_required-Usable [] results h = (h, tt)
add_required-Usable (category ∷ categories) results h =
    elim (Bool-cases (has_category category results)) [
      | inl e ↦
          let (usable, present) =
            add_required-Usable categories results (subst (All Usable) (kept e) h) in
          (usable, (e, present))
      | inr e ↦
          let (usable, present) =
            add_required-Usable categories (results ++ required_result category ∷ [])
              (subst (All Usable) (added e) h) in
          absurd (
            required_result-ne-Usable category
              (All-append Usable results (required_result category ∷ []) usable).1.0)
    ]
  where
    kept :
        has_category category results ≡ true
        → add_required (category ∷ categories) results ≡ add_required categories results
    kept e = rw (e, add_required) refl

    added :
        has_category category results ≡ false
        → add_required (category ∷ categories) results
          ≡ add_required categories (results ++ required_result category ∷ [])
    added e = rw (e, add_required) refl

-- One of these classes of devices, if it has no entry, was confirmed to be complete.
abbrev Confirmed {ℓ} : {A : Type ℓ} → List (String × Bool) → String → List A → Type 0
Confirmed status category items = (is_filled items ≡ true) ⊎ (is_complete status category ≡ true)

pub record AllConfirmed (s : HardwareSnapshot) : Type 0 where
  pub audio : Confirmed s.inventory_status "audio" s.audio
  pub ethernet : Confirmed s.inventory_status "ethernet" s.ethernet
  pub wifi : Confirmed s.inventory_status "wifi" s.wifi
  pub bluetooth : Confirmed s.inventory_status "bluetooth" s.bluetooth
  pub storage : Confirmed s.inventory_status "storage" s.storage
  pub input : Confirmed s.inventory_status "input" s.input_devices

inventory_check-Confirmed {ℓ} :
    {A : Type ℓ} (status : List (String × Bool)) (category : String) (items : List A)
    → All Usable (inventory_check status category items)
    → Confirmed status category items
unfolding is_usable unknown_result
inventory_check-Confirmed status category items h = elim (Bool-cases (is_filled items)) [
  | inl filled ↦ inl filled
  | inr e ↦ elim (Bool-cases (is_complete status category)) [
    | inl complete ↦ inr complete
    | inr f ↦ absurd (ground arith)
  ]
]

inventory_results-AllConfirmed :
    (s : HardwareSnapshot) → All Usable (inventory_results s) → AllConfirmed s
unfolding inventory_results
inventory_results-AllConfirmed s h =
    let (audio, h) = All-append Usable _ _ h in
    let (ethernet, h) = All-append Usable _ _ h in
    let (wifi, h) = All-append Usable _ _ h in
    let (bluetooth, h) = All-append Usable _ _ h in
    let (storage, input) = All-append Usable _ _ h in
    record {
      audio = inventory_check-Confirmed s.inventory_status "audio" s.audio audio;
      ethernet = inventory_check-Confirmed s.inventory_status "ethernet" s.ethernet ethernet;
      wifi = inventory_check-Confirmed s.inventory_status "wifi" s.wifi wifi;
      bluetooth = inventory_check-Confirmed s.inventory_status "bluetooth" s.bluetooth bluetooth;
      storage = inventory_check-Confirmed s.inventory_status "storage" s.storage storage;
      input = inventory_check-Confirmed s.inventory_status "input" s.input_devices input;
    }

-- What a report that allows a build plan rests on.
pub record Planable (db : Database) (s : HardwareSnapshot) (target : String) (report : Report)
    : Type 0 where
  pub reported : Reported db s target report
  pub model_usable : is_usable (model_policy reported.model (os_key target)) ≡ true
  pub macos_usable : is_usable reported.macos.status ≡ true
  pub all_usable : All Usable report.component_results
  pub cpu : SupportedCpu reported.model s.cpu
  pub igpu : CoveredGpu db.components (os_key target) s.igpu
  pub covered : AllCovered db.components (os_key target) s
  pub confirmed : AllConfirmed s

module _ (db : Database) (key : String) (macos : MacosProfile) (model : Model)
    (s : HardwareSnapshot) where
  all_findings-Usable :
      All Usable (all_findings db key macos model s).results
      → SupportedCpu model s.cpu
        × CoveredGpu db.components key s.igpu
        × AllCovered db.components key s
        × AllConfirmed s
  unfolding all_findings
  all_findings-Usable h =
      let devices = evaluate_devices db key macos model s in
      let notes = add_policy_notes db.components key devices.results in
      let no_results = add_policy_notes-nil db.components key devices.results in
      let (listed, inventory) = All-append Usable _ (inventory_results s) h in
      let (usable, (cpu, (graphics, _))) =
        add_required-Usable ("cpu" ∷ "graphics" ∷ []) (devices.results ++ notes.results) listed in
      let (usable_cpu, usable_igpu, covered) =
        evaluate_devices-AllCovered db key macos model s
          (All-append Usable devices.results notes.results usable).0 in
      let (supported, shown) =
        evaluate_devices-basic db key macos model s (unnoted "cpu" cpu)
          (unnoted "graphics" graphics) usable_cpu usable_igpu in
      (supported, shown, covered, inventory_results-AllConfirmed s inventory)
    where
      unnoted :
          (category : String)
          → Present
              ((evaluate_devices db key macos model s).results
                ++ (add_policy_notes db.components key
                    (evaluate_devices db key macos model s).results).results)
              category
          → Present (evaluate_devices db key macos model s).results category
      unnoted category present =
          subst (λ b. b ≡ true)
            (has_category-append_nil category (evaluate_devices db key macos model s).results _ (
              add_policy_notes-nil db.components key
                (evaluate_devices db key macos model s).results))
            present

report_of-Usable :
    (db : Database) (s : HardwareSnapshot) (target : String) (report : Report)
    (given : Reported db s target report)
    → report.can_generate ≡ true
    → (is_usable (model_policy given.model (os_key target)) ≡ true)
      × (is_usable given.macos.status ≡ true)
      × All Usable (all_findings db (os_key target) given.macos given.model s).results
unfolding report_of
report_of-Usable db s target report given ready =
    let found = all_findings db (os_key target) given.macos given.model s in
    let (policy, status, _, all) =
      (can_generate-Usable (model_policy given.model (os_key target)) given.macos.status
          (decision_of s.machine (matched given.model given.label)).state found.results).0
        (subst (λ r. r.can_generate ≡ true) given.is_made ready) in
    (policy, status, all)

-- A report that allows a build plan rests on: a matched model and a listed macOS version, both with a
-- usable status; results that are all usable; an Intel processor of a generation that the model
-- lists; integrated graphics, and every discrete GPU, audio, Ethernet, Wi-Fi, Bluetooth, storage and
-- input device of the snapshot, matched with a component whose policy for that version is usable;
-- and, for each of audio, Ethernet, Wi-Fi, Bluetooth, storage and input without a device, an
-- inventory confirmed to be complete.
pub evaluate-Planable :
    (db : Database) (s : HardwareSnapshot) (target : String) (report : Report)
    → evaluate db s target ≡ some report
    → report.can_generate ≡ true
    → Planable db s target report
unfolding report_of refused_report
evaluate-Planable db s target report h ready = elim (evaluate-cases db s target report h) [
  | inl given ↦
      let (model_usable, macos_usable, all) = report_of-Usable db s target report given ready in
      let (cpu, igpu, covered, confirmed) =
        all_findings-Usable db (os_key target) given.macos given.model s all in
      record {
        reported = given;
        model_usable = model_usable;
        macos_usable = macos_usable;
        all_usable = subst (λ r. All Usable r.component_results) (sym given.is_made) all;
        cpu = cpu;
        igpu = igpu;
        covered = covered;
        confirmed = confirmed;
      }
  | inr (why, f, made) ↦
      absurd (refused_report-ne-ready (subst (λ r. r.can_generate ≡ true) made ready))
]
  where
    refused_report-ne-ready : false ≡ true → ⊥
    refused_report-ne-ready e = cc
