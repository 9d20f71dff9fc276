-- ===== src/Compatibility/Engine/Categories.antt =====
-- The categories of the results of macloader/compatibility/engine.py: the entries for the processor and
-- the graphics come from the sections for these two.
use libre_core_mac_loader.Prelude.{
  String, ◌≡◌, refl, sym, ap, inl, inr, true, false, not, ◌&&◌, ◌||◌, ◌∙◌, List, [], ◌∷◌, ◌++◌,
  ◌==◌, string_eq, arith, Bool-cases, Option-cases,
}
use libre_core_mac_loader.Compatibility.State.{ComponentResult, unknown_result, blocked_result}
use libre_core_mac_loader.Compatibility.Matcher.{Model}
use libre_core_mac_loader.Compatibility.Registry.{Component, MacosProfile, Database, get_component}
use libre_core_mac_loader.Compatibility.Hardware.{
  GpuInfo, AudioInfo, NetworkInfo, StorageInfo, InputDeviceInfo, HardwareSnapshot,
}
use libre_core_mac_loader.Compatibility.Engine.Findings.{
  Findings, covered, for_each, component_result,
}
use libre_core_mac_loader.Compatibility.Engine.Devices.{
  evaluate_cpu, pci_policy, evaluate_igpu, evaluate_dgpu, codec_policy, evaluate_audio,
  evaluate_ethernet, evaluate_wifi, usb_policy, evaluate_bluetooth, storage_policy,
  evaluate_storage, input_policy, evaluate_input,
}
use libre_core_mac_loader.Compatibility.Engine.Evaluate.{
  evaluate_devices, add_policy_notes, has_category,
}

abbrev Lacks : String → Findings → Type 0
Lacks category f = has_category category f.results ≡ false

has_category-append :
    (category : String) (xs ys : List ComponentResult)
    → has_category category (xs ++ ys) ≡ (has_category category xs || has_category category ys)
unfolding has_category
has_category-append category [] ys = refl
has_category-append category (r ∷ xs) ys = ground (arith, has_category-append category xs ys)

pub has_category-append_nil :
    (category : String) (xs ys : List ComponentResult)
    → ys ≡ []
    → has_category category (xs ++ ys) ≡ has_category category xs
unfolding has_category
has_category-append_nil category xs ys e =
    let blank : has_category category ys ≡ false = ap (has_category category) e in
    ground (arith, has_category-append category xs ys)

for_each-Lacks {ℓ} :
    {A : Type ℓ} (category : String) (f : A → Findings)
    → ((a : A) → Lacks category (f a))
    → (l : List A) → Lacks category (for_each f l)
unfolding for_each has_category
for_each-Lacks category f step [] = refl
for_each-Lacks category f step (a ∷ l) = ground (
  arith,
  step a,
  for_each-Lacks category f step l,
  has_category-append category (f a).results (for_each f l).results,
)

pub add_policy_notes-nil :
    (comps : List Component) (os_key : String) (results : List ComponentResult)
    → (add_policy_notes comps os_key results).results ≡ []
unfolding add_policy_notes
add_policy_notes-nil comps os_key [] = refl
add_policy_notes-nil comps os_key (r ∷ results) =
    let rest = add_policy_notes-nil comps os_key results in
    elim (Option-cases (covered os_key (get_component r.component_id comps))) [
      | inl e ↦ rw (e, rest) refl
      | inr ((comp, policy), e) ↦ rw (e, rest) refl
    ]

-- Which of the two categories the other sections add to: neither.
module _ (comps : List Component) (os_key category : String) where
  audio-category :
      (d : AudioInfo)
      → ("audio" == category) ≡ false
      → Lacks category (evaluate_audio comps os_key d)
  unfolding evaluate_audio has_category component_result unknown_result
  audio-category d h = elim (Option-cases (codec_policy comps os_key d)) [
    | inl e ↦ rw (e, evaluate_audio, h) refl
    | inr ((comp, policy), e) ↦ rw (e, evaluate_audio, h) refl
  ]

  ethernet-category :
      (d : NetworkInfo)
      → ("ethernet" == category) ≡ false
      → Lacks category (evaluate_ethernet comps os_key d)
  unfolding evaluate_ethernet has_category component_result unknown_result
  ethernet-category d h = elim (Option-cases (pci_policy comps os_key "ethernet" d.pci)) [
    | inl e ↦ rw (e, evaluate_ethernet, h) refl
    | inr ((comp, policy), e) ↦ rw (e, evaluate_ethernet, h) refl
  ]

  wifi-category :
      (d : NetworkInfo)
      → ("wifi" == category) ≡ false
      → Lacks category (evaluate_wifi comps os_key d)
  unfolding evaluate_wifi has_category component_result unknown_result
  wifi-category d h = elim (Option-cases (pci_policy comps os_key "wifi" d.pci)) [
    | inl e ↦ rw (e, evaluate_wifi, h) refl
    | inr ((comp, policy), e) ↦ rw (e, evaluate_wifi, h) refl
  ]

  bluetooth-category :
      (d : NetworkInfo)
      → ("bluetooth" == category) ≡ false
      → Lacks category (evaluate_bluetooth comps os_key d)
  unfolding evaluate_bluetooth has_category component_result unknown_result
  bluetooth-category d h = elim (Option-cases (usb_policy comps os_key d)) [
    | inl e ↦ rw (e, evaluate_bluetooth, h) refl
    | inr ((comp, policy), e) ↦ rw (e, evaluate_bluetooth, h) refl
  ]

  storage-category :
      (d : StorageInfo)
      → ("storage" == category) ≡ false
      → Lacks category (evaluate_storage comps os_key d)
  unfolding evaluate_storage has_category component_result unknown_result
  storage-category d h = elim (Option-cases (storage_policy comps os_key d)) [
    | inl e ↦ rw (e, evaluate_storage, h) refl
    | inr ((comp, policy), e) ↦ rw (e, evaluate_storage, h) refl
  ]

  input-category :
      (d : InputDeviceInfo)
      → ("input" == category) ≡ false
      → Lacks category (evaluate_input comps os_key d)
  unfolding evaluate_input has_category component_result unknown_result
  input-category d h = elim (Option-cases (input_policy comps os_key d)) [
    | inl e ↦ rw (e, evaluate_input, h) refl
    | inr ((comp, policy), e) ↦ rw (e, evaluate_input, h) refl
  ]

  dgpu-category :
      (model : Model) (d : GpuInfo)
      → ("graphics_dgpu" == category) ≡ false
      → Lacks category (evaluate_dgpu comps os_key model d)
  unfolding evaluate_dgpu has_category component_result unknown_result blocked_result
  dgpu-category model d h = elim (Option-cases (pci_policy comps os_key "graphics" d.pci)) [
    | inl e ↦ rw (e, evaluate_dgpu, h) refl
    | inr ((comp, policy), e) ↦
        elim (Bool-cases (comp.id == "nvidia-geforce-mx150" && not model.has_mx150_option)) [
          | inl f ↦ rw (e, evaluate_dgpu, f, h) refl
          | inr f ↦ rw (e, evaluate_dgpu, f, h) refl
        ]
  ]

-- What is left of the entries of a category that only the sections for the processor and the
-- graphics have.
pub evaluate_devices-category :
    (category : String) (db : Database) (os_key : String) (macos : MacosProfile) (model : Model)
    (s : HardwareSnapshot)
    → ("graphics_dgpu" == category) ≡ false
    → ("audio" == category) ≡ false
    → ("ethernet" == category) ≡ false
    → ("wifi" == category) ≡ false
    → ("bluetooth" == category) ≡ false
    → ("storage" == category) ≡ false
    → ("input" == category) ≡ false
    → has_category category (evaluate_devices db os_key macos model s).results ≡ true
    → (has_category category (evaluate_cpu macos model s.cpu).results
        || has_category category (evaluate_igpu db.components os_key s.igpu).results)
      ≡ true
unfolding evaluate_devices
evaluate_devices-category category db os_key macos model s dgpu audio ethernet wifi bluetooth
      storage input h =
    let comps = db.components in
    let h =
      drop _ _
        (for_each-Lacks category _ (λ d. input-category comps os_key category d input)
          s.input_devices)
        h in
    let h =
      drop _ _
        (for_each-Lacks category _ (λ d. storage-category comps os_key category d storage)
          s.storage)
        h in
    let h =
      drop _ _
        (for_each-Lacks category _ (λ d. bluetooth-category comps os_key category d bluetooth)
          s.bluetooth)
        h in
    let h =
      drop _ _ (for_each-Lacks category _ (λ d. wifi-category comps os_key category d wifi) s.wifi)
        h in
    let h =
      drop _ _
        (for_each-Lacks category _ (λ d. ethernet-category comps os_key category d ethernet)
          s.ethernet)
        h in
    let h =
      drop _ _
        (for_each-Lacks category _ (λ d. audio-category comps os_key category d audio) s.audio) h in
    let h =
      drop _ _
        (for_each-Lacks category _ (λ d. dgpu-category comps os_key category model d dgpu) s.dgpus)
        h in
    sym (has_category-append category _ _) ∙ h
  where
    drop :
        (xs ys : List ComponentResult)
        → has_category category ys ≡ false
        → has_category category (xs ++ ys) ≡ true
        → has_category category xs ≡ true
    drop xs ys lacks h = ground (arith, has_category-append category xs ys)
