-- ===== src/Compatibility/Engine/Coverage.antt =====
-- What a report of macloader/compatibility/engine.py that allows a build plan says of the devices.
use libre_core_mac_loader.Prelude.{
  String, ◌≡◌, inl, inr, true, Option, some, List, [], ◌∷◌, All, All-append, arith, Option-cases,
}
use libre_core_mac_loader.Compatibility.State.{is_usable, unknown_result, blocked_result}
use libre_core_mac_loader.Compatibility.Matcher.{Model}
use libre_core_mac_loader.Compatibility.Registry.{Policy, Component, MacosProfile, Database}
use libre_core_mac_loader.Compatibility.Hardware.{
  GpuInfo, AudioInfo, NetworkInfo, StorageInfo, InputDeviceInfo, HardwareSnapshot,
}
use libre_core_mac_loader.Compatibility.Engine.Findings.{Findings, for_each, component_result}
use libre_core_mac_loader.Compatibility.Engine.Devices.{
  evaluate_cpu, pci_policy, evaluate_igpu, evaluate_dgpu, codec_policy, evaluate_audio,
  evaluate_ethernet, evaluate_wifi, usb_policy, evaluate_bluetooth, storage_policy,
  evaluate_storage, input_policy, evaluate_input,
}
use libre_core_mac_loader.Compatibility.Engine.Evaluate.{evaluate_devices}
use libre_core_mac_loader.Compatibility.Engine.Severity.{Usable}

-- A policy of the registry covers the device, and it is usable.
abbrev pub Covered : Option (Component × Policy) → Type 0
Covered found =
    (comp : Component) × (policy : Policy) × (found ≡ some (comp, policy))
    × (is_usable policy.state ≡ true)

abbrev AllUsable : Findings → Type 0
AllUsable f = All Usable f.results

for_each-Usable {ℓ} :
    {A : Type ℓ} (f : A → Findings) (l : List A)
    → AllUsable (for_each f l)
    → All (λ a. AllUsable (f a)) l
unfolding for_each
for_each-Usable f [] h = tt
for_each-Usable f (a ∷ l) h =
    let (here, others) = All-append Usable (f a).results (for_each f l).results h in
    (here, for_each-Usable f l others)

All-map {ℓ κ μ} :
    {A : Type ℓ} (P : A → Type κ) (Q : A → Type μ)
    → ((a : A) → P a → Q a)
    → (l : List A) → All P l
    → All Q l
All-map P Q f [] h = tt
All-map P Q f (a ∷ l) (here, others) = (f a here, All-map P Q f l others)

module _ (comps : List Component) (os_key : String) where
  dgpu-Covered :
      (model : Model) (d : GpuInfo)
      → AllUsable (evaluate_dgpu comps os_key model d)
      → Covered (pci_policy comps os_key "graphics" d.pci)
  unfolding evaluate_dgpu is_usable unknown_result component_result blocked_result
  dgpu-Covered model d h = elim (Option-cases (pci_policy comps os_key "graphics" d.pci)) [
    | inl e ↦ absurd (ground arith)
    | inr ((comp, policy), e) ↦ (comp, policy, e, ground arith)
  ]

  audio-Covered :
      (d : AudioInfo)
      → AllUsable (evaluate_audio comps os_key d)
      → Covered (codec_policy comps os_key d)
  unfolding evaluate_audio is_usable unknown_result component_result
  audio-Covered d h = elim (Option-cases (codec_policy comps os_key d)) [
    | inl e ↦ absurd (ground arith)
    | inr ((comp, policy), e) ↦ (comp, policy, e, ground arith)
  ]

  ethernet-Covered :
      (d : NetworkInfo)
      → AllUsable (evaluate_ethernet comps os_key d)
      → Covered (pci_policy comps os_key "ethernet" d.pci)
  unfolding evaluate_ethernet is_usable unknown_result component_result
  ethernet-Covered d h = elim (Option-cases (pci_policy comps os_key "ethernet" d.pci)) [
    | inl e ↦ absurd (ground arith)
    | inr ((comp, policy), e) ↦ (comp, policy, e, ground arith)
  ]

  wifi-Covered :
      (d : NetworkInfo)
      → AllUsable (evaluate_wifi comps os_key d)
      → Covered (pci_policy comps os_key "wifi" d.pci)
  unfolding evaluate_wifi is_usable unknown_result component_result
  wifi-Covered d h = elim (Option-cases (pci_policy comps os_key "wifi" d.pci)) [
    | inl e ↦ absurd (ground arith)
    | inr ((comp, policy), e) ↦ (comp, policy, e, ground arith)
  ]

  bluetooth-Covered :
      (d : NetworkInfo)
      → AllUsable (evaluate_bluetooth comps os_key d)
      → Covered (usb_policy comps os_key d)
  unfolding evaluate_bluetooth is_usable unknown_result component_result
  bluetooth-Covered d h = elim (Option-cases (usb_policy comps os_key d)) [
    | inl e ↦ absurd (ground arith)
    | inr ((comp, policy), e) ↦ (comp, policy, e, ground arith)
  ]

  storage-Covered :
      (d : StorageInfo)
      → AllUsable (evaluate_storage comps os_key d)
      → Covered (storage_policy comps os_key d)
  unfolding evaluate_storage is_usable unknown_result component_result
  storage-Covered d h = elim (Option-cases (storage_policy comps os_key d)) [
    | inl e ↦ absurd (ground arith)
    | inr ((comp, policy), e) ↦ (comp, policy, e, ground arith)
  ]

  input-Covered :
      (d : InputDeviceInfo)
      → AllUsable (evaluate_input comps os_key d)
      → Covered (input_policy comps os_key d)
  unfolding evaluate_input is_usable unknown_result component_result
  input-Covered d h = elim (Option-cases (input_policy comps os_key d)) [
    | inl e ↦ absurd (ground arith)
    | inr ((comp, policy), e) ↦ (comp, policy, e, ground arith)
  ]

-- Every device of the snapshot is covered.
pub record AllCovered (comps : List Component) (os_key : String) (s : HardwareSnapshot)
    : Type 0 where
  pub dgpus : All (λ d. Covered (pci_policy comps os_key "graphics" d.pci)) s.dgpus
  pub audio : All (λ d. Covered (codec_policy comps os_key d)) s.audio
  pub ethernet : All (λ d. Covered (pci_policy comps os_key "ethernet" d.pci)) s.ethernet
  pub wifi : All (λ d. Covered (pci_policy comps os_key "wifi" d.pci)) s.wifi
  pub bluetooth : All (λ d. Covered (usb_policy comps os_key d)) s.bluetooth
  pub storage : All (λ d. Covered (storage_policy comps os_key d)) s.storage
  pub input : All (λ d. Covered (input_policy comps os_key d)) s.input_devices

All-Covered {ℓ} :
    {A : Type ℓ} (f : A → Findings) (found : A → Option (Component × Policy))
    → ((a : A) → AllUsable (f a) → Covered (found a))
    → (l : List A) → AllUsable (for_each f l)
    → All (λ a. Covered (found a)) l
All-Covered f found step l h =
    All-map (λ a. AllUsable (f a)) (λ a. Covered (found a)) step l (for_each-Usable f l h)

pub evaluate_devices-AllCovered :
    (db : Database) (os_key : String) (macos : MacosProfile) (model : Model) (s : HardwareSnapshot)
    → AllUsable (evaluate_devices db os_key macos model s)
    → All Usable (evaluate_cpu macos model s.cpu).results
      × All Usable (evaluate_igpu db.components os_key s.igpu).results
      × AllCovered db.components os_key s
unfolding evaluate_devices
evaluate_devices-AllCovered db os_key macos model s h =
    let (h, input) = All-append Usable _ _ h in
    let (h, storage) = All-append Usable _ _ h in
    let (h, bluetooth) = All-append Usable _ _ h in
    let (h, wifi) = All-append Usable _ _ h in
    let (h, ethernet) = All-append Usable _ _ h in
    let (h, audio) = All-append Usable _ _ h in
    let (h, dgpus) = All-append Usable _ _ h in
    let (cpu, igpu) = All-append Usable _ _ h in
    let comps = db.components in
    (
      cpu,
      igpu,
      record {
        dgpus =
            All-Covered (evaluate_dgpu comps os_key model) _ (dgpu-Covered comps os_key model)
              s.dgpus dgpus;
        audio =
            All-Covered (evaluate_audio comps os_key) _ (audio-Covered comps os_key) s.audio audio;
        ethernet =
            All-Covered (evaluate_ethernet comps os_key) _ (ethernet-Covered comps os_key)
              s.ethernet ethernet;
        wifi = All-Covered (evaluate_wifi comps os_key) _ (wifi-Covered comps os_key) s.wifi wifi;
        bluetooth =
            All-Covered (evaluate_bluetooth comps os_key) _ (bluetooth-Covered comps os_key)
              s.bluetooth bluetooth;
        storage =
            All-Covered (evaluate_storage comps os_key) _ (storage-Covered comps os_key) s.storage
              storage;
        input =
            All-Covered (evaluate_input comps os_key) _ (input-Covered comps os_key) s.input_devices
              input;
      },
    )
