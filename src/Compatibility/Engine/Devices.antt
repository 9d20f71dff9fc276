-- ===== src/Compatibility/Engine/Devices.antt =====
-- The sections of CompatibilityEngine.evaluate for each kind of device, in
-- macloader/compatibility/engine.py.
use libre_core_mac_loader.Prelude.{
  String, ◌<>◌, Bool, false, not, ◌&&◌, ◌||◌, Option, none, some, List, [], ◌∷◌, ◌==◌, string_eq,
  contains, if◌then◌else◌,
}
use libre_core_mac_loader.Prelude.Text.{lower, upper, strip, mentions, decimal}
use libre_core_mac_loader.Compatibility.State.{
  experimental, unknown, ComponentResult, unknown_result, blocked_result,
}
use libre_core_mac_loader.Compatibility.Matcher.{Model}
use libre_core_mac_loader.Compatibility.Registry.{
  Policy, Component, MacosProfile, get_component, get_components_by_category,
}
use libre_core_mac_loader.Compatibility.Hardware.{
  PciDevice, UsbDevice, pci_id, usb_id, CpuInfo, GpuInfo, AudioInfo, NetworkInfo, StorageInfo,
  InputDeviceInfo,
}
use libre_core_mac_loader.Compatibility.Components.{
  is_text, match_component_by_pci, match_component_by_usb, match_input_component,
  match_component_by_codec, mentions_any, match_storage,
}
use libre_core_mac_loader.Compatibility.Engine.Findings.{
  Findings, no_findings, only, with_warnings, covered, component_result,
}

abbrev pub pci_of : Option PciDevice → Option String
pci_of none = none
pci_of (some d) = some (pci_id d)

abbrev usb_of : Option UsbDevice → Option String
usb_of none = none
usb_of (some d) = some (usb_id d)

abbrev shown_id : Option String → String
shown_id none = "None"
shown_id (some id) = id

abbrev pub or_blank : Option String → String
or_blank none = ""
or_blank (some s) = s

abbrev lowered : List String → List String
lowered [] = []
lowered (s ∷ l) = lower s ∷ lowered l

-- CPU: `is_supported_gen`
unfoldable pub is_supported_generation : CpuInfo → String → List String → Bool
unfolding mentions_any lower strip contains
is_supported_generation cpu generation supported_generations =
    contains ("genuineintel" ∷ "intel" ∷ []) (lower (strip (or_blank cpu.vendor)))
    && (contains supported_generations generation
        || mentions_any (lower cpu.model_name) (lowered supported_generations))

abbrev cpu_result : MacosProfile → Model → CpuInfo → String → ComponentResult
cpu_result macos model cpu generation = record {
  category = "cpu";
  component_id = "intel-core-processor";
  component_name = cpu.model_name;
  decision = record {
    target = "cpu:intel";
    state =
        if is_supported_generation cpu generation model.cpu_generations
        then experimental
        else unknown;
    reason =
        "Intel Core processor ("
        <> decimal cpu.cores
        <> "C/"
        <> decimal cpu.threads
        <> "T) evaluated against "
        <> macos.version_name
        <> ".";
    evidence = "Model: " <> cpu.model_name <> ", Gen: " <> generation;
    required_actions = [];
    known_limitations = [];
  };
}

unfoldable pub evaluate_cpu : MacosProfile → Model → Option CpuInfo → Findings
evaluate_cpu macos model none = no_findings
evaluate_cpu macos model (some cpu) =
    if is_text (or_blank cpu.generation)
    then only (cpu_result macos model cpu (or_blank cpu.generation))
    else only (
        unknown_result "cpu" "cpu" cpu.model_name
          "CPU generation is missing from hardware evidence.")

module _ (comps : List Component) (os_key : String) where
  -- The component that a PCI identity of a category is matched with, if its policy covers the
  -- macOS version; and so for the other kinds of evidence.
  unfoldable pub pci_policy : String → Option PciDevice → Option (Component × Policy)
  unfolding covered match_component_by_pci get_components_by_category
  pci_policy category pci =
      covered os_key
        (match_component_by_pci (pci_of pci) (get_components_by_category category comps))

  unfoldable pub evaluate_igpu : Option GpuInfo → Findings
  unfolding pci_policy
  evaluate_igpu none = no_findings
  evaluate_igpu (some gpu) = elim (pci_policy "graphics" gpu.pci) [
    | none ↦ no_findings
    | some (comp, policy) ↦
        only (
          component_result "graphics" comp gpu.name policy
            ("PCI ID: " <> shown_id (pci_of gpu.pci)))
  ]

  unfoldable pub evaluate_dgpu : Model → GpuInfo → Findings
  unfolding pci_policy
  evaluate_dgpu model gpu = elim (pci_policy "graphics" gpu.pci) [
    | none ↦ only (
        unknown_result "graphics_dgpu" "unknown-dgpu" gpu.name
          "Discrete GPU identity is not covered by a verified policy.")
    | some (comp, policy) ↦
        if comp.id == "nvidia-geforce-mx150" && not model.has_mx150_option
        then only (
            blocked_result "graphics_dgpu" comp.id gpu.name
              "This model policy does not declare an MX150 option; refusing to plan for the detected discrete GPU.")
        else with_warnings
            (component_result "graphics_dgpu" comp gpu.name policy
              ("PCI ID: " <> shown_id (pci_of gpu.pci)))
            (("Discrete GPU detected ("
                <> gpu.name
                <> " ["
                <> shown_id (pci_of gpu.pci)
                <> "]). Will require disabling via ACPI in future EFI BuildPlan.")
              ∷ [])
  ]

  abbrev codec_id : AudioInfo → Option String
  codec_id audio =
      if is_text (or_blank audio.codec_vendor_id) && is_text (or_blank audio.codec_device_id)
      then some (or_blank audio.codec_vendor_id <> ":" <> or_blank audio.codec_device_id)
      else pci_of audio.pci

  unfoldable pub codec_policy : AudioInfo → Option (Component × Policy)
  unfolding covered match_component_by_codec get_components_by_category
  codec_policy audio = covered os_key (
      match_component_by_codec (codec_id audio) audio.codec_name
        (get_components_by_category "audio" comps))

  unfoldable pub evaluate_audio : AudioInfo → Findings
  unfolding codec_policy
  evaluate_audio audio = elim (codec_policy audio) [
    | none ↦ only (
        unknown_result "audio" "unknown-audio" audio.name
          "Audio codec/controller identity is not covered by a verified policy.")
    | some (comp, policy) ↦
        with_warnings
          (component_result "audio" comp audio.name policy (
            "Codec/Device: "
            <> (if is_text (or_blank audio.codec_name)
                then or_blank audio.codec_name
                else audio.name)))
          policy.known_limitations
  ]

  unfoldable pub evaluate_ethernet : NetworkInfo → Findings
  unfolding pci_policy
  evaluate_ethernet eth = elim (pci_policy "ethernet" eth.pci) [
    | none ↦ only (
        unknown_result "ethernet" "unknown-ethernet" eth.name
          "Ethernet adapter identity is not covered by a verified policy.")
    | some (comp, policy) ↦
        only (
          component_result "ethernet" comp eth.name policy
            ("PCI ID: " <> shown_id (pci_of eth.pci)))
  ]

  unfoldable pub evaluate_wifi : NetworkInfo → Findings
  unfolding pci_policy
  evaluate_wifi wifi = elim (pci_policy "wifi" wifi.pci) [
    | none ↦ only (
        unknown_result "wifi" "unknown-wifi" wifi.name
          "Wi-Fi adapter identity is not covered by a verified policy.")
    | some (comp, policy) ↦
        with_warnings
          (component_result "wifi" comp wifi.name policy ("PCI ID: " <> shown_id (pci_of wifi.pci)))
          policy.known_limitations
  ]

  unfoldable pub usb_policy : NetworkInfo → Option (Component × Policy)
  unfolding covered match_component_by_usb get_components_by_category
  usb_policy bt =
      covered os_key
        (match_component_by_usb (usb_of bt.usb) (get_components_by_category "bluetooth" comps))

  unfoldable pub evaluate_bluetooth : NetworkInfo → Findings
  unfolding usb_policy
  evaluate_bluetooth bt = elim (usb_policy bt) [
    | none ↦ only (
        unknown_result "bluetooth" "unknown-bluetooth" bt.name
          "Bluetooth controller identity is not covered by a verified policy.")
    | some (comp, policy) ↦
        only (
          component_result "bluetooth" comp bt.name policy ("USB ID: " <> shown_id (usb_of bt.usb)))
  ]

  -- `is_pm981`
  abbrev is_pm981_id : Option PciDevice → Bool
  is_pm981_id none = false
  is_pm981_id (some d) = contains ("144d:a808" ∷ "144d:a809" ∷ []) (pci_id d)

  unfoldable pub is_pm981 : StorageInfo → Bool
  unfolding contains upper
  is_pm981 st = mentions (upper st.model) "PM981" || is_pm981_id st.pci

  unfoldable pub storage_policy : StorageInfo → Option (Component × Policy)
  unfolding covered is_pm981 get_component match_storage get_components_by_category
  storage_policy st = covered os_key (
      if is_pm981 st
      then get_component "samsung-pm981" comps
      else match_storage st (get_components_by_category "storage" comps))

  unfoldable pub evaluate_storage : StorageInfo → Findings
  unfolding storage_policy
  evaluate_storage st = elim (storage_policy st) [
    | none ↦ only (
        unknown_result "storage" "unknown-storage" st.model
          "Storage device identity is not covered by a verified policy.")
    | some (comp, policy) ↦
        with_warnings (component_result "storage" comp st.model policy ("Model: " <> st.model))
          policy.known_limitations
  ]

  unfoldable pub input_policy : InputDeviceInfo → Option (Component × Policy)
  unfolding covered match_input_component get_components_by_category
  input_policy inp =
      covered os_key (match_input_component inp (get_components_by_category "input" comps))

  unfoldable pub evaluate_input : InputDeviceInfo → Findings
  unfolding input_policy
  evaluate_input inp = elim (input_policy inp) [
    | none ↦ only (
        unknown_result "input" ("unknown-input-" <> inp.kind) inp.name
          "Input device identity is not covered by a verified policy.")
    | some (comp, policy) ↦ record {
      results = component_result "input" comp inp.name policy ("Device: " <> inp.name) ∷ [];
      warnings = policy.known_limitations;
      unresolved = policy.unresolved_requirements;
    }
  ]
