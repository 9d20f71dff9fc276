-- ===== src/Compatibility/Engine/Basic.antt =====
-- The sections for the processor and the integrated graphics of macloader/compatibility/engine.py.
use libre_core_mac_loader.Prelude.{
  String, ◌≡◌, refl, inl, inr, true, false, Option, none, some, List, string_eq, arith, Bool-cases,
  Option-cases, All,
}
use libre_core_mac_loader.Compatibility.State.{is_usable, unknown_result}
use libre_core_mac_loader.Compatibility.Matcher.{Model}
use libre_core_mac_loader.Compatibility.Registry.{Component, MacosProfile, Database}
use libre_core_mac_loader.Compatibility.Hardware.{CpuInfo, GpuInfo, HardwareSnapshot}
use libre_core_mac_loader.Compatibility.Components.{is_text}
use libre_core_mac_loader.Compatibility.Engine.Findings.{component_result}
use libre_core_mac_loader.Compatibility.Engine.Devices.{
  or_blank, is_supported_generation, evaluate_cpu, pci_policy, evaluate_igpu,
}
use libre_core_mac_loader.Compatibility.Engine.Evaluate.{evaluate_devices, has_category}
use libre_core_mac_loader.Compatibility.Engine.Severity.{Usable}
use libre_core_mac_loader.Compatibility.Engine.Coverage.{Covered}
use libre_core_mac_loader.Compatibility.Engine.Categories.{evaluate_devices-category}

-- A processor of a generation that the model's policy lists.
abbrev pub SupportedCpu : Model → Option CpuInfo → Type 0
SupportedCpu model found =
    (cpu : CpuInfo) × (found ≡ some cpu)
    × (is_supported_generation cpu (or_blank cpu.generation) model.cpu_generations ≡ true)

-- Graphics that a usable policy covers.
abbrev pub CoveredGpu : List Component → String → Option GpuInfo → Type 0
CoveredGpu comps os_key found =
    (gpu : GpuInfo) × (found ≡ some gpu) × Covered (pci_policy comps os_key "graphics" gpu.pci)

module _ (macos : MacosProfile) (model : Model) where
  cpu-SupportedCpu :
      (found : Option CpuInfo)
      → has_category "cpu" (evaluate_cpu macos model found).results ≡ true
      → All Usable (evaluate_cpu macos model found).results
      → SupportedCpu model found
  unfolding evaluate_cpu is_usable unknown_result has_category
  cpu-SupportedCpu none present h = cc
  cpu-SupportedCpu (some cpu) present h = (cpu, refl, ground arith)

  cpu-graphics :
      (found : Option CpuInfo)
      → has_category "graphics" (evaluate_cpu macos model found).results ≡ false
  unfolding evaluate_cpu has_category unknown_result
  cpu-graphics none = refl
  cpu-graphics (some cpu) = elim (Bool-cases (is_text (or_blank cpu.generation))) [
    | inl e ↦ rw (evaluate_cpu, e) refl
    | inr e ↦ rw (evaluate_cpu, e) refl
  ]

module _ (comps : List Component) (os_key : String) where
  igpu-CoveredGpu :
      (found : Option GpuInfo)
      → has_category "graphics" (evaluate_igpu comps os_key found).results ≡ true
      → All Usable (evaluate_igpu comps os_key found).results
      → CoveredGpu comps os_key found
  unfolding evaluate_igpu is_usable has_category component_result
  igpu-CoveredGpu none present h = cc
  igpu-CoveredGpu (some gpu) present h =
      elim (Option-cases (pci_policy comps os_key "graphics" gpu.pci)) [
        | inl e ↦ absurd (ground arith)
        | inr ((comp, policy), e) ↦ (gpu, refl, (comp, policy, e, ground arith))
      ]

  igpu-cpu :
      (found : Option GpuInfo)
      → has_category "cpu" (evaluate_igpu comps os_key found).results ≡ false
  unfolding evaluate_igpu has_category component_result
  igpu-cpu none = refl
  igpu-cpu (some gpu) = elim (Option-cases (pci_policy comps os_key "graphics" gpu.pci)) [
    | inl e ↦ rw (evaluate_igpu, e) refl
    | inr ((comp, policy), e) ↦ rw (evaluate_igpu, e) refl
  ]

-- The two results that are required come from the two sections.
pub evaluate_devices-basic :
    (db : Database) (os_key : String) (macos : MacosProfile) (model : Model) (s : HardwareSnapshot)
    → has_category "cpu" (evaluate_devices db os_key macos model s).results ≡ true
    → has_category "graphics" (evaluate_devices db os_key macos model s).results ≡ true
    → All Usable (evaluate_cpu macos model s.cpu).results
    → All Usable (evaluate_igpu db.components os_key s.igpu).results
    → SupportedCpu model s.cpu × CoveredGpu db.components os_key s.igpu
evaluate_devices-basic db os_key macos model s cpu graphics usable_cpu usable_igpu =
    let from_cpu =
      evaluate_devices-category "cpu" db os_key macos model s refl refl refl refl refl refl refl
        cpu in
    let from_igpu =
      evaluate_devices-category "graphics" db os_key macos model s refl refl refl refl refl refl
        refl graphics in
    (
      cpu-SupportedCpu macos model s.cpu
          (ground (arith, from_cpu, igpu-cpu db.components os_key s.igpu)) usable_cpu,
      igpu-CoveredGpu db.components os_key s.igpu
          (ground (arith, from_igpu, cpu-graphics macos model s.cpu)) usable_igpu,
    )
