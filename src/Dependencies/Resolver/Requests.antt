-- ===== src/Dependencies/Resolver/Requests.antt =====
-- The mapping of the capabilities of a build plan to dependencies, in DependencyResolver.resolve of
-- macloader/dependencies/resolver.py.
use libre_core_mac_loader.Prelude.{
  String, ◌<>◌, not, ◌||◌, List, [], ◌∷◌, ◌++◌, ◌==◌, string_eq, contains, if◌then◌else◌,
}

-- requested_specs: for each id the reason and what requires it, in the order of insertion.
abbrev pub Specs : Type 0
Specs = List (String × (String × String))

-- `requested_specs[dep_id] = (reason, required_by)`
unfoldable pub set_spec : String → String → String → Specs → Specs
set_spec dep_id reason by [] = (dep_id, (reason, by)) ∷ []
set_spec dep_id reason by ((k, (r, b)) ∷ specs) =
    if dep_id == k then (k, (reason, by)) ∷ specs else (k, (r, b)) ∷ set_spec dep_id reason by specs

-- requested_specs, unresolved and warnings
pub record Requests : Type 0 where
  pub specs : Specs
  pub unresolved : List String
  pub warnings : List String

unfoldable pub request : String → String → String → Requests → Requests
unfolding set_spec
request dep_id reason by q = record q { specs = set_spec dep_id reason by q.specs }

unfoldable pub leave_open : String → Requests → Requests
leave_open text q = record q { unresolved = q.unresolved ++ text ∷ [] }

unfoldable pub warn : String → Requests → Requests
warn text q = record q { warnings = q.warnings ++ text ∷ [] }

abbrev pub known_capabilities : List String
known_capabilities =
    "accelerated_intel_uhd_620" ∷ "alc257_audio" ∷ "intel_gigabit_ethernet"
    ∷ "nvme_compatibility_fix" ∷ "intel_wireless_lan" ∷ "intel_bluetooth"
    ∷ "intel_bluetooth_controller" ∷ "i2c_touchscreen" ∷ "ps2_trackpad_trackpoint"
    ∷ "thinkpad_input" ∷ "disable_discrete_gpu" ∷ []

unfoldable pub request_audio : String → Requests → Requests
unfolding request leave_open warn
request_audio target_macos q =
    if target_macos == "sonoma" || target_macos == "sequoia"
    then request "applealc" "Realtek ALC257 High Definition Audio injection via AppleALC"
        "capability:alc257_audio" q
    else warn
        "macOS Tahoe analogue audio cannot be solved with standard AppleALC; requires v0.0.5 root-patch/VoodooHDA research."
        (leave_open
          "Tahoe analogue audio: AppleHDA was removed in macOS Tahoe; no verified single-kext solution in catalog"
          q)

unfoldable pub request_wifi : String → Requests → Requests
unfolding request warn
request_wifi target_macos q =
    if target_macos == "sonoma"
    then request "airportitlwm" "Intel Wi-Fi native Airport driver for macOS Sonoma"
        "capability:intel_wireless_lan" q
    else if target_macos == "sequoia"
    then request "itlwm" "Intel Wi-Fi IO80211 driver for macOS Sequoia"
        "capability:intel_wireless_lan" q
    else warn
        "Intel Wi-Fi on macOS Tahoe remains experimental due to framework modernizations in macOS 26."
        (request "itlwm" "Intel Wi-Fi experimental driver for macOS Tahoe"
          "capability:intel_wireless_lan" q)

unfoldable pub request_bluetooth : Requests → Requests
unfolding request
request_bluetooth q =
    request "bluetoolfixup" "Bluetooth stack injector for modern macOS (from BrcmPatchRAM project)"
      "capability:intel_bluetooth"
      (request "intel_bluetooth_firmware" "Intel Bluetooth firmware upload and patcher"
        "capability:intel_bluetooth" q)

-- The chain of tests for a known capability: its first half, and the rest.
unfoldable pub request_input : String → Requests → Requests
unfolding request_bluetooth request
request_input cap q =
    if cap == "intel_bluetooth" || cap == "intel_bluetooth_controller"
    then request_bluetooth q
    else if cap == "i2c_touchscreen"
    then request "voodooi2c" "I2C controller and multitouch HID driver for touchscreen"
        "capability:i2c_touchscreen" q
    else if cap == "ps2_trackpad_trackpoint" || cap == "thinkpad_input"
    then request "voodoops2" "ThinkPad PS/2 keyboard, trackpad, and TrackPoint controller"
        "capability:ps2_trackpad_trackpoint" q
    else q

unfoldable pub request_known : String → String → Requests → Requests
unfolding request request_audio request_wifi request_input
request_known target_macos cap q =
    if cap == "accelerated_intel_uhd_620"
    then request "whatevergreen" "Intel UHD 620 graphics driver and display pipeline patching"
        "capability:accelerated_intel_uhd_620" q
    else if cap == "alc257_audio"
    then request_audio target_macos q
    else if cap == "intel_gigabit_ethernet"
    then request "intelmausi"
        "Intel I219-LM / I219-V PCI Express Gigabit Ethernet controller driver"
        "capability:intel_gigabit_ethernet" q
    else if cap == "nvme_compatibility_fix"
    then request "nvmefix" "NVMe controller power management and APST fix for Samsung PM981"
        "capability:nvme_compatibility_fix" q
    else if cap == "intel_wireless_lan"
    then request_wifi target_macos q
    else request_input cap q

unfoldable pub request_capability : String → String → Requests → Requests
unfolding leave_open request_known contains
request_capability target_macos cap q =
    if not (contains known_capabilities cap)
    then leave_open ("Unknown capability '" <> cap <> "' has no verified dependency mapping") q
    else request_known target_macos cap q

-- The loop over the capabilities, and what is requested before it.
unfoldable pub request_all : String → List String → Requests → Requests
unfolding request_capability
request_all target_macos [] q = q
request_all target_macos (cap ∷ caps) q =
    request_all target_macos caps (request_capability target_macos cap q)

unfoldable pub base_requests : List String → List String → Requests
unfolding set_spec
base_requests unresolved warnings = record {
  specs =
      set_spec "virtualsmc" "SMC emulator required for macOS kernel initialization" "core.smc"
        (set_spec "opencore" "OpenCore UEFI bootloader runtime environment" "core.runtime" []);
  unresolved = unresolved;
  warnings = warnings;
}
