-- ===== src/Dependencies/Resolver/Mapped.antt =====
-- The requests of a plan against a table, for macloader/dependencies/resolver.py.
use libre_core_mac_loader.Prelude.{
  String, ◌≡◌, refl, sym, subst, inl, inr, Bool, true, false, not, ◌&&◌, ◌||◌, List, [], ◌∷◌, ◌++◌,
  ◌==◌, string_eq, contains, contains-nil, All, arith, Bool-cases, if◌then◌else◌,
}
use libre_core_mac_loader.Compatibility.Components.{is_filled}
use libre_core_mac_loader.Dependencies.Resolver.Requests.{
  Specs, set_spec, Requests, request, leave_open, warn, known_capabilities, request_audio,
  request_wifi, request_bluetooth, request_input, request_known, request_capability,
}
use libre_core_mac_loader.Dependencies.Resolver.Resolve.{ids_of}

-- Whether AppleHDA is there.
abbrev pub has_apple_hda : String → Bool
has_apple_hda target = target == "sonoma" || target == "sequoia"

-- The table of what a capability needs.
abbrev table : String → List (String × List String)
table target =
    ("accelerated_intel_uhd_620", "whatevergreen" ∷ [])
    ∷ ("alc257_audio", if has_apple_hda target then "applealc" ∷ [] else [])
    ∷ ("intel_gigabit_ethernet", "intelmausi" ∷ [])
    ∷ ("nvme_compatibility_fix", "nvmefix" ∷ [])
    ∷ ("intel_wireless_lan", (if target == "sonoma" then "airportitlwm" else "itlwm") ∷ [])
    ∷ ("intel_bluetooth", "intel_bluetooth_firmware" ∷ "bluetoolfixup" ∷ [])
    ∷ ("intel_bluetooth_controller", "intel_bluetooth_firmware" ∷ "bluetoolfixup" ∷ [])
    ∷ ("i2c_touchscreen", "voodooi2c" ∷ [])
    ∷ ("ps2_trackpad_trackpoint", "voodoops2" ∷ [])
    ∷ ("thinkpad_input", "voodoops2" ∷ [])
    ∷ []

unfoldable row : String → List (String × List String) → List String
row cap [] = []
row cap ((k, ids) ∷ rows) = if cap == k then ids else row cap rows

unfoldable pub needs : String → String → List String
unfolding row contains
needs target cap = if contains known_capabilities cap then row cap (table target) else []

-- A capability that leaves a requirement open.
abbrev pub is_open : String → String → Bool
is_open target cap =
    not (contains known_capabilities cap) || (cap == "alc257_audio" && not (has_apple_hda target))

ids_of-set_spec :
    (d r b : String) (specs : Specs) (x : String)
    → contains (ids_of (set_spec d r b specs)) x ≡ (contains (ids_of specs) x || x == d)
unfolding set_spec contains
ids_of-set_spec d r b [] x = ground arith
ids_of-set_spec d r b ((k, v) ∷ specs) x =
    ground (arith, ids_of-set_spec d r b specs x, string_eq.beq_iff d k)

All-contains :
    (P : String → Type 0) (l : List String) → All P l → (c : String) → contains l c ≡ true → P c
unfolding contains
All-contains P [] h c e = cc
All-contains P (k ∷ l) (here, others) c e = elim (Bool-cases (c == k)) [
  | inl f ↦ subst P (sym ((string_eq.beq_iff c k).0 f)) here
  | inr f ↦ All-contains P l others c (ground arith)
]

filled-append : (l : List String) (a : String) → is_filled (l ++ a ∷ []) ≡ true
filled-append [] a = refl
filled-append (b ∷ l) a = refl

module _ (target : String) (q : Requests) where
  Requested : String → Type 0
  Requested cap =
      (x : String)
      → contains (ids_of (request_known target cap q).specs) x
        ≡ (contains (ids_of q.specs) x || contains (row cap (table target)) x)

  one_more :
      (d r b x : String)
      → contains (ids_of (set_spec d r b q.specs)) x
        ≡ (contains (ids_of q.specs) x || contains (d ∷ []) x)
  unfolding contains
  one_more d r b x = ground (arith, ids_of-set_spec d r b q.specs x)

  two_more :
      (d r b e s c x : String)
      → contains (ids_of (set_spec d r b (set_spec e s c q.specs))) x
        ≡ (contains (ids_of q.specs) x || contains (e ∷ d ∷ []) x)
  unfolding contains
  two_more d r b e s c x =
      ground
        (arith, ids_of-set_spec d r b (set_spec e s c q.specs) x, ids_of-set_spec e s c q.specs x)

  Requested-audio : Requested "alc257_audio"
  unfolding Requested request_known request_audio request leave_open warn row contains
  Requested-audio x = elim (Bool-cases (has_apple_hda target)) [
    | inl e ↦ rw (e) (one_more _ _ _ x)
    | inr e ↦ rw (e) (ground arith)
  ]

  Requested-wifi : Requested "intel_wireless_lan"
  unfolding Requested request_known request_wifi request warn row contains
  Requested-wifi x = elim (Bool-cases (target == "sonoma")) [
    | inl e ↦ rw (e) (one_more _ _ _ x)
    | inr e ↦ elim (Bool-cases (target == "sequoia")) [
      | inl f ↦ rw (e, f) (one_more _ _ _ x)
      | inr f ↦ rw (e, f) (one_more _ _ _ x)
    ]
  ]

  known-Requested : All Requested known_capabilities
  unfolding Requested request_known request_audio request_wifi request_input request_bluetooth
      request row contains
  known-Requested = (
    one_more _ _ _,
    (
      Requested-audio,
      (
        one_more _ _ _,
        (
          one_more _ _ _,
          (
            Requested-wifi,
            (
              two_more _ _ _ _ _ _,
              (
                two_more _ _ _ _ _ _,
                (one_more _ _ _, (one_more _ _ _, (one_more _ _ _, (λ x. ground arith, tt)))),
              ),
            ),
          ),
        ),
      ),
    ),
  )

  -- What is left open by a known capability.
  Opened : String → Type 0
  Opened cap =
      is_filled (request_known target cap q).unresolved
      ≡ (is_filled q.unresolved || (cap == "alc257_audio" && not (has_apple_hda target)))

  kept : (b : Bool) → b ≡ (b || false)
  kept b = ground arith

  Opened-audio : Opened "alc257_audio"
  unfolding Opened request_known request_audio request leave_open warn contains
  Opened-audio = elim (Bool-cases (has_apple_hda target)) [
    | inl e ↦ rw (e) (kept _)
    | inr e ↦ rw (e) (ground (arith, filled-append q.unresolved _))
  ]

  Opened-wifi : Opened "intel_wireless_lan"
  unfolding Opened request_known request_wifi request warn contains
  Opened-wifi = elim (Bool-cases (target == "sonoma")) [
    | inl e ↦ rw (e) (kept _)
    | inr e ↦ elim (Bool-cases (target == "sequoia")) [
      | inl f ↦ rw (e, f) (kept _)
      | inr f ↦ rw (e, f) (kept _)
    ]
  ]

  known-Opened : All Opened known_capabilities
  unfolding Opened request_known request_input request_bluetooth request contains
  known-Opened = (
    kept _,
    (
      Opened-audio,
      (
        kept _,
        (kept _, (Opened-wifi, (kept _, (kept _, (kept _, (kept _, (kept _, (kept _, tt)))))))),
      ),
    ),
  )

  pub request_capability-needs :
      (cap x : String)
      → contains (ids_of (request_capability target cap q).specs) x
        ≡ (contains (ids_of q.specs) x || contains (needs target cap) x)
  unfolding request_capability leave_open needs Requested
  request_capability-needs cap x = elim (Bool-cases (contains known_capabilities cap)) [
    | inl e ↦ rw (e) (All-contains Requested known_capabilities known-Requested cap e x)
    | inr e ↦ rw (e) (ground (arith, contains-nil x))
  ]

  pub request_capability-is_open :
      (cap : String)
      → is_filled (request_capability target cap q).unresolved
        ≡ (is_filled q.unresolved || is_open target cap)
  unfolding request_capability leave_open Opened
  request_capability-is_open cap = elim (Bool-cases (contains known_capabilities cap)) [
    | inl e ↦ rw (e) (All-contains Opened known_capabilities known-Opened cap e)
    | inr e ↦ rw (e) (ground (arith, filled-append q.unresolved _))
  ]
