-- ===== src/Compatibility/Engine/Capabilities.antt =====
-- The lists of CompatibilityEngine.generate_build_plan, in macloader/compatibility/engine.py.
use libre_core_mac_loader.Prelude.{
  String, ◌≡◌, refl, sym, inl, inr, Bool, true, false, ◌||◌, Option, none, some, List, [], ◌∷◌,
  ◌++◌, ◌==◌, string_eq, option_eq, contains, arith, Bool-cases, contains-append, subst,
  if◌then◌else◌,
}
use libre_core_mac_loader.Prelude.Text.{mentions}
use libre_core_mac_loader.Compatibility.State.{ComponentResult}
use libre_core_mac_loader.Compatibility.Engine.Draft.{
  Draft, add_capability, plan, known, plan_dgpu, plan_audio, plan_ethernet, plan_wifi, plan_storage,
  plan_touchscreen, plan_trackpad, plan_bluetooth, plan_peripheral, plan_result,
}
use libre_core_mac_loader.Compatibility.Engine.Distinct.{Distinct}

-- The capability that a device of a category asks for, if its state is known.
abbrev when : Bool → String → Option String
when b capability = if b then some capability else none

unfoldable pub input_capability : String → Option String
input_capability id =
    if mentions id "touchscreen"
    then some "i2c_touchscreen"
    else when (id == "thinkpad-trackpad-trackpoint") "ps2_trackpad_trackpoint"

unfoldable pub peripheral_capability : String → String → Option String
unfolding input_capability
peripheral_capability category id =
    if category == "storage"
    then when (mentions id "pm981") "nvme_compatibility_fix"
    else if category == "input"
    then input_capability id
    else when (category == "bluetooth") "intel_bluetooth"

unfoldable pub capability_of : String → String → Option String
unfolding peripheral_capability
capability_of category id =
    if category == "graphics_dgpu"
    then some "disable_discrete_gpu"
    else if category == "audio"
    then some "alc257_audio"
    else if category == "ethernet"
    then some "intel_gigabit_ethernet"
    else if category == "wifi"
    then some "intel_wireless_lan"
    else peripheral_capability category id

-- The capability that a result asks for.
abbrev pub asked : ComponentResult → Option String
asked cr = if known cr then capability_of cr.category cr.component_id else none

-- One more capability, if there is one.
unfoldable pub add_asked : Option String → List String → List String
add_asked none capabilities = capabilities
add_asked (some c) capabilities = add_capability c capabilities

module _ (cr : ComponentResult) (draft : Draft) where
  plan_peripheral-asked :
      known cr ≡ true
      → (plan_peripheral cr draft).capabilities
        ≡ add_asked (peripheral_capability cr.category cr.component_id) draft.capabilities
  unfolding plan_peripheral peripheral_capability input_capability add_asked plan_storage
      plan_touchscreen plan_trackpad plan_bluetooth plan
  plan_peripheral-asked h = elim (Bool-cases (cr.category == "storage")) [
    | inl e ↦
        let other : (cr.category == "input") ≡ false =
          rw ((string_eq.beq_iff cr.category "storage").0 e) refl in
        let another : (cr.category == "bluetooth") ≡ false =
          rw ((string_eq.beq_iff cr.category "storage").0 e) refl in
        elim (Bool-cases (mentions cr.component_id "pm981")) [
          | inl f ↦ rw (h, e, f) refl
          | inr f ↦ rw (h, e, f, other, another) refl
        ]
    | inr e ↦ elim (Bool-cases (cr.category == "input")) [
      | inl f ↦
          let other : (cr.category == "bluetooth") ≡ false =
            rw ((string_eq.beq_iff cr.category "input").0 f) refl in
          elim (Bool-cases (mentions cr.component_id "touchscreen")) [
            | inl g ↦ rw (h, e, f, g) refl
            | inr g ↦ elim (Bool-cases (cr.component_id == "thinkpad-trackpad-trackpoint")) [
              | inl i ↦ rw (h, e, f, g, i) refl
              | inr i ↦ rw (h, e, f, g, i, other) refl
            ]
          ]
      | inr f ↦ elim (Bool-cases (cr.category == "bluetooth")) [
        | inl g ↦ rw (h, e, f, g) refl
        | inr g ↦ rw (h, e, f, g) refl
      ]
    ]
  ]

  pub plan_result-asked :
      (target_macos : String)
      → (plan_result target_macos cr draft).capabilities ≡ add_asked (asked cr) draft.capabilities
  unfolding plan_result capability_of add_asked plan_dgpu plan_audio plan_ethernet plan_wifi plan
  plan_result-asked target_macos = ground (arith, plan_peripheral-asked)

contains-false-append :
    (capabilities : List String) (c : String)
    → contains capabilities c ≡ false
    → Distinct capabilities
    → Distinct (capabilities ++ c ∷ [])
unfolding contains
contains-false-append [] c h distinct = (refl, tt)
contains-false-append (a ∷ capabilities) c h (fresh, distinct) = (
  ground (
    arith,
    contains-append capabilities (c ∷ []) a,
    string_eq.beq_iff a c,
    string_eq.beq_iff c a,
  ),
  contains-false-append capabilities c (ground arith) distinct,
)

pub add_capability-Distinct :
    (c : String) (capabilities : List String)
    → Distinct capabilities
    → Distinct (add_capability c capabilities)
unfolding add_capability
add_capability-Distinct c capabilities h = elim (Bool-cases (contains capabilities c)) [
  | inl e ↦ subst Distinct (sym (there e)) h
  | inr e ↦ subst Distinct (sym (missing e)) (contains-false-append capabilities c e h)
]
  where
    there : contains capabilities c ≡ true → add_capability c capabilities ≡ capabilities
    there e = rw (e, add_capability) refl

    missing :
        contains capabilities c ≡ false → add_capability c capabilities ≡ capabilities ++ c ∷ []
    missing e = rw (e, add_capability) refl

pub add_capability-contains :
    (c : String) (capabilities : List String) (a : String)
    → contains (add_capability c capabilities) a ≡ (contains capabilities a || a == c)
unfolding add_capability contains
add_capability-contains c capabilities a =
    ground (arith, contains-append capabilities (c ∷ []) a, string_eq.beq_iff a c)

pub add_asked-Distinct :
    (o : Option String) (capabilities : List String)
    → Distinct capabilities
    → Distinct (add_asked o capabilities)
unfolding add_asked
add_asked-Distinct none capabilities h = h
add_asked-Distinct (some c) capabilities h = add_capability-Distinct c capabilities h

-- Whether the capability is the one that is asked for.
abbrev pub is_asked : Option String → String → Bool
is_asked none a = false
is_asked (some c) a = a == c

-- Whether one of the results asks for it.
unfoldable pub any_asked : List ComponentResult → String → Bool
any_asked [] a = false
any_asked (cr ∷ results) a = is_asked (asked cr) a || any_asked results a

pub add_asked-contains :
    (o : Option String) (capabilities : List String) (a : String)
    → contains (add_asked o capabilities) a ≡ (contains capabilities a || is_asked o a)
unfolding add_asked
add_asked-contains none capabilities a = ground arith
add_asked-contains (some c) capabilities a = add_capability-contains c capabilities a
