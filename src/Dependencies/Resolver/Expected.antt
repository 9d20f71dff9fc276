-- ===== src/Dependencies/Resolver/Expected.antt =====
-- The capabilities that macloader/compatibility/engine.py asks for are known to
-- macloader/dependencies/resolver.py.
use libre_core_mac_loader.Prelude.{
  String, ◌≡◌, refl, sym, ap, subst, inl, inr, Bool, true, false, ◌||◌, Option, none, some,
  some-injective, List, [], ◌∷◌, ◌==◌, string_eq, contains, contains-cons_self, arith, Bool-cases,
  if◌then◌else◌,
}
use libre_core_mac_loader.Prelude.Text.{mentions}
use libre_core_mac_loader.Compatibility.State.{ComponentResult}
use libre_core_mac_loader.Compatibility.Engine.Draft.{known}
use libre_core_mac_loader.Compatibility.Engine.Capabilities.{
  input_capability, peripheral_capability, capability_of, asked, is_asked, any_asked,
}
use libre_core_mac_loader.Compatibility.Engine.Requested.{defers, any_defers}
use libre_core_mac_loader.Dependencies.Resolver.Requests.{known_capabilities}
use libre_core_mac_loader.Dependencies.Resolver.Mapped.{is_open}
use libre_core_mac_loader.Dependencies.Resolver.Needed.{any_open}

-- What holds of the capability, if there is one.
data Each (P : String → Type 0) : Option String → Type 0 where
  nothing : Each P none
  just : (c : String) → P c → Each P (some c)

if-Each :
    {P : String → Type 0} (b : Bool) {x y : Option String}
    → Each P x
    → Each P y
    → Each P (if b then x else y)
if-Each true h g = h
if-Each false h g = g

if-Each-when :
    {P : String → Type 0} (b : Bool) {x y : Option String}
    → (b ≡ true → Each P x)
    → Each P y
    → Each P (if b then x else y)
if-Each-when true h g = h refl
if-Each-when false h g = g

-- The capability is known to the resolver, and it is that of audio only for audio.
abbrev IsExpected : String → String → Type 0
IsExpected category c =
    (contains known_capabilities c ≡ true)
    × ((category == "audio") ≡ false → (c == "alc257_audio") ≡ false)

capability_of-IsExpected :
    (category id : String) → Each (IsExpected category) (capability_of category id)
unfolding capability_of peripheral_capability input_capability contains
capability_of-IsExpected category id =
    if-Each (category == "graphics_dgpu") (other "disable_discrete_gpu" refl refl) (
      if-Each-when (category == "audio") audio (
        if-Each (category == "ethernet") (other "intel_gigabit_ethernet" refl refl) (
          if-Each (category == "wifi") (other "intel_wireless_lan" refl refl) (
            if-Each (category == "storage")
              (if-Each (mentions id "pm981") (other "nvme_compatibility_fix" refl refl) nothing)
              (if-Each (category == "input")
                (if-Each (mentions id "touchscreen") (other "i2c_touchscreen" refl refl) (
                  if-Each (id == "thinkpad-trackpad-trackpoint")
                    (other "ps2_trackpad_trackpoint" refl refl) nothing))
                (if-Each (category == "bluetooth") (other "intel_bluetooth" refl refl) nothing))))))
  where
    audio : (category == "audio") ≡ true → Each (IsExpected category) (some "alc257_audio")
    audio e = just "alc257_audio" (refl, λ f. absurd (clash e f))
      where
        clash : (category == "audio") ≡ true → (category == "audio") ≡ false → ⊥
        clash e f = cc

    other :
        (c : String)
        → contains known_capabilities c ≡ true
        → (c == "alc257_audio") ≡ false
        → Each (IsExpected category) (some c)
    other c known apart = just c (known, λ _. apart)

asked-IsExpected : (cr : ComponentResult) → Each (IsExpected cr.category) (asked cr)
asked-IsExpected cr =
    if-Each (known cr) (capability_of-IsExpected cr.category cr.component_id) nothing

Each-some : (P : String → Type 0) (o : Option String) → Each P o → (c : String) → o ≡ some c → P c
Each-some P none h c e = cc
Each-some P o (just d p) c e = subst P (some-injective d c e) p

is_asked-some : (o : Option String) (c : String) → is_asked o c ≡ true → o ≡ some c
is_asked-some none c h = cc
is_asked-some (some d) c h = ap some (sym ((string_eq.beq_iff c d).0 h))

is_asked-IsExpected :
    (category : String) (o : Option String) (c : String)
    → Each (IsExpected category) o
    → is_asked o c ≡ true
    → IsExpected category c
is_asked-IsExpected category o c h e = Each-some (IsExpected category) o h c (is_asked-some o c e)

pub any_asked-known :
    (results : List ComponentResult) (c : String)
    → any_asked results c ≡ true
    → contains known_capabilities c ≡ true
unfolding any_asked
any_asked-known [] c e = cc
any_asked-known (cr ∷ results) c e = elim (Bool-cases (is_asked (asked cr) c)) [
  | inl f ↦ (is_asked-IsExpected cr.category (asked cr) c (asked-IsExpected cr) f).0
  | inr f ↦ any_asked-known results c (ground arith)
]

-- Audio is asked for by a result that leaves work to a later version.
asked-defers :
    (target : String) (cr : ComponentResult)
    → is_asked (asked cr) "alc257_audio" ≡ true
    → defers target cr ≡ true
asked-defers target cr h =
    let expected =
      (is_asked-IsExpected cr.category (asked cr) "alc257_audio" (asked-IsExpected cr) h).1 in
    elim (Bool-cases (known cr)) [
      | inl e ↦ elim (Bool-cases (cr.category == "audio")) [
        | inl f ↦ rw (e, f) refl
        | inr f ↦ absurd (clash (sym (expected f)))
      ]
      | inr e ↦ absurd (clash (rw (e) at h))
    ]
  where
    clash : false ≡ true → ⊥
    clash e = cc

pub any_asked-defers :
    (target : String) (results : List ComponentResult)
    → any_asked results "alc257_audio" ≡ true
    → any_defers target results ≡ true
unfolding any_asked any_defers
any_asked-defers target [] e = cc
any_asked-defers target (cr ∷ results) e = elim (Bool-cases (is_asked (asked cr) "alc257_audio")) [
  | inl f ↦ rw (asked-defers target cr f) refl
  | inr f ↦ rw (any_asked-defers target results (rw (f) at e)) (or_true (defers target cr))
]
  where
    or_true : (b : Bool) → (b || true) ≡ true
    or_true true = refl
    or_true false = refl

pub any_open-audio :
    (target : String) (caps : List String)
    → ((c : String) → contains caps c ≡ true → contains known_capabilities c ≡ true)
    → any_open target caps ≡ true
    → contains caps "alc257_audio" ≡ true
unfolding any_open contains
any_open-audio target [] h e = cc
any_open-audio target (cap ∷ caps) h e = elim (Bool-cases (is_open target cap)) [
  | inl f ↦ ground (
    arith,
    h cap,
    contains-cons_self cap caps,
    string_eq.beq_iff cap "alc257_audio",
    string_eq.beq_iff "alc257_audio" cap,
  )
  | inr f ↦ ground (arith, any_open-audio target caps (λ c i. h c (ground arith)))
]
