-- ===== src/Compatibility/Engine/Severity.antt =====
-- The overall state of CompatibilityEngine.evaluate, in macloader/compatibility/engine.py, against the
-- worst of the states it is made of.
use libre_core_mac_loader.Prelude.{
  ◌≡◌, refl, sym, ap, subst, ◌∙◌, ◌↔◌, true, false, List, [], ◌∷◌, All, arith,
}
use libre_core_mac_loader.Compatibility.State.{
  CompatibilityState, supported, conditional, experimental, blocked, unknown, is_usable, is_blocked,
  is_unknown, ComponentResult,
}
use libre_core_mac_loader.Compatibility.Engine.Overall.{
  Flags, scan, first_flags, overall_state, can_generate_build_plan,
}

-- The worse of two states; "supported" counts as "experimental".
unfoldable pub worse : CompatibilityState → CompatibilityState → CompatibilityState
worse supported supported = experimental
worse supported b = b
worse experimental supported = experimental
worse experimental b = b
worse conditional blocked = blocked
worse conditional unknown = unknown
worse conditional b = conditional
worse unknown blocked = blocked
worse unknown b = unknown
worse blocked b = blocked

unfoldable pub worst : List ComponentResult → CompatibilityState
worst [] = experimental
worst (r ∷ results) = worse r.decision.state (worst results)

-- A macOS version only restricts: by "blocked" and by "unknown".
unfoldable pub restriction : CompatibilityState → CompatibilityState
restriction supported = experimental
restriction conditional = experimental
restriction experimental = experimental
restriction blocked = blocked
restriction unknown = unknown

worse-blocked : (a : CompatibilityState) → worse a blocked ≡ blocked
unfolding worse
worse-blocked supported = refl
worse-blocked conditional = refl
worse-blocked experimental = refl
worse-blocked blocked = refl
worse-blocked unknown = refl

worse_assoc : (a b c : CompatibilityState) → worse (worse a b) c ≡ worse a (worse b c)
unfolding worse
worse_assoc a b c = ground arith

-- The flags show a policy that blocks or that is unknown.
abbrev Reflects : CompatibilityState → Flags → Type 0
Reflects policy flags =
    (is_blocked policy ≡ true → flags.has_blocked ≡ true)
    × (is_unknown policy ≡ true → flags.has_unknown ≡ true)

worse-supported : (b : CompatibilityState) → worse supported b ≡ worse experimental b
unfolding worse
worse-supported b = ground arith

module _ (policy : CompatibilityState) where
  overall-conditional :
      (flags : Flags)
      → Reflects policy flags
      → overall_state policy (record flags { has_conditional = true })
        ≡ worse (overall_state policy flags) conditional
  unfolding overall_state worse
  overall-conditional flags h = ground arith

  overall-unknown :
      (flags : Flags)
      → Reflects policy flags
      → overall_state policy (record flags { has_unknown = true })
        ≡ worse (overall_state policy flags) unknown
  unfolding overall_state worse
  overall-unknown flags h = ground arith

  overall-experimental :
      (flags : Flags) → worse (overall_state policy flags) experimental ≡ overall_state policy flags
  unfolding overall_state worse
  overall-experimental flags = ground arith

  overall-demoted :
      (flags : Flags) (b : CompatibilityState)
      → worse (overall_state policy flags) (worse experimental b)
        ≡ worse (overall_state policy flags) b
  unfolding overall_state worse
  overall-demoted flags b = ground arith

  overall-blocked :
      (flags : Flags) (b : CompatibilityState)
      → overall_state policy (record flags { has_blocked = true })
        ≡ worse (overall_state policy flags) (worse blocked b)
  unfolding overall_state worse
  overall-blocked flags b = ground arith

  overall-scan :
      (results : List ComponentResult) (flags : Flags)
      → Reflects policy flags
      → overall_state policy (scan flags results)
        ≡ worse (overall_state policy flags) (worst results)
  unfolding scan worst
  overall-scan [] flags h = sym (overall-experimental flags)
  overall-scan (r ∷ results) flags h = ground (
    arith,
    overall-scan results flags h,
    overall-scan results (record flags { has_conditional = true }) h,
    overall-scan results (record flags { has_unknown = true }) (h.0, λ _. refl),
    overall-conditional flags h,
    overall-unknown flags h,
    overall-blocked flags (worst results),
    worse_assoc (overall_state policy flags) r.decision.state (worst results),
    overall-experimental flags,
    worse-supported (worst results),
    overall-demoted flags (worst results),
  )

-- The overall state is the worst of the model's policy, the restriction of the macOS version and the
-- states of the results, whatever their order, although the loop stops at the first that is blocked.
pub overall_state-worst :
    (policy status : CompatibilityState) (results : List ComponentResult)
    → overall_state policy (scan (first_flags policy status) results)
      ≡ worse (worse policy (restriction status)) (worst results)
unfolding overall_state worse restriction
overall_state-worst policy status results =
    overall-scan policy results (first_flags policy status) (ground arith, ground arith)
    ∙ ap (λ a. worse a (worst results)) (ground arith)

worse-usable :
    (a b : CompatibilityState)
    → (is_usable (worse a b) ≡ true) ↔ ((is_usable a ≡ true) × (is_usable b ≡ true))
unfolding worse is_usable
worse-usable a b = ground arith

-- A state that is usable.
abbrev pub Usable : ComponentResult → Type 0
Usable r = is_usable r.decision.state ≡ true

pub worst-Usable :
    (results : List ComponentResult) → is_usable (worst results) ≡ true → All Usable results
unfolding worst is_usable
worst-Usable [] h = tt
worst-Usable (r ∷ results) h =
    let (first, others) = (worse-usable r.decision.state (worst results)).0 h in
    (first, worst-Usable results others)

Usable-worst :
    (results : List ComponentResult) → All Usable results → is_usable (worst results) ≡ true
unfolding worst is_usable
Usable-worst [] h = refl
Usable-worst (r ∷ results) (first, others) =
    (worse-usable r.decision.state (worst results)).1 (first, Usable-worst results others)

can_generate-overall :
    (policy status decision : CompatibilityState) (flags : Flags)
    → (can_generate_build_plan policy flags decision status ≡ true) ↔ (
        (is_usable (overall_state policy flags) ≡ true)
        × (is_unknown decision ≡ false)
        × (is_usable status ≡ true))
unfolding can_generate_build_plan overall_state is_usable
can_generate-overall policy status decision flags = ground arith

usable_parts :
    (policy status w : CompatibilityState)
    → is_usable status ≡ true
    → (is_usable (worse (worse policy (restriction status)) w) ≡ true)
      ↔ ((is_usable policy ≡ true) × (is_usable w ≡ true))
unfolding worse restriction is_usable
usable_parts policy status w h = ground arith

-- A build plan can be generated just when the policy of the model, the macOS version and every
-- result are usable and the decision on the model is not "unknown".
pub can_generate-Usable :
    (policy status decision : CompatibilityState) (results : List ComponentResult)
    → (can_generate_build_plan policy (scan (first_flags policy status) results) decision status
        ≡ true)
      ↔ ((is_usable policy ≡ true)
          × (is_usable status ≡ true)
          × (is_unknown decision ≡ false)
          × All Usable results)
unfolding can_generate_build_plan
can_generate-Usable policy status decision results =
    let same = overall_state-worst policy status results in
    let flags = scan (first_flags policy status) results in
    let ready = can_generate-overall policy status decision flags in
    let parts = usable_parts policy status (worst results) in
    (
      λ h.
          let (usable, known, opened) = ready.0 h in
          let (ok, rest) = (parts opened).0 (subst (λ s. is_usable s ≡ true) same usable) in
          (ok, opened, known, worst-Usable results rest),
      λ (ok, opened, known, all). ready.1 (
        subst (λ s. is_usable s ≡ true) (sym same)
            ((parts opened).1 (ok, Usable-worst results all)),
        known,
        opened,
      ),
    )

status_usable :
    (policy status w : CompatibilityState)
    → is_usable (worse (worse policy (restriction status)) w) ≡ true
    → is_usable status ≡ true
unfolding worse restriction is_usable
status_usable policy status w h = ground arith

-- Unless the decision on the model is "unknown", the state alone says whether a plan is allowed.
pub can_generate-usable :
    (policy status decision : CompatibilityState) (results : List ComponentResult)
    → is_unknown decision ≡ false
    → is_usable (overall_state policy (scan (first_flags policy status) results))
      ≡ can_generate_build_plan policy (scan (first_flags policy status) results) decision status
can_generate-usable policy status decision results known =
    let flags = scan (first_flags policy status) results in
    let ready = can_generate-overall policy status decision flags in
    let status_ok = status_usable policy status (worst results) in
    let same = ap is_usable (overall_state-worst policy status results) in
    ground (arith, ready, status_ok, same)
