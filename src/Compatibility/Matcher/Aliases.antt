-- ===== src/Compatibility/Matcher/Aliases.antt =====
-- The aliases of macloader/compatibility/model_matcher.py.
use libre_core_mac_loader.Prelude.{
  ◌≡◌, ◌≢◌, refl, ◌⊎◌, inl, inr, true, false, [], ◌∷◌, ◌++◌, ◌==◌, nat_eq, list_eq, list_beq_iff,
  length, arith, Bool-cases,
}
use libre_core_mac_loader.Compatibility.Matcher.{
  Text, normalize_alias, extends, product_alias_matches,
}

extends-append :
    (alias value : Text)
    → extends alias value ≡ true
    → (suffix : Text) × (suffix ≢ []) × (value ≡ alias ++ suffix)
unfolding extends
extends-append [] [] h = cc
extends-append [] (c ∷ s) h = (c ∷ s, λ e. cc, refl)
extends-append (a ∷ alias) [] h = cc
extends-append (a ∷ alias) (c ∷ s) h =
    let (suffix, some_text, e) = extends-append alias s (ground arith) in
    let same : c ≡ a = ground (arith, nat_eq.beq_iff a c) in (suffix, some_text, cc)

-- A product string matches an alias only if their letters and digits are the same, or if the alias
-- has four of them and those of the string go on after them: no other alias is matched by its
-- prefix.
pub product_alias_matches_lem :
    (alias value : Text)
    → product_alias_matches alias value ≡ true
    → (normalize_alias alias ≢ [])
      × ((normalize_alias value ≡ normalize_alias alias)
          ⊎ ((length (normalize_alias alias) ≡ 4)
              × ((suffix : Text) × (suffix ≢ [])
                  × (normalize_alias value ≡ normalize_alias alias ++ suffix))))
unfolding product_alias_matches
product_alias_matches_lem alias value h = (
  λ e. ground (arith, list_beq_iff (normalize_alias alias) []),
  elim (Bool-cases (normalize_alias value == normalize_alias alias)) [
    | inl same ↦ inl ((list_beq_iff (normalize_alias value) (normalize_alias alias)).0 same)
    | inr other ↦
        let (four, longer) = facts other in
        inr (four, extends-append (normalize_alias alias) (normalize_alias value) longer)
  ],
)
  where
    facts :
        (normalize_alias value == normalize_alias alias) ≡ false
        → (length (normalize_alias alias) ≡ 4)
          × (extends (normalize_alias alias) (normalize_alias value) ≡ true)
    facts other = ground (arith, nat_eq.beq_iff (length (normalize_alias alias)) 4)
