-- ===== src/Compatibility/Engine/Distinct.antt =====
-- `_deduplicate_preserve_order` of macloader/compatibility/engine.py.
use libre_core_mac_loader.Prelude.{
  String, ◌≡◌, refl, sym, true, false, not, ◌&&◌, List, [], ◌∷◌, string_eq, contains, arith,
  Bool-cases, subst, inl, inr, contains-cons_self, contains-nil,
}
use libre_core_mac_loader.Compatibility.Components.{is_filled}
use libre_core_mac_loader.Compatibility.Engine.Findings.{deduplicate, deduplicate_preserve_order}

-- No text stands twice in the list.
abbrev pub Distinct : List String → Type 0
Distinct [] = Unit
Distinct (item ∷ items) = (contains items item ≡ false) × Distinct items

deduplicate-contains :
    (seen items : List String) (a : String)
    → contains (deduplicate seen items) a ≡ (contains items a && not (contains seen a))
unfolding deduplicate contains
deduplicate-contains seen [] a = refl
deduplicate-contains seen (item ∷ items) a = ground (
  arith,
  deduplicate-contains seen items a,
  deduplicate-contains (item ∷ seen) items a,
  string_eq.beq_iff a item,
)

deduplicate-Distinct : (seen items : List String) → Distinct (deduplicate seen items)
unfolding deduplicate
deduplicate-Distinct seen [] = tt
deduplicate-Distinct seen (item ∷ items) = elim (Bool-cases (contains seen item)) [
  | inl e ↦ subst Distinct (sym (skipped e)) (deduplicate-Distinct seen items)
  | inr e ↦
      let rest = deduplicate-Distinct (item ∷ seen) items in
      subst Distinct (sym (kept e)) (
        ground (arith, deduplicate-contains (item ∷ seen) items item, contains-cons_self item seen),
        rest,
      )
]
  where
    skipped : contains seen item ≡ true → deduplicate seen (item ∷ items) ≡ deduplicate seen items
    skipped e = rw (e, deduplicate) refl

    kept :
        contains seen item ≡ false
        → deduplicate seen (item ∷ items) ≡ item ∷ deduplicate (item ∷ seen) items
    kept e = rw (e, deduplicate) refl

-- The deduplicated list has no text twice and contains the same texts as before.
pub deduplicate_preserve_order-Distinct :
    (items : List String)
    → Distinct (deduplicate_preserve_order items)
      × ((a : String) → contains (deduplicate_preserve_order items) a ≡ contains items a)
unfolding deduplicate_preserve_order
deduplicate_preserve_order-Distinct items = (
  deduplicate-Distinct [] items,
  λ a. ground (arith, deduplicate-contains [] items a, contains-nil a),
)

pub deduplicate_preserve_order-is_filled :
    (items : List String) → is_filled (deduplicate_preserve_order items) ≡ is_filled items
unfolding deduplicate_preserve_order deduplicate contains
deduplicate_preserve_order-is_filled [] = refl
deduplicate_preserve_order-is_filled (item ∷ items) = refl
