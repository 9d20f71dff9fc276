-- ===== src/Prelude/Lists.antt =====
-- Lists measured by native numbers, and the predicate that holds of every element.
use Prim.Native.Nat.{ℕ, suc, ◌+◌}
use mathlib.Core.Path.{◌≡◌, refl}
use mathlib.Core.Logic.{◌⊎◌, inl, inr}
use mathlib.Core.List.{List, [], ◌∷◌, ◌++◌}
use native.Mathlib.Omega.{arith}

module _ {ℓ} {A : Type ℓ} where
  abbrev pub length : List A → ℕ
  length [] = 0
  length (x ∷ xs) = suc (length xs)

  abbrev pub All {κ} : (A → Type κ) → List A → Type κ
  All P [] = Unit
  All P (x ∷ xs) = P x × All P xs

  pub length-append : (xs ys : List A) → length (xs ++ ys) ≡ length xs + length ys
  length-append [] ys = omega arith
  length-append (x ∷ xs) ys = omega (arith, length-append xs ys)

-- Where an element stands in a list with one more at the end.
pub append-split {ℓ} :
    {A : Type ℓ} (l front back : List A) (n x : A)
    → l ++ n ∷ [] ≡ front ++ x ∷ back
    → (back ≡ []) × (x ≡ n) × (front ≡ l)
      ⊎ ((rest : List A) × (back ≡ rest ++ n ∷ []) × (l ≡ front ++ x ∷ rest))
append-split [] [] back n x e = inl (cc, cc, refl)
append-split [] (f ∷ []) back n x e = cc
append-split [] (f ∷ g ∷ front) back n x e = cc
append-split (y ∷ l) [] back n x e = inr (l, cc, cc)
append-split (y ∷ l) (f ∷ front) back n x e = elim (append-split l front back n x (cc)) [
  | inl (p, q, r) ↦ inl (p, q, cc)
  | inr (rest, p, q) ↦ inr (rest, p, cc)
]

-- A predicate on a list that is appended.
pub All-append {ℓ κ} :
    {A : Type ℓ} (P : A → Type κ) (xs ys : List A) → All P (xs ++ ys) → All P xs × All P ys
All-append P [] ys h = (tt, h)
All-append P (x ∷ xs) ys (first, others) =
    let (left, right) = All-append P xs ys others in ((first, left), right)
