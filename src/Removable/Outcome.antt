-- ===== src/Removable/Outcome.antt =====
-- What a Python call comes to: a value, an UnsafeRemovableTarget, or any other exception, each
-- exception with its text.
use libre_core_mac_loader.Prelude.{String, ◌≡◌, refl, ◌⊎◌, inl, inr, Bool, true, false}

pub data Outcome {ℓ} (A : Type ℓ) : Type ℓ where
  done : A → Outcome A
  unsafe : String → Outcome A
  raised : String → Outcome A

infixl 5 ◌>>=◌ ◌>>◌
abbrev pub ◌>>=◌ {ℓ κ} : {A : Type ℓ} {B : Type κ} → Outcome A → (A → Outcome B) → Outcome B
done a >>= f = f a
unsafe m >>= f = unsafe m
raised m >>= f = raised m

abbrev pub ◌>>◌ {ℓ} : {B : Type ℓ} → Outcome (Unit {0}) → Outcome B → Outcome B
m >> k = m >>= λ _. k

-- `if b: raise UnsafeRemovableTarget(text)`
abbrev pub refuse_if : Bool → String → Outcome (Unit {0})
refuse_if true text = unsafe text
refuse_if false text = done tt

-- To split on what a call comes to.
pub Outcome-cases {ℓ} :
    {A : Type ℓ} (m : Outcome A)
    → ((a : A) × (m ≡ done a)) ⊎ (((t : String) × (m ≡ unsafe t)) ⊎ ((t : String) × (m ≡ raised t)))
Outcome-cases (done a) = inl (a, refl)
Outcome-cases (unsafe t) = inr (inl (t, refl))
Outcome-cases (raised t) = inr (inr (t, refl))
