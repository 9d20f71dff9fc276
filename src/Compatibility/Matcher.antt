-- ===== src/Compatibility/Matcher.antt =====
-- match_model of macloader/compatibility/model_matcher.py, with get_model_by_machine_type of
-- macloader/database/loader.py. A text is the list of its code points, with the case of the ASCII
-- range; of a decision the state and the branch that made it are kept.
pub mod Evidence
pub mod Aliases
pub mod Decision
pub mod Samples
use libre_core_mac_loader.Prelude.{
  ℕ, ◌+◌, String, ◌≡◌, refl, Bool, true, false, not, ◌&&◌, ◌||◌, Option, none, some, List, [], ◌∷◌,
  ◌==◌, nat_eq, list_eq, string_eq, contains, leb, length, if◌then◌else◌, list_beq,
}
use Prim.Native.Nat.{◌-◌}
use libre_core_mac_loader.Prelude.Text.{codes, is_space}
use libre_core_mac_loader.Compatibility.State.{CompatibilityState}

abbrev pub Text : Type 0
Text = List ℕ

-- ModelSchema, with the fields that the matching and the engine read; of the options the one that
-- declares a discrete GPU.
pub record Model : Type 0 where
  pub id : String
  pub display_name : String
  pub machine_types : List Text
  pub product_names : List Text
  pub cpu_generations : List String
  pub default_macos_status : List (String × CompatibilityState)
  pub has_mx150_option : Bool

-- HardwareSnapshot, with the fields that the matching reads.
pub record Snapshot : Type 0 where
  pub manufacturer : Option Text
  pub machine_type : Option Text
  pub product_name : Option Text
  pub product_version : Option Text

-- Why no model is chosen: BLOCKED for the first and the last, else UNKNOWN.
pub data Refusal : Type 0 where
  unsupported_manufacturer unknown_machine_type contradictory conflicting ambiguous
        unsupported_model :
      Refusal

-- By which evidence a model is chosen.
pub data Label : Type 0 where
  machine_type product_string : Label

pub data Match : Type 0 where
  matched : Model → Label → Match
  refused : Refusal → Match

-- `s or ""`
abbrev or_blank : Option Text → Text
or_blank none = []
or_blank (some s) = s

-- `s.strip()`
unfoldable pub lstrip : Text → Text
unfolding is_space
lstrip [] = []
lstrip (c ∷ s) = if is_space c then lstrip s else c ∷ s

unfoldable pub rstrip : Text → Text
unfolding is_space
rstrip [] = []
rstrip (c ∷ s) = elim (rstrip s) [
  | [] ↦ if is_space c then [] else c ∷ []
  | d ∷ rest ↦ c ∷ d ∷ rest
]

unfoldable pub strip : Text → Text
unfolding lstrip rstrip
strip s = rstrip (lstrip s)

-- `s.upper()`
unfoldable pub upper : Text → Text
upper [] = []
upper (c ∷ s) = (if leb 97 c && leb c 122 then c - 32 else c) ∷ upper s

-- `_normalize_alias`: the letters and digits, in lower case.
abbrev is_small_or_digit : ℕ → Bool
is_small_or_digit c = (leb b'a' c && leb c b'z') || (leb b'0' c && leb c b'9')

unfoldable pub normalize_alias : Text → Text
normalize_alias [] = []
normalize_alias (c ∷ s) =
    let rest = normalize_alias s in
    let small = if leb 65 c && leb c 90 then c + 32 else c in
    if is_small_or_digit small then small ∷ rest else rest

-- `value.startswith(alias) and value[len(alias):].isalnum()`
abbrev is_alnum : ℕ → Bool
is_alnum c = is_small_or_digit c || (leb b'A' c && leb c b'Z')

abbrev all_alnum : Text → Bool
all_alnum [] = true
all_alnum (c ∷ s) = is_alnum c && all_alnum s

unfoldable pub extends : Text → Text → Bool
extends [] [] = false
extends [] (c ∷ s) = all_alnum (c ∷ s)
extends (a ∷ alias) [] = false
extends (a ∷ alias) (c ∷ s) = a == c && extends alias s

-- `_product_alias_matches`
unfoldable pub product_alias_matches : Text → Text → Bool
unfolding normalize_alias extends list_beq
product_alias_matches alias value =
    let alias_norm = normalize_alias alias in
    let value_norm = normalize_alias value in
    if alias_norm == [] || value_norm == []
    then false
    else if value_norm == alias_norm
    then true
    else length alias_norm == 4 && extends alias_norm value_norm

-- `mt in model.machine_types`, for the first such model.
unfoldable pub get_model_by_machine_type : Text → List Model → Option Model
get_model_by_machine_type mt [] = none
get_model_by_machine_type mt (m ∷ models) =
    if contains m.machine_types mt then some m else get_model_by_machine_type mt models

-- Whether one of the names stands in the product's name or version.
unfoldable pub names_match : List Text → Text → Text → Bool
names_match [] prod_name prod_ver = false
names_match (expected_name ∷ names) prod_name prod_ver =
    product_alias_matches expected_name prod_name
    || product_alias_matches expected_name prod_ver
    || names_match names prod_name prod_ver

-- `product_matches`; the keys of `db.models` are the ids, so no id comes twice.
unfoldable pub product_matches : Text → Text → List Model → List Model
product_matches prod_name prod_ver [] = []
product_matches prod_name prod_ver (m ∷ models) =
    let rest = product_matches prod_name prod_ver models in
    if names_match m.product_names prod_name prod_ver then m ∷ rest else rest

-- `machine_model.id in unique_product_matches`
unfoldable pub has_id : String → List Model → Bool
has_id id [] = false
has_id id (m ∷ models) = id == m.id || has_id id models

abbrev is_empty {ℓ} : {A : Type ℓ} → List A → Bool
is_empty [] = true
is_empty (a ∷ l) = false

-- What follows with a machine type that is registered, and without one.
unfoldable pub with_machine : Model → Text → Text → List Model → Match
unfolding has_id
with_machine machine_model prod_name prod_ver found =
    if not (is_empty found) && not (has_id machine_model.id found)
    then refused contradictory
    else if (not (is_empty prod_name) || not (is_empty prod_ver))
        && not (has_id machine_model.id found)
    then refused conflicting
    else matched machine_model machine_type

unfoldable pub by_product : List Model → Match
by_product [] = refused unsupported_model
by_product (m ∷ []) = matched m product_string
by_product (m ∷ n ∷ rest) = refused ambiguous

-- The choice, with the registered model of the machine type as an argument.
unfoldable pub choose : Text → Option Model → Text → Text → List Model → Match
choose [] machine_model prod_name prod_ver found = by_product found
choose (c ∷ mt) none prod_name prod_ver found = refused unknown_machine_type
choose (c ∷ mt) (some m) prod_name prod_ver found = with_machine m prod_name prod_ver found

abbrev pub vendors : List Text
vendors = codes "LENOVO" ∷ codes "LENOVO GROUP LIMITED" ∷ codes "LENOVO LIMITED" ∷ []

abbrev pub clean : Option Text → Text
clean s = strip (or_blank s)

unfoldable pub match_model : Snapshot → List Model → Match
match_model s models =
    if not (contains vendors (upper (clean s.manufacturer)))
    then refused unsupported_manufacturer
    else choose (upper (clean s.machine_type))
        (get_model_by_machine_type (upper (strip (upper (clean s.machine_type)))) models)
        (clean s.product_name) (clean s.product_version)
        (product_matches (clean s.product_name) (clean s.product_version) models)
