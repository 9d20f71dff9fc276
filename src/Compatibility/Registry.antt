-- ===== src/Compatibility/Registry.antt =====
-- The registry of macloader/database: the schemas of macloader/database/schema.py that the engine
-- reads and the lookups of macloader/database/loader.py. A dict is an association list.
use libre_core_mac_loader.Prelude.{
  String, Option, none, some, List, [], ◌∷◌, ◌==◌, string_eq, if◌then◌else◌,
}
use libre_core_mac_loader.Prelude.Text.{lower, strip}
use libre_core_mac_loader.Compatibility.State.{CompatibilityState}
use libre_core_mac_loader.Compatibility.Matcher.{Model}

-- ComponentVersionPolicy
pub record Policy : Type 0 where
  pub state : CompatibilityState
  pub reason : String
  pub required_actions : List String
  pub known_limitations : List String
  pub unresolved_requirements : List String

-- `match_rules`: the lists of texts; a rule that is not given is the empty list.
pub record Rules : Type 0 where
  pub pci_ids : List String
  pub usb_ids : List String
  pub kinds : List String
  pub buses : List String
  pub codec_ids : List String
  pub codec_names : List String
  pub device_classes : List String
  pub model_patterns : List String

-- ComponentSchema
pub record Component : Type 0 where
  pub id : String
  pub category : String
  pub rules : Rules
  pub macos_policies : List (String × Policy)

-- MacOsSchema
pub record MacosProfile : Type 0 where
  pub version_name : String
  pub status : CompatibilityState

pub record Database : Type 0 where
  pub models : List Model
  pub components : List Component
  pub macos_profiles : List (String × MacosProfile)

-- `d.get(key)`
unfoldable pub find {ℓ} : {A : Type ℓ} → String → List (String × A) → Option A
find key [] = none
find key ((k, a) ∷ rest) = if key == k then some a else find key rest

unfoldable pub get_component : String → List Component → Option Component
get_component component_id [] = none
get_component component_id (c ∷ rest) =
    if component_id == c.id then some c else get_component component_id rest

unfoldable pub get_components_by_category : String → List Component → List Component
get_components_by_category category [] = []
get_components_by_category category (c ∷ rest) =
    let others = get_components_by_category category rest in
    if c.category == category then c ∷ others else others

unfoldable pub get_macos : Database → String → Option MacosProfile
unfolding find lower strip
get_macos db os_name = find (lower (strip os_name)) db.macos_profiles
