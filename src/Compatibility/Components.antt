-- ===== src/Compatibility/Components.antt =====
-- The matching of a device with a component: the `_match` methods of CompatibilityEngine in
-- macloader/compatibility/engine.py. The methods get the components of their category.
use libre_core_mac_loader.Prelude.{
  ℕ, String, Bool, true, false, not, ◌&&◌, ◌||◌, Option, none, some, List, [], ◌∷◌, ◌==◌, string_eq,
  contains, map, nat_beq, if◌then◌else◌,
}
use Prim.Native.Char.{code}
use Prim.Native.Nat.{zero, suc}
use libre_core_mac_loader.Prelude.Text.{lower, mentions}
use libre_core_mac_loader.Compatibility.Registry.{Rules, Component}
use libre_core_mac_loader.Compatibility.Hardware.{PciDevice, pci_id, StorageInfo, InputDeviceInfo}

-- `_get_rule_strings`
abbrev pub get_rule_strings : List String → List String
get_rule_strings rule = map lower rule

-- Whether a list is not empty, as Python's truth of it.
abbrev pub is_filled {ℓ} : {A : Type ℓ} → List A → Bool
is_filled [] = false
is_filled (a ∷ l) = true

-- The truth of a text.
abbrev pub is_text : String → Bool
is_text s = not (s == "")

-- `_match_component_by_pci`
unfoldable pub match_component_by_pci : Option String → List Component → Option Component
match_component_by_pci none comps = none
match_component_by_pci (some id) [] = none
match_component_by_pci (some id) (c ∷ rest) =
    if contains (get_rule_strings c.rules.pci_ids) (lower id)
    then some c
    else match_component_by_pci (some id) rest

-- `_match_component_by_usb`
unfoldable pub match_component_by_usb : Option String → List Component → Option Component
match_component_by_usb none comps = none
match_component_by_usb (some id) [] = none
match_component_by_usb (some id) (c ∷ rest) =
    if contains (get_rule_strings c.rules.usb_ids) (lower id)
    then some c
    else match_component_by_usb (some id) rest

-- The tests of `_match_input_component` for one component.
unfoldable pub accepts_input : String → String → Rules → Bool
accepts_input kind bus rules =
    contains (get_rule_strings rules.kinds) kind
    && not (
        is_filled (get_rule_strings rules.buses)
        && not (contains (get_rule_strings rules.buses) bus))

unfoldable pub match_input_component : InputDeviceInfo → List Component → Option Component
match_input_component inp [] = none
match_input_component inp (c ∷ rest) =
    if accepts_input (lower inp.kind) (lower inp.bus) c.rules
    then some c
    else match_input_component inp rest

-- `any(cn in text for cn in names)`
unfoldable pub mentions_any : String → List String → Bool
mentions_any text [] = false
mentions_any text (name ∷ names) = mentions text name || mentions_any text names

abbrev has_codec_id : Option String → List String → Bool
has_codec_id none ids = false
has_codec_id (some id) ids = is_text id && contains ids (lower id)

abbrev has_codec_name : Option String → List String → Bool
has_codec_name none names = false
has_codec_name (some name) names = is_text name && mentions_any (lower name) names

-- The tests of `_match_component_by_codec` for one component.
unfoldable pub accepts_codec : Option String → Option String → Component → Bool
accepts_codec codec_id codec_name c =
    has_codec_id codec_id (get_rule_strings c.rules.codec_ids)
    || has_codec_name codec_name (get_rule_strings c.rules.codec_names)
    || (has_codec_name codec_name ("alc257" ∷ []) && c.id == "realtek-alc257")

unfoldable pub match_component_by_codec :
    Option String → Option String → List Component → Option Component
match_component_by_codec codec_id codec_name [] = none
match_component_by_codec codec_id codec_name (c ∷ rest) =
    if accepts_codec codec_id codec_name c
    then some c
    else match_component_by_codec codec_id codec_name rest

-- `s[:n]`
unfoldable pub take_chars : ℕ → String → String
take_chars zero s = String.[]
take_chars (suc n) String.[] = String.[]
take_chars (suc n) (String.◌∷◌ c s) = String.◌∷◌ c (take_chars n s)

-- `s.replace("*", "")`
unfoldable pub without_star : String → String
without_star String.[] = String.[]
without_star (String.◌∷◌ c s) =
    let rest = without_star s in if nat_beq (code c) b'*' then rest else String.◌∷◌ c rest

-- `any(pattern and pattern in model for pattern in patterns)`
unfoldable pub mentions_pattern : String → List String → Bool
mentions_pattern model [] = false
mentions_pattern model (pattern ∷ patterns) =
    (is_text pattern && mentions model pattern) || mentions_pattern model patterns

abbrev pci_in : Option PciDevice → List String → Bool
pci_in none ids = false
pci_in (some d) ids = is_text (lower (pci_id d)) && contains ids (lower (pci_id d))

abbrev class_of : Option String → String
class_of none = ""
class_of (some c) = lower (take_chars 4 c)

abbrev class_in : Option PciDevice → List String → Bool
class_in none classes = false
class_in (some d) classes =
    is_text (class_of d.device_class) && contains classes (class_of d.device_class)

-- The tests of `_match_storage` for one component.
unfoldable pub accepts_storage : StorageInfo → Rules → Bool
accepts_storage st rules =
    pci_in st.pci (get_rule_strings rules.pci_ids)
    || class_in st.pci (map (take_chars 4) (get_rule_strings rules.device_classes))
    || mentions_pattern (lower st.model) (map without_star (get_rule_strings rules.model_patterns))
    || (is_text (lower st.kind) && contains (get_rule_strings rules.kinds) (lower st.kind))

unfoldable pub match_storage : StorageInfo → List Component → Option Component
match_storage st [] = none
match_storage st (c ∷ rest) = if accepts_storage st c.rules then some c else match_storage st rest
