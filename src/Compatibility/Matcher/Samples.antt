-- ===== src/Compatibility/Matcher/Samples.antt =====
-- Two neighbouring laptops.
use libre_core_mac_loader.Prelude.{
  String, ◌≡◌, ◌≢◌, refl, ◌⊎◌, true, false, none, some, List, [], ◌∷◌, ◌++◌, nat_eq, list_eq,
  contains, list_beq, length,
}
use libre_core_mac_loader.Prelude.Text.{codes, is_space}
use libre_core_mac_loader.Compatibility.State.{conditional}
use libre_core_mac_loader.Compatibility.Matcher.{
  Text, Model, Snapshot, matched, refused, contradictory, unsupported_model, unknown_machine_type,
  machine_type, strip, lstrip, rstrip, upper, normalize_alias, extends, product_alias_matches,
  get_model_by_machine_type, names_match, product_matches, has_id, with_machine, by_product, choose,
  vendors, clean, match_model,
}
use libre_core_mac_loader.Compatibility.Matcher.Evidence.{Among, Evidence, match_model-Evidence}
use libre_core_mac_loader.Compatibility.Matcher.Aliases.{product_alias_matches_lem}

abbrev pub t480 : Model
t480 = record {
  id = "t480";
  display_name = "ThinkPad T480";
  cpu_generations = "Kaby Lake Refresh" ∷ [];
  default_macos_status = ("sequoia", conditional) ∷ [];
  has_mx150_option = true;
  machine_types = codes "20L5" ∷ codes "20L6" ∷ [];
  product_names = codes "ThinkPad T480" ∷ codes "20L5" ∷ [];
}

abbrev pub t480s : Model
t480s = record {
  id = "t480s";
  display_name = "ThinkPad T480s";
  cpu_generations = "Kaby Lake Refresh" ∷ [];
  default_macos_status = ("sequoia", conditional) ∷ [];
  has_mx150_option = false;
  machine_types = codes "20L7" ∷ [];
  product_names = codes "ThinkPad T480s" ∷ codes "20L7" ∷ [];
}

abbrev pub laptop : String → String → Snapshot
laptop mt version = record {
  manufacturer = some (codes "Lenovo ");
  machine_type = some (codes mt);
  product_name = none;
  product_version = some (codes version);
}

abbrev pub registry : List Model
registry = t480 ∷ t480s ∷ []

found : match_model (laptop "20l7" "ThinkPad T480s") registry ≡ matched t480s machine_type
unfolding match_model choose with_machine get_model_by_machine_type product_matches names_match
    product_alias_matches extends normalize_alias strip lstrip rstrip upper is_space has_id contains
    list_beq
found = refl

refusals :
    (match_model (laptop "20L7" "ThinkPad T480") registry ≡ refused contradictory)
    × (match_model (laptop "20KH" "ThinkPad X1") registry ≡ refused unknown_machine_type)
    × (match_model (laptop "" "ThinkPad X280") registry ≡ refused unsupported_model)
unfolding match_model choose with_machine by_product get_model_by_machine_type product_matches
    names_match product_alias_matches extends normalize_alias strip lstrip rstrip upper is_space
    has_id contains list_beq
refusals = (refl, refl, refl)

-- One of two product strings is enough, whatever the other names.
abbrev mixed : Snapshot
mixed = record {
  manufacturer = some (codes "Lenovo");
  machine_type = some (codes "20L7");
  product_name = some (codes "20L7CTO1WW");
  product_version = some (codes "ThinkPad T480");
}

mixed_found : match_model mixed registry ≡ matched t480s machine_type
unfolding match_model choose with_machine get_model_by_machine_type product_matches names_match
    product_alias_matches extends normalize_alias strip lstrip rstrip upper is_space has_id contains
    list_beq
mixed_found = refl

code_matches : product_alias_matches (codes "20L7") (codes "20L7-CTO1WW") ≡ true
unfolding product_alias_matches normalize_alias extends list_beq
code_matches = refl

match_model-Evidence_example :
    (contains vendors (upper (clean (some (codes "Lenovo ")))) ≡ true)
    × Among t480s registry
    × Evidence (laptop "20l7" "ThinkPad T480s") registry t480s
match_model-Evidence_example =
    match_model-Evidence (laptop "20l7" "ThinkPad T480s") registry t480s machine_type found

product_alias_matches_lem_example :
    (normalize_alias (codes "20L7") ≢ [])
    × ((normalize_alias (codes "20L7-CTO1WW") ≡ normalize_alias (codes "20L7"))
        ⊎ ((length (normalize_alias (codes "20L7")) ≡ 4)
            × ((suffix : Text) × (suffix ≢ [])
                × (normalize_alias (codes "20L7-CTO1WW")
                    ≡ normalize_alias (codes "20L7") ++ suffix))))
product_alias_matches_lem_example =
    product_alias_matches_lem (codes "20L7") (codes "20L7-CTO1WW") code_matches
