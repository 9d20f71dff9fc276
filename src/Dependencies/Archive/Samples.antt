-- ===== src/Dependencies/Archive/Samples.antt =====
-- Small archives, and what the inspection says of them.
use libre_core_mac_loader.Prelude.{
  ℕ, ◌+◌, String, ◌≡◌, refl, Bool, false, List, [], ◌∷◌, ◌++◌, nat_eq, contains, list_beq, leb, All,
  if◌then◌else◌, ◌&&◌,
}
use Prim.Native.Nat.{◌-◌}
use libre_core_mac_loader.Prelude.Text.{codes}
use libre_core_mac_loader.Dependencies.Archive.Names.{
  Name, Unicode, normalized, rstrip, lstrip, is_empty_name, folded, is_absolute, split_slash,
  real_parts, root_of, parts_of, before_dot, ends_badly, is_port, is_windows_part, has_windows_part,
}
use libre_core_mac_loader.Dependencies.Archive.Check.{
  Member, Verdict, passed, refused, collision, absolute_path, traversal, windows_path,
  symlink_member, too_large, namelist, getinfo, is_link, check_name, check_members,
  validate_zip_archive,
}
use libre_core_mac_loader.Dependencies.Archive.Safe.{
  IsSafeArchive, validate_zip_archive-IsSafeArchive,
}
use libre_core_mac_loader.Dependencies.Archive.Accepts.{validate_zip_archive_passed}
use libre_core_mac_loader.Dependencies.Archive.Below.{enter, walk, validate_zip_archive_below}

abbrev lowered : Name → Name
lowered [] = []
lowered (c ∷ name) = (if leb 65 c && leb c 90 then c + 32 else c) ∷ lowered name

abbrev raised : Name → Name
raised [] = []
raised (c ∷ name) = (if leb 97 c && leb c 122 then c - 32 else c) ∷ raised name

-- The methods on the ASCII range.
abbrev ascii : Unicode
ascii = record { casefold = lowered; upper = raised; is_digit = λ c. leb b'0' c && leb c b'9' }

abbrev never : ℕ → Bool
never n = false

abbrev member : String → ℕ → Member
member name size = record { name = codes name; external_attr = 0; file_size = size }

abbrev good : List Member
good = member "Lilu.kext/" 0 ∷ member "Lilu.kext/Contents/Info.plist" 900 ∷ []

abbrev good_names : List Name
good_names = codes "Lilu.kext/" ∷ codes "Lilu.kext/Contents/Info.plist" ∷ []

good_passed : validate_zip_archive ascii never 10 1_000 good ≡ passed good_names
unfolding validate_zip_archive check_members check_name getinfo is_link normalized rstrip lstrip
    is_empty_name folded is_absolute split_slash real_parts root_of parts_of before_dot ends_badly
    is_port is_windows_part has_windows_part contains list_beq
good_passed = refl

abbrev one : Member → Verdict (List Name)
one m = validate_zip_archive ascii never 10 1_000 (m ∷ good)

refusals :
    (one (member "lilu.KEXT" 1) ≡ refused (collision (codes "Lilu.kext/")))
    × (one (member "a\\..\\b" 1) ≡ refused (traversal (codes "a\\..\\b")))
    × (one (member "x/nul.txt" 1) ≡ refused (windows_path (codes "x/nul.txt")))
    × (one (member "x" 101) ≡ refused too_large)
    × (one (record { name = codes "x"; external_attr = 2_717_843_456; file_size = 1 })
        ≡ refused (symlink_member (codes "x")))
unfolding validate_zip_archive check_members check_name getinfo is_link normalized rstrip lstrip
    is_empty_name folded is_absolute split_slash real_parts root_of parts_of before_dot ends_badly
    is_port is_windows_part has_windows_part contains list_beq
refusals = (refl, refl, refl, refl, refl)

-- Where names lead that the inspection refuses.
leads :
    (walk (parts_of (codes "/etc/x")) (codes "efi" ∷ []) ≡ codes "x" ∷ codes "etc" ∷ [])
    × (walk (parts_of (codes "a/../../x")) (codes "efi" ∷ []) ≡ codes "x" ∷ [])
    × (one (member "/etc/x" 1) ≡ refused (absolute_path (codes "/etc/x")))
unfolding validate_zip_archive check_members check_name normalized rstrip lstrip is_empty_name
    folded is_absolute split_slash real_parts root_of parts_of walk enter contains list_beq
leads = (refl, refl, refl)

validate_zip_archive-IsSafeArchive_example :
    (good_names ≡ namelist good) × IsSafeArchive ascii 10 1_000 good
validate_zip_archive-IsSafeArchive_example =
    validate_zip_archive-IsSafeArchive ascii never 10 1_000 good good_names good_passed

validate_zip_archive_below_example :
    All
      (λ name.
        (inner : List Name) × (walk (parts_of (normalized name)) (codes "efi" ∷ [])
          ≡ inner ++ codes "efi" ∷ []))
      good_names
validate_zip_archive_below_example =
    validate_zip_archive_below ascii never 10 1_000 good good_names (codes "efi" ∷ []) good_passed

validate_zip_archive_passed_example :
    validate_zip_archive ascii never 10 1_000 good ≡ passed (namelist good)
validate_zip_archive_passed_example =
    validate_zip_archive_passed ascii never 10 1_000 good (λ n. refl)
      (validate_zip_archive-IsSafeArchive ascii never 10 1_000 good good_names good_passed).1
