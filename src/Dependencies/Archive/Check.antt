-- ===== src/Dependencies/Archive/Check.antt =====
-- validate_zip_archive of macloader/dependencies/archive.py, over the members that the zip reader
-- lists.
use libre_core_mac_loader.Prelude.{
  ℕ, ◌+◌, ◌/◌, ◌%◌, Bool, true, false, not, ◌&&◌, List, [], ◌∷◌, ◌==◌, nat_eq, list_eq, contains,
  ltb, length, if◌then◌else◌, list_beq,
}
use libre_core_mac_loader.Dependencies.Archive.Names.{
  Name, Unicode, normalized, is_empty_name, folded, is_absolute, parts_of, has_windows_part, dotdot,
}

-- `ZipInfo`, with the fields that are read.
pub record Member : Type 0 where
  pub name : Name
  pub external_attr : ℕ
  pub file_size : ℕ

-- The refusals, one for each message.
pub data ArchiveError : Type 0 where
  too_many_members too_large cancelled : ArchiveError
  invalid_name collision absolute_path traversal windows_path symlink_member : Name → ArchiveError

pub data Verdict {ℓ} (A : Type ℓ) : Type ℓ where
  passed : A → Verdict A
  refused : ArchiveError → Verdict A

infixl 5 ◌>>=◌ ◌>>◌
abbrev pub ◌>>=◌ {ℓ κ} : {A : Type ℓ} {B : Type κ} → Verdict A → (A → Verdict B) → Verdict B
passed a >>= f = f a
refused e >>= f = refused e

abbrev pub ◌>>◌ {ℓ} : {B : Type ℓ} → Verdict (Unit {0}) → Verdict B → Verdict B
m >> k = m >>= λ _. k

abbrev pub refuse_if : Bool → ArchiveError → Verdict (Unit {0})
refuse_if true e = refused e
refuse_if false e = passed tt

-- `zf.namelist()`
unfoldable pub namelist : List Member → List Name
namelist [] = []
namelist (m ∷ members) = m.name ∷ namelist members

-- `zf.getinfo(name)`: the last member with the name; the first argument is the one found so far.
unfoldable pub getinfo : Member → Name → List Member → Member
unfolding list_beq
getinfo found name [] = found
getinfo found name (m ∷ members) = getinfo (if m.name == name then m else found) name members

-- `(info.external_attr >> 16) & 0o170000 == stat.S_IFLNK`
unfoldable pub is_link : Member → Bool
is_link info = info.external_attr / 65_536 / 4_096 % 16 == 10

-- `if folded: seen.add(folded)`
abbrev pub remember : Name → List Name → List Name
remember [] seen = seen
remember (c ∷ key) seen = (c ∷ key) ∷ seen

module _ (u : Unicode) where
  -- The tests of a name, up to the lookup of its entry.
  unfoldable pub check_name : List Name → Name → Verdict (Unit {0})
  check_name seen name = do
    refuse_if (is_empty_name (normalized name)) (invalid_name name)
    refuse_if (not (folded u (normalized name) == []) && contains seen (folded u (normalized name)))
        (collision name)
    refuse_if (is_absolute (normalized name)) (absolute_path name)
    refuse_if (contains (parts_of (normalized name)) dotdot) (traversal name)
    refuse_if (has_windows_part u (parts_of (normalized name))) (windows_path name)

  module _ (cancel : ℕ → Bool) (info : Name → Member) (max_expanded_bytes : ℕ) where
    -- The loop; `cancel` is a function of the number of the calls before, `info` is `zf.getinfo`.
    unfoldable pub check_members : ℕ → List Name → ℕ → List Name → Verdict (Unit {0})
    check_members polls seen expanded [] = passed tt
    check_members polls seen expanded (name ∷ names) = do
      refuse_if (cancel polls) cancelled
      check_name seen name
      refuse_if (is_link (info name)) (symlink_member name)
      refuse_if (ltb max_expanded_bytes (expanded + (info name).file_size)) too_large
      check_members (polls + 1) (remember (folded u (normalized name)) seen)
          (expanded + (info name).file_size) names

  abbrev pub lookup_in : List Member → Name → Member
  lookup_in members name =
      getinfo (record { name = name; external_attr = 0; file_size = 0 }) name members

  -- `validate_zip_archive`
  unfoldable pub validate_zip_archive : (ℕ → Bool) → ℕ → ℕ → List Member → Verdict (List Name)
  unfolding namelist
  validate_zip_archive cancel max_members max_expanded_bytes members = do
    refuse_if (ltb max_members (length (namelist members))) too_many_members
    check_members cancel (lookup_in members) max_expanded_bytes 0 [] 0 (namelist members)
    passed (namelist members)
