-- ===== src/Dependencies/Archive/Below.antt =====
-- Where the members that validate_zip_archive of macloader/dependencies/archive.py accepts lie.
use libre_core_mac_loader.Prelude.{
  ℕ, ◌≡◌, ◌≢◌, refl, ◌∙◌, sym, Bool, false, List, [], ◌∷◌, ◌++◌, ◌==◌, ◌||◌, nat_eq, list_eq,
  list_beq_iff, list_beq, All, arith, if◌then◌else◌, contains, Bool-cases, inl, inr, ◌⊎◌, subst, ap,
}
use mathlib.Core.List.{append_assoc}
use libre_core_mac_loader.Dependencies.Archive.Names.{
  Name, Unicode, normalized, parts_of, dotdot, is_absolute, root, double_root, root_of, real_parts,
  split_slash, grow,
}
use libre_core_mac_loader.Prelude.Text.{codes}
use libre_core_mac_loader.Dependencies.Archive.Check.{Member, passed, validate_zip_archive}
use libre_core_mac_loader.Dependencies.Archive.Safe.{
  IsSafeName, validate_zip_archive-IsSafeArchive, All-map,
}

abbrev is_root : Name → Bool
is_root part = part == root || part == double_root

-- One component of a path: a root leads to the root of the file system, two dots lead up, any other
-- name leads down. Directories have the last component first.
unfoldable pub enter : Name → List Name → List Name
unfolding list_beq
enter part [] = if is_root part || part == dotdot then [] else part ∷ []
enter part (top ∷ here) =
    if is_root part then [] else if part == dotdot then here else part ∷ top ∷ here

-- The directory that a path leads to from a directory.
unfoldable pub walk : List Name → List Name → List Name
walk [] here = here
walk (part ∷ parts) here = walk parts (enter part here)

-- A component that is no root has no slash.
abbrev IsStep : Name → Type 0
IsStep part = (is_root part ≡ false) × (part ≢ dotdot)

root_of-relative : (name : Name) → is_absolute name ≡ false → root_of name ≡ []
unfolding is_absolute root_of
root_of-relative [] h = refl
root_of-relative (a ∷ []) h = ground arith
root_of-relative (a ∷ b ∷ []) h = ground arith
root_of-relative (a ∷ b ∷ c ∷ rest) h = ground arith

abbrev NoSlash : Name → Type 0
NoSlash part = contains part b'/' ≡ false

split_slash-NoSlash : (name : Name) → All NoSlash (split_slash name)
unfolding split_slash contains
split_slash-NoSlash [] = (refl, tt)
split_slash-NoSlash (c ∷ name) = elim (Bool-cases (c == b'/')) [
  | inl hit ↦ rw (hit, split_slash) (refl, split_slash-NoSlash name)
  | inr miss ↦ rw (miss, split_slash) (grown c (split_slash name) miss (split_slash-NoSlash name))
]
  where
    grown :
        (c : ℕ) (parts : List Name)
        → (c == b'/') ≡ false
        → All NoSlash parts
        → All NoSlash (grow c parts)
    grown c [] miss h = (ground (arith, nat_eq.beq_iff c b'/', nat_eq.beq_iff b'/' c), tt)
    grown c (part ∷ parts) miss (h, others) =
        (ground (arith, h, nat_eq.beq_iff c b'/', nat_eq.beq_iff b'/' c), others)

real_parts-All : (P : Name → Type 0) (parts : List Name) → All P parts → All P (real_parts parts)
unfolding real_parts
real_parts-All P [] h = tt
real_parts-All P (part ∷ parts) (h, others) = elim (Bool-cases (part == [] || part == codes ".")) [
  | inl hit ↦ rw (hit, real_parts) (real_parts-All P parts others)
  | inr miss ↦ rw (miss, real_parts) (h, real_parts-All P parts others)
]

NoSlash-ne-root : (part : Name) → NoSlash part → is_root part ≡ false
unfolding contains
NoSlash-ne-root part h = elim (Bool-cases (is_root part)) [
  | inl hit ↦
      absurd (no_root (ground (arith, hit, list_beq_iff part root, list_beq_iff part double_root)))
  | inr miss ↦ miss
]
  where
    no_root : (part ≡ root) ⊎ (part ≡ double_root) → ⊥
    no_root (inl e) = let k : contains root b'/' ≡ false = rw e at h in cc
    no_root (inr e) = let k : contains double_root b'/' ≡ false = rw e at h in cc

enter-down :
    (part : Name) (here : List Name)
    → is_root part ≡ false
    → part ≢ dotdot
    → enter part here ≡ part ∷ here
unfolding enter
enter-down part [] r n = ground (arith, list_beq_iff part dotdot)
enter-down part (top ∷ here) r n = ground (arith, list_beq_iff part dotdot)

walk_below :
    (parts here : List Name)
    → All NoSlash parts
    → All (λ part. part ≢ dotdot) parts
    → (inner : List Name) × (walk parts here ≡ inner ++ here)
unfolding walk
walk_below [] here s h = ([], refl)
walk_below (part ∷ parts) here s h =
    let (inner, e) = walk_below parts (part ∷ here) s.1 h.1 in
    (
      inner ++ part ∷ [],
      ap (walk parts) (enter-down part here (NoSlash-ne-root part s.0) h.0)
          ∙ e
          ∙ sym (append_assoc inner (part ∷ []) here),
    )

-- The path of a safe name leads to a place below.
IsSafeName-below :
    (u : Unicode) (here : List Name) (name : Name)
    → IsSafeName u name
    → (inner : List Name) × (walk (parts_of (normalized name)) here ≡ inner ++ here)
unfolding parts_of
IsSafeName-below u here name i =
    let relative = root_of-relative (normalized name) i.relative in
    let steps = real_parts-All NoSlash _ (split_slash-NoSlash (normalized name)) in
    let same : parts_of (normalized name) ≡ real_parts (split_slash (normalized name)) =
      ap (λ (r : List Name). r ++ real_parts (split_slash (normalized name))) relative in
    rw same (walk_below _ here steps (subst (All (λ part. part ≢ dotdot)) same i.downward))

-- From every directory, the path of every member of an archive that passed the inspection leads to
-- a place in that directory or below it, where a path that starts with a root leads to that root.
pub validate_zip_archive_below :
    (u : Unicode) (cancel : ℕ → Bool) (max_members max_expanded_bytes : ℕ) (members : List Member)
    (names here : List Name)
    → validate_zip_archive u cancel max_members max_expanded_bytes members ≡ passed names
    → All
        (λ name. (inner : List Name) × (walk (parts_of (normalized name)) here ≡ inner ++ here))
        names
validate_zip_archive_below u cancel max_members max members names here h =
    let (same, safe) =
      validate_zip_archive-IsSafeArchive u cancel max_members max members names h in
    rw same (All-map _ (IsSafeName-below u here) safe.named)
