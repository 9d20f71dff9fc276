-- ===== src/Dependencies/Archive/Safe.antt =====
-- What validate_zip_archive of macloader/dependencies/archive.py lets through.
use libre_core_mac_loader.Prelude.{
  ℕ, ◌+◌, ◌≤◌, ◌≡◌, ◌≢◌, refl, ◌⊎◌, inl, inr, Bool, false, List, [], ◌∷◌, nat_eq, list_eq, contains,
  contains-cons, list_beq_iff, All, length, arith,
}
use libre_core_mac_loader.Dependencies.Archive.Names.{
  Name, Unicode, normalized, is_empty_name, folded, is_absolute, parts_of, is_windows_part,
  has_windows_part, dotdot,
}
use libre_core_mac_loader.Dependencies.Archive.Check.{
  Member, passed, namelist, is_link, remember, check_name, check_members, lookup_in,
  validate_zip_archive,
}

pub All-map :
    {A : Type 0} {P Q : A → Type 0} (l : List A) → ((a : A) → P a → Q a) → All P l → All Q l
All-map [] f h = tt
All-map (a ∷ l) f h = (f a h.0, All-map l f h.1)

-- A name that stays below the directory it is extracted to, on every platform.
pub record IsSafeName (u : Unicode) (name : Name) : Type 0 where
  pub real : is_empty_name (normalized name) ≡ false
  pub relative : is_absolute (normalized name) ≡ false
  pub downward : All (λ part. part ≢ dotdot) (parts_of (normalized name))
  pub portable : All (λ part. is_windows_part u part ≡ false) (parts_of (normalized name))

has_windows_part-All :
    (u : Unicode) (parts : List Name)
    → has_windows_part u parts ≡ false
    → All (λ part. is_windows_part u part ≡ false) parts
unfolding has_windows_part
has_windows_part-All u [] h = tt
has_windows_part-All u (part ∷ parts) h =
    (ground arith, has_windows_part-All u parts (ground arith))

contains-All :
    (parts : List Name) (a : Name) → contains parts a ≡ false → All (λ part. part ≢ a) parts
unfolding contains
contains-All [] a h = tt
contains-All (part ∷ parts) a h =
    (ground (arith, list_beq_iff a part), contains-All parts a (ground arith))

-- The bytes that the members announce.
abbrev pub total : (Name → Member) → List Name → ℕ
total info [] = 0
total info (name ∷ names) = (info name).file_size + total info names

-- What is new after a key was remembered was new before, and is not that key.
fresh_after :
    (k l : Name) (seen : List Name)
    → (l ≡ []) ⊎ (contains (remember k seen) l ≡ false)
    → ((l ≡ []) ⊎ (contains seen l ≡ false)) × ((k ≡ []) ⊎ (l ≢ k))
fresh_after [] l seen h = (h, inl refl)
fresh_after (c ∷ k) l seen (inl e) = (inl e, inr (λ q. cc))
fresh_after (c ∷ k) l seen (inr n) = (
  inr (ground (arith, contains-cons (c ∷ k) seen l)),
  inr (λ q. ground (arith, contains-cons (c ∷ k) seen l, list_beq_iff l (c ∷ k))),
)

module _ (u : Unicode) where
  abbrev pub key : Name → Name
  key name = folded u (normalized name)

  -- Two names do not collide.
  abbrev pub Apart : Name → Name → Type 0
  Apart a b = (key a ≡ []) ⊎ (key b ≢ key a)

  -- No two names of the list collide.
  abbrev pub AllApart : List Name → Type 0
  AllApart [] = Unit
  AllApart (name ∷ names) = All (Apart name) names × AllApart names

  abbrev pub Fresh : List Name → Name → Type 0
  Fresh seen name = (key name ≡ []) ⊎ (contains seen (key name) ≡ false)

  check_name-facts :
      (seen : List Name) (name : Name)
      → check_name u seen name ≡ passed tt
      → (is_empty_name (normalized name) ≡ false)
        × (is_absolute (normalized name) ≡ false)
        × (contains (parts_of (normalized name)) dotdot ≡ false)
        × (has_windows_part u (parts_of (normalized name)) ≡ false)
        × Fresh seen name
  unfolding check_name
  check_name-facts seen name h = ground (arith, list_beq_iff (key name) [])

  IsSafeName-check :
      (seen : List Name) (name : Name) → check_name u seen name ≡ passed tt → IsSafeName u name
  IsSafeName-check seen name h =
      let (real, relative, downward, portable, _) = check_name-facts seen name h in
      record {
        real = real;
        relative = relative;
        downward = contains-All (parts_of (normalized name)) dotdot downward;
        portable = has_windows_part-All u (parts_of (normalized name)) portable;
      }

  Fresh-before : (seen : List Name) (a b : Name) → Fresh (remember (key a) seen) b → Fresh seen b
  Fresh-before seen a b h = (fresh_after (key a) (key b) seen h).0

  Fresh-Apart : (seen : List Name) (a b : Name) → Fresh (remember (key a) seen) b → Apart a b
  Fresh-Apart seen a b h = (fresh_after (key a) (key b) seen h).1

  module _ (cancel : ℕ → Bool) (info : Name → Member) (max_expanded_bytes : ℕ) where
    pub record IsRest (seen : List Name) (expanded : ℕ) (names : List Name) : Type 0 where
      pub named : All (IsSafeName u) names
      pub fresh : All (Fresh seen) names
      pub apart : AllApart names
      pub plain : All (λ name. is_link (info name) ≡ false) names
      pub small : expanded + total info names ≤ max_expanded_bytes

    step-facts :
        (polls : ℕ) (seen : List Name) (expanded : ℕ) (name : Name) (names : List Name)
        → check_members u cancel info max_expanded_bytes polls seen expanded (name ∷ names)
          ≡ passed tt
        → (check_name u seen name ≡ passed tt)
          × (is_link (info name) ≡ false)
          × (expanded + (info name).file_size ≤ max_expanded_bytes)
          × (check_members u cancel info max_expanded_bytes
                (polls + 1)
                (remember (key name) seen)
                (expanded + (info name).file_size)
                names
              ≡ passed tt)
    unfolding check_members
    step-facts polls seen expanded name names h = ground arith

    check_members-IsRest :
        (polls : ℕ) (seen : List Name) (expanded : ℕ) (names : List Name)
        → expanded ≤ max_expanded_bytes
        → check_members u cancel info max_expanded_bytes polls seen expanded names ≡ passed tt
        → IsRest seen expanded names
    check_members-IsRest polls seen expanded [] b h = record {
      named = tt;
      fresh = tt;
      apart = tt;
      plain = tt;
      small = omega arith;
    }
    check_members-IsRest polls seen expanded (name ∷ names) b h =
        let (checked, plain, fits, rest) = step-facts polls seen expanded name names h in
        let i =
          check_members-IsRest (polls + 1) (remember (key name) seen)
            (expanded + (info name).file_size) names fits rest in
        let (_, _, _, _, fresh) = check_name-facts seen name checked in
        record {
          named = (IsSafeName-check seen name checked, i.named);
          fresh = (fresh, All-map names (Fresh-before seen name) i.fresh);
          apart = (All-map names (Fresh-Apart seen name) i.fresh, i.apart);
          plain = (plain, i.plain);
          small = omega (arith, i.small);
        }

-- An archive whose extraction is bounded and stays below its target.
pub record IsSafeArchive (u : Unicode) (max_members max_expanded_bytes : ℕ) (members : List Member)
    : Type 0 where
  pub few : length (namelist members) ≤ max_members
  pub named : All (IsSafeName u) (namelist members)
  pub apart : AllApart u (namelist members)
  pub plain : All (λ name. is_link (lookup_in u members name) ≡ false) (namelist members)
  pub small : total (lookup_in u members) (namelist members) ≤ max_expanded_bytes

-- An archive passes the inspection only if it has at most the given number of members and of
-- expanded bytes, no member is a symbolic link, no two names collide, and every name is relative,
-- leads downward only and has no component that Windows reads in a way of its own; the result is
-- the list of its names.
pub validate_zip_archive-IsSafeArchive :
    (u : Unicode) (cancel : ℕ → Bool) (max_members max_expanded_bytes : ℕ) (members : List Member)
    (names : List Name)
    → validate_zip_archive u cancel max_members max_expanded_bytes members ≡ passed names
    → (names ≡ namelist members) × IsSafeArchive u max_members max_expanded_bytes members
unfolding validate_zip_archive
validate_zip_archive-IsSafeArchive u cancel max_members max members names h =
    let (few, loop, same) = facts in
    let i =
      check_members-IsRest u cancel (lookup_in u members) max 0 [] 0 (namelist members)
        (omega arith) loop in
    (
      same,
      record {
        few = few;
        named = i.named;
        apart = i.apart;
        plain = i.plain;
        small = omega (arith, i.small);
      },
    )
  where
    facts :
        (length (namelist members) ≤ max_members)
        × (check_members u cancel (lookup_in u members) max 0 [] 0 (namelist members) ≡ passed tt)
        × (names ≡ namelist members)
    facts = ground arith
