-- ===== src/Dependencies/Archive/Accepts.antt =====
-- The archives that validate_zip_archive of macloader/dependencies/archive.py accepts.
use libre_core_mac_loader.Prelude.{
  ℕ, ◌+◌, ◌≤◌, ◌≡◌, ◌≢◌, refl, ◌⊎◌, inl, inr, Bool, false, List, [], ◌∷◌, nat_eq, list_eq, contains,
  contains-cons, contains-nil, list_beq_iff, All, length, arith,
}
use libre_core_mac_loader.Dependencies.Archive.Names.{
  Name, Unicode, normalized, is_empty_name, folded, is_absolute, parts_of, is_windows_part,
  has_windows_part, dotdot,
}
use libre_core_mac_loader.Dependencies.Archive.Check.{
  Member, passed, namelist, is_link, remember, check_name, check_members, lookup_in,
  validate_zip_archive,
}
use libre_core_mac_loader.Dependencies.Archive.Safe.{
  IsSafeName, IsSafeArchive, key, Apart, Fresh, IsRest,
}

has_windows_part-false :
    (u : Unicode) (parts : List Name)
    → All (λ part. is_windows_part u part ≡ false) parts
    → has_windows_part u parts ≡ false
unfolding has_windows_part
has_windows_part-false u [] h = refl
has_windows_part-false u (part ∷ parts) h = ground (arith, h.0, has_windows_part-false u parts h.1)

contains-false :
    (parts : List Name) (a : Name) → All (λ part. part ≢ a) parts → contains parts a ≡ false
unfolding contains
contains-false [] a h = refl
contains-false (part ∷ parts) a h =
    ground (arith, list_beq_iff a part, h.0, contains-false parts a h.1)

fresh_still :
    (k l : Name) (seen : List Name)
    → (l ≡ []) ⊎ (contains seen l ≡ false)
    → (k ≡ []) ⊎ (l ≢ k)
    → (l ≡ []) ⊎ (contains (remember k seen) l ≡ false)
fresh_still [] l seen h a = h
fresh_still (c ∷ k) l seen (inl e) a = inl e
fresh_still (c ∷ k) l seen (inr n) (inl e) = cc
fresh_still (c ∷ k) l seen (inr n) (inr a) =
    inr (ground (arith, contains-cons (c ∷ k) seen l, list_beq_iff l (c ∷ k)))

module _ (u : Unicode) where
  check_name-passed :
      (seen : List Name) (name : Name)
      → IsSafeName u name
      → Fresh u seen name
      → check_name u seen name ≡ passed tt
  unfolding check_name
  check_name-passed seen name i f =
      let real : is_empty_name (normalized name) ≡ false = i.real in
      let relative : is_absolute (normalized name) ≡ false = i.relative in
      let downward = contains-false (parts_of (normalized name)) dotdot i.downward in
      let portable = has_windows_part-false u (parts_of (normalized name)) i.portable in
      ground (arith, list_beq_iff (folded u (normalized name)) [])

  still-Fresh :
      (seen : List Name) (a : Name) (names : List Name)
      → All (Fresh u seen) names
      → All (Apart u a) names
      → All (Fresh u (remember (key u a) seen)) names
  still-Fresh seen a [] f p = tt
  still-Fresh seen a (b ∷ names) f p =
      (fresh_still (key u a) (key u b) seen f.0 p.0, still-Fresh seen a names f.1 p.1)

  module _ (cancel : ℕ → Bool) (info : Name → Member) (max_expanded_bytes : ℕ) where
    check_members-passed :
        (polls : ℕ) (seen : List Name) (expanded : ℕ) (names : List Name)
        → ((n : ℕ) → cancel n ≡ false)
        → IsRest u cancel info max_expanded_bytes seen expanded names
        → check_members u cancel info max_expanded_bytes polls seen expanded names ≡ passed tt
    unfolding check_members
    check_members-passed polls seen expanded [] free i = refl
    check_members-passed polls seen expanded (name ∷ names) free i =
        let rest =
          check_members-passed (polls + 1) (remember (key u name) seen)
            (expanded + (info name).file_size) names free
            record {
              named = i.named.1;
              fresh = still-Fresh seen name names i.fresh.1 i.apart.0;
              apart = i.apart.1;
              plain = i.plain.1;
              small = omega (arith, i.small);
            } in
        let checked = check_name-passed seen name i.named.0 i.fresh.0 in
        let small : expanded + (info name).file_size ≤ max_expanded_bytes =
          omega (arith, i.small) in
        let plain : is_link (info name) ≡ false = i.plain.0 in ground (arith, free polls)

none_seen : (u : Unicode) (names : List Name) → All (Fresh u []) names
none_seen u [] = tt
none_seen u (name ∷ names) = (inr (contains-nil (key u name)), none_seen u names)

-- An inspection that is not cancelled accepts every safe archive, with the list of its names.
pub validate_zip_archive_passed :
    (u : Unicode) (cancel : ℕ → Bool) (max_members max_expanded_bytes : ℕ) (members : List Member)
    → ((n : ℕ) → cancel n ≡ false)
    → IsSafeArchive u max_members max_expanded_bytes members
    → validate_zip_archive u cancel max_members max_expanded_bytes members
      ≡ passed (namelist members)
unfolding validate_zip_archive
validate_zip_archive_passed u cancel max_members max members free safe =
    let few : length (namelist members) ≤ max_members = safe.few in
    let loop =
      check_members-passed u cancel (lookup_in u members) max 0 [] 0 (namelist members) free
        (record {
          named = safe.named;
          fresh = none_seen u (namelist members);
          apart = safe.apart;
          plain = safe.plain;
          small = omega (arith, safe.small);
        }) in
    ground (arith, free 0)
