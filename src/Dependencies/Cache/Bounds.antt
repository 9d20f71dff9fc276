-- ===== src/Dependencies/Cache/Bounds.antt =====
-- What `_prune_cache_locked` of macloader/dependencies/cache.py removes, and what it leaves.
use libre_core_mac_loader.Prelude.{
  ℕ, ◌-◌, String, ◌≡◌, refl, ap, inl, inr, Bool, true, false, List, [], ◌∷◌, string_eq, contains,
  leb, arith, Bool-cases, beq_cases,
}
use libre_core_mac_loader.Dependencies.Cache.Files.{
  Entry, read_file, is_prunable, prunable, insert_by_mtime, sort_by_mtime, remove_names, total_size,
  prune_loop,
}

abbrev pub names_of : List Entry → List String
names_of [] = []
names_of (f ∷ files) = f.name ∷ names_of files

module _ (size : String → ℕ) (max_cache_bytes : ℕ) (is_active_lease : String → Bool) where
  -- What is unlinked is no active lease and one of the files.
  pub prune_loop-contains :
      (total : ℕ) (files : List Entry) (name : String)
      → contains (prune_loop size max_cache_bytes is_active_lease total files) name ≡ true
      → (is_active_lease name ≡ false) × (contains (names_of files) name ≡ true)
  unfolding prune_loop contains
  prune_loop-contains total [] name h = cc
  prune_loop-contains total (f ∷ files) name h = elim (Bool-cases (leb total max_cache_bytes)) [
    | inl e ↦ absurd (ground arith)
    | inr e ↦ elim (Bool-cases (is_active_lease f.name)) [
      | inl g ↦ ground (arith, prune_loop-contains total files name)
      | inr g ↦ ground (
        arith,
        prune_loop-contains (total - size f.content) files name,
        string_eq.beq_iff name f.name,
      )
    ]
  ]

pub names_of-insert :
    (f : Entry) (files : List Entry) (a : String)
    → contains (names_of (insert_by_mtime f files)) a ≡ contains (names_of (f ∷ files)) a
unfolding insert_by_mtime contains
names_of-insert f [] a = refl
names_of-insert f (g ∷ files) a = ground (arith, names_of-insert f files a)

pub names_of-sort :
    (files : List Entry) (a : String)
    → contains (names_of (sort_by_mtime files)) a ≡ contains (names_of files) a
unfolding sort_by_mtime contains
names_of-sort [] a = refl
names_of-sort (f ∷ files) a =
    ground (arith, names_of-insert f (sort_by_mtime files) a, names_of-sort files a)

pub names_of-prunable :
    (files : List Entry) (a : String)
    → contains (names_of (prunable files)) a ≡ true
    → is_prunable a ≡ true
unfolding prunable contains
names_of-prunable [] a h = cc
names_of-prunable (f ∷ files) a h = elim (Bool-cases (is_prunable f.name)) [
  | inl e ↦ elim (beq_cases a f.name) [
    | inl g ↦ rw (g) e
    | inr g ↦ names_of-prunable files a (rw (prunable, e, contains, g) at h)
  ]
  | inr e ↦ names_of-prunable files a (rw (prunable, e) at h)
]

pub read_file-remove :
    (names : List String) (files : List Entry) (name : String)
    → contains names name ≡ false
    → read_file name (remove_names names files) ≡ read_file name files
unfolding read_file remove_names
read_file-remove names [] name h = refl
read_file-remove names (f ∷ files) name h =
    ground (arith, read_file-remove names files name h, string_eq.beq_iff name f.name)

-- The prunable part of what is kept is what is kept of the prunable part.
pub prunable-remove :
    (names : List String) (files : List Entry)
    → prunable (remove_names names files) ≡ remove_names names (prunable files)
unfolding remove_names prunable
prunable-remove names [] = refl
prunable-remove names (f ∷ files) = elim (Bool-cases (contains names f.name)) [
  | inl e ↦ elim (Bool-cases (is_prunable f.name)) [
    | inl g ↦ rw (e, g, e) (prunable-remove names files)
    | inr g ↦ rw (e, g) (prunable-remove names files)
  ]
  | inr e ↦ elim (Bool-cases (is_prunable f.name)) [
    | inl g ↦ rw (e, g, e) (ap (λ l. f ∷ l) (prunable-remove names files))
    | inr g ↦ rw (e, g) (prunable-remove names files)
  ]
]

module _ (size : String → ℕ) where
  total_size-insert :
      (names : List String) (f : Entry) (files : List Entry)
      → total_size size (remove_names names (insert_by_mtime f files))
        ≡ total_size size (remove_names names (f ∷ files))
  unfolding insert_by_mtime remove_names total_size
  total_size-insert names f [] = refl
  total_size-insert names f (g ∷ files) = ground (arith, total_size-insert names f files)

  pub total_size-sort :
      (names : List String) (files : List Entry)
      → total_size size (remove_names names (sort_by_mtime files))
        ≡ total_size size (remove_names names files)
  unfolding sort_by_mtime remove_names total_size
  total_size-sort names [] = refl
  total_size-sort names (f ∷ files) =
      ground (arith, total_size-insert names f (sort_by_mtime files), total_size-sort names files)
