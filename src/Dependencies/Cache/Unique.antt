-- ===== src/Dependencies/Cache/Unique.antt =====
-- Directories of macloader/dependencies/cache.py in which no name comes twice.
use libre_core_mac_loader.Prelude.{
  String, ◌≡◌, refl, ap, ◌∙◌, inl, inr, true, false, List, [], ◌∷◌, ◌==◌, string_eq, contains, leb,
  arith, Bool-cases,
}
use libre_core_mac_loader.Dependencies.Cache.Files.{
  Entry, is_prunable, prunable, insert_by_mtime, sort_by_mtime, remove_names,
}
use libre_core_mac_loader.Dependencies.Cache.Bounds.{names_of, names_of-insert, names_of-sort}

-- No name comes twice.
abbrev pub Unique : List Entry → Type 0
Unique [] = Unit
Unique (f ∷ files) = (contains (names_of files) f.name ≡ false) × Unique files

cons-fresh :
    (a b : String) (names : List String)
    → contains (b ∷ names) a ≡ false
    → ((a == b) ≡ false) × (contains names a ≡ false)
unfolding contains
cons-fresh a b names h = (ground arith, ground arith)

cons-missing :
    (a b : String) (names : List String)
    → (a == b) ≡ false
    → contains names b ≡ false
    → contains (a ∷ names) b ≡ false
unfolding contains
cons-missing a b names h g = ground (arith, string_eq.beq_iff a b, string_eq.beq_iff b a)

Unique-insert :
    (f : Entry) (files : List Entry)
    → contains (names_of files) f.name ≡ false
    → Unique files
    → Unique (insert_by_mtime f files)
unfolding insert_by_mtime
Unique-insert f [] h unique = (h, tt)
Unique-insert f (g ∷ files) h (fresh, unique) =
    let (apart, others) = cons-fresh f.name g.name (names_of files) h in
    let later : contains (names_of (insert_by_mtime f files)) g.name ≡ false =
      names_of-insert f files g.name ∙ cons-missing f.name g.name (names_of files) apart fresh in
    elim (Bool-cases (leb f.mtime g.mtime)) [
      | inl e ↦ rw (e) (h, (fresh, unique))
      | inr e ↦ rw (e) (later, Unique-insert f files others unique)
    ]

pub Unique-sort : (files : List Entry) → Unique files → Unique (sort_by_mtime files)
unfolding sort_by_mtime
Unique-sort [] h = tt
Unique-sort (f ∷ files) (fresh, unique) =
    Unique-insert f (sort_by_mtime files) (names_of-sort files f.name ∙ fresh)
      (Unique-sort files unique)

names_of-prunable_missing :
    (files : List Entry) (a : String)
    → contains (names_of files) a ≡ false
    → contains (names_of (prunable files)) a ≡ false
unfolding prunable contains
names_of-prunable_missing [] a h = refl
names_of-prunable_missing (f ∷ files) a h = elim (Bool-cases (is_prunable f.name)) [
  | inl e ↦ rw (e) (ground (arith, names_of-prunable_missing files a))
  | inr e ↦ rw (e) (names_of-prunable_missing files a (ground arith))
]

pub Unique-prunable : (files : List Entry) → Unique files → Unique (prunable files)
unfolding prunable
Unique-prunable [] h = tt
Unique-prunable (f ∷ files) (fresh, unique) = elim (Bool-cases (is_prunable f.name)) [
  | inl e ↦ rw (e) (names_of-prunable_missing files f.name fresh, Unique-prunable files unique)
  | inr e ↦ rw (e) (Unique-prunable files unique)
]

pub remove_names-fresh :
    (a : String) (names : List String) (files : List Entry)
    → contains (names_of files) a ≡ false
    → remove_names (a ∷ names) files ≡ remove_names names files
unfolding remove_names contains
remove_names-fresh a names [] h = refl
remove_names-fresh a names (f ∷ files) h = ground (
  arith,
  remove_names-fresh a names files,
  string_eq.beq_iff a f.name,
  string_eq.beq_iff f.name a,
)

pub remove_names-keep :
    (f : Entry) (names : List String) (files : List Entry)
    → contains names f.name ≡ false
    → remove_names names (f ∷ files) ≡ f ∷ remove_names names files
unfolding remove_names
remove_names-keep f names files h = rw (h) refl

pub remove_names-drop :
    (f : Entry) (names : List String) (files : List Entry)
    → contains names f.name ≡ true
    → remove_names names (f ∷ files) ≡ remove_names names files
unfolding remove_names
remove_names-drop f names files h = rw (h) refl

pub remove_names-nil : (files : List Entry) → remove_names [] files ≡ files
unfolding remove_names contains
remove_names-nil [] = refl
remove_names-nil (f ∷ files) = ap (λ l. f ∷ l) (remove_names-nil files)
