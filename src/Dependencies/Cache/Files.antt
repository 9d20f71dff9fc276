-- ===== src/Dependencies/Cache/Files.antt =====
-- The downloads directory of macloader/dependencies/cache.py and `_prune_cache_locked`. A directory is a
-- list with one entry for each name; what a file weighs is a parameter.
use libre_core_mac_loader.Prelude.{
  ℕ, ◌+◌, ◌-◌, String, Bool, true, false, not, ◌&&◌, ◌||◌, Option, none, some, List, [], ◌∷◌, ◌==◌,
  string_eq, contains, reverse, leb, nat_beq, if◌then◌else◌,
}
use libre_core_mac_loader.Prelude.Text.{codes}
use libre_core_mac_loader.Compatibility.Components.{is_filled}

-- A file of the directory
pub record Entry : Type 0 where
  pub name : String
  pub content : String
  pub mtime : ℕ

-- What the index tells of an artifact
pub record Indexed : Type 0 where
  pub key : String
  pub sha256 : String
  pub path : String
  pub size_bytes : ℕ

pub record Cache : Type 0 where
  pub files : List Entry
  pub index : List Indexed

unfoldable pub read_file : String → List Entry → Option String
read_file name [] = none
read_file name (f ∷ files) = if name == f.name then some f.content else read_file name files

-- `os.replace(tmp, target)`
unfoldable pub write_file : Entry → List Entry → List Entry
write_file new [] = new ∷ []
write_file new (f ∷ files) = if new.name == f.name then new ∷ files else f ∷ write_file new files

-- `name.startswith(".")` and `name.endswith((".part", ".tmp"))`
unfoldable pub starts_with : List ℕ → List ℕ → Bool
starts_with [] s = true
starts_with (p ∷ prefix) [] = false
starts_with (p ∷ prefix) (c ∷ s) = nat_beq p c && starts_with prefix s

unfoldable pub ends_with : List ℕ → List ℕ → Bool
unfolding starts_with
ends_with suffix s = starts_with (reverse suffix) (reverse s)

unfoldable pub is_prunable : String → Bool
unfolding starts_with ends_with
is_prunable name =
    not (starts_with (codes ".") (codes name))
    && not (ends_with (codes ".part") (codes name) || ends_with (codes ".tmp") (codes name))

unfoldable pub prunable : List Entry → List Entry
unfolding is_prunable
prunable [] = []
prunable (f ∷ files) = let rest = prunable files in if is_prunable f.name then f ∷ rest else rest

-- `sorted(files, key=lambda item: item.stat().st_mtime)`, which is stable
unfoldable pub insert_by_mtime : Entry → List Entry → List Entry
insert_by_mtime f [] = f ∷ []
insert_by_mtime f (g ∷ files) =
    if leb f.mtime g.mtime then f ∷ g ∷ files else g ∷ insert_by_mtime f files

unfoldable pub sort_by_mtime : List Entry → List Entry
unfolding insert_by_mtime
sort_by_mtime [] = []
sort_by_mtime (f ∷ files) = insert_by_mtime f (sort_by_mtime files)

unfoldable pub remove_names : List String → List Entry → List Entry
unfolding contains
remove_names names [] = []
remove_names names (f ∷ files) =
    let rest = remove_names names files in if contains names f.name then rest else f ∷ rest

unfoldable pub remaining : List Entry → List Indexed → List Indexed
unfolding read_file
remaining files [] = []
remaining files (i ∷ index) =
    let rest = remaining files index in
    elim (read_file i.path files) [ none ↦ rest | some _ ↦ i ∷ rest ]

module _ (size : String → ℕ) where
  unfoldable pub total_size : List Entry → ℕ
  total_size [] = 0
  total_size (f ∷ files) = size f.content + total_size files

  module _ (max_cache_bytes : ℕ) (is_active_lease : String → Bool) where
    -- The loop of `_prune_cache_locked`: the names that it unlinks.
    unfoldable pub prune_loop : ℕ → List Entry → List String
    prune_loop total [] = []
    prune_loop total (f ∷ files) =
        let kept = prune_loop total files in
        let pruned = prune_loop (total - size f.content) files in
        if leb total max_cache_bytes
        then []
        else if is_active_lease f.name
        then kept
        else f.name ∷ pruned

    unfoldable pub pruned_names : List Entry → List String
    unfolding total_size prune_loop prunable sort_by_mtime
    pruned_names files = prune_loop (total_size (prunable files)) (sort_by_mtime (prunable files))

    unfoldable pub prune_cache : Cache → Cache
    unfolding pruned_names remove_names remaining
    prune_cache cache =
        let names = pruned_names cache.files in
        let files = remove_names names cache.files in
        record {
          files = files;
          index = if is_filled names then remaining files cache.index else cache.index;
        }
