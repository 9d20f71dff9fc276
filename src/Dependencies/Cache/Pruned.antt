-- ===== src/Dependencies/Cache/Pruned.antt =====
-- How far `_prune_cache_locked` of macloader/dependencies/cache.py prunes.
use libre_core_mac_loader.Prelude.{
  ℕ, ◌+◌, ◌-◌, ◌≤◌, String, ◌≡◌, refl, sym, ap, subst, ◌∙◌, ◌⊎◌, inl, inr, Bool, true, false, ◌&&◌,
  List, [], ◌∷◌, string_eq, contains, contains-cons_self, leb, arith, Bool-cases,
}
use libre_core_mac_loader.Dependencies.Cache.Files.{
  Entry, Cache, read_file, is_prunable, prunable, insert_by_mtime, sort_by_mtime, remove_names,
  total_size, prune_loop, pruned_names, prune_cache,
}
use libre_core_mac_loader.Dependencies.Cache.Bounds.{
  names_of, prune_loop-contains, names_of-sort, names_of-prunable, read_file-remove,
  prunable-remove, total_size-sort,
}
use libre_core_mac_loader.Dependencies.Cache.Unique.{
  Unique, Unique-sort, Unique-prunable, remove_names-fresh, remove_names-nil, remove_names-keep,
  remove_names-drop,
}

module _ (size : String → ℕ) (max_cache_bytes : ℕ) (is_active_lease : String → Bool) where
  -- Every file is leased.
  unfoldable pub all_leased : List Entry → Bool
  all_leased [] = true
  all_leased (f ∷ files) = is_active_lease f.name && all_leased files

  all_leased-insert :
      (names : List String) (f : Entry) (files : List Entry)
      → all_leased (remove_names names (insert_by_mtime f files))
        ≡ all_leased (remove_names names (f ∷ files))
  unfolding insert_by_mtime remove_names all_leased
  all_leased-insert names f [] = refl
  all_leased-insert names f (g ∷ files) = ground (arith, all_leased-insert names f files)

  all_leased-sort :
      (names : List String) (files : List Entry)
      → all_leased (remove_names names (sort_by_mtime files))
        ≡ all_leased (remove_names names files)
  unfolding sort_by_mtime remove_names all_leased
  all_leased-sort names [] = refl
  all_leased-sort names (f ∷ files) =
      ground (arith, all_leased-insert names f (sort_by_mtime files), all_leased-sort names files)

  abbrev loop : ℕ → List Entry → List String
  loop = prune_loop size max_cache_bytes is_active_lease

  -- What is left is within the limit, or leased; `kept` is the size of the leased files that the
  -- loop has passed.
  abbrev Within : ℕ → List Entry → Type 0
  Within kept left = (kept + total_size size left ≤ max_cache_bytes) ⊎ (all_leased left ≡ true)

  Within-under :
      (kept total : ℕ) (files : List Entry)
      → total ≡ kept + total_size size files
      → leb total max_cache_bytes ≡ true
      → Within kept files
  Within-under kept total files h e = inl (ground arith)

  Within-leased :
      (kept : ℕ) (f : Entry) (files : List Entry)
      → is_active_lease f.name ≡ true
      → Within (kept + size f.content) files
      → Within kept (f ∷ files)
  unfolding total_size all_leased
  Within-leased kept f files g (inl h) = inl (omega arith)
  Within-leased kept f files g (inr h) = inr (ground arith)

  left_under :
      (total : ℕ) (f : Entry) (files : List Entry)
      → leb total max_cache_bytes ≡ true
      → remove_names (loop total (f ∷ files)) (f ∷ files) ≡ f ∷ files
  unfolding prune_loop
  left_under total f files e = rw (e) (remove_names-nil (f ∷ files))

  left_leased :
      (total : ℕ) (f : Entry) (files : List Entry)
      → leb total max_cache_bytes ≡ false
      → is_active_lease f.name ≡ true
      → remove_names (loop total (f ∷ files)) (f ∷ files)
        ≡ f ∷ remove_names (loop total files) files
  unfolding prune_loop
  left_leased total f files e g =
      let absent : contains (loop total files) f.name ≡ false =
        elim (Bool-cases (contains (loop total files) f.name)) [
          | inl i ↦ absurd (
              clash g
                (prune_loop-contains size max_cache_bytes is_active_lease total files f.name i).0)
          | inr i ↦ i
        ] in
      ap (λ names. remove_names names (f ∷ files)) (same e g)
      ∙ remove_names-keep f (loop total files) files absent
    where
      same :
          leb total max_cache_bytes ≡ false
          → is_active_lease f.name ≡ true
          → loop total (f ∷ files) ≡ loop total files
      same e g = rw (prune_loop, e, g) refl

      clash : is_active_lease f.name ≡ true → is_active_lease f.name ≡ false → ⊥
      clash g h = cc

  left_pruned :
      (total : ℕ) (f : Entry) (files : List Entry)
      → leb total max_cache_bytes ≡ false
      → is_active_lease f.name ≡ false
      → contains (names_of files) f.name ≡ false
      → remove_names (loop total (f ∷ files)) (f ∷ files)
        ≡ remove_names (loop (total - size f.content) files) files
  unfolding prune_loop
  left_pruned total f files e g fresh =
      let names = loop (total - size f.content) files in
      ap (λ l. remove_names l (f ∷ files)) same
      ∙ remove_names-drop f (f.name ∷ names) files (contains-cons_self f.name names)
      ∙ remove_names-fresh f.name names files fresh
    where
      same : loop total (f ∷ files) ≡ f.name ∷ loop (total - size f.content) files
      same = rw (prune_loop, e, g) refl

  prune_loop-Within :
      (kept total : ℕ) (files : List Entry)
      → Unique files
      → total ≡ kept + total_size size files
      → Within kept (remove_names (loop total files) files)
  unfolding total_size all_leased remove_names
  prune_loop-Within kept total [] unique h = inr refl
  prune_loop-Within kept total (f ∷ files) (fresh, unique) h =
      elim (Bool-cases (leb total max_cache_bytes)) [
        | inl e ↦
            subst (Within kept) (sym (left_under total f files e))
              (Within-under kept total (f ∷ files) h e)
        | inr e ↦ elim (Bool-cases (is_active_lease f.name)) [
          | inl g ↦ subst (Within kept) (sym (left_leased total f files e g)) (
              Within-leased kept f _ g
                (prune_loop-Within (kept + size f.content) total files unique (omega (arith, h))))
          | inr g ↦
              subst (Within kept) (sym (left_pruned total f files e g fresh))
                (prune_loop-Within kept (total - size f.content) files unique (omega (arith, h)))
        ]
      ]

  -- What the pruning spares.
  pub prune_cache_spares :
      (cache : Cache) (name : String)
      → (is_active_lease name ≡ true) ⊎ (is_prunable name ≡ false)
      → read_file name (prune_cache size max_cache_bytes is_active_lease cache).files
        ≡ read_file name cache.files
  unfolding prune_cache pruned_names
  prune_cache_spares cache name h =
      read_file-remove (pruned_names size max_cache_bytes is_active_lease cache.files) cache.files
        name (spared name h)
    where
      not_spared :
          (name : String)
          → (is_active_lease name ≡ true) ⊎ (is_prunable name ≡ false)
          → is_active_lease name ≡ false
          → is_prunable name ≡ true
          → ⊥
      not_spared name (inl h) e g = cc
      not_spared name (inr h) e g = cc

      spared :
          (name : String)
          → (is_active_lease name ≡ true) ⊎ (is_prunable name ≡ false)
          → contains
              (loop (total_size size (prunable cache.files)) (sort_by_mtime (prunable cache.files)))
              name
            ≡ false
      spared name h =
          elim (Bool-cases (
            contains
              (loop (total_size size (prunable cache.files)) (sort_by_mtime (prunable cache.files)))
              name)) [
                | inl i ↦
                    let (unleased, listed) =
                      prune_loop-contains size max_cache_bytes is_active_lease
                        (total_size size (prunable cache.files))
                        (sort_by_mtime (prunable cache.files)) name i in
                    absurd (
                      not_spared name h unleased (
                        names_of-prunable cache.files name
                          (sym (names_of-sort (prunable cache.files) name) ∙ listed)))
                | inr i ↦ i
              ]

  -- Pruning removes no leased file, no hidden file and no file in transfer; what it leaves of the
  -- others weighs at most the limit, unless all of them are leased.
  pub prune_cache_bound :
      (cache : Cache)
      → Unique cache.files
      → ((name : String)
          → (is_active_lease name ≡ true) ⊎ (is_prunable name ≡ false)
          → read_file name (prune_cache size max_cache_bytes is_active_lease cache).files
            ≡ read_file name cache.files)
        × ((total_size size
                (prunable (prune_cache size max_cache_bytes is_active_lease cache).files)
              ≤ max_cache_bytes)
            ⊎ (all_leased (prunable (prune_cache size max_cache_bytes is_active_lease cache).files)
                ≡ true))
  unfolding prune_cache pruned_names
  prune_cache_bound cache unique =
      let files = prunable cache.files in
      let names = loop (total_size size files) (sort_by_mtime files) in
      let sizes = total_size-sort size names files in
      let leases = all_leased-sort names files in
      let left = prunable-remove names cache.files in
      (
        λ name h. prune_cache_spares cache name h,
        elim (prune_loop-Within 0 (total_size size files) (sort_by_mtime files)
            (Unique-sort files (Unique-prunable cache.files unique))
            (omega (
              arith,
              total_size-sort size [] files,
              ap (total_size size) (remove_names-nil files),
              ap (total_size size) (remove_names-nil (sort_by_mtime files)),
            ))) [
              | inl h ↦ inl (rw left (omega (arith, h, sizes)))
              | inr h ↦ inr (rw left (sym leases ∙ h))
            ],
      )
