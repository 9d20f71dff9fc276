-- ===== src/Removable/Source/Bounds.antt =====
-- The bounds of the source manifest.
use mathlib.Core.List.{append-nil, append_assoc}
use libre_core_mac_loader.Prelude.{
  ℕ, ◌+◌, ◌≤◌, ◌<◌, String, ◌≡◌, ◌≢◌, refl, sym, ◌∙◌, ◌↔◌, List, [], ◌∷◌, ◌++◌, arith, length,
  length-append, All,
}
use libre_core_mac_loader.Removable.Outcome.{Outcome, done, unsafe, raised, ◌>>=◌}
use libre_core_mac_loader.Removable.Source.{
  Node, file, directory, special, symlink, Entry, MediaFileDigest, max_media_files,
  max_media_file_bytes, max_media_total_bytes, posix, payload, manifest_step, manifest_loop,
  not_empty, source_manifest,
}

abbrev pub IsPlainNode : Node → Type 0
IsPlainNode (file n h) = Unit
IsPlainNode directory = Unit
IsPlainNode special = ⊥
IsPlainNode (symlink p) = ⊥

-- Files and directories only.
abbrev pub IsPlain : List Entry → Type 0
IsPlain [] = Unit
IsPlain (e ∷ rest) = IsPlainNode e.node × IsPlain rest

abbrev with_file : String → Node → List MediaFileDigest → List MediaFileDigest
with_file path (file n h) rest = record { relative_path = path; size_bytes = n; sha256 = h } ∷ rest
with_file path directory rest = rest
with_file path special rest = rest
with_file path (symlink p) rest = rest

-- The regular files of a listing, in its order.
abbrev pub regular_files : List Entry → List MediaFileDigest
regular_files [] = []
regular_files (e ∷ rest) = with_file (posix e.path) e.node (regular_files rest)

abbrev pub total_size : List MediaFileDigest → ℕ
total_size [] = 0
total_size (f ∷ rest) = f.size_bytes + total_size rest

-- What a complete manifest of the listing must be.
pub record IsManifest (l : List Entry) (files : List MediaFileDigest) : Type 0 where
  pub plain : IsPlain l
  pub complete : files ≡ regular_files l
  pub count : length files ≤ max_media_files
  pub sizes : All (λ f. f.size_bytes ≤ max_media_file_bytes) files
  pub total : total_size files ≤ max_media_total_bytes

-- The same for a part of a listing with the files `regular`, when the files `acc` of `t` bytes
-- have been read.
record IsRest (plain : Type 0) (regular : List MediaFileDigest) (t : ℕ)
    (acc files : List MediaFileDigest) : Type 0 where
  is_plain : plain
  complete : files ≡ acc ++ regular
  count : length acc + length regular ≤ max_media_files
  sizes : All (λ f. f.size_bytes ≤ max_media_file_bytes) regular
  total : t + total_size regular ≤ max_media_total_bytes

abbrev next : List Entry → List MediaFileDigest × ℕ → Outcome (List MediaFileDigest)
next rest (acc, t) = manifest_loop rest acc t

abbrev Reads : List Entry → List MediaFileDigest → ℕ → List MediaFileDigest → Type 0
Reads l acc t files =
    length acc ≤ max_media_files
    → t ≤ max_media_total_bytes
    → (manifest_loop l acc t ≡ done files) ↔ IsRest (IsPlain l) (regular_files l) t acc files

abbrev manifest_entry : List String → ℕ → String → MediaFileDigest
manifest_entry path n h = record { relative_path = posix path; size_bytes = n; sha256 = h }

-- The limits of one file, as the guards test them.
step_within :
    (path : List String) (n : ℕ) (h : String) (acc : List MediaFileDigest) (t : ℕ)
    → n ≤ max_media_file_bytes
    → length acc < max_media_files
    → t + n ≤ max_media_total_bytes
    → manifest_step path (file n h) acc t ≡ done (acc ++ manifest_entry path n h ∷ [], t + n)
unfolding manifest_step
step_within path n h acc t p q r = ground arith

step_passed :
    (path : List String) (n : ℕ) (h : String) (acc files : List MediaFileDigest) (t : ℕ)
    (k : List MediaFileDigest × ℕ → Outcome (List MediaFileDigest))
    → (manifest_step path (file n h) acc t >>= k) ≡ done files
    → (n ≤ max_media_file_bytes)
      × (length acc < max_media_files)
      × (t + n ≤ max_media_total_bytes)
      × (k (acc ++ manifest_entry path n h ∷ [], t + n) ≡ done files)
unfolding manifest_step
step_passed path n h acc files t k e = ground arith

step-IsRest :
    (path : List String) (n : Node) (rest : List Entry) (acc files : List MediaFileDigest) (t : ℕ)
    → ((acc' : List MediaFileDigest) (t' : ℕ) → Reads rest acc' t' files)
    → length acc ≤ max_media_files
    → t ≤ max_media_total_bytes
    → ((manifest_step path n acc t >>= next rest) ≡ done files)
      ↔ IsRest
          (IsPlainNode n × IsPlain rest)
          (with_file (posix path) n (regular_files rest))
          t
          acc
          files
unfolding manifest_step
step-IsRest path (symlink p) rest acc files t ih a b = (λ h. cc, λ i. absurd i.is_plain.0)
step-IsRest path special rest acc files t ih a b = (λ h. cc, λ i. absurd i.is_plain.0)
step-IsRest path directory rest acc files t ih a b = (
  λ h.
      let i = (ih acc t a b).0 h in
      record {
        is_plain = (tt, i.is_plain);
        complete = i.complete;
        count = i.count;
        sizes = i.sizes;
        total = i.total;
      },
  λ i. (ih acc t a b).1 (record {
    is_plain = i.is_plain.1;
    complete = i.complete;
    count = i.count;
    sizes = i.sizes;
    total = i.total;
  }),
)
step-IsRest path (file n h) rest acc files t ih a b = (
  λ e.
      let (small, few, fits, rest_read) = step_passed path n h acc files t (next rest) e in
      let i = (ih acc' (t + n) (omega (arith, length-append acc (m ∷ []))) fits).0 rest_read in
      record {
        is_plain = (tt, i.is_plain);
        complete = i.complete ∙ append_assoc acc (m ∷ []) (regular_files rest);
        count = omega (arith, i.count, length-append acc (m ∷ []));
        sizes = (small, i.sizes);
        total = omega (arith, i.total);
      },
  λ i. rw (step_within path n h acc t i.sizes.0 (omega (arith, i.count)) (omega (arith, i.total))) (
      (ih acc' (t + n) (omega (arith, i.count, length-append acc (m ∷ [])))
          (omega (arith, i.total))).1
        (record {
          is_plain = i.is_plain.1;
          complete = i.complete ∙ sym (append_assoc acc (m ∷ []) (regular_files rest));
          count = omega (arith, i.count, length-append acc (m ∷ []));
          sizes = i.sizes.1;
          total = omega (arith, i.total);
        })),
)
  where
    m : MediaFileDigest
    m = manifest_entry path n h

    acc' : List MediaFileDigest
    acc' = acc ++ m ∷ []

manifest_loop-IsRest :
    (l : List Entry) (acc files : List MediaFileDigest) (t : ℕ) → Reads l acc t files
unfolding manifest_loop
manifest_loop-IsRest [] acc files t a b = (
  λ h. record {
    is_plain = tt;
    complete = ground (arith, append-nil acc);
    count = omega arith;
    sizes = tt;
    total = omega arith;
  },
  λ i. ground (arith, append-nil acc, i.complete),
)
manifest_loop-IsRest (e ∷ rest) acc files t a b =
    step-IsRest e.path e.node rest acc files t (λ acc' t'. manifest_loop-IsRest rest acc' files t')
      a b

not_empty_iff :
    (m : Outcome (List MediaFileDigest)) (files : List MediaFileDigest)
    → ((m >>= not_empty) ≡ done files) ↔ ((m ≡ done files) × (files ≢ []))
not_empty_iff (done []) files = (λ h. cc, λ (h, ne). absurd (ne (cc)))
not_empty_iff (done (f ∷ l)) files = (λ h. (h, λ e. cc), λ (h, ne). h)
not_empty_iff (unsafe m) files = (λ h. cc, λ (h, ne). cc)
not_empty_iff (raised m) files = (λ h. cc, λ (h, ne). cc)

IsRest-IsManifest :
    (l : List Entry) (files : List MediaFileDigest)
    → IsRest (IsPlain l) (regular_files l) 0 [] files ↔ IsManifest l files
IsRest-IsManifest l files = (
  λ i.
      let all : IsManifest l (regular_files l) = record {
        plain = i.is_plain;
        complete = refl;
        count = omega (arith, i.count);
        sizes = i.sizes;
        total = omega (arith, i.total);
      } in
      rw i.complete all,
  λ i.
      let all : IsManifest l (regular_files l) = rw i.complete at i in
      record {
        is_plain = i.plain;
        complete = i.complete;
        count = omega (arith, all.count);
        sizes = all.sizes;
        total = omega (arith, all.total);
      },
)

-- The manifest of a source holds every regular file of its payload, in order, with its size and
-- digest. It is made exactly if the payload holds a file, no symbolic link or special file, at
-- most 10000 files, none above 8 GiB and not more than 32 GiB together.
pub source_manifest-IsManifest :
    (entries : List Entry) (files : List MediaFileDigest)
    → (source_manifest entries ≡ done files) ↔ (IsManifest (payload entries) files × (files ≢ []))
unfolding source_manifest
source_manifest-IsManifest entries files =
    let loop = manifest_loop-IsRest (payload entries) [] files 0 (omega arith) (omega arith) in
    let shape = IsRest-IsManifest (payload entries) files in
    let filled = not_empty_iff (manifest_loop (payload entries) [] 0) files in
    (
      λ h. let (made, some_file) = filled.0 h in (shape.0 (loop.0 made), some_file),
      λ (i, some_file). filled.1 (loop.1 (shape.1 i), some_file),
    )
