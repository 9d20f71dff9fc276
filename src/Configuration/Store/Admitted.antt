-- ===== src/Configuration/Store/Admitted.antt =====
-- What a save in macloader/configuration/store.py finds in the lock, and what its replacement does to
-- the files of one configuration ID.
use libre_core_mac_loader.Prelude.{
  ℕ, ◌<◌, String, ◌≡◌, ◌≢◌, refl, ap, ◌⊎◌, inl, inr, Option, none, some, nat_eq, string_eq, arith,
  beq_refl, Option-cases,
}
use libre_core_mac_loader.Configuration.Store.{
  file, Slot, Disk, Fault, no_fault, at_temporary, at_copy, at_backup, at_publish, at_sync,
  StoreResult, ok, Codec, load, current_of, check_revision, admit, back_up, publish, go_on, replace,
  put, open_lock, read,
}

-- The lock file that was there is as before, and where there was none it is new and empty.
abbrev pub IsLocked : Slot → Slot → Type 0
IsLocked before after =
    ((before.lock ≢ none) × (after.lock ≡ before.lock))
    ⊎ ((before.lock ≡ none) × (after.lock ≡ some (file "")))

pub put-same : (id : String) (slot : Slot) (disk : Disk) → (put id slot disk).slots id ≡ slot
unfolding put
put-same id slot disk = ground (arith, beq_refl id)

pub put-other :
    (id j : String) (slot : Slot) (disk : Disk) → j ≢ id → (put id slot disk).slots j ≡ disk.slots j
unfolding put
put-other id j slot disk n = ground (arith, string_eq.beq_iff j id)

pub open_lock-IsLocked : (slot : Slot) → IsLocked slot (open_lock slot)
unfolding open_lock
open_lock-IsLocked slot = elim (Option-cases slot.lock) [
  | inl h ↦ inr (h, rw h refl)
  | inr (node, h) ↦ inl (λ gone. cc, rw h refl)
]

module _ {C : Type 0} (codec : Codec C) where
  -- The base that a replacement names.
  pub data IsAdmitted (disk : Disk) (new : C) (expected : Option ℕ) : Option C → Type 0 where
    first :
        (disk.slots (codec.configuration_id new)).target ≡ none
        → (expected ≡ none) ⊎ (expected ≡ some 0)
        → IsAdmitted disk new expected none
    replacing :
        (current : C)
        → load codec disk (codec.configuration_id new) ≡ ok current
        → expected ≡ some (codec.revision current)
        → codec.revision current < codec.revision new
        → IsAdmitted disk new expected (some current)

  admit-facts :
      (disk : Disk) (new : C) (expected : Option ℕ) (current : Option C)
      → admit codec disk new expected ≡ ok current
      → (current_of codec disk (codec.configuration_id new) ≡ ok current)
        × (check_revision codec new current expected ≡ ok tt)
  unfolding admit
  admit-facts disk new expected current h = ground arith

  current_of-none :
      (disk : Disk) (id : String)
      → current_of codec disk id ≡ ok none
      → (disk.slots id).target ≡ none
  unfolding current_of
  current_of-none disk id h = ground arith

  current_of-some :
      (disk : Disk) (id : String) (current : C)
      → current_of codec disk id ≡ ok (some current)
      → load codec disk id ≡ ok current
  unfolding current_of
  current_of-some disk id current h = ground arith

  pub admit-IsAdmitted :
      (disk : Disk) (new : C) (expected : Option ℕ) (current : Option C)
      → admit codec disk new expected ≡ ok current
      → IsAdmitted disk new expected current
  unfolding check_revision
  admit-IsAdmitted disk new none none h =
      first (current_of-none disk _ (admit-facts disk new none none h).0) (inl refl)
  admit-IsAdmitted disk new (some n) none h =
      let (read, checked) = admit-facts disk new (some n) none h in
      first (current_of-none disk _ read) (inr (ap some (ground (arith, nat_eq.beq_iff 0 n))))
  admit-IsAdmitted disk new none (some c) h =
      absurd (ground (arith, (admit-facts disk new none (some c) h).1))
  admit-IsAdmitted disk new (some n) (some c) h =
      let (read, checked) = admit-facts disk new (some n) (some c) h in
      replacing c (current_of-some disk _ c read)
        (ap some (ground (arith, nat_eq.beq_iff (codec.revision c) n))) (ground arith)

  -- The slot after a replacement: the target is as before or the whole new payload, the backup as
  -- before or the old target; it succeeds only with the new payload and, for a replacement, with
  -- the backup.
  pub record IsReplaced (slot : Slot) (new : C) (current : Option C)
      (r : StoreResult (Unit {0}) × Slot) : Type 0 where
    pub target : (r.1.target ≡ slot.target) ⊎ (r.1.target ≡ some (file (codec.payload new)))
    pub backup : (r.1.backup ≡ slot.backup) ⊎ (r.1.backup ≡ slot.target)
    pub published : r.0 ≡ ok tt → r.1.target ≡ some (file (codec.payload new))
    pub kept : r.0 ≡ ok tt → current ≢ none → r.1.backup ≡ slot.target
    pub locked : r.1.lock ≡ slot.lock

  pub replace-IsReplaced :
      (fault : Fault) (slot : Slot) (new : C) (current : Option C)
      → IsReplaced slot new current (replace codec fault slot new current)
  unfolding replace go_on back_up publish
  replace-IsReplaced no_fault slot new none = ground arith
  replace-IsReplaced no_fault slot new (some c) = ground arith
  replace-IsReplaced at_temporary slot new none = ground arith
  replace-IsReplaced at_temporary slot new (some c) = ground arith
  replace-IsReplaced at_copy slot new none = ground arith
  replace-IsReplaced at_copy slot new (some c) = ground arith
  replace-IsReplaced at_backup slot new none = ground arith
  replace-IsReplaced at_backup slot new (some c) = ground arith
  replace-IsReplaced at_publish slot new none = ground arith
  replace-IsReplaced at_publish slot new (some c) = ground arith
  replace-IsReplaced at_sync slot new none = ground arith
  replace-IsReplaced at_sync slot new (some c) = ground arith
