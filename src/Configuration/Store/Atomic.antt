-- ===== src/Configuration/Store/Atomic.antt =====
-- What a save in macloader/configuration/store.py does to the disk, whatever fails.
use libre_core_mac_loader.Prelude.{
  ℕ, String, ◌≡◌, ◌≢◌, refl, ap, ◌⊎◌, inl, inr, Option, none, some, nat_eq, string_eq, arith,
  beq_refl, sym, ◌∙◌,
}
use libre_core_mac_loader.Configuration.Store.Admitted.{
  IsLocked, put-same, put-other, open_lock-IsLocked, IsAdmitted, first, replacing, admit-IsAdmitted,
  replace-IsReplaced,
}
use libre_core_mac_loader.Configuration.Store.{
  file, Slot, Disk, Fault, StoreResult, StoreResult-cases, ok, refused, host_error, Codec, load,
  enter, admit, replace, transaction, put, open_lock, transaction_lock, save, assert_safe_path,
}

module _ {C : Type 0} (codec : Codec C) where
  -- What a save has done to the disk.
  pub record IsSaved (new : C) (expected : Option ℕ) (disk : Disk)
      (r : StoreResult (Unit {0}) × Disk) : Type 0 where
    pub others : (id : String) → id ≢ codec.configuration_id new → r.1.slots id ≡ disk.slots id
    pub target :
        ((r.1.slots (codec.configuration_id new)).target
          ≡ (disk.slots (codec.configuration_id new)).target)
        ⊎ ((r.1.slots (codec.configuration_id new)).target ≡ some (file (codec.payload new)))
    pub lock :
        (locked : Disk)
        → enter codec disk new ≡ ok locked
        → IsLocked
            (disk.slots (codec.configuration_id new))
            (r.1.slots (codec.configuration_id new))
    pub unlocked :
        ((locked : Disk) → enter codec disk new ≢ ok locked) → (r.0 ≢ ok tt) × (r.1 ≡ disk)
    pub refusal :
        ((locked : Disk) (current : Option C)
          → enter codec disk new ≡ ok locked
          → admit codec locked new expected ≢ ok current)
        → (r.0 ≢ ok tt)
          × ((r.1.slots (codec.configuration_id new)).target
              ≡ (disk.slots (codec.configuration_id new)).target)
          × ((r.1.slots (codec.configuration_id new)).backup
              ≡ (disk.slots (codec.configuration_id new)).backup)
    pub success :
        r.0 ≡ ok tt
        → (current : Option C) × IsAdmitted codec disk new expected current
          × ((r.1.slots (codec.configuration_id new)).target ≡ some (file (codec.payload new)))
          × (current ≢ none
              → (r.1.slots (codec.configuration_id new)).backup
                ≡ (disk.slots (codec.configuration_id new)).target)

  enter-open_lock :
      (disk locked : Disk) (new : C)
      → enter codec disk new ≡ ok locked
      → locked
        ≡ put
            (codec.configuration_id new)
            (open_lock (disk.slots (codec.configuration_id new)))
            disk
  unfolding enter transaction_lock
  enter-open_lock disk locked new h = ground arith

  -- The lock file does not matter for the base that a save finds.
  load-open_lock :
      (disk : Disk) (id : String)
      → load codec (put id (open_lock (disk.slots id)) disk) id ≡ load codec disk id
  unfolding load open_lock put assert_safe_path
  load-open_lock disk id = rw (beq_refl id) refl

  IsAdmitted-open_lock :
      (disk : Disk) (new : C) (expected : Option ℕ) (current : Option C)
      → IsAdmitted codec
          (put
            (codec.configuration_id new)
            (open_lock (disk.slots (codec.configuration_id new)))
            disk)
          new
          expected
          current
      → IsAdmitted codec disk new expected current
  unfolding open_lock
  IsAdmitted-open_lock disk new expected current (first gone e) =
      first
        (ap (λ (s : Slot). s.target) (sym (put-same (codec.configuration_id new) _ disk)) ∙ gone) e
  IsAdmitted-open_lock disk new expected current (replacing c found e less) =
      replacing c (sym (load-open_lock disk (codec.configuration_id new)) ∙ found) e less

  -- A save that did not get the lock.
  outside :
      (new : C) (expected : Option ℕ) (disk : Disk) (result : StoreResult (Unit {0}))
      → ((locked : Disk) → enter codec disk new ≢ ok locked)
      → result ≢ ok tt
      → IsSaved new expected disk (result, disk)
  outside new expected disk result out n = record {
    others = λ id other. refl;
    target = inl refl;
    lock = λ locked e. absurd (out locked e);
    unlocked = λ _. (n, refl);
    refusal = λ _. (n, refl, refl);
    success = λ e. absurd (n e);
  }

  module _ (new : C) (expected : Option ℕ) (disk : Disk)
      (entered : enter codec disk new
        ≡ ok (
            put
              (codec.configuration_id new)
              (open_lock (disk.slots (codec.configuration_id new)))
              disk)) where
    abbrev id : String
    id = codec.configuration_id new

    abbrev locked : Disk
    locked = put id (open_lock (disk.slots id)) disk

    -- A save that got the lock and was refused then.
    rejected :
        (result : StoreResult (Unit {0}))
        → result ≢ ok tt
        → IsSaved new expected disk (result, locked)
    unfolding open_lock
    rejected result n =
        let slot = put-same id (open_lock (disk.slots id)) disk in
        record {
          others = λ j other. put-other id j _ disk other;
          target = inl (ap (λ (s : Slot). s.target) slot);
          lock = λ _ _. rw slot (open_lock-IsLocked (disk.slots id));
          unlocked = λ never. absurd (never locked entered);
          refusal = λ _. (n, ap (λ (s : Slot). s.target) slot, ap (λ (s : Slot). s.backup) slot);
          success = λ e. absurd (n e);
        }

    admitted :
        (fault : Fault) (current : Option C)
        → admit codec locked new expected ≡ ok current
        → (let r = replace codec fault (locked.slots id) new current in
            IsSaved new expected disk (r.0, put id r.1 locked))
    unfolding open_lock
    admitted fault current h =
        let slot = put-same id (open_lock (disk.slots id)) disk in
        let r = replace codec fault (locked.slots id) new current in
        let i = replace-IsReplaced codec fault (locked.slots id) new current in
        let stored = put-same id r.1 locked in
        let base = ap (λ (s : Slot). s.target) slot in
        let made = ap (λ (s : Slot). s.lock) stored ∙ i.locked ∙ ap (λ (s : Slot). s.lock) slot in
        record {
          others = λ j other. put-other id j r.1 locked other ∙ put-other id j _ disk other;
          target = elim i.target [
            | inl e ↦ inl (ap (λ (s : Slot). s.target) stored ∙ e ∙ base)
            | inr e ↦ inr (ap (λ (s : Slot). s.target) stored ∙ e)
          ];
          lock = λ _ _. elim (open_lock-IsLocked (disk.slots id)) [
            | inl (there, e) ↦ inl (there, made ∙ e)
            | inr (gone, e) ↦ inr (gone, made ∙ e)
          ];
          unlocked = λ never. absurd (never locked entered);
          refusal = λ none_admitted. absurd (none_admitted locked current entered h);
          success = λ e. (
            current,
            IsAdmitted-open_lock disk new expected current
                (admit-IsAdmitted codec locked new expected current h),
            ap (λ (s : Slot). s.target) stored ∙ i.published e,
            λ n. ap (λ (s : Slot). s.backup) stored ∙ i.kept e n ∙ base,
          );
        }

    transaction-IsSaved :
        (fault : Fault) → IsSaved new expected disk (transaction codec fault new expected locked)
    unfolding transaction
    transaction-IsSaved fault = elim (StoreResult-cases (admit codec locked new expected)) [
      | inl (current, h) ↦ rw (h, transaction) (admitted fault current h)
      | inr (inl (text, h)) ↦ rw (h, transaction) (rejected (refused text) (λ e. cc))
      | inr (inr h) ↦ rw (h, transaction) (rejected host_error (λ e. cc))
    ]

  pub save-IsSaved :
      (fault : Fault) (new : C) (expected : Option ℕ) (disk : Disk)
      → IsSaved new expected disk (save codec fault new expected disk)
  unfolding save
  save-IsSaved fault new expected disk = elim (StoreResult-cases (enter codec disk new)) [
    | inl (found, h) ↦
        let same = enter-open_lock disk found new h in
        let entered = h ∙ ap ok same in
        rw (entered, save) (transaction-IsSaved new expected disk entered fault)
    | inr (inl (text, h)) ↦
        rw (h, save) (outside new expected disk (refused text) (λ l e. cc) (λ e. cc))
    | inr (inr h) ↦ rw (h, save) (outside new expected disk host_error (λ l e. cc) (λ e. cc))
  ]
