-- ===== src/Configuration/Store/Conflict.antt =====
-- Two saves from one base revision in macloader/configuration/store.py.
use libre_core_mac_loader.Prelude.{ℕ, ◌<◌, String, ◌≡◌, ◌≢◌, sym, Option, some, arith, subst}
use libre_core_mac_loader.Configuration.Store.{file, Disk, Fault, ok, Codec, load, save, read}
use libre_core_mac_loader.Configuration.Store.Admitted.{IsAdmitted, first, replacing}
use libre_core_mac_loader.Configuration.Store.Atomic.{save-IsSaved}

module _ {C : Type 0} (codec : Codec C) where
  load-parse :
      (disk : Disk) (id text : String) (c : C)
      → (disk.slots id).target ≡ some (file text)
      → load codec disk id ≡ ok c
      → codec.parse text ≡ some c
  unfolding load
  load-parse disk id text c t h = ground arith

  base_of :
      (disk : Disk) (new : C) (r : ℕ) (text : String) (base : C) (current : Option C)
      → (disk.slots (codec.configuration_id new)).target ≡ some (file text)
      → codec.parse text ≡ some base
      → IsAdmitted codec disk new (some r) current
      → (codec.revision base ≡ r) × (r < codec.revision new)
  base_of disk new r text base current t p (first gone e) = absurd (cc)
  base_of disk new r text base current t p (replacing c read e less) =
      let same = load-parse disk (codec.configuration_id new) text c t read in ground arith

  -- Where the JSON text of a configuration reads as one with the same revision: of two saves of one
  -- stored configuration from the same base revision, the second does not succeed when the first
  -- did, whatever fails on the host.
  pub save_conflict :
      (fault later : Fault) (a b stored back : C) (text : String) (r : ℕ) (disk : Disk)
      → codec.configuration_id b ≡ codec.configuration_id a
      → (disk.slots (codec.configuration_id a)).target ≡ some (file text)
      → codec.parse text ≡ some stored
      → codec.parse (codec.payload a) ≡ some back
      → codec.revision back ≡ codec.revision a
      → (save codec fault a (some r) disk).0 ≡ ok tt
      → (save codec later b (some r) (save codec fault a (some r) disk).1).0 ≢ ok tt
  save_conflict fault later a b stored back text r disk same there reads prints kept h again =
      let one = (save-IsSaved codec fault a (some r) disk).success h in
      let base = base_of disk a r text stored one.0 there reads one.1 in
      let two =
        (save-IsSaved codec later b (some r) (save codec fault a (some r) disk).1).success again in
      let published =
        subst
          (λ (id : String).
            ((save codec fault a (some r) disk).1.slots id).target ≡ some (file (codec.payload a)))
          (sym same) one.2 in
      let other =
        base_of (save codec fault a (some r) disk).1 b r (codec.payload a) back two.0 published
          prints two.1 in
      omega (arith, base.1, other.0, kept)
