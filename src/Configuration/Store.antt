-- ===== src/Configuration/Store.antt =====
-- ConfigurationStore of macloader/configuration/store.py: save and load, over the files of one
-- configuration ID each. What a save does in the lock is one transaction, so it is one function.
pub mod Admitted
pub mod Atomic
pub mod Conflict
mod Samples
use libre_core_mac_loader.Prelude.{
  ℕ, String, ◌<>◌, ◌≡◌, refl, ◌⊎◌, inl, inr, Bool, true, false, not, ◌&&◌, ◌||◌, Option, none, some,
  List, [], ◌∷◌, ◌==◌, nat_eq, string_eq, contains, leb, if◌then◌else◌,
}
use libre_core_mac_loader.Prelude.Text.{codes}

-- A file with its text, a symbolic link to something or to nothing, or a directory.
pub data FileNode : Type 0 where
  file : String → FileNode
  link broken_link directory : FileNode

-- What stands in the root under the names `<id>.json`, `<id>.json.bak` and `.<id>.lock`.
pub record Slot : Type 0 where
  pub target : Option FileNode
  pub backup : Option FileNode
  pub lock : Option FileNode

-- The files by configuration ID, and whether the root or a directory above it is a link.
pub record Disk : Type 0 where
  pub slots : String → Slot
  pub root_is_link : Bool

-- The operation of the host that fails during a save.
pub data Fault : Type 0 where
  no_fault at_temporary at_copy at_backup at_publish at_sync : Fault

-- A ConfigurationStoreError with its text, or an error of the host.
pub data StoreResult {ℓ} (A : Type ℓ) : Type ℓ where
  ok : A → StoreResult A
  refused : String → StoreResult A
  host_error : StoreResult A

infixl 5 ◌>>=◌ ◌>>◌
abbrev pub ◌>>=◌ {ℓ κ} :
    {A : Type ℓ} {B : Type κ} → StoreResult A → (A → StoreResult B) → StoreResult B
ok a >>= f = f a
refused m >>= f = refused m
host_error >>= f = host_error

abbrev pub ◌>>◌ {ℓ} : {B : Type ℓ} → StoreResult (Unit {0}) → StoreResult B → StoreResult B
m >> k = m >>= λ _. k

abbrev pub refuse_if : Bool → String → StoreResult (Unit {0})
refuse_if true text = refused text
refuse_if false text = ok tt

-- To split on a result.
pub StoreResult-cases {ℓ} :
    {A : Type ℓ} (m : StoreResult A)
    → ((a : A) × (m ≡ ok a)) ⊎ (((text : String) × (m ≡ refused text)) ⊎ (m ≡ host_error))
StoreResult-cases (ok a) = inl (a, refl)
StoreResult-cases (refused text) = inr (inl (text, refl))
StoreResult-cases host_error = inr (inr refl)

abbrev pub is_link : Option FileNode → Bool
is_link none = false
is_link (some (file t)) = false
is_link (some link) = true
is_link (some broken_link) = true
is_link (some directory) = false

-- `backup.exists() and backup.is_symlink()`, where `exists` follows the link.
abbrev pub is_live_link : Option FileNode → Bool
is_live_link none = false
is_live_link (some (file t)) = false
is_live_link (some link) = true
is_live_link (some broken_link) = false
is_live_link (some directory) = false

abbrev pub is_directory : Option FileNode → Bool
is_directory none = false
is_directory (some (file t)) = false
is_directory (some link) = false
is_directory (some broken_link) = false
is_directory (some directory) = true

abbrev or_zero : Option ℕ → ℕ
or_zero none = 0
or_zero (some n) = n

-- `path_for`, on a POSIX host: the ID is the name of a file in the root.
unfoldable pub path_for : String → StoreResult (Unit {0})
path_for configuration_id =
    refuse_if
      (configuration_id == ""
        || contains (codes configuration_id) b'/'
        || configuration_id == "."
        || configuration_id == "..")
      "configuration ID is not a safe file name"

-- `_assert_safe_path`, for a file of the root.
unfoldable pub assert_safe_path : Disk → Option FileNode → StoreResult (Unit {0})
assert_safe_path disk node =
    refuse_if (is_link node || disk.root_is_link) "configuration storage path contains a symlink"

unfoldable pub put : String → Slot → Disk → Disk
put id slot disk = record disk {
  slots = λ other_id. if other_id == id then slot else disk.slots other_id;
}

-- `lock_path.open("a+")`, which makes an empty file when there is none.
abbrev opened : Option FileNode → FileNode
opened none = file ""
opened (some node) = node

unfoldable pub open_lock : Slot → Slot
open_lock slot = record slot { lock = some (opened slot.lock) }

-- `_transaction_lock`, up to its `yield`; the lock file stays behind.
unfoldable pub transaction_lock : String → Disk → StoreResult Disk
transaction_lock id disk = do
  assert_safe_path disk (disk.slots id).lock
  if is_directory (disk.slots id).lock
      then host_error
      else ok (put id (open_lock (disk.slots id)) disk)

-- The configurations, with what the store uses of them: `to_json` with the new line that ends the
-- file, and the JSON reader with `UserConfiguration.from_dict`.
pub record Codec (C : Type 0) : Type 0 where
  pub configuration_id : C → String
  pub revision : C → ℕ
  pub payload : C → String
  pub parse : String → Option C

module _ {C : Type 0} (codec : Codec C) where
  abbrev pub parsed : Option C → StoreResult C
  parsed none = refused "invalid stored configuration"
  parsed (some c) = ok c

  abbrev pub read : Option FileNode → StoreResult C
  read none = refused "configuration file is missing or unsafe"
  read (some (file text)) = parsed (codec.parse text)
  read (some link) = refused "configuration file is missing or unsafe"
  read (some broken_link) = refused "configuration file is missing or unsafe"
  read (some directory) = refused "configuration file is missing or unsafe"

  unfoldable pub load : Disk → String → StoreResult C
  load disk configuration_id = do
    path_for configuration_id
    assert_safe_path disk (disk.slots configuration_id).target
    read (disk.slots configuration_id).target

  abbrev pub some_of : StoreResult C → StoreResult (Option C)
  some_of (ok c) = ok (some c)
  some_of (refused m) = refused m
  some_of host_error = host_error

  -- The configuration that is stored now, if there is one.
  unfoldable pub current_of : Disk → String → StoreResult (Option C)
  current_of disk configuration_id = elim (disk.slots configuration_id).target [
    | none ↦ ok none
    | some node ↦ some_of (load disk configuration_id)
  ]

  -- The three tests of the revisions.
  unfoldable pub check_revision : C → Option C → Option ℕ → StoreResult (Unit {0})
  check_revision new none none = ok tt
  check_revision new none (some expected) =
      refuse_if (not (0 == expected)) "configuration revision conflict"
  check_revision new (some current) none =
      refused "configuration replacement requires the loaded base revision"
  check_revision new (some current) (some expected) = do
    refuse_if (not (codec.revision current == expected)) "configuration revision conflict"
    refuse_if (leb (codec.revision new) (codec.revision current))
        "configuration revision must increase on replacement"

  -- Everything up to the lock, which is taken.
  unfoldable pub enter : Disk → C → StoreResult Disk
  enter disk new = do
    path_for (codec.configuration_id new)
    assert_safe_path disk (disk.slots (codec.configuration_id new)).target
    transaction_lock (codec.configuration_id new) disk

  -- In the lock, everything before the temporary file.
  unfoldable pub admit : Disk → C → Option ℕ → StoreResult (Option C)
  admit disk new expected = do
    current ← current_of disk (codec.configuration_id new)
    check_revision new current expected
    ok current

  -- The files after the backup, and whether to go on to the publication.
  unfoldable pub back_up : Fault → Slot → Option C → StoreResult (Unit {0}) × Slot
  back_up fault slot none = (ok tt, slot)
  back_up fault slot (some current) =
      if is_live_link slot.backup
      then (refused "configuration backup must not be a symlink", slot)
      else if is_directory slot.backup
      then (host_error, slot)
      else elim fault [
        | at_copy ↦ (host_error, slot)
        | at_backup ↦ (host_error, slot)
        | no_fault ↦ (ok tt, record slot { backup = slot.target })
        | at_temporary ↦ (ok tt, record slot { backup = slot.target })
        | at_publish ↦ (ok tt, record slot { backup = slot.target })
        | at_sync ↦ (ok tt, record slot { backup = slot.target })
      ]

  -- `os.replace(temporary, target)` and the synchronisation of the directory.
  unfoldable pub publish : Fault → Slot → C → StoreResult (Unit {0}) × Slot
  publish no_fault slot new = (ok tt, record slot { target = some (file (codec.payload new)) })
  publish at_temporary slot new = (ok tt, record slot { target = some (file (codec.payload new)) })
  publish at_copy slot new = (ok tt, record slot { target = some (file (codec.payload new)) })
  publish at_backup slot new = (ok tt, record slot { target = some (file (codec.payload new)) })
  publish at_publish slot new = (host_error, slot)
  publish at_sync slot new = (
    refused "unable to make configuration publication durable",
    record slot { target = some (file (codec.payload new)) },
  )

  unfoldable pub go_on : Fault → C → StoreResult (Unit {0}) × Slot → StoreResult (Unit {0}) × Slot
  go_on fault new (ok _, slot) = publish fault slot new
  go_on fault new (refused m, slot) = (refused m, slot)
  go_on fault new (host_error, slot) = (host_error, slot)

  -- The body of the transaction from the temporary file on.
  unfoldable pub replace : Fault → Slot → C → Option C → StoreResult (Unit {0}) × Slot
  replace at_temporary slot new current = (host_error, slot)
  replace no_fault slot new current = go_on no_fault new (back_up no_fault slot current)
  replace at_copy slot new current = go_on at_copy new (back_up at_copy slot current)
  replace at_backup slot new current = go_on at_backup new (back_up at_backup slot current)
  replace at_publish slot new current = go_on at_publish new (back_up at_publish slot current)
  replace at_sync slot new current = go_on at_sync new (back_up at_sync slot current)

  -- What is done in the lock.
  unfoldable pub transaction : Fault → C → Option ℕ → Disk → StoreResult (Unit {0}) × Disk
  transaction fault new expected disk = elim (admit disk new expected) [
    | ok current ↦
        let (result, slot) = replace fault (disk.slots (codec.configuration_id new)) new current in
        (result, put (codec.configuration_id new) slot disk)
    | refused m ↦ (refused m, disk)
    | host_error ↦ (host_error, disk)
  ]

  -- `save`
  unfoldable pub save : Fault → C → Option ℕ → Disk → StoreResult (Unit {0}) × Disk
  save fault new expected disk = elim (enter disk new) [
    | ok locked ↦ transaction fault new expected locked
    | refused m ↦ (refused m, disk)
    | host_error ↦ (host_error, disk)
  ]
