-- ===== src/Configuration/Store/Samples.antt =====
-- A store with one small configuration.
use libre_core_mac_loader.Prelude.{
  ℕ, String, ◌≡◌, ◌≢◌, refl, false, Option, none, some, ◌==◌, string_eq, nat_eq, if◌then◌else◌,
  contains,
}
use libre_core_mac_loader.Configuration.Store.{
  file, Disk, no_fault, ok, refused, Codec, load, current_of, check_revision, admit, back_up,
  publish, go_on, replace, save, path_for, assert_safe_path, enter, transaction, transaction_lock,
  put, open_lock,
}
use libre_core_mac_loader.Configuration.Store.Conflict.{save_conflict}

-- A revision and its text.
abbrev text_of : ℕ → String
text_of n = if n == 1 then "one" else if n == 2 then "two" else "more"

abbrev number_of : String → Option ℕ
number_of text = if text == "one" then some 1 else if text == "two" then some 2 else none

abbrev numbers : Codec ℕ
numbers = record {
  configuration_id = λ n. "main";
  revision = λ n. n;
  payload = text_of;
  parse = number_of;
}

abbrev disk : Disk
disk = record {
  slots = λ id. record { target = some (file "one"); backup = none; lock = none };
  root_is_link = false;
}

saved : (save numbers no_fault 2 (some 1) disk).0 ≡ ok tt
unfolding save enter transaction transaction_lock put open_lock admit path_for assert_safe_path
    current_of load check_revision replace go_on back_up publish contains
saved = refl

stale : (save numbers no_fault 2 (some 0) disk).0 ≡ refused "configuration revision conflict"
unfolding save enter transaction transaction_lock put open_lock admit path_for assert_safe_path
    current_of load check_revision contains
stale = refl

-- A refused save leaves its empty lock file behind.
stale_lock : ((save numbers no_fault 2 (some 0) disk).1.slots "main").lock ≡ some (file "")
unfolding save enter transaction transaction_lock put open_lock admit path_for assert_safe_path
    current_of load check_revision contains
stale_lock = refl

save_conflict_example :
    (save numbers no_fault 2 (some 1) (save numbers no_fault 2 (some 1) disk).1).0 ≢ ok tt
save_conflict_example =
    save_conflict numbers no_fault no_fault 2 2 1 2 "one" 1 disk refl refl refl refl refl saved
