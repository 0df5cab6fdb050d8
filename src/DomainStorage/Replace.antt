-- ===== src/DomainStorage/Replace.antt =====
-- Closing a layer of `DirectoryDomainStorage`: `ReadExistingLayerFile`, `ReplaceLayerFile`, the writer that
-- compares on close and the counters of a save session, in src/directory_domain_storage.cpp. The disk is
-- listed after every call of the file system, the latest first, as a crash may leave any of them. Which
-- call fails is an argument; the removal of a `.tmp` file is taken to succeed.
pub mod Atomic
pub mod Counters
pub mod Whole
use apptraverse.Prelude.{
  ℕ, ◌≡◌, Bool, true, false, ◌||◌, ◌&&◌, ◌+◌, ◌%◌, ◌^◌, Option, none, some, List, [], ◌∷◌, ◌++◌,
  if◌then◌else◌, Bytes, Eq, ◌==◌, nat_eq, pair_eq, bytes_eq, length, take,
}
use apptraverse.Prelude.Assoc.{lookup, insert, erase}
use apptraverse.DomainStorage.{Query, Tree, find_layer, create_directories, put_layer, classes_of}

-- The layers, and the `.tmp` files beside them.
pub record Disk : Type 0 where
  pub layers : Tree
  pub tmp : List (Query × Bytes)

-- The first call that fails. Of a failed write a part may have reached the file.
pub data Failure : Type 0 where
  probing reading object_directory class_directory opening flushing renaming : Failure
  writing : ℕ → Failure

-- What is read: an empty file is a file with no bytes, and one that cannot be probed for is not found.
pub data LayerFileRead : Type 0 where
  not_found read_error : LayerFileRead
  ok : Bytes → LayerFileRead

unfoldable pub read_file : Option Failure → Option Bytes → LayerFileRead
read_file failure none = not_found
read_file (some probing) (some bytes) = not_found
read_file (some reading) (some bytes) = read_error
read_file failure (some bytes) = ok bytes

unfoldable pub read_existing_layer_file : Option Failure → Query → Disk → LayerFileRead
read_existing_layer_file failure q disk = read_file failure (find_layer disk.layers q)

unfoldable pub enter_object : Query → Disk → Disk
enter_object q disk = record disk { layers = insert q.0 (classes_of q.0 disk.layers) disk.layers }

unfoldable pub enter_class : Query → Disk → Disk
enter_class q disk = record disk { layers = create_directories q disk.layers }

unfoldable pub with_tmp : Query → Bytes → Disk → Disk
with_tmp q bytes disk = record disk { tmp = insert q bytes disk.tmp }

unfoldable pub without_tmp : Query → Disk → Disk
without_tmp q disk = record disk { tmp = erase q disk.tmp }

unfoldable pub rename : Query → Bytes → Disk → Disk
rename q bytes disk = record { layers = put_layer q bytes disk.layers; tmp = erase q disk.tmp }

-- The directories, and the `.tmp` file open and empty.
unfoldable pub opened : Query → Disk → List Disk
opened q disk =
    let inside = enter_class q disk in
    with_tmp q [] inside ∷ inside ∷ enter_object q disk ∷ disk ∷ []

unfoldable pub written_tmp : Query → Bytes → Disk → List Disk
written_tmp q bytes disk = with_tmp q bytes (enter_class q disk) ∷ opened q disk

-- The `.tmp` file is removed after a failure.
unfoldable pub given_up : Query → Disk → List Disk → List Disk × Bool
given_up q disk states = (without_tmp q (enter_class q disk) ∷ states, false)

unfoldable pub replaced : Query → Bytes → Disk → List Disk × Bool
replaced q bytes disk = (rename q bytes (enter_class q disk) ∷ written_tmp q bytes disk, true)

unfoldable pub replace_layer_file : Option Failure → Query → Bytes → Disk → List Disk × Bool
replace_layer_file (some object_directory) q bytes disk = (disk ∷ [], false)
replace_layer_file (some class_directory) q bytes disk = (enter_object q disk ∷ disk ∷ [], false)
replace_layer_file (some opening) q bytes disk =
    (enter_class q disk ∷ enter_object q disk ∷ disk ∷ [], false)
replace_layer_file (some (writing n)) q [] disk = replaced q [] disk
replace_layer_file (some (writing n)) q (b ∷ bytes) disk =
    given_up q disk (with_tmp q (take n (b ∷ bytes)) (enter_class q disk) ∷ opened q disk)
replace_layer_file (some flushing) q bytes disk = given_up q disk (written_tmp q bytes disk)
replace_layer_file (some renaming) q bytes disk = given_up q disk (written_tmp q bytes disk)
replace_layer_file (some reading) q bytes disk = replaced q bytes disk
replace_layer_file (some probing) q bytes disk = replaced q bytes disk
replace_layer_file none q bytes disk = replaced q bytes disk

pub data LayerCommitOutcome : Type 0 where
  no_commit skipped_unchanged written failed : LayerCommitOutcome

-- `DirectoryDomainStorageStoreStats`.
pub record StoreStats : Type 0 where
  pub layer_store_calls : ℕ
  pub layers_bytes_accepted : ℕ
  pub layers_written : ℕ
  pub layers_skipped_unchanged : ℕ
  pub layers_written_bytes : ℕ
  pub layers_failed_commits : ℕ

pub record DirectoryDomainStorage : Type 0 where
  pub disk : Disk
  pub save_session_stats : StoreStats
  pub save_session_active : Bool
  pub save_session_had_failure : Bool
  pub last_layer_commit : LayerCommitOutcome

abbrev pub no_stats : StoreStats
no_stats = record {
  layer_store_calls = 0;
  layers_bytes_accepted = 0;
  layers_written = 0;
  layers_skipped_unchanged = 0;
  layers_written_bytes = 0;
  layers_failed_commits = 0;
}

unfoldable pub begin_save_session : DirectoryDomainStorage → DirectoryDomainStorage
begin_save_session s = record s {
  save_session_stats = no_stats;
  save_session_active = true;
  save_session_had_failure = false;
  last_layer_commit = no_commit;
}

abbrev pub up : ℕ → ℕ → ℕ
up n by = (n + by) % 2 ^ 64

unfoldable pub record_layer_bytes_accepted : ℕ → DirectoryDomainStorage → DirectoryDomainStorage
record_layer_bytes_accepted bytes s =
    let stats = s.save_session_stats in
    if s.save_session_active
    then record s {
      save_session_stats = record stats {
        layers_bytes_accepted = up stats.layers_bytes_accepted bytes;
      };
    }
    else s

unfoldable pub count_outcome : LayerCommitOutcome → ℕ → StoreStats → StoreStats
count_outcome no_commit disk_bytes stats = stats
count_outcome skipped_unchanged disk_bytes stats = record stats {
  layers_skipped_unchanged = up stats.layers_skipped_unchanged 1;
}
count_outcome written disk_bytes stats = record stats {
  layers_written = up stats.layers_written 1;
  layers_written_bytes = up stats.layers_written_bytes disk_bytes;
}
count_outcome failed disk_bytes stats = record stats {
  layers_failed_commits = up stats.layers_failed_commits 1;
}

abbrev pub is_failed : LayerCommitOutcome → Bool
is_failed failed = true
is_failed _ = false

unfoldable pub record_layer_commit :
    LayerCommitOutcome → ℕ → DirectoryDomainStorage → DirectoryDomainStorage
record_layer_commit outcome disk_bytes s =
    let stats = s.save_session_stats in
    let called = record stats { layer_store_calls = up stats.layer_store_calls 1 } in
    record s {
      last_layer_commit = outcome;
      save_session_had_failure = is_failed outcome || s.save_session_had_failure;
      save_session_stats =
          if s.save_session_active then count_outcome outcome disk_bytes called else stats;
    }

-- `CompareOnCloseDirectoryStorageWriter`, whose buffer is written on close.
pub record Writer : Type 0 where
  pub query : Query
  pub buffer : Bytes

unfoldable pub write : Bytes → Writer → DirectoryDomainStorage → Writer × DirectoryDomainStorage
write bytes w s =
    (record w { buffer = w.buffer ++ bytes }, record_layer_bytes_accepted (length bytes) s)

abbrev pub latest : Disk → List Disk → Disk
latest disk [] = disk
latest disk (d ∷ older) = d

unfoldable pub replace_and_record :
    List Disk × Bool → ℕ → DirectoryDomainStorage → List Disk × DirectoryDomainStorage
replace_and_record (states, true) size s =
    (states, record_layer_commit written size (record s { disk = latest s.disk states }))
replace_and_record (states, false) size s =
    (states, record_layer_commit failed 0 (record s { disk = latest s.disk states }))

unfoldable pub commit_read :
    LayerFileRead
    → Option Failure
    → Writer
    → DirectoryDomainStorage
    → List Disk × DirectoryDomainStorage
commit_read read_error failure w s = (s.disk ∷ [], record_layer_commit failed 0 s)
commit_read not_found failure w s =
    replace_and_record (replace_layer_file failure w.query w.buffer s.disk) (length w.buffer) s
commit_read (ok bytes) failure w s =
    let replacing = replace_layer_file failure w.query w.buffer s.disk in
    if bytes == w.buffer
    then (s.disk ∷ [], record_layer_commit skipped_unchanged 0 s)
    else replace_and_record replacing (length w.buffer) s

unfoldable pub commit_if_needed :
    Option Failure → Writer → DirectoryDomainStorage → List Disk × DirectoryDomainStorage
commit_if_needed failure w s =
    commit_read (read_existing_layer_file failure w.query s.disk) failure w s
