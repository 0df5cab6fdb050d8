-- ===== src/DomainStorage/Runs.antt =====
-- A directory with two objects, and layers stored in it under a failing file system.
use apptraverse.Prelude.Assoc.{insert, lookup, erase}
use apptraverse.Prelude.{Bytes, ℕ, ◌≡◌, refl, true, false, none, some, [], ◌∷◌, list_beq, pair_beq}
use apptraverse.DomainStorage.{
  Query, empty, removed, loaded, IsStorage, Tree, load, put_layer, enumerate, tree_storage,
  classes_of, find_layer, found, load_object, set_insert, set_of, versions_of, create_directories,
}
use apptraverse.DomainStorage.Directory.{tree_storage-IsStorage}
use apptraverse.DomainStorage.Overlay.{
  remove_overlay, overlay_storage, overlay_storage-IsStorage, load_overlay, store_overlay,
  enumerate_both, or_behind, union,
}
use apptraverse.DomainStorage.Replace.{
  renaming, writing, skipped_unchanged, DirectoryDomainStorage, no_commit, no_stats, Writer,
  commit_if_needed, enter_object, commit_read, read_existing_layer_file, read_file,
  record_layer_commit, replace_and_record, replace_layer_file, replaced, rename, enter_class,
  given_up, opened, with_tmp, without_tmp, written_tmp, count_outcome,
}
use apptraverse.DomainStorage.Replace.Atomic.{IsClosed, commit_if_needed_lem}
use apptraverse.DomainStorage.Replace.Counters.{closes, perform_all, perform}

-- An object with layers of two classes, and a removed object.
abbrev two_objects : Tree
two_objects = (1, (30, (0, 7 ∷ []) ∷ []) ∷ (20, (0, 8 ∷ []) ∷ (1, 9 ∷ []) ∷ []) ∷ []) ∷ (2, []) ∷ []

load_present : load two_objects (1, (20, 1)) ≡ loaded (9 ∷ [])
unfolding load load_object lookup found versions_of
load_present = refl

load_removed : load two_objects (2, (20, 1)) ≡ removed
unfolding load load_object lookup
load_removed = refl

load_unknown : load two_objects (3, (20, 1)) ≡ empty
unfolding load load_object lookup
load_unknown = refl

-- The classes are sorted, and those of an overlay are added.
enumerate_sorted : enumerate two_objects 1 ≡ 20 ∷ 30 ∷ []
unfolding enumerate set_of classes_of lookup set_insert
enumerate_sorted = refl

enumerate_overlay : enumerate_both (25 ∷ 30 ∷ []) (20 ∷ 30 ∷ []) ≡ 20 ∷ 25 ∷ 30 ∷ []
unfolding enumerate_both union set_insert
enumerate_overlay = refl

-- A layer stored in the overlay hides the one behind it.
overlay_hides :
    load_overlay tree_storage tree_storage
      (store_overlay tree_storage tree_storage (1, (20, 1)) (5 ∷ []) ([], two_objects))
      (1, (20, 1))
    ≡ loaded (5 ∷ [])
unfolding load_overlay or_behind load load_object lookup store_overlay put_layer insert classes_of
    found versions_of
overlay_hides = refl

overlay_storage-IsStorage_example :
    IsStorage (overlay_storage tree_storage tree_storage)
    × ((q : Query) (bytes : Bytes) (st : Tree × Tree)
        → (store_overlay tree_storage tree_storage q bytes st).1 ≡ st.1)
    × ((id : ℕ) (st : Tree × Tree) → (remove_overlay tree_storage tree_storage id st).1 ≡ st.1)
overlay_storage-IsStorage_example =
    overlay_storage-IsStorage tree_storage tree_storage tree_storage-IsStorage

abbrev directory : DirectoryDomainStorage
directory = record {
  disk = record { layers = two_objects; tmp = [] };
  save_session_stats = no_stats;
  save_session_active = true;
  save_session_had_failure = false;
  last_layer_commit = no_commit;
}

abbrev new_bytes : Writer
new_bytes = record { query = (1, (20, 1)); buffer = 4 ∷ 5 ∷ [] }

abbrev same_bytes : Writer
same_bytes = record { query = (1, (20, 1)); buffer = 9 ∷ [] }

written_when_new :
    load (commit_if_needed none new_bytes directory).1.disk.layers (1, (20, 1))
    ≡ loaded (4 ∷ 5 ∷ [])
unfolding commit_if_needed load load_object lookup commit_read read_existing_layer_file read_file
    find_layer versions_of classes_of list_beq replace_and_record replace_layer_file replaced
    record_layer_commit rename put_layer insert enter_class create_directories found given_up opened
    with_tmp without_tmp erase written_tmp enter_object pair_beq
written_when_new = refl

skipped_when_same :
    (commit_if_needed none same_bytes directory).1.last_layer_commit ≡ skipped_unchanged
unfolding commit_if_needed commit_read read_existing_layer_file read_file find_layer lookup
    versions_of classes_of list_beq record_layer_commit
skipped_when_same = refl

-- A write that stops after a byte leaves the old layer, and is counted as a failure.
kept_when_torn :
    load (commit_if_needed (some (writing 1)) new_bytes directory).1.disk.layers (1, (20, 1))
    ≡ loaded (9 ∷ [])
unfolding commit_if_needed load load_object lookup commit_read read_existing_layer_file read_file
    find_layer versions_of classes_of list_beq replace_and_record replace_layer_file replaced
    record_layer_commit rename put_layer insert enter_class create_directories found given_up opened
    with_tmp without_tmp erase written_tmp enter_object pair_beq
kept_when_torn = refl

session_counts :
    (perform_all
      (closes (some renaming) new_bytes ∷ closes none same_bytes ∷ closes none new_bytes ∷ [])
      directory).save_session_stats.layer_store_calls
    ≡ 3
unfolding perform_all perform count_outcome commit_if_needed load load_object lookup commit_read
    read_existing_layer_file read_file find_layer versions_of classes_of list_beq replace_and_record
    replace_layer_file replaced record_layer_commit rename put_layer insert enter_class
    create_directories found given_up opened with_tmp without_tmp erase written_tmp enter_object
    pair_beq
session_counts = refl

commit_if_needed_lem_example :
    IsClosed
      (some renaming)
      new_bytes
      directory
      (commit_if_needed (some renaming) new_bytes directory)
commit_if_needed_lem_example = commit_if_needed_lem (some renaming) new_bytes directory
