-- ===== src/DomainStorage/Replace/Whole.antt =====
-- A crash or a failure while the file of a layer is replaced: no layer is torn.
use apptraverse.Prelude.{
  ◌≡◌, refl, ◌⊎◌, inl, inr, Bool, true, false, Option, none, some, List, [], ◌∷◌, arith,
  if◌then◌else◌, Bytes, ◌==◌, nat_eq, pair_eq, bytes_eq, is_some, All,
}
use apptraverse.Prelude.Assoc.{insert, lookup-insert}
use apptraverse.DomainStorage.{
  Query, Tree, versions_of, classes_of, find_layer, create_directories, put_layer,
}
use apptraverse.DomainStorage.Directory.{versions_of-insert, same_query}
use apptraverse.DomainStorage.Replace.{
  Disk, Failure, reading, probing, object_directory, class_directory, opening, flushing, renaming,
  writing, enter_object, enter_class, with_tmp, without_tmp, rename, opened, written_tmp, given_up,
  replaced, replace_layer_file, latest,
}

find_layer-put_layer :
    (q p : Query) (bytes : Bytes) (tree : Tree)
    → find_layer (put_layer q bytes tree) p ≡ (if q == p then some bytes else find_layer tree p)
unfolding find_layer put_layer classes_of
find_layer-put_layer q p bytes tree =
    let old = classes_of q.0 tree in
    let versions = insert q.1.1 bytes (versions_of q.1.0 old) in
    ground (
      arith,
      lookup-insert q.0 p.0 (insert q.1.0 versions old) tree,
      versions_of-insert q.1.0 p.1.0 versions old,
      lookup-insert q.1.1 p.1.1 bytes (versions_of q.1.0 old),
      nat_eq.beq_iff q.0 p.0,
      nat_eq.beq_iff q.1.0 p.1.0,
      same_query q p,
    )

find_layer-enter_class :
    (q p : Query) (disk : Disk)
    → find_layer (enter_class q disk).layers p ≡ find_layer disk.layers p
unfolding find_layer create_directories classes_of enter_class
find_layer-enter_class q p disk =
    let old = classes_of q.0 disk.layers in
    ground (
      arith,
      lookup-insert q.0 p.0 (insert q.1.0 (versions_of q.1.0 old) old) disk.layers,
      versions_of-insert q.1.0 p.1.0 (versions_of q.1.0 old) old,
      nat_eq.beq_iff q.0 p.0,
      nat_eq.beq_iff q.1.0 p.1.0,
    )

find_layer-enter_object :
    (q p : Query) (disk : Disk)
    → find_layer (enter_object q disk).layers p ≡ find_layer disk.layers p
unfolding find_layer classes_of enter_object
find_layer-enter_object q p disk =
    ground (
      arith,
      lookup-insert q.0 p.0 (classes_of q.0 disk.layers) disk.layers,
      nat_eq.beq_iff q.0 p.0,
    )

-- The layers of a disk are those of another.
abbrev pub IsUnchanged : Disk → Disk → Type 0
IsUnchanged old disk = (p : Query) → find_layer disk.layers p ≡ find_layer old.layers p

-- One layer has been replaced.
abbrev pub IsReplaced : Query → Bytes → Disk → Disk → Type 0
IsReplaced q bytes old disk =
    (p : Query)
    → find_layer disk.layers p ≡ (if q == p then some bytes else find_layer old.layers p)

-- No layer is torn: all are as before, or the one is replaced as a whole.
abbrev pub IsWhole : Query → Bytes → Disk → Disk → Type 0
IsWhole q bytes old disk = IsUnchanged old disk ⊎ IsReplaced q bytes old disk

-- What is true of the disks that a replacement leaves, and of its answer.
abbrev pub IsReplacement : Option Failure → Query → Bytes → Disk → List Disk × Bool → Type 0
IsReplacement failure q bytes old r =
    All (IsWhole q bytes old) r.0
    × (((r.1 ≡ true) × IsReplaced q bytes old (latest old r.0))
        ⊎ ((r.1 ≡ false) × (IsUnchanged old (latest old r.0) × (is_some failure ≡ true))))

rename-IsReplaced :
    (q : Query) (bytes : Bytes) (disk : Disk)
    → IsReplaced q bytes disk (rename q bytes (enter_class q disk))
unfolding rename
rename-IsReplaced q bytes disk p = ground (
  arith,
  find_layer-put_layer q p bytes (enter_class q disk).layers,
  find_layer-enter_class q p disk,
)

opened-IsWhole :
    (q : Query) (bytes : Bytes) (disk : Disk) → All (IsWhole q bytes disk) (opened q disk)
unfolding opened with_tmp
opened-IsWhole q bytes disk = (
  inl (λ p. find_layer-enter_class q p disk),
  (
    inl (λ p. find_layer-enter_class q p disk),
    (inl (λ p. find_layer-enter_object q p disk), (inl (λ p. refl), tt)),
  ),
)

written_tmp-IsWhole :
    (q : Query) (bytes : Bytes) (disk : Disk)
    → All (IsWhole q bytes disk) (written_tmp q bytes disk)
unfolding written_tmp with_tmp
written_tmp-IsWhole q bytes disk =
    (inl (λ p. find_layer-enter_class q p disk), opened-IsWhole q bytes disk)

replaced-IsReplacement :
    (failure : Option Failure) (q : Query) (bytes : Bytes) (disk : Disk)
    → IsReplacement failure q bytes disk (replaced q bytes disk)
unfolding replaced
replaced-IsReplacement failure q bytes disk = (
  (inr (rename-IsReplaced q bytes disk), written_tmp-IsWhole q bytes disk),
  inl (refl, rename-IsReplaced q bytes disk),
)

given_up-IsReplacement :
    (f : Failure) (q : Query) (bytes : Bytes) (disk : Disk) (states : List Disk)
    → All (IsWhole q bytes disk) states
    → IsReplacement (some f) q bytes disk (given_up q disk states)
unfolding given_up without_tmp
given_up-IsReplacement f q bytes disk states whole = (
  (inl (λ p. find_layer-enter_class q p disk), whole),
  inr (refl, ((λ p. find_layer-enter_class q p disk), refl)),
)

pub replace_layer_file-IsReplacement :
    (failure : Option Failure) (q : Query) (bytes : Bytes) (disk : Disk)
    → IsReplacement failure q bytes disk (replace_layer_file failure q bytes disk)
unfolding replace_layer_file with_tmp
replace_layer_file-IsReplacement none q bytes disk = replaced-IsReplacement none q bytes disk
replace_layer_file-IsReplacement (some reading) q bytes disk =
    replaced-IsReplacement (some reading) q bytes disk
replace_layer_file-IsReplacement (some probing) q bytes disk =
    replaced-IsReplacement (some probing) q bytes disk
replace_layer_file-IsReplacement (some object_directory) q bytes disk =
    ((inl (λ p. refl), tt), inr (refl, ((λ p. refl), refl)))
replace_layer_file-IsReplacement (some class_directory) q bytes disk = (
  (inl (λ p. find_layer-enter_object q p disk), (inl (λ p. refl), tt)),
  inr (refl, ((λ p. find_layer-enter_object q p disk), refl)),
)
replace_layer_file-IsReplacement (some opening) q bytes disk = (
  (
    inl (λ p. find_layer-enter_class q p disk),
    (inl (λ p. find_layer-enter_object q p disk), (inl (λ p. refl), tt)),
  ),
  inr (refl, ((λ p. find_layer-enter_class q p disk), refl)),
)
replace_layer_file-IsReplacement (some (writing n)) q [] disk =
    replaced-IsReplacement (some (writing n)) q [] disk
replace_layer_file-IsReplacement (some (writing n)) q (b ∷ bytes) disk =
    given_up-IsReplacement (writing n) q (b ∷ bytes) disk _
      (inl (λ p. find_layer-enter_class q p disk), opened-IsWhole q (b ∷ bytes) disk)
replace_layer_file-IsReplacement (some flushing) q bytes disk =
    given_up-IsReplacement flushing q bytes disk _ (written_tmp-IsWhole q bytes disk)
replace_layer_file-IsReplacement (some renaming) q bytes disk =
    given_up-IsReplacement renaming q bytes disk _ (written_tmp-IsWhole q bytes disk)
