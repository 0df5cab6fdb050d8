-- ===== src/DomainStorage.antt =====
-- The storages of object layers: `DirectoryDomainStorage` of
-- include/apptraverse/directory_domain_storage.h and src/directory_domain_storage.cpp, and the overlay
-- of src/overlay_domain_storage.cpp. A layer is found by object, class and version. A directory tree is a
-- map of maps; an object whose directory is empty was removed. `put_layer` is a layer that is written
-- and closed with no failure; what may go wrong while one is closed is DomainStorage.Replace.
pub mod Directory
pub mod Overlay
pub mod Replace
pub mod Runs
use apptraverse.Prelude.{
  ℕ, ◌≡◌, Bool, true, false, ltb, pair_eq, Option, none, some, List, [], ◌∷◌, ◌++◌, if◌then◌else◌,
  Bytes, Eq, ◌==◌, nat_eq,
}
use apptraverse.Prelude.Assoc.{lookup, insert}

abbrev pub Query : Type 0
Query = ℕ × (ℕ × ℕ)

-- `DomainLoad`, with the bytes that its reader gives.
pub data LoadResult : Type 0 where
  empty removed : LoadResult
  loaded : Bytes → LoadResult

-- The operations of `IDomainStorage`, where a layer is written and closed at once.
pub record Storage (S : Type 0) : Type 0 where
  pub store : Query → Bytes → S → S
  pub load : S → Query → LoadResult
  pub remove : ℕ → S → S

-- What a client may rely on: a stored layer is loaded again; what was loaded stays and what was missing
-- stays missing; other objects are as before; and a removed object is removed until it is stored again.
pub record IsStorage {S : Type 0} (t : Storage S) : Type 0 where
  pub stored : (q : Query) (bytes : Bytes) (s : S) → t.load (t.store q bytes s) q ≡ loaded bytes
  pub kept :
      (q p : Query) (bytes kept : Bytes) (s : S)
      → (q == p) ≡ false
      → t.load s p ≡ loaded kept
      → t.load (t.store q bytes s) p ≡ loaded kept
  pub missing :
      (q p : Query) (bytes : Bytes) (s : S)
      → (q == p) ≡ false
      → t.load s p ≡ empty
      → t.load (t.store q bytes s) p ≡ empty
  pub apart :
      (q p : Query) (bytes : Bytes) (s : S)
      → (q.0 == p.0) ≡ false
      → t.load (t.store q bytes s) p ≡ t.load s p
  pub gone : (id : ℕ) (p : Query) (s : S) → (id == p.0) ≡ true → t.load (t.remove id s) p ≡ removed
  pub others :
      (id : ℕ) (p : Query) (s : S) → (id == p.0) ≡ false → t.load (t.remove id s) p ≡ t.load s p

abbrev pub Versions : Type 0
Versions = List (ℕ × Bytes)

abbrev pub Classes : Type 0
Classes = List (ℕ × Versions)

-- The directories of the objects, and in them those of the classes with a file for each version.
abbrev pub Tree : Type 0
Tree = List (ℕ × Classes)

unfoldable pub versions_of : ℕ → Classes → Versions
versions_of class_id classes = elim (lookup class_id classes) [
  | none ↦ []
  | some versions ↦ versions
]

unfoldable pub classes_of : ℕ → Tree → Classes
classes_of id tree = elim (lookup id tree) [ none ↦ [] | some classes ↦ classes ]

unfoldable pub find_layer : Tree → Query → Option Bytes
find_layer tree q = lookup q.1.1 (versions_of q.1.0 (classes_of q.0 tree))

-- `create_directories` for the file of a layer.
unfoldable pub create_directories : Query → Tree → Tree
create_directories q tree =
    insert q.0 (insert q.1.0 (versions_of q.1.0 (classes_of q.0 tree)) (classes_of q.0 tree)) tree

unfoldable pub put_layer : Query → Bytes → Tree → Tree
put_layer q bytes tree =
    insert q.0
      (insert q.1.0 (insert q.1.1 bytes (versions_of q.1.0 (classes_of q.0 tree)))
        (classes_of q.0 tree))
      tree

unfoldable pub found : Option Bytes → LoadResult
found none = empty
found (some bytes) = loaded bytes

unfoldable pub load_object : Option Classes → ℕ → ℕ → LoadResult
load_object none class_id version = empty
load_object (some []) class_id version = removed
load_object (some (c ∷ classes)) class_id version =
    found (lookup version (versions_of class_id (c ∷ classes)))

unfoldable pub load : Tree → Query → LoadResult
load tree q = load_object (lookup q.0 tree) q.1.0 q.1.1

-- The directory of a removed object is there, and empty.
unfoldable pub remove : ℕ → Tree → Tree
remove id tree = insert id [] tree

-- The classes of an object, as the sorted set that `Enumerate` makes of them.
unfoldable pub set_insert : ℕ → List ℕ → List ℕ
set_insert x [] = x ∷ []
set_insert x (y ∷ ys) =
    let further = set_insert x ys in
    if x == y then y ∷ ys else if ltb x y then x ∷ y ∷ ys else y ∷ further

unfoldable pub set_of : Classes → List ℕ
set_of [] = []
set_of ((class_id, versions) ∷ classes) = set_insert class_id (set_of classes)

unfoldable pub enumerate : Tree → ℕ → List ℕ
enumerate tree id = set_of (classes_of id tree)

abbrev pub tree_storage : Storage Tree
tree_storage = record { store = put_layer; load = load; remove = remove }
