-- ===== src/DomainStorage/Directory.antt =====
-- A directory tree is a storage, as its clients expect one to be.
use apptraverse.Prelude.{
  ℕ, ◌≡◌, refl, ap, ◌∙◌, inl, inr, true, false, ◌&&◌, Option, none, some, [], ◌∷◌, arith,
  if◌then◌else◌, Bool-cases, Bytes, ◌==◌, ==_refl, nat_eq, pair_eq, pair_beq,
}
use apptraverse.Prelude.Assoc.{lookup, insert, lookup-insert}
use apptraverse.DomainStorage.{
  Query, empty, removed, loaded, IsStorage, Versions, Classes, Tree, versions_of, classes_of,
  find_layer, put_layer, found, load_object, load, remove, tree_storage,
}

pub versions_of-insert :
    (c d : ℕ) (versions : Versions) (classes : Classes)
    → versions_of d (insert c versions classes)
      ≡ (if c == d then versions else versions_of d classes)
unfolding versions_of
versions_of-insert c d versions classes = ground (arith, lookup-insert c d versions classes)

entered :
    (c d v : ℕ) (versions : Versions) (classes : Classes)
    → load_object (some (insert c versions classes)) d v
      ≡ found (lookup v (versions_of d (insert c versions classes)))
unfolding insert load_object
entered c d v versions [] = refl
entered c d v versions ((j, w) ∷ classes) = elim (Bool-cases (j == c)) [
  | inl here ↦ ground (arith, here)
  | inr there ↦ ground (arith, there)
]

-- A directory with a class is no removed object.
load_object-insert :
    (c d v : ℕ) (versions : Versions) (classes : Classes)
    → load_object (some (insert c versions classes)) d v
      ≡ found (lookup v (if c == d then versions else versions_of d classes))
load_object-insert c d v versions classes =
    entered c d v versions classes
    ∙ ap (λ (vs : Versions). found (lookup v vs)) (versions_of-insert c d versions classes)

-- What is loaded after a layer was put into the tree.
load-put_layer :
    (q p : Query) (bytes : Bytes) (tree : Tree)
    → load (put_layer q bytes tree) p ≡ (
        if q.0 == p.0
        then found (
            if (q.1.0 == p.1.0) && (q.1.1 == p.1.1)
            then some bytes
            else lookup p.1.1 (versions_of p.1.0 (classes_of q.0 tree)))
        else load tree p)
unfolding load put_layer
load-put_layer q p bytes tree =
    let old = classes_of q.0 tree in
    let versions = insert q.1.1 bytes (versions_of q.1.0 old) in
    ground (
      arith,
      lookup-insert q.0 p.0 (insert q.1.0 versions old) tree,
      load_object-insert q.1.0 p.1.0 p.1.1 versions old,
      lookup-insert q.1.1 p.1.1 bytes (versions_of q.1.0 old),
      nat_eq.beq_iff q.1.0 p.1.0,
    )

pub same_query : (q p : Query) → (q == p) ≡ ((q.0 == p.0) && ((q.1.0 == p.1.0) && (q.1.1 == p.1.1)))
unfolding pair_beq
same_query (a, (b, c)) (d, (e, f)) = refl

found-loaded : (o : Option Bytes) (bytes : Bytes) → found o ≡ loaded bytes → o ≡ some bytes
unfolding found
found-loaded none bytes h = ground arith
found-loaded (some other) bytes h = ground arith

found-empty : (o : Option Bytes) → found o ≡ empty → o ≡ none
unfolding found
found-empty none h = refl
found-empty (some other) h = ground arith

loaded_object :
    (c v : ℕ) (bytes : Bytes) (object : Option Classes)
    → load_object object c v ≡ loaded bytes
    → lookup v (versions_of c (elim object [ none ↦ [] | some classes ↦ classes ])) ≡ some bytes
unfolding load_object
loaded_object c v bytes none h = ground arith
loaded_object c v bytes (some []) h = ground arith
loaded_object c v bytes (some (d ∷ classes)) h = found-loaded _ bytes h

empty_object :
    (c v : ℕ) (object : Option Classes)
    → load_object object c v ≡ empty
    → lookup v (versions_of c (elim object [ none ↦ [] | some classes ↦ classes ])) ≡ none
unfolding load_object versions_of lookup
empty_object c v none h = refl
empty_object c v (some []) h = ground arith
empty_object c v (some (d ∷ classes)) h = found-empty _ h

load-loaded :
    (tree : Tree) (p : Query) (bytes : Bytes)
    → load tree p ≡ loaded bytes
    → find_layer tree p ≡ some bytes
unfolding load classes_of find_layer
load-loaded tree p bytes h = loaded_object p.1.0 p.1.1 bytes (lookup p.0 tree) h

load-empty : (tree : Tree) (p : Query) → load tree p ≡ empty → find_layer tree p ≡ none
unfolding load classes_of find_layer
load-empty tree p h = empty_object p.1.0 p.1.1 (lookup p.0 tree) h

-- A layer of the object, or of another, is loaded as before; so is what is missing.
load-put_layer_self :
    (q : Query) (bytes : Bytes) (tree : Tree) → load (put_layer q bytes tree) q ≡ loaded bytes
unfolding found
load-put_layer_self q bytes tree =
    ground (arith, load-put_layer q q bytes tree, ==_refl q.0, ==_refl q.1.0, ==_refl q.1.1)

load-put_layer_kept :
    (q p : Query) (bytes kept : Bytes) (tree : Tree)
    → (q == p) ≡ false
    → load tree p ≡ loaded kept
    → load (put_layer q bytes tree) p ≡ loaded kept
unfolding found find_layer
load-put_layer_kept q p bytes kept tree apart h = ground (
  arith,
  load-put_layer q p bytes tree,
  same_query q p,
  load-loaded tree p kept h,
  apart,
  h,
  nat_eq.beq_iff q.0 p.0,
)

load-put_layer_missing :
    (q p : Query) (bytes : Bytes) (tree : Tree)
    → (q == p) ≡ false
    → load tree p ≡ empty
    → load (put_layer q bytes tree) p ≡ empty
unfolding found find_layer
load-put_layer_missing q p bytes tree apart h = ground (
  arith,
  load-put_layer q p bytes tree,
  same_query q p,
  load-empty tree p h,
  apart,
  h,
  nat_eq.beq_iff q.0 p.0,
)

load-put_layer_apart :
    (q p : Query) (bytes : Bytes) (tree : Tree)
    → (q.0 == p.0) ≡ false
    → load (put_layer q bytes tree) p ≡ load tree p
load-put_layer_apart q p bytes tree apart = ground (arith, load-put_layer q p bytes tree, apart)

load-remove :
    (id : ℕ) (p : Query) (tree : Tree) → (id == p.0) ≡ true → load (remove id tree) p ≡ removed
unfolding load remove load_object
load-remove id p tree here = ground (arith, lookup-insert id p.0 [] tree, here)

load-remove_apart :
    (id : ℕ) (p : Query) (tree : Tree) → (id == p.0) ≡ false → load (remove id tree) p ≡ load tree p
unfolding load remove
load-remove_apart id p tree apart = ground (arith, lookup-insert id p.0 [] tree, apart)

-- A directory tree is a storage: a stored layer is loaded, others and missing ones stay as they were, and a
-- removed object is removed.
pub tree_storage-IsStorage : IsStorage tree_storage
tree_storage-IsStorage = record {
  stored = load-put_layer_self;
  kept = load-put_layer_kept;
  missing = load-put_layer_missing;
  apart = load-put_layer_apart;
  gone = load-remove;
  others = load-remove_apart;
}
