-- ===== src/DomainStorage/Replace/Atomic.antt =====
-- A crash or a failure while a layer is closed.
use apptraverse.Prelude.{
  length, ◌≡◌, refl, sym, ap, ◌∙◌, subst, ◌⊎◌, inl, inr, Bool, true, false, Option, none, some,
  List, [], ◌∷◌, arith, if_true, if_false, Bool-cases, Bytes, ◌==◌, ==_eq, nat_eq, pair_eq,
  bytes_eq, is_some, All,
}
use apptraverse.DomainStorage.{Query, find_layer}
use apptraverse.DomainStorage.Replace.{
  Disk, Failure, reading, probing, not_found, object_directory, class_directory, opening, flushing,
  renaming, writing, LayerFileRead, read_error, ok, read_file, read_existing_layer_file,
  replace_layer_file, skipped_unchanged, written, failed, DirectoryDomainStorage,
  record_layer_commit, Writer, latest, replace_and_record, commit_read, commit_if_needed,
}
use apptraverse.DomainStorage.Replace.Whole.{
  IsUnchanged, IsReplaced, IsWhole, IsReplacement, replace_layer_file-IsReplacement,
}

-- What is true of a layer that was closed: no disk on the way has a torn layer, and the close has failed
-- with the layers as before, or succeeded with this one layer as written.
abbrev pub IsClosed :
    Option Failure → Writer → DirectoryDomainStorage → List Disk × DirectoryDomainStorage → Type 0
IsClosed failure w s r =
    All (IsWhole w.query w.buffer s.disk) r.0
    × ((r.1.disk ≡ latest s.disk r.0)
        × (((r.1.last_layer_commit ≡ failed)
              × (IsUnchanged s.disk r.1.disk
                  × ((r.1.save_session_had_failure ≡ true) × (is_some failure ≡ true))))
            ⊎ (((r.1.last_layer_commit ≡ written) ⊎ (r.1.last_layer_commit ≡ skipped_unchanged))
                × IsReplaced w.query w.buffer s.disk r.1.disk)))

recorded-IsClosed :
    (failure : Option Failure) (w : Writer) (s : DirectoryDomainStorage) (r : List Disk × Bool)
    → IsReplacement failure w.query w.buffer s.disk r
    → IsClosed failure w s (replace_and_record r (length w.buffer) s)
unfolding replace_and_record record_layer_commit
recorded-IsClosed failure w s (states, true) (whole, inl (h, now)) =
    (whole, (refl, inr (inl refl, now)))
recorded-IsClosed failure w s (states, true) (whole, inr (h, rest)) = absurd (ground arith)
recorded-IsClosed failure w s (states, false) (whole, inl (h, now)) = absurd (ground arith)
recorded-IsClosed failure w s (states, false) (whole, inr (h, (same, f))) =
    (whole, (refl, inl (refl, (same, (refl, f)))))

unchanged_layer :
    (q : Query) (bytes buffer : Bytes) (disk : Disk)
    → find_layer disk.layers q ≡ some bytes
    → (bytes == buffer) ≡ true
    → IsReplaced q buffer disk disk
unchanged_layer q bytes buffer disk there same p = elim (Bool-cases (q == p)) [
  | inl here ↦
      ap (find_layer disk.layers) (sym (==_eq q p here))
      ∙ there
      ∙ ap some (==_eq bytes buffer same)
      ∙ sym (if_true _ _ here)
  | inr other ↦ sym (if_false _ _ other)
]

commit_ok-IsClosed :
    (failure : Option Failure) (w : Writer) (s : DirectoryDomainStorage) (bytes : Bytes)
    → find_layer s.disk.layers w.query ≡ some bytes
    → IsClosed failure w s (commit_read (ok bytes) failure w s)
unfolding commit_read record_layer_commit
commit_ok-IsClosed failure w s bytes there =
    let replacing = replace_layer_file failure w.query w.buffer s.disk in
    elim (Bool-cases (bytes == w.buffer)) [
      | inl same ↦
          let closed : IsClosed failure w s
              (s.disk ∷ [], record_layer_commit skipped_unchanged 0 s) =
            (
              (inl (λ p. refl), tt),
              (refl, inr (inr refl, unchanged_layer w.query bytes w.buffer s.disk there same)),
            ) in
          subst (IsClosed failure w s) (sym (if_true _ _ same)) closed
      | inr different ↦ subst (IsClosed failure w s) (sym (if_false _ _ different)) (
          recorded-IsClosed failure w s replacing
            (replace_layer_file-IsReplacement failure w.query w.buffer s.disk))
    ]

read_error-IsClosed :
    (failure : Option Failure) (w : Writer) (s : DirectoryDomainStorage)
    → is_some failure ≡ true
    → IsClosed failure w s (commit_read read_error failure w s)
unfolding commit_read record_layer_commit
read_error-IsClosed failure w s f =
    ((inl (λ p. refl), tt), (refl, inl (refl, ((λ p. refl), (refl, f)))))

read_file-cases :
    (failure : Option Failure) (bytes : Bytes)
    → (read_file failure (some bytes) ≡ ok bytes)
      ⊎ ((read_file failure (some bytes) ≡ read_error) × (is_some failure ≡ true))
      ⊎ (read_file failure (some bytes) ≡ not_found)
unfolding read_file
read_file-cases (some reading) bytes = inr (inl (refl, refl))
read_file-cases (some probing) bytes = inr (inr refl)
read_file-cases none bytes = inl refl
read_file-cases (some object_directory) bytes = inl refl
read_file-cases (some class_directory) bytes = inl refl
read_file-cases (some opening) bytes = inl refl
read_file-cases (some flushing) bytes = inl refl
read_file-cases (some renaming) bytes = inl refl
read_file-cases (some (writing n)) bytes = inl refl

not_found-IsClosed :
    (failure : Option Failure) (w : Writer) (s : DirectoryDomainStorage)
    → IsClosed failure w s (commit_read not_found failure w s)
unfolding commit_read
not_found-IsClosed failure w s =
    recorded-IsClosed failure w s (replace_layer_file failure w.query w.buffer s.disk)
      (replace_layer_file-IsReplacement failure w.query w.buffer s.disk)

commit_read-IsClosed :
    (failure : Option Failure) (w : Writer) (s : DirectoryDomainStorage) (layer : Option Bytes)
    → find_layer s.disk.layers w.query ≡ layer
    → IsClosed failure w s (commit_read (read_file failure layer) failure w s)
unfolding read_file
commit_read-IsClosed failure w s none there = not_found-IsClosed failure w s
commit_read-IsClosed failure w s (some bytes) there =
    let closed : LayerFileRead → Type 0 = λ r. IsClosed failure w s (commit_read r failure w s) in
    elim (read_file-cases failure bytes) [
      | inl h ↦ subst closed (sym h) (commit_ok-IsClosed failure w s bytes there)
      | inr (inl (h, f)) ↦ subst closed (sym h) (read_error-IsClosed failure w s f)
      | inr (inr h) ↦ subst closed (sym h) (not_found-IsClosed failure w s)
    ]

-- Whatever call fails, and wherever a crash stops it, closing a layer leaves every layer whole.
pub commit_if_needed_lem :
    (failure : Option Failure) (w : Writer) (s : DirectoryDomainStorage)
    → IsClosed failure w s (commit_if_needed failure w s)
unfolding commit_if_needed read_existing_layer_file
commit_if_needed_lem failure w s =
    commit_read-IsClosed failure w s (find_layer s.disk.layers w.query) refl
