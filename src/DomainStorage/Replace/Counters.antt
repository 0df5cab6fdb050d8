-- ===== src/DomainStorage/Replace/Counters.antt =====
-- The counters of a save session.
use apptraverse.Prelude.{
  ℕ, length, Bool-cases, if_true, if_false, sym, subst, nat_eq, bytes_eq, ◌≡◌, refl, ◌⊎◌, inl, inr,
  Bool, true, false, Option, List, [], ◌∷◌, ◌+◌, ◌%◌, ◌^◌, arith, Bytes, ◌==◌,
}
use apptraverse.DomainStorage.Replace.{
  Disk, Failure, LayerFileRead, not_found, read_error, ok, read_existing_layer_file,
  replace_layer_file, LayerCommitOutcome, no_commit, skipped_unchanged, written, failed,
  DirectoryDomainStorage, record_layer_commit, count_outcome, Writer, write,
  record_layer_bytes_accepted, begin_save_session, latest, replace_and_record, commit_read,
  commit_if_needed,
}

-- Every close of the session has one outcome, and a failed close is reported.
abbrev pub IsCounted : DirectoryDomainStorage → Type 0
IsCounted s =
    (s.save_session_stats.layer_store_calls
      ≡ (s.save_session_stats.layers_skipped_unchanged + s.save_session_stats.layers_written
          + s.save_session_stats.layers_failed_commits)
        % 2 ^ 64)
    × ((s.save_session_stats.layers_failed_commits ≡ 0) ⊎ (s.save_session_had_failure ≡ true))

-- What a session reports is kept by a close with an outcome.
record_layer_commit-IsCounted :
    (outcome : LayerCommitOutcome) (disk_bytes : ℕ) (s : DirectoryDomainStorage)
    → ¬ (outcome ≡ no_commit)
    → IsCounted s
    → IsCounted (record_layer_commit outcome disk_bytes s)
unfolding record_layer_commit count_outcome
record_layer_commit-IsCounted no_commit disk_bytes s h counted = absurd (h refl)
record_layer_commit-IsCounted skipped_unchanged disk_bytes s h counted = ground arith
record_layer_commit-IsCounted written disk_bytes s h counted = ground arith
record_layer_commit-IsCounted failed disk_bytes s h counted = ground arith

recorded-IsCounted :
    (r : List Disk × Bool) (size : ℕ) (s : DirectoryDomainStorage)
    → IsCounted s
    → IsCounted (replace_and_record r size s).1
unfolding replace_and_record
recorded-IsCounted (states, true) size s counted =
    record_layer_commit-IsCounted written size (record s { disk = latest s.disk states })
      (λ h. absurd (ground arith)) counted
recorded-IsCounted (states, false) size s counted =
    record_layer_commit-IsCounted failed 0 (record s { disk = latest s.disk states })
      (λ h. absurd (ground arith)) counted

commit_read-IsCounted :
    (layer : LayerFileRead) (failure : Option Failure) (w : Writer) (s : DirectoryDomainStorage)
    → IsCounted s
    → IsCounted (commit_read layer failure w s).1
unfolding commit_read
commit_read-IsCounted read_error failure w s counted =
    record_layer_commit-IsCounted failed 0 s (λ h. absurd (ground arith)) counted
commit_read-IsCounted not_found failure w s counted =
    recorded-IsCounted (replace_layer_file failure w.query w.buffer s.disk) (length w.buffer) s
      counted
commit_read-IsCounted (ok bytes) failure w s counted = elim (Bool-cases (bytes == w.buffer)) [
  | inl same ↦
      subst (λ (r : List Disk × DirectoryDomainStorage). IsCounted r.1) (sym (if_true _ _ same))
        (record_layer_commit-IsCounted skipped_unchanged 0 s (λ h. absurd (ground arith)) counted)
  | inr different ↦
      subst (λ (r : List Disk × DirectoryDomainStorage). IsCounted r.1)
        (sym (if_false _ _ different))
        (recorded-IsCounted (replace_layer_file failure w.query w.buffer s.disk) (length w.buffer) s
          counted)
]

accepted-IsCounted :
    (size : ℕ) (s : DirectoryDomainStorage)
    → IsCounted s
    → IsCounted (record_layer_bytes_accepted size s)
unfolding record_layer_bytes_accepted
accepted-IsCounted size s counted = elim (Bool-cases s.save_session_active) [
  | inl active ↦ subst IsCounted (sym (if_true _ _ active)) counted
  | inr idle ↦ subst IsCounted (sym (if_false _ _ idle)) counted
]

-- What the writers of a session do.
pub data StorageCall : Type 0 where
  writes : Bytes → Writer → StorageCall
  closes : Option Failure → Writer → StorageCall

unfoldable pub perform : StorageCall → DirectoryDomainStorage → DirectoryDomainStorage
perform (writes bytes w) s = (write bytes w s).1
perform (closes failure w) s = (commit_if_needed failure w s).1

unfoldable pub perform_all : List StorageCall → DirectoryDomainStorage → DirectoryDomainStorage
perform_all [] s = s
perform_all (call ∷ calls) s = perform_all calls (perform call s)

perform-IsCounted :
    (call : StorageCall) (s : DirectoryDomainStorage) → IsCounted s → IsCounted (perform call s)
unfolding perform write commit_if_needed
perform-IsCounted (writes bytes w) s counted = accepted-IsCounted (length bytes) s counted
perform-IsCounted (closes failure w) s counted =
    commit_read-IsCounted (read_existing_layer_file failure w.query s.disk) failure w s counted

perform_all-IsCounted :
    (calls : List StorageCall) (s : DirectoryDomainStorage)
    → IsCounted s
    → IsCounted (perform_all calls s)
unfolding perform_all
perform_all-IsCounted [] s counted = counted
perform_all-IsCounted (call ∷ calls) s counted =
    perform_all-IsCounted calls (perform call s) (perform-IsCounted call s counted)

-- In a save session every close is counted as skipped, written or failed, up to the width of the counters,
-- and where a failed close is counted the session reports a failure.
pub session-IsCounted :
    (calls : List StorageCall) (s : DirectoryDomainStorage)
    → IsCounted (perform_all calls (begin_save_session s))
unfolding begin_save_session
session-IsCounted calls s =
    perform_all-IsCounted calls (begin_save_session s) (ground arith, inl refl)
