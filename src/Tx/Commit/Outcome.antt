-- ===== src/Tx/Commit/Outcome.antt =====
-- How `TxTryCommit` of src/stm/transaction_mixinv.h ends for the last task of a transaction with writes.
use tlstm.Prelude.{
  ℕ, ◌+◌, ◌-◌, ◌%◌, ◌<◌, ◌≡◌, refl, Bool, true, false, Option, none, some, List, arith, sym, ap,
  subst, ◌∙◌, ◌==◌, ltb, leb, not, ◌&&◌,
}
use tlstm.Common.Constants.{maximum_ts, word_mod}
use tlstm.Common.VersionLock.{get_version_lock}
use tlstm.Common.Timestamp.{get_next_ts}
use tlstm.Tx.WordLog.{WriteWordLogEntry, write_back}
use tlstm.Tx.State.{
  EntryRef, TxMixinv, State, tx_committed, no_restart, restart_validation, my_thread, entry_at,
  increment_statistics, abort_commit_validate,
}
use tlstm.Tx.Control.{done}
use tlstm.Tx.Rollback.{rollback_transaction}
use tlstm.Tx.Validate.{validate_commit}
use tlstm.Tx.Commit.{
  each_write, lock_reads, increment_commit_ts, write_commit, complete_commit, commit_at,
  commit_writes, release_read_locks,
}
use tlstm.Tx.Commit.Loop.{
  Has, tx_refs, SameTasks, task_refs_same, each_task_lem, run_all-IsQuiet, commit_write-IsQuiet,
}
use tlstm.Tx.Commit.ReadLocks.{
  locked_by, locked_by-commit_ts, lock_reads_lem, release_read_locks-lock_reads,
}
use tlstm.Tx.Commit.WriteBack.{words, words_same, write_commit_lem}
use tlstm.Tx.Commit.Kept.{complete_commit_lem, completed, rollback_transaction-keeps}

-- The timestamp of the next commit, and the state in which a commit at it validates: the versions
-- of the stripes that it writes are locked.
abbrev pub next_ts : State → ℕ
next_ts s = (s.commit_ts + 1) % word_mod

abbrev pub validating : ℕ → State → State
validating tid s = record s { read_locks = locked_by tid s; commit_ts = next_ts s }

increment_lem :
    (tid : ℕ) (s : State)
    → increment_commit_ts (each_write lock_reads tid s) ≡ (next_ts s, validating tid s)
unfolding increment_commit_ts get_next_ts
increment_lem tid s =
    ap (λ (t : State). (next_ts t, record t { commit_ts = next_ts t })) (lock_reads_lem tid s)

-- The test on which the commit fails.
abbrev pub fails : ℕ → State → Bool
fails tid s =
    not (next_ts s == (my_thread tid s).valid_ts + 1)
    && ltb 0 (validate_commit tid (validating tid s))

pub commit_writes_lem :
    (tid : ℕ) (read_only : Bool) (s : State)
    → commit_writes tid read_only s ≡ commit_at tid (next_ts s) read_only (validating tid s)
unfolding commit_writes
commit_writes_lem tid read_only s =
    ap (λ (p : ℕ × State). commit_at tid p.0 read_only p.1) (increment_lem tid s)

commit_at_stands :
    (tid ts : ℕ) (read_only : Bool) (s : State)
    → leb maximum_ts ts ≡ false
    → (not (ts == (my_thread tid s).valid_ts + 1) && ltb 0 (validate_commit tid s)) ≡ false
    → commit_at tid ts read_only s ≡ complete_commit tid ts read_only (write_commit tid ts s)
unfolding commit_at
commit_at_stands tid ts read_only s small h = rw (small, h) refl

commit_at_fails :
    (tid ts : ℕ) (read_only : Bool) (s : State)
    → leb maximum_ts ts ≡ false
    → (not (ts == (my_thread tid s).valid_ts + 1) && ltb 0 (validate_commit tid s)) ≡ true
    → commit_at tid ts read_only s
      ≡ done restart_validation (
          increment_statistics tid abort_commit_validate
            (rollback_transaction tid (validate_commit tid s) (release_read_locks tid s)))
unfolding commit_at
commit_at_fails tid ts read_only s small h = rw (small, h) refl

pub write_commit_same :
    (tid ts : ℕ) (s : State) → (write_commit tid ts s).transactions ≡ s.transactions
unfolding write_commit
write_commit_same tid ts s =
    let t = s.transactions tid in
    ap (λ (u : State). u.transactions)
      (each_task_lem _ (commit_write-IsQuiet (get_version_lock ts)) t.prog_thread_id t.start_serial
        (t.serial + 1 - t.start_serial) s)
    ∙ (run_all-IsQuiet _ (commit_write-IsQuiet (get_version_lock ts)) (tx_refs tid s) s).tasks

leb-false : (a b : ℕ) → b < a → leb a b ≡ false
leb-false a b h = ground arith

validating-SameTasks : (tid : ℕ) (s : State) → SameTasks s (validating tid s)
validating-SameTasks tid s = record { tasks = refl; threads = refl; depth = refl }

validating-refs : (tid : ℕ) (s : State) → tx_refs tid (validating tid s) ≡ tx_refs tid s
validating-refs tid s =
    let t = s.transactions tid in
    task_refs_same t.prog_thread_id t.start_serial (t.serial + 1 - t.start_serial)
      (validating-SameTasks tid s)

-- The last task of a transaction commits its writes when the clock does not overflow and either its
-- timestamp is the next one or the validation answers zero. Then the memory is changed by the words
-- of all its write log entries in order and by nothing else, each entry that has its write lock
-- leaves it free, the read lock of such an entry has the version of the new timestamp, the task is
-- the last one of its program thread that has completed, and its status is committed.
pub commit_writes-no_restart :
    (tid : ℕ) (read_only : Bool) (s : State)
    → next_ts s < maximum_ts
    → fails tid s ≡ false
    → (s' : State) × (commit_writes tid read_only s ≡ done no_restart s')
      × (s'.memory ≡ write_back (words (tx_refs tid s) s) s.memory)
      × ((r : EntryRef)
          → Has r (tx_refs tid s)
          → s.write_locks (entry_at r s).write_lock ≡ some r
          → (s'.write_locks (entry_at r s).write_lock ≡ none)
            × (s'.read_locks (entry_at r s).read_lock ≡ get_version_lock (next_ts s)))
      × ((my_thread tid s').last_completed_task ≡ (s.transactions tid).serial)
      × ((s'.transactions tid).tx_status ≡ tx_committed)
commit_writes-no_restart tid read_only s small h =
    let ts = next_ts s in
    let v = validating tid s in
    let (memory, locks, _) = write_commit_lem tid ts v in
    let w = write_commit tid ts v in
    let (returns, c) = complete_commit_lem tid ts read_only w in
    let refs = validating-refs tid s in
    (
      completed tid ts read_only w,
      commit_writes_lem tid read_only s
          ∙ commit_at_stands tid ts read_only v (leb-false maximum_ts ts small) h
          ∙ returns,
      c.memory
          ∙ memory
          ∙ ap (λ (log : List WriteWordLogEntry). write_back log s.memory)
              (words_same (tx_refs tid v) (validating-SameTasks tid s))
          ∙ ap (λ (rs : List EntryRef). write_back (words rs s) s.memory) refs,
      λ r has held.
          let (free, version) = locks r (subst (Has r) (sym refs) has) held in
          (
            ap (λ (l : ℕ → Option EntryRef). l (entry_at r s).write_lock) c.write_locks ∙ free,
            ap (λ (l : ℕ → ℕ). l (entry_at r s).read_lock) c.read_locks ∙ version,
          ),
      c.turn ∙ ap (λ (u : ℕ → TxMixinv). (u tid).serial) (write_commit_same tid ts v),
      c.status,
    )

release-validating :
    (tid : ℕ) (s : State)
    → ((r : EntryRef)
        → Has r (tx_refs tid s)
        → s.read_locks (entry_at r s).read_lock ≡ (entry_at r s).old_version)
    → release_read_locks tid (validating tid s) ≡ record s { commit_ts = next_ts s }
release-validating tid s held =
    let t = s.transactions tid in
    let later : State = record s { commit_ts = next_ts s } in
    ap (λ (locks : ℕ → ℕ). release_read_locks tid (record later { read_locks = locks }))
      (sym (locked_by-commit_ts tid (next_ts s) s))
    ∙ ap (release_read_locks tid) (sym (lock_reads_lem tid later))
    ∙ release_read_locks-lock_reads tid later (λ r has. held r (
        subst (Has r)
          (task_refs_same t.prog_thread_id t.start_serial (t.serial + 1 - t.start_serial) {s = s}
            {s' = later} (record { tasks = refl; threads = refl; depth = refl }))
          has))

-- When the clock does not overflow, the timestamp is not the next one, the validation does not
-- answer zero, and each write log entry of the transaction remembers the version of its stripe, the
-- commit fails: it answers `restart_validation`, the memory and all versions are what they were
-- before, and the clock has advanced.
pub commit_writes-restart_validation :
    (tid : ℕ) (read_only : Bool) (s : State)
    → next_ts s < maximum_ts
    → fails tid s ≡ true
    → ((r : EntryRef)
        → Has r (tx_refs tid s)
        → s.read_locks (entry_at r s).read_lock ≡ (entry_at r s).old_version)
    → (s' : State) × (commit_writes tid read_only s ≡ done restart_validation s')
      × (s'.memory ≡ s.memory)
      × (s'.read_locks ≡ s.read_locks)
      × (s'.commit_ts ≡ next_ts s)
commit_writes-restart_validation tid read_only s small h held =
    let ts = next_ts s in
    let v = validating tid s in
    let serial = validate_commit tid v in
    let released = release-validating tid s held in
    let k = rollback_transaction-keeps tid serial (release_read_locks tid v) in
    (
      increment_statistics tid abort_commit_validate
          (rollback_transaction tid serial (release_read_locks tid v)),
      commit_writes_lem tid read_only s
          ∙ commit_at_fails tid ts read_only v (leb-false maximum_ts ts small) h,
      k.memory ∙ ap (λ (u : State). u.memory) released,
      k.read_locks ∙ ap (λ (u : State). u.read_locks) released,
      k.commit_ts ∙ ap (λ (u : State). u.commit_ts) released,
    )
