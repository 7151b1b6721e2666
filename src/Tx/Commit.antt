-- ===== src/Tx/Commit.antt =====
-- `TxCommit`, `TxTryCommit` and `ReleaseReadLocks` of src/stm/transaction_mixinv.h, with
-- `COMMIT_TS_INC`.
pub mod Loop
pub mod ReadLocks
pub mod WriteBack
pub mod Order
pub mod Kept
pub mod Outcome
pub mod Progress
use tlstm.Prelude.{
  ℕ, zero, suc, ◌+◌, ◌-◌, ◌%◌, Bool, true, false, ◌||◌, ◌&&◌, not, Option, none, some, List, [],
  ◌∷◌, ◌==◌, ltb, leb, if◌then◌else◌, update,
}
use tlstm.Common.Constants.{maximum_ts, read_lock_set, word_mod}
use tlstm.Common.VersionLock.{get_version_lock}
use tlstm.Common.Timestamp.{get_next_ts, restart}
use tlstm.Tx.WordLog.{write_back}
use tlstm.Tx.State.{
  EntryRef, WriteLogEntry, RestartCause, no_restart, restart_lock, restart_lock_task,
  restart_validation, restart_clock_overflow, tx_idle, tx_executing, tx_aborted, tx_committed,
  TxStatus, ProgramThread, TxMixinv, State, commit, commit_read_only, abort_write_locked,
  abort_task_write_locked, abort_spec_reader, abort_commit_validate, clock_overflows, mm_tx_commit,
  set_tx, set_my_thread, set_read_lock, set_write_lock, my_thread, owner_of, entry_at,
  increment_statistics, call_mm,
}
use tlstm.Tx.Locks.{full_version_lock_table_size}
use tlstm.Tx.Control.{
  Result, done, again, and_then, for_turn, for_validation, for_commit, for_synchronization,
  for_idle,
}
use tlstm.Tx.Rollback.{
  my_turn, log_entries, clear_write_log, clear_logs, rollback_transaction,
  ready_to_abort_transaction, tx_restart,
}
use tlstm.Tx.Validate.{validate_tls, validate_commit}
use tlstm.Tx.Contention.{cm_start_tx}

abbrev pub is_ref : EntryRef → Option EntryRef → Bool
is_ref r none = false
is_ref r (some q) = r.owner == q.owner && r.slot == q.slot

-- What a loop over the write logs of the tasks `i`, `i + 1`, … does to each entry, in order.
unfoldable pub each_entry : (EntryRef → State → State) → (owner n : ℕ) → State → State
each_entry f owner zero s = s
each_entry f owner (suc n) s = f (record { owner = owner; slot = n }) (each_entry f owner n s)

unfoldable pub each_task : (EntryRef → State → State) → (ptid i n : ℕ) → State → State
unfolding each_entry
each_task f ptid i zero s = s
each_task f ptid i (suc n) s =
    let owner = owner_of ptid i s in
    each_task f ptid (i + 1) n (each_entry f owner (s.transactions owner).write_log.size s)

-- The loop over all tasks of the transaction of `tid`.
abbrev pub each_write : (EntryRef → State → State) → ℕ → State → State
each_write f tid s =
    let t = s.transactions tid in
    each_task f t.prog_thread_id t.start_serial (t.serial + 1 - t.start_serial) s

abbrev pub lock_reads : EntryRef → State → State
lock_reads r s = set_read_lock (entry_at r s).read_lock read_lock_set s

abbrev pub unlock_reads : EntryRef → State → State
unlock_reads r s = set_read_lock (entry_at r s).read_lock (entry_at r s).old_version s

unfoldable pub release_read_locks : ℕ → State → State
unfolding each_task
release_read_locks tid s = each_write unlock_reads tid s

-- The words of an entry go to the memory; its locks are released unless a later entry has them.
unfoldable pub commit_write : (version : ℕ) → EntryRef → State → State
unfolding write_back
commit_write version r s =
    let e = entry_at r s in
    let s1 = record s { memory = write_back e.head s.memory } in
    if is_ref r (s.write_locks e.write_lock)
    then set_write_lock e.write_lock none (set_read_lock e.read_lock version s1)
    else s1

-- `IncrementCommitTs`
unfoldable pub increment_commit_ts : State → ℕ × State
unfolding get_next_ts
increment_commit_ts s =
    let (ts, next) = get_next_ts s.commit_ts in ((ts + 1) % word_mod, record s { commit_ts = next })

-- The loop `for(i = …; i < FULL_VERSION_LOCK_TABLE_SIZE; i += 2)` that sets places of the lock table,
-- on fuel.
unfoldable pub set_places {ℓ} : {A : Type ℓ} → (fuel i : ℕ) → A → (ℕ → A) → ℕ → A
set_places zero i a table = table
set_places (suc fuel) i a table =
    let rest = set_places fuel (i + 2) a (update table i a) in
    if ltb i full_version_lock_table_size then rest else table

-- `InitializeReadLocks`
unfoldable pub initialize_read_locks : State → State
unfolding get_version_lock restart
initialize_read_locks s = record s {
  read_locks = set_places full_version_lock_table_size 0 (get_version_lock restart) s.read_locks;
}

unfoldable pub restart_commit_ts : State → State
unfolding initialize_read_locks restart
restart_commit_ts s = initialize_read_locks (record s { commit_ts = restart })

abbrev pub is_executing : TxStatus → Bool
is_executing tx_executing = true
is_executing _ = false

-- No descriptor below `n` is executing.
unfoldable pub all_idle : ℕ → State → Bool
all_idle zero s = true
all_idle (suc n) s = not (is_executing (s.transactions n).tx_status) && all_idle n s

-- `StartSynchronization` has set the flag; it waits, and the clock starts again.
unfoldable pub await_idle : ℕ → State → Result RestartCause
unfolding all_idle restart_commit_ts
await_idle tid s =
    if all_idle s.thread_count s
    then done restart_clock_overflow (
        increment_statistics tid clock_overflows
          (record (restart_commit_ts s) { synchronization_in_progress = false }))
    else again for_idle s

-- One pass of the wait for the thread that restarts the clock.
unfoldable pub await_end : State → Result RestartCause
await_end s =
    if s.synchronization_in_progress
    then again for_synchronization s
    else done restart_clock_overflow s

-- The clock has overflowed: this thread restarts it, or waits for the one that does.
unfoldable pub clock_overflow : ℕ → State → Result RestartCause
unfolding release_read_locks await_idle await_end
clock_overflow tid s =
    let s1 = release_read_locks tid (set_tx tid (λ t. record t { tx_status = tx_aborted }) s) in
    if s1.synchronization_in_progress
    then await_end (set_tx tid (λ t. record t { tx_status = tx_idle }) s1)
    else await_idle tid (record s1 { synchronization_in_progress = true })

-- The end of `TxTryCommit`, for an intermediate task too.
unfoldable pub finish_commit : (tid ts : ℕ) (read_only : Bool) → State → State
finish_commit tid ts read_only s =
    set_tx tid
      (λ t.
        let cleared = if read_only then t else clear_write_log t in
        record cleared {
          tx_status = tx_committed;
          read_log = [];
          task_read_log = [];
          mm = mm_tx_commit ts ∷ t.mm;
          succ_aborts = 0;
        })
      s

-- The write-back of a transaction whose read log stands.
unfoldable pub write_commit : (tid ts : ℕ) → State → State
unfolding commit_write each_task get_version_lock
write_commit tid ts s =
    set_my_thread tid (λ p. record p { last_completed_writer = (s.transactions tid).serial })
      (each_write (commit_write (get_version_lock ts)) tid s)

-- What the last task does once the writes, if any, are in the memory.
unfoldable pub complete_commit : (tid ts : ℕ) (read_only : Bool) → State → Result RestartCause
unfolding cm_start_tx finish_commit
complete_commit tid ts read_only s = done no_restart (
    finish_commit tid ts read_only (
      set_my_thread tid (λ p. record p { last_completed_task = (s.transactions tid).serial })
        (increment_statistics tid commit (cm_start_tx tid s))))

-- The last task of a transaction with writes, which has locked their versions and has its timestamp.
unfoldable pub commit_at : (tid ts : ℕ) (read_only : Bool) → State → Result RestartCause
unfolding clock_overflow validate_commit release_read_locks rollback_transaction write_commit
    complete_commit
commit_at tid ts read_only s =
    let abort_serial = validate_commit tid s in
    if leb maximum_ts ts
    then clock_overflow tid s
    else if not (ts == (my_thread tid s).valid_ts + 1) && ltb 0 abort_serial
    then done restart_validation (
        increment_statistics tid abort_commit_validate
          (rollback_transaction tid abort_serial (release_read_locks tid s)))
    else complete_commit tid ts read_only (write_commit tid ts s)

unfoldable pub commit_writes : (tid : ℕ) (read_only : Bool) → State → Result RestartCause
unfolding increment_commit_ts commit_at each_task
commit_writes tid read_only s =
    let (ts, s1) = increment_commit_ts (each_write lock_reads tid s) in
    commit_at tid ts read_only s1

-- The wait of an intermediate task for the end of the transaction.
unfoldable pub await_commit : (tid ts : ℕ) (read_only : Bool) → State → Result RestartCause
unfolding finish_commit tx_restart
await_commit tid ts read_only s =
    let t = s.transactions tid in
    if ltb (my_thread tid s).last_completed_task t.commit_serial
    then if t.aborting_transaction
      then tx_restart restart_lock tid (
          increment_statistics tid abort_write_locked
            (set_tx tid (λ u. record u { aborting_transaction = false }) s))
      else again for_commit s
    else done no_restart (finish_commit tid ts read_only s)

-- An intermediate task lets the next one have its turn.
unfoldable pub complete_task : (tid : ℕ) (read_only : Bool) → State → State
complete_task tid read_only s =
    let serial = (s.transactions tid).serial in
    set_my_thread tid
      (λ p. record p {
        last_completed_writer = if read_only then p.last_completed_writer else serial;
        last_completed_task = serial;
        progress = (p.progress + 1) % word_mod;
      })
      s

unfoldable pub tx_try_commit : (tid : ℕ) (read_only : Bool) → State → Result RestartCause
unfolding complete_task await_commit commit_writes complete_commit
tx_try_commit tid read_only s =
    let t = s.transactions tid in
    let ts = (my_thread tid s).valid_ts in
    if not t.try_commit
    then await_commit tid ts read_only (complete_task tid read_only s)
    else if not read_only || leb t.start_serial (my_thread tid s).last_completed_writer
    then commit_writes tid read_only s
    else complete_commit tid ts read_only (increment_statistics tid commit_read_only s)

-- `if(ret) TxRestart(ret);`
abbrev pub restart_unless_committed : ℕ → RestartCause → State → Result (Unit {0})
restart_unless_committed tid no_restart s = done tt s
restart_unless_committed tid cause s = tx_restart cause tid s

-- `TxCommit` from the end of its waits.
unfoldable pub commit_ready : (tid : ℕ) → State → Result (Unit {0})
unfolding rollback_transaction ready_to_abort_transaction tx_restart validate_tls tx_try_commit
commit_ready tid s =
    let t = s.transactions tid in
    let read_only = t.write_log.size == 0 in
    if t.abort_transaction
    then and_then
        (if t.try_commit
          then done tt (rollback_transaction tid t.start_serial s)
          else ready_to_abort_transaction tid s)
        (λ _ s1. tx_restart restart_lock tid (increment_statistics tid abort_write_locked s1))
    else if ltb t.last_writer (my_thread tid s).last_completed_writer && not (validate_tls tid s)
    then tx_restart restart_validation tid (increment_statistics tid abort_spec_reader s)
    else and_then (tx_try_commit tid read_only s) (restart_unless_committed tid)

-- One pass of the second wait of `TxCommit`, which only the last task makes.
unfoldable pub commit_validated : (tid : ℕ) → State → Result (Unit {0})
unfolding rollback_transaction tx_restart commit_ready
commit_validated tid s =
    let t = s.transactions tid in
    let p = my_thread tid s in
    if not t.try_commit
    then commit_ready tid s
    else if t.aborting_transaction
    then tx_restart restart_lock tid
        (increment_statistics tid abort_write_locked (rollback_transaction tid t.start_serial s))
    else if p.requires_validation || not p.validated
    then again for_validation s
    else commit_ready tid s

-- `TxCommit`: one pass of its first wait, and what follows it.
unfoldable pub tx_commit : (tid : ℕ) → State → Result (Unit {0})
unfolding tx_restart commit_validated
tx_commit tid s =
    let t = s.transactions tid in
    if not (t.write_log.size == 0) && t.abort_task
    then tx_restart restart_lock_task tid (increment_statistics tid abort_task_write_locked s)
    else if my_turn tid s
    then commit_validated tid s
    else again for_turn s
