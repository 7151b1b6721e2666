-- ===== src/Tx/Rollback.antt =====
-- Leaving a task or a whole transaction: `Rollback`, `RollbackTransaction`,
-- `ReadyToAbortTransaction`, `TxRestart`, `TxAbort` and `InconsistentReadRestart` of
-- src/stm/transaction_mixinv.h. `WaitOnAbort` and `YieldCPU` only take time.
pub mod Restore
use tlstm.Prelude.{
  ℕ, zero, suc, ◌+◌, ◌-◌, ◌%◌, ◌<◌, Bool, true, false, ◌||◌, not, Option, none, some, List, [], ◌∷◌,
  ◌++◌, ◌==◌, ltb, if◌then◌else◌, update,
}
use tlstm.Common.Constants.{word_mod}
use tlstm.Tx.State.{
  WriteLogEntry, WriteLog, RestartCause, restart_external, restart_lock, restart_lock_task,
  restart_validation, tx_aborted, tx_restarted, ProgramThread, abort, abort_write_locked,
  abort_inconsistent_read, mm_tx_abort, TxMixinv, State, set_tx, set_my_thread, set_write_lock,
  my_thread, owner_of, increment_statistics, call_mm,
}
use tlstm.Tx.Control.{Result, done, restarted, again, and_then, for_turn, for_abort_turn, for_abort}

-- `x - 1` on a `Word`
abbrev pub word_pred : ℕ → ℕ
word_pred x = (x + word_mod - 1) % word_mod

-- What an iterator over a write log meets, in order.
unfoldable pub first_entries : (ℕ → WriteLogEntry) → ℕ → List WriteLogEntry
first_entries entries zero = []
first_entries entries (suc n) = first_entries entries n ++ entries n ∷ []

abbrev pub log_entries : WriteLog → List WriteLogEntry
log_entries log = first_entries log.entries log.size

-- `*entry.write_lock = entry.old_entry`, for each entry.
unfoldable pub drop_locks : List WriteLogEntry → State → State
drop_locks [] s = s
drop_locks (entry ∷ rest) s = drop_locks rest (set_write_lock entry.write_lock entry.old_entry s)

abbrev pub clear_write_log : TxMixinv → TxMixinv
clear_write_log t = record t { write_log = record { entries = t.write_log.entries; size = 0 } }

abbrev pub clear_logs : TxMixinv → TxMixinv
clear_logs t = record (clear_write_log t) { read_log = []; task_read_log = [] }

unfoldable pub rollback : ℕ → State → State
rollback tid s =
    let t = s.transactions tid in
    let s1 = set_tx tid (λ u. record u { rolled_back = true }) s in
    let s2 = set_tx tid clear_logs (drop_locks (log_entries t.write_log) s1) in
    if t.rolled_back then s else increment_statistics tid abort (call_mm tid mm_tx_abort s2)

-- One round of the first loop of `RollbackTransaction`.
unfoldable pub rollback_task : (ptid serial : ℕ) → State → State
rollback_task ptid serial s =
    let owner = owner_of ptid serial s in
    set_tx owner clear_write_log (drop_locks (log_entries (s.transactions owner).write_log) s)

-- The `n` tasks from `start_s` on, the last first.
unfoldable pub rollback_tasks : (ptid start_s n : ℕ) → State → State
rollback_tasks ptid start_s zero s = s
rollback_tasks ptid start_s (suc n) s =
    rollback_tasks ptid start_s n (rollback_task ptid (start_s + n) s)

-- An assignment through `owners[i % specdepth]` for the `n` tasks from `i` on.
unfoldable pub set_owners : (TxMixinv → TxMixinv) → (ptid i n : ℕ) → State → State
set_owners f ptid i zero s = s
set_owners f ptid i (suc n) s = set_owners f ptid (i + 1) n (set_tx (owner_of ptid i s) f s)

-- With `start_s` zero the first loop of the source does not end; serials are positive.
unfoldable pub rollback_transaction : ℕ → (start_s : ℕ) → State → State
rollback_transaction tid start_s s =
    let t = s.transactions tid in
    let ptid = t.prog_thread_id in
    let s1 = rollback_tasks ptid start_s (t.commit_serial + 1 - start_s) s in
    let s2 =
      set_my_thread tid
        (λ p. record p {
          last_completed_writer = word_pred start_s;
          progress = 0;
          last_completed_task = word_pred start_s;
        })
        s1 in
    let s3 = set_tx tid (λ u. record u { aborting_transaction = false }) s2 in
    let s4 =
      set_owners (λ u. record u { abort_transaction = false }) ptid start_s (t.serial + 1 - start_s)
        s3 in
    let s5 =
      set_my_thread tid
        (λ p. record p { requires_validation = false; validated = true; valid_ts = s4.commit_ts })
        s4 in
    set_owners (λ u. record u { aborting_transaction = true }) ptid start_s (t.serial - start_s) s5

abbrev pub my_turn : ℕ → State → Bool
my_turn tid s = (my_thread tid s).last_completed_task == word_pred (s.transactions tid).serial

-- The second wait of `ReadyToAbortTransaction`.
unfoldable pub await_abort : ℕ → State → Result (Unit {0})
await_abort tid s =
    if (s.transactions tid).aborting_transaction
    then done tt (set_tx tid (λ t. record t { aborting_transaction = false }) s)
    else again for_abort s

-- The first wait.
unfoldable pub await_abort_turn : ℕ → State → Result (Unit {0})
unfolding await_abort
await_abort_turn tid s =
    if my_turn tid s
    then await_abort tid
        (set_my_thread tid (λ p. record p { last_completed_task = (s.transactions tid).serial }) s)
    else again for_abort_turn s

unfoldable pub ready_to_abort_transaction : ℕ → State → Result (Unit {0})
unfolding await_abort_turn
ready_to_abort_transaction tid s =
    let t = s.transactions tid in
    await_abort_turn tid (
      set_tx (owner_of t.prog_thread_id t.commit_serial s)
        (λ u. record u { aborting_transaction = true }) s)

-- The lines that abort the whole transaction from any of its tasks.
unfoldable pub abort_whole : ℕ → State → Result (Unit {0})
unfolding rollback_transaction ready_to_abort_transaction
abort_whole tid s =
    let t = s.transactions tid in
    if t.try_commit
    then if my_turn tid s
      then done tt (rollback_transaction tid t.start_serial s)
      else again for_turn s
    else ready_to_abort_transaction tid s

abbrev pub succ_aborts_max : ℕ
succ_aborts_max = 10

abbrev pub is_lock_cause : RestartCause → Bool
is_lock_cause restart_lock = true
is_lock_cause restart_lock_task = true
is_lock_cause _ = false

unfoldable pub tx_restart_no_jmp : RestartCause → ℕ → State → State
unfolding rollback
tx_restart_no_jmp cause tid s =
    let s1 = set_tx tid (λ t. record t { tx_status = tx_restarted }) (rollback tid s) in
    let aborts = (s1.transactions tid).succ_aborts + 1 in
    if is_lock_cause cause
    then set_tx tid
        (λ t. record t {
          succ_aborts = if ltb succ_aborts_max aborts then succ_aborts_max else aborts;
        })
        s1
    else s1

-- `TxRestart` ends in a jump to the start of the task.
unfoldable pub tx_restart {ℓ} : {A : Type ℓ} → RestartCause → ℕ → State → Result A
unfolding tx_restart_no_jmp
tx_restart cause tid s = restarted (tx_restart_no_jmp cause tid s)

-- `TxAbort`, up to its jump.
unfoldable pub tx_abort : ℕ → State → State
unfolding rollback
tx_abort tid s = set_tx tid (λ t. record t { tx_status = tx_aborted }) (rollback tid s)

-- The abort of the whole transaction, its statistic and the restart of this task.
unfoldable pub restart_whole {ℓ} : {A : Type ℓ} → ℕ → State → Result A
unfolding abort_whole tx_restart
restart_whole tid s =
    and_then (abort_whole tid s)
      λ _ s1. tx_restart restart_lock tid (increment_statistics tid abort_write_locked s1)

unfoldable pub inconsistent_read_restart : ℕ → State → Result (Unit {0})
unfolding abort_whole tx_restart_no_jmp
inconsistent_read_restart tid s =
    if not (my_thread tid s).validated || (s.transactions tid).abort_transaction
    then and_then (abort_whole tid s) (λ _ s1.
      done tt
        (tx_restart_no_jmp restart_lock tid (increment_statistics tid abort_inconsistent_read s1)))
    else done tt (
        tx_restart_no_jmp restart_validation tid
          (increment_statistics tid abort_inconsistent_read s))
