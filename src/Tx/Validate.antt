-- ===== src/Tx/Validate.antt =====
-- Validation of the read logs, and the extension of the timestamp to which they are valid, of
-- src/stm/transaction_mixinv.h.
pub mod Sound
pub mod Chain
pub mod Turn
use tlstm.Prelude.{
  ℕ, zero, suc, ◌+◌, ◌-◌, ◌%◌, ◌^◌, ◌≤◌, ◌<◌, Bool, true, false, ◌||◌, ◌&&◌, not, Option, none,
  some, List, [], ◌∷◌, ◌==◌, ltb, leb, if◌then◌else◌, update,
}
use tlstm.Common.VersionLock.{get_value, is_read_locked}
use tlstm.Tx.State.{
  ReadLogEntry, TaskReadLogEntry, EntryRef, WriteLogEntry, ProgramThread, TxMixinv, State, set_tx,
  set_thread, my_thread, owner_of, entry_at, increment_statistics, extend_success, extend_failure,
  tls_extend_success, tls_extend_failure,
}
use tlstm.Tx.Locks.{map_read_lock_to_write_lock}

-- The pointers that a walk along `old_entry` meets. The loop of the code has no bound; here it has the
-- first entry's serial and one as its fuel, which is enough where the serials fall along the chain.
unfoldable pub chain_upto : ℕ → State → Option EntryRef → List EntryRef
chain_upto zero s r = []
chain_upto (suc n) s none = []
chain_upto (suc n) s (some r) = r ∷ chain_upto n s (entry_at r s).old_entry

unfoldable pub chain : State → Option EntryRef → List EntryRef
unfolding chain_upto
chain s none = []
chain s (some r) = chain_upto (suc (entry_at r s).serial) s (some r)

-- `while(log_entry != NULL && drop(log_entry)) log_entry = log_entry->old_entry;`
unfoldable pub skip_while : (WriteLogEntry → Bool) → State → List EntryRef → List EntryRef
skip_while drop s [] = []
skip_while drop s (r ∷ rest) =
    let rest' = skip_while drop s rest in if drop (entry_at r s) then rest' else r ∷ rest

unfoldable pub should_extend : ℕ → (version : ℕ) → State → Bool
should_extend tid version s = ltb (my_thread tid s).valid_ts (get_value version)

-- The versions of a read log are current.
unfoldable pub validate_log : List ReadLogEntry → State → Bool
validate_log [] s = true
validate_log (entry ∷ rest) s = s.read_locks entry.read_lock == entry.version && validate_log rest s

unfoldable pub validate : ℕ → State → Bool
unfolding validate_log
validate tid s = validate_log (s.transactions tid).read_log s

-- The `n` tasks from place `i` of `owners` on.
unfoldable pub validate_owners : (ptid i n : ℕ) → State → Bool
unfolding validate_log
validate_owners ptid i zero s = true
validate_owners ptid i (suc n) s =
    validate_log (s.transactions ((s.prog_thread ptid).owners i)).read_log s
    && validate_owners ptid (i + 1) n s

unfoldable pub validate_tx : (ptid : ℕ) → State → Bool
unfolding validate_owners
validate_tx ptid s = validate_owners ptid 0 s.specdepth s

-- The first loop of `ValidateTLS`: the values that were read from past tasks.
unfoldable pub validate_task_reads : (serial : ℕ) → List TaskReadLogEntry → State → Bool
unfolding chain skip_while
validate_task_reads serial [] s = true
validate_task_reads serial (entry ∷ rest) s =
    let rest' = validate_task_reads serial rest s in
    elim (skip_while (λ e. leb serial e.serial) s (chain s (s.write_locks entry.write_lock))) [
      | [] ↦ false
      | r ∷ _ ↦ (entry.serial == (entry_at r s).serial) && rest'
    ]

-- The second loop: no past task has written what was read from the memory.
unfoldable pub validate_memory_reads : (ptid serial : ℕ) → List ReadLogEntry → State → Bool
unfolding chain skip_while
validate_memory_reads ptid serial [] s = true
validate_memory_reads ptid serial (entry ∷ rest) s =
    let rest' = validate_memory_reads ptid serial rest s in
    elim (chain s (s.write_locks (map_read_lock_to_write_lock entry.read_lock))) [
      | [] ↦ rest'
      | r ∷ older ↦
          if (entry_at r s).ptid == ptid
          then elim (skip_while (λ e. leb serial e.serial) s (r ∷ older)) [ [] ↦ rest' | _ ↦ false ]
          else rest'
    ]

unfoldable pub validate_tls : ℕ → State → Bool
unfolding validate_task_reads validate_memory_reads
validate_tls tid s =
    let t = s.transactions tid in
    validate_task_reads t.serial t.task_read_log s
    && validate_memory_reads t.prog_thread_id t.serial t.read_log s

-- `ValidateCommit`: whether an entry still stands at the commit. A lock that is set is a conflict
-- unless the transaction itself has set it.
unfoldable pub commit_entry : (ptid : ℕ) → ReadLogEntry → State → Bool
commit_entry ptid entry s =
    let version = s.read_locks entry.read_lock in
    let mine : Bool = elim (s.write_locks (map_read_lock_to_write_lock entry.read_lock)) [
      | none ↦ true
      | some r ↦ (entry_at r s).ptid == ptid
    ] in
    version == entry.version || is_read_locked version && mine

unfoldable pub commit_log : (ptid : ℕ) → List ReadLogEntry → State → Bool
unfolding commit_entry
commit_log ptid [] s = true
commit_log ptid (entry ∷ rest) s = commit_entry ptid entry s && commit_log ptid rest s

-- The `n` tasks from serial `i` on: zero, or the serial of the first whose log does not stand.
unfoldable pub validate_commit_from : (ptid i n : ℕ) → State → ℕ
unfolding commit_log
validate_commit_from ptid i zero s = 0
validate_commit_from ptid i (suc n) s =
    let rest = validate_commit_from ptid (i + 1) n s in
    if commit_log ptid (s.transactions (owner_of ptid i s)).read_log s then rest else i

unfoldable pub validate_commit : ℕ → State → ℕ
unfolding validate_commit_from
validate_commit tid s =
    let t = s.transactions tid in
    validate_commit_from t.prog_thread_id t.start_serial (t.serial + 1 - t.start_serial) s

-- `ts` is an `unsigned`: the timestamp is cut to 32 bits.
unfoldable pub extend : ℕ → State → Bool × State
unfolding validate
extend tid s =
    let ts = s.commit_ts % 2 ^ 32 in
    if validate tid s
    then (
      true,
      increment_statistics tid extend_success
          (set_thread (s.transactions tid).prog_thread_id (λ p. record p { valid_ts = ts }) s),
    )
    else (false, increment_statistics tid extend_failure s)

unfoldable pub extend_tx : (ptid : ℕ) → State → Bool × State
unfolding validate_tx
extend_tx ptid s =
    let ts = s.commit_ts % 2 ^ 32 in
    let owner = (s.prog_thread ptid).owners 0 in
    if validate_tx ptid s
    then (
      true,
      increment_statistics owner extend_success
          (set_thread ptid (λ p. record p { valid_ts = ts }) s),
    )
    else (false, increment_statistics owner extend_failure s)

unfoldable pub extend_tls : ℕ → State → Bool × State
unfolding validate_tls
extend_tls tid s =
    let lw = (my_thread tid s).last_completed_writer in
    if validate_tls tid s
    then (
      true,
      increment_statistics tid tls_extend_success
          (set_tx tid (λ t. record t { last_writer = lw }) s),
    )
    else (false, increment_statistics tid tls_extend_failure s)

-- `owners[i]->abort_transaction = true` for the `n` places from `i` on.
unfoldable pub abort_owners : (ptid i n : ℕ) → State → State
abort_owners ptid i zero s = s
abort_owners ptid i (suc n) s =
    abort_owners ptid (i + 1) n
      (set_tx ((s.prog_thread ptid).owners i) (λ t. record t { abort_transaction = true }) s)

-- The validation thread of a program thread begins.
unfoldable pub validation_start : (ptid : ℕ) → State → State
validation_start ptid s = set_thread ptid (λ p. record p { valid_ts = s.commit_ts }) s

-- One turn of the validation thread of a program thread, `validate_transaction`.
unfoldable pub validation_turn : (ptid : ℕ) → State → State
unfolding extend_tx abort_owners
validation_turn ptid s =
    let s1 = set_thread ptid (λ p. record p { validated = false; requires_validation = false }) s in
    let (valid, s2) = extend_tx ptid s1 in
    let s3 = if valid then s2 else abort_owners ptid 0 s.specdepth s2 in
    if (s.prog_thread ptid).requires_validation
    then set_thread ptid (λ p. record p { validated = true }) s3
    else s
