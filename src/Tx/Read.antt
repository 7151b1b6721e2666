-- ===== src/Tx/Read.antt =====
-- `ReadWord` and `ReadWordInner` of src/stm/transaction_mixinv.h.
use tlstm.Prelude.{ℕ, true, none, some, List, [], ◌∷◌, ◌++◌, ◌==◌, ltb, if◌then◌else◌}
use tlstm.Common.VersionLock.{is_read_locked}
use tlstm.Tx.WordLog.{mask_entry, find_word_log_entry}
use tlstm.Tx.State.{
  EntryRef, restart_lock_task, restart_validation, State, abort_task_write_locked,
  abort_spec_reader, set_tx, set_my_thread, my_thread, entry_at, increment_statistics,
}
use tlstm.Tx.Control.{Result, done, again, for_past_task, for_version}
use tlstm.Tx.Locks.{map_address_to_write_lock, map_write_lock_to_read_lock}
use tlstm.Tx.Rollback.{tx_restart, restart_whole}
use tlstm.Tx.Validate.{chain, skip_while, should_extend, extend_tls}

-- The word that the first entry of the chain with this address gives, or else the memory.
unfoldable pub read_chain : (address : ℕ) → List EntryRef → State → ℕ
unfolding find_word_log_entry mask_entry
read_chain address [] s = s.memory address
read_chain address (r ∷ older) s =
    let older' = read_chain address older s in
    elim (find_word_log_entry address (entry_at r s).head) [
      | none ↦ older'
      | some word ↦ mask_entry s.memory word
    ]

-- The loop that reads committed memory. Its three loads are one step, so the two versions agree.
unfoldable pub read_committed : (tid address write_lock : ℕ) → State → Result ℕ
unfolding is_read_locked map_write_lock_to_read_lock should_extend
read_committed tid address write_lock s =
    let read_lock = map_write_lock_to_read_lock write_lock in
    let version = s.read_locks read_lock in
    let logged =
      set_tx tid
        (λ t. record t {
          read_log = t.read_log ++ record { read_lock = read_lock; version = version } ∷ [];
        })
        s in
    let s1 =
      if should_extend tid version s
      then set_my_thread tid (λ p. record p { requires_validation = true }) logged
      else logged in
    if is_read_locked version then again for_version s else done (s.memory address) s1

-- The lock is held by past tasks of this program thread, the latest of them first in the chain.
unfoldable pub read_past :
    (tid address write_lock : ℕ) (r : EntryRef) (older : List EntryRef) → State → Result ℕ
unfolding read_chain extend_tls tx_restart restart_whole
read_past tid address write_lock r older s =
    let t = s.transactions tid in
    let writer = (entry_at r s).serial in
    let s1 =
      set_tx tid
        (λ u. record u {
          task_read_log =
              u.task_read_log ++ record { write_lock = write_lock; serial = writer } ∷ [];
        })
        s in
    let behind = ltb t.last_writer (my_thread tid s).last_completed_writer in
    let (valid, s2) = if behind then extend_tls tid s1 else (true, s1) in
    if ltb (my_thread tid s).last_completed_task writer
    then if t.abort_task
      then tx_restart restart_lock_task tid (increment_statistics tid abort_task_write_locked s)
      else if t.abort_transaction
      then restart_whole tid s
      else again for_past_task s
    else if valid
    then done (read_chain address (r ∷ older) s2) s2
    else tx_restart restart_validation tid (increment_statistics tid abort_spec_reader s2)

-- The lock is held by this program thread; the chain begins with this task or a past one.
unfoldable pub read_locked : (tid address write_lock : ℕ) → List EntryRef → State → Result ℕ
unfolding read_committed read_chain read_past
read_locked tid address write_lock [] s = read_committed tid address write_lock s
read_locked tid address write_lock (r ∷ older) s =
    if (entry_at r s).serial == (s.transactions tid).serial
    then done (read_chain address (r ∷ older) s) s
    else read_past tid address write_lock r older s

unfoldable pub read_word : (tid address : ℕ) → State → Result ℕ
unfolding read_locked read_committed map_address_to_write_lock chain skip_while
read_word tid address s =
    let t = s.transactions tid in
    let write_lock = map_address_to_write_lock address in
    elim (s.write_locks write_lock) [
      | none ↦ read_committed tid address write_lock s
      | some r ↦
          if (entry_at r s).ptid == t.prog_thread_id
          then read_locked tid address write_lock
              (skip_while (λ e. ltb t.serial e.serial) s (chain s (some r))) s
          else read_committed tid address write_lock s
    ]
