-- ===== src/Tx/Write.antt =====
-- `WriteWord`, `LockMemoryStripe` and `LockMemoryBlock` of src/stm/transaction_mixinv.h.
pub mod Keeps
pub mod LogView
pub mod Holds
pub mod ReadBack
pub mod Returns
pub mod Undo
pub mod Chained
pub mod Undoable
use tlstm.Prelude.{
  ℕ, zero, suc, ◌+◌, ◌-◌, Bool, true, false, ◌||◌, ◌&&◌, not, Option, none, some, List, [], ◌==◌,
  ltb, if◌then◌else◌, update,
}
use tlstm.Tx.WordLog.{log_entry_unmasked, insert_word_log_entry}
use tlstm.Tx.State.{
  EntryRef, WriteLogEntry, restart_lock, restart_lock_task, restart_validation, ProgramThread,
  TxMixinv, State, abort_write_locked, abort_task_write_locked, abort_spec_reader, mm_tx_free,
  set_tx, set_my_thread, set_write_lock, my_thread, owner_of, entry_at, increment_statistics,
  call_mm,
}
use tlstm.Tx.Control.{Result, done, again, and_then, for_lock}
use tlstm.Tx.Locks.{map_address_to_write_lock, map_write_lock_to_read_lock}
use tlstm.Tx.Rollback.{abort_whole, tx_restart, restart_whole}
use tlstm.Tx.Validate.{should_extend, extend_tls}
use tlstm.Tx.Contention.{should_abort_write, cm_on_access}

-- An assignment to the write log entry in place `slot` of the log of `tid`.
abbrev pub set_entry : (tid slot : ℕ) → (WriteLogEntry → WriteLogEntry) → State → State
set_entry tid slot f = set_tx tid (λ t. record t {
  write_log = record {
    entries = update t.write_log.entries slot (f (t.write_log.entries slot));
    size = t.write_log.size;
  };
})

-- The next entry of the write log, filled in for a lock that holds `old`.
unfoldable pub prepare_entry :
    (tid write_lock address value mask : ℕ) → Option EntryRef → State → State
unfolding insert_word_log_entry
prepare_entry tid write_lock address value mask old = set_tx tid (λ t. record t {
  write_log = record {
    entries =
        update t.write_log.entries t.write_log.size (record (t.write_log.entries t.write_log.size) {
          write_lock = write_lock;
          owner = tid;
          ptid = t.prog_thread_id;
          serial = t.serial;
          old_entry = old;
          head = insert_word_log_entry address value mask [];
        });
    size = t.write_log.size + 1;
  };
})

-- A version that is later than the transaction's timestamp wants a validation.
unfoldable pub request_validation : (tid version : ℕ) → State → State
unfolding should_extend
request_validation tid version s =
    if should_extend tid version s
    then set_my_thread tid (λ p. record p { requires_validation = true }) s
    else s

-- A past task has written since this one has last looked.
unfoldable pub extend_if_behind : ℕ → State → Bool × State
unfolding extend_tls
extend_if_behind tid s =
    if ltb (s.transactions tid).last_writer (my_thread tid s).last_completed_writer
    then extend_tls tid s
    else (true, s)

-- From the locked stripe to the end of `LockMemoryStripe`; `slot` is the place of the new entry.
unfoldable pub stripe_locked : (tid slot write_lock : ℕ) → State → Result (Unit {0})
unfolding map_write_lock_to_read_lock request_validation extend_if_behind tx_restart cm_on_access
stripe_locked tid slot write_lock s =
    let read_lock = map_write_lock_to_read_lock write_lock in
    let version = s.read_locks read_lock in
    let (valid, s1) = extend_if_behind tid (request_validation tid version s) in
    if valid
    then done tt (
        cm_on_access tid
          (set_entry tid slot (λ e. record e { read_lock = read_lock; old_version = version }) s1))
    else tx_restart restart_validation tid (increment_statistics tid abort_spec_reader s1)

unfoldable pub take_lock :
    (tid write_lock address value mask : ℕ) → Option EntryRef → State → Result (Unit {0})
unfolding prepare_entry stripe_locked
take_lock tid write_lock address value mask old s =
    let slot = (s.transactions tid).write_log.size in
    stripe_locked tid slot write_lock (
      set_write_lock write_lock (some (record { owner = tid; slot = slot }))
        (prepare_entry tid write_lock address value mask old s))

-- One pass of the loop. Its loads and its compare-and-swap are one step, so the swap does not fail.
unfoldable pub lock_pass : (tid write_lock address value mask : ℕ) → State → Result (Unit {0})
unfolding take_lock should_abort_write abort_whole tx_restart restart_whole
lock_pass tid write_lock address value mask s =
    let t = s.transactions tid in
    elim (s.write_locks write_lock) [
      | none ↦ take_lock tid write_lock address value mask none s
      | some r ↦
          let e = entry_at r s in
          if e.ptid == t.prog_thread_id
          then if ltb e.serial t.serial
            then if ltb (my_thread tid s).last_completed_task e.serial
              then tx_restart restart_lock_task tid
                  (increment_statistics tid abort_task_write_locked s)
              else if t.abort_transaction
              then restart_whole tid s
              else take_lock tid write_lock address value mask (some r) s
            else if t.abort_transaction
            then restart_whole tid s
            else again for_lock (
                set_tx (owner_of t.prog_thread_id e.serial s) (λ u. record u { abort_task = true })
                  s)
          else let (give_way, s1) = should_abort_write tid write_lock s in
            if give_way
            then if (s1.transactions tid).abort_transaction
              then restart_whole tid s1
              else tx_restart restart_lock tid (increment_statistics tid abort_write_locked s1)
            else again for_lock s1
    ]

unfoldable pub lock_memory_stripe :
    (tid write_lock address value mask : ℕ) → State → Result (Unit {0})
unfolding lock_pass insert_word_log_entry
lock_memory_stripe tid write_lock address value mask s =
    let t = s.transactions tid in
    if t.abort_task
    then tx_restart restart_lock_task tid (increment_statistics tid abort_task_write_locked s)
    else if t.abort_transaction
    then restart_whole tid s
    else elim (s.write_locks write_lock) [
      | none ↦ lock_pass tid write_lock address value mask s
      | some r ↦
          let e = entry_at r s in
          if e.ptid == t.prog_thread_id && e.serial == t.serial
          then done tt (
              set_entry r.owner r.slot
                (λ entry. record entry {
                  head = insert_word_log_entry address value mask entry.head;
                })
                s)
          else lock_pass tid write_lock address value mask s
    ]

-- `WriteWord`, `WriteWordInner`
unfoldable pub write_word : (tid address value mask : ℕ) → State → Result (Unit {0})
unfolding lock_memory_stripe map_address_to_write_lock
write_word tid address value mask s =
    lock_memory_stripe tid (map_address_to_write_lock address) address value mask s

-- The loop of `LockMemoryBlock` over the `n` byte addresses from `address` on; `old` is the lock
-- that was taken last.
unfoldable pub lock_block_from : (tid address n : ℕ) → (old : Option ℕ) → State → Result (Unit {0})
unfolding lock_memory_stripe map_address_to_write_lock
lock_block_from tid address zero old s = done tt s
lock_block_from tid address (suc n) old s =
    let curr = map_address_to_write_lock address in
    let same : Bool = elim old [ none ↦ false | some lock ↦ curr == lock ] in
    elim same [
      | true ↦ lock_block_from tid (address + 1) n old s
      | false ↦
          and_then (lock_memory_stripe tid curr address 0 log_entry_unmasked s)
            (λ _ s1. lock_block_from tid (address + 1) n (some curr) s1)
    ]

-- `TxFree` locks the block, so that others conflict with its end, and defers the rest.
unfoldable pub tx_free : (tid ptr size : ℕ) → State → Result (Unit {0})
unfolding lock_block_from
tx_free tid ptr size s =
    and_then (lock_block_from tid ptr size none s)
      (λ _ s1. done tt (call_mm tid (mm_tx_free ptr) s1))
