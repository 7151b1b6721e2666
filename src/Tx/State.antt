-- ===== src/Tx/State.antt =====
-- The data of src/stm/transaction_mixinv.h: log entries, `ProgramThread`, the descriptor `TxMixinv` and
-- the variables that all descriptors share.
use tlstm.Prelude.{ℕ, ◌%◌, Bool, Option, List, ◌∷◌, update}
use tlstm.Tx.WordLog.{WriteWordLogEntry, Memory}

-- The source's `address` and `last_writer` are never assigned.
pub record ReadLogEntry : Type 0 where
  pub read_lock : ℕ
  pub version : ℕ

-- A pointer to a write log entry: the place `slot` of the write log of the descriptor `owner`.
pub record EntryRef : Type 0 where
  pub owner : ℕ
  pub slot : ℕ

pub record TaskReadLogEntry : Type 0 where
  pub write_lock : ℕ
  pub serial : ℕ

pub record WriteLogEntry : Type 0 where
  pub read_lock : ℕ
  pub write_lock : ℕ
  pub old_version : ℕ
  pub owner : ℕ
  pub head : List WriteWordLogEntry
  pub serial : ℕ
  pub ptid : ℕ
  pub old_entry : Option EntryRef

-- `Log<WriteLogEntry>`: the entries in use are those below `size`; `clear` leaves them in place.
pub record WriteLog : Type 0 where
  pub entries : ℕ → WriteLogEntry
  pub size : ℕ

pub data CmPhase : Type 0 where
  cm_phase_initial cm_phase_greedy : CmPhase

pub data RestartCause : Type 0 where
  no_restart restart_external restart_lock restart_lock_task : RestartCause
  restart_validation restart_clock_overflow restart_transaction restart_waiting : RestartCause

pub data TxStatus : Type 0 where
  tx_idle tx_executing tx_aborted tx_restarted tx_committed : TxStatus

-- `is_alive` and `semaphore` are not used.
pub record ProgramThread : Type 0 where
  pub valid_ts : ℕ
  pub last_completed_task : ℕ
  pub last_completed_writer : ℕ
  pub progress : ℕ
  pub owners : ℕ → ℕ  -- descriptors by serial, modulo `specdepth`
  pub locations_accessed : ℕ
  pub cm_phase : CmPhase
  pub greedy_ts : ℕ
  pub validated : Bool
  pub requires_validation : Bool

-- The statistics that this file counts.
pub data Stat : Type 0 where
  commit commit_read_only abort abort_inconsistent_read abort_spec_reader : Stat
  abort_write_locked abort_task_write_locked abort_commit_validate clock_overflows : Stat
  extend_success extend_failure tls_extend_success tls_extend_failure : Stat

-- The calls of the memory manager, which has a state of its own.
pub data MmCall : Type 0 where
  mm_tx_start mm_tx_abort : MmCall
  mm_tx_commit : (ts : ℕ) → MmCall
  mm_tx_malloc : (size : ℕ) → MmCall
  mm_tx_free : (ptr : ℕ) → MmCall

pub record TxMixinv : Type 0 where
  pub abort_transaction : Bool
  pub abort_task : Bool
  pub aborting_transaction : Bool
  pub last_observed_ts : ℕ
  pub tx_status : TxStatus
  pub read_log : List ReadLogEntry
  pub task_read_log : List TaskReadLogEntry
  pub write_log : WriteLog
  pub serial : ℕ
  pub prog_thread_id : ℕ
  pub start_serial : ℕ
  pub commit_serial : ℕ
  pub last_writer : ℕ
  pub try_commit : Bool
  pub succ_aborts : ℕ
  pub start_count : ℕ
  pub rolled_back : Bool
  pub lexical_tx_id : Option ℕ
  pub stats : List Stat  -- newest first
  pub mm : List MmCall  -- newest first

-- The descriptors are numbered by `tid`, the order of `transactions`. The cells of
-- `version_lock_table` at even places are versions, those at odd places write locks: a null
-- pointer, or a pointer to an entry.
pub record State : Type 0 where
  pub specdepth : ℕ
  pub memory : Memory
  pub read_locks : ℕ → ℕ
  pub write_locks : ℕ → Option EntryRef
  pub prog_thread : ℕ → ProgramThread
  pub transactions : ℕ → TxMixinv
  pub registered : ℕ → Bool
  pub commit_ts : ℕ
  pub cm_ts : ℕ
  pub thread_count : ℕ
  pub minimum_observed_ts : ℕ
  pub synchronization_in_progress : Bool

-- Assignments through a descriptor, and through `prog_thread[ptid]`.
abbrev pub set_tx : ℕ → (TxMixinv → TxMixinv) → State → State
set_tx tid f s = record s { transactions = update s.transactions tid (f (s.transactions tid)) }

abbrev pub set_thread : ℕ → (ProgramThread → ProgramThread) → State → State
set_thread ptid f s = record s { prog_thread = update s.prog_thread ptid (f (s.prog_thread ptid)) }

abbrev pub set_read_lock : ℕ → ℕ → State → State
set_read_lock lock v s = record s { read_locks = update s.read_locks lock v }

abbrev pub set_write_lock : ℕ → Option EntryRef → State → State
set_write_lock lock v s = record s { write_locks = update s.write_locks lock v }

-- `prog_thread[prog_thread_id]` for the descriptor `tid`.
abbrev pub my_thread : ℕ → State → ProgramThread
my_thread tid s = s.prog_thread (s.transactions tid).prog_thread_id

abbrev pub set_my_thread : ℕ → (ProgramThread → ProgramThread) → State → State
set_my_thread tid f s = set_thread (s.transactions tid).prog_thread_id f s

-- `prog_thread[ptid].owners[serial % specdepth]`
abbrev pub owner_of : (ptid serial : ℕ) → State → ℕ
owner_of ptid serial s = (s.prog_thread ptid).owners (serial % s.specdepth)

abbrev pub entry_at : EntryRef → State → WriteLogEntry
entry_at r s = (s.transactions r.owner).write_log.entries r.slot

abbrev pub increment_statistics : ℕ → Stat → State → State
increment_statistics tid stat = set_tx tid (λ t. record t { stats = stat ∷ t.stats })

abbrev pub call_mm : ℕ → MmCall → State → State
call_mm tid call = set_tx tid (λ t. record t { mm = call ∷ t.mm })
