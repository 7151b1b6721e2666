-- ===== src/Tests/TxData.antt =====
-- A program thread with one task, at several points of its transaction.
use tlstm.Prelude.{true, false, none, some, [], ◌∷◌, ◌==◌, if◌then◌else◌}
use tlstm.Tx.WordLog.{log_entry_unmasked}
use tlstm.Tx.State.{
  ReadLogEntry, WriteLogEntry, cm_phase_initial, tx_executing, ProgramThread, TxMixinv, State,
}

-- The entry for the stripe of address 16, with a word written there.
abbrev pub some_entry : WriteLogEntry
some_entry = record {
  read_lock = 2;
  write_lock = 3;
  old_version = 4;
  owner = 0;
  head = record { address = 16; value = 7; mask = log_entry_unmasked } ∷ [];
  serial = 1;
  ptid = 0;
  old_entry = none;
}

abbrev pub some_read : ReadLogEntry
some_read = record { read_lock = 6; version = 4 }

abbrev pub some_tx : TxMixinv
some_tx = record {
  abort_transaction = false;
  abort_task = false;
  aborting_transaction = false;
  last_observed_ts = 0;
  tx_status = tx_executing;
  read_log = some_read ∷ [];
  task_read_log = [];
  write_log = record { entries = λ _. some_entry; size = 1 };
  serial = 1;
  prog_thread_id = 0;
  start_serial = 1;
  commit_serial = 1;
  last_writer = 0;
  try_commit = true;
  succ_aborts = 0;
  start_count = 0;
  rolled_back = false;
  lexical_tx_id = none;
  stats = [];
  mm = [];
}

abbrev pub some_thread : ProgramThread
some_thread = record {
  valid_ts = 1;
  last_completed_task = 0;
  last_completed_writer = 0;
  progress = 0;
  owners = λ _. 0;
  locations_accessed = 0;
  cm_phase = cm_phase_initial;
  greedy_ts = 0;
  validated = true;
  requires_validation = false;
}

-- The task has written and not yet committed.
abbrev pub before_commit : State
before_commit = record {
  specdepth = 1;
  memory = λ _. 5;
  read_locks = λ _. 4;
  write_locks = λ lock. if lock == 3 then some (record { owner = 0; slot = 0 }) else none;
  prog_thread = λ _. some_thread;
  transactions = λ _. some_tx;
  registered = λ tid. tid == 0;
  commit_ts = 1;
  cm_ts = 1;
  thread_count = 1;
  minimum_observed_ts = 0;
  synchronization_in_progress = false;
}

-- Another transaction has committed what the task has read since.
abbrev pub stale : State
stale = record before_commit { commit_ts = 2; read_locks = λ lock. if lock == 6 then 8 else 4 }

-- Nothing is written yet.
abbrev pub before_write : State
before_write = record before_commit {
  write_locks = λ _. none;
  transactions = λ _. record some_tx { write_log = record { entries = λ _. some_entry; size = 0 } };
}

-- Two program threads; descriptors and threads have the same numbers, the entries in place `n` of
-- the locks are of descriptor `n`, and thread 0 has made more progress.
abbrev pub contended : State
contended = record before_commit {
  write_locks = λ lock. some (record { owner = if lock == 3 then 1 else 0; slot = 0 });
  prog_thread = λ p. record some_thread { progress = if p == 0 then 2 else 1 };
  transactions = λ t. record some_tx {
    prog_thread_id = t;
    write_log = record { entries = λ _. record some_entry { ptid = t; owner = t }; size = 1 };
  };
}

-- The task after the one that commits, which is not the last of its transaction.
abbrev pub intermediate : State
intermediate = record before_commit {
  prog_thread = λ _. record some_thread { last_completed_task = 1 };
  transactions =
      λ _. record some_tx { serial = 2; start_serial = 1; commit_serial = 3; try_commit = false };
}

-- Descriptor 1 runs the task after that of descriptor 0, which has written.
abbrev pub later_task : State
later_task = record before_commit {
  transactions = λ t. record some_tx {
    serial = if t == 1 then 2 else 1;
    write_log = record { entries = λ _. some_entry; size = if t == 1 then 0 else 1 };
  };
}
