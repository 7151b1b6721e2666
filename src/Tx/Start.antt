-- ===== src/Tx/Start.antt =====
-- Initialisation, `TxStart`, `Register` and the observed timestamps (`MM_EPOCH`) of
-- src/stm/transaction_mixinv.h.
pub mod Initial
use tlstm.Prelude.{
  ℕ, zero, suc, ◌+◌, ◌-◌, ◌*◌, ◌%◌, ◌^◌, Bool, true, false, Option, none, some, List, [], ◌==◌, ltb,
  leb, if◌then◌else◌, update,
}
use tlstm.Common.Constants.{minimum_ts, word_mod, max_threads}
use tlstm.Tx.Locks.{full_version_lock_table_size}
use tlstm.Tx.State.{
  ProgramThread, TxMixinv, State, cm_phase_initial, tx_idle, tx_executing, mm_tx_start, set_tx,
  set_thread, set_my_thread, my_thread, call_mm,
}
use tlstm.Tx.Control.{Result, done, again, for_synchronization}
use tlstm.Tx.Contention.{cm_start_tx}
use tlstm.Tx.Commit.{set_places, initialize_read_locks}

unfoldable pub initialize_write_locks : State → State
initialize_write_locks s = record s {
  write_locks = set_places full_version_lock_table_size 1 none s.write_locks;
}

-- The `n` program threads from `i` on; none is an access outside `prog_thread`. Serials start behind
-- the `specdepth` tasks that count as completed.
unfoldable pub initialize_program_threads : (i n : ℕ) → State → Option State
initialize_program_threads i zero s = some s
initialize_program_threads i (suc n) s =
    let rest = initialize_program_threads (i + 1) n (
      set_thread i
        (λ p. record p {
          last_completed_task = (s.specdepth + word_mod - 1) % word_mod;
          last_completed_writer = (s.specdepth + word_mod - 1) % word_mod;
          progress = 0;
          validated = true;
          requires_validation = false;
        })
        s) in
    if ltb i max_threads then rest else none

unfoldable pub global_init : (nb_tasks nb_threads : ℕ) → State → Option State
unfolding initialize_read_locks initialize_write_locks initialize_program_threads
global_init nb_tasks nb_threads s =
    let s1 = initialize_write_locks (initialize_read_locks (record s { specdepth = nb_tasks })) in
    elim (initialize_program_threads 0 (nb_tasks * nb_threads) s1) [
      | none ↦ none
      | some s2 ↦
          some (record s2 { minimum_observed_ts = minimum_ts; synchronization_in_progress = false })
    ]

-- `Register`: no other thread moves the count in between.
unfoldable pub register : ℕ → State → State
register tid s = record s {
  registered = update s.registered tid true;
  thread_count = if ltb s.thread_count (tid + 1) then tid + 1 else s.thread_count;
}

unfoldable pub thread_init : (tid ptid taskid : ℕ) → State → State
unfolding register cm_start_tx
thread_init tid ptid taskid s =
    let s1 =
      set_tx tid
        (λ t. record t {
          abort_task = false;
          abort_transaction = false;
          prog_thread_id = ptid;
          last_observed_ts = minimum_ts;
          start_count = 0;
        })
        s in
    let s2 =
      register tid (set_thread ptid (λ p. record p { owners = update p.owners taskid tid }) s1) in
    cm_start_tx tid (set_tx tid (λ t. record t { tx_status = tx_idle; succ_aborts = 0 }) s2)

abbrev pub update_local_last_observed_ts_frequency : ℕ
update_local_last_observed_ts_frequency = 20

unfoldable pub update_last_observed_ts : (tid ts : ℕ) → State → State
update_last_observed_ts tid ts = set_tx tid (λ t.
    let count = (t.start_count + 1) % 2 ^ 32 in
    if leb update_local_last_observed_ts_frequency count
    then record t { last_observed_ts = (ts + word_mod - 1) % word_mod; start_count = 0 }
    else record t { start_count = count })

-- The loop of `UpdateMinimumObservedTs` over the `n` places of `transactions` from `i` on. The timestamps
-- are cut to 32 bits; places with no descriptor are passed over.
unfoldable pub minimum_from : (i n minimum : ℕ) → State → ℕ
minimum_from i zero minimum s = minimum
minimum_from i (suc n) minimum s =
    let ts = (s.transactions i).last_observed_ts % 2 ^ 32 in
    minimum_from (i + 1) n
      (if s.registered i then if ltb ts minimum then ts else minimum else minimum) s

-- `UpdateMinimumObservedTs`; `busy` says that another thread has the lock.
unfoldable pub update_minimum_observed_ts : (busy : Bool) → State → ℕ × State
unfolding minimum_from
update_minimum_observed_ts busy s =
    let minimum =
      minimum_from 1 (s.thread_count - 1) ((s.transactions 0).last_observed_ts % 2 ^ 32) s in
    if busy
    then (s.minimum_observed_ts, s)
    else if s.registered 0
    then (minimum, record s { minimum_observed_ts = minimum })
    else (minimum_ts, s)

-- From the end of `Synchronize`.
unfoldable pub started : (tid : ℕ) → (lex_tx_id : Option ℕ) → State → State
unfolding update_last_observed_ts
started tid lex_tx_id s =
    set_tx tid
      (λ t. record t { abort_task = false; lexical_tx_id = lex_tx_id; rolled_back = false })
      (update_last_observed_ts tid (my_thread tid s).valid_ts (call_mm tid mm_tx_start s))

-- The wait of `Synchronize`, and the rest of `TxStart`.
unfoldable pub await_synchronization :
    (tid : ℕ) → (lex_tx_id : Option ℕ) → State → Result (Unit {0})
unfolding started
await_synchronization tid lex_tx_id s =
    if s.synchronization_in_progress
    then again for_synchronization s
    else done tt (started tid lex_tx_id (set_tx tid (λ t. record t { tx_status = tx_executing }) s))

unfoldable pub tx_start :
    (tid : ℕ) → (lex_tx_id : Option ℕ) → (serial start_s commit_s : ℕ) → State → Result (Unit {0})
unfolding started
tx_start tid lex_tx_id serial start_s commit_s s =
    let s1 =
      set_tx tid
        (λ t. record t {
          serial = serial;
          start_serial = start_s;
          commit_serial = commit_s;
          try_commit = serial == commit_s;
          last_writer = (my_thread tid s).last_completed_writer;
          tx_status = tx_executing;
        })
        s in
    if s1.synchronization_in_progress
    then again for_synchronization (set_tx tid (λ t. record t { tx_status = tx_idle }) s1)
    else done tt (started tid lex_tx_id s1)
