-- ===== src/Tx/Contention.antt =====
-- The contention manager of src/stm/transaction_mixinv.h, two-phase greedy (without `SIMPLE_GREEDY`).
pub mod Greedy
use tlstm.Prelude.{
  ℕ, zero, suc, ◌+◌, ◌-◌, ◌%◌, ◌^◌, Bool, true, false, ◌||◌, ◌&&◌, not, Option, none, some, ◌==◌,
  ltb, if◌then◌else◌, update,
}
use tlstm.Common.Constants.{minimum_ts, word_mod}
use tlstm.Common.Timestamp.{get_next_ts}
use tlstm.Tx.State.{
  CmPhase, cm_phase_initial, cm_phase_greedy, ProgramThread, TxMixinv, State, set_tx, set_my_thread,
  my_thread, owner_of, entry_at,
}
use tlstm.Tx.Rollback.{set_owners}

-- `other_ts` is an `unsigned`: the other's timestamp is cut to 32 bits.
unfoldable pub cm_stronger_than : ℕ → (ptid : ℕ) → State → Bool
cm_stronger_than tid ptid s =
    let mine = (my_thread tid s).greedy_ts in
    let other_ts = (s.prog_thread ptid).greedy_ts % 2 ^ 32 in
    if mine == minimum_ts then false else other_ts == minimum_ts || ltb mine other_ts

-- `abort_transaction` for every task of the transaction of the descriptor `tid`.
unfoldable pub abort_tasks : (ptid tid : ℕ) → State → State
unfolding set_owners
abort_tasks ptid tid s =
    let t = s.transactions tid in
    set_owners (λ u. record u { abort_transaction = true }) ptid t.start_serial
      (t.commit_serial + 1 - t.start_serial) s

-- Who gives way at a write lock: the answer is true if this transaction does.
unfoldable pub should_abort_write : ℕ → (write_lock : ℕ) → State → Bool × State
unfolding cm_stronger_than abort_tasks
should_abort_write tid write_lock s =
    let t = s.transactions tid in
    if t.abort_transaction then (true, s) else elim (s.write_locks write_lock) [
      | none ↦ (false, s)
      | some r ↦
          let e = entry_at r s in
          let theirs = (s.prog_thread e.ptid).progress in
          let mine = (my_thread tid s).progress in
          if ltb mine theirs
          then (true, abort_tasks t.prog_thread_id tid s)
          else if ltb theirs mine
          then (false, abort_tasks e.ptid e.owner s)
          else if cm_stronger_than tid e.ptid s
          then (false, abort_tasks e.ptid e.owner s)
          else (true, abort_tasks t.prog_thread_id tid s)
    ]

unfoldable pub cm_start_tx : ℕ → State → State
cm_start_tx tid = set_my_thread tid (λ p. record p {
  cm_phase = cm_phase_initial;
  greedy_ts = minimum_ts;
  locations_accessed = 0;
  progress = 0;
})

abbrev pub cm_access_threshold : ℕ
cm_access_threshold = 10

abbrev pub is_initial : CmPhase → Bool
is_initial cm_phase_initial = true
is_initial cm_phase_greedy = false

unfoldable pub cm_on_access : ℕ → State → State
unfolding get_next_ts
cm_on_access tid s =
    let accessed = ((my_thread tid s).locations_accessed + 1) % 2 ^ 32 in
    let counted = set_my_thread tid (λ p. record p { locations_accessed = accessed }) s in
    let (ts, next) = get_next_ts s.cm_ts in
    let greedy =
      set_my_thread tid
        (λ p. record p { cm_phase = cm_phase_greedy; greedy_ts = (ts + 1) % word_mod }) counted in
    if is_initial (my_thread tid s).cm_phase
    then if ltb cm_access_threshold accessed then record greedy { cm_ts = next } else counted
    else s
