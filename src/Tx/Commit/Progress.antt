-- ===== src/Tx/Commit/Progress.antt =====
-- When the last task of a transaction with writes commits at once.
use tlstm.Prelude.{
  ℕ, ◌<◌, ◌≡◌, refl, Bool, true, false, ap, ◌∙◌, ◌==◌, if_true, if_false, and_false, ltb, not, ◌&&◌,
  ◌||◌,
}
use tlstm.Common.Constants.{maximum_ts}
use tlstm.Tx.WordLog.{write_back}
use tlstm.Tx.State.{RestartCause, tx_committed, State, my_thread}
use tlstm.Tx.Control.{Result, done, and_then}
use tlstm.Tx.Rollback.{my_turn}
use tlstm.Tx.Validate.{validate_tls}
use tlstm.Tx.Commit.{
  commit_writes, tx_try_commit, restart_unless_committed, commit_ready, commit_validated, tx_commit,
}
use tlstm.Tx.Commit.Loop.{tx_refs}
use tlstm.Tx.Commit.WriteBack.{words}
use tlstm.Tx.Commit.Outcome.{next_ts, fails, commit_writes-no_restart}

-- Nothing keeps the last task of a transaction with writes from committing.
pub record IsReady (tid : ℕ) (s : State) : Type 0 where
  pub turn : my_turn tid s ≡ true
  pub last : (s.transactions tid).try_commit ≡ true
  pub writes : ((s.transactions tid).write_log.size == 0) ≡ false
  pub abort_task : (s.transactions tid).abort_task ≡ false
  pub abort_transaction : (s.transactions tid).abort_transaction ≡ false
  pub aborting : (s.transactions tid).aborting_transaction ≡ false
  pub requires_validation : (my_thread tid s).requires_validation ≡ false
  pub validated : (my_thread tid s).validated ≡ true
  pub current :
      (ltb (s.transactions tid).last_writer (my_thread tid s).last_completed_writer
        && not (validate_tls tid s))
      ≡ false
  pub clock : next_ts s < maximum_ts
  pub stands : fails tid s ≡ false

or_false : {a b : Bool} → a ≡ false → b ≡ false → (a || b) ≡ false
or_false p q = rw (p, q) refl

module _ (tid : ℕ) (s : State) (r : IsReady tid s) where
  pass_turn : tx_commit tid s ≡ commit_validated tid s
  unfolding tx_commit
  pass_turn = if_false _ _ (and_false _ _ r.abort_task) ∙ if_true _ _ r.turn

  pass_validation : commit_validated tid s ≡ commit_ready tid s
  unfolding commit_validated
  pass_validation =
      if_false _ _ (ap not r.last)
      ∙ if_false _ _ r.aborting
      ∙ if_false _ _ (or_false r.requires_validation (ap not r.validated))

  pass_checks :
      commit_ready tid s ≡ and_then (tx_try_commit tid false s) (restart_unless_committed tid)
  unfolding commit_ready
  pass_checks =
      if_false _ _ r.abort_transaction
      ∙ if_false _ _ r.current
      ∙ ap (λ (b : Bool). and_then (tx_try_commit tid b s) (restart_unless_committed tid)) r.writes

  pass_kind : tx_try_commit tid false s ≡ commit_writes tid false s
  unfolding tx_try_commit
  pass_kind = rw r.last refl

  -- The last task of a transaction commits in one pass of `TxCommit` when it has the turn and has
  -- written, no abort is requested of it, the validation thread has nothing left to do, what it read
  -- from past tasks is current, the clock does not overflow, and its timestamp is the next one or the
  -- validation answers zero. The words of all its write log entries then go to the memory in their
  -- order, it is the last task that has completed, and its status is committed.
  pub tx_commit_returns :
      (s' : State) × (tx_commit tid s ≡ done tt s')
      × (s'.memory ≡ write_back (words (tx_refs tid s) s) s.memory)
      × ((my_thread tid s').last_completed_task ≡ (s.transactions tid).serial)
      × ((s'.transactions tid).tx_status ≡ tx_committed)
  unfolding commit_ready
  tx_commit_returns =
      let (s', e, memory, locks, turn, status) =
        commit_writes-no_restart tid false s r.clock r.stands in
      (
        s',
        pass_turn
            ∙ pass_validation
            ∙ pass_checks
            ∙ ap (λ (x : Result RestartCause). and_then x (restart_unless_committed tid))
                (pass_kind ∙ e),
        memory,
        turn,
        status,
      )
