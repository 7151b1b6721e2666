-- ===== src/Tx/Commit/Kept.antt =====
-- What the end of a commit, and the rollback of a whole transaction, leave alone in
-- src/stm/transaction_mixinv.h.
use tlstm.Prelude.{ℕ, zero, suc, ◌+◌, ◌≡◌, refl, Bool, true, false, ◌∙◌, ==_refl}
use tlstm.Tx.State.{TxMixinv, State, tx_committed, no_restart, my_thread}
use tlstm.Tx.Control.{done}
use tlstm.Tx.Rollback.{rollback_task, rollback_tasks, set_owners, rollback_transaction}
use tlstm.Tx.Rollback.Restore.{drop_locks_lem}
use tlstm.Tx.Contention.{cm_start_tx}
use tlstm.Tx.Commit.{finish_commit, complete_commit}

-- What `complete_commit` leaves alone and what it sets.
pub record Completed (tid : ℕ) (s s' : State) : Type 0 where
  pub memory : s'.memory ≡ s.memory
  pub read_locks : s'.read_locks ≡ s.read_locks
  pub write_locks : s'.write_locks ≡ s.write_locks
  pub commit_ts : s'.commit_ts ≡ s.commit_ts
  pub turn : (my_thread tid s').last_completed_task ≡ (s.transactions tid).serial
  pub serial : (s'.transactions tid).serial ≡ (s.transactions tid).serial
  pub status : (s'.transactions tid).tx_status ≡ tx_committed

pub completed : (tid ts : ℕ) (read_only : Bool) → State → State
unfolding cm_start_tx finish_commit complete_commit
completed tid ts read_only s = elim (complete_commit tid ts read_only s) [ done _ s' ↦ s' | _ ↦ s ]

pub complete_commit_lem :
    (tid ts : ℕ) (read_only : Bool) (s : State)
    → (complete_commit tid ts read_only s ≡ done no_restart (completed tid ts read_only s))
      × Completed tid s (completed tid ts read_only s)
unfolding completed complete_commit finish_commit cm_start_tx
complete_commit_lem tid ts true s = (
  refl,
  record {
    memory = refl;
    read_locks = refl;
    write_locks = refl;
    commit_ts = refl;
    turn = simp ==_refl refl;
    serial = simp ==_refl refl;
    status = simp ==_refl refl;
  },
)
complete_commit_lem tid ts false s = (
  refl,
  record {
    memory = refl;
    read_locks = refl;
    write_locks = refl;
    commit_ts = refl;
    turn = simp ==_refl refl;
    serial = simp ==_refl refl;
    status = simp ==_refl refl;
  },
)

-- The memory, the versions and the clock are the same.
pub record Kept (s s' : State) : Type 0 where
  pub memory : s'.memory ≡ s.memory
  pub read_locks : s'.read_locks ≡ s.read_locks
  pub commit_ts : s'.commit_ts ≡ s.commit_ts

pub Kept-trans : {a b c : State} → Kept a b → Kept b c → Kept a c
Kept-trans p q = record {
  memory = q.memory ∙ p.memory;
  read_locks = q.read_locks ∙ p.read_locks;
  commit_ts = q.commit_ts ∙ p.commit_ts;
}

pub kept : (s : State) → Kept s s
kept s = record { memory = refl; read_locks = refl; commit_ts = refl }

pub set_owners-keeps :
    (f : TxMixinv → TxMixinv) (ptid i n : ℕ) (s : State) → Kept s (set_owners f ptid i n s)
unfolding set_owners
set_owners-keeps f ptid i zero s = kept s
set_owners-keeps f ptid i (suc n) s =
    Kept-trans (record { memory = refl; read_locks = refl; commit_ts = refl })
      (set_owners-keeps f ptid (i + 1) n _)

pub rollback_tasks-keeps : (ptid start n : ℕ) (s : State) → Kept s (rollback_tasks ptid start n s)
unfolding rollback_tasks rollback_task
rollback_tasks-keeps ptid start zero s = kept s
rollback_tasks-keeps ptid start (suc n) s =
    Kept-trans (rw drop_locks_lem (record { memory = refl; read_locks = refl; commit_ts = refl }))
      (rollback_tasks-keeps ptid start n _)

pub rollback_transaction-keeps :
    (tid start : ℕ) (s : State) → Kept s (rollback_transaction tid start s)
unfolding rollback_transaction
rollback_transaction-keeps tid start s =
    Kept-trans
      (Kept-trans (rollback_tasks-keeps (s.transactions tid).prog_thread_id start _ s) (
        Kept-trans (record { memory = refl; read_locks = refl; commit_ts = refl })
          (set_owners-keeps _ (s.transactions tid).prog_thread_id start _ _)))
      (Kept-trans (record { memory = refl; read_locks = refl; commit_ts = refl })
        (set_owners-keeps _ (s.transactions tid).prog_thread_id start _ _))
