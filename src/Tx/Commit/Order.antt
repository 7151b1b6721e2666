-- ===== src/Tx/Commit/Order.antt =====
-- The tasks of a program thread commit in the order of their serials.
use tlstm.Prelude.{
  ℕ, ◌+◌, ◌≡◌, ◌≤◌, ◌⊎◌, if_cases, arith, refl, Bool, true, false, sym, ap, subst, ◌==◌, ==_refl,
  ==_iff, Bool-cases, inl, inr, if◌then◌else◌, ltb, leb, not, ◌&&◌, ◌||◌,
}
use tlstm.Common.Constants.{maximum_ts}
use tlstm.Tx.State.{
  RestartCause, no_restart, tx_aborted, tx_idle, TxMixinv, State, set_tx, my_thread,
  commit_read_only, increment_statistics,
}
use tlstm.Tx.Control.{Spin, for_commit, Result, done, restarted, again, and_then}
use tlstm.Tx.Rollback.{
  ready_to_abort_transaction, await_abort, await_abort_turn, word_pred, my_turn, tx_restart,
}
use tlstm.Tx.Validate.{validate_tls, validate_commit}
use tlstm.Tx.Commit.{
  all_idle, complete_task, release_read_locks, finish_commit, complete_commit, write_commit,
  commit_at, commit_writes, clock_overflow, await_idle, await_end, await_commit, tx_try_commit,
  restart_unless_committed, commit_ready, commit_validated, tx_commit,
}
use tlstm.Tx.Commit.Kept.{complete_commit_lem}
use tlstm.Tx.Commit.Outcome.{write_commit_same, commit_writes_lem, next_ts, validating}

-- The task with this serial has completed.
abbrev pub Turned : (tid serial : ℕ) → State → Type 0
Turned tid serial s = (my_thread tid s).last_completed_task ≡ serial

-- What holds if a commit is not to be restarted: when it returns, and when it waits for the last task.
abbrev Commits : (State → Type 0) → Result RestartCause → Type 0
Commits P (done no_restart s) = P s
Commits P (done _ s) = Unit
Commits P (restarted s) = Unit
Commits P (again for_commit s) = P s
Commits P (again _ s) = Unit

-- What holds when an operation returns, and when it waits for the last task.
abbrev Completes {ℓ} : {A : Type ℓ} → (State → Type 0) → Result A → Type 0
Completes P (done a s) = P s
Completes P (restarted s) = Unit
Completes P (again for_commit s) = P s
Completes P (again _ s) = Unit

if_Completes :
    {A : Type 0} (P : State → Type 0) (b : Bool) (x y : Result A)
    → Completes P x
    → Completes P y
    → Completes P (if b then x else y)
if_Completes P true x y hx hy = hx
if_Completes P false x y hx hy = hy

-- An abort neither returns nor waits for the last task.
abort-Completes :
    (P : State → Type 0) (b c d : Bool) (g : State → State) (s s1 s2 s3 : State)
    → Completes P (
        and_then {A = Unit {0}} {B = Unit {0}}
          (if b
            then done tt s
            else if c
            then if d then done tt s1 else again Spin.for_abort s2
            else again Spin.for_abort_turn s3)
          (λ _ s. restarted (g s)))
abort-Completes P true c d g s s1 s2 s3 = tt
abort-Completes P false true true g s s1 s2 s3 = tt
abort-Completes P false true false g s s1 s2 s3 = tt
abort-Completes P false false d g s s1 s2 s3 = tt

if_Commits :
    (P : State → Type 0) (b : Bool) (x y : Result RestartCause)
    → Commits P x
    → Commits P y
    → Commits P (if b then x else y)
if_Commits P true x y hx hy = hx
if_Commits P false x y hx hy = hy

complete_commit-Turned :
    (tid ts : ℕ) (read_only : Bool) (s : State)
    → Commits (Turned tid (s.transactions tid).serial) (complete_commit tid ts read_only s)
complete_commit-Turned tid ts read_only s =
    let (e, c) = complete_commit_lem tid ts read_only s in
    subst (λ (r : Result RestartCause). Commits (Turned tid (s.transactions tid).serial) r) (sym e)
      c.turn

await_idle-Commits : (P : State → Type 0) (tid : ℕ) (s : State) → Commits P (await_idle tid s)
unfolding await_idle
await_idle-Commits P tid s = if_Commits P (all_idle s.thread_count s) _ _ tt tt

await_end-Commits : (P : State → Type 0) (s : State) → Commits P (await_end s)
unfolding await_end
await_end-Commits P s = if_Commits P s.synchronization_in_progress _ _ tt tt

clock_overflow-Commits :
    (P : State → Type 0) (tid : ℕ) (s : State) → Commits P (clock_overflow tid s)
unfolding clock_overflow
clock_overflow-Commits P tid s =
    let s1 = release_read_locks tid (set_tx tid (λ t. record t { tx_status = tx_aborted }) s) in
    if_Commits P s1.synchronization_in_progress _ _
      (await_end-Commits P (set_tx tid (λ t. record t { tx_status = tx_idle }) s1))
      (await_idle-Commits P tid (record s1 { synchronization_in_progress = true }))

commit_at-Turned :
    (tid ts : ℕ) (read_only : Bool) (s : State)
    → Commits (Turned tid (s.transactions tid).serial) (commit_at tid ts read_only s)
unfolding commit_at
commit_at-Turned tid ts read_only s =
    let P = Turned tid (s.transactions tid).serial in
    if_Commits P (leb maximum_ts ts) _ _ (clock_overflow-Commits P tid s) (
      if_Commits P (not (ts == (my_thread tid s).valid_ts + 1) && ltb 0 (validate_commit tid s)) _ _
        tt
        (subst
          (λ (n : ℕ).
            Commits (Turned tid n) (complete_commit tid ts read_only (write_commit tid ts s)))
          (ap (λ (u : ℕ → TxMixinv). (u tid).serial) (write_commit_same tid ts s))
          (complete_commit-Turned tid ts read_only (write_commit tid ts s))))

commit_writes-Turned :
    (tid : ℕ) (read_only : Bool) (s : State)
    → Commits (Turned tid (s.transactions tid).serial) (commit_writes tid read_only s)
commit_writes-Turned tid read_only s =
    subst (λ (r : Result RestartCause). Commits (Turned tid (s.transactions tid).serial) r)
      (sym (commit_writes_lem tid read_only s))
      (commit_at-Turned tid (next_ts s) read_only (validating tid s))

finish_commit-Turned :
    (tid ts n : ℕ) (read_only : Bool) (s : State)
    → Turned tid n s
    → Turned tid n (finish_commit tid ts read_only s)
unfolding finish_commit
finish_commit-Turned tid ts n true s h = simp ==_refl h
finish_commit-Turned tid ts n false s h = simp ==_refl h

await_commit-Turned :
    (tid ts n : ℕ) (read_only : Bool) (s : State)
    → Turned tid n s
    → Commits (Turned tid n) (await_commit tid ts read_only s)
unfolding await_commit tx_restart
await_commit-Turned tid ts n read_only s h =
    let P = Turned tid n in
    if_Commits P (ltb (my_thread tid s).last_completed_task (s.transactions tid).commit_serial) _ _
      (if_Commits P (s.transactions tid).aborting_transaction _ _ tt h)
      (finish_commit-Turned tid ts n read_only s h)

complete_task-Turned :
    (tid : ℕ) (read_only : Bool) (s : State)
    → Turned tid (s.transactions tid).serial (complete_task tid read_only s)
unfolding complete_task
complete_task-Turned tid read_only s = simp ==_refl refl

counted-serial :
    (tid : ℕ) (s : State)
    → ((increment_statistics tid commit_read_only s).transactions tid).serial
      ≡ (s.transactions tid).serial
counted-serial tid s = simp ==_refl refl

tx_try_commit-Turned :
    (tid : ℕ) (read_only : Bool) (s : State)
    → Commits (Turned tid (s.transactions tid).serial) (tx_try_commit tid read_only s)
unfolding tx_try_commit
tx_try_commit-Turned tid read_only s =
    let t = s.transactions tid in
    let P = Turned tid t.serial in
    if_Commits P (not t.try_commit) _ _
      (await_commit-Turned tid (my_thread tid s).valid_ts t.serial read_only
        (complete_task tid read_only s) (complete_task-Turned tid read_only s))
      (if_Commits P (not read_only || leb t.start_serial (my_thread tid s).last_completed_writer) _
        _ (commit_writes-Turned tid read_only s)
        (subst
          (λ (n : ℕ). Commits (Turned tid n) (
            complete_commit tid (my_thread tid s).valid_ts read_only
              (increment_statistics tid commit_read_only s)))
          (counted-serial tid s)
          (complete_commit-Turned tid (my_thread tid s).valid_ts read_only
            (increment_statistics tid commit_read_only s))))

restart_unless-Completes :
    (P : State → Type 0) (tid : ℕ) (r : Result RestartCause)
    → Commits P r
    → Completes P (and_then r (restart_unless_committed tid))
unfolding tx_restart
restart_unless-Completes P tid (done no_restart s) h = h
restart_unless-Completes P tid (done RestartCause.restart_external s) h = tt
restart_unless-Completes P tid (done RestartCause.restart_lock s) h = tt
restart_unless-Completes P tid (done RestartCause.restart_lock_task s) h = tt
restart_unless-Completes P tid (done RestartCause.restart_validation s) h = tt
restart_unless-Completes P tid (done RestartCause.restart_clock_overflow s) h = tt
restart_unless-Completes P tid (done RestartCause.restart_transaction s) h = tt
restart_unless-Completes P tid (done RestartCause.restart_waiting s) h = tt
restart_unless-Completes P tid (restarted s) h = tt
restart_unless-Completes P tid (again for_commit s) h = h
restart_unless-Completes P tid (again _ s) h = tt

commit_ready-Turned :
    (tid : ℕ) (s : State) → Completes (Turned tid (s.transactions tid).serial) (commit_ready tid s)
unfolding commit_ready tx_restart ready_to_abort_transaction await_abort_turn await_abort
commit_ready-Turned tid s =
    let t = s.transactions tid in
    let P = Turned tid t.serial in
    if_Completes P t.abort_transaction _ _ (abort-Completes P t.try_commit _ _ _ _ _ _ _) (
      if_Completes P
        (ltb t.last_writer (my_thread tid s).last_completed_writer && not (validate_tls tid s)) _ _
        tt (restart_unless-Completes P tid _ (tx_try_commit-Turned tid (t.write_log.size == 0) s)))

commit_validated-Turned :
    (tid : ℕ) (s : State)
    → Completes (Turned tid (s.transactions tid).serial) (commit_validated tid s)
unfolding commit_validated tx_restart
commit_validated-Turned tid s =
    let t = s.transactions tid in
    let P = Turned tid t.serial in
    let p = my_thread tid s in
    if_Completes P (not t.try_commit) _ _ (commit_ready-Turned tid s) (
      if_Completes P t.aborting_transaction _ _ tt (
        if_Completes P (p.requires_validation || not p.validated) _ _ tt
          (commit_ready-Turned tid s)))

-- What a return of `tx_commit` says.
Ordered : (tid : ℕ) (s s' : State) → Type 0
Ordered tid s s' = (my_turn tid s ≡ true) × Turned tid (s.transactions tid).serial s'

with_turn :
    (tid : ℕ) (s : State)
    → my_turn tid s ≡ true
    → (r : Result (Unit {0})) → Completes (Turned tid (s.transactions tid).serial) r
    → Completes (Ordered tid s) r
unfolding Ordered
with_turn tid s turn (done a s') h = (turn, h)
with_turn tid s turn (restarted s') h = tt
with_turn tid s turn (again for_commit s') h = (turn, h)
with_turn tid s turn (again _ s') h = tt

tx_commit-Ordered : (tid : ℕ) (s : State) → Completes (Ordered tid s) (tx_commit tid s)
unfolding tx_commit tx_restart Ordered
tx_commit-Ordered tid s =
    let t = s.transactions tid in
    let P = Turned tid t.serial in
    if_Completes (Ordered tid s) (not (t.write_log.size == 0) && t.abort_task) _ _ tt
      (elim (Bool-cases (my_turn tid s)) [
        | inr early ↦ rw early tt
        | inl turn ↦ rw turn (with_turn tid s turn _ (commit_validated-Turned tid s))
      ])

-- A task completes by a call of `TxCommit` when the call returns, and, in an intermediate task, when it
-- comes to the wait for the last task of the transaction.
unfoldable pub Completed : (tid : ℕ) (s s' : State) → Type 0
Completed tid s s' = (tx_commit tid s ≡ done tt s') ⊎ (tx_commit tid s ≡ again for_commit s')

-- A task completes only in its turn, and is then the last one of its program thread that has completed.
pub completed_lem :
    (tid : ℕ) (s s' : State)
    → Completed tid s s'
    → ((my_thread tid s).last_completed_task ≡ word_pred (s.transactions tid).serial)
      × ((my_thread tid s').last_completed_task ≡ (s.transactions tid).serial)
unfolding Ordered Completed
completed_lem tid s s' (inl e) =
    let (turn, turned) =
      subst (λ (r : Result (Unit {0})). Completes (Ordered tid s) r) e (tx_commit-Ordered tid s) in
    ((==_iff _ _).0 turn, turned)
completed_lem tid s s' (inr e) =
    let (turn, turned) =
      subst (λ (r : Result (Unit {0})). Completes (Ordered tid s) r) e (tx_commit-Ordered tid s) in
    ((==_iff _ _).0 turn, turned)

-- A pass of an intermediate task's wait returns only when the last task of its transaction, or a later one,
-- has completed, and leaves the last completed task as it is.
pub await_commit_order :
    (tid ts : ℕ) (read_only : Bool) (cause : RestartCause) (s s' : State)
    → await_commit tid ts read_only s ≡ done cause s'
    → ((s.transactions tid).commit_serial ≤ (my_thread tid s).last_completed_task)
      × ((my_thread tid s').last_completed_task ≡ (my_thread tid s).last_completed_task)
unfolding await_commit tx_restart
await_commit_order tid ts read_only cause s s' e =
    subst (λ (r : Result RestartCause). Waited r) e
      (if_cases Waited
        (ltb (my_thread tid s).last_completed_task (s.transactions tid).commit_serial)
        (λ early. if_cases Waited (s.transactions tid).aborting_transaction (λ a. tt) (λ a. tt))
        (λ late. (
          ground arith,
          finish_commit-Turned tid ts (my_thread tid s).last_completed_task read_only s refl,
        )))
  where
    Waited : Result RestartCause → Type 0
    Waited (done c s'') =
        ((s.transactions tid).commit_serial ≤ (my_thread tid s).last_completed_task)
        × ((my_thread tid s'').last_completed_task ≡ (my_thread tid s).last_completed_task)
    Waited (restarted s'') = Unit
    Waited (again w s'') = Unit
