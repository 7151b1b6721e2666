-- ===== src/Tx/Control.antt =====
-- How an operation of a transaction leaves: it returns, it has restarted the task by `siglongjmp`,
-- or it is at the head of a loop, which another thread may pass before this one goes on.
use tlstm.Prelude.{Bool, true, false, if◌then◌else◌}
use tlstm.Tx.State.{State}

-- The loops that wait for other threads, by what they are waiting for.
pub data Spin : Type 0 where
  for_turn : Spin  -- `TxCommit` and the abort of a committing task: the tasks before this one
  for_validation : Spin  -- `TxCommit`: the validation thread
  for_commit : Spin  -- `TxTryCommit`: the last task of the transaction
  for_abort_turn for_abort : Spin  -- `ReadyToAbortTransaction`
  for_lock : Spin  -- `LockMemoryStripe`
  for_past_task for_version : Spin  -- `ReadWordInner`
  for_synchronization for_idle : Spin  -- `Synchronize` and `StartSynchronization`

pub data Result {ℓ} (A : Type ℓ) : Type ℓ where
  done : A → State → Result A
  restarted : State → Result A
  again : Spin → State → Result A

-- What follows a call.
abbrev pub and_then {ℓ κ} : {A : Type ℓ} {B : Type κ} → Result A → (A → State → Result B) → Result B
and_then (done a s) k = k a s
and_then (restarted s) k = restarted s
and_then (again w s) k = again w s

-- A predicate on the state in which an operation returns.
abbrev pub Ensures {ℓ κ} : {A : Type ℓ} → (State → Type κ) → Result A → Type κ
Ensures P (done _ s) = P s
Ensures P (restarted s) = Unit
Ensures P (again w s) = Unit

pub if_Ensures :
    {A : Type 0} (P : State → Type 0) (b : Bool) (x y : Result A)
    → Ensures P x
    → Ensures P y
    → Ensures P (if b then x else y)
if_Ensures P true x y hx hy = hx
if_Ensures P false x y hx hy = hy

-- Nothing returns from a call that is followed by a restart.
pub never_returns {ℓ} :
    {A : Type ℓ} (P : State → Type 0) (g : State → State) (r : Result A)
    → Ensures P (and_then {B = Unit {0}} r (λ _ s. restarted (g s)))
never_returns P g (done a s) = tt
never_returns P g (restarted s) = tt
never_returns P g (again w s) = tt
