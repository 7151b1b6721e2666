-- ===== src/Tx/Rollback/Restore.antt =====
-- What `Rollback` of src/stm/transaction_mixinv.h leaves.
use tlstm.Prelude.{
  ==_refl, ℕ, zero, suc, ◌<◌, ◌≡◌, refl, ◌≢◌, true, false, Option, List, [], ◌∷◌, ◌++◌, arith, ◌==◌,
  Bool-cases, ==_iff, inl, inr, All, ap, ◌∙◌, update,
}
use tlstm.Tx.State.{EntryRef, WriteLogEntry, State}
use tlstm.Tx.Rollback.{first_entries, drop_locks, rollback}

-- The lock table after `*entry.write_lock = entry.old_entry` for each entry.
unfoldable pub dropped : List WriteLogEntry → (ℕ → Option EntryRef) → ℕ → Option EntryRef
dropped [] locks = locks
dropped (e ∷ rest) locks = dropped rest (update locks e.write_lock e.old_entry)

pub drop_locks_lem :
    (log : List WriteLogEntry) (s : State)
    → drop_locks log s ≡ record s { write_locks = dropped log s.write_locks }
unfolding drop_locks dropped
drop_locks_lem [] s = refl
drop_locks_lem (e ∷ rest) s = drop_locks_lem rest _

-- No entry of the list is for this lock.
abbrev pub Free : (lock : ℕ) → List WriteLogEntry → Type 0
Free lock log = All (λ e. e.write_lock ≢ lock) log

dropped-Free :
    (log : List WriteLogEntry) (locks : ℕ → Option EntryRef) (lock : ℕ)
    → Free lock log
    → dropped log locks lock ≡ locks lock
unfolding dropped
dropped-Free [] locks lock h = refl
dropped-Free (e ∷ rest) locks lock (away, h) =
    dropped-Free rest _ lock h ∙ ground (arith, λ (p : e.write_lock ≡ lock). away p)

pub dropped_append :
    (xs ys : List WriteLogEntry) (locks : ℕ → Option EntryRef)
    → dropped (xs ++ ys) locks ≡ dropped ys (dropped xs locks)
unfolding dropped
dropped_append [] ys locks = refl
dropped_append (x ∷ xs) ys locks = dropped_append xs ys _

free-first_entries :
    (entries : ℕ → WriteLogEntry) (n lock : ℕ)
    → ((i : ℕ) → i < n → (entries i).write_lock ≢ lock)
    → (locks : ℕ → Option EntryRef) → dropped (first_entries entries n) locks lock ≡ locks lock
unfolding first_entries dropped
free-first_entries entries zero lock h locks = refl
free-first_entries entries (suc n) lock h locks =
    ap (λ (f : ℕ → Option EntryRef). f lock) (dropped_append (first_entries entries n) _ locks)
    ∙ ground (
      arith,
      h n (omega arith),
      free-first_entries entries n lock (λ i lt. h i (omega arith)) locks,
    )

-- No two entries in use are for one lock.
abbrev pub Distinct : (ℕ → WriteLogEntry) → ℕ → Type 0
Distinct entries n = (i j : ℕ) → i < j → j < n → (entries i).write_lock ≢ (entries j).write_lock

dropped-first_entries :
    (entries : ℕ → WriteLogEntry) (n : ℕ)
    → Distinct entries n
    → (locks : ℕ → Option EntryRef) (i : ℕ) → i < n
    → dropped (first_entries entries n) locks (entries i).write_lock ≡ (entries i).old_entry
unfolding first_entries dropped
dropped-first_entries entries zero h locks i lt = absurd (omega arith)
dropped-first_entries entries (suc n) h locks i lt =
    ap (λ (f : ℕ → Option EntryRef). f (entries i).write_lock)
      (dropped_append (first_entries entries n) _ locks)
    ∙ elim (Bool-cases (i == n)) [
      | inl last ↦ rw ((==_iff i n).0 last) (ground arith)
      | inr inner ↦ ground (
        arith,
        h i n (ground arith) (omega arith),
        dropped-first_entries entries n (λ a b p q. h a b p (omega arith)) locks i (ground arith),
      )
    ]

-- `Rollback` of a task that has not been rolled back, no two of whose log entries are for one lock:
-- each lock of the log holds again what it held before the task took it, every other lock, the
-- memory and the versions stay, and the task's three logs are empty.
pub rollback_lem :
    (tid : ℕ) (s : State)
    → (s.transactions tid).rolled_back ≡ false
    → Distinct (s.transactions tid).write_log.entries (s.transactions tid).write_log.size
    → let log = (s.transactions tid).write_log in
      let s' = rollback tid s in
      ((i : ℕ)
        → i < log.size
        → s'.write_locks (log.entries i).write_lock ≡ (log.entries i).old_entry)
      × ((lock : ℕ)
          → ((i : ℕ) → i < log.size → (log.entries i).write_lock ≢ lock)
          → s'.write_locks lock ≡ s.write_locks lock)
      × (s'.memory ≡ s.memory)
      × (s'.read_locks ≡ s.read_locks)
      × ((s'.transactions tid).write_log.size ≡ 0)
      × ((s'.transactions tid).read_log ≡ [])
      × ((s'.transactions tid).task_read_log ≡ [])
      × ((s'.transactions tid).rolled_back ≡ true)
unfolding rollback
rollback_lem tid s fresh distinct =
    let log = (s.transactions tid).write_log in
    rw (fresh, drop_locks_lem)
      (
        λ i lt. dropped-first_entries log.entries log.size distinct s.write_locks i lt,
        λ lock h. free-first_entries log.entries log.size lock h s.write_locks,
        refl,
        refl,
        simp ==_refl refl,
        simp ==_refl refl,
        simp ==_refl refl,
        simp ==_refl refl,
      )

rollback_done : (tid : ℕ) (s : State) → (s.transactions tid).rolled_back ≡ true → rollback tid s ≡ s
unfolding rollback
rollback_done tid s h = rw h refl

rollback-rolled_back :
    (tid : ℕ) (s : State) → ((rollback tid s).transactions tid).rolled_back ≡ true
unfolding rollback
rollback-rolled_back tid s = elim (Bool-cases (s.transactions tid).rolled_back) [
  | inl h ↦ rw h h
  | inr h ↦ rw (h, drop_locks_lem) (simp ==_refl refl)
]

-- A second `Rollback` of a task does nothing.
pub rollback_idempotent : (tid : ℕ) (s : State) → rollback tid (rollback tid s) ≡ rollback tid s
rollback_idempotent tid s = rollback_done tid (rollback tid s) (rollback-rolled_back tid s)
