-- ===== src/Tx/Commit/Loop.antt =====
-- The loops of src/stm/transaction_mixinv.h over the write logs of all tasks of a transaction, as one
-- pass over a list of entries.
use tlstm.Prelude.{
  ℕ, zero, suc, ◌+◌, ◌-◌, ◌%◌, ◌≡◌, refl, ◌⊎◌, List, [], ◌∷◌, ◌++◌, sym, ap, ◌∙◌, Bool-cases, inl,
  inr,
}
use tlstm.Tx.State.{EntryRef, State, owner_of, entry_at}
use tlstm.Tx.Commit.{is_ref, each_entry, each_task, lock_reads, unlock_reads, commit_write}

unfoldable pub run_all : (EntryRef → State → State) → List EntryRef → State → State
run_all f [] s = s
run_all f (r ∷ rest) s = run_all f rest (f r s)

run_all-append :
    (f : EntryRef → State → State) (xs ys : List EntryRef) (s : State)
    → run_all f (xs ++ ys) s ≡ run_all f ys (run_all f xs s)
unfolding run_all
run_all-append f [] ys s = refl
run_all-append f (x ∷ xs) ys s = run_all-append f xs ys (f x s)

-- The places in use of one write log, and those of `n` tasks from serial `i` on.
unfoldable pub entry_refs : (owner n : ℕ) → List EntryRef
entry_refs owner zero = []
entry_refs owner (suc n) = entry_refs owner n ++ record { owner = owner; slot = n } ∷ []

unfoldable pub task_refs : (ptid i n : ℕ) → State → List EntryRef
task_refs ptid i zero s = []
task_refs ptid i (suc n) s =
    let owner = owner_of ptid i s in
    entry_refs owner (s.transactions owner).write_log.size ++ task_refs ptid (i + 1) n s

-- The entries that the transaction of `tid` has in use, in the order of its tasks.
abbrev pub tx_refs : ℕ → State → List EntryRef
tx_refs tid s =
    let t = s.transactions tid in
    task_refs t.prog_thread_id t.start_serial (t.serial + 1 - t.start_serial) s

abbrev pub Has : EntryRef → List EntryRef → Type 0
Has r [] = ⊥
Has r (q ∷ rest) = (q ≡ r) ⊎ Has r rest

-- The descriptors and the program threads are the same.
pub record SameTasks (s s' : State) : Type 0 where
  pub tasks : s'.transactions ≡ s.transactions
  pub threads : s'.prog_thread ≡ s.prog_thread
  pub depth : s'.specdepth ≡ s.specdepth

abbrev pub same : (s : State) → SameTasks s s
same s = record { tasks = refl; threads = refl; depth = refl }

pub same_trans : {a b c : State} → SameTasks a b → SameTasks b c → SameTasks a c
same_trans p q = record {
  tasks = q.tasks ∙ p.tasks;
  threads = q.threads ∙ p.threads;
  depth = q.depth ∙ p.depth;
}

-- A step that leaves the tasks alone.
abbrev pub IsQuiet : (EntryRef → State → State) → Type 0
IsQuiet f = (r : EntryRef) (s : State) → SameTasks s (f r s)

pub run_all-IsQuiet :
    (f : EntryRef → State → State)
    → IsQuiet f
    → (refs : List EntryRef) (s : State) → SameTasks s (run_all f refs s)
unfolding run_all
run_all-IsQuiet f q [] s = same s
run_all-IsQuiet f q (r ∷ rest) s = same_trans (q r s) (run_all-IsQuiet f q rest (f r s))

each_entry_lem :
    (f : EntryRef → State → State) (owner n : ℕ) (s : State)
    → each_entry f owner n s ≡ run_all f (entry_refs owner n) s
unfolding each_entry entry_refs run_all
each_entry_lem f owner zero s = refl
each_entry_lem f owner (suc n) s =
    ap (f (record { owner = owner; slot = n })) (each_entry_lem f owner n s)
    ∙ sym (run_all-append f (entry_refs owner n) _ s)

pub task_refs_same :
    (ptid i n : ℕ) {s s' : State} → SameTasks s s' → task_refs ptid i n s' ≡ task_refs ptid i n s
unfolding task_refs
task_refs_same ptid i zero h = refl
task_refs_same ptid i (suc n) {s} {s'} h = λ k.
    let owner = (h.threads k ptid).owners (i % h.depth k) in
    entry_refs owner (h.tasks k owner).write_log.size ++ task_refs_same ptid (i + 1) n h k

pub each_task_lem :
    (f : EntryRef → State → State)
    → IsQuiet f
    → (ptid i n : ℕ) (s : State) → each_task f ptid i n s ≡ run_all f (task_refs ptid i n s) s
unfolding each_task task_refs run_all
each_task_lem f q ptid i zero s = refl
each_task_lem f q ptid i (suc n) s =
    let owner = owner_of ptid i s in
    let size = (s.transactions owner).write_log.size in
    let s1 = run_all f (entry_refs owner size) s in
    ap (each_task f ptid (i + 1) n) (each_entry_lem f owner size s)
    ∙ each_task_lem f q ptid (i + 1) n s1
    ∙ ap (λ (refs : List EntryRef). run_all f refs s1)
        (task_refs_same ptid (i + 1) n (run_all-IsQuiet f q (entry_refs owner size) s))
    ∙ sym (run_all-append f (entry_refs owner size) _ s)

pub lock_reads-IsQuiet : IsQuiet lock_reads
lock_reads-IsQuiet r s = record { tasks = refl; threads = refl; depth = refl }

pub unlock_reads-IsQuiet : IsQuiet unlock_reads
unlock_reads-IsQuiet r s = record { tasks = refl; threads = refl; depth = refl }

pub commit_write-IsQuiet : (version : ℕ) → IsQuiet (commit_write version)
unfolding commit_write
commit_write-IsQuiet version r s =
    elim (Bool-cases (is_ref r (s.write_locks (entry_at r s).write_lock))) [
      | inl e ↦ rw e (record { tasks = refl; threads = refl; depth = refl })
      | inr e ↦ rw e (record { tasks = refl; threads = refl; depth = refl })
    ]
