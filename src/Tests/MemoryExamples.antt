-- ===== src/Tests/MemoryExamples.antt =====
-- Examples for the theorems on src/stm/memory/memory_impl.h: buffers of two pointers.
use tlstm.Prelude.{ℕ, ◌+◌, ◌≡◌, ◌==◌, refl, true, some, [], ◌∷◌, ◌++◌, if◌then◌else◌, arith}
use tlstm.Memory.{PtrBuffer, MemoryManager, tx_abort, tx_commit, forget_freed, free_dominated}
use tlstm.Memory.Chain.{contents}
use tlstm.Memory.Allocations.{Recorded, allocations}
use tlstm.Memory.Abort.{tx_abort_lem}
use tlstm.Memory.Commit.{tx_commit_lem}
use tlstm.Memory.DoubleFree.{tx_abort_again}
use tlstm.Memory.Dominated.{free_dominated_lem}

abbrev buffer : (next_ptr ts next prev from : ℕ) → PtrBuffer
buffer next_ptr ts next prev from = record {
  next_ptr = next_ptr;
  rollback_next_ptr = 0;
  ts = ts;
  init_ts = true;
  next = next;
  prev = prev;
  ptrs = λ i. from + i;
}

-- One buffer of deallocations (1), two of allocations (2 and 3), two of pointers freed logically (4, 5).
abbrev buffers_at : ℕ → PtrBuffer
buffers_at x =
    if x == 2
    then buffer 2 0 3 0 10
    else if x == 3
    then buffer 1 0 0 2 12
    else if x == 4
    then buffer 2 9 5 0 20
    else if x == 5
    then buffer 2 4 0 4 22
    else buffer 0 0 0 0 0

abbrev manager : MemoryManager
manager = record {
  freed_in_tx = 1;
  freed_in_tx_old = 1;
  alloced_in_tx = 3;
  alloced_in_tx_old = 2;
  freed_logically = 4;
  reusable = 0;
  last_minimum_ts = 0;
  buffers = buffers_at;
  calls = 5;
  freed = [];
}

manager-Recorded : Recorded 2 manager (2 ∷ [])
manager-Recorded = record {
  linked = (refl, (λ e. omega arith), refl);
  apart = ((λ e. omega arith), tt);
  present = λ e. omega arith;
  ends = refl;
  room = omega arith;
}

tx_abort_lem_example :
    (m' : MemoryManager) × (tx_abort 3 manager ≡ some m')
    × (m'.freed ≡ [] ++ allocations manager (2 ∷ []))
    × (m'.alloced_in_tx ≡ 2)
    × ((m'.buffers 2).next_ptr ≡ 0)
    × (m'.freed_in_tx ≡ 1)
    × ((m'.buffers 1).next_ptr ≡ 0)
tx_abort_lem_example =
    tx_abort_lem 2 3 manager (2 ∷ []) manager-Recorded
      ((λ e. omega arith), ((λ e. omega arith), tt)) ((λ e. omega arith), ((λ e. omega arith), tt))
      (λ e. omega arith) (omega arith)

tx_abort_again_example :
    (m' : MemoryManager) × (m'' : MemoryManager) × (tx_abort 3 manager ≡ some m')
    × (tx_abort 3 m' ≡ some m'')
    × (m''.freed ≡ m'.freed ++ contents buffers_at ([] ++ 3 ∷ []))
tx_abort_again_example =
    tx_abort_again 2 3 manager [] manager-Recorded refl refl
      ((λ e. omega arith), ((λ e. omega arith), tt)) ((λ e. omega arith), tt) (omega arith)

-- The pointer 12 is freed by the first abort and by the second.
freed_twice : contents buffers_at (3 ∷ []) ≡ 12 ∷ []
unfolding contents
freed_twice = refl

free_dominated_lem_example :
    (m' : MemoryManager) × (free_dominated 3 6 6 manager ≡ some m')
    × (m'.freed ≡ [] ++ contents buffers_at (5 ∷ []))
    × (m'.last_minimum_ts ≡ 6)
free_dominated_lem_example =
    free_dominated_lem 3 6 6 6 manager (4 ∷ []) (5 ∷ []) refl (λ e. omega arith)
      (refl, (λ e. omega arith), (refl, (λ e. omega arith), refl)) (refl, tt) refl
      ((λ e. omega arith), tt) (omega arith)

tx_commit_lem_example :
    (m' : MemoryManager) × (tx_commit 3 8 6 6 manager ≡ some m')
    × (m'.freed ≡ [])
    × (m'.alloced_in_tx ≡ 2)
    × ((m'.buffers 2).next_ptr ≡ 0)
    × (contents m'.buffers (1 ∷ []) ≡ contents manager.buffers (1 ∷ []))
    × (contents (forget_freed m').buffers (1 ∷ []) ≡ contents manager.buffers (1 ∷ []))
tx_commit_lem_example = tx_commit_lem 3 8 6 6 manager refl (λ e. omega arith) (λ e. omega arith)
