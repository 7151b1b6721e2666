-- ===== src/Memory/Commit.antt =====
-- What `TxCommit` does when one buffer holds the transaction's deallocations.
use tlstm.Prelude.{
  ℕ, ◌≡◌, ◌≢◌, sym, ap, subst, refl, ◌∙◌, arith, not, ◌==◌, if_false, if_cases, some, [], ◌∷◌,
}
use tlstm.Memory.{
  PtrBuffer, MemoryManager, modify, commit, rollback, Buffers, forget_alloced, store_deletions,
  tx_commit, put_reusable, empty, forget_freed,
}
use tlstm.Memory.Chain.{Same, contents, contents-Same, modify_self, modify-other, modify-Same-other}
use tlstm.Memory.Allocations.{Same-trans}
use tlstm.Memory.Abort.{put_reusable-Same, Emptied, forget_alloced-Emptied}

-- A buffer that holds none of the transaction's allocations is left alone when they are forgotten.
forget_alloced-Same :
    (m : MemoryManager) (x : ℕ)
    → x ≢ m.alloced_in_tx
    → x ≢ m.alloced_in_tx_old
    → Same m.buffers (forget_alloced m).buffers x
unfolding forget_alloced
forget_alloced-Same m x k l =
    let old = m.alloced_in_tx_old in
    let put = put_reusable (m.buffers old).next m.alloced_in_tx m in
    if_cases (λ (m₁ : MemoryManager). Same m.buffers (modify m₁.alloced_in_tx empty m₁.buffers) x)
      (not (m.alloced_in_tx == old))
      (λ t.
        Same-trans m.buffers put.buffers (modify old empty put.buffers) x
          (put_reusable-Same (m.buffers old).next m.alloced_in_tx x m k)
          (modify-Same-other old x empty put.buffers l))
      (λ t. modify-Same-other m.alloced_in_tx x empty m.buffers k)

commit-Same : (x : ℕ) (b : Buffers) → Same b (modify x commit b) x
unfolding commit
commit-Same x b =
    let here = modify_self x commit b in
    record {
      next = ap (λ (c : PtrBuffer). c.next) here;
      next_ptr = ap (λ (c : PtrBuffer). c.next_ptr) here;
      ptrs = ap (λ (c : PtrBuffer). c.ptrs) here;
    }

-- A rollback goes back to the commit before it.
commit-rollback-Same : (x : ℕ) (b : Buffers) → Same b (modify x rollback (modify x commit b)) x
unfolding commit rollback
commit-rollback-Same x b =
    let here = modify_self x rollback (modify x commit b) ∙ ap rollback (modify_self x commit b) in
    record {
      next = ap (λ (c : PtrBuffer). c.next) here;
      next_ptr = ap (λ (c : PtrBuffer). c.next_ptr) here;
      ptrs = ap (λ (c : PtrBuffer). c.ptrs) here;
    }

forget_freed_one :
    (m : MemoryManager)
    → m.freed_in_tx_old ≡ m.freed_in_tx
    → (forget_freed m).buffers ≡ modify m.freed_in_tx_old rollback m.buffers
unfolding forget_freed
forget_freed_one m one =
    if_cases (λ (m₁ : MemoryManager). m₁.buffers ≡ modify m.freed_in_tx_old rollback m.buffers)
      (not (m.freed_in_tx_old == m.freed_in_tx)) (λ t. absurd (ground arith)) (λ t. refl)

-- When one buffer holds the transaction's deallocations, and it is not one of its allocations', then after
-- `TxCommit` nothing is freed, the first buffer of the allocations is the current one and is empty, and
-- the deallocations are in their buffer as before, also once an abort has taken it back to the
-- last commit.
pub tx_commit_lem :
    (fuel commit_ts observed updated : ℕ) (m : MemoryManager)
    → m.freed_in_tx_old ≡ m.freed_in_tx
    → m.freed_in_tx ≢ m.alloced_in_tx
    → m.freed_in_tx ≢ m.alloced_in_tx_old
    → (m' : MemoryManager) × (tx_commit fuel commit_ts observed updated m ≡ some m')
      × (m'.freed ≡ m.freed)
      × (m'.alloced_in_tx ≡ m.alloced_in_tx_old)
      × ((m'.buffers m.alloced_in_tx_old).next_ptr ≡ 0)
      × (contents m'.buffers (m.freed_in_tx ∷ []) ≡ contents m.buffers (m.freed_in_tx ∷ []))
      × (contents (forget_freed m').buffers (m.freed_in_tx ∷ [])
          ≡ contents m.buffers (m.freed_in_tx ∷ []))
unfolding tx_commit store_deletions
tx_commit_lem fuel commit_ts observed updated m one current apart = (
  m',
  if_false {b = not (m₁.freed_in_tx_old == m₁.freed_in_tx)} _ _ (ground (arith, same_old)),
  emptied.freed,
  emptied.alloced,
  ap (λ (c : PtrBuffer). c.next_ptr)
        (modify-other m₁.freed_in_tx m.alloced_in_tx_old commit m₁.buffers
          (λ e. apart (sym (e ∙ emptied.first))))
      ∙ emptied.cleared,
  contents-Same m.buffers m'.buffers (m.freed_in_tx ∷ [])
      (Same-trans m.buffers m₁.buffers m'.buffers m.freed_in_tx forgotten committed, tt),
  contents-Same m.buffers (forget_freed m').buffers (m.freed_in_tx ∷ []) (
    Same-trans m.buffers m₁.buffers (forget_freed m').buffers m.freed_in_tx forgotten taken_back,
    tt,
  ),
)
  where
    m₁ : MemoryManager
    m₁ = forget_alloced m

    emptied : Emptied m m₁
    emptied = forget_alloced-Emptied m

    m' : MemoryManager
    m' = record m₁ { buffers = modify m₁.freed_in_tx commit m₁.buffers }

    same_old : m₁.freed_in_tx_old ≡ m₁.freed_in_tx
    same_old = emptied.first_old ∙ one ∙ sym emptied.first

    forgotten : Same m.buffers m₁.buffers m.freed_in_tx
    forgotten = forget_alloced-Same m m.freed_in_tx current apart

    committed : Same m₁.buffers m'.buffers m.freed_in_tx
    committed =
        subst (λ x. Same m₁.buffers m'.buffers x) emptied.first
          (commit-Same m₁.freed_in_tx m₁.buffers)

    taken_back : Same m₁.buffers (forget_freed m').buffers m.freed_in_tx
    taken_back =
        subst (λ (b : Buffers). Same m₁.buffers b m.freed_in_tx)
          (sym (forget_freed_one m' same_old))
          (subst (λ x. Same m₁.buffers (modify m₁.freed_in_tx_old rollback m'.buffers) x)
            emptied.first
            (subst (λ x. Same m₁.buffers (modify x rollback m'.buffers) m₁.freed_in_tx)
              (sym same_old) (commit-rollback-Same m₁.freed_in_tx m₁.buffers)))
