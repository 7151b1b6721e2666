-- ===== src/Memory/Abort.antt =====
-- What `TxAbort` frees and forgets.
use tlstm.Prelude.{
  ℕ, suc, ◌<◌, ◌≡◌, ◌≢◌, refl, sym, ap, ◌∙◌, arith, not, ◌==◌, if_cases, List, [], ◌∷◌, ◌++◌, All,
  Bool-cases, inl, inr, ==_iff, length, some,
}
use tlstm.Memory.{
  null, PtrBuffer, Buffers, MemoryManager, modify, set_next, set_prev, set_prev_of, rollback,
  put_reusable, free_chain, forget_freed, forget_alloced, empty, tx_abort,
}
use tlstm.Memory.Chain.{
  Linked, Outside, Same, contents, Linked-Same, contents-Same, modify_self, modify-other,
  modify-Same-other, Linked-append, free_chain_lem,
}
use tlstm.Memory.Allocations.{
  Same-trans, modify_prev-Same, set_prev_of-Same, Recorded, allocations, All-Same,
}

-- `PutReusable(first, last)` changes no link but that behind `last`, and no pointers.
pub put_reusable-Same :
    (first last x : ℕ) (m : MemoryManager)
    → x ≢ last
    → Same m.buffers (put_reusable first last m).buffers x
unfolding put_reusable
put_reusable-Same first last x m n =
    let b₁ = modify last (set_next m.reusable) m.buffers in
    let b₂ = set_prev_of m.reusable last b₁ in
    Same-trans m.buffers b₂ (modify first (set_prev null) b₂) x
      (Same-trans m.buffers b₁ b₂ x (modify-Same-other last x (set_next m.reusable) m.buffers n)
        (set_prev_of-Same m.reusable last x b₁))
      (modify_prev-Same first null x b₂)

set_next-next_ptr :
    (p q x : ℕ) (b : Buffers) → (modify p (set_next q) b x).next_ptr ≡ (b x).next_ptr
set_next-next_ptr p q x b = elim (Bool-cases (x == p)) [
  | inl e ↦
      let s = (==_iff x p).0 e in
      rw s (ap (λ (c : PtrBuffer). c.next_ptr) (modify_self p (set_next q) b))
  | inr e ↦
      ap (λ (c : PtrBuffer). c.next_ptr)
        (modify-other p x (set_next q) b (λ h. absurd (ground arith)))
]

pub put_reusable-next_ptr :
    (first last x : ℕ) (m : MemoryManager)
    → ((put_reusable first last m).buffers x).next_ptr ≡ (m.buffers x).next_ptr
unfolding put_reusable
put_reusable-next_ptr first last x m =
    let b₁ = modify last (set_next m.reusable) m.buffers in
    (modify_prev-Same first null x (set_prev_of m.reusable last b₁)).next_ptr
    ∙ (set_prev_of-Same m.reusable last x b₁).next_ptr
    ∙ set_next-next_ptr last m.reusable x m.buffers

module _ (m : MemoryManager) where
  abbrev rolled_back : MemoryManager
  rolled_back = record m { buffers = modify m.freed_in_tx_old rollback m.buffers }

  pub forget_freed-Same :
      (x : ℕ)
      → x ≢ m.freed_in_tx_old
      → x ≢ m.freed_in_tx
      → Same m.buffers (forget_freed m).buffers x
  unfolding forget_freed
  forget_freed-Same x n k =
      if_cases (λ (m' : MemoryManager). Same m.buffers m'.buffers x)
        (not (m.freed_in_tx_old == m.freed_in_tx))
        (λ t.
          Same-trans m.buffers rolled_back.buffers
            (put_reusable (rolled_back.buffers m.freed_in_tx_old).next m.freed_in_tx
              rolled_back).buffers
            x (modify-Same-other m.freed_in_tx_old x rollback m.buffers n)
            (put_reusable-Same (rolled_back.buffers m.freed_in_tx_old).next m.freed_in_tx x
              rolled_back k))
        (λ t. modify-Same-other m.freed_in_tx_old x rollback m.buffers n)

  -- What the first half of an abort leaves.
  pub record Forgotten (m' : MemoryManager) : Type 0 where
    pub first : m'.freed_in_tx ≡ m.freed_in_tx_old
    pub first_old : m'.freed_in_tx_old ≡ m.freed_in_tx_old
    pub back :
        (m'.buffers m.freed_in_tx_old).next_ptr ≡ (m.buffers m.freed_in_tx_old).rollback_next_ptr
    pub alloced : m'.alloced_in_tx ≡ m.alloced_in_tx
    pub alloced_old : m'.alloced_in_tx_old ≡ m.alloced_in_tx_old
    pub freed : m'.freed ≡ m.freed
    pub reusable : m.freed_in_tx_old ≡ m.freed_in_tx → m'.reusable ≡ m.reusable

  pub forget_freed-Forgotten : Forgotten (forget_freed m)
  unfolding forget_freed
  forget_freed-Forgotten =
      let f = m.freed_in_tx in
      let old = m.freed_in_tx_old in
      let back = ap (λ (c : PtrBuffer). c.next_ptr) (modify_self old rollback m.buffers) in
      if_cases Forgotten (not (old == f))
        (λ t. record {
          first = refl;
          first_old = refl;
          back = put_reusable-next_ptr (rolled_back.buffers old).next f old rolled_back ∙ back;
          alloced = refl;
          alloced_old = refl;
          freed = refl;
          reusable = λ h. absurd (ground arith);
        })
        (λ t. record {
          first = ground arith;
          first_old = refl;
          back = back;
          alloced = refl;
          alloced_old = refl;
          freed = refl;
          reusable = λ h. refl;
        })

  -- What the second half leaves.
  pub record Emptied (m' : MemoryManager) : Type 0 where
    pub alloced : m'.alloced_in_tx ≡ m.alloced_in_tx_old
    pub cleared : (m'.buffers m.alloced_in_tx_old).next_ptr ≡ 0
    pub freed : m'.freed ≡ m.freed
    pub first : m'.freed_in_tx ≡ m.freed_in_tx
    pub first_old : m'.freed_in_tx_old ≡ m.freed_in_tx_old
    pub alloced_old : m'.alloced_in_tx_old ≡ m.alloced_in_tx_old
    pub kept : (x : ℕ) → x ≢ m.alloced_in_tx_old → (m'.buffers x).next_ptr ≡ (m.buffers x).next_ptr

  pub forget_alloced-Emptied : Emptied (forget_alloced m)
  unfolding forget_alloced
  forget_alloced-Emptied =
      let old = m.alloced_in_tx_old in
      let put = put_reusable (m.buffers old).next m.alloced_in_tx m in
      if_cases
        (λ (m₁ : MemoryManager).
          Emptied (record m₁ { buffers = modify m₁.alloced_in_tx empty m₁.buffers }))
        (not (m.alloced_in_tx == old))
        (λ t. record {
          alloced = refl;
          cleared = ap (λ (c : PtrBuffer). c.next_ptr) (modify_self old empty put.buffers);
          freed = refl;
          first = refl;
          first_old = refl;
          alloced_old = refl;
          kept = λ x n.
              ap (λ (c : PtrBuffer). c.next_ptr) (modify-other old x empty put.buffers n)
              ∙ put_reusable-next_ptr (m.buffers old).next m.alloced_in_tx x m;
        })
        (λ t.
          let e : m.alloced_in_tx ≡ old = ground arith in
          record {
            alloced = e;
            cleared = rw e (ap (λ (c : PtrBuffer). c.next_ptr) (modify_self old empty m.buffers));
            freed = refl;
            first = refl;
            first_old = refl;
            alloced_old = refl;
            kept = λ x n.
                rw e (ap (λ (c : PtrBuffer). c.next_ptr) (modify-other old x empty m.buffers n));
          })

pub length-snoc : (xs : List ℕ) (y : ℕ) → length (xs ++ y ∷ []) ≡ suc (length xs)
length-snoc [] y = refl
length-snoc (x ∷ xs) y = ap suc (length-snoc xs y)

-- The state that an abort leaves when the chain `chain` starts at `alloced_in_tx_old`.
abbrev pub aborted : MemoryManager → List ℕ → MemoryManager
aborted m chain = record (forget_freed m) { freed = m.freed ++ contents m.buffers chain }

-- An abort frees the pointers of the chain that starts at `alloced_in_tx_old`.
pub tx_abort-chain :
    (fuel : ℕ) (m : MemoryManager) (chain : List ℕ)
    → Linked m.buffers m.alloced_in_tx_old chain null
    → Outside m.freed_in_tx_old chain
    → Outside m.freed_in_tx chain
    → length chain < fuel
    → tx_abort fuel m ≡ some (forget_alloced (aborted m chain))
unfolding tx_abort
tx_abort-chain fuel m chain l o o' f = rw (loop, tx_abort) refl
  where
    m₁ : MemoryManager
    m₁ = forget_freed m

    same : All (Same m.buffers m₁.buffers) chain
    same =
        All-Same m.buffers m₁.buffers chain m.freed_in_tx_old m.freed_in_tx (forget_freed-Same m) o
          o'

    loop : free_chain fuel m.alloced_in_tx_old m₁ ≡ some (aborted m chain)
    loop =
        free_chain_lem fuel m.alloced_in_tx_old chain m₁
          (Linked-Same m.buffers m₁.buffers m.alloced_in_tx_old null chain same l) f
        ∙ rw ((forget_freed-Forgotten m).freed, contents-Same m.buffers m₁.buffers chain same) refl

-- When the buffers of the transaction's allocations are linked up to the current one, behind which no
-- buffer is linked, and none of them is a buffer of its deallocations, `TxAbort` frees the pointers in them,
-- in order, and no others. It goes back to the first buffer of each: that of the allocations is empty, that of the
-- deallocations ends where it ended at the last commit. The loop ends: one round more than there are
-- buffers is enough.
pub tx_abort_lem :
    (size fuel : ℕ) (m : MemoryManager) (xs : List ℕ)
    → Recorded size m xs
    → Outside m.freed_in_tx_old (xs ++ m.alloced_in_tx ∷ [])
    → Outside m.freed_in_tx (xs ++ m.alloced_in_tx ∷ [])
    → m.freed_in_tx_old ≢ m.alloced_in_tx_old
    → suc (length xs) < fuel
    → (m' : MemoryManager) × (tx_abort fuel m ≡ some m')
      × (m'.freed ≡ m.freed ++ allocations m xs)
      × (m'.alloced_in_tx ≡ m.alloced_in_tx_old)
      × ((m'.buffers m.alloced_in_tx_old).next_ptr ≡ 0)
      × (m'.freed_in_tx ≡ m.freed_in_tx_old)
      × ((m'.buffers m.freed_in_tx_old).next_ptr ≡ (m.buffers m.freed_in_tx_old).rollback_next_ptr)
tx_abort_lem size fuel m xs r o o' apart f = (
  forget_alloced done,
  tx_abort-chain fuel m chain linked o o' (omega (arith, length-snoc xs m.alloced_in_tx)),
  emptied.freed,
  emptied.alloced ∙ forgotten.alloced_old,
  ap (λ x. ((forget_alloced done).buffers x).next_ptr) (sym forgotten.alloced_old)
      ∙ emptied.cleared,
  emptied.first ∙ forgotten.first,
  emptied.kept m.freed_in_tx_old (λ e. apart (e ∙ forgotten.alloced_old)) ∙ forgotten.back,
)
  where
    chain : List ℕ
    chain = xs ++ m.alloced_in_tx ∷ []

    forgotten : Forgotten m (forget_freed m)
    forgotten = forget_freed-Forgotten m

    linked : Linked m.buffers m.alloced_in_tx_old chain null
    linked =
        Linked-append m.buffers m.alloced_in_tx_old m.alloced_in_tx null xs (m.alloced_in_tx ∷ [])
          r.linked (refl, r.present, r.ends)

    done : MemoryManager
    done = aborted m chain

    emptied : Emptied done (forget_alloced done)
    emptied = forget_alloced-Emptied done
