-- ===== src/Memory/DoubleFree.antt =====
-- A buffer's link into the list of reusable buffers is followed by the next abort.
use tlstm.Prelude.{
  ℕ, suc, ◌<◌, ◌≡◌, ◌≢◌, refl, sym, ap, subst, ◌∙◌, arith, not, ◌==◌, if_cases, List, [], ◌∷◌, ◌++◌,
  All, length, some,
}
use tlstm.Memory.{
  null, PtrBuffer, Buffers, MemoryManager, modify, set_next, set_prev, set_prev_of, put_reusable,
  forget_freed, forget_alloced, empty, tx_abort, pointers,
}
use tlstm.Memory.Chain.{
  Linked, Outside, Same, contents, Linked-Same, contents-Same, modify_self, modify-Same-other,
  Linked-append,
}
use tlstm.Memory.Allocations.{
  Same-trans, modify_prev-Same, set_prev_of-Same, Recorded, All-Same, Outside-last,
}
use tlstm.Memory.Abort.{
  put_reusable-Same, forget_freed-Same, forget_freed-Forgotten, Forgotten, Emptied,
  forget_alloced-Emptied, aborted, tx_abort-chain, length-snoc,
}

put_reusable-last :
    (first last : ℕ) (m : MemoryManager)
    → m.reusable ≡ (m.buffers last).next
    → Same m.buffers (put_reusable first last m).buffers last
unfolding put_reusable
put_reusable-last first last m e =
    let b₁ = modify last (set_next m.reusable) m.buffers in
    let b₂ = set_prev_of m.reusable last b₁ in
    let here = modify_self last (set_next m.reusable) m.buffers in
    Same-trans m.buffers b₂ (modify first (set_prev null) b₂) last
      (Same-trans m.buffers b₁ b₂ last
        (record {
          next = ap (λ (c : PtrBuffer). c.next) here ∙ e;
          next_ptr = ap (λ (c : PtrBuffer). c.next_ptr) here;
          ptrs = ap (λ (c : PtrBuffer). c.ptrs) here;
        })
        (set_prev_of-Same m.reusable last last b₁))
      (modify_prev-Same first null last b₂)

module _ (m : MemoryManager) (overflow : m.alloced_in_tx ≢ m.alloced_in_tx_old) where
  abbrev old : ℕ
  old = m.alloced_in_tx_old

  abbrev put : MemoryManager
  put = put_reusable (m.buffers old).next m.alloced_in_tx m

  -- The second half of an abort keeps the links of the chain and the pointers behind its first buffer.
  after_overflow : (forget_alloced m).buffers ≡ modify old empty put.buffers
  unfolding forget_alloced
  after_overflow =
      if_cases
        (λ (m₁ : MemoryManager).
          modify m₁.alloced_in_tx empty m₁.buffers ≡ modify old empty put.buffers)
        (not (m.alloced_in_tx == old)) (λ t. refl) (λ t. absurd (overflow (ground arith)))

  links-Same : (x : ℕ) → x ≢ m.alloced_in_tx → x ≢ old → Same m.buffers (forget_alloced m).buffers x
  links-Same x n k = rw after_overflow (
      Same-trans m.buffers put.buffers (modify old empty put.buffers) x
        (put_reusable-Same (m.buffers old).next m.alloced_in_tx x m n)
        (modify-Same-other old x empty put.buffers k))

  old_next : ((forget_alloced m).buffers old).next ≡ (m.buffers old).next
  old_next = rw after_overflow (
      ap (λ (c : PtrBuffer). c.next) (modify_self old empty put.buffers)
      ∙ (put_reusable-Same (m.buffers old).next m.alloced_in_tx old m (λ e. overflow (sym e))).next)

  -- The last buffer of the chain is linked to what was reusable.
  last-Same :
      m.reusable ≡ (m.buffers m.alloced_in_tx).next
      → Same m.buffers (forget_alloced m).buffers m.alloced_in_tx
  last-Same e = rw after_overflow (
      Same-trans m.buffers put.buffers (modify old empty put.buffers) m.alloced_in_tx
        (put_reusable-last (m.buffers old).next m.alloced_in_tx m e)
        (modify-Same-other old m.alloced_in_tx empty put.buffers overflow))

-- The same, with the two ends of the chain as equations.
module _ (d : MemoryManager) (cur first : ℕ) (ec : d.alloced_in_tx ≡ cur)
    (eo : d.alloced_in_tx_old ≡ first) (n : cur ≢ first) where
  overflows : d.alloced_in_tx ≢ d.alloced_in_tx_old
  overflows e = n (sym ec ∙ e ∙ eo)

  behind-Same : (x : ℕ) → x ≢ cur → x ≢ first → Same d.buffers (forget_alloced d).buffers x
  behind-Same x k l = links-Same d overflows x (λ e. k (e ∙ ec)) (λ e. l (e ∙ eo))

  cur-Same : d.reusable ≡ (d.buffers cur).next → Same d.buffers (forget_alloced d).buffers cur
  cur-Same e =
      subst (λ c. Same d.buffers (forget_alloced d).buffers c) ec
        (last-Same d overflows (e ∙ ap (λ c. (d.buffers c).next) (sym ec)))

  first_next : ((forget_alloced d).buffers first).next ≡ (d.buffers first).next
  first_next =
      subst (λ c. ((forget_alloced d).buffers c).next ≡ (d.buffers c).next) eo
        (old_next d overflows)

All-snoc {κ} : (P : ℕ → Type κ) (xs : List ℕ) (y : ℕ) → All P xs → P y → All P (xs ++ y ∷ [])
All-snoc P [] y a p = (p, tt)
All-snoc P (x ∷ xs) y (q, a) p = (q, All-snoc P xs y a p)

All-trans :
    (b b' b'' : Buffers) (xs : List ℕ)
    → All (Same b b') xs
    → All (Same b' b'') xs
    → All (Same b b'') xs
All-trans b b' b'' [] s t = tt
All-trans b b' b'' (x ∷ xs) (s, ss) (t, ts) =
    (Same-trans b b' b'' x s t, All-trans b b' b'' xs ss ts)

first_empty :
    (b : Buffers) (x : ℕ) (xs : List ℕ) → (b x).next_ptr ≡ 0 → contents b (x ∷ xs) ≡ contents b xs
unfolding contents pointers
first_empty b x xs e = rw e refl

-- When a transaction has allocated more than one buffer of pointers, nothing is reusable yet and one buffer
-- holds its deallocations, then after its abort the next abort, with nothing in between, frees once
-- more every pointer behind the first buffer. The buffers of the two chains are different ones.
pub tx_abort_again :
    (size fuel : ℕ) (m : MemoryManager) (ys : List ℕ)
    → Recorded size m (m.alloced_in_tx_old ∷ ys)
    → m.reusable ≡ null
    → m.freed_in_tx_old ≡ m.freed_in_tx
    → Outside m.freed_in_tx (m.alloced_in_tx_old ∷ ys ++ m.alloced_in_tx ∷ [])
    → Outside m.alloced_in_tx_old (ys ++ m.alloced_in_tx ∷ [])
    → suc (suc (length ys)) < fuel
    → (m' : MemoryManager) × (m'' : MemoryManager) × (tx_abort fuel m ≡ some m')
      × (tx_abort fuel m' ≡ some m'')
      × (m''.freed ≡ m'.freed ++ contents m.buffers (ys ++ m.alloced_in_tx ∷ []))
tx_abort_again size fuel m ys r none_reusable one o apart f = (
  m',
  forget_alloced (aborted m' chain),
  first_abort,
  second_abort,
  (forget_alloced-Emptied (aborted m' chain)).freed ∙ ap (λ l. m'.freed ++ l) again,
)
  where
    cur : ℕ
    cur = m.alloced_in_tx

    first : ℕ
    first = m.alloced_in_tx_old

    rest : List ℕ
    rest = ys ++ cur ∷ []

    chain : List ℕ
    chain = first ∷ rest

    done : MemoryManager
    done = aborted m chain

    m' : MemoryManager
    m' = forget_alloced done

    forgotten : Forgotten m (forget_freed m)
    forgotten = forget_freed-Forgotten m

    emptied : Emptied done m'
    emptied = forget_alloced-Emptied done

    distinct : cur ≢ first
    distinct e = r.apart.0 (sym e)

    first_same : All (Same m.buffers done.buffers) chain
    first_same =
        All-Same m.buffers done.buffers chain m.freed_in_tx m.freed_in_tx
          (λ x k l. forget_freed-Same m x (λ e. k (e ∙ one)) l) o o

    ends_link : done.reusable ≡ (done.buffers cur).next
    ends_link =
        forgotten.reusable one
        ∙ none_reusable
        ∙ sym r.ends
        ∙ sym
            (forget_freed-Same m cur
              (λ e. (Outside-last m.freed_in_tx cur (first ∷ ys) o).1 (e ∙ one))
              (Outside-last m.freed_in_tx cur (first ∷ ys) o).1).next

    second_same : All (Same done.buffers m'.buffers) rest
    second_same =
        All-snoc (Same done.buffers m'.buffers) ys cur
          (All-Same done.buffers m'.buffers ys cur first
            (behind-Same done cur first forgotten.alloced forgotten.alloced_old distinct) r.apart.1
            (Outside-last first cur ys apart).0)
          (cur-Same done cur first forgotten.alloced forgotten.alloced_old distinct ends_link)

    same : All (Same m.buffers m'.buffers) rest
    same = All-trans m.buffers done.buffers m'.buffers rest first_same.1 second_same

    rest_linked : Linked m.buffers (m.buffers first).next rest null
    rest_linked =
        Linked-append m.buffers (m.buffers first).next cur null ys (cur ∷ []) r.linked.2
          (refl, r.present, r.ends)

    next_kept : (m'.buffers first).next ≡ (m.buffers first).next
    next_kept =
        first_next done cur first forgotten.alloced forgotten.alloced_old distinct
        ∙ first_same.0.next

    linked_again : Linked m'.buffers m'.alloced_in_tx_old chain null
    linked_again = (
      emptied.alloced_old ∙ forgotten.alloced_old,
      r.linked.1,
      rw next_kept
          (Linked-Same m.buffers m'.buffers (m.buffers first).next null rest same rest_linked),
    )

    enough : length chain < fuel
    enough = omega (arith, length-snoc ys cur)

    first_abort : tx_abort fuel m ≡ some m'
    first_abort =
        tx_abort-chain fuel m chain (refl, r.linked.1, rest_linked)
          (subst (λ x. Outside x chain) (sym one) o) o enough

    second_abort : tx_abort fuel m' ≡ some (forget_alloced (aborted m' chain))
    second_abort =
        tx_abort-chain fuel m' chain linked_again
          (subst (λ x. Outside x chain) (sym (emptied.first_old ∙ forgotten.first_old ∙ one)) o)
          (subst (λ x. Outside x chain) (sym (emptied.first ∙ forgotten.first ∙ one)) o) enough

    again : contents m'.buffers chain ≡ contents m.buffers rest
    again =
        first_empty m'.buffers first rest
          (ap (λ x. (m'.buffers x).next_ptr) (sym forgotten.alloced_old) ∙ emptied.cleared)
        ∙ contents-Same m.buffers m'.buffers rest same
