-- ===== src/Memory.antt =====
-- The memory manager of a thread: src/stm/memory/memory_impl.h, the one of the default build (MM_EPOCH).
-- A buffer is an address; `buffers` is what stands at each, `malloc n` the address that the n-th
-- allocation of a buffer returns, `freed` the pointers that were given to `Free`, oldest first.
pub mod Chain
pub mod Allocations
pub mod Abort
pub mod DoubleFree
pub mod Dominated
pub mod Commit
use tlstm.Prelude.{
  ℕ, zero, suc, ◌+◌, Bool, true, false, not, ◌==◌, ◌&&◌, leb, if◌then◌else◌, Option, none, some,
  List, [], ◌∷◌, ◌++◌, update,
}
use tlstm.Common.Constants.{minimum_ts}

abbrev pub null : ℕ
null = 0

pub record PtrBuffer : Type 0 where
  pub next_ptr : ℕ
  pub rollback_next_ptr : ℕ
  pub ts : ℕ
  pub init_ts : Bool
  pub next : ℕ
  pub prev : ℕ
  pub ptrs : ℕ → ℕ

abbrev pub Buffers : Type 0
Buffers = ℕ → PtrBuffer

pub record MemoryManager : Type 0 where
  pub freed_in_tx : ℕ
  pub freed_in_tx_old : ℕ
  pub alloced_in_tx : ℕ
  pub alloced_in_tx_old : ℕ
  pub freed_logically : ℕ
  pub reusable : ℕ
  pub last_minimum_ts : ℕ
  pub buffers : Buffers
  pub calls : ℕ
  pub freed : List ℕ

-- The methods of `PtrBufferT`.
unfoldable pub clear : PtrBuffer → PtrBuffer
clear b = record b {
  next_ptr = 0;
  rollback_next_ptr = 0;
  next = null;
  prev = null;
  init_ts = false;
}

unfoldable pub rollback : PtrBuffer → PtrBuffer
rollback b = record b { next_ptr = b.rollback_next_ptr }

unfoldable pub commit : PtrBuffer → PtrBuffer
commit b = record b { rollback_next_ptr = b.next_ptr }

-- `buf->ptrs[buf->next_ptr++] = ptr`
unfoldable pub push : ℕ → PtrBuffer → PtrBuffer
push ptr b = record b { next_ptr = b.next_ptr + 1; ptrs = update b.ptrs b.next_ptr ptr }

-- An assignment to what a pointer to a buffer points to.
unfoldable pub modify : ℕ → (PtrBuffer → PtrBuffer) → Buffers → Buffers
modify p f b = update b p (f (b p))

abbrev pub set_next : ℕ → PtrBuffer → PtrBuffer
set_next p b = record b { next = p }

abbrev pub set_prev : ℕ → PtrBuffer → PtrBuffer
set_prev p b = record b { prev = p }

-- `if(p != NULL) p->prev = q`
unfoldable pub set_prev_of : (p q : ℕ) → Buffers → Buffers
set_prev_of p q b = if p == null then b else modify p (set_prev q) b

unfoldable pub put_reusable : (first last : ℕ) → MemoryManager → MemoryManager
unfolding set_prev_of
put_reusable first last m = record m {
  buffers =
      modify first (set_prev null)
        (set_prev_of m.reusable last (modify last (set_next m.reusable) m.buffers));
  reusable = first;
}

unfoldable pub put_freed_logically : (first last : ℕ) → MemoryManager → MemoryManager
unfolding set_prev_of
put_freed_logically first last m = record m {
  buffers =
      modify first (set_prev null)
        (set_prev_of m.freed_logically last (modify last (set_next m.freed_logically) m.buffers));
  freed_logically = first;
}

-- The pointers of a buffer.
unfoldable pub pointers : (ℕ → ℕ) → ℕ → List ℕ
pointers ptrs zero = []
pointers ptrs (suc end) = pointers ptrs end ++ ptrs end ∷ []

unfoldable pub free_ptrs : ℕ → MemoryManager → MemoryManager
unfolding pointers
free_ptrs buf m = record m {
  freed = m.freed ++ pointers (m.buffers buf).ptrs (m.buffers buf).next_ptr;
}

-- `for(curr = …; curr != NULL; curr = curr->next) FreePtrs(curr)`; `none` means that the fuel ran out.
unfoldable pub free_chain : (fuel curr : ℕ) → MemoryManager → Option MemoryManager
unfolding free_ptrs
free_chain zero curr m = none
free_chain (suc fuel) curr m =
    let rest = free_chain fuel (m.buffers curr).next (free_ptrs curr m) in
    if curr == null then some m else rest

module _ (malloc : ℕ → ℕ) where
  unfoldable pub allocate_ptr_buffer : MemoryManager → ℕ × MemoryManager
  unfolding clear
  allocate_ptr_buffer m = (
    malloc m.calls,
    record m { buffers = modify (malloc m.calls) clear m.buffers; calls = m.calls + 1 },
  )

  unfoldable pub get_clean_ptr_buffer : MemoryManager → ℕ × MemoryManager
  unfolding allocate_ptr_buffer clear set_prev_of
  get_clean_ptr_buffer m =
      if not (m.reusable == null)
      then (
        m.reusable,
        record m {
          reusable = (m.buffers m.reusable).next;
          buffers =
              modify m.reusable clear (set_prev_of (m.buffers m.reusable).next null m.buffers);
        },
      )
      else allocate_ptr_buffer m

  unfoldable pub thread_init : MemoryManager → MemoryManager
  unfolding allocate_ptr_buffer
  thread_init m =
      let (f, m₁) = allocate_ptr_buffer m in
      let (a, m₂) = allocate_ptr_buffer m₁ in
      record m₂ {
        freed_in_tx = f;
        freed_in_tx_old = f;
        alloced_in_tx = a;
        alloced_in_tx_old = a;
        freed_logically = null;
        reusable = null;
        last_minimum_ts = minimum_ts;
      }

  module _ (size : ℕ) where
    -- What follows a pointer that filled its buffer: a clean buffer behind it.
    unfoldable pub chain_clean : (buf : ℕ) → MemoryManager → ℕ × MemoryManager
    unfolding get_clean_ptr_buffer
    chain_clean buf m =
        let (pbuf, m') = get_clean_ptr_buffer m in
        (
          pbuf,
          record m' {
            buffers = modify pbuf (set_prev buf) (modify buf (set_next pbuf) m'.buffers);
          },
        )

    -- `ret` is what `Malloc(size)` returned.
    unfoldable pub tx_malloc : (ret : ℕ) → MemoryManager → MemoryManager
    unfolding chain_clean push
    tx_malloc ret m =
        let buf = m.alloced_in_tx in
        let m₁ = record m { buffers = modify buf (push ret) m.buffers } in
        let (pbuf, m₂) = chain_clean buf m₁ in
        if (m₁.buffers buf).next_ptr == size then record m₂ { alloced_in_tx = pbuf } else m₁

    unfoldable pub tx_free : (ptr : ℕ) → MemoryManager → MemoryManager
    unfolding chain_clean push
    tx_free ptr m =
        let buf = m.freed_in_tx in
        let m₁ = record m { buffers = modify buf (push ptr) m.buffers } in
        let (pbuf, m₂) = chain_clean buf m₁ in
        if (m₁.buffers buf).next_ptr == size then record m₂ { freed_in_tx = pbuf } else m₁

-- `buf->next_ptr = 0`
abbrev pub empty : PtrBuffer → PtrBuffer
empty b = record b { next_ptr = 0 }

-- The deallocations of the transaction are forgotten.
unfoldable pub forget_freed : MemoryManager → MemoryManager
unfolding rollback put_reusable
forget_freed m =
    let old = m.freed_in_tx_old in
    let m₁ = record m { buffers = modify old rollback m.buffers } in
    if not (old == m.freed_in_tx)
    then record (put_reusable (m₁.buffers old).next m.freed_in_tx m₁) { freed_in_tx = old }
    else m₁

-- The buffers of the transaction's allocations but the first are put back.
unfoldable pub forget_alloced : MemoryManager → MemoryManager
unfolding put_reusable
forget_alloced m =
    let old = m.alloced_in_tx_old in
    let m₁ =
      (if not (m.alloced_in_tx == old)
        then record (put_reusable (m.buffers old).next m.alloced_in_tx m) { alloced_in_tx = old }
        else m) in
    record m₁ { buffers = modify m₁.alloced_in_tx empty m₁.buffers }

unfoldable pub tx_abort : (fuel : ℕ) → MemoryManager → Option MemoryManager
unfolding forget_freed free_chain forget_alloced
tx_abort fuel m = elim (free_chain fuel m.alloced_in_tx_old (forget_freed m)) [
  | none ↦ none
  | some m' ↦ some (forget_alloced m')
]

-- `while(curr != NULL) { if(curr->init_ts && curr->ts <= minimum_ts) break; curr = curr->next; }`
unfoldable pub find_dominated : (fuel minimum curr : ℕ) → Buffers → Option ℕ
find_dominated zero minimum curr b = none
find_dominated (suc fuel) minimum curr b =
    let rest = find_dominated fuel minimum (b curr).next b in
    if curr == null
    then some null
    else if (b curr).init_ts && leb (b curr).ts minimum
    then some curr
    else rest

-- `while(curr != NULL) { last = curr; FreePtrs(curr); curr = curr->next; }`
unfoldable pub free_rest : (fuel curr last : ℕ) → MemoryManager → Option (ℕ × MemoryManager)
unfolding free_ptrs
free_rest zero curr last m = none
free_rest (suc fuel) curr last m =
    let rest = free_rest fuel (m.buffers curr).next curr (free_ptrs curr m) in
    if curr == null then some (last, m) else rest

-- The pointers of the buffers from `first` on are freed, the buffers put in the reusable list.
unfoldable pub reclaim : (fuel first : ℕ) → MemoryManager → Option MemoryManager
unfolding free_rest put_reusable
reclaim fuel first m = elim (free_rest fuel first first m) [
  | none ↦ none
  | some (last, m') ↦ some (put_reusable first last m')
]

-- The buffers from `first` on leave the list before that.
unfoldable pub free_from : (fuel first : ℕ) → MemoryManager → Option MemoryManager
unfolding reclaim
free_from fuel first m =
    let before = (m.buffers first).prev in
    reclaim fuel first (
      if before == null
      then record m { freed_logically = null }
      else record m { buffers = modify before (set_next null) m.buffers })

-- `if(curr != NULL) …` on what the search has found.
unfoldable pub free_found : (fuel : ℕ) → Option ℕ → MemoryManager → Option MemoryManager
unfolding free_from
free_found fuel none m = none
free_found fuel (some curr) m = if curr == null then some m else free_from fuel curr m

-- `observed` is what `GetMinimumObservedTs` returns, `updated` what `UpdateMinimumObservedTs` does.
unfoldable pub free_dominated : (fuel observed updated : ℕ) → MemoryManager → Option MemoryManager
unfolding find_dominated free_found
free_dominated fuel observed updated m =
    let minimum = if m.last_minimum_ts == observed then updated else observed in
    if m.last_minimum_ts == minimum
    then some m
    else let m₁ = record m { last_minimum_ts = minimum } in
      free_found fuel (find_dominated fuel minimum m.freed_logically m.buffers) m₁

-- The second half of `TxCommit`: the deletions are stored in `freed_logically`.
unfoldable pub store_deletions :
    (fuel commit_ts observed updated : ℕ) → MemoryManager → Option MemoryManager
unfolding commit put_freed_logically free_dominated
store_deletions fuel commit_ts observed updated m =
    let m₁ = record m { buffers = modify m.freed_in_tx commit m.buffers } in
    let old = m.freed_in_tx_old in
    let stamped = record m₁ {
      buffers = modify old (λ b. record b { ts = commit_ts; init_ts = true }) m₁.buffers;
    } in
    let chained = put_freed_logically old (stamped.buffers m.freed_in_tx).prev stamped in
    let rest =
      free_dominated fuel observed updated (record chained { freed_in_tx_old = m.freed_in_tx }) in
    if not (old == m.freed_in_tx) then rest else some m₁

unfoldable pub tx_commit :
    (fuel commit_ts observed updated : ℕ) → MemoryManager → Option MemoryManager
unfolding forget_alloced store_deletions
tx_commit fuel commit_ts observed updated m =
    store_deletions fuel commit_ts observed updated (forget_alloced m)
