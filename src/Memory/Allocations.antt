-- ===== src/Memory/Allocations.antt =====
-- The allocations of the transaction: how `TxMalloc` records them.
use mathlib.Core.List.{append-nil}
use tlstm.Prelude.{
  ℕ, ◌<◌, ◌≡◌, ◌≢◌, refl, sym, ap, subst, ◌∙◌, arith, not, ◌==◌, if◌then◌else◌, if_cases, List, [],
  ◌∷◌, ◌++◌, All, Bool-cases, inl, inr, ==_iff,
}
use tlstm.Memory.{
  null, PtrBuffer, Buffers, MemoryManager, modify, set_next, set_prev, set_prev_of, clear, push,
  allocate_ptr_buffer, get_clean_ptr_buffer, chain_clean, pointers,
}
use tlstm.Memory.Chain.{
  Linked, Outside, Same, contents, modify-Same-Outside, Linked-Same, modify_self, modify-Same-other,
  modify-Same-Outside, Linked-append,
}

pub Same-trans : (b b' b'' : Buffers) (x : ℕ) → Same b b' x → Same b' b'' x → Same b b'' x
Same-trans b b' b'' x s t = record {
  next = t.next ∙ s.next;
  next_ptr = t.next_ptr ∙ s.next_ptr;
  ptrs = t.ptrs ∙ s.ptrs;
}

-- Only `prev` changes.
pub modify_prev-Same : (p q x : ℕ) (b : Buffers) → Same b (modify p (set_prev q) b) x
modify_prev-Same p q x b = elim (Bool-cases (x == p)) [
  | inl e ↦
      let s = (==_iff x p).0 e in
      rw s (record {
        next = ap (λ (c : PtrBuffer). c.next) (modify_self p (set_prev q) b);
        next_ptr = ap (λ (c : PtrBuffer). c.next_ptr) (modify_self p (set_prev q) b);
        ptrs = ap (λ (c : PtrBuffer). c.ptrs) (modify_self p (set_prev q) b);
      })
  | inr e ↦ modify-Same-other p x (set_prev q) b (λ h. absurd (ground arith))
]

pub set_prev_of-Same : (p q x : ℕ) (b : Buffers) → Same b (set_prev_of p q b) x
unfolding set_prev_of
set_prev_of-Same p q x b =
    if_cases (λ b'. Same b b' x) (p == null)
      (λ _. record { next = refl; next_ptr = refl; ptrs = refl }) (λ _. modify_prev-Same p q x b)

module _ (malloc : ℕ → ℕ) where
  -- The address of the buffer that `GetCleanPtrBuffer` gives next.
  abbrev pub clean_address : MemoryManager → ℕ
  clean_address m = if not (m.reusable == null) then m.reusable else malloc m.calls

  -- What `chain_clean` does: a clean buffer behind `buf`, everything else as it was.
  pub record Chained (buf p : ℕ) (m m' : MemoryManager) : Type 0 where
    pub others : (x : ℕ) → x ≢ p → x ≢ buf → Same m.buffers m'.buffers x
    pub linked : (m'.buffers buf).next ≡ p
    pub kept : (m'.buffers buf).next_ptr ≡ (m.buffers buf).next_ptr
    pub held : (m'.buffers buf).ptrs ≡ (m.buffers buf).ptrs
    pub last : (m'.buffers p).next ≡ null
    pub fresh : (m'.buffers p).next_ptr ≡ 0
    pub old : m'.alloced_in_tx_old ≡ m.alloced_in_tx_old

  -- A clean buffer.
  record Clean (p : ℕ) (m : MemoryManager) (r : ℕ × MemoryManager) : Type 0 where
    pub address : r.0 ≡ p
    pub others : (x : ℕ) → x ≢ p → Same m.buffers r.1.buffers x
    pub last : (r.1.buffers p).next ≡ null
    pub fresh : (r.1.buffers p).next_ptr ≡ 0
    pub old : r.1.alloced_in_tx_old ≡ m.alloced_in_tx_old

  get_clean_ptr_buffer-Clean :
      (m : MemoryManager) → Clean (clean_address m) m (get_clean_ptr_buffer malloc m)
  unfolding get_clean_ptr_buffer allocate_ptr_buffer
  get_clean_ptr_buffer-Clean m = elim (Bool-cases (m.reusable == null)) [
    | inl e ↦ rw e (record {
      address = refl;
      others = λ x n. modify-Same-other (malloc m.calls) x clear m.buffers n;
      last = ap (λ (b : PtrBuffer). b.next) (modify_self (malloc m.calls) clear m.buffers);
      fresh = ap (λ (b : PtrBuffer). b.next_ptr) (modify_self (malloc m.calls) clear m.buffers);
      old = refl;
    })
    | inr e ↦ rw e (record {
      address = refl;
      others = λ x n.
          Same-trans m.buffers (set_prev_of (m.buffers m.reusable).next null m.buffers)
            (modify m.reusable clear (set_prev_of (m.buffers m.reusable).next null m.buffers)) x
            (set_prev_of-Same (m.buffers m.reusable).next null x m.buffers)
            (modify-Same-other m.reusable x clear
              (set_prev_of (m.buffers m.reusable).next null m.buffers) n);
      last =
          ap (λ (b : PtrBuffer). b.next)
            (modify_self m.reusable clear (set_prev_of (m.buffers m.reusable).next null m.buffers));
      fresh =
          ap (λ (b : PtrBuffer). b.next_ptr)
            (modify_self m.reusable clear (set_prev_of (m.buffers m.reusable).next null m.buffers));
      old = refl;
    })
  ]

  module _ (size buf p : ℕ) (m : MemoryManager) (n : p ≢ buf) (e : clean_address m ≡ p) where
    clean : Clean p m (get_clean_ptr_buffer malloc m)
    clean = subst (λ q. Clean q m (get_clean_ptr_buffer malloc m)) e (get_clean_ptr_buffer-Clean m)

    -- The buffers before the last two assignments.
    abbrev before : Buffers
    before = (get_clean_ptr_buffer malloc m).1.buffers

    abbrev behind : Buffers
    behind = modify buf (set_next p) before

    modify_next-other : (x : ℕ) → x ≢ buf → Same before (modify p (set_prev buf) behind) x
    modify_next-other x k =
        Same-trans before behind (modify p (set_prev buf) behind) x
          (modify-Same-other buf x (set_next p) before k) (modify_prev-Same p buf x behind)

    pub chain_clean_address : (chain_clean malloc size buf m).0 ≡ p
    unfolding chain_clean
    chain_clean_address = clean.address

    pub chain_clean-Chained : Chained buf p m (chain_clean malloc size buf m).1
    unfolding chain_clean
    chain_clean-Chained = rw clean.address (record {
      others = λ x k l.
          Same-trans m.buffers before (modify p (set_prev buf) behind) x (clean.others x k)
            (modify_next-other x l);
      linked =
          (modify_prev-Same p buf buf behind).next
          ∙ ap (λ (c : PtrBuffer). c.next) (modify_self buf (set_next p) before);
      kept =
          (modify_prev-Same p buf buf behind).next_ptr
          ∙ ap (λ (c : PtrBuffer). c.next_ptr) (modify_self buf (set_next p) before)
          ∙ (clean.others buf (λ h. n (sym h))).next_ptr;
      held =
          (modify_prev-Same p buf buf behind).ptrs
          ∙ ap (λ (c : PtrBuffer). c.ptrs) (modify_self buf (set_next p) before)
          ∙ (clean.others buf (λ h. n (sym h))).ptrs;
      last = (modify_next-other p n).next ∙ clean.last;
      fresh = (modify_next-other p n).next_ptr ∙ clean.fresh;
      old = clean.old;
    })

pub contents_one : (b : Buffers) (x : ℕ) → contents b (x ∷ []) ≡ pointers (b x).ptrs (b x).next_ptr
unfolding contents
contents_one b x = append-nil (pointers (b x).ptrs (b x).next_ptr)

pub Outside-last : (p y : ℕ) (xs : List ℕ) → Outside p (xs ++ y ∷ []) → Outside p xs × (y ≢ p)
Outside-last p y [] (n, _) = (tt, n)
Outside-last p y (x ∷ xs) (n, o) = ((n, (Outside-last p y xs o).0), (Outside-last p y xs o).1)

pub All-Same :
    (b b' : Buffers) (xs : List ℕ) (p q : ℕ)
    → ((x : ℕ) → x ≢ p → x ≢ q → Same b b' x)
    → Outside p xs
    → Outside q xs
    → All (Same b b') xs
All-Same b b' [] p q h o o' = tt
All-Same b b' (x ∷ xs) p q h (n, o) (n', o') = (h x n n', All-Same b b' xs p q h o o')

-- The buffers of the transaction's allocations: the full ones `xs` from `alloced_in_tx_old` on, then
-- `alloced_in_tx`, which has room and ends the chain.
pub record Recorded (size : ℕ) (m : MemoryManager) (xs : List ℕ) : Type 0 where
  pub linked : Linked m.buffers m.alloced_in_tx_old xs m.alloced_in_tx
  pub apart : Outside m.alloced_in_tx xs
  pub present : m.alloced_in_tx ≢ null
  pub ends : (m.buffers m.alloced_in_tx).next ≡ null
  pub room : (m.buffers m.alloced_in_tx).next_ptr < size

-- The pointers that the transaction has allocated, in order.
abbrev pub allocations : MemoryManager → List ℕ → List ℕ
allocations m xs = contents m.buffers (xs ++ m.alloced_in_tx ∷ [])

Outside-append : (p y : ℕ) (xs : List ℕ) → Outside p xs → y ≢ p → Outside p (xs ++ y ∷ [])
Outside-append p y [] o n = (n, tt)
Outside-append p y (x ∷ xs) (k, o) n = (k, Outside-append p y xs o n)

module _ (malloc : ℕ → ℕ) (size ret : ℕ) (positive : 0 < size) (m : MemoryManager) (xs : List ℕ)
    (r : Recorded size m xs) where
  abbrev buf : ℕ
  buf = m.alloced_in_tx

  -- The pointer is stored.
  abbrev stored : MemoryManager
  stored = record m { buffers = modify buf (push ret) m.buffers }

  -- The buffers of the transaction after the allocation.
  abbrev pub full_after : List ℕ
  full_after = if (stored.buffers buf).next_ptr == size then xs ++ buf ∷ [] else xs

  module _ (p : ℕ) (clean : clean_address malloc m ≡ p) (some_buffer : p ≢ null)
      (new : Outside p (xs ++ buf ∷ [])) where
    abbrev chained : MemoryManager
    chained = (chain_clean malloc size buf stored).1

    chain : Chained malloc buf p stored chained
    chain =
        chain_clean-Chained malloc size buf p stored (λ e. (Outside-last p buf xs new).1 (sym e))
          clean

    before-Same : All (Same stored.buffers chained.buffers) xs
    before-Same =
        All-Same stored.buffers chained.buffers xs p buf chain.others (Outside-last p buf xs new).0
          r.apart

    full : Recorded size (record chained { alloced_in_tx = p }) (xs ++ buf ∷ [])
    full = record {
      linked = rw chain.old (
          Linked-append chained.buffers m.alloced_in_tx_old buf p xs (buf ∷ [])
            (Linked-Same stored.buffers chained.buffers m.alloced_in_tx_old buf xs before-Same (
              Linked-Same m.buffers stored.buffers m.alloced_in_tx_old buf xs
                (modify-Same-Outside buf (push ret) m.buffers xs r.apart) r.linked))
            (refl, r.present, chain.linked));
      apart = new;
      present = some_buffer;
      ends = chain.last;
      room = rw chain.fresh positive;
    }
