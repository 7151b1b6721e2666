-- ===== src/Memory/Chain.antt =====
-- Chains of buffers: what they link, the pointers they hold, and what leaves them alone.
use tlstm.Prelude.{
  ℕ, zero, suc, ◌+◌, ◌<◌, ◌≡◌, ◌≢◌, refl, sym, ap, subst, ◌≤◌, ◌∙◌, arith, ◌==◌, if_false, some,
  List, [], ◌∷◌, ◌++◌, length, All, Bool-cases, inl, inr, ==_iff, update,
}
use mathlib.Core.List.{append-nil, append_assoc}
use tlstm.Memory.{
  null, PtrBuffer, Buffers, MemoryManager, modify, pointers, free_ptrs, free_chain, push,
}

-- The buffers `xs` are linked from `p` on, and the last one is followed by `q`.
abbrev pub Linked : Buffers → ℕ → List ℕ → ℕ → Type 0
Linked b p [] q = p ≡ q
Linked b p (x ∷ xs) q = (p ≡ x) × (x ≢ null) × Linked b (b x).next xs q

-- The pointers that the buffers `xs` hold, in order.
unfoldable pub contents : Buffers → List ℕ → List ℕ
unfolding pointers
contents b [] = []
contents b (x ∷ xs) = pointers (b x).ptrs (b x).next_ptr ++ contents b xs

abbrev pub Outside : ℕ → List ℕ → Type 0
Outside p xs = All (λ x. x ≢ p) xs

-- Two states of the buffers that link and hold the same.
pub record Same (b b' : Buffers) (x : ℕ) : Type 0 where
  pub next : (b' x).next ≡ (b x).next
  pub next_ptr : (b' x).next_ptr ≡ (b x).next_ptr
  pub ptrs : (b' x).ptrs ≡ (b x).ptrs

module _ (b b' : Buffers) where
  pub Linked-Same :
      (p q : ℕ) (xs : List ℕ) → All (Same b b') xs → Linked b p xs q → Linked b' p xs q
  Linked-Same p q [] s l = l
  Linked-Same p q (x ∷ xs) (s, ss) (e, n, l) = (e, n, rw s.next (Linked-Same (b x).next q xs ss l))

  pub contents-Same : (xs : List ℕ) → All (Same b b') xs → contents b' xs ≡ contents b xs
  unfolding contents
  contents-Same [] s = refl
  contents-Same (x ∷ xs) (s, ss) = rw (s.next_ptr, s.ptrs, contents-Same xs ss)

pub modify-other :
    (p x : ℕ) (f : PtrBuffer → PtrBuffer) (b : Buffers) → x ≢ p → modify p f b x ≡ b x
unfolding modify
modify-other p x f b n = elim (Bool-cases (x == p)) [
  | inl e ↦ absurd (n ((==_iff x p).0 e))
  | inr e ↦ rw e refl
]

pub modify_self : (p : ℕ) (f : PtrBuffer → PtrBuffer) (b : Buffers) → modify p f b p ≡ f (b p)
unfolding modify
modify_self p f b = rw ((==_iff p p).1 refl) refl

pub modify-Same-other :
    (p x : ℕ) (f : PtrBuffer → PtrBuffer) (b : Buffers) → x ≢ p → Same b (modify p f b) x
modify-Same-other p x f b n = record {
  next = rw (modify-other p x f b n) refl;
  next_ptr = rw (modify-other p x f b n) refl;
  ptrs = rw (modify-other p x f b n) refl;
}

pub modify-Same-Outside :
    (p : ℕ) (f : PtrBuffer → PtrBuffer) (b : Buffers) (xs : List ℕ)
    → Outside p xs
    → All (Same b (modify p f b)) xs
modify-Same-Outside p f b [] o = tt
modify-Same-Outside p f b (x ∷ xs) (n, o) =
    (modify-Same-other p x f b n, modify-Same-Outside p f b xs o)

-- The loop over a chain frees its pointers in order, with one round more than its buffers.
pub free_chain_lem :
    (fuel p : ℕ) (xs : List ℕ) (m : MemoryManager)
    → Linked m.buffers p xs null
    → length xs < fuel
    → free_chain fuel p m ≡ some (record m { freed = m.freed ++ contents m.buffers xs })
unfolding free_chain free_ptrs contents
free_chain_lem zero p xs m l f = absurd (omega arith)
free_chain_lem (suc fuel) p [] m l f =
    rw ((==_iff p null).1 l) (ap (λ l. some (record m { freed = l })) (sym (append-nil m.freed)))
free_chain_lem (suc fuel) p (x ∷ xs) m (e, n, l) f = rw e (
    if_false {b = x == null} _ _ (ground arith)
    ∙ free_chain_lem fuel (m.buffers x).next xs (free_ptrs x m) l (omega arith)
    ∙ ap (λ l. some (record m { freed = l }))
        (append_assoc m.freed (pointers (m.buffers x).ptrs (m.buffers x).next_ptr)
          (contents m.buffers xs)))

pub contents-append :
    (b : Buffers) (xs ys : List ℕ) → contents b (xs ++ ys) ≡ contents b xs ++ contents b ys
unfolding contents
contents-append b [] ys = refl
contents-append b (x ∷ xs) ys =
    ap (λ l. pointers (b x).ptrs (b x).next_ptr ++ l) (contents-append b xs ys)
    ∙ sym (append_assoc (pointers (b x).ptrs (b x).next_ptr) (contents b xs) (contents b ys))

pub Linked-append :
    (b : Buffers) (p q r : ℕ) (xs ys : List ℕ)
    → Linked b p xs q
    → Linked b q ys r
    → Linked b p (xs ++ ys) r
Linked-append b p q r [] ys l k = subst (λ x. Linked b x ys r) (sym l) k
Linked-append b p q r (x ∷ xs) ys (e, n, l) k = (e, n, Linked-append b (b x).next q r xs ys l k)

-- Filling a place beyond the pointers leaves them.
pointers-update :
    (ptrs : ℕ → ℕ) (end i v : ℕ) → end ≤ i → pointers (update ptrs i v) end ≡ pointers ptrs end
unfolding pointers
pointers-update ptrs zero i v h = refl
pointers-update ptrs (suc end) i v h =
    rw
      (
        pointers-update ptrs end i v (omega arith),
        if_false {b = end == i} v (ptrs end) (ground arith),
      )
      refl

-- A pushed pointer is the last one.
pub pointers-push :
    (v : ℕ) (b : PtrBuffer)
    → pointers (push v b).ptrs (push v b).next_ptr ≡ pointers b.ptrs b.next_ptr ++ v ∷ []
unfolding pointers push
pointers-push v b =
    ap (pointers (update b.ptrs b.next_ptr v)) {x = b.next_ptr + 1} {y = suc b.next_ptr}
      (omega arith)
    ∙ rw
        (
          pointers-update b.ptrs b.next_ptr b.next_ptr v (omega arith),
          (==_iff b.next_ptr b.next_ptr).1 refl,
        )
        refl
