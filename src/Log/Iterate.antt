-- ===== src/Log/Iterate.antt =====
-- The iterator of src/stm/common/log.h.
use tlstm.Prelude.{
  ℕ, zero, suc, ◌+◌, ◌*◌, ◌≤◌, ◌<◌, ◌≡◌, Bool, true, false, not, ◌&&◌, Option, none, some, List, [],
  ◌∷◌, ◌++◌, arith, ◌==◌, ==_iff, if◌then◌else◌, Bool-cases, inl, inr, ap, sym, ◌∙◌, length,
}
use mathlib.Core.Path.{ap₂}
use mathlib.Core.List.{append_assoc, append-nil}
use native.Mathlib.Nat.{mul-le-mul_right}
use native.Mathlib.Numerals.{add-one}
use tlstm.Log.{Log}
use tlstm.Log.Contents.{
  before, before_start, before-suc, before-chunk, contents, length-before, IsValid,
}

pub record Iterator : Type 0 where
  pub chunk : ℕ
  pub element : ℕ
  pub last_chunk : ℕ
  pub last_element : ℕ

-- `operator==` compares the position only.
pub eq : Iterator → Iterator → Bool
eq i j = i.chunk == j.chunk && i.element == j.element

pub has_next : Iterator → Bool
has_next i = not (i.element == i.last_element && i.chunk == i.last_chunk)

-- `next()`, and `operator++`
pub next : ℕ → Iterator → Iterator
next chunk_length i =
    if i.element + 1 == chunk_length
    then record i { chunk = i.chunk + 1; element = 0 }
    else record i { element = i.element + 1 }

module _ {ℓ} {T : Type ℓ} where
  pub begin : Log T → Iterator
  begin l = record {
    chunk = 0;
    element = 0;
    last_chunk = l.last_chunk;
    last_element = l.next_element;
  }

  pub end : Log T → Iterator
  end l = record {
    chunk = l.last_chunk;
    element = l.next_element;
    last_chunk = l.last_chunk;
    last_element = l.next_element;
  }

  -- `*iter`
  pub deref : Log T → Iterator → T
  deref l i = l.elements i.chunk i.element

  abbrev prepend : T → Option (List T) → Option (List T)
  prepend x none = none
  prepend x (some xs) = some (x ∷ xs)

  -- `for (iter = begin(); iter.hasNext(); iter.next())`, with the elements that its body sees.
  pub walk : ℕ → ℕ → Log T → Iterator → Option (List T)
  walk chunk_length zero l i = none
  walk chunk_length (suc fuel) l i = elim (has_next i) [
    | true ↦ prepend (deref l i) (walk chunk_length fuel l (next chunk_length i))
    | false ↦ some []
  ]

-- A position is determined by its distance from the start.
chunk_unique : (n k e c d : ℕ) → e < n → d < n → k * n + e ≡ c * n + d → ¬ (k < c)
chunk_unique n k e c d he hd h lt =
    omega (arith, let le : suc k * n ≤ c * n = mul-le-mul_right n lt in le)

position_unique : (n k e c d : ℕ) → e < n → d < n → k * n + e ≡ c * n + d → (k ≡ c) × (e ≡ d)
position_unique n k e c d he hd h =
    let same : k ≡ c =
      omega (arith, chunk_unique n k e c d he hd h, chunk_unique n c d k e hd he (sym h)) in
    (same, omega (arith, ap (λ (t : ℕ). t * n) same))

both_eq : (a b c d : ℕ) → (a == b && c == d) ≡ true → (a ≡ b) × (c ≡ d)
both_eq a b c d h = ground arith

module _ (n : ℕ) where
  has_next_more :
      (r : ℕ) (i : Iterator)
      → i.chunk * n + i.element + suc r ≡ i.last_chunk * n + i.last_element
      → has_next i ≡ true
  unfolding has_next
  has_next_more r i h = elim (Bool-cases (i.element == i.last_element && i.chunk == i.last_chunk)) [
    | inl e ↦
        let (same_element, same_chunk) = both_eq i.element i.last_element i.chunk i.last_chunk e in
        absurd (omega (arith, ap (λ (t : ℕ). t * n) same_chunk))
    | inr e ↦ rw e
  ]

  has_next_done :
      (i : Iterator)
      → i.element < n
      → i.last_element < n
      → i.chunk * n + i.element ≡ i.last_chunk * n + i.last_element
      → has_next i ≡ false
  unfolding has_next
  has_next_done i he hd h = ground (arith, position_unique n _ _ _ _ he hd h)

  record Next (i : Iterator) : Type 0 where
    in_chunk : (next n i).element < n
    one_on : (next n i).chunk * n + (next n i).element ≡ i.chunk * n + i.element + 1
    same_chunk : (next n i).last_chunk ≡ i.last_chunk
    same_element : (next n i).last_element ≡ i.last_element

  next_lem : (i : Iterator) → i.element < n → Next i
  unfolding next
  next_lem i h = elim (Bool-cases (i.element + 1 == n)) [
    | inl e ↦ record {
      in_chunk = ground arith;
      one_on = rw e (omega (arith, (==_iff _ _).0 e));
      same_chunk = rw e;
      same_element = rw e;
    }
    | inr e ↦ record {
      in_chunk = ground arith;
      one_on = rw e (omega arith);
      same_chunk = rw e;
      same_element = rw e;
    }
  ]

  module _ {ℓ} {T : Type ℓ} (l : Log T) where
    before-next :
        (i : Iterator)
        → before n l.elements (next n i).chunk (next n i).element
          ≡ before n l.elements i.chunk i.element ++ deref l i ∷ []
    unfolding next deref
    before-next i = elim (Bool-cases (i.element + 1 == n)) [
      | inl e ↦
          rw (e, add-one)
            (before-chunk n l.elements i.chunk
              ∙ ap (before n l.elements i.chunk) (sym ((==_iff _ _).0 e) ∙ add-one i.element)
              ∙ before-suc n l.elements i.chunk i.element)
      | inr e ↦ rw (e, add-one) (before-suc n l.elements i.chunk i.element)
    ]

    -- The walk from a position before the end reads what is behind it.
    walk_from :
        (r : ℕ) (i : Iterator)
        → i.element < n
        → i.last_element < n
        → i.chunk * n + i.element + r ≡ i.last_chunk * n + i.last_element
        → (ys : List T) × (walk n (suc r) l i ≡ some ys)
          × (before n l.elements i.chunk i.element ++ ys
              ≡ before n l.elements i.last_chunk i.last_element)
    unfolding walk
    walk_from zero i he hd h =
        let at_end : (i.chunk ≡ i.last_chunk) × (i.element ≡ i.last_element) =
          position_unique n i.chunk i.element i.last_chunk i.last_element he hd (omega arith) in
        ([], rw (has_next_done i he hd (omega arith), walk), rw (at_end.0, at_end.1) (append-nil _))
    walk_from (suc r) i he hd h =
        let step = next_lem i he in
        let (ys, ran, read) =
          walk_from r (next n i) step.in_chunk (rw step.same_element hd)
            (rw (step.one_on, step.same_chunk, step.same_element) (omega arith)) in
        (
          deref l i ∷ ys,
          rw (has_next_more r i h, ran, walk),
          sym (append_assoc (before n l.elements i.chunk i.element) (deref l i ∷ []) ys)
              ∙ ap (λ xs. xs ++ ys) (sym (before-next i))
              ∙ read
              ∙ ap₂ (before n l.elements) step.same_chunk step.same_element,
        )

    -- The loop over a log sees its elements in order, each once, and then stops.
    pub walk-contents :
        IsValid n l → walk n (suc (length (contents n l))) l (begin l) ≡ some (contents n l)
    unfolding contents begin
    walk-contents v =
        let size = length-before n l.elements l.last_chunk l.next_element in
        let (ys, ran, read) =
          walk_from (length (contents n l)) (begin l) (omega (arith, v.room)) v.room
            (omega (arith, size)) in
        ran ∙ ap some (ap (λ xs. xs ++ ys) (sym (before_start n l.elements)) ∙ read)
