-- ===== src/PrivatizationTree/Index.antt =====
-- The indices of src/stm/privatization_tree.h: parents, siblings, and the root of a number of threads.
use tlstm.Prelude.{
  ℕ, zero, suc, ◌+◌, ◌-◌, ◌/◌, ◌^◌, ◌≤◌, ◌<◌, ◌≡◌, ◌≢◌, ◌⊎◌, inl, inr, arith, if_cases, subst, sym,
  false, leb,
}
use tlstm.Common.Constants.{max_threads}
use tlstm.PrivatizationTree.{
  get_parent_node_idx, get_sibling_node_idx, log2_from, tlstm_log2, ancestor,
}

pub parent-lt : (n : ℕ) → n < 127 → n < get_parent_node_idx n
unfolding get_parent_node_idx
parent-lt n h = omega arith

-- A parent is not a leaf.
pub parent-inner : (n : ℕ) → max_threads ≤ get_parent_node_idx n
unfolding get_parent_node_idx
parent-inner n = omega arith

pub parent-sibling : (n : ℕ) → get_parent_node_idx (get_sibling_node_idx n) ≡ get_parent_node_idx n
unfolding get_parent_node_idx get_sibling_node_idx
parent-sibling n = omega arith

pub sibling-sibling : (n : ℕ) → get_sibling_node_idx (get_sibling_node_idx n) ≡ n
unfolding get_sibling_node_idx
sibling-sibling n = omega arith

pub same_parent :
    (m n : ℕ)
    → get_parent_node_idx m ≡ get_parent_node_idx n
    → (m ≡ n) ⊎ (m ≡ get_sibling_node_idx n)
unfolding get_parent_node_idx get_sibling_node_idx
same_parent m n e = ground arith

pub parent-cases :
    (m n : ℕ)
    → (get_parent_node_idx m ≡ get_parent_node_idx n)
      ⊎ (get_parent_node_idx m ≢ get_parent_node_idx n)
unfolding get_parent_node_idx
parent-cases m n = ground arith

-- Below the root of all threads neither child is its own parent.
pub parent-apart :
    (n : ℕ)
    → n < 126
    → (n ≡ get_parent_node_idx n) ⊎ (get_sibling_node_idx n ≡ get_parent_node_idx n)
    → ⊥
unfolding get_parent_node_idx get_sibling_node_idx
parent-apart n h (inl e) = omega arith
parent-apart n h (inr e) = omega arith

ancestor-outside : (k n : ℕ) → 127 ≤ n → 127 ≤ ancestor k n
unfolding ancestor get_parent_node_idx
ancestor-outside zero n h = h
ancestor-outside (suc k) n h = ancestor-outside k (n / 2 + 64) (omega arith)

pub ancestor-le : (k n : ℕ) → ancestor k n < 127 → n ≤ ancestor k n
unfolding ancestor
ancestor-le zero n h = omega arith
ancestor-le (suc k) n h =
    let up = ancestor-le k (get_parent_node_idx n) h in
    elim (le_or_gt n) [
      | inl l ↦ omega (arith, up, parent-lt n l)
      | inr l ↦ absurd (omega (arith, ancestor-outside (suc k) n l))
    ]
  where
    le_or_gt : (n : ℕ) → (n < 127) ⊎ (127 ≤ n)
    le_or_gt n = ground arith

-- What `tlstm_log2` returns: the first exponent that is large enough.
log2_from_lem :
    (fuel i j input : ℕ)
    → i ≤ j
    → j < i + fuel
    → input ≤ 2 ^ j
    → (log2_from fuel i input ≤ j) × (input ≤ 2 ^ (log2_from fuel i input))
unfolding log2_from
log2_from_lem zero i j input l h p = absurd (omega arith)
log2_from_lem (suc fuel) i j input l h p =
    if_cases (λ r. (r ≤ j) × (input ≤ 2 ^ r)) (leb input (2 ^ i)) (λ t. (l, ground arith))
      (λ t. log2_from_lem fuel (suc i) j input (later i j t l p) (omega arith) p)
  where
    later : (i j : ℕ) → leb input (2 ^ i) ≡ false → i ≤ j → input ≤ 2 ^ j → suc i ≤ j
    later i j t l p = elim (same_or_less i j l) [
      | inl e ↦ absurd (above (2 ^ i) t (subst (λ k. input ≤ 2 ^ k) (sym e) p))
      | inr h ↦ h
    ]
      where
        same_or_less : (i j : ℕ) → i ≤ j → (i ≡ j) ⊎ (suc i ≤ j)
        same_or_less i j l = ground arith

        above : (n : ℕ) → leb input n ≡ false → input ≤ n → ⊥
        above n t p = ground arith

-- Two threads under one node of the level `k` have the same ancestor there.
same_ancestor : (k a b : ℕ) → k ≤ 6 → a < 2 ^ k → b < 2 ^ k → ancestor k a ≡ ancestor k b
unfolding ancestor get_parent_node_idx
same_ancestor zero a b h p q = omega arith
same_ancestor (suc zero) a b h p q = omega arith
same_ancestor (suc (suc zero)) a b h p q = omega arith
same_ancestor (suc (suc (suc zero))) a b h p q = omega arith
same_ancestor (suc (suc (suc (suc zero)))) a b h p q = omega arith
same_ancestor (suc (suc (suc (suc (suc zero))))) a b h p q = omega arith
same_ancestor (suc (suc (suc (suc (suc (suc zero)))))) a b h p q = omega arith
same_ancestor (suc (suc (suc (suc (suc (suc (suc k))))))) a b h p q = absurd (omega arith)

ancestor-small : (k a : ℕ) → k ≤ 6 → a < 2 ^ k → ancestor k a < 127
unfolding ancestor get_parent_node_idx
ancestor-small zero a h p = omega arith
ancestor-small (suc zero) a h p = omega arith
ancestor-small (suc (suc zero)) a h p = omega arith
ancestor-small (suc (suc (suc zero))) a h p = omega arith
ancestor-small (suc (suc (suc (suc zero)))) a h p = omega arith
ancestor-small (suc (suc (suc (suc (suc zero))))) a h p = omega arith
ancestor-small (suc (suc (suc (suc (suc (suc zero)))))) a h p = omega arith
ancestor-small (suc (suc (suc (suc (suc (suc (suc k))))))) a h p = absurd (omega arith)

pub log2-le : (count : ℕ) → count ≤ max_threads → tlstm_log2 count ≤ 6
unfolding tlstm_log2
log2-le count h = (log2_from_lem 64 0 6 count (omega arith) (omega arith) h).0

pub root-lt :
    (count : ℕ) → 0 < count → count ≤ max_threads → ancestor (tlstm_log2 count) (count - 1) < 127
unfolding tlstm_log2
root-lt count p h =
    let (small, enough) = log2_from_lem 64 0 6 count (omega arith) (omega arith) h in
    ancestor-small (log2_from 64 0 count) (count - 1) small (omega arith)

pub ancestor-root :
    (count tid : ℕ)
    → count ≤ max_threads
    → tid < count
    → ancestor (tlstm_log2 count) tid ≡ ancestor (tlstm_log2 count) (count - 1)
unfolding tlstm_log2
ancestor-root count tid h l =
    let (small, enough) = log2_from_lem 64 0 6 count (omega arith) (omega arith) h in
    same_ancestor (log2_from 64 0 count) tid (count - 1) small (omega arith) (omega arith)
