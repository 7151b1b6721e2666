-- ===== src/PrivatizationTree/Attained.antt =====
-- The timestamp at the root in src/stm/privatization_tree.h is MINIMUM_TS or one that a thread gave.
use tlstm.Prelude.{
  ℕ, zero, suc, ◌+◌, ◌-◌, ◌/◌, ◌%◌, ◌^◌, ◌<◌, ◌≤◌, ◌≡◌, ◌⊎◌, inl, inr, refl, sym, ap, ◌∙◌, arith,
  ◌==◌, if◌then◌else◌,
}
use tlstm.Common.Constants.{max_threads}
use tlstm.PrivatizationTree.{
  get_parent_node_idx, get_sibling_node_idx, calculate_parent_ts, ancestor,
}
use tlstm.PrivatizationTree.Index.{parent-sibling}
use tlstm.PrivatizationTree.Consistent.{Consistent, AtNode}

-- The leaf whose ancestor at the level is the sibling of the leaf's own.
flip : ℕ → ℕ → ℕ
flip k x = if x / 2 ^ k % 2 == 0 then x + 2 ^ k else x - 2 ^ k

sibling-ancestor :
    (k x : ℕ)
    → k ≤ 5
    → x < 64
    → (get_sibling_node_idx (ancestor k x) ≡ ancestor k (flip k x)) × (flip k x < 64)
unfolding ancestor flip get_sibling_node_idx get_parent_node_idx
sibling-ancestor zero x h l = (ground arith, ground arith)
sibling-ancestor (suc zero) x h l = (ground arith, ground arith)
sibling-ancestor (suc (suc zero)) x h l = (ground arith, ground arith)
sibling-ancestor (suc (suc (suc zero))) x h l = (ground arith, ground arith)
sibling-ancestor (suc (suc (suc (suc zero)))) x h l = (ground arith, ground arith)
sibling-ancestor (suc (suc (suc (suc (suc zero))))) x h l = (ground arith, ground arith)
sibling-ancestor (suc (suc (suc (suc (suc (suc k)))))) x h l = absurd (omega arith)

ancestor-parent : (k x : ℕ) → ancestor (suc k) x ≡ get_parent_node_idx (ancestor k x)
unfolding ancestor
ancestor-parent zero x = refl
ancestor-parent (suc k) x = ancestor-parent k (get_parent_node_idx x)

parent_ts-cases :
    (my sibling : ℕ)
    → (calculate_parent_ts my sibling ≡ my) ⊎ (calculate_parent_ts my sibling ≡ sibling)
unfolding calculate_parent_ts
parent_ts-cases my sibling = ground arith

-- A node's timestamp is that of one of the leaves below it.
pub attained :
    (k j x root : ℕ) (f : ℕ → ℕ)
    → k ≤ 6
    → x < max_threads
    → Consistent root f
    → ancestor j (ancestor k x) ≡ root
    → (y : ℕ) × (y < max_threads) × (f y ≡ f (ancestor k x))
unfolding Consistent AtNode ancestor
attained zero j x root f h l c r = (x, l, refl)
attained (suc k) j x root f h l c r =
    let here = ap (ancestor j) (sym (ancestor-parent k x)) ∙ r in
    elim (parent_ts-cases (f (ancestor k x)) (f (get_sibling_node_idx (ancestor k x)))) [
      | inl mine ↦
          let (y, small, e) = attained k (suc j) x root f (omega arith) l c here in
          (y, small, e ∙ sym (ap f (ancestor-parent k x) ∙ c (ancestor k x) j here ∙ mine))
      | inr other ↦
          let (flipped, flip_small) = sibling-ancestor k x (omega arith) l in
          let (y, small, e) = attained k (suc j) (flip k x) root f (omega arith) flip_small c (
            ap (ancestor (suc j)) (sym flipped)
            ∙ ap (ancestor j) (parent-sibling (ancestor k x))
            ∙ here) in
          (
            y,
            small,
            e ∙ sym (ap f (ancestor-parent k x) ∙ c (ancestor k x) j here ∙ other ∙ ap f flipped),
          )
    ]
