-- ===== src/PrivatizationTree/Wait.antt =====
-- What the end of a `wait` in src/stm/privatization_tree.h says of the threads.
use tlstm.Prelude.{
  ℕ, zero, suc, ◌-◌, ◌+◌, ◌%◌, ◌^◌, ◌<◌, ◌≤◌, ◌≡◌, ◌⊎◌, ◌↔◌, inl, inr, refl, sym, ap, subst, ◌∙◌,
  arith, true, Option, none, some, ◌==◌, ◌||◌, leb, if◌then◌else◌, if_false, update, List, [], ◌∷◌,
  All,
}
use tlstm.Common.Constants.{max_threads, minimum_ts}
use tlstm.PrivatizationTree.{
  PrivatizationTree, get_parent_node_idx, get_sibling_node_idx, get_root_node_idx,
  calculate_parent_ts, set_non_minimum_ts, wait_over, tlstm_log2, ancestor, global_init,
  thread_init, clean, initialize_count_to_root_map,
}
use tlstm.PrivatizationTree.Index.{log2-le, root-lt, ancestor-root}
use tlstm.PrivatizationTree.Attained.{attained}
use tlstm.PrivatizationTree.Consistent.{Consistent, AtNode, set_non_minimum_ts_lem}

-- The calls of setNonMinimumTs, each the thread and its timestamp, one after the other.
unfoldable pub set_all : ℕ → List (ℕ × ℕ) → PrivatizationTree → Option PrivatizationTree
set_all fuel [] t = some t
set_all fuel ((tid, ts) ∷ calls) t = elim (set_non_minimum_ts fuel tid ts t) [
  | none ↦ none
  | some t' ↦ set_all fuel calls t'
]

-- The timestamp that each thread gave last.
unfoldable pub last_ts : List (ℕ × ℕ) → (ℕ → ℕ) → ℕ → ℕ
last_ts [] last = last
last_ts ((tid, ts) ∷ calls) last = last_ts calls (update last tid ts)

parent_ts-le :
    (my sibling : ℕ)
    → 0 < my
    → (0 < calculate_parent_ts my sibling) × (calculate_parent_ts my sibling ≤ my)
unfolding calculate_parent_ts
parent_ts-le my sibling h = ground arith

-- The root is below every running transaction under it.
root-le :
    (root k n : ℕ) (f : ℕ → ℕ)
    → Consistent root f
    → ancestor k n ≡ root
    → 0 < f n
    → (0 < f root) × (f root ≤ f n)
unfolding Consistent AtNode ancestor
root-le root zero n f c r p = subst (λ x. (0 < f x) × (f x ≤ f n)) r (p, omega arith)
root-le root (suc k) n f c r p =
    let (parent_positive, parent_le) = parent_ts-le (f n) (f (get_sibling_node_idx n)) p in
    let (positive, le) =
      root-le root k (get_parent_node_idx n) f c r (rw (c n k r) parent_positive) in
    (positive, omega (arith, c n k r))

-- A tree of the first `count` threads whose timestamps are `last`.
record Tracks (count : ℕ) (last : ℕ → ℕ) (t : PrivatizationTree) : Type 0 where
  pub root : get_root_node_idx t ≡ ancestor (tlstm_log2 count) (count - 1)
  pub consistent : Consistent (get_root_node_idx t) t.tree_nodes
  pub leaf : (m : ℕ) → m < max_threads → t.tree_nodes m ≡ last m

-- The tree that `count` threads share after GlobalInit.
unfoldable pub initial : ℕ → PrivatizationTree → PrivatizationTree
initial count t = thread_init count (global_init t)

initial-Tracks :
    (count : ℕ) (t : PrivatizationTree)
    → count ≤ max_threads
    → 0 < count
    → Tracks count (λ i. minimum_ts) (initial count t)
unfolding initial global_init thread_init clean initialize_count_to_root_map get_root_node_idx
    Consistent AtNode calculate_parent_ts
initial-Tracks count t h p =
    let last = (count + (2 ^ 32 - 1)) % 2 ^ 32 in
    let last_eq : last ≡ count - 1 = omega arith in
    let count_eq : last + 1 ≡ count = omega arith in
    record {
      root =
          ap (λ c. ancestor (tlstm_log2 c) last) count_eq
          ∙ ap (ancestor (tlstm_log2 count)) last_eq;
      consistent = λ n k r. refl;
      leaf = λ m b. refl;
    }

set-Tracks :
    (count fuel tid ts : ℕ) (last : ℕ → ℕ) (t : PrivatizationTree)
    → count ≤ max_threads
    → 0 < count
    → 6 < fuel
    → tid < count
    → Tracks count last t
    → (t' : PrivatizationTree) × (set_non_minimum_ts fuel tid ts t ≡ some t')
      × Tracks count (update last tid ts) t'
set-Tracks count fuel tid ts last t h p f l tracks =
    let root_small = root-lt count p h in
    let levels_small = log2-le count h in
    let (t', runs, root, consistent, leaf) =
      set_non_minimum_ts_lem (tlstm_log2 count) fuel tid ts t (omega arith)
        (ancestor-root count tid h l ∙ sym tracks.root) (rw tracks.root root_small) (omega arith)
        tracks.consistent in
    (
      t',
      runs,
      record {
        root = root ∙ tracks.root;
        consistent = subst (λ r. Consistent r t'.tree_nodes) (sym root) consistent;
        leaf = λ m b. leaf m b ∙ update-eq tid ts m t.tree_nodes last (tracks.leaf m b);
      },
    )
  where
    update-eq : (i a m : ℕ) (g g' : ℕ → ℕ) → g m ≡ g' m → update g i a m ≡ update g' i a m
    update-eq i a m g g' e = ap (λ x. if m == i then a else x) e

unfoldable pub Among : ℕ → ℕ × ℕ → Type 0
Among count call = call.0 < count

set_all-Tracks :
    (count fuel : ℕ) (calls : List (ℕ × ℕ)) (last : ℕ → ℕ) (t : PrivatizationTree)
    → count ≤ max_threads
    → 0 < count
    → 6 < fuel
    → All (Among count) calls
    → Tracks count last t
    → (t' : PrivatizationTree) × (set_all fuel calls t ≡ some t')
      × Tracks count (last_ts calls last) t'
unfolding set_all last_ts Among
set_all-Tracks count fuel [] last t h p f a tracks = (t, refl, tracks)
set_all-Tracks count fuel ((tid, ts) ∷ calls) last t h p f (l, a) tracks =
    let (t₁, runs, tracks₁) = set-Tracks count fuel tid ts last t h p f l tracks in
    let (t₂, runs₂, tracks₂) =
      set_all-Tracks count fuel calls (update last tid ts) t₁ h p f a tracks₁ in
    (t₂, rw (runs, set_all) runs₂, tracks₂)

wait_over-Tracks :
    (count ts tid : ℕ) (last : ℕ → ℕ) (t : PrivatizationTree)
    → count ≤ max_threads
    → tid < count
    → Tracks count last t
    → wait_over ts t ≡ true
    → (last tid ≡ minimum_ts) ⊎ (ts ≤ last tid)
unfolding wait_over
wait_over-Tracks count ts tid last t h l tracks over = elim (zero_or_not (t.tree_nodes tid)) [
  | inl z ↦ inl (sym (tracks.leaf tid (omega arith)) ∙ z)
  | inr p ↦
      let (positive, le) =
        root-le (get_root_node_idx t) (tlstm_log2 count) tid t.tree_nodes tracks.consistent
          (ancestor-root count tid h l ∙ sym tracks.root) p in
      inr (
        subst (λ x. ts ≤ x) (tracks.leaf tid (omega arith))
          (above (t.tree_nodes (get_root_node_idx t)) (t.tree_nodes tid) positive le over))
]
  where
    zero_or_not : (n : ℕ) → (n ≡ minimum_ts) ⊎ (0 < n)
    zero_or_not n = ground arith

    above : (root n : ℕ) → 0 < root → root ≤ n → (root == minimum_ts || leb ts root) ≡ true → ts ≤ n
    above root n p l o = ground arith

-- A thread that makes no call keeps its timestamp.
last_ts-outside :
    (count y : ℕ) (calls : List (ℕ × ℕ)) (last : ℕ → ℕ)
    → All (Among count) calls
    → count ≤ y
    → last_ts calls last y ≡ last y
unfolding last_ts Among
last_ts-outside count y [] last a h = refl
last_ts-outside count y ((tid, ts) ∷ calls) last (l, a) h =
    last_ts-outside count y calls (update last tid ts) a h
    ∙ if_false {b = y == tid} _ _ (ground arith)

Tracks-wait_over :
    (count ts : ℕ) (last : ℕ → ℕ) (t : PrivatizationTree)
    → count ≤ max_threads
    → 0 < count
    → Tracks count last t
    → ((y : ℕ) → count ≤ y → last y ≡ minimum_ts)
    → ((tid : ℕ) → tid < count → (last tid ≡ minimum_ts) ⊎ (ts ≤ last tid))
    → wait_over ts t ≡ true
unfolding wait_over ancestor
Tracks-wait_over count ts last t h p tracks outside each =
    let (y, small, e) =
      attained (tlstm_log2 count) 0 (count - 1) (get_root_node_idx t) t.tree_nodes (log2-le count h)
        (omega arith) tracks.consistent (sym tracks.root) in
    passes (t.tree_nodes (get_root_node_idx t)) (
      subst (λ (n : ℕ). (n ≡ minimum_ts) ⊎ (ts ≤ n))
        (sym (tracks.leaf y small) ∙ e ∙ ap t.tree_nodes (sym tracks.root)) (in_or_out y))
  where
    in_or_out : (y : ℕ) → (last y ≡ minimum_ts) ⊎ (ts ≤ last y)
    in_or_out y = elim (count_cases y) [ inl l ↦ each y l | inr g ↦ inl (outside y g) ]
      where
        count_cases : (y : ℕ) → (y < count) ⊎ (count ≤ y)
        count_cases y = ground arith

    passes : (n : ℕ) → (n ≡ minimum_ts) ⊎ (ts ≤ n) → (n == minimum_ts || leb ts n) ≡ true
    passes n q = ground arith

-- After GlobalInit, let the first `count` of at most 64 threads give timestamps to the tree by calls of
-- setNonMinimumTs, in any order but not at the same time, with fuel for 7 levels. Then all the calls
-- return, and on the tree they leave the test that ends `wait` holds of a timestamp exactly when none
-- of these threads is below it: each one's last timestamp is MINIMUM_TS, which stands for no
-- transaction, or at least the one waited for.
pub set_all-wait_over :
    (count fuel : ℕ) (calls : List (ℕ × ℕ)) (t : PrivatizationTree)
    → count ≤ max_threads
    → 0 < count
    → 6 < fuel
    → All (Among count) calls
    → (t' : PrivatizationTree) × (set_all fuel calls (initial count t) ≡ some t')
      × ((ts : ℕ)
          → (wait_over ts t' ≡ true) ↔ (
              (tid : ℕ)
              → tid < count
              → (last_ts calls (λ i. minimum_ts) tid ≡ minimum_ts)
                ⊎ (ts ≤ last_ts calls (λ i. minimum_ts) tid)))
set_all-wait_over count fuel calls t h p f a =
    let last = last_ts calls (λ i. minimum_ts) in
    let (t', runs, tracks) =
      set_all-Tracks count fuel calls (λ i. minimum_ts) (initial count t) h p f a
        (initial-Tracks count t h p) in
    (
      t',
      runs,
      λ ts. (
        λ over tid l. wait_over-Tracks count ts tid last t' h l tracks over,
        λ each.
            Tracks-wait_over count ts last t' h p tracks
              (λ y g. last_ts-outside count y calls (λ i. minimum_ts) a g) each,
      ),
    )
