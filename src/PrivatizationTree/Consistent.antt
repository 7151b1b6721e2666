-- ===== src/PrivatizationTree/Consistent.antt =====
-- A call of `setNonMinimumTs` in src/stm/privatization_tree.h keeps each parent the minimum of its children.
use tlstm.Prelude.{
  ℕ, zero, suc, ◌+◌, ◌-◌, ◌/◌, ◌%◌, ◌^◌, ◌<◌, ◌≡◌, ◌≢◌, ◌⊎◌, inl, inr, refl, sym, ap, subst, ◌∙◌,
  arith, Bool, true, if◌then◌else◌, ==_iff, false, some, ◌==◌, ==_refl, if_cases, if_true, if_false,
  update, Bool-cases,
}
use tlstm.Common.Constants.{max_threads}
use tlstm.PrivatizationTree.{
  PrivatizationTree, get_parent_node_idx, get_sibling_node_idx, get_proxy_node_idx,
  get_root_node_idx, is_root_node_idx, calculate_parent_ts, set_proxy, set_parent, go_up,
  set_non_minimum_ts, ancestor,
}
use tlstm.PrivatizationTree.Index.{
  parent-lt, parent-sibling, sibling-sibling, parent-inner, same_parent, parent-cases, parent-apart,
  ancestor-le,
}

calculate_parent_ts_comm : (a b : ℕ) → calculate_parent_ts a b ≡ calculate_parent_ts b a
unfolding calculate_parent_ts
calculate_parent_ts_comm a b = ground arith

-- What the nodes hold at a place.
unfoldable pub AtNode : (ℕ → ℕ) → ℕ → Type 0
AtNode nodes n =
    nodes (get_parent_node_idx n) ≡ calculate_parent_ts (nodes n) (nodes (get_sibling_node_idx n))

-- Every node below the root has the minimum of itself and its sibling at its parent.
unfoldable pub Consistent : ℕ → (ℕ → ℕ) → Type 0
unfolding AtNode
Consistent root nodes = (n k : ℕ) → ancestor (suc k) n ≡ root → AtNode nodes n

-- The same but for the two children of `p`.
ConsistentBut : ℕ → ℕ → (ℕ → ℕ) → Type 0
unfolding AtNode
ConsistentBut p root nodes =
    (n k : ℕ) → ancestor (suc k) n ≡ root → get_parent_node_idx n ≢ p → AtNode nodes n

set_proxy_lem :
    (fuel n ts : ℕ) (t : PrivatizationTree)
    → set_proxy (suc fuel) n ts t
      ≡ some (record t {
        proxy_nodes =
            update t.proxy_nodes
              (get_proxy_node_idx n)
              (calculate_parent_ts ts (t.tree_nodes (get_sibling_node_idx n)));
      })
unfolding set_proxy
set_proxy_lem fuel n ts t = if_true _ _ (==_refl (t.tree_nodes (get_sibling_node_idx n)))

-- The tree after the second loop.
raised : ℕ → PrivatizationTree → PrivatizationTree
raised n t =
    let proxy_ts = t.proxy_nodes (get_proxy_node_idx n) in
    if proxy_ts == t.tree_nodes (get_parent_node_idx n)
    then t
    else record t { tree_nodes = update t.tree_nodes (get_parent_node_idx n) proxy_ts }

raised-proxy : (n : ℕ) (t : PrivatizationTree) → (raised n t).proxy_nodes ≡ t.proxy_nodes
unfolding raised
raised-proxy n t =
    if_cases (λ (u : PrivatizationTree). u.proxy_nodes ≡ t.proxy_nodes)
      (t.proxy_nodes (get_proxy_node_idx n) == t.tree_nodes (get_parent_node_idx n)) {x = t}
      {y = record t {
        tree_nodes =
            update t.tree_nodes (get_parent_node_idx n) (t.proxy_nodes (get_proxy_node_idx n));
      }}
      (λ e. refl) (λ e. refl)

set_parent_lem :
    (fuel n : ℕ) (t : PrivatizationTree)
    → set_parent (suc fuel) n t
      ≡ some
          (t.proxy_nodes (get_proxy_node_idx n) == t.tree_nodes (get_parent_node_idx n), raised n t)
unfolding set_parent raised
set_parent_lem fuel n t = if_true _ _ (
    ap (λ (p : ℕ → ℕ). t.proxy_nodes (get_proxy_node_idx n) == p (get_proxy_node_idx n))
      (raised-proxy n t)
    ∙ ==_refl (t.proxy_nodes (get_proxy_node_idx n)))

update_self : (f : ℕ → ℕ) (i a : ℕ) → update f i a i ≡ a
update_self f i a = if_true _ _ (==_refl i)

update_other : (f : ℕ → ℕ) (i a j : ℕ) → j ≢ i → update f i a j ≡ f j
update_other f i a j n = if_false {b = j == i} _ _ (ground arith)

AtNode-Same :
    (f g : ℕ → ℕ) (n : ℕ)
    → g (get_parent_node_idx n) ≡ f (get_parent_node_idx n)
    → g n ≡ f n
    → g (get_sibling_node_idx n) ≡ f (get_sibling_node_idx n)
    → AtNode f n
    → AtNode g n
unfolding AtNode
AtNode-Same f g n p s q a = rw (p, s, q) a

AtNode-sibling :
    (f : ℕ → ℕ) (m n : ℕ) → get_parent_node_idx m ≡ get_parent_node_idx n → AtNode f n → AtNode f m
unfolding AtNode
AtNode-sibling f m n e a = elim (same_parent m n e) [
  | inl s ↦ subst (λ x. AtNode f x) (sym s) a
  | inr s ↦
      subst (λ x. AtNode f x) (sym s)
        (rw (parent-sibling n, sibling-sibling n)
          (a ∙ calculate_parent_ts_comm (f n) (f (get_sibling_node_idx n))))
]

-- A parent that gets the minimum of its children leaves only its own parent in doubt.
update-ConsistentBut :
    (root n v : ℕ) (f : ℕ → ℕ)
    → n < 126
    → v ≡ calculate_parent_ts (f n) (f (get_sibling_node_idx n))
    → ConsistentBut (get_parent_node_idx n) root f
    → ConsistentBut
        (get_parent_node_idx (get_parent_node_idx n))
        root
        (update f (get_parent_node_idx n) v)
unfolding ConsistentBut AtNode
update-ConsistentBut root n v f h e c m k r q = elim (parent-cases m n) [
  | inl s ↦ AtNode-sibling (update f p v) m n s here
  | inr d ↦
      AtNode-Same f (update f p v) m (update_other f p v (get_parent_node_idx m) d)
        (update_other f p v m (λ s. q (ap get_parent_node_idx s)))
        (update_other f p v (get_sibling_node_idx m)
          (λ s. q (sym (parent-sibling m) ∙ ap get_parent_node_idx s)))
        (c m k r d)
]
  where
    p : ℕ
    p = get_parent_node_idx n

    here : AtNode (update f p v) n
    here =
        update_self f p v
        ∙ e
        ∙ sym (
            ap (λ x. calculate_parent_ts x (update f p v (get_sibling_node_idx n)))
              (update_other f p v n (λ s. parent-apart n h (inl s)))
            ∙ ap (calculate_parent_ts (f n))
                (update_other f p v (get_sibling_node_idx n) (λ s. parent-apart n h (inr s))))

module _ (fuel n : ℕ) (t : PrivatizationTree) where
  abbrev parent_ts : ℕ
  parent_ts = calculate_parent_ts (t.tree_nodes n) (t.tree_nodes (get_sibling_node_idx n))

  abbrev announced : PrivatizationTree
  announced = record t { proxy_nodes = update t.proxy_nodes (get_proxy_node_idx n) parent_ts }

  abbrev continued : PrivatizationTree
  continued = record announced {
    tree_nodes = update t.tree_nodes (get_parent_node_idx n) parent_ts;
  }

  proxy_ts : announced.proxy_nodes (get_proxy_node_idx n) ≡ parent_ts
  proxy_ts = update_self t.proxy_nodes (get_proxy_node_idx n) parent_ts

  abbrev same_ts : Bool
  same_ts =
      announced.proxy_nodes (get_proxy_node_idx n) == announced.tree_nodes (get_parent_node_idx n)

  same_ts-true : parent_ts ≡ t.tree_nodes (get_parent_node_idx n) → same_ts ≡ true
  same_ts-true e =
      (==_iff (announced.proxy_nodes (get_proxy_node_idx n))
          (announced.tree_nodes (get_parent_node_idx n))).1
        (proxy_ts ∙ e)

  same_ts-false : parent_ts ≢ t.tree_nodes (get_parent_node_idx n) → same_ts ≡ false
  same_ts-false e = elim (Bool-cases same_ts) [
    | inl b ↦ absurd (
        e (
          sym proxy_ts
          ∙ (==_iff (announced.proxy_nodes (get_proxy_node_idx n))
                (announced.tree_nodes (get_parent_node_idx n))).0
              b))
    | inr b ↦ b
  ]

  raised-same : same_ts ≡ true → raised n announced ≡ announced
  unfolding raised
  raised-same b = if_true {b = same_ts} _ _ b

  raised-other : same_ts ≡ false → raised n announced ≡ continued
  unfolding raised
  raised-other b =
      if_false {b = same_ts} _ _ b
      ∙ ap
          (λ (v : ℕ). record announced {
            tree_nodes = update t.tree_nodes (get_parent_node_idx n) v;
          })
          proxy_ts

  go_up_break :
      is_root_node_idx n t ≡ false
      → parent_ts ≡ t.tree_nodes (get_parent_node_idx n)
      → go_up (suc (suc fuel)) n t ≡ some announced
  unfolding go_up
  go_up_break r e =
      if_false _ _ r
      ∙ rw (set_proxy_lem fuel n (t.tree_nodes n) t, set_parent_lem fuel n announced)
          (if_true {b = same_ts} _ _ (same_ts-true e) ∙ ap some (raised-same (same_ts-true e)))

  go_up_continue :
      is_root_node_idx n t ≡ false
      → parent_ts ≢ t.tree_nodes (get_parent_node_idx n)
      → go_up (suc (suc fuel)) n t ≡ go_up (suc fuel) (get_parent_node_idx n) continued
  unfolding go_up
  go_up_continue r e =
      if_false _ _ r
      ∙ rw (set_proxy_lem fuel n (t.tree_nodes n) t, set_parent_lem fuel n announced)
          (if_false {b = same_ts} _ _ (same_ts-false e)
            ∙ ap (go_up (suc fuel) (get_parent_node_idx n)) (raised-other (same_ts-false e)))

-- What a call leaves as it was: the map, the counter and every leaf but the caller's own.
record Kept (t t' : PrivatizationTree) : Type 0 where
  pub map_count : t'.map_count_to_root_idx ≡ t.map_count_to_root_idx
  pub count : t'.thread_count ≡ t.thread_count
  pub leaf : (m : ℕ) → m < max_threads → t'.tree_nodes m ≡ t.tree_nodes m

Kept-trans : (t u v : PrivatizationTree) → Kept t u → Kept u v → Kept t v
Kept-trans t u v a b = record {
  map_count = b.map_count ∙ a.map_count;
  count = b.count ∙ a.count;
  leaf = λ m h. b.leaf m h ∙ a.leaf m h;
}

Kept-root : (t t' : PrivatizationTree) → Kept t t' → get_root_node_idx t' ≡ get_root_node_idx t
unfolding get_root_node_idx
Kept-root t t' k =
    ap (λ (f : ℕ → ℕ). f ((t'.thread_count + (2 ^ 32 - 1)) % 2 ^ 32)) k.map_count
    ∙ ap (λ (c : ℕ). t.map_count_to_root_idx ((c + (2 ^ 32 - 1)) % 2 ^ 32)) k.count

continued-Kept : (fuel n : ℕ) (t : PrivatizationTree) → Kept t (continued fuel n t)
unfolding get_parent_node_idx
continued-Kept fuel n t = record {
  map_count = refl;
  count = refl;
  leaf = λ m h. update_other t.tree_nodes (n / 2 + max_threads) _ m (omega arith);
}

GoesUp : ℕ → ℕ → PrivatizationTree → ℕ → Type 0
unfolding Consistent
GoesUp fuel n t root =
    (t' : PrivatizationTree) × (go_up fuel n t ≡ some t')
    × Consistent root t'.tree_nodes
    × Kept t t'

same_or_not : (a b : ℕ) → (a ≡ b) ⊎ (a ≢ b)
same_or_not a b = ground arith

below-root :
    (n m j root : ℕ)
    → n ≡ root
    → root < 127
    → ancestor (suc j) m ≡ root
    → get_parent_node_idx m ≢ get_parent_node_idx n
unfolding ancestor
below-root n m j root r b s e =
    omega (arith, ancestor-le j (get_parent_node_idx m) (rw s b), parent-lt n (rw r b))

ConsistentBut-Consistent :
    (root n : ℕ) (f : ℕ → ℕ)
    → AtNode f n
    → ConsistentBut (get_parent_node_idx n) root f
    → Consistent root f
unfolding Consistent ConsistentBut
ConsistentBut-Consistent root n f here c m k s = elim (parent-cases m n) [
  | inl e ↦ AtNode-sibling f m n e here
  | inr d ↦ c m k s d
]

is_root-true :
    (n : ℕ) (t : PrivatizationTree) → n ≡ get_root_node_idx t → is_root_node_idx n t ≡ true
unfolding is_root_node_idx
is_root-true n t e = (==_iff n (get_root_node_idx t)).1 e

is_root-false :
    (n : ℕ) (t : PrivatizationTree) → n ≢ get_root_node_idx t → is_root_node_idx n t ≡ false
unfolding is_root_node_idx
is_root-false n t d = ground arith

up_bounds : (k n root : ℕ) → ancestor (suc k) n ≡ root → root < 127 → (n < 126) × (n ≢ root)
unfolding ancestor
up_bounds k n root r b =
    let up = ancestor-le k (get_parent_node_idx n) (rw r b) in
    let whole = ancestor-le (suc k) n (rw r b) in
    let over = parent-lt n (omega (arith, r)) in (omega (arith, r), λ e. omega (arith, r))

go_up_lem :
    (k fuel n : ℕ) (t : PrivatizationTree)
    → ancestor k n ≡ get_root_node_idx t
    → get_root_node_idx t < 127
    → k < fuel
    → ConsistentBut (get_parent_node_idx n) (get_root_node_idx t) t.tree_nodes
    → GoesUp fuel n t (get_root_node_idx t)
unfolding GoesUp Consistent ConsistentBut AtNode go_up get_root_node_idx ancestor
go_up_lem k zero n t r b f c = absurd (omega arith)
go_up_lem zero (suc fuel) n t r b f c = (t, at_root, whole, kept)
  where
    kept : Kept t t
    kept = record { map_count = refl; count = refl; leaf = λ m h. refl }

    at_root : go_up (suc fuel) n t ≡ some t
    at_root = if_true {b = is_root_node_idx n t} _ _ (is_root-true n t r)

    whole : Consistent (get_root_node_idx t) t.tree_nodes
    whole m j s = c m j s (below-root n m j (get_root_node_idx t) r b s)
go_up_lem (suc k) (suc zero) n t r b f c = absurd (omega arith)
go_up_lem (suc k) (suc (suc fuel)) n t r b f c =
    elim (same_or_not (parent_ts fuel n t) (t.tree_nodes (get_parent_node_idx n))) [
      | inl e ↦ (
        announced fuel n t,
        go_up_break fuel n t not_root e,
        ConsistentBut-Consistent (get_root_node_idx t) n t.tree_nodes (sym e) c,
        record { map_count = refl; count = refl; leaf = λ m h. refl },
      )
      | inr d ↦
          let (t', runs, consistent, kept) =
            go_up_lem k (suc fuel) (get_parent_node_idx n) (continued fuel n t) r b (omega arith) (
              update-ConsistentBut (get_root_node_idx t) n (parent_ts fuel n t) t.tree_nodes low
                refl c) in
          (
            t',
            go_up_continue fuel n t not_root d ∙ runs,
            consistent,
            Kept-trans t (continued fuel n t) t' (continued-Kept fuel n t) kept,
          )
    ]
  where
    not_root : is_root_node_idx n t ≡ false
    not_root = is_root-false n t (up_bounds k n (get_root_node_idx t) r b).1

    low : n < 126
    low = (up_bounds k n (get_root_node_idx t) r b).0

-- A leaf that changes leaves only its parent in doubt.
leaf-ConsistentBut :
    (root tid ts : ℕ) (f : ℕ → ℕ)
    → tid < max_threads
    → Consistent root f
    → ConsistentBut (get_parent_node_idx tid) root (update f tid ts)
unfolding Consistent ConsistentBut
leaf-ConsistentBut root tid ts f h c m k s d =
    AtNode-Same f (update f tid ts) m (update_other f tid ts (get_parent_node_idx m) (above m))
      (update_other f tid ts m (λ e. d (ap get_parent_node_idx e)))
      (update_other f tid ts (get_sibling_node_idx m)
        (λ e. d (sym (parent-sibling m) ∙ ap get_parent_node_idx e)))
      (c m k s)
  where
    above : (m : ℕ) → get_parent_node_idx m ≢ tid
    above m e = omega (arith, parent-inner m)

-- A call of setNonMinimumTs by a thread that is `levels` below the root, with no other call at the same time,
-- returns on a consistent tree, whether it stops early or at the root; its tree is consistent, holds the new
-- timestamp at the thread's leaf and the old ones at the other leaves.
pub set_non_minimum_ts_lem :
    (levels fuel tid ts : ℕ) (t : PrivatizationTree)
    → tid < max_threads
    → ancestor levels tid ≡ get_root_node_idx t
    → get_root_node_idx t < 127
    → levels < fuel
    → Consistent (get_root_node_idx t) t.tree_nodes
    → (t' : PrivatizationTree) × (set_non_minimum_ts fuel tid ts t ≡ some t')
      × (get_root_node_idx t' ≡ get_root_node_idx t)
      × Consistent (get_root_node_idx t) t'.tree_nodes
      × ((m : ℕ) → m < max_threads → t'.tree_nodes m ≡ update t.tree_nodes tid ts m)
unfolding set_non_minimum_ts get_root_node_idx GoesUp Consistent
set_non_minimum_ts_lem levels fuel tid ts t h r b f c =
    let (t', runs, consistent, kept) =
      go_up_lem levels fuel tid (record t { tree_nodes = update t.tree_nodes tid ts }) r b f
        (leaf-ConsistentBut (get_root_node_idx t) tid ts t.tree_nodes h c) in
    (
      t',
      runs,
      Kept-root (record t { tree_nodes = update t.tree_nodes tid ts }) t' kept,
      consistent,
      kept.leaf,
    )
