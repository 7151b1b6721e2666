-- ===== src/PrivatizationTree.antt =====
-- src/stm/privatization_tree.h: the smallest timestamp of the running transactions, kept in a tree.
-- A call of `setNonMinimumTs` runs here with no other one between its loads and stores. The counter of
-- the threads, which the objects point to, is a field beside the static arrays.
use tlstm.Prelude.{
  ℕ, zero, suc, ◌+◌, ◌-◌, ◌*◌, ◌/◌, ◌%◌, ◌^◌, Bool, true, false, not, ◌&&◌, ◌||◌, Option, none,
  some, ltb, leb, ◌==◌, if◌then◌else◌, update,
}
use tlstm.Common.Constants.{max_threads, minimum_ts}
pub mod Index
pub mod Consistent
pub mod Attained
pub mod Wait

-- For the `do` blocks: none stands for fuel that did not suffice.
infixl 1 ◌>>=◌
abbrev ◌>>=◌ {ℓ κ} : {A : Type ℓ} {B : Type κ} → Option A → (A → Option B) → Option B
none >>= f = none
some a >>= f = f a

pub record PrivatizationTree : Type 0 where
  pub tree_nodes : ℕ → ℕ
  pub proxy_nodes : ℕ → ℕ
  pub map_count_to_root_idx : ℕ → ℕ
  pub thread_count : ℕ

unfoldable pub get_parent_node_idx : ℕ → ℕ
get_parent_node_idx node_idx = node_idx / 2 + max_threads

-- `node_idx & ~1` drops the lowest bit.
unfoldable pub get_sibling_node_idx : ℕ → ℕ
get_sibling_node_idx node_idx = (node_idx - node_idx % 2) + (1 - node_idx % 2)

unfoldable pub get_proxy_node_idx : ℕ → ℕ
get_proxy_node_idx node_idx = node_idx / 2

-- The counter is cut to an `unsigned`, whose predecessor wraps.
unfoldable pub get_root_node_idx : PrivatizationTree → ℕ
get_root_node_idx t = t.map_count_to_root_idx ((t.thread_count + (2 ^ 32 - 1)) % 2 ^ 32)

unfoldable pub is_root_node_idx : ℕ → PrivatizationTree → Bool
is_root_node_idx node_idx t = node_idx == get_root_node_idx t

unfoldable pub calculate_parent_ts : ℕ → ℕ → ℕ
calculate_parent_ts my_ts sibling_ts =
    if my_ts == minimum_ts || not (sibling_ts == minimum_ts) && ltb sibling_ts my_ts
    then sibling_ts
    else my_ts

-- The first `do` loop: the timestamp of the parent goes to the proxy, until the sibling stands still.
unfoldable pub set_proxy : ℕ → ℕ → ℕ → PrivatizationTree → Option PrivatizationTree
set_proxy zero node_idx ts t = none
set_proxy (suc fuel) node_idx ts t =
    let sibling_ts = t.tree_nodes (get_sibling_node_idx node_idx) in
    let parent_ts = calculate_parent_ts ts sibling_ts in
    let t' = record t {
      proxy_nodes = update t.proxy_nodes (get_proxy_node_idx node_idx) parent_ts;
    } in
    let rest = set_proxy fuel node_idx ts t' in
    if sibling_ts == t'.tree_nodes (get_sibling_node_idx node_idx) then some t' else rest

-- The second one: the parent takes the proxy's timestamp; the flag is `should_break`.
unfoldable pub set_parent : ℕ → ℕ → PrivatizationTree → Option (Bool × PrivatizationTree)
set_parent zero node_idx t = none
set_parent (suc fuel) node_idx t =
    let proxy_ts = t.proxy_nodes (get_proxy_node_idx node_idx) in
    let should_break = proxy_ts == t.tree_nodes (get_parent_node_idx node_idx) in
    let t' =
      if should_break
      then t
      else record t { tree_nodes = update t.tree_nodes (get_parent_node_idx node_idx) proxy_ts } in
    let rest = set_parent fuel node_idx t' in
    if proxy_ts == t'.proxy_nodes (get_proxy_node_idx node_idx)
    then some (should_break, t')
    else rest

-- The outer loop, which goes up from `node_idx` to the root or to a parent that does not change.
unfoldable pub go_up : ℕ → ℕ → PrivatizationTree → Option PrivatizationTree
go_up zero node_idx t = none
go_up (suc fuel) node_idx t =
    let rest = go_up fuel (get_parent_node_idx node_idx) in
    if is_root_node_idx node_idx t then some t else do
      t₁ ← set_proxy fuel node_idx (t.tree_nodes node_idx) t
      (should_break, t₂) ← set_parent fuel node_idx t₁
      if should_break then some t₂ else rest t₂

unfoldable pub set_non_minimum_ts : ℕ → ℕ → ℕ → PrivatizationTree → Option PrivatizationTree
set_non_minimum_ts fuel my_tree_node_idx ts t =
    go_up fuel my_tree_node_idx (record t { tree_nodes = update t.tree_nodes my_tree_node_idx ts })

-- The test that ends the loop of `wait`, which only reads, on the tree that it reads.
unfoldable pub wait_over : ℕ → PrivatizationTree → Bool
wait_over ts t =
    let root_ts = t.tree_nodes (get_root_node_idx t) in root_ts == minimum_ts || leb ts root_ts

-- `tlstm_log2` from `i` on, `fuel` being the values of `i` that are left.
unfoldable pub log2_from : ℕ → ℕ → ℕ → ℕ
log2_from zero i input = 0
log2_from (suc fuel) i input =
    let rest = log2_from fuel (suc i) input in if leb input (2 ^ i) then i else rest

unfoldable pub tlstm_log2 : ℕ → ℕ
tlstm_log2 input = log2_from 64 0 input

-- The inner loop of `InitializeCountToRootMap`.
unfoldable pub ancestor : ℕ → ℕ → ℕ
ancestor zero node_idx = node_idx
ancestor (suc go_up_count) node_idx = ancestor go_up_count (get_parent_node_idx node_idx)

unfoldable pub initialize_count_to_root_map : PrivatizationTree → PrivatizationTree
initialize_count_to_root_map t = record t {
  map_count_to_root_idx = λ i. ancestor (tlstm_log2 (i + 1)) i;
}

unfoldable pub clean : PrivatizationTree → PrivatizationTree
clean t = record t { tree_nodes = λ i. minimum_ts; proxy_nodes = λ i. minimum_ts }

unfoldable pub global_init : PrivatizationTree → PrivatizationTree
global_init t = clean (initialize_count_to_root_map t)

-- The identifier that `ThreadInit` keeps too is an argument of the calls.
unfoldable pub thread_init : ℕ → PrivatizationTree → PrivatizationTree
thread_init tc t = record t { thread_count = tc }
