-- ===== src/Tests/TreeExamples.antt =====
-- Examples for the theorems on src/stm/privatization_tree.h: three threads.
use tlstm.Prelude.{ℕ, ◌≡◌, ◌<◌, ◌⊎◌, ◌↔◌, ◌≤◌, true, some, List, [], ◌∷◌, All, arith}
use tlstm.Common.Constants.{minimum_ts}
use tlstm.PrivatizationTree.{PrivatizationTree, wait_over}
use tlstm.PrivatizationTree.Wait.{set_all, last_ts, initial, Among, set_all-wait_over}

abbrev unused : PrivatizationTree
unused = record {
  tree_nodes = λ i. 7;
  proxy_nodes = λ i. 7;
  map_count_to_root_idx = λ i. 0;
  thread_count = 0;
}

-- Thread 2 starts, then thread 0, thread 2 ends, thread 1 starts.
abbrev calls : List (ℕ × ℕ)
calls = (2, 5) ∷ (0, 9) ∷ (2, 0) ∷ (1, 12) ∷ []

calls-Among : All (Among 3) calls
unfolding Among
calls-Among = (omega arith, (omega arith, (omega arith, (omega arith, tt))))

abbrev three : PrivatizationTree
three = initial 3 unused

set_all-wait_over_example :
    (t' : PrivatizationTree) × (set_all 7 calls three ≡ some t')
    × ((ts : ℕ)
        → (wait_over ts t' ≡ true) ↔ (
            (tid : ℕ)
            → tid < 3
            → (last_ts calls (λ i. minimum_ts) tid ≡ minimum_ts)
              ⊎ (ts ≤ last_ts calls (λ i. minimum_ts) tid)))
set_all-wait_over_example =
    set_all-wait_over 3 7 calls unused (omega arith) (omega arith) (omega arith) calls-Among
