-- ===== src/Tests/LogExamples.antt =====
-- Examples for the theorems on src/stm/common/log.h: logs with chunks of two elements.
use tlstm.Prelude.{
  ℕ, suc, ◌+◌, ◌*◌, ◌<◌, ◌≡◌, ◌≢◌, ◌↔◌, none, some, [], ◌∷◌, ◌++◌, length, ap, arith,
}
use tlstm.Log.{Place, Log, insert, get}
use tlstm.Log.Contents.{contents, IsValid, contents-insert, Dropped, remove-contents, length-before}
use tlstm.Log.Iterate.{walk, begin, walk-contents}
use tlstm.Log.Size.{get_size, get_size_lem, get_lem}

-- Three elements, the last of them in the second chunk.
abbrev three : Log ℕ
three = record { chunks = 2; elements = λ c e. c * 2 + e; last_chunk = 1; next_element = 1 }

three-IsValid : IsValid 2 three
three-IsValid = record { room = omega arith; linked = omega arith }

contents-insert_example :
    IsValid 2 (insert 2 9 three) × (contents 2 (insert 2 9 three) ≡ contents 2 three ++ 9 ∷ [])
contents-insert_example = contents-insert 2 9 three three-IsValid

three_nonempty : contents 2 three ≢ []
unfolding contents
three_nonempty h = omega (arith, length-before 2 three.elements 1 1, ap length h)

remove-contents_example : Dropped 2 three
remove-contents_example = remove-contents 2 three three-IsValid three_nonempty

walk-contents_example :
    walk 2 (suc (length (contents 2 three))) three (begin three) ≡ some (contents 2 three)
walk-contents_example = walk-contents 2 three three-IsValid

get_size_lem_example :
    ((fuel : ℕ) → ◌≡◌ {A = ℕ} 1 0 → get_size 2 (suc fuel) three ≡ some (length (contents 2 three)))
    × ((fuel : ℕ) → ◌≢◌ {A = ℕ} 1 0 → get_size 2 fuel three ≡ none)
get_size_lem_example = get_size_lem 2 three

get_lem_example :
    (p : Place) × (get 2 2 three ≡ some p)
    × (p.chunk * 2 + p.element ≡ 2)
    × ((p.element < 2) ↔ (◌≢◌ {A = ℕ} 2 2))
get_lem_example = get_lem 2 three 2 (omega arith) (omega arith)
