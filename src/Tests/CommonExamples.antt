-- ===== src/Tests/CommonExamples.antt =====
-- Examples for the theorems on src/stm/common.
use tlstm.Prelude.{◌≡◌, false, List, [], ◌∷◌}
use tlstm.Common.LargeLockSet.{Call, set_call, clear_call, contains, run, reset, member, run-member}

abbrev calls : List Call
calls = set_call 3 ∷ clear_call ∷ set_call 5 ∷ set_call 5 ∷ []

run-member_example : contains 5 (run calls reset) ≡ member 5 calls false
run-member_example = run-member 5 calls
