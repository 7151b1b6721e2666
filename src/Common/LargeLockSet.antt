-- ===== src/Common/LargeLockSet.antt =====
-- src/stm/common/large_lock_set.h: a set of lock indices that is emptied by advancing a version.
use tlstm.Prelude.{
  ℕ, ◌+◌, ◌-◌, ◌^◌, ◌≤◌, ◌<◌, ◌≡◌, refl, Bool, true, false, ◌||◌, arith, ◌==◌, if◌then◌else◌,
  update, List, [], ◌∷◌,
}

abbrev min_set_version : ℕ
min_set_version = 0

abbrev max_set_version : ℕ
max_set_version = 2 ^ 32 - 1

-- `table` has `SIZE` cells of `uint32_t`; an index outside them is not used.
pub record LargeLockSet : Type 0 where
  pub version : ℕ
  pub table : ℕ → ℕ

-- `Reset()`, and the constructor.
pub reset : LargeLockSet
reset = record { version = min_set_version + 1; table = λ _. min_set_version }

pub contains : ℕ → LargeLockSet → Bool
contains el s = s.table el == s.version

pub set : ℕ → LargeLockSet → Bool × LargeLockSet
unfolding contains
set el s =
    if contains el s then (true, s) else (false, record s { table = update s.table el s.version })

pub clear : LargeLockSet → LargeLockSet
unfolding reset
clear s = if s.version == max_set_version then reset else record s { version = s.version + 1 }

-- No cell is ahead of the version, which is a positive `uint32_t`.
pub record IsValid (s : LargeLockSet) : Type 0 where
  pub positive : 0 < s.version
  pub bounded : s.version ≤ max_set_version
  pub stale : (el : ℕ) → s.table el ≤ s.version

reset-IsValid : IsValid reset
unfolding reset
reset-IsValid = record { positive = omega arith; bounded = omega arith; stale = λ el. omega arith }

set-IsValid : (el : ℕ) {s : LargeLockSet} → IsValid s → IsValid (set el s).1
unfolding set
set-IsValid el v = record {
  positive = ground (arith, v.positive);
  bounded = ground (arith, v.bounded);
  stale = λ e. ground (arith, v.stale e);
}

clear-IsValid : {s : LargeLockSet} → IsValid s → IsValid (clear s)
unfolding clear
clear-IsValid {s} v = record {
  positive = ground (arith, v.positive);
  bounded = ground (arith, v.bounded);
  stale = λ e. ground (arith, v.stale e);
}

-- The calls of a client, in order.
pub data Call : Type 0 where
  set_call : ℕ → Call
  clear_call : Call

pub run : List Call → LargeLockSet → LargeLockSet
run [] s = s
run (set_call el ∷ cs) s = run cs (set el s).1
run (clear_call ∷ cs) s = run cs (clear s)

-- What the calls do to a set: whether `el` is in it afterwards, `now` being whether it is before.
pub member : ℕ → List Call → Bool → Bool
member el [] now = now
member el (set_call e ∷ cs) now = member el cs (now || el == e)
member el (clear_call ∷ cs) now = member el cs false

contains-set : (el e : ℕ) (s : LargeLockSet) → contains el (set e s).1 ≡ (contains el s || el == e)
unfolding set
contains-set el e s = ground arith

contains-clear : (el : ℕ) {s : LargeLockSet} → IsValid s → contains el (clear s) ≡ false
unfolding contains clear
contains-clear el v = ground (arith, v.stale el, v.positive)

contains-run :
    (el : ℕ) (cs : List Call) {s : LargeLockSet}
    → IsValid s
    → contains el (run cs s) ≡ member el cs (contains el s)
unfolding run member
contains-run el [] v = refl
contains-run el (set_call e ∷ cs) {s} v =
    rw (contains-run el cs (set-IsValid e v), contains-set el e s) refl
contains-run el (clear_call ∷ cs) v =
    rw (contains-run el cs (clear-IsValid v), contains-clear el v) refl

-- After any sequence of calls on a new set, however often the 32-bit version wraps on the way,
-- exactly the indices that were set since the last clear are contained.
pub run-member : (el : ℕ) (cs : List Call) → contains el (run cs reset) ≡ member el cs false
unfolding reset contains
run-member el cs = contains-run el cs reset-IsValid
