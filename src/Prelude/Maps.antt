-- ===== src/Prelude/Maps.antt =====
-- Arrays and tables of the program as functions, with the write of one place.
use Prim.Native.Nat.{ℕ}
use tlstm.Prelude.Tests.{◌==◌, if◌then◌else◌}

abbrev pub update {ℓ} : {A : Type ℓ} → (ℕ → A) → ℕ → A → ℕ → A
update f i a j = if j == i then a else f j
