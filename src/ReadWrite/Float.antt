-- ===== src/ReadWrite/Float.antt =====
-- The accesses to floating-point numbers of src/stm/read_write.h. A `float` or `double` is its bit
-- pattern: the code only moves it between members of the union.
use tlstm.Prelude.{ℕ, ◌+◌, ◌/◌, ◌^◌, ◌<◌, ◌≡◌, ap, ◌∙◌, arith, if_true, leb, ltb, ◌&&◌}
use tlstm.Tx.WordLog.{Memory}
use tlstm.ReadWrite.Union.{
  byte, uninitialised, load, store, b32, b64, word64_pos, word64_address, read_word, write_whole,
}
use tlstm.ReadWrite.Union.Bytes.{load-byte}
use tlstm.ReadWrite.Union.Window.{AreWords}
use tlstm.ReadWrite.Read.{first_word, read32, read64}
use tlstm.ReadWrite.Write.{all_ones, clear_mask, write_first, write32, write64}
use tlstm.ReadWrite.Write.Exact.{read64-write64}

unfoldable pub read_float : (stack : ℕ) → Memory → ℕ → ℕ
unfolding read32
read_float stack m addr =
    load 4 (b32 0) (store 4 (b32 0) (read32 stack m addr) (uninitialised stack))

unfoldable pub read_double : (stack : ℕ) → Memory → ℕ → ℕ
unfolding read64
read_double stack m addr =
    load 8 (b64 0) (store 8 (b64 0) (read64 stack m addr) (uninitialised stack))

unfoldable pub read_float_aligned : (stack : ℕ) → Memory → ℕ → ℕ
read_float_aligned stack m addr =
    load 4 (b32 (word64_pos addr / 4)) (first_word stack m (word64_address addr))

unfoldable pub read_double_aligned : (stack : ℕ) → Memory → ℕ → ℕ
read_double_aligned stack m addr =
    load 8 (b64 0) (store 8 (b64 0) (read_word m addr) (uninitialised stack))

module _ (stack stack' : ℕ) (m : Memory) (addr : ℕ) where
  unfoldable pub write_float : ℕ → Memory
  unfolding write32
  write_float valf =
      write32 stack stack' m addr (load 4 (b32 0) (store 4 (b32 0) valf (uninitialised stack)))

  unfoldable pub write_double : ℕ → Memory
  unfolding write64
  write_double vald =
      write64 stack stack' m addr (load 8 (b64 0) (store 8 (b64 0) vald (uninitialised stack)))

  unfoldable pub write_float_aligned : ℕ → Memory
  write_float_aligned valf =
      let pos = word64_pos addr / 4 in
      write_first m (word64_address addr) (store 4 (b32 pos) valf (uninitialised stack))
        (store 4 (b32 pos) (all_ones 4) (clear_mask stack'))

  unfoldable pub write_double_aligned : ℕ → Memory
  write_double_aligned vald =
      write_whole m addr (load 8 (b64 0) (store 8 (b64 0) vald (uninitialised stack)))

-- A number that is put into the union and taken out is the same.
through_union : (stack v : ℕ) → v < 2 ^ 64 → load 8 0 (store 8 0 v (uninitialised stack)) ≡ v
through_union stack v h = load-byte v 8 0 _ h (λ i lt.
    if_true {b = leb 0 (0 + i) && ltb (0 + i) 8} _ _ (ground arith) ∙ ap (byte v) (omega arith))

-- What `write_double` is given at any address, `read_double` returns there.
pub read_double-write_double :
    (stack stack' stack'' : ℕ) (m : Memory) (addr v : ℕ)
    → AreWords m
    → v < 2 ^ 64
    → read_double stack'' (write_double stack stack' m addr v) addr ≡ v
unfolding read_double write_double
read_double-write_double stack stack' stack'' m addr v w h =
    ap
      (λ x.
        load 8 0
          (store 8 0 (read64 stack'' (write64 stack stack' m addr x) addr) (uninitialised stack'')))
      (through_union stack v h)
    ∙ ap (λ x. load 8 0 (store 8 0 x (uninitialised stack'')))
        (read64-write64 stack stack' m w addr v stack'' h)
    ∙ through_union stack'' v h
