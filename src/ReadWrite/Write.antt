-- ===== src/ReadWrite/Write.antt =====
-- Transactional writes of src/stm/read_write.h: the aligned ones and those at any address, of 1, 2, 4
-- and 8 bytes. `stack` and `stack'` are what the unset unions `val` and `mask` hold.
pub mod Covered
pub mod Exact
pub mod LowBit
use tlstm.Prelude.{ℕ, ◌+◌, ◌-◌, ◌/◌, ◌^◌, ◌==◌, ◌||◌, if◌then◌else◌}
use tlstm.Tx.WordLog.{Memory}
use tlstm.ReadWrite.Union.{
  Union, uninitialised, load, store, b8, b16, b32, b64, mask_16, mask_32, mask_64, word64_pos,
  word64_address, write_word, write_whole,
}

-- `~0` and `~1` in a member of `n` bytes.
abbrev pub all_ones : ℕ → ℕ
all_ones n = 256 ^ n - 1

abbrev pub not_one : ℕ → ℕ
not_one n = 256 ^ n - 2

-- `mask.b64[0] = 0`, and `mask.b64[1] = 0` after it.
abbrev pub clear_mask : (stack : ℕ) → Union
clear_mask stack = store 8 (b64 0) 0 (uninitialised stack)

abbrev pub clear_both : (stack : ℕ) → Union
clear_both stack = store 8 (b64 1) 0 (clear_mask stack)

-- `tx->WriteWord(first_word_addr, (Word)val.b64[0], (Word)mask.b64[0])`
abbrev pub write_first : Memory → (first_word_addr : ℕ) → (val mask : Union) → Memory
write_first m first_word_addr val mask =
    write_word m first_word_addr (load 8 (b64 0) val) (load 8 (b64 0) mask)

-- The same, then `tx->WriteWord(first_word_addr + 1, (Word)val.b64[1], (Word)mask.b64[1])`.
abbrev pub write_both : Memory → (first_word_addr : ℕ) → (val mask : Union) → Memory
write_both m first_word_addr val mask =
    write_word (write_first m first_word_addr val mask) (first_word_addr + 8) (load 8 (b64 1) val)
      (load 8 (b64 1) mask)

module _ (stack stack' : ℕ) (m : Memory) (addr : ℕ) where
  unfoldable pub write8aligned : ℕ → Memory
  write8aligned val8 =
      let pos = word64_pos addr in
      write_first m (word64_address addr) (store 1 (b8 pos) val8 (uninitialised stack))
        (store 1 (b8 pos) (all_ones 1) (clear_mask stack'))

  unfoldable pub write16aligned : ℕ → Memory
  write16aligned val16 =
      let pos = word64_pos addr / 2 in
      write_first m (word64_address addr) (store 2 (b16 pos) val16 (uninitialised stack))
        (store 2 (b16 pos) (all_ones 2) (clear_mask stack'))

  unfoldable pub write32aligned : ℕ → Memory
  write32aligned val32 =
      let pos = word64_pos addr / 4 in
      write_first m (word64_address addr) (store 4 (b32 pos) val32 (uninitialised stack))
        (store 4 (b32 pos) (all_ones 4) (clear_mask stack'))

  unfoldable pub write64aligned : ℕ → Memory
  write64aligned val64 = write_whole m addr val64

  unfoldable pub write8 : ℕ → Memory
  unfolding write8aligned
  write8 val8 = write8aligned val8

  -- One branch of `write16`: the member at `off` is set in `val` and filled with `ones` in `mask`.
  unfoldable pub write16_at : (off ones val16 : ℕ) → Memory
  write16_at off ones val16 =
      write_first m (word64_address addr) (store 2 off val16 (uninitialised stack))
        (store 2 off ones (clear_mask stack'))

  unfoldable pub write16 : ℕ → Memory
  unfolding write16_at
  write16 val16 =
      let pos = word64_pos addr in
      if pos == 0 || pos == 2 || pos == 4 || pos == 6
      then write16_at (b16 (pos / 2)) (not_one 2) val16
      else if pos == 1
      then write16_at (mask_16 0) (all_ones 2) val16
      else if pos == 3
      then write16_at (mask_16 1) (all_ones 2) val16
      else if pos == 5
      then write16_at (mask_16 2) (all_ones 2) val16
      else write_both m (word64_address addr) (store 2 (mask_16 3) val16 (uninitialised stack))
          (store 2 (mask_16 3) (all_ones 2) (clear_both stack'))

  -- The branches of `write32` within one word, and those across two words.
  unfoldable pub write32_at : (off val32 : ℕ) → Memory
  write32_at off val32 =
      write_first m (word64_address addr) (store 4 off val32 (uninitialised stack))
        (store 4 off (not_one 4) (clear_mask stack'))

  unfoldable pub write32_across : (off val32 : ℕ) → Memory
  write32_across off val32 =
      write_both m (word64_address addr) (store 4 off val32 (uninitialised stack))
        (store 4 off (not_one 4) (clear_both stack'))

  unfoldable pub write32 : ℕ → Memory
  unfolding write32_at write32_across
  write32 val32 =
      let pos = word64_pos addr in
      if pos == 0 || pos == 4
      then write32_at (b32 (pos / 4)) val32
      else if pos == 1
      then write32_at (mask_32 1 0) val32
      else if pos == 2
      then write32_at (mask_32 2 0) val32
      else if pos == 3
      then write32_at (mask_32 3 0) val32
      else if pos == 5
      then write32_across (mask_32 1 1) val32
      else if pos == 6
      then write32_across (mask_32 2 1) val32
      else write32_across (mask_32 3 1) val32

  -- The branches of `write64` that set the member at `off`.
  unfoldable pub write64_across : (off val64 : ℕ) → Memory
  write64_across off val64 =
      write_both m (word64_address addr) (store 8 off val64 (uninitialised stack))
        (store 8 off (all_ones 8) (clear_both stack'))

  unfoldable pub write64 : ℕ → Memory
  unfolding write64_across
  write64 val64 =
      let pos = word64_pos addr in
      if pos == 0
      then write_whole m addr val64
      else if pos == 1
      then write64_across (mask_64 1) val64
      else if pos == 2
      then write64_across (mask_64 2) val64
      else if pos == 3
      then write64_across (mask_64 3) val64
      else if pos == 4
      then write64_across (mask_64 4) val64
      else if pos == 5
      then write64_across (mask_64 5) val64
      else if pos == 6
      then write64_across (mask_64 6) val64
      else write64_across (mask_64 7) val64
