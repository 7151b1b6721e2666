-- ===== src/ReadWrite/Read.antt =====
-- Transactional reads of src/stm/read_write.h: the aligned ones and those at any address, of 1, 2, 4
-- and 8 bytes. `stack` is what an unset union holds.
pub mod Exact
use tlstm.Prelude.{ℕ, ◌+◌, ◌/◌, ◌==◌, ◌||◌, if◌then◌else◌}
use tlstm.Tx.WordLog.{Memory}
use tlstm.ReadWrite.Union.{
  Union, uninitialised, load, store, b8, b16, b32, b64, mask_16, mask_32, mask_64, word64_pos,
  word64_address, read_word,
}

-- `value.b64[0] = tx->ReadWord(first_word_addr)` in a fresh union.
abbrev pub first_word : (stack : ℕ) → Memory → (first_word_addr : ℕ) → Union
first_word stack m first_word_addr =
    store 8 (b64 0) (read_word m first_word_addr) (uninitialised stack)

-- `value.b64[1] = tx->ReadWord(first_word_addr + 1)`
abbrev pub second_word : Memory → (first_word_addr : ℕ) → Union → Union
second_word m first_word_addr value = store 8 (b64 1) (read_word m (first_word_addr + 8)) value

unfoldable pub read8aligned : (stack : ℕ) → Memory → ℕ → ℕ
read8aligned stack m addr = load 1 (b8 (word64_pos addr)) (first_word stack m (word64_address addr))

unfoldable pub read16aligned : (stack : ℕ) → Memory → ℕ → ℕ
read16aligned stack m addr =
    load 2 (b16 (word64_pos addr / 2)) (first_word stack m (word64_address addr))

unfoldable pub read32aligned : (stack : ℕ) → Memory → ℕ → ℕ
read32aligned stack m addr =
    load 4 (b32 (word64_pos addr / 4)) (first_word stack m (word64_address addr))

unfoldable pub read64aligned : Memory → ℕ → ℕ
read64aligned m addr = read_word m addr

unfoldable pub read8 : (stack : ℕ) → Memory → ℕ → ℕ
unfolding read8aligned
read8 stack m addr = read8aligned stack m addr

unfoldable pub read16 : (stack : ℕ) → Memory → ℕ → ℕ
read16 stack m addr =
    let pos = word64_pos addr in
    let first_word_addr = word64_address addr in
    let value = first_word stack m first_word_addr in
    if pos == 0 || pos == 2 || pos == 4 || pos == 6
    then load 2 (b16 (pos / 2)) value
    else if pos == 1
    then load 2 (mask_16 0) value
    else if pos == 3
    then load 2 (mask_16 1) value
    else if pos == 5
    then load 2 (mask_16 2) value
    else load 2 (mask_16 3) (second_word m first_word_addr value)

unfoldable pub read32 : (stack : ℕ) → Memory → ℕ → ℕ
read32 stack m addr =
    let pos = word64_pos addr in
    let first_word_addr = word64_address addr in
    let value = first_word stack m first_word_addr in
    if pos == 0
    then load 4 (b32 0) value
    else if pos == 4
    then load 4 (b32 1) value
    else if pos == 1
    then load 4 (mask_32 1 0) value
    else if pos == 2
    then load 4 (mask_32 2 0) value
    else if pos == 3
    then load 4 (mask_32 3 0) value
    else let both = second_word m first_word_addr value in
      if pos == 5
      then load 4 (mask_32 1 1) both
      else if pos == 6
      then load 4 (mask_32 2 1) both
      else load 4 (mask_32 3 1) both

unfoldable pub read64 : (stack : ℕ) → Memory → ℕ → ℕ
read64 stack m addr =
    let pos = word64_pos addr in
    let first_word_addr = word64_address addr in
    let value = first_word stack m first_word_addr in
    if pos == 0
    then load 8 (b64 0) value
    else let both = second_word m first_word_addr value in
      if pos == 1
      then load 8 (mask_64 1) both
      else if pos == 2
      then load 8 (mask_64 2) both
      else if pos == 3
      then load 8 (mask_64 3) both
      else if pos == 4
      then load 8 (mask_64 4) both
      else if pos == 5
      then load 8 (mask_64 5) both
      else if pos == 6
      then load 8 (mask_64 6) both
      else load 8 (mask_64 7) both
