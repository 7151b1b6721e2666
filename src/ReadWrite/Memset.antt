-- ===== src/ReadWrite/Memset.antt =====
-- `memset_tx` of src/stm/read_write.h. The `int c` is given by its bit pattern.
pub mod Extent
use tlstm.Prelude.{ℕ, zero, suc, ◌+◌, ◌-◌, ◌%◌, ◌==◌, not, ltb, if◌then◌else◌, update}
use tlstm.Tx.WordLog.{Memory}
use tlstm.ReadWrite.Union.{
  Union, uninitialised, load, b8, b64, word64_pos, word64_address, write_whole,
}
use tlstm.ReadWrite.Write.{clear_mask, write_first}
use tlstm.ReadWrite.Region.{mask_bytes}

-- `for(i = from; …; i++) val.b8[i] = uch`, with the rounds that are left.
unfoldable pub set_bytes : (rounds from uch : ℕ) → Union → Union
set_bytes zero from uch val = val
set_bytes (suc rounds) from uch val = set_bytes rounds (from + 1) uch (update val (b8 from) uch)

unfoldable pub set_last_word :
    (stack' : ℕ) → (val : Union) → Memory → (next_word_addr last_word_end : ℕ) → Memory
unfolding mask_bytes
set_last_word stack' val m next_word_addr last_word_end =
    if not (last_word_end == 7)
    then write_first m next_word_addr val (mask_bytes (last_word_end + 1) 0 (clear_mask stack'))
    else write_whole m next_word_addr (load 8 (b64 0) val)

-- The words before the last one, then the last one.
unfoldable pub set_words :
    (fuel stack' : ℕ)
    → (val : Union) → Memory
    → (next_word_addr last_word_addr last_word_end : ℕ) → Memory
unfolding set_last_word
set_words zero stack' val m next_word_addr last_word_addr last_word_end = m
set_words (suc fuel) stack' val m next_word_addr last_word_addr last_word_end =
    let rest =
      set_words fuel stack' val (write_whole m next_word_addr (load 8 (b64 0) val))
        (next_word_addr + 8) last_word_addr last_word_end in
    if ltb next_word_addr last_word_addr
    then rest
    else set_last_word stack' val m next_word_addr last_word_end

-- The fuel of the loop over the words is one more than the bytes.
unfoldable pub memset_tx : (stack stack' : ℕ) → Memory → (dest c n : ℕ) → Memory
unfolding set_bytes mask_bytes set_words
memset_tx stack stack' m dest c n =
    let next_word_addr = word64_address dest in
    let first_word_start = word64_pos dest in
    let last_word_addr = word64_address (dest + n - 1) in
    let last_word_end = word64_pos (dest + n - 1) in
    let val = set_bytes 8 0 (c % 256) (uninitialised stack) in
    if not (first_word_start == 0)
    then (let m' =
          write_first m next_word_addr val
            (mask_bytes (8 - first_word_start) first_word_start (clear_mask stack')) in
        if next_word_addr == last_word_addr
        then m'
        else set_words (suc n) stack' val m' (next_word_addr + 8) last_word_addr last_word_end)
    else set_words (suc n) stack' val m next_word_addr last_word_addr last_word_end
