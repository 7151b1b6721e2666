-- ===== src/ReadWrite/Region.antt =====
-- `read_region`, `write_region`, `memset_tx`, `memcpy_tx` and `memmove_tx` of src/stm/read_write.h. A
-- buffer outside the transaction is a function from the offsets of its bytes; `stack` and `stack'`
-- are what the unset unions `val` and `mask` hold.
pub mod Reads
pub mod Fill
pub mod Writes
use tlstm.Prelude.{
  ℕ, zero, suc, ◌+◌, ◌-◌, ◌%◌, true, false, ◌==◌, ◌&&◌, ◌||◌, not, leb, ltb, if◌then◌else◌, update,
}
use tlstm.Tx.WordLog.{Memory}
use tlstm.ReadWrite.Union.{
  Union, uninitialised, load, store, b8, b64, word64_pos, word64_address, read_word, write_whole,
}
use tlstm.ReadWrite.Read.{first_word}
use tlstm.ReadWrite.Write.{clear_mask, write_first}

abbrev pub Buffer : Type 0
Buffer = ℕ → ℕ

-- `for(i = from; …; i++) *dest++ = val.b8[i]`, with the rounds that are left.
unfoldable pub copy_bytes : (rounds from to : ℕ) → Union → Buffer → Buffer
copy_bytes zero from to val dest = dest
copy_bytes (suc rounds) from to val dest =
    copy_bytes rounds (from + 1) (to + 1) val (update dest to (val from))

-- `while(start < sizeof(Word) && count++ < bytes) *dest++ = val.b8[start++]`: `count` is the offset in
-- `dest` too.
unfoldable pub read_first_word : (fuel bytes start count : ℕ) → Union → Buffer → Buffer
read_first_word zero bytes start count val dest = dest
read_first_word (suc fuel) bytes start count val dest =
    let rest =
      read_first_word fuel bytes (start + 1) (count + 1) val (update dest count (val start)) in
    if ltb start 8 && ltb count bytes then rest else dest

-- The last word, from offset `at` of `dest` on.
unfoldable pub read_last_word :
    (stack : ℕ) → Memory → (next_word_addr last_word_end at : ℕ) → Buffer → Buffer
unfolding copy_bytes
read_last_word stack m next_word_addr last_word_end at dest =
    if not (last_word_end == 7)
    then copy_bytes (last_word_end + 1) 0 at (first_word stack m next_word_addr) dest
    else store 8 at (read_word m next_word_addr) dest

-- The aligned words before the last one, then the last one.
unfoldable pub read_words :
    (fuel stack : ℕ)
    → Memory
    → (next_word_addr last_word_addr last_word_end at : ℕ) → Buffer
    → Buffer
unfolding read_last_word
read_words zero stack m next_word_addr last_word_addr last_word_end at dest = dest
read_words (suc fuel) stack m next_word_addr last_word_addr last_word_end at dest =
    let rest =
      read_words fuel stack m (next_word_addr + 8) last_word_addr last_word_end (at + 8)
        (store 8 at (read_word m next_word_addr) dest) in
    if ltb next_word_addr last_word_addr
    then rest
    else read_last_word stack m next_word_addr last_word_end at dest

-- The fuel of the loop over the words is one more than the bytes.
unfoldable pub read_region : (stack : ℕ) → Memory → (src bytes : ℕ) → Buffer → Buffer
unfolding read_first_word read_words
read_region stack m src bytes dest =
    let next_word_addr = word64_address src in
    let first_word_start = word64_pos src in
    let last_word_addr = word64_address (src + bytes - 1) in
    let last_word_end = word64_pos (src + bytes - 1) in
    if not (first_word_start == 0) || next_word_addr == last_word_addr
    then (let dest' =
          read_first_word 8 bytes first_word_start 0 (first_word stack m next_word_addr) dest in
        if next_word_addr == last_word_addr
        then dest'
        else read_words (suc bytes) stack m (next_word_addr + 8) last_word_addr last_word_end
            (8 - first_word_start) dest')
    else read_words (suc bytes) stack m next_word_addr last_word_addr last_word_end 0 dest

-- `while(start < sizeof(Word) && count++ < bytes) { mask.b8[start] = ~0; val.b8[start++] = *src++; }`
-- for `mask`, and for `val`.
unfoldable pub mask_first_word : (fuel bytes start count : ℕ) → Union → Union
mask_first_word zero bytes start count mask = mask
mask_first_word (suc fuel) bytes start count mask =
    let rest = mask_first_word fuel bytes (start + 1) (count + 1) (update mask (b8 start) 255) in
    if ltb start 8 && ltb count bytes then rest else mask

unfoldable pub fill_first_word : (fuel bytes start count : ℕ) → Buffer → Union → Union
fill_first_word zero bytes start count src val = val
fill_first_word (suc fuel) bytes start count src val =
    let rest =
      fill_first_word fuel bytes (start + 1) (count + 1) src (update val (b8 start) (src count)) in
    if ltb start 8 && ltb count bytes then rest else val

-- `for(i = from; …; i++) mask.b8[i] = ~0`, with the rounds that are left.
unfoldable pub mask_bytes : (rounds from : ℕ) → Union → Union
mask_bytes zero from mask = mask
mask_bytes (suc rounds) from mask = mask_bytes rounds (from + 1) (update mask (b8 from) 255)

-- The last word, from offset `at` of `src` on.
unfoldable pub write_last_word :
    (stack' : ℕ) → (val : Union) → Memory → (next_word_addr last_word_end at : ℕ) → Buffer → Memory
unfolding copy_bytes mask_bytes
write_last_word stack' val m next_word_addr last_word_end at src =
    if not (last_word_end == 7)
    then write_first m next_word_addr (copy_bytes (last_word_end + 1) at 0 src val)
        (mask_bytes (last_word_end + 1) 0 (clear_mask stack'))
    else write_whole m next_word_addr (load 8 at src)

unfoldable pub write_words :
    (fuel stack' : ℕ)
    → (val : Union) → Memory
    → (next_word_addr last_word_addr last_word_end at : ℕ) → Buffer
    → Memory
unfolding write_last_word
write_words zero stack' val m next_word_addr last_word_addr last_word_end at src = m
write_words (suc fuel) stack' val m next_word_addr last_word_addr last_word_end at src =
    let rest =
      write_words fuel stack' val (write_whole m next_word_addr (load 8 at src))
        (next_word_addr + 8) last_word_addr last_word_end (at + 8) src in
    if ltb next_word_addr last_word_addr
    then rest
    else write_last_word stack' val m next_word_addr last_word_end at src

unfoldable pub write_region :
    (stack stack' : ℕ) → Memory → (src : Buffer) → (bytes dest : ℕ) → Memory
unfolding mask_first_word fill_first_word write_words
write_region stack stack' m src bytes dest =
    let next_word_addr = word64_address dest in
    let first_word_start = word64_pos dest in
    let last_word_addr = word64_address (dest + bytes - 1) in
    let last_word_end = word64_pos (dest + bytes - 1) in
    if not (first_word_start == 0) || next_word_addr == last_word_addr
    then (let val = fill_first_word 8 bytes first_word_start 0 src (uninitialised stack) in
        let m' =
          write_first m next_word_addr val
            (mask_first_word 8 bytes first_word_start 0 (clear_mask stack')) in
        if next_word_addr == last_word_addr
        then m'
        else write_words (suc bytes) stack' val m' (next_word_addr + 8) last_word_addr last_word_end
            (8 - first_word_start) src)
    else write_words (suc bytes) stack' (uninitialised stack) m next_word_addr last_word_addr
        last_word_end 0 src

-- The buffer that `MemoryManager::Malloc` gives is `heap`.
unfoldable pub memmove_tx :
    (stack stack' : ℕ) → (heap : Buffer) → Memory → (dest src n : ℕ) → Memory
unfolding read_region write_region
memmove_tx stack stack' heap m dest src n =
    write_region stack stack' m (read_region stack m src n heap) n dest

unfoldable pub memcpy_tx : (stack stack' : ℕ) → (heap : Buffer) → Memory → (dest src n : ℕ) → Memory
unfolding memmove_tx
memcpy_tx stack stack' heap m dest src n = memmove_tx stack stack' heap m dest src n
