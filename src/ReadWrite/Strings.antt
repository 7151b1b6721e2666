-- ===== src/ReadWrite/Strings.antt =====
-- `strcmp_tx` and `strncmp_tx` of src/stm/read_write.h. Their two loops are the same but for the test
-- on the count, which is `last` here.
pub mod Compare
use tlstm.Prelude.{
  ℕ, zero, suc, ◌+◌, ◌-◌, Option, none, some, Bool, true, false, ◌==◌, ◌&&◌, ◌||◌, not, ltb,
  if◌then◌else◌,
}
use tlstm.Prelude.Int.{ℤ, pos, sub_ℕ}
use tlstm.Tx.WordLog.{Memory}
use tlstm.ReadWrite.Union.{
  Union, uninitialised, store, b8, b64, word64_pos, word64_address, read_word,
}

-- The variables of one string: the next word to read, the place in the word, and the word.
pub record Cursor : Type 0 where
  pub next_word_addr : ℕ
  pub i : ℕ
  pub val : Union

-- `val.b64[0] = tx->ReadWord(next_word_addr++)`
unfoldable pub fetch : Memory → (i : ℕ) → Cursor → Cursor
fetch m i c = record {
  next_word_addr = c.next_word_addr + 8;
  i = i;
  val = store 8 (b64 0) (read_word m c.next_word_addr) c.val;
}

unfoldable pub start : (stack : ℕ) → Memory → (str : ℕ) → Cursor
unfolding fetch
start stack m str =
    fetch m (word64_pos str) (record {
      next_word_addr = word64_address str;
      i = word64_pos str;
      val = uninitialised stack;
    })

-- `if(i == sizeof(Word)) { val.b64[0] = tx->ReadWord(next_word_addr++); i = 0; }`
unfoldable pub refill : Memory → Cursor → Cursor
unfolding fetch
refill m c = if c.i == 8 then fetch m 0 c else c

-- `i++`
unfoldable pub advance : Cursor → Cursor
advance c = record c { i = c.i + 1 }

-- A round compares two bytes, or reads the words that have run out; `none` means that the fuel ran
-- out.
unfoldable pub compare_loop :
    (fuel : ℕ) → (last : ℕ → Bool) → Memory → (count : ℕ) → Cursor → Cursor → Option ℤ
unfolding refill advance
compare_loop zero last m count c₁ c₂ = none
compare_loop (suc fuel) last m count c₁ c₂ =
    let compared = compare_loop fuel last m (count + 1) (advance c₁) (advance c₂) in
    let refilled = compare_loop fuel last m count (refill m c₁) (refill m c₂) in
    if ltb c₁.i 8 && ltb c₂.i 8
    then (if not (c₁.val (b8 c₁.i) == c₂.val (b8 c₂.i))
        then some (sub_ℕ (c₁.val (b8 c₁.i)) (c₂.val (b8 c₂.i)))
        else if c₁.val (b8 c₁.i) == 0 || last count
        then some (pos 0)
        else compared)
    else refilled

unfoldable pub strcmp_tx : (fuel stack stack' : ℕ) → Memory → (str_1 str_2 : ℕ) → Option ℤ
unfolding compare_loop start
strcmp_tx fuel stack stack' m str_1 str_2 =
    compare_loop fuel (λ count. false) m 0 (start stack m str_1) (start stack' m str_2)

unfoldable pub strncmp_tx : (fuel stack stack' : ℕ) → Memory → (str_1 str_2 n : ℕ) → Option ℤ
unfolding compare_loop start
strncmp_tx fuel stack stack' m str_1 str_2 n =
    if n == 0
    then some (pos 0)
    else compare_loop fuel (λ count. count == n - 1) m 0 (start stack m str_1)
        (start stack' m str_2)
