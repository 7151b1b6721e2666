-- ===== src/ReadWrite/Memset/Extent.antt =====
-- Which bytes `memset_tx` sets.
use tlstm.Prelude.{
  ℕ, zero, suc, ◌+◌, ◌-◌, ◌*◌, ◌%◌, ◌≤◌, ◌<◌, ◌≡◌, refl, ap, ◌∙◌, arith, ◌==◌, ◌&&◌, not, leb, ltb,
  if◌then◌else◌, if_cases, if_true, if_join, update,
}
use tlstm.Tx.WordLog.{Memory}
use tlstm.ReadWrite.Union.{Union, load, uninitialised, word64_pos, word64_address, write_whole}
use tlstm.ReadWrite.Union.Bytes.{IsBytes, byte-lt, load-lt}
use tlstm.ReadWrite.Union.Window.{AreWords, Stores, write_masked-AreWords}
use tlstm.ReadWrite.Write.{clear_mask, write_first}
use tlstm.ReadWrite.Write.Covered.{clear_mask-IsBytes, off_first}
use tlstm.ReadWrite.Region.{mask_bytes}
use tlstm.ReadWrite.Region.Fill.{
  mask_bytes_lem, mask_bytes-IsBytes, Stores-append, Stores-ext, Stores-cast, write_masked-Stores,
  write_whole-Stores, write_whole-AreWords,
}
use tlstm.ReadWrite.Memset.{set_bytes, set_last_word, set_words, memset_tx}

set_bytes_lem :
    (n i v : ℕ) (u : Union) (q : ℕ)
    → set_bytes n i v u q ≡ (if leb i q && ltb q (i + n) then v else u q)
unfolding set_bytes
set_bytes_lem zero i v u q = ground arith
set_bytes_lem (suc n) i v u q =
    set_bytes_lem n (i + 1) v (update u i v) q
    ∙ if_join (leb (i + 1) q && ltb q (i + 1 + n)) (q == i) (leb i q && ltb q (i + suc n)) (u q)
        (λ t. (ground arith, refl)) (λ t e. (ground arith, refl)) (λ t e. ground arith)

-- A union that holds `v` in its first word.
module _ (v : ℕ) (small : v < 256) (val : Union) (hv : IsBytes val)
    (holds : (q : ℕ) → q < 8 → val q ≡ v) (stack' : ℕ) where
  -- Part of a word, from `pos` on.
  part-Stores :
      (m : Memory) (base pos n : ℕ)
      → AreWords m
      → base % 8 ≡ 0
      → pos + n ≤ 8
      → Stores m
          (write_first m base val (mask_bytes n pos (clear_mask stack')))
          (base + pos)
          n
          (λ _. v)
  part-Stores m base pos n w a h =
      write_masked-Stores m base val (mask_bytes n pos (clear_mask stack')) pos n (λ _. v) w a hv
        (mask_bytes-IsBytes _ (clear_mask-IsBytes stack') n pos) (λ _. small)
        (record {
          masked = λ q l.
              mask_bytes_lem n pos (clear_mask stack') q
              ∙ ap (λ x. if leb pos q && ltb q (pos + n) then 255 else x) (off_first stack' q l);
          valued = λ q l r. holds q (omega arith);
        })
        h

  whole-Stores :
      (m : Memory) (base : ℕ)
      → base % 8 ≡ 0
      → Stores m (write_whole m base (load 8 0 val)) base 8 (λ _. v)
  whole-Stores m base a =
      Stores-ext m (write_whole m base (load 8 0 val)) base 8 (λ i. val (0 + i)) (λ _. v)
        (λ i l. holds (0 + i) (omega arith)) (write_whole-Stores m base 0 val hv a)

  set_last_word-Stores :
      (m : Memory) (next last_word_end : ℕ)
      → AreWords m
      → next % 8 ≡ 0
      → last_word_end < 8
      → Stores m (set_last_word stack' val m next last_word_end) next (last_word_end + 1) (λ _. v)
  unfolding set_last_word
  set_last_word-Stores m next last_word_end w a lt =
      if_cases (λ m'. Stores m m' next (last_word_end + 1) (λ _. v)) (not (last_word_end == 7))
        (λ t.
          Stores-cast m
            (write_first m next val (mask_bytes (last_word_end + 1) 0 (clear_mask stack')))
            (next + 0) next (last_word_end + 1) (last_word_end + 1) (λ _. v) (λ _. v) (omega arith)
            refl (λ _. refl) (part-Stores m next 0 (last_word_end + 1) w a (omega arith)))
        (λ t.
          Stores-cast m (write_whole m next (load 8 0 val)) next next 8 (last_word_end + 1) (λ _. v)
            (λ _. v) refl (ground arith) (λ _. refl) (whole-Stores m next a))

  set_words-Stores :
      (fuel : ℕ) (m : Memory) (next last last_word_end n : ℕ)
      → AreWords m
      → next % 8 ≡ 0
      → last % 8 ≡ 0
      → last_word_end < 8
      → next ≤ last
      → last < next + 8 * fuel
      → last + last_word_end + 1 ≡ next + n
      → Stores m (set_words fuel stack' val m next last last_word_end) next n (λ _. v)
  unfolding set_words
  set_words-Stores zero m next last last_word_end n w a a' lt le more total = absurd (omega arith)
  set_words-Stores (suc fuel) m next last last_word_end n w a a' lt le more total =
      let m' = write_whole m next (load 8 0 val) in
      let done = set_words fuel stack' val m' (next + 8) last last_word_end in
      if_cases (λ m'. Stores m m' next n (λ _. v)) (ltb next last)
        (λ t.
          Stores-cast m done next next (8 + (n - 8)) n (λ _. v) (λ _. v) refl (ground arith)
            (λ _. refl)
            (Stores-append m m' done next 8 (n - 8) (λ _. v) (λ _. v) (whole-Stores m next a)
              (set_words-Stores fuel m' (next + 8) last last_word_end (n - 8)
                (write_whole-AreWords m next _ w (load-lt val hv 8 0)) (omega arith) a' lt
                (ground arith) (omega arith) (ground arith))
              (λ i l. refl)))
        (λ t.
          Stores-cast m (set_last_word stack' val m next last_word_end) next next
            (last_word_end + 1) n (λ _. v) (λ _. v) refl (ground arith) (λ _. refl)
            (set_last_word-Stores m next last_word_end w a lt))

-- How many bytes are set: to the end of the word, where the region starts inside a word and ends in
-- the same one.
abbrev pub set_extent : (dest n : ℕ) → ℕ
set_extent dest n =
    if not (word64_pos dest == 0) && word64_address dest == word64_address (dest + n - 1)
    then 8 - word64_pos dest
    else n

module _ (stack stack' : ℕ) (m : Memory) (w : AreWords m) (dest c n : ℕ) where
  abbrev filled : Union
  filled = set_bytes 8 0 (c % 256) (uninitialised stack)

  filled-IsBytes : IsBytes filled
  filled-IsBytes q =
      rw (set_bytes_lem 8 0 (c % 256) (uninitialised stack) q) (
        if_cases (λ x. x < 256) (leb 0 q && ltb q (0 + 8)) (λ _. omega arith)
          (λ _. byte-lt stack q))

  filled_lem : (q : ℕ) → q < 8 → filled q ≡ c % 256
  filled_lem q h =
      set_bytes_lem 8 0 (c % 256) (uninitialised stack) q
      ∙ if_true {b = leb 0 q && ltb q (0 + 8)} _ _ (ground arith)

  -- In a memory of 64-bit words, `memset_tx` sets the bytes from `dest` on to the low byte of `c` and leaves every other byte: `n`
  -- bytes, unless the region starts inside a word and ends in the same one; then it sets all bytes to
  -- the end of that word. There is at least one byte to set.
  pub memset_tx_lem :
      0 < n → Stores m (memset_tx stack stack' m dest c n) dest (set_extent dest n) (λ _. c % 256)
  unfolding memset_tx
  memset_tx_lem h =
      let base = word64_address dest in
      let pos = word64_pos dest in
      let last = word64_address (dest + n - 1) in
      let last_end = word64_pos (dest + n - 1) in
      let m' = write_first m base filled (mask_bytes (8 - pos) pos (clear_mask stack')) in
      let rest = set_words (suc n) stack' filled m' (base + 8) last last_end in
      let first : Stores m m' dest (8 - pos) (λ _. c % 256) =
        Stores-cast m m' (base + pos) dest (8 - pos) (8 - pos) (λ _. c % 256) (λ _. c % 256)
          (omega arith) refl (λ _. refl)
          (part-Stores (c % 256) (omega arith) filled filled-IsBytes filled_lem stack' m base pos
            (8 - pos) w (omega arith) (omega arith)) in
      if_cases (λ m'. Stores m m' dest (set_extent dest n) (λ _. c % 256)) (not (pos == 0))
        (λ t.
          if_cases (λ m'. Stores m m' dest (set_extent dest n) (λ _. c % 256)) (base == last)
            (λ s.
              Stores-cast m m' dest dest (8 - pos) (set_extent dest n) (λ _. c % 256) (λ _. c % 256)
                refl (ground arith) (λ _. refl) first)
            (λ s.
              Stores-cast m rest dest dest (8 - pos + (n - (8 - pos))) (set_extent dest n)
                (λ _. c % 256) (λ _. c % 256) refl (ground arith) (λ _. refl)
                (Stores-append m m' rest dest (8 - pos) (n - (8 - pos)) (λ _. c % 256)
                  (λ _. c % 256) first
                  (Stores-cast m' rest (base + 8) (dest + (8 - pos)) (n - (8 - pos)) (n - (8 - pos))
                    (λ _. c % 256) (λ _. c % 256) (omega arith) refl (λ _. refl)
                    (set_words-Stores (c % 256) (omega arith) filled filled-IsBytes filled_lem
                      stack' (suc n) m' (base + 8) last last_end (n - (8 - pos))
                      (write_masked-AreWords m w base 0 filled
                        (mask_bytes (8 - pos) pos (clear_mask stack')) filled-IsBytes
                        (mask_bytes-IsBytes _ (clear_mask-IsBytes stack') (8 - pos) pos))
                      (omega arith) (omega arith) (omega arith) (ground arith) (omega arith)
                      (ground arith)))
                  (λ i l. refl))))
        (λ t.
          Stores-cast m (set_words (suc n) stack' filled m base last last_end) base dest n
            (set_extent dest n) (λ _. c % 256) (λ _. c % 256) (ground arith) (ground arith)
            (λ _. refl)
            (set_words-Stores (c % 256) (omega arith) filled filled-IsBytes filled_lem stack'
              (suc n) m base last last_end n w (omega arith) (omega arith) (omega arith)
              (omega arith) (omega arith) (ground arith)))
