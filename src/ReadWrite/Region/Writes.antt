-- ===== src/ReadWrite/Region/Writes.antt =====
-- `write_region` stores the bytes of its source, and `memmove_tx` those of the memory.
use tlstm.Prelude.{
  ℕ, zero, suc, ◌+◌, ◌-◌, ◌*◌, ◌%◌, ◌≤◌, ◌<◌, ◌≡◌, refl, sym, ap, ◌∙◌, subst, arith, ◌==◌, ◌&&◌,
  ◌||◌, not, leb, ltb, if◌then◌else◌, if_true, if_cases, inl, inr, ◌⊎◌,
}
use tlstm.Tx.WordLog.{Memory}
use tlstm.ReadWrite.Union.{Union, load, uninitialised, word64_pos, word64_address, write_whole}
use tlstm.ReadWrite.Union.Bytes.{IsBytes, byte-lt, load-lt}
use tlstm.ReadWrite.Union.Window.{AreWords, byte_at, Stores, write_masked-AreWords}
use tlstm.ReadWrite.Write.{clear_mask, write_first}
use tlstm.ReadWrite.Write.Covered.{clear_mask-IsBytes, off_first}
use tlstm.ReadWrite.Region.{
  Buffer, copy_bytes, mask_first_word, fill_first_word, mask_bytes, read_region, write_last_word,
  write_words, write_region, memmove_tx,
}
use tlstm.ReadWrite.Region.Reads.{copy_bytes_lem, read_region_lem}
use tlstm.ReadWrite.Region.Fill.{
  mask_bytes_lem, mask_first_word_lem, fill_first_word_lem, reached, mask_bytes-IsBytes,
  mask_first_word-IsBytes, fill_first_word-IsBytes, copy_bytes-IsBytes, Stores-append, Stores-ext,
  Stores-cast, write_masked-Stores, write_whole-Stores, write_whole-AreWords,
}

module _ (stack' : ℕ) (src : Buffer) (hs : IsBytes src) (val : Union) (hv : IsBytes val) where
  write_last_word-Stores :
      (m : Memory) (next last_word_end at : ℕ)
      → AreWords m
      → next % 8 ≡ 0
      → last_word_end < 8
      → Stores m
          (write_last_word stack' val m next last_word_end at src)
          next
          (last_word_end + 1)
          (λ i. src (at + i))
  unfolding write_last_word
  write_last_word-Stores m next last_word_end at w a lt =
      if_cases (λ m'. Stores m m' next (last_word_end + 1) (λ i. src (at + i)))
        (not (last_word_end == 7))
        (λ t.
          subst
            (λ x.
              Stores m
                (write_first m next (copy_bytes (last_word_end + 1) at 0 src val)
                  (mask_bytes (last_word_end + 1) 0 (clear_mask stack')))
                x (last_word_end + 1) (λ i. src (at + i)))
            (omega arith)
            (write_masked-Stores m next _ _ 0 (last_word_end + 1) (λ i. src (at + i)) w a
              (copy_bytes-IsBytes val hv src hs (last_word_end + 1) at 0)
              (mask_bytes-IsBytes _ (clear_mask-IsBytes stack') (last_word_end + 1) 0)
              (λ i. hs (at + i))
              (record {
                masked = λ q l.
                    mask_bytes_lem (last_word_end + 1) 0 (clear_mask stack') q
                    ∙ ap (λ x. if leb 0 q && ltb q (0 + (last_word_end + 1)) then 255 else x)
                        (off_first stack' q l);
                valued = λ q l r.
                    copy_bytes_lem (last_word_end + 1) at 0 src val q
                    ∙ if_true {b = leb 0 q && ltb q (0 + (last_word_end + 1))} _ _ (ground arith);
              })
              (omega arith)))
        (λ t.
          subst (λ n. Stores m (write_whole m next (load 8 at src)) next n (λ i. src (at + i)))
            (ground arith) (write_whole-Stores m next at src hs a))

  write_words-Stores :
      (fuel : ℕ) (m : Memory) (next last last_word_end at bytes : ℕ)
      → AreWords m
      → next % 8 ≡ 0
      → last % 8 ≡ 0
      → last_word_end < 8
      → next ≤ last
      → last < next + 8 * fuel
      → last + last_word_end + 1 ≡ next + bytes
      → Stores m
          (write_words fuel stack' val m next last last_word_end at src)
          next
          bytes
          (λ i. src (at + i))
  unfolding write_words
  write_words-Stores zero m next last last_word_end at bytes w a a' lt le more total =
      absurd (omega arith)
  write_words-Stores (suc fuel) m next last last_word_end at bytes w a a' lt le more total =
      if_cases (λ m'. Stores m m' next bytes (λ i. src (at + i))) (ltb next last)
        (λ t.
          subst
            (λ n.
              Stores m
                (write_words fuel stack' val (write_whole m next (load 8 at src)) (next + 8) last
                  last_word_end (at + 8) src)
                next n (λ i. src (at + i)))
            (ground arith)
            (Stores-append m (write_whole m next (load 8 at src))
              (write_words fuel stack' val (write_whole m next (load 8 at src)) (next + 8) last
                last_word_end (at + 8) src)
              next 8 (bytes - 8) (λ i. src (at + i)) (λ i. src (at + 8 + i))
              (write_whole-Stores m next at src hs a)
              (write_words-Stores fuel (write_whole m next (load 8 at src)) (next + 8) last
                last_word_end (at + 8) (bytes - 8)
                (write_whole-AreWords m next _ w (load-lt src hs 8 at)) (omega arith) a' lt
                (ground arith) (omega arith) (ground arith))
              (λ i l. ap src (omega arith))))
        (λ t.
          subst
            (λ n.
              Stores m (write_last_word stack' val m next last_word_end at src) next n
                (λ i. src (at + i)))
            (ground arith) (write_last_word-Stores m next last_word_end at w a lt))

  -- The same, with the address of the first word as an equation.
  write_words_at :
      (fuel : ℕ) (m : Memory) (next last last_word_end at bytes to : ℕ)
      → to ≡ next
      → AreWords m
      → next % 8 ≡ 0
      → last % 8 ≡ 0
      → last_word_end < 8
      → next ≤ last
      → last < next + 8 * fuel
      → last + last_word_end + 1 ≡ next + bytes
      → Stores m
          (write_words fuel stack' val m next last last_word_end at src)
          to
          bytes
          (λ i. src (at + i))
  write_words_at fuel m next last last_word_end at bytes to e w a a' lt le more total =
      subst
        (λ x.
          Stores m (write_words fuel stack' val m next last last_word_end at src) x bytes
            (λ i. src (at + i)))
        (sym e) (write_words-Stores fuel m next last last_word_end at bytes w a a' lt le more total)

module _ (stack stack' : ℕ) (src : Buffer) (hs : IsBytes src) (m : Memory) (w : AreWords m)
    (bytes dest : ℕ) where
  abbrev first_val : Union
  first_val = fill_first_word 8 bytes (word64_pos dest) 0 src (uninitialised stack)

  abbrev first_mask : Union
  first_mask = mask_first_word 8 bytes (word64_pos dest) 0 (clear_mask stack')

  first_val-IsBytes : IsBytes first_val
  first_val-IsBytes =
      fill_first_word-IsBytes (uninitialised stack) (λ i. byte-lt stack i) src hs bytes
        (word64_pos dest)

  first_mask-IsBytes : IsBytes first_mask
  first_mask-IsBytes =
      mask_first_word-IsBytes (clear_mask stack') (clear_mask-IsBytes stack') bytes
        (word64_pos dest)

  -- The first word takes the `n` bytes of the source that fall into it.
  first-Stores :
      (n : ℕ)
      → word64_pos dest + n ≤ 8
      → n ≤ bytes
      → (bytes ≤ n) ⊎ (word64_pos dest + n ≡ 8)
      → Stores m (write_first m (word64_address dest) first_val first_mask) dest n src
  first-Stores n h small all =
      subst (λ a. Stores m (write_first m (word64_address dest) first_val first_mask) a n src)
        (omega arith)
        (write_masked-Stores m (word64_address dest) first_val first_mask (word64_pos dest) n src w
          (omega arith) first_val-IsBytes first_mask-IsBytes hs
          (record {
            masked = λ q l.
                mask_first_word_lem 8 bytes (word64_pos dest) 0 (clear_mask stack') q (omega arith)
                ∙ ap (λ x. if reached bytes (word64_pos dest) 0 q then 255 else x)
                    (off_first stack' q l)
                ∙ ap (λ c. if c then 255 else 0) (reach q l);
            valued = λ q l r.
                fill_first_word_lem 8 bytes (word64_pos dest) 0 src (uninitialised stack) q
                  (omega arith)
                ∙ if_true {b = reached bytes (word64_pos dest) 0 q} _ _ (ground arith)
                ∙ ap src (omega arith);
          })
          h)
    where
      reach :
          (q : ℕ)
          → q < 8
          → reached bytes (word64_pos dest) 0 q
            ≡ (leb (word64_pos dest) q && ltb q (word64_pos dest + n))
      reach q l = elim all [ inl e ↦ ground arith | inr e ↦ ground arith ]

  -- In a memory of 64-bit words, `write_region` stores `bytes` bytes of its source, which holds bytes, at
  -- `dest` and leaves every other byte of the memory, at every alignment of `dest`; there is at least one
  -- byte to write.
  pub write_region_lem :
      0 < bytes → Stores m (write_region stack stack' m src bytes dest) dest bytes src
  unfolding write_region
  write_region_lem h =
      if_cases (λ m'. Stores m m' dest bytes src)
        (not (word64_pos dest == 0) || word64_address dest == word64_address (dest + bytes - 1))
        (λ t.
          if_cases (λ m'. Stores m m' dest bytes src)
            (word64_address dest == word64_address (dest + bytes - 1))
            (λ s. first-Stores bytes (ground arith) (omega arith) (inl (omega arith)))
            (λ s.
              subst
                (λ n.
                  Stores m
                    (write_words (suc bytes) stack' first_val
                      (write_first m (word64_address dest) first_val first_mask)
                      (word64_address dest + 8) (word64_address (dest + bytes - 1))
                      (word64_pos (dest + bytes - 1)) (8 - word64_pos dest) src)
                    dest n src)
                (ground arith)
                (Stores-append m (write_first m (word64_address dest) first_val first_mask)
                  (write_words (suc bytes) stack' first_val
                    (write_first m (word64_address dest) first_val first_mask)
                    (word64_address dest + 8) (word64_address (dest + bytes - 1))
                    (word64_pos (dest + bytes - 1)) (8 - word64_pos dest) src)
                  dest (8 - word64_pos dest) (bytes - (8 - word64_pos dest)) src
                  (λ i. src (8 - word64_pos dest + i))
                  (first-Stores (8 - word64_pos dest) (omega arith) (ground arith)
                    (inr (omega arith)))
                  (write_words_at stack' src hs first_val first_val-IsBytes (suc bytes)
                    (write_first m (word64_address dest) first_val first_mask)
                    (word64_address dest + 8) (word64_address (dest + bytes - 1))
                    (word64_pos (dest + bytes - 1)) (8 - word64_pos dest)
                    (bytes - (8 - word64_pos dest)) (dest + (8 - word64_pos dest)) (omega arith)
                    (write_masked-AreWords m w (word64_address dest) 0 first_val first_mask
                      first_val-IsBytes first_mask-IsBytes)
                    (omega arith) (omega arith) (omega arith) (ground arith) (omega arith)
                    (ground arith))
                  (λ i l. refl))))
        (λ t.
          Stores-cast m
            (write_words (suc bytes) stack' (uninitialised stack) m (word64_address dest)
              (word64_address (dest + bytes - 1)) (word64_pos (dest + bytes - 1)) 0 src)
            dest dest bytes bytes (λ i. src (0 + i)) src refl refl (λ i. ap src (omega arith))
            (write_words_at stack' src hs (uninitialised stack) (λ i. byte-lt stack i) (suc bytes) m
              (word64_address dest) (word64_address (dest + bytes - 1))
              (word64_pos (dest + bytes - 1)) 0 bytes dest (ground arith) w (omega arith)
              (omega arith) (omega arith) (omega arith) (omega arith) (ground arith)))

  -- With no byte to write, at the address of a word, `write_region` stores the first eight bytes of its
  -- source all the same; the memory is one of 64-bit words and the address is not zero.
  pub write_region_zero :
      bytes ≡ 0
      → dest % 8 ≡ 0
      → 0 < dest
      → Stores m (write_region stack stack' m src bytes dest) dest 8 src
  unfolding write_region write_words
  write_region_zero z a h =
      if_cases (λ m'. Stores m m' dest 8 src)
        (not (word64_pos dest == 0) || word64_address dest == word64_address (dest + bytes - 1))
        (λ t. absurd (ground arith))
        (λ t.
          if_cases (λ m'. Stores m m' dest 8 src)
            (ltb (word64_address dest) (word64_address (dest + bytes - 1)))
            (λ s. absurd (ground arith))
            (λ s.
              Stores-cast m
                (write_last_word stack' (uninitialised stack) m (word64_address dest)
                  (word64_pos (dest + bytes - 1)) 0 src)
                (word64_address dest) dest (word64_pos (dest + bytes - 1) + 1) 8 (λ i. src (0 + i))
                src (omega arith) (omega arith) (λ i. ap src (omega arith))
                (write_last_word-Stores stack' src hs (uninitialised stack) (λ i. byte-lt stack i) m
                  (word64_address dest) (word64_pos (dest + bytes - 1)) 0 w (omega arith)
                  (omega arith))))

-- In a memory of 64-bit words, `memmove_tx` stores at `dest` the bytes that the memory had from `src` on, even where the two
-- regions overlap, and leaves every other byte; there is at least one byte to move.
pub memmove_tx_lem :
    (stack stack' : ℕ) (heap : Buffer) (m : Memory) (dest src n : ℕ)
    → IsBytes heap
    → AreWords m
    → 0 < n
    → Stores m (memmove_tx stack stack' heap m dest src n) dest n (λ i. byte_at m (src + i))
unfolding memmove_tx
memmove_tx_lem stack stack' heap m dest src n hb w h =
    Stores-ext m (write_region stack stack' m (read_region stack m src n heap) n dest) dest n
      (read_region stack m src n heap) (λ i. byte_at m (src + i))
      (λ i lt. read i ∙ if_true {b = ltb i n} _ _ (ground arith))
      (write_region_lem stack stack' (read_region stack m src n heap)
        (λ i. rw (read i) (if_cases (λ x. x < 256) (ltb i n) (λ _. byte-lt _ _) (λ _. hb i))) m w n
        dest h)
  where
    read :
        (i : ℕ)
        → read_region stack m src n heap i ≡ (if ltb i n then byte_at m (src + i) else heap i)
    read i = read_region_lem stack m src n heap h i
