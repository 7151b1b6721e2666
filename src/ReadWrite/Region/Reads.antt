-- ===== src/ReadWrite/Region/Reads.antt =====
-- `read_region` copies the bytes of the memory.
use tlstm.Prelude.{
  ℕ, zero, suc, ◌+◌, ◌-◌, ◌*◌, ◌%◌, ◌≤◌, ◌<◌, ◌≡◌, refl, sym, ap, ◌∙◌, arith, ◌==◌, ◌&&◌, ◌||◌, not,
  leb, ltb, true, false, if◌then◌else◌, if_true, if_false, if_cases, if_join, subst, Bool-cases,
  inl, inr, update,
}
use tlstm.Tx.WordLog.{Memory}
use tlstm.ReadWrite.Union.{byte, Union, store, word64_pos, word64_address}
use tlstm.ReadWrite.Union.Window.{byte_at}
use tlstm.ReadWrite.Read.{first_word}
use tlstm.ReadWrite.Region.{
  Buffer, copy_bytes, read_first_word, read_last_word, read_words, read_region,
}

pub copy_bytes_lem :
    (n i k : ℕ) (u : Union) (d : Buffer) (j : ℕ)
    → copy_bytes n i k u d j ≡ (if leb k j && ltb j (k + n) then u (i + (j - k)) else d j)
unfolding copy_bytes
copy_bytes_lem zero i k u d j = ground arith
copy_bytes_lem (suc n) i k u d j =
    copy_bytes_lem n (i + 1) (k + 1) u (update d k (u i)) j
    ∙ if_join (leb (k + 1) j && ltb j (k + 1 + n)) (j == k) (leb k j && ltb j (k + suc n)) (d j)
        (λ t. (ground arith, ap u (ground arith))) (λ t e. (ground arith, ap u (ground arith)))
        (λ t e. ground arith)

read_first_word_lem :
    (fuel bytes start count : ℕ) (u : Union) (d : Buffer) (j : ℕ)
    → 8 ≤ fuel + start
    → read_first_word fuel bytes start count u d j ≡ (
        if leb count j && ltb j bytes && ltb j (count + (8 - start))
        then u (start + (j - count))
        else d j)
unfolding read_first_word
read_first_word_lem zero bytes start count u d j h = ground arith
read_first_word_lem (suc fuel) bytes start count u d j h =
    elim (Bool-cases (ltb start 8 && ltb count bytes)) [
      | inl t ↦ rw t (
          read_first_word_lem fuel bytes (start + 1) (count + 1) u (update d count (u start)) j
            (omega arith)
          ∙ if_join (leb (count + 1) j && ltb j bytes && ltb j (count + 1 + (8 - (start + 1))))
              (j == count) (leb count j && ltb j bytes && ltb j (count + (8 - start))) (d j)
              (λ c. (ground arith, ap u (ground arith)))
              (λ c e. (ground arith, ap u (ground arith))) (λ c e. ground arith))
      | inr t ↦ rw t (
          sym (
            if_false {b = leb count j && ltb j bytes && ltb j (count + (8 - start))} _ _
              (ground arith)))
    ]

-- The first `k` bytes of a buffer are those of the memory from `src` on, the others are untouched.
abbrev pub Filled : (m : Memory) (src k : ℕ) (dest dest' : Buffer) → Type 0
Filled m src k dest dest' = (j : ℕ) → dest' j ≡ (if ltb j k then byte_at m (src + j) else dest j)

pub byte_at-word :
    (m : Memory) (base i addr : ℕ)
    → base % 8 ≡ 0
    → i < 8
    → addr ≡ base + i
    → byte (m base) i ≡ byte_at m addr
byte_at-word m base i addr h lt e =
    let word : addr - addr % 8 ≡ base = omega arith in
    let place : addr % 8 ≡ i = omega arith in rw (word, place) refl

module _ (stack : ℕ) (m : Memory) (src bytes : ℕ) (dest : Buffer) where
  store-Filled :
      (next at : ℕ) (d : Buffer)
      → next % 8 ≡ 0
      → next ≡ src + at
      → Filled m src at dest d
      → Filled m src (at + 8) dest (store 8 at (m next) d)
  store-Filled next at d h e f j =
      ap (λ x. if leb at j && ltb j (at + 8) then byte (m next) (j - at) else x) (f j)
      ∙ if_join (leb at j && ltb j (at + 8)) (ltb j at) (ltb j (at + 8)) (dest j)
          (λ t.
            (ground arith, byte_at-word m next (j - at) (src + j) h (ground arith) (ground arith)))
          (λ t l. (ground arith, refl)) (λ t l. ground arith)

  first_word_byte :
      (next i q addr : ℕ)
      → next % 8 ≡ 0
      → q ≡ i
      → i < 8
      → addr ≡ next + i
      → first_word stack m next q ≡ byte_at m addr
  first_word_byte next i q addr h e lt a = rw e (
      if_true {b = leb 0 i && ltb i 8} _ _ (ground arith)
      ∙ ap (byte (m next)) (omega arith)
      ∙ byte_at-word m next i addr h lt a)

  read_last_word-Filled :
      (next last_word_end at : ℕ) (d : Buffer)
      → next % 8 ≡ 0
      → next ≡ src + at
      → last_word_end < 8
      → at + last_word_end + 1 ≡ bytes
      → Filled m src at dest d
      → Filled m src bytes dest (read_last_word stack m next last_word_end at d)
  unfolding read_last_word
  read_last_word-Filled next last_word_end at d h e lt total f =
      if_cases (Filled m src bytes dest) (not (last_word_end == 7))
        (λ t j.
          copy_bytes_lem (last_word_end + 1) 0 at (first_word stack m next) d j
          ∙ ap
              (λ x.
                if leb at j && ltb j (at + (last_word_end + 1))
                then first_word stack m next (0 + (j - at))
                else x)
              (f j)
          ∙ if_join (leb at j && ltb j (at + (last_word_end + 1))) (ltb j at) (ltb j bytes) (dest j)
              (λ c. (
                ground arith,
                first_word_byte next (j - at) (0 + (j - at)) (src + j) h (omega arith)
                    (ground arith) (ground arith),
              ))
              (λ c l. (ground arith, refl)) (λ c l. ground arith))
        (λ t.
          subst (λ k. Filled m src k dest (store 8 at (m next) d)) (ground arith)
            (store-Filled next at d h e f))

  read_words-Filled :
      (fuel next last last_word_end at : ℕ) (d : Buffer)
      → next % 8 ≡ 0
      → last % 8 ≡ 0
      → next ≡ src + at
      → last_word_end < 8
      → next ≤ last
      → last < next + 8 * fuel
      → last + last_word_end + 1 ≡ src + bytes
      → Filled m src at dest d
      → Filled m src bytes dest (read_words fuel stack m next last last_word_end at d)
  unfolding read_words
  read_words-Filled zero next last last_word_end at d h h' e lt le more total f =
      absurd (omega arith)
  read_words-Filled (suc fuel) next last last_word_end at d h h' e lt le more total f =
      if_cases (Filled m src bytes dest) (ltb next last)
        (λ t.
          read_words-Filled fuel (next + 8) last last_word_end (at + 8) _ (omega arith) h'
            (omega arith) lt (ground arith) (omega arith) total (store-Filled next at d h e f))
        (λ t. read_last_word-Filled next last_word_end at d h e lt (ground arith) f)

module _ (stack : ℕ) (m : Memory) (src bytes : ℕ) (dest : Buffer) where
  -- The bytes of the first word.
  first-Filled :
      (k : ℕ)
      → (ltb bytes (8 - word64_pos src) ≡ true → k ≡ bytes)
      → (ltb bytes (8 - word64_pos src) ≡ false → k ≡ 8 - word64_pos src)
      → Filled m src k dest (
          read_first_word 8 bytes (word64_pos src) 0 (first_word stack m (word64_address src)) dest)
  first-Filled k less more j =
      read_first_word_lem 8 bytes (word64_pos src) 0 _ dest j (omega arith)
      ∙ if_join (leb 0 j && ltb j bytes && ltb j (0 + (8 - word64_pos src))) false (ltb j k) {y = 0}
          (dest j)
          (λ t. (
            bound t,
            first_word_byte stack m src bytes dest (word64_address src) (word64_pos src + j)
                (word64_pos src + (j - 0)) (src + j) (omega arith) (omega arith) (ground arith)
                (omega arith),
          ))
          (λ t e. cc) (λ t e. over t)
    where
      bound : (leb 0 j && ltb j bytes && ltb j (0 + (8 - word64_pos src))) ≡ true → ltb j k ≡ true
      bound t = elim (Bool-cases (ltb bytes (8 - word64_pos src))) [
        | inl c ↦ rw (less c) (ground arith)
        | inr c ↦ rw (more c) (ground arith)
      ]

      over : (leb 0 j && ltb j bytes && ltb j (0 + (8 - word64_pos src))) ≡ false → ltb j k ≡ false
      over t = elim (Bool-cases (ltb bytes (8 - word64_pos src))) [
        | inl c ↦ rw (less c) (ground arith)
        | inr c ↦ rw (more c) (ground arith)
      ]

  -- `read_region` fills the first `bytes` bytes of the buffer with the bytes of the memory from `src`
  -- on and leaves the others, at every alignment of `src`; there is at least one byte to read.
  pub read_region_lem : 0 < bytes → Filled m src bytes dest (read_region stack m src bytes dest)
  unfolding read_region
  read_region_lem h =
      if_cases (Filled m src bytes dest)
        (not (word64_pos src == 0) || word64_address src == word64_address (src + bytes - 1))
        (λ t.
          if_cases (Filled m src bytes dest)
            (word64_address src == word64_address (src + bytes - 1))
            (λ s. first-Filled bytes (λ _. refl) (λ c. ground arith))
            (λ s.
              read_words-Filled stack m src bytes dest (suc bytes) (word64_address src + 8)
                (word64_address (src + bytes - 1)) (word64_pos (src + bytes - 1))
                (8 - word64_pos src) _ (omega arith) (omega arith) (omega arith) (omega arith)
                (ground arith) (omega arith) (omega arith)
                (first-Filled (8 - word64_pos src) (λ c. ground arith) (λ _. refl))))
        (λ t.
          read_words-Filled stack m src bytes dest (suc bytes) (word64_address src)
            (word64_address (src + bytes - 1)) (word64_pos (src + bytes - 1)) 0 dest (omega arith)
            (omega arith) (ground arith) (omega arith) (omega arith) (omega arith) (omega arith)
            (λ j. ground arith))
