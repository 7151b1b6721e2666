-- ===== src/ReadWrite/Read/Exact.antt =====
-- What the reads give: the bytes of the memory from an aligned address on.
use tlstm.Prelude.{
  ℕ, ◌+◌, ◌-◌, ◌%◌, ◌≤◌, ◌<◌, ◌≡◌, refl, sym, ap, ◌∙◌, arith, ◌==◌, ◌||◌, ◌&&◌, leb, ltb,
  Bool-cases, inl, inr, if_true, if_false, if_cases,
}
use tlstm.Tx.WordLog.{Memory}
use tlstm.Tx.WordLog.Merge.{IsWord}
use tlstm.ReadWrite.Union.{byte, load, aligned_up, word64_pos, word64_address}
use tlstm.ReadWrite.Union.Bytes.{load-eq, load-byte}
use tlstm.ReadWrite.Union.Window.{byte_at}
use tlstm.ReadWrite.Read.{
  first_word, second_word, read8aligned, read16aligned, read32aligned, read64aligned, read16,
  read32, read64,
}

-- The `n` bytes of the memory from `addr` on, as a little-endian number.
abbrev pub bytes_at : Memory → (n addr : ℕ) → ℕ
bytes_at m n addr = load n 0 (λ i. byte_at m (addr + i))

module _ (stack : ℕ) (m : Memory) (base : ℕ) (aligned : base % 8 ≡ 0) where
  in_first : (i : ℕ) → i < 8 → first_word stack m base i ≡ byte_at m (base + i)
  in_first i h =
      let word : base + i - (base + i) % 8 ≡ base = omega arith in
      let place : (base + i) % 8 ≡ i = omega arith in
      let start : i - 0 ≡ i = omega arith in rw (word, place, start) (ground arith)

  in_second : (i : ℕ) → 8 ≤ i → i < 16 → byte (m (base + 8)) (i - 8) ≡ byte_at m (base + i)
  in_second i l h =
      let word : base + i - (base + i) % 8 ≡ base + 8 = omega arith in
      let place : (base + i) % 8 ≡ i - 8 = omega arith in rw (word, place) refl

  in_both : (i : ℕ) → i < 16 → second_word m base (first_word stack m base) i ≡ byte_at m (base + i)
  in_both i h = elim (Bool-cases (ltb i 8)) [
    | inl e ↦ if_false {b = leb 8 i && ltb i 16} _ _ (ground arith) ∙ in_first i (ground arith)
    | inr e ↦ if_true {b = leb 8 i && ltb i 16} _ _ (ground arith) ∙ in_second i (ground arith) h
  ]

  load_first :
      (n off addr : ℕ)
      → base + off ≡ addr
      → off + n ≤ 8
      → load n off (first_word stack m base) ≡ bytes_at m n addr
  load_first n off addr e h =
      load-eq _ _ n off 0
        (λ i lt. in_first (off + i) (omega arith) ∙ ap (byte_at m) (omega (arith, e)))

  load_both :
      (n off addr : ℕ)
      → base + off ≡ addr
      → off + n ≤ 16
      → load n off (second_word m base (first_word stack m base)) ≡ bytes_at m n addr
  load_both n off addr e h =
      load-eq _ _ n off 0
        (λ i lt. in_both (off + i) (omega arith) ∙ ap (byte_at m) (omega (arith, e)))

module _ (stack : ℕ) (m : Memory) (addr : ℕ) where
  from_first :
      (n off to : ℕ)
      → word64_address addr + off ≡ to
      → off + n ≤ 8
      → load n off (first_word stack m (word64_address addr)) ≡ bytes_at m n to
  from_first = load_first stack m (word64_address addr) (omega arith)

  from_both :
      (n off to : ℕ)
      → word64_address addr + off ≡ to
      → off + n ≤ 16
      → load n off (second_word m (word64_address addr) (first_word stack m (word64_address addr)))
        ≡ bytes_at m n to
  from_both = load_both stack m (word64_address addr) (omega arith)

  pub read8aligned_lem : read8aligned stack m addr ≡ bytes_at m 1 addr
  unfolding read8aligned
  read8aligned_lem = from_first 1 _ _ (omega arith) (omega arith)

  pub read16aligned_lem : addr % 2 ≡ 0 → read16aligned stack m addr ≡ bytes_at m 2 addr
  unfolding read16aligned
  read16aligned_lem h = from_first 2 _ _ (omega arith) (omega arith)

  pub read32aligned_lem : addr % 4 ≡ 0 → read32aligned stack m addr ≡ bytes_at m 4 addr
  unfolding read32aligned
  read32aligned_lem h = from_first 4 _ _ (omega arith) (omega arith)

  -- An aligned read of a word gives the bytes at its address.
  pub read64aligned_lem : IsWord (m addr) → addr % 8 ≡ 0 → read64aligned m addr ≡ bytes_at m 8 addr
  unfolding read64aligned
  read64aligned_lem w h = sym (
      load-byte (m addr) 8 0 _ w (λ i lt.
        let word : addr + (0 + i) - (addr + (0 + i)) % 8 ≡ addr = omega arith in
        let place : (addr + (0 + i)) % 8 ≡ i = omega arith in rw (word, place) refl))

  read16_lem : read16 stack m addr ≡ bytes_at m 2 (aligned_up 2 addr)
  unfolding read16
  read16_lem =
      let pos = word64_pos addr in
      let Is = λ (r : ℕ). r ≡ bytes_at m 2 (aligned_up 2 addr) in
      if_cases Is (pos == 0 || pos == 2 || pos == 4 || pos == 6)
        (λ e. from_first 2 _ _ (ground arith) (ground arith))
        λ e0.
          if_cases Is (pos == 1) (λ e. from_first 2 _ _ (ground arith) (ground arith))
            λ e1.
              if_cases Is (pos == 3) (λ e. from_first 2 _ _ (ground arith) (ground arith))
                λ e3.
                  if_cases Is (pos == 5) (λ e. from_first 2 _ _ (ground arith) (ground arith))
                    λ e5. from_both 2 _ _ (ground arith) (omega arith)

  read32_lem : read32 stack m addr ≡ bytes_at m 4 (aligned_up 4 addr)
  unfolding read32
  read32_lem =
      let pos = word64_pos addr in
      let Is = λ (r : ℕ). r ≡ bytes_at m 4 (aligned_up 4 addr) in
      if_cases Is (pos == 0) (λ e. from_first 4 _ _ (ground arith) (ground arith))
        λ e0.
          if_cases Is (pos == 4) (λ e. from_first 4 _ _ (ground arith) (ground arith))
            λ e1.
              if_cases Is (pos == 1) (λ e. from_first 4 _ _ (ground arith) (ground arith))
                λ e2.
                  if_cases Is (pos == 2) (λ e. from_first 4 _ _ (ground arith) (ground arith))
                    λ e3.
                      if_cases Is (pos == 3) (λ e. from_first 4 _ _ (ground arith) (ground arith))
                        λ e4.
                          if_cases Is (pos == 5)
                            (λ e. from_both 4 _ _ (ground arith) (ground arith))
                            λ e5.
                              if_cases Is (pos == 6)
                                (λ e. from_both 4 _ _ (ground arith) (ground arith))
                                λ e6. from_both 4 _ _ (ground arith) (omega arith)

  read64_lem : read64 stack m addr ≡ bytes_at m 8 (aligned_up 8 addr)
  unfolding read64
  read64_lem =
      let pos = word64_pos addr in
      let Is = λ (r : ℕ). r ≡ bytes_at m 8 (aligned_up 8 addr) in
      if_cases Is (pos == 0) (λ e. from_first 8 _ _ (ground arith) (ground arith))
        λ e0.
          if_cases Is (pos == 1) (λ e. from_both 8 _ _ (ground arith) (ground arith))
            λ e1.
              if_cases Is (pos == 2) (λ e. from_both 8 _ _ (ground arith) (ground arith))
                λ e2.
                  if_cases Is (pos == 3) (λ e. from_both 8 _ _ (ground arith) (ground arith))
                    λ e3.
                      if_cases Is (pos == 4) (λ e. from_both 8 _ _ (ground arith) (ground arith))
                        λ e4.
                          if_cases Is (pos == 5)
                            (λ e. from_both 8 _ _ (ground arith) (ground arith))
                            λ e5.
                              if_cases Is (pos == 6)
                                (λ e. from_both 8 _ _ (ground arith) (ground arith))
                                λ e6. from_both 8 _ _ (ground arith) (omega arith)

  -- A read of 2, 4 or 8 bytes gives the little-endian number of the bytes of the memory from the next
  -- multiple of its size on, whatever the unset union held: at an address that is a multiple of
  -- the size these are the bytes asked for, at any other they are not, since the members that
  -- the code reads stand at aligned offsets.
  pub read_unaligned_lem :
      (read16 stack m addr ≡ bytes_at m 2 (aligned_up 2 addr))
      × (read32 stack m addr ≡ bytes_at m 4 (aligned_up 4 addr))
      × (read64 stack m addr ≡ bytes_at m 8 (aligned_up 8 addr))
  read_unaligned_lem = (read16_lem, read32_lem, read64_lem)
