-- ===== src/ReadWrite/Write/Exact.antt =====
-- The writes that store every bit of their value: all aligned ones, bytes, and `write64`.
use tlstm.Prelude.{
  ℕ, ◌+◌, ◌-◌, ◌/◌, ◌%◌, ◌^◌, ◌<◌, ◌≤◌, ◌≡◌, sym, ap, subst, ◌∙◌, arith, ◌==◌, ◌&&◌, leb, ltb,
  if_true, if_false, if_cases, Bool-cases, inl, inr,
}
use tlstm.Tx.WordLog.{Memory, mask_word}
use tlstm.ReadWrite.Union.{byte, aligned_up, word64_pos, word64_address, write_whole, b16, b32}
use tlstm.ReadWrite.Union.Bytes.{load-byte}
use tlstm.ReadWrite.Union.Window.{AreWords, byte_at, Stores}
use tlstm.ReadWrite.Read.{read32aligned, read64}
use tlstm.ReadWrite.Read.Exact.{bytes_at, read32aligned_lem, read_unaligned_lem}
use tlstm.ReadWrite.Write.{
  write8aligned, write16aligned, write32aligned, write8, write64, write64_across,
}
use tlstm.ReadWrite.Write.Covered.{write_first-Stores, write_both-Stores}

-- What was stored at an address is read there.
pub Stores-bytes_at :
    (m m' : Memory) (addr n v : ℕ)
    → Stores m m' addr n (byte v)
    → v < 256 ^ n
    → bytes_at m' n addr ≡ v
Stores-bytes_at m m' addr n v s h = load-byte v n 0 _ h (λ i lt.
    ap (byte_at m') {x = addr + (0 + i)} {y = addr + i} (omega arith)
    ∙ s (addr + i)
    ∙ if_true {b = leb addr (addr + i) && ltb (addr + i) (addr + n)} _ _ (ground arith)
    ∙ ap (byte v) (omega arith))

pub write_whole_lem :
    (m : Memory) (addr v : ℕ) → addr % 8 ≡ 0 → Stores m (write_whole m addr v) addr 8 (byte v)
unfolding mask_word
write_whole_lem m addr v h b = elim (Bool-cases (word64_address b == addr)) [
  | inl e ↦ rw e (
      ap (byte v) {x = b % 8} {y = b - addr} (ground arith)
      ∙ sym (if_true {b = leb addr b && ltb b (addr + 8)} _ _ (ground arith)))
  | inr e ↦ rw e (sym (if_false {b = leb addr b && ltb b (addr + 8)} _ _ (ground arith)))
]

module _ (stack stack' : ℕ) (m : Memory) (words : AreWords m) (addr v : ℕ) where
  pub write8_lem : Stores m (write8 stack stack' m addr v) addr 1 (byte v)
  unfolding write8 write8aligned
  write8_lem =
      write_first-Stores stack stack' 1 (word64_pos addr) v m words (word64_address addr) addr
        (omega arith) (omega arith) (omega arith)

  pub write16aligned_lem :
      addr % 2 ≡ 0 → Stores m (write16aligned stack stack' m addr v) addr 2 (byte v)
  unfolding write16aligned
  write16aligned_lem h =
      write_first-Stores stack stack' 2 (b16 (word64_pos addr / 2)) v m words (word64_address addr)
        addr (omega arith) (omega arith) (omega arith)

  pub write32aligned_lem :
      addr % 4 ≡ 0 → Stores m (write32aligned stack stack' m addr v) addr 4 (byte v)
  unfolding write32aligned
  write32aligned_lem h =
      write_first-Stores stack stack' 4 (b32 (word64_pos addr / 4)) v m words (word64_address addr)
        addr (omega arith) (omega arith) (omega arith)

  write64_across_lem :
      (off : ℕ)
      → word64_address addr + off ≡ aligned_up 8 addr
      → off ≤ 8
      → Stores m (write64_across stack stack' m addr off v) (aligned_up 8 addr) 8 (byte v)
  unfolding write64_across
  write64_across_lem off e h =
      write_both-Stores stack stack' 8 off v m words (word64_address addr) (aligned_up 8 addr)
        (omega arith) e (omega arith)

  -- In a memory of 64-bit words, `write64` stores the eight bytes of its value at the next multiple
  -- of eight, which is its address only if that is aligned, and leaves every other byte, whatever
  -- the unset unions held. So an unaligned `write64` overwrites the whole word after the one of its address.
  pub write64_lem : Stores m (write64 stack stack' m addr v) (aligned_up 8 addr) 8 (byte v)
  unfolding write64
  write64_lem =
      let pos = word64_pos addr in
      let Is = λ (m' : Memory). Stores m m' (aligned_up 8 addr) 8 (byte v) in
      if_cases Is (pos == 0) (λ e. whole (ground arith))
        λ e0.
          if_cases Is (pos == 1) (λ e. write64_across_lem _ (ground arith) (omega arith))
            λ e1.
              if_cases Is (pos == 2) (λ e. write64_across_lem _ (ground arith) (omega arith))
                λ e2.
                  if_cases Is (pos == 3) (λ e. write64_across_lem _ (ground arith) (omega arith))
                    λ e3.
                      if_cases Is (pos == 4)
                        (λ e. write64_across_lem _ (ground arith) (omega arith))
                        λ e4.
                          if_cases Is (pos == 5)
                            (λ e. write64_across_lem _ (ground arith) (omega arith))
                            λ e5.
                              if_cases Is (pos == 6)
                                (λ e. write64_across_lem _ (ground arith) (omega arith))
                                λ e6. write64_across_lem _ (ground arith) (omega arith)
    where
      whole : addr % 8 ≡ 0 → Stores m (write_whole m addr v) (aligned_up 8 addr) 8 (byte v)
      whole a =
          subst (λ x. Stores m (write_whole m addr v) x 8 (byte v)) (omega arith)
            (write_whole_lem m addr v a)

  -- What `write64` is given at an address, `read64` returns there: both go to the same aligned address.
  pub read64-write64 :
      (stack'' : ℕ) → v < 2 ^ 64 → read64 stack'' (write64 stack stack' m addr v) addr ≡ v
  read64-write64 stack'' h =
      (read_unaligned_lem stack'' (write64 stack stack' m addr v) addr).2
      ∙ Stores-bytes_at m (write64 stack stack' m addr v) (aligned_up 8 addr) 8 v write64_lem h

  -- The same for the aligned accesses of four bytes.
  pub read32aligned-write32aligned :
      (stack'' : ℕ)
      → addr % 4 ≡ 0
      → v < 2 ^ 32
      → read32aligned stack'' (write32aligned stack stack' m addr v) addr ≡ v
  read32aligned-write32aligned stack'' a h =
      read32aligned_lem stack'' (write32aligned stack stack' m addr v) addr a
      ∙ Stores-bytes_at m (write32aligned stack stack' m addr v) addr 4 v (write32aligned_lem a) h
