-- ===== src/ReadWrite/Write/LowBit.antt =====
-- The unaligned writes of two and four bytes that use the mask `~1` leave the lowest bit as it was.
use tlstm.Prelude.{
  ℕ, zero, suc, ◌+◌, ◌-◌, ◌/◌, ◌%◌, ◌^◌, ◌≤◌, ◌<◌, ◌≡◌, refl, ap, subst, ◌∙◌, arith, ◌==◌, ◌&&◌,
  ◌||◌, leb, ltb, true, false, if◌then◌else◌, if_cases, Bool-cases, inl, inr,
}
use tlstm.Prelude.Bits.{select, select_all}
use tlstm.Tx.WordLog.{Memory}
use tlstm.ReadWrite.Union.{b16, byte, aligned_up, word64_pos, word64_address}
use tlstm.ReadWrite.Union.Bytes.{byte-lt, byte_ones}
use native.Mathlib.Nat.{pow-suc, one-le-pow}
use tlstm.ReadWrite.Union.Window.{AreWords, byte_at, Stores, StoresUnder}
use tlstm.ReadWrite.Read.{read32}
use tlstm.ReadWrite.Read.Exact.{read_unaligned_lem}
use tlstm.ReadWrite.Write.{
  not_one, all_ones, write16, write16_at, write32, write32_at, write32_across,
}
use tlstm.ReadWrite.Write.Covered.{
  write_first_lem, write_both_lem, write_first-Stores, write_both-Stores,
}
use tlstm.ReadWrite.Write.Exact.{Stores-bytes_at}

-- The bytes of `v` with the lowest bit of `old` in the place of its own.
abbrev pub with_low_bit : (old v : ℕ) → ℕ
with_low_bit old v = v - v % 2 + old % 2

select_not_one : (old v : ℕ) → old < 256 → v < 256 → select 8 old v 254 ≡ with_low_bit old v
unfolding select
select_not_one old v ho hv = omega arith

-- Byte `i` of the result of a write under the mask `~1` of `n` bytes.
select-not_one :
    (n i old o v : ℕ)
    → i < n
    → old < 256
    → (i ≡ 0 → old ≡ o)
    → select 8 old (byte v i) (byte (not_one n) i) ≡ byte (with_low_bit o v) i
unfolding byte
select-not_one zero i old o v h ho e = absurd (omega arith)
select-not_one (suc n) zero old o v h ho e =
    ap (select 8 old (v % 256)) {x = not_one (suc n) % 256} {y = 254}
      (omega (arith, pow-suc 256 n, one-le-pow n 256))
    ∙ select_not_one old (v % 256) ho (omega arith)
    ∙ omega (arith, e refl)
select-not_one (suc n) (suc i) old o v h ho e =
    ap (λ x. select 8 old (byte (v / 256) i) (byte x i)) {x = not_one (suc n) / 256}
      {y = 256 ^ n - 1} (omega (arith, pow-suc 256 n, one-le-pow n 256))
    ∙ ap (select 8 old (byte (v / 256) i)) (byte_ones n i (omega arith))
    ∙ select_all 8 old (byte (v / 256) i) (byte-lt (v / 256) i)
    ∙ ap (λ x. byte x i) (omega arith)

StoresUnder-not_one :
    (m m' : Memory) (addr n v : ℕ)
    → StoresUnder m m' addr n (byte v) (byte (not_one n))
    → Stores m m' addr n (byte (with_low_bit (byte_at m addr) v))
StoresUnder-not_one m m' addr n v s b = s b ∙ elim (Bool-cases (leb addr b && ltb b (addr + n))) [
  | inl t ↦ rw t (
      select-not_one n (b - addr) (byte_at m b) (byte_at m addr) v (ground arith) (byte-lt _ _)
        (λ e. ap (byte_at m) (ground arith)))
  | inr t ↦ rw t refl
]

module _ (stack stack' : ℕ) (m : Memory) (words : AreWords m) (addr v : ℕ) where
  write32_at_lem :
      (off to : ℕ)
      → word64_address addr + off ≡ to
      → off + 4 ≤ 8
      → Stores m (write32_at stack stack' m addr off v) to 4 (byte (with_low_bit (byte_at m to) v))
  unfolding write32_at
  write32_at_lem off to e h = StoresUnder-not_one m (write32_at stack stack' m addr off v) to 4 v (
      write_first_lem stack stack' 4 off v (not_one 4) m words (word64_address addr) to
        (omega arith) e (omega arith))

  write32_across_lem :
      (off to : ℕ)
      → word64_address addr + off ≡ to
      → off + 4 ≤ 16
      → Stores m
          (write32_across stack stack' m addr off v)
          to
          4
          (byte (with_low_bit (byte_at m to) v))
  unfolding write32_across
  write32_across_lem off to e h =
      StoresUnder-not_one m (write32_across stack stack' m addr off v) to 4 v (
        write_both_lem stack stack' 4 off v (not_one 4) m words (word64_address addr) to
          (omega arith) e (omega arith))

  write32_lem :
      Stores m
        (write32 stack stack' m addr v)
        (aligned_up 4 addr)
        4
        (byte (with_low_bit (byte_at m (aligned_up 4 addr)) v))
  unfolding write32
  write32_lem =
      let pos = word64_pos addr in
      let Is = λ (m' : Memory).
        Stores m m' (aligned_up 4 addr) 4 (byte (with_low_bit (byte_at m (aligned_up 4 addr)) v)) in
      if_cases Is (pos == 0 || pos == 4) (λ e. write32_at_lem _ _ (ground arith) (ground arith))
        λ e0.
          if_cases Is (pos == 1) (λ e. write32_at_lem _ _ (ground arith) (omega arith))
            λ e1.
              if_cases Is (pos == 2) (λ e. write32_at_lem _ _ (ground arith) (omega arith))
                λ e2.
                  if_cases Is (pos == 3) (λ e. write32_at_lem _ _ (ground arith) (omega arith))
                    λ e3.
                      if_cases Is (pos == 5)
                        (λ e. write32_across_lem _ _ (ground arith) (omega arith))
                        λ e5.
                          if_cases Is (pos == 6)
                            (λ e. write32_across_lem _ _ (ground arith) (omega arith))
                            λ e6. write32_across_lem _ _ (ground arith) (omega arith)

  write16_even_lem :
      (off to : ℕ)
      → word64_address addr + off ≡ to
      → off + 2 ≤ 8
      → Stores m
          (write16_at stack stack' m addr off (not_one 2) v)
          to
          2
          (byte (with_low_bit (byte_at m to) v))
  unfolding write16_at
  write16_even_lem off to e h =
      StoresUnder-not_one m (write16_at stack stack' m addr off (not_one 2) v) to 2 v (
        write_first_lem stack stack' 2 off v (not_one 2) m words (word64_address addr) to
          (omega arith) e (omega arith))

  write16_odd_lem :
      (off to : ℕ)
      → word64_address addr + off ≡ to
      → off + 2 ≤ 8
      → Stores m (write16_at stack stack' m addr off (all_ones 2) v) to 2 (byte v)
  unfolding write16_at
  write16_odd_lem off to e h =
      write_first-Stores stack stack' 2 off v m words (word64_address addr) to (omega arith) e h

  -- At an even address two bytes lose their lowest bit too; from an odd one they are stored exactly, at
  -- the next address.
  write16_lem :
      Stores m
        (write16 stack stack' m addr v)
        (aligned_up 2 addr)
        2
        (byte (if addr % 2 == 0 then with_low_bit (byte_at m addr) v else v))
  unfolding write16
  write16_lem =
      let pos = word64_pos addr in
      let Is = λ (m' : Memory).
        Stores m m' (aligned_up 2 addr) 2
          (byte (if addr % 2 == 0 then with_low_bit (byte_at m addr) v else v)) in
      let Exactly = λ (m' : Memory). Stores m m' (aligned_up 2 addr) 2 (byte v) in
      if_cases Is (pos == 0 || pos == 2 || pos == 4 || pos == 6)
        (λ e. rw (even e) (
          subst
            (λ x.
              Stores m (write16_at stack stack' m addr (b16 (pos / 2)) (not_one 2) v) x 2
                (byte (with_low_bit (byte_at m addr) v)))
            {x = addr} (ground arith) (write16_even_lem _ addr (ground arith) (ground arith))))
        λ e0. rw (odd e0) (
          if_cases Exactly (pos == 1) (λ e. write16_odd_lem _ _ (ground arith) (omega arith))
            λ e1.
              if_cases Exactly (pos == 3) (λ e. write16_odd_lem _ _ (ground arith) (omega arith))
                λ e3.
                  if_cases Exactly (pos == 5)
                    (λ e. write16_odd_lem _ _ (ground arith) (omega arith))
                    λ e5.
                      write_both-Stores stack stack' 2 _ v m words (word64_address addr)
                        (aligned_up 2 addr) (omega arith) (ground arith) (omega arith))
    where
      even :
          (word64_pos addr == 0
              || word64_pos addr == 2
              || word64_pos addr == 4
              || word64_pos addr == 6)
            ≡ true
          → (addr % 2 == 0) ≡ true
      even e = ground arith

      odd :
          (word64_pos addr == 0
              || word64_pos addr == 2
              || word64_pos addr == 4
              || word64_pos addr == 6)
            ≡ false
          → (addr % 2 == 0) ≡ false
      odd e = ground arith

  -- In a memory of 64-bit words, `write32` stores its value at the next multiple of four, which is its
  -- address only if that is aligned, but for the lowest bit, which stays that of the byte there. At an
  -- even address `write16` does the same with its two bytes; at an odd one it stores them exactly,
  -- but one address further. Every byte outside the range stays as it was.
  pub write_low_bit_lem :
      Stores m
        (write32 stack stack' m addr v)
        (aligned_up 4 addr)
        4
        (byte (with_low_bit (byte_at m (aligned_up 4 addr)) v))
      × Stores m
          (write16 stack stack' m addr v)
          (aligned_up 2 addr)
          2
          (byte (if addr % 2 == 0 then with_low_bit (byte_at m addr) v else v))
  write_low_bit_lem = (write32_lem, write16_lem)

  -- What `write32` is given at an address, `read32` returns there, with the lowest bit of what was at the
  -- aligned address before.
  pub read32-write32 :
      (stack'' : ℕ)
      → v < 2 ^ 32
      → read32 stack'' (write32 stack stack' m addr v) addr
        ≡ v - v % 2 + byte_at m (aligned_up 4 addr) % 2
  read32-write32 stack'' h =
      (read_unaligned_lem stack'' (write32 stack stack' m addr v) addr).1
      ∙ Stores-bytes_at m (write32 stack stack' m addr v) (aligned_up 4 addr) 4
          (with_low_bit (byte_at m (aligned_up 4 addr)) v) write32_lem (omega arith)
