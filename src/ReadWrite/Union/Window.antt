-- ===== src/ReadWrite/Union/Window.antt =====
-- The memory of a transaction seen byte by byte, and what a masked write of a word does to it.
use tlstm.Prelude.{
  ℕ, ◌+◌, ◌-◌, ◌%◌, ◌≤◌, ◌<◌, ◌≡◌, refl, sym, ap, ◌∙◌, arith, ◌==◌, ◌&&◌, leb, ltb, true, false,
  if◌then◌else◌, Bool, Bool-cases, inl, inr, if_true, if_false, ==_iff,
}
use tlstm.Prelude.Bits.{select, select_all, select_none}
use tlstm.Tx.WordLog.{Memory}
use tlstm.Tx.WordLog.Merge.{IsWord}
use tlstm.ReadWrite.Union.{byte, Union, load, word64_address, word64_pos, write_word}
use tlstm.ReadWrite.Union.Bytes.{IsBytes, byte-lt, byte-mask_word, mask_word-load-IsWord}

-- The byte at an address.
abbrev pub byte_at : Memory → ℕ → ℕ
byte_at m addr = byte (m (word64_address addr)) (word64_pos addr)

abbrev pub AreWords : Memory → Type 0
AreWords m = (addr : ℕ) → IsWord (m addr)

-- The memory `m'` is `m` but for `n` bytes from `addr` on, which are those of `bytes`.
abbrev pub Stores : (m m' : Memory) (addr n : ℕ) → (ℕ → ℕ) → Type 0
Stores m m' addr n bytes =
    (b : ℕ)
    → byte_at m' b ≡ (if leb addr b && ltb b (addr + n) then bytes (b - addr) else byte_at m b)

-- The masked write of the union's word at `off` to the word at `base`.
abbrev pub write_masked : Memory → (base off : ℕ) → Union → Union → Memory
write_masked m base off val mask = write_word m base (load 8 off val) (load 8 off mask)

-- The union's two words are written to two neighbours.
abbrev pub write_pair : Memory → (base : ℕ) → Union → Union → Memory
write_pair m base val mask = write_masked (write_masked m base 0 val mask) (base + 8) 8 val mask

module _ (m : Memory) (words : AreWords m) (base off : ℕ) (val mask : Union) (hv : IsBytes val)
    (hm : IsBytes mask) where
  pub write_masked-AreWords : AreWords (write_masked m base off val mask)
  write_masked-AreWords addr = elim (Bool-cases (addr == base)) [
    | inl e ↦ rw e (mask_word-load-IsWord (m base) val mask off (words base) hv hm)
    | inr e ↦ rw e (words addr)
  ]

  pub byte_at-write_masked :
      (b : ℕ)
      → byte_at (write_masked m base off val mask) b ≡ (
          if word64_address b == base
          then select 8 (byte_at m b) (val (off + b % 8)) (mask (off + b % 8))
          else byte_at m b)
  byte_at-write_masked b = elim (Bool-cases (word64_address b == base)) [
    | inl e ↦ rw e (
        byte-mask_word (m base) val mask off (b % 8) (words base) hv hm (omega arith)
        ∙ ap (λ w. select 8 (byte (m w) (b % 8)) (val (off + b % 8)) (mask (off + b % 8)))
            (sym ((==_iff _ base).0 e)))
    | inr e ↦ rw e refl
  ]

-- A byte under an empty mask stays.
select_byte :
    (old new mask ones : ℕ) (c : Bool)
    → old < 256
    → mask ≡ (if c then ones else 0)
    → select 8 old new mask ≡ (if c then select 8 old new ones else old)
select_byte old new mask ones true ho h = rw h refl
select_byte old new mask ones false ho h = rw h (select_none 8 old new ho)

-- The memory `m'` is `m` but for `n` bytes from `addr` on, which take the bits of `bytes` where
-- `ones` has a one.
abbrev pub StoresUnder : (m m' : Memory) (addr n : ℕ) (bytes ones : ℕ → ℕ) → Type 0
StoresUnder m m' addr n bytes ones =
    (b : ℕ)
    → byte_at m' b ≡ (
        if leb addr b && ltb b (addr + n)
        then select 8 (byte_at m b) (bytes (b - addr)) (ones (b - addr))
        else byte_at m b)

-- Under full masks that is a plain store.
pub StoresUnder-full :
    (m m' : Memory) (addr n : ℕ) (bytes ones : ℕ → ℕ)
    → StoresUnder m m' addr n bytes ones
    → ((i : ℕ) → i < n → ones i ≡ 255)
    → ((i : ℕ) → bytes i < 256)
    → Stores m m' addr n bytes
StoresUnder-full m m' addr n bytes ones s h small b =
    s b ∙ elim (Bool-cases (leb addr b && ltb b (addr + n))) [
      | inl t ↦
          rw (t, h (b - addr) (ground arith))
            (select_all 8 (byte_at m b) (bytes (b - addr)) (small (b - addr)))
      | inr t ↦ rw t refl
    ]

-- The mask has the bytes of `ones` from `pos` to `pos + n` and none elsewhere, and the value has
-- those of `bytes` there.
pub record Covers (val mask : Union) (pos n : ℕ) (bytes ones : ℕ → ℕ) (limit : ℕ) : Type 0 where
  pub masked :
      (q : ℕ) → q < limit → mask q ≡ (if leb pos q && ltb q (pos + n) then ones (q - pos) else 0)
  pub valued : (q : ℕ) → pos ≤ q → q < pos + n → val q ≡ bytes (q - pos)

Covers-select :
    (val mask : Union) (pos n : ℕ) (bytes ones : ℕ → ℕ) (limit old base b q : ℕ)
    → Covers val mask pos n bytes ones limit
    → old < 256
    → q < limit
    → b ≡ base + q
    → select 8 old (val q) (mask q) ≡ (
        if leb (base + pos) b && ltb b (base + pos + n)
        then select 8 old (bytes (b - (base + pos))) (ones (b - (base + pos)))
        else old)
Covers-select val mask pos n bytes ones limit old base b q c ho h e =
    let shift : q - pos ≡ b - (base + pos) = omega arith in
    select_byte old (val q) (mask q) (ones (q - pos)) (leb pos q && ltb q (pos + n)) ho
      (c.masked q h)
    ∙ elim (Bool-cases (leb pos q && ltb q (pos + n))) [
      | inl t ↦
          rw (t, c.valued q (ground arith) (ground arith), shift)
            (sym (if_true {b = leb (base + pos) b && ltb b (base + pos + n)} _ _ (ground arith)))
      | inr t ↦
          rw t
            (sym (if_false {b = leb (base + pos) b && ltb b (base + pos + n)} _ _ (ground arith)))
    ]

-- A byte outside the word, and outside the range.
outside_word :
    (base pos n b old : ℕ) (new : ℕ)
    → base % 8 ≡ 0
    → pos + n ≤ 8
    → (word64_address b == base) ≡ false
    → old ≡ (if leb (base + pos) b && ltb b (base + pos + n) then new else old)
outside_word base pos n b old new aligned h e = ground arith

word_byte : (base b : ℕ) → (word64_address b == base) ≡ true → b ≡ base + (0 + b % 8)
word_byte base b e = ground arith

next_word_byte : (base b : ℕ) → (word64_address b == base + 8) ≡ true → b ≡ base + (8 + b % 8)
next_word_byte base b e = ground arith

outside_words :
    (base pos n b old : ℕ) (new : ℕ)
    → base % 8 ≡ 0
    → pos + n ≤ 16
    → (word64_address b == base) ≡ false
    → (word64_address b == base + 8) ≡ false
    → old ≡ (if leb (base + pos) b && ltb b (base + pos + n) then new else old)
outside_words base pos n b old new aligned h e e' = ground arith

module _ (m : Memory) (words : AreWords m) (base : ℕ) (val mask : Union) (aligned : base % 8 ≡ 0)
    (hv : IsBytes val) (hm : IsBytes mask) (pos n : ℕ) (bytes ones : ℕ → ℕ) where
  -- A range within one word.
  pub write_masked-StoresUnder :
      Covers val mask pos n bytes ones 8
      → pos + n ≤ 8
      → StoresUnder m (write_masked m base 0 val mask) (base + pos) n bytes ones
  write_masked-StoresUnder c h b =
      byte_at-write_masked m words base 0 val mask hv hm b
      ∙ elim (Bool-cases (word64_address b == base)) [
        | inl e ↦ rw e (
            Covers-select val mask pos n bytes ones 8 (byte_at m b) base b (0 + b % 8) c
              (byte-lt _ _) (omega arith) (word_byte base b e))
        | inr e ↦ rw e (outside_word base pos n b (byte_at m b) _ aligned h e)
      ]

  -- A range that may reach into the next word.
  pub write_pair-StoresUnder :
      Covers val mask pos n bytes ones 16
      → pos + n ≤ 16
      → StoresUnder m (write_pair m base val mask) (base + pos) n bytes ones
  write_pair-StoresUnder c h b =
      byte_at-write_masked (write_masked m base 0 val mask)
        (write_masked-AreWords m words base 0 val mask hv hm) (base + 8) 8 val mask hv hm b
      ∙ elim (Bool-cases (word64_address b == base + 8)) [
        | inl e ↦
            rw (e, first-other e)
              (Covers-select val mask pos n bytes ones 16 (byte_at m b) base b (8 + b % 8) c
                (byte-lt _ _) (omega arith) (next_word_byte base b e))
        | inr e ↦ rw e (
            first ∙ elim (Bool-cases (word64_address b == base)) [
              | inl e' ↦ rw e' (
                  Covers-select val mask pos n bytes ones 16 (byte_at m b) base b (0 + b % 8) c
                    (byte-lt _ _) (omega arith) (word_byte base b e'))
              | inr e' ↦ rw e' (outside_words base pos n b (byte_at m b) _ aligned h e' e)
            ])
      ]
    where
      first : byte_at (write_masked m base 0 val mask) b ≡ (
          if word64_address b == base
          then select 8 (byte_at m b) (val (0 + b % 8)) (mask (0 + b % 8))
          else byte_at m b)
      first = byte_at-write_masked m words base 0 val mask hv hm b

      first-other :
          (word64_address b == base + 8) ≡ true
          → byte_at (write_masked m base 0 val mask) b ≡ byte_at m b
      first-other e = first ∙ if_false {b = word64_address b == base} _ _ (ground arith)
