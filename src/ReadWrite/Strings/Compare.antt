-- ===== src/ReadWrite/Strings/Compare.antt =====
-- What the two comparisons return, with enough fuel.
use tlstm.Prelude.{
  ℕ, zero, suc, ◌+◌, ◌-◌, ◌*◌, ◌%◌, ◌≤◌, ◌<◌, ◌≡◌, ◌≢◌, ◌⊎◌, refl, ap, ◌∙◌, arith, ◌==◌, ◌&&◌, ◌||◌,
  not, leb, ltb, true, false, some, Option, Bool, if◌then◌else◌, if_true, if_false, lt→ltb,
  Bool-cases, inl, inr, ==_iff,
}
use tlstm.Prelude.Int.{ℤ, pos, sub_ℕ}
use tlstm.Tx.WordLog.{Memory}
use tlstm.ReadWrite.Union.{byte, uninitialised, word64_pos, word64_address}
use tlstm.ReadWrite.Union.Window.{byte_at}
use tlstm.ReadWrite.Region.Reads.{byte_at-word}
use tlstm.ReadWrite.Strings.{
  Cursor, fetch, start, refill, advance, compare_loop, strcmp_tx, strncmp_tx,
}

-- The cursor stands at the byte `at` of the memory.
pub record Stands (m : Memory) (at : ℕ) (c : Cursor) : Type 0 where
  pub place : at + 8 ≡ c.next_word_addr + c.i
  pub aligned : c.next_word_addr % 8 ≡ 0
  pub bound : c.i ≤ 8
  pub held : (q : ℕ) → q < 8 → c.val q ≡ byte (m (c.next_word_addr - 8)) q
  pub passed : 8 ≤ c.next_word_addr

-- The verdict on two bytes.
abbrev verdict : (x y : ℕ) (l : Bool) → Option ℤ → Option ℤ
verdict x y l r = if not (x == y) then some (sub_ℕ x y) else if x == 0 || l then some (pos 0) else r

ends_value :
    (x y : ℕ) (l : Bool) (r : Option ℤ)
    → (x ≢ y) ⊎ ((x ≡ 0) ⊎ (l ≡ true))
    → verdict x y l r ≡ some (sub_ℕ x y)
ends_value x y l r h = elim (Bool-cases (x == y)) [
  | inl e ↦
      rw e
        (if_true {b = x == 0 || l} _ _ (ended h e) ∙ ap some (rw ((==_iff x y).0 e) (ground arith)))
  | inr e ↦ rw e refl
]
  where
    ended : (x ≢ y) ⊎ ((x ≡ 0) ⊎ (l ≡ true)) → (x == y) ≡ true → (x == 0 || l) ≡ true
    ended (inl n) e = absurd (n ((==_iff x y).0 e))
    ended (inr (inl z)) e = ground arith
    ended (inr (inr z)) e = rw z (ground arith)

continues_value :
    (x y : ℕ) (l : Bool) (r : Option ℤ) → x ≡ y → x ≢ 0 → l ≡ false → verdict x y l r ≡ r
continues_value x y l r e n f = ground arith

module _ (m : Memory) where
  Stands-byte : (at : ℕ) (c : Cursor) → Stands m at c → ltb c.i 8 ≡ true → c.val c.i ≡ byte_at m at
  Stands-byte at c s t =
      s.held c.i (ground arith)
      ∙ byte_at-word m (c.next_word_addr - 8) c.i at (omega (arith, s.aligned, s.passed))
          (ground arith) (omega (arith, s.place, s.passed))

  Stands-advance :
      (at : ℕ) (c : Cursor) → Stands m at c → ltb c.i 8 ≡ true → Stands m (at + 1) (advance c)
  unfolding advance
  Stands-advance at c s t = record {
    place = omega (arith, s.place);
    aligned = s.aligned;
    bound = ground arith;
    held = s.held;
    passed = s.passed;
  }

  fetch_held : (c : Cursor) (i q : ℕ) → q < 8 → (fetch m i c).val q ≡ byte (m c.next_word_addr) q
  unfolding fetch
  fetch_held c i q h =
      if_true {b = leb 0 q && ltb q 8} _ _ (ground arith)
      ∙ ap (byte (m c.next_word_addr)) (omega arith)

  Stands-refill : (at : ℕ) (c : Cursor) → Stands m at c → Stands m at (refill m c)
  unfolding refill
  Stands-refill at c s = elim (Bool-cases (c.i == 8)) [
    | inl e ↦ rw e (record {
      place = omega (arith, s.place, (==_iff c.i 8).0 e);
      aligned = omega (arith, s.aligned);
      bound = omega arith;
      held = λ q h. fetch_held c 0 q h ∙ ap (λ x. byte (m x) q) (omega arith);
      passed = omega arith;
    })
    | inr e ↦ rw e s
  ]

  start-Stands : (stack at : ℕ) → Stands m at (start stack m at)
  unfolding start
  start-Stands stack at = record {
    place = omega arith;
    aligned = omega arith;
    bound = omega arith;
    held = λ q h.
        fetch_held
          (record {
            next_word_addr = word64_address at;
            i = word64_pos at;
            val = uninitialised stack;
          })
          (word64_pos at) q h
        ∙ ap (λ x. byte (m x) q) (omega arith);
    passed = omega arith;
  }

  refill_bound : (c : Cursor) → c.i ≤ 8 → (refill m c).i < 8
  unfolding refill fetch
  refill_bound c h = elim (Bool-cases (c.i == 8)) [
    | inl e ↦ rw e (omega arith)
    | inr e ↦ rw e (ground arith)
  ]

  module _ (last : ℕ → Bool) where
    -- The comparison ends at this byte.
    abbrev pub Ends : (count at₁ at₂ : ℕ) → Type 0
    Ends count at₁ at₂ =
        (byte_at m at₁ ≢ byte_at m at₂) ⊎ ((byte_at m at₁ ≡ 0) ⊎ (last count ≡ true))

    -- It goes on after this byte.
    abbrev pub Continues : (count at₁ at₂ : ℕ) → Type 0
    Continues count at₁ at₂ =
        (byte_at m at₁ ≡ byte_at m at₂) × (byte_at m at₁ ≢ 0) × (last count ≡ false)

    abbrev difference : (at₁ at₂ : ℕ) → ℤ
    difference at₁ at₂ = sub_ℕ (byte_at m at₁) (byte_at m at₂)

    module _ (fuel count at₁ at₂ : ℕ) (c₁ c₂ : Cursor) (s₁ : Stands m at₁ c₁)
        (s₂ : Stands m at₂ c₂) where
      round-Ends :
          (ltb c₁.i 8 && ltb c₂.i 8) ≡ true
          → Ends count at₁ at₂
          → compare_loop (suc fuel) last m count c₁ c₂ ≡ some (difference at₁ at₂)
      unfolding compare_loop
      round-Ends t e =
          rw (t, Stands-byte at₁ c₁ s₁ (ground arith), Stands-byte at₂ c₂ s₂ (ground arith))
            (ends_value (byte_at m at₁) (byte_at m at₂) (last count) _ e)

      round-Continues :
          (ltb c₁.i 8 && ltb c₂.i 8) ≡ true
          → Continues count at₁ at₂
          → compare_loop (suc fuel) last m count c₁ c₂
            ≡ compare_loop fuel last m (count + 1) (advance c₁) (advance c₂)
      unfolding compare_loop
      round-Continues t (same, more, on) =
          rw (t, Stands-byte at₁ c₁ s₁ (ground arith), Stands-byte at₂ c₂ s₂ (ground arith), on)
            (continues_value (byte_at m at₁) (byte_at m at₂) false _ same more refl)

      round_refills :
          (ltb c₁.i 8 && ltb c₂.i 8) ≡ false
          → compare_loop (suc fuel) last m count c₁ c₂
            ≡ compare_loop fuel last m count (refill m c₁) (refill m c₂)
      unfolding compare_loop
      round_refills t = rw t refl

    -- The rounds that read words before the next byte is compared.
    abbrev wait : Cursor → Cursor → ℕ
    wait c₁ c₂ = if ltb c₁.i 8 && ltb c₂.i 8 then 0 else 1

    -- Every byte before offset `k` continues.
    abbrev ContinuesTo : (k count at₁ at₂ : ℕ) → Type 0
    ContinuesTo k count at₁ at₂ =
        (j p q r : ℕ) → j < k → p ≡ count + j → q ≡ at₁ + j → r ≡ at₂ + j → Continues p q r

    -- One round of reading words is enough, and a comparison takes one more at most.
    wait-refill :
        (k fuel : ℕ) (c₁ c₂ : Cursor)
        → c₁.i ≤ 8
        → c₂.i ≤ 8
        → (ltb c₁.i 8 && ltb c₂.i 8) ≡ false
        → 2 * k + wait c₁ c₂ < suc fuel
        → 2 * k + wait (refill m c₁) (refill m c₂) < fuel
    wait-refill k fuel c₁ c₂ h₁ h₂ t f =
        rw (lt→ltb _ _ (refill_bound c₁ h₁), lt→ltb _ _ (refill_bound c₂ h₂)) (ground arith)

    wait_most : (c₁ c₂ : Cursor) → wait c₁ c₂ ≤ 1
    wait_most c₁ c₂ = ground arith

    Ends-at :
        {end end₁ end₂ : ℕ} (count at₁ at₂ : ℕ)
        → end ≡ count
        → end₁ ≡ at₁
        → end₂ ≡ at₂
        → Ends end end₁ end₂
        → Ends count at₁ at₂
    Ends-at count at₁ at₂ z z₁ z₂ stop = rw (← z, ← z₁, ← z₂) stop

    loop_lem :
        (fuel k count at₁ at₂ end end₁ end₂ : ℕ) (c₁ c₂ : Cursor)
        → Stands m at₁ c₁
        → Stands m at₂ c₂
        → ContinuesTo k count at₁ at₂
        → end ≡ count + k
        → end₁ ≡ at₁ + k
        → end₂ ≡ at₂ + k
        → Ends end end₁ end₂
        → 2 * k + wait c₁ c₂ < fuel
        → compare_loop fuel last m count c₁ c₂ ≡ some (difference end₁ end₂)
    loop_lem zero k count at₁ at₂ end end₁ end₂ c₁ c₂ s₁ s₂ go e e₁ e₂ stop f = absurd (omega arith)
    loop_lem (suc fuel) zero count at₁ at₂ end end₁ end₂ c₁ c₂ s₁ s₂ go e e₁ e₂ stop f =
        elim (Bool-cases (ltb c₁.i 8 && ltb c₂.i 8)) [
          | inl t ↦
              let z : end ≡ count = omega arith in
              let z₁ : end₁ ≡ at₁ = omega arith in
              let z₂ : end₂ ≡ at₂ = omega arith in
              rw (z₁, z₂)
                (round-Ends fuel count at₁ at₂ c₁ c₂ s₁ s₂ t (Ends-at count at₁ at₂ z z₁ z₂ stop))
          | inr t ↦
              round_refills fuel count at₁ at₂ c₁ c₂ s₁ s₂ t
              ∙ loop_lem fuel zero count at₁ at₂ end end₁ end₂ (refill m c₁) (refill m c₂)
                  (Stands-refill at₁ c₁ s₁) (Stands-refill at₂ c₂ s₂) go e e₁ e₂ stop
                  (wait-refill 0 fuel c₁ c₂ s₁.bound s₂.bound t f)
        ]
    loop_lem (suc fuel) (suc k) count at₁ at₂ end end₁ end₂ c₁ c₂ s₁ s₂ go e e₁ e₂ stop f =
        elim (Bool-cases (ltb c₁.i 8 && ltb c₂.i 8)) [
          | inl t ↦
              round-Continues fuel count at₁ at₂ c₁ c₂ s₁ s₂ t
                (go 0 count at₁ at₂ (omega arith) (omega arith) (omega arith) (omega arith))
              ∙ loop_lem fuel k (count + 1) (at₁ + 1) (at₂ + 1) end end₁ end₂ (advance c₁)
                  (advance c₂) (Stands-advance at₁ c₁ s₁ (ground arith))
                  (Stands-advance at₂ c₂ s₂ (ground arith))
                  (λ j p q r lt a b c.
                    go (j + 1) p q r (omega arith) (omega arith) (omega arith) (omega arith))
                  (omega arith) (omega arith) (omega arith) stop
                  (omega (arith, wait_most (advance c₁) (advance c₂), f))
          | inr t ↦
              round_refills fuel count at₁ at₂ c₁ c₂ s₁ s₂ t
              ∙ loop_lem fuel (suc k) count at₁ at₂ end end₁ end₂ (refill m c₁) (refill m c₂)
                  (Stands-refill at₁ c₁ s₁) (Stands-refill at₂ c₂ s₂) go e e₁ e₂ stop
                  (wait-refill (suc k) fuel c₁ c₂ s₁.bound s₂.bound t f)
        ]

-- Two strings that agree before offset `k`.
abbrev pub AgreesTo : (m : Memory) (str_1 str_2 k : ℕ) → Type 0
AgreesTo m str_1 str_2 k =
    (j : ℕ) → j < k → (byte_at m (str_1 + j) ≡ byte_at m (str_2 + j)) × (byte_at m (str_1 + j) ≢ 0)

module _ (fuel stack stack' : ℕ) (m : Memory) (str_1 str_2 k : ℕ) (agree : AgreesTo m str_1 str_2 k)
    (enough : 2 * k + 1 < fuel) where
  loop_from_start :
      (last : ℕ → Bool)
      → ((j : ℕ) → j < k → last j ≡ false)
      → Ends m last k (str_1 + k) (str_2 + k)
      → compare_loop fuel last m 0 (start stack m str_1) (start stack' m str_2)
        ≡ some (sub_ℕ (byte_at m (str_1 + k)) (byte_at m (str_2 + k)))
  loop_from_start last on stop =
      loop_lem m last fuel k 0 str_1 str_2 k (str_1 + k) (str_2 + k) _ _
        (start-Stands m stack str_1) (start-Stands m stack' str_2) go (omega arith) refl refl stop
        (omega (arith, wait_most m last (start stack m str_1) (start stack' m str_2)))
    where
      go : ContinuesTo m last k 0 str_1 str_2
      go j p q r lt e e₁ e₂ =
          let e₀ : p ≡ j = omega arith in rw (e₀, e₁, e₂) ((agree j lt).0, (agree j lt).1, on j lt)

  -- `strcmp_tx` returns the difference of the first bytes at which the strings differ or the first one
  -- ends, wherever the strings stand in their words: two rounds for each byte are enough.
  pub strcmp_tx_lem :
      (byte_at m (str_1 + k) ≢ byte_at m (str_2 + k)) ⊎ (byte_at m (str_1 + k) ≡ 0)
      → strcmp_tx fuel stack stack' m str_1 str_2
        ≡ some (sub_ℕ (byte_at m (str_1 + k)) (byte_at m (str_2 + k)))
  unfolding strcmp_tx
  strcmp_tx_lem (inl d) = loop_from_start (λ _. false) (λ j lt. refl) (inl d)
  strcmp_tx_lem (inr z) = loop_from_start (λ _. false) (λ j lt. refl) (inr (inl z))

  -- `strncmp_tx` returns the difference of the bytes at the first offset `k` at which the strings differ
  -- or the first one ends or the count of `n` bytes is used up, and compares no byte after it: two
  -- rounds for each byte are enough.
  pub strncmp_tx_lem :
      (n : ℕ)
      → k < n
      → (byte_at m (str_1 + k) ≢ byte_at m (str_2 + k))
        ⊎ ((byte_at m (str_1 + k) ≡ 0) ⊎ (k ≡ n - 1))
      → strncmp_tx fuel stack stack' m str_1 str_2 n
        ≡ some (sub_ℕ (byte_at m (str_1 + k)) (byte_at m (str_2 + k)))
  unfolding strncmp_tx
  strncmp_tx_lem n h stop =
      if_false {b = n == 0} _ _ (ground arith)
      ∙ loop_from_start (λ count. count == n - 1) (λ j lt. ground arith) (ended stop)
    where
      ended :
          (byte_at m (str_1 + k) ≢ byte_at m (str_2 + k))
            ⊎ ((byte_at m (str_1 + k) ≡ 0) ⊎ (k ≡ n - 1))
          → Ends m (λ count. count == n - 1) k (str_1 + k) (str_2 + k)
      ended (inl d) = inl d
      ended (inr (inl z)) = inr (inl z)
      ended (inr (inr e)) = inr (inr ((==_iff k (n - 1)).1 e))
