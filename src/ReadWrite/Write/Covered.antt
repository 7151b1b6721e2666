-- ===== src/ReadWrite/Write/Covered.antt =====
-- A value and a mask stored at one offset of their unions cover the bytes that they should.
use tlstm.Prelude.{
  ℕ, ◌%◌, ◌+◌, ◌-◌, ◌≤◌, ◌<◌, ◌≡◌, refl, subst, arith, ◌&&◌, leb, ltb, if◌then◌else◌, if_true,
  if_cases,
}
use tlstm.Tx.WordLog.{Memory}
use tlstm.ReadWrite.Union.{byte, Union, store, uninitialised}
use tlstm.ReadWrite.Union.Bytes.{IsBytes, byte-lt, byte_zero, byte_ones}
use tlstm.ReadWrite.Union.Window.{
  AreWords, Covers, Stores, StoresUnder, StoresUnder-full, write_masked-StoresUnder,
  write_pair-StoresUnder,
}
use tlstm.ReadWrite.Write.{all_ones, clear_mask, clear_both, write_first, write_both}

store-IsBytes : (n off w : ℕ) (u : Union) → IsBytes u → IsBytes (store n off w u)
store-IsBytes n off w u h i =
    if_cases (λ x. x < 256) (leb off i && ltb i (off + n)) (λ _. byte-lt _ _) (λ _. h i)

module _ (stack' : ℕ) where
  pub off_first : (q : ℕ) → q < 8 → clear_mask stack' q ≡ 0
  off_first q h = ground (arith, byte_zero (q - 0))

  pub clear_mask-IsBytes : IsBytes (clear_mask stack')
  clear_mask-IsBytes = store-IsBytes 8 0 0 _ (λ i. byte-lt stack' i)

module _ (stack stack' n pos v w : ℕ) where
  -- Outside the member the mask keeps what was cleared.
  masked_off :
      (q c : ℕ)
      → c ≡ 0
      → (if leb pos q && ltb q (pos + n) then byte w (q - pos) else c)
        ≡ (if leb pos q && ltb q (pos + n) then byte w (q - pos) else 0)
  masked_off q c e = rw e refl

  off_both : (q : ℕ) → q < 16 → clear_both stack' q ≡ 0
  off_both q h = ground (arith, byte_zero (q - 8), byte_zero (q - 0))

  first-Covers :
      Covers
        (store n pos v (uninitialised stack))
        (store n pos w (clear_mask stack'))
        pos
        n
        (byte v)
        (byte w)
        8
  first-Covers = record {
    masked = λ q lt. masked_off q _ (off_first stack' q lt);
    valued = λ q l r. if_true {b = leb pos q && ltb q (pos + n)} _ _ (ground arith);
  }

  both-Covers :
      Covers
        (store n pos v (uninitialised stack))
        (store n pos w (clear_both stack'))
        pos
        n
        (byte v)
        (byte w)
        16
  both-Covers = record {
    masked = λ q lt. masked_off q _ (off_both q lt);
    valued = λ q l r. if_true {b = leb pos q && ltb q (pos + n)} _ _ (ground arith);
  }

  val-IsBytes : IsBytes (store n pos v (uninitialised stack))
  val-IsBytes = store-IsBytes n pos v _ (λ i. byte-lt stack i)

  module _ (m : Memory) (words : AreWords m) (base addr : ℕ) (aligned : base % 8 ≡ 0)
      (here : base + pos ≡ addr) where
    pub write_first_lem :
        pos + n ≤ 8
        → StoresUnder m
            (write_first m base
              (store n pos v (uninitialised stack))
              (store n pos w (clear_mask stack')))
            addr
            n
            (byte v)
            (byte w)
    write_first_lem h =
        subst
          (λ a.
            StoresUnder m
              (write_first m base (store n pos v (uninitialised stack))
                (store n pos w (clear_mask stack')))
              a n (byte v) (byte w))
          here
          (write_masked-StoresUnder m words base _ _ aligned val-IsBytes
            (store-IsBytes n pos w _ (clear_mask-IsBytes stack')) pos n (byte v) (byte w)
            first-Covers h)

    pub write_both_lem :
        pos + n ≤ 16
        → StoresUnder m
            (write_both m base
              (store n pos v (uninitialised stack))
              (store n pos w (clear_both stack')))
            addr
            n
            (byte v)
            (byte w)
    write_both_lem h =
        subst
          (λ a.
            StoresUnder m
              (write_both m base (store n pos v (uninitialised stack))
                (store n pos w (clear_both stack')))
              a n (byte v) (byte w))
          here
          (write_pair-StoresUnder m words base _ _ aligned val-IsBytes
            (store-IsBytes n pos w _ (store-IsBytes 8 8 0 _ (clear_mask-IsBytes stack'))) pos n
            (byte v) (byte w) both-Covers h)

-- Under a full mask the value is stored exactly.
module _ (stack stack' n pos v : ℕ) (m : Memory) (words : AreWords m) (base addr : ℕ)
    (aligned : base % 8 ≡ 0) (here : base + pos ≡ addr) where
  pub write_first-Stores :
      pos + n ≤ 8
      → Stores m
          (write_first m base
            (store n pos v (uninitialised stack))
            (store n pos (all_ones n) (clear_mask stack')))
          addr
          n
          (byte v)
  write_first-Stores h =
      StoresUnder-full m
        (write_first m base (store n pos v (uninitialised stack))
          (store n pos (all_ones n) (clear_mask stack')))
        addr n (byte v) (byte (all_ones n))
        (write_first_lem stack stack' n pos v (all_ones n) m words base addr aligned here h)
        (byte_ones n) (byte-lt v)

  pub write_both-Stores :
      pos + n ≤ 16
      → Stores m
          (write_both m base
            (store n pos v (uninitialised stack))
            (store n pos (all_ones n) (clear_both stack')))
          addr
          n
          (byte v)
  write_both-Stores h =
      StoresUnder-full m
        (write_both m base (store n pos v (uninitialised stack))
          (store n pos (all_ones n) (clear_both stack')))
        addr n (byte v) (byte (all_ones n))
        (write_both_lem stack stack' n pos v (all_ones n) m words base addr aligned here h)
        (byte_ones n) (byte-lt v)
