-- ===== src/ReadWrite/Region/Fill.antt =====
-- The unions that `write_region` and `memset_tx` fill byte by byte, and stores that follow each other.
use tlstm.Prelude.{
  ℕ, zero, suc, ◌+◌, ◌-◌, ◌%◌, ◌≤◌, ◌<◌, ◌≡◌, refl, sym, ap, ◌∙◌, subst, arith, ◌==◌, ◌&&◌, leb,
  ltb, if◌then◌else◌, if_false, if_cases, if_join, Bool, Bool-cases, inl, inr, update,
}
use tlstm.Tx.WordLog.{Memory, mask_word}
use tlstm.Tx.WordLog.Merge.{IsWord}
use tlstm.ReadWrite.Union.{Union, load, write_whole}
use tlstm.ReadWrite.Union.Bytes.{IsBytes, byte-load}
use tlstm.ReadWrite.Union.Window.{
  AreWords, byte_at, Stores, StoresUnder-full, Covers, write_masked, write_masked-StoresUnder,
}
use tlstm.ReadWrite.Write.Exact.{write_whole_lem}
use tlstm.ReadWrite.Region.{Buffer, copy_bytes, mask_first_word, fill_first_word, mask_bytes}
use tlstm.ReadWrite.Region.Reads.{copy_bytes_lem}

pub mask_bytes_lem :
    (n i : ℕ) (u : Union) (q : ℕ)
    → mask_bytes n i u q ≡ (if leb i q && ltb q (i + n) then 255 else u q)
unfolding mask_bytes
mask_bytes_lem zero i u q = ground arith
mask_bytes_lem (suc n) i u q =
    mask_bytes_lem n (i + 1) (update u i 255) q
    ∙ if_join (leb (i + 1) q && ltb q (i + 1 + n)) (q == i) (leb i q && ltb q (i + suc n)) (u q)
        (λ t. (ground arith, refl)) (λ t e. (ground arith, refl)) (λ t e. ground arith)

-- The places of the first word that the loop reaches.
abbrev pub reached : (bytes start count q : ℕ) → Bool
reached bytes start count q = leb start q && ltb q 8 && ltb q (start + (bytes - count))

pub mask_first_word_lem :
    (fuel bytes start count : ℕ) (u : Union) (q : ℕ)
    → 8 ≤ fuel + start
    → mask_first_word fuel bytes start count u q
      ≡ (if reached bytes start count q then 255 else u q)
unfolding mask_first_word
mask_first_word_lem zero bytes start count u q h = ground arith
mask_first_word_lem (suc fuel) bytes start count u q h =
    elim (Bool-cases (ltb start 8 && ltb count bytes)) [
      | inl t ↦ rw t (
          mask_first_word_lem fuel bytes (start + 1) (count + 1) (update u start 255) q
            (omega arith)
          ∙ if_join (reached bytes (start + 1) (count + 1) q) (q == start)
              (reached bytes start count q) (u q) (λ c. (ground arith, refl))
              (λ c e. (ground arith, refl)) (λ c e. ground arith))
      | inr t ↦ rw t (sym (if_false {b = reached bytes start count q} _ _ (ground arith)))
    ]

pub fill_first_word_lem :
    (fuel bytes start count : ℕ) (src : Buffer) (u : Union) (q : ℕ)
    → 8 ≤ fuel + start
    → fill_first_word fuel bytes start count src u q
      ≡ (if reached bytes start count q then src (count + (q - start)) else u q)
unfolding fill_first_word
fill_first_word_lem zero bytes start count src u q h = ground arith
fill_first_word_lem (suc fuel) bytes start count src u q h =
    elim (Bool-cases (ltb start 8 && ltb count bytes)) [
      | inl t ↦ rw t (
          fill_first_word_lem fuel bytes (start + 1) (count + 1) src (update u start (src count)) q
            (omega arith)
          ∙ if_join (reached bytes (start + 1) (count + 1) q) (q == start)
              (reached bytes start count q) (u q) (λ c. (ground arith, ap src (ground arith)))
              (λ c e. (ground arith, ap src (ground arith))) (λ c e. ground arith))
      | inr t ↦ rw t (sym (if_false {b = reached bytes start count q} _ _ (ground arith)))
    ]

-- Filled unions hold bytes.
module _ (u : Union) (hu : IsBytes u) where
  pub mask_bytes-IsBytes : (n i : ℕ) → IsBytes (mask_bytes n i u)
  mask_bytes-IsBytes n i q =
      rw (mask_bytes_lem n i u q)
        (if_cases (λ x. x < 256) (leb i q && ltb q (i + n)) (λ _. omega arith) (λ _. hu q))

  pub mask_first_word-IsBytes : (bytes start : ℕ) → IsBytes (mask_first_word 8 bytes start 0 u)
  mask_first_word-IsBytes bytes start q =
      rw (mask_first_word_lem 8 bytes start 0 u q (omega arith))
        (if_cases (λ x. x < 256) (reached bytes start 0 q) (λ _. omega arith) (λ _. hu q))

  module _ (src : Buffer) (hs : IsBytes src) where
    pub fill_first_word-IsBytes :
        (bytes start : ℕ) → IsBytes (fill_first_word 8 bytes start 0 src u)
    fill_first_word-IsBytes bytes start q =
        rw (fill_first_word_lem 8 bytes start 0 src u q (omega arith))
          (if_cases (λ x. x < 256) (reached bytes start 0 q) (λ _. hs _) (λ _. hu q))

    pub copy_bytes-IsBytes : (n i k : ℕ) → IsBytes (copy_bytes n i k src u)
    copy_bytes-IsBytes n i k q =
        rw (copy_bytes_lem n i k src u q)
          (if_cases (λ x. x < 256) (leb k q && ltb q (k + n)) (λ _. hs _) (λ _. hu q))

-- A store of `n` bytes, and one of the next `k` bytes of the same source.
pub Stores-append :
    (m m₁ m₂ : Memory) (addr n k : ℕ) (f g : ℕ → ℕ)
    → Stores m m₁ addr n f
    → Stores m₁ m₂ (addr + n) k g
    → ((i : ℕ) → i < k → g i ≡ f (n + i))
    → Stores m m₂ addr (n + k) f
Stores-append m m₁ m₂ addr n k f g s t h b =
    t b
    ∙ ap (λ x. if leb (addr + n) b && ltb b (addr + n + k) then g (b - (addr + n)) else x) (s b)
    ∙ if_join (leb (addr + n) b && ltb b (addr + n + k)) (leb addr b && ltb b (addr + n))
        (leb addr b && ltb b (addr + (n + k))) (byte_at m b)
        (λ c. (ground arith, h (b - (addr + n)) (ground arith) ∙ ap f (ground arith)))
        (λ c e. (ground arith, refl)) (λ c e. ground arith)

pub Stores-ext :
    (m m' : Memory) (addr n : ℕ) (f g : ℕ → ℕ)
    → ((i : ℕ) → i < n → f i ≡ g i)
    → Stores m m' addr n f
    → Stores m m' addr n g
Stores-ext m m' addr n f g h s b = s b ∙ elim (Bool-cases (leb addr b && ltb b (addr + n))) [
  | inl t ↦ rw t (h (b - addr) (ground arith))
  | inr t ↦ rw t refl
]

pub Stores-cast :
    (m m' : Memory) (addr addr' n n' : ℕ) (f g : ℕ → ℕ)
    → addr ≡ addr'
    → n ≡ n'
    → ((i : ℕ) → f i ≡ g i)
    → Stores m m' addr n f
    → Stores m m' addr' n' g
Stores-cast m m' addr addr' n n' f g e e' h s =
    Stores-ext m m' addr' n' f g (λ i _. h i)
      (subst (λ x. Stores m m' x n' f) e (subst (λ x. Stores m m' addr x f) e' s))

-- The store of a covered range of one word, under full masks.
pub write_masked-Stores :
    (m : Memory) (base : ℕ) (val mask : Union) (pos n : ℕ) (bytes : ℕ → ℕ)
    → AreWords m
    → base % 8 ≡ 0
    → IsBytes val
    → IsBytes mask
    → IsBytes bytes
    → Covers val mask pos n bytes (λ _. 255) 8
    → pos + n ≤ 8
    → Stores m (write_masked m base 0 val mask) (base + pos) n bytes
write_masked-Stores m base val mask pos n bytes w a hv hm hb c h =
    StoresUnder-full m (write_masked m base 0 val mask) (base + pos) n bytes (λ _. 255)
      (write_masked-StoresUnder m w base val mask a hv hm pos n bytes (λ _. 255) c h) (λ i lt. refl)
      hb

-- The store of a whole word from a buffer.
pub write_whole-Stores :
    (m : Memory) (addr at : ℕ) (src : Buffer)
    → IsBytes src
    → addr % 8 ≡ 0
    → Stores m (write_whole m addr (load 8 at src)) addr 8 (λ i. src (at + i))
write_whole-Stores m addr at src hs a b =
    write_whole_lem m addr (load 8 at src) a b
    ∙ elim (Bool-cases (leb addr b && ltb b (addr + 8))) [
      | inl t ↦ rw t (byte-load src hs 8 at (b - addr) (ground arith))
      | inr t ↦ rw t refl
    ]

pub write_whole-AreWords :
    (m : Memory) (addr v : ℕ) → AreWords m → IsWord v → AreWords (write_whole m addr v)
unfolding mask_word
write_whole-AreWords m addr v w h a = if_cases IsWord (a == addr) (λ _. h) (λ _. w a)
