-- ===== src/Prelude/Bits.antt =====
-- Bitwise operations on words of `k` bits: one equation for the lowest digit of each.
use Prim.Native.Nat.{
  min, max, digits, bitwise, bit_and, bit_or, bit_and-bitwise, bit_or-bitwise, ℕ, zero, suc, ◌+◌,
  ◌-◌, ◌*◌, ◌/◌, ◌%◌, ◌^◌, ◌≤◌, ◌<◌,
}
use mathlib.Core.Path.{◌≡◌, refl}
use native.Mathlib.Nat.{pow-suc, one-le-pow}
use native.Mathlib.Omega.{arith}
use tlstm.Prelude.Tests.{◌==◌, if◌then◌else◌}

-- The fuel of the library's recursion on digits does not matter once it is enough.
module _ (z : ℕ → ℕ) (f : ℕ → ℕ → ℕ) where
  fuel_irrelevant :
      (x : ℕ) (p q y : ℕ) → x ≤ p → x ≤ q → p ≤ q → digits z f p x y ≡ digits z f q x y
  fuel_irrelevant x zero zero y hp hq le = refl
  fuel_irrelevant zero zero (suc q) y hp hq le = refl
  fuel_irrelevant (suc x) zero (suc q) y hp hq le = absurd (omega arith)
  fuel_irrelevant x (suc p) zero y hp hq le = absurd (omega arith)
  fuel_irrelevant zero (suc p) (suc q) y hp hq le = refl
  fuel_irrelevant (suc x) (suc p) (suc q) y hp hq le =
      rw (fuel_irrelevant (suc x / 2) p q (y / 2) (omega arith) (omega arith) (omega arith))

  bitwise_low :
      (x y : ℕ)
      → bitwise z f (suc x) y ≡ bitwise z f (suc x / 2) (y / 2) * 2 + f (suc x % 2) (y % 2)
  bitwise_low x y = omega (
    arith,
    fuel_irrelevant (suc x / 2) (suc x / 2) x (y / 2) (omega arith) (omega arith) (omega arith),
  )

pub bit_and_low : (x y : ℕ) → bit_and x y ≡ bit_and (x / 2) (y / 2) * 2 + min (x % 2) (y % 2)
bit_and_low zero y = simp bit_and-bitwise (omega arith)
bit_and_low (suc x) y = simp bit_and-bitwise (bitwise_low (λ _. 0) min x y)

pub bit_or_low : (x y : ℕ) → bit_or x y ≡ bit_or (x / 2) (y / 2) * 2 + max (x % 2) (y % 2)
bit_or_low zero y = simp bit_or-bitwise (omega arith)
bit_or_low (suc x) y = simp bit_or-bitwise (bitwise_low (λ b. b) max x y)

-- `~x` of a `k`-bit word.
abbrev pub bit_not : ℕ → ℕ → ℕ
bit_not k x = 2 ^ k - 1 - x

-- The word that has the bit of `new` where `mask` has a one, and the bit of `old` elsewhere.
unfoldable pub select : ℕ → ℕ → ℕ → ℕ → ℕ
select zero old new mask = 0
select (suc k) old new mask =
    select k (old / 2) (new / 2) (mask / 2) * 2 + (if mask % 2 == 1 then new % 2 else old % 2)

pub select-lt : (k old new mask : ℕ) → select k old new mask < 2 ^ k
unfolding select
select-lt zero old new mask = omega arith
select-lt (suc k) old new mask =
    ground (arith, pow-suc 2 k, select-lt k (old / 2) (new / 2) (mask / 2))

-- C's `(old & ~mask) | (new & mask)`.
pub bits-eq-select :
    (k old new mask : ℕ)
    → old < 2 ^ k
    → new < 2 ^ k
    → mask < 2 ^ k
    → bit_or (bit_and old (bit_not k mask)) (bit_and new mask) ≡ select k old new mask
unfolding select
bits-eq-select zero o n m ho hn hm =
    let o_zero : o ≡ 0 = omega arith in
    let n_zero : n ≡ 0 = omega arith in
    let m_zero : m ≡ 0 = omega arith in rw (o_zero, n_zero, m_zero)
bits-eq-select (suc k) o n m ho hn hm =
    let halved : bit_not (suc k) m / 2 ≡ bit_not k (m / 2) = omega (arith, pow-suc 2 k) in
    let low : bit_not (suc k) m % 2 ≡ 1 - m % 2 = omega (arith, pow-suc 2 k, one-le-pow k 2) in
    let kept : bit_and o (bit_not (suc k) m) / 2 ≡ bit_and (o / 2) (bit_not k (m / 2)) =
      rw (← halved) (omega (arith, bit_and_low o (bit_not (suc k) m))) in
    let taken : bit_and n m / 2 ≡ bit_and (n / 2) (m / 2) = omega (arith, bit_and_low n m) in
    ground (
      arith,
      bit_or_low (bit_and o (bit_not (suc k) m)) (bit_and n m),
      bit_and_low o (bit_not (suc k) m),
      bit_and_low n m,
      pow-suc 2 k,
      bits-eq-select k (o / 2) (n / 2) (m / 2) (omega (arith, pow-suc 2 k))
          (omega (arith, pow-suc 2 k)) (omega (arith, pow-suc 2 k)),
    )

eq_of_halves : (x y : ℕ) → x / 2 ≡ y / 2 → x % 2 ≡ y % 2 → x ≡ y
eq_of_halves x y h l = omega arith

module _ (k old new mask : ℕ) where
  select-half : select (suc k) old new mask / 2 ≡ select k (old / 2) (new / 2) (mask / 2)
  unfolding select
  select-half = ground arith

  select_low : select (suc k) old new mask % 2 ≡ (if mask % 2 == 1 then new % 2 else old % 2)
  unfolding select
  select_low = ground arith

bit_or-half : (x y : ℕ) → bit_or x y / 2 ≡ bit_or (x / 2) (y / 2)
bit_or-half x y = omega (arith, bit_or_low x y)

-- A second selection on top of a first one is one selection by the union of the masks.
pub select-select :
    (k old new new' mask mask' : ℕ)
    → select k (select k old new mask) new' mask'
      ≡ select k old (select k new new' mask') (bit_or mask mask')
select-select zero old new new' mask mask' = unfold select in refl
select-select (suc k) old new new' mask mask' =
    eq_of_halves _ _
      (simp (select-half, bit_or-half)
        (select-select k (old / 2) (new / 2) (new' / 2) (mask / 2) (mask' / 2)))
      (ground (
        arith,
        select_low k (select (suc k) old new mask) new' mask',
        select_low k old new mask,
        select_low k old (select (suc k) new new' mask') (bit_or mask mask'),
        select_low k new new' mask',
        bit_or_low mask mask',
      ))

ones-half : (k : ℕ) → (2 ^ suc k - 1) / 2 ≡ 2 ^ k - 1
ones-half k = omega (arith, pow-suc 2 k, one-le-pow k 2)

pub select_all : (k old new : ℕ) → new < 2 ^ k → select k old new (2 ^ k - 1) ≡ new
select_all zero old new h = omega (arith, select-lt 0 old new 0)
select_all (suc k) old new h =
    eq_of_halves _ _
      (simp (select-half, ones-half)
        (select_all k (old / 2) (new / 2) (omega (arith, pow-suc 2 k))))
      (ground (arith, select_low k old new (2 ^ suc k - 1), pow-suc 2 k, one-le-pow k 2))

pub select_none : (k old new : ℕ) → old < 2 ^ k → select k old new 0 ≡ old
unfolding select
select_none zero old new h = omega arith
select_none (suc k) old new h =
    ground (arith, pow-suc 2 k, select_none k (old / 2) (new / 2) (omega (arith, pow-suc 2 k)))

-- The union of two masks of `k` bits fits `k` bits.
pub bit_or-lt : (k x y : ℕ) → x < 2 ^ k → y < 2 ^ k → bit_or x y < 2 ^ k
bit_or-lt zero x y hx hy =
    let x_zero : x ≡ 0 = omega arith in
    let y_zero : y ≡ 0 = omega arith in rw (x_zero, y_zero) (omega arith)
bit_or-lt (suc k) x y hx hy = omega (
  arith,
  bit_or_low x y,
  pow-suc 2 k,
  bit_or-lt k (x / 2) (y / 2) (omega (arith, pow-suc 2 k)) (omega (arith, pow-suc 2 k)),
)

bit_and-zero_upto : (n x : ℕ) → x ≤ n → bit_and x 0 ≡ 0
bit_and-zero_upto n zero h = refl
bit_and-zero_upto zero (suc x) h = absurd (omega arith)
bit_and-zero_upto (suc n) (suc x) h =
    omega (arith, bit_and_low (suc x) 0, bit_and-zero_upto n (suc x / 2) (omega arith))

pub bit_and-one : (x : ℕ) → bit_and x 1 ≡ x % 2
bit_and-one x = omega (arith, bit_and_low x 1, bit_and-zero_upto x (x / 2) (omega arith))
