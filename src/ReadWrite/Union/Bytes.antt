-- ===== src/ReadWrite/Union/Bytes.antt =====
-- Bytes of numbers: members of the union are their bytes, and a masked word is masked byte by byte.
use tlstm.Prelude.{ℕ, zero, suc, ◌+◌, ◌-◌, ◌*◌, ◌/◌, ◌%◌, ◌^◌, ◌<◌, ◌≡◌, refl, ap, ◌∙◌, arith}
use tlstm.Prelude.Bits.{select, select-lt}
use tlstm.ReadWrite.Union.{byte, Union, load}
use tlstm.Tx.WordLog.{mask_word}
use tlstm.Tx.WordLog.Merge.{IsWord, mask_word-select, mask_word-IsWord}
use native.Mathlib.Nat.{pow-suc, one-le-pow}

pub byte-lt : (w k : ℕ) → byte w k < 256
unfolding byte
byte-lt w zero = omega arith
byte-lt w (suc k) = byte-lt (w / 256) k

-- Every entry of the union is a byte.
abbrev pub IsBytes : Union → Type 0
IsBytes u = (i : ℕ) → u i < 256

byte-suc : (w a k : ℕ) → a < 256 → byte (a + 256 * w) (suc k) ≡ byte w k
unfolding byte
byte-suc w a k h = ap (λ x. byte x k) (omega arith)

pub byte-load :
    (u : Union) → IsBytes u → (n off k : ℕ) → k < n → byte (load n off u) k ≡ u (off + k)
unfolding byte load
byte-load u bytes zero off k h = absurd (omega arith)
byte-load u bytes (suc n) off zero h =
    let here : off + 0 ≡ off = omega arith in rw here (omega (arith, bytes off))
byte-load u bytes (suc n) off (suc k) h =
    byte-suc (load n (off + 1) u) (u off) k (bytes off)
    ∙ byte-load u bytes n (off + 1) k (omega arith)
    ∙ ap u (omega arith)

pub load-lt : (u : Union) → IsBytes u → (n off : ℕ) → load n off u < 256 ^ n
unfolding load
load-lt u bytes zero off = omega arith
load-lt u bytes (suc n) off = omega (arith, pow-suc 256 n, bytes off, load-lt u bytes n (off + 1))

-- A member reads its own bytes only.
pub load-eq :
    (u v : Union) (n off off' : ℕ)
    → ((i : ℕ) → i < n → u (off + i) ≡ v (off' + i))
    → load n off u ≡ load n off' v
unfolding load
load-eq u v zero off off' h = refl
load-eq u v (suc n) off off' h =
    let here : u off ≡ v off' = ap u (omega arith) ∙ h 0 (omega arith) ∙ ap v (omega arith) in
    let rest : load n (off + 1) u ≡ load n (off' + 1) v =
      load-eq u v n (off + 1) (off' + 1)
        (λ i lt. ap u (omega arith) ∙ h (i + 1) (omega arith) ∙ ap v (omega arith)) in
    rw (here, rest)

-- The bytes of a number make the number.
pub load-byte :
    (w n off : ℕ) (u : Union)
    → w < 256 ^ n
    → ((i : ℕ) → i < n → u (off + i) ≡ byte w i)
    → load n off u ≡ w
unfolding load byte
load-byte w zero off u lt h = omega arith
load-byte w (suc n) off u lt h =
    let here : u off ≡ w % 256 = ap u (omega arith) ∙ h 0 (omega arith) in
    omega (
      arith,
      here,
      load-byte (w / 256) n (off + 1) u (omega (arith, pow-suc 256 n))
          (λ i l. ap u (omega arith) ∙ h (suc i) (omega arith)),
    )

pub byte_ones : (n k : ℕ) → k < n → byte (256 ^ n - 1) k ≡ 255
unfolding byte
byte_ones zero k h = absurd (omega arith)
byte_ones (suc n) zero h = omega (arith, pow-suc 256 n, one-le-pow n 256)
byte_ones (suc n) (suc k) h =
    ap (λ x. byte x k) (omega (arith, pow-suc 256 n, one-le-pow n 256))
    ∙ byte_ones n k (omega arith)

pub byte_zero : (k : ℕ) → byte 0 k ≡ 0
unfolding byte
byte_zero zero = refl
byte_zero (suc k) = byte_zero k

-- One more byte below a selection.
select_byte :
    (n old val mask : ℕ)
    → select (suc (suc (suc (suc (suc (suc (suc (suc n)))))))) old val mask
      ≡ select 8 old val mask + 256 * select n (old / 256) (val / 256) (mask / 256)
unfolding select
select_byte n old val mask = rw (eighth old, eighth val, eighth mask) (omega arith)
  where
    eighth : (x : ℕ) → x / 2 / 2 / 2 / 2 / 2 / 2 / 2 / 2 ≡ x / 256
    eighth x = omega arith

-- A selection reads the low digits only.
select_low :
    (k o v m a b c : ℕ) → select k (o + 2 ^ k * a) (v + 2 ^ k * b) (m + 2 ^ k * c) ≡ select k o v m
unfolding select
select_low zero o v m a b c = refl
select_low (suc k) o v m a b c = rw (
  digit o a,
  digit v b,
  digit m c,
  rest o a,
  rest v b,
  rest m c,
  select_low k (o / 2) (v / 2) (m / 2) a b c,
)
  where
    twice : (x : ℕ) → 2 ^ suc k * x ≡ 2 * (2 ^ k * x)
    twice x = rw pow-suc (grind arith)

    digit : (x y : ℕ) → (x + 2 ^ suc k * y) % 2 ≡ x % 2
    digit x y = omega (arith, twice y)

    rest : (x y : ℕ) → (x + 2 ^ suc k * y) / 2 ≡ x / 2 + 2 ^ k * y
    rest x y = omega (arith, twice y)

select_low_byte :
    (old val mask : ℕ) → select 8 old val mask ≡ select 8 (old % 256) (val % 256) (mask % 256)
select_low_byte old val mask =
    ap (λ x. select 8 x val mask) (parts old)
    ∙ ap (λ x. select 8 (old % 256 + 2 ^ 8 * (old / 256)) x mask) (parts val)
    ∙ ap (λ x. select 8 (old % 256 + 2 ^ 8 * (old / 256)) (val % 256 + 2 ^ 8 * (val / 256)) x)
        (parts mask)
    ∙ select_low 8 (old % 256) (val % 256) (mask % 256) (old / 256) (val / 256) (mask / 256)
  where
    parts : (x : ℕ) → x ≡ x % 256 + 2 ^ 8 * (x / 256)
    parts x = omega arith

select_bytes :
    (j old val mask : ℕ)
    → select (8 * suc j) old val mask
      ≡ select 8 old val mask + 256 * select (8 * j) (old / 256) (val / 256) (mask / 256)
select_bytes j old val mask =
    ap (λ n. select n old val mask) (omega arith) ∙ select_byte (8 * j) old val mask

-- A selection is made byte by byte.
byte-select :
    (j k old val mask : ℕ)
    → k < j
    → byte (select (8 * j) old val mask) k ≡ select 8 (byte old k) (byte val k) (byte mask k)
unfolding byte
byte-select zero k old val mask h = absurd (omega arith)
byte-select (suc j) zero old val mask h =
    omega (arith, select_bytes j old val mask, select-lt 8 old val mask)
    ∙ select_low_byte old val mask
byte-select (suc j) (suc k) old val mask h =
    ap (λ x. byte x (suc k)) (select_bytes j old val mask)
    ∙ byte-suc _ _ k (select-lt 8 old val mask)
    ∙ byte-select j k (old / 256) (val / 256) (mask / 256) (omega arith)

-- The word that a masked write of the union's first or second word leaves, at each of its bytes.
pub byte-mask_word :
    (old : ℕ) (val mask : Union) (off k : ℕ)
    → IsWord old
    → IsBytes val
    → IsBytes mask
    → k < 8
    → byte (mask_word old (load 8 off val) (load 8 off mask)) k
      ≡ select 8 (byte old k) (val (off + k)) (mask (off + k))
byte-mask_word old val mask off k ho hv hm h =
    rw
      (mask_word-select old (load 8 off val) (load 8 off mask) ho (load-lt val hv 8 off)
        (load-lt mask hm 8 off))
      (byte-select 8 k old (load 8 off val) (load 8 off mask) h
        ∙ rw (byte-load val hv 8 off k h, byte-load mask hm 8 off k h))

pub mask_word-load-IsWord :
    (old : ℕ) (val mask : Union) (off : ℕ)
    → IsWord old
    → IsBytes val
    → IsBytes mask
    → IsWord (mask_word old (load 8 off val) (load 8 off mask))
mask_word-load-IsWord old val mask off ho hv hm =
    mask_word-IsWord old _ _ ho (load-lt val hv 8 off) (load-lt mask hm 8 off)
