-- ===== src/Common/VersionLock.antt =====
-- src/stm/common/version_lock.h: a timestamp and a lock bit in one word.
use Prim.Native.Nat.{bit_and}
use tlstm.Prelude.{ℕ, ◌*◌, ◌/◌, ◌%◌, ◌^◌, ◌≤◌, ◌≡◌, Bool, true, false, not, arith, ◌==◌}
use tlstm.Prelude.Bits.{bit_and-one}
use tlstm.Common.Constants.{word_mod, lock_reserved_bits, maximum_ts, lsb, read_lock_set}

-- `(unsigned)lock & LSB`, as a condition.
unfoldable pub is_read_locked : ℕ → Bool
is_read_locked lock = not (bit_and (lock % 2 ^ 32) lsb == 0)

unfoldable pub get_value : ℕ → ℕ
get_value lock = lock / 2 ^ lock_reserved_bits

unfoldable pub get_version_lock : ℕ → ℕ
get_version_lock ts = ts * 2 ^ lock_reserved_bits % word_mod

-- The version word of every timestamp up to `MAXIMUM_TS` gives the timestamp back, does not read
-- as locked, and differs from the word of a set read lock, which does.
pub version_lock_roundtrip :
    (ts : ℕ)
    → ts ≤ maximum_ts
    → (get_value (get_version_lock ts) ≡ ts)
      × (is_read_locked (get_version_lock ts) ≡ false)
      × (is_read_locked read_lock_set ≡ true)
unfolding get_value get_version_lock is_read_locked
version_lock_roundtrip ts h =
    (omega arith, ground (arith, bit_and-one (ts * 4 % word_mod % 2 ^ 32)), ground arith)

-- Two timestamps in range have the same version word only if they are the same.
pub get_version_lock-injective :
    (ts ts' : ℕ)
    → ts ≤ maximum_ts
    → ts' ≤ maximum_ts
    → get_version_lock ts ≡ get_version_lock ts'
    → ts ≡ ts'
unfolding get_version_lock
get_version_lock-injective ts ts' h h' e = omega arith
