-- ===== src/Tx/Locks.antt =====
-- The map from addresses to locks of src/stm/transaction_mixinv.h. A lock is a place in
-- `version_lock_table`.
use tlstm.Prelude.{ℕ, ◌+◌, ◌-◌, ◌*◌, ◌/◌, ◌%◌, ◌^◌, ◌<◌, ◌≡◌, ◌↔◌, arith}
use tlstm.Common.Constants.{log_bytes_in_word}

abbrev pub log_default_lock_extent_size_words : ℕ
log_default_lock_extent_size_words = 1

-- `LOCK_EXTENT`, without `ADAPTIVE_LOCKING`
abbrev pub lock_extent : ℕ
lock_extent = log_default_lock_extent_size_words + log_bytes_in_word

abbrev pub version_lock_table_size : ℕ
version_lock_table_size = 2 ^ 22

abbrev pub full_version_lock_table_size : ℕ
full_version_lock_table_size = version_lock_table_size * 2

-- The mask is one less than a power of two.
unfoldable pub map_address_to_index_le : (address le : ℕ) → ℕ
map_address_to_index_le address le = address / 2 ^ le % version_lock_table_size

unfoldable pub map_address_to_index : ℕ → ℕ
unfolding map_address_to_index_le
map_address_to_index address = map_address_to_index_le address lock_extent * 2

unfoldable pub map_address_to_read_lock : ℕ → ℕ
unfolding map_address_to_index
map_address_to_read_lock address = map_address_to_index address

unfoldable pub map_address_to_write_lock : ℕ → ℕ
unfolding map_address_to_read_lock
map_address_to_write_lock address = map_address_to_read_lock address + 1

unfoldable pub map_read_lock_to_write_lock : ℕ → ℕ
map_read_lock_to_write_lock lock = lock + 1

unfoldable pub map_write_lock_to_read_lock : ℕ → ℕ
map_write_lock_to_read_lock lock = lock - 1

-- The two locks of an address lie in the table, next to each other, the read lock at an even place,
-- and each is found from the other. Two addresses share them exactly when their 16-byte stripes
-- are equal modulo the number of stripes.
pub map_address_lem :
    (a b : ℕ)
    → (map_address_to_write_lock a < full_version_lock_table_size)
      × (map_address_to_read_lock a % 2 ≡ 0)
      × (map_read_lock_to_write_lock (map_address_to_read_lock a) ≡ map_address_to_write_lock a)
      × (map_write_lock_to_read_lock (map_address_to_write_lock a) ≡ map_address_to_read_lock a)
      × ((map_address_to_write_lock a ≡ map_address_to_write_lock b)
          ↔ (a / 16 % version_lock_table_size ≡ b / 16 % version_lock_table_size))
unfolding map_address_to_write_lock map_read_lock_to_write_lock map_write_lock_to_read_lock
map_address_lem a b =
    (omega arith, omega arith, omega arith, omega arith, (λ h. omega arith, λ h. omega arith))
