-- ===== src/Common/Constants.antt =====
-- src/stm/constants.h, for the 64-bit build (TLSTM_64).
use tlstm.Prelude.{ℕ, ◌-◌, ◌^◌}

abbrev pub address_space_size : ℕ
address_space_size = 64

abbrev pub log_bytes_in_word : ℕ
log_bytes_in_word = 3

-- A `Word` is `uintptr_t`: a number below this bound.
abbrev pub word_mod : ℕ
word_mod = 2 ^ address_space_size

abbrev pub max_threads : ℕ
max_threads = 64

abbrev pub minimum_ts : ℕ
minimum_ts = 0

abbrev pub lock_reserved_bits : ℕ
lock_reserved_bits = 2

abbrev pub maximum_ts : ℕ
maximum_ts = 2 ^ (address_space_size - lock_reserved_bits) - 1 - max_threads

abbrev pub lsb : ℕ
lsb = 1

abbrev pub read_lock_set : ℕ
read_lock_set = lsb
