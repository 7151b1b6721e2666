-- ===== src/ReadWrite/Union.antt =====
-- `read_write_conv_t` of src/stm/read_write.h: sixteen bytes, read and written at several sizes by
-- its members, and the transaction as this file sees it, a word at each word address.
pub mod Bytes
pub mod Window
use tlstm.Prelude.{ℕ, zero, suc, ◌+◌, ◌-◌, ◌*◌, ◌/◌, ◌%◌, ◌&&◌, leb, ltb, if◌then◌else◌, update}
use tlstm.Tx.WordLog.{Memory, mask_word, log_entry_unmasked}

-- Byte `k` of a little-endian number.
unfoldable pub byte : ℕ → ℕ → ℕ
byte w zero = w % 256
byte w (suc k) = byte (w / 256) k

-- The bytes of the union, from its start.
abbrev pub Union : Type 0
Union = ℕ → ℕ

-- The bytes of a union that is declared and not set: the ones that the stack holds there.
abbrev pub uninitialised : ℕ → Union
uninitialised stack i = byte stack i

-- A member of `n` bytes at offset `off` is assigned `w`.
abbrev pub store : (n off w : ℕ) → Union → Union
store n off w u i = if leb off i && ltb i (off + n) then byte w (i - off) else u i

-- A member of `n` bytes at offset `off` is read.
unfoldable pub load : (n off : ℕ) → Union → ℕ
load zero off u = 0
load (suc n) off u = u off + 256 * load n (off + 1) u

-- The offsets of the members.
abbrev pub b8 : ℕ → ℕ
b8 i = i

abbrev pub b16 : ℕ → ℕ
b16 i = 2 * i

abbrev pub b32 : ℕ → ℕ
b32 i = 4 * i

abbrev pub b64 : ℕ → ℕ
b64 i = 8 * i

-- Where a member stands in a `struct` after `pad` bytes, when its alignment is `n`: the structs of the
-- union are not packed, so the compiler goes on to the next multiple of `n`.
abbrev pub aligned_up : (n pad : ℕ) → ℕ
aligned_up n pad = pad + (n - 1) - (pad + (n - 1)) % n

-- `mask_16.b16[i]`, after one byte.
abbrev pub mask_16 : ℕ → ℕ
mask_16 i = aligned_up 2 1 + 2 * i

-- `mask_32_k.b32[i]`, after `k` bytes.
abbrev pub mask_32 : ℕ → ℕ → ℕ
mask_32 k i = aligned_up 4 k + 4 * i

-- `mask_64_k.b64`, after `k` bytes.
abbrev pub mask_64 : ℕ → ℕ
mask_64 k = aligned_up 8 k

-- `addr & MASK_64` and `addr & ~MASK_64`
abbrev pub word64_pos : ℕ → ℕ
word64_pos addr = addr % 8

abbrev pub word64_address : ℕ → ℕ
word64_address addr = addr - addr % 8

-- `tx->ReadWord(addr)` and `tx->WriteWord(addr, val, mask)`, on what the transaction sees at each
-- word address: Tx.Write and Tx.Read, without the restart.
abbrev pub read_word : Memory → ℕ → ℕ
read_word m addr = m addr

abbrev pub write_word : Memory → (addr val mask : ℕ) → Memory
write_word m addr val mask = update m addr (mask_word (m addr) val mask)

-- `tx->WriteWord(addr, val)`: the mask is LOG_ENTRY_UNMASKED.
abbrev pub write_whole : Memory → (addr val : ℕ) → Memory
write_whole m addr val = write_word m addr val log_entry_unmasked
