-- ===== src/Tx/WordLog.antt =====
-- The words that a transaction has written under one write lock: `WriteWordLogEntry`, the methods
-- of `WriteLogEntry` and `MaskWord` of src/stm/transaction_mixinv.h. The entries that are linked from
-- `head` are a list; a new one is linked in front.
pub mod Merge
pub mod Store
use Prim.Native.Nat.{bit_and, bit_or}
use tlstm.Prelude.{
  ℕ, ◌+◌, ◌-◌, ◌^◌, ◌<◌, Bool, true, false, Option, none, some, List, [], ◌∷◌, ◌==◌, if◌then◌else◌,
  update,
}
use tlstm.Prelude.Bits.{bit_not}
use tlstm.Common.Constants.{address_space_size, word_mod}

pub record WriteWordLogEntry : Type 0 where
  pub address : ℕ
  pub value : ℕ
  pub mask : ℕ

-- `~0x0`
abbrev pub log_entry_unmasked : ℕ
log_entry_unmasked = word_mod - 1

-- The memory of the process, a word at each address.
abbrev pub Memory : Type 0
Memory = ℕ → ℕ

unfoldable pub mask_word : (old val mask : ℕ) → ℕ
mask_word old val mask =
    if mask == log_entry_unmasked
    then val
    else bit_or (bit_and old (bit_not address_space_size mask)) (bit_and val mask)

-- `MaskWord(entry)`
unfoldable pub mask_entry : Memory → WriteWordLogEntry → ℕ
mask_entry memory entry = mask_word (memory entry.address) entry.value entry.mask

unfoldable pub find_word_log_entry : ℕ → List WriteWordLogEntry → Option WriteWordLogEntry
find_word_log_entry address [] = none
find_word_log_entry address (curr ∷ rest) =
    if curr.address == address then some curr else find_word_log_entry address rest

-- The update of the entry that was found, in its place.
unfoldable pub merge_found :
    (address value mask : ℕ) → List WriteWordLogEntry → List WriteWordLogEntry
merge_found address value mask [] = []
merge_found address value mask (entry ∷ rest) =
    let rest' = merge_found address value mask rest in
    if entry.address == address
    then record entry { value = mask_word entry.value value mask; mask = bit_or entry.mask mask }
      ∷ rest
    else entry ∷ rest'

unfoldable pub insert_word_log_entry :
    (address value mask : ℕ) → List WriteWordLogEntry → List WriteWordLogEntry
insert_word_log_entry address value mask head = elim (find_word_log_entry address head) [
  | none ↦ record { address = address; value = value; mask = mask } ∷ head
  | some entry ↦ merge_found address value mask head
]

-- The loop of the commit that stores the words of one write log entry.
unfoldable pub write_back : List WriteWordLogEntry → Memory → Memory
write_back [] memory = memory
write_back (entry ∷ rest) memory =
    write_back rest (update memory entry.address (mask_entry memory entry))
