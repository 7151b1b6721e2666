-- ===== src/Tx/WordLog/Merge.antt =====
-- Logging words and writing them back is the same as storing them at once.
use Prim.Native.Nat.{bit_or}
use tlstm.Prelude.{ℕ, ◌<◌, ◌≡◌, ◌==◌, Bool-cases, inl, inr, ==_iff, sym, ap, ◌∙◌}
use tlstm.Prelude.Bits.{select, select-lt, bits-eq-select, select-select, select_all, bit_or-lt}
use tlstm.Common.Constants.{word_mod, address_space_size}
use tlstm.Tx.WordLog.{log_entry_unmasked, mask_word}

-- A value or a mask that fits a `Word`.
abbrev pub IsWord : ℕ → Type 0
IsWord x = x < word_mod

pub mask_word-select :
    (old val mask : ℕ)
    → IsWord old
    → IsWord val
    → IsWord mask
    → mask_word old val mask ≡ select address_space_size old val mask
unfolding mask_word
mask_word-select old val mask ho hv hm = elim (Bool-cases (mask == log_entry_unmasked)) [
  | inl all ↦
      rw (all, (==_iff mask log_entry_unmasked).0 all)
        (sym (select_all address_space_size old val hv))
  | inr some_bits ↦ rw some_bits (bits-eq-select address_space_size old val mask ho hv hm)
]

pub mask_word-IsWord :
    (old val mask : ℕ) → IsWord old → IsWord val → IsWord mask → IsWord (mask_word old val mask)
mask_word-IsWord old val mask ho hv hm =
    rw (mask_word-select old val mask ho hv hm) (select-lt address_space_size old val mask)

-- Masking a word twice is masking it once with the merged value, under the union of the masks.
pub mask_word-mask_word :
    (old val val' mask mask' : ℕ)
    → IsWord old
    → IsWord val
    → IsWord val'
    → IsWord mask
    → IsWord mask'
    → mask_word (mask_word old val mask) val' mask'
      ≡ mask_word old (mask_word val val' mask') (bit_or mask mask')
mask_word-mask_word old val val' mask mask' ho hv hv' hm hm' =
    mask_word-select _ val' mask' (mask_word-IsWord old val mask ho hv hm) hv' hm'
    ∙ ap (λ x. select address_space_size x val' mask') (mask_word-select old val mask ho hv hm)
    ∙ select-select address_space_size old val val' mask mask'
    ∙ ap (λ x. select address_space_size old x (bit_or mask mask'))
        (sym (mask_word-select val val' mask' hv hv' hm'))
    ∙ sym (
        mask_word-select old _ (bit_or mask mask') ho (mask_word-IsWord val val' mask' hv hv' hm')
          (bit_or-lt address_space_size mask mask' hm hm'))
