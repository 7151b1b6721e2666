-- ===== src/Tests/ReadWriteExamples.antt =====
-- Examples for the theorems on src/stm/read_write.h: a memory that holds the same word everywhere.
use tlstm.Prelude.{
  ℕ, ◌+◌, ◌%◌, ◌≡◌, ◌==◌, refl, some, inl, if◌then◌else◌, arith, zero, suc, ◌<◌, ◌≢◌,
}
use tlstm.Prelude.Int.{sub_ℕ, negsuc}
use tlstm.Tx.WordLog.{Memory}
use tlstm.ReadWrite.Union.{aligned_up, byte}
use tlstm.ReadWrite.Union.Window.{AreWords, Stores, byte_at}
use tlstm.ReadWrite.Write.{write16, write32, write64}
use tlstm.ReadWrite.Write.Exact.{write64_lem}
use tlstm.ReadWrite.Write.LowBit.{write_low_bit_lem, with_low_bit}
use tlstm.ReadWrite.Read.{read16, read32, read64}
use tlstm.ReadWrite.Read.Exact.{bytes_at, read_unaligned_lem}
use tlstm.ReadWrite.Region.{Buffer, write_region, memmove_tx}
use tlstm.ReadWrite.Region.Writes.{write_region_lem, write_region_zero, memmove_tx_lem}
use tlstm.ReadWrite.Memset.{memset_tx}
use tlstm.ReadWrite.Memset.Extent.{set_extent, memset_tx_lem}
use tlstm.ReadWrite.Strings.{strncmp_tx}
use tlstm.ReadWrite.Strings.Compare.{AgreesTo, strncmp_tx_lem}

-- The bytes 8, 7, …, 1 in every word.
abbrev words : Memory
words addr = 72623859790382856

words-AreWords : AreWords words
words-AreWords addr = omega arith

abbrev source : Buffer
source i = i % 256

source_lt : (i : ℕ) → source i < 256
source_lt i = omega arith

read_unaligned_lem_example :
    (read16 5 words 15 ≡ bytes_at words 2 (aligned_up 2 15))
    × (read32 5 words 15 ≡ bytes_at words 4 (aligned_up 4 15))
    × (read64 5 words 15 ≡ bytes_at words 8 (aligned_up 8 15))
read_unaligned_lem_example = read_unaligned_lem 5 words 15

write64_lem_example :
    Stores words
      (write64 5 6 words 13 1234605616436508552)
      (aligned_up 8 13)
      8
      (byte 1234605616436508552)
write64_lem_example = write64_lem 5 6 words words-AreWords 13 1234605616436508552

write_low_bit_lem_example :
    Stores words
      (write32 5 6 words 13 4097)
      (aligned_up 4 13)
      4
      (byte (with_low_bit (byte_at words (aligned_up 4 13)) 4097))
    × Stores words
        (write16 5 6 words 13 4097)
        (aligned_up 2 13)
        2
        (byte (if 13 % 2 == 0 then with_low_bit (byte_at words 13) 4097 else 4097))
write_low_bit_lem_example = write_low_bit_lem 5 6 words words-AreWords 13 4097

-- A write of eight bytes at 13 goes to 16.
write64_goes_on : aligned_up 8 13 ≡ 16
write64_goes_on = refl

-- The lowest bit of an odd value is lost over an even byte.
write32_loses_bit : byte (with_low_bit (byte_at words 16) 4097) 0 ≡ 0
unfolding byte
write32_loses_bit = refl

write_region_lem_example : Stores words (write_region 5 6 words source 21 13) 13 21 source
write_region_lem_example =
    write_region_lem 5 6 source source_lt words words-AreWords 21 13 (omega arith)

write_region_zero_example : Stores words (write_region 5 6 words source 0 16) 16 8 source
write_region_zero_example =
    write_region_zero 5 6 source source_lt words words-AreWords 0 16 refl refl (omega arith)

memmove_tx_lem_example :
    Stores words (memmove_tx 5 6 source words 13 17 21) 13 21 (λ i. byte_at words (17 + i))
memmove_tx_lem_example =
    memmove_tx_lem 5 6 source words 13 17 21 source_lt words-AreWords (omega arith)

-- Two bytes are asked for, five are set.
memset_tx_lem_example :
    Stores words (memset_tx 5 6 words 11 0 2) 11 (set_extent 11 2) (λ _. 0 % 256)
memset_tx_lem_example = memset_tx_lem 5 6 words words-AreWords 11 0 2 (omega arith)

memset_overruns : set_extent 11 2 ≡ 5
memset_overruns = refl

-- "abc" at address 8 and "abd" at address 17.
abbrev texts : Memory
texts addr = if addr == 8 then 6513249 else 1684168960

texts-AgreesTo : AgreesTo texts 8 17 2
unfolding byte
texts-AgreesTo zero h = (refl, λ e. omega arith)
texts-AgreesTo (suc zero) h = (refl, λ e. omega arith)
texts-AgreesTo (suc (suc j)) h = absurd (omega arith)

texts_differ : byte_at texts (8 + 2) ≢ byte_at texts (17 + 2)
unfolding byte
texts_differ e = omega arith

strncmp_tx_lem_example :
    strncmp_tx 9 5 6 texts 8 17 5 ≡ some (sub_ℕ (byte_at texts (8 + 2)) (byte_at texts (17 + 2)))
strncmp_tx_lem_example =
    strncmp_tx_lem 9 5 6 texts 8 17 2 texts-AgreesTo (omega arith) 5 (omega arith)
      (inl texts_differ)

strncmp_tx_runs : strncmp_tx 9 5 6 texts 8 17 5 ≡ some (negsuc 0)
unfolding strncmp_tx byte
strncmp_tx_runs = refl
