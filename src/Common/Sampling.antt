-- ===== src/Common/Sampling.antt =====
-- src/stm/common/sampling.h: every 101st transaction of a thread is measured.
use tlstm.Prelude.{ℕ, zero, suc, ◌+◌, ◌%◌, ◌≡◌, Bool, true, false, arith, ◌==◌, if◌then◌else◌}

abbrev sampling_threshold : ℕ
sampling_threshold = 101

pub record Sampling : Type 0 where
  pub sample : Bool
  pub counter : ℕ

abbrev pub new : Sampling
new = record { sample = false; counter = 0 }

pub tx_start : Sampling → Sampling
tx_start s =
    let counter = s.counter + 1 in
    if counter == sampling_threshold
    then record { sample = true; counter = 0 }
    else record { sample = false; counter = counter }

pub after : ℕ → Sampling
after zero = new
after (suc n) = tx_start (after n)

counter-after : (n : ℕ) → (after n).counter ≡ n % sampling_threshold
unfolding after tx_start
counter-after zero = omega arith
counter-after (suc n) = ground (arith, counter-after n)

-- After `n` starts, `n` positive, the current transaction is sampled exactly when 101 divides `n`.
pub tx_start_periodic : (n : ℕ) → (after (suc n)).sample ≡ (suc n % sampling_threshold == 0)
unfolding after tx_start
tx_start_periodic n = ground (arith, counter-after n)
