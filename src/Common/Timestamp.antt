-- ===== src/Common/Timestamp.antt =====
-- src/stm/common/timestamp.h: the global counters of commit and contention timestamps.
use tlstm.Prelude.{ℕ, ◌+◌, ◌%◌, ◌≤◌, ◌<◌, ◌≡◌, ◌⊎◌, inl, inr, arith, ◌==◌, if◌then◌else◌}
use tlstm.Common.Constants.{minimum_ts, word_mod}

-- `restart()`, and the constructor.
unfoldable pub restart : ℕ
restart = minimum_ts + 1

-- The `getNextTs` family: fetch and increment. The value before is returned.
unfoldable pub get_next_ts : ℕ → ℕ × ℕ
get_next_ts ts = (ts, (ts + 1) % word_mod)

-- `GenerateTsGV4`: other threads may move the counter from `old_val`, which was loaded, to `ts`,
-- at which the compare-and-swap finds it. The result and the counter afterwards.
unfoldable pub generate_ts_gv4 : (old_val ts : ℕ) → ℕ × ℕ
generate_ts_gv4 old_val ts =
    let replaced_val = ts in
    let ts' = if ts == old_val then (old_val + 1) % word_mod else ts in
    if replaced_val == old_val then ((old_val + 1) % word_mod, ts') else (replaced_val, ts')

-- Whatever other threads do in between, as long as the counter only grows and does not overflow,
-- the timestamp is later than the loaded value and is the counter's new value. Where no other thread was
-- first the counter grows by one; otherwise it stays, and the caller shares the other thread's value.
pub generate_ts_gv4_fresh :
    (old_val ts : ℕ)
    → old_val ≤ ts
    → ts + 1 < word_mod
    → (old_val < (generate_ts_gv4 old_val ts).0)
      × ((generate_ts_gv4 old_val ts).0 ≡ (generate_ts_gv4 old_val ts).1)
      × ((ts ≡ old_val) × ((generate_ts_gv4 old_val ts).1 ≡ ts + 1)
          ⊎ (old_val < ts) × ((generate_ts_gv4 old_val ts).1 ≡ ts))
unfolding generate_ts_gv4
generate_ts_gv4_fresh old_val ts le small = elim (same_or_later old_val ts le) [
  | inl e ↦ (ground arith, ground arith, inl (e, ground arith))
  | inr h ↦ (ground arith, ground arith, inr (h, ground arith))
]
  where
    same_or_later : (a b : ℕ) → a ≤ b → (b ≡ a) ⊎ (a < b)
    same_or_later a b h = ground arith
