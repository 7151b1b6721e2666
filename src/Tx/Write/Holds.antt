-- ===== src/Tx/Write/Holds.antt =====
-- What a task of src/stm/transaction_mixinv.h reads at an address that its write log holds.
use tlstm.Prelude.{
  ℕ, ◌≡◌, refl, Bool, false, some, List, [], ◌∷◌, arith, ap, ◌∙◌, Bool-cases, inl, inr, ◌==◌,
  ==_refl, ==_iff, ltb,
}
use tlstm.Tx.WordLog.{
  WriteWordLogEntry, log_entry_unmasked, mask_word, mask_entry, find_word_log_entry,
  insert_word_log_entry,
}
use tlstm.Tx.WordLog.Merge.{IsWord}
use tlstm.Tx.WordLog.Store.{IsWordLog, inserted, find-insert, effect-inserted}
use tlstm.Tx.State.{EntryRef, WriteLogEntry, State, entry_at}
use tlstm.Tx.Control.{done, Ensures, never_returns}
use tlstm.Tx.Locks.{map_address_to_write_lock}
use tlstm.Tx.Rollback.{tx_restart, restart_whole, abort_whole}
use tlstm.Tx.Validate.{chain, chain_upto, skip_while}
use tlstm.Tx.Read.{read_chain, read_locked, read_word}

pub restart_whole-never :
    (P : State → Type 0) (tid : ℕ) (s : State) → Ensures {A = Unit {0}} P (restart_whole tid s)
unfolding restart_whole tx_restart
restart_whole-never P tid s = never_returns P _ (abort_whole tid s)

-- The write log entry `r` is this task's, has the lock, and holds a word for the address that gives
-- `value` whatever the memory has there.
pub record Holds (tid write_lock address value : ℕ) (r : EntryRef) (s : State) : Type 0 where
  pub held : s.write_locks write_lock ≡ some r
  pub ptid : (entry_at r s).ptid ≡ (s.transactions tid).prog_thread_id
  pub serial : (entry_at r s).serial ≡ (s.transactions tid).serial
  pub word : WriteWordLogEntry
  pub found : find_word_log_entry address (entry_at r s).head ≡ some word
  pub gives : (old : ℕ) → IsWord old → mask_word old word.value word.mask ≡ value

pub mask_word_all : (old value : ℕ) → mask_word old value log_entry_unmasked ≡ value
unfolding mask_word
mask_word_all old value = refl

pub inserted_gives :
    (address value : ℕ) (head : List WriteWordLogEntry)
    → IsWord value
    → IsWordLog head
    → (old : ℕ) → IsWord old
    → let w = inserted address value log_entry_unmasked (find_word_log_entry address head) in
      mask_word old w.value w.mask ≡ value
inserted_gives address value head small logs old fits =
    effect-inserted address value log_entry_unmasked old head (find_word_log_entry address head)
      refl small (omega arith) fits logs
    ∙ mask_word_all _ value

pub found-address :
    (address : ℕ) (head : List WriteWordLogEntry) {w : WriteWordLogEntry}
    → find_word_log_entry address head ≡ some w
    → w.address ≡ address
unfolding find_word_log_entry
found-address address [] h = absurd (cc)
found-address address (e ∷ rest) {w} h = elim (Bool-cases (e.address == address)) [
  | inl here ↦ ground arith
  | inr away ↦ ground (arith, found-address address rest {w = w})
]

pub inserted_found :
    (address value mask : ℕ) (head : List WriteWordLogEntry)
    → find_word_log_entry address (insert_word_log_entry address value mask head)
      ≡ some (inserted address value mask (find_word_log_entry address head))
inserted_found address value mask head =
    find-insert address value mask address head ∙ simp ==_refl refl

pub skip_while_keeps :
    (drop : WriteLogEntry → Bool) (s : State) (r : EntryRef) (rest : List EntryRef)
    → drop (entry_at r s) ≡ false
    → skip_while drop s (r ∷ rest) ≡ r ∷ rest
unfolding skip_while
skip_while_keeps drop s r rest h = rw h refl

pub ltb_irrefl : (a b : ℕ) → b ≡ a → ltb a b ≡ false
ltb_irrefl a b e = ground arith

module _ (tid address : ℕ) (s : State) where
  pub read_chain_found :
      (value : ℕ) (r : EntryRef) (older : List EntryRef)
      → Holds tid (map_address_to_write_lock address) address value r s
      → IsWord (s.memory address)
      → read_chain address (r ∷ older) s ≡ value
  unfolding read_chain mask_entry
  read_chain_found value r older h fits =
      rw (h.found, read_chain)
        (ap (λ (x : ℕ). mask_word (s.memory x) h.word.value h.word.mask)
            (found-address address (entry_at r s).head h.found)
          ∙ h.gives (s.memory address) fits)

  pub read_locked_own :
      (lock : ℕ) (r : EntryRef) (older : List EntryRef)
      → (entry_at r s).serial ≡ (s.transactions tid).serial
      → read_locked tid address lock (r ∷ older) s ≡ done (read_chain address (r ∷ older) s) s
  unfolding read_locked
  read_locked_own lock r older e = rw ((==_iff _ _).1 e) refl

  pub read_word_mine :
      (r : EntryRef)
      → s.write_locks (map_address_to_write_lock address) ≡ some r
      → (entry_at r s).ptid ≡ (s.transactions tid).prog_thread_id
      → read_word tid address s
        ≡ read_locked tid address
            (map_address_to_write_lock address)
            (skip_while (λ e. ltb (s.transactions tid).serial e.serial) s (chain s (some r)))
            s
  unfolding read_word map_address_to_write_lock
  read_word_mine r held mine = rw (held, read_word) (rw ((==_iff _ _).1 mine) refl)

  -- The read of a held address.
  pub read_held :
      (value : ℕ) (r : EntryRef)
      → Holds tid (map_address_to_write_lock address) address value r s
      → IsWord (s.memory address)
      → read_word tid address s ≡ done value s
  unfolding chain chain_upto
  read_held value r h fits =
      let lock = map_address_to_write_lock address in
      let rest = chain_upto (entry_at r s).serial s (entry_at r s).old_entry in
      read_word_mine r h.held h.ptid
      ∙ ap (λ (c : List EntryRef). read_locked tid address lock c s)
          (skip_while_keeps (λ e. ltb (s.transactions tid).serial e.serial) s r rest
            (ltb_irrefl _ _ h.serial))
      ∙ read_locked_own lock r rest h.serial
      ∙ ap (λ (x : ℕ). done x s) (read_chain_found value r rest h fits)
