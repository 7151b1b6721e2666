-- ===== src/Tests/TxExamples.antt =====
-- Examples for the theorems on src/stm/transaction_mixinv.h.
use tlstm.Prelude.{
  ap, ◌∙◌, update, Option, ℕ, ◌+◌, ◌*◌, ◌^◌, ◌%◌, ◌≤◌, ◌<◌, ◌≡◌, refl, ◌≢◌, ◌↔◌, true, false, none,
  some, List, [], ◌∷◌, ◌==◌, if◌then◌else◌, arith, All,
}
use tlstm.Common.VersionLock.{get_value, get_version_lock, is_read_locked}
use tlstm.Tx.WordLog.{
  WriteWordLogEntry, log_entry_unmasked, write_back, find_word_log_entry, mask_word,
}
use tlstm.Tx.WordLog.Store.{Write, log_writes, store_writes, write_back-log_writes}
use tlstm.Tx.State.{
  EntryRef, no_restart, restart_validation, tx_committed, State, entry_at, my_thread,
}
use tlstm.Tx.Control.{done}
use tlstm.Tx.Locks.{map_address_to_read_lock, map_address_to_write_lock}
use tlstm.Tx.Rollback.{rollback}
use tlstm.Tx.Rollback.Restore.{Distinct, rollback_lem}
use tlstm.Tx.Validate.Turn.{TurnDone, validation_turn_lem}
use tlstm.Tx.Validate.{validation_turn, validate_tx, validate_commit}
use tlstm.Tx.Validate.Sound.{
  Current, read_log_at, validate_tx_iff, FirstConflict, validate_commit_lem,
}
use tlstm.Tx.Contention.{should_abort_write, cm_start_tx, cm_stronger_than}
use tlstm.Tx.Contention.Greedy.{
  Phase, accesses, should_abort_write_asym, cm_on_access_lem, cm_stronger_than_cut,
}
use tlstm.Tx.Write.{write_word}
use tlstm.Tx.Read.{read_word}
use tlstm.Tx.Write.Undo.{write_first, none_left, Writes-rollback}
use tlstm.Tx.Write.Returns.{HasNewEntry, write_word_free}
use tlstm.Tx.Write.ReadBack.{write_word-read_word}
use tlstm.Tx.Commit.{
  tx_commit, commit_writes, each_write, lock_reads, release_read_locks, write_commit,
}
use tlstm.Tx.Commit.Loop.{Has, tx_refs, task_refs, entry_refs}
use tlstm.Tx.Commit.ReadLocks.{locked_by, set_all, release_read_locks-lock_reads}
use tlstm.Tx.Commit.WriteBack.{words, write_commit_lem}
use tlstm.Tx.Commit.Outcome.{
  next_ts, fails, commit_writes-no_restart, commit_writes-restart_validation,
}
use tlstm.Tx.Commit.Progress.{IsReady, tx_commit_returns}
use tlstm.Tx.Validate.{chain}
use tlstm.Tx.Validate.Chain.{Falling, Reaches, first, later, Walk}
use tlstm.Tx.Write.Chained.{written, prepare_entry-Walk}
use tlstm.Tx.Start.{global_init, update_minimum_observed_ts}
use tlstm.Tx.Start.Initial.{
  IsReady as IsReadyThread, global_init_lem, update_minimum_observed_ts_lem,
}
use tlstm.Tests.TxData.{later_task, before_commit, stale, before_write, contended}

before_commit-IsReady : IsReady 0 before_commit
before_commit-IsReady = record {
  turn = refl;
  last = refl;
  writes = refl;
  abort_task = refl;
  abort_transaction = refl;
  aborting = refl;
  requires_validation = refl;
  validated = refl;
  current = refl;
  clock = omega arith;
  stands = refl;
}

tx_commit_returns_example :
    (s' : State) × (tx_commit 0 before_commit ≡ done tt s')
    × (s'.memory ≡ write_back (words (tx_refs 0 before_commit) before_commit) before_commit.memory)
    × ((my_thread 0 s').last_completed_task ≡ 1)
    × ((s'.transactions 0).tx_status ≡ tx_committed)
tx_commit_returns_example = tx_commit_returns 0 before_commit before_commit-IsReady

commit_writes-no_restart_example :
    (s' : State) × (commit_writes 0 false before_commit ≡ done no_restart s')
    × (s'.memory ≡ write_back (words (tx_refs 0 before_commit) before_commit) before_commit.memory)
    × ((r : EntryRef)
        → Has r (tx_refs 0 before_commit)
        → before_commit.write_locks (entry_at r before_commit).write_lock ≡ some r
        → (s'.write_locks (entry_at r before_commit).write_lock ≡ none)
          × (s'.read_locks (entry_at r before_commit).read_lock
              ≡ get_version_lock (next_ts before_commit)))
    × ((my_thread 0 s').last_completed_task ≡ 1)
    × ((s'.transactions 0).tx_status ≡ tx_committed)
commit_writes-no_restart_example = commit_writes-no_restart 0 false before_commit (omega arith) refl

stale_fails : fails 0 stale ≡ true
unfolding validate_commit locked_by set_all task_refs entry_refs is_read_locked
stale_fails = refl

commit_writes-restart_validation_example :
    (s' : State) × (commit_writes 0 false stale ≡ done restart_validation s')
    × (s'.memory ≡ stale.memory)
    × (s'.read_locks ≡ stale.read_locks)
    × (s'.commit_ts ≡ next_ts stale)
commit_writes-restart_validation_example =
    commit_writes-restart_validation 0 false stale (omega arith) stale_fails (λ r has. refl)

-- What the commit leaves.
committed : State
committed = (tx_commit_returns 0 before_commit before_commit-IsReady).0

abbrev past_entry : EntryRef
past_entry = record { owner = 0; slot = 0 }

nothing_reached : (o : Option EntryRef) (r : EntryRef) → Reaches later_task o r → o ≡ none → ⊥
nothing_reached _ _ (first r) e = absurd (cc)
nothing_reached _ _ (later r a q) e = absurd (cc)

only_first : (r : EntryRef) → Reaches later_task (some past_entry) r → past_entry ≡ r
only_first _ (first _) = refl
only_first r (later _ _ q) = absurd (nothing_reached _ r q refl)

later_task-Falling : Falling later_task (some past_entry)
unfolding Falling
later_task-Falling r r' reached e = absurd (cc)

new_place :
    (r : EntryRef) → Reaches later_task (some past_entry) r → r ≢ record { owner = 1; slot = 0 }
new_place r reached e =
    differ past_entry.owner (ap (λ (x : EntryRef). x.owner) (only_first r reached ∙ e)) refl
  where
    differ : (n : ℕ) → n ≡ 1 → n ≡ 0 → ⊥
    differ n e z = omega arith

entry_is_past : (r : EntryRef) → some past_entry ≡ some r → (entry_at r later_task).serial < 2
entry_is_past r e = omega arith

prepare_entry-Walk_example :
    Falling
      (written 1 3 16 9 255 (some past_entry) later_task)
      (some (record { owner = 1; slot = 0 }))
    × Walk
        (written 1 3 16 9 255 (some past_entry) later_task)
        (some (record { owner = 1; slot = 0 }))
        (chain
          (written 1 3 16 9 255 (some past_entry) later_task)
          (some (record { owner = 1; slot = 0 })))
prepare_entry-Walk_example =
    prepare_entry-Walk 1 3 16 9 255 (some past_entry) later_task new_place later_task-Falling
      entry_is_past

write_commit_lem_example :
    ((write_commit 0 2 before_commit).memory
      ≡ write_back (words (tx_refs 0 before_commit) before_commit) before_commit.memory)
    × ((r : EntryRef)
        → Has r (tx_refs 0 before_commit)
        → before_commit.write_locks (entry_at r before_commit).write_lock ≡ some r
        → ((write_commit 0 2 before_commit).write_locks (entry_at r before_commit).write_lock
            ≡ none)
          × ((write_commit 0 2 before_commit).read_locks (entry_at r before_commit).read_lock
              ≡ get_version_lock 2))
    × ((my_thread 0 (write_commit 0 2 before_commit)).last_completed_writer ≡ 1)
write_commit_lem_example = write_commit_lem 0 2 before_commit

release_read_locks-lock_reads_example :
    release_read_locks 0 (each_write lock_reads 0 before_commit) ≡ before_commit
release_read_locks-lock_reads_example =
    release_read_locks-lock_reads 0 before_commit (λ r has. refl)

before_commit-Distinct : Distinct (before_commit.transactions 0).write_log.entries 1
before_commit-Distinct i j lt small = absurd (omega arith)

rollback_lem_example :
    ((i : ℕ) → i < 1 → (rollback 0 before_commit).write_locks 3 ≡ none)
    × ((lock : ℕ)
        → ((i : ℕ) → i < 1 → ◌≢◌ {A = ℕ} 3 lock)
        → (rollback 0 before_commit).write_locks lock ≡ before_commit.write_locks lock)
    × ((rollback 0 before_commit).memory ≡ before_commit.memory)
    × ((rollback 0 before_commit).read_locks ≡ before_commit.read_locks)
    × (((rollback 0 before_commit).transactions 0).write_log.size ≡ 0)
    × (((rollback 0 before_commit).transactions 0).read_log ≡ [])
    × (((rollback 0 before_commit).transactions 0).task_read_log ≡ [])
    × (((rollback 0 before_commit).transactions 0).rolled_back ≡ true)
rollback_lem_example = rollback_lem 0 before_commit refl before_commit-Distinct

validate_tx_iff_example :
    (validate_tx 0 stale ≡ true) ↔ ((i : ℕ) → i < 1 → All (Current stale) (read_log_at 0 i stale))
validate_tx_iff_example = validate_tx_iff 0 stale

validate_commit_lem_example : FirstConflict 0 1 2 (validate_commit 0 stale) stale
validate_commit_lem_example = validate_commit_lem 0 stale (omega arith)

should_abort_write_asym_example : (should_abort_write 1 5 contended).0 ≡ true
unfolding should_abort_write
should_abort_write_asym_example =
    should_abort_write_asym 0 1 3 5 contended (record { owner = 1; slot = 0 })
      (record { owner = 0; slot = 0 }) refl refl refl refl refl refl (omega arith) (omega arith)
      refl

cm_on_access_lem_example :
    Phase 11 1
      (my_thread 0 (accesses 0 11 (cm_start_tx 0 before_write)))
      (accesses 0 11 (cm_start_tx 0 before_write)).cm_ts
cm_on_access_lem_example = cm_on_access_lem 0 11 before_write

-- Program thread 1 has been greedy since the timestamp 2^32, and thread 0 since the one after.
abbrev wrapped : State
wrapped = record before_write {
  prog_thread = λ p. record (before_write.prog_thread p) {
    greedy_ts = if p == 0 then 2 ^ 32 + 1 else 2 ^ 32;
  };
}

cm_stronger_than_cut_example : cm_stronger_than 0 1 wrapped ≡ true
cm_stronger_than_cut_example = cm_stronger_than_cut 0 1 1 wrapped (λ e. omega arith) (omega arith)

global_init_lem_example :
    (s' : State) × (global_init 2 2 before_write ≡ some s')
    × ((j : ℕ) → j < 2 * 2 → IsReadyThread 2 (s'.prog_thread j))
    × ((address : ℕ)
        → (s'.write_locks (map_address_to_write_lock address) ≡ none)
          × (s'.read_locks (map_address_to_read_lock address) ≡ get_version_lock 1)
          × (is_read_locked (s'.read_locks (map_address_to_read_lock address)) ≡ false))
global_init_lem_example = global_init_lem 2 2 before_write (omega arith)

update_minimum_observed_ts_lem_example :
    ((update_minimum_observed_ts false before_write).1.minimum_observed_ts
      ≡ (update_minimum_observed_ts false before_write).0)
    × ((j : ℕ)
        → j < 1
        → before_write.registered j ≡ true
        → (update_minimum_observed_ts false before_write).0
          ≤ (before_write.transactions j).last_observed_ts % 2 ^ 32)
    × (j : ℕ) × (j < 1)
    × (before_write.registered j ≡ true)
    × ((update_minimum_observed_ts false before_write).0
        ≡ (before_write.transactions j).last_observed_ts % 2 ^ 32)
update_minimum_observed_ts_lem_example =
    update_minimum_observed_ts_lem before_write (omega arith) refl

abbrev some_writes : List Write
some_writes =
    record { address = 16; value = 7; mask = 255 }
    ∷ record { address = 16; value = 512; mask = 65280 }
    ∷ []

write_back-log_writes_example :
    (write_back (log_writes some_writes []) before_write.memory
      ≡ store_writes some_writes before_write.memory)
    × ((x : ℕ) (entry : WriteWordLogEntry)
        → find_word_log_entry x (log_writes some_writes []) ≡ some entry
        → mask_word (before_write.memory x) entry.value entry.mask
          ≡ store_writes some_writes before_write.memory x)
write_back-log_writes_example =
    write_back-log_writes some_writes before_write.memory
      (omega arith, omega arith, (omega arith, omega arith, tt)) (λ x. omega arith)

-- What a write of 9 at address 16 leaves.
after_write : State
after_write = elim (write_word 0 16 9 log_entry_unmasked before_write) [
  | done _ s ↦ s
  | _ ↦ before_write
]

write_word_returns : write_word 0 16 9 log_entry_unmasked before_write ≡ done tt after_write
unfolding after_write write_word get_value
write_word_returns = refl

write_word-read_word_example : read_word 0 16 after_write ≡ done 9 after_write
write_word-read_word_example =
    write_word-read_word 0 16 9 before_write after_write (omega arith) (omega arith)
      (λ r held. absurd (cc)) write_word_returns

Writes-rollback_example : (rollback 0 after_write).write_locks ≡ before_write.write_locks
Writes-rollback_example =
    Writes-rollback 0 (record { address = 16; value = 9; mask = log_entry_unmasked } ∷ [])
      before_write after_write refl refl (write_first write_word_returns none_left)

-- The task has met a later version.
abbrev unvalidated : State
unvalidated = record stale {
  prog_thread = λ p. record (stale.prog_thread p) { requires_validation = true };
}

validation_turn_lem_example : TurnDone 0 unvalidated (validation_turn 0 unvalidated)
validation_turn_lem_example = validation_turn_lem 0 unvalidated refl

write_word_free_example :
    (s' : State) × (write_word 0 16 9 255 before_write ≡ done tt s')
    × (s'.write_locks
        ≡ update before_write.write_locks
            (map_address_to_write_lock 16)
            (some (record { owner = 0; slot = 0 })))
    × (s'.memory ≡ before_write.memory)
    × HasNewEntry 0
        (map_address_to_write_lock 16)
        (record { address = 16; value = 9; mask = 255 } ∷ [])
        before_write
        s'
write_word_free_example = write_word_free 0 16 9 255 before_write refl refl refl refl
