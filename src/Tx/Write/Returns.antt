-- ===== src/Tx/Write/Returns.antt =====
-- When a write of src/stm/transaction_mixinv.h returns at once.
use tlstm.Prelude.{
  ℕ, ◌+◌, List, [], ◌∷◌, update, ◌≡◌, refl, Bool, true, false, Option, none, some, ap, ◌∙◌,
  Bool-cases, inl, inr, ==_refl, if_false, if_true, ◌==◌, ltb,
}
use tlstm.Tx.State.{EntryRef, WriteLogEntry, TxMixinv, State, set_write_lock, my_thread, entry_at}
use tlstm.Tx.Control.{done}
use tlstm.Tx.Locks.{map_address_to_write_lock, map_write_lock_to_read_lock}
use tlstm.Tx.Validate.{should_extend}
use tlstm.Tx.Contention.{cm_on_access}
use tlstm.Tx.Write.{
  set_entry, prepare_entry, request_validation, extend_if_behind, stripe_locked, take_lock,
  lock_pass, lock_memory_stripe, write_word,
}
use tlstm.Tx.WordLog.{find_word_log_entry, WriteWordLogEntry, insert_word_log_entry}
use tlstm.Tx.Write.Keeps.{
  Keeps, Keeps-trans, cm_on_access-Keeps, set_entry-Keeps, request_validation-Keeps,
  extend_if_behind-Keeps,
}
use tlstm.Tx.Write.LogView.{
  LogView, cell, view, SameLog, SameLog-trans, cm_on_access-SameLog, request_validation-SameLog,
  extend_if_behind-SameLog, set_entry-SameLog,
}

-- A past task has completed writes that this task has not taken into account.
abbrev pub behind : ℕ → State → Bool
behind tid s = ltb (s.transactions tid).last_writer (my_thread tid s).last_completed_writer

behind-request_validation :
    (tid version : ℕ) (s : State)
    → behind tid s ≡ false
    → behind tid (request_validation tid version s) ≡ false
unfolding request_validation
behind-request_validation tid version s h = elim (Bool-cases (should_extend tid version s)) [
  | inl newer ↦ rw newer (simp ==_refl h)
  | inr known ↦ rw known h
]

behind-prepare_entry :
    (tid lock address value mask : ℕ) (old : Option EntryRef) (s : State)
    → behind tid s ≡ false
    → behind tid (prepare_entry tid lock address value mask old s) ≡ false
unfolding prepare_entry
behind-prepare_entry tid lock address value mask old s h = simp ==_refl h

extend_not_needed : (tid : ℕ) (s : State) → behind tid s ≡ false → (extend_if_behind tid s).0 ≡ true
unfolding extend_if_behind
extend_not_needed tid s h = rw h refl

-- What `stripe_locked` leaves when it returns.
stripe_state : (tid slot lock : ℕ) → State → State
stripe_state tid slot lock s =
    let read_lock = map_write_lock_to_read_lock lock in
    let version = s.read_locks read_lock in
    cm_on_access tid (
      set_entry tid slot (λ e. record e { read_lock = read_lock; old_version = version })
        (extend_if_behind tid (request_validation tid version s)).1)

stripe_locked_returns :
    (tid slot lock : ℕ) (s : State)
    → behind tid s ≡ false
    → stripe_locked tid slot lock s ≡ done tt (stripe_state tid slot lock s)
unfolding stripe_locked stripe_state
stripe_locked_returns tid slot lock s h =
    let version = s.read_locks (map_write_lock_to_read_lock lock) in
    let valid =
      extend_not_needed tid (request_validation tid version s)
        (behind-request_validation tid version s h) in
    rw valid refl

stripe_state-SameLog :
    (tid slot lock : ℕ) (s : State) → SameLog tid s (stripe_state tid slot lock s)
unfolding stripe_state
stripe_state-SameLog tid slot lock s =
    let read_lock = map_write_lock_to_read_lock lock in
    let version = s.read_locks read_lock in
    let s1 = request_validation tid version s in
    let s2 = (extend_if_behind tid s1).1 in
    let f : WriteLogEntry → WriteLogEntry =
      λ e. record e { read_lock = read_lock; old_version = version } in
    SameLog-trans tid s s1 _ (request_validation-SameLog tid version s) (
      SameLog-trans tid s1 s2 _ (extend_if_behind-SameLog tid s1) (
        SameLog-trans tid s2 (set_entry tid slot f s2) _
          (set_entry-SameLog tid tid slot f s2 (λ e. refl))
          (cm_on_access-SameLog tid (set_entry tid slot f s2))))

stripe_state-Keeps :
    (tid slot lock : ℕ) (s : State)
    → Keeps tid (record { owner = tid; slot = slot }) s (stripe_state tid slot lock s)
unfolding stripe_state
stripe_state-Keeps tid slot lock s =
    let r : EntryRef = record { owner = tid; slot = slot } in
    let read_lock = map_write_lock_to_read_lock lock in
    let version = s.read_locks read_lock in
    let s1 = request_validation tid version s in
    let s2 = (extend_if_behind tid s1).1 in
    Keeps-trans (request_validation-Keeps tid version r s) (
      Keeps-trans (extend_if_behind-Keeps tid r s1)
        (Keeps-trans (set_entry-Keeps tid slot read_lock version s2) (cm_on_access-Keeps tid r _)))

module _ (tid lock address value mask : ℕ) (s : State) where
  locked : State
  locked =
      set_write_lock lock
        (some (record { owner = tid; slot = (s.transactions tid).write_log.size }))
        (prepare_entry tid lock address value mask none s)

  take_lock_returns :
      behind tid s ≡ false
      → take_lock tid lock address value mask none s
        ≡ done tt (stripe_state tid (s.transactions tid).write_log.size lock locked)
  unfolding take_lock locked
  take_lock_returns h =
      stripe_locked_returns tid (s.transactions tid).write_log.size lock
        (set_write_lock lock
          (some (record { owner = tid; slot = (s.transactions tid).write_log.size }))
          (prepare_entry tid lock address value mask none s))
        (behind-prepare_entry tid lock address value mask none s h)

  lock_pass_free :
      s.write_locks lock ≡ none
      → lock_pass tid lock address value mask s ≡ take_lock tid lock address value mask none s
  unfolding lock_pass
  lock_pass_free free = rw (free, lock_pass) refl

  stripe_free :
      (s.transactions tid).abort_task ≡ false
      → (s.transactions tid).abort_transaction ≡ false
      → s.write_locks lock ≡ none
      → lock_memory_stripe tid lock address value mask s ≡ lock_pass tid lock address value mask s
  unfolding lock_memory_stripe
  stripe_free task transaction free = if_false _ _ task ∙ if_false _ _ transaction ∙ rw free refl

-- What a new entry of the task's log is: the place of its log, the log's new size, the fields of the entry
-- and the words that it holds.
pub record HasNewEntry (tid lock : ℕ) (words : List WriteWordLogEntry) (s s' : State) : Type 0 where
  pub size : (view tid s').size ≡ (s.transactions tid).write_log.size + 1
  pub fields : (view tid s').cells (s.transactions tid).write_log.size ≡ record {
    write_lock = lock;
    old_entry = none;
    ptid = (s.transactions tid).prog_thread_id;
    serial = (s.transactions tid).serial;
  }
  pub head :
      (entry_at (record { owner = tid; slot = (s.transactions tid).write_log.size }) s').head
      ≡ words

locked-HasNewEntry :
    (tid lock address value mask : ℕ) (s : State)
    → HasNewEntry tid lock
        (insert_word_log_entry address value mask [])
        s
        (locked tid lock address value mask s)
unfolding locked prepare_entry
locked-HasNewEntry tid lock address value mask s = record {
  size = ap (λ (u : TxMixinv). u.write_log.size) mine;
  fields = ap (λ (u : TxMixinv). cell (u.write_log.entries slot)) mine ∙ ap cell here;
  head =
      ap (λ (u : TxMixinv). (u.write_log.entries slot).head) mine
      ∙ ap (λ (e : WriteLogEntry). e.head) here;
}
  where
    t : TxMixinv
    t = s.transactions tid

    slot : ℕ
    slot = t.write_log.size

    entry : WriteLogEntry
    entry = record (t.write_log.entries slot) {
      write_lock = lock;
      owner = tid;
      ptid = t.prog_thread_id;
      serial = t.serial;
      old_entry = none;
      head = insert_word_log_entry address value mask [];
    }

    mine : (locked tid lock address value mask s).transactions tid ≡ record t {
      write_log = record { entries = update t.write_log.entries slot entry; size = slot + 1 };
    }
    mine = if_true {b = tid == tid} _ _ (==_refl tid)

    here : update t.write_log.entries slot entry slot ≡ entry
    here = if_true {b = slot == slot} _ _ (==_refl slot)

-- A write whose lock is free returns in one pass, when no abort is requested of the task and it has taken
-- the completed past writers into account. It then has the lock, through a new entry at the end of its log
-- that holds the written word alone and has no entry of a past task below it; the other write
-- locks and the memory are as before.
pub write_word_free :
    (tid address value mask : ℕ) (s : State)
    → (s.transactions tid).abort_task ≡ false
    → (s.transactions tid).abort_transaction ≡ false
    → s.write_locks (map_address_to_write_lock address) ≡ none
    → behind tid s ≡ false
    → (s' : State) × (write_word tid address value mask s ≡ done tt s')
      × (s'.write_locks
          ≡ update s.write_locks
              (map_address_to_write_lock address)
              (some (record { owner = tid; slot = (s.transactions tid).write_log.size })))
      × (s'.memory ≡ s.memory)
      × HasNewEntry tid
          (map_address_to_write_lock address)
          (record { address = address; value = value; mask = mask } ∷ [])
          s
          s'
unfolding write_word insert_word_log_entry find_word_log_entry
write_word_free tid address value mask s task transaction free current =
    let lock = map_address_to_write_lock address in
    let slot = (s.transactions tid).write_log.size in
    let s1 = locked tid lock address value mask s in
    let same = stripe_state-SameLog tid slot lock s1 in
    let keeps = stripe_state-Keeps tid slot lock s1 in
    let new = locked-HasNewEntry tid lock address value mask s in
    (
      stripe_state tid slot lock s1,
      stripe_free tid lock address value mask s task transaction free
          ∙ lock_pass_free tid lock address value mask s free
          ∙ take_lock_returns tid lock address value mask s current,
      same.locks ∙ (unfold locked prepare_entry in refl),
      keeps.memory ∙ (unfold locked prepare_entry in refl),
      record {
        size = ap (λ (v : LogView). v.size) same.log ∙ new.size;
        fields = ap (λ (v : LogView). v.cells slot) same.log ∙ new.fields;
        head = keeps.head ∙ new.head;
      },
    )
