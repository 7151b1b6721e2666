-- ===== src/Tx/Write/ReadBack.antt =====
-- A task of src/stm/transaction_mixinv.h reads back what it has written.
use tlstm.Prelude.{
  ℕ, ◌≡◌, refl, Option, none, some, [], sym, ap, subst, ◌∙◌, Bool-cases, Option-cases, inl, inr,
  ◌==◌, ==_refl, ==_iff, ltb,
}
use tlstm.Tx.WordLog.{Memory, log_entry_unmasked, find_word_log_entry, insert_word_log_entry}
use tlstm.Tx.WordLog.Merge.{IsWord}
use tlstm.Tx.WordLog.Store.{IsWordLog, inserted}
use tlstm.Tx.State.{EntryRef, WriteLogEntry, State, set_write_lock, entry_at, my_thread}
use tlstm.Tx.Control.{Result, done, Ensures, if_Ensures}
use tlstm.Tx.Locks.{map_address_to_write_lock, map_write_lock_to_read_lock}
use tlstm.Tx.Rollback.{tx_restart}
use tlstm.Tx.Contention.{should_abort_write}
use tlstm.Tx.Write.Keeps.{
  Keeps, Keeps-trans, cm_on_access-Keeps, set_entry-Keeps, set_entry-at, set_entry-other,
  request_validation-Keeps, extend_if_behind-Keeps,
}
use tlstm.Tx.Write.{
  request_validation, extend_if_behind, set_entry, prepare_entry, stripe_locked, take_lock,
  lock_pass, lock_memory_stripe, write_word,
}
use tlstm.Tx.Read.{read_word}
use tlstm.Tx.Write.Holds.{Holds, inserted_found, inserted_gives, read_held, restart_whole-never}

-- The state after a write: some entry holds the address, and the memory is as before.
abbrev pub Written : (tid lock address value : ℕ) (s s' : State) → Type 0
Written tid lock address value s s' =
    (r : EntryRef) × Holds tid lock address value r s' × (s'.memory ≡ s.memory)

Keeps-Written :
    (tid lock address value : ℕ) (r : EntryRef) (s : State) {s' s'' : State}
    → Holds tid lock address value r s'
    → s'.memory ≡ s.memory
    → Keeps tid r s' s''
    → Written tid lock address value s s''
Keeps-Written tid lock address value r s h m k = (
  r,
  record {
    held = ap (λ (l : ℕ → Option EntryRef). l lock) k.locks ∙ h.held;
    ptid = k.ptid ∙ h.ptid ∙ sym k.my_ptid;
    serial = k.serial ∙ h.serial ∙ sym k.my_serial;
    word = h.word;
    found = ap (find_word_log_entry address) k.head ∙ h.found;
    gives = h.gives;
  },
  k.memory ∙ m,
)

module _ (tid slot lock address value : ℕ) (s s0 : State) where
  stripe_locked-Written :
      Holds tid lock address value (record { owner = tid; slot = slot }) s
      → s.memory ≡ s0.memory
      → Ensures (Written tid lock address value s0) (stripe_locked tid slot lock s)
  unfolding stripe_locked tx_restart
  stripe_locked-Written h m =
      let r : EntryRef = record { owner = tid; slot = slot } in
      let read_lock = map_write_lock_to_read_lock lock in
      let version = s.read_locks read_lock in
      let s1 = request_validation tid version s in
      let s2 = (extend_if_behind tid s1).1 in
      let k = Keeps-trans (request_validation-Keeps tid version r s) (
        Keeps-trans (extend_if_behind-Keeps tid r s1) (
          Keeps-trans (set_entry-Keeps tid slot read_lock version s2)
            (cm_on_access-Keeps tid r _))) in
      elim (Bool-cases (extend_if_behind tid s1).0) [
        | inl valid ↦ rw valid (Keeps-Written tid lock address value r s0 h m k)
        | inr stale ↦ rw stale tt
      ]

prepare_entry-at :
    (tid lock address value mask : ℕ) (old : Option EntryRef) (s : State)
    → let t = s.transactions tid in
      let e =
        ((prepare_entry tid lock address value mask old s).transactions tid).write_log.entries
          t.write_log.size in
      (e.ptid ≡ t.prog_thread_id)
      × (e.serial ≡ t.serial)
      × (e.head ≡ insert_word_log_entry address value mask [])
unfolding prepare_entry
prepare_entry-at tid lock address value mask old s = (
  rw (==_refl tid) (rw (==_refl (s.transactions tid).write_log.size) refl),
  rw (==_refl tid) (rw (==_refl (s.transactions tid).write_log.size) refl),
  rw (==_refl tid) (rw (==_refl (s.transactions tid).write_log.size) refl),
)

prepare_entry-tx :
    (tid lock address value mask : ℕ) (old : Option EntryRef) (s : State)
    → let s' = prepare_entry tid lock address value mask old s in
      ((s'.transactions tid).prog_thread_id ≡ (s.transactions tid).prog_thread_id)
      × ((s'.transactions tid).serial ≡ (s.transactions tid).serial)
      × (s'.memory ≡ s.memory)
unfolding prepare_entry
prepare_entry-tx tid lock address value mask old s = (simp ==_refl refl, simp ==_refl refl, refl)

module _ (tid lock address value : ℕ) (s : State) (small : IsWord value) where
  take_lock-Written :
      (old : Option EntryRef)
      → Ensures
          (Written tid lock address value s)
          (take_lock tid lock address value log_entry_unmasked old s)
  unfolding take_lock
  take_lock-Written old =
      let slot = (s.transactions tid).write_log.size in
      let (ptid, serial, head) = prepare_entry-at tid lock address value log_entry_unmasked old s in
      let (my_ptid, my_serial, memory) =
        prepare_entry-tx tid lock address value log_entry_unmasked old s in
      stripe_locked-Written tid slot lock address value
        (set_write_lock lock (some (record { owner = tid; slot = slot }))
          (prepare_entry tid lock address value log_entry_unmasked old s))
        s
        (record {
          held = simp ==_refl refl;
          ptid = ptid ∙ sym my_ptid;
          serial = serial ∙ sym my_serial;
          word = inserted address value log_entry_unmasked (find_word_log_entry address []);
          found =
              ap (find_word_log_entry address) head
              ∙ inserted_found address value log_entry_unmasked [];
          gives = inserted_gives address value [] small tt;
        })
        memory

  P : State → Type 0
  P = Written tid lock address value s

  lock_pass-Written :
      Ensures
        (Written tid lock address value s)
        (lock_pass tid lock address value log_entry_unmasked s)
  unfolding tx_restart lock_pass P
  lock_pass-Written = elim (Option-cases (s.write_locks lock)) [
    | inl free ↦ rw (free, lock_pass) (take_lock-Written none)
    | inr (r, held) ↦
        let s1 = (should_abort_write tid lock s).1 in
        rw (held, lock_pass)
          (if_Ensures P ((entry_at r s).ptid == (s.transactions tid).prog_thread_id) _ _
            (if_Ensures P (ltb (entry_at r s).serial (s.transactions tid).serial) _ _
              (if_Ensures P (ltb (my_thread tid s).last_completed_task (entry_at r s).serial) _ _ tt
                (if_Ensures P (s.transactions tid).abort_transaction _ _
                  (restart_whole-never P tid s) (take_lock-Written (some r))))
              (if_Ensures P (s.transactions tid).abort_transaction _ _ (restart_whole-never P tid s)
                tt))
            (if_Ensures P (should_abort_write tid lock s).0 _ _
              (if_Ensures P (s1.transactions tid).abort_transaction _ _
                (restart_whole-never P tid s1) tt)
              tt))
  ]

  own_entry-Written :
      (r : EntryRef)
      → s.write_locks lock ≡ some r
      → (entry_at r s).ptid ≡ (s.transactions tid).prog_thread_id
      → (entry_at r s).serial ≡ (s.transactions tid).serial
      → IsWordLog (entry_at r s).head
      → Written tid lock address value s (
          set_entry r.owner r.slot
            (λ e. record e { head = insert_word_log_entry address value log_entry_unmasked e.head })
            s)
  own_entry-Written r held ptid serial logs =
      let f : WriteLogEntry → WriteLogEntry =
        λ e. record e { head = insert_word_log_entry address value log_entry_unmasked e.head } in
      let at = set_entry-at r.owner r.slot f s in
      let (my_ptid, my_serial) = set_entry-other tid r.owner r.slot f s in
      (
        r,
        record {
          held = held;
          ptid = ap (λ (e : WriteLogEntry). e.ptid) at ∙ ptid ∙ sym my_ptid;
          serial = ap (λ (e : WriteLogEntry). e.serial) at ∙ serial ∙ sym my_serial;
          word =
              inserted address value log_entry_unmasked
                (find_word_log_entry address (entry_at r s).head);
          found =
              ap (λ (e : WriteLogEntry). find_word_log_entry address e.head) at
              ∙ inserted_found address value log_entry_unmasked (entry_at r s).head;
          gives = inserted_gives address value (entry_at r s).head small logs;
        },
        refl,
      )

  lock_memory_stripe-Written :
      ((r : EntryRef) → s.write_locks lock ≡ some r → IsWordLog (entry_at r s).head)
      → Ensures
          (Written tid lock address value s)
          (lock_memory_stripe tid lock address value log_entry_unmasked s)
  unfolding lock_memory_stripe tx_restart P
  lock_memory_stripe-Written logs = if_Ensures P (s.transactions tid).abort_task _ _ tt (
      if_Ensures P (s.transactions tid).abort_transaction _ _ (restart_whole-never P tid s)
        (elim (Option-cases (s.write_locks lock)) [
          | inl free ↦ rw free lock_pass-Written
          | inr (r, held) ↦
              rw held
                (elim (Bool-cases ((entry_at r s).ptid == (s.transactions tid).prog_thread_id)) [
                  | inr other ↦ rw other lock_pass-Written
                  | inl mine ↦
                      elim (Bool-cases ((entry_at r s).serial == (s.transactions tid).serial)) [
                        | inr past ↦ rw (mine, past) lock_pass-Written
                        | inl now ↦
                            rw (mine, now)
                              (own_entry-Written r held ((==_iff _ _).0 mine) ((==_iff _ _).0 now)
                                (logs r held))
                      ]
                ])
        ]))

-- A task that has written a whole word reads it back: if `WriteWord` returns, then reading the
-- address in the state it leaves returns the value written and changes nothing. This holds whether
-- the lock was free, was held by a past task or by the task itself, for a memory of words and, if
-- the lock is held, well-formed words in its entry.
pub write_word-read_word :
    (tid address value : ℕ) (s s' : State)
    → IsWord value
    → IsWord (s.memory address)
    → ((r : EntryRef)
        → s.write_locks (map_address_to_write_lock address) ≡ some r
        → IsWordLog (entry_at r s).head)
    → write_word tid address value log_entry_unmasked s ≡ done tt s'
    → read_word tid address s' ≡ done value s'
unfolding write_word
write_word-read_word tid address value s s' small fits logs e =
    let lock = map_address_to_write_lock address in
    let (r, h, m) =
      subst (λ (x : Result (Unit {0})). Ensures (Written tid lock address value s) x) e
        (lock_memory_stripe-Written tid lock address value s small logs) in
    read_held tid address s' value r h
      (subst (λ (x : ℕ). IsWord x) (sym (ap (λ (f : Memory). f address) m)) fits)
