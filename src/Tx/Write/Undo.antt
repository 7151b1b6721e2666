-- ===== src/Tx/Write/Undo.antt =====
-- A task of src/stm/transaction_mixinv.h that writes and then rolls back leaves the write locks as
-- they were.
use tlstm.Prelude.{
  ℕ, ◌<◌, ◌≡◌, refl, ◌≢◌, true, false, Option, some, List, [], ◌∷◌, arith, sym, ap, subst, ◌∙◌,
  Bool-cases, Option-cases, inl, inr, ◌==◌, ==_iff, ltb,
}
use tlstm.Tx.WordLog.{insert_word_log_entry}
use tlstm.Tx.State.{EntryRef, WriteLogEntry, State, set_write_lock, entry_at, my_thread}
use tlstm.Tx.Control.{Result, done, Ensures, if_Ensures, never_returns}
use tlstm.Tx.Locks.{map_address_to_write_lock, map_write_lock_to_read_lock}
use tlstm.Tx.Rollback.{abort_whole, tx_restart, restart_whole, rollback}
use tlstm.Tx.Rollback.Restore.{drop_locks_lem}
use tlstm.Tx.Contention.{should_abort_write, cm_on_access}
use tlstm.Tx.Write.{
  set_entry, prepare_entry, request_validation, extend_if_behind, stripe_locked, take_lock,
  lock_pass, lock_memory_stripe, write_word,
}
use tlstm.Tx.Write.LogView.{
  LogView, view, undo, dropped-undo, SameLog-trans, cm_on_access-SameLog,
  request_validation-SameLog, extend_if_behind-SameLog, set_entry-SameLog,
}
use tlstm.Tx.Write.Undoable.{
  OwnsLog, Owns, undone, Undoable, SameLog-Undoable, pushed, taken, push-OwnsLog, push-undo,
  prepare_entry-view,
}

some_injective : {r q : EntryRef} → some r ≡ some q → r ≡ q
some_injective h = cc

false-true : false ≡ true → ⊥
false-true h = absurd (cc)

module _ (tid lock address value mask : ℕ) (s : State) (owns : Owns tid s) where
  stripe_locked-Undoable :
      (slot : ℕ) (s' : State)
      → Undoable tid s s'
      → Ensures (Undoable tid s) (stripe_locked tid slot lock s')
  unfolding stripe_locked tx_restart
  stripe_locked-Undoable slot s' u =
      let read_lock = map_write_lock_to_read_lock lock in
      let version = s'.read_locks read_lock in
      let s1 = request_validation tid version s' in
      let s2 = (extend_if_behind tid s1).1 in
      let f : WriteLogEntry → WriteLogEntry =
        λ e. record e { read_lock = read_lock; old_version = version } in
      let s3 = set_entry tid slot f s2 in
      let k = SameLog-trans tid s' s1 _ (request_validation-SameLog tid version s') (
        SameLog-trans tid s1 s2 _ (extend_if_behind-SameLog tid s1) (
          SameLog-trans tid s2 s3 _ (set_entry-SameLog tid tid slot f s2 (λ e. refl))
            (cm_on_access-SameLog tid s3))) in
      elim (Bool-cases (extend_if_behind tid s1).0) [
        | inl valid ↦ rw valid (SameLog-Undoable tid s s' (cm_on_access tid s3) u k)
        | inr stale ↦ rw stale tt
      ]

  take_lock-Undoable :
      ((i : ℕ) → i < (view tid s).size → ((view tid s).cells i).write_lock ≢ lock)
      → Ensures (Undoable tid s) (take_lock tid lock address value mask (s.write_locks lock) s)
  unfolding take_lock
  take_lock-Undoable free =
      let v = view tid s in
      let p = prepare_entry tid lock address value mask (s.write_locks lock) s in
      let s' = set_write_lock lock (some (record { owner = tid; slot = v.size })) p in
      let seen = prepare_entry-view tid lock address value mask s in
      stripe_locked-Undoable v.size s' (record {
        owns =
            subst (λ (w : LogView). OwnsLog tid s'.write_locks w) (sym seen)
              (unfold taken in push-OwnsLog tid lock s.write_locks v owns free);
        base =
            (λ i. undo (seen i).cells (seen i).size s'.write_locks)
            ∙ (unfold taken in push-undo tid lock s.write_locks v free);
        rolled_back = ap (λ (w : LogView). w.rolled_back) seen ∙ (unfold pushed in refl);
      })

  Keeping : State → Type 0
  Keeping = Undoable tid s

  restarts : (s' : State) → Ensures {A = Unit {0}} (Undoable tid s) (restart_whole tid s')
  unfolding restart_whole tx_restart
  restarts s' = never_returns (Undoable tid s) _ (abort_whole tid s')

  -- The lock holds none of this task's entries.
  free_of :
      ((r : EntryRef)
        → s.write_locks lock ≡ some r
        → (entry_at r s).ptid ≡ (s.transactions tid).prog_thread_id
        → (entry_at r s).serial ≢ (s.transactions tid).serial)
      → (i : ℕ) → i < (view tid s).size
      → ((view tid s).cells i).write_lock ≢ lock
  free_of other i lt e =
      let (held, ptid, serial) = owns i lt in
      other (record { owner = tid; slot = i }) (ap s.write_locks (sym e) ∙ held) ptid serial

  lock_pass-Undoable :
      ((r : EntryRef)
        → s.write_locks lock ≡ some r
        → (entry_at r s).ptid ≡ (s.transactions tid).prog_thread_id
        → (entry_at r s).serial ≢ (s.transactions tid).serial)
      → Ensures (Undoable tid s) (lock_pass tid lock address value mask s)
  unfolding tx_restart lock_pass Keeping
  lock_pass-Undoable other =
      let P = Keeping in
      let taking = take_lock-Undoable (free_of other) in
      elim (Option-cases (s.write_locks lock)) [
        | inl free ↦
            rw (free, lock_pass)
              (subst
                (λ (o : Option EntryRef). Ensures P (take_lock tid lock address value mask o s))
                free taking)
        | inr (r, held) ↦
            let s1 = (should_abort_write tid lock s).1 in
            rw (held, lock_pass)
              (if_Ensures P ((entry_at r s).ptid == (s.transactions tid).prog_thread_id) _ _
                (if_Ensures P (ltb (entry_at r s).serial (s.transactions tid).serial) _ _
                  (if_Ensures P (ltb (my_thread tid s).last_completed_task (entry_at r s).serial) _
                    _ tt
                    (if_Ensures P (s.transactions tid).abort_transaction _ _ (restarts s) (
                      subst
                        (λ (o : Option EntryRef).
                          Ensures P (take_lock tid lock address value mask o s))
                        held taking)))
                  (if_Ensures P (s.transactions tid).abort_transaction _ _ (restarts s) tt))
                (if_Ensures P (should_abort_write tid lock s).0 _ _
                  (if_Ensures P (s1.transactions tid).abort_transaction _ _ (restarts s1) tt) tt))
      ]

  own_entry-Undoable :
      (r : EntryRef)
      → Undoable tid s (
          set_entry r.owner r.slot
            (λ e. record e { head = insert_word_log_entry address value mask e.head })
            s)
  own_entry-Undoable r =
      SameLog-Undoable tid s s _ (record { owns = owns; base = refl; rolled_back = refl })
        (set_entry-SameLog tid r.owner r.slot
          (λ e. record e { head = insert_word_log_entry address value mask e.head }) s (λ e. refl))

  differ :
      (f : WriteLogEntry → ℕ) (n : ℕ) (r q : EntryRef)
      → s.write_locks lock ≡ some r
      → (f (entry_at r s) == n) ≡ false
      → s.write_locks lock ≡ some q
      → f (entry_at q s) ≡ n
      → ⊥
  differ f n r q held no_match e here =
      let same : r ≡ q = some_injective (sym held ∙ e) in
      let yes_match : (f (entry_at r s) == n) ≡ true =
        (==_iff _ _).1 (ap (λ (x : EntryRef). f (entry_at x s)) same ∙ here) in
      false-true (sym no_match ∙ yes_match)

  lock_memory_stripe-Undoable :
      Ensures (Undoable tid s) (lock_memory_stripe tid lock address value mask s)
  unfolding lock_memory_stripe tx_restart Keeping
  lock_memory_stripe-Undoable =
      let P = Keeping in
      if_Ensures P (s.transactions tid).abort_task _ _ tt (
        if_Ensures P (s.transactions tid).abort_transaction _ _ (restarts s)
          (elim (Option-cases (s.write_locks lock)) [
            | inl free ↦ rw free (lock_pass-Undoable (λ r held. absurd (cc)))
            | inr (r, held) ↦
                rw held
                  (elim (Bool-cases ((entry_at r s).ptid == (s.transactions tid).prog_thread_id)) [
                    | inr other ↦ rw other (
                        lock_pass-Undoable
                          (λ q e mine now. differ (λ x. x.ptid) _ r q held other e mine))
                    | inl mine ↦
                        elim (Bool-cases ((entry_at r s).serial == (s.transactions tid).serial)) [
                          | inr past ↦
                              rw (mine, past)
                                (lock_pass-Undoable
                                  (λ q e _ now. differ (λ x. x.serial) _ r q held past e now))
                          | inl now ↦ rw (mine, now) (own_entry-Undoable r)
                        ]
                  ])
          ]))

-- A call of `WriteWord`.
pub record Call : Type 0 where
  pub address : ℕ
  pub value : ℕ
  pub mask : ℕ

-- The writes return one after the other and lead from one state to another.
pub data Writes (tid : ℕ) : List Call → State → State → Type 0 where
  none_left : {s : State} → Writes tid [] s s
  write_first :
      {c : Call} {cs : List Call} {s s1 s2 : State}
      → write_word tid c.address c.value c.mask s ≡ done tt s1
      → Writes tid cs s1 s2
      → Writes tid (c ∷ cs) s s2

Writes-Undoable :
    (tid : ℕ) {cs : List Call} {s s' : State} → Writes tid cs s s' → Owns tid s → Undoable tid s s'
Writes-Undoable tid none_left owns = record { owns = owns; base = refl; rolled_back = refl }
Writes-Undoable tid (write_first {c} {cs} {s} {s1} e rest) owns =
    let first : Undoable tid s s1 =
      subst (λ (r : Result (Unit {0})). Ensures (Undoable tid s) r) e
        (unfold write_word in
          lock_memory_stripe-Undoable tid (map_address_to_write_lock c.address) c.address c.value
            c.mask s owns) in
    let later = Writes-Undoable tid rest first.owns in
    record {
      owns = later.owns;
      base = later.base ∙ first.base;
      rolled_back = later.rolled_back ∙ first.rolled_back;
    }

rollback-undone :
    (tid : ℕ) (s : State)
    → (s.transactions tid).rolled_back ≡ false
    → (rollback tid s).write_locks ≡ undone tid s
unfolding rollback
rollback-undone tid s fresh =
    rw (fresh, drop_locks_lem)
      (dropped-undo (s.transactions tid).write_log.entries (s.transactions tid).write_log.size
        s.write_locks)

-- A task whose log is empty and that has not been rolled back, after any sequence of writes that
-- return, on free locks, on locks of past tasks and on its own, and then a rollback, leaves every
-- write lock as it was before the first of them.
pub Writes-rollback :
    (tid : ℕ) (cs : List Call) (s s' : State)
    → (s.transactions tid).write_log.size ≡ 0
    → (s.transactions tid).rolled_back ≡ false
    → Writes tid cs s s'
    → (rollback tid s').write_locks ≡ s.write_locks
Writes-rollback tid cs s s' empty fresh writes =
    let owns : Owns tid s = λ i lt. absurd (omega arith) in
    let u = Writes-Undoable tid writes owns in
    rollback-undone tid s' (u.rolled_back ∙ fresh)
    ∙ u.base
    ∙ ap (λ (n : ℕ). undo (view tid s).cells n s.write_locks) empty
    ∙ (unfold undo in refl)
