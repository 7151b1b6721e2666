-- ===== src/Tx/Write/Chained.antt =====
-- The new entry of a write of src/stm/transaction_mixinv.h, over the entry of a past task.
use tlstm.Prelude.{
  ℕ, ◌+◌, ◌<◌, ◌≡◌, ◌≢◌, sym, ap, subst, ◌∙◌, arith, true, false, Option, some, Bool-cases, inl,
  inr, ◌==◌, ==_iff, ==_refl, if_true, if_false, update, [],
}
use tlstm.Tx.WordLog.{insert_word_log_entry}
use tlstm.Tx.State.{EntryRef, WriteLogEntry, TxMixinv, State, entry_at}
use tlstm.Tx.Validate.{chain}
use tlstm.Tx.Validate.Chain.{Walk, Reaches, first, later, Falling, chain-Walk}
use tlstm.Tx.Write.{prepare_entry}

Reaches-next :
    (s : State) (o : Option EntryRef) (a b : EntryRef)
    → Reaches s o a
    → (entry_at a s).old_entry ≡ some b
    → Reaches s o b
Reaches-next s _ _ b (first r) e = later r b (subst (λ o. Reaches s o b) (sym e) (first b))
Reaches-next s _ _ b (later r a q) e = later r b (Reaches-next s (entry_at r s).old_entry a b q e)

module _ (tid lock address value mask : ℕ) (old : Option EntryRef) (s : State) where
  abbrev new : EntryRef
  new = record { owner = tid; slot = (s.transactions tid).write_log.size }

  abbrev pub written : State
  written = prepare_entry tid lock address value mask old s

  abbrev t : TxMixinv
  t = s.transactions tid

  entry : WriteLogEntry
  entry = record (t.write_log.entries t.write_log.size) {
    write_lock = lock;
    owner = tid;
    ptid = t.prog_thread_id;
    serial = t.serial;
    old_entry = old;
    head = insert_word_log_entry address value mask [];
  }

  grown : TxMixinv
  grown = record t {
    write_log = record {
      entries = update t.write_log.entries t.write_log.size entry;
      size = t.write_log.size + 1;
    };
  }

  mine : (x : ℕ) → (x == tid) ≡ true → written.transactions x ≡ grown
  unfolding prepare_entry entry grown
  mine x e = if_true {b = x == tid} _ _ e

  others : (x : ℕ) → (x == tid) ≡ false → written.transactions x ≡ s.transactions x
  unfolding prepare_entry
  others x e = if_false {b = x == tid} _ _ e

  other_entry : (r : EntryRef) → r ≢ new → entry_at r written ≡ entry_at r s
  unfolding grown
  other_entry r n = elim (Bool-cases (r.owner == tid)) [
    | inr away ↦ ap (λ (u : TxMixinv). u.write_log.entries r.slot) (others r.owner away)
    | inl here ↦ elim (Bool-cases (r.slot == t.write_log.size)) [
      | inl last ↦
          absurd (n (λ i. record { owner = (==_iff _ _).0 here i; slot = (==_iff _ _).0 last i }))
      | inr below ↦
          ap (λ (u : TxMixinv). u.write_log.entries r.slot) (mine r.owner here)
          ∙ if_false {b = r.slot == t.write_log.size} entry (t.write_log.entries r.slot) below
          ∙ ap (λ x. (s.transactions x).write_log.entries r.slot)
              (sym ((==_iff r.owner tid).0 here))
    ]
  ]

  new-entry : entry_at new written ≡ entry
  unfolding grown
  new-entry =
      ap (λ (u : TxMixinv). u.write_log.entries t.write_log.size) (mine tid (==_refl tid))
      ∙ if_true {b = t.write_log.size == t.write_log.size} entry
          (t.write_log.entries t.write_log.size) (==_refl t.write_log.size)

  module _ (fresh : (r : EntryRef) → Reaches s old r → r ≢ new) where
    back :
        (o o' : Option EntryRef) (r : EntryRef)
        → o ≡ o'
        → ((x : EntryRef) → Reaches s o' x → x ≢ new)
        → Reaches written o r
        → Reaches s o' r
    back _ o' _ e f (first r) = subst (λ o. Reaches s o r) e (first r)
    back _ o' _ e f (later r a q) =
        subst (λ o. Reaches s o a) e
          (later r a (
            back (entry_at r written).old_entry (entry_at r s).old_entry a
              (ap (λ (w : WriteLogEntry). w.old_entry)
                (other_entry r (f r (subst (λ o. Reaches s o r) e (first r)))))
              (λ x p. f x (subst (λ o. Reaches s o x) e (later r x p))) q))

    -- A step within the old chain is of the written state as of the old one.
    step_falls :
        (a b : EntryRef)
        → Falling s old
        → Reaches s old a
        → (entry_at a written).old_entry ≡ some b
        → (entry_at b written).serial < (entry_at a written).serial
    unfolding Falling
    step_falls a b falling reached e =
        let same = other_entry a (fresh a reached) in
        let e' = ap (λ (w : WriteLogEntry). w.old_entry) (sym same) ∙ e in
        let same' = other_entry b (fresh b (Reaches-next s old a b reached e')) in
        omega (
          arith,
          falling a b reached e',
          ap (λ (w : WriteLogEntry). w.serial) same,
          ap (λ (w : WriteLogEntry). w.serial) same',
        )

    -- A write that takes its lock from a past task, or takes a free one, keeps the serials of the chain
    -- falling, when the new entry's place is not in use in it.
    pub prepare_entry-Falling :
        Falling s old
        → ((r : EntryRef) → old ≡ some r → (entry_at r s).serial < t.serial)
        → Falling written (some new)
    unfolding Falling entry
    prepare_entry-Falling falling past _ b (first _) e =
        let o : old ≡ some b = ap (λ (w : WriteLogEntry). w.old_entry) (sym new-entry) ∙ e in
        let reached : Reaches s old b = subst (λ o. Reaches s o b) (sym o) (first b) in
        omega (
          arith,
          past b o,
          ap (λ (w : WriteLogEntry). w.serial) new-entry,
          ap (λ (w : WriteLogEntry). w.serial) (other_entry b (fresh b reached)),
        )
    prepare_entry-Falling falling past a b (later _ _ q) e =
        step_falls a b falling
          (back (entry_at new written).old_entry old a
            (ap (λ (w : WriteLogEntry). w.old_entry) new-entry) fresh q)
          e

    -- Let the serials fall along the chain from the entry `old` that a write finds at its lock, or let there be
    -- none; let that entry be of a past task and the place of the new entry be unused in the chain. Then the
    -- serials fall along the chain from the new entry as well, so that a walk from it ends, and `chain`,
    -- whose fuel is the first entry's serial and one, is all that the walk meets up to the first NULL.
    pub prepare_entry-Walk :
        Falling s old
        → ((r : EntryRef) → old ≡ some r → (entry_at r s).serial < t.serial)
        → Falling written (some new) × Walk written (some new) (chain written (some new))
    prepare_entry-Walk falling past = (
      prepare_entry-Falling falling past,
      chain-Walk written (some new) (prepare_entry-Falling falling past),
    )
