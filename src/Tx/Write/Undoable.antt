-- ===== src/Tx/Write/Undoable.antt =====
-- The invariant of a write log of src/stm/transaction_mixinv.h under which a rollback undoes it, and
-- its preservation when a lock is taken.
use native.Mathlib.Numerals.{add-one}
use tlstm.Prelude.{
  ℕ, suc, ◌<◌, ◌≡◌, refl, ◌≢◌, false, Option, some, [], arith, sym, ap, subst, ◌∙◌, fun_ext,
  Bool-cases, inl, inr, ◌==◌, ==_refl, ==_iff, update,
}
use tlstm.Tx.WordLog.{insert_word_log_entry}
use tlstm.Tx.State.{EntryRef, WriteLogEntry, State}
use tlstm.Tx.Write.{prepare_entry}
use tlstm.Tx.Write.LogView.{LogView, cell, view, undo, undo-local, undo_free, undo_same, SameLog}

-- Each entry in use is this task's own and has its lock.
abbrev pub OwnsLog : ℕ → (ℕ → Option EntryRef) → LogView → Type 0
OwnsLog tid locks v =
    (i : ℕ)
    → i < v.size
    → (locks (v.cells i).write_lock ≡ some (record { owner = tid; slot = i }))
      × ((v.cells i).ptid ≡ v.prog_thread_id)
      × ((v.cells i).serial ≡ v.serial)

abbrev pub Owns : ℕ → State → Type 0
Owns tid s = OwnsLog tid s.write_locks (view tid s)

-- The write locks without this task.
abbrev pub undone : ℕ → State → ℕ → Option EntryRef
undone tid s = undo (view tid s).cells (view tid s).size s.write_locks

-- A step of the task that a rollback would undo.
pub record Undoable (tid : ℕ) (s s' : State) : Type 0 where
  pub owns : Owns tid s'
  pub base : undone tid s' ≡ undone tid s
  pub rolled_back : (view tid s').rolled_back ≡ (view tid s).rolled_back

pub SameLog-Undoable :
    (tid : ℕ) (s s' s'' : State) → Undoable tid s s' → SameLog tid s' s'' → Undoable tid s s''
SameLog-Undoable tid s s' s'' u k = record {
  owns =
      subst (λ (v : LogView). OwnsLog tid s''.write_locks v) (sym k.log)
        (subst (λ (l : ℕ → Option EntryRef). OwnsLog tid l (view tid s')) (sym k.locks) u.owns);
  base = (λ i. undo (k.log i).cells (k.log i).size (k.locks i)) ∙ u.base;
  rolled_back = ap (λ (v : LogView). v.rolled_back) k.log ∙ u.rolled_back;
}

-- The view and the locks when `lock` is taken by a new entry on top of `old`.
module _ (tid lock : ℕ) (locks : ℕ → Option EntryRef) (v : LogView) where
  unfoldable pub pushed : LogView
  pushed = record v {
    cells = update v.cells v.size (record {
      write_lock = lock;
      old_entry = locks lock;
      ptid = v.prog_thread_id;
      serial = v.serial;
    });
    size = suc v.size;
  }

  unfoldable pub taken : ℕ → Option EntryRef
  taken = update locks lock (some (record { owner = tid; slot = v.size }))

  pub push-OwnsLog :
      OwnsLog tid locks v
      → ((i : ℕ) → i < v.size → (v.cells i).write_lock ≢ lock)
      → OwnsLog tid taken pushed
  unfolding taken pushed
  push-OwnsLog owns free i lt = elim (Bool-cases (i == v.size)) [
    | inl last ↦ rw ((==_iff _ _).0 last) (simp ==_refl refl, simp ==_refl refl, simp ==_refl refl)
    | inr inner ↦
        let (o, p, q) = owns i (ground arith) in
        let other : ((v.cells i).write_lock == lock) ≡ false =
          ground (arith, free i (ground arith)) in
        rw inner (rw other o, p, q)
  ]

  inner_cell : (i : ℕ) → i < v.size → pushed.cells i ≡ v.cells i
  unfolding pushed
  inner_cell i lt = let other : (i == v.size) ≡ false = ground arith in rw other refl

  pub push-undo :
      ((i : ℕ) → i < v.size → (v.cells i).write_lock ≢ lock)
      → undo pushed.cells pushed.size taken ≡ undo v.cells v.size locks
  unfolding undo taken pushed
  push-undo free = fun_ext λ x. simp ==_refl (elim (Bool-cases (x == lock)) [
    | inl here ↦
        let at : x ≡ lock = (==_iff _ _).0 here in
        rw here (
          ap locks (sym at) ∙ sym (undo_free v.cells v.size locks x (λ i lt e. free i lt (e ∙ at))))
    | inr away ↦ rw away (
        ap (λ (f : ℕ → Option EntryRef). f x)
          (undo_same pushed.cells v.cells v.size taken (λ i lt. inner_cell i lt))
        ∙ undo-local v.cells v.size taken locks x (rw away refl))
  ])

cell-update :
    (entries : ℕ → WriteLogEntry) (n : ℕ) (e : WriteLogEntry) (i : ℕ)
    → cell (update entries n e i) ≡ update (λ j. cell (entries j)) n (cell e) i
cell-update entries n e i = elim (Bool-cases (i == n)) [
  | inl here ↦ rw here refl
  | inr away ↦ rw away refl
]

pub prepare_entry-view :
    (tid lock address value mask : ℕ) (s : State)
    → view tid (prepare_entry tid lock address value mask (s.write_locks lock) s)
      ≡ pushed tid lock s.write_locks (view tid s)
unfolding prepare_entry pushed
prepare_entry-view tid lock address value mask s =
    let t = s.transactions tid in
    let e : WriteLogEntry = record (t.write_log.entries t.write_log.size) {
      write_lock = lock;
      owner = tid;
      ptid = t.prog_thread_id;
      serial = t.serial;
      old_entry = s.write_locks lock;
      head = insert_word_log_entry address value mask [];
    } in
    rw (==_refl tid) (λ k. record {
      cells = λ i. cell-update t.write_log.entries t.write_log.size e i k;
      size = add-one t.write_log.size k;
      prog_thread_id = t.prog_thread_id;
      serial = t.serial;
      rolled_back = t.rolled_back;
    })
