-- ===== src/Tx/Write/LogView.antt =====
-- What a rollback of src/stm/transaction_mixinv.h needs of a descriptor, and which operations leave
-- it alone.
use tlstm.Prelude.{
  ℕ, zero, suc, ◌+◌, ◌%◌, ◌^◌, ◌<◌, ◌≡◌, refl, ◌≢◌, Bool, true, false, Option, ◌∷◌, arith, sym, ap,
  ◌∙◌, Bool-cases, inl, inr, ◌==◌, ==_iff, if◌then◌else◌, ltb, update,
}
use tlstm.Tx.State.{
  EntryRef, WriteLogEntry, ProgramThread, TxMixinv, State, Stat, set_tx, my_thread,
  increment_statistics, tls_extend_success, tls_extend_failure,
}
use tlstm.Tx.Rollback.{first_entries}
use tlstm.Tx.Rollback.Restore.{dropped, dropped_append}
use tlstm.Tx.Validate.{should_extend, extend_tls, validate_tls}
use tlstm.Tx.Contention.{cm_on_access, is_initial, cm_access_threshold}
use tlstm.Tx.Write.{set_entry, request_validation, extend_if_behind}

pub record Cell : Type 0 where
  pub write_lock : ℕ
  pub old_entry : Option EntryRef
  pub ptid : ℕ
  pub serial : ℕ

pub record LogView : Type 0 where
  pub cells : ℕ → Cell
  pub size : ℕ
  pub prog_thread_id : ℕ
  pub serial : ℕ
  pub rolled_back : Bool

abbrev pub cell : WriteLogEntry → Cell
cell e = record {
  write_lock = e.write_lock;
  old_entry = e.old_entry;
  ptid = e.ptid;
  serial = e.serial;
}

abbrev pub view_tx : TxMixinv → LogView
view_tx t = record {
  cells = λ i. cell (t.write_log.entries i);
  size = t.write_log.size;
  prog_thread_id = t.prog_thread_id;
  serial = t.serial;
  rolled_back = t.rolled_back;
}

abbrev pub view : ℕ → State → LogView
view tid s = view_tx (s.transactions tid)

-- The lock table once the first `n` cells are undone.
unfoldable pub undo : (ℕ → Cell) → ℕ → (ℕ → Option EntryRef) → ℕ → Option EntryRef
undo cells zero locks = locks
undo cells (suc n) locks = update (undo cells n locks) (cells n).write_lock (cells n).old_entry

pub dropped-undo :
    (entries : ℕ → WriteLogEntry) (n : ℕ) (locks : ℕ → Option EntryRef)
    → dropped (first_entries entries n) locks ≡ undo (λ i. cell (entries i)) n locks
unfolding undo first_entries dropped
dropped-undo entries zero locks = refl
dropped-undo entries (suc n) locks =
    dropped_append (first_entries entries n) _ locks
    ∙ ap (λ (l : ℕ → Option EntryRef). update l (entries n).write_lock (entries n).old_entry)
        (dropped-undo entries n locks)

-- Locks are undone one by one.
pub undo-local :
    (cells : ℕ → Cell) (n : ℕ) (locks locks' : ℕ → Option EntryRef) (x : ℕ)
    → locks x ≡ locks' x
    → undo cells n locks x ≡ undo cells n locks' x
unfolding undo
undo-local cells zero locks locks' x h = h
undo-local cells (suc n) locks locks' x h = elim (Bool-cases (x == (cells n).write_lock)) [
  | inl here ↦ rw here refl
  | inr away ↦ rw away (undo-local cells n locks locks' x h)
]

pub undo_free :
    (cells : ℕ → Cell) (n : ℕ) (locks : ℕ → Option EntryRef) (x : ℕ)
    → ((i : ℕ) → i < n → (cells i).write_lock ≢ x)
    → undo cells n locks x ≡ locks x
unfolding undo
undo_free cells zero locks x h = refl
undo_free cells (suc n) locks x h = elim (Bool-cases (x == (cells n).write_lock)) [
  | inl here ↦ absurd (h n (omega arith) (sym ((==_iff x _).0 here)))
  | inr away ↦ rw away (undo_free cells n locks x (λ i lt. h i (omega arith)))
]

pub undo_same :
    (cells cells' : ℕ → Cell) (n : ℕ) (locks : ℕ → Option EntryRef)
    → ((i : ℕ) → i < n → cells i ≡ cells' i)
    → undo cells n locks ≡ undo cells' n locks
unfolding undo
undo_same cells cells' zero locks h = refl
undo_same cells cells' (suc n) locks h = λ k.
    update (undo_same cells cells' n locks (λ i lt. h i (omega arith)) k)
      (h n (omega arith) k).write_lock (h n (omega arith) k).old_entry

-- An operation that leaves the write locks and the view alone.
pub record SameLog (tid : ℕ) (s s' : State) : Type 0 where
  pub locks : s'.write_locks ≡ s.write_locks
  pub log : view tid s' ≡ view tid s

pub SameLog-trans : (tid : ℕ) (a b c : State) → SameLog tid a b → SameLog tid b c → SameLog tid a c
SameLog-trans tid a b c p q = record { locks = q.locks ∙ p.locks; log = q.log ∙ p.log }

set_tx-SameLog :
    (tid owner : ℕ) (f : TxMixinv → TxMixinv) (s : State)
    → ((t : TxMixinv) → view_tx (f t) ≡ view_tx t)
    → SameLog tid s (set_tx owner f s)
set_tx-SameLog tid owner f s h = record {
  locks = refl;
  log = elim (Bool-cases (tid == owner)) [
    | inl here ↦
        let same : tid ≡ owner = (==_iff _ _).0 here in
        rw here (h (s.transactions owner) ∙ ap (λ (o : ℕ). view o s) (sym same))
    | inr away ↦ rw away refl
  ];
}

threads-SameLog :
    (tid : ℕ) (s : State) (threads : ℕ → ProgramThread) (clock : ℕ)
    → SameLog tid s (record s { prog_thread = threads; cm_ts = clock })
threads-SameLog tid s threads clock = record { locks = refl; log = refl }

SameLog-refl : (tid : ℕ) (s : State) → SameLog tid s s
SameLog-refl tid s = record { locks = refl; log = refl }

counts-SameLog :
    (tid : ℕ) (stat : Stat) (s : State) → SameLog tid s (increment_statistics tid stat s)
counts-SameLog tid stat s =
    set_tx-SameLog tid tid (λ t. record t { stats = stat ∷ t.stats }) s (λ t. refl)

writer-SameLog :
    (tid lw : ℕ) (s : State) → SameLog tid s (set_tx tid (λ t. record t { last_writer = lw }) s)
writer-SameLog tid lw s = set_tx-SameLog tid tid (λ t. record t { last_writer = lw }) s (λ t. refl)

extend_tls-SameLog : (tid : ℕ) (s : State) → SameLog tid s (extend_tls tid s).1
unfolding extend_tls
extend_tls-SameLog tid s =
    let lw = (my_thread tid s).last_completed_writer in
    let s1 = set_tx tid (λ t. record t { last_writer = lw }) s in
    elim (validate_tls tid s)
      as (λ b.
        SameLog tid s
          (if◌then◌else◌ {A = Bool × State} b (true, increment_statistics tid tls_extend_success s1)
            (false, increment_statistics tid tls_extend_failure s)).1) [
              | true ↦
                  SameLog-trans tid s s1 _ (writer-SameLog tid lw s)
                    (counts-SameLog tid tls_extend_success s1)
              | false ↦ counts-SameLog tid tls_extend_failure s
            ]

pub cm_on_access-SameLog : (tid : ℕ) (s : State) → SameLog tid s (cm_on_access tid s)
unfolding cm_on_access
cm_on_access-SameLog tid s = elim (Bool-cases (is_initial (my_thread tid s).cm_phase)) [
  | inr greedy ↦ rw greedy (SameLog-refl tid s)
  | inl initial ↦
      elim (Bool-cases
        (ltb cm_access_threshold (((my_thread tid s).locations_accessed + 1) % 2 ^ 32))) [
          | inl many ↦ rw (initial, many) (threads-SameLog tid s _ _)
          | inr few ↦ rw (initial, few) (threads-SameLog tid s _ _)
        ]
]

pub request_validation-SameLog :
    (tid version : ℕ) (s : State) → SameLog tid s (request_validation tid version s)
unfolding request_validation
request_validation-SameLog tid version s = elim (Bool-cases (should_extend tid version s)) [
  | inl newer ↦ rw newer (threads-SameLog tid s _ _)
  | inr known ↦ rw known (SameLog-refl tid s)
]

pub extend_if_behind-SameLog : (tid : ℕ) (s : State) → SameLog tid s (extend_if_behind tid s).1
unfolding extend_if_behind
extend_if_behind-SameLog tid s =
    elim (ltb (s.transactions tid).last_writer (my_thread tid s).last_completed_writer)
      as (λ b. SameLog tid s (if◌then◌else◌ {A = Bool × State} b (extend_tls tid s) (true, s)).1) [
        | true ↦ extend_tls-SameLog tid s
        | false ↦ SameLog-refl tid s
      ]

cell-update_slot :
    (entries : ℕ → WriteLogEntry) (slot : ℕ) (e : WriteLogEntry) (i : ℕ)
    → cell e ≡ cell (entries slot)
    → cell (update entries slot e i) ≡ cell (entries i)
cell-update_slot entries slot e i h = elim (Bool-cases (i == slot)) [
  | inl here ↦ rw here (h ∙ ap (λ (j : ℕ). cell (entries j)) (sym ((==_iff i slot).0 here)))
  | inr away ↦ rw away refl
]

-- An assignment to an entry, but not to its write lock, its old entry, its thread or its serial.
pub set_entry-SameLog :
    (tid owner slot : ℕ) (f : WriteLogEntry → WriteLogEntry) (s : State)
    → ((e : WriteLogEntry) → cell (f e) ≡ cell e)
    → SameLog tid s (set_entry owner slot f s)
set_entry-SameLog tid owner slot f s h =
    set_tx-SameLog tid owner
      (λ t. record t {
        write_log = record {
          entries = update t.write_log.entries slot (f (t.write_log.entries slot));
          size = t.write_log.size;
        };
      })
      s
      (λ t k. record {
        cells = λ i.
            cell-update_slot t.write_log.entries slot (f (t.write_log.entries slot)) i
              (h (t.write_log.entries slot)) k;
        size = t.write_log.size;
        prog_thread_id = t.prog_thread_id;
        serial = t.serial;
        rolled_back = t.rolled_back;
      })
