-- ===== src/Tx/Write/Keeps.antt =====
-- What the bookkeeping after a write of src/stm/transaction_mixinv.h leaves alone: a write log entry,
-- the locks and the memory.
use tlstm.Prelude.{
  ℕ, ◌+◌, ◌%◌, ◌^◌, ◌≡◌, refl, Bool, true, false, ◌∷◌, sym, ap, ◌∙◌, Bool-cases, inl, inr, ◌==◌,
  ==_refl, ==_iff, if◌then◌else◌, ltb,
}
use tlstm.Tx.State.{
  EntryRef, WriteLogEntry, WriteLog, ProgramThread, TxMixinv, State, Stat, tls_extend_success,
  tls_extend_failure, increment_statistics, set_tx, entry_at, my_thread,
}
use tlstm.Tx.Validate.{should_extend, extend_tls, validate_tls}
use tlstm.Tx.Contention.{cm_on_access, is_initial, cm_access_threshold}
use tlstm.Tx.Write.{set_entry, request_validation, extend_if_behind}

pub record Keeps (tid : ℕ) (r : EntryRef) (s s' : State) : Type 0 where
  pub locks : s'.write_locks ≡ s.write_locks
  pub memory : s'.memory ≡ s.memory
  pub head : (entry_at r s').head ≡ (entry_at r s).head
  pub ptid : (entry_at r s').ptid ≡ (entry_at r s).ptid
  pub serial : (entry_at r s').serial ≡ (entry_at r s).serial
  pub my_ptid : (s'.transactions tid).prog_thread_id ≡ (s.transactions tid).prog_thread_id
  pub my_serial : (s'.transactions tid).serial ≡ (s.transactions tid).serial

module _ {tid : ℕ} {r : EntryRef} where
  pub Keeps-trans : {a b c : State} → Keeps tid r a b → Keeps tid r b c → Keeps tid r a c
  Keeps-trans p q = record {
    locks = q.locks ∙ p.locks;
    memory = q.memory ∙ p.memory;
    head = q.head ∙ p.head;
    ptid = q.ptid ∙ p.ptid;
    serial = q.serial ∙ p.serial;
    my_ptid = q.my_ptid ∙ p.my_ptid;
    my_serial = q.my_serial ∙ p.my_serial;
  }

pub Keeps-refl : (tid : ℕ) (r : EntryRef) (s : State) → Keeps tid r s s
Keeps-refl tid r s = record {
  locks = refl;
  memory = refl;
  head = refl;
  ptid = refl;
  serial = refl;
  my_ptid = refl;
  my_serial = refl;
}

-- An assignment to other fields of the descriptor.
set_tx-Keeps :
    (tid : ℕ) (r : EntryRef) (f : TxMixinv → TxMixinv) (s : State)
    → ((t : TxMixinv) → (f t).write_log ≡ t.write_log)
    → ((t : TxMixinv) → (f t).prog_thread_id ≡ t.prog_thread_id)
    → ((t : TxMixinv) → (f t).serial ≡ t.serial)
    → Keeps tid r s (set_tx tid f s)
set_tx-Keeps tid r f s log ptid serial =
    let entry : entry_at r (set_tx tid f s) ≡ entry_at r s = elim (Bool-cases (r.owner == tid)) [
      | inr away ↦ rw (away, entry_at) refl
      | inl here ↦
          let same : r.owner ≡ tid = (==_iff _ _).0 here in
          rw (here, entry_at)
            (ap (λ (l : WriteLog). l.entries r.slot) (log (s.transactions tid))
              ∙ ap (λ (o : ℕ). (s.transactions o).write_log.entries r.slot) (sym same))
    ] in
    record {
      locks = refl;
      memory = refl;
      head = ap (λ (e : WriteLogEntry). e.head) entry;
      ptid = ap (λ (e : WriteLogEntry). e.ptid) entry;
      serial = ap (λ (e : WriteLogEntry). e.serial) entry;
      my_ptid = simp ==_refl (ptid (s.transactions tid));
      my_serial = simp ==_refl (serial (s.transactions tid));
    }

-- An assignment to program threads, and to the contention clock.
pub threads-Keeps :
    (tid : ℕ) (r : EntryRef) (s : State) (threads : ℕ → ProgramThread) (clock : ℕ)
    → Keeps tid r s (record s { prog_thread = threads; cm_ts = clock })
threads-Keeps tid r s threads clock = record {
  locks = refl;
  memory = refl;
  head = refl;
  ptid = refl;
  serial = refl;
  my_ptid = refl;
  my_serial = refl;
}

counts-Keeps :
    (tid : ℕ) (r : EntryRef) (stat : Stat) (s : State)
    → Keeps tid r s (increment_statistics tid stat s)
counts-Keeps tid r stat s =
    set_tx-Keeps tid r (λ t. record t { stats = stat ∷ t.stats }) s (λ t. refl) (λ t. refl)
      (λ t. refl)

writer-Keeps :
    (tid : ℕ) (r : EntryRef) (lw : ℕ) (s : State)
    → Keeps tid r s (set_tx tid (λ t. record t { last_writer = lw }) s)
writer-Keeps tid r lw s =
    set_tx-Keeps tid r (λ t. record t { last_writer = lw }) s (λ t. refl) (λ t. refl) (λ t. refl)

pub extend_tls-Keeps : (tid : ℕ) (r : EntryRef) (s : State) → Keeps tid r s (extend_tls tid s).1
unfolding extend_tls
extend_tls-Keeps tid r s =
    let lw = (my_thread tid s).last_completed_writer in
    elim (validate_tls tid s)
      as (λ b.
        Keeps tid r s
          (if◌then◌else◌ {A = Bool × State} b
            (
              true,
              increment_statistics tid tls_extend_success
                  (set_tx tid (λ t. record t { last_writer = lw }) s),
            )
            (false, increment_statistics tid tls_extend_failure s)).1) [
              | true ↦
                  Keeps-trans (writer-Keeps tid r lw s) (counts-Keeps tid r tls_extend_success _)
              | false ↦ counts-Keeps tid r tls_extend_failure s
            ]

pub cm_on_access-Keeps : (tid : ℕ) (r : EntryRef) (s : State) → Keeps tid r s (cm_on_access tid s)
unfolding cm_on_access
cm_on_access-Keeps tid r s = elim (Bool-cases (is_initial (my_thread tid s).cm_phase)) [
  | inr greedy ↦ rw greedy (Keeps-refl tid r s)
  | inl initial ↦
      elim (Bool-cases
        (ltb cm_access_threshold (((my_thread tid s).locations_accessed + 1) % 2 ^ 32))) [
          | inl many ↦ rw (initial, many) (threads-Keeps tid r s _ _)
          | inr few ↦ rw (initial, few) (threads-Keeps tid r s _ _)
        ]
]

pub request_validation-Keeps :
    (tid version : ℕ) (r : EntryRef) (s : State) → Keeps tid r s (request_validation tid version s)
unfolding request_validation
request_validation-Keeps tid version r s = elim (Bool-cases (should_extend tid version s)) [
  | inl newer ↦ rw newer (threads-Keeps tid r s _ _)
  | inr known ↦ rw known (Keeps-refl tid r s)
]

pub extend_if_behind-Keeps :
    (tid : ℕ) (r : EntryRef) (s : State) → Keeps tid r s (extend_if_behind tid s).1
unfolding extend_if_behind
extend_if_behind-Keeps tid r s =
    elim (ltb (s.transactions tid).last_writer (my_thread tid s).last_completed_writer)
      as (λ b. Keeps tid r s (if◌then◌else◌ {A = Bool × State} b (extend_tls tid s) (true, s)).1) [
        | true ↦ extend_tls-Keeps tid r s
        | false ↦ Keeps-refl tid r s
      ]

-- An assignment to an entry.
pub set_entry-at :
    (tid slot : ℕ) (f : WriteLogEntry → WriteLogEntry) (s : State)
    → ((set_entry tid slot f s).transactions tid).write_log.entries slot
      ≡ f ((s.transactions tid).write_log.entries slot)
set_entry-at tid slot f s = rw (==_refl tid) (rw (==_refl slot) refl)

set_entry-tx :
    (tid slot : ℕ) (f : WriteLogEntry → WriteLogEntry) (s : State)
    → (((set_entry tid slot f s).transactions tid).prog_thread_id
        ≡ (s.transactions tid).prog_thread_id)
      × (((set_entry tid slot f s).transactions tid).serial ≡ (s.transactions tid).serial)
set_entry-tx tid slot f s = (simp ==_refl refl, simp ==_refl refl)

-- An assignment to the read lock and the version of the entry itself.
pub set_entry-Keeps :
    (tid slot lock version : ℕ) (s : State)
    → Keeps tid
        (record { owner = tid; slot = slot })
        s
        (set_entry tid slot (λ e. record e { read_lock = lock; old_version = version }) s)
set_entry-Keeps tid slot lock version s =
    let f : WriteLogEntry → WriteLogEntry =
      λ e. record e { read_lock = lock; old_version = version } in
    record {
      locks = refl;
      memory = refl;
      head = ap (λ (e : WriteLogEntry). e.head) (set_entry-at tid slot f s);
      ptid = ap (λ (e : WriteLogEntry). e.ptid) (set_entry-at tid slot f s);
      serial = ap (λ (e : WriteLogEntry). e.serial) (set_entry-at tid slot f s);
      my_ptid = (set_entry-tx tid slot f s).0;
      my_serial = (set_entry-tx tid slot f s).1;
    }

-- A descriptor keeps its program thread and its serial under an assignment to an entry of any.
pub set_entry-other :
    (tid owner slot : ℕ) (f : WriteLogEntry → WriteLogEntry) (s : State)
    → (((set_entry owner slot f s).transactions tid).prog_thread_id
        ≡ (s.transactions tid).prog_thread_id)
      × (((set_entry owner slot f s).transactions tid).serial ≡ (s.transactions tid).serial)
set_entry-other tid owner slot f s = elim (Bool-cases (tid == owner)) [
  | inl here ↦
      let same : tid ≡ owner = (==_iff tid owner).0 here in
      rw here (
        ap (λ (o : ℕ). (s.transactions o).prog_thread_id) (sym same),
        ap (λ (o : ℕ). (s.transactions o).serial) (sym same),
      )
  | inr away ↦ rw away (refl, refl)
]
