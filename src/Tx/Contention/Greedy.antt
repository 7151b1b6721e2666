-- ===== src/Tx/Contention/Greedy.antt =====
-- What the contention manager of src/stm/transaction_mixinv.h decides.
use tlstm.Prelude.{
  ℕ, zero, suc, ◌+◌, ◌*◌, ◌%◌, ◌^◌, ◌≤◌, ◌<◌, ◌≡◌, refl, ◌≢◌, ◌⊎◌, inl, inr, Bool, true, false,
  some, arith, ap, sym, ◌∙◌, ==_refl, ◌==◌, if◌then◌else◌, ltb, ltb→lt, ◌||◌, Bool-cases,
}
use tlstm.Common.Constants.{minimum_ts, word_mod}
use tlstm.Common.Timestamp.{get_next_ts}
use tlstm.Tx.State.{
  EntryRef, cm_phase_initial, cm_phase_greedy, ProgramThread, State, set_my_thread, my_thread,
  entry_at,
}
use tlstm.Tx.Contention.{
  cm_stronger_than, should_abort_write, cm_start_tx, cm_on_access, cm_access_threshold,
}

-- The comparison of two program threads, by what it reads.
stronger : (mine theirs : ℕ) → Bool
stronger mine theirs =
    let other_ts = theirs % 2 ^ 32 in
    if mine == minimum_ts then false else other_ts == minimum_ts || ltb mine other_ts

stronger_asym : (a b : ℕ) → a < 2 ^ 32 → b < 2 ^ 32 → stronger a b ≡ true → stronger b a ≡ false
unfolding stronger
stronger_asym a b ha hb h = ground arith

-- Who gives way, from the progress and the timestamps of both.
gives_way : (mine theirs my_ts their_ts : ℕ) → Bool
gives_way mine theirs my_ts their_ts =
    if ltb mine theirs
    then true
    else if ltb theirs mine
    then false
    else if stronger my_ts their_ts
    then false
    else true

gives_way_asym :
    (a b ta tb : ℕ)
    → ta < 2 ^ 32
    → tb < 2 ^ 32
    → gives_way a b ta tb ≡ false
    → gives_way b a tb ta ≡ true
unfolding gives_way
gives_way_asym a b ta tb ha hb h = ground (arith, stronger_asym ta tb)

should_abort_write_lem :
    (tid lock : ℕ) (s : State) {r : EntryRef}
    → (s.transactions tid).abort_transaction ≡ false
    → s.write_locks lock ≡ some r
    → (should_abort_write tid lock s).0
      ≡ gives_way
          (my_thread tid s).progress
          (s.prog_thread (entry_at r s).ptid).progress
          (my_thread tid s).greedy_ts
          (s.prog_thread (entry_at r s).ptid).greedy_ts
unfolding should_abort_write cm_stronger_than gives_way stronger
should_abort_write_lem tid lock s going held = rw (going, held) (ground arith)

-- Two transactions that contend, none of them told to abort, do not both win: when `tid` meets a
-- write lock of a task of `other` and does not give way, then `other`, meeting a write lock of a
-- task of `tid`'s program thread in the same state, does, as long as the timestamps of both program
-- threads fit 32 bits.
pub should_abort_write_asym :
    (tid other lock lock' : ℕ) (s : State) (r r' : EntryRef)
    → (s.transactions tid).abort_transaction ≡ false
    → (s.transactions other).abort_transaction ≡ false
    → s.write_locks lock ≡ some r
    → s.write_locks lock' ≡ some r'
    → (entry_at r s).ptid ≡ (s.transactions other).prog_thread_id
    → (entry_at r' s).ptid ≡ (s.transactions tid).prog_thread_id
    → (my_thread tid s).greedy_ts < 2 ^ 32
    → (my_thread other s).greedy_ts < 2 ^ 32
    → (should_abort_write tid lock s).0 ≡ false
    → (should_abort_write other lock' s).0 ≡ true
should_abort_write_asym tid other lock lock' s r r' going going' held held' theirs mine small small'
      wins =
    let p = my_thread tid s in
    let q = my_thread other s in
    let his = ap s.prog_thread theirs in
    let ours = ap s.prog_thread mine in
    should_abort_write_lem other lock' s going' held'
    ∙ ap (λ (t : ProgramThread). gives_way q.progress t.progress q.greedy_ts t.greedy_ts) ours
    ∙ gives_way_asym p.progress q.progress p.greedy_ts q.greedy_ts small small' (
        ap (λ (t : ProgramThread). gives_way p.progress t.progress p.greedy_ts t.greedy_ts)
          (sym his)
        ∙ sym (should_abort_write_lem tid lock s going held)
        ∙ wins)

-- The 32-bit copy of the other's timestamp: a program thread whose timestamp is a multiple of 2^32
-- counts as having none, and yields to every greedy one, older or not.
pub cm_stronger_than_cut :
    (tid ptid k : ℕ) (s : State)
    → (my_thread tid s).greedy_ts ≢ 0
    → (s.prog_thread ptid).greedy_ts ≡ k * 2 ^ 32
    → cm_stronger_than tid ptid s ≡ true
unfolding cm_stronger_than
cm_stronger_than_cut tid ptid k s greedy older =
    let cut : (s.prog_thread ptid).greedy_ts % 2 ^ 32 ≡ 0 = omega arith in rw cut (ground arith)

-- `n` accesses of a transaction.
unfoldable pub accesses : (tid n : ℕ) → State → State
accesses tid zero s = s
accesses tid (suc n) s = cm_on_access tid (accesses tid n s)

-- The phase of a transaction after `n` accesses that began when the counter was at `ts`.
abbrev pub Phase : (n ts : ℕ) → ProgramThread → (cm_ts : ℕ) → Type 0
Phase n ts p cm_ts =
    (n ≤ cm_access_threshold)
      × (p.cm_phase ≡ cm_phase_initial)
      × (p.greedy_ts ≡ minimum_ts)
      × (p.locations_accessed ≡ n)
      × (cm_ts ≡ ts)
    ⊎ (cm_access_threshold < n)
      × (p.cm_phase ≡ cm_phase_greedy)
      × (p.greedy_ts ≡ (ts + 1) % word_mod)
      × (cm_ts ≡ (ts + 1) % word_mod)

-- The three outcomes of one access.
accessed : ℕ → State → ℕ
accessed tid s = ((my_thread tid s).locations_accessed + 1) % 2 ^ 32

counted : ℕ → State → State
counted tid s = set_my_thread tid (λ p. record p { locations_accessed = accessed tid s }) s

greedy_from : ℕ → State → State
greedy_from tid s =
    record (set_my_thread tid
      (λ p. record p {
        locations_accessed = accessed tid s;
        cm_phase = cm_phase_greedy;
        greedy_ts = (s.cm_ts + 1) % word_mod;
      })
      s) { cm_ts = (s.cm_ts + 1) % word_mod }

module _ (tid : ℕ) (s : State) where
  access_greedy : (my_thread tid s).cm_phase ≡ cm_phase_greedy → cm_on_access tid s ≡ s
  unfolding cm_on_access
  access_greedy phase = rw phase refl

  access_early :
      (my_thread tid s).cm_phase ≡ cm_phase_initial
      → ltb cm_access_threshold (accessed tid s) ≡ false
      → cm_on_access tid s ≡ counted tid s
  unfolding cm_on_access counted accessed
  access_early phase few = rw (phase, few) refl

  access_late :
      (my_thread tid s).cm_phase ≡ cm_phase_initial
      → ltb cm_access_threshold (accessed tid s) ≡ true
      → my_thread tid (cm_on_access tid s) ≡ my_thread tid (greedy_from tid s)
  unfolding cm_on_access counted accessed get_next_ts greedy_from
  access_late phase many = rw (phase, many) (simp ==_refl refl)

  access_late-cm_ts :
      (my_thread tid s).cm_phase ≡ cm_phase_initial
      → ltb cm_access_threshold (accessed tid s) ≡ true
      → (cm_on_access tid s).cm_ts ≡ (s.cm_ts + 1) % word_mod
  unfolding cm_on_access accessed get_next_ts
  access_late-cm_ts phase many = rw (phase, many) refl

ltb-false : (a b : ℕ) → b ≤ a → ltb a b ≡ false
ltb-false a b h = ground arith

cm_on_access_step :
    (tid n ts : ℕ) (s : State)
    → Phase n ts (my_thread tid s) s.cm_ts
    → Phase (suc n) ts (my_thread tid (cm_on_access tid s)) (cm_on_access tid s).cm_ts
cm_on_access_step tid n ts s (inr (many, phase, greedy, clock)) =
    rw (access_greedy tid s phase) (inr (omega arith, phase, greedy, clock))
cm_on_access_step tid n ts s (inl (few, phase, greedy, count, clock)) =
    let e : accessed tid s ≡ suc n = unfold accessed in omega arith in
    elim (Bool-cases (ltb cm_access_threshold (suc n))) [
      | inl many ↦
          let late = access_late tid s phase (ap (ltb cm_access_threshold) e ∙ many) in
          inr (
            ltb→lt _ _ many,
            ap (λ (p : ProgramThread). p.cm_phase) late ∙ (unfold greedy_from in simp ==_refl refl),
            ap (λ (p : ProgramThread). p.greedy_ts) late
                ∙ (unfold greedy_from in simp ==_refl (ap (λ (c : ℕ). (c + 1) % word_mod) clock)),
            access_late-cm_ts tid s phase (ap (ltb cm_access_threshold) e ∙ many)
                ∙ ap (λ (c : ℕ). (c + 1) % word_mod) clock,
          )
      | inr early ↦
          rw (access_early tid s phase (ap (ltb cm_access_threshold) e ∙ early))
            (unfold counted in simp ==_refl (inl (ground arith, phase, greedy, e, clock)))
    ]

cm_start_tx-Phase :
    (tid : ℕ) (s : State)
    → Phase 0 s.cm_ts (my_thread tid (cm_start_tx tid s)) (cm_start_tx tid s).cm_ts
unfolding cm_start_tx
cm_start_tx-Phase tid s =
    inl (omega arith, simp ==_refl refl, simp ==_refl refl, simp ==_refl refl, refl)

-- A transaction's first ten accesses leave it in the initial phase, with no timestamp; the eleventh
-- makes it greedy with the next contention timestamp, taken once; later ones change nothing.
pub cm_on_access_lem :
    (tid n : ℕ) (s : State)
    → let s' = accesses tid n (cm_start_tx tid s) in Phase n s.cm_ts (my_thread tid s') s'.cm_ts
unfolding accesses
cm_on_access_lem tid zero s = cm_start_tx-Phase tid s
cm_on_access_lem tid (suc n) s = cm_on_access_step tid n s.cm_ts _ (cm_on_access_lem tid n s)
