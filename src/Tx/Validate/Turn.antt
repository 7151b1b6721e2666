-- ===== src/Tx/Validate/Turn.antt =====
-- What one turn of the validation thread of src/stm/transaction_mixinv.h does.
use tlstm.Prelude.{
  ℕ, zero, suc, ◌+◌, ◌%◌, ◌^◌, ◌≤◌, ◌<◌, ◌≡◌, refl, ◌⊎◌, inl, inr, Bool, true, false, ◌&&◌, List,
  [], ◌∷◌, arith, sym, ap, ◌∙◌, ◌==◌, ==_refl, ==_iff, if◌then◌else◌, if_true, Bool-cases, subst,
}
use tlstm.Tx.State.{
  ReadLogEntry, ProgramThread, State, set_thread, increment_statistics, extend_success,
  extend_failure,
}
use tlstm.Tx.Validate.{
  validate_log, validate_owners, validate_tx, extend_tx, abort_owners, validation_turn,
}

validate_log_same :
    (log : List ReadLogEntry) (threads : ℕ → ProgramThread) (s : State)
    → validate_log log (record s { prog_thread = threads }) ≡ validate_log log s
unfolding validate_log
validate_log_same [] threads s = refl
validate_log_same (e ∷ rest) threads s =
    ap (λ (b : Bool). s.read_locks e.read_lock == e.version && b) (validate_log_same rest threads s)

-- A change of the program thread that keeps its descriptors does not change the validation.
validate_owners_same :
    (ptid i n : ℕ) (f : ProgramThread → ProgramThread) (s : State)
    → ((p : ProgramThread) → (f p).owners ≡ p.owners)
    → validate_owners ptid i n (set_thread ptid f s) ≡ validate_owners ptid i n s
unfolding validate_owners
validate_owners_same ptid i zero f s h = refl
validate_owners_same ptid i (suc n) f s h =
    let s' = set_thread ptid f s in
    let owners : (s'.prog_thread ptid).owners ≡ (s.prog_thread ptid).owners =
      simp ==_refl (h (s.prog_thread ptid)) in
    λ k.
      ((λ m. validate_log (s.transactions (owners m i)).read_log s')
          ∙ validate_log_same (s.transactions ((s.prog_thread ptid).owners i)).read_log
              s'.prog_thread s)
        k
      && validate_owners_same ptid (i + 1) n f s h k

abort_owners_keep :
    (ptid i n tid : ℕ) (s : State)
    → (s.transactions tid).abort_transaction ≡ true
    → ((abort_owners ptid i n s).transactions tid).abort_transaction ≡ true
unfolding abort_owners
abort_owners_keep ptid i zero tid s h = h
abort_owners_keep ptid i (suc n) tid s h =
    abort_owners_keep ptid (i + 1) n tid _
      (elim (Bool-cases (tid == (s.prog_thread ptid).owners i)) [
        | inl here ↦ rw here refl
        | inr away ↦ rw away h
      ])

abort_owners_lem :
    (ptid i n j : ℕ) (s : State)
    → i ≤ j
    → j < i + n
    → ((abort_owners ptid i n s).transactions ((s.prog_thread ptid).owners j)).abort_transaction
      ≡ true
unfolding abort_owners
abort_owners_lem ptid i zero j s lo hi = absurd (omega arith)
abort_owners_lem ptid i (suc n) j s lo hi = elim (Bool-cases (i == j)) [
  | inl e ↦ abort_owners_keep ptid (i + 1) n _ _ (rw (← (==_iff i j).0 e) (simp ==_refl refl))
  | inr e ↦ abort_owners_lem ptid (i + 1) n j _ (ground arith) (omega arith)
]

abort_owners-threads :
    (ptid i n : ℕ) (s : State) → (abort_owners ptid i n s).prog_thread ≡ s.prog_thread
unfolding abort_owners
abort_owners-threads ptid i zero s = refl
abort_owners-threads ptid i (suc n) s = abort_owners-threads ptid (i + 1) n _

-- What a turn leaves: the timestamp is extended if the reads are current, and otherwise every task
-- of the program thread is told to abort.
abbrev pub TurnDone : (ptid : ℕ) (s s' : State) → Type 0
TurnDone ptid s s' =
    ((s'.prog_thread ptid).validated ≡ true)
    × ((s'.prog_thread ptid).requires_validation ≡ false)
    × ((validate_tx ptid s ≡ true) × ((s'.prog_thread ptid).valid_ts ≡ s.commit_ts % 2 ^ 32)
        ⊎ (validate_tx ptid s ≡ false)
          × ((j : ℕ)
              → j < s.specdepth
              → (s'.transactions ((s.prog_thread ptid).owners j)).abort_transaction ≡ true))

module _ (ptid : ℕ) (s : State) where
  abbrev cleared : State
  cleared = set_thread ptid (λ p. record p { validated = false; requires_validation = false }) s

  validate_cleared : validate_tx ptid cleared ≡ validate_tx ptid s
  unfolding validate_tx
  validate_cleared =
      validate_owners_same ptid 0 s.specdepth
        (λ p. record p { validated = false; requires_validation = false }) s (λ p. refl)

  extend_valid :
      validate_tx ptid cleared ≡ true
      → extend_tx ptid cleared ≡ (
        true,
        increment_statistics
            ((cleared.prog_thread ptid).owners 0)
            extend_success
            (set_thread ptid (λ p. record p { valid_ts = s.commit_ts % 2 ^ 32 }) cleared),
      )
  unfolding extend_tx
  extend_valid h = rw h refl

  extend_invalid :
      validate_tx ptid cleared ≡ false
      → extend_tx ptid cleared
        ≡ (false, increment_statistics ((cleared.prog_thread ptid).owners 0) extend_failure cleared)
  unfolding extend_tx
  extend_invalid h = rw h refl

  after_extension : Bool × State → State
  after_extension r =
      set_thread ptid (λ p. record p { validated = true })
        (if r.0 then r.1 else abort_owners ptid 0 s.specdepth r.1)

  turn_lem :
      (s.prog_thread ptid).requires_validation ≡ true
      → validation_turn ptid s ≡ after_extension (extend_tx ptid cleared)
  unfolding validation_turn after_extension
  turn_lem h = if_true _ _ h

  cleared_owners : (j : ℕ) → (cleared.prog_thread ptid).owners j ≡ (s.prog_thread ptid).owners j
  cleared_owners j = simp ==_refl refl

  cleared_requires : (cleared.prog_thread ptid).requires_validation ≡ false
  cleared_requires = simp ==_refl refl

  still_met :
      (t : State)
      → (t.prog_thread ptid).requires_validation ≡ false
      → ((set_thread ptid (λ p. record p { validated = true }) t).prog_thread
          ptid).requires_validation
        ≡ false
  still_met t h = simp ==_refl h

  turn_valid :
      validate_tx ptid cleared ≡ true
      → TurnDone ptid s (after_extension (true, (extend_tx ptid cleared).1))
  unfolding after_extension
  turn_valid e =
      rw (extend_valid e)
        (simp ==_refl refl, simp ==_refl refl, inl (sym validate_cleared ∙ e, simp ==_refl refl))

  turn_invalid :
      validate_tx ptid cleared ≡ false
      → TurnDone ptid s (after_extension (false, (extend_tx ptid cleared).1))
  unfolding after_extension
  turn_invalid e =
      let failed =
        increment_statistics ((cleared.prog_thread ptid).owners 0) extend_failure cleared in
      let threads = abort_owners-threads ptid 0 s.specdepth failed in
      rw (extend_invalid e) (
        simp ==_refl refl,
        still_met (abort_owners ptid 0 s.specdepth failed) (
            ap (λ (t : ℕ → ProgramThread). (t ptid).requires_validation) threads
            ∙ cleared_requires),
        inr (
          sym validate_cleared ∙ e,
          λ j lt.
              ap
                (λ (o : ℕ).
                  ((abort_owners ptid 0 s.specdepth failed).transactions o).abort_transaction)
                (sym (cleared_owners j))
              ∙ abort_owners_lem ptid 0 s.specdepth j failed (omega arith) (omega arith),
        ),
      )

-- When a validation is required, a turn of the validation thread marks the program thread validated
-- and the requirement as met. If the reads of all its tasks are current the timestamp becomes the
-- commit timestamp, cut to 32 bits; if not, every task of the program thread is told to abort.
pub validation_turn_lem :
    (ptid : ℕ) (s : State)
    → (s.prog_thread ptid).requires_validation ≡ true
    → TurnDone ptid s (validation_turn ptid s)
validation_turn_lem ptid s h =
    let c = cleared ptid s in
    let r = extend_tx ptid c in
    elim (Bool-cases (validate_tx ptid c)) [
      | inl e ↦
          subst (TurnDone ptid s)
            (sym (
              turn_lem ptid s h
              ∙ ap (λ (b : Bool). after_extension ptid s (b, r.1))
                  (ap (λ (q : Bool × State). q.0) (extend_valid ptid s e))))
            (turn_valid ptid s e)
      | inr e ↦
          subst (TurnDone ptid s)
            (sym (
              turn_lem ptid s h
              ∙ ap (λ (b : Bool). after_extension ptid s (b, r.1))
                  (ap (λ (q : Bool × State). q.0) (extend_invalid ptid s e))))
            (turn_invalid ptid s e)
    ]
