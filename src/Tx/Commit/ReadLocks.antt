-- ===== src/Tx/Commit/ReadLocks.antt =====
-- Locking the versions of all entries of a transaction of src/stm/transaction_mixinv.h, and releasing
-- them again.
use tlstm.Prelude.{
  ℕ, ◌+◌, ◌-◌, ◌≡◌, refl, ◌≢◌, ◌⊎◌, inl, inr, List, [], ◌∷◌, arith, sym, ap, ◌∙◌, Bool-cases,
  ==_iff, ◌==◌, update, fun_ext,
}
use tlstm.Common.Constants.{read_lock_set}
use tlstm.Tx.State.{EntryRef, State, entry_at}
use tlstm.Tx.Commit.{each_write, lock_reads, unlock_reads, release_read_locks}
use tlstm.Tx.Commit.Loop.{
  Has, task_refs_same, run_all, tx_refs, each_task_lem, lock_reads-IsQuiet, unlock_reads-IsQuiet,
}

-- The stores of `h r` at `g r`, for each entry `r`.
unfoldable pub set_all : (g h : EntryRef → ℕ) → List EntryRef → (ℕ → ℕ) → ℕ → ℕ
set_all g h [] locks = locks
set_all g h (r ∷ rest) locks = set_all g h rest (update locks (g r) (h r))

module _ (g h : EntryRef → ℕ) (x : ℕ) where
  set_all-miss :
      (refs : List EntryRef) (locks : ℕ → ℕ)
      → ((r : EntryRef) → Has r refs → g r ≢ x)
      → set_all g h refs locks x ≡ locks x
  unfolding set_all
  set_all-miss [] locks away = refl
  set_all-miss (r ∷ rest) locks away =
      set_all-miss rest _ (λ q k. away q (inr k)) ∙ ground (arith, away r (inl refl))

  set_all-settled :
      (v : ℕ) (refs : List EntryRef) (locks : ℕ → ℕ)
      → ((r : EntryRef) → Has r refs → g r ≡ x → h r ≡ v)
      → locks x ≡ v
      → set_all g h refs locks x ≡ v
  unfolding set_all
  set_all-settled v [] locks fits e = e
  set_all-settled v (r ∷ rest) locks fits e =
      set_all-settled v rest _ (λ q k. fits q (inr k))
        (elim (Bool-cases (x == g r)) [
          | inl hit ↦ rw hit (fits r (inl refl) (sym ((==_iff x (g r)).0 hit)))
          | inr miss ↦ rw miss e
        ])

  set_all-hit :
      (v : ℕ) (refs : List EntryRef) (locks : ℕ → ℕ)
      → ((r : EntryRef) → Has r refs → g r ≡ x → h r ≡ v)
      → (r : EntryRef) → Has r refs
      → g r ≡ x
      → set_all g h refs locks x ≡ v
  unfolding set_all
  set_all-hit v [] locks fits r k e = absurd k
  set_all-hit v (q ∷ rest) locks fits r (inr k) e =
      set_all-hit v rest _ (λ a b. fits a (inr b)) r k e
  set_all-hit v (q ∷ rest) locks fits r (inl k) e =
      let here : g q ≡ x = ap g k ∙ e in
      set_all-settled v rest _ (λ a b. fits a (inr b))
        (rw ((==_iff x (g q)).1 (sym here)) (fits q (inl refl) here))

  search_hit :
      (refs : List EntryRef)
      → ((r : EntryRef) → Has r refs → g r ≢ x) ⊎ ((r : EntryRef) × Has r refs × (g r ≡ x))
  search_hit [] = inl (λ r k. absurd k)
  search_hit (q ∷ rest) = elim (Bool-cases (g q == x)) [
    | inl e ↦ inr (q, inl refl, (==_iff (g q) x).0 e)
    | inr e ↦ elim (search_hit rest) [
      | inl none_of ↦
          inl λ r k e'. elim k [
            | inl same ↦ ground (arith, ap g same)
            | inr later ↦ none_of r later e'
          ]
      | inr (r, k, e') ↦ inr (r, inr k, e')
    ]
  ]

-- The second pass undoes the first.
set_all-set_all :
    (g h old : EntryRef → ℕ) (refs : List EntryRef) (locks : ℕ → ℕ)
    → ((r : EntryRef) → Has r refs → locks (g r) ≡ old r)
    → set_all g old refs (set_all g h refs locks) ≡ locks
set_all-set_all g h old refs locks held = fun_ext λ x.
    let fits : (r : EntryRef) → Has r refs → g r ≡ x → old r ≡ locks x =
      λ r k e. sym (held r k) ∙ ap locks e in
    elim (search_hit g h x refs) [
      | inl none_of ↦ set_all-miss g old x refs _ none_of ∙ set_all-miss g h x refs locks none_of
      | inr (r, k, e) ↦ set_all-hit g old x (locks x) refs _ fits r k e
    ]

abbrev reads : State → EntryRef → ℕ
reads s r = (entry_at r s).read_lock

run_all-lock_reads :
    (refs : List EntryRef) (s : State)
    → run_all lock_reads refs s
      ≡ record s { read_locks = set_all (reads s) (λ _. read_lock_set) refs s.read_locks }
unfolding run_all set_all
run_all-lock_reads [] s = refl
run_all-lock_reads (r ∷ rest) s = run_all-lock_reads rest (lock_reads r s)

run_all-unlock_reads :
    (refs : List EntryRef) (s : State)
    → run_all unlock_reads refs s ≡ record s {
      read_locks = set_all (reads s) (λ r. (entry_at r s).old_version) refs s.read_locks;
    }
unfolding run_all set_all
run_all-unlock_reads [] s = refl
run_all-unlock_reads (r ∷ rest) s = run_all-unlock_reads rest (unlock_reads r s)

-- The versions once the commit has locked its own.
unfoldable pub locked_by : ℕ → State → ℕ → ℕ
unfolding set_all
locked_by tid s = set_all (reads s) (λ _. read_lock_set) (tx_refs tid s) s.read_locks

pub lock_reads_lem :
    (tid : ℕ) (s : State) → each_write lock_reads tid s ≡ record s { read_locks = locked_by tid s }
unfolding locked_by
lock_reads_lem tid s =
    let t = s.transactions tid in
    each_task_lem lock_reads lock_reads-IsQuiet t.prog_thread_id t.start_serial
      (t.serial + 1 - t.start_serial) s
    ∙ run_all-lock_reads (tx_refs tid s) s

-- The clock has no part in it.
pub locked_by-commit_ts :
    (tid ts : ℕ) (s : State) → locked_by tid (record s { commit_ts = ts }) ≡ locked_by tid s
unfolding locked_by
locked_by-commit_ts tid ts s =
    let t = s.transactions tid in
    ap (λ (refs : List EntryRef). set_all (reads s) (λ _. read_lock_set) refs s.read_locks)
      (task_refs_same t.prog_thread_id t.start_serial (t.serial + 1 - t.start_serial) {s = s}
        {s' = record s { commit_ts = ts }} (record { tasks = refl; threads = refl; depth = refl }))

-- If each write log entry of the transaction remembers in `old_version` the version of its stripe,
-- then releasing the read locks that the commit has set gives back the state before they were set.
pub release_read_locks-lock_reads :
    (tid : ℕ) (s : State)
    → ((r : EntryRef)
        → Has r (tx_refs tid s)
        → s.read_locks (entry_at r s).read_lock ≡ (entry_at r s).old_version)
    → release_read_locks tid (each_write lock_reads tid s) ≡ s
unfolding release_read_locks
release_read_locks-lock_reads tid s held =
    let t = s.transactions tid in
    let refs = tx_refs tid s in
    let n = t.serial + 1 - t.start_serial in
    let s1 : State = record s { read_locks = locked_by tid s } in
    ap (λ (u : State). each_write unlock_reads tid u) (lock_reads_lem tid s)
    ∙ each_task_lem unlock_reads unlock_reads-IsQuiet t.prog_thread_id t.start_serial n s1
    ∙ ap (λ (rs : List EntryRef). run_all unlock_reads rs s1)
        (task_refs_same t.prog_thread_id t.start_serial n {s = s} {s' = s1}
          (record { tasks = refl; threads = refl; depth = refl }))
    ∙ run_all-unlock_reads refs s1
    ∙ ap (λ (locks : ℕ → ℕ). record s { read_locks = locks })
        (unfold locked_by in
          set_all-set_all (reads s) (λ _. read_lock_set) (λ r. (entry_at r s).old_version) refs
            s.read_locks held)
