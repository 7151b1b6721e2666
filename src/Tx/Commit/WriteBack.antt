-- ===== src/Tx/Commit/WriteBack.antt =====
-- What the write-back of src/stm/transaction_mixinv.h does to the memory and to the locks, and what the
-- locking of the versions before it and their release do.
use tlstm.Prelude.{
  ℕ, ◌+◌, ◌-◌, ◌≡◌, refl, ◌⊎◌, inl, inr, true, none, some, List, [], ◌∷◌, ◌++◌, arith, sym, ap,
  subst, ◌∙◌, Bool-cases, ==_iff, ==_refl, ◌==◌,
}
use tlstm.Common.VersionLock.{get_version_lock}
use tlstm.Tx.WordLog.{WriteWordLogEntry, Memory, write_back}
use tlstm.Tx.State.{EntryRef, WriteLogEntry, State, my_thread, entry_at}
use tlstm.Tx.Commit.{write_commit, is_ref, commit_write}
use tlstm.Tx.Commit.Loop.{
  Has, run_all, tx_refs, SameTasks, same, same_trans, each_task_lem, commit_write-IsQuiet,
}

-- The words of the entries, in order.
abbrev pub words : List EntryRef → State → List WriteWordLogEntry
words [] s = []
words (r ∷ rest) s = (entry_at r s).head ++ words rest s

pub words_same :
    (refs : List EntryRef) {s s' : State} → SameTasks s s' → words refs s' ≡ words refs s
words_same [] h = refl
words_same (r ∷ rest) h =
    λ k. ((h.tasks k r.owner).write_log.entries r.slot).head ++ words_same rest h k

write_back-append :
    (xs ys : List WriteWordLogEntry) (memory : Memory)
    → write_back (xs ++ ys) memory ≡ write_back ys (write_back xs memory)
unfolding write_back
write_back-append [] ys memory = refl
write_back-append (x ∷ xs) ys memory = write_back-append xs ys _

commit_write-memory :
    (version : ℕ) (r : EntryRef) (s : State)
    → (commit_write version r s).memory ≡ write_back (entry_at r s).head s.memory
unfolding commit_write
commit_write-memory version r s =
    elim (Bool-cases (is_ref r (s.write_locks (entry_at r s).write_lock))) [
      | inl e ↦ rw e refl
      | inr e ↦ rw e refl
    ]

pub run_all-memory :
    (version : ℕ) (refs : List EntryRef) (s : State)
    → (run_all (commit_write version) refs s).memory ≡ write_back (words refs s) s.memory
unfolding run_all
run_all-memory version [] s = unfold write_back in refl
run_all-memory version (r ∷ rest) s =
    let s1 = commit_write version r s in
    run_all-memory version rest s1
    ∙ ap (λ (log : List WriteWordLogEntry). write_back log s1.memory)
        (words_same rest (commit_write-IsQuiet version r s))
    ∙ ap (write_back (words rest s)) (commit_write-memory version r s)
    ∙ sym (write_back-append (entry_at r s).head (words rest s) s.memory)

-- What a pass keeps, and what it brings about at one entry and then keeps.
run_all-keeps :
    (f : EntryRef → State → State) (P : State → Type 0) (refs : List EntryRef)
    → ((r : EntryRef) (s : State) → Has r refs → P s → P (f r s))
    → (s : State) → P s
    → P (run_all f refs s)
unfolding run_all
run_all-keeps f P [] keep s p = p
run_all-keeps f P (r ∷ rest) keep s p =
    run_all-keeps f P rest (λ q t h. keep q t (inr h)) (f r s) (keep r s (inl refl) p)

run_all-reaches :
    (f : EntryRef → State → State) (P Q : State → Type 0) (refs : List EntryRef)
    → ((r : EntryRef) (s : State) → Has r refs → P s → P (f r s))
    → ((r : EntryRef) (s : State) → Has r refs → Q s → Q (f r s))
    → (r : EntryRef) → Has r refs
    → ((s : State) → P s → Q (f r s))
    → (s : State) → P s
    → Q (run_all f refs s)
unfolding run_all
run_all-reaches f P Q [] keep hold r h hit s p = absurd h
run_all-reaches f P Q (q ∷ rest) keep hold r (inl e) hit s p =
    run_all-keeps f Q rest (λ a t h. hold a t (inr h)) (f q s)
      (subst (λ (x : EntryRef). Q (f x s)) (sym e) (hit s p))
run_all-reaches f P Q (q ∷ rest) keep hold r (inr h) hit s p =
    run_all-reaches f P Q rest (λ a t k. keep a t (inr k)) (λ a t k. hold a t (inr k)) r h hit
      (f q s) (keep q s (inl refl) p)

is_ref_self : (r : EntryRef) → is_ref r (some r) ≡ true
is_ref_self r = simp ==_refl refl

is_ref-true : (q r : EntryRef) → is_ref q (some r) ≡ true → q ≡ r
is_ref-true q r h =
    let owners : q.owner ≡ r.owner = ground arith in
    let slots : q.slot ≡ r.slot = ground arith in λ k. record { owner = owners k; slot = slots k }

-- The write lock is free and the read lock has the new version.
abbrev Released : (version lock read_lock : ℕ) → State → Type 0
Released version lock read_lock s = (s.write_locks lock ≡ none) × (s.read_locks read_lock ≡ version)

commit_write-keeps_Released :
    (version lock read_lock : ℕ) (q : EntryRef) (s : State)
    → Released version lock read_lock s
    → Released version lock read_lock (commit_write version q s)
unfolding commit_write
commit_write-keeps_Released version lock read_lock q s (free, set) =
    elim (Bool-cases (is_ref q (s.write_locks (entry_at q s).write_lock))) [
      | inr e ↦ rw e (free, set)
      | inl e ↦ rw e (
        elim (Bool-cases (lock == (entry_at q s).write_lock)) [
          | inl here ↦ rw here refl
          | inr away ↦ rw away free
        ],
        elim (Bool-cases (read_lock == (entry_at q s).read_lock)) [
          | inl here ↦ rw here refl
          | inr away ↦ rw away set
        ],
      )
    ]

commit_write-releases :
    (version : ℕ) (r : EntryRef) (s : State)
    → s.write_locks (entry_at r s).write_lock ≡ some r
    → Released version (entry_at r s).write_lock (entry_at r s).read_lock (commit_write version r s)
unfolding commit_write
commit_write-releases version r s held =
    let e : is_ref r (s.write_locks (entry_at r s).write_lock) ≡ true =
      ap (is_ref r) held ∙ is_ref_self r in
    rw e (simp ==_refl refl, simp ==_refl refl)

-- The entry `r` has its lock, or has been released.
abbrev Pending : (version : ℕ) (r : EntryRef) (s s' : State) → Type 0
Pending version r s s' =
    SameTasks s s'
    × ((s'.write_locks (entry_at r s).write_lock ≡ some r)
        ⊎ Released version (entry_at r s).write_lock (entry_at r s).read_lock s')

entry_same : (r : EntryRef) {s s' : State} → SameTasks s s' → entry_at r s' ≡ entry_at r s
entry_same r h = λ k. (h.tasks k r.owner).write_log.entries r.slot

-- The step of another entry, or of this one, on a lock that `r` has.
commit_write-pending :
    (version : ℕ) (r q : EntryRef) (lock read_lock : ℕ) (s : State)
    → s.write_locks lock ≡ some r
    → (q ≡ r → (lock ≡ (entry_at r s).write_lock) × (read_lock ≡ (entry_at r s).read_lock))
    → ((commit_write version q s).write_locks lock ≡ some r)
      ⊎ Released version lock read_lock (commit_write version q s)
commit_write-pending version r q lock read_lock s held fits =
    elim (Bool-cases (is_ref q (s.write_locks (entry_at q s).write_lock))) [
      | inr e ↦ inl (unfold commit_write in rw e held)
      | inl e ↦ elim (Bool-cases (lock == (entry_at q s).write_lock)) [
        | inr away ↦ inl (unfold commit_write in rw (e, away) held)
        | inl here ↦
            let at : lock ≡ (entry_at q s).write_lock = (==_iff lock _).0 here in
            let same : q ≡ r =
              is_ref-true q r (ap (is_ref q) (sym held ∙ ap s.write_locks at) ∙ e) in
            let (w, x) = fits same in
            inr (
              subst (λ (p : EntryRef). Released version lock read_lock (commit_write version p s))
                (sym same)
                (subst (λ (l : ℕ). Released version l read_lock (commit_write version r s)) (sym w)
                  (subst
                    (λ (l : ℕ).
                      Released version (entry_at r s).write_lock l (commit_write version r s))
                    (sym x) (commit_write-releases version r s (sym (ap s.write_locks w) ∙ held)))))
      ]
    ]

module _ (version : ℕ) (r : EntryRef) (s : State) where
  Pending-step :
      (q : EntryRef) (s' : State)
      → Pending version r s s'
      → Pending version r s (commit_write version q s')
  Pending-step q s' (tasks, state) =
      let entry = entry_same r tasks in
      (
        same_trans tasks (commit_write-IsQuiet version q s'),
        elim state [
          | inr released ↦ inr (commit_write-keeps_Released version _ _ q s' released)
          | inl held ↦
              commit_write-pending version r q (entry_at r s).write_lock (entry_at r s).read_lock s'
                held (λ _. (λ k. (sym entry k).write_lock, λ k. (sym entry k).read_lock))
        ],
      )

  release_step :
      (s' : State)
      → Pending version r s s'
      → Released version
          (entry_at r s).write_lock
          (entry_at r s).read_lock
          (commit_write version r s')
  release_step s' (tasks, inr released) = commit_write-keeps_Released version _ _ r s' released
  release_step s' (tasks, inl held) =
      subst
        (λ (e : WriteLogEntry).
          Released version e.write_lock e.read_lock (commit_write version r s'))
        (entry_same r tasks)
        (commit_write-releases version r s'
          (ap (λ (e : WriteLogEntry). s'.write_locks e.write_lock) (entry_same r tasks) ∙ held))

  -- One pass releases every lock that its entry has.
  pub run_all-releases :
      (refs : List EntryRef)
      → Has r refs
      → s.write_locks (entry_at r s).write_lock ≡ some r
      → Released version
          (entry_at r s).write_lock
          (entry_at r s).read_lock
          (run_all (commit_write version) refs s)
  run_all-releases refs has held =
      run_all-reaches (commit_write version) (Pending version r s)
        (λ t. Released version (entry_at r s).write_lock (entry_at r s).read_lock t) refs
        (λ q t _ p. Pending-step q t p) (λ q t _ k. commit_write-keeps_Released version _ _ q t k) r
        has (λ t p. release_step t p) s (same s, inl held)

-- The write-back of a transaction that commits at `ts`: the memory is changed by the words of all
-- its write log entries, in the order of the tasks and of their logs; each entry that has its write
-- lock leaves it free, with the version of `ts` in the read lock; and the task is the last writer.
pub write_commit_lem :
    (tid ts : ℕ) (s : State)
    → let refs = tx_refs tid s in
      let s' = write_commit tid ts s in
      (s'.memory ≡ write_back (words refs s) s.memory)
      × ((r : EntryRef)
          → Has r refs
          → s.write_locks (entry_at r s).write_lock ≡ some r
          → (s'.write_locks (entry_at r s).write_lock ≡ none)
            × (s'.read_locks (entry_at r s).read_lock ≡ get_version_lock ts))
      × ((my_thread tid s').last_completed_writer ≡ (s.transactions tid).serial)
unfolding write_commit
write_commit_lem tid ts s =
    let t = s.transactions tid in
    let refs = tx_refs tid s in
    let version = get_version_lock ts in
    let pass =
      each_task_lem (commit_write version) (commit_write-IsQuiet version) t.prog_thread_id
        t.start_serial (t.serial + 1 - t.start_serial) s in
    (
      ap (λ (u : State). u.memory) pass ∙ run_all-memory version refs s,
      λ r has held.
          subst
            (λ (u : State). Released version (entry_at r s).write_lock (entry_at r s).read_lock u)
            (sym pass) (run_all-releases version r s refs has held),
      simp ==_refl refl,
    )
