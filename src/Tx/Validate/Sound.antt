-- ===== src/Tx/Validate/Sound.antt =====
-- What the validations of src/stm/transaction_mixinv.h find out about the read logs.
use tlstm.Prelude.{
  ℕ, zero, suc, ◌+◌, ◌-◌, ◌≤◌, ◌<◌, ◌≡◌, refl, ◌↔◌, ◌⊎◌, inl, inr, Bool, true, false, ◌&&◌, ◌||◌,
  Option, none, some, Option-cases, List, [], ◌∷◌, arith, subst, sym, ap, ◌==◌, Bool-cases, ==_iff,
  All,
}
use tlstm.Common.VersionLock.{is_read_locked}
use tlstm.Tx.Locks.{map_read_lock_to_write_lock}
use tlstm.Tx.State.{ReadLogEntry, EntryRef, State, owner_of, entry_at}
use tlstm.Tx.Validate.{
  validate_log, validate, validate_owners, validate_tx, commit_log, validate_commit_from,
  validate_commit, commit_entry,
}

-- The version that was read is still there.
abbrev pub Current : State → ReadLogEntry → Type 0
Current s entry = s.read_locks entry.read_lock ≡ entry.version

and_split : (a b : Bool) → (a && b) ≡ true → (a ≡ true) × (b ≡ true)
and_split true true h = (refl, refl)
and_split true false h = absurd (cc)
and_split false b h = absurd (cc)

and_join : (a b : Bool) → a ≡ true → b ≡ true → (a && b) ≡ true
and_join a b h k = rw (h, k) refl

validate_log_iff :
    (log : List ReadLogEntry) (s : State) → (validate_log log s ≡ true) ↔ All (Current s) log
unfolding validate_log
validate_log_iff [] s = (λ h. tt, λ h. refl)
validate_log_iff (e ∷ rest) s =
    let (to, from) = validate_log_iff rest s in
    let (is, of) = ==_iff (s.read_locks e.read_lock) e.version in
    (λ h. let (a, b) = and_split _ _ h in (is a, to b), λ (a, b). and_join _ _ (of a) (from b))

pub validate_iff :
    (tid : ℕ) (s : State) → (validate tid s ≡ true) ↔ All (Current s) (s.transactions tid).read_log
unfolding validate
validate_iff tid s = validate_log_iff _ s

-- The read log of place `i` of `owners`.
abbrev pub read_log_at : (ptid i : ℕ) → State → List ReadLogEntry
read_log_at ptid i s = (s.transactions ((s.prog_thread ptid).owners i)).read_log

validate_owners_sound :
    (ptid i n : ℕ) (s : State)
    → validate_owners ptid i n s ≡ true
    → (j : ℕ) → i ≤ j
    → j < i + n
    → All (Current s) (read_log_at ptid j s)
unfolding validate_owners
validate_owners_sound ptid i zero s h j lo hi = absurd (omega arith)
validate_owners_sound ptid i (suc n) s h j lo hi =
    let (here, rest) = and_split _ _ h in
    elim (Bool-cases (i == j)) [
      | inl e ↦ rw (← (==_iff i j).0 e) ((validate_log_iff _ s).0 here)
      | inr e ↦ validate_owners_sound ptid (i + 1) n s rest j (ground arith) (omega arith)
    ]

validate_owners_complete :
    (ptid i n : ℕ) (s : State)
    → ((j : ℕ) → i ≤ j → j < i + n → All (Current s) (read_log_at ptid j s))
    → validate_owners ptid i n s ≡ true
unfolding validate_owners
validate_owners_complete ptid i zero s h = refl
validate_owners_complete ptid i (suc n) s h =
    and_join _ _ ((validate_log_iff _ s).1 (h i (omega arith) (omega arith)))
      (validate_owners_complete ptid (i + 1) n s (λ j lo hi. h j (omega arith) (omega arith)))

-- `ValidateTx` answers true exactly when every version in the read log of every task of the
-- program thread is still the current one.
pub validate_tx_iff :
    (ptid : ℕ) (s : State)
    → (validate_tx ptid s ≡ true)
      ↔ ((i : ℕ) → i < s.specdepth → All (Current s) (read_log_at ptid i s))
unfolding validate_tx
validate_tx_iff ptid s = (
  λ h i lt. validate_owners_sound ptid 0 s.specdepth s h i (omega arith) (omega arith),
  λ h. validate_owners_complete ptid 0 s.specdepth s (λ j lo hi. h j (omega arith)),
)

-- What a commit of the program thread `ptid` asks of an entry of a read log: its version is the current
-- one, or the read lock is set and the write lock is nobody's or one of the program thread's own tasks'.
pub data Stands (ptid : ℕ) (s : State) (entry : ReadLogEntry) : Type 0 where
  current : s.read_locks entry.read_lock ≡ entry.version → Stands ptid s entry
  unowned :
      is_read_locked (s.read_locks entry.read_lock) ≡ true
      → s.write_locks (map_read_lock_to_write_lock entry.read_lock) ≡ none
      → Stands ptid s entry
  own :
      (r : EntryRef)
      → is_read_locked (s.read_locks entry.read_lock) ≡ true
      → s.write_locks (map_read_lock_to_write_lock entry.read_lock) ≡ some r
      → (entry_at r s).ptid ≡ ptid
      → Stands ptid s entry

or_split : (a b : Bool) → (a || b) ≡ true → (a ≡ true) ⊎ (b ≡ true)
or_split true b h = inl refl
or_split false b h = inr h

or_right : (a b : Bool) → b ≡ true → (a || b) ≡ true
or_right true b h = refl
or_right false b h = h

commit_entry-Stands :
    (ptid : ℕ) (entry : ReadLogEntry) (s : State)
    → commit_entry ptid entry s ≡ true
    → Stands ptid s entry
unfolding commit_entry
commit_entry-Stands ptid entry s h =
    let version = s.read_locks entry.read_lock in
    elim (or_split (version == entry.version) _ h) [
      | inl e ↦ current ((==_iff version entry.version).0 e)
      | inr k ↦
          let (set, mine) = and_split _ _ k in
          elim (Option-cases (s.write_locks (map_read_lock_to_write_lock entry.read_lock))) [
            | inl free ↦ unowned set free
            | inr (r, held) ↦ own r set held (
                (==_iff (entry_at r s).ptid ptid).0 (
                  subst
                    (λ (o : Option EntryRef).
                      (elim o [ none ↦ true | some r ↦ (entry_at r s).ptid == ptid ]) ≡ true)
                    held mine))
          ]
    ]

free_or_own : ℕ → ReadLogEntry → State → Bool
free_or_own ptid entry s = elim (s.write_locks (map_read_lock_to_write_lock entry.read_lock)) [
  | none ↦ true
  | some r ↦ (entry_at r s).ptid == ptid
]

Stands-commit_entry :
    (ptid : ℕ) (entry : ReadLogEntry) (s : State)
    → Stands ptid s entry
    → commit_entry ptid entry s ≡ true
unfolding commit_entry free_or_own
Stands-commit_entry ptid entry s (current e) =
    ap (λ b. b || (is_read_locked (s.read_locks entry.read_lock) && free_or_own ptid entry s))
      ((==_iff (s.read_locks entry.read_lock) entry.version).1 e)
Stands-commit_entry ptid entry s (unowned set free) =
    or_right (s.read_locks entry.read_lock == entry.version)
      (is_read_locked (s.read_locks entry.read_lock) && free_or_own ptid entry s)
      (and_join _ _ set (
        subst
          (λ (o : Option EntryRef).
            (elim o [ none ↦ true | some r ↦ (entry_at r s).ptid == ptid ]) ≡ true)
          (sym free) refl))
Stands-commit_entry ptid entry s (own r set held mine) =
    or_right (s.read_locks entry.read_lock == entry.version)
      (is_read_locked (s.read_locks entry.read_lock) && free_or_own ptid entry s)
      (and_join _ _ set (
        subst
          (λ (o : Option EntryRef).
            (elim o [ none ↦ true | some r ↦ (entry_at r s).ptid == ptid ]) ≡ true)
          (sym held) ((==_iff (entry_at r s).ptid ptid).1 mine)))

commit_log_iff :
    (ptid : ℕ) (log : List ReadLogEntry) (s : State)
    → (commit_log ptid log s ≡ true) ↔ All (Stands ptid s) log
unfolding commit_log
commit_log_iff ptid [] s = (λ h. tt, λ h. refl)
commit_log_iff ptid (e ∷ rest) s =
    let (to, from) = commit_log_iff ptid rest s in
    (
      λ h. let (a, b) = and_split _ _ h in (commit_entry-Stands ptid e s a, to b),
      λ (a, b). and_join _ _ (Stands-commit_entry ptid e s a) (from b),
    )

-- Every entry in the read log of the task with this serial stands at the commit.
abbrev pub LogStands : (ptid serial : ℕ) → State → Type 0
LogStands ptid serial s = All (Stands ptid s) (s.transactions (owner_of ptid serial s)).read_log

-- Whether the log of the task with this serial stands at the commit.
abbrev stands : (ptid serial : ℕ) → State → Bool
stands ptid serial s = commit_log ptid (s.transactions (owner_of ptid serial s)).read_log s

-- The answer `k` of the validation of the tasks with serials from `i` up to `hi`.
abbrev FirstFailing : (ptid i hi k : ℕ) → State → Type 0
FirstFailing ptid i hi k s =
    (k ≡ 0) × ((j : ℕ) → i ≤ j → j < hi → stands ptid j s ≡ true)
    ⊎ (i ≤ k)
      × (k < hi)
      × (stands ptid k s ≡ false)
      × ((j : ℕ) → i ≤ j → j < k → stands ptid j s ≡ true)

validate_commit_from_lem :
    (ptid i n : ℕ) (s : State) → FirstFailing ptid i (i + n) (validate_commit_from ptid i n s) s
unfolding validate_commit_from
validate_commit_from_lem ptid i zero s = inl (refl, λ j lo hi. absurd (omega arith))
validate_commit_from_lem ptid i (suc n) s = elim (Bool-cases (stands ptid i s)) [
  | inr e ↦ rw e (inr (omega arith, omega arith, e, λ j lo hi. absurd (omega arith)))
  | inl e ↦ rw e (elim (validate_commit_from_lem ptid (i + 1) n s) [
    | inl (z, all) ↦ inl (
      z,
      λ j lo hi. elim (Bool-cases (i == j)) [
        | inl same ↦ rw (← (==_iff i j).0 same) e
        | inr other ↦ all j (ground arith) (omega arith)
      ],
    )
    | inr (lo, hi, bad, all) ↦ inr (
      omega arith,
      omega arith,
      bad,
      λ j l h. elim (Bool-cases (i == j)) [
        | inl same ↦ rw (← (==_iff i j).0 same) e
        | inr other ↦ all j (ground arith) (omega arith)
      ],
    )
  ])
]

-- The answer `k` of a validation of the tasks with serials from `i` up to `hi`, in terms of what stands.
pub FirstConflict : (ptid i hi k : ℕ) → State → Type 0
FirstConflict ptid i hi k s =
    (k ≡ 0) × ((j : ℕ) → i ≤ j → j < hi → LogStands ptid j s)
    ⊎ (i ≤ k) × (k < hi) × (LogStands ptid k s → ⊥) × ((j : ℕ) → i ≤ j → j < k → LogStands ptid j s)

false-true : (b : Bool) → b ≡ false → b ≡ true → ⊥
false-true true h k = absurd (cc)
false-true false h k = absurd (cc)

FirstFailing-FirstConflict :
    (ptid i hi k : ℕ) (s : State) → FirstFailing ptid i hi k s → FirstConflict ptid i hi k s
unfolding FirstConflict
FirstFailing-FirstConflict ptid i hi k s (inl (z, all)) =
    inl (z, λ j lo h. (commit_log_iff ptid _ s).0 (all j lo h))
FirstFailing-FirstConflict ptid i hi k s (inr (lo, h, bad, all)) = inr (
  lo,
  h,
  λ l. false-true _ bad ((commit_log_iff ptid _ s).1 l),
  λ j l m. (commit_log_iff ptid _ s).0 (all j l m),
)

-- For a transaction whose serials are in order, `ValidateCommit` answers zero when every entry in the
-- read logs of all its tasks stands, and otherwise the serial of the first task with an entry that does
-- not. An entry stands when its version is the current one, or when the read lock is set and
-- the write lock is free or held by a task of the same program thread.
pub validate_commit_lem :
    (tid : ℕ) (s : State)
    → (s.transactions tid).start_serial ≤ (s.transactions tid).serial
    → FirstConflict
        (s.transactions tid).prog_thread_id
        (s.transactions tid).start_serial
        ((s.transactions tid).serial + 1)
        (validate_commit tid s)
        s
unfolding validate_commit
validate_commit_lem tid s order =
    let t = s.transactions tid in
    let e : t.start_serial + (t.serial + 1 - t.start_serial) ≡ t.serial + 1 = omega arith in
    FirstFailing-FirstConflict t.prog_thread_id t.start_serial (t.serial + 1)
      (validate_commit tid s) s
      (subst (λ hi. FirstFailing t.prog_thread_id t.start_serial hi (validate_commit tid s) s) e
        (unfold validate_commit in
          validate_commit_from_lem t.prog_thread_id t.start_serial (t.serial + 1 - t.start_serial)
            s))
