-- ===== src/Tx/Start/Initial.antt =====
-- What the initialisation of src/stm/transaction_mixinv.h establishes, and the minimum that `MM_EPOCH`
-- keeps.
use tlstm.Prelude.{
  ℕ, zero, suc, ◌+◌, ◌-◌, ◌*◌, ◌%◌, ◌^◌, ◌≤◌, ◌<◌, ◌≡◌, refl, ◌⊎◌, inl, inr, true, false, Option,
  none, some, Bool, subst, sym, update, if_cases, if_true, if_false, ◌/◌, arith, ap, ◌∙◌, ◌==◌,
  if◌then◌else◌, ltb, Bool-cases, ==_iff,
}
use tlstm.Common.Constants.{word_mod, max_threads, minimum_ts}
use tlstm.Common.VersionLock.{get_version_lock, is_read_locked}
use tlstm.Common.Timestamp.{restart}
use tlstm.Tx.Locks.{
  map_address_to_read_lock, map_address_to_write_lock, map_address_lem,
  full_version_lock_table_size,
}
use tlstm.Tx.State.{ProgramThread, State, EntryRef}
use tlstm.Tx.Commit.{set_places, initialize_read_locks}
use tlstm.Tx.Start.{
  initialize_write_locks, initialize_program_threads, global_init, minimum_from,
  update_minimum_observed_ts,
}

-- The state in which a program thread begins.
abbrev pub IsReady : (specdepth : ℕ) → ProgramThread → Type 0
IsReady specdepth p =
    (p.last_completed_task ≡ (specdepth + word_mod - 1) % word_mod)
    × (p.last_completed_writer ≡ (specdepth + word_mod - 1) % word_mod)
    × (p.progress ≡ 0)
    × (p.validated ≡ true)
    × (p.requires_validation ≡ false)

-- The program threads from `i` to `i + n` are ready, the others and the locks as before.
record Initialised (i n : ℕ) (s s' : State) : Type 0 where
  pub depth : s'.specdepth ≡ s.specdepth
  pub ready : (j : ℕ) → i ≤ j → j < i + n → IsReady s.specdepth (s'.prog_thread j)
  pub before : (j : ℕ) → j < i → s'.prog_thread j ≡ s.prog_thread j
  pub reads : s'.read_locks ≡ s.read_locks
  pub writes : s'.write_locks ≡ s.write_locks

program_threads_lem :
    (i n : ℕ) (s : State)
    → i + n ≤ max_threads
    → (s' : State) × (initialize_program_threads i n s ≡ some s') × Initialised i n s s'
unfolding initialize_program_threads
program_threads_lem i zero s h = (
  s,
  refl,
  record {
    depth = refl;
    ready = λ j lo hi. absurd (omega arith);
    before = λ j lt. refl;
    reads = refl;
    writes = refl;
  },
)
program_threads_lem i (suc n) s h =
    let (s', runs, k) = program_threads_lem (i + 1) n _ (omega arith) in
    (
      s',
      if_true {b = ltb i max_threads} _ _ (ground arith) ∙ runs,
      record {
        depth = k.depth;
        ready = λ j lo hi. elim (same_or_later i j lo) [
          | inl e ↦
              subst (λ p. IsReady s.specdepth p)
                (sym (k.before j (omega arith) ∙ if_true {b = j == i} _ _ (ground arith)))
                (refl, refl, refl, refl, refl)
          | inr l ↦ k.ready j l (omega arith)
        ];
        before = λ j lt. k.before j (omega arith) ∙ if_false {b = j == i} _ _ (ground arith);
        reads = k.reads;
        writes = k.writes;
      },
    )
  where
    same_or_later : (i j : ℕ) → i ≤ j → (i ≡ j) ⊎ (i + 1 ≤ j)
    same_or_later i j l = ground arith

-- The loop keeps a place that is set, and sets every second one that the fuel reaches.
set_places_keep {ℓ} :
    (A : Type ℓ) (fuel i lock : ℕ) (a : A) (table : ℕ → A)
    → table lock ≡ a
    → set_places fuel i a table lock ≡ a
unfolding set_places
set_places_keep A zero i lock a table h = h
set_places_keep A (suc fuel) i lock a table h =
    if_cases (λ (t : ℕ → A). t lock ≡ a) (ltb i full_version_lock_table_size)
      (λ lt.
        set_places_keep A fuel (i + 2) lock a (update table i a)
          (if_cases (λ (x : A). x ≡ a) (lock == i) (λ e. refl) (λ e. h)))
      (λ ge. h)

set_places_lem {ℓ} :
    (A : Type ℓ) (fuel i d lock : ℕ) (a : A) (table : ℕ → A)
    → lock ≡ i + 2 * d
    → lock < full_version_lock_table_size
    → d < fuel
    → set_places fuel i a table lock ≡ a
unfolding set_places
set_places_lem A zero i d lock a table e h f = absurd (omega arith)
set_places_lem A (suc fuel) i zero lock a table e h f =
    ap (λ (t : ℕ → A). t lock) (if_true {b = ltb i full_version_lock_table_size} _ _ (ground arith))
    ∙ set_places_keep A fuel (i + 2) lock a (update table i a)
        (if_true {b = lock == i} _ _ (ground arith))
set_places_lem A (suc fuel) i (suc d) lock a table e h f =
    ap (λ (t : ℕ → A). t lock) (if_true {b = ltb i full_version_lock_table_size} _ _ (ground arith))
    ∙ set_places_lem A fuel (i + 2) d lock a (update table i a) (omega arith) h (omega arith)

-- The read lock of an address, as a place that the loop comes to.
read_lock_place :
    (address : ℕ)
    → (map_address_to_read_lock address ≡ 0 + 2 * (map_address_to_read_lock address / 2))
      × (map_address_to_read_lock address + 1 < full_version_lock_table_size)
unfolding map_address_to_write_lock
read_lock_place address =
    let (write_lt, even, a, b, c) = map_address_lem address address in (omega arith, write_lt)

initialize_read_locks_lem :
    (address : ℕ) (s : State)
    → (initialize_read_locks s).read_locks (map_address_to_read_lock address) ≡ get_version_lock 1
unfolding initialize_read_locks restart
initialize_read_locks_lem address s =
    let (place, small) = read_lock_place address in
    set_places_lem ℕ full_version_lock_table_size 0 (map_address_to_read_lock address / 2)
      (map_address_to_read_lock address) (get_version_lock 1) s.read_locks place (omega arith)
      (omega arith)

initialize_write_locks_lem :
    (address : ℕ) (s : State)
    → (initialize_write_locks s).write_locks (map_address_to_write_lock address) ≡ none
unfolding initialize_write_locks map_address_to_write_lock
initialize_write_locks_lem address s =
    let (place, small) = read_lock_place address in
    set_places_lem (Option EntryRef) full_version_lock_table_size 1
      (map_address_to_read_lock address / 2) (map_address_to_read_lock address + 1) none
      s.write_locks (omega arith) small (omega arith)

-- The write locks have no part in it.
initialize_read_locks_at :
    (address : ℕ) (s : State)
    → (initialize_write_locks (initialize_read_locks s)).read_locks
        (map_address_to_read_lock address)
      ≡ get_version_lock 1
unfolding initialize_write_locks
initialize_read_locks_at address s = initialize_read_locks_lem address s

version_one : is_read_locked (get_version_lock 1) ≡ false
unfolding is_read_locked get_version_lock
version_one = refl

-- `GlobalInit` for at most 64 program threads, which is the size of their array, accesses nothing outside
-- it. Then each of the `nb_tasks * nb_threads` program threads is ready for the task with serial
-- `nb_tasks`, and for every address the write lock is free and the read lock is not locked and has
-- version one.
pub global_init_lem :
    (nb_tasks nb_threads : ℕ) (s : State)
    → nb_tasks * nb_threads ≤ max_threads
    → (s' : State) × (global_init nb_tasks nb_threads s ≡ some s')
      × ((j : ℕ) → j < nb_tasks * nb_threads → IsReady nb_tasks (s'.prog_thread j))
      × ((address : ℕ)
          → let version = s'.read_locks (map_address_to_read_lock address) in
            (s'.write_locks (map_address_to_write_lock address) ≡ none)
            × (version ≡ get_version_lock 1)
            × (is_read_locked version ≡ false))
unfolding global_init
global_init_lem nb_tasks nb_threads s h =
    let s0 : State = record s { specdepth = nb_tasks } in
    let s1 : State = initialize_read_locks s0 in
    let (s2, runs, k) =
      program_threads_lem 0 (nb_tasks * nb_threads) (initialize_write_locks s1) (omega arith) in
    (
      record s2 { minimum_observed_ts = minimum_ts; synchronization_in_progress = false },
      rw (runs, global_init) refl,
      λ j lt. k.ready j (omega arith) (omega arith),
      λ address. (
        ap (λ (l : ℕ → Option EntryRef). l (map_address_to_write_lock address)) k.writes
            ∙ initialize_write_locks_lem address s1,
        ap (λ (l : ℕ → ℕ). l (map_address_to_read_lock address)) k.reads
            ∙ initialize_read_locks_at address s0,
        ap (λ (l : ℕ → ℕ). is_read_locked (l (map_address_to_read_lock address))) k.reads
            ∙ ap is_read_locked (initialize_read_locks_at address s0)
            ∙ version_one,
      ),
    )

-- The minimum over the registered ones of the `n` descriptors from `i` on and the value it starts from.
abbrev IsMinimum : (i n start minimum : ℕ) → State → Type 0
IsMinimum i n start minimum s =
    (minimum ≤ start)
    × ((j : ℕ)
        → i ≤ j
        → j < i + n
        → s.registered j ≡ true
        → minimum ≤ (s.transactions j).last_observed_ts % 2 ^ 32)
    × ((minimum ≡ start)
        ⊎ ((j : ℕ) × (i ≤ j)
            × (j < i + n)
            × (s.registered j ≡ true)
            × (minimum ≡ (s.transactions j).last_observed_ts % 2 ^ 32)))

-- One round of the loop: what it goes on with.
IsNext : (ts start next : ℕ) → Bool → Type 0
IsNext ts start next here =
    (next ≤ start) × (here ≡ true → next ≤ ts) × ((next ≡ start) ⊎ ((here ≡ true) × (next ≡ ts)))

round_lem :
    (ts start : ℕ) (here : Bool)
    → IsNext ts start (if here then if ltb ts start then ts else start else start) here
unfolding IsNext
round_lem ts start false = (omega arith, λ h. absurd (cc), inl refl)
round_lem ts start true = elim (Bool-cases (ltb ts start)) [
  | inl e ↦ rw e (ground arith, λ h. omega arith, inr (refl, refl))
  | inr e ↦ rw e (omega arith, λ h. ground arith, inl refl)
]

minimum_from_lem : (i n start : ℕ) (s : State) → IsMinimum i n start (minimum_from i n start s) s
unfolding minimum_from IsNext
minimum_from_lem i zero start s = (omega arith, λ j lo hi r. absurd (omega arith), inl refl)
minimum_from_lem i (suc n) start s =
    let ts = (s.transactions i).last_observed_ts % 2 ^ 32 in
    let next = if s.registered i then if ltb ts start then ts else start else start in
    let (below, all, found) = minimum_from_lem (i + 1) n next s in
    let (next_below, next_ts, next_found) = round_lem ts start (s.registered i) in
    (
      omega (arith, next_below),
      λ j lo hi r. elim (Bool-cases (i == j)) [
        | inl e ↦
            subst
              (λ x. minimum_from (i + 1) n next s ≤ (s.transactions x).last_observed_ts % 2 ^ 32)
              ((==_iff i j).0 e) (omega (arith, next_ts (ap s.registered ((==_iff i j).0 e) ∙ r)))
        | inr e ↦ all j (ground arith) (omega arith) r
      ],
      elim found [
        | inr (j, lo, hi, r, e) ↦ inr (j, omega arith, omega arith, r, e)
        | inl e ↦ elim next_found [
          | inl same ↦ inl (e ∙ same)
          | inr (r, taken) ↦ inr (i, omega arith, omega arith, r, e ∙ taken)
        ]
      ],
    )

-- Some registered thread has the minimum.
attained :
    (s : State) (minimum : ℕ)
    → 0 < s.thread_count
    → s.registered 0 ≡ true
    → IsMinimum 1 (s.thread_count - 1) ((s.transactions 0).last_observed_ts % 2 ^ 32) minimum s
    → (j : ℕ) × (j < s.thread_count)
      × (s.registered j ≡ true)
      × (minimum ≡ (s.transactions j).last_observed_ts % 2 ^ 32)
attained s minimum some_thread first (below, all, inl e) = (0, some_thread, first, e)
attained s minimum some_thread first (below, all, inr (j, lo, hi, r, e)) = (j, omega arith, r, e)

-- `UpdateMinimumObservedTs`, of a thread that gets the lock when the first thread is registered: the
-- minimum is at most the observed timestamp of every registered thread, cut to 32 bits, and is
-- that of one of them.
pub update_minimum_observed_ts_lem :
    (s : State)
    → 0 < s.thread_count
    → s.registered 0 ≡ true
    → let minimum = (update_minimum_observed_ts false s).0 in
      ((update_minimum_observed_ts false s).1.minimum_observed_ts ≡ minimum)
      × ((j : ℕ)
          → j < s.thread_count
          → s.registered j ≡ true
          → minimum ≤ (s.transactions j).last_observed_ts % 2 ^ 32)
      × (j : ℕ) × (j < s.thread_count)
      × (s.registered j ≡ true)
      × (minimum ≡ (s.transactions j).last_observed_ts % 2 ^ 32)
unfolding update_minimum_observed_ts
update_minimum_observed_ts_lem s some_thread first =
    let start = (s.transactions 0).last_observed_ts % 2 ^ 32 in
    let m = minimum_from_lem 1 (s.thread_count - 1) start s in
    let (j, lt, r, e) =
      attained s (minimum_from 1 (s.thread_count - 1) start s) some_thread first m in
    rw first (
      refl,
      λ i i_lt reg. elim (Bool-cases (i == 0)) [
        | inl z ↦ rw ((==_iff i 0).0 z) m.0
        | inr z ↦ m.1 i (ground arith) (omega arith) reg
      ],
      j,
      lt,
      r,
      e,
    )
