-- ===== src/Memory/Dominated.antt =====
-- What `FreeDominated` frees.
use mathlib.Core.List.{append-nil, append_assoc}
use tlstm.Prelude.{
  ℕ, zero, suc, ◌<◌, ◌≡◌, ◌≢◌, refl, sym, ap, subst, ◌∙◌, arith, Bool, true, false, ◌&&◌, leb, ◌==◌,
  if◌then◌else◌, if_true, if_false, if_cases, List, [], ◌∷◌, ◌++◌, All, length, length-append,
  Option, some,
}
use tlstm.Memory.{
  null, Buffers, MemoryManager, modify, set_next, pointers, free_ptrs, put_reusable, find_dominated,
  free_rest, reclaim, free_from, free_found, free_dominated,
}
use tlstm.Memory.Chain.{
  Linked, Outside, Same, contents, Linked-Same, contents-Same, modify-Same-Outside,
}

-- The buffer has a timestamp, and it is not above `minimum`.
abbrev pub dominated : Buffers → ℕ → ℕ → Bool
dominated b minimum x = (b x).init_ts && leb (b x).ts minimum

-- The list is empty, or starts with a dominated buffer.
abbrev pub StartsDominated : Buffers → ℕ → List ℕ → Type 0
StartsDominated b minimum [] = Unit
StartsDominated b minimum (d ∷ ds) = dominated b minimum d ≡ true

abbrev head : List ℕ → ℕ
head [] = null
head (d ∷ ds) = d

find_dominated_lem :
    (fuel minimum p : ℕ) (b : Buffers) (ks ds : List ℕ)
    → Linked b p (ks ++ ds) null
    → All (λ x. dominated b minimum x ≡ false) ks
    → StartsDominated b minimum ds
    → length ks < fuel
    → find_dominated fuel minimum p b ≡ some (head ds)
unfolding find_dominated
find_dominated_lem zero minimum p b ks ds l k d f = absurd (omega arith)
find_dominated_lem (suc fuel) minimum p b [] [] l k d f = if_true {b = p == null} _ _ (ground arith)
find_dominated_lem (suc fuel) minimum p b [] (x ∷ ds) (e, n, l) k d f =
    rw e (if_false {b = x == null} _ _ (ground arith) ∙ if_true {b = dominated b minimum x} _ _ d)
find_dominated_lem (suc fuel) minimum p b (x ∷ ks) ds (e, n, l) (k, kk) d f = rw e (
    if_false {b = x == null} _ _ (ground arith)
    ∙ if_false {b = dominated b minimum x} _ _ k
    ∙ find_dominated_lem fuel minimum (b x).next b ks ds l kk d (omega arith))

free_rest_lem :
    (fuel p l : ℕ) (xs : List ℕ) (m : MemoryManager)
    → Linked m.buffers p xs null
    → length xs < fuel
    → (last : ℕ) × (free_rest fuel p l m
        ≡ some (last, record m { freed = m.freed ++ contents m.buffers xs }))
unfolding free_rest free_ptrs contents
free_rest_lem zero p l xs m k f = absurd (omega arith)
free_rest_lem (suc fuel) p l [] m k f = (
  l,
  if_true {b = p == null} _ _ (ground arith)
      ∙ ap (λ z. some (l, record m { freed = z })) (sym (append-nil m.freed)),
)
free_rest_lem (suc fuel) p l (x ∷ xs) m (e, n, k) f =
    let (last, q) = free_rest_lem fuel (m.buffers x).next x xs (free_ptrs x m) k (omega arith) in
    (
      last,
      rw e (
          if_false {b = x == null} _ _ (ground arith)
          ∙ q
          ∙ ap (λ z. some (last, record m { freed = z }))
              (append_assoc m.freed (pointers (m.buffers x).ptrs (m.buffers x).next_ptr)
                (contents m.buffers xs))),
    )

put_reusable-freed :
    (first last : ℕ) (m : MemoryManager)
    → ((put_reusable first last m).freed ≡ m.freed)
      × ((put_reusable first last m).last_minimum_ts ≡ m.last_minimum_ts)
unfolding put_reusable
put_reusable-freed first last m = (refl, refl)

-- What an operation has freed, and the minimum that it has seen.
abbrev Freed : (m : MemoryManager) (minimum : ℕ) (ps : List ℕ) → Option MemoryManager → Type 0
Freed m minimum ps r =
    (m' : MemoryManager) × (r ≡ some m')
    × (m'.freed ≡ m.freed ++ ps)
    × (m'.last_minimum_ts ≡ minimum)

reclaim-Freed :
    (fuel d : ℕ) (ds : List ℕ) (m m₁ : MemoryManager)
    → Linked m.buffers d (d ∷ ds) null
    → All (Same m.buffers m₁.buffers) (d ∷ ds)
    → m₁.freed ≡ m.freed
    → m₁.last_minimum_ts ≡ m.last_minimum_ts
    → length (d ∷ ds) < fuel
    → Freed m m.last_minimum_ts (contents m.buffers (d ∷ ds)) (reclaim fuel d m₁)
unfolding reclaim
reclaim-Freed fuel d ds m m₁ l s e e' f =
    let (last, q) =
      free_rest_lem fuel d d (d ∷ ds) m₁ (Linked-Same m.buffers m₁.buffers d null (d ∷ ds) s l) f in
    let m₂ = record m₁ { freed = m₁.freed ++ contents m₁.buffers (d ∷ ds) } in
    (
      put_reusable d last m₂,
      rw (q, reclaim) refl,
      (put_reusable-freed d last m₂).0 ∙ rw (e, contents-Same m.buffers m₁.buffers (d ∷ ds) s) refl,
      (put_reusable-freed d last m₂).1 ∙ e',
    )

unchanged : (b : Buffers) (xs : List ℕ) → All (Same b b) xs
unchanged b [] = tt
unchanged b (x ∷ xs) = (record { next = refl; next_ptr = refl; ptrs = refl }, unchanged b xs)

free_from-Freed :
    (fuel d : ℕ) (ds : List ℕ) (m : MemoryManager)
    → Linked m.buffers d (d ∷ ds) null
    → Outside (m.buffers d).prev (d ∷ ds)
    → length (d ∷ ds) < fuel
    → Freed m m.last_minimum_ts (contents m.buffers (d ∷ ds)) (free_from fuel d m)
unfolding free_from
free_from-Freed fuel d ds m l o f =
    if_cases (λ m₁. Freed m m.last_minimum_ts (contents m.buffers (d ∷ ds)) (reclaim fuel d m₁))
      ((m.buffers d).prev == null)
      (λ _.
        reclaim-Freed fuel d ds m (record m { freed_logically = null }) l
          (unchanged m.buffers (d ∷ ds)) refl refl f)
      (λ _.
        reclaim-Freed fuel d ds m
          (record m { buffers = modify (m.buffers d).prev (set_next null) m.buffers }) l
          (modify-Same-Outside (m.buffers d).prev (set_next null) m.buffers (d ∷ ds) o) refl refl f)

-- The buffer in front of the first of the list is none of the list's.
abbrev pub PrevOutside : Buffers → List ℕ → Type 0
PrevOutside b [] = Unit
PrevOutside b (d ∷ ds) = Outside (b d).prev (d ∷ ds)

-- The buffers from `p` on that the search leaves behind.
Linked-drop :
    (b : Buffers) (p : ℕ) (ks : List ℕ) (d : ℕ) (ds : List ℕ)
    → Linked b p (ks ++ d ∷ ds) null
    → Linked b d (d ∷ ds) null
Linked-drop b p [] d ds (e, n, l) = (refl, n, l)
Linked-drop b p (x ∷ ks) d ds (e, n, l) = Linked-drop b (b x).next ks d ds l

free_found-Freed :
    (fuel p : ℕ) (ks ds : List ℕ) (m : MemoryManager)
    → Linked m.buffers p (ks ++ ds) null
    → PrevOutside m.buffers ds
    → length ds < fuel
    → Freed m m.last_minimum_ts (contents m.buffers ds) (free_found fuel (some (head ds)) m)
unfolding free_found contents
free_found-Freed fuel p ks [] m l o f = (m, refl, sym (append-nil m.freed), refl)
free_found-Freed fuel p ks (d ∷ ds) m l o f =
    subst (Freed m m.last_minimum_ts (contents m.buffers (d ∷ ds)))
      (sym (
        if_false {b = d == null} (some m) (free_from fuel d m)
          (nonnull (Linked-drop m.buffers p ks d ds l).1)))
      (free_from-Freed fuel d ds m (Linked-drop m.buffers p ks d ds l) o f)
  where
    nonnull : d ≢ null → (d == null) ≡ false
    nonnull n = ground arith

-- With a minimum that it has not seen before, `FreeDominated` frees exactly the pointers of the first
-- buffer of the list that has a timestamp not above that minimum, and of the buffers behind it, in
-- order; no pointer if there is no such buffer. It remembers the minimum. The loops end: one round more
-- than the buffers is enough. The buffer in front of the freed ones is none of them.
pub free_dominated_lem :
    (fuel observed updated minimum : ℕ) (m : MemoryManager) (ks ds : List ℕ)
    → minimum ≡ (if m.last_minimum_ts == observed then updated else observed)
    → m.last_minimum_ts ≢ minimum
    → Linked m.buffers m.freed_logically (ks ++ ds) null
    → All (λ x. dominated m.buffers minimum x ≡ false) ks
    → StartsDominated m.buffers minimum ds
    → PrevOutside m.buffers ds
    → length (ks ++ ds) < fuel
    → (m' : MemoryManager) × (free_dominated fuel observed updated m ≡ some m')
      × (m'.freed ≡ m.freed ++ contents m.buffers ds)
      × (m'.last_minimum_ts ≡ minimum)
unfolding free_dominated
free_dominated_lem fuel observed updated minimum m ks ds e new l k d o f =
    subst (Freed m minimum (contents m.buffers ds)) (sym run) (
      free_found-Freed fuel m.freed_logically ks ds seen l o
        (omega (arith, length-append {0} ks ds, f)))
  where
    seen : MemoryManager
    seen = record m { last_minimum_ts = minimum }

    run : free_dominated fuel observed updated m ≡ free_found fuel (some (head ds)) seen
    run = rw (← e) (
        if_false {b = m.last_minimum_ts == minimum} _ _ (ground arith)
        ∙ ap (λ r. free_found fuel r seen)
            (find_dominated_lem fuel minimum m.freed_logically m.buffers ks ds l k d
              (omega (arith, length-append {0} ks ds, f))))
