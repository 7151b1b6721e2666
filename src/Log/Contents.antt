-- ===== src/Log/Contents.antt =====
-- The log as a list: what the operations of src/stm/common/log.h do to it.
use mathlib.Core.List.{append-nil, append_assoc}
use mathlib.Core.Path.{ap₂}
use native.Mathlib.Numerals.{add-one}
use tlstm.Prelude.{
  ℕ, zero, suc, ◌+◌, ◌-◌, ◌<◌, ◌≡◌, refl, ◌≢◌, ◌↔◌, true, false, some, List, [], ◌∷◌, ◌++◌, arith,
  ◌==◌, Bool-cases, ==_iff, inl, inr, ap, sym, ◌∙◌, ◌*◌, ◌&&◌, length, length-append,
}
use tlstm.Log.{place, Log, store, empty, clear, advance, insert, get_next, delete_last, remove}

suc-ne_zero : (e : ℕ) → (suc e == 0) ≡ false
suc-ne_zero e = ground arith

suc-sub_one : (e : ℕ) → suc e - 1 ≡ e
suc-sub_one e = omega arith

empty_of_length : (n c e : ℕ) → 0 < n → c * n + e ≡ 0 → (e == 0 && c == 0) ≡ true
empty_of_length n c e h z = grind arith

zero_of_empty : (c e : ℕ) → (e == 0 && c == 0) ≡ true → (c ≡ 0) × (e ≡ 0)
zero_of_empty c e h = ground arith

module _ {ℓ} {T : Type ℓ} where
  -- The first `n` elements of a chunk.
  pub row : (ℕ → T) → ℕ → List T
  row f zero = []
  row f (suc n) = row f n ++ f n ∷ []

  row-eq : (f g : ℕ → T) (n : ℕ) → ((i : ℕ) → i < n → f i ≡ g i) → row f n ≡ row g n
  unfolding row
  row-eq f g zero h = refl
  row-eq f g (suc n) h = rw (row-eq f g n (λ i lt. h i (omega arith)), h n (omega arith))

module _ {ℓ} {T : Type ℓ} (chunk_length : ℕ) where
  -- The first `c` chunks, all full.
  pub full : (ℕ → ℕ → T) → ℕ → List T
  full f zero = []
  full f (suc c) = full f c ++ row (f c) chunk_length

  full-eq : (f g : ℕ → ℕ → T) (c : ℕ) → ((i j : ℕ) → i < c → f i j ≡ g i j) → full f c ≡ full g c
  unfolding full
  full-eq f g zero h = refl
  full-eq f g (suc c) h = rw (
    full-eq f g c (λ i j lt. h i j (omega arith)),
    row-eq (f c) (g c) chunk_length (λ j lt. h c j (omega arith)),
  )

  -- What stands before a place.
  pub before : (ℕ → ℕ → T) → ℕ → ℕ → List T
  before f c e = full f c ++ row (f c) e

  -- The elements of the log, oldest first.
  unfoldable pub contents : Log T → List T
  contents l = before l.elements l.last_chunk l.next_element

  pub record IsValid (l : Log T) : Type 0 where
    pub room : l.next_element < chunk_length
    pub linked : l.last_chunk < l.chunks

  pub before_start : (f : ℕ → ℕ → T) → before f 0 0 ≡ []
  unfolding before row full
  before_start f = refl

  pub before-suc : (f : ℕ → ℕ → T) (c e : ℕ) → before f c (suc e) ≡ before f c e ++ f c e ∷ []
  unfolding before row
  before-suc f c e = simp append_assoc

  pub before-chunk : (f : ℕ → ℕ → T) (c : ℕ) → before f (suc c) 0 ≡ before f c chunk_length
  unfolding before row full
  before-chunk f c = append-nil _

  before-store :
      (f : ℕ → ℕ → T) (c e : ℕ) (el : T) → before (store (place c e) el f) c e ≡ before f c e
  unfolding before store
  before-store f c e el =
      ap₂ ◌++◌ (full-eq _ _ c (λ i j lt. ground arith)) (row-eq _ _ e (λ j lt. ground arith))

  store_same : (f : ℕ → ℕ → T) (c e : ℕ) (el : T) → store (place c e) el f c e ≡ el
  unfolding store
  store_same f c e el = ground arith

  -- One more element behind a place, and the step over the end of a chunk.
  before-step :
      (f : ℕ → ℕ → T) (c e : ℕ) (el : T)
      → before (store (place c e) el f) c (suc e) ≡ before f c e ++ el ∷ []
  before-step f c e el =
      rw (before-suc (store (place c e) el f) c e, before-store f c e el, store_same f c e el) refl

  contents-advance : (l : Log T) → contents (advance chunk_length l) ≡ contents l
  unfolding contents advance
  contents-advance l = elim (Bool-cases (l.next_element == chunk_length)) [
    | inl at_end ↦
        rw (at_end, add-one)
          (before-chunk l.elements l.last_chunk
            ∙ ap (before l.elements l.last_chunk)
                (sym ((==_iff l.next_element chunk_length).0 at_end)))
    | inr inside ↦ rw inside
  ]

  advance-IsValid :
      (l : Log T)
      → 0 < chunk_length
      → l.next_element < suc chunk_length
      → l.last_chunk < l.chunks
      → IsValid (advance chunk_length l)
  unfolding advance
  advance-IsValid l some_room fits linked = ground arith

  -- `insert` puts its argument behind all others, across the end of a chunk too.
  pub contents-insert :
      (el : T) (l : Log T)
      → IsValid l
      → IsValid (insert chunk_length el l)
        × (contents (insert chunk_length el l) ≡ contents l ++ el ∷ [])
  unfolding contents insert
  contents-insert el l v = (
    advance-IsValid _ (omega (arith, v.room)) (omega (arith, v.room)) v.linked,
    contents-advance _ ∙ rw add-one (before-step l.elements l.last_chunk l.next_element el),
  )

  -- `get_next` followed by a store through the pointer does what `insert` does.
  pub get_next-insert :
      (el : T) (l : Log T)
      → (let (p, l') = get_next chunk_length l in record l' { elements = store p el l'.elements })
        ≡ insert chunk_length el l
  unfolding insert get_next advance
  get_next-insert el l = ground arith

  -- What `remove` and `delete_last` do to `l`.
  abbrev pub Dropped : Log T → Type ℓ
  Dropped l =
      (el : T) × (l' : Log T) × (remove chunk_length l ≡ some (el, l'))
      × (delete_last chunk_length l ≡ some l')
      × IsValid l'
      × (contents l ≡ contents l' ++ el ∷ [])

  row-last : (f : ℕ → T) (n : ℕ) → 0 < n → row f n ≡ row f (n - 1) ++ f (n - 1) ∷ []
  unfolding row
  row-last f zero h = absurd (omega arith)
  row-last f (suc n) h = let e : suc n - 1 ≡ n = omega arith in rw e

  log_at : (ℕ → ℕ → T) → (chunks c e : ℕ) → Log T
  log_at f chunks c e = record { chunks = chunks; elements = f; last_chunk = c; next_element = e }

  remove_at :
      (f : ℕ → ℕ → T) (chunks c e : ℕ)
      → IsValid (log_at f chunks c e)
      → contents (log_at f chunks c e) ≢ []
      → Dropped (log_at f chunks c e)
  unfolding log_at remove delete_last contents before full row
  remove_at f chunks zero zero v h = absurd (h refl)
  remove_at f chunks (suc c) zero v h = (
    f c (chunk_length - 1),
    log_at f chunks c (chunk_length - 1),
    ground arith,
    ground arith,
    record { room = omega (arith, v.room); linked = omega (arith, v.linked) },
    rw (row-last (f c) chunk_length v.room) (simp (append-nil, append_assoc)),
  )
  remove_at f chunks c (suc e) v h = (
    f c e,
    log_at f chunks c e,
    rw (suc-ne_zero e, suc-sub_one e),
    rw (suc-ne_zero e, suc-sub_one e),
    record { room = omega (arith, v.room); linked = omega (arith, v.linked) },
    simp append_assoc,
  )

  -- On a log with elements `remove` takes the newest one off and returns it, and `delete_last`
  -- leaves the same log.
  pub remove-contents : (l : Log T) → IsValid l → contents l ≢ [] → Dropped l
  remove-contents l v h =
      unfold log_at in remove_at l.elements l.chunks l.last_chunk l.next_element v h

  -- `clear` empties the log.
  pub contents-clear : (l : Log T) → contents (clear l) ≡ []
  unfolding contents clear before full row
  contents-clear l = refl

  length-row : (f : ℕ → T) (n : ℕ) → length (row f n) ≡ n
  unfolding row
  length-row f zero = refl
  length-row f (suc n) = omega (arith, length-append (row f n) (f n ∷ []), length-row f n)

  length-full : (f : ℕ → ℕ → T) (c : ℕ) → length (full f c) ≡ c * chunk_length
  unfolding full
  length-full f zero = omega arith
  length-full f (suc c) = omega (
    arith,
    length-append (full f c) (row (f c) chunk_length),
    length-full f c,
    length-row (f c) chunk_length,
  )

  pub length-before : (f : ℕ → ℕ → T) (c e : ℕ) → length (before f c e) ≡ c * chunk_length + e
  unfolding before
  length-before f c e =
      omega (arith, length-append (full f c) (row (f c) e), length-full f c, length-row (f c) e)

  -- On a well-formed log `empty` answers true exactly when the log has no elements.
  pub empty_iff : (l : Log T) → IsValid l → (empty l ≡ true) ↔ (contents l ≡ [])
  unfolding empty contents before full row
  empty_iff l v = (
    λ h. let (c, e) = zero_of_empty l.last_chunk l.next_element h in rw (c, e),
    λ h.
        empty_of_length chunk_length _ _ (omega (arith, v.room))
          (sym (length-before l.elements l.last_chunk l.next_element) ∙ ap length h),
  )
