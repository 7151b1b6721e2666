-- ===== src/Tx/WordLog/Store.antt =====
-- A word log stands for the stores that were made to it, in their order.
use Prim.Native.Nat.{bit_or}
use tlstm.Prelude.{
  ℕ, ◌≡◌, refl, Option, none, some, List, [], ◌∷◌, ◌==◌, if◌then◌else◌, update, arith, Bool-cases,
  Option-cases, inl, inr, ==_iff, sym, ap, ◌∙◌, fun_ext,
}
use tlstm.Prelude.Bits.{bit_or-lt}
use tlstm.Common.Constants.{address_space_size}
use tlstm.Tx.WordLog.{
  WriteWordLogEntry, Memory, mask_word, mask_entry, find_word_log_entry, merge_found,
  insert_word_log_entry, write_back,
}
use tlstm.Tx.WordLog.Merge.{IsWord, mask_word-IsWord, mask_word-mask_word}

-- Words everywhere, and at most one entry for an address.
abbrev pub IsWordLog : List WriteWordLogEntry → Type 0
IsWordLog [] = Unit
IsWordLog (e ∷ rest) =
    IsWord e.value × IsWord e.mask × (find_word_log_entry e.address rest ≡ none) × IsWordLog rest

-- What an entry, if there is one, does to the word at its address.
abbrev pub effect : ℕ → Option WriteWordLogEntry → ℕ
effect old none = old
effect old (some e) = mask_word old e.value e.mask

pub write_back-find :
    (head : List WriteWordLogEntry) (memory : Memory) (x : ℕ)
    → IsWordLog head
    → write_back head memory x ≡ effect (memory x) (find_word_log_entry x head)
unfolding write_back find_word_log_entry mask_entry
write_back-find [] memory x w = refl
write_back-find (e ∷ rest) memory x w = elim (Bool-cases (e.address == x)) [
  | inl here ↦
      let same : e.address ≡ x = (==_iff e.address x).0 here in
      let absent : find_word_log_entry x rest ≡ none = rw (← same) w.2 in
      write_back-find rest _ x w.3 ∙ rw (absent, here, same) (ground arith)
  | inr away ↦ write_back-find rest _ x w.3 ∙ ground arith
]

abbrev pub merged : (value mask : ℕ) → WriteWordLogEntry → WriteWordLogEntry
merged value mask e = record e { value = mask_word e.value value mask; mask = bit_or e.mask mask }

find-merge_found :
    (a v m x : ℕ) (head : List WriteWordLogEntry) {e : WriteWordLogEntry}
    → find_word_log_entry a head ≡ some e
    → find_word_log_entry x (merge_found a v m head)
      ≡ (if a == x then some (merged v m e) else find_word_log_entry x head)
unfolding find_word_log_entry merge_found
find-merge_found a v m x [] h = cc
find-merge_found a v m x (f ∷ rest) {e} h = elim (Bool-cases (f.address == a)) [
  | inl here ↦ rw here (ground arith)
  | inr away ↦ rw away (ground (arith, find-merge_found a v m x rest {e = e}))
]

-- The entry that `insert_word_log_entry` leaves for its address.
abbrev pub inserted : (a v m : ℕ) → Option WriteWordLogEntry → WriteWordLogEntry
inserted a v m none = record { address = a; value = v; mask = m }
inserted a v m (some e) = merged v m e

pub find-insert :
    (a v m x : ℕ) (head : List WriteWordLogEntry)
    → find_word_log_entry x (insert_word_log_entry a v m head) ≡ (
        if a == x
        then some (inserted a v m (find_word_log_entry a head))
        else find_word_log_entry x head)
unfolding insert_word_log_entry
find-insert a v m x head = elim (Option-cases (find_word_log_entry a head)) [
  | inl e ↦ rw (e, insert_word_log_entry) (unfold find_word_log_entry in refl)
  | inr (f, e) ↦ rw (e, insert_word_log_entry) (find-merge_found a v m x head e)
]

merge_found_absent :
    (a v m x : ℕ) (head : List WriteWordLogEntry)
    → find_word_log_entry x head ≡ none
    → find_word_log_entry x (merge_found a v m head) ≡ none
unfolding find_word_log_entry merge_found
merge_found_absent a v m x [] h = refl
merge_found_absent a v m x (f ∷ rest) h = ground (arith, merge_found_absent a v m x rest)

merge_found-IsWordLog :
    (a v m : ℕ) (head : List WriteWordLogEntry)
    → IsWord v
    → IsWord m
    → IsWordLog head
    → IsWordLog (merge_found a v m head)
unfolding merge_found
merge_found-IsWordLog a v m [] hv hm w = tt
merge_found-IsWordLog a v m (e ∷ rest) hv hm w = elim (Bool-cases (e.address == a)) [
  | inl here ↦ rw here (
    mask_word-IsWord e.value v m w.0 hv hm,
    bit_or-lt address_space_size e.mask m w.1 hm,
    w.2,
    w.3,
  )
  | inr away ↦ rw away (
    w.0,
    w.1,
    merge_found_absent a v m e.address rest w.2,
    merge_found-IsWordLog a v m rest hv hm w.3,
  )
]

pub insert-IsWordLog :
    (a v m : ℕ) (head : List WriteWordLogEntry)
    → IsWord v
    → IsWord m
    → IsWordLog head
    → IsWordLog (insert_word_log_entry a v m head)
unfolding insert_word_log_entry
insert-IsWordLog a v m head hv hm w = elim (Option-cases (find_word_log_entry a head)) [
  | inl e ↦ rw (e, insert_word_log_entry) (hv, hm, e, w)
  | inr (f, e) ↦ rw (e, insert_word_log_entry) (merge_found-IsWordLog a v m head hv hm w)
]

found-IsWord :
    (a : ℕ) (head : List WriteWordLogEntry) {e : WriteWordLogEntry}
    → IsWordLog head
    → find_word_log_entry a head ≡ some e
    → IsWord e.value × IsWord e.mask
unfolding find_word_log_entry
found-IsWord a [] w h = cc
found-IsWord a (f ∷ rest) {e} w h = ground (arith, found-IsWord a rest {e = e} w.3, w.0, w.1)

-- The write of `value` under `mask` at an address of the memory.
pub store_word : (a v m : ℕ) → Memory → Memory
store_word a v m memory = update memory a (mask_word (memory a) v m)

pub effect-inserted :
    (a v m old : ℕ) (head : List WriteWordLogEntry) (o : Option WriteWordLogEntry)
    → find_word_log_entry a head ≡ o
    → IsWord v
    → IsWord m
    → IsWord old
    → IsWordLog head
    → effect old (some (inserted a v m o)) ≡ mask_word (effect old o) v m
effect-inserted a v m old head none h hv hm ho w = refl
effect-inserted a v m old head (some e) h hv hm ho w =
    let (value, mask) = found-IsWord a head w h in
    sym (mask_word-mask_word old e.value v e.mask m ho value hv mask hm)

-- Writing back after an insertion is writing back before it and then storing the word.
pub write_back-insert :
    (a v m : ℕ) (head : List WriteWordLogEntry) (memory : Memory)
    → IsWord v
    → IsWord m
    → IsWordLog head
    → ((x : ℕ) → IsWord (memory x))
    → write_back (insert_word_log_entry a v m head) memory
      ≡ store_word a v m (write_back head memory)
unfolding store_word
write_back-insert a v m head memory hv hm w words = fun_ext λ x.
    write_back-find (insert_word_log_entry a v m head) memory x
      (insert-IsWordLog a v m head hv hm w)
    ∙ ap (effect (memory x)) (find-insert a v m x head)
    ∙ elim (Bool-cases (a == x)) [
      | inl here ↦
          let same : a ≡ x = (==_iff a x).0 here in
          rw (here, ← same)
            (ground (
              arith,
              effect-inserted a v m (memory a) head (find_word_log_entry a head) refl hv hm
                  (words a) w,
              write_back-find head memory a w,
            ))
      | inr away ↦ ground (arith, write_back-find head memory x w)
    ]

-- A store of a transaction: `WriteWord(address, value, mask)`.
pub record Write : Type 0 where
  pub address : ℕ
  pub value : ℕ
  pub mask : ℕ

abbrev pub log_writes : List Write → List WriteWordLogEntry → List WriteWordLogEntry
log_writes [] head = head
log_writes (w ∷ ws) head = log_writes ws (insert_word_log_entry w.address w.value w.mask head)

abbrev pub store_writes : List Write → Memory → Memory
store_writes [] memory = memory
store_writes (w ∷ ws) memory = store_writes ws (store_word w.address w.value w.mask memory)

abbrev pub AreWords : List Write → Type 0
AreWords [] = Unit
AreWords (w ∷ ws) = IsWord w.value × IsWord w.mask × AreWords ws

log_writes-IsWordLog :
    (ws : List Write) (head : List WriteWordLogEntry)
    → AreWords ws
    → IsWordLog head
    → IsWordLog (log_writes ws head)
log_writes-IsWordLog [] head fit w = w
log_writes-IsWordLog (x ∷ ws) head fit w =
    log_writes-IsWordLog ws _ fit.2 (insert-IsWordLog x.address x.value x.mask head fit.0 fit.1 w)

write_back-log_from :
    (ws : List Write) (head : List WriteWordLogEntry) (memory : Memory)
    → AreWords ws
    → IsWordLog head
    → ((x : ℕ) → IsWord (memory x))
    → write_back (log_writes ws head) memory ≡ store_writes ws (write_back head memory)
write_back-log_from [] head memory fit w words = refl
write_back-log_from (x ∷ ws) head memory fit w words =
    write_back-log_from ws _ memory fit.2
      (insert-IsWordLog x.address x.value x.mask head fit.0 fit.1 w) words
    ∙ ap (store_writes ws)
        (write_back-insert x.address x.value x.mask head memory fit.0 fit.1 w words)

-- Any sequence of masked writes, logged on an empty write log entry and written back at the commit,
-- changes the memory exactly as the writes made directly in their order. In between, the word that
-- the log gives for an address is the word that those direct writes would have left there.
pub write_back-log_writes :
    (ws : List Write) (memory : Memory)
    → AreWords ws
    → ((x : ℕ) → IsWord (memory x))
    → (write_back (log_writes ws []) memory ≡ store_writes ws memory)
      × ((x : ℕ) (entry : WriteWordLogEntry)
          → find_word_log_entry x (log_writes ws []) ≡ some entry
          → mask_word (memory x) entry.value entry.mask ≡ store_writes ws memory x)
write_back-log_writes ws memory fit words =
    let whole : write_back (log_writes ws []) memory ≡ store_writes ws memory =
      unfold write_back in write_back-log_from ws [] memory fit tt words in
    (
      whole,
      λ x entry found.
          ap (effect (memory x)) (sym found)
          ∙ sym (write_back-find (log_writes ws []) memory x (log_writes-IsWordLog ws [] fit tt))
          ∙ ap (λ (f : Memory). f x) whole,
    )
