-- ===== src/Tx/Validate/Chain.antt =====
-- The walks along `old_entry` of src/stm/transaction_mixinv.h, which have no bound in the code.
use tlstm.Prelude.{
  ℕ, zero, suc, ◌<◌, ◌≡◌, inl, inr, arith, Option, none, some, List, [], ◌∷◌, Option-cases, subst,
  sym,
}
use tlstm.Tx.State.{EntryRef, State, entry_at}
use tlstm.Tx.Validate.{chain, chain_upto}

-- What a walk meets from a pointer to the first NULL.
pub data Walk (s : State) : Option EntryRef → List EntryRef → Type 0 where
  stop : Walk s none []
  step :
      (r : EntryRef) (rest : List EntryRef)
      → Walk s (entry_at r s).old_entry rest
      → Walk s (some r) (r ∷ rest)

-- The entries that a walk from a pointer can come to.
pub data Reaches (s : State) : Option EntryRef → EntryRef → Type 0 where
  first : (r : EntryRef) → Reaches s (some r) r
  later : (r r' : EntryRef) → Reaches s (entry_at r s).old_entry r' → Reaches s (some r) r'

-- Along the chain each entry is of a later task than the one behind it.
unfoldable pub Falling : State → Option EntryRef → Type 0
Falling s o =
    (r r' : EntryRef)
    → Reaches s o r
    → (entry_at r s).old_entry ≡ some r'
    → (entry_at r' s).serial < (entry_at r s).serial

chain_upto-Walk :
    (n : ℕ) (s : State) (r : EntryRef)
    → (entry_at r s).serial < n
    → Falling s (some r)
    → Walk s (some r) (chain_upto n s (some r))
unfolding chain_upto Falling
chain_upto-Walk zero s r h falling = absurd (omega arith)
chain_upto-Walk (suc n) s r h falling =
    step r (chain_upto n s (entry_at r s).old_entry) (elim (Option-cases (entry_at r s).old_entry) [
      | inl e ↦ subst (λ o. Walk s o (chain_upto n s o)) (sym e) (nothing n)
      | inr (r', e) ↦
          subst (λ o. Walk s o (chain_upto n s o)) (sym e)
            (chain_upto-Walk n s r' (omega (arith, falling r r' (first r) e))
              (λ a b reached. falling a b (later r a (subst (λ o. Reaches s o a) (sym e) reached))))
    ])
  where
    nothing : (n : ℕ) → Walk s none (chain_upto n s none)
    nothing zero = stop
    nothing (suc n) = stop

-- Where the serials fall along the chain that starts at a pointer, the walk from it ends, and `chain` is all
-- that it meets up to the first NULL, although its fuel is only the first entry's serial and one.
pub chain-Walk : (s : State) (o : Option EntryRef) → Falling s o → Walk s o (chain s o)
unfolding chain chain_upto
chain-Walk s none falling = stop
chain-Walk s (some r) falling =
    unfold chain in chain_upto-Walk (suc (entry_at r s).serial) s r (omega arith) falling
