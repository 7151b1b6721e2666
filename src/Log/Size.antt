-- ===== src/Log/Size.antt =====
-- `get_size` and `get` of src/stm/common/log.h.
use native.Mathlib.Nat.{div-add-mod, mod-lt}
use tlstm.Prelude.{
  ℕ, zero, suc, ◌+◌, ◌*◌, ◌/◌, ◌%◌, ◌<◌, ◌≡◌, refl, ◌≢◌, ◌↔◌, true, false, Option, none, some,
  arith, ◌==◌, ltb, Bool-cases, inl, inr, length, ap, ◌∙◌, ltb→lt, lt→ltb,
}
use tlstm.Log.{Place, place, Log, get}
use tlstm.Log.Contents.{contents, length-before}

module _ {ℓ} {T : Type ℓ} (chunk_length : ℕ) where
  -- The loop does not step `curr`. `none`: the fuel ran out.
  get_size_loop : ℕ → Log T → (curr ret : ℕ) → Option ℕ
  get_size_loop zero l curr ret = none
  get_size_loop (suc fuel) l curr ret = elim (curr == l.last_chunk) [
    | true ↦ some (ret + l.next_element)
    | false ↦ get_size_loop fuel l curr (ret + chunk_length)
  ]

  pub get_size : ℕ → Log T → Option ℕ
  unfolding get_size_loop
  get_size fuel l = get_size_loop fuel l 0 0

  get_size_loop_stuck :
      (fuel : ℕ) (l : Log T) (ret : ℕ)
      → (0 == l.last_chunk) ≡ false
      → get_size_loop fuel l 0 ret ≡ none
  unfolding get_size_loop
  get_size_loop_stuck zero l ret h = refl
  get_size_loop_stuck (suc fuel) l ret h =
      rw (h, get_size_loop) (get_size_loop_stuck fuel l (ret + chunk_length) h)

  get_size_loop_one :
      (fuel : ℕ) (l : Log T)
      → l.last_chunk ≡ 0
      → get_size_loop (suc fuel) l 0 0 ≡ some (0 + l.next_element)
  unfolding get_size_loop
  get_size_loop_one fuel l h = rw (h, get_size_loop)

  one_chunk : (l : Log T) → l.last_chunk ≡ 0 → 0 + l.next_element ≡ length (contents chunk_length l)
  unfolding contents
  one_chunk l h = omega (
    arith,
    length-before chunk_length l.elements l.last_chunk l.next_element,
    ap (λ (c : ℕ). c * chunk_length) h,
  )

  -- `get_size` is the number of elements while these are in the first chunk. As soon as the log has
  -- gone on to a second chunk the loop never ends: no number of rounds is enough.
  pub get_size_lem :
      (l : Log T)
      → ((fuel : ℕ)
          → l.last_chunk ≡ 0
          → get_size (suc fuel) l ≡ some (length (contents chunk_length l)))
        × ((fuel : ℕ) → l.last_chunk ≢ 0 → get_size fuel l ≡ none)
  unfolding get_size
  get_size_lem l = (
    λ fuel h. get_size_loop_one fuel l h ∙ ap some (one_chunk l h),
    λ fuel h. get_size_loop_stuck fuel l 0 (ground arith),
  )

  -- For every index but one, `get` is the place of that index: inside its chunk, and as far from
  -- the start as the index says. For the index `CHUNK_LENGTH` it is a place past the end of the first chunk.
  pub get_lem :
      (l : Log T) (index : ℕ)
      → 0 < chunk_length
      → index / chunk_length < l.chunks
      → (p : Place) × (get chunk_length index l ≡ some p)
        × (p.chunk * chunk_length + p.element ≡ index)
        × ((p.element < chunk_length) ↔ (index ≢ chunk_length))
  unfolding get
  get_lem l index pos linked = elim (Bool-cases (ltb chunk_length index)) [
    | inl far ↦ (
      place (index / chunk_length) (index % chunk_length),
      rw (far, lt→ltb _ _ linked),
      omega (arith, div-add-mod index chunk_length),
      (λ _. omega (arith, ltb→lt _ _ far), λ _. mod-lt index pos),
    )
    | inr near ↦ (place 0 index, rw near, omega arith, (λ h. omega arith, λ ne. ground arith))
  ]
