-- ===== src/Log.antt =====
-- src/stm/common/log.h with CHUNKED_LOG, which the build selects: the container of the read and write
-- sets. Chunks are linked in a row and never freed, so the `n`-th chunk allocated is the `n`-th
-- from the head: a chunk is its number, `head` is 0, `next` and `prev` are one up and one down.
pub mod Contents
pub mod Iterate
pub mod Size
use tlstm.Prelude.{
  ℕ, ◌+◌, ◌-◌, ◌/◌, ◌%◌, ◌<◌, Bool, true, false, ◌&&◌, Option, none, some, ◌==◌, ltb, if◌then◌else◌,
}

-- A pointer into the `elements` array of a chunk.
pub record Place : Type 0 where
  pub chunk : ℕ
  pub element : ℕ

abbrev pub place : ℕ → ℕ → Place
place c e = record { chunk = c; element = e }

pub record Log {ℓ} (T : Type ℓ) : Type ℓ where
  pub chunks : ℕ  -- allocated so far
  pub elements : ℕ → ℕ → T
  pub last_chunk : ℕ
  pub next_element : ℕ

module _ {ℓ} {T : Type ℓ} where
  -- `*p = el`
  unfoldable pub store : Place → T → (ℕ → ℕ → T) → ℕ → ℕ → T
  store p el elements c e = if c == p.chunk && e == p.element then el else elements c e

  -- The constructor: one chunk, whose elements hold what they hold.
  pub new : (ℕ → ℕ → T) → Log T
  new elements = record { chunks = 1; elements = elements; last_chunk = 0; next_element = 0 }

  pub empty : Log T → Bool
  empty l = l.next_element == 0 && l.last_chunk == 0

  -- `clear()` keeps the chunks.
  pub clear : Log T → Log T
  clear l = record l { last_chunk = 0; next_element = 0 }

  module _ (chunk_length : ℕ) where
    -- Steps to `lastChunk->next`, which is allocated if it is not there yet, from a full chunk.
    pub advance : Log T → Log T
    advance l =
        if l.next_element == chunk_length
        then record l {
          chunks = if ltb (l.last_chunk + 1) l.chunks then l.chunks else l.chunks + 1;
          last_chunk = l.last_chunk + 1;
          next_element = 0;
        }
        else l

    pub insert : T → Log T → Log T
    insert el l = advance (record l {
      elements = store (place l.last_chunk l.next_element) el l.elements;
      next_element = l.next_element + 1;
    })

    -- The place of the new element, which the caller fills in.
    pub get_next : Log T → Place × Log T
    get_next l = (
      place l.last_chunk l.next_element,
      advance (record l { next_element = l.next_element + 1 }),
    )

    -- `none`: on an empty log `lastChunk` becomes the null pointer.
    pub delete_last : Log T → Option (Log T)
    delete_last l =
        if l.next_element == 0
        then if l.last_chunk == 0
          then none
          else some (record l { last_chunk = l.last_chunk - 1; next_element = chunk_length - 1 })
        else some (record l { next_element = l.next_element - 1 })

    -- `none`: on an empty log the null pointer is read.
    pub remove : Log T → Option (T × Log T)
    remove l =
        if l.next_element == 0
        then if l.last_chunk == 0
          then none
          else some (
            l.elements (l.last_chunk - 1) (chunk_length - 1),
            record l { last_chunk = l.last_chunk - 1; next_element = chunk_length - 1 },
          )
        else some (
          l.elements l.last_chunk (l.next_element - 1),
          record l { next_element = l.next_element - 1 },
        )

    -- `none`: the walk leaves the chunks.
    pub get : ℕ → Log T → Option Place
    get index l =
        if ltb chunk_length index
        then if ltb (index / chunk_length) l.chunks
          then some (place (index / chunk_length) (index % chunk_length))
          else none
        else some (place 0 index)
