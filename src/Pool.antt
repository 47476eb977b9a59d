-- ===== src/Pool.antt =====
-- `MemPool` of include/utils/containers/memory_pool.hpp. A pointer to an object is the index of its
-- block, and an assertion that ends the process is `none`.
mod Tests
pub mod Allocate
pub mod Count
use hft_system.Prelude.{
  ℕ, zero, suc, ◌+◌, ◌==◌, leb, not, if◌then◌else◌, Bool, true, false, List, [], ◌∷◌, length,
  get_or, set, replicate, Option, none, some,
}

-- `ObjectBlock`
pub record ObjectBlock {ℓ} (A : Type ℓ) : Type ℓ where
  pub object : A
  pub is_free : Bool

pub record MemPool {ℓ} (A : Type ℓ) : Type ℓ where
  pub blocks : List (ObjectBlock A)
  pub next_free_index : ℕ

-- `++next_free_index_` with the wrap at the end of the store.
abbrev pub next_index : ℕ → ℕ → ℕ
next_index size i = if (i + 1) == size then 0 else i + 1

module _ {ℓ} {A : Type ℓ} where
  -- The constructor; `blank` is `T()`.
  abbrev pub make_pool : ℕ → A → MemPool A
  make_pool num_elems blank = record {
    blocks = replicate num_elems (record { object = blank; is_free = true });
    next_free_index = 0;
  }

  -- Whether block `i` is free; no block is out of range.
  abbrev pub free_at : List (ObjectBlock A) → ℕ → Bool
  free_at [] i = false
  free_at (b ∷ bs) zero = b.is_free
  free_at (b ∷ bs) (suc i) = free_at bs i

  -- The loop of `updateNextFreeIndex` from `i` on, `fuel` rounds at most.
  pub find_free : List (ObjectBlock A) → ℕ → ℕ → ℕ → Option ℕ
  find_free blocks initial i zero = none
  find_free blocks initial i (suc fuel) =
      let next = next_index (length blocks) i in
      let rest = find_free blocks initial next fuel in
      if free_at blocks i then some i else if initial == next then none else rest

  -- `allocate`: the block of the new object, and the pool.
  pub allocate : MemPool A → A → Option (ℕ × MemPool A)
  unfolding find_free
  allocate p x =
      let i = p.next_free_index in
      let blocks = set p.blocks i (record { object = x; is_free = false }) in
      if not (free_at p.blocks i) then none else elim (find_free blocks i i (length blocks)) [
        | none ↦ none
        | some j ↦ some (i, record { blocks = blocks; next_free_index = j })
      ]

  -- `deallocate`; `blank` stands for a read out of range.
  pub deallocate : A → MemPool A → ℕ → Option (MemPool A)
  deallocate blank p i =
      let b = get_or p.blocks i (record { object = blank; is_free = true }) in
      if leb (length p.blocks) i
      then none
      else if b.is_free
      then none
      else some (record p { blocks = set p.blocks i (record b { is_free = true }) })
