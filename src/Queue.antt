-- ===== src/Queue.antt =====
-- `LFQueue` of include/utils/containers/lock_free_queue.hpp: a ring over a vector of fixed size
-- with three counters. `size_t` counters wrap at 2 ^ 64; the assertion of `updateReadIndex`, which
-- ends the process, is the `none` of `update_read_index`.
mod Tests
pub mod Fifo
use hft_system.Prelude.{
  ℕ, ◌+◌, ◌-◌, ◌%◌, ◌^◌, ◌==◌, if◌then◌else◌, List, [], ◌∷◌, length, get_or, set, replicate, Option,
  none, some,
}

pub record LfQueue {ℓ} (A : Type ℓ) : Type ℓ where
  pub store : List A
  pub next_write_index : ℕ
  pub next_read_index : ℕ
  pub num_elements : ℕ

module _ {ℓ} {A : Type ℓ} where
  -- The constructor; `blank` is `T()`.
  abbrev pub make : ℕ → A → LfQueue A
  make num_elems blank = record {
    store = replicate num_elems blank;
    next_write_index = 0;
    next_read_index = 0;
    num_elements = 0;
  }

  -- `*getNextToWriteTo() = x`
  pub write_slot : LfQueue A → A → LfQueue A
  write_slot q x = record q { store = set q.store q.next_write_index x }

  pub update_write_index : LfQueue A → LfQueue A
  update_write_index q = record q {
    next_write_index = (q.next_write_index + 1) % length q.store;
    num_elements = (q.num_elements + 1) % 2 ^ 64;
  }

  -- The two calls by which every producer adds an element.
  unfoldable pub push : LfQueue A → A → LfQueue A
  unfolding write_slot update_write_index
  push q x = update_write_index (write_slot q x)

  -- The pointer is null if the queue is empty; `blank` stands for a read out of range.
  unfoldable pub get_next_to_read : A → LfQueue A → Option A
  get_next_to_read blank q =
      if q.num_elements == 0 then none else some (get_or q.store q.next_read_index blank)

  unfoldable pub update_read_index : LfQueue A → Option (LfQueue A)
  update_read_index q =
      if q.num_elements == 0
      then none
      else some (record q {
        next_read_index = (q.next_read_index + 1) % length q.store;
        num_elements = q.num_elements - 1;
      })

  pub size : LfQueue A → ℕ
  size q = q.num_elements

  unfoldable pub push_all : LfQueue A → List A → LfQueue A
  push_all q [] = q
  push_all q (x ∷ xs) = push_all (push q x) xs
