-- ===== src/Queue/Tests.antt =====
-- Runs of `LFQueue` of include/utils/containers/lock_free_queue.hpp, and its theorems at concrete
-- queues.
use hft_system.Prelude.{ℕ, ◌<◌, ◌≡◌, refl, arith, [], ◌∷◌, ◌++◌, length, none, some, ◌⊎◌}
use hft_system.Queue.{
  LfQueue, make, push, push_all, get_next_to_read, update_read_index, write_slot,
  update_write_index,
}
use hft_system.Queue.Fifo.{
  IsRing, contents, IsRing-make, push_all-contents, read-contents, push_full,
}

abbrev three : LfQueue ℕ
three = make 3 0

abbrev full : LfQueue ℕ
full = push_all three (7 ∷ 8 ∷ 9 ∷ [])

full_reads : get_next_to_read 0 full ≡ some 7
unfolding get_next_to_read push_all push write_slot update_write_index
full_reads = refl

wrapped : get_next_to_read 0 (push full 1) ≡ some 1
unfolding get_next_to_read push_all push write_slot update_write_index
wrapped = refl

push_all-contents_example : IsRing full × (contents 0 full ≡ contents 0 three ++ (7 ∷ 8 ∷ 9 ∷ []))
push_all-contents_example =
    push_all-contents 0 (7 ∷ 8 ∷ 9 ∷ []) three (IsRing-make 3 0 (omega arith) (omega arith))
      (omega arith)

full-IsRing : IsRing full
full-IsRing =
    (push_all-contents 0 (7 ∷ 8 ∷ 9 ∷ []) three (IsRing-make 3 0 (omega arith) (omega arith))
      (omega arith)).0

read-contents_example :
    ((contents 0 full ≡ []) × (get_next_to_read 0 full ≡ none) × (update_read_index full ≡ none))
    ⊎ ((x : ℕ) × (t : LfQueue ℕ) × (contents 0 full ≡ x ∷ contents 0 t)
        × (get_next_to_read 0 full ≡ some x)
        × (update_read_index full ≡ some t)
        × IsRing t)
read-contents_example = read-contents 0 full full-IsRing

push_full_example :
    (get_next_to_read 0 (push full 1) ≡ some 1)
    × (length (push full 1).store < (push full 1).num_elements)
unfolding push_all push write_slot update_write_index
push_full_example = push_full 0 full 1 full-IsRing refl
