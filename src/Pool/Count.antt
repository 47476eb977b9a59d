-- ===== src/Pool/Count.antt =====
-- The number of free blocks of `MemPool` of include/utils/containers/memory_pool.hpp under
-- `allocate` and `deallocate`.
use hft_system.Prelude.{
  ℕ, zero, suc, ◌+◌, ◌≤◌, ◌<◌, ◌≡◌, refl, arith, sym, ap, ◌∙◌, ◌⊎◌, inl, inr, Bool, true, false,
  List, [], ◌∷◌, length, length-set, get_or, set, none, some, Bool-cases, Option-cases, ℕ_discrete,
  dec_lt,
}
use mathlib.Core.Option.{some-injective}
use hft_system.Pool.{ObjectBlock, MemPool, free_at, find_free, allocate, deallocate}
use hft_system.Pool.Allocate.{free_at-within, free_at-set_ne, find_free_lem}

abbrev pub one_if : Bool → ℕ
one_if true = 1
one_if false = 0

module _ {ℓ} {A : Type ℓ} where
  abbrev pub count_free : List (ObjectBlock A) → ℕ
  count_free [] = 0
  count_free (b ∷ bs) = one_if b.is_free + count_free bs

  -- The next free block is free.
  abbrev pub IsReady : MemPool A → Type 0
  IsReady p = free_at p.blocks p.next_free_index ≡ true

  get_or-free_at :
      (bs : List (ObjectBlock A)) (i : ℕ) (blank : A)
      → i < length bs
      → (get_or bs i (record { object = blank; is_free = true })).is_free ≡ free_at bs i
  get_or-free_at [] i blank h = absurd (omega arith)
  get_or-free_at (b ∷ bs) zero blank h = refl
  get_or-free_at (b ∷ bs) (suc i) blank h = get_or-free_at bs i blank (omega arith)

  free_at-set-true :
      (bs : List (ObjectBlock A)) (i : ℕ) (b : ObjectBlock A)
      → i < length bs
      → b.is_free ≡ true
      → free_at (set bs i b) i ≡ true
  free_at-set-true [] i b h e = absurd (omega arith)
  free_at-set-true (c ∷ bs) zero b h e = e
  free_at-set-true (c ∷ bs) (suc i) b h e = free_at-set-true bs i b (omega arith) e

  count_free-set :
      (bs : List (ObjectBlock A)) (i : ℕ) (b : ObjectBlock A)
      → i < length bs
      → count_free (set bs i b) + one_if (free_at bs i) ≡ count_free bs + one_if b.is_free
  count_free-set [] i b h = absurd (omega arith)
  count_free-set (c ∷ bs) zero b h = omega arith
  count_free-set (c ∷ bs) (suc i) b h = omega (arith, count_free-set bs i b (omega arith))

  count_free_pos : (bs : List (ObjectBlock A)) (i : ℕ) → free_at bs i ≡ true → 0 < count_free bs
  count_free_pos [] i h = absurd (ground arith)
  count_free_pos (b ∷ bs) zero h = ground arith
  count_free_pos (b ∷ bs) (suc i) h = omega (arith, count_free_pos bs i h)

  count_free_none :
      (bs : List (ObjectBlock A))
      → ((i : ℕ) → i < length bs → free_at bs i ≡ false)
      → count_free bs ≡ 0
  count_free_none [] h = refl
  count_free_none (b ∷ bs) h =
      let unfree : b.is_free ≡ false = h 0 (omega arith) in
      let rest = count_free_none bs (λ i i_in. h (suc i) (omega arith)) in
      rw (unfree, rest) (omega arith)

  allocate_lem :
      (p : MemPool A) (x : A)
      → IsReady p
      → let blocks = set p.blocks p.next_free_index (record { object = x; is_free = false }) in
        ((find_free blocks p.next_free_index p.next_free_index (length blocks) ≡ none)
          × (allocate p x ≡ none))
        ⊎ ((j : ℕ) × (find_free blocks p.next_free_index p.next_free_index (length blocks) ≡ some j)
            × (allocate p x
                ≡ some (p.next_free_index, record { blocks = blocks; next_free_index = j })))
  unfolding allocate
  allocate_lem p x ready =
      let blocks = set p.blocks p.next_free_index (record { object = x; is_free = false }) in
      elim (Option-cases (find_free blocks p.next_free_index p.next_free_index (length blocks))) [
        | inl e ↦ inl (e, ground arith)
        | inr (j, e) ↦ inr (j, e, ground arith)
      ]

  -- The search after an allocation starts at a block in use.
  used_blocks :
      (p : MemPool A) (x : A)
      → IsReady p
      → let blocks = set p.blocks p.next_free_index (record { object = x; is_free = false }) in
        ((j : ℕ) × (find_free blocks p.next_free_index p.next_free_index (length blocks) ≡ some j)
          × (free_at blocks j ≡ true))
        ⊎ ((find_free blocks p.next_free_index p.next_free_index (length blocks) ≡ none)
            × (count_free blocks ≡ 0))
  used_blocks p x ready =
      let i = p.next_free_index in
      let blocks = set p.blocks i (record { object = x; is_free = false }) in
      let i_in : i < length blocks = omega (
        arith,
        free_at-within p.blocks i ready,
        length-set p.blocks i (record { object = x; is_free = false }),
      ) in
      elim (find_free_lem blocks i i (length blocks) i_in i_in (inl (omega arith, omega arith))) [
        | inl found ↦ inl found
        | inr (e, rest) ↦ inr (
          e,
          count_free_none blocks (λ j j_in. elim (dec_lt j i) [
            | yes lt ↦ rest j (inr (inl (omega arith, lt))) j_in
            | no ge ↦ rest j (inl (omega arith, omega arith)) j_in
          ]),
        )
      ]

  -- In a pool whose next block is free: if it is the only free one, an allocation ends the
  -- process; else it fills that block and no other, one fewer is free, and the next block is free
  -- again.
  pub allocate-count_free :
      (p : MemPool A) (x : A)
      → IsReady p
      → ((count_free p.blocks ≡ 1) × (allocate p x ≡ none))
        ⊎ ((p' : MemPool A) × (allocate p x ≡ some (p.next_free_index, p'))
            × (p'.blocks ≡ set p.blocks p.next_free_index (record { object = x; is_free = false }))
            × (count_free p'.blocks + 1 ≡ count_free p.blocks)
            × IsReady p')
  allocate-count_free p x ready =
      let i = p.next_free_index in
      let b : ObjectBlock A = record { object = x; is_free = false } in
      let i_in = free_at-within p.blocks i ready in
      let less : count_free (set p.blocks i b) + 1 ≡ count_free p.blocks =
        omega (arith, count_free-set p.blocks i b i_in, ap one_if ready) in
      elim (allocate_lem p x ready) [
        | inl (failed, e) ↦ elim (used_blocks p x ready) [
          | inl (j, found, free) ↦ absurd (ground arith)
          | inr (failed', nothing) ↦ inl (omega arith, e)
        ]
        | inr (j, found, e) ↦ elim (used_blocks p x ready) [
          | inl (k, found', free) ↦ inr (
            _,
            e,
            refl,
            less,
            ap (free_at (set p.blocks i b)) (some-injective _ _ (sym found ∙ found')) ∙ free,
          )
          | inr (failed, nothing) ↦ absurd (ground arith)
        ]
      ]

  -- In a pool whose next block is free: giving back a block in use frees it, one more is free, and
  -- the next block is still free; giving back a block that is free or not of the pool ends the
  -- process.
  pub deallocate-count_free :
      (blank : A) (p : MemPool A) (i : ℕ)
      → IsReady p
      → ((p' : MemPool A) × (i < length p.blocks)
          × (free_at p.blocks i ≡ false)
          × (deallocate blank p i ≡ some p')
          × (free_at p'.blocks i ≡ true)
          × (count_free p'.blocks ≡ count_free p.blocks + 1)
          × IsReady p')
        ⊎ (((free_at p.blocks i ≡ true) ⊎ (length p.blocks ≤ i)) × (deallocate blank p i ≡ none))
  unfolding deallocate
  deallocate-count_free blank p i ready = elim (dec_lt i (length p.blocks)) [
    | no out ↦ inr (inr (omega arith), ground arith)
    | yes i_in ↦ elim (Bool-cases (free_at p.blocks i)) [
      | inl free ↦ inr (inl free, ground (arith, get_or-free_at p.blocks i blank i_in))
      | inr used ↦
          let old = get_or p.blocks i (record { object = blank; is_free = true }) in
          let b : ObjectBlock A = record old { is_free = true } in
          inl (
            record p { blocks = set p.blocks i b },
            i_in,
            used,
            ground (arith, get_or-free_at p.blocks i blank i_in),
            free_at-set-true p.blocks i b i_in refl,
            omega (arith, count_free-set p.blocks i b i_in, ap one_if used),
            elim (ℕ_discrete i p.next_free_index) [
              | yes e ↦ rw (← e) (free_at-set-true p.blocks i b i_in refl)
              | no ne ↦ free_at-set_ne p.blocks i p.next_free_index b ne ∙ ready
            ],
          )
    ]
  ]
