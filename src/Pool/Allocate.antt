-- ===== src/Pool/Allocate.antt =====
-- The search for a free block in include/utils/containers/memory_pool.hpp, and what an allocation
-- changes.
use hft_system.Prelude.{
  ℕ, zero, suc, ◌+◌, ◌-◌, ◌≤◌, ◌<◌, ◌≡◌, ◌≢◌, refl, arith, ap, ◌⊎◌, inl, inr, true, false, List, [],
  ◌∷◌, length, set, none, some, Bool-cases, ℕ_discrete,
}
use hft_system.Pool.{ObjectBlock, free_at, next_index, find_free}

-- `j` is one of the indices from `i` on, round the store, before `initial` is met again.
abbrev pub Ahead : ℕ → ℕ → ℕ → Type 0
Ahead initial i j =
    ((initial ≤ i) × (i ≤ j))
    ⊎ (((initial ≤ i) × (j < initial)) ⊎ ((i < initial) × (i ≤ j) × (j < initial)))

module _ {ℓ} {A : Type ℓ} where
  pub free_at-within : (bs : List (ObjectBlock A)) (i : ℕ) → free_at bs i ≡ true → i < length bs
  free_at-within [] i h = absurd (ground arith)
  free_at-within (b ∷ bs) zero h = omega arith
  free_at-within (b ∷ bs) (suc i) h = omega (arith, free_at-within bs i h)

  pub free_at-set_self :
      (bs : List (ObjectBlock A)) (i : ℕ) (x : A)
      → free_at (set bs i (record { object = x; is_free = false })) i ≡ false
  free_at-set_self [] i x = refl
  free_at-set_self (b ∷ bs) zero x = refl
  free_at-set_self (b ∷ bs) (suc i) x = free_at-set_self bs i x

  pub free_at-set_ne :
      (bs : List (ObjectBlock A)) (i j : ℕ) (b : ObjectBlock A)
      → i ≢ j
      → free_at (set bs i b) j ≡ free_at bs j
  free_at-set_ne [] i j b ne = refl
  free_at-set_ne (c ∷ bs) zero zero b ne = absurd (ne refl)
  free_at-set_ne (c ∷ bs) zero (suc j) b ne = refl
  free_at-set_ne (c ∷ bs) (suc i) zero b ne = refl
  free_at-set_ne (c ∷ bs) (suc i) (suc j) b ne = free_at-set_ne bs i j b (λ e. ne (ap suc e))

  -- A search that fails has met no free block; one that succeeds gives a free block.
  pub find_free_lem :
      (bs : List (ObjectBlock A)) (initial i fuel : ℕ)
      → initial < length bs
      → i < length bs
      → ((initial ≤ i) × (length bs ≤ fuel + (i - initial)))
        ⊎ ((i < initial) × (initial ≤ fuel + i))
      → ((j : ℕ) × (find_free bs initial i fuel ≡ some j) × (free_at bs j ≡ true))
        ⊎ ((find_free bs initial i fuel ≡ none)
            × ((j : ℕ) → Ahead initial i j → j < length bs → free_at bs j ≡ false))
  unfolding find_free
  find_free_lem bs initial i zero initial_in i_in enough = absurd (ground arith)
  find_free_lem bs initial i (suc fuel) initial_in i_in enough = elim (Bool-cases (free_at bs i)) [
    | inl free ↦ inl (i, ground arith, free)
    | inr used ↦ elim (ℕ_discrete initial (next_index (length bs) i)) [
      | yes met ↦ inr (
        ground arith,
        λ j ahead j_in. elim (ℕ_discrete i j) [
          | yes e ↦ rw (← e) used
          | no ne ↦ absurd (ground arith)
        ],
      )
      | no ne ↦
          elim (find_free_lem bs initial (next_index (length bs) i) fuel initial_in (ground arith)
            (ground arith)) [
              | inl (j, found, free) ↦ inl (j, ground arith, free)
              | inr (none_found, rest) ↦ inr (
                ground arith,
                λ j ahead j_in. elim (ℕ_discrete i j) [
                  | yes e ↦ rw (← e) used
                  | no ne' ↦ rest j (ground arith) j_in
                ],
              )
            ]
    ]
  ]
