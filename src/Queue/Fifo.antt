-- ===== src/Queue/Fifo.antt =====
-- `LFQueue` of include/utils/containers/lock_free_queue.hpp as a first-in first-out queue: what it
-- holds, and what a push beyond its capacity does.
use hft_system.Prelude.{
  ℕ, zero, suc, ◌+◌, ◌-◌, ◌%◌, ◌^◌, ◌≤◌, ◌<◌, ◌≡◌, ◌≢◌, refl, arith, sym, ◌∙◌, ap, ap₂, List, [],
  ◌∷◌, ◌++◌, length, get_or, set, length-set, get_or-set_self, get_or-set_ne, length-replicate,
  none, some, dec_lt, append_assoc, append-nil, ℕ_discrete, ◌⊎◌, inl, inr,
}
use native.Mathlib.Nat.{mod-add-mod, mod-eq_of_lt, mod-eq-sub-mod}
use hft_system.Queue.{LfQueue, make, push, push_all, get_next_to_read, update_read_index}

advance :
    (slots r n w : ℕ)
    → n < slots
    → slots < 2 ^ 63
    → w ≡ (r + n) % slots
    → (w + 1) % slots ≡ (r + (n + 1) % 2 ^ 64) % slots
advance slots r n w h k e =
    let small : (n + 1) % 2 ^ 64 ≡ n + 1 = omega arith in
    rw (e, small, mod-add-mod) (ap (λ t. t % slots) (omega arith))

-- Fewer than `slots` slots further round the ring is another slot.
slot_apart : (slots r d : ℕ) → r < slots → 0 < d → d < slots → (r + d) % slots ≢ r
slot_apart slots r d r_in pos lt = elim (dec_lt (r + d) slots) [
  | yes h ↦ omega (arith, mod-eq_of_lt h)
  | no h ↦ omega (
    arith,
    mod-eq-sub-mod {n = r + d} {m = slots} (omega arith),
    mod-eq_of_lt {n = r + d - slots} {m = slots} (omega arith),
  )
]

slot_shift : (slots r d : ℕ) → (r + suc d) % slots ≡ ((r + 1) % slots + d) % slots
slot_shift slots r d = rw mod-add-mod (ap (λ t. t % slots) (omega arith))

step_back :
    (slots r n w : ℕ) → 0 < n → w ≡ (r + n) % slots → w ≡ ((r + 1) % slots + (n - 1)) % slots
step_back slots r n w h e = rw mod-add-mod (e ∙ ap (λ k. k % slots) (omega arith))

full_turn : (slots r : ℕ) → r < slots → (r + slots) % slots ≡ r
full_turn slots r h = omega (
  arith,
  mod-eq-sub-mod {n = r + slots} {m = slots} (omega arith),
  mod-eq_of_lt {n = r + slots - slots} {m = slots} (omega arith),
)

module _ {ℓ} {A : Type ℓ} where
  -- `n` elements from slot `r` on, round a ring of `slots` slots.
  abbrev pub segment : A → List A → ℕ → ℕ → ℕ → List A
  segment blank store slots r zero = []
  segment blank store slots r (suc n) =
      get_or store r blank ∷ segment blank store slots ((r + 1) % slots) n

  -- The elements that the queue holds, oldest first.
  abbrev pub contents : A → LfQueue A → List A
  contents blank q = segment blank q.store (length q.store) q.next_read_index q.num_elements

  length-segment :
      (blank : A) (store : List A) (slots r n : ℕ) → length (segment blank store slots r n) ≡ n
  length-segment blank store slots r zero = refl
  length-segment blank store slots r (suc n) =
      ap suc (length-segment blank store slots ((r + 1) % slots) n)

  pub length-contents : (blank : A) (q : LfQueue A) → length (contents blank q) ≡ q.num_elements
  length-contents blank q =
      length-segment blank q.store (length q.store) q.next_read_index q.num_elements

  -- The counters belong to a ring of less than 2 ^ 63 slots.
  pub record IsRing (q : LfQueue A) : Type ℓ where
    pub small : length q.store < 2 ^ 63
    pub read_in : q.next_read_index < length q.store
    pub held : q.num_elements ≤ length q.store
    pub write_at : q.next_write_index ≡ (q.next_read_index + q.num_elements) % length q.store

  pub IsRing-make : (n : ℕ) (blank : A) → 0 < n → n < 2 ^ 63 → IsRing (make n blank)
  IsRing-make n blank h k = record {
    small = omega (arith, length-replicate n blank);
    read_in = omega (arith, length-replicate n blank);
    held = omega arith;
    write_at = rw (length-replicate n blank) (grind arith);
  }

  -- A push keeps the ring as long as there is room.
  pub push-IsRing :
      (q : LfQueue A) (x : A) → IsRing q → q.num_elements < length q.store → IsRing (push q x)
  unfolding push
  push-IsRing q x v h = record {
    small = omega (arith, v.small, same);
    read_in = omega (arith, v.read_in, same);
    held = omega (arith, v.small, same);
    write_at = rw same (
        advance (length q.store) q.next_read_index q.num_elements q.next_write_index h v.small
          v.write_at);
  }
    where
      same : length (set q.store q.next_write_index x) ≡ length q.store
      same = length-set q.store q.next_write_index x

  -- A write to a slot `d` places on is not seen by a segment of at most `d` elements.
  segment-set :
      (blank : A) (store : List A) (slots i : ℕ) (x : A) (m d r : ℕ)
      → r < slots
      → m ≤ d
      → d < slots
      → i ≡ (r + d) % slots
      → segment blank (set store i x) slots r m ≡ segment blank store slots r m
  segment-set blank store slots i x zero d r r_in le lt e = refl
  segment-set blank store slots i x (suc m) zero r r_in le lt e = absurd (omega arith)
  segment-set blank store slots i x (suc m) (suc d) r r_in le lt e =
      ap₂ ◌∷◌
        (get_or-set_ne store i r x blank (rw e (slot_apart slots r (suc d) r_in (omega arith) lt)))
        (segment-set blank store slots i x m d ((r + 1) % slots) (omega arith) (omega arith)
          (omega arith) (e ∙ slot_shift slots r d))

  -- The last element of a segment.
  segment-snoc :
      (blank : A) (store : List A) (slots n r : ℕ)
      → r < slots
      → segment blank store slots r (suc n)
        ≡ segment blank store slots r n ++ (get_or store ((r + n) % slots) blank ∷ [])
  segment-snoc blank store slots zero r r_in =
      ap (λ k. get_or store k blank ∷ [])
        (sym (mod-eq_of_lt r_in) ∙ ap (λ k. k % slots) (omega arith))
  segment-snoc blank store slots (suc n) r r_in =
      ap (λ l. get_or store r blank ∷ l)
        (rw (slot_shift slots r n)
          (segment-snoc blank store slots n ((r + 1) % slots) (omega arith)))

  -- A push appends, as long as there is room.
  pub contents-push :
      (blank : A) (q : LfQueue A) (x : A)
      → IsRing q
      → q.num_elements < length q.store
      → contents blank (push q x) ≡ contents blank q ++ (x ∷ [])
  unfolding push
  contents-push blank q x v h =
      rw (length-set q.store q.next_write_index x, more)
        (segment-snoc blank store' slots n r v.read_in
          ∙ ap₂ (λ l y. l ++ (y ∷ []))
              (segment-set blank q.store slots q.next_write_index x n n r v.read_in (omega arith) h
                v.write_at)
              (rw (← v.write_at)
                (get_or-set_self q.store q.next_write_index x blank (omega (arith, v.write_at)))))
    where
      slots : ℕ
      slots = length q.store

      n : ℕ
      n = q.num_elements

      r : ℕ
      r = q.next_read_index

      store' : List A
      store' = set q.store q.next_write_index x

      more : (q.num_elements + 1) % 2 ^ 64 ≡ suc q.num_elements
      more = omega (arith, v.small)

  push_counts :
      (q : LfQueue A) (x : A)
      → (length (push q x).store ≡ length q.store)
        × ((push q x).num_elements ≡ (q.num_elements + 1) % 2 ^ 64)
  unfolding push
  push_counts q x = (length-set q.store q.next_write_index x, refl)

  segment_of_pos :
      (blank : A) (store : List A) (slots r n : ℕ)
      → 0 < n
      → segment blank store slots r n
        ≡ get_or store r blank ∷ segment blank store slots ((r + 1) % slots) (n - 1)
  segment_of_pos blank store slots r zero h = absurd (omega arith)
  segment_of_pos blank store slots r (suc n) h =
      ap (λ k. get_or store r blank ∷ segment blank store slots ((r + 1) % slots) k) (omega arith)

  -- On a ring that holds something, a read gives the oldest element, and the step after it takes
  -- that element off and keeps the ring; on an empty one the read gives nothing and the step
  -- fails.
  pub read-contents :
      (blank : A) (q : LfQueue A)
      → IsRing q
      → ((contents blank q ≡ []) × (get_next_to_read blank q ≡ none) × (update_read_index q ≡ none))
        ⊎ ((x : A) × (t : LfQueue A) × (contents blank q ≡ x ∷ contents blank t)
            × (get_next_to_read blank q ≡ some x)
            × (update_read_index q ≡ some t)
            × IsRing t)
  unfolding get_next_to_read update_read_index
  read-contents blank q v = elim (ℕ_discrete q.num_elements 0) [
    | yes e ↦ inl (rw e, ground arith, ground arith)
    | no ne ↦ inr (
      get_or q.store q.next_read_index blank,
      record q {
        next_read_index = (q.next_read_index + 1) % length q.store;
        num_elements = q.num_elements - 1;
      },
      segment_of_pos blank q.store (length q.store) q.next_read_index q.num_elements (omega arith),
      ground arith,
      ground arith,
      record {
        small = v.small;
        read_in = omega (arith, v.read_in);
        held = omega (arith, v.held);
        write_at =
            step_back (length q.store) q.next_read_index q.num_elements q.next_write_index
              (omega arith) v.write_at;
      },
    )
  ]

  pub push_all-append :
      (xs ys : List A) (q : LfQueue A) → push_all q (xs ++ ys) ≡ push_all (push_all q xs) ys
  unfolding push_all
  push_all-append [] ys q = refl
  push_all-append (x ∷ xs) ys q = push_all-append xs ys (push q x)

  -- Pushing a list onto a ring of fewer than 2 ^ 63 slots with room for all of it keeps the ring
  -- and appends the list to what it holds, in order.
  pub push_all-contents :
      (blank : A) (xs : List A) (q : LfQueue A)
      → IsRing q
      → q.num_elements + length xs ≤ length q.store
      → IsRing (push_all q xs) × (contents blank (push_all q xs) ≡ contents blank q ++ xs)
  unfolding push_all
  push_all-contents blank [] q v h = (v, sym (append-nil (contents blank q)))
  push_all-contents blank (x ∷ xs) q v h =
      let room : q.num_elements < length q.store = omega arith in
      let (w, e) =
        push_all-contents blank xs (push q x) (push-IsRing q x v room)
          (omega (arith, v.small, push_counts q x)) in
      (w, e ∙ rw (contents-push blank q x v room) (append_assoc (contents blank q) (x ∷ []) xs))

  -- A push on a full ring is not refused: the next read gives the new element in place of the
  -- oldest, and the queue counts more elements than it has slots.
  pub push_full :
      (blank : A) (q : LfQueue A) (x : A)
      → IsRing q
      → q.num_elements ≡ length q.store
      → (get_next_to_read blank (push q x) ≡ some x)
        × (length (push q x).store < (push q x).num_elements)
  unfolding get_next_to_read push
  push_full blank q x v full = (
    ground (
      arith,
      same,
      get_or-set_self q.store q.next_write_index x blank (omega (arith, same, v.read_in)),
      v.small,
    ),
    omega (arith, length-set q.store q.next_write_index x, v.small),
  )
    where
      same : q.next_write_index ≡ q.next_read_index
      same = v.write_at ∙ rw full (full_turn (length q.store) q.next_read_index v.read_in)
