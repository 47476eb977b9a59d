-- ===== src/Aggregator/Window.antt =====
-- The window of ticks of
-- src/market_data/historical_data_aggregator/historical_aggregator.cpp.
use hft_system.Prelude.{
  ◌+◌, ◌≤◌, ◌<◌, ◌≡◌, refl, arith, sym, ap, ◌∙◌, List, [], ◌∷◌, ◌++◌, length, set, drop, some, none,
  ◌⊎◌, inl, inr, append_assoc, append-nil, length-append, ap₂, subst,
}
use hft_system.Prelude.Double.{Double}
use hft_system.Aggregator.{Ticks, fresh, insert_tick, insert_ticks}

set-append :
    {A : Type 0} (xs ys : List A) (y p : A)
    → set (xs ++ (y ∷ ys)) (length xs) p ≡ (xs ++ (p ∷ [])) ++ ys
set-append [] ys y p = refl
set-append (x ∷ xs) ys y p = ap (λ l. x ∷ l) (set-append xs ys y p)

module _ {D : Type 0} (d : Double D) where
  insert_ticks_lem :
      (t t' : Ticks D) (p : D) (ps : List D)
      → insert_tick d t p ≡ some t'
      → insert_ticks d t (p ∷ ps) ≡ insert_ticks d t' ps
  unfolding insert_ticks
  insert_ticks_lem t t' p ps e = rw (insert_ticks, e) refl

  insert_ticks_empty :
      (t : Ticks D) (p : D) (ps : List D)
      → insert_tick d t p ≡ none
      → insert_ticks d t (p ∷ ps) ≡ none
  unfolding insert_ticks
  insert_ticks_empty t p ps e = rw (insert_ticks, e) refl

  insert_tick_in :
      (t : Ticks D) (p : D)
      → length t.tick_data ≡ 100
      → t.write_index < 100
      → t.num_of_elements ≡ t.write_index
      → insert_tick d t p
        ≡ some (record t {
          tick_data = set t.tick_data t.write_index p;
          write_index = t.write_index + 1;
          num_of_elements = t.write_index + 1;
        })
  unfolding insert_tick
  insert_tick_in t p len below same = ground arith

  insert_tick_out :
      (t : Ticks D) (p : D)
      → length t.tick_data ≡ 100
      → t.write_index ≡ 100
      → insert_tick d t p ≡ none
  unfolding insert_tick
  insert_tick_out t p len full = ground arith

  -- The ticks `xs` are there, and `ys` are the elements not yet written.
  abbrev pub Holds : Ticks D → List D → List D → Type 0
  Holds t xs ys =
      (t.tick_data ≡ xs ++ ys) × (t.write_index ≡ length xs) × (t.num_of_elements ≡ length xs)

  insert_ticks-Holds :
      (ps xs ys : List D) (t : Ticks D)
      → Holds t xs ys
      → length xs + length ys ≡ 100
      → ((length ps ≤ length ys)
          × ((t' : Ticks D) × (insert_ticks d t ps ≡ some t')
              × Holds t' (xs ++ ps) (drop (length ps) ys)))
        ⊎ ((length ys < length ps) × (insert_ticks d t ps ≡ none))
  unfolding insert_ticks
  insert_ticks-Holds [] xs ys t (e, w, n) all = inl (
    omega arith,
    (
      t,
      refl,
      (
        e ∙ ap (λ l. l ++ ys) (sym (append-nil xs)),
        w ∙ ap length (sym (append-nil xs)),
        n ∙ ap length (sym (append-nil xs)),
      ),
    ),
  )
  insert_ticks-Holds (p ∷ ps) xs [] t (e, w, n) all =
      let len : length t.tick_data ≡ 100 = omega (arith, ap length e, length-append xs []) in
      inr (omega arith, insert_ticks_empty t p ps (insert_tick_out t p len (omega arith)))
  insert_ticks-Holds (p ∷ ps) xs (y ∷ ys) t (e, w, n) all =
      let len : length t.tick_data ≡ 100 = omega (arith, ap length e, length-append xs (y ∷ ys)) in
      let one = insert_tick_in t p len (omega arith) (n ∙ sym w) in
      let grown = length-append xs (p ∷ []) in
      let t1 : Ticks D = record t {
        tick_data = set t.tick_data t.write_index p;
        write_index = t.write_index + 1;
        num_of_elements = t.write_index + 1;
      } in
      let held =
        insert_ticks-Holds ps (xs ++ (p ∷ [])) ys t1
          (
            ap₂ (λ l i. set l i p) e w ∙ set-append xs ys y p,
            omega (arith, grown),
            omega (arith, grown),
          )
          (omega (arith, grown)) in
      elim held [
        | inl (fits, (t', ends, h)) ↦ inl (
          omega arith,
          (
            t',
            insert_ticks_lem t t1 p ps one ∙ ends,
            subst (λ l. Holds t' l (drop (length ps) ys)) (append_assoc xs (p ∷ []) ps) h,
          ),
        )
        | inr (over, ends) ↦ inr (omega arith, insert_ticks_lem t t1 p ps one ∙ ends)
      ]

  -- From a fresh aggregator on, up to 100 ticks fill the array from its start in order, with the
  -- index and the count at their number; the hundred and first tick is written beyond the end of
  -- the array.
  pub insert_ticks-fresh :
      (memory ps : List D)
      → length memory ≡ 100
      → ((length ps ≤ 100)
          × ((t : Ticks D) × (insert_ticks d (fresh d memory) ps ≡ some t)
              × Holds t ps (drop (length ps) memory)))
        ⊎ ((100 < length ps) × (insert_ticks d (fresh d memory) ps ≡ none))
  insert_ticks-fresh memory ps len =
      elim (insert_ticks-Holds ps [] memory (fresh d memory) (refl, refl, refl) (omega arith)) [
        | inl (fits, held) ↦ inl (omega arith, held)
        | inr (over, ends) ↦ inr (omega arith, ends)
      ]
